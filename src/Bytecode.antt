-- ===== src/Bytecode.antt =====
-- src/bytecode.rs and src/compile.rs: the typed instructions. The type of floats and that of compiled
-- regular expressions are parameters. Strings are lists of bytes.
-- `Instr::Record` is `record_call`: its own name is reserved.
pub mod Registers
use frawk.Prelude.{ℕ, ℤ, Bool, Option, List}
use frawk.Compile.{Ty}
use frawk.Builtins.Function.{FloatFunc, Bitwise, Variable}

-- The type of a register is a type parameter in the source.
pub record Reg (t : Ty) : Type 0 where
  pub index : ℕ

-- `Accum::reflect`
abbrev pub reflect : {t : Ty} → Reg t → ℕ × Ty
reflect {t = t} r = (r.index, t)

pub data FileSpec : Type 0 where
  trunc append cmd : FileSpec

pub data Instr (Float Regex : Type 0) : Type 0 where
  store_const_str : Reg Ty.str → List ℕ → Instr Float Regex
  store_const_int : Reg Ty.int → ℤ → Instr Float Regex
  store_const_float : Reg Ty.float → Float → Instr Float Regex
  int_to_str : Reg Ty.str → Reg Ty.int → Instr Float Regex
  float_to_str : Reg Ty.str → Reg Ty.float → Instr Float Regex
  str_to_int hex_str_to_int : Reg Ty.int → Reg Ty.str → Instr Float Regex
  float_to_int : Reg Ty.int → Reg Ty.float → Instr Float Regex
  int_to_float : Reg Ty.float → Reg Ty.int → Instr Float Regex
  str_to_float : Reg Ty.float → Reg Ty.str → Instr Float Regex
  mov : Ty → ℕ → ℕ → Instr Float Regex
  alloc_map : Ty → ℕ → Instr Float Regex
  add_int : Reg Ty.int → Reg Ty.int → Reg Ty.int → Instr Float Regex
  add_float mul_float : Reg Ty.float → Reg Ty.float → Reg Ty.float → Instr Float Regex
  mul_int : Reg Ty.int → Reg Ty.int → Reg Ty.int → Instr Float Regex
  div pow minus_float : Reg Ty.float → Reg Ty.float → Reg Ty.float → Instr Float Regex
  minus_int : Reg Ty.int → Reg Ty.int → Reg Ty.int → Instr Float Regex
  mod_float : Reg Ty.float → Reg Ty.float → Reg Ty.float → Instr Float Regex
  mod_int : Reg Ty.int → Reg Ty.int → Reg Ty.int → Instr Float Regex
  not : Reg Ty.int → Reg Ty.int → Instr Float Regex
  not_str : Reg Ty.int → Reg Ty.str → Instr Float Regex
  neg_int : Reg Ty.int → Reg Ty.int → Instr Float Regex
  neg_float : Reg Ty.float → Reg Ty.float → Instr Float Regex
  float1 : FloatFunc → Reg Ty.float → Reg Ty.float → Instr Float Regex
  float2 : FloatFunc → Reg Ty.float → Reg Ty.float → Reg Ty.float → Instr Float Regex
  int1 : Bitwise → Reg Ty.int → Reg Ty.int → Instr Float Regex
  int2 : Bitwise → Reg Ty.int → Reg Ty.int → Reg Ty.int → Instr Float Regex
  rand : Reg Ty.float → Instr Float Regex
  srand : Reg Ty.int → Reg Ty.int → Instr Float Regex
  reseed_rng : Reg Ty.int → Instr Float Regex
  concat : Reg Ty.str → Reg Ty.str → Reg Ty.str → Instr Float Regex
  starts_with_const : Reg Ty.int → Reg Ty.str → List ℕ → Instr Float Regex
  is_match : Reg Ty.int → Reg Ty.str → Reg Ty.str → Instr Float Regex
  is_match_const : Reg Ty.int → Reg Ty.str → Regex → Instr Float Regex
  match : Reg Ty.int → Reg Ty.str → Reg Ty.str → Instr Float Regex
  match_const : Reg Ty.int → Reg Ty.str → Regex → Instr Float Regex
  substr_index substr_last_index : Reg Ty.int → Reg Ty.str → Reg Ty.str → Instr Float Regex
  strlen len_str : Reg Ty.int → Reg Ty.str → Instr Float Regex
  sub gsub : Reg Ty.int → Reg Ty.str → Reg Ty.str → Reg Ty.str → Instr Float Regex
  gen_sub_dynamic :
      Reg Ty.str → Reg Ty.str → Reg Ty.str → Reg Ty.str → Reg Ty.str → Instr Float Regex
  escape_csv escape_tsv : Reg Ty.str → Reg Ty.str → Instr Float Regex
  substr : Reg Ty.str → Reg Ty.str → Reg Ty.int → Reg Ty.int → Instr Float Regex
  char_at : Reg Ty.str → Reg Ty.str → Reg Ty.int → Instr Float Regex
  chars : Reg Ty.map_int_str → Reg Ty.str → Instr Float Regex
  last_part : Reg Ty.str → Reg Ty.str → Reg Ty.str → Instr Float Regex
  lt_float : Reg Ty.int → Reg Ty.float → Reg Ty.float → Instr Float Regex
  lt_int : Reg Ty.int → Reg Ty.int → Reg Ty.int → Instr Float Regex
  lt_str : Reg Ty.int → Reg Ty.str → Reg Ty.str → Instr Float Regex
  gt_float : Reg Ty.int → Reg Ty.float → Reg Ty.float → Instr Float Regex
  gt_int : Reg Ty.int → Reg Ty.int → Reg Ty.int → Instr Float Regex
  gt_str : Reg Ty.int → Reg Ty.str → Reg Ty.str → Instr Float Regex
  lte_float : Reg Ty.int → Reg Ty.float → Reg Ty.float → Instr Float Regex
  lte_int : Reg Ty.int → Reg Ty.int → Reg Ty.int → Instr Float Regex
  lte_str : Reg Ty.int → Reg Ty.str → Reg Ty.str → Instr Float Regex
  gte_float : Reg Ty.int → Reg Ty.float → Reg Ty.float → Instr Float Regex
  gte_int : Reg Ty.int → Reg Ty.int → Reg Ty.int → Instr Float Regex
  gte_str : Reg Ty.int → Reg Ty.str → Reg Ty.str → Instr Float Regex
  eq_float : Reg Ty.int → Reg Ty.float → Reg Ty.float → Instr Float Regex
  eq_int : Reg Ty.int → Reg Ty.int → Reg Ty.int → Instr Float Regex
  eq_str : Reg Ty.int → Reg Ty.str → Reg Ty.str → Instr Float Regex
  set_column : Reg Ty.int → Reg Ty.str → Instr Float Regex
  get_column : Reg Ty.str → Reg Ty.int → Instr Float Regex
  join_csv join_tsv : Reg Ty.str → Reg Ty.int → Reg Ty.int → Instr Float Regex
  join_columns : Reg Ty.str → Reg Ty.int → Reg Ty.int → Reg Ty.str → Instr Float Regex
  to_upper_ascii to_lower_ascii : Reg Ty.str → Reg Ty.str → Instr Float Regex
  read_err : Reg Ty.int → Reg Ty.str → Bool → Instr Float Regex
  next_line : Reg Ty.str → Reg Ty.str → Bool → Instr Float Regex
  read_err_stdin : Reg Ty.int → Instr Float Regex
  next_line_stdin : Reg Ty.str → Instr Float Regex
  next_line_stdin_fused next_file : Instr Float Regex
  uuid : Reg Ty.str → Reg Ty.str → Instr Float Regex
  snow_flake : Reg Ty.int → Reg Ty.int → Instr Float Regex
  ulid tsid local_ip whoami version os os_family arch pwd user_home : Reg Ty.str → Instr Float Regex
  get_env : Reg Ty.str → Reg Ty.str → Reg Ty.str → Instr Float Regex
  strftime : Reg Ty.str → Reg Ty.str → Reg Ty.int → Instr Float Regex
  encode decode digest : Reg Ty.str → Reg Ty.str → Reg Ty.str → Instr Float Regex
  hmac : Reg Ty.str → Reg Ty.str → Reg Ty.str → Reg Ty.str → Instr Float Regex
  jwt : Reg Ty.str → Reg Ty.str → Reg Ty.str → Reg Ty.map_str_str → Instr Float Regex
  dejwt : Reg Ty.map_str_str → Reg Ty.str → Reg Ty.str → Instr Float Regex
  encrypt decrypt : Reg Ty.str → Reg Ty.str → Reg Ty.str → Reg Ty.str → Instr Float Regex
  mktime : Reg Ty.int → Reg Ty.str → Reg Ty.int → Instr Float Regex
  duration mk_bool : Reg Ty.int → Reg Ty.str → Instr Float Regex
  mk_password : Reg Ty.str → Reg Ty.int → Instr Float Regex
  systime : Reg Ty.int → Instr Float Regex
  fend : Reg Ty.str → Reg Ty.str → Instr Float Regex
  map_str_int_eval : Reg Ty.float → Reg Ty.str → Reg Ty.map_str_int → Instr Float Regex
  map_str_float_eval : Reg Ty.float → Reg Ty.str → Reg Ty.map_str_float → Instr Float Regex
  map_str_str_eval : Reg Ty.float → Reg Ty.str → Reg Ty.map_str_str → Instr Float Regex
  eval : Reg Ty.float → Reg Ty.str → Instr Float Regex
  min max : Reg Ty.str → Reg Ty.str → Reg Ty.str → Reg Ty.str → Instr Float Regex
  seq : Reg Ty.map_int_float → Reg Ty.float → Reg Ty.float → Reg Ty.float → Instr Float Regex
  url : Reg Ty.map_str_str → Reg Ty.str → Instr Float Regex
  pairs : Reg Ty.map_str_str → Reg Ty.str → Reg Ty.str → Reg Ty.str → Instr Float Regex
  record_call message sem_ver path data_url : Reg Ty.map_str_str → Reg Ty.str → Instr Float Regex
  date_time : Reg Ty.map_str_int → Reg Ty.str → Instr Float Regex
  shlex tuple : Reg Ty.map_int_str → Reg Ty.str → Instr Float Regex
  flags : Reg Ty.map_str_int → Reg Ty.str → Instr Float Regex
  parse_array : Reg Ty.map_int_str → Reg Ty.str → Instr Float Regex
  hex2rgb : Reg Ty.map_int_int → Reg Ty.str → Instr Float Regex
  rgb2hex : Reg Ty.str → Reg Ty.int → Reg Ty.int → Reg Ty.int → Instr Float Regex
  variant : Reg Ty.map_str_str → Reg Ty.str → Instr Float Regex
  func : Reg Ty.map_int_str → Reg Ty.str → Instr Float Regex
  uniq : Reg Ty.map_int_str → Reg Ty.map_int_str → Reg Ty.str → Instr Float Regex
  type_of_array type_of_number type_of_string type_of_unassigned : Reg Ty.str → Instr Float Regex
  is_array_true is_array_false is_int_true is_int_false : Reg Ty.int → Instr Float Regex
  is_str_int : Reg Ty.int → Reg Ty.str → Instr Float Regex
  is_num_true is_num_false : Reg Ty.int → Instr Float Regex
  is_str_num : Reg Ty.int → Reg Ty.str → Instr Float Regex
  is_format : Reg Ty.int → Reg Ty.str → Reg Ty.str → Instr Float Regex
  http_get : Reg Ty.map_str_str → Reg Ty.str → Reg Ty.map_str_str → Instr Float Regex
  http_post : Reg Ty.map_str_str → Reg Ty.str → Reg Ty.str → Reg Ty.map_str_str → Instr Float Regex
  send_mail : Reg Ty.str → Reg Ty.str → Reg Ty.str → Reg Ty.str → Instr Float Regex
  smtp_send : Reg Ty.str → Reg Ty.str → Reg Ty.str → Reg Ty.str → Reg Ty.str → Instr Float Regex
  s3_get : Reg Ty.str → Reg Ty.str → Reg Ty.str → Instr Float Regex
  s3_put : Reg Ty.str → Reg Ty.str → Reg Ty.str → Reg Ty.str → Instr Float Regex
  kv_get kv_put : Reg Ty.str → Reg Ty.str → Reg Ty.str → Instr Float Regex
  kv_delete : Reg Ty.str → Reg Ty.str → Instr Float Regex
  kv_clear : Reg Ty.str → Instr Float Regex
  read_all write_all : Reg Ty.str → Reg Ty.str → Instr Float Regex
  read_config : Reg Ty.map_str_str → Reg Ty.str → Instr Float Regex
  log_debug log_info log_warn log_error : Reg Ty.str → Instr Float Regex
  sqlite_query : Reg Ty.map_int_str → Reg Ty.str → Reg Ty.str → Instr Float Regex
  sqlite_execute : Reg Ty.int → Reg Ty.str → Reg Ty.str → Instr Float Regex
  libsql_query : Reg Ty.map_int_str → Reg Ty.str → Reg Ty.str → Instr Float Regex
  libsql_execute : Reg Ty.int → Reg Ty.str → Reg Ty.str → Instr Float Regex
  mysql_query : Reg Ty.map_int_str → Reg Ty.str → Reg Ty.str → Instr Float Regex
  mysql_execute : Reg Ty.int → Reg Ty.str → Reg Ty.str → Instr Float Regex
  pg_query : Reg Ty.map_int_str → Reg Ty.str → Reg Ty.str → Instr Float Regex
  pg_execute : Reg Ty.int → Reg Ty.str → Reg Ty.str → Instr Float Regex
  publish bloom_filter_insert : Reg Ty.str → Reg Ty.str → Instr Float Regex
  bloom_filter_contains bloom_filter_contains_with_insert :
      Reg Ty.int → Reg Ty.str → Reg Ty.str → Instr Float Regex
  fake : Reg Ty.str → Reg Ty.str → Reg Ty.str → Instr Float Regex
  from_json : Reg Ty.map_str_str → Reg Ty.str → Instr Float Regex
  map_int_int_to_json : Reg Ty.str → Reg Ty.map_int_int → Instr Float Regex
  map_int_float_to_json : Reg Ty.str → Reg Ty.map_int_float → Instr Float Regex
  map_int_str_to_json : Reg Ty.str → Reg Ty.map_int_str → Instr Float Regex
  map_str_int_to_json : Reg Ty.str → Reg Ty.map_str_int → Instr Float Regex
  map_str_float_to_json : Reg Ty.str → Reg Ty.map_str_float → Instr Float Regex
  map_str_str_to_json : Reg Ty.str → Reg Ty.map_str_str → Instr Float Regex
  str_to_json : Reg Ty.str → Reg Ty.str → Instr Float Regex
  int_to_json : Reg Ty.str → Reg Ty.int → Instr Float Regex
  float_to_json : Reg Ty.str → Reg Ty.float → Instr Float Regex
  null_to_json : Reg Ty.str → Instr Float Regex
  json_value : Reg Ty.str → Reg Ty.str → Reg Ty.str → Instr Float Regex
  json_query : Reg Ty.map_int_str → Reg Ty.str → Reg Ty.str → Instr Float Regex
  html_value : Reg Ty.str → Reg Ty.str → Reg Ty.str → Instr Float Regex
  html_query : Reg Ty.map_int_str → Reg Ty.str → Reg Ty.str → Instr Float Regex
  xml_value : Reg Ty.str → Reg Ty.str → Reg Ty.str → Instr Float Regex
  xml_query : Reg Ty.map_int_str → Reg Ty.str → Reg Ty.str → Instr Float Regex
  dump_map_int_int : Reg Ty.map_int_int → Instr Float Regex
  dump_map_int_float : Reg Ty.map_int_float → Instr Float Regex
  dump_map_int_str : Reg Ty.map_int_str → Instr Float Regex
  dump_map_str_int : Reg Ty.map_str_int → Instr Float Regex
  dump_map_str_float : Reg Ty.map_str_float → Instr Float Regex
  dump_map_str_str : Reg Ty.map_str_str → Instr Float Regex
  dump_str : Reg Ty.str → Instr Float Regex
  dump_int : Reg Ty.int → Instr Float Regex
  dump_float : Reg Ty.float → Instr Float Regex
  dump_null : Instr Float Regex
  map_int_int_asort : Reg Ty.int → Reg Ty.map_int_int → Reg Ty.map_int_int → Instr Float Regex
  map_int_float_asort : Reg Ty.int → Reg Ty.map_int_float → Reg Ty.map_int_float → Instr Float Regex
  map_int_str_asort : Reg Ty.int → Reg Ty.map_int_str → Reg Ty.map_int_str → Instr Float Regex
  map_int_int_join : Reg Ty.str → Reg Ty.map_int_int → Reg Ty.str → Instr Float Regex
  map_int_float_join : Reg Ty.str → Reg Ty.map_int_float → Reg Ty.str → Instr Float Regex
  map_int_str_join : Reg Ty.str → Reg Ty.map_int_str → Reg Ty.str → Instr Float Regex
  map_int_int_max : Reg Ty.int → Reg Ty.map_int_int → Instr Float Regex
  map_int_float_max : Reg Ty.float → Reg Ty.map_int_float → Instr Float Regex
  map_int_int_min : Reg Ty.int → Reg Ty.map_int_int → Instr Float Regex
  map_int_float_min : Reg Ty.float → Reg Ty.map_int_float → Instr Float Regex
  map_int_int_sum : Reg Ty.int → Reg Ty.map_int_int → Instr Float Regex
  map_int_float_sum : Reg Ty.float → Reg Ty.map_int_float → Instr Float Regex
  map_int_int_mean : Reg Ty.int → Reg Ty.map_int_int → Instr Float Regex
  map_int_float_mean : Reg Ty.float → Reg Ty.map_int_float → Instr Float Regex
  from_csv : Reg Ty.map_int_str → Reg Ty.str → Instr Float Regex
  map_int_int_to_csv : Reg Ty.str → Reg Ty.map_int_int → Instr Float Regex
  map_int_float_to_csv : Reg Ty.str → Reg Ty.map_int_float → Instr Float Regex
  map_int_str_to_csv : Reg Ty.str → Reg Ty.map_int_str → Instr Float Regex
  trim escape : Reg Ty.str → Reg Ty.str → Reg Ty.str → Instr Float Regex
  truncate : Reg Ty.str → Reg Ty.str → Reg Ty.int → Reg Ty.str → Instr Float Regex
  parse : Reg Ty.map_str_str → Reg Ty.str → Reg Ty.str → Instr Float Regex
  regex_parse : Reg Ty.map_int_str → Reg Ty.str → Reg Ty.str → Instr Float Regex
  strtonum : Reg Ty.float → Reg Ty.str → Instr Float Regex
  format_bytes : Reg Ty.str → Reg Ty.int → Instr Float Regex
  to_bytes : Reg Ty.int → Reg Ty.str → Instr Float Regex
  starts_with ends_with text_contains : Reg Ty.int → Reg Ty.str → Reg Ty.str → Instr Float Regex
  capitalize un_capitalize camel_case kebab_case snake_case title_case figlet :
      Reg Ty.str → Reg Ty.str → Instr Float Regex
  pad_left pad_right pad_both :
      Reg Ty.str → Reg Ty.str → Reg Ty.int → Reg Ty.str → Instr Float Regex
  str_cmp : Reg Ty.int → Reg Ty.str → Reg Ty.str → Instr Float Regex
  mask : Reg Ty.str → Reg Ty.str → Instr Float Regex
  repeat : Reg Ty.str → Reg Ty.str → Reg Ty.int → Instr Float Regex
  default_if_empty append_if_missing prepend_if_missing remove_if_end remove_if_begin :
      Reg Ty.str → Reg Ty.str → Reg Ty.str → Instr Float Regex
  quote double_quote : Reg Ty.str → Reg Ty.str → Instr Float Regex
  words lines : Reg Ty.map_int_str → Reg Ty.str → Instr Float Regex
  update_used_fields : Instr Float Regex
  set_fi : Reg Ty.int → Reg Ty.int → Instr Float Regex
  split_int : Reg Ty.int → Reg Ty.str → Reg Ty.map_int_str → Reg Ty.str → Instr Float Regex
  split_str : Reg Ty.int → Reg Ty.str → Reg Ty.map_str_str → Reg Ty.str → Instr Float Regex
  sprintf : Reg Ty.str → Reg Ty.str → List (ℕ × Ty) → Instr Float Regex
  printf : Option (Reg Ty.str × FileSpec) → Reg Ty.str → List (ℕ × Ty) → Instr Float Regex
  print_all : Option (Reg Ty.str × FileSpec) → List (Reg Ty.str) → Instr Float Regex
  close : Reg Ty.str → Instr Float Regex
  run_cmd : Reg Ty.int → Reg Ty.str → Instr Float Regex
  run_cmd2 : Reg Ty.map_str_str → Reg Ty.str → Instr Float Regex
  exit : Reg Ty.int → Instr Float Regex
  lookup contains : Ty → ℕ → ℕ → ℕ → Instr Float Regex
  delete : Ty → ℕ → ℕ → Instr Float Regex
  clear : Ty → ℕ → Instr Float Regex
  len : Ty → ℕ → ℕ → Instr Float Regex
  store : Ty → ℕ → ℕ → ℕ → Instr Float Regex
  inc_int : Ty → ℕ → ℕ → ℕ → Reg Ty.int → Instr Float Regex
  inc_float : Ty → ℕ → ℕ → ℕ → Reg Ty.float → Instr Float Regex
  iter_begin iter_has_next iter_get_next : Ty → ℕ → ℕ → Instr Float Regex
  load_var_str : Reg Ty.str → Variable → Instr Float Regex
  store_var_str : Variable → Reg Ty.str → Instr Float Regex
  load_var_int : Reg Ty.int → Variable → Instr Float Regex
  store_var_int : Variable → Reg Ty.int → Instr Float Regex
  load_var_int_map : Reg Ty.map_int_str → Variable → Instr Float Regex
  store_var_int_map : Variable → Reg Ty.map_int_str → Instr Float Regex
  load_var_str_map : Reg Ty.map_str_int → Variable → Instr Float Regex
  load_var_str_str_map : Reg Ty.map_str_str → Variable → Instr Float Regex
  store_var_str_map : Variable → Reg Ty.map_str_int → Instr Float Regex
  store_var_str_str_map : Variable → Reg Ty.map_str_str → Instr Float Regex
  load_slot store_slot : Ty → ℤ → ℕ → Instr Float Regex
  jmp_if : Reg Ty.int → ℕ → Instr Float Regex
  jmp : ℕ → Instr Float Regex
  push pop : Ty → ℕ → Instr Float Regex
  call : ℕ → Instr Float Regex
  ret : Instr Float Regex

-- The predecessors of a `phi` are numbers of basic blocks.
pub data HighLevel : Type 0 where
  call : ℕ → ℕ → Ty → List (ℕ × Ty) → HighLevel
  ret : ℕ → Ty → HighLevel
  phi : ℕ → Ty → List (ℕ × ℕ) → HighLevel
  drop_iter : ℕ → Ty → HighLevel
