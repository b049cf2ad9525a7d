-- ===== src/Builtins/Function.antt =====
-- src/builtins.rs and src/ast.rs: the builtin functions and operators.
-- `Function::Record` is `record_call`, and `Binop::Mod` is `modulo`: their own names are reserved.
pub data Unop : Type 0 where
  column not neg pos : Unop

pub data Binop : Type 0 where
  plus minus mult div modulo concat is_match pow lt gt lte gte eq : Binop

pub data Bitwise : Type 0 where
  complement and or logical_right_shift arithmetic_right_shift left_shift xor : Bitwise

pub data FloatFunc : Type 0 where
  cos sin atan atan2 log log2 log10 sqrt exp abs ceil floor round : FloatFunc

pub data Function : Type 0 where
  unop : Unop → Function
  binop : Binop → Function
  float_func : FloatFunc → Function
  int_func : Bitwise → Function
  close read_err read_err_cmd nextline read_err_stdin nextline_stdin nextline_cmd : Function
  read_line_stdin_fused next_file setcol split length strlen uuid ulid tsid snow_flake : Function
  whoami version os os_family arch pwd user_home get_env log_debug log_info log_warn : Function
  log_error systime strftime mktime duration mk_bool mk_password fend eval trim : Function
  truncate parse regex_parse strtonum format_bytes to_bytes starts_with ends_with : Function
  capitalize text_contains un_capitalize camel_case kebab_case snake_case title_case : Function
  figlet pad_left pad_right pad_both str_cmp mask repeat words lines default_if_empty : Function
  append_if_missing prepend_if_missing remove_if_end remove_if_begin quote double_quote : Function
  escape encode decode digest hmac jwt dejwt encrypt decrypt url pairs record_call : Function
  message flags sem_ver path data_url date_time shlex func tuple variant parse_array : Function
  hex2rgb rgb2hex from_json to_json json_value json_query html_value html_query : Function
  xml_value xml_query var_dump read_all write_all read_config from_csv to_csv http_get : Function
  http_post send_mail smtp_send s3_get s3_put kv_get kv_put kv_delete kv_clear : Function
  sqlite_query sqlite_execute libsql_query libsql_execute mysql_query mysql_execute : Function
  pg_query pg_execute publish min max seq array_max array_min array_mean array_sum : Function
  asort bloom_filter_insert bloom_filter_contains bloom_filter_contains_with_insert : Function
  fake local_ip contains delete clear match substr_index substr_last_index last_part : Function
  sub gsub gen_sub escape_csv escape_tsv join_cols join_csv join_tsv int_map_join uniq : Function
  type_of_variable is_array is_int is_num is_format substr char_at chars to_int : Function
  hex_to_int rand srand reseed_rng system system2 update_used_fields set_fi to_upper : Function
  to_lower inc_map exit : Function

pub data Variable : Type 0 where
  argc argv ofs fs rs nf nr filename rstart rlength ors fnr pid fi environ procinfo : Variable
  convfmt : Variable
