-- ===== src/Builtins/Step.antt =====
-- src/builtins.rs: `Function::step`, the guess of a call's type from the states of its arguments.
use frawk.Prelude.{none, some, List}
use frawk.Types.{BaseTy, scalar, map, State, abs, val_of}
use frawk.Builtins.{Outcome, done, ◌>>=◌, at, of_result}
use frawk.Builtins.Function.{Function, Unop, Binop}

-- `Bitwise::ret_state`
unfoldable pub bit_ret_state : State
unfolding abs
bit_ret_state = abs (scalar BaseTy.int)

-- `FloatFunc::ret_state`
unfoldable pub float_ret_state : State
unfolding abs
float_ret_state = abs (scalar BaseTy.float)

unfoldable pub step_arith : State → State → State
unfolding abs
step_arith (some (scalar (some BaseTy.str))) _ = abs (scalar BaseTy.float)
step_arith (some (scalar (some BaseTy.float))) _ = abs (scalar BaseTy.float)
step_arith _ (some (scalar (some BaseTy.str))) = abs (scalar BaseTy.float)
step_arith _ (some (scalar (some BaseTy.float))) = abs (scalar BaseTy.float)
step_arith _ _ = abs (scalar BaseTy.int)

-- Unary minus and plus.
unfoldable pub step_neg : State → State
unfolding abs
step_neg (some (scalar (some BaseTy.str))) = abs (scalar BaseTy.float)
step_neg (some (scalar (some BaseTy.float))) = abs (scalar BaseTy.float)
step_neg x = x

-- `ArrayMax`, `ArrayMin`, `ArraySum` and `ArrayMean`.
unfoldable pub step_array : State → State
unfolding abs
step_array (some (map (some BaseTy.int) (some BaseTy.int))) = abs (scalar BaseTy.int)
step_array (some (map (some BaseTy.int) (some BaseTy.float))) = abs (scalar BaseTy.float)
step_array _ = abs (scalar BaseTy.float)

unfoldable pub step : Function → List State → Outcome State
step (Function.int_func bw) _ = done bit_ret_state
step (Function.float_func ff) _ = done float_ret_state
step (Function.unop Unop.neg) args = at args 0 >>= λ x. done (step_neg x)
step (Function.unop Unop.pos) args = at args 0 >>= λ x. done (step_neg x)
step (Function.binop Binop.plus) args = do x ← at args 0; y ← at args 1; done (step_arith x y)
step (Function.binop Binop.minus) args = do x ← at args 0; y ← at args 1; done (step_arith x y)
step (Function.binop Binop.modulo) args = do x ← at args 0; y ← at args 1; done (step_arith x y)
step (Function.binop Binop.mult) args = do x ← at args 0; y ← at args 1; done (step_arith x y)
step Function.min _ = done (abs (scalar BaseTy.str))
step Function.max _ = done (abs (scalar BaseTy.str))
step Function.rand _ = done (abs (scalar BaseTy.float))
step (Function.binop Binop.div) _ = done (abs (scalar BaseTy.float))
step (Function.binop Binop.pow) _ = done (abs (scalar BaseTy.float))
step Function.setcol _ = done (abs (scalar BaseTy.null))
step Function.clear _ = done (abs (scalar BaseTy.int))
step Function.substr_index _ = done (abs (scalar BaseTy.int))
step Function.substr_last_index _ = done (abs (scalar BaseTy.int))
step Function.srand _ = done (abs (scalar BaseTy.int))
step Function.reseed_rng _ = done (abs (scalar BaseTy.int))
step (Function.unop Unop.not) _ = done (abs (scalar BaseTy.int))
step (Function.binop Binop.is_match) _ = done (abs (scalar BaseTy.int))
step (Function.binop Binop.lt) _ = done (abs (scalar BaseTy.int))
step (Function.binop Binop.gt) _ = done (abs (scalar BaseTy.int))
step (Function.binop Binop.lte) _ = done (abs (scalar BaseTy.int))
step (Function.binop Binop.gte) _ = done (abs (scalar BaseTy.int))
step (Function.binop Binop.eq) _ = done (abs (scalar BaseTy.int))
step Function.length _ = done (abs (scalar BaseTy.int))
step Function.strlen _ = done (abs (scalar BaseTy.int))
step Function.split _ = done (abs (scalar BaseTy.int))
step Function.read_err _ = done (abs (scalar BaseTy.int))
step Function.read_err_cmd _ = done (abs (scalar BaseTy.int))
step Function.read_err_stdin _ = done (abs (scalar BaseTy.int))
step Function.contains _ = done (abs (scalar BaseTy.int))
step Function.delete _ = done (abs (scalar BaseTy.int))
step Function.match _ = done (abs (scalar BaseTy.int))
step Function.sub _ = done (abs (scalar BaseTy.int))
step Function.gsub _ = done (abs (scalar BaseTy.int))
step Function.to_int _ = done (abs (scalar BaseTy.int))
step Function.systime _ = done (abs (scalar BaseTy.int))
step Function.mktime _ = done (abs (scalar BaseTy.int))
step Function.duration _ = done (abs (scalar BaseTy.int))
step Function.system _ = done (abs (scalar BaseTy.int))
step Function.hex_to_int _ = done (abs (scalar BaseTy.int))
step Function.asort _ = done (abs (scalar BaseTy.int))
step Function.mk_bool _ = done (abs (scalar BaseTy.int))
step Function.snow_flake _ = done (abs (scalar BaseTy.int))
step Function.system2 _ = done (abs (map BaseTy.str BaseTy.str))
step Function.to_upper _ = done (abs (scalar BaseTy.str))
step Function.to_lower _ = done (abs (scalar BaseTy.str))
step Function.join_csv _ = done (abs (scalar BaseTy.str))
step Function.join_tsv _ = done (abs (scalar BaseTy.str))
step Function.uuid _ = done (abs (scalar BaseTy.str))
step Function.ulid _ = done (abs (scalar BaseTy.str))
step Function.tsid _ = done (abs (scalar BaseTy.str))
step Function.local_ip _ = done (abs (scalar BaseTy.str))
step Function.strftime _ = done (abs (scalar BaseTy.str))
step Function.fend _ = done (abs (scalar BaseTy.str))
step Function.trim _ = done (abs (scalar BaseTy.str))
step Function.truncate _ = done (abs (scalar BaseTy.str))
step Function.join_cols _ = done (abs (scalar BaseTy.str))
step Function.escape_csv _ = done (abs (scalar BaseTy.str))
step Function.escape_tsv _ = done (abs (scalar BaseTy.str))
step Function.escape _ = done (abs (scalar BaseTy.str))
step (Function.unop Unop.column) _ = done (abs (scalar BaseTy.str))
step (Function.binop Binop.concat) _ = done (abs (scalar BaseTy.str))
step Function.nextline _ = done (abs (scalar BaseTy.str))
step Function.nextline_cmd _ = done (abs (scalar BaseTy.str))
step Function.nextline_stdin _ = done (abs (scalar BaseTy.str))
step Function.gen_sub _ = done (abs (scalar BaseTy.str))
step Function.substr _ = done (abs (scalar BaseTy.str))
step Function.char_at _ = done (abs (scalar BaseTy.str))
step Function.encode _ = done (abs (scalar BaseTy.str))
step Function.decode _ = done (abs (scalar BaseTy.str))
step Function.digest _ = done (abs (scalar BaseTy.str))
step Function.hmac _ = done (abs (scalar BaseTy.str))
step Function.jwt _ = done (abs (scalar BaseTy.str))
step Function.to_json _ = done (abs (scalar BaseTy.str))
step Function.json_value _ = done (abs (scalar BaseTy.str))
step Function.html_value _ = done (abs (scalar BaseTy.str))
step Function.xml_value _ = done (abs (scalar BaseTy.str))
step Function.to_csv _ = done (abs (scalar BaseTy.str))
step Function.type_of_variable _ = done (abs (scalar BaseTy.str))
step Function.int_map_join _ = done (abs (scalar BaseTy.str))
step Function.chars _ = done (abs (map BaseTy.int BaseTy.str))
step Function.eval _ = done (abs (scalar BaseTy.float))
step Function.json_query _ = done (abs (map BaseTy.int BaseTy.str))
step Function.html_query _ = done (abs (map BaseTy.int BaseTy.str))
step Function.xml_query _ = done (abs (map BaseTy.int BaseTy.str))
step Function.mk_password _ = done (abs (scalar BaseTy.str))
step Function.encrypt _ = done (abs (scalar BaseTy.str))
step Function.decrypt _ = done (abs (scalar BaseTy.str))
step Function.fake _ = done (abs (scalar BaseTy.str))
step Function.whoami _ = done (abs (scalar BaseTy.str))
step Function.version _ = done (abs (scalar BaseTy.str))
step Function.os _ = done (abs (scalar BaseTy.str))
step Function.os_family _ = done (abs (scalar BaseTy.str))
step Function.arch _ = done (abs (scalar BaseTy.str))
step Function.pwd _ = done (abs (scalar BaseTy.str))
step Function.user_home _ = done (abs (scalar BaseTy.str))
step Function.get_env _ = done (abs (scalar BaseTy.str))
step Function.last_part _ = done (abs (scalar BaseTy.str))
step Function.format_bytes _ = done (abs (scalar BaseTy.str))
step Function.to_bytes _ = done (abs (scalar BaseTy.int))
step Function.starts_with _ = done (abs (scalar BaseTy.int))
step Function.ends_with _ = done (abs (scalar BaseTy.int))
step Function.text_contains _ = done (abs (scalar BaseTy.int))
step Function.bloom_filter_insert _ = done none
step Function.bloom_filter_contains _ = done (abs (scalar BaseTy.int))
step Function.bloom_filter_contains_with_insert _ = done (abs (scalar BaseTy.int))
step Function.strtonum _ = done (abs (scalar BaseTy.float))
step Function.capitalize _ = done (abs (scalar BaseTy.str))
step Function.un_capitalize _ = done (abs (scalar BaseTy.str))
step Function.mask _ = done (abs (scalar BaseTy.str))
step Function.camel_case _ = done (abs (scalar BaseTy.str))
step Function.kebab_case _ = done (abs (scalar BaseTy.str))
step Function.snake_case _ = done (abs (scalar BaseTy.str))
step Function.title_case _ = done (abs (scalar BaseTy.str))
step Function.figlet _ = done (abs (scalar BaseTy.str))
step Function.repeat _ = done (abs (scalar BaseTy.str))
step Function.default_if_empty _ = done (abs (scalar BaseTy.str))
step Function.append_if_missing _ = done (abs (scalar BaseTy.str))
step Function.prepend_if_missing _ = done (abs (scalar BaseTy.str))
step Function.remove_if_end _ = done (abs (scalar BaseTy.str))
step Function.remove_if_begin _ = done (abs (scalar BaseTy.str))
step Function.quote _ = done (abs (scalar BaseTy.str))
step Function.double_quote _ = done (abs (scalar BaseTy.str))
step Function.is_array _ = done (abs (scalar BaseTy.int))
step Function.is_num _ = done (abs (scalar BaseTy.int))
step Function.is_int _ = done (abs (scalar BaseTy.int))
step Function.is_format _ = done (abs (scalar BaseTy.int))
step Function.url _ = done (abs (map BaseTy.str BaseTy.str))
step Function.sem_ver _ = done (abs (map BaseTy.str BaseTy.str))
step Function.path _ = done (abs (map BaseTy.str BaseTy.str))
step Function.data_url _ = done (abs (map BaseTy.str BaseTy.str))
step Function.dejwt _ = done (abs (map BaseTy.str BaseTy.str))
step Function.pairs _ = done (abs (map BaseTy.str BaseTy.str))
step Function.record_call _ = done (abs (map BaseTy.str BaseTy.str))
step Function.message _ = done (abs (map BaseTy.str BaseTy.str))
step Function.words _ = done (abs (map BaseTy.int BaseTy.str))
step Function.lines _ = done (abs (map BaseTy.int BaseTy.str))
step Function.date_time _ = done (abs (map BaseTy.str BaseTy.int))
step Function.regex_parse _ = done (abs (map BaseTy.int BaseTy.str))
step Function.parse _ = done (abs (map BaseTy.str BaseTy.str))
step Function.shlex _ = done (abs (map BaseTy.int BaseTy.str))
step Function.func _ = done (abs (map BaseTy.int BaseTy.str))
step Function.tuple _ = done (abs (map BaseTy.int BaseTy.str))
step Function.parse_array _ = done (abs (map BaseTy.int BaseTy.str))
step Function.hex2rgb _ = done (abs (map BaseTy.int BaseTy.int))
step Function.rgb2hex _ = done (abs (scalar BaseTy.str))
step Function.flags _ = done (abs (map BaseTy.str BaseTy.int))
step Function.variant _ = done (abs (map BaseTy.str BaseTy.str))
step Function.sqlite_query _ = done (abs (map BaseTy.int BaseTy.str))
step Function.mysql_query _ = done (abs (map BaseTy.int BaseTy.str))
step Function.libsql_query _ = done (abs (map BaseTy.int BaseTy.str))
step Function.pg_query _ = done (abs (map BaseTy.int BaseTy.str))
step Function.sqlite_execute _ = done (abs (scalar BaseTy.int))
step Function.libsql_execute _ = done (abs (scalar BaseTy.int))
step Function.mysql_execute _ = done (abs (scalar BaseTy.int))
step Function.pg_execute _ = done (abs (scalar BaseTy.int))
step Function.uniq _ = done (abs (map BaseTy.int BaseTy.str))
step Function.http_get _ = done (abs (map BaseTy.str BaseTy.str))
step Function.http_post _ = done (abs (map BaseTy.str BaseTy.str))
step Function.smtp_send _ = done none
step Function.send_mail _ = done none
step Function.s3_get _ = done (abs (scalar BaseTy.str))
step Function.s3_put _ = done (abs (scalar BaseTy.str))
step Function.from_json _ = done (abs (map BaseTy.str BaseTy.str))
step Function.from_csv _ = done (abs (map BaseTy.int BaseTy.str))
step Function.seq _ = done (abs (map BaseTy.int BaseTy.float))
step Function.pad_left _ = done (abs (scalar BaseTy.str))
step Function.pad_right _ = done (abs (scalar BaseTy.str))
step Function.pad_both _ = done (abs (scalar BaseTy.str))
step Function.array_max args = at args 0 >>= λ x. done (step_array x)
step Function.array_min args = at args 0 >>= λ x. done (step_array x)
step Function.array_sum args = at args 0 >>= λ x. done (step_array x)
step Function.array_mean args = at args 0 >>= λ x. done (step_array x)
step Function.str_cmp _ = done (abs (scalar BaseTy.int))
step Function.inc_map args = do
  m ← at args 0
  v ← of_result (val_of m)
  y ← at args 2
  done (step_arith v y)
step Function.exit _ = done none
step Function.set_fi _ = done none
step Function.update_used_fields _ = done none
step Function.next_file _ = done none
step Function.read_line_stdin_fused _ = done none
step Function.close _ = done none
step Function.kv_get _ = done (abs (scalar BaseTy.str))
step Function.read_all _ = done (abs (scalar BaseTy.str))
step Function.write_all _ = done none
step Function.read_config _ = done (abs (map BaseTy.str BaseTy.str))
step Function.kv_put _ = done none
step Function.kv_delete _ = done none
step Function.kv_clear _ = done none
step Function.var_dump _ = done none
step Function.log_debug _ = done none
step Function.log_info _ = done none
step Function.log_warn _ = done none
step Function.log_error _ = done none
step Function.publish _ = done none
