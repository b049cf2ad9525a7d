-- ===== src/Builtins/Arity.antt =====
-- src/builtins.rs: how many arguments each builtin takes.
use frawk.Prelude.{ℕ, Option, some}
use frawk.Builtins.Function.{Function, FloatFunc, Bitwise}

-- `Bitwise::arity`
unfoldable pub bit_arity : Bitwise → ℕ
bit_arity Bitwise.complement = 1
bit_arity _ = 2

-- `FloatFunc::arity`
unfoldable pub float_arity : FloatFunc → ℕ
float_arity FloatFunc.atan2 = 2
float_arity _ = 1

unfoldable pub arity : Function → Option ℕ
unfolding bit_arity float_arity
arity (Function.float_func ff) = some (float_arity ff)
arity (Function.int_func bw) = some (bit_arity bw)
arity Function.update_used_fields = some 0
arity Function.rand = some 0
arity Function.ulid = some 0
arity Function.tsid = some 0
arity Function.local_ip = some 0
arity Function.systime = some 0
arity Function.reseed_rng = some 0
arity Function.read_err_stdin = some 0
arity Function.nextline_stdin = some 0
arity Function.next_file = some 0
arity Function.read_line_stdin_fused = some 0
arity Function.whoami = some 0
arity Function.version = some 0
arity Function.os = some 0
arity Function.os_family = some 0
arity Function.arch = some 0
arity Function.pwd = some 0
arity Function.user_home = some 0
arity Function.exit = some 1
arity Function.to_upper = some 1
arity Function.to_lower = some 1
arity Function.clear = some 1
arity Function.srand = some 1
arity Function.system = some 1
arity Function.system2 = some 1
arity Function.hex_to_int = some 1
arity Function.to_int = some 1
arity Function.escape_csv = some 1
arity Function.escape_tsv = some 1
arity Function.close = some 1
arity Function.length = some 1
arity Function.strlen = some 1
arity Function.read_err = some 1
arity Function.read_err_cmd = some 1
arity Function.nextline = some 1
arity Function.nextline_cmd = some 1
arity Function.uuid = some 1
arity Function.snow_flake = some 1
arity Function.fend = some 1
arity Function.url = some 1
arity Function.sem_ver = some 1
arity Function.path = some 1
arity Function.data_url = some 1
arity Function.date_time = some 1
arity Function.shlex = some 1
arity Function.tuple = some 1
arity Function.variant = some 1
arity Function.flags = some 1
arity Function.parse_array = some 1
arity Function.func = some 1
arity Function.to_json = some 1
arity Function.from_json = some 1
arity Function.to_csv = some 1
arity Function.from_csv = some 1
arity Function.type_of_variable = some 1
arity Function.is_array = some 1
arity (Function.unop _) = some 1
arity Function.set_fi = some 2
arity Function.substr_index = some 2
arity Function.substr_last_index = some 2
arity Function.match = some 2
arity Function.setcol = some 2
arity (Function.binop _) = some 2
arity Function.join_csv = some 2
arity Function.join_tsv = some 2
arity Function.delete = some 2
arity Function.contains = some 2
arity Function.eval = some 2
arity Function.default_if_empty = some 2
arity Function.json_value = some 2
arity Function.json_query = some 2
arity Function.html_value = some 2
arity Function.html_query = some 2
arity Function.xml_value = some 2
arity Function.xml_query = some 2
arity Function.append_if_missing = some 2
arity Function.prepend_if_missing = some 2
arity Function.remove_if_end = some 2
arity Function.remove_if_begin = some 2
arity Function.pairs = some 3
arity Function.last_part = some 2
arity Function.hex2rgb = some 1
arity Function.rgb2hex = some 3
arity Function.get_env = some 2
arity Function.parse = some 2
arity Function.regex_parse = some 2
arity Function.record_call = some 1
arity Function.message = some 1
arity Function.quote = some 1
arity Function.double_quote = some 1
arity Function.var_dump = some 1
arity Function.format_bytes = some 1
arity Function.to_bytes = some 1
arity Function.starts_with = some 2
arity Function.ends_with = some 2
arity Function.text_contains = some 2
arity Function.read_all = some 1
arity Function.read_config = some 1
arity Function.write_all = some 2
arity Function.dejwt = some 2
arity Function.bloom_filter_insert = some 2
arity Function.bloom_filter_contains = some 2
arity Function.bloom_filter_contains_with_insert = some 2
arity Function.fake = some 2
arity Function.encrypt = some 3
arity Function.decrypt = some 3
arity Function.strftime = some 2
arity Function.mktime = some 2
arity Function.duration = some 1
arity Function.str_cmp = some 2
arity Function.char_at = some 2
arity Function.chars = some 1
arity Function.mk_bool = some 1
arity Function.mk_password = some 1
arity Function.trim = some 2
arity Function.capitalize = some 1
arity Function.un_capitalize = some 1
arity Function.mask = some 1
arity Function.strtonum = some 1
arity Function.camel_case = some 1
arity Function.kebab_case = some 1
arity Function.snake_case = some 1
arity Function.title_case = some 1
arity Function.words = some 1
arity Function.lines = some 1
arity Function.figlet = some 1
arity Function.repeat = some 2
arity Function.min = some 3
arity Function.max = some 3
arity Function.seq = some 3
arity Function.uniq = some 2
arity Function.asort = some 2
arity Function.http_get = some 2
arity Function.http_post = some 3
arity Function.send_mail = some 4
arity Function.smtp_send = some 5
arity Function.s3_get = some 2
arity Function.s3_put = some 3
arity Function.kv_get = some 2
arity Function.kv_delete = some 2
arity Function.kv_put = some 3
arity Function.kv_clear = some 1
arity Function.sqlite_query = some 2
arity Function.sqlite_execute = some 2
arity Function.libsql_query = some 2
arity Function.libsql_execute = some 2
arity Function.mysql_query = some 2
arity Function.mysql_execute = some 2
arity Function.pg_query = some 2
arity Function.pg_execute = some 2
arity Function.pad_left = some 3
arity Function.pad_right = some 3
arity Function.pad_both = some 3
arity Function.publish = some 2
arity Function.is_int = some 1
arity Function.is_num = some 1
arity Function.is_format = some 2
arity Function.encode = some 2
arity Function.decode = some 2
arity Function.digest = some 2
arity Function.escape = some 2
arity Function.hmac = some 3
arity Function.jwt = some 3
arity Function.log_debug = some 1
arity Function.log_info = some 1
arity Function.log_warn = some 1
arity Function.log_error = some 1
arity Function.array_max = some 1
arity Function.array_min = some 1
arity Function.array_sum = some 1
arity Function.array_mean = some 1
arity Function.int_map_join = some 2
arity Function.inc_map = some 3
arity Function.join_cols = some 3
arity Function.substr = some 3
arity Function.sub = some 3
arity Function.gsub = some 3
arity Function.split = some 3
arity Function.truncate = some 3
arity Function.gen_sub = some 4
