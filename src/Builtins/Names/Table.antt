-- ===== src/Builtins/Names/Table.antt =====
-- src/builtins.rs: the entries of `FUNCTIONS`.
use frawk.Prelude.{String, List, [], ◌∷◌}
use frawk.Builtins.Function.{Function, FloatFunc, Bitwise}

-- The second half of `FUNCTIONS`.
abbrev later_functions : List (String × Function)
later_functions =
    ("_mean", Function.array_mean)
    ∷ ("_join", Function.int_map_join)
    ∷ ("seq", Function.seq)
    ∷ ("uniq", Function.uniq)
    ∷ ("asort", Function.asort)
    ∷ ("bf_insert", Function.bloom_filter_insert)
    ∷ ("bf_contains", Function.bloom_filter_contains)
    ∷ ("bf_icontains", Function.bloom_filter_contains_with_insert)
    ∷ ("fake", Function.fake)
    ∷ ("local_ip", Function.local_ip)
    ∷ ("truncate", Function.truncate)
    ∷ ("parse", Function.parse)
    ∷ ("rparse", Function.regex_parse)
    ∷ ("strtonum", Function.strtonum)
    ∷ ("format_bytes", Function.format_bytes)
    ∷ ("to_bytes", Function.to_bytes)
    ∷ ("starts_with", Function.starts_with)
    ∷ ("ends_with", Function.ends_with)
    ∷ ("contains", Function.text_contains)
    ∷ ("capitalize", Function.capitalize)
    ∷ ("uncapitalize", Function.un_capitalize)
    ∷ ("camel_case", Function.camel_case)
    ∷ ("kebab_case", Function.kebab_case)
    ∷ ("snake_case", Function.snake_case)
    ∷ ("title_case", Function.title_case)
    ∷ ("pascal_case", Function.title_case)
    ∷ ("figlet", Function.figlet)
    ∷ ("pad_end", Function.pad_left)
    ∷ ("pad_start", Function.pad_right)
    ∷ ("pad", Function.pad_both)
    ∷ ("strcmp", Function.str_cmp)
    ∷ ("mask", Function.mask)
    ∷ ("repeat", Function.repeat)
    ∷ ("default_if_empty", Function.default_if_empty)
    ∷ ("append_if_missing", Function.append_if_missing)
    ∷ ("prepend_if_missing", Function.prepend_if_missing)
    ∷ ("remove_if_end", Function.remove_if_end)
    ∷ ("remove_if_begin", Function.remove_if_begin)
    ∷ ("quote", Function.quote)
    ∷ ("double_quote", Function.double_quote)
    ∷ ("words", Function.words)
    ∷ ("lines", Function.lines)
    ∷ ("escape", Function.escape)
    ∷ ("typeof", Function.type_of_variable)
    ∷ ("isarray", Function.is_array)
    ∷ ("isint", Function.is_int)
    ∷ ("isnum", Function.is_num)
    ∷ ("is", Function.is_format)
    ∷ ("match", Function.match)
    ∷ ("sub", Function.sub)
    ∷ ("gsub", Function.gsub)
    ∷ ("gensub", Function.gen_sub)
    ∷ ("substr", Function.substr)
    ∷ ("char_at", Function.char_at)
    ∷ ("chars", Function.chars)
    ∷ ("int", Function.to_int)
    ∷ ("float", Function.strtonum)
    ∷ ("hex", Function.hex_to_int)
    ∷ ("exp", Function.float_func FloatFunc.exp)
    ∷ ("abs", Function.float_func FloatFunc.abs)
    ∷ ("ceil", Function.float_func FloatFunc.ceil)
    ∷ ("floor", Function.float_func FloatFunc.floor)
    ∷ ("round", Function.float_func FloatFunc.round)
    ∷ ("cos", Function.float_func FloatFunc.cos)
    ∷ ("sin", Function.float_func FloatFunc.sin)
    ∷ ("atan", Function.float_func FloatFunc.atan)
    ∷ ("log", Function.float_func FloatFunc.log)
    ∷ ("log2", Function.float_func FloatFunc.log2)
    ∷ ("log10", Function.float_func FloatFunc.log10)
    ∷ ("sqrt", Function.float_func FloatFunc.sqrt)
    ∷ ("atan2", Function.float_func FloatFunc.atan2)
    ∷ ("and", Function.int_func Bitwise.and)
    ∷ ("or", Function.int_func Bitwise.or)
    ∷ ("compl", Function.int_func Bitwise.complement)
    ∷ ("lshift", Function.int_func Bitwise.left_shift)
    ∷ ("rshift", Function.int_func Bitwise.arithmetic_right_shift)
    ∷ ("rshiftl", Function.int_func Bitwise.logical_right_shift)
    ∷ ("xor", Function.int_func Bitwise.xor)
    ∷ ("join_fields", Function.join_cols)
    ∷ ("join_csv", Function.join_csv)
    ∷ ("join_tsv", Function.join_tsv)
    ∷ ("escape_csv", Function.escape_csv)
    ∷ ("escape_tsv", Function.escape_tsv)
    ∷ ("rand", Function.rand)
    ∷ ("srand", Function.srand)
    ∷ ("index", Function.substr_index)
    ∷ ("last_index", Function.substr_last_index)
    ∷ ("last_part", Function.last_part)
    ∷ ("toupper", Function.to_upper)
    ∷ ("tolower", Function.to_lower)
    ∷ ("system", Function.system)
    ∷ ("system2", Function.system2)
    ∷ ("exit", Function.exit)
    ∷ []

-- `FUNCTIONS`
abbrev pub functions : List (String × Function)
functions =
    ("close", Function.close)
    ∷ ("split", Function.split)
    ∷ ("strlen", Function.strlen)
    ∷ ("length", Function.length)
    ∷ ("uuid", Function.uuid)
    ∷ ("ulid", Function.ulid)
    ∷ ("tsid", Function.tsid)
    ∷ ("snowflake", Function.snow_flake)
    ∷ ("whoami", Function.whoami)
    ∷ ("version", Function.version)
    ∷ ("os", Function.os)
    ∷ ("os_family", Function.os_family)
    ∷ ("arch", Function.arch)
    ∷ ("pwd", Function.pwd)
    ∷ ("user_home", Function.user_home)
    ∷ ("getenv", Function.get_env)
    ∷ ("log_debug", Function.log_debug)
    ∷ ("log_info", Function.log_info)
    ∷ ("log_warn", Function.log_warn)
    ∷ ("log_error", Function.log_error)
    ∷ ("systime", Function.systime)
    ∷ ("strftime", Function.strftime)
    ∷ ("mktime", Function.mktime)
    ∷ ("duration", Function.duration)
    ∷ ("mkbool", Function.mk_bool)
    ∷ ("mkpass", Function.mk_password)
    ∷ ("fend", Function.fend)
    ∷ ("eval", Function.eval)
    ∷ ("trim", Function.trim)
    ∷ ("encode", Function.encode)
    ∷ ("decode", Function.decode)
    ∷ ("digest", Function.digest)
    ∷ ("hash", Function.digest)
    ∷ ("hmac", Function.hmac)
    ∷ ("jwt", Function.jwt)
    ∷ ("dejwt", Function.dejwt)
    ∷ ("encrypt", Function.encrypt)
    ∷ ("decrypt", Function.decrypt)
    ∷ ("data_url", Function.data_url)
    ∷ ("url", Function.url)
    ∷ ("pairs", Function.pairs)
    ∷ ("record", Function.record_call)
    ∷ ("message", Function.message)
    ∷ ("flags", Function.flags)
    ∷ ("semver", Function.sem_ver)
    ∷ ("path", Function.path)
    ∷ ("datetime", Function.date_time)
    ∷ ("shlex", Function.shlex)
    ∷ ("tuple", Function.tuple)
    ∷ ("variant", Function.variant)
    ∷ ("parse_array", Function.parse_array)
    ∷ ("hex2rgb", Function.hex2rgb)
    ∷ ("rgb2hex", Function.rgb2hex)
    ∷ ("func", Function.func)
    ∷ ("http_get", Function.http_get)
    ∷ ("http_post", Function.http_post)
    ∷ ("send_mail", Function.send_mail)
    ∷ ("send_email", Function.send_mail)
    ∷ ("smtp_send", Function.smtp_send)
    ∷ ("s3_get", Function.s3_get)
    ∷ ("s3_put", Function.s3_put)
    ∷ ("kv_get", Function.kv_get)
    ∷ ("kv_put", Function.kv_put)
    ∷ ("kv_delete", Function.kv_delete)
    ∷ ("kv_clear", Function.kv_clear)
    ∷ ("sqlite_query", Function.sqlite_query)
    ∷ ("sqlite_execute", Function.sqlite_execute)
    ∷ ("libsql_query", Function.libsql_query)
    ∷ ("libsql_execute", Function.libsql_execute)
    ∷ ("mysql_query", Function.mysql_query)
    ∷ ("mysql_execute", Function.mysql_execute)
    ∷ ("pg_query", Function.pg_query)
    ∷ ("pg_execute", Function.pg_execute)
    ∷ ("publish", Function.publish)
    ∷ ("from_json", Function.from_json)
    ∷ ("to_json", Function.to_json)
    ∷ ("json_value", Function.json_value)
    ∷ ("json_query", Function.json_query)
    ∷ ("html_value", Function.html_value)
    ∷ ("html_query", Function.html_query)
    ∷ ("xml_value", Function.xml_value)
    ∷ ("xml_query", Function.xml_query)
    ∷ ("var_dump", Function.var_dump)
    ∷ ("read_all", Function.read_all)
    ∷ ("write_all", Function.write_all)
    ∷ ("read_config", Function.read_config)
    ∷ ("pprint", Function.var_dump)
    ∷ ("from_csv", Function.from_csv)
    ∷ ("to_csv", Function.to_csv)
    ∷ ("min", Function.min)
    ∷ ("max", Function.max)
    ∷ ("_max", Function.array_max)
    ∷ ("_min", Function.array_min)
    ∷ ("_sum", Function.array_sum)
    ∷ later_functions
