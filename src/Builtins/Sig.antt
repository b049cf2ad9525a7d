-- ===== src/Builtins/Sig.antt =====
-- src/builtins.rs: `Function::type_sig`, the register types that a call wants and returns.
mod Operands
unfoldable pub use Operands.{
  Sig, bit_sig, float_sig, arith_sig, neg_sig, not_sig, compare_sig, key_query_sig, inc_map_array,
  inc_map_sig, clear_sig, to_int_sig, array_sig, split_sig,
}
use frawk.Prelude.{ℕ, Bool, true, Option, none, some, List, [], ◌∷◌, length, ◌==◌, if◌then◌else◌}
use frawk.Compile.{Ty, is_array, key, val}
use frawk.Builtins.{Outcome, done, fails, ◌>>=◌, at, unwrap, replicate}
use frawk.Builtins.Function.{Function, Unop, Binop, FloatFunc, Bitwise}
use frawk.Builtins.Arity.{arity, bit_arity, float_arity}

-- The large `match` of `type_sig`.
unfoldable pub sig : Function → List Ty → Outcome Sig
sig (Function.float_func ff) _ = done (float_sig ff)
sig (Function.int_func bw) _ = done (bit_sig bw)
sig (Function.unop Unop.neg) incoming = at incoming 0 >>= λ t. done (neg_sig t)
sig (Function.unop Unop.pos) incoming = at incoming 0 >>= λ t. done (neg_sig t)
sig (Function.unop Unop.column) _ = done (Ty.int ∷ [], Ty.str)
sig (Function.binop Binop.concat) _ = done (Ty.str ∷ Ty.str ∷ [], Ty.str)
sig Function.substr_index _ = done (Ty.str ∷ Ty.str ∷ [], Ty.int)
sig Function.substr_last_index _ = done (Ty.str ∷ Ty.str ∷ [], Ty.int)
sig (Function.binop Binop.is_match) _ = done (Ty.str ∷ Ty.str ∷ [], Ty.int)
sig (Function.unop Unop.not) incoming = at incoming 0 >>= not_sig
sig (Function.binop Binop.lt) incoming = do x ← at incoming 0; y ← at incoming 1; compare_sig x y
sig (Function.binop Binop.gt) incoming = do x ← at incoming 0; y ← at incoming 1; compare_sig x y
sig (Function.binop Binop.lte) incoming = do x ← at incoming 0; y ← at incoming 1; compare_sig x y
sig (Function.binop Binop.gte) incoming = do x ← at incoming 0; y ← at incoming 1; compare_sig x y
sig (Function.binop Binop.eq) incoming = do x ← at incoming 0; y ← at incoming 1; compare_sig x y
sig Function.last_part _ = done (Ty.str ∷ Ty.str ∷ [], Ty.str)
sig Function.min _ = done (Ty.str ∷ Ty.str ∷ Ty.str ∷ [], Ty.str)
sig Function.max _ = done (Ty.str ∷ Ty.str ∷ Ty.str ∷ [], Ty.str)
sig Function.str_cmp _ = done (Ty.str ∷ Ty.str ∷ [], Ty.int)
sig Function.get_env _ = done (Ty.str ∷ Ty.str ∷ [], Ty.str)
sig Function.default_if_empty _ = done (Ty.str ∷ Ty.str ∷ [], Ty.str)
sig Function.append_if_missing _ = done (Ty.str ∷ Ty.str ∷ [], Ty.str)
sig Function.prepend_if_missing _ = done (Ty.str ∷ Ty.str ∷ [], Ty.str)
sig Function.remove_if_end _ = done (Ty.str ∷ Ty.str ∷ [], Ty.str)
sig Function.remove_if_begin _ = done (Ty.str ∷ Ty.str ∷ [], Ty.str)
sig Function.quote _ = done (Ty.str ∷ [], Ty.str)
sig Function.double_quote _ = done (Ty.str ∷ [], Ty.str)
sig Function.seq _ = done (Ty.float ∷ Ty.float ∷ Ty.float ∷ [], Ty.map_int_float)
sig Function.uniq _ = done (Ty.map_int_str ∷ Ty.str ∷ [], Ty.map_int_str)
sig (Function.binop Binop.plus) incoming = do
  x ← at incoming 0
  y ← at incoming 1
  done (arith_sig x y)
sig (Function.binop Binop.minus) incoming = do
  x ← at incoming 0
  y ← at incoming 1
  done (arith_sig x y)
sig (Function.binop Binop.modulo) incoming = do
  x ← at incoming 0
  y ← at incoming 1
  done (arith_sig x y)
sig (Function.binop Binop.mult) incoming = do
  x ← at incoming 0
  y ← at incoming 1
  done (arith_sig x y)
sig (Function.binop Binop.pow) _ = done (Ty.float ∷ Ty.float ∷ [], Ty.float)
sig (Function.binop Binop.div) _ = done (Ty.float ∷ Ty.float ∷ [], Ty.float)
sig Function.contains incoming = at incoming 0 >>= key_query_sig
sig Function.delete incoming = at incoming 0 >>= key_query_sig
sig Function.inc_map incoming = inc_map_sig incoming
sig Function.clear incoming = clear_sig incoming
sig Function.srand _ = done (Ty.int ∷ [], Ty.int)
sig Function.system _ = done (Ty.str ∷ [], Ty.int)
sig Function.hex_to_int _ = done (Ty.str ∷ [], Ty.int)
sig Function.system2 _ = done (Ty.str ∷ [], Ty.map_str_str)
sig Function.reseed_rng _ = done ([], Ty.int)
sig Function.rand _ = done ([], Ty.float)
sig Function.to_int incoming = at incoming 0 >>= to_int_sig
sig Function.nextline_cmd _ = done (Ty.str ∷ [], Ty.str)
sig Function.nextline _ = done (Ty.str ∷ [], Ty.str)
sig Function.read_err_cmd _ = done (Ty.str ∷ [], Ty.int)
sig Function.read_err _ = done (Ty.str ∷ [], Ty.int)
sig Function.update_used_fields _ = done ([], Ty.int)
sig Function.next_file _ = done ([], Ty.int)
sig Function.read_line_stdin_fused _ = done ([], Ty.int)
sig Function.nextline_stdin _ = done ([], Ty.str)
sig Function.read_err_stdin _ = done ([], Ty.int)
sig Function.setcol _ = done (Ty.int ∷ Ty.str ∷ [], Ty.int)
sig Function.strlen _ = done (Ty.str ∷ [], Ty.int)
sig Function.length incoming = do t0 ← at incoming 0; done (t0 ∷ [], Ty.int)
sig Function.uuid _ = done (Ty.str ∷ [], Ty.str)
sig Function.snow_flake _ = done (Ty.int ∷ [], Ty.int)
sig Function.ulid _ = done ([], Ty.str)
sig Function.tsid _ = done ([], Ty.str)
sig Function.whoami _ = done ([], Ty.str)
sig Function.version _ = done ([], Ty.str)
sig Function.os _ = done ([], Ty.str)
sig Function.os_family _ = done ([], Ty.str)
sig Function.arch _ = done ([], Ty.str)
sig Function.pwd _ = done ([], Ty.str)
sig Function.user_home _ = done ([], Ty.str)
sig Function.local_ip _ = done ([], Ty.str)
sig Function.systime _ = done ([], Ty.int)
sig Function.strftime _ = done (Ty.str ∷ Ty.int ∷ [], Ty.str)
sig Function.mktime _ = done (Ty.str ∷ Ty.int ∷ [], Ty.int)
sig Function.duration _ = done (Ty.str ∷ [], Ty.int)
sig Function.mk_bool _ = done (Ty.str ∷ [], Ty.int)
sig Function.mk_password _ = done (Ty.int ∷ [], Ty.str)
sig Function.fend _ = done (Ty.str ∷ [], Ty.str)
sig Function.eval incoming = do t1 ← at incoming 1; done (Ty.str ∷ t1 ∷ [], Ty.float)
sig Function.url _ = done (Ty.str ∷ [], Ty.map_str_str)
sig Function.path _ = done (Ty.str ∷ [], Ty.map_str_str)
sig Function.sem_ver _ = done (Ty.str ∷ [], Ty.map_str_str)
sig Function.pairs _ = done (Ty.str ∷ Ty.str ∷ Ty.str ∷ [], Ty.map_str_str)
sig Function.parse _ = done (Ty.str ∷ Ty.str ∷ [], Ty.map_str_str)
sig Function.regex_parse _ = done (Ty.str ∷ Ty.str ∷ [], Ty.map_int_str)
sig Function.record_call _ = done (Ty.str ∷ [], Ty.map_str_str)
sig Function.message _ = done (Ty.str ∷ [], Ty.map_str_str)
sig Function.data_url _ = done (Ty.str ∷ [], Ty.map_str_str)
sig Function.date_time _ = done (Ty.str ∷ [], Ty.map_str_int)
sig Function.shlex _ = done (Ty.str ∷ [], Ty.map_int_str)
sig Function.tuple _ = done (Ty.str ∷ [], Ty.map_int_str)
sig Function.flags _ = done (Ty.str ∷ [], Ty.map_str_int)
sig Function.parse_array _ = done (Ty.str ∷ [], Ty.map_int_str)
sig Function.hex2rgb _ = done (Ty.str ∷ [], Ty.map_int_int)
sig Function.rgb2hex _ = done (Ty.int ∷ Ty.int ∷ Ty.int ∷ [], Ty.str)
sig Function.variant _ = done (Ty.str ∷ [], Ty.map_str_str)
sig Function.func _ = done (Ty.str ∷ [], Ty.map_int_str)
sig Function.http_get _ = done (Ty.str ∷ Ty.map_str_str ∷ [], Ty.map_str_str)
sig Function.http_post _ = done (Ty.str ∷ Ty.str ∷ Ty.map_str_str ∷ [], Ty.map_str_str)
sig Function.send_mail _ = done (Ty.str ∷ Ty.str ∷ Ty.str ∷ Ty.str ∷ [], Ty.null)
sig Function.smtp_send _ = done (Ty.str ∷ Ty.str ∷ Ty.str ∷ Ty.str ∷ Ty.str ∷ [], Ty.null)
sig Function.s3_get _ = done (Ty.str ∷ Ty.str ∷ [], Ty.str)
sig Function.s3_put _ = done (Ty.str ∷ Ty.str ∷ Ty.str ∷ [], Ty.str)
sig Function.kv_get _ = done (Ty.str ∷ Ty.str ∷ [], Ty.str)
sig Function.kv_put _ = done (Ty.str ∷ Ty.str ∷ Ty.str ∷ [], Ty.null)
sig Function.kv_delete _ = done (Ty.str ∷ Ty.str ∷ [], Ty.null)
sig Function.kv_clear _ = done (Ty.str ∷ [], Ty.null)
sig Function.log_debug _ = done (Ty.str ∷ [], Ty.null)
sig Function.log_info _ = done (Ty.str ∷ [], Ty.null)
sig Function.log_warn _ = done (Ty.str ∷ [], Ty.null)
sig Function.log_error _ = done (Ty.str ∷ [], Ty.null)
sig Function.sqlite_query _ = done (Ty.str ∷ Ty.str ∷ [], Ty.map_int_str)
sig Function.libsql_query _ = done (Ty.str ∷ Ty.str ∷ [], Ty.map_int_str)
sig Function.mysql_query _ = done (Ty.str ∷ Ty.str ∷ [], Ty.map_int_str)
sig Function.pg_query _ = done (Ty.str ∷ Ty.str ∷ [], Ty.map_int_str)
sig Function.sqlite_execute _ = done (Ty.str ∷ Ty.str ∷ [], Ty.int)
sig Function.libsql_execute _ = done (Ty.str ∷ Ty.str ∷ [], Ty.int)
sig Function.mysql_execute _ = done (Ty.str ∷ Ty.str ∷ [], Ty.int)
sig Function.pg_execute _ = done (Ty.str ∷ Ty.str ∷ [], Ty.int)
sig Function.publish _ = done (Ty.str ∷ Ty.str ∷ [], Ty.null)
sig Function.from_json _ = done (Ty.str ∷ [], Ty.map_str_str)
sig Function.to_json incoming = do t0 ← at incoming 0; done (t0 ∷ [], Ty.str)
sig Function.json_value _ = done (Ty.str ∷ Ty.str ∷ [], Ty.str)
sig Function.json_query _ = done (Ty.str ∷ Ty.str ∷ [], Ty.map_int_str)
sig Function.html_value _ = done (Ty.str ∷ Ty.str ∷ [], Ty.str)
sig Function.html_query _ = done (Ty.str ∷ Ty.str ∷ [], Ty.map_int_str)
sig Function.xml_value _ = done (Ty.str ∷ Ty.str ∷ [], Ty.str)
sig Function.xml_query _ = done (Ty.str ∷ Ty.str ∷ [], Ty.map_int_str)
sig Function.var_dump incoming = do t0 ← at incoming 0; done (t0 ∷ [], Ty.null)
sig Function.read_all _ = done (Ty.str ∷ [], Ty.str)
sig Function.write_all _ = done (Ty.str ∷ Ty.str ∷ [], Ty.null)
sig Function.read_config _ = done (Ty.str ∷ [], Ty.map_str_str)
sig Function.from_csv _ = done (Ty.str ∷ [], Ty.map_int_str)
sig Function.to_csv incoming = do t0 ← at incoming 0; done (t0 ∷ [], Ty.str)
sig Function.trim _ = done (Ty.str ∷ Ty.str ∷ [], Ty.str)
sig Function.truncate _ = done (Ty.str ∷ Ty.int ∷ Ty.str ∷ [], Ty.str)
sig Function.strtonum _ = done (Ty.str ∷ [], Ty.float)
sig Function.format_bytes _ = done (Ty.int ∷ [], Ty.str)
sig Function.to_bytes _ = done (Ty.str ∷ [], Ty.int)
sig Function.starts_with _ = done (Ty.str ∷ Ty.str ∷ [], Ty.int)
sig Function.ends_with _ = done (Ty.str ∷ Ty.str ∷ [], Ty.int)
sig Function.text_contains _ = done (Ty.str ∷ Ty.str ∷ [], Ty.int)
sig Function.capitalize _ = done (Ty.str ∷ [], Ty.str)
sig Function.un_capitalize _ = done (Ty.str ∷ [], Ty.str)
sig Function.camel_case _ = done (Ty.str ∷ [], Ty.str)
sig Function.kebab_case _ = done (Ty.str ∷ [], Ty.str)
sig Function.snake_case _ = done (Ty.str ∷ [], Ty.str)
sig Function.title_case _ = done (Ty.str ∷ [], Ty.str)
sig Function.figlet _ = done (Ty.str ∷ [], Ty.str)
sig Function.pad_left _ = done (Ty.str ∷ Ty.int ∷ Ty.str ∷ [], Ty.str)
sig Function.pad_right _ = done (Ty.str ∷ Ty.int ∷ Ty.str ∷ [], Ty.str)
sig Function.pad_both _ = done (Ty.str ∷ Ty.int ∷ Ty.str ∷ [], Ty.str)
sig Function.mask _ = done (Ty.str ∷ [], Ty.str)
sig Function.repeat _ = done (Ty.str ∷ Ty.int ∷ [], Ty.str)
sig Function.words _ = done (Ty.str ∷ [], Ty.map_int_str)
sig Function.lines _ = done (Ty.str ∷ [], Ty.map_int_str)
sig Function.escape _ = done (Ty.str ∷ Ty.str ∷ [], Ty.str)
sig Function.encode _ = done (Ty.str ∷ Ty.str ∷ [], Ty.str)
sig Function.decode _ = done (Ty.str ∷ Ty.str ∷ [], Ty.str)
sig Function.digest _ = done (Ty.str ∷ Ty.str ∷ [], Ty.str)
sig Function.hmac _ = done (Ty.str ∷ Ty.str ∷ Ty.str ∷ [], Ty.str)
sig Function.jwt _ = done (Ty.str ∷ Ty.str ∷ Ty.map_str_str ∷ [], Ty.str)
sig Function.dejwt _ = done (Ty.str ∷ Ty.str ∷ [], Ty.map_str_str)
sig Function.encrypt _ = done (Ty.str ∷ Ty.str ∷ Ty.str ∷ [], Ty.str)
sig Function.decrypt _ = done (Ty.str ∷ Ty.str ∷ Ty.str ∷ [], Ty.str)
sig Function.asort incoming = do t0 ← at incoming 0; done (t0 ∷ t0 ∷ [], Ty.int)
sig Function.bloom_filter_insert _ = done (Ty.str ∷ Ty.str ∷ [], Ty.null)
sig Function.bloom_filter_contains _ = done (Ty.str ∷ Ty.str ∷ [], Ty.int)
sig Function.bloom_filter_contains_with_insert _ = done (Ty.str ∷ Ty.str ∷ [], Ty.int)
sig Function.fake _ = done (Ty.str ∷ Ty.str ∷ [], Ty.str)
sig Function.type_of_variable incoming = do t0 ← at incoming 0; done (t0 ∷ [], Ty.str)
sig Function.is_array incoming = do t0 ← at incoming 0; done (t0 ∷ [], Ty.int)
sig Function.is_int incoming = do t0 ← at incoming 0; done (t0 ∷ [], Ty.int)
sig Function.is_num incoming = do t0 ← at incoming 0; done (t0 ∷ [], Ty.int)
sig Function.is_format _ = done (Ty.str ∷ Ty.str ∷ [], Ty.int)
sig Function.int_map_join incoming = do t0 ← at incoming 0; done (t0 ∷ Ty.str ∷ [], Ty.str)
sig Function.array_max incoming = at incoming 0 >>= array_sig
sig Function.array_min incoming = at incoming 0 >>= array_sig
sig Function.array_sum incoming = at incoming 0 >>= array_sig
sig Function.array_mean incoming = at incoming 0 >>= array_sig
sig Function.close _ = done (Ty.str ∷ [], Ty.str)
sig Function.sub _ = done (Ty.str ∷ Ty.str ∷ Ty.str ∷ [], Ty.int)
sig Function.gsub _ = done (Ty.str ∷ Ty.str ∷ Ty.str ∷ [], Ty.int)
sig Function.gen_sub _ = done (Ty.str ∷ Ty.str ∷ Ty.str ∷ Ty.str ∷ [], Ty.str)
sig Function.to_upper _ = done (Ty.str ∷ [], Ty.str)
sig Function.to_lower _ = done (Ty.str ∷ [], Ty.str)
sig Function.escape_csv _ = done (Ty.str ∷ [], Ty.str)
sig Function.escape_tsv _ = done (Ty.str ∷ [], Ty.str)
sig Function.substr _ = done (Ty.str ∷ Ty.int ∷ Ty.int ∷ [], Ty.str)
sig Function.char_at _ = done (Ty.str ∷ Ty.int ∷ [], Ty.str)
sig Function.chars _ = done (Ty.str ∷ [], Ty.map_int_str)
sig Function.match _ = done (Ty.str ∷ Ty.str ∷ [], Ty.int)
sig Function.exit _ = done (Ty.int ∷ [], Ty.null)
sig Function.split incoming = at incoming 1 >>= split_sig
sig Function.join_cols _ = done (Ty.int ∷ Ty.int ∷ Ty.str ∷ [], Ty.str)
sig Function.join_csv _ = done (Ty.int ∷ Ty.int ∷ [], Ty.str)
sig Function.join_tsv _ = done (Ty.int ∷ Ty.int ∷ [], Ty.str)
sig Function.set_fi _ = done (Ty.int ∷ Ty.int ∷ [], Ty.int)

-- The test of the argument count in front of the match.
unfoldable pub has_arity : Option ℕ → ℕ → Bool
has_arity none n = true
has_arity (some a) n = n == a

unfoldable pub type_sig : Function → List Ty → Outcome Sig
unfolding has_arity arity
type_sig f incoming = if has_arity (arity f) (length incoming) then sig f incoming else fails
