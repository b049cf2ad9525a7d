-- ===== src/Dataflow/Boilerplate.antt =====
-- src/dataflow.rs: `Key` and the module `boilerplate`, the edges of each instruction.
use frawk.Prelude.{ℕ, ℤ, pos, negsuc, ◌^◌, Option, none, some, List, [], ◌∷◌, if◌then◌else◌, ltb}
use frawk.Compile.{Ty, is_array, key, val, key_iter, iter_elem}
use frawk.Builtins.{Outcome, done, panics, ◌>>=◌, unwrap}
use frawk.Builtins.Function.{Variable}
use frawk.Bytecode.{Reg, Instr, HighLevel}

pub data Key : Type 0 where
  reg map_key map_val : ℕ → Ty → Key
  rng : Key
  var var_key var_val : Variable → Key
  slot : ℕ → Ty → Key
  func : ℕ → Key

-- `From<&Reg<T>> for Key`
abbrev pub of_reg : {t : Ty} → Reg t → Key
of_reg {t = t} r = Key.reg r.index t

abbrev pub val_of : {t : Ty} → Reg t → Key
val_of {t = t} r = Key.map_val r.index t

-- A call `f(dst, src)` of the visitor; a destination whose value is not from a key has no source.
abbrev pub Flow : Type 0
Flow = Key × Option Key

infixl 70 ◌⇐◌
abbrev pub ◌⇐◌ : Key → Key → Flow
dst ⇐ src = (dst, some src)

infixl 70 ◌⟵◌
abbrev pub ◌⟵◌ : {s t : Ty} → Reg s → Reg t → Flow
dst ⟵ src = of_reg dst ⇐ of_reg src

abbrev pub starts : Key → Flow
starts dst = (dst, none)

abbrev pub each_arg : Key → List (ℕ × Ty) → List Flow
each_arg dst [] = []
each_arg dst ((r, ty) ∷ args) = dst ⇐ Key.reg r ty ∷ each_arg dst args

abbrev pub each_pred : ℕ → Ty → List (ℕ × ℕ) → List Flow
each_pred r ty [] = []
each_pred r ty ((_, pred_reg) ∷ preds) = Key.reg r ty ⇐ Key.reg pred_reg ty ∷ each_pred r ty preds

unfoldable pub visit_hl : HighLevel → ℕ → List Flow
visit_hl (HighLevel.call func_id dst_reg dst_ty args) cur_fn_id =
    Key.reg dst_reg dst_ty ⇐ Key.func func_id ∷ each_arg (Key.reg dst_reg dst_ty) args
visit_hl (HighLevel.ret r ty) cur_fn_id = Key.func cur_fn_id ⇐ Key.reg r ty ∷ []
visit_hl (HighLevel.phi r ty preds) cur_fn_id = each_pred r ty preds
visit_hl (HighLevel.drop_iter _ _) cur_fn_id = []

-- A map that is loaded from a variable or stored into it is shared with it.
abbrev pub shares : {t : Ty} → Variable → Reg t → List Flow
shares {t = t} v r =
    Key.map_key r.index t ⇐ Key.var_key v
    ∷ Key.map_val r.index t ⇐ Key.var_val v
    ∷ Key.var_key v ⇐ Key.map_key r.index t
    ∷ Key.var_val v ⇐ Key.map_val r.index t
    ∷ []

-- The edges of `IncInt` and `IncFloat`.
abbrev pub inc_edges : Ty → ℕ → ℕ → ℕ → Key → Outcome (List Flow)
inc_edges map_ty arr k dst by = do
  k_ty ← unwrap (key map_ty)
  v_ty ← unwrap (val map_ty)
  done (
      Key.map_key arr map_ty ⇐ Key.reg k k_ty
      ∷ Key.map_val arr map_ty ⇐ by
      ∷ Key.reg dst v_ty ⇐ Key.map_val arr map_ty
      ∷ [])

-- `u32::try_from(slot).expect(..)`
abbrev pub slot_index : ℤ → Outcome ℕ
slot_index (pos n) = if ltb n (2 ^ 32) then done n else panics
slot_index (negsuc n) = panics

unfoldable pub visit_ll : {Float Regex : Type 0} → Instr Float Regex → Outcome (List Flow)
visit_ll (Instr.store_const_str dst _) = done (starts (of_reg dst) ∷ [])
visit_ll (Instr.store_const_int dst _) = done (starts (of_reg dst) ∷ [])
visit_ll (Instr.store_const_float dst _) = done (starts (of_reg dst) ∷ [])
visit_ll (Instr.int_to_str dst src) = done (dst ⟵ src ∷ [])
visit_ll (Instr.uuid dst version) = done (dst ⟵ version ∷ [])
visit_ll (Instr.snow_flake dst machine_id) = done (dst ⟵ machine_id ∷ [])
visit_ll (Instr.ulid dst) = done (starts (of_reg dst) ∷ [])
visit_ll (Instr.tsid dst) = done (starts (of_reg dst) ∷ [])
visit_ll (Instr.whoami dst) = done (starts (of_reg dst) ∷ [])
visit_ll (Instr.version dst) = done (starts (of_reg dst) ∷ [])
visit_ll (Instr.os dst) = done (starts (of_reg dst) ∷ [])
visit_ll (Instr.os_family dst) = done (starts (of_reg dst) ∷ [])
visit_ll (Instr.arch dst) = done (starts (of_reg dst) ∷ [])
visit_ll (Instr.pwd dst) = done (starts (of_reg dst) ∷ [])
visit_ll (Instr.user_home dst) = done (starts (of_reg dst) ∷ [])
visit_ll (Instr.get_env dst name default_value) = done (dst ⟵ name ∷ dst ⟵ default_value ∷ [])
visit_ll (Instr.local_ip dst) = done (starts (of_reg dst) ∷ [])
visit_ll (Instr.systime dst) = done (starts (of_reg dst) ∷ [])
visit_ll (Instr.encode dst format text) = done (dst ⟵ format ∷ dst ⟵ text ∷ [])
visit_ll (Instr.decode dst format text) = done (dst ⟵ format ∷ dst ⟵ text ∷ [])
visit_ll (Instr.digest dst algorithm text) = done (dst ⟵ algorithm ∷ dst ⟵ text ∷ [])
visit_ll (Instr.escape dst format text) = done (dst ⟵ format ∷ dst ⟵ text ∷ [])
visit_ll (Instr.hmac dst algorithm k text) = done (dst ⟵ algorithm ∷ dst ⟵ k ∷ dst ⟵ text ∷ [])
visit_ll (Instr.jwt dst algorithm k payload) = done (dst ⟵ algorithm ∷ dst ⟵ k ∷ dst ⟵ payload ∷ [])
visit_ll (Instr.dejwt dst k token) = done (dst ⟵ k ∷ dst ⟵ token ∷ [])
visit_ll (Instr.encrypt dst mode plain_text k) = done (dst ⟵ mode ∷ dst ⟵ plain_text ∷ dst ⟵ k ∷ [])
visit_ll (Instr.decrypt dst mode encrypted_text k) =
    done (dst ⟵ mode ∷ dst ⟵ encrypted_text ∷ dst ⟵ k ∷ [])
visit_ll (Instr.strftime dst format timestamp) = done (dst ⟵ format ∷ dst ⟵ timestamp ∷ [])
visit_ll (Instr.mktime dst date_time_text timezone) =
    done (dst ⟵ date_time_text ∷ dst ⟵ timezone ∷ [])
visit_ll (Instr.duration dst expr) = done (dst ⟵ expr ∷ [])
visit_ll (Instr.mk_bool dst text) = done (dst ⟵ text ∷ [])
visit_ll (Instr.mk_password dst len) = done (dst ⟵ len ∷ [])
visit_ll (Instr.fend dst src) = done (dst ⟵ src ∷ [])
visit_ll (Instr.map_str_int_eval dst formula context) = done (dst ⟵ formula ∷ dst ⟵ context ∷ [])
visit_ll (Instr.map_str_float_eval dst formula context) = done (dst ⟵ formula ∷ dst ⟵ context ∷ [])
visit_ll (Instr.map_str_str_eval dst formula context) = done (dst ⟵ formula ∷ dst ⟵ context ∷ [])
visit_ll (Instr.eval dst formula) = done (dst ⟵ formula ∷ [])
visit_ll (Instr.url dst src) = done (dst ⟵ src ∷ [])
visit_ll (Instr.pairs dst src pair_sep kv_sep) =
    done (dst ⟵ src ∷ dst ⟵ pair_sep ∷ dst ⟵ kv_sep ∷ [])
visit_ll (Instr.record_call dst src) = done (dst ⟵ src ∷ [])
visit_ll (Instr.message dst src) = done (dst ⟵ src ∷ [])
visit_ll (Instr.sem_ver dst src) = done (dst ⟵ src ∷ [])
visit_ll (Instr.path dst src) = done (dst ⟵ src ∷ [])
visit_ll (Instr.data_url dst src) = done (dst ⟵ src ∷ [])
visit_ll (Instr.date_time dst timestamp) = done (dst ⟵ timestamp ∷ [])
visit_ll (Instr.shlex dst text) = done (dst ⟵ text ∷ [])
visit_ll (Instr.tuple dst text) = done (dst ⟵ text ∷ [])
visit_ll (Instr.flags dst text) = done (dst ⟵ text ∷ [])
visit_ll (Instr.parse_array dst text) = done (dst ⟵ text ∷ [])
visit_ll (Instr.hex2rgb dst text) = done (dst ⟵ text ∷ [])
visit_ll (Instr.rgb2hex dst red green blue) = done (dst ⟵ red ∷ dst ⟵ green ∷ dst ⟵ blue ∷ [])
visit_ll (Instr.variant dst text) = done (dst ⟵ text ∷ [])
visit_ll (Instr.func dst text) = done (dst ⟵ text ∷ [])
visit_ll (Instr.from_json dst src) = done (dst ⟵ src ∷ [])
visit_ll (Instr.map_int_int_to_json dst arr) = done (dst ⟵ arr ∷ [])
visit_ll (Instr.map_int_float_to_json dst arr) = done (dst ⟵ arr ∷ [])
visit_ll (Instr.map_int_str_to_json dst arr) = done (dst ⟵ arr ∷ [])
visit_ll (Instr.map_str_int_to_json dst arr) = done (dst ⟵ arr ∷ [])
visit_ll (Instr.map_str_float_to_json dst arr) = done (dst ⟵ arr ∷ [])
visit_ll (Instr.map_str_str_to_json dst arr) = done (dst ⟵ arr ∷ [])
visit_ll (Instr.str_to_json dst text) = done (dst ⟵ text ∷ [])
visit_ll (Instr.int_to_json dst num) = done (dst ⟵ num ∷ [])
visit_ll (Instr.float_to_json dst num) = done (dst ⟵ num ∷ [])
visit_ll (Instr.json_value dst json_text json_path) = done (dst ⟵ json_text ∷ dst ⟵ json_path ∷ [])
visit_ll (Instr.json_query dst json_text json_path) = done (dst ⟵ json_text ∷ dst ⟵ json_path ∷ [])
visit_ll (Instr.html_value dst html_text selector) = done (dst ⟵ html_text ∷ dst ⟵ selector ∷ [])
visit_ll (Instr.html_query dst html_text selector) = done (dst ⟵ html_text ∷ dst ⟵ selector ∷ [])
visit_ll (Instr.xml_value dst xml_text xpath) = done (dst ⟵ xml_text ∷ dst ⟵ xpath ∷ [])
visit_ll (Instr.xml_query dst xml_text xpath) = done (dst ⟵ xml_text ∷ dst ⟵ xpath ∷ [])
visit_ll (Instr.map_int_int_asort dst arr target) = done (dst ⟵ arr ∷ dst ⟵ target ∷ [])
visit_ll (Instr.map_int_float_asort dst arr target) = done (dst ⟵ arr ∷ dst ⟵ target ∷ [])
visit_ll (Instr.map_int_str_asort dst arr target) = done (dst ⟵ arr ∷ dst ⟵ target ∷ [])
visit_ll (Instr.map_int_int_join dst arr sep) = done (dst ⟵ arr ∷ dst ⟵ sep ∷ [])
visit_ll (Instr.map_int_float_join dst arr sep) = done (dst ⟵ arr ∷ dst ⟵ sep ∷ [])
visit_ll (Instr.map_int_str_join dst arr sep) = done (dst ⟵ arr ∷ dst ⟵ sep ∷ [])
visit_ll (Instr.map_int_int_max dst arr) = done (dst ⟵ arr ∷ [])
visit_ll (Instr.map_int_float_max dst arr) = done (dst ⟵ arr ∷ [])
visit_ll (Instr.map_int_int_min dst arr) = done (dst ⟵ arr ∷ [])
visit_ll (Instr.map_int_float_min dst arr) = done (dst ⟵ arr ∷ [])
visit_ll (Instr.map_int_int_sum dst arr) = done (dst ⟵ arr ∷ [])
visit_ll (Instr.map_int_float_sum dst arr) = done (dst ⟵ arr ∷ [])
visit_ll (Instr.map_int_int_mean dst arr) = done (dst ⟵ arr ∷ [])
visit_ll (Instr.map_int_float_mean dst arr) = done (dst ⟵ arr ∷ [])
visit_ll (Instr.from_csv dst src) = done (dst ⟵ src ∷ [])
visit_ll (Instr.map_int_int_to_csv dst arr) = done (dst ⟵ arr ∷ [])
visit_ll (Instr.map_int_float_to_csv dst arr) = done (dst ⟵ arr ∷ [])
visit_ll (Instr.map_int_str_to_csv dst arr) = done (dst ⟵ arr ∷ [])
visit_ll (Instr.trim dst src pat) = done (dst ⟵ src ∷ dst ⟵ pat ∷ [])
visit_ll (Instr.truncate dst src len place_holder) =
    done (dst ⟵ src ∷ dst ⟵ len ∷ dst ⟵ place_holder ∷ [])
visit_ll (Instr.parse dst text template) = done (dst ⟵ text ∷ dst ⟵ template ∷ [])
visit_ll (Instr.regex_parse dst text template) = done (dst ⟵ text ∷ dst ⟵ template ∷ [])
visit_ll (Instr.strtonum dst text) = done (dst ⟵ text ∷ [])
visit_ll (Instr.starts_with dst text prefix) = done (dst ⟵ text ∷ dst ⟵ prefix ∷ [])
visit_ll (Instr.ends_with dst text suffix) = done (dst ⟵ text ∷ dst ⟵ suffix ∷ [])
visit_ll (Instr.text_contains dst text child) = done (dst ⟵ text ∷ dst ⟵ child ∷ [])
visit_ll (Instr.format_bytes dst size) = done (dst ⟵ size ∷ [])
visit_ll (Instr.to_bytes dst text) = done (dst ⟵ text ∷ [])
visit_ll (Instr.capitalize dst text) = done (dst ⟵ text ∷ [])
visit_ll (Instr.un_capitalize dst text) = done (dst ⟵ text ∷ [])
visit_ll (Instr.camel_case dst text) = done (dst ⟵ text ∷ [])
visit_ll (Instr.kebab_case dst text) = done (dst ⟵ text ∷ [])
visit_ll (Instr.snake_case dst text) = done (dst ⟵ text ∷ [])
visit_ll (Instr.title_case dst text) = done (dst ⟵ text ∷ [])
visit_ll (Instr.figlet dst text) = done (dst ⟵ text ∷ [])
visit_ll (Instr.pad_left dst text len pad) = done (dst ⟵ text ∷ dst ⟵ len ∷ dst ⟵ pad ∷ [])
visit_ll (Instr.pad_right dst text len pad) = done (dst ⟵ text ∷ dst ⟵ len ∷ dst ⟵ pad ∷ [])
visit_ll (Instr.pad_both dst text len pad) = done (dst ⟵ text ∷ dst ⟵ len ∷ dst ⟵ pad ∷ [])
visit_ll (Instr.str_cmp dst text1 text2) = done (dst ⟵ text1 ∷ dst ⟵ text2 ∷ [])
visit_ll (Instr.mask dst text) = done (dst ⟵ text ∷ [])
visit_ll (Instr.repeat dst text n) = done (dst ⟵ text ∷ dst ⟵ n ∷ [])
visit_ll (Instr.default_if_empty dst text default_value) =
    done (dst ⟵ text ∷ dst ⟵ default_value ∷ [])
visit_ll (Instr.append_if_missing dst text suffix) = done (dst ⟵ text ∷ dst ⟵ suffix ∷ [])
visit_ll (Instr.prepend_if_missing dst text prefix) = done (dst ⟵ text ∷ dst ⟵ prefix ∷ [])
visit_ll (Instr.remove_if_begin dst text prefix) = done (dst ⟵ text ∷ dst ⟵ prefix ∷ [])
visit_ll (Instr.remove_if_end dst text suffix) = done (dst ⟵ text ∷ dst ⟵ suffix ∷ [])
visit_ll (Instr.quote dst text) = done (dst ⟵ text ∷ [])
visit_ll (Instr.double_quote dst text) = done (dst ⟵ text ∷ [])
visit_ll (Instr.words dst text) = done (dst ⟵ text ∷ [])
visit_ll (Instr.lines dst text) = done (dst ⟵ text ∷ [])
visit_ll (Instr.http_get dst url headers) = done (dst ⟵ url ∷ dst ⟵ headers ∷ [])
visit_ll (Instr.http_post dst url body headers) = done (dst ⟵ url ∷ dst ⟵ body ∷ dst ⟵ headers ∷ [])
visit_ll (Instr.s3_get dst bucket object_name) = done (dst ⟵ bucket ∷ dst ⟵ object_name ∷ [])
visit_ll (Instr.s3_put dst bucket object_name body) =
    done (dst ⟵ bucket ∷ dst ⟵ object_name ∷ dst ⟵ body ∷ [])
visit_ll (Instr.kv_get dst namespace k) = done (dst ⟵ namespace ∷ dst ⟵ k ∷ [])
visit_ll (Instr.read_all dst path) = done (dst ⟵ path ∷ [])
visit_ll (Instr.read_config dst path) = done (dst ⟵ path ∷ [])
visit_ll (Instr.sqlite_query dst db_path sql) = done (dst ⟵ db_path ∷ dst ⟵ sql ∷ [])
visit_ll (Instr.sqlite_execute dst db_path sql) = done (dst ⟵ db_path ∷ dst ⟵ sql ∷ [])
visit_ll (Instr.libsql_query dst db_path sql) = done (dst ⟵ db_path ∷ dst ⟵ sql ∷ [])
visit_ll (Instr.libsql_execute dst db_path sql) = done (dst ⟵ db_path ∷ dst ⟵ sql ∷ [])
visit_ll (Instr.mysql_query dst db_url sql) = done (dst ⟵ db_url ∷ dst ⟵ sql ∷ [])
visit_ll (Instr.mysql_execute dst db_url sql) = done (dst ⟵ db_url ∷ dst ⟵ sql ∷ [])
visit_ll (Instr.pg_query dst db_url sql) = done (dst ⟵ db_url ∷ dst ⟵ sql ∷ [])
visit_ll (Instr.pg_execute dst db_url sql) = done (dst ⟵ db_url ∷ dst ⟵ sql ∷ [])
visit_ll (Instr.bloom_filter_contains dst item group) = done (dst ⟵ item ∷ dst ⟵ group ∷ [])
visit_ll (Instr.bloom_filter_contains_with_insert dst item group) =
    done (dst ⟵ item ∷ dst ⟵ group ∷ [])
visit_ll (Instr.fake dst kind locale) = done (dst ⟵ kind ∷ dst ⟵ locale ∷ [])
visit_ll (Instr.max dst first second third) = done (dst ⟵ first ∷ dst ⟵ second ∷ dst ⟵ third ∷ [])
visit_ll (Instr.min dst first second third) = done (dst ⟵ first ∷ dst ⟵ second ∷ dst ⟵ third ∷ [])
visit_ll (Instr.seq dst start step last) = done (dst ⟵ start ∷ dst ⟵ step ∷ dst ⟵ last ∷ [])
visit_ll (Instr.uniq dst src param) = done (dst ⟵ src ∷ dst ⟵ param ∷ [])
visit_ll (Instr.is_str_int dst text) = done (dst ⟵ text ∷ [])
visit_ll (Instr.is_str_num dst text) = done (dst ⟵ text ∷ [])
visit_ll (Instr.is_format dst format text) = done (dst ⟵ format ∷ dst ⟵ text ∷ [])
visit_ll (Instr.int_to_float dst src) = done (dst ⟵ src ∷ [])
visit_ll (Instr.float_to_str dst src) = done (dst ⟵ src ∷ [])
visit_ll (Instr.float_to_int dst src) = done (dst ⟵ src ∷ [])
visit_ll (Instr.str_to_float dst src) = done (dst ⟵ src ∷ [])
visit_ll (Instr.strlen dst s) = done (dst ⟵ s ∷ [])
visit_ll (Instr.len_str dst src) = done (dst ⟵ src ∷ [])
visit_ll (Instr.str_to_int dst src) = done (dst ⟵ src ∷ [])
visit_ll (Instr.hex_str_to_int dst src) = done (dst ⟵ src ∷ [])
visit_ll (Instr.mov ty dst src) = done (
    if is_array ty
    then Key.map_key dst ty ⇐ Key.map_key src ty
      ∷ Key.map_val dst ty ⇐ Key.map_val src ty
      ∷ Key.map_key src ty ⇐ Key.map_key dst ty
      ∷ Key.map_val src ty ⇐ Key.map_val dst ty
      ∷ []
    else Key.reg dst ty ⇐ Key.reg src ty ∷ [])
visit_ll (Instr.add_int dst x y) = done (dst ⟵ x ∷ dst ⟵ y ∷ [])
visit_ll (Instr.mul_int dst x y) = done (dst ⟵ x ∷ dst ⟵ y ∷ [])
visit_ll (Instr.minus_int dst x y) = done (dst ⟵ x ∷ dst ⟵ y ∷ [])
visit_ll (Instr.mod_int dst x y) = done (dst ⟵ x ∷ dst ⟵ y ∷ [])
visit_ll (Instr.int2 _ dst x y) = done (dst ⟵ x ∷ dst ⟵ y ∷ [])
visit_ll (Instr.add_float dst x y) = done (dst ⟵ x ∷ dst ⟵ y ∷ [])
visit_ll (Instr.mul_float dst x y) = done (dst ⟵ x ∷ dst ⟵ y ∷ [])
visit_ll (Instr.minus_float dst x y) = done (dst ⟵ x ∷ dst ⟵ y ∷ [])
visit_ll (Instr.mod_float dst x y) = done (dst ⟵ x ∷ dst ⟵ y ∷ [])
visit_ll (Instr.div dst x y) = done (dst ⟵ x ∷ dst ⟵ y ∷ [])
visit_ll (Instr.pow dst x y) = done (dst ⟵ x ∷ dst ⟵ y ∷ [])
visit_ll (Instr.float2 _ dst x y) = done (dst ⟵ x ∷ dst ⟵ y ∷ [])
visit_ll (Instr.not dst src) = done (dst ⟵ src ∷ [])
visit_ll (Instr.neg_int dst src) = done (dst ⟵ src ∷ [])
visit_ll (Instr.int1 _ dst src) = done (dst ⟵ src ∷ [])
visit_ll (Instr.neg_float dst src) = done (dst ⟵ src ∷ [])
visit_ll (Instr.float1 _ dst src) = done (dst ⟵ src ∷ [])
visit_ll (Instr.not_str dst src) = done (dst ⟵ src ∷ [])
visit_ll (Instr.rand dst) = done (of_reg dst ⇐ Key.rng ∷ [])
visit_ll (Instr.srand old fresh) = done (of_reg old ⇐ Key.rng ∷ Key.rng ⇐ of_reg fresh ∷ [])
visit_ll (Instr.reseed_rng fresh) = done (Key.rng ⇐ of_reg fresh ∷ [])
visit_ll (Instr.concat dst x y) = done (dst ⟵ x ∷ dst ⟵ y ∷ [])
visit_ll (Instr.starts_with_const dst x _) = done (dst ⟵ x ∷ [])
visit_ll (Instr.match_const dst x _) = done (dst ⟵ x ∷ [])
visit_ll (Instr.is_match_const dst x _) = done (dst ⟵ x ∷ [])
visit_ll (Instr.is_match dst x y) = done (dst ⟵ x ∷ dst ⟵ y ∷ [])
visit_ll (Instr.match dst x y) = done (dst ⟵ x ∷ dst ⟵ y ∷ [])
visit_ll (Instr.substr_index dst x y) = done (dst ⟵ x ∷ dst ⟵ y ∷ [])
visit_ll (Instr.substr_last_index dst x y) = done (dst ⟵ x ∷ dst ⟵ y ∷ [])
visit_ll (Instr.gsub dst x y dstin) = done (dst ⟵ x ∷ dst ⟵ y ∷ dstin ⟵ x ∷ dstin ⟵ y ∷ [])
visit_ll (Instr.sub dst x y dstin) = done (dst ⟵ x ∷ dst ⟵ y ∷ dstin ⟵ x ∷ dstin ⟵ y ∷ [])
visit_ll (Instr.gen_sub_dynamic dst pat s how in_s) =
    done (dst ⟵ pat ∷ dst ⟵ s ∷ dst ⟵ how ∷ dst ⟵ in_s ∷ [])
visit_ll (Instr.escape_tsv dst src) = done (dst ⟵ src ∷ [])
visit_ll (Instr.escape_csv dst src) = done (dst ⟵ src ∷ [])
visit_ll (Instr.substr dst x y z) = done (dst ⟵ x ∷ dst ⟵ y ∷ dst ⟵ z ∷ [])
visit_ll (Instr.char_at dst text index) = done (dst ⟵ text ∷ dst ⟵ index ∷ [])
visit_ll (Instr.chars dst text) = done (dst ⟵ text ∷ [])
visit_ll (Instr.last_part dst s sep) = done (dst ⟵ s ∷ dst ⟵ sep ∷ [])
visit_ll (Instr.lt_float dst x y) = done (dst ⟵ x ∷ dst ⟵ y ∷ [])
visit_ll (Instr.gt_float dst x y) = done (dst ⟵ x ∷ dst ⟵ y ∷ [])
visit_ll (Instr.lte_float dst x y) = done (dst ⟵ x ∷ dst ⟵ y ∷ [])
visit_ll (Instr.gte_float dst x y) = done (dst ⟵ x ∷ dst ⟵ y ∷ [])
visit_ll (Instr.eq_float dst x y) = done (dst ⟵ x ∷ dst ⟵ y ∷ [])
visit_ll (Instr.lt_int dst x y) = done (dst ⟵ x ∷ dst ⟵ y ∷ [])
visit_ll (Instr.gt_int dst x y) = done (dst ⟵ x ∷ dst ⟵ y ∷ [])
visit_ll (Instr.lte_int dst x y) = done (dst ⟵ x ∷ dst ⟵ y ∷ [])
visit_ll (Instr.gte_int dst x y) = done (dst ⟵ x ∷ dst ⟵ y ∷ [])
visit_ll (Instr.eq_int dst x y) = done (dst ⟵ x ∷ dst ⟵ y ∷ [])
visit_ll (Instr.lt_str dst x y) = done (dst ⟵ x ∷ dst ⟵ y ∷ [])
visit_ll (Instr.gt_str dst x y) = done (dst ⟵ x ∷ dst ⟵ y ∷ [])
visit_ll (Instr.lte_str dst x y) = done (dst ⟵ x ∷ dst ⟵ y ∷ [])
visit_ll (Instr.gte_str dst x y) = done (dst ⟵ x ∷ dst ⟵ y ∷ [])
visit_ll (Instr.eq_str dst x y) = done (dst ⟵ x ∷ dst ⟵ y ∷ [])
visit_ll (Instr.get_column dst _) = done (starts (of_reg dst) ∷ [])
visit_ll (Instr.join_tsv dst start last) = done (dst ⟵ start ∷ dst ⟵ last ∷ [])
visit_ll (Instr.join_csv dst start last) = done (dst ⟵ start ∷ dst ⟵ last ∷ [])
visit_ll (Instr.join_columns dst x y z) = done (dst ⟵ x ∷ dst ⟵ y ∷ dst ⟵ z ∷ [])
visit_ll (Instr.to_upper_ascii dst src) = done (dst ⟵ src ∷ [])
visit_ll (Instr.to_lower_ascii dst src) = done (dst ⟵ src ∷ [])
visit_ll (Instr.read_err dst _ _) = done (starts (of_reg dst) ∷ [])
visit_ll (Instr.next_line dst _ _) = done (starts (of_reg dst) ∷ [])
visit_ll (Instr.read_err_stdin dst) = done (starts (of_reg dst) ∷ [])
visit_ll (Instr.next_line_stdin dst) = done (starts (of_reg dst) ∷ [])
visit_ll (Instr.split_int dst1 src1 dst2 src2) =
    done (dst1 ⟵ src1 ∷ dst1 ⟵ src2 ∷ val_of dst2 ⇐ of_reg src1 ∷ val_of dst2 ⇐ of_reg src2 ∷ [])
visit_ll (Instr.split_str dst1 src1 dst2 src2) =
    done (dst1 ⟵ src1 ∷ dst1 ⟵ src2 ∷ dst2 ⟵ src1 ∷ dst2 ⟵ src2 ∷ [])
visit_ll (Instr.sprintf dst format args) = done (dst ⟵ format ∷ each_arg (of_reg dst) args)
visit_ll (Instr.run_cmd dst _) = done (starts (of_reg dst) ∷ [])
visit_ll (Instr.run_cmd2 dst command_line) = done (dst ⟵ command_line ∷ [])
visit_ll (Instr.lookup map_ty dst arr k) = do
  k_ty ← unwrap (key map_ty)
  v_ty ← unwrap (val map_ty)
  done (
      Key.map_key arr map_ty ⇐ Key.reg k k_ty
      ∷ starts (Key.map_val arr map_ty)
      ∷ Key.reg dst v_ty ⇐ Key.map_val arr map_ty
      ∷ [])
visit_ll (Instr.len map_ty dst arr) = done (Key.reg dst Ty.int ⇐ Key.reg arr map_ty ∷ [])
visit_ll (Instr.store map_ty arr k v) = do
  k_ty ← unwrap (key map_ty)
  v_ty ← unwrap (val map_ty)
  done (Key.map_key arr map_ty ⇐ Key.reg k k_ty ∷ Key.map_val arr map_ty ⇐ Key.reg v v_ty ∷ [])
visit_ll (Instr.inc_int map_ty arr k dst by) = inc_edges map_ty arr k dst (of_reg by)
visit_ll (Instr.inc_float map_ty arr k dst by) = inc_edges map_ty arr k dst (of_reg by)
visit_ll (Instr.iter_begin map_ty dst arr) = do
  iter_ty ← unwrap (key_iter map_ty)
  done (Key.reg dst iter_ty ⇐ Key.map_key arr map_ty ∷ [])
visit_ll (Instr.iter_get_next iter_ty dst iter) = do
  ty ← unwrap (iter_elem iter_ty)
  done (Key.reg dst ty ⇐ Key.reg iter iter_ty ∷ [])
visit_ll (Instr.load_var_str dst v) = done (of_reg dst ⇐ Key.var v ∷ [])
visit_ll (Instr.load_var_int dst v) = done (of_reg dst ⇐ Key.var v ∷ [])
visit_ll (Instr.store_var_int_map v r) = done (shares v r)
visit_ll (Instr.load_var_int_map r v) = done (shares v r)
visit_ll (Instr.store_var_str_map v r) = done (shares v r)
visit_ll (Instr.load_var_str_map r v) = done (shares v r)
visit_ll (Instr.store_var_str_str_map v r) = done (shares v r)
visit_ll (Instr.load_var_str_str_map r v) = done (shares v r)
visit_ll (Instr.store_var_str v src) = done (Key.var v ⇐ of_reg src ∷ [])
visit_ll (Instr.store_var_int v src) = done (Key.var v ⇐ of_reg src ∷ [])
visit_ll (Instr.load_slot ty ix dst) = do
  n ← slot_index ix
  done (Key.reg dst ty ⇐ Key.slot n ty ∷ [])
visit_ll (Instr.store_slot ty ix src) = do
  n ← slot_index ix
  done (Key.slot n ty ⇐ Key.reg src ty ∷ [])
visit_ll _ = done []
