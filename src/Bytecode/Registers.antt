-- ===== src/Bytecode/Registers.antt =====
-- src/bytecode.rs: `Instr::accum`, the registers that an instruction names.
use frawk.Prelude.{ℕ, Option, none, some, List, [], ◌∷◌}
use frawk.Compile.{Ty, key, val, key_iter, iter_elem}
use frawk.Builtins.{Outcome, done, ◌>>=◌, unwrap}
use frawk.Bytecode.{Reg, FileSpec, Instr, reflect}

abbrev pub path_reg : Option (Reg Ty.str × FileSpec) → List (ℕ × Ty) → List (ℕ × Ty)
path_reg none rest = rest
path_reg (some output) rest = reflect output.0 ∷ rest

abbrev pub reflect_all : List (Reg Ty.str) → List (ℕ × Ty)
reflect_all [] = []
reflect_all (r ∷ rest) = reflect r ∷ reflect_all rest

unfoldable pub accum : {Float Regex : Type 0} → Instr Float Regex → Outcome (List (ℕ × Ty))
accum (Instr.store_const_str sr _) = done (reflect sr ∷ [])
accum (Instr.store_const_int ir _) = done (reflect ir ∷ [])
accum (Instr.store_const_float fr _) = done (reflect fr ∷ [])
accum (Instr.int_to_str sr ir) = done (reflect sr ∷ reflect ir ∷ [])
accum (Instr.float_to_str sr fr) = done (reflect sr ∷ reflect fr ∷ [])
accum (Instr.uuid sr version) = done (reflect sr ∷ reflect version ∷ [])
accum (Instr.snow_flake sr machine_id) = done (reflect sr ∷ reflect machine_id ∷ [])
accum (Instr.ulid sr) = done (reflect sr ∷ [])
accum (Instr.tsid sr) = done (reflect sr ∷ [])
accum (Instr.whoami sr) = done (reflect sr ∷ [])
accum (Instr.version sr) = done (reflect sr ∷ [])
accum (Instr.os sr) = done (reflect sr ∷ [])
accum (Instr.os_family sr) = done (reflect sr ∷ [])
accum (Instr.arch sr) = done (reflect sr ∷ [])
accum (Instr.pwd sr) = done (reflect sr ∷ [])
accum (Instr.user_home sr) = done (reflect sr ∷ [])
accum (Instr.get_env sr name default_value) =
    done (reflect sr ∷ reflect name ∷ reflect default_value ∷ [])
accum (Instr.local_ip sr) = done (reflect sr ∷ [])
accum (Instr.systime sr) = done (reflect sr ∷ [])
accum (Instr.encode res format text) = done (reflect res ∷ reflect format ∷ reflect text ∷ [])
accum (Instr.decode res format text) = done (reflect res ∷ reflect format ∷ reflect text ∷ [])
accum (Instr.escape res format text) = done (reflect res ∷ reflect format ∷ reflect text ∷ [])
accum (Instr.digest res algorithm text) = done (reflect res ∷ reflect algorithm ∷ reflect text ∷ [])
accum (Instr.hmac res algorithm k text) =
    done (reflect res ∷ reflect algorithm ∷ reflect k ∷ reflect text ∷ [])
accum (Instr.jwt res algorithm k payload) =
    done (reflect res ∷ reflect algorithm ∷ reflect k ∷ reflect payload ∷ [])
accum (Instr.dejwt res k token) = done (reflect res ∷ reflect k ∷ reflect token ∷ [])
accum (Instr.encrypt res mode plain_text k) =
    done (reflect res ∷ reflect mode ∷ reflect plain_text ∷ reflect k ∷ [])
accum (Instr.decrypt res mode encrypted_text k) =
    done (reflect res ∷ reflect mode ∷ reflect encrypted_text ∷ reflect k ∷ [])
accum (Instr.strftime res format timestamp) =
    done (reflect res ∷ reflect format ∷ reflect timestamp ∷ [])
accum (Instr.mktime res date_time_text timezone) =
    done (reflect res ∷ reflect date_time_text ∷ reflect timezone ∷ [])
accum (Instr.duration res expr) = done (reflect res ∷ reflect expr ∷ [])
accum (Instr.mk_bool res text) = done (reflect res ∷ reflect text ∷ [])
accum (Instr.mk_password res len) = done (reflect res ∷ reflect len ∷ [])
accum (Instr.fend dst src) = done (reflect dst ∷ reflect src ∷ [])
accum (Instr.map_str_int_eval dst formula context) =
    done (reflect dst ∷ reflect formula ∷ reflect context ∷ [])
accum (Instr.map_str_float_eval dst formula context) =
    done (reflect dst ∷ reflect formula ∷ reflect context ∷ [])
accum (Instr.map_str_str_eval dst formula context) =
    done (reflect dst ∷ reflect formula ∷ reflect context ∷ [])
accum (Instr.eval dst formula) = done (reflect dst ∷ reflect formula ∷ [])
accum (Instr.url dst src) = done (reflect dst ∷ reflect src ∷ [])
accum (Instr.pairs dst src pair_sep kv_sep) =
    done (reflect dst ∷ reflect src ∷ reflect pair_sep ∷ reflect kv_sep ∷ [])
accum (Instr.record_call dst src) = done (reflect dst ∷ reflect src ∷ [])
accum (Instr.message dst src) = done (reflect dst ∷ reflect src ∷ [])
accum (Instr.sem_ver dst src) = done (reflect dst ∷ reflect src ∷ [])
accum (Instr.path dst src) = done (reflect dst ∷ reflect src ∷ [])
accum (Instr.data_url dst src) = done (reflect dst ∷ reflect src ∷ [])
accum (Instr.date_time dst timestamp) = done (reflect dst ∷ reflect timestamp ∷ [])
accum (Instr.shlex dst text) = done (reflect dst ∷ reflect text ∷ [])
accum (Instr.tuple dst text) = done (reflect dst ∷ reflect text ∷ [])
accum (Instr.flags dst text) = done (reflect dst ∷ reflect text ∷ [])
accum (Instr.parse_array dst text) = done (reflect dst ∷ reflect text ∷ [])
accum (Instr.hex2rgb dst text) = done (reflect dst ∷ reflect text ∷ [])
accum (Instr.rgb2hex dst red green blue) =
    done (reflect dst ∷ reflect red ∷ reflect green ∷ reflect blue ∷ [])
accum (Instr.variant dst text) = done (reflect dst ∷ reflect text ∷ [])
accum (Instr.func dst text) = done (reflect dst ∷ reflect text ∷ [])
accum (Instr.http_get dst url headers) = done (reflect dst ∷ reflect url ∷ reflect headers ∷ [])
accum (Instr.http_post dst url body headers) =
    done (reflect dst ∷ reflect url ∷ reflect headers ∷ reflect body ∷ [])
accum (Instr.send_mail from target_s subject body) =
    done (reflect from ∷ reflect target_s ∷ reflect subject ∷ reflect body ∷ [])
accum (Instr.smtp_send url from target_s subject body) =
    done (reflect url ∷ reflect from ∷ reflect target_s ∷ reflect subject ∷ reflect body ∷ [])
accum (Instr.s3_get dst bucket object_name) =
    done (reflect dst ∷ reflect bucket ∷ reflect object_name ∷ [])
accum (Instr.s3_put dst bucket object_name body) =
    done (reflect dst ∷ reflect bucket ∷ reflect object_name ∷ reflect body ∷ [])
accum (Instr.kv_get dst namespace k) = done (reflect dst ∷ reflect namespace ∷ reflect k ∷ [])
accum (Instr.kv_put namespace k value) = done (reflect namespace ∷ reflect k ∷ reflect value ∷ [])
accum (Instr.kv_delete namespace k) = done (reflect namespace ∷ reflect k ∷ [])
accum (Instr.kv_clear namespace) = done (reflect namespace ∷ [])
accum (Instr.read_all dst path) = done (reflect dst ∷ reflect path ∷ [])
accum (Instr.write_all path content) = done (reflect path ∷ reflect content ∷ [])
accum (Instr.read_config dst path) = done (reflect dst ∷ reflect path ∷ [])
accum (Instr.log_debug message) = done (reflect message ∷ [])
accum (Instr.log_info message) = done (reflect message ∷ [])
accum (Instr.log_warn message) = done (reflect message ∷ [])
accum (Instr.log_error message) = done (reflect message ∷ [])
accum (Instr.sqlite_query dst db_path sql) = done (reflect dst ∷ reflect db_path ∷ reflect sql ∷ [])
accum (Instr.sqlite_execute dst db_path sql) =
    done (reflect dst ∷ reflect db_path ∷ reflect sql ∷ [])
accum (Instr.libsql_query dst db_path sql) = done (reflect dst ∷ reflect db_path ∷ reflect sql ∷ [])
accum (Instr.libsql_execute dst db_path sql) =
    done (reflect dst ∷ reflect db_path ∷ reflect sql ∷ [])
accum (Instr.mysql_query dst db_url sql) = done (reflect dst ∷ reflect db_url ∷ reflect sql ∷ [])
accum (Instr.mysql_execute dst db_url sql) = done (reflect dst ∷ reflect db_url ∷ reflect sql ∷ [])
accum (Instr.pg_query dst db_url sql) = done (reflect dst ∷ reflect db_url ∷ reflect sql ∷ [])
accum (Instr.pg_execute dst db_url sql) = done (reflect dst ∷ reflect db_url ∷ reflect sql ∷ [])
accum (Instr.publish namespace body) = done (reflect namespace ∷ reflect body ∷ [])
accum (Instr.bloom_filter_insert item group) = done (reflect item ∷ reflect group ∷ [])
accum (Instr.bloom_filter_contains dst item group) =
    done (reflect dst ∷ reflect item ∷ reflect group ∷ [])
accum (Instr.bloom_filter_contains_with_insert dst item group) =
    done (reflect dst ∷ reflect item ∷ reflect group ∷ [])
accum (Instr.fake dst kind locale) = done (reflect dst ∷ reflect kind ∷ reflect locale ∷ [])
accum (Instr.from_json dst src) = done (reflect dst ∷ reflect src ∷ [])
accum (Instr.map_int_int_to_json dst arr) = done (reflect dst ∷ reflect arr ∷ [])
accum (Instr.map_int_float_to_json dst arr) = done (reflect dst ∷ reflect arr ∷ [])
accum (Instr.map_int_str_to_json dst arr) = done (reflect dst ∷ reflect arr ∷ [])
accum (Instr.map_str_int_to_json dst arr) = done (reflect dst ∷ reflect arr ∷ [])
accum (Instr.map_str_float_to_json dst arr) = done (reflect dst ∷ reflect arr ∷ [])
accum (Instr.map_str_str_to_json dst arr) = done (reflect dst ∷ reflect arr ∷ [])
accum (Instr.str_to_json dst text) = done (reflect dst ∷ reflect text ∷ [])
accum (Instr.int_to_json dst num) = done (reflect dst ∷ reflect num ∷ [])
accum (Instr.float_to_json dst num) = done (reflect dst ∷ reflect num ∷ [])
accum (Instr.null_to_json dst) = done (reflect dst ∷ [])
accum (Instr.json_value dst json_text json_path) =
    done (reflect dst ∷ reflect json_text ∷ reflect json_path ∷ [])
accum (Instr.json_query dst json_text json_path) =
    done (reflect dst ∷ reflect json_text ∷ reflect json_path ∷ [])
accum (Instr.html_value dst html_text selector) =
    done (reflect dst ∷ reflect html_text ∷ reflect selector ∷ [])
accum (Instr.html_query dst html_text selector) =
    done (reflect dst ∷ reflect html_text ∷ reflect selector ∷ [])
accum (Instr.xml_value dst xml_text xpath) =
    done (reflect dst ∷ reflect xml_text ∷ reflect xpath ∷ [])
accum (Instr.xml_query dst xml_text xpath) =
    done (reflect dst ∷ reflect xml_text ∷ reflect xpath ∷ [])
accum (Instr.dump_map_int_int arr) = done (reflect arr ∷ [])
accum (Instr.dump_map_int_float arr) = done (reflect arr ∷ [])
accum (Instr.dump_map_int_str arr) = done (reflect arr ∷ [])
accum (Instr.dump_map_str_int arr) = done (reflect arr ∷ [])
accum (Instr.dump_map_str_float arr) = done (reflect arr ∷ [])
accum (Instr.dump_map_str_str arr) = done (reflect arr ∷ [])
accum (Instr.dump_str text) = done (reflect text ∷ [])
accum (Instr.dump_int num) = done (reflect num ∷ [])
accum (Instr.dump_float num) = done (reflect num ∷ [])
accum (Instr.map_int_int_asort dst arr target) =
    done (reflect dst ∷ reflect arr ∷ reflect target ∷ [])
accum (Instr.map_int_float_asort dst arr target) =
    done (reflect dst ∷ reflect arr ∷ reflect target ∷ [])
accum (Instr.map_int_str_asort dst arr target) =
    done (reflect dst ∷ reflect arr ∷ reflect target ∷ [])
accum (Instr.map_int_int_join dst arr target) =
    done (reflect dst ∷ reflect arr ∷ reflect target ∷ [])
accum (Instr.map_int_float_join dst arr sep) = done (reflect dst ∷ reflect arr ∷ reflect sep ∷ [])
accum (Instr.map_int_str_join dst arr sep) = done (reflect dst ∷ reflect arr ∷ reflect sep ∷ [])
accum (Instr.map_int_int_max dst arr) = done (reflect dst ∷ reflect arr ∷ [])
accum (Instr.map_int_float_max dst arr) = done (reflect dst ∷ reflect arr ∷ [])
accum (Instr.map_int_int_min dst arr) = done (reflect dst ∷ reflect arr ∷ [])
accum (Instr.map_int_float_min dst arr) = done (reflect dst ∷ reflect arr ∷ [])
accum (Instr.map_int_int_sum dst arr) = done (reflect dst ∷ reflect arr ∷ [])
accum (Instr.map_int_float_sum dst arr) = done (reflect dst ∷ reflect arr ∷ [])
accum (Instr.map_int_int_mean dst arr) = done (reflect dst ∷ reflect arr ∷ [])
accum (Instr.map_int_float_mean dst arr) = done (reflect dst ∷ reflect arr ∷ [])
accum (Instr.from_csv dst src) = done (reflect dst ∷ reflect src ∷ [])
accum (Instr.map_int_int_to_csv dst arr) = done (reflect dst ∷ reflect arr ∷ [])
accum (Instr.map_int_float_to_csv dst arr) = done (reflect dst ∷ reflect arr ∷ [])
accum (Instr.map_int_str_to_csv dst arr) = done (reflect dst ∷ reflect arr ∷ [])
accum (Instr.max dst first second third) =
    done (reflect dst ∷ reflect first ∷ reflect second ∷ reflect third ∷ [])
accum (Instr.min dst first second third) =
    done (reflect dst ∷ reflect first ∷ reflect second ∷ reflect third ∷ [])
accum (Instr.seq dst start step last) =
    done (reflect dst ∷ reflect start ∷ reflect step ∷ reflect last ∷ [])
accum (Instr.uniq dst src param) = done (reflect dst ∷ reflect src ∷ reflect param ∷ [])
accum (Instr.trim dst src pat) = done (reflect dst ∷ reflect src ∷ reflect pat ∷ [])
accum (Instr.truncate dst src len place_holder) =
    done (reflect dst ∷ reflect src ∷ reflect len ∷ reflect place_holder ∷ [])
accum (Instr.parse dst text template) = done (reflect dst ∷ reflect text ∷ reflect template ∷ [])
accum (Instr.regex_parse dst text template) =
    done (reflect dst ∷ reflect text ∷ reflect template ∷ [])
accum (Instr.strtonum dst text) = done (reflect dst ∷ reflect text ∷ [])
accum (Instr.format_bytes dst size) = done (reflect dst ∷ reflect size ∷ [])
accum (Instr.to_bytes dst text) = done (reflect dst ∷ reflect text ∷ [])
accum (Instr.starts_with dst text prefix) = done (reflect dst ∷ reflect text ∷ reflect prefix ∷ [])
accum (Instr.ends_with dst text suffix) = done (reflect dst ∷ reflect text ∷ reflect suffix ∷ [])
accum (Instr.text_contains dst text child) = done (reflect dst ∷ reflect text ∷ reflect child ∷ [])
accum (Instr.capitalize dst text) = done (reflect dst ∷ reflect text ∷ [])
accum (Instr.un_capitalize dst text) = done (reflect dst ∷ reflect text ∷ [])
accum (Instr.camel_case dst text) = done (reflect dst ∷ reflect text ∷ [])
accum (Instr.kebab_case dst text) = done (reflect dst ∷ reflect text ∷ [])
accum (Instr.snake_case dst text) = done (reflect dst ∷ reflect text ∷ [])
accum (Instr.title_case dst text) = done (reflect dst ∷ reflect text ∷ [])
accum (Instr.figlet dst text) = done (reflect dst ∷ reflect text ∷ [])
accum (Instr.pad_left dst text len pad) =
    done (reflect dst ∷ reflect text ∷ reflect len ∷ reflect pad ∷ [])
accum (Instr.pad_right dst text len pad) =
    done (reflect dst ∷ reflect text ∷ reflect len ∷ reflect pad ∷ [])
accum (Instr.pad_both dst text len pad) =
    done (reflect dst ∷ reflect text ∷ reflect len ∷ reflect pad ∷ [])
accum (Instr.str_cmp dst text1 text2) = done (reflect dst ∷ reflect text1 ∷ reflect text2 ∷ [])
accum (Instr.mask dst text) = done (reflect dst ∷ reflect text ∷ [])
accum (Instr.repeat dst text n) = done (reflect dst ∷ reflect text ∷ reflect n ∷ [])
accum (Instr.default_if_empty dst text default_value) =
    done (reflect dst ∷ reflect text ∷ reflect default_value ∷ [])
accum (Instr.append_if_missing dst text suffix) =
    done (reflect dst ∷ reflect text ∷ reflect suffix ∷ [])
accum (Instr.prepend_if_missing dst text prefix) =
    done (reflect dst ∷ reflect text ∷ reflect prefix ∷ [])
accum (Instr.remove_if_end dst text suffix) =
    done (reflect dst ∷ reflect text ∷ reflect suffix ∷ [])
accum (Instr.remove_if_begin dst text prefix) =
    done (reflect dst ∷ reflect text ∷ reflect prefix ∷ [])
accum (Instr.quote dst text) = done (reflect dst ∷ reflect text ∷ [])
accum (Instr.double_quote dst text) = done (reflect dst ∷ reflect text ∷ [])
accum (Instr.words dst text) = done (reflect dst ∷ reflect text ∷ [])
accum (Instr.lines dst text) = done (reflect dst ∷ reflect text ∷ [])
accum (Instr.is_array_true dst) = done (reflect dst ∷ [])
accum (Instr.is_array_false dst) = done (reflect dst ∷ [])
accum (Instr.is_int_true dst) = done (reflect dst ∷ [])
accum (Instr.is_int_false dst) = done (reflect dst ∷ [])
accum (Instr.is_str_int dst text) = done (reflect dst ∷ reflect text ∷ [])
accum (Instr.is_num_true dst) = done (reflect dst ∷ [])
accum (Instr.is_num_false dst) = done (reflect dst ∷ [])
accum (Instr.is_str_num dst text) = done (reflect dst ∷ reflect text ∷ [])
accum (Instr.is_format dst format text) = done (reflect dst ∷ reflect format ∷ reflect text ∷ [])
accum (Instr.str_to_int ir sr) = done (reflect ir ∷ reflect sr ∷ [])
accum (Instr.hex_str_to_int ir sr) = done (reflect ir ∷ reflect sr ∷ [])
accum (Instr.str_to_float fr sr) = done (reflect fr ∷ reflect sr ∷ [])
accum (Instr.float_to_int ir fr) = done (reflect ir ∷ reflect fr ∷ [])
accum (Instr.int_to_float fr ir) = done (reflect fr ∷ reflect ir ∷ [])
accum (Instr.add_int res l r) = done (reflect res ∷ reflect l ∷ reflect r ∷ [])
accum (Instr.add_float res l r) = done (reflect res ∷ reflect l ∷ reflect r ∷ [])
accum (Instr.mul_int res l r) = done (reflect res ∷ reflect l ∷ reflect r ∷ [])
accum (Instr.mul_float res l r) = done (reflect res ∷ reflect l ∷ reflect r ∷ [])
accum (Instr.minus_int res l r) = done (reflect res ∷ reflect l ∷ reflect r ∷ [])
accum (Instr.minus_float res l r) = done (reflect res ∷ reflect l ∷ reflect r ∷ [])
accum (Instr.mod_int res l r) = done (reflect res ∷ reflect l ∷ reflect r ∷ [])
accum (Instr.mod_float res l r) = done (reflect res ∷ reflect l ∷ reflect r ∷ [])
accum (Instr.pow res l r) = done (reflect res ∷ reflect l ∷ reflect r ∷ [])
accum (Instr.div res l r) = done (reflect res ∷ reflect l ∷ reflect r ∷ [])
accum (Instr.not res ir) = done (reflect res ∷ reflect ir ∷ [])
accum (Instr.not_str res sr) = done (reflect res ∷ reflect sr ∷ [])
accum (Instr.neg_int res ir) = done (reflect res ∷ reflect ir ∷ [])
accum (Instr.neg_float res fr) = done (reflect res ∷ reflect fr ∷ [])
accum (Instr.float1 _ dst src) = done (reflect dst ∷ reflect src ∷ [])
accum (Instr.float2 _ dst x y) = done (reflect dst ∷ reflect x ∷ reflect y ∷ [])
accum (Instr.int1 _ dst src) = done (reflect dst ∷ reflect src ∷ [])
accum (Instr.int2 _ dst x y) = done (reflect dst ∷ reflect x ∷ reflect y ∷ [])
accum (Instr.rand res) = done (reflect res ∷ [])
accum (Instr.srand res seed) = done (reflect res ∷ reflect seed ∷ [])
accum (Instr.reseed_rng res) = done (reflect res ∷ [])
accum (Instr.starts_with_const res s _) = done (reflect res ∷ reflect s ∷ [])
accum (Instr.concat res l r) = done (reflect res ∷ reflect l ∷ reflect r ∷ [])
accum (Instr.match res l r) = done (reflect res ∷ reflect l ∷ reflect r ∷ [])
accum (Instr.is_match res l r) = done (reflect res ∷ reflect l ∷ reflect r ∷ [])
accum (Instr.match_const res src _) = done (reflect res ∷ reflect src ∷ [])
accum (Instr.is_match_const res src _) = done (reflect res ∷ reflect src ∷ [])
accum (Instr.substr_index res s t) = done (reflect res ∷ reflect s ∷ reflect t ∷ [])
accum (Instr.substr_last_index res s t) = done (reflect res ∷ reflect s ∷ reflect t ∷ [])
accum (Instr.last_part res s sep) = done (reflect res ∷ reflect s ∷ reflect sep ∷ [])
accum (Instr.strlen res s) = done (reflect res ∷ reflect s ∷ [])
accum (Instr.len_str res s) = done (reflect res ∷ reflect s ∷ [])
accum (Instr.gsub res pat s in_s) = done (reflect res ∷ reflect pat ∷ reflect s ∷ reflect in_s ∷ [])
accum (Instr.sub res pat s in_s) = done (reflect res ∷ reflect pat ∷ reflect s ∷ reflect in_s ∷ [])
accum (Instr.gen_sub_dynamic res pat s how in_s) =
    done (reflect res ∷ reflect pat ∷ reflect s ∷ reflect how ∷ reflect in_s ∷ [])
accum (Instr.escape_csv res s) = done (reflect res ∷ reflect s ∷ [])
accum (Instr.escape_tsv res s) = done (reflect res ∷ reflect s ∷ [])
accum (Instr.substr res base l r) = done (reflect res ∷ reflect base ∷ reflect l ∷ reflect r ∷ [])
accum (Instr.char_at res text index) = done (reflect res ∷ reflect text ∷ reflect index ∷ [])
accum (Instr.chars res text) = done (reflect res ∷ reflect text ∷ [])
accum (Instr.lt_float res l r) = done (reflect res ∷ reflect l ∷ reflect r ∷ [])
accum (Instr.lt_int res l r) = done (reflect res ∷ reflect l ∷ reflect r ∷ [])
accum (Instr.lt_str res l r) = done (reflect res ∷ reflect l ∷ reflect r ∷ [])
accum (Instr.gt_float res l r) = done (reflect res ∷ reflect l ∷ reflect r ∷ [])
accum (Instr.gt_int res l r) = done (reflect res ∷ reflect l ∷ reflect r ∷ [])
accum (Instr.gt_str res l r) = done (reflect res ∷ reflect l ∷ reflect r ∷ [])
accum (Instr.lte_float res l r) = done (reflect res ∷ reflect l ∷ reflect r ∷ [])
accum (Instr.lte_int res l r) = done (reflect res ∷ reflect l ∷ reflect r ∷ [])
accum (Instr.lte_str res l r) = done (reflect res ∷ reflect l ∷ reflect r ∷ [])
accum (Instr.gte_float res l r) = done (reflect res ∷ reflect l ∷ reflect r ∷ [])
accum (Instr.gte_int res l r) = done (reflect res ∷ reflect l ∷ reflect r ∷ [])
accum (Instr.gte_str res l r) = done (reflect res ∷ reflect l ∷ reflect r ∷ [])
accum (Instr.eq_float res l r) = done (reflect res ∷ reflect l ∷ reflect r ∷ [])
accum (Instr.eq_int res l r) = done (reflect res ∷ reflect l ∷ reflect r ∷ [])
accum (Instr.eq_str res l r) = done (reflect res ∷ reflect l ∷ reflect r ∷ [])
accum (Instr.set_column dst src) = done (reflect dst ∷ reflect src ∷ [])
accum (Instr.get_column dst src) = done (reflect dst ∷ reflect src ∷ [])
accum (Instr.join_csv dst start last) = done (reflect dst ∷ reflect start ∷ reflect last ∷ [])
accum (Instr.join_tsv dst start last) = done (reflect dst ∷ reflect start ∷ reflect last ∷ [])
accum (Instr.join_columns dst start last sep) =
    done (reflect dst ∷ reflect start ∷ reflect last ∷ reflect sep ∷ [])
accum (Instr.to_upper_ascii dst src) = done (reflect dst ∷ reflect src ∷ [])
accum (Instr.to_lower_ascii dst src) = done (reflect dst ∷ reflect src ∷ [])
accum (Instr.split_int flds to_split arr pat) =
    done (reflect flds ∷ reflect to_split ∷ reflect arr ∷ reflect pat ∷ [])
accum (Instr.split_str flds to_split arr pat) =
    done (reflect flds ∷ reflect to_split ∷ reflect arr ∷ reflect pat ∷ [])
accum (Instr.sprintf dst format args) = done (reflect dst ∷ reflect format ∷ args)
accum (Instr.printf output format args) = done (path_reg output (reflect format ∷ args))
accum (Instr.print_all output args) = done (path_reg output (reflect_all args))
accum (Instr.close file) = done (reflect file ∷ [])
accum (Instr.run_cmd dst cmd) = done (reflect dst ∷ reflect cmd ∷ [])
accum (Instr.run_cmd2 dst cmd) = done (reflect dst ∷ reflect cmd ∷ [])
accum (Instr.exit code) = done (reflect code ∷ [])
accum (Instr.lookup map_ty dst arr k) = do
  k_ty ← unwrap (key map_ty)
  v_ty ← unwrap (val map_ty)
  done ((dst, v_ty) ∷ (k, k_ty) ∷ (arr, map_ty) ∷ [])
accum (Instr.contains map_ty dst arr k) = do
  k_ty ← unwrap (key map_ty)
  done ((dst, Ty.int) ∷ (k, k_ty) ∷ (arr, map_ty) ∷ [])
accum (Instr.delete map_ty arr k) = do
  k_ty ← unwrap (key map_ty)
  done ((k, k_ty) ∷ (arr, map_ty) ∷ [])
accum (Instr.clear map_ty arr) = done ((arr, map_ty) ∷ [])
accum (Instr.len map_ty dst arr) = done ((dst, Ty.int) ∷ (arr, map_ty) ∷ [])
accum (Instr.iter_begin map_ty dst arr) = do
  iter_ty ← unwrap (key_iter map_ty)
  done ((dst, iter_ty) ∷ (arr, map_ty) ∷ [])
accum (Instr.store map_ty arr k v) = do
  k_ty ← unwrap (key map_ty)
  v_ty ← unwrap (val map_ty)
  done ((arr, map_ty) ∷ (k, k_ty) ∷ (v, v_ty) ∷ [])
accum (Instr.inc_int map_ty arr k dst by) = do
  k_ty ← unwrap (key map_ty)
  v_ty ← unwrap (val map_ty)
  done ((arr, map_ty) ∷ (k, k_ty) ∷ (dst, v_ty) ∷ reflect by ∷ [])
accum (Instr.inc_float map_ty arr k dst by) = do
  k_ty ← unwrap (key map_ty)
  v_ty ← unwrap (val map_ty)
  done ((arr, map_ty) ∷ (k, k_ty) ∷ (dst, v_ty) ∷ reflect by ∷ [])
accum (Instr.load_var_str dst _) = done (reflect dst ∷ [])
accum (Instr.store_var_str _ src) = done (reflect src ∷ [])
accum (Instr.load_var_int dst _) = done (reflect dst ∷ [])
accum (Instr.store_var_int _ src) = done (reflect src ∷ [])
accum (Instr.load_var_int_map dst _) = done (reflect dst ∷ [])
accum (Instr.store_var_int_map _ src) = done (reflect src ∷ [])
accum (Instr.load_var_str_map dst _) = done (reflect dst ∷ [])
accum (Instr.store_var_str_map _ src) = done (reflect src ∷ [])
accum (Instr.load_var_str_str_map dst _) = done (reflect dst ∷ [])
accum (Instr.store_var_str_str_map _ src) = done (reflect src ∷ [])
accum (Instr.load_slot ty _ dst) = done ((dst, ty) ∷ [])
accum (Instr.store_slot ty _ src) = done ((src, ty) ∷ [])
accum (Instr.iter_has_next iter_ty dst iter) = done ((dst, Ty.int) ∷ (iter, iter_ty) ∷ [])
accum (Instr.iter_get_next iter_ty dst iter) = do
  ty ← unwrap (iter_elem iter_ty)
  done ((dst, ty) ∷ (iter, iter_ty) ∷ [])
accum (Instr.mov ty dst src) = done ((dst, ty) ∷ (src, ty) ∷ [])
accum (Instr.alloc_map ty r) = done ((r, ty) ∷ [])
accum (Instr.read_err dst file _) = done (reflect dst ∷ reflect file ∷ [])
accum (Instr.next_line dst file _) = done (reflect dst ∷ reflect file ∷ [])
accum (Instr.read_err_stdin dst) = done (reflect dst ∷ [])
accum (Instr.next_line_stdin dst) = done (reflect dst ∷ [])
accum (Instr.jmp_if cond _) = done (reflect cond ∷ [])
accum (Instr.push ty r) = done ((r, ty) ∷ [])
accum (Instr.pop ty r) = done ((r, ty) ∷ [])
accum (Instr.set_fi k v) = done (reflect k ∷ reflect v ∷ [])
accum _ = done []
