-- ===== src/Cache/Digests.antt =====
-- The identity of a request in the cache: the hashes of its files and of its options. SHA-256 and
-- JSON are parameters.
use mineru_gateway.Base.{
  String, List, [], ◌∷◌, Option, none, some, ◌==◌, ltb, ◌++◌, map, if◌then◌else◌,
}
use mineru_gateway.Base.Table.{length}
use mineru_gateway.Config.{GatewaySettings}
use mineru_gateway.Models.{OptionValue, text, texts}
use mineru_gateway.Admission.{effective_file_size_limit}
use mineru_gateway.Payload.{Bytes, StagedUpload}
use mineru_gateway.Workers.Queries.{text_less}

abbrev pub Options : Type 0
Options = List (String × OptionValue)

abbrev pub Records : Type 0
Records = List (String × String)

-- `hashlib.sha256(…).hexdigest()` of a file, and of the text of the records, of the options and of
-- both, as `json.dumps` writes them.
pub record Hashes : Type 0 where
  pub file_digest : Bytes → String
  pub records_digest : Records → String
  pub options_digest : Options → String
  pub key_digest : Records → Options → String

-- `hash_file_at_path`; `none` is the 413 of a file over the limit.
unfoldable pub hash_file_at_path : GatewaySettings → Hashes → Bytes → Option String
hash_file_at_path cfg hashes file =
    if ltb (effective_file_size_limit cfg) (length file)
    then none
    else some (hashes.file_digest file)

abbrev pub add_record : String → Option String → Option Records → Option Records
add_record name none records = none
add_record name (some digest) none = none
add_record name (some digest) (some records) = some ((name, digest) ∷ records)

-- `compute_file_records_from_paths`
unfoldable pub compute_file_records : GatewaySettings → Hashes → List StagedUpload → Option Records
compute_file_records cfg hashes [] = some []
compute_file_records cfg hashes (u ∷ uploads) =
    add_record u.upload_name (hash_file_at_path cfg hashes u.content)
      (compute_file_records cfg hashes uploads)

-- `options.get(name)`
unfoldable pub get_option : String → Options → Option OptionValue
get_option name [] = none
get_option name ((k, v) ∷ options) =
    let rest = get_option name options in if k == name then some v else rest

-- `options.get(name, default)` of a field that is not repeated.
abbrev pub option_or : Option OptionValue → String → String
option_or none fallback = fallback
option_or (some (text value)) fallback = value
option_or (some (texts values)) fallback = fallback

-- `options[name] = value`, where a new name goes to the end.
unfoldable pub set_option : String → OptionValue → Options → Options
set_option name value [] = (name, value) ∷ []
set_option name value ((k, v) ∷ options) =
    let rest = set_option name value options in
    if k == name then (k, value) ∷ options else (k, v) ∷ rest

abbrev pub values_of : Option OptionValue → List String
values_of none = []
values_of (some (text value)) = []
values_of (some (texts values)) = values

-- One field: the languages are collected, and of another field the last value stays.
unfoldable pub add_field : String × String → Options → Options
add_field (name, value) options =
    if name == "lang_list"
    then set_option name (texts (values_of (get_option name options) ++ value ∷ [])) options
    else set_option name (text value) options

unfoldable pub add_fields : List (String × String) → Options → Options
add_fields [] options = options
add_fields (field ∷ fields) options = add_fields fields (add_field field options)

-- `sorted` on texts.
unfoldable pub insert_text : String → List String → List String
insert_text s [] = s ∷ []
insert_text s (t ∷ ts) =
    let rest = insert_text s ts in if text_less t s then t ∷ rest else s ∷ t ∷ ts

unfoldable pub sorted : List String → List String
sorted [] = []
sorted (s ∷ ts) = insert_text s (sorted ts)

abbrev pub sort_values : OptionValue → OptionValue
sort_values (text value) = text value
sort_values (texts values) = texts (sorted values)

-- `build_cache_options_from_payload`
unfoldable pub build_cache_options : List (String × String) → Options
build_cache_options fields = map (λ option. (option.0, sort_values option.1)) (add_fields fields [])
