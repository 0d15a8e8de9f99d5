-- ===== src/Tasks/Storage.antt =====
-- src/mineru_gateway/tasks/storage.py: the keys of objects in the store.
use Prim.Native.String.{◌++◌}
use mineru_gateway.Base.{some, String, ◌==◌, if◌then◌else◌, nonempty}

abbrev pub result_format_zip : String
result_format_zip = "zip"

abbrev pub result_format_mistral_json : String
result_format_mistral_json = "mistral_json"

unfoldable pub payload_key : String → String
payload_key task_id = "payloads" ++ "/" ++ task_id ++ ".bin"

unfoldable pub result_key : (task_id result_format : String) → String
result_key task_id result_format =
    if result_format == result_format_mistral_json
    then "results" ++ "/" ++ task_id ++ ".json"
    else "results" ++ "/" ++ task_id ++ ".zip"

unfoldable pub cache_object_key : (cache_key generation : String) → String
cache_object_key cache_key generation =
    let base = "cache" ++ "/" ++ cache_key in
    if nonempty (some generation) then base ++ "/" ++ generation else base
