-- ===== src/Cloud/Tags.antt =====
-- The tags of a worker's VM (src/mineru_gateway/cloud/types.py).
use mineru_gateway.Base.{ℕ, String, List, [], ◌∷◌, Option, none, some, or_else, eqb, if◌then◌else◌}
use Prim.Native.Char.{code}
use Prim.Native.String.{◌++◌}

-- `s.removeprefix(prefix)`; `none` where the text does not start with it.
unfoldable pub strip_prefix : (prefix s : String) → Option String
strip_prefix String.[] s = some s
strip_prefix (String.◌∷◌ c p) String.[] = none
strip_prefix (String.◌∷◌ c p) (String.◌∷◌ x s) =
    let rest = strip_prefix p s in if eqb (code c) (code x) then rest else none

unfoldable pub format_worker_instance_name : (deployment_id worker_id : String) → String
format_worker_instance_name deployment_id worker_id =
    deployment_id ++ "-" ++ or_else (strip_prefix "cloud-" worker_id) worker_id

-- `build_worker_tags`, with the text of a number.
unfoldable pub build_worker_tags :
    (show : ℕ → String) (worker_id deployment_id : String) (generation : ℕ) → List (String × String)
build_worker_tags show worker_id deployment_id generation =
    ("Name", format_worker_instance_name deployment_id worker_id)
    ∷ ("mineru-gateway-managed", "true")
    ∷ ("mineru-gateway-deployment", deployment_id)
    ∷ ("mineru-gateway-worker-id", worker_id)
    ∷ ("mineru-gateway-role", "worker")
    ∷ ("mineru-gateway-generation", show generation)
    ∷ []
