-- ===== src/Guard.antt =====
-- Who may use the gateway: src/mineru_gateway/startup_guard.py, src/mineru_gateway/gateway/auth.py and
-- readiness.py, with `AuthConfig` of src/mineru_gateway/config.py. Whether a host is public is MinerU's
-- answer.
pub mod Protected
use mineru_gateway.Base.{
  Bool, true, false, String, List, [], ◌∷◌, Option, none, some, ◌==◌, ◌&&◌, ◌||◌, not, is_none,
  is_some, nonempty, or_else, if◌then◌else◌,
}
use Prim.Native.Char.{code}
use mineru_gateway.Base.Table.{find_where}
use mineru_gateway.Models.{Worker, Db}
use mineru_gateway.UploadPaths.{is_space, is_blank}
use mineru_gateway.Cloud.Tags.{strip_prefix}

-- `AuthConfig`
pub record AuthConfig : Type 0 where
  pub enabled : Bool
  pub api_key : Option String

-- `_validate_auth`
unfoldable pub validate_auth : AuthConfig → Bool
validate_auth auth = not (auth.enabled && not (nonempty auth.api_key))

unfoldable pub resolved_keys : AuthConfig → List String
resolved_keys auth = if nonempty auth.api_key then or_else auth.api_key "" ∷ [] else []

-- The settings that the startup reads.
pub record StartupSettings : Type 0 where
  pub auth : AuthConfig
  pub host : String
  pub deployment_id : String
  pub provider : String
  pub bucket : Option String
  pub cloud_workers_enabled : Bool
  pub launch_template_id : Option String

-- `cli_host or settings.host`
abbrev pub bound_host : StartupSettings → (cli_host : Option String) → String
bound_host settings cli_host = if nonempty cli_host then or_else cli_host "" else settings.host

-- `enforce_bind_guard`: whether it lets the gateway start.
unfoldable pub enforce_bind_guard :
    (is_public : String → Bool) → StartupSettings → (cli_host : Option String) → Bool
enforce_bind_guard is_public settings cli_host =
    settings.auth.enabled || not (is_public (bound_host settings cli_host))

-- `_validate_worker_provider_ownership`: no worker in use is of another provider.
abbrev pub is_foreign : (provider : String) → Worker → Bool
is_foreign provider w = is_none w.terminated_at && not (w.provider == provider)

unfoldable pub validate_worker_provider_ownership : StartupSettings → Db → Bool
validate_worker_provider_ownership settings db =
    is_none (find_where (is_foreign settings.provider) db.workers)

-- `validate_startup_dependencies`, with a MinerU of the supported version.
unfoldable pub validate_startup_dependencies : StartupSettings → (has_store : Bool) → Db → Bool
validate_startup_dependencies settings has_store db =
    not (is_blank settings.deployment_id)
    && nonempty settings.bucket
    && has_store
    && not (
        settings.auth.enabled
        && (elim (resolved_keys settings.auth) [ [] ↦ true | ◌∷◌ _ _ ↦ false ]))
    && not (
        settings.cloud_workers_enabled
        && settings.provider == "aws"
        && not (nonempty settings.launch_template_id))
    && validate_worker_provider_ownership settings db

-- `s.strip()`
unfoldable pub strip_left : String → String
strip_left String.[] = ""
strip_left (String.◌∷◌ c s) =
    let rest = strip_left s in if is_space (code c) then rest else String.◌∷◌ c s

unfoldable pub strip_right : String → String
strip_right String.[] = ""
strip_right (String.◌∷◌ c s) =
    let rest = strip_right s in
    if is_space (code c) && not (nonempty (some rest)) then "" else String.◌∷◌ c rest

-- A request: its path and two of its headers.
pub record Request : Type 0 where
  pub path : String
  pub x_api_key : Option String
  pub authorization : Option String

-- `_PUBLIC_PATHS`
abbrev pub is_public_path : String → Bool
is_public_path path =
    path == "/health"
    || path == "/ready"
    || path == "/docs"
    || path == "/openapi.json"
    || path == "/redoc"

-- The key that a request provides.
unfoldable pub provided_key : Request → String
provided_key request =
    if nonempty request.x_api_key
    then or_else request.x_api_key ""
    else (let header = or_else request.authorization "" in
        strip_left (strip_right (or_else (strip_prefix "Bearer " header) header)))

unfoldable pub is_valid_key : String → List String → Bool
is_valid_key provided [] = false
is_valid_key provided (key ∷ keys) = provided == key || is_valid_key provided keys

-- `dispatch`: whether the request is passed on; else the answer is 401.
unfoldable pub dispatch : AuthConfig → Request → Bool
dispatch auth request =
    not auth.enabled
    || is_public_path request.path
    || nonempty (some (provided_key request))
      && is_valid_key (provided_key request) (resolved_keys auth)

-- `check_readiness`, after what the database and the store answered.
unfoldable pub check_readiness : (database_ok : Bool) (store_valid : Option Bool) → Bool × String
check_readiness false store_valid = (false, "database unavailable")
check_readiness true none = (false, "object storage not configured")
check_readiness true (some false) = (false, "object storage unavailable")
check_readiness true (some true) = (true, "ok")
