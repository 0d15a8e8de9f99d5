-- ===== src/Guard/Protected.antt =====
-- A gateway on a public host serves only requests with its key.
use mineru_gateway.Base.{
  ◌≡◌, ◌⊎◌, inl, inr, Bool, true, false, String, Option, some, ◌==◌, nonempty, or_else, arith,
  Bool-cases, eq_iff,
}
use mineru_gateway.Guard.{
  AuthConfig, StartupSettings, Request, resolved_keys, bound_host, enforce_bind_guard,
  is_public_path, provided_key, is_valid_key, dispatch,
}

valid_key :
    (auth : AuthConfig) (provided : String)
    → is_valid_key provided (resolved_keys auth) ≡ true
    → (nonempty auth.api_key ≡ true) × (provided ≡ or_else auth.api_key "")
unfolding resolved_keys is_valid_key
valid_key auth provided h = elim (Bool-cases (nonempty auth.api_key)) [
  | inr q ↦ (let no_key : false ≡ true = rw q at h in absurd (ground arith))
  | inl q ↦
      (let same : provided == or_else auth.api_key "" ≡ true = ground (arith, q, h) in
        (q, (eq_iff provided (or_else auth.api_key "")).0 same))
]

-- Where the guard let the gateway start on a host that is public, a request that is passed on is to
-- a public path, or it provides the configured key, and that is not empty.
pub dispatch_protected :
    (is_public : String → Bool) (settings : StartupSettings) (cli_host : Option String)
    (request : Request)
    → enforce_bind_guard is_public settings cli_host ≡ true
    → is_public (bound_host settings cli_host) ≡ true
    → dispatch settings.auth request ≡ true
    → (is_public_path request.path ≡ true)
      ⊎ ((nonempty (some (provided_key request)) ≡ true)
          × (nonempty settings.auth.api_key ≡ true)
          × (provided_key request ≡ or_else settings.auth.api_key ""))
unfolding enforce_bind_guard dispatch
dispatch_protected is_public settings cli_host request guarded public passed =
    elim (Bool-cases (is_public_path request.path)) [
      | inl q ↦ inl q
      | inr q ↦
          let enabled : settings.auth.enabled ≡ true = ground (arith, guarded, public) in
          let named : nonempty (some (provided_key request)) ≡ true =
            ground (arith, enabled, q, passed) in
          let valid : is_valid_key (provided_key request) (resolved_keys settings.auth) ≡ true =
            ground (arith, enabled, q, passed) in
          let key = valid_key settings.auth (provided_key request) valid in
          inr (named, key.0, key.1)
    ]
