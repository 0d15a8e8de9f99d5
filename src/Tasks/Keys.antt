-- ===== src/Tasks/Keys.antt =====
-- Keys of objects of different kinds never collide.
use mineru_gateway.Base.{
  ℕ, ◌≡◌, ◌≢◌, inl, inr, refl, ap, ◌∙◌, true, false, String, some, arith, nonempty, Bool-cases,
}
use Prim.Native.String.{◌++◌}
use Prim.Native.String.append
use mineru_gateway.UploadPaths.{starts_with_char}
use mineru_gateway.Tasks.Storage.{payload_key, result_key, cache_object_key, result_format_zip}

-- The first letter of a text that is not empty stays when more is appended.
starts-append :
    (k : ℕ) (s t : String)
    → nonempty (some s) ≡ true
    → starts_with_char k (s ++ t) ≡ starts_with_char k s
starts-append k String.[] t h = absurd (ground arith)
starts-append k (String.◌∷◌ c s) t h = ap (starts_with_char k) (λ i. append.cons c s t i)

nonempty-append : (s t : String) → nonempty (some s) ≡ true → nonempty (some (s ++ t)) ≡ true
nonempty-append String.[] t h = absurd (ground arith)
nonempty-append (String.◌∷◌ c s) t h = ap (λ x. nonempty (some x)) (λ i. append.cons c s t i)

-- A result and a cached object never have the same key: the first letter differs.
cache_object_key-first :
    (cache_key generation : String)
    → starts_with_char 114 (cache_object_key cache_key generation) ≡ false
unfolding cache_object_key
cache_object_key-first cache_key generation =
    let base = starts-append 114 "cache" ("/" ++ cache_key) refl in
    let longer =
      starts-append 114 ("cache" ++ "/" ++ cache_key) ("/" ++ generation)
        (nonempty-append "cache" ("/" ++ cache_key) refl) in
    elim (Bool-cases (nonempty (some generation))) [
      | inl q ↦ rw (q) (longer ∙ base)
      | inr q ↦ rw (q) base
    ]

result_key-first :
    (task_id : String) → starts_with_char 114 (result_key task_id result_format_zip) ≡ true
unfolding result_key
result_key-first task_id = starts-append 114 "results" ("/" ++ task_id ++ ".zip") refl

pub result_key-ne-cache_object_key :
    (task_id cache_key generation : String)
    → result_key task_id result_format_zip ≢ cache_object_key cache_key generation
result_key-ne-cache_object_key task_id cache_key generation e =
    let first = result_key-first task_id in
    let other = cache_object_key-first cache_key generation in
    let same = ap (starts_with_char 114) e in cc

pub result_key_nonempty :
    (task_id : String) → nonempty (some (result_key task_id result_format_zip)) ≡ true
unfolding result_key
result_key_nonempty task_id = nonempty-append "results" ("/" ++ task_id ++ ".zip") refl

pub payload_key_nonempty : (task_id : String) → nonempty (some (payload_key task_id)) ≡ true
unfolding payload_key
payload_key_nonempty task_id = nonempty-append "payloads" ("/" ++ task_id ++ ".bin") refl
