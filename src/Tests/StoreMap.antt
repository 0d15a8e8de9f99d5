-- ===== src/Tests/StoreMap.antt =====
-- An object store that is a map.
use mineru_gateway.Base.{
  ◌≡◌, ◌≢◌, refl, String, Option, none, some, ◌==◌, true, arith, Bool-cases, inl, inr,
  if◌then◌else◌, eq_iff, eq_refl, sym, ap, ◌∙◌, or_else,
}
use mineru_gateway.Base.Action.{Answer, returned, raised}
use mineru_gateway.Payload.{Bytes}
use mineru_gateway.Cache.Entries.{CacheState}
use mineru_gateway.Objects.{Failure, key_error, StorageProvider, IsKeyed}
use mineru_gateway.Tests.Data.{claimed_db}

abbrev pub Objects : Type 0
Objects = String → Option Bytes

abbrev holding : (key : String) → Option Bytes → Objects → Objects
holding key o s k = if key == k then o else s k

abbrev read_object : Option Bytes → Answer Failure Bytes
read_object none = raised key_error
read_object (some body) = returned body

abbrev copied : String → Objects → Option Bytes → Option Objects
copied dest s none = none
copied dest s (some body) = some (holding dest (some body) s)

abbrev pub object_map : StorageProvider Objects
object_map = record {
  objects = record {
    copy = λ src dest s. copied dest s (s src);
    delete = λ key s. (true, holding key none s);
  };
  put = λ key body s. (returned tt, holding key (some body) s);
  get = λ key s. (read_object (s key), s);
}

other_key :
    (key other : String) (o : Option Bytes) (s : Objects)
    → key ≢ other
    → holding other o s key ≡ s key
other_key key other o s apart = elim (Bool-cases (other == key)) [
  | inl q ↦ absurd (apart (sym ((eq_iff other key).0 q)))
  | inr q ↦ rw q refl
]

copied_key :
    (key dest : String) (o : Option Bytes) (s t : Objects)
    → copied dest s o ≡ some t
    → key ≢ dest
    → t key ≡ s key
copied_key key dest none s t e apart = absurd (ground arith)
copied_key key dest (some body) s t e apart =
    ap (λ o. or_else o s key) (sym e) ∙ other_key key dest (some body) s apart

copied_body :
    (dest : String) (o : Option Bytes) (s t : Objects)
    → copied dest s o ≡ some t
    → (body : Bytes) × (read_object o ≡ returned body) × (read_object (t dest) ≡ returned body)
copied_body dest none s t e = absurd (ground arith)
copied_body dest (some body) s t e =
    let filled : holding dest (some body) s dest ≡ some body = rw (eq_refl dest) refl in
    (body, refl, ap (λ o. read_object (or_else o s dest)) (sym e) ∙ ap read_object filled)

pub object_map-IsKeyed : IsKeyed object_map
object_map-IsKeyed = record {
  put_get = λ key body s t e.
      (let filled : read_object (holding key (some body) s key) ≡ returned body =
          rw (eq_refl key) refl in
        ap (λ r. read_object (r.1 key)) (sym e) ∙ filled);
  copy_get = λ src dest key s t e apart. ap read_object (copied_key key dest (s src) s t e apart);
  copy_copied = λ src dest s t e. copied_body dest (s src) s t e;
  delete_get = λ key other s apart. ap read_object (other_key key other none s apart);
  delete_gone = λ key s done.
      (let missing : read_object (holding key none s key) ≡ raised key_error =
          rw (eq_refl key) refl in
        missing);
}

abbrev pub before_storing : CacheState Objects
before_storing = record { db = claimed_db; objects = λ k. none }
