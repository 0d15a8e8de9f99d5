-- ===== src/Base/Tests.antt =====
-- Boolean tests on numbers, options and times, and the conditional.
use Prim.Native.Nat.{ℕ, ◌*◌, compare, Ordering}
use Prim.Native.String.{String}
use mathlib.Core.Path.{◌≡◌, refl}
use mathlib.Core.Logic.{◌⊎◌, inl, inr}
use mathlib.Core.Bool.{Bool, true, false}
use mathlib.Core.Option.{Option, none, some}

abbrev pub ltb : ℕ → ℕ → Bool
ltb a b = elim (compare a b) [ Ordering.lt ↦ true | _ ↦ false ]

abbrev pub leb : ℕ → ℕ → Bool
leb a b = elim (compare a b) [ Ordering.gt ↦ false | _ ↦ true ]

abbrev pub eqb : ℕ → ℕ → Bool
eqb a b = elim (compare a b) [ Ordering.eq ↦ true | _ ↦ false ]

infix 1 if◌then◌else◌
abbrev pub if◌then◌else◌ {ℓ} : {A : Type ℓ} → Bool → A → A → A
if true then x else y = x
if false then x else y = y

abbrev pub is_none {ℓ} : {A : Type ℓ} → Option A → Bool
is_none none = true
is_none (some _) = false

abbrev pub is_some {ℓ} : {A : Type ℓ} → Option A → Bool
is_some none = false
is_some (some _) = true

-- Python's truth of an optional text: neither `None` nor empty.
abbrev pub nonempty : Option String → Bool
nonempty none = false
nonempty (some String.[]) = false
nonempty (some (String.◌∷◌ _ _)) = true

-- `a or b` on optional values that are never falsy otherwise, such as times.
abbrev pub or_else {ℓ} : {A : Type ℓ} → Option A → A → A
or_else none d = d
or_else (some a) _ = a

-- Times are microseconds since the epoch; `timedelta(seconds=k)`.
abbrev pub seconds : ℕ → ℕ
seconds k = k * 1000000

abbrev pub days : ℕ → ℕ
days k = seconds (k * 86400)

-- `t IS NOT NULL AND t < limit`, as SQL compares.
abbrev pub before : Option ℕ → ℕ → Bool
before none limit = false
before (some t) limit = ltb t limit

pub Bool-cases : (b : Bool) → (b ≡ true) ⊎ (b ≡ false)
Bool-cases true = inl refl
Bool-cases false = inr refl

pub Option-cases {ℓ} : {A : Type ℓ} (o : Option A) → (o ≡ none) ⊎ ((a : A) × (o ≡ some a))
Option-cases none = inl refl
Option-cases (some a) = inr (a, refl)
