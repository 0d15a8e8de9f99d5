-- ===== src/Base/Action.antt =====
-- Stateful code that may raise: a state, and an answer or an exception. What was written before an
-- exception stays written.
use mathlib.Core.Path.{◌≡◌, refl}
use mathlib.Core.Bool.{Bool, true, false}
use mathlib.Core.List.{List, [], ◌∷◌}
use mineru_gateway.Base.Table.{All}
use mineru_gateway.Base.Tests.{if◌then◌else◌}

pub data Answer (E A : Type 0) : Type 0 where
  returned : A → Answer E A
  raised : E → Answer E A

abbrev pub Action : (E W A : Type 0) → Type 0
Action E W A = W → Answer E A × W

module _ {E W A : Type 0} where
  unfoldable pub pure : A → Action E W A
  pure a w = (returned a, w)

  unfoldable pub raise : E → Action E W A
  raise e w = (raised e, w)

  unfoldable pub gets : (W → A) → Action E W A
  gets f w = (returned (f w), w)

  -- `try … except`
  abbrev pub rescue : (E → Action E W A) → Answer E A × W → Answer E A × W
  rescue handler (returned a, w) = (returned a, w)
  rescue handler (raised e, w) = handler e w

  unfoldable pub try_except : Action E W A → (E → Action E W A) → Action E W A
  try_except m handler w = rescue handler (m w)

unfoldable pub modify : {E W : Type 0} → (W → W) → Action E W (Unit {0})
modify f w = (returned tt, f w)

abbrev pub proceed : {E W A B : Type 0} → (A → Action E W B) → Answer E A × W → Answer E B × W
proceed f (returned a, w) = f a w
proceed f (raised e, w) = (raised e, w)

infixl 5 ◌>>=◌ ◌>>◌
unfoldable pub ◌>>=◌ : {E W A B : Type 0} → Action E W A → (A → Action E W B) → Action E W B
◌>>=◌ m f w = proceed f (m w)

unfoldable pub ◌>>◌ : {E W B : Type 0} → Action E W (Unit {0}) → Action E W B → Action E W B
◌>>◌ m k w = proceed (λ _. k) (m w)

-- `for x in xs: …`
unfoldable pub for_each :
    {E W X : Type 0} → List X → (X → Action E W (Unit {0})) → Action E W (Unit {0})
for_each [] f = pure tt
for_each (x ∷ xs) f = f x >> for_each xs f

-- What an answer says of its value.
abbrev pub Yields : {E A : Type 0} → (A → Type 0) → Answer E A → Type 0
Yields Q (returned a) = Q a
Yields Q (raised e) = Unit

abbrev pub Anything : {A : Type 0} → A → Type 0
Anything a = Unit

-- The action keeps a property of the state, whether it returns or raises, and a value that it
-- returns has the second property.
pub record Keeps {E W A : Type 0} (I : W → Type 0) (Q : A → Type 0) (m : Action E W A)
    : Type 0 where
  pub run : (w : W) → I w → I (m w).1 × Yields Q (m w).0

module _ {E W : Type 0} {I : W → Type 0} where
  pub pure-Keeps : {A : Type 0} (Q : A → Type 0) (a : A) → Q a → Keeps {E = E} {W = W} I Q (pure a)
  unfolding pure
  pure-Keeps Q a q = record { run = λ w h. (h, q) }

  pub raise-Keeps : {A : Type 0} (Q : A → Type 0) (e : E) → Keeps {E = E} {W = W} I Q (raise e)
  unfolding raise
  raise-Keeps Q e = record { run = λ w h. (h, tt) }

  pub gets-Keeps : {A : Type 0} (f : W → A) → Keeps {E = E} {W = W} I Anything (gets f)
  unfolding gets
  gets-Keeps f = record { run = λ w h. (h, tt) }

  pub bind-Keeps :
      {A B : Type 0} {Q : A → Type 0} {R : B → Type 0} {m : Action E W A} {f : A → Action E W B}
      → Keeps I Q m
      → ((a : A) → Q a → Keeps I R (f a))
      → Keeps I R (m >>= f)
  unfolding ◌>>=◌
  bind-Keeps {A} {B} {Q} {R} {m} {f} km kf = record { run = λ w h. go (m w) (km.run w h) }
    where
      go :
          (r : Answer E A × W) → I r.1 × Yields Q r.0 → I (proceed f r).1 × Yields R (proceed f r).0
      go (returned a, w') k = (kf a k.1).run w' k.0
      go (raised e, w') k = (k.0, tt)

  pub then-Keeps :
      {B : Type 0} {R : B → Type 0} {m : Action E W (Unit {0})} {k : Action E W B}
      → Keeps I Anything m
      → Keeps I R k
      → Keeps I R (m >> k)
  unfolding ◌>>◌
  then-Keeps {B} {R} {m} {k} km kk = record { run = λ w h. go (m w) (km.run w h) }
    where
      go :
          (r : Answer E (Unit {0}) × W)
          → I r.1 × Yields Anything r.0
          → I (proceed (λ _. k) r).1 × Yields R (proceed (λ _. k) r).0
      go (returned a, w') h = kk.run w' h.0
      go (raised e, w') h = (h.0, tt)

  pub try_except-Keeps :
      {A : Type 0} {Q : A → Type 0} {m : Action E W A} {handler : E → Action E W A}
      → Keeps I Q m
      → ((e : E) → Keeps I Q (handler e))
      → Keeps I Q (try_except m handler)
  unfolding try_except
  try_except-Keeps {A} {Q} {m} {handler} km kh = record { run = λ w h. go (m w) (km.run w h) }
    where
      go :
          (r : Answer E A × W)
          → I r.1 × Yields Q r.0
          → I (rescue handler r).1 × Yields Q (rescue handler r).0
      go (returned a, w') k = k
      go (raised e, w') k = (kh e).run w' k.0

  pub if-Keeps :
      {A : Type 0} {Q : A → Type 0} (b : Bool) {x y : Action E W A}
      → (b ≡ true → Keeps I Q x)
      → (b ≡ false → Keeps I Q y)
      → Keeps I Q (if b then x else y)
  if-Keeps true kx ky = kx refl
  if-Keeps false kx ky = ky refl

  pub for_each-Keeps :
      {X : Type 0} (P : X → Type 0) (xs : List X) {f : X → Action E W (Unit {0})}
      → All P xs
      → ((x : X) → P x → Keeps I Anything (f x))
      → Keeps I Anything (for_each xs f)
  unfolding for_each
  for_each-Keeps P [] p k = pure-Keeps Anything tt tt
  for_each-Keeps P (x ∷ xs) p k = then-Keeps (k x p.0) (for_each-Keeps P xs p.1 k)
