-- ===== src/Base/Text.antt =====
-- Texts as keys: equality of texts is symmetric, and decides.
use Prim.Native.String.{◌++◌}
use Prim.Native.String.{String}
use mathlib.Core.Path.{◌≡◌, sym, ◌∙◌}
use mathlib.Core.Logic.{inl, inr}
use mathlib.Core.Bool.{true≢false}
use text.Mathlib.Text.{◌==◌}
use text.Mathlib.TextEquality.{eq_iff}
use text.Mathlib.TextPositions.{eq_refl}
use mineru_gateway.Base.Tests.{Bool-cases}

pub ==_comm : (a b : String) → (a == b) ≡ (b == a)
==_comm a b = elim (Bool-cases (a == b)) [
  | inl e ↦ rw ((eq_iff a b).0 e)
  | inr e ↦ elim (Bool-cases (b == a)) [
    | inl f ↦ absurd (true≢false (sym (eq_refl a) ∙ (rw ((eq_iff b a).0 f) at e)))
    | inr f ↦ e ∙ sym f
  ]
]

-- Texts are joined under a name of their own where lists are joined too.
abbrev pub append_text : String → String → String
append_text s t = s ++ t
