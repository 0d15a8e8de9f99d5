-- ===== src/UploadPaths/Laws.antt =====
-- What `sanitize_client_filename` accepts, and that it changes nothing it accepts.
use Prim.Native.Char.{code}
use Prim.Native.String.{String}
use mathlib.Core.Bool.{true≢false}
use mineru_gateway.Base.{
  ℕ, false, [], ◌∷◌, ◌≡◌, ◌↔◌, refl, ap, inl, inr, arith, Bool-cases, eq_iff, eqb, ◌==◌, ◌||◌,
}
use mineru_gateway.Base.Table.{delete_where}
use mineru_gateway.UploadPaths.{
  safe, sanitize_client_filename, has_char, is_blank, replace_backslash, split_slash,
  starts_with_char, sanitize_parts,
}

replace_backslash_id : (s : String) → has_char 92 s ≡ false → replace_backslash s ≡ s
unfolding has_char replace_backslash
replace_backslash_id String.[] h = refl
replace_backslash_id (String.◌∷◌ x s) h = elim (Bool-cases (eqb (code x) 92)) [
  | inl e ↦ absurd (ground arith)
  | inr e ↦ rw e (ap (String.◌∷◌ x) (replace_backslash_id s (ground arith)))
]

split_slash_single : (s : String) → has_char 47 s ≡ false → split_slash s ≡ s ∷ []
unfolding has_char split_slash
split_slash_single String.[] h = refl
split_slash_single (String.◌∷◌ x s) h = elim (Bool-cases (eqb (code x) 47)) [
  | inl e ↦ absurd (ground arith)
  | inr e ↦ rw (e, split_slash_single s (ground arith))
]

-- What a safe name is: not blank, with no NUL, no separator of either kind, and no name of the
-- directory itself or of its parent.
pub record IsSafeName (s : String) : Type 0 where
  pub visible : is_blank s ≡ false
  pub no_nul : has_char 0 s ≡ false
  pub no_slash : has_char 47 s ≡ false
  pub no_backslash : has_char 92 s ≡ false
  pub not_here : (s == ".") ≡ false
  pub not_parent : (s == "..") ≡ false

-- A name with no separators is its own only part.
single_part :
    (s : String)
    → has_char 47 s ≡ false
    → has_char 92 s ≡ false
    → split_slash (replace_backslash s) ≡ s ∷ []
single_part s h k = rw (replace_backslash_id s k) (split_slash_single s h)

not-starts_with_char : (c : ℕ) (s : String) → has_char c s ≡ false → starts_with_char c s ≡ false
unfolding has_char
not-starts_with_char c String.[] h = refl
not-starts_with_char c (String.◌∷◌ x s) h = ground arith

not-empty_of_visible : (s : String) → is_blank s ≡ false → (s == "") ≡ false
unfolding is_blank
not-empty_of_visible s h = elim (Bool-cases (s == "")) [
  | inl e ↦ absurd (true≢false (rw ((eq_iff s "").0 e) at h))
  | inr e ↦ e
]

sanitize_parts_single :
    (s : String)
    → (s == "") ≡ false
    → (s == ".") ≡ false
    → (s == "..") ≡ false
    → sanitize_parts (delete_where (λ part. part == "" || part == ".") (s ∷ [])) ≡ safe s
unfolding sanitize_parts delete_where
sanitize_parts_single s e h p = simp (e, h, p)

-- A safe name is accepted, as it is.
pub sanitize-of_IsSafeName :
    (name : String) → IsSafeName name → sanitize_client_filename name ≡ safe name
unfolding sanitize_client_filename
sanitize-of_IsSafeName name v =
    rw
      (
        v.visible,
        v.no_nul,
        not-starts_with_char 47 name v.no_slash,
        v.no_slash,
        v.no_backslash,
        single_part name v.no_slash v.no_backslash,
      )
      (sanitize_parts_single name (not-empty_of_visible name v.visible) v.not_here v.not_parent)

sanitize_parts_inv :
    (s : String) {t : String}
    → sanitize_parts (delete_where (λ part. part == "" || part == ".") (s ∷ [])) ≡ safe t
    → (t ≡ s) × ((s == ".") ≡ false) × ((s == "..") ≡ false)
unfolding sanitize_parts delete_where
sanitize_parts_inv s h = elim (Bool-cases (s == "")) [
  | inl e ↦ let k = simp e at h in cc
  | inr e ↦ elim (Bool-cases (s == ".")) [
    | inl f ↦ let k = simp (e, f) at h in cc
    | inr f ↦ elim (Bool-cases (s == "..")) [
      | inl g ↦ let k = simp (e, f, g) at h in cc
      | inr g ↦ let k = simp (e, f, g) at h in (cc, f, g)
    ]
  ]
]

-- The checks that come before the parts, read off an accepted name.
accepted_checks :
    (name : String) {s : String}
    → sanitize_client_filename name ≡ safe s
    → (is_blank name ≡ false)
      × (has_char 0 name ≡ false)
      × (has_char 47 name ≡ false)
      × (has_char 92 name ≡ false)
      × (sanitize_parts (
            delete_where (λ part. part == "" || part == ".") (split_slash (replace_backslash name)))
          ≡ safe s)
unfolding sanitize_client_filename
accepted_checks name h = ground arith

-- A name is accepted exactly where it is safe, and it is then returned as it is: not blank, with
-- no NUL and no separator of either kind, and neither `.` nor `..`.
pub sanitize_client_filename_iff :
    (name s : String) → (sanitize_client_filename name ≡ safe s) ↔ ((s ≡ name) × IsSafeName name)
sanitize_client_filename_iff name s = (forth, back)
  where
    forth : sanitize_client_filename name ≡ safe s → (s ≡ name) × IsSafeName name
    forth h =
        let (visible, no_nul, no_slash, no_backslash, parts) = accepted_checks name h in
        let (same, not_here, not_parent) =
          sanitize_parts_inv name (rw (single_part name no_slash no_backslash) at parts) in
        (
          same,
          record {
            visible = visible;
            no_nul = no_nul;
            no_slash = no_slash;
            no_backslash = no_backslash;
            not_here = not_here;
            not_parent = not_parent;
          },
        )

    back : (s ≡ name) × IsSafeName name → sanitize_client_filename name ≡ safe s
    back (same, v) = rw same (sanitize-of_IsSafeName name v)
