-- ===== src/UploadPaths.antt =====
-- src/mineru_gateway/util/upload_paths.py: names of uploads that are safe to use.
pub mod Laws
use Prim.Native.Char.{Char, code}
use Prim.Native.String
use Prim.Native.String.{String, ◌++◌}
use mineru_gateway.Base.{
  ℕ, Bool, true, false, List, [], ◌∷◌, Option, none, some, ◌==◌, ◌&&◌, ◌||◌, not, leb, eqb,
  if◌then◌else◌,
}
use mineru_gateway.Base.Table.{delete_where, count_where}

-- The reasons of `UnsafeUploadNameError`.
pub data UnsafeName : Type 0 where
  blank nul absolute separator traversal empty : UnsafeName

pub data Sanitized : Type 0 where
  safe : String → Sanitized
  unsafe : UnsafeName → Sanitized

-- `chr(c) in s`
unfoldable pub has_char : ℕ → String → Bool
has_char c String.[] = false
has_char c (String.◌∷◌ x s) = eqb (code x) c || has_char c s

-- `str.isspace` of one code point: what `str.strip` removes.
abbrev pub is_space : ℕ → Bool
is_space c =
    (leb 9 c && leb c 13)
    || (leb 28 c && leb c 32)
    || eqb c 133
    || eqb c 160
    || eqb c 5760
    || (leb 8192 c && leb c 8202)
    || eqb c 8232
    || eqb c 8233
    || eqb c 8239
    || eqb c 8287
    || eqb c 12288

-- `not s.strip()`
unfoldable pub is_blank : String → Bool
is_blank String.[] = true
is_blank (String.◌∷◌ x s) = is_space (code x) && is_blank s

abbrev pub starts_with_char : ℕ → String → Bool
starts_with_char c String.[] = false
starts_with_char c (String.◌∷◌ x s) = eqb (code x) c

-- `s.replace("\\", "/")`
unfoldable pub replace_backslash : String → String
replace_backslash String.[] = ""
replace_backslash (String.◌∷◌ x s) =
    if eqb (code x) 92 then "/" ++ replace_backslash s else String.◌∷◌ x (replace_backslash s)

abbrev push_char : Char → List String → List String
push_char x [] = String.◌∷◌ x "" ∷ []
push_char x (part ∷ parts) = String.◌∷◌ x part ∷ parts

-- `s.split("/")`
unfoldable pub split_slash : String → List String
split_slash String.[] = "" ∷ []
split_slash (String.◌∷◌ x s) =
    let parts = split_slash s in if eqb (code x) 47 then "" ∷ parts else push_char x parts

-- `"/".join(parts)`
unfoldable pub join_slash : List String → String
join_slash [] = ""
join_slash (part ∷ []) = part
join_slash (part ∷ more ∷ parts) = part ++ "/" ++ join_slash (more ∷ parts)

-- The checks of `sanitize_client_filename` on the parts between the slashes.
unfoldable pub sanitize_parts : List String → Sanitized
unfolding join_slash count_where
sanitize_parts parts =
    if leb 1 (count_where (λ part. part == "..") parts)
    then unsafe traversal
    else (if join_slash parts == "" then unsafe empty else safe (join_slash parts))

unfoldable pub sanitize_client_filename : String → Sanitized
sanitize_client_filename name =
    if is_blank name
    then unsafe blank
    else (if has_char 0 name
        then unsafe nul
        else (if starts_with_char 47 name
            then unsafe absolute
            else (if has_char 47 name || has_char 92 name
                then unsafe separator
                else sanitize_parts (
                    delete_where (λ part. part == "" || part == ".")
                      (split_slash (replace_backslash name))))))
