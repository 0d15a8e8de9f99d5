-- ===== src/Admission.antt =====
-- src/mineru_gateway/gateway/admission.py: limits on the size of uploads, and the bounded reads of
-- src/mineru_gateway/util/io.py.
pub mod Laws
use Prim.Native.Nat.{min}
use mineru_gateway.Base.{
  ℕ, ◌+◌, Bool, true, false, List, [], ◌∷◌, Option, none, some, leb, ltb, if◌then◌else◌,
}
use mineru_gateway.Base.Table.{length}
use mineru_gateway.Config.{GatewaySettings}

-- `MAX_FILE_SIZE_HARD_BYTES`
abbrev pub max_file_size_hard_bytes : ℕ
max_file_size_hard_bytes = 1073741824

-- A soft limit of zero or less is no soft limit; the model's settings hold zero for all of these.
unfoldable pub effective_file_size_limit : GatewaySettings → ℕ
effective_file_size_limit cfg =
    if leb cfg.max_file_size_bytes 0
    then max_file_size_hard_bytes
    else min cfg.max_file_size_bytes max_file_size_hard_bytes

-- The header check: `true` passes, `false` is the 413 answer.
unfoldable pub check_file_size : GatewaySettings → Option ℕ → Bool
unfolding effective_file_size_limit
check_file_size cfg none = true
check_file_size cfg (some content_length) =
    if ltb (effective_file_size_limit cfg) content_length then false else true

unfoldable pub enforce_byte_limit : GatewaySettings → ℕ → Bool
unfolding effective_file_size_limit
enforce_byte_limit cfg size = if ltb (effective_file_size_limit cfg) size then false else true

-- `iter_bounded_file` over the chunks that the file's reads return: the chunks that it yields, and
-- whether it came to the end or raised 413.
unfoldable pub iter_bounded : GatewaySettings → (total : ℕ) → List (List ℕ) → List (List ℕ) × Bool
unfolding enforce_byte_limit
iter_bounded cfg total [] = ([], true)
iter_bounded cfg total (chunk ∷ chunks) =
    let (yielded, done) = iter_bounded cfg (total + length chunk) chunks in
    if enforce_byte_limit cfg (total + length chunk) then (chunk ∷ yielded, done) else ([], false)
