-- ===== src/Admission/Laws.antt =====
-- What a bounded read of a file yields.
use mineru_gateway.Base.{
  ℕ, ◌+◌, ◌≤◌, ◌<◌, ◌≡◌, ◌⊎◌, inl, inr, refl, true, false, List, [], ◌∷◌, ltb, arith, Bool-cases,
}
use mineru_gateway.Base.Table.{length}
use mineru_gateway.Config.{GatewaySettings}
use mineru_gateway.Admission.{
  max_file_size_hard_bytes, effective_file_size_limit, enforce_byte_limit, iter_bounded,
}

-- The number of bytes of all chunks.
abbrev pub total_length : List (List ℕ) → ℕ
total_length [] = 0
total_length (chunk ∷ chunks) = length chunk + total_length chunks

-- The limit never exceeds the hard limit, and is at most the soft limit where one is set.
pub effective_file_size_limit_bounds :
    (cfg : GatewaySettings)
    → (effective_file_size_limit cfg ≤ max_file_size_hard_bytes)
      × ((cfg.max_file_size_bytes ≡ 0) ⊎ (effective_file_size_limit cfg ≤ cfg.max_file_size_bytes))
unfolding effective_file_size_limit
effective_file_size_limit_bounds cfg = (ground arith, ground arith)

-- From a count within the limit, a file that stays within it is read whole, chunk by chunk. A file
-- that does not is refused, and the chunks yielded before that stay within the limit.
pub iter_bounded_yields :
    (cfg : GatewaySettings) (total : ℕ) (chunks : List (List ℕ))
    → total ≤ effective_file_size_limit cfg
    → ((total + total_length chunks ≤ effective_file_size_limit cfg)
        × (iter_bounded cfg total chunks ≡ (chunks, true)))
      ⊎ ((effective_file_size_limit cfg < total + total_length chunks)
          × ((iter_bounded cfg total chunks).1 ≡ false)
          × (total + total_length (iter_bounded cfg total chunks).0
              ≤ effective_file_size_limit cfg))
unfolding iter_bounded enforce_byte_limit
iter_bounded_yields cfg total [] h = inl (omega (arith, h), refl)
iter_bounded_yields cfg total (chunk ∷ chunks) h =
    elim (Bool-cases (ltb (effective_file_size_limit cfg) (total + length chunk))) [
      | inl e ↦ rw e (inr (ground arith, refl, omega (arith, h)))
      | inr e ↦ elim (iter_bounded_yields cfg (total + length chunk) chunks (ground arith)) [
        | inl (fits, same) ↦ inl (omega (arith, fits), rw (e, same))
        | inr (over, refused, within) ↦
            inr (omega (arith, over), rw e refused, rw e (omega (arith, within)))
      ]
    ]
