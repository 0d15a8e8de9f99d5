-- ===== src/Payload/RoundTrip.antt =====
-- The scheduler reads back the payload that the gateway packed.
use mathlib.Core.List.{append_assoc}
use mineru_gateway.Base.{
  ℕ, ◌+◌, ◌*◌, ◌≡◌, List, [], ◌∷◌, ◌++◌, some, refl, arith, inl, inr, Bool-cases, Option-cases, ltb,
  ◌/◌, ◌%◌, ap, sym, ◌∙◌, sym, ◌∙◌,
}
use mineru_gateway.Base.Table.{length, All}
use mineru_gateway.Base.Table.Slices.{length-append, take-append, drop-append}
use mineru_gateway.Config.{GatewaySettings}
use mineru_gateway.UploadPaths.Laws.{IsSafeName, sanitize-of_IsSafeName}
use mineru_gateway.Payload.{
  Bytes, StagedUpload, MultipartPayload, HeaderCodec, rebuilt, pack_length, unpack_length,
  entries_from, joined, header_of, slice, stage_entries, pack_payload, rebuild_blob,
  rebuild_unpacked,
}

big_endian :
    (n : ℕ) → n / 16777216 * 16777216 + n / 65536 % 256 * 65536 + n / 256 % 256 * 256 + n % 256 ≡ n
big_endian n = omega arith

-- The length field is read back as it was written, whatever follows it.
pub unpack-pack_length :
    (n : ℕ) {b : Bytes} (rest : Bytes)
    → pack_length n ≡ some b
    → unpack_length (b ++ rest) ≡ some (n, rest)
unfolding pack_length unpack_length
unpack-pack_length n {b} rest h = elim (Bool-cases (ltb n 4294967296)) [
  | inl e ↦
      let same : n / 16777216 ∷ n / 65536 % 256 ∷ n / 256 % 256 ∷ n % 256 ∷ [] ≡ b = ground arith in
      rw (← same) (ap (λ k. some (k, rest)) (big_endian n))
  | inr e ↦ absurd (ground arith)
]

slice-middle :
    (file_data front content back : Bytes)
    → file_data ≡ (front ++ content) ++ back
    → slice file_data (length front) (length content) ≡ content
unfolding slice
slice-middle file_data front content back e =
    rw (e, append_assoc front content back, drop-append front (content ++ back))
      (take-append content back)

abbrev pub AllSafe : List StagedUpload → Type 0
AllSafe = All (λ u. IsSafeName u.upload_name)

-- The entries that lie behind `front` in the file data are staged as the uploads they describe.
stage_entries-entries_from :
    (file_data front : Bytes) (uploads : List StagedUpload)
    → file_data ≡ front ++ joined uploads
    → AllSafe uploads
    → stage_entries file_data (entries_from (length front) uploads) ≡ some uploads
unfolding stage_entries entries_from joined
stage_entries-entries_from file_data front [] e h = refl
stage_entries-entries_from file_data front (u ∷ uploads) e h =
    let split = e ∙ sym (append_assoc front u.content (joined uploads)) in
    let ih = stage_entries-entries_from file_data (front ++ u.content) uploads split h.1 in
    rw (
      sanitize-of_IsSafeName u.upload_name h.0,
      ← length-append front u.content,
      ih,
      slice-middle file_data front u.content (joined uploads) split,
    )

header_blob : (codec : HeaderCodec) (p : MultipartPayload) → Bytes
header_blob codec p = codec.dumps (header_of p) ++ joined p.uploads

rebuild_behind_length :
    (codec : HeaderCodec) (p : MultipartPayload)
    → codec.loads (codec.dumps (header_of p)) ≡ some (header_of p)
    → AllSafe p.uploads
    → rebuild_unpacked codec (some (length (codec.dumps (header_of p)), header_blob codec p))
      ≡ rebuilt p
unfolding header_blob
rebuild_behind_length codec p lossless h = rw (
  take-append (codec.dumps (header_of p)) (joined p.uploads),
  drop-append (codec.dumps (header_of p)) (joined p.uploads),
  lossless,
  stage_entries-entries_from (joined p.uploads) [] p.uploads refl h,
)

-- Whatever the gateway packs, with upload names that its sanitiser accepts and a header that JSON
-- loads as it was dumped, the scheduler rebuilds: the same fields, and the same uploads in the
-- same order, each with its own bytes.
pub rebuild-pack_payload :
    (codec : HeaderCodec) (cfg : GatewaySettings) (p : MultipartPayload) (blob : Bytes)
    → codec.loads (codec.dumps (header_of p)) ≡ some (header_of p)
    → AllSafe p.uploads
    → pack_payload codec cfg p ≡ some blob
    → rebuild_blob codec blob ≡ rebuilt p
unfolding pack_payload rebuild_blob header_blob
rebuild-pack_payload codec cfg p blob lossless h e =
    elim (Option-cases (pack_length (length (codec.dumps (header_of p))))) [
      | inl q ↦ absurd (ground arith)
      | inr (b, q) ↦
          let same : b ++ (codec.dumps (header_of p) ++ joined p.uploads) ≡ blob = ground arith in
          rw
            (
              ← same,
              unpack-pack_length (length (codec.dumps (header_of p))) (header_blob codec p) q,
            )
            (rebuild_behind_length codec p lossless h)
    ]
