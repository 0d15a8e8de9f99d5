-- ===== src/Ingest/Limits.antt =====
-- What the staging of a form accepts.
use mineru_gateway.Base.{
  String, Option, ◌∙◌, ◌==◌, ◌&&◌, ◌||◌, nonempty, or_else, ℕ, ◌+◌, ◌≤◌, ◌<◌, ◌≡◌, ◌⊎◌, inl, inr,
  refl, ap, List, [], ◌∷◌, ◌++◌, none, some, arith, Bool-cases, ltb,
}
use mineru_gateway.Base.Table.Slices.{length-append}
use mineru_gateway.Guard.{strip_left, strip_right}
use mineru_gateway.Ingest.Staging.{
  OcrDocument, DocumentOutside, Extracted, extracted, no_document, too_large, refused, decoded,
  estimated_size, decode_inline_file, downloaded_body, fetch_document_url, fetch_allowed, url_of,
  extract_document,
}
use mineru_gateway.Base.Table.{length}
use mineru_gateway.Config.{GatewaySettings}
use mineru_gateway.Admission.{enforce_byte_limit, effective_file_size_limit}
use mineru_gateway.Admission.Laws.{total_length}
use mineru_gateway.Payload.{Bytes, MultipartPayload}
use mineru_gateway.Ingest.Staging.{
  FormItem, form_file, form_field, read_chunks, add_upload, add_form_field, upload_of, stage_form,
}

-- The bytes of a form, and the payload that it stands for.
abbrev pub form_size : List FormItem → ℕ
form_size [] = 0
form_size (form_field name value ∷ items) = form_size items
form_size (form_file field_name upload_name content_type chunks ∷ items) =
    total_length chunks + form_size items

abbrev pub concat : List Bytes → Bytes
concat [] = []
concat (chunk ∷ chunks) = chunk ++ concat chunks

abbrev pub form_payload : List FormItem → MultipartPayload
form_payload [] = record { fields = []; uploads = [] }
form_payload (form_field name value ∷ items) = add_form_field name value (form_payload items)
form_payload (form_file field_name upload_name content_type chunks ∷ items) =
    add_upload (upload_of field_name upload_name content_type (concat chunks)) (form_payload items)

module _ (cfg : GatewaySettings) where
  abbrev limit : ℕ
  limit = effective_file_size_limit cfg

  read_chunks-cases :
      (total : ℕ) (chunks : List Bytes)
      → total ≤ limit
      → ((total + total_length chunks ≤ limit)
          × (read_chunks cfg total chunks ≡ some (concat chunks, total + total_length chunks)))
        ⊎ ((limit < total + total_length chunks) × (read_chunks cfg total chunks ≡ none))
  unfolding read_chunks enforce_byte_limit
  read_chunks-cases total [] h =
      (let same : total ≡ total + 0 = omega arith in inl (omega arith, ap (λ n. some ([], n)) same))
  read_chunks-cases total (chunk ∷ chunks) h =
      elim (Bool-cases (ltb limit (total + length chunk))) [
        | inl q ↦ inr (ground (arith, q), rw q refl)
        | inr q ↦ elim (read_chunks-cases (total + length chunk) chunks (ground (arith, q))) [
          | inl (le, e) ↦
              let same : total + length chunk + total_length chunks
                  ≡ total + (length chunk + total_length chunks) =
                omega arith in
              inl (omega arith, rw (q, e) (ap (λ n. some (chunk ++ concat chunks, n)) same))
          | inr (lt, e) ↦ inr (omega arith, rw (q, e) refl)
        ]
      ]

  stage_form-cases :
      (items : List FormItem) (total : ℕ)
      → total ≤ limit
      → ((total + form_size items ≤ limit)
          × (stage_form cfg items total ≡ some (form_payload items)))
        ⊎ ((limit < total + form_size items) × (stage_form cfg items total ≡ none))
  unfolding stage_form
  stage_form-cases [] total h = inl (omega arith, refl)
  stage_form-cases (form_field name value ∷ items) total h = elim (stage_form-cases items total h) [
    | inl (le, e) ↦ inl (le, rw e refl)
    | inr (lt, e) ↦ inr (lt, rw e refl)
  ]
  stage_form-cases (form_file field_name upload_name content_type chunks ∷ items) total h =
      elim (read_chunks-cases total chunks h) [
        | inr (lt, e) ↦ inr (omega arith, rw e refl)
        | inl (le, e) ↦ elim (stage_form-cases items (total + total_length chunks) le) [
          | inl (less, f) ↦ inl (omega arith, rw (e, f) refl)
          | inr (more, f) ↦ inr (omega arith, rw (e, f) refl)
        ]
      ]

-- A form whose files together stay within the limit is staged as it is: its fields, and each file
-- with all its bytes, in the order of the form. One whose files do not is refused.
pub stage_form_limits :
    (cfg : GatewaySettings) (items : List FormItem)
    → ((form_size items ≤ effective_file_size_limit cfg)
        × (stage_form cfg items 0 ≡ some (form_payload items)))
      ⊎ ((effective_file_size_limit cfg < form_size items) × (stage_form cfg items 0 ≡ none))
stage_form_limits cfg items = elim (stage_form-cases cfg items 0 (omega arith)) [
  | inl (le, e) ↦ inl (omega arith, e)
  | inr (lt, e) ↦ inr (omega arith, e)
]

length-concat : (chunks : List Bytes) → length (concat chunks) ≡ total_length chunks
length-concat [] = refl
length-concat (chunk ∷ chunks) =
    length-append chunk (concat chunks) ∙ ap (λ n. length chunk + n) (length-concat chunks)

module _ (cfg : GatewaySettings) where
  -- A document that was taken is within the limit.
  abbrev pub IsWithin : Extracted → Type 0
  IsWithin (extracted body name) = length body ≤ effective_file_size_limit cfg
  IsWithin no_document = Unit
  IsWithin too_large = Unit
  IsWithin refused = Unit

  decoded-IsWithin : (name : String) (body : Option Bytes) → IsWithin (decoded cfg name body)
  unfolding enforce_byte_limit
  decoded-IsWithin name none = tt
  decoded-IsWithin name (some body) =
      elim (Bool-cases (ltb (effective_file_size_limit cfg) (length body))) [
        | inl q ↦ rw q tt
        | inr q ↦ rw q (ground (arith, q))
      ]

  downloaded-IsWithin :
      (name : String) (chunks : List Bytes)
      → IsWithin (downloaded_body name (read_chunks cfg 0 chunks))
  downloaded-IsWithin name chunks = elim (read_chunks-cases cfg 0 chunks (omega arith)) [
    | inr (lt, e) ↦ rw e tt
    | inl (le, e) ↦ rw e (omega (arith, length-concat chunks))
  ]

  fetched-IsWithin :
      (url : String) (chunks : Option (List Bytes)) → IsWithin (fetch_document_url cfg url chunks)
  unfolding fetch_document_url
  fetched-IsWithin url none = tt
  fetched-IsWithin url (some chunks) = downloaded-IsWithin _ chunks

  allowed-IsWithin :
      (outside : DocumentOutside) (url : Option String) → IsWithin (fetch_allowed cfg outside url)
  allowed-IsWithin outside none = tt
  allowed-IsWithin outside (some url) = elim (Bool-cases (outside.is_allowed url)) [
    | inl q ↦ rw q (fetched-IsWithin url (outside.download url))
    | inr q ↦ rw q tt
  ]

  decode_inline_file-IsWithin :
      (b64decode : String → Option Bytes) (file : String) (file_name : Option String)
      → IsWithin (decode_inline_file cfg b64decode file file_name)
  unfolding decode_inline_file
  decode_inline_file-IsWithin b64decode file file_name =
      let encoded = strip_left (strip_right file) in
      elim (Bool-cases (enforce_byte_limit cfg (estimated_size encoded))) [
        | inl q ↦ rw q (decoded-IsWithin _ (b64decode encoded))
        | inr q ↦ rw q tt
      ]

-- A document that `/v1/ocr` takes, inline or from a URL, is within the size limit, whatever base64
-- decodes and the download sends.
pub extract_document-IsWithin :
    (cfg : GatewaySettings) (outside : DocumentOutside) (doc : OcrDocument)
    → IsWithin cfg (extract_document cfg outside doc)
unfolding extract_document
extract_document-IsWithin cfg outside doc =
    elim (Bool-cases (doc.kind == "file" && nonempty doc.file)) [
      | inl q ↦
          rw q
            (decode_inline_file-IsWithin cfg outside.b64decode (or_else doc.file "") doc.file_name)
      | inr q ↦ elim (Bool-cases (doc.kind == "document_url" || doc.kind == "image_url")) [
        | inl p ↦ rw (q, p) (allowed-IsWithin cfg outside (url_of doc))
        | inr p ↦ rw (q, p) tt
      ]
    ]
