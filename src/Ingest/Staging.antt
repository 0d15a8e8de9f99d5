-- ===== src/Ingest/Staging.antt =====
-- The staging of documents, of src/mineru_gateway/gateway/ingest.py: multipart forms, and the documents
-- of `/v1/ocr`. The reads of an upload, base64 and the download of a URL are arguments.
use mineru_gateway.Base.{
  ℕ, ◌+◌, ◌-◌, ◌*◌, ◌/◌, ◌%◌, Bool, String, List, [], ◌∷◌, ◌++◌, append_text, Option, none, some,
  ◌==◌, ◌||◌, ◌&&◌, nonempty, or_else, eqb, if◌then◌else◌, map,
}
use Prim.Native.Char.{code}
use mineru_gateway.Base.Table.{length}
use mineru_gateway.Config.{GatewaySettings}
use mineru_gateway.Admission.{enforce_byte_limit}
use mineru_gateway.Payload.{Bytes, StagedUpload, MultipartPayload}
use mineru_gateway.UploadPaths.{Sanitized, safe, unsafe, has_char, sanitize_client_filename}
use mineru_gateway.Guard.{strip_left, strip_right}

-- An item of the form: a file with its name, or the fresh one of a file without, and what its reads
-- return before the empty one; or a field.
pub data FormItem : Type 0 where
  form_file :
      (field_name upload_name : String) (content_type : Option String) (chunks : List Bytes)
      → FormItem
  form_field : (field_name value : String) → FormItem

-- The reading of one file, from a count of bytes on; `none` is the 413.
abbrev pub with_chunk : Bytes → Option (Bytes × ℕ) → Option (Bytes × ℕ)
with_chunk chunk none = none
with_chunk chunk (some (content, total)) = some (chunk ++ content, total)

unfoldable pub read_chunks : GatewaySettings → (total : ℕ) → List Bytes → Option (Bytes × ℕ)
read_chunks cfg total [] = some ([], total)
read_chunks cfg total (chunk ∷ chunks) =
    let rest = read_chunks cfg (total + length chunk) chunks in
    if enforce_byte_limit cfg (total + length chunk) then with_chunk chunk rest else none

abbrev pub add_upload : StagedUpload → MultipartPayload → MultipartPayload
add_upload upload payload = record payload { uploads = upload ∷ payload.uploads }

abbrev pub add_form_field : String → String → MultipartPayload → MultipartPayload
add_form_field name value payload = record payload { fields = (name, value) ∷ payload.fields }

abbrev pub upload_of : (field_name upload_name : String) → Option String → Bytes → StagedUpload
upload_of field_name upload_name content_type content = record {
  field_name = field_name;
  upload_name = upload_name;
  content_type =
      if nonempty content_type then or_else content_type "" else "application/octet-stream";
  content = content;
}

-- After one file was read, the other items.
abbrev pub after_file :
    (Bytes → StagedUpload)
    → (rest : ℕ → Option MultipartPayload) → Option (Bytes × ℕ)
    → Option MultipartPayload
after_file upload rest none = none
after_file upload rest (some (content, total)) = elim (rest total) [
  | none ↦ none
  | some payload ↦ some (add_upload (upload content) payload)
]

abbrev pub after_field : String → String → Option MultipartPayload → Option MultipartPayload
after_field name value none = none
after_field name value (some payload) = some (add_form_field name value payload)

-- `stage_bounded_multipart_request`
unfoldable pub stage_form : GatewaySettings → List FormItem → (total : ℕ) → Option MultipartPayload
stage_form cfg [] total = some (record { fields = []; uploads = [] })
stage_form cfg (form_field name value ∷ items) total =
    after_field name value (stage_form cfg items total)
stage_form cfg (form_file field_name upload_name content_type chunks ∷ items) total =
    after_file (upload_of field_name upload_name content_type) (stage_form cfg items)
      (read_chunks cfg total chunks)

-- `OCRDocument` and `OCRRequest`
pub record OcrDocument : Type 0 where
  pub kind : String
  pub document_url : Option String
  pub image_url : Option String
  pub file : Option String
  pub file_name : Option String

pub record OcrRequest : Type 0 where
  pub document : OcrDocument
  pub language : List String
  pub backend : String
  pub effort : String
  pub parse_method : String

-- A document with its name, no document, the 413 answer, or a URL that the policy refuses.
pub data Extracted : Type 0 where
  extracted : (body : Bytes) (name : String) → Extracted
  no_document : Extracted
  too_large : Extracted
  refused : Extracted

unfoldable pub text_length : String → ℕ
text_length String.[] = 0
text_length (String.◌∷◌ _ s) = text_length s + 1

-- The size that a base64 text is taken for, padding included.
unfoldable pub estimated_size : String → ℕ
estimated_size encoded =
    let padding = (4 - text_length encoded % 4) % 4 in (text_length encoded + padding) * 3 / 4

abbrev pub decoded : GatewaySettings → String → Option Bytes → Extracted
decoded cfg name none = no_document
decoded cfg name (some body) =
    if enforce_byte_limit cfg (length body) then extracted body name else too_large

-- `_decode_inline_file`, of a text that is there.
unfoldable pub decode_inline_file :
    GatewaySettings
    → (b64decode : String → Option Bytes) → (file : String) → Option String
    → Extracted
decode_inline_file cfg b64decode file file_name =
    let encoded = strip_left (strip_right file) in
    if enforce_byte_limit cfg (estimated_size encoded)
    then decoded cfg (if nonempty file_name then or_else file_name "" else "document")
        (b64decode encoded)
    else too_large

-- `url.rsplit("/", 1)[-1]`
unfoldable pub last_segment : String → String
last_segment String.[] = ""
last_segment (String.◌∷◌ c s) =
    let rest = last_segment s in
    if has_char 47 s then rest else (if eqb (code c) 47 then s else String.◌∷◌ c s)

abbrev pub downloaded_body : String → Option (Bytes × ℕ) → Extracted
downloaded_body name none = too_large
downloaded_body name (some (body, total)) = extracted body name

-- `_fetch_document_url`: the chunks of the download, or `none` where it failed.
unfoldable pub fetch_document_url :
    GatewaySettings → (url : String) → Option (List Bytes) → Extracted
fetch_document_url cfg url none = no_document
fetch_document_url cfg url (some chunks) =
    downloaded_body (if nonempty (some (last_segment url)) then last_segment url else "document")
      (read_chunks cfg 0 chunks)

-- The outside of an OCR request: base64, the policy on URLs, and the downloads.
pub record DocumentOutside : Type 0 where
  pub b64decode : String → Option Bytes
  pub is_allowed : (url : String) → Bool
  pub download : (url : String) → Option (List Bytes)

-- `doc.document_url or doc.image_url`, which may be an empty text.
abbrev pub url_of : OcrDocument → Option String
url_of doc = if nonempty doc.document_url then doc.document_url else doc.image_url

abbrev pub fetch_allowed : GatewaySettings → DocumentOutside → Option String → Extracted
fetch_allowed cfg outside none = no_document
fetch_allowed cfg outside (some url) =
    if outside.is_allowed url then fetch_document_url cfg url (outside.download url) else refused

-- `extract_document`
unfoldable pub extract_document : GatewaySettings → DocumentOutside → OcrDocument → Extracted
extract_document cfg outside doc =
    if doc.kind == "file" && nonempty doc.file
    then decode_inline_file cfg outside.b64decode (or_else doc.file "") doc.file_name
    else (if doc.kind == "document_url" || doc.kind == "image_url"
        then fetch_allowed cfg outside (url_of doc)
        else no_document)

-- `build_payload`; `none` is a name that is refused.
abbrev pub languages_of : OcrRequest → List String
languages_of body = elim body.language [ [] ↦ "ch" ∷ [] | ◌∷◌ l ls ↦ l ∷ ls ]

abbrev pub payload_of : OcrRequest → Bytes → Sanitized → Option MultipartPayload
payload_of body file_bytes (unsafe _) = none
payload_of body file_bytes (safe safe_name) = some (record {
  fields =
      ("backend", body.backend)
      ∷ ("effort", body.effort)
      ∷ ("parse_method", body.parse_method)
      ∷ map (λ lang. ("lang_list", lang)) (languages_of body);
  uploads = upload_of "files" safe_name none file_bytes ∷ [];
})

unfoldable pub build_payload :
    (file_bytes : Bytes) (file_name : String) → OcrRequest → Option MultipartPayload
build_payload file_bytes file_name body = payload_of body file_bytes (
    sanitize_client_filename
      (if has_char 46 file_name then file_name else append_text file_name ".pdf"))
