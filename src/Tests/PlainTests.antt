-- ===== src/Tests/PlainTests.antt =====
-- Runs of the parts without state: upload names, upstream statuses and payload blobs.
use mineru_gateway.Base.{
  List, arith, false, ℕ, ◌+◌, ◌≤◌, ◌<◌, true, ◌≡◌, ◌≢◌, ◌⊎◌, ◌↔◌, refl, String, [], ◌∷◌, some, none,
  nonempty, or_else,
}
use mineru_gateway.Guard.{
  StartupSettings, Request, enforce_bind_guard, is_public_path, provided_key, is_valid_key,
  resolved_keys, dispatch,
}
use mineru_gateway.Guard.Protected.{dispatch_protected}
use mineru_gateway.Ingest.Staging.{FormItem, form_file, form_field, stage_form}
use mineru_gateway.Ingest.Limits.{form_size, form_payload, stage_form_limits}
use mineru_gateway.Ingest.Staging.{OcrDocument, DocumentOutside, extract_document}
use mineru_gateway.Ingest.Limits.{IsWithin, extract_document-IsWithin}
use mineru_gateway.Admission.{max_file_size_hard_bytes, effective_file_size_limit, iter_bounded}
use mineru_gateway.Admission.Laws.{
  total_length, effective_file_size_limit_bounds, iter_bounded_yields,
}
use mineru_gateway.UploadPaths.{safe, sanitize_client_filename}
use mineru_gateway.UploadPaths.Laws.{IsSafeName, sanitize_client_filename_iff}
use mineru_gateway.Tasks.Status.{TaskStatus, normalize_upstream_status}
use mineru_gateway.Tasks.Status.Laws.{normalize_upstream_status-ne-queued}
use mineru_gateway.Payload.{
  Bytes, pack_payload, rebuild_blob, rebuilt, entries_from, joined, within_limit, pack_length,
}
use mineru_gateway.Payload.RoundTrip.{rebuild-pack_payload}
use mineru_gateway.Tests.Data.{settings}
use mineru_gateway.Tests.Uploads.{one_upload, one_header, one_upload-AllSafe}

abbrev file_name : String
file_name = "a.pdf"

sanitize_client_filename_iff_example :
    (sanitize_client_filename file_name ≡ safe file_name)
    ↔ ((file_name ≡ file_name) × IsSafeName file_name)
sanitize_client_filename_iff_example = sanitize_client_filename_iff file_name file_name

normalize_upstream_status-ne-queued_example :
    (normalize_upstream_status (some "queued") TaskStatus.processing ≢ TaskStatus.queued)
    × ((normalize_upstream_status (some "queued") TaskStatus.processing ≢ TaskStatus.dispatching)
        ⊎ (TaskStatus.processing ≡ TaskStatus.dispatching))
normalize_upstream_status-ne-queued_example =
    normalize_upstream_status-ne-queued (some "queued") TaskStatus.processing refl

abbrev one_blob : Bytes
one_blob = 0 ∷ 0 ∷ 0 ∷ 2 ∷ 123 ∷ 125 ∷ 37 ∷ 80 ∷ []

one_upload_packed : pack_payload one_header settings one_upload ≡ some one_blob
unfolding pack_payload entries_from joined within_limit pack_length
one_upload_packed = refl

rebuild-pack_payload_example : rebuild_blob one_header one_blob ≡ rebuilt one_upload
rebuild-pack_payload_example =
    rebuild-pack_payload one_header settings one_upload one_blob refl one_upload-AllSafe
      one_upload_packed

-- Two chunks within the limit of a thousand bytes.
abbrev two_chunks : List (List ℕ)
two_chunks = (1 ∷ 2 ∷ []) ∷ (3 ∷ []) ∷ []

no_bytes_yet : 0 ≤ effective_file_size_limit settings
no_bytes_yet = omega arith

iter_bounded_yields_example :
    ((0 + total_length two_chunks ≤ effective_file_size_limit settings)
      × (iter_bounded settings 0 two_chunks ≡ (two_chunks, true)))
    ⊎ ((effective_file_size_limit settings < 0 + total_length two_chunks)
        × ((iter_bounded settings 0 two_chunks).1 ≡ false)
        × (0 + total_length (iter_bounded settings 0 two_chunks).0
            ≤ effective_file_size_limit settings))
iter_bounded_yields_example = iter_bounded_yields settings 0 two_chunks no_bytes_yet

effective_file_size_limit_bounds_example :
    (effective_file_size_limit settings ≤ max_file_size_hard_bytes)
    × ((settings.max_file_size_bytes ≡ 0)
        ⊎ (effective_file_size_limit settings ≤ settings.max_file_size_bytes))
effective_file_size_limit_bounds_example = effective_file_size_limit_bounds settings

-- A form with a field and a file of two chunks.
abbrev one_form : List FormItem
one_form =
    form_field "backend" "pipeline"
    ∷ form_file "files" "a.pdf" none ((37 ∷ []) ∷ (80 ∷ []) ∷ [])
    ∷ []

stage_form_limits_example :
    ((form_size one_form ≤ effective_file_size_limit settings)
      × (stage_form settings one_form 0 ≡ some (form_payload one_form)))
    ⊎ ((effective_file_size_limit settings < form_size one_form)
        × (stage_form settings one_form 0 ≡ none))
stage_form_limits_example = stage_form_limits settings one_form

-- An inline document, which base64 decodes to one byte.
abbrev inline : OcrDocument
inline = record {
  kind = "file";
  document_url = none;
  image_url = none;
  file = some "JQ==";
  file_name = some "a.pdf";
}

abbrev no_network : DocumentOutside
no_network = record {
  b64decode = λ text. some (37 ∷ []);
  is_allowed = λ url. false;
  download = λ url. none;
}

extract_document-IsWithin_example : IsWithin settings (extract_document settings no_network inline)
extract_document-IsWithin_example = extract_document-IsWithin settings no_network inline

-- A gateway on all interfaces, with a key.
abbrev guarded : StartupSettings
guarded = record {
  auth = record { enabled = true; api_key = some "key" };
  host = "0.0.0.0";
  deployment_id = "d";
  provider = "aws";
  bucket = some "b";
  cloud_workers_enabled = false;
  launch_template_id = none;
}

abbrev with_key : Request
with_key = record { path = "/tasks"; x_api_key = some "key"; authorization = none }

lets_start : enforce_bind_guard (λ host. true) guarded none ≡ true
unfolding enforce_bind_guard
lets_start = refl

passes : dispatch guarded.auth with_key ≡ true
unfolding dispatch provided_key is_valid_key resolved_keys
passes = refl

dispatch_protected_example :
    (is_public_path with_key.path ≡ true)
    ⊎ ((nonempty (some (provided_key with_key)) ≡ true)
        × (nonempty guarded.auth.api_key ≡ true)
        × (provided_key with_key ≡ or_else guarded.auth.api_key ""))
dispatch_protected_example =
    dispatch_protected (λ host. true) guarded none with_key lets_start refl passes
