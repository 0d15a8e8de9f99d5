-- ===== src/Ocr.antt =====
-- src/mineru_gateway/gateway/api/ocr.py: `/v1/ocr`, from its document to its answer. The pages that
-- `normalize_result` reads from a result are an argument.
use mineru_gateway.Base.{ℕ, Bool, Option, none, some, if◌then◌else◌}
use mineru_gateway.Base.Action.{pure, ◌>>=◌}
use mineru_gateway.Config.{GatewaySettings}
use mineru_gateway.Models.{Task}
use mineru_gateway.Payload.{Bytes, MultipartPayload, HeaderCodec}
use mineru_gateway.Objects.{StorageProvider}
use mineru_gateway.Ingest.{Outside, IngestResult, ingest_payload}
use mineru_gateway.Ingest.Staging.{
  OcrRequest, DocumentOutside, Extracted, extracted, no_document, too_large, refused,
  extract_document, build_payload,
}
use mineru_gateway.Results.{Run}
use mineru_gateway.TaskFlow.{
  TaskAnswer, delivered, poll_task_until_terminal, resolve_sync_result, fetch_result_or_none,
}

-- The answers: pages, the answer of a task that is not delivered, 400 without a document, 413, the
-- refusal of a URL, 503 without a store, 422 for a name, and 404 for a hit whose object is gone.
pub data OcrAnswer (P : Type 0) : Type 0 where
  ocr_pages : P → OcrAnswer P
  task_answer : TaskAnswer → OcrAnswer P
  missing_document document_too_large url_refused store_missing name_refused hit_missing :
      OcrAnswer P

-- `_ocr_response`, of a task that is resolved.
abbrev pub ocr_response : {P : Type 0} (normalize_result : Bytes → P) → TaskAnswer → OcrAnswer P
ocr_response normalize_result (delivered body attachment) = ocr_pages (normalize_result body)
ocr_response normalize_result answer = task_answer answer

abbrev pub ocr_hit : {P : Type 0} (normalize_result : Bytes → P) → Option Bytes → OcrAnswer P
ocr_hit normalize_result none = hit_missing
ocr_hit normalize_result (some body) = ocr_pages (normalize_result body)

module _ {S P : Type 0} (cfg : GatewaySettings) (normalize_result : Bytes → P) (codec : HeaderCodec)
    (document : DocumentOutside) (outside : Outside) (now : ℕ) (rows : ℕ → Option Task) where
  abbrev pub after_ingest : StorageProvider S → IngestResult → Run S (OcrAnswer P)
  after_ingest store r =
      if r.cache_hit
      then (fetch_result_or_none cfg r.task_id store >>= λ fetched.
          pure (ocr_hit normalize_result fetched))
      else (resolve_sync_result cfg r.task_id (poll_task_until_terminal rows) (some store)
          >>= λ answer. pure (ocr_response normalize_result answer))

  abbrev pub ingest_document :
      (skip_cache : Bool) → StorageProvider S → Option MultipartPayload → Run S (OcrAnswer P)
  ingest_document skip_cache store none = pure name_refused
  ingest_document skip_cache store (some payload) =
      ingest_payload cfg codec outside now payload "ocr" skip_cache (some store) >>= λ r.
      after_ingest store r

  abbrev pub with_document :
      OcrRequest
      → (skip_cache : Bool) → Option (StorageProvider S)
      → Extracted
      → Run S (OcrAnswer P)
  with_document body skip_cache store no_document = pure missing_document
  with_document body skip_cache store too_large = pure document_too_large
  with_document body skip_cache store refused = pure url_refused
  with_document body skip_cache none (extracted file_bytes name) = pure store_missing
  with_document body skip_cache (some store) (extracted file_bytes name) =
      ingest_document skip_cache store (build_payload file_bytes name body)

  -- `create_ocr`, of a request that is admitted.
  unfoldable pub create_ocr :
      OcrRequest → (skip_cache : Bool) → Option (StorageProvider S) → Run S (OcrAnswer P)
  create_ocr body skip_cache store =
      with_document body skip_cache store (extract_document cfg document body.document)
