-- ===== src/Payload.antt =====
-- The payload blob: `_pack_payload` of src/mineru_gateway/gateway/ingest.py writes it and
-- `_rebuild_payload` of src/mineru_gateway/scheduler/task_repository.py reads it back. A staged
-- upload holds the bytes of its file in place of the path to it.
pub mod RoundTrip
use mineru_gateway.Base.{
  ℕ, zero, suc, ◌+◌, ◌*◌, ◌/◌, ◌%◌, ◌≡◌, Bool, true, false, String, List, [], ◌∷◌, ◌++◌, Option,
  none, some, ltb, leb, if◌then◌else◌,
}
use mineru_gateway.Base.Table.{length, take, drop}
use mineru_gateway.Admission.{effective_file_size_limit}
use mineru_gateway.Config.{GatewaySettings}
use mineru_gateway.UploadPaths.{Sanitized, safe, unsafe, sanitize_client_filename}

abbrev pub Bytes : Type 0
Bytes = List ℕ

pub record StagedUpload : Type 0 where
  pub field_name : String
  pub upload_name : String
  pub content_type : String
  pub content : Bytes

pub record MultipartPayload : Type 0 where
  pub fields : List (String × String)
  pub uploads : List StagedUpload

-- The JSON header: what it says of each upload.
pub record UploadEntry : Type 0 where
  pub field_name : String
  pub upload_name : String
  pub content_type : String
  pub offset : ℕ
  pub size : ℕ

pub record Header : Type 0 where
  pub fields : List (String × String)
  pub uploads : List UploadEntry

-- Python's `json` on headers, with UTF-8.
pub record HeaderCodec : Type 0 where
  pub dumps : Header → Bytes
  pub loads : Bytes → Option Header

-- `struct.pack("!I", n)`, which raises for more than 32 bits.
unfoldable pub pack_length : ℕ → Option Bytes
pack_length n =
    if ltb n 4294967296
    then some (n / 16777216 ∷ n / 65536 % 256 ∷ n / 256 % 256 ∷ n % 256 ∷ [])
    else none

-- `struct.unpack("!I", blob[:4])` of a blob of at least four bytes, and the bytes behind them.
unfoldable pub unpack_length : Bytes → Option (ℕ × Bytes)
unpack_length (a ∷ b ∷ c ∷ d ∷ rest) = some (a * 16777216 + b * 65536 + c * 256 + d, rest)
unpack_length _ = none

-- The entries of the uploads, laid one behind another from `offset` on.
unfoldable pub entries_from : (offset : ℕ) → List StagedUpload → List UploadEntry
entries_from offset [] = []
entries_from offset (u ∷ uploads) =
    record {
      field_name = u.field_name;
      upload_name = u.upload_name;
      content_type = u.content_type;
      offset = offset;
      size = length u.content;
    }
    ∷ entries_from (offset + length u.content) uploads

unfoldable pub joined : List StagedUpload → Bytes
joined [] = []
joined (u ∷ uploads) = u.content ++ joined uploads

-- `_read_bounded_file` raises 413 for a file over the limit.
unfoldable pub within_limit : GatewaySettings → List StagedUpload → Bool
unfolding effective_file_size_limit
within_limit cfg [] = true
within_limit cfg (u ∷ uploads) =
    if ltb (effective_file_size_limit cfg) (length u.content)
    then false
    else within_limit cfg uploads

abbrev pub header_of : MultipartPayload → Header
header_of p = record { fields = p.fields; uploads = entries_from 0 p.uploads }

-- `data[offset : offset + size]`
unfoldable pub slice : Bytes → (offset size : ℕ) → Bytes
slice file_data offset size = take size (drop offset file_data)

-- The upload of one entry, before those of the entries behind it.
abbrev pub restage :
    Bytes → UploadEntry → Sanitized → Option (List StagedUpload) → Option (List StagedUpload)
restage file_data u (unsafe _) rest = none
restage file_data u (safe safe_name) none = none
restage file_data u (safe safe_name) (some uploads) = some (
    record {
      field_name = u.field_name;
      upload_name = safe_name;
      content_type = u.content_type;
      content = slice file_data u.offset u.size;
    }
    ∷ uploads)

-- The uploads of the header with their bytes; `none` when a name is refused.
unfoldable pub stage_entries : Bytes → List UploadEntry → Option (List StagedUpload)
stage_entries file_data [] = some []
stage_entries file_data (u ∷ entries) =
    restage file_data u (sanitize_client_filename u.upload_name) (stage_entries file_data entries)

-- How reading a blob ends: the payload, `None` for a blob that is too short, or an exception.
pub data Rebuilt : Type 0 where
  rebuilt : MultipartPayload → Rebuilt
  unavailable : Rebuilt
  raised : Rebuilt

abbrev staged_or_raise : List (String × String) → Option (List StagedUpload) → Rebuilt
staged_or_raise fields none = raised
staged_or_raise fields (some uploads) = rebuilt (record { fields = fields; uploads = uploads })

module _ (codec : HeaderCodec) where
  open codec use {dumps, loads}

  -- `none` is an exception: a file over the limit, or a header of 4 GiB.
  unfoldable pub pack_payload : GatewaySettings → MultipartPayload → Option Bytes
  unfolding pack_length entries_from joined within_limit
  pack_payload cfg p =
      let header_bytes = dumps (header_of p) in
      if within_limit cfg p.uploads
      then (elim (pack_length (length header_bytes)) [
        | none ↦ none
        | some header_len ↦ some (header_len ++ (header_bytes ++ joined p.uploads))
      ])
      else none

  abbrev pub rebuild_from : Option Header → Bytes → Rebuilt
  rebuild_from none file_data = raised
  rebuild_from (some header) file_data =
      staged_or_raise header.fields (stage_entries file_data header.uploads)

  abbrev pub rebuild_unpacked : Option (ℕ × Bytes) → Rebuilt
  rebuild_unpacked none = unavailable
  rebuild_unpacked (some (header_len, rest)) =
      rebuild_from (loads (take header_len rest)) (drop header_len rest)

  -- `_rebuild_payload` from the bytes that the store returned.
  unfoldable pub rebuild_blob : Bytes → Rebuilt
  rebuild_blob blob = rebuild_unpacked (unpack_length blob)
