-- ===== src/Tests/Uploads.antt =====
-- A payload of one upload, with a codec of its header.
use mineru_gateway.Base.{refl, [], ◌∷◌, some}
use mineru_gateway.UploadPaths.{is_blank, has_char}
use mineru_gateway.Payload.{MultipartPayload, HeaderCodec, header_of}
use mineru_gateway.Payload.RoundTrip.{AllSafe}

abbrev pub one_upload : MultipartPayload
one_upload = record {
  fields = ("backend", "pipeline") ∷ [];
  uploads =
      record {
        field_name = "files";
        upload_name = "a.pdf";
        content_type = "application/pdf";
        content = 37 ∷ 80 ∷ [];
      }
      ∷ [];
}

-- A codec that can hold one header, which it writes as two bytes.
abbrev pub one_header : HeaderCodec
one_header = record { dumps = λ h. 123 ∷ 125 ∷ []; loads = λ bytes. some (header_of one_upload) }

pub one_upload-AllSafe : AllSafe one_upload.uploads
unfolding is_blank has_char
one_upload-AllSafe = (
  record {
    visible = refl;
    no_nul = refl;
    no_slash = refl;
    no_backslash = refl;
    not_here = refl;
    not_parent = refl;
  },
  tt,
)
