-- ===== src/Tests/IngestTests.antt =====
-- Runs of the intake of a payload.
use mineru_gateway.Base.{◌≡◌, refl, none, some, false}
use mineru_gateway.Base.Action.{returned, raised}
use mineru_gateway.Base.Table.{find_where}
use mineru_gateway.Objects.{failure}
use mineru_gateway.Queue.Rows.{get_task}
use mineru_gateway.Ingest.{Outside, intake_of, create_task_with_payload, ingest_payload}
use mineru_gateway.Ingest.Queued.{IsQueued, create_task_with_payload-IsQueued}
use mineru_gateway.Ingest.Accepted.{IsAccepted, ingest_payload-IsAccepted}
use mineru_gateway.Tests.Data.{settings, claimed_db}
use mineru_gateway.Tests.StoreMap.{object_map, object_map-IsKeyed, before_storing}
use mineru_gateway.Tests.Uploads.{one_upload, one_header, one_upload-AllSafe}

-- Hashes of one value each.
abbrev outside : Outside
outside = record {
  hashes = record {
    file_digest = λ file. "f";
    records_digest = λ records. "r";
    options_digest = λ options. "o";
    key_digest = λ records options. "k";
  };
  fresh_id = "t2";
  inserted = returned tt;
  placeholder = returned tt;
}

unused_id : get_task "t2" claimed_db ≡ none
unfolding get_task find_where
unused_id = refl

-- The database refuses the insert.
create_task_with_payload-IsQueued_example :
    IsQueued settings one_header object_map "t2"
      (intake_of one_upload "tasks")
      none
      7
      before_storing
      (create_task_with_payload settings one_header "t2"
        (intake_of one_upload "tasks")
        none
        (some object_map)
        (raised (failure "refused"))
        7
        before_storing)
create_task_with_payload-IsQueued_example =
    create_task_with_payload-IsQueued settings one_header object_map "t2"
      (intake_of one_upload "tasks") none 7 before_storing object_map-IsKeyed refl
      one_upload-AllSafe unused_id (raised (failure "refused"))

ingest_payload-IsAccepted_example :
    IsAccepted settings one_header outside 7 object_map one_upload before_storing (
      ingest_payload settings one_header outside 7 one_upload "tasks" false
        (some object_map)
        before_storing)
ingest_payload-IsAccepted_example =
    ingest_payload-IsAccepted settings one_header outside 7 object_map one_upload before_storing
      "tasks" false object_map-IsKeyed refl one_upload-AllSafe unused_id
