-- ===== src/Uploads/Tests.antt =====
-- A run of the upload operations: an upload of one chunk is begun, filled and completed.
use cloudpanel_gateway.Zip.{Entry}
unfoldable use cloudpanel_gateway.Zip.{validate_artifact_zip}
unfoldable use cloudpanel_gateway.Paths.{clean, is_abs, clean_parts}
use cloudpanel_gateway.Uploads.{Upload, Store, AppendFaults, artifact}
use cloudpanel_gateway.Uploads.Begin.{BeginFaults, new_upload}
unfoldable use cloudpanel_gateway.Uploads.Begin.{
  begin_upload, begin_id, begin_with, begin_put, put_upload,
}
use cloudpanel_gateway.Uploads.Cleanup.{CleanupFaults}
unfoldable use cloudpanel_gateway.Uploads.Cleanup.{cleanup, clean_uploads, remove_due, keep_live}
unfoldable use cloudpanel_gateway.Uploads.{append_chunk, append_row, append_stat, append_file}
use cloudpanel_gateway.Uploads.Completion.{CompleteFaults, new_artifact}
unfoldable use cloudpanel_gateway.Uploads.Completion.{
  put_artifact, publish_put, publish, complete_file, complete_row, complete_upload,
}
use cloudpanel_gateway.Uploads.Chunks.{Accepted, append_chunk-Accepted}
use cloudpanel_gateway.Uploads.Invariant.{Log, IsSound}
use cloudpanel_gateway.Uploads.Invariant.Reach.{
  no_files, no_log, no_files-IsSound, begin, append, Reach, start, next, Reach-IsSound,
  Reach-Published,
}
use cloudpanel_gateway.Uploads.Direct.{DirectFaults}
unfoldable use cloudpanel_gateway.Uploads.Direct.{
  upload_artifact, direct_copied, direct_checked, direct_put,
}
use cloudpanel_gateway.Uploads.Invariant.Steps.{log_begin, log_chunk}
use cloudpanel_gateway.Uploads.Invariant.Operations.{append_chunk-IsSound}
use cloudpanel_gateway.Uploads.Invariant.Beginning.{begin_upload-IsSound}
use cloudpanel_gateway.Uploads.Invariant.Published.{Published, complete_upload-Published}
use cloudpanel_gateway.Base.{
  lookup, upsert, delete, ◌≡◌, refl, true, false, Option, none, some, List, [], ◌∷◌, Bytes, codes,
  ok,
}

abbrev clean_works : CleanupFaults
clean_works = record {
  query_artifacts = none;
  delete_artifacts = none;
  query_uploads = none;
  delete_uploads = none;
}

abbrev begin_works : BeginFaults
begin_works = record {
  make_dir = none;
  clean = clean_works;
  id = ok "u";
  open_file = none;
  close = none;
  put = none;
}

abbrev append_works : AppendFaults
append_works = record { open_file = none; write = none; close = none; advance = none }

abbrev complete_works : CompleteFaults
complete_works = record {
  read_archive = none;
  read_file = none;
  id = ok "a";
  rename = none;
  put = none;
  rename_back = none;
  delete_row = none;
}

abbrev begun : Store
begun = (begin_upload begin_works 4 5 "owner" 1 no_files).1

abbrev begun_log : Log
begun_log = log_begin (begin_upload begin_works 4 5 "owner" 1 no_files).0 no_log

begin_upload-IsSound_example : IsSound begun_log begun
unfolding lookup
begin_upload-IsSound_example =
    begin_upload-IsSound no_log no_files no_files-IsSound begin_works 4 5 "owner" 1 (λ id e. refl)

abbrev zip_bytes : Bytes
zip_bytes = b'P' ∷ b'K' ∷ 3 ∷ 4 ∷ []

abbrev filled : Store
filled = (append_chunk append_works 6 "owner" "u" 0 zip_bytes begun).1

abbrev filled_log : Log
filled_log =
    log_chunk "u" zip_bytes (append_chunk append_works 6 "owner" "u" 0 zip_bytes begun).0 begun_log

begun-IsSound : IsSound begun_log begun
unfolding lookup
begun-IsSound =
    begin_upload-IsSound no_log no_files no_files-IsSound begin_works 4 5 "owner" 1 (λ id e. refl)

append_chunk-IsSound_example : IsSound filled_log filled
append_chunk-IsSound_example =
    append_chunk-IsSound begun_log begun begun-IsSound append_works 6 "owner" "u" 0 zip_bytes

filled-IsSound : IsSound filled_log filled
filled-IsSound =
    append_chunk-IsSound begun_log begun begun-IsSound append_works 6 "owner" "u" 0 zip_bytes

abbrev filled_upload : Upload
filled_upload = record (new_upload 5 "owner" 1 "u") { size = 4; next_chunk = 1 }

append_chunk-Accepted_example : Accepted 6 "owner" "u" 0 zip_bytes begun filled filled_upload
unfolding append_chunk append_row append_stat append_file begin_upload begin_id begin_with begin_put
    cleanup clean_uploads remove_due keep_live put_upload lookup upsert
append_chunk-Accepted_example =
    append_chunk-Accepted append_works 6 "owner" "u" 0 zip_bytes begun filled filled_upload refl

abbrev one_entry : Bytes → Option (List Entry)
one_entry content = some (
    record {
      name = codes "index.html";
      symlink = false;
      directory = false;
      regular = true;
      uncompressed = 1;
      compressed = 1;
    }
    ∷ [])

abbrev same_bytes : Bytes → Bytes
same_bytes b = b

abbrev completed : Store
completed = (complete_upload same_bytes one_entry complete_works 7 "owner" "u" filled).1

complete_upload-Published_example :
    Published same_bytes
      (filled_log "u")
      "owner"
      "u"
      (new_artifact same_bytes one_entry 7 "a" zip_bytes filled_upload)
      filled
      completed
unfolding complete_upload complete_row complete_file publish publish_put put_artifact append_chunk
    append_row append_stat append_file begin_upload begin_id begin_with begin_put cleanup
    clean_uploads remove_due keep_live put_upload lookup upsert delete validate_artifact_zip clean
    is_abs clean_parts
complete_upload-Published_example =
    complete_upload-Published same_bytes one_entry filled_log filled filled-IsSound complete_works 7
      "owner" "u" (new_artifact same_bytes one_entry 7 "a" zip_bytes filled_upload) completed refl

abbrev filled_Reach : Reach same_bytes one_entry filled_log filled
unfolding lookup
filled_Reach =
    next (next start (begin begin_works 4 5 "owner" 1 (λ id e. refl)))
      (append append_works 6 "owner" "u" 0 zip_bytes)

Reach-IsSound_example : IsSound filled_log filled
Reach-IsSound_example = Reach-IsSound same_bytes one_entry filled_Reach

Reach-Published_example :
    Published same_bytes
      (filled_log "u")
      "owner"
      "u"
      (new_artifact same_bytes one_entry 7 "a" zip_bytes filled_upload)
      filled
      completed
unfolding complete_upload complete_row complete_file publish publish_put put_artifact append_chunk
    append_row append_stat append_file begin_upload begin_id begin_with begin_put cleanup
    clean_uploads remove_due keep_live put_upload lookup upsert delete validate_artifact_zip clean
    is_abs clean_parts
Reach-Published_example =
    Reach-Published same_bytes one_entry filled_Reach complete_works 7 "owner" "u"
      (new_artifact same_bytes one_entry 7 "a" zip_bytes filled_upload) completed refl

abbrev direct_works : DirectFaults
direct_works = record {
  make_dir = none;
  id = ok "b";
  open_file = none;
  copy = none;
  close = none;
  remove = none;
  probe = none;
  read_probe = none;
  read_archive = none;
  put = none;
  clean = clean_works;
}

-- Sent in one piece: accepted with its file, or refused for its first bytes and taken away.
direct_tests :
    ((upload_artifact same_bytes one_entry direct_works 7 "owner" zip_bytes no_files).0 ≡ none)
    × ((upload_artifact same_bytes one_entry direct_works 7 "owner" zip_bytes no_files).1.files
          (artifact "b")
        ≡ some zip_bytes)
    × ((upload_artifact same_bytes one_entry direct_works 7 "owner" (0 ∷ zip_bytes) no_files).0
        ≡ some (400, "artifact must be a ZIP archive"))
    × ((upload_artifact same_bytes one_entry direct_works 7 "owner"
            (0 ∷ zip_bytes)
            no_files).1.files
          (artifact "b")
        ≡ none)
unfolding upload_artifact direct_copied direct_checked direct_put put_artifact cleanup clean_uploads
    remove_due keep_live lookup upsert validate_artifact_zip clean is_abs clean_parts
direct_tests = (refl, refl, refl, refl)
