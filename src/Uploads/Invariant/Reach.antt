-- ===== src/Uploads/Invariant/Reach.antt =====
-- Every sequence of the operations on the upload tables and the artifact directory, from the empty
-- store on.
use cloudpanel_gateway.Base.{lookup, ℕ, String, ◌≡◌, Option, none, List, [], Bytes, ok}
use cloudpanel_gateway.Zip.{Entry}
use cloudpanel_gateway.Uploads.{Store, Artifact, AppendFaults, append_chunk}
use cloudpanel_gateway.Uploads.Begin.{BeginFaults, begin_upload}
use cloudpanel_gateway.Uploads.Completion.{CompleteFaults, complete_upload}
use cloudpanel_gateway.Uploads.Cleanup.{CleanupFaults, cleanup}
use cloudpanel_gateway.Uploads.Direct.{DirectFaults, upload_artifact}
use cloudpanel_gateway.Uploads.Invariant.{IsSound, Log}
use cloudpanel_gateway.Uploads.Invariant.Steps.{log_begin, log_chunk}
use cloudpanel_gateway.Uploads.Invariant.Operations.{append_chunk-IsSound}
use cloudpanel_gateway.Uploads.Invariant.Beginning.{begin_upload-IsSound}
use cloudpanel_gateway.Uploads.Invariant.Removal.{cleanup-IsSound}
use cloudpanel_gateway.Uploads.Invariant.Completing.{complete_upload-IsSound}
use cloudpanel_gateway.Uploads.Invariant.Sending.{upload_artifact-IsSound}
use cloudpanel_gateway.Uploads.Invariant.Published.{Published, complete_upload-Published}

abbrev pub no_files : Store
no_files = record { uploads = []; artifacts = []; files = λ n. none }

abbrev pub no_log : Log
no_log id = []

pub no_files-IsSound : IsSound no_log no_files
unfolding lookup
no_files-IsSound = record { distinct = tt; at = λ id u h. cc }

module _ (sha256 : Bytes → Bytes) (read_zip : Bytes → Option (List Entry)) where
  -- One call, with what fails in it. An upload's random id is one that no row has.
  pub data Step (log : Log) (s : Store) : Log → Store → Type 0 where
    begin :
        (f : BeginFaults) (cleaned_at now : ℕ) (owner : String) (total : ℕ)
        → ((id : String) → f.id ≡ ok id → lookup id s.uploads ≡ none)
        → Step log s
            (log_begin (begin_upload f cleaned_at now owner total s).0 log)
            (begin_upload f cleaned_at now owner total s).1
    append :
        (f : AppendFaults) (now : ℕ) (owner id : String) (index : ℕ) (chunk : Bytes)
        → Step log s
            (log_chunk id chunk (append_chunk f now owner id index chunk s).0 log)
            (append_chunk f now owner id index chunk s).1
    complete :
        (f : CompleteFaults) (now : ℕ) (owner id : String)
        → Step log s log (complete_upload sha256 read_zip f now owner id s).1
    direct :
        (f : DirectFaults) (now : ℕ) (owner : String) (body : Bytes)
        → Step log s log (upload_artifact sha256 read_zip f now owner body s).1
    clean : (f : CleanupFaults) (now : ℕ) → Step log s log (cleanup f now s).1

  pub data Reach : Log → Store → Type 0 where
    start : Reach no_log no_files
    next : {log log' : Log} {s s' : Store} → Reach log s → Step log s log' s' → Reach log' s'

  Step-IsSound :
      {log : Log} {s : Store} {log' : Log} {s' : Store}
      → Step log s log' s'
      → IsSound log s
      → IsSound log' s'
  Step-IsSound (begin f cleaned_at now owner total fresh) sound =
      begin_upload-IsSound _ _ sound f cleaned_at now owner total fresh
  Step-IsSound (append f now owner id index chunk) sound =
      append_chunk-IsSound _ _ sound f now owner id index chunk
  Step-IsSound (complete f now owner id) sound =
      complete_upload-IsSound sha256 read_zip _ _ sound f now owner id
  Step-IsSound (direct f now owner body) sound =
      upload_artifact-IsSound sha256 read_zip _ _ sound f now owner body
  Step-IsSound (clean f now) sound = cleanup-IsSound _ _ sound f now

  -- After every sequence of calls that begin, fill and complete uploads, send artifacts in one piece
  -- and clean up, whatever fails in them, the store is sound, if each upload's id is fresh when it is
  -- drawn.
  pub Reach-IsSound : {log : Log} {s : Store} → Reach log s → IsSound log s
  Reach-IsSound start = no_files-IsSound
  Reach-IsSound (next before step) = Step-IsSound step (Reach-IsSound before)

  -- If an upload is completed without an error after any sequence of calls that begin, fill and
  -- complete uploads, send artifacts in one piece and clean up, whatever failed in them and with ids
  -- that were fresh, then what is published is exactly the chunks that were accepted for it since it
  -- was begun, in order, with their hash and size, for the caller, who owned the upload.
  pub Reach-Published :
      {log : Log} {s : Store}
      → Reach log s
      → (f : CompleteFaults) (now : ℕ) (owner id : String) (a : Artifact) (s' : Store)
      → complete_upload sha256 read_zip f now owner id s ≡ (ok a, s')
      → Published sha256 (log id) owner id a s s'
  Reach-Published before f now owner id a s' h =
      complete_upload-Published sha256 read_zip _ _ (Reach-IsSound before) f now owner id a s' h
