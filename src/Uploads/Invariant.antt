-- ===== src/Uploads/Invariant.antt =====
-- What the rows and the part files of the uploads hold between two operations, against the bytes of
-- the chunks that were accepted.
pub mod Steps
pub mod Operations
pub mod Beginning
pub mod Removal
pub mod Completing
pub mod Sending
pub mod Published
pub mod Reach
use cloudpanel_gateway.Base.{
  IsDistinct, lookup, ◌≤◌, ◌<◌, String, ◌≡◌, ◌≢◌, ◌⊎◌, Option, none, some, str_eq, if◌then◌else◌,
  Bytes, length,
}
use cloudpanel_gateway.Uploads.{Upload, Store, part, max_zip_compressed}

-- The bytes of the chunks that were accepted for each upload: not part of the program's state.
abbrev pub Log : Type 0
Log = String → Bytes

abbrev pub log_set : String → Bytes → Log → Log
log_set id bytes log other = if str_eq id other then bytes else log other

-- A part file holds the accepted bytes; or, after a failed write, it has another length than the row
-- says while chunks are still to come; or it is gone.
abbrev pub FileOk : Bytes → Upload → Option Bytes → Type 0
FileOk accepted u none = Unit
FileOk accepted u (some content) =
    (content ≡ accepted) ⊎ ((length content ≢ u.size) × (u.next_chunk < u.total_chunks))

pub record UploadOk (accepted : Bytes) (id : String) (u : Upload) (file : Option Bytes)
    : Type 0 where
  pub named : u.id ≡ id
  pub at_part : u.path ≡ part id
  pub counted : length accepted ≡ u.size
  pub in_range : u.next_chunk ≤ u.total_chunks
  pub bounded : u.size ≤ max_zip_compressed
  pub on_disk : FileOk accepted u file

pub record IsSound (log : Log) (s : Store) : Type 0 where
  pub distinct : IsDistinct s.uploads
  pub at :
      (id : String) (u : Upload)
      → lookup id s.uploads ≡ some u
      → UploadOk (log id) id u (s.files (part id))
