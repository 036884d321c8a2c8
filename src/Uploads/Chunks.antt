-- ===== src/Uploads/Chunks.antt =====
-- One chunk: when it is accepted, and what it changes.
use cloudpanel_gateway.Base.{
  lookup, upsert, ℕ, ◌+◌, ◌≤◌, ◌<◌, String, ◌≡◌, inl, inr, some, ◌++◌, arith, eq_iff, Option-cases,
  from_rfc3339, Bytes, length, ok,
}
use cloudpanel_gateway.Uploads.{
  Upload, Store, append_chunk, append_row, append_stat, append_file, AppendFaults,
  max_artifact_chunk, max_zip_compressed, put_file,
}

-- What an accepted chunk requires of the store, and what it makes of it.
pub record Accepted (now : ℕ) (owner id : String) (index : ℕ) (chunk : Bytes) (s s' : Store)
    (u : Upload) : Type 0 where
  pub row : Upload
  pub found : lookup id s.uploads ≡ some row
  pub content : Bytes
  pub file : s.files row.path ≡ some content
  pub size : length content ≡ row.size
  pub owned : row.owner_token_id ≡ owner
  pub live : now ≤ from_rfc3339 row.expires_at
  pub in_order : index ≡ row.next_chunk
  pub in_range : index < row.total_chunks
  pub chunk_size : (0 < length chunk) × (length chunk ≤ max_artifact_chunk)
  pub fits : row.size + length chunk ≤ max_zip_compressed
  pub updated : u ≡ record row { size = row.size + length chunk; next_chunk = row.next_chunk + 1 }
  pub stored : s' ≡ record s {
    files = put_file row.path (some (content ++ chunk)) s.files;
    uploads = upsert row.id u s.uploads;
  }

module _ (f : AppendFaults) (now : ℕ) (owner : String) (index : ℕ) (chunk : Bytes) (s s' : Store)
    (u : Upload) where
  file_cases :
      (id : String) (row : Upload) (content : Bytes)
      → lookup id s.uploads ≡ some row
      → s.files row.path ≡ some content
      → (length content ≡ row.size)
        × (row.owner_token_id ≡ owner)
        × (now ≤ from_rfc3339 row.expires_at)
        × (index ≡ row.next_chunk)
        × (index < row.total_chunks)
        × (0 < length chunk)
        × (length chunk ≤ max_artifact_chunk)
        × (row.size + length chunk ≤ max_zip_compressed)
      → append_file f chunk row content s ≡ (ok u, s')
      → Accepted now owner id index chunk s s' u
  unfolding append_file
  file_cases id row content found file (a, b, c, d, e, g, h, i) done = record {
    row = row;
    found = found;
    content = content;
    file = file;
    size = a;
    owned = b;
    live = c;
    in_order = d;
    in_range = e;
    chunk_size = (g, h);
    fits = i;
    updated = ground arith;
    stored = ground arith;
  }

-- `appendArtifactChunk` accepts a chunk only of 1 byte to 1 MiB, only for an upload of the caller's
-- token that has not expired, only with the next index, only if the part file has the recorded
-- size, and only up to 100 MiB in all. It then appends the chunk to the part file, advances the row
-- by one chunk and by the chunk's size, and changes nothing else.
pub append_chunk-Accepted :
    (f : AppendFaults) (now : ℕ) (owner id : String) (index : ℕ) (chunk : Bytes) (s s' : Store)
    (u : Upload)
    → append_chunk f now owner id index chunk s ≡ (ok u, s')
    → Accepted now owner id index chunk s s' u
unfolding append_chunk append_row append_stat
append_chunk-Accepted f now owner id index chunk s s' u h =
    elim (Option-cases (lookup id s.uploads)) [
      | inl missing ↦ ground arith
      | inr (row, found) ↦ elim (Option-cases (s.files row.path)) [
        | inl gone ↦ ground arith
        | inr (content, file) ↦
            file_cases f now owner index chunk s s' u id row content found file
              (ground (arith, eq_iff row.owner_token_id owner)) (ground arith)
      ]
    ]
