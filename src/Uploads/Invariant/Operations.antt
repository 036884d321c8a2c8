-- ===== src/Uploads/Invariant/Operations.antt =====
-- `appendArtifactChunk` against the invariant of the part files.
use cloudpanel_gateway.Uploads.Invariant.Steps.{
  log_chunk, size-accepted, file-IsSound, whole-FileOk, partial-FileOk, row-IsSound,
}
use cloudpanel_gateway.Base.{
  lookup, ℕ, ◌+◌, ◌≤◌, ◌<◌, String, ◌≡◌, refl, inl, inr, not, ◌||◌, some, ◌++◌, arith, str_eq, ltb,
  leb, ◌==◌, if◌then◌else◌, Bool-cases, Option-cases, if_both, from_rfc3339, Bytes, length, take,
  length-append, err,
}
use cloudpanel_gateway.Uploads.{
  Upload, Store, append_file, AppendFaults, max_zip_compressed, part, append_chunk, append_row,
  append_stat, Outcome,
}
use cloudpanel_gateway.Uploads.Invariant.{IsSound, Log}

module _ (log : Log) (s : Store) (sound : IsSound log s) where
  append_file-IsSound :
      (f : AppendFaults) (chunk content : Bytes) (id : String) (row : Upload)
      → lookup id s.uploads ≡ some row
      → s.files row.path ≡ some content
      → length content ≡ row.size
      → row.next_chunk < row.total_chunks
      → 0 < length chunk
      → row.size + length chunk ≤ max_zip_compressed
      → IsSound
          (log_chunk id chunk (append_file f chunk row content s).0 log)
          (append_file f chunk row content s).1
  unfolding append_file
  append_file-IsSound f chunk content id row found file size more some_bytes fits =
      let same = size-accepted log s sound id row content found file size in
      let old = sound.at id row found in
      let whole =
        file-IsSound log s sound id row (some (content ++ chunk)) found
          (whole-FileOk log s sound id row content chunk size some_bytes more) in
      elim (Option-cases f.open_file) [
        | inr (e, p) ↦ rw p sound
        | inl p ↦ elim (Option-cases f.write) [
          | inr ((n, e), q) ↦
              rw (p, q)
                (file-IsSound log s sound id row (some (content ++ take n chunk)) found
                  (partial-FileOk log s sound id row content chunk n size same more))
          | inl q ↦ elim (Option-cases f.close) [
            | inr (e, r) ↦ rw (p, q, r) whole
            | inl r ↦ elim (Option-cases f.advance) [
              | inr (e, t) ↦ rw (p, q, r, t) whole
              | inl t ↦
                  rw (p, q, r, t, old.at_part, old.named, same)
                    (row-IsSound log s sound id
                      (record row {
                        id = id;
                        path = part id;
                        size = row.size + length chunk;
                        next_chunk = row.next_chunk + 1;
                      })
                      (log id ++ chunk)
                      (record {
                        named = refl;
                        at_part = refl;
                        counted = omega (arith, length-append (log id) chunk, old.counted);
                        in_range = omega arith;
                        bounded = fits;
                        on_disk = inl refl;
                      }))
            ]
          ]
        ]
      ]

  append_stat-IsSound :
      (f : AppendFaults) (id : String) (chunk : Bytes) (row : Upload)
      → lookup id s.uploads ≡ some row
      → row.next_chunk < row.total_chunks
      → 0 < length chunk
      → IsSound
          (log_chunk id chunk (append_stat f chunk row (s.files row.path) s).0 log)
          (append_stat f chunk row (s.files row.path) s).1
  unfolding append_stat
  append_stat-IsSound f id chunk row found more some_bytes =
      elim (Option-cases (s.files row.path)) [
        | inl gone ↦ rw gone sound
        | inr (content, file) ↦
            let P = λ (o : Outcome Upload). IsSound (log_chunk id chunk o.0 log) o.1 in
            let refused = λ (e : String). (let o : Outcome Upload = (err e, s) in o) in
            let write = append_file f chunk row content s in
            let fit = ltb max_zip_compressed (row.size + length chunk) in
            let too_big = refused "artifact exceeds 100 MiB compressed limit" in
            rw file (
              if_both P (not (length content == row.size)) (refused "upload state is inconsistent")
                (if fit then too_big else write) (λ _. sound)
                (λ same.
                  if_both P fit too_big write (λ _. sound)
                    (λ fits.
                      append_file-IsSound f chunk content id row found file (ground arith) more
                        some_bytes (ground arith))))
      ]

  append_row-IsSound :
      (f : AppendFaults) (now : ℕ) (owner id : String) (index : ℕ) (chunk : Bytes)
      → 0 < length chunk
      → IsSound
          (log_chunk id chunk (append_row f now owner index chunk (lookup id s.uploads) s).0 log)
          (append_row f now owner index chunk (lookup id s.uploads) s).1
  unfolding append_row
  append_row-IsSound f now owner id index chunk some_bytes =
      elim (Option-cases (lookup id s.uploads)) [
        | inl missing ↦ rw missing sound
        | inr (row, found) ↦ elim (Bool-cases (str_eq row.owner_token_id owner)) [
          | inr other ↦ rw (found, other) sound
          | inl mine ↦ elim (Bool-cases (ltb (from_rfc3339 row.expires_at) now)) [
            | inl late ↦ rw (found, mine, late) sound
            | inr live ↦
                elim (Bool-cases (not (index == row.next_chunk) || leb row.total_chunks index)) [
                  | inl bad ↦ rw (found, mine, live, bad) sound
                  | inr good ↦
                      rw (found, mine, live, good)
                        (append_stat-IsSound f id chunk row found (ground arith) some_bytes)
                ]
          ]
        ]
      ]

  -- From a sound store every call of `appendArtifactChunk`, accepted, refused or failed half way,
  -- leaves a sound store: an accepted chunk extends the accepted bytes of its upload, any other call
  -- leaves them.
  pub append_chunk-IsSound :
      (f : AppendFaults) (now : ℕ) (owner id : String) (index : ℕ) (chunk : Bytes)
      → IsSound
          (log_chunk id chunk (append_chunk f now owner id index chunk s).0 log)
          (append_chunk f now owner id index chunk s).1
  unfolding append_chunk
  append_chunk-IsSound f now owner id index chunk =
      if_both (λ (o : Outcome Upload). IsSound (log_chunk id chunk o.0 log) o.1) _ _ _ (λ _. sound)
        λ short. append_row-IsSound f now owner id index chunk (ground arith)
