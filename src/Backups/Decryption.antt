-- ===== src/Backups/Decryption.antt =====
-- The decryption of a backup: `decryptFile` of internal/gateway/operations.go. The loop over the
-- chunks runs on fuel, of which one more than the number of the bytes is given.
use cloudpanel_gateway.Names.{upper}
use cloudpanel_gateway.Backups.Encryption.{
  Aead, Disk, Progress, Written, chunk_length, backup_chunk, magic,
}
unfoldable use cloudpanel_gateway.Backups.Encryption.{write, chunk_nonce}
use cloudpanel_gateway.Base.{
  ℕ, zero, suc, ◌+◌, ◌%◌, String, Bool, not, ◌||◌, Option, none, some, [], ◌∷◌, ◌++◌, map, ltb,
  if◌then◌else◌, Bytes, bytes_eq, length, take, drop, Result, ok, err,
}

-- `io.ReadFull` of some bytes: the end of the file, an error, or the bytes and what is left.
pub data Full : Type 0 where
  at_end : Full
  failed : String → Full
  full : Bytes → Bytes → Full

-- The answer where too few bytes are left
abbrev pub cut : Bytes → Full
cut [] = at_end
cut (c ∷ rest) = failed "unexpected EOF"

-- The read fails with the message that `disk` gives for the bytes that are left.
unfoldable pub read_full : (Bytes → Option String) → ℕ → Bytes → Full
read_full disk n rest = elim (disk rest) [
  | some e ↦ failed e
  | none ↦ if not (ltb (length rest) n) then full (take n rest) (drop n rest) else cut rest
]

module _ (g : Aead) (read_error : Bytes → Option String) (disk : Disk) (base : Bytes) where
  -- What follows `dst.Write(plain)`; the digest has seen the chunk `v` behind its length.
  unfoldable pub opened_frame :
      Bytes → Bytes → Progress → Option String × Bytes → Option String × Progress
  opened_frame header v p (some m, file) = (some m, record p { written = file })
  opened_frame header v p (none, file) = (
    none,
    record {
      written = file;
      hashed = p.hashed ++ (header ++ v);
      index = (p.index + 1) % 18_446_744_073_709_551_616;
    },
  )

  -- `g.Open` and `dst.Write(plain)`
  unfoldable pub open_frame : Bytes → Bytes → Progress → Option String × Progress
  unfolding write chunk_nonce opened_frame
  open_frame header v p = elim (g.open_sealed (chunk_nonce base p.index) v) [
    | none ↦ (some "backup authentication failed", p)
    | some plain ↦ opened_frame header v p (write disk p.written plain)
  ]

  -- The loop goes on with the bytes that are left, or returns the error.
  unfoldable pub behind_frame : Bytes → Option String × Progress → Result Bytes × Progress
  behind_frame left (some m, q) = (err m, q)
  behind_frame left (none, q) = (ok left, q)

  -- What follows the read of the chunk: the bytes that are left behind it
  unfoldable pub read_chunk : Bytes → Progress → Full → Result Bytes × Progress
  unfolding open_frame behind_frame
  read_chunk header p at_end = (err "EOF", p)
  read_chunk header p (failed e) = (err e, p)
  read_chunk header p (full v left) = behind_frame left (open_frame header v p)

  -- `n < g.Overhead() || n > backupChunk+g.Overhead()`, and the read of the chunk
  unfoldable pub read_frame : Bytes → Bytes → Progress → Result Bytes × Progress
  unfolding read_chunk read_full
  read_frame header rest p =
      if ltb (chunk_length header) g.overhead
        || ltb (backup_chunk + g.overhead) (chunk_length header)
      then (err "invalid encrypted backup chunk", p)
      else read_chunk header p (read_full read_error (chunk_length header) rest)

  -- The loop returns the error, or goes on behind the chunk.
  unfoldable pub next_frame :
      (Bytes → Progress → Option (Result (Unit {0}) × Progress))
      → Result Bytes × Progress
      → Option (Result (Unit {0}) × Progress)
  next_frame next (err e, q) = some (err e, q)
  next_frame next (ok behind, q) = next behind q

  -- The loop of `decryptFile` over the bytes that are left, `none` when the fuel is used up
  unfoldable pub decrypt_frames : ℕ → Bytes → Progress → Option (Result (Unit {0}) × Progress)
  unfolding read_frame read_full next_frame
  decrypt_frames zero rest p = none
  decrypt_frames (suc fuel) rest p = elim (read_full read_error 4 rest) [
    | at_end ↦ some (ok tt, p)
    | failed e ↦ some (err e, p)
    | full header left ↦
        next_frame (λ behind q. decrypt_frames fuel behind q) (read_frame header left p)
  ]

-- `strings.EqualFold(a, b)` where one of the texts is made of hexadecimal digits, which fold with
-- the letters of ASCII only
abbrev pub equal_fold : Bytes → Bytes → Bool
equal_fold a b = bytes_eq (map lower a) (map lower b)
  where
    lower : ℕ → ℕ
    lower c = if upper c then c + 32 else c

module _ (aead : Bytes → Aead) (hex_sha256 : Bytes → Bytes) (read_error : Bytes → Option String)
    (disk : Disk) where
  -- The comparison of the digests
  unfoldable pub decrypted : Bytes → Result (Unit {0}) × Progress → Written (Unit {0})
  decrypted expected (err e, p) = (err e, some p.written)
  decrypted expected (ok tt, p) =
      if not (equal_fold (hex_sha256 p.hashed) expected)
      then (err "backup digest mismatch", some p.written)
      else (ok tt, some p.written)

  -- What is returned at the end of the loop
  unfoldable pub close_loop :
      Bytes → Option (Result (Unit {0}) × Progress) → Option (Written (Unit {0}))
  unfolding decrypted
  close_loop expected none = none
  close_loop expected (some end) = some (decrypted expected end)

  -- `os.OpenFile(out, …)`, and the loop over the bytes behind the header
  unfoldable pub decrypt_body :
      Option String → Bytes → Bytes → Bytes → Bytes → Option (Written (Unit {0}))
  unfolding close_loop decrypt_frames
  decrypt_body (some e) key base body expected = some (err e, none)
  decrypt_body none key base body expected = close_loop expected (
      decrypt_frames (aead key) read_error disk base (suc (length body)) body
        (record { written = []; hashed = []; index = 0 }))

  -- What follows the read of the nonce
  unfoldable pub after_nonce : Option String → Bytes → Bytes → Full → Option (Written (Unit {0}))
  unfolding decrypt_body
  after_nonce create key expected at_end = some (err "EOF", none)
  after_nonce create key expected (failed e) = some (err e, none)
  after_nonce create key expected (full base body) = decrypt_body create key base body expected

  -- What follows the read of the magic
  unfoldable pub after_magic : Option String → Bytes → Bytes → Full → Option (Written (Unit {0}))
  unfolding after_nonce read_full
  after_magic create key expected (full head rest) =
      if not (bytes_eq head magic)
      then some (err "invalid backup encryption format", none)
      else after_nonce create key expected (read_full read_error (aead key).nonce_size rest)
  after_magic create key expected _ = some (err "invalid backup encryption format", none)

  -- `decryptFile(key, in, out, expected)` of the bytes of `in`
  unfoldable pub decrypt_file :
      Result Bytes → Option String → Bytes → Bytes → Option (Written (Unit {0}))
  unfolding after_magic read_full
  decrypt_file (err e) create key expected = some (err e, none)
  decrypt_file (ok file) create key expected =
      after_magic create key expected (read_full read_error 5 file)
