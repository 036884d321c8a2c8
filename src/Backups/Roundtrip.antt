-- ===== src/Backups/Roundtrip.antt =====
-- A backup that was encrypted is decrypted to the text that was read.
use cloudpanel_gateway.Backups.Refinement.{decrypt_file_refines}
use cloudpanel_gateway.Backups.Returns.{reads_well, writes_well}
use cloudpanel_gateway.Names.{upper}
use mathlib.Core.Path.{subst}
use cloudpanel_gateway.Backups.Encryption.{
  Aead, Disk, Progress, Written, magic, Reads, EncryptFaults, magic_written, encrypt_file,
}
unfoldable use cloudpanel_gateway.Backups.Encryption.{write, encrypted, base_written}
use cloudpanel_gateway.Backups.Decryption.{equal_fold, decrypt_file}
use cloudpanel_gateway.Backups.Format.{write_none, frame_bytes, IsBackup, Opens}
use cloudpanel_gateway.Backups.Sealing.{IsAead, text_of, FitsBuffer, encrypt_reads-Sealed, Sealed}
use cloudpanel_gateway.Base.{
  ℕ, ◌+◌, String, ◌≡◌, refl, sym, ap, ◌∙◌, inl, inr, true, not, Option, none, some, [], ◌++◌, map,
  append_assoc, append-nil, ◌==◌, if◌then◌else◌, Option-cases, if-eq-else, Bytes, bytes_eq_refl,
  length, Result, ok, err,
}

equal_fold_refl : (a : Bytes) → equal_fold a a ≡ true
equal_fold_refl a = bytes_eq_refl (map (λ c. if upper c then c + 32 else c) a)

module _ (aead : Bytes → Aead) (hex_sha256 : Bytes → Bytes) (disk : Disk) (f : EncryptFaults)
    (key base : Bytes) (reads : Reads) (sum : Bytes) (size : ℕ) (file : Bytes) where
  encrypted-ok :
      (e : Result (Unit {0}) × Progress)
      → encrypted aead hex_sha256 disk f e ≡ (ok (sum, size), some file)
      → (p : Progress) × (e ≡ (ok tt, p)) × (sum ≡ hex_sha256 p.hashed) × (file ≡ p.written)
  unfolding encrypted
  encrypted-ok (err m, p) h = cc
  encrypted-ok (ok tt, p) h = elim (Option-cases f.stat) [
    | inl e ↦ let k = rw (e, encrypted) at h in (p, refl, hash k, content k)
    | inr (m, e) ↦ absurd (refused (rw (e, encrypted) at h))
  ]
    where
      Answer : Type 0
      Answer = Written (Bytes × ℕ)

      hash :
          Path Answer
            (ok (hex_sha256 p.hashed, length p.written), some p.written)
            (ok (sum, size), some file)
          → sum ≡ hex_sha256 p.hashed
      hash k = cc

      content :
          Path Answer
            (ok (hex_sha256 p.hashed, length p.written), some p.written)
            (ok (sum, size), some file)
          → file ≡ p.written
      content k = cc

      refused : {m : String} → Path Answer (err m, some p.written) (ok (sum, size), some file) → ⊥
      refused k = cc

  module _ (law : IsAead (aead key)) (nonce : length base ≡ (aead key).nonce_size)
      (fits : FitsBuffer reads) where
    Sealed-IsBackup :
        (header : Bytes) (p : Progress)
        → header ≡ magic ++ base
        → Sealed
            (aead key)
            law
            base
            disk
            (record { written = header; hashed = []; index = 0 })
            p
            (text_of reads)
        → sum ≡ hex_sha256 p.hashed
        → file ≡ p.written
        → IsBackup (aead key) hex_sha256 sum file (text_of reads)
    Sealed-IsBackup header p same s hash content = record {
      base = base;
      frames = s.frames;
      content =
          content
          ∙ s.written
          ∙ ap (λ l. l ++ frame_bytes s.frames) same
          ∙ append_assoc magic base (frame_bytes s.frames);
      nonce_size = nonce;
      opens = subst (λ l. Opens (aead key) base 0 l) (append-nil s.frames) (s.opens [] tt);
      text_of = sym s.text_is;
      digest =
          rw (hash ∙ ap hex_sha256 s.hashed) (equal_fold_refl (hex_sha256 (frame_bytes s.frames)));
    }

    base_written-IsBackup :
        (w : Option String × Bytes)
        → write disk magic base ≡ w
        → base_written aead hex_sha256 disk f key base reads w ≡ (ok (sum, size), some file)
        → IsBackup (aead key) hex_sha256 sum file (text_of reads)
    unfolding base_written
    base_written-IsBackup (some m, header) e h = cc
    base_written-IsBackup (none, header) e h =
        let (p, done, hash, content) = encrypted-ok _ h in
        Sealed-IsBackup header p (write_none disk magic base header e)
          (encrypt_reads-Sealed (aead key) law base disk reads
            (record { written = header; hashed = []; index = 0 }) p fits done)
          hash content

    magic_written-IsBackup :
        (w : Option String × Bytes)
        → write disk [] magic ≡ w
        → magic_written aead hex_sha256 disk f key base reads w ≡ (ok (sum, size), some file)
        → IsBackup (aead key) hex_sha256 sum file (text_of reads)
    unfolding magic_written
    magic_written-IsBackup (some m, head) e h = cc
    magic_written-IsBackup (none, head) e h =
        let same = write_none disk [] magic head e in
        base_written-IsBackup (write disk magic base) refl (rw same at h)

    encrypt_file-IsBackup :
        encrypt_file aead hex_sha256 disk f key base reads ≡ (ok (sum, size), some file)
        → IsBackup (aead key) hex_sha256 sum file (text_of reads)
    unfolding encrypt_file
    encrypt_file-IsBackup h =
        let (wrong, k) = if-eq-else (not (length key == 32)) _ _ (λ q. cc) h in
        opened f.open_source f.create f.random k
      where
        opened :
            (a b c : Option String)
            → (elim a [
              | some e ↦ (err e, none)
              | none ↦ elim b [
                | some e ↦ (err e, none)
                | none ↦ elim c [
                  | some e ↦ (err e, some [])
                  | none ↦ magic_written aead hex_sha256 disk f key base reads (write disk [] magic)
                ]
              ]
            ])
              ≡ (ok (sum, size), some file)
            → IsBackup (aead key) hex_sha256 sum file (text_of reads)
        opened (some e) b c k = cc
        opened none (some e) c k = cc
        opened none none (some e) k = cc
        opened none none none k = magic_written-IsBackup (write disk [] magic) refl k

-- A backup that `encryptFile` wrote in full, of the bytes that it read in pieces of at most 4 MiB,
-- is decrypted by `decryptFile`, with the same key and the digest that was returned, to exactly
-- those bytes, where the file reads and writes well. The cipher opens what it sealed, adds a tag of
-- 16 bytes, and has nonces of the size that was drawn.
pub decrypt_file-encrypt_file :
    (aead : Bytes → Aead) (hex_sha256 : Bytes → Bytes) (disk : Disk) (f : EncryptFaults)
    (key base : Bytes) (reads : Reads) (sum : Bytes) (size : ℕ) (file : Bytes)
    → IsAead (aead key)
    → length base ≡ (aead key).nonce_size
    → FitsBuffer reads
    → encrypt_file aead hex_sha256 disk f key base reads ≡ (ok (sum, size), some file)
    → decrypt_file aead hex_sha256 reads_well writes_well (ok file) none key sum
      ≡ some (ok tt, some (text_of reads))
decrypt_file-encrypt_file aead hex_sha256 disk f key base reads sum size file law nonce fits h =
    (decrypt_file_refines aead hex_sha256 key sum file (text_of reads)).1
      (encrypt_file-IsBackup aead hex_sha256 disk f key base reads sum size file law nonce fits h)
