-- ===== src/Backups/Refinement.antt =====
-- `decrypt_file` implements the format of a backup file.
use cloudpanel_gateway.Backups.Encryption.{Aead, magic, Disk}
use cloudpanel_gateway.Backups.Decryption.{Full, at_end, failed, full}
use cloudpanel_gateway.Backups.Format.{frame_bytes, IsBackup, read_full_full}
use cloudpanel_gateway.Backups.Frames.{decrypt_frames-Framed}
use cloudpanel_gateway.Backups.Returns.{
  reads_well, writes_well, read_full-append, frames_read, close_loop-some,
}
unfoldable use cloudpanel_gateway.Backups.Decryption.{
  read_full, after_magic, after_nonce, close_loop, decrypted, decrypt_body, decrypt_file,
}
use cloudpanel_gateway.Base.{
  suc, String, ◌≡◌, refl, sym, ap, ◌∙◌, ◌↔◌, not, Option, none, some, [], ◌++◌, arith, if-eq-else,
  Bytes, bytes_eq, bytes_eq→≡, length, ok,
}

module _ (aead : Bytes → Aead) (hex_sha256 : Bytes → Bytes) (read_error : Bytes → Option String)
    (disk : Disk) (key expected text : Bytes) where
  body-IsBackup :
      (create : Option String) (base body : Bytes)
      → length base ≡ (aead key).nonce_size
      → decrypt_body aead hex_sha256 read_error disk create key base body expected
        ≡ some (ok tt, some text)
      → IsBackup (aead key) hex_sha256 expected (magic ++ (base ++ body)) text
  unfolding decrypt_body
  body-IsBackup (some e) base body size h = cc
  body-IsBackup none base body size h =
      let (q, done, w, d) = close_loop-some aead hex_sha256 read_error disk key expected text _ h in
      let f =
        decrypt_frames-Framed (aead key) read_error disk base (suc (length body)) body
          (record { written = []; hashed = []; index = 0 }) q done in
      record {
        base = base;
        frames = f.frames;
        content = ap (λ l. magic ++ (base ++ l)) f.content;
        nonce_size = size;
        opens = f.opens;
        text_of = sym w ∙ f.written;
        digest = rw (sym f.hashed) d;
      }

  nonce-IsBackup :
      (create : Option String) (rest : Bytes) (a : Full)
      → read_full read_error (aead key).nonce_size rest ≡ a
      → after_nonce aead hex_sha256 read_error disk create key expected a ≡ some (ok tt, some text)
      → IsBackup (aead key) hex_sha256 expected (magic ++ rest) text
  unfolding after_nonce
  nonce-IsBackup create rest at_end e h = cc
  nonce-IsBackup create rest (failed m) e h = cc
  nonce-IsBackup create rest (full base body) e h =
      let (parts, size) = read_full_full read_error (aead key).nonce_size rest base body e in
      rw parts (body-IsBackup create base body size h)

  magic-IsBackup :
      (create : Option String) (file : Bytes) (a : Full)
      → read_full read_error 5 file ≡ a
      → after_magic aead hex_sha256 read_error disk create key expected a ≡ some (ok tt, some text)
      → IsBackup (aead key) hex_sha256 expected file text
  unfolding after_magic
  magic-IsBackup create file at_end e h = cc
  magic-IsBackup create file (failed m) e h = cc
  magic-IsBackup create file (full head rest) e h =
      let (parts, size) = read_full_full read_error 5 file head rest e in
      let (right, k) = if-eq-else (not (bytes_eq head magic)) _ _ (λ q. cc) h in
      rw (parts, bytes_eq→≡ head magic (ground (arith, right)))
        (nonce-IsBackup create rest _ refl k)

  pub decrypt_file-IsBackup :
      (create : Option String) (file : Bytes)
      → decrypt_file aead hex_sha256 read_error disk (ok file) create key expected
        ≡ some (ok tt, some text)
      → IsBackup (aead key) hex_sha256 expected file text
  unfolding decrypt_file
  decrypt_file-IsBackup create file h =
      magic-IsBackup create file (read_full read_error 5 file) refl h

module _ (aead : Bytes → Aead) (hex_sha256 : Bytes → Bytes) (key expected text : Bytes) where
  IsBackup-read :
      (file : Bytes)
      → IsBackup (aead key) hex_sha256 expected file text
      → decrypt_file aead hex_sha256 reads_well writes_well (ok file) none key expected
        ≡ some (ok tt, some text)
  unfolding decrypt_file after_magic after_nonce decrypt_body close_loop decrypted
  IsBackup-read file b =
      let (q, done, w, d) =
        frames_read (aead key) b.base b.frames (suc (length (frame_bytes b.frames)))
          (record { written = []; hashed = []; index = 0 }) (omega arith) b.opens in
      rw
        (
          b.content,
          read_full-append 5 magic (b.base ++ frame_bytes b.frames) refl,
          decrypt_file,
          read_full-append (aead key).nonce_size b.base (frame_bytes b.frames) b.nonce_size,
          done,
          d,
          b.digest,
          w,
          b.text_of,
        )
        refl

-- Where the file reads and writes well, `decryptFile` succeeds and leaves a given text exactly when
-- the file is a backup of that text: the magic, a nonce of the size that the cipher wants, and
-- chunks of a bounded size, each behind its length and authentic under the nonce of its number, with
-- nothing behind them and with the expected digest.
pub decrypt_file_refines :
    (aead : Bytes → Aead) (hex_sha256 : Bytes → Bytes) (key expected file text : Bytes)
    → (decrypt_file aead hex_sha256 reads_well writes_well (ok file) none key expected
        ≡ some (ok tt, some text))
      ↔ IsBackup (aead key) hex_sha256 expected file text
unfolding decrypt_file
decrypt_file_refines aead hex_sha256 key expected file text = (
  decrypt_file-IsBackup aead hex_sha256 reads_well writes_well key expected text none file,
  IsBackup-read aead hex_sha256 key expected text file,
)
