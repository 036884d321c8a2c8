-- ===== src/Backups/Sealing.antt =====
-- What the loop of `encrypt_file` writes.
use mathlib.Core.Path.{subst}
use cloudpanel_gateway.Backups.Encryption.{
  Aead, Disk, Progress, chunk_length, length_bytes, backup_chunk, Reads, piece, eof, broken,
  encrypt_piece, chunk_nonce, encrypt_reads, stop, go_on,
}
unfoldable use cloudpanel_gateway.Backups.Encryption.{
  write, sealed_written, length_written, write_frame,
}
use cloudpanel_gateway.Backups.Format.{write_none, Frame, frame_bytes, frame_text, Opens}
use cloudpanel_gateway.Base.{
  ℕ, suc, ◌+◌, ◌%◌, ◌≤◌, ◌<◌, String, ◌≡◌, refl, Option, none, some, List, [], ◌∷◌, ◌++◌,
  append_assoc, append-nil, arith, Bytes, length, Result, ok,
}

-- What `crypto/cipher` says of AES-GCM: `Open` gives back what `Seal` sealed under the nonce, and
-- the sealed text is longer by the tag of 16 bytes.
pub record IsAead (g : Aead) : Type 0 where
  pub opens : (nonce plain : Bytes) → g.open_sealed nonce (g.seal nonce plain) ≡ some plain
  pub sealed_size : (nonce plain : Bytes) → length (g.seal nonce plain) ≡ length plain + g.overhead
  pub tag_size : g.overhead ≡ 16

-- The text that the reads give.
unfoldable pub text_of : Reads → Bytes
text_of (piece buf next) = buf ++ text_of next
text_of (eof buf) = buf
text_of (broken buf fault) = buf

-- No read gives more than the buffer holds.
unfoldable pub FitsBuffer : Reads → Type 0
FitsBuffer (piece buf next) = (length buf ≤ backup_chunk) × FitsBuffer next
FitsBuffer (eof buf) = length buf ≤ backup_chunk
FitsBuffer (broken buf fault) = length buf ≤ backup_chunk

chunk_length-length_bytes : (n : ℕ) → n < 4_294_967_296 → chunk_length (length_bytes n) ≡ n
chunk_length-length_bytes n h = omega arith

module _ (g : Aead) (law : IsAead g) (base : Bytes) (disk : Disk) where
  -- What a loop wrote: authentic chunks from the counter of `p` on.
  pub record Sealed (p q : Progress) (text : Bytes) : Type 0 where
    pub frames : List Frame
    pub opens : (fs : List Frame) → Opens g base q.index fs → Opens g base p.index (frames ++ fs)
    pub text_is : frame_text frames ≡ text
    pub written : q.written ≡ p.written ++ frame_bytes frames
    pub hashed : q.hashed ≡ p.hashed ++ frame_bytes frames

  write_frame-none :
      (sealed : Bytes) (p q : Progress)
      → write_frame disk sealed p ≡ (none, q)
      → q ≡ record {
        written = p.written ++ (length_bytes (length sealed) ++ sealed);
        hashed = p.hashed ++ (length_bytes (length sealed) ++ sealed);
        index = (p.index + 1) % 18_446_744_073_709_551_616;
      }
  unfolding write_frame length_written sealed_written write
  write_frame-none sealed p q h =
      lengths (write disk p.written (length_bytes (length sealed))) refl h
    where
      made : Progress
      made = record {
        written = p.written ++ (length_bytes (length sealed) ++ sealed);
        hashed = p.hashed ++ (length_bytes (length sealed) ++ sealed);
        index = (p.index + 1) % 18_446_744_073_709_551_616;
      }

      whole :
          (file : Bytes) (w : Option String × Bytes)
          → file ≡ p.written ++ length_bytes (length sealed)
          → write disk file sealed ≡ w
          → sealed_written sealed p w ≡ (none, q)
          → q ≡ made
      whole file (some m, file') e k z = cc
      whole file (none, file') e k z =
          let same = write_none disk file sealed file' k in
          cc (append_assoc p.written (length_bytes (length sealed)) sealed, z, same, e)

      lengths :
          (w : Option String × Bytes)
          → write disk p.written (length_bytes (length sealed)) ≡ w
          → length_written disk sealed p w ≡ (none, q)
          → q ≡ made
      lengths (some m, file) e k = cc
      lengths (none, file) e k =
          whole file (write disk file sealed)
            (write_none disk p.written (length_bytes (length sealed)) file e) refl k

  encrypt_piece-Sealed :
      (buf : Bytes) (p q : Progress)
      → length buf ≤ backup_chunk
      → encrypt_piece g base disk buf p ≡ (none, q)
      → Sealed p q buf
  unfolding encrypt_piece
  encrypt_piece-Sealed [] p q fits h = record {
    frames = [];
    opens = λ fs o. subst (λ r. Opens g base (Progress.index r) fs) (unwritten h) o;
    text_is = refl;
    written = cc (unwritten h, append-nil p.written);
    hashed = cc (unwritten h, append-nil p.hashed);
  }
    where
      unwritten : Path (Option String × Progress) (none, p) (none, q) → q ≡ p
      unwritten k = cc
  encrypt_piece-Sealed (c ∷ buf) p q fits h = record {
    frames = frame ∷ [];
    opens = λ fs o. (
      record {
        header_size = refl;
        sealed_size =
            chunk_length-length_bytes (length sealed) (omega (arith, size, fits, law.tag_size));
        least = omega (arith, size);
        most = omega (arith, size, fits);
        opened = law.opens nonce (c ∷ buf);
      },
      subst (λ r. Opens g base (Progress.index r) fs) made o,
    );
    text_is = append-nil (c ∷ buf);
    written = rw (made, append-nil sealed) refl;
    hashed = rw (made, append-nil sealed) refl;
  }
    where
      nonce : Bytes
      nonce = chunk_nonce base p.index

      sealed : Bytes
      sealed = g.seal nonce (c ∷ buf)

      frame : Frame
      frame = record { header = length_bytes (length sealed); sealed = sealed; plain = c ∷ buf }

      size : length sealed ≡ suc (length buf) + g.overhead
      size = law.sealed_size nonce (c ∷ buf)

      made : q ≡ record {
        written = p.written ++ (length_bytes (length sealed) ++ sealed);
        hashed = p.hashed ++ (length_bytes (length sealed) ++ sealed);
        index = (p.index + 1) % 18_446_744_073_709_551_616;
      }
      made = write_frame-none sealed p q h

  frame_bytes-append :
      (fs gs : List Frame) → frame_bytes (fs ++ gs) ≡ frame_bytes fs ++ frame_bytes gs
  frame_bytes-append [] gs = refl
  frame_bytes-append (f ∷ fs) gs =
      rw
        (
          frame_bytes-append fs gs,
          append_assoc f.header (f.sealed ++ frame_bytes fs) (frame_bytes gs),
          append_assoc f.sealed (frame_bytes fs) (frame_bytes gs),
        )
        refl

  frame_text-append : (fs gs : List Frame) → frame_text (fs ++ gs) ≡ frame_text fs ++ frame_text gs
  frame_text-append [] gs = refl
  frame_text-append (f ∷ fs) gs =
      cc (frame_text-append fs gs, append_assoc f.plain (frame_text fs) (frame_text gs))

  Sealed-append :
      (p q r : Progress) (a b : Bytes) → Sealed p q a → Sealed q r b → Sealed p r (a ++ b)
  Sealed-append p q r a b x y = record {
    frames = x.frames ++ y.frames;
    opens =
        λ fs o. rw (append_assoc x.frames y.frames fs) (x.opens (y.frames ++ fs) (y.opens fs o));
    text_is = cc (frame_text-append x.frames y.frames, x.text_is, y.text_is);
    written = cc (
      y.written,
      x.written,
      frame_bytes-append x.frames y.frames,
      append_assoc p.written (frame_bytes x.frames) (frame_bytes y.frames),
    );
    hashed = cc (
      y.hashed,
      x.hashed,
      frame_bytes-append x.frames y.frames,
      append_assoc p.hashed (frame_bytes x.frames) (frame_bytes y.frames),
    );
  }

  stop-ok :
      (z : Result (Unit {0})) (w : Option String × Progress) (q : Progress)
      → stop z w ≡ (ok tt, q)
      → w ≡ (none, q)
  unfolding stop
  stop-ok z (some m, r) q h = cc
  stop-ok z (none, r) q h = cc

  pub encrypt_reads-Sealed :
      (reads : Reads) (p q : Progress)
      → FitsBuffer reads
      → encrypt_reads g base disk reads p ≡ (ok tt, q)
      → Sealed p q (text_of reads)
  unfolding encrypt_reads FitsBuffer text_of
  encrypt_reads-Sealed (eof buf) p q fits h = encrypt_piece-Sealed buf p q fits (stop-ok _ _ q h)
  encrypt_reads-Sealed (broken buf fault) p q fits h =
      encrypt_piece-Sealed buf p q fits (stop-ok _ _ q h)
  encrypt_reads-Sealed (piece buf next) p q (here, later) h =
      first (encrypt_piece g base disk buf p) refl h (λ r k. encrypt_reads-Sealed next r q later k)
    where
      first :
          (w : Option String × Progress)
          → encrypt_piece g base disk buf p ≡ w
          → go_on (λ r. encrypt_reads g base disk next r) w ≡ (ok tt, q)
          → ((r : Progress)
              → encrypt_reads g base disk next r ≡ (ok tt, q)
              → Sealed r q (text_of next))
          → Sealed p q (buf ++ text_of next)
      first (some m, r) e k again = cc
      first (none, r) e k again =
          Sealed-append p r q buf (text_of next) (encrypt_piece-Sealed buf p r here e) (again r k)
