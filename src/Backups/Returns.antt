-- ===== src/Backups/Returns.antt =====
-- `decrypt_file` always ends, and the parts of its agreement with the format of a backup file.
use cloudpanel_gateway.Backups.Frames.{Ends, decrypt_frames-Ends}
use cloudpanel_gateway.Backups.Encryption.{
  Aead, Disk, Progress, chunk_length, backup_chunk, Written, magic,
}
unfoldable use cloudpanel_gateway.Backups.Encryption.{write}
use cloudpanel_gateway.Backups.Decryption.{
  Full, at_end, failed, full, equal_fold, decrypt_body, after_magic, after_nonce, decrypt_frames,
  decrypted, close_loop, decrypt_file, next_frame,
}
use cloudpanel_gateway.Backups.Format.{Frame, OpensAt, frame_bytes, Opens, frame_text}
unfoldable use cloudpanel_gateway.Backups.Decryption.{
  read_full, open_frame, opened_frame, behind_frame, read_chunk, read_frame,
}
use cloudpanel_gateway.Base.{
  ℕ, zero, suc, ◌+◌, ◌%◌, ◌<◌, String, ◌≡◌, refl, sym, ap, ◌∙◌, inl, inr, true, false, not, ◌||◌,
  Option, none, some, List, [], ◌∷◌, ◌++◌, append_assoc, append-nil, arith, ltb, Bool-cases,
  if_both, Bytes, bytes_eq, length, length-append, take-length-append, drop-length-append, Result,
  ok, err,
}

abbrev pub reads_well : Bytes → Option String
reads_well rest = none

abbrev pub writes_well : Disk
writes_well file block = none

pub read_full-append :
    (n : ℕ) (a b : Bytes) → length a ≡ n → read_full reads_well n (a ++ b) ≡ full a b
unfolding read_full
read_full-append n a b h =
    rw (sym h, enough, read_full, take-length-append a b, drop-length-append a b) refl
  where
    enough : ltb (length (a ++ b)) (length a) ≡ false
    enough = ground (arith, length-append a b)

abbrev after_frame : Frame → Progress → Progress
after_frame f p = record {
  written = p.written ++ f.plain;
  hashed = p.hashed ++ (f.header ++ f.sealed);
  index = (p.index + 1) % 18_446_744_073_709_551_616;
}

module _ (g : Aead) (base : Bytes) where
  read_frame-frame :
      (f : Frame) (left : Bytes) (p : Progress)
      → OpensAt g base p.index f
      → read_frame g reads_well writes_well base f.header (f.sealed ++ left) p ≡ (
        ok left,
        record {
          written = p.written ++ f.plain;
          hashed = p.hashed ++ (f.header ++ f.sealed);
          index = (p.index + 1) % 18_446_744_073_709_551_616;
        },
      )
  unfolding read_frame read_chunk open_frame opened_frame behind_frame write
  read_frame-frame f left p o =
      rw
        (
          inside,
          read_frame,
          read_full-append (chunk_length f.header) f.sealed left (sym o.sealed_size),
          read_chunk,
          open_frame,
          o.opened,
        )
        refl
    where
      inside :
          (ltb (chunk_length f.header) g.overhead
            || ltb (backup_chunk + g.overhead) (chunk_length f.header))
          ≡ false
      inside = ground (arith, o.sealed_size, o.least, o.most)

  -- The loop reads authentic chunks back, one after the other.
  pub frames_read :
      (fs : List Frame) (fuel : ℕ) (p : Progress)
      → length (frame_bytes fs) < fuel
      → Opens g base p.index fs
      → (q : Progress) × (decrypt_frames g reads_well writes_well base fuel (frame_bytes fs) p
          ≡ some (ok tt, q))
        × (q.written ≡ p.written ++ frame_text fs)
        × (q.hashed ≡ p.hashed ++ frame_bytes fs)
  unfolding decrypt_frames next_frame read_full
  frames_read fs zero p h o = absurd (omega arith)
  frames_read [] (suc fuel) p h o = (p, refl, sym (append-nil p.written), sym (append-nil p.hashed))
  frames_read (f ∷ fs) (suc fuel) p h (here, later) =
      let (r, done, w, d) = frames_read fs fuel (after_frame f p) shorter later in
      (
        r,
        rw
            (
              read_full-append 4 f.header (f.sealed ++ frame_bytes fs) here.header_size,
              decrypt_frames,
              read_frame-frame f (frame_bytes fs) p here,
            )
            done,
        w ∙ append_assoc p.written f.plain (frame_text fs),
        d
            ∙ append_assoc p.hashed (f.header ++ f.sealed) (frame_bytes fs)
            ∙ ap (λ l. p.hashed ++ l) (append_assoc f.header f.sealed (frame_bytes fs)),
      )
    where
      shorter : length (frame_bytes fs) < fuel
      shorter = omega (
        arith,
        h,
        here.header_size,
        length-append f.header (f.sealed ++ frame_bytes fs),
        length-append f.sealed (frame_bytes fs),
      )

module _ (aead : Bytes → Aead) (hex_sha256 : Bytes → Bytes) where
  module _ (read_error : Bytes → Option String) (disk : Disk) (create : Option String)
      (key expected : Bytes) where
    Returns : Option (Written (Unit {0})) → Type 0
    Returns o = (out : Written (Unit {0})) × (o ≡ some out)

    close_loop-Returns :
        (end : Option (Result (Unit {0}) × Progress))
        → ((r : Result (Unit {0}) × Progress) × (end ≡ some r))
        → Returns (close_loop aead hex_sha256 read_error disk expected end)
    unfolding Returns close_loop
    close_loop-Returns none (r, h) = cc
    close_loop-Returns (some end) h = (_, refl)

    body-Returns :
        (create : Option String) (base body : Bytes)
        → Returns (decrypt_body aead hex_sha256 read_error disk create key base body expected)
    unfolding Returns decrypt_body Ends
    body-Returns (some e) base body = (_, refl)
    body-Returns none base body = close_loop-Returns _ (
        decrypt_frames-Ends (aead key) read_error disk base (suc (length body)) body
          (record { written = []; hashed = []; index = 0 }) (omega arith))

    nonce-Returns :
        (a : Full) → Returns (after_nonce aead hex_sha256 read_error disk create key expected a)
    unfolding Returns after_nonce
    nonce-Returns at_end = (_, refl)
    nonce-Returns (failed e) = (_, refl)
    nonce-Returns (full base body) = body-Returns create base body

    magic-Returns :
        (a : Full) → Returns (after_magic aead hex_sha256 read_error disk create key expected a)
    unfolding Returns after_magic
    magic-Returns at_end = (_, refl)
    magic-Returns (failed e) = (_, refl)
    magic-Returns (full head rest) =
        if_both Returns (not (bytes_eq head magic)) _ _ (λ wrong. (_, refl))
          (λ right. nonce-Returns _)

  -- `decryptFile` always returns: the loop over the chunks ends, whatever the file holds and
  -- whatever the reads and writes answer.
  pub decrypt_file_returns :
      (read_error : Bytes → Option String) (disk : Disk) (source : Result Bytes)
      (create : Option String) (key expected : Bytes)
      → (out : Written (Unit {0})) × (decrypt_file aead hex_sha256 read_error disk source create key
            expected
          ≡ some out)
  unfolding decrypt_file Returns
  decrypt_file_returns read_error disk (err e) create key expected = (_, refl)
  decrypt_file_returns read_error disk (ok file) create key expected =
      magic-Returns read_error disk create key expected (read_full read_error 5 file)

  module _ (read_error : Bytes → Option String) (disk : Disk) (key expected : Bytes) where
    decrypted_digest :
        (p : Progress) (r : Result (Unit {0})) (text : Bytes)
        → decrypted aead hex_sha256 read_error disk expected (r, p) ≡ (ok tt, some text)
        → (r ≡ ok tt) × (p.written ≡ text) × (equal_fold (hex_sha256 p.hashed) expected ≡ true)
    unfolding decrypted
    decrypted_digest p (err e) text h = cc
    decrypted_digest p (ok tt) text h =
        elim (Bool-cases (equal_fold (hex_sha256 p.hashed) expected)) [
          | inl e ↦ (refl, wrote (rw (e, decrypted) at h), e)
          | inr e ↦ absurd (differs (rw (e, decrypted) at h))
        ]
      where
        wrote :
            Path (Written (Unit {0})) (ok tt, some p.written) (ok tt, some text) → p.written ≡ text
        wrote k = cc

        differs :
            {m : String} → Path (Written (Unit {0})) (err m, some p.written) (ok tt, some text) → ⊥
        differs k = cc

    pub close_loop-some :
        (text : Bytes) (end : Option (Result (Unit {0}) × Progress))
        → close_loop aead hex_sha256 read_error disk expected end ≡ some (ok tt, some text)
        → (q : Progress) × (end ≡ some (ok tt, q))
          × (q.written ≡ text)
          × (equal_fold (hex_sha256 q.hashed) expected ≡ true)
    unfolding close_loop
    close_loop-some text none h = cc
    close_loop-some text (some (r, q)) h =
        let (e, w, d) = decrypted_digest q r text cc in (q, rw e refl, w, d)
