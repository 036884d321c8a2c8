-- ===== src/Backups/Frames.antt =====
-- The loop of `decrypt_file` against the chunks of the format.
use cloudpanel_gateway.Backups.Encryption.{Aead, Disk, Progress}
use cloudpanel_gateway.Backups.Decryption.{Full, at_end, failed, full}
use cloudpanel_gateway.Backups.Format.{
  Opened, read_frame-Opened, read_full_full, frame_text, Frame, frame_bytes, Opens,
  read_full_at_end,
}
unfoldable use cloudpanel_gateway.Backups.Decryption.{
  read_full, read_frame, next_frame, decrypt_frames,
}
use cloudpanel_gateway.Base.{
  ℕ, zero, suc, ◌≤◌, ◌<◌, String, ◌≡◌, refl, sym, ap, ◌∙◌, Option, some, List, [], ◌∷◌, ◌++◌,
  append_assoc, append-nil, arith, Bytes, length, length-append, Result, ok, err,
}

module _ (g : Aead) (read_error : Bytes → Option String) (disk : Disk) (base : Bytes) where
  Opened-shorter :
      (header rest left : Bytes) (p q : Progress)
      → Opened g base header rest p left q
      → length left ≤ length rest
  Opened-shorter header rest left p q o =
      omega (arith, length-append o.frame.sealed left, ap length o.parts)

  -- The loop, from some fuel on, as a property of what is left and of the progress.
  unfoldable pub Ends : ℕ → Bytes → Progress → Type 0
  Ends fuel rest p =
      (end : Result (Unit {0}) × Progress) × (decrypt_frames g read_error disk base fuel rest p
        ≡ some end)

  round-Ends :
      (fuel : ℕ) (rest : Bytes) (p : Progress)
      → length rest < suc fuel
      → ((behind : Bytes) (q : Progress) → length behind < fuel → Ends fuel behind q)
      → Ends (suc fuel) rest p
  unfolding Ends decrypt_frames next_frame
  round-Ends fuel rest p h again = first (read_full read_error 4 rest) refl
    where
      next :
          (header left : Bytes) (w : Result Bytes × Progress)
          → rest ≡ header ++ left
          → length header ≡ 4
          → read_frame g read_error disk base header left p ≡ w
          → (end : Result (Unit {0}) × Progress) × (next_frame g read_error disk base
                (λ behind q. decrypt_frames g read_error disk base fuel behind q)
                w
              ≡ some end)
      next header left (err e, q) parts size k = ((err e, q), refl)
      next header left (ok behind, q) parts size k = again behind q (
          omega (
            arith,
            Opened-shorter header left behind p q
                (read_frame-Opened g read_error disk base header left behind p q k),
            length-append header left,
            ap length parts,
          ))

      first : (a : Full) → read_full read_error 4 rest ≡ a → Ends (suc fuel) rest p
      first at_end e = rw (e, decrypt_frames) ((ok tt, p), refl)
      first (failed m) e = rw (e, decrypt_frames) ((err m, p), refl)
      first (full header left) e =
          let (parts, size) = read_full_full read_error 4 rest header left e in
          rw (e, decrypt_frames)
            (next header left (read_frame g read_error disk base header left p) parts size refl)

  -- The loop ends within as many rounds as there are bytes, and one.
  pub decrypt_frames-Ends :
      (fuel : ℕ) (rest : Bytes) (p : Progress) → length rest < fuel → Ends fuel rest p
  decrypt_frames-Ends zero rest p h = absurd (omega arith)
  decrypt_frames-Ends (suc fuel) rest p h =
      round-Ends fuel rest p h (λ behind q k. decrypt_frames-Ends fuel behind q k)

  -- Chunks from the counter of `p` on that fill the bytes that are left, with what the loop has
  -- written and hashed behind them.
  pub record Framed (rest : Bytes) (p q : Progress) : Type 0 where
    pub frames : List Frame
    pub content : rest ≡ frame_bytes frames
    pub opens : Opens g base p.index frames
    pub written : q.written ≡ p.written ++ frame_text frames
    pub hashed : q.hashed ≡ p.hashed ++ frame_bytes frames

  Framed-cons :
      (header left behind : Bytes) (p q r : Progress)
      → length header ≡ 4
      → Opened g base header left p behind q
      → Framed behind q r
      → Framed (header ++ left) p r
  Framed-cons header left behind p q r size o f = record {
    frames = o.frame ∷ f.frames;
    content = rw (o.header_of, sym f.content, o.parts) refl;
    opens = (
      record {
        header_size = rw (o.header_of) size;
        sealed_size = rw (o.header_of) o.sealed_size;
        least = o.least;
        most = o.most;
        opened = o.opened;
      },
      rw (sym o.index) f.opens,
    );
    written =
        rw (f.written, o.written) (append_assoc p.written o.frame.plain (frame_text f.frames));
    hashed =
        rw (f.hashed, o.hashed, o.header_of)
          (append_assoc p.hashed (header ++ o.frame.sealed) (frame_bytes f.frames)
            ∙ ap (λ l. p.hashed ++ l) (append_assoc header o.frame.sealed (frame_bytes f.frames)));
  }

  round-Framed :
      (fuel : ℕ) (rest : Bytes) (p r : Progress)
      → ((behind : Bytes) (q : Progress)
          → decrypt_frames g read_error disk base fuel behind q ≡ some (ok tt, r)
          → Framed behind q r)
      → decrypt_frames g read_error disk base (suc fuel) rest p ≡ some (ok tt, r)
      → Framed rest p r
  unfolding decrypt_frames next_frame
  round-Framed fuel rest p r again h = first (read_full read_error 4 rest) refl
    where
      next :
          (header left : Bytes) (w : Result Bytes × Progress)
          → rest ≡ header ++ left
          → length header ≡ 4
          → read_frame g read_error disk base header left p ≡ w
          → next_frame g read_error disk base
              (λ behind q. decrypt_frames g read_error disk base fuel behind q)
              w
            ≡ some (ok tt, r)
          → Framed rest p r
      next header left (err e, q) parts size k m = cc
      next header left (ok behind, q) parts size k m = rw parts (
          Framed-cons header left behind p q r size
            (read_frame-Opened g read_error disk base header left behind p q k) (again behind q m))

      first : (a : Full) → read_full read_error 4 rest ≡ a → Framed rest p r
      first at_end e =
          let same = ended (rw (e, decrypt_frames) at h) in
          record {
            frames = [];
            content = read_full_at_end read_error 4 rest e;
            opens = tt;
            written = rw (sym same) (sym (append-nil p.written));
            hashed = rw (sym same) (sym (append-nil p.hashed));
          }
        where
          ended :
              Path (Option (Result (Unit {0}) × Progress)) (some (ok tt, p)) (some (ok tt, r))
              → p ≡ r
          ended k = cc
      first (failed m) e = absurd (refused (rw (e, decrypt_frames) at h))
        where
          refused :
              Path (Option (Result (Unit {0}) × Progress)) (some (err m, p)) (some (ok tt, r)) → ⊥
          refused k = cc
      first (full header left) e =
          let (parts, size) = read_full_full read_error 4 rest header left e in
          next header left (read_frame g read_error disk base header left p) parts size refl
            (rw (e, decrypt_frames) at h)

  pub decrypt_frames-Framed :
      (fuel : ℕ) (rest : Bytes) (p r : Progress)
      → decrypt_frames g read_error disk base fuel rest p ≡ some (ok tt, r)
      → Framed rest p r
  unfolding decrypt_frames
  decrypt_frames-Framed zero rest p r h = cc
  decrypt_frames-Framed (suc fuel) rest p r h =
      round-Framed fuel rest p r (λ behind q k. decrypt_frames-Framed fuel behind q r k) h
