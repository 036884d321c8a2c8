-- ===== src/Backups/Format.antt =====
-- The format of a backup file, and what `decrypt_file` makes of it.
use cloudpanel_gateway.Backups.Encryption.{
  Aead, chunk_length, backup_chunk, magic, Progress, Disk, write,
}
unfoldable use cloudpanel_gateway.Backups.Encryption.{chunk_nonce}
use cloudpanel_gateway.Backups.Decryption.{
  at_end, failed, full, equal_fold, cut, behind_frame, opened_frame, read_frame, open_frame, Full,
  read_chunk,
}
unfoldable use cloudpanel_gateway.Backups.Decryption.{read_full}
use cloudpanel_gateway.Base.{
  ℕ, zero, suc, ◌+◌, ◌%◌, ◌≤◌, String, ◌≡◌, refl, sym, ap, inl, inr, Bool, true, false, ◌||◌,
  Option, none, some, List, [], ◌∷◌, ◌++◌, arith, ltb, Bool-cases, Option-cases, Bytes, length,
  take, drop, Result, ok, err,
}

-- One chunk of the file: the four bytes of its length, and what it seals.
pub record Frame : Type 0 where
  pub header : Bytes
  pub sealed : Bytes
  pub plain : Bytes

abbrev pub frame_bytes : List Frame → Bytes
frame_bytes [] = []
frame_bytes (f ∷ fs) = f.header ++ (f.sealed ++ frame_bytes fs)

abbrev pub frame_text : List Frame → Bytes
frame_text [] = []
frame_text (f ∷ fs) = f.plain ++ frame_text fs

-- A chunk with the number `i` is authentic: its length is written in front of it and within the
-- bounds, and it opens under the nonce of `i`.
pub record OpensAt (g : Aead) (base : Bytes) (i : ℕ) (f : Frame) : Type 0 where
  pub header_size : length f.header ≡ 4
  pub sealed_size : chunk_length f.header ≡ length f.sealed
  pub least : g.overhead ≤ length f.sealed
  pub most : length f.sealed ≤ backup_chunk + g.overhead
  pub opened : g.open_sealed (chunk_nonce base i) f.sealed ≡ some f.plain

abbrev pub Opens : Aead → Bytes → ℕ → List Frame → Type 0
Opens g base i [] = Unit
Opens g base i (f ∷ fs) =
    OpensAt g base i f × Opens g base ((i + 1) % 18_446_744_073_709_551_616) fs

-- The file of a backup with the given text: the magic, a nonce, and authentic chunks in order that
-- open to the text, with the expected digest.
pub record IsBackup (g : Aead) (hex_sha256 : Bytes → Bytes) (expected file text : Bytes)
    : Type 0 where
  pub base : Bytes
  pub frames : List Frame
  pub content : file ≡ magic ++ (base ++ frame_bytes frames)
  pub nonce_size : length base ≡ g.nonce_size
  pub opens : Opens g base 0 frames
  pub text_of : text ≡ frame_text frames
  pub digest : equal_fold (hex_sha256 (frame_bytes frames)) expected ≡ true

take-drop : (n : ℕ) (s : Bytes) → take n s ++ drop n s ≡ s
take-drop zero s = refl
take-drop (suc n) [] = refl
take-drop (suc n) (c ∷ s) = ap (λ l. c ∷ l) (take-drop n s)

length-take : (n : ℕ) (s : Bytes) → n ≤ length s → length (take n s) ≡ n
length-take zero s h = refl
length-take (suc n) [] h = absurd (omega arith)
length-take (suc n) (c ∷ s) h = ap suc (length-take n s (omega arith))

module _ (read_error : Bytes → Option String) where
  pub read_full_full :
      (n : ℕ) (rest a b : Bytes)
      → read_full read_error n rest ≡ full a b
      → (rest ≡ a ++ b) × (length a ≡ n)
  unfolding read_full
  read_full_full n rest a b h = elim (Option-cases (read_error rest)) [
    | inr (e, k) ↦ absurd (wrong (rw (k, read_full) at h))
    | inl k ↦ elim (Bool-cases (ltb (length rest) n)) [
      | inl s ↦ absurd (short rest (rw (k, s, read_full) at h))
      | inr s ↦
          gave (take n rest) (drop n rest) (rw (k, s, read_full) at h) (take-drop n rest)
            (length-take n rest (ground (arith, s)))
    ]
  ]
    where
      wrong : {e : String} → failed e ≡ full a b → ⊥
      wrong k = cc

      short : (s : Bytes) → cut s ≡ full a b → ⊥
      short [] k = cc
      short (c ∷ s) k = cc

      gave :
          (x y : Bytes)
          → full x y ≡ full a b
          → x ++ y ≡ rest
          → length x ≡ n
          → (rest ≡ a ++ b) × (length a ≡ n)
      gave x y k s z = (cc, cc)

  pub read_full_at_end : (n : ℕ) (rest : Bytes) → read_full read_error n rest ≡ at_end → rest ≡ []
  unfolding read_full
  read_full_at_end n [] h = refl
  read_full_at_end n (c ∷ rest) h = elim (Option-cases (read_error (c ∷ rest))) [
    | inr (e, k) ↦ absurd (wrong (rw (k, read_full) at h))
    | inl k ↦ elim (Bool-cases (ltb (suc (length rest)) n)) [
      | inl s ↦ absurd (wrong (rw (k, s, read_full) at h))
      | inr s ↦ absurd (unended (rw (k, s, read_full) at h))
    ]
  ]
    where
      wrong : {e : String} → failed e ≡ at_end → ⊥
      wrong k = cc

      unended : {a b : Bytes} → full a b ≡ at_end → ⊥
      unended k = cc

-- What one round of the loop makes of a chunk that it accepts.
pub record Opened (g : Aead) (base header rest : Bytes) (p : Progress) (left : Bytes) (q : Progress)
    : Type 0 where
  pub frame : Frame
  pub header_of : frame.header ≡ header
  pub parts : rest ≡ frame.sealed ++ left
  pub sealed_size : chunk_length header ≡ length frame.sealed
  pub least : g.overhead ≤ length frame.sealed
  pub most : length frame.sealed ≤ backup_chunk + g.overhead
  pub opened : g.open_sealed (chunk_nonce base p.index) frame.sealed ≡ some frame.plain
  pub written : q.written ≡ p.written ++ frame.plain
  pub hashed : q.hashed ≡ p.hashed ++ (header ++ frame.sealed)
  pub index : q.index ≡ (p.index + 1) % 18_446_744_073_709_551_616

pub write_none :
    (disk : Disk) (file block file' : Bytes)
    → write disk file block ≡ (none, file')
    → file' ≡ file ++ block
unfolding write
write_none disk file block file' h = elim (Option-cases (disk file block)) [
  | inl e ↦ ground (arith, e)
  | inr (k, e) ↦ ground (arith, e)
]

module _ (g : Aead) (read_error : Bytes → Option String) (disk : Disk) (base : Bytes) where
  opened_frame-none :
      (header v : Bytes) (p q : Progress) (w : Option String × Bytes)
      → opened_frame g read_error disk base header v p w ≡ (none, q)
      → (file : Bytes) × (w ≡ (none, file))
        × (q ≡ record {
          written = file;
          hashed = p.hashed ++ (header ++ v);
          index = (p.index + 1) % 18_446_744_073_709_551_616;
        })
  unfolding opened_frame
  opened_frame-none header v p q (some m, file) h = cc
  opened_frame-none header v p q (none, file) h = (file, refl, cc)

  behind_frame-ok :
      (left behind : Bytes) (q : Progress) (w : Option String × Progress)
      → behind_frame g read_error disk base left w ≡ (ok behind, q)
      → (w ≡ (none, q)) × (left ≡ behind)
  unfolding behind_frame
  behind_frame-ok left behind q (some m, r) h = cc
  behind_frame-ok left behind q (none, r) h = (cc, cc)

  open_frame-none :
      (header v : Bytes) (p q : Progress)
      → open_frame g read_error disk base header v p ≡ (none, q)
      → (plain : Bytes) × (g.open_sealed (chunk_nonce base p.index) v ≡ some plain)
        × (q ≡ record {
          written = p.written ++ plain;
          hashed = p.hashed ++ (header ++ v);
          index = (p.index + 1) % 18_446_744_073_709_551_616;
        })
  unfolding open_frame
  open_frame-none header v p q h =
      elim (Option-cases (g.open_sealed (chunk_nonce base p.index) v)) [
        | inl e ↦ absurd (refused (rw (e, open_frame) at h))
        | inr (plain, e) ↦
            let (file, w, k) =
              opened_frame-none header v p q (write disk p.written plain)
                (rw (e, open_frame) at h) in
            let f = write_none disk p.written plain file w in (plain, e, rw (sym f) k)
      ]
    where
      refused : {m : String} → Path (Option String × Progress) (some m, p) (none, q) → ⊥
      refused k = cc

  pub read_frame-Opened :
      (header rest left : Bytes) (p q : Progress)
      → read_frame g read_error disk base header rest p ≡ (ok left, q)
      → Opened g base header rest p left q
  unfolding read_frame read_chunk
  read_frame-Opened header rest left p q h = elim (Bool-cases outside) [
    | inl o ↦ absurd (refused (rw (o, read_frame) at h))
    | inr o ↦
        read (read_full read_error (chunk_length header) rest) refl o (rw (o, read_frame) at h)
  ]
    where
      outside : Bool
      outside =
          ltb (chunk_length header) g.overhead
          || ltb (backup_chunk + g.overhead) (chunk_length header)

      refused : {m : String} → Path (Result Bytes × Progress) (err m, p) (ok left, q) → ⊥
      refused k = cc

      read :
          (a : Full)
          → read_full read_error (chunk_length header) rest ≡ a
          → outside ≡ false
          → read_chunk g read_error disk base header p a ≡ (ok left, q)
          → Opened g base header rest p left q
      read at_end e o k = cc
      read (failed m) e o k = cc
      read (full v behind) e o k =
          let (parts, size) = read_full_full read_error (chunk_length header) rest v behind e in
          let (w, same) = behind_frame-ok behind left q _ k in
          let (plain, opens, made) = open_frame-none header v p q w in
          record {
            frame = record { header = header; sealed = v; plain = plain };
            header_of = refl;
            parts = rw (sym same) parts;
            sealed_size = sym size;
            least = ground (arith, o);
            most = ground (arith, o);
            opened = opens;
            written = ap (λ z. z.written) made;
            hashed = ap (λ z. z.hashed) made;
            index = ap (λ z. z.index) made;
          }
