-- ===== src/Backups/Encryption.antt =====
-- The encryption of a backup: `encryptFile` of internal/gateway/operations.go.
-- AES-GCM is the argument `aead`, SHA-256 in hexadecimal digits the argument `hex_sha256`. The
-- reads and writes of the files take their errors from the arguments: a write that fails may have
-- written a part.
use Prim.Native.Nat.{bit_xor}
use cloudpanel_gateway.Base.{
  ℕ, zero, suc, ◌+◌, ◌-◌, ◌*◌, ◌/◌, ◌%◌, ◌^◌, String, not, Option, none, some, [], ◌∷◌, ◌++◌, ◌==◌,
  if◌then◌else◌, Bytes, codes, length, take, Result, ok, err,
}

-- A `cipher.AEAD`: `Seal(nil, nonce, plain, nil)` and `Open(nil, nonce, sealed, nil)`
pub record Aead : Type 0 where
  pub nonce_size : ℕ
  pub overhead : ℕ
  pub seal : Bytes → Bytes → Bytes
  pub open_sealed : Bytes → Bytes → Option Bytes

abbrev pub backup_chunk : ℕ
backup_chunk = 4_194_304

abbrev pub magic : Bytes
magic = codes "CPGB1"

-- `s[at] ^= b`
unfoldable pub xor_at : ℕ → ℕ → Bytes → Bytes
xor_at at b [] = []
xor_at zero b (c ∷ s) = bit_xor c b ∷ s
xor_at (suc at) b (c ∷ s) = c ∷ xor_at at b s

-- `for j := 0; j < 8; j++ { nonce[len(nonce)-1-j] ^= byte(i >> (8 * j)) }`, of the last `n` rounds
unfoldable pub xor_counter : ℕ → ℕ → Bytes → Bytes
unfolding xor_at
xor_counter zero i nonce = nonce
xor_counter (suc n) i nonce =
    xor_counter n i (xor_at (length nonce - 1 - (7 - n)) (i / 2 ^ (8 * (7 - n)) % 256) nonce)

-- The nonce of the chunk `i`
unfoldable pub chunk_nonce : Bytes → ℕ → Bytes
unfolding xor_counter
chunk_nonce base i = xor_counter 8 i base

-- `lenb`: the four bytes of a length, the highest first
abbrev pub length_bytes : ℕ → Bytes
length_bytes n = n / 16_777_216 % 256 ∷ n / 65_536 % 256 ∷ n / 256 % 256 ∷ n % 256 ∷ []

-- `int(l[0])<<24 | int(l[1])<<16 | int(l[2])<<8 | int(l[3])`
abbrev pub chunk_length : Bytes → ℕ
chunk_length (a ∷ b ∷ c ∷ d ∷ []) = a * 16_777_216 + b * 65_536 + c * 256 + d
chunk_length _ = 0

-- What `src.Read(buf)` answers, one call after the other: bytes, then the end or an error.
pub data Reads : Type 0 where
  piece : Bytes → Reads → Reads
  eof : Bytes → Reads
  broken : Bytes → String → Reads

-- The file that is written, the bytes that the digest has seen, and the counter `i`
pub record Progress : Type 0 where
  pub written : Bytes
  pub hashed : Bytes
  pub index : ℕ

-- The answer of a write of the second bytes behind the first: an error, with the number of bytes
-- that were written before it.
abbrev pub Disk : Type 0
Disk = Bytes → Bytes → Option (String × ℕ)

unfoldable pub write : Disk → Bytes → Bytes → Option String × Bytes
write disk file block = elim (disk file block) [
  | none ↦ (none, file ++ block)
  | some (e, n) ↦ (some e, file ++ take n block)
]

-- What follows `dst.Write(sealed)`: `h.Write(lenb[:])`, `h.Write(sealed)`, `i++`
unfoldable pub sealed_written : Bytes → Progress → Option String × Bytes → Option String × Progress
sealed_written sealed p (some m, file) = (some m, record p { written = file })
sealed_written sealed p (none, file) = (
  none,
  record {
    written = file;
    hashed = p.hashed ++ (length_bytes (length sealed) ++ sealed);
    index = (p.index + 1) % 18_446_744_073_709_551_616;
  },
)

-- What follows `dst.Write(lenb[:])`
unfoldable pub length_written :
    Disk → Bytes → Progress → Option String × Bytes → Option String × Progress
unfolding sealed_written write
length_written disk sealed p (some m, file) = (some m, record p { written = file })
length_written disk sealed p (none, file) = sealed_written sealed p (write disk file sealed)

unfoldable pub write_frame : Disk → Bytes → Progress → Option String × Progress
unfolding length_written write
write_frame disk sealed p =
    length_written disk sealed p (write disk p.written (length_bytes (length sealed)))

-- What the loop returns where it ends at this read
unfoldable pub stop : Result (Unit {0}) → Option String × Progress → Result (Unit {0}) × Progress
stop r (some m, q) = (err m, q)
stop r (none, q) = (r, q)

unfoldable pub go_on :
    (Progress → Result (Unit {0}) × Progress)
    → Option String × Progress
    → Result (Unit {0}) × Progress
go_on next (some m, q) = (err m, q)
go_on next (none, q) = next q

module _ (g : Aead) (base : Bytes) (disk : Disk) where
  -- `if n > 0 { … }`
  unfoldable pub encrypt_piece : Bytes → Progress → Option String × Progress
  unfolding write_frame chunk_nonce
  encrypt_piece [] p = (none, p)
  encrypt_piece (c ∷ buf) p = write_frame disk (g.seal (chunk_nonce base p.index) (c ∷ buf)) p

  -- The loop of `encryptFile`
  unfoldable pub encrypt_reads : Reads → Progress → Result (Unit {0}) × Progress
  unfolding encrypt_piece stop go_on
  encrypt_reads (piece buf next) p = go_on (λ q. encrypt_reads next q) (encrypt_piece buf p)
  encrypt_reads (eof buf) p = stop (ok tt) (encrypt_piece buf p)
  encrypt_reads (broken buf fault) p = stop (err fault) (encrypt_piece buf p)

pub record EncryptFaults : Type 0 where
  pub open_source : Option String
  pub create : Option String
  pub random : Option String
  pub stat : Option String

-- What a run leaves: its result, and the file `out` where it was created.
abbrev pub Written : Type 0 → Type 0
Written A = Result A × Option Bytes

module _ (aead : Bytes → Aead) (hex_sha256 : Bytes → Bytes) (disk : Disk) where
  abbrev pub started : Bytes → Progress
  started file = record { written = file; hashed = []; index = 0 }

  -- `hex.EncodeToString(h.Sum(nil)), st.Size()`
  unfoldable pub encrypted : EncryptFaults → Result (Unit {0}) × Progress → Written (Bytes × ℕ)
  encrypted f (err e, p) = (err e, some p.written)
  encrypted f (ok tt, p) = elim f.stat [
    | some e ↦ (err e, some p.written)
    | none ↦ (ok (hex_sha256 p.hashed, length p.written), some p.written)
  ]

  -- What follows `dst.Write(base)`
  unfoldable pub base_written :
      EncryptFaults → Bytes → Bytes → Reads → Option String × Bytes → Written (Bytes × ℕ)
  unfolding encrypted encrypt_reads
  base_written f key base reads (some m, file) = (err m, some file)
  base_written f key base reads (none, file) =
      encrypted f (encrypt_reads (aead key) base disk reads (started file))

  -- What follows `dst.Write([]byte("CPGB1"))`
  unfoldable pub magic_written :
      EncryptFaults → Bytes → Bytes → Reads → Option String × Bytes → Written (Bytes × ℕ)
  unfolding base_written write
  magic_written f key base reads (some m, file) = (err m, some file)
  magic_written f key base reads (none, file) = base_written f key base reads (write disk file base)

  -- `encryptFile(key, in, out)`, of the nonce `base` that `rand.Read` gives and the answers of the
  -- reads of `in`
  unfoldable pub encrypt_file : EncryptFaults → Bytes → Bytes → Reads → Written (Bytes × ℕ)
  unfolding magic_written write
  encrypt_file f key base reads =
      if not (length key == 32) then (err "invalid backup key", none) else elim f.open_source [
        | some e ↦ (err e, none)
        | none ↦ elim f.create [
          | some e ↦ (err e, none)
          | none ↦ elim f.random [
            | some e ↦ (err e, some [])
            | none ↦ magic_written f key base reads (write disk [] magic)
          ]
        ]
      ]
