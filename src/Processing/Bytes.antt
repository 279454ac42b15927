-- ===== src/Processing/Bytes.antt =====
-- Reading a stream of bytes: io.ReadFull, io.CopyN to nowhere, and encoding/binary's
-- little-endian numbers.
pub mod Laws
use Prim.Native.Nat.{◌+◌, ◌*◌, ◌/◌, ◌%◌, ◌<◌}
use blueprint_audio_backend.Common.{ℕ, zero, suc, Option, none, some, List, [], ◌∷◌}
use blueprint_audio_backend.Db.{Result, ok, err}
pub use blueprint_audio_backend.Db.Results.{◌>>=◌, ◌>>◌, refuse_if, is_ok, to_option}

-- `n` bytes and what follows them, where there are so many
unfoldable pub take_exact : ℕ → List ℕ → Option (List ℕ × List ℕ)
take_exact zero xs = some ([], xs)
take_exact (suc n) [] = none
take_exact (suc n) (x ∷ xs) = elim (take_exact n xs) [ none ↦ none | some (a, b) ↦ some (x ∷ a, b) ]

-- io.ReadFull of `n` bytes
abbrev pub read_full : {E : Type 0} → ℕ → E → List ℕ → Result E (List ℕ × List ℕ)
read_full n e xs = elim (take_exact n xs) [ none ↦ err e | some r ↦ ok r ]

-- io.CopyN(io.Discard, reader, n)
abbrev pub discard : {E : Type 0} → ℕ → E → List ℕ → Result E (List ℕ)
discard n e xs = elim (take_exact n xs) [ none ↦ err e | some (_, rest) ↦ ok rest ]

abbrev pub byte : List ℕ → ℕ → ℕ
byte [] i = 0
byte (x ∷ xs) zero = x
byte (x ∷ xs) (suc i) = byte xs i

-- binary.LittleEndian.Uint16(data[i:])
abbrev pub uint16 : List ℕ → ℕ → ℕ
uint16 xs i = byte xs i + 256 * byte xs (i + 1)

-- binary.LittleEndian.Uint32(data[i:])
abbrev pub uint32 : List ℕ → ℕ → ℕ
uint32 xs i = uint16 xs i + 65536 * uint16 xs (i + 2)

-- the four bytes of a number, the least significant first
abbrev pub le32 : ℕ → List ℕ
le32 n = n % 256 ∷ (n / 256 % 256 ∷ (n / 65536 % 256 ∷ (n / 16777216 % 256 ∷ [])))

abbrev pub AllBytes : List ℕ → Type 0
AllBytes [] = Unit
AllBytes (x ∷ xs) = (x < 256) × AllBytes xs
