-- ===== src/Processing/Bytes/Laws.antt =====
-- What reading a prefix gives, and that little-endian numbers round-trip.
use blueprint_audio_backend.Common.{
  ℕ, zero, suc, ◌+◌, ◌<◌, ◌≤◌, none, some, List, [], ◌∷◌, ◌++◌, ◌≡◌, refl, arith, length,
  Option-cases, inl, inr,
}
use blueprint_audio_backend.Processing.Bytes.{take_exact, uint32, le32, AllBytes}

pub length-append : (xs ys : List ℕ) → length (xs ++ ys) ≡ length xs + length ys
length-append [] ys = omega arith
length-append (x ∷ xs) ys = omega (arith, length-append xs ys)

pub take_exact-length : (xs ys : List ℕ) → take_exact (length xs) (xs ++ ys) ≡ some (xs, ys)
unfolding take_exact
take_exact-length [] ys = refl
take_exact-length (x ∷ xs) ys = ground (arith, take_exact-length xs ys)

pub take_exact-append :
    (n : ℕ) (xs ys : List ℕ) {a b : List ℕ}
    → take_exact n xs ≡ some (a, b)
    → take_exact n (xs ++ ys) ≡ some (a, b ++ ys)
unfolding take_exact
take_exact-append zero xs ys h = ground arith
take_exact-append (suc n) [] ys h = absurd (ground arith)
take_exact-append (suc n) (x ∷ xs) ys h = elim (Option-cases (take_exact n xs)) [
  | inl none_left ↦ absurd (ground arith)
  | inr ((c, d), read) ↦ ground (arith, take_exact-append n xs ys read)
]

pub take_exact_sound :
    (n : ℕ) (xs : List ℕ) {a b : List ℕ}
    → take_exact n xs ≡ some (a, b)
    → (xs ≡ a ++ b) × (length a ≡ n)
unfolding take_exact
take_exact_sound zero xs h = ground arith
take_exact_sound (suc n) [] h = absurd (ground arith)
take_exact_sound (suc n) (x ∷ xs) h = elim (Option-cases (take_exact n xs)) [
  | inl none_left ↦ absurd (ground arith)
  | inr ((c, d), read) ↦ ground (arith, take_exact_sound n xs read)
]

pub take_exact-short : (n : ℕ) (xs : List ℕ) → length xs < n → take_exact n xs ≡ none
unfolding take_exact
take_exact-short zero xs h = absurd (omega arith)
take_exact-short (suc n) [] h = refl
take_exact-short (suc n) (x ∷ xs) h = ground (arith, take_exact-short n xs)

pub take_exact-long :
    (n : ℕ) (xs : List ℕ)
    → n ≤ length xs
    → (a : List ℕ) × (b : List ℕ) × (take_exact n xs ≡ some (a, b))
unfolding take_exact
take_exact-long zero xs h = ([], xs, refl)
take_exact-long (suc n) [] h = absurd (omega arith)
take_exact-long (suc n) (x ∷ xs) h =
    let (a, b, e) = take_exact-long n xs (omega arith) in (x ∷ a, b, ground arith)

pub uint32-le32 : (n : ℕ) → n < 4294967296 → uint32 (le32 n) 0 ≡ n
uint32-le32 n h = omega arith

pub le32-uint32 :
    (a b c d : ℕ)
    → AllBytes (a ∷ (b ∷ (c ∷ (d ∷ []))))
    → le32 (uint32 (a ∷ (b ∷ (c ∷ (d ∷ [])))) 0) ≡ a ∷ (b ∷ (c ∷ (d ∷ [])))
le32-uint32 a b c d h = ground arith
