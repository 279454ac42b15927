-- ===== src/Processing/Waveform/Totals.antt =====
-- What chunks add up to, and that merging them keeps it.
use Prim.Native.Nat.{◌%◌}
use blueprint_audio_backend.Common.{
  ℕ, ◌+◌, ◌*◌, ◌<◌, ◌≤◌, List, [], ◌∷◌, ◌++◌, ◌≡◌, arith, refl, length, All,
}
use blueprint_audio_backend.Processing.Waveform.{Chunk, level, merge_pairs, u64}

abbrev pub total_sum : List Chunk → ℕ
total_sum [] = 0
total_sum (c ∷ cs) = c.sum + total_sum cs

abbrev pub total_count : List Chunk → ℕ
total_count [] = 0
total_count (c ∷ cs) = c.count + total_count cs

-- the levels of the complete frames
abbrev pub levels : List ℕ → List ℕ
levels (a ∷ (b ∷ (c ∷ (d ∷ rest)))) = level a b c d ∷ levels rest
levels pending = []

abbrev pub total : List ℕ → ℕ
total [] = 0
total (x ∷ xs) = x + total xs

-- a chunk of at least one frame
abbrev pub IsFull : Chunk → Type 0
IsFull c = (0 < c.count) × (c.sum ≤ 32768 * c.count)

pub level_le : (a b c d : ℕ) → level a b c d ≤ 32768
unfolding level
level_le a b c d = ground arith

pub total_sum-append : (cs ds : List Chunk) → total_sum (cs ++ ds) ≡ total_sum cs + total_sum ds
total_sum-append [] ds = omega arith
total_sum-append (c ∷ cs) ds = rw (total_sum-append cs ds) (omega arith)

pub total_count-append :
    (cs ds : List Chunk) → total_count (cs ++ ds) ≡ total_count cs + total_count ds
total_count-append [] ds = omega arith
total_count-append (c ∷ cs) ds = rw (total_count-append cs ds) (omega arith)

pub merge_pairs-total_sum :
    (cs : List Chunk) → total_sum cs < u64 → total_sum (merge_pairs cs) ≡ total_sum cs
unfolding merge_pairs
merge_pairs-total_sum [] h = refl
merge_pairs-total_sum (a ∷ []) h = refl
merge_pairs-total_sum (a ∷ (b ∷ cs)) h =
    let rest = merge_pairs-total_sum cs (omega arith) in omega arith

pub merge_pairs-total_count :
    (cs : List Chunk) → total_count cs < u64 → total_count (merge_pairs cs) ≡ total_count cs
unfolding merge_pairs
merge_pairs-total_count [] h = refl
merge_pairs-total_count (a ∷ []) h = refl
merge_pairs-total_count (a ∷ (b ∷ cs)) h =
    let rest = merge_pairs-total_count cs (omega arith) in omega arith

pub merge_pairs-length : (cs : List Chunk) → 2 * length (merge_pairs cs) ≤ length cs + 1
unfolding merge_pairs
merge_pairs-length [] = omega arith
merge_pairs-length (a ∷ []) = omega arith
merge_pairs-length (a ∷ (b ∷ cs)) = let rest = merge_pairs-length cs in omega arith

pub merge_pairs-IsFull :
    (cs : List Chunk)
    → total_sum cs < u64
    → total_count cs < u64
    → All IsFull cs
    → All IsFull (merge_pairs cs)
unfolding merge_pairs
merge_pairs-IsFull [] sums counts full = tt
merge_pairs-IsFull (a ∷ []) sums counts full = full
merge_pairs-IsFull (a ∷ (b ∷ cs)) sums counts (a_full, (b_full, full)) =
    let (a_some, a_sum) = a_full in
    let (b_some, b_sum) = b_full in
    let no_wrap : (a.count + b.count) % u64 ≡ a.count + b.count = omega arith in
    let sum : (a.sum + b.sum) % u64 ≡ a.sum + b.sum = omega arith in
    ((omega arith, omega arith), merge_pairs-IsFull cs (omega arith) (omega arith) full)

pub All-append_one :
    (cs : List Chunk) (c : Chunk) → All IsFull cs → IsFull c → All IsFull (cs ++ c ∷ [])
All-append_one [] c full h = (h, tt)
All-append_one (x ∷ cs) c (x_full, full) h = (x_full, All-append_one cs c full h)

pub length-append_one : (cs : List Chunk) (c : Chunk) → length (cs ++ c ∷ []) ≡ length cs + 1
length-append_one [] c = omega arith
length-append_one (x ∷ cs) c = let rest = length-append_one cs c in omega arith
