-- ===== src/Processing/Waveform/Sums.antt =====
-- What the chunks of a decoded preview add up to.
use Prim.Native.Nat.{◌^◌}
use blueprint_audio_backend.Common.{
  ℕ, ◌+◌, ◌*◌, ◌<◌, ◌≤◌, Bool, true, false, List, [], ◌∷◌, ◌++◌, ◌≡◌, arith, inl, inr, refl, length,
  ltb, leb, All, sym, ◌∙◌, ◌==◌, Bool-cases, if◌then◌else◌, subst,
}
use blueprint_audio_backend.Db.{ok}
use blueprint_audio_backend.Db.Results.{Result-cases}
use blueprint_audio_backend.Processing.Waveform.{
  State, level, merge_pairs, flush_chunk, counted, add_frame, add_frames, add_reads, decode_chunks,
  start, u64, no_frames, validate_decoded_mp3_frame_count, max_waveform_chunks,
}
use blueprint_audio_backend.Processing.Waveform.Pieces.{add_frames-short, concat, add_reads-concat}
use blueprint_audio_backend.Processing.Waveform.Totals.{
  total_sum, total_count, levels, total, IsFull, level_le, total_sum-append, total_count-append,
  merge_pairs-total_sum, merge_pairs-total_count, merge_pairs-length, merge_pairs-IsFull,
  All-append_one, length-append_one,
}

-- the chunks hold the frames whose levels add up to `amplitude`
pub record Holds (amplitude : ℕ) (s : State) : Type 0 where
  pub sums : total_sum s.chunks + s.chunk.sum ≡ amplitude
  pub counts : total_count s.chunks + s.chunk.count ≡ s.total_frames
  pub level_bound : amplitude ≤ 32768 * s.total_frames
  pub chunk_bound : s.chunk.sum ≤ 32768 * s.chunk.count
  pub few : length s.chunks < 16384
  pub full : All IsFull s.chunks

appended-Holds :
    (amplitude n : ℕ) (s : State)
    → (s.chunk.count == 0) ≡ false
    → length (s.chunks ++ s.chunk ∷ []) < 16384
    → Holds amplitude s
    → Holds amplitude
        (record s { chunks = s.chunks ++ s.chunk ∷ []; chunk = no_frames; chunk_frames = n })
appended-Holds amplitude n s some room h =
    let last = All-append_one s.chunks s.chunk h.full (ground arith, h.chunk_bound) in
    let sum = total_sum-append s.chunks (s.chunk ∷ []) in
    let count = total_count-append s.chunks (s.chunk ∷ []) in
    record {
      sums = ground arith;
      counts = ground arith;
      level_bound = h.level_bound;
      chunk_bound = omega arith;
      few = room;
      full = last;
    }

merged-Holds :
    (amplitude n : ℕ) (s : State)
    → s.total_frames < 2 ^ 48
    → (s.chunk.count == 0) ≡ false
    → Holds amplitude s
    → Holds amplitude (record s {
      chunks = merge_pairs (s.chunks ++ s.chunk ∷ []);
      chunk = no_frames;
      chunk_frames = n;
    })
merged-Holds amplitude n s short some h =
    let last = All-append_one s.chunks s.chunk h.full (ground arith, h.chunk_bound) in
    let sum = total_sum-append s.chunks (s.chunk ∷ []) in
    let count = total_count-append s.chunks (s.chunk ∷ []) in
    let size = length-append_one s.chunks s.chunk in
    let sum_bound : total_sum (s.chunks ++ s.chunk ∷ []) < u64 = ground arith in
    let count_bound : total_count (s.chunks ++ s.chunk ∷ []) < u64 = ground arith in
    let merged_sum = merge_pairs-total_sum (s.chunks ++ s.chunk ∷ []) sum_bound in
    let merged_count = merge_pairs-total_count (s.chunks ++ s.chunk ∷ []) count_bound in
    let merged_size = merge_pairs-length (s.chunks ++ s.chunk ∷ []) in
    record {
      sums = ground arith;
      counts = ground arith;
      level_bound = h.level_bound;
      chunk_bound = omega arith;
      few = ground arith;
      full = merge_pairs-IsFull (s.chunks ++ s.chunk ∷ []) sum_bound count_bound last;
    }

flush_chunk-Holds :
    (amplitude : ℕ) (s : State)
    → s.total_frames < 2 ^ 48
    → Holds amplitude s
    → Holds amplitude (flush_chunk s)
unfolding flush_chunk
flush_chunk-Holds amplitude s short h = elim (Bool-cases (s.chunk.count == 0)) [
  | inl none ↦ rw none h
  | inr some ↦ elim (Bool-cases (ltb (length (s.chunks ++ s.chunk ∷ [])) max_waveform_chunks)) [
    | inl room ↦ rw some (rw room (appended-Holds amplitude s.chunk_frames s some (ground arith) h))
    | inr many ↦ rw some (rw many (merged-Holds amplitude (s.chunk_frames * 2) s short some h))
  ]
]

counted-Holds :
    (amplitude x : ℕ) (s : State)
    → s.total_frames < 2 ^ 48
    → x ≤ 32768
    → Holds amplitude s
    → Holds (amplitude + x) (counted x s)
counted-Holds amplitude x s short h_x h =
    let sum_bound : s.chunk.sum + x < u64 = ground arith in
    let count_bound : s.chunk.count + 1 < u64 = ground arith in
    record {
      sums = ground arith;
      counts = ground arith;
      level_bound = ground arith;
      chunk_bound = ground arith;
      few = h.few;
      full = h.full;
    }

flush_chunk-total_frames : (s : State) → (flush_chunk s).total_frames ≡ s.total_frames
unfolding flush_chunk
flush_chunk-total_frames s = ground arith

flush_if-Holds :
    (amplitude : ℕ) (c : Bool) (s : State)
    → s.total_frames < 2 ^ 48
    → Holds amplitude s
    → Holds amplitude (if c then flush_chunk s else s)
flush_if-Holds amplitude true s short h = flush_chunk-Holds amplitude s short h
flush_if-Holds amplitude false s short h = h

flush_if-total_frames :
    (c : Bool) (s : State) → (if c then flush_chunk s else s).total_frames ≡ s.total_frames
flush_if-total_frames true s = flush_chunk-total_frames s
flush_if-total_frames false s = refl

add_frame_ok :
    (rate x : ℕ) (s s' : State)
    → add_frame rate x s ≡ ok s'
    → (s.total_frames + 1 ≤ rate * 1800)
      × (s' ≡ (
          if leb s.chunk_frames (counted x s).chunk.count
          then flush_chunk (counted x s)
          else counted x s))
unfolding add_frame validate_decoded_mp3_frame_count
add_frame_ok rate x s s' adds = ground arith

-- a frame that is added is within the limit, and the chunks hold it
add_frame-Holds :
    (rate amplitude x : ℕ) (s s' : State)
    → rate < 2 ^ 32
    → x ≤ 32768
    → add_frame rate x s ≡ ok s'
    → Holds amplitude s
    → Holds (amplitude + x) s'
      × (s'.total_frames ≡ s.total_frames + 1)
      × (s'.total_frames ≤ rate * 1800)
add_frame-Holds rate amplitude x s s' h_rate h_x adds h =
    let (limit, is_next) = add_frame_ok rate x s s' adds in
    let flushes = leb s.chunk_frames (counted x s).chunk.count in
    let next = counted-Holds amplitude x s (omega arith) h_x h in
    rw is_next (
      flush_if-Holds (amplitude + x) flushes (counted x s) (omega arith) next,
      flush_if-total_frames flushes (counted x s),
      rw (flush_if-total_frames flushes (counted x s)) limit,
    )

-- `n` frames more are held, whose levels add up to `amplitude` with those before
abbrev pub HoldsAfter : ℕ → ℕ → ℕ → State → State → Type 0
HoldsAfter rate amplitude n s s' =
    Holds amplitude s' × (s'.total_frames ≡ s.total_frames + n) × (s'.total_frames ≤ rate * 1800)

no_frame-Holds :
    (rate amplitude : ℕ) (pending left : List ℕ) (s s' : State)
    → length pending < 4
    → add_frames rate pending s ≡ ok (s', left)
    → s.total_frames ≤ rate * 1800
    → Holds amplitude s
    → HoldsAfter rate (amplitude + 0) 0 s s'
no_frame-Holds rate amplitude pending left s s' short adds limit h =
    let same = add_frames-short rate pending s short in
    let is_s : s' ≡ s = grind arith in
    let zero_more : amplitude + 0 ≡ amplitude = omega arith in
    rw is_s (rw zero_more h, omega arith, limit)

add_frames-Holds :
    (rate amplitude : ℕ) (bytes left : List ℕ) (s s' : State)
    → rate < 2 ^ 32
    → add_frames rate bytes s ≡ ok (s', left)
    → s.total_frames ≤ rate * 1800
    → Holds amplitude s
    → HoldsAfter rate (amplitude + total (levels bytes)) (length (levels bytes)) s s'
unfolding add_frames
add_frames-Holds rate amplitude [] left s s' h_rate adds limit h =
    no_frame-Holds rate amplitude [] left s s' (omega arith) adds limit h
add_frames-Holds rate amplitude (a ∷ []) left s s' h_rate adds limit h =
    no_frame-Holds rate amplitude (a ∷ []) left s s' (omega arith) adds limit h
add_frames-Holds rate amplitude (a ∷ (b ∷ [])) left s s' h_rate adds limit h =
    no_frame-Holds rate amplitude (a ∷ (b ∷ [])) left s s' (omega arith) adds limit h
add_frames-Holds rate amplitude (a ∷ (b ∷ (c ∷ []))) left s s' h_rate adds limit h =
    no_frame-Holds rate amplitude (a ∷ (b ∷ (c ∷ []))) left s s' (omega arith) adds limit h
add_frames-Holds rate amplitude (a ∷ (b ∷ (c ∷ (d ∷ bytes)))) left s s' h_rate adds limit h =
    elim (Result-cases (add_frame rate (level a b c d) s)) [
      | inl (e, fails) ↦ absurd (grind arith)
      | inr (t, added) ↦
          let (next, t_frames, t_limit) =
            add_frame-Holds rate amplitude (level a b c d) s t h_rate (level_le a b c d) added h in
          let rest : add_frames rate bytes t ≡ ok (s', left) = grind arith in
          let (all, frames, bound) =
            add_frames-Holds rate (amplitude + level a b c d) bytes left t s' h_rate rest t_limit
              next in
          let assoc : amplitude + level a b c d + total (levels bytes)
              ≡ amplitude + (level a b c d + total (levels bytes)) =
            omega arith in
          (subst (λ x. Holds x s') assoc all, omega arith, bound)
    ]

start-Holds : (rate : ℕ) → Holds 0 (start rate)
start-Holds rate = record {
  sums = refl;
  counts = refl;
  level_bound = omega arith;
  chunk_bound = omega arith;
  few = omega arith;
  full = tt;
}

flush_chunk-count : (s : State) → (flush_chunk s).chunk.count ≡ 0
unfolding flush_chunk
flush_chunk-count s = ground arith

decode_chunks_ok :
    (rate : ℕ) (reads : List (List ℕ)) (failed : Bool) (s : State)
    → decode_chunks rate reads failed ≡ ok s
    → (t : State) × ((left : List ℕ) × (add_reads rate reads [] (start rate) ≡ ok (t, left)))
      × (s ≡ flush_chunk t)
      × (failed ≡ false)
      × (0 < s.total_frames)
      × (0 < length s.chunks)
unfolding decode_chunks
decode_chunks_ok rate reads failed s h =
    elim (Result-cases (add_reads rate reads [] (start rate))) [
      | inl (e, fails) ↦ absurd (grind arith)
      | inr ((t, left), adds) ↦
          (t, (left, adds), grind arith, ground arith, grind arith, grind arith)
    ]

-- Where AnalyzeMP3 goes on with its chunks, they hold all frames of the preview.
pub decode_chunks-sums :
    (rate : ℕ) (reads : List (List ℕ)) (failed : Bool) (s : State)
    → rate < 2 ^ 32
    → decode_chunks rate reads failed ≡ ok s
    → (total_sum s.chunks ≡ total (levels (concat reads)))
      × (total_count s.chunks ≡ length (levels (concat reads)))
      × (total_count s.chunks ≡ s.total_frames)
      × (0 < s.total_frames)
      × (s.total_frames ≤ rate * 1800)
      × (0 < length s.chunks)
      × (length s.chunks < 16384)
      × All IsFull s.chunks
decode_chunks-sums rate reads failed s h_rate h =
    let (t, (left, adds), is_s, no_failure, frames, some) =
      decode_chunks_ok rate reads failed s h in
    let whole = sym (add_reads-concat rate reads [] (start rate) (omega arith)) ∙ adds in
    let (holds, count, limit) =
      add_frames-Holds rate 0 (concat reads) left (start rate) t h_rate whole (omega arith)
        (start-Holds rate) in
    let done : Holds (total (levels (concat reads))) s = rw is_s (
      flush_chunk-Holds (total (levels (concat reads))) t (omega arith)
        (subst (λ x. Holds x t) (omega arith) holds)) in
    let is_empty : s.chunk.count ≡ 0 = rw is_s (flush_chunk-count t) in
    let same : s.total_frames ≡ t.total_frames = rw is_s (flush_chunk-total_frames t) in
    (omega arith, omega arith, omega arith, frames, omega arith, some, done.few, done.full)
