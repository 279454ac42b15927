-- ===== src/Processing/Waveform/Pieces.antt =====
-- How the decoder cuts its output into reads makes no difference.
use mathlib.Core.List.{append_assoc, append-nil}
use blueprint_audio_backend.Common.{
  ℕ, List, [], ◌∷◌, ◌++◌, ◌≡◌, sym, refl, arith, inl, inr, length, ◌<◌, Bool,
}
use blueprint_audio_backend.Db.{ok}
use blueprint_audio_backend.Db.Results.{◌>>=◌, Result-cases}
use blueprint_audio_backend.Processing.Waveform.{
  State, level, add_frame, add_frames, add_reads, decode_chunks, start,
}

-- a loop that goes on with the bytes that another has left
add_frames-append :
    (rate : ℕ) (xs ys : List ℕ) (s : State)
    → add_frames rate (xs ++ ys) s
      ≡ (add_frames rate xs s >>= λ (s', pending). add_frames rate (pending ++ ys) s')
unfolding add_frames
add_frames-append rate [] ys s = refl
add_frames-append rate (a ∷ []) ys s = refl
add_frames-append rate (a ∷ (b ∷ [])) ys s = refl
add_frames-append rate (a ∷ (b ∷ (c ∷ []))) ys s = refl
add_frames-append rate (a ∷ (b ∷ (c ∷ (d ∷ xs)))) ys s =
    elim (Result-cases (add_frame rate (level a b c d) s)) [
      | inl (e, fails) ↦ rw fails
      | inr (s', adds) ↦ rw adds (add_frames-append rate xs ys s')
    ]

abbrev pub concat : List (List ℕ) → List ℕ
concat [] = []
concat (xs ∷ xss) = xs ++ concat xss

-- the bytes that the loop leaves are less than a frame
add_frames-left :
    (rate : ℕ) (xs : List ℕ) (s s' : State) (left : List ℕ)
    → add_frames rate xs s ≡ ok (s', left)
    → length left < 4
unfolding add_frames
add_frames-left rate [] s s' left h = grind arith
add_frames-left rate (a ∷ []) s s' left h = grind arith
add_frames-left rate (a ∷ (b ∷ [])) s s' left h = grind arith
add_frames-left rate (a ∷ (b ∷ (c ∷ []))) s s' left h = grind arith
add_frames-left rate (a ∷ (b ∷ (c ∷ (d ∷ xs)))) s s' left h =
    elim (Result-cases (add_frame rate (level a b c d) s)) [
      | inl (e, fails) ↦ grind arith
      | inr (t, adds) ↦ add_frames-left rate xs t s' left (grind arith)
    ]

pub add_frames-short :
    (rate : ℕ) (xs : List ℕ) (s : State) → length xs < 4 → add_frames rate xs s ≡ ok (s, xs)
unfolding add_frames
add_frames-short rate [] s h = refl
add_frames-short rate (a ∷ []) s h = refl
add_frames-short rate (a ∷ (b ∷ [])) s h = refl
add_frames-short rate (a ∷ (b ∷ (c ∷ []))) s h = refl
add_frames-short rate (a ∷ (b ∷ (c ∷ (d ∷ xs)))) s h = absurd (ground arith)

-- The loop over the decoder's reads is the loop over all its bytes, however they are cut.
pub add_reads-concat :
    (rate : ℕ) (reads : List (List ℕ)) (pending : List ℕ) (s : State)
    → length pending < 4
    → add_reads rate reads pending s ≡ add_frames rate (pending ++ concat reads) s
unfolding add_reads
add_reads-concat rate [] pending s short =
    rw (append-nil pending) (sym (add_frames-short rate pending s short))
add_reads-concat rate (bytes ∷ reads) pending s short =
    let one : add_frames rate (pending ++ (bytes ++ concat reads)) s ≡ (
        add_frames rate (pending ++ bytes) s >>= λ (s', left).
        add_frames rate (left ++ concat reads) s') =
      rw (sym (append_assoc pending bytes (concat reads)))
        (add_frames-append rate (pending ++ bytes) (concat reads) s) in
    elim (Result-cases (add_frames rate (pending ++ bytes) s)) [
      | inl (e, fails) ↦ rw one (rw fails refl)
      | inr ((s', left), adds) ↦ rw one (
          rw adds (
            add_reads-concat rate reads left s'
              (add_frames-left rate (pending ++ bytes) s s' left adds)))
    ]

-- What AnalyzeMP3 reads does not depend on how the decoder cuts its output into reads, within the
-- frames or between them: the chunks, or the error, are those of a single read.
pub decode_chunks-concat :
    (rate : ℕ) (reads : List (List ℕ)) (failed : Bool)
    → decode_chunks rate reads failed ≡ decode_chunks rate (concat reads ∷ []) failed
unfolding decode_chunks
decode_chunks-concat rate reads failed =
    let cut = add_reads-concat rate reads [] (start rate) (omega arith) in
    let whole = add_reads-concat rate (concat reads ∷ []) [] (start rate) (omega arith) in
    rw cut (rw whole (rw (append-nil (concat reads)) refl))
