-- ===== src/Processing/Wav/Accepts.antt =====
-- Every file that is built from chunks is read chunk by chunk.
use Prim.Native.Nat.{◌%◌}
use mathlib.Core.Option
use mathlib.Core.List.{append_assoc, append-nil}
use blueprint_audio_backend.Common.{
  ℕ, zero, suc, ◌+◌, ◌-◌, ◌<◌, ◌≤◌, Bool, true, false, none, some, List, [], ◌∷◌, ◌++◌, ◌≡◌, ◌∙◌,
  ap, sym, refl, subst, arith, not, ◌&&◌, length, if◌then◌else◌, text, All, Option-cases,
  Bool-cases, inl, inr, ltb,
}
use blueprint_audio_backend.Common.Strings.{text_eq}
use blueprint_audio_backend.Db.{Result, ok, err}
use blueprint_audio_backend.Processing.Bytes.{◌>>=◌, take_exact, le32, is_ok, to_option}
use blueprint_audio_backend.Processing.Bytes.Laws.{
  take_exact-length, take_exact-append, take_exact_sound, take_exact-short, take_exact-long,
  uint32-le32, length-append,
}
use blueprint_audio_backend.Processing.Wav.{
  Found, WavError, check_format, read_format, read_data, read_body, read_chunk, read_chunks,
  validate_wav,
}
use blueprint_audio_backend.Processing.Wav.Chunks.{
  Chunk, IsChunk, kind, encode_chunk, encode, chunk_size, total_size, wav_file, is_format,
  after_chunk, is_playable, final, found_both,
}

-- the format's fields and extension, read from a body that is long enough
read_format-long :
    (body rest a b : List ℕ)
    → take_exact 16 body ≡ some (a, b)
    → to_option (read_format (length body) false (body ++ rest))
      ≡ (if is_ok (check_format a) then some rest else none)
unfolding read_format
read_format-long body rest a b e =
    let (whole, sixteen) = take_exact_sound 16 body e in
    let size : length body ≡ 16 + length b =
      ap length whole ∙ length-append a b ∙ omega (arith, sixteen) in
    let left : length body - 16 ≡ length b = omega (arith, size) in
    rw left (ground (arith, take_exact-append 16 body rest e, take_exact-length b rest))

read_format_lem :
    (body rest : List ℕ) (format : Bool)
    → to_option (read_format (length body) format (body ++ rest))
      ≡ (if not format && is_format body then some rest else none)
unfolding read_format
read_format_lem body rest true = ground arith
read_format_lem body rest false = elim (Bool-cases (ltb (length body) 16)) [
  | inl short ↦ ground (arith, take_exact-short 16 body)
  | inr long ↦
      let (a, b, e) = take_exact-long 16 body (ground arith) in
      rw (e, is_format) (read_format-long body rest a b e)
]

read_body_lem :
    (c : Chunk) (found : Found) (rest : List ℕ)
    → to_option (read_body (kind c) (length c.body) found (c.body ++ rest))
      ≡ Option.map (λ found'. (found', rest)) (after_chunk found c)
unfolding read_body read_data
read_body_lem c (format, audio) rest =
    ground (arith, read_format_lem c.body rest format, take_exact-length c.body rest)

pub read_chunk_lem :
    (c : Chunk) (found : Found) (rest : List ℕ) (remaining : ℕ)
    → IsChunk c
    → chunk_size c ≤ remaining
    → to_option (read_chunk remaining found (encode_chunk c ++ rest))
      ≡ Option.map (λ found'. (found', rest, remaining - chunk_size c)) (after_chunk found c)
unfolding read_chunk take_exact
read_chunk_lem c found rest remaining v le =
    let n = length c.body in
    let size = uint32-le32 n v.fits in
    let body = append_assoc c.body c.padding rest in
    let padding : take_exact (n % 2) (c.padding ++ rest) ≡ some (c.padding, rest) =
      rw (← v.padded) (take_exact-length c.padding rest) in
    ground (arith, le, size, body, padding, read_body_lem c found (c.padding ++ rest))

pub to_option_ok : {A : Type 0} (m : Result WavError A) (a : A) → to_option m ≡ some a → m ≡ ok a
to_option_ok (ok b) a h = ground arith
to_option_ok (err e) a h = absurd (ground arith)

to_option-bind_none :
    {A B : Type 0} (m : Result WavError A) (f : A → Result WavError B)
    → to_option m ≡ none
    → to_option (m >>= f) ≡ none
to_option-bind_none (ok a) f h = absurd (ground arith)
to_option-bind_none (err e) f h = refl

to_option-bind_some :
    {A B : Type 0} (m : Result WavError A) (f : A → Result WavError B) (a : A)
    → m ≡ ok a
    → to_option (m >>= f) ≡ to_option (f a)
to_option-bind_some (ok b) f a h = ground (arith, h)
to_option-bind_some (err e) f a h = absurd (ground arith)

final-none :
    (found : Found) (c : Chunk) (chunks : List Chunk)
    → after_chunk found c ≡ none
    → final found (c ∷ chunks) ≡ none
final-none found c chunks h = ground arith

pub final-some :
    (found found' : Found) (c : Chunk) (chunks : List Chunk)
    → after_chunk found c ≡ some found'
    → final found (c ∷ chunks) ≡ final found' chunks
final-some found found' c chunks h = ground arith

pub read_chunks-pos :
    (fuel remaining : ℕ) (found : Found) (content : List ℕ)
    → 0 < remaining
    → read_chunks (suc fuel) remaining found content ≡ (
        read_chunk remaining found content >>= λ (found', rest, left).
        read_chunks fuel left found' rest)
unfolding read_chunks
read_chunks-pos fuel zero found content h = absurd (omega arith)
read_chunks-pos fuel (suc r) found content h = refl

pub read_chunks_lem :
    (chunks : List Chunk) (found : Found) (rest : List ℕ) (fuel : ℕ)
    → All IsChunk chunks
    → total_size chunks ≤ fuel
    → to_option (read_chunks fuel (total_size chunks) found (encode chunks ++ rest))
      ≡ final found chunks
unfolding read_chunks
read_chunks_lem [] found rest fuel v le = ground arith
read_chunks_lem (c ∷ chunks) found rest zero v le = absurd (omega arith)
read_chunks_lem (c ∷ chunks) found rest (suc fuel) v le =
    let total = total_size (c ∷ chunks) in
    let content = encode (c ∷ chunks) ++ rest in
    let tail = encode chunks ++ rest in
    let here : to_option (read_chunk total found content)
        ≡ Option.map (λ found'. (found', tail, total - chunk_size c)) (after_chunk found c) =
      rw (append_assoc (encode_chunk c) (encode chunks) rest)
        (read_chunk_lem c found tail total v.0 (omega arith)) in
    let left : total - chunk_size c ≡ total_size chunks = omega arith in
    let step = read_chunks-pos fuel total found content (omega arith) in
    elim (Option-cases (after_chunk found c)) [
      | inl none_after ↦
          let fails : to_option (read_chunk total found content) ≡ none = here ∙ rw none_after in
          ap to_option step
          ∙ to_option-bind_none _ _ fails
          ∙ sym (final-none found c chunks none_after)
      | inr (found', after) ↦
          let reads : read_chunk total found content ≡ ok (found', tail, total_size chunks) =
            to_option_ok _ _ (here ∙ rw (after, left)) in
          ap to_option step
          ∙ to_option-bind_some _ _ _ reads
          ∙ read_chunks_lem chunks found' rest fuel v.1 (omega arith)
          ∙ sym (final-some found found' c chunks after)
    ]

-- what the chunks to come must take where these parts are not found yet
abbrev pub missing : Found → ℕ
missing (format, audio) = (if format then 0 else 24) + (if audio then 0 else 9)

is_format-long : (body : List ℕ) → is_format body ≡ true → 16 ≤ length body
is_format-long body h = elim (Bool-cases (ltb (length body) 16)) [
  | inl short ↦ absurd (ground (arith, take_exact-short 16 body))
  | inr long ↦ ground arith
]

missing-after :
    (found found' : Found) (c : Chunk)
    → after_chunk found c ≡ some found'
    → missing found ≤ missing found' + chunk_size c
missing-after (format, audio) found' c h = ground (arith, is_format-long c.body)

missing-le :
    (chunks : List Chunk) (found : Found)
    → found_both (final found chunks) ≡ true
    → missing found ≤ total_size chunks
missing-le [] (format, audio) h = ground arith
missing-le (c ∷ chunks) found h = elim (Option-cases (after_chunk found c)) [
  | inl none_after ↦ absurd (ground (arith, final-none found c chunks none_after))
  | inr (found', after) ↦ omega (
    arith,
    missing-after found found' c after,
    missing-le chunks found' (ap found_both (sym (final-some found found' c chunks after)) ∙ h),
  )
]

pub validate_wav-header :
    (n : ℕ) (content : List ℕ)
    → 4 + n < 4294967296
    → is_ok (validate_wav (12 + n) (text "RIFF" ++ (le32 (4 + n) ++ (text "WAVE" ++ content))))
      ≡ (not (ltb (12 + n) 44) && found_both (to_option (read_chunks n n (false, false) content)))
unfolding validate_wav take_exact text_eq
validate_wav-header n content fits =
    let size = uint32-le32 (4 + n) fits in
    let riff : 4 + n - 4 ≡ n = omega arith in ground (arith, size, riff)

-- A file that is built from a list of chunks passes exactly when the list holds one format chunk,
-- whose format is supported, and audio data, and no empty audio chunk.
pub validate_wav-file :
    (chunks : List Chunk)
    → All IsChunk chunks
    → 4 + total_size chunks < 4294967296
    → is_ok (validate_wav (12 + total_size chunks) (wav_file chunks)) ≡ is_playable chunks
validate_wav-file chunks v fits =
    let n = total_size chunks in
    let read : to_option (read_chunks n n (false, false) (encode chunks))
        ≡ final (false, false) chunks =
      subst
        (λ bytes. to_option (read_chunks n n (false, false) bytes) ≡ final (false, false) chunks)
        (append-nil (encode chunks)) (read_chunks_lem chunks (false, false) [] n v (omega arith)) in
    validate_wav-header n (encode chunks) fits
    ∙ ground (arith, read, missing-le chunks (false, false))
