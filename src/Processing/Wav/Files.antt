-- ===== src/Processing/Wav/Files.antt =====
-- Which objects validateWAV accepts.
use mathlib.Core.List.{append-nil}
use blueprint_audio_backend.Common.{
  ℕ, zero, suc, ◌+◌, ◌-◌, ◌<◌, ◌≤◌, Bool, true, false, some, List, [], ◌∷◌, ◌++◌, ◌≡◌, ◌≢◌, ◌↔◌,
  ◌∙◌, ap, sym, refl, subst, arith, ◌&&◌, length, text, All, Option-cases, inl, inr,
}
use blueprint_audio_backend.Common.Strings.{text_eq, text_eq_iff}
use blueprint_audio_backend.Db.{Result, ok, err}
use blueprint_audio_backend.Db.Results.{Result-cases}
use blueprint_audio_backend.Processing.Bytes.{take_exact, le32, is_ok, uint32, AllBytes}
use blueprint_audio_backend.Processing.Bytes.Laws.{take_exact_sound, le32-uint32, length-append}
use blueprint_audio_backend.Processing.Wav.{
  Found, WavError, tag_at, check_format, read_format, read_data, read_body, read_chunk, read_chunks,
  validate_wav,
}
use blueprint_audio_backend.Processing.Wav.Chunks.{
  Chunk, IsChunk, encode_chunk, encode, total_size, wav_file, is_playable, found_both,
}
use blueprint_audio_backend.Processing.Wav.Accepts.{validate_wav-file}
use blueprint_audio_backend.Processing.Wav.Sound.{
  read_chunk-Round, read_chunks_sound, AllBytes-append,
}

length-encode :
    (chunks : List Chunk) → All IsChunk chunks → length (encode chunks) ≡ total_size chunks
length-encode [] v = refl
length-encode (c ∷ chunks) v =
    length-append (encode_chunk c) (encode chunks)
    ∙ omega (arith, length-append c.body c.padding, v.0.padded, length-encode chunks v.1)

no_bytes : (xs : List ℕ) → length xs ≡ 0 → xs ≡ []
no_bytes [] h = refl
no_bytes (x ∷ xs) h = absurd (omega arith)

-- the first twelve bytes of a file: its letters and its size
file_header :
    (xs : List ℕ)
    → length xs ≡ 12
    → AllBytes xs
    → text_eq (tag_at xs 0) (text "RIFF") ≡ true
    → text_eq (tag_at xs 8) (text "WAVE") ≡ true
    → (xs ≡ text "RIFF" ++ (le32 (uint32 xs 4) ++ text "WAVE")) × (uint32 xs 4 < 4294967296)
file_header (a ∷ (b ∷ (c ∷ (d ∷ (e ∷ (f ∷ (g ∷ (h ∷ (i ∷ (j ∷ (k ∷ (l ∷ [])))))))))))) n bytes t
      t' =
    (
      ap (λ kind. kind ++ (e ∷ (f ∷ (g ∷ (h ∷ (i ∷ (j ∷ (k ∷ (l ∷ [])))))))))
            ((text_eq_iff (a ∷ (b ∷ (c ∷ (d ∷ [])))) (text "RIFF")).0 t)
          ∙ ap (λ bytes. text "RIFF" ++ (bytes ++ (i ∷ (j ∷ (k ∷ (l ∷ []))))))
              (sym (
                le32-uint32 e f g h
                  (AllBytes-append (e ∷ (f ∷ (g ∷ (h ∷ [])))) (i ∷ (j ∷ (k ∷ (l ∷ []))))
                    bytes.1.1.1.1).0))
          ∙ ap (λ kind. text "RIFF" ++ (le32 (uint32 (e ∷ (f ∷ (g ∷ (h ∷ [])))) 0) ++ kind))
              ((text_eq_iff (i ∷ (j ∷ (k ∷ (l ∷ [])))) (text "WAVE")).0 t'),
      omega (arith, bytes),
    )
file_header xs n bytes t t' = absurd (omega arith)

-- the parts of an object that passes
record Whole (size : ℕ) (content : List ℕ) : Type 0 where
  header : List ℕ
  rest : List ℕ
  format : Bool
  audio : Bool
  reads : take_exact 12 content ≡ some (header, rest)
  riff : text_eq (tag_at header 0) (text "RIFF") ≡ true
  wave : text_eq (tag_at header 8) (text "WAVE") ≡ true
  sized : uint32 header 4 + 8 ≡ size
  large : 4 ≤ uint32 header 4
  chunks :
      read_chunks (uint32 header 4 - 4) (uint32 header 4 - 4) (false, false) rest
      ≡ ok (format, audio)
  both : (format && audio) ≡ true

validate_wav-Whole :
    (size : ℕ) (content : List ℕ) → validate_wav size content ≡ ok tt → Whole size content
unfolding validate_wav
validate_wav-Whole size content h = elim (Option-cases (take_exact 12 content)) [
  | inl short ↦ absurd (ground (arith, h, short))
  | inr ((header, rest), reads) ↦
      let n = uint32 header 4 - 4 in
      elim (Result-cases (read_chunks n n (false, false) rest)) [
        | inl (e, fails) ↦ absurd (ground (arith, h, reads, fails))
        | inr ((format, audio), chunks) ↦ record {
          header = header;
          rest = rest;
          format = format;
          audio = audio;
          reads = reads;
          riff = ground (arith, h, reads, chunks);
          wave = ground (arith, h, reads, chunks);
          sized = ground (arith, h, reads, chunks);
          large = ground (arith, h, reads, chunks);
          chunks = chunks;
          both = ground (arith, h, reads, chunks);
        }
      ]
]

file-parts :
    (chunks : List Chunk) (header rest left : List ℕ) (size : ℕ)
    → header ≡ text "RIFF" ++ (le32 size ++ text "WAVE")
    → size ≡ 4 + total_size chunks
    → rest ≡ encode chunks ++ left
    → left ≡ []
    → header ++ rest ≡ wav_file chunks
file-parts chunks header rest left size e1 e2 e3 e4 =
    rw (e1, e2, e3, e4)
      (ap (λ r. text "RIFF" ++ (le32 (4 + total_size chunks) ++ (text "WAVE" ++ r)))
        (append-nil (encode chunks)))

validate_wav_sound :
    (content : List ℕ)
    → AllBytes content
    → validate_wav (length content) content ≡ ok tt
    → (chunks : List Chunk) × All IsChunk chunks
      × (4 + total_size chunks < 4294967296)
      × (content ≡ wav_file chunks)
      × (is_playable chunks ≡ true)
validate_wav_sound content bytes h =
    let w = validate_wav-Whole (length content) content h in
    let (whole, twelve) = take_exact_sound 12 content w.reads in
    let (header_bytes, rest_bytes) = AllBytes-append w.header w.rest (subst AllBytes whole bytes) in
    let (header, small) = file_header w.header twelve header_bytes w.riff w.wave in
    let (chunks, left, v, e, total, end) =
      read_chunks_sound _ _ (false, false) w.rest rest_bytes w.chunks in
    let size : uint32 w.header 4 ≡ 4 + total_size chunks = omega (arith, total, w.large) in
    let nothing : left ≡ [] = no_bytes left (
      omega (
        arith,
        ap length whole,
        ap length e,
        length-append w.header w.rest,
        length-append (encode chunks) left,
        length-encode chunks v,
        w.sized,
        twelve,
        size,
      )) in
    (
      chunks,
      v,
      omega (arith, small, size),
      whole ∙ file-parts chunks w.header w.rest left _ header size e nothing,
      ap found_both end ∙ w.both,
    )

accepted : (m : Result WavError (Unit {0})) → is_ok m ≡ true → m ≡ ok tt
accepted (ok tt) h = refl
accepted (err e) h = absurd (ground arith)

-- validateWAV accepts an object's bytes, with their number as the object's size, exactly where
-- they are the file of a list of chunks, below 4 GiB, that holds one format chunk, whose format is
-- supported, and audio data, and no empty audio chunk.
pub validate_wav_iff :
    (content : List ℕ)
    → AllBytes content
    → (validate_wav (length content) content ≡ ok tt) ↔ (
        (chunks : List Chunk) × All IsChunk chunks
        × (4 + total_size chunks < 4294967296)
        × (content ≡ wav_file chunks)
        × (is_playable chunks ≡ true))
validate_wav_iff content bytes = (
  validate_wav_sound content bytes,
  λ (chunks, v, fits, e, p).
      let size : length content ≡ 12 + total_size chunks =
        ap length e ∙ omega (arith, length-encode chunks v) in
      accepted _ (
        subst (λ n. is_ok (validate_wav n content) ≡ true) (sym size)
          (subst (λ bytes. is_ok (validate_wav (12 + total_size chunks) bytes) ≡ true) (sym e)
            (validate_wav-file chunks v fits ∙ p))),
)

-- A round of the loop leaves less to read, and its own errors do not say that the rounds are used up.
read_chunk-shrinks :
    (remaining : ℕ) (found : Found) (content : List ℕ) {found' : Found} {left : List ℕ} {n : ℕ}
    → read_chunk remaining found content ≡ ok (found', left, n)
    → suc n ≤ remaining
read_chunk-shrinks remaining found content h =
    let r = read_chunk-Round remaining found content h in omega (arith, r.fits, r.count)

check_format-fuel : (fields : List ℕ) → check_format fields ≢ err WavError.out_of_fuel
unfolding check_format
check_format-fuel fields h = absurd (ground arith)

read_format-fuel :
    (size : ℕ) (format : Bool) (content : List ℕ)
    → read_format size format content ≢ err WavError.out_of_fuel
unfolding read_format
read_format-fuel size format content h = elim (Option-cases (take_exact 16 content)) [
  | inl short ↦ absurd (ground arith)
  | inr ((fields, rest), read) ↦ elim (Result-cases (check_format fields)) [
    | inl (e, fails) ↦ check_format-fuel fields (ground (arith, h, read, fails))
    | inr (done, checked) ↦ absurd (ground (arith, h, read, checked))
  ]
]

read_body-fuel :
    (kind : List ℕ) (size : ℕ) (found : Found) (content : List ℕ)
    → read_body kind size found content ≢ err WavError.out_of_fuel
unfolding read_body read_data
read_body-fuel kind size (format, audio) content h =
    absurd (ground (arith, read_format-fuel size format content))

read_chunk-fuel :
    (remaining : ℕ) (found : Found) (content : List ℕ)
    → read_chunk remaining found content ≢ err WavError.out_of_fuel
unfolding read_chunk
read_chunk-fuel remaining found content h = elim (Option-cases (take_exact 8 content)) [
  | inl short ↦ absurd (ground (arith, h, short))
  | inr ((header, rest), reads) ↦
      elim (Result-cases (read_body (tag_at header 0) (uint32 header 4) found rest)) [
        | inl (e, fails) ↦
            read_body-fuel (tag_at header 0) (uint32 header 4) found rest
              (ground (arith, h, reads, fails))
        | inr (r, body) ↦ absurd (ground (arith, h, reads, body))
      ]
]

read_chunks-fuel :
    (fuel remaining : ℕ) (found : Found) (content : List ℕ)
    → remaining ≤ fuel
    → read_chunks fuel remaining found content ≢ err WavError.out_of_fuel
unfolding read_chunks
read_chunks-fuel fuel zero found content le h = absurd (ground arith)
read_chunks-fuel zero (suc r) found content le h = absurd (omega arith)
read_chunks-fuel (suc fuel) (suc r) found content le h =
    elim (Result-cases (read_chunk (suc r) found content)) [
      | inl (e, fails) ↦ read_chunk-fuel (suc r) found content (ground (arith, h, fails))
      | inr ((found1, left, n), reads) ↦
          read_chunks-fuel fuel n found1 left
            (omega (arith, read_chunk-shrinks (suc r) found content reads))
            (ground (arith, h, reads))
    ]

-- The loop over the chunks comes to its end on every input: the bound on its rounds is never met.
pub validate_wav_total :
    (size : ℕ) (content : List ℕ) → validate_wav size content ≢ err WavError.out_of_fuel
unfolding validate_wav
validate_wav_total size content h = elim (Option-cases (take_exact 12 content)) [
  | inl short ↦ absurd (ground (arith, h, short))
  | inr ((header, rest), reads) ↦
      let n = uint32 header 4 - 4 in
      elim (Result-cases (read_chunks n n (false, false) rest)) [
        | inl (e, fails) ↦
            read_chunks-fuel n n (false, false) rest (omega arith) (ground (arith, h, reads, fails))
        | inr ((format, audio), chunks) ↦ absurd (ground (arith, h, reads, chunks))
      ]
]
