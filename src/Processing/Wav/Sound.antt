-- ===== src/Processing/Wav/Sound.antt =====
-- Every object that passes is a WAV file.
use Prim.Native.Nat.{◌%◌}
use mathlib.Core.List.{append_assoc}
use blueprint_audio_backend.Common.{
  ℕ, zero, suc, ◌+◌, ◌-◌, ◌<◌, ◌≤◌, Bool, some, List, [], ◌∷◌, ◌++◌, ◌≡◌, ◌∙◌, ap, sym, refl, subst,
  arith, length, All, Option-cases, Bool-cases, inl, inr,
}
use blueprint_audio_backend.Common.Strings.{text_eq}
use blueprint_audio_backend.Db.{ok}
use blueprint_audio_backend.Db.Results.{Result-cases}
use blueprint_audio_backend.Processing.Bytes.{take_exact, le32, uint32, discard, AllBytes}
use blueprint_audio_backend.Processing.Bytes.Laws.{take_exact_sound, le32-uint32, length-append}
use blueprint_audio_backend.Processing.Wav.{
  Found, WavError, tag_at, format_tag, data_tag, read_format, read_data, read_body, read_chunk,
  read_chunks,
}
use blueprint_audio_backend.Processing.Wav.Chunks.{
  Chunk, IsChunk, kind, encode_chunk, encode, chunk_size, total_size, after_chunk, final,
}
use blueprint_audio_backend.Processing.Wav.Accepts.{final-some, read_chunk_lem}

read_format_sound :
    (size : ℕ) (format : Bool) (content : List ℕ) {after : List ℕ}
    → read_format size format content ≡ ok after
    → (body : List ℕ) × (content ≡ body ++ after) × (length body ≡ size)
unfolding read_format
read_format_sound size format content {after} h = elim (Option-cases (take_exact 16 content)) [
  | inl short ↦ absurd (ground arith)
  | inr ((fields, rest), read) ↦ elim (Option-cases (take_exact (size - 16) rest)) [
    | inl short ↦ absurd (ground arith)
    | inr ((extension, left), skipped) ↦
        let (whole, n) = take_exact_sound 16 content read in
        let (whole', m) = take_exact_sound (size - 16) rest skipped in
        let same : left ≡ after = ground arith in
        (
          fields ++ extension,
          whole
              ∙ ap (λ r. fields ++ r) (whole' ∙ ap (λ r. extension ++ r) same)
              ∙ sym (append_assoc fields extension after),
          length-append fields extension ∙ ground (arith, n, m),
        )
  ]
]

discard_sound :
    (size : ℕ) (e : WavError) (content : List ℕ) {after : List ℕ}
    → discard size e content ≡ ok after
    → (body : List ℕ) × (content ≡ body ++ after) × (length body ≡ size)
discard_sound size e content {after} h = elim (Option-cases (take_exact size content)) [
  | inl short ↦ absurd (ground arith)
  | inr ((body, left), read) ↦
      let (whole, n) = take_exact_sound size content read in
      let same : left ≡ after = ground arith in (body, whole ∙ ap (λ r. body ++ r) same, n)
]

read_body_sound :
    (kind : List ℕ) (size : ℕ) (found : Found) (content : List ℕ) {found' : Found} {after : List ℕ}
    → read_body kind size found content ≡ ok (found', after)
    → (body : List ℕ) × (content ≡ body ++ after) × (length body ≡ size)
unfolding read_body read_data
read_body_sound kind size (format, audio) content {found'} {after} h =
    elim (Bool-cases (text_eq kind format_tag)) [
      | inl is_format ↦ read_format_sound size format content (ground arith)
      | inr other ↦ elim (Bool-cases (text_eq kind data_tag)) [
        | inl is_data ↦ discard_sound size WavError.no_data content (ground arith)
        | inr neither ↦ discard_sound size WavError.no_chunk content (ground arith)
      ]
    ]

pub AllBytes-append : (xs ys : List ℕ) → AllBytes (xs ++ ys) → AllBytes xs × AllBytes ys
AllBytes-append [] ys h = (tt, h)
AllBytes-append (x ∷ xs) ys h =
    let (before, after) = AllBytes-append xs ys h.1 in ((h.0, before), after)

-- a chunk's first eight bytes: its letters and its size
header_parts :
    (xs : List ℕ)
    → length xs ≡ 8
    → AllBytes xs
    → (a : ℕ) × (b : ℕ) × (c : ℕ) × (d : ℕ) × (xs ≡ a ∷ (b ∷ (c ∷ (d ∷ le32 (uint32 xs 4)))))
      × (uint32 xs 4 < 4294967296)
header_parts (a ∷ (b ∷ (c ∷ (d ∷ (e ∷ (f ∷ (g ∷ (h ∷ [])))))))) n bytes =
    (a, b, c, d, rw (le32-uint32 e f g h bytes.1.1.1.1), omega (arith, bytes))
header_parts xs n bytes = absurd (omega arith)

-- what a round of the loop has read: one chunk
abbrev ReadsChunk : ℕ → List ℕ → List ℕ → Type 0
ReadsChunk remaining content left =
    (c : Chunk) × IsChunk c × (content ≡ encode_chunk c ++ left) × (chunk_size c ≤ remaining)

-- the parts of a round that ends well
pub record Round (remaining : ℕ) (found found' : Found) (content left : List ℕ) (n : ℕ)
    : Type 0 where
  pub header : List ℕ
  pub rest : List ℕ
  pub after : List ℕ
  pub reads : take_exact 8 content ≡ some (header, rest)
  pub fits : 8 + (uint32 header 4 + uint32 header 4 % 2) ≤ remaining
  pub body : read_body (tag_at header 0) (uint32 header 4) found rest ≡ ok (found', after)
  pub padding : discard (uint32 header 4 % 2) WavError.no_padding after ≡ ok left
  pub count : n ≡ remaining - 8 - (uint32 header 4 + uint32 header 4 % 2)

pub read_chunk-Round :
    (remaining : ℕ) (found : Found) (content : List ℕ) {found' : Found} {left : List ℕ} {n : ℕ}
    → read_chunk remaining found content ≡ ok (found', left, n)
    → Round remaining found found' content left n
unfolding read_chunk
read_chunk-Round remaining found content {found'} {left} {n} h =
    elim (Option-cases (take_exact 8 content)) [
      | inl short ↦ absurd (ground (arith, h, short))
      | inr ((header, rest), reads) ↦
          let size = uint32 header 4 in
          elim (Result-cases (read_body (tag_at header 0) size found rest)) [
            | inl (e, fails) ↦ absurd (ground (arith, h, fails, reads))
            | inr ((found1, after), body) ↦
                elim (Result-cases (discard (size % 2) WavError.no_padding after)) [
                  | inl (e, fails) ↦ absurd (ground (arith, h, fails, reads, body))
                  | inr (left1, padding) ↦ record {
                    header = header;
                    rest = rest;
                    after = after;
                    reads = reads;
                    fits = ground (arith, h, reads, body, padding);
                    body = ground (arith, h, reads, body, padding);
                    padding = ground (arith, h, reads, body, padding);
                    count = ground (arith, h, reads, body, padding);
                  }
                ]
          ]
    ]

joined :
    (c : Chunk) (header rest after left : List ℕ) (size : ℕ)
    → header ≡ kind c ++ le32 size
    → length c.body ≡ size
    → rest ≡ c.body ++ after
    → after ≡ c.padding ++ left
    → header ++ rest ≡ encode_chunk c ++ left
joined c header rest after left size e1 e2 e3 e4 =
    ap (λ h. h ++ rest) e1
    ∙ rw (e2, e3, e4)
        (ap (λ r. kind c ++ (le32 size ++ r)) (sym (append_assoc c.body c.padding left)))

read_chunk_sound :
    (remaining : ℕ) (found : Found) (content : List ℕ) {found' : Found} {left : List ℕ} {n : ℕ}
    → AllBytes content
    → read_chunk remaining found content ≡ ok (found', left, n)
    → ReadsChunk remaining content left
read_chunk_sound remaining found content {found'} {left} {n} bytes h =
    let r = read_chunk-Round remaining found content h in
    let (whole, eight) = take_exact_sound 8 content r.reads in
    let (k1, k2, k3, k4, header, small) =
      header_parts r.header eight
        (AllBytes-append r.header r.rest (subst AllBytes whole bytes)).0 in
    let (body, e3, n3) = read_body_sound _ _ found r.rest r.body in
    let (padding, e4, n4) = discard_sound _ WavError.no_padding r.after r.padding in
    let c : Chunk = record {
      first = k1;
      second = k2;
      third = k3;
      fourth = k4;
      body = body;
      padding = padding;
    } in
    (
      c,
      record { fits = omega (arith, n3, small); padded = ground (arith, n3, n4) },
      whole ∙ joined c r.header r.rest r.after left (uint32 r.header 4) header n3 e3 e4,
      omega (arith, n3, r.fits),
    )

-- what the loop has read: chunks that leave `rest`
abbrev pub ReadsChunks : ℕ → Found → List ℕ → Found → Type 0
ReadsChunks remaining found content found' =
    (chunks : List Chunk) × (rest : List ℕ) × All IsChunk chunks
    × (content ≡ encode chunks ++ rest)
    × (total_size chunks ≡ remaining)
    × (final found chunks ≡ some found')

Round-after :
    (remaining : ℕ) (found : Found) (c : Chunk) (left left' : List ℕ) {found' : Found} {n : ℕ}
    → IsChunk c
    → chunk_size c ≤ remaining
    → read_chunk remaining found (encode_chunk c ++ left') ≡ ok (found', left, n)
    → (after_chunk found c ≡ some found') × (n ≡ remaining - chunk_size c)
Round-after remaining found c left left' v le h =
    let here = read_chunk_lem c found left' remaining v le in
    elim (Option-cases (after_chunk found c)) [
      | inl none_after ↦ absurd (ground (arith, here, h, none_after))
      | inr (found1, after) ↦ ground (arith, here, h, after)
    ]

pub read_chunks_sound :
    (fuel remaining : ℕ) (found : Found) (content : List ℕ) {found' : Found}
    → AllBytes content
    → read_chunks fuel remaining found content ≡ ok found'
    → ReadsChunks remaining found content found'
unfolding read_chunks
read_chunks_sound fuel zero found content bytes h = ([], content, tt, refl, refl, ground arith)
read_chunks_sound zero (suc r) found content bytes h = absurd (ground arith)
read_chunks_sound (suc fuel) (suc r) found content bytes h =
    elim (Result-cases (read_chunk (suc r) found content)) [
      | inl (e, fails) ↦ absurd (ground (arith, h, fails))
      | inr ((found1, left, n), reads) ↦
          let (c, v, e, le) = read_chunk_sound (suc r) found content bytes reads in
          let (after, count) =
            Round-after (suc r) found c left left v le
              (ap (read_chunk (suc r) found) (sym e) ∙ reads) in
          let bytes' = (AllBytes-append (encode_chunk c) left (subst AllBytes e bytes)).1 in
          let (chunks, rest, vs, e', total, end) =
            read_chunks_sound fuel n found1 left bytes' (ground (arith, h, reads)) in
          (
            c ∷ chunks,
            rest,
            (v, vs),
            e
                ∙ ap (λ t. encode_chunk c ++ t) e'
                ∙ sym (append_assoc (encode_chunk c) (encode chunks) rest),
            omega (arith, count, total, le),
            final-some found found1 c chunks after ∙ end,
          )
    ]
