-- ===== src/Processing/Worker.antt =====
-- internal/modules/catalog/application/worker.go: a worker's identifier.
use mathlib.Core.List.{reverse, reverse-cons}
use blueprint_audio_backend.Common.{
  ℕ, zero, suc, ◌≤◌, Bool, true, false, [], ◌∷◌, ◌++◌, ◌==◌, ◌||◌, ◌&&◌, ◌≡◌, refl, arith, leb,
  length, if◌then◌else◌, Text, text, is_empty,
}
use blueprint_audio_backend.Common.Strings.{Unicode, trim_space}
use blueprint_audio_backend.Processing.Bytes.Laws.{length-append}

abbrev pub max_prefix_length : ℕ
max_prefix_length = 83

abbrev pub is_worker_char : ℕ → Bool
is_worker_char c =
    leb b'a' c && leb c b'z'
    || (leb b'A' c && leb c b'Z'
        || (leb b'0' c && leb c b'9' || (c == b'-' || (c == b'_' || c == b'.'))))

-- the loop, with the room that is left
unfoldable pub worker_chars : ℕ → Text → Text
worker_chars zero s = []
worker_chars (suc n) [] = []
worker_chars (suc n) (c ∷ s) = (if is_worker_char c then c else b'-') ∷ worker_chars n s

abbrev pub trim_left_dashes : Text → Text
trim_left_dashes [] = []
trim_left_dashes (c ∷ s) = let rest = trim_left_dashes s in if c == b'-' then rest else c ∷ s

-- strings.Trim(s, "-")
unfoldable pub trim_dashes : Text → Text
trim_dashes s = reverse (trim_left_dashes (reverse (trim_left_dashes s)))

unfoldable pub normalize_worker_prefix : Text → Text
normalize_worker_prefix value =
    let result = trim_dashes (worker_chars max_prefix_length value) in
    if is_empty result then text "worker" else result

-- StartUploadWorker's workerID, by the configuration's ID, the host's name and uuid.NewString()
unfoldable pub worker_id : Unicode → Text → Text → Text → Text
worker_id u configured host id =
    let prefix = trim_space u configured in
    normalize_worker_prefix (if is_empty prefix then host else prefix) ++ (text "-" ++ id)

abbrev pub all_worker_chars : Text → Bool
all_worker_chars [] = true
all_worker_chars (c ∷ s) = is_worker_char c && all_worker_chars s

worker_chars_lem :
    (n : ℕ) (s : Text)
    → (length (worker_chars n s) ≤ n) × (all_worker_chars (worker_chars n s) ≡ true)
unfolding worker_chars
worker_chars_lem zero s = (omega arith, refl)
worker_chars_lem (suc n) [] = (omega arith, refl)
worker_chars_lem (suc n) (c ∷ s) =
    let (short, clean) = worker_chars_lem n s in ground (arith, short, clean)

length-trim_left_dashes : (s : Text) → length (trim_left_dashes s) ≤ length s
length-trim_left_dashes [] = omega arith
length-trim_left_dashes (c ∷ s) = ground (arith, length-trim_left_dashes s)

clean-trim_left_dashes :
    (s : Text) → all_worker_chars s ≡ true → all_worker_chars (trim_left_dashes s) ≡ true
clean-trim_left_dashes [] h = refl
clean-trim_left_dashes (c ∷ s) h = ground (arith, clean-trim_left_dashes s)

all_worker_chars-append :
    (s t : Text) → all_worker_chars (s ++ t) ≡ (all_worker_chars s && all_worker_chars t)
all_worker_chars-append [] t = refl
all_worker_chars-append (c ∷ s) t = ground (arith, all_worker_chars-append s t)

all_worker_chars-reverse :
    (s : Text) → all_worker_chars s ≡ true → all_worker_chars (reverse s) ≡ true
all_worker_chars-reverse [] h = refl
all_worker_chars-reverse (c ∷ s) h =
    rw (reverse-cons c s)
      (ground (arith, all_worker_chars-append (reverse s) (c ∷ []), all_worker_chars-reverse s))

length-reverse : (s : Text) → length (reverse s) ≡ length s
length-reverse [] = refl
length-reverse (c ∷ s) =
    rw (reverse-cons c s) (omega (arith, length-append (reverse s) (c ∷ []), length-reverse s))

trim_dashes_lem :
    (s : Text)
    → all_worker_chars s ≡ true
    → (length (trim_dashes s) ≤ length s) × (all_worker_chars (trim_dashes s) ≡ true)
unfolding trim_dashes
trim_dashes_lem s h =
    let a = trim_left_dashes s in
    let b = trim_left_dashes (reverse a) in
    (
      omega (
        arith,
        length-reverse b,
        length-trim_left_dashes (reverse a),
        length-reverse a,
        length-trim_left_dashes s,
      ),
      all_worker_chars-reverse b (
          clean-trim_left_dashes (reverse a)
            (all_worker_chars-reverse a (clean-trim_left_dashes s h))),
    )

normalize_worker_prefix_lem :
    (value : Text)
    → (is_empty (normalize_worker_prefix value) ≡ false)
      × (length (normalize_worker_prefix value) ≤ 83)
      × (all_worker_chars (normalize_worker_prefix value) ≡ true)
unfolding normalize_worker_prefix
normalize_worker_prefix_lem value =
    let (short, clean) = worker_chars_lem 83 value in
    let (shorter, still) = trim_dashes_lem (worker_chars 83 value) clean in
    ground (arith, short, shorter, still)

-- Where a UUID takes 36 characters, of those that a worker's identifier may hold, a worker's
-- identifier has at most 120, the width of its column, and whatever the configuration and the
-- host's name are, all of them are letters, digits, dashes, underscores or dots.
pub worker_id_fits :
    (u : Unicode) (configured host id : Text)
    → length id ≡ 36
    → all_worker_chars id ≡ true
    → (length (worker_id u configured host id) ≤ 120)
      × (all_worker_chars (worker_id u configured host id) ≡ true)
unfolding worker_id
worker_id_fits u configured host id size clean =
    let prefix = trim_space u configured in
    let value = if is_empty prefix then host else prefix in
    let (named, short, good) = normalize_worker_prefix_lem value in
    (
      omega (arith, length-append (normalize_worker_prefix value) (text "-" ++ id), short, size),
      rw (all_worker_chars-append (normalize_worker_prefix value) (text "-" ++ id))
          (ground (arith, good, clean)),
    )
