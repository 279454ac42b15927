-- ===== src/Processing/Archive.antt =====
-- SpecUploadProcessor.validateStems and isRARHeader of
-- internal/modules/catalog/application/processor.go, on an object's size, bytes and key.
use Prim.Native.Nat.{◌%◌, ◌/◌}
use blueprint_audio_backend.Common.{
  ℕ, zero, suc, ◌+◌, ◌*◌, ◌<◌, Bool, true, false, List, [], ◌∷◌, ◌++◌, ◌==◌, ◌||◌, ◌&&◌, not, ◌≡◌,
  arith, leb, ltb, length, if◌then◌else◌, Text, text, text_eq,
}
use blueprint_audio_backend.Common.Strings.{Unicode, to_lower}
use blueprint_audio_backend.Db.{Result, ok, err}
use blueprint_audio_backend.Db.Results.{◌>>◌, refuse_if, is_ok}
use blueprint_audio_backend.Processing.Bytes.{uint16}
use blueprint_audio_backend.Upload.Paths.{ext}

pub data StemsError : Type 0 where
  too_small truncated encrypted compression bad_header mismatch : StemsError

-- bytes.HasPrefix
abbrev pub has_prefix : List ℕ → List ℕ → Bool
has_prefix [] s = true
has_prefix (c ∷ prefix) [] = false
has_prefix (c ∷ prefix) (d ∷ s) = c == d && has_prefix prefix s

-- io.ReadAll(io.LimitReader(reader, n))
abbrev pub take : ℕ → List ℕ → List ℕ
take zero s = []
take (suc n) [] = []
take (suc n) (c ∷ s) = c ∷ take n s

abbrev pub zip_signature : List ℕ
zip_signature = b'P' ∷ b'K' ∷ 3 ∷ 4 ∷ []

abbrev pub is_rar_header : List ℕ → Bool
is_rar_header header =
    has_prefix (b'R' ∷ b'a' ∷ b'r' ∷ b'!' ∷ 0x1a ∷ 7 ∷ 0 ∷ []) header
    || has_prefix (b'R' ∷ b'a' ∷ b'r' ∷ b'!' ∷ 0x1a ∷ 7 ∷ 1 ∷ 0 ∷ []) header

-- the checks of a ZIP archive's first local file header
unfoldable pub check_zip : ℕ → List ℕ → Result StemsError (Unit {0})
check_zip size header = do
  refuse_if (ltb (length header) 30) StemsError.truncated
  refuse_if (not (uint16 header 6 % 2 == 0)) StemsError.encrypted
  refuse_if (not (uint16 header 8 == 0) && not (uint16 header 8 == 8)) StemsError.compression
  refuse_if (uint16 header 26 == 0 || ltb size (30 + uint16 header 26 + uint16 header 28))
      StemsError.bad_header

unfoldable pub validate_stems : Unicode → ℕ → List ℕ → Text → Result StemsError (Unit {0})
validate_stems u size content key =
    let header = take 30 content in
    let extension = to_lower u (ext key) in
    if ltb size 1024
    then err StemsError.too_small
    else if text_eq extension (text ".zip") && has_prefix zip_signature header
    then check_zip size header
    else if text_eq extension (text ".rar") && is_rar_header header
    then ok tt
    else err StemsError.mismatch

-- a ZIP archive's first local file header: what it declares, the version, times, checksum and sizes
pub record LocalHeader : Type 0 where
  pub flags : ℕ
  pub method : ℕ
  pub name_length : ℕ
  pub extra_length : ℕ
  pub version : ℕ × ℕ
  pub times : ℕ × ℕ × ℕ × ℕ
  pub checksum : ℕ × ℕ × ℕ × ℕ
  pub packed : ℕ × ℕ × ℕ × ℕ
  pub unpacked : ℕ × ℕ × ℕ × ℕ

pub record IsHeader (h : LocalHeader) : Type 0 where
  pub flags_fit : h.flags < 65536
  pub method_fits : h.method < 65536
  pub name_fits : h.name_length < 65536
  pub extra_fits : h.extra_length < 65536

abbrev pub four : ℕ × ℕ × ℕ × ℕ → List ℕ → List ℕ
four (a, b, c, d) s = a ∷ (b ∷ (c ∷ (d ∷ s)))

-- two bytes, the least significant first
abbrev pub le16 : ℕ → List ℕ → List ℕ
le16 n s = n % 256 ∷ (n / 256 ∷ s)

-- the header's bytes before those of the name
abbrev pub encode_header : LocalHeader → List ℕ → List ℕ
encode_header h s =
    zip_signature
    ++ (h.version.0
        ∷ (h.version.1
            ∷ le16 h.flags (
                le16 h.method (
                  four h.times (
                    four h.checksum (
                      four h.packed
                        (four h.unpacked (le16 h.name_length (le16 h.extra_length s)))))))))

-- the archive is large enough, not encrypted, stored or deflated, and holds its first file's names
abbrev pub is_archive : ℕ → LocalHeader → Bool
is_archive size h =
    leb 1024 size
    && (h.flags % 2 == 0
        && ((h.method == 0 || h.method == 8)
            && (not (h.name_length == 0) && leb (30 + h.name_length + h.extra_length) size)))

-- An object that begins with a ZIP archive's local file header passes under a key with the extension
-- .zip exactly where it has 1,024 bytes at least, its first file is not encrypted, is stored or deflated,
-- and has a name, and the object is long enough for that file's names.
pub validate_stems-zip :
    (u : Unicode) (size : ℕ) (h : LocalHeader) (rest : List ℕ) (key : Text)
    → IsHeader h
    → text_eq (to_lower u (ext key)) (text ".zip") ≡ true
    → is_ok (validate_stems u size (encode_header h rest) key) ≡ is_archive size h
unfolding validate_stems check_zip
validate_stems-zip u size h rest key v zip =
    let flags : h.flags % 256 + 256 * (h.flags / 256) ≡ h.flags = omega arith in
    let method : h.method % 256 + 256 * (h.method / 256) ≡ h.method = omega arith in
    let name : h.name_length % 256 + 256 * (h.name_length / 256) ≡ h.name_length = omega arith in
    let extra : h.extra_length % 256 + 256 * (h.extra_length / 256) ≡ h.extra_length =
      omega arith in
    ground (arith, zip, flags, method, name, extra)
