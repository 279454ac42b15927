-- ===== src/Upload/Files/Again.antt =====
-- A file that has passed passes again: Complete repeats the checks of PrepareFile.
pub mod Recheck
use mathlib.Core.List.{
  reverse, reverse-cons, reverse-append, reverse-reverse, append_assoc, append-nil,
}
use blueprint_audio_backend.Common.{
  ℕ, Bool, true, false, Option, none, some, List, [], ◌∷◌, ◌++◌, ◌==◌, ◌≡◌, ◌∙◌, ap, sym, refl,
  arith, if◌then◌else◌, Text, text, text_eq, is_empty, Bool-cases, Option-cases, inl, inr, ◌⊎◌, not,
  ◌||◌, ◌&&◌, ltb,
}
use blueprint_audio_backend.Common.Strings.{Unicode, is_space, trim_left, trim_space, to_lower}
use blueprint_audio_backend.Db.{Result, ok, err}
use blueprint_audio_backend.Db.Results.{Result-cases, is_ok}
use blueprint_audio_backend.Upload.Paths.{base, ext, until_slash, drop_slashes}

module _ (u : Unicode) where
  -- the first character, where there is one, is no space
  abbrev starts_clean : Text → Bool
  starts_clean [] = true
  starts_clean (c ∷ s) = not (is_space u c)

  trim_left-clean : (s : Text) → starts_clean (trim_left u s) ≡ true
  trim_left-clean [] = refl
  trim_left-clean (c ∷ s) = ground (arith, trim_left-clean s)

  trim_left_same : (s : Text) → starts_clean s ≡ true → trim_left u s ≡ s
  trim_left_same [] h = refl
  trim_left_same (c ∷ s) h = ground (arith, h)

  trim_left_suffix : (s : Text) → (p : Text) × (s ≡ p ++ trim_left u s)
  trim_left_suffix [] = ([], refl)
  trim_left_suffix (c ∷ s) =
      let (p, e) = trim_left_suffix s in
      elim (Bool-cases (is_space u c)) [
        | inl space ↦ (c ∷ p, ground (arith, space, e))
        | inr other ↦ ([], ground (arith, other))
      ]

  starts_clean-append : (s t : Text) → starts_clean (s ++ t) ≡ true → starts_clean s ≡ true
  starts_clean-append [] t h = refl
  starts_clean-append (c ∷ s) t h = h

  pub trim_space_again : (s : Text) → trim_space u (trim_space u s) ≡ trim_space u s
  unfolding trim_space
  trim_space_again s =
      let a = trim_left u s in
      let b = trim_left u (reverse a) in
      let (p, e) = trim_left_suffix (reverse a) in
      let whole : a ≡ reverse b ++ reverse p =
        sym (reverse-reverse a) ∙ ap reverse e ∙ reverse-append p b in
      let clean : starts_clean (reverse b) ≡ true =
        starts_clean-append (reverse b) (reverse p)
          (ap starts_clean (sym whole) ∙ trim_left-clean s) in
      let back : trim_left u (reverse (reverse b)) ≡ b =
        ap (trim_left u) (reverse-reverse b) ∙ trim_left_same b (trim_left-clean (reverse a)) in
      ap (λ x. reverse (trim_left u (reverse x))) (trim_left_same (reverse b) clean)
      ∙ ap reverse back

abbrev no_slash : Text → Bool
no_slash [] = true
no_slash (c ∷ s) = not (c == b'/') && no_slash s

no_slash-append : (s t : Text) → no_slash (s ++ t) ≡ (no_slash s && no_slash t)
no_slash-append [] t = refl
no_slash-append (c ∷ s) t = ground (arith, no_slash-append s t)

no_slash-reverse : (s : Text) → no_slash s ≡ true → no_slash (reverse s) ≡ true
no_slash-reverse [] h = refl
no_slash-reverse (c ∷ s) h =
    rw (reverse-cons c s) (ground (arith, no_slash-append (reverse s) (c ∷ []), no_slash-reverse s))

no_slash-until_slash : (s : Text) → no_slash (until_slash s) ≡ true
no_slash-until_slash [] = refl
no_slash-until_slash (c ∷ s) = ground (arith, no_slash-until_slash s)

until_slash_same : (s : Text) → no_slash s ≡ true → until_slash s ≡ s
until_slash_same [] h = refl
until_slash_same (c ∷ s) h = ground (arith, until_slash_same s)

drop_slashes_same : (s : Text) → no_slash s ≡ true → drop_slashes s ≡ s
drop_slashes_same [] h = refl
drop_slashes_same (c ∷ s) h = ground arith

no_slash-trim_left : (u : Unicode) (s : Text) → no_slash s ≡ true → no_slash (trim_left u s) ≡ true
no_slash-trim_left u [] h = refl
no_slash-trim_left u (c ∷ s) h = ground (arith, no_slash-trim_left u s)

no_slash-trim_space :
    (u : Unicode) (s : Text) → no_slash s ≡ true → no_slash (trim_space u s) ≡ true
unfolding trim_space
no_slash-trim_space u s h = no_slash-reverse (trim_left u (reverse (trim_left u s))) (
    no_slash-trim_left u (reverse (trim_left u s))
      (no_slash-reverse (trim_left u s) (no_slash-trim_left u s h)))

-- a name without a slash is its own base
base_same : (s : Text) → is_empty s ≡ false → no_slash s ≡ true → base s ≡ s
unfolding base
base_same s full h =
    let backwards : until_slash (drop_slashes (reverse s)) ≡ reverse s =
      ap until_slash (drop_slashes_same (reverse s) (no_slash-reverse s h))
      ∙ until_slash_same (reverse s) (no_slash-reverse s h) in
    let name : reverse (until_slash (drop_slashes (reverse s))) ≡ s =
      ap reverse backwards ∙ reverse-reverse s in
    ground (arith, full, name)

-- a base has no slash, but for the root
base-no_slash : (s : Text) → (no_slash (base s) ≡ true) ⊎ (base s ≡ text "/")
unfolding base
base-no_slash s =
    let name = until_slash (drop_slashes (reverse s)) in
    let clean : no_slash (reverse name) ≡ true =
      no_slash-reverse name (no_slash-until_slash (drop_slashes (reverse s))) in
    elim (Bool-cases (is_empty s)) [
      | inl empty ↦ inl (ground (arith, empty))
      | inr full ↦ elim (Bool-cases (is_empty (reverse name))) [
        | inl root ↦ inr (ground (arith, full, root))
        | inr named ↦ inl (ground (arith, full, named, clean))
      ]
    ]

trimmed_root : (u : Unicode) → trim_space u (text "/") ≡ text "/"
unfolding trim_space
trimmed_root u = refl

root_base : base (text "/") ≡ text "/"
unfolding base
root_base = refl

pub base_again :
    (u : Unicode) (s : Text)
    → is_empty (trim_space u (base s)) ≡ false
    → base (trim_space u (base s)) ≡ trim_space u (base s)
base_again u s full = elim (base-no_slash s) [
  | inl clean ↦ base_same (trim_space u (base s)) full (no_slash-trim_space u (base s) clean)
  | inr root ↦
      let e : trim_space u (base s) ≡ text "/" = ap (trim_space u) root ∙ trimmed_root u in
      ap base e ∙ root_base ∙ sym e
]
