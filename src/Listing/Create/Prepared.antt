-- ===== src/Listing/Create/Prepared.antt =====
-- What prepareSpecForCreate leaves of a spec that it accepts.
use blueprint_audio_backend.Common.{
  ℕ, suc, Bool, true, false, Option, none, some, List, [], ◌∷◌, ◌≡◌, ◌≢◌, refl, ap, ◌∙◌, sym, arith,
  length, if◌then◌else◌, Text, text, is_empty, All, Bool-cases, inl, inr,
}
use blueprint_audio_backend.Common.Strings.{Unicode, to_upper, trim_space}
use blueprint_audio_backend.Db.{ok}
use blueprint_audio_backend.Db.Results.{Result-cases}
use blueprint_audio_backend.Listing.Draft.{Prices, Offer, Draft}
use blueprint_audio_backend.Listing.Validation.{is_beat, is_sample, validate_spec}
use blueprint_audio_backend.Listing.Validation.Accepted.{IsBeat, validate_spec_ok}
use blueprint_audio_backend.Listing.Unique.{generate_unique_slug}
use blueprint_audio_backend.Listing.Create.{
  CreateError, NewSpec, Names, is_in_processing, is_missing, find_short_code, short_codes,
  is_currency, normalize_currency, normalize_offers, normalize_spec_currencies, name_or,
  check_files, prepare_spec_for_create,
}

module _ (u : Unicode) where
  normalize_currency_ok :
      (value fallback c : Text) → normalize_currency u value fallback ≡ ok c → is_currency c ≡ true
  unfolding normalize_currency
  normalize_currency_ok value fallback c h =
      let stated = to_upper u (trim_space u value) in
      let chosen = if is_empty stated then fallback else stated in
      elim (Bool-cases (is_currency chosen)) [
        | inr other ↦ absurd (ground arith)
        | inl known ↦ let e : c ≡ chosen = ground arith in rw e known
      ]

  -- the offers have a currency each, and there are as many as before
  normalize_offers_ok :
      {P : Type 0} (fallback : Text) (offers offers' : List (Offer P))
      → normalize_offers u fallback offers ≡ ok offers'
      → All (λ o. is_currency o.price_currency ≡ true) offers' × (length offers' ≡ length offers)
  unfolding normalize_offers
  normalize_offers_ok fallback [] offers' h = let e : offers' ≡ [] = ground arith in rw e (tt, refl)
  normalize_offers_ok fallback (o ∷ offers) offers' h =
      elim (Result-cases (normalize_currency u o.price_currency fallback)) [
        | inl (e, fails) ↦ absurd (ground arith)
        | inr (c, stated) ↦ elim (Result-cases (normalize_offers u fallback offers)) [
          | inl (e, fails) ↦ absurd (ground arith)
          | inr (rest, others) ↦
              let (currencies, size) = normalize_offers_ok fallback offers rest others in
              let e : offers' ≡ record o { price_currency = c } ∷ rest = ground arith in
              rw e (
                (normalize_currency_ok o.price_currency fallback c stated, currencies),
                ap (λ n. suc n) size,
              )
        ]
      ]

  -- every price is in rupees or dollars
  abbrev pub IsPriced : {P : Type 0} → Draft P → Type 0
  IsPriced d =
      (is_currency d.price_currency ≡ true)
      × All (λ o. is_currency o.price_currency ≡ true) d.licenses

  normalize_spec_currencies_ok :
      {P : Type 0} (d d' : Draft P)
      → normalize_spec_currencies u d ≡ ok d'
      → IsPriced d'
        × (length d'.licenses ≡ length d.licenses)
        × (d'.category ≡ d.category)
        × (d'.bpm ≡ d.bpm)
        × (d'.genres ≡ d.genres)
  unfolding normalize_spec_currencies
  normalize_spec_currencies_ok d d' h =
      elim (Result-cases (normalize_currency u d.price_currency (text "INR"))) [
        | inl (e, fails) ↦ absurd (ground arith)
        | inr (c, stated) ↦ elim (Result-cases (normalize_offers u c d.licenses)) [
          | inl (e, fails) ↦ absurd (ground arith)
          | inr (offers, others) ↦
              let (currencies, size) = normalize_offers_ok c d.licenses offers others in
              let e : d' ≡ record d { price_currency = c; licenses = offers } = ground arith in
              rw e (
                (normalize_currency_ok d.price_currency (text "INR") c stated, currencies),
                size,
                refl,
                refl,
                refl,
              )
        ]
      ]

  name_or_ok :
      (given generated s : Option Text) (e : CreateError)
      → name_or u given generated e ≡ ok s
      → s ≢ none
  name_or_ok none none s e h = absurd (ground arith)
  name_or_ok none (some g) s e h = λ z. ground arith
  name_or_ok (some given) none s e h = λ z. ground arith
  name_or_ok (some given) (some g) s e h = λ z. ground arith

  module _ (F : Prices) (table : ℕ → Bool) where
    -- a beat that is not in processing has its files
    abbrev pub HasFiles : NewSpec F.Price → Type 0
    HasFiles s =
        is_beat s.draft.category ≡ true
        → is_in_processing s.processing_status ≡ false
        → (is_missing s.wav_url ≡ false) × (is_missing s.stems_url ≡ false)

    check_files_ok : (s : NewSpec F.Price) → check_files u F table s ≡ ok tt → HasFiles s
    unfolding check_files
    check_files_ok s h beat done = ground arith

    -- the steps of prepareSpecForCreate that succeeds
    record Steps (names : Names) (s s' : NewSpec F.Price) : Type 0 where
      draft : Draft F.Price
      priced : Draft F.Price
      passes : validate_spec u F s.draft ≡ ok draft
      files : check_files u F table s ≡ ok tt
      slug :
          name_or u s.slug
            (generate_unique_slug u table names.slug_taken names.slug_uuids draft.title)
            CreateError.slug_taken
          ≡ ok s'.slug
      code :
          name_or u s.short_code
            (find_short_code names.code_taken (short_codes u names) 10 0)
            CreateError.short_code_taken
          ≡ ok s'.short_code
      prices : normalize_spec_currencies u draft ≡ ok priced
      result : s'.draft ≡ priced

    prepare_spec_for_create-Steps :
        (names : Names) (s s' : NewSpec F.Price)
        → prepare_spec_for_create u F table names s ≡ ok s'
        → Steps names s s'
    unfolding prepare_spec_for_create
    prepare_spec_for_create-Steps names s s' h = elim (Result-cases (validate_spec u F s.draft)) [
      | inl (e, fails) ↦ absurd (ground arith)
      | inr (draft, passes) ↦ elim (Result-cases (check_files u F table s)) [
        | inl (e, fails) ↦ absurd (ground arith)
        | inr (_, files) ↦
            let generated =
              generate_unique_slug u table names.slug_taken names.slug_uuids draft.title in
            let code = find_short_code names.code_taken (short_codes u names) 10 0 in
            elim (Result-cases (name_or u s.slug generated CreateError.slug_taken)) [
              | inl (e, fails) ↦ absurd (ground arith)
              | inr (slug, named) ↦
                  elim (Result-cases (name_or u s.short_code code CreateError.short_code_taken)) [
                    | inl (e, fails) ↦ absurd (ground arith)
                    | inr (short_code, coded) ↦
                        elim (Result-cases (normalize_spec_currencies u draft)) [
                          | inl (e, fails) ↦ absurd (ground arith)
                          | inr (priced, prices) ↦
                              let same : s' ≡ record s {
                                draft = priced;
                                slug = slug;
                                short_code = short_code;
                              } =
                                ground arith in
                              record {
                                draft = draft;
                                priced = priced;
                                passes = passes;
                                files = files;
                                slug = rw same named;
                                code = rw same coded;
                                prices = prices;
                                result = rw same refl;
                              }
                        ]
                  ]
            ]
      ]
    ]

    IsBeat-priced :
        (d d' : Draft F.Price)
        → length d'.licenses ≡ length d.licenses
        → d'.bpm ≡ d.bpm
        → d'.genres ≡ d.genres
        → IsBeat u F d
        → IsBeat u F d'
    IsBeat-priced d d' size bpm genres (slow, fast, one, some_licenses, few) =
        (ground arith, ground arith, rw genres one, ground arith, ground arith)

    -- A spec that prepareSpecForCreate accepts leaves it with a slug and a short code, and with every
    -- price in rupees or dollars; unless it is a sample it is a beat of 60 to 300 beats a minute, with one
    -- genre and one to four licenses; and a beat that is not in processing has its WAV file and its stems.
    pub prepare_spec_for_create_ok :
        (names : Names) (s s' : NewSpec F.Price)
        → prepare_spec_for_create u F table names s ≡ ok s'
        → (s'.slug ≢ none)
          × (s'.short_code ≢ none)
          × IsPriced s'.draft
          × (is_sample s'.draft.category ≡ false → IsBeat u F s'.draft)
          × HasFiles s
    prepare_spec_for_create_ok names s s' h =
        let t = prepare_spec_for_create-Steps names s s' h in
        let (_, _, beat) = validate_spec_ok u F s.draft t.draft t.passes in
        let (priced, size, category, bpm, genres) =
          normalize_spec_currencies_ok t.draft t.priced t.prices in
        (
          name_or_ok s.slug _ s'.slug CreateError.slug_taken t.slug,
          name_or_ok s.short_code _ s'.short_code CreateError.short_code_taken t.code,
          rw t.result priced,
          rw t.result (λ other.
              IsBeat-priced t.draft t.priced size bpm genres
                (beat (sym (ap is_sample category) ∙ other))),
          check_files_ok s t.files,
        )
