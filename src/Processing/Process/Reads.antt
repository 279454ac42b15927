-- ===== src/Processing/Process/Reads.antt =====
-- Which actions of process only read, and which write to one key.
use blueprint_audio_backend.Common.{
  ℕ, Bool, Option, none, some, List, ◌∷◌, ◌≡◌, refl, sym, ap, ◌∙◌, subst, inl, inr, ◌⊎◌, Text,
}
use blueprint_audio_backend.Db.{Env, World, Result, ok, err, pure, fail_if, fail_none, ◌>>=◌}
use blueprint_audio_backend.Catalog.Domain.{Category, SpecUploadAsset}
use blueprint_audio_backend.Processing.Media.{
  Failure, ProcessError, Ports, Bench, Action, from, object_call, write_call, read_bounded,
  analyze_preview, validate_wav_object, validate_stems_object,
}
use blueprint_audio_backend.Processing.Process.{
  process_audio, processed_image_key, copy_asset, check_optional, process_assets,
}

-- however `m` ends, the attempt has written nothing more and has the same keys to clean up
pub record IsStill {A : Type 0} (m : Action A) : Type 0 where
  pub at : (env : Env) (w : World Bench) → (m env w).1.store ≡ w.store

-- the same keys to clean up, and at most `key` written in addition
abbrev pub Extends : Text → Bench → Bench → Type 0
Extends key b b' = (b'.keys ≡ b.keys) × ((b'.written ≡ b.written) ⊎ (b'.written ≡ key ∷ b.written))

pub record IsWriting {A : Type 0} (key : Text) (m : Action A) : Type 0 where
  pub at : (env : Env) (w : World Bench) → Extends key w.store (m env w).1.store

module _ {A B : Type 0} {m : Action A} {f : A → Action B} where
  pub >>=-IsStill : IsStill m → ((a : A) → IsStill (f a)) → IsStill (m >>= f)
  >>=-IsStill hm hf = record { at = λ env w. go env w (m env w).0 refl }
    where
      go :
          (env : Env) (w : World Bench) (r : Result ProcessError A)
          → (m env w).0 ≡ r
          → ((m >>= f) env w).1.store ≡ w.store
      go env w (ok a) e = rw (e, ◌>>=◌) ((hf a).at env (m env w).1 ∙ hm.at env w)
      go env w (err x) e = rw (e, ◌>>=◌) (hm.at env w)

  -- reads, and then an action that writes
  pub reads-IsWriting :
      {key : Text} → IsStill m → ((a : A) → IsWriting key (f a)) → IsWriting key (m >>= f)
  reads-IsWriting {key} hm hf = record { at = λ env w. go env w (m env w).0 refl }
    where
      go :
          (env : Env) (w : World Bench) (r : Result ProcessError A)
          → (m env w).0 ≡ r
          → Extends key w.store ((m >>= f) env w).1.store
      go env w (ok a) e =
          rw (e, ◌>>=◌)
            (subst (λ b. Extends key b (f a env (m env w).1).1.store) (hm.at env w)
              ((hf a).at env (m env w).1))
      go env w (err x) e =
          rw (e, ◌>>=◌) (ap (λ b. b.keys) (hm.at env w), inl (ap (λ b. b.written) (hm.at env w)))

  -- an action that writes, and then reads
  pub writes-IsWriting :
      {key : Text} → IsWriting key m → ((a : A) → IsStill (f a)) → IsWriting key (m >>= f)
  writes-IsWriting {key} hm hf = record { at = λ env w. go env w (m env w).0 refl }
    where
      go :
          (env : Env) (w : World Bench) (r : Result ProcessError A)
          → (m env w).0 ≡ r
          → Extends key w.store ((m >>= f) env w).1.store
      go env w (ok a) e =
          rw (e, ◌>>=◌)
            (subst (Extends key w.store) (sym ((hf a).at env (m env w).1)) (hm.at env w))
      go env w (err x) e = rw (e, ◌>>=◌) (hm.at env w)

module _ {A : Type 0} where
  pub object_call-IsStill :
      (answer : ℕ → Result Failure A) (wrap : Failure → ProcessError)
      → IsStill (object_call answer wrap)
  object_call-IsStill answer wrap = record { at = λ env w. refl }

  pub write_call-IsWriting :
      (key : Text) (answer : ℕ → Result Failure A) (wrap : Failure → ProcessError)
      → IsWriting key (write_call key answer wrap)
  write_call-IsWriting key answer wrap = record { at = λ env w. (refl, inr refl) }

  pub pure-IsStill : (a : A) → IsStill (pure a)
  pure-IsStill a = record { at = λ env w. refl }

  pub from-IsStill : (r : Result ProcessError A) → IsStill (from r)
  from-IsStill r = record { at = λ env w. refl }

  pub fail_none-IsStill : (o : Option A) (e : ProcessError) → IsStill (fail_none o e)
  fail_none-IsStill none e = record { at = λ env w. refl }
  fail_none-IsStill (some a) e = record { at = λ env w. refl }

pub fail_if-IsStill : (c : Bool) (e : ProcessError) → IsStill (fail_if c e)
fail_if-IsStill c e = record { at = λ env w. refl }

pub ruleset reading = (
  >>=-IsStill, object_call-IsStill, pure-IsStill, from-IsStill, fail_none-IsStill, fail_if-IsStill,
)

module _ (p : Ports) where
  read_bounded-IsStill : (key : Text) (limit : ℕ) → IsStill (read_bounded p key limit)
  unfolding read_bounded
  read_bounded-IsStill key limit = search reading depth 14

  analyze_preview-IsStill : (key : Text) → IsStill (analyze_preview p key)
  unfolding analyze_preview
  analyze_preview-IsStill key = search reading depth 14

  validate_wav_object-IsStill : (key : Text) → IsStill (validate_wav_object p key)
  unfolding validate_wav_object
  validate_wav_object-IsStill key = search reading depth 14

  validate_stems_object-IsStill : (key : Text) → IsStill (validate_stems_object p key)
  unfolding validate_stems_object
  validate_stems_object-IsStill key = search reading depth 14

  check_optional-IsStill :
      (category : Category) (missing : ProcessError) (validate : Text → Action (Unit {0}))
      (o : Option SpecUploadAsset)
      → ((key : Text) → IsStill (validate key))
      → IsStill (check_optional p category missing validate o)
  unfolding check_optional
  check_optional-IsStill category missing validate none h = search reading depth 14
  check_optional-IsStill category missing validate (some a) h = search (reading, h) depth 14

  process_audio-IsStill :
      (image_key : Text) (category : Category) (preview : SpecUploadAsset)
      (assets : List SpecUploadAsset)
      → IsStill (process_audio p image_key category preview assets)
  unfolding process_audio
  process_audio-IsStill image_key category preview assets =
      search
        (
          reading, analyze_preview-IsStill, check_optional-IsStill, validate_wav_object-IsStill,
          validate_stems_object-IsStill,
        )
        depth 14

  pub process_assets-IsWriting :
      (spec_id : ℕ) (category : Category) (assets : List SpecUploadAsset)
      → IsWriting (processed_image_key p spec_id) (process_assets p spec_id category assets)
  unfolding process_assets
  process_assets-IsWriting spec_id category assets =
      search
        (
          reading, reads-IsWriting, writes-IsWriting, write_call-IsWriting, read_bounded-IsStill,
          process_audio-IsStill,
        )
        depth 14

  pub copy_asset-IsWriting : (a : SpecUploadAsset) → IsWriting a.final_object_key (copy_asset p a)
  unfolding copy_asset
  copy_asset-IsWriting a =
      search (reading, reads-IsWriting, writes-IsWriting, write_call-IsWriting) depth 14
