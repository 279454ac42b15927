-- ===== src/Upload/Completion.antt =====
-- What Complete has checked before it submits an upload.
use blueprint_audio_backend.Common.{
  ℕ, suc, true, Option, some, List, [], ◌∷◌, ◌≡◌, ◌≢◌, refl, arith, find_where, Text, inl, inr, All,
  Option-cases,
}
use blueprint_audio_backend.Common.Strings.{Unicode}
use blueprint_audio_backend.Db.{Env, World, ok}
use blueprint_audio_backend.Db.Results.{Result-cases}
use blueprint_audio_backend.Catalog.Domain.{
  UploadStatus, Category, Spec, SpecUploadAsset, SpecUploadSession, is_uploading,
}
use blueprint_audio_backend.Catalog.Tables.{session_is}
use blueprint_audio_backend.Catalog.Sessions.{get_session}
use blueprint_audio_backend.Upload.Files.{validate_ready_assets}
use blueprint_audio_backend.Upload.Site.{ObjectInfo, Objects, Site, lift}
use blueprint_audio_backend.Upload.Service.{is_declared, verify_uploaded_object}
use blueprint_audio_backend.Upload.Submit.{verify_assets, complete_uploading, by_status, complete}
use blueprint_audio_backend.Upload.Service.Reads.{
  get_session-reads, get_owned_session_spec-reads, verify_assets-reads,
}

module _ (u : Unicode) (objects : Objects) where
  -- at some call the object store has shown the file that was declared
  abbrev pub IsDeclared : SpecUploadAsset → Type 0
  IsDeclared asset =
      (at : ℕ) × (info : ObjectInfo) × (objects.stat at asset.object_key ≡ some info)
      × (is_declared u objects asset info ≡ true)

  pub verify_uploaded_object_ok :
      (asset : SpecUploadAsset) (env : Env) (w : World Site) {info : ObjectInfo}
      → (verify_uploaded_object u objects asset env w).0 ≡ ok info
      → IsDeclared asset
  unfolding verify_uploaded_object
  verify_uploaded_object_ok asset env w h =
      elim (Option-cases (objects.stat w.tick asset.object_key)) [
        | inl missing ↦ absurd (ground (arith, h, missing))
        | inr (info, found) ↦ (w.tick, info, found, ground (arith, h, found))
      ]

  verify_assets_ok :
      (assets : List SpecUploadAsset) (env : Env) (w : World Site) {verified : List SpecUploadAsset}
      → (verify_assets u objects assets env w).0 ≡ ok verified
      → All IsDeclared assets
  unfolding verify_assets
  verify_assets_ok [] env w h = tt
  verify_assets_ok (asset ∷ assets) env w h =
      let (r, w') = verify_uploaded_object u objects asset env w in
      elim (Result-cases (verify_uploaded_object u objects asset env w).0) [
        | inl (e, wrong) ↦ absurd (ground (arith, h, wrong))
        | inr (info, good) ↦ elim (Result-cases (verify_assets u objects assets env w').0) [
          | inl (e, wrong) ↦ absurd (ground (arith, h, good, wrong))
          | inr (rest, all_good) ↦
              (verify_uploaded_object_ok asset env w good, verify_assets_ok assets env w' all_good)
        ]
      ]

module _ (u : Unicode) (decode : Text → Option Spec) (objects : Objects) where
  complete_uploading_checked :
      (session : SpecUploadSession) (upload_id producer_id : ℕ) (env : Env) (w : World Site)
      → (complete_uploading u decode objects session upload_id producer_id env w).1.store.tables
        ≢ w.store.tables
      → (validate_ready_assets u Category.beat session.assets ≡ ok tt)
        × All (IsDeclared u objects) session.assets
  unfolding complete_uploading
  complete_uploading_checked session upload_id producer_id env w h =
      let w1 : World Site = record w { tick = suc w.tick } in
      let same = verify_assets-reads u objects session.assets env w1 in
      elim (Result-cases (validate_ready_assets u Category.beat session.assets)) [
        | inl (e, unready) ↦ absurd (ground (arith, h, unready))
        | inr (done, ready) ↦
            elim (Result-cases (verify_assets u objects session.assets env w1).0) [
              | inl (e, wrong) ↦ absurd (ground (arith, h, ready, wrong, same))
              | inr (assets, verified) ↦
                  (ground (arith, ready), verify_assets_ok u objects session.assets env w1 verified)
            ]
      ]

  by_status_checked :
      (st : UploadStatus) (session : SpecUploadSession) (upload_id producer_id : ℕ) (env : Env)
      (w : World Site)
      → (by_status u decode objects st session upload_id producer_id env w).1.store.tables
        ≢ w.store.tables
      → (is_uploading st ≡ true)
        × (validate_ready_assets u Category.beat session.assets ≡ ok tt)
        × All (IsDeclared u objects) session.assets
  by_status_checked UploadStatus.uploading session upload_id producer_id env w h =
      let (ready, declared) = complete_uploading_checked session upload_id producer_id env w h in
      (refl, ready, declared)
  by_status_checked UploadStatus.expired session upload_id producer_id env w h = absurd (h refl)
  by_status_checked UploadStatus.failed session upload_id producer_id env w h = absurd (h refl)
  by_status_checked UploadStatus.unset session upload_id producer_id env w h = absurd (h refl)
  by_status_checked UploadStatus.queued session upload_id producer_id env w h =
      absurd (h (get_owned_session_spec-reads session producer_id env w))
  by_status_checked UploadStatus.processing session upload_id producer_id env w h =
      absurd (h (get_owned_session_spec-reads session producer_id env w))
  by_status_checked UploadStatus.completed session upload_id producer_id env w h =
      absurd (h (get_owned_session_spec-reads session producer_id env w))

  get_session_ok :
      (upload_id producer_id : ℕ) (env : Env) (w : World Site) {session : SpecUploadSession}
      → (lift (get_session upload_id producer_id) env w).0 ≡ ok session
      → (stored : SpecUploadSession) × (find_where (session_is upload_id) w.store.tables.sessions
          ≡ some stored)
        × (stored.producer_id ≡ producer_id)
        × (stored.status ≡ session.status)
  unfolding get_session
  get_session_ok upload_id producer_id env w {session} h =
      elim (Option-cases (find_where (session_is upload_id) w.store.tables.sessions)) [
        | inl missing ↦ absurd (ground (arith, h, missing))
        | inr (stored, found) ↦ (stored, found, ground (arith, h, found), ground (arith, h, found))
      ]

  -- Where Complete changes the tables, the upload's session is stored, it is the producer's and still
  -- uploading, its assets pass validateReadyAssets, and the object store has shown an object under each asset's key
  -- that has the declared size, within the limit, the declared content type and a checksum.
  pub complete_checked :
      (upload_id producer_id : ℕ) (env : Env) (w : World Site)
      → (complete u decode objects upload_id producer_id env w).1.store.tables ≢ w.store.tables
      → ((stored : SpecUploadSession) × (find_where (session_is upload_id) w.store.tables.sessions
            ≡ some stored)
          × (stored.producer_id ≡ producer_id)
          × (is_uploading stored.status ≡ true))
        × ((session : SpecUploadSession) × ((lift (get_session upload_id producer_id) env w).0
              ≡ ok session)
            × (validate_ready_assets u Category.beat session.assets ≡ ok tt)
            × All (IsDeclared u objects) session.assets)
  unfolding complete
  complete_checked upload_id producer_id env w h =
      let got = lift (get_session upload_id producer_id) env w in
      let same = get_session-reads upload_id producer_id env w in
      elim (Result-cases got.0) [
        | inl (e, fails) ↦ absurd (ground (arith, h, fails, same))
        | inr (session, found) ↦
            let (uploading, ready, declared) =
              by_status_checked session.status session upload_id producer_id env got.1
                (λ kept. h (ground (arith, found, kept, same))) in
            let (stored, here, owned, status) = get_session_ok upload_id producer_id env w found in
            ((stored, here, owned, rw status uploading), (session, found, ready, declared))
      ]
