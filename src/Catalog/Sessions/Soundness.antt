-- ===== src/Catalog/Sessions/Soundness.antt =====
-- Every operation on sessions and their assets keeps the queue's invariant, and moves a
-- session's status only as the diagram of Statuses allows.
use blueprint_audio_backend.Common.Strings.{Text}
use blueprint_audio_backend.Common.{
  ℕ, none, some, List, [], ◌∷◌, ◌++◌, ◌==◌, ◌≡◌, ◌∙◌, refl, ap, arith, suc, Bool-cases,
  Option-cases, inl, inr, update_where, find_where, member, select_where, ◌&&◌, map,
}
use blueprint_audio_backend.Db.{Env, World, Result, ok, err, transaction, ◌>>◌}
use blueprint_audio_backend.Db.Laws.{
  Keeps, Ensures, >>=-Ensures, transaction-Ensures, transaction-IsAtomic, IsAtomic,
}
use blueprint_audio_backend.Catalog.Domain.{
  Error, database, UploadStatus, SpecUploadAsset, SpecUploadSession, is_uploading,
}
use blueprint_audio_backend.Catalog.Tables.{Store, session_is}
use blueprint_audio_backend.Catalog.Sessions.{
  Action, insert_assets, insert_session, session_defaults, create_session, is_open,
  update_session_metadata, clear_error, replace_asset, verifies, verify_asset, mark_session_failed,
}
use blueprint_audio_backend.Catalog.Frames.{queue}
use blueprint_audio_backend.Catalog.Invariant.{IsValid}
use blueprint_audio_backend.Catalog.Statuses.{
  abandon, Sound, Sound-refl, Sound-along, kept-Sound, guarded-Sound, append-Sound,
}

-- a transaction is sound where it is when it succeeds
pub atomic-Sound :
    {A : Type 0} (m : Action A) (env : Env) (w : World Store)
    → IsAtomic m
    → IsValid w.store
    → Ensures m env w (λ _ t. Sound w.store t)
    → Sound w.store (m env w).1.store
atomic-Sound {A} m env w atomic v h = go (m env w).0 refl
  where
    go : (r : Result Error A) → (m env w).0 ≡ r → Sound w.store (m env w).1.store
    go (ok a) e = h a e
    go (err x) e = Sound-along (atomic env w x e) (Sound-refl v)

insert_assets-Keeps :
    (id now : ℕ) (assets : List SpecUploadAsset) → Keeps queue (insert_assets id now assets)
unfolding insert_assets
insert_assets-Keeps id now [] env w = refl
insert_assets-Keeps id now (a ∷ assets) env w = grind (arith, insert_assets-Keeps id now assets env)

pub create_session-Sound :
    (session : SpecUploadSession) (env : Env) (w : World Store)
    → IsValid w.store
    → Sound w.store (create_session session env w).1.store
unfolding create_session
create_session-Sound session env w v =
    let now = env.clock w.tick in
    let row = session_defaults now session in
    let w1 : World Store = record w { tick = suc w.tick } in
    let body : ℕ → Action (Unit {0}) =
      λ _. insert_session row >> insert_assets session.id now session.assets in
    atomic-Sound (transaction database body) env w1 (transaction-IsAtomic database body) v (
      transaction-Ensures database body env w1 (λ _ t. Sound w.store t)
        (>>=-Ensures (insert_session row) (λ _. insert_assets session.id now session.assets) env
          (record w1 { tick = suc w1.tick })
          (λ _ t. queue t ≡ (w.store.sessions ++ (record row { assets = [] }) ∷ [], w.store.jobs))
          (λ _ t. Sound w.store t) (λ _ h. ground arith)
          λ _ w2 e a h.
            let kept = insert_assets-Keeps session.id now session.assets env w2 ∙ e in
            append-Sound w.store _ (ap (λ p. p.1) kept) v (record row { assets = [] })
              (ap (λ p. p.0) kept)))

pub update_session_metadata-Sound :
    (upload_id producer_id : ℕ) (metadata : Text) (env : Env) (w : World Store)
    → IsValid w.store
    → Sound w.store (update_session_metadata upload_id producer_id metadata env w).1.store
unfolding update_session_metadata
update_session_metadata-Sound upload_id producer_id metadata env w v =
    elim (Bool-cases (env.fault w.tick)) [
      | inl e ↦ Sound-along (ground arith) (Sound-refl v)
      | inr e ↦
          kept-Sound w.store _ (ground arith) v (is_open upload_id producer_id (env.clock w.tick))
            (λ r. record r {
              metadata = metadata;
              error_message = none;
              updated_at = env.clock w.tick;
            })
            (λ r. refl) (λ r. refl) (ground arith)
    ]

-- ReplaceAsset clears the session's error message and writes no other session
replace_asset_ok :
    (upload_id producer_id : ℕ) (asset : SpecUploadAsset) (env : Env) (w : World Store)
    → Ensures (replace_asset upload_id producer_id asset) env w (λ _ t.
      (t.jobs ≡ w.store.jobs)
      × (t.sessions
          ≡ update_where (session_is upload_id) (clear_error (env.clock w.tick)) w.store.sessions))
unfolding replace_asset transaction
replace_asset_ok upload_id producer_id asset env w a h =
    elim (Option-cases (find_where (session_is upload_id) w.store.sessions)) [
      | inl e ↦ absurd (ground arith)
      | inr (r, e) ↦ (ground arith, ground arith)
    ]

replace_asset-IsAtomic :
    (upload_id producer_id : ℕ) (asset : SpecUploadAsset)
    → IsAtomic (replace_asset upload_id producer_id asset)
unfolding replace_asset
replace_asset-IsAtomic upload_id producer_id asset = transaction-IsAtomic database _

pub replace_asset-Sound :
    (upload_id producer_id : ℕ) (asset : SpecUploadAsset) (env : Env) (w : World Store)
    → IsValid w.store
    → Sound w.store (replace_asset upload_id producer_id asset env w).1.store
replace_asset-Sound upload_id producer_id asset env w v =
    atomic-Sound (replace_asset upload_id producer_id asset) env w
      (replace_asset-IsAtomic upload_id producer_id asset) v
      λ a h.
        let (jobs, sessions) = replace_asset_ok upload_id producer_id asset env w a h in
        kept-Sound w.store _ jobs v (session_is upload_id) (clear_error (env.clock w.tick))
          (λ r. refl) (λ r. refl) sessions

pub verify_asset-Sound :
    (upload_id producer_id asset_id size : ℕ) (content_type etag : Text) (env : Env)
    (w : World Store)
    → IsValid w.store
    → Sound w.store
        (verify_asset upload_id producer_id asset_id size content_type etag env w).1.store
unfolding verify_asset
verify_asset-Sound upload_id producer_id asset_id size content_type etag env w v =
    let now = env.clock w.tick in
    let hit = verifies upload_id producer_id asset_id now w.store in
    let ids : List ℕ =
      map (λ (a : SpecUploadAsset). a.session_id) (select_where hit w.store.assets) in
    elim (Bool-cases (env.fault w.tick)) [
      | inl e ↦ Sound-along (ground arith) (Sound-refl v)
      | inr e ↦
          kept-Sound w.store _ (ground arith) v (λ r. member r.id ids) (clear_error now) (λ r. refl)
            (λ r. refl) (ground arith)
    ]

pub mark_session_failed-Sound :
    (upload_id : ℕ) (reason : Text) (env : Env) (w : World Store)
    → IsValid w.store
    → Sound w.store (mark_session_failed upload_id reason env w).1.store
unfolding mark_session_failed
mark_session_failed-Sound upload_id reason env w v = elim (Bool-cases (env.fault w.tick)) [
  | inl e ↦ Sound-along (ground arith) (Sound-refl v)
  | inr e ↦
      guarded-Sound w.store _ (ground arith) v (λ r. r.id == upload_id && is_uploading r.status)
        (λ r. record r {
          status = UploadStatus.failed;
          error_message = some reason;
          updated_at = env.clock w.tick;
        })
        UploadStatus.failed (λ r. refl) (λ r. refl) (λ r h. ground arith) abandon (ground arith)
]
