-- ===== src/Catalog/Sessions.antt =====
-- The upload sessions and their assets:
-- internal/modules/catalog/infrastructure/persistence/postgres/upload_repo.go, up to
-- MarkSessionFailed.
pub mod Soundness
use blueprint_audio_backend.Common.Strings.{Text, text, text_eq}
use mathlib.Core.Option
use blueprint_audio_backend.Common.{
  ℕ, Bool, true, false, Option, none, some, List, [], ◌∷◌, ◌++◌, ◌==◌, ◌||◌, ◌&&◌, not, map,
  if◌then◌else◌, ltb, exists_where, find_where, select_where, update_where, delete_where,
  count_where, is_some, member, length,
}
use blueprint_audio_backend.Db.{
  M, pure, fail, fail_if, fail_none, ◌>>=◌, ◌>>◌, statement, query, execute, insert, time_now,
  new_uuid, transaction,
}
use blueprint_audio_backend.Catalog.Domain.{
  Error, invalid_upload, upload_not_found, upload_forbidden, upload_expired, upload_state,
  no_processing_job, database, uuid, UploadStatus, ProcessingStatus, Spec, SpecUploadAsset,
  SpecUploadSession, SpecProcessingJob, SpecUploadStatus, is_uploading, is_unset, kind_eq,
}
use blueprint_audio_backend.Catalog.Tables.{
  Store, session_is, session_violates, asset_violates, spec_is, order_by_kind,
}

abbrev pub Action : Type 0 → Type 0
Action A = M Store Error A

-- the two defaults that CreateSession sets before the transaction
abbrev pub session_defaults : ℕ → SpecUploadSession → SpecUploadSession
session_defaults now s = record s {
  created_at = if s.created_at == 0 then now else s.created_at;
  updated_at = now;
  status = if is_unset s.status then UploadStatus.uploading else s.status;
}

-- INSERT INTO spec_upload_sessions; the assets are rows of another table
abbrev pub insert_session : SpecUploadSession → Action (Unit {0})
insert_session row =
    insert database database (session_violates row)
      (λ now s. record s { sessions = s.sessions ++ (record row { assets = [] }) ∷ [] })

abbrev pub insert_asset : SpecUploadAsset → Action (Unit {0})
insert_asset row =
    insert database database (asset_violates row)
      (λ now s. record s { assets = s.assets ++ row ∷ [] })

abbrev pub asset_defaults : ℕ → ℕ → SpecUploadAsset → SpecUploadAsset
asset_defaults session_id now a = record a {
  session_id = session_id;
  created_at = if a.created_at == 0 then now else a.created_at;
  updated_at = now;
}

-- `if asset.ID == uuid.Nil { asset.ID, err = uuid.NewV7() }`
abbrev pub id_or_new : ℕ → Action ℕ
id_or_new id env w = if id == 0 then new_uuid uuid env w else pure id env w

-- the loop over session.Assets
unfoldable pub insert_assets : ℕ → ℕ → List SpecUploadAsset → Action (Unit {0})
insert_assets session_id now [] = pure tt
insert_assets session_id now (a ∷ rest) = do
  id ← id_or_new a.id
  insert_asset (asset_defaults session_id now (record a { id = id }))
  insert_assets session_id now rest

unfoldable pub create_session : SpecUploadSession → Action (Unit {0})
create_session session = do
  now ← time_now
  transaction database (λ _. do
    insert_session (session_defaults now session)
    insert_assets session.id now session.assets)

unfoldable pub get_session : ℕ → ℕ → Action SpecUploadSession
get_session upload_id producer_id = do
  found ← query database (λ s. find_where (session_is upload_id) s.sessions)
  session ← fail_none found upload_not_found
  fail_if (not (session.producer_id == producer_id)) upload_forbidden
  assets ←
      query database (λ s. order_by_kind (select_where (λ a. a.session_id == upload_id) s.assets))
  pure (record session { assets = assets })

-- WHERE id = $1 AND producer_id = $2 AND status = 'uploading' AND expires_at > NOW()
abbrev pub is_open : ℕ → ℕ → ℕ → SpecUploadSession → Bool
is_open upload_id producer_id now s =
    s.id == upload_id
    && (s.producer_id == producer_id && (is_uploading s.status && ltb now s.expires_at))

abbrev pub rows_affected_one : ℕ → Action (Unit {0})
rows_affected_one rows = fail_if (not (rows == 1)) upload_state

unfoldable pub update_session_metadata : ℕ → ℕ → Text → Action (Unit {0})
update_session_metadata upload_id producer_id metadata = do
  rows ← execute database (λ now s. (
    count_where (is_open upload_id producer_id now) s.sessions,
    record s {
      sessions =
          update_where (is_open upload_id producer_id now)
            (λ r. record r { metadata = metadata; error_message = none; updated_at = now })
            s.sessions;
    },
  ))
  rows_affected_one rows

-- error_message = NULL, updated_at = NOW()
abbrev pub clear_error : ℕ → SpecUploadSession → SpecUploadSession
clear_error now r = record r { error_message = none; updated_at = now }

abbrev pub delete_previous : Option SpecUploadAsset → ℕ → Action (Unit {0})
delete_previous none upload_id = pure tt
delete_previous (some previous) upload_id = execute database (λ now s. (
  tt,
  record s {
    assets = delete_where (λ a. a.id == previous.id && a.session_id == upload_id) s.assets;
  },
))

unfoldable pub replace_asset : ℕ → ℕ → SpecUploadAsset → Action (Option SpecUploadAsset)
replace_asset upload_id producer_id asset = transaction database (λ tx_now. do
  found ← query database (λ s. find_where (session_is upload_id) s.sessions)
  locked ← fail_none found upload_not_found
  fail_if (not (locked.producer_id == producer_id)) upload_forbidden
  fail_if (not (is_uploading locked.status)) upload_state
  checked_at ← time_now
  fail_if (ltb locked.expires_at checked_at) upload_expired
  previous ←
      query database
        (λ s. find_where (λ a. a.session_id == upload_id && kind_eq a.kind asset.kind) s.assets)
  delete_previous previous upload_id
  now ← time_now
  insert_asset (asset_defaults upload_id now asset)
  execute database (λ _ s. (
    tt,
    record s { sessions = update_where (session_is upload_id) (clear_error tx_now) s.sessions },
  ))
  pure previous)

-- the rows that VerifyAsset's first UPDATE reaches
abbrev pub verifies : ℕ → ℕ → ℕ → ℕ → Store → SpecUploadAsset → Bool
verifies upload_id producer_id asset_id now s a =
    a.id == asset_id
    && (a.session_id == upload_id && exists_where (is_open upload_id producer_id now) s.sessions)

unfoldable pub verify_asset : ℕ → ℕ → ℕ → ℕ → Text → Text → Action (Unit {0})
verify_asset upload_id producer_id asset_id size content_type etag = do
  rows ← execute database (λ now s.
      let p = verifies upload_id producer_id asset_id now s in
      let ids = map (λ (a : SpecUploadAsset). a.session_id) (select_where p s.assets) in
      let touched = λ (r : SpecUploadSession). member r.id ids in
      (
        count_where touched s.sessions,
        record s {
          assets =
              update_where p
                (λ a. record a {
                  actual_size = some size;
                  actual_content_type = some content_type;
                  etag = some etag;
                  updated_at = now;
                })
                s.assets;
          sessions = update_where touched (clear_error now) s.sessions;
        },
      ))
  rows_affected_one rows

abbrev pub or_else : {A : Type 0} → Option A → Option A → Option A
or_else none b = b
or_else (some a) b = some a

-- the two LEFT JOINs with their COALESCEs
abbrev pub status_row : SpecUploadSession → Store → SpecUploadStatus
status_row us s =
    let spec = find_where (spec_is us.spec_id) s.specs in
    let job = find_where (λ (j : SpecProcessingJob). j.session_id == us.id) s.jobs in
    record {
      upload_id = us.id;
      spec_id = us.spec_id;
      producer_id = us.producer_id;
      status = us.status;
      processing_status = elim spec [
        | none ↦ ProcessingStatus.pending
        | some sp ↦ sp.processing_status
      ];
      error_message =
          or_else us.error_message (elim job [ none ↦ none | some j ↦ j.error_message ]);
      created_at = us.created_at;
      updated_at = us.updated_at;
      expires_at = us.expires_at;
    }

unfoldable pub get_status : ℕ → ℕ → Action SpecUploadStatus
get_status upload_id producer_id = do
  found ←
      query database
        (λ s. Option.map (λ us. status_row us s) (find_where (session_is upload_id) s.sessions))
  row ← fail_none found upload_not_found
  fail_if (not (row.producer_id == producer_id)) upload_forbidden
  pure row

unfoldable pub mark_session_failed : ℕ → Text → Action (Unit {0})
mark_session_failed upload_id reason = execute database (λ now s. (
  tt,
  record s {
    sessions =
        update_where (λ r. r.id == upload_id && is_uploading r.status)
          (λ r. record r {
            status = UploadStatus.failed;
            error_message = some reason;
            updated_at = now;
          })
          s.sessions;
  },
))
