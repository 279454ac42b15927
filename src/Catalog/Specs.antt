-- ===== src/Catalog/Specs.antt =====
-- createSpecTx of internal/modules/catalog/infrastructure/persistence/postgres/spec_repo.go:
-- a spec with its analytics row, genres and licence options, in the caller's transaction.
use blueprint_audio_backend.Common.Strings.{text_eq}
use blueprint_audio_backend.Common.{
  ℕ, none, some, List, [], ◌∷◌, ◌++◌, ◌==◌, ◌&&◌, if◌then◌else◌, exists_where, find_where,
}
use blueprint_audio_backend.Db.{pure, ◌>>=◌, ◌>>◌, execute, insert, time_now, new_uuid}
use blueprint_audio_backend.Catalog.Domain.{
  database, uuid, ProcessingStatus, Spec, Genre, LicenseOption,
}
use blueprint_audio_backend.Catalog.Tables.{spec_violates}
use blueprint_audio_backend.Catalog.Sessions.{Action, id_or_new}

abbrev pub status_or_pending : ProcessingStatus → ProcessingStatus
status_or_pending ProcessingStatus.unset = ProcessingStatus.pending
status_or_pending status = status

abbrev pub spec_defaults : ℕ → ℕ → Spec → Spec
spec_defaults created updated spec = record spec {
  created_at = if spec.created_at == 0 then created else spec.created_at;
  updated_at = updated;
  processing_status = status_or_pending spec.processing_status;
}

-- the relations are rows of other tables; the INSERT names no waveform_peaks
abbrev pub insert_spec_row : Spec → Action (Unit {0})
insert_spec_row spec = insert database database (spec_violates spec) (λ _ s. record s {
  specs = s.specs ++ (record spec { waveform_peaks = []; licenses = []; genres = [] }) ∷ [];
})

-- INSERT INTO spec_analytics … ON CONFLICT DO NOTHING
abbrev pub insert_analytics : ℕ → Action (Unit {0})
insert_analytics spec_id = execute database (λ _ s. (
  tt,
  record s {
    analytics =
        if exists_where (λ id. id == spec_id) s.analytics
        then s.analytics
        else s.analytics ++ spec_id ∷ [];
  },
))

-- INSERT … ON CONFLICT (slug) DO UPDATE … RETURNING id
abbrev pub get_or_create_genre : Genre → Action ℕ
get_or_create_genre genre = do
  candidate ← new_uuid uuid
  now ← time_now
  execute database (λ _ s. elim (find_where (λ (g : Genre). text_eq g.slug genre.slug) s.genres) [
    | some g ↦ (g.id, s)
    | none ↦ (
      candidate,
      record s { genres = s.genres ++ (record genre { id = candidate; created_at = now }) ∷ [] },
    )
  ])

abbrev pub genre_id_of : Genre → Action ℕ
genre_id_of genre env w =
    if genre.id == 0 then get_or_create_genre genre env w else pure genre.id env w

-- PRIMARY KEY (spec_id, genre_id)
abbrev pub insert_spec_genre : ℕ → ℕ → Action (Unit {0})
insert_spec_genre spec_id genre_id =
    insert database database
      (λ s. exists_where (λ r. r.0 == spec_id && r.1 == genre_id) s.spec_genres)
      (λ _ s. record s { spec_genres = s.spec_genres ++ (spec_id, genre_id) ∷ [] })

unfoldable pub link_genres : ℕ → List Genre → Action (Unit {0})
link_genres spec_id [] = pure tt
link_genres spec_id (genre ∷ rest) = do
  genre_id ← genre_id_of genre
  insert_spec_genre spec_id genre_id
  link_genres spec_id rest

abbrev pub insert_license : LicenseOption → Action (Unit {0})
insert_license license =
    insert database database
      (λ s. exists_where (λ (l : LicenseOption). l.id == license.id) s.licenses)
      (λ _ s. record s { licenses = s.licenses ++ license ∷ [] })

unfoldable pub insert_licenses : ℕ → List LicenseOption → Action (Unit {0})
insert_licenses spec_id [] = pure tt
insert_licenses spec_id (license ∷ rest) = do
  id ← id_or_new license.id
  insert_license (record license { id = id; spec_id = spec_id })
  insert_licenses spec_id rest

-- it returns the identifier that `spec.ID` then holds
unfoldable pub create_spec_tx : Spec → Action ℕ
create_spec_tx spec = do
  id ← id_or_new spec.id
  created ← time_now
  updated ← time_now
  insert_spec_row (spec_defaults created updated (record spec { id = id }))
  insert_analytics id
  link_genres id spec.genres
  insert_licenses id spec.licenses
  pure id
