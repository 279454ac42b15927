-- ===== src/Catalog/Frames.antt =====
-- What the parts of FinalizeUpload leave alone: creating the spec and storing the verified
-- assets touch neither the sessions nor the jobs.
use blueprint_audio_backend.Common.{ℕ, List, [], ◌∷◌, refl, arith}
use blueprint_audio_backend.Db.Laws.{Keeps}
use blueprint_audio_backend.Catalog.Domain.{
  Spec, Genre, LicenseOption, SpecUploadAsset, SpecUploadSession, SpecProcessingJob,
}
use blueprint_audio_backend.Catalog.Tables.{Store}
use blueprint_audio_backend.Catalog.Specs.{
  genre_id_of, insert_spec_genre, link_genres, insert_licenses, create_spec_tx,
}
use blueprint_audio_backend.Catalog.Jobs.{store_assets}

-- the tables that the queue's invariant is about
abbrev pub queue : Store → List SpecUploadSession × List SpecProcessingJob
queue s = (s.sessions, s.jobs)

genre_id_of-Keeps : (genre : Genre) → Keeps queue (genre_id_of genre)
genre_id_of-Keeps genre env w = ground arith

insert_spec_genre-Keeps : (i g : ℕ) → Keeps queue (insert_spec_genre i g)
insert_spec_genre-Keeps i g env w = ground arith

link_genres-Keeps : (spec_id : ℕ) (genres : List Genre) → Keeps queue (link_genres spec_id genres)
unfolding link_genres
link_genres-Keeps spec_id [] env w = refl
link_genres-Keeps spec_id (g ∷ genres) env w = grind (arith, link_genres-Keeps spec_id genres env)

insert_licenses-Keeps :
    (spec_id : ℕ) (licenses : List LicenseOption) → Keeps queue (insert_licenses spec_id licenses)
unfolding insert_licenses
insert_licenses-Keeps spec_id [] env w = refl
insert_licenses-Keeps spec_id (l ∷ licenses) env w =
    grind (arith, insert_licenses-Keeps spec_id licenses env)

pub create_spec_tx-Keeps : (spec : Spec) → Keeps queue (create_spec_tx spec)
unfolding create_spec_tx
create_spec_tx-Keeps spec env w = grind (arith, link_genres-Keeps, insert_licenses-Keeps)

pub store_assets-Keeps :
    (session_id now : ℕ) (assets : List SpecUploadAsset)
    → Keeps queue (store_assets session_id now assets)
unfolding store_assets
store_assets-Keeps session_id now [] env w = refl
store_assets-Keeps session_id now (a ∷ assets) env w =
    grind (arith, store_assets-Keeps session_id now assets env)
