-- ===== src/Catalog/Tests.antt =====
-- The queue on small inputs: one upload from its creation to its completed job.
use blueprint_audio_backend.Common.Strings.{Text, text, text_eq}
use blueprint_audio_backend.Common.Strings.{text_eq_iff}
use blueprint_audio_backend.Common.{
  suc, true, false, none, some, List, [], ◌∷◌, ◌≡◌, ◌≢◌, ◌≤◌, inl, refl, arith, find_where, In,
}
use blueprint_audio_backend.Db.{Env, World, ok, err, transaction}
use blueprint_audio_backend.Catalog.Domain.{
  UploadStatus, UploadAssetKind, ProcessingJobStatus, ProcessingStatus, Category, Spec,
  SpecUploadAsset, SpecUploadSession, SpecProcessingJob, ProcessedSpecFiles, ProcessingBundle,
  no_processing_job,
}
use blueprint_audio_backend.Catalog.Tables.{Store, empty}
use blueprint_audio_backend.Catalog.Request.{Op}
use blueprint_audio_backend.Catalog.Sessions.{create_session, insert_assets}
use blueprint_audio_backend.Catalog.Specs.{create_spec_tx, link_genres, insert_licenses}
use blueprint_audio_backend.Catalog.Statuses.{Moves}
use blueprint_audio_backend.Catalog.Jobs.{
  finalize_upload, check_finalizable, store_assets, enqueue, claim_next_job, complete_job, fail_job,
  heartbeat_job, holds_lease,
}
use blueprint_audio_backend.Catalog.Jobs.Outcomes.{claimable}
use blueprint_audio_backend.Catalog.Jobs.Finalize.{Locks, Queues, finalize_upload_ok}
use blueprint_audio_backend.Catalog.Jobs.Leases.{
  claim_next_job_oldest, unleased_fenced, claim_next_job_fences, complete_job_total, verdict,
}
use blueprint_audio_backend.Catalog.Invariant.{IsValid, status_of}
use blueprint_audio_backend.Catalog.History.{
  call, run, run-IsValid, call-Moves, run_settled, new_job,
}

-- a database that answers every call, one tick apart
abbrev pub calm : Env
calm = record {
  clock = λ n. n;
  fault = λ _. false;
  uuid = λ n. some (suc n);
  locked = λ _ _. false;
}

abbrev pub cover : SpecUploadAsset
cover = record {
  id = 4;
  session_id = 1;
  kind = UploadAssetKind.image;
  file_name = text "cover.png";
  object_key = text "uploads/1/cover";
  final_object_key = text "specs/2/cover";
  declared_content_type = text "image/png";
  actual_content_type = some (text "image/png");
  expected_size = 10;
  actual_size = some 10;
  etag = some (text "e");
  created_at = 0;
  updated_at = 0;
}

abbrev pub upload : SpecUploadSession
upload = record {
  id = 1;
  spec_id = 2;
  producer_id = 3;
  metadata = text "{}";
  status = UploadStatus.unset;
  error_message = none;
  expires_at = 1000;
  created_at = 0;
  updated_at = 0;
  completed_at = none;
  assets = cover ∷ [];
}

abbrev pub beat : Spec
beat = record {
  id = 2;
  producer_id = 3;
  title = text "Beat";
  category = Category.beat;
  image_url = text "";
  preview_url = text "";
  wav_url = none;
  stems_url = none;
  duration = 0;
  waveform_peaks = [];
  slug = none;
  short_code = none;
  processing_status = ProcessingStatus.processing;
  created_at = 0;
  updated_at = 0;
  licenses = [];
  genres = [];
}

abbrev files : ProcessedSpecFiles
files = record {
  image_url = text "specs/2/cover";
  preview_url = text "specs/2/preview";
  wav_url = none;
  stems_url = none;
  duration = 120;
  waveform_peaks = 1 ∷ 2 ∷ [];
}

abbrev pub start : World Store
start = record { tick = 0; store = empty }

abbrev until_queued : List Op
until_queued = Op.create_session upload ∷ Op.finalize_upload upload beat 7 ∷ []

abbrev until_completed : List Op
until_completed =
    Op.create_session upload
    ∷ Op.finalize_upload upload beat 7
    ∷ Op.claim_next_job (text "w1")
    ∷ Op.complete_job 7 (text "w1") files
    ∷ []

empty-IsValid : IsValid empty
empty-IsValid = record {
  tracked = λ j m. absurd m;
  keyed = λ a b m. absurd m;
  leased = λ j m. absurd m;
}

abbrev pub queued_world : World Store
queued_world = run calm until_queued start

abbrev pub claimed_world : World Store
claimed_world = call calm (Op.claim_next_job (text "w1")) queued_world

abbrev completed_world : World Store
completed_world = run calm until_completed start

queued_status : status_of 1 queued_world.store.sessions ≡ some UploadStatus.queued
unfolding run call create_session finalize_upload transaction insert_assets check_finalizable
    store_assets enqueue create_spec_tx link_genres insert_licenses text_eq
queued_status = refl

run-IsValid_example : IsValid completed_world.store
run-IsValid_example = run-IsValid calm until_completed start empty-IsValid

pub queued_world-IsValid : IsValid queued_world.store
queued_world-IsValid = run-IsValid calm until_queued start empty-IsValid

completed_status : status_of 1 completed_world.store.sessions ≡ some UploadStatus.completed
unfolding run call create_session finalize_upload transaction insert_assets check_finalizable
    store_assets enqueue create_spec_tx link_genres insert_licenses text_eq claim_next_job
    complete_job
completed_status = refl

run_settled_example :
    status_of 1
      (run calm
        (Op.requeue_stale_jobs 500
          ∷ Op.claim_next_job (text "w2")
          ∷ Op.mark_session_failed 1 (text "late")
          ∷ [])
        completed_world).store.sessions
    ≡ some UploadStatus.completed
run_settled_example =
    run_settled calm
      (Op.requeue_stale_jobs 500
        ∷ Op.claim_next_job (text "w2")
        ∷ Op.mark_session_failed 1 (text "late")
        ∷ [])
      completed_world 1 UploadStatus.completed
      (run-IsValid calm until_completed start empty-IsValid) completed_status (inl refl)

call-Moves_example :
    Moves (status_of 1 queued_world.store.sessions) (status_of 1 claimed_world.store.sessions)
call-Moves_example =
    call-Moves calm (Op.claim_next_job (text "w1")) queued_world 1 queued_world-IsValid

not_w2 : find_where (holds_lease 7 (text "w2")) claimed_world.store.jobs ≡ none
unfolding run call create_session finalize_upload transaction insert_assets check_finalizable
    store_assets enqueue create_spec_tx link_genres insert_licenses text_eq claim_next_job
not_w2 = refl

unleased_fenced_example :
    ((complete_job 7 (text "w2") files calm claimed_world).0 ≢ ok tt)
    × ((complete_job 7 (text "w2") files calm claimed_world).1.store ≡ claimed_world.store)
    × ((fail_job 7 (text "w2") (text "gone") calm claimed_world).0 ≢ ok tt)
    × ((fail_job 7 (text "w2") (text "gone") calm claimed_world).1.store ≡ claimed_world.store)
    × ((heartbeat_job 7 (text "w2") calm claimed_world).0 ≢ ok tt)
    × ((heartbeat_job 7 (text "w2") calm claimed_world).1.store ≡ claimed_world.store)
unleased_fenced_example =
    unleased_fenced 7 (text "w2") (text "gone") files calm claimed_world not_w2

w1_claims :
    (b : ProcessingBundle) × (b.job.id ≡ 7)
    × ((claim_next_job (text "w1") calm queued_world).0 ≡ ok b)
unfolding run call create_session finalize_upload transaction insert_assets check_finalizable
    store_assets enqueue create_spec_tx link_genres insert_licenses text_eq claim_next_job
w1_claims = (_, refl, refl)

one_queued :
    (k : SpecProcessingJob) × In k queued_world.store.jobs
    × (claimable calm (suc queued_world.tick) k ≡ true)
unfolding run call create_session finalize_upload transaction insert_assets check_finalizable
    store_assets enqueue create_spec_tx link_genres insert_licenses text_eq
one_queued = (_, inl refl, refl)

one_claimed : (k : SpecProcessingJob) × In k claimed_world.store.jobs
unfolding run call create_session finalize_upload transaction insert_assets check_finalizable
    store_assets enqueue create_spec_tx link_genres insert_licenses text_eq claim_next_job
one_claimed = (_, inl refl)

none_left : (claim_next_job (text "w2") calm claimed_world).0 ≡ err no_processing_job
unfolding run call create_session finalize_upload transaction insert_assets check_finalizable
    store_assets enqueue create_spec_tx link_genres insert_licenses text_eq claim_next_job
none_left = refl

w1_completes : (complete_job 7 (text "w1") files calm claimed_world).0 ≡ ok tt
unfolding run call create_session finalize_upload transaction insert_assets check_finalizable
    store_assets enqueue create_spec_tx link_genres insert_licenses text_eq claim_next_job
    complete_job
w1_completes = refl

w1_fails : (fail_job 7 (text "w1") (text "broken") calm claimed_world).0 ≡ ok tt
unfolding run call create_session finalize_upload transaction insert_assets check_finalizable
    store_assets enqueue create_spec_tx link_genres insert_licenses text_eq claim_next_job fail_job
w1_fails = refl

upload_finalizes :
    (finalize_upload upload beat
      (new_job 7 2 1)
      calm
      (call calm (Op.create_session upload) start)).0
    ≡ ok tt
unfolding call create_session finalize_upload transaction insert_assets check_finalizable
    store_assets enqueue create_spec_tx link_genres insert_licenses text_eq
upload_finalizes = refl

w2_is_not_w1 : ◌≢◌ {A = Text} (text "w2") (text "w1")
unfolding text_eq
w2_is_not_w1 e = absurd (ground (arith, text_eq_iff (text "w2") (text "w1")))

claim_next_job_oldest_example :
    (w1_claims.0.job.created_at ≤ one_queued.0.created_at)
    × (w1_claims.0.job.status ≡ ProcessingJobStatus.processing)
    × (w1_claims.0.job.worker_id ≡ some (text "w1"))
    × (w1_claims.0.job.locked_at ≡ some (calm.clock queued_world.tick))
    × ((j : SpecProcessingJob) × In j queued_world.store.jobs
        × (claimable calm (suc queued_world.tick) j ≡ true)
        × (j.id ≡ w1_claims.0.job.id))
claim_next_job_oldest_example =
    claim_next_job_oldest (text "w1") calm queued_world w1_claims.0 one_queued.0 w1_claims.2
      one_queued.1 one_queued.2

claim_next_job_fences_example :
    find_where
      (holds_lease w1_claims.0.job.id (text "w2"))
      (claim_next_job (text "w1") calm queued_world).1.store.jobs
    ≡ none
claim_next_job_fences_example =
    claim_next_job_fences (text "w2") (text "w1") calm queued_world w1_claims.0 w2_is_not_w1
      w1_claims.2

complete_job_total_example :
    (complete_job 7 (text "w1") files calm claimed_world).0
    ≡ verdict 7 (text "w1") claimed_world.store
complete_job_total_example = complete_job_total 7 (text "w1") files calm claimed_world (λ n. refl)

abbrev created_world : World Store
created_world = call calm (Op.create_session upload) start

finalize_upload_ok_example :
    Locks upload created_world.store
    × Queues upload
        (new_job 7 2 1)
        created_world.store
        (finalize_upload upload beat (new_job 7 2 1) calm created_world).1.store
finalize_upload_ok_example =
    finalize_upload_ok upload beat (new_job 7 2 1) calm created_world upload_finalizes
