-- ===== src/Processing/Next/Tests.antt =====
-- A sample that is processed, and a beat whose preview is missing.
use blueprint_audio_backend.Common.{
  ℕ, true, false, none, some, List, [], ◌∷◌, ◌++◌, ◌≡◌, ◌⊎◌, refl, In, All, find_where, Text, text,
}
use blueprint_audio_backend.Common.Strings.{Unicode, text_eq, to_lower, trim_space}
use blueprint_audio_backend.Db.{ok, err, transaction}
use blueprint_audio_backend.Catalog.Domain.{
  UploadAssetKind, Category, SpecUploadAsset, ProcessingBundle, ProcessedSpecFiles,
}
use blueprint_audio_backend.Catalog.History.{run, call, new_job}
use blueprint_audio_backend.Catalog.Sessions.{create_session, insert_assets}
use blueprint_audio_backend.Catalog.Specs.{create_spec_tx, link_genres, insert_licenses}
use blueprint_audio_backend.Catalog.Jobs.{
  finalize_upload, check_finalizable, store_assets, enqueue, claim_next_job, complete_job, fail_job,
  heartbeat_job, holds_lease,
}
use blueprint_audio_backend.Catalog.Tests.{calm, cover, upload, beat, claimed_world}
use blueprint_audio_backend.Upload.Files.{normalize_content_type}
use blueprint_audio_backend.Processing.Waveform.{
  level, flush_chunk, validate_decoded_mp3_frame_count, add_frame, add_frames, add_reads,
  decode_chunks,
}
use blueprint_audio_backend.Processing.Waveform.Bars.{
  silence, add_at, value_at, place_averages, bar_average, bar_averages, waveform_peak,
  chunk_average, duration_of, analyze_mp3,
}
use blueprint_audio_backend.Processing.Waveform.Tests.{preview, rounded_down}
use blueprint_audio_backend.Processing.Media.{
  ProcessError, Ports, is_interruption, normalize_cover_image, read_bounded, analyze_preview,
}
use blueprint_audio_backend.Processing.Process.{
  is_unchanged, copy_asset, visit_asset, copy_assets, check_optional, process_audio, process_assets,
  process,
}
use blueprint_audio_backend.Processing.Process.Keys.{asset_keys, process-keys}
use blueprint_audio_backend.Processing.Next.{
  Round, Site, Outcome, heartbeat, record_failure, record_success, conclude, attempt,
  process_claimed,
}
use blueprint_audio_backend.Processing.Next.Fencing.{
  is_settled, final_tables, process_claimed-fenced,
}
use blueprint_audio_backend.Processing.Next.Cleanup.{Deletes, source_keys}
use blueprint_audio_backend.Processing.Next.Endings.{
  FailedJob, CompletedJob, process_claimed-failed, process_claimed-completed,
}

abbrev ascii : Unicode
ascii = record { lower = λ c. c; upper = λ c. c; space = λ c. false }

-- every object is one of ten bytes whose decoding succeeds
abbrev ready : Ports
ready = record {
  unicode = ascii;
  show_uuid = λ n. text "2";
  floats = rounded_down;
  stat_object =
      λ n key. ok (record { size = 10; content_type = text "image/png"; etag = text "e" });
  copy_object = λ n source destination etag. ok tt;
  open_object =
      λ n key. ok (record { bytes = 1 ∷ 2 ∷ 3 ∷ []; failure = none; close_failure = none });
  upload_with_key = λ n content key content_type. ok tt;
  object_url = λ key. ok (text "https://cdn/" ++ key);
  mp3 = λ r. some (30, preview, false);
  mp3_interrupted = λ r. false;
  Image = ℕ × ℕ;
  decode_config = λ content. some (text "png", 4, 3);
  decode = λ content. some (4, 3);
  bounds = λ image. image;
  crop_center = λ image w h. (w, h);
  fit = λ image w h. image;
  encode_jpeg = λ image quality. some (255 ∷ 216 ∷ []);
}

abbrev sample_preview : SpecUploadAsset
sample_preview = record cover {
  id = 5;
  kind = UploadAssetKind.preview;
  object_key = text "uploads/1/preview";
  final_object_key = text "audio/previews/2.mp3";
}

abbrev bundle_of : Category → List SpecUploadAsset → ProcessingBundle
bundle_of category assets = record {
  job = new_job 7 2 1;
  session = upload;
  spec = record beat { category = category };
  assets = assets;
}

abbrev sample_bundle : ProcessingBundle
sample_bundle = bundle_of Category.sample (cover ∷ sample_preview ∷ [])

abbrev beat_bundle : ProcessingBundle
beat_bundle = bundle_of Category.beat (cover ∷ [])

abbrev quiet : Round
quiet = record { ticks = record { others = []; is_over = false } ∷ []; others = []; first_call = 0 }

abbrev claimed_site : Site
claimed_site = record { tables = claimed_world; deleted = []; notices = [] }

abbrev describe : ProcessError → Text
describe e = text "failed"

abbrev run_sample : Outcome × Site
run_sample = process_claimed ready describe true calm (text "w1") quiet sample_bundle claimed_site

abbrev run_beat : Outcome × Site
run_beat = process_claimed ready describe true calm (text "w1") quiet beat_bundle claimed_site

no_preview_fails : run_beat.0 ≡ Outcome.failed ProcessError.no_preview
unfolding process_claimed heartbeat conclude record_failure process copy_assets visit_asset
    copy_asset is_unchanged process_assets is_interruption run call create_session finalize_upload
    transaction insert_assets check_finalizable store_assets enqueue create_spec_tx link_genres
    insert_licenses text_eq claim_next_job fail_job heartbeat_job normalize_content_type to_lower
    trim_space
no_preview_fails = refl

sample_completes : (files : ProcessedSpecFiles) × (run_sample.0 ≡ Outcome.completed files)
unfolding process_claimed heartbeat conclude record_success process copy_assets visit_asset
    copy_asset is_unchanged process_assets process_audio read_bounded normalize_cover_image
    analyze_preview check_optional analyze_mp3 decode_chunks add_reads add_frames add_frame
    validate_decoded_mp3_frame_count flush_chunk level silence add_at value_at place_averages
    bar_average bar_averages waveform_peak chunk_average duration_of run call create_session
    finalize_upload transaction insert_assets check_finalizable store_assets enqueue create_spec_tx
    link_genres insert_licenses text_eq claim_next_job complete_job heartbeat_job
    normalize_content_type to_lower trim_space
sample_completes = (_, refl)

w2_holds_nothing :
    find_where
      (holds_lease 7 (text "w2"))
      (final_tables calm
        (text "w2")
        (record quiet { ticks = [] })
        sample_bundle
        claimed_site).store.jobs
    ≡ none
unfolding heartbeat run call create_session finalize_upload transaction insert_assets
    check_finalizable store_assets enqueue create_spec_tx link_genres insert_licenses text_eq
    claim_next_job
w2_holds_nothing = refl

process-keys_example :
    let (result, w) =
      process ready beat_bundle calm
        (record { tick = 0; store = record { written = []; keys = [] } }) in
    (visited : List SpecUploadAsset) × (rest : List SpecUploadAsset) × (cover ∷ []
      ≡ visited ++ rest)
    × (w.store.keys ≡ text "images/2.jpg" ∷ asset_keys visited)
    × ((files : ProcessedSpecFiles) → result ≡ ok files → rest ≡ [])
    × All (λ k. In k w.store.keys) w.store.written
process-keys_example = process-keys ready beat_bundle calm 0

process_claimed-fenced_example :
    let (o, s') =
      process_claimed ready describe true calm
        (text "w2")
        (record quiet { ticks = [] })
        sample_bundle
        claimed_site in
    let w =
      final_tables calm (text "w2") (record quiet { ticks = [] }) sample_bundle claimed_site in
    (is_settled o ≡ false)
    × (s'.deleted ≡ [])
    × (s'.notices ≡ [])
    × ((s'.tables.store ≡ w.store)
        ⊎ (s'.tables ≡ (heartbeat calm 7 (text "w2") [] claimed_world).1))
process_claimed-fenced_example =
    process_claimed-fenced ready describe true calm (text "w2") (record quiet { ticks = [] })
      sample_bundle claimed_site w2_holds_nothing

process_claimed-failed_example :
    let (result, bench) = attempt ready calm 0 beat_bundle in
    (result ≡ err ProcessError.no_preview)
    × (is_interruption ProcessError.no_preview ≡ false)
    × FailedJob calm 7
        (text "w1")
        (text "failed")
        (final_tables calm (text "w1") quiet beat_bundle claimed_site)
        run_beat.1.tables
    × All (λ k. In k run_beat.1.deleted) bench.store.written
process_claimed-failed_example =
    process_claimed-failed ready describe true calm (text "w1") quiet beat_bundle claimed_site
      ProcessError.no_preview no_preview_fails

process_claimed-completed_example :
    ((attempt ready calm 0 sample_bundle).0 ≡ ok sample_completes.0)
    × CompletedJob calm 7
        (text "w1")
        sample_completes.0
        (final_tables calm (text "w1") quiet sample_bundle claimed_site)
        run_sample.1.tables
    × Deletes (source_keys (cover ∷ sample_preview ∷ [])) [] run_sample.1.deleted
process_claimed-completed_example =
    process_claimed-completed ready describe true calm (text "w1") quiet sample_bundle claimed_site
      sample_completes.0 sample_completes.1
