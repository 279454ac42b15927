-- ===== src/Processing/Next/Loop.antt =====
-- The loop of StartUploadWorker in internal/modules/catalog/application/worker.go, over a list of
-- turns: the context is over when they end.
use Prim.Native.Nat.{◌/◌}
use blueprint_audio_backend.Common.{
  ℕ, suc, ◌+◌, Bool, true, Option, none, some, List, [], ◌∷◌, ltb, if◌then◌else◌, ◌==◌, Text,
}
use blueprint_audio_backend.Db.{Env, World}
use blueprint_audio_backend.Catalog.Tables.{Store}
use blueprint_audio_backend.Catalog.Request.{Op}
use blueprint_audio_backend.Catalog.History.{run}
use blueprint_audio_backend.Processing.Media.{ProcessError, Ports}
use blueprint_audio_backend.Processing.Next.{
  Round, Site, process_next, requeue_stale, expire_uploads,
}

-- what other clients have called since the last turn, and what happens during this one
pub record Turn : Type 0 where
  pub others : List Op
  pub round : Round

-- nextRequeue, with nothing for the zero time, and what the worker works on
pub record Worker : Type 0 where
  pub next_requeue : Option ℕ
  pub site : Site

-- cfg.LeaseDuration, in nanoseconds
abbrev pub lease_of : ℕ → ℕ
lease_of duration = if duration == 0 then 1_800_000_000_000 else duration

abbrev pub requeue_interval : ℕ → ℕ
requeue_interval lease = if ltb (lease / 2) 60_000_000_000 then 60_000_000_000 else lease / 2

abbrev pub is_due : Option ℕ → ℕ → Bool
is_due none now = true
is_due (some at) now = ltb at now

-- ExpireUploads and then RequeueStale, whose errors are only logged
unfoldable pub upkeep : Env → ℕ → World Store → World Store
upkeep env lease w = let (_, w') = expire_uploads env w in (requeue_stale lease env w').1

-- the part of a turn before ProcessNext
unfoldable pub prepare_turn : Env → ℕ → Worker → Worker
prepare_turn env lease k =
    let w = k.site.tables in
    let now = env.clock w.tick in
    let w' = record w { tick = suc w.tick } in
    if is_due k.next_requeue now
    then record {
      next_requeue = some (now + requeue_interval lease);
      site = record k.site { tables = upkeep env lease w' };
    }
    else record k { site = record k.site { tables = w' } }

module _ (p : Ports) (describe : ProcessError → Text) (has_notifier : Bool) where
  unfoldable pub take_turn : Env → Text → ℕ → Turn → Worker → Worker
  take_turn env worker_id lease t k =
      let tables = run env t.others k.site.tables in
      let ready = prepare_turn env lease (record k { site = record k.site { tables = tables } }) in
      let (_, site) = process_next p describe has_notifier env worker_id t.round ready.site in
      record ready { site = site }

  unfoldable pub run_worker : Env → Text → ℕ → List Turn → Worker → Worker
  run_worker env worker_id lease [] k = k
  run_worker env worker_id lease (t ∷ turns) k =
      run_worker env worker_id lease turns (take_turn env worker_id lease t k)
