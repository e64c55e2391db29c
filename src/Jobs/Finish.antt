-- ===== src/Jobs/Finish.antt =====
-- `finish_resources`: what a job leaves behind when it fails or is cancelled.
use extrio.Base.{
  ℕ, String, Bool, true, false, ◌&&◌, Option, none, some, [], ◌∷◌, ◌=ₛ◌, if◌then◌else◌, map,
  or_else, Outcome, ok, err, ◌>>=◌, ◌>>◌,
}
use text.Mathlib.Text.{starts_with}
use extrio.Activity.{Metrics, Terminal, elapsed_ms, advance_activity}
use extrio.Jobs.Tables.{
  Status, running, ended, JobStatus, Error, Payload, Job, Operation, AiRun, AiAttempt, Collector,
  Run, World, is_terminal, update_job, put,
}

pub data JobError : Type 0 where
  lease_lost job_cancelled missing_row collector_not_found invalid_value : JobError

-- `dict.update` of one key
set_metric : String → ℕ → Metrics → Metrics
set_metric name n [] = (name, n) ∷ []
set_metric name n ((k, v) ∷ rest) =
    if k =ₛ name then (k, n) ∷ rest else (k, v) ∷ set_metric name n rest

pub merge : Metrics → Metrics → Metrics
unfolding set_metric
merge base [] = base
merge base ((k, v) ∷ rest) = merge (set_metric k v base) rest

-- `lock_collector`
unfoldable pub lock_collector : World → String → Outcome JobError (Unit {0})
lock_collector w id = elim (w.collector id) [
  | none ↦ err collector_not_found
  | some c ↦ if c.deleted then err collector_not_found else ok tt
]

abbrev pub lock_if : World → Option String → Outcome JobError (Unit {0})
lock_if w none = ok tt
lock_if w (some id) = lock_collector w id

-- `update_ai_activity` with a terminal status, phase "completed", progress 100 and no metrics; `keys` is
-- `empty_operation_metrics()`
module _ (keys : Metrics) (status : Terminal) (error : Error) (now : ℕ) where
  abbrev pub ended_operation : Operation → Operation
  ended_operation o = record o {
    status = ended status;
    phase = "completed";
    progress = 100;
    error = some error;
  }

  abbrev pub with_activity : Operation → Operation
  with_activity o =
      let merged = merge keys o.metrics in
      record (ended_operation o) {
        metrics = merged;
        activity = advance_activity "completed" merged now (some status) o.activity;
      }

  -- the writes of `update_ai_activity` and of `update_ai_run`
  abbrev pub ended_ai_run : Metrics → AiRun → AiRun
  ended_ai_run merged a = record a {
    status = ended status;
    phase = "completed";
    progress = 100;
    error = some error;
    activity = advance_activity "completed" merged now (some status) a.activity;
    finished_at = some now;
    duration_ms = some (elapsed_ms (or_else a.started_at a.created_at) now);
    result_status = "no_candidate";
    review_status = "not_ready";
  }

  abbrev is_running : Status → Bool
  is_running running = true
  is_running _ = false

  -- `finish_ai_attempt` on the running attempts of the run
  abbrev pub ended_attempt : String → AiAttempt → AiAttempt
  ended_attempt ai_run_id t =
      if (t.ai_run_id =ₛ ai_run_id) && is_running t.status
      then record t {
        status = ended status;
        finished_at = some now;
        duration_ms = some (elapsed_ms t.started_at now);
        error = some error;
      }
      else t

  unfoldable pub finish_operation :
      World → String → Operation → Option String → Outcome JobError World
  finish_operation w operation_id o none =
      ok (record w { operation = put operation_id (ended_operation o) w.operation })
  finish_operation w operation_id o (some ai_run_id) = elim (w.ai_run ai_run_id) [
    | none ↦ err missing_row
    | some a ↦ ok (record w {
      operation = put operation_id (with_activity o) w.operation;
      ai_run = put ai_run_id (ended_ai_run (merge keys o.metrics) a) w.ai_run;
      ai_attempts = map (ended_attempt ai_run_id) w.ai_attempts;
    })
  ]

  abbrev is_this : Option String → String → Bool
  is_this none id = false
  is_this (some k) id = k =ₛ id

  abbrev failed_migration : Option String → Option String
  failed_migration none = none
  failed_migration (some s) = some "failed"

  abbrev pub released : String → Option String → Collector → Collector
  released kind previous_status c =
      if kind =ₛ "explore"
      then record c {
        active_operation_id = none;
        status = or_else previous_status "draft";
        migration_status = failed_migration c.migration_status;
      }
      else record c { active_operation_id = none }

  -- the collector gives up the operation, if it is the one that it works on
  unfoldable pub release_collector : String → String → Payload → World → World
  release_collector operation_id kind payload w = elim payload.collector_id [
    | none ↦ w
    | some id ↦ elim (w.collector id) [
      | none ↦ w
      | some c ↦
          if is_this c.active_operation_id operation_id
          then record w { collector = put id (released kind payload.previous_status c) w.collector }
          else w
    ]
  ]

  abbrev pub ended_run : Run → Run
  ended_run r = record r {
    status = ended status;
    duration = "-";
    summary = error.message;
    recovery_action = "Review the failure and retry.";
    integrity_status = if starts_with error.code "INTEGRITY" then "invalid" else r.integrity_status;
  }

  unfoldable pub finish_run : Payload → World → World
  finish_run payload w = elim payload.run_id [
    | none ↦ w
    | some id ↦ elim (w.run id) [
      | none ↦ w
      | some r ↦ record w { run = put id (ended_run r) w.run }
    ]
  ]

  -- the job's row; `clip` cuts a text to 2000 characters
  abbrev pub failed_job : (String → String) → Job → Job
  failed_job clip j = record j {
    status = JobStatus.failed;
    lease_until = none;
    last_error = some (clip error.message);
  }

  unfoldable pub finish_resources :
      (String → String) → ℕ → String → String → Payload → World → Outcome JobError World
  finish_resources clip job_id operation_id kind payload w = do
    lock_if w payload.collector_id
    elim (w.operation operation_id) [
      | none ↦ ok w
      | some o ↦ if is_terminal o.status then ok w else (do
        w' ← finish_operation w operation_id o payload.ai_run_id
        let w'' = finish_run payload (release_collector operation_id kind payload w')
        ok (record w'' { jobs = update_job job_id (failed_job clip) w''.jobs }))
    ]
