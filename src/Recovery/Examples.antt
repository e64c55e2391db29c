-- ===== src/Recovery/Examples.antt =====
-- A batch of recovery from its start to its end, and the theorems applied to it.
use extrio.Base.{
  zero, ◌*◌, ◌≤◌, String, ◌≡◌, refl, ◌↔◌, true, false, Option, none, some, [], ◌∷◌, arith, is_some,
  length, ok,
}
use extrio.Base.Same.{→holds}
use extrio.Recovery.Values.{
  Progress, Run, Policy, Source, failed, OptionProgress_discrete, OptionCheckpoint_discrete,
  valid_progress,
}
use extrio.Recovery.Batch.{Batch, Status, Reason, cool, stop, save, finished}
use extrio.Recovery.Tick.{
  World, OperationStatus, tick_batch, with_source, wake_if_cooling, wake, launch, launched,
  context_moved, progress_moved, lock_collector, same_progress, same_checkpoint,
}
use extrio.Recovery.Commands.{
  for_run, find_seeded, find_batch, Seed, start, start_from, admit, bad_seed, fresh,
  guard_source_work, require_active, request_stop,
}
use extrio.Recovery.Invariant.{IsSound}
use extrio.Recovery.Rounds.{Knows}
use extrio.Recovery.Life.{here, ticked, asked, Life-bounded}
use extrio.Recovery.Halting.{IsReady, dispatches, dispatches-wake_iff, is_halted, Life-halted}
use extrio.Recovery.Starting.{HasNone, NoneHolds, start_exclusive}

abbrev progress : Progress
progress = record {
  rule_digest = "rule";
  policy_version_id = "policy";
  window_start = "2026-01-01";
  resume_url = "https://a.example/2";
  page_index = 2;
  anchor_url = none;
  processed_urls = [];
  older_pages_before = 0;
  watermark = none;
  oldest_date_before = none;
  page_complete = false;
  overlap_urls = [];
}

abbrev limited_run : Run
limited_run = record {
  id = "run";
  collector_id = "source";
  operation_id = "operation";
  recovery_batch_id = none;
  status = failed;
  pagination_stop_reason = "source_rate_limited";
  integrity_status = "verified";
  rule_version = "v1";
  rule_digest = "rule";
  policy_version = "policy";
  started_at = some 0;
  finished_at = some 100;
  duration = none;
  retry_after_seconds = some 60;
  progress_before = some progress;
  progress_after = some progress;
  checkpoint_before = none;
  checkpoint_after = none;
  items = 0;
  list_pages_fetched = 1;
  detail_pages_fetched = 0;
  source_requests = some 1;
}

abbrev policy : Policy
policy = record { id = "policy"; checkpoint_mode = "observed"; max_pages = 3; max_items = 50 }

abbrev source : Source
source = record {
  id = "source";
  status = "published";
  lifecycle = "active";
  deleted = false;
  latest_run_id = some "run";
  schedule_enabled = false;
  active_operation_id = none;
  pending_collection_version = none;
  active_rule_version = "v1";
  policy = some policy;
  progress = some progress;
}

abbrev world : World
world = record {
  source = λ id. some source;
  run = λ id. some limited_run;
  operation = λ id. some OperationStatus.open_operation;
  checkpoint = λ id. none;
}

abbrev context : Source → String
context s = "context"

abbrev resume_host : Progress → String
resume_host p = "a.example"

abbrev create_run : World → Batch → Option (String × World)
create_run w b = some ("continued", w)

abbrev seed : Seed
seed = record {
  has_active_run = false;
  attested = true;
  hosts = "a.example" ∷ [];
  queued_hosts = [];
}

-- the batch that is started at 200, and wakes at 1900
abbrev batch : Batch
batch = record {
  id = "batch";
  collector_id = "source";
  seed_run_id = "run";
  status = Status.cooling_down;
  reason = Reason.source_rate_limited;
  created_at = 200;
  updated_at = 200;
  expires_at = 86600;
  finished_at = none;
  next_attempt_at = some 1900;
  source_not_before = some 1900;
  max_attempts = 3;
  attempt_run_ids = [];
  active_run_id = none;
  reserved_requests = 0;
  max_requests = 360;
  hosts = "a.example" ∷ [];
  context_digest = "context";
  expected_progress = progress;
  expected_checkpoint = none;
  rule_version = "v1";
  rule_digest = "rule";
  policy_version = "policy";
  window_start = "2026-01-01";
  cancel_requested = false;
}

batch-IsSound : IsSound batch
batch-IsSound = ground arith

batch-Knows : Knows world batch
batch-Knows id e = cc e

same : same_progress (some progress) (some progress) ≡ true
same = →holds (OptionProgress_discrete (some progress) (some progress)) refl

none_same : same_checkpoint none none ≡ true
none_same = →holds (OptionCheckpoint_discrete none none) refl

-- a batch of another run that holds another host
abbrev elsewhere : Batch
elsewhere = record batch { id = "other"; seed_run_id = "other run"; hosts = "b.example" ∷ [] }

started : start context "batch" world 200 (elsewhere ∷ []) "run" seed ≡ ok batch
unfolding start start_from admit bad_seed fresh guard_source_work require_active cool stop finished
    lock_collector valid_progress for_run find_seeded find_batch
started = rw same

woken : Batch
woken = save 2000 (launched "continued" batch)

wakes :
    tick_batch context resume_host create_run world 2000 batch
    ≡ some (record { batch = woken; cancelled_operation = none; dispatched = true; world = world })
unfolding tick_batch with_source wake_if_cooling wake launch launched context_moved progress_moved
    lock_collector save woken
wakes = rw (same, none_same)

Life-bounded_example :
    (1 ≤ 3)
    × (length woken.attempt_run_ids ≡ 1)
    × (woken.reserved_requests ≡ 120 * 1)
    × (woken.reserved_requests ≤ woken.max_requests)
Life-bounded_example =
    Life-bounded context resume_host create_run batch-IsSound refl
      (ticked world 2000 here refl batch-Knows wakes)

dispatches-wake_iff_example :
    (dispatches (wake context resume_host create_run world source 2000 batch) ≡ true)
    ↔ (IsReady context world source 2000 batch × (is_some (create_run world batch) ≡ true))
dispatches-wake_iff_example =
    dispatches-wake_iff context resume_host create_run world source 2000 batch

due_1900 : (cool limited_run 200 batch).next_attempt_at ≡ some 1900
unfolding cool stop finished
due_1900 = refl

-- the batch once it has been asked to stop at 300
cancelled_batch : Batch
cancelled_batch =
    save 300
      (stop Status.cancelled Reason.cancel_requested 300 (record batch { cancel_requested = true }))

asked_again :
    request_stop world 400 cancelled_batch
    ≡ some (record {
      batch = cancelled_batch;
      cancelled_operation = none;
      dispatched = false;
      world = world;
    })
unfolding request_stop save stop cancelled_batch
asked_again = refl

cancelled-halted : is_halted cancelled_batch.status ≡ true
unfolding cancelled_batch save stop
cancelled-halted = refl

Life-halted_example : (zero ≡ 0) × (is_halted cancelled_batch.status ≡ true)
Life-halted_example =
    Life-halted context resume_host create_run cancelled-halted (asked world 400 here asked_again)

start_exclusive_example :
    IsSound batch
    × (batch.attempt_run_ids ≡ [])
    × HasNone world "run" (elsewhere ∷ [])
    × NoneHolds 200 (elsewhere ∷ []) batch.hosts
start_exclusive_example =
    start_exclusive context "batch" world 200 (elsewhere ∷ []) "run" seed batch started
