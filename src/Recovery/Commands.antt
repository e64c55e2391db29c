-- ===== src/Recovery/Commands.antt =====
-- What a person may ask for: `start` a batch, `request_stop` it; and the two checks by which other
-- work asks about batches, `guard_source_work` and `validate_attempt`. The receipts and the audit
-- event of the two commands, and the signature check of `start`, are not modelled: `attested` is its
-- outcome, true when the rule's attestation verifies with the run's rule digest.
use extrio.Base.{
  ℕ, ◌+◌, ◌*◌, String, Bool, true, false, ◌&&◌, ◌||◌, not, Option, none, some, List, [], ◌∷◌, ltb,
  leb, ◌=ₛ◌, is_some, any, raise_if, Outcome, ok, err, ◌>>=◌, ◌>>◌, if◌then◌else◌,
}
use extrio.Recovery.Values.{Progress, Run, RunStatus, Policy, Source, failed, valid_progress}
use extrio.Recovery.Batch.{Batch, Status, Reason, stop, cool, save, is_active}
use extrio.Recovery.Tick.{
  World, Round, OperationStatus, quiet, lock_collector, same_progress, same_checkpoint,
  context_moved,
}

pub data RecoveryError : Type 0 where
  source_recovery_active recovery_already_exists run_not_found collector_not_found : RecoveryError
  collector_archived recovery_seed_invalid recovery_attempt_blocked : RecoveryError

unfoldable pub cancel_open : String → OperationStatus → Option String
cancel_open id OperationStatus.open_operation = some id
cancel_open id OperationStatus.terminal_operation = none

-- the batch once its run has been asked to cancel
unfoldable pub stopping : ℕ → Batch → Batch
stopping now b = save now (record b {
  cancel_requested = true;
  status = Status.cancelling;
  reason = Reason.cancel_requested;
  next_attempt_at = none;
})

unfoldable pub ask_run : World → ℕ → Batch → Run → Option Round
ask_run w now b run = elim (w.operation run.operation_id) [
  | none ↦ none
  | some o ↦ some (record {
    batch = stopping now b;
    cancelled_operation = cancel_open run.operation_id o;
    dispatched = false;
    world = w;
  })
]

-- `request_stop` on a batch that was found; `none` where the code fails on a missing row
unfoldable pub request_stop : World → ℕ → Batch → Option Round
request_stop w now b =
    if is_active b.status
    then elim b.active_run_id [
      | none ↦ some (
          quiet w (
            save now (
              stop Status.cancelled Reason.cancel_requested now
                (record b { cancel_requested = true }))))
      | some run_id ↦ elim (w.run run_id) [ none ↦ none | some run ↦ ask_run w now b run ]
    ]
    else some (quiet w b)

-- `set(a).intersection(b)` is not empty
abbrev pub overlap : List String → List String → Bool
overlap xs ys = any (λ x. any (λ y. x =ₛ y) ys) xs

-- a batch holds its hosts while it is active, and until `hold_until`
abbrev pub is_holding : ℕ → Batch → Bool
is_holding now b =
    is_active b.status || elim b.source_not_before [ none ↦ false | some t ↦ ltb now t ]

abbrev pub is_owner : Option String → Batch → Bool
is_owner none b = false
is_owner (some id) b = b.id =ₛ id

unfoldable pub guard_source_work :
    ℕ → List Batch → List String → Option String → Outcome RecoveryError (Unit {0})
guard_source_work now batches hosts owner =
    raise_if
      (any (λ b. is_holding now b && overlap b.hosts hosts && not (is_owner owner b)) batches)
      RecoveryError.source_recovery_active

-- `require_active` of collector_lifecycle.py
unfoldable pub require_active : Source → Outcome RecoveryError (Unit {0})
require_active source = do
  raise_if source.deleted collector_not_found
  raise_if (source.lifecycle =ₛ "archived") collector_archived

unfoldable pub find_batch : String → List Batch → Option Batch
find_batch id [] = none
find_batch id (b ∷ batches) = if b.id =ₛ id then some b else find_batch id batches

-- SELECT ... WHERE seed_run_id=?
unfoldable pub find_seeded : String → List Batch → Option Batch
find_seeded run_id [] = none
find_seeded run_id (b ∷ batches) =
    if b.seed_run_id =ₛ run_id then some b else find_seeded run_id batches

abbrev batch_id : Option Run → Option String
batch_id none = none
batch_id (some run) = run.recovery_batch_id

-- the batch that a run is an attempt of, or else the one that it is the seed of
unfoldable pub for_run : World → String → List Batch → Option Batch
for_run w run_id batches = elim (batch_id (w.run run_id)) [
  | some id ↦ find_batch id batches
  | none ↦ find_seeded run_id batches
]

-- What `start` reads of the store beside its run and the batches.
pub record Seed : Type 0 where
  pub has_active_run : Bool
  pub attested : Bool
  pub hosts : List String
  pub queued_hosts : List (List String)  -- of the sources with a queued or running task

abbrev is_failed : RunStatus → Bool
is_failed failed = true
is_failed _ = false

abbrev is_id : Option String → String → Bool
is_id none s = false
is_id (some t) s = t =ₛ s

abbrev bad_progress : Option Progress → Run → Policy → Bool
bad_progress progress run policy =
    not (valid_progress progress run.rule_digest policy.id)
    || not (same_progress progress run.progress_after)
    || not (same_progress progress run.progress_before)

-- the condition under which `start` refuses its seed, for a source with a policy
unfoldable pub bad_seed : Seed → Source → Policy → Run → Bool
bad_seed seed source policy run =
    not (source.status =ₛ "published")
    || not (is_id source.latest_run_id run.id)
    || source.schedule_enabled
    || is_some source.active_operation_id
    || is_some source.pending_collection_version
    || seed.has_active_run
    || not (run.pagination_stop_reason =ₛ "source_rate_limited")
    || not (is_failed run.status)
    || not (run.integrity_status =ₛ "verified")
    || not (run.rule_version =ₛ source.active_rule_version)
    || not (run.policy_version =ₛ policy.id)
    || not (policy.checkpoint_mode =ₛ "observed")
    || bad_progress source.progress run policy
    || is_some run.checkpoint_after
    || ltb 0 run.items
    || ltb 3 policy.max_pages
    || ltb 50 policy.max_items

-- the value, or the exception where it is missing
abbrev pub or_raise {ℓ} : {A : Type ℓ} → Option A → RecoveryError → Outcome RecoveryError A
or_raise none e = err e
or_raise (some a) e = ok a

-- the first half of `start`: the run, its source and the source's progress, if they are fit
unfoldable pub admit : World → String → Seed → Outcome RecoveryError (Run × Source × Progress)
admit w run_id seed = do
  run ← or_raise (w.run run_id) run_not_found
  source ← or_raise (lock_collector w run.collector_id) collector_not_found
  require_active source
  policy ← or_raise source.policy recovery_seed_invalid
  raise_if (bad_seed seed source policy run) recovery_seed_invalid
  progress ← or_raise source.progress recovery_seed_invalid
  ok (run, source, progress)

module _ (context : Source → String) where
  -- the batch that `start` writes, before its first `cool`
  unfoldable pub fresh : String → World → Seed → Source → Run → Progress → ℕ → Batch
  fresh id w seed source run progress now = record {
    id = id;
    collector_id = source.id;
    seed_run_id = run.id;
    status = Status.cooling_down;
    reason = Reason.source_rate_limited;
    created_at = now;
    updated_at = now;
    expires_at = now + 24 * 3600;
    finished_at = none;
    next_attempt_at = none;
    source_not_before = none;
    max_attempts = 3;
    attempt_run_ids = [];
    active_run_id = none;
    reserved_requests = 0;
    max_requests = 360;
    hosts = seed.hosts;
    context_digest = context source;
    expected_progress = progress;
    expected_checkpoint = w.checkpoint source.id;
    rule_version = run.rule_version;
    rule_digest = run.rule_digest;
    policy_version = run.policy_version;
    window_start = progress.window_start;
    cancel_requested = false;
  }

  -- the second half of `start`, with the run, the source and its progress at hand
  unfoldable pub start_from :
      String → World → ℕ → List Batch → Seed → Run → Source → Progress → Outcome RecoveryError Batch
  start_from id w now batches seed run source progress = do
    raise_if (not seed.attested) recovery_seed_invalid
    guard_source_work now batches seed.hosts none
    raise_if (any (λ hosts. overlap seed.hosts hosts) seed.queued_hosts) source_recovery_active
    ok (cool run now (fresh id w seed source run progress now))

  unfoldable pub start :
      String → World → ℕ → List Batch → String → Seed → Outcome RecoveryError Batch
  start id w now batches run_id seed = do
    raise_if (is_some (for_run w run_id batches)) recovery_already_exists
    (run, source, progress) ← admit w run_id seed
    start_from id w now batches seed run source progress

  abbrev is_running : Status → Bool
  is_running Status.running = true
  is_running _ = false

  -- the check that a recovery run makes before it fetches anything
  unfoldable pub validate_attempt :
      World → ℕ → Option Batch → Run → Outcome RecoveryError (Unit {0})
  validate_attempt w now none run =
      raise_if (is_some run.recovery_batch_id) recovery_attempt_blocked
  validate_attempt w now (some b) run =
      if not (is_some run.recovery_batch_id) then ok tt else elim (w.source run.collector_id) [
        | none ↦ err recovery_attempt_blocked
        | some source ↦
            raise_if
              (not (is_running b.status)
                || not (is_id b.active_run_id run.id)
                || b.cancel_requested
                || leb b.expires_at now
                || elim b.source_not_before [ none ↦ false | some t ↦ ltb now t ]
                || context_moved context source b
                || not (same_progress source.progress (some b.expected_progress))
                || not (same_checkpoint (w.checkpoint source.id) b.expected_checkpoint))
              recovery_attempt_blocked
      ]
