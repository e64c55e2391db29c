-- ===== src/Recovery/Tick.antt =====
-- `tick` and what it asks of the store. `create_run` is the callback that starts a collection run.
use mathlib.Core.Option
use extrio.Base.{
  ℕ, ◌+◌, String, Bool, true, false, ◌&&◌, ◌||◌, not, Option, none, some, List, [], ◌∷◌, ltb, leb,
  ◌=ₛ◌, is_some, or_else, any, if◌then◌else◌, length,
}
use extrio.Base.Same.{holds}
use extrio.Recovery.Values.{
  Progress, Checkpoint, RunStatus, Run, Source, Progress_discrete, OptionProgress_discrete,
  OptionCheckpoint_discrete, valid_progress, queued, running, finalizing, succeeded,
  partially_succeeded,
}
use extrio.Recovery.Batch.{Batch, Status, Reason, request_limit, stop, cool, save, is_active}

-- Whether an operation's status is one of the four terminal ones.
pub data OperationStatus : Type 0 where
  open_operation terminal_operation : OperationStatus

-- What the store holds beside the batch.
pub record World : Type 0 where
  pub source : String → Option Source
  pub run : String → Option Run
  pub operation : String → Option OperationStatus
  pub checkpoint : String → Option Checkpoint

-- `lock_collector`: a source that is missing or deleted raises
unfoldable pub lock_collector : World → String → Option Source
lock_collector w id = elim (w.source id) [
  | none ↦ none
  | some s ↦ if s.deleted then none else some s
]

-- The outcome of one round of the loop: the batch, the operation that is asked to cancel, whether a
-- run has been dispatched, and the store.
pub record Round : Type 0 where
  pub batch : Batch
  pub cancelled_operation : Option String
  pub dispatched : Bool
  pub world : World

abbrev pub quiet : World → Batch → Round
quiet w b = record { batch = b; cancelled_operation = none; dispatched = false; world = w }

abbrev pub is_live : RunStatus → Bool
is_live queued = true
is_live running = true
is_live finalizing = true
is_live _ = false

abbrev pub has_result : RunStatus → Bool
has_result succeeded = true
has_result partially_succeeded = true
has_result _ = false

abbrev pub same_progress : Option Progress → Option Progress → Bool
same_progress p q = holds (OptionProgress_discrete p q)

abbrev pub same_checkpoint : Option Checkpoint → Option Checkpoint → Bool
same_checkpoint p q = holds (OptionCheckpoint_discrete p q)

-- `context(source) != batch['contextDigest'] or source['schedule']['enabled']`
unfoldable pub context_moved : (Source → String) → Source → Batch → Bool
context_moved context source b = not (context source =ₛ b.context_digest) || source.schedule_enabled

reached_end : World → Source → Batch → Checkpoint → Bool
reached_end w source b c =
    (c.kind =ₛ "coverage")
    && (c.policy_version_id =ₛ b.policy_version)
    && (c.rule_digest =ₛ b.rule_digest)
    && same_checkpoint (w.checkpoint source.id) (some c)
    && not (is_some source.progress)

-- the four stop reasons of a run that ended in order
ended_in_order : String → Bool
ended_in_order reason =
    (reason =ₛ "max_pages")
    || (reason =ₛ "max_items")
    || (reason =ₛ "checkpoint_reached")
    || (reason =ₛ "time_window_reached")

unfoldable pub run_moved : Batch → Run → Bool
run_moved b run =
    not (same_progress run.progress_before (some b.expected_progress))
    || not (same_checkpoint run.checkpoint_before b.expected_checkpoint)
    || not (run.integrity_status =ₛ "verified")
    || not (run.rule_version =ₛ b.rule_version)
    || not (run.policy_version =ₛ b.policy_version)
    || not (run.rule_digest =ₛ b.rule_digest)

-- a rate limited run must have left everything as it was
unfoldable pub run_wrote : Source → Batch → Run → Bool
run_wrote source b run =
    ltb 0 run.items
    || is_some run.checkpoint_after
    || not (same_progress run.progress_after (some b.expected_progress))
    || not (same_progress source.progress (some b.expected_progress))

-- the batch once its run has been created
unfoldable pub launched : String → Batch → Batch
launched run_id b = record b {
  active_run_id = some run_id;
  attempt_run_ids = run_id ∷ b.attempt_run_ids;
  reserved_requests = b.reserved_requests + request_limit;
  status = Status.running;
  next_attempt_at = none;
  reason = Reason.continuation_running;
}

unfoldable pub launch : Option (String × World) → World → ℕ → Batch → Round
unfolding launched
launch none w now b =
    quiet w (save now (stop Status.needs_attention Reason.dispatch_rejected now b))
launch (some (run_id, w')) w now b = record {
  batch = save now (launched run_id b);
  cancelled_operation = none;
  dispatched = true;
  world = w';
}

unfoldable pub progress_moved : World → Source → Batch → Bool
progress_moved w source b =
    not (same_progress source.progress (some b.expected_progress))
    || not (same_checkpoint (w.checkpoint source.id) b.expected_checkpoint)

abbrev pub is_cancelling : Status → Bool
is_cancelling Status.cancelling = true
is_cancelling _ = false

abbrev pub is_cooling : Status → Bool
is_cooling Status.cooling_down = true
is_cooling _ = false

-- a live run is asked to stop at the deadline, and when the batch has been cancelled
unfoldable pub watch : World → Run → ℕ → Batch → Option Round
watch w run now b =
    if leb b.expires_at now || b.cancel_requested
    then elim (w.operation run.operation_id) [
      | none ↦ none
      | some o ↦ some (record {
        batch = save now (record b {
          status = Status.cancelling;
          reason = if b.cancel_requested then Reason.cancel_requested else Reason.deadline_reached;
        });
        cancelled_operation = some run.operation_id;
        dispatched = false;
        world = w;
      })
    ]
    else some (quiet w b)

module _ (context : Source → String) (resume_host : Progress → String) where
  continued_within : Source → Batch → Option Progress → Bool
  continued_within source b none = false
  continued_within source b (some p) =
      valid_progress (some p) b.rule_digest b.policy_version
      && (p.window_start =ₛ b.window_start)
      && not (holds (Progress_discrete p b.expected_progress))
      && same_progress (some p) source.progress
      && leb b.expected_progress.page_index p.page_index
      && any (λ h. resume_host p =ₛ h) b.hosts

  unfoldable pub continuation_verified : World → Source → Batch → Run → Bool
  unfolding ended_in_order reached_end continued_within
  continuation_verified w source b run =
      if not (has_result run.status)
        || not (ended_in_order run.pagination_stop_reason)
        || ltb 3 run.list_pages_fetched
        || ltb 50 run.detail_pages_fetched
        || ltb 50 run.items
        || ltb request_limit (or_else run.source_requests 0)
      then false
      else elim run.checkpoint_after [
        | some c ↦ reached_end w source b c
        | none ↦ continued_within source b run.progress_after
      ]

  -- what `tick` does with a batch whose run has ended, up to the `save`
  unfoldable pub settle_run : World → Source → Run → ℕ → Batch → Batch
  settle_run w source run now b =
      let b' = record b { active_run_id = none } in
      if is_cancelling b.status
      then stop (if b.cancel_requested then Status.cancelled else Status.needs_attention) b.reason
          now b'
      else if context_moved context source b
      then stop Status.needs_attention Reason.context_changed now b'
      else if run_moved b run
      then stop Status.needs_attention Reason.context_changed now b'
      else if run.pagination_stop_reason =ₛ "source_rate_limited"
      then (if run_wrote source b run
          then stop Status.needs_attention Reason.progress_changed now b'
          else cool run now b')
      else if continuation_verified w source b run
      then stop Status.recovered Reason.continuation_verified now
          (record b' { source_not_before = none })
      else stop Status.needs_attention Reason.run_not_recoverable now b'

  -- the last part of the round, for a batch that is cooling down; a missing `nextAttemptAt` raises
  unfoldable pub wake :
      (World → Batch → Option (String × World)) → World → Source → ℕ → Batch → Option Round
  wake create_run w source now b =
      if leb b.expires_at now
      then some (quiet w (save now (stop Status.needs_attention Reason.deadline_reached now b)))
      else if context_moved context source b
      then some (quiet w (save now (stop Status.needs_attention Reason.context_changed now b)))
      else if progress_moved w source b
      then some (quiet w (save now (stop Status.needs_attention Reason.progress_changed now b)))
      else elim b.next_attempt_at [
        | none ↦ none
        | some due ↦
            if ltb now due
            then some (quiet w (save now b))
            else if leb b.max_attempts (length b.attempt_run_ids)
                || ltb b.max_requests (b.reserved_requests + request_limit)
            then some (quiet w (save now (stop Status.needs_attention Reason.attempt_limit now b)))
            else some (launch (create_run w b) w now b)
      ]

  unfoldable pub wake_if_cooling :
      (World → Batch → Option (String × World)) → World → Source → ℕ → Batch → Option Round
  wake_if_cooling create_run w source now b =
      if is_cooling b.status then wake create_run w source now b else some (quiet w b)

  -- the round with its source at hand, on the batch's `activeRunId`
  unfoldable pub with_source :
      (World → Batch → Option (String × World))
      → World
      → Source
      → ℕ
      → Batch
      → Option String
      → Option Round
  with_source create_run w source now b none = wake_if_cooling create_run w source now b
  with_source create_run w source now b (some run_id) = elim (w.run run_id) [
    | none ↦ none
    | some run ↦
        if is_live run.status
        then watch w run now b
        else wake_if_cooling create_run w source now (save now (settle_run w source run now b))
  ]

  -- one round of the loop of `tick`; `none` where the code fails on a missing row
  unfoldable pub tick_batch :
      (World → Batch → Option (String × World)) → World → ℕ → Batch → Option Round
  tick_batch create_run w now b = elim (lock_collector w b.collector_id) [
    | none ↦ some (quiet w (save now (stop Status.needs_attention Reason.source_unavailable now b)))
    | some source ↦ with_source create_run w source now b b.active_run_id
  ]

  -- the loop, over the batches in the order of `active`; the others are not read
  unfoldable pub tick :
      (World → Batch → Option (String × World))
      → World
      → ℕ
      → List Batch
      → Option (List Batch × ℕ × World)
  tick create_run w now [] = some ([], 0, w)
  tick create_run w now (b ∷ batches) =
      if is_active b.status
      then Option.bind (tick_batch create_run w now b) (λ r.
        Option.map (λ (rest, n, w'). (r.batch ∷ rest, (if r.dispatched then n + 1 else n), w'))
          (tick create_run r.world now batches))
      else Option.map (λ (rest, n, w'). (b ∷ rest, n, w')) (tick create_run w now batches)
