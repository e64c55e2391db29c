-- ===== src/Recovery/Batch.antt =====
-- A recovery batch, and the changes to it that need nothing but the batch: `stop`, `cool`, `save`.
use extrio.Base.{
  ℕ, zero, suc, ◌+◌, String, Bool, true, false, Option, none, some, List, leb, or_else, max,
  if◌then◌else◌, length,
}
use extrio.Recovery.Values.{Progress, Checkpoint, Run}

pub data Status : Type 0 where
  cooling_down running cancelling cancelled needs_attention recovered : Status

pub data Reason : Type 0 where
  source_rate_limited attempt_limit server_wait_exceeds_deadline : Reason
  cancel_requested source_unavailable deadline_reached context_changed progress_changed : Reason
  continuation_verified continuation_running run_not_recoverable dispatch_rejected : Reason

pub record Batch : Type 0 where
  pub id : String
  pub collector_id : String
  pub seed_run_id : String
  pub status : Status
  pub reason : Reason
  pub created_at : ℕ
  pub updated_at : ℕ
  pub expires_at : ℕ
  pub finished_at : Option ℕ
  pub next_attempt_at : Option ℕ
  pub source_not_before : Option ℕ
  pub max_attempts : ℕ
  pub attempt_run_ids : List String  -- the latest first
  pub active_run_id : Option String
  pub reserved_requests : ℕ
  pub max_requests : ℕ
  pub hosts : List String
  pub context_digest : String
  pub expected_progress : Progress
  pub expected_checkpoint : Option Checkpoint
  pub rule_version : String
  pub rule_digest : String
  pub policy_version : String
  pub window_start : String
  pub cancel_requested : Bool

-- ACTIVE
abbrev pub is_active : Status → Bool
is_active cooling_down = true
is_active running = true
is_active cancelling = true
is_active _ = false

-- `DELAYS[min(index, len(DELAYS) - 1)]`
abbrev pub delay_at : ℕ → ℕ
delay_at zero = 1800
delay_at (suc zero) = 7200
delay_at (suc (suc n)) = 21600

abbrev pub request_limit : ℕ
request_limit = 120

unfoldable pub stop : Status → Reason → ℕ → Batch → Batch
stop status reason now b = record b {
  status = status;
  reason = reason;
  next_attempt_at = none;
  finished_at = some now;
}

-- the second and third cases of `finished`
abbrev pub elapsed : Option ℕ → Option ℕ → ℕ → ℕ
elapsed (some d) (some t) fallback = t + d
elapsed _ _ fallback = fallback

unfoldable pub finished : Run → ℕ → ℕ
finished run fallback = or_else run.finished_at (elapsed run.duration run.started_at fallback)

unfoldable pub cool : Run → ℕ → Batch → Batch
unfolding stop finished
cool run now b =
    let index = length b.attempt_run_ids in
    let delay = max (delay_at index) (or_else run.retry_after_seconds 0) in
    let due = finished run now + delay in
    let b' = record b { source_not_before = some due } in
    if leb b.max_attempts index
    then stop needs_attention attempt_limit now b'
    else if leb b.expires_at due
    then stop needs_attention server_wait_exceeds_deadline now b'
    else record b' {
      status = cooling_down;
      reason = source_rate_limited;
      next_attempt_at = some due;
    }

-- `save`, which writes the batch back
unfoldable pub save : ℕ → Batch → Batch
save now b = record b { updated_at = now }
