-- ===== src/Recovery/Values.antt =====
-- The values that a recovery batch is compared with: progress, checkpoints, sources and runs.
use native.Mathlib.Decide.{ℕ_discrete}
use extrio.Base.{ℕ, String, Bool, false, ◌&&◌, not, Option, none, some, List, ◌=ₛ◌}
use extrio.Base.Same.{String_discrete}

-- `progress_record` of coverage.py
pub record Progress : Type 0 where
  pub rule_digest : String
  pub policy_version_id : String
  pub window_start : String
  pub resume_url : String
  pub page_index : ℕ
  pub anchor_url : Option String
  pub processed_urls : List String
  pub older_pages_before : ℕ
  pub watermark : Option String
  pub oldest_date_before : Option String
  pub page_complete : Bool
  pub overlap_urls : List String

pub Progress_discrete : Discrete Progress
Progress_discrete = hlevel (String_discrete, ℕ_discrete)

-- `rest` is what a checkpoint holds beside the keys that the code reads.
pub record Checkpoint : Type 0 where
  pub kind : String
  pub policy_version_id : String
  pub rule_digest : String
  pub rest : String

pub Checkpoint_discrete : Discrete Checkpoint
Checkpoint_discrete = hlevel String_discrete

pub data RunStatus : Type 0 where
  queued running finalizing succeeded partially_succeeded failed cancelled timed_out : RunStatus

pub record Run : Type 0 where
  pub id : String
  pub collector_id : String
  pub operation_id : String
  pub recovery_batch_id : Option String
  pub status : RunStatus
  pub pagination_stop_reason : String
  pub integrity_status : String
  pub rule_version : String
  pub rule_digest : String
  pub policy_version : String
  pub started_at : Option ℕ
  pub finished_at : Option ℕ
  pub duration : Option ℕ  -- the seconds that the pattern of `finished` reads
  pub retry_after_seconds : Option ℕ
  pub progress_before : Option Progress
  pub progress_after : Option Progress
  pub checkpoint_before : Option Checkpoint
  pub checkpoint_after : Option Checkpoint
  pub items : ℕ  -- their number
  pub list_pages_fetched : ℕ
  pub detail_pages_fetched : ℕ
  pub source_requests : Option ℕ

pub record Policy : Type 0 where
  pub id : String
  pub checkpoint_mode : String
  pub max_pages : ℕ
  pub max_items : ℕ

pub record Source : Type 0 where
  pub id : String
  pub status : String
  pub lifecycle : String
  pub deleted : Bool
  pub latest_run_id : Option String
  pub schedule_enabled : Bool
  pub active_operation_id : Option String
  pub pending_collection_version : Option String
  pub active_rule_version : String
  pub policy : Option Policy
  pub progress : Option Progress

-- `==` on what `get` returns, an absent key being `None`
pub OptionProgress_discrete : Discrete (Option Progress)
OptionProgress_discrete = hlevel Progress_discrete

pub OptionCheckpoint_discrete : Discrete (Option Checkpoint)
OptionCheckpoint_discrete = hlevel Checkpoint_discrete

-- `valid_progress` of coverage.py; `windowStart` must not be empty
unfoldable pub valid_progress : Option Progress → String → String → Bool
valid_progress none rule_digest policy_id = false
valid_progress (some p) rule_digest policy_id =
    (p.rule_digest =ₛ rule_digest)
    && (p.policy_version_id =ₛ policy_id)
    && not (p.window_start =ₛ "")
