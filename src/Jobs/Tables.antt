-- ===== src/Jobs/Tables.antt =====
-- The rows that the queue reads and writes. Instants are numbers of milliseconds.
use extrio.Base.{
  ℕ, String, Bool, true, false, Option, none, some, List, [], ◌∷◌, ◌==◌, ◌=ₛ◌, if◌then◌else◌,
}
use extrio.Activity.{Entry, Metrics, Terminal}
use extrio.Audit.{Row}

pub data Status : Type 0 where
  queued running : Status
  ended : Terminal → Status

pub data JobStatus : Type 0 where
  waiting processing completed failed : JobStatus  -- 'queued' is `waiting`

pub record Error : Type 0 where
  pub code : String
  pub message : String
  pub request_id : String

pub record Payload : Type 0 where
  pub collector_id : Option String
  pub run_id : Option String
  pub ai_run_id : Option String
  pub previous_status : Option String
  pub max_job_attempts : Option ℕ

pub record Job : Type 0 where
  pub id : ℕ
  pub operation_id : String
  pub kind : String
  pub payload : Payload
  pub status : JobStatus
  pub attempts : ℕ
  pub lease_until : Option ℕ
  pub available_at : ℕ
  pub last_error : Option String

-- what `claim_job` returns
pub record Claim : Type 0 where
  pub id : ℕ
  pub operation_id : String
  pub kind : String
  pub payload : Payload
  pub attempts : ℕ
  pub lease_seconds : ℕ

pub record Operation : Type 0 where
  pub id : String
  pub collector_id : String
  pub status : Status
  pub phase : String
  pub progress : ℕ
  pub metrics : Metrics
  pub activity : List Entry
  pub error : Option Error
  pub cancel_requested : Bool

pub record AiRun : Type 0 where
  pub id : String
  pub status : Status
  pub phase : String
  pub progress : ℕ
  pub error : Option Error
  pub activity : List Entry
  pub created_at : ℕ
  pub started_at : Option ℕ
  pub finished_at : Option ℕ
  pub duration_ms : Option ℕ
  pub result_status : String
  pub review_status : String

pub record AiAttempt : Type 0 where
  pub id : String
  pub ai_run_id : String
  pub status : Status
  pub started_at : ℕ
  pub finished_at : Option ℕ
  pub duration_ms : Option ℕ
  pub error : Option Error

pub record Collector : Type 0 where
  pub id : String
  pub status : String
  pub deleted : Bool
  pub active_operation_id : Option String
  pub migration_status : Option String  -- of `collectionMigration`, if it is there

pub record Run : Type 0 where
  pub id : String
  pub status : Status
  pub duration : String
  pub summary : String
  pub recovery_action : String
  pub integrity_status : String

pub record World : Type 0 where
  pub jobs : List Job  -- in the order of their ids
  pub operation : String → Option Operation
  pub ai_run : String → Option AiRun
  pub ai_attempts : List AiAttempt
  pub collector : String → Option Collector
  pub run : String → Option Run
  pub audit_events : List Row

abbrev pub is_terminal : Status → Bool
is_terminal (ended t) = true
is_terminal _ = false

-- UPDATE jobs SET ... WHERE id=?
unfoldable pub update_job : ℕ → (Job → Job) → List Job → List Job
update_job id f [] = []
update_job id f (j ∷ js) = let rest = update_job id f js in (if j.id == id then f j else j) ∷ rest

unfoldable pub find_job : ℕ → List Job → Option Job
find_job id [] = none
find_job id (j ∷ js) = if j.id == id then some j else find_job id js

module _ {ℓ} {A : Type ℓ} where
  -- a table with a row written
  abbrev pub put : String → A → (String → Option A) → String → Option A
  put id row table k = if k =ₛ id then some row else table k
