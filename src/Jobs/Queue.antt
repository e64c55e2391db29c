-- ===== src/Jobs/Queue.antt =====
-- Claiming a job, acting as its owner, and asking for it to be cancelled.
use Prim.Native.String.{◌++◌ as ◌++ₛ◌}
use extrio.Base.{
  ℕ, ◌+◌, ◌*◌, String, Bool, true, false, ◌||◌, ◌&&◌, not, Option, none, some, List, [], ◌∷◌, ltb,
  leb, ◌==◌, ◌=ₛ◌, if◌then◌else◌, or_else, Outcome, ok, err, ◌>>◌, raise_if,
}
use extrio.Activity.{Metrics, Terminal, failed, cancelled}
use extrio.Jobs.Tables.{
  JobStatus, waiting, processing, completed, Error, Job, Claim, Operation, World, is_terminal,
  update_job, find_job,
}
use extrio.Jobs.Finish.{JobError, lease_lost, job_cancelled, invalid_value, finish_resources}

abbrev pub is_waiting : JobStatus → Bool
is_waiting waiting = true
is_waiting _ = false

abbrev pub is_processing : JobStatus → Bool
is_processing processing = true
is_processing _ = false

abbrev before : Option ℕ → ℕ → Bool
before none now = false
before (some t) now = ltb t now

abbrev after : Option ℕ → ℕ → Bool
after none now = false
after (some t) now = ltb now t

-- the condition of `claim_job`
abbrev pub is_due : ℕ → Job → Bool
is_due now j =
    leb j.available_at now
    && (is_waiting j.status || (is_processing j.status && before j.lease_until now))

-- ORDER BY id LIMIT 1
unfoldable pub first_due : ℕ → List Job → Option Job
first_due now [] = none
first_due now (j ∷ js) = if is_due now j then some j else first_due now js

abbrev pub done : Job → Job
done j = record j { status = completed; lease_until = none }

abbrev pub taken : ℕ → Job → Job
taken until j = record j {
  status = processing;
  attempts = j.attempts + 1;
  lease_until = some until;
}

abbrev pub claim_of : ℕ → Job → Claim
claim_of lease_seconds j = record {
  id = j.id;
  operation_id = j.operation_id;
  kind = j.kind;
  payload = j.payload;
  attempts = j.attempts + 1;
  lease_seconds = lease_seconds;
}

abbrev pub write_job : ℕ → (Job → Job) → World → World
write_job id f w = record w { jobs = update_job id f w.jobs }

-- What an attempt's end is, and the error that says so.
abbrev pub giving_up : Bool → String → Error
giving_up true id = record {
  code = "JOB_CANCELLED";
  message = "Job cancelled";
  request_id = "worker_" ++ₛ id;
}
giving_up false id = record {
  code = "JOB_ATTEMPTS_EXHAUSTED";
  message = "Job recovery attempts exhausted";
  request_id = "worker_" ++ₛ id;
}

abbrev pub giving_up_status : Bool → Terminal
giving_up_status true = cancelled
giving_up_status false = failed

-- the end of a transaction that claims nothing
abbrev pub nothing : Outcome JobError World → Outcome JobError (Option Claim × World)
nothing (ok w) = ok (none, w)
nothing (err e) = err e

-- `owned_transaction`: why it raises, for a job's row and its operation
abbrev pub owns : ℕ → Claim → Job → Bool
owns now claim j =
    is_processing j.status && (j.attempts == claim.attempts) && after j.lease_until now

unfoldable pub owned_operation : Option Operation → Bool → Outcome JobError (Unit {0})
owned_operation none allow_cancel = err lease_lost
owned_operation (some o) allow_cancel = do
  raise_if (is_terminal o.status) lease_lost
  raise_if (o.cancel_requested && not allow_cancel) job_cancelled

unfoldable pub owned : ℕ → Claim → Bool → World → Outcome JobError (Unit {0})
owned now claim allow_cancel w = elim (find_job claim.id w.jobs) [
  | none ↦ err lease_lost
  | some j ↦
      if owns now claim j
      then owned_operation (w.operation claim.operation_id) allow_cancel
      else err lease_lost
]

unfoldable pub renew_job : ℕ → Claim → World → Outcome JobError World
renew_job now claim w = do
  owned now claim false w
  ok (
      write_job claim.id (λ j. record j { lease_until = some (now + 1000 * claim.lease_seconds) })
        w)

unfoldable pub finish_job : ℕ → World → World
finish_job id w = write_job id done w

module _ (clip : String → String) (keys : Metrics) where
  unfoldable pub fail_job : ℕ → String → World → World
  fail_job id message w =
      write_job id
        (λ j. record j {
          status = JobStatus.failed;
          lease_until = none;
          last_error = some (clip message);
        })
        w

  -- `claim_job` on the row that is due
  unfoldable pub claim_row : ℕ → ℕ → Job → World → Outcome JobError (Option Claim × World)
  claim_row now lease_seconds j w = elim (w.operation j.operation_id) [
    | none ↦ ok (none, write_job j.id done w)
    | some o ↦
        if is_terminal o.status
        then ok (none, write_job j.id done w)
        else if o.cancel_requested || leb (or_else j.payload.max_job_attempts 3) j.attempts
        then nothing (
            finish_resources keys (giving_up_status o.cancel_requested)
              (giving_up o.cancel_requested j.operation_id) now clip j.id j.operation_id j.kind
              j.payload w)
        else ok
            (some (claim_of lease_seconds j), write_job j.id (taken (now + 1000 * lease_seconds)) w)
  ]

  unfoldable pub claim_job : ℕ → ℕ → World → Outcome JobError (Option Claim × World)
  claim_job now lease_seconds w = do
    raise_if (ltb lease_seconds 1) invalid_value
    elim (first_due now w.jobs) [ none ↦ ok (none, w) | some j ↦ claim_row now lease_seconds j w ]

-- the row of an operation's job
unfoldable pub job_of : String → List Job → Option Job
job_of operation_id [] = none
job_of operation_id (j ∷ js) =
    if j.operation_id =ₛ operation_id then some j else job_of operation_id js
