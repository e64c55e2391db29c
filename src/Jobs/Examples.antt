-- ===== src/Jobs/Examples.antt =====
-- One job that is claimed twice, and cancelled.
use extrio.Base.{ℕ, String, ◌≡◌, refl, Bool, false, Option, none, some, [], ◌∷◌, ok, err, arith}
use extrio.Activity.{succeeded}
use extrio.Audit.{Event}
use extrio.Jobs.Tables.{
  Job, JobStatus, waiting, Status, ended, Payload, Operation, World, running, update_job,
}
use extrio.Jobs.Finish.{lease_lost}
use extrio.Jobs.Queue.{claim_job, claim_row, claim_of, first_due, owned, taken}
use extrio.Jobs.Reach.{here, claiming}
use extrio.Jobs.Ownership.{superseded, ended_stays}
use extrio.Jobs.Claiming.{IsHandedOut, claim_job-IsHandedOut}

abbrev clip : String → String
clip s = s

abbrev digest : String → String
digest s = s

abbrev json : Event → Option String → String
json e h = "{}"

abbrev payload : Payload
payload = record {
  collector_id = none;
  run_id = none;
  ai_run_id = none;
  previous_status = none;
  max_job_attempts = none;
}

abbrev new_job : Job
new_job = record {
  id = 7;
  operation_id = "operation";
  kind = "run";
  payload = payload;
  status = waiting;
  attempts = 0;
  lease_until = none;
  available_at = 0;
  last_error = none;
}

abbrev operation : Status → Operation
operation s = record {
  id = "operation";
  collector_id = "source";
  status = s;
  phase = "queued";
  progress = 0;
  metrics = [];
  activity = [];
  error = none;
  cancel_requested = false;
}

abbrev holding : Job → Status → World
holding j s = record {
  jobs = j ∷ [];
  operation = λ id. some (operation s);
  ai_run = λ id. none;
  ai_attempts = [];
  collector = λ id. none;
  run = λ id. none;
  audit_events = [];
}

abbrev claimed : Job
claimed = taken 61000 new_job

abbrev claimed_again : Job
claimed_again = taken 122000 claimed

first_claim :
    claim_job clip [] 1000 60 (holding new_job running)
    ≡ ok (some (claim_of 60 new_job), holding claimed running)
unfolding claim_job claim_row first_due update_job
first_claim = refl

second_claim :
    claim_job clip [] 62000 60 (holding claimed running)
    ≡ ok (some (claim_of 60 claimed), holding claimed_again running)
unfolding claim_job claim_row first_due update_job
second_claim = refl

claim_job-IsHandedOut_example :
    IsHandedOut 62000 60
      (holding claimed running)
      (holding claimed_again running)
      (claim_of 60 claimed)
claim_job-IsHandedOut_example =
    claim_job-IsHandedOut clip [] 62000 60 (holding claimed running) (holding claimed_again running)
      (claim_of 60 claimed) second_claim

superseded_example :
    owned 63000 (claim_of 60 new_job) false (holding claimed_again running) ≡ err lease_lost
superseded_example =
    superseded digest json clip [] 63000 (claim_of 60 new_job) false (λ e. omega arith, tt) here

over : Operation
over = operation (ended succeeded)

completed_job : Job
completed_job = record new_job { status = JobStatus.completed }

claims_nothing :
    claim_job clip [] 1000 60 (holding new_job (ended succeeded))
    ≡ ok (none, holding completed_job (ended succeeded))
unfolding claim_job claim_row first_due update_job completed_job
claims_nothing = refl

ended_stays_example :
    ((holding completed_job (ended succeeded)).operation "operation"
      ≡ some (operation (ended succeeded)))
    × ((now : ℕ) (allow_cancel : Bool)
        → owned now (claim_of 60 new_job) allow_cancel (holding completed_job (ended succeeded))
          ≡ err lease_lost)
ended_stays_example =
    ended_stays digest json clip [] (claim_of 60 new_job) (operation (ended succeeded)) refl refl
      (claiming 1000 60 none here claims_nothing)
