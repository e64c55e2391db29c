-- ===== src/Jobs/Reach.antt =====
-- The queue's operations, in any order and at any instants.
use extrio.Base.{ℕ, String, ◌≡◌, true, false, Option, ok}
use extrio.Activity.{Metrics, Terminal}
use extrio.Audit.{Event, Audit}
use extrio.Jobs.Tables.{Claim, Error, World}
use extrio.Jobs.Finish.{finish_resources}
use extrio.Jobs.Queue.{claim_job, renew_job, finish_job, fail_job, owned}
use extrio.Jobs.Cancel.{request_cancel}

module _ (sha256 : String → String) (json : Event → Option String → String) (clip : String → String)
    (keys : Metrics) where
  -- `Reaches a b`: operations that return, one after the other, turn `a` into `b`. A worker finishes
  -- a job, or gives it up with its resources, in a transaction that it owns.
  pub data Reaches (a : World) : World → Type 0 where
    here : Reaches a a
    claiming :
        {b c : World} (now lease_seconds : ℕ) (claim : Option Claim)
        → Reaches a b
        → claim_job clip keys now lease_seconds b ≡ ok (claim, c)
        → Reaches a c
    renewing :
        {b c : World} (now : ℕ) (claim : Claim)
        → Reaches a b
        → renew_job now claim b ≡ ok c
        → Reaches a c
    finishing :
        {b : World} (now : ℕ) (claim : Claim)
        → Reaches a b
        → owned now claim false b ≡ ok tt
        → Reaches a (finish_job claim.id b)
    failing :
        {b : World} (id : ℕ) (message : String)
        → Reaches a b
        → Reaches a (fail_job clip keys id message b)
    giving_up :
        {b c : World} (now : ℕ) (claim : Claim) (status : Terminal) (error : Error)
        → Reaches a b
        → owned now claim true b ≡ ok tt
        → finish_resources keys status error now clip claim.id claim.operation_id claim.kind
            claim.payload b
          ≡ ok c
        → Reaches a c
    cancelling :
        {b c : World} (fresh_id tenant : String) (audit : Audit) (now : ℕ) (operation_id : String)
        → Reaches a b
        → request_cancel sha256 json clip keys fresh_id tenant audit now operation_id b ≡ ok c
        → Reaches a c
