-- ===== src/Jobs/Cancel.antt =====
-- `request_cancel`, with its audit event.
use extrio.Base.{
  ℕ, String, Bool, true, ◌||◌, Option, none, some, leb, if◌then◌else◌, Outcome, ok, err, ◌>>=◌,
}
use extrio.Activity.{Metrics, cancelled}
use extrio.Audit.{Event, Audit, append_audit_event}
use extrio.Jobs.Tables.{Job, Operation, World, is_terminal, put}
use extrio.Jobs.Finish.{JobError, missing_row, finish_resources}
use extrio.Jobs.Queue.{is_waiting, job_of}

-- the job is not leased, so no worker will end it
abbrev pub is_idle : ℕ → Job → Bool
is_idle now j = is_waiting j.status || elim j.lease_until [ none ↦ true | some t ↦ leb t now ]

module _ (sha256 : String → String) (json : Event → Option String → String) (clip : String → String)
    (keys : Metrics) (fresh_id tenant : String) (audit : Audit) (now : ℕ) where
  abbrev pub cancel_event : String → World → World
  cancel_event operation_id w = record w {
    audit_events =
        append_audit_event sha256 json fresh_id tenant "Operation" operation_id
          (record audit { action = "operation.cancel" }) none none now w.audit_events;
  }

  -- the operation is asked to cancel; a job that nobody works on ends at once
  unfoldable pub ask_cancel : String → Job → Operation → World → Outcome JobError World
  ask_cancel operation_id j o w =
      let w' = record w {
        operation = put operation_id (record o { cancel_requested = true }) w.operation;
      } in
      if is_idle now j
      then finish_resources keys cancelled
          (record {
            code = "JOB_CANCELLED";
            message = "Job cancelled";
            request_id = audit.request_id;
          })
          now clip j.id operation_id j.kind j.payload w'
      else ok w'

  unfoldable pub request_cancel : String → World → Outcome JobError World
  request_cancel operation_id w = elim (job_of operation_id w.jobs) [
    | none ↦ err missing_row
    | some j ↦ elim (w.operation operation_id) [
      | none ↦ err missing_row
      | some o ↦
          if is_terminal o.status || o.cancel_requested
          then ok w
          else (do w' ← ask_cancel operation_id j o w; ok (cancel_event operation_id w'))
    ]
  ]
