-- ===== src/Schedules/Dispatch.antt =====
-- app.py, `dispatch_schedule_occurrence`, with store.py's `finish_schedule_occurrence`. `World` is what
-- `create_run_operation` reads and writes, and `create_run` is that function: a run, or the code of the
-- error that it raises before it writes.
use extrio.Base.{
  ℕ, String, not, Option, none, some, List, [], ◌∷◌, ◌=ₛ◌, if◌then◌else◌, Outcome, ok, err,
}
use extrio.Schedules.{Schedule, Occurrence, Tables, find_schedule, find_source}

unfoldable pub find_occurrence : String → List Occurrence → Option Occurrence
find_occurrence key [] = none
find_occurrence key (o ∷ os) = if o.occurrence_key =ₛ key then some o else find_occurrence key os

-- the write of `finish_schedule_occurrence` on the row
abbrev pub finished : String → Option String → Option String → Occurrence → Occurrence
finished status run_id reason o = record o { status = status; run_id = run_id; reason = reason }

-- UPDATE schedule_occurrences SET ... WHERE occurrence_key=?
unfoldable pub update_occurrence :
    String → (Occurrence → Occurrence) → List Occurrence → List Occurrence
update_occurrence key f [] = []
update_occurrence key f (o ∷ os) =
    let rest = update_occurrence key f os in (if o.occurrence_key =ₛ key then f o else o) ∷ rest

-- `finish_schedule_occurrence`, where the row is there
unfoldable pub finish_schedule_occurrence :
    String → String → Option String → Option String → Tables → Tables
finish_schedule_occurrence key status run_id reason t = record t {
  occurrences = update_occurrence key (finished status run_id reason) t.occurrences;
}

module _ (occurrence_key : String → ℕ → ℕ → String) {World : Type 0}
    (create_run : String → World → Outcome String (String × World)) where
  -- the checks on the occurrence's schedule, and the run
  abbrev pub with_schedule : Occurrence → Option Schedule → World → Outcome String (String × World)
  with_schedule o none w = err "SCHEDULE_DISABLED"
  with_schedule o (some s) w =
      if not (s.collector_id =ₛ o.collector_id)
      then err "SCHEDULE_DISABLED"
      else if not s.enabled
      then err "SCHEDULE_DISABLED"
      else if not (o.occurrence_key =ₛ occurrence_key s.id s.revision o.scheduled_at)
      then err "SCHEDULE_CHANGED"
      else create_run o.collector_id w

  unfoldable pub started : Occurrence → Tables → World → Outcome String (String × World)
  started o t w = elim (find_source o.collector_id t.sources) [
    | none ↦ err "COLLECTOR_NOT_FOUND"
    | some c ↦ with_schedule o (find_schedule o.schedule_id t.schedules) w
  ]

  -- the occurrence is skipped with the error's code, or has its run
  abbrev pub settled : String → Tables → World → Outcome String (String × World) → Tables × World
  settled key t w (err code) = (finish_schedule_occurrence key "skipped" none (some code) t, w)
  settled key t w (ok (run, w')) =
      (finish_schedule_occurrence key "dispatched" (some run) none t, w')

  unfoldable pub dispatch_schedule_occurrence : Occurrence → Tables × World → Tables × World
  dispatch_schedule_occurrence o (t, w) = elim (find_occurrence o.occurrence_key t.occurrences) [
    | none ↦ (t, w)
    | some row ↦
        if row.status =ₛ "claimed" then settled o.occurrence_key t w (started o t w) else (t, w)
  ]
