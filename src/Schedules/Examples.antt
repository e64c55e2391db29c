-- ===== src/Schedules/Examples.antt =====
-- A schedule that is due, and one whose source was archived.
use extrio.Base.{length, ℕ, ◌+◌, String, ◌≡◌, refl, true, none, some, List, [], Outcome, ok, ◌∷◌}
use extrio.Schedules.{
  Schedule, Occurrence, Tables, claimed_occurrence, select_due, update_schedule, claim_one,
  claim_rows, claim_due_schedules,
}
use extrio.Schedules.Dispatch.{dispatch_schedule_occurrence, started, find_occurrence}
use extrio.Schedules.Dispatched.{dispatched_once, stay}

abbrev schedule : String → String → Schedule
schedule id collector_id = record {
  id = id;
  collector_id = collector_id;
  revision = 1;
  enabled = true;
  cron_expression = "0 * * * *";
  last_triggered_at = none;
  next_run_at = some 90;
  updated_at = 0;
}

abbrev tables : Tables
tables = record {
  schedules = schedule "s1" "c1" ∷ schedule "s2" "c2" ∷ [];
  occurrences = [];
  sources =
      record { id = "c1"; lifecycle = "active" }
      ∷ record { id = "c2"; lifecycle = "archived" }
      ∷ [];
}

abbrev next : String → ℕ → ℕ
next cron now = now + 60

abbrev occurrence_key : String → ℕ → ℕ → String
occurrence_key id revision at = id

one_claimed : length (claim_due_schedules next occurrence_key 100 tables).0 ≡ 1
unfolding claim_due_schedules claim_rows claim_one select_due update_schedule
one_claimed = refl

abbrev claimed_tables : Tables
claimed_tables = (claim_due_schedules next occurrence_key 100 tables).1

abbrev occurrence : Occurrence
occurrence = claimed_occurrence next occurrence_key (schedule "s1" "c1") 90

-- the other tables are the list of the sources whose runs were started
abbrev create_run : String → List String → Outcome String (String × List String)
create_run id runs = ok ("run", id ∷ runs)

abbrev dispatch : Tables × List String → Tables × List String
dispatch = dispatch_schedule_occurrence occurrence_key create_run occurrence

run_started : (dispatch (claimed_tables, [])).1 ≡ "c1" ∷ []
unfolding claim_due_schedules claim_rows claim_one select_due update_schedule
    dispatch_schedule_occurrence started find_occurrence
run_started = refl

dispatched_once_example : dispatch (dispatch (claimed_tables, [])) ≡ dispatch (claimed_tables, [])
unfolding claim_due_schedules claim_rows claim_one select_due update_schedule find_occurrence
dispatched_once_example =
    dispatched_once next occurrence_key create_run occurrence occurrence claimed_tables []
      (dispatch (claimed_tables, [])) refl stay
