-- ===== src/Schedules.antt =====
-- backend/src/extrio/store.py: schedules and the occurrences that are claimed from them, with their
-- dispatch in app.py. Instants are numbers, where the source compares ISO texts. `next` stands for
-- croniter's next instant of an expression after a base, `occurrence_key` for the hash of a
-- schedule, its revision and an instant. The copy of a schedule that its source keeps is left out.
use extrio.Base.{
  leb, if◌then◌else◌, or_else, any, ℕ, ◌+◌, String, Bool, false, not, ◌&&◌, Option, none, some,
  List, [], ◌∷◌, ◌++◌, ◌=ₛ◌,
}
mod Again
mod Once
mod Dispatch
mod Dispatched
mod Examples

pub record Schedule : Type 0 where
  pub id : String
  pub collector_id : String
  pub revision : ℕ
  pub enabled : Bool
  pub cron_expression : String
  pub last_triggered_at : Option ℕ
  pub next_run_at : Option ℕ
  pub updated_at : ℕ

pub record Occurrence : Type 0 where
  pub occurrence_key : String
  pub schedule_id : String
  pub collector_id : String
  pub scheduled_at : ℕ
  pub status : String
  pub run_id : Option String
  pub reason : Option String

-- a source that is not deleted
pub record Source : Type 0 where
  pub id : String
  pub lifecycle : String

pub record Tables : Type 0 where
  pub schedules : List Schedule
  pub occurrences : List Occurrence
  pub sources : List Source

abbrev pub find_schedule : String → List Schedule → Option Schedule
find_schedule id [] = none
find_schedule id (s ∷ ss) = if s.id =ₛ id then some s else find_schedule id ss

abbrev pub find_source : String → List Source → Option Source
find_source id [] = none
find_source id (s ∷ ss) = if s.id =ₛ id then some s else find_source id ss

-- WHERE enabled AND next_run_at IS NOT NULL AND next_run_at <= ?
abbrev pub is_due : ℕ → Schedule → Bool
is_due now s =
    s.enabled && elim s.next_run_at as (λ _. Bool) [ none ↦ false | some at ↦ leb at now ]

abbrev pub time_of : Schedule → ℕ
time_of s = or_else s.next_run_at 0

abbrev pub insert_by_time : Schedule → List Schedule → List Schedule
insert_by_time s [] = s ∷ []
insert_by_time s (r ∷ rs) =
    let rest = insert_by_time s rs in if leb (time_of s) (time_of r) then s ∷ r ∷ rs else r ∷ rest

-- the rows that are due, the earliest first
unfoldable pub select_due : ℕ → List Schedule → List Schedule
select_due now [] = []
select_due now (s ∷ ss) =
    let rest = select_due now ss in if is_due now s then insert_by_time s rest else rest

-- UPDATE collector_schedules SET ... WHERE id=?
unfoldable pub update_schedule : String → (Schedule → Schedule) → List Schedule → List Schedule
update_schedule id f [] = []
update_schedule id f (s ∷ ss) =
    let rest = update_schedule id f ss in if s.id =ₛ id then f s ∷ rest else s ∷ rest

abbrev pub has_key : String → List Occurrence → Bool
has_key key os = any (λ o. o.occurrence_key =ₛ key) os

abbrev pub is_archived : Source → Bool
is_archived c = c.lifecycle =ₛ "archived"

-- the schedule's source is there and not archived
abbrev pub is_claimable : Tables → Schedule → Bool
is_claimable t s = elim (find_source s.collector_id t.sources) as (λ _. Bool) [
  | none ↦ false
  | some c ↦ not (is_archived c)
]

module _ (next : String → ℕ → ℕ) (occurrence_key : String → ℕ → ℕ → String) where
  abbrev pub claimed_occurrence : Schedule → ℕ → Occurrence
  claimed_occurrence s at = record {
    occurrence_key = occurrence_key s.id s.revision at;
    schedule_id = s.id;
    collector_id = s.collector_id;
    scheduled_at = at;
    status = "claimed";
    run_id = none;
    reason = none;
  }

  abbrev pub triggered : ℕ → ℕ → Schedule → Schedule
  triggered now at s = record {
    id = s.id;
    collector_id = s.collector_id;
    revision = s.revision;
    enabled = s.enabled;
    cron_expression = s.cron_expression;
    last_triggered_at = some at;
    next_run_at = some (next s.cron_expression now);
    updated_at = now;
  }

  -- the occurrence at an instant, and the schedule moved on; nothing is claimed where the key is known
  abbrev pub trigger : ℕ → Schedule → ℕ → Tables → List Occurrence × Tables
  trigger now s at t =
      let occurrence = claimed_occurrence s at in
      let known = has_key occurrence.occurrence_key t.occurrences in
      (
        if known then [] else occurrence ∷ [],
        record {
          schedules = update_schedule s.id (λ _. triggered now at s) t.schedules;
          occurrences = if known then t.occurrences else t.occurrences ++ occurrence ∷ [];
          sources = t.sources;
        },
      )

  -- the loop's body on a selected row: the schedule is read again under the lock of its source
  unfoldable pub claim_one : ℕ → Schedule → Tables → List Occurrence × Tables
  claim_one now row t =
      elim (find_source row.collector_id t.sources) as (λ _. List Occurrence × Tables) [
        | none ↦ ([], t)
        | some locked ↦ elim (find_schedule row.id t.schedules) as (λ _. List Occurrence × Tables) [
          | none ↦ ([], t)
          | some s ↦
              if is_due now s && is_claimable t s then trigger now s (time_of s) t else ([], t)
        ]
      ]

  unfoldable pub claim_rows : ℕ → List Schedule → Tables → List Occurrence × Tables
  claim_rows now [] t = ([], t)
  claim_rows now (r ∷ rs) t =
      let (one, after) = claim_one now r t in
      let (others, last) = claim_rows now rs after in (one ++ others, last)

  unfoldable pub claim_due_schedules : ℕ → Tables → List Occurrence × Tables
  claim_due_schedules now t = claim_rows now (select_due now t.schedules) t
