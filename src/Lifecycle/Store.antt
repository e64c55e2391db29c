-- ===== src/Lifecycle/Store.antt =====
-- The methods of the store that the commands on a source call, and the guards that they share.
use extrio.Base.{
  ◌==◌, if◌then◌else◌, is_some, length, Outcome, raise_if, ◌>>=◌, ◌>>◌, List, ok, err, ℕ, ◌+◌,
  String, Bool, true, false, not, ◌&&◌, ◌||◌, Option, none, some, ◌=ₛ◌,
}
use extrio.Schedules.{Schedule}
use extrio.Collections.{Collection, find_collection}
use extrio.Lifecycle.Tables.{
  Collector, Tables, LifecycleError, find_collector, write_collector, schedule_of, write_schedule,
  is_in, collector_not_found, collector_archived, collector_conflict, invalid_schedule,
}

abbrev pub lock_collector : String → Tables → Outcome LifecycleError (Unit {0})
lock_collector id t = do
  raise_if (not (is_some (find_collector id t.collectors))) collector_not_found
  raise_if (is_in id t.deleted_collectors) collector_not_found

-- value["collectionName"] = requirement["name"]
abbrev pub named_by : Option Collection → Collector → Collector
named_by none c = c
named_by (some r) c = record c { collection_name = r.name }

abbrev pub named : Tables → Collector → Collector
named t c = named_by (find_collection c.collection_id t.collections) c

unfoldable pub get_collector : String → Tables → Option Collector
get_collector id t =
    if is_in id t.deleted_collectors
    then none
    else elim (find_collector id t.collectors) as (λ _. Option Collector) [
      | none ↦ none
      | some c ↦ some (named t c)
    ]

-- store.get_collector(...), where the row was locked before
abbrev pub the_collector : String → Tables → Outcome LifecycleError Collector
the_collector id t = elim (get_collector id t) [ none ↦ err collector_not_found | some c ↦ ok c ]

abbrev pub require_active : Collector → Outcome LifecycleError (Unit {0})
require_active c = raise_if (c.lifecycle =ₛ "archived") collector_archived

-- what `save_collector` writes: a write of the management counts the revision of the stored row up
abbrev pub revised : Bool → Option Collector → Collector → Collector
revised false current c = c
revised true none c = record c { management_revision = 1 }
revised true (some current) c = record c { management_revision = current.management_revision + 1 }

abbrev pub differs_in_management : Option Collector → Collector → Bool
differs_in_management none c = false
differs_in_management (some current) c =
    not (current.lifecycle =ₛ c.lifecycle)
    || not (current.management_revision == c.management_revision)

unfoldable pub save_collector :
    Bool → Collector → Tables → Outcome LifecycleError (Collector × Tables)
save_collector management c t = do
  let current = find_collector c.id t.collectors
  raise_if (is_in c.id t.deleted_collectors) collector_not_found
  raise_if (not management && differs_in_management current c) collector_conflict
  let saved_row = revised management current c
  ok (saved_row, record t { collectors = write_collector saved_row t.collectors })

-- the values of a schedule
pub record ScheduleValues : Type 0 where
  pub enabled : Bool
  pub cron_expression : String
  pub timezone : String
  pub overlap_policy : String

-- The cron library's validity test and next instant, Python's `strip` and `split`, and the identifier
-- that is made of a source's.
pub record Cron : Type 0 where
  pub is_valid : String → Bool
  pub next : String → ℕ → ℕ
  pub strip : String → String
  pub split : String → List String
  pub schedule_id : String → String

module _ (cron : Cron) where
  abbrev pub validate_schedule : ScheduleValues → Outcome LifecycleError ScheduleValues
  validate_schedule v = do
    raise_if (not (v.timezone =ₛ "Asia/Shanghai") || not (v.overlap_policy =ₛ "forbid"))
        invalid_schedule
    let expression = cron.strip v.cron_expression
    raise_if (not (length (cron.split expression) == 5) || not (cron.is_valid expression))
        invalid_schedule
    ok (record v { cron_expression = expression })

  -- the row that `save_schedule` writes; the zone and the overlap policy are the same in all rows
  abbrev pub scheduled : String → ScheduleValues → Option Schedule → ℕ → Schedule
  scheduled id v existing now = record {
    id = elim existing [ none ↦ cron.schedule_id id | some s ↦ s.id ];
    collector_id = id;
    revision = elim existing [ none ↦ 1 | some s ↦ s.revision + 1 ];
    enabled = v.enabled;
    cron_expression = v.cron_expression;
    last_triggered_at = elim existing [ none ↦ none | some s ↦ s.last_triggered_at ];
    next_run_at = if v.enabled then some (cron.next v.cron_expression now) else none;
    updated_at = now;
  }

  unfoldable pub save_schedule :
      String → ScheduleValues → ℕ → Tables → Outcome LifecycleError (Collector × Tables)
  save_schedule id values now t = do
    v ← validate_schedule values
    lock_collector id t
    c ← the_collector id t
    (if v.enabled then require_active c else ok tt)
    let s = scheduled id v (schedule_of id t.schedules) now
    save_collector false (record c { schedule = some s; updated_at = "刚刚" })
        (record t { schedules = write_schedule s t.schedules })

  -- the stored schedule, or the one that the source keeps
  abbrev pub current_schedule : Collector → Tables → Option Schedule
  current_schedule c t = elim (schedule_of c.id t.schedules) [ none ↦ c.schedule | some s ↦ some s ]

  abbrev pub disabled_values : Schedule → ScheduleValues
  disabled_values s = record {
    enabled = false;
    cron_expression = s.cron_expression;
    timezone = "Asia/Shanghai";
    overlap_policy = "forbid";
  }

  abbrev is_enabled : Option Schedule → Bool
  is_enabled none = false
  is_enabled (some s) = s.enabled

  -- the source with its schedule as it is stored after, and the tables
  unfoldable pub disable_schedule :
      Collector → ℕ → Tables → Outcome LifecycleError (Collector × Tables)
  disable_schedule c now t =
      elim (current_schedule c t) as (λ _. Outcome LifecycleError (Collector × Tables)) [
        | none ↦ ok (c, t)
        | some s ↦
            if s.enabled
            then (do
              (_, after) ← save_schedule c.id (disabled_values s) now t
              again ← the_collector c.id after
              ok (record c { schedule = again.schedule }, after))
            else ok (c, t)
      ]
