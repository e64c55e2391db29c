-- ===== src/Lifecycle/Plans.antt =====
-- What a person is shown before a source is archived, deleted, moved or migrated: the blockers, the
-- changes of the fields, and the digest that the command must repeat. The `hash` parameters stand for
-- SHA-256 of canonical JSON, `default_fields` for DEFAULT_COLLECTION_FIELDS.
use text.Mathlib.Text.{starts_with}
use Prim.Native.String.{◌++◌ as ◌++ₛ◌}
use extrio.Base.{
  String, Bool, true, false, ◌&&◌, ◌||◌, not, none, some, List, [], ◌∷◌, ◌++◌, ◌=ₛ◌, if◌then◌else◌,
  any, is_some, ltb, Outcome, ok, ◌>>=◌,
}
use extrio.Audit.{Row}
use extrio.Lifecycle.Tables.{
  Collector, Tables, Work, Job, truthy, find_work, migration_of, schedule_of, LifecycleError,
  task_already_active, run_already_active, migration_already_active,
}
use extrio.Lifecycle.Store.{the_collector}
use extrio.Lifecycle.History.{Counts, count_if, works_on}

abbrev pub is_terminal : String → Bool
is_terminal s = (s =ₛ "succeeded") || (s =ₛ "failed") || (s =ₛ "cancelled") || (s =ₛ "timed_out")

abbrev is_nonterminal_run : String → Bool
is_nonterminal_run s = (s =ₛ "queued") || (s =ₛ "running") || (s =ₛ "finalizing")

abbrev pub has_active_run : String → Tables → Bool
has_active_run id t = any (λ r. works_on id r && is_nonterminal_run r.status) t.runs

-- a job that waits or runs, of an operation on the source
abbrev is_active_job : String → List Work → Job → Bool
is_active_job id operations j =
    ((j.status =ₛ "queued") || (j.status =ₛ "processing"))
    && elim (find_work j.operation_id operations) [ none ↦ false | some o ↦ works_on id o ]

abbrev is_active_work : String → Work → Bool
is_active_work id w = works_on id w && not (is_terminal w.status)

abbrev pub when {ℓ} : {A : Type ℓ} → Bool → A → List A
when b x = if b then x ∷ [] else []

unfoldable pub active_blockers : String → Tables → List LifecycleError
active_blockers id t =
    let active = any (is_active_work id) t.operations || any (is_active_work id) t.ai_runs in
    let jobs = any (is_active_job id t.operations) t.jobs in
    when (jobs || active) task_already_active ++ when (has_active_run id t) run_already_active

abbrev is_migrating : Collector → Tables → Bool
is_migrating c t = truthy c.pending_collection_version || is_some (migration_of c.id t.migrations)

unfoldable pub lifecycle_blockers : Collector → Tables → List LifecycleError
lifecycle_blockers c t = active_blockers c.id t ++ when (is_migrating c t) migration_already_active

-- an audit event of a migration or a move of the source
abbrev is_move_event : String → Row → Bool
is_move_event id r =
    (r.event.target_id =ₛ id)
    && (starts_with r.event.action "collection_migration."
        || starts_with r.event.action "collector.reassigned")

abbrev is_text : String → String → Bool
is_text id s = s =ₛ id

abbrev lifecycle_counts : Collector → Tables → Counts
lifecycle_counts c t = record {
  rules = count_if (λ r. r.collector_id =ₛ c.id) t.rule_versions;
  runs = count_if (works_on c.id) t.runs;
  ai_runs = count_if (works_on c.id) t.ai_runs;
  operations = count_if (works_on c.id) t.operations;
  items = count_if (λ i. i.collector_id =ₛ c.id) t.items;
  sinks = count_if (is_text c.id) t.sinks;
  deliveries = count_if (is_text c.id) t.deliveries;
}

-- the schedule of the row, or the one that the source keeps
abbrev is_scheduled : Collector → Tables → Bool
is_scheduled c t = elim (schedule_of c.id t.schedules) [
  | some s ↦ s.enabled
  | none ↦ elim c.schedule [ none ↦ false | some s ↦ s.enabled ]
]

abbrev is_rescheduled : Collector → Tables → Bool
is_rescheduled c t = elim (schedule_of c.id t.schedules) [
  | some s ↦ s.enabled || ltb 1 s.revision
  | none ↦ elim c.schedule [ none ↦ false | some s ↦ s.enabled || ltb 1 s.revision ]
]

abbrev has_policy_history : String → Tables → Bool
has_policy_history id t =
    ltb 1 (count_if (λ p. p.collector_id =ₛ id) t.policies)
    || any (λ p. (p.collector_id =ₛ id) && not p.is_default) t.policies

-- what there is of a source beside its row
unfoldable pub history_kinds : Collector → Tables → List String
history_kinds c t =
    let k = lifecycle_counts c t in
    when (ltb 0 k.operations) "HAS_OPERATIONS"
    ++ when (ltb 0 k.ai_runs) "HAS_AI_RUNS"
    ++ when (ltb 0 k.rules) "HAS_RULE_VERSIONS"
    ++ when (ltb 0 k.runs) "HAS_RUNS"
    ++ when (any (is_text c.id) t.checkpoints) "HAS_COLLECTOR_CHECKPOINTS"
    ++ when (any (is_text c.id) t.occurrences) "HAS_SCHEDULE_OCCURRENCES"
    ++ when (is_some (migration_of c.id t.migrations)) "HAS_COLLECTION_MIGRATIONS"
    ++ when (ltb 0 k.sinks) "HAS_SINKS"
    ++ when (ltb 0 k.deliveries) "HAS_DELIVERIES"
    ++ when (any (λ o. o.collector_id =ₛ c.id) t.ownership) "HAS_SOURCE_HISTORY_OWNERSHIP"
    ++ when (ltb 0 k.items) "HAS_ITEMS"
    ++ when (has_policy_history c.id t) "HAS_POLICY_HISTORY"
    ++ when (is_some c.candidate || truthy c.active_rule_version || truthy c.latest_run_id)
        "HAS_SOURCE_HISTORY"
    ++ when (any (is_move_event c.id) t.audit) "HAS_MIGRATION_HISTORY"
    ++ when (is_rescheduled c t) "HAS_SCHEDULE_HISTORY"

pub record LifecyclePlan : Type 0 where
  pub collector_name : String
  pub source_url : String
  pub collection_name : String
  pub lifecycle : String
  pub blockers : List LifecycleError
  pub delete_blockers : List LifecycleError
  pub has_history : Bool
  pub history_counts : Counts
  pub schedule_enabled : Bool
  pub plan_digest : String

abbrev pub is_filled {ℓ} : {A : Type ℓ} → List A → Bool
is_filled [] = false
is_filled (x ∷ xs) = true

module _ (hash_lifecycle : Collector → List LifecycleError → List String → Counts → String) where
  unfoldable pub lifecycle_plan : String → Tables → Outcome LifecycleError LifecyclePlan
  lifecycle_plan id t = do
    c ← the_collector id t
    let blockers = lifecycle_blockers c t
    let history = history_kinds c t
    let counts = lifecycle_counts c t
    ok (record {
      collector_name = c.name;
      source_url = c.source_url;
      collection_name = c.collection_name;
      lifecycle = c.lifecycle;
      blockers = blockers;
      delete_blockers = blockers;
      has_history = is_filled history;
      history_counts = counts;
      schedule_enabled = is_scheduled c t;
      plan_digest = "sha256:" ++ₛ hash_lifecycle c blockers history counts;
    })
