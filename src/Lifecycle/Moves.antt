-- ===== src/Lifecycle/Moves.antt =====
-- The plans of moving a source to another collection and of migrating it to another version of its
-- fields. `hash_move` and `hash_migration` stand for SHA-256 of canonical JSON, `default_fields` for
-- DEFAULT_COLLECTION_FIELDS.
use Prim.Native.String.{◌++◌ as ◌++ₛ◌}
use extrio.Base.{
  ℕ, String, Bool, true, false, ◌&&◌, not, Option, none, some, List, [], ◌++◌, ◌=ₛ◌, if◌then◌else◌,
  or_else, Outcome, ok, err, ◌>>=◌,
}
use extrio.Fields.{Field}
use extrio.Fields.Project.{GatherSpec, project_source_contract}
use extrio.Collections.{Collection, Version, find_collection, find_version}
use extrio.Lifecycle.Tables.{
  Collector, Tables, RuleVersion, truthy, find_work, LifecycleError, collection_not_found,
  version_not_found, run_already_active, migration_already_active, collector_archived,
  collection_archived, version_already_bound, operation_already_active, collection_already_bound,
  history_ownership_unresolved, missing_row,
}
use extrio.Lifecycle.Store.{the_collector}
use extrio.Lifecycle.History.{Counts, rule_in, history_snapshot}
use extrio.Lifecycle.Plans.{
  LifecyclePlan, lifecycle_plan, when, is_filled, has_active_run, is_terminal,
}
use extrio.Lifecycle.Changes.{FieldChange, field_changes}

-- the rule of the source, where it runs one
abbrev active_rule : Collector → Tables → Option RuleVersion
active_rule c t =
    if truthy c.active_rule_version then rule_in c.active_rule_version t.rule_versions else none

abbrev spec_of : Option RuleVersion → Option GatherSpec
spec_of none = none
spec_of (some r) = r.spec

-- the fields of the version that the source is bound to, or those of its rule
unfoldable pub bound_fields : Collector → Tables → List Field
bound_fields c t = elim (find_version c.collection_version t.versions) as (λ _. List Field) [
  | some v ↦ v.contract.fields
  | none ↦
      (project_source_contract (record {
        active_rule_version = c.active_rule_version;
        version_spec = spec_of (active_rule c t);
        candidate_id = elim c.candidate [ none ↦ none | some k ↦ some k.id ];
        candidate_spec = elim c.candidate [ none ↦ none | some k ↦ k.spec ];
      })).fields
]

-- an operation that the source names and that has not ended
abbrev pub has_active_operation : Collector → Tables → Bool
has_active_operation c t = elim c.active_operation_id [
  | none ↦ false
  | some id ↦
      not (id =ₛ "")
      && elim (find_work id t.operations) [ none ↦ false | some o ↦ not (is_terminal o.status) ]
]

abbrev pub the_collection : String → Tables → Outcome LifecycleError Collection
the_collection id t = elim (find_collection id t.collections) [
  | none ↦ err missing_row
  | some c ↦ ok c
]

abbrev belongs_to : String → Version → Bool
belongs_to id v = v.collection_id =ₛ id

-- target["collectionId"] == source["collectionId"]
abbrev pub the_version : String → Collector → Tables → Outcome LifecycleError Version
the_version id c t = elim (find_version id t.versions) [
  | none ↦ err version_not_found
  | some v ↦ if belongs_to c.collection_id v then ok v else err version_not_found
]

pub record MigrationPlan : Type 0 where
  pub from_version_id : String
  pub target_version_id : String
  pub target_version_number : ℕ
  pub changes : List FieldChange
  pub blockers : List LifecycleError
  pub plan_digest : String

unfoldable pub migration_blockers : Collector → Collection → String → Tables → List LifecycleError
migration_blockers c r target t =
    when (c.lifecycle =ₛ "archived") collector_archived
    ++ when (r.status =ₛ "archived") collection_archived
    ++ when (truthy c.pending_collection_version) migration_already_active
    ++ when (c.collection_version =ₛ target) version_already_bound
    ++ when (has_active_run c.id t) run_already_active
    ++ when (has_active_operation c t) operation_already_active

module _ (hash_migration : Collector → Version → ℕ → String) where
  unfoldable pub migration_plan : String → String → Tables → Outcome LifecycleError MigrationPlan
  migration_plan id target t = do
    c ← the_collector id t
    v ← the_version target c t
    r ← the_collection c.collection_id t
    ok (record {
      from_version_id = c.collection_version;
      target_version_id = target;
      target_version_number = v.version_number;
      changes = field_changes (bound_fields c t) v.contract.fields;
      blockers = migration_blockers c r target t;
      plan_digest = "sha256:" ++ₛ hash_migration c v r.revision;
    })

pub record MovePlan : Type 0 where
  pub target_collection_id : String
  pub target_collection_name : String
  pub target_intent : String
  pub target_version_id : String
  pub changes : List FieldChange
  pub blockers : List LifecycleError
  pub requires_recompile : Bool
  pub history_counts : Counts
  pub unresolved_history : List (String × String)
  pub plan_digest : String

-- target.get("activeVersionId") or target["collectionVersion"]
abbrev target_version_of : Collection → String
target_version_of r =
    if truthy r.active_version_id then or_else r.active_version_id "" else r.collection_version

-- the version that the target names is not its own
abbrev is_foreign : Collection → Tables → Bool
is_foreign r t =
    truthy r.active_version_id && elim (find_version (target_version_of r) t.versions) [
      | none ↦ true
      | some v ↦ not (belongs_to r.id v)
    ]

unfoldable pub move_blockers :
    LifecyclePlan → Collector → Collection → String → Tables → List LifecycleError
move_blockers plan c r target t =
    plan.blockers
    ++ when (c.lifecycle =ₛ "archived") collector_archived
    ++ when (r.status =ₛ "archived") collection_archived
    ++ when (target =ₛ c.collection_id) collection_already_bound
    ++ when (is_filled (history_snapshot c t).unresolved) history_ownership_unresolved
    ++ when (is_foreign r t) version_not_found

module _ (hash_lifecycle : Collector → List LifecycleError → List String → Counts → String)
    (hash_move : Collector
      → LifecyclePlan
      → Collection
      → Option Version
      → List (String × String)
      → Counts
      → String)
    (default_fields : List Field) where
  unfoldable pub reassignment_plan : String → String → Tables → Outcome LifecycleError MovePlan
  reassignment_plan id target t = do
    c ← the_collector id t
    r ← elim (find_collection target t.collections) [
      | none ↦ err collection_not_found
      | some r ↦ ok r
    ]
    plan ← lifecycle_plan hash_lifecycle id t
    let snapshot = history_snapshot c t
    let version = find_version (target_version_of r) t.versions
    let fields = elim version as (λ _. List Field) [
      | none ↦ default_fields
      | some v ↦ v.contract.fields
    ]
    ok (record {
      target_collection_id = target;
      target_collection_name = r.name;
      target_intent = r.intent;
      target_version_id = target_version_of r;
      changes = if plan.has_history then field_changes (bound_fields c t) fields else [];
      blockers = move_blockers plan c r target t;
      requires_recompile = plan.has_history;
      history_counts = snapshot.counts;
      unresolved_history = snapshot.unresolved;
      plan_digest = "sha256:" ++ₛ hash_move c plan r version snapshot.unresolved snapshot.counts;
    })
