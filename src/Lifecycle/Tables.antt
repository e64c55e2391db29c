-- ===== src/Lifecycle/Tables.antt =====
-- The rows that the commands on a source read and write. A JSON value that is only stored and handed on
-- (a candidate, a review, a preview) is its text.
use extrio.Base.{
  ℕ, String, Bool, false, not, Option, none, some, List, [], ◌∷◌, ◌=ₛ◌, any, if◌then◌else◌,
}
use extrio.Audit.{Row}
use extrio.Fields.Project.{GatherSpec}
use extrio.Schedules.{Schedule}
use extrio.Collections.{Collection, Version}

-- "collectionMigration" of a source
pub record Migration : Type 0 where
  pub from_version_id : String
  pub target_version_id : String
  pub target_version_number : ℕ
  pub status : String
  pub started_at : ℕ

-- a rule that was compiled and not yet reviewed
pub record Candidate : Type 0 where
  pub id : String
  pub spec : Option GatherSpec
  pub rest : String

pub record Collector : Type 0 where
  pub id : String
  pub name : String
  pub intent : String
  pub source_url : String
  pub source_host : String
  pub collection_id : String
  pub collection_name : String
  pub collection_version : String
  pub lifecycle : String
  pub management_revision : ℕ
  pub status : String
  pub active_rule_version : Option String
  pub candidate : Option Candidate
  pub preview_items : List String
  pub review_decisions : Option String
  pub checkpoint : Option String
  pub active_operation_id : Option String
  pub latest_run_id : Option String
  pub pending_collection_version : Option String
  pub collection_migration : Option Migration
  pub has_reassignment_history : Bool
  pub schedule : Option Schedule
  pub updated_at : String

-- what a migration keeps of a source, to give it back when it is cancelled
pub record Snapshot : Type 0 where
  pub status : String
  pub candidate : Option Candidate
  pub preview_items : List String
  pub review_decisions : Option String

-- a row of collection_migrations
pub record MigrationRow : Type 0 where
  pub collector_id : String
  pub migration : Migration
  pub snapshot : Snapshot
  pub intent : String
  pub source_url : String

-- a row of operations, ai_runs or runs; `rule_version` is "ruleVersion" of a run and
-- "publishedRuleVersionId" of an AI run
pub record Work : Type 0 where
  pub id : String
  pub collector_id : String
  pub status : String
  pub operation_id : Option String
  pub rule_version : Option String

pub record Job : Type 0 where
  pub operation_id : String
  pub status : String

-- a row of rule_versions, with "collectionVersionRef" of its spec
pub record RuleVersion : Type 0 where
  pub id : String
  pub collector_id : String
  pub ref_collection_id : Option String
  pub ref_version_id : Option String
  pub spec : Option GatherSpec

-- what `attribution` returns
pub record Owner : Type 0 where
  pub collection_id : String
  pub collection_name : String
  pub collection_version : String

-- a row of source_history_ownership
pub record Ownership : Type 0 where
  pub resource_type : String
  pub resource_id : String
  pub collector_id : String
  pub owner : Owner

pub record Item : Type 0 where
  pub id : String
  pub run_id : String
  pub collector_id : String

-- a row of collection_policies: whether it holds the default values
pub record PolicyRow : Type 0 where
  pub collector_id : String
  pub is_default : Bool

pub data Response : Type 0 where
  saved : Collector → Response
  deleted : String → Response

pub record Receipt : Type 0 where
  pub scope : String
  pub key : String
  pub request_hash : String
  pub status_code : ℕ
  pub response : Response

-- A table that is only counted is the list of its rows' collectors.
pub record Tables : Type 0 where
  pub collectors : List Collector
  pub deleted_collectors : List String
  pub collections : List Collection
  pub versions : List Version
  pub rule_versions : List RuleVersion
  pub schedules : List Schedule
  pub operations : List Work
  pub ai_runs : List Work
  pub runs : List Work
  pub jobs : List Job
  pub migrations : List MigrationRow
  pub checkpoints : List String
  pub occurrences : List String
  pub sinks : List String
  pub deliveries : List String
  pub items : List Item
  pub policies : List PolicyRow
  pub ownership : List Ownership
  pub idempotency : List Receipt
  pub audit : List Row

pub data LifecycleError : Type 0 where
  collector_not_found collector_archived collector_conflict lifecycle_action_invalid :
      LifecycleError
  task_already_active run_already_active operation_already_active : LifecycleError
  migration_already_active migration_not_active migration_conflict migration_review_required :
      LifecycleError
  version_not_found version_already_bound source_already_exists : LifecycleError
  collection_not_found collection_archived collection_already_bound : LifecycleError
  history_ownership_unresolved reassignment_review_required : LifecycleError
  idempotency_conflict invalid_schedule missing_row : LifecycleError

abbrev pub find_collector : String → List Collector → Option Collector
find_collector id [] = none
find_collector id (c ∷ cs) = if c.id =ₛ id then some c else find_collector id cs

-- INSERT ... ON CONFLICT(id) DO UPDATE
unfoldable pub write_collector : Collector → List Collector → List Collector
write_collector c [] = c ∷ []
write_collector c (d ∷ ds) =
    let rest = write_collector c ds in if d.id =ₛ c.id then c ∷ ds else d ∷ rest

abbrev pub schedule_of : String → List Schedule → Option Schedule
schedule_of id [] = none
schedule_of id (s ∷ ss) = if s.collector_id =ₛ id then some s else schedule_of id ss

-- INSERT ... ON CONFLICT(collector_id) DO UPDATE
unfoldable pub write_schedule : Schedule → List Schedule → List Schedule
write_schedule s [] = s ∷ []
write_schedule s (r ∷ rs) =
    let rest = write_schedule s rs in if r.collector_id =ₛ s.collector_id then s ∷ rs else r ∷ rest

abbrev pub migration_of : String → List MigrationRow → Option MigrationRow
migration_of id [] = none
migration_of id (m ∷ ms) = if m.collector_id =ₛ id then some m else migration_of id ms

unfoldable pub write_migration : MigrationRow → List MigrationRow → List MigrationRow
write_migration m [] = m ∷ []
write_migration m (n ∷ ns) =
    let rest = write_migration m ns in if n.collector_id =ₛ m.collector_id then m ∷ ns else n ∷ rest

-- DELETE FROM collection_migrations WHERE collector_id=?
unfoldable pub remove_migration : String → List MigrationRow → List MigrationRow
remove_migration id [] = []
remove_migration id (n ∷ ns) =
    let rest = remove_migration id ns in if n.collector_id =ₛ id then rest else n ∷ rest

-- DELETE FROM collector_checkpoints WHERE collector_id=?
unfoldable pub remove_text : String → List String → List String
remove_text id [] = []
remove_text id (s ∷ ss) = let rest = remove_text id ss in if s =ₛ id then rest else s ∷ rest

abbrev pub find_work : String → List Work → Option Work
find_work id [] = none
find_work id (w ∷ ws) = if w.id =ₛ id then some w else find_work id ws

abbrev pub find_rule : String → List RuleVersion → Option RuleVersion
find_rule id [] = none
find_rule id (r ∷ rs) = if r.id =ₛ id then some r else find_rule id rs

abbrev pub is_in : String → List String → Bool
is_in s ss = any (λ t. t =ₛ s) ss

abbrev pub truthy : Option String → Bool
truthy none = false
truthy (some s) = not (s =ₛ "")
