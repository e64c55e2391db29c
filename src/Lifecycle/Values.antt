-- ===== src/Lifecycle/Values.antt =====
-- What the commands on a source are given, and what they make of it.
use Prim.Native.String.{◌++◌ as ◌++ₛ◌}
use extrio.Base.{
  ℕ, String, Bool, true, false, ◌&&◌, not, Option, none, some, List, [], ◌∷◌, map, ◌=ₛ◌,
  if◌then◌else◌, any, Outcome, ok, err,
}
use extrio.Worker.Values.{precedes}
use extrio.Audit.{Event, same_text}
use extrio.Fields.{Field}
use extrio.Collections.{Collection, Version}
use extrio.Lifecycle.Tables.{
  Collector, Tables, Migration, MigrationRow, Snapshot, Response, Receipt, is_in, migration_of,
  LifecycleError, migration_not_active,
}
use extrio.Lifecycle.Store.{Cron}
use extrio.Lifecycle.History.{Counts}
use extrio.Lifecycle.Plans.{LifecyclePlan}
use extrio.Lifecycle.Changes.{FieldChange}
use extrio.Lifecycle.Moves.{MigrationPlan, MovePlan}

-- the definition of a source, its address normalized
pub record Definition : Type 0 where
  pub name : String
  pub intent : String
  pub source_url : String
  pub source_host : String

-- the source and the body; a definition is given as it was sent and as it is after its checks
pub data Command : Type 0 where
  manage : String → String → String → Command
  define : String → String → Definition → ℕ → Command
  reassign : String → String → String → List String → Command
  migrate : String → String → String → List String → Command
  cancel : String → String → Command

abbrev pub scope_of : Command → String
scope_of (manage id action digest) = "POST:/collectors/" ++ₛ id ++ₛ "/lifecycle"
scope_of (define id body d revision) = "PATCH:/collectors/" ++ₛ id
scope_of (reassign id target digest confirmed) = "POST:/collectors/" ++ₛ id ++ₛ "/reassignment"
scope_of (migrate id target digest confirmed) =
    "POST:/collectors/" ++ₛ id ++ₛ "/collection-migration"
scope_of (cancel id target) = "POST:/collectors/" ++ₛ id ++ₛ "/collection-migration/cancel"

abbrev pub target_of : Command → String
target_of (manage id action digest) = id
target_of (define id body d revision) = id
target_of (reassign id target digest confirmed) = id
target_of (migrate id target digest confirmed) = id
target_of (cancel id target) = id

abbrev pub action_of : Command → String
action_of (manage id action digest) = "collector." ++ₛ action
action_of (define id body d revision) = "collector.definition_updated"
action_of (reassign id target digest confirmed) = "collector.reassigned"
action_of (migrate id target digest confirmed) = "collection_migration.started"
action_of (cancel id target) = "collection_migration.cancelled"

-- What is not in the repository, the cron library and SHA-256 of canonical JSON, with the text of an
-- instant and DEFAULT_COLLECTION_FIELDS.
pub record Host : Type 0 where
  pub cron : Cron
  pub iso : ℕ → String
  pub sha256 : String → String
  pub json : Event → Option String → String
  pub hash_body : Command → String
  pub hash_value : Response → String
  pub hash_lifecycle : Collector → List LifecycleError → List String → Counts → String
  pub hash_move :
      Collector
      → LifecyclePlan
      → Collection
      → Option Version
      → List (String × String)
      → Counts
      → String
  pub hash_migration : Collector → Version → ℕ → String
  pub default_fields : List Field

pub record Call : Type 0 where
  pub key : String
  pub tenant_id : String
  pub actor_id : String
  pub request_id : String
  pub details : String
  pub event_id : String
  pub now : ℕ

-- the status, the value and whether the command was answered before
pub record Answer : Type 0 where
  pub status_code : ℕ
  pub value : Response
  pub is_replay : Bool

unfoldable pub find_receipt : String → String → List Receipt → Option Receipt
find_receipt scope key [] = none
find_receipt scope key (r ∷ rs) =
    if (r.scope =ₛ scope) && (r.key =ₛ key) then some r else find_receipt scope key rs

-- raise LifecycleError(blockers[0])
abbrev pub refuse_blocked : List LifecycleError → Outcome LifecycleError (Unit {0})
refuse_blocked [] = ok tt
refuse_blocked (b ∷ bs) = err b

-- sorted(confirmed) == sorted(change["key"] ...)
abbrev insert_text : String → List String → List String
insert_text s [] = s ∷ []
insert_text s (t ∷ ts) =
    let rest = insert_text s ts in if precedes t s then t ∷ rest else s ∷ t ∷ ts

abbrev pub sorted : List String → List String
sorted [] = []
sorted (s ∷ ss) = insert_text s (sorted ss)

abbrev same_texts : List String → List String → Bool
same_texts [] [] = true
same_texts (s ∷ ss) (t ∷ ts) = (s =ₛ t) && same_texts ss ts
same_texts _ _ = false

unfoldable pub is_confirmed : List String → List FieldChange → Bool
is_confirmed confirmed changes = same_texts (sorted confirmed) (sorted (map (λ c. c.key) changes))

-- another source that is not deleted has the address
unfoldable pub source_exists : String → String → Tables → Bool
source_exists url id t =
    any (λ c. (c.source_url =ₛ url) && not (is_in c.id t.deleted_collectors) && not (c.id =ₛ id))
      t.collectors

-- what `invalidate_execution` clears
abbrev pub invalidated : Collector → Collector
invalidated c = record c {
  status = "draft";
  active_rule_version = none;
  candidate = none;
  preview_items = [];
  review_decisions = none;
  checkpoint = none;
  active_operation_id = none;
}

abbrev snapshot_of : Collector → Snapshot
snapshot_of c = record {
  status = c.status;
  candidate = c.candidate;
  preview_items = c.preview_items;
  review_decisions = c.review_decisions;
}

abbrev migration_from : Collector → MigrationPlan → ℕ → Migration
migration_from c plan now = record {
  from_version_id = c.collection_version;
  target_version_id = plan.target_version_id;
  target_version_number = plan.target_version_number;
  status = "awaiting_compile";
  started_at = now;
}

abbrev pub new_migration : String → Collector → MigrationPlan → ℕ → MigrationRow
new_migration id c plan now = record {
  collector_id = id;
  migration = migration_from c plan now;
  snapshot = snapshot_of c;
  intent = c.intent;
  source_url = c.source_url;
}

abbrev pub migrating : Collector → MigrationPlan → ℕ → Collector
migrating c plan now = record c {
  pending_collection_version = some plan.target_version_id;
  collection_migration = some (migration_from c plan now);
  status = "draft";
  review_decisions = none;
}

-- the source before the migration, where its definition is the one that the migration started with
abbrev pub given_back : MigrationRow → Collector → Collector
given_back m c =
    if (c.intent =ₛ m.intent) && (c.source_url =ₛ m.source_url)
    then record c {
      status = m.snapshot.status;
      candidate = m.snapshot.candidate;
      preview_items = m.snapshot.preview_items;
      review_decisions = m.snapshot.review_decisions;
    }
    else record c {
      status = "draft";
      candidate = none;
      preview_items = [];
      review_decisions = none;
    }

abbrev pub released : Collector → Collector
released c = record c {
  pending_collection_version = none;
  collection_migration = none;
  active_operation_id = none;
}

-- previous, where the migration of the target is the one that is active
abbrev pub active_migration :
    String → Collector → String → Tables → Outcome LifecycleError MigrationRow
active_migration id c target t = elim (migration_of id t.migrations) [
  | none ↦ err migration_not_active
  | some m ↦
      if same_text c.pending_collection_version (some target)
      then ok m
      else err migration_not_active
]

abbrev pub defined : Definition → String → Collector → Collector
defined d at c = record c {
  name = d.name;
  intent = d.intent;
  source_url = d.source_url;
  source_host = d.source_host;
  updated_at = at;
}

abbrev pub moved : MovePlan → String → Collector → Collector
moved plan at c = record c {
  collection_id = plan.target_collection_id;
  collection_name = plan.target_collection_name;
  collection_version = plan.target_version_id;
  intent = plan.target_intent;
  has_reassignment_history = true;
  updated_at = at;
}
