-- ===== src/Lifecycle/Commands.antt =====
-- The commands on a source: `lifecycle_command`, `definition_command`, `reassignment_command` and
-- `migration_command`, each with its receipt and its audit event. A change returns the error, or the
-- value that is answered with the tables.
use Prim.Native.String.{◌++◌ as ◌++ₛ◌}
use extrio.Base.{
  is_some, ℕ, String, Bool, true, false, ◌&&◌, ◌||◌, not, none, some, List, [], ◌∷◌, ◌++◌, ◌=ₛ◌,
  ◌==◌, if◌then◌else◌, Outcome, ok, raise_if, ◌>>=◌, ◌>>◌,
}
use extrio.Audit.{append_audit_event}
use extrio.Collections.{find_collection}
use extrio.Lifecycle.Tables.{
  collection_not_found, Collector, Tables, Response, saved, deleted, truthy, write_migration,
  remove_migration, remove_text, LifecycleError, collector_conflict, lifecycle_action_invalid,
  idempotency_conflict, migration_already_active, migration_conflict, migration_review_required,
  operation_already_active, source_already_exists, reassignment_review_required,
}
use extrio.Lifecycle.Store.{
  lock_collector, the_collector, require_active, save_collector, disable_schedule,
}
use extrio.Lifecycle.History.{history_snapshot, freeze_history}
use extrio.Lifecycle.Plans.{lifecycle_plan, active_blockers}
use extrio.Lifecycle.Moves.{migration_plan, reassignment_plan, has_active_operation}
use extrio.Lifecycle.Values.{
  Answer, Call, Command, Definition, Host, action_of, active_migration, cancel, define, defined,
  find_receipt, given_back, invalidated, is_confirmed, manage, migrate, new_migration, migrating,
  moved, reassign, refuse_blocked, released, scope_of, source_exists, target_of,
}

module _ (h : Host) where
  -- the source as it was saved, and the tables
  abbrev Saved : Type 0
  Saved = Outcome LifecycleError (Response × Tables)

  abbrev pub save : Bool → Collector → Tables → Saved
  save management c t = do (row, after) ← save_collector management c t; ok (saved row, after)

  abbrev pub delete : String → Collector → ℕ → Tables → Saved
  delete id c now t = do
    (idle, quiet) ← disable_schedule h.cron c now (freeze_history c (history_snapshot c t) t)
    (_, after) ←
        save_collector true (record idle { lifecycle = "archived"; updated_at = h.iso now }) quiet
    ok (deleted id, record after { deleted_collectors = after.deleted_collectors ++ id ∷ [] })

  abbrev pub set_lifecycle : String → Collector → ℕ → Tables → Saved
  set_lifecycle lifecycle c now t = do
    (idle, quiet) ← disable_schedule h.cron c now t
    save true (record idle { lifecycle = lifecycle; updated_at = h.iso now }) quiet

  abbrev pub is_action : String → Bool
  is_action a = (a =ₛ "archive") || (a =ₛ "restore") || (a =ₛ "delete")

  unfoldable pub lifecycle_command : String → String → String → ℕ → Tables → Saved
  lifecycle_command id action digest now t = do
    lock_collector id t
    plan ← lifecycle_plan h.hash_lifecycle id t
    raise_if (not (is_action action)) lifecycle_action_invalid
    refuse_blocked (if action =ₛ "delete" then plan.delete_blockers else plan.blockers)
    raise_if (not (plan.plan_digest =ₛ digest)) collector_conflict
    c ← the_collector id t
    (if action =ₛ "delete"
        then delete id c now t
        else set_lifecycle (if action =ₛ "archive" then "archived" else "active") c now t)

  unfoldable pub invalidate_execution :
      Collector → ℕ → Tables → Outcome LifecycleError (Collector × Tables)
  invalidate_execution c now t = do
    (idle, after) ← disable_schedule h.cron c now t
    ok (invalidated idle, record after { checkpoints = remove_text c.id after.checkpoints })

  unfoldable pub definition_command : String → Definition → ℕ → ℕ → Tables → Saved
  definition_command id d revision now t = do
    lock_collector id t
    c ← the_collector id t
    require_active c
    raise_if (not (c.management_revision == revision)) collector_conflict
    refuse_blocked (active_blockers id t)
    raise_if (truthy c.pending_collection_version) migration_already_active
    raise_if (source_exists d.source_url id t) source_already_exists
    let is_same = (c.intent =ₛ d.intent) && (c.source_url =ₛ d.source_url)
    (idle, after) ← (if is_same then ok (c, t) else invalidate_execution c now t)
    save true (defined d (h.iso now) idle) after

  unfoldable pub reassignment_command : String → String → String → List String → ℕ → Tables → Saved
  reassignment_command id target digest confirmed now t = do
    lock_collector id t
    raise_if (not (is_some (find_collection target t.collections))) collection_not_found
    plan ← reassignment_plan h.hash_lifecycle h.hash_move h.default_fields id target t
    refuse_blocked plan.blockers
    raise_if (not (plan.plan_digest =ₛ digest)) collector_conflict
    raise_if (not (is_confirmed confirmed plan.changes)) reassignment_review_required
    c ← the_collector id t
    (idle, after) ← invalidate_execution c now (freeze_history c (history_snapshot c t) t)
    save true (moved plan (h.iso now) idle) after

  unfoldable pub start_migration : String → String → String → List String → ℕ → Tables → Saved
  start_migration id target digest confirmed now t = do
    lock_collector id t
    c ← the_collector id t
    require_active c
    plan ← migration_plan h.hash_migration id target t
    refuse_blocked plan.blockers
    raise_if (not (plan.plan_digest =ₛ digest)) migration_conflict
    raise_if (not (is_confirmed confirmed plan.changes)) migration_review_required
    let row = new_migration id c plan now
    save false (migrating c plan now) (record t { migrations = write_migration row t.migrations })

  unfoldable pub cancel_migration : String → String → Tables → Saved
  cancel_migration id target t = do
    lock_collector id t
    c ← the_collector id t
    require_active c
    m ← active_migration id c target t
    raise_if (has_active_operation c t) operation_already_active
    save false (released (given_back m c))
        (record t { migrations = remove_migration id t.migrations })

  abbrev pub changed : Command → ℕ → Tables → Saved
  changed (manage id action digest) now t = lifecycle_command id action digest now t
  changed (define id body d revision) now t = definition_command id d revision now t
  changed (reassign id target digest confirmed) now t =
      reassignment_command id target digest confirmed now t
  changed (migrate id target digest confirmed) now t =
      start_migration id target digest confirmed now t
  changed (cancel id target) now t = cancel_migration id target t

  -- `finish_command`: the audit event, and the receipt under the key
  abbrev pub finished : Call → Command → Response → Tables → Tables
  finished call body value t = record t {
    idempotency =
        t.idempotency
        ++ record {
          scope = scope_of body;
          key = call.key;
          request_hash = h.hash_body body;
          status_code = 200;
          response = value;
        }
          ∷ [];
    audit =
        append_audit_event h.sha256 h.json call.event_id call.tenant_id "collector" (target_of body)
          (record {
            actor_id = call.actor_id;
            action = action_of body;
            request_id = call.request_id;
            details = call.details;
          })
          none (some ("sha256:" ++ₛ h.hash_value value)) call.now t.audit;
  }

  unfoldable pub command : Call → Command → Tables → Outcome LifecycleError (Answer × Tables)
  command call body t =
      elim (find_receipt (scope_of body) call.key t.idempotency)
        as (λ _. Outcome LifecycleError (Answer × Tables)) [
          | some r ↦ do
            raise_if (not (r.request_hash =ₛ h.hash_body body)) idempotency_conflict
            ok (record { status_code = r.status_code; value = r.response; is_replay = true }, t)
          | none ↦ do
            (value, after) ← changed body call.now t
            ok (
              record { status_code = 200; value = value; is_replay = false },
              finished call body value after,
            )
        ]
