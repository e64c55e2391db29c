-- ===== src/Lifecycle/Parts.antt =====
-- What a command on a source has found and written when it succeeds.
use extrio.Base.{
  Bool, subst, is_some, bind-ok, ℕ, String, true, false, not, List, ◌≡◌, arith, ◌=ₛ◌, ok, raise_if,
  ◌&&◌, ◌==◌, if◌then◌else◌,
}
use extrio.Collections.{find_collection}
use extrio.Lifecycle.Tables.{
  collection_not_found, Collector, Tables, Response, collector_conflict, migration_conflict,
  migration_review_required, reassignment_review_required, write_migration,
  migration_already_active, source_already_exists, truthy,
}
use extrio.Lifecycle.Store.{lock_collector, the_collector, require_active, save_collector}
use extrio.Lifecycle.History.{freeze_history, history_snapshot}
use extrio.Lifecycle.Moves.{migration_plan, reassignment_plan, MigrationPlan, MovePlan}
use extrio.Lifecycle.Values.{
  Host, refuse_blocked, is_confirmed, new_migration, migrating, moved, Definition, source_exists,
  defined,
}
use extrio.Lifecycle.Commands.{
  invalidate_execution, reassignment_command, start_migration, definition_command,
}
use extrio.Lifecycle.Plans.{active_blockers}

saved_as :
    (manages : Bool) (c row : Collector) (mid last after : Tables)
    → save_collector manages c mid ≡ ok (row, last)
    → last ≡ after
    → save_collector manages c mid ≡ ok (row, after)
saved_as manages c row mid last after w e =
    subst (λ x. save_collector manages c mid ≡ ok (row, x)) e w

module _ (h : Host) where
  pub record IsDefined (id : String) (d : Definition) (revision now : ℕ) (t after : Tables)
      : Type 0 where
    pub c : Collector
    pub got : the_collector id t ≡ ok c
    pub current : c.management_revision ≡ revision
    pub idle : Collector
    pub mid : Tables
    pub idled :
        (if (c.intent =ₛ d.intent) && (c.source_url =ₛ d.source_url)
          then ok (c, t)
          else invalidate_execution h c now t)
        ≡ ok (idle, mid)
    pub row : Collector
    pub written : save_collector true (defined d (h.iso now) idle) mid ≡ ok (row, after)

  pub definition_command-IsDefined :
      (id : String) (d : Definition) (revision now : ℕ) (t : Tables) (v : Response) (after : Tables)
      → definition_command h id d revision now t ≡ ok (v, after)
      → IsDefined id d revision now t after
  unfolding definition_command
  definition_command-IsDefined id d revision now t v after e =
      let (_, _, e1) = bind-ok (lock_collector id t) _ _ e in
      let (c, got, e2) = bind-ok (the_collector id t) _ _ e1 in
      let (_, _, e3) = bind-ok (require_active c) _ _ e2 in
      let (_, current, e4) =
        bind-ok (raise_if (not (c.management_revision == revision)) collector_conflict) _ _ e3 in
      let (_, _, e5) = bind-ok (refuse_blocked (active_blockers id t)) _ _ e4 in
      let (_, _, e6) =
        bind-ok (raise_if (truthy c.pending_collection_version) migration_already_active) _ _ e5 in
      let (_, _, e7) =
        bind-ok (raise_if (source_exists d.source_url id t) source_already_exists) _ _ e6 in
      let is_same = (c.intent =ₛ d.intent) && (c.source_url =ₛ d.source_url) in
      let ((idle, mid), idled, e8) =
        bind-ok (if is_same then ok (c, t) else invalidate_execution h c now t) _ _ e7 in
      let ((row, last), w, e9) =
        bind-ok (save_collector true (defined d (h.iso now) idle) mid) _ _ e8 in
      let is_last : last ≡ after = ground (arith, e9) in
      record {
        c = c;
        got = got;
        current = ground (arith, current);
        idle = idle;
        mid = mid;
        idled = idled;
        row = row;
        written = saved_as true (defined d (h.iso now) idle) row mid last after w is_last;
      }

  pub record IsReassigned (id : String) (now : ℕ) (t after : Tables) : Type 0 where
    pub c : Collector
    pub got : the_collector id t ≡ ok c
    pub plan : MovePlan
    pub idle : Collector
    pub mid : Tables
    pub idled :
        invalidate_execution h c now (freeze_history c (history_snapshot c t) t) ≡ ok (idle, mid)
    pub row : Collector
    pub written : save_collector true (moved plan (h.iso now) idle) mid ≡ ok (row, after)

  pub reassignment_command-IsReassigned :
      (id target digest : String) (confirmed : List String) (now : ℕ) (t : Tables) (v : Response)
      (after : Tables)
      → reassignment_command h id target digest confirmed now t ≡ ok (v, after)
      → IsReassigned id now t after
  unfolding reassignment_command
  reassignment_command-IsReassigned id target digest confirmed now t v after e =
      let (_, _, e0) = bind-ok (lock_collector id t) _ _ e in
      let (_, _, e1) =
        bind-ok
          (raise_if (not (is_some (find_collection target t.collections))) collection_not_found) _ _
          e0 in
      let (plan, _, e2) =
        bind-ok (reassignment_plan h.hash_lifecycle h.hash_move h.default_fields id target t) _ _
          e1 in
      let (_, _, e3) = bind-ok (refuse_blocked plan.blockers) _ _ e2 in
      let (_, _, e4) =
        bind-ok (raise_if (not (plan.plan_digest =ₛ digest)) collector_conflict) _ _ e3 in
      let (_, _, e5) =
        bind-ok (raise_if (not (is_confirmed confirmed plan.changes)) reassignment_review_required)
          _ _ e4 in
      let (c, got, e6) = bind-ok (the_collector id t) _ _ e5 in
      let frozen = freeze_history c (history_snapshot c t) t in
      let ((idle, mid), idled, e7) = bind-ok (invalidate_execution h c now frozen) _ _ e6 in
      let ((row, last), w, e8) =
        bind-ok (save_collector true (moved plan (h.iso now) idle) mid) _ _ e7 in
      let is_last : last ≡ after = ground (arith, e8) in
      record {
        c = c;
        got = got;
        plan = plan;
        idle = idle;
        mid = mid;
        idled = idled;
        row = row;
        written = saved_as true (moved plan (h.iso now) idle) row mid last after w is_last;
      }

  pub record IsMigrating (id target : String) (now : ℕ) (t after : Tables) : Type 0 where
    pub c : Collector
    pub got : the_collector id t ≡ ok c
    pub active : require_active c ≡ ok tt
    pub plan : MigrationPlan
    pub planned : migration_plan h.hash_migration id target t ≡ ok plan
    pub free : refuse_blocked plan.blockers ≡ ok tt
    pub row : Collector
    pub written :
        save_collector false
          (migrating c plan now)
          (record t { migrations = write_migration (new_migration id c plan now) t.migrations })
        ≡ ok (row, after)

  pub start_migration-IsMigrating :
      (id target digest : String) (confirmed : List String) (now : ℕ) (t : Tables) (v : Response)
      (after : Tables)
      → start_migration h id target digest confirmed now t ≡ ok (v, after)
      → IsMigrating id target now t after
  unfolding start_migration
  start_migration-IsMigrating id target digest confirmed now t v after e =
      let (_, _, e1) = bind-ok (lock_collector id t) _ _ e in
      let (c, got, e2) = bind-ok (the_collector id t) _ _ e1 in
      let (_, active, e3) = bind-ok (require_active c) _ _ e2 in
      let (plan, planned, e4) = bind-ok (migration_plan h.hash_migration id target t) _ _ e3 in
      let (_, free, e5) = bind-ok (refuse_blocked plan.blockers) _ _ e4 in
      let (_, _, e6) =
        bind-ok (raise_if (not (plan.plan_digest =ₛ digest)) migration_conflict) _ _ e5 in
      let (_, _, e7) =
        bind-ok (raise_if (not (is_confirmed confirmed plan.changes)) migration_review_required) _ _
          e6 in
      let mid : Tables = record t {
        migrations = write_migration (new_migration id c plan now) t.migrations;
      } in
      let ((row, last), w, e8) = bind-ok (save_collector false (migrating c plan now) mid) _ _ e7 in
      let is_last : last ≡ after = ground (arith, e8) in
      record {
        c = c;
        got = got;
        active = active;
        plan = plan;
        planned = planned;
        free = free;
        row = row;
        written = saved_as false (migrating c plan now) row mid last after w is_last;
      }
