-- ===== src/Lifecycle/Moved.antt =====
-- Moving a source and migrating it are steps too, and so is every command.
use extrio.Base.{bind-ok, ℕ, String, false, List, ◌≡◌, refl, ◌∙◌, arith, ok, raise_if}
use extrio.Lifecycle.Tables.{
  Collector, Tables, MigrationRow, Response, operation_already_active, write_migration,
  remove_migration,
}
use extrio.Lifecycle.Store.{lock_collector, the_collector, require_active, save_collector}
use extrio.Lifecycle.History.{freeze_history, history_snapshot}
use extrio.Lifecycle.Moves.{has_active_operation}
use extrio.Lifecycle.Values.{
  Command, manage, define, reassign, migrate, cancel, Host, active_migration, new_migration,
  migrating, given_back, released, moved,
}
use extrio.Lifecycle.Commands.{reassignment_command, start_migration, cancel_migration, changed}
use extrio.Lifecycle.Effects.{IsRead, read-IsRead}
use extrio.Lifecycle.Writes.{IsWritten, unmanaged_write, quiet_same}
use extrio.Lifecycle.Steps.{IsStep, written-IsStep, freeze-IsQuiet}
use extrio.Lifecycle.Commanded.{lifecycle-IsStep, invalidated_write, definition-IsStep}
use extrio.Lifecycle.Parts.{reassignment_command-IsReassigned, start_migration-IsMigrating}

module _ (h : Host) where
  reassignment-IsStep :
      (id target digest : String) (confirmed : List String) (now : ℕ) (t : Tables) (v : Response)
      (after : Tables)
      → reassignment_command h id target digest confirmed now t ≡ ok (v, after)
      → IsStep (reassign id target digest confirmed) t after
  reassignment-IsStep id target digest confirmed now t v after e =
      let p = reassignment_command-IsReassigned h id target digest confirmed now t v after e in
      let read = read-IsRead id t p.c p.got in
      let frozen = freeze_history p.c (history_snapshot p.c t) t in
      let written =
        invalidated_write h id now t frozen p.mid p.c p.idle (moved p.plan (h.iso now) p.idle) p.row
          after read (freeze-IsQuiet p.c.id p.c (history_snapshot p.c t) t) p.idled refl refl
          p.written in
      written-IsStep (reassign id target digest confirmed) t after after p.c read refl
        (λ f. absurd (cc f)) written refl

  unmanaged-IsStep :
      (id : String) (t mid : Tables) (source c row : Collector) (last : Tables)
      → IsRead id t source
      → mid.collectors ≡ t.collectors
      → mid.deleted_collectors ≡ t.deleted_collectors
      → mid.schedules ≡ t.schedules
      → c.id ≡ source.id
      → save_collector false c mid ≡ ok (row, last)
      → IsWritten id source.lifecycle source.management_revision t last
  unmanaged-IsStep id t mid source c row last read same_rows same_deleted same_schedules same w =
      unmanaged_write id t mid source c row last read
        (quiet_same id t mid same_rows same_deleted same_schedules) (same ∙ read.same_id)
        (λ o. rw same_schedules o) w

  start-IsStep :
      (id target digest : String) (confirmed : List String) (now : ℕ) (t : Tables) (v : Response)
      (after : Tables)
      → start_migration h id target digest confirmed now t ≡ ok (v, after)
      → IsStep (migrate id target digest confirmed) t after
  start-IsStep id target digest confirmed now t v after e =
      let p = start_migration-IsMigrating h id target digest confirmed now t v after e in
      let read = read-IsRead id t p.c p.got in
      let mid : Tables = record t {
        migrations = write_migration (new_migration id p.c p.plan now) t.migrations;
      } in
      let written =
        unmanaged-IsStep id t mid p.c (migrating p.c p.plan now) p.row after read refl refl refl
          refl p.written in
      written-IsStep (migrate id target digest confirmed) t after after p.c read refl
        (λ f. absurd (cc f)) written refl

  given_back_id : (m : MigrationRow) (c : Collector) → (given_back m c).id ≡ c.id
  given_back_id m c = ground arith

  cancel-IsStep :
      (id target : String) (t : Tables) (v : Response) (after : Tables)
      → cancel_migration h id target t ≡ ok (v, after)
      → IsStep (cancel id target) t after
  unfolding cancel_migration
  cancel-IsStep id target t v after e =
      let (_, locked, e1) = bind-ok (lock_collector id t) _ _ e in
      let (c, got, e2) = bind-ok (the_collector id t) _ _ e1 in
      let read = read-IsRead id t c got in
      let (_, active, e3) = bind-ok (require_active c) _ _ e2 in
      let (m, started, e4) = bind-ok (active_migration id c target t) _ _ e3 in
      let (_, idle, e5) =
        bind-ok (raise_if (has_active_operation c t) operation_already_active) _ _ e4 in
      let mid : Tables = record t { migrations = remove_migration id t.migrations } in
      let ((row, last), w, e6) =
        bind-ok (save_collector false (released (given_back m c)) mid) _ _ e5 in
      let is_last : after ≡ last = ground (arith, e6) in
      let written =
        unmanaged-IsStep id t mid c (released (given_back m c)) row last read refl refl refl
          (given_back_id m c) w in
      written-IsStep (cancel id target) t after last c read refl (λ f. absurd (cc f)) written
        is_last

  -- a command's change is a step of its source
  pub changed-IsStep :
      (body : Command) (now : ℕ) (t : Tables) (v : Response) (after : Tables)
      → changed h body now t ≡ ok (v, after)
      → IsStep body t after
  changed-IsStep (manage id action digest) now t v after e =
      lifecycle-IsStep h id action digest now t v after e
  changed-IsStep (define id body d revision) now t v after e =
      definition-IsStep h id body d revision now t v after e
  changed-IsStep (reassign id target digest confirmed) now t v after e =
      reassignment-IsStep id target digest confirmed now t v after e
  changed-IsStep (migrate id target digest confirmed) now t v after e =
      start-IsStep id target digest confirmed now t v after e
  changed-IsStep (cancel id target) now t v after e = cancel-IsStep id target t v after e
