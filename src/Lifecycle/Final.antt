-- ===== src/Lifecycle/Final.antt =====
-- A deleted source is never written again, and a definition that was read before a write of the
-- management is refused.
use extrio.Base.{ℕ, String, none, ◌≡◌, refl, ◌∙◌, arith, ok, err}
use extrio.Lifecycle.Tables.{Tables, is_in, collector_not_found}
use extrio.Lifecycle.Values.{
  Command, manage, define, reassign, migrate, cancel, Host, Call, target_of, scope_of, find_receipt,
}
use extrio.Lifecycle.Commands.{changed, command, definition_command}
use extrio.Lifecycle.Store.{lock_collector, save_schedule, ScheduleValues}
use extrio.Lifecycle.Effects.{management, rescheduled}
use extrio.Lifecycle.Commands.{
  lifecycle_command, reassignment_command, start_migration, cancel_migration,
}
use extrio.Lifecycle.Refines.{deleted, life, next_life, command-refines}
use extrio.Lifecycle.Store.{validate_schedule}
use extrio.Lifecycle.Kept.{
  gone_of, Later, stay, commanded, rescheduled_by, paused_by, quiet_life, quieter_life,
}
use extrio.Lifecycle.Pause.{quieter}

module _ (h : Host) where
  next_deleted : (body : Command) → next_life body deleted ≡ deleted
  next_deleted body = ground arith

  later_deleted :
      (id : String) (t after : Tables)
      → Later h t after
      → life id t ≡ deleted
      → life id after ≡ deleted
  later_deleted id t after (stay _) gone = gone
  later_deleted id t after (commanded call body answer _ mid _ e l) gone =
      later_deleted id mid after l
        (command-refines h call body answer t mid e id ∙ ground (arith, gone, next_deleted body))
  later_deleted id t after (rescheduled_by o v now c _ mid _ e l) gone =
      later_deleted id mid after l
        (quiet_life h o t mid (rescheduled h.cron o v now t c mid e).quiet id ∙ gone)
  later_deleted id t after (paused_by runs_of tenant event details o now b _ mid _ e l) gone =
      later_deleted id mid after l
        (quieter_life h t mid (quieter h runs_of tenant event details o now t b mid e) id ∙ gone)

  locked_out :
      (id : String) (t : Tables)
      → life id t ≡ deleted
      → lock_collector id t ≡ err collector_not_found
  locked_out id t gone =
      ground (arith, gone_of (is_in id t.deleted_collectors) (management id t) gone)

  refused_change :
      (body : Command) (now : ℕ) (t : Tables)
      → lock_collector (target_of body) t ≡ err collector_not_found
      → changed h body now t ≡ err collector_not_found
  unfolding lifecycle_command definition_command reassignment_command start_migration
      cancel_migration
  refused_change (manage id action digest) now t e = rw e refl
  refused_change (define id body d revision) now t e = rw e refl
  refused_change (reassign id target digest confirmed) now t e = rw e refl
  refused_change (migrate id target digest confirmed) now t e = rw e refl
  refused_change (cancel id target) now t e = rw e refl

  refused_command :
      (call : Call) (body : Command) (t : Tables)
      → find_receipt (scope_of body) call.key t.idempotency ≡ none
      → changed h body call.now t ≡ err collector_not_found
      → command h call body t ≡ err collector_not_found
  unfolding command
  refused_command call body t new e = rw (new, command, e) refl

  refused_schedule :
      (id : String) (v w : ScheduleValues) (now : ℕ) (t : Tables)
      → validate_schedule h.cron v ≡ ok w
      → lock_collector id t ≡ err collector_not_found
      → save_schedule h.cron id v now t ≡ err collector_not_found
  unfolding save_schedule
  refused_schedule id v w now t valid e = rw (valid, e) refl

  -- A deleted source stays deleted whatever follows, and from then on each command on it under a new key,
  -- and each schedule with valid values, fails with COLLECTOR_NOT_FOUND.
  pub deleted-IsFinal :
      (id : String) (t after : Tables)
      → Later h t after
      → life id t ≡ deleted
      → (life id after ≡ deleted)
        × (((call : Call) (body : Command)
              → target_of body ≡ id
              → find_receipt (scope_of body) call.key after.idempotency ≡ none
              → command h call body after ≡ err collector_not_found)
            × ((v w : ScheduleValues) (now : ℕ)
                → validate_schedule h.cron v ≡ ok w
                → save_schedule h.cron id v now after ≡ err collector_not_found))
  deleted-IsFinal id t after l gone =
      let still = later_deleted id t after l gone in
      let locked = locked_out id after still in
      (
        still,
        (
          λ call body same new.
              refused_command call body after new
                (refused_change body call.now after (rw same locked)),
          λ v w now valid. refused_schedule id v w now after valid locked,
        ),
      )
