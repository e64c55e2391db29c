-- ===== src/Lifecycle/Pause.antt =====
-- worker.py, `maybe_pause_schedule_after_failures`: a source whose last runs failed is no longer
-- scheduled. `runs_of` is the SQL of `recent_run_statuses` in store.py before its limit: the runs of a
-- source that belong to its collection, newest first.
use Prim.Native.String.{◌++◌ as ◌++ₛ◌}
use extrio.Base.{
  ℕ, String, ◌≡◌, refl, inl, inr, Bool, true, false, ◌||◌, not, Option, none, some, List, [], map,
  ◌=ₛ◌, if◌then◌else◌, any, ltb, length, take, Outcome, ok, ◌>>=◌, ◌>>◌, bind-ok, arith, Bool-cases,
  eq_iff, sym, ◌∙◌, subst,
}
use extrio.Audit.{append_audit_event}
use extrio.Schedules.{Schedule}
use extrio.Lifecycle.Tables.{Collector, Tables, Work, LifecycleError}
use extrio.Lifecycle.Store.{lock_collector, get_collector, save_schedule, disabled_values}
use extrio.Lifecycle.Values.{Host}
use extrio.Lifecycle.Effects.{rescheduled, is_on, management}

-- CONSECUTIVE_FAILURE_PAUSE_THRESHOLD
abbrev pub pause_threshold : ℕ
pause_threshold = 3

-- No source's lifecycle, revision or deletion changes, and no schedule is switched on.
pub record IsQuieter (t after : Tables) : Type 0 where
  pub managed : (o : String) → management o after ≡ management o t
  pub deleted_kept : after.deleted_collectors ≡ t.deleted_collectors
  pub on_before : (o : String) → is_on o after ≡ true → is_on o t ≡ true

unchanged-IsQuieter : (t : Tables) → IsQuieter t t
unchanged-IsQuieter t = record { managed = λ o. refl; deleted_kept = refl; on_before = λ o e. e }

-- a call's outcome, at its type
abbrev the_outcome : Outcome LifecycleError (Bool × Tables) → Outcome LifecycleError (Bool × Tables)
the_outcome x = x

ok_pair : (a b : Bool) (x y : Tables) → the_outcome (ok (a, x)) ≡ ok (b, y) → (a ≡ b) × (x ≡ y)
ok_pair a b x y e = ground (arith, e)

module _ (h : Host) (runs_of : Collector → Tables → List Work) where
  unfoldable pub recent_run_statuses : String → ℕ → Tables → List String
  recent_run_statuses id limit t = elim (get_collector id t) [
    | none ↦ []
    | some c ↦ map (λ w. w.status) (take limit (runs_of c t))
  ]

  abbrev goes_on : List String → Bool
  goes_on statuses =
      ltb (length statuses) pause_threshold || any (λ s. not (s =ₛ "failed")) statuses

  -- (collector or {}).get("schedule")
  abbrev pub kept_schedule : String → Tables → Option Schedule
  kept_schedule id t = elim (get_collector id t) [ none ↦ none | some c ↦ c.schedule ]

  abbrev pub with_pause_event : String → String → String → String → ℕ → Tables → Tables
  with_pause_event tenant_id event_id details id now t = record t {
    audit =
        append_audit_event h.sha256 h.json event_id tenant_id "collector" id
          (record {
            actor_id = "system";
            action = "schedule.auto_paused";
            request_id = "failure_pause_" ++ₛ id;
            details = details;
          })
          none none now t.audit;
  }

  -- whether the schedule was paused
  -- the end of `maybe_pause_schedule_after_failures`, on the schedule that the source keeps
  unfoldable pub pause :
      String
      → String
      → String
      → String
      → ℕ
      → Option Schedule
      → Tables
      → Outcome LifecycleError (Bool × Tables)
  pause tenant_id event_id details id now none t = ok (false, t)
  pause tenant_id event_id details id now (some s) t =
      if s.enabled
      then (do
        (_, after) ← save_schedule h.cron id (disabled_values h.cron s) now t
        ok (true, with_pause_event tenant_id event_id details id now after))
      else ok (false, t)

  -- whether the schedule was paused
  unfoldable pub maybe_pause_schedule_after_failures :
      String → String → String → String → ℕ → Tables → Outcome LifecycleError (Bool × Tables)
  maybe_pause_schedule_after_failures tenant_id event_id details id now t = do
    lock_collector id t
    (if goes_on (recent_run_statuses id pause_threshold t)
        then ok (false, t)
        else pause tenant_id event_id details id now (kept_schedule id t) t)

  saved-IsQuieter :
      (id : String) (s : Schedule) (now : ℕ) (t : Tables) (c : Collector) (after : Tables)
      → save_schedule h.cron id (disabled_values h.cron s) now t ≡ ok (c, after)
      → (is_on id after ≡ false) × IsQuieter t after
  saved-IsQuieter id s now t c after e =
      let r = rescheduled h.cron id (disabled_values h.cron s) now t c after e in
      (
        r.stored,
        record {
          managed = r.quiet.managed;
          deleted_kept = r.quiet.deleted_kept;
          on_before = λ o on. elim (Bool-cases (id =ₛ o)) [
            | inl y ↦ absurd (cc (on, r.stored, (eq_iff id o).0 y))
            | inr n ↦ sym (r.quiet.others o n) ∙ on
          ];
        },
      )

  -- If the call says that it paused the schedule, the schedule is off; if not, nothing has changed.
  abbrev pub Paused : String → Tables → Bool → Tables → Type 0
  Paused id t true after = (is_on id after ≡ false) × IsQuieter t after
  Paused id t false after = after ≡ t

  as_returned :
      (id : String) (t : Tables) (a b : Bool) (x y : Tables)
      → the_outcome (ok (a, x)) ≡ ok (b, y)
      → Paused id t a x
      → Paused id t b y
  as_returned id t a b x y e p =
      let (flag, tables) = ok_pair a b x y e in
      subst (λ z. Paused id t b z) tables (subst (λ z. Paused id t z x) flag p)

  pause-Paused :
      (tenant_id event_id details id : String) (now : ℕ) (o : Option Schedule) (t : Tables)
      (b : Bool) (after : Tables)
      → pause tenant_id event_id details id now o t ≡ ok (b, after)
      → Paused id t b after
  unfolding pause
  pause-Paused tenant_id event_id details id now none t b after e =
      as_returned id t false b t after e refl
  pause-Paused tenant_id event_id details id now (some s) t b after e =
      elim (Bool-cases s.enabled) [
        | inl y ↦
            let ((c, mid), done, rest) =
              bind-ok (save_schedule h.cron id (disabled_values h.cron s) now t) _ _ (rw y at e) in
            let (off, quieter) = saved-IsQuieter id s now t c mid done in
            as_returned id t true b (with_pause_event tenant_id event_id details id now mid) after
              rest
              (
                off,
                record {
                  managed = quieter.managed;
                  deleted_kept = quieter.deleted_kept;
                  on_before = quieter.on_before;
                },
              )
        | inr n ↦ as_returned id t false b t after (rw n at e) refl
      ]

  -- A pause is made only after three runs that failed, and then the schedule is off.
  pub maybe_pause-Paused :
      (tenant_id event_id details id : String) (now : ℕ) (t : Tables) (b : Bool) (after : Tables)
      → maybe_pause_schedule_after_failures tenant_id event_id details id now t ≡ ok (b, after)
      → Paused id t b after
        × (b ≡ true → goes_on (recent_run_statuses id pause_threshold t) ≡ false)
  unfolding maybe_pause_schedule_after_failures
  maybe_pause-Paused tenant_id event_id details id now t b after e =
      let (_, locked, e1) = bind-ok (lock_collector id t) _ _ e in
      elim (Bool-cases (goes_on (recent_run_statuses id pause_threshold t))) [
        | inl y ↦ (
          as_returned id t false b t after (rw y at e1) refl,
          λ on. absurd (cc (on, (ok_pair false b t after (rw y at e1)).0)),
        )
        | inr n ↦ (
          pause-Paused tenant_id event_id details id now (kept_schedule id t) t b after
              (rw n at e1),
          λ on. n,
        )
      ]

  pub quieter :
      (tenant_id event_id details id : String) (now : ℕ) (t : Tables) (b : Bool) (after : Tables)
      → maybe_pause_schedule_after_failures tenant_id event_id details id now t ≡ ok (b, after)
      → IsQuieter t after
  quieter tenant_id event_id details id now t b after e =
      go b (maybe_pause-Paused tenant_id event_id details id now t b after e).0
    where
      go : (a : Bool) → Paused id t a after → IsQuieter t after
      go true p = p.1
      go false same = rw same (unchanged-IsQuieter t)
