-- ===== src/Lifecycle/Effects.antt =====
-- What reading, saving and disabling the schedule of a source leave in the tables.
use extrio.Base.{
  Bool-cases, Option-cases, bind-ok, ℕ, String, Bool, true, false, Option, none, some, ◌≡◌, refl,
  sym, subst, ap, ◌∙◌, inl, inr, arith, ◌=ₛ◌, ◌==◌, eq_iff, ==_iff, if◌then◌else◌, ok,
}
use extrio.Schedules.{Schedule}
use extrio.Lifecycle.Tables.{
  Collector, Tables, find_collector, write_collector, schedule_of, write_schedule, is_in,
}
use extrio.Lifecycle.Store.{
  lock_collector, named, get_collector, the_collector, require_active, revised,
  differs_in_management, save_collector, Cron, ScheduleValues, validate_schedule, scheduled,
  save_schedule, current_schedule, disabled_values, disable_schedule,
}
use extrio.Lifecycle.Rows.{
  find-id, find-write, find-write_other, schedule-write, schedule-write_other,
}

-- the lifecycle and the management revision of a row
abbrev pub management_in : Option Collector → Option (String × ℕ)
management_in none = none
management_in (some c) = some (c.lifecycle, c.management_revision)

abbrev pub management : String → Tables → Option (String × ℕ)
management id t = management_in (find_collector id t.collectors)

abbrev enabled_in : Option Schedule → Bool
enabled_in none = false
enabled_in (some s) = s.enabled

-- whether the stored schedule of a source is on
abbrev pub is_on : String → Tables → Bool
is_on id t = enabled_in (schedule_of id t.schedules)

-- A source that is read is that of its row, under the collection's name.
pub record IsRead (id : String) (t : Tables) (c : Collector) : Type 0 where
  pub row : Collector
  pub found : find_collector id t.collectors ≡ some row
  pub is_named : c ≡ named t row
  pub same_id : c.id ≡ id
  pub managed : management id t ≡ some (c.lifecycle, c.management_revision)
  pub alive : is_in id t.deleted_collectors ≡ false

named_id : (t : Tables) (c : Collector) → (named t c).id ≡ c.id
named_id t c = ground arith

named_management :
    (t : Tables) (c : Collector)
    → management_in (some (named t c)) ≡ some (c.lifecycle, c.management_revision)
named_management t c = ground arith

pub read-IsRead :
    (id : String) (t : Tables) (c : Collector) → the_collector id t ≡ ok c → IsRead id t c
unfolding get_collector
read-IsRead id t c h = elim (Bool-cases (is_in id t.deleted_collectors)) [
  | inl y ↦ absurd (ground (arith, h, y))
  | inr n ↦ elim (Option-cases (find_collector id t.collectors)) [
    | inl e ↦ absurd (ground (arith, h, n, e))
    | inr (row, e) ↦
        let is_row : c ≡ named t row = ground (arith, h, n, e) in
        record {
          row = row;
          found = e;
          is_named = is_row;
          same_id = rw is_row (named_id t row ∙ find-id id t.collectors row e);
          managed = rw (e, is_row) (sym (named_management t row));
          alive = n;
        }
  ]
]

pub record IsSaved (manages : Bool) (c : Collector) (t : Tables) (row : Collector) (after : Tables)
    : Type 0 where
  pub alive : is_in c.id t.deleted_collectors ≡ false
  pub is_row : row ≡ revised manages (find_collector c.id t.collectors) c
  pub is_after : after ≡ record t { collectors = write_collector row t.collectors }
  pub agrees : manages ≡ false → differs_in_management (find_collector c.id t.collectors) c ≡ false

pub save_collector-IsSaved :
    (manages : Bool) (c : Collector) (t : Tables) (row : Collector) (after : Tables)
    → save_collector manages c t ≡ ok (row, after)
    → IsSaved manages c t row after
unfolding save_collector
save_collector-IsSaved manages c t row after h = record {
  alive = ground (arith, h);
  is_row = ground (arith, h);
  is_after = ground (arith, h);
  agrees = λ e. ground (arith, h, e);
}

revised_id :
    (manages : Bool) (o : Option Collector) (c : Collector) → (revised manages o c).id ≡ c.id
revised_id manages o c = ground arith

-- after a write, the row of the source is the one that was written, and the others are the same
pub saved_row :
    (manages : Bool) (c : Collector) (t : Tables) (row : Collector) (after : Tables)
    → IsSaved manages c t row after
    → find_collector c.id after.collectors ≡ some row
saved_row manages c t row after s =
    let same : row.id ≡ c.id =
      rw s.is_row (revised_id manages (find_collector c.id t.collectors) c) in
    rw s.is_after (
      subst (λ i. find_collector i (write_collector row t.collectors) ≡ some row) same
        (find-write row t.collectors))

pub saved_others :
    (manages : Bool) (c : Collector) (t : Tables) (row : Collector) (after : Tables)
    → IsSaved manages c t row after
    → (o : String) → (c.id =ₛ o) ≡ false
    → find_collector o after.collectors ≡ find_collector o t.collectors
saved_others manages c t row after s o n =
    let same : row.id ≡ c.id =
      rw s.is_row (revised_id manages (find_collector c.id t.collectors) c) in
    rw s.is_after (find-write_other o row t.collectors (rw same n))

agreed :
    (o : Option Collector) (row c : Collector)
    → o ≡ some row
    → differs_in_management o c ≡ false
    → (c.lifecycle ≡ row.lifecycle) × (c.management_revision ≡ row.management_revision)
agreed o row c e h =
    let same : (row.lifecycle =ₛ c.lifecycle) ≡ true = ground (arith, h, e) in
    let equal : (row.management_revision == c.management_revision) ≡ true = ground (arith, h, e) in
    (sym ((eq_iff _ _).0 same), sym ((==_iff _ _).0 equal))

-- The tables after an operation that leaves what the management of the sources decides, on the
-- schedule of one source.
pub record IsQuiet (id : String) (t after : Tables) : Type 0 where
  pub managed : (o : String) → management o after ≡ management o t
  pub deleted_kept : after.deleted_collectors ≡ t.deleted_collectors
  pub others : (o : String) → (id =ₛ o) ≡ false → is_on o after ≡ is_on o t

pub saved_unmanaged :
    (c : Collector) (t : Tables) (row r : Collector) (after : Tables)
    → IsSaved false c t row after
    → find_collector c.id t.collectors ≡ some r
    → (o : String) → management o after ≡ management o t
saved_unmanaged c t row r after s e o = elim (Bool-cases (c.id =ₛ o)) [
  | inl y ↦
      let (life, revision) = agreed (find_collector c.id t.collectors) r c e (s.agrees refl) in
      let same : o ≡ c.id = sym ((eq_iff c.id o).0 y) in
      let is_c : row ≡ c = s.is_row in
      rw (same, saved_row false c t row after s, e, is_c) (cc (life, revision))
  | inr n ↦ rw (saved_others false c t row after s o n) refl
]

module _ (cron : Cron) where
  pub record IsRescheduled (id : String) (v : ScheduleValues) (now : ℕ) (t after : Tables)
      : Type 0 where
    pub quiet : IsQuiet id t after
    pub stored : is_on id after ≡ v.enabled
    pub active : v.enabled ≡ true → (c : Collector) × IsRead id t c × (require_active c ≡ ok tt)

  -- the two writes of `save_schedule`
  rewritten :
      (id : String) (t : Tables) (r row : Collector) (s : Schedule) (at : String) (after : Tables)
      → IsRead id t r
      → s.collector_id ≡ id
      → save_collector false
          (record r { schedule = some s; updated_at = at })
          (record t { schedules = write_schedule s t.schedules })
        ≡ ok (row, after)
      → IsQuiet id t after × (is_on id after ≡ s.enabled)
  rewritten id t r row s at after read mine h =
      let c : Collector = record r { schedule = some s; updated_at = at } in
      let between : Tables = record t { schedules = write_schedule s t.schedules } in
      let saved = save_collector-IsSaved false c between row after h in
      let kept : after.schedules ≡ write_schedule s t.schedules = rw saved.is_after refl in
      (
        record {
          managed = saved_unmanaged c between row read.row after saved (rw read.same_id read.found);
          deleted_kept = rw saved.is_after refl;
          others =
              λ o n. rw kept (ap enabled_in (schedule-write_other o s t.schedules (rw mine n)));
        },
        rw (kept, sym mine) (ap enabled_in (schedule-write s t.schedules)),
      )

  pub rescheduled :
      (id : String) (v : ScheduleValues) (now : ℕ) (t : Tables) (c : Collector) (after : Tables)
      → save_schedule cron id v now t ≡ ok (c, after)
      → IsRescheduled id v now t after
  unfolding save_schedule
  rescheduled id v now t c after h =
      let (w, valid, h1) = bind-ok (validate_schedule cron v) _ _ h in
      let same : w.enabled ≡ v.enabled = ground (arith, valid) in
      let (_, locked, h2) = bind-ok (lock_collector id t) _ _ h1 in
      let (r, got, h3) = bind-ok (the_collector id t) _ _ h2 in
      let read = read-IsRead id t r got in
      let (_, permitted, h4) = bind-ok (if w.enabled then require_active r else ok tt) _ _ h3 in
      let s = scheduled cron id w (schedule_of id t.schedules) now in
      let (quiet, stored) = rewritten id t r c s "刚刚" after read refl h4 in
      record {
        quiet = quiet;
        stored = stored ∙ same;
        active = λ e. (r, read, ground (arith, permitted, same, e));
      }

  pub record IsIdle (c : Collector) (t : Tables) (idle : Collector) (after : Tables) : Type 0 where
    pub quiet : IsQuiet c.id t after
    pub off : is_on c.id after ≡ false
    pub same_source : idle ≡ record c { schedule = idle.schedule }

  quiet-refl : (id : String) (t : Tables) → IsQuiet id t t
  quiet-refl id t = record { managed = λ o. refl; deleted_kept = refl; others = λ o n. refl }

  pub disabled :
      (c : Collector) (now : ℕ) (t : Tables) (idle : Collector) (after : Tables)
      → disable_schedule cron c now t ≡ ok (idle, after)
      → IsIdle c t idle after
  unfolding disable_schedule
  disabled c now t idle after h = elim (Option-cases (current_schedule cron c t)) [
    | inl e ↦
        let kept : idle ≡ c = ground (arith, h, e) in
        let same : after ≡ t = ground (arith, h, e) in
        record {
          quiet = rw same (quiet-refl c.id t);
          off = rw same (ground (arith, e));
          same_source = rw kept refl;
        }
    | inr (s, e) ↦ elim (Bool-cases s.enabled) [
      | inl y ↦
          let (p, first, h1) =
            bind-ok (save_schedule cron c.id (disabled_values cron s) now t) _ _
              (rw (e, y, disable_schedule) at h) in
          let done = rescheduled c.id (disabled_values cron s) now t p.0 p.1 first in
          let (again, read, h2) = bind-ok (the_collector c.id p.1) _ _ h1 in
          let same : after ≡ p.1 = ground (arith, h2) in
          record {
            quiet = rw same done.quiet;
            off = rw same done.stored;
            same_source = ground (arith, h2);
          }
      | inr n ↦
          let kept : idle ≡ c = ground (arith, h, e, n) in
          let same : after ≡ t = ground (arith, h, e, n) in
          record {
            quiet = rw same (quiet-refl c.id t);
            off = rw same (ground (arith, e, n));
            same_source = rw kept refl;
          }
    ]
  ]
