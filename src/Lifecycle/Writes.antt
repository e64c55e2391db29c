-- ===== src/Lifecycle/Writes.antt =====
-- A source that a command saves after it has disabled the schedule.
use extrio.Base.{
  Bool-cases, ℕ, ◌+◌, String, Bool, true, false, Option, none, some, ◌≡◌, refl, sym, subst, ap, ◌∙◌,
  inl, inr, arith, ◌=ₛ◌, eq_iff, ok,
}
use extrio.Lifecycle.Tables.{Collector, Tables, find_collector}
use extrio.Lifecycle.Store.{revised, save_collector}
use extrio.Lifecycle.Effects.{
  management, management_in, is_on, IsRead, save_collector-IsSaved, saved_row, saved_others,
  saved_unmanaged, IsQuiet,
}

-- A save of a source that was read, after operations that kept what the management decides.
pub record IsWritten (id : String) (life : String) (revision : ℕ) (t after : Tables) : Type 0 where
  pub mine : management id after ≡ some (life, revision)
  pub others : (o : String) → (id =ₛ o) ≡ false → management o after ≡ management o t
  pub deleted_kept : after.deleted_collectors ≡ t.deleted_collectors
  pub off_kept : (o : String) → is_on o t ≡ false → is_on o after ≡ false
  pub others_on : (o : String) → (id =ₛ o) ≡ false → is_on o after ≡ is_on o t

found_in :
    (o : Option Collector) (life : String) (revision : ℕ)
    → management_in o ≡ some (life, revision)
    → (c : Collector) × (o ≡ some c) × ((c.lifecycle ≡ life) × (c.management_revision ≡ revision))
found_in none life revision h = absurd (cc h)
found_in (some c) life revision h = (c, refl, (cc h, cc h))

revised_life :
    (o : Option Collector) (r c : Collector)
    → o ≡ some r
    → management_in (some (revised true o c)) ≡ some (c.lifecycle, r.management_revision + 1)
revised_life o r c e = ground (arith, e)

pub managed_write :
    (id : String) (t mid : Tables) (source c row : Collector) (after : Tables)
    → IsRead id t source
    → IsQuiet id t mid
    → c.id ≡ id
    → (is_on id t ≡ false → is_on id mid ≡ false)
    → save_collector true c mid ≡ ok (row, after)
    → IsWritten id c.lifecycle (source.management_revision + 1) t after
managed_write id t mid source c row after read quiet same off h =
    let s = save_collector-IsSaved true c mid row after h in
    let (r, found, (_, revision)) =
      found_in (find_collector id mid.collectors) source.lifecycle source.management_revision
        (quiet.managed id ∙ read.managed) in
    let kept : after.schedules ≡ mid.schedules = rw s.is_after refl in
    record {
      mine =
          subst
            (λ i.
              management_in (find_collector i after.collectors)
              ≡ some (c.lifecycle, source.management_revision + 1))
            same
            (ap management_in (saved_row true c mid row after s)
              ∙ ap (λ x. management_in (some x)) s.is_row
              ∙ revised_life (find_collector c.id mid.collectors) r c (rw same found)
              ∙ ap (λ n. some (c.lifecycle, n + 1)) revision);
      others = λ o n.
          ap management_in (saved_others true c mid row after s o (rw same n)) ∙ quiet.managed o;
      deleted_kept = rw s.is_after quiet.deleted_kept;
      off_kept = λ o e. elim (Bool-cases (id =ₛ o)) [
        | inl y ↦ rw (kept, sym ((eq_iff id o).0 y)) (off (rw ((eq_iff id o).0 y) e))
        | inr n ↦ rw (kept, quiet.others o n) e
      ];
      others_on = λ o n. rw kept (quiet.others o n);
    }

pub unmanaged_write :
    (id : String) (t mid : Tables) (source c row : Collector) (after : Tables)
    → IsRead id t source
    → IsQuiet id t mid
    → c.id ≡ id
    → (is_on id t ≡ false → is_on id mid ≡ false)
    → save_collector false c mid ≡ ok (row, after)
    → IsWritten id source.lifecycle source.management_revision t after
unmanaged_write id t mid source c row after read quiet same off h =
    let s = save_collector-IsSaved false c mid row after h in
    let (r, found, _) =
      found_in (find_collector id mid.collectors) source.lifecycle source.management_revision
        (quiet.managed id ∙ read.managed) in
    let kept : after.schedules ≡ mid.schedules = rw s.is_after refl in
    let stays = saved_unmanaged c mid row r after s (rw same found) in
    record {
      mine = stays id ∙ quiet.managed id ∙ read.managed;
      others = λ o n. stays o ∙ quiet.managed o;
      deleted_kept = rw s.is_after quiet.deleted_kept;
      off_kept = λ o e. elim (Bool-cases (id =ₛ o)) [
        | inl y ↦ rw (kept, sym ((eq_iff id o).0 y)) (off (rw ((eq_iff id o).0 y) e))
        | inr n ↦ rw (kept, quiet.others o n) e
      ];
      others_on = λ o n. rw kept (quiet.others o n);
    }

pub saved_on :
    (manages : Bool) (c : Collector) (t : Tables) (row : Collector) (after : Tables)
    → save_collector manages c t ≡ ok (row, after)
    → (o : String) → is_on o after ≡ is_on o t
saved_on manages c t row after h o =
    rw (save_collector-IsSaved manages c t row after h).is_after refl

pub quiet_then :
    (id : String) (t mid last : Tables) → IsQuiet id t mid → IsQuiet id mid last → IsQuiet id t last
quiet_then id t mid last a b = record {
  managed = λ o. b.managed o ∙ a.managed o;
  deleted_kept = b.deleted_kept ∙ a.deleted_kept;
  others = λ o n. b.others o n ∙ a.others o n;
}

-- tables that differ in what none of it reads
pub quiet_same :
    (id : String) (t after : Tables)
    → after.collectors ≡ t.collectors
    → after.deleted_collectors ≡ t.deleted_collectors
    → after.schedules ≡ t.schedules
    → IsQuiet id t after
quiet_same id t after c d s = record {
  managed = λ o. rw c refl;
  deleted_kept = d;
  others = λ o n. rw s refl;
}
