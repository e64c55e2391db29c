-- ===== src/Lifecycle/Rows.antt =====
-- What is found in a table after a write.
use extrio.Base.{
  Bool-cases, String, true, false, none, some, List, [], ◌∷◌, ◌++◌, ◌||◌, ◌≡◌, refl, inl, inr,
  arith, ◌=ₛ◌, eq_iff,
}
use extrio.Schedules.{Schedule}
use extrio.Lifecycle.Tables.{
  Collector, MigrationRow, find_collector, write_collector, schedule_of, write_schedule,
  migration_of, write_migration, remove_migration, remove_text, is_in,
}

-- a text is itself, and two that are equal to a third and not
pub same_text_lem : (a : String) → (a =ₛ a) ≡ true
same_text_lem a = (eq_iff a a).1 refl

apart : (a b c : String) → (a =ₛ b) ≡ true → (b =ₛ c) ≡ false → (a =ₛ c) ≡ false
apart a b c e n = rw ((eq_iff a b).0 e) n

pub find-id :
    (id : String) (cs : List Collector) (c : Collector) → find_collector id cs ≡ some c → c.id ≡ id
find-id id [] c h = cc h
find-id id (d ∷ cs) c h = elim (Bool-cases (d.id =ₛ id)) [
  | inl y ↦ ground (arith, (eq_iff d.id id).0 y, y, h)
  | inr n ↦ find-id id cs c (ground (arith, n, h))
]

pub find-write :
    (c : Collector) (cs : List Collector) → find_collector c.id (write_collector c cs) ≡ some c
unfolding write_collector
find-write c [] = rw (same_text_lem c.id) refl
find-write c (d ∷ cs) = elim (Bool-cases (d.id =ₛ c.id)) [
  | inl y ↦ ground (arith, y, same_text_lem c.id)
  | inr n ↦ ground (arith, n, find-write c cs)
]

pub find-write_other :
    (o : String) (c : Collector) (cs : List Collector)
    → (c.id =ₛ o) ≡ false
    → find_collector o (write_collector c cs) ≡ find_collector o cs
unfolding write_collector
find-write_other o c [] n = ground (arith, n)
find-write_other o c (d ∷ cs) n = elim (Bool-cases (d.id =ₛ c.id)) [
  | inl y ↦ ground (arith, y, n, apart d.id c.id o y n)
  | inr f ↦ ground (arith, f, n, find-write_other o c cs n)
]

pub schedule-write :
    (s : Schedule) (ss : List Schedule) → schedule_of s.collector_id (write_schedule s ss) ≡ some s
unfolding write_schedule
schedule-write s [] = rw (same_text_lem s.collector_id) refl
schedule-write s (r ∷ ss) = elim (Bool-cases (r.collector_id =ₛ s.collector_id)) [
  | inl y ↦ ground (arith, y, same_text_lem s.collector_id)
  | inr n ↦ ground (arith, n, schedule-write s ss)
]

pub schedule-write_other :
    (o : String) (s : Schedule) (ss : List Schedule)
    → (s.collector_id =ₛ o) ≡ false
    → schedule_of o (write_schedule s ss) ≡ schedule_of o ss
unfolding write_schedule
schedule-write_other o s [] n = ground (arith, n)
schedule-write_other o s (r ∷ ss) n = elim (Bool-cases (r.collector_id =ₛ s.collector_id)) [
  | inl y ↦ ground (arith, y, n, apart r.collector_id s.collector_id o y n)
  | inr f ↦ ground (arith, f, n, schedule-write_other o s ss n)
]

pub migration-write :
    (m : MigrationRow) (ms : List MigrationRow)
    → migration_of m.collector_id (write_migration m ms) ≡ some m
unfolding write_migration
migration-write m [] = rw (same_text_lem m.collector_id) refl
migration-write m (n ∷ ms) = elim (Bool-cases (n.collector_id =ₛ m.collector_id)) [
  | inl y ↦ ground (arith, y, same_text_lem m.collector_id)
  | inr f ↦ ground (arith, f, migration-write m ms)
]

pub migration-remove :
    (id : String) (ms : List MigrationRow) → migration_of id (remove_migration id ms) ≡ none
unfolding remove_migration
migration-remove id [] = refl
migration-remove id (n ∷ ms) = elim (Bool-cases (n.collector_id =ₛ id)) [
  | inl y ↦ ground (arith, y, migration-remove id ms)
  | inr f ↦ ground (arith, f, migration-remove id ms)
]

pub is_in-remove : (id : String) (ss : List String) → is_in id (remove_text id ss) ≡ false
unfolding remove_text
is_in-remove id [] = refl
is_in-remove id (s ∷ ss) = elim (Bool-cases (s =ₛ id)) [
  | inl y ↦ ground (arith, y, is_in-remove id ss)
  | inr f ↦ ground (arith, f, is_in-remove id ss)
]

pub is_in-append :
    (o id : String) (ss : List String) → is_in o (ss ++ id ∷ []) ≡ (is_in o ss || (id =ₛ o))
is_in-append o id [] = ground arith
is_in-append o id (s ∷ ss) = ground (arith, is_in-append o id ss)
