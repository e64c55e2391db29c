-- ===== src/Worker/Sent.antt =====
-- What a run leaves in the delivery queue.
use mathlib.Core.List.{append_assoc, append-nil}
use extrio.Base.{
  if◌then◌else◌, is_some, Bool-cases, Option-cases, length, length-append, All, All-append, ℕ, ◌+◌,
  ◌≤◌, String, ◌≡◌, refl, sym, ap, ◌∙◌, ◌⊎◌, inl, inr, Bool, true, false, ◌||◌, some, List, [], ◌∷◌,
  ◌++◌, arith, ◌=ₛ◌, eq_iff,
}
use extrio.Worker.Values.{Item}
use extrio.Worker.Deliveries.{
  is_deliverable, enabled_sinks, kept_or_skipped, enqueue_item, enqueue_items,
  enqueue_run_deliveries,
}
use extrio.Delivery.Tables.{Delivery, Sink, Db, find_delivery, find_sink, pending}
use extrio.Delivery.Store.{before}
use extrio.Delivery.Queue.{find_event, insert_or_ignore, sink_version, enqueued, enqueue_delivery}

-- Rows are added at the end, all of one kind and no more than were counted; the sinks stay.
pub record IsAppended (Q : Delivery → Type 0) (before after : ℕ × Db) : Type 0 where
  pub new : List Delivery
  pub rows : after.1.deliveries ≡ before.1.deliveries ++ new
  pub of_kind : All Q new
  pub counted : before.0 + length new ≤ after.0
  pub sinks : after.1.sinks ≡ before.1.sinks

nothing-IsAppended : (Q : Delivery → Type 0) (before : ℕ × Db) → IsAppended Q before before
nothing-IsAppended Q before = record {
  new = [];
  rows = sym (append-nil before.1.deliveries);
  of_kind = tt;
  counted = omega arith;
  sinks = refl;
}

IsAppended-then :
    (Q : Delivery → Type 0) (a b c : ℕ × Db)
    → IsAppended Q a b
    → IsAppended Q b c
    → IsAppended Q a c
IsAppended-then Q a b c h k = record {
  new = h.new ++ k.new;
  rows = k.rows ∙ (ap (λ ds. ds ++ k.new) h.rows ∙ append_assoc a.1.deliveries h.new k.new);
  of_kind = All-append Q h.new k.new h.of_kind k.of_kind;
  counted = omega (arith, h.counted, k.counted, length-append h.new k.new);
  sinks = k.sinks ∙ h.sinks;
}

weaken :
    (P Q : Delivery → Type 0) (ds : List Delivery)
    → ((d : Delivery) → P d → Q d)
    → All P ds
    → All Q ds
weaken P Q [] f h = tt
weaken P Q (d ∷ ds) f (h, hs) = (f d h, weaken P Q ds f hs)

IsAppended-weaken :
    (P Q : Delivery → Type 0) (a b : ℕ × Db)
    → ((d : Delivery) → P d → Q d)
    → IsAppended P a b
    → IsAppended Q a b
IsAppended-weaken P Q a b f h = record {
  new = h.new;
  rows = h.rows;
  of_kind = weaken P Q h.new f h.of_kind;
  counted = h.counted;
  sinks = h.sinks;
}

-- a row that waits to be sent, for an event of a source
abbrev pub IsWaitingFor : String → String → Delivery → Type 0
IsWaitingFor collector_id event d =
    (d.item_event_id ≡ event) × ((d.collector_id ≡ collector_id) × (d.status ≡ pending))

-- an item that was accepted and is new or updated
pub record IsNews (i : Item) : Type 0 where
  pub accepted : i.decision ≡ "accepted"
  pub moved : (i.change_type ≡ some "new") ⊎ (i.change_type ≡ some "updated")

-- one of the items satisfies the predicate
abbrev pub AnyItem : (Item → Type 0) → List Item → Type 0
AnyItem P [] = ⊥
AnyItem P (i ∷ is) = P i ⊎ AnyItem P is

-- a row that waits to be sent, for one of the items
abbrev pub IsSentFor : String → List Item → Delivery → Type 0
IsSentFor collector_id items d =
    AnyItem (λ i. (i.id ≡ d.item_event_id) × IsNews i) items
    × ((d.collector_id ≡ collector_id) × (d.status ≡ pending))

deliverable-IsNews : (i : Item) → is_deliverable i ≡ true → IsNews i
deliverable-IsNews i h = record {
  accepted = (eq_iff i.decision "accepted").0 (ground (arith, h));
  moved = elim (Option-cases i.change_type) [
    | inl n ↦ absurd (ground (arith, h, n))
    | inr (t, e) ↦ elim (Bool-cases (t =ₛ "new")) [
      | inl y ↦ inl (e ∙ ap some ((eq_iff t "new").0 y))
      | inr n ↦ inr (e ∙ ap some ((eq_iff t "updated").0 (ground (arith, h, e, n))))
    ]
  ];
}

insert-rows :
    (new : Delivery) (ds : List Delivery)
    → (insert_or_ignore new ds ≡ ds) ⊎ (insert_or_ignore new ds ≡ ds ++ new ∷ [])
unfolding insert_or_ignore
insert-rows new ds =
    elim (Bool-cases (
      is_some (find_delivery new.id ds)
      || is_some (find_event new.item_event_id new.sink_version_id ds))) [
        | inl y ↦ inl (rw y)
        | inr n ↦ inr (rw n)
      ]

-- one counted insertion
inserted-IsAppended :
    (collector_id event : String) (new : Delivery) (before : ℕ × Db)
    → IsWaitingFor collector_id event new
    → IsAppended
        (IsWaitingFor collector_id event)
        before
        (before.0 + 1, record before.1 { deliveries = insert_or_ignore new before.1.deliveries })
inserted-IsAppended collector_id event new before h = elim (insert-rows new before.1.deliveries) [
  | inl kept ↦ record {
    new = [];
    rows = kept ∙ sym (append-nil before.1.deliveries);
    of_kind = tt;
    counted = omega arith;
    sinks = refl;
  }
  | inr added ↦ record {
    new = new ∷ [];
    rows = added;
    of_kind = (h, tt);
    counted = omega arith;
    sinks = refl;
  }
]

module _ (sha256 : String → String) (show : ℕ → String) where
  one-IsAppended :
      (collector_id sink_id event : String) (now : ℕ) (before : ℕ × Db)
      → IsAppended (IsWaitingFor collector_id event) before (
          kept_or_skipped sha256 show before
            (enqueue_delivery sha256 show collector_id sink_id event now before.1))
  unfolding enqueue_delivery
  one-IsAppended collector_id sink_id event now before =
      elim (Option-cases (find_sink sink_id before.1.sinks)) [
        | inl n ↦
            rw (n, enqueue_delivery) (nothing-IsAppended (IsWaitingFor collector_id event) before)
        | inr (s, e) ↦
            let version = sink_version sha256 show s in
            let new = enqueued sha256 show collector_id sink_id event version now in
            elim (Option-cases
              (find_event event version (insert_or_ignore new before.1.deliveries))) [
                | inl f ↦
                    rw (e, enqueue_delivery, f)
                      (nothing-IsAppended (IsWaitingFor collector_id event) before)
                | inr (d, f) ↦
                    rw (e, enqueue_delivery, f)
                      (inserted-IsAppended collector_id event new before (refl, (refl, refl)))
              ]
      ]

  item-IsAppended :
      (collector_id event : String) (now : ℕ) (ss : List Sink) (before : ℕ × Db)
      → IsAppended
          (IsWaitingFor collector_id event)
          before
          (enqueue_item sha256 show collector_id event now ss before)
  unfolding enqueue_item
  item-IsAppended collector_id event now [] before =
      nothing-IsAppended (IsWaitingFor collector_id event) before
  item-IsAppended collector_id event now (s ∷ ss) before =
      let next =
        kept_or_skipped sha256 show before
          (enqueue_delivery sha256 show collector_id s.id event now before.1) in
      IsAppended-then (IsWaitingFor collector_id event) before next
        (enqueue_item sha256 show collector_id event now ss next)
        (one-IsAppended collector_id s.id event now before)
        (item-IsAppended collector_id event now ss next)

  items-IsAppended :
      (collector_id : String) (now : ℕ) (ss : List Sink) (items : List Item) (before : ℕ × Db)
      → IsAppended
          (IsSentFor collector_id items)
          before
          (enqueue_items sha256 show collector_id now ss items before)
  unfolding enqueue_items
  items-IsAppended collector_id now ss [] before =
      nothing-IsAppended (IsSentFor collector_id []) before
  items-IsAppended collector_id now ss (i ∷ is) before =
      let sent = enqueue_item sha256 show collector_id i.id now ss before in
      let next = if is_deliverable i then sent else before in
      IsAppended-then (IsSentFor collector_id (i ∷ is)) before next
        (enqueue_items sha256 show collector_id now ss is next) (head (is_deliverable i) refl)
        (IsAppended-weaken (IsSentFor collector_id is) (IsSentFor collector_id (i ∷ is)) next
          (enqueue_items sha256 show collector_id now ss is next) (λ d (a, r). (inr a, r))
          (items-IsAppended collector_id now ss is next))
    where
      head :
          (b : Bool)
          → is_deliverable i ≡ b
          → IsAppended
              (IsSentFor collector_id (i ∷ is))
              before
              (if b then enqueue_item sha256 show collector_id i.id now ss before else before)
      head false e = nothing-IsAppended (IsSentFor collector_id (i ∷ is)) before
      head true e =
          IsAppended-weaken (IsWaitingFor collector_id i.id) (IsSentFor collector_id (i ∷ is))
            before (enqueue_item sha256 show collector_id i.id now ss before)
            (λ d (a, r). (inl (sym a, deliverable-IsNews i e), r))
            (item-IsAppended collector_id i.id now ss before)

  -- A run leaves the rows of the delivery queue as they were and adds rows at the end, at most as many
  -- as it says it enqueued: each of them waits to be sent, belongs to the source of the run, and is for
  -- an item of the run that was accepted and is new or updated. It changes no sink.
  pub run-IsAppended :
      (collector_id : String) (items : List Item) (now : ℕ) (db : Db)
      → IsAppended
          (IsSentFor collector_id items)
          (0, db)
          (enqueue_run_deliveries sha256 show collector_id items now db)
  unfolding enqueue_run_deliveries
  run-IsAppended collector_id items now db =
      items-IsAppended collector_id now (enabled_sinks collector_id db.sinks) items (0, db)
