-- ===== src/Delivery/Claiming.antt =====
-- A claim's leases, and enqueueing the same event again.
use extrio.Base.{
  ℕ, ◌≤◌, String, ◌≡◌, refl, false, inl, inr, Option, none, some, List, arith, Bool-cases, is_some,
  ok, subst,
}
use extrio.Delivery.Tables.{Delivery, Sink, Db, find_delivery, find_sink, delivering}
use extrio.Delivery.Store.{is_due}
use extrio.Delivery.Queue.{insert_or_ignore, enqueued, find_event, enqueue_delivery, sink_version}

module _ (until : ℕ) where
  -- The row with an id, if there is one, is being delivered until the instant.
  abbrev pub Leased : String → List Delivery → Type 0
  Leased k ds =
      (row : Delivery)
      → find_delivery k ds ≡ some row
      → (row.status ≡ delivering) × (row.lease_until ≡ some until)

-- a delivery that no claim takes before an instant
abbrev pub IsTaken : ℕ → Db → Delivery → Type 0
IsTaken until db d =
    (now : ℕ) (row : Delivery)
    → now ≤ until
    → find_delivery d.id db.deliveries ≡ some row
    → is_due now row ≡ false

insert_found :
    (new d : Delivery) (ds : List Delivery)
    → find_event new.item_event_id new.sink_version_id ds ≡ some d
    → insert_or_ignore new ds ≡ ds
unfolding insert_or_ignore
insert_found new d ds e = elim (Bool-cases (is_some (find_delivery new.id ds))) [
  | inl y ↦ simp (y, e)
  | inr n ↦ simp (n, e)
]

-- Enqueueing an item event to a sink once more, at any later instant, gives the delivery that the
-- first call gave and leaves the tables as they are.
pub enqueue_again :
    (sha256 : String → String) (show : ℕ → String) (collector_id sink_id item_event_id : String)
    (now later : ℕ) (db db' : Db) (d : Delivery)
    → enqueue_delivery sha256 show collector_id sink_id item_event_id now db ≡ ok (d, db')
    → enqueue_delivery sha256 show collector_id sink_id item_event_id later db' ≡ ok (d, db')
unfolding enqueue_delivery
enqueue_again sha256 show collector_id sink_id item_event_id now later db db' d e =
    go (find_sink sink_id db.sinks) refl
  where
    new : Sink → ℕ → Delivery
    new s at =
        enqueued sha256 show collector_id sink_id item_event_id (sink_version sha256 show s) at

    rows : Sink → List Delivery
    rows s = insert_or_ignore (new s now) db.deliveries

    found :
        (s : Sink) (o : Option Delivery)
        → find_sink sink_id db.sinks ≡ some s
        → find_event item_event_id (sink_version sha256 show s) (rows s) ≡ o
        → (o ≡ some d) × (record db { deliveries = rows s } ≡ db')
    found s none f g = ground (arith, f, g)
    found s (some d') f g = (ground (arith, f, g), ground (arith, f, g))

    go :
        (o : Option Sink)
        → find_sink sink_id db.sinks ≡ o
        → enqueue_delivery sha256 show collector_id sink_id item_event_id later db' ≡ ok (d, db')
    go none f = ground (arith, f)
    go (some s) f =
        let (g, same) =
          found s (find_event item_event_id (sink_version sha256 show s) (rows s)) f refl in
        subst
          (λ x. enqueue_delivery sha256 show collector_id sink_id item_event_id later x ≡ ok (d, x))
          same (ground (arith, f, g, insert_found (new s later) d (rows s) g))
