-- ===== src/Delivery/Queue.antt =====
-- store.py: enqueueing, claiming and redelivering, and the sinks.
use Prim.Native.String.{◌++◌ as ◌++ₛ◌}
use extrio.Base.{
  ℕ, ◌+◌, String, ◌&&◌, ◌||◌, Option, none, some, List, [], ◌∷◌, ◌++◌, ltb, ◌=ₛ◌, is_some,
  if◌then◌else◌, take, Outcome, ok, err, raise_if, ◌>>◌,
}
use extrio.Delivery.Tables.{
  Delivery, Sink, Db, find_delivery, find_sink, update_delivery, pending, delivering, delivered,
  dead_lettered,
}
use extrio.Delivery.Store.{
  StoreError, missing_row, invalid_value, being_delivered, is_delivering, is_due,
}

-- the row of an item event and a sink version, which are unique together
unfoldable pub find_event : String → String → List Delivery → Option Delivery
find_event item_event_id version_id [] = none
find_event item_event_id version_id (d ∷ ds) =
    if (d.item_event_id =ₛ item_event_id) && (d.sink_version_id =ₛ version_id)
    then some d
    else find_event item_event_id version_id ds

-- INSERT OR IGNORE: a row with the id, or with the item event and sink version, is kept
unfoldable pub insert_or_ignore : Delivery → List Delivery → List Delivery
insert_or_ignore new ds =
    if is_some (find_delivery new.id ds)
      || is_some (find_event new.item_event_id new.sink_version_id ds)
    then ds
    else ds ++ new ∷ []

module _ (sha256 : String → String) (show : ℕ → String) where
  -- f"{sink_id}#v{version}"
  abbrev pub sink_version : Sink → String
  sink_version s = s.id ++ₛ "#v" ++ₛ show s.version

  abbrev pub delivery_id : String → String → String
  delivery_id item_event_id version_id =
      "sha256:" ++ₛ sha256 (item_event_id ++ₛ "\n" ++ₛ version_id)

  abbrev pub enqueued : String → String → String → String → ℕ → Delivery
  enqueued collector_id sink_id item_event_id version_id now = record {
    id = delivery_id item_event_id version_id;
    collector_id = collector_id;
    sink_id = sink_id;
    sink_version_id = version_id;
    item_event_id = item_event_id;
    status = pending;
    attempt_count = 0;
    next_attempt_at = some now;
    lease_until = none;
    lease_token = none;
    cycle_attempts = 0;
    redelivery_count = 0;
    last_status_code = none;
    last_error = none;
    created_at = now;
    updated_at = now;
  }

  -- `enqueue_delivery` with no `sink_version_id` given
  unfoldable pub enqueue_delivery :
      String → String → String → ℕ → Db → Outcome StoreError (Delivery × Db)
  enqueue_delivery collector_id sink_id item_event_id now db = elim (find_sink sink_id db.sinks) [
    | none ↦ err missing_row
    | some s ↦
        let rows =
          insert_or_ignore (enqueued collector_id sink_id item_event_id (sink_version s) now)
            db.deliveries in
        elim (find_event item_event_id (sink_version s) rows) [
          | none ↦ err missing_row
          | some d ↦ ok (d, record db { deliveries = rows })
        ]
  ]

-- the write of `claim_due_deliveries` on one row
abbrev pub leased : ℕ → ℕ → String → Delivery → Delivery
leased now lease_until token d = record d {
  status = delivering;
  lease_until = some lease_until;
  lease_token = some token;
  cycle_attempts = d.cycle_attempts + 1;
  updated_at = now;
}

-- the loop over the selected rows; `token` gives the k-th fresh token
unfoldable pub lease_rows :
    ℕ → ℕ → (ℕ → String) → ℕ → List Delivery → List Delivery → List Delivery × List Delivery
lease_rows now lease_until token k [] ds = ([], ds)
lease_rows now lease_until token k (row ∷ rows) ds =
    let d = leased now lease_until (token k) row in
    let ds' = update_delivery row.id (leased now lease_until (token k)) ds in
    let (claimed, ds'') = lease_rows now lease_until token (k + 1) rows ds' in (d ∷ claimed, ds'')

unfoldable pub select_due : ℕ → List Sink → List Delivery → List Delivery
select_due now sinks [] = []
select_due now sinks (d ∷ ds) =
    let rest = select_due now sinks ds in
    if is_due now d && is_some (find_sink d.sink_id sinks) then d ∷ rest else rest

module _ (by_due : List Delivery → List Delivery) where
  unfoldable pub claim_due_deliveries :
      ℕ → ℕ → ℕ → (ℕ → String) → Db → Outcome StoreError (List Delivery × Db)
  claim_due_deliveries limit now lease_seconds token db = do
    raise_if (ltb limit 1) invalid_value
    let rows = take limit (by_due (select_due now db.sinks db.deliveries))
    let leases = lease_rows now (now + lease_seconds) token 0 rows db.deliveries
    ok (leases.0, record db { deliveries = leases.1 })

-- the write of `redeliver_delivery` on the row
abbrev pub reset : ℕ → Delivery → Delivery
reset now d = record d {
  status = pending;
  next_attempt_at = some now;
  lease_until = none;
  lease_token = none;
  cycle_attempts = 0;
  redelivery_count = d.redelivery_count + 1;
  updated_at = now;
}

-- `redeliver_delivery` with no `audit` given
unfoldable pub redeliver_delivery : String → ℕ → Db → Outcome StoreError Db
redeliver_delivery id now db = elim (find_delivery id db.deliveries) [
  | none ↦ err missing_row
  | some row ↦
      if is_delivering row.status
      then err being_delivered
      else ok (record db { deliveries = update_delivery id (reset now) db.deliveries })
]

-- the write of `mark_delivery_delivered` on the row, which keeps the lease's token
abbrev pub marked_delivered : ℕ → Delivery → Delivery
marked_delivered now d = record d {
  status = delivered;
  lease_until = none;
  next_attempt_at = none;
  updated_at = now;
}

-- the write of `mark_delivery_dead_lettered`; an error that is not given leaves the last one
abbrev pub marked_dead_lettered : Option String → ℕ → Delivery → Delivery
marked_dead_lettered error now d = record d {
  status = dead_lettered;
  lease_until = none;
  last_error = if is_some error then error else d.last_error;
  updated_at = now;
}

abbrev mark_delivery : String → (Delivery → Delivery) → Db → Outcome StoreError Db
mark_delivery id mark db =
    if is_some (find_delivery id db.deliveries)
    then ok (record db { deliveries = update_delivery id mark db.deliveries })
    else err missing_row

unfoldable pub mark_delivery_delivered : String → ℕ → Db → Outcome StoreError Db
mark_delivery_delivered id now db = mark_delivery id (marked_delivered now) db

unfoldable pub mark_delivery_dead_lettered : String → Option String → ℕ → Db → Outcome StoreError Db
mark_delivery_dead_lettered id error now db = mark_delivery id (marked_dead_lettered error now) db
