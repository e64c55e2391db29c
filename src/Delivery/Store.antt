-- ===== src/Delivery/Store.antt =====
-- store.py: how deliveries are put in the queue, leased, finished and put back.
use Prim.Native.String.{◌++◌ as ◌++ₛ◌}
use extrio.Base.{
  ℕ, ◌+◌, String, Bool, true, false, ◌&&◌, ◌||◌, not, Option, none, some, [], ◌∷◌, ◌++◌, ltb, leb,
  ◌=ₛ◌, is_some, if◌then◌else◌, Outcome, ok, err, raise_if, ◌>>=◌, ◌>>◌,
}
use extrio.Delivery.Tables.{
  Delivery, Status, Db, find_delivery, update_delivery, pending, delivering, delivered, failed,
  dead_lettered,
}

pub data StoreError : Type 0 where
  lease_lost missing_row invalid_value being_delivered : StoreError

abbrev pub is_delivering : Status → Bool
is_delivering delivering = true
is_delivering _ = false

abbrev pub is_waiting : Status → Bool
is_waiting pending = true
is_waiting failed = true
is_waiting _ = false

-- a column that is not NULL and compares so with the instant
abbrev pub at_or_before : Option ℕ → ℕ → Bool
at_or_before none now = false
at_or_before (some t) now = leb t now

abbrev pub before : Option ℕ → ℕ → Bool
before none now = false
before (some t) now = ltb t now

-- the condition of `claim_due_deliveries`
abbrev pub is_due : ℕ → Delivery → Bool
is_due now d =
    (is_waiting d.status && at_or_before d.next_attempt_at now)
    || (is_delivering d.status && before d.lease_until now)

abbrev pub same_token : Option String → Option String → Bool
same_token (some a) (some b) = a =ₛ b
same_token _ _ = false

-- the condition under which `check_delivery_lease` does not raise, on the row that it reads
abbrev pub owns : ℕ → Delivery → Delivery → Bool
owns now claimed row =
    is_delivering row.status
    && same_token row.lease_token claimed.lease_token
    && is_some row.lease_until
    && not (at_or_before row.lease_until now)

unfoldable pub check_delivery_lease : ℕ → Delivery → Db → Outcome StoreError (Unit {0})
check_delivery_lease now claimed db = elim (find_delivery claimed.id db.deliveries) [
  | none ↦ err lease_lost
  | some row ↦ if owns now claimed row then ok tt else err lease_lost
]

-- the write of `record_delivery_attempt` on the delivery's row
abbrev pub attempted : ℕ → Option ℕ → Option String → Delivery → Delivery
attempted now status_code error d = record d {
  attempt_count = d.attempt_count + 1;
  last_status_code = status_code;
  last_error = error;
  status = if is_some error then failed else d.status;
  updated_at = now;
}

-- the write of `finalize_delivery` on the delivery's row
abbrev pub finalized : Status → Option String → Option ℕ → ℕ → Delivery → Delivery
finalized status error next_attempt_at now d = record d {
  status = status;
  last_error = error;
  next_attempt_at = next_attempt_at;
  lease_until = none;
  lease_token = none;
  updated_at = now;
}

abbrev pub is_outcome : Status → Bool
is_outcome delivered = true
is_outcome failed = true
is_outcome dead_lettered = true
is_outcome _ = false

module _ (sha256 : String → String) (show : ℕ → String) where
  -- `sha256:{sha256(f'{id}\n{n}')}`
  abbrev pub attempt_id : String → ℕ → String
  attempt_id id n = "sha256:" ++ₛ sha256 (id ++ₛ "\n" ++ₛ show n)

  unfoldable pub record_delivery_attempt :
      String → Option ℕ → Option String → ℕ → Db → Outcome StoreError Db
  record_delivery_attempt id status_code error now db = elim (find_delivery id db.deliveries) [
    | none ↦ err missing_row
    | some row ↦ ok (record db {
      attempts =
          db.attempts
          ++ record {
            id = attempt_id id (row.attempt_count + 1);
            delivery_id = id;
            attempt_no = row.attempt_count + 1;
            started_at = now;
            finished_at = now;
            status_code = status_code;
            error = error;
          }
            ∷ [];
      deliveries = update_delivery id (attempted now status_code error) db.deliveries;
    })
  ]

  unfoldable pub write_outcome : String → Status → Option String → Option ℕ → ℕ → Db → Db
  write_outcome id status error next_attempt_at now db = record db {
    deliveries = update_delivery id (finalized status error next_attempt_at now) db.deliveries;
  }

  -- A transaction that raises leaves the database as it was.
  unfoldable pub finalize_delivery :
      Delivery
      → Status
      → Option ℕ
      → Option String
      → Option ℕ
      → Bool
      → ℕ
      → Db
      → Outcome StoreError Db
  finalize_delivery claimed status status_code error next_attempt_at record_attempt now db = do
    raise_if (not (is_outcome status)) invalid_value
    check_delivery_lease now claimed db
    db' ←
        (if record_attempt
          then record_delivery_attempt claimed.id status_code error now db
          else ok db)
    ok (write_outcome claimed.id status error next_attempt_at now db')
