-- ===== src/Delivery/Effects.antt =====
-- What a dispatch writes: its delivery's row, and no other.
use extrio.Base.{
  ℕ, zero, suc, ◌+◌, ◌≤◌, String, ◌≡◌, refl, ◌⊎◌, inl, inr, Bool, true, false, Option, none, some,
  List, [], Bool-cases, is_some, ◌∙◌, ok, ◌≢◌, arith, subst, sym, if◌then◌else◌, leb, ◌=ₛ◌,
}
use extrio.Delivery.Tables.{
  Delivery, Status, Sink, Db, find_delivery, find_sink, delivered, failed, dead_lettered,
}
use extrio.Delivery.Store.{
  is_outcome, finalized, attempted, finalize_delivery, owns, check_delivery_lease,
}
use extrio.Delivery.Dispatch.{
  Item, Payload, Request, Result, Dispatch, concluded, dead_letter, record_failure, conclude,
  process, backoff_seconds, accepted, rejected,
}
use extrio.Delivery.Branches.{
  End, lost, unreadable, refused, posted, dispatch_of, Occurs, process_end,
}
use extrio.Delivery.Finishing.{held, finalize_iff_held}

abbrev pub is_final : Status → Bool
is_final delivered = true
is_final dead_lettered = true
is_final _ = false

-- the last entry of the backoff schedule
abbrev pub longest_backoff : ℕ
longest_backoff = 21600

backoff_seconds-bounded : (n : ℕ) → backoff_seconds n ≤ longest_backoff
backoff_seconds-bounded zero = omega arith
backoff_seconds-bounded (suc zero) = omega arith
backoff_seconds-bounded (suc (suc zero)) = omega arith
backoff_seconds-bounded (suc (suc (suc zero))) = omega arith
backoff_seconds-bounded (suc (suc (suc (suc zero)))) = omega arith
backoff_seconds-bounded (suc (suc (suc (suc (suc n))))) = omega arith

-- A row that a dispatch has written by `now`: it is final, or it waits for a next attempt.
abbrev pub Goes : Delivery → ℕ → Delivery → Type 0
Goes d now row =
    (is_final row.status ≡ true)
    ⊎ ((row.status ≡ failed)
        × ((at : ℕ) × (row.next_attempt_at ≡ some at) × (at ≤ now + longest_backoff))
        × (d.cycle_attempts ≤ 4)
        × (row.cycle_attempts ≡ d.cycle_attempts)
        × (row.sink_id ≡ d.sink_id))

abbrev pub has_sink : String → Db → Bool
has_sink id db = is_some (find_sink id db.sinks)

abbrev pub OthersKept : Delivery → Db → Db → Type 0
OthersKept d db db' =
    (db'.sinks ≡ db.sinks)
    × ((k : String)
        → (k =ₛ d.id) ≡ false
        → find_delivery k db'.deliveries ≡ find_delivery k db.deliveries)

abbrev pub OwnWritten : Delivery → ℕ → Db → Db → Type 0
OwnWritten d now db db' =
    find_delivery d.id db.deliveries ≡ some d
    → owns now d d ≡ true
    → (row : Delivery) × (find_delivery d.id db'.deliveries ≡ some row) × Goes d now row

abbrev pub Writes : Delivery → ℕ → Db → Dispatch → Type 0
Writes d now db x = OthersKept d db x.db × OwnWritten d now db x.db

-- the row that `finalize_delivery` starts from
abbrev with_attempt : Bool → ℕ → Option ℕ → Option String → Delivery → Delivery
with_attempt attempt now code error row = if attempt then attempted now code error row else row

module _ (sha256 : String → String) (show : ℕ → String) where
  concluded-Writes :
      (d : Delivery) (status : Status) (result : Result) (code : Option ℕ) (error : Option String)
      (next : Option ℕ) (now : ℕ) (db : Db) (attempt : Bool) (sent : List Request)
      → is_outcome status ≡ true
      → Goes d now (finalized status error next now (with_attempt attempt now code error d))
      → Writes d now db (
          concluded result sent db
            (finalize_delivery sha256 show d status code error next attempt now db))
  concluded-Writes d status result code error next now db attempt sent o goes =
      let f = finalize_iff_held sha256 show d status code error next now db attempt o in
      elim (Bool-cases (held now d db)) [
        | inl y ↦
            let (row, done, found, e, fin) = f.0 y in
            rw e (
              (fin.same_sinks, fin.other_rows),
              λ here own. (
                finalized status error next now (with_attempt attempt now code error row),
                fin.finished_row,
                subst
                    (λ r.
                      Goes d now
                        (finalized status error next now (with_attempt attempt now code error r)))
                    (cc (found, here)) goes,
              ),
            )
        | inr n ↦ rw (f.1 n) ((refl, λ k e. refl), λ here own. cc (here, own, n))
      ]

  module _ (clip : String → String) (d : Delivery) where
    dead_letter-Writes :
        (why : String) (code : Option ℕ) (attempt : Bool) (sent : List Request) (now : ℕ) (db : Db)
        → Writes d now db (dead_letter sha256 show clip d why code attempt sent now db)
    unfolding dead_letter
    dead_letter-Writes why code attempt sent now db =
        concluded-Writes d dead_lettered _ code (some (clip why)) none now db attempt sent refl
          (inl refl)

    record_failure-Writes :
        (code : Option ℕ) (why : String) (sent : List Request) (now : ℕ) (db : Db)
        → Writes d now db (record_failure sha256 show clip d code why sent now db)
    unfolding record_failure
    record_failure-Writes code why sent now db = elim (Bool-cases (leb 5 d.cycle_attempts)) [
      | inl y ↦ rw y (dead_letter-Writes why code true sent now db)
      | inr n ↦ rw n (
          concluded-Writes d failed _ code (some (clip why))
            (some (now + backoff_seconds d.cycle_attempts)) now db true sent refl
            (inr (
              refl,
              (_, refl, omega (arith, backoff_seconds-bounded d.cycle_attempts)),
              ground (arith, n),
              refl,
              refl,
            )))
    ]

    conclude-Writes :
        (code : Option ℕ) (sent : List Request) (now : ℕ) (db : Db)
        → Writes d now db (conclude sha256 show clip d code sent now db)
    unfolding conclude
    conclude-Writes none sent now db =
        record_failure-Writes none (clip "request failed") sent now db
    conclude-Writes (some code) sent now db = elim (Bool-cases (accepted code)) [
      | inl y ↦
          rw y
            (concluded-Writes d delivered _ (some code) none none now db true sent refl (inl refl))
      | inr n ↦ elim (Bool-cases (rejected code)) [
        | inl y ↦ rw (n, y) (dead_letter-Writes _ (some code) true sent now db)
        | inr m ↦ rw (n, m) (record_failure-Writes (some code) _ sent now db)
      ]
    ]

module _ (sha256 : String → String) (show : ℕ → String) (clip : String → String)
    (hmac : String → String → String) (json : Payload → String) (secret_of : Sink → Option String)
    (get_item : String → Option Item) (respond : Request → Option ℕ) (d : Delivery) (now later : ℕ)
    (meanwhile : Db → Db) (db : Db) where
  abbrev pub SinksStay : Db → Type 0
  SinksStay db' =
      (k : String) → has_sink k (meanwhile db) ≡ has_sink k db → has_sink k db' ≡ has_sink k db

  abbrev pub RowStays : String → Db → Type 0
  RowStays k db' = find_delivery k db'.deliveries ≡ find_delivery k db.deliveries

  -- The sinks, and the rows of other deliveries, are only those that others wrote meanwhile; the
  -- delivery's own row, if its lease lasts and no other writes it, is final or waits.
  abbrev pub Dispatched : Db → Type 0
  Dispatched db' =
      SinksStay db'
      × ((k : String) → (k =ₛ d.id) ≡ false → RowStays k (meanwhile db) → RowStays k db')
      × (RowStays d.id (meanwhile db)
          → find_delivery d.id db.deliveries ≡ some d
          → owns now d d ≡ true
          → owns later d d ≡ true
          → now ≤ later
          → (row : Delivery) × (find_delivery d.id db'.deliveries ≡ some row) × Goes d later row)

  later_row : (row : Delivery) → now ≤ later → Goes d now row → Goes d later row
  later_row row le (inl f) = inl f
  later_row row le (inr (s, (at, e, b), few, same, sink)) =
      inr (s, (at, e, omega (arith, le, b)), few, same, sink)

  at_once : (x : Dispatch) → Writes d now db x → Dispatched x.db
  at_once x ((sinks, others), own) = (
    λ k same. rw sinks refl,
    λ k other same. others k other,
    λ same here holds still le.
        let (row, e, goes) = own here holds in (row, e, later_row row le goes),
  )

  afterwards : (x : Dispatch) → Writes d later (meanwhile db) x → Dispatched x.db
  afterwards x ((sinks, others), own) = (
    λ k same. rw sinks same,
    λ k other same. others k other ∙ same,
    λ same here holds still le. own (same ∙ here) still,
  )

  kept : check_delivery_lease now d db ≢ ok tt → Dispatched db
  unfolding check_delivery_lease
  kept lease_is_lost = (
    λ k same. refl,
    λ k other same. refl,
    λ same here holds still le.
        elim (lease_is_lost (rw (here, check_delivery_lease) (rw holds refl))) [ ],
  )

  abbrev Written : Dispatch → Type 0
  Written x =
      (Writes d now db x ⊎ Writes d later (meanwhile db) x)
      ⊎ ((x.db ≡ db) × (check_delivery_lease now d db ≢ ok tt))

  written-Dispatched : (x : Dispatch) → Written x → Dispatched x.db
  written-Dispatched x (inl (inl w)) = at_once x w
  written-Dispatched x (inl (inr w)) = afterwards x w
  written-Dispatched x (inr (same, l)) = subst Dispatched (sym same) (kept l)

  end-Written :
      (e : End)
      → Occurs sha256 show clip hmac json secret_of get_item respond d now later meanwhile db e
      → Written (
          dispatch_of sha256 show clip hmac json secret_of get_item respond d now later meanwhile db
            e)
  end-Written lost (e, c) = inr (refl, λ o. ground (arith, c, o))
  end-Written unreadable o =
      inl (inl (record_failure-Writes sha256 show clip d none (clip "dispatcher error") [] now db))
  end-Written (refused why) o =
      inl (inl (dead_letter-Writes sha256 show clip d why none false [] now db))
  end-Written (posted s secret payload) o =
      inl (inr (conclude-Writes sha256 show clip d _ _ later (meanwhile db)))

  pub process-Dispatched :
      Dispatched
        (process sha256 show clip hmac json secret_of get_item respond d now later meanwhile db).db
  process-Dispatched =
      let (e, same, o) =
        process_end sha256 show clip hmac json secret_of get_item respond d now later meanwhile
          db in
      written-Dispatched
        (process sha256 show clip hmac json secret_of get_item respond d now later meanwhile db)
        (subst Written (sym same) (end-Written e o))
