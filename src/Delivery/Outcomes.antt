-- ===== src/Delivery/Outcomes.antt =====
-- What the dispatcher reports against what the tables then say.
use extrio.Base.{
  ℕ, ◌+◌, ◌≤◌, String, ◌≡◌, refl, ◌⊎◌, inl, inr, Bool, true, false, Option, none, some, List, [],
  Bool-cases, arith, subst, sym, if◌then◌else◌, leb,
}
use extrio.Delivery.Tables.{
  Delivery, Status, Sink, Db, find_delivery, delivered, failed, dead_lettered,
}
use extrio.Delivery.Store.{is_outcome, finalized, attempted, finalize_delivery}
use extrio.Delivery.Dispatch.{
  Item, Payload, Request, Result, Dispatch, outcome_delivered, outcome_retry_scheduled,
  outcome_dead_lettered, outcome_error, concluded, dead_letter, record_failure, conclude, process,
  backoff_seconds, accepted, rejected,
}
use extrio.Delivery.Branches.{End, lost, unreadable, refused, posted, dispatch_of, process_end}
use extrio.Delivery.Finishing.{held, finalize_iff_held}

-- The status and the next attempt that a row has after each outcome; `now` is the instant at which
-- it was written.
abbrev pub Agrees : Delivery → ℕ → Result → Delivery → Type 0
Agrees d now outcome_delivered row = (row.status ≡ delivered) × (row.next_attempt_at ≡ none)
Agrees d now outcome_retry_scheduled row =
    (row.status ≡ failed)
    × (row.next_attempt_at ≡ some (now + backoff_seconds d.cycle_attempts))
    × (d.cycle_attempts ≤ 4)
Agrees d now outcome_dead_lettered row = (row.status ≡ dead_lettered) × (row.next_attempt_at ≡ none)
Agrees d now outcome_error row = ⊥

-- The delivery's row is there without a lease, and says what the outcome says.
abbrev pub Settled : Delivery → ℕ → Dispatch → Type 0
Settled d now x =
    (row : Delivery) × (find_delivery d.id x.db.deliveries ≡ some row)
    × (row.lease_token ≡ none)
    × (row.lease_until ≡ none)
    × Agrees d now x.outcome row

-- The outcome is in the tables, or the outcome is an error and the tables are untouched.
abbrev pub Reports : Delivery → ℕ → Db → Dispatch → Type 0
Reports d now db x = ((x.outcome ≡ outcome_error) × (x.db ≡ db)) ⊎ Settled d now x

module _ (sha256 : String → String) (show : ℕ → String) where
  concluded-Reports :
      (d : Delivery) (status : Status) (result : Result) (code : Option ℕ) (error : Option String)
      (next : Option ℕ) (now : ℕ) (db : Db) (attempt : Bool) (sent : List Request)
      → is_outcome status ≡ true
      → ((row : Delivery) → Agrees d now result (finalized status error next now row))
      → Reports d now db (
          concluded result sent db
            (finalize_delivery sha256 show d status code error next attempt now db))
  concluded-Reports d status result code error next now db attempt sent o agrees =
      let f = finalize_iff_held sha256 show d status code error next now db attempt o in
      elim (Bool-cases (held now d db)) [
        | inl y ↦
            let (row, done, found, e, fin) = f.0 y in
            rw e (
              inr (
                finalized status error next now
                    (if attempt then attempted now code error row else row),
                fin.finished_row,
                refl,
                refl,
                agrees (if attempt then attempted now code error row else row),
              ))
        | inr n ↦ rw (f.1 n) (inl (refl, refl))
      ]

  module _ (clip : String → String) (d : Delivery) where
    dead_letter-Reports :
        (why : String) (code : Option ℕ) (attempt : Bool) (sent : List Request) (now : ℕ) (db : Db)
        → Reports d now db (dead_letter sha256 show clip d why code attempt sent now db)
    unfolding dead_letter
    dead_letter-Reports why code attempt sent now db =
        concluded-Reports d dead_lettered outcome_dead_lettered code (some (clip why)) none now db
          attempt sent refl (λ row. (refl, refl))

    record_failure-Reports :
        (code : Option ℕ) (why : String) (sent : List Request) (now : ℕ) (db : Db)
        → Reports d now db (record_failure sha256 show clip d code why sent now db)
    unfolding record_failure
    record_failure-Reports code why sent now db = elim (Bool-cases (leb 5 d.cycle_attempts)) [
      | inl y ↦ rw y (dead_letter-Reports why code true sent now db)
      | inr n ↦ rw n (
          concluded-Reports d failed outcome_retry_scheduled code (some (clip why))
            (some (now + backoff_seconds d.cycle_attempts)) now db true sent refl
            (λ row. (refl, refl, ground (arith, n))))
    ]

    conclude-Reports :
        (code : Option ℕ) (sent : List Request) (now : ℕ) (db : Db)
        → Reports d now db (conclude sha256 show clip d code sent now db)
    unfolding conclude
    conclude-Reports none sent now db =
        record_failure-Reports none (clip "request failed") sent now db
    conclude-Reports (some code) sent now db = elim (Bool-cases (accepted code)) [
      | inl y ↦ rw y (
          concluded-Reports d delivered outcome_delivered (some code) none none now db true sent
            refl (λ row. (refl, refl)))
      | inr n ↦ elim (Bool-cases (rejected code)) [
        | inl y ↦ rw (n, y) (dead_letter-Reports _ (some code) true sent now db)
        | inr m ↦ rw (n, m) (record_failure-Reports (some code) _ sent now db)
      ]
    ]

module _ (sha256 : String → String) (show : ℕ → String) (clip : String → String)
    (hmac : String → String → String) (json : Payload → String) (secret_of : Sink → Option String)
    (get_item : String → Option Item) (respond : Request → Option ℕ) (d : Delivery) (now later : ℕ)
    (meanwhile : Db → Db) (db : Db) where
  -- before a request goes out, or after its response
  abbrev Reported : Dispatch → Type 0
  Reported x = Reports d now db x ⊎ Reports d later (meanwhile db) x

  end-Reported :
      (e : End)
      → Reported (
          dispatch_of sha256 show clip hmac json secret_of get_item respond d now later meanwhile db
            e)
  end-Reported lost = inl (inl (refl, refl))
  end-Reported unreadable =
      inl (record_failure-Reports sha256 show clip d none (clip "dispatcher error") [] now db)
  end-Reported (refused why) = inl (dead_letter-Reports sha256 show clip d why none false [] now db)
  end-Reported (posted s secret payload) =
      inr (conclude-Reports sha256 show clip d _ _ later (meanwhile db))

  -- Whatever the sink, its secret, the item, the receiver's answer and what others do meanwhile, a
  -- dispatch either ends in an error outcome and leaves the tables as it finds them, or leaves the
  -- delivery's row without a lease and as the outcome says: delivered; failed, with a next attempt
  -- the backoff after the write, and only for a cycle of at most four attempts; or dead-lettered.
  pub process_reports :
      Reported
        (process sha256 show clip hmac json secret_of get_item respond d now later meanwhile db)
  process_reports =
      let (e, same, _) =
        process_end sha256 show clip hmac json secret_of get_item respond d now later meanwhile
          db in
      subst Reported (sym same) (end-Reported e)
