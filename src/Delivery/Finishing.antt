-- ===== src/Delivery/Finishing.antt =====
-- Who may finish a delivery, and what finishing it does.
use text.Mathlib.TextPositions.{eq_refl}
use extrio.Base.{
  ℕ, ◌+◌, String, ◌≡◌, refl, inl, inr, Bool, true, false, Option, none, some, List, [], ◌∷◌, ◌++◌,
  Option-cases, arith, if◌then◌else◌, ◌=ₛ◌, ok, err,
}
use extrio.Delivery.Tables.{
  Delivery, Status, Attempt, Db, find_delivery, update_delivery, find-update, map_found,
}
use extrio.Delivery.Store.{
  owns, is_outcome, attempted, finalized, check_delivery_lease, record_delivery_attempt,
  write_outcome, finalize_delivery, attempt_id, lease_lost,
}

-- The row that a claim is about, if the claim's lease on it still holds.
abbrev pub held : ℕ → Delivery → Db → Bool
held now claimed db = elim (find_delivery claimed.id db.deliveries) [
  | none ↦ false
  | some row ↦ owns now claimed row
]

find-attempted :
    (id k : String) (now : ℕ) (code : Option ℕ) (error : Option String) (ds : List Delivery)
    → find_delivery k (update_delivery id (attempted now code error) ds) ≡ (
        if k =ₛ id
        then map_found (attempted now code error) (find_delivery k ds)
        else find_delivery k ds)
find-attempted id k now code error ds = find-update id k (attempted now code error) ds (λ d. refl)

find-finalized :
    (id k : String) (s : Status) (error : Option String) (next : Option ℕ) (now : ℕ)
    (ds : List Delivery)
    → find_delivery k (update_delivery id (finalized s error next now) ds) ≡ (
        if k =ₛ id
        then map_found (finalized s error next now) (find_delivery k ds)
        else find_delivery k ds)
find-finalized id k s error next now ds =
    find-update id k (finalized s error next now) ds (λ d. refl)

module _ (sha256 : String → String) (show : ℕ → String) (claimed : Delivery) (status : Status)
    (code : Option ℕ) (error : Option String) (next : Option ℕ) (now : ℕ) (db : Db) where
  -- the attempt that is recorded against a row
  abbrev pub new_attempt : Delivery → Attempt
  new_attempt row = record {
    id = attempt_id sha256 show claimed.id (row.attempt_count + 1);
    delivery_id = claimed.id;
    attempt_no = row.attempt_count + 1;
    started_at = now;
    finished_at = now;
    status_code = code;
    error = error;
  }

  -- What finishing leaves behind: the claimed row has its outcome and no lease, and one more attempt
  -- if one was recorded; the other rows, the other attempts and the sinks are as they were.
  pub record IsFinished (record_attempt : Bool) (row : Delivery) (db' : Db) : Type 0 where
    pub finished_row :
        find_delivery claimed.id db'.deliveries
        ≡ some (
            finalized status error next now
              (if record_attempt then attempted now code error row else row))
    pub other_rows :
        (k : String)
        → (k =ₛ claimed.id) ≡ false
        → find_delivery k db'.deliveries ≡ find_delivery k db.deliveries
    pub history :
        db'.attempts ≡ (if record_attempt then db.attempts ++ new_attempt row ∷ [] else db.attempts)
    pub same_sinks : db'.sinks ≡ db.sinks

  module _ (row : Delivery) (f : find_delivery claimed.id db.deliveries ≡ some row) where
    recorded : Db
    recorded = record db {
      attempts = db.attempts ++ new_attempt row ∷ [];
      deliveries = update_delivery claimed.id (attempted now code error) db.deliveries;
    }

    record-eq : record_delivery_attempt sha256 show claimed.id code error now db ≡ ok recorded
    unfolding record_delivery_attempt recorded
    record-eq = rw (f, record_delivery_attempt)

    IsFinished-true :
        IsFinished true row (write_outcome sha256 show claimed.id status error next now recorded)
    unfolding write_outcome recorded
    IsFinished-true = record {
      finished_row = simp (find-finalized, find-attempted, eq_refl, f);
      other_rows = λ k e. simp (find-finalized, find-attempted, e);
      history = refl;
      same_sinks = refl;
    }

    IsFinished-false :
        IsFinished false row (write_outcome sha256 show claimed.id status error next now db)
    unfolding write_outcome
    IsFinished-false = record {
      finished_row = simp (find-finalized, eq_refl, f);
      other_rows = λ k e. simp (find-finalized, e);
      history = refl;
      same_sinks = refl;
    }

    check-eq : owns now claimed row ≡ true → check_delivery_lease now claimed db ≡ ok tt
    unfolding check_delivery_lease
    check-eq h = rw (f, check_delivery_lease) (rw h)

  abbrev pub Finishes : Bool → Type 0
  Finishes record_attempt =
      (row : Delivery) × (db' : Db) × (find_delivery claimed.id db.deliveries ≡ some row)
      × (finalize_delivery sha256 show claimed status code error next record_attempt now db
          ≡ ok db')
      × IsFinished record_attempt row db'

  finalize-Finishes :
      (record_attempt : Bool) (row : Delivery)
      → is_outcome status ≡ true
      → find_delivery claimed.id db.deliveries ≡ some row
      → owns now claimed row ≡ true
      → Finishes record_attempt
  unfolding finalize_delivery
  finalize-Finishes true row o f h = (
    row,
    write_outcome sha256 show claimed.id status error next now (recorded row f),
    f,
    rw (o, check-eq row f h, record-eq row f),
    IsFinished-true row f,
  )
  finalize-Finishes false row o f h = (
    row,
    write_outcome sha256 show claimed.id status error next now db,
    f,
    rw (o, check-eq row f h),
    IsFinished-false row f,
  )

  pub not_held : held now claimed db ≡ false → check_delivery_lease now claimed db ≡ err lease_lost
  unfolding check_delivery_lease
  not_held h = ground arith

  held_row :
      held now claimed db ≡ true
      → (row : Delivery) × (find_delivery claimed.id db.deliveries ≡ some row)
        × (owns now claimed row ≡ true)
  held_row h = elim (Option-cases (find_delivery claimed.id db.deliveries)) [
    | inl e ↦ cc (e, h)
    | inr (row, e) ↦ (row, e, ground (arith, e))
  ]

  pub finalize_iff_held :
      (record_attempt : Bool)
      → is_outcome status ≡ true
      → (held now claimed db ≡ true → Finishes record_attempt)
        × (held now claimed db ≡ false
            → finalize_delivery sha256 show claimed status code error next record_attempt now db
              ≡ err lease_lost)
  unfolding finalize_delivery
  finalize_iff_held record_attempt o = (
    λ h. let (row, f, own) = held_row h in finalize-Finishes record_attempt row o f own,
    λ h. rw (o, not_held h),
  )
