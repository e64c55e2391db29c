-- ===== src/Delivery/Served.antt =====
-- What one fair cycle of the worker does to a delivery that waits or has ended.
use text.Mathlib.TextPositions.{eq_refl}
use extrio.Base.{
  ℕ, suc, ◌+◌, ◌≤◌, ◌<◌, String, ◌≡◌, refl, ◌∙◌, ◌⊎◌, inl, inr, Bool, true, false, ◌&&◌, ◌||◌, List,
  [], ◌∷◌, some, All, ok, ◌=ₛ◌, arith, sym, subst, eq_iff,
}
use extrio.Delivery.Tables.{
  Status, pending, delivering, delivered, failed, dead_lettered, Delivery, Db, find_delivery,
  update_delivery, find-update,
}
use extrio.Delivery.Store.{at_or_before, before, is_delivering, is_due, is_waiting, owns}
use extrio.Delivery.Queue.{leased, lease_rows, claim_due_deliveries}
use extrio.Delivery.Dispatch.{Payload, process}
use extrio.Delivery.Effects.{has_sink, longest_backoff, is_final, Goes, process-Dispatched}
use extrio.Delivery.Cycle.{process_batch, process_due_deliveries}
use extrio.Delivery.Rounds.{Conditions, Untouched, IsFair, batch}

find-id :
    (id : String) (ds : List Delivery) (row : Delivery)
    → find_delivery id ds ≡ some row
    → row.id ≡ id
unfolding find_delivery
find-id id [] row e = ground arith
find-id id (d ∷ ds) row e = ground (arith, find-id id ds row, eq_iff d.id id)

final_row :
    (s : Status) (x y z : Bool)
    → is_final s ≡ true
    → ((is_waiting s && x || is_delivering s && y) && z) ≡ false
final_row pending x y z f = ground arith
final_row delivering x y z f = ground arith
final_row delivered x y z f = refl
final_row failed x y z f = ground arith
final_row dead_lettered x y z f = refl

-- Leasing other rows leaves the row, and the claimed deliveries are others too.
lease_rows_others :
    (id : String) (now until : ℕ) (token : ℕ → String) (k : ℕ) (rows ds : List Delivery)
    → All (λ d. (id =ₛ d.id) ≡ false) rows
    → (find_delivery id (lease_rows now until token k rows ds).1 ≡ find_delivery id ds)
      × All (λ d. (id =ₛ d.id) ≡ false) (lease_rows now until token k rows ds).0
unfolding lease_rows
lease_rows_others id now until token k [] ds h = (refl, tt)
lease_rows_others id now until token k (row ∷ rows) ds (h, hs) =
    let f = leased now until (token k) in
    let (same, rest) =
      lease_rows_others id now until token (k + 1) rows (update_delivery row.id f ds) hs in
    (same ∙ simp (find-update row.id id f ds (λ d. refl), h), (h, rest))

module _ (sha256 : String → String) (show : ℕ → String) (clip : String → String)
    (hmac : String → String → String) (json : Payload → String)
    (by_due : List Delivery → List Delivery) (id sink : String) where
  -- Dispatching others leaves the delivery's row and its sink.
  batch_others :
      (x : Conditions) (ds : List Delivery) (b : Db)
      → ((d : Delivery) (c : Db) → Untouched id sink c (x.meanwhile d c))
      → All (λ d. (id =ₛ d.id) ≡ false) ds
      → Untouched id sink b
          (process_batch sha256 show clip hmac json x.secret_of x.get_item x.respond x.started
            x.finished x.meanwhile ds b).1
  unfolding process_batch
  batch_others x [] b apart h = (refl, refl)
  batch_others x (d ∷ ds) b apart (h, hs) =
      let (sinks, rows, own) =
        process-Dispatched sha256 show clip hmac json x.secret_of x.get_item x.respond d
          (x.started d) (x.finished d) (x.meanwhile d) b in
      let (row, s) = batch_others x ds _ apart hs in
      (row ∙ rows id h (apart d b).0, s ∙ sinks sink (apart d b).1)

  -- Waiting for an attempt that is at most the longest backoff after `t`, with at least `n` attempts
  -- behind it and at most four.
  abbrev pub Waits : ℕ → ℕ → Delivery → Type 0
  Waits n t row =
      (is_waiting row.status ≡ true)
      × ((at : ℕ) × (row.next_attempt_at ≡ some at) × (at ≤ t + longest_backoff))
      × (n ≤ row.cycle_attempts)
      × (n ≤ 4)
      × (row.sink_id ≡ sink)

  -- The delivery waits or has ended, and its sink is there.
  abbrev pub Served : ℕ → ℕ → Db → Type 0
  Served n t b =
      (has_sink sink b ≡ true)
      × ((row : Delivery) × (find_delivery id b.deliveries ≡ some row)
          × ((is_final row.status ≡ true) ⊎ Waits n t row))

  final_not_due :
      (row : Delivery) (now : ℕ) (s : Bool)
      → is_final row.status ≡ true
      → (is_due now row && s) ≡ false
  final_not_due row now s f =
      final_row row.status (at_or_before row.next_attempt_at now) (before row.lease_until now) s f

  waits_due :
      (row : Delivery) (n t now : ℕ) (b : Db)
      → Waits n t row
      → has_sink sink b ≡ true
      → t + longest_backoff ≤ now
      → (is_due now row && has_sink row.sink_id b) ≡ true
  waits_due row n t now b (w, (at, e, le), few, few', s) h spaced =
      rw (e, s, h) (ground (arith, w, le, spaced))

  module _ (x : Conditions) (b : Db) where
    abbrev dispatched : List Delivery × List Delivery → Db
    dispatched leases =
        (process_batch sha256 show clip hmac json x.secret_of x.get_item x.respond x.started
          x.finished x.meanwhile leases.0 (record b { deliveries = leases.1 })).1

    -- the tables after a cycle whose claim takes these rows
    abbrev pub cycle_on : List Delivery → Db
    cycle_on rows =
        dispatched (lease_rows x.now (x.now + x.lease_seconds) x.token 0 rows b.deliveries)

    pub cycle-eq :
        (k : ℕ) (c : Db)
        → process_due_deliveries sha256 show clip hmac json x.secret_of x.get_item x.respond by_due
            x.now x.lease_seconds x.token x.started x.finished x.meanwhile b
          ≡ ok (k, c)
        → cycle_on (batch by_due x.now b) ≡ c
    unfolding process_due_deliveries claim_due_deliveries
    cycle-eq k c e = ground (arith, e)

    -- the delivery as a cycle claims it, and the tables then
    abbrev claimed : Delivery → Delivery
    claimed row = leased x.now (x.now + x.lease_seconds) (x.token 0) row

    abbrev claimed_db : Delivery → Db
    claimed_db row = record b {
      deliveries =
          update_delivery row.id (leased x.now (x.now + x.lease_seconds) (x.token 0)) b.deliveries;
    }

    claimed-owns :
        (row : Delivery) (now : ℕ)
        → now < x.now + x.lease_seconds
        → owns now (claimed row) (claimed row) ≡ true
    claimed-owns row now lt = ground (arith, lt, eq_refl (x.token 0))

    claimed-here :
        (row : Delivery)
        → find_delivery row.id b.deliveries ≡ some row
        → find_delivery row.id (claimed_db row).deliveries ≡ some (claimed row)
    claimed-here row here = simp (
      find-update row.id row.id (leased x.now (x.now + x.lease_seconds) (x.token 0)) b.deliveries
          (λ d. refl),
      eq_refl,
      here,
    )

    goes_on :
        (n later at : ℕ) (row row' : Delivery)
        → Waits n at row
        → (f : ℕ) → f ≤ later
        → Goes (claimed row) f row'
        → (is_final row'.status ≡ true) ⊎ Waits (suc n) later row'
    goes_on n later at row row' w f le (inl final) = inl final
    goes_on n later at row row' (waiting, before, few, few', own) f le
          (inr (failed_row, (next, e, bound), four, same, sink_same)) =
        inr (
          rw failed_row refl,
          (next, e, omega (arith, bound, le)),
          omega (arith, few, same),
          omega (arith, few, four),
          sink_same ∙ own,
        )

    -- the tables after the dispatch of the claimed delivery
    abbrev after : Delivery → Db
    after row =
        (process sha256 show clip hmac json x.secret_of x.get_item x.respond (claimed row)
          (x.started (claimed row)) (x.finished (claimed row)) (x.meanwhile (claimed row))
          (claimed_db row)).db

    module _ (t later n : ℕ) (fair : IsFair by_due id sink x t later b) (row : Delivery)
        (here : find_delivery id b.deliveries ≡ some row) (there : has_sink sink b ≡ true) where
      others-Served :
          is_final row.status ≡ true → Served (suc n) later (cycle_on (batch by_due x.now b))
      others-Served f =
          let apart =
            fair.not_taken row here (final_not_due row x.now (has_sink row.sink_id b) f) in
          let (same, claimed) =
            lease_rows_others id x.now (x.now + x.lease_seconds) x.token 0 _ b.deliveries apart in
          let (kept, sinks) = batch_others x _ _ fair.apart claimed in
          (sinks ∙ there, (row, kept ∙ same ∙ here, inl f))

      taken-Served : Waits n t row → Served (suc n) later (cycle_on (batch by_due x.now b))
      unfolding lease_rows process_batch
      taken-Served w =
          let (waiting, at, few, few', own_sink) = w in
          let d = claimed row in
          let same = find-id id b.deliveries row here in
          let here' = subst (λ i. find_delivery i b.deliveries ≡ some row) (sym same) here in
          let (in_order, in_time, over) = fair.in_time d in
          let (keeps_row, keeps_sink) = fair.apart d (claimed_db row) in
          let (sinks, rows, own) =
            process-Dispatched sha256 show clip hmac json x.secret_of x.get_item x.respond d
              (x.started d) (x.finished d) (x.meanwhile d) (claimed_db row) in
          let (row', e, goes) =
            own
              (subst
                (λ i.
                  find_delivery i (x.meanwhile d (claimed_db row)).deliveries
                  ≡ find_delivery i (claimed_db row).deliveries)
                (sym same) keeps_row)
              (claimed-here row here')
              (claimed-owns row (x.started d) (omega (arith, in_order, in_time)))
              (claimed-owns row (x.finished d) in_time) in_order in
          rw (fair.taken row here (waits_due row n t x.now b w there fair.spaced)) (
            sinks sink keeps_sink ∙ there,
            (
              row',
              subst (λ i. find_delivery i (after row).deliveries ≡ some row') same e,
              goes_on n later t row row' w (x.finished d) over goes,
            ),
          )

  pub round-Served :
      (x : Conditions) (b : Db) (t later n : ℕ)
      → IsFair by_due id sink x t later b
      → Served n t b
      → Served (suc n) later (cycle_on x b (batch by_due x.now b))
  round-Served x b t later n fair (there, (row, here, inl f)) =
      others-Served x b t later n fair row here there f
  round-Served x b t later n fair (there, (row, here, inr w)) =
      taken-Served x b t later n fair row here there w
