-- ===== src/Delivery/Ends.antt =====
-- A delivery comes to its end: it is delivered or dead-lettered.
use extrio.Base.{ℕ, suc, ◌+◌, ◌≤◌, String, ◌≡◌, refl, ◌∙◌, inl, inr, true, List, some, arith, subst}
use extrio.Delivery.Tables.{Delivery, Db, find_delivery}
use extrio.Delivery.Store.{is_waiting}
use extrio.Delivery.Queue.{claim_due_deliveries}
use extrio.Delivery.Dispatch.{Payload}
use extrio.Delivery.Effects.{has_sink, longest_backoff, is_final}
use extrio.Delivery.Cycle.{process_due_deliveries}
use extrio.Delivery.Served.{Served, round-Served, cycle-eq}
use extrio.Delivery.Rounds.{Conditions, IsFair, Rounds, start, others, round}

-- The row waits for an attempt that is due by the longest backoff after `s`, and its sink is there.
abbrev pub IsQueued : String → String → ℕ → Db → Type 0
IsQueued sink id s a =
    (has_sink sink a ≡ true)
    × ((row : Delivery) × (find_delivery id a.deliveries ≡ some row)
        × (is_waiting row.status ≡ true)
        × ((at : ℕ) × (row.next_attempt_at ≡ some at) × (at ≤ s + longest_backoff))
        × (row.sink_id ≡ sink))

-- the row is delivered or dead-lettered
abbrev pub IsEnded : String → Db → Type 0
IsEnded id b =
    (row : Delivery) × (find_delivery id b.deliveries ≡ some row) × (is_final row.status ≡ true)

module _ (sha256 : String → String) (show : ℕ → String) (clip : String → String)
    (hmac : String → String → String) (json : Payload → String)
    (by_due : List Delivery → List Delivery) (id sink : String) where
  rounds-Served :
      {a : Db} {s n t : ℕ} {b : Db}
      → Served sha256 show clip hmac json by_due id sink 0 s a
      → Rounds sha256 show clip hmac json by_due id sink a s n t b
      → Served sha256 show clip hmac json by_due id sink n t b
  rounds-Served h start = h
  rounds-Served h (others c l (same, sinks)) =
      let (there, (row, here, ends)) = rounds-Served h l in
      (sinks ∙ there, (row, same ∙ here, ends))
  rounds-Served h (round {n = n} {t = t} {b = b} x later k c l fair e) =
      subst (Served sha256 show clip hmac json by_due id sink (suc n) later)
        (cycle-eq sha256 show clip hmac json by_due id sink x b k c e)
        (round-Served sha256 show clip hmac json by_due id sink x b t later n fair
          (rounds-Served h l))

  next_cycle :
      {a : Db} {s n t : ℕ} {b : Db}
      → Rounds sha256 show clip hmac json by_due id sink a s n t b
      → (x : Conditions) (later : ℕ) → IsFair by_due id sink x t later b
      → (c : Db) × Rounds sha256 show clip hmac json by_due id sink a s (suc n) later c
  unfolding process_due_deliveries claim_due_deliveries
  next_cycle l x later fair = (_, round x later _ _ l fair refl)

  five_is_more : {n : ℕ} → n ≤ 4 → 5 ≤ n → ⊥
  five_is_more few enough = omega (arith, few, enough)

  five_rounds :
      (n t : ℕ) (b : Db)
      → Served sha256 show clip hmac json by_due id sink n t b
      → 5 ≤ n
      → IsEnded id b
  five_rounds n t b (there, (row, here, inl f)) enough = (row, here, f)
  five_rounds n t b (there, (row, here, inr (w, at, few, few', own))) enough =
      elim (five_is_more few' enough) [ ]

  -- A delivery that waits for an attempt within the longest backoff, and whose sink is there, is
  -- delivered or dead-lettered after any five fair cycles of the worker or more, whatever the receivers
  -- answer and whatever others do that leaves its row and its sink as they are. A cycle is fair if it
  -- begins at least the longest backoff after the one before is over, takes the delivery exactly when
  -- the delivery is due, and ends within its lease. After any fair cycles another never raises.
  pub Rounds-IsEnded :
      {a : Db} {s n t : ℕ} {b : Db}
      → IsQueued sink id s a
      → Rounds sha256 show clip hmac json by_due id sink a s n t b
      → (5 ≤ n → IsEnded id b)
        × ((x : Conditions) (later : ℕ)
            → IsFair by_due id sink x t later b
            → (c : Db) × Rounds sha256 show clip hmac json by_due id sink a s (suc n) later c)
  Rounds-IsEnded {n = n} {t = t} {b = b} (there, (row, here, waiting, at, own)) l = (
    five_rounds n t b
        (rounds-Served (there, (row, here, inr (waiting, at, omega arith, omega arith, own))) l),
    next_cycle l,
  )
