-- ===== src/Delivery/Rounds.antt =====
-- One delivery over the worker's delivery cycles, whatever happens to the others between them.
use extrio.Base.{
  ℕ, suc, ◌+◌, ◌≤◌, ◌<◌, String, ◌≡◌, true, false, ◌&&◌, Option, List, [], ◌∷◌, some, All, ok, take,
  ◌=ₛ◌,
}
use extrio.Delivery.Tables.{Delivery, Sink, Db, find_delivery}
use extrio.Delivery.Store.{is_due}
use extrio.Delivery.Queue.{select_due}
use extrio.Delivery.Dispatch.{Item, Payload, Request}
use extrio.Delivery.Effects.{has_sink, longest_backoff}
use extrio.Delivery.Cycle.{delivery_batch_limit, process_due_deliveries}

-- what a cycle meets: its instants, its tokens, the secrets, the items and the receivers
pub record Conditions : Type 0 where
  pub now : ℕ
  pub lease_seconds : ℕ
  pub token : ℕ → String
  pub started : Delivery → ℕ
  pub finished : Delivery → ℕ
  pub meanwhile : Delivery → Db → Db
  pub secret_of : Sink → Option String
  pub get_item : String → Option Item
  pub respond : Request → Option ℕ

module _ (by_due : List Delivery → List Delivery) where
  -- the rows that the claim of a cycle takes
  abbrev pub batch : ℕ → Db → List Delivery
  batch now db = take delivery_batch_limit (by_due (select_due now db.sinks db.deliveries))

module _ (id sink : String) where
  -- the delivery's row and its sink stay as they are
  abbrev pub Untouched : Db → Db → Type 0
  Untouched b c =
      (find_delivery id c.deliveries ≡ find_delivery id b.deliveries)
      × (has_sink sink c ≡ has_sink sink b)

module _ (by_due : List Delivery → List Delivery) (id sink : String) where
  -- A cycle that begins at least the longest backoff after `t` and is over by `later`. Its claim takes
  -- the delivery if it is due, and only other deliveries if it is not; the lease outlasts the dispatch,
  -- during which no one else writes the delivery or its sink.
  pub record IsFair (x : Conditions) (t later : ℕ) (b : Db) : Type 0 where
    pub spaced : t + longest_backoff ≤ x.now
    pub taken :
        (row : Delivery)
        → find_delivery id b.deliveries ≡ some row
        → (is_due x.now row && has_sink row.sink_id b) ≡ true
        → batch by_due x.now b ≡ row ∷ []
    pub not_taken :
        (row : Delivery)
        → find_delivery id b.deliveries ≡ some row
        → (is_due x.now row && has_sink row.sink_id b) ≡ false
        → All (λ d. (id =ₛ d.id) ≡ false) (batch by_due x.now b)
    pub in_time :
        (d : Delivery)
        → (x.started d ≤ x.finished d)
          × (x.finished d < x.now + x.lease_seconds)
          × (x.finished d ≤ later)
    pub apart : (d : Delivery) (c : Db) → Untouched id sink c (x.meanwhile d c)

module _ (sha256 : String → String) (show : ℕ → String) (clip : String → String)
    (hmac : String → String → String) (json : Payload → String)
    (by_due : List Delivery → List Delivery) (id sink : String) where
  -- `Rounds a s n t b`: from the tables `a` at `s`, `n` fair cycles that are over by `t` and what
  -- others do between them lead to the tables `b`.
  pub data Rounds (a : Db) (s : ℕ) : ℕ → ℕ → Db → Type 0 where
    start : Rounds a s 0 s a
    others :
        {n t : ℕ} {b : Db} (c : Db) → Rounds a s n t b → Untouched id sink b c → Rounds a s n t c
    round :
        {n t : ℕ} {b : Db} (x : Conditions) (later k : ℕ) (c : Db)
        → Rounds a s n t b
        → IsFair by_due id sink x t later b
        → process_due_deliveries sha256 show clip hmac json x.secret_of x.get_item x.respond by_due
            x.now x.lease_seconds x.token x.started x.finished x.meanwhile b
          ≡ ok (k, c)
        → Rounds a s (suc n) later c
