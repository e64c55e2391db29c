-- ===== src/Delivery/Cycle.antt =====
-- The worker's delivery cycle: delivery.py `process_batch` and worker.py `process_due_deliveries`.
use extrio.Base.{ℕ, String, Option, List, [], ◌∷◌, length, Outcome, ok, ◌>>=◌}
use extrio.Delivery.Tables.{Delivery, Sink, Db}
use extrio.Delivery.Store.{StoreError}
use extrio.Delivery.Queue.{claim_due_deliveries}
use extrio.Delivery.Dispatch.{Item, Payload, Request, Result, process}

-- DELIVERY_BATCH_LIMIT
abbrev pub delivery_batch_limit : ℕ
delivery_batch_limit = 1

module _ (sha256 : String → String) (show : ℕ → String) (clip : String → String)
    (hmac : String → String → String) (json : Payload → String) (secret_of : Sink → Option String)
    (get_item : String → Option Item) (respond : Request → Option ℕ) where
  -- the outcomes of the claimed deliveries, one after the other: `started`, `finished` and
  -- `meanwhile` say of each when it is taken up, when its response is there, and what others do
  unfoldable pub process_batch :
      (Delivery → ℕ) → (Delivery → ℕ) → (Delivery → Db → Db) → List Delivery → Db → List Result × Db
  process_batch started finished meanwhile [] db = ([], db)
  process_batch started finished meanwhile (d ∷ ds) db =
      let x =
        process sha256 show clip hmac json secret_of get_item respond d (started d) (finished d)
          (meanwhile d) db in
      let (outcomes, db') = process_batch started finished meanwhile ds x.db in
      (x.outcome ∷ outcomes, db')

  -- how many deliveries were claimed, and the tables after their dispatch
  unfoldable pub process_due_deliveries :
      (List Delivery → List Delivery)
      → ℕ
      → ℕ
      → (ℕ → String)
      → (Delivery → ℕ)
      → (Delivery → ℕ)
      → (Delivery → Db → Db)
      → Db
      → Outcome StoreError (ℕ × Db)
  process_due_deliveries by_due now lease_seconds token started finished meanwhile db = do
    (claimed, db') ← claim_due_deliveries by_due delivery_batch_limit now lease_seconds token db
    ok (length claimed, (process_batch started finished meanwhile claimed db').1)
