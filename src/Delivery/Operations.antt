-- ===== src/Delivery/Operations.antt =====
-- The store's operations on deliveries, in any order and at any instants.
use extrio.Base.{ℕ, String, ◌≡◌, Bool, true, Option, List, ok}
use extrio.Delivery.Tables.{Delivery, Status, Db}
use extrio.Delivery.Store.{is_outcome, finalize_delivery}
use extrio.Delivery.Queue.{
  claim_due_deliveries, redeliver_delivery, mark_delivery_delivered, mark_delivery_dead_lettered,
  enqueue_delivery,
}
use extrio.Delivery.History.{
  IsRecorded, finalize-IsRecorded, redeliver-IsRecorded, mark_delivered-IsRecorded,
  mark_dead_lettered-IsRecorded, claim-IsRecorded, enqueue-IsRecorded,
}

module _ (sha256 : String → String) (show : ℕ → String)
    (by_due : List Delivery → List Delivery) where
  -- `Reaches a b`: operations that return, one after the other, turn the tables `a` into `b`. An
  -- operation that raises rolls back, and is no step.
  pub data Reaches (a : Db) : Db → Type 0 where
    here : Reaches a a
    enqueue :
        {b c : Db} (collector_id sink_id item_event_id : String) (now : ℕ) (d : Delivery)
        → Reaches a b
        → enqueue_delivery sha256 show collector_id sink_id item_event_id now b ≡ ok (d, c)
        → Reaches a c
    claim :
        {b c : Db} (limit now lease_seconds : ℕ) (token : ℕ → String) (claimed : List Delivery)
        → Reaches a b
        → claim_due_deliveries by_due limit now lease_seconds token b ≡ ok (claimed, c)
        → Reaches a c
    finalize :
        {b c : Db} (d : Delivery) (status : Status) (code : Option ℕ) (error : Option String)
        (next : Option ℕ) (record_attempt : Bool) (now : ℕ)
        → Reaches a b
        → is_outcome status ≡ true
        → finalize_delivery sha256 show d status code error next record_attempt now b ≡ ok c
        → Reaches a c
    redeliver :
        {b c : Db} (id : String) (now : ℕ)
        → Reaches a b
        → redeliver_delivery id now b ≡ ok c
        → Reaches a c
    mark_delivered :
        {b c : Db} (id : String) (now : ℕ)
        → Reaches a b
        → mark_delivery_delivered id now b ≡ ok c
        → Reaches a c
    mark_dead_lettered :
        {b c : Db} (id : String) (error : Option String) (now : ℕ)
        → Reaches a b
        → mark_delivery_dead_lettered id error now b ≡ ok c
        → Reaches a c

  -- From tables in which every delivery's attempts are on record, numbered from one without a gap and
  -- as many as its row counts, any sequence of enqueueing, claiming, finishing, marking
  -- and redelivering leads only to such tables.
  pub Reaches-IsRecorded : {a b : Db} → IsRecorded a → Reaches a b → IsRecorded b
  Reaches-IsRecorded h here = h
  Reaches-IsRecorded h (enqueue {b = b} {c = c} collector sink event now d l e) =
      enqueue-IsRecorded sha256 show collector sink event now b c d (Reaches-IsRecorded h l) e
  Reaches-IsRecorded h (claim {b = b} {c = c} limit now lease token claimed l e) =
      claim-IsRecorded by_due limit now lease token b c claimed (Reaches-IsRecorded h l) e
  Reaches-IsRecorded h (finalize {b = b} {c = c} d status code error next attempt now l o e) =
      finalize-IsRecorded sha256 show d status code error next attempt now b c
        (Reaches-IsRecorded h l) o e
  Reaches-IsRecorded h (redeliver {b = b} {c = c} id now l e) =
      redeliver-IsRecorded id now b c (Reaches-IsRecorded h l) e
  Reaches-IsRecorded h (mark_delivered {b = b} {c = c} id now l e) =
      mark_delivered-IsRecorded id now b c (Reaches-IsRecorded h l) e
  Reaches-IsRecorded h (mark_dead_lettered {b = b} {c = c} id error now l e) =
      mark_dead_lettered-IsRecorded id error now b c (Reaches-IsRecorded h l) e
