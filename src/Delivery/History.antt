-- ===== src/Delivery/History.antt =====
-- The attempts on record against the counts in the rows, over any sequence of store operations.
use text.Mathlib.TextPositions.{eq_refl}
use native.Mathlib.Numerals.{add-one}
use mathlib.Core.List.{append-nil}
use extrio.Base.{
  ℕ, zero, suc, ◌+◌, String, ◌≡◌, refl, subst, ◌∙◌, inl, inr, Bool, true, false, Option, none, some,
  List, [], ◌∷◌, ◌++◌, Bool-cases, Option-cases, arith, is_some, if◌then◌else◌, ◌=ₛ◌, eq_iff, take,
  ok,
}
use extrio.Delivery.Tables.{
  Delivery, Status, Attempt, Db, find_delivery, find_sink, update_delivery, find-update, map_found,
}
use extrio.Delivery.Store.{is_outcome, finalize_delivery}
use extrio.Delivery.Queue.{
  leased, lease_rows, select_due, claim_due_deliveries, reset, redeliver_delivery, marked_delivered,
  marked_dead_lettered, mark_delivery_delivered, mark_delivery_dead_lettered, enqueued,
  insert_or_ignore, enqueue_delivery, sink_version,
}
use extrio.Delivery.Finishing.{held, finalize_iff_held, IsFinished}

-- The numbers of a delivery's attempts, in the order of the record.
unfoldable pub history : String → List Attempt → List ℕ
history id [] = []
history id (a ∷ xs) =
    let rest = history id xs in if a.delivery_id =ₛ id then a.attempt_no ∷ rest else rest

-- 1, 2, ..., n
unfoldable pub up_to : ℕ → List ℕ
up_to zero = []
up_to (suc n) = up_to n ++ suc n ∷ []

-- What a row says of the number of attempts; a delivery with no row has had none.
abbrev pub count_of : Option Delivery → ℕ
count_of none = 0
count_of (some d) = d.attempt_count

-- Every delivery's attempts are on record, numbered from one, as many as its row counts.
abbrev pub IsRecorded : Db → Type 0
IsRecorded db =
    (id : String) → history id db.attempts ≡ up_to (count_of (find_delivery id db.deliveries))

history-append :
    (id : String) (xs bs : List Attempt) → history id (xs ++ bs) ≡ history id xs ++ history id bs
unfolding history
history-append id [] bs = refl
history-append id (a ∷ xs) bs = ground (arith, history-append id xs bs)

-- A write that keeps the id and the count keeps every count.
count-update :
    (id k : String) (f : Delivery → Delivery) (ds : List Delivery)
    → ((d : Delivery) → (f d).id ≡ d.id)
    → ((d : Delivery) → (f d).attempt_count ≡ d.attempt_count)
    → count_of (find_delivery k (update_delivery id f ds)) ≡ count_of (find_delivery k ds)
count-update id k f ds hid hcount =
    rw (find-update id k f ds hid) (pick (k =ₛ id) (find_delivery k ds))
  where
    pick : (t : Bool) (o : Option Delivery) → count_of (if t then map_found f o else o) ≡ count_of o
    pick true none = refl
    pick true (some d) = hcount d
    pick false o = refl

count-lease_rows :
    (now until : ℕ) (token : ℕ → String) (k : ℕ) (rows ds : List Delivery) (id : String)
    → count_of (find_delivery id (lease_rows now until token k rows ds).1)
      ≡ count_of (find_delivery id ds)
unfolding lease_rows
count-lease_rows now until token k [] ds id = refl
count-lease_rows now until token k (row ∷ rows) ds id =
    count-lease_rows now until token (k + 1) rows
      (update_delivery row.id (leased now until (token k)) ds) id
    ∙ count-update row.id id (leased now until (token k)) ds (λ d. refl) (λ d. refl)

count-insert :
    (new : Delivery) (ds : List Delivery) (id : String)
    → new.attempt_count ≡ 0
    → is_some (find_delivery new.id ds) ≡ false
    → count_of (find_delivery id (ds ++ new ∷ [])) ≡ count_of (find_delivery id ds)
unfolding find_delivery
count-insert new [] id z f = ground (arith, eq_iff new.id id)
count-insert new (d ∷ ds) id z f =
    ground (arith, eq_iff d.id id, eq_iff d.id new.id, eq_iff new.id id, count-insert new ds id z)

==-flip : (a b : String) → (b =ₛ a) ≡ (a =ₛ b)
==-flip a b = ground (arith, eq_iff a b, eq_iff b a)

module _ (sha256 : String → String) (show : ℕ → String) where
  finished-IsRecorded :
      (claimed row : Delivery) (status : Status) (code : Option ℕ) (error : Option String)
      (next : Option ℕ) (now : ℕ) (db db' : Db) (record_attempt : Bool)
      → IsRecorded db
      → find_delivery claimed.id db.deliveries ≡ some row
      → IsFinished sha256 show claimed status code error next now db record_attempt row db'
      → IsRecorded db'
  unfolding up_to history
  finished-IsRecorded claimed row status code error next now db db' true h f fin k =
      elim (Bool-cases (k =ₛ claimed.id)) [
        | inl e ↦
            rw ((eq_iff k claimed.id).0 e, fin.history, fin.finished_row)
              (simp (history-append, eq_refl, add-one, h claimed.id, f))
        | inr e ↦
            rw (fin.history, fin.other_rows k e)
              (simp (history-append, ==-flip k claimed.id, e, append-nil) (h k))
      ]
  finished-IsRecorded claimed row status code error next now db db' false h f fin k =
      elim (Bool-cases (k =ₛ claimed.id)) [
        | inl e ↦
            rw ((eq_iff k claimed.id).0 e, fin.history, fin.finished_row) (simp f at (h claimed.id))
        | inr e ↦ rw (fin.history, fin.other_rows k e) (h k)
      ]

  pub finalize-IsRecorded :
      (claimed : Delivery) (status : Status) (code : Option ℕ) (error : Option String)
      (next : Option ℕ) (record_attempt : Bool) (now : ℕ) (db db' : Db)
      → IsRecorded db
      → is_outcome status ≡ true
      → finalize_delivery sha256 show claimed status code error next record_attempt now db ≡ ok db'
      → IsRecorded db'
  finalize-IsRecorded claimed status code error next record_attempt now db db' h o e =
      let f =
        finalize_iff_held sha256 show claimed status code error next now db record_attempt o in
      elim (Bool-cases (held now claimed db)) [
        | inl y ↦
            let (row, done, found, e', fin) = f.0 y in
            let same : done ≡ db' = cc (e, e') in
            subst IsRecorded same (
              finished-IsRecorded claimed row status code error next now db done record_attempt h
                found fin)
        | inr n ↦ cc (e, f.1 n)
      ]

pub redeliver-IsRecorded :
    (id : String) (now : ℕ) (db db' : Db)
    → IsRecorded db
    → redeliver_delivery id now db ≡ ok db'
    → IsRecorded db'
unfolding redeliver_delivery
redeliver-IsRecorded id now db db' h e k =
    ground (arith, h k, count-update id k (reset now) db.deliveries)

pub mark_delivered-IsRecorded :
    (id : String) (now : ℕ) (db db' : Db)
    → IsRecorded db
    → mark_delivery_delivered id now db ≡ ok db'
    → IsRecorded db'
unfolding mark_delivery_delivered
mark_delivered-IsRecorded id now db db' h e k =
    ground (arith, h k, count-update id k (marked_delivered now) db.deliveries)

pub mark_dead_lettered-IsRecorded :
    (id : String) (error : Option String) (now : ℕ) (db db' : Db)
    → IsRecorded db
    → mark_delivery_dead_lettered id error now db ≡ ok db'
    → IsRecorded db'
unfolding mark_delivery_dead_lettered
mark_dead_lettered-IsRecorded id error now db db' h e k =
    ground (arith, h k, count-update id k (marked_dead_lettered error now) db.deliveries)

pub claim-IsRecorded :
    (by_due : List Delivery → List Delivery) (limit now lease_seconds : ℕ) (token : ℕ → String)
    (db db' : Db) (claimed : List Delivery)
    → IsRecorded db
    → claim_due_deliveries by_due limit now lease_seconds token db ≡ ok (claimed, db')
    → IsRecorded db'
unfolding claim_due_deliveries
claim-IsRecorded by_due limit now lease_seconds token db db' claimed h e k =
    let rows = take limit (by_due (select_due now db.sinks db.deliveries)) in
    ground (arith, h k, count-lease_rows now (now + lease_seconds) token 0 rows db.deliveries k)

count-insert_or_ignore :
    (new : Delivery) (ds : List Delivery) (id : String)
    → new.attempt_count ≡ 0
    → count_of (find_delivery id (insert_or_ignore new ds)) ≡ count_of (find_delivery id ds)
unfolding insert_or_ignore
count-insert_or_ignore new ds id z = elim (Bool-cases (is_some (find_delivery new.id ds))) [
  | inl y ↦ ground (arith, y)
  | inr n ↦ ground (arith, n, count-insert new ds id z n)
]

pub enqueue-IsRecorded :
    (sha256 : String → String) (show : ℕ → String) (collector_id sink_id item_event_id : String)
    (now : ℕ) (db db' : Db) (d : Delivery)
    → IsRecorded db
    → enqueue_delivery sha256 show collector_id sink_id item_event_id now db ≡ ok (d, db')
    → IsRecorded db'
unfolding enqueue_delivery
enqueue-IsRecorded sha256 show collector_id sink_id item_event_id now db db' d h e k =
    elim (Option-cases (find_sink sink_id db.sinks)) [
      | inl f ↦ ground (arith, f)
      | inr (s, f) ↦ ground (
        arith,
        f,
        h k,
        count-insert_or_ignore
            (enqueued sha256 show collector_id sink_id item_event_id (sink_version sha256 show s)
              now)
            db.deliveries k refl,
      )
    ]
