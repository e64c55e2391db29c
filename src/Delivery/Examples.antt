-- ===== src/Delivery/Examples.antt =====
-- One delivery from the queue to its receiver, and the theorems applied to it.
use Prim.Native.String.{count, ◌++◌ as ◌++ₛ◌}
use text.Mathlib.TextLemmas.{length-append}
use extrio.Base.{
  inl, ◌∙◌, Outcome, Bool, ap, subst, sym, ◌&&◌, take, if◌then◌else◌, ◌=ₛ◌, ◌*◌, ℕ, ◌+◌, ◌≤◌,
  String, arith, ◌≡◌, refl, ◌⊎◌, true, false, Option, none, some, List, [], ◌∷◌, All, ok, err, zero,
  suc,
}
use extrio.Delivery.Tables.{Delivery, Sink, Db, find_delivery, find_sink, update_delivery}
use extrio.Delivery.Store.{
  StoreError, finalize_delivery, check_delivery_lease, record_delivery_attempt, write_outcome,
}
use extrio.Delivery.Queue.{
  enqueue_delivery, enqueued, insert_or_ignore, find_event, claim_due_deliveries, lease_rows,
  leased, select_due,
}
use extrio.Delivery.Dispatch.{
  Item, Payload, Request, Dispatch, process, deliver_to, conclude, record_failure, dead_letter,
  refusal, build_payload, is_test_delivery, outcome_delivered,
}
use extrio.Delivery.History.{IsRecorded, history, up_to}
use extrio.Delivery.Operations.{here, enqueue, claim, Reaches-IsRecorded}
use extrio.Delivery.Outcomes.{Reports, process_reports}
use extrio.Delivery.Requests.{IsPosted, process-Sends}
use extrio.Delivery.Cycle.{process_due_deliveries, process_batch}
use extrio.Delivery.Store.{is_due}
use extrio.Delivery.Effects.{has_sink}
use extrio.Delivery.Sinks.{update_sink, update_row, lock_collector, validate_stored_credentials}
use extrio.Delivery.Replaced.{replaced_unsent, stay}
use extrio.Delivery.Rounds.{batch, Conditions, IsFair, Rounds, start, round}
use extrio.Delivery.Ends.{IsQueued, IsEnded, Rounds-IsEnded}

abbrev digest : String → String
digest s = s

abbrev show : ℕ → String
show zero = "0"
show (suc n) = "1"

abbrev clip : String → String
clip s = s

abbrev hmac : String → String → String
hmac body secret = body ++ₛ secret

abbrev json : Payload → String
json p = "{}"

abbrev secret_of : Sink → Option String
secret_of s = some s.secret

abbrev get_item : String → Option Item
get_item id =
    some (record { id = id; collector_id = none; collector_name = some "news"; rest = "" })

abbrev respond : Request → Option ℕ
respond r = some 204

abbrev by_due : List Delivery → List Delivery
by_due ds = ds

abbrev token : ℕ → String
token n = "token"

abbrev unchanged : Db → Db
unchanged db = db

abbrev sink : Sink
sink = record {
  id = "sink";
  collector_id = "source";
  kind = "webhook";
  url = "https://b.example";
  enabled = true;
  version = 1;
  secret = "key";
}

abbrev empty_queue : Db
empty_queue = record { deliveries = []; attempts = []; sinks = sink ∷ [] }

abbrev queued : Delivery
queued = enqueued digest show "source" "sink" "event" "sink#v1" 10

abbrev one_queued : Db
one_queued = record { deliveries = queued ∷ []; attempts = []; sinks = sink ∷ [] }

abbrev taken : Delivery
taken = leased 20 140 "token" queued

abbrev one_taken : Db
one_taken = record { deliveries = taken ∷ []; attempts = []; sinks = sink ∷ [] }

enqueued_once :
    enqueue_delivery digest show "source" "sink" "event" 10 empty_queue ≡ ok (queued, one_queued)
unfolding enqueue_delivery insert_or_ignore find_event find_delivery find_sink
enqueued_once = refl

claimed_once : claim_due_deliveries by_due 1 20 120 token one_queued ≡ ok (taken ∷ [], one_taken)
unfolding claim_due_deliveries select_due lease_rows update_delivery find_sink
claimed_once = refl

abbrev dispatch : Dispatch
dispatch =
    process digest show clip hmac json secret_of get_item respond taken 30 40 unchanged one_taken

dispatched : dispatch.outcome ≡ outcome_delivered
unfolding process deliver_to conclude refusal build_payload is_test_delivery finalize_delivery
    check_delivery_lease record_delivery_attempt write_outcome update_delivery find_delivery
    find_sink
dispatched = refl

none-IsRecorded : IsRecorded empty_queue
unfolding history up_to find_delivery
none-IsRecorded id = refl

Reaches-IsRecorded_example : IsRecorded one_taken
Reaches-IsRecorded_example = Reaches-IsRecorded digest show by_due none-IsRecorded (
    claim 1 20 120 token (taken ∷ []) (enqueue "source" "sink" "event" 10 queued here enqueued_once)
      claimed_once)

process_reports_example : Reports taken 30 one_taken dispatch ⊎ Reports taken 40 one_taken dispatch
process_reports_example =
    process_reports digest show clip hmac json secret_of get_item respond taken 30 40 unchanged
      one_taken

process-Sends_example :
    (dispatch.sent ≡ [])
    ⊎ IsPosted digest show clip hmac json secret_of get_item respond taken 30 40 unchanged one_taken
        dispatch.sent
process-Sends_example =
    process-Sends digest show clip hmac json secret_of get_item respond taken 30 40 unchanged
      one_taken

-- a receiver that is down, met once a day
abbrev daily : ℕ → Conditions
daily n = record {
  now = n * 86400;
  lease_seconds = 120;
  token = token;
  started = λ d. n * 86400 + 1;
  finished = λ d. n * 86400 + 2;
  meanwhile = λ d. unchanged;
  secret_of = secret_of;
  get_item = get_item;
  respond = λ r. some 503;
}

abbrev cycle : ℕ → Db → Outcome StoreError (ℕ × Db)
cycle n b =
    let x = daily n in
    process_due_deliveries digest show clip hmac json x.secret_of x.get_item x.respond by_due x.now
      x.lease_seconds x.token x.started x.finished x.meanwhile b

abbrev after_cycle : Outcome StoreError (ℕ × Db) → Db
after_cycle (ok (k, c)) = c
after_cycle (err e) = empty_queue

abbrev day : ℕ → Db
day zero = one_queued
day (suc n) = after_cycle (cycle (suc n) (day n))

daily-IsFair :
    (n : ℕ) (b : Db) (row : Delivery)
    → b.deliveries ≡ row ∷ []
    → b.sinks ≡ sink ∷ []
    → (row.id =ₛ queued.id) ≡ true
    → IsFair by_due queued.id "sink" (daily (suc n)) (n * 86400 + 2) (suc n * 86400 + 2) b
unfolding select_due find_delivery find_sink
daily-IsFair n b row one sinks own' = record {
  spaced = omega arith;
  taken = λ r e due.
      let same = the_row r e in
      subst (λ q. batch by_due now b ≡ q ∷ []) (sym same)
        (ap (take 1)
          (selected true (subst (λ q. (is_due now q && has_sink q.sink_id b) ≡ true) same due)));
  not_taken = λ r e idle.
      let same = the_row r e in
      subst (λ ds. All (λ d. (queued.id =ₛ d.id) ≡ false) (take 1 ds))
        (sym
          (selected false (subst (λ q. (is_due now q && has_sink q.sink_id b) ≡ false) same idle)))
        tt;
  in_time = λ d. (omega arith, omega arith, omega arith);
  apart = λ d c. (refl, refl);
}
  where
    now : ℕ
    now = suc n * 86400

    the_row : (r : Delivery) → find_delivery queued.id b.deliveries ≡ some r → r ≡ row
    the_row r e = ground (arith, e, one, own')

    selected :
        (z : Bool)
        → (is_due now row && has_sink row.sink_id b) ≡ z
        → select_due now b.sinks b.deliveries ≡ (if z then row ∷ [] else [])
    selected z h = rw one (rw h refl)

abbrev Daily : ℕ → Db → Type 0
Daily n b =
    Rounds digest show clip hmac json by_due queued.id "sink" one_queued 2 n (n * 86400 + 2) b

next_day :
    (n : ℕ) (b : Db) (row : Delivery) (k : ℕ)
    → Daily n b
    → b.deliveries ≡ row ∷ []
    → b.sinks ≡ sink ∷ []
    → (row.id =ₛ queued.id) ≡ true
    → cycle (suc n) b ≡ ok (k, after_cycle (cycle (suc n) b))
    → Daily (suc n) (after_cycle (cycle (suc n) b))
next_day n b row k l one sinks own e =
    round (daily (suc n)) _ k _ l (daily-IsFair n b row one sinks own) e

fifth_day : Daily 5 (day 5)
unfolding process_due_deliveries process_batch claim_due_deliveries select_due lease_rows process
    deliver_to conclude refusal build_payload is_test_delivery finalize_delivery
    check_delivery_lease record_delivery_attempt write_outcome update_delivery find_delivery
    find_sink record_failure dead_letter
fifth_day =
    next_day 4 (day 4) _ 1
      (next_day 3 (day 3) _ 1
        (next_day 2 (day 2) _ 1
          (next_day 1 (day 1) _ 1 (next_day 0 (day 0) _ 1 start refl refl refl refl) refl refl refl
            refl)
          refl refl refl refl)
        refl refl refl refl)
      refl refl refl refl

one-IsQueued : IsQueued "sink" queued.id 2 one_queued
unfolding find_sink find_delivery
one-IsQueued = (refl, (queued, refl, refl, (10, refl, omega arith), refl))

Rounds-IsEnded_example :
    (5 ≤ 5 → IsEnded queued.id (day 5))
    × ((x : Conditions) (later : ℕ)
        → IsFair by_due queued.id "sink" x 432002 later (day 5)
        → (c : Db) × Rounds digest show clip hmac json by_due queued.id "sink" one_queued 2 6 later
            c)
Rounds-IsEnded_example =
    Rounds-IsEnded digest show clip hmac json by_due queued.id "sink" one-IsQueued fifth_day

-- a number as so many strokes
abbrev strokes : ℕ → String
strokes zero = ""
strokes (suc n) = "1" ++ₛ strokes n

count-strokes : (n : ℕ) → count (strokes n) ≡ n
count-strokes zero = refl
count-strokes (suc n) = omega (arith, length-append "1" (strokes n), count-strokes n)

strokes_differ : (m n : ℕ) → strokes m ≡ strokes n → m ≡ n
strokes_differ m n e = sym (count-strokes m) ∙ ap count e ∙ count-strokes n

abbrev moved_sink : Db
moved_sink = record {
  deliveries = taken ∷ [];
  attempts = [];
  sinks = record sink { url = "https://c.example"; version = 2 } ∷ [];
}

moves :
    update_sink
      (λ id. true)
      digest
      (λ t. true)
      []
      "sink"
      false
      (some "https://c.example")
      none
      none
      one_taken
    ≡ ok moved_sink
unfolding update_sink update_row lock_collector validate_stored_credentials find_sink
moves = refl

replaced_unsent_example :
    (process digest strokes clip hmac json secret_of get_item respond taken 30 40 unchanged
      moved_sink).sent
    ≡ []
unfolding find_sink
replaced_unsent_example =
    replaced_unsent (λ id. true) digest (λ t. true) [] digest strokes clip hmac json secret_of
      get_item respond strokes_differ taken one_taken moved_sink moved_sink sink 30 40 unchanged
      refl refl (inl (false, some "https://c.example", none, none, moves)) stay
