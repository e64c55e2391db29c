-- ===== src/Delivery/Dispatch.antt =====
-- delivery.py: the dispatcher. What it cannot read itself are parameters: `json` serialises a
-- payload, `hmac` signs, `sha256` digests, `show` prints a number and `clip` cuts a text to 300
-- characters; `secret_of` reads a sink's secret, which fails where it cannot be decrypted; `get_item`
-- looks an item up; and `respond` is the receiver, with `none` for a request that fails. A row
-- that is claimed carries no data, so the test of `data.kind` in `is_test_delivery` has no part here.
use Prim.Native.String.{◌++◌ as ◌++ₛ◌}
use text.Mathlib.Text.{starts_with}
use extrio.Base.{
  ℕ, zero, suc, ◌+◌, String, Bool, true, false, ◌&&◌, ◌||◌, not, Option, none, some, List, [], ◌∷◌,
  ltb, leb, ◌==◌, ◌=ₛ◌, if◌then◌else◌, Outcome, ok, err,
}
use extrio.Delivery.Tables.{Delivery, Sink, Db, find_sink, delivered, failed, dead_lettered}
use extrio.Delivery.Store.{StoreError, check_delivery_lease, finalize_delivery}

abbrev pub max_delivery_attempts : ℕ
max_delivery_attempts = 5

-- BACKOFF_SCHEDULE_SECONDS, at `min(attempt_no, 5) - 1`; Python's index -1 is the last entry
abbrev pub backoff_seconds : ℕ → ℕ
backoff_seconds zero = 21600
backoff_seconds (suc zero) = 60
backoff_seconds (suc (suc zero)) = 300
backoff_seconds (suc (suc (suc zero))) = 1800
backoff_seconds (suc (suc (suc (suc zero)))) = 7200
backoff_seconds (suc (suc (suc (suc (suc n))))) = 21600

pub record Item : Type 0 where
  pub id : String
  pub collector_id : Option String
  pub collector_name : Option String
  pub rest : String  -- the values that the payload copies as they are

pub data Payload : Type 0 where
  test_payload : (delivery_id sink_id collector_id : String) (sent_at : ℕ) → Payload
  event_payload :
      (delivery_id event_id collector_id collector_name : String) (rest : String) → Payload

unfoldable pub is_test_delivery : Delivery → Bool
is_test_delivery d = (d.item_event_id =ₛ "test") || starts_with d.item_event_id "test_"

-- the first text that is there and not empty, as `a or b` reads it
abbrev pub or_text : Option String → String → String
or_text none d = d
or_text (some t) d = if t =ₛ "" then d else t

unfoldable pub build_payload : (String → Option Item) → ℕ → Delivery → Option Payload
unfolding is_test_delivery
build_payload get_item now d =
    if is_test_delivery d
    then some (test_payload d.id d.sink_id d.collector_id now)
    else elim (get_item d.item_event_id) [
      | none ↦ none
      | some item ↦ some (
          event_payload d.id item.id (or_text item.collector_id d.collector_id)
            (or_text item.collector_name "") item.rest)
    ]

pub record Request : Type 0 where
  pub url : String
  pub body : String
  pub signature : String
  pub delivery_id : String
  pub idempotency_key : String
  pub content_digest : String

pub data Result : Type 0 where
  outcome_delivered outcome_retry_scheduled outcome_dead_lettered outcome_error : Result

-- What a dispatch did: its outcome, the requests it sent, and the database after it.
pub record Dispatch : Type 0 where
  pub outcome : Result
  pub sent : List Request
  pub db : Db

-- `_post`: the status code, if there was a response, and whether the receiver accepted
abbrev pub accepted : ℕ → Bool
accepted code = leb 200 code && ltb code 300

-- a response that no retry will change
abbrev pub rejected : ℕ → Bool
rejected code = leb 400 code && ltb code 500 && not (code == 429)

-- the outcome once the store has been asked; `JobLeaseLost` ends in an error outcome
abbrev pub concluded : Result → List Request → Db → Outcome StoreError Db → Dispatch
concluded result sent db (ok db') = record { outcome = result; sent = sent; db = db' }
concluded result sent db (err e) = record { outcome = outcome_error; sent = sent; db = db }

module _ (sha256 : String → String) (show : ℕ → String) (clip : String → String) where
  unfoldable pub dead_letter :
      Delivery → String → Option ℕ → Bool → List Request → ℕ → Db → Dispatch
  dead_letter d error status_code record_attempt sent now db =
      concluded outcome_dead_lettered sent db (
        finalize_delivery sha256 show d dead_lettered status_code (some (clip error)) none
          record_attempt now db)

  unfoldable pub record_failure : Delivery → Option ℕ → String → List Request → ℕ → Db → Dispatch
  record_failure d status_code error sent now db =
      if leb max_delivery_attempts d.cycle_attempts
      then dead_letter d error status_code true sent now db
      else concluded outcome_retry_scheduled sent db (
          finalize_delivery sha256 show d failed status_code (some (clip error))
            (some (now + backoff_seconds d.cycle_attempts)) true now db)

  -- the end of `_deliver`, with what `_post` returned
  unfoldable pub conclude : Delivery → Option ℕ → List Request → ℕ → Db → Dispatch
  conclude d none sent now db = record_failure d none (clip "request failed") sent now db
  conclude d (some code) sent now db =
      if accepted code
      then concluded outcome_delivered sent db
          (finalize_delivery sha256 show d delivered (some code) none none true now db)
      else if rejected code
      then dead_letter d ("unexpected response status " ++ₛ show code) (some code) true sent now db
      else record_failure d (some code) ("unexpected response status " ++ₛ show code) sent now db

  -- the checks of `_deliver` on its sink, in their order: why the delivery is dead-lettered
  unfoldable pub refusal : Option Sink → Delivery → Option String
  refusal none d = some "sink deleted before delivery"
  refusal (some s) d =
      if not s.enabled
      then some "sink disabled before delivery"
      else if not (s.kind =ₛ "webhook")
      then some ("unsupported sink type: " ++ₛ s.kind)
      else if not (d.sink_version_id =ₛ (d.sink_id ++ₛ "#v" ++ₛ show s.version))
      then some "sink version changed before delivery"
      else if ltb max_delivery_attempts d.cycle_attempts
      then some ("exceeded " ++ₛ show max_delivery_attempts ++ₛ " delivery attempts")
      else none

module _ (sha256 : String → String) (show : ℕ → String) (clip : String → String)
    (hmac : String → String → String) (json : Payload → String) (secret_of : Sink → Option String)
    (get_item : String → Option Item) (respond : Request → Option ℕ) where
  -- the one body that is signed, digested and sent
  abbrev pub request_for : Delivery → Sink → String → Payload → Request
  request_for d s secret payload =
      let body = json payload in
      record {
        url = s.url;
        body = body;
        signature = "sha256=" ++ₛ hmac body secret;
        delivery_id = d.id;
        idempotency_key = d.id;
        content_digest = "sha256=" ++ₛ sha256 body;
      }

  -- `_deliver` with its sink at hand. The request goes out at `now`; `meanwhile` is what others do to
  -- the database until its response is there, at `later`.
  unfoldable pub deliver_to : Delivery → Option Sink → String → ℕ → ℕ → (Db → Db) → Db → Dispatch
  deliver_to d none secret now later meanwhile db =
      dead_letter sha256 show clip d "sink deleted before delivery" none false [] now db
  deliver_to d (some s) secret now later meanwhile db = elim (refusal sha256 show clip (some s) d) [
    | some why ↦ dead_letter sha256 show clip d why none false [] now db
    | none ↦ elim (build_payload get_item now d) [
      | none ↦
          dead_letter sha256 show clip d ("referenced item " ++ₛ d.item_event_id ++ₛ " not found")
            none false [] now db
      | some payload ↦
          let request = request_for d s secret payload in
          conclude sha256 show clip d (respond request) (request ∷ []) later (meanwhile db)
    ]
  ]

  -- the secret that `get_sink` reads; a delivery without its sink has none
  abbrev pub secret_for : Option Sink → Option String
  secret_for none = some ""
  secret_for (some s) = secret_of s

  -- `process`, which never raises
  unfoldable pub process : Delivery → ℕ → ℕ → (Db → Db) → Db → Dispatch
  process d now later meanwhile db = elim (check_delivery_lease now d db) [
    | err e ↦ record { outcome = outcome_error; sent = []; db = db }
    | ok _ ↦ elim (secret_for (find_sink d.sink_id db.sinks)) [
      | none ↦ record_failure sha256 show clip d none (clip "dispatcher error") [] now db
      | some secret ↦ deliver_to d (find_sink d.sink_id db.sinks) secret now later meanwhile db
    ]
  ]
