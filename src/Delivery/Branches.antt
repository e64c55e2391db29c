-- ===== src/Delivery/Branches.antt =====
-- The ends that a dispatch can come to: what `process` does in each.
use Prim.Native.String.{◌++◌ as ◌++ₛ◌}
use extrio.Base.{
  ℕ, String, ◌≡◌, refl, sym, false, Option, none, some, [], ◌∷◌, Outcome, ok, err, subst, inl, inr,
  ◌⊎◌,
}
use extrio.Delivery.Tables.{Delivery, Sink, Db, find_sink}
use extrio.Delivery.Store.{StoreError, check_delivery_lease}
use extrio.Delivery.Dispatch.{
  Item, Payload, Request, Dispatch, outcome_error, dead_letter, record_failure, conclude, refusal,
  build_payload, request_for, deliver_to, process, secret_for,
}

-- Why nothing was sent, or what was sent.
pub data End : Type 0 where
  lost : End
  unreadable : End
  refused : (why : String) → End
  posted : (s : Sink) (secret : String) (payload : Payload) → End

Outcome-cases : (x : Outcome StoreError (Unit {0})) → (x ≡ ok tt) ⊎ ((e : StoreError) × (x ≡ err e))
Outcome-cases (ok _) = inl refl
Outcome-cases (err e) = inr (e, refl)

module _ (sha256 : String → String) (show : ℕ → String) (clip : String → String)
    (hmac : String → String → String) (json : Payload → String) (secret_of : Sink → Option String)
    (get_item : String → Option Item) (respond : Request → Option ℕ) (d : Delivery) (now later : ℕ)
    (meanwhile : Db → Db) (db : Db) where
  -- the dispatch that an end stands for
  abbrev pub dispatch_of : End → Dispatch
  dispatch_of lost = record { outcome = outcome_error; sent = []; db = db }
  dispatch_of unreadable =
      record_failure sha256 show clip d none (clip "dispatcher error") [] now db
  dispatch_of (refused why) = dead_letter sha256 show clip d why none false [] now db
  dispatch_of (posted s secret payload) =
      let request =
        request_for sha256 show clip hmac json secret_of get_item respond d s secret payload in
      conclude sha256 show clip d (respond request) (request ∷ []) later (meanwhile db)

  -- when the lease is lost, and when a request is posted
  abbrev pub Occurs : End → Type 0
  Occurs lost = (e : StoreError) × (check_delivery_lease now d db ≡ err e)
  Occurs (posted s secret payload) =
      (check_delivery_lease now d db ≡ ok tt)
      × (find_sink d.sink_id db.sinks ≡ some s)
      × (secret_of s ≡ some secret)
      × (refusal sha256 show clip (some s) d ≡ none)
      × (build_payload get_item now d ≡ some payload)
  Occurs _ = Unit {0}

  abbrev Dispatches : Dispatch → Type 0
  Dispatches x = (e : End) × (x ≡ dispatch_of e) × Occurs e

  posts :
      (s : Sink) (secret : String) (p : Option Payload)
      → check_delivery_lease now d db ≡ ok tt
      → find_sink d.sink_id db.sinks ≡ some s
      → secret_of s ≡ some secret
      → refusal sha256 show clip (some s) d ≡ none
      → build_payload get_item now d ≡ p
      → Dispatches (
          deliver_to sha256 show clip hmac json secret_of get_item respond d
            (some s)
            secret
            now
            later
            meanwhile
            db)
  unfolding deliver_to
  posts s secret none c f g r b =
      (refused ("referenced item " ++ₛ d.item_event_id ++ₛ " not found"), rw (r, b, deliver_to), tt)
  posts s secret (some p) c f g r b = (posted s secret p, rw (r, b, deliver_to), (c, f, g, r, b))

  with_sink :
      (s : Sink) (secret : String) (why : Option String)
      → check_delivery_lease now d db ≡ ok tt
      → find_sink d.sink_id db.sinks ≡ some s
      → secret_of s ≡ some secret
      → refusal sha256 show clip (some s) d ≡ why
      → Dispatches (
          deliver_to sha256 show clip hmac json secret_of get_item respond d
            (some s)
            secret
            now
            later
            meanwhile
            db)
  unfolding deliver_to
  with_sink s secret none c f g r = posts s secret (build_payload get_item now d) c f g r refl
  with_sink s secret (some why) c f g r = (refused why, rw (r, deliver_to), tt)

  process_ends :
      (o : Option Sink) (secret : Option String)
      → check_delivery_lease now d db ≡ ok tt
      → find_sink d.sink_id db.sinks ≡ o
      → secret_for sha256 show clip hmac json secret_of get_item respond o ≡ secret
      → Dispatches
          (process sha256 show clip hmac json secret_of get_item respond d now later meanwhile db)
  unfolding process deliver_to
  process_ends o none c f g = (unreadable, rw (c, f, g, process), tt)
  process_ends none (some secret) c f g =
      (refused "sink deleted before delivery", rw (c, f, process) (simp f), tt)
  process_ends (some s) (some secret) c f g =
      let same : process sha256 show clip hmac json secret_of get_item respond d now later meanwhile
            db
          ≡ deliver_to sha256 show clip hmac json secret_of get_item respond d (some s) secret now
              later meanwhile db =
        rw (c, f, g, process) (simp f) in
      subst Dispatches (sym same) (with_sink s secret _ c f g refl)

  -- A dispatch comes to one of four ends, and only one of them posts a request.
  pub process_end :
      Dispatches
        (process sha256 show clip hmac json secret_of get_item respond d now later meanwhile db)
  unfolding process
  process_end = elim (Outcome-cases (check_delivery_lease now d db)) [
    | inl c ↦ process_ends _ _ c refl refl
    | inr (e, c) ↦ (lost, rw (c, process), (e, c))
  ]
