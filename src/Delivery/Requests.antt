-- ===== src/Delivery/Requests.antt =====
-- What the dispatcher sends, and when.
use Prim.Native.String.{◌++◌ as ◌++ₛ◌}
use extrio.Base.{
  ℕ, ◌≤◌, String, ◌≡◌, refl, sym, ◌⊎◌, inl, inr, Bool, true, false, Option, none, some, List, [],
  ◌∷◌, arith, subst, Outcome, ok, err, ◌=ₛ◌, Bool-cases, leb,
}
use extrio.Delivery.Tables.{Delivery, Sink, Db, find_sink}
use extrio.Delivery.Store.{StoreError, check_delivery_lease}
use extrio.Delivery.Dispatch.{
  Item, Payload, Request, Result, concluded, dead_letter, record_failure, conclude, refusal,
  build_payload, process, accepted, rejected,
}
use extrio.Delivery.Branches.{
  End, lost, unreadable, refused, posted, dispatch_of, Occurs, process_end,
}
use extrio.Delivery.Finishing.{held}

concluded-sent :
    (result : Result) (sent : List Request) (db : Db) (o : Outcome StoreError Db)
    → (concluded result sent db o).sent ≡ sent
concluded-sent result sent db (ok _) = refl
concluded-sent result sent db (err _) = refl

module _ (sha256 : String → String) (show : ℕ → String) (clip : String → String)
    (d : Delivery) where
  dead_letter-sent :
      (why : String) (code : Option ℕ) (attempt : Bool) (sent : List Request) (now : ℕ) (db : Db)
      → (dead_letter sha256 show clip d why code attempt sent now db).sent ≡ sent
  unfolding dead_letter
  dead_letter-sent why code attempt sent now db = concluded-sent _ sent db _

  record_failure-sent :
      (code : Option ℕ) (why : String) (sent : List Request) (now : ℕ) (db : Db)
      → (record_failure sha256 show clip d code why sent now db).sent ≡ sent
  unfolding record_failure
  record_failure-sent code why sent now db = elim (Bool-cases (leb 5 d.cycle_attempts)) [
    | inl y ↦ rw y (dead_letter-sent why code true sent now db)
    | inr n ↦ rw n (concluded-sent _ sent db _)
  ]

  conclude-sent :
      (code : Option ℕ) (sent : List Request) (now : ℕ) (db : Db)
      → (conclude sha256 show clip d code sent now db).sent ≡ sent
  unfolding conclude
  conclude-sent none sent now db = record_failure-sent none _ sent now db
  conclude-sent (some code) sent now db = elim (Bool-cases (accepted code)) [
    | inl y ↦ rw y (concluded-sent _ sent db _)
    | inr n ↦ elim (Bool-cases (rejected code)) [
      | inl y ↦ rw (n, y) (dead_letter-sent _ (some code) true sent now db)
      | inr m ↦ rw (n, m) (record_failure-sent (some code) _ sent now db)
    ]
  ]

  -- What a sink is when a delivery to it is not refused.
  pub record Accepts (s : Sink) : Type 0 where
    pub enabled : s.enabled ≡ true
    pub webhook : (s.kind =ₛ "webhook") ≡ true
    pub same_version : (d.sink_version_id =ₛ (d.sink_id ++ₛ "#v" ++ₛ show s.version)) ≡ true
    pub attempts_left : d.cycle_attempts ≤ 5

  not_refused : (s : Sink) → refusal sha256 show clip (some s) d ≡ none → Accepts s
  unfolding refusal
  not_refused s e = record {
    enabled = ground (arith, e);
    webhook = ground (arith, e);
    same_version = ground (arith, e);
    attempts_left = ground (arith, e);
  }

held_checked :
    (now : ℕ) (d : Delivery) (db : Db)
    → check_delivery_lease now d db ≡ ok tt
    → held now d db ≡ true
unfolding check_delivery_lease
held_checked now d db e = ground (arith, e)

module _ (sha256 : String → String) (show : ℕ → String) (clip : String → String)
    (hmac : String → String → String) (json : Payload → String) (secret_of : Sink → Option String)
    (get_item : String → Option Item) (respond : Request → Option ℕ) (d : Delivery) (now later : ℕ)
    (meanwhile : Db → Db) (db : Db) where
  -- The one request of a dispatch, and what held when it went out.
  pub record IsPosted (sent : List Request) : Type 0 where
    pub sink : Sink
    pub secret : String
    pub payload : Payload
    pub the_request :
        sent
        ≡ record {
          url = sink.url;
          body = json payload;
          signature = "sha256=" ++ₛ hmac (json payload) secret;
          delivery_id = d.id;
          idempotency_key = d.id;
          content_digest = "sha256=" ++ₛ sha256 (json payload);
        }
          ∷ []
    pub lease_held : held now d db ≡ true
    pub the_sink : find_sink d.sink_id db.sinks ≡ some sink
    pub the_secret : secret_of sink ≡ some secret
    pub the_payload : build_payload get_item now d ≡ some payload
    pub accepts : Accepts sha256 show clip d sink

  abbrev Sends : List Request → Type 0
  Sends sent = (sent ≡ []) ⊎ IsPosted sent

  end-Sends :
      (e : End)
      → Occurs sha256 show clip hmac json secret_of get_item respond d now later meanwhile db e
      → Sends
          (dispatch_of sha256 show clip hmac json secret_of get_item respond d now later meanwhile
            db e).sent
  end-Sends lost can = inl refl
  end-Sends unreadable can = inl (record_failure-sent sha256 show clip d none _ [] now db)
  end-Sends (refused why) can = inl (dead_letter-sent sha256 show clip d why none false [] now db)
  end-Sends (posted s secret payload) (c, f, g, r, b) = inr (record {
    sink = s;
    secret = secret;
    payload = payload;
    the_request = conclude-sent sha256 show clip d _ _ later (meanwhile db);
    lease_held = held_checked now d db c;
    the_sink = f;
    the_secret = g;
    the_payload = b;
    accepts = not_refused sha256 show clip d s r;
  })

  -- A dispatch sends nothing, or exactly one request. It sends one only while the claim's lease
  -- holds, in a cycle of at most five attempts, to the sink of the delivery as it now stands, enabled
  -- and of the version that the delivery was enqueued for; the request carries the delivery's id as
  -- its idempotency key, its signature with the sink's secret is of the very body that it carries, and so is its digest.
  pub process-Sends :
      Sends
        (process sha256 show clip hmac json secret_of get_item respond d now later meanwhile
          db).sent
  process-Sends =
      let (e, same, can) =
        process_end sha256 show clip hmac json secret_of get_item respond d now later meanwhile
          db in
      subst (λ x. Sends x.sent) (sym same) (end-Sends e can)
