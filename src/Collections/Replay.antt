-- ===== src/Collections/Replay.antt =====
-- A command that is sent again is answered as it was, however much later.
use extrio.Base.{
  Bool-cases, Option-cases, Outcome, bind-ok, ok, err, String, ◌≡◌, refl, sym, ◌∙◌, ◌≢◌, inl, inr,
  true, false, ◌&&◌, Option, none, some, List, [], ◌∷◌, ◌++◌, arith, ◌=ₛ◌, eq_iff,
}
use extrio.Fields.{Schema}
use extrio.Audit.{Event}
use extrio.Collections.Tables.{
  Response, Receipt, Tables, CollectionError, find_receipt, idempotency_conflict,
}
use extrio.Collections.Changing.{
  created-IsChangeOf, changed-IsChangeOf, deleted-IsChangeOf, published_receipts,
}
use extrio.Collections.Store.{
  lock_collection, create_collection, change_collection, delete_collection,
  publish_collection_version,
}
use extrio.Collections.Commands.{
  Call, Command, scope_of, status_of, Answer, actor_of, replay, apply, collection_command, post,
  patch, delete, publish,
}

-- a receipt that is found stays the one that is found
find_stays :
    (scope key : String) (rs new : List Receipt) (r : Receipt)
    → find_receipt scope key rs ≡ some r
    → find_receipt scope key (rs ++ new) ≡ some r
unfolding find_receipt
find_stays scope key [] new r h = cc h
find_stays scope key (q ∷ rs) new r h = elim (Bool-cases ((q.scope =ₛ scope) && (q.key =ₛ key))) [
  | inl y ↦ ground (arith, y, h)
  | inr n ↦ rw (n, find_receipt) (find_stays scope key rs new r (ground (arith, n, h)))
]

find_last :
    (scope key : String) (rs : List Receipt) (r : Receipt)
    → find_receipt scope key rs ≡ none
    → (r.scope =ₛ scope) && (r.key =ₛ key) ≡ true
    → find_receipt scope key (rs ++ r ∷ []) ≡ some r
unfolding find_receipt
find_last scope key [] r h e = rw e
find_last scope key (q ∷ rs) r h e = elim (Bool-cases ((q.scope =ₛ scope) && (q.key =ₛ key))) [
  | inl y ↦ cc (rw (y, find_receipt) at h)
  | inr n ↦ rw (n, find_receipt) (find_last scope key rs r (ground (arith, n, h)) e)
]

differ : (a b : String) → a ≢ b → (a =ₛ b) ≡ false
differ a b n = elim (Bool-cases (a =ₛ b)) [ inl y ↦ absurd (n ((eq_iff a b).0 y)) | inr f ↦ f ]

module _ (sha256 : String → String) (json : Event → Option String → String)
    (hash_body : Command → String) (hash_value : Response → String)
    (digest : Schema → List String → List String → String) where
  abbrev new_receipt : Call → Command → Response → Receipt
  new_receipt call body value = record {
    scope = scope_of body;
    key = call.key;
    request_hash = hash_body body;
    status_code = status_of body;
    response = value;
  }

  applied_receipts :
      (call : Call) (body : Command) (t : Tables) (value : Response) (after : Tables)
      → apply sha256 json hash_body hash_value digest call body t ≡ ok (value, after)
      → after.idempotency ≡ t.idempotency ++ new_receipt call body value ∷ []
  unfolding apply
  applied_receipts call (post name intent) t value after h =
      let ((v, b), e, k) = bind-ok (create_collection call.fresh_id name intent call.now t) _ _ h in
      let kept = (created-IsChangeOf call.fresh_id name intent call.now t v b e).receipts_kept in
      ground (arith, k, kept)
  applied_receipts call (patch id revision changes) t value after h =
      let (c, _, h1) = bind-ok (lock_collection id t) _ _ h in
      let ((v, b), e, k) = bind-ok (change_collection id revision changes call.now t) _ _ h1 in
      let kept = (changed-IsChangeOf id revision changes call.now t v b e).receipts_kept in
      ground (arith, k, kept)
  applied_receipts call (delete id revision) t value after h =
      let (c, _, h1) = bind-ok (lock_collection id t) _ _ h in
      let ((u, b), e, k) = bind-ok (delete_collection id revision t) _ _ h1 in
      let kept = (deleted-IsChangeOf id revision t u b e).receipts_kept in ground (arith, k, kept)
  applied_receipts call (publish id revision remark) t value after h =
      let ((v, b), e, k) =
        bind-ok
          (publish_collection_version digest call.fresh_id id revision (actor_of call.actor) remark
            call.now t)
          _ _ h in
      let kept =
        published_receipts digest call.fresh_id id revision (actor_of call.actor) remark call.now t
          v b e in
      ground (arith, k, kept)

  abbrev command : Call → Command → Tables → Outcome CollectionError (Answer × Tables)
  command = collection_command sha256 json hash_body hash_value digest

  -- The tables that commands make of others.
  pub data Later : Tables → Tables → Type 0 where
    stay : (t : Tables) → Later t t
    step :
        (call : Call) (body : Command) (answer : Answer) (t mid after : Tables)
        → command call body t ≡ ok (answer, mid)
        → Later mid after
        → Later t after

  -- what a command does when its key has a receipt, and when it has none
  pub from_receipt :
      (call : Call) (body : Command) (answer : Answer) (t after : Tables) (r : Receipt)
      → find_receipt (scope_of body) call.key t.idempotency ≡ some r
      → command call body t ≡ ok (answer, after)
      → ((r.request_hash ≡ hash_body body) × (after ≡ t))
        × ((r.status_code ≡ answer.status_code) × (r.response ≡ answer.value))
  unfolding collection_command replay
  from_receipt call body answer t after r e h =
      elim (Bool-cases (r.request_hash =ₛ hash_body body)) [
        | inl y ↦ (
          ((eq_iff _ _).0 y, ground (arith, h, e, y)),
          (ground (arith, h, e, y), ground (arith, h, e, y)),
        )
        | inr n ↦ absurd (ground (arith, h, e, n))
      ]

  from_change :
      (call : Call) (body : Command) (answer : Answer) (t after : Tables)
      → find_receipt (scope_of body) call.key t.idempotency ≡ none
      → command call body t ≡ ok (answer, after)
      → after.idempotency ≡ t.idempotency ++ new_receipt call body answer.value ∷ []
        × (answer.status_code ≡ status_of body)
  unfolding collection_command
  from_change call body answer t after e h =
      let ((value, b), applied, k) =
        bind-ok (apply sha256 json hash_body hash_value digest call body t) _ _
          (rw (e, collection_command) at h) in
      let receipts = applied_receipts call body t value b applied in
      (ground (arith, k, receipts), ground (arith, k))

  -- after a command, the receipt of its key is that of its answer
  answered :
      (call : Call) (body : Command) (answer : Answer) (t after : Tables)
      → command call body t ≡ ok (answer, after)
      → (r : Receipt) × (find_receipt (scope_of body) call.key after.idempotency ≡ some r)
        × ((r.request_hash ≡ hash_body body)
            × ((r.status_code ≡ answer.status_code) × (r.response ≡ answer.value)))
  unfolding collection_command replay
  answered call body answer t after h =
      elim (Option-cases (find_receipt (scope_of body) call.key t.idempotency)) [
        | inr (r, e) ↦
            let ((same_hash, kept), same_answer) = from_receipt call body answer t after r e h in
            (r, rw kept e, (same_hash, same_answer))
        | inl n ↦
            let (receipts, status) = from_change call body answer t after n h in
            let last =
              find_last (scope_of body) call.key t.idempotency (new_receipt call body answer.value)
                n
                (rw (
                  (eq_iff (scope_of body) (scope_of body)).1 refl,
                  (eq_iff call.key call.key).1 refl,
                )) in
            (new_receipt call body answer.value, rw receipts last, (refl, (sym status, refl)))
      ]

  -- and no command changes a receipt that is found
  receipt_stays :
      (scope key : String) (r : Receipt) (call : Call) (body : Command) (answer : Answer)
      (t after : Tables)
      → command call body t ≡ ok (answer, after)
      → find_receipt scope key t.idempotency ≡ some r
      → find_receipt scope key after.idempotency ≡ some r
  unfolding collection_command replay
  receipt_stays scope key r call body answer t after h found =
      elim (Option-cases (find_receipt (scope_of body) call.key t.idempotency)) [
        | inr (q, e) ↦ rw ((from_receipt call body answer t after q e h).0.1) found
        | inl n ↦
            rw ((from_change call body answer t after n h).0)
              (find_stays scope key t.idempotency (new_receipt call body answer.value ∷ []) r found)
      ]

  stays_later :
      (scope key : String) (r : Receipt) (t after : Tables)
      → Later t after
      → find_receipt scope key t.idempotency ≡ some r
      → find_receipt scope key after.idempotency ≡ some r
  stays_later scope key r t after (stay _) found = found
  stays_later scope key r t after (step call body answer _ mid _ h rest) found =
      stays_later scope key r mid after rest
        (receipt_stays scope key r call body answer t mid h found)

  -- Once a command has succeeded, any command that is sent later under the same key to the same address
  -- changes nothing, whatever commands came between: with a body of the same hash it gets the status
  -- and the value of the first answer, marked as a repetition, and with any other body a conflict.
  pub replayed :
      (call : Call) (body : Command) (answer : Answer) (t mid after : Tables)
      → command call body t ≡ ok (answer, mid)
      → Later mid after
      → (again : Call) (other : Command) → again.key ≡ call.key
      → scope_of other ≡ scope_of body
      → (hash_body other ≡ hash_body body
          → command again other after
            ≡ ok (
              record { status_code = answer.status_code; value = answer.value; is_replay = true },
              after,
            ))
        × (hash_body other ≢ hash_body body → command again other after ≡ err idempotency_conflict)
  unfolding collection_command replay
  replayed call body answer t mid after h later again other same_key same_scope =
      let (r, found, (hashed, (status, value))) = answered call body answer t mid h in
      let later_found = stays_later (scope_of body) call.key r mid after later found in
      let there : find_receipt (scope_of other) again.key after.idempotency ≡ some r =
        rw (same_key, same_scope) later_found in
      (
        λ e.
            let same_hash : (r.request_hash =ₛ hash_body other) ≡ true =
              (eq_iff _ _).1 (hashed ∙ sym e) in
            ground (arith, there, same_hash, status, value),
        λ differs.
            let other_hash : (r.request_hash =ₛ hash_body other) ≡ false =
              differ r.request_hash (hash_body other) (λ e. differs (sym e ∙ hashed)) in
            ground (arith, there, other_hash),
      )
