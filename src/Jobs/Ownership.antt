-- ===== src/Jobs/Ownership.antt =====
-- A claim that a later attempt has superseded owns its job no more, and an operation that has ended
-- stays as it is.
use extrio.Base.{
  ℕ, ◌+◌, ◌*◌, ◌≤◌, String, ◌≡◌, refl, ap, subst, inl, inr, Bool, true, false, ◌||◌, Bool-cases,
  Option-cases, Option, some, List, [], ◌∷◌, arith, ◌==◌, leb, ltb, if◌then◌else◌, or_else, Outcome,
  ok, err, ◌>>=◌, ◌>>◌,
}
use extrio.Activity.{Metrics, cancelled}
use extrio.Audit.{Event, Audit}
use extrio.Jobs.Tables.{Job, Claim, Operation, World, find_job, is_terminal, put}
use extrio.Jobs.Finish.{JobError, lease_lost, finish_resources}
use extrio.Jobs.Queue.{
  claim_job, claim_row, claim_of, renew_job, finish_job, fail_job, owned, owned_operation, done,
  taken, nothing, first_due, write_job, giving_up as giving_up_error, giving_up_status, job_of,
}
use extrio.Jobs.Cancel.{request_cancel, ask_cancel, cancel_event, is_idle}
use extrio.Jobs.Forward.{
  CountsFrom, IsForward, same-IsForward, then-IsForward, write_job-IsForward,
  finish_resources-IsForward, put-IsForward, untouched-IsForward, ok-same,
}
use extrio.Jobs.Reach.{Reaches, here, claiming, renewing, finishing, failing, giving_up, cancelling}

find_job-CountsFrom :
    (n id : ℕ) (js : List Job) (j : Job)
    → CountsFrom n id js
    → find_job id js ≡ some j
    → n ≤ j.attempts
unfolding find_job
find_job-CountsFrom n id [] j h e = cc e
find_job-CountsFrom n id (x ∷ js) j (h, hs) e = elim (Bool-cases (x.id == id)) [
  | inl y ↦ ground (arith, y, h y)
  | inr m ↦ find_job-CountsFrom n id js j hs (ground (arith, m))
]

superseded_now :
    (now : ℕ) (claim : Claim) (allow_cancel : Bool) (w : World)
    → CountsFrom (claim.attempts + 1) claim.id w.jobs
    → owned now claim allow_cancel w ≡ err lease_lost
unfolding owned
superseded_now now claim allow_cancel w h = elim (Option-cases (find_job claim.id w.jobs)) [
  | inl f ↦ ground (arith, f)
  | inr (j, f) ↦ ground (arith, f, find_job-CountsFrom (claim.attempts + 1) claim.id w.jobs j h f)
]

ended_now :
    (now : ℕ) (claim : Claim) (allow_cancel : Bool) (w : World) (o : Operation)
    → w.operation claim.operation_id ≡ some o
    → is_terminal o.status ≡ true
    → owned now claim allow_cancel w ≡ err lease_lost
unfolding owned owned_operation
ended_now now claim allow_cancel w o e t = ground (arith, e, t)

-- what a transaction that claims nothing returns
nothing-ok :
    (r : Outcome JobError World) (c : Option Claim) (w' : World)
    → nothing r ≡ ok (c, w')
    → r ≡ ok w'
nothing-ok (ok w) c w' h = ground (arith, h)
nothing-ok (err e) c w' h = cc h

module _ (clip : String → String) (keys : Metrics) where
  claim_row-IsForward :
      (now lease_seconds : ℕ) (j : Job) (w w' : World) (c : Option Claim)
      → claim_row clip keys now lease_seconds j w ≡ ok (c, w')
      → IsForward w w'
  unfolding claim_row
  claim_row-IsForward now lease_seconds j w w' c h =
      elim (Option-cases (w.operation j.operation_id)) [
        | inl f ↦ finished (ap (λ x. x.1) (ok-same (rw (f, claim_row) at h)))
        | inr (o, f) ↦ elim (Bool-cases (is_terminal o.status)) [
          | inl t ↦ finished (ap (λ x. x.1) (ok-same (rw (f, t, claim_row) at h)))
          | inr t ↦ going o (rw (f, t, claim_row) at h)
        ]
      ]
    where
      finished : write_job j.id done w ≡ w' → IsForward w w'
      finished e =
          subst (IsForward w) e (write_job-IsForward j.id done w (λ j. refl) (λ j. omega arith))

      going :
          (o : Operation)
          → (if o.cancel_requested || leb (or_else j.payload.max_job_attempts 3) j.attempts
              then nothing (
                  finish_resources keys
                    (giving_up_status o.cancel_requested)
                    (giving_up_error o.cancel_requested j.operation_id)
                    now
                    clip
                    j.id
                    j.operation_id
                    j.kind
                    j.payload
                    w)
              else ok (
                some (claim_of lease_seconds j),
                write_job j.id (taken (now + 1000 * lease_seconds)) w,
              ))
            ≡ ok (c, w')
          → IsForward w w'
      going o h =
          elim (Bool-cases
            (o.cancel_requested || leb (or_else j.payload.max_job_attempts 3) j.attempts)) [
              | inl t ↦
                  finish_resources-IsForward keys (giving_up_status o.cancel_requested)
                    (giving_up_error o.cancel_requested j.operation_id) now clip j.id j.operation_id
                    j.kind j.payload w w' (nothing-ok _ c w' (rw t at h))
              | inr t ↦ subst (IsForward w) (ap (λ x. x.1) (ok-same (rw t at h))) (
                  write_job-IsForward j.id (taken (now + 1000 * lease_seconds)) w (λ j. refl)
                    (λ j. omega arith))
            ]

  claim_job-IsForward :
      (now lease_seconds : ℕ) (w w' : World) (c : Option Claim)
      → claim_job clip keys now lease_seconds w ≡ ok (c, w')
      → IsForward w w'
  unfolding claim_job
  claim_job-IsForward now lease_seconds w w' c h = elim (Bool-cases (ltb lease_seconds 1)) [
    | inl t ↦ ground (arith, t, h)
    | inr t ↦ elim (Option-cases (first_due now w.jobs)) [
      | inl f ↦
          subst (IsForward w) (ap (λ x. x.1) (ok-same (rw (t, f, claim_job) at h)))
            (same-IsForward w)
      | inr (j, f) ↦ claim_row-IsForward now lease_seconds j w w' c (rw (t, f, claim_job) at h)
    ]
  ]

renew_job-IsForward :
    (now : ℕ) (claim : Claim) (w w' : World) → renew_job now claim w ≡ ok w' → IsForward w w'
unfolding renew_job
renew_job-IsForward now claim w w' h = go (owned now claim false w) h
  where
    renewed : World
    renewed =
        write_job claim.id (λ j. record j { lease_until = some (now + 1000 * claim.lease_seconds) })
          w

    go : (o : Outcome JobError (Unit {0})) → (o >> ok renewed) ≡ ok w' → IsForward w w'
    go (err e) h = cc h
    go (ok _) h =
        subst (IsForward w) (ok-same h)
          (write_job-IsForward claim.id _ w (λ j. refl) (λ j. omega arith))

module _ (sha256 : String → String) (json : Event → Option String → String) (clip : String → String)
    (keys : Metrics) where
  module _ (fresh_id tenant : String) (audit : Audit) (now : ℕ) (id : String) (j : Job)
      (o : Operation) where
    abbrev asked : World → World
    asked w = record w { operation = put id (record o { cancel_requested = true }) w.operation }

    asked-IsForward :
        (w : World) → w.operation id ≡ some o → is_terminal o.status ≡ false → IsForward w (asked w)
    asked-IsForward w f t =
        put-IsForward w (asked w) id o (record o { cancel_requested = true }) f t refl (λ k. refl)

    ask_cancel-IsForward :
        (w w' : World)
        → w.operation id ≡ some o
        → is_terminal o.status ≡ false
        → ask_cancel sha256 json clip keys fresh_id tenant audit now id j o w ≡ ok w'
        → IsForward w w'
    unfolding ask_cancel
    ask_cancel-IsForward w w' f t h = elim (Bool-cases (is_idle now j)) [
      | inl y ↦ then-IsForward (asked-IsForward w f t) (
          finish_resources-IsForward keys cancelled _ now clip j.id id j.kind j.payload (asked w) w'
            (rw (y, ask_cancel) at h))
      | inr n ↦ subst (IsForward w) (ok-same (rw (n, ask_cancel) at h)) (asked-IsForward w f t)
    ]

    cancel_rest :
        (r : Outcome JobError World) (w w' : World)
        → w.operation id ≡ some o
        → is_terminal o.status ≡ false
        → ask_cancel sha256 json clip keys fresh_id tenant audit now id j o w ≡ r
        → (r >>= λ x. ok (cancel_event sha256 json clip keys fresh_id tenant audit now id x))
          ≡ ok w'
        → IsForward w w'
    cancel_rest (err x) w w' f t e h = cc h
    cancel_rest (ok x) w w' f t e h =
        subst (IsForward w) (ok-same h)
          (then-IsForward (ask_cancel-IsForward w x f t e) (untouched-IsForward x _ refl refl))

  request_cancel-IsForward :
      (fresh_id tenant : String) (audit : Audit) (now : ℕ) (id : String) (w w' : World)
      → request_cancel sha256 json clip keys fresh_id tenant audit now id w ≡ ok w'
      → IsForward w w'
  unfolding request_cancel
  request_cancel-IsForward fresh_id tenant audit now id w w' h =
      elim (Option-cases (job_of id w.jobs)) [
        | inl f ↦ cc (rw (f, request_cancel) at h)
        | inr (j, f) ↦ elim (Option-cases (w.operation id)) [
          | inl g ↦ cc (rw (f, g, request_cancel) at h)
          | inr (o, g) ↦ elim (Bool-cases (is_terminal o.status || o.cancel_requested)) [
            | inl t ↦
                subst (IsForward w) (ok-same (rw (f, g, t, request_cancel) at h)) (same-IsForward w)
            | inr t ↦
                cancel_rest fresh_id tenant audit now id j o _ w w' g (ground (arith, t)) refl
                  (rw (f, g, t, request_cancel) at h)
          ]
        ]
      ]

  Reaches-IsForward : {a b : World} → Reaches sha256 json clip keys a b → IsForward a b
  unfolding finish_job fail_job
  Reaches-IsForward {a} here = same-IsForward a
  Reaches-IsForward (claiming {b = b} {c = c} now lease claim l e) =
      then-IsForward (Reaches-IsForward l) (claim_job-IsForward clip keys now lease b c claim e)
  Reaches-IsForward (renewing {b = b} {c = c} now claim l e) =
      then-IsForward (Reaches-IsForward l) (renew_job-IsForward now claim b c e)
  Reaches-IsForward (finishing {b = b} now claim l e) =
      then-IsForward (Reaches-IsForward l)
        (write_job-IsForward claim.id done b (λ j. refl) (λ j. omega arith))
  Reaches-IsForward (failing {b = b} id message l) =
      then-IsForward (Reaches-IsForward l)
        (write_job-IsForward id _ b (λ j. refl) (λ j. omega arith))
  Reaches-IsForward (giving_up {b = b} {c = c} now claim status error l o e) =
      then-IsForward (Reaches-IsForward l) (
        finish_resources-IsForward keys status error now clip claim.id claim.operation_id claim.kind
          claim.payload b c e)
  Reaches-IsForward (cancelling {b = b} {c = c} fresh_id tenant audit now id l e) =
      then-IsForward (Reaches-IsForward l)
        (request_cancel-IsForward fresh_id tenant audit now id b c e)

  -- Once every row of a job counts more attempts than a claim of it, no claiming, renewing, finishing,
  -- failing, giving up or cancelling, in any order, lets a transaction of that claim through again.
  pub superseded :
      {a b : World} (now : ℕ) (claim : Claim) (allow_cancel : Bool)
      → CountsFrom (claim.attempts + 1) claim.id a.jobs
      → Reaches sha256 json clip keys a b
      → owned now claim allow_cancel b ≡ err lease_lost
  superseded {b = b} now claim allow_cancel h l =
      superseded_now now claim allow_cancel b
        ((Reaches-IsForward l).counts (claim.attempts + 1) claim.id h)

  -- An operation that has ended is never changed again, whatever operations of the queue follow, and
  -- no claim on it lets a transaction through.
  pub ended_stays :
      {a b : World} (claim : Claim) (o : Operation)
      → a.operation claim.operation_id ≡ some o
      → is_terminal o.status ≡ true
      → Reaches sha256 json clip keys a b
      → (b.operation claim.operation_id ≡ some o)
        × ((now : ℕ) (allow_cancel : Bool) → owned now claim allow_cancel b ≡ err lease_lost)
  ended_stays {b = b} claim o e t l =
      let e' = (Reaches-IsForward l).ended claim.operation_id o e t in
      (e', λ now allow_cancel. ended_now now claim allow_cancel b o e' t)
