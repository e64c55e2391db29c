-- ===== src/Jobs/Claiming.antt =====
-- Which jobs are handed out.
use extrio.Base.{
  ◌≢◌, ◌⊎◌, ◌<◌, ◌==◌, ==_refl, refl, ap, subst, true, Option, none, List, [], ◌∷◌, ◌++◌, All,
  if◌then◌else◌, ℕ, ◌+◌, ◌*◌, ◌≤◌, String, ◌≡◌, inl, inr, false, ◌||◌, Bool-cases, Option-cases,
  some, arith, leb, ltb, or_else, Outcome, ok, err,
}
use extrio.Activity.{Metrics, Terminal}
use extrio.Jobs.Tables.{
  JobStatus, waiting, processing, completed, failed, ended, find_job, update_job, Job, Claim,
  Operation, World, is_terminal,
}
use extrio.Jobs.Finish.{JobError}
use extrio.Jobs.Queue.{claim_job, claim_row, first_due, nothing, write_job, taken, is_due}

-- The job may be taken: its instant has come, and it waits or the lease on it has run out.
abbrev pub IsFree : ℕ → Job → Type 0
IsFree now j =
    (j.available_at ≤ now)
    × ((j.status ≡ waiting)
        ⊎ ((j.status ≡ processing) × ((t : ℕ) × (j.lease_until ≡ some t) × (t < now))))

-- A job that is handed out: the first that is free, of an operation that goes on.
pub record IsHandedOut (now lease_seconds : ℕ) (w w' : World) (c : Claim) : Type 0 where
  pub job : Job
  pub earlier : List Job
  pub later : List Job
  pub operation : Operation
  pub in_queue : w.jobs ≡ earlier ++ job ∷ later
  pub free : IsFree now job
  pub none_before : All (λ j. ¬ (IsFree now j)) earlier
  pub its_operation : w.operation job.operation_id ≡ some operation
  pub going_on : (t : Terminal) → operation.status ≢ ended t
  pub not_cancelled : operation.cancel_requested ≡ false
  pub the_claim : c ≡ record {
    id = job.id;
    operation_id = job.operation_id;
    kind = job.kind;
    payload = job.payload;
    attempts = job.attempts + 1;
    lease_seconds = lease_seconds;
  }
  pub attempts : job.attempts + 1 ≤ or_else job.payload.max_job_attempts 3
  -- the row with the job's id, which is its key
  pub leased :
      (row : Job)
      → find_job job.id w.jobs ≡ some row
      → find_job job.id w'.jobs
        ≡ some (record row {
          status = processing;
          attempts = row.attempts + 1;
          lease_until = some (now + 1000 * lease_seconds);
        })
  pub other_jobs : (k : ℕ) → k ≢ job.id → find_job k w'.jobs ≡ find_job k w.jobs
  pub rest_kept : w' ≡ record w { jobs = w'.jobs }

due-IsFree : (now : ℕ) (j : Job) → is_due now j ≡ true → IsFree now j
due-IsFree now j d = go j.status j.lease_until refl refl
  where
    go : (s : JobStatus) (l : Option ℕ) → j.status ≡ s → j.lease_until ≡ l → IsFree now j
    go waiting l is until = (ground (arith, d), inl is)
    go processing none is until = absurd (ground (arith, d, is, until))
    go processing (some t) is until =
        (ground (arith, d), inr (is, (t, until, ground (arith, d, is, until))))
    go completed l is until = absurd (ground (arith, d, is))
    go failed l is until = absurd (ground (arith, d, is))

not_due : (now : ℕ) (j : Job) → is_due now j ≡ false → ¬ (IsFree now j)
not_due now j n (at, inl is) = ground (arith, n, at, is)
not_due now j n (at, inr (is, (t, until, over))) = ground (arith, n, at, is, until, over)

-- the queue around the first job that is due
first_due-splits :
    (now : ℕ) (js : List Job) (j : Job)
    → first_due now js ≡ some j
    → (earlier : List Job) × (later : List Job) × (js ≡ earlier ++ j ∷ later)
      × IsFree now j
      × All (λ k. ¬ (IsFree now k)) earlier
unfolding first_due
first_due-splits now [] j e = cc e
first_due-splits now (x ∷ js) j e = elim (Bool-cases (is_due now x)) [
  | inl y ↦
      let same : x ≡ j = ground (arith, e, y) in
      ([], js, ap (λ z. z ∷ js) same, subst (IsFree now) same (due-IsFree now x y), tt)
  | inr n ↦
      let (earlier, later, at, free, others) = first_due-splits now js j (ground (arith, e, n)) in
      (x ∷ earlier, later, ap (λ z. x ∷ z) at, free, (not_due now x n, others))
]

find-update_job :
    (id k : ℕ) (f : Job → Job) (js : List Job)
    → ((j : Job) → (f j).id ≡ j.id)
    → find_job k (update_job id f js) ≡ (
        if k == id
        then elim (find_job k js) as (λ _. Option Job) [ none ↦ none | some j ↦ some (f j) ]
        else find_job k js)
unfolding find_job update_job
find-update_job id k f [] keeps = ground arith
find-update_job id k f (j ∷ js) keeps = ground (arith, find-update_job id k f js keeps, keeps j)

row_leased :
    (id until : ℕ) (js : List Job) (row : Job)
    → find_job id js ≡ some row
    → find_job id (update_job id (taken until) js) ≡ some (taken until row)
row_leased id until js row found =
    simp (find-update_job id id (taken until) js (λ j. refl), ==_refl id, found)

row_kept :
    (id k until : ℕ) (js : List Job)
    → k ≢ id
    → find_job k (update_job id (taken until) js) ≡ find_job k js
row_kept id k until js other =
    let no : (k == id) ≡ false = ground (arith, other) in
    simp (find-update_job id k (taken until) js (λ j. refl), no)

nothing-none :
    (r : Outcome JobError World) (c : Claim) (w' : World) → nothing r ≡ ok (some c, w') → ⊥
nothing-none (ok w) c w' h = ground (arith, h)
nothing-none (err e) c w' h = cc h

module _ (clip : String → String) (keys : Metrics) (now lease_seconds : ℕ) (w w' : World)
    (c : Claim) where
  row-IsHandedOut :
      (j : Job) (o : Operation)
      → first_due now w.jobs ≡ some j
      → w.operation j.operation_id ≡ some o
      → claim_row clip keys now lease_seconds j w ≡ ok (some c, w')
      → IsHandedOut now lease_seconds w w' c
  unfolding claim_row
  row-IsHandedOut j o d f h = elim (Bool-cases (is_terminal o.status)) [
    | inl t ↦ ground (arith, f, t, h)
    | inr t ↦
        elim (Bool-cases
          (o.cancel_requested || leb (or_else j.payload.max_job_attempts 3) j.attempts)) [
            | inl s ↦ absurd (nothing-none _ c w' (rw (f, t, s, claim_row) at h))
            | inr s ↦
                let (earlier, later, at, free, others) = first_due-splits now w.jobs j d in
                let after : write_job j.id (taken (now + 1000 * lease_seconds)) w ≡ w' =
                  ground (arith, f, t, s, h) in
                record {
                  job = j;
                  earlier = earlier;
                  later = later;
                  operation = o;
                  in_queue = at;
                  free = free;
                  none_before = others;
                  its_operation = f;
                  going_on = λ x is. ground (arith, t, is);
                  not_cancelled = ground (arith, s);
                  the_claim = ground (arith, f, t, s, h);
                  attempts = ground (arith, s);
                  leased = λ row found.
                      rw⁻¹ after (row_leased j.id (now + 1000 * lease_seconds) w.jobs row found);
                  other_jobs = λ k other.
                      rw⁻¹ after (row_kept j.id k (now + 1000 * lease_seconds) w.jobs other);
                  rest_kept = rw⁻¹ after refl;
                }
          ]
  ]

  -- A job is handed out only if its instant has come and it waits or its lease has run out, no job
  -- before it in the queue is so, its operation goes on and has not been asked to cancel, and its
  -- attempts, this one counted, are at most its own limit, or three where it has none. The claim carries
  -- the job with this attempt counted; the row with its id then counts the attempt too and is leased for
  -- the time asked, and nothing else is written.
  pub claim_job-IsHandedOut :
      claim_job clip keys now lease_seconds w ≡ ok (some c, w')
      → IsHandedOut now lease_seconds w w' c
  unfolding claim_job claim_row
  claim_job-IsHandedOut h = elim (Bool-cases (ltb lease_seconds 1)) [
    | inl t ↦ ground (arith, t, h)
    | inr t ↦ elim (Option-cases (first_due now w.jobs)) [
      | inl f ↦ ground (arith, t, f, h)
      | inr (j, f) ↦ with_row j f (rw (t, f, claim_job) at h)
    ]
  ]
    where
      with_row :
          (j : Job)
          → first_due now w.jobs ≡ some j
          → claim_row clip keys now lease_seconds j w ≡ ok (some c, w')
          → IsHandedOut now lease_seconds w w' c
      with_row j d e = elim (Option-cases (w.operation j.operation_id)) [
        | inl f ↦ ground (arith, rw (f, claim_row) at e)
        | inr (o, f) ↦ row-IsHandedOut j o d f e
      ]
