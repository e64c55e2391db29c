-- ===== src/Jobs/Forward.antt =====
-- No operation takes back an attempt, or touches an operation that has ended.
use extrio.Base.{
  ℕ, ◌≤◌, String, ◌≡◌, refl, sym, ap, subst, inl, inr, Bool, true, false, Bool-cases, Option-cases,
  Option, none, some, List, [], ◌∷◌, All, arith, ◌==◌, if◌then◌else◌, Outcome, ok, err, ◌>>=◌, ◌>>◌,
  eq_iff,
}
use extrio.Activity.{Metrics, Terminal}
use extrio.Jobs.Tables.{Job, Error, Payload, Operation, World, update_job, is_terminal, put}
use extrio.Jobs.Finish.{
  JobError, finish_resources, finish_operation, with_activity, finish_run, release_collector,
  lock_if, failed_job,
}
use extrio.Jobs.Queue.{write_job}

-- Every row of the job counts at least so many attempts.
abbrev pub CountsFrom : ℕ → ℕ → List Job → Type 0
CountsFrom n id js = All (λ j. (j.id == id) ≡ true → n ≤ j.attempts) js

module _ (n id : ℕ) where
  update_job-CountsFrom :
      (k : ℕ) (f : Job → Job) (js : List Job)
      → ((j : Job) → (f j).id ≡ j.id)
      → ((j : Job) → j.attempts ≤ (f j).attempts)
      → CountsFrom n id js
      → CountsFrom n id (update_job k f js)
  unfolding update_job
  update_job-CountsFrom k f [] hid up h = tt
  update_job-CountsFrom k f (j ∷ js) hid up (h, hs) =
      (pick (j.id == k), update_job-CountsFrom k f js hid up hs)
    where
      pick :
          (t : Bool)
          → ((if t then f j else j).id == id) ≡ true
          → n ≤ (if t then f j else j).attempts
      pick true e = ground (arith, h, hid j, up j, e)
      pick false e = h e

-- What every operation keeps.
pub record IsForward (w w' : World) : Type 0 where
  pub counts : (n id : ℕ) → CountsFrom n id w.jobs → CountsFrom n id w'.jobs
  pub ended :
      (id : String) (o : Operation)
      → w.operation id ≡ some o
      → is_terminal o.status ≡ true
      → w'.operation id ≡ some o

pub same-IsForward : (w : World) → IsForward w w
same-IsForward w = record { counts = λ n id h. h; ended = λ id o e t. e }

pub then-IsForward : {a b c : World} → IsForward a b → IsForward b c → IsForward a c
then-IsForward f g = record {
  counts = λ n id h. g.counts n id (f.counts n id h);
  ended = λ id o e t. g.ended id o (f.ended id o e t) t;
}

pub write_job-IsForward :
    (k : ℕ) (f : Job → Job) (w : World)
    → ((j : Job) → (f j).id ≡ j.id)
    → ((j : Job) → j.attempts ≤ (f j).attempts)
    → IsForward w (write_job k f w)
write_job-IsForward k f w hid up = record {
  counts = λ n id h. update_job-CountsFrom n id k f w.jobs hid up h;
  ended = λ id o e t. e;
}

-- an operation that has not ended is written
pub put-IsForward :
    (w w' : World) (k : String) (o o' : Operation)
    → w.operation k ≡ some o
    → is_terminal o.status ≡ false
    → w'.jobs ≡ w.jobs
    → ((id : String) → w'.operation id ≡ put k o' w.operation id)
    → IsForward w w'
put-IsForward w w' k o o' e unended same writes = record {
  counts = λ n id h. subst (CountsFrom n id) (sym same) h;
  ended = λ id p f t. ground (arith, writes id, eq_iff id k, e, f, unended, t);
}

pub ok-same : {A : Type 0} {a b : A} → ◌≡◌ {A = Outcome JobError A} (ok a) (ok b) → a ≡ b
ok-same h = ground (arith, h)

-- neither the jobs nor the operations are written
pub untouched-IsForward :
    (w w' : World) → w'.jobs ≡ w.jobs → w'.operation ≡ w.operation → IsForward w w'
untouched-IsForward w w' j o = record {
  counts = λ n id h. subst (CountsFrom n id) (sym j) h;
  ended = λ id p f t. subst (λ x. x id ≡ some p) (sym o) f;
}

module _ (keys : Metrics) (status : Terminal) (error : Error) (now : ℕ)
    (clip : String → String) where
  release-IsForward :
      (id kind : String) (payload : Payload) (w : World)
      → IsForward w (release_collector keys status error now id kind payload w)
  unfolding release_collector
  release-IsForward id kind payload w = untouched-IsForward w _ (ground arith) (ground arith)

  finish_run-IsForward :
      (payload : Payload) (w : World) → IsForward w (finish_run keys status error now payload w)
  unfolding finish_run
  finish_run-IsForward payload w = untouched-IsForward w _ (ground arith) (ground arith)

  finish_operation-IsForward :
      (w w' : World) (k : String) (o : Operation) (ai : Option String)
      → w.operation k ≡ some o
      → is_terminal o.status ≡ false
      → finish_operation keys status error now w k o ai ≡ ok w'
      → IsForward w w'
  unfolding finish_operation
  finish_operation-IsForward w w' k o none e unended h =
      put-IsForward w w' k o _ e unended (ground (arith, h))
        (λ id. ap (λ x. x.operation id) (sym (ok-same h)))
  finish_operation-IsForward w w' k o (some ai) e unended h = elim (Option-cases (w.ai_run ai)) [
    | inl f ↦ ground (arith, f, h)
    | inr (a, f) ↦
        let same = ok-same (rw (f, finish_operation) at h) in
        put-IsForward w w' k o (with_activity keys status error now o) e unended
          (ap (λ x. x.jobs) (sym same)) (λ id. ap (λ x. x.operation id) (sym same))
  ]

  -- the rest of `finish_resources`, once its operation's outcome is at hand
  abbrev finish_rest :
      ℕ → String → String → Payload → World → Outcome JobError World → Outcome JobError World
  finish_rest job_id id kind payload w r = do
    w' ← r
    let w'' =
        finish_run keys status error now payload
          (release_collector keys status error now id kind payload w')
    ok (record w'' { jobs = update_job job_id (failed_job keys status error now clip) w''.jobs })

  rest-IsForward :
      (job_id : ℕ) (id kind : String) (payload : Payload) (w w' : World) (o : Operation)
      (r : Outcome JobError World)
      → w.operation id ≡ some o
      → is_terminal o.status ≡ false
      → finish_operation keys status error now w id o payload.ai_run_id ≡ r
      → finish_rest job_id id kind payload w r ≡ ok w'
      → IsForward w w'
  rest-IsForward job_id id kind payload w w' o (err x) f t e h = cc h
  rest-IsForward job_id id kind payload w w' o (ok w1) f t e h =
      let w2 = release_collector keys status error now id kind payload w1 in
      let w3 = finish_run keys status error now payload w2 in
      subst (IsForward w) (ok-same h) (
        then-IsForward (finish_operation-IsForward w w1 id o payload.ai_run_id f t e) (
          then-IsForward (release-IsForward id kind payload w1) (
            then-IsForward (finish_run-IsForward payload w2) (
              write_job-IsForward job_id (failed_job keys status error now clip) w3 (λ j. refl)
                (λ j. omega arith)))))

  pub finish_resources-IsForward :
      (job_id : ℕ) (id kind : String) (payload : Payload) (w w' : World)
      → finish_resources keys status error now clip job_id id kind payload w ≡ ok w'
      → IsForward w w'
  unfolding finish_resources
  finish_resources-IsForward job_id id kind payload w w' h =
      go (lock_if w payload.collector_id) (w.operation id) refl h
    where
      go :
          (l : Outcome JobError (Unit {0})) (o : Option Operation)
          → w.operation id ≡ o
          → (l >> elim o [
            | none ↦ ok w
            | some o ↦
                if is_terminal o.status
                then ok w
                else finish_rest job_id id kind payload w
                    (finish_operation keys status error now w id o payload.ai_run_id)
          ])
            ≡ ok w'
          → IsForward w w'
      go (err x) o f h = cc h
      go (ok _) none f h = subst (IsForward w) (ok-same h) (same-IsForward w)
      go (ok _) (some o) f h = elim (Bool-cases (is_terminal o.status)) [
        | inl t ↦ subst (IsForward w) (ok-same (rw t at h)) (same-IsForward w)
        | inr t ↦ rest-IsForward job_id id kind payload w w' o _ f t refl (rw t at h)
      ]
