-- ===== src/Recovery/Starting.antt =====
-- What `start` lets through, and what the guard keeps out.
use extrio.Base.{
  some, ◌<◌, ◌≢◌, ◌⊎◌, inl, inr, sym, any, is_some, ◌=ₛ◌, eq_iff, bind-ok, ℕ, String, ◌≡◌, refl,
  true, false, none, List, [], ◌∷◌, arith, All, ok, raise_if,
}
use extrio.Recovery.Values.{Progress, Run, Source}
use extrio.Recovery.Batch.{Batch, Status, stop, cool}
use extrio.Recovery.Tick.{World}
use extrio.Recovery.Commands.{
  Seed, overlap, is_holding, guard_source_work, fresh, start_from, start, admit, find_batch,
  find_seeded, for_run, recovery_already_exists,
}
use extrio.Recovery.Invariant.{IsCounted, IsSound, cool-IsSound}

-- a text is one of a list's
abbrev pub Among : String → List String → Type 0
Among s [] = ⊥
Among s (x ∷ xs) = (x ≡ s) ⊎ Among s xs

-- the batch is under way, or its source is not to be asked before a later instant
abbrev pub Holds : ℕ → Batch → Type 0
Holds now c =
    ((c.status ≡ Status.cooling_down)
      ⊎ ((c.status ≡ Status.running) ⊎ (c.status ≡ Status.cancelling)))
    ⊎ ((t : ℕ) × (c.source_not_before ≡ some t) × (now < t))

Holds-is_holding : (now : ℕ) (c : Batch) → Holds now c → is_holding now c ≡ true
Holds-is_holding now c (inl (inl s)) = rw s refl
Holds-is_holding now c (inl (inr (inl s))) = rw s refl
Holds-is_holding now c (inl (inr (inr s))) = rw s refl
Holds-is_holding now c (inr (t, e, later)) = ground (arith, e, later)

Among-any : (s : String) (ys : List String) → Among s ys → any (λ y. s =ₛ y) ys ≡ true
Among-any s [] h = absurd h
Among-any s (y ∷ ys) (inl e) = ground (arith, e, eq_iff s y, sym e)
Among-any s (y ∷ ys) (inr h) = ground (arith, Among-any s ys h)

Among-overlap : (s : String) (xs ys : List String) → Among s xs → Among s ys → overlap xs ys ≡ true
Among-overlap s [] ys h k = absurd h
Among-overlap s (x ∷ xs) ys (inl e) k = rw e (ground (arith, Among-any s ys k))
Among-overlap s (x ∷ xs) ys (inr h) k = ground (arith, Among-overlap s xs ys h k)

-- No two batches share a host while the first holds it.
abbrev pub NoneHolds : ℕ → List Batch → List String → Type 0
NoneHolds now batches hosts =
    All (λ c. Holds now c → (host : String) → Among host c.hosts → ¬ (Among host hosts)) batches

-- The batch that the run is recorded as an attempt of is not there; where none is recorded, no batch
-- has the run as its seed.
abbrev pub HasNone : World → String → List Batch → Type 0
HasNone w run_id batches =
    (run : Run)
    → w.run run_id ≡ some run
    → (run.recovery_batch_id ≡ none → All (λ c. c.seed_run_id ≢ run_id) batches)
      × ((id : String) → run.recovery_batch_id ≡ some id → All (λ c. c.id ≢ id) batches)

none_seeded :
    (run_id : String) (batches : List Batch)
    → is_some (find_seeded run_id batches) ≡ false
    → All (λ c. c.seed_run_id ≢ run_id) batches
unfolding find_seeded
none_seeded run_id [] h = tt
none_seeded run_id (b ∷ batches) h = (
  λ e. ground (arith, h, (eq_iff b.seed_run_id run_id).1 e),
  none_seeded run_id batches (ground (arith, h)),
)

none_found :
    (id : String) (batches : List Batch)
    → is_some (find_batch id batches) ≡ false
    → All (λ c. c.id ≢ id) batches
unfolding find_batch
none_found id [] h = tt
none_found id (b ∷ batches) h =
    (λ e. ground (arith, h, (eq_iff b.id id).1 e), none_found id batches (ground (arith, h)))

for_run-HasNone :
    (w : World) (run_id : String) (batches : List Batch)
    → is_some (for_run w run_id batches) ≡ false
    → HasNone w run_id batches
unfolding for_run
for_run-HasNone w run_id batches h run found = (
  λ e.
      let seen : for_run w run_id batches ≡ find_seeded run_id batches =
        rw (for_run, found, e) refl in
      none_seeded run_id batches (rw seen at h),
  λ id e.
      let seen : for_run w run_id batches ≡ find_batch id batches = rw (for_run, found, e) refl in
      none_found id batches (rw seen at h),
)

kept_out :
    (now : ℕ) (hosts : List String) (batches : List Batch)
    → guard_source_work now batches hosts none ≡ ok tt
    → All (λ c. is_holding now c ≡ true → overlap c.hosts hosts ≡ false) batches
unfolding guard_source_work
kept_out now hosts [] h = tt
kept_out now hosts (b ∷ batches) h = (λ e. ground arith, kept_out now hosts batches (ground arith))

module _ (context : Source → String) where
  fresh-IsCounted :
      (id : String) (w : World) (seed : Seed) (source : Source) (run : Run) (p : Progress) (now : ℕ)
      → IsCounted (fresh context id w seed source run p now)
  unfolding fresh
  fresh-IsCounted id w seed source run p now = ground arith

  record IsStart (now : ℕ) (batches : List Batch) (seed : Seed) (b : Batch) : Type 0 where
    sound : IsSound b
    no_attempt : b.attempt_run_ids ≡ []
    verified : seed.attested ≡ true
    held_hosts : b.hosts ≡ seed.hosts
    guarded : guard_source_work now batches b.hosts none ≡ ok tt

  cooled :
      (id : String) (w : World) (seed : Seed) (source : Source) (run : Run) (p : Progress) (now : ℕ)
      → (IsSound (cool run now (fresh context id w seed source run p now)))
        × ((cool run now (fresh context id w seed source run p now)).attempt_run_ids ≡ [])
        × ((cool run now (fresh context id w seed source run p now)).hosts ≡ seed.hosts)
  unfolding cool fresh stop
  cooled id w seed source run p now = (
    cool-IsSound run now (fresh context id w seed source run p now) refl
        (fresh-IsCounted id w seed source run p now),
    ground arith,
    ground arith,
  )

  start_from-IsStart :
      (id : String) (w : World) (now : ℕ) (batches : List Batch) (seed : Seed) (run : Run)
      (source : Source) (p : Progress) (b : Batch)
      → start_from context id w now batches seed run source p ≡ ok b
      → IsStart now batches seed b
  unfolding start_from
  start_from-IsStart id w now batches seed run source p b h =
      ground (arith, cooled id w seed source run p now)

  start-IsStart :
      (id : String) (w : World) (now : ℕ) (batches : List Batch) (run_id : String) (seed : Seed)
      (b : Batch)
      → start context id w now batches run_id seed ≡ ok b
      → IsStart now batches seed b × (is_some (for_run w run_id batches) ≡ false)
  unfolding start
  start-IsStart id w now batches run_id seed b h =
      let (_, first, e) =
        bind-ok (raise_if (is_some (for_run w run_id batches)) recovery_already_exists) _ _ h in
      let ((run, source, p), admitted, e') = bind-ok (admit w run_id seed) _ _ e in
      (start_from-IsStart id w now batches seed run source p b e', ground (arith, first))

  free_of :
      (now : ℕ) (batches : List Batch) (hosts : List String)
      → All (λ c. is_holding now c ≡ true → overlap c.hosts hosts ≡ false) batches
      → NoneHolds now batches hosts
  free_of now [] hosts h = tt
  free_of now (c ∷ batches) hosts (h, hs) = (
    λ holds host mine theirs.
        cc (h (Holds-is_holding now c holds), Among-overlap host c.hosts hosts mine theirs),
    free_of now batches hosts hs,
  )

  -- A batch that `start` accepts is sound and has made no attempt; the batch that its run is recorded
  -- as an attempt of is not there or, where none is recorded, no batch has the run as its seed; and no
  -- batch that is under way, or whose source is not to be asked yet, shares a host with it.
  pub start_exclusive :
      (id : String) (w : World) (now : ℕ) (batches : List Batch) (run_id : String) (seed : Seed)
      (b : Batch)
      → start context id w now batches run_id seed ≡ ok b
      → IsSound b
        × (b.attempt_run_ids ≡ [])
        × HasNone w run_id batches
        × NoneHolds now batches b.hosts
  start_exclusive id w now batches run_id seed b h =
      let (s, first) = start-IsStart id w now batches run_id seed b h in
      (
        s.sound,
        s.no_attempt,
        for_run-HasNone w run_id batches first,
        free_of now batches b.hosts (kept_out now b.hosts batches s.guarded),
      )
