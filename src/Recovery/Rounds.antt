-- ===== src/Recovery/Rounds.antt =====
-- Rounds of `tick`, and any number of them.
use extrio.Base.{
  ℕ, String, ◌≡◌, refl, ◌⊎◌, inl, inr, true, false, Option, none, some, Bool-cases, Option-cases,
  arith, is_some, if◌then◌else◌,
}
use extrio.Recovery.Values.{Progress, Run, Source}
use extrio.Recovery.Batch.{Batch, Status, Reason, save}
use extrio.Recovery.Tick.{
  World, Round, OperationStatus, lock_collector, settle_run, watch, is_live, is_cooling,
  wake_if_cooling, with_source, tick_batch,
}
use extrio.Recovery.Invariant.{
  IsSound, IsRound, Yields, settled-IsRound, quiet-IsRound, save-IsSound, settle_run-IsSettled,
  wake-IsRound, stopped-IsRound,
}

-- The store has the run that a batch names, and the operation of that run.
abbrev pub Knows : World → Batch → Type 0
Knows w b =
    (id : String)
    → b.active_run_id ≡ some id
    → (run : Run) × (w.run id ≡ some run)
      × ((o : OperationStatus) × (w.operation run.operation_id ≡ some o))

watch-IsRound :
    (w : World) (run : Run) (now : ℕ) (b : Batch) (o : OperationStatus)
    → IsSound b
    → is_some b.active_run_id ≡ true
    → w.operation run.operation_id ≡ some o
    → Yields (IsRound b) (watch w run now b)
unfolding watch save
watch-IsRound w run now b o h e p = ground arith

cooling_cases : (s : Status) → (is_cooling s ≡ false) ⊎ (s ≡ Status.cooling_down)
cooling_cases Status.cooling_down = inr refl
cooling_cases _ = inl refl

Yields-map :
    {P Q : Round → Type 0} (o : Option Round) → ((r : Round) → P r → Q r) → Yields P o → Yields Q o
Yields-map none f h = h
Yields-map (some r) f h = f r h

module _ (context : Source → String) (resume_host : Progress → String)
    (create_run : World → Batch → Option (String × World)) where
  wake_if_cooling-IsRound :
      (w : World) (source : Source) (now : ℕ) (b : Batch)
      → IsSound b
      → Yields (IsRound b) (wake_if_cooling context resume_host create_run w source now b)
  unfolding wake_if_cooling
  wake_if_cooling-IsRound w source now b h =
      ground (arith, quiet-IsRound w b, wake-IsRound context resume_host create_run w source now b)

  running_batch :
      (w : World) (source : Source) (now : ℕ) (b : Batch) (run : Run) (o : OperationStatus)
      → IsSound b
      → is_some b.active_run_id ≡ true
      → w.operation run.operation_id ≡ some o
      → Yields (IsRound b) (
          if is_live run.status
          then watch w run now b
          else wake_if_cooling context resume_host create_run w source now
              (save now (settle_run context resume_host w source run now b)))
  running_batch w source now b run o h e p = elim (Bool-cases (is_live run.status)) [
    | inl l ↦ rw l (watch-IsRound w run now b o h e p)
    | inr l ↦
        let b' = settle_run context resume_host w source run now b in
        let s = settle_run-IsSettled b h.counted context resume_host w source run now in
        rw l (
          Yields-map _ (λ r. settled-IsRound b b' now r s)
            (wake_if_cooling-IsRound w source now (save now b') (save-IsSound now b' s.sound)))
  ]

  -- the round once the collector is locked
  locked_batch :
      (w : World) (source : Source) (now : ℕ) (b : Batch) (active : Option String)
      → b.active_run_id ≡ active
      → IsSound b
      → Knows w b
      → Yields (IsRound b) (with_source context resume_host create_run w source now b active)
  unfolding with_source
  locked_batch w source now b none a h k = wake_if_cooling-IsRound w source now b h
  locked_batch w source now b (some id) a h k =
      let (run, p, (o, q)) = k id a in
      let e : is_some b.active_run_id ≡ true = ground arith in
      rw (p, Yields) (running_batch w source now b run o h e q)

  -- A round of `tick` over a sound batch whose run and operation the store has does not fail. The
  -- batch stays sound and keeps its identity, its deadline, its hosts and a request to cancel, and
  -- it gains one attempt if a run is dispatched and none otherwise.
  pub tick_batch-IsRound :
      (w : World) (now : ℕ) (b : Batch)
      → IsSound b
      → Knows w b
      → Yields (IsRound b) (tick_batch context resume_host create_run w now b)
  unfolding tick_batch
  tick_batch-IsRound w now b h k = elim (Option-cases (lock_collector w b.collector_id)) [
    | inl e ↦
        rw (e, Yields)
          (stopped-IsRound w now Status.needs_attention Reason.source_unavailable b refl h.counted)
    | inr (source, e) ↦ rw (e, Yields) (locked_batch w source now b b.active_run_id refl h k)
  ]
