-- ===== src/Recovery/Halting.antt =====
-- When a run is dispatched, and that none is once the batch has been asked to stop.
use extrio.Base.{
  ℕ, ◌+◌, ◌≤◌, ◌<◌, String, ◌≡◌, refl, ◌↔◌, Bool, true, false, Option, none, some, arith, is_some,
  or_else, eq_iff, ◌=ₛ◌, Option-cases, inl, inr, if◌then◌else◌, length,
}
use extrio.Base.Same.{holds→, →holds}
use extrio.Recovery.Values.{
  Progress, Run, Source, OptionProgress_discrete, OptionCheckpoint_discrete,
}
use extrio.Recovery.Batch.{Batch, Status, Reason, delay_at, is_active, stop, cool, save, finished}
use extrio.Recovery.Tick.{
  World, Round, quiet, lock_collector, settle_run, watch, is_live, is_cooling, wake_if_cooling,
  with_source, tick_batch, wake, launch, context_moved, progress_moved,
}
use extrio.Recovery.Commands.{request_stop, ask_run, stopping}
use extrio.Recovery.Life.{Life, here, ticked, asked}

-- What a dispatch asks of a batch that is cooling down.
pub record IsReady (context : Source → String) (w : World) (source : Source) (now : ℕ) (b : Batch)
    : Type 0 where
  pub before_deadline : now < b.expires_at
  pub same_context : context source ≡ b.context_digest
  pub schedule_off : source.schedule_enabled ≡ false
  pub same_progress : source.progress ≡ some b.expected_progress
  pub same_checkpoint : w.checkpoint source.id ≡ b.expected_checkpoint
  pub waited : (due : ℕ) × (b.next_attempt_at ≡ some due) × (due ≤ now)
  pub attempt_left : length b.attempt_run_ids < b.max_attempts
  pub requests_left : b.reserved_requests + 120 ≤ b.max_requests

context_stays :
    (context : Source → String) (source : Source) (b : Batch)
    → (context_moved context source b ≡ false)
      ↔ ((context source ≡ b.context_digest) × (source.schedule_enabled ≡ false))
unfolding context_moved
context_stays context source b = (
  λ h. ((eq_iff _ _).0 (ground (arith, h)), ground (arith, h)),
  λ h.
      let same : (context source =ₛ b.context_digest) ≡ true = (eq_iff _ _).1 h.0 in
      ground (arith, same, h.1),
)

progress_stays :
    (w : World) (source : Source) (b : Batch)
    → (progress_moved w source b ≡ false) ↔ (
        (source.progress ≡ some b.expected_progress)
        × (w.checkpoint source.id ≡ b.expected_checkpoint))
unfolding progress_moved
progress_stays w source b =
    let p = OptionProgress_discrete source.progress (some b.expected_progress) in
    let c = OptionCheckpoint_discrete (w.checkpoint source.id) b.expected_checkpoint in
    (
      λ h. (holds→ p (ground (arith, h)), holds→ c (ground (arith, h))),
      λ h. let same = →holds p h.0 in let kept = →holds c h.1 in ground (arith, same, kept),
    )

abbrev pub dispatches : Option Round → Bool
dispatches none = false
dispatches (some r) = r.dispatched

module _ (context : Source → String) (resume_host : Progress → String)
    (create_run : World → Batch → Option (String × World)) (w : World) (source : Source) (now : ℕ)
    (b : Batch) where
  -- Where the source's context and progress are those recorded, a batch that is cooling down
  -- dispatches just when its time has come and it has an attempt left.
  ready_dispatches :
      context_moved context source b ≡ false
      → progress_moved w source b ≡ false
      → IsReady context w source now b
      → is_some (create_run w b) ≡ true
      → dispatches (wake context resume_host create_run w source now b) ≡ true
  unfolding wake launch
  ready_dispatches stays kept ready made =
      let (due, is_due, over) = ready.waited in
      ground (
        arith, stays, kept, is_due, over, ready.before_deadline, ready.attempt_left,
        ready.requests_left, made,
      )

  dispatches_waited :
      dispatches (wake context resume_host create_run w source now b) ≡ true
      → (due : ℕ) × (b.next_attempt_at ≡ some due) × (due ≤ now)
  unfolding wake launch
  dispatches_waited h = elim (Option-cases b.next_attempt_at) [
    | inl nothing ↦ absurd (ground (arith, h, nothing))
    | inr (due, is_due) ↦ (due, is_due, ground (arith, h, is_due))
  ]

  dispatches_allowed :
      dispatches (wake context resume_host create_run w source now b) ≡ true
      → (context_moved context source b ≡ false)
        × (progress_moved w source b ≡ false)
        × (now < b.expires_at)
        × (length b.attempt_run_ids < b.max_attempts)
        × (b.reserved_requests + 120 ≤ b.max_requests)
        × (is_some (create_run w b) ≡ true)
  unfolding wake launch
  dispatches_allowed h = ground arith

  -- A batch that is cooling down dispatches a run exactly when its deadline has not come, the digest
  -- of the source's context is the recorded one and the source's schedule is off, the source's
  -- progress and its checkpoint are the recorded ones, the instant of the next attempt is set and
  -- has come, an attempt and 120 requests are left, and the run could be created.
  pub dispatches-wake_iff :
      (dispatches (wake context resume_host create_run w source now b) ≡ true)
      ↔ (IsReady context w source now b × (is_some (create_run w b) ≡ true))
  dispatches-wake_iff = (
    λ h.
        let (stays, kept, early, attempt, requests, made) = dispatches_allowed h in
        let (same, off) = (context_stays context source b).0 stays in
        let (progress, checkpoint) = (progress_stays w source b).0 kept in
        (
          record {
            before_deadline = early;
            same_context = same;
            schedule_off = off;
            same_progress = progress;
            same_checkpoint = checkpoint;
            waited = dispatches_waited h;
            attempt_left = attempt;
            requests_left = requests;
          },
          made,
        ),
    λ h.
        let (ready, made) = h in
        ready_dispatches
          ((context_stays context source b).1 (ready.same_context, ready.schedule_off))
          ((progress_stays w source b).1 (ready.same_progress, ready.same_checkpoint)) ready made,
  )

-- A batch is left to cool down only with an attempt left. It then wakes before its deadline, at
-- least 30 minutes after its run has finished, and no earlier than the delay of its attempt and the
-- wait that the source asked for; the source is held for it until that instant.
pub cool_waits :
    (run : Run) (now : ℕ) (b : Batch) (due : ℕ)
    → (cool run now b).next_attempt_at ≡ some due
    → (length b.attempt_run_ids < b.max_attempts)
      × (due < b.expires_at)
      × (finished run now + 1800 ≤ due)
      × (finished run now + delay_at (length b.attempt_run_ids) ≤ due)
      × (finished run now + or_else run.retry_after_seconds 0 ≤ due)
      × ((cool run now b).source_not_before ≡ some due)
      × ((cool run now b).status ≡ Status.cooling_down)
unfolding cool stop
cool_waits run now b due e = ground arith

-- The statuses of a batch that has been asked to stop, or is over.
abbrev pub is_halted : Status → Bool
is_halted Status.cooling_down = false
is_halted Status.running = false
is_halted _ = true

pub record IsQuiet (r : Round) : Type 0 where
  pub halted : is_halted r.batch.status ≡ true
  pub nothing_started : r.dispatched ≡ false

stop-halted :
    (s : Status) (r : Reason) (now : ℕ) (b : Batch)
    → is_active s ≡ false
    → is_halted (stop s r now b).status ≡ true
unfolding stop
stop-halted s r now b e = ground arith

watch-IsQuiet :
    (w : World) (run : Run) (now : ℕ) (b : Batch) (r : Round)
    → b.status ≡ Status.cancelling
    → watch w run now b ≡ some r
    → IsQuiet r
unfolding watch save
watch-IsQuiet w run now b r h e = ground arith

settle_run-halted :
    (context : Source → String) (resume_host : Progress → String) (w : World) (source : Source)
    (run : Run) (now : ℕ) (b : Batch)
    → b.status ≡ Status.cancelling
    → is_cooling (settle_run context resume_host w source run now b).status ≡ false
      × is_halted (settle_run context resume_host w source run now b).status ≡ true
unfolding settle_run stop
settle_run-halted context resume_host w source run now b h = ground arith

-- Whatever its status was, a batch that has been asked to stop is halted.
request_stop-halted :
    (w : World) (now : ℕ) (b : Batch) (r : Round)
    → request_stop w now b ≡ some r
    → is_halted r.batch.status ≡ true
unfolding request_stop ask_run stopping stop save
request_stop-halted w now b r e = ground arith

module _ (context : Source → String) (resume_host : Progress → String)
    (create_run : World → Batch → Option (String × World)) where
  module _ (w : World) (now : ℕ) (b : Batch) (r : Round) (h : b.status ≡ Status.cancelling) where
    ended-IsQuiet :
        (source : Source) (run : Run)
        → (if is_live run.status
            then watch w run now b
            else wake_if_cooling context resume_host create_run w source now
                (save now (settle_run context resume_host w source run now b)))
          ≡ some r
        → IsQuiet r
    unfolding wake_if_cooling save
    ended-IsQuiet source run e = ground (
      arith,
      watch-IsQuiet w run now b r h,
      settle_run-halted context resume_host w source run now b h,
    )

    with_source-IsQuiet :
        (source : Source) (active : Option String)
        → with_source context resume_host create_run w source now b active ≡ some r
        → IsQuiet r
    unfolding with_source wake_if_cooling
    with_source-IsQuiet source none e = ground arith
    with_source-IsQuiet source (some id) e = go (w.run id) e
      where
        go :
            (o : Option Run)
            → (elim o [
              | none ↦ none
              | some run ↦
                  if is_live run.status
                  then watch w run now b
                  else wake_if_cooling context resume_host create_run w source now
                      (save now (settle_run context resume_host w source run now b))
            ])
              ≡ some r
            → IsQuiet r
        go none e' = cc
        go (some run) e' = ended-IsQuiet source run e'

    tick_batch-IsQuiet : tick_batch context resume_host create_run w now b ≡ some r → IsQuiet r
    unfolding tick_batch save stop
    tick_batch-IsQuiet e = go (lock_collector w b.collector_id) e
      where
        go :
            (o : Option Source)
            → (elim o [
              | none ↦
                  some (
                    quiet w
                      (save now (stop Status.needs_attention Reason.source_unavailable now b)))
              | some source ↦
                  with_source context resume_host create_run w source now b b.active_run_id
            ])
              ≡ some r
            → IsQuiet r
        go none e' = ground arith
        go (some s) e' = with_source-IsQuiet s b.active_run_id e'

  cancelling_of_halted :
      (s : Status) → is_halted s ≡ true → is_active s ≡ true → s ≡ Status.cancelling
  cancelling_of_halted s h a = ground arith

  -- Once a batch has been asked to stop or is over, nothing dispatches a run for it any more: not
  -- `tick`, whatever the store then holds, nor another request to stop; and it stays so.
  pub Life-halted :
      {b c : Batch} {n : ℕ}
      → is_halted b.status ≡ true
      → Life context resume_host create_run b n c
      → (n ≡ 0) × (is_halted c.status ≡ true)
  Life-halted h here = (refl, h)
  Life-halted h (ticked {c = c} {r = r} w now l a k e) =
      let (z, halted) = Life-halted h l in
      let q = tick_batch-IsQuiet w now c r (cancelling_of_halted c.status halted a) e in
      (ground (arith, q.nothing_started, z), q.halted)
  Life-halted h (asked {c = c} {r = r} w now l e) =
      let (z, halted) = Life-halted h l in (z, request_stop-halted w now c r e)
