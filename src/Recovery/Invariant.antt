-- ===== src/Recovery/Invariant.antt =====
-- What holds of a batch between two operations.
use extrio.Base.{
  ℕ, ◌+◌, ◌*◌, ◌≤◌, String, ◌≡◌, refl, Bool, true, false, ◌||◌, Option, none, some, ltb, leb, arith,
  is_some, if◌then◌else◌, length,
}
use extrio.Recovery.Values.{Progress, Run, Source}
use extrio.Recovery.Batch.{Batch, Status, Reason, request_limit, is_active, stop, cool, save}
use extrio.Recovery.Tick.{World, Round, quiet, settle_run, launch, launched, wake}

-- What a status says of the other fields: a batch that cools down has an instant before its
-- deadline at which it wakes, and no run; one that runs or is being cancelled has a run; one that
-- is over has an end, and no instant at which it wakes.
abbrev pub Fits : Status → Batch → Type 0
Fits Status.cooling_down b =
    (b.active_run_id ≡ none)
    × (elim b.next_attempt_at [ none ↦ false | some t ↦ ltb t b.expires_at ] ≡ true)
Fits Status.running b = is_some b.active_run_id ≡ true
Fits Status.cancelling b = is_some b.active_run_id ≡ true
Fits _ b = (b.next_attempt_at ≡ none) × (is_some b.finished_at ≡ true)

-- Every attempt has reserved its requests, and there are at most three.
pub record IsCounted (b : Batch) : Type 0 where
  pub three_attempts : b.max_attempts ≡ 3
  pub request_cap : b.max_requests ≡ 360
  pub reserved : b.reserved_requests ≡ 120 * length b.attempt_run_ids
  pub attempts : length b.attempt_run_ids ≤ 3

pub record IsSound (b : Batch) : Type 0 where
  pub counted : IsCounted b
  pub fits : Fits b.status b

pub stop-IsSound :
    (s : Status) (r : Reason) (now : ℕ) (b : Batch)
    → is_active s ≡ false
    → IsCounted b
    → IsSound (stop s r now b)
unfolding stop
stop-IsSound s r now b e h = ground arith

pub cool-IsSound :
    (run : Run) (now : ℕ) (b : Batch)
    → b.active_run_id ≡ none
    → IsCounted b
    → IsSound (cool run now b)
unfolding cool
cool-IsSound run now b e h = ground arith

pub save-IsSound : (now : ℕ) (b : Batch) → IsSound b → IsSound (save now b)
unfolding save
save-IsSound now b h = ground arith

terminal_if :
    (t : Bool) → is_active (if t then Status.cancelled else Status.needs_attention) ≡ false
terminal_if true = refl
terminal_if false = refl

-- What one round does to a batch: it stays sound and keeps its identity, its deadline, its hosts
-- and a request to cancel, and it gains an attempt exactly when a run is dispatched.
pub record IsRound (b : Batch) (r : Round) : Type 0 where
  pub sound : IsSound r.batch
  pub same_id : r.batch.id ≡ b.id
  pub same_deadline : r.batch.expires_at ≡ b.expires_at
  pub same_hosts : r.batch.hosts ≡ b.hosts
  pub still_asked : r.batch.cancel_requested ≡ b.cancel_requested
  pub attempts_gained :
      length r.batch.attempt_run_ids ≡ length b.attempt_run_ids + (if r.dispatched then 1 else 0)

-- The code returns, and what it returns satisfies `P`.
abbrev pub Yields {ℓ} : {A : Type ℓ} → (A → Type 0) → Option A → Type 0
Yields P none = ⊥
Yields P (some a) = P a

pub stopped-IsRound :
    (w : World) (now : ℕ) (s : Status) (r : Reason) (b : Batch)
    → is_active s ≡ false
    → IsCounted b
    → IsRound b (quiet w (save now (stop s r now b)))
unfolding stop save
stopped-IsRound w now s r b e h = ground arith

pub quiet-IsRound : (w : World) (b : Batch) → IsSound b → IsRound b (quiet w b)
quiet-IsRound w b h = ground arith

saved-IsRound : (w : World) (now : ℕ) (b : Batch) → IsSound b → IsRound b (quiet w (save now b))
unfolding save
saved-IsRound w now b h = ground arith

launch-IsRound :
    (o : Option (String × World)) (w : World) (now : ℕ) (b : Batch)
    → IsSound b
    → (leb b.max_attempts (length b.attempt_run_ids)
        || ltb b.max_requests (b.reserved_requests + request_limit))
      ≡ false
    → IsRound b (launch o w now b)
unfolding launch launched stop save
launch-IsRound none w now b h e = ground arith
launch-IsRound (some (run_id, w')) w now b h e = ground arith

module _ (context : Source → String) (resume_host : Progress → String) where
  pub wake-IsRound :
      (create_run : World → Batch → Option (String × World)) (w : World) (source : Source) (now : ℕ)
      (b : Batch)
      → IsSound b
      → b.status ≡ Status.cooling_down
      → Yields (IsRound b) (wake context resume_host create_run w source now b)
  unfolding wake
  wake-IsRound create_run w source now b h e = ground (
    arith,
    stopped-IsRound w now Status.needs_attention Reason.deadline_reached b,
    stopped-IsRound w now Status.needs_attention Reason.context_changed b,
    stopped-IsRound w now Status.needs_attention Reason.progress_changed b,
    stopped-IsRound w now Status.needs_attention Reason.attempt_limit b,
    saved-IsRound w now b,
    launch-IsRound (create_run w b) w now b,
  )

-- Settling changes neither what a batch is nor its attempts.
pub record IsSettled (b b' : Batch) : Type 0 where
  pub sound : IsSound b'
  pub same_id : b'.id ≡ b.id
  pub same_deadline : b'.expires_at ≡ b.expires_at
  pub same_hosts : b'.hosts ≡ b.hosts
  pub still_asked : b'.cancel_requested ≡ b.cancel_requested
  pub same_attempts : length b'.attempt_run_ids ≡ length b.attempt_run_ids

abbrev freed : Batch → Batch
freed b = record b { active_run_id = none }

abbrev released : Batch → Batch
released b = record b { active_run_id = none; source_not_before = none }

module _ (b : Batch) (h : IsCounted b) where
  stop-IsSettled :
      (s : Status) (r : Reason) (now : ℕ)
      → is_active s ≡ false
      → IsSettled b (stop s r now (freed b))
  unfolding stop
  stop-IsSettled s r now e = ground arith

  recovered-IsSettled :
      (r : Reason) (now : ℕ) → IsSettled b (stop Status.recovered r now (released b))
  unfolding stop
  recovered-IsSettled r now = ground arith

  cool-IsSettled : (run : Run) (now : ℕ) → IsSettled b (cool run now (freed b))
  unfolding cool
  cool-IsSettled run now = ground arith

  IsSettled-if :
      (t : Bool) (x y : Batch) → IsSettled b x → IsSettled b y → IsSettled b (if t then x else y)
  IsSettled-if true x y hx hy = hx
  IsSettled-if false x y hx hy = hy

  module _ (context : Source → String) (resume_host : Progress → String) where
    pub settle_run-IsSettled :
        (w : World) (source : Source) (run : Run) (now : ℕ)
        → IsSettled b (settle_run context resume_host w source run now b)
    unfolding settle_run
    settle_run-IsSettled w source run now =
        search (stop-IsSettled, recovered-IsSettled, cool-IsSettled, IsSettled-if, terminal_if)
          depth 12

pub settled-IsRound :
    (b b' : Batch) (now : ℕ) (r : Round) → IsSettled b b' → IsRound (save now b') r → IsRound b r
unfolding save
settled-IsRound b b' now r s h = ground arith
