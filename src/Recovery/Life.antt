-- ===== src/Recovery/Life.antt =====
-- The whole life of a batch: rounds of `tick` and requests to stop, in any order, at any instants,
-- each over whatever the store then holds.
use extrio.Base.{
  ℕ, ◌+◌, ◌*◌, ◌≤◌, String, ◌≡◌, ap, true, false, Option, some, [], arith, if◌then◌else◌, length,
}
use extrio.Recovery.Values.{Progress, Source}
use extrio.Recovery.Batch.{Batch, is_active, stop, save}
use extrio.Recovery.Tick.{World, Round, tick_batch}
use extrio.Recovery.Commands.{request_stop, ask_run, stopping}
use extrio.Recovery.Invariant.{IsSound, IsRound}
use extrio.Recovery.Rounds.{Knows, tick_batch-IsRound}

-- A request to stop keeps a sound batch sound, and its attempts.
pub record IsStopped (b : Batch) (r : Round) : Type 0 where
  pub sound : IsSound r.batch
  pub same_attempts : length r.batch.attempt_run_ids ≡ length b.attempt_run_ids
  pub nothing_started : r.dispatched ≡ false

request_stop-IsStopped :
    (w : World) (now : ℕ) (b : Batch) (r : Round)
    → IsSound b
    → request_stop w now b ≡ some r
    → IsStopped b r
unfolding request_stop ask_run stopping stop save
request_stop-IsStopped w now b r h e = ground arith

module _ (context : Source → String) (resume_host : Progress → String)
    (create_run : World → Batch → Option (String × World)) where
  -- `Life b n c`: from `b` the batch has become `c`, and `n` runs have been dispatched.
  pub data Life (b : Batch) : ℕ → Batch → Type 0 where
    here : Life b 0 b
    ticked :
        {n : ℕ} {c : Batch} {r : Round} (w : World) (now : ℕ)
        → Life b n c
        → is_active c.status ≡ true
        → Knows w c
        → tick_batch context resume_host create_run w now c ≡ some r
        → Life b (if r.dispatched then n + 1 else n) r.batch
    asked :
        {n : ℕ} {c : Batch} {r : Round} (w : World) (now : ℕ)
        → Life b n c
        → request_stop w now c ≡ some r
        → Life b n r.batch

  record IsAlong (b : Batch) (n : ℕ) (c : Batch) : Type 0 where
    sound : IsSound c
    attempts_counted : length c.attempt_run_ids ≡ length b.attempt_run_ids + n

  Life-IsAlong : {b c : Batch} {n : ℕ} → IsSound b → Life b n c → IsAlong b n c
  Life-IsAlong h here = record { sound = h; attempts_counted = omega arith }
  Life-IsAlong h (ticked {c = c} {r = r} w now l a k e) =
      let i = Life-IsAlong h l in
      let t : IsRound c r =
        rw e at (tick_batch-IsRound context resume_host create_run w now c i.sound k) in
      record {
        sound = t.sound;
        attempts_counted = ground (arith, i.attempts_counted, t.attempts_gained);
      }
  Life-IsAlong h (asked {c = c} {r = r} w now l e) =
      let i = Life-IsAlong h l in
      let s = request_stop-IsStopped w now c r i.sound e in
      record {
        sound = s.sound;
        attempts_counted = omega (arith, i.attempts_counted, s.same_attempts);
      }

  -- Over the whole life of a sound batch that starts with no attempt, at most three runs are
  -- dispatched, the attempts recorded are exactly those, and the source requests reserved are 120
  -- for each, so at most 360.
  pub Life-bounded :
      {b c : Batch} {n : ℕ}
      → IsSound b
      → b.attempt_run_ids ≡ []
      → Life b n c
      → (n ≤ 3)
        × (length c.attempt_run_ids ≡ n)
        × (c.reserved_requests ≡ 120 * n)
        × (c.reserved_requests ≤ c.max_requests)
  Life-bounded h e l =
      let i = Life-IsAlong h l in
      let c = i.sound.counted in
      let z = ap length e in
      (
        omega (arith, i.attempts_counted, c.attempts, z),
        omega (arith, i.attempts_counted, z),
        omega (arith, i.attempts_counted, c.reserved, z),
        omega (arith, c.attempts, c.reserved, c.request_cap),
      )
