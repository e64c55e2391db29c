-- ===== src/Activity.antt =====
-- The phase history of a model run: `advance_activity` of backend/src/extrio/store.py.
-- Instants are numbers of milliseconds, and a phase's metrics are a list of names and numbers.
use extrio.Base.{
  ℕ, ◌-◌, String, Bool, true, false, ◌&&◌, not, Option, none, some, List, [], ◌∷◌, ◌++◌, ◌=ₛ◌,
  if◌then◌else◌,
}
mod Phases
mod Examples

abbrev pub Metrics : Type 0
Metrics = List (String × ℕ)

-- TERMINAL_OPERATION_STATUSES
pub data Terminal : Type 0 where
  succeeded failed cancelled timed_out : Terminal

pub data Status : Type 0 where
  running : Status
  ended : Terminal → Status

pub record Entry : Type 0 where
  pub phase : String
  pub status : Status
  pub started_at : ℕ
  pub finished_at : Option ℕ
  pub duration_ms : Option ℕ
  pub metrics : Metrics

abbrev pub is_running : Status → Bool
is_running running = true
is_running (ended _) = false

-- subtraction on ℕ stops at 0, as `max(0, ...)` does
abbrev pub elapsed_ms : ℕ → ℕ → ℕ
elapsed_ms started finished = finished - started

-- the update of a running phase that is over
abbrev pub close : Terminal → Metrics → ℕ → Entry → Entry
close status metrics now e = record e {
  status = ended status;
  finished_at = some now;
  duration_ms = some (elapsed_ms e.started_at now);
  metrics = metrics;
}

abbrev pub begin : String → Metrics → ℕ → Entry
begin phase metrics now = record {
  phase = phase;
  status = running;
  started_at = now;
  finished_at = none;
  duration_ms = none;
  metrics = metrics;
}

-- a phase that starts and ends at once
abbrev pub at_once : String → Terminal → Metrics → ℕ → Entry
at_once phase status metrics now = record {
  phase = phase;
  status = ended status;
  started_at = now;
  finished_at = some now;
  duration_ms = some 0;
  metrics = metrics;
}

-- "failed" if the run failed, and "succeeded" otherwise
abbrev pub closing : Terminal → Terminal
closing failed = failed
closing _ = succeeded

abbrev pub is_success : Terminal → Bool
is_success succeeded = true
is_success _ = false

module _ (phase : String) (metrics : Metrics) (now : ℕ) where
  unfoldable pub first : Option Terminal → Entry
  first none = begin phase metrics now
  first (some t) = at_once phase t metrics now

  -- what becomes of the latest phase, and what follows it
  unfoldable pub advance_latest : Option Terminal → Entry → List Entry
  advance_latest (some t) e =
      let over = if is_running e.status then close (closing t) metrics now e else e in
      if is_success t && not (e.phase =ₛ "completed")
      then over ∷ at_once "completed" succeeded metrics now ∷ []
      else over ∷ []
  advance_latest none e =
      if (e.phase =ₛ phase) && is_running e.status
      then record e { metrics = metrics } ∷ []
      else if is_running e.status
      then close succeeded metrics now e ∷ begin phase metrics now ∷ []
      else e ∷ begin phase metrics now ∷ []

  unfoldable pub advance_activity : Option Terminal → List Entry → List Entry
  advance_activity terminal [] = first terminal ∷ []
  advance_activity terminal (e ∷ []) = advance_latest terminal e
  advance_activity terminal (e ∷ f ∷ es) = e ∷ advance_activity terminal (f ∷ es)
