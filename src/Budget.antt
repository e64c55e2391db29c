-- ===== src/Budget.antt =====
-- backend/src/extrio/model_budget.py: what one AI task may spend on model calls.
-- Durations and clock readings are whole ticks, and the clock is read once for each method, as the
-- argument `now`. `margin` is `math.ceil(context_tokens * 0.05)`, a float computation.
pub mod Accounts
pub mod Gates
pub mod Limits
mod Examples
use extrio.Base.{
  ℕ, ◌+◌, Bool, true, false, ◌||◌, Option, none, some, leb, max, or_else, if◌then◌else◌, Outcome,
  ok, err,
}
use extrio.Base.Int.{ℤ, pos, ◌+ℤ◌, ◌-ℤ◌, ltb_ℤ, leb_ℤ, min_ℤ, max_ℤ}

pub data Code : Type 0 where
  model_time_budget_exceeded : Code
  model_token_budget_exceeded : Code
  model_call_budget_exceeded : Code
  model_output_budget_exceeded : Code
  model_context_insufficient : Code

pub record ModelLimits : Type 0 where
  pub context_tokens : ℕ
  pub max_input_tokens : ℕ
  pub max_output_tokens : ℕ
  pub reasoning_tokens : ℕ

-- The keys that `from_config` reads, each with the value it has, if the key is there.
pub record LimitsConfig : Type 0 where
  pub context_tokens : Option ℕ
  pub max_input_tokens : Option ℕ
  pub max_output_tokens : Option ℕ
  pub reasoning_tokens : Option ℕ

pub from_config : LimitsConfig → ModelLimits
from_config value = record {
  context_tokens = or_else value.context_tokens 32768;
  max_input_tokens = or_else value.max_input_tokens (or_else value.context_tokens 32768);
  max_output_tokens = or_else value.max_output_tokens 4096;
  reasoning_tokens = or_else value.reasoning_tokens 0;
}

pub record Reservation : Type 0 where
  pub input_tokens : ℤ
  pub output_tokens : ℤ
  pub settled : Bool

pub record TaskBudget : Type 0 where
  pub limits : ModelLimits
  pub max_calls : ℕ
  pub max_input_tokens : ℕ
  pub max_output_tokens : ℕ
  pub max_seconds : ℤ
  pub started : ℤ
  pub calls : ℕ
  pub input_used : ℤ
  pub output_used : ℤ
  pub stop_reason : Option Code

-- `TaskBudget.__init__` with its default limits
pub new : ModelLimits → ℤ → TaskBudget
new limits now = record {
  limits = limits;
  max_calls = 16;
  max_input_tokens = 120000;
  max_output_tokens = 16000;
  max_seconds = pos 240;
  started = now;
  calls = 0;
  input_used = pos 0;
  output_used = pos 0;
  stop_reason = none;
}

-- A method that raises leaves `stop_reason` written behind it.
abbrev pub Run : Type 0 → Type 0
Run A = TaskBudget → Outcome Code A × TaskBudget

abbrev continue : {A B : Type 0} → Outcome Code A → (A → Run B) → Run B
continue (ok a) f b = f a b
continue (err e) f b = (err e, b)

infixl 5 ◌>>=◌ ◌>>◌
◌>>=◌ : {A B : Type 0} → Run A → (A → Run B) → Run B
◌>>=◌ m f b = let (r, b') = m b in continue r f b'

abbrev ◌>>◌ : {B : Type 0} → Run (Unit {0}) → Run B → Run B
m >> k = m >>= λ _. k

fail : {A : Type 0} → Code → Run A
fail code b = (err code, record b { stop_reason = some code })

-- `if test: self.fail(code)`
fail_if : (TaskBudget → Bool) → Code → Run (Unit {0})
unfolding fail
fail_if test code b = if test b then fail code b else (ok tt, b)

pub remaining_seconds : TaskBudget → ℤ → ℤ
remaining_seconds b now = max_ℤ (pos 0) (b.max_seconds -ℤ (now -ℤ b.started))

pub check_consumption : ℤ → Run (Unit {0})
unfolding fail_if
check_consumption now = do
  fail_if (λ b. leb_ℤ (remaining_seconds b now) (pos 0)) model_time_budget_exceeded
  fail_if
      (λ b.
        ltb_ℤ (pos b.max_input_tokens) b.input_used
        || ltb_ℤ (pos b.max_output_tokens) b.output_used)
      model_token_budget_exceeded

pub check : ℤ → Run (Unit {0})
unfolding check_consumption
check now = do
  check_consumption now
  fail_if (λ b. leb b.max_calls b.calls) model_call_budget_exceeded

module _ (margin : ℕ → ℕ) where
  pub input_budget : ModelLimits → ℤ → ℤ
  input_budget limits output = max_ℤ (pos 0) (
      min_ℤ (pos limits.max_input_tokens)
        (pos limits.context_tokens -ℤ output -ℤ pos limits.reasoning_tokens)
      -ℤ pos (max 256 (margin limits.context_tokens)))

  charge : ℤ → ℤ → Run Reservation
  charge i o b = (
    ok (record { input_tokens = i; output_tokens = o; settled = false }),
    record b {
      calls = b.calls + 1;
      input_used = b.input_used +ℤ i;
      output_used = b.output_used +ℤ o;
    },
  )

  pub reserve : ℤ → ℤ → ℤ → Run Reservation
  unfolding check charge
  reserve now i o = do
    check now
    fail_if (λ b. ltb_ℤ o (pos 1) || ltb_ℤ (pos b.limits.max_output_tokens) o)
        model_output_budget_exceeded
    fail_if (λ b. ltb_ℤ i (pos 0) || ltb_ℤ (input_budget b.limits o) i) model_context_insufficient
    fail_if
        (λ b.
          ltb_ℤ (pos b.max_input_tokens) (b.input_used +ℤ i)
          || ltb_ℤ (pos b.max_output_tokens) (b.output_used +ℤ o))
        model_token_budget_exceeded
    charge i o

-- `isinstance(n, int) and n >= 0`, with what the counter becomes
abbrev pub adjust : ℤ → ℤ → Option ℤ → ℤ
adjust used reserved none = used
adjust used reserved (some n) = if leb_ℤ (pos 0) n then used +ℤ (n -ℤ reserved) else used

-- The reservation is an object that its caller keeps: the new one comes back beside the budget.
pub settle : Reservation → Option ℤ → Option ℤ → TaskBudget → Reservation × TaskBudget
settle r i o b = if r.settled then (r, b) else (
  record r { settled = true },
  record b {
    input_used = adjust b.input_used r.input_tokens i;
    output_used = adjust b.output_used r.output_tokens o;
  },
)
