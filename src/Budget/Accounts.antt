-- ===== src/Budget/Accounts.antt =====
-- A task's budget over any sequence of reservations and settlements, in any order. The ledger keeps
-- beside the budget each reservation object, the latest first, and what that call costs the task.
pub mod Settling
pub mod Totals
use extrio.Base.{
  ℕ, zero, suc, ◌+◌, ◌≤◌, ◌≡◌, refl, ap, ◌⊎◌, inl, inr, Bool, true, false, Option, none, some, List,
  [], ◌∷◌, ◌++◌, arith, if◌then◌else◌, length, length-append, All, Bool-cases, Outcome, ok, err,
}
use extrio.Base.Int.{ℤ, pos, ◌+ℤ◌, ◌-ℤ◌, ◌≤ℤ◌, leb_ℤ, max_ℤ, parts_of_eq, int_laws}
use extrio.Budget.{Code, TaskBudget, Reservation, reserve, adjust, settle}
use extrio.Budget.Limits.{charged, reserve_cases}

pub record Call : Type 0 where
  pub reservation : Reservation
  pub input_cost : ℤ
  pub output_cost : ℤ

pub record Ledger : Type 0 where
  pub budget : TaskBudget
  pub calls : List Call

-- What the caller of the budget does: it reserves, or settles its k-th reservation with what the
-- provider reported.
pub data Event : Type 0 where
  reserving : (now i o : ℤ) → Event
  settling : (k : ℕ) (i o : Option ℤ) → Event

-- What a call costs once the provider has reported: its report, if that is a count.
abbrev pub cost : ℤ → Option ℤ → ℤ
cost reserved none = reserved
cost reserved (some n) = if leb_ℤ (pos 0) n then n else reserved

pub placed : Outcome Code Reservation → TaskBudget → List Call → Ledger
placed (ok r) b calls = record {
  budget = b;
  calls =
      record { reservation = r; input_cost = r.input_tokens; output_cost = r.output_tokens }
      ∷ calls;
}
placed (err e) b calls = record { budget = b; calls = calls }

settled_call : Call → Option ℤ → Option ℤ → Reservation → Call
settled_call c i o r' = if c.reservation.settled then record c { reservation = r' } else record {
  reservation = r';
  input_cost = cost c.reservation.input_tokens i;
  output_cost = cost c.reservation.output_tokens o;
}

pub settle_nth : ℕ → Option ℤ → Option ℤ → TaskBudget → List Call → TaskBudget × List Call
unfolding settled_call
settle_nth k i o b [] = (b, [])
settle_nth zero i o b (c ∷ calls) =
    let (r', b') = settle c.reservation i o b in (b', settled_call c i o r' ∷ calls)
settle_nth (suc k) i o b (c ∷ calls) =
    let (b', calls') = settle_nth k i o b calls in (b', c ∷ calls')

module _ (margin : ℕ → ℕ) where
  pub step : Ledger → Event → Ledger
  step l (reserving now i o) = let (r, b) = reserve margin now i o l.budget in placed r b l.calls
  step l (settling k i o) =
      let (b, calls) = settle_nth k i o l.budget l.calls in record { budget = b; calls = calls }

  pub run : Ledger → List Event → Ledger
  run l [] = l
  run l (e ∷ es) = run (step l e) es

abbrev pub opened : TaskBudget → Ledger
opened b = record { budget = b; calls = [] }

-- The sums over the calls placed.
pub input_costs : List Call → ℤ
input_costs [] = pos 0
input_costs (c ∷ calls) = c.input_cost +ℤ input_costs calls

pub output_costs : List Call → ℤ
output_costs [] = pos 0
output_costs (c ∷ calls) = c.output_cost +ℤ output_costs calls

-- What a provider reported beyond what was reserved.
abbrev pub overrun : ℤ → ℤ → ℤ
overrun reserved cost = max_ℤ (pos 0) (cost -ℤ reserved)

pub input_overruns : List Call → ℤ
input_overruns [] = pos 0
input_overruns (c ∷ calls) = overrun c.reservation.input_tokens c.input_cost +ℤ input_overruns calls

-- An unsettled call costs what it reserved.
abbrev IsReserved : Call → Type 0
IsReserved c =
    c.reservation.settled ≡ false
    → (c.input_cost ≡ c.reservation.input_tokens) × (c.output_cost ≡ c.reservation.output_tokens)
