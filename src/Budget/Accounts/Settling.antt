-- ===== src/Budget/Accounts/Settling.antt =====
-- What one settlement does to the counters and to the sums over the calls.
use extrio.Base.{
  ℕ, zero, suc, ◌≡◌, refl, ap, inl, inr, false, Option, none, some, List, [], ◌∷◌, arith, length,
  All, Bool-cases,
}
use extrio.Base.Int.{ℤ, pos, ◌+ℤ◌, ◌-ℤ◌, ◌≤ℤ◌, leb_ℤ, max_ℤ, parts_of_eq, int_laws}
use extrio.Budget.{TaskBudget, adjust, settle}
use extrio.Budget.Accounts.{
  Call, cost, settled_call, settle_nth, input_costs, output_costs, overrun, input_overruns,
  IsReserved,
}

-- What settling one call does to the counters, against what it does to the call's costs.
record Moves (b b' : TaskBudget) (c c' : Call) : Type 0 where
  input_moved : b'.input_used +ℤ c.input_cost ≡ b.input_used +ℤ c'.input_cost
  output_moved : b'.output_used +ℤ c.output_cost ≡ b.output_used +ℤ c'.output_cost
  input_overrun :
      b'.input_used +ℤ overrun c.reservation.input_tokens c.input_cost
      ≤ℤ b.input_used +ℤ overrun c'.reservation.input_tokens c'.input_cost
  calls_kept : b'.calls ≡ b.calls
  max_kept : b'.max_calls ≡ b.max_calls
  input_max_kept : b'.max_input_tokens ≡ b.max_input_tokens

adjust-cost : (used r : ℤ) (n : Option ℤ) → adjust used r n +ℤ r ≡ used +ℤ cost r n
adjust-cost used r none = refl
adjust-cost used r (some n) = elim (Bool-cases (leb_ℤ (pos 0) n)) [
  | inl e ↦ rw e (omega int_laws)
  | inr e ↦ rw e
]

pub le-max_ℤ : (a b : ℤ) → (a ≤ℤ max_ℤ a b) × (b ≤ℤ max_ℤ a b)
le-max_ℤ a b = ground arith

max_ℤ-self : (r : ℤ) → max_ℤ (pos 0) (r -ℤ r) ≡ pos 0
unfolding ◌-ℤ◌
max_ℤ-self r = ground arith

module _ (c : Call) (i o : Option ℤ) (b : TaskBudget) (h : IsReserved c) where
  input_moves :
      c.reservation.settled ≡ false
      → adjust b.input_used c.reservation.input_tokens i +ℤ c.input_cost
        ≡ b.input_used +ℤ cost c.reservation.input_tokens i
  input_moves e = rw (h e).0 (adjust-cost b.input_used c.reservation.input_tokens i)

  output_moves :
      c.reservation.settled ≡ false
      → adjust b.output_used c.reservation.output_tokens o +ℤ c.output_cost
        ≡ b.output_used +ℤ cost c.reservation.output_tokens o
  output_moves e = rw (h e).1 (adjust-cost b.output_used c.reservation.output_tokens o)

  input_overruns_by :
      c.reservation.settled ≡ false
      → adjust b.input_used c.reservation.input_tokens i
          +ℤ overrun c.reservation.input_tokens c.input_cost
        ≤ℤ b.input_used +ℤ overrun c.reservation.input_tokens (cost c.reservation.input_tokens i)
  input_overruns_by e =
      rw ((h e).0, max_ℤ-self c.reservation.input_tokens)
        (omega (
          int_laws,
          parts_of_eq (adjust-cost b.input_used c.reservation.input_tokens i),
          le-max_ℤ (pos 0) (cost c.reservation.input_tokens i -ℤ c.reservation.input_tokens),
        ))

  settle-Moves : let (r', b') = settle c.reservation i o b in Moves b b' c (settled_call c i o r')
  unfolding settle settled_call
  settle-Moves = elim (Bool-cases c.reservation.settled) [
    | inl e ↦ rw e (record {
      input_moved = refl;
      output_moved = refl;
      input_overrun = omega arith;
      calls_kept = refl;
      max_kept = refl;
      input_max_kept = refl;
    })
    | inr e ↦ rw e (record {
      input_moved = input_moves e;
      output_moved = output_moves e;
      input_overrun = input_overruns_by e;
      calls_kept = refl;
      max_kept = refl;
      input_max_kept = refl;
    })
  ]

  settle-IsReserved : IsReserved (settled_call c i o (settle c.reservation i o b).0)
  unfolding settle settled_call
  settle-IsReserved e = ground (arith, h)

-- The same for the sums over all the calls.
pub record Shifts (b b' : TaskBudget) (calls calls' : List Call) : Type 0 where
  pub input_shifted : b'.input_used +ℤ input_costs calls ≡ b.input_used +ℤ input_costs calls'
  pub output_shifted : b'.output_used +ℤ output_costs calls ≡ b.output_used +ℤ output_costs calls'
  pub overrun_shifted :
      b'.input_used +ℤ input_overruns calls ≤ℤ b.input_used +ℤ input_overruns calls'
  pub calls_kept : b'.calls ≡ b.calls
  pub max_kept : b'.max_calls ≡ b.max_calls
  pub input_max_kept : b'.max_input_tokens ≡ b.max_input_tokens
  pub length_kept : length calls' ≡ length calls
  pub reserved : All IsReserved calls'

pub settle_nth-Shifts :
    (k : ℕ) (i o : Option ℤ) (b : TaskBudget) (calls : List Call)
    → All IsReserved calls
    → let (b', calls') = settle_nth k i o b calls in Shifts b b' calls calls'
unfolding settle_nth input_costs output_costs input_overruns
settle_nth-Shifts k i o b [] h = record {
  input_shifted = refl;
  output_shifted = refl;
  overrun_shifted = omega arith;
  calls_kept = refl;
  max_kept = refl;
  input_max_kept = refl;
  length_kept = refl;
  reserved = tt;
}
settle_nth-Shifts zero i o b (c ∷ calls) h =
    let m = settle-Moves c i o b h.0 in
    record {
      input_shifted = omega (int_laws, parts_of_eq m.input_moved);
      output_shifted = omega (int_laws, parts_of_eq m.output_moved);
      overrun_shifted = omega (int_laws, m.input_overrun);
      calls_kept = m.calls_kept;
      max_kept = m.max_kept;
      input_max_kept = m.input_max_kept;
      length_kept = refl;
      reserved = (settle-IsReserved c i o b h.0, h.1);
    }
settle_nth-Shifts (suc k) i o b (c ∷ calls) h =
    let m = settle_nth-Shifts k i o b calls h.1 in
    record {
      input_shifted = omega (int_laws, parts_of_eq m.input_shifted);
      output_shifted = omega (int_laws, parts_of_eq m.output_shifted);
      overrun_shifted = omega (int_laws, m.overrun_shifted);
      calls_kept = m.calls_kept;
      max_kept = m.max_kept;
      input_max_kept = m.input_max_kept;
      length_kept = ap suc m.length_kept;
      reserved = (h.0, m.reserved);
    }
