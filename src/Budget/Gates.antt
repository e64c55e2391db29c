-- ===== src/Budget/Gates.antt =====
-- The checks of a budget one after another: each passes with the budget untouched, or refuses.
use extrio.Base.{ℕ, ◌≡◌, ◌⊎◌, inl, inr, Bool, true, false, some, Bool-cases, Outcome, ok, err}
use extrio.Base.Int.{ℤ}
use extrio.Budget.{Code, TaskBudget, Run, ◌>>=◌, ◌>>◌, fail_if, check, charge, reserve}

abbrev pub succeeds : {A : Type 0} → Outcome Code A × TaskBudget → Bool
succeeds (ok a, b) = true
succeeds (err e, b) = false

-- A call that is refused records its reason and changes nothing else.
abbrev pub refused : {A : Type 0} → TaskBudget → Code → Outcome Code A × TaskBudget
refused b e = (err e, record b { stop_reason = some e })

-- A check passes with the budget as it was, or refuses.
record IsGate (m : Run (Unit {0})) : Type 0 where
  at : (b : TaskBudget) → (m b ≡ (ok tt, b)) ⊎ ((e : Code) × (m b ≡ refused b e))

-- What does not succeed has refused.
record Refuses {A : Type 0} (m : Run A) : Type 0 where
  at : (b : TaskBudget) → succeeds (m b) ≡ false → (e : Code) × (m b ≡ refused b e)

fail_if-IsGate : (test : TaskBudget → Bool) (e : Code) → IsGate (fail_if test e)
unfolding fail_if
fail_if-IsGate test e = record {
  at = λ b. elim (Bool-cases (test b)) [ inl h ↦ inr (e, rw h) | inr h ↦ inl (rw h) ];
}

module _ {A : Type 0} (m : Run (Unit {0})) (k : Run A) where
  then-Refuses : IsGate m → Refuses k → Refuses (m >> k)
  unfolding ◌>>=◌
  then-Refuses g f = record {
    at = λ b h. elim (g.at b) [ inl p ↦ rw p (f.at b (rw p at h)) | inr (e, p) ↦ (e, rw p) ];
  }

then-IsGate : (m n : Run (Unit {0})) → IsGate m → IsGate n → IsGate (m >> n)
unfolding ◌>>=◌
then-IsGate m n g f = record {
  at = λ b. elim (g.at b) [ inl p ↦ rw p (f.at b) | inr (e, p) ↦ inr (e, rw p) ];
}

charge-Refuses : (margin : ℕ → ℕ) (i o : ℤ) → Refuses (charge margin i o)
unfolding charge
charge-Refuses margin i o = record { at = λ b h. cc }

ruleset gate_rules = (fail_if-IsGate, then-IsGate, then-Refuses, charge-Refuses)

check-IsGate : (now : ℤ) → IsGate (check now)
unfolding check
check-IsGate now = search gate_rules

reserve-Refuses : (margin : ℕ → ℕ) (now i o : ℤ) → Refuses (reserve margin now i o)
unfolding reserve
reserve-Refuses margin now i o = search (gate_rules, check-IsGate)

pub refused_of_fails :
    (b : TaskBudget) (margin : ℕ → ℕ) (now i o : ℤ)
    → succeeds (reserve margin now i o b) ≡ false
    → (e : Code) × (reserve margin now i o b ≡ refused b e)
refused_of_fails b margin now i o = (reserve-Refuses margin now i o).at b
