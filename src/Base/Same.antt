-- ===== src/Base/Same.antt =====
-- Python's `==` on values: a decision for each type, and its Boolean test.
use Prim.Native.String.{String}
use mathlib.Core.Path.{◌≡◌, refl}
use mathlib.Core.Logic.{◌↔◌}
use mathlib.Core.Bool.{Bool, true, false}
use text.Mathlib.Text.{◌==◌}
use text.Mathlib.TextEquality.{eq_iff}

decide_text : (a b : String) (t : Bool) → ((t ≡ true) ↔ (a ≡ b)) → Dec (a ≡ b)
decide_text a b true e = yes (e.0 refl)
decide_text a b false e = no (λ p. cc (e.1 p))

unfoldable pub String_discrete : Discrete String
unfolding decide_text
String_discrete a b = decide_text a b (a == b) (eq_iff a b)

-- The Boolean of a decision.
abbrev pub holds {ℓ} : {P : Type ℓ} → Dec P → Bool
holds (yes p) = true
holds (no n) = false

pub holds→ {ℓ} : {P : Type ℓ} (d : Dec P) → holds d ≡ true → P
holds→ (yes p) h = p
holds→ (no n) h = cc

pub →holds {ℓ} : {P : Type ℓ} (d : Dec P) → P → holds d ≡ true
→holds (yes p) h = refl
→holds (no n) h = absurd (n h)
