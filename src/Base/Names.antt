-- ===== src/Base/Names.antt =====
-- Texts that differ.
use Prim.Native.String.{String}
use mathlib.Core.Path.{◌≡◌, sym}
use mathlib.Core.Logic.{inl, inr}
use mathlib.Core.Bool.{false}
use text.Mathlib.Text.{◌==◌ as ◌=ₛ◌}
use text.Mathlib.TextEquality.{eq_iff}
use extrio.Base.Tests.{Bool-cases}

pub differ_sym : (a b : String) → (a =ₛ b) ≡ false → (b =ₛ a) ≡ false
differ_sym a b h = elim (Bool-cases (b =ₛ a)) [
  | inl y ↦ cc ((eq_iff a b).1 (sym ((eq_iff b a).0 y)), h)
  | inr n ↦ n
]
