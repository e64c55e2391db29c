-- ===== src/Fields/Texts.antt =====
-- Python's texts as a field's checks read them: `strip`, `len`, `in`, `text[:n]` and the pattern of a
-- key.
use Prim.Native.Char.{Char, code}
use Prim.Native.String.count
use Prim.Native.String.compare
use Prim.Native.String.{String, count, [] as []ₛ, ◌∷◌ as ◌∷ₛ◌}
use extrio.Base.{
  ℕ, zero, suc, ◌≡◌, ◌≤◌, refl, ap, arith, Bool, true, false, ◌&&◌, ◌||◌, List, [], ◌∷◌, leb, ◌==◌,
  ◌=ₛ◌,
}

abbrev between : ℕ → ℕ → ℕ → Bool
between a b n = leb a n && leb n b

abbrev is_letter : Char → Bool
is_letter c = between 65 90 (code c) || between 97 122 (code c)

abbrev is_word : Char → Bool
is_word c = is_letter c || between 48 57 (code c) || (code c == 95)

abbrev all_word : String → Bool
all_word []ₛ = true
all_word (c ∷ₛ s) = is_word c && all_word s

-- re.fullmatch(r"[A-Za-z][A-Za-z0-9_]{0,63}", key)
abbrev pub is_key : String → Bool
is_key []ₛ = false
is_key (c ∷ₛ s) = is_letter c && all_word s && leb (count s) 63

-- str.isspace of one character
abbrev is_space : Char → Bool
is_space c =
    let n = code c in
    between 9 13 n
    || between 28 32 n
    || (n == 133)
    || (n == 160)
    || (n == 5760)
    || between 8192 8202 n
    || between 8232 8233 n
    || (n == 8239)
    || (n == 8287)
    || (n == 12288)

-- not text.strip()
abbrev pub is_blank : String → Bool
is_blank []ₛ = true
is_blank (c ∷ₛ s) = is_space c && is_blank s

abbrev pub is_one_of : String → List String → Bool
is_one_of s [] = false
is_one_of s (k ∷ ks) = (s =ₛ k) || is_one_of s ks

-- text[:n]
abbrev pub prefix : ℕ → String → String
prefix zero s = []ₛ
prefix (suc n) []ₛ = []ₛ
prefix (suc n) (c ∷ₛ s) = c ∷ₛ prefix n s

pub prefix_all : (n : ℕ) (s : String) → count s ≤ n → prefix n s ≡ s
prefix_all zero []ₛ h = refl
prefix_all (suc n) []ₛ h = refl
prefix_all zero (c ∷ₛ s) h = absurd (omega (arith, count.cons c s, h))
prefix_all (suc n) (c ∷ₛ s) h = ap (λ t. c ∷ₛ t) (prefix_all n s (omega (arith, count.cons c s, h)))

pub blank_empty : (s : String) → is_blank s ≡ false → (s =ₛ "") ≡ false
blank_empty []ₛ h = cc h
blank_empty (c ∷ₛ s) h = rw (compare.cons-nil c s)
