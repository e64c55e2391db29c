-- ===== src/Evidence/Decimal.antt =====
-- Python's `str` and `int` on natural numbers, with texts as lists of code points.
use native.Mathlib.Nat.{div-add-mod', mod-lt}
use extrio.Base.{
  ltb, leb, if◌then◌else◌, Bool-cases, length, length-append, all, ℕ, zero, suc, ◌+◌, ◌-◌, ◌*◌, ◌/◌,
  ◌%◌, ◌≤◌, ◌<◌, max, ◌≡◌, refl, inl, inr, Bool, true, ◌&&◌, List, [], ◌∷◌, ◌++◌, arith,
}

abbrev pub Text : Type 0
Text = List ℕ

-- str(n), for fuel that is greater than n
abbrev digits : ℕ → ℕ → Text
digits zero n = []
digits (suc fuel) n =
    let front = digits fuel (n / 10) in
    if ltb n 10 then (48 + n) ∷ [] else front ++ (48 + n % 10) ∷ []

unfoldable pub show : ℕ → Text
show n = digits (suc n) n

-- int(text), from the digits that were read
abbrev pub parse_from : ℕ → Text → ℕ
parse_from n [] = n
parse_from n (c ∷ cs) = parse_from (10 * n + (c - 48)) cs

abbrev pub is_digit : ℕ → Bool
is_digit c = leb 48 c && leb c 57

abbrev pow10 : ℕ → ℕ
pow10 zero = 1
pow10 (suc k) = 10 * pow10 k

parse-append :
    (n : ℕ) (cs : Text) (d : ℕ) → parse_from n (cs ++ d ∷ []) ≡ 10 * parse_from n cs + (d - 48)
parse-append n [] d = refl
parse-append n (c ∷ cs) d = parse-append (10 * n + (c - 48)) cs d

parse-digits : (fuel n : ℕ) → n < fuel → parse_from 0 (digits fuel n) ≡ n
parse-digits zero n h = absurd (omega (arith, h))
parse-digits (suc fuel) n h = elim (Bool-cases (ltb n 10)) [
  | inl y ↦ rw (y, digits) (omega arith)
  | inr f ↦
      let e = div-add-mod' n 10 in
      let big : 10 ≤ n = ground (arith, f) in
      let ih = parse-digits fuel (n / 10) (omega (arith, e, big, h)) in
      rw (f, digits, parse-append 0 (digits fuel (n / 10)) (48 + n % 10), ih) (omega (arith, e))
]

digits-small : (fuel n k : ℕ) → n < pow10 k → length (digits fuel n) ≤ max k 1
digits-small zero n k h = omega arith
digits-small (suc fuel) n zero h =
    let small : ltb n 10 ≡ true = ground (arith, h) in rw (small, digits) (omega arith)
digits-small (suc fuel) n (suc k) h = elim (Bool-cases (ltb n 10)) [
  | inl y ↦ rw (y, digits) (omega arith)
  | inr f ↦
      let e = div-add-mod' n 10 in
      let big : 10 ≤ n = ground (arith, f) in
      let ih = digits-small fuel (n / 10) k (omega (arith, e, h)) in
      let some_left : 1 ≤ k = positive k h big in
      rw (f, digits)
        (omega (arith, ih, some_left, length-append (digits fuel (n / 10)) ((48 + n % 10) ∷ [])))
]
  where
    positive : (k : ℕ) → n < pow10 (suc k) → 10 ≤ n → 1 ≤ k
    positive zero h b = absurd (omega (arith, h, b))
    positive (suc k) h b = omega arith

all-append :
    (p : ℕ → Bool) (xs ys : Text) → all p xs ≡ true → all p ys ≡ true → all p (xs ++ ys) ≡ true
all-append p [] ys a b = b
all-append p (x ∷ xs) ys a b = ground (arith, a, all-append p xs ys (ground (arith, a)) b)

digits-all : (fuel n : ℕ) → all is_digit (digits fuel n) ≡ true
digits-all zero n = refl
digits-all (suc fuel) n = elim (Bool-cases (ltb n 10)) [
  | inl y ↦ rw (y, digits) (ground (arith, y))
  | inr f ↦
      let ten : 1 ≤ 10 = omega arith in
      let small = mod-lt n ten in
      rw (f, digits)
        (all-append is_digit (digits fuel (n / 10)) ((48 + n % 10) ∷ []) (digits-all fuel (n / 10))
          (ground (arith, small)))
]

-- What a number's text is read as, and what it consists of.
pub parse-show : (n : ℕ) → parse_from 0 (show n) ≡ n
unfolding show
parse-show n = parse-digits (suc n) n (omega arith)

pub show_digits : (n : ℕ) → all is_digit (show n) ≡ true
unfolding show
show_digits n = digits-all (suc n) n

-- nine digits hold every number below 10 ^ 9
pub show_short : (n : ℕ) → n < 1000000000 → length (show n) ≤ 9
unfolding show
show_short n h = digits-small (suc n) n 9 h

pub show_some : (n : ℕ) → 1 ≤ length (show n)
unfolding show
show_some n = elim (Bool-cases (ltb n 10)) [
  | inl y ↦ rw (y, digits) (omega arith)
  | inr f ↦ rw (f, digits) (omega (arith, length-append (digits n (n / 10)) ((48 + n % 10) ∷ [])))
]
