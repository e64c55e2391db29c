-- ===== src/Evidence/Fragments.antt =====
-- Where a fragment ends, and how fragments go together.
use mathlib.Core.List.{append-nil}
use native.Mathlib.Nat.{suc-add, zero-add}
use extrio.Base.{
  ltb, ◌==◌, Bool-cases, Option-cases, length, take, drop, length-take, Outcome, ok, err, ℕ, zero,
  suc, ◌+◌, ◌-◌, ◌≤◌, ◌<◌, ◌≡◌, refl, sym, ap, ◌∙◌, ◌⊎◌, inl, inr, Bool, true, false, ◌&&◌, some,
  List, [], ◌∷◌, ◌++◌, arith, any, none,
}
use extrio.Evidence.{
  Text, EvidenceError, slice, last_index, is_after, whole_tags, fragment_end,
  tag_exceeds_read_budget,
}

last_index-bounds :
    (c n : ℕ) (xs : Text) (i : ℕ) → last_index c n xs ≡ some i → n ≤ i × (i < n + length xs)
last_index-bounds c n [] i h = cc h
last_index-bounds c n (x ∷ xs) i h = elim (Option-cases (last_index c (suc n) xs)) [
  | inl e ↦ let here : n ≡ i = ground (arith, h, e) in (omega (arith, here), omega (arith, here))
  | inr (j, e) ↦
      let same : j ≡ i = ground (arith, h, e) in
      let (a, b) = last_index-bounds c (suc n) xs j e in
      (omega (arith, same, a), omega (arith, same, b))
]

whole_tags-bounds :
    (offset stop : ℕ) (text : Text) (e : ℕ)
    → offset < stop
    → stop ≤ length text
    → whole_tags offset stop text ≡ ok e
    → offset < e × (e ≤ length text)
unfolding whole_tags
whole_tags-bounds offset stop text e lt le h =
    elim (Option-cases (last_index 60 offset (slice offset stop text))) [
      | inl n ↦
          let at_stop : stop ≡ e = ground (arith, h, n) in
          (omega (arith, at_stop, lt), omega (arith, at_stop, le))
      | inr (i, f) ↦
          let (a, b) = last_index-bounds 60 offset (slice offset stop text) i f in
          let short = length-take (stop - offset) (drop offset text) in
          elim (Bool-cases (is_after (some i) (last_index 62 offset (slice offset stop text)))) [
            | inl y ↦ elim (Bool-cases (i == offset)) [
              | inl z ↦ absurd (ground (arith, h, f, y, z))
              | inr z ↦
                  let at_tag : i ≡ e = ground (arith, h, f, y, z) in
                  (ground (arith, at_tag, a, z), omega (arith, at_tag, b, short, le))
            ]
            | inr z ↦
                let at_stop : stop ≡ e = ground (arith, h, f, z) in
                (omega (arith, at_stop, lt), omega (arith, at_stop, le))
          ]
    ]

no_index : (c n : ℕ) (xs : Text) → last_index c n xs ≡ none → any (λ x. x == c) xs ≡ false
no_index c n [] h = refl
no_index c n (x ∷ xs) h = elim (Option-cases (last_index c (suc n) xs)) [
  | inl e ↦ ground (arith, h, e, no_index c (suc n) xs e)
  | inr (j, e) ↦ absurd (ground (arith, h, e))
]

first_index : (c n : ℕ) (xs : Text) → last_index c n xs ≡ some n → (rest : Text) × (xs ≡ c ∷ rest)
first_index c n [] h = absurd (cc h)
first_index c n (x ∷ xs) h = elim (Option-cases (last_index c (suc n) xs)) [
  | inl e ↦ let here : x ≡ c = ground (arith, h, e) in (xs, ap (λ y. y ∷ xs) here)
  | inr (j, e) ↦
      let same : j ≡ n = ground (arith, h, e) in
      let (a, b) = last_index-bounds c (suc n) xs j e in absurd (omega (arith, same, a))
]

-- From the first position on the text is a tag that is not closed before the second one, where the
-- text goes on.
abbrev pub LongTag : ℕ → ℕ → Text → Type 0
LongTag offset stop text =
    (stop < length text)
    × ((rest : Text) × (slice offset stop text ≡ 60 ∷ rest)
        × (any (λ c. c == 62) (60 ∷ rest) ≡ false))

not_closed :
    (offset : ℕ) (xs : Text)
    → is_after (some offset) (last_index 62 offset xs) ≡ true
    → last_index 62 offset xs ≡ none
not_closed offset xs h = elim (Option-cases (last_index 62 offset xs)) [
  | inl e ↦ e
  | inr (j, e) ↦ let (a, b) = last_index-bounds 62 offset xs j e in absurd (ground (arith, h, e, a))
]

whole_tags-LongTag :
    (offset stop : ℕ) (text : Text) (e : EvidenceError)
    → stop < length text
    → whole_tags offset stop text ≡ err e
    → LongTag offset stop text
unfolding whole_tags
whole_tags-LongTag offset stop text e short h =
    elim (Option-cases (last_index 60 offset (slice offset stop text))) [
      | inl n ↦ absurd (ground (arith, h, n))
      | inr (i, f) ↦
          elim (Bool-cases (is_after (some i) (last_index 62 offset (slice offset stop text)))) [
            | inr z ↦ absurd (ground (arith, h, f, z))
            | inl y ↦
                let here : i ≡ offset = ground (arith, h, f, y) in
                let (rest, starts) =
                  first_index 60 offset (slice offset stop text) (rw here at f) in
                let open_tag =
                  no_index 62 offset (slice offset stop text)
                    (not_closed offset (slice offset stop text) (rw here at y)) in
                (short, (rest, starts, rw starts at open_tag))
          ]
    ]

whole_tags-error :
    (offset stop : ℕ) (text : Text) (e : EvidenceError)
    → whole_tags offset stop text ≡ err e
    → e ≡ tag_exceeds_read_budget
unfolding whole_tags
whole_tags-error offset stop text e h = ground (arith, h)

Outcome-cases : {E A : Type 0} (m : Outcome E A) → ((a : A) × (m ≡ ok a)) ⊎ ((e : E) × (m ≡ err e))
Outcome-cases (ok a) = inl (a, refl)
Outcome-cases (err e) = inr (e, refl)

-- A fragment ends after it began, or a tag is in its way.
pub fragment_end-cases :
    (is_html : Bool) (offset stop : ℕ) (text : Text)
    → offset < stop
    → stop ≤ length text
    → ((e : ℕ) × (fragment_end is_html offset stop text ≡ ok e)
        × ((offset < e) × (e ≤ length text)))
      ⊎ ((is_html ≡ true)
          × LongTag offset stop text
          × (fragment_end is_html offset stop text ≡ err tag_exceeds_read_budget))
fragment_end-cases is_html offset stop text lt le =
    elim (Bool-cases (is_html && ltb stop (length text))) [
      | inr n ↦ inl (stop, rw n, (lt, le))
      | inl y ↦ elim (Outcome-cases (whole_tags offset stop text)) [
        | inl (e, h) ↦ inl (e, rw y h, whole_tags-bounds offset stop text e lt le h)
        | inr (e, h) ↦ inr (
          ground (arith, y),
          whole_tags-LongTag offset stop text e (ground (arith, y)) h,
          rw (y, h) (ap err (whole_tags-error offset stop text e h)),
        )
      ]
    ]

module _ {ℓ} {A : Type ℓ} where
  take-drop : (n : ℕ) (xs : List A) → take n xs ++ drop n xs ≡ xs
  take-drop zero xs = refl
  take-drop (suc n) [] = refl
  take-drop (suc n) (x ∷ xs) = ap (λ r. x ∷ r) (take-drop n xs)

  drop-drop : (m n : ℕ) (xs : List A) → drop n (drop m xs) ≡ drop (m + n) xs
  drop-drop zero n xs = rw (zero-add n)
  drop-drop (suc m) zero [] = rw (suc-add m 0)
  drop-drop (suc m) (suc n) [] = rw (suc-add m (suc n))
  drop-drop (suc m) n (x ∷ xs) = rw (suc-add m n) (drop-drop m n xs)

  -- the text from a position, in two pieces
  pub slice-append : (o e : ℕ) (xs : List A) → o ≤ e → slice o e xs ++ drop e xs ≡ drop o xs
  slice-append o e xs le =
      let rest : drop e xs ≡ drop (e - o) (drop o xs) =
        let back : o + (e - o) ≡ e = omega (arith, le) in
        sym (drop-drop o (e - o) xs ∙ ap (λ k. drop k xs) back) in
      rw rest (take-drop (e - o) (drop o xs))

drop-length : {A : Type 0} (xs : List A) → drop (length xs) xs ≡ []
drop-length [] = refl
drop-length (x ∷ xs) = drop-length xs

pub empty_text : (xs : Text) → length xs ≡ 0 → xs ≡ []
empty_text [] h = refl
empty_text (x ∷ xs) h = absurd (omega (arith, h))

pub slice_last :
    {A : Type 0} (o e : ℕ) (xs : List A)
    → e ≡ length xs
    → slice o e xs ++ drop e xs ≡ drop o xs
    → slice o e xs ≡ drop o xs
slice_last o e xs last joined =
    let empty : drop e xs ≡ [] = ap (λ k. drop k xs) last ∙ drop-length xs in
    sym (append-nil (slice o e xs)) ∙ (ap (λ r. slice o e xs ++ r) (sym empty) ∙ joined)
