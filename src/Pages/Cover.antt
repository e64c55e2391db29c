-- ===== src/Pages/Cover.antt =====
-- The pages of a list, one after the other, are the list.
use native.Mathlib.Nat.{suc-add, zero-add, zero-mul, suc-mul, div-add-mod', mod-lt}
use extrio.Base.{
  ℕ, zero, suc, ◌+◌, ◌-◌, ◌*◌, ◌/◌, ◌≤◌, ◌≡◌, refl, ap, sym, ◌∙◌, false, some, List, [], ◌∷◌, ◌++◌,
  ◌==◌, arith, length, take, drop, min, max, length-take,
}
use extrio.Pages.{Info, pagination, page_items, numbered}

-- enough pages hold every item
pages-hold : (total limit : ℕ) → 1 ≤ limit → total ≤ max 1 ((total + limit - 1) / limit) * limit
pages-hold total limit h =
    let n = total + limit - 1 in
    let e = div-add-mod' n limit in
    let r = mod-lt n h in
    let m : n / limit * limit ≤ max 1 (n / limit) * limit = grind arith in omega (arith, e, r, m, h)

module _ {ℓ} {A : Type ℓ} where
  -- the items of the pages 1, ..., n, in this order
  pub up_to_page : ℕ → ℕ → List A → List A
  up_to_page limit zero values = []
  up_to_page limit (suc n) values =
      up_to_page limit n values ++ take limit (drop (n * limit) values)

  take_nil : (n : ℕ) → take {A = A} n [] ≡ []
  take_nil zero = refl
  take_nil (suc n) = refl

  take-add : (m n : ℕ) (xs : List A) → take (m + n) xs ≡ take m xs ++ take n (drop m xs)
  take-add zero n xs = rw (zero-add n)
  take-add (suc m) n [] = rw (suc-add m n, take_nil n)
  take-add (suc m) n (x ∷ xs) = rw (suc-add m n) (ap (λ r. x ∷ r) (take-add m n xs))

  take_all : (n : ℕ) (xs : List A) → length xs ≤ n → take n xs ≡ xs
  take_all zero [] h = refl
  take_all zero (x ∷ xs) h = absurd (omega (arith, h))
  take_all (suc n) [] h = refl
  take_all (suc n) (x ∷ xs) h = ap (λ r. x ∷ r) (take_all n xs (omega (arith, h)))

  up_to_page-take :
      (limit n : ℕ) (values : List A) → up_to_page limit n values ≡ take (n * limit) values
  unfolding up_to_page
  up_to_page-take limit zero values = rw (zero-mul limit)
  up_to_page-take limit (suc n) values =
      rw (up_to_page-take limit n values, suc-mul n limit) (sym (take-add (n * limit) limit values))

  -- What is shown of a list of values under a page size.
  pub record IsPaged (values : List A) (requested limit : ℕ) (items : List A) (info : Info)
      : Type ℓ where
    pub small : length items ≤ limit
    pub in_range : info.page ≤ info.total_pages
    pub asked_for : requested ≤ info.total_pages → info.page ≡ requested
    pub counted : info.total ≡ length values
    pub all_shown : up_to_page limit info.total_pages values ≡ values

  -- For a page size that is positive, a numbered page holds at most that many items, it is the page
  -- asked for or the last one, and the pages one after the other are the list, each value once and in
  -- its place.
  pub numbered-IsPaged :
      (values : List A) (requested limit : ℕ)
      → 1 ≤ limit
      → (items : List A) × (info : Info) × (numbered values requested limit ≡ some (items, info))
        × IsPaged values requested limit items info
  unfolding numbered pagination
  numbered-IsPaged values requested limit h =
      let pages = max 1 ((length values + limit - 1) / limit) in
      let info : Info = record {
        page = min requested pages;
        page_size = limit;
        total_pages = pages;
        total = length values;
      } in
      let positive : (limit == 0) ≡ false = ground (arith, h) in
      (
        page_items info values,
        info,
        rw (positive, numbered),
        record {
          small = omega (arith, length-take limit (drop ((info.page - 1) * limit) values));
          in_range = omega arith;
          asked_for = λ le. omega (arith, le);
          counted = refl;
          all_shown =
              up_to_page-take limit pages values
              ∙ take_all (pages * limit) values (pages-hold (length values) limit h);
        },
      )
