-- ===== src/Runtime/Orders.antt =====
-- The reasons not to trust the order of a page are none that cover a window.
use extrio.Base.{
  Bool-cases, Option-cases, ℕ, String, false, ◌=ₛ◌, some, List, [], ◌∷◌, ◌≡◌, refl, inl, inr, arith,
  or_else, eq_iff, ltb,
}
use extrio.Runtime.Records.{Listed, Site, Config, date_of, dates_descend, order_from, has_unknown}
use extrio.Runtime.Traverse.{Traversal, order_issue, is_covered}

module _ (site : Site) (config : Config) where
  order_from-IsOpen :
      (d : ℕ) (rs : List Listed) (issue : String)
      → order_from site config d rs ≡ some issue
      → is_covered site config issue ≡ false
  order_from-IsOpen d [] issue h = absurd (cc h)
  order_from-IsOpen d (r ∷ rs) issue h = elim (Option-cases (date_of site config r)) [
    | inl gone ↦
        let is_it : issue ≡ "coverage_date_unknown" = ground (arith, h, gone) in rw is_it refl
    | inr (e, there) ↦ elim (Bool-cases (ltb d e)) [
      | inl y ↦
          let is_it : issue ≡ "coverage_order_unverified" = ground (arith, h, there, y) in
          rw is_it refl
      | inr n ↦ order_from-IsOpen e rs issue (ground (arith, h, there, n))
    ]
  ]

  dates_descend-IsOpen :
      (rs : List Listed) (issue : String)
      → dates_descend site config rs ≡ some issue
      → is_covered site config issue ≡ false
  unfolding dates_descend
  dates_descend-IsOpen [] issue h = absurd (cc h)
  dates_descend-IsOpen (r ∷ rs) issue h = elim (Bool-cases (has_unknown site config (r ∷ rs))) [
    | inl y ↦ let is_it : issue ≡ "coverage_date_unknown" = ground (arith, h, y) in rw is_it refl
    | inr n ↦
        order_from-IsOpen (or_else (date_of site config r) 0) rs issue (rw (n, dates_descend) at h)
  ]

  -- an issue with the order of a page covers nothing
  pub order_issue-IsOpen :
      (rs : List Listed) (s : Traversal) (issue : String)
      → order_issue site config rs s ≡ some issue
      → is_covered site config issue ≡ false
  order_issue-IsOpen rs s issue h = elim (Option-cases (dates_descend site config rs)) [
    | inl fine ↦
        let is_it : issue ≡ "coverage_order_unverified" = ground (arith, h, fine) in rw is_it refl
    | inr (other, found) ↦ elim (Bool-cases (issue =ₛ "coverage_order_unverified")) [
      | inl y ↦ rw ((eq_iff issue "coverage_order_unverified").0 y) refl
      | inr n ↦
          dates_descend-IsOpen rs issue
            (ground (arith, h, found, n, (eq_iff issue "coverage_order_unverified").1))
    ]
  ]
