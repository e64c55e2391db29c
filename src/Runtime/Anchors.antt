-- ===== src/Runtime/Anchors.antt =====
-- What it takes for a page to show the anchor of a progress.
use extrio.Base.{
  Bool-cases, ◌≤◌, String, true, false, not, ◌&&◌, ◌=ₛ◌, Option, none, some, List, [], ◌∷◌, ◌++◌,
  ◌≡◌, refl, sym, ◌⊎◌, inl, inr, arith, if◌then◌else◌, eq_iff,
}
use extrio.Recovery.Values.{Progress}
use extrio.Runtime.Records.{Listed, is_in, urls}
use extrio.Runtime.Traverse.{finds_anchor, common}

-- The page lists the anchor, or, where the page before was read to its end, two of that page's last
-- records.
abbrev pub Shows : Progress → String → List String → Type 0
Shows p anchor page =
    (is_in anchor page ≡ true)
    ⊎ ((p.page_complete ≡ true)
        × ((u : String) × (v : String) × ((u =ₛ v) ≡ false)
            × (((is_in u page ≡ true) × (is_in v page ≡ true))
                × ((is_in u p.overlap_urls ≡ true) × (is_in v p.overlap_urls ≡ true)))))

abbrev pub ShowsAmong : Progress → String → List (List String) → Type 0
ShowsAmong p anchor [] = ⊥
ShowsAmong p anchor (page ∷ pages) = Shows p anchor page ⊎ ShowsAmong p anchor pages

pub more_pages :
    (p : Progress) (anchor : String) (pages more : List (List String))
    → ShowsAmong p anchor pages
    → ShowsAmong p anchor (pages ++ more)
more_pages p anchor [] more h = absurd h
more_pages p anchor (page ∷ pages) more (inl h) = inl h
more_pages p anchor (page ∷ pages) more (inr h) = inr (more_pages p anchor pages more h)

pub last_page :
    (p : Progress) (anchor : String) (pages : List (List String)) (page : List String)
    → Shows p anchor page
    → ShowsAmong p anchor (pages ++ page ∷ [])
last_page p anchor [] page h = inl h
last_page p anchor (q ∷ pages) page h = inr (last_page p anchor pages page h)

-- the anchor that a progress sets, which an empty address does not
abbrev pub anchor_of : Option Progress → Option String
anchor_of none = none
anchor_of (some p) = elim p.anchor_url [ none ↦ none | some a ↦ if a =ₛ "" then none else some a ]

-- a page that was read shows the anchor of the progress
abbrev pub IsFound : Option Progress → List (List String) → Type 0
IsFound prior pages =
    (p : Progress) × (a : String) × (prior ≡ some p)
    × (anchor_of prior ≡ some a)
    × ShowsAmong p a pages

in_one :
    (u v : String) (us : List String) → is_in u us ≡ false → is_in v us ≡ true → (u =ₛ v) ≡ false
in_one u v us h k = elim (Bool-cases (u =ₛ v)) [
  | inl y ↦
      let same : is_in v us ≡ is_in u us = rw (sym ((eq_iff u v).0 y)) refl in
      absurd (cc (same, h, k))
  | inr n ↦ n
]

common_one :
    (us vs : List String)
    → 1 ≤ common us vs
    → (u : String) × (is_in u us ≡ true) × (is_in u vs ≡ true)
common_one [] vs h = absurd (omega (arith, h))
common_one (u ∷ us) vs h = elim (Bool-cases (is_in u vs && not (is_in u us))) [
  | inl y ↦ (u, ground (arith, (eq_iff u u).1 refl), ground (arith, y))
  | inr n ↦
      let (v, inside, shared) = common_one us vs (ground (arith, h, n)) in
      (v, ground (arith, inside), shared)
]

common_two :
    (us vs : List String)
    → 2 ≤ common us vs
    → (u : String) × (v : String) × ((u =ₛ v) ≡ false)
      × (((is_in u us ≡ true) × (is_in v us ≡ true)) × ((is_in u vs ≡ true) × (is_in v vs ≡ true)))
common_two [] vs h = absurd (omega (arith, h))
common_two (u ∷ us) vs h = elim (Bool-cases (is_in u vs && not (is_in u us))) [
  | inl y ↦
      let (v, inside, shared) = common_one us vs (ground (arith, h, y)) in
      (
        u,
        v,
        in_one u v us (ground (arith, y)) inside,
        (
          (ground (arith, (eq_iff u u).1 refl), ground (arith, inside)),
          (ground (arith, y), shared),
        ),
      )
  | inr n ↦
      let (v, w, differ, ((a, b), shared)) = common_two us vs (ground (arith, h, n)) in
      (v, w, differ, ((ground (arith, a), ground (arith, b)), shared))
]

pub finds_anchor-Shows :
    (a : String) (p : Progress) (rs : List Listed)
    → finds_anchor a (some p) rs ≡ true
    → Shows p a (urls rs)
finds_anchor-Shows a p rs h = elim (Bool-cases (is_in a (urls rs))) [
  | inl y ↦ inl y
  | inr n ↦ inr (ground (arith, h, n), common_two (urls rs) p.overlap_urls (ground (arith, h, n)))
]
