-- ===== src/Collections/Rows.antt =====
-- What is found of a collection after an update of the rows.
use extrio.Base.{
  Bool-cases, ℕ, String, ◌≡◌, refl, sym, ap, ◌∙◌, inl, inr, false, Option, none, some, List, [],
  ◌∷◌, ◌++◌, arith, ◌=ₛ◌, eq_iff,
}
use extrio.Collections.Tables.{Collection, find_collection, write_collection, remove_collection}

pub find-id :
    (id : String) (cs : List Collection) (c : Collection)
    → find_collection id cs ≡ some c
    → c.id ≡ id
find-id id [] c h = cc h
find-id id (d ∷ ds) c h = elim (Bool-cases (d.id =ₛ id)) [
  | inl y ↦
      let same : d ≡ c = ground (arith, h, y) in ap (λ x. x.id) (sym same) ∙ (eq_iff d.id id).0 y
  | inr n ↦ find-id id ds c (ground (arith, h, n))
]

-- the number that a collection's row has for its latest version, zero without a row
abbrev pub latest_in : String → List Collection → ℕ
latest_in id cs = elim (find_collection id cs) as (λ _. ℕ) [
  | none ↦ 0
  | some c ↦ c.latest_version_number
]

pub find-write_same :
    (c d : Collection) (cs : List Collection)
    → find_collection c.id cs ≡ some d
    → find_collection c.id (write_collection c cs) ≡ some c
unfolding write_collection
find-write_same c d [] h = cc h
find-write_same c d (e ∷ cs) h = elim (Bool-cases (e.id =ₛ c.id)) [
  | inl y ↦ ground (arith, y, (eq_iff c.id c.id).1 refl)
  | inr n ↦ let rest = find-write_same c d cs (ground (arith, h, n)) in ground (arith, n, rest)
]

pub find-write_other :
    (c : Collection) (id : String) (cs : List Collection)
    → (c.id =ₛ id) ≡ false
    → find_collection id (write_collection c cs) ≡ find_collection id cs
unfolding write_collection
find-write_other c id [] n = refl
find-write_other c id (e ∷ cs) n =
    let rest = find-write_other c id cs n in
    elim (Bool-cases (e.id =ₛ c.id)) [
      | inl y ↦
          let other : (e.id =ₛ id) ≡ false = rw ((eq_iff e.id c.id).0 y) n in
          ground (arith, y, n, other, rest)
      | inr m ↦ ground (arith, m, rest)
    ]

pub find-remove_same :
    (id : String) (cs : List Collection) → find_collection id (remove_collection id cs) ≡ none
unfolding remove_collection
find-remove_same id [] = refl
find-remove_same id (e ∷ cs) = ground (arith, find-remove_same id cs)

pub find-remove_other :
    (id other : String) (cs : List Collection)
    → (id =ₛ other) ≡ false
    → find_collection other (remove_collection id cs) ≡ find_collection other cs
unfolding remove_collection
find-remove_other id other [] n = refl
find-remove_other id other (e ∷ cs) n =
    let rest = find-remove_other id other cs n in
    elim (Bool-cases (e.id =ₛ id)) [
      | inl y ↦
          let differs : (e.id =ₛ other) ≡ false = rw ((eq_iff e.id id).0 y) n in
          ground (arith, y, differs, rest)
      | inr m ↦ ground (arith, m, rest)
    ]

pub find-append :
    (id : String) (cs ds : List Collection)
    → find_collection id (cs ++ ds) ≡ (elim (find_collection id cs) as (λ _. Option Collection) [
      | none ↦ find_collection id ds
      | some c ↦ some c
    ])
find-append id [] ds = refl
find-append id (c ∷ cs) ds = ground (arith, find-append id cs ds)
