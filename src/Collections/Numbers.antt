-- ===== src/Collections/Numbers.antt =====
-- The versions of a collection are numbered one after the other.
use extrio.Base.{
  if◌then◌else◌, Bool-cases, Option-cases, any, bind-ok, ok, ℕ, zero, suc, ◌+◌, max, String, ◌≡◌,
  refl, ap, subst, ◌∙◌, inl, inr, false, some, List, [], ◌∷◌, ◌++◌, arith, ◌=ₛ◌, eq_iff,
}
use extrio.Collections.Tables.{
  Collection, Version, View, Tables, find_collection, write_collection, remove_collection,
  max_version,
}
use extrio.Collections.Rows.{
  find-id, latest_in, find-write_same, find-write_other, find-remove_same, find-remove_other,
  find-append,
}
use extrio.Collections.Store.{
  lock_collection, new_collection, insert_collection, create_collection, Changes, changed,
  change_collection, delete_collection, published_from, with_version,
}
use extrio.Collections.Changing.{created-IsChangeOf, changed-IsChangeOf, deleted-IsChangeOf}

-- the numbers of a collection's versions, in the order of their publication
abbrev pub numbers : String → List Version → List ℕ
numbers id [] = []
numbers id (v ∷ vs) =
    if v.collection_id =ₛ id then v.version_number ∷ numbers id vs else numbers id vs

-- 1, 2, ..., n
abbrev pub up_to : ℕ → List ℕ
up_to zero = []
up_to (suc n) = up_to n ++ suc n ∷ []

-- Each collection's versions are numbered from one to the number that its row has for the latest one,
-- and where a collection has no row, it has no version.
abbrev pub IsNumbered : Tables → Type 0
IsNumbered t = (id : String) → numbers id t.versions ≡ up_to (latest_in id t.collections)

abbrev maximum : List ℕ → ℕ
maximum [] = 0
maximum (n ∷ ns) = max n (maximum ns)

max_version-numbers :
    (id : String) (vs : List Version) → max_version id vs ≡ maximum (numbers id vs)
unfolding max_version
max_version-numbers id [] = refl
max_version-numbers id (v ∷ vs) = ground (arith, max_version-numbers id vs)

maximum-append : (ns : List ℕ) (m : ℕ) → maximum (ns ++ m ∷ []) ≡ max (maximum ns) m
maximum-append [] m = omega arith
maximum-append (n ∷ ns) m = omega (arith, maximum-append ns m)

maximum-up_to : (n : ℕ) → maximum (up_to n) ≡ n
maximum-up_to zero = refl
maximum-up_to (suc n) = omega (arith, maximum-append (up_to n) (suc n), maximum-up_to n)

numbers-append :
    (id : String) (vs : List Version) (v : Version)
    → numbers id (vs ++ v ∷ [])
      ≡ (if v.collection_id =ₛ id then numbers id vs ++ v.version_number ∷ [] else numbers id vs)
numbers-append id [] v = ground arith
numbers-append id (w ∷ vs) v = ground (arith, numbers-append id vs v)

none_without :
    (id : String) (vs : List Version)
    → any (λ v. v.collection_id =ₛ id) vs ≡ false
    → numbers id vs ≡ []
none_without id [] h = refl
none_without id (v ∷ vs) h = elim (Bool-cases (v.collection_id =ₛ id)) [
  | inl y ↦ absurd (ground (arith, h, y))
  | inr n ↦ rw (n, numbers) (none_without id vs (ground (arith, h, n)))
]

-- a row that keeps the number of its latest version
latest-write :
    (c d : Collection) (cs : List Collection) (id : String)
    → find_collection c.id cs ≡ some d
    → c.latest_version_number ≡ d.latest_version_number
    → latest_in id (write_collection c cs) ≡ latest_in id cs
latest-write c d cs id found same = elim (Bool-cases (c.id =ₛ id)) [
  | inl y ↦
      let here = find-write_same c d cs found in
      let id_found : find_collection id cs ≡ some d =
        subst (λ x. find_collection x cs ≡ some d) ((eq_iff c.id id).0 y) found in
      ground (
        arith,
        id_found,
        subst (λ x. find_collection x (write_collection c cs) ≡ some c) ((eq_iff c.id id).0 y) here,
        same,
      )
  | inr n ↦ rw (latest_in, find-write_other c id cs n)
]

-- an operation that publishes nothing, and leaves each row its latest number
pub still-IsNumbered :
    (t after : Tables)
    → IsNumbered t
    → after.versions ≡ t.versions
    → ((id : String) → latest_in id after.collections ≡ latest_in id t.collections)
    → IsNumbered after
still-IsNumbered t after h versions latest id = rw (versions, latest id) (h id)

latest-insert :
    (id name intent : String) (now : ℕ) (t : Tables) (other : String)
    → latest_in other (insert_collection id name intent now t).collections
      ≡ latest_in other t.collections
unfolding insert_collection
latest-insert id name intent now t other =
    let row = new_collection id name intent now in
    ground (arith, find-append other t.collections (row ∷ []))

pub created-IsNumbered :
    (id name intent : String) (now : ℕ) (t : Tables) (v : View) (after : Tables)
    → IsNumbered t
    → create_collection id name intent now t ≡ ok (v, after)
    → IsNumbered after
unfolding create_collection
created-IsNumbered id name intent now t v after h made =
    let same : insert_collection id name intent now t ≡ after = ground (arith, made) in
    let kept = (created-IsChangeOf id name intent now t v after made).versions_kept in
    still-IsNumbered t after h kept (
      subst
        (λ (a : Tables).
          (other : String) → latest_in other a.collections ≡ latest_in other t.collections)
        same (latest-insert id name intent now t))

-- the row that `lock_collection` finds
pub locked :
    (id : String) (t : Tables) (c : Collection)
    → lock_collection id t ≡ ok c
    → (find_collection id t.collections ≡ some c) × (c.id ≡ id)
unfolding lock_collection
locked id t c h = elim (Option-cases (find_collection id t.collections)) [
  | inl n ↦ absurd (ground (arith, h, n))
  | inr (d, e) ↦
      let found : find_collection id t.collections ≡ some c = ground (arith, h, e) in
      (found, find-id id t.collections c found)
]

pub changed-IsNumbered :
    (id : String) (revision : ℕ) (k : Changes) (now : ℕ) (t : Tables) (v : View) (after : Tables)
    → IsNumbered t
    → change_collection id revision k now t ≡ ok (v, after)
    → IsNumbered after
unfolding change_collection
changed-IsNumbered id revision k now t v after h made =
    let (c, e, _) = bind-ok (lock_collection id t) _ _ made in
    let (found, same) = locked id t c e in
    let row = changed k now c in
    let there : find_collection row.id t.collections ≡ some c = rw same found in
    let kept = (changed-IsChangeOf id revision k now t v after made).versions_kept in
    let rows : after.collections ≡ write_collection row t.collections = ground (arith, made, e) in
    still-IsNumbered t after h kept
      (λ other. ap (latest_in other) rows ∙ latest-write row c t.collections other there refl)

pub deleted-IsNumbered :
    (id : String) (revision : ℕ) (t : Tables) (u : Unit {0}) (after : Tables)
    → IsNumbered t
    → delete_collection id revision t ≡ ok (u, after)
    → IsNumbered after
unfolding delete_collection
deleted-IsNumbered id revision t u after h made other =
    let (c, e, _) = bind-ok (lock_collection id t) _ _ made in
    let kept = (deleted-IsChangeOf id revision t u after made).versions_kept in
    let rows : after.collections ≡ remove_collection id t.collections = ground (arith, made, e) in
    elim (Bool-cases (id =ₛ other)) [
      | inl y ↦
          let empty = none_without id t.versions (ground (arith, made, e)) in
          let gone : numbers id after.versions ≡ up_to (latest_in id after.collections) =
            rw (kept, rows, latest_in, find-remove_same id t.collections) empty in
          subst (λ x. numbers x after.versions ≡ up_to (latest_in x after.collections))
            ((eq_iff id other).0 y) gone
      | inr n ↦ rw (kept, rows, latest_in, find-remove_other id other t.collections n) (h other)
    ]

pub with_version-IsNumbered :
    (v : Version) (c : Collection) (t : Tables)
    → IsNumbered t
    → find_collection c.id t.collections ≡ some c
    → v.collection_id ≡ c.id
    → v.version_number ≡ max_version c.id t.versions + 1
    → IsNumbered (with_version v c t)
with_version-IsNumbered v c t h found same number other =
    let row = published_from v c in
    elim (Bool-cases (c.id =ₛ other)) [
      | inl y ↦
          let e = (eq_iff c.id other).0 y in
          let n : v.version_number ≡ suc (latest_in c.id t.collections) = omega (
            arith,
            number,
            max_version-numbers c.id t.versions,
            ap maximum (h c.id),
            maximum-up_to (latest_in c.id t.collections),
          ) in
          let latest : latest_in c.id (write_collection row t.collections) ≡ v.version_number =
            rw (latest_in, find-write_same row c t.collections found) in
          let here : numbers c.id (t.versions ++ v ∷ [])
              ≡ up_to (latest_in c.id (write_collection row t.collections)) =
            rw (
              latest,
              numbers-append c.id t.versions v,
              (eq_iff v.collection_id c.id).1 same,
              h c.id,
              n,
            ) in
          subst
            (λ x.
              numbers x (t.versions ++ v ∷ [])
              ≡ up_to (latest_in x (write_collection row t.collections)))
            e here
      | inr n ↦
          let differs : (v.collection_id =ₛ other) ≡ false = rw same n in
          rw
            (
              numbers-append other t.versions v,
              differs,
              latest_in,
              find-write_other row other t.collections n,
            )
            (h other)
    ]
