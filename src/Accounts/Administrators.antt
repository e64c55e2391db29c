-- ===== src/Accounts/Administrators.antt =====
-- An update never takes away the last active administrator.
use extrio.Base.{
  ℕ, ◌+◌, ◌≤◌, String, ◌≡◌, refl, inl, inr, Bool, true, false, Bool-cases, Option-cases, Option,
  some, List, [], ◌∷◌, ◌=ₛ◌, eq_iff, arith, All, subst, ok,
}
use extrio.Accounts.{
  User, find_user, write_user, is_active_administrator, active_administrators, demotes, changed,
  update_user,
}

-- no two users have the same id
abbrev pub HasUniqueIds : List User → Type 0
HasUniqueIds [] = Unit
HasUniqueIds (u ∷ us) = All (λ v. (v.id =ₛ u.id) ≡ false) us × HasUniqueIds us

absent_stays :
    (id : String) (f : User → User) (us : List User)
    → All (λ v. (v.id =ₛ id) ≡ false) us
    → active_administrators (write_user id f us) ≡ active_administrators us
unfolding write_user active_administrators
absent_stays id f [] h = refl
absent_stays id f (u ∷ us) (h, hs) = ground (arith, h, absent_stays id f us hs)

abbrev one_if : Bool → ℕ
one_if true = 1
one_if false = 0

count-write :
    (id : String) (f : User → User) (us : List User) (u : User)
    → HasUniqueIds us
    → find_user id us ≡ some u
    → active_administrators (write_user id f us) + one_if (is_active_administrator u)
      ≡ active_administrators us + one_if (is_active_administrator (f u))
unfolding write_user active_administrators find_user
count-write id f [] u h e = cc e
count-write id f (v ∷ us) u (h, hs) e = elim (Bool-cases (v.id =ₛ id)) [
  | inl y ↦
      let same : v ≡ u = ground (arith, y, e) in
      let others =
        absent_stays id f us
          (subst (λ k. All (λ w. (w.id =ₛ k) ≡ false) us) ((eq_iff v.id id).0 y) h) in
      subst
        (λ x.
          active_administrators (write_user id f (v ∷ us)) + one_if (is_active_administrator x)
          ≡ active_administrators (v ∷ us) + one_if (is_active_administrator (f x)))
        same (ground (arith, y, others))
  | inr n ↦
      let found : find_user id us ≡ some u = ground (arith, n, e) in
      ground (arith, n, count-write id f us u hs found)
]

still_active :
    (role display_name : Option String) (enabled : Option Bool) (now : ℕ) (u : User)
    → is_active_administrator u ≡ true
    → demotes role enabled ≡ false
    → is_active_administrator (changed role display_name enabled now u) ≡ true
still_active role display_name enabled now u a d = ground (arith, a, d)

-- Where no two users have the same id and an active administrator is left, an update that succeeds
-- leaves one too, whatever it changes.
pub update_user-keeps :
    (id : String) (role display_name : Option String) (enabled : Option Bool) (now : ℕ)
    (us us' : List User)
    → HasUniqueIds us
    → 1 ≤ active_administrators us
    → update_user id role display_name enabled now us ≡ ok us'
    → 1 ≤ active_administrators us'
unfolding update_user
update_user-keeps id role display_name enabled now us us' h some_left e =
    elim (Option-cases (find_user id us)) [
      | inl f ↦ ground (arith, f, e)
      | inr (u, f) ↦ ground (
        arith,
        f,
        e,
        some_left,
        count-write id (changed role display_name enabled now) us u h f,
        still_active role display_name enabled now u,
      )
    ]
