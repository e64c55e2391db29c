-- ===== src/Accounts.antt =====
-- The team's accounts and the login limit: `create_user`, `update_user` and `allow_login` of
-- backend/src/extrio/store.py. `fold` is the folding that the database's comparison of names without
-- case makes; a login limit is an amount and a window in seconds.
use extrio.Base.{
  ℕ, zero, suc, ◌+◌, ◌-◌, String, Bool, true, false, ◌&&◌, ◌||◌, not, Option, none, some, List, [],
  ◌∷◌, ◌++◌, leb, ltb, any, ◌=ₛ◌, if◌then◌else◌, or_else, is_some, Outcome, ok, err, raise_if,
  ◌>>=◌, ◌>>◌,
}
mod Logins
mod Administrators
mod Examples

pub record User : Type 0 where
  pub id : String
  pub username : String
  pub password_hash : String
  pub role : String
  pub display_name : String
  pub enabled : Bool
  pub created_at : ℕ
  pub updated_at : ℕ

pub data AccountError : Type 0 where
  username_taken missing_user last_administrator : AccountError

-- SELECT ... WHERE id=?
unfoldable pub find_user : String → List User → Option User
find_user id [] = none
find_user id (u ∷ us) = if u.id =ₛ id then some u else find_user id us

-- UPDATE ... WHERE id=?
unfoldable pub write_user : String → (User → User) → List User → List User
write_user id f [] = []
write_user id f (u ∷ us) = let rest = write_user id f us in (if u.id =ₛ id then f u else u) ∷ rest

abbrev pub is_active_administrator : User → Bool
is_active_administrator u = (u.role =ₛ "administrator") && u.enabled

-- SELECT COUNT(*) ... WHERE role='administrator' AND enabled
unfoldable pub active_administrators : List User → ℕ
active_administrators [] = 0
active_administrators (u ∷ us) =
    let rest = active_administrators us in if is_active_administrator u then suc rest else rest

-- a change that leaves the user no active administrator
abbrev pub demotes : Option String → Option Bool → Bool
demotes role (some false) = true
demotes none _ = false
demotes (some r) _ = not (r =ₛ "administrator")

abbrev pub changed : Option String → Option String → Option Bool → ℕ → User → User
changed role display_name enabled now u =
    if is_some role || is_some display_name || is_some enabled
    then record u {
      role = or_else role u.role;
      display_name = or_else display_name u.display_name;
      enabled = or_else enabled u.enabled;
      updated_at = now;
    }
    else u

unfoldable pub update_user :
    String
    → Option String
    → Option String
    → Option Bool
    → ℕ
    → List User
    → Outcome AccountError (List User)
update_user id role display_name enabled now us = elim (find_user id us) [
  | none ↦ err missing_user
  | some u ↦
      if is_active_administrator u && demotes role enabled && leb (active_administrators us) 1
      then err last_administrator
      else ok (write_user id (changed role display_name enabled now) us)
]

unfoldable pub create_user :
    (String → String)
    → String
    → String
    → String
    → String
    → String
    → ℕ
    → List User
    → Outcome AccountError (List User)
create_user fold fresh_id username password_hash role display_name now us =
    if any (λ u. fold u.username =ₛ fold username) us
    then err username_taken
    else ok (
        us
        ++ record {
          id = fresh_id;
          username = username;
          password_hash = password_hash;
          role = role;
          display_name = display_name;
          enabled = true;
          created_at = now;
          updated_at = now;
        }
          ∷ [])

pub record LoginAttempt : Type 0 where
  pub scope_key : String
  pub attempted_at : ℕ

-- DELETE ... WHERE attempted_at<?
unfoldable pub since : ℕ → List LoginAttempt → List LoginAttempt
since cutoff [] = []
since cutoff (a ∷ rest) =
    let kept = since cutoff rest in if ltb a.attempted_at cutoff then kept else a ∷ kept

-- SELECT COUNT(*) ... WHERE scope_key=? AND attempted_at>=?
unfoldable pub count_since : ℕ → String → List LoginAttempt → ℕ
count_since cutoff key [] = 0
count_since cutoff key (a ∷ rest) =
    let n = count_since cutoff key rest in
    if (a.scope_key =ₛ key) && leb cutoff a.attempted_at then suc n else n

-- whether the login is allowed, and the attempts on record after it
unfoldable pub allow_login : String → ℕ → ℕ → ℕ → List LoginAttempt → Bool × List LoginAttempt
allow_login key amount window_seconds now attempts =
    let cutoff = now - window_seconds in
    let kept = since cutoff attempts in
    if leb amount (count_since cutoff key kept)
    then (false, kept)
    else (true, kept ++ record { scope_key = key; attempted_at = now } ∷ [])
