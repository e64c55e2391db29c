-- ===== src/Accounts/Examples.antt =====
-- Two administrators, and three logins under a limit of two.
use extrio.Base.{
  ℕ, ◌-◌, ◌≤◌, ◌<◌, String, ◌≡◌, refl, ◌↔◌, Bool, true, false, none, some, List, [], ◌∷◌, ok, err,
  arith,
}
use extrio.Accounts.{
  User, update_user, find_user, write_user, active_administrators, last_administrator, count_since,
  allow_login,
}
use extrio.Accounts.Administrators.{update_user-keeps}
use extrio.Accounts.Logins.{run_logins, allowed_logins, run_logins-limited}

abbrev administrator : String → Bool → User
administrator id enabled = record {
  id = id;
  username = id;
  password_hash = "hash";
  role = "administrator";
  display_name = id;
  enabled = enabled;
  created_at = 0;
  updated_at = 0;
}

abbrev team : List User
team = administrator "a" true ∷ administrator "b" true ∷ []

abbrev left_team : List User
left_team =
    administrator "a" true
    ∷ record (administrator "b" true) { enabled = false; updated_at = 5 }
    ∷ []

one_disabled : update_user "b" none none (some false) 5 team ≡ ok left_team
unfolding update_user find_user write_user active_administrators
one_disabled = refl

last_kept : update_user "a" (some "viewer") none none 6 left_team ≡ err last_administrator
unfolding update_user find_user write_user active_administrators
last_kept = refl

two_active : 1 ≤ active_administrators team
unfolding active_administrators
two_active = omega arith

update_user-keeps_example : 1 ≤ active_administrators left_team
update_user-keeps_example =
    update_user-keeps "b" none none (some false) 5 team left_team ((refl, tt), (tt, tt)) two_active
      one_disabled

abbrev logins : List (String × ℕ)
logins = ("a", 1) ∷ ("a", 5) ∷ ("a", 2) ∷ []

run_logins-limited_example :
    let (now, rows) = run_logins 2 60 100 logins [] in
    let recent = count_since (now - 60) "a" (allowed_logins 2 60 100 logins []) in
    (recent ≤ 2) × (((allow_login "a" 2 60 now rows).0 ≡ true) ↔ (recent < 2))
run_logins-limited_example = run_logins-limited 2 60 100 logins "a"
