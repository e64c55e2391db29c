-- ===== src/Accounts/Logins.antt =====
-- The login limit holds over any sequence of calls.
use mathlib.Core.List.{append-nil, append_assoc}
use extrio.Base.{
  Bool, false, sym, ap, ◌∙◌, ℕ, ◌+◌, ◌-◌, ◌≤◌, ◌<◌, String, ◌≡◌, refl, ◌↔◌, inl, inr, true,
  Bool-cases, List, [], ◌∷◌, ◌++◌, leb, ◌=ₛ◌, eq_iff, arith,
}
use extrio.Accounts.{LoginAttempt, since, count_since, allow_login}

count-since :
    (c : ℕ) (key : String) (xs : List LoginAttempt)
    → count_since c key (since c xs) ≡ count_since c key xs
unfolding since count_since
count-since c key [] = refl
count-since c key (a ∷ xs) = ground (arith, count-since c key xs)

count-append :
    (c : ℕ) (key : String) (xs ys : List LoginAttempt)
    → count_since c key (xs ++ ys) ≡ count_since c key xs + count_since c key ys
unfolding count_since
count-append c key [] ys = omega arith
count-append c key (a ∷ xs) ys = ground (arith, count-append c key xs ys)

-- a later window counts no more
count-later :
    (c c' : ℕ) (key : String) (xs : List LoginAttempt)
    → c ≤ c'
    → count_since c' key xs ≤ count_since c key xs
unfolding count_since
count-later c c' key [] h = omega arith
count-later c c' key (a ∷ xs) h = ground (arith, h, count-later c c' key xs h)

module _ (amount window_seconds : ℕ) where
  -- one call, whoever it is for
  allow_login-limited :
      (key other : String) (t now : ℕ) (xs : List LoginAttempt)
      → t ≤ now
      → count_since (t - window_seconds) other xs ≤ amount
      → count_since (now - window_seconds) other (allow_login key amount window_seconds now xs).1
        ≤ amount
  unfolding allow_login count_since
  allow_login-limited key other t now xs le h =
      let c = now - window_seconds in
      let fewer : count_since c other xs ≤ amount =
        omega (arith, count-later (t - window_seconds) c other xs (omega (arith, le)), h) in
      elim (Bool-cases (leb amount (count_since c key (since c xs)))) [
        | inl y ↦ rw y (omega (arith, fewer, kept other c xs))
        | inr n ↦ rw n (added c fewer (ground (arith, n)))
      ]
    where
      kept :
          (k : String) (c : ℕ) (xs : List LoginAttempt)
          → count_since c k (since c xs) ≤ count_since c k xs
      kept k c xs = omega (arith, count-since c k xs)

      added :
          (c : ℕ)
          → count_since c other xs ≤ amount
          → count_since c key (since c xs) < amount
          → count_since c other (since c xs ++ record { scope_key = key; attempted_at = now } ∷ [])
            ≤ amount
      added c fewer room = elim (Bool-cases (key =ₛ other)) [
        | inl y ↦ ground (
          arith,
          y,
          room,
          eq_iff key other,
          count-append c other (since c xs) (record { scope_key = key; attempted_at = now } ∷ []),
        )
        | inr n ↦ ground (
          arith,
          n,
          fewer,
          kept other c xs,
          count-append c other (since c xs) (record { scope_key = key; attempted_at = now } ∷ []),
        )
      ]

  -- calls one after the other, each with the seconds since the one before
  abbrev pub run_logins : ℕ → List (String × ℕ) → List LoginAttempt → ℕ × List LoginAttempt
  run_logins now [] xs = (now, xs)
  run_logins now ((key, gap) ∷ calls) xs =
      run_logins (now + gap) calls (allow_login key amount window_seconds (now + gap) xs).1

  run-limited :
      (now : ℕ) (calls : List (String × ℕ)) (xs : List LoginAttempt) (key : String)
      → count_since (now - window_seconds) key xs ≤ amount
      → count_since ((run_logins now calls xs).0 - window_seconds) key (run_logins now calls xs).1
        ≤ amount
  run-limited now [] xs key h = h
  run-limited now ((k, gap) ∷ calls) xs key h =
      run-limited (now + gap) calls (allow_login k amount window_seconds (now + gap) xs).1 key
        (allow_login-limited k key now (now + gap) xs (omega arith) h)

  -- the logins that were allowed, each with its instant
  abbrev allowed_one : Bool → LoginAttempt → List LoginAttempt
  allowed_one true a = a ∷ []
  allowed_one false a = []

  abbrev pub allowed_logins : ℕ → List (String × ℕ) → List LoginAttempt → List LoginAttempt
  allowed_logins now [] xs = []
  allowed_logins now ((key, gap) ∷ calls) xs =
      let r = allow_login key amount window_seconds (now + gap) xs in
      allowed_one r.0 (record { scope_key = key; attempted_at = now + gap })
      ++ allowed_logins (now + gap) calls r.1

  -- The rows on record count as the logins that were allowed do, in any window that begins late enough.
  abbrev AreRecorded : String → ℕ → List LoginAttempt → List LoginAttempt → Type 0
  AreRecorded key now allowed xs =
      (c : ℕ) → now - window_seconds ≤ c → count_since c key allowed ≡ count_since c key xs

  count-pruned :
      (c c' : ℕ) (key : String) (xs : List LoginAttempt)
      → c ≤ c'
      → count_since c' key (since c xs) ≡ count_since c' key xs
  unfolding since count_since
  count-pruned c c' key [] le = refl
  count-pruned c c' key (a ∷ xs) le = ground (arith, le, count-pruned c c' key xs le)

  login-AreRecorded :
      (key k : String) (now gap : ℕ) (allowed xs : List LoginAttempt)
      → AreRecorded key now allowed xs
      → AreRecorded key
          (now + gap)
          (allowed
            ++ allowed_one
                (allow_login k amount window_seconds (now + gap) xs).0
                (record { scope_key = k; attempted_at = now + gap }))
          (allow_login k amount window_seconds (now + gap) xs).1
  unfolding allow_login
  login-AreRecorded key k now gap allowed xs h c le =
      let cut = now + gap - window_seconds in
      let new : List LoginAttempt = record { scope_key = k; attempted_at = now + gap } ∷ [] in
      let before = h c (omega (arith, le)) in
      let pruned = count-pruned cut c key xs le in
      elim (Bool-cases (leb amount (count_since cut k (since cut xs)))) [
        | inl y ↦ rw (y, append-nil allowed) (omega (arith, before, pruned))
        | inr n ↦ rw n (
            omega (
              arith,
              count-append c key allowed new,
              count-append c key (since cut xs) new,
              before,
              pruned,
            ))
      ]

  run-AreRecorded :
      (now : ℕ) (calls : List (String × ℕ)) (key : String) (allowed xs : List LoginAttempt)
      → AreRecorded key now allowed xs
      → AreRecorded key
          (run_logins now calls xs).0
          (allowed ++ allowed_logins now calls xs)
          (run_logins now calls xs).1
  run-AreRecorded now [] key allowed xs h c le = rw (append-nil allowed) (h c le)
  run-AreRecorded now ((k, gap) ∷ calls) key allowed xs h c le =
      let r = allow_login k amount window_seconds (now + gap) xs in
      let new = allowed_one r.0 (record { scope_key = k; attempted_at = now + gap }) in
      ap (count_since c key) (sym (append_assoc allowed new (allowed_logins (now + gap) calls r.1)))
      ∙ run-AreRecorded (now + gap) calls key (allowed ++ new) r.1
          (login-AreRecorded key k now gap allowed xs h) c le

  all-AreRecorded :
      (start : ℕ) (calls : List (String × ℕ)) (key : String) (c : ℕ)
      → (run_logins start calls []).0 - window_seconds ≤ c
      → count_since c key (allowed_logins start calls [])
        ≡ count_since c key (run_logins start calls []).1
  all-AreRecorded start calls key = run-AreRecorded start calls key [] [] (λ c le. refl)

  -- After any sequence of login calls with one limit, by any keys and in the order of their instants,
  -- the logins that were allowed to a key within the window that ends with the last call are at most
  -- the limit's amount; and a next call is allowed exactly when they are fewer than that.
  pub run_logins-limited :
      (start : ℕ) (calls : List (String × ℕ)) (key : String)
      → let (now, rows) = run_logins start calls [] in
        let recent = count_since (now - window_seconds) key (allowed_logins start calls []) in
        (recent ≤ amount)
        × (((allow_login key amount window_seconds now rows).0 ≡ true) ↔ (recent < amount))
  unfolding allow_login count_since
  run_logins-limited start calls key =
      let same =
        all-AreRecorded start calls key ((run_logins start calls []).0 - window_seconds)
          (omega arith) in
      (
        omega (arith, same, run-limited start calls [] key none_yet),
        rw same (next (run_logins start calls []).0 (run_logins start calls []).1),
      )
    where
      none_yet : count_since (start - window_seconds) key [] ≤ amount
      none_yet = omega arith

      next :
          (now : ℕ) (xs : List LoginAttempt)
          → ((allow_login key amount window_seconds now xs).0 ≡ true)
            ↔ (count_since (now - window_seconds) key xs < amount)
      next now xs = (
        λ h. ground (arith, h, count-since (now - window_seconds) key xs),
        λ h. ground (arith, h, count-since (now - window_seconds) key xs),
      )
