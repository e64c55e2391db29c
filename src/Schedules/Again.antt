-- ===== src/Schedules/Again.antt =====
-- A second claim at the same instant finds nothing to do.
use extrio.Base.{
  Bool-cases, Option-cases, any, ℕ, ◌≤◌, ◌<◌, String, ◌≡◌, refl, sym, ap, subst, ◌∙◌, inl, inr,
  Bool, true, false, ◌&&◌, Option, none, some, List, [], ◌∷◌, arith, ◌=ₛ◌, eq_iff,
}
use extrio.Schedules.{
  Schedule, Tables, find_schedule, find_source, is_due, time_of, insert_by_time, select_due,
  update_schedule, is_claimable, triggered, trigger, claim_one, claim_rows, claim_due_schedules,
}

-- one of the rows is the schedule's, under the same source
abbrev is_listed : List Schedule → Schedule → Bool
is_listed rows s = any (λ r. (r.id =ₛ s.id) && (r.collector_id =ₛ s.collector_id)) rows

-- What is due and could be claimed is among the rows that are left.
abbrev IsLeft : ℕ → List Schedule → Tables → Type 0
IsLeft now rows t =
    (id : String) (s : Schedule)
    → find_schedule id t.schedules ≡ some s
    → is_due now s ≡ true
    → is_claimable t s ≡ true
    → is_listed rows s ≡ true

find_schedule-id :
    (id : String) (ss : List Schedule) (s : Schedule) → find_schedule id ss ≡ some s → s.id ≡ id
find_schedule-id id [] s h = cc h
find_schedule-id id (r ∷ ss) s h = elim (Bool-cases (r.id =ₛ id)) [
  | inl y ↦
      let same : r ≡ s = ground (arith, h, y) in ap (λ x. x.id) (sym same) ∙ (eq_iff r.id id).0 y
  | inr n ↦ find_schedule-id id ss s (ground (arith, h, n))
]

listed-insert :
    (r s : Schedule) (rs : List Schedule) → is_listed (insert_by_time r rs) s ≡ is_listed (r ∷ rs) s
listed-insert r s [] = refl
listed-insert r s (q ∷ rs) = ground (arith, listed-insert r s rs)

selected :
    (now : ℕ) (id : String) (ss : List Schedule) (s : Schedule)
    → find_schedule id ss ≡ some s
    → is_due now s ≡ true
    → is_listed (select_due now ss) s ≡ true
unfolding select_due
selected now id [] s h due = cc h
selected now id (r ∷ ss) s h due = elim (Bool-cases (r.id =ₛ id)) [
  | inl y ↦
      let same : r ≡ s = ground (arith, h, y) in
      let due_r : is_due now r ≡ true = subst (λ x. is_due now x ≡ true) (sym same) due in
      let one = (eq_iff s.id s.id).1 refl in
      let two = (eq_iff s.collector_id s.collector_id).1 refl in
      let listed : is_listed (r ∷ select_due now ss) s ≡ true = rw (same, one, two) in
      rw (select_due, due_r) (listed-insert r s (select_due now ss) ∙ listed)
  | inr n ↦
      let rest = selected now id ss s (ground (arith, h, n)) due in
      elim (Bool-cases (is_due now r)) [
        | inl z ↦
            let listed : is_listed (r ∷ select_due now ss) s ≡ true = ground (arith, rest) in
            rw (select_due, z) (listed-insert r s (select_due now ss) ∙ listed)
        | inr z ↦ rw (select_due, z) rest
      ]
]

-- the row that is found after one was written
find-update :
    (id key : String) (new : Schedule) (ss : List Schedule) (s : Schedule)
    → new.id ≡ id
    → find_schedule key (update_schedule id (λ _. new) ss) ≡ some s
    → ((id =ₛ key) ≡ true → s ≡ new) × ((id =ₛ key) ≡ false → find_schedule key ss ≡ some s)
unfolding update_schedule
find-update id key new [] s same h = cc h
find-update id key new (r ∷ ss) s same h = elim (Bool-cases (r.id =ₛ id)) [
  | inl y ↦
      let row = (eq_iff r.id id).0 y in
      (
        λ e. let hit : (new.id =ₛ key) ≡ true = rw same e in ground (arith, h, y, hit),
        λ e.
            let miss : (new.id =ₛ key) ≡ false = rw same e in
            let other : (r.id =ₛ key) ≡ false = rw row e in
            let rest = (find-update id key new ss s same (ground (arith, h, y, miss))).1 e in
            ground (arith, other, rest),
      )
  | inr n ↦ elim (Bool-cases (r.id =ₛ key)) [
    | inl z ↦ (
      λ e. cc (subst (λ x. (r.id =ₛ x) ≡ false) ((eq_iff id key).0 e) n, z),
      λ e. ground (arith, h, n, z),
    )
    | inr z ↦
        let (a, b) = find-update id key new ss s same (ground (arith, h, n, z)) in
        (a, λ e. ground (arith, z, b e))
  ]
]

-- a row that is not the schedule's can be left out
drop_row :
    (r s : Schedule) (rs : List Schedule)
    → is_listed (r ∷ rs) s ≡ true
    → ¬ ((r.id ≡ s.id) × (r.collector_id ≡ s.collector_id))
    → is_listed rs s ≡ true
drop_row r s rs h n = elim (Bool-cases ((r.id =ₛ s.id) && (r.collector_id =ₛ s.collector_id))) [
  | inl y ↦ absurd (n ((eq_iff _ _).0 (ground (arith, y)), (eq_iff _ _).0 (ground (arith, y))))
  | inr f ↦ ground (arith, h, f)
]

module _ (next : String → ℕ → ℕ) (occurrence_key : String → ℕ → ℕ → String) where
  -- the write of a claim, which moves the schedule on
  trigger-IsLeft :
      (now : ℕ) (r s : Schedule) (rs : List Schedule) (t : Tables)
      → ((cron : String) → now < next cron now)
      → find_schedule r.id t.schedules ≡ some s
      → IsLeft now (r ∷ rs) t
      → IsLeft now rs (trigger next occurrence_key now s (time_of s) t).1
  trigger-IsLeft now r s rs t later row h id q found due claimable =
      let new = triggered next occurrence_key now (time_of s) s in
      let same = find_schedule-id r.id t.schedules s row in
      let (moved, others) = find-update s.id id new t.schedules q refl found in
      elim (Bool-cases (s.id =ₛ id)) [
        | inl y ↦
            let e = moved y in
            let still : is_due now new ≡ true = subst (λ x. is_due now x ≡ true) e due in
            absurd (ground (arith, still, later s.cron_expression))
        | inr n ↦
            let before = others n in
            drop_row r q rs (h id q before due claimable) (λ (a, _).
              let key = find_schedule-id id t.schedules q before in
              cc ((eq_iff s.id id).1 (same ∙ (a ∙ key)), n))
      ]

  one-IsLeft :
      (now : ℕ) (r : Schedule) (rs : List Schedule) (t : Tables)
      → ((cron : String) → now < next cron now)
      → IsLeft now (r ∷ rs) t
      → IsLeft now rs (claim_one next occurrence_key now r t).1
  unfolding claim_one
  one-IsLeft now r rs t later h = elim (Option-cases (find_source r.collector_id t.sources)) [
    | inl n ↦
        rw (n, claim_one)
          (λ id s found due claimable. drop_row r s rs (h id s found due claimable) (λ (_, b).
            let gone : find_source s.collector_id t.sources ≡ none =
              subst (λ x. find_source x t.sources ≡ none) b n in
            absurd (ground (arith, claimable, gone))))
    | inr (c, e) ↦ elim (Option-cases (find_schedule r.id t.schedules)) [
      | inl n ↦
          rw (e, claim_one, n)
            (λ id s found due claimable. drop_row r s rs (h id s found due claimable) (λ (a, _).
              let key = a ∙ find_schedule-id id t.schedules s found in
              cc (subst (λ x. find_schedule x t.schedules ≡ none) key n, found)))
      | inr (s0, f) ↦ elim (Bool-cases (is_due now s0 && is_claimable t s0)) [
        | inl y ↦ rw (e, claim_one, f, y) (trigger-IsLeft now r s0 rs t later f h)
        | inr n ↦
            rw (e, claim_one, f, n)
              (λ id s found due claimable. drop_row r s rs (h id s found due claimable) (λ (a, _).
                let key = a ∙ find_schedule-id id t.schedules s found in
                let e0 : ◌≡◌ {A = Option Schedule} (some s0) (some s) =
                  sym (subst (λ x. find_schedule x t.schedules ≡ some s0) key f) ∙ found in
                let same : s0 ≡ s = ground (arith, e0) in
                let refused = subst (λ x. (is_due now x && is_claimable t x) ≡ false) same n in
                absurd (ground (arith, refused, due, claimable))))
      ]
    ]
  ]

  skip_one :
      (now before : ℕ) (t : Tables) (r : Schedule)
      → before ≤ now
      → IsLeft now [] t
      → claim_one next occurrence_key before r t ≡ ([], t)
  unfolding claim_one
  skip_one now before t r le h = elim (Option-cases (find_source r.collector_id t.sources)) [
    | inl n ↦ rw (n, claim_one)
    | inr (c, e) ↦ elim (Option-cases (find_schedule r.id t.schedules)) [
      | inl n ↦ rw (e, claim_one, n)
      | inr (s, f) ↦ elim (Bool-cases (is_due before s && is_claimable t s)) [
        | inr n ↦ rw (e, claim_one, f, n)
        | inl y ↦
            let due : is_due now s ≡ true = ground (arith, y, le) in
            cc (h r.id s f due (ground (arith, y)))
      ]
    ]
  ]

  nothing_left :
      (now before : ℕ) (t : Tables) (rows : List Schedule)
      → before ≤ now
      → IsLeft now [] t
      → claim_rows next occurrence_key before rows t ≡ ([], t)
  unfolding claim_rows
  nothing_left now before t [] le h = refl
  nothing_left now before t (r ∷ rs) le h =
      rw (skip_one now before t r le h, claim_rows, nothing_left now before t rs le h)

  rows-IsLeft :
      (now : ℕ) (rows : List Schedule) (t : Tables)
      → ((cron : String) → now < next cron now)
      → IsLeft now rows t
      → IsLeft now [] (claim_rows next occurrence_key now rows t).1
  unfolding claim_rows
  rows-IsLeft now [] t later h = h
  rows-IsLeft now (r ∷ rs) t later h =
      rows-IsLeft now rs (claim_one next occurrence_key now r t).1 later
        (one-IsLeft now r rs t later h)

  -- Where croniter's next instant lies after its base, a second claim at the same instant, or at an
  -- earlier one of a clock that went back, claims nothing and changes nothing: each due schedule was
  -- moved on, and only those of deleted and archived sources are still due.
  pub claim_again :
      (now again : ℕ) (t : Tables)
      → ((cron : String) → now < next cron now)
      → again ≤ now
      → let after = (claim_due_schedules next occurrence_key now t).1 in
        claim_due_schedules next occurrence_key again after ≡ ([], after)
  unfolding claim_due_schedules
  claim_again now again t later le =
      let after = (claim_rows next occurrence_key now (select_due now t.schedules) t).1 in
      nothing_left now again after (select_due again after.schedules) le (
        rows-IsLeft now (select_due now t.schedules) t later
          (λ id s found due claimable. selected now id t.schedules s found due))
