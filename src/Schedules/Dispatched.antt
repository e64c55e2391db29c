-- ===== src/Schedules/Dispatched.antt =====
-- An occurrence is dispatched once.
use text.Mathlib.TextPositions.{eq_refl}
use extrio.Base.{
  ℕ, String, ◌≡◌, refl, sym, subst, inl, inr, false, Option, none, some, List, [], ◌∷◌, ◌++◌, ◌=ₛ◌,
  eq_iff, if◌then◌else◌, arith, Bool-cases, Option-cases, Outcome, ok, err,
}
use extrio.Schedules.{Occurrence, Tables, claim_due_schedules}
use extrio.Schedules.Once.{claim-IsClaimedOnce}
use extrio.Schedules.Dispatch.{
  find_occurrence, finished, update_occurrence, finish_schedule_occurrence, started, settled,
  dispatch_schedule_occurrence,
}

-- The occurrence is on record and no longer claimed.
abbrev pub IsOver : String → List Occurrence → Type 0
IsOver key os =
    (row : Occurrence) × (find_occurrence key os ≡ some row) × ((row.status =ₛ "claimed") ≡ false)

find-append :
    (key : String) (os new : List Occurrence) (row : Occurrence)
    → find_occurrence key os ≡ some row
    → find_occurrence key (os ++ new) ≡ some row
unfolding find_occurrence
find-append key [] new row e = ground arith
find-append key (o ∷ os) new row e = ground (arith, e, find-append key os new row)

abbrev changed_row : (Occurrence → Occurrence) → Option Occurrence → Option Occurrence
changed_row f none = none
changed_row f (some o) = some (f o)

find-update_occurrence :
    (key k : String) (f : Occurrence → Occurrence) (os : List Occurrence)
    → ((o : Occurrence) → (f o).occurrence_key ≡ o.occurrence_key)
    → find_occurrence k (update_occurrence key f os)
      ≡ (if k =ₛ key then changed_row f (find_occurrence k os) else find_occurrence k os)
unfolding find_occurrence update_occurrence
find-update_occurrence key k f [] keeps = ground arith
find-update_occurrence key k f (o ∷ os) keeps = ground (
  arith,
  find-update_occurrence key k f os keeps,
  keeps o,
  eq_iff o.occurrence_key key,
  eq_iff (f o).occurrence_key k,
  eq_iff o.occurrence_key k,
  eq_iff k key,
)

finish-IsOver :
    (key status : String) (run reason : Option String) (t : Tables) (row : Occurrence)
    → find_occurrence key t.occurrences ≡ some row
    → (status =ₛ "claimed") ≡ false
    → IsOver key (finish_schedule_occurrence key status run reason t).occurrences
unfolding finish_schedule_occurrence
finish-IsOver key status run reason t row e over = (
  finished status run reason row,
  simp (
    find-update_occurrence key key (finished status run reason) t.occurrences (λ o. refl),
    eq_refl,
    e,
  ),
  over,
)

finish_others-IsOver :
    (key k status : String) (run reason : Option String) (t : Tables)
    → (k =ₛ key) ≡ false
    → IsOver k t.occurrences
    → IsOver k (finish_schedule_occurrence key status run reason t).occurrences
unfolding finish_schedule_occurrence
finish_others-IsOver key k status run reason t other (row, e, over) = (
  row,
  simp (
    find-update_occurrence key k (finished status run reason) t.occurrences (λ o. refl),
    other,
    e,
  ),
  over,
)

module _ (next : String → ℕ → ℕ) (occurrence_key : String → ℕ → ℕ → String) {World : Type 0}
    (create_run : String → World → Outcome String (String × World)) where
  settled-IsOver :
      (key : String) (t : Tables) (w : World) (x : Outcome String (String × World))
      (row : Occurrence)
      → find_occurrence key t.occurrences ≡ some row
      → IsOver key (settled occurrence_key create_run key t w x).0.occurrences
  settled-IsOver key t w (err code) row e =
      finish-IsOver key "skipped" none (some code) t row e refl
  settled-IsOver key t w (ok (run, w')) row e =
      finish-IsOver key "dispatched" (some run) none t row e refl

  settled_others-IsOver :
      (key k : String) (t : Tables) (w : World) (x : Outcome String (String × World))
      → (k =ₛ key) ≡ false
      → IsOver k t.occurrences
      → IsOver k (settled occurrence_key create_run key t w x).0.occurrences
  settled_others-IsOver key k t w (err code) other h =
      finish_others-IsOver key k "skipped" none (some code) t other h
  settled_others-IsOver key k t w (ok (run, w')) other h =
      finish_others-IsOver key k "dispatched" (some run) none t other h

  abbrev dispatch : Occurrence → Tables × World → Tables × World
  dispatch o s = dispatch_schedule_occurrence occurrence_key create_run o s

  over_unchanged :
      (o : Occurrence) (t : Tables) (w : World)
      → IsOver o.occurrence_key t.occurrences
      → dispatch o (t, w) ≡ (t, w)
  unfolding dispatch_schedule_occurrence
  over_unchanged o t w (row, e, over) = rw (e, dispatch_schedule_occurrence, over) refl

  dispatched-IsOver :
      (o : Occurrence) (t : Tables) (w : World) (row : Occurrence)
      → find_occurrence o.occurrence_key t.occurrences ≡ some row
      → IsOver o.occurrence_key (dispatch o (t, w)).0.occurrences
  unfolding dispatch_schedule_occurrence
  dispatched-IsOver o t w row e = elim (Bool-cases (row.status =ₛ "claimed")) [
    | inl y ↦
        rw (e, dispatch_schedule_occurrence, y)
          (settled-IsOver o.occurrence_key t w (started occurrence_key create_run o t w) row e)
    | inr n ↦ rw (e, dispatch_schedule_occurrence, n) (row, e, n)
  ]

  others-IsOver :
      (o : Occurrence) (k : String) (t : Tables) (w : World)
      → IsOver k t.occurrences
      → IsOver k (dispatch o (t, w)).0.occurrences
  unfolding dispatch_schedule_occurrence
  others-IsOver o k t w h = elim (Option-cases (find_occurrence o.occurrence_key t.occurrences)) [
    | inl none_there ↦ rw (none_there, dispatch_schedule_occurrence) h
    | inr (row, e) ↦ elim (Bool-cases (row.status =ₛ "claimed")) [
      | inr n ↦ rw (e, dispatch_schedule_occurrence, n) h
      | inl y ↦ elim (Bool-cases (k =ₛ o.occurrence_key)) [
        | inl same ↦
            subst (λ i. IsOver i (dispatch o (t, w)).0.occurrences)
              (sym ((eq_iff k o.occurrence_key).0 same)) (dispatched-IsOver o t w row e)
        | inr other ↦
            rw (e, dispatch_schedule_occurrence, y)
              (settled_others-IsOver o.occurrence_key k t w
                (started occurrence_key create_run o t w) other h)
      ]
    ]
  ]

  -- Claims, dispatches and whatever else leaves the occurrences, one after the other.
  pub data Later (a : Tables × World) : Tables × World → Type 0 where
    stay : Later a a
    claimed :
        {t : Tables} {w : World} (now : ℕ)
        → Later a (t, w)
        → Later a ((claim_due_schedules next occurrence_key now t).1, w)
    dispatched :
        {t : Tables} {w : World} (o : Occurrence) → Later a (t, w) → Later a (dispatch o (t, w))
    otherwise :
        {t : Tables} {w : World} (t' : Tables) (w' : World)
        → Later a (t, w)
        → t'.occurrences ≡ t.occurrences
        → Later a (t', w')

  later-IsOver :
      (k : String) {a b : Tables × World}
      → Later a b
      → IsOver k a.0.occurrences
      → IsOver k b.0.occurrences
  later-IsOver k stay h = h
  later-IsOver k (claimed {t = t} now l) h =
      let (row, e, over) = later-IsOver k l h in
      (
        row,
        rw (claim-IsClaimedOnce next occurrence_key now t).added
            (find-append k t.occurrences _ row e),
        over,
      )
  later-IsOver k (dispatched {t = t} {w = w} o l) h = others-IsOver o k t w (later-IsOver k l h)
  later-IsOver k (otherwise t' w' l same) h = rw same (later-IsOver k l h)

  -- Once an occurrence that is on record has been dispatched, whether it then has its run or was
  -- skipped, dispatching it again changes nothing and creates no run, whatever claims, dispatches and
  -- changes elsewhere come between.
  pub dispatched_once :
      (o row : Occurrence) (t : Tables) (w : World) (after : Tables × World)
      → find_occurrence o.occurrence_key t.occurrences ≡ some row
      → Later (dispatch_schedule_occurrence occurrence_key create_run o (t, w)) after
      → dispatch_schedule_occurrence occurrence_key create_run o after ≡ after
  dispatched_once o row t w (t', w') e l =
      over_unchanged o t' w' (later-IsOver o.occurrence_key l (dispatched-IsOver o t w row e))
