-- ===== src/Activity/Phases.antt =====
-- The order of phases: all but the latest are over, and a terminal status leaves none running.
use extrio.Activity.{
  Metrics, Terminal, succeeded, running, Entry, is_running, elapsed_ms, close, begin, at_once,
  closing, is_success, first, advance_latest, advance_activity,
}
use extrio.Base.{
  ℕ, String, ◌≡◌, refl, ap, ◌⊎◌, inl, inr, true, false, ◌&&◌, not, Bool-cases, Option, none, some,
  List, [], ◌∷◌, ◌=ₛ◌, eq_iff, if◌then◌else◌, arith, All,
}

-- an entry that is over says when, and how long it took
pub record IsOver (e : Entry) : Type 0 where
  pub over : is_running e.status ≡ false
  pub end : ℕ
  pub finished : e.finished_at ≡ some end
  pub duration : e.duration_ms ≡ some (elapsed_ms e.started_at end)

pub record IsOpen (e : Entry) : Type 0 where
  pub under_way : e.status ≡ running
  pub unfinished : e.finished_at ≡ none
  pub no_duration : e.duration_ms ≡ none

-- Every phase but the latest is over, and the latest is over or under way.
abbrev pub IsHistory : List Entry → Type 0
IsHistory [] = Unit
IsHistory (e ∷ []) = IsOpen e ⊎ IsOver e
IsHistory (e ∷ f ∷ es) = IsOver e × IsHistory (f ∷ es)

-- The latest entry satisfies the predicate; there is one.
abbrev pub Latest : (Entry → Type 0) → List Entry → Type 0
Latest P [] = ⊥
Latest P (e ∷ []) = P e
Latest P (e ∷ f ∷ es) = Latest P (f ∷ es)

cons-IsHistory : (e : Entry) (es : List Entry) → IsOver e → IsHistory es → IsHistory (e ∷ es)
cons-IsHistory e [] h i = inr h
cons-IsHistory e (f ∷ es) h i = (h, i)

cons-Latest : (P : Entry → Type 0) (e : Entry) (es : List Entry) → Latest P es → Latest P (e ∷ es)
cons-Latest P e [] h = absurd h
cons-Latest P e (f ∷ es) h = h

module _ (phase : String) (metrics : Metrics) (now : ℕ) where
  -- the phase that is reported: the one given, under way with its metrics
  pub record IsCurrent (e : Entry) : Type 0 where
    pub the_phase : e.phase ≡ phase
    pub under_way : IsOpen e
    pub the_metrics : e.metrics ≡ metrics

  close-IsOver : (t : Terminal) (e : Entry) → IsOver (close t metrics now e)
  close-IsOver t e = record { over = refl; end = now; finished = refl; duration = refl }

  at_once-IsOver : (p : String) (t : Terminal) → IsOver (at_once p t metrics now)
  at_once-IsOver p t = record {
    over = refl;
    end = now;
    finished = refl;
    duration = ap some (omega arith);
  }

  begin-IsCurrent : IsCurrent (begin phase metrics now)
  begin-IsCurrent = record {
    the_phase = refl;
    under_way = record { under_way = refl; unfinished = refl; no_duration = refl };
    the_metrics = refl;
  }

  IsOver-if : (e : Entry) → is_running e.status ≡ false → IsOpen e ⊎ IsOver e → IsOver e
  IsOver-if e n (inl o) = cc (o.under_way, n)
  IsOver-if e n (inr o) = o

  IsOpen-if : (e : Entry) → is_running e.status ≡ true → IsOpen e ⊎ IsOver e → IsOpen e
  IsOpen-if e y (inl o) = o
  IsOpen-if e y (inr o) = cc (o.over, y)

  -- what a step leaves: nothing under way after a terminal status, and the phase given otherwise
  abbrev pub Leaves : Option Terminal → List Entry → Type 0
  Leaves (some t) es = All IsOver es
  Leaves none es = IsHistory es × Latest IsCurrent es

  latest-Leaves :
      (t : Option Terminal) (e : Entry)
      → IsOpen e ⊎ IsOver e
      → Leaves t (advance_latest phase metrics now t e)
  unfolding advance_latest
  latest-Leaves none e h = elim (Bool-cases (is_running e.status)) [
    | inr n ↦ elim (Bool-cases (e.phase =ₛ phase)) [
      | inl p ↦ rw (p, n) ((IsOver-if e n h, inl begin-IsCurrent.under_way), begin-IsCurrent)
      | inr q ↦ rw (q, n) ((IsOver-if e n h, inl begin-IsCurrent.under_way), begin-IsCurrent)
    ]
    | inl y ↦ elim (Bool-cases (e.phase =ₛ phase)) [
      | inl p ↦
          let o = IsOpen-if e y h in
          let still : IsOpen (record e { metrics = metrics }) = record {
            under_way = o.under_way;
            unfinished = o.unfinished;
            no_duration = o.no_duration;
          } in
          rw (p, y)
            (
              inl still,
              record {
                the_phase = (eq_iff e.phase phase).0 p;
                under_way = still;
                the_metrics = refl;
              },
            )
      | inr q ↦
          rw (q, y) ((close-IsOver succeeded e, inl begin-IsCurrent.under_way), begin-IsCurrent)
    ]
  ]
  latest-Leaves (some t) e h = elim (Bool-cases (is_running e.status)) [
    | inr n ↦ rw n (both (IsOver-if e n h))
    | inl y ↦ rw y (both (close-IsOver (closing t) e))
  ]
    where
      both :
          {o : Entry}
          → IsOver o
          → All IsOver (
              if is_success t && not (e.phase =ₛ "completed")
              then o ∷ at_once "completed" succeeded metrics now ∷ []
              else o ∷ [])
      both {o} h = elim (Bool-cases (is_success t && not (e.phase =ₛ "completed"))) [
        | inl y ↦ rw y (h, (at_once-IsOver "completed" succeeded, tt))
        | inr n ↦ rw n (h, tt)
      ]

  -- From a history in which every phase but the latest is over, an update leads to one, in which
  -- the phase that is reported is under way with its metrics; an update with a terminal status
  -- leaves every phase over. A phase that is over says when it ended, and the time it took.
  pub advance_activity-Leaves :
      (t : Option Terminal) (es : List Entry)
      → IsHistory es
      → Leaves t (advance_activity phase metrics now t es)
  unfolding advance_activity first
  advance_activity-Leaves none [] h = (inl begin-IsCurrent.under_way, begin-IsCurrent)
  advance_activity-Leaves (some t) [] h = (at_once-IsOver phase t, tt)
  advance_activity-Leaves t (e ∷ []) h = latest-Leaves t e h
  advance_activity-Leaves none (e ∷ f ∷ es) (h, hs) =
      let (i, c) = advance_activity-Leaves none (f ∷ es) hs in
      (
        cons-IsHistory e _ h i,
        cons-Latest IsCurrent e (advance_activity phase metrics now none (f ∷ es)) c,
      )
  advance_activity-Leaves (some t) (e ∷ f ∷ es) (h, hs) =
      (h, advance_activity-Leaves (some t) (f ∷ es) hs)
