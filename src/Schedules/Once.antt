-- ===== src/Schedules/Once.antt =====
-- An occurrence is claimed once.
use mathlib.Core.List.{append_assoc, append-nil}
use extrio.Base.{
  Bool-cases, Option-cases, differ_sym, ℕ, String, ◌≡◌, refl, sym, ap, ◌∙◌, inl, inr, false, ◌&&◌,
  ◌||◌, List, [], ◌∷◌, ◌++◌, arith, ◌=ₛ◌,
}
use extrio.Schedules.{
  Schedule, Occurrence, Tables, find_schedule, find_source, is_due, time_of, select_due, has_key,
  is_claimable, claimed_occurrence, trigger, claim_one, claim_rows, claim_due_schedules,
}

-- no two occurrences have the same key
abbrev pub AreDistinct : List Occurrence → Type 0
AreDistinct [] = Unit
AreDistinct (o ∷ os) = (has_key o.occurrence_key os ≡ false) × AreDistinct os

has_key-append :
    (key : String) (os : List Occurrence) (o : Occurrence)
    → has_key key (os ++ o ∷ []) ≡ (has_key key os || (o.occurrence_key =ₛ key))
has_key-append key [] o = ground arith
has_key-append key (q ∷ os) o = ground (arith, has_key-append key os o)

-- a new key at the end
distinct-append :
    (os : List Occurrence) (o : Occurrence)
    → AreDistinct os
    → has_key o.occurrence_key os ≡ false
    → AreDistinct (os ++ o ∷ [])
distinct-append [] o h n = (refl, tt)
distinct-append (q ∷ os) o (h, hs) n =
    let differs : (o.occurrence_key =ₛ q.occurrence_key) ≡ false =
      differ_sym q.occurrence_key o.occurrence_key (ground (arith, n)) in
    (
      has_key-append q.occurrence_key os o ∙ ground (arith, h, differs),
      distinct-append os o hs (ground (arith, n)),
    )

-- Occurrences are added at the end, those that were claimed, under keys that are all different.
pub record IsClaimedOnce (claimed : List Occurrence) (t after : Tables) : Type 0 where
  pub added : after.occurrences ≡ t.occurrences ++ claimed
  pub distinct : AreDistinct t.occurrences → AreDistinct after.occurrences

nothing-IsClaimedOnce : (t : Tables) → IsClaimedOnce [] t t
nothing-IsClaimedOnce t = record { added = sym (append-nil t.occurrences); distinct = λ d. d }

module _ (next : String → ℕ → ℕ) (occurrence_key : String → ℕ → ℕ → String) where
  trigger-IsClaimedOnce :
      (now : ℕ) (s : Schedule) (at : ℕ) (t : Tables)
      → IsClaimedOnce
          (trigger next occurrence_key now s at t).0
          t
          (trigger next occurrence_key now s at t).1
  trigger-IsClaimedOnce now s at t =
      elim (Bool-cases (has_key (occurrence_key s.id s.revision at) t.occurrences)) [
        | inl y ↦ record {
          added = rw (y, trigger) (sym (append-nil t.occurrences));
          distinct = λ d. rw (y, trigger) d;
        }
        | inr n ↦ record {
          added = rw (n, trigger);
          distinct = λ d.
              rw (n, trigger)
                (distinct-append t.occurrences (claimed_occurrence next occurrence_key s at) d n);
        }
      ]

  one-IsClaimedOnce :
      (now : ℕ) (r : Schedule) (t : Tables)
      → IsClaimedOnce
          (claim_one next occurrence_key now r t).0
          t
          (claim_one next occurrence_key now r t).1
  unfolding claim_one
  one-IsClaimedOnce now r t = elim (Option-cases (find_source r.collector_id t.sources)) [
    | inl n ↦ rw (n, claim_one) (nothing-IsClaimedOnce t)
    | inr (c, e) ↦ elim (Option-cases (find_schedule r.id t.schedules)) [
      | inl n ↦ rw (e, claim_one, n) (nothing-IsClaimedOnce t)
      | inr (s, f) ↦ elim (Bool-cases (is_due now s && is_claimable t s)) [
        | inl y ↦ rw (e, claim_one, f, y) (trigger-IsClaimedOnce now s (time_of s) t)
        | inr n ↦ rw (e, claim_one, f, n) (nothing-IsClaimedOnce t)
      ]
    ]
  ]

  rows-IsClaimedOnce :
      (now : ℕ) (rows : List Schedule) (t : Tables)
      → IsClaimedOnce
          (claim_rows next occurrence_key now rows t).0
          t
          (claim_rows next occurrence_key now rows t).1
  unfolding claim_rows
  rows-IsClaimedOnce now [] t = nothing-IsClaimedOnce t
  rows-IsClaimedOnce now (r ∷ rs) t =
      let mid = claim_one next occurrence_key now r t in
      let one = one-IsClaimedOnce now r t in
      let others = rows-IsClaimedOnce now rs mid.1 in
      let last = claim_rows next occurrence_key now rs mid.1 in
      record {
        added =
            others.added
            ∙ (ap (λ os. os ++ last.0) one.added ∙ append_assoc t.occurrences mid.0 last.0);
        distinct = λ d. others.distinct (one.distinct d);
      }

  -- A claim leaves the occurrences that are there and adds those that it returns; where no two had the
  -- same key before, none have it afterwards, so an occurrence is never claimed a second time.
  pub claim-IsClaimedOnce :
      (now : ℕ) (t : Tables)
      → IsClaimedOnce
          (claim_due_schedules next occurrence_key now t).0
          t
          (claim_due_schedules next occurrence_key now t).1
  unfolding claim_due_schedules
  claim-IsClaimedOnce now t = rows-IsClaimedOnce now (select_due now t.schedules) t
