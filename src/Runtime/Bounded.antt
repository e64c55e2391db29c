-- ===== src/Runtime/Bounded.antt =====
-- The traversal reads each page once, on the hosts that the rule allows, and no more pages or records than
-- its limits.
use extrio.Base.{
  Bool-cases, Option-cases, Outcome-cases, bind-ok, differ_sym, All, All-append, ℕ, zero, suc, ◌+◌,
  String, Bool, true, false, not, ◌&&◌, ◌||◌, Option, some, List, [], ◌∷◌, ◌++◌, ◌≡◌, refl, ◌∙◌,
  inl, inr, arith, ◌=ₛ◌, ◌==◌, take, ok, raise_if,
}
use extrio.Recovery.Values.{Progress}
use extrio.Runtime.Records.{
  Listed, source_structure_mismatch, Site, Config, is_in, urls, Reading, taken, seen_record, filled,
  take_record, read_record, read_records, is_allowed, date_of, is_before,
}
use extrio.Runtime.Traverse.{
  Traversal, Turn, go, stop, give_up, is_filled, sought, order_issue, remembered, starting,
  after_records, conclude, read_list, following, issue_of, read_page,
}

-- no two of the texts are the same
abbrev AreApart : List String → Type 0
AreApart [] = Unit
AreApart (s ∷ ss) = (is_in s ss ≡ false) × AreApart ss

is_in-append : (s u : String) (ss : List String) → is_in s (ss ++ u ∷ []) ≡ (is_in s ss || (u =ₛ s))
is_in-append s u [] = ground arith
is_in-append s u (t ∷ ss) = ground (arith, is_in-append s u ss)

append-AreApart :
    (ss : List String) (u : String) → AreApart ss → is_in u ss ≡ false → AreApart (ss ++ u ∷ [])
append-AreApart [] u h n = (refl, tt)
append-AreApart (s ∷ ss) u (h, hs) n =
    let differs : (u =ₛ s) ≡ false = differ_sym s u (ground (arith, n)) in
    (is_in-append s u ss ∙ ground (arith, h, differs), append-AreApart ss u hs (ground (arith, n)))

urls-append : (rs : List Listed) (r : Listed) → urls (rs ++ r ∷ []) ≡ urls rs ++ r.detail_url ∷ []
urls-append [] r = refl
urls-append (s ∷ rs) r = cc (urls-append rs r)

is_in-take :
    (n : ℕ) (u : String) (rs : List Listed)
    → is_in u (urls rs) ≡ false
    → is_in u (urls (take n rs)) ≡ false
is_in-take zero u rs h = refl
is_in-take (suc n) u [] h = refl
is_in-take (suc n) u (r ∷ rs) h = ground (arith, h, is_in-take n u rs)

abbrev pub state_of : Turn → Traversal
state_of (go s) = s
state_of (stop reason s) = s
state_of (give_up reason s) = s

abbrev pub goes_on : Turn → Bool
goes_on (go s) = true
goes_on (stop reason s) = false
goes_on (give_up reason s) = false

pub go_state : (t : Turn) → goes_on t ≡ true → t ≡ go (state_of t)
go_state t h = ground (arith, h)

module _ (site : Site) (config : Config) where
  -- addresses that are all different, on hosts that are allowed
  pub record AreWithin (us : List String) : Type 0 where
    pub apart : AreApart us
    pub allowed : All (λ u. is_allowed site config u ≡ true) us

  pub append-AreWithin :
      (us : List String) (u : String)
      → AreWithin us
      → is_in u us ≡ false
      → is_allowed site config u ≡ true
      → AreWithin (us ++ u ∷ [])
  append-AreWithin us u h n y = record {
    apart = append-AreApart us u h.apart n;
    allowed = All-append (λ u. is_allowed site config u ≡ true) us (u ∷ []) h.allowed (y, tt);
  }

  pub take-AreWithin :
      (n : ℕ) (rs : List Listed) → AreWithin (urls rs) → AreWithin (urls (take n rs))
  take-AreWithin zero rs h = record { apart = tt; allowed = tt }
  take-AreWithin (suc n) [] h = h
  take-AreWithin (suc n) (r ∷ rs) h =
      let rest = take-AreWithin n rs (record { apart = h.apart.1; allowed = h.allowed.1 }) in
      record {
        apart = (is_in-take n r.detail_url rs h.apart.0, rest.apart);
        allowed = (h.allowed.0, rest.allowed);
      }

  taken-AreWithin :
      (r : Listed) (s : Reading)
      → is_allowed site config r.detail_url ≡ true
      → AreWithin (urls s.details)
      → AreWithin (urls (taken site config r s).details)
  taken-AreWithin r s y h = elim (Bool-cases (is_in r.detail_url (urls s.details))) [
    | inl known ↦ rw known h
    | inr new ↦ rw (new, urls-append) (append-AreWithin (urls s.details) r.detail_url h new y)
  ]

  filled-details : (s : Reading) → (filled site config s).details ≡ s.details
  filled-details s = ground arith

  take_record-AreWithin :
      (r : Listed) (s next : Reading)
      → take_record site config r s ≡ ok next
      → AreWithin (urls s.details)
      → AreWithin (urls next.details)
  take_record-AreWithin r s next e h =
      elim (Bool-cases (config.observed && is_in r.detail_url s.processed)) [
        | inl y ↦ let same : next.details ≡ s.details = ground (arith, e, y) in rw same h
        | inr n ↦ elim (Bool-cases (is_allowed site config r.detail_url)) [
          | inl y ↦
              let same : next.details ≡ (taken site config r s).details =
                ground (arith, e, n, y, filled-details (taken site config r s)) in
              rw same (taken-AreWithin r s y h)
          | inr f ↦
              let same : next.details ≡ s.details = ground (arith, e, n, f, filled-details s) in
              rw same h
        ]
      ]

  read_record-AreWithin :
      (r : Listed) (s next : Reading)
      → read_record site config r s ≡ ok next
      → AreWithin (urls s.details)
      → AreWithin (urls next.details)
  unfolding read_record
  read_record-AreWithin r s next e h =
      elim (Bool-cases (
        config.window_enabled
        && is_before site config (date_of site config r) config.window_start)) [
          | inl y ↦ let same : next.details ≡ s.details = ground (arith, e, y) in rw same h
          | inr n ↦
              take_record-AreWithin r (seen_record site config r s) next (rw (n, read_record) at e)
                h
        ]

  read_records-AreWithin :
      (rs : List Listed) (s next : Reading)
      → read_records site config rs s ≡ ok next
      → AreWithin (urls s.details)
      → AreWithin (urls next.details)
  unfolding read_records
  read_records-AreWithin [] s next e h = let same : next ≡ s = ground (arith, e) in rw same h
  read_records-AreWithin (r ∷ rs) s next e h = elim (Outcome-cases (read_record site config r s)) [
    | inl (mid, one) ↦
        let first = read_record-AreWithin r s mid one h in
        elim (Bool-cases mid.is_full) [
          | inl y ↦ let same : next ≡ mid = ground (arith, e, one, y) in rw same first
          | inr n ↦ read_records-AreWithin rs mid next (ground (arith, e, one, n)) first
        ]
    | inr (x, failed) ↦ absurd (ground (arith, e, failed))
  ]

  -- a progress that another run of the rule and the policy may continue from
  abbrev pub Continues : Option Progress → Type 0
  Continues o =
      (p : Progress)
      → o ≡ some p
      → (p.rule_digest ≡ config.rule_digest)
        × ((p.policy_version_id ≡ config.policy_id) × (p.window_start ≡ config.window_text))

  -- the pages that a turn has seen stay the same after the page is fetched, and its records are kept in bounds
  pub record IsKept (s : Traversal) (after : Traversal) : Type 0 where
    pub same_pages : after.seen_pages ≡ s.seen_pages
    pub same_asked : after.asked ≡ s.asked
    pub within : AreWithin (urls s.details) → AreWithin (urls after.details)
    pub continues : Continues s.progress → Continues after.progress

  conclude-details :
      (page html : String) (r : Reading) (s : Traversal)
      → ((state_of (conclude site config page html r s)).seen_pages ≡ s.seen_pages)
        × (((state_of (conclude site config page html r s)).details ≡ s.details)
            × (((state_of (conclude site config page html r s)).progress ≡ s.progress)
                × ((state_of (conclude site config page html r s)).asked ≡ s.asked)))
  unfolding conclude
  conclude-details page html r s = ground arith

  remembered-details :
      (rs : List Listed) (s : Traversal)
      → ((remembered site config rs s).seen_pages ≡ s.seen_pages)
        × (((remembered site config rs s).details ≡ s.details)
            × (((remembered site config rs s).progress ≡ s.progress)
                × ((remembered site config rs s).asked ≡ s.asked)))
  remembered-details rs s = ground arith

  progressed :
      (page : String) (rs : List Listed) (r : Reading) (s : Traversal)
      → Continues s.progress
      → Continues (after_records site config page rs r s).progress
  progressed page rs r s h = elim (Bool-cases config.observed) [
    | inl y ↦ λ p e. (ground (arith, e, y), (ground (arith, e, y), ground (arith, e, y)))
    | inr n ↦ λ p e. h p (ground (arith, e, n))
  ]

  read_list-IsKept :
      (page html : String) (rs : List Listed) (s : Traversal) (t : Turn)
      → read_list site config page html rs s ≡ ok t
      → IsKept s (state_of t)
  unfolding read_list
  read_list-IsKept page html rs s t e =
      let (same_pages, (same_details, (same_progress, same_asked))) = remembered-details rs s in
      elim (Option-cases (order_issue site config rs s)) [
        | inr (issue, some_issue) ↦
            let is_t : t ≡ stop issue (remembered site config rs s) =
              ground (arith, e, some_issue) in
            rw is_t record {
              same_pages = same_pages;
              same_asked = same_asked;
              within = λ h. rw same_details h;
              continues = λ h. rw same_progress h;
            }
        | inl fine ↦
            let (r, read, e1) =
              bind-ok (read_records site config rs (starting site config rs s)) _ _
                (rw (fine, read_list) at e) in
            let last = after_records site config page rs r (remembered site config rs s) in
            let (end_pages, (end_details, (end_progress, end_asked))) =
              conclude-details page html r last in
            let is_t : t ≡ conclude site config page html r last = ground (arith, e1) in
            rw is_t record {
              same_pages = end_pages ∙ same_pages;
              same_asked = end_asked ∙ same_asked;
              within = λ h.
                  rw end_details (read_records-AreWithin rs (starting site config rs s) r read h);
              continues = λ h.
                  rw end_progress
                    (progressed page rs r (remembered site config rs s) (rw same_progress h));
            }
      ]

  sought-details :
      (rs : List Listed) (s : Traversal)
      → ((sought rs s).seen_pages ≡ s.seen_pages)
        × (((sought rs s).details ≡ s.details)
            × (((sought rs s).progress ≡ s.progress) × ((sought rs s).asked ≡ s.asked)))
  sought-details rs s = ground arith

  pub read_page-IsKept :
      (i : ℕ) (page html : String) (s : Traversal) (t : Turn)
      → read_page site config i page html s ≡ ok t
      → IsKept s (state_of t)
  unfolding read_page
  read_page-IsKept i page html s t e =
      let rs = (site.discover html page).0 in
      let link = (site.discover html page).1 in
      let s2 = sought rs (following site config rs link s) in
      let (same_pages, (same_details, (same_progress, same_asked))) =
        sought-details rs (following site config rs link s) in
      elim (Option-cases (issue_of site config i page html rs)) [
        | inr (issue, some_issue) ↦
            let is_t : t ≡ give_up issue (record s { warnings = s.warnings + 1 }) =
              ground (arith, e, some_issue) in
            rw is_t
              record { same_pages = refl; same_asked = refl; within = λ h. h; continues = λ h. h }
        | inl fine ↦
            let (_, _, e1) =
              bind-ok (raise_if (not (is_filled rs) && (i == 0)) source_structure_mismatch) _ _
                (rw (fine, read_page) at e) in
            let kept = read_list-IsKept page html rs s2 t e1 in
            record {
              same_pages = kept.same_pages ∙ same_pages;
              same_asked = kept.same_asked ∙ same_asked;
              within = λ h. kept.within (rw same_details h);
              continues = λ h. kept.continues (rw same_progress h);
            }
      ]
