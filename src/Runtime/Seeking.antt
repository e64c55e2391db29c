-- ===== src/Runtime/Seeking.antt =====
-- How a traversal seeks the anchor of the progress that it continues from, and why it ends.
use extrio.Base.{
  Bool-cases, Option-cases, Outcome-cases, bind-ok, ℕ, zero, suc, ◌+◌, ◌≤◌, String, true, false,
  not, ◌&&◌, ◌=ₛ◌, Option, none, some, List, [], ◌∷◌, ◌++◌, ◌≡◌, refl, sym, ap, ◌∙◌, ◌⊎◌, inl, inr,
  arith, if◌then◌else◌, or_else, is_some, leb, eq_iff, ok, raise_if, ◌==◌,
}
use extrio.Recovery.Values.{Progress}
use extrio.Runtime.Records.{
  Listed, source_structure_mismatch, Site, Config, is_in, urls, Reading, read_records, is_allowed,
}
use extrio.Runtime.Traverse.{
  Traversal, Turn, go, stop, give_up, is_filled, sought, finds_anchor, order_issue, remembered,
  starting, after_records, conclude, read_list, following, issue_of, read_page, asking, visit, turn,
  traverse, is_next, is_covered, opened,
}
use extrio.Runtime.Bounded.{state_of, goes_on, go_state}
use extrio.Runtime.Anchors.{more_pages, last_page, anchor_of, IsFound, finds_anchor-Shows}
use extrio.Runtime.Orders.{order_issue-IsOpen}

module _ (site : Site) (config : Config) (prior : Option Progress) where
  -- The anchor is still sought on the pages to come, or a page has shown it.
  abbrev pub Seeks : Traversal → Type 0
  Seeks s =
      ((s.seeking_anchor ≡ anchor_of prior) × (is_some s.seeking_anchor ≡ true → s.resume ≡ prior))
      ⊎ IsFound prior s.seen_record_pages

  found_on :
      (p : Progress) (a : String) (rs : List Listed) (s : Traversal)
      → prior ≡ some p
      → anchor_of prior ≡ some a
      → finds_anchor a (some p) rs ≡ true
      → IsFound prior (s.seen_record_pages ++ urls rs ∷ [])
  found_on p a rs s is_p is_a h =
      (p, a, is_p, is_a, last_page p a s.seen_record_pages (urls rs) (finds_anchor-Shows a p rs h))

  -- `sought` forgets the anchor on a page that shows it only
  sought-Seeks :
      (rs : List Listed) (s : Traversal)
      → Seeks s
      → (((sought rs s).seeking_anchor ≡ anchor_of prior)
          × (is_some (sought rs s).seeking_anchor ≡ true → (sought rs s).resume ≡ prior))
        ⊎ IsFound prior (s.seen_record_pages ++ urls rs ∷ [])
  sought-Seeks rs s (inr (p, a, is_p, is_a, h)) =
      inr (p, a, is_p, is_a, more_pages p a s.seen_record_pages (urls rs ∷ []) h)
  sought-Seeks rs s (inl (same, resumes)) = elim (Option-cases s.seeking_anchor) [
    | inl gone ↦ inl (rw gone (sym gone ∙ same), λ e. rw gone (resumes (ground (arith, e, gone))))
    | inr (a, is_a) ↦ elim (Bool-cases (finds_anchor a s.resume rs)) [
      | inr n ↦ inl (ground (arith, is_a, n, same), λ e. ground (arith, is_a, n, resumes))
      | inl y ↦ elim (Option-cases prior) [
        | inl nothing ↦ absurd (ground (arith, nothing, same, is_a))
        | inr (p, is_p) ↦ inr (
            found_on p a rs s is_p (sym same ∙ is_a)
              (ap (λ o. finds_anchor a o rs) (sym (resumes (ground (arith, is_a)) ∙ is_p)) ∙ y))
      ]
    ]
  ]

  none_sought : (a : String) (o : Option Progress) → finds_anchor a o [] ≡ false
  none_sought a none = refl
  none_sought a (some p) = ground arith

  sought_pages :
      (rs : List Listed) (s : Traversal) → (sought rs s).seen_record_pages ≡ s.seen_record_pages
  sought_pages rs s = ground arith

  -- the page that shows the anchor is remembered
  remembered-Seeks :
      (rs : List Listed) (s : Traversal)
      → config.observed ≡ true
      → Seeks s
      → Seeks (remembered site config rs (sought rs s))
  remembered-Seeks [] s seen (inr h) = inr (
      rw seen (elim (Option-cases s.seeking_anchor) [
        | inl gone ↦ rw gone h
        | inr (a, is_a) ↦ rw (is_a, none_sought a s.resume) h
      ]))
  remembered-Seeks [] s seen (inl (same, resumes)) = elim (Option-cases s.seeking_anchor) [
    | inl gone ↦
        inl (rw (seen, gone) (sym gone ∙ same), λ e. absurd (ground (arith, e, seen, gone)))
    | inr (a, is_a) ↦
        let missing = none_sought a s.resume in
        inl (
          ground (arith, seen, is_a, missing, same),
          λ e. ground (arith, seen, is_a, missing, resumes),
        )
  ]
  remembered-Seeks (r ∷ rs) s seen h = elim (sought-Seeks (r ∷ rs) s h) [
    | inl (same, resumes) ↦ inl (rw seen same, λ e. rw seen (resumes (rw seen at e)))
    | inr found ↦ inr (rw (seen, sought_pages (r ∷ rs) s) found)
  ]

  -- the end of the list, or enough pages of older records
  abbrev pub IsEnd : Traversal → Type 0
  IsEnd s =
      ((s.next_url ≡ none) ⊎ (s.next_url ≡ some "")) ⊎ (config.required_older_pages ≤ s.older_pages)

  -- what a turn comes to: its state still seeks, and it stops with a reason that covers at an end only
  abbrev pub IsFair : Turn → Type 0
  IsFair (go s) = Seeks s
  IsFair (stop reason s) = Seeks s × (is_covered site config reason ≡ true → IsEnd s)
  IsFair (give_up reason s) = Unit

  no_next : (o : Option String) → is_next site config o ≡ false → (o ≡ none) ⊎ (o ≡ some "")
  no_next none h = inl refl
  no_next (some u) h = inr (ap some ((eq_iff u "").0 (ground (arith, h))))

  conclude-IsFair :
      (page html : String) (r : Reading) (s : Traversal)
      → Seeks s
      → IsFair (conclude site config page html r s)
  unfolding conclude
  conclude-IsFair page html r s h = elim (Bool-cases r.is_full) [
    | inl y ↦ rw (y, conclude) (h, λ e. absurd (cc e))
    | inr n ↦
        let older = if r.strictly_older then s.older_pages + 1 else 0 in
        elim (Bool-cases (leb config.required_older_pages older)) [
          | inl y ↦ rw (n, conclude, y) (h, λ e. inr (ground (arith, y)))
          | inr far ↦ elim (Bool-cases (is_next site config s.next_url)) [
            | inl y ↦ rw (n, conclude, far, y) h
            | inr f ↦ rw (n, conclude, far, f) (h, λ e. inl (no_next s.next_url f))
          ]
        ]
  ]

  -- the state after a page's records seeks on
  after_records-Seeks :
      (page : String) (rs : List Listed) (r : Reading) (s : Traversal)
      → Seeks s
      → Seeks (after_records site config page rs r s)
  after_records-Seeks page rs r s (inr found) = inr found
  after_records-Seeks page rs r s (inl (same, resumes)) = inl (same, λ e. rw e (resumes e))

  read_list-IsFair :
      (page html : String) (rs : List Listed) (s : Traversal) (t : Turn)
      → Seeks (remembered site config rs s)
      → read_list site config page html rs s ≡ ok t
      → IsFair t
  unfolding read_list
  read_list-IsFair page html rs s t h e = elim (Option-cases (order_issue site config rs s)) [
    | inr (issue, some_issue) ↦
        let is_t : t ≡ stop issue (remembered site config rs s) = ground (arith, e, some_issue) in
        rw is_t (h, λ y. absurd (cc (order_issue-IsOpen site config rs s issue some_issue, y)))
    | inl fine ↦
        let (r, read, e1) =
          bind-ok (read_records site config rs (starting site config rs s)) _ _
            (rw (fine, read_list) at e) in
        let last = after_records site config page rs r (remembered site config rs s) in
        let is_t : t ≡ conclude site config page html r last = ground (arith, e1) in
        rw is_t (
          conclude-IsFair page html r last
            (after_records-Seeks page rs r (remembered site config rs s) h))
  ]

  following-Seeks :
      (rs : List Listed) (link : Option String) (s : Traversal)
      → Seeks s
      → Seeks (following site config rs link s)
  following-Seeks rs link s h = h

  read_page-IsFair :
      (i : ℕ) (page html : String) (s : Traversal) (t : Turn)
      → config.observed ≡ true
      → Seeks s
      → read_page site config i page html s ≡ ok t
      → IsFair t
  unfolding read_page
  read_page-IsFair i page html s t seen h e =
      let rs = (site.discover html page).0 in
      let link = (site.discover html page).1 in
      elim (Option-cases (issue_of site config i page html rs)) [
        | inr (issue, some_issue) ↦
            let is_t : t ≡ give_up issue (record s { warnings = s.warnings + 1 }) =
              ground (arith, e, some_issue) in
            rw is_t tt
        | inl fine ↦
            let (_, _, e1) =
              bind-ok (raise_if (not (is_filled rs) && (i == 0)) source_structure_mismatch) _ _
                (rw (fine, read_page) at e) in
            read_list-IsFair page html rs (sought rs (following site config rs link s)) t
              (remembered-Seeks rs (following site config rs link s) seen
                (following-Seeks rs link s h))
              e1
      ]

  visit-IsFair :
      (i : ℕ) (url : String) (s : Traversal) (t : Turn)
      → config.observed ≡ true
      → Seeks s
      → visit site config i url s ≡ ok t
      → IsFair t
  unfolding visit
  visit-IsFair i url s t seen h e = elim (Option-cases (site.fetch url)) [
    | inl gone ↦
        let is_t : t ≡ stop "empty_page" (asking site config url s) = ground (arith, e, gone) in
        rw is_t (h, λ y. absurd (cc y))
    | inr (html, got) ↦ elim (Option-cases (site.refusal (site.final_url url) html)) [
      | inr (reason, refused) ↦ absurd (ground (arith, e, got, refused))
      | inl fine ↦
          read_page-IsFair i (site.final_url url) html
            (record (asking site config url s) { pages_fetched = s.pages_fetched + 1 }) t seen h
            (ground (arith, e, got, fine))
    ]
  ]

  stops :
      (reason : String) (s : Traversal) (t : Turn)
      → t ≡ stop reason s
      → Seeks s
      → is_covered site config reason ≡ false
      → IsFair t
  stops reason s t e h open_end = rw e (h, λ y. absurd (cc (open_end, y)))

  turn-IsFair :
      (i : ℕ) (s : Traversal) (t : Turn)
      → config.observed ≡ true
      → Seeks s
      → turn site config i s ≡ ok t
      → IsFair t
  unfolding turn
  turn-IsFair i s t seen h e =
      let url = or_else s.next_url "" in
      elim (Bool-cases (is_some config.retry_records)) [
        | inl y ↦ stops "not_applicable" s t (ground (arith, e, y)) h refl
        | inr again ↦ elim (Bool-cases (is_next site config s.next_url)) [
          | inr f ↦
              let is_t : t ≡ stop "next_link_exhausted" s = ground (arith, e, again, f) in
              rw is_t (h, λ y. inl (no_next s.next_url f))
          | inl there ↦ elim (Bool-cases (is_in url s.seen_pages)) [
            | inl y ↦
                stops "coverage_order_unverified" s t (ground (arith, e, again, there, y, seen)) h
                  refl
            | inr new ↦ elim (Bool-cases (is_allowed site config url)) [
              | inr f ↦
                  stops "cross_host_blocked" s t (ground (arith, e, again, there, new, f)) h refl
              | inl y ↦
                  visit-IsFair i url (record s { seen_pages = s.seen_pages ++ url ∷ [] }) t seen h
                    (ground (arith, e, again, there, new, y))
            ]
          ]
        ]
      ]

  pub traverse-IsFair :
      (left i : ℕ) (s : Traversal) (t : Turn)
      → config.observed ≡ true
      → Seeks s
      → traverse site config left i s ≡ ok t
      → IsFair t
  unfolding traverse
  traverse-IsFair zero i s t seen h e = stops "max_pages" s t (ground (arith, e)) h refl
  traverse-IsFair (suc left) i s t seen h e = elim (Outcome-cases (turn site config i s)) [
    | inr (x, failed) ↦ absurd (ground (arith, e, failed))
    | inl (one, done) ↦
        let fair = turn-IsFair i s one seen h done in
        elim (Bool-cases (goes_on one)) [
          | inl y ↦
              let is_one : one ≡ go (state_of one) = go_state one y in
              traverse-IsFair left (suc i) (state_of one) t seen (rw is_one at fair)
                (ground (arith, e, done, is_one))
          | inr ends ↦ let is_t : t ≡ one = ground (arith, e, done, ends) in rw is_t fair
        ]
  ]

  set_anchor :
      (o : Option String)
      → (if is_next site config o then o else none)
        ≡ elim o [ none ↦ none | some a ↦ if a =ₛ "" then none else some a ]
  set_anchor none = refl
  set_anchor (some a) = ground arith

  pub opened-Seeks : Seeks (opened site config prior)
  opened-Seeks = inl (
    elim (Option-cases prior) [
      | inl nothing ↦ rw nothing refl
      | inr (p, is_p) ↦ rw is_p (set_anchor p.anchor_url)
    ],
    λ e. refl,
  )
