-- ===== src/Runtime/Limits.antt =====
-- The limits of a whole traversal.
use extrio.Base.{
  Bool-cases, Option-cases, Outcome-cases, bind-ok, length-append, ℕ, zero, suc, ◌+◌, ◌≤◌, String,
  true, false, not, ◌&&◌, Option, none, List, [], ◌∷◌, ◌++◌, ◌≡◌, refl, sym, ap, ◌∙◌, inl, inr,
  arith, if◌then◌else◌, or_else, is_some, length, length-take, take, ok, raise_if,
}
use extrio.Recovery.Values.{Progress}
use extrio.Runtime.Records.{
  max_pages, max_items, Listed, coverage_list_date_or_pagination_missing, Site, Config, is_in, urls,
  is_allowed,
}
use extrio.Runtime.Traverse.{
  Traversal, Turn, go, stop, give_up, is_next, asking, visit, turn, traverse, Found, concluded,
  opened, continued, is_observable, run_list,
}
use extrio.Runtime.Bounded.{
  Continues, goes_on, go_state, AreWithin, append-AreWithin, take-AreWithin, IsKept, state_of,
  read_page-IsKept,
}

module _ (site : Site) (config : Config) where
  -- after so many turns: as many pages at most, different ones on allowed hosts, and such records
  pub record IsSafe (n : ℕ) (s : Traversal) : Type 0 where
    pub few : length s.seen_pages ≤ n
    pub same : s.asked ≡ s.seen_pages
    pub pages : AreWithin site config s.seen_pages
    pub records : AreWithin site config (urls s.details)
    pub continues : Continues site config s.progress

  more_turns : (n m : ℕ) (s : Traversal) → n ≤ m → IsSafe n s → IsSafe m s
  more_turns n m s le h = record {
    few = omega (arith, le, h.few);
    same = h.same;
    pages = h.pages;
    records = h.records;
    continues = h.continues;
  }

  visit-IsKept :
      (i : ℕ) (url : String) (s : Traversal) (t : Turn)
      → visit site config i url s ≡ ok t
      → IsKept site config (asking site config url s) (state_of t)
  unfolding visit
  visit-IsKept i url s t e = elim (Option-cases (site.fetch url)) [
    | inl gone ↦
        let is_t : t ≡ stop "empty_page" (asking site config url s) = ground (arith, e, gone) in
        rw is_t record { same_pages = refl; same_asked = refl; within = λ h. h; continues = λ h. h }
    | inr (html, got) ↦ elim (Option-cases (site.refusal (site.final_url url) html)) [
      | inr (reason, refused) ↦ absurd (ground (arith, e, got, refused))
      | inl fine ↦
          let counted : Traversal = record (asking site config url s) {
            pages_fetched = s.pages_fetched + 1;
          } in
          let kept =
            read_page-IsKept site config i (site.final_url url) html counted t
              (ground (arith, e, got, fine)) in
          record {
            same_pages = kept.same_pages;
            same_asked = kept.same_asked;
            within = kept.within;
            continues = kept.continues;
          }
    ]
  ]

  visited-IsSafe :
      (i n : ℕ) (url : String) (s : Traversal) (t : Turn)
      → is_in url s.seen_pages ≡ false
      → is_allowed site config url ≡ true
      → visit site config i url (record s { seen_pages = s.seen_pages ++ url ∷ [] }) ≡ ok t
      → IsSafe n s
      → IsSafe (n + 1) (state_of t)
  visited-IsSafe i n url s t new y e h =
      let kept = visit-IsKept i url (record s { seen_pages = s.seen_pages ++ url ∷ [] }) t e in
      record {
        same = kept.same_asked ∙ (ap (λ us. us ++ url ∷ []) h.same ∙ sym kept.same_pages);
        few = rw (kept.same_pages, length-append s.seen_pages (url ∷ [])) (omega (arith, h.few));
        pages = rw kept.same_pages (append-AreWithin site config s.seen_pages url h.pages new y);
        records = kept.within h.records;
        continues = kept.continues h.continues;
      }

  stays :
      (s : Traversal) (reason : String) (n : ℕ) (t : Turn)
      → t ≡ stop reason s
      → IsSafe n s
      → IsSafe (n + 1) (state_of t)
  stays s reason n t e h = rw e (more_turns n (n + 1) s (omega arith) h)

  turn-IsSafe :
      (i n : ℕ) (s : Traversal) (t : Turn)
      → turn site config i s ≡ ok t
      → IsSafe n s
      → IsSafe (n + 1) (state_of t)
  unfolding turn
  turn-IsSafe i n s t e h =
      let url = or_else s.next_url "" in
      elim (Bool-cases (is_some config.retry_records)) [
        | inl y ↦ stays s "not_applicable" n t (ground (arith, e, y)) h
        | inr again ↦ elim (Bool-cases (is_next site config s.next_url)) [
          | inr f ↦ stays s "next_link_exhausted" n t (ground (arith, e, again, f)) h
          | inl there ↦ elim (Bool-cases (is_in url s.seen_pages)) [
            | inl y ↦
                stays s
                  (if config.observed then "coverage_order_unverified" else "next_link_exhausted") n
                  t (ground (arith, e, again, there, y)) h
            | inr new ↦ elim (Bool-cases (is_allowed site config url)) [
              | inr f ↦ stays s "cross_host_blocked" n t (ground (arith, e, again, there, new, f)) h
              | inl y ↦ visited-IsSafe i n url s t new y (ground (arith, e, again, there, new, y)) h
            ]
          ]
        ]
      ]

  traverse-IsSafe :
      (left i n : ℕ) (s : Traversal) (t : Turn)
      → traverse site config left i s ≡ ok t
      → IsSafe n s
      → IsSafe (n + left) (state_of t)
  unfolding traverse
  traverse-IsSafe zero i n s t e h =
      let is_t : t ≡ stop "max_pages" s = ground (arith, e) in
      rw is_t (more_turns n (n + 0) s (omega arith) h)
  traverse-IsSafe (suc left) i n s t e h = elim (Outcome-cases (turn site config i s)) [
    | inr (x, failed) ↦ absurd (ground (arith, e, failed))
    | inl (one, done) ↦
        let safe = turn-IsSafe i n s one done h in
        elim (Bool-cases (goes_on one)) [
          | inl y ↦
              let more : traverse site config left (suc i) (state_of one) ≡ ok t =
                ground (arith, e, done, go_state one y) in
              more_turns (n + 1 + left) (n + suc left) (state_of t) (omega arith)
                (traverse-IsSafe left (suc i) (n + 1) (state_of one) t more safe)
          | inr ends ↦
              let is_t : t ≡ one = ground (arith, e, done, ends) in
              rw is_t (more_turns (n + 1) (n + suc left) (state_of one) (omega arith) safe)
        ]
  ]

  -- what a finished traversal returns is within its limits
  pub record IsWithinLimits (f : Found) : Type 0 where
    pub few_pages : length f.last.asked ≤ (max_pages config)
    pub pages : AreWithin site config f.last.asked
    pub few_records : length f.detail_records ≤ (max_items config)
    pub records : AreWithin site config (urls f.detail_records)

  opened-IsSafe :
      (prior : Option Progress) → config.retry_records ≡ none → IsSafe 0 (opened site config prior)
  opened-IsSafe prior e = rw e record {
    few = omega arith;
    same = refl;
    pages = record { apart = tt; allowed = tt };
    records = record { apart = tt; allowed = tt };
    continues = λ p f. absurd (cc f);
  }

  few_taken : (n : ℕ) (rs : List Listed) → length (take n rs) ≤ n
  few_taken n rs = omega (arith, length-take n rs)

  concluded-IsWithinLimits :
      (prior : Option Progress) (t : Turn)
      → IsSafe (max_pages config) (state_of t)
      → IsWithinLimits (concluded site config prior t)
  unfolding concluded
  concluded-IsWithinLimits prior (go s) h = record {
    few_pages = rw h.same h.few;
    pages = rw h.same h.pages;
    few_records = few_taken (max_items config) s.details;
    records = take-AreWithin site config (max_items config) s.details h.records;
  }
  concluded-IsWithinLimits prior (stop reason s) h = record {
    few_pages = rw h.same h.few;
    pages = rw h.same h.pages;
    few_records = few_taken (max_items config) s.details;
    records = take-AreWithin site config (max_items config) s.details h.records;
  }
  concluded-IsWithinLimits prior (give_up reason s) h = record {
    few_pages = rw h.same h.few;
    pages = rw h.same h.pages;
    few_records = omega arith;
    records = record { apart = tt; allowed = tt };
  }

  -- a run is a traversal from its progress, and its conclusion
  pub run_list-IsSafe :
      (prior : Option Progress) (f : Found)
      → config.retry_records ≡ none
      → run_list site config prior ≡ ok f
      → (t : Turn) × (f ≡ concluded site config (continued site config prior) t)
        × IsSafe (max_pages config) (state_of t)
        × (traverse site config
              (max_pages config)
              0
              (opened site config (continued site config prior))
            ≡ ok t)
  unfolding run_list
  run_list-IsSafe prior f fresh e =
      let (_, _, e1) =
        bind-ok
          (raise_if (config.observed && not (is_observable site config))
            coverage_list_date_or_pagination_missing)
          _ _ e in
      let p = continued site config prior in
      let (t, done, e2) =
        bind-ok (traverse site config (max_pages config) 0 (opened site config p)) _ _ e1 in
      let safe =
        traverse-IsSafe (max_pages config) 0 0 (opened site config p) t done
          (opened-IsSafe p fresh) in
      (
        t,
        ground (arith, e2),
        more_turns (0 + (max_pages config)) (max_pages config) (state_of t) (omega arith) safe,
        done,
      )

  -- A traversal that is not the retry of given records asks for at most `max_pages` list pages, no
  -- page twice and each on a host that the rule allows, and returns at most `max_items` records, no two
  -- with the same address and each on an allowed host, whatever the site answers.
  pub run_list-IsWithinLimits :
      (prior : Option Progress) (f : Found)
      → config.retry_records ≡ none
      → run_list site config prior ≡ ok f
      → IsWithinLimits f
  run_list-IsWithinLimits prior f fresh e =
      let (t, is_f, safe, done) = run_list-IsSafe prior f fresh e in
      rw is_f (concluded-IsWithinLimits (continued site config prior) t safe)
