-- ===== src/Runtime/Traverse.antt =====
-- The loop over the list pages: what stops it, and the progress from which another run continues.
use extrio.Base.{
  ℕ, zero, suc, ◌+◌, ◌-◌, String, Bool, true, false, not, ◌&&◌, ◌||◌, Option, none, some, List, [],
  ◌∷◌, ◌++◌, ◌=ₛ◌, ◌==◌, if◌then◌else◌, any, or_else, is_some, length, take, drop, ltb, leb,
  Outcome, ok, err, raise_if, ◌>>=◌, ◌>>◌,
}
use extrio.Recovery.Values.{Progress, valid_progress}
use extrio.Runtime.Records.{
  max_pages, max_items, Listed, RuntimeError, source_structure_mismatch,
  coverage_list_date_or_pagination_missing, page_refused, Site, Config, urls, is_in, Reading,
  read_records, dates_descend, is_allowed, date_of,
}

pub record Traversal : Type 0 where
  pub next_url : Option String
  pub details : List Listed
  pub seen_pages : List String
  pub asked : List String  -- the pages that were asked of the network, in order
  pub seen_record_pages : List (List String)
  pub watermark : Option String
  pub older_pages : ℕ
  pub logical_page : ℕ
  pub resume : Option Progress
  pub oldest_before : Option String
  pub seeking_anchor : Option String
  pub progress : Option Progress
  pub pages_fetched : ℕ
  pub outside : ℕ
  pub duplicates : ℕ
  pub warnings : ℕ

-- what a turn of the loop ends with: the next turn, a `break`, or the return of an empty result
pub data Turn : Type 0 where
  go : Traversal → Turn
  stop : String → Traversal → Turn
  give_up : String → Traversal → Turn

abbrev pub is_filled {ℓ} : {A : Type ℓ} → List A → Bool
is_filled [] = false
is_filled (x ∷ xs) = true

abbrev same_urls : List String → List String → Bool
same_urls [] [] = true
same_urls (u ∷ us) (v ∷ vs) = (u =ₛ v) && same_urls us vs
same_urls _ _ = false

-- how many different ones of the first are in the second
abbrev pub common : List String → List String → ℕ
common [] vs = 0
common (u ∷ us) vs =
    let rest = common us vs in if is_in u vs && not (is_in u us) then suc rest else rest

abbrev last_of : List Listed → Option Listed
last_of [] = none
last_of (r ∷ []) = some r
last_of (r ∷ s ∷ rs) = last_of (s ∷ rs)

-- the anchor is on the page, or the end of the page before is
abbrev pub finds_anchor : String → Option Progress → List Listed → Bool
finds_anchor anchor resume rs = is_in anchor (urls rs) || elim resume [
  | none ↦ false
  | some p ↦ p.page_complete && leb 2 (common (urls rs) p.overlap_urls)
]

abbrev pub sought : List Listed → Traversal → Traversal
sought rs s = elim s.seeking_anchor [
  | none ↦ s
  | some anchor ↦
      if finds_anchor anchor s.resume rs
      then record s { seeking_anchor = none }
      else record s { older_pages = 0; warnings = s.warnings + 1 }
]

-- what the list part of `_run` returns
pub record Found : Type 0 where
  pub stop_reason : String
  pub detail_records : List Listed
  pub coverage_progress : Option Progress
  pub coverage_complete : Bool
  pub last : Traversal

module _ (site : Site) (config : Config) where
  abbrev first_date : List Listed → Option ℕ
  first_date [] = none
  first_date (r ∷ rs) = date_of site config r

  abbrev last_date : List Listed → Option String
  last_date rs = elim (last_of rs) [
    | none ↦ none
    | some r ↦ elim (date_of site config r) [ none ↦ none | some d ↦ some (site.iso d) ]
  ]

  -- the page begins after the end of the page before it
  abbrev climbs : Traversal → List Listed → Bool
  climbs s rs = elim s.oldest_before [
    | none ↦ false
    | some text ↦ elim (site.as_date text) [
      | none ↦ false
      | some before ↦ elim (first_date rs) [ none ↦ false | some d ↦ ltb before d ]
    ]
  ]

  -- the reason not to trust the order of the page
  abbrev pub order_issue : List Listed → Traversal → Option String
  order_issue rs s =
      if config.observed && is_filled rs
      then (if any (same_urls (urls rs)) s.seen_record_pages
          then some "coverage_order_unverified"
          else elim (dates_descend site config rs) [
            | some issue ↦ some issue
            | none ↦ if climbs s rs then some "coverage_order_unverified" else none
          ])
      else none

  abbrev pub remembered : List Listed → Traversal → Traversal
  remembered rs s =
      if config.observed && is_filled rs
      then record s { seen_record_pages = s.seen_record_pages ++ urls rs ∷ [] }
      else s

  abbrev pub starting : List Listed → Traversal → Reading
  starting rs s = record {
    anchor = elim s.resume [ none ↦ none | some p ↦ p.anchor_url ];
    strictly_older = is_filled rs && config.window_enabled;
    processed = elim s.resume [ none ↦ [] | some p ↦ p.processed_urls ];
    watermark = s.watermark;
    details = s.details;
    outside = s.outside;
    duplicates = s.duplicates;
    is_full = false;
  }

  -- `progress_record` of coverage.py
  abbrev pub progress_record : String → List Listed → Reading → Traversal → Progress
  progress_record page rs r s = record {
    rule_digest = config.rule_digest;
    policy_version_id = config.policy_id;
    window_start = config.window_text;
    resume_url = page;
    page_index = s.logical_page;
    anchor_url = r.anchor;
    processed_urls = site.sorted r.processed;
    older_pages_before = s.older_pages;
    watermark = r.watermark;
    oldest_date_before = s.oldest_before;
    page_complete = not r.is_full;
    overlap_urls = urls (drop (length rs - 3) rs);
  }

  -- the state after the records of a page
  abbrev pub after_records : String → List Listed → Reading → Traversal → Traversal
  after_records page rs r s = record s {
    details = r.details;
    watermark = r.watermark;
    outside = r.outside;
    duplicates = r.duplicates;
    progress = if config.observed then some (progress_record page rs r s) else s.progress;
    resume = if is_some s.seeking_anchor then s.resume else none;
    oldest_before = if config.observed then last_date rs else none;
    logical_page = s.logical_page + 1;
  }

  abbrev pub is_next : Option String → Bool
  is_next none = false
  is_next (some url) = not (url =ₛ "")

  abbrev is_cut : String → String → Traversal → Bool
  is_cut page html s = elim s.oldest_before [
    | none ↦ false
    | some text ↦ elim (site.as_date text) [
      | none ↦ false
      | some d ↦ config.observed && site.is_truncated page html d
    ]
  ]

  -- the end of the loop's body
  unfoldable pub conclude : String → String → Reading → Traversal → Turn
  conclude page html r s =
      let older = if r.strictly_older then s.older_pages + 1 else 0 in
      let counted : Traversal = record s { older_pages = older } in
      if r.is_full
      then stop "max_items" s
      else if leb config.required_older_pages older
      then stop (if config.is_incremental then "checkpoint_reached" else "time_window_reached")
          counted
      else if is_next s.next_url
      then go counted
      else stop (if is_cut page html s then "source_window_truncated" else "next_link_exhausted")
          counted

  unfoldable pub read_list : String → String → List Listed → Traversal → Outcome RuntimeError Turn
  read_list page html rs s = elim (order_issue rs s) as (λ _. Outcome RuntimeError Turn) [
    | some issue ↦ ok (stop issue (remembered rs s))
    | none ↦ read_records site config rs (starting rs s) >>= λ r.
        ok (conclude page html r (after_records page rs r (remembered rs s)))
  ]

  -- the page after this one
  abbrev pub following : List Listed → Option String → Traversal → Traversal
  following rs link s = record s {
    next_url =
        if config.is_page_type
        then (if not (is_filled rs) && config.stop_when_no_items
            then none
            else some (site.page_url (s.logical_page + 1)))
        else link;
  }

  -- what is wrong with a response, before its records are read
  abbrev pub issue_of : ℕ → String → String → List Listed → Option String
  issue_of i page html rs = elim (site.response_issue page html) [
    | some issue ↦ some issue
    | none ↦
        if not (is_filled rs)
          && config.observed
          && ((i == 0) || not (site.is_verified_empty page html))
        then some "source_structure_mismatch"
        else none
  ]

  unfoldable pub read_page : ℕ → String → String → Traversal → Outcome RuntimeError Turn
  read_page i page html s =
      let (rs, link) = site.discover html page in
      elim (issue_of i page html rs) as (λ _. Outcome RuntimeError Turn) [
        | some issue ↦ ok (give_up issue (record s { warnings = s.warnings + 1 }))
        | none ↦
            raise_if (not (is_filled rs) && (i == 0)) source_structure_mismatch
            >> read_list page html rs (sought rs (following rs link s))
      ]

  -- the state once a page has been asked for
  abbrev pub asking : String → Traversal → Traversal
  asking url s = record s { asked = s.asked ++ url ∷ [] }

  unfoldable pub visit : ℕ → String → Traversal → Outcome RuntimeError Turn
  visit i url s = elim (site.fetch url) as (λ _. Outcome RuntimeError Turn) [
    | none ↦ ok (stop "empty_page" (asking url s))
    | some html ↦
        elim (site.refusal (site.final_url url) html) as (λ _. Outcome RuntimeError Turn) [
          | some reason ↦ err (page_refused reason)
          | none ↦
              read_page i (site.final_url url) html
                (record (asking url s) { pages_fetched = s.pages_fetched + 1 })
        ]
  ]

  -- one turn of the loop
  unfoldable pub turn : ℕ → Traversal → Outcome RuntimeError Turn
  turn i s =
      if is_some config.retry_records
      then ok (stop "not_applicable" s)
      else if not (is_next s.next_url)
      then ok (stop "next_link_exhausted" s)
      else if is_in (or_else s.next_url "") s.seen_pages
      then ok
          (stop (if config.observed then "coverage_order_unverified" else "next_link_exhausted") s)
      else if not (is_allowed site config (or_else s.next_url ""))
      then ok (stop "cross_host_blocked" s)
      else visit i (or_else s.next_url "")
          (record s { seen_pages = s.seen_pages ++ or_else s.next_url "" ∷ [] })

  -- `for page_index in range(max_pages)`, with the pages that are left
  unfoldable pub traverse : ℕ → ℕ → Traversal → Outcome RuntimeError Turn
  traverse zero i s = ok (stop "max_pages" s)
  traverse (suc n) i s = elim (turn i s) as (λ _. Outcome RuntimeError Turn) [
    | err e ↦ err e
    | ok t ↦ elim t as (λ _. Outcome RuntimeError Turn) [
      | go next ↦ traverse n (suc i) next
      | stop reason last ↦ ok (stop reason last)
      | give_up reason last ↦ ok (give_up reason last)
    ]
  ]

  abbrev pub is_covered : String → Bool
  is_covered reason =
      (reason =ₛ "next_link_exhausted")
      || (reason =ₛ "time_window_reached")
      || (reason =ₛ "checkpoint_reached")

  abbrev is_limit : String → Bool
  is_limit reason = (reason =ₛ "max_items") || (reason =ₛ "max_pages")

  -- the end of the traversal: an anchor that was not found again leaves the order unverified
  abbrev pub concluded_at : String → Traversal → Found
  concluded_at reason s =
      let final =
        if config.observed && is_some s.seeking_anchor
        then "coverage_order_unverified"
        else reason in
      let complete = config.observed && is_covered final in
      record {
        stop_reason = final;
        detail_records = take (max_items config) s.details;
        coverage_progress =
            if config.observed && (complete || not (is_limit final)) then none else s.progress;
        coverage_complete = complete;
        last = s;
      }

  unfoldable pub concluded : Option Progress → Turn → Found
  concluded prior (go s) = concluded_at "max_pages" s
  concluded prior (stop reason s) = concluded_at reason s
  concluded prior (give_up reason s) = record {
    stop_reason = reason;
    detail_records = [];
    coverage_progress = prior;
    coverage_complete = false;
    last = s;
  }

  -- the record at its place, or the new one at the end, as a dictionary is written
  abbrev put : Listed → List Listed → List Listed
  put r [] = r ∷ []
  put r (s ∷ rs) = if s.detail_url =ₛ r.detail_url then r ∷ rs else s ∷ put r rs

  abbrev put_all : List Listed → List Listed → List Listed
  put_all done [] = done
  put_all done (r ∷ rs) = put_all (put r done) rs

  -- {record['detailUrl']: record for record in ...}
  abbrev pub by_url : List Listed → List Listed
  by_url rs = put_all [] rs

  -- the state before the first page
  abbrev pub opened : Option Progress → Traversal
  opened prior = record {
    next_url =
        if is_some config.retry_records
        then none
        else elim prior [ none ↦ some config.entrypoint | some p ↦ some p.resume_url ];
    details = elim config.retry_records [
      | none ↦ []
      | some rs ↦ by_url (take (max_items config) rs)
    ];
    seen_pages = [];
    asked = [];
    seen_record_pages = [];
    watermark = elim prior [ none ↦ none | some p ↦ p.watermark ];
    older_pages = elim prior [ none ↦ 0 | some p ↦ p.older_pages_before ];
    logical_page = elim prior [ none ↦ 0 | some p ↦ p.page_index ];
    resume = prior;
    oldest_before = none;
    seeking_anchor = elim prior [
      | none ↦ none
      | some p ↦ if is_next p.anchor_url then p.anchor_url else none
    ];
    progress = none;
    pages_fetched = 0;
    outside = 0;
    duplicates = 0;
    warnings = 0;
  }

  -- the progress to continue from, where it is of this rule and this policy
  abbrev pub continued : Option Progress → Option Progress
  continued prior =
      if config.observed && valid_progress prior config.rule_digest config.policy_id
      then prior
      else none

  abbrev pub is_observable : Bool
  is_observable = config.window_enabled && (config.is_link_type || config.is_page_type)

  -- the list part of `_run`
  unfoldable pub run_list : Option Progress → Outcome RuntimeError Found
  run_list prior = do
    raise_if (config.observed && not is_observable) coverage_list_date_or_pagination_missing
    t ← traverse (max_pages config) 0 (opened (continued prior))
    ok (concluded (continued prior) t)
