-- ===== src/Runtime/Records.antt =====
-- The records of one page: which of them are outside the window, repeated or new.
use extrio.Base.{
  ℕ, ◌+◌, String, Bool, true, false, not, ◌&&◌, Option, none, some, List, [], ◌∷◌, ◌++◌, map, ◌=ₛ◌,
  if◌then◌else◌, any, or_else, is_some, length, ltb, leb, Outcome, ok, err, min,
}

-- a record of a list page, with the text of its date
pub record Listed : Type 0 where
  pub detail_url : String
  pub published : Option String

pub data RuntimeError : Type 0 where
  source_structure_mismatch coverage_detail_host_outside_scope : RuntimeError
  coverage_list_date_or_pagination_missing : RuntimeError
  page_refused : String → RuntimeError

-- The network, `discover_records_from_spec`, the checks of public_pagination.py on a response, and the
-- readers of dates and addresses.
pub record Site : Type 0 where
  pub fetch : String → Option String
  pub final_url : String → String
  pub refusal : String → String → Option String
  pub response_issue : String → String → Option String
  pub discover : String → String → List Listed × Option String
  pub is_verified_empty : String → String → Bool
  pub page_url : ℕ → String
  pub is_truncated : String → String → ℕ → Bool
  pub host : String → String
  pub as_date : String → Option ℕ
  pub iso : ℕ → String
  pub sorted : List String → List String

-- what a run, its policy and its rule say of the traversal
pub record Config : Type 0 where
  pub entrypoint : String
  pub allowed_hosts : List String
  pub is_page_type : Bool
  pub is_link_type : Bool
  pub stop_when_no_items : Bool
  pub pagination_pages : ℕ
  pub budget_pages : ℕ
  pub policy_pages : ℕ
  pub budget_items : ℕ
  pub policy_items : ℕ
  pub window_start : Option ℕ
  pub window_text : String
  pub window_enabled : Bool
  pub observed : Bool
  pub required_older_pages : ℕ
  pub is_incremental : Bool
  pub rule_digest : String
  pub policy_id : String
  pub retry_records : Option (List Listed)

-- min(pagination, budget, policy, 1_000) and min(budget, policy, 100_000)
abbrev pub max_pages : Config → ℕ
max_pages c = min c.pagination_pages (min c.budget_pages (min c.policy_pages 1000))

abbrev pub max_items : Config → ℕ
max_items c = min c.budget_items (min c.policy_items 100000)

abbrev pub is_in : String → List String → Bool
is_in s ss = any (λ t. t =ₛ s) ss

abbrev pub urls : List Listed → List String
urls rs = map (λ r. r.detail_url) rs

-- what the loop over the records changes; `is_full` where it was left at the limit
pub record Reading : Type 0 where
  pub anchor : Option String
  pub strictly_older : Bool
  pub processed : List String
  pub watermark : Option String
  pub details : List Listed
  pub outside : ℕ
  pub duplicates : ℕ
  pub is_full : Bool

-- `set.add`
abbrev pub add : String → List String → List String
add s ss = if is_in s ss then ss else ss ++ s ∷ []

module _ (site : Site) (config : Config) where
  abbrev pub date_of : Listed → Option ℕ
  date_of r = elim r.published [ none ↦ none | some text ↦ site.as_date text ]

  abbrev pub is_allowed : String → Bool
  is_allowed url = is_in (site.host url) config.allowed_hosts

  abbrev pub is_before : Option ℕ → Option ℕ → Bool
  is_before (some a) (some b) = ltb a b
  is_before _ _ = false

  -- the later of the watermark and the date
  abbrev raised : Option ℕ → Option String → Option String
  raised none watermark = watermark
  raised (some d) none = some (site.iso d)
  raised (some d) (some w) = elim (site.as_date w) [
    | none ↦ some w
    | some old ↦ if ltb old d then some (site.iso d) else some w
  ]

  abbrev outside_window : Listed → Reading → Reading
  outside_window r s = record s {
    anchor = some r.detail_url;
    processed = add r.detail_url s.processed;
    outside = s.outside + 1;
  }

  -- the record is taken, or counted as a repetition
  abbrev pub taken : Listed → Reading → Reading
  taken r s = record s {
    anchor = some r.detail_url;
    processed = add r.detail_url s.processed;
    details = if is_in r.detail_url (urls s.details) then s.details else s.details ++ r ∷ [];
    duplicates = if is_in r.detail_url (urls s.details) then s.duplicates + 1 else s.duplicates;
  }

  -- within the window, or of an unknown date
  abbrev pub seen_record : Listed → Reading → Reading
  seen_record r s = record s {
    anchor = some r.detail_url;
    strictly_older = false;
    watermark = raised (date_of r) s.watermark;
  }

  abbrev pub filled : Reading → Reading
  filled s = if leb (max_items config) (length s.details) then record s { is_full = true } else s

  -- the loop's body, behind the window
  abbrev pub take_record : Listed → Reading → Outcome RuntimeError Reading
  take_record r s =
      if config.observed && is_in r.detail_url s.processed
      then ok (record s { duplicates = s.duplicates + 1 })
      else if is_allowed r.detail_url
      then ok (filled (taken r s))
      else if config.observed
      then err coverage_detail_host_outside_scope
      else ok (filled s)

  unfoldable pub read_record : Listed → Reading → Outcome RuntimeError Reading
  read_record r s =
      if config.window_enabled && is_before (date_of r) config.window_start
      then ok (outside_window r s)
      else take_record r (seen_record r s)

  -- the loop, which is left at the limit
  unfoldable pub read_records : List Listed → Reading → Outcome RuntimeError Reading
  read_records [] s = ok s
  read_records (r ∷ rs) s = elim (read_record r s) as (λ _. Outcome RuntimeError Reading) [
    | err e ↦ err e
    | ok next ↦ elim next.is_full as (λ _. Outcome RuntimeError Reading) [
      | true ↦ ok next
      | false ↦ read_records rs next
    ]
  ]

  -- `dates_descend` of coverage.py, on the dates that are there
  abbrev pub order_from : ℕ → List Listed → Option String
  order_from d [] = none
  order_from d (r ∷ rs) = elim (date_of r) as (λ _. Option String) [
    | none ↦ some "coverage_date_unknown"
    | some e ↦ if ltb d e then some "coverage_order_unverified" else order_from e rs
  ]

  abbrev pub has_unknown : List Listed → Bool
  has_unknown rs = any (λ r. not (is_some (date_of r))) rs

  unfoldable pub dates_descend : List Listed → Option String
  dates_descend [] = none
  dates_descend (r ∷ rs) =
      if has_unknown (r ∷ rs)
      then some "coverage_date_unknown"
      else order_from (or_else (date_of r) 0) rs
