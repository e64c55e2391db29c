-- ===== src/Pages.antt =====
-- backend/src/extrio/workspace_pagination.py: numbered pages of a list, and which sources need
-- attention. Sizes are positive, and a division by a size of zero raises.
use extrio.Base.{
  ℕ, zero, suc, ◌+◌, ◌-◌, ◌*◌, ◌/◌, String, Bool, true, false, ◌&&◌, ◌||◌, not, Option, none, some,
  List, [], ◌∷◌, ◌++◌, ltb, ◌==◌, ◌=ₛ◌, if◌then◌else◌, length, take, drop, min, max, is_some,
}
mod Cover
mod Attention
mod Examples

pub record Info : Type 0 where
  pub page : ℕ
  pub page_size : ℕ
  pub total_pages : ℕ
  pub total : ℕ

unfoldable pub pagination : ℕ → ℕ → ℕ → Option Info
pagination total requested limit =
    let pages = max 1 ((total + limit - 1) / limit) in
    if limit == 0
    then none
    else some (record {
      page = min requested pages;
      page_size = limit;
      total_pages = pages;
      total = total;
    })

module _ {ℓ} {A : Type ℓ} where
  -- `values[start:start + limit]`, for pages counted from one
  abbrev pub page_items : Info → List A → List A
  page_items info values = take info.page_size (drop ((info.page - 1) * info.page_size) values)

  -- `numbered`: the items of the page and the numbers beside them
  unfoldable pub numbered : List A → ℕ → ℕ → Option (List A × Info)
  numbered values requested limit = elim (pagination (length values) requested limit) [
    | none ↦ none
    | some info ↦ some (page_items info values, info)
  ]

pub record Collector : Type 0 where
  pub lifecycle : String
  pub status : String
  pub active_operation_id : Option String
  pub pending_collection_version : Option String
  pub active_rule_version : Option String
  pub latest_run_id : Option String

pub record Run : Type 0 where
  pub status : String
  pub rejected_count : ℕ

-- a value that Python takes as true
abbrev pub truthy : Option String → Bool
truthy none = false
truthy (some s) = not (s =ₛ "")

abbrev pub is_one_of : String → List String → Bool
is_one_of s [] = false
is_one_of s (k ∷ ks) = (s =ₛ k) || is_one_of s ks

abbrev pub live_run : Option Run → Bool
live_run none = false
live_run (some r) = is_one_of r.status ("queued" ∷ "running" ∷ "finalizing" ∷ [])

abbrev pub failed_run : Option Run → Bool
failed_run none = false
failed_run (some r) =
    is_one_of r.status ("failed" ∷ "cancelled" ∷ "timed_out" ∷ "partially_succeeded" ∷ [])

abbrev pub rejecting_run : Option Run → Bool
rejecting_run none = false
rejecting_run (some r) = ltb 0 r.rejected_count

unfoldable pub needs_attention : Collector → Option Run → Bool
needs_attention c run =
    if c.lifecycle =ₛ "archived"
    then false
    else if truthy c.active_operation_id || live_run run
    then false
    else failed_run run
      || truthy c.pending_collection_version
      || is_one_of c.status ("draft" ∷ "ready_review" ∷ "exploring" ∷ [])
      || not (truthy c.active_rule_version)
      || not (truthy c.latest_run_id)
      || (truthy c.latest_run_id && not (is_some run))
      || rejecting_run run
