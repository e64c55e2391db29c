-- ===== src/Runtime/Examples.antt =====
-- A traversal of two pages, the first within the window and the second before it.
use extrio.Base.{
  String, true, false, none, some, [], ◌∷◌, ◌≡◌, refl, Outcome, ok, err, ◌==◌, ◌=ₛ◌, if◌then◌else◌,
}
use extrio.Recovery.Values.{Progress, valid_progress}
use extrio.Runtime.Records.{
  Listed, RuntimeError, Site, Config, read_record, read_records, dates_descend,
}
use extrio.Runtime.Traverse.{
  Found, stop, conclude, read_list, read_page, visit, turn, traverse, concluded, opened, run_list,
}
use extrio.Runtime.Limits.{IsWithinLimits, run_list-IsWithinLimits}

abbrev listed : String → String → Listed
listed url date = record { detail_url = url; published = some date }

abbrev site : Site
site = record {
  fetch = λ url. some "<html>";
  final_url = λ url. url;
  refusal = λ url html. none;
  response_issue = λ url html. none;
  discover = λ html url.
      if url =ₛ "page 1"
      then (listed "a" "new" ∷ listed "b" "new" ∷ [], some "page 2")
      else (listed "c" "old" ∷ listed "d" "old" ∷ [], some "page 3");
  is_verified_empty = λ url html. false;
  page_url = λ n. "page";
  is_truncated = λ url html d. false;
  host = λ url. "host";
  as_date = λ text. some (if text =ₛ "new" then 9 else 3);
  iso = λ n. if n == 9 then "new" else "old";
  sorted = λ ss. ss;
}

abbrev config : Config
config = record {
  entrypoint = "page 1";
  allowed_hosts = "host" ∷ [];
  is_page_type = false;
  is_link_type = true;
  stop_when_no_items = true;
  pagination_pages = 5;
  budget_pages = 20;
  policy_pages = 1000;
  budget_items = 9;
  policy_items = 300;
  window_start = some 6;
  window_text = "2026-01-06";
  window_enabled = true;
  observed = true;
  required_older_pages = 1;
  is_incremental = true;
  rule_digest = "rule";
  policy_id = "policy";
  retry_records = none;
}

abbrev found_of : Outcome RuntimeError Found → Found
found_of (ok f) = f
found_of (err e) = concluded site config none (stop "" (opened site config none))

abbrev found : Found
found = found_of (run_list site config none)

runs : run_list site config none ≡ ok found
unfolding run_list traverse turn visit read_page read_list read_records read_record dates_descend
    conclude concluded valid_progress
runs = refl

run_list-IsWithinLimits_example : IsWithinLimits site config found
run_list-IsWithinLimits_example = run_list-IsWithinLimits site config none found refl runs

-- a run was cut on the first page, of which it had taken the first record
abbrev cut : Progress
cut = record {
  rule_digest = "rule";
  policy_version_id = "policy";
  window_start = "2026-01-06";
  resume_url = "page 1";
  page_index = 0;
  anchor_url = some "b";
  processed_urls = "a" ∷ [];
  older_pages_before = 0;
  watermark = none;
  oldest_date_before = none;
  page_complete = false;
  overlap_urls = [];
}

abbrev resumed : Found
resumed = found_of (run_list site config (some cut))

covers : resumed.coverage_complete ≡ true
unfolding run_list traverse turn visit read_page read_list read_records read_record dates_descend
    conclude concluded valid_progress
covers = refl
