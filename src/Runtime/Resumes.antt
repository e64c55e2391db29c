-- ===== src/Runtime/Resumes.antt =====
-- The progress that a traversal leaves is one that the next traversal takes up.
use extrio.Base.{true, Option, none, ◌≡◌, ◌⊎◌}
use extrio.Recovery.Values.{Progress}
use extrio.Runtime.Records.{Site, Config}
use extrio.Runtime.Traverse.{Found, continued}
use extrio.Runtime.Anchors.{anchor_of, IsFound}
use extrio.Runtime.Seeking.{IsEnd}

module _ (site : Site) (config : Config) where
  -- what the end of a traversal that continues from a progress says of its coverage
  pub record IsCoverage (prior : Option Progress) (f : Found) : Type 0 where
    pub taken_up : continued site config f.coverage_progress ≡ f.coverage_progress
    pub finished :
        f.coverage_complete ≡ true
        → (f.coverage_progress ≡ none)
          × (IsEnd site config prior f.last
              × ((anchor_of prior ≡ none) ⊎ IsFound prior f.last.seen_record_pages))
