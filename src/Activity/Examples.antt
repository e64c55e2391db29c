-- ===== src/Activity/Examples.antt =====
-- A run that goes through two phases and succeeds.
use extrio.Base.{◌≡◌, refl, inl, none, some, List, [], ◌∷◌, All}
use extrio.Activity.{Entry, succeeded, begin, close, advance_latest, advance_activity}
use extrio.Activity.Phases.{IsHistory, IsOver, advance_activity-Leaves}

abbrev exploring : List Entry
exploring = begin "exploring" (("pages", 1) ∷ []) 100 ∷ []

exploring-IsHistory : IsHistory exploring
exploring-IsHistory = inl (record { under_way = refl; unfinished = refl; no_duration = refl })

compiling :
    advance_activity "compiling" [] 350 none exploring
    ≡ close succeeded [] 350 (begin "exploring" (("pages", 1) ∷ []) 100)
      ∷ begin "compiling" [] 350
      ∷ []
unfolding advance_activity advance_latest
compiling = refl

advance_activity-Leaves_example :
    All IsOver (advance_activity "completed" [] 400 (some succeeded) exploring)
advance_activity-Leaves_example =
    advance_activity-Leaves "completed" [] 400 (some succeeded) exploring exploring-IsHistory
