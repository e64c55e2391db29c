-- ===== src/Pages/Attention.antt =====
-- What a source that needs no attention is.
use extrio.Base.{
  ◌≡◌, ◌↔◌, Bool, true, false, ◌||◌, Option, none, some, [], ◌∷◌, ◌=ₛ◌, refl, subst, arith,
}
use extrio.Pages.{Collector, Run, truthy, is_one_of, live_run, failed_run, needs_attention}

-- A source whose latest run is over and gave nothing to look at.
pub record IsSettled (c : Collector) (run : Run) : Type 0 where
  pub ran_well : failed_run (some run) ≡ false
  pub none_rejected : run.rejected_count ≡ 0
  pub no_migration : truthy c.pending_collection_version ≡ false
  pub reviewed : is_one_of c.status ("draft" ∷ "ready_review" ∷ "exploring" ∷ []) ≡ false
  pub has_rule : truthy c.active_rule_version ≡ true
  pub has_run : truthy c.latest_run_id ≡ true

abbrev pub is_busy : Collector → Option Run → Bool
is_busy c run = truthy c.active_operation_id || live_run run

none_settled :
    (c : Collector)
    → (c.lifecycle =ₛ "archived") ≡ false
    → is_busy c none ≡ false
    → needs_attention c none ≡ true
unfolding needs_attention
none_settled c a b = ground (arith, a, b)

some-IsSettled :
    (c : Collector) (r : Run)
    → (c.lifecycle =ₛ "archived") ≡ false
    → is_busy c (some r) ≡ false
    → (needs_attention c (some r) ≡ false) ↔ IsSettled c r
unfolding needs_attention
some-IsSettled c r a b = (λ h. ground (arith, a, b, h), λ h. ground (arith, a, b, h))

-- A source that is archived or at work needs no attention. Any other needs none exactly when its
-- latest run is at hand, ended well and rejected nothing, and the source has a published rule, no
-- pending migration and no open review.
pub needs_attention_iff :
    (c : Collector) (run : Option Run)
    → (((c.lifecycle =ₛ "archived") || is_busy c run) ≡ true → needs_attention c run ≡ false)
      × (((c.lifecycle =ₛ "archived") || is_busy c run) ≡ false
          → (needs_attention c run ≡ false) ↔ ((r : Run) × (run ≡ some r) × IsSettled c r))
unfolding needs_attention
needs_attention_iff c run =
    (λ h. ground (arith, h), λ h. settled run (ground (arith, h)) (ground (arith, h)))
  where
    settled :
        (o : Option Run)
        → (c.lifecycle =ₛ "archived") ≡ false
        → is_busy c o ≡ false
        → (needs_attention c o ≡ false) ↔ ((r : Run) × (o ≡ some r) × IsSettled c r)
    settled none a b = (λ h. cc (none_settled c a b, h), λ (r, e, _). cc e)
    settled (some r) a b =
        let f = some-IsSettled c r a b in
        (λ h. (r, refl, f.0 h), λ (q, e, s). f.1 (subst (IsSettled c) (ground (arith, e)) s))
