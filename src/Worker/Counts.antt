-- ===== src/Worker/Counts.antt =====
-- What the metrics of a classification add up to.
use extrio.Base.{
  if◌then◌else◌, is_some, Bool-cases, Option-cases, ℕ, suc, ◌+◌, String, ◌≡◌, refl, inl, inr, Bool,
  not, ◌&&◌, List, [], ◌∷◌, arith,
}
use extrio.Worker.Values.{Item, is_empty, revision_values, changes}
use extrio.Worker.Classify.{
  Metrics, is_accepted, latest_of, counted, compared, classify_item, classify_items,
}

abbrev pub count : (Item → Bool) → List Item → ℕ
count p [] = 0
count p (i ∷ is) = if p i then suc (count p is) else count p is

-- the source has an accepted item under the key of this one
abbrev pub is_known : String → List Item → Item → Bool
is_known collector_id previous i = is_some (latest_of collector_id i.entity_key previous)

module _ (quote : String → String) (fingerprint_fields : List String) (collector_id : String)
    (previous : List Item) where
  abbrev with_item : Item → Metrics → Metrics
  with_item i m = counted (classify_item quote fingerprint_fields collector_id previous i) m

  counted_one :
      (i : Item) (m : Metrics)
      → ((with_item i m).new_items ≡ (
          if is_accepted i && not (is_known collector_id previous i)
          then suc m.new_items
          else m.new_items))
        × ((with_item i m).updated_items + (with_item i m).unchanged_items ≡ (
            if is_accepted i && is_known collector_id previous i
            then suc (m.updated_items + m.unchanged_items)
            else m.updated_items + m.unchanged_items))
  unfolding compared
  counted_one i m = elim (Bool-cases (is_accepted i)) [
    | inr n ↦ (ground (arith, n), ground (arith, n))
    | inl y ↦ elim (Option-cases (latest_of collector_id i.entity_key previous)) [
      | inl none_before ↦ (ground (arith, y, none_before), ground (arith, y, none_before))
      | inr (p, found) ↦
          elim (Bool-cases (
            is_empty (
              changes quote (revision_values fingerprint_fields p)
                (revision_values fingerprint_fields i)))) [
                  | inl z ↦ (ground (arith, y, found, z), ground (arith, y, found, z))
                  | inr z ↦ (ground (arith, y, found, z), ground (arith, y, found, z))
                ]
    ]
  ]

  -- Every accepted item is counted once: as new exactly when the source has no accepted item under its
  -- key yet, and as updated or unchanged otherwise; no other item is counted.
  pub classify_items-counts :
      (items : List Item)
      → let metrics = (classify_items quote fingerprint_fields collector_id previous items).1 in
        (metrics.new_items
          ≡ count (λ i. is_accepted i && not (is_known collector_id previous i)) items)
        × (metrics.updated_items + metrics.unchanged_items
            ≡ count (λ i. is_accepted i && is_known collector_id previous i) items)
  unfolding classify_items
  classify_items-counts [] = (refl, refl)
  classify_items-counts (i ∷ is) =
      let (a, b) = classify_items-counts is in
      let (c, d) =
        counted_one i (classify_items quote fingerprint_fields collector_id previous is).1 in
      (ground (arith, a, c), ground (arith, b, d))
