-- ===== src/Audit/Chain.antt =====
-- The chain of a tenant's events: appending keeps it valid, and its last hash vouches for all of it.
use Prim.Native.String.{◌++◌ as ◌++ₛ◌}
use text.Mathlib.TextPositions.{eq_refl}
use mathlib.Core.List.{append-nil}
use text.Mathlib.TextLemmas.{append_cancel_left}
use extrio.Audit.{
  Event, Row, Audit, same_text, of_tenant, last_id, last_hash, event_hash, new_row,
  append_audit_event, verify_from, verify_audit_chain,
}
use extrio.Base.{
  ℕ, String, ◌≡◌, ◌≢◌, refl, sym, ◌∙◌, subst, ◌⊎◌, inl, inr, true, false, Bool-cases, Option, none,
  some, List, [], ◌∷◌, ◌++◌, ◌=ₛ◌, eq_iff, arith, length,
}
use extrio.Base.Same.{String_discrete}

same_text_refl : (o : Option String) → same_text o o ≡ true
same_text_refl none = refl
same_text_refl (some t) = (eq_iff t t).1 refl

of_tenant-append :
    (tenant : String) (xs ys : List Row)
    → of_tenant tenant (xs ++ ys) ≡ of_tenant tenant xs ++ of_tenant tenant ys
unfolding of_tenant
of_tenant-append tenant [] ys = refl
of_tenant-append tenant (r ∷ xs) ys = ground (arith, of_tenant-append tenant xs ys)

module _ (sha256 : String → String) (json : Event → Option String → String) where
  -- what a row that passes says
  record Passes (r : Row) (rs : List Row) (id hash : Option String) : Type 0 where
    hash_eq : r.event_hash ≡ event_hash sha256 json r.event hash
    others : verify_from sha256 json (some r.id) (some r.event_hash) rs ≡ true

  passes :
      (r : Row) (rs : List Row) (id hash : Option String)
      → verify_from sha256 json id hash (r ∷ rs) ≡ true
      → Passes r rs id hash
  unfolding verify_from
  passes r rs id hash v =
      let same : r.event_hash ≡ event_hash sha256 json r.event hash =
        ground (arith, v, eq_iff r.event_hash (event_hash sha256 json r.event hash)) in
      record { hash_eq = same; others = ground (arith, v, same) }

  verify_from-append :
      (id hash : Option String) (xs ys : List Row)
      → verify_from sha256 json id hash xs ≡ true
      → verify_from sha256 json (last_id id xs) (last_hash hash xs) ys ≡ true
      → verify_from sha256 json id hash (xs ++ ys) ≡ true
  unfolding verify_from last_id last_hash
  verify_from-append id hash [] ys v w = w
  verify_from-append id hash (r ∷ xs) ys v w =
      let p = passes r xs id hash v in
      let rest = verify_from-append (some r.id) (some r.event_hash) xs ys p.others w in
      ground (arith, v, p.hash_eq, rest)

  module _ (fresh_id tenant target_type target_id : String) (audit : Audit)
      (before after : Option String) (now : ℕ) (rows : List Row) where
    abbrev new : Row
    new = new_row sha256 json fresh_id tenant target_type target_id audit before after now rows

    new_passes :
        verify_from sha256 json
          (last_id none (of_tenant tenant rows))
          (last_hash none (of_tenant tenant rows))
          (new ∷ [])
        ≡ true
    unfolding verify_from
    new_passes = simp (eq_refl, same_text_refl)

    of_its_tenant : of_tenant tenant (new ∷ []) ≡ new ∷ []
    unfolding of_tenant
    of_its_tenant = simp eq_refl

    of_another : (other : String) → (tenant =ₛ other) ≡ false → of_tenant other (new ∷ []) ≡ []
    unfolding of_tenant
    of_another other n = simp n

    own_chain :
        verify_audit_chain sha256 json tenant rows ≡ true
        → verify_from sha256 json none none (of_tenant tenant (rows ++ new ∷ [])) ≡ true
    unfolding verify_audit_chain
    own_chain v =
        rw (of_tenant-append tenant rows (new ∷ []), of_its_tenant)
          (verify_from-append none none (of_tenant tenant rows) (new ∷ []) v new_passes)

    -- Appending an event keeps the chain of every tenant valid, of the one it is for and of any other.
    pub append-verifies :
        (other : String)
        → verify_audit_chain sha256 json other rows ≡ true
        → verify_audit_chain sha256 json other (
            append_audit_event sha256 json fresh_id tenant target_type target_id audit before after
              now rows)
          ≡ true
    unfolding verify_audit_chain append_audit_event
    append-verifies other v = elim (Bool-cases (tenant =ₛ other)) [
      | inl e ↦
          subst
            (λ t.
              verify_audit_chain sha256 json t rows ≡ true
              → verify_audit_chain sha256 json t (rows ++ new ∷ []) ≡ true)
            ((eq_iff tenant other).0 e) own_chain v
      | inr n ↦
          rw
            (
              of_tenant-append other rows (new ∷ []),
              of_another other n,
              append-nil (of_tenant other rows),
            )
            v
    ]

  -- the texts that the chain's hashes are of
  abbrev pub texts : Option String → List Row → List String
  texts hash [] = []
  texts hash (r ∷ rs) = json r.event hash ∷ texts (some r.event_hash) rs

  -- two texts that are different and have the same digest
  abbrev pub Collision : Type 0
  Collision = (a : String) × (b : String) × (a ≢ b) × (sha256 a ≡ sha256 b)

  same_text_or_collision :
      (a b : String) → ("sha256:" ++ₛ sha256 a) ≡ ("sha256:" ++ₛ sha256 b) → (a ≡ b) ⊎ Collision
  same_text_or_collision a b e = elim (String_discrete a b) [
    | yes p ↦ inl p
    | no n ↦ inr (a, b, n, append_cancel_left "sha256:" (sha256 a) (sha256 b) e)
  ]

  module _
      (tells_previous : (event event' : Event) (hash hash' : Option String)
        → json event hash ≡ json event' hash'
        → hash ≡ hash') where
    same_tip :
        (id hash id' hash' : Option String) (xs ys : List Row)
        → verify_from sha256 json id hash xs ≡ true
        → verify_from sha256 json id' hash' ys ≡ true
        → length xs ≡ length ys
        → last_hash hash xs ≡ last_hash hash' ys
        → ((texts hash xs ≡ texts hash' ys) × (hash ≡ hash')) ⊎ Collision
    unfolding last_hash
    same_tip id hash id' hash' [] [] v w l t = inl (refl, t)
    same_tip id hash id' hash' [] (y ∷ ys) v w l t = absurd (omega (arith, l))
    same_tip id hash id' hash' (x ∷ xs) [] v w l t = absurd (omega (arith, l))
    same_tip id hash id' hash' (x ∷ xs) (y ∷ ys) v w l t =
        let p = passes x xs id hash v in
        let q = passes y ys id' hash' w in
        elim (same_tip (some x.id) (some x.event_hash) (some y.id) (some y.event_hash) xs ys
          p.others q.others (omega (arith, l)) t) [
            | inr c ↦ inr c
            | inl (rest, tip) ↦
                elim (same_text_or_collision (json x.event hash) (json y.event hash')
                  (sym p.hash_eq ∙ ground (arith, tip) ∙ q.hash_eq)) [
                    | inr c ↦ inr c
                    | inl same ↦
                        inl (cc (same, rest), tells_previous x.event y.event hash hash' same)
                  ]
          ]

    -- If two tables both pass the check for a tenant, hold as many events of it, and end in the same
    -- hash, then every event of it has the same text in both, or two texts have the same digest; the
    -- text of an event is taken to tell the hash that it was written with.
    pub tip_vouches :
        (tenant : String) (rows rows' : List Row)
        → verify_audit_chain sha256 json tenant rows ≡ true
        → verify_audit_chain sha256 json tenant rows' ≡ true
        → length (of_tenant tenant rows) ≡ length (of_tenant tenant rows')
        → last_hash none (of_tenant tenant rows) ≡ last_hash none (of_tenant tenant rows')
        → (texts none (of_tenant tenant rows) ≡ texts none (of_tenant tenant rows')) ⊎ Collision
    unfolding verify_audit_chain
    tip_vouches tenant rows rows' v w l t =
        elim (same_tip none none none none (of_tenant tenant rows) (of_tenant tenant rows') v w l
          t) [ inl (same, _) ↦ inl same | inr c ↦ inr c ]
