-- ===== src/Delivery/Replaced.antt =====
-- A sink that has been replaced is no longer sent what was enqueued for it before.
use Prim.Native.String.{◌++◌ as ◌++ₛ◌}
use text.Mathlib.TextPositions.{eq_refl}
use text.Mathlib.TextLemmas.{append_cancel_left}
use extrio.Base.{
  ℕ, ◌<◌, String, ◌≡◌, ◌≢◌, refl, sym, ap, ◌∙◌, inl, inr, ◌⊎◌, Bool, true, false, Option, none,
  some, List, [], ◌∷◌, ◌++◌, ◌=ₛ◌, eq_iff, is_some, arith, if◌then◌else◌, ok,
}
use extrio.Delivery.Tables.{Delivery, Sink, Db, find_sink}
use extrio.Delivery.Dispatch.{Item, Payload, Request, process}
use extrio.Delivery.Queue.{sink_version}
use extrio.Delivery.Requests.{process-Sends}
use extrio.Delivery.Sinks.{
  update_row, delete_row, updated, create_sink, update_sink, delete_sink, lock_collector,
  validate_stored_credentials,
}

-- The sink is gone, or its version is later.
abbrev pub IsPast : ℕ → String → List Sink → Type 0
IsPast v id sinks = (s : Sink) → find_sink id sinks ≡ some s → v < s.version

find-update_row :
    (id k : String) (f : Sink → Sink) (ss : List Sink)
    → ((s : Sink) → (f s).id ≡ s.id)
    → find_sink k (update_row id f ss) ≡ (
        if k =ₛ id
        then elim (find_sink k ss) as (λ _. Option Sink) [ none ↦ none | some s ↦ some (f s) ]
        else find_sink k ss)
unfolding find_sink update_row
find-update_row id k f [] keeps = ground arith
find-update_row id k f (s ∷ ss) keeps = ground (
  arith,
  find-update_row id k f ss keeps,
  keeps s,
  eq_iff s.id id,
  eq_iff (f s).id k,
  eq_iff s.id k,
  eq_iff k id,
)

find-delete_row :
    (id k : String) (ss : List Sink)
    → find_sink k (delete_row id ss) ≡ (if k =ₛ id then none else find_sink k ss)
unfolding find_sink delete_row
find-delete_row id k [] = ground arith
find-delete_row id k (s ∷ ss) =
    ground (arith, find-delete_row id k ss, eq_iff s.id id, eq_iff s.id k, eq_iff k id)

find-append_other :
    (k : String) (ss : List Sink) (s : Sink)
    → (s.id =ₛ k) ≡ false
    → find_sink k (ss ++ s ∷ []) ≡ find_sink k ss
unfolding find_sink
find-append_other k [] s other = ground (arith, other)
find-append_other k (r ∷ ss) s other = ground (arith, find-append_other k ss s other)

find_sink-id : (id : String) (ss : List Sink) (s : Sink) → find_sink id ss ≡ some s → s.id ≡ id
unfolding find_sink
find_sink-id id [] s e = ground arith
find_sink-id id (r ∷ ss) s e = ground (arith, find_sink-id id ss s, eq_iff r.id id)

same_version : (r s : Sink) → some r ≡ some s → r.version ≡ s.version
same_version r s e = ground (arith, e)

module _ (v : ℕ) (id : String) where
  update_row-IsPast :
      (k : String) (f : Sink → Sink) (ss : List Sink)
      → ((s : Sink) → (f s).id ≡ s.id)
      → ((s : Sink) → s.version < (f s).version)
      → IsPast v id ss
      → IsPast v id (update_row k f ss)
  update_row-IsPast k f ss keeps later h s e =
      pick (id =ₛ k) (find_sink id ss) h (simp (find-update_row k id f ss keeps) at e)
    where
      pick :
          (t : Bool) (o : Option Sink)
          → ((r : Sink) → o ≡ some r → v < r.version)
          → (if t then elim o as (λ _. Option Sink) [ none ↦ none | some r ↦ some (f r) ] else o)
            ≡ some s
          → v < s.version
      pick true none h e = ground arith
      pick true (some r) h e = omega (arith, h r refl, later r, same_version (f r) s e)
      pick false o h e = h s e

  update_row-IsPast_own :
      (f : Sink → Sink) (ss : List Sink)
      → ((s : Sink) → (f s).id ≡ s.id)
      → ((s : Sink) → find_sink id ss ≡ some s → v < (f s).version)
      → IsPast v id (update_row id f ss)
  update_row-IsPast_own f ss keeps later s e =
      go (find_sink id ss) refl (simp (find-update_row id id f ss keeps, eq_refl) at e)
    where
      go :
          (o : Option Sink)
          → find_sink id ss ≡ o
          → (elim o as (λ _. Option Sink) [ none ↦ none | some r ↦ some (f r) ]) ≡ some s
          → v < s.version
      go none found e = ground arith
      go (some r) found e = omega (arith, later r found, same_version (f r) s e)

  delete_row-IsPast : (k : String) (ss : List Sink) → IsPast v id ss → IsPast v id (delete_row k ss)
  delete_row-IsPast k ss h s e = ground (arith, find-delete_row k id ss, e, h s)

module _ (has_source : String → Bool) (encrypt : String → String) (can_decrypt : String → Bool)
    (tokens : List String) where
  -- Any changes of sinks after each other that succeed; no new sink takes the id.
  pub data SinkSteps (id : String) (a : Db) : Db → Type 0 where
    stay : SinkSteps id a a
    other : {b : Db} (c : Db) → SinkSteps id a b → c.sinks ≡ b.sinks → SinkSteps id a c
    create :
        {b c : Db} (new collector_id url kind : String) (secret : Option String) (enabled : Bool)
        (s : Sink)
        → SinkSteps id a b
        → (new =ₛ id) ≡ false
        → create_sink has_source encrypt can_decrypt tokens new collector_id url secret enabled kind
            b
          ≡ ok (s, c)
        → SinkSteps id a c
    update :
        {b c : Db} (k : String) (has_cipher : Bool) (url secret : Option String)
        (enabled : Option Bool)
        → SinkSteps id a b
        → update_sink has_source encrypt can_decrypt tokens k has_cipher url secret enabled b ≡ ok c
        → SinkSteps id a c
    delete :
        {b c : Db} (k : String)
        → SinkSteps id a b
        → delete_sink has_source encrypt can_decrypt tokens k b ≡ ok c
        → SinkSteps id a c

  created_sinks :
      (b c : Db) (new collector_id url kind : String) (secret : Option String) (enabled : Bool)
      (s : Sink)
      → create_sink has_source encrypt can_decrypt tokens new collector_id url secret enabled kind b
        ≡ ok (s, c)
      → (s.id ≡ new) × (c.sinks ≡ b.sinks ++ s ∷ [])
  unfolding create_sink lock_collector validate_stored_credentials
  created_sinks b c new collector_id url kind secret enabled s e = ground (arith, e)

  updated_sinks :
      (b c : Db) (k : String) (has_cipher : Bool) (url secret : Option String)
      (enabled : Option Bool)
      → update_sink has_source encrypt can_decrypt tokens k has_cipher url secret enabled b ≡ ok c
      → (is_some (find_sink k b.sinks) ≡ true)
        × (c.sinks
            ≡ update_row k
                (updated has_source encrypt can_decrypt tokens url secret enabled)
                b.sinks)
  unfolding update_sink lock_collector validate_stored_credentials
  updated_sinks b c k has_cipher url secret enabled e = ground (arith, e)

  deleted_sinks :
      (b c : Db) (k : String)
      → delete_sink has_source encrypt can_decrypt tokens k b ≡ ok c
      → c.sinks ≡ delete_row k b.sinks
  unfolding delete_sink lock_collector
  deleted_sinks b c k e = ground (arith, e)

  SinkSteps-IsPast :
      (v : ℕ) (id : String) {a b : Db}
      → IsPast v id a.sinks
      → SinkSteps id a b
      → IsPast v id b.sinks
  SinkSteps-IsPast v id h stay = h
  SinkSteps-IsPast v id h (other c l same) = rw same (SinkSteps-IsPast v id h l)
  SinkSteps-IsPast v id h
        (create {b = b} {c = c} new collector url kind secret enabled s l differs e) =
      let (own, sinks) = created_sinks b c new collector url kind secret enabled s e in
      λ r found. SinkSteps-IsPast v id h l r (
        sym (find-append_other id b.sinks s (rw own differs))
        ∙ ap (find_sink id) (sym sinks)
        ∙ found)
  SinkSteps-IsPast v id h (update {b = b} {c = c} k has_cipher url secret enabled l e) =
      let (there, sinks) = updated_sinks b c k has_cipher url secret enabled e in
      rw sinks (
        update_row-IsPast v id k _ b.sinks (λ s. refl) (λ s. omega arith)
          (SinkSteps-IsPast v id h l))
  SinkSteps-IsPast v id h (delete {b = b} {c = c} k l e) =
      rw (deleted_sinks b c k e) (delete_row-IsPast v id k b.sinks (SinkSteps-IsPast v id h l))

  -- a change of the sink that succeeds: an update or its deletion
  abbrev pub IsChange : String → Db → Db → Type 0
  IsChange id b c =
      ((has_cipher : Bool) × (url : Option String) × (secret : Option String) × (enabled : Option
          Bool)
        × (update_sink has_source encrypt can_decrypt tokens id has_cipher url secret enabled b
            ≡ ok c))
      ⊎ (delete_sink has_source encrypt can_decrypt tokens id b ≡ ok c)

  change-IsPast :
      (id : String) (b c : Db) (s : Sink)
      → find_sink id b.sinks ≡ some s
      → IsChange id b c
      → IsPast s.version id c.sinks
  change-IsPast id b c s found (inl (has_cipher, url, secret, enabled, e)) =
      let (there, sinks) = updated_sinks b c id has_cipher url secret enabled e in
      rw sinks (
        update_row-IsPast_own s.version id _ b.sinks (λ r. refl)
          (λ r here. omega (arith, same_version s r (sym found ∙ here))))
  change-IsPast id b c s found (inr e) =
      rw (deleted_sinks b c id e)
        (λ r here. ground (arith, find-delete_row id id b.sinks, eq_refl id, here))

  module _ (sha256 : String → String) (show : ℕ → String) (clip : String → String)
      (hmac : String → String → String) (json : Payload → String) (secret_of : Sink → Option String)
      (get_item : String → Option Item) (respond : Request → Option ℕ)
      (show_differs : (m n : ℕ) → show m ≡ show n → m ≡ n) where
    versions_differ :
        (id : String) (v w : ℕ) → v < w → id ++ₛ "#v" ++ₛ show v ≢ id ++ₛ "#v" ++ₛ show w
    versions_differ id v w less e =
        let same =
          show_differs v w
            (append_cancel_left "#v" (show v) (show w) (append_cancel_left id _ _ e)) in
        omega (arith, same, less)

    past_unsent :
        (d : Delivery) (v now later : ℕ) (meanwhile : Db → Db) (b : Db)
        → IsPast v d.sink_id b.sinks
        → d.sink_version_id ≡ d.sink_id ++ₛ "#v" ++ₛ show v
        → (process sha256 show clip hmac json secret_of get_item respond d now later meanwhile
            b).sent
          ≡ []
    past_unsent d v now later meanwhile b past made =
        elim (process-Sends sha256 show clip hmac json secret_of get_item respond d now later
          meanwhile b) [
            | inl none_sent ↦ none_sent
            | inr posted ↦
                elim (versions_differ d.sink_id v posted.sink.version
                  (past posted.sink posted.the_sink)
                  (sym made
                    ∙ (eq_iff d.sink_version_id (d.sink_id ++ₛ "#v" ++ₛ show posted.sink.version)).0
                        posted.accepts.same_version)) [ ]
          ]

    -- Once a sink has been updated or deleted, a delivery that was made for it before sends nothing
    -- any more, whatever changes of sinks follow: neither to the old address nor to the new one.
    pub replaced_unsent :
        (d : Delivery) (a b c : Db) (s : Sink) (now later : ℕ) (meanwhile : Db → Db)
        → find_sink d.sink_id a.sinks ≡ some s
        → d.sink_version_id ≡ sink_version sha256 show s
        → IsChange d.sink_id a b
        → SinkSteps d.sink_id b c
        → (process sha256 show clip hmac json secret_of get_item respond d now later meanwhile
            c).sent
          ≡ []
    replaced_unsent d a b c s now later meanwhile found made change l =
        past_unsent d s.version now later meanwhile c
          (SinkSteps-IsPast s.version d.sink_id (change-IsPast d.sink_id a b s found change) l)
          (made ∙ ap (λ i. i ++ₛ "#v" ++ₛ show s.version) (find_sink-id d.sink_id a.sinks s found))
