-- ===== src/Collections/Invariant.antt =====
-- The numbering of versions under every sequence of commands.
use extrio.Base.{
  Option-cases, bind-ok, ok, ℕ, ◌+◌, String, ◌≡◌, sym, ap, subst, ◌∙◌, inl, inr, Option, some, List,
  arith,
}
use extrio.Fields.{Schema}
use extrio.Audit.{Event}
use extrio.Collections.Tables.{
  Version, Response, Tables, find_collection, max_version, find_receipt,
}
use extrio.Collections.Rows.{latest_in}
use extrio.Collections.Store.{
  lock_collection, create_collection, change_collection, delete_collection, with_version,
  publish_collection_version,
}
use extrio.Collections.Commands.{
  Call, Command, scope_of, Answer, actor_of, replay, apply, collection_command, post, patch, delete,
  publish,
}
use extrio.Collections.Replay.{Later, from_receipt, stay, step}
use extrio.Collections.Numbers.{
  IsNumbered, still-IsNumbered, created-IsNumbered, locked, changed-IsNumbered, deleted-IsNumbered,
  with_version-IsNumbered,
}

kept-IsNumbered :
    (t after : Tables)
    → IsNumbered t
    → after.versions ≡ t.versions
    → after.collections ≡ t.collections
    → IsNumbered after
kept-IsNumbered t after n versions rows =
    still-IsNumbered t after n versions (λ id. ap (latest_in id) rows)

module _ (sha256 : String → String) (json : Event → Option String → String)
    (hash_body : Command → String) (hash_value : Response → String)
    (digest : Schema → List String → List String → String) where
  published-IsNumbered :
      (version_id id : String) (revision : ℕ) (actor_id : String) (note : Option String) (now : ℕ)
      (t : Tables) (v : Version) (after : Tables)
      → IsNumbered t
      → publish_collection_version digest version_id id revision actor_id note now t ≡ ok (v, after)
      → IsNumbered after
  unfolding publish_collection_version
  published-IsNumbered version_id id revision actor_id remark now t v after h made =
      let (c, e, rest) = bind-ok (lock_collection id t) _ _ made in
      let (found, same) = locked id t c e in
      let there : find_collection c.id t.collections ≡ some c = rw same found in
      let written : with_version v c t ≡ after = ground (arith, rest) in
      let of_row : v.collection_id ≡ c.id = ground (arith, rest, same) in
      let number : v.version_number ≡ max_version c.id t.versions + 1 =
        let in_id : v.version_number ≡ max_version id t.versions + 1 = ground (arith, rest) in
        in_id ∙ ap (λ x. max_version x t.versions + 1) (sym same) in
      subst IsNumbered written (with_version-IsNumbered v c t h there of_row number)

  applied-IsNumbered :
      (call : Call) (body : Command) (t : Tables) (value : Response) (after : Tables)
      → IsNumbered t
      → apply sha256 json hash_body hash_value digest call body t ≡ ok (value, after)
      → IsNumbered after
  unfolding apply
  applied-IsNumbered call (post name intent) t value after n h =
      let ((v, b), e, k) = bind-ok (create_collection call.fresh_id name intent call.now t) _ _ h in
      kept-IsNumbered b after (created-IsNumbered call.fresh_id name intent call.now t v b n e)
        (ground (arith, k)) (ground (arith, k))
  applied-IsNumbered call (patch id revision changes) t value after n h =
      let (c, _, h1) = bind-ok (lock_collection id t) _ _ h in
      let ((v, b), e, k) = bind-ok (change_collection id revision changes call.now t) _ _ h1 in
      kept-IsNumbered b after (changed-IsNumbered id revision changes call.now t v b n e)
        (ground (arith, k)) (ground (arith, k))
  applied-IsNumbered call (delete id revision) t value after n h =
      let (c, _, h1) = bind-ok (lock_collection id t) _ _ h in
      let ((u, b), e, k) = bind-ok (delete_collection id revision t) _ _ h1 in
      kept-IsNumbered b after (deleted-IsNumbered id revision t u b n e) (ground (arith, k))
        (ground (arith, k))
  applied-IsNumbered call (publish id revision remark) t value after n h =
      let actor = actor_of call.actor in
      let ((v, b), e, k) =
        bind-ok
          (publish_collection_version digest call.fresh_id id revision actor remark call.now t) _ _
          h in
      kept-IsNumbered b after
        (published-IsNumbered call.fresh_id id revision actor remark call.now t v b n e)
        (ground (arith, k)) (ground (arith, k))

  command-IsNumbered :
      (call : Call) (body : Command) (t : Tables) (answer : Answer) (after : Tables)
      → IsNumbered t
      → collection_command sha256 json hash_body hash_value digest call body t ≡ ok (answer, after)
      → IsNumbered after
  unfolding collection_command replay
  command-IsNumbered call body t answer after n h =
      elim (Option-cases (find_receipt (scope_of body) call.key t.idempotency)) [
        | inr (r, e) ↦
            subst IsNumbered
              (sym
                (from_receipt sha256 json hash_body hash_value digest call body answer t after r e
                  h).0.1)
              n
        | inl e ↦
            let ((value, b), applied, k) =
              bind-ok (apply sha256 json hash_body hash_value digest call body t) _ _
                (rw (e, collection_command) at h) in
            kept-IsNumbered b after (applied-IsNumbered call body t value b n applied)
              (ground (arith, k)) (ground (arith, k))
      ]

  -- However many commands are sent, succeed or are repeated, the versions of each collection are
  -- numbered 1, 2, ..., n without a gap in the order of their publication, where n is the latest number
  -- in the collection's row; a collection that is deleted has none.
  pub Later-IsNumbered :
      (t after : Tables)
      → Later sha256 json hash_body hash_value digest t after
      → IsNumbered t
      → IsNumbered after
  Later-IsNumbered t after (stay _) n = n
  Later-IsNumbered t after (step call body answer _ mid _ h rest) n =
      Later-IsNumbered mid after rest (command-IsNumbered call body t answer mid n h)
