-- ===== src/Collections/Examples.antt =====
-- A collection that is created, changed and asked for again.
use extrio.Base.{Outcome, ok, err, String, ◌≡◌, refl, ◌≢◌, true, false, Option, none, List, [], ◌∷◌}
use extrio.Fields.{Schema}
use extrio.Audit.{Event}
use extrio.Collections.Tables.{
  Collection, Response, Tables, CollectionError, find_receipt, view, viewed, idempotency_conflict,
}
use extrio.Collections.Store.{
  lock_collection, with_collections, new_collection, insert_collection, create_collection,
}
use extrio.Collections.Commands.{
  Call, Command, Answer, recorded, apply, collection_command, post, patch, delete, publish,
}
use extrio.Collections.Replay.{Later, replayed, stay, step}
use extrio.Collections.Numbers.{IsNumbered}
use extrio.Collections.Invariant.{Later-IsNumbered}

abbrev empty : Tables
empty = record {
  collections = [];
  versions = [];
  sources = [];
  deleted_collectors = [];
  suggested = [];
  owned = [];
  idempotency = [];
  audit = [];
}

abbrev sha256 : String → String
sha256 s = s

abbrev json : Event → Option String → String
json event previous = event.action

abbrev hash_body : Command → String
hash_body (post name intent) = name
hash_body (patch id revision changes) = "patch"
hash_body (delete id revision) = "delete"
hash_body (publish id revision remark) = "publish"

abbrev hash_value : Response → String
hash_value value = "value"

abbrev digest : Schema → List String → List String → String
digest schema identity fingerprint = "digest"

abbrev call : Call
call = record { key = "k"; actor = none; fresh_id = "tenders"; event_id = "e1"; now = 5 }

abbrev body : Command
body = post "Tenders" "notices of tenders"

abbrev row : Collection
row = new_collection "tenders" "Tenders" "notices of tenders" 5

abbrev created : Tables
created =
    recorded sha256 json hash_body hash_value digest call body
      (viewed (view (with_collections (row ∷ []) empty) row)) [] (with_collections (row ∷ []) empty)

abbrev answer : Answer
answer = record {
  status_code = 201;
  value = viewed (view (with_collections (row ∷ []) empty) row);
  is_replay = false;
}

abbrev command : Call → Command → Tables → Outcome CollectionError (Answer × Tables)
command = collection_command sha256 json hash_body hash_value digest

creates : command call body empty ≡ ok (answer, created)
unfolding collection_command apply create_collection insert_collection lock_collection find_receipt
creates = refl

empty-IsNumbered : IsNumbered empty
empty-IsNumbered id = refl

was_created : Later sha256 json hash_body hash_value digest empty created
was_created = step call body answer empty created created creates (stay created)

replayed_example :
    (hash_body body ≡ hash_body body
      → command call body created
        ≡ ok (record { status_code = 201; value = answer.value; is_replay = true }, created))
    × (hash_body body ≢ hash_body body → command call body created ≡ err idempotency_conflict)
replayed_example =
    replayed sha256 json hash_body hash_value digest call body answer empty created created creates
      (stay created) call body refl refl

Later-IsNumbered_example : IsNumbered created
Later-IsNumbered_example =
    Later-IsNumbered sha256 json hash_body hash_value digest empty created was_created
      empty-IsNumbered
