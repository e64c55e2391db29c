-- ===== src/Delivery/Sinks.antt =====
-- store.py: the sinks of a source, with the check of the stored credentials in credentials.py.
-- `has_source` says of which sources `lock_collector` finds an undeleted row; `encrypt` and
-- `can_decrypt` are those of the credential cipher, and `tokens` are the encrypted credentials in the
-- platform's settings. A secret is the column `secret_encrypted`, empty for NULL.
use extrio.Base.{
  ◌+◌, String, Bool, ◌&&◌, not, Option, none, some, List, [], ◌∷◌, ◌++◌, ◌=ₛ◌, is_some, or_else,
  if◌then◌else◌, all, Outcome, ok, err, raise_if, ◌>>◌,
}
use extrio.Fields.{is_blank}
use extrio.Delivery.Tables.{Sink, Db, find_sink}

pub data SinkError : Type 0 where
  unsupported_type invalid_url cipher_required credentials_unreadable : SinkError
  collector_not_found missing_sink duplicate_sink : SinkError

abbrev pub is_blank_url : Option String → Bool
is_blank_url none = Bool.false
is_blank_url (some url) = is_blank url

-- UPDATE sinks SET ... WHERE id=?
unfoldable pub update_row : String → (Sink → Sink) → List Sink → List Sink
update_row id f [] = []
update_row id f (s ∷ ss) = let rest = update_row id f ss in (if s.id =ₛ id then f s else s) ∷ rest

-- DELETE FROM sinks WHERE id=?
unfoldable pub delete_row : String → List Sink → List Sink
delete_row id [] = []
delete_row id (s ∷ ss) = let rest = delete_row id ss in if s.id =ₛ id then rest else s ∷ rest

-- WHERE secret_encrypted IS NOT NULL
abbrev pub secrets : List Sink → List String
secrets [] = []
secrets (s ∷ ss) = if s.secret =ₛ "" then secrets ss else s.secret ∷ secrets ss

module _ (has_source : String → Bool) (encrypt : String → String) (can_decrypt : String → Bool)
    (tokens : List String) where
  unfoldable pub lock_collector : String → Outcome SinkError (Unit {0})
  lock_collector id = raise_if (not (has_source id)) collector_not_found

  -- without the read of the key file
  unfoldable pub validate_stored_credentials : Db → Outcome SinkError (Unit {0})
  validate_stored_credentials db =
      raise_if (not (all can_decrypt (secrets db.sinks ++ tokens))) credentials_unreadable

  abbrev pub encrypted : Option String → String
  encrypted none = ""
  encrypted (some secret) = if secret =ₛ "" then "" else encrypt secret

  abbrev pub new_sink : String → String → String → Option String → Bool → String → Sink
  new_sink id collector_id url secret enabled kind = record {
    id = id;
    collector_id = collector_id;
    kind = kind;
    url = url;
    enabled = enabled;
    version = 1;
    secret = encrypted secret;
  }

  unfoldable pub create_sink :
      String → String → String → Option String → Bool → String → Db → Outcome SinkError (Sink × Db)
  create_sink id collector_id url secret enabled kind db = do
    raise_if (not (kind =ₛ "webhook")) unsupported_type
    raise_if (is_blank url) invalid_url
    lock_collector collector_id
    (if or_else secret "" =ₛ "" then ok tt else validate_stored_credentials db)
    raise_if (is_some (find_sink id db.sinks)) duplicate_sink
    let s = new_sink id collector_id url secret enabled kind
    ok (s, record db { sinks = db.sinks ++ s ∷ [] })

  -- every update bumps the version
  abbrev pub updated : Option String → Option String → Option Bool → Sink → Sink
  updated url secret enabled s = record s {
    url = or_else url s.url;
    enabled = or_else enabled s.enabled;
    version = s.version + 1;
    secret = elim secret [ none ↦ s.secret | some text ↦ encrypt text ];
  }

  unfoldable pub update_sink :
      String → Bool → Option String → Option String → Option Bool → Db → Outcome SinkError Db
  update_sink id has_cipher url secret enabled db = do
    raise_if (is_some secret && not has_cipher) cipher_required
    raise_if (is_blank_url url) invalid_url
    elim (find_sink id db.sinks) [
      | none ↦ err missing_sink
      | some s ↦ do
        lock_collector s.collector_id
        (if is_some secret then validate_stored_credentials db else ok tt)
        ok (record db { sinks = update_row id (updated url secret enabled) db.sinks })
    ]

  unfoldable pub delete_sink : String → Db → Outcome SinkError Db
  delete_sink id db = elim (find_sink id db.sinks) [
    | none ↦ err missing_sink
    | some s ↦ do lock_collector s.collector_id; ok (record db { sinks = delete_row id db.sinks })
  ]
