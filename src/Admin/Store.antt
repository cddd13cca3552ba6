-- ===== src/Admin/Store.antt =====
-- The client tables and their operations, infrastructure/database/repository_auth.py. A value of
-- `ClientDb` is what a transaction sees; a transaction that raises leaves it as it was. The
-- constraints are those that infrastructure/database/models.py declares.
pub mod Laws
pub mod History
use omf_retrieval.Admin.Tokens.{DateTime, StoredClient, aware, naive}
use omf_retrieval.Prelude.{
  Bool, List, Option, Result, [], all, any, client_persistence, false, if◌then◌else◌,
  integrity_error, is_some, key_error, key_id_collision, length, list_eq, ltb, map, nat_beq, nat_eq,
  none, not, ok, raise, require, some, true, ℕ, ◌&&◌, ◌++◌, ◌==◌, ◌>>=◌, ◌>>◌, ◌||◌, ◌∷◌,
}
use omf_retrieval.Prelude.Dict.{get}
use omf_retrieval.Prelude.Sort.{sorted}
use omf_retrieval.Prelude.Text.{Text, codes, is_blank, text_lt}
use omf_retrieval.Search.Ports.{Uuid}

pub record ClientDb : Type 0 where
  -- `source_profiles`: key and id
  pub sources : List (Text × Uuid)
  -- `api_clients`
  pub clients : List StoredClient
  -- `client_source_grants`: client and source
  pub grants : List (Uuid × Uuid)

unfoldable pub utc : DateTime → Result DateTime
utc (naive n) = raise client_persistence
utc (aware n) = ok (aware n)

unfoldable pub utc_or_none : Option DateTime → Result (Option DateTime)
unfolding utc
utc_or_none none = ok none
utc_or_none (some t) = do t' ← utc t; ok (some t')

unfoldable pub validate_client : StoredClient → List Text → Result (Unit {0})
unfolding any is_blank utc utc_or_none
validate_client client source_keys = do
  require (nat_beq (length client.token_hash) 32 && not (any is_blank source_keys))
      client_persistence
  _ ← utc client.created_at
  _ ← utc_or_none client.expires_at
  ok tt

-- `_resolve_source_ids`: each key has its source
unfoldable pub resolve_source_ids : ClientDb → List Text → Result (Unit {0})
unfolding all get
resolve_source_ids db source_keys =
    require (all (λ k. is_some (get k db.sources)) source_keys) client_persistence

unfoldable pub is_client_status : Text → Bool
is_client_status s = s == codes "active" || s == codes "disabled" || s == codes "revoked"

-- a row of `api_clients` under its constraints; the handler names that on the key identifier
unfoldable pub insert_client : ClientDb → StoredClient → Result ClientDb
unfolding any is_blank is_client_status
insert_client db client = do
  require
      (not (is_blank client.name)
        && nat_beq (length client.key_id) 16
        && nat_beq (length client.token_hash) 32
        && is_client_status client.status)
      integrity_error
  require (not (any (λ c. c.id == client.id) db.clients)) integrity_error
  require (not (any (λ c. c.key_id == client.key_id) db.clients)) key_id_collision
  ok (record db { clients = db.clients ++ client ∷ [] })

unfoldable pub is_grant : Uuid → Uuid → Uuid × Uuid → Bool
is_grant client source g = g.0 == client && g.1 == source

-- `add_all` of the grants under the primary key
unfoldable pub insert_grants : ClientDb → Uuid → List Text → Result ClientDb
unfolding any get is_grant
insert_grants db client [] = ok db
insert_grants db client (k ∷ ks) = elim (get k db.sources) [
  | none ↦ raise key_error
  | some source ↦ do
    require (not (any (is_grant client source) db.grants)) integrity_error
    insert_grants (record db { grants = db.grants ++ (client, source) ∷ [] }) client ks
]

unfoldable pub save_client : ClientDb → StoredClient → List Text → Result ClientDb
unfolding validate_client resolve_source_ids insert_client insert_grants sorted text_lt
save_client db client source_keys = do
  validate_client client source_keys
  resolve_source_ids db source_keys
  db' ← insert_client db client
  insert_grants db' client.id (sorted text_lt source_keys)

unfoldable pub revoke : Text → StoredClient → StoredClient
revoke key_id c = if c.key_id == key_id then record c { status = codes "revoked" } else c

-- whether a row was changed is the second component
unfoldable pub revoke_client : ClientDb → Text → ClientDb × Bool
unfolding revoke any
revoke_client db key_id = (
  record db { clients = map (revoke key_id) db.clients },
  any (λ c. c.key_id == key_id) db.clients,
)

-- the row of a query by key identifier
unfoldable pub row_of : Text → List StoredClient → Option StoredClient
row_of key_id [] = none
row_of key_id (c ∷ cs) = let rest = row_of key_id cs in if c.key_id == key_id then some c else rest

unfoldable pub read_client : StoredClient → Result StoredClient
unfolding utc utc_or_none
read_client c = do
  expires_at ← utc_or_none c.expires_at
  created_at ← utc c.created_at
  ok (record c { expires_at = expires_at; created_at = created_at })

unfoldable pub find_client_by_key_id : ClientDb → Text → Result (Option StoredClient)
unfolding row_of read_client
find_client_by_key_id db key_id = elim (row_of key_id db.clients) [
  | none ↦ ok none
  | some row ↦ do c ← read_client row; ok (some c)
]

-- `expires_at > now()`, in the database
unfoldable pub expires_after : ℕ → DateTime → Bool
expires_after now (naive t) = false
expires_after now (aware t) = ltb now t

unfoldable pub is_unexpired : ℕ → Option DateTime → Bool
unfolding expires_after
is_unexpired now none = true
is_unexpired now (some t) = expires_after now t

-- the query of `source_grant_statement`, at the database's time
unfoldable pub has_source_grant : ClientDb → ℕ → Uuid → Text → Bool
unfolding any is_unexpired is_grant
has_source_grant db now client_id source_key =
    any
      (λ c.
        c.id == client_id
        && c.status == codes "active"
        && is_unexpired now c.expires_at
        && any (λ s. s.0 == source_key && any (is_grant client_id s.1) db.grants) db.sources)
      db.clients
