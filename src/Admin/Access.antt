-- ===== src/Admin/Access.antt =====
-- Client administration and access, application/admin/service.py, on the tables of `Store`. The
-- hash, the random bytes, the clocks and new UUIDs are parameters.
pub mod Laws
pub mod Issue
use omf_retrieval.Admin.Base64.{Bytes}
use omf_retrieval.Admin.Store.{ClientDb, find_client_by_key_id, has_source_grant, save_client}
use omf_retrieval.Admin.Tokens.{
  AuthenticatedClient, AuthorizedSource, DateTime, IssuedClient, StoredClient, aware, issue_token,
  naive, parse_token,
}
use omf_retrieval.Prelude.{
  Bool, Exception, List, Option, Result, any, authentication, client_admin, false, if◌then◌else◌,
  key_id_collision, leb, list_eq, nat_eq, none, not, ok, raise, require, some, source_access, suc,
  token_issuance, true, value_error, zero, ℕ, ◌&&◌, ◌+◌, ◌==◌, ◌>>=◌, ◌>>◌,
}
use omf_retrieval.Prelude.Text.{Text, codes, is_blank}
use omf_retrieval.Search.Ports.{Uuid}

-- `_utc_time`
unfoldable pub utc_time : DateTime → Result ℕ
utc_time (naive n) = raise value_error
utc_time (aware n) = ok n

-- `_invalid_expiry`
unfoldable pub invalid_expiry : DateTime → ℕ → Bool
invalid_expiry (naive t) now = true
invalid_expiry (aware t) now = leb t now

unfoldable pub is_expired : Option DateTime → ℕ → Bool
unfolding invalid_expiry
is_expired none now = false
is_expired (some t) now = invalid_expiry t now

unfoldable pub is_collision : Exception → Bool
is_collision key_id_collision = true
is_collision _ = false

-- the random bytes and the UUID of each attempt
pub record Entropy : Type 0 where
  pub key_bytes : ℕ → Bytes
  pub secret_bytes : ℕ → Bytes
  pub uuid4 : ℕ → Uuid

-- the row that an attempt saves, and its result
unfoldable pub new_row : Uuid → Text → Text → Bytes → ℕ → StoredClient
new_row id name key_id token_hash now = record {
  id = id;
  name = name;
  key_id = key_id;
  token_hash = token_hash;
  status = codes "active";
  expires_at = none;
  created_at = aware now;
}

-- `except KeyIdCollision: continue`
unfoldable pub or_retry :
    Result ClientDb
    → IssuedClient
    → Result (ClientDb × IssuedClient)
    → Result (ClientDb × IssuedClient)
unfolding is_collision
or_retry (ok db) issued again = ok (db, issued)
or_retry (raise e) issued again = if is_collision e then again else raise e

-- the last test of `authenticate`
unfoldable pub admit : Option StoredClient → Bytes → ℕ → Result AuthenticatedClient
unfolding is_expired
admit none digest now = raise authentication
admit (some stored) digest now =
    if digest == stored.token_hash
      && stored.status == codes "active"
      && not (is_expired stored.expires_at now)
    then ok (record { client_id = stored.id; name = stored.name; key_id = stored.key_id })
    else raise authentication

module _ (sha256 : Bytes → Bytes) where
  -- the attempts that are left, from number `i`
  unfoldable pub attempt :
      Entropy → ℕ → ℕ → ClientDb → Text → List Text → ℕ → Result (ClientDb × IssuedClient)
  unfolding issue_token save_client new_row or_retry
  attempt entropy zero i db name grants now = raise token_issuance
  attempt entropy (suc n) i db name grants now = do
    let again = attempt entropy n (i + 1) db name grants now
    (key_id, token, secret, token_hash) ←
        issue_token sha256 (entropy.key_bytes i) (entropy.secret_bytes i)
    let client_id = entropy.uuid4 i
    or_retry (save_client db (new_row client_id name key_id token_hash now) grants)
        (record {
          client_id = client_id;
          name = name;
          key_id = key_id;
          token = token;
          secret = secret;
        })
        again

  unfoldable pub create_client :
      Entropy → DateTime → ClientDb → Text → List Text → Result (ClientDb × IssuedClient)
  unfolding attempt is_blank any utc_time
  create_client entropy clock db name source_keys = do
    require (not (is_blank name)) client_admin
    require (not (any is_blank source_keys)) client_admin
    now ← utc_time clock
    attempt entropy 3 0 db name source_keys now

  unfoldable pub authenticate : ClientDb → DateTime → Text → Result AuthenticatedClient
  unfolding parse_token find_client_by_key_id utc_time admit
  authenticate db clock token = do
    (key_id, secret) ← parse_token token
    stored ← find_client_by_key_id db key_id
    now ← utc_time clock
    admit stored (sha256 secret) now

  -- the operation is run last, on the client and the source that were proved
  unfoldable pub execute_authorized :
      {T : Type 0}
      → ClientDb
      → DateTime
      → ℕ
      → Text
      → Text
      → (AuthorizedSource → Result T)
      → Result T
  unfolding authenticate has_source_grant
  execute_authorized db clock database_now token source_key operation = do
    client ← authenticate db clock token
    require (has_source_grant db database_now client.client_id source_key) source_access
    operation (record { client = client; source_key = source_key })
