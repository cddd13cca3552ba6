-- ===== src/Admin/Tokens.antt =====
-- Client credentials, application/admin/tokens.py. SHA-256 is a parameter of the model.
pub mod Laws
use omf_retrieval.Admin.Base64.{Bytes, b64_decode, b64_encode, is_digit, to_hex}
use omf_retrieval.Prelude.{
  Option, Result, all, authentication, client_admin, drop, if◌then◌else◌, length, list_eq, nat_beq,
  nat_eq, none, ok, raise, require, some, take, ℕ, ◌&&◌, ◌++◌, ◌==◌, ◌>>=◌, ◌>>◌,
}
use omf_retrieval.Prelude.Text.{Text, codes, is_hex_of, starts_with}
use omf_retrieval.Search.Ports.{Uuid}

pub record AuthenticatedClient : Type 0 where
  pub client_id : Uuid
  pub name : Text
  pub key_id : Text

pub record AuthorizedSource : Type 0 where
  pub client : AuthenticatedClient
  pub source_key : Text

pub record IssuedClient : Type 0 where
  pub client_id : Uuid
  pub name : Text
  pub key_id : Text
  pub token : Text
  pub secret : Bytes

pub data DateTime : Type 0 where
  naive : ℕ → DateTime
  aware : ℕ → DateTime

pub record StoredClient : Type 0 where
  pub id : Uuid
  pub name : Text
  pub key_id : Text
  pub token_hash : Bytes
  pub status : Text
  pub expires_at : Option DateTime
  pub created_at : DateTime

-- `f"omfr_{key_id}.{encoded}"`
unfoldable pub format_token : Text → Text → Text
format_token key_id encoded = codes "omfr_" ++ (key_id ++ (codes "." ++ encoded))

-- `_TOKEN_PATTERN.fullmatch(token)` and its two groups
unfoldable pub match_token : Text → Option (Text × Text)
unfolding starts_with is_hex_of take drop all is_digit
match_token token =
    let body = drop 5 token in
    let key_id = take 16 body in
    let encoded = drop 17 body in
    if starts_with token (codes "omfr_")
      && is_hex_of 16 key_id
      && starts_with (drop 16 body) (codes ".")
      && nat_beq (length encoded) 43
      && all is_digit encoded
    then some (key_id, encoded)
    else none

-- a decoded secret is accepted in its canonical form only
unfoldable pub accept_secret : Text → Text → Bytes → Result (Text × Bytes)
unfolding b64_encode
accept_secret key_id encoded secret =
    if nat_beq (length secret) 32 && b64_encode secret == encoded
    then ok (key_id, secret)
    else raise authentication

unfoldable pub parse_token : Text → Result (Text × Bytes)
unfolding match_token b64_decode accept_secret
parse_token token = elim (match_token token) [
  | none ↦ raise authentication
  | some (key_id, encoded) ↦ elim (b64_decode encoded) [
    | none ↦ raise authentication
    | some secret ↦ accept_secret key_id encoded secret
  ]
]

module _ (sha256 : Bytes → Bytes) where
  -- `issue_token`, of the bytes that the provider returned for its two calls
  unfoldable pub issue_token : Bytes → Bytes → Result (Text × Text × Bytes × Bytes)
  unfolding to_hex format_token b64_encode
  issue_token key_bytes secret = do
    require (nat_beq (length key_bytes) 8) client_admin
    require (nat_beq (length secret) 32) client_admin
    let key_id = to_hex key_bytes
    ok (key_id, format_token key_id (b64_encode secret), secret, sha256 secret)
