-- ===== src/Admin/Access/Laws.antt =====
-- Who is admitted by application/admin/service.py.
use omf_retrieval.Admin.Access.{
  admit, authenticate, execute_authorized, invalid_expiry, is_expired, utc_time,
}
use omf_retrieval.Admin.Base64.{Bytes, b64_encode}
use omf_retrieval.Admin.Store.{
  ClientDb, find_client_by_key_id, has_source_grant, read_client, revoke_client, row_of, utc,
  utc_or_none,
}
use omf_retrieval.Admin.Store.History.{Steps, Steps-IsRevoked, revoke_client-IsRevoked}
use omf_retrieval.Admin.Tokens.{
  AuthenticatedClient, AuthorizedSource, DateTime, StoredClient, aware, format_token, naive,
  parse_token,
}
use omf_retrieval.Admin.Tokens.Laws.{parse_token-canonical}
use omf_retrieval.Prelude.{
  &&-split, >>=-eq_ok, Bool-cases, Exception, Option, Option-cases, Result, Result-cases, ap, arith,
  false, inl, inr, is_some, list_beq_iff, list_eq, nat_eq, none, none-ne-some, not, not-eq_true, ok,
  ok-injective, raise, raise-ne-ok, refl, require, some, some_injective, source_access, sym, true,
  ℕ, ◌&&◌, ◌<◌, ◌==◌, ◌>>=◌, ◌∙◌, ◌≡◌, ◌≢◌,
}
use omf_retrieval.Prelude.Text.{Text, codes}

read_client-key :
    (row : StoredClient) {c : StoredClient}
    → read_client row ≡ ok c
    → (c.status ≡ row.status) × (c.token_hash ≡ row.token_hash) × (c.id ≡ row.id)
unfolding read_client
read_client-key row {c} h =
    let (expiry, _, h1) = >>=-eq_ok (utc_or_none row.expires_at) _ h in
    let (created, _, h2) = >>=-eq_ok (utc row.created_at) _ h1 in
    let same : record row { expires_at = expiry; created_at = created } ≡ c = ok-injective h2 in
    (
      ap (λ (x : StoredClient). x.status) (sym same),
      ap (λ (x : StoredClient). x.token_hash) (sym same),
      ap (λ (x : StoredClient). x.id) (sym same),
    )

active-ne-revoked : codes "active" ≡ codes "revoked" → ⊥
active-ne-revoked h = cc

-- there is no expiry, or it is an aware time that is still to come
pub data IsUnexpired (now : ℕ) : Option DateTime → Type 0 where
  unlimited : IsUnexpired now none
  limited : {t : ℕ} → now < t → IsUnexpired now (some (aware t))

is_expired-IsUnexpired :
    (now : ℕ) (expiry : Option DateTime) → is_expired expiry now ≡ false → IsUnexpired now expiry
unfolding is_expired invalid_expiry
is_expired-IsUnexpired now none h = unlimited
is_expired-IsUnexpired now (some (naive t)) h = cc
is_expired-IsUnexpired now (some (aware t)) h = limited (ground arith)

module _ (sha256 : Bytes → Bytes) where
  -- the row on which a client is admitted
  pub record IsAdmitted (db : ClientDb) (now : ℕ) (token : Text) (client : AuthenticatedClient)
      : Type 0 where
    pub key_id : Text
    pub secret : Bytes
    pub row : StoredClient
    pub stored : StoredClient
    pub parsed : parse_token token ≡ ok (key_id, secret)
    pub printed : token ≡ format_token key_id (b64_encode secret)
    pub found : row_of key_id db.clients ≡ some row
    pub read : read_client row ≡ ok stored
    pub digest : sha256 secret ≡ stored.token_hash
    pub active : stored.status ≡ codes "active"
    pub unexpired : IsUnexpired now stored.expires_at
    pub identity :
        client ≡ record { client_id = stored.id; name = stored.name; key_id = stored.key_id }

  admit-eq_ok :
      (found : Option StoredClient) (digest : Bytes) (now : ℕ) {client : AuthenticatedClient}
      → admit found digest now ≡ ok client
      → (stored : StoredClient) × (found ≡ some stored)
        × (digest ≡ stored.token_hash)
        × (stored.status ≡ codes "active")
        × (is_expired stored.expires_at now ≡ false)
        × (client ≡ record { client_id = stored.id; name = stored.name; key_id = stored.key_id })
  unfolding admit
  admit-eq_ok none digest now h = cc
  admit-eq_ok (some stored) digest now h =
      let a = digest == stored.token_hash in
      let b = stored.status == codes "active" in
      let c = is_expired stored.expires_at now in
      elim (Bool-cases (a && b && not c)) [
        | inl e ↦
            let (pq, r) = &&-split (a && b) (not c) e in
            let (p, q) = &&-split a b pq in
            (
              stored,
              refl,
              (list_beq_iff digest stored.token_hash).0 p,
              (list_beq_iff stored.status (codes "active")).0 q,
              not-eq_true c r,
              ok-injective (sym (rw e at h)),
            )
        | inr e ↦ absurd (raise-ne-ok (rw e at h))
      ]

  found_row :
      (db : ClientDb) (key_id : Text) {stored : StoredClient}
      → find_client_by_key_id db key_id ≡ ok (some stored)
      → (row : StoredClient) × (row_of key_id db.clients ≡ some row) × (read_client row ≡ ok stored)
  unfolding find_client_by_key_id
  found_row db key_id {stored} h = elim (Option-cases (row_of key_id db.clients)) [
    | inl e ↦ absurd (none-ne-some (ok-injective (rw (e, find_client_by_key_id) at h)))
    | inr (row, e) ↦
        let (c, read, h') =
          >>=-eq_ok (read_client row) (λ x. ok (some x)) (rw (e, find_client_by_key_id) at h) in
        (row, e, read ∙ ap ok (some_injective (ok-injective h')))
  ]

  -- A client is admitted on the row of its token's key only: the token is the one that is printed
  -- for the key and the secret, the secret's digest is the row's, the row is active, and its expiry,
  -- if it has one, is after the clock's time.
  pub authenticate-IsAdmitted :
      (db : ClientDb) (now : ℕ) (token : Text) {client : AuthenticatedClient}
      → authenticate sha256 db (aware now) token ≡ ok client
      → IsAdmitted db now token client
  unfolding authenticate utc_time
  authenticate-IsAdmitted db now token {client} h =
      let ((key_id, secret), parsed, h1) = >>=-eq_ok (parse_token token) _ h in
      let (found, lookup, h2) = >>=-eq_ok (find_client_by_key_id db key_id) _ h1 in
      let (stored, is_some, digest, active, unexpired, identity) =
        admit-eq_ok found (sha256 secret) now h2 in
      let (row, at_key, read) = found_row db key_id (lookup ∙ ap ok is_some) in
      record {
        key_id = key_id;
        secret = secret;
        row = row;
        stored = stored;
        parsed = parsed;
        printed = (parse_token-canonical token key_id secret parsed).0;
        found = at_key;
        read = read;
        digest = digest;
        active = active;
        unexpired = is_expired-IsUnexpired now stored.expires_at unexpired;
        identity = identity;
      }

  -- No token of a revoked key is admitted, then or after any later change of the tables.
  pub revoked_denied :
      (k : Text) (db later : ClientDb)
      → (revoke_client db k).1 ≡ true
      → Steps (revoke_client db k).0 later
      → (now : ℕ) (token : Text) (secret : Bytes) → parse_token token ≡ ok (k, secret)
      → (client : AuthenticatedClient) → authenticate sha256 later (aware now) token ≢ ok client
  revoked_denied k db later hit steps now token secret parsed client h =
      let a = authenticate-IsAdmitted later now token h in
      let (row, found, status) =
        Steps-IsRevoked k (revoke_client db k).0 later steps (revoke_client-IsRevoked k db hit) in
      let key : a.key_id ≡ k = ap (λ g. g.0) (ok-injective (sym a.parsed ∙ parsed)) in
      let same : a.row ≡ row =
        some_injective (sym a.found ∙ ap (λ j. row_of j later.clients) key ∙ found) in
      let (kept, _, _) = read_client-key a.row a.read in
      active-ne-revoked (sym a.active ∙ kept ∙ ap (λ (r : StoredClient). r.status) same ∙ status)

  module _ {T : Type 0} (db : ClientDb) (clock : DateTime) (database_now : ℕ)
      (token source_key : Text) (operation : AuthorizedSource → Result T) where
    -- what an execution comes to
    pub data IsGuarded : Result T → Type 0 where
      denied : {e : Exception} → authenticate sha256 db clock token ≡ raise e → IsGuarded (raise e)
      ungranted :
          (client : AuthenticatedClient)
          → authenticate sha256 db clock token ≡ ok client
          → has_source_grant db database_now client.client_id source_key ≡ false
          → IsGuarded (raise source_access)
      ran :
          (client : AuthenticatedClient)
          → authenticate sha256 db clock token ≡ ok client
          → has_source_grant db database_now client.client_id source_key ≡ true
          → IsGuarded (operation (record { client = client; source_key = source_key }))

    -- An execution comes to the authentication's error, whatever the operation; or, for an admitted
    -- client without a grant on the source, to a source access error, whatever the operation; or,
    -- for an admitted client with a grant, to what the operation returns or raises on that client
    -- and that source.
    pub execute_authorized-IsGuarded :
        IsGuarded (execute_authorized sha256 db clock database_now token source_key operation)
    unfolding execute_authorized
    execute_authorized-IsGuarded = elim (Result-cases (authenticate sha256 db clock token)) [
      | inr (e, h) ↦ rw (h, ◌>>=◌) (denied h)
      | inl (client, h) ↦
          elim (Bool-cases (has_source_grant db database_now client.client_id source_key)) [
            | inl granted ↦ rw (h, ◌>>=◌) (rw (granted, require, ◌>>=◌) (ran client h granted))
            | inr no_grant ↦
                rw (h, ◌>>=◌) (rw (no_grant, require, ◌>>=◌) (ungranted client h no_grant))
          ]
    ]
