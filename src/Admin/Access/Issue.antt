-- ===== src/Admin/Access/Issue.antt =====
-- What application/admin/service.py issues is what it admits.
use mathlib.Core.Path.{subst}
use omf_retrieval.Admin.Access.{
  Entropy, admit, attempt, authenticate, create_client, is_collision, is_expired, new_row, or_retry,
  utc_time,
}
use omf_retrieval.Admin.Base64.{AreBytes, Bytes, to_hex}
use omf_retrieval.Admin.Store.{
  ClientDb, find_client_by_key_id, read_client, row_of, save_client, utc, utc_or_none,
}
use omf_retrieval.Admin.Store.Laws.{IsSaved, row_of-snoc, save_client-IsSaved}
use omf_retrieval.Admin.Tokens.{IssuedClient, StoredClient, aware, issue_token, parse_token}
use omf_retrieval.Admin.Tokens.Laws.{parse_token-issue_token}
use omf_retrieval.Prelude.{
  >>=-eq_ok, Bool-cases, List, Result, [], any, ap, client_admin, false, inl, inr, length,
  list_beq_iff, list_eq, nat_beq, nat_beq_iff, nat_eq, not, ok, ok-injective, raise, raise-ne-ok,
  refl, require, require-eq_ok, some, suc, zero, ℕ, ◌++◌, ◌+◌, ◌==◌, ◌>>=◌, ◌∙◌, ◌∷◌, ◌≡◌, ◌⊎◌,
}
use omf_retrieval.Prelude.Text.{Text, is_blank}

module _ (sha256 : Bytes → Bytes) where
  issue_token-eq_ok :
      (key_bytes secret : Bytes) {out : Text × Text × Bytes × Bytes}
      → issue_token sha256 key_bytes secret ≡ ok out
      → (length key_bytes ≡ 8) × (length secret ≡ 32)
  unfolding issue_token
  issue_token-eq_ok key_bytes secret h =
      let (_, p, h1) = >>=-eq_ok (require (nat_beq (length key_bytes) 8) client_admin) _ h in
      let (_, q, _) = >>=-eq_ok (require (nat_beq (length secret) 32) client_admin) _ h1 in
      (
        (nat_beq_iff (length key_bytes) 8).0 (require-eq_ok _ _ p),
        (nat_beq_iff (length secret) 32).0 (require-eq_ok _ _ q),
      )

  -- an attempt that saved its client, and the row that it saved
  pub record IsIssued (db : ClientDb) (name : Text) (now : ℕ) (db' : ClientDb)
      (issued : IssuedClient) : Type 0 where
    pub row : StoredClient
    pub saved : IsSaved db row db'
    pub written : row ≡ new_row issued.client_id name issued.key_id (sha256 issued.secret) now
    pub parsed : parse_token issued.token ≡ ok (issued.key_id, issued.secret)
    pub name_kept : issued.name ≡ name

  or_retry-cases :
      (r : Result ClientDb) (issued : IssuedClient) (again : Result (ClientDb × IssuedClient))
      {db' : ClientDb} {out : IssuedClient}
      → or_retry r issued again ≡ ok (db', out)
      → ((r ≡ ok db') × (issued ≡ out)) ⊎ (again ≡ ok (db', out))
  unfolding or_retry
  or_retry-cases (ok db) issued again h =
      let same = ok-injective h in inl (ap (λ g. ok (g.0)) same, ap (λ g. g.1) same)
  or_retry-cases (raise e) issued again h = elim (Bool-cases (is_collision e)) [
    | inl c ↦ inr (rw (c, or_retry) at h)
    | inr c ↦ absurd (raise-ne-ok (rw (c, or_retry) at h))
  ]

  row_of-new :
      (db : ClientDb) (row : StoredClient)
      → any (λ c. c.key_id == row.key_id) db.clients ≡ false
      → row_of row.key_id (db.clients ++ row ∷ []) ≡ some row
  row_of-new db row h = row_of-snoc db.clients row h

  admitted_at :
      (db : ClientDb) (issued : IssuedClient) (name : Text) (created now : ℕ)
      → parse_token issued.token ≡ ok (issued.key_id, issued.secret)
      → row_of issued.key_id db.clients
        ≡ some (new_row issued.client_id name issued.key_id (sha256 issued.secret) created)
      → authenticate sha256 db (aware now) issued.token
        ≡ ok (record { client_id = issued.client_id; name = name; key_id = issued.key_id })
  unfolding authenticate find_client_by_key_id read_client utc utc_or_none utc_time admit is_expired
      new_row
  admitted_at db issued name created now parsed found =
      rw (parsed, ◌>>=◌)
        (rw (found, ◌>>=◌)
          (rw ((list_beq_iff (sha256 issued.secret) (sha256 issued.secret)).1 refl, ◌>>=◌)))

  -- the provider returns bytes
  abbrev pub GivesBytes : Entropy → Type 0
  GivesBytes entropy = (i : ℕ) → AreBytes (entropy.key_bytes i) × AreBytes (entropy.secret_bytes i)

  module _ (entropy : Entropy) (gives : GivesBytes entropy) where
    attempt-IsIssued :
        (n i : ℕ) (db : ClientDb) (name : Text) (ks : List Text) (now : ℕ) {db' : ClientDb}
        {issued : IssuedClient}
        → attempt sha256 entropy n i db name ks now ≡ ok (db', issued)
        → IsIssued db name now db' issued
    unfolding attempt
    attempt-IsIssued zero i db name ks now h = absurd (raise-ne-ok h)
    attempt-IsIssued (suc n) i db name ks now {db'} {issued} h =
        let key_bytes = entropy.key_bytes i in
        let secret = entropy.secret_bytes i in
        let (_, made, _) = >>=-eq_ok (issue_token sha256 key_bytes secret) _ h in
        let (lk, ls) = issue_token-eq_ok key_bytes secret made in
        let (hk, hs) = gives i in
        let (token, printed, parsed) =
          parse_token-issue_token sha256 key_bytes secret hk hs lk ls in
        let row = new_row (entropy.uuid4 i) name (to_hex key_bytes) (sha256 secret) now in
        elim (or_retry-cases (save_client db row ks) _ _ (rw (printed, ◌>>=◌) at h)) [
          | inl (stored, same) ↦ subst (IsIssued db name now db') same (record {
            row = row;
            saved = save_client-IsSaved db row ks stored;
            written = refl;
            parsed = parsed;
            name_kept = refl;
          })
          | inr again ↦ attempt-IsIssued n (i + 1) db name ks now again
        ]

    -- A client that is created gets a row of its own, active and without expiry, that keeps the
    -- digest of the secret and not the secret; its token is parsed to the row's key and the secret.
    pub create_client-IsIssued :
        (db : ClientDb) (name : Text) (ks : List Text) (now : ℕ) {db' : ClientDb}
        {issued : IssuedClient}
        → create_client sha256 entropy (aware now) db name ks ≡ ok (db', issued)
        → IsIssued db name now db' issued
    unfolding create_client utc_time
    create_client-IsIssued db name ks now h =
        let (_, _, h1) = >>=-eq_ok (require (not (is_blank name)) client_admin) _ h in
        let (_, _, h2) = >>=-eq_ok (require (not (any is_blank ks)) client_admin) _ h1 in
        attempt-IsIssued 3 0 db name ks now h2

    -- A token that was issued is admitted at any time, as the client that was created.
    pub created_admitted :
        (db : ClientDb) (name : Text) (ks : List Text) (created now : ℕ) {db' : ClientDb}
        {issued : IssuedClient}
        → create_client sha256 entropy (aware created) db name ks ≡ ok (db', issued)
        → authenticate sha256 db' (aware now) issued.token
          ≡ ok (record { client_id = issued.client_id; name = name; key_id = issued.key_id })
    unfolding new_row
    created_admitted db name ks created now {db'} {issued} h =
        let i = create_client-IsIssued db name ks created h in
        let row = new_row issued.client_id name issued.key_id (sha256 issued.secret) created in
        let saved : IsSaved db row db' = subst (λ r. IsSaved db r db') i.written i.saved in
        admitted_at db' issued name created now i.parsed
          (ap (row_of issued.key_id) saved.appended ∙ row_of-new db row saved.new_key)
