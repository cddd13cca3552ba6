-- ===== src/Admin/Store/Laws.antt =====
-- The effect of the operations of infrastructure/database/repository_auth.py on the rows.
use omf_retrieval.Admin.Store.{
  ClientDb, insert_client, insert_grants, is_client_status, is_grant, resolve_source_ids, revoke,
  row_of, save_client, validate_client,
}
use omf_retrieval.Admin.Tokens.{StoredClient}
use omf_retrieval.Prelude.{
  >>=-eq_ok, Bool-cases, List, Option-cases, [], any, ap, arith, false, inl, inr, integrity_error,
  key_id_collision, length, list_beq_iff, list_eq, map, nat_beq, nat_eq, not, not-eq_true, ok,
  ok-injective, raise-ne-ok, refl, require, require-eq_ok, some, some_injective, sym, true-ne-false,
  ◌&&◌, ◌++◌, ◌==◌, ◌∙◌, ◌∷◌, ◌≡◌,
}
use omf_retrieval.Prelude.Dict.{get}
use omf_retrieval.Prelude.Sort.{sorted}
use omf_retrieval.Prelude.Text.{Text, is_blank, text_lt}
use omf_retrieval.Search.Ports.{Uuid}

-- the rows that a lookup finds
pub row_of-append :
    (k : Text) (cs ds : List StoredClient) {c : StoredClient}
    → row_of k cs ≡ some c
    → row_of k (cs ++ ds) ≡ some c
unfolding row_of
row_of-append k [] ds h = cc
row_of-append k (x ∷ cs) ds h = elim (Bool-cases (x.key_id == k)) [
  | inl e ↦ rw (e, row_of) (rw (e, row_of) at h)
  | inr e ↦ rw (e, row_of) (row_of-append k cs ds (rw (e, row_of) at h))
]

pub row_of-snoc :
    (cs : List StoredClient) (d : StoredClient)
    → any (λ c. c.key_id == d.key_id) cs ≡ false
    → row_of d.key_id (cs ++ d ∷ []) ≡ some d
unfolding row_of any
row_of-snoc [] d h = rw ((list_beq_iff d.key_id d.key_id).1 refl, row_of)
row_of-snoc (x ∷ cs) d h = elim (Bool-cases (x.key_id == d.key_id)) [
  | inl e ↦ absurd (true-ne-false (rw (e, any) at h))
  | inr e ↦ rw (e, row_of) (row_of-snoc cs d (rw (e, any) at h))
]

pub row_of-key :
    (k : Text) (cs : List StoredClient) {c : StoredClient} → row_of k cs ≡ some c → c.key_id ≡ k
unfolding row_of
row_of-key k [] h = cc
row_of-key k (x ∷ cs) {c} h = elim (Bool-cases (x.key_id == k)) [
  | inl e ↦
      let same : x ≡ c = some_injective (rw (e, row_of) at h) in
      ap (λ (z : StoredClient). z.key_id) (sym same) ∙ (list_beq_iff x.key_id k).0 e
  | inr e ↦ row_of-key k cs (rw (e, row_of) at h)
]

pub revoke-key : (k : Text) (c : StoredClient) → (revoke k c).key_id ≡ c.key_id
unfolding revoke
revoke-key k c = ground arith

pub revoke-id : (k : Text) (c : StoredClient) → (revoke k c).id ≡ c.id
unfolding revoke
revoke-id k c = ground arith

-- a row keeps its place when a key is revoked
pub row_of-revoke :
    (k j : Text) (cs : List StoredClient) {c : StoredClient}
    → row_of k cs ≡ some c
    → row_of k (map (revoke j) cs) ≡ some (revoke j c)
unfolding row_of revoke
row_of-revoke k j [] h = cc
row_of-revoke k j (x ∷ cs) {c} h = elim (Bool-cases (x.key_id == k)) [
  | inl e ↦
      let same : x ≡ c = some_injective (rw (e, row_of) at h) in
      rw (revoke-key j x, e, row_of) (ap (λ z. some (revoke j z)) same)
  | inr e ↦ rw (revoke-key j x, e, row_of) (row_of-revoke k j cs (rw (e, row_of) at h))
]

pub insert_grants-eq_ok :
    (db : ClientDb) (client : Uuid) (ks : List Text) {db' : ClientDb}
    → insert_grants db client ks ≡ ok db'
    → (db'.clients ≡ db.clients) × (db'.sources ≡ db.sources)
unfolding insert_grants
insert_grants-eq_ok db client [] {db'} h =
    let same : db ≡ db' = ok-injective h in
    (ap (λ (d : ClientDb). d.clients) (sym same), ap (λ (d : ClientDb). d.sources) (sym same))
insert_grants-eq_ok db client (k ∷ ks) h = elim (Option-cases (get k db.sources)) [
  | inl e ↦ absurd (raise-ne-ok (rw (e, insert_grants) at h))
  | inr (source, e) ↦
      let more = record db { grants = db.grants ++ (client, source) ∷ [] } in
      let (_, _, h') =
        >>=-eq_ok (require (not (any (is_grant client source) db.grants)) integrity_error)
          (λ _. insert_grants more client ks) (rw (e, insert_grants) at h) in
      insert_grants-eq_ok more client ks h'
]

-- what a saved client leaves in the tables
pub record IsSaved (db : ClientDb) (client : StoredClient) (db' : ClientDb) : Type 0 where
  pub appended : db'.clients ≡ db.clients ++ client ∷ []
  pub new_id : any (λ c. c.id == client.id) db.clients ≡ false
  pub new_key : any (λ c. c.key_id == client.key_id) db.clients ≡ false
  pub hash_length : length client.token_hash ≡ 32
  pub sources : db'.sources ≡ db.sources

inserted :
    (db : ClientDb) (client : StoredClient) {db' : ClientDb}
    → insert_client db client ≡ ok db'
    → IsSaved db client db'
unfolding insert_client
inserted db client {db'} h =
    let tests =
      not (is_blank client.name)
      && nat_beq (length client.key_id) 16
      && nat_beq (length client.token_hash) 32
      && is_client_status client.status in
    let (_, good, h1) = >>=-eq_ok (require tests integrity_error) _ h in
    let (_, ids, h2) =
      >>=-eq_ok (require (not (any (λ c. c.id == client.id) db.clients)) integrity_error) _ h1 in
    let (_, keys_new, h3) =
      >>=-eq_ok (require (not (any (λ c. c.key_id == client.key_id) db.clients)) key_id_collision) _
        h2 in
    let same : record db { clients = db.clients ++ client ∷ [] } ≡ db' = ok-injective h3 in
    let hash = require-eq_ok tests integrity_error good in
    record {
      appended = ap (λ (d : ClientDb). d.clients) (sym same);
      new_id = not-eq_true _ (require-eq_ok _ _ ids);
      new_key = not-eq_true _ (require-eq_ok _ _ keys_new);
      hash_length = ground arith;
      sources = ap (λ (d : ClientDb). d.sources) (sym same);
    }

-- A client that is saved is the last row; its identifier and its key are new.
pub save_client-IsSaved :
    (db : ClientDb) (client : StoredClient) (ks : List Text) {db' : ClientDb}
    → save_client db client ks ≡ ok db'
    → IsSaved db client db'
unfolding save_client
save_client-IsSaved db client ks {db'} h =
    let (_, _, h1) = >>=-eq_ok (validate_client client ks) _ h in
    let (_, _, h2) = >>=-eq_ok (resolve_source_ids db ks) _ h1 in
    let (middle, made, h3) = >>=-eq_ok (insert_client db client) _ h2 in
    let s = inserted db client made in
    let (rows, profiles) = insert_grants-eq_ok middle client.id (sorted text_lt ks) h3 in
    record {
      appended = rows ∙ s.appended;
      new_id = s.new_id;
      new_key = s.new_key;
      hash_length = s.hash_length;
      sources = profiles ∙ s.sources;
    }
