-- ===== src/Admin/Store/History.antt =====
-- The client tables of infrastructure/database/repository_auth.py over time: every sequence of
-- saved and revoked clients.
use mathlib.Core.Path.{ap₂, subst}
use omf_retrieval.Admin.Store.{ClientDb, revoke, revoke_client, row_of, save_client}
use omf_retrieval.Admin.Store.Laws.{
  revoke-id, revoke-key, row_of-append, row_of-key, row_of-revoke, save_client-IsSaved,
}
use omf_retrieval.Admin.Tokens.{StoredClient}
use omf_retrieval.Prelude.{
  All, All-append, Bool-cases, List, [], any, ap, arith, false, inl, inr, length, list_beq_iff,
  list_eq, map, nat_beq_iff, nat_eq, ok, refl, some, sym, true, true-ne-false, ◌++◌, ◌==◌, ◌∙◌, ◌∷◌,
  ◌≡◌, ◌≢◌,
}
use omf_retrieval.Prelude.Dict.{IsDistinct}
use omf_retrieval.Prelude.Text.{Text, codes}
use omf_retrieval.Search.Ports.{Uuid}

-- a change by one of the two operations
pub data Step (db : ClientDb) : ClientDb → Type 0 where
  saved :
      (client : StoredClient) (ks : List Text) (db' : ClientDb)
      → save_client db client ks ≡ ok db'
      → Step db db'
  revoked : (key_id : Text) → Step db (revoke_client db key_id).0

-- any number of changes
pub data Steps (db : ClientDb) : ClientDb → Type 0 where
  start : Steps db db
  next : (middle last : ClientDb) → Steps db middle → Step middle last → Steps db last

abbrev pub row_ids : List StoredClient → List Uuid
row_ids = map (λ c. c.id)

abbrev pub row_keys : List StoredClient → List Text
row_keys = map (λ c. c.key_id)

-- identifiers and keys are unique, and each token is kept as a digest of 32 bytes
pub record IsClientDb (db : ClientDb) : Type 0 where
  pub ids_apart : IsDistinct (row_ids db.clients)
  pub keys_apart : IsDistinct (row_keys db.clients)
  pub digests : All (λ c. length c.token_hash ≡ 32) db.clients

IsDistinct-snoc :
    {A : Type 0} (xs : List A) (y : A)
    → IsDistinct xs
    → All (λ x. x ≢ y) xs
    → IsDistinct (xs ++ y ∷ [])
IsDistinct-snoc [] y d n = (tt, tt)
IsDistinct-snoc (x ∷ xs) y d n =
    (All-append (λ z. x ≢ z) xs (y ∷ []) d.0 (n.0, tt), IsDistinct-snoc xs y d.1 n.1)

new_id-All :
    (i : Uuid) (cs : List StoredClient)
    → any (λ c. c.id == i) cs ≡ false
    → All (λ x. x ≢ i) (row_ids cs)
unfolding any
new_id-All i [] h = tt
new_id-All i (c ∷ cs) h = (λ e. ground (arith, nat_beq_iff c.id i), new_id-All i cs (ground arith))

new_key-All :
    (k : Text) (cs : List StoredClient)
    → any (λ c. c.key_id == k) cs ≡ false
    → All (λ x. x ≢ k) (row_keys cs)
unfolding any
new_key-All k [] h = tt
new_key-All k (c ∷ cs) h =
    (λ e. ground (arith, list_beq_iff c.key_id k), new_key-All k cs (ground arith))

ids-append :
    (cs : List StoredClient) (d : StoredClient) → row_ids (cs ++ d ∷ []) ≡ row_ids cs ++ d.id ∷ []
ids-append [] d = refl
ids-append (c ∷ cs) d = ap (◌∷◌ c.id) (ids-append cs d)

keys-append :
    (cs : List StoredClient) (d : StoredClient)
    → row_keys (cs ++ d ∷ []) ≡ row_keys cs ++ d.key_id ∷ []
keys-append [] d = refl
keys-append (c ∷ cs) d = ap (◌∷◌ c.key_id) (keys-append cs d)

ids-revoke : (k : Text) (cs : List StoredClient) → row_ids (map (revoke k) cs) ≡ row_ids cs
ids-revoke k [] = refl
ids-revoke k (c ∷ cs) = ap₂ ◌∷◌ (revoke-id k c) (ids-revoke k cs)

keys-revoke : (k : Text) (cs : List StoredClient) → row_keys (map (revoke k) cs) ≡ row_keys cs
keys-revoke k [] = refl
keys-revoke k (c ∷ cs) = ap₂ ◌∷◌ (revoke-key k c) (keys-revoke k cs)

digests-revoke :
    (k : Text) (cs : List StoredClient)
    → All (λ c. length c.token_hash ≡ 32) cs
    → All (λ c. length c.token_hash ≡ 32) (map (revoke k) cs)
unfolding revoke
digests-revoke k [] a = tt
digests-revoke k (c ∷ cs) a = (ground (arith, a.0), digests-revoke k cs a.1)

Step-IsClientDb : (db db' : ClientDb) → Step db db' → IsClientDb db → IsClientDb db'
unfolding revoke_client
Step-IsClientDb db last (saved client ks db' h) i =
    let s = save_client-IsSaved db client ks h in
    record {
      ids_apart = subst IsDistinct (sym (ap row_ids s.appended ∙ ids-append db.clients client)) (
          IsDistinct-snoc (row_ids db.clients) client.id i.ids_apart
            (new_id-All client.id db.clients s.new_id));
      keys_apart = subst IsDistinct (sym (ap row_keys s.appended ∙ keys-append db.clients client)) (
          IsDistinct-snoc (row_keys db.clients) client.key_id i.keys_apart
            (new_key-All client.key_id db.clients s.new_key));
      digests = subst (All (λ c. length c.token_hash ≡ 32)) (sym s.appended) (
          All-append (λ c. length c.token_hash ≡ 32) db.clients (client ∷ []) i.digests
            (s.hash_length, tt));
    }
Step-IsClientDb db db' (revoked k) i = record {
  ids_apart = subst IsDistinct (sym (ids-revoke k db.clients)) i.ids_apart;
  keys_apart = subst IsDistinct (sym (keys-revoke k db.clients)) i.keys_apart;
  digests = digests-revoke k db.clients i.digests;
}

-- Saving and revoking clients, in any order, keeps identifiers and keys unique and each token a
-- digest of 32 bytes.
pub Steps-IsClientDb : (db db' : ClientDb) → Steps db db' → IsClientDb db → IsClientDb db'
Steps-IsClientDb db db' start i = i
Steps-IsClientDb db last (next middle db' before s) i =
    Step-IsClientDb middle db' s (Steps-IsClientDb db middle before i)

-- the row of a key has been revoked
abbrev pub IsRevoked : Text → ClientDb → Type 0
IsRevoked k db = (c : StoredClient) × (row_of k db.clients ≡ some c) × (c.status ≡ codes "revoked")

still_revoked :
    (j : Text) (c : StoredClient)
    → c.status ≡ codes "revoked"
    → (revoke j c).status ≡ codes "revoked"
unfolding revoke
still_revoked j c h = ground arith

Step-IsRevoked : (k : Text) (db db' : ClientDb) → Step db db' → IsRevoked k db → IsRevoked k db'
unfolding revoke_client
Step-IsRevoked k db last (saved client ks db' h) (c, found, status) =
    let s = save_client-IsSaved db client ks h in
    (c, ap (row_of k) s.appended ∙ row_of-append k db.clients (client ∷ []) found, status)
Step-IsRevoked k db db' (revoked j) (c, found, status) =
    (revoke j c, row_of-revoke k j db.clients found, still_revoked j c status)

-- A revoked key stays revoked, whatever is saved or revoked later.
pub Steps-IsRevoked :
    (k : Text) (db db' : ClientDb) → Steps db db' → IsRevoked k db → IsRevoked k db'
Steps-IsRevoked k db db' start r = r
Steps-IsRevoked k db last (next middle db' before s) r =
    Step-IsRevoked k middle db' s (Steps-IsRevoked k db middle before r)

revoke-status : (k : Text) (c : StoredClient) → c.key_id ≡ k → (revoke k c).status ≡ codes "revoked"
unfolding revoke
revoke-status k c h = ground (arith, list_beq_iff c.key_id k)

any-row_of :
    (k : Text) (cs : List StoredClient)
    → any (λ c. c.key_id == k) cs ≡ true
    → (c : StoredClient) × (row_of k cs ≡ some c)
unfolding any row_of
any-row_of k [] h = absurd (true-ne-false (sym h))
any-row_of k (c ∷ cs) h = elim (Bool-cases (c.key_id == k)) [
  | inl e ↦ (c, rw (e, row_of))
  | inr e ↦ rw (e, row_of) (any-row_of k cs (rw (e, any) at h))
]

-- a revocation that reports a row has revoked the key
pub revoke_client-IsRevoked :
    (k : Text) (db : ClientDb) → (revoke_client db k).1 ≡ true → IsRevoked k (revoke_client db k).0
unfolding revoke_client
revoke_client-IsRevoked k db h =
    let (c, found) = any-row_of k db.clients h in
    (
      revoke k c,
      row_of-revoke k k db.clients found,
      revoke-status k c (row_of-key k db.clients found),
    )
