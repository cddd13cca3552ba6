-- ===== src/Examples/Clients.antt =====
-- One client of one source: created, admitted, revoked.
use omf_retrieval.Admin.Access.{Entropy, authenticate, create_client, execute_authorized, new_row}
use omf_retrieval.Admin.Access.Issue.{IsIssued, create_client-IsIssued, created_admitted}
use omf_retrieval.Admin.Access.Laws.{
  IsAdmitted, IsGuarded, authenticate-IsAdmitted, execute_authorized-IsGuarded, revoked_denied,
}
use omf_retrieval.Admin.Base64.{AreBytes, Bytes, b64_encode}
use omf_retrieval.Admin.Store.{ClientDb, revoke_client, save_client}
use omf_retrieval.Admin.Store.History.{
  IsClientDb, IsRevoked, Steps, Steps-IsClientDb, Steps-IsRevoked, next, revoke_client-IsRevoked,
  revoked, saved, start,
}
use omf_retrieval.Admin.Tokens.{
  AuthenticatedClient, AuthorizedSource, IssuedClient, aware, format_token, parse_token,
}
use omf_retrieval.Admin.Tokens.Laws.{parse_token-canonical}
use omf_retrieval.Prelude.{Result, [], arith, length, ok, refl, true, ◌++◌, ◌∷◌, ◌≡◌, ◌≢◌}
use omf_retrieval.Prelude.Text.{Text, codes, is_hex_of}

-- stands for SHA-256
abbrev same_bytes : Bytes → Bytes
same_bytes bs = bs

abbrev key_bytes : Bytes
key_bytes = 1 ∷ 2 ∷ 3 ∷ 4 ∷ 5 ∷ 6 ∷ 7 ∷ 248 ∷ []

abbrev eight : Bytes
eight = 255 ∷ 0 ∷ 17 ∷ 96 ∷ 7 ∷ 200 ∷ 31 ∷ 64 ∷ []

abbrev secret_bytes : Bytes
secret_bytes = eight ++ (eight ++ (eight ++ eight))

abbrev entropy : Entropy
entropy = record { key_bytes = λ i. key_bytes; secret_bytes = λ i. secret_bytes; uuid4 = λ i. i }

abbrev no_clients : ClientDb
no_clients = record { sources = (codes "omf", 5) ∷ []; clients = []; grants = [] }

abbrev key : Text
key = codes "01020304050607f8"

abbrev issued_client : IssuedClient
issued_client = record {
  client_id = 0;
  name = codes "n";
  key_id = key;
  token = codes "omfr_01020304050607f8._wARYAfIH0D_ABFgB8gfQP8AEWAHyB9A_wARYAfIH0A";
  secret = secret_bytes;
}

abbrev one_client : ClientDb
one_client = record {
  sources = (codes "omf", 5) ∷ [];
  clients = new_row 0 (codes "n") key secret_bytes 100 ∷ [];
  grants = (0, 5) ∷ [];
}

abbrev admitted : AuthenticatedClient
admitted = record { client_id = 0; name = codes "n"; key_id = key }

created_run :
    create_client same_bytes entropy (aware 100) no_clients (codes "n") (codes "omf" ∷ [])
    ≡ ok (one_client, issued_client)
unfolding create_client new_row
created_run = refl

admitted_run : authenticate same_bytes one_client (aware 200) issued_client.token ≡ ok admitted
unfolding authenticate new_row
admitted_run = refl

parsed_run : parse_token issued_client.token ≡ ok (key, secret_bytes)
unfolding parse_token
parsed_run = refl

abbrev are_key_bytes : AreBytes key_bytes
are_key_bytes = (
  omega arith,
  (
    omega arith,
    (omega arith, (omega arith, (omega arith, (omega arith, (omega arith, (omega arith, tt)))))),
  ),
)

are_eight : (rest : Bytes) → AreBytes rest → AreBytes (eight ++ rest)
are_eight rest h = (
  omega arith,
  (
    omega arith,
    (omega arith, (omega arith, (omega arith, (omega arith, (omega arith, (omega arith, h)))))),
  ),
)

are_secret_bytes : AreBytes secret_bytes
are_secret_bytes =
    are_eight (eight ++ (eight ++ eight))
      (are_eight (eight ++ eight) (are_eight eight (are_eight [] tt)))

authenticate-IsAdmitted_example : IsAdmitted same_bytes one_client 200 issued_client.token admitted
authenticate-IsAdmitted_example =
    authenticate-IsAdmitted same_bytes one_client 200 issued_client.token admitted_run

revoked_denied_example :
    authenticate same_bytes (revoke_client one_client key).0 (aware 200) issued_client.token
    ≢ ok admitted
unfolding revoke_client new_row
revoked_denied_example =
    revoked_denied same_bytes key one_client (revoke_client one_client key).0 refl start 200
      issued_client.token secret_bytes parsed_run admitted

created_admitted_example :
    authenticate same_bytes one_client (aware 300) issued_client.token ≡ ok admitted
created_admitted_example =
    created_admitted same_bytes entropy (λ i. (are_key_bytes, are_secret_bytes)) no_clients
      (codes "n") (codes "omf" ∷ []) 100 300 created_run

create_client-IsIssued_example :
    IsIssued same_bytes no_clients (codes "n") 100 one_client issued_client
create_client-IsIssued_example =
    create_client-IsIssued same_bytes entropy (λ i. (are_key_bytes, are_secret_bytes)) no_clients
      (codes "n") (codes "omf" ∷ []) 100 created_run

abbrev read_source : AuthorizedSource → Result Text
read_source s = ok s.source_key

execute_authorized-IsGuarded_example :
    IsGuarded same_bytes one_client (aware 200) 200 issued_client.token (codes "omf") read_source (
      execute_authorized same_bytes one_client
        (aware 200)
        200
        issued_client.token
        (codes "omf")
        read_source)
execute_authorized-IsGuarded_example =
    execute_authorized-IsGuarded same_bytes one_client (aware 200) 200 issued_client.token
      (codes "omf") read_source

fresh_db : IsClientDb no_clients
fresh_db = record { ids_apart = tt; keys_apart = tt; digests = tt }

saved_run :
    save_client no_clients (new_row 0 (codes "n") key secret_bytes 100) (codes "omf" ∷ [])
    ≡ ok one_client
unfolding save_client new_row
saved_run = refl

one_step : Steps no_clients one_client
one_step = next no_clients one_client start (saved _ _ one_client saved_run)

Steps-IsClientDb_example : IsClientDb one_client
Steps-IsClientDb_example = Steps-IsClientDb no_clients one_client one_step fresh_db

one-IsRevoked : IsRevoked key (revoke_client one_client key).0
unfolding revoke_client new_row
one-IsRevoked = revoke_client-IsRevoked key one_client refl

Steps-IsRevoked_example :
    IsRevoked key (revoke_client (revoke_client one_client key).0 (codes "other")).0
Steps-IsRevoked_example =
    Steps-IsRevoked key (revoke_client one_client key).0
      (revoke_client (revoke_client one_client key).0 (codes "other")).0
      (next _ _ start (revoked (codes "other"))) one-IsRevoked

parse_token-canonical_example :
    (issued_client.token ≡ format_token key (b64_encode secret_bytes))
    × (is_hex_of 16 key ≡ true)
    × (length secret_bytes ≡ 32)
parse_token-canonical_example =
    parse_token-canonical issued_client.token key secret_bytes parsed_run
