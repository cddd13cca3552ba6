-- ===== src/Admin/Tokens/Laws.antt =====
-- Tokens of application/admin/tokens.py: printing and parsing.
use mathlib.Core.Path.{ap₂}
use omf_retrieval.Admin.Base64.{
  AreBytes, Bytes, b64_decode, b64_decode-encode, b64_encode, b64_encode-digits, is_digit,
  length-b64_encode, length-to_hex, to_hex, to_hex-is_hex,
}
use omf_retrieval.Admin.Tokens.{accept_secret, format_token, issue_token, match_token, parse_token}
use omf_retrieval.Prelude.{
  &&-intro, &&-split, Bool, Bool-cases, Option-cases, [], all, ap, arith, drop, drop-append,
  drop-suc, false, if◌then◌else◌, inl, inr, length, list_beq_iff, list_eq, nat_beq, nat_beq_iff,
  nat_eq, none, ok, ok-injective, raise-ne-ok, refl, some, some_injective, sym, take, take-append,
  take-append-drop, true, ◌&&◌, ◌*◌, ◌++◌, ◌+◌, ◌/◌, ◌==◌, ◌∙◌, ◌∷◌, ◌≡◌,
}
use omf_retrieval.Prelude.Text.{Text, codes, is_hex_of, starts_with}

-- what is printed matches the pattern, with its parts as the groups
pub match_token-format :
    (key_id encoded : Text)
    → is_hex_of 16 key_id ≡ true
    → length encoded ≡ 43
    → all is_digit encoded ≡ true
    → match_token (format_token key_id encoded) ≡ some (key_id, encoded)
unfolding match_token format_token is_hex_of
match_token-format key_id encoded hex len digits =
    let body : Text = key_id ++ 46 ∷ encoded in
    let key_length : length key_id ≡ 16 = ground arith in
    let t16 : take 16 body ≡ key_id = take-append 16 key_id (46 ∷ encoded) key_length in
    let d16 : drop 16 body ≡ 46 ∷ encoded = drop-append 16 key_id (46 ∷ encoded) key_length in
    let d17 : drop 17 body ≡ encoded = drop-suc 16 46 body encoded d16 in
    ground (arith, t16, d16, d17)

issued_hex :
    (key_bytes : Bytes)
    → AreBytes key_bytes
    → length key_bytes ≡ 8
    → is_hex_of 16 (to_hex key_bytes) ≡ true
unfolding is_hex_of
issued_hex key_bytes h l =
    &&-intro _ _
      ((nat_beq_iff (length (to_hex key_bytes)) 16).1 (length-to_hex key_bytes ∙ ap (λ n. n * 2) l))
      (to_hex-is_hex key_bytes h)

parse_matched :
    (token key_id : Text) (secret : Bytes)
    → match_token token ≡ some (key_id, b64_encode secret)
    → b64_decode (b64_encode secret) ≡ some secret
    → length secret ≡ 32
    → parse_token token ≡ ok (key_id, secret)
unfolding parse_token
parse_matched token key_id secret m d l =
    rw (m, parse_token)
      (rw d (
        rw (
          (nat_beq_iff (length secret) 32).1 l,
          (list_beq_iff (b64_encode secret) (b64_encode secret)).1 refl,
          accept_secret,
        )))

-- An issued token is parsed to its own key and secret.
pub parse_token-issue_token :
    (sha256 : Bytes → Bytes) (key_bytes secret : Bytes)
    → AreBytes key_bytes
    → AreBytes secret
    → length key_bytes ≡ 8
    → length secret ≡ 32
    → (token : Text) × (issue_token sha256 key_bytes secret
        ≡ ok (to_hex key_bytes, token, secret, sha256 secret))
      × (parse_token token ≡ ok (to_hex key_bytes, secret))
unfolding issue_token parse_token
parse_token-issue_token sha256 key_bytes secret hk hs lk ls =
    let encoded = b64_encode secret in
    let hex : is_hex_of 16 (to_hex key_bytes) ≡ true = issued_hex key_bytes hk lk in
    let len : length encoded ≡ 43 = length-b64_encode secret ∙ ap (λ n. (n * 4 + 2) / 3) ls in
    let matched =
      match_token-format (to_hex key_bytes) encoded hex len (b64_encode-digits secret hs) in
    (
      format_token (to_hex key_bytes) encoded,
      rw ((nat_beq_iff (length key_bytes) 8).1 lk, (nat_beq_iff (length secret) 32).1 ls),
      parse_matched (format_token (to_hex key_bytes) encoded) (to_hex key_bytes) secret matched
          (b64_decode-encode secret hs) ls,
    )

starts_with-split : (s p : Text) → starts_with s p ≡ true → s ≡ p ++ drop (length p) s
unfolding starts_with drop
starts_with-split s [] h = refl
starts_with-split [] (c ∷ p) h = cc
starts_with-split (d ∷ s) (c ∷ p) h = ground (arith, starts_with-split s p)

if-eq_some :
    {A : Type 0} (b : Bool) (x y : A) → (if b then some x else none) ≡ some y → (b ≡ true) × (x ≡ y)
if-eq_some true x y h = (refl, some_injective h)
if-eq_some false x y h = cc

all_five :
    (a b c d e : Bool) → (a && b && c && d && e) ≡ true → (a ≡ true) × (b ≡ true) × (c ≡ true)
all_five true true true d e h = (refl, refl, refl)
all_five true true false d e h = cc
all_five true false c d e h = cc
all_five false b c d e h = cc

-- what matches is the printed form of its groups
pub match_token_sound :
    (token key_id encoded : Text)
    → match_token token ≡ some (key_id, encoded)
    → (token ≡ format_token key_id encoded) × (is_hex_of 16 key_id ≡ true)
unfolding match_token format_token
match_token_sound token key_id encoded h =
    let body = drop 5 token in
    let rest = drop 1 (drop 16 body) in
    let chosen = if-eq_some _ _ _ h in
    let tests = all_five _ _ _ _ _ chosen.0 in
    let p : token ≡ codes "omfr_" ++ body = starts_with-split token (codes "omfr_") tests.0 in
    let q : drop 16 body ≡ 46 ∷ rest = starts_with-split (drop 16 body) (codes ".") tests.2 in
    let r : drop 17 body ≡ rest = drop-suc 16 46 body rest q in
    let t : take 16 body ++ drop 16 body ≡ body = take-append-drop 16 body in
    let key : take 16 body ≡ key_id = ap (λ g. g.0) chosen.1 in
    let secret : drop 17 body ≡ encoded = ap (λ g. g.1) chosen.1 in (cc, rw key at tests.1)

accept_secret_sound :
    (key_id encoded : Text) (secret : Bytes) (key' : Text) (secret' : Bytes)
    → accept_secret key_id encoded secret ≡ ok (key', secret')
    → (key_id ≡ key') × (encoded ≡ b64_encode secret') × (length secret' ≡ 32)
unfolding accept_secret
accept_secret_sound key_id encoded secret key' secret' h =
    elim (Bool-cases (nat_beq (length secret) 32 && b64_encode secret == encoded)) [
      | inl accepted ↦
          let parts = &&-split _ _ accepted in
          let same = ok-injective (rw accepted at h) in
          let l = (nat_beq_iff (length secret) 32).0 parts.0 in
          let e = (list_beq_iff (b64_encode secret) encoded).0 parts.1 in
          let s : secret ≡ secret' = ap (λ g. g.1) same in
          (ap (λ g. g.0) same, sym e ∙ ap b64_encode s, ap length (sym s) ∙ l)
      | inr refused ↦ absurd (raise-ne-ok (rw refused at h))
    ]

-- A token that is accepted is the one that is printed for its key and its secret of 32 bytes.
pub parse_token-canonical :
    (token key_id : Text) (secret : Bytes)
    → parse_token token ≡ ok (key_id, secret)
    → (token ≡ format_token key_id (b64_encode secret))
      × (is_hex_of 16 key_id ≡ true)
      × (length secret ≡ 32)
unfolding parse_token
parse_token-canonical token key_id secret h = elim (Option-cases (match_token token)) [
  | inl no_match ↦ absurd (raise-ne-ok (rw (no_match, parse_token) at h))
  | inr (groups, matched) ↦ elim (Option-cases (b64_decode groups.1)) [
    | inl no_secret ↦ absurd (raise-ne-ok (rw no_secret at (rw (matched, parse_token) at h)))
    | inr (decoded, is_decoded) ↦
        let accepted : accept_secret groups.0 groups.1 decoded ≡ ok (key_id, secret) =
          (rw is_decoded at (rw (matched, parse_token) at h)) in
        let a = accept_secret_sound groups.0 groups.1 decoded key_id secret accepted in
        let m = match_token_sound token groups.0 groups.1 matched in
        (m.0 ∙ ap₂ format_token a.0 a.1, rw a.0 at m.1, a.2)
  ]
]
