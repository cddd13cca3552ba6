-- ===== src/Search/Rrf/Spec.antt =====
-- What a fusion computes, with the dictionaries and the loops gone, and that the loops of
-- application/search/rrf.py compute it.
use mathlib.Core.List.{append-nil, append_assoc}
use mathlib.Core.Path.{subst}
use omf_retrieval.Prelude.{
  >>=-eq_ok, All, Bool, List, Option, Option-cases, Result, Result-cases, [], ap, arith, contains,
  false, if◌then◌else◌, inl, inr, is_some, length, nat_beq, nat_eq, none, ok, refl, some, sym, true,
  ℕ, ◌++◌, ◌+◌, ◌==◌, ◌>>=◌, ◌||◌, ◌∙◌, ◌∷◌, ◌≡◌, ◌≤◌,
}
use omf_retrieval.Prelude.Dict.{Dict, get, get-put, keys, put, put_of_none}
use omf_retrieval.Search.Ports.{Candidate, Uuid, candidate_beq_iff}
use omf_retrieval.Search.Rrf.{remember_candidate, remember_lane}

-- the first occurrence of each identifier that is not among `seen`
unfoldable pub fresh : List Uuid → List Candidate → List Candidate
unfolding contains
fresh seen [] = []
fresh seen (c ∷ cs) = elim (contains seen c.chunk_id) [
  | true ↦ fresh seen cs
  | false ↦ c ∷ fresh (seen ++ c.chunk_id ∷ []) cs
]

-- the position of the last occurrence of `id`, counted from `n`
unfoldable pub last_rank : Uuid → ℕ → Option ℕ → List Candidate → Option ℕ
last_rank id n found [] = found
last_rank id n found (c ∷ cs) = last_rank id (n + 1) (if c.chunk_id == id then some n else found) cs

abbrev pub rank_in : List Candidate → Uuid → Option ℕ
rank_in lane id = last_rank id 1 none lane

pub contains-append :
    (xs : List Uuid) (y z : Uuid) → contains (xs ++ y ∷ []) z ≡ (contains xs z || nat_beq y z)
unfolding contains
contains-append [] y z = ground arith
contains-append (x ∷ xs) y z = ground (arith, contains-append xs y z)

-- candidates that share an identifier are equal
abbrev pub IsConsistent : List Candidate → Type 0
IsConsistent [] = Unit
IsConsistent (c ∷ cs) = All (λ d. c.chunk_id ≡ d.chunk_id → c ≡ d) cs × IsConsistent cs

unfoldable pub ranks_of : ℕ → List Candidate → Dict Uuid ℕ → Dict Uuid ℕ
unfolding put
ranks_of n [] r = r
ranks_of n (c ∷ cs) r = ranks_of (n + 1) cs (put c.chunk_id n r)

unfoldable pub remember_all : List Candidate → Dict Uuid Candidate → Result (Dict Uuid Candidate)
unfolding remember_candidate
remember_all [] m = ok m
remember_all (c ∷ cs) m = do m' ← remember_candidate m c; remember_all cs m'

-- a lane's loop fills its two dictionaries independently
pub remember_lane-split :
    (n : ℕ) (cs : List Candidate) (m : Dict Uuid Candidate) (r : Dict Uuid ℕ)
    → remember_lane n cs m r ≡ (remember_all cs m >>= λ m'. ok (m', ranks_of n cs r))
unfolding remember_lane remember_all ranks_of
remember_lane-split n [] m r = refl
remember_lane-split n (c ∷ cs) m r = elim (Result-cases (remember_candidate m c)) [
  | inl (m', e) ↦ rw (e, ◌>>=◌) (remember_lane-split (n + 1) cs m' (put c.chunk_id n r))
  | inr (x, e) ↦ rw (e, ◌>>=◌)
]

pub remember_all-append :
    (xs ys : List Candidate) (m : Dict Uuid Candidate)
    → remember_all (xs ++ ys) m ≡ (remember_all xs m >>= remember_all ys)
unfolding remember_all
remember_all-append [] ys m = refl
remember_all-append (c ∷ cs) ys m = elim (Result-cases (remember_candidate m c)) [
  | inl (m', e) ↦ rw (e, ◌>>=◌) (remember_all-append cs ys m')
  | inr (x, e) ↦ rw (e, ◌>>=◌)
]

-- the rank that the loop leaves under `id`
pub get-ranks_of :
    (id n : ℕ) (cs : List Candidate) (r : Dict Uuid ℕ)
    → get id (ranks_of n cs r) ≡ last_rank id n (get id r) cs
unfolding ranks_of last_rank
get-ranks_of id n [] r = refl
get-ranks_of id n (c ∷ cs) r =
    get-ranks_of id (n + 1) cs (put c.chunk_id n r)
    ∙ ap (λ o. last_rank id (n + 1) o cs) (get-put c.chunk_id id n r)

abbrev pub entries : List Candidate → Dict Uuid Candidate
entries [] = []
entries (c ∷ cs) = (c.chunk_id, c) ∷ entries cs

-- what the dictionary holds under the identifier of `c` is `c`
abbrev pub Agrees : Dict Uuid Candidate → Candidate → Type 0
Agrees m c = (d : Candidate) → get c.chunk_id m ≡ some d → d ≡ c

pub contains-keys :
    (m : Dict Uuid Candidate) (id : Uuid) → contains (keys m) id ≡ is_some (get id m)
unfolding contains get
contains-keys [] id = refl
contains-keys ((j, d) ∷ m) id = ground (arith, contains-keys m id)

pub keys-append : (m n : Dict Uuid Candidate) → keys (m ++ n) ≡ keys m ++ keys n
keys-append [] n = refl
keys-append ((j, d) ∷ m) n = ap (λ l. j ∷ l) (keys-append m n)

Agrees-put :
    (c : Candidate) (m : Dict Uuid Candidate) (cs : List Candidate)
    → All (Agrees m) cs
    → All (λ d. c.chunk_id ≡ d.chunk_id → c ≡ d) cs
    → All (Agrees (put c.chunk_id c m)) cs
Agrees-put c m [] a k = tt
Agrees-put c m (d ∷ cs) a k =
    (λ x h. ground (arith, get-put c.chunk_id d.chunk_id c m, a.0 x), Agrees-put c m cs a.1 k.1)

-- a new candidate is remembered at the end, and a known one must be the same
remember_candidate_new :
    (m : Dict Uuid Candidate) (c : Candidate)
    → get c.chunk_id m ≡ none
    → remember_candidate m c ≡ ok (m ++ (c.chunk_id, c) ∷ [])
unfolding remember_candidate
remember_candidate_new m c h = rw (h, remember_candidate) (ap ok (put_of_none c.chunk_id c m h))

remember_candidate_known :
    (m : Dict Uuid Candidate) (c d : Candidate)
    → get c.chunk_id m ≡ some d
    → d ≡ c
    → remember_candidate m c ≡ ok m
unfolding remember_candidate
remember_candidate_known m c d h e = ground (arith, candidate_beq_iff d c)

pub Agrees-nil : (cs : List Candidate) → All (Agrees []) cs
unfolding get
Agrees-nil [] = tt
Agrees-nil (c ∷ cs) = (λ d h. cc, Agrees-nil cs)

-- Consistent candidates are remembered in the order of their first occurrence.
pub remember_all-fresh :
    (cs : List Candidate) (m : Dict Uuid Candidate)
    → All (Agrees m) cs
    → IsConsistent cs
    → remember_all cs m ≡ ok (m ++ entries (fresh (keys m) cs))
unfolding remember_all fresh
remember_all-fresh [] m a k = ap ok (sym (append-nil m))
remember_all-fresh (c ∷ cs) m a k = elim (Option-cases (get c.chunk_id m)) [
  | inl new ↦
      let m1 = m ++ (c.chunk_id, c) ∷ [] in
      let a1 : All (Agrees m1) cs =
        subst (λ z. All (Agrees z) cs) (put_of_none c.chunk_id c m new)
          (Agrees-put c m cs a.1 k.0) in
      let absent : contains (keys m) c.chunk_id ≡ false =
        contains-keys m c.chunk_id ∙ ap is_some new in
      rw (remember_candidate_new m c new, absent, fresh, ◌>>=◌)
        (remember_all-fresh cs m1 a1 k.1 ∙ ap ok (simp (keys-append, append_assoc)))
  | inr (d, old) ↦
      let present : contains (keys m) c.chunk_id ≡ true =
        contains-keys m c.chunk_id ∙ ap is_some old in
      rw (remember_candidate_known m c d old (a.0 d old), present, fresh, ◌>>=◌)
        (remember_all-fresh cs m a.1 k.1)
]

-- a successful step leaves the candidate under its identifier, and the rest as it was
remember_candidate-get :
    (m : Dict Uuid Candidate) (c : Candidate) (m' : Dict Uuid Candidate)
    → remember_candidate m c ≡ ok m'
    → Agrees m c × ((id : Uuid) → get id m' ≡ (if c.chunk_id == id then some c else get id m))
unfolding remember_candidate
remember_candidate-get m c m' h = elim (Option-cases (get c.chunk_id m)) [
  | inl new ↦ (λ d p. cc, λ id. ground (arith, get-put c.chunk_id id c m))
  | inr (d, old) ↦
      let same : d ≡ c = ground (arith, candidate_beq_iff d c) in
      (λ x p. cc, λ id. ground (arith, candidate_beq_iff d c, ap (λ (i : Uuid). get i m)))
]

Agrees-of_step :
    (m : Dict Uuid Candidate) (c : Candidate) (m' : Dict Uuid Candidate) (cs : List Candidate)
    → ((id : Uuid) → get id m' ≡ (if c.chunk_id == id then some c else get id m))
    → Agrees m c
    → All (Agrees m') cs
    → All (Agrees m) cs × All (λ d. c.chunk_id ≡ d.chunk_id → c ≡ d) cs
Agrees-of_step m c m' [] g k a = (tt, tt)
Agrees-of_step m c m' (d ∷ cs) g k a =
    let (b, l) = Agrees-of_step m c m' cs g k a.1 in
    (
      (λ x h. ground (arith, g d.chunk_id, a.0 c, a.0 x, k x), b),
      (λ e. ground (arith, g d.chunk_id, a.0 c), l),
    )

-- what was remembered was consistent
pub remember_all-IsConsistent :
    (cs : List Candidate) (m m' : Dict Uuid Candidate)
    → remember_all cs m ≡ ok m'
    → All (Agrees m) cs × IsConsistent cs
unfolding remember_all
remember_all-IsConsistent [] m m' h = (tt, tt)
remember_all-IsConsistent (c ∷ cs) m m' h =
    let (m1, step, rest) = >>=-eq_ok (remember_candidate m c) (remember_all cs) h in
    let (k, g) = remember_candidate-get m c m1 step in
    let (a, consistent) = remember_all-IsConsistent cs m1 m' rest in
    let (b, l) = Agrees-of_step m c m1 cs g k a in ((k, b), (l, consistent))

-- a rank is at most the number of candidates that the lane has
pub last_rank_le :
    (id n top : ℕ) (found : Option ℕ) (lane : List Candidate)
    → ((r : ℕ) → found ≡ some r → r ≤ top)
    → n + length lane ≤ top + 1
    → (r : ℕ) → last_rank id n found lane ≡ some r
    → r ≤ top
unfolding last_rank
last_rank_le id n top found [] low h r e = low r e
last_rank_le id n top found (c ∷ lane) low h r e =
    last_rank_le id (n + 1) top _ lane (λ j p. found_le j (c.chunk_id == id) p) (omega (arith, h)) r
      e
  where
    found_le : (j : ℕ) (b : Bool) → (if b then some n else found) ≡ some j → j ≤ top
    found_le j true p = let same : n ≡ j = ground arith in omega (arith, h, same)
    found_le j false p = low j p
