-- ===== src/Search/Rrf/Places.antt =====
-- Where the candidates of a fusion stand in the two lanes (application/search/rrf.py).
use mathlib.Core.Logic.Or
use mathlib.Core.List.{Mem, mem-append, mem-cons, mem-cons_of_mem, mem-cons_self, not-mem-nil}
use mathlib.Core.Path.{subst₂}
use omf_retrieval.Prelude.{
  All, Bool-cases, List, Option, [], ap, arith, get_elem?, if◌then◌else◌, inl, inr, is_some,
  nat_beq, nat_eq, none, refl, some, suc, sym, true, zero, ℕ, ◌++◌, ◌+◌, ◌==◌, ◌∙◌, ◌∷◌, ◌≡◌, ◌⊎◌,
}
use omf_retrieval.Prelude.Floats.{Float, Floats}
use omf_retrieval.Search.Ports.{Candidate}
use omf_retrieval.Search.Rrf.{FusedCandidate}
use omf_retrieval.Search.Rrf.Cover.{Agrees-elim, Candidate-set}
use omf_retrieval.Search.Rrf.Laws.{fuse}
use omf_retrieval.Search.Rrf.Spec.{IsConsistent, last_rank, rank_in}

-- the place from which a rank comes
last_rank-place :
    (id n r : ℕ) (found : Option ℕ) (lane : List Candidate)
    → last_rank id n found lane ≡ some r
    → (found ≡ some r)
      ⊎ ((i : ℕ) × (c : Candidate) × (get_elem? lane i ≡ some c) × (c.chunk_id ≡ id) × (r ≡ n + i))
unfolding last_rank
last_rank-place id n r found [] h = inl h
last_rank-place id n r found (c ∷ lane) h =
    elim (last_rank-place id (n + 1) r (if c.chunk_id == id then some n else found) lane h) [
      | inr (i, d, at, same, place) ↦ inr (suc i, d, at, same, omega (arith, place))
      | inl e ↦ elim (Bool-cases (nat_beq c.chunk_id id)) [
        | inl here ↦
            let first : some n ≡ some r = rw here at e in
            inr (0, c, refl, ground arith, ground arith)
        | inr other ↦ inl (rw other at e)
      ]
    ]

pub rank_in-place :
    (lane : List Candidate) (id r : ℕ)
    → rank_in lane id ≡ some r
    → (i : ℕ) × (c : Candidate) × (get_elem? lane i ≡ some c) × (c.chunk_id ≡ id) × (r ≡ i + 1)
rank_in-place lane id r h = elim (last_rank-place id 1 r none lane h) [
  | inl e ↦ cc
  | inr (i, c, at, same, place) ↦ (i, c, at, same, omega (arith, place))
]

pub get_elem?-Mem :
    (lane : List Candidate) (i : ℕ) (c : Candidate) → get_elem? lane i ≡ some c → Mem c lane
get_elem?-Mem [] i c h = cc
get_elem?-Mem (x ∷ lane) zero c h = let e : x ≡ c = cc in rw (sym e) mem-cons_self
get_elem?-Mem (x ∷ lane) (suc i) c h = mem-cons_of_mem x (get_elem?-Mem lane i c h)

-- candidates of a consistent list with one identifier are equal
pub IsConsistent-eq :
    (cs : List Candidate) (a b : Candidate)
    → IsConsistent cs
    → Mem a cs
    → Mem b cs
    → a.chunk_id ≡ b.chunk_id
    → a ≡ b
IsConsistent-eq [] a b k m n e = absurd (not-mem-nil m)
IsConsistent-eq (x ∷ cs) a b k m n e =
    Or.elim (Candidate-set a b) (mem-cons.0 m)
      (λ p.
        Or.elim (Candidate-set a b) (mem-cons.0 n) (λ q. p ∙ sym q)
          (λ q. p ∙ Agrees-elim b x cs k.0 q (ap (λ (z : Candidate). z.chunk_id) (sym p) ∙ e)))
      (λ p.
        Or.elim (Candidate-set a b) (mem-cons.0 n)
          (λ q.
            sym (q ∙ Agrees-elim a x cs k.0 p (ap (λ (z : Candidate). z.chunk_id) (sym q) ∙ sym e)))
          (λ q. IsConsistent-eq cs a b k.1 p q e))

pub Mem-All {ℓ κ} : {A : Type ℓ} (P : A → Type κ) (l : List A) → ((x : A) → Mem x l → P x) → All P l
Mem-All P [] h = tt
Mem-All P (x ∷ l) h = (h x mem-cons_self, Mem-All P l (λ y m. h y (mem-cons_of_mem x m)))

is_some-eq : {A : Type 0} (o : Option A) → is_some o ≡ true → (x : A) × (o ≡ some x)
is_some-eq none h = cc
is_some-eq (some x) h = (x, refl)

-- the candidate `c` stands in the lane at the rank `r`, counted from 1
abbrev pub RanksAt : List Candidate → Option ℕ → Candidate → Type 0
RanksAt lane rank c = (i : ℕ) × (get_elem? lane i ≡ some c) × (rank ≡ some (i + 1))

rank_in-RanksAt :
    (cs lane : List Candidate)
    → ((d : Candidate) → Mem d lane → Mem d cs)
    → IsConsistent cs
    → (c : Candidate) → Mem c cs
    → (r : ℕ) → rank_in lane c.chunk_id ≡ some r
    → RanksAt lane (some r) c
rank_in-RanksAt cs lane inside k c m r h =
    let (i, d, at, same, place) = rank_in-place lane c.chunk_id r h in
    let e : d ≡ c = IsConsistent-eq cs d c k (inside d (get_elem?-Mem lane i d at)) m same in
    (i, at ∙ ap some e, ap some place)

module _ ⦃fl : Floats⦄ (keyword vector : List Candidate) where
  -- one candidate stands in both lanes, at the two ranks of the item
  abbrev pub InBoth : FusedCandidate → Type 0
  InBoth i =
      (RanksAt keyword i.keyword_rank i.candidate) × (RanksAt vector i.vector_rank i.candidate)

  pub fuse-InBoth :
      (k : ℕ) (keyword_weight vector_weight : Float)
      → IsConsistent (keyword ++ vector)
      → (c : Candidate) → Mem c (keyword ++ vector)
      → (i : FusedCandidate) → fuse k keyword_weight vector_weight keyword vector c ≡ i
      → is_some i.keyword_rank ≡ true
      → is_some i.vector_rank ≡ true
      → InBoth i
  unfolding fuse
  fuse-InBoth k keyword_weight vector_weight consistent c m i e p q =
      let candidate : c ≡ i.candidate = ap (λ (z : FusedCandidate). z.candidate) e in
      let first : rank_in keyword c.chunk_id ≡ i.keyword_rank =
        ap (λ (z : FusedCandidate). z.keyword_rank) e in
      let second : rank_in vector c.chunk_id ≡ i.vector_rank =
        ap (λ (z : FusedCandidate). z.vector_rank) e in
      let (r, pr) = is_some-eq i.keyword_rank p in
      let (s, ps) = is_some-eq i.vector_rank q in
      let all = keyword ++ vector in
      (
        subst₂ (λ o z. RanksAt keyword o z) (sym pr) candidate
            (rank_in-RanksAt all keyword (λ d n. mem-append.1 (Or.inl n)) consistent c m r
              (first ∙ pr)),
        subst₂ (λ o z. RanksAt vector o z) (sym ps) candidate
            (rank_in-RanksAt all vector (λ d n. mem-append.1 (Or.inr n)) consistent c m s
              (second ∙ ps)),
      )
