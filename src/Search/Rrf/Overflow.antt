-- ===== src/Search/Rrf/Overflow.antt =====
-- When a fusion raises because an int is too large for a float (application/search/rrf.py).
use mathlib.Core.List.{Mem}
use mathlib.Core.Path.{subst}
use omf_retrieval.Prelude.{
  >>=-eq_ok, All, All-mem, Bool-cases, Exception, List, Option, Result, Result-cases, [], ap,
  bind_eq, contains, false, inl, inr, none, ok, overflow_error, raise, raise-ne-ok, refl, require,
  require-eq_ok, some, some_injective, sym, true, true-ne-false, ℕ, ◌++◌, ◌+◌, ◌>>=◌, ◌∙◌, ◌∷◌, ◌≡◌,
  ◌⊎◌,
}
use omf_retrieval.Prelude.Floats.{Float, Floats}
use omf_retrieval.Search.Ports.{Candidate}
use omf_retrieval.Search.Rrf.{
  FusedCandidate, fuse_items, is_policy, lane_score, reciprocal_rank_fusion,
}
use omf_retrieval.Search.Rrf.Cover.{fresh-complete}
use omf_retrieval.Search.Rrf.Laws.{fuse_entries, item_of, item_of-scored, lanes, scored, sort_items}
use omf_retrieval.Search.Rrf.Spec.{
  Agrees-nil, IsConsistent, entries, fresh, rank_in, remember_all-fresh,
}

bind-eq_raise :
    {A B : Type 0} (r : Result A) (f : A → Result B) {e : Exception}
    → (r >>= f) ≡ raise e
    → (r ≡ raise e) ⊎ ((a : A) × (r ≡ ok a) × (f a ≡ raise e))
bind-eq_raise (ok a) f h = inr (a, refl, h)
bind-eq_raise (raise x) f h = inl (cc)

raise_eq : {A : Type 0} (r : Result A) {x y : Exception} → r ≡ raise x → r ≡ raise y → x ≡ y
raise_eq r h k = cc

module _ ⦃fl : Floats⦄ (k : ℕ) (keyword_weight vector_weight : Float) where
  -- a division by the constant plus this rank returns
  abbrev pub Divides : Option ℕ → Type 0
  Divides rank = (r : ℕ) → rank ≡ some r → fl.fits (k + r) ≡ true

  Divides-prop : (rank : Option ℕ) → IsProp (Divides rank)
  Divides-prop rank = hlevel

  lane_score-Divides :
      (weight : Float) (rank : Option ℕ) {s : Float}
      → lane_score k weight rank ≡ ok s
      → Divides rank
  unfolding lane_score
  lane_score-Divides weight none h r e = cc
  lane_score-Divides weight (some rank) h r e =
      let (_, fits, _) = >>=-eq_ok (require (fl.fits (k + rank)) overflow_error) _ h in
      subst (λ n. fl.fits (k + n) ≡ true) (some_injective e) (require-eq_ok _ _ fits)

  lane_score-eq_raise :
      (weight : Float) (rank : Option ℕ) {e : Exception}
      → lane_score k weight rank ≡ raise e
      → e ≡ overflow_error
  unfolding lane_score
  lane_score-eq_raise weight none h = cc
  lane_score-eq_raise weight (some rank) h = elim (Bool-cases (fl.fits (k + rank))) [
    | inl fits ↦ absurd (raise-ne-ok (sym (rw (fits, lane_score, require, ◌>>=◌) at h)))
    | inr large ↦ sym (raise_eq _ refl (rw (large, lane_score, require, ◌>>=◌) at h))
  ]

  scored-Divides :
      (a b : Option ℕ) (c : Candidate) {i : FusedCandidate}
      → scored k keyword_weight vector_weight a b c ≡ ok i
      → Divides a × Divides b
  unfolding scored
  scored-Divides a b c h =
      let (_, p, h1) = >>=-eq_ok (lane_score k keyword_weight a) _ h in
      let (_, q, _) = >>=-eq_ok (lane_score k vector_weight b) _ h1 in
      (lane_score-Divides keyword_weight a p, lane_score-Divides vector_weight b q)

  scored-eq_raise :
      (a b : Option ℕ) (c : Candidate) {e : Exception}
      → scored k keyword_weight vector_weight a b c ≡ raise e
      → e ≡ overflow_error
  unfolding scored
  scored-eq_raise a b c h = elim (bind-eq_raise (lane_score k keyword_weight a) _ h) [
    | inl p ↦ lane_score-eq_raise keyword_weight a p
    | inr (s, _, h1) ↦ elim (bind-eq_raise (lane_score k vector_weight b) _ h1) [
      | inl q ↦ lane_score-eq_raise vector_weight b q
      | inr (t, _, done) ↦ absurd (raise-ne-ok (sym done))
    ]
  ]

  module _ (keyword vector : List Candidate) where
    abbrev BothDivide : Candidate → Type 0
    BothDivide c = Divides (rank_in keyword c.chunk_id) × Divides (rank_in vector c.chunk_id)

    abbrev fused_entries : List Candidate → Result (List FusedCandidate)
    fused_entries cs = fuse_entries k keyword_weight vector_weight keyword vector (entries cs)

    fuse_entries-All :
        (cs : List Candidate) {items : List FusedCandidate}
        → fused_entries cs ≡ ok items
        → All BothDivide cs
    unfolding fuse_items
    fuse_entries-All [] h = tt
    fuse_entries-All (c ∷ cs) h =
        let (i, p, h1) = >>=-eq_ok (item_of k keyword_weight vector_weight keyword vector c) _ h in
        let (items, q, _) = >>=-eq_ok (fused_entries cs) _ h1 in
        (
          scored-Divides _ _ c
              (sym (item_of-scored k keyword_weight vector_weight keyword vector c) ∙ p),
          fuse_entries-All cs q,
        )

    fuse_entries-eq_raise :
        (cs : List Candidate) {e : Exception} → fused_entries cs ≡ raise e → e ≡ overflow_error
    unfolding fuse_items
    fuse_entries-eq_raise [] h = absurd (raise-ne-ok (sym h))
    fuse_entries-eq_raise (c ∷ cs) h =
        elim (bind-eq_raise (item_of k keyword_weight vector_weight keyword vector c) _ h) [
          | inl p ↦
              scored-eq_raise _ _ c
                (sym (item_of-scored k keyword_weight vector_weight keyword vector c) ∙ p)
          | inr (i, _, h1) ↦ elim (bind-eq_raise (fused_entries cs) _ h1) [
            | inl q ↦ fuse_entries-eq_raise cs q
            | inr (items, _, done) ↦ absurd (raise-ne-ok (sym done))
          ]
        ]

    not_both :
        (c : Candidate) (r : ℕ)
        → (rank_in keyword c.chunk_id ≡ some r) ⊎ (rank_in vector c.chunk_id ≡ some r)
        → fl.fits (k + r) ≡ false
        → BothDivide c
        → ⊥
    not_both c r (inl e) large b = true-ne-false (sym (b.0 r e) ∙ large)
    not_both c r (inr e) large b = true-ne-false (sym (b.1 r e) ∙ large)

    -- Under a positive policy and for lanes that agree on shared identifiers, a fusion raises an
    -- overflow error if the constant plus the rank of one of the candidates in one of the lanes is
    -- too large for a float.
    pub rrf_overflow :
        is_policy k keyword_weight vector_weight ≡ true
        → IsConsistent (keyword ++ vector)
        → (c : Candidate) → Mem c (keyword ++ vector)
        → (r : ℕ) → (rank_in keyword c.chunk_id ≡ some r) ⊎ (rank_in vector c.chunk_id ≡ some r)
        → fl.fits (k + r) ≡ false
        → reciprocal_rank_fusion k keyword_weight vector_weight keyword vector
          ≡ raise overflow_error
    unfolding reciprocal_rank_fusion sort_items contains
    rrf_overflow policy consistent c m r at large =
        let cs = fresh [] (keyword ++ vector) in
        rw policy (
          lanes k keyword_weight vector_weight keyword vector
            (sort_items k keyword_weight vector_weight keyword vector)
          ∙ bind_eq _ _ _
              (remember_all-fresh (keyword ++ vector) [] (Agrees-nil (keyword ++ vector))
                consistent)
              (elim (Result-cases (fused_entries cs)) [
                | inl (items, e) ↦ absurd (
                    not_both c r at large (
                      All-mem BothDivide (λ d. hlevel) c cs (fuse_entries-All cs e)
                        (fresh-complete c (keyword ++ vector) [] consistent m refl)))
                | inr (x, e) ↦ rw (e, ◌>>=◌) (ap raise (fuse_entries-eq_raise cs e))
              ]))
