-- ===== src/Search/Rrf/Laws.antt =====
-- The fusion of application/search/rrf.py against its specification, and what a client relies on.
use mathlib.Core.Path.{ap₂}
use omf_retrieval.Prelude.{
  >>=-eq_ok, List, Option, Result, Result-cases, [], ap, arith, bind_eq, inl, inr, length, map,
  none, ok, ok-injective, overflow_error, refl, require, require-eq_ok, some, sym, true,
  value_error, ℕ, ◌++◌, ◌+◌, ◌>>=◌, ◌∙◌, ◌∷◌, ◌≡◌, ◌≤◌,
}
use omf_retrieval.Prelude.Dict.{Dict, get}
use omf_retrieval.Prelude.Floats.{Float, Floats}
use omf_retrieval.Prelude.Sort.{sorted}
use omf_retrieval.Search.Ports.{Candidate, Uuid}
use omf_retrieval.Search.Rrf.{
  FusedCandidate, fuse_item, fuse_items, is_policy, lane_score, ranks_before,
  reciprocal_rank_fusion, remember_lane,
}
use omf_retrieval.Search.Rrf.Spec.{
  Agrees-nil, IsConsistent, entries, fresh, get-ranks_of, last_rank, last_rank_le, rank_in,
  ranks_of, remember_all, remember_all-IsConsistent, remember_all-append, remember_all-fresh,
  remember_lane-split,
}

module _ ⦃fl : Floats⦄ (k : ℕ) where
  -- what a rank adds to a score: the weight divided by the constant plus the rank
  unfoldable pub share : Float → Option ℕ → Float
  share weight none = fl.zero
  share weight (some rank) = fl.div weight (k + rank)

  lane_score-eq_ok :
      (weight : Float) (rank : Option ℕ) {s : Float}
      → lane_score k weight rank ≡ ok s
      → share weight rank ≡ s
  unfolding lane_score share
  lane_score-eq_ok weight none h = ok-injective h
  lane_score-eq_ok weight (some rank) h =
      let (_, _, rest) = >>=-eq_ok (require (fl.fits (k + rank)) overflow_error) _ h in
      ok-injective rest

  lane_score_fits :
      (weight : Float) (rank : Option ℕ)
      → ((r : ℕ) → rank ≡ some r → fl.fits (k + r) ≡ true)
      → lane_score k weight rank ≡ ok (share weight rank)
  unfolding lane_score share
  lane_score_fits weight none h = refl
  lane_score_fits weight (some rank) h = rw (h rank refl)

  -- every rank of the two lanes, added to the constant, converts to a float
  pub record HasFit (keyword vector : List Candidate) : Type 0 where
    pub keyword_fits : fl.fits (k + length keyword) ≡ true
    pub vector_fits : fl.fits (k + length vector) ≡ true

module _ ⦃fl : Floats⦄ (k : ℕ) (keyword_weight vector_weight : Float) where
  -- one candidate with its ranks in the two lanes
  unfoldable pub fuse : List Candidate → List Candidate → Candidate → FusedCandidate
  unfolding share last_rank
  fuse keyword vector c = record {
    candidate = c;
    keyword_rank = rank_in keyword c.chunk_id;
    vector_rank = rank_in vector c.chunk_id;
    score =
        fl.add (share k keyword_weight (rank_in keyword c.chunk_id))
          (share k vector_weight (rank_in vector c.chunk_id));
  }

  -- one item for each identifier, in the order of `ranks_before`
  unfoldable pub fusion : List Candidate → List Candidate → List FusedCandidate
  unfolding fuse fresh sorted ranks_before
  fusion keyword vector =
      sorted ranks_before (map (fuse keyword vector) (fresh [] (keyword ++ vector)))

  unfoldable pub scored : Option ℕ → Option ℕ → Candidate → Result FusedCandidate
  scored keyword_rank vector_rank c = do
    keyword_score ← lane_score k keyword_weight keyword_rank
    vector_score ← lane_score k vector_weight vector_rank
    ok (record {
      candidate = c;
      keyword_rank = keyword_rank;
      vector_rank = vector_rank;
      score = fl.add keyword_score vector_score;
    })

  module _ (keyword vector : List Candidate) where
    abbrev pub fuse_entries : Dict Uuid Candidate → Result (List FusedCandidate)
    fuse_entries =
        fuse_items k keyword_weight vector_weight (ranks_of 1 keyword []) (ranks_of 1 vector [])

    abbrev pub item_of : Candidate → Result FusedCandidate
    item_of c =
        fuse_item k keyword_weight vector_weight (ranks_of 1 keyword []) (ranks_of 1 vector [])
          (c.chunk_id, c)

    pub item_of-scored :
        (c : Candidate)
        → item_of c ≡ scored (rank_in keyword c.chunk_id) (rank_in vector c.chunk_id) c
    unfolding fuse_item scored get
    item_of-scored c =
        ap₂ (λ a b. scored a b c) (get-ranks_of c.chunk_id 1 keyword [])
          (get-ranks_of c.chunk_id 1 vector [])

    item_of-eq_ok :
        (c : Candidate) {i : FusedCandidate} → item_of c ≡ ok i → fuse keyword vector c ≡ i
    unfolding scored fuse
    item_of-eq_ok c h =
        let (s, p, h1) =
          >>=-eq_ok (lane_score k keyword_weight (rank_in keyword c.chunk_id)) _
            (sym (item_of-scored c) ∙ h) in
        let (t, q, h2) = >>=-eq_ok (lane_score k vector_weight (rank_in vector c.chunk_id)) _ h1 in
        rw (lane_score-eq_ok k keyword_weight _ p, lane_score-eq_ok k vector_weight _ q, fuse)
          (ok-injective h2)

    rank_fits :
        (lane : List Candidate) (id : Uuid)
        → fl.fits (k + length lane) ≡ true
        → (r : ℕ) → rank_in lane id ≡ some r
        → fl.fits (k + r) ≡ true
    rank_fits lane id h r e =
        let bound : r ≤ length lane =
          last_rank_le id 1 (length lane) none lane (λ j p. cc) (omega arith) r e in
        fl.fits_mono (k + r) (k + length lane) (omega (arith, bound)) h

    item_of_fits :
        HasFit k keyword vector → (c : Candidate) → item_of c ≡ ok (fuse keyword vector c)
    unfolding scored fuse
    item_of_fits fit c =
        item_of-scored c
        ∙ bind_eq _ _ _
            (lane_score_fits k keyword_weight _ (rank_fits keyword c.chunk_id fit.keyword_fits))
            (bind_eq _ _ _
              (lane_score_fits k vector_weight _ (rank_fits vector c.chunk_id fit.vector_fits))
              refl)

    fuse_entries-eq_ok :
        (cs : List Candidate) {items : List FusedCandidate}
        → fuse_entries (entries cs) ≡ ok items
        → map (fuse keyword vector) cs ≡ items
    unfolding fuse_items
    fuse_entries-eq_ok [] h = ok-injective h
    fuse_entries-eq_ok (c ∷ cs) h =
        let (i, p, h1) = >>=-eq_ok (item_of c) _ h in
        let (items, q, h2) = >>=-eq_ok (fuse_entries (entries cs)) _ h1 in
        ap₂ ◌∷◌ (item_of-eq_ok c p) (fuse_entries-eq_ok cs q) ∙ ok-injective h2

    fuse_entries_fits :
        HasFit k keyword vector
        → (cs : List Candidate) → fuse_entries (entries cs) ≡ ok (map (fuse keyword vector) cs)
    unfolding fuse_items
    fuse_entries_fits fit [] = refl
    fuse_entries_fits fit (c ∷ cs) =
        bind_eq _ _ _ (item_of_fits fit c) (bind_eq _ _ _ (fuse_entries_fits fit cs) refl)

    pub lanes :
        {A : Type 0} (f : Dict Uuid Candidate → Dict Uuid ℕ → Dict Uuid ℕ → Result A)
        → (remember_lane 1 keyword [] [] >>= λ s.
            remember_lane 1 vector s.0 [] >>= λ t. f t.0 s.1 t.1)
          ≡ (remember_all (keyword ++ vector) [] >>= λ m.
              f m (ranks_of 1 keyword []) (ranks_of 1 vector []))
    lanes f =
        rw (remember_lane-split 1 keyword [] [], remember_all-append keyword vector [])
          (elim (Result-cases (remember_all keyword [])) [
            | inr (x, e) ↦ rw e
            | inl (m, e) ↦ rw (e, remember_lane-split 1 vector m []) (vector_lane m)
          ])
      where
        vector_lane :
            (m : Dict Uuid Candidate)
            → (◌>>=◌ {W = Dict Uuid Candidate × Dict Uuid ℕ}
                  (remember_all vector m)
                  (λ n. ok (n, ranks_of 1 vector []))
                >>= λ t. f t.0 (ranks_of 1 keyword []) t.1)
              ≡ (remember_all vector m >>= λ n. f n (ranks_of 1 keyword []) (ranks_of 1 vector []))
        vector_lane m = elim (Result-cases (remember_all vector m)) [
          | inr (x, e) ↦ rw e
          | inl (n, e) ↦ rw e
        ]

    unfoldable pub sort_items :
        Dict Uuid Candidate → Dict Uuid ℕ → Dict Uuid ℕ → Result (List FusedCandidate)
    sort_items m r s =
        fuse_items k keyword_weight vector_weight r s m >>= λ items. ok (sorted ranks_before items)

    -- For a positive policy, lanes that agree on shared identifiers and ranks that convert to
    -- floats, the fusion returns.
    pub rrf_returns :
        is_policy k keyword_weight vector_weight ≡ true
        → IsConsistent (keyword ++ vector)
        → HasFit k keyword vector
        → reciprocal_rank_fusion k keyword_weight vector_weight keyword vector
          ≡ ok (fusion keyword vector)
    unfolding reciprocal_rank_fusion fusion sort_items
    rrf_returns policy consistent fit = rw policy (
        lanes sort_items
        ∙ bind_eq _ _ _
            (remember_all-fresh (keyword ++ vector) [] (Agrees-nil (keyword ++ vector)) consistent)
            (bind_eq _ _ _ (fuse_entries_fits fit (fresh [] (keyword ++ vector))) refl))

    -- A fusion that returns had a positive policy and lanes that agree, and returns the items.
    pub rrf-eq_ok :
        {out : List FusedCandidate}
        → reciprocal_rank_fusion k keyword_weight vector_weight keyword vector ≡ ok out
        → (is_policy k keyword_weight vector_weight ≡ true)
          × IsConsistent (keyword ++ vector)
          × (fusion keyword vector ≡ out)
    unfolding reciprocal_rank_fusion fusion sort_items
    rrf-eq_ok h =
        let (_, p, rest) =
          >>=-eq_ok (require (is_policy k keyword_weight vector_weight) value_error) _ h in
        let (m, e, h1) =
          >>=-eq_ok (remember_all (keyword ++ vector) []) _ (sym (lanes sort_items) ∙ rest) in
        let consistent = (remember_all-IsConsistent (keyword ++ vector) [] m e).1 in
        let known : entries (fresh [] (keyword ++ vector)) ≡ m = ok-injective (
          sym
            (remember_all-fresh (keyword ++ vector) [] (Agrees-nil (keyword ++ vector)) consistent)
          ∙ e) in
        let (items, f, h2) = >>=-eq_ok (fuse_items k keyword_weight vector_weight _ _ m) _ h1 in
        let same : map (fuse keyword vector) (fresh [] (keyword ++ vector)) ≡ items =
          fuse_entries-eq_ok (fresh [] (keyword ++ vector)) (ap fuse_entries known ∙ f) in
        (require-eq_ok _ value_error p, consistent, ap (sorted ranks_before) same ∙ ok-injective h2)
