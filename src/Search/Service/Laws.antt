-- ===== src/Search/Service/Laws.antt =====
-- What an answer of application/search/service.py consists of.
use mathlib.Core.Path.{subst}
use omf_retrieval.Admin.Tokens.{AuthorizedSource}
use omf_retrieval.Prelude.{
  >>=-eq_ok, Bool, List, [], ap, arith, false, leb, list_beq_iff, list_eq, nat_eq, not, ok,
  ok-injective, refl, require, require-eq_ok, search_unavailable, shielded, shielded-eq_ok, sym,
  true, value_error, ℕ, ◌&&◌, ◌==◌, ◌>>◌, ◌||◌, ◌↔◌, ◌∙◌, ◌∷◌, ◌≡◌, ◌≤◌,
}
use omf_retrieval.Prelude.Floats.{Floats}
use omf_retrieval.Prelude.Text.{Text, codes, is_empty, strip}
use omf_retrieval.Search.Evidence.{EvidenceItem}
use omf_retrieval.Search.Policy.{SearchPolicyManifest, SearchPolicySnapshot}
use omf_retrieval.Search.Ports.{
  ActiveIndex, CandidateBatch, active_index_beq_iff, active_index_eq, candidate_eq, origin_eq,
}
use omf_retrieval.Search.Service.{
  EmbeddingDescriptor, SearchPorts, SearchResult, check_request, fetch, find_active, is_served,
  new_search_result, rank_batch, resolved_policy, search, search_result,
}

module _ ⦃fl : Floats⦄ where
  -- the result that the service builds passes its own checks
  pub new_search_result-accepts :
      (index : ActiveIndex) (manifest : SearchPolicyManifest) (evidence : List EvidenceItem)
      → new_search_result (search_result index manifest evidence)
        ≡ ok (search_result index manifest evidence)
  unfolding new_search_result search_result
  new_search_result-accepts index manifest [] = refl
  new_search_result-accepts index manifest (e ∷ evidence) = refl

  status_iff :
      (index : ActiveIndex) (manifest : SearchPolicyManifest) (evidence : List EvidenceItem)
      → ((search_result index manifest evidence).status ≡ codes "no_evidence") ↔ (evidence ≡ [])
  unfolding search_result
  status_iff index manifest [] = (λ h. refl, λ h. refl)
  status_iff index manifest (e ∷ evidence) = (λ h. cc, λ h. cc)

  is_served-lem :
      (config_hash_of : SearchPolicySnapshot → Text) (configured : SearchPolicySnapshot)
      (manifest : SearchPolicyManifest) (descriptor : EmbeddingDescriptor)
      → is_served config_hash_of configured manifest descriptor ≡ true
      → (manifest.snapshot.calibration_status ≡ codes "calibrated")
        × (descriptor.dimension ≡ manifest.snapshot.query_embedding_dimension)
  unfolding is_served
  is_served-lem config_hash_of configured manifest descriptor h =
      ground (arith, list_beq_iff manifest.snapshot.calibration_status (codes "calibrated"))

  module _ (ports : SearchPorts) where
    pub resolved_policy-calibrated :
        {policy : SearchPolicySnapshot}
        → resolved_policy ports ≡ ok policy
        → (policy ≡ ports.policy_manifest.snapshot)
          × (policy.calibration_status ≡ codes "calibrated")
    unfolding resolved_policy
    resolved_policy-calibrated {policy} h =
        let (configured, _, h1) =
          >>=-eq_ok ports.search_policy_snapshot _ (shielded-eq_ok search_unavailable _ h) in
        let (descriptor, _, h2) = >>=-eq_ok ports.descriptor _ h1 in
        let (_, served, h3) =
          >>=-eq_ok
            (require (is_served ports.config_hash_of configured ports.policy_manifest descriptor)
              search_unavailable)
            _ h2 in
        let same : ports.policy_manifest.snapshot ≡ policy = ok-injective h3 in
        let calibrated =
          (is_served-lem ports.config_hash_of configured ports.policy_manifest descriptor
            (require-eq_ok _ _ served)).0 in
        (
          sym same,
          subst (λ (p : SearchPolicySnapshot). p.calibration_status ≡ codes "calibrated") same
              calibrated,
        )

    -- what an answer is made of
    pub record IsAnswer (authorized : AuthorizedSource) (query : Text) (limit : ℕ) (level : Text)
        (r : SearchResult) : Type 0 where
      pub vector : ports.Vector
      pub batch : CandidateBatch
      pub policy : SearchPolicySnapshot
      pub request : check_request ports authorized query limit level ≡ ok (strip query)
      pub resolved : resolved_policy ports ≡ ok policy
      pub active : find_active ports authorized policy ≡ ok r.index
      pub embedded : ports.embed_query (strip query) ≡ ok vector
      pub fetched : fetch ports authorized (strip query) vector policy ≡ ok batch
      pub generation : batch.index ≡ r.index
      pub ranked : rank_batch policy level limit batch ≡ ok r.evidence_items
      pub manifest : r.search_policy ≡ ports.policy_manifest
      pub status : (r.status ≡ codes "no_evidence") ↔ (r.evidence_items ≡ [])

    four_tests :
        (a b c d : Bool) (x : Text) {q : Text}
        → (require a value_error
            >> (require b value_error
                >> (require c value_error >> (require d value_error >> ok x))))
          ≡ ok q
        → (a ≡ true) × (c ≡ true) × (x ≡ q)
    four_tests true true true true x h = (refl, refl, ok-injective h)
    four_tests true true true false x h = cc
    four_tests true true false d x h = cc
    four_tests true false c d x h = cc
    four_tests false b c d x h = cc

    -- what is answered is asked of `omf`, with a limit in its bounds
    pub check_request-lem :
        (authorized : AuthorizedSource) (query : Text) (limit : ℕ) (level : Text) {q : Text}
        → check_request ports authorized query limit level ≡ ok q
        → (authorized.source_key ≡ codes "omf")
          × ((1 ≤ limit) × (limit ≤ ports.search_max_limit))
          × (strip query ≡ q)
    unfolding check_request
    check_request-lem authorized query limit level h =
        let (key, bounds, stripped) =
          four_tests (authorized.source_key == codes "omf") (not (is_empty (strip query)))
            (leb 1 limit && leb limit ports.search_max_limit)
            (level == codes "default" || level == codes "strict") (strip query) h in
        (
          (list_beq_iff authorized.source_key (codes "omf")).0 key,
          (ground arith, ground arith),
          stripped,
        )

    -- what the steps of a search leave is an answer
    pub answer :
        (authorized : AuthorizedSource) (query : Text) (limit : ℕ) (level : Text) (q : Text)
        → strip query ≡ q
        → (vector : ports.Vector) (batch : CandidateBatch) (policy : SearchPolicySnapshot)
          (active : ActiveIndex) (evidence : List EvidenceItem)
        → check_request ports authorized query limit level ≡ ok q
        → resolved_policy ports ≡ ok policy
        → find_active ports authorized policy ≡ ok active
        → ports.embed_query q ≡ ok vector
        → fetch ports authorized q vector policy ≡ ok batch
        → batch.index ≡ active
        → rank_batch policy level limit batch ≡ ok evidence
        → IsAnswer authorized query limit level
            (search_result batch.index ports.policy_manifest evidence)
    unfolding search_result
    answer authorized query limit level q s vector batch policy active evidence a b c d e f g =
        record {
          vector = vector;
          batch = batch;
          policy = policy;
          request = a ∙ ap ok (sym s);
          resolved = b;
          active = c ∙ ap ok (sym f);
          embedded = ap ports.embed_query s ∙ d;
          fetched = ap (λ t. fetch ports authorized t vector policy) s ∙ e;
          generation = refl;
          ranked = g;
          manifest = refl;
          status = status_iff batch.index ports.policy_manifest evidence;
        }

    -- what is answered went through every step
    pub search-IsAnswer :
        (authorized : AuthorizedSource) (query : Text) (limit : ℕ) (level : Text) {r : SearchResult}
        → search ports authorized query limit level ≡ ok r
        → IsAnswer authorized query limit level r
    unfolding search
    search-IsAnswer authorized query limit level {r} h =
        let (q, request, h1) = >>=-eq_ok (check_request ports authorized query limit level) _ h in
        let (policy, resolved, h2) = >>=-eq_ok (resolved_policy ports) _ h1 in
        let (active, found, h3) = >>=-eq_ok (find_active ports authorized policy) _ h2 in
        let (vector, embedded, h4) =
          >>=-eq_ok (shielded search_unavailable (ports.embed_query q)) _ h3 in
        let (batch, fetched, h5) = >>=-eq_ok (fetch ports authorized q vector policy) _ h4 in
        let (_, same, h6) = >>=-eq_ok (require (batch.index == active) search_unavailable) _ h5 in
        let (evidence, ranked, h7) =
          >>=-eq_ok (shielded search_unavailable (rank_batch policy level limit batch)) _ h6 in
        let index : batch.index ≡ active =
          (active_index_beq_iff batch.index active).0 (require-eq_ok _ _ same) in
        let result : search_result batch.index ports.policy_manifest evidence ≡ r =
          ok-injective
            (sym (new_search_result-accepts batch.index ports.policy_manifest evidence) ∙ h7) in
        let stripped = (check_request-lem authorized query limit level request).2 in
        subst (IsAnswer authorized query limit level) result (
          answer authorized query limit level q stripped vector batch policy active evidence request
            resolved found (shielded-eq_ok _ _ embedded) fetched index (shielded-eq_ok _ _ ranked))
