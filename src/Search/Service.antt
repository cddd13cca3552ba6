-- ===== src/Search/Service.antt =====
-- The search of application/search/service.py. The repository, the embedding model and the settings
-- are its ports; a call of a port may raise.
pub mod Laws
pub mod Evidence
pub mod Strict
pub mod Outcome
pub mod Errors
pub mod Total
use omf_retrieval.Admin.Tokens.{AuthorizedSource}
use omf_retrieval.Prelude.{
  Bool, Exception, List, Result, bool_eq, false, if◌then◌else◌, invariant_violation, is_exit,
  is_some, keep, leb, list_eq, nat_eq, no_active_index, not, ok, raise, require, search_unavailable,
  shielded, source_access, true, value_error, ℕ, ◌&&◌, ◌==◌, ◌>>=◌, ◌>>◌, ◌||◌,
}
use omf_retrieval.Prelude.Floats.{Float, Floats, float_eq}
use omf_retrieval.Prelude.Text.{Text, codes, is_blank, is_empty, strip}
use omf_retrieval.Search.Evidence.{EvidenceItem, group_evidence}
use omf_retrieval.Search.Policy.{SearchPolicyManifest, SearchPolicySnapshot, retain_at_or_above}
use omf_retrieval.Search.Ports.{
  ActiveIndex, CandidateBatch, active_index_eq, candidate_eq, candidates_of, origin_eq,
}
use omf_retrieval.Search.Rrf.{FusedCandidate, reciprocal_rank_fusion}

pub record EmbeddingDescriptor : Type 0 where
  pub model_name : Text
  pub revision : Text
  pub dimension : ℕ

-- `__post_init__`
unfoldable pub check_descriptor : EmbeddingDescriptor → Result (Unit {0})
unfolding is_blank
check_descriptor d = do
  require (not (is_blank d.model_name)) invariant_violation
  require (not (is_blank d.revision)) invariant_violation
  require (leb 1 d.dimension) invariant_violation

module _ ⦃fl : Floats⦄ where
  pub record SearchResult : Type 0 where
    pub status : Text
    pub index : ActiveIndex
    pub search_policy : SearchPolicyManifest
    pub evidence_items : List EvidenceItem

  -- `__post_init__`
  unfoldable pub new_search_result : SearchResult → Result SearchResult
  new_search_result r = do
    require (r.status == codes "ok" || r.status == codes "no_evidence") value_error
    require (bool_eq (r.status == codes "no_evidence") (is_empty r.evidence_items)) value_error
    ok r

  -- what the service is constructed with, and `config_hash` of a snapshot, which hashes its JSON
  pub record SearchPorts : Type 1 where
    pub Vector : Type 0
    pub active_index : AuthorizedSource → EmbeddingDescriptor → Bool → Result ActiveIndex
    pub retrieve :
        AuthorizedSource
        → Text
        → Vector
        → EmbeddingDescriptor
        → ℕ
        → ℕ
        → Bool
        → Float
        → Float
        → Result CandidateBatch
    pub repository_is_ready : AuthorizedSource → EmbeddingDescriptor → Bool → Result Bool
    pub descriptor : Result EmbeddingDescriptor
    pub embed_query : Text → Result Vector
    pub embeddings_is_ready : Result Bool
    pub search_policy_snapshot : Result SearchPolicySnapshot
    pub search_max_limit : ℕ
    pub config_hash_of : SearchPolicySnapshot → Text
    pub policy_manifest : SearchPolicyManifest

  -- `==` of the dataclass
  unfoldable pub snapshot_beq : SearchPolicySnapshot → SearchPolicySnapshot → Bool
  unfolding float_eq
  snapshot_beq a b =
      a.query_embedding_model_name == b.query_embedding_model_name
      && a.query_embedding_revision == b.query_embedding_revision
      && a.query_embedding_dimension == b.query_embedding_dimension
      && bool_eq a.query_embedding_normalize_embeddings b.query_embedding_normalize_embeddings
      && a.query_instruction == b.query_instruction
      && a.keyword_candidate_limit == b.keyword_candidate_limit
      && a.vector_candidate_limit == b.vector_candidate_limit
      && a.rrf_k == b.rrf_k
      && float_eq a.keyword_weight b.keyword_weight
      && float_eq a.vector_weight b.vector_weight
      && float_eq a.keyword_similarity_floor b.keyword_similarity_floor
      && float_eq a.vector_similarity_floor b.vector_similarity_floor
      && a.calibration_status == b.calibration_status

  -- the negation of the test in `_resolved_policy`
  unfoldable pub is_served :
      (SearchPolicySnapshot → Text)
      → SearchPolicySnapshot
      → SearchPolicyManifest
      → EmbeddingDescriptor
      → Bool
  unfolding snapshot_beq
  is_served config_hash_of configured manifest descriptor =
      let policy = manifest.snapshot in
      snapshot_beq configured policy
      && config_hash_of configured == manifest.config_hash
      && policy.calibration_status == codes "calibrated"
      && descriptor.model_name == policy.query_embedding_model_name
      && descriptor.revision == policy.query_embedding_revision
      && descriptor.dimension == policy.query_embedding_dimension

  -- what passes the handlers of `active_index`
  unfoldable pub passes_active_index : Exception → Bool
  unfolding is_exit
  passes_active_index no_active_index = true
  passes_active_index search_unavailable = true
  passes_active_index source_access = true
  passes_active_index e = is_exit e

  unfoldable pub guard_active_index : {A : Type 0} → Result A → Result A
  unfolding passes_active_index
  guard_active_index (ok a) = ok a
  guard_active_index (raise e) = if passes_active_index e then raise e else raise search_unavailable

  unfoldable pub has_both_ranks : FusedCandidate → Bool
  has_both_ranks item = is_some item.keyword_rank && is_some item.vector_rank

  -- the filter of the strict level
  unfoldable pub at_level : Text → List FusedCandidate → List FusedCandidate
  unfolding has_both_ranks keep
  at_level level fused = if level == codes "strict" then keep has_both_ranks fused else fused

  -- the last `try` block
  unfoldable pub rank_batch :
      SearchPolicySnapshot → Text → ℕ → CandidateBatch → Result (List EvidenceItem)
  unfolding retain_at_or_above reciprocal_rank_fusion at_level group_evidence
  rank_batch policy level limit batch = do
    let keyword = retain_at_or_above batch.keyword policy.keyword_similarity_floor
    let vector = retain_at_or_above batch.vector policy.vector_similarity_floor
    fused ←
        reciprocal_rank_fusion policy.rrf_k policy.keyword_weight policy.vector_weight
          (candidates_of keyword) (candidates_of vector)
    group_evidence (at_level level fused) limit

  -- the `SearchResult(…)` that `search` returns
  unfoldable pub search_result :
      ActiveIndex → SearchPolicyManifest → List EvidenceItem → SearchResult
  search_result index manifest evidence = record {
    status = if is_empty evidence then codes "no_evidence" else codes "ok";
    index = index;
    search_policy = manifest;
    evidence_items = evidence;
  }

  -- the handlers of `is_ready`
  unfoldable pub fail_closed : Result Bool → Result Bool
  unfolding is_exit
  fail_closed (ok ready) = ok ready
  fail_closed (raise e) = if is_exit e then raise e else ok false

  module _ (ports : SearchPorts) where
    unfoldable pub resolved_policy : Result SearchPolicySnapshot
    unfolding shielded is_served
    resolved_policy = shielded search_unavailable (do
      configured ← ports.search_policy_snapshot
      descriptor ← ports.descriptor
      require (is_served ports.config_hash_of configured ports.policy_manifest descriptor)
          search_unavailable
      ok ports.policy_manifest.snapshot)

    -- the four tests before the `try` blocks
    unfoldable pub check_request : AuthorizedSource → Text → ℕ → Text → Result Text
    unfolding strip
    check_request authorized query limit level = do
      require (authorized.source_key == codes "omf") value_error
      require (not (is_empty (strip query))) value_error
      require (leb 1 limit && leb limit ports.search_max_limit) value_error
      require (level == codes "default" || level == codes "strict") value_error
      ok (strip query)

    unfoldable pub find_active : AuthorizedSource → SearchPolicySnapshot → Result ActiveIndex
    unfolding guard_active_index
    find_active authorized policy = guard_active_index (do
      descriptor ← ports.descriptor
      ports.active_index authorized descriptor policy.query_embedding_normalize_embeddings)

    unfoldable pub fetch :
        AuthorizedSource → Text → ports.Vector → SearchPolicySnapshot → Result CandidateBatch
    fetch authorized query vector policy = do
      descriptor ← ports.descriptor
      ports.retrieve authorized query vector descriptor policy.keyword_candidate_limit
          policy.vector_candidate_limit policy.query_embedding_normalize_embeddings
          policy.keyword_similarity_floor policy.vector_similarity_floor

    unfoldable pub search : AuthorizedSource → Text → ℕ → Text → Result SearchResult
    unfolding check_request resolved_policy find_active shielded fetch rank_batch search_result
        new_search_result
    search authorized query limit level = do
      normalized ← check_request authorized query limit level
      policy ← resolved_policy
      active ← find_active authorized policy
      vector ← shielded search_unavailable (ports.embed_query normalized)
      batch ← fetch authorized normalized vector policy
      require (batch.index == active) search_unavailable
      evidence ← shielded search_unavailable (rank_batch policy level limit batch)
      new_search_result (search_result batch.index ports.policy_manifest evidence)

    -- the body of the `try` in `is_ready`
    unfoldable pub probe : AuthorizedSource → Result Bool
    unfolding resolved_policy
    probe authorized = do
      policy ← resolved_policy
      model_ready ← ports.embeddings_is_ready
      elim model_ready [
        | false ↦ ok false
        | true ↦ do
          descriptor ← ports.descriptor
          ports.repository_is_ready authorized descriptor
              policy.query_embedding_normalize_embeddings
      ]

    unfoldable pub is_ready : AuthorizedSource → Result Bool
    unfolding probe fail_closed
    is_ready authorized = fail_closed (probe authorized)
