-- ===== src/Search/Policy/Laws.antt =====
-- What a validated policy of application/search/policy.py satisfies.
use omf_retrieval.Prelude.{arith, false, ok, true, ◌<◌, ◌≡◌}
use omf_retrieval.Prelude.Floats.{Floats}
use omf_retrieval.Prelude.Text.{is_blank}
use omf_retrieval.Search.Policy.{
  SearchPolicySnapshot, as_config, is_calibration_state, is_floor, validate_search_policy_config,
}
use omf_retrieval.Search.Rrf.{is_policy}

module _ ⦃fl : Floats⦄ where
  -- the contract of a policy
  pub record IsPolicy (s : SearchPolicySnapshot) : Type 0 where
    pub dimension : 0 < s.query_embedding_dimension
    pub keyword_limit : 0 < s.keyword_candidate_limit
    pub vector_limit : 0 < s.vector_candidate_limit
    pub positive : is_policy s.rrf_k s.keyword_weight s.vector_weight ≡ true
    pub keyword_floor : is_floor s.keyword_similarity_floor ≡ true
    pub vector_floor : is_floor s.vector_similarity_floor ≡ true
    pub status : is_calibration_state s.calibration_status ≡ true
    pub names :
        (is_blank s.query_embedding_model_name ≡ false)
        × (is_blank s.query_embedding_revision ≡ false)
        × (is_blank s.query_instruction ≡ false)

  -- A configuration that is accepted has positive sizes, a positive constant and positive weights,
  -- floors from 0 to 1, a known calibration state and names that are not blank.
  pub validate-IsPolicy :
      (s : SearchPolicySnapshot) → validate_search_policy_config (as_config s) ≡ ok tt → IsPolicy s
  unfolding validate_search_policy_config as_config is_policy
  validate-IsPolicy s h = ground arith
