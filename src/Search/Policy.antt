-- ===== src/Search/Policy.antt =====
-- Retrieval policies, application/search/policy.py.
pub mod Laws
use omf_retrieval.Prelude.{
  Bool, List, Result, [], all, any, if◌then◌else◌, keep, list_eq, nat_eq, not, ok,
  policy_validation, require, ℕ, ◌&&◌, ◌==◌, ◌>>=◌, ◌>>◌, ◌||◌, ◌∷◌,
}
use omf_retrieval.Prelude.Dict.{get, keys}
use omf_retrieval.Prelude.Floats.{Float, Floats, float_eq}
use omf_retrieval.Prelude.Text.{Text, codes, is_blank, is_hex_of}
use omf_retrieval.Prelude.Values.{
  Object, bool_at, bool_test, boolean, float, float_at, float_test, int, int_test, is_positive,
  nat_at, pos, same_keys, str, str_at, str_test,
}
use omf_retrieval.Search.Ports.{ScoredCandidate, Uuid}

module _ ⦃fl : Floats⦄ where
  pub record SearchPolicySnapshot : Type 0 where
    pub query_embedding_model_name : Text
    pub query_embedding_revision : Text
    pub query_embedding_dimension : ℕ
    pub query_embedding_normalize_embeddings : Bool
    pub query_instruction : Text
    pub keyword_candidate_limit : ℕ
    pub vector_candidate_limit : ℕ
    pub rrf_k : ℕ
    pub keyword_weight : Float
    pub vector_weight : Float
    pub keyword_similarity_floor : Float
    pub vector_similarity_floor : Float
    pub calibration_status : Text

  unfoldable pub as_config : SearchPolicySnapshot → Object
  as_config s =
      (codes "query_embedding_model_name", str s.query_embedding_model_name)
      ∷ (codes "query_embedding_revision", str s.query_embedding_revision)
      ∷ (codes "query_embedding_dimension", int (pos s.query_embedding_dimension))
      ∷ (
        codes "query_embedding_normalize_embeddings",
        boolean s.query_embedding_normalize_embeddings,
      )
      ∷ (codes "query_instruction", str s.query_instruction)
      ∷ (codes "keyword_candidate_limit", int (pos s.keyword_candidate_limit))
      ∷ (codes "vector_candidate_limit", int (pos s.vector_candidate_limit))
      ∷ (codes "rrf_k", int (pos s.rrf_k))
      ∷ (codes "keyword_weight", float s.keyword_weight)
      ∷ (codes "vector_weight", float s.vector_weight)
      ∷ (codes "keyword_similarity_floor", float s.keyword_similarity_floor)
      ∷ (codes "vector_similarity_floor", float s.vector_similarity_floor)
      ∷ (codes "calibration_status", str s.calibration_status)
      ∷ []

abbrev pub policy_keys : List Text
policy_keys =
    codes "query_embedding_model_name"
    ∷ codes "query_embedding_revision"
    ∷ codes "query_embedding_dimension"
    ∷ codes "query_embedding_normalize_embeddings"
    ∷ codes "query_instruction"
    ∷ codes "keyword_candidate_limit"
    ∷ codes "vector_candidate_limit"
    ∷ codes "rrf_k"
    ∷ codes "keyword_weight"
    ∷ codes "vector_weight"
    ∷ codes "keyword_similarity_floor"
    ∷ codes "vector_similarity_floor"
    ∷ codes "calibration_status"
    ∷ []

-- `_VALID_CALIBRATION_STATES`
unfoldable pub is_calibration_state : Text → Bool
is_calibration_state s = s == codes "calibration_pending" || s == codes "calibrated"

module _ ⦃fl : Floats⦄ where
  -- `isfinite(x) and x > 0.0`
  unfoldable pub is_weight : Float → Bool
  is_weight x = fl.is_finite x && not (fl.le x fl.zero)

  -- `isfinite(x) and 0.0 <= x <= 1.0`
  unfoldable pub is_floor : Float → Bool
  is_floor x = fl.is_finite x && fl.le fl.zero x && fl.le x fl.one

  -- `_validate_search_policy_config`
  unfoldable pub validate_search_policy_config : Object → Result (Unit {0})
  unfolding same_keys any get is_blank is_weight is_floor is_calibration_state
  validate_search_policy_config v = do
    require (same_keys (keys v) policy_keys) policy_validation
    require
        (all (λ k. str_test (λ s. not (is_blank s)) (get k v))
          (codes "query_embedding_model_name"
            ∷ codes "query_embedding_revision"
            ∷ codes "query_instruction"
            ∷ []))
        policy_validation
    require
        (all (λ k. int_test is_positive (get k v))
          (codes "query_embedding_dimension"
            ∷ codes "keyword_candidate_limit"
            ∷ codes "vector_candidate_limit"
            ∷ codes "rrf_k"
            ∷ []))
        policy_validation
    require (bool_test (get (codes "query_embedding_normalize_embeddings") v)) policy_validation
    require
        (all (λ k. float_test is_weight (get k v))
          (codes "keyword_weight" ∷ codes "vector_weight" ∷ []))
        policy_validation
    require
        (all (λ k. float_test is_floor (get k v))
          (codes "keyword_similarity_floor" ∷ codes "vector_similarity_floor" ∷ []))
        policy_validation
    require (str_test is_calibration_state (get (codes "calibration_status") v)) policy_validation

  -- a negative zero becomes zero
  unfoldable pub without_sign : Float → Float
  unfolding float_eq
  without_sign x = if float_eq x fl.zero then fl.zero else x

  -- `__post_init__`
  unfoldable pub new_snapshot : SearchPolicySnapshot → Result SearchPolicySnapshot
  unfolding without_sign validate_search_policy_config as_config
  new_snapshot s = do
    let s' = record s {
      keyword_similarity_floor = without_sign s.keyword_similarity_floor;
      vector_similarity_floor = without_sign s.vector_similarity_floor;
    }
    validate_search_policy_config (as_config s')
    ok s'

  unfoldable pub validated_search_policy_snapshot : Object → Result SearchPolicySnapshot
  unfolding new_snapshot
  validated_search_policy_snapshot v = do
    validate_search_policy_config v
    model_name ← str_at (codes "query_embedding_model_name") v
    revision ← str_at (codes "query_embedding_revision") v
    dimension ← nat_at (codes "query_embedding_dimension") v
    normalize ← bool_at (codes "query_embedding_normalize_embeddings") v
    instruction ← str_at (codes "query_instruction") v
    keyword_limit ← nat_at (codes "keyword_candidate_limit") v
    vector_limit ← nat_at (codes "vector_candidate_limit") v
    k ← nat_at (codes "rrf_k") v
    kw ← float_at (codes "keyword_weight") v
    vw ← float_at (codes "vector_weight") v
    kf ← float_at (codes "keyword_similarity_floor") v
    vf ← float_at (codes "vector_similarity_floor") v
    status ← str_at (codes "calibration_status") v
    new_snapshot (record {
      query_embedding_model_name = model_name;
      query_embedding_revision = revision;
      query_embedding_dimension = dimension;
      query_embedding_normalize_embeddings = normalize;
      query_instruction = instruction;
      keyword_candidate_limit = keyword_limit;
      vector_candidate_limit = vector_limit;
      rrf_k = k;
      keyword_weight = kw;
      vector_weight = vw;
      keyword_similarity_floor = kf;
      vector_similarity_floor = vf;
      calibration_status = status;
    })

  -- the inclusive floor, in the order of the lane
  unfoldable pub retain_at_or_above : List ScoredCandidate → Float → List ScoredCandidate
  unfolding keep
  retain_at_or_above candidates floor = keep (λ c. fl.le floor c.raw_score) candidates

  pub record SearchPolicyManifest : Type 0 where
    pub policy_id : Uuid
    pub config_hash : Text
    pub snapshot : SearchPolicySnapshot

  -- `__post_init__`; the hash of a snapshot is a parameter
  unfoldable pub check_manifest :
      (SearchPolicySnapshot → Text) → SearchPolicyManifest → Result (Unit {0})
  unfolding is_hex_of
  check_manifest config_hash_of m =
      require (is_hex_of 64 m.config_hash && m.config_hash == config_hash_of m.snapshot)
        policy_validation
