-- ===== src/Examples.antt =====
-- The models run on small inputs: two lanes of three candidates, one client of one source.
pub mod Clients
pub mod Generations
pub mod Sources
pub mod Chunks
pub mod Short
pub mod Markdown
pub mod Context
pub mod Overflow
use mathlib.Core.Logic.Or
use mathlib.Core.List.{Mem, Perm, mem-cons}
use omf_retrieval.Admin.Tokens.{AuthorizedSource}
use omf_retrieval.Prelude.{
  All, Exception, List, [], arith, false, inl, inr, is_exit, length, map, nat_beq, nat_beq_iff, ok,
  raise, raise-ne-ok, refl, sym, true, true-ne-false, ℕ, ◌++◌, ◌↔◌, ◌∙◌, ◌∷◌, ◌≡◌, ◌≢◌, ◌≤◌,
}
use omf_retrieval.Prelude.Dict.{IsDistinct}
use omf_retrieval.Prelude.Floats.{Floats, micros}
use omf_retrieval.Prelude.Sort.{IsSorted}
use omf_retrieval.Prelude.Text.{Text, codes}
use omf_retrieval.Search.Evidence.{EvidenceItem, group_evidence, to_match}
use omf_retrieval.Search.Evidence.Build.{IsEvidenceOf, RankedFrom, group_evidence-lem, parents}
use omf_retrieval.Search.Evidence.Groups.{children}
use omf_retrieval.Search.Evidence.Order.{evidence_before, group_evidence-IsSorted}
use omf_retrieval.Search.Evidence.Total.{IsUniform, group_evidence_complete, group_evidence_total}
use omf_retrieval.Search.Policy.{
  SearchPolicyManifest, SearchPolicySnapshot, as_config, retain_at_or_above,
  validate_search_policy_config,
}
use omf_retrieval.Search.Policy.Laws.{IsPolicy, validate-IsPolicy}
use omf_retrieval.Search.Ports.{
  ActiveIndex, Candidate, CandidateBatch, Origin, ScoredCandidate, Uuid, active_index_beq,
  candidate_beq, origin_beq,
}
use omf_retrieval.Search.Rrf.{FusedCandidate, is_policy, ranks_before, reciprocal_rank_fusion}
use omf_retrieval.Search.Rrf.Cover.{Covers, rrf_cover}
use omf_retrieval.Search.Rrf.Falling.{IsFalling, rrf-IsFalling, rrf-fusion}
use omf_retrieval.Search.Rrf.Laws.{fuse}
use omf_retrieval.Search.Rrf.Order.{HasNonneg, rrf-IsSorted}
use omf_retrieval.Search.Rrf.Spec.{IsConsistent, fresh}
use omf_retrieval.Search.Service.{
  EmbeddingDescriptor, SearchPorts, SearchResult, check_request, fetch, find_active, is_ready,
  rank_batch, resolved_policy, search, search_result,
}
use omf_retrieval.Search.Service.Errors.{
  IsAllowed, IsServing, answered, is_ready_iff, search_errors,
}
use omf_retrieval.Search.Service.Evidence.{search_bounds}
use omf_retrieval.Search.Service.Laws.{IsAnswer, search-IsAnswer}
use omf_retrieval.Search.Service.Outcome.{IsOutcome, search-IsOutcome}
use omf_retrieval.Search.Service.Strict.{StrictAnswer, search_strict}
use omf_retrieval.Search.Service.Total.{HasHeadings, both_lanes, search_total}

-- numbers in millionths
instance abbrev millionths : Floats
millionths = micros

abbrev policy : SearchPolicySnapshot
policy = record {
  query_embedding_model_name = codes "m";
  query_embedding_revision = codes "r";
  query_embedding_dimension = 3;
  query_embedding_normalize_embeddings = true;
  query_instruction = codes "q";
  keyword_candidate_limit = 5;
  vector_candidate_limit = 5;
  rrf_k = 60;
  keyword_weight = 1000000;
  vector_weight = 1000000;
  keyword_similarity_floor = 300000;
  vector_similarity_floor = 300000;
  calibration_status = codes "calibrated";
}

abbrev page : Origin
page = record { source_path = codes "design/wiki/a.md"; content_hash = codes "00" }

abbrev pub passage : Uuid → Uuid → Candidate
passage chunk parent = record {
  chunk_id = chunk;
  parent_id = parent;
  heading_path = codes "h" ∷ [];
  excerpt = codes "text";
  line_start = 1;
  line_end = 2;
  origins = page ∷ [];
}

abbrev hit : Uuid → Uuid → ℕ → ScoredCandidate
hit chunk parent score = record { candidate = passage chunk parent; raw_score = score }

abbrev served : ActiveIndex
served = record { run_id = 7; commit_sha = codes "c" }

-- the last vector candidate is below the floor
abbrev found_batch : CandidateBatch
found_batch = record {
  index = served;
  keyword = hit 1 10 900000 ∷ hit 2 20 800000 ∷ [];
  vector = hit 2 20 700000 ∷ hit 3 10 600000 ∷ hit 4 30 100000 ∷ [];
}

abbrev keyword_lane : List Candidate
keyword_lane = passage 1 10 ∷ passage 2 20 ∷ []

abbrev vector_lane : List Candidate
vector_lane = passage 2 20 ∷ passage 3 10 ∷ []

abbrev fused_lanes : List (FusedCandidate)
fused_lanes =
    fuse 60 1000000 1000000 keyword_lane vector_lane (passage 2 20)
    ∷ fuse 60 1000000 1000000 keyword_lane vector_lane (passage 1 10)
    ∷ fuse 60 1000000 1000000 keyword_lane vector_lane (passage 3 10)
    ∷ []

abbrev manifest : SearchPolicyManifest
manifest = record { policy_id = 1; snapshot = policy; config_hash = codes "hash" }

abbrev served_model : EmbeddingDescriptor
served_model = record { model_name = codes "m"; revision = codes "r"; dimension = 3 }

abbrev test_ports : SearchPorts
test_ports = record {
  Vector = ℕ;
  active_index = λ a d n. ok served;
  retrieve = λ a q v d k l n f g. ok found_batch;
  repository_is_ready = λ a d n. ok true;
  descriptor = ok served_model;
  embed_query = λ q. ok 0;
  embeddings_is_ready = ok true;
  search_policy_snapshot = ok policy;
  search_max_limit = 5;
  config_hash_of = λ s. codes "hash";
  policy_manifest = manifest;
}

abbrev caller : AuthorizedSource
caller = record {
  client = record { client_id = 1; name = codes "n"; key_id = codes "k" };
  source_key = codes "omf";
}

abbrev evidence_at : Text → List (EvidenceItem)
evidence_at level = elim (rank_batch policy level 5 found_batch) [ ok items ↦ items | raise e ↦ [] ]

abbrev answer_at : Text → SearchResult
answer_at level = search_result served manifest (evidence_at level)

found_default :
    search test_ports caller (codes " q ") 5 (codes "default") ≡ ok (answer_at (codes "default"))
unfolding search rank_batch active_index_beq candidate_beq origin_beq
found_default = refl

found_strict :
    search test_ports caller (codes " q ") 5 (codes "strict") ≡ ok (answer_at (codes "strict"))
unfolding search rank_batch active_index_beq candidate_beq origin_beq
found_strict = refl

search-IsOutcome_example :
    IsOutcome test_ports caller
      (codes " q ")
      5
      (codes "default")
      (search test_ports caller (codes " q ") 5 (codes "default"))
search-IsOutcome_example = search-IsOutcome test_ports caller (codes " q ") 5 (codes "default")

pub differ : {m n : ℕ} → nat_beq m n ≡ false → m ≢ n
differ h = λ e. true-ne-false (sym ((nat_beq_iff _ _).1 e) ∙ h)

IsConsistent-lanes : IsConsistent (both_lanes policy found_batch)
unfolding retain_at_or_above
IsConsistent-lanes = (
  (λ e. absurd (differ refl e), (λ e. absurd (differ refl e), (λ e. absurd (differ refl e), tt))),
  ((λ e. refl, (λ e. absurd (differ refl e), tt)), ((λ e. absurd (differ refl e), tt), (tt, tt))),
)

headings_agree : HasHeadings (both_lanes policy found_batch)
unfolding retain_at_or_above
headings_agree = (
  (λ e. refl, (λ e. refl, (λ e. refl, (λ e. refl, tt)))),
  (
    (λ e. refl, (λ e. refl, (λ e. refl, (λ e. refl, tt)))),
    (
      (λ e. refl, (λ e. refl, (λ e. refl, (λ e. refl, tt)))),
      ((λ e. refl, (λ e. refl, (λ e. refl, (λ e. refl, tt)))), tt),
    ),
  ),
)

retrieves : (v : ℕ) (p : SearchPolicySnapshot) → IsAllowed (fetch test_ports caller (codes "q") v p)
unfolding fetch
retrieves v p = answered found_batch

search_total_example :
    (evidence : List EvidenceItem) × (rank_batch policy (codes "default") 5 found_batch
      ≡ ok evidence)
    × (search test_ports caller (codes " q ") 5 (codes "default")
        ≡ ok (search_result served manifest evidence))
unfolding check_request resolved_policy is_policy find_active fetch retain_at_or_above
search_total_example =
    search_total test_ports caller (codes " q ") 5 (codes "default") {q = codes "q"} refl
      {policy = policy} refl refl {active = served} refl {vector = 0} refl {batch = found_batch}
      refl refl IsConsistent-lanes headings_agree
      (record { keyword_fits = refl; vector_fits = refl })

search_strict_example : StrictAnswer test_ports caller (codes " q ") (answer_at (codes "strict"))
search_strict_example = search_strict test_ports caller (codes " q ") 5 found_strict

search_bounds_example :
    (length (evidence_at (codes "default")) ≤ 5)
    × (5 ≤ 5)
    × RankedFrom 1 (evidence_at (codes "default"))
    × IsDistinct (parents (evidence_at (codes "default")))
unfolding rank_batch search_result
search_bounds_example =
    search_bounds test_ports caller (codes " q ") 5 (codes "default") found_default

search_errors_example : IsAllowed (search test_ports caller (codes " q ") 5 (codes "default"))
unfolding check_request
search_errors_example =
    search_errors test_ports caller (codes " q ") 5 (codes "default") {q = codes "q"} refl retrieves

is_ready_iff_example :
    ((is_ready test_ports caller ≡ ok true) ↔ IsServing test_ports caller)
    × ((e : Exception) → is_ready test_ports caller ≡ raise e → is_exit e ≡ true)
is_ready_iff_example = is_ready_iff test_ports caller

rrf-fusion_example :
    (out : List FusedCandidate) × (reciprocal_rank_fusion 60 1000000 1000000 keyword_lane
        vector_lane
      ≡ ok out)
    × Perm out (
        map
          (fuse 60 1000000 1000000 keyword_lane vector_lane)
          (fresh [] (keyword_lane ++ vector_lane)))
    × IsFalling out
unfolding is_policy retain_at_or_above
rrf-fusion_example =
    rrf-fusion 60 1000000 1000000 refl refl keyword_lane vector_lane refl IsConsistent-lanes
      (record { keyword_fits = refl; vector_fits = refl })

fused_run : reciprocal_rank_fusion 60 1000000 1000000 keyword_lane vector_lane ≡ ok fused_lanes
unfolding reciprocal_rank_fusion candidate_beq origin_beq fuse
fused_run = refl

rrf_cover_example : Covers 60 1000000 1000000 keyword_lane vector_lane fused_lanes
rrf_cover_example = rrf_cover 60 1000000 1000000 keyword_lane vector_lane fused_run

fused-IsSorted : IsSorted ranks_before fused_lanes × All HasNonneg fused_lanes
fused-IsSorted = rrf-IsSorted 60 1000000 1000000 refl refl keyword_lane vector_lane fused_run

rrf-IsFalling_example : IsFalling fused_lanes × All HasNonneg fused_lanes
rrf-IsFalling_example =
    rrf-IsFalling 60 1000000 1000000 refl refl keyword_lane vector_lane fused_run

abbrev grouped_lanes : List EvidenceItem
grouped_lanes = elim (group_evidence fused_lanes 5) [ ok items ↦ items | raise e ↦ [] ]

grouped_run : group_evidence fused_lanes 5 ≡ ok grouped_lanes
unfolding group_evidence fuse
grouped_run = refl

group_evidence-lem_example :
    All (IsEvidenceOf fused_lanes) grouped_lanes
    × RankedFrom 1 grouped_lanes
    × IsDistinct (parents grouped_lanes)
    × (length grouped_lanes ≤ 5)
group_evidence-lem_example = group_evidence-lem fused_lanes 5 grouped_run

group_evidence-IsSorted_example :
    IsSorted evidence_before grouped_lanes
    × All (λ e. e.matches ≡ map to_match (children e.parent_id fused_lanes)) grouped_lanes
group_evidence-IsSorted_example =
    group_evidence-IsSorted fused_lanes fused-IsSorted.0 5 fused-IsSorted.1 grouped_run

IsUniform-lanes : IsUniform fused_lanes
unfolding fuse
IsUniform-lanes = (
  (λ e. refl, (λ e. refl, (λ e. refl, tt))),
  ((λ e. refl, (λ e. refl, (λ e. refl, tt))), ((λ e. refl, (λ e. refl, (λ e. refl, tt))), tt)),
)

group_evidence_total_example : (out : List EvidenceItem) × (group_evidence fused_lanes 5 ≡ ok out)
group_evidence_total_example = group_evidence_total fused_lanes 5 (omega arith) IsUniform-lanes

second_lane : Mem (fuse 60 1000000 1000000 keyword_lane vector_lane (passage 1 10)) fused_lanes
second_lane = mem-cons.1 (Or.inr (mem-cons.1 (Or.inl refl)))

group_evidence_complete_example : Mem 10 (parents grouped_lanes)
unfolding group_evidence fuse
group_evidence_complete_example =
    group_evidence_complete fused_lanes 5 grouped_run (omega arith)
      (fuse 60 1000000 1000000 keyword_lane vector_lane (passage 1 10)) second_lane
