-- ===== src/Search/Evidence.antt =====
-- Evidence grouped by parent section, application/search/evidence.py.
pub mod Groups
pub mod Origins
pub mod Build
pub mod Order
pub mod Total
use omf_retrieval.Prelude.{
  Bool, List, Option, Result, [], any, contains, false, if◌then◌else◌, index_error, list_eq, ltb,
  map, nat_eq, none, ok, raise, require, some, take, value_error, ℕ, ◌!=◌, ◌++◌, ◌+◌, ◌>>=◌, ◌>>◌,
  ◌∷◌,
}
use omf_retrieval.Prelude.Dict.{get, put}
use omf_retrieval.Prelude.Floats.{Float, Floats, float_eq, float_lt}
use omf_retrieval.Prelude.Sort.{sorted}
use omf_retrieval.Prelude.Text.{Text}
use omf_retrieval.Search.Ports.{Origin, Uuid, candidate_eq, origin_eq, origin_lt}
use omf_retrieval.Search.Rrf.{FusedCandidate, ranks_before}

-- `sorted({origin for item in … for origin in item.candidate.origins})`
unfoldable pub insert_origin : Origin → List Origin → List Origin
unfolding contains
insert_origin o seen = if contains seen o then seen else seen ++ o ∷ []

unfoldable pub origin_set : List Origin → List Origin → List Origin
unfolding insert_origin
origin_set seen [] = seen
origin_set seen (o ∷ os) = origin_set (insert_origin o seen) os

module _ ⦃fl : Floats⦄ where
  pub record EvidenceMatch : Type 0 where
    pub excerpt : Text
    pub line_start : ℕ
    pub line_end : ℕ
    pub keyword_rank : Option ℕ
    pub vector_rank : Option ℕ
    pub rrf_score : Float

  pub record EvidenceItem : Type 0 where
    pub rank : ℕ
    pub parent_id : Uuid
    pub heading_path : List Text
    pub score : Float
    pub matches : List EvidenceMatch
    pub origins : List Origin

  abbrev pub Group : Type 0
  Group = Uuid × List FusedCandidate

  -- `groups.setdefault(parent_id, []).append(item)`
  unfoldable pub add_to_group : FusedCandidate → List Group → List Group
  unfolding get put
  add_to_group item groups = elim (get item.candidate.parent_id groups) [
    | none ↦ put item.candidate.parent_id (item ∷ []) groups
    | some items ↦ put item.candidate.parent_id (items ++ item ∷ []) groups
  ]

  -- the first loop
  unfoldable pub group_all : List FusedCandidate → List Group → List Group
  unfolding add_to_group
  group_all [] groups = groups
  group_all (item ∷ fused) groups = group_all fused (add_to_group item groups)

  -- the key `(-pair[1][0].score, pair[0].int)`; no group is empty
  unfoldable pub group_before : Group → Group → Bool
  unfolding float_lt float_eq
  group_before (p, x ∷ _) (q, y ∷ _) =
      if float_eq x.score y.score then ltb p q else float_lt y.score x.score
  group_before _ _ = false

  unfoldable pub to_match : FusedCandidate → EvidenceMatch
  to_match item = record {
    excerpt = item.candidate.excerpt;
    line_start = item.candidate.line_start;
    line_end = item.candidate.line_end;
    keyword_rank = item.keyword_rank;
    vector_rank = item.vector_rank;
    rrf_score = item.score;
  }

  unfoldable pub origins_of : List FusedCandidate → List Origin
  origins_of [] = []
  origins_of (item ∷ items) = item.candidate.origins ++ origins_of items

  -- the `EvidenceItem(…)` of the second loop
  unfoldable pub evidence_item : ℕ → Uuid → FusedCandidate → List FusedCandidate → EvidenceItem
  unfolding to_match origins_of origin_set origin_lt sorted
  evidence_item rank parent_id first ordered_matches = record {
    rank = rank;
    parent_id = parent_id;
    heading_path = first.candidate.heading_path;
    score = first.score;
    matches = map to_match ordered_matches;
    origins = sorted origin_lt (origin_set [] (origins_of ordered_matches));
  }

  -- the test of the headings, from `first = ordered_matches[0]`
  unfoldable pub evidence_of : ℕ → Uuid → List FusedCandidate → Result EvidenceItem
  unfolding any evidence_item
  evidence_of rank parent_id [] = raise index_error
  evidence_of rank parent_id (first ∷ rest) =
      if any (λ item. item.candidate.heading_path != first.candidate.heading_path) (first ∷ rest)
      then raise value_error
      else ok (evidence_item rank parent_id first (first ∷ rest))

  -- the second loop, from `rank`
  unfoldable pub build_items : ℕ → List Group → Result (List EvidenceItem)
  unfolding evidence_of sorted ranks_before
  build_items rank [] = ok []
  build_items rank ((parent_id, items) ∷ groups) = do
    item ← evidence_of rank parent_id (sorted ranks_before items)
    rest ← build_items (rank + 1) groups
    ok (item ∷ rest)

  unfoldable pub group_evidence : List FusedCandidate → ℕ → Result (List EvidenceItem)
  unfolding group_all sorted group_before take build_items
  group_evidence fused limit = do
    require (ltb 0 limit) value_error
    build_items 1 (take limit (sorted group_before (group_all fused [])))
