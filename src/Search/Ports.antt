-- ===== src/Search/Ports.antt =====
-- The data of a search and its validation, application/search/ports.py. A `check` is the
-- `__post_init__` of its class; the tests of exact types are the model's types.
-- A UUID is its 128-bit `int`, by which the sources order it.
use omf_retrieval.Prelude.{
  Bool, Eq, List, Result, any, arith, distinct, if◌then◌else◌, leb, list_beq_iff, list_eq, map,
  nat_eq, not, require, true, value_error, ℕ, ◌&&◌, ◌==◌, ◌>>◌, ◌↔◌, ◌≡◌,
}
use omf_retrieval.Prelude.Floats.{Float, Floats}
use omf_retrieval.Prelude.Text.{
  Text, codes, ends_with, is_blank, is_empty, is_hex_of, starts_with, text_lt,
}

abbrev pub Uuid : Type 0
Uuid = ℕ

pub record Origin : Type 0 where
  pub source_path : Text
  pub content_hash : Text

unfoldable pub check_origin : Origin → Result (Unit {0})
unfolding starts_with ends_with is_hex_of
check_origin o =
    require
      (starts_with o.source_path (codes "design/wiki/")
        && ends_with o.source_path (codes ".md")
        && is_hex_of 64 o.content_hash)
      value_error

unfoldable pub origin_beq : Origin → Origin → Bool
origin_beq a b = a.source_path == b.source_path && a.content_hash == b.content_hash

pub origin_beq_iff : (a b : Origin) → (origin_beq a b ≡ true) ↔ (a ≡ b)
unfolding origin_beq
origin_beq_iff a b =
    ground
      (arith, list_beq_iff a.source_path b.source_path, list_beq_iff a.content_hash b.content_hash)

instance abbrev pub origin_eq : Eq Origin
origin_eq = record { beq = origin_beq; beq_iff = origin_beq_iff }

-- `order=True`: by the fields in turn
unfoldable pub origin_lt : Origin → Origin → Bool
unfolding text_lt
origin_lt a b =
    if a.source_path == b.source_path
    then text_lt a.content_hash b.content_hash
    else text_lt a.source_path b.source_path

pub record ActiveIndex : Type 0 where
  pub run_id : Uuid
  pub commit_sha : Text

unfoldable pub check_active_index : ActiveIndex → Result (Unit {0})
unfolding is_hex_of
check_active_index a = require (is_hex_of 40 a.commit_sha) value_error

unfoldable pub active_index_beq : ActiveIndex → ActiveIndex → Bool
active_index_beq a b = a.run_id == b.run_id && a.commit_sha == b.commit_sha

pub active_index_beq_iff : (a b : ActiveIndex) → (active_index_beq a b ≡ true) ↔ (a ≡ b)
unfolding active_index_beq
active_index_beq_iff a b = ground (arith, list_beq_iff a.commit_sha b.commit_sha)

instance abbrev pub active_index_eq : Eq ActiveIndex
active_index_eq = record { beq = active_index_beq; beq_iff = active_index_beq_iff }

pub record Candidate : Type 0 where
  pub chunk_id : Uuid
  pub parent_id : Uuid
  pub heading_path : List Text
  pub excerpt : Text
  pub line_start : ℕ
  pub line_end : ℕ
  pub origins : List Origin

unfoldable pub check_candidate : Candidate → Result (Unit {0})
unfolding any is_blank distinct
check_candidate c = do
  require (not (any is_blank c.heading_path)) value_error
  require (not (is_empty c.excerpt)) value_error
  require (leb 1 c.line_start && leb c.line_start c.line_end) value_error
  require (not (is_empty c.origins) && distinct c.origins) value_error

unfoldable pub candidate_beq : Candidate → Candidate → Bool
candidate_beq a b =
    a.chunk_id == b.chunk_id
    && a.parent_id == b.parent_id
    && a.heading_path == b.heading_path
    && a.excerpt == b.excerpt
    && a.line_start == b.line_start
    && a.line_end == b.line_end
    && a.origins == b.origins

pub candidate_beq_iff : (a b : Candidate) → (candidate_beq a b ≡ true) ↔ (a ≡ b)
unfolding candidate_beq
candidate_beq_iff a b = ground (
  arith,
  list_beq_iff a.heading_path b.heading_path,
  list_beq_iff a.excerpt b.excerpt,
  list_beq_iff a.origins b.origins,
)

instance abbrev pub candidate_eq : Eq Candidate
candidate_eq = record { beq = candidate_beq; beq_iff = candidate_beq_iff }

module _ ⦃fl : Floats⦄ where
  pub record ScoredCandidate : Type 0 where
    pub candidate : Candidate
    pub raw_score : Float

  unfoldable pub check_scored_candidate : ScoredCandidate → Result (Unit {0})
  check_scored_candidate s =
      require
        (fl.is_finite s.raw_score && fl.le fl.minus_one s.raw_score && fl.le s.raw_score fl.one)
        value_error

  pub record CandidateBatch : Type 0 where
    pub index : ActiveIndex
    pub keyword : List ScoredCandidate
    pub vector : List ScoredCandidate

  abbrev pub candidates_of : List ScoredCandidate → List Candidate
  candidates_of = map (λ s. s.candidate)

  unfoldable pub chunk_ids : List ScoredCandidate → List Uuid
  chunk_ids = map (λ s. s.candidate.chunk_id)

  -- the identifiers of each lane are unique
  unfoldable pub check_candidate_batch : CandidateBatch → Result (Unit {0})
  unfolding distinct chunk_ids
  check_candidate_batch b = do
    require (distinct (chunk_ids b.keyword)) value_error
    require (distinct (chunk_ids b.vector)) value_error
