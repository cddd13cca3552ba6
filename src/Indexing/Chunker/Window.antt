-- ===== src/Indexing/Chunker/Window.antt =====
-- The search for the end of a window of tokens, infrastructure/source/chunker.py. The tokenizer may
-- count the tokens of a part otherwise than as a part of the whole, so ends are tried within a budget.
pub mod Fits
pub mod Ends
use Prim.Native.Nat.{max, min}
use omf_retrieval.Indexing.Chunker.Groups.{floor_token_group_boundary, token_boundary}
use omf_retrieval.Indexing.Chunker.Tokens.{Span, TokenCounter, token_count}
use omf_retrieval.Prelude.{
  Bool, List, Option, Result, [], contains, false, if◌then◌else◌, leb, length, ltb, nat_beq, nat_eq,
  none, not, ok, out_of_fuel, raise, require, some, suc, true, value_error, zero, ℕ, ◌&&◌, ◌*◌,
  ◌++◌, ◌+◌, ◌-◌, ◌/◌, ◌>>=◌, ◌>>◌, ◌||◌, ◌∷◌,
}
use omf_retrieval.Prelude.Slices.{slice}
use omf_retrieval.Prelude.Text.{Text}

-- the limits of a checked `ChunkConfig`, which are not negative
pub record Limits : Type 0 where
  pub target_tokens : ℕ
  pub soft_max_tokens : ℕ
  pub overlap_tokens : ℕ
  pub atomic_max_tokens : ℕ
  pub parent_context_max_tokens : ℕ

-- The state of a `ParentChildChunker`. `chunk_hash` is the SHA-256 of the canonical JSON of a
-- chunk's identity, from parser version, config hash, heading path, lines and texts.
pub record Chunker : Type 0 where
  pub counter : TokenCounter
  pub config : Limits
  pub config_hash : Text
  pub chunk_hash : Text → Text → List Text → ℕ → ℕ → Text → Text → Text

pub record WindowSearchBudget : Type 0 where
  pub calls_left : ℕ
  pub input_chars_left : ℕ

unfoldable pub consume : WindowSearchBudget → ℕ → Result WindowSearchBudget
consume b input_chars = do
  require (leb 1 b.calls_left && leb input_chars b.input_chars_left) value_error
  ok (record { calls_left = b.calls_left - 1; input_chars_left = b.input_chars_left - input_chars })

-- `_WINDOW_PROBE_LIMIT`
abbrev pub window_probe_limit : ℕ
window_probe_limit = 24

unfoldable pub configured_window_progress : ℕ → ℕ → ℕ
configured_window_progress source_budget overlap_tokens =
    let configured_progress =
      if nat_beq overlap_tokens 0 then (source_budget + 1) / 2 else 2 * overlap_tokens in
    min source_budget (max 1 configured_progress)

unfoldable pub bounded_corrective_amplification : ℕ → ℕ → ℕ → ℕ → Bool
bounded_corrective_amplification remaining_tokens source_budget piece_tokens overlap_tokens =
    let configured_overlap = min overlap_tokens (source_budget / 2) in
    let configured_advance = max 1 (source_budget - configured_overlap) in
    let piece_overlap = min overlap_tokens (piece_tokens / 2) in
    let piece_advance = max 1 (piece_tokens - piece_overlap) in
    let configured_windows = (remaining_tokens + configured_advance - 1) / configured_advance in
    let corrective_windows = (remaining_tokens + piece_advance - 1) / piece_advance in
    leb corrective_windows (window_probe_limit * configured_windows)

unfoldable pub window_search_budget : Text → Text → ℕ → ℕ → ℕ → WindowSearchBudget
unfolding configured_window_progress
window_search_budget raw_text heading_prefix source_tokens source_budget overlap_tokens =
    let minimum_progress = configured_window_progress source_budget overlap_tokens in
    let minimum_overlap = min overlap_tokens (minimum_progress / 2) in
    let minimum_advance = max 1 (minimum_progress - minimum_overlap) in
    let expected_windows = (source_tokens + minimum_advance - 1) / minimum_advance + 1 in
    record {
      calls_left = 2 * window_probe_limit * expected_windows;
      input_chars_left = 64 * max 1 (length raw_text + expected_windows * length heading_prefix);
    }

-- `add` of `_window_probe_ends`
unfoldable pub add_end : ℕ → ℕ → ℕ → List ℕ → List ℕ
unfolding contains
add_end minimum_end maximum_end candidate candidates =
    if leb minimum_end candidate
      && leb candidate maximum_end
      && not (contains candidates candidate)
      && ltb (length candidates) (window_probe_limit - 1)
    then candidates ++ candidate ∷ []
    else candidates

-- `add(center - distance)`; a negative end is below the minimum, which is at least 0
unfoldable pub add_below : ℕ → ℕ → ℕ → ℕ → List ℕ → List ℕ
unfolding add_end
add_below minimum_end maximum_end center distance candidates =
    if leb distance center
    then add_end minimum_end maximum_end (center - distance) candidates
    else candidates

unfoldable pub add_ends : ℕ → ℕ → List ℕ → List ℕ → List ℕ
unfolding add_end
add_ends minimum_end maximum_end [] candidates = candidates
add_ends minimum_end maximum_end (c ∷ centers) candidates =
    add_ends minimum_end maximum_end centers (add_end minimum_end maximum_end c candidates)

-- the ends at growing distances; the distance doubles, so `maximum_end` rounds are enough
unfoldable pub widen : ℕ → ℕ → ℕ → ℕ → ℕ → List ℕ → Result (List ℕ)
unfolding add_end add_below
widen zero minimum_end estimated_end maximum_end distance candidates = raise out_of_fuel
widen (suc fuel) minimum_end estimated_end maximum_end distance candidates =
    let more =
      add_end minimum_end maximum_end (estimated_end + distance)
        (add_below minimum_end maximum_end estimated_end distance candidates) in
    elim (ltb (length candidates) (window_probe_limit - 1) && leb distance maximum_end) [
      | true ↦
          elim (nat_beq (length more) (length candidates)
            && ltb estimated_end (minimum_end + distance)
            && ltb maximum_end (estimated_end + distance)) [
              | true ↦ ok more
              | false ↦ widen fuel minimum_end estimated_end maximum_end (distance * 2) more
            ]
      | false ↦ ok candidates
    ]

abbrev pub window_centers : ℕ → ℕ → ℕ → List ℕ
window_centers minimum_end estimated_end maximum_end =
    estimated_end
    ∷ minimum_end
    ∷ maximum_end
    ∷ ((minimum_end + maximum_end) / 2)
    ∷ (minimum_end + (maximum_end - minimum_end) / 4)
    ∷ (minimum_end + 3 * (maximum_end - minimum_end) / 4)
    ∷ []

unfoldable pub window_probe_ends : ℕ → ℕ → ℕ → Result (List ℕ)
unfolding add_ends widen
window_probe_ends minimum_end estimated_end maximum_end =
    widen (maximum_end + 1) minimum_end estimated_end maximum_end 1
      (add_ends minimum_end maximum_end (window_centers minimum_end estimated_end maximum_end) [])

-- `dict.fromkeys`, for a list that is made element by element
unfoldable pub unique_floors : List ℕ → List ℕ → List ℕ → Result (List ℕ)
unfolding floor_token_group_boundary contains
unique_floors boundaries seen [] = ok seen
unique_floors boundaries seen (e ∷ ends) = do
  floor ← floor_token_group_boundary boundaries e
  unique_floors boundaries (if contains seen floor then seen else seen ++ floor ∷ []) ends

-- what stays the same while one window is searched: the text, the offsets, the first token and its
-- character, the prefix and the limit
pub record WindowSearch : Type 0 where
  pub raw_text : Text
  pub offsets : List Span
  pub first_token : ℕ
  pub first_char : ℕ
  pub heading_prefix : Text
  pub token_limit : ℕ

-- `probes` and the search budget
pub record Probes : Type 0 where
  pub made : ℕ
  pub budget : WindowSearchBudget

-- `token_count` of `_bounded_window_end`
unfoldable pub probe_window : TokenCounter → WindowSearch → ℕ → Probes → Result (ℕ × Probes)
unfolding token_boundary slice consume token_count
probe_window counter w window_end p = do
  require (leb (p.made + 1) window_probe_limit) value_error
  end_offset ← token_boundary w.offsets window_end (length w.raw_text)
  let probe_text = w.heading_prefix ++ slice w.raw_text w.first_char end_offset
  budget ← consume p.budget (length probe_text)
  count ← token_count counter probe_text
  ok (count, record { made = p.made + 1; budget = budget })

abbrev pub is_above : ℕ → Option ℕ → Bool
is_above e none = true
is_above e (some best) = ltb best e

-- the loop over `safe_candidates`
unfoldable pub try_ends :
    TokenCounter
    → WindowSearch
    → List ℕ
    → Option ℕ
    → Probes
    → Result (Option ℕ × WindowSearchBudget)
unfolding probe_window
try_ends counter w [] best p = ok (best, p.budget)
try_ends counter w (e ∷ ends) best p = elim (leb e w.first_token) [
  | true ↦ try_ends counter w ends best p
  | false ↦ do
    r ← probe_window counter w e p
    try_ends counter w ends (if leb r.0 w.token_limit && is_above e best then some e else best) r.1
]

-- the arguments of `_bounded_window_end` that tell how the window is chosen
pub record WindowPlan : Type 0 where
  pub source_budget : ℕ
  pub overlap_tokens : ℕ
  pub allow_reduced_progress : Bool

-- the ends that are tried after the first, from the least progress to the first end
unfoldable pub tried_window_end :
    TokenCounter
    → WindowSearch
    → List ℕ
    → ℕ
    → ℕ
    → ℕ
    → Probes
    → Result (Option ℕ × WindowSearchBudget)
unfolding window_probe_ends unique_floors try_ends
tried_window_end counter w boundaries minimum_end estimated_end candidate p = do
  candidates ← window_probe_ends minimum_end estimated_end candidate
  safe_candidates ← unique_floors boundaries [] candidates
  try_ends counter w safe_candidates none p

-- the part of `_bounded_window_end` after the first probe, which was over the limit
unfoldable pub corrected_window_end :
    TokenCounter
    → WindowSearch
    → WindowPlan
    → List ℕ
    → ℕ
    → ℕ
    → Probes
    → Result (Option ℕ × WindowSearchBudget)
unfolding configured_window_progress bounded_corrective_amplification tried_window_end
corrected_window_end counter w plan boundaries candidate candidate_count p =
    let available_tokens = candidate - w.first_token in
    let estimated_capacity = max 1 (available_tokens - (candidate_count - w.token_limit)) in
    let remaining_tokens = length w.offsets - w.first_token in
    let configured_progress = configured_window_progress plan.source_budget plan.overlap_tokens in
    let minimum_progress = min (min available_tokens estimated_capacity) configured_progress in
    if ltb estimated_capacity configured_progress
      && ltb 64 remaining_tokens
      && (not plan.allow_reduced_progress
          || not (
              bounded_corrective_amplification remaining_tokens plan.source_budget
                estimated_capacity plan.overlap_tokens))
    then ok (none, p.budget)
    else tried_window_end counter w boundaries (w.first_token + minimum_progress)
        (w.first_token + estimated_capacity) candidate p

-- the part of `_bounded_window_end` from the first probe on
unfoldable pub searched_window_end :
    TokenCounter
    → WindowSearch
    → WindowPlan
    → List ℕ
    → ℕ
    → WindowSearchBudget
    → Result (Option ℕ × WindowSearchBudget)
unfolding probe_window corrected_window_end
searched_window_end counter w plan boundaries candidate search_budget = do
  r ← probe_window counter w candidate (record { made = 0; budget = search_budget })
  if leb r.0 w.token_limit
      then ok (some candidate, r.1.budget)
      else corrected_window_end counter w plan boundaries candidate r.0 r.1

unfoldable pub search_from :
    TokenCounter
    → WindowSearch
    → WindowPlan
    → List ℕ
    → ℕ
    → WindowSearchBudget
    → Result (Option ℕ × WindowSearchBudget)
unfolding searched_window_end
search_from counter w plan boundaries candidate search_budget =
    if leb candidate w.first_token
    then ok (none, search_budget)
    else searched_window_end counter w plan boundaries candidate search_budget

unfoldable pub bounded_window_end :
    TokenCounter
    → Text
    → List Span
    → List ℕ
    → ℕ
    → WindowPlan
    → Text
    → ℕ
    → WindowSearchBudget
    → Result (Option ℕ × WindowSearchBudget)
unfolding floor_token_group_boundary token_boundary search_from
bounded_window_end counter raw_text offsets boundaries first_token plan heading_prefix token_limit
      search_budget =
    do
      candidate ←
          floor_token_group_boundary boundaries
            (min (first_token + plan.source_budget) (length offsets))
      first_char ← token_boundary offsets first_token (length raw_text)
      search_from counter
          (record {
            raw_text = raw_text;
            offsets = offsets;
            first_token = first_token;
            first_char = first_char;
            heading_prefix = heading_prefix;
            token_limit = token_limit;
          })
          plan boundaries candidate search_budget
