-- ===== src/Examples/Chunks.antt =====
-- The chunker of infrastructure/source/chunker.py at work, with a tokenizer that makes a token of
-- each character.
use mathlib.Core.Path.{subst}
use omf_retrieval.Indexing.Chunker.Excerpt.{Excerpt}
use omf_retrieval.Indexing.Chunker.Limits.{IsLimits, limits_of, limits_of-IsLimits}
use omf_retrieval.Indexing.Chunker.Source.{IsSource}
use omf_retrieval.Indexing.Chunker.Source.Drafts.{AreAscending, split_drafts_with_excerpts-IsSource}
use omf_retrieval.Indexing.Chunker.Source.Section.{blocks_text}
use omf_retrieval.Indexing.Chunker.Source.Units.{Ascending, IsAscending}
use omf_retrieval.Indexing.Chunker.Split.{
  heading_prefix_of, is_atomic_kind, split_drafts_with_excerpts,
}
use omf_retrieval.Indexing.Chunker.Split.Drafts.{AreDrafts, split_drafts_with_excerpts-AreDrafts}
use omf_retrieval.Indexing.Chunker.Tokens.{Span, TokenCounter, sequence_of, token_offsets}
use omf_retrieval.Indexing.Chunker.Tokens.Laws.{IsOffsets, token_offsets-IsOffsets}
use omf_retrieval.Indexing.Chunker.Units.{descendants, unit_boundaries}
use omf_retrieval.Indexing.Chunker.Units.Preorder.{below, descendants-eq-below}
use omf_retrieval.Indexing.Chunker.Window.{
  Chunker, WindowPlan, WindowSearchBudget, bounded_window_end,
}
use omf_retrieval.Indexing.Chunker.Window.Fits.{FoundFrom, bounded_window_end-IsWindow}
use omf_retrieval.Indexing.Ports.{ChunkConfig, ChunkDraft, check_chunk_config, int_le}
use omf_retrieval.Indexing.Structure.{
  ParsedBlock, ParsedSection, next_block, no_blocks, parsed_block,
}
use omf_retrieval.Prelude.{
  All, List, Option, Result, [], all, arith, false, length, map, none, ok, ok-injective, raise,
  refl, some, suc, sym, true, true-ne-false, zero, ℕ, ◌+◌, ◌∷◌, ◌≡◌,
}
use omf_retrieval.Prelude.Ensures.{Ensures}
use omf_retrieval.Prelude.Text.{Text, codes}
use omf_retrieval.Prelude.Values.{pos, ℤ}

abbrev one_id : ℕ → Option (Option ℤ)
one_id c = some (some (pos c))

abbrev spans_of : ℕ → Text → List (Option (Option (ℤ × ℤ)))
spans_of i [] = []
spans_of i (c ∷ s) = some (some (pos i, pos (i + 1))) ∷ spans_of (i + 1) s

abbrev by_character : TokenCounter
by_character = record {
  encode = λ text. sequence_of (some (length text)) (map one_id text);
  offsets = λ text. sequence_of (some (length text)) (spans_of 0 text);
}

abbrev repeated : ℕ → ℕ → Text
repeated zero c = []
repeated (suc n) c = c ∷ repeated n c

abbrev small_config : ChunkConfig
small_config = record {
  target_tokens = pos 8;
  soft_max_tokens = pos 10;
  overlap_tokens = pos 2;
  atomic_max_tokens = pos 12;
  parent_context_max_tokens = pos 20;
}

small_config_checked : check_chunk_config small_config ≡ ok tt
unfolding check_chunk_config all int_le
small_config_checked = refl

abbrev pub small_chunker : Chunker
small_chunker = record {
  counter = by_character;
  config = limits_of small_config;
  config_hash = repeated 64 b'0';
  chunk_hash = λ parser_version config_hash path i j raw search. repeated 64 b'a';
}

abbrev pub paragraph : Text → ℕ → ParsedBlock
paragraph text line = parsed_block (codes "paragraph") text line line no_blocks

abbrev item : Text → ℕ → ParsedBlock
item text line = parsed_block (codes "list_item") text line line no_blocks

abbrev two_items : ParsedBlock
two_items = parsed_block (codes "bullet_list") (codes "- one long\n- two long\n") 6 7 (
    next_block (item (codes "- one long\n") 6)
      (next_block (item (codes "- two long\n") 7) no_blocks))

abbrev pub long_section : ParsedSection
long_section = record {
  ordinal = 0;
  parent_ordinal = none;
  level = 1;
  heading = some (codes "H");
  heading_path = codes "H" ∷ [];
  body = codes "alpha beta gamma\n\ndelta\n- one long\n- two long\n";
  line_start = 2;
  line_end = 7;
  blocks =
      paragraph (codes "alpha beta gamma\n") 3
      ∷ parsed_block (codes "blank") (codes "\n") 4 4 no_blocks
      ∷ paragraph (codes "delta\n") 5
      ∷ two_items
      ∷ [];
}

raw_texts : Result (List ChunkDraft × List Excerpt) → List Text
raw_texts (raise e) = []
raw_texts (ok r) = map (λ d. d.raw_text) r.0

-- windows of a paragraph overlap by two characters; the items of the list do not fit together
split_run :
    raw_texts (split_drafts_with_excerpts small_chunker long_section (codes "v1"))
    ≡ codes "alpha "
      ∷ codes "a beta"
      ∷ codes "ta gam"
      ∷ codes "amma\n"
      ∷ codes "delta\n"
      ∷ codes "- one long"
      ∷ codes "\n"
      ∷ codes "- two long"
      ∷ codes "\n"
      ∷ []
unfolding split_drafts_with_excerpts raw_texts limits_of
split_run = refl

pub small-IsLimits : IsLimits (limits_of small_config)
small-IsLimits = limits_of-IsLimits small_config small_config_checked

split_drafts_with_excerpts-AreDrafts_example :
    Ensures
      (λ r. AreDrafts small_chunker (heading_prefix_of (codes "H" ∷ [])) 0 r.1 r.0)
      (split_drafts_with_excerpts small_chunker long_section (codes "v1"))
split_drafts_with_excerpts-AreDrafts_example =
    split_drafts_with_excerpts-AreDrafts small_chunker long_section (codes "v1") small-IsLimits

two_items-IsAscending : IsAscending two_items
unfolding unit_boundaries
two_items-IsAscending boundaries e =
    subst (Ascending 6 7) (ok-injective e) (omega arith, omega arith, omega arith)

long_section-AreAscending : AreAscending long_section.blocks
unfolding is_atomic_kind
long_section-AreAscending =
    let other : false ≡ true → ⊥ = λ e. true-ne-false (sym e) in
    (
      λ e. absurd (other e),
      (λ e. absurd (other e), (λ e. absurd (other e), (λ e. two_items-IsAscending, tt))),
    )

long_section_text : blocks_text long_section.blocks ≡ long_section.body
unfolding blocks_text
long_section_text = refl

split_drafts_with_excerpts-IsSource_example :
    Ensures
      (λ r. All (IsSource long_section.body) r.1)
      (split_drafts_with_excerpts small_chunker long_section (codes "v1"))
split_drafts_with_excerpts-IsSource_example =
    split_drafts_with_excerpts-IsSource small_chunker long_section (codes "v1") small-IsLimits
      long_section_text long_section-AreAscending

token_offsets-IsOffsets_example :
    Ensures (IsOffsets by_character (codes "ab")) (token_offsets by_character (codes "ab"))
token_offsets-IsOffsets_example = token_offsets-IsOffsets by_character (codes "ab")

descendants-eq-below_example :
    descendants two_items (codes "list_item") ≡ ok (below (codes "list_item") two_items)
descendants-eq-below_example = descendants-eq-below two_items (codes "list_item")

abbrev small_plan : WindowPlan
small_plan = record { source_budget = 3; overlap_tokens = 1; allow_reduced_progress = true }

abbrev small_budget : WindowSearchBudget
small_budget = record { calls_left = 9; input_chars_left = 99 }

abbrev four_spans : List Span
four_spans = (0, 1) ∷ (1, 2) ∷ (2, 3) ∷ (3, 4) ∷ []

bounded_window_end-IsWindow_example :
    Ensures
      (λ r. FoundFrom by_character (codes "abcd") four_spans 1 [] 2 r.0)
      (bounded_window_end by_character
        (codes "abcd")
        four_spans
        (0 ∷ 1 ∷ 2 ∷ 3 ∷ 4 ∷ [])
        1
        small_plan
        []
        2
        small_budget)
bounded_window_end-IsWindow_example =
    bounded_window_end-IsWindow by_character (codes "abcd") four_spans (0 ∷ 1 ∷ 2 ∷ 3 ∷ 4 ∷ []) 1
      small_plan [] 2 small_budget refl
