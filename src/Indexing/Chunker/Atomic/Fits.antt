-- ===== src/Indexing/Chunker/Atomic/Fits.antt =====
-- Children of a table, list or quote fit the atomic limit, and the loops that make them end.
use mathlib.Core.Path.{subst}
use omf_retrieval.Indexing.Chunker.Atomic.{
  AtomicSplit, atomic_window_end, new_chunk_warning, split_oversized_atomic_unit, split_unit_rounds,
  warning_of,
}
use omf_retrieval.Indexing.Chunker.Excerpt.{Excerpt, with_warning}
use omf_retrieval.Indexing.Chunker.Groups.Laws.{BeginsAtZero, token_group_boundaries-BeginsAtZero}
use omf_retrieval.Indexing.Chunker.Normal.{found_or_raise, slice_tokens}
use omf_retrieval.Indexing.Chunker.Normal.Fits.{FitsIn, slice_tokens-Ensures}
use omf_retrieval.Indexing.Chunker.Tokens.{TokenCounter, token_count, token_offsets}
use omf_retrieval.Indexing.Chunker.Tokens.Laws.{token_count-Halts, token_offsets-IsOffsets}
use omf_retrieval.Indexing.Chunker.Units.{AtomicUnit}
use omf_retrieval.Indexing.Chunker.Window.{Chunker, WindowSearchBudget}
use omf_retrieval.Indexing.Chunker.Window.Fits.{Fits, FoundFrom, bounded_window_end-IsWindow}
use omf_retrieval.Indexing.Ports.{check_chunk_warning}
use omf_retrieval.Indexing.Ports.Checks.{check_chunk_warning-Halts}
use omf_retrieval.Prelude.{
  All, Bool-cases, Option, [], arith, inl, inr, length, ltb, none, some, suc, sym, true,
  value_error, zero, ℕ, ◌+◌, ◌-◌, ◌<◌, ◌∷◌,
}
use omf_retrieval.Prelude.Ensures.{Ensures, Ensures-bind, Ensures-require, Halts, refused, returned}
use omf_retrieval.Prelude.Text.{Text}

abbrev pub FitsAtomic : Chunker → Text → Excerpt → Type 0
FitsAtomic chunker heading_prefix x =
    FitsIn chunker heading_prefix chunker.config.atomic_max_tokens x

new_chunk_warning-Halts : (unit : AtomicUnit) → Halts (new_chunk_warning unit)
unfolding new_chunk_warning
new_chunk_warning-Halts unit =
    Ensures-bind (check_chunk_warning (warning_of unit)) _
      (check_chunk_warning-Halts (warning_of unit)) λ u q h. returned (warning_of unit) tt

found-Ensures :
    (counter : TokenCounter) (a : AtomicSplit) (cursor limit : ℕ)
    (r : Option ℕ × WindowSearchBudget)
    → FoundFrom counter a.excerpt.raw_text a.offsets cursor a.heading_prefix limit r.0
    → Ensures
        (λ r'.
          FoundFrom counter a.excerpt.raw_text a.offsets cursor a.heading_prefix limit (some r'.0))
        (found_or_raise r)
unfolding found_or_raise
found-Ensures counter a cursor limit (none, budget) h = refused value_error tt
found-Ensures counter a cursor limit (some e, budget) h = returned (e, budget) h

atomic_window_end-Ensures :
    (chunker : Chunker) (a : AtomicSplit) (cursor : ℕ) (budget : WindowSearchBudget)
    → BeginsAtZero a.boundaries
    → Ensures
        (λ r.
          FoundFrom chunker.counter a.excerpt.raw_text a.offsets cursor a.heading_prefix
            chunker.config.atomic_max_tokens
            (some r.0))
        (atomic_window_end chunker a cursor budget)
unfolding atomic_window_end
atomic_window_end-Ensures chunker a cursor budget z =
    Ensures-bind _ found_or_raise
      (bounded_window_end-IsWindow chunker.counter a.excerpt.raw_text a.offsets a.boundaries cursor
        (record {
          source_budget = a.source_budget;
          overlap_tokens = 0;
          allow_reduced_progress = true;
        })
        a.heading_prefix chunker.config.atomic_max_tokens budget z)
      λ found q h. found-Ensures chunker.counter a cursor chunker.config.atomic_max_tokens found h

split_unit_rounds-Ensures :
    (fuel : ℕ) (chunker : Chunker) (a : AtomicSplit) (cursor : ℕ) (budget : WindowSearchBudget)
    → BeginsAtZero a.boundaries
    → length a.offsets < cursor + fuel
    → 0 < fuel
    → Ensures
        (All (FitsAtomic chunker a.heading_prefix))
        (split_unit_rounds fuel chunker a cursor budget)
unfolding split_unit_rounds with_warning
split_unit_rounds-Ensures zero chunker a cursor budget z f l = absurd (omega arith)
split_unit_rounds-Ensures (suc fuel) chunker a cursor budget z f l =
    elim (Bool-cases (ltb cursor (length a.offsets))) [
      | inr done ↦ rw (done, split_unit_rounds) (returned [] tt)
      | inl on ↦
          rw (on, split_unit_rounds)
            (Ensures-bind (atomic_window_end chunker a cursor budget) _
              (atomic_window_end-Ensures chunker a cursor budget z)
              λ r q h.
                let w = h.2 in
                let before = w.advances in
                let within = w.within in
                Ensures-bind (slice_tokens a.excerpt a.offsets a.line_ends cursor r.0) _
                  (slice_tokens-Ensures a.excerpt a.offsets a.line_ends cursor r.0 h.0 w.last_char
                    h.1 w.last_at)
                  λ piece q' text.
                    Ensures-bind (split_unit_rounds fuel chunker a r.0 r.1) _
                      (split_unit_rounds-Ensures fuel chunker a r.0 r.1 z (omega arith)
                        (omega arith))
                      λ rest q'' h''. returned (with_warning piece a.warning ∷ rest) (
                        subst
                            (λ t.
                              Fits chunker.counter a.heading_prefix chunker.config.atomic_max_tokens
                                t)
                            (sym text) w.fits,
                        h'',
                      ))
    ]

pub split_oversized_atomic_unit-Ensures :
    (chunker : Chunker) (unit : AtomicUnit) (heading_prefix : Text)
    → Ensures
        (All (FitsAtomic chunker heading_prefix))
        (split_oversized_atomic_unit chunker unit heading_prefix)
unfolding split_oversized_atomic_unit
split_oversized_atomic_unit-Ensures chunker unit heading_prefix =
    Ensures-bind (new_chunk_warning unit) _ (new_chunk_warning-Halts unit) λ warning q h.
      Ensures-bind (token_offsets chunker.counter unit.excerpt.raw_text) _
        (token_offsets-IsOffsets chunker.counter unit.excerpt.raw_text)
        λ offsets q' h'.
          Ensures-bind (token_count chunker.counter heading_prefix) _
            (token_count-Halts chunker.counter heading_prefix)
            λ prefix_tokens q'' h''.
              Ensures-require (ltb 0 (chunker.config.atomic_max_tokens - prefix_tokens)) value_error
                _ tt
                λ room.
                  split_unit_rounds-Ensures (length offsets + 1) chunker _ 0 _
                    (token_group_boundaries-BeginsAtZero offsets) (omega arith) (omega arith)
