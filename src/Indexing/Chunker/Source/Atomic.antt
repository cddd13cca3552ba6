-- ===== src/Indexing/Chunker/Source/Atomic.antt =====
-- Children of a table, list or quote are exact slices.
use mathlib.Core.Path.{subst}
use omf_retrieval.Indexing.Chunker.Atomic.{
  AtomicSplit, add_unit, atomic_window_end, new_chunk_warning, pack_unit, pack_units, pending_list,
  split_atomic_block, split_oversized_atomic_unit, split_unit_rounds, split_units,
  split_whole_block,
}
use omf_retrieval.Indexing.Chunker.Atomic.Fits.{split_oversized_atomic_unit-Ensures}
use omf_retrieval.Indexing.Chunker.Excerpt.{
  Excerpt, join_excerpts, trim_excerpt_whitespace_lines, with_warning,
}
use omf_retrieval.Indexing.Chunker.Normal.{slice_tokens}
use omf_retrieval.Indexing.Chunker.Normal.Fits.{AllOption}
use omf_retrieval.Indexing.Chunker.Source.{At, IsSource, join-At}
use omf_retrieval.Indexing.Chunker.Source.Lines.{trim-At}
use omf_retrieval.Indexing.Chunker.Source.Normal.{slice_tokens-IsSource}
use omf_retrieval.Indexing.Chunker.Source.Packing.{EndsAt}
use omf_retrieval.Indexing.Chunker.Source.Units.{
  IsAscending, UnitChain, atomic_units-UnitChain, block_excerpt-At, trim_units-UnitChain,
}
use omf_retrieval.Indexing.Chunker.Tokens.{token_count, token_offsets}
use omf_retrieval.Indexing.Chunker.Tokens.Laws.{
  IsWithin, token_count-Halts, token_offsets-IsOffsets,
}
use omf_retrieval.Indexing.Chunker.Units.{
  AtomicUnit, atomic_units, block_excerpt, trim_atomic_boundary_units, trim_units,
}
use omf_retrieval.Indexing.Chunker.Window.{Chunker, WindowSearchBudget}
use omf_retrieval.Indexing.Ports.{ChunkWarning}
use omf_retrieval.Indexing.Structure.{ParsedBlock, block_text}
use omf_retrieval.Prelude.{
  >>=-elim, All, All-append, Bool-cases, List, Option, [], false, if◌then◌else◌, inl, inr, leb,
  length, ltb, none, ok, ok-injective, raise-ne-ok, require, some, suc, true, value_error, zero, ℕ,
  ◌++◌, ◌+◌, ◌-◌, ◌∷◌, ◌≡◌, ◌≤◌,
}
use omf_retrieval.Prelude.Ensures.{
  Ensures, Ensures-at, Ensures-bind, Ensures-branch, Ensures-with, returned,
}
use omf_retrieval.Prelude.Slices.{slice}
use omf_retrieval.Prelude.Text.{Text, is_empty}

module _ (chunker : Chunker) (body : Text) where
  split_unit_rounds-IsSource :
      (fuel : ℕ) (a : AtomicSplit) (i j cursor : ℕ) (budget : WindowSearchBudget)
      {xs : List Excerpt}
      → At body i j a.excerpt
      → All (IsWithin (length a.excerpt.raw_text)) a.offsets
      → split_unit_rounds fuel chunker a cursor budget ≡ ok xs
      → All (IsSource body) xs
  unfolding split_unit_rounds with_warning
  split_unit_rounds-IsSource zero a i j cursor budget at w e = absurd (raise-ne-ok e)
  split_unit_rounds-IsSource (suc fuel) a i j cursor budget {xs} at w e =
      elim (Bool-cases (ltb cursor (length a.offsets))) [
        | inr done ↦
            subst (All (IsSource body)) (ok-injective (rw (done, split_unit_rounds) at e)) tt
        | inl on ↦
            >>=-elim (atomic_window_end chunker a cursor budget) _ (rw (on, split_unit_rounds) at e)
              λ r q e1.
                >>=-elim (slice_tokens a.excerpt a.offsets a.line_ends cursor r.0) _ e1
                  λ piece q' e2.
                    >>=-elim (split_unit_rounds fuel chunker a r.0 r.1) _ e2 λ rest q'' e3.
                      let (k, m, s) =
                        Ensures-at
                          (slice_tokens-IsSource body i j a.excerpt at a.offsets a.line_ends w
                            cursor r.0)
                          q' in
                      subst (All (IsSource body)) (ok-injective e3) (
                        (k, m, warned k m piece a.warning s),
                        split_unit_rounds-IsSource fuel a i j r.0 r.1 at w q'',
                      )
      ]
    where
      warned :
          (k m : ℕ) (piece : Excerpt) (warning : ChunkWarning)
          → At body k m piece
          → At body k m (with_warning piece warning)
      warned k m piece warning s = record {
        starts = s.starts;
        ends = s.ends;
        ordered = s.ordered;
        within = s.within;
        text = s.text;
      }

  split_oversized_atomic_unit-IsSource :
      (unit : AtomicUnit) (heading_prefix : Text) (i j : ℕ)
      → At body i j unit.excerpt
      → Ensures (All (IsSource body)) (split_oversized_atomic_unit chunker unit heading_prefix)
  unfolding split_oversized_atomic_unit
  split_oversized_atomic_unit-IsSource unit heading_prefix i j at =
      Ensures-with (split_oversized_atomic_unit-Ensures chunker unit heading_prefix) λ xs e.
        >>=-elim (new_chunk_warning unit) _ e λ warning q e1.
          >>=-elim (token_offsets chunker.counter unit.excerpt.raw_text) _ e1 λ offsets q' e2.
            >>=-elim (token_count chunker.counter heading_prefix) _ e2 λ prefix_tokens q'' e3.
              >>=-elim
                (require (ltb 0 (chunker.config.atomic_max_tokens - prefix_tokens)) value_error) _
                e3
                λ u q''' e4.
                  let o =
                    Ensures-at (token_offsets-IsOffsets chunker.counter unit.excerpt.raw_text) q' in
                  split_unit_rounds-IsSource (length offsets + 1) _ i j 0 _ at o.within e4

  -- what is done is a slice, and what is pending ends at `j`
  abbrev UnitsAt : ℕ → List Excerpt × Option Excerpt → Type 0
  UnitsAt j r = All (IsSource body) r.0 × AllOption (EndsAt body j) r.1

  pending_list-IsSource :
      (j : ℕ) (pending : Option Excerpt)
      → AllOption (EndsAt body j) pending
      → All (IsSource body) (pending_list pending)
  pending_list-IsSource j none h = tt
  pending_list-IsSource j (some x) (i, at) = ((i, j, at), tt)

  add_unit-At :
      (heading_prefix : Text) (i j : ℕ) (pending : Option Excerpt) (x : Excerpt)
      → AllOption (EndsAt body i) pending
      → At body i j x
      → Ensures (λ r. UnitsAt j (r.0, some r.1)) (add_unit chunker heading_prefix pending x)
  unfolding add_unit
  add_unit-At heading_prefix i j none x h at = returned ([], x) (tt, (i, at))
  add_unit-At heading_prefix i j (some pending) x (k, h) at =
      let candidate = join_excerpts pending x in
      let text = heading_prefix ++ candidate.raw_text in
      Ensures-bind (token_count chunker.counter text) _ (token_count-Halts chunker.counter text)
        λ count q u.
          returned
            (if leb count chunker.config.atomic_max_tokens
              then ([], candidate)
              else (pending ∷ [], x))
            (elim (leb count chunker.config.atomic_max_tokens)
              as (λ c.
                let r : List Excerpt × Excerpt = if c then ([], candidate) else (pending ∷ [], x) in
                UnitsAt j (r.0, some r.1)) [
                  | true ↦ (tt, (k, join-At body k i j pending x h at))
                  | false ↦ (((k, i, h), tt), (i, at))
                ])

  pack_unit-At :
      (heading_prefix : Text) (i j : ℕ) (pending : Option Excerpt) (unit : AtomicUnit)
      → AllOption (EndsAt body i) pending
      → At body i j unit.excerpt
      → Ensures (UnitsAt j) (pack_unit chunker heading_prefix pending unit)
  unfolding pack_unit
  pack_unit-At heading_prefix i j pending unit h at =
      let text = heading_prefix ++ unit.excerpt.raw_text in
      Ensures-bind (token_count chunker.counter text) _ (token_count-Halts chunker.counter text)
        λ count q u.
          Ensures-branch (ltb chunker.config.atomic_max_tokens count) _ _
            (Ensures-bind (split_oversized_atomic_unit chunker unit heading_prefix) _
              (split_oversized_atomic_unit-IsSource unit heading_prefix i j at)
              λ pieces q' s.
                returned (pending_list pending ++ pieces, none)
                  (
                    All-append (IsSource body) (pending_list pending) pieces
                        (pending_list-IsSource i pending h) s,
                    tt,
                  ))
            (Ensures-bind (add_unit chunker heading_prefix pending unit.excerpt) _
              (add_unit-At heading_prefix i j pending unit.excerpt h at)
              λ r q' s. returned (r.0, some r.1) s)

  pack_units-IsSource :
      (heading_prefix : Text) (i k : ℕ) (chunks : List Excerpt) (pending : Option Excerpt)
      (units : List AtomicUnit)
      → UnitsAt i (chunks, pending)
      → UnitChain body i units k
      → Ensures (All (IsSource body)) (pack_units chunker heading_prefix chunks pending units)
  unfolding pack_units
  pack_units-IsSource heading_prefix i k chunks pending [] (c, h) chain =
      returned (chunks ++ pending_list pending) (
        All-append (IsSource body) chunks (pending_list pending) c
          (pending_list-IsSource i pending h))
  pack_units-IsSource heading_prefix i k chunks pending (unit ∷ units) (c, h) (j, at, chain) =
      Ensures-bind (pack_unit chunker heading_prefix pending unit) _
        (pack_unit-At heading_prefix i j pending unit h at)
        λ r q s.
          pack_units-IsSource heading_prefix j k (chunks ++ r.0) r.1 units
            (All-append (IsSource body) chunks r.0 c s.0, s.1) chain

  -- Children of a block whose parts are in line order are exact slices of the body.
  pub split_atomic_block-IsSource :
      (b : ParsedBlock) (heading_prefix : Text) (a : ℕ)
      → IsAscending b
      → a + length (block_text b) ≤ length body
      → block_text b ≡ slice body a (a + length (block_text b))
      → Ensures (All (IsSource body)) (split_atomic_block chunker b heading_prefix (some a))
  unfolding split_atomic_block split_whole_block split_units trim_atomic_boundary_units
  split_atomic_block-IsSource b heading_prefix a asc h t =
      let end = a + length (block_text b) in
      Ensures-bind (trim_excerpt_whitespace_lines (block_excerpt b (some a)) true true) _
        (trim-At body a end (block_excerpt b (some a)) true true (block_excerpt-At body a b h t))
        λ whole q s.
          let text = heading_prefix ++ whole.raw_text in
          Ensures-branch (is_empty whole.raw_text) _ _ (returned [] tt) (
            Ensures-bind (token_count chunker.counter text) _
              (token_count-Halts chunker.counter text)
              λ count q' u.
                Ensures-branch (leb count chunker.config.atomic_max_tokens) _ _
                  (returned (whole ∷ []) ((s.0, s.1, s.2), tt))
                  (Ensures-bind (atomic_units b (some a)) _
                    (atomic_units-UnitChain body a b h t asc)
                    λ units q'' (i, k, chain).
                      Ensures-bind (trim_units true units) _
                        (trim_units-UnitChain body i k true units chain)
                        λ trimmed q''' (i', k', chain', meets).
                          pack_units-IsSource heading_prefix i' k' [] none trimmed (tt, tt) chain'))
