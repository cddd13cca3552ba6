-- ===== src/Indexing/Chunker/Atomic/Pack.antt =====
-- Children of a table, list or quote: the packing of its units.
use omf_retrieval.Indexing.Chunker.Atomic.{
  add_unit, pack_unit, pack_units, pending_list, split_atomic_block, split_oversized_atomic_unit,
  split_units, split_whole_block,
}
use omf_retrieval.Indexing.Chunker.Atomic.Fits.{FitsAtomic, split_oversized_atomic_unit-Ensures}
use omf_retrieval.Indexing.Chunker.Excerpt.{Excerpt, join_excerpts, trim_excerpt_whitespace_lines}
use omf_retrieval.Indexing.Chunker.Excerpt.Laws.{trim-Halts}
use omf_retrieval.Indexing.Chunker.Normal.Fits.{AllOption}
use omf_retrieval.Indexing.Chunker.Tokens.{token_count}
use omf_retrieval.Indexing.Chunker.Tokens.Laws.{token_count-Halts}
use omf_retrieval.Indexing.Chunker.Units.{
  AtomicUnit, atomic_units, block_excerpt, trim_atomic_boundary_units, trim_units, trimmed_unit,
  unit_boundaries,
}
use omf_retrieval.Indexing.Chunker.Units.Preorder.{below, descendants-eq-below}
use omf_retrieval.Indexing.Chunker.Window.{Chunker}
use omf_retrieval.Indexing.Structure.{ParsedBlock, children_of, kind_of}
use omf_retrieval.Prelude.{
  All, All-append, Bool, List, Option, [], arith, false, if◌then◌else◌, keep, leb, leb→le, list_eq,
  ltb, nat_eq, none, refl, some, true, ℕ, ◌++◌, ◌==◌, ◌||◌, ◌∷◌, ◌≡◌,
}
use omf_retrieval.Prelude.Ensures.{
  Ensures, Ensures-bind, Ensures-branch, Ensures-if, Halts, returned,
}
use omf_retrieval.Prelude.Text.{Text, codes, is_empty}

pub unit_boundaries-Halts : (b : ParsedBlock) → Halts (unit_boundaries b)
unfolding unit_boundaries
unit_boundaries-Halts b =
    let items = keep (λ child. kind_of child == codes "list_item") (children_of b) in
    Ensures-branch (kind_of b == codes "table") _ _
      (rw (descendants-eq-below b (codes "table_row")) (returned (below (codes "table_row") b) tt))
      (Ensures-branch (kind_of b == codes "bullet_list" || kind_of b == codes "ordered_list") _ _
        (returned items tt) (returned (children_of b) tt))

atomic_units-Halts :
    (b : ParsedBlock) (source_start : Option ℕ) → Halts (atomic_units b source_start)
unfolding atomic_units
atomic_units-Halts b source_start =
    Ensures-bind (unit_boundaries b) _ (unit_boundaries-Halts b) λ boundaries q h. returned _ tt

pub trim_units-Halts :
    (is_first : Bool) (units : List AtomicUnit) → Halts (trim_units is_first units)
unfolding trim_units
trim_units-Halts is_first [] = returned [] tt
trim_units-Halts is_first (unit ∷ units) =
    Ensures-bind (trim_excerpt_whitespace_lines unit.excerpt is_first (is_empty units)) _
      (trim-Halts unit.excerpt is_first (is_empty units))
      λ x q h.
        Ensures-bind (trim_units false units) _ (trim_units-Halts false units) λ rest q' h'.
          returned (if is_empty x.raw_text then rest else trimmed_unit unit x ∷ rest) tt

-- what is done fits, and so does what is pending
abbrev UnitsFit : Chunker → Text → List Excerpt × Option Excerpt → Type 0
UnitsFit chunker heading_prefix r =
    All (FitsAtomic chunker heading_prefix) r.0 × AllOption (FitsAtomic chunker heading_prefix) r.1

pending_list-All :
    (chunker : Chunker) (heading_prefix : Text) (pending : Option Excerpt)
    → AllOption (FitsAtomic chunker heading_prefix) pending
    → All (FitsAtomic chunker heading_prefix) (pending_list pending)
pending_list-All chunker heading_prefix none h = tt
pending_list-All chunker heading_prefix (some pending) h = (h, tt)

-- two ways to go on
unit_choice :
    (chunker : Chunker) (heading_prefix : Text) (b : Bool) (pending candidate x : Excerpt)
    → (b ≡ true → FitsAtomic chunker heading_prefix candidate)
    → FitsAtomic chunker heading_prefix pending
    → FitsAtomic chunker heading_prefix x
    → UnitsFit chunker heading_prefix (
        let r : List Excerpt × Excerpt = if b then ([], candidate) else (pending ∷ [], x) in
        (r.0, some r.1))
unit_choice chunker heading_prefix true pending candidate x f h k = (tt, f refl)
unit_choice chunker heading_prefix false pending candidate x f h k = ((h, tt), k)

add_unit-Ensures :
    (chunker : Chunker) (heading_prefix : Text) (pending : Option Excerpt) (x : Excerpt)
    → AllOption (FitsAtomic chunker heading_prefix) pending
    → FitsAtomic chunker heading_prefix x
    → Ensures
        (λ r. UnitsFit chunker heading_prefix (r.0, some r.1))
        (add_unit chunker heading_prefix pending x)
unfolding add_unit
add_unit-Ensures chunker heading_prefix none x h k = returned ([], x) (tt, k)
add_unit-Ensures chunker heading_prefix (some pending) x h k =
    let candidate = join_excerpts pending x in
    let text = heading_prefix ++ candidate.raw_text in
    Ensures-bind (token_count chunker.counter text) _ (token_count-Halts chunker.counter text)
      λ count q h'.
        let within = leb count chunker.config.atomic_max_tokens in
        returned (if within then ([], candidate) else (pending ∷ [], x)) (
          unit_choice chunker heading_prefix within pending candidate x
            (λ e. (count, q, leb→le count chunker.config.atomic_max_tokens e)) h k)

pack_unit-Ensures :
    (chunker : Chunker) (heading_prefix : Text) (pending : Option Excerpt) (unit : AtomicUnit)
    → AllOption (FitsAtomic chunker heading_prefix) pending
    → Ensures (UnitsFit chunker heading_prefix) (pack_unit chunker heading_prefix pending unit)
unfolding pack_unit
pack_unit-Ensures chunker heading_prefix pending unit h =
    let limit = chunker.config.atomic_max_tokens in
    let text = heading_prefix ++ unit.excerpt.raw_text in
    Ensures-bind (token_count chunker.counter text) _ (token_count-Halts chunker.counter text)
      λ count q h'.
        Ensures-if (ltb limit count) _ _
          (λ over.
            Ensures-bind (split_oversized_atomic_unit chunker unit heading_prefix) _
              (split_oversized_atomic_unit-Ensures chunker unit heading_prefix)
              λ pieces q' k.
                returned (pending_list pending ++ pieces, none)
                  (
                    All-append (FitsAtomic chunker heading_prefix) (pending_list pending) pieces
                        (pending_list-All chunker heading_prefix pending h) k,
                    tt,
                  ))
          (λ fits.
            Ensures-bind (add_unit chunker heading_prefix pending unit.excerpt) _
              (add_unit-Ensures chunker heading_prefix pending unit.excerpt h
                (count, q, ground arith))
              λ r q' k. returned (r.0, some r.1) k)

pack_units-Ensures :
    (chunker : Chunker) (heading_prefix : Text) (chunks : List Excerpt) (pending : Option Excerpt)
    (units : List AtomicUnit)
    → UnitsFit chunker heading_prefix (chunks, pending)
    → Ensures
        (All (FitsAtomic chunker heading_prefix))
        (pack_units chunker heading_prefix chunks pending units)
unfolding pack_units
pack_units-Ensures chunker heading_prefix chunks pending [] h =
    returned (chunks ++ pending_list pending) (
      All-append (FitsAtomic chunker heading_prefix) chunks (pending_list pending) h.0
        (pending_list-All chunker heading_prefix pending h.1))
pack_units-Ensures chunker heading_prefix chunks pending (unit ∷ units) h =
    Ensures-bind (pack_unit chunker heading_prefix pending unit) _
      (pack_unit-Ensures chunker heading_prefix pending unit h.1)
      λ r q k.
        pack_units-Ensures chunker heading_prefix (chunks ++ r.0) r.1 units
          (All-append (FitsAtomic chunker heading_prefix) chunks r.0 h.0 k.0, k.1)

split_units-Ensures :
    (chunker : Chunker) (b : ParsedBlock) (heading_prefix : Text) (source_start : Option ℕ)
    → Ensures
        (All (FitsAtomic chunker heading_prefix))
        (split_units chunker b heading_prefix source_start)
unfolding split_units trim_atomic_boundary_units
split_units-Ensures chunker b heading_prefix source_start =
    Ensures-bind (atomic_units b source_start) _ (atomic_units-Halts b source_start) λ units q h.
      Ensures-bind (trim_units true units) _ (trim_units-Halts true units)
        λ trimmed q' h'. pack_units-Ensures chunker heading_prefix [] none trimmed (tt, tt)

split_whole_block-Ensures :
    (chunker : Chunker) (b : ParsedBlock) (x : Excerpt) (heading_prefix : Text)
    (source_start : Option ℕ)
    → Ensures
        (All (FitsAtomic chunker heading_prefix))
        (split_whole_block chunker b x heading_prefix source_start)
unfolding split_whole_block
split_whole_block-Ensures chunker b x heading_prefix source_start =
    let text = heading_prefix ++ x.raw_text in
    Ensures-bind (token_count chunker.counter text) _ (token_count-Halts chunker.counter text)
      λ count q h.
        let limit = chunker.config.atomic_max_tokens in
        Ensures-if (leb count limit) _ _
          (λ fits. returned (x ∷ []) ((count, q, leb→le count limit fits), tt))
          (λ over. split_units-Ensures chunker b heading_prefix source_start)

-- Every child of a table, list or quote has at most the atomic limit of tokens, its heading
-- included, and the loops that make the children end.
pub split_atomic_block-Ensures :
    (chunker : Chunker) (b : ParsedBlock) (heading_prefix : Text) (source_start : Option ℕ)
    → Ensures
        (All (FitsAtomic chunker heading_prefix))
        (split_atomic_block chunker b heading_prefix source_start)
unfolding split_atomic_block
split_atomic_block-Ensures chunker b heading_prefix source_start =
    Ensures-bind (trim_excerpt_whitespace_lines (block_excerpt b source_start) true true) _
      (trim-Halts (block_excerpt b source_start) true true)
      λ x q h.
        Ensures-branch (is_empty x.raw_text) _ _ (returned [] tt)
          (split_whole_block-Ensures chunker b x heading_prefix source_start)
