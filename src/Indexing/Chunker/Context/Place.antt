-- ===== src/Indexing/Chunker/Context/Place.antt =====
-- The place of a match in the block that holds it, infrastructure/source/chunker.py.
use mathlib.Core.List.{append_assoc}
use omf_retrieval.Indexing.Chunker.Context.Parts.{unique_occurrence}
use omf_retrieval.Indexing.Chunker.Context.Select.{Match, place_in_block}
use omf_retrieval.Indexing.Chunker.Excerpt.{Excerpt, total_length}
use omf_retrieval.Indexing.Chunker.Source.Lines.{total_length-joined}
use omf_retrieval.Indexing.Markdown.Blocks.{lines_text, place}
use omf_retrieval.Indexing.Markdown.Coverage.{lines_text-append}
use omf_retrieval.Indexing.Ports.Lines.{joined}
use omf_retrieval.Prelude.{
  &&-split, Bool-cases, List, Option-cases, ap, arith, drop, if◌then◌else◌, inl, inr, is_some, leb,
  leb→le, length, length-append, list_eq, nat_eq, none, none-ne-some, refl, some, some_injective,
  sym, take, value_error, ℕ, ◌&&◌, ◌++◌, ◌+◌, ◌-◌, ◌==◌, ◌∙◌, ◌≡◌, ◌≤◌,
}
use omf_retrieval.Prelude.Ensures.{Ensures, Ensures-require, refused, returned}
use omf_retrieval.Prelude.Infix.{StandsAt, find, find-StandsAt}
use omf_retrieval.Prelude.Slices.{slice}
use omf_retrieval.Prelude.Slices.Laws.{slice_middle}
use omf_retrieval.Prelude.Text.{Text}

-- a place in a text at which a part of it stands
abbrev pub IsPlace : Text → Text → ℕ → Type 0
IsPlace text part p = (p + length part ≤ length text) × (slice text p (p + length part) ≡ part)

middle-IsPlace :
    (text before part after : Text) (p : ℕ)
    → text ≡ before ++ (part ++ after)
    → p ≡ length before
    → IsPlace text part p
middle-IsPlace text before part after p e at =
    let size : length text ≡ length before + (length part + length after) =
      ap length e
      ∙ length-append before (part ++ after)
      ∙ ap (λ n. length before + n) (length-append part after) in
    rw (e, at) (omega (arith, sym (ap length e) ∙ size), slice_middle before part after)

pub lines_text_prefix :
    (source_lines : List Text) (n : ℕ) → lines_text source_lines 0 n ≡ joined (take n source_lines)
unfolding lines_text slice drop
lines_text_prefix source_lines n = let whole : n - 0 ≡ n = omega arith in rw whole refl

-- the characters before a line and those from there to another one
total_length-lines_text :
    (source_lines : List Text) (i j : ℕ)
    → i ≤ j
    → total_length (take j source_lines)
      ≡ total_length (take i source_lines) + length (lines_text source_lines i j)
total_length-lines_text source_lines i j h =
    total_length-joined (take j source_lines)
    ∙ ap length (
        sym (lines_text_prefix source_lines j)
        ∙ sym (lines_text-append source_lines 0 i j (omega arith) h))
    ∙ length-append (lines_text source_lines 0 i) (lines_text source_lines i j)
    ∙ ap (λ n. n + length (lines_text source_lines i j))
        (ap length (lines_text_prefix source_lines i)
          ∙ sym (total_length-joined (take i source_lines)))

unique_occurrence-StandsAt :
    (source target : Text) (i : ℕ)
    → unique_occurrence source target ≡ some i
    → StandsAt i target source
unfolding unique_occurrence
unique_occurrence-StandsAt source target i e = elim (Option-cases (find source target)) [
  | inl missing ↦ absurd (none-ne-some (rw (missing, unique_occurrence) at e))
  | inr (j, found) ↦
      let e' : (if is_some (find (drop (j + 1) source) target) then none else some j) ≡ some i =
        rw (found, unique_occurrence) at e in
      elim (Bool-cases (is_some (find (drop (j + 1) source) target))) [
        | inl again ↦ absurd (none-ne-some (rw again at e'))
        | inr once ↦
            let same : j ≡ i = some_injective (rw once at e') in
            rw (← same) (find-StandsAt source target j found)
      ]
]

-- a block from line `f` to line `l` around the lines of the match
module _ (source_lines : List Text) (m : Match) (x : Excerpt) (f l : ℕ) where
  occurrence-IsPlace :
      f ≤ m.line_start
      → m.line_start ≤ m.line_end
      → m.line_end ≤ l
      → x.raw_text ≡ lines_text source_lines (f - 1) l
      → (i : ℕ) → StandsAt i m.raw_text (lines_text source_lines (m.line_start - 1) m.line_end)
      → IsPlace x.raw_text m.raw_text (
          total_length (take (m.line_start - 1) source_lines)
          + i
          - total_length (take (f - 1) source_lines))
  occurrence-IsPlace low ordered high text i (before, (after, (whole, at))) =
      let head = lines_text source_lines (f - 1) (m.line_start - 1) in
      let tail = lines_text source_lines m.line_end l in
      let lines = lines_text source_lines (m.line_start - 1) m.line_end in
      let split : x.raw_text ≡ head ++ (lines ++ tail) =
        text
        ∙ sym (
            ap (λ t. head ++ t)
              (lines_text-append source_lines (m.line_start - 1) m.line_end l (omega arith) high)
            ∙ lines_text-append source_lines (f - 1) (m.line_start - 1) l (omega arith)
                (omega arith)) in
      let all : x.raw_text ≡ (head ++ before) ++ (m.raw_text ++ (after ++ tail)) =
        split
        ∙ ap (λ t. head ++ (t ++ tail)) whole
        ∙ ap (λ t. head ++ t)
            (append_assoc before (m.raw_text ++ after) tail
              ∙ ap (λ t. before ++ t) (append_assoc m.raw_text after tail))
        ∙ sym (append_assoc head before (m.raw_text ++ (after ++ tail))) in
      let more = total_length-lines_text source_lines (f - 1) (m.line_start - 1) (omega arith) in
      middle-IsPlace x.raw_text (head ++ before) m.raw_text (after ++ tail) _ all
        (omega (arith, more, at, length-append head before))

  pub place_in_block-IsPlace :
      f ≤ m.line_start
      → m.line_start ≤ m.line_end
      → m.line_end ≤ l
      → x.raw_text ≡ lines_text source_lines (f - 1) l
      → Ensures
          (IsPlace x.raw_text m.raw_text)
          (place_in_block source_lines m x (total_length (take (f - 1) source_lines)))
  unfolding place_in_block
  place_in_block-IsPlace low ordered high text = elim (Option-cases m.source_start) [
    | inr (place, e) ↦
        rw (e, place_in_block)
          (let block_start = total_length (take (f - 1) source_lines) in
            let p = place - block_start in
            Ensures-require
              (leb block_start place
                && leb (p + length m.raw_text) (length x.raw_text)
                && slice x.raw_text p (p + length m.raw_text) == m.raw_text)
              value_error _ tt
              λ h.
                let (before, same) = &&-split _ _ h in
                let (_, inside) = &&-split _ _ before in
                returned p (
                  leb→le (p + length m.raw_text) (length x.raw_text) inside,
                  (list_eq.beq_iff (slice x.raw_text p (p + length m.raw_text)) m.raw_text).0 same,
                ))
    | inl e ↦
        let lines = lines_text source_lines (m.line_start - 1) m.line_end in
        elim (Option-cases (unique_occurrence lines m.raw_text)) [
          | inl missing ↦ rw (e, place_in_block, missing) (refused value_error tt)
          | inr (i, found) ↦
              rw (e, place_in_block, found)
                (returned _ (
                  occurrence-IsPlace low ordered high text i
                    (unique_occurrence-StandsAt lines m.raw_text i found)))
        ]
  ]
