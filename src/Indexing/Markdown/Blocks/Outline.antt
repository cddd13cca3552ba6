-- ===== src/Indexing/Markdown/Blocks/Outline.antt =====
-- The blocks at the top of the trees of infrastructure/source/markdown.py, in the order of their
-- lines.
use mathlib.Core.List.{append-nil}
use omf_retrieval.Indexing.Markdown.{Token}
use omf_retrieval.Indexing.Markdown.Blocks.{
  Building, OpenBlock, block_of_token, built, close_to, lines_text, place, with_children,
}
use omf_retrieval.Indexing.Structure.{ParsedBlock, block_text, first_line, last_line}
use omf_retrieval.Prelude.{
  Bool, Bool-cases, List, [], ap, arith, false, inl, inr, leb, le→leb, map, none, refl, some, suc,
  sym, true, true-ne-false, zero, ℕ, ◌++◌, ◌-◌, ◌<◌, ◌∙◌, ◌∷◌, ◌≡◌, ◌≤◌,
}
use omf_retrieval.Prelude.Text.{Text}

-- the first line, the last one and the text of a block
abbrev pub Span : Type 0
Span = ℕ × (ℕ × Text)

unfoldable pub span : ParsedBlock → Span
span b = (first_line b, (last_line b, block_text b))

unfoldable pub open_span : OpenBlock → Span
open_span o = (o.line_start, (o.line_end, o.raw_text))

-- the block below all that are open; `spans` if none is
unfoldable pub bottom : List Span → List OpenBlock → List Span
unfolding open_span
bottom spans [] = spans
bottom spans (o ∷ os) = bottom (open_span o ∷ []) os

-- the blocks at the top, also the one that is open
unfoldable pub outline : Building → List Span
unfolding span bottom
outline b = map span b.roots ++ bottom [] b.open_blocks

-- Spans behind line `n`, one behind the other, that end with line `m`, each with the text of its
-- lines.
abbrev pub Laid : List Text → ℕ → List Span → ℕ → Type 0
Laid source_lines n [] m = n ≤ m
Laid source_lines n ((first, (last, text)) ∷ spans) m =
    (n < first)
    × ((first ≤ last)
        × ((text ≡ lines_text source_lines (first - 1) last) × Laid source_lines last spans m))

-- A block at level 0 has a line at least and starts behind line `n`, and one at a higher level stands
-- in an open block at level 0 (`inside`). `After` is asked of the tokens that follow.
abbrev pub StandsInOrder : (Bool → ℕ → Type 0) → Bool → ℕ → Bool → ℕ × ℕ → ℕ → Type 0
StandsInOrder After inside n opens lines zero =
    (n ≤ lines.0) × ((lines.0 < lines.1) × After opens lines.1)
StandsInOrder After inside n opens lines (suc level) = (inside ≡ true) × After inside n

-- what markdown-it makes of a document: blocks in the order of their lines
abbrev pub AreInOrder : Bool → ℕ → List Token → Type 0
AreInOrder inside n [] = Unit {0}
AreInOrder inside n (t ∷ ts) = elim (block_of_token t) [
  | none ↦ AreInOrder inside n ts
  | some found ↦
      StandsInOrder (λ inside' n'. AreInOrder inside' n' ts) inside n t.opens found.1 t.level
]

-- a block at level 0 is below all that are open
abbrev pub HasFloor : List OpenBlock → Type 0
HasFloor [] = ⊥
HasFloor (o ∷ []) = o.level ≡ 0
HasFloor (o ∷ p ∷ os) = HasFloor (p ∷ os)

pub Laid-snoc :
    (source_lines : List Text) (n m first last : ℕ) (text : Text) (spans : List Span)
    → Laid source_lines n spans m
    → m < first
    → first ≤ last
    → text ≡ lines_text source_lines (first - 1) last
    → Laid source_lines n (spans ++ (first, (last, text)) ∷ []) last
Laid-snoc source_lines n m first last text [] h k l e = (omega arith, (l, (e, omega arith)))
Laid-snoc source_lines n m first last text (s ∷ spans) h k l e =
    (h.0, (h.1.0, (h.1.1.0, Laid-snoc source_lines s.1.0 m first last text spans h.1.1.1 k l e)))

spans-snoc :
    (roots more : List ParsedBlock) → map span (roots ++ more) ≡ map span roots ++ map span more
spans-snoc [] more = refl
spans-snoc (b ∷ roots) more = ap (λ l. span b ∷ l) (spans-snoc roots more)

-- closing blocks changes none at the top
pub outline-close_to :
    (level : ℕ) (roots closed : List ParsedBlock) (os : List OpenBlock)
    → outline (close_to level roots closed os) ≡ map span roots ++ bottom (map span closed) os
unfolding outline close_to bottom span with_children built open_span
outline-close_to level roots closed [] =
    append-nil (map span (roots ++ closed)) ∙ spans-snoc roots closed
outline-close_to level roots closed (o ∷ os) = elim (Bool-cases (leb level o.level)) [
  | inl e ↦ rw e (outline-close_to level roots (built (with_children closed o) ∷ []) os)
  | inr e ↦ rw e refl
]

pub close_to-all :
    (level : ℕ) (roots closed : List ParsedBlock) (os : List OpenBlock)
    → level ≡ 0
    → (close_to level roots closed os).open_blocks ≡ []
unfolding close_to
close_to-all level roots closed [] h = refl
close_to-all level roots closed (o ∷ os) h =
    let below : leb level o.level ≡ true = le→leb level o.level (omega arith) in
    rw below (close_to-all level roots (built (with_children closed o) ∷ []) os h)

pub close_to-HasFloor :
    (level : ℕ) (roots closed : List ParsedBlock) (os : List OpenBlock)
    → HasFloor os
    → 0 < level
    → HasFloor (close_to level roots closed os).open_blocks
unfolding close_to with_children
close_to-HasFloor level roots closed [] h k = absurd h
close_to-HasFloor level roots closed (o ∷ []) h k =
    let above : leb level o.level ≡ false = ground arith in rw above h
close_to-HasFloor level roots closed (o ∷ p ∷ os) h k = elim (Bool-cases (leb level o.level)) [
  | inl e ↦ rw e (close_to-HasFloor level roots (built (with_children closed o) ∷ []) (p ∷ os) h k)
  | inr e ↦ rw e h
]

pub outline-place_top :
    (o : OpenBlock) (opens : Bool) (roots : List ParsedBlock)
    → outline (place o opens roots []) ≡ map span roots ++ open_span o ∷ []
unfolding outline place bottom span built open_span
outline-place_top o true roots = refl
outline-place_top o false roots =
    append-nil (map span (roots ++ built o ∷ [])) ∙ spans-snoc roots (built o ∷ [])

-- a block in an open one is not at the top
pub outline-place_inside :
    (o : OpenBlock) (opens : Bool) (roots : List ParsedBlock) (os : List OpenBlock)
    → HasFloor os
    → (outline (place o opens roots os) ≡ map span roots ++ bottom [] os)
      × HasFloor (place o opens roots os).open_blocks
unfolding outline place bottom with_children open_span
outline-place_inside o opens roots [] h = absurd h
outline-place_inside o true roots (p ∷ os) h = (refl, h)
outline-place_inside o false roots (p ∷ []) h = (refl, h)
outline-place_inside o false roots (p ∷ q ∷ os) h = (refl, h)

pub place_top-HasFloor :
    (o : OpenBlock) (opens : Bool) (roots : List ParsedBlock)
    → o.level ≡ 0
    → opens ≡ true
    → HasFloor (place o opens roots []).open_blocks
unfolding place
place_top-HasFloor o true roots level e = level
place_top-HasFloor o false roots level e = absurd (true-ne-false (sym e))
