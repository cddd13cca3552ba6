-- ===== src/Indexing/Markdown/Total/Sections.antt =====
-- The sections of infrastructure/source/markdown.py pass their checks where the headings of the
-- document are in order.
use omf_retrieval.Indexing.Markdown.{Token}
use omf_retrieval.Indexing.Markdown.Headings.{
  Heading, add_heading, heading_level, heading_lines, new_heading, top_level_headings,
}
use omf_retrieval.Indexing.Markdown.Sections.{
  HeadingEntry, checked_section, heading_section, next_line, parent_ordinal_of, parent_path_of,
  pop_stack,
}
use omf_retrieval.Indexing.Structure.{
  ParsedSection, check_parsed_section, has_heading, is_earlier, is_inside, last_of,
  require_inclusive_line_range,
}
use omf_retrieval.Prelude.{
  &&-intro, ==_refl, All, Bool-cases, List, Option, Option-cases, Result, [], all, arith, false,
  inl, inr, leb, length, le→leb, list_eq, lt→ltb, nat_beq, nat_eq, none, ok, option_eq, refl, some,
  true, ℕ, ◌&&◌, ◌++◌, ◌+◌, ◌-◌, ◌<◌, ◌∷◌, ◌≡◌, ◌≤◌,
}
use omf_retrieval.Prelude.Text.{Text}

-- a heading of a level from 1 to 6, with the token of its text behind it
abbrev pub IsHeading : Token → List Token → Type 0
IsHeading t [] = ⊥
IsHeading t (inline ∷ tokens) =
    (level : ℕ) × ((heading_level t.tag ≡ ok level) × ((1 ≤ level) × (level ≤ 6)))

-- What markdown-it makes of a document: its headings are in order behind line `n`, and the last ends
-- with line `end` at the latest.
abbrev pub HaveHeadings : ℕ → ℕ → List Token → Type 0
HaveHeadings end n [] = n ≤ end
HaveHeadings end n (t ∷ ts) = elim (heading_lines t) [
  | none ↦ HaveHeadings end n ts
  | some lines ↦
      IsHeading t ts × ((n ≤ lines.0) × ((lines.0 < lines.1) × HaveHeadings end lines.1 ts))
]

-- the same for the headings that are made of the tokens
abbrev pub AreHeadings : ℕ → ℕ → List Heading → Type 0
AreHeadings end m [] = m ≤ end + 1
AreHeadings end m (h ∷ hs) =
    (m ≤ h.line_start)
    × ((h.line_start < h.line_after)
        × (((1 ≤ h.level) × (h.level ≤ 6)) × AreHeadings end h.line_after hs))

abbrev ReturnsHeadings : ℕ → ℕ → Result (List Heading) → Type 0
ReturnsHeadings end m r = (hs : List Heading) × ((r ≡ ok hs) × AreHeadings end m hs)

add_heading_returns :
    (t : Token) (tokens : List Token) (end n : ℕ) (lines : ℕ × ℕ) (rest : Result (List Heading))
    → IsHeading t tokens
    → n ≤ lines.0
    → lines.0 < lines.1
    → ReturnsHeadings end (lines.1 + 1) rest
    → ReturnsHeadings end (n + 1) (add_heading (some lines) t tokens rest)
unfolding add_heading new_heading
add_heading_returns t [] end n lines rest h before filled more = absurd h
add_heading_returns t (inline ∷ tokens) end n lines rest h before filled more =
    let heading : Heading = record {
      level = h.0;
      text = inline.content;
      line_start = lines.0 + 1;
      line_after = lines.1 + 1;
    } in
    (heading ∷ more.0, (rw (h.1.0, more.1.0) refl, (omega arith, (omega arith, (h.1.1, more.1.1)))))

pub top_level_headings_returns :
    (tokens : List Token) (end n : ℕ)
    → HaveHeadings end n tokens
    → ReturnsHeadings end (n + 1) (top_level_headings tokens)
unfolding top_level_headings add_heading
top_level_headings_returns [] end n h = ([], (refl, omega arith))
top_level_headings_returns (t ∷ ts) end n h = elim (Option-cases (heading_lines t)) [
  | inl e ↦ rw e (top_level_headings_returns ts end n (rw (e, HaveHeadings) at h))
  | inr (lines, e) ↦
      let h' = rw (e, HaveHeadings) at h in
      rw e (
        add_heading_returns t ts end n lines (top_level_headings ts) h'.0 h'.1.0 h'.1.1.0
          (top_level_headings_returns ts end lines.1 h'.1.1.1))
]

-- what the checks of a section ask, but for its blocks
pub record IsInOrder (s : ParsedSection) : Type 0 where
  pub earlier : is_earlier s.ordinal s.parent_ordinal ≡ true
  pub bounded : leb s.level 6 ≡ true
  pub headed : has_heading s ≡ true
  pub ranged : (leb 1 s.line_start && leb s.line_start s.line_end) ≡ true

pub checked_section_ok :
    (s : ParsedSection)
    → IsInOrder s
    → all (is_inside s.line_start s.line_end) s.blocks ≡ true
    → checked_section s ≡ ok s
unfolding checked_section check_parsed_section require_inclusive_line_range
checked_section_ok s o h = rw (o.earlier, o.bounded, o.headed, o.ranged, h) refl

pub pop_stack-All :
    (P : HeadingEntry → Type 0) (level : ℕ) (stack : List HeadingEntry)
    → All P stack
    → All P (pop_stack level stack)
unfolding pop_stack
pop_stack-All P level [] h = tt
pop_stack-All P level (e ∷ es) h = elim (Bool-cases (leb level e.level)) [
  | inl popped ↦ rw popped (pop_stack-All P level es h.1)
  | inr kept ↦ rw kept h
]

parent_earlier :
    (ordinal : ℕ) (stack : List HeadingEntry)
    → All (λ e. e.ordinal < ordinal) stack
    → is_earlier ordinal (parent_ordinal_of stack) ≡ true
parent_earlier ordinal [] h = refl
parent_earlier ordinal (e ∷ es) h = lt→ltb e.ordinal ordinal h.0

last_of-snoc : (path : List Text) (text : Text) → last_of (path ++ text ∷ []) ≡ some text
last_of-snoc [] text = refl
last_of-snoc (x ∷ []) text = refl
last_of-snoc (x ∷ y ∷ path) text = last_of-snoc (y ∷ path) text

-- a section starts before the next one
pub next_line-le :
    (source_lines : List Text) (m : ℕ) (hs : List Heading)
    → AreHeadings (length source_lines) m hs
    → m ≤ next_line source_lines hs
next_line-le source_lines m [] h = h
next_line-le source_lines m (h ∷ hs) laid = laid.0

pub heading_section-IsInOrder :
    (source_lines : List Text) (ordinal : ℕ) (stack : List HeadingEntry) (h : Heading) (end : ℕ)
    → All (λ e. e.ordinal < ordinal) stack
    → 1 ≤ h.line_start
    → h.line_start < end
    → 1 ≤ h.level
    → h.level ≤ 6
    → IsInOrder (heading_section source_lines ordinal stack h end)
unfolding heading_section has_heading
heading_section-IsInOrder source_lines ordinal stack h end older first filled low high =
    let above : nat_beq h.level 0 ≡ false = ground arith in
    record {
      earlier = parent_earlier ordinal stack older;
      bounded = le→leb h.level 6 high;
      headed =
          rw (above, last_of-snoc (parent_path_of stack) h.text)
            (==_refl {A = Option Text} (some h.text));
      ranged =
          &&-intro _ _ (le→leb 1 h.line_start first) (le→leb h.line_start (end - 1) (omega arith));
    }
