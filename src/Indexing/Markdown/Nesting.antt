-- ===== src/Indexing/Markdown/Nesting.antt =====
-- Which section a section of infrastructure/source/markdown.py is under, without the stack of `parse`.
pub mod Parsing
use omf_retrieval.Indexing.Markdown.Sections.{
  HeadingEntry, entry_of, parent_ordinal_of, parent_path_of, pop_stack,
}
use omf_retrieval.Indexing.Structure.{ParsedSection, has_heading}
use omf_retrieval.Prelude.{
  Bool-cases, List, Option, [], arith, false, if◌then◌else◌, inl, inr, leb, ltb, lt→ltb, nat_beq,
  none, refl, some, sym, true, true-ne-false, ℕ, ◌&&◌, ◌++◌, ◌<◌, ◌∙◌, ◌∷◌, ◌≡◌, ◌≤◌,
}
use omf_retrieval.Prelude.Text.{Text}

-- a section without its text
pub record SectionPlace : Type 0 where
  pub ordinal : ℕ
  pub parent_ordinal : Option ℕ
  pub level : ℕ
  pub heading : Option Text
  pub heading_path : List Text

unfoldable pub place_of : ParsedSection → SectionPlace
place_of s = record {
  ordinal = s.ordinal;
  parent_ordinal = s.parent_ordinal;
  level = s.level;
  heading = s.heading;
  heading_path = s.heading_path;
}

-- the last of the earlier sections (the last one first) that has a heading of a smaller level, by
-- its ordinal and path
unfoldable pub nearest : ℕ → List SectionPlace → Option (ℕ × List Text)
nearest level [] = none
nearest level (s ∷ earlier) =
    let rest = nearest level earlier in
    if ltb 0 s.level && ltb s.level level then some (s.ordinal, s.heading_path) else rest

abbrev pub ordinal_at : Option (ℕ × List Text) → Option ℕ
ordinal_at none = none
ordinal_at (some found) = some found.0

abbrev pub path_at : Option (ℕ × List Text) → List Text
path_at none = []
path_at (some found) = found.1

abbrev pub own_heading : Option Text → List Text
own_heading none = []
own_heading (some text) = text ∷ []

-- a section's parent is the nearest one, and its path is that of its parent and its own heading
pub record IsUnder (earlier : List SectionPlace) (s : SectionPlace) : Type 0 where
  pub parent : s.parent_ordinal ≡ ordinal_at (nearest s.level earlier)
  pub path : s.heading_path ≡ path_at (nearest s.level earlier) ++ own_heading s.heading

-- each section in turn is under what comes before it
abbrev pub AreNested : List SectionPlace → List SectionPlace → Type 0
AreNested earlier [] = Unit {0}
AreNested earlier (s ∷ ss) = IsUnder earlier s × AreNested (s ∷ earlier) ss

unfoldable pub first_below : ℕ → List HeadingEntry → Option (ℕ × List Text)
first_below level [] = none
first_below level (e ∷ es) =
    let rest = first_below level es in if ltb e.level level then some (e.ordinal, e.path) else rest

-- what is popped for a heading is nearest to none of the same level or above
first_below-pop_stack :
    (level k : ℕ) (stack : List HeadingEntry)
    → level ≤ k
    → first_below level (pop_stack k stack) ≡ first_below level stack
unfolding first_below pop_stack
first_below-pop_stack level k [] h = refl
first_below-pop_stack level k (e ∷ es) h = elim (Bool-cases (leb k e.level)) [
  | inl popped ↦
      let above : ltb e.level level ≡ false = ground arith in
      rw (popped, above) (first_below-pop_stack level k es h)
  | inr kept ↦ rw kept refl
]

-- the parent of a heading is the last one that the stack keeps
pub top-pop_stack :
    (level : ℕ) (stack : List HeadingEntry)
    → (parent_ordinal_of (pop_stack level stack) ≡ ordinal_at (first_below level stack))
      × (parent_path_of (pop_stack level stack) ≡ path_at (first_below level stack))
unfolding first_below pop_stack
top-pop_stack level [] = (refl, refl)
top-pop_stack level (e ∷ es) = elim (Bool-cases (leb level e.level)) [
  | inl popped ↦
      let above : ltb e.level level ≡ false = ground arith in
      rw (popped, above) (top-pop_stack level es)
  | inr kept ↦ let below : ltb e.level level ≡ true = ground arith in rw (kept, below) (refl, refl)
]

-- the stack forgets only sections that no later one is under
unfoldable pub Recalls : List HeadingEntry → List SectionPlace → Type 0
Recalls stack earlier = (level : ℕ) → first_below level stack ≡ nearest level earlier

pub push-Recalls :
    (stack : List HeadingEntry) (earlier : List SectionPlace) (s : ParsedSection)
    → Recalls stack earlier
    → 0 < s.level
    → Recalls (entry_of s ∷ pop_stack s.level stack) (place_of s ∷ earlier)
unfolding Recalls first_below nearest entry_of place_of
push-Recalls stack earlier s agrees positive level =
    let headed : ltb 0 s.level ≡ true = lt→ltb 0 s.level positive in
    elim (Bool-cases (ltb s.level level)) [
      | inl under ↦ rw (headed, under) refl
      | inr above ↦
          rw (headed, above)
            (first_below-pop_stack level s.level stack (ground arith) ∙ agrees level)
    ]

pub heading-positive :
    (s : ParsedSection) (text : Text) → s.heading ≡ some text → has_heading s ≡ true → 0 < s.level
unfolding has_heading
heading-positive s text e h = elim (Bool-cases (nat_beq s.level 0)) [
  | inl zero_level ↦ absurd (true-ne-false (sym (rw (zero_level, e) at h)))
  | inr positive ↦ ground arith
]
