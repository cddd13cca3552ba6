-- ===== src/Indexing/Chunker/Source/Units.antt =====
-- The units of a block whose boundaries are in line order meet, and are exact slices.
use mathlib.Core.Path.{subst}
use omf_retrieval.Indexing.Chunker.Atomic.Pack.{unit_boundaries-Halts}
use omf_retrieval.Indexing.Chunker.Excerpt.{Excerpt, total_length, trim_excerpt_whitespace_lines}
use omf_retrieval.Indexing.Chunker.Source.{At}
use omf_retrieval.Indexing.Chunker.Source.Lines.{
  TrimmedAt, total_length-le, total_length-lines, total_length_mono, trim-At,
}
use omf_retrieval.Indexing.Chunker.Units.{
  AtomicUnit, atomic_units, block_excerpt, slice_excerpt_lines, trim_units, trimmed_unit,
  unit_boundaries, units_from, whole_unit,
}
use omf_retrieval.Indexing.Ports.{split_physical_lines}
use omf_retrieval.Indexing.Structure.{ParsedBlock, block_text, first_line, last_line}
use omf_retrieval.Prelude.{
  Bool, Bool-cases, List, [], ap, arith, false, if◌then◌else◌, inl, inr, length, ok, refl, some,
  sym, take, true, ℕ, ◌+◌, ◌-◌, ◌<◌, ◌∙◌, ◌∷◌, ◌≡◌, ◌≤◌,
}
use omf_retrieval.Prelude.Ensures.{Ensures, Ensures-bind, returned}
use omf_retrieval.Prelude.Slices.{slice}
use omf_retrieval.Prelude.Slices.Laws.{slice-slice}
use omf_retrieval.Prelude.Text.{Text, is_empty}

-- units of which each begins where the one before it ends
abbrev pub UnitChain : Text → ℕ → List AtomicUnit → ℕ → Type 0
UnitChain body i [] k = i ≡ k
UnitChain body i (u ∷ us) k = (j : ℕ) × At body i j u.excerpt × UnitChain body j us k

-- boundaries in line order, from a line on, up to the last line of the block
abbrev pub Ascending : ℕ → ℕ → List ParsedBlock → Type 0
Ascending line_start last [] = Unit
Ascending line_start last (b ∷ []) = line_start ≤ last + 1
Ascending line_start last (b ∷ after ∷ bs) =
    (line_start ≤ first_line after)
    × (0 < first_line after)
    × Ascending (first_line after) last (after ∷ bs)

-- the parts of a block follow one another, as a parser lists them
abbrev pub IsAscending : ParsedBlock → Type 0
IsAscending b =
    (boundaries : List ParsedBlock)
    → unit_boundaries b ≡ ok boundaries
    → Ascending (first_line b) (last_line b) boundaries

pub block_excerpt-At :
    (body : Text) (a : ℕ) (b : ParsedBlock)
    → a + length (block_text b) ≤ length body
    → block_text b ≡ slice body a (a + length (block_text b))
    → At body a (a + length (block_text b)) (block_excerpt b (some a))
unfolding block_excerpt
block_excerpt-At body a b h t = record {
  starts = refl;
  ends = refl;
  ordered = omega arith;
  within = h;
  text = t;
}

-- the characters of a block before a line
line_place : ParsedBlock → ℕ → ℕ
line_place b line = total_length (take (line - first_line b) (split_physical_lines (block_text b)))

line_place_mono : (b : ParsedBlock) (i j : ℕ) → i ≤ j → line_place b i ≤ line_place b j
unfolding line_place
line_place_mono b i j h = total_length_mono _ _ _ (omega arith)

line_place-le : (b : ParsedBlock) (i : ℕ) → line_place b i ≤ length (block_text b)
unfolding line_place
line_place-le b i = omega (
  arith,
  total_length-le (i - first_line b) (split_physical_lines (block_text b)),
  total_length-lines (block_text b),
)

module _ (body : Text) (a : ℕ) (b : ParsedBlock) (h : a + length (block_text b) ≤ length body)
    (t : block_text b ≡ slice body a (a + length (block_text b))) where
  slice_excerpt_lines-At :
      (i j : ℕ)
      → i ≤ j + 1
      → At body (a + line_place b i) (a + line_place b (j + 1)) (slice_excerpt_lines b i j (some a))
  unfolding slice_excerpt_lines line_place
  slice_excerpt_lines-At i j le =
      let lines = split_physical_lines (block_text b) in
      let first = total_length (take (i - first_line b) lines) in
      let last = total_length (take (j + 1 - first_line b) lines) in
      let order : first ≤ last = line_place_mono b i (j + 1) le in
      let end : last ≤ length (block_text b) = line_place-le b (j + 1) in
      record {
        starts = refl;
        ends = refl;
        ordered = omega arith;
        within = omega arith;
        text =
            ap (λ s. slice s first last) t
            ∙ slice-slice body a (a + length (block_text b)) first last order (omega arith);
      }

  units_from-UnitChain :
      (i : ℕ) (boundary : ParsedBlock) (bs : List ParsedBlock)
      → Ascending i (last_line b) (boundary ∷ bs)
      → UnitChain body
          (a + line_place b i)
          (units_from b (some a) i (boundary ∷ bs))
          (a + line_place b (last_line b + 1))
  unfolding units_from
  units_from-UnitChain i boundary [] le =
      (a + line_place b (last_line b + 1), slice_excerpt_lines-At i (last_line b) le, refl)
  units_from-UnitChain i boundary (after ∷ bs) (le, numbered, rest) =
      let there : first_line after - 1 + 1 ≡ first_line after = omega arith in
      (
        a + line_place b (first_line after),
        subst
            (λ n.
              At body (a + line_place b i) (a + line_place b n)
                (slice_excerpt_lines b i (first_line after - 1) (some a)))
            there (slice_excerpt_lines-At i (first_line after - 1) (omega arith)),
        units_from-UnitChain (first_line after) after bs rest,
      )

  -- all units of the block
  pub atomic_units-UnitChain :
      IsAscending b
      → Ensures (λ us. (i : ℕ) × (k : ℕ) × UnitChain body i us k) (atomic_units b (some a))
  unfolding atomic_units whole_unit
  atomic_units-UnitChain asc =
      Ensures-bind (unit_boundaries b) _ (unit_boundaries-Halts b) λ boundaries q u.
        returned
          (if is_empty boundaries
            then whole_unit b (some a) ∷ []
            else units_from b (some a) (first_line b) boundaries)
          (chosen boundaries (asc boundaries q))
    where
      chosen :
          (boundaries : List ParsedBlock)
          → Ascending (first_line b) (last_line b) boundaries
          → (i : ℕ) × (k : ℕ) × UnitChain body i
              (if is_empty boundaries
                then whole_unit b (some a) ∷ []
                else units_from b (some a) (first_line b) boundaries)
              k
      chosen [] up = (
        a,
        a + length (block_text b),
        (a + length (block_text b), block_excerpt-At body a b h t, refl),
      )
      chosen (boundary ∷ bs) up = (
        a + line_place b (first_line b),
        a + line_place b (last_line b + 1),
        units_from-UnitChain (first_line b) boundary bs up,
      )

-- what is left of the units: they still meet, and begin where the first began if it is not trimmed
abbrev pub TrimmedChain : Text → ℕ → Bool → List AtomicUnit → Type 0
TrimmedChain body i is_first units =
    (s : ℕ) × (e : ℕ) × UnitChain body s units e × (is_first ≡ false → s ≡ i)

-- one unit that is trimmed, before units that begin where it ended
kept_unit :
    (body : Text) (i j : ℕ) (is_first : Bool) (unit : AtomicUnit) (y : Excerpt)
    (rest : List AtomicUnit)
    → TrimmedAt body i j is_first false y
    → TrimmedChain body j false rest
    → TrimmedChain body i is_first
        (if is_empty y.raw_text then rest else trimmed_unit unit y ∷ rest)
unfolding trimmed_unit
kept_unit body i j is_first unit y rest (k, m, at, to_end, from_start, gone) (s, e, chain, meets) =
    elim (Bool-cases (is_empty y.raw_text)) [
      | inl out ↦ rw out (s, e, chain, λ f. meets refl ∙ sym (gone f refl out))
      | inr left ↦
          let chain' =
            subst (λ n. UnitChain body n rest e) (meets refl ∙ sym (to_end refl)) chain in
          rw left (k, e, (m, at_unit at, chain'), λ f. from_start f left)
    ]
  where
    at_unit : At body k m y → At body k m (trimmed_unit unit y).excerpt
    at_unit a = a

last_unit :
    (body : Text) (i j : ℕ) (is_first : Bool) (unit : AtomicUnit) (y : Excerpt)
    → TrimmedAt body i j is_first true y
    → TrimmedChain body i is_first (if is_empty y.raw_text then [] else trimmed_unit unit y ∷ [])
unfolding trimmed_unit
last_unit body i j is_first unit y (k, m, at, to_end, from_start, gone) =
    elim (Bool-cases (is_empty y.raw_text)) [
      | inl out ↦ rw out (i, i, refl, λ f. refl)
      | inr left ↦ rw left (k, m, (m, at, refl), λ f. from_start f left)
    ]

pub trim_units-UnitChain :
    (body : Text) (i k : ℕ) (is_first : Bool) (units : List AtomicUnit)
    → UnitChain body i units k
    → Ensures (TrimmedChain body i is_first) (trim_units is_first units)
unfolding trim_units
trim_units-UnitChain body i k is_first [] chain = returned [] (i, i, refl, λ e. refl)
trim_units-UnitChain body i k is_first (unit ∷ []) (j, at, chain) =
    Ensures-bind (trim_excerpt_whitespace_lines unit.excerpt is_first true) _
      (trim-At body i j unit.excerpt is_first true at)
      λ y q t.
        returned (if is_empty y.raw_text then [] else trimmed_unit unit y ∷ [])
          (last_unit body i j is_first unit y t)
trim_units-UnitChain body i k is_first (unit ∷ v ∷ units) (j, at, chain) =
    Ensures-bind (trim_excerpt_whitespace_lines unit.excerpt is_first false) _
      (trim-At body i j unit.excerpt is_first false at)
      λ y q t.
        Ensures-bind (trim_units false (v ∷ units)) _
          (trim_units-UnitChain body j k false (v ∷ units) chain)
          λ rest q' c.
            returned (if is_empty y.raw_text then rest else trimmed_unit unit y ∷ rest)
              (kept_unit body i j is_first unit y rest t c)
