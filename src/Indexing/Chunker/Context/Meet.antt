-- ===== src/Indexing/Chunker/Context/Meet.antt =====
-- Blocks that meet, infrastructure/source/chunker.py: the blocks that share a line with a match hold
-- its lines, and so does every window around them.
use omf_retrieval.Indexing.Chunker.Context.Parts.{blocks_meet, seed_indices}
use omf_retrieval.Indexing.Chunker.Context.Select.{last_index}
use omf_retrieval.Indexing.Chunker.Split.Short.{HasLines}
use omf_retrieval.Indexing.Structure.{ParsedBlock, first_line, last_line}
use omf_retrieval.Prelude.{
  &&-split, All, Bool, Bool-cases, List, [], ap, arith, false, get_elem?, if◌then◌else◌, inl, inr,
  leb, leb→le, length, le→leb, nat_beq_iff, none-ne-some, refl, some, some_injective, suc, sym,
  true, zero, ℕ, ◌&&◌, ◌+◌, ◌<◌, ◌∙◌, ◌∷◌, ◌≡◌, ◌≤◌,
}
use omf_retrieval.Prelude.Text.{Text}

-- what one block of `blocks_meet` gives
record Meets (source_lines : List Text) (cursor : ℕ) (b : ParsedBlock) (bs : List ParsedBlock)
    : Type 0 where
  first : first_line b ≡ cursor
  rest : blocks_meet source_lines (last_line b + 1) bs ≡ true

blocks_meet-Meets :
    (source_lines : List Text) (cursor : ℕ) (b : ParsedBlock) (bs : List ParsedBlock)
    → blocks_meet source_lines cursor (b ∷ bs) ≡ true
    → Meets source_lines cursor b bs
unfolding blocks_meet
blocks_meet-Meets source_lines cursor b bs h =
    let (before, rest) = &&-split _ _ h in
    let (before', text) = &&-split _ _ before in
    let (first, last) = &&-split _ _ before' in
    record { first = (nat_beq_iff (first_line b) cursor).0 first; rest = rest }

meet_end :
    (source_lines : List Text) (cursor : ℕ)
    → blocks_meet source_lines cursor [] ≡ true
    → cursor ≡ length source_lines + 1
unfolding blocks_meet
meet_end source_lines cursor h = (nat_beq_iff cursor (length source_lines + 1)).0 h

module _ (source_lines : List Text) where
  -- blocks start at the cursor or behind it
  first-ge :
      (cursor : ℕ) (bs : List ParsedBlock)
      → blocks_meet source_lines cursor bs ≡ true
      → All HasLines bs
      → (i : ℕ) (b : ParsedBlock) → get_elem? bs i ≡ some b
      → (cursor ≤ first_line b) × (cursor ≤ last_line b)
  first-ge cursor [] h each i b e = absurd (none-ne-some e)
  first-ge cursor (c ∷ bs) h each zero b e =
      let m = blocks_meet-Meets source_lines cursor c bs h in
      let same = some_injective e in
      rw (← same) (omega (arith, m.first), omega (arith, m.first, each.0.1))
  first-ge cursor (c ∷ bs) h each (suc i) b e =
      let m = blocks_meet-Meets source_lines cursor c bs h in
      let behind_it = first-ge (last_line c + 1) bs m.rest each.1 i b e in
      (omega (arith, m.first, each.0.1, behind_it.0), omega (arith, m.first, each.0.1, behind_it.1))

  -- and in their order
  pub lines_mono :
      (cursor : ℕ) (bs : List ParsedBlock)
      → blocks_meet source_lines cursor bs ≡ true
      → All HasLines bs
      → (i j : ℕ) (b c : ParsedBlock) → i ≤ j
      → get_elem? bs i ≡ some b
      → get_elem? bs j ≡ some c
      → (first_line b ≤ first_line c) × (last_line b ≤ last_line c)
  lines_mono cursor [] h each i j b c k e e' = absurd (none-ne-some e)
  lines_mono cursor (d ∷ bs) h each zero zero b c k e e' =
      let same = some_injective (sym e ∙ e') in rw same (omega arith, omega arith)
  lines_mono cursor (d ∷ bs) h each zero (suc j) b c k e e' =
      let m = blocks_meet-Meets source_lines cursor d bs h in
      let behind_it = first-ge (last_line d + 1) bs m.rest each.1 j c e' in
      rw (← some_injective e) (omega (arith, each.0.1, behind_it.0), omega (arith, behind_it.1))
  lines_mono cursor (d ∷ bs) h each (suc i) zero b c k e e' = absurd (omega arith)
  lines_mono cursor (d ∷ bs) h each (suc i) (suc j) b c k e e' =
      let m = blocks_meet-Meets source_lines cursor d bs h in
      lines_mono (last_line d + 1) bs m.rest each.1 i j b c (omega arith) e e'

  module _ (match_start match_end : ℕ) where
    unfoldable pub seeds : ℕ → List ParsedBlock → List ℕ
    seeds i bs = seed_indices match_start match_end i bs

    no_seeds :
        (cursor : ℕ) (bs : List ParsedBlock)
        → blocks_meet source_lines cursor bs ≡ true
        → All HasLines bs
        → match_end < cursor
        → (i : ℕ) → seeds i bs ≡ []
    unfolding seeds seed_indices
    no_seeds cursor [] h each k i = refl
    no_seeds cursor (b ∷ bs) h each k i =
        let m = blocks_meet-Meets source_lines cursor b bs h in
        let off : leb (first_line b) match_end ≡ false = ground (arith, m.first) in
        rw off
          (no_seeds (last_line b + 1) bs m.rest each.1 (omega (arith, m.first, each.0.1)) (i + 1))

    -- the first block of the match starts with its lines or before
    abbrev pub FirstSeed : ℕ → List ParsedBlock → Type 0
    FirstSeed i bs =
        (k : ℕ) × ((l : List ℕ) × ((b : ParsedBlock) × ((seeds i bs ≡ (i + k) ∷ l)
              × ((get_elem? bs k ≡ some b) × (first_line b ≤ match_start)))))

    pub first_seed :
        (cursor : ℕ) (bs : List ParsedBlock)
        → blocks_meet source_lines cursor bs ≡ true
        → All HasLines bs
        → cursor ≤ match_start
        → match_start ≤ match_end
        → match_start ≤ length source_lines
        → (i : ℕ) → FirstSeed i bs
    unfolding seeds seed_indices
    first_seed cursor [] h each k k' k'' i = absurd (omega (arith, meet_end source_lines cursor h))
    first_seed cursor (b ∷ bs) h each k k' k'' i =
        let m = blocks_meet-Meets source_lines cursor b bs h in
        let on : leb (first_line b) match_end ≡ true =
          le→leb (first_line b) match_end (omega (arith, m.first)) in
        elim (Bool-cases (leb match_start (last_line b))) [
          | inl in_it ↦
              let rest = seed_indices match_start match_end (i + 1) bs in
              let here : i ≡ i + 0 = omega arith in
              (
                0,
                (
                  rest,
                  (b, (rw (on, in_it) (ap (λ n. n ∷ rest) here), (refl, omega (arith, m.first)))),
                ),
              )
          | inr behind ↦
              let (n, (l, (c, (found, (at, low))))) =
                first_seed (last_line b + 1) bs m.rest each.1 (ground arith) k' k'' (i + 1) in
              let there : i + 1 + n ≡ i + suc n = omega arith in
              (suc n, (l, (c, (rw (on, behind) (found ∙ ap (λ n'. n' ∷ l) there), (at, low)))))
        ]

    -- the last block of the match ends with its lines or behind
    abbrev pub LastSeed : ℕ → List ParsedBlock → Type 0
    LastSeed i bs =
        (d : ℕ)
        → (k : ℕ) × ((b : ParsedBlock) × ((last_index d (seeds i bs) ≡ i + k)
              × ((get_elem? bs k ≡ some b) × (match_end ≤ last_line b))))

    -- a block before the last one
    last_later :
        (i d : ℕ) (test : Bool) (b : ParsedBlock) (bs : List ParsedBlock)
        → LastSeed (i + 1) bs
        → (k : ℕ) × ((c : ParsedBlock) × ((last_index d
                  (if test then i ∷ seeds (i + 1) bs else seeds (i + 1) bs)
                ≡ i + k)
              × ((get_elem? (b ∷ bs) k ≡ some c) × (match_end ≤ last_line c))))
    last_later i d true b bs behind_it =
        let (n, (c, (found, rest))) = behind_it i in (suc n, (c, (found ∙ omega arith, rest)))
    last_later i d false b bs behind_it =
        let (n, (c, (found, rest))) = behind_it d in (suc n, (c, (found ∙ omega arith, rest)))

    pub last_seed :
        (cursor : ℕ) (bs : List ParsedBlock)
        → blocks_meet source_lines cursor bs ≡ true
        → All HasLines bs
        → cursor ≤ match_end
        → match_start ≤ match_end
        → match_end ≤ length source_lines
        → (i : ℕ) → LastSeed i bs
    unfolding seeds seed_indices
    last_seed cursor [] h each k k' k'' i d = absurd (omega (arith, meet_end source_lines cursor h))
    last_seed cursor (b ∷ bs) h each k k' k'' i d =
        let m = blocks_meet-Meets source_lines cursor b bs h in
        elim (Bool-cases (leb match_end (last_line b))) [
          | inl in_it ↦
              let on : leb (first_line b) match_end ≡ true =
                le→leb (first_line b) match_end (omega (arith, m.first)) in
              let on' : leb match_start (last_line b) ≡ true =
                le→leb match_start (last_line b)
                  (omega (arith, leb→le match_end (last_line b) in_it)) in
              let none_left = no_seeds (last_line b + 1) bs m.rest each.1 (ground arith) (i + 1) in
              (
                0,
                (
                  b,
                  (
                    rw (on, on', none_left) (omega arith),
                    (refl, leb→le match_end (last_line b) in_it),
                  ),
                ),
              )
          | inr behind ↦
              let behind_it =
                last_seed (last_line b + 1) bs m.rest each.1 (ground arith) k' k'' (i + 1) in
              last_later i d (leb (first_line b) match_end && leb match_start (last_line b)) b bs
                behind_it
        ]
