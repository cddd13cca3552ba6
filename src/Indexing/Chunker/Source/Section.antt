-- ===== src/Indexing/Chunker/Source/Section.antt =====
-- The children of a section are exact slices of its body.
use mathlib.Core.Path.{subst}
use omf_retrieval.Indexing.Chunker.Atomic.{split_atomic_block}
use omf_retrieval.Indexing.Chunker.Excerpt.{Excerpt}
use omf_retrieval.Indexing.Chunker.Excerpt.Laws.{is_empty-eq_nil}
use omf_retrieval.Indexing.Chunker.Limits.{IsLimits}
use omf_retrieval.Indexing.Chunker.Normal.{split_normal_blocks}
use omf_retrieval.Indexing.Chunker.Source.{At, Chain, Chain-append, IsSource}
use omf_retrieval.Indexing.Chunker.Source.Atomic.{split_atomic_block-IsSource}
use omf_retrieval.Indexing.Chunker.Source.Packing.{split_normal_blocks-IsSource}
use omf_retrieval.Indexing.Chunker.Source.Units.{IsAscending}
use omf_retrieval.Indexing.Chunker.Split.{
  Packing, flush_normal, joined_raw, known_limit, pack_atomic, pack_blank, pack_normal,
  place_separators, split_off,
}
use omf_retrieval.Indexing.Chunker.Split.Fits.{known_limit-Halts}
use omf_retrieval.Indexing.Chunker.Tokens.{token_count}
use omf_retrieval.Indexing.Chunker.Tokens.Laws.{token_count-Halts}
use omf_retrieval.Indexing.Chunker.Window.{Chunker}
use omf_retrieval.Indexing.Structure.{ParsedBlock, block_text}
use omf_retrieval.Prelude.{
  All, All-append, Bool-cases, List, [], ap, if◌then◌else◌, inl, inr, length, ltb, ok, refl, some,
  sym, true-ne-false, ℕ, ◌++◌, ◌+◌, ◌∙◌, ◌∷◌, ◌≡◌, ◌≤◌,
}
use omf_retrieval.Prelude.Ensures.{
  Ensures, Ensures-bind, Ensures-branch, Ensures-if, Ensures-imp, returned,
}
use omf_retrieval.Prelude.Slices.{slice}
use omf_retrieval.Prelude.Text.{Text, is_empty}

-- the raw texts of blocks, put together
unfoldable pub blocks_text : List ParsedBlock → Text
blocks_text [] = []
blocks_text (b ∷ bs) = block_text b ++ blocks_text bs

module _ (chunker : Chunker) (body heading_prefix : Text) (l : IsLimits chunker.config) where
  -- What is done is a slice. What waits are blocks that meet, up to the place that is reached, and
  -- no blank block waits alone.
  pub record PackingAt (p : Packing) : Type 0 where
    pub chunks_at : All (IsSource body) p.chunks
    pub start_at : ℕ
    pub middle_at : ℕ
    pub normal_at : Chain body start_at p.normal_blocks middle_at
    pub separators_at : Chain body middle_at p.separator_blocks p.source_cursor
    pub lone : p.normal_blocks ≡ [] → p.separator_blocks ≡ []

  -- no blank block waits
  pub settled :
      (q : Packing) (i : ℕ)
      → All (IsSource body) q.chunks
      → Chain body i q.normal_blocks q.source_cursor
      → q.separator_blocks ≡ []
      → PackingAt q
  settled q i c chain none_left = record {
    chunks_at = c;
    start_at = i;
    middle_at = q.source_cursor;
    normal_at = chain;
    separators_at = subst (λ n. Chain body q.source_cursor n q.source_cursor) (sym none_left) refl;
    lone = λ e. none_left;
  }

  -- the chunks and the blocks that wait, after the blocks so far were split
  abbrev pub SplitOff : Packing → Packing → Type 0
  SplitOff p q =
      All (IsSource body) q.chunks
      × (q.normal_blocks ≡ [])
      × (q.separator_blocks ≡ p.separator_blocks)
      × (q.source_cursor ≡ p.source_cursor)

  split_off-At :
      (p : Packing) (i j : ℕ)
      → All (IsSource body) p.chunks
      → Chain body i p.normal_blocks j
      → Ensures (SplitOff p) (split_off chunker heading_prefix p)
  unfolding split_off
  split_off-At p i j c chain =
      Ensures-bind (split_normal_blocks chunker p.normal_blocks heading_prefix) _
        (split_normal_blocks-IsSource chunker body i j p.normal_blocks heading_prefix l chain)
        λ done q s.
          returned (record p { chunks = p.chunks ++ done; normal_blocks = [] })
            (All-append (IsSource body) p.chunks done c s, refl, refl, refl)

  pub flush_normal-At :
      (p : Packing) (i j : ℕ)
      → All (IsSource body) p.chunks
      → Chain body i p.normal_blocks j
      → Ensures (SplitOff p) (flush_normal chunker heading_prefix p)
  unfolding flush_normal
  flush_normal-At p i j c chain =
      Ensures-if (is_empty p.normal_blocks) _ _
        (λ out. returned p (c, is_empty-eq_nil p.normal_blocks out, refl, refl))
        (λ some_left. split_off-At p i j c chain)

  -- the blocks before a new one, which begins at `cursor`
  abbrev ReadyAt : ℕ → Packing → Packing → Type 0
  ReadyAt cursor p q =
      All (IsSource body) q.chunks
      × ((i : ℕ) × Chain body i q.normal_blocks cursor)
      × (q.source_cursor ≡ p.source_cursor)

  place_separators-At :
      (p : Packing) (block : Excerpt) (cursor : ℕ) (i m : ℕ)
      → All (IsSource body) p.chunks
      → Chain body i p.normal_blocks m
      → Chain body m p.separator_blocks cursor
      → Ensures (ReadyAt cursor p) (place_separators chunker heading_prefix p block)
  unfolding place_separators
  place_separators-At p block cursor i m c normal separators =
      let text =
        heading_prefix ++ joined_raw (p.normal_blocks ++ p.separator_blocks ++ block ∷ []) in
      Ensures-bind (known_limit chunker heading_prefix p.window_limit) _
        (known_limit-Halts chunker heading_prefix l p.window_limit)
        λ limit q u.
          Ensures-bind (token_count chunker.counter text) _ (token_count-Halts chunker.counter text)
            λ count q' u'.
              Ensures-branch (ltb limit count) _ _
                (Ensures-imp
                  (λ r (done, none_left, rest, same). (
                    done,
                    (cursor, subst (λ n. Chain body cursor n cursor) (sym none_left) refl),
                    same,
                  ))
                  (split_off-At (record p { window_limit = some limit }) i m c normal))
                (returned
                  (record p {
                    window_limit = some limit;
                    normal_blocks = p.normal_blocks ++ p.separator_blocks;
                  })
                  (
                    c,
                    (
                      i,
                      Chain-append body i m cursor p.normal_blocks p.separator_blocks normal
                          separators,
                    ),
                    refl,
                  ))

  pub pack_normal-At :
      (p : Packing) (block : Excerpt) (cursor i m : ℕ)
      → All (IsSource body) p.chunks
      → Chain body i p.normal_blocks m
      → Chain body m p.separator_blocks cursor
      → At body cursor p.source_cursor block
      → Ensures
          (λ q. PackingAt q × (q.source_cursor ≡ p.source_cursor))
          (pack_normal chunker heading_prefix p block)
  unfolding pack_normal
  pack_normal-At p block cursor i m c normal separators at =
      Ensures-bind
        (if is_empty p.separator_blocks
          then ok p
          else place_separators chunker heading_prefix p block)
        _
        (Ensures-if (is_empty p.separator_blocks) _ _
          (λ none_left.
            let same : m ≡ cursor =
              subst (λ n. Chain body m n cursor) (is_empty-eq_nil p.separator_blocks none_left)
                separators in
            returned p (c, (i, subst (λ n. Chain body i p.normal_blocks n) same normal), refl))
          (λ some_left. place_separators-At p block cursor i m c normal separators))
        λ q e (done, (i', chain), same).
          let block_at = subst (λ n. At body cursor n block) (sym same) at in
          let q' = record q {
            separator_blocks = [];
            normal_blocks = q.normal_blocks ++ block ∷ [];
          } in
          returned q' (
            settled q' i' done
                (Chain-append body i' cursor q.source_cursor q.normal_blocks (block ∷ []) chain
                  (q.source_cursor, block_at, refl))
                refl,
            same,
          )

  pub pack_atomic-At :
      (p : Packing) (b : ParsedBlock) (a i m : ℕ)
      → All (IsSource body) p.chunks
      → Chain body i p.normal_blocks m
      → IsAscending b
      → a + length (block_text b) ≤ length body
      → block_text b ≡ slice body a (a + length (block_text b))
      → Ensures
          (λ q. PackingAt q × (q.source_cursor ≡ p.source_cursor))
          (pack_atomic chunker heading_prefix p b a)
  unfolding pack_atomic
  pack_atomic-At p b a i m c normal asc h t =
      let cleared = record p { separator_blocks = [] } in
      Ensures-bind (flush_normal chunker heading_prefix cleared) _
        (flush_normal-At cleared i m c normal)
        λ q e (done, none_left, separators, same).
          Ensures-bind (split_atomic_block chunker b heading_prefix (some a)) _
            (split_atomic_block-IsSource chunker body b heading_prefix a asc h t)
            λ pieces e' s.
              let q' = record q { chunks = q.chunks ++ pieces } in
              returned q' (
                settled q' q.source_cursor (All-append (IsSource body) q.chunks pieces done s)
                    (subst (λ n. Chain body q.source_cursor n q.source_cursor) (sym none_left) refl)
                    separators,
                same,
              )

  pub pack_blank-At :
      (p : Packing) (block : Excerpt) (cursor : ℕ)
      → PackingAt p
      → At body p.source_cursor cursor block
      → PackingAt (pack_blank (record p { source_cursor = cursor }) block)
  unfolding pack_blank
  pack_blank-At p block cursor w at = elim (Bool-cases (is_empty p.normal_blocks)) [
    | inl out ↦
        let none_left = is_empty-eq_nil p.normal_blocks out in
        rw out (
          settled (record p { source_cursor = cursor }) cursor w.chunks_at
            (subst (λ n. Chain body cursor n cursor) (sym none_left) refl) (w.lone none_left))
    | inr some_left ↦ rw some_left (record {
      chunks_at = w.chunks_at;
      start_at = w.start_at;
      middle_at = w.middle_at;
      normal_at = w.normal_at;
      separators_at =
          Chain-append body w.middle_at p.source_cursor cursor p.separator_blocks (block ∷ [])
            w.separators_at (cursor, at, refl);
      lone = λ e. absurd (true-ne-false (sym (ap is_empty e) ∙ some_left));
    })
  ]
