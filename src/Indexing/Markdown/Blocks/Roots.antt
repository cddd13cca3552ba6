-- ===== src/Indexing/Markdown/Blocks/Roots.antt =====
-- The tokens of infrastructure/source/markdown.py make blocks at the top in the order of their lines.
use mathlib.Core.List.{append-nil}
use omf_retrieval.Indexing.Markdown.{Token}
use omf_retrieval.Indexing.Markdown.Blocks.{
  Building, OpenBlock, add_builder, add_token, add_tokens, all_roots, block_of_token, close_to,
  lines_text, new_block,
}
use omf_retrieval.Indexing.Markdown.Blocks.Outline.{
  AreInOrder, HasFloor, Laid, Laid-snoc, StandsInOrder, bottom, close_to-HasFloor, close_to-all,
  open_span, outline, outline-close_to, outline-place_inside, outline-place_top, place_top-HasFloor,
  span,
}
use omf_retrieval.Prelude.{
  Bool, List, Option-cases, [], ap, arith, false, inl, inr, map, refl, suc, sym, true,
  true-ne-false, zero, ℕ, ◌++◌, ◌+◌, ◌-◌, ◌<◌, ◌∙◌, ◌∷◌, ◌≡◌, ◌≤◌,
}
use omf_retrieval.Prelude.Text.{Text}

module _ (source_lines : List Text) where
  record IsBuilding (inside : Bool) (n : ℕ) (b : Building) : Type 0 where
    laid : Laid source_lines 0 (outline b) n
    floor : inside ≡ true → HasFloor b.open_blocks

  add_builder_top :
      (inside : Bool) (n : ℕ) (o : OpenBlock) (opens : Bool) (b : Building)
      → IsBuilding inside n b
      → o.level ≡ 0
      → n < o.line_start
      → o.line_start ≤ o.line_end
      → o.raw_text ≡ lines_text source_lines (o.line_start - 1) o.line_end
      → IsBuilding opens o.line_end (add_builder o opens b)
  unfolding add_builder open_span outline bottom
  add_builder_top inside n o opens b at level first last text =
      let closed = close_to o.level b.roots [] b.open_blocks in
      let none_open = close_to-all o.level b.roots [] b.open_blocks level in
      let before : map span closed.roots ≡ outline b =
        sym (append-nil (map span closed.roots))
        ∙ ap (λ os. map span closed.roots ++ bottom [] os) (sym none_open)
        ∙ outline-close_to o.level b.roots [] b.open_blocks in
      rw none_open (record {
        laid =
            rw (outline-place_top o opens closed.roots, before)
              (Laid-snoc source_lines 0 n o.line_start o.line_end o.raw_text (outline b) at.laid
                first last text);
        floor = λ h. place_top-HasFloor o opens closed.roots level h;
      })

  add_builder_inside :
      (n : ℕ) (o : OpenBlock) (opens : Bool) (b : Building)
      → IsBuilding true n b
      → 0 < o.level
      → IsBuilding true n (add_builder o opens b)
  unfolding add_builder outline bottom
  add_builder_inside n o opens b at level =
      let closed = close_to o.level b.roots [] b.open_blocks in
      let floor = close_to-HasFloor o.level b.roots [] b.open_blocks (at.floor refl) level in
      let (same, floor') = outline-place_inside o opens closed.roots closed.open_blocks floor in
      record {
        laid = rw (same, outline-close_to o.level b.roots [] b.open_blocks) at.laid;
        floor = λ h. floor';
      }

  block-IsBuilding :
      (After : Bool → ℕ → Type 0) (inside : Bool) (n : ℕ) (opens : Bool) (kind : Text)
      → (lines : ℕ × ℕ) (level : ℕ) (b : Building) → StandsInOrder After inside n opens lines level
      → IsBuilding inside n b
      → (inside' : Bool) × ((n' : ℕ) × (After inside' n'
            × IsBuilding inside' n'
                (add_builder (new_block source_lines kind lines level) opens b)))
  unfolding new_block
  block-IsBuilding After inside n opens kind lines zero b h at =
      let same : lines.0 + 1 - 1 ≡ lines.0 = omega arith in
      (
        opens,
        (
          lines.1,
          (
            h.1.1,
            add_builder_top inside n (new_block source_lines kind lines 0) opens b at refl
                (omega (arith, h.0)) (omega (arith, h.1.0)) (rw same refl),
          ),
        ),
      )
  block-IsBuilding After inside n opens kind lines (suc level) b h at = (
    true,
    (
      n,
      (
        rw h.0 at h.1,
        add_builder_inside n (new_block source_lines kind lines (suc level)) opens b (rw h.0 at at)
            (omega arith),
      ),
    ),
  )

  tokens-Laid :
      (inside : Bool) (n : ℕ) (tokens : List Token) (b : Building)
      → AreInOrder inside n tokens
      → IsBuilding inside n b
      → (m : ℕ) × Laid source_lines 0 (outline (add_tokens source_lines tokens b)) m
  unfolding add_tokens add_token
  tokens-Laid inside n [] b h at = (n, at.laid)
  tokens-Laid inside n (t ∷ ts) b h at = elim (Option-cases (block_of_token t)) [
    | inl e ↦ rw e (tokens-Laid inside n ts b (rw e at h) at)
    | inr (found, e) ↦
        let (inside', (n', (h', at'))) =
          block-IsBuilding (λ i k. AreInOrder i k ts) inside n t.opens found.0 found.1 t.level b
            (rw e at h) at in
        rw e (tokens-Laid inside' n' ts _ h' at')
  ]

  -- the blocks at the top are laid out in the order of their lines
  pub roots-Laid :
      (tokens : List Token)
      → AreInOrder false 0 tokens
      → (m : ℕ) × Laid source_lines 0 (map span (all_roots tokens source_lines)) m
  unfolding all_roots outline bottom
  roots-Laid tokens h =
      let start : Building = record { roots = []; open_blocks = [] } in
      let b = add_tokens source_lines tokens start in
      let closed = close_to 0 b.roots [] b.open_blocks in
      let all : map span closed.roots ≡ outline b =
        sym (append-nil (map span closed.roots))
        ∙ ap (λ os. map span closed.roots ++ bottom [] os)
            (sym (close_to-all 0 b.roots [] b.open_blocks refl))
        ∙ outline-close_to 0 b.roots [] b.open_blocks in
      rw all (
        tokens-Laid false 0 tokens start h
          (record { laid = omega arith; floor = λ e'. absurd (true-ne-false (sym e')) }))
