-- ===== src/Indexing/Markdown/Total/Tokens.antt =====
-- The trees of infrastructure/source/markdown.py are made where each block of the tokens stands within
-- the one that it is in.
use mathlib.Core.Option
use omf_retrieval.Indexing.Markdown.{Token}
use omf_retrieval.Indexing.Markdown.Blocks.{
  Building, OpenBlock, add_builder, add_token, add_tokens, all_roots, block_kind_by_token,
  block_of_token, freeze_all, from_list, kind_by_token, mapped_blocks, new_block,
}
use omf_retrieval.Indexing.Markdown.Total.Trees.{
  AreKept, AreWithin, Encloses, Frame, IsFrozen, IsKept, IsSound, close_to-IsSound, enclosing,
  frame_of, opened, place-IsSound,
}
use omf_retrieval.Indexing.Structure.{ParsedBlock}
use omf_retrieval.Prelude.{
  All, Bool, Bool-cases, List, Option, Option-cases, [], ap, arith, false, inl, inr, list_eq,
  nat_eq, none, none-ne-some, ok, refl, some, some_injective, ℕ, ◌<◌, ◌==◌, ◌∙◌, ◌∷◌, ◌≡◌,
}
use omf_retrieval.Prelude.Text.{Text, is_empty}

add_builder-IsSound :
    (fs : List Frame) (o : OpenBlock) (opens : Bool) (b : Building)
    → IsSound fs b
    → IsKept o
    → Encloses (enclosing o.level fs) o.line_start o.line_end
    → IsSound (opened opens (frame_of o) (enclosing o.level fs)) (add_builder o opens b)
unfolding add_builder
add_builder-IsSound fs o opens b sound new h =
    let closed =
      close_to-IsSound o.level b.roots [] b.open_blocks sound.roots_pass tt sound.open_pass in
    let same = closed.framed ∙ ap (enclosing o.level) sound.framed in
    rw (← same)
      (place-IsSound o opens _ _ closed.roots_pass closed.open_pass new (rw (← same) at h))

-- the kinds of blocks are not empty
kinds_named : All (λ e. is_empty e.1 ≡ false) block_kind_by_token
kinds_named =
    (refl, (refl, (refl, (refl, (refl, (refl, (refl, (refl, (refl, (refl, (refl, tt)))))))))))

kind_by_token-named :
    (entries : List (Text × Text)) (kind found : Text)
    → All (λ e. is_empty e.1 ≡ false) entries
    → kind_by_token entries kind ≡ some found
    → is_empty found ≡ false
unfolding kind_by_token
kind_by_token-named [] kind found h e = absurd (none-ne-some e)
kind_by_token-named (entry ∷ entries) kind found h e = elim (Bool-cases (entry.0 == kind)) [
  | inl same ↦ let here : some entry.1 ≡ some found = rw same at e in rw (← some_injective here) h.0
  | inr other ↦ kind_by_token-named entries kind found h.1 (rw other at e)
]

same_kind :
    (o : Option (ℕ × ℕ)) (found kind : Text) (lines : ℕ × ℕ)
    → Option.map {B = Text × (ℕ × ℕ)} (λ l. (found, l)) o ≡ some (kind, lines)
    → found ≡ kind
same_kind none found kind lines e = absurd (none-ne-some e)
same_kind (some l) found kind lines e = ap (λ p. p.0) (some_injective e)

block_of_token-named :
    (t : Token) (kind : Text) (lines : ℕ × ℕ)
    → block_of_token t ≡ some (kind, lines)
    → is_empty kind ≡ false
unfolding block_of_token
block_of_token-named t kind lines e =
    elim (Option-cases (kind_by_token block_kind_by_token t.kind)) [
      | inl none_found ↦ absurd (none-ne-some (rw none_found at e))
      | inr (found, at) ↦
          rw (← same_kind t.lines found kind lines (rw at at e))
            (kind_by_token-named block_kind_by_token t.kind found kinds_named at)
    ]

new_block-IsKept :
    (source_lines : List Text) (kind : Text) (lines : ℕ × ℕ) (level : ℕ)
    → is_empty kind ≡ false
    → lines.0 < lines.1
    → IsKept (new_block source_lines kind lines level)
unfolding new_block
new_block-IsKept source_lines kind lines level named h = record {
  counted = omega arith;
  filled = omega arith;
  named = named;
  kept = tt;
}

tokens-IsSound :
    (source_lines : List Text) (tokens : List Token) (fs : List Frame) (b : Building)
    → AreWithin fs tokens
    → IsSound fs b
    → (gs : List Frame) × IsSound gs (add_tokens source_lines tokens b)
unfolding add_tokens add_token new_block frame_of
tokens-IsSound source_lines [] fs b h sound = (fs, sound)
tokens-IsSound source_lines (t ∷ ts) fs b h sound = elim (Option-cases (block_of_token t)) [
  | inl e ↦ rw e (tokens-IsSound source_lines ts fs b (rw e at h) sound)
  | inr (found, e) ↦
      let h' = rw e at h in
      let o = new_block source_lines found.0 found.1 t.level in
      let new =
        new_block-IsKept source_lines found.0 found.1 t.level
          (block_of_token-named t found.0 found.1 e) h'.0 in
      rw e (
        tokens-IsSound source_lines ts _ _ h'.1.1
          (add_builder-IsSound fs o t.opens b sound new h'.1.0))
]

roots-frozen :
    (roots : List ParsedBlock) → All IsFrozen roots → freeze_all (from_list roots) ≡ ok tt
unfolding freeze_all from_list IsFrozen
roots-frozen [] h = refl
roots-frozen (b ∷ roots) h = rw (h.0, roots-frozen roots h.1) refl

-- the trees of such a document are made
pub mapped_blocks-ok :
    (tokens : List Token) (source_lines : List Text)
    → AreWithin [] tokens
    → mapped_blocks tokens source_lines ≡ ok (all_roots tokens source_lines)
unfolding mapped_blocks all_roots frame_of AreKept
mapped_blocks-ok tokens source_lines h =
    let start : Building = record { roots = []; open_blocks = [] } in
    let sound =
      tokens-IsSound source_lines tokens [] start h
        (record { roots_pass = tt; open_pass = tt; framed = refl }) in
    let b = add_tokens source_lines tokens start in
    let closed =
      close_to-IsSound 0 b.roots [] b.open_blocks sound.1.roots_pass tt sound.1.open_pass in
    rw (roots-frozen _ closed.roots_pass) refl
