-- ===== src/Indexing/Chunker/Units/Preorder.antt =====
-- The stack loop that finds the blocks of a kind, against the tree.
use mathlib.Core.List.{append-nil, append_assoc}
use omf_retrieval.Indexing.Chunker.Units.{block_count, count_blocks, descendants, find_descendants}
use omf_retrieval.Indexing.Structure.{
  Blocks, ParsedBlock, children_of, kind_of, next_block, no_blocks, parsed_block, to_list,
}
use omf_retrieval.Prelude.{
  Bool-cases, List, [], ap, arith, if◌then◌else◌, inl, inr, list_eq, nat_eq, ok, refl, suc, sym,
  zero, ℕ, ◌++◌, ◌+◌, ◌==◌, ◌∙◌, ◌∷◌, ◌≡◌, ◌≤◌,
}
use omf_retrieval.Prelude.Text.{Text}

unfoldable pub itself : Text → ParsedBlock → List ParsedBlock
itself kind b = if kind_of b == kind then b ∷ [] else []

-- the blocks of a kind below a block, each before those below it
unfoldable mutual
  pub below : Text → ParsedBlock → List ParsedBlock
  below kind (parsed_block k raw_text line_start line_end children) = below_all kind children

  pub below_all : Text → Blocks → List ParsedBlock
  below_all kind no_blocks = []
  below_all kind (next_block b bs) = itself kind b ++ below kind b ++ below_all kind bs

-- the same for a stack
below_list : Text → List ParsedBlock → List ParsedBlock
below_list kind [] = []
below_list kind (b ∷ bs) = itself kind b ++ below kind b ++ below_list kind bs

below_list-to_list : (kind : Text) (bs : Blocks) → below_list kind (to_list bs) ≡ below_all kind bs
unfolding below_list below_all to_list
below_list-to_list kind no_blocks = refl
below_list-to_list kind (next_block b bs) =
    ap (λ l. itself kind b ++ below kind b ++ l) (below_list-to_list kind bs)

below_list-children :
    (kind : Text) (b : ParsedBlock) → below_list kind (children_of b) ≡ below kind b
unfolding below children_of
below_list-children kind (parsed_block k raw_text line_start line_end children) =
    below_list-to_list kind children

below_list-append :
    (kind : Text) (xs bs : List ParsedBlock)
    → below_list kind (xs ++ bs) ≡ below_list kind xs ++ below_list kind bs
unfolding below_list
below_list-append kind [] bs = refl
below_list-append kind (a ∷ xs) bs = simp (below_list-append kind xs bs, append_assoc)

-- the blocks on a stack, with all below them
stack_count : List ParsedBlock → ℕ
stack_count [] = 0
stack_count (b ∷ bs) = block_count b + stack_count bs

stack_count-to_list : (bs : Blocks) → stack_count (to_list bs) ≡ count_blocks bs
unfolding stack_count to_list count_blocks
stack_count-to_list no_blocks = refl
stack_count-to_list (next_block b bs) = ap (λ n. block_count b + n) (stack_count-to_list bs)

stack_count-children : (b : ParsedBlock) → suc (stack_count (children_of b)) ≡ block_count b
unfolding children_of block_count
stack_count-children (parsed_block k raw_text line_start line_end children) =
    ap suc (stack_count-to_list children)

stack_count-append :
    (xs bs : List ParsedBlock) → stack_count (xs ++ bs) ≡ stack_count xs + stack_count bs
unfolding stack_count
stack_count-append [] bs = omega arith
stack_count-append (a ∷ xs) bs = omega (arith, stack_count-append xs bs)

matches_lem :
    (kind : Text) (b : ParsedBlock) (matches : List ParsedBlock)
    → (if kind_of b == kind then matches ++ b ∷ [] else matches) ≡ matches ++ itself kind b
unfolding itself
matches_lem kind b matches = elim (Bool-cases (kind_of b == kind)) [
  | inl e ↦ rw e refl
  | inr e ↦ rw e (sym (append-nil matches))
]

find_descendants-eq :
    (fuel : ℕ) (kind : Text) (matches pending : List ParsedBlock)
    → stack_count pending ≤ fuel
    → find_descendants fuel kind matches pending ≡ ok (matches ++ below_list kind pending)
unfolding find_descendants below_list stack_count
find_descendants-eq fuel kind matches [] h = ap ok (sym (append-nil matches))
find_descendants-eq zero kind matches (b ∷ pending) h =
    absurd (omega (arith, stack_count-children b))
find_descendants-eq (suc fuel) kind matches (b ∷ pending) h =
    find_descendants-eq fuel kind (if kind_of b == kind then matches ++ b ∷ [] else matches)
      (children_of b ++ pending)
      (omega (arith, stack_count-children b, stack_count-append (children_of b) pending))
    ∙ ap ok (simp (matches_lem, below_list-append, below_list-children, append_assoc))

-- The loop over a stack finds the blocks of the kind below a block in the order of the tree, each
-- before those below it, and never runs out of fuel.
pub descendants-eq-below : (b : ParsedBlock) (kind : Text) → descendants b kind ≡ ok (below kind b)
unfolding descendants
descendants-eq-below b kind =
    find_descendants-eq (block_count b) kind [] (children_of b)
      (omega (arith, stack_count-children b))
    ∙ ap ok (below_list-children kind b)
