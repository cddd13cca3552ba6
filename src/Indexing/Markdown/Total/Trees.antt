-- ===== src/Indexing/Markdown/Total/Trees.antt =====
-- The trees of blocks of infrastructure/source/markdown.py pass their checks.
use omf_retrieval.Indexing.Markdown.{Token}
use omf_retrieval.Indexing.Markdown.Blocks.{
  Building, OpenBlock, block_of_token, built, close_to, freeze, freeze_all, from_list, place,
  with_children,
}
use omf_retrieval.Indexing.Structure.{
  ParsedBlock, check_parsed_block, children_of, is_inside, require_inclusive_line_range, to_list,
}
use omf_retrieval.Prelude.{
  &&-intro, All, All-append, All-imp, Bool, Bool-cases, List, [], all, false, if◌then◌else◌, inl,
  inr, leb, le→leb, map, none, ok, refl, some, true, ℕ, ◌+◌, ◌<◌, ◌∷◌, ◌≡◌, ◌≤◌,
}
use omf_retrieval.Prelude.Text.{is_empty}

-- the level, the first line and the last one of a block that is open
abbrev pub Frame : Type 0
Frame = ℕ × (ℕ × ℕ)

-- the open blocks of a smaller level, up to the first that is not
unfoldable pub enclosing : ℕ → List Frame → List Frame
enclosing level [] = []
enclosing level (f ∷ fs) = let rest = enclosing level fs in if leb level f.0 then rest else f ∷ fs

abbrev pub Encloses : List Frame → ℕ → ℕ → Type 0
Encloses [] first last = Unit {0}
Encloses (f ∷ fs) first last = (f.1.0 ≤ first) × (last ≤ f.1.1)

abbrev pub opened : Bool → Frame → List Frame → List Frame
opened true f fs = f ∷ fs
opened false f fs = fs

-- What markdown-it makes of a document: a block has a line at least, and its lines are among those
-- of the block in which it stands.
abbrev pub AreWithin : List Frame → List Token → Type 0
AreWithin fs [] = Unit {0}
AreWithin fs (t ∷ ts) = elim (block_of_token t) [
  | none ↦ AreWithin fs ts
  | some found ↦
      (found.1.0 < found.1.1)
      × (Encloses (enclosing t.level fs) (found.1.0 + 1) found.1.1
          × AreWithin (opened t.opens (t.level, (found.1.0 + 1, found.1.1)) (enclosing t.level fs))
              ts)
]

unfoldable pub IsFrozen : ParsedBlock → Type 0
IsFrozen b = freeze b ≡ ok tt

-- a block stands in the last open block, if there is one
unfoldable pub IsInLast : List OpenBlock → ParsedBlock → Type 0
IsInLast [] b = Unit {0}
IsInLast (o ∷ os) b = is_inside o.line_start o.line_end b ≡ true

-- an open block whose children pass
pub record IsKept (o : OpenBlock) : Type 0 where
  pub counted : 1 ≤ o.line_start
  pub filled : o.line_start ≤ o.line_end
  pub named : is_empty o.kind ≡ false
  pub kept : All (λ b. IsFrozen b × IsInLast (o ∷ []) b) o.children

unfoldable pub frame_of : OpenBlock → Frame
frame_of o = (o.level, (o.line_start, o.line_end))

-- each open block passes and stands in the one before
unfoldable pub AreKept : List OpenBlock → Type 0
AreKept [] = Unit {0}
AreKept (o ∷ os) = IsKept o × (Encloses (map frame_of os) o.line_start o.line_end × AreKept os)

freeze_all-ok :
    (bs : List ParsedBlock) (o : OpenBlock)
    → All (λ b. IsFrozen b × IsInLast (o ∷ []) b) bs
    → (freeze_all (from_list bs) ≡ ok tt)
      × ((all (is_inside o.line_start o.line_end) (to_list (from_list bs)) ≡ true))
unfolding freeze_all from_list to_list all IsFrozen IsInLast
freeze_all-ok [] o h = (refl, refl)
freeze_all-ok (b ∷ bs) o h =
    let rest = freeze_all-ok bs o h.1 in (rw (h.0.0, rest.0) refl, rw (h.0.1, rest.1) refl)

built-IsFrozen : (o : OpenBlock) → IsKept o → IsFrozen (built o)
unfolding IsFrozen built freeze check_parsed_block require_inclusive_line_range children_of
built-IsFrozen o k =
    let children = freeze_all-ok o.children o k.kept in
    let first = le→leb 1 o.line_start k.counted in
    let last = le→leb o.line_start o.line_end k.filled in
    rw (children.0, children.1, k.named, first, last) refl

with_children-IsKept :
    (o : OpenBlock) (bs : List ParsedBlock)
    → IsKept o
    → All (λ b. IsFrozen b × IsInLast (o ∷ []) b) bs
    → IsKept (with_children bs o)
unfolding with_children IsInLast
with_children-IsKept o bs k h = record {
  counted = k.counted;
  filled = k.filled;
  named = k.named;
  kept = All-append _ o.children bs k.kept h;
}

built-IsInLast :
    (o : OpenBlock) (os : List OpenBlock)
    → Encloses (map frame_of os) o.line_start o.line_end
    → IsInLast os (built o)
unfolding IsInLast built frame_of is_inside
built-IsInLast o [] h = tt
built-IsInLast o (p ∷ os) h =
    &&-intro _ _ (le→leb p.line_start o.line_start h.0) (le→leb o.line_end p.line_end h.1)

pub record IsSound (fs : List Frame) (b : Building) : Type 0 where
  pub roots_pass : All IsFrozen b.roots
  pub open_pass : AreKept b.open_blocks
  pub framed : map frame_of b.open_blocks ≡ fs

pub close_to-IsSound :
    (level : ℕ) (roots closed : List ParsedBlock) (os : List OpenBlock)
    → All IsFrozen roots
    → All (λ b. IsFrozen b × IsInLast os b) closed
    → AreKept os
    → IsSound (enclosing level (map frame_of os)) (close_to level roots closed os)
unfolding close_to enclosing frame_of AreKept with_children IsInLast
close_to-IsSound level roots closed [] pass h k = record {
  roots_pass =
      All-append IsFrozen roots closed pass (All-imp _ IsFrozen (λ b both. both.0) closed h);
  open_pass = tt;
  framed = refl;
}
close_to-IsSound level roots closed (o ∷ os) pass h k =
    let parent = with_children closed o in
    let parent_kept : IsKept parent = with_children-IsKept o closed k.0 h in
    elim (Bool-cases (leb level o.level)) [
      | inl e ↦ rw e (
          close_to-IsSound level roots (built parent ∷ []) os pass
            ((built-IsFrozen parent parent_kept, built-IsInLast parent os k.1.0), tt) k.1.1)
      | inr e ↦ rw e (record { roots_pass = pass; open_pass = (parent_kept, k.1); framed = refl })
    ]

pub place-IsSound :
    (o : OpenBlock) (opens : Bool) (roots : List ParsedBlock) (os : List OpenBlock)
    → All IsFrozen roots
    → AreKept os
    → IsKept o
    → Encloses (map frame_of os) o.line_start o.line_end
    → IsSound (opened opens (frame_of o) (map frame_of os)) (place o opens roots os)
unfolding place frame_of AreKept with_children IsInLast
place-IsSound o true roots os pass k new h = record {
  roots_pass = pass;
  open_pass = (new, (h, k));
  framed = refl;
}
place-IsSound o false roots [] pass k new h = record {
  roots_pass = All-append IsFrozen roots (built o ∷ []) pass (built-IsFrozen o new, tt);
  open_pass = tt;
  framed = refl;
}
place-IsSound o false roots (p ∷ os) pass k new h = record {
  roots_pass = pass;
  open_pass = (
    with_children-IsKept p (built o ∷ []) k.0
        ((built-IsFrozen o new, built-IsInLast o (p ∷ os) h), tt),
    k.1,
  );
  framed = refl;
}
