-- ===== src/Search/Evidence/Total.antt =====
-- When the evidence of application/search/evidence.py is built, and that nothing is left out below
-- the limit.
use mathlib.Core.List.Perm
use mathlib.Core.List.{Mem}
use mathlib.Core.Path.{subst}
use omf_retrieval.Prelude.{
  All, All-any, All-imp, All-keep, All-zip, List, Option-cases, [], ap, arith, false, inl, inr,
  keep-All, keep-eq_nil-mem, length, list_beq_iff, list_eq, lt→ltb, nat_beq_iff, nat_eq, nat_refl,
  ok, refl, sym, take_short, true, true-ne-false, ℕ, ◌+◌, ◌<◌, ◌>>=◌, ◌∙◌, ◌∷◌, ◌≡◌,
}
use omf_retrieval.Prelude.Dict.{get, keys, keys-eq-map, mem-keys}
use omf_retrieval.Prelude.Floats.{Floats}
use omf_retrieval.Prelude.Sort.{insert_sorted, sorted, sorted-All, sorted-perm}
use omf_retrieval.Prelude.Text.{Text, is_empty}
use omf_retrieval.Search.Evidence.{
  EvidenceItem, Group, build_items, evidence_item, evidence_of, group_all, group_before,
  group_evidence,
}
use omf_retrieval.Search.Evidence.Build.{
  chosen, chosen-groups, differs, group_evidence-parents, length-parents, parents,
}
use omf_retrieval.Search.Evidence.Groups.{IsGroupOf, children, grouping, is_child}
use omf_retrieval.Search.Ports.{Uuid}
use omf_retrieval.Search.Rrf.{FusedCandidate, ranks_before}

module _ ⦃fl : Floats⦄ where
  abbrev pub SameHeading : FusedCandidate → FusedCandidate → Type 0
  SameHeading a b =
      a.candidate.parent_id ≡ b.candidate.parent_id
      → a.candidate.heading_path ≡ b.candidate.heading_path

  -- children of one parent agree on its heading path
  abbrev pub IsUniform : List FusedCandidate → Type 0
  IsUniform found = All (λ a. All (SameHeading a) found) found

  abbrev HasHeading : List Text → FusedCandidate → Type 0
  HasHeading path i = i.candidate.heading_path ≡ path

  not-differs : (path : List Text) (i : FusedCandidate) → HasHeading path i → differs path i ≡ false
  not-differs path i h = ground (arith, list_beq_iff i.candidate.heading_path path)

  evidence_of_total :
      (rank : ℕ) (p : Uuid) (items : List FusedCandidate)
      → is_empty items ≡ false
      → (path : List Text) → All (HasHeading path) items
      → (e : EvidenceItem) × (evidence_of rank p items ≡ ok e)
  unfolding evidence_of
  evidence_of_total rank p [] n path a = absurd (true-ne-false n)
  evidence_of_total rank p (x ∷ rest) n path a = (
    evidence_item rank p x (x ∷ rest),
    rw (
        All-any (differs x.candidate.heading_path) (x ∷ rest) (
          All-imp (HasHeading path) (λ i. differs x.candidate.heading_path i ≡ false)
            (λ i h. not-differs x.candidate.heading_path i (h ∙ sym a.0)) (x ∷ rest) a)),
  )

  agree_within :
      (p : Uuid) (cs : List FusedCandidate)
      → All (λ i. is_child p i ≡ true) cs
      → All (λ a. All (SameHeading a) cs) cs
      → (path : List Text) × All (HasHeading path) cs
  agree_within p [] c u = ([], tt)
  agree_within p (x ∷ rest) c u = (
    x.candidate.heading_path,
    All-imp (λ i. (is_child p i ≡ true) × SameHeading x i) (HasHeading x.candidate.heading_path)
        (λ i h. sym (h.1 (parents_eq i h.0))) (x ∷ rest)
        (All-zip (λ i. is_child p i ≡ true) (SameHeading x) (x ∷ rest) c u.0),
  )
    where
      parents_eq :
          (i : FusedCandidate) → is_child p i ≡ true → x.candidate.parent_id ≡ i.candidate.parent_id
      parents_eq i h =
          (nat_beq_iff x.candidate.parent_id p).0 c.0
          ∙ sym ((nat_beq_iff i.candidate.parent_id p).0 h)

  -- the children of one parent have one heading path
  children_agree :
      (found : List FusedCandidate) (p : Uuid)
      → IsUniform found
      → (path : List Text) × All (HasHeading path) (children p found)
  children_agree found p u = agree_within p (children p found) (keep-All (is_child p) found) (
      All-imp (λ a. All (SameHeading a) found) (λ a. All (SameHeading a) (children p found))
        (λ a h. All-keep (SameHeading a) (is_child p) found h) (children p found)
        (All-keep (λ a. All (SameHeading a) found) (is_child p) found u))

  sorted_nonempty :
      (items : List FusedCandidate)
      → is_empty items ≡ false
      → is_empty (sorted ranks_before items) ≡ false
  unfolding sorted
  sorted_nonempty [] h = h
  sorted_nonempty (x ∷ items) h = insert_nonempty (sorted ranks_before items)
    where
      insert_nonempty :
          (l : List FusedCandidate) → is_empty (insert_sorted ranks_before x l) ≡ false
      insert_nonempty [] = refl
      insert_nonempty (y ∷ l) = ground arith

  build_items_total :
      (found : List FusedCandidate) (n : ℕ) (groups : List Group)
      → IsUniform found
      → All (IsGroupOf found) groups
      → (out : List EvidenceItem) × (build_items n groups ≡ ok out)
  unfolding build_items
  build_items_total found n [] u a = ([], refl)
  build_items_total found n ((p, items) ∷ groups) u a =
      let (path, agree) = children_agree found p u in
      let (e, made) =
        evidence_of_total n p (sorted ranks_before items) (sorted_nonempty items a.0.nonempty) path
          (sorted-All ranks_before (HasHeading path) items
            (subst (All (HasHeading path)) (sym a.0.holds) agree)) in
      let (es, built) = build_items_total found (n + 1) groups u a.1 in
      (e ∷ es, rw (made, ◌>>=◌) (rw (built, ◌>>=◌)))

  -- For a positive limit and candidates that agree on their parents' headings, the evidence is
  -- built.
  pub group_evidence_total :
      (found : List FusedCandidate) (limit : ℕ)
      → 0 < limit
      → IsUniform found
      → (out : List EvidenceItem) × (group_evidence found limit ≡ ok out)
  unfolding group_evidence chosen
  group_evidence_total found limit allowed u =
      let (out, e) =
        build_items_total found 1 (chosen found limit) u (chosen-groups found limit).0 in
      (out, rw (lt→ltb 0 limit allowed) e)

  group_present :
      (found : List FusedCandidate) (i : FusedCandidate)
      → Mem i found
      → Mem i.candidate.parent_id (keys (group_all found []))
  group_present found i m =
      let p = i.candidate.parent_id in
      elim (Option-cases (get p (group_all found []))) [
        | inl missing ↦ absurd (
            true-ne-false (
              sym (nat_refl p)
              ∙ keep-eq_nil-mem (is_child p) i found ((grouping found).absent p missing) m))
        | inr (items, there) ↦ mem-keys p items (group_all found []) there
      ]

  -- Fewer items than the limit allows leave no candidate out: each one's parent has its item.
  pub group_evidence_complete :
      (found : List FusedCandidate) (limit : ℕ) {out : List EvidenceItem}
      → group_evidence found limit ≡ ok out
      → length out < limit
      → (i : FusedCandidate) → Mem i found
      → Mem i.candidate.parent_id (parents out)
  unfolding chosen
  group_evidence_complete found limit {out} h short i m =
      let (each, ranked, order) = group_evidence-parents found limit h in
      let groups = group_all found [] in
      let p = i.candidate.parent_id in
      let whole : chosen found limit ≡ sorted group_before groups =
        take_short limit (sorted group_before groups)
          (omega (arith, length-parents out (chosen found limit) order)) in
      let present : Mem p (keys groups) = group_present found i m in
      subst (Mem p) (sym (order ∙ ap keys whole ∙ keys-eq-map (sorted group_before groups))) (
        (Perm.mem_iff (Perm.map (λ g. g.0) (sorted-perm group_before groups))).1
          (subst (Mem p) (keys-eq-map groups) present))
