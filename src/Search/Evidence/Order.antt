-- ===== src/Search/Evidence/Order.antt =====
-- The order of the evidence (application/search/evidence.py) for candidates that stand in the order
-- of a fusion.
use mathlib.Core.Path.{subst}
use omf_retrieval.Prelude.{
  All, All-imp, All-keep, Bool, List, [], ap, arith, false, if◌then◌else◌, ltb, map, none-ne-some,
  ok, refl, some, some_eq, sym, true, true-ne-false, ℕ, ◌∙◌, ◌∷◌, ◌≡◌,
}
use omf_retrieval.Prelude.Dict.{keys}
use omf_retrieval.Prelude.Floats.{Float, Floats, Nonneg, float_eq, float_lt}
use omf_retrieval.Prelude.Sort.{
  IsOrder, IsSorted, IsSorted-keep, IsSorted-take, sorted, sorted-IsSorted, sorted_of_IsSorted,
}
use omf_retrieval.Search.Evidence.{
  EvidenceItem, Group, group_all, group_before, group_evidence, to_match,
}
use omf_retrieval.Search.Evidence.Build.{
  IsEvidenceOf, chosen, chosen-groups, group_evidence-parents, lead_score, parents,
}
use omf_retrieval.Search.Evidence.Groups.{IsGroupOf, children, grouping, is_child}
use omf_retrieval.Search.Ports.{Uuid}
use omf_retrieval.Search.Rrf.{FusedCandidate, ranks_before}
use omf_retrieval.Search.Rrf.Order.{HasNonneg}

module _ ⦃fl : Floats⦄ where
  -- the key of the sort, read off the items: by falling score, then by rising parent
  unfoldable pub evidence_before : EvidenceItem → EvidenceItem → Bool
  unfolding float_lt float_eq
  evidence_before a b =
      if float_eq a.score b.score then ltb a.parent_id b.parent_id else float_lt b.score a.score

  abbrev HasNonnegLead : Group → Type 0
  HasNonnegLead g = (x : Float) × (lead_score g.1 ≡ some x) × Nonneg x

  group_before-asymm :
      (a b : Group)
      → HasNonnegLead a
      → HasNonnegLead b
      → group_before a b ≡ true
      → group_before b a ≡ false
  unfolding group_before
  group_before-asymm (p, []) b ha hb h = absurd (none-ne-some ha.1)
  group_before-asymm (p, x ∷ xs) (q, []) ha hb h = absurd (none-ne-some hb.1)
  group_before-asymm (p, x ∷ xs) (q, y ∷ ys) ha hb h = ground arith

  lead_Nonneg :
      (p : Uuid) (x : FusedCandidate) (xs : List FusedCandidate)
      → HasNonnegLead (p, x ∷ xs)
      → Nonneg x.score
  lead_Nonneg p x xs (s, e, n) = subst Nonneg (sym (some_eq e)) n

  group_before-negtrans :
      (a b c : Group)
      → HasNonnegLead a
      → HasNonnegLead b
      → HasNonnegLead c
      → group_before b a ≡ false
      → group_before c b ≡ false
      → group_before c a ≡ false
  unfolding group_before
  group_before-negtrans (p, []) b c ha hb hc h g = absurd (none-ne-some ha.1)
  group_before-negtrans (p, x ∷ xs) (q, []) c ha hb hc h g = absurd (none-ne-some hb.1)
  group_before-negtrans (p, x ∷ xs) (q, y ∷ ys) (r, []) ha hb hc h g = refl
  group_before-negtrans (p, x ∷ xs) (q, y ∷ ys) (r, z ∷ zs) ha hb hc h g =
      let nx = lead_Nonneg p x xs ha in
      let ny = lead_Nonneg q y ys hb in
      let nz = lead_Nonneg r z zs hc in
      ground (
        arith,
        fl.le_total x.score y.score,
        fl.le_total y.score z.score,
        fl.le_total x.score z.score,
        fl.le_total y.score x.score,
        fl.le_total z.score y.score,
        fl.le_total z.score x.score,
        fl.le_trans x.score y.score z.score,
        fl.le_trans z.score y.score x.score,
        fl.le_trans y.score x.score z.score,
        fl.le_trans y.score z.score x.score,
        fl.le_trans x.score z.score y.score,
        fl.le_trans z.score x.score y.score,
      )

  group_before-order : IsOrder group_before HasNonnegLead
  group_before-order = record { asymm = group_before-asymm; negtrans = group_before-negtrans }

  group-lead :
      (fused : List FusedCandidate)
      → All HasNonneg fused
      → (g : Group) → IsGroupOf fused g
      → HasNonnegLead g
  group-lead fused n (p, []) o = absurd (true-ne-false o.nonempty)
  group-lead fused n (p, x ∷ xs) o = (
    x.score,
    refl,
    (subst (All HasNonneg) (sym o.holds) (All-keep HasNonneg (is_child p) fused n)).0,
  )

  -- an item's key is its group's
  abbrev SameKey : EvidenceItem → Group → Type 0
  SameKey e g = (e.parent_id ≡ g.0) × (lead_score g.1 ≡ some e.score)

  before-SameKey :
      (d e : EvidenceItem) (g h : Group)
      → SameKey d g
      → SameKey e h
      → evidence_before d e ≡ group_before g h
  unfolding evidence_before group_before
  before-SameKey d e (p, []) h a b = absurd (none-ne-some a.1)
  before-SameKey d e (p, x ∷ xs) (q, []) a b = absurd (none-ne-some b.1)
  before-SameKey d e (p, x ∷ xs) (q, y ∷ ys) a b = cc (a.0, b.0, some_eq a.1, some_eq b.1)

  abbrev SameKeys : List EvidenceItem → List Group → Type 0
  SameKeys [] [] = Unit
  SameKeys (e ∷ es) (g ∷ gs) = SameKey e g × SameKeys es gs
  SameKeys _ _ = ⊥

  before-SameKeys :
      (e : EvidenceItem) (g : Group) (es : List EvidenceItem) (gs : List Group)
      → SameKey e g
      → SameKeys es gs
      → All (λ h. group_before h g ≡ false) gs
      → All (λ d. evidence_before d e ≡ false) es
  before-SameKeys e g [] [] k ks a = tt
  before-SameKeys e g [] (h ∷ gs) k ks a = absurd ks
  before-SameKeys e g (d ∷ es) [] k ks a = absurd ks
  before-SameKeys e g (d ∷ es) (h ∷ gs) k ks a =
      (before-SameKey d e h g ks.0 k ∙ a.0, before-SameKeys e g es gs k ks.1 a.1)

  IsSorted-SameKeys :
      (es : List EvidenceItem) (gs : List Group)
      → SameKeys es gs
      → IsSorted group_before gs
      → IsSorted evidence_before es
  IsSorted-SameKeys [] gs k s = tt
  IsSorted-SameKeys (e ∷ es) [] k s = absurd k
  IsSorted-SameKeys (e ∷ es) (g ∷ gs) k s =
      (before-SameKeys e g es gs k.0 k.1 s.0, IsSorted-SameKeys es gs k.1 s.1)

  module _ (fused : List FusedCandidate) (in_order : IsSorted ranks_before fused) where
    -- children that stand in order need no sorting
    sorted-children : (p : Uuid) → sorted ranks_before (children p fused) ≡ children p fused
    sorted-children p =
        sorted_of_IsSorted ranks_before (children p fused)
          (IsSorted-keep ranks_before (is_child p) fused in_order)

    evidence-SameKeys :
        (es : List EvidenceItem) (gs : List Group)
        → parents es ≡ keys gs
        → All (IsEvidenceOf fused) es
        → All (IsGroupOf fused) gs
        → SameKeys es gs
    evidence-SameKeys [] [] p a b = tt
    evidence-SameKeys [] (g ∷ gs) p a b = cc
    evidence-SameKeys (e ∷ es) [] p a b = cc
    evidence-SameKeys (e ∷ es) (g ∷ gs) p a b =
        let here : e.parent_id ≡ g.0 = cc in
        let rest : parents es ≡ keys gs = cc in
        (
          (
            here,
            ap lead_score (
                  b.0.holds
                  ∙ ap (λ q. children q fused) (sym here)
                  ∙ sym (sorted-children e.parent_id))
                ∙ a.0.score,
          ),
          evidence-SameKeys es gs rest a.1 b.1,
        )

    -- From candidates in the order of a fusion, with scores of at least 0, the evidence stands by
    -- falling score and by identifier within a score, and the matches of each item are its parent's
    -- candidates in that order.
    pub group_evidence-IsSorted :
        (limit : ℕ) {out : List EvidenceItem}
        → All HasNonneg fused
        → group_evidence fused limit ≡ ok out
        → IsSorted evidence_before out
          × All (λ e. e.matches ≡ map to_match (children e.parent_id fused)) out
    unfolding chosen
    group_evidence-IsSorted limit {out} n h =
        let (each, ranked, order) = group_evidence-parents fused limit h in
        let (groups, _) = chosen-groups fused limit in
        let all_groups = group_all fused [] in
        let leads : All HasNonnegLead all_groups =
          All-imp (IsGroupOf fused) HasNonnegLead (group-lead fused n) all_groups
            (grouping fused).each in
        (
          IsSorted-SameKeys out (chosen fused limit)
              (evidence-SameKeys out (chosen fused limit) order each groups)
              (IsSorted-take group_before limit (sorted group_before all_groups)
                (sorted-IsSorted group_before HasNonnegLead group_before-order all_groups leads)),
          All-imp (IsEvidenceOf fused) (λ e. e.matches ≡ map to_match (children e.parent_id fused))
              (λ e r. r.matches ∙ ap (map to_match) (sorted-children e.parent_id)) out each,
        )
