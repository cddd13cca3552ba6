-- ===== src/Search/Evidence/Build.antt =====
-- The items that application/search/evidence.py builds: each parent with all its children, ranked
-- from 1, within the limit; and when it raises.
use mathlib.Core.Logic.Or
use mathlib.Core.List.{Mem, mem-append, mem-cons, mem-cons_of_mem, mem-cons_self, not-mem-nil}
use mathlib.Core.Logic.{∥∥₁_elim, ∥∥₁_map, ∥∥₁_prop}
use mathlib.Core.Path.{ap₂, subst}
use omf_retrieval.Prelude.{
  >>=-eq_ok, All, All-imp, All-take, AllPairs, AllPairs-take, Bool, Bool-cases, List, Option, [],
  any, any-All, ap, arith, false, inl, inr, length, length-take-le, list_beq_iff, list_eq, ltb, map,
  nat_eq, none, ok, ok-injective, raise-ne-ok, refl, require, some, suc, sym, take, value_error, ℕ,
  ◌!=◌, ◌+◌, ◌↔◌, ◌∙◌, ◌∷◌, ◌≡◌, ◌≤◌,
}
use omf_retrieval.Prelude.Dict.{
  AllPairs→IsDistinct, IsDistinct, IsDistinct→AllPairs, OtherKey, keys,
}
use omf_retrieval.Prelude.Floats.{Float, Floats}
use omf_retrieval.Prelude.Sort.{sorted, sorted-All, sorted-AllPairs}
use omf_retrieval.Prelude.Text.{Text}
use omf_retrieval.Search.Evidence.{
  EvidenceItem, Group, build_items, evidence_item, evidence_of, group_all, group_before,
  group_evidence, origins_of, to_match,
}
use omf_retrieval.Search.Evidence.Groups.{IsGroupOf, children, grouping}
use omf_retrieval.Search.Evidence.Origins.{OriginBelow, sorted_origins-lem}
use omf_retrieval.Search.Ports.{Origin, Uuid}
use omf_retrieval.Search.Rrf.{FusedCandidate, ranks_before}

module _ ⦃fl : Floats⦄ where
  abbrev pub lead_score : List FusedCandidate → Option Float
  lead_score [] = none
  lead_score (x ∷ _) = some x.score

  -- `e` reports the children `items`, in this order
  pub record Reports (items : List FusedCandidate) (e : EvidenceItem) : Type 0 where
    pub matches : e.matches ≡ map to_match items
    pub score : lead_score items ≡ some e.score
    pub headings : All (λ i. i.candidate.heading_path ≡ e.heading_path) items
    pub origins_rise : AllPairs OriginBelow e.origins
    pub origins :
        (o : Origin)
        → Mem o e.origins ↔ ∥ ((i : FusedCandidate) × Mem i items × Mem o i.candidate.origins) ∥₁

  -- `e` reports all candidates of its parent, in the order of the comparison
  abbrev pub IsEvidenceOf : List FusedCandidate → EvidenceItem → Type 0
  IsEvidenceOf fused e = Reports (sorted ranks_before (children e.parent_id fused)) e

  -- consecutive ranks
  abbrev pub RankedFrom : ℕ → List EvidenceItem → Type 0
  RankedFrom n [] = Unit
  RankedFrom n (e ∷ es) = (e.rank ≡ n) × RankedFrom (n + 1) es

  abbrev pub parents : List EvidenceItem → List Uuid
  parents = map (λ e. e.parent_id)

  origins_of-sound :
      (o : Origin) (items : List FusedCandidate)
      → Mem o (origins_of items)
      → ∥ ((i : FusedCandidate) × Mem i items × Mem o i.candidate.origins) ∥₁
  unfolding origins_of
  origins_of-sound o [] m = absurd (not-mem-nil m)
  origins_of-sound o (i ∷ items) m =
      Or.elim ∥∥₁_prop ((mem-append {s = i.candidate.origins} {t = origins_of items}).0 m)
        (λ p. ∣ (i, mem-cons_self, p) ∣₁)
        (λ q. ∥∥₁_map (origins_of-sound o items q) (λ (j, n, p). (j, mem-cons_of_mem i n, p)))

  origins_of-holds :
      (o : Origin) (items : List FusedCandidate) (i : FusedCandidate)
      → Mem o i.candidate.origins
      → Mem i items
      → Mem o (origins_of items)
  unfolding origins_of
  origins_of-holds o [] i p m = absurd (not-mem-nil m)
  origins_of-holds o (j ∷ items) i p m =
      Or.elim ∥∥₁_prop ((mem-cons {l = items}).0 m)
        (λ e.
          (mem-append {s = j.candidate.origins} {t = origins_of items}).1
            (Or.inl (subst (λ (z : FusedCandidate). Mem o z.candidate.origins) e p)))
        (λ n.
          (mem-append {s = j.candidate.origins} {t = origins_of items}).1
            (Or.inr (origins_of-holds o items i p n)))

  origins_of-complete :
      (o : Origin) (items : List FusedCandidate)
      → ∥ ((i : FusedCandidate) × Mem i items × Mem o i.candidate.origins) ∥₁
      → Mem o (origins_of items)
  origins_of-complete o items h = ∥∥₁_elim h ∥∥₁_prop (λ (i, m, p). origins_of-holds o items i p m)

  abbrev pub differs : List Text → FusedCandidate → Bool
  differs path item = item.candidate.heading_path != path

  evidence_item-Reports :
      (rank : ℕ) (p : Uuid) (x : FusedCandidate) (rest : List FusedCandidate)
      → any (differs x.candidate.heading_path) (x ∷ rest) ≡ false
      → (let e = evidence_item rank p x (x ∷ rest) in
          Reports (x ∷ rest) e × (e.rank ≡ rank) × (e.parent_id ≡ p))
  unfolding evidence_item
  evidence_item-Reports rank p x rest good = (
    record {
      matches = refl;
      score = refl;
      headings =
          All-imp (λ i. differs x.candidate.heading_path i ≡ false)
            (λ i. i.candidate.heading_path ≡ x.candidate.heading_path)
            (λ i h. ground (arith, list_beq_iff i.candidate.heading_path x.candidate.heading_path))
            (x ∷ rest) (any-All (differs x.candidate.heading_path) (x ∷ rest) good);
      origins_rise = (sorted_origins-lem (origins_of (x ∷ rest))).0;
      origins = λ o. (
        λ m. origins_of-sound o (x ∷ rest) (((sorted_origins-lem (origins_of (x ∷ rest))).1 o).0 m),
        λ m.
            ((sorted_origins-lem (origins_of (x ∷ rest))).1 o).1
              (origins_of-complete o (x ∷ rest) m),
      );
    },
    refl,
    refl,
  )

  evidence_of-Reports :
      (rank : ℕ) (p : Uuid) (items : List FusedCandidate) {e : EvidenceItem}
      → evidence_of rank p items ≡ ok e
      → Reports items e × (e.rank ≡ rank) × (e.parent_id ≡ p)
  unfolding evidence_of
  evidence_of-Reports rank p [] h = cc
  evidence_of-Reports rank p (x ∷ rest) {e} h =
      elim (Bool-cases
        (any (λ item. item.candidate.heading_path != x.candidate.heading_path) (x ∷ rest))) [
          | inl bad ↦ absurd (raise-ne-ok (rw (bad, evidence_of) at h))
          | inr good ↦
              subst (λ z. Reports (x ∷ rest) z × (z.rank ≡ rank) × (z.parent_id ≡ p))
                (ok-injective (rw (good, evidence_of) at h))
                (evidence_item-Reports rank p x rest good)
        ]

  pub build_items-lem :
      (fused : List FusedCandidate) (n : ℕ) (groups : List Group) {out : List EvidenceItem}
      → All (IsGroupOf fused) groups
      → build_items n groups ≡ ok out
      → All (IsEvidenceOf fused) out × RankedFrom n out × (parents out ≡ keys groups)
  unfolding build_items
  build_items-lem fused n [] {out} a h =
      subst (λ l. All (IsEvidenceOf fused) l × RankedFrom n l × (parents l ≡ [])) (ok-injective h)
        (tt, tt, refl)
  build_items-lem fused n ((p, items) ∷ groups) {out} a h =
      let (e, made, more) = >>=-eq_ok (evidence_of n p (sorted ranks_before items)) _ h in
      let (es, built, done) = >>=-eq_ok (build_items (n + 1) groups) _ more in
      let (reports, rank, parent) = evidence_of-Reports n p (sorted ranks_before items) made in
      let (each, ranked, order) = build_items-lem fused (n + 1) groups a.1 built in
      let whole : IsEvidenceOf fused e =
        subst (λ l. Reports (sorted ranks_before l) e)
          (a.0.holds ∙ ap (λ q. children q fused) (sym parent)) reports in
      subst (λ l. All (IsEvidenceOf fused) l × RankedFrom n l × (parents l ≡ p ∷ keys groups))
        (ok-injective done) ((whole, each), (rank, ranked), ap₂ ◌∷◌ parent order)

  pub length-parents :
      (out : List EvidenceItem) (groups : List Group)
      → parents out ≡ keys groups
      → length out ≡ length groups
  length-parents [] [] h = refl
  length-parents [] (g ∷ groups) h = cc
  length-parents (e ∷ out) [] h = cc
  length-parents (e ∷ out) (g ∷ groups) h = ap suc (length-parents out groups (cc))

  -- what the loop ranks: the first `limit` groups in order
  unfoldable pub chosen : List FusedCandidate → ℕ → List Group
  unfolding take sorted group_before group_all
  chosen fused limit = take limit (sorted group_before (group_all fused []))

  pub chosen-groups :
      (fused : List FusedCandidate) (limit : ℕ)
      → All (IsGroupOf fused) (chosen fused limit) × IsDistinct (keys (chosen fused limit))
  unfolding chosen
  chosen-groups fused limit =
      let g = grouping fused in
      let groups = group_all fused [] in
      (
        All-take (IsGroupOf fused) limit (sorted group_before groups)
            (sorted-All group_before (IsGroupOf fused) groups g.each),
        AllPairs→IsDistinct (take limit (sorted group_before groups)) (
            AllPairs-take OtherKey limit (sorted group_before groups) (
              sorted-AllPairs group_before OtherKey (λ a b n p. n (sym p)) groups
                (IsDistinct→AllPairs groups g.apart))),
      )

  pub group_evidence-parents :
      (fused : List FusedCandidate) (limit : ℕ) {out : List EvidenceItem}
      → group_evidence fused limit ≡ ok out
      → All (IsEvidenceOf fused) out × RankedFrom 1 out × (parents out ≡ keys (chosen fused limit))
  unfolding group_evidence chosen
  group_evidence-parents fused limit h =
      let (_, _, built) = >>=-eq_ok (require (ltb 0 limit) value_error) _ h in
      build_items-lem fused 1 (chosen fused limit) (chosen-groups fused limit).0 built

  -- The evidence of a query reports for each of its parents all its matched children, in the order
  -- of the fusion's comparison, with the score of the first, the heading path of each, and exactly
  -- the origins of these children, strictly rising by path and then by hash; no parent stands twice; the ranks are 1, 2, … and there are at most `limit` items.
  pub group_evidence-lem :
      (fused : List FusedCandidate) (limit : ℕ) {out : List EvidenceItem}
      → group_evidence fused limit ≡ ok out
      → All (IsEvidenceOf fused) out
        × RankedFrom 1 out
        × IsDistinct (parents out)
        × (length out ≤ limit)
  unfolding chosen
  group_evidence-lem fused limit {out} h =
      let (each, ranked, order) = group_evidence-parents fused limit h in
      (
        each,
        ranked,
        subst IsDistinct (sym order) (chosen-groups fused limit).1,
        omega (
          arith,
          length-parents out (chosen fused limit) order,
          length-take-le limit (sorted group_before (group_all fused [])),
        ),
      )
