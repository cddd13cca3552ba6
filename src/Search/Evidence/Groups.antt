-- ===== src/Search/Evidence/Groups.antt =====
-- The groups of application/search/evidence.py: each parent once, with all its children in the
-- order of the input.
use mathlib.Core.List.{append-nil, append_assoc}
use omf_retrieval.Prelude.{
  All, Bool, List, Option-cases, [], arith, false, if◌then◌else◌, inl, inr, keep, nat_eq, none,
  refl, ◌++◌, ◌==◌, ◌∙◌, ◌∷◌, ◌≡◌,
}
use omf_retrieval.Prelude.Dict.{
  IsDistinct, get, get-All, get-put, keys, put, put-All, put-IsDistinct,
}
use omf_retrieval.Prelude.Floats.{Floats}
use omf_retrieval.Prelude.Text.{is_empty}
use omf_retrieval.Search.Evidence.{Group, add_to_group, group_all}
use omf_retrieval.Search.Ports.{Uuid}
use omf_retrieval.Search.Rrf.{FusedCandidate}

module _ {ℓ} {A : Type ℓ} where
  is_empty-snoc : (xs : List A) (x : A) → is_empty (xs ++ x ∷ []) ≡ false
  is_empty-snoc [] x = refl
  is_empty-snoc (y ∷ xs) x = refl

  pub keep-append : (p : A → Bool) (xs ys : List A) → keep p (xs ++ ys) ≡ keep p xs ++ keep p ys
  unfolding keep
  keep-append p [] ys = refl
  keep-append p (x ∷ xs) ys = ground (arith, keep-append p xs ys)

module _ ⦃fl : Floats⦄ where
  abbrev pub is_child : Uuid → FusedCandidate → Bool
  is_child p item = item.candidate.parent_id == p

  abbrev pub children : Uuid → List FusedCandidate → List FusedCandidate
  children p = keep (is_child p)

  -- a group is not empty and holds the children of its parent
  pub record IsGroupOf (fused : List FusedCandidate) (g : Group) : Type 0 where
    pub holds : g.1 ≡ children g.0 fused
    pub nonempty : is_empty g.1 ≡ false

  pub record IsGrouping (fused : List FusedCandidate) (groups : List Group) : Type 0 where
    pub each : All (IsGroupOf fused) groups
    pub apart : IsDistinct (keys groups)
    pub absent : (p : Uuid) → get p groups ≡ none → children p fused ≡ []

  children-snoc :
      (p : Uuid) (fused : List FusedCandidate) (x : FusedCandidate)
      → children p (fused ++ x ∷ [])
        ≡ (if is_child p x then children p fused ++ x ∷ [] else children p fused)
  unfolding keep
  children-snoc p fused x =
      keep-append (is_child p) fused (x ∷ []) ∙ ground (arith, append-nil (children p fused))

  -- a new value under the parent of `x` that ends in `x`
  IsGrouping-put :
      (fused : List FusedCandidate) (x : FusedCandidate) (groups : List Group)
      → IsGrouping fused groups
      → (items : List FusedCandidate) → items ≡ children x.candidate.parent_id (fused ++ x ∷ [])
      → is_empty items ≡ false
      → IsGrouping (fused ++ x ∷ []) (put x.candidate.parent_id items groups)
  IsGrouping-put fused x groups g items holds nonempty = record {
    each =
        put-All (λ p l. IsGroupOf fused (p, l)) (λ p l. IsGroupOf (fused ++ x ∷ []) (p, l))
          x.candidate.parent_id items groups g.apart g.each
          (λ p l other o. record {
            holds = ground (arith, o.holds, children-snoc p fused x);
            nonempty = o.nonempty;
          })
          (record { holds = holds; nonempty = nonempty });
    apart = put-IsDistinct x.candidate.parent_id items groups g.apart;
    absent = λ p h.
        ground (
          arith,
          children-snoc p fused x,
          get-put x.candidate.parent_id p items groups,
          g.absent p,
        );
  }

  IsGrouping-step :
      (fused : List FusedCandidate) (x : FusedCandidate) (groups : List Group)
      → IsGrouping fused groups
      → IsGrouping (fused ++ x ∷ []) (add_to_group x groups)
  unfolding add_to_group
  IsGrouping-step fused x groups g = elim (Option-cases (get x.candidate.parent_id groups)) [
    | inl new ↦
        rw (new, add_to_group)
          (IsGrouping-put fused x groups g (x ∷ [])
            (ground (
              arith,
              children-snoc x.candidate.parent_id fused x,
              g.absent x.candidate.parent_id new,
            ))
            refl)
    | inr (items, old) ↦
        let h : items ≡ children x.candidate.parent_id fused =
          (get-All (λ p l. IsGroupOf fused (p, l)) x.candidate.parent_id items groups g.each
            old).holds in
        rw (old, add_to_group)
          (IsGrouping-put fused x groups g (items ++ x ∷ [])
            (ground (arith, children-snoc x.candidate.parent_id fused x)) (is_empty-snoc items x))
  ]

  pub group_all-IsGrouping :
      (pre fused : List FusedCandidate) (groups : List Group)
      → IsGrouping pre groups
      → IsGrouping (pre ++ fused) (group_all fused groups)
  unfolding group_all
  group_all-IsGrouping pre [] groups g = rw append-nil g
  group_all-IsGrouping pre (x ∷ fused) groups g = rw (append_assoc pre (x ∷ []) fused) at (
      group_all-IsGrouping (pre ++ x ∷ []) fused (add_to_group x groups)
        (IsGrouping-step pre x groups g))

  pub grouping : (fused : List FusedCandidate) → IsGrouping fused (group_all fused [])
  unfolding keep get
  grouping fused =
      group_all-IsGrouping [] fused [] (record { each = tt; apart = tt; absent = λ p h. refl })
