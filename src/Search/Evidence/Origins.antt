-- ===== src/Search/Evidence/Origins.antt =====
-- The origins of an item of application/search/evidence.py: those of its candidates, in order and
-- without repetition.
use mathlib.Core.List.Perm
use mathlib.Core.Logic.Or
use mathlib.Core.List.{Mem, append-nil, append_assoc, mem-append, mem-cons, mem-cons_of_mem}
use mathlib.Core.Logic.{∥∥₁_prop}
use mathlib.Core.Path.{subst}
use omf_retrieval.Prelude.{
  All, AllPairs, Bool-cases, List, [], arith, contains, false, inl, inr, list_beq_iff, list_eq,
  nat_eq, sym, true, ◌++◌, ◌==◌, ◌↔◌, ◌∷◌, ◌≡◌, ◌≢◌,
}
use omf_retrieval.Prelude.Members.{contains-Mem}
use omf_retrieval.Prelude.Order.{TextBelow, text_lt-TextBelow}
use omf_retrieval.Prelude.Sort.{
  IsOrder, IsSorted, sorted, sorted-AllPairs, sorted-IsSorted, sorted-perm,
}
use omf_retrieval.Prelude.Text.{text_lt_asymm, text_lt_eq, text_lt_irrefl, text_lt_negtrans}
use omf_retrieval.Search.Evidence.{insert_origin, origin_set}
use omf_retrieval.Search.Ports.{
  Origin, active_index_eq, candidate_eq, origin_beq_iff, origin_eq, origin_lt,
}

-- an origin is below another by its path, or by its hash within a path
pub data OriginBelow (a b : Origin) : Type 0 where
  by_path : TextBelow a.source_path b.source_path → OriginBelow a b
  by_hash :
      a.source_path ≡ b.source_path → TextBelow a.content_hash b.content_hash → OriginBelow a b

origin_lt-OriginBelow : (a b : Origin) → origin_lt a b ≡ true → OriginBelow a b
unfolding origin_lt
origin_lt-OriginBelow a b h = elim (Bool-cases (a.source_path == b.source_path)) [
  | inl same ↦
      by_hash ((list_beq_iff a.source_path b.source_path).0 same)
        (text_lt-TextBelow a.content_hash b.content_hash (ground arith))
  | inr other ↦ by_path (text_lt-TextBelow a.source_path b.source_path (ground arith))
]

origin_lt-asymm : (a b : Origin) → origin_lt a b ≡ true → origin_lt b a ≡ false
unfolding origin_lt
origin_lt-asymm a b h = ground (
  arith,
  list_beq_iff a.source_path b.source_path,
  list_beq_iff b.source_path a.source_path,
  text_lt_asymm a.source_path b.source_path,
  text_lt_asymm a.content_hash b.content_hash,
)

origin_lt-negtrans :
    (a b c : Origin) → origin_lt b a ≡ false → origin_lt c b ≡ false → origin_lt c a ≡ false
unfolding origin_lt
origin_lt-negtrans a b c h g = ground (
  arith,
  list_beq_iff b.source_path a.source_path,
  list_beq_iff c.source_path b.source_path,
  list_beq_iff c.source_path a.source_path,
  text_lt_negtrans a.source_path b.source_path c.source_path,
  text_lt_negtrans a.content_hash b.content_hash c.content_hash,
  text_lt_eq a.source_path b.source_path,
  text_lt_asymm a.source_path b.source_path,
  text_lt_asymm c.source_path a.source_path,
  text_lt_asymm c.source_path b.source_path,
  text_lt_asymm b.source_path c.source_path,
  text_lt_eq b.source_path c.source_path,
  text_lt_eq a.source_path c.source_path,
  text_lt_irrefl a.source_path,
)

-- of two origins that differ and of which the second is not below, the first is below
origin_lt_total : (a b : Origin) → a ≢ b → origin_lt b a ≡ false → origin_lt a b ≡ true
unfolding origin_lt
origin_lt_total a b n h = ground (
  arith,
  list_beq_iff a.source_path b.source_path,
  list_beq_iff b.source_path a.source_path,
  text_lt_eq a.source_path b.source_path,
  text_lt_eq a.content_hash b.content_hash,
  origin_beq_iff a b,
)

contains-All : (os : List Origin) (o : Origin) → contains os o ≡ false → All (λ x. x ≢ o) os
unfolding contains
contains-All [] o h = tt
contains-All (x ∷ os) o h =
    (λ e. ground (arith, origin_beq_iff x o), contains-All os o (ground arith))

abbrev Differ : Origin → Origin → Type 0
Differ a b = a ≢ b

snoc-AllPairs :
    (os : List Origin) (o : Origin)
    → All (λ x. x ≢ o) os
    → AllPairs Differ os
    → AllPairs Differ (os ++ o ∷ [])
snoc-AllPairs [] o a p = (tt, tt)
snoc-AllPairs (x ∷ os) o a p = (snoc-All x os o p.0 a.0, snoc-AllPairs os o a.1 p.1)
  where
    snoc-All :
        (x : Origin) (os : List Origin) (o : Origin)
        → All (Differ x) os
        → x ≢ o
        → All (Differ x) (os ++ o ∷ [])
    snoc-All x [] o a n = (n, tt)
    snoc-All x (y ∷ os) o a n = (a.0, snoc-All x os o a.1 n)

origin_set-AllPairs :
    (seen os : List Origin) → AllPairs Differ seen → AllPairs Differ (origin_set seen os)
unfolding origin_set insert_origin
origin_set-AllPairs seen [] p = p
origin_set-AllPairs seen (o ∷ os) p = elim (Bool-cases (contains seen o)) [
  | inl e ↦ rw (e, origin_set, insert_origin) (origin_set-AllPairs seen os p)
  | inr e ↦
      rw (e, origin_set, insert_origin)
        (origin_set-AllPairs (seen ++ o ∷ []) os (snoc-AllPairs seen o (contains-All seen o e) p))
]

origin_set-sound :
    (x : Origin) (seen os : List Origin) → Mem x (origin_set seen os) → Mem x (seen ++ os)
unfolding origin_set insert_origin
origin_set-sound x seen [] m = rw (append-nil seen) m
origin_set-sound x seen (o ∷ os) m = elim (Bool-cases (contains seen o)) [
  | inl e ↦
      Or.elim ∥∥₁_prop
        ((mem-append {s = seen} {t = os}).0
          (origin_set-sound x seen os (rw (e, origin_set, insert_origin) at m)))
        (λ p. (mem-append {s = seen} {t = o ∷ os}).1 (Or.inl p))
        (λ q. (mem-append {s = seen} {t = o ∷ os}).1 (Or.inr (mem-cons_of_mem o q)))
  | inr e ↦
      subst (Mem x) (append_assoc seen (o ∷ []) os)
        (origin_set-sound x (seen ++ o ∷ []) os (rw (e, origin_set, insert_origin) at m))
]

origin_set-complete :
    (x : Origin) (seen os : List Origin) → Mem x (seen ++ os) → Mem x (origin_set seen os)
unfolding origin_set insert_origin
origin_set-complete x seen [] m = subst (Mem x) (append-nil seen) m
origin_set-complete x seen (o ∷ os) m = elim (Bool-cases (contains seen o)) [
  | inl e ↦
      rw (e, origin_set, insert_origin)
        (origin_set-complete x seen os (
          Or.elim ∥∥₁_prop ((mem-append {s = seen} {t = o ∷ os}).0 m)
            (λ p. (mem-append {s = seen} {t = os}).1 (Or.inl p))
            (λ q.
              Or.elim ∥∥₁_prop ((mem-cons {l = os}).0 q)
                (λ s.
                  (mem-append {s = seen} {t = os}).1
                    (Or.inl (subst (λ z. Mem z seen) (sym s) (contains-Mem seen o e))))
                (λ r. (mem-append {s = seen} {t = os}).1 (Or.inr r)))))
  | inr e ↦
      rw (e, origin_set, insert_origin)
        (origin_set-complete x (seen ++ o ∷ []) os
          (subst (Mem x) (sym (append_assoc seen (o ∷ []) os)) m))
]

below_all :
    (a : Origin) (os : List Origin)
    → All (Differ a) os
    → All (λ b. origin_lt b a ≡ false) os
    → All (OriginBelow a) os
below_all a [] n h = tt
below_all a (b ∷ os) n h =
    (origin_lt-OriginBelow a b (origin_lt_total a b n.0 h.0), below_all a os n.1 h.1)

rising : (os : List Origin) → AllPairs Differ os → IsSorted origin_lt os → AllPairs OriginBelow os
rising [] n s = tt
rising (a ∷ os) n s = (below_all a os n.0 s.0, rising os n.1 s.1)

abbrev AnyOrigin : Origin → Type 0
AnyOrigin o = Unit

-- the sorted set of origins rises strictly and holds the given origins
pub sorted_origins-lem :
    (os : List Origin)
    → AllPairs OriginBelow (sorted origin_lt (origin_set [] os))
      × ((x : Origin) → Mem x (sorted origin_lt (origin_set [] os)) ↔ Mem x os)
sorted_origins-lem os =
    let set = origin_set [] os in
    let perm = sorted-perm origin_lt set in
    (
      rising (sorted origin_lt set)
          (sorted-AllPairs origin_lt Differ (λ a b n e. n (sym e)) set
            (origin_set-AllPairs [] os tt))
          (sorted-IsSorted origin_lt AnyOrigin origin_order set (all_of set)),
      λ x. (
        λ m. origin_set-sound x [] os ((Perm.mem_iff perm).0 m),
        λ m. (Perm.mem_iff perm).1 (origin_set-complete x [] os m),
      ),
    )
  where
    all_of : (l : List Origin) → All AnyOrigin l
    all_of [] = tt
    all_of (x ∷ l) = (tt, all_of l)

    origin_order : IsOrder origin_lt AnyOrigin
    origin_order = record {
      asymm = λ a b _ _. origin_lt-asymm a b;
      negtrans = λ a b c _ _ _. origin_lt-negtrans a b c;
    }
