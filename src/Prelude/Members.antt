-- ===== src/Prelude/Members.antt =====
-- Membership against the Boolean tests of lists.
use mathlib.Core.Logic.Or
use mathlib.Core.Bool.{Bool, true}
use mathlib.Core.List.{List, Mem, [], mem-cons, mem-cons_of_mem, mem-cons_self, not-mem-nil, ◌∷◌}
use mathlib.Core.Logic.{inl, inr, ∥∥₁_prop}
use mathlib.Core.Path.{ap, subst, sym, ◌∙◌, ◌≡◌}
use native.Mathlib.Omega.{arith}
use omf_retrieval.Prelude.Equality.{Eq, contains, ◌==◌}
use omf_retrieval.Prelude.Lists.{keep}
use omf_retrieval.Prelude.Tests.{Bool-cases, true-ne-false}

pub Bool-set : IsSet Bool
Bool-set = hlevel

module _ {ℓ} {K : Type ℓ} ⦃e : Eq K⦄ where
  pub contains-Mem : (xs : List K) (k : K) → contains xs k ≡ true → Mem k xs
  unfolding contains
  contains-Mem [] k h = cc
  contains-Mem (x ∷ xs) k h = elim (Bool-cases (x == k)) [
    | inl same ↦ subst (λ z. Mem z (x ∷ xs)) ((e.beq_iff x k).0 same) mem-cons_self
    | inr other ↦ mem-cons_of_mem x (contains-Mem xs k (ground arith))
  ]

  pub Mem-contains : (xs : List K) (k : K) → Mem k xs → contains xs k ≡ true
  unfolding contains
  Mem-contains [] k m = absurd (not-mem-nil m)
  Mem-contains (x ∷ xs) k m =
      Or.elim (Bool-set (contains (x ∷ xs) k) true) ((mem-cons {l = xs}).0 m)
        (λ p. ground (arith, e.beq_iff x k, p)) (λ q. ground (arith, Mem-contains xs k q))

module _ {ℓ} {A : Type ℓ} where
  -- a filter keeps the members that pass it
  pub keep-Mem : (p : A → Bool) (x : A) (xs : List A) → Mem x (keep p xs) → Mem x xs × (p x ≡ true)
  unfolding keep
  keep-Mem p x [] m = absurd (not-mem-nil m)
  keep-Mem p x (y ∷ xs) m = elim (Bool-cases (p y)) [
    | inl h ↦ (
      Or.elim ∥∥₁_prop ((mem-cons {l = keep p xs}).0 (rw (h, keep) at m))
          (λ q. subst (λ z. Mem z (y ∷ xs)) (sym q) mem-cons_self)
          (λ r. mem-cons_of_mem y (keep-Mem p x xs r).0),
      Or.elim (Bool-set (p x) true) ((mem-cons {l = keep p xs}).0 (rw (h, keep) at m))
          (λ q. ap p q ∙ h) (λ r. (keep-Mem p x xs r).1),
    )
    | inr h ↦ let (n, passes) = keep-Mem p x xs (rw (h, keep) at m) in (mem-cons_of_mem y n, passes)
  ]

  pub Mem-keep : (p : A → Bool) (x : A) (xs : List A) → Mem x xs → p x ≡ true → Mem x (keep p xs)
  unfolding keep
  Mem-keep p x [] m h = m
  Mem-keep p x (y ∷ xs) m h = elim (Bool-cases (p y)) [
    | inl g ↦
        rw (g, keep)
          (Or.elim ∥∥₁_prop ((mem-cons {l = xs}).0 m)
            (λ q. subst (λ z. Mem z (y ∷ keep p xs)) (sym q) mem-cons_self)
            (λ r. mem-cons_of_mem y (Mem-keep p x xs r h)))
    | inr g ↦
        rw (g, keep)
          (Or.elim ∥∥₁_prop ((mem-cons {l = xs}).0 m)
            (λ q. absurd (true-ne-false (sym h ∙ ap p q ∙ g))) (λ r. Mem-keep p x xs r h))
  ]
