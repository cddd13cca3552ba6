-- ===== src/Prelude/Sort.antt =====
-- `sorted`: the stable sort by a strict comparison, which is all that Python's sort asks of a key.
use mathlib.Core.List.Perm
use Prim.Native.Nat.{suc, zero, ℕ}
use mathlib.Core.Bool.{Bool, false, true}
use mathlib.Core.List.{List, Perm, [], ◌∷◌}
use mathlib.Core.Logic.{inl, inr}
use mathlib.Core.Path.{refl, ◌≡◌}
use native.Mathlib.Omega.{arith}
use omf_retrieval.Prelude.Lists.{All, All-keep, All-take, AllPairs, keep, take}
use omf_retrieval.Prelude.Tests.{Bool-cases}

module _ {ℓ} {A : Type ℓ} (lt : A → A → Bool) where
  -- `x` goes before the first `y` that is not below it
  unfoldable pub insert_sorted : A → List A → List A
  insert_sorted x [] = x ∷ []
  insert_sorted x (y ∷ ys) =
      let rest = insert_sorted x ys in elim (lt y x) [ true ↦ y ∷ rest | false ↦ x ∷ y ∷ ys ]

  unfoldable pub sorted : List A → List A
  unfolding insert_sorted
  sorted [] = []
  sorted (x ∷ xs) = insert_sorted x (sorted xs)

  -- nothing is below what stands before it
  abbrev pub IsSorted : List A → Type ℓ
  IsSorted [] = Unit
  IsSorted (x ∷ xs) = All (λ y. lt y x ≡ false) xs × IsSorted xs

  insert_sorted-perm : (x : A) (l : List A) → Perm (insert_sorted x l) (x ∷ l)
  unfolding insert_sorted
  insert_sorted-perm x [] = Perm.rfl
  insert_sorted-perm x (y ∷ ys) = elim (Bool-cases (lt y x)) [
    | inl h ↦
        rw (h, insert_sorted)
          (Perm.trans (Perm.cons y (insert_sorted-perm x ys)) (Perm.swap x y ys))
    | inr h ↦ rw (h, insert_sorted) Perm.rfl
  ]

  -- the result is a rearrangement of the input
  pub sorted-perm : (l : List A) → Perm (sorted l) l
  unfolding sorted
  sorted-perm [] = Perm.rfl
  sorted-perm (x ∷ xs) =
      Perm.trans (insert_sorted-perm x (sorted xs)) (Perm.cons x (sorted-perm xs))

  module _ {κ} (P : A → Type κ) where
    insert_sorted-All : (x : A) (l : List A) → P x → All P l → All P (insert_sorted x l)
    unfolding insert_sorted
    insert_sorted-All x [] p h = (p, tt)
    insert_sorted-All x (y ∷ ys) p h = elim (Bool-cases (lt y x)) [
      | inl e ↦ rw (e, insert_sorted) (h.0, insert_sorted-All x ys p h.1)
      | inr e ↦ rw (e, insert_sorted) (p, h)
    ]

    pub sorted-All : (l : List A) → All P l → All P (sorted l)
    unfolding sorted
    sorted-All [] h = tt
    sorted-All (x ∷ xs) h = insert_sorted-All x (sorted xs) h.0 (sorted-All xs h.1)

module _ {ℓ} {A : Type ℓ} (lt : A → A → Bool) where
  -- sorting a list in order changes nothing
  pub sorted_of_IsSorted : (l : List A) → IsSorted lt l → sorted lt l ≡ l
  unfolding sorted
  sorted_of_IsSorted [] s = refl
  sorted_of_IsSorted (x ∷ []) s = refl
  sorted_of_IsSorted (x ∷ y ∷ l) s = rw (sorted_of_IsSorted (y ∷ l) s.1) (ground arith)

  pub IsSorted-keep : (p : A → Bool) (l : List A) → IsSorted lt l → IsSorted lt (keep p l)
  unfolding keep
  IsSorted-keep p [] s = tt
  IsSorted-keep p (x ∷ l) s =
      elim (p x)
        as (λ b. IsSorted lt (elim b as (λ _. List A) [ true ↦ x ∷ keep p l | false ↦ keep p l ])) [
          | true ↦ (All-keep (λ y. lt y x ≡ false) p l s.0, IsSorted-keep p l s.1)
          | false ↦ IsSorted-keep p l s.1
        ]

  pub IsSorted-take : (n : ℕ) (l : List A) → IsSorted lt l → IsSorted lt (take n l)
  unfolding take
  IsSorted-take zero l s = tt
  IsSorted-take (suc n) [] s = tt
  IsSorted-take (suc n) (x ∷ l) s = (All-take (λ y. lt y x ≡ false) n l s.0, IsSorted-take n l s.1)

  -- what holds of any two elements, in either order, holds of any two of the result
  module _ {κ} (R : A → A → Type κ) (symm : (a b : A) → R a b → R b a) where
    insert_sorted-AllPairs :
        (x : A) (l : List A) → All (R x) l → AllPairs R l → AllPairs R (insert_sorted lt x l)
    unfolding insert_sorted
    insert_sorted-AllPairs x [] h a = (tt, tt)
    insert_sorted-AllPairs x (y ∷ l) h a = elim (Bool-cases (lt y x)) [
      | inl e ↦
          rw (e, insert_sorted)
            (insert_sorted-All lt (R y) x l (symm x y h.0) a.0, insert_sorted-AllPairs x l h.1 a.1)
      | inr e ↦ rw (e, insert_sorted) (h, a)
    ]

    pub sorted-AllPairs : (l : List A) → AllPairs R l → AllPairs R (sorted lt l)
    unfolding sorted
    sorted-AllPairs [] a = tt
    sorted-AllPairs (x ∷ l) a =
        insert_sorted-AllPairs x (sorted lt l) (sorted-All lt (R x) l a.0) (sorted-AllPairs l a.1)

-- A comparison that orders the values of `P`.
pub record IsOrder {ℓ κ} {A : Type ℓ} (lt : A → A → Bool) (P : A → Type κ) : Type (ℓ ⊔ κ) where
  pub asymm : (a b : A) → P a → P b → lt a b ≡ true → lt b a ≡ false
  pub negtrans : (a b c : A) → P a → P b → P c → lt b a ≡ false → lt c b ≡ false → lt c a ≡ false

module _ {ℓ κ} {A : Type ℓ} (lt : A → A → Bool) (P : A → Type κ) (order : IsOrder lt P) where
  All-negtrans :
      (x y : A) (l : List A)
      → P x
      → P y
      → All P l
      → lt y x ≡ false
      → All (λ z. lt z y ≡ false) l
      → All (λ z. lt z x ≡ false) l
  All-negtrans x y [] px py pl h a = tt
  All-negtrans x y (z ∷ l) px py pl h a =
      (order.negtrans x y z px py pl.0 h a.0, All-negtrans x y l px py pl.1 h a.1)

  insert_sorted-IsSorted :
      (x : A) (l : List A) → P x → All P l → IsSorted lt l → IsSorted lt (insert_sorted lt x l)
  unfolding insert_sorted
  insert_sorted-IsSorted x [] px pl s = (tt, tt)
  insert_sorted-IsSorted x (y ∷ ys) px pl s = elim (Bool-cases (lt y x)) [
    | inl h ↦
        rw (h, insert_sorted)
          (
            insert_sorted-All lt (λ z. lt z y ≡ false) x ys (order.asymm y x pl.0 px h) s.0,
            insert_sorted-IsSorted x ys px pl.1 s.1,
          )
    | inr h ↦ rw (h, insert_sorted) ((h, All-negtrans x y ys px pl.0 pl.1 h s.0), s)
  ]

  -- where the comparison orders the elements, the result is in order
  pub sorted-IsSorted : (l : List A) → All P l → IsSorted lt (sorted lt l)
  unfolding sorted
  sorted-IsSorted [] h = tt
  sorted-IsSorted (x ∷ xs) h =
      insert_sorted-IsSorted x (sorted lt xs) h.0 (sorted-All lt P xs h.1) (sorted-IsSorted xs h.1)
