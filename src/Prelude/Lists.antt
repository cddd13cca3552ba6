-- ===== src/Prelude/Lists.antt =====
-- Lists measured and indexed by native numbers, under the library's names, and predicates on them
-- by recursion.
use mathlib.Core.Logic.Or
use Prim.Native.Nat.{suc, zero, ℕ, ◌+◌, ◌<◌, ◌≤◌}
use mathlib.Core.Bool.{Bool, Bool-set, false, true, ◌&&◌, ◌||◌}
use mathlib.Core.List.{List, Mem, [], map, mem-cons, not-mem-nil, ◌++◌, ◌∷◌}
use mathlib.Core.Logic.{inl, inr}
use mathlib.Core.Option.{Option, none, some}
use mathlib.Core.Path.{ap, refl, subst, sym, ◌≡◌}
use native.Mathlib.Omega.{arith}
use omf_retrieval.Prelude.Tests.{Bool-cases}

module _ {ℓ} {A : Type ℓ} where
  abbrev pub length : List A → ℕ
  length [] = 0
  length (x ∷ xs) = suc (length xs)

  -- `l[:n]`
  unfoldable pub take : ℕ → List A → List A
  take zero xs = []
  take (suc n) [] = []
  take (suc n) (x ∷ xs) = x ∷ take n xs

  -- `l[n:]`
  unfoldable pub drop : ℕ → List A → List A
  drop zero xs = xs
  drop (suc n) [] = []
  drop (suc n) (x ∷ xs) = drop n xs

  abbrev pub get_elem? : List A → ℕ → Option A
  get_elem? [] i = none
  get_elem? (x ∷ xs) zero = some x
  get_elem? (x ∷ xs) (suc i) = get_elem? xs i

  -- `any(p(x) for x in l)`
  unfoldable pub any : (A → Bool) → List A → Bool
  any p [] = false
  any p (x ∷ xs) = p x || any p xs

  -- `all(p(x) for x in l)`
  unfoldable pub all : (A → Bool) → List A → Bool
  all p [] = true
  all p (x ∷ xs) = p x && all p xs

  -- `[x for x in l if p(x)]`
  unfoldable pub keep : (A → Bool) → List A → List A
  keep p [] = []
  keep p (x ∷ xs) = let rest = keep p xs in elim (p x) [ true ↦ x ∷ rest | false ↦ rest ]

  pub length-append : (xs ys : List A) → length (xs ++ ys) ≡ length xs + length ys
  length-append [] ys = omega arith
  length-append (x ∷ xs) ys = omega (arith, length-append xs ys)

  pub length-take-le : (n : ℕ) (xs : List A) → length (take n xs) ≤ n
  unfolding take
  length-take-le zero xs = omega arith
  length-take-le (suc n) [] = omega arith
  length-take-le (suc n) (x ∷ xs) = omega (arith, length-take-le n xs)

module _ {ℓ κ} {A : Type ℓ} where
  -- every element satisfies `P`
  abbrev pub All : (A → Type κ) → List A → Type κ
  All P [] = Unit
  All P (x ∷ xs) = P x × All P xs

  pub All-append : (P : A → Type κ) (l m : List A) → All P l → All P m → All P (l ++ m)
  All-append P [] m each more = more
  All-append P (x ∷ l) m (first, each) more = (first, All-append P l m each more)

  pub All-take : (P : A → Type κ) (n : ℕ) (xs : List A) → All P xs → All P (take n xs)
  unfolding take
  All-take P zero xs h = tt
  All-take P (suc n) [] h = tt
  All-take P (suc n) (x ∷ xs) h = (h.0, All-take P n xs h.1)

module _ {ℓ κ μ} {A : Type ℓ} where
  pub All-imp :
      (P : A → Type κ) (Q : A → Type μ)
      → ((a : A) → P a → Q a)
      → (xs : List A) → All P xs
      → All Q xs
  All-imp P Q f [] h = tt
  All-imp P Q f (x ∷ xs) h = (f x h.0, All-imp P Q f xs h.1)

module _ {ℓ κ} {A : Type ℓ} {B : Type κ} where
  pub length-map : (f : A → B) (xs : List A) → length (map f xs) ≡ length xs
  length-map f [] = refl
  length-map f (x ∷ xs) = ap suc (length-map f xs)

module _ {ℓ} {A : Type ℓ} where
  pub any-All : (p : A → Bool) (xs : List A) → any p xs ≡ false → All (λ x. p x ≡ false) xs
  unfolding any
  any-All p [] h = tt
  any-All p (x ∷ xs) h = (ground arith, any-All p xs (ground arith))

  pub All-any : (p : A → Bool) (xs : List A) → All (λ x. p x ≡ false) xs → any p xs ≡ false
  unfolding any
  All-any p [] h = refl
  All-any p (x ∷ xs) h = ground (arith, All-any p xs h.1)

module _ {ℓ κ} {A : Type ℓ} where
  pub All-keep : (P : A → Type κ) (p : A → Bool) (xs : List A) → All P xs → All P (keep p xs)
  unfolding keep
  All-keep P p [] h = tt
  All-keep P p (x ∷ xs) h =
      elim (p x)
        as (λ b. All P (elim b as (λ _. List A) [ true ↦ x ∷ keep p xs | false ↦ keep p xs ])) [
          | true ↦ (h.0, All-keep P p xs h.1)
          | false ↦ All-keep P p xs h.1
        ]

-- every earlier element is related to every later one
abbrev pub AllPairs {ℓ κ} : {A : Type ℓ} → (A → A → Type κ) → List A → Type κ
AllPairs R [] = Unit
AllPairs R (x ∷ xs) = All (R x) xs × AllPairs R xs

module _ {ℓ κ} {A : Type ℓ} where
  pub AllPairs-take :
      (R : A → A → Type κ) (n : ℕ) (xs : List A) → AllPairs R xs → AllPairs R (take n xs)
  unfolding take
  AllPairs-take R zero xs h = tt
  AllPairs-take R (suc n) [] h = tt
  AllPairs-take R (suc n) (x ∷ xs) h = (All-take (R x) n xs h.0, AllPairs-take R n xs h.1)

module _ {ℓ} {A : Type ℓ} where
  -- a slice that is shorter than its bound is the whole list
  pub take_short : (n : ℕ) (xs : List A) → length (take n xs) < n → take n xs ≡ xs
  unfolding take
  take_short zero xs h = absurd (omega arith)
  take_short (suc n) [] h = refl
  take_short (suc n) (x ∷ xs) h = ap (λ l. x ∷ l) (take_short n xs (omega arith))

module _ {ℓ} {A : Type ℓ} where
  -- what a filter keeps passes it
  pub keep-All : (p : A → Bool) (xs : List A) → All (λ x. p x ≡ true) (keep p xs)
  unfolding keep
  keep-All p [] = tt
  keep-All p (x ∷ xs) = elim (Bool-cases (p x)) [
    | inl h ↦ rw (h, keep) (h, keep-All p xs)
    | inr h ↦ rw (h, keep) (keep-All p xs)
  ]

module _ {ℓ κ μ} {A : Type ℓ} where
  pub All-zip :
      (P : A → Type κ) (Q : A → Type μ) (xs : List A)
      → All P xs
      → All Q xs
      → All (λ x. P x × Q x) xs
  All-zip P Q [] a b = tt
  All-zip P Q (x ∷ xs) a b = ((a.0, b.0), All-zip P Q xs a.1 b.1)

module _ {ℓ κ} {A : Type ℓ} where
  pub All-mem :
      (P : A → Type κ)
      → ((a : A) → IsProp (P a))
      → (a : A) (xs : List A) → All P xs
      → Mem a xs
      → P a
  All-mem P prop a [] h m = absurd (not-mem-nil m)
  All-mem P prop a (x ∷ xs) h m =
      Or.elim (prop a) (mem-cons.0 m) (λ e. subst P (sym e) h.0) (All-mem P prop a xs h.1)

module _ {ℓ} {A : Type ℓ} where
  pub keep-eq_nil : (p : A → Bool) (xs : List A) → keep p xs ≡ [] → All (λ x. p x ≡ false) xs
  unfolding keep
  keep-eq_nil p [] h = tt
  keep-eq_nil p (x ∷ xs) h = (ground arith, keep-eq_nil p xs (ground arith))

  -- a filter that keeps nothing met no element that passes
  pub keep-eq_nil-mem :
      (p : A → Bool) (x : A) (xs : List A) → keep p xs ≡ [] → Mem x xs → p x ≡ false
  keep-eq_nil-mem p x xs h m =
      All-mem (λ y. p y ≡ false) (λ y. Bool-set (p y) false) x xs (keep-eq_nil p xs h) m

-- a list cut in two
module _ {ℓ} {A : Type ℓ} where
  pub take-append : (n : ℕ) (xs ys : List A) → length xs ≡ n → take n (xs ++ ys) ≡ xs
  unfolding take
  take-append zero [] ys h = refl
  take-append zero (x ∷ xs) ys h = absurd (omega arith)
  take-append (suc n) [] ys h = absurd (omega arith)
  take-append (suc n) (x ∷ xs) ys h = ap (λ l. x ∷ l) (take-append n xs ys (omega arith))

  pub drop-append : (n : ℕ) (xs ys : List A) → length xs ≡ n → drop n (xs ++ ys) ≡ ys
  unfolding drop
  drop-append zero [] ys h = refl
  drop-append zero (x ∷ xs) ys h = absurd (omega arith)
  drop-append (suc n) [] ys h = absurd (omega arith)
  drop-append (suc n) (x ∷ xs) ys h = drop-append n xs ys (omega arith)

  pub take-append-drop : (n : ℕ) (xs : List A) → take n xs ++ drop n xs ≡ xs
  unfolding take drop
  take-append-drop zero xs = refl
  take-append-drop (suc n) [] = refl
  take-append-drop (suc n) (x ∷ xs) = ap (λ l. x ∷ l) (take-append-drop n xs)

  pub drop-suc : (n : ℕ) (x : A) (xs ys : List A) → drop n xs ≡ x ∷ ys → drop (suc n) xs ≡ ys
  unfolding drop
  drop-suc zero x [] ys h = cc
  drop-suc zero x (y ∷ xs) ys h = cc
  drop-suc (suc n) x [] ys h = cc
  drop-suc (suc n) x (y ∷ xs) ys h = drop-suc n x xs ys h
