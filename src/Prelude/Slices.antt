-- ===== src/Prelude/Slices.antt =====
-- `text[i:j]` of a list by natural numbers, and the searches of `bisect` in a list in order.
pub mod Laws
use Prim.Native.Nat.{suc, zero, ℕ, ◌-◌, ◌<◌, ◌≤◌}
use mathlib.Core.List.{List, [], ◌∷◌}
use mathlib.Core.Logic.{inl, inr}
use mathlib.Core.Option.{some}
use mathlib.Core.Path.{◌≡◌}
use native.Mathlib.Omega.{arith}
use omf_retrieval.Prelude.Lists.{drop, get_elem?, take}
use omf_retrieval.Prelude.Tests.{Bool-cases, if◌then◌else◌, leb, ltb}

module _ {ℓ} {A : Type ℓ} where
  unfoldable pub slice : List A → ℕ → ℕ → List A
  unfolding take drop
  slice xs i j = take (j - i) (drop i xs)

-- the number of elements before the first that is above `x`
unfoldable pub bisect_right : List ℕ → ℕ → ℕ
bisect_right [] x = 0
bisect_right (y ∷ ys) x = let rest = suc (bisect_right ys x) in if leb y x then rest else 0

-- the number of elements before the first that is not below `x`
unfoldable pub bisect_left : List ℕ → ℕ → ℕ
bisect_left [] x = 0
bisect_left (y ∷ ys) x = let rest = suc (bisect_left ys x) in if ltb y x then rest else 0

-- what stands before the place of `bisect_right` is not above `x`
pub bisect_right-le :
    (ys : List ℕ) (x k y : ℕ) → k < bisect_right ys x → get_elem? ys k ≡ some y → y ≤ x
unfolding bisect_right
bisect_right-le [] x k y h e = cc
bisect_right-le (z ∷ ys) x zero y h e = ground arith
bisect_right-le (z ∷ ys) x (suc k) y h e = ground (arith, bisect_right-le ys x k y)

-- what stands at the place of `bisect_left` is not below `x`
pub bisect_left-le : (ys : List ℕ) (x y : ℕ) → get_elem? ys (bisect_left ys x) ≡ some y → x ≤ y
unfolding bisect_left
bisect_left-le [] x y e = cc
bisect_left-le (z ∷ ys) x y e = elim (Bool-cases (ltb z x)) [
  | inl h ↦ bisect_left-le ys x y (ground arith)
  | inr h ↦ ground arith
]
