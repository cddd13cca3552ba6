-- ===== src/Prelude/Ensures.antt =====
-- What a call guarantees: what it returns satisfies `P`, and it never runs out of fuel. One rule for
-- each way to build a call.
use mathlib.Core.Bool.{Bool, false, true}
use mathlib.Core.Path.{refl, subst, ◌≡◌}
use omf_retrieval.Prelude.Exceptions.{
  Exception, Result, ok, ok-injective, out_of_fuel, raise, raise-ne-ok, require, ◌>>=◌, ◌>>◌,
}
use omf_retrieval.Prelude.Tests.{if◌then◌else◌}

-- an exception that Python has
abbrev pub InPython : Exception → Type 0
InPython out_of_fuel = ⊥
InPython _ = Unit {0}

pub data Ensures {ℓ κ} {A : Type ℓ} (P : A → Type κ) : Result A → Type (ℓ ⊔ κ) where
  returned : (a : A) → P a → Ensures P (ok a)
  refused : (e : Exception) → InPython e → Ensures P (raise e)

module _ {ℓ κ} {A : Type ℓ} {P : A → Type κ} where
  pub Ensures-ok : {a : A} → Ensures P (ok a) → P a
  Ensures-ok (returned a p) = p

  pub Ensures-at : {r : Result A} {a : A} → Ensures P r → r ≡ ok a → P a
  Ensures-at (returned b p) e = subst P (ok-injective e) p
  Ensures-at (refused x i) e = absurd (raise-ne-ok e)

  pub Ensures-if :
      (b : Bool) (r s : Result A)
      → (b ≡ true → Ensures P r)
      → (b ≡ false → Ensures P s)
      → Ensures P (if b then r else s)
  Ensures-if true r s f g = f refl
  Ensures-if false r s f g = g refl

  -- both branches, where the test does not matter
  pub Ensures-branch :
      (b : Bool) (r s : Result A) → Ensures P r → Ensures P s → Ensures P (if b then r else s)
  Ensures-branch true r s h k = h
  Ensures-branch false r s h k = k

  pub Ensures-require :
      (b : Bool) (e : Exception) (r : Result A)
      → InPython e
      → (b ≡ true → Ensures P r)
      → Ensures P (require b e >> r)
  Ensures-require true e r i f = f refl
  Ensures-require false e r i f = refused e i

-- the call returns or raises an exception of Python
abbrev pub Halts {ℓ} : {A : Type ℓ} → Result A → Type ℓ
Halts r = Ensures (λ _. Unit {0}) r

pub require-Halts : (b : Bool) (e : Exception) → InPython e → Halts (require b e)
require-Halts true e i = returned tt tt
require-Halts false e i = refused e i

module _ {ℓ κ μ} {A : Type ℓ} {P : A → Type κ} {Q : A → Type μ} where
  -- what a call that halts returns, where the equation is used
  pub Ensures-with : {r : Result A} → Ensures P r → ((a : A) → r ≡ ok a → Q a) → Ensures Q r
  Ensures-with (returned a p) f = returned a (f a refl)
  Ensures-with (refused e i) f = refused e i

  pub Ensures-both : {r : Result A} → Ensures P r → Ensures Q r → Ensures (λ a. P a × Q a) r
  Ensures-both (returned a p) h = returned a (p, Ensures-ok h)
  Ensures-both (refused e i) h = refused e i

  pub Ensures-imp : ((a : A) → P a → Q a) → {r : Result A} → Ensures P r → Ensures Q r
  Ensures-imp f (returned a p) = returned a (f a p)
  Ensures-imp f (refused e i) = refused e i

module _ {ℓ κ μ ν} {A : Type ℓ} {B : Type κ} {P : A → Type μ} {Q : B → Type ν} where
  -- a call and what follows it, which may use that the call has returned
  pub Ensures-bind :
      (r : Result A) (after : A → Result B)
      → Ensures P r
      → ((a : A) → r ≡ ok a → P a → Ensures Q (after a))
      → Ensures Q (r >>= after)
  Ensures-bind (ok a) after h f = f a refl (Ensures-ok h)
  Ensures-bind (raise e) after (refused e' i) f = refused e i
