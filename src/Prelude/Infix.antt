-- ===== src/Prelude/Infix.antt =====
-- Texts that stand within texts: `in`, `str.find` and slices.
use mathlib.Core.Option
use Prim.Native.Nat.{suc, ◌-◌, ◌≤◌}
use mathlib.Core.Bool.{true}
use mathlib.Core.List.{List, [], append-nil, append_assoc, ◌++◌, ◌∷◌}
use mathlib.Core.Logic.{inl, inr}
use mathlib.Core.Option.{Option, none, some}
use mathlib.Core.Path.{ap, ap₂, refl, sym, ◌∙◌, ◌≡◌}
use native.Mathlib.Omega.{arith}
use omf_retrieval.Prelude.{ℕ}
use omf_retrieval.Prelude.Lists.{drop, length, take, take-append-drop}
use omf_retrieval.Prelude.Slices.{slice}
use omf_retrieval.Prelude.Slices.Laws.{slice-append}
use omf_retrieval.Prelude.Tests.{
  &&-split, Bool-cases, Option-cases, if◌then◌else◌, nat_beq_iff, none-ne-some, some_injective,
}
use omf_retrieval.Prelude.Text.{Text, is_empty, starts_with}

-- `source.find(target)`
unfoldable pub find : Text → Text → Option ℕ
find [] target = if is_empty target then some 0 else none
find (c ∷ s) target =
    let rest = Option.map suc (find s target) in if starts_with (c ∷ s) target then some 0 else rest

abbrev pub Infix {ℓ} : {A : Type ℓ} → List A → List A → Type ℓ
Infix {A = A} t u = (before : List A) × ((after : List A) × (u ≡ before ++ (t ++ after)))

-- a text at a place of another
abbrev pub StandsAt : ℕ → Text → Text → Type 0
StandsAt i t u =
    (before : Text) × ((after : Text) × ((u ≡ before ++ (t ++ after)) × (length before ≡ i)))

pub Infix-refl {ℓ} : {A : Type ℓ} (t : List A) → Infix t t
Infix-refl t = ([], ([], sym (append-nil t)))

pub Infix-trans {ℓ} : {A : Type ℓ} (t u v : List A) → Infix t u → Infix u v → Infix t v
Infix-trans t u v (b, (a, e)) (b', (a', e')) = (
  b' ++ b,
  (
    a ++ a',
    e'
        ∙ ap (λ l. b' ++ (l ++ a')) e
        ∙ ap (λ l. b' ++ l) (append_assoc b (t ++ a) a' ∙ ap (λ l. b ++ l) (append_assoc t a a'))
        ∙ sym (append_assoc b' b (t ++ (a ++ a'))),
  ),
)

starts_with-split : (s p : Text) → starts_with s p ≡ true → (after : Text) × (s ≡ p ++ after)
unfolding starts_with
starts_with-split s [] h = (s, refl)
starts_with-split [] (c ∷ p) h = cc
starts_with-split (d ∷ s) (c ∷ p) h =
    let (same, more) = &&-split _ _ h in
    let (after, e) = starts_with-split s p more in
    (after, ap₂ (λ x l. x ∷ l) (sym ((nat_beq_iff c d).0 same)) e)

pub find-StandsAt : (s t : Text) (i : ℕ) → find s t ≡ some i → StandsAt i t s
unfolding find
find-StandsAt [] [] i e = ([], ([], (refl, some_injective e)))
find-StandsAt [] (c ∷ t) i e = absurd (none-ne-some e)
find-StandsAt (c ∷ s) t i e = elim (Bool-cases (starts_with (c ∷ s) t)) [
  | inl here ↦
      let (after, whole) = starts_with-split (c ∷ s) t here in
      ([], (after, (whole, some_injective (rw here at e))))
  | inr further ↦ elim (Option-cases (find s t)) [
    | inl missing ↦
        let e' : Option.map suc (find s t) ≡ some i = rw further at e in
        absurd (none-ne-some (rw missing at e'))
    | inr (j, found) ↦
        let e' : Option.map suc (find s t) ≡ some i = rw further at e in
        let (before, (after, (whole, at))) = find-StandsAt s t j found in
        (c ∷ before, (after, (ap (λ l. c ∷ l) whole, ap suc at ∙ some_injective (rw found at e'))))
  ]
]

pub slice-Infix {ℓ} : {A : Type ℓ} (xs : List A) (i j : ℕ) → Infix (slice xs i j) xs
unfolding slice
slice-Infix xs i j = (
  take i xs,
  (
    drop (j - i) (drop i xs),
    sym (take-append-drop i xs)
        ∙ ap (λ l. take i xs ++ l) (sym (take-append-drop (j - i) (drop i xs))),
  ),
)

-- a part of a text that holds a slice holds its text
pub slice-slice_Infix {ℓ} :
    {A : Type ℓ} (xs : List A) (a i j z : ℕ)
    → a ≤ i
    → i ≤ j
    → j ≤ z
    → Infix (slice xs i j) (slice xs a z)
slice-slice_Infix xs a i j z h h' h'' = (
  slice xs a i,
  (
    slice xs j z,
    sym (
        ap (λ l. slice xs a i ++ l) (slice-append xs i j z h' h'')
        ∙ slice-append xs a i z h (omega arith)),
  ),
)
