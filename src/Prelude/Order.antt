-- ===== src/Prelude/Order.antt =====
-- The lexicographic order of texts, stated apart from its test.
use Prim.Native.Nat.{◌<◌}
use mathlib.Core.Bool.{true}
use mathlib.Core.List.{[], ◌∷◌}
use mathlib.Core.Logic.{inl, inr}
use mathlib.Core.Path.{subst, ◌≡◌}
use native.Mathlib.Omega.{arith}
use omf_retrieval.Prelude.{ℕ}
use omf_retrieval.Prelude.Tests.{Bool-cases, ltb}
use omf_retrieval.Prelude.Text.{Text, text_lt}

pub data TextBelow : Text → Text → Type 0 where
  shorter : {d : ℕ} {t : Text} → TextBelow [] (d ∷ t)
  first : {c d : ℕ} {s t : Text} → c < d → TextBelow (c ∷ s) (d ∷ t)
  later : {c : ℕ} {s t : Text} → TextBelow s t → TextBelow (c ∷ s) (c ∷ t)

pub text_lt-TextBelow : (s t : Text) → text_lt s t ≡ true → TextBelow s t
unfolding text_lt
text_lt-TextBelow s [] h = cc
text_lt-TextBelow [] (d ∷ t) h = shorter
text_lt-TextBelow (c ∷ s) (d ∷ t) h = elim (Bool-cases (ltb c d)) [
  | inl below ↦ first (ground arith)
  | inr not_below ↦ elim (Bool-cases (ltb d c)) [
    | inl above ↦ absurd (ground arith)
    | inr not_above ↦
        let same : c ≡ d = ground arith in
        subst (λ z. TextBelow (c ∷ s) (z ∷ t)) same (later (text_lt-TextBelow s t (ground arith)))
  ]
]
