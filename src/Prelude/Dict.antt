-- ===== src/Prelude/Dict.antt =====
-- `dict`: an association list in insertion order, as Python keeps it.
use mathlib.Core.Bool.{false, true}
use mathlib.Core.List.{List, Mem, [], map, mem-cons_of_mem, mem-cons_self, ◌++◌, ◌∷◌}
use mathlib.Core.Logic.{inl, inr, ◌≢◌}
use mathlib.Core.Option.{Option, none, some}
use mathlib.Core.Path.{ap, refl, subst, subst₂, sym, ◌≡◌}
use native.Mathlib.Omega.{arith}
use omf_retrieval.Prelude.Equality.{Eq, ◌==◌}
use omf_retrieval.Prelude.Lists.{All, AllPairs}
use omf_retrieval.Prelude.Tests.{Bool-cases, if◌then◌else◌, none-ne-some}

abbrev pub Dict {ℓ κ} : Type ℓ → Type κ → Type (ℓ ⊔ κ)
Dict K V = List (K × V)

module _ {ℓ κ} {K : Type ℓ} {V : Type κ} where
  abbrev pub keys : Dict K V → List K
  keys [] = []
  keys ((k, _) ∷ m) = k ∷ keys m

  abbrev pub values : Dict K V → List V
  values [] = []
  values ((_, v) ∷ m) = v ∷ values m

-- no element occurs twice
abbrev pub IsDistinct {ℓ} : {A : Type ℓ} → List A → Type ℓ
IsDistinct [] = Unit
IsDistinct (x ∷ xs) = All (λ y. x ≢ y) xs × IsDistinct xs

module _ {ℓ κ} {K : Type ℓ} {V : Type κ} where
  -- keys that differ, as a relation on the entries
  abbrev pub OtherKey : K × V → K × V → Type ℓ
  OtherKey x y = x.0 ≢ y.0

  All-keys : (k : K) (m : Dict K V) → All (λ y. k ≢ y.0) m → All (λ j. k ≢ j) (keys m)
  All-keys k [] a = tt
  All-keys k (x ∷ m) a = (a.0, All-keys k m a.1)

  keys-All : (k : K) (m : Dict K V) → All (λ j. k ≢ j) (keys m) → All (λ y. k ≢ y.0) m
  keys-All k [] a = tt
  keys-All k (x ∷ m) a = (a.0, keys-All k m a.1)

  pub AllPairs→IsDistinct : (m : Dict K V) → AllPairs OtherKey m → IsDistinct (keys m)
  AllPairs→IsDistinct [] a = tt
  AllPairs→IsDistinct (x ∷ m) a = (All-keys x.0 m a.0, AllPairs→IsDistinct m a.1)

  pub IsDistinct→AllPairs : (m : Dict K V) → IsDistinct (keys m) → AllPairs OtherKey m
  IsDistinct→AllPairs [] a = tt
  IsDistinct→AllPairs (x ∷ m) a = (keys-All x.0 m a.0, IsDistinct→AllPairs m a.1)

ne_of_beq {ℓ} : {K : Type ℓ} ⦃e : Eq K⦄ (i j : K) → i == j ≡ false → i ≢ j
ne_of_beq ⦃e⦄ i j h p = ground (arith, e.beq_iff i j)

module _ {ℓ κ} {K : Type ℓ} {V : Type κ} ⦃e : Eq K⦄ where
  -- `m.get(k)`
  unfoldable pub get : K → Dict K V → Option V
  get k [] = none
  get k ((j, v) ∷ m) = if j == k then some v else get k m

  -- `m[k] = v`: a key that is there keeps its place
  unfoldable pub put : K → V → Dict K V → Dict K V
  put k v [] = (k, v) ∷ []
  put k v ((j, w) ∷ m) = if j == k then (j, v) ∷ m else (j, w) ∷ put k v m

  pub get-put :
      (k j : K) (v : V) (m : Dict K V) → get j (put k v m) ≡ (if k == j then some v else get j m)
  unfolding get put
  get-put k j v [] = refl
  get-put k j v ((i, w) ∷ m) =
      ground (arith, e.beq_iff k j, e.beq_iff i k, e.beq_iff i j, get-put k j v m)

  put-All-ne :
      (i k : K) (v : V) (m : Dict K V)
      → i ≢ k
      → All (λ y. i ≢ y) (keys m)
      → All (λ y. i ≢ y) (keys (put k v m))
  unfolding put
  put-All-ne i k v [] n h = (n, tt)
  put-All-ne i k v ((j, w) ∷ m) n h =
      elim (j == k)
        as (λ b. All (λ y. i ≢ y) (keys (if b then (j, v) ∷ m else (j, w) ∷ put k v m))) [
          | true ↦ h
          | false ↦ (h.0, put-All-ne i k v m n h.1)
        ]

  -- an assignment keeps the keys apart
  pub put-IsDistinct :
      (k : K) (v : V) (m : Dict K V) → IsDistinct (keys m) → IsDistinct (keys (put k v m))
  unfolding put
  put-IsDistinct k v [] h = (tt, tt)
  put-IsDistinct k v ((j, w) ∷ m) h =
      let rest = put-IsDistinct k v m h.1 in
      elim (Bool-cases (j == k)) [
        | inl same ↦ rw (same, put) h
        | inr other ↦ rw (other, put) (put-All-ne j k v m (ne_of_beq j k other) h.0, rest)
      ]

  -- a new key goes to the end
  pub put_of_none : (k : K) (v : V) (m : Dict K V) → get k m ≡ none → put k v m ≡ m ++ (k, v) ∷ []
  unfolding get put
  put_of_none k v [] h = refl
  put_of_none k v ((j, w) ∷ m) h = ground (arith, put_of_none k v m)

  module _ {μ} where
    -- what holds of every entry holds of the one that a lookup finds
    pub get-All :
        (Q : K → V → Type μ) (k : K) (v : V) (m : Dict K V)
        → All (λ x. Q x.0 x.1) m
        → get k m ≡ some v
        → Q k v
    unfolding get
    get-All Q k v [] a h = cc
    get-All Q k v ((j, w) ∷ m) a h = elim (Bool-cases (j == k)) [
      | inl same ↦ subst₂ Q ((e.beq_iff j k).0 same) (ground arith) a.0
      | inr other ↦ get-All Q k v m a.1 (ground arith)
    ]

    apart-All :
        (Q R : K → V → Type μ) (k : K) (m : Dict K V)
        → All (λ j. k ≢ j) (keys m)
        → All (λ x. Q x.0 x.1) m
        → ((j : K) (w : V) → j ≢ k → Q j w → R j w)
        → All (λ x. R x.0 x.1) m
    apart-All Q R k [] n a f = tt
    apart-All Q R k ((j, w) ∷ m) n a f = (f j w (λ p. n.0 (sym p)) a.0, apart-All Q R k m n.1 a.1 f)

    -- an assignment establishes its own entry, and the others are kept up to `f`
    pub put-All :
        (Q R : K → V → Type μ) (k : K) (v : V) (m : Dict K V)
        → IsDistinct (keys m)
        → All (λ x. Q x.0 x.1) m
        → ((j : K) (w : V) → j ≢ k → Q j w → R j w)
        → R k v
        → All (λ x. R x.0 x.1) (put k v m)
    unfolding put
    put-All Q R k v [] d a f r = (r, tt)
    put-All Q R k v ((j, w) ∷ m) d a f r =
        let rest = put-All Q R k v m d.1 a.1 f r in
        elim (Bool-cases (j == k)) [
          | inl same ↦
              let p = (e.beq_iff j k).0 same in
              rw (same, put)
                (
                  subst (λ i. R i v) (sym p) r,
                  apart-All Q R k m (subst (λ i. All (λ y. i ≢ y) (keys m)) p d.0) a.1 f,
                )
          | inr other ↦ rw (other, put) (f j w (ne_of_beq j k other) a.0, rest)
        ]

  pub mem-keys : (k : K) (v : V) (m : Dict K V) → get k m ≡ some v → Mem k (keys m)
  unfolding get
  mem-keys k v [] h = absurd (none-ne-some h)
  mem-keys k v ((j, w) ∷ m) h = elim (Bool-cases (j == k)) [
    | inl same ↦ subst (λ i. Mem k (i ∷ keys m)) (sym ((e.beq_iff j k).0 same)) mem-cons_self
    | inr other ↦ mem-cons_of_mem j (mem-keys k v m (ground arith))
  ]

module _ {ℓ κ} {K : Type ℓ} {V : Type κ} where
  pub keys-eq-map : (m : Dict K V) → keys m ≡ map (λ x. x.0) m
  keys-eq-map [] = refl
  keys-eq-map (x ∷ m) = ap (λ l. x.0 ∷ l) (keys-eq-map m)
