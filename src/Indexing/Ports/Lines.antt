-- ===== src/Indexing/Ports/Lines.antt =====
-- The physical lines of application/indexing/ports.py.
use mathlib.Core.List.{append-nil, append_assoc}
use mathlib.Core.Path.{ap₂}
use omf_retrieval.Indexing.Ports.{split_from, split_physical_lines}
use omf_retrieval.Prelude.{
  All, All-append, Bool, Bool-cases, List, [], ap, arith, false, inl, inr, nat_beq, nat_beq_iff,
  refl, sym, true-ne-false, ℕ, ◌++◌, ◌||◌, ◌∙◌, ◌∷◌, ◌≡◌, ◌≢◌, ◌⊎◌,
}
use omf_retrieval.Prelude.Text.{Text, is_empty}

unfoldable pub joined : List Text → Text
joined [] = []
joined (l ∷ ls) = l ++ joined ls

unfoldable pub is_break : ℕ → Bool
is_break c = nat_beq c 13 || nat_beq c 10

-- the end of a line: nothing, CR, LF or CR LF
abbrev pub IsEnding : Text → Type 0
IsEnding e = (e ≡ []) ⊎ ((e ≡ 13 ∷ []) ⊎ ((e ≡ 10 ∷ []) ⊎ (e ≡ 13 ∷ 10 ∷ [])))

-- a line is not empty and breaks only at its end
pub record IsLine (l : Text) : Type 0 where
  pub body : Text
  pub ending : Text
  pub whole : l ≡ body ++ ending
  pub unbroken : All (λ c. is_break c ≡ false) body
  pub ends : IsEnding ending
  pub nonempty : is_empty l ≡ false

joined-split_from : (line s : Text) → joined (split_from line s) ≡ line ++ s
unfolding joined split_from
joined-split_from [] [] = refl
joined-split_from (x ∷ line) [] = refl
joined-split_from line (c ∷ []) = append-nil (line ++ c ∷ [])
joined-split_from line (c ∷ d ∷ rest) = elim (Bool-cases (nat_beq c 13)) [
  | inl e ↦ elim (Bool-cases (nat_beq d 10)) [
    | inl f ↦
        rw (e, f, split_from)
          (ap (λ t. (line ++ c ∷ d ∷ []) ++ t) (joined-split_from [] rest)
            ∙ append_assoc line (c ∷ d ∷ []) rest)
    | inr f ↦
        rw (e, f, split_from)
          (ap (λ t. (line ++ c ∷ []) ++ t) (joined-split_from [] (d ∷ rest))
            ∙ append_assoc line (c ∷ []) (d ∷ rest))
  ]
  | inr e ↦ elim (Bool-cases (nat_beq c 10)) [
    | inl f ↦
        rw (e, f, split_from)
          (ap (λ t. (line ++ c ∷ []) ++ t) (joined-split_from [] (d ∷ rest))
            ∙ append_assoc line (c ∷ []) (d ∷ rest))
    | inr f ↦
        rw (e, f, split_from)
          (joined-split_from (line ++ c ∷ []) (d ∷ rest) ∙ append_assoc line (c ∷ []) (d ∷ rest))
  ]
]

cons_nonempty : (line : Text) (c : ℕ) (s : Text) → is_empty (line ++ c ∷ s) ≡ false
cons_nonempty [] c s = refl
cons_nonempty (x ∷ line) c s = refl

IsLine-of :
    (line : Text) (c : ℕ) (e : Text)
    → All (λ x. is_break x ≡ false) line
    → IsEnding (c ∷ e)
    → IsLine (line ++ c ∷ e)
IsLine-of line c e u i = record {
  body = line;
  ending = c ∷ e;
  whole = refl;
  unbroken = u;
  ends = i;
  nonempty = cons_nonempty line c e;
}

longer :
    (line : Text) (c : ℕ)
    → All (λ x. is_break x ≡ false) line
    → is_break c ≡ false
    → All (λ x. is_break x ≡ false) (line ++ c ∷ [])
longer line c u n = All-append (λ x. is_break x ≡ false) line (c ∷ []) u (n, tt)

last-IsLine : (line : Text) (c : ℕ) → All (λ x. is_break x ≡ false) line → IsLine (line ++ c ∷ [])
unfolding is_break
last-IsLine line c u = elim (Bool-cases (nat_beq c 13)) [
  | inl e ↦ IsLine-of line c [] u (inr (inl (ap (λ x. x ∷ []) ((nat_beq_iff c 13).0 e))))
  | inr e ↦ elim (Bool-cases (nat_beq c 10)) [
    | inl f ↦ IsLine-of line c [] u (inr (inr (inl (ap (λ x. x ∷ []) ((nat_beq_iff c 10).0 f)))))
    | inr f ↦ record {
      body = line ++ c ∷ [];
      ending = [];
      whole = sym (append-nil (line ++ c ∷ []));
      unbroken = longer line c u (ground arith);
      ends = inl refl;
      nonempty = cons_nonempty line c [];
    }
  ]
]

first_differs : (d : ℕ) (rest : Text) → nat_beq d 10 ≡ false → (t : Text) → (d ∷ rest) ≢ 10 ∷ t
first_differs d rest f t q =
    let same : d ≡ 10 = cc in true-ne-false (sym ((nat_beq_iff d 10).1 same) ∙ f)

not_return : (c : ℕ) → nat_beq c 13 ≡ false → (c ∷ []) ≢ 13 ∷ []
not_return c e q = let same : c ≡ 13 = cc in true-ne-false (sym ((nat_beq_iff c 13).1 same) ∙ e)

-- before the line `m`, a line ends in a break, and not in a CR that belongs to an LF of `m`
abbrev pub Closed : {l : Text} → IsLine l → Text → Type 0
Closed p m = (is_empty p.ending ≡ false) × (p.ending ≡ 13 ∷ [] → (t : Text) → m ≢ 10 ∷ t)

-- lines of which each but the last is closed
abbrev pub AreLines : List Text → Type 0
AreLines [] = Unit
AreLines (l ∷ []) = IsLine l
AreLines (l ∷ m ∷ ls) = (p : IsLine l) × Closed p m × AreLines (m ∷ ls)

AreLines-cons :
    {l : Text} (p : IsLine l) (s : Text)
    → is_empty p.ending ≡ false
    → (p.ending ≡ 13 ∷ [] → (t : Text) → s ≢ 10 ∷ t)
    → (ls : List Text) → joined ls ≡ s
    → AreLines ls
    → AreLines (l ∷ ls)
unfolding joined
AreLines-cons p s ne split [] j a = p
AreLines-cons p s ne split (m ∷ ls) j a =
    (p, (ne, λ e t q. split e (t ++ joined ls) (sym j ∙ ap (λ x. x ++ joined ls) q)), a)

split_from-AreLines :
    (line s : Text) → All (λ x. is_break x ≡ false) line → AreLines (split_from line s)
unfolding split_from is_break IsLine-of
split_from-AreLines [] [] u = tt
split_from-AreLines (x ∷ line) [] u = record {
  body = x ∷ line;
  ending = [];
  whole = sym (append-nil (x ∷ line));
  unbroken = u;
  ends = inl refl;
  nonempty = refl;
}
split_from-AreLines line (c ∷ []) u = last-IsLine line c u
split_from-AreLines line (c ∷ d ∷ rest) u = elim (Bool-cases (nat_beq c 13)) [
  | inl e ↦ elim (Bool-cases (nat_beq d 10)) [
    | inl f ↦
        let ends = ap₂ (λ x y. x ∷ y ∷ []) ((nat_beq_iff c 13).0 e) ((nat_beq_iff d 10).0 f) in
        rw (e, f, split_from)
          (AreLines-cons (IsLine-of line c (d ∷ []) u (inr (inr (inr ends)))) rest refl (λ q. cc)
            (split_from [] rest) (joined-split_from [] rest) (split_from-AreLines [] rest tt))
    | inr f ↦
        let ends = ap (λ x. x ∷ []) ((nat_beq_iff c 13).0 e) in
        rw (e, f, split_from)
          (AreLines-cons (IsLine-of line c [] u (inr (inl ends))) (d ∷ rest) refl
            (λ q t r. first_differs d rest f t r) (split_from [] (d ∷ rest))
            (joined-split_from [] (d ∷ rest)) (split_from-AreLines [] (d ∷ rest) tt))
  ]
  | inr e ↦ elim (Bool-cases (nat_beq c 10)) [
    | inl f ↦
        let ends = ap (λ x. x ∷ []) ((nat_beq_iff c 10).0 f) in
        rw (e, f, split_from)
          (AreLines-cons (IsLine-of line c [] u (inr (inr (inl ends)))) (d ∷ rest) refl
            (λ q. absurd (not_return c e q)) (split_from [] (d ∷ rest))
            (joined-split_from [] (d ∷ rest)) (split_from-AreLines [] (d ∷ rest) tt))
    | inr f ↦
        rw (e, f, split_from)
          (split_from-AreLines (line ++ c ∷ []) (d ∷ rest) (longer line c u (ground arith)))
  ]
]

-- The physical lines of a text put together are the text; each is not empty and breaks at its end
-- only, with CR, LF or CR LF; each but the last ends in a break; and no line that ends in CR alone
-- is before one that starts with LF.
pub split_physical_lines-AreLines :
    (source : Text)
    → (joined (split_physical_lines source) ≡ source) × AreLines (split_physical_lines source)
unfolding split_physical_lines
split_physical_lines-AreLines source =
    (joined-split_from [] source, split_from-AreLines [] source tt)
