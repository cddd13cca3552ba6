-- ===== src/Indexing/Chunker/Tokens/Laws.antt =====
-- What the checked answers of a tokenizer are.
use Prim.Native.Nat.{max}
use omf_retrieval.Indexing.Chunker.Tokens.{
  Materialized, Reply, Span, TokenCounter, call_raised, check_span, check_spans, encoded_tokens,
  malformed, materialize_sequence, materialized, no_sequence, read_failed, read_items, read_reply,
  sequence_of, some_or_raise, token_count, token_offsets, valid_groups,
  validated_source_offset_groups,
}
use omf_retrieval.Prelude.{
  All, Bool-cases, List, Option, Result, [], ap, arith, false, if◌then◌else◌, inl, inr, leb, length,
  length-append, ltb, nat_beq, nat_beq_iff, none, ok, raise, refl, some, suc, sym, true,
  value_error, zero, ℕ, ◌&&◌, ◌++◌, ◌+◌, ◌<◌, ◌>>=◌, ◌∙◌, ◌∷◌, ◌≡◌, ◌≤◌, ◌⊎◌,
}
use omf_retrieval.Prelude.Ensures.{Ensures, Ensures-bind, Ensures-require, Halts, refused, returned}
use omf_retrieval.Prelude.Text.{Text}
use omf_retrieval.Prelude.Values.{negsuc, pos, ℤ}

-- the declared length is the number of the items that are read
abbrev pub IsRead {ℓ} : {A : Type ℓ} → ℕ × List A → Type 0
IsRead r = r.0 ≡ length r.1

module _ {A : Type 0} where
  abbrev IsMaterialized : Materialized A → Type 0
  IsMaterialized (materialized declared items) = declared ≡ length items
  IsMaterialized _ = Unit

  read_items-IsMaterialized :
      (declared n : ℕ) (items : List A) (yields : List (Option A))
      → length items + n ≡ declared
      → IsMaterialized (read_items declared n items yields)
  unfolding read_items
  read_items-IsMaterialized declared zero items [] h = omega arith
  read_items-IsMaterialized declared zero items (none ∷ more) h = tt
  read_items-IsMaterialized declared zero items (some a ∷ more) h = tt
  read_items-IsMaterialized declared (suc n) items [] h = tt
  read_items-IsMaterialized declared (suc n) items (none ∷ more) h = tt
  read_items-IsMaterialized declared (suc n) items (some a ∷ more) h =
      read_items-IsMaterialized declared n (items ++ a ∷ []) more
        (omega (arith, length-append items (a ∷ [])))

  materialize_sequence-IsMaterialized :
      (reply : Reply A) (max_items : ℕ) → IsMaterialized (materialize_sequence reply max_items)
  unfolding materialize_sequence
  materialize_sequence-IsMaterialized call_raised max_items = tt
  materialize_sequence-IsMaterialized no_sequence max_items = tt
  materialize_sequence-IsMaterialized (sequence_of none yields) max_items = tt
  materialize_sequence-IsMaterialized (sequence_of (some declared) yields) max_items =
      elim (ltb max_items declared)
        as (λ b. IsMaterialized (if b then malformed else read_items declared declared [] yields)) [
          | true ↦ tt
          | false ↦ read_items-IsMaterialized declared declared [] yields (omega arith)
        ]

  pub read_reply-Ensures :
      (reply : Reply A) (max_items : ℕ) → Ensures IsRead (read_reply reply max_items)
  unfolding read_reply
  read_reply-Ensures reply max_items =
      elim (materialize_sequence reply max_items)
          as (λ m.
            IsMaterialized m
            → Ensures IsRead (elim m as (λ _. Result (ℕ × List A)) [
              | read_failed ↦ raise value_error
              | malformed ↦ raise value_error
              | materialized declared items ↦ ok (declared, items)
            ])) [
              | read_failed ↦ λ h. refused value_error tt
              | malformed ↦ λ h. refused value_error tt
              | materialized declared items ↦ λ h. returned (declared, items) h
            ]
        (materialize_sequence-IsMaterialized reply max_items)

pub encoded_tokens-Halts :
    (counter : TokenCounter) (text : Text) → Halts (encoded_tokens counter text)
unfolding encoded_tokens
encoded_tokens-Halts counter text =
    Ensures-bind _ _ (read_reply-Ensures (counter.encode text) _)
      λ r e h. Ensures-require _ _ _ tt λ checked. returned r.1 tt

pub token_count-Halts : (counter : TokenCounter) (text : Text) → Halts (token_count counter text)
unfolding token_count
token_count-Halts counter text =
    Ensures-bind _ _ (encoded_tokens-Halts counter text) λ tokens e h. returned (length tokens) tt

-- spans that are not empty and end within a text
abbrev pub IsWithin : ℕ → Span → Type 0
IsWithin size s = (s.0 < s.1) × (s.1 ≤ size)

check_span-Ensures : (size : ℕ) (x : Option (ℤ × ℤ)) → Ensures (IsWithin size) (check_span size x)
unfolding check_span
check_span-Ensures size (some (pos i, pos j)) =
    Ensures-require (ltb i j && leb j size) _ _ tt λ h. returned (i, j) (ground arith, ground arith)
check_span-Ensures size (some (pos i, negsuc j)) = refused value_error tt
check_span-Ensures size (some (negsuc i, j)) = refused value_error tt
check_span-Ensures size none = refused value_error tt

check_spans-Ensures :
    (size : ℕ) (xs : List (Option (ℤ × ℤ)))
    → Ensures
        (λ spans. All (IsWithin size) spans × (length spans ≡ length xs))
        (check_spans size xs)
unfolding check_spans
check_spans-Ensures size [] = returned [] (tt, refl)
check_spans-Ensures size (x ∷ xs) = Ensures-bind _ _ (check_span-Ensures size x) λ first e h.
    Ensures-bind _ _ (check_spans-Ensures size xs)
      λ rest e' h'. returned (first ∷ rest) ((h, h'.0), ap suc h'.1)

-- no span begins before the one in front of it
abbrev pub IsOrdered : ℕ → List Span → Type 0
IsOrdered previous [] = Unit
IsOrdered previous (s ∷ spans) = (previous ≤ s.0) × IsOrdered s.0 spans

valid_groups-IsOrdered :
    (text : Text) (i j n p : ℕ) (spans : List Span)
    → valid_groups text i j n p spans ≡ true
    → IsOrdered p spans
unfolding valid_groups
valid_groups-IsOrdered text i j n p [] h = tt
valid_groups-IsOrdered text i j n p ((a, b) ∷ spans) h = elim (Bool-cases (ltb a j)) [
  | inl e ↦ (ground arith, valid_groups-IsOrdered text i (max j b) (n + 1) a spans (ground arith))
  | inr e ↦ (ground arith, valid_groups-IsOrdered text a b 1 a spans (ground arith))
]

-- the offsets of the tokens of a text
pub record IsOffsets (counter : TokenCounter) (text : Text) (offsets : List Span) : Type 0 where
  pub counted : token_count counter text ≡ ok (length offsets)
  pub within : All (IsWithin (length text)) offsets
  pub ordered : IsOrdered 0 offsets

validated-cases :
    (spans : List Span) (text : Text)
    → (validated_source_offset_groups spans text ≡ none)
      ⊎ ((validated_source_offset_groups spans text ≡ some spans) × IsOrdered 0 spans)
unfolding validated_source_offset_groups
validated-cases [] text = inr (refl, tt)
validated-cases ((i, j) ∷ spans) text = elim (Bool-cases (valid_groups text i j 1 i spans)) [
  | inl e ↦ inr (rw e refl, (omega arith, valid_groups-IsOrdered text i j 1 i spans e))
  | inr e ↦ inl (rw e refl)
]

validated-Ensures :
    (counter : TokenCounter) (text : Text) (spans : List Span)
    → token_count counter text ≡ ok (length spans)
    → All (IsWithin (length text)) spans
    → Ensures (IsOffsets counter text) (some_or_raise (validated_source_offset_groups spans text))
unfolding some_or_raise
validated-Ensures counter text spans c w = elim (validated-cases spans text) [
  | inl bad ↦ rw (bad, some_or_raise) (refused value_error tt)
  | inr good ↦
      rw (good.0, some_or_raise)
        (returned spans (record { counted = c; within = w; ordered = good.1 }))
]

-- Offsets that are returned are one for each token of the text, not empty, within the text and in
-- order of their first characters.
pub token_offsets-IsOffsets :
    (counter : TokenCounter) (text : Text)
    → Ensures (IsOffsets counter text) (token_offsets counter text)
unfolding token_offsets token_count some_or_raise
token_offsets-IsOffsets counter text =
    Ensures-bind _ _ (encoded_tokens-Halts counter text) λ tokens e h.
      Ensures-bind _ _ (read_reply-Ensures (counter.offsets text) _) λ r e' h'.
        Ensures-require (nat_beq r.0 (length tokens)) _ _ tt λ same.
          Ensures-bind _ _ (check_spans-Ensures (length text) r.1) λ spans e'' h''.
            let count : length tokens ≡ length spans =
              sym ((nat_beq_iff r.0 (length tokens)).0 same) ∙ h' ∙ sym h''.1 in
            validated-Ensures counter text spans (rw (e, ◌>>=◌) (ap ok count)) h''.0
