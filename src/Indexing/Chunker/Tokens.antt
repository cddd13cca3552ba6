-- ===== src/Indexing/Chunker/Tokens.antt =====
-- The calls of the tokenizer, infrastructure/source/chunker.py: whatever it answers is taken apart
-- and checked before it is used.
pub mod Laws
use Prim.Native.Nat.{max}
use omf_retrieval.Prelude.{
  Bool, List, Option, Result, [], all, false, if◌then◌else◌, is_some, leb, length, ltb, nat_beq,
  none, not, ok, raise, require, some, suc, true, value_error, zero, ℕ, ◌&&◌, ◌++◌, ◌+◌, ◌>>=◌,
  ◌>>◌, ◌||◌, ◌∷◌,
}
use omf_retrieval.Prelude.Slices.{slice}
use omf_retrieval.Prelude.Text.{Text, is_empty}
use omf_retrieval.Prelude.Values.{pos, ℤ}

-- What a call of the tokenizer gives: it raises, or its value is no sequence (or a text), or it is a
-- sequence with the length that `len` tells, `none` where that raises, and the items that iteration
-- yields, `none` where that raises.
pub data Reply (A : Type 0) : Type 0 where
  call_raised : Reply A
  no_sequence : Reply A
  sequence_of : Option ℕ → List (Option A) → Reply A

-- An identifier is an int, or `none`. An offset is a pair of ints, or `none`.
pub record TokenCounter : Type 0 where
  pub encode : Text → Reply (Option ℤ)
  pub offsets : Text → Reply (Option (ℤ × ℤ))

-- `_TOKEN_COUNTER_FAILED`, `None`, or the declared length with the items
pub data Materialized (A : Type 0) : Type 0 where
  read_failed : Materialized A
  malformed : Materialized A
  materialized : ℕ → List A → Materialized A

module _ {A : Type 0} where
  -- the loop over `declared` calls of `next`, and the one that must find the end
  unfoldable pub read_items : ℕ → ℕ → List A → List (Option A) → Materialized A
  read_items declared zero items [] = materialized declared items
  read_items declared zero items (none ∷ more) = read_failed
  read_items declared zero items (some a ∷ more) = malformed
  read_items declared (suc n) items [] = malformed
  read_items declared (suc n) items (none ∷ more) = read_failed
  read_items declared (suc n) items (some a ∷ more) = read_items declared n (items ++ a ∷ []) more

  unfoldable pub materialize_sequence : Reply A → ℕ → Materialized A
  unfolding read_items
  materialize_sequence call_raised max_items = read_failed
  materialize_sequence no_sequence max_items = malformed
  materialize_sequence (sequence_of none yields) max_items = read_failed
  materialize_sequence (sequence_of (some declared) yields) max_items =
      if ltb max_items declared then malformed else read_items declared declared [] yields

  -- each failure is a `ValueError`
  unfoldable pub read_reply : Reply A → ℕ → Result (ℕ × List A)
  unfolding materialize_sequence
  read_reply reply max_items = elim (materialize_sequence reply max_items) [
    | read_failed ↦ raise value_error
    | malformed ↦ raise value_error
    | materialized declared items ↦ ok (declared, items)
  ]

unfoldable pub utf8_width : ℕ → ℕ
utf8_width c = if leb c 0x7f then 1 else if leb c 0x7ff then 2 else if leb c 0xffff then 3 else 4

unfoldable pub maximum_source_tokens : Text → ℕ
unfolding utf8_width
maximum_source_tokens [] = 0
maximum_source_tokens (c ∷ s) = utf8_width c + maximum_source_tokens s

unfoldable pub encoded_tokens : TokenCounter → Text → Result (List (Option ℤ))
unfolding read_reply maximum_source_tokens all
encoded_tokens counter text = do
  r ← read_reply (counter.encode text) (maximum_source_tokens text)
  require (all is_some r.1 && (is_empty text || not (nat_beq r.0 0))) value_error
  ok r.1

unfoldable pub token_count : TokenCounter → Text → Result ℕ
unfolding encoded_tokens
token_count counter text = do tokens ← encoded_tokens counter text; ok (length tokens)

-- a half-open range of characters
abbrev pub Span : Type 0
Span = ℕ × ℕ

unfoldable pub check_span : ℕ → Option (ℤ × ℤ) → Result Span
check_span size (some (pos i, pos j)) = do require (ltb i j && leb j size) value_error; ok (i, j)
check_span size _ = raise value_error

unfoldable pub check_spans : ℕ → List (Option (ℤ × ℤ)) → Result (List Span)
unfolding check_span
check_spans size [] = ok []
check_spans size (x ∷ xs) = do
  first ← check_span size x
  rest ← check_spans size xs
  ok (first ∷ rest)

-- a group has no more tokens than its text has bytes
unfoldable pub is_light : Text → ℕ → ℕ → ℕ → Bool
unfolding maximum_source_tokens slice
is_light text group_start group_end group_tokens =
    leb group_tokens (maximum_source_tokens (slice text group_start group_end))

-- the loop over the offsets after the first
unfoldable pub valid_groups : Text → ℕ → ℕ → ℕ → ℕ → List Span → Bool
unfolding is_light
valid_groups text group_start group_end group_tokens previous_start [] =
    is_light text group_start group_end group_tokens
valid_groups text group_start group_end group_tokens previous_start ((i, j) ∷ spans) =
    not (ltb i previous_start) && elim (ltb i group_end) [
      | true ↦ valid_groups text group_start (max group_end j) (group_tokens + 1) i spans
      | false ↦ is_light text group_start group_end group_tokens && valid_groups text i j 1 i spans
    ]

unfoldable pub validated_source_offset_groups : List Span → Text → Option (List Span)
unfolding valid_groups
validated_source_offset_groups [] text = some []
validated_source_offset_groups ((i, j) ∷ spans) text =
    if valid_groups text i j 1 i spans then some ((i, j) ∷ spans) else none

unfoldable pub some_or_raise : Option (List Span) → Result (List Span)
some_or_raise none = raise value_error
some_or_raise (some offsets) = ok offsets

unfoldable pub token_offsets : TokenCounter → Text → Result (List Span)
unfolding encoded_tokens read_reply check_spans validated_source_offset_groups some_or_raise
token_offsets counter text = do
  tokens ← encoded_tokens counter text
  r ← read_reply (counter.offsets text) (maximum_source_tokens text)
  require (nat_beq r.0 (length tokens)) value_error
  spans ← check_spans (length text) r.1
  some_or_raise (validated_source_offset_groups spans text)
