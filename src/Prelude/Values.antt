-- ===== src/Prelude/Values.antt =====
-- The values of a dynamic language that a JSON object holds, as far as the sources tell them apart,
-- with the exact tests of type.
use Prim.Native.Nat.{suc, zero, ℕ}
use mathlib.Core.Bool.{Bool, false, true, ◌&&◌}
use mathlib.Core.List.{List}
use mathlib.Core.Option.{Option, some}
use omf_retrieval.Prelude.Dict.{Dict, get}
use omf_retrieval.Prelude.Equality.{contains, list_eq, nat_eq}
use omf_retrieval.Prelude.Exceptions.{Result, ok, raise, type_error}
use omf_retrieval.Prelude.Floats.{Float, Floats}
use omf_retrieval.Prelude.Lists.{all}
use omf_retrieval.Prelude.Text.{Text}

-- an unbounded `int`: `negsuc n` is -(n + 1)
pub data ℤ : Type 0 where
  pos : ℕ → ℤ
  negsuc : ℕ → ℤ

-- `0 < i`
abbrev pub is_positive : ℤ → Bool
is_positive (pos zero) = false
is_positive (pos (suc n)) = true
is_positive (negsuc n) = false

module _ ⦃fl : Floats⦄ where
  pub data Value : Type 0 where
    null : Value
    boolean : Bool → Value
    int : ℤ → Value
    float : Float → Value
    str : Text → Value

  abbrev pub Object : Type 0
  Object = Dict Text Value

  -- `type(v) is str and test(v)`, and so for the other types
  abbrev pub str_test : (Text → Bool) → Option Value → Bool
  str_test p (some (str s)) = p s
  str_test p _ = false

  abbrev pub int_test : (ℤ → Bool) → Option Value → Bool
  int_test p (some (int i)) = p i
  int_test p _ = false

  abbrev pub float_test : (Float → Bool) → Option Value → Bool
  float_test p (some (float x)) = p x
  float_test p _ = false

  abbrev pub bool_test : Option Value → Bool
  bool_test (some (boolean _)) = true
  bool_test _ = false

  -- the arguments of a call `C(**value)`; a missing key or another type is a `TypeError`
  abbrev pub str_at : Text → Object → Result Text
  str_at k v = elim (get k v) [ some (str s) ↦ ok s | _ ↦ raise type_error ]

  abbrev pub nat_at : Text → Object → Result ℕ
  nat_at k v = elim (get k v) [ some (int (pos n)) ↦ ok n | _ ↦ raise type_error ]

  abbrev pub float_at : Text → Object → Result Float
  float_at k v = elim (get k v) [ some (float x) ↦ ok x | _ ↦ raise type_error ]

  abbrev pub bool_at : Text → Object → Result Bool
  bool_at k v = elim (get k v) [ some (boolean b) ↦ ok b | _ ↦ raise type_error ]

-- `set(value) == names`
unfoldable pub same_keys : List Text → List Text → Bool
unfolding all contains
same_keys ks names = all (contains names) ks && all (contains ks) names
