-- ===== src/Prelude/Exceptions.antt =====
-- Python's exceptions as values: the classes that the sources raise or catch, and the result of a
-- call that may raise.
use mathlib.Core.Bool.{Bool, false, true}
use mathlib.Core.Logic.{inl, inr, ◌⊎◌}
use mathlib.Core.Path.{refl, ◌≡◌}

pub data Exception : Type 0 where
  value_error type_error index_error runtime_error os_error key_error recursion_error : Exception
  unicode_decode_error overflow_error integrity_error : Exception
  keyboard_interrupt system_exit : Exception
  search_unavailable no_active_index source_access authentication : Exception
  client_admin client_persistence key_id_collision token_issuance : Exception
  activation_failed rollback_readiness post_commit_audit indexing_in_progress : Exception
  policy_validation config_validation snapshot_validation structure_validation : Exception
  metadata_extraction invariant_violation : Exception
  -- no exception of Python: a loop of a model has used up its fuel
  out_of_fuel : Exception

-- `except (KeyboardInterrupt, SystemExit)`: what is no `Exception` and passes `except Exception`
unfoldable pub is_exit : Exception → Bool
is_exit keyboard_interrupt = true
is_exit system_exit = true
is_exit _ = false

pub data Result {ℓ} (A : Type ℓ) : Type ℓ where
  ok : A → Result A
  raise : Exception → Result A

infixl 5 ◌>>=◌ ◌>>◌
-- an exception passes what follows
abbrev pub ◌>>=◌ {ℓ κ} : {V : Type ℓ} {W : Type κ} → Result V → (V → Result W) → Result W
raise x >>= after = raise x
ok value >>= after = after value

-- a call for its exceptions only
abbrev pub ◌>>◌ {κ} : {W : Type κ} → Result (Unit {0}) → Result W → Result W
check >> after = check >>= λ done. after

-- `if not b: raise e`
abbrev pub require : Bool → Exception → Result (Unit {0})
require true e = ok tt
require false e = raise e

module _ {ℓ} {A : Type ℓ} where
  -- `try: m except (KeyboardInterrupt, SystemExit): raise except Exception: raise e from None`
  unfoldable pub shielded : Exception → Result A → Result A
  unfolding is_exit
  shielded e (ok a) = ok a
  shielded e (raise x) = elim (is_exit x) [ true ↦ raise x | false ↦ raise e ]

  pub Result-cases : (r : Result A) → ((a : A) × (r ≡ ok a)) ⊎ ((e : Exception) × (r ≡ raise e))
  Result-cases (ok a) = inl (a, refl)
  Result-cases (raise e) = inr (e, refl)

  pub ok-injective : {a b : A} → ok a ≡ ok b → a ≡ b
  ok-injective h = cc

  pub raise-ne-ok : {a : A} {e : Exception} → raise e ≡ ok a → ⊥
  raise-ne-ok h = cc

  pub shielded-eq_ok : (e : Exception) (r : Result A) {a : A} → shielded e r ≡ ok a → r ≡ ok a
  unfolding shielded
  shielded-eq_ok e (ok b) h = h
  shielded-eq_ok e (raise keyboard_interrupt) h = h
  shielded-eq_ok e (raise x) h = cc

module _ {ℓ κ} {A : Type ℓ} {B : Type κ} where
  -- inversion of a successful bind
  pub >>=-eq_ok :
      (call : Result A) (after : A → Result B) {out : B}
      → (call >>= after) ≡ ok out
      → (value : A) × (call ≡ ok value) × (after value ≡ ok out)
  >>=-eq_ok (ok a) f h = (a, refl, h)
  >>=-eq_ok (raise e) f h = cc

pub require-eq_ok : (b : Bool) (e : Exception) {u : Unit {0}} → require b e ≡ ok u → b ≡ true
require-eq_ok true e h = refl
require-eq_ok false e h = cc

-- the same inversion, for a goal that a continuation proves
module _ {ℓ κ μ} {A : Type ℓ} {B : Type κ} {G : Type μ} where
  pub >>=-elim :
      (call : Result A) (after : A → Result B) {out : B}
      → (call >>= after) ≡ ok out
      → ((value : A) → call ≡ ok value → after value ≡ ok out → G)
      → G
  >>=-elim (ok value) after h continue = continue value refl h
  >>=-elim (raise e) after h continue = absurd (raise-ne-ok h)

module _ {ℓ κ} {A : Type ℓ} {B : Type κ} where
  -- a call that returns, and what follows it
  pub bind_eq :
      (r : Result A) (after : A → Result B) (a : A) {out : Result B}
      → r ≡ ok a
      → after a ≡ out
      → (r >>= after) ≡ out
  bind_eq (ok b) after a h k = rw (ok-injective h) k
  bind_eq (raise e) after a h k = absurd (raise-ne-ok h)

module _ {ℓ} {A : Type ℓ} where
  -- a test that passes
  pub require_eq :
      (b : Bool) (e : Exception) {r out : Result A} → b ≡ true → r ≡ out → (require b e >> r) ≡ out
  require_eq b e h k = rw h k
