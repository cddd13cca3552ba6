-- ===== src/Indexing/Chunker/Limits.antt =====
-- The limits of a checked configuration, application/indexing/ports.py, and the making of a chunker,
-- infrastructure/source/chunker.py.
use omf_retrieval.Indexing.Chunker.Window.{Limits}
use omf_retrieval.Indexing.Ports.{ChunkConfig, check_chunk_config, int_le}
use omf_retrieval.Prelude.{
  >>=-elim, [], all, arith, not, ok, require, require-eq_ok, suc, true, value_error, zero, ℕ, ◌&&◌,
  ◌<◌, ◌>>◌, ◌∷◌, ◌≡◌, ◌≤◌,
}
use omf_retrieval.Prelude.Values.{is_positive, negsuc, pos, ℤ}

-- the value of an int that is not negative
abbrev pub natural : ℤ → ℕ
natural (pos n) = n
natural (negsuc n) = 0

unfoldable pub limits_of : ChunkConfig → Limits
limits_of c = record {
  target_tokens = natural c.target_tokens;
  soft_max_tokens = natural c.soft_max_tokens;
  overlap_tokens = natural c.overlap_tokens;
  atomic_max_tokens = natural c.atomic_max_tokens;
  parent_context_max_tokens = natural c.parent_context_max_tokens;
}

-- the order of the limits
pub record IsLimits (l : Limits) : Type 0 where
  pub positive : 0 < l.target_tokens
  pub context_positive : 0 < l.parent_context_max_tokens
  pub soft_max : l.target_tokens ≤ l.soft_max_tokens
  pub atomic_max : l.soft_max_tokens ≤ l.atomic_max_tokens
  pub overlap : l.overlap_tokens < l.target_tokens

int_le-natural : (a b : ℤ) → int_le a b ≡ true → natural a ≤ natural b
unfolding int_le
int_le-natural (pos a) (pos b) h = ground arith
int_le-natural (pos a) (negsuc b) h = cc
int_le-natural (negsuc a) (pos b) h = omega arith
int_le-natural (negsuc a) (negsuc b) h = omega arith

is_positive-natural : (a : ℤ) → is_positive a ≡ true → 0 < natural a
is_positive-natural (pos zero) h = cc
is_positive-natural (pos (suc n)) h = omega arith
is_positive-natural (negsuc n) h = cc

-- an overlap that is not negative and not at the target
overlap-natural :
    (o t : ℤ)
    → (int_le (pos 0) o && not (int_le t o)) ≡ true
    → is_positive t ≡ true
    → natural o < natural t
unfolding int_le
overlap-natural (pos o) (pos t) h p = ground arith
overlap-natural (pos o) (negsuc t) h p = cc
overlap-natural (negsuc o) t h p = cc

-- the limits of a configuration that passes its checks are in order
pub limits_of-IsLimits :
    (c : ChunkConfig) {u : Unit {0}} → check_chunk_config c ≡ ok u → IsLimits (limits_of c)
unfolding check_chunk_config limits_of all
limits_of-IsLimits c h =
    let sizes = all is_positive (
      c.target_tokens ∷ c.soft_max_tokens ∷ c.atomic_max_tokens ∷ c.parent_context_max_tokens
      ∷ []) in
    let order =
      int_le c.target_tokens c.soft_max_tokens && int_le c.soft_max_tokens c.atomic_max_tokens in
    let overlap =
      int_le (pos 0) c.overlap_tokens && not (int_le c.target_tokens c.overlap_tokens) in
    >>=-elim (require sizes value_error)
      (λ _. require order value_error >> require overlap value_error) h
      λ u first h'.
        >>=-elim (require order value_error) (λ _. require overlap value_error) h'
          λ u' second third.
            let s : sizes ≡ true = require-eq_ok sizes value_error first in
            let o : order ≡ true = require-eq_ok order value_error second in
            let v : overlap ≡ true = require-eq_ok overlap value_error third in
            record {
              positive = is_positive-natural c.target_tokens (ground arith);
              context_positive = is_positive-natural c.parent_context_max_tokens (ground arith);
              soft_max = int_le-natural c.target_tokens c.soft_max_tokens (ground arith);
              atomic_max = int_le-natural c.soft_max_tokens c.atomic_max_tokens (ground arith);
              overlap = overlap-natural c.overlap_tokens c.target_tokens v (ground arith);
            }
