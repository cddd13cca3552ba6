-- ===== src/Examples/Overflow.antt =====
-- A fusion over numbers of which no int above 60 is a float.
use mathlib.Core.List.{mem-cons_self}
use omf_retrieval.Examples.{passage}
use omf_retrieval.Prelude.{
  List, [], arith, inl, leb, overflow_error, raise, refl, true, ℕ, ◌∷◌, ◌≡◌, ◌≤◌,
}
use omf_retrieval.Prelude.Floats.{Floats, micros}
use omf_retrieval.Search.Ports.{Candidate}
use omf_retrieval.Search.Rrf.{is_policy, reciprocal_rank_fusion}
use omf_retrieval.Search.Rrf.Overflow.{rrf_overflow}
use omf_retrieval.Search.Rrf.Spec.{last_rank}

small_fits : (m n : ℕ) → m ≤ n → leb n 60 ≡ true → leb m 60 ≡ true
small_fits m n h e = ground arith

instance abbrev small : Floats
small = record micros { fits = λ n. leb n 60; fits_mono = small_fits }

abbrev one_passage : List Candidate
one_passage = passage 1 10 ∷ []

overflow_run : reciprocal_rank_fusion 60 1000000 1000000 one_passage [] ≡ raise overflow_error
unfolding reciprocal_rank_fusion
overflow_run = refl

rrf_overflow_example :
    reciprocal_rank_fusion 60 1000000 1000000 one_passage [] ≡ raise overflow_error
unfolding is_policy last_rank
rrf_overflow_example =
    rrf_overflow 60 1000000 1000000 one_passage [] refl (tt, tt) (passage 1 10) mem-cons_self 1
      (inl refl) refl
