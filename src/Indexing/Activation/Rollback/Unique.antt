-- ===== src/Indexing/Activation/Rollback/Unique.antt =====
-- The queries of infrastructure/database/repository_activation.py for the run with a status find the
-- first one, and, by the constraints of the table, one that is there.
use mathlib.Core.Path.{subst}
use omf_retrieval.Indexing.Activation.{sole_of, unique_status_run}
use omf_retrieval.Indexing.Activation.Laws.{keep_only}
use omf_retrieval.Indexing.Activation.Rollback.Effect.{first_match-All}
use omf_retrieval.Indexing.Activation.Rollback.History.{status_source}
use omf_retrieval.Indexing.Tables.{
  IndexDb, IndexRun, IndexRunStatus, active_run, first_match, has_status, is_lifecycle, is_sole,
  previous_run, satisfies,
}
use omf_retrieval.Prelude.{
  &&-split, All, Bool, Bool-cases, List, Option, [], all, ap, arith, false, inl, inr, is_some, keep,
  keep-eq_nil, leb→le, length, not, ok, ok-injective, raise-ne-ok, refl, some, sym, true,
  true-ne-false, ◌&&◌, ◌||◌, ◌∙◌, ◌∷◌, ◌≡◌, ◌≤◌,
}
use omf_retrieval.Search.Ports.{Uuid}

sole_head :
    (r : IndexRun) (l : List IndexRun) {o : Option IndexRun} → sole_of (r ∷ l) ≡ ok o → some r ≡ o
unfolding sole_of
sole_head r [] h = ok-injective h
sole_head r (a ∷ l) h = absurd (raise-ne-ok h)

keep-first :
    (p : IndexRun → Bool) (runs l : List IndexRun) {o : Option IndexRun}
    → keep p runs ≡ l
    → sole_of l ≡ ok o
    → first_match p runs ≡ o
unfolding first_match keep sole_of
keep-first p [] [] e h = ok-injective h
keep-first p [] (a ∷ l) e h = cc
keep-first p (r ∷ runs) l {o} e h = elim (Bool-cases (p r)) [
  | inl passes ↦
      let kept : r ∷ keep p runs ≡ l = rw (passes, keep) at e in
      rw (passes, first_match)
        (sole_head r (keep p runs) (subst (λ m. sole_of m ≡ ok o) (sym kept) h))
  | inr fails ↦ rw (fails, first_match) (keep-first p runs l (rw (fails, keep) at e) h)
]

pub unique-first :
    (db : IndexDb) (source_id : Uuid) (status : IndexRunStatus) {o : Option IndexRun}
    → unique_status_run db source_id status ≡ ok o
    → first_match (has_status source_id status) db.runs ≡ o
unfolding unique_status_run
unique-first db source_id status h =
    keep-first (has_status source_id status) db.runs (keep (has_status source_id status) db.runs)
      refl h

-- a run that passes a test that one run passes at most
sole_run :
    (p q : IndexRun → Bool) (runs l : List IndexRun) {r : IndexRun}
    → keep p runs ≡ l
    → length l ≤ 1
    → first_match q runs ≡ some r
    → p r ≡ true
    → sole_of l ≡ ok (some r)
unfolding sole_of
sole_run p q runs [] {r} e k found h =
    let off = first_match-All (λ x. p x ≡ false) q runs found (keep-eq_nil p runs e) in
    absurd (true-ne-false (sym h ∙ off))
sole_run p q runs (a ∷ []) {r} e k found h =
    let same = first_match-All (λ x. p x ≡ true → x ≡ a) q runs found (keep_only p runs e) h in
    ap (λ x. ok (some x)) (sym same)
sole_run p q runs (a ∷ b ∷ l) e k found h = absurd (omega arith)

AreSole : List IndexRun → IndexRun → Type 0
AreSole runs r = (is_sole runs active_run r ≡ true) × (is_sole runs previous_run r ≡ true)

all_sole :
    (runs l : List IndexRun)
    → all
        (λ r.
          (not (is_lifecycle r.status) || is_some r.activated_at)
          && is_sole runs active_run r
          && is_sole runs previous_run r)
        l
      ≡ true
    → All (AreSole runs) l
unfolding AreSole all
all_sole runs [] h = tt
all_sole runs (r ∷ l) h =
    let (first, more) = &&-split _ _ h in
    let (ab, c) = &&-split _ (is_sole runs previous_run r) first in
    let (_, b) = &&-split _ (is_sole runs active_run r) ab in ((b, c), all_sole runs l more)

module _ (db : IndexDb) (q : IndexRun → Bool) (source_id : Uuid) {r : IndexRun} where
  sole_found :
      (status : IndexRunStatus)
      → is_sole db.runs status r ≡ true
      → first_match q db.runs ≡ some r
      → has_status source_id status r ≡ true
      → unique_status_run db source_id status ≡ ok (some r)
  unfolding is_sole unique_status_run
  sole_found status one found h =
      let own = status_source source_id status r h in
      sole_run (has_status source_id status) q db.runs _ refl (leb→le _ 1 (rw own at one)) found h

  pub active_found :
      satisfies db.runs ≡ true
      → first_match q db.runs ≡ some r
      → has_status source_id active_run r ≡ true
      → unique_status_run db source_id active_run ≡ ok (some r)
  unfolding satisfies AreSole
  active_found ok_runs found h =
      let both =
        first_match-All (AreSole db.runs) q db.runs found (all_sole db.runs db.runs ok_runs) in
      sole_found active_run both.0 found h

  pub previous_found :
      satisfies db.runs ≡ true
      → first_match q db.runs ≡ some r
      → has_status source_id previous_run r ≡ true
      → unique_status_run db source_id previous_run ≡ ok (some r)
  unfolding satisfies AreSole
  previous_found ok_runs found h =
      let both =
        first_match-All (AreSole db.runs) q db.runs found (all_sole db.runs db.runs ok_runs) in
      sole_found previous_run both.1 found h
