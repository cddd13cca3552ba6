-- ===== src/Indexing/Activation/Laws.antt =====
-- The runs that the queries of infrastructure/database/repository_activation.py find.
use mathlib.Core.Path.{subst}
use omf_retrieval.Indexing.Activation.{run_id_of, sole_of, unique_status_run}
use omf_retrieval.Indexing.Activation.Pointers.{Touches, names, run_ids}
use omf_retrieval.Indexing.Tables.{IndexDb, IndexRun, IndexRunStatus, first_match, has_status}
use omf_retrieval.Prelude.{
  &&-split, All, All-imp, All-keep, Bool, Bool-cases, List, Option, [], ap, false, inl, inr, keep,
  keep-All, keep-eq_nil, nat_beq, nat_beq_iff, nat_eq, none, none-ne-some, ok, ok-injective,
  raise-ne-ok, refl, some, some_injective, sym, true, true-ne-false, ◌==◌, ◌∙◌, ◌∷◌, ◌≡◌, ◌≢◌,
}
use omf_retrieval.Prelude.Dict.{IsDistinct}
use omf_retrieval.Search.Ports.{Uuid}

module _ {A : Type 0} where
  cons-ne-nil : {y : A} {ys : List A} → y ∷ ys ≡ [] → ⊥
  cons-ne-nil q = cc

  -- what holds of every element holds of the one that is kept
  keep-sole :
      (Q : A → Type 0) (p : A → Bool) (xs : List A) {a : A} → keep p xs ≡ a ∷ [] → All Q xs → Q a
  keep-sole Q p xs h all_of = (subst (All Q) h (All-keep Q p xs all_of)).0

  pub keep-passes : (p : A → Bool) (xs : List A) {a : A} → keep p xs ≡ a ∷ [] → p a ≡ true
  keep-passes p xs h = (subst (All (λ x. p x ≡ true)) h (keep-All p xs)).0

  -- the only element that is kept
  pub keep_only :
      (p : A → Bool) (xs : List A) {a : A} → keep p xs ≡ a ∷ [] → All (λ x. p x ≡ true → x ≡ a) xs
  unfolding keep
  keep_only p [] h = tt
  keep_only p (x ∷ xs) {a} h = elim (Bool-cases (p x)) [
    | inl e ↦
        let whole : x ∷ keep p xs ≡ a ∷ [] = rw (e, keep) at h in
        let first : x ≡ a = cc in
        let rest : keep p xs ≡ [] = cc in
        (
          λ q. first,
          All-imp (λ y. p y ≡ false) (λ y. p y ≡ true → y ≡ a)
              (λ y n q. absurd (true-ne-false (sym q ∙ n))) xs (keep-eq_nil p xs rest),
        )
    | inr e ↦ (λ q. absurd (true-ne-false (sym q ∙ e)), keep_only p xs (rw (e, keep) at h))
  ]

other_ids :
    (i : Uuid) (runs : List IndexRun) → All (λ j. i ≢ j) (run_ids runs) → All (λ r. i ≢ r.id) runs
other_ids i [] a = tt
other_ids i (r ∷ runs) a = (a.0, other_ids i runs a.1)

no_other :
    (a : IndexRun) (runs : List IndexRun)
    → All (λ r. a.id ≢ r.id) runs
    → All (λ r. r.id ≡ a.id → r ≡ a) runs
no_other a runs =
    All-imp (λ r. a.id ≢ r.id) (λ r. r.id ≡ a.id → r ≡ a) (λ r n e. absurd (n (sym e))) runs

-- with identifiers apart, a run that is found by its identifier is the only one that has it
pub found_only :
    (i : Uuid) (runs : List IndexRun) {t : IndexRun}
    → IsDistinct (run_ids runs)
    → first_match (λ r. r.id == i) runs ≡ some t
    → All (λ r. r.id ≡ t.id → r ≡ t) runs × (t.id ≡ i)
unfolding first_match
found_only i [] d h = absurd (none-ne-some h)
found_only i (x ∷ runs) {t} d h = elim (Bool-cases (x.id == i)) [
  | inl e ↦
      let same : x ≡ t = some_injective (rw (e, first_match) at h) in
      subst (λ (z : IndexRun). All (λ r. r.id ≡ z.id → r ≡ z) (x ∷ runs) × (z.id ≡ i)) same
        ((λ q. refl, no_other x runs (other_ids x.id runs d.0)), (nat_beq_iff x.id i).0 e)
  | inr e ↦
      let (rest, at_i) = found_only i runs d.1 (rw (e, first_match) at h) in
      ((λ q. absurd (true-ne-false (sym ((nat_beq_iff x.id i).1 (q ∙ at_i)) ∙ e)), rest), at_i)
]

-- and so is the one that a filter keeps
kept_only :
    (p : IndexRun → Bool) (runs : List IndexRun) {a : IndexRun}
    → IsDistinct (run_ids runs)
    → keep p runs ≡ a ∷ []
    → All (λ r. r.id ≡ a.id → r ≡ a) runs
unfolding keep
kept_only p [] d h = tt
kept_only p (x ∷ runs) {a} d h = elim (Bool-cases (p x)) [
  | inl e ↦
      let whole : x ∷ keep p runs ≡ a ∷ [] = rw (e, keep) at h in
      let first : x ≡ a = cc in
      (
        λ q. first,
        no_other a runs
            (subst (λ (z : IndexRun). All (λ r. z.id ≢ r.id) runs) first (other_ids x.id runs d.0)),
      )
  | inr e ↦
      let kept : keep p runs ≡ a ∷ [] = rw (e, keep) at h in
      let apart : x.id ≢ a.id =
        keep-sole (λ r. x.id ≢ r.id) p runs kept (other_ids x.id runs d.0) in
      (λ q. absurd (apart q), kept_only p runs d.1 kept)
]

-- what `unique_status_run` tells of all runs
pub record IsUnique (db : IndexDb) (source_id : Uuid) (status : IndexRunStatus)
    (found : Option IndexRun) : Type 0 where
  pub touches : All (Touches source_id found) db.runs
  pub only :
      All (λ r. has_status source_id status r ≡ true → names (run_id_of found) r.id ≡ true) db.runs

sole_of-IsUnique :
    (db : IndexDb) (source_id : Uuid) (status : IndexRunStatus) (l : List IndexRun)
    {found : Option IndexRun}
    → IsDistinct (run_ids db.runs)
    → keep (has_status source_id status) db.runs ≡ l
    → sole_of l ≡ ok found
    → IsUnique db source_id status found
unfolding sole_of has_status names
sole_of-IsUnique db source_id status [] {found} d e q =
    let p = has_status source_id status in
    subst (IsUnique db source_id status) (ok-injective q) (record {
      touches =
          All-imp (λ r. p r ≡ false) (λ r. Unit) (λ r n. tt) db.runs (keep-eq_nil p db.runs e);
      only =
          All-imp (λ r. p r ≡ false) (λ r. p r ≡ true → names none r.id ≡ true)
            (λ r n y. absurd (true-ne-false (sym y ∙ n))) db.runs (keep-eq_nil p db.runs e);
    })
sole_of-IsUnique db source_id status (a ∷ []) {found} d e q =
    let p = has_status source_id status in
    let own : a.source_profile_id ≡ source_id =
      (nat_beq_iff a.source_profile_id source_id).0 (&&-split _ _ (keep-passes p db.runs e)).0 in
    subst (IsUnique db source_id status) (ok-injective q) (record {
      touches =
          All-imp (λ r. r.id ≡ a.id → r ≡ a) (λ r. r.id ≡ a.id → r.source_profile_id ≡ source_id)
            (λ r same i. ap (λ (z : IndexRun). z.source_profile_id) (same i) ∙ own) db.runs
            (kept_only p db.runs d e);
      only =
          All-imp (λ r. p r ≡ true → r ≡ a) (λ r. p r ≡ true → nat_beq a.id r.id ≡ true)
            (λ r same y. (nat_beq_iff a.id r.id).1 (ap (λ (z : IndexRun). z.id) (sym (same y))))
            db.runs (keep_only p db.runs e);
    })
sole_of-IsUnique db source_id status (a ∷ b ∷ l) d e q = absurd (raise-ne-ok q)

pub unique_status_run-IsUnique :
    (db : IndexDb) (source_id : Uuid) (status : IndexRunStatus) {found : Option IndexRun}
    → IsDistinct (run_ids db.runs)
    → unique_status_run db source_id status ≡ ok found
    → IsUnique db source_id status found
unfolding unique_status_run
unique_status_run-IsUnique db source_id status d h =
    sole_of-IsUnique db source_id status (keep (has_status source_id status) db.runs) d refl h
