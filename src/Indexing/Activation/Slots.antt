-- ===== src/Indexing/Activation/Slots.antt =====
-- The two slots of a source: what infrastructure/database/repository_activation.py promises of the
-- active and the previous generation, and the slots in the tables.
use omf_retrieval.Indexing.Activation.{run_id_of}
use omf_retrieval.Indexing.Tables.{
  IndexDb, IndexRun, IndexRunStatus, active_run, first_match, has_status, previous_run,
}
use omf_retrieval.Prelude.{
  All, Bool, Bool-cases, List, Option, [], ap, false, inl, inr, map, none, none-ne-some, refl, some,
  some_injective, sym, true, true-ne-false, ◌∙◌, ◌∷◌, ◌≡◌,
}
use omf_retrieval.Search.Ports.{Uuid}

-- the active and the previous run of a source
abbrev pub Slots : Type 0
Slots = Option Uuid × Option Uuid

pub data Action : Type 0 where
  publish : Uuid → Action
  restore : Action

-- What an action does to the slots of its source: a published run takes the place of the active one,
-- which becomes the previous one, and the two runs of a source change places when it is restored.
abbrev pub acted : Action → Slots → Option Slots
acted (publish i) (a, p) = some (some i, a)
acted restore (some a, some p) = some (some p, some a)
acted restore _ = none

abbrev pub slot : Uuid → IndexRunStatus → List IndexRun → Option Uuid
slot source_id status runs = run_id_of (first_match (has_status source_id status) runs)

-- the slots that the tables hold
abbrev pub slots : IndexDb → Uuid → Slots
slots db source_id = (slot source_id active_run db.runs, slot source_id previous_run db.runs)

module _ (p : IndexRun → Bool) (f : IndexRun → IndexRun) where
  -- a run that is the only one to pass, and is there
  pub first_only :
      (q : IndexRun → Bool) (i : Uuid) (runs : List IndexRun) {t : IndexRun}
      → first_match q runs ≡ some t
      → p (f t) ≡ true
      → All (λ r. p (f r) ≡ true → (f r).id ≡ i) runs
      → run_id_of (first_match p (map f runs)) ≡ some i
  unfolding first_match
  first_only q i [] e h each = absurd (none-ne-some e)
  first_only q i (r ∷ runs) e h each = elim (Bool-cases (p (f r))) [
    | inl passes ↦ rw (passes, first_match) (ap some (each.0 passes))
    | inr fails ↦ elim (Bool-cases (q r)) [
      | inl found ↦
          let same = some_injective (rw (found, first_match) at e) in
          absurd (true-ne-false (sym h ∙ ap (λ x. p (f x)) (sym same) ∙ fails))
      | inr missed ↦
          rw (fails, first_match) (first_only q i runs (rw (missed, first_match) at e) h each.1)
    ]
  ]

  pub none_passes :
      (runs : List IndexRun)
      → All (λ r. p (f r) ≡ false) runs
      → run_id_of (first_match p (map f runs)) ≡ none
  unfolding first_match
  none_passes [] each = refl
  none_passes (r ∷ runs) each = rw (each.0, first_match) (none_passes runs each.1)

  pub same_first :
      (runs : List IndexRun)
      → All (λ r. (p (f r) ≡ p r) × ((f r).id ≡ r.id)) runs
      → run_id_of (first_match p (map f runs)) ≡ run_id_of (first_match p runs)
  unfolding first_match
  same_first [] each = refl
  same_first (r ∷ runs) each = elim (Bool-cases (p r)) [
    | inl passes ↦ rw (each.0.0, passes, first_match) (ap some each.0.1)
    | inr fails ↦ rw (each.0.0, fails, first_match) (same_first runs each.1)
  ]
