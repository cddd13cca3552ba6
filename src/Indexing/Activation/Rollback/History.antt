-- ===== src/Indexing/Activation/Rollback/History.antt =====
-- The index tables over time: any sequence of activations and rollbacks.
use mathlib.Core.Path.{subst}
use omf_retrieval.Indexing.Activation.{activate, locked_run}
use omf_retrieval.Indexing.Activation.Invariant.{activate-IsIndexDb}
use omf_retrieval.Indexing.Activation.Laws.{found_only}
use omf_retrieval.Indexing.Activation.Pointers.{
  Agrees, AgreesAll, AgreesAll-replaced, IsIndexDb, names, replaced, run_ids, run_ids-replaced,
}
use omf_retrieval.Indexing.Activation.Rollback.{RollbackCandidate, rollback}
use omf_retrieval.Indexing.Activation.Rollback.Effect.{first_match-All, rollback-IsRollback}
use omf_retrieval.Indexing.Tables.{
  IndexDb, IndexRun, IndexRunStatus, SourceProfile, TransitionResult, active_run, has_status,
  pointed, previous_run,
}
use omf_retrieval.Prelude.{
  &&-split, All, All-imp, Bool, List, ap, list_eq, map, nat_beq_iff, nat_eq, ok, some, sym, true, ℕ,
  ◌==◌, ◌∙◌, ◌≡◌,
}
use omf_retrieval.Prelude.Dict.{IsDistinct}
use omf_retrieval.Prelude.Text.{Text}
use omf_retrieval.Search.Ports.{Uuid}

locked_alone :
    (db : IndexDb) (run_id source_id : Uuid) {t : IndexRun}
    → IsDistinct (run_ids db.runs)
    → locked_run db run_id ≡ some t
    → t.source_profile_id ≡ source_id
    → All (λ r. r.id ≡ t.id → r.source_profile_id ≡ source_id) db.runs
unfolding locked_run
locked_alone db run_id source_id {t} d h own =
    All-imp (λ r. r.id ≡ t.id → r ≡ t) (λ r. r.id ≡ t.id → r.source_profile_id ≡ source_id)
      (λ r same e. ap (λ (z : IndexRun). z.source_profile_id) (same e) ∙ own) db.runs
      (found_only run_id db.runs d h).0

pub status_source :
    (i : Uuid) (status : IndexRunStatus) (r : IndexRun)
    → has_status i status r ≡ true
    → r.source_profile_id ≡ i
unfolding has_status
status_source i status r h = (nat_beq_iff r.source_profile_id i).0 (&&-split _ _ h).0

-- by its pointer, a source has no active run but the one that it names
pointer_only :
    (s : SourceProfile) (a : IndexRun) (runs : List IndexRun)
    → s.active_index_run_id ≡ some a.id
    → AgreesAll runs s
    → All (λ r. has_status s.id active_run r ≡ true → names (some a.id) r.id ≡ true) runs
unfolding has_status
pointer_only s a runs pointer agrees =
    All-imp (Agrees s) (λ r. has_status s.id active_run r ≡ true → names (some a.id) r.id ≡ true)
      (λ r h y.
        let (own, is_active) = &&-split _ _ y in
        ap (λ p. names p r.id) (sym pointer)
        ∙ sym (h ((nat_beq_iff r.source_profile_id s.id).0 own))
        ∙ is_active)
      runs agrees

pub rollback-IsIndexDb :
    (prepared : Bool) (db : IndexDb) (candidate : RollbackCandidate) (at : ℕ) {db' : IndexDb}
    {result : TransitionResult}
    → IsIndexDb db
    → rollback prepared db candidate at ≡ ok (db', result)
    → IsIndexDb db'
rollback-IsIndexDb prepared db candidate at {db'} inv h =
    let r = rollback-IsRollback prepared db candidate at h in
    let i = r.target.id in
    let old = some r.target in
    let new = some r.active in
    let target_own =
      locked_alone db candidate.target_run_id r.source.id inv.ids_apart r.target_is
        (status_source r.source.id previous_run r.target r.was_previous) in
    let active_own =
      locked_alone db candidate.active_run_id r.source.id inv.ids_apart r.active_is
        (status_source r.source.id active_run r.active r.was_active) in
    let agrees : AgreesAll db.runs r.source =
      first_match-All (AgreesAll db.runs) (λ s. s.source_key == candidate.source_key) db.profiles
        r.source_is inv.pointers in
    let pointers : All (AgreesAll (map (replaced old new i at) db.runs))
        (map (pointed r.source.id i) db.profiles) =
      AgreesAll-replaced db.runs db.profiles r.source.id i at new old inv.pointers target_own
        active_own target_own (pointer_only r.source r.active db.runs r.pointer agrees) in
    record {
      ids_apart =
          subst IsDistinct (sym (ap run_ids r.runs ∙ run_ids-replaced old new i at db.runs))
            inv.ids_apart;
      pointers =
          subst (λ l. All (AgreesAll l) db'.profiles) (sym r.runs)
            (subst (All (AgreesAll (map (replaced old new i at) db.runs))) (sym r.profiles)
              pointers);
      constraints = r.constraints;
    }

-- a committed transition of a source
pub data Transition (db : IndexDb) : IndexDb → Type 0 where
  activation_done :
      (observed : IndexDb) (acquired : Bool) (source_key : Text) (run_id at : ℕ) (db' : IndexDb)
      (result : TransitionResult)
      → activate observed acquired db source_key run_id at ≡ ok (db', result)
      → Transition db db'
  rollback_done :
      (prepared : Bool) (candidate : RollbackCandidate) (at : ℕ) (db' : IndexDb)
      (result : TransitionResult)
      → rollback prepared db candidate at ≡ ok (db', result)
      → Transition db db'

pub data Transitions (db : IndexDb) : IndexDb → Type 0 where
  unchanged : Transitions db db
  later :
      (middle last : IndexDb) → Transitions db middle → Transition middle last → Transitions db last

Transition-IsIndexDb : (db db' : IndexDb) → Transition db db' → IsIndexDb db → IsIndexDb db'
Transition-IsIndexDb db last (activation_done observed acquired key run_id at db' result h) inv =
    activate-IsIndexDb observed acquired db key run_id at inv h
Transition-IsIndexDb db last (rollback_done prepared candidate at db' result h) inv =
    rollback-IsIndexDb prepared db candidate at inv h

-- Activations and rollbacks, in any order and of any sources, keep the invariant: run identifiers
-- stay apart, each source's pointer names its active run and no other, and no source has two active
-- or two previous runs.
pub Transitions-IsIndexDb : (db db' : IndexDb) → Transitions db db' → IsIndexDb db → IsIndexDb db'
Transitions-IsIndexDb db last unchanged inv = inv
Transitions-IsIndexDb db last (later middle db' before t) inv =
    Transition-IsIndexDb middle last t (Transitions-IsIndexDb db middle before inv)
