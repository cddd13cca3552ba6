-- ===== src/Indexing/Activation/Invariant.antt =====
-- Every successful activation of infrastructure/database/repository_activation.py keeps the
-- invariant.
use mathlib.Core.Path.{subst}
use omf_retrieval.Indexing.Activation.{activate, is_target, locked_run}
use omf_retrieval.Indexing.Activation.Effect.{activate-IsActivation}
use omf_retrieval.Indexing.Activation.Laws.{found_only, unique_status_run-IsUnique}
use omf_retrieval.Indexing.Activation.Pointers.{
  AgreesAll, AgreesAll-replaced, IsIndexDb, replaced, run_ids, run_ids-replaced,
}
use omf_retrieval.Indexing.Tables.{
  IndexDb, IndexRun, TransitionResult, active_run, pointed, previous_run,
}
use omf_retrieval.Prelude.{&&-split, All, All-imp, Bool, ap, map, nat_beq_iff, ok, sym, ℕ, ◌∙◌, ◌≡◌}
use omf_retrieval.Prelude.Dict.{IsDistinct}
use omf_retrieval.Prelude.Text.{Text}

-- An activation that succeeds keeps the invariant: identifiers stay apart, every pointer names its
-- source's active run, and no source has two active or two previous runs.
pub activate-IsIndexDb :
    (observed : IndexDb) (acquired : Bool) (db : IndexDb) (source_key : Text) (run_id at : ℕ)
    {db' : IndexDb} {result : TransitionResult}
    → IsIndexDb db
    → activate observed acquired db source_key run_id at ≡ ok (db', result)
    → IsIndexDb db'
unfolding is_target locked_run
activate-IsIndexDb observed acquired db source_key run_id at {db'} inv h =
    let a = activate-IsActivation observed acquired db source_key run_id at h in
    let i = a.target.id in
    let (alone, _) = found_only run_id db.runs inv.ids_apart a.target_is in
    let own : a.target.source_profile_id ≡ a.source.id =
      (nat_beq_iff a.target.source_profile_id a.source.id).0 (&&-split _ _ a.target_ready).0 in
    let act = unique_status_run-IsUnique db a.source.id active_run inv.ids_apart a.active_is in
    let prev = unique_status_run-IsUnique db a.source.id previous_run inv.ids_apart a.previous_is in
    let target_own : All (λ r. r.id ≡ i → r.source_profile_id ≡ a.source.id) db.runs =
      All-imp (λ r. r.id ≡ i → r ≡ a.target) (λ r. r.id ≡ i → r.source_profile_id ≡ a.source.id)
        (λ r same e. ap (λ (z : IndexRun). z.source_profile_id) (same e) ∙ own) db.runs alone in
    let pointers : All (AgreesAll (map (replaced a.previous a.active i at) db.runs))
        (map (pointed a.source.id i) db.profiles) =
      AgreesAll-replaced db.runs db.profiles a.source.id i at a.active a.previous inv.pointers
        target_own act.touches prev.touches act.only in
    record {
      ids_apart =
          subst IsDistinct
            (sym (ap run_ids a.runs ∙ run_ids-replaced a.previous a.active i at db.runs))
            inv.ids_apart;
      pointers =
          subst (λ l. All (AgreesAll l) db'.profiles) (sym a.runs)
            (subst (All (AgreesAll (map (replaced a.previous a.active i at) db.runs)))
              (sym a.profiles) pointers);
      constraints = a.constraints;
    }
