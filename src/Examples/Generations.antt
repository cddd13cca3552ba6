-- ===== src/Examples/Generations.antt =====
-- Three generations of one source: one active, one previous, one ready.
use mathlib.Core.List.{Mem}
use omf_retrieval.Examples.{differ}
use omf_retrieval.Indexing.Activation.{activate, delete_batches}
use omf_retrieval.Indexing.Activation.Pointers.{IsIndexDb, names}
use omf_retrieval.Indexing.Activation.Prune.{IsReferred, delete_batches-lem}
use omf_retrieval.Indexing.Activation.Rollback.{RollbackCandidate, prepare_rollback, rollback}
use omf_retrieval.Indexing.Activation.Rollback.Effect.{IsRollback, rollback-IsRollback}
use omf_retrieval.Indexing.Activation.Rollback.History.{
  Transitions, Transitions-IsIndexDb, activation_done, later, rollback_done, unchanged,
}
use omf_retrieval.Indexing.Activation.Rollback.Refinement.{Transitions-replay, replay}
use omf_retrieval.Indexing.Activation.Slots.{Action, publish, restore, slots}
use omf_retrieval.Indexing.Service.{
  ActivationAuditEvent, Outcome, activate_generation, event_of, failed, in_utc,
  roll_back_generation,
}
use omf_retrieval.Indexing.Service.Laws.{
  IsCommitted, IsUnchanged, activate_generation-IsCommitted, roll_back_generation-IsCommitted,
}
use omf_retrieval.Indexing.Tables.{
  IndexDb, IndexRun, IndexRunStatus, SourceProfile, TransitionResult, active_run, archived_run,
  previous_run, ready_run, satisfies, status_beq, status_code,
}
use omf_retrieval.Prelude.{
  List, Option, Result, [], arith, map, none, ok, os_error, raise, refl, some, true, ℕ, ◌↔◌, ◌∷◌,
  ◌≡◌, ◌⊎◌,
}
use omf_retrieval.Prelude.Text.{Text, codes}
use omf_retrieval.Search.Ports.{Uuid}

abbrev generation : Uuid → IndexRunStatus → Option ℕ → IndexRun
generation id status at = record {
  id = id;
  source_profile_id = 5;
  index_config_id = 9;
  status = status;
  activated_at = at;
}

abbrev wiki : Option Uuid → SourceProfile
wiki pointer = record { id = 5; source_key = codes "omf"; active_index_run_id = pointer }

abbrev tables : IndexDb
tables = record {
  profiles = wiki (some 1) ∷ [];
  runs =
      generation 1 active_run (some 20)
      ∷ generation 2 previous_run (some 10)
      ∷ generation 3 ready_run none
      ∷ [];
  configs = (9, codes "h") ∷ [];
  occurrences = (1, 100) ∷ (2, 100) ∷ (2, 101) ∷ (3, 102) ∷ [];
  contents = 100 ∷ 101 ∷ 102 ∷ [];
}

-- the content that only the archived run held is gone
abbrev activated_tables : IndexDb
activated_tables = record {
  profiles = wiki (some 3) ∷ [];
  runs =
      generation 1 previous_run (some 20)
      ∷ generation 2 archived_run (some 10)
      ∷ generation 3 active_run (some 30)
      ∷ [];
  configs = (9, codes "h") ∷ [];
  occurrences = (1, 100) ∷ (3, 102) ∷ [];
  contents = 100 ∷ 102 ∷ [];
}

abbrev activated_result : TransitionResult
activated_result = record {
  action = codes "activate";
  occurred_at = 30;
  source_key = codes "omf";
  from_run_id = some 1;
  to_run_id = 3;
  from_config_hash = some (codes "h");
  to_config_hash = codes "h";
}

abbrev restored_tables : IndexDb
restored_tables = record activated_tables {
  profiles = wiki (some 1) ∷ [];
  runs =
      generation 1 active_run (some 40)
      ∷ generation 2 archived_run (some 10)
      ∷ generation 3 previous_run (some 30)
      ∷ [];
}

abbrev restored_result : TransitionResult
restored_result = record {
  action = codes "rollback";
  occurred_at = 40;
  source_key = codes "omf";
  from_run_id = some 3;
  to_run_id = 1;
  from_config_hash = some (codes "h");
  to_config_hash = codes "h";
}

abbrev candidate : RollbackCandidate
candidate = record {
  source_key = codes "omf";
  active_run_id = 3;
  active_config_hash = codes "h";
  target_run_id = 1;
  target_config_hash = codes "h";
}

activation_run :
    activate tables true tables (codes "omf") 3 30 ≡ ok (activated_tables, activated_result)
unfolding activate
activation_run = refl

prepared_run :
    prepare_rollback (λ db r. ok tt) activated_tables true activated_tables (codes "omf")
    ≡ ok candidate
unfolding prepare_rollback
prepared_run = refl

rollback_run : rollback true activated_tables candidate 40 ≡ ok (restored_tables, restored_result)
unfolding rollback
rollback_run = refl

tables_hold : IsIndexDb tables
unfolding satisfies names status_beq status_code
tables_hold = record {
  ids_apart = ((differ refl, (differ refl, tt)), ((differ refl, tt), (tt, tt)));
  pointers = ((λ e. refl, (λ e. refl, (λ e. refl, tt))), tt);
  constraints = refl;
}

rollback-IsRollback_example :
    IsRollback activated_tables candidate 40 restored_tables restored_result
rollback-IsRollback_example = rollback-IsRollback true activated_tables candidate 40 rollback_run

abbrev there_and_back : Transitions tables restored_tables
there_and_back =
    later activated_tables restored_tables
      (later tables activated_tables unchanged (
        activation_done tables true (codes "omf") 3 30 activated_tables activated_result
          activation_run))
      (rollback_done true candidate 40 restored_tables restored_result rollback_run)

Transitions-IsIndexDb_example : IsIndexDb restored_tables
Transitions-IsIndexDb_example =
    Transitions-IsIndexDb tables restored_tables there_and_back tables_hold

Transitions-replay_example :
    (log : List (Uuid × Action)) × ((map (λ (e : Uuid × Action). e.1) log
        ≡ restore ∷ publish 3 ∷ [])
      × ((s : Uuid) → replay s log (slots tables s) ≡ some (slots restored_tables s)))
Transitions-replay_example = Transitions-replay tables restored_tables there_and_back tables_hold

delete_batches-lem_example :
    ((c : Uuid)
      → Mem c (delete_batches 1 2 (100 ∷ 101 ∷ []) activated_tables).contents ↔ (
          Mem c activated_tables.contents
          × (Mem c (100 ∷ 101 ∷ []) → IsReferred activated_tables c)))
    × (delete_batches 1 2 (100 ∷ 101 ∷ []) activated_tables ≡ record activated_tables {
      contents = (delete_batches 1 2 (100 ∷ 101 ∷ []) activated_tables).contents;
    })
delete_batches-lem_example =
    delete_batches-lem 1 2 (100 ∷ 101 ∷ []) activated_tables (omega arith) (omega arith)

abbrev quiet : ActivationAuditEvent → Result (Unit {0})
quiet event = ok tt

committed_run :
    activate_generation quiet (ok tt) (in_utc 30) tables true tables (codes "omf") 3 (codes "ops")
    ≡ record {
      tables = activated_tables;
      events = event_of (codes "ops") activated_result ∷ [];
      returned = ok activated_result;
    }
unfolding activate_generation
committed_run = refl

-- a commit that fails leaves the tables, and nothing is reported
uncommitted_run :
    activate_generation quiet
      (raise os_error)
      (in_utc 30)
      tables
      true
      tables
      (codes "omf")
      3
      (codes "ops")
    ≡ failed tables os_error
unfolding activate_generation
uncommitted_run = refl

activate_generation-IsCommitted_example :
    IsUnchanged tables (
      activate_generation quiet
        (ok tt)
        (in_utc 30)
        tables
        true
        tables
        (codes "omf")
        3
        (codes "ops"))
    ⊎ ((at : ℕ) × IsCommitted quiet (codes "ops") (activate tables true tables (codes "omf") 3 at) (
          activate_generation quiet
            (ok tt)
            (in_utc 30)
            tables
            true
            tables
            (codes "omf")
            3
            (codes "ops"))
        × IsIndexDb
            (activate_generation quiet
              (ok tt)
              (in_utc 30)
              tables
              true
              tables
              (codes "omf")
              3
              (codes "ops")).tables)
activate_generation-IsCommitted_example =
    activate_generation-IsCommitted quiet (ok tt) (in_utc 30) tables true tables (codes "omf") 3
      (codes "ops") tables_hold

abbrev any_artifacts : IndexDb → IndexRun → Result (Unit {0})
any_artifacts db r = ok tt

abbrev always_ready : RollbackCandidate → Text → Result (Unit {0})
always_ready c key = ok tt

abbrev rolled_back_outcome : Outcome
rolled_back_outcome =
    roll_back_generation quiet (ok tt) any_artifacts always_ready (in_utc 40) tables true tables
      (codes "omf") (codes "ops")

roll_back_generation-IsCommitted_example :
    IsUnchanged tables rolled_back_outcome
    ⊎ ((at : ℕ) × (c : RollbackCandidate) × (prepare_rollback any_artifacts tables true tables
            (codes "omf")
          ≡ ok c)
        × (always_ready c (codes "omf") ≡ ok tt)
        × IsCommitted quiet (codes "ops") (rollback true tables c at) rolled_back_outcome
        × IsIndexDb rolled_back_outcome.tables)
roll_back_generation-IsCommitted_example =
    roll_back_generation-IsCommitted quiet (ok tt) any_artifacts always_ready (in_utc 40) tables
      true tables (codes "omf") (codes "ops") tables_hold
