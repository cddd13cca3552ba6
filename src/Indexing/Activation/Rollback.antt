-- ===== src/Indexing/Activation/Rollback.antt =====
-- Rollback of index generations, infrastructure/database/repository_activation.py. The check of
-- the target's stored artifacts is a parameter, and so are the configuration objects that a
-- candidate carries besides their hash.
pub mod Effect
pub mod History
pub mod Unique
pub mod Refinement
use omf_retrieval.Indexing.Activation.{
  assert_pointer, config_hash, lock_source, locked_run, unique_status_run,
}
use omf_retrieval.Indexing.Tables.{
  IndexDb, IndexRun, SourceProfile, TransitionResult, active_run, archived_run, expect, first_match,
  flush, has_status, previous_run, promote, set_status,
}
use omf_retrieval.Prelude.{
  Bool, Result, activation_failed, is_some, list_eq, nat_eq, ok, option_eq, require, some, ℕ, ◌&&◌,
  ◌==◌, ◌>>=◌, ◌>>◌,
}
use omf_retrieval.Prelude.Text.{Text, codes}
use omf_retrieval.Search.Ports.{Uuid}

pub record RollbackCandidate : Type 0 where
  pub source_key : Text
  pub active_run_id : Uuid
  pub active_config_hash : Text
  pub target_run_id : Uuid
  pub target_config_hash : Text

unfoldable pub prepare_rollback :
    (IndexDb → IndexRun → Result (Unit {0}))
    → IndexDb
    → Bool
    → IndexDb
    → Text
    → Result RollbackCandidate
unfolding lock_source unique_status_run assert_pointer expect config_hash
prepare_rollback assert_target_artifacts observed acquired db source_key = do
  source ← lock_source observed acquired db source_key
  found_active ← unique_status_run db source.id active_run
  found_previous ← unique_status_run db source.id previous_run
  assert_pointer source found_active
  active ← expect found_active
  previous ← expect found_previous
  require (is_some active.activated_at && is_some previous.activated_at) activation_failed
  active_config_hash ← config_hash db active.index_config_id
  target_config_hash ← config_hash db previous.index_config_id
  assert_target_artifacts db previous
  ok (record {
    source_key = source.source_key;
    active_run_id = active.id;
    active_config_hash = active_config_hash;
    target_run_id = previous.id;
    target_config_hash = target_config_hash;
  })

-- the negation of the test after the rows are locked
unfoldable pub is_unchanged :
    RollbackCandidate → SourceProfile → IndexRun → IndexRun → Text → Text → Bool
unfolding has_status
is_unchanged candidate source active target active_hash target_hash =
    source.active_index_run_id == some active.id
    && has_status source.id active_run active
    && has_status source.id previous_run target
    && active_hash == candidate.active_config_hash
    && target_hash == candidate.target_config_hash

-- `prepared` tells whether the candidate is the one that this repository prepared
unfoldable pub rollback :
    Bool → IndexDb → RollbackCandidate → ℕ → Result (IndexDb × TransitionResult)
unfolding first_match locked_run expect config_hash is_unchanged set_status flush promote
rollback prepared db candidate occurred_at = do
  require prepared activation_failed
  source ← expect (first_match (λ s. s.source_key == candidate.source_key) db.profiles)
  active ← expect (locked_run db candidate.active_run_id)
  target ← expect (locked_run db candidate.target_run_id)
  active_hash ← config_hash db active.index_config_id
  target_hash ← config_hash db target.index_config_id
  require (is_unchanged candidate source active target active_hash target_hash) activation_failed
  db1 ← flush (set_status target.id archived_run db)
  db2 ← flush (set_status active.id previous_run db1)
  db3 ← flush (promote source.id target.id occurred_at db2)
  ok (
    db3,
    record {
      action = codes "rollback";
      occurred_at = occurred_at;
      source_key = source.source_key;
      from_run_id = some active.id;
      to_run_id = target.id;
      from_config_hash = some candidate.active_config_hash;
      to_config_hash = candidate.target_config_hash;
    },
  )
