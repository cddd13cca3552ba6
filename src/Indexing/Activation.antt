-- ===== src/Indexing/Activation.antt =====
-- Activation of an index generation, infrastructure/database/repository_activation.py. A transaction
-- that raises leaves the tables as they were.
pub mod Pointers
pub mod Laws
pub mod Writes
pub mod Slots
pub mod Replaced
pub mod Moves
pub mod Effect
pub mod Invariant
pub mod Rollback
pub mod Prune
use omf_retrieval.Indexing.Tables.{
  IndexDb, IndexRun, IndexRunStatus, SourceProfile, TransitionResult, active_run, archived_run,
  expect, first_match, flush, has_status, previous_run, promote, ready_run, set_status, status_beq,
}
use omf_retrieval.Prelude.{
  Bool, List, Option, Result, [], activation_failed, all, any, contains, drop, false, if◌then◌else◌,
  integrity_error, is_some, keep, leb, length, list_eq, map, nat_beq, nat_eq, none, not, ok,
  option_eq, raise, require, some, suc, take, true, zero, ℕ, ◌&&◌, ◌++◌, ◌==◌, ◌>>=◌, ◌>>◌, ◌||◌,
  ◌∷◌,
}
use omf_retrieval.Prelude.Dict.{get}
use omf_retrieval.Prelude.Text.{Text, codes, is_blank}
use omf_retrieval.Search.Ports.{Uuid}

-- `_lock_source`: the identity that was observed before the lock, the outcome of the advisory lock,
-- and the tables that are seen under it
unfoldable pub lock_source : IndexDb → Bool → IndexDb → Text → Result SourceProfile
unfolding first_match expect is_blank
lock_source observed acquired db source_key = do
  require (not (is_blank source_key)) activation_failed
  identity ← expect (first_match (λ s. s.source_key == source_key) observed.profiles)
  require acquired activation_failed
  source ← expect (first_match (λ s. s.id == identity.id && s.source_key == source_key) db.profiles)
  require (source.active_index_run_id == identity.active_index_run_id) activation_failed
  ok source

unfoldable pub locked_run : IndexDb → Uuid → Option IndexRun
unfolding first_match
locked_run db run_id = first_match (λ r. r.id == run_id) db.runs

unfoldable pub sole_of : List IndexRun → Result (Option IndexRun)
sole_of [] = ok none
sole_of (r ∷ []) = ok (some r)
sole_of (r ∷ q ∷ rs) = raise activation_failed

unfoldable pub unique_status_run : IndexDb → Uuid → IndexRunStatus → Result (Option IndexRun)
unfolding sole_of keep has_status
unique_status_run db source_id status = sole_of (keep (has_status source_id status) db.runs)

abbrev pub run_id_of : Option IndexRun → Option Uuid
run_id_of none = none
run_id_of (some r) = some r.id

unfoldable pub assert_pointer : SourceProfile → Option IndexRun → Result (Unit {0})
assert_pointer source active =
    require (source.active_index_run_id == run_id_of active) activation_failed

unfoldable pub config_hash : IndexDb → Uuid → Result Text
unfolding get expect
config_hash db config_id = expect (get config_id db.configs)

unfoldable pub config_hash_of_run : IndexDb → Option IndexRun → Result (Option Text)
unfolding config_hash
config_hash_of_run db none = ok none
config_hash_of_run db (some r) = do h ← config_hash db r.index_config_id; ok (some h)

-- the test of the target in `activate`
unfoldable pub is_target : SourceProfile → IndexRun → Bool
unfolding status_beq
is_target source r = r.source_profile_id == source.id && status_beq r.status ready_run

unfoldable pub archive_previous : Option IndexRun → IndexDb → Result IndexDb
unfolding flush set_status
archive_previous none db = ok db
archive_previous (some r) db = do
  require (is_some r.activated_at) activation_failed
  flush (set_status r.id archived_run db)

unfoldable pub demote_active : Option IndexRun → IndexDb → Result IndexDb
unfolding flush set_status
demote_active none db = ok db
demote_active (some r) db = do
  require (is_some r.activated_at) activation_failed
  flush (set_status r.id previous_run db)

-- `select(DocumentOccurrence.content_id).where(…).distinct()`
unfoldable pub content_ids : Uuid → List (Uuid × Uuid) → List Uuid → List Uuid
unfolding contains
content_ids run_id [] seen = seen
content_ids run_id (o ∷ os) seen =
    content_ids run_id os
      (if o.0 == run_id && not (contains seen o.1) then seen ++ o.1 ∷ [] else seen)

unfoldable pub is_kept : List (Uuid × Uuid) → List Uuid → Uuid → Bool
unfolding contains any
is_kept occurrences batch c = not (contains batch c) || any (λ o. o.1 == c) occurrences

-- one `delete(DocumentContent)`
unfoldable pub delete_batch : List Uuid → IndexDb → IndexDb
unfolding is_kept keep
delete_batch batch db = record db { contents = keep (is_kept db.occurrences batch) db.contents }

-- the loop over batches of `_GC_BATCH_SIZE`; there are no more batches than candidates
unfoldable pub delete_batches : ℕ → ℕ → List Uuid → IndexDb → IndexDb
unfolding take drop delete_batch
delete_batches size zero ids db = db
delete_batches size (suc n) [] db = db
delete_batches size (suc n) (i ∷ ids) db =
    delete_batches size n (drop size (i ∷ ids)) (delete_batch (take size (i ∷ ids)) db)

unfoldable pub prune_archived_run : Uuid → List Uuid → IndexDb → IndexDb
unfolding keep delete_batches
prune_archived_run run_id candidates db =
    delete_batches 1000 (length candidates) candidates
      (record db { occurrences = keep (λ o. not (o.0 == run_id)) db.occurrences })

unfoldable pub prune : Option IndexRun → List (Uuid × Uuid) → IndexDb → IndexDb
unfolding prune_archived_run content_ids
prune none occurrences db = db
prune (some r) occurrences db = prune_archived_run r.id (content_ids r.id occurrences []) db

unfoldable pub activate :
    IndexDb → Bool → IndexDb → Text → Uuid → ℕ → Result (IndexDb × TransitionResult)
unfolding lock_source locked_run expect is_target unique_status_run assert_pointer archive_previous
    demote_active flush promote prune config_hash config_hash_of_run
activate observed acquired db source_key run_id occurred_at = do
  source ← lock_source observed acquired db source_key
  target ← expect (locked_run db run_id)
  require (is_target source target) activation_failed
  active ← unique_status_run db source.id active_run
  previous ← unique_status_run db source.id previous_run
  assert_pointer source active
  require (is_some active || not (is_some previous)) activation_failed
  db1 ← archive_previous previous db
  db2 ← demote_active active db1
  db3 ← flush (promote source.id target.id occurred_at db2)
  let db4 = prune previous db.occurrences db3
  from_config_hash ← config_hash_of_run db4 active
  to_config_hash ← config_hash db4 target.index_config_id
  ok (
    db4,
    record {
      action = codes "activate";
      occurred_at = occurred_at;
      source_key = source.source_key;
      from_run_id = run_id_of active;
      to_run_id = target.id;
      from_config_hash = from_config_hash;
      to_config_hash = to_config_hash;
    },
  )
