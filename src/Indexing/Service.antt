-- ===== src/Indexing/Service.antt =====
-- The transactions of application/indexing/activation.py and the audit after them. The audit sink,
-- the outcome of the commit and the readiness check of a rollback are parameters.
pub mod Laws
use omf_retrieval.Indexing.Activation.{activate}
use omf_retrieval.Indexing.Activation.Rollback.{RollbackCandidate, prepare_rollback, rollback}
use omf_retrieval.Indexing.Tables.{IndexDb, IndexRun, TransitionResult}
use omf_retrieval.Prelude.{
  Bool, Exception, List, Option, Result, [], activation_failed, all, false, leb, length, nat_beq,
  ok, post_commit_audit, raise, require, shielded, true, ℕ, ◌&&◌, ◌>>=◌, ◌>>◌, ◌||◌, ◌∷◌,
}
use omf_retrieval.Prelude.Text.{Text}
use omf_retrieval.Search.Ports.{Uuid}

pub record ActivationAuditEvent : Type 0 where
  pub actor : Text
  pub occurred_at : ℕ
  pub source_key : Text
  pub from_run_id : Option Uuid
  pub to_run_id : Uuid
  pub from_config_hash : Option Text
  pub to_config_hash : Text
  pub action : Text

-- `[A-Za-z0-9]`
unfoldable pub is_alphanumeric : ℕ → Bool
is_alphanumeric c = (leb 65 c && leb c 90) || (leb 97 c && leb c 122) || (leb 48 c && leb c 57)

-- `[A-Za-z0-9._@-]`
unfoldable pub is_actor_character : ℕ → Bool
unfolding is_alphanumeric
is_actor_character c =
    is_alphanumeric c || nat_beq c 46 || nat_beq c 95 || nat_beq c 64 || nat_beq c 45

-- `_SAFE_ACTOR`
unfoldable pub is_safe_actor : Text → Bool
unfolding is_alphanumeric all is_actor_character
is_safe_actor [] = false
is_safe_actor (c ∷ s) = is_alphanumeric c && leb (length s) 127 && all is_actor_character s

-- the clock's datetime: without a zone, with the `tzinfo` that is `UTC`, or with another one
pub data EventTime : Type 0 where
  without_zone : ℕ → EventTime
  in_utc : ℕ → EventTime
  in_other_zone : ℕ → EventTime

-- `occurred_at.tzinfo is UTC`
unfoldable pub event_time : EventTime → Result ℕ
event_time (without_zone t) = raise activation_failed
event_time (in_utc t) = ok t
event_time (in_other_zone t) = raise activation_failed

unfoldable pub validated_request : Text → Text → EventTime → Result ℕ
unfolding is_safe_actor event_time
validated_request source_key actor clock = do
  require (is_safe_actor source_key) activation_failed
  require (is_safe_actor actor) activation_failed
  event_time clock

unfoldable pub event_of : Text → TransitionResult → ActivationAuditEvent
event_of actor r = record {
  actor = actor;
  occurred_at = r.occurred_at;
  source_key = r.source_key;
  from_run_id = r.from_run_id;
  to_run_id = r.to_run_id;
  from_config_hash = r.from_config_hash;
  to_config_hash = r.to_config_hash;
  action = r.action;
}

-- what a call leaves: the tables, the events that were handed to the sink, and what it returns
pub record Outcome : Type 0 where
  pub tables : IndexDb
  pub events : List ActivationAuditEvent
  pub returned : Result TransitionResult

unfoldable pub failed : IndexDb → Exception → Outcome
failed db e = record { tables = db; events = []; returned = raise e }

-- `_write_audit` and the return
unfoldable pub write_audit :
    (ActivationAuditEvent → Result (Unit {0})) → Text → TransitionResult → Result TransitionResult
unfolding event_of shielded
write_audit sink actor result = do
  shielded post_commit_audit (sink (event_of actor result))
  ok result

-- the end of the `with` block, of a transaction on `db`, and what follows it
unfoldable pub finish :
    (ActivationAuditEvent → Result (Unit {0}))
    → Result (Unit {0})
    → Text
    → IndexDb
    → Result (IndexDb × TransitionResult)
    → Outcome
unfolding failed write_audit event_of
finish sink commit actor db (raise e) = failed db e
finish sink (raise e) actor db (ok (db', result)) = failed db e
finish sink (ok done) actor db (ok (db', result)) = record {
  tables = db';
  events = event_of actor result ∷ [];
  returned = write_audit sink actor result;
}

module _ (sink : ActivationAuditEvent → Result (Unit {0})) (commit : Result (Unit {0})) where
  unfoldable pub activate_generation :
      EventTime → IndexDb → Bool → IndexDb → Text → Uuid → Text → Outcome
  unfolding validated_request activate finish
  activate_generation clock observed acquired db source_key run_id actor =
      finish sink commit actor db (do
        occurred_at ← validated_request source_key actor clock
        activate observed acquired db source_key run_id occurred_at)

  unfoldable pub roll_back_generation :
      (IndexDb → IndexRun → Result (Unit {0}))
      → (RollbackCandidate → Text → Result (Unit {0}))
      → EventTime
      → IndexDb
      → Bool
      → IndexDb
      → Text
      → Text
      → Outcome
  unfolding validated_request prepare_rollback rollback finish
  roll_back_generation artifacts readiness clock observed acquired db source_key actor =
      finish sink commit actor db (do
        occurred_at ← validated_request source_key actor clock
        candidate ← prepare_rollback artifacts observed acquired db source_key
        readiness candidate source_key
        rollback true db candidate occurred_at)
