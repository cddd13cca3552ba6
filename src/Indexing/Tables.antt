-- ===== src/Indexing/Tables.antt =====
-- The tables of the index generations, infrastructure/database/models.py, and the writes of
-- infrastructure/database/repository_activation.py on them. An `IndexDb` is what the transaction
-- sees. `flush` checks the constraints that the models declare for `index_runs`.
use omf_retrieval.Prelude.{
  Bool, List, Option, Result, [], activation_failed, all, false, if◌then◌else◌, integrity_error,
  is_some, keep, leb, length, map, nat_beq, nat_eq, none, not, ok, raise, require, some, true, ℕ,
  ◌&&◌, ◌==◌, ◌>>◌, ◌||◌, ◌∷◌,
}
use omf_retrieval.Prelude.Text.{Text}
use omf_retrieval.Search.Ports.{Uuid}

-- `IndexRunStatus`
pub data IndexRunStatus : Type 0 where
  building_run ready_run active_run previous_run archived_run failed_run : IndexRunStatus

unfoldable pub status_code : IndexRunStatus → ℕ
status_code building_run = 0
status_code ready_run = 1
status_code active_run = 2
status_code previous_run = 3
status_code archived_run = 4
status_code failed_run = 5

unfoldable pub status_beq : IndexRunStatus → IndexRunStatus → Bool
unfolding status_code
status_beq a b = nat_beq (status_code a) (status_code b)

pub record IndexRun : Type 0 where
  pub id : Uuid
  pub source_profile_id : Uuid
  pub index_config_id : Uuid
  pub status : IndexRunStatus
  pub activated_at : Option ℕ

pub record SourceProfile : Type 0 where
  pub id : Uuid
  pub source_key : Text
  pub active_index_run_id : Option Uuid

pub record IndexDb : Type 0 where
  pub profiles : List SourceProfile
  pub runs : List IndexRun
  -- `index_configs`: id and hash
  pub configs : List (Uuid × Text)
  -- `document_occurrences`: run and content
  pub occurrences : List (Uuid × Uuid)
  -- `document_contents`
  pub contents : List Uuid

pub record TransitionResult : Type 0 where
  pub action : Text
  pub occurred_at : ℕ
  pub source_key : Text
  pub from_run_id : Option Uuid
  pub to_run_id : Uuid
  pub from_config_hash : Option Text
  pub to_config_hash : Text

unfoldable pub has_status : Uuid → IndexRunStatus → IndexRun → Bool
unfolding status_beq
has_status source_id status r = r.source_profile_id == source_id && status_beq r.status status

-- the statuses that `ck_index_runs_lifecycle_activated_at` names
unfoldable pub is_lifecycle : IndexRunStatus → Bool
is_lifecycle active_run = true
is_lifecycle previous_run = true
is_lifecycle archived_run = true
is_lifecycle _ = false

unfoldable pub is_sole : List IndexRun → IndexRunStatus → IndexRun → Bool
unfolding has_status keep
is_sole runs status r = leb (length (keep (has_status r.source_profile_id status) runs)) 1

-- the check constraint and the two unique indexes
unfoldable pub satisfies : List IndexRun → Bool
unfolding all is_lifecycle is_sole
satisfies runs =
    all
      (λ r.
        (not (is_lifecycle r.status) || is_some r.activated_at)
        && is_sole runs active_run r
        && is_sole runs previous_run r)
      runs

unfoldable pub flush : IndexDb → Result IndexDb
unfolding satisfies
flush db = do require (satisfies db.runs) integrity_error; ok db

unfoldable pub with_status : Uuid → IndexRunStatus → IndexRun → IndexRun
with_status run_id status r = if r.id == run_id then record r { status = status } else r

unfoldable pub set_status : Uuid → IndexRunStatus → IndexDb → IndexDb
unfolding with_status
set_status run_id status db = record db { runs = map (with_status run_id status) db.runs }

unfoldable pub activated : Uuid → ℕ → IndexRun → IndexRun
activated run_id occurred_at r =
    if r.id == run_id then record r { status = active_run; activated_at = some occurred_at } else r

unfoldable pub pointed : Uuid → Uuid → SourceProfile → SourceProfile
pointed source_id run_id s =
    if s.id == source_id then record s { active_index_run_id = some run_id } else s

unfoldable pub promote : Uuid → Uuid → ℕ → IndexDb → IndexDb
unfolding activated pointed
promote source_id run_id occurred_at db = record db {
  runs = map (activated run_id occurred_at) db.runs;
  profiles = map (pointed source_id run_id) db.profiles;
}

unfoldable pub first_match {ℓ} : {A : Type ℓ} → (A → Bool) → List A → Option A
first_match p [] = none
first_match p (x ∷ xs) = let rest = first_match p xs in if p x then some x else rest

-- a row that must be there
unfoldable pub expect : {A : Type 0} → Option A → Result A
expect none = raise activation_failed
expect (some a) = ok a
