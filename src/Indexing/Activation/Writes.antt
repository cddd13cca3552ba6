-- ===== src/Indexing/Activation/Writes.antt =====
-- What the writes of an activation leave in the tables
-- (infrastructure/database/repository_activation.py).
use omf_retrieval.Indexing.Activation.{
  archive_previous, content_ids, delete_batch, delete_batches, demote_active, prune,
  prune_archived_run,
}
use omf_retrieval.Indexing.Activation.Pointers.{archived, demoted}
use omf_retrieval.Indexing.Tables.{
  IndexDb, IndexRun, archived_run, expect, flush, previous_run, satisfies, set_status,
}
use omf_retrieval.Prelude.{
  >>=-eq_ok, List, Option, [], activation_failed, ap, drop, integrity_error, is_some, keep, length,
  map, nat_eq, none, not, ok, ok-injective, raise-ne-ok, refl, require, require-eq_ok, some, suc,
  sym, take, true, zero, ℕ, ◌==◌, ◌∙◌, ◌∷◌, ◌≡◌,
}
use omf_retrieval.Search.Ports.{Uuid}

pub flush-eq_ok :
    (db : IndexDb) {out : IndexDb} → flush db ≡ ok out → (db ≡ out) × (satisfies db.runs ≡ true)
unfolding flush
flush-eq_ok db h =
    let (_, good, same) = >>=-eq_ok (require (satisfies db.runs) integrity_error) _ h in
    (ok-injective same, require-eq_ok _ _ good)

map_id : (runs : List IndexRun) → runs ≡ map (λ r. r) runs
map_id [] = refl
map_id (r ∷ runs) = ap (λ l. r ∷ l) (map_id runs)

pub archive_previous-eq_ok :
    (previous : Option IndexRun) (db : IndexDb) {out : IndexDb}
    → archive_previous previous db ≡ ok out
    → record db { runs = map (archived previous) db.runs } ≡ out
unfolding archive_previous set_status
archive_previous-eq_ok none db h =
    ap (λ l. record db { runs = l }) (sym (map_id db.runs)) ∙ ok-injective h
archive_previous-eq_ok (some r) db h =
    let (_, _, flushed) = >>=-eq_ok (require (is_some r.activated_at) activation_failed) _ h in
    (flush-eq_ok (set_status r.id archived_run db) flushed).0

pub demote_active-eq_ok :
    (active : Option IndexRun) (db : IndexDb) {out : IndexDb}
    → demote_active active db ≡ ok out
    → record db { runs = map (demoted active) db.runs } ≡ out
unfolding demote_active set_status
demote_active-eq_ok none db h =
    ap (λ l. record db { runs = l }) (sym (map_id db.runs)) ∙ ok-injective h
demote_active-eq_ok (some r) db h =
    let (_, _, flushed) = >>=-eq_ok (require (is_some r.activated_at) activation_failed) _ h in
    (flush-eq_ok (set_status r.id previous_run db) flushed).0

delete_batches-keeps :
    (size n : ℕ) (ids : List Uuid) (db : IndexDb)
    → ((delete_batches size n ids db).runs ≡ db.runs)
      × ((delete_batches size n ids db).profiles ≡ db.profiles)
unfolding delete_batches delete_batch
delete_batches-keeps size zero ids db = (refl, refl)
delete_batches-keeps size (suc n) [] db = (refl, refl)
delete_batches-keeps size (suc n) (i ∷ ids) db =
    delete_batches-keeps size n (drop size (i ∷ ids)) (delete_batch (take size (i ∷ ids)) db)

pub prune-keeps :
    (previous : Option IndexRun) (occurrences : List (Uuid × Uuid)) (db : IndexDb)
    → ((prune previous occurrences db).runs ≡ db.runs)
      × ((prune previous occurrences db).profiles ≡ db.profiles)
unfolding prune prune_archived_run
prune-keeps none occurrences db = (refl, refl)
prune-keeps (some r) occurrences db =
    let ids = content_ids r.id occurrences [] in
    delete_batches-keeps 1000 (length ids) ids
      (record db { occurrences = keep (λ o. not (o.0 == r.id)) db.occurrences })

pub expect-eq_ok : {A : Type 0} (o : Option A) {a : A} → expect o ≡ ok a → o ≡ some a
unfolding expect
expect-eq_ok none h = absurd (raise-ne-ok h)
expect-eq_ok (some x) h = ap some (ok-injective h)
