-- ===== src/Indexing/Activation/Effect.antt =====
-- The effect of a successful activation of infrastructure/database/repository_activation.py.
use omf_retrieval.Indexing.Activation.{
  activate, archive_previous, assert_pointer, config_hash, config_hash_of_run, demote_active,
  is_target, lock_source, locked_run, prune, run_id_of, unique_status_run,
}
use omf_retrieval.Indexing.Activation.Pointers.{archived, demoted, replaced}
use omf_retrieval.Indexing.Activation.Writes.{
  archive_previous-eq_ok, demote_active-eq_ok, expect-eq_ok, flush-eq_ok, prune-keeps,
}
use omf_retrieval.Indexing.Tables.{
  IndexDb, IndexRun, SourceProfile, TransitionResult, activated, active_run, expect, flush, pointed,
  previous_run, promote, satisfies,
}
use omf_retrieval.Prelude.{
  >>=-elim, Bool, List, Option, [], activation_failed, ap, is_some, map, nat_eq, not, ok,
  ok-injective, option_eq, refl, require, require-eq_ok, some, sym, true, ℕ, ◌==◌, ◌||◌, ◌∙◌, ◌∷◌,
  ◌≡◌,
}
use omf_retrieval.Prelude.Text.{Text}
use omf_retrieval.Search.Ports.{Uuid}

-- what an activation did
pub record IsActivation (db : IndexDb) (run_id at : Uuid) (db' : IndexDb)
    (result : TransitionResult) : Type 0 where
  pub source : SourceProfile
  pub target : IndexRun
  pub active : Option IndexRun
  pub previous : Option IndexRun
  pub target_is : locked_run db run_id ≡ some target
  pub target_ready : is_target source target ≡ true
  pub active_is : unique_status_run db source.id active_run ≡ ok active
  pub previous_is : unique_status_run db source.id previous_run ≡ ok previous
  pub pointer : (source.active_index_run_id == run_id_of active) ≡ true
  pub runs : db'.runs ≡ map (replaced previous active target.id at) db.runs
  pub profiles : db'.profiles ≡ map (pointed source.id target.id) db.profiles
  pub constraints : satisfies db'.runs ≡ true
  pub reported : (result.from_run_id ≡ run_id_of active) × (result.to_run_id ≡ target.id)

pub replaced_runs :
    (previous active : Option IndexRun) (i at : Uuid) (runs : List IndexRun)
    → map (activated i at) (map (demoted active) (map (archived previous) runs))
      ≡ map (replaced previous active i at) runs
replaced_runs previous active i at [] = refl
replaced_runs previous active i at (r ∷ runs) =
    ap (λ l. replaced previous active i at r ∷ l) (replaced_runs previous active i at runs)

promoted :
    (source_id i at : Uuid) (active previous : Option IndexRun) (db : IndexDb)
    {db1 db2 db3 : IndexDb}
    → archive_previous previous db ≡ ok db1
    → demote_active active db1 ≡ ok db2
    → flush (promote source_id i at db2) ≡ ok db3
    → (db3.runs ≡ map (replaced previous active i at) db.runs)
      × (db3.profiles ≡ map (pointed source_id i) db.profiles)
      × (satisfies db3.runs ≡ true)
unfolding promote
promoted source_id i at active previous db {db1} {db2} {db3} h1 h2 h3 =
    let e1 = archive_previous-eq_ok previous db h1 in
    let e2 = demote_active-eq_ok active db1 h2 in
    let (e3, good) = flush-eq_ok (promote source_id i at db2) h3 in
    let whole : promote source_id i at
          (record db { runs = map (demoted active) (map (archived previous) db.runs) })
        ≡ db3 =
      ap (promote source_id i at)
        (ap (λ (d : IndexDb). record d { runs = map (demoted active) d.runs }) e1 ∙ e2)
      ∙ e3 in
    (
      ap (λ (d : IndexDb). d.runs) (sym whole) ∙ replaced_runs previous active i at db.runs,
      ap (λ (d : IndexDb). d.profiles) (sym whole),
      ap (λ (d : IndexDb). satisfies d.runs) (sym e3) ∙ good,
    )

activation :
    (db : IndexDb) (run_id at : Uuid) (source : SourceProfile) (target : IndexRun)
    (active previous : Option IndexRun) (db3 : IndexDb) {db' : IndexDb} {result : TransitionResult}
    → locked_run db run_id ≡ some target
    → is_target source target ≡ true
    → unique_status_run db source.id active_run ≡ ok active
    → unique_status_run db source.id previous_run ≡ ok previous
    → (source.active_index_run_id == run_id_of active) ≡ true
    → (db3.runs ≡ map (replaced previous active target.id at) db.runs)
      × (db3.profiles ≡ map (pointed source.id target.id) db.profiles)
      × (satisfies db3.runs ≡ true)
    → prune previous db.occurrences db3 ≡ db'
    → (run_id_of active ≡ result.from_run_id) × (target.id ≡ result.to_run_id)
    → IsActivation db run_id at db' result
activation db run_id at source target active previous db3 {db'} {result} a b c d e
      (runs, profiles, good) left (reported_from, reported_to) =
    let (kept_runs, kept_profiles) = prune-keeps previous db.occurrences db3 in
    let same_runs : db'.runs ≡ db3.runs = ap (λ (d : IndexDb). d.runs) (sym left) ∙ kept_runs in
    record {
      source = source;
      target = target;
      active = active;
      previous = previous;
      target_is = a;
      target_ready = b;
      active_is = c;
      previous_is = d;
      pointer = e;
      runs = same_runs ∙ runs;
      profiles = ap (λ (d : IndexDb). d.profiles) (sym left) ∙ kept_profiles ∙ profiles;
      constraints = ap satisfies same_runs ∙ good;
      reported = (sym reported_from, sym reported_to);
    }

pub activate-IsActivation :
    (observed : IndexDb) (acquired : Bool) (db : IndexDb) (source_key : Text) (run_id at : ℕ)
    {db' : IndexDb} {result : TransitionResult}
    → activate observed acquired db source_key run_id at ≡ ok (db', result)
    → IsActivation db run_id at db' result
unfolding activate expect assert_pointer
activate-IsActivation observed acquired db source_key run_id at {db'} {result} h =
    >>=-elim (lock_source observed acquired db source_key) _ h λ source _ h1.
      >>=-elim (expect (locked_run db run_id)) _ h1 λ target target_is h2.
        >>=-elim (require (is_target source target) activation_failed) _ h2 λ _ target_ready h3.
          >>=-elim (unique_status_run db source.id active_run) _ h3 λ active active_is h4.
            >>=-elim (unique_status_run db source.id previous_run) _ h4 λ previous previous_is h5.
              >>=-elim (assert_pointer source active) _ h5 λ _ pointer h6.
                >>=-elim (require (is_some active || not (is_some previous)) activation_failed) _ h6
                  λ _ _ h7. >>=-elim (archive_previous previous db) _ h7 λ db1 archived_ok h8.
                    >>=-elim (demote_active active db1) _ h8 λ db2 demoted_ok h9.
                      >>=-elim (flush (promote source.id target.id at db2)) _ h9 λ db3 flushed h10.
                        >>=-elim (config_hash_of_run (prune previous db.occurrences db3) active) _
                          h10
                          λ from_hash _ h11.
                            >>=-elim
                              (config_hash (prune previous db.occurrences db3)
                                target.index_config_id)
                              _ h11
                              λ to_hash _ h12.
                                activation db run_id at source target active previous db3
                                  (expect-eq_ok (locked_run db run_id) target_is)
                                  (require-eq_ok _ _ target_ready) active_is previous_is
                                  (require-eq_ok _ _ pointer)
                                  (promoted source.id target.id at active previous db archived_ok
                                    demoted_ok flushed)
                                  (ap (λ g. g.0) (ok-injective h12))
                                  (
                                    ap (λ g. g.1.from_run_id) (ok-injective h12),
                                    ap (λ g. g.1.to_run_id) (ok-injective h12),
                                  )
