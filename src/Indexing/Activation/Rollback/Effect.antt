-- ===== src/Indexing/Activation/Rollback/Effect.antt =====
-- A rollback of infrastructure/database/repository_activation.py exchanges the active and the
-- previous generation and keeps the invariant.
use mathlib.Core.Path.{subst}
use omf_retrieval.Indexing.Activation.{config_hash, locked_run}
use omf_retrieval.Indexing.Activation.Effect.{replaced_runs}
use omf_retrieval.Indexing.Activation.Pointers.{replaced}
use omf_retrieval.Indexing.Activation.Rollback.{RollbackCandidate, is_unchanged, rollback}
use omf_retrieval.Indexing.Activation.Writes.{expect-eq_ok, flush-eq_ok}
use omf_retrieval.Indexing.Tables.{
  IndexDb, IndexRun, SourceProfile, TransitionResult, active_run, archived_run, expect, first_match,
  flush, has_status, pointed, previous_run, promote, satisfies, set_status,
}
use omf_retrieval.Prelude.{
  &&-split, >>=-elim, All, Bool, Bool-cases, List, [], activation_failed, ap, inl, inr, list_eq,
  map, nat_eq, none-ne-some, ok, ok-injective, option_beq_iff, option_eq, require, require-eq_ok,
  some, some_injective, sym, true, ℕ, ◌==◌, ◌∙◌, ◌∷◌, ◌≡◌,
}
use omf_retrieval.Prelude.Text.{Text}
use omf_retrieval.Search.Ports.{Uuid}

pub first_match-All :
    {A : Type 0} (P : A → Type 0) (p : A → Bool) (xs : List A) {a : A}
    → first_match p xs ≡ some a
    → All P xs
    → P a
unfolding first_match
first_match-All P p [] h each = absurd (none-ne-some h)
first_match-All P p (x ∷ xs) h each = elim (Bool-cases (p x)) [
  | inl e ↦ subst P (some_injective (rw (e, first_match) at h)) each.0
  | inr e ↦ first_match-All P p xs (rw (e, first_match) at h) each.1
]

-- what a rollback did
pub record IsRollback (db : IndexDb) (candidate : RollbackCandidate) (at : ℕ) (db' : IndexDb)
    (result : TransitionResult) : Type 0 where
  pub source : SourceProfile
  pub active : IndexRun
  pub target : IndexRun
  pub source_is : first_match (λ s. s.source_key == candidate.source_key) db.profiles ≡ some source
  pub active_is : locked_run db candidate.active_run_id ≡ some active
  pub target_is : locked_run db candidate.target_run_id ≡ some target
  pub pointer : source.active_index_run_id ≡ some active.id
  pub was_active : has_status source.id active_run active ≡ true
  pub was_previous : has_status source.id previous_run target ≡ true
  pub runs : db'.runs ≡ map (replaced (some target) (some active) target.id at) db.runs
  pub profiles : db'.profiles ≡ map (pointed source.id target.id) db.profiles
  pub contents : (db'.occurrences ≡ db.occurrences) × (db'.contents ≡ db.contents)
  pub constraints : satisfies db'.runs ≡ true
  pub reported : (result.from_run_id ≡ some active.id) × (result.to_run_id ≡ target.id)

is_unchanged-lem :
    (candidate : RollbackCandidate) (source : SourceProfile) (active target : IndexRun)
    (active_hash target_hash : Text)
    → is_unchanged candidate source active target active_hash target_hash ≡ true
    → (source.active_index_run_id == some active.id) ≡ true
      × (has_status source.id active_run active ≡ true)
      × (has_status source.id previous_run target ≡ true)
unfolding is_unchanged
is_unchanged-lem candidate source active target active_hash target_hash h =
    let (abcd, _) = &&-split _ _ h in
    let (abc, _) = &&-split _ _ abcd in
    let (ab, c) = &&-split _ _ abc in let (a, b) = &&-split _ _ ab in (a, b, c)

exchanged :
    (i : Uuid) (at : ℕ) (active target : IndexRun) (db : IndexDb) {db1 db2 db3 : IndexDb}
    → flush (set_status target.id archived_run db) ≡ ok db1
    → flush (set_status active.id previous_run db1) ≡ ok db2
    → flush (promote i target.id at db2) ≡ ok db3
    → (db3 ≡ record db {
      runs = map (replaced (some target) (some active) target.id at) db.runs;
      profiles = map (pointed i target.id) db.profiles;
    })
      × (satisfies db3.runs ≡ true)
unfolding set_status promote
exchanged i at active target db {db1} {db2} {db3} h1 h2 h3 =
    let (e1, _) = flush-eq_ok (set_status target.id archived_run db) h1 in
    let (e2, _) = flush-eq_ok (set_status active.id previous_run db1) h2 in
    let (e3, good) = flush-eq_ok (promote i target.id at db2) h3 in
    (
      sym e3
          ∙ ap (promote i target.id at) (sym e2 ∙ ap (set_status active.id previous_run) (sym e1))
          ∙ ap (λ l. record db { runs = l; profiles = map (pointed i target.id) db.profiles })
              (replaced_runs (some target) (some active) target.id at db.runs),
      ap (λ (d : IndexDb). satisfies d.runs) (sym e3) ∙ good,
    )

rolled_back :
    (db : IndexDb) (candidate : RollbackCandidate) (at : ℕ) (source : SourceProfile)
    (active target : IndexRun) (db' : IndexDb) (result : TransitionResult)
    → first_match (λ s. s.source_key == candidate.source_key) db.profiles ≡ some source
    → locked_run db candidate.active_run_id ≡ some active
    → locked_run db candidate.target_run_id ≡ some target
    → (source.active_index_run_id == some active.id) ≡ true
      × (has_status source.id active_run active ≡ true)
      × (has_status source.id previous_run target ≡ true)
    → (db' ≡ record db {
      runs = map (replaced (some target) (some active) target.id at) db.runs;
      profiles = map (pointed source.id target.id) db.profiles;
    })
      × (satisfies db'.runs ≡ true)
    → (some active.id ≡ result.from_run_id) × (target.id ≡ result.to_run_id)
    → IsRollback db candidate at db' result
rolled_back db candidate at source active target db' result a b c
      (pointer, was_active, was_previous) (whole, good) (from, to) =
    record {
      source = source;
      active = active;
      target = target;
      source_is = a;
      active_is = b;
      target_is = c;
      pointer = (option_beq_iff source.active_index_run_id (some active.id)).0 pointer;
      was_active = was_active;
      was_previous = was_previous;
      runs = ap (λ (d : IndexDb). d.runs) whole;
      profiles = ap (λ (d : IndexDb). d.profiles) whole;
      contents =
          (ap (λ (d : IndexDb). d.occurrences) whole, ap (λ (d : IndexDb). d.contents) whole);
      constraints = good;
      reported = (sym from, sym to);
    }

-- A rollback that succeeds exchanges the source's active and previous run: the previous one is
-- active from then on, the active one is the previous one, all others are as they were, the
-- pointer names the new active run, and no document is removed.
pub rollback-IsRollback :
    (prepared : Bool) (db : IndexDb) (candidate : RollbackCandidate) (at : ℕ) {db' : IndexDb}
    {result : TransitionResult}
    → rollback prepared db candidate at ≡ ok (db', result)
    → IsRollback db candidate at db' result
unfolding rollback
rollback-IsRollback prepared db candidate at {db'} {result} h =
    >>=-elim (require prepared activation_failed) _ h λ _ _ h1.
      >>=-elim (expect (first_match (λ s. s.source_key == candidate.source_key) db.profiles)) _ h1
        λ source source_is h2.
          >>=-elim (expect (locked_run db candidate.active_run_id)) _ h2 λ active active_is h3.
            >>=-elim (expect (locked_run db candidate.target_run_id)) _ h3 λ target target_is h4.
              >>=-elim (config_hash db active.index_config_id) _ h4 λ active_hash _ h5.
                >>=-elim (config_hash db target.index_config_id) _ h5 λ target_hash _ h6.
                  >>=-elim
                    (require (is_unchanged candidate source active target active_hash target_hash)
                      activation_failed)
                    _ h6
                    λ _ same h7.
                      >>=-elim (flush (set_status target.id archived_run db)) _ h7 λ db1 f1 h8.
                        >>=-elim (flush (set_status active.id previous_run db1)) _ h8 λ db2 f2 h9.
                          >>=-elim (flush (promote source.id target.id at db2)) _ h9 λ db3 f3 h10.
                            subst (λ d. IsRollback db candidate at d result)
                              (ap (λ g. g.0) (ok-injective h10))
                              (rolled_back db candidate at source active target db3 result
                                (expect-eq_ok
                                  (first_match (λ s. s.source_key == candidate.source_key)
                                    db.profiles)
                                  source_is)
                                (expect-eq_ok (locked_run db candidate.active_run_id) active_is)
                                (expect-eq_ok (locked_run db candidate.target_run_id) target_is)
                                (is_unchanged-lem candidate source active target active_hash
                                  target_hash (require-eq_ok _ _ same))
                                (exchanged source.id at active target db f1 f2 f3)
                                (
                                  ap (λ g. g.1.from_run_id) (ok-injective h10),
                                  ap (λ g. g.1.to_run_id) (ok-injective h10),
                                ))
