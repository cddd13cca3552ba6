-- ===== src/Indexing/Activation/Moves.antt =====
-- What the writes of infrastructure/database/repository_activation.py do to the slots of the sources.
use mathlib.Core.Path.{subst}
use omf_retrieval.Indexing.Activation.{run_id_of}
use omf_retrieval.Indexing.Activation.Pointers.{Touches, names, replaced}
use omf_retrieval.Indexing.Activation.Replaced.{
  active_after, active_at, others_kept, previous_after, previous_at, previous_gone,
}
use omf_retrieval.Indexing.Activation.Rollback.Effect.{first_match-All}
use omf_retrieval.Indexing.Activation.Slots.{first_only, none_passes, same_first, slot}
use omf_retrieval.Indexing.Tables.{
  IndexRun, IndexRunStatus, active_run, first_match, has_status, previous_run, status_beq,
}
use omf_retrieval.Prelude.{
  &&-split, All, All-imp, Bool, Bool-cases, List, Option, [], ap, false, inl, inr, map, nat_beq_iff,
  nat_eq, none, none-ne-some, some, some_injective, sym, true, true-ne-false, ◌==◌, ◌∙◌, ◌∷◌, ◌≡◌,
  ◌≢◌,
}
use omf_retrieval.Search.Ports.{Uuid}

-- the run that takes the place of the active one
pub record IsMove (runs : List IndexRun) (source_id i : Uuid) (active previous : Option IndexRun)
    (target : IndexRun) : Type 0 where
  pub found : first_match (λ r. r.id == i) runs ≡ some target
  pub own : target.source_profile_id ≡ source_id
  pub alone : All (λ r. r.id ≡ i → r ≡ target) runs
  pub idle : status_beq target.status active_run ≡ false
  pub act : first_match (has_status source_id active_run) runs ≡ active
  pub act_only :
      All
        (λ r. has_status source_id active_run r ≡ true → names (run_id_of active) r.id ≡ true)
        runs
  pub act_touches : All (Touches source_id active) runs
  pub prev_only :
      All
        (λ r. has_status source_id previous_run r ≡ true → names (run_id_of previous) r.id ≡ true)
        runs
  pub prev_touches : All (Touches source_id previous) runs

first_match-passes :
    (p : IndexRun → Bool) (runs : List IndexRun) {a : IndexRun}
    → first_match p runs ≡ some a
    → p a ≡ true
unfolding first_match
first_match-passes p [] e = absurd (none-ne-some e)
first_match-passes p (r ∷ runs) e = elim (Bool-cases (p r)) [
  | inl h ↦ subst (λ x. p x ≡ true) (some_injective (rw (h, first_match) at e)) h
  | inr h ↦ first_match-passes p runs (rw (h, first_match) at e)
]

module _ (runs : List IndexRun) (s i at : Uuid) (previous : Option IndexRun)
    (target : IndexRun) where
  pub move-active :
      (active : Option IndexRun)
      → IsMove runs s i active previous target
      → slot s active_run (map (replaced previous active i at) runs) ≡ some i
  move-active active m =
      let at_i : target.id ≡ i =
        (nat_beq_iff target.id i).0 (first_match-passes (λ r. r.id == i) runs m.found) in
      first_only (has_status s active_run) (replaced previous active i at) (λ r. r.id == i) i runs
        m.found (active_at s i at active previous target at_i m.own)
        (All-imp _ _ (active_after s i at active previous) runs m.act_only)

  pub move-previous :
      (active : Option IndexRun)
      → IsMove runs s i active previous target
      → slot s previous_run (map (replaced previous active i at) runs) ≡ run_id_of active
  unfolding has_status
  move-previous none m =
      none_passes (has_status s previous_run) (replaced previous none i at) runs
        (All-imp _ _ (previous_gone s i at previous) runs m.prev_only)
  move-previous (some a) m =
      let (own, is_active) =
        &&-split _ _ (first_match-passes (has_status s active_run) runs m.act) in
      let apart : a.id ≢ i = λ e.
        let same : a ≡ target =
          first_match-All (λ r. r.id ≡ i → r ≡ target) (has_status s active_run) runs m.act m.alone
            e in
        true-ne-false
          (sym is_active ∙ ap (λ (r : IndexRun). status_beq r.status active_run) same ∙ m.idle) in
      first_only (has_status s previous_run) (replaced previous (some a) i at)
        (has_status s active_run) a.id runs m.act
        (previous_at s i at previous a apart ((nat_beq_iff a.source_profile_id s).0 own))
        (All-imp _ _ (previous_after s i at a previous) runs m.prev_only)

  pub move-other :
      (active : Option IndexRun) (t : Uuid) (status : IndexRunStatus)
      → IsMove runs s i active previous target
      → t ≢ s
      → slot t status (map (replaced previous active i at) runs) ≡ slot t status runs
  move-other active t status m n =
      same_first (has_status t status) (replaced previous active i at) runs (
        others_kept s i at t status active previous runs n
          (All-imp _ _ (λ r same e. ap (λ (x : IndexRun). x.source_profile_id) (same e) ∙ m.own)
            runs m.alone)
          m.act_touches m.prev_touches)
