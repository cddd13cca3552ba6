-- ===== src/Indexing/Service/Laws.antt =====
-- What a call of application/indexing/activation.py leaves behind.
use omf_retrieval.Indexing.Activation.{activate}
use omf_retrieval.Indexing.Activation.Invariant.{activate-IsIndexDb}
use omf_retrieval.Indexing.Activation.Pointers.{IsIndexDb}
use omf_retrieval.Indexing.Activation.Rollback.{RollbackCandidate, prepare_rollback, rollback}
use omf_retrieval.Indexing.Activation.Rollback.History.{rollback-IsIndexDb}
use omf_retrieval.Indexing.Service.{
  ActivationAuditEvent, EventTime, Outcome, activate_generation, event_of, failed, finish,
  roll_back_generation, validated_request, write_audit,
}
use omf_retrieval.Indexing.Tables.{IndexDb, IndexRun, TransitionResult}
use omf_retrieval.Prelude.{
  >>=-elim, >>=-eq_ok, Bool, Bool-cases, Exception, Result, Result-cases, [], if◌then◌else◌, inl,
  inr, is_exit, ok, post_commit_audit, raise, refl, shielded, true, ℕ, ◌>>=◌, ◌>>◌, ◌∷◌, ◌≡◌, ◌⊎◌,
}
use omf_retrieval.Prelude.Text.{Text}
use omf_retrieval.Search.Ports.{Uuid}

-- nothing was changed and nothing was reported
abbrev pub IsUnchanged : IndexDb → Outcome → Type 0
IsUnchanged db out =
    (out.tables ≡ db) × (out.events ≡ []) × ((e : Exception) × (out.returned ≡ raise e))

-- the transition was committed and its event was handed to the sink once; the call returns the
-- transition, or the error of the sink
pub record IsCommitted (sink : ActivationAuditEvent → Result (Unit {0})) (actor : Text)
    (transition : Result (IndexDb × TransitionResult)) (out : Outcome) : Type 0 where
  pub result : TransitionResult
  pub committed : transition ≡ ok (out.tables, result)
  pub reported : out.events ≡ event_of actor result ∷ []
  pub returned :
      (out.returned ≡ ok result)
      ⊎ ((e : Exception) × (sink (event_of actor result) ≡ raise e)
          × (out.returned ≡ raise (if is_exit e then e else post_commit_audit)))

write_audit-cases :
    (sink : ActivationAuditEvent → Result (Unit {0})) (actor : Text) (result : TransitionResult)
    → (write_audit sink actor result ≡ ok result)
      ⊎ ((e : Exception) × (sink (event_of actor result) ≡ raise e)
          × (write_audit sink actor result ≡ raise (if is_exit e then e else post_commit_audit)))
unfolding write_audit shielded
write_audit-cases sink actor result = elim (Result-cases (sink (event_of actor result))) [
  | inl (u, h) ↦ inl (rw (h, ◌>>=◌))
  | inr (e, h) ↦ elim (Bool-cases (is_exit e)) [
    | inl x ↦ inr (e, h, rw (h, x, ◌>>=◌))
    | inr x ↦ inr (e, h, rw (h, x, ◌>>=◌))
  ]
]

finish-cases :
    (sink : ActivationAuditEvent → Result (Unit {0})) (commit : Result (Unit {0})) (actor : Text)
    (db : IndexDb) (transition : Result (IndexDb × TransitionResult))
    → IsUnchanged db (finish sink commit actor db transition)
      ⊎ IsCommitted sink actor transition (finish sink commit actor db transition)
unfolding finish failed
finish-cases sink commit actor db (raise e) = inl (refl, refl, (e, refl))
finish-cases sink (raise e) actor db (ok (db', result)) = inl (refl, refl, (e, refl))
finish-cases sink (ok done) actor db (ok (db', result)) = inr (record {
  result = result;
  committed = refl;
  reported = refl;
  returned = write_audit-cases sink actor result;
})

module _ (sink : ActivationAuditEvent → Result (Unit {0})) (commit : Result (Unit {0})) where
  with_transition :
      (actor : Text) {t u : Result (IndexDb × TransitionResult)} (out : Outcome)
      → (c : IsCommitted sink actor t out) → u ≡ ok (out.tables, c.result)
      → IsCommitted sink actor u out
  with_transition actor out c h = record {
    result = c.result;
    committed = h;
    reported = c.reported;
    returned = c.returned;
  }

  -- A call of an activation either raises, with the tables as they were and nothing reported, or has
  -- committed an activation that keeps the invariant, and has reported it once; then it returns the
  -- transition, or raises the audit error or an exit.
  pub activate_generation-IsCommitted :
      (clock : EventTime) (observed : IndexDb) (acquired : Bool) (db : IndexDb) (source_key : Text)
      (run_id : Uuid) (actor : Text)
      → IsIndexDb db
      → (let out =
            activate_generation sink commit clock observed acquired db source_key run_id actor in
          IsUnchanged db out
          ⊎ ((at : ℕ) × IsCommitted sink actor
                (activate observed acquired db source_key run_id at)
                out
              × IsIndexDb out.tables))
  unfolding activate_generation
  activate_generation-IsCommitted clock observed acquired db source_key run_id actor inv =
      let transition = validated_request source_key actor clock >>= λ at.
      activate observed acquired db source_key run_id at in
      let out = finish sink commit actor db transition in
      elim (finish-cases sink commit actor db transition) [
        | inl u ↦ inl u
        | inr c ↦
            let (at, _, h) = >>=-eq_ok (validated_request source_key actor clock) _ c.committed in
            inr (
              at,
              with_transition actor out c h,
              activate-IsIndexDb observed acquired db source_key run_id at inv h,
            )
      ]

  -- A call of a rollback either raises, with the tables as they were and nothing reported, or has
  -- committed the rollback to a candidate that was prepared on these tables and found ready, which
  -- keeps the invariant, and has reported it once; then it returns the transition, or raises the
  -- audit error or an exit.
  pub roll_back_generation-IsCommitted :
      (artifacts : IndexDb → IndexRun → Result (Unit {0}))
      (readiness : RollbackCandidate → Text → Result (Unit {0})) (clock : EventTime)
      (observed : IndexDb) (acquired : Bool) (db : IndexDb) (source_key actor : Text)
      → IsIndexDb db
      → (let out =
            roll_back_generation sink commit artifacts readiness clock observed acquired db
              source_key actor in
          IsUnchanged db out
          ⊎ ((at : ℕ) × (candidate : RollbackCandidate) × (prepare_rollback artifacts observed
                  acquired db source_key
                ≡ ok candidate)
              × (readiness candidate source_key ≡ ok tt)
              × IsCommitted sink actor (rollback true db candidate at) out
              × IsIndexDb out.tables))
  unfolding roll_back_generation
  roll_back_generation-IsCommitted artifacts readiness clock observed acquired db source_key actor
        inv =
      let transition = validated_request source_key actor clock >>= λ at.
      prepare_rollback artifacts observed acquired db source_key >>= λ candidate.
      readiness candidate source_key >> rollback true db candidate at in
      let out = finish sink commit actor db transition in
      elim (finish-cases sink commit actor db transition) [
        | inl u ↦ inl u
        | inr c ↦ >>=-elim (validated_request source_key actor clock) _ c.committed λ at _ h1.
            >>=-elim (prepare_rollback artifacts observed acquired db source_key) _ h1
              λ candidate prepared h2.
                >>=-elim (readiness candidate source_key) _ h2 λ done checked h3. inr (
                  at,
                  candidate,
                  prepared,
                  checked,
                  with_transition actor out c h3,
                  rollback-IsIndexDb true db candidate at inv h3,
                )
      ]
