-- ===== src/Indexing/Activation/Rollback/Refinement.antt =====
-- The activations and rollbacks of infrastructure/database/repository_activation.py implement the two
-- slots of a source.
use mathlib.Core.Path.{ap₂, subst}
use omf_retrieval.Indexing.Activation.{is_target, locked_run, run_id_of, unique_status_run}
use omf_retrieval.Indexing.Activation.Effect.{activate-IsActivation}
use omf_retrieval.Indexing.Activation.Laws.{found_only, unique_status_run-IsUnique}
use omf_retrieval.Indexing.Activation.Moves.{IsMove, move-active, move-other, move-previous}
use omf_retrieval.Indexing.Activation.Pointers.{IsIndexDb, replaced}
use omf_retrieval.Indexing.Activation.Rollback.Effect.{rollback-IsRollback}
use omf_retrieval.Indexing.Activation.Rollback.History.{
  Transition, Transitions, Transitions-IsIndexDb, activation_done, later, rollback_done,
  status_source, unchanged,
}
use omf_retrieval.Indexing.Activation.Rollback.Unique.{active_found, previous_found, unique-first}
use omf_retrieval.Indexing.Activation.Slots.{Action, Slots, acted, publish, restore, slot, slots}
use omf_retrieval.Indexing.Tables.{
  IndexDb, IndexRun, active_run, first_match, has_status, previous_run, ready_run, status_beq,
  status_code,
}
use omf_retrieval.Prelude.{
  &&-split, Bool-cases, List, Option, [], ap, arith, false, if◌then◌else◌, inl, inr, map, nat_beq,
  nat_beq_iff, nat_eq, none, ok, refl, some, sym, true, true-ne-false, ◌==◌, ◌∙◌, ◌∷◌, ◌≡◌, ◌≢◌,
}
use omf_retrieval.Search.Ports.{Uuid}

-- an action on a source, as the slots of all sources see it
record IsAction (db db' : IndexDb) (a : Action) (source_id : Uuid) : Type 0 where
  acts : acted a (slots db source_id) ≡ some (slots db' source_id)
  others : (t : Uuid) → t ≢ source_id → slots db' t ≡ slots db t

moved :
    (db db' : IndexDb) (s i at : Uuid) (active previous : Option IndexRun) (target : IndexRun)
    (a : Action)
    → IsMove db.runs s i active previous target
    → db'.runs ≡ map (replaced previous active i at) db.runs
    → acted a (slots db s) ≡ some (some i, run_id_of active)
    → IsAction db db' a s
moved db db' s i at active previous target a m runs acts =
    let is_active = move-active db.runs s i at previous target active m in
    let is_previous = move-previous db.runs s i at previous target active m in
    record {
      acts =
          acts
          ∙ ap some (
              sym (
                ap (λ l. (slot s active_run l, slot s previous_run l)) runs
                ∙ ap₂ (λ x y. (x, y)) is_active is_previous));
      others = λ t n.
          ap (λ l. (slot t active_run l, slot t previous_run l)) runs
          ∙ ap₂ (λ x y. (x, y)) (move-other db.runs s i at previous target active t active_run m n)
              (move-other db.runs s i at previous target active t previous_run m n);
    }

ready_idle :
    (r : IndexRun) → status_beq r.status ready_run ≡ true → status_beq r.status active_run ≡ false
unfolding status_beq status_code
ready_idle r h = ground arith

previous_idle :
    (s : Uuid) (r : IndexRun)
    → has_status s previous_run r ≡ true
    → status_beq r.status active_run ≡ false
unfolding has_status status_beq status_code
previous_idle s r h = ground arith

-- what the queries tell makes a move
move :
    (db : IndexDb) (s run_id : Uuid) (active previous : Option IndexRun) (target : IndexRun)
    → IsIndexDb db
    → locked_run db run_id ≡ some target
    → target.source_profile_id ≡ s
    → status_beq target.status active_run ≡ false
    → unique_status_run db s active_run ≡ ok active
    → unique_status_run db s previous_run ≡ ok previous
    → IsMove db.runs s target.id active previous target
unfolding locked_run
move db s run_id active previous target inv found own idle act prev =
    let (alone, at_id) = found_only run_id db.runs inv.ids_apart found in
    let act_is = unique_status_run-IsUnique db s active_run inv.ids_apart act in
    let prev_is = unique_status_run-IsUnique db s previous_run inv.ids_apart prev in
    record {
      found = subst (λ i. first_match (λ r. r.id == i) db.runs ≡ some target) (sym at_id) found;
      own = own;
      alone = alone;
      idle = idle;
      act = unique-first db s active_run act;
      act_only = act_is.only;
      act_touches = act_is.touches;
      prev_only = prev_is.only;
      prev_touches = prev_is.touches;
    }

abbrev action_of : {db db' : IndexDb} → Transition db db' → Action
action_of (activation_done observed acquired source_key run_id at db' result h) = publish run_id
action_of (rollback_done prepared candidate at db' result h) = restore

Transition-IsAction :
    (db db' : IndexDb) (t : Transition db db')
    → IsIndexDb db
    → (s : Uuid) × IsAction db db' (action_of t) s
unfolding is_target locked_run
Transition-IsAction db last (activation_done observed acquired key run_id at db' result h) inv =
    let a = activate-IsActivation observed acquired db key run_id at h in
    let (own, ready) = &&-split _ _ a.target_ready in
    let own' = (nat_beq_iff a.target.source_profile_id a.source.id).0 own in
    let (_, at_id) = found_only run_id db.runs inv.ids_apart a.target_is in
    let m =
      move db a.source.id run_id a.active a.previous a.target inv a.target_is own'
        (ready_idle a.target ready) a.active_is a.previous_is in
    (
      a.source.id,
      moved db db' a.source.id a.target.id at a.active a.previous a.target (publish run_id) m a.runs
          (ap₂ (λ i o. some (some i, o)) (sym at_id) (ap run_id_of m.act)),
    )
Transition-IsAction db last (rollback_done prepared candidate at db' result h) inv =
    let r = rollback-IsRollback prepared db candidate at h in
    let s = r.source.id in
    let act =
      active_found db (λ x. x.id == candidate.active_run_id) s inv.constraints r.active_is
        r.was_active in
    let prev =
      previous_found db (λ x. x.id == candidate.target_run_id) s inv.constraints r.target_is
        r.was_previous in
    let m =
      move db s candidate.target_run_id (some r.active) (some r.target) r.target inv r.target_is
        (status_source s previous_run r.target r.was_previous)
        (previous_idle s r.target r.was_previous) act prev in
    let before : slots db s ≡ (some r.active.id, some r.target.id) =
      ap₂ (λ x y. (x, y)) (ap run_id_of m.act)
        (ap run_id_of (unique-first db s previous_run prev)) in
    (
      s,
      moved db db' s r.target.id at (some r.active) (some r.target) r.target restore m r.runs
          (ap (acted restore) before),
    )

-- an entry of a log on the slots of a source
abbrev entered : Uuid → Uuid × Action → Option Slots → Option Slots
entered s e none = none
entered s (t, a) (some v) = if nat_beq t s then acted a v else some v

-- a log, the newest entry first, on the slots of a source
abbrev pub replay : Uuid → List (Uuid × Action) → Slots → Option Slots
replay s [] v = some v
replay s (e ∷ log) v = entered s e (replay s log v)

abbrev actions_of : {db db' : IndexDb} → Transitions db db' → List Action
actions_of unchanged = []
actions_of (later middle last before t) = action_of t ∷ actions_of before

entered-IsAction :
    (db db' : IndexDb) (a : Action) (s t : Uuid)
    → IsAction db db' a t
    → entered s (t, a) (some (slots db s)) ≡ some (slots db' s)
entered-IsAction db db' a s t is = elim (Bool-cases (nat_beq t s)) [
  | inl e ↦
      let same = (nat_beq_iff t s).0 e in
      rw e (subst (λ x. acted a (slots db x) ≡ some (slots db' x)) same is.acts)
  | inr e ↦
      let apart : s ≢ t = λ q. true-ne-false (sym ((nat_beq_iff t s).1 (sym q)) ∙ e) in
      rw e (ap some (sym (is.others s apart)))
]

-- Activations and rollbacks implement the slots: for every sequence of them, on tables that keep the
-- invariant, there is a log that enters each one for one source, as a publication of the run that was
-- asked for or as a restoration, and for every source, replaying the log on its active and its
-- previous run gives those that the tables hold in the end.
pub Transitions-replay :
    (db db' : IndexDb) (ts : Transitions db db')
    → IsIndexDb db
    → (log : List (Uuid × Action)) × ((map (λ (e : Uuid × Action). e.1) log ≡ actions_of ts)
        × ((s : Uuid) → replay s log (slots db s) ≡ some (slots db' s)))
Transitions-replay db last unchanged inv = ([], (refl, λ s. refl))
Transitions-replay db last (later middle db' before t) inv =
    let (log, (entries, replays)) = Transitions-replay db middle before inv in
    let (source_id, is) =
      Transition-IsAction middle last t (Transitions-IsIndexDb db middle before inv) in
    (
      (source_id, action_of t) ∷ log,
      (
        ap (λ l. action_of t ∷ l) entries,
        λ s.
            ap (entered s (source_id, action_of t)) (replays s)
            ∙ entered-IsAction middle last (action_of t) s source_id is,
      ),
    )
