-- ===== src/Indexing/Activation/Replaced.antt =====
-- What the writes of infrastructure/database/repository_activation.py make of one run.
use omf_retrieval.Indexing.Activation.{run_id_of}
use omf_retrieval.Indexing.Activation.Pointers.{Touches, names, replaced, replaced-id}
use omf_retrieval.Indexing.Tables.{
  IndexRun, IndexRunStatus, activated, active_run, has_status, previous_run, status_beq,
  status_code, with_status,
}
use omf_retrieval.Prelude.{
  All, Bool-cases, List, Option, [], ap, arith, false, inl, inr, nat_beq, nat_beq_iff, none, refl,
  some, sym, true, true-ne-false, ◌∙◌, ◌∷◌, ◌≡◌, ◌≢◌,
}
use omf_retrieval.Search.Ports.{Uuid}

module _ (s i at : Uuid) where
  pub active_after :
      (active previous : Option IndexRun) (r : IndexRun)
      → (has_status s active_run r ≡ true → names (run_id_of active) r.id ≡ true)
      → has_status s active_run (replaced previous active i at r) ≡ true
      → (replaced previous active i at r).id ≡ i
  unfolding names with_status activated has_status status_beq status_code
  active_after none none r u h =
      ground (arith, nat_beq_iff r.id i, nat_beq_iff r.source_profile_id s)
  active_after none (some x) r u h =
      ground (arith, nat_beq_iff r.id i, nat_beq_iff r.id x.id, nat_beq_iff r.source_profile_id s)
  active_after (some y) none r u h = ground (
    arith,
    nat_beq_iff r.id i,
    nat_beq_iff r.id y.id,
    nat_beq_iff y.id r.id,
    nat_beq_iff r.source_profile_id s,
  )
  active_after (some y) (some x) r u h = ground (
    arith,
    nat_beq_iff r.id i,
    nat_beq_iff r.id x.id,
    nat_beq_iff r.id y.id,
    nat_beq_iff y.id r.id,
    nat_beq_iff r.source_profile_id s,
  )

  pub previous_after :
      (a : IndexRun) (previous : Option IndexRun) (r : IndexRun)
      → (has_status s previous_run r ≡ true → names (run_id_of previous) r.id ≡ true)
      → has_status s previous_run (replaced previous (some a) i at r) ≡ true
      → (replaced previous (some a) i at r).id ≡ a.id
  unfolding names with_status activated has_status status_beq status_code
  previous_after a none r u h =
      ground (arith, nat_beq_iff r.id i, nat_beq_iff r.id a.id, nat_beq_iff r.source_profile_id s)
  previous_after a (some x) r u h = ground (
    arith,
    nat_beq_iff r.id i,
    nat_beq_iff r.id a.id,
    nat_beq_iff r.id x.id,
    nat_beq_iff x.id r.id,
    nat_beq_iff r.source_profile_id s,
  )

  pub previous_gone :
      (previous : Option IndexRun) (r : IndexRun)
      → (has_status s previous_run r ≡ true → names (run_id_of previous) r.id ≡ true)
      → has_status s previous_run (replaced previous none i at r) ≡ false
  unfolding names with_status activated has_status status_beq status_code
  previous_gone none r u = ground (arith, nat_beq_iff r.id i, nat_beq_iff r.source_profile_id s)
  previous_gone (some x) r u = ground (
    arith,
    nat_beq_iff r.id i,
    nat_beq_iff r.id x.id,
    nat_beq_iff x.id r.id,
    nat_beq_iff r.source_profile_id s,
  )

  -- a run of another source is as it was
  untouched :
      (active previous : Option IndexRun) (r : IndexRun)
      → r.source_profile_id ≢ s
      → (r.id ≡ i → r.source_profile_id ≡ s)
      → Touches s active r
      → Touches s previous r
      → replaced previous active i at r ≡ r
  unfolding with_status activated
  untouched none none r n t a p = ground (arith, nat_beq_iff r.id i)
  untouched none (some x) r n t a p = ground (arith, nat_beq_iff r.id i, nat_beq_iff r.id x.id)
  untouched (some y) none r n t a p = ground (arith, nat_beq_iff r.id i, nat_beq_iff r.id y.id)
  untouched (some y) (some x) r n t a p =
      ground (arith, nat_beq_iff r.id i, nat_beq_iff r.id x.id, nat_beq_iff r.id y.id)

  replaced_source :
      (active previous : Option IndexRun) (r : IndexRun)
      → (replaced previous active i at r).source_profile_id ≡ r.source_profile_id
  unfolding with_status activated
  replaced_source none none r = ground arith
  replaced_source none (some x) r = ground arith
  replaced_source (some y) none r = ground arith
  replaced_source (some y) (some x) r = ground arith

  pub active_at :
      (active previous : Option IndexRun) (r : IndexRun)
      → r.id ≡ i
      → r.source_profile_id ≡ s
      → has_status s active_run (replaced previous active i at r) ≡ true
  unfolding with_status activated has_status status_beq status_code
  active_at none none r e own =
      ground (arith, nat_beq_iff r.id i, nat_beq_iff r.source_profile_id s)
  active_at none (some x) r e own =
      ground (arith, nat_beq_iff r.id i, nat_beq_iff r.id x.id, nat_beq_iff r.source_profile_id s)
  active_at (some y) none r e own =
      ground (arith, nat_beq_iff r.id i, nat_beq_iff r.id y.id, nat_beq_iff r.source_profile_id s)
  active_at (some y) (some x) r e own = ground (
    arith,
    nat_beq_iff r.id i,
    nat_beq_iff r.id x.id,
    nat_beq_iff r.id y.id,
    nat_beq_iff r.source_profile_id s,
  )

  pub previous_at :
      (previous : Option IndexRun) (a : IndexRun)
      → a.id ≢ i
      → a.source_profile_id ≡ s
      → has_status s previous_run (replaced previous (some a) i at a) ≡ true
  unfolding with_status activated has_status status_beq status_code
  previous_at none a n own =
      ground (arith, nat_beq_iff a.id i, nat_beq_iff a.id a.id, nat_beq_iff a.source_profile_id s)
  previous_at (some x) a n own = ground (
    arith,
    nat_beq_iff a.id i,
    nat_beq_iff a.id x.id,
    nat_beq_iff a.id a.id,
    nat_beq_iff a.source_profile_id s,
  )

  other_kept :
      (t : Uuid) (status : IndexRunStatus) (active previous : Option IndexRun) (r : IndexRun)
      → t ≢ s
      → (r.id ≡ i → r.source_profile_id ≡ s)
      → Touches s active r
      → Touches s previous r
      → has_status t status (replaced previous active i at r) ≡ has_status t status r
  unfolding has_status
  other_kept t status active previous r n e a p =
      elim (Bool-cases (nat_beq r.source_profile_id s)) [
        | inr h ↦
            let other : r.source_profile_id ≢ s =
              λ own. true-ne-false (sym ((nat_beq_iff r.source_profile_id s).1 own) ∙ h) in
            ap (has_status t status) (untouched active previous r other e a p)
        | inl h ↦
            let own : r.source_profile_id ≡ s = (nat_beq_iff r.source_profile_id s).0 h in
            let off : nat_beq r.source_profile_id t ≡ false =
              ground (arith, nat_beq_iff r.source_profile_id t) in
            rw (replaced_source active previous r, off) refl
      ]

  pub others_kept :
      (t : Uuid) (status : IndexRunStatus) (active previous : Option IndexRun)
      (runs : List IndexRun)
      → t ≢ s
      → All (λ r. r.id ≡ i → r.source_profile_id ≡ s) runs
      → All (Touches s active) runs
      → All (Touches s previous) runs
      → All
          (λ r.
            (has_status t status (replaced previous active i at r) ≡ has_status t status r)
            × ((replaced previous active i at r).id ≡ r.id))
          runs
  others_kept t status active previous [] n e a p = tt
  others_kept t status active previous (r ∷ runs) n e a p = (
    (other_kept t status active previous r n e.0 a.0 p.0, replaced-id previous active i at r),
    others_kept t status active previous runs n e.1 a.1 p.1,
  )
