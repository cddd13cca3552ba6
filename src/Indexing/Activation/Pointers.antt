-- ===== src/Indexing/Activation/Pointers.antt =====
-- The pointers of the sources and the change of the runs that an activation makes
-- (infrastructure/database/repository_activation.py).
use mathlib.Core.Path.{ap₂}
use omf_retrieval.Indexing.Activation.{run_id_of}
use omf_retrieval.Indexing.Tables.{
  IndexDb, IndexRun, SourceProfile, activated, active_run, archived_run, has_status, pointed,
  previous_run, satisfies, status_beq, status_code, with_status,
}
use omf_retrieval.Prelude.{
  All, All-imp, Bool, List, Option, [], arith, false, map, nat_beq, nat_beq_iff, none, refl, some,
  true, ℕ, ◌∷◌, ◌≡◌,
}
use omf_retrieval.Prelude.Dict.{IsDistinct}
use omf_retrieval.Search.Ports.{Uuid}

-- a pointer names a run
unfoldable pub names : Option Uuid → Uuid → Bool
names none run_id = false
names (some i) run_id = nat_beq i run_id

-- of a source's runs, the active one is the one that its pointer names
abbrev pub Agrees : SourceProfile → IndexRun → Type 0
Agrees s r =
    r.source_profile_id ≡ s.id → status_beq r.status active_run ≡ names s.active_index_run_id r.id

abbrev pub AgreesAll : List IndexRun → SourceProfile → Type 0
AgreesAll runs s = All (Agrees s) runs

abbrev pub run_ids : List IndexRun → List Uuid
run_ids = map (λ r. r.id)

-- runs have their own identifiers, the pointers name the active runs, and no source has two active
-- or two previous runs
pub record IsIndexDb (db : IndexDb) : Type 0 where
  pub ids_apart : IsDistinct (run_ids db.runs)
  pub pointers : All (AgreesAll db.runs) db.profiles
  pub constraints : satisfies db.runs ≡ true

abbrev pub archived : Option IndexRun → IndexRun → IndexRun
archived none r = r
archived (some p) r = with_status p.id archived_run r

abbrev pub demoted : Option IndexRun → IndexRun → IndexRun
demoted none r = r
demoted (some a) r = with_status a.id previous_run r

-- what an activation does to a run
abbrev pub replaced : Option IndexRun → Option IndexRun → Uuid → ℕ → IndexRun → IndexRun
replaced previous active run_id at r = activated run_id at (demoted active (archived previous r))

-- the run belongs to the source if it is the one named
abbrev pub Touches : Uuid → Option IndexRun → IndexRun → Type 0
Touches source_id none r = Unit
Touches source_id (some a) r = r.id ≡ a.id → r.source_profile_id ≡ source_id

Agrees-pointed :
    (source_id run_id at : Uuid) (active previous : Option IndexRun) (s : SourceProfile)
    (r : IndexRun)
    → Agrees s r
    → (r.id ≡ run_id → r.source_profile_id ≡ source_id)
    → Touches source_id active r
    → Touches source_id previous r
    → (has_status source_id active_run r ≡ true → names (run_id_of active) r.id ≡ true)
    → Agrees (pointed source_id run_id s) (replaced previous active run_id at r)
unfolding names with_status activated pointed has_status status_beq status_code
Agrees-pointed source_id run_id at none none s r h t a p u = ground (
  arith,
  nat_beq_iff r.id run_id,
  nat_beq_iff s.id source_id,
  nat_beq_iff run_id r.id,
  nat_beq_iff r.source_profile_id source_id,
)
Agrees-pointed source_id run_id at none (some x) s r h t a p u = ground (
  arith,
  nat_beq_iff r.id run_id,
  nat_beq_iff s.id source_id,
  nat_beq_iff run_id r.id,
  nat_beq_iff r.source_profile_id source_id,
  nat_beq_iff r.id x.id,
)
Agrees-pointed source_id run_id at (some y) none s r h t a p u = ground (
  arith,
  nat_beq_iff r.id run_id,
  nat_beq_iff s.id source_id,
  nat_beq_iff run_id r.id,
  nat_beq_iff r.source_profile_id source_id,
  nat_beq_iff r.id y.id,
  nat_beq_iff y.id r.id,
)
Agrees-pointed source_id run_id at (some y) (some x) s r h t a p u = ground (
  arith,
  nat_beq_iff r.id run_id,
  nat_beq_iff s.id source_id,
  nat_beq_iff run_id r.id,
  nat_beq_iff r.source_profile_id source_id,
  nat_beq_iff r.id x.id,
  nat_beq_iff r.id y.id,
  nat_beq_iff y.id r.id,
)

module _ {ℓ κ} {A : Type ℓ} where
  All-map :
      {B : Type ℓ} (P : B → Type κ) (f : A → B) (xs : List A)
      → All (λ x. P (f x)) xs
      → All P (map f xs)
  All-map P f [] a = tt
  All-map P f (x ∷ xs) (p, a) = (p, All-map P f xs a)

pub replaced-id :
    (previous active : Option IndexRun) (i at : Uuid) (r : IndexRun)
    → (replaced previous active i at r).id ≡ r.id
unfolding with_status activated
replaced-id none none i at r = ground arith
replaced-id none (some a) i at r = ground arith
replaced-id (some p) none i at r = ground arith
replaced-id (some p) (some a) i at r = ground arith

pub run_ids-replaced :
    (previous active : Option IndexRun) (i at : Uuid) (runs : List IndexRun)
    → run_ids (map (replaced previous active i at) runs) ≡ run_ids runs
run_ids-replaced previous active i at [] = refl
run_ids-replaced previous active i at (r ∷ runs) =
    ap₂ ◌∷◌ (replaced-id previous active i at r) (run_ids-replaced previous active i at runs)

-- an activation keeps the pointers right
pub AgreesAll-replaced :
    (runs : List IndexRun) (profiles : List SourceProfile) (source_id i at : Uuid)
    (active previous : Option IndexRun)
    → All (AgreesAll runs) profiles
    → All (λ r. r.id ≡ i → r.source_profile_id ≡ source_id) runs
    → All (Touches source_id active) runs
    → All (Touches source_id previous) runs
    → All
        (λ r. has_status source_id active_run r ≡ true → names (run_id_of active) r.id ≡ true)
        runs
    → All
        (AgreesAll (map (replaced previous active i at) runs))
        (map (pointed source_id i) profiles)
AgreesAll-replaced runs profiles source_id i at active previous each t a p u =
    All-map (AgreesAll (map (replaced previous active i at) runs)) (pointed source_id i) profiles (
      All-imp (AgreesAll runs)
        (λ s. AgreesAll (map (replaced previous active i at) runs) (pointed source_id i s))
        (λ s agrees.
          All-map (Agrees (pointed source_id i s)) (replaced previous active i at) runs
            (at_source s runs agrees t a p u))
        profiles each)
  where
    at_source :
        (s : SourceProfile) (l : List IndexRun)
        → All (Agrees s) l
        → All (λ r. r.id ≡ i → r.source_profile_id ≡ source_id) l
        → All (Touches source_id active) l
        → All (Touches source_id previous) l
        → All
            (λ r. has_status source_id active_run r ≡ true → names (run_id_of active) r.id ≡ true)
            l
        → All (λ r. Agrees (pointed source_id i s) (replaced previous active i at r)) l
    at_source s [] h x y z w = tt
    at_source s (r ∷ l) h x y z w = (
      Agrees-pointed source_id i at active previous s r h.0 x.0 y.0 z.0 w.0,
      at_source s l h.1 x.1 y.1 z.1 w.1,
    )
