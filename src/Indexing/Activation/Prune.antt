-- ===== src/Indexing/Activation/Prune.antt =====
-- Which contents the garbage collection of infrastructure/database/repository_activation.py deletes.
use mathlib.Core.Logic.Or
use mathlib.Core.List.{Mem, mem-cons, mem-cons_of_mem, mem-cons_self, not-mem-nil}
use mathlib.Core.Logic.{∥∥₁_elim, ∥∥₁_map}
use mathlib.Core.Path.{subst}
use omf_retrieval.Indexing.Activation.{delete_batch, delete_batches, is_kept}
use omf_retrieval.Indexing.Tables.{IndexDb}
use omf_retrieval.Prelude.{
  Bool, Bool-cases, List, [], any, ap, arith, contains, drop, inl, inr, keep, length, nat_beq,
  nat_beq_iff, nat_eq, refl, suc, sym, take, take-append-drop, true, zero, ℕ, ◌&&◌, ◌++◌, ◌<◌, ◌==◌,
  ◌||◌, ◌↔◌, ◌∙◌, ◌∷◌, ◌≡◌, ◌≤◌,
}
use omf_retrieval.Prelude.Members.{Bool-set, Mem-contains, Mem-keep, contains-Mem, keep-Mem}
use omf_retrieval.Search.Ports.{Uuid}

keep-keep : (p q : Uuid → Bool) (xs : List Uuid) → keep p (keep q xs) ≡ keep (λ x. q x && p x) xs
unfolding keep
keep-keep p q [] = refl
keep-keep p q (x ∷ xs) = elim (Bool-cases (q x)) [
  | inl e ↦ elim (Bool-cases (p x)) [
    | inl f ↦ rw (e, keep) (rw (f, keep) (ap (λ l. x ∷ l) (keep-keep p q xs)))
    | inr f ↦ rw (e, keep) (rw (f, keep) (keep-keep p q xs))
  ]
  | inr e ↦ rw (e, keep) (keep-keep p q xs)
]

keep_ext : (p q : Uuid → Bool) (xs : List Uuid) → ((x : Uuid) → p x ≡ q x) → keep p xs ≡ keep q xs
unfolding keep
keep_ext p q [] h = refl
keep_ext p q (x ∷ xs) h = ground (arith, h x, keep_ext p q xs h)

keep-true : (xs : List Uuid) → keep (λ x. true) xs ≡ xs
unfolding keep
keep-true [] = refl
keep-true (x ∷ xs) = ap (λ l. x ∷ l) (keep-true xs)

contains-append :
    (xs ys : List Uuid) (c : Uuid) → contains (xs ++ ys) c ≡ (contains xs c || contains ys c)
unfolding contains
contains-append [] ys c = refl
contains-append (x ∷ xs) ys c = ground (arith, contains-append xs ys c)

is_kept-append :
    (occurrences : List (Uuid × Uuid)) (xs ys : List Uuid) (c : Uuid)
    → is_kept occurrences (xs ++ ys) c ≡ (is_kept occurrences xs c && is_kept occurrences ys c)
unfolding is_kept
is_kept-append occurrences xs ys c = ground (arith, contains-append xs ys c)

length-drop-le : (n : ℕ) (xs : List Uuid) → length (drop n xs) ≤ length xs
unfolding drop
length-drop-le zero xs = omega arith
length-drop-le (suc n) [] = omega arith
length-drop-le (suc n) (x ∷ xs) = omega (arith, length-drop-le n xs)

kept_without : (db : IndexDb) → keep (is_kept db.occurrences []) db.contents ≡ db.contents
unfolding is_kept contains
kept_without db =
    keep_ext (is_kept db.occurrences []) (λ c. true) db.contents (λ c. refl) ∙ keep-true db.contents

-- deleting in batches, of whatever size, deletes what one deletion does
delete_batches-eq_keep :
    (size n : ℕ) (ids : List Uuid) (db : IndexDb)
    → 0 < size
    → length ids ≤ n
    → (delete_batches size n ids db).contents ≡ keep (is_kept db.occurrences ids) db.contents
unfolding delete_batches delete_batch
delete_batches-eq_keep size zero [] db allowed h = sym (kept_without db)
delete_batches-eq_keep size zero (i ∷ ids) db allowed h = absurd (omega arith)
delete_batches-eq_keep size (suc n) [] db allowed h = sym (kept_without db)
delete_batches-eq_keep zero (suc n) (i ∷ ids) db allowed h = absurd (omega arith)
delete_batches-eq_keep (suc size) (suc n) (i ∷ ids) db allowed h =
    let batch = take (suc size) (i ∷ ids) in
    let left = drop (suc size) (i ∷ ids) in
    let shorter : length left ≤ n = omega (arith, length-drop-le size ids) in
    delete_batches-eq_keep (suc size) n left (delete_batch batch db) allowed shorter
    ∙ keep-keep (is_kept db.occurrences left) (is_kept db.occurrences batch) db.contents
    ∙ keep_ext (λ c. is_kept db.occurrences batch c && is_kept db.occurrences left c)
        (is_kept db.occurrences (i ∷ ids)) db.contents
        (λ c.
          sym (is_kept-append db.occurrences batch left c)
          ∙ ap (λ l. is_kept db.occurrences l c) (take-append-drop (suc size) (i ∷ ids)))

-- some occurrence refers to the content
abbrev pub IsReferred : IndexDb → Uuid → Type 0
IsReferred db c = ∥ ((run : Uuid) × Mem (run, c) db.occurrences) ∥₁

any-Mem :
    (os : List (Uuid × Uuid)) (c : Uuid)
    → any (λ o. o.1 == c) os ≡ true
    → ∥ ((run : Uuid) × Mem (run, c) os) ∥₁
unfolding any
any-Mem [] c h = cc
any-Mem (o ∷ os) c h = elim (Bool-cases (nat_beq o.1 c)) [
  | inl same ↦
      ∣ (o.0, subst (λ z. Mem (o.0, z) (o ∷ os)) ((nat_beq_iff o.1 c).0 same) mem-cons_self) ∣₁
  | inr other ↦ ∥∥₁_map (any-Mem os c (ground arith)) (λ (run, m). (run, mem-cons_of_mem o m))
]

Mem-any : (os : List (Uuid × Uuid)) (run c : Uuid) → Mem (run, c) os → any (λ o. o.1 == c) os ≡ true
unfolding any
Mem-any [] run c m = absurd (not-mem-nil m)
Mem-any (o ∷ os) run c m =
    Or.elim (Bool-set (any (λ o. o.1 == c) (o ∷ os)) true) ((mem-cons {l = os}).0 m)
      (λ p.
        let same : c ≡ o.1 = ap (λ (z : Uuid × Uuid). z.1) p in ground (arith, nat_beq_iff o.1 c))
      (λ q. ground (arith, Mem-any os run c q))

is_kept_iff :
    (db : IndexDb) (ids : List Uuid) (c : Uuid)
    → (is_kept db.occurrences ids c ≡ true) ↔ (Mem c ids → IsReferred db c)
unfolding is_kept
is_kept_iff db ids c = (
  λ h m. any-Mem db.occurrences c (ground (arith, Mem-contains ids c m)),
  λ f. elim (Bool-cases (contains ids c)) [
    | inr e ↦ ground arith
    | inl e ↦
        let referred : any (λ o. o.1 == c) db.occurrences ≡ true =
          ∥∥₁_elim (f (contains-Mem ids c e)) (Bool-set _ _)
            (λ (run, m). Mem-any db.occurrences run c m) in
        ground arith
  ],
)

delete_batches_only :
    (size n : ℕ) (ids : List Uuid) (db : IndexDb)
    → delete_batches size n ids db
      ≡ record db { contents = (delete_batches size n ids db).contents }
unfolding delete_batches delete_batch
delete_batches_only size zero ids db = refl
delete_batches_only size (suc n) [] db = refl
delete_batches_only size (suc n) (i ∷ ids) db =
    delete_batches_only size n (drop size (i ∷ ids)) (delete_batch (take size (i ∷ ids)) db)

contents_iff :
    (size n : ℕ) (ids : List Uuid) (db : IndexDb)
    → 0 < size
    → length ids ≤ n
    → (c : Uuid)
    → Mem c (delete_batches size n ids db).contents
      ↔ (Mem c db.contents × (Mem c ids → IsReferred db c))
contents_iff size n ids db allowed enough c =
    let kept = is_kept db.occurrences ids in
    subst (λ l. Mem c l ↔ (Mem c db.contents × (Mem c ids → IsReferred db c)))
      (sym (delete_batches-eq_keep size n ids db allowed enough))
      (
        λ m.
            let (there, passes) = keep-Mem kept c db.contents m in
            (there, (is_kept_iff db ids c).0 passes),
        λ (there, f). Mem-keep kept c db.contents there ((is_kept_iff db ids c).1 f),
      )

-- After deleting in batches, of whatever size, a content is there exactly if it was there and is
-- none of the candidates, or some occurrence refers to it; and nothing but the contents changes.
pub delete_batches-lem :
    (size n : ℕ) (ids : List Uuid) (db : IndexDb)
    → 0 < size
    → length ids ≤ n
    → ((c : Uuid)
        → Mem c (delete_batches size n ids db).contents
          ↔ (Mem c db.contents × (Mem c ids → IsReferred db c)))
      × (delete_batches size n ids db
          ≡ record db { contents = (delete_batches size n ids db).contents })
delete_batches-lem size n ids db allowed enough =
    (contents_iff size n ids db allowed enough, delete_batches_only size n ids db)
