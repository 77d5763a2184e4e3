-- ===== src/Search/Ordering.antt =====
-- The order of a batch: `by_identifier` of Search.Beam, the sorting in `candidates_are_unique` of
-- packages/search/src/stateweaver/search/models.py.
use stateweaver.Common.{
  ℕ, ◌<◌, ◌≡◌, refl, true, Bool-cases, List, [], ◌∷◌, arith, inl, inr, In, Distinct, All, leb,
  unique, unique_iff,
}
use stateweaver.Common.Perms.{In-Perm, map-Perm}
use mathlib.Core.List.{Permᴰ}
use mathlib.Core.List.Permᴰ
use stateweaver.Search.Models.{SearchCandidate}
use stateweaver.Search.Beam.{candidate_ids, insert_candidate, by_identifier}
use stateweaver.Search.Selection.{ordered}

-- Each identifier is less than all that follow it.
abbrev pub Ascending : List ℕ → Type 0
Ascending [] = Unit
Ascending (k ∷ ks) = (All (λ j. k < j) ks) × Ascending ks

insert_candidate-Perm :
    (c : SearchCandidate) (xs : List SearchCandidate) → Permᴰ (insert_candidate c xs) (c ∷ xs)
unfolding insert_candidate
insert_candidate-Perm c [] = Permᴰ.refl (c ∷ [])
insert_candidate-Perm c (x ∷ xs) = elim (Bool-cases (leb c.candidate_id x.candidate_id)) [
  | inl e ↦ rw e (Permᴰ.refl (c ∷ x ∷ xs))
  | inr e ↦ rw e (Permᴰ.trans (Permᴰ.cons refl (insert_candidate-Perm c xs)) (Permᴰ.swap refl refl))
]

pub by_identifier-Perm : (cs : List SearchCandidate) → Permᴰ (by_identifier cs) cs
unfolding by_identifier
by_identifier-Perm [] = Permᴰ.nil
by_identifier-Perm (c ∷ cs) =
    Permᴰ.trans (insert_candidate-Perm c (by_identifier cs))
      (Permᴰ.cons refl (by_identifier-Perm cs))

above : (k l : ℕ) (ks : List ℕ) → k < l → All (λ j. l < j) ks → All (λ j. k < j) ks
above k l [] e a = tt
above k l (j ∷ ks) e a = ground (arith, above k l ks)

insert_above :
    (k : ℕ) (c : SearchCandidate) (xs : List SearchCandidate)
    → k < c.candidate_id
    → All (λ j. k < j) (candidate_ids xs)
    → All (λ j. k < j) (candidate_ids (insert_candidate c xs))
unfolding insert_candidate
insert_above k c [] e a = ground arith
insert_above k c (x ∷ xs) e a = ground (arith, insert_above k c xs)

insert_candidate-Ascending :
    (c : SearchCandidate) (xs : List SearchCandidate)
    → ¬ (In c.candidate_id (candidate_ids xs))
    → Ascending (candidate_ids xs)
    → Ascending (candidate_ids (insert_candidate c xs))
unfolding insert_candidate
insert_candidate-Ascending c [] n a = ground arith
insert_candidate-Ascending c (x ∷ xs) n a = ground (
  arith,
  insert_candidate-Ascending c xs,
  insert_above x.candidate_id c xs,
  above c.candidate_id x.candidate_id (candidate_ids xs),
)

pub by_identifier-Ascending :
    (cs : List SearchCandidate)
    → Distinct (candidate_ids cs)
    → Ascending (candidate_ids (by_identifier cs))
unfolding by_identifier
by_identifier-Ascending [] d = tt
by_identifier-Ascending (c ∷ cs) (n, d) =
    insert_candidate-Ascending c (by_identifier cs)
      (λ i. n (
        In-Perm c.candidate_id
          (map-Perm (λ (x : SearchCandidate). x.candidate_id) (by_identifier-Perm cs)) i))
      (by_identifier-Ascending cs d)

pub Ascending-ordered : (ks : List ℕ) → Ascending ks → ordered ks ≡ true
unfolding ordered
Ascending-ordered [] a = refl
Ascending-ordered (k ∷ []) a = refl
Ascending-ordered (k ∷ l ∷ ks) a = ground (arith, Ascending-ordered (l ∷ ks))

above_apart : (k : ℕ) (ks : List ℕ) → All (λ j. k < j) ks → ¬ (In k ks)
above_apart k [] a i = i
above_apart k (j ∷ ks) a i = ground (arith, above_apart k ks)

Ascending-Distinct : (ks : List ℕ) → Ascending ks → Distinct ks
Ascending-Distinct [] a = tt
Ascending-Distinct (k ∷ ks) a = (above_apart k ks a.0, Ascending-Distinct ks a.1)

pub Ascending-unique : (ks : List ℕ) → Ascending ks → unique ks ≡ true
Ascending-unique ks a = (unique_iff ks).1 (Ascending-Distinct ks a)
