-- ===== src/Search/Tracing.antt =====
-- Where the decisions of `advance` come from: each promoted candidate is one of the batch, and no gate
-- stops it.
use stateweaver.Common.{
  In-append, ℕ, ◌≡◌, refl, ap, subst, false, some, List, [], ◌∷◌, ◌++◌, ok, arith, inl, inr, ◌⊎◌,
  In, is_empty, Result-cases, Option-cases, Bool-cases,
}
use stateweaver.Common.Dict.{Dict, lookup, insert, lookup-insert, dict_values}
use stateweaver.Search.Budget.{WorldTier, BudgetLedger}
use stateweaver.Search.Models.{BeamSearchPolicy, SearchCandidate, SearchDecision}
use stateweaver.Search.Controller.{Digests, gate_reasons, insert_ranked, ranked, pruned}
use stateweaver.Search.Selection.{is_promote, record_all, canonical_decisions}
use stateweaver.Search.Beam.{
  winner_of, diverse, diverse_order, deduplicate, select, gated, insert_candidate, by_identifier,
}
use stateweaver.Search.Selected.{select_round}

In-insert_candidate :
    (c x : SearchCandidate) (xs : List SearchCandidate)
    → In c (insert_candidate x xs)
    → In c (x ∷ xs)
unfolding insert_candidate
In-insert_candidate c x [] i = i
In-insert_candidate c x (y ∷ ys) i = ground (arith, In-insert_candidate c x ys)

pub In-by_identifier :
    (c : SearchCandidate) (cs : List SearchCandidate) → In c (by_identifier cs) → In c cs
unfolding by_identifier
In-by_identifier c [] i = i
In-by_identifier c (x ∷ xs) i = elim (In-insert_candidate c x (by_identifier xs) i) [
  | inl e ↦ inl e
  | inr j ↦ inr (In-by_identifier c xs j)
]

In-diverse :
    (c : SearchCandidate) (seen : List ℕ) (cs : List SearchCandidate)
    → In c (diverse seen cs).0 ⊎ In c (diverse seen cs).1
    → In c cs
unfolding diverse
In-diverse c seen [] i = ground arith
In-diverse c seen (x ∷ xs) i =
    ground (arith, In-diverse c seen xs, In-diverse c (x.diversity_key ∷ seen) xs)

pub In-diverse_order :
    (c : SearchCandidate) (cs : List SearchCandidate) → In c (diverse_order cs) → In c cs
unfolding diverse_order
In-diverse_order c cs i = In-diverse c [] cs (In-append c (diverse [] cs).0 (diverse [] cs).1 i)

module _ (h : Digests) (p : BeamSearchPolicy) where
  In-insert_ranked :
      (c x : SearchCandidate) (xs : List SearchCandidate)
      → In c (insert_ranked h p x xs)
      → In c (x ∷ xs)
  unfolding insert_ranked
  In-insert_ranked c x [] i = i
  In-insert_ranked c x (y ∷ ys) i = ground (arith, In-insert_ranked c x ys)

  pub In-ranked : (c : SearchCandidate) (cs : List SearchCandidate) → In c (ranked h p cs) → In c cs
  unfolding ranked
  In-ranked c [] i = i
  In-ranked c (x ∷ xs) i = elim (In-insert_ranked c x (ranked h p xs) i) [
    | inl e ↦ inl e
    | inr j ↦ inr (In-ranked c xs j)
  ]

module _ (h : Digests) (p : BeamSearchPolicy) (target : WorldTier) where
  -- What is kept was kept before or is one of the candidates.
  pub In-deduplicate :
      (c : SearchCandidate) (retained cs : List SearchCandidate)
      → In c (deduplicate h p target retained cs).0
      → In c retained ⊎ In c cs
  unfolding deduplicate
  In-deduplicate c retained [] i = inl i
  In-deduplicate c retained (x ∷ xs) i =
      elim (Option-cases (winner_of x.state_fingerprint retained)) [
        | inl e ↦
            ground (arith, In-deduplicate c (retained ++ x ∷ []) xs, In-append c retained (x ∷ []))
        | inr (w, e) ↦ ground (arith, In-deduplicate c retained xs)
      ]

  pub duplicates_pruned :
      (d : SearchDecision) (retained cs : List SearchCandidate)
      → In d (dict_values (deduplicate h p target retained cs).1)
      → is_promote d.disposition ≡ false
  unfolding deduplicate pruned
  duplicates_pruned d retained [] i = absurd i
  duplicates_pruned d retained (x ∷ xs) i =
      elim (Option-cases (winner_of x.state_fingerprint retained)) [
        | inl e ↦ ground (arith, duplicates_pruned d (retained ++ x ∷ []) xs)
        | inr (w, e) ↦ ground (arith, duplicates_pruned d retained xs)
      ]

  pub gated_pruned :
      (d : SearchDecision) (cs : List SearchCandidate)
      → In d (dict_values (gated h p target cs).0)
      → is_promote d.disposition ≡ false
  unfolding gated pruned
  gated_pruned d [] i = absurd i
  gated_pruned d (x ∷ xs) i = ground (arith, gated_pruned d xs)

  -- The eligible candidates are those that no gate stops.
  pub In-gated :
      (c : SearchCandidate) (cs : List SearchCandidate)
      → In c (gated h p target cs).1
      → In c cs × (gate_reasons p c target ≡ [])
  unfolding gated
  In-gated c [] i = absurd i
  In-gated c (x ∷ xs) i = elim (Bool-cases (is_empty (gate_reasons p x target))) [
    | inl e ↦ ground (arith, In-gated c xs)
    | inr e ↦ ground (arith, In-gated c xs)
  ]

  pub In-select :
      (d : SearchDecision) (limit : ℕ) (cs : List SearchCandidate) (l l' : BudgetLedger) (n : ℕ)
      (ds : Dict SearchDecision)
      → select h p target limit cs l n ≡ ok (ds, l')
      → In d (dict_values ds)
      → (c : SearchCandidate) × In c cs × (d.candidate_id ≡ c.candidate_id)
  In-select d limit [] l l' n ds e i = unfold select in absurd (ground arith)
  In-select d limit (c ∷ cs) l l'' n ds e i =
      let (d', l', n', rest, (same_id, how), r, q) =
        select_round h p target limit c cs l l'' n ds e in
      elim (subst (In d) (ap dict_values q) i) [
        | inl f ↦ (c, inl refl, rw f same_id)
        | inr j ↦ let (c', at, f) = In-select d limit cs l' l'' n' rest r j in (c', inr at, f)
      ]

pub lookup-record_all :
    (k : ℕ) (d : SearchDecision) (ds : Dict SearchDecision) (table : Dict SearchDecision)
    → lookup k (record_all ds table) ≡ some d
    → In (k, d) ds ⊎ (lookup k table ≡ some d)
unfolding record_all
lookup-record_all k d [] table e = inr e
lookup-record_all k d ((j, x) ∷ xs) table e =
    ground (arith, lookup-record_all k d xs (insert j x table), lookup-insert k j x table)

pub canonical_round :
    (table : Dict SearchDecision) (c : SearchCandidate) (cs : List SearchCandidate)
    (ds : List SearchDecision)
    → canonical_decisions table (c ∷ cs) ≡ ok ds
    → (d : SearchDecision) × (rest : List SearchDecision) × (lookup c.candidate_id table ≡ some d)
      × (canonical_decisions table cs ≡ ok rest)
      × (ds ≡ d ∷ rest)
unfolding canonical_decisions
canonical_round table c cs ds e = elim (Option-cases (lookup c.candidate_id table)) [
  | inl q ↦ absurd (ground arith)
  | inr (d, q) ↦ elim (Result-cases (canonical_decisions table cs)) [
    | inl (x, r) ↦ absurd (ground arith)
    | inr (rest, r) ↦ (d, rest, q, r, ground arith)
  ]
]

pub In-canonical_decisions :
    (d : SearchDecision) (table : Dict SearchDecision) (cs : List SearchCandidate)
    (ds : List SearchDecision)
    → canonical_decisions table cs ≡ ok ds
    → In d ds
    → (c : SearchCandidate) × In c cs × (lookup c.candidate_id table ≡ some d)
In-canonical_decisions d table [] ds e i = unfold canonical_decisions in absurd (ground arith)
In-canonical_decisions d table (c ∷ cs) ds e i =
    let (d', rest, q, r, f) = canonical_round table c cs ds e in
    elim (subst (In d) f i) [
      | inl g ↦ (c, inl refl, rw g q)
      | inr j ↦ let (c', at, k) = In-canonical_decisions d table cs rest r j in (c', inr at, k)
    ]
