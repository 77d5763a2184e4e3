-- ===== src/Search/Filing.antt =====
-- What the stages of `advance` in controller.py file in `decisions`: a decision for each candidate that leaves
-- the round at the stage, under its identifier.
use stateweaver.Common.{
  ℕ, ◌≡◌, refl, sym, subst, ap, true, some, is_some, List, [], ◌∷◌, ◌++◌, map, ok, arith, inl, inr,
  ◌⊎◌, In, append-In, is_empty, Option-cases, Bool-cases,
}
use mathlib.Core.Path.{ap₂}
use stateweaver.Common.Dict.{Dict, lookup, insert, lookup-insert}
use stateweaver.Search.Budget.{WorldTier, BudgetLedger}
use stateweaver.Search.Models.{BeamSearchPolicy, SearchCandidate, SearchDecision}
use stateweaver.Search.Controller.{Digests, gate_reasons, insert_ranked, ranked, pruned}
use stateweaver.Search.Selection.{record_all, canonical_decisions}
use stateweaver.Search.Beam.{
  winner_of, diverse, diverse_order, deduplicate, select, gated, candidate_ids,
}
use stateweaver.Search.Selected.{select_round}
use stateweaver.Search.Tracing.{canonical_round}

-- The keys of a table.
abbrev pub keys_of : Dict SearchDecision → List ℕ
keys_of [] = []
keys_of ((k, d) ∷ ds) = k ∷ keys_of ds

-- Each decision in the table stands under the candidate that it is about.
abbrev pub Keyed : Dict SearchDecision → Type 0
Keyed [] = Unit
Keyed ((k, d) ∷ ds) = (d.candidate_id ≡ k) × Keyed ds

pub append-Keyed : (ds es : Dict SearchDecision) → Keyed ds → Keyed es → Keyed (ds ++ es)
append-Keyed [] es a b = b
append-Keyed ((k, d) ∷ ds) es a b = (a.0, append-Keyed ds es a.1 b)

pub keys_of-append :
    (k : ℕ) (ds es : Dict SearchDecision)
    → In k (keys_of ds) ⊎ In k (keys_of es)
    → In k (keys_of (ds ++ es))
keys_of-append k [] es i = ground arith
keys_of-append k ((j, d) ∷ ds) es i = ground (arith, keys_of-append k ds es)

insert_ranked-In :
    (h : Digests) (p : BeamSearchPolicy) (c x : SearchCandidate) (xs : List SearchCandidate)
    → In c (x ∷ xs)
    → In c (insert_ranked h p x xs)
unfolding insert_ranked
insert_ranked-In h p c x [] i = i
insert_ranked-In h p c x (y ∷ ys) i = ground (arith, insert_ranked-In h p c x ys)

pub ranked-In :
    (h : Digests) (p : BeamSearchPolicy) (c : SearchCandidate) (cs : List SearchCandidate)
    → In c cs
    → In c (ranked h p cs)
unfolding ranked
ranked-In h p c [] i = i
ranked-In h p c (x ∷ xs) (inl e) = insert_ranked-In h p c x (ranked h p xs) (inl e)
ranked-In h p c (x ∷ xs) (inr i) =
    insert_ranked-In h p c x (ranked h p xs) (inr (ranked-In h p c xs i))

diverse-In :
    (c : SearchCandidate) (seen : List ℕ) (cs : List SearchCandidate)
    → In c cs
    → In c (diverse seen cs).0 ⊎ In c (diverse seen cs).1
unfolding diverse
diverse-In c seen [] i = absurd i
diverse-In c seen (x ∷ xs) i =
    ground (arith, diverse-In c seen xs, diverse-In c (x.diversity_key ∷ seen) xs)

pub diverse_order-In :
    (c : SearchCandidate) (cs : List SearchCandidate) → In c cs → In c (diverse_order cs)
unfolding diverse_order
diverse_order-In c cs i = append-In c (diverse [] cs).0 (diverse [] cs).1 (diverse-In c [] cs i)

module _ (h : Digests) (p : BeamSearchPolicy) (target : WorldTier) where
  -- The gates file a decision for each candidate that they stop.
  pub gated_filed :
      (c : SearchCandidate) (cs : List SearchCandidate)
      → In c cs
      → In c.candidate_id (keys_of (gated h p target cs).0) ⊎ In c (gated h p target cs).1
  unfolding gated
  gated_filed c [] i = absurd i
  gated_filed c (x ∷ xs) i = elim (Bool-cases (is_empty (gate_reasons p x target))) [
    | inl e ↦ ground (arith, gated_filed c xs)
    | inr e ↦ ground (arith, gated_filed c xs)
  ]

  pub gated-Keyed : (cs : List SearchCandidate) → Keyed (gated h p target cs).0
  unfolding gated pruned
  gated-Keyed [] = tt
  gated-Keyed (x ∷ xs) = elim (Bool-cases (is_empty (gate_reasons p x target))) [
    | inl e ↦ ground (arith, gated-Keyed xs)
    | inr e ↦ ground (arith, gated-Keyed xs)
  ]

  -- The deduplication files a decision for each candidate that it does not keep.
  pub deduplicate_filed :
      (c : SearchCandidate) (retained cs : List SearchCandidate)
      → In c retained ⊎ In c cs
      → In c.candidate_id (keys_of (deduplicate h p target retained cs).1)
        ⊎ In c (deduplicate h p target retained cs).0
  unfolding deduplicate
  deduplicate_filed c retained [] i = ground arith
  deduplicate_filed c retained (x ∷ xs) i =
      elim (Option-cases (winner_of x.state_fingerprint retained)) [
        | inl e ↦
            ground
              (arith, deduplicate_filed c (retained ++ x ∷ []) xs, append-In c retained (x ∷ []))
        | inr (w, e) ↦ ground (arith, deduplicate_filed c retained xs)
      ]

  pub deduplicate-Keyed :
      (retained cs : List SearchCandidate) → Keyed (deduplicate h p target retained cs).1
  unfolding deduplicate pruned
  deduplicate-Keyed retained [] = tt
  deduplicate-Keyed retained (x ∷ xs) =
      elim (Option-cases (winner_of x.state_fingerprint retained)) [
        | inl e ↦ ground (arith, deduplicate-Keyed (retained ++ x ∷ []) xs)
        | inr (w, e) ↦ ground (arith, deduplicate-Keyed retained xs)
      ]

  -- The selection files a decision for each candidate that is left.
  pub select_filed :
      (limit : ℕ) (c : SearchCandidate) (cs : List SearchCandidate) (l l' : BudgetLedger) (n : ℕ)
      (ds : Dict SearchDecision)
      → select h p target limit cs l n ≡ ok (ds, l')
      → In c cs
      → In c.candidate_id (keys_of ds)
  select_filed limit c [] l l' n ds e i = absurd i
  select_filed limit c (x ∷ xs) l l'' n ds e i =
      let (d, l', n', rest, _, r, q) = select_round h p target limit x xs l l'' n ds e in
      subst (λ t. In c.candidate_id (keys_of t)) (sym q)
        (elim i [
          | inl f ↦ inl (ap (λ (y : SearchCandidate). y.candidate_id) f)
          | inr j ↦ inr (select_filed limit c xs l' l'' n' rest r j)
        ])

  pub select-Keyed :
      (limit : ℕ) (cs : List SearchCandidate) (l l' : BudgetLedger) (n : ℕ)
      (ds : Dict SearchDecision)
      → select h p target limit cs l n ≡ ok (ds, l')
      → Keyed ds
  select-Keyed limit [] l l' n ds e = unfold select in ground arith
  select-Keyed limit (x ∷ xs) l l'' n ds e =
      let (d, l', n', rest, (same_id, _), r, q) = select_round h p target limit x xs l l'' n ds e in
      subst Keyed (sym q) (same_id, select-Keyed limit xs l' l'' n' rest r)

-- A key that is filed is found.
pub record_all_finds :
    (k : ℕ) (ds table : Dict SearchDecision)
    → In k (keys_of ds) ⊎ (is_some (lookup k table) ≡ true)
    → is_some (lookup k (record_all ds table)) ≡ true
unfolding record_all
record_all_finds k [] table (inl i) = absurd i
record_all_finds k [] table (inr e) = e
record_all_finds k ((j, d) ∷ ds) table s = record_all_finds k ds (insert j d table) (elim s [
  | inl (inl q) ↦ inr (ground (arith, lookup-insert k j d table))
  | inl (inr i) ↦ inl i
  | inr e ↦ inr (ground (arith, lookup-insert k j d table))
])

-- What is found stands under the candidate that it is about.
pub record_all-Keyed :
    (ds table : Dict SearchDecision)
    → Keyed ds
    → ((k : ℕ) (d : SearchDecision) → lookup k table ≡ some d → d.candidate_id ≡ k)
    → (k : ℕ) (d : SearchDecision) → lookup k (record_all ds table) ≡ some d
    → d.candidate_id ≡ k
unfolding record_all
record_all-Keyed [] table a b = b
record_all-Keyed ((j, x) ∷ ds) table a b =
    record_all-Keyed ds (insert j x table) a.1
      λ k d e. ground (arith, lookup-insert k j x table, b k d)

pub canonical_decisions_total :
    (table : Dict SearchDecision) (cs : List SearchCandidate)
    → ((c : SearchCandidate) → In c cs → is_some (lookup c.candidate_id table) ≡ true)
    → (ds : List SearchDecision) × (canonical_decisions table cs ≡ ok ds)
unfolding canonical_decisions
canonical_decisions_total table [] f = ([], refl)
canonical_decisions_total table (c ∷ cs) f =
    let (ds, e) = canonical_decisions_total table cs (λ x i. f x (inr i)) in
    elim (Option-cases (lookup c.candidate_id table)) [
      | inl q ↦ absurd (ground (arith, f c (inl refl)))
      | inr (d, q) ↦ (d ∷ ds, ground arith)
    ]

pub canonical_decisions-ids :
    (table : Dict SearchDecision) (cs : List SearchCandidate) (ds : List SearchDecision)
    → ((k : ℕ) (d : SearchDecision) → lookup k table ≡ some d → d.candidate_id ≡ k)
    → canonical_decisions table cs ≡ ok ds
    → map (λ d. d.candidate_id) ds ≡ candidate_ids cs
canonical_decisions-ids table [] ds h e = unfold canonical_decisions in ground arith
canonical_decisions-ids table (c ∷ cs) ds h e =
    let (d, rest, q, r, f) = canonical_round table c cs ds e in
    rw f (ap₂ (λ x xs. x ∷ xs) (h c.candidate_id d q) (canonical_decisions-ids table cs rest h r))
