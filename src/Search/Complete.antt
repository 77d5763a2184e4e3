-- ===== src/Search/Complete.antt =====
-- How a call of `advance` in controller.py ends: with a decision for each candidate, or with an error of its input.
use stateweaver.Common.{
  ℕ, ◌≡◌, ◌≢◌, sym, subst, some, List, [], ◌∷◌, ◌++◌, map, arith, inl, inr, In, Result, ok, err,
  Result-cases, unique_iff,
}
use mathlib.Core.List.{Permᴰ}
use stateweaver.Common.Perms.{map-Perm}
use stateweaver.Common.Dict.{Dict, lookup}
use stateweaver.Search.Budget.{WorldTier, BudgetLedger, reserve, validate_ledger}
use stateweaver.Search.Budget.Spending.{validate_ledger_same}
use stateweaver.Search.Models.{BeamSearchPolicy, SearchCandidate, SearchDecision}
use stateweaver.Search.Controller.{Digests}
use stateweaver.Search.Selection.{
  SearchResult, record_all, decide_all, validate_result, advance, promoted_ids,
}
use stateweaver.Search.Beam.{
  SearchError, ledger_error, key_error, not_canonical, deduplicate, select_one, select, gated,
  candidate_ids, by_identifier, validate_batch,
}
use stateweaver.Search.Stages.{
  eligible, beam, filed_by, nothing_filed, decide_all-Chain, advance-Stages,
}
use stateweaver.Search.Ordering.{
  Ascending, by_identifier-Perm, by_identifier-Ascending, Ascending-ordered, Ascending-unique,
}
use stateweaver.Search.Batches.{source_open, batch_inv, tiers_total}
use stateweaver.Search.Filing.{
  keys_of, append-Keyed, keys_of-append, ranked-In, diverse_order-In, gated_filed, gated-Keyed,
  deduplicate_filed, deduplicate-Keyed, select_filed, select-Keyed, record_all_finds,
  record_all-Keyed, canonical_decisions_total, canonical_decisions-ids,
}

-- The identifiers that the decisions of a result are about.
abbrev pub decided_ids : SearchResult → List ℕ
decided_ids r = map (λ d. d.candidate_id) r.decisions

-- No decision was missing, and none stood out of order.
abbrev pub IsOfInput : SearchError → Type 0
IsOfInput x = (x ≢ key_error) × (x ≢ not_canonical)

-- The decisions are about the candidates, each one once, in the order of identifiers.
abbrev pub Decides : List SearchCandidate → Result SearchError SearchResult → Type 0
Decides cs (err x) = IsOfInput x
Decides cs (ok r) = Permᴰ (decided_ids r) (candidate_ids cs) × Ascending (decided_ids r)

module _ (h : Digests) (p : BeamSearchPolicy) (target : WorldTier) (limit : ℕ) where
  select_one_fails :
      (c : SearchCandidate) (l : BudgetLedger) (n : ℕ) (x : SearchError)
      → select_one h p target limit c l n ≡ err x
      → IsOfInput x
  unfolding select_one
  select_one_fails c l n x e =
      elim (Result-cases (reserve h.reservation_id l c.candidate_id target c.promotion_cost)) [
        | inl (y, q) ↦ ground arith
        | inr (m, q) ↦ ground arith
      ]

  select_fails :
      (cs : List SearchCandidate) (l : BudgetLedger) (n : ℕ) (x : SearchError)
      → select h p target limit cs l n ≡ err x
      → IsOfInput x
  unfolding select
  select_fails [] l n x e = absurd (ground arith)
  select_fails (c ∷ cs) l n x e = elim (Result-cases (select_one h p target limit c l n)) [
    | inl (y, q) ↦ subst IsOfInput (let s : y ≡ x = ground arith in s) (select_one_fails c l n y q)
    | inr ((d, l', n'), q) ↦ elim (Result-cases (select h p target limit cs l' n')) [
      | inl (y, r) ↦ subst IsOfInput (let s : y ≡ x = ground arith in s) (select_fails cs l' n' y r)
      | inr (z, r) ↦ absurd (ground arith)
    ]
  ]

module _ (h : Digests) (p : BeamSearchPolicy) (cs : List SearchCandidate)
    (ledger : BudgetLedger) where
  -- Each candidate of the batch is filed by one of the stages.
  pub every_filed :
      (target : WorldTier) (limit : ℕ) (chosen : Dict SearchDecision) (l : BudgetLedger)
      → select h p target limit (beam h p cs ledger target) ledger 0 ≡ ok (chosen, l)
      → (c : SearchCandidate) → In c (by_identifier cs)
      → In c.candidate_id (keys_of (filed_by h p cs ledger target chosen))
  every_filed target limit chosen l e c i =
      let stopped = (gated h p target (by_identifier cs)).0 in
      let split = deduplicate h p target [] (eligible h p cs ledger target) in
      keys_of-append c.candidate_id stopped (split.1 ++ chosen)
        (elim (gated_filed h p target c (by_identifier cs) i) [
          | inl j ↦ inl j
          | inr j ↦ inr (
              keys_of-append c.candidate_id split.1 chosen
                (elim (deduplicate_filed h p target c [] (eligible h p cs ledger target)
                  (inr (ranked-In h p c (gated h p target (by_identifier cs)).1 j))) [
                    | inl k ↦ inl k
                    | inr k ↦ inr (
                        select_filed h p target limit c (beam h p cs ledger target) ledger l 0
                          chosen e (diverse_order-In c split.0 k))
                  ]))
        ])

  filed-Keyed :
      (target : WorldTier) (limit : ℕ) (chosen : Dict SearchDecision) (l : BudgetLedger)
      → select h p target limit (beam h p cs ledger target) ledger 0 ≡ ok (chosen, l)
      → (k : ℕ) (d : SearchDecision)
      → lookup k (record_all (filed_by h p cs ledger target chosen) []) ≡ some d
      → d.candidate_id ≡ k
  filed-Keyed target limit chosen l e =
      let split = deduplicate h p target [] (eligible h p cs ledger target) in
      record_all-Keyed (filed_by h p cs ledger target chosen) []
        (append-Keyed (gated h p target (by_identifier cs)).0 (split.1 ++ chosen)
          (gated-Keyed h p target (by_identifier cs))
          (append-Keyed split.1 chosen
            (deduplicate-Keyed h p target [] (eligible h p cs ledger target))
            (select-Keyed h p target limit (beam h p cs ledger target) ledger l 0 chosen e)))
        (λ k d q. absurd (nothing_filed k d q))

  decide_all_fails :
      (target : WorldTier) (limit : ℕ) (x : SearchError)
      → decide_all h p target limit (by_identifier cs) ledger ≡ err x
      → IsOfInput x
  unfolding decide_all
  decide_all_fails target limit x e =
      elim (Result-cases (select h p target limit (beam h p cs ledger target) ledger 0)) [
        | inl (y, q) ↦
            subst IsOfInput (let s : y ≡ x = ground arith in s)
              (select_fails h p target limit (beam h p cs ledger target) ledger 0 y q)
        | inr ((chosen, l), q) ↦
            let (ds, f) =
              canonical_decisions_total (record_all (filed_by h p cs ledger target chosen) [])
                (by_identifier cs)
                (λ c i.
                  record_all_finds c.candidate_id (filed_by h p cs ledger target chosen) []
                    (inl (every_filed target limit chosen l q c i))) in
            absurd (ground arith)
      ]

  pub decide_all-ids :
      (target : WorldTier) (limit : ℕ) (ds : List SearchDecision) (l : BudgetLedger)
      → decide_all h p target limit (by_identifier cs) ledger ≡ ok (ds, l)
      → map (λ d. d.candidate_id) ds ≡ candidate_ids (by_identifier cs)
  decide_all-ids target limit ds l e =
      let k = decide_all-Chain h p cs ledger target limit ds l e in
      canonical_decisions-ids (record_all (filed_by h p cs ledger target k.chosen) [])
        (by_identifier cs) ds (filed-Keyed target limit k.chosen l k.selected) k.filed

batch_fails :
    (cs : List SearchCandidate) (x : SearchError) → validate_batch cs ≡ err x → IsOfInput x
unfolding validate_batch
batch_fails cs x e = ground arith

validate_result_fails :
    (r : SearchResult) (x : SearchError)
    → Ascending (decided_ids r)
    → validate_result r ≡ err x
    → IsOfInput x
unfolding validate_result
validate_result_fails r x a e =
    ground (arith, Ascending-ordered (decided_ids r) a, Ascending-unique (decided_ids r) a)

abbrev pub round_result : WorldTier → WorldTier → List SearchDecision → BudgetLedger → SearchResult
round_result source target ds l = record {
  source_tier = source;
  target_tier = target;
  decisions = ds;
  promoted_candidate_ids = promoted_ids ds;
  ledger = l;
}

module _ (h : Digests) (p : BeamSearchPolicy) (cs : List SearchCandidate)
    (ledger : BudgetLedger) where
  pub batch-Ascending :
      (batch : List SearchCandidate)
      → validate_batch cs ≡ ok batch
      → Ascending (candidate_ids (by_identifier cs))
  batch-Ascending batch e =
      by_identifier-Ascending cs ((unique_iff (candidate_ids cs)).0 (batch_inv cs batch e).1)

  advance_fails : (x : SearchError) → advance h p cs ledger ≡ err x → IsOfInput x
  unfolding advance
  advance_fails x e = elim (Result-cases (validate_batch cs)) [
    | inl (y, q) ↦ subst IsOfInput (let s : y ≡ x = ground arith in s) (batch_fails cs y q)
    | inr (batch, q) ↦ elim (Result-cases (validate_ledger ledger)) [
      | inl (y, v) ↦ let s : ledger_error y ≡ x = ground arith in subst IsOfInput s (ground arith)
      | inr (l, v) ↦
          let (canonical, distinct, one) = batch_inv cs batch q in
          let (source, start, low) = source_open cs one in
          let (target, limit, next, within) = tiers_total p source low in
          elim (Result-cases (decide_all h p target limit (by_identifier cs) ledger)) [
            | inl (y, d) ↦
                let s : y ≡ x = ground (arith, validate_ledger_same ledger l v) in
                subst IsOfInput s (decide_all_fails h p cs ledger target limit y d)
            | inr ((ds, l'), d) ↦
                validate_result_fails (round_result source target ds l') x
                  (subst Ascending (sym (decide_all-ids h p cs ledger target limit ds l' d))
                    (batch-Ascending batch q))
                  (ground (arith, validate_ledger_same ledger l v))
          ]
    ]
  ]

  advance_accepts :
      (r : SearchResult)
      → advance h p cs ledger ≡ ok r
      → (batch : List SearchCandidate) × (validate_batch cs ≡ ok batch)
  unfolding advance
  advance_accepts r e = elim (Result-cases (validate_batch cs)) [
    | inl (y, q) ↦ absurd (ground arith)
    | inr (batch, q) ↦ (batch, q)
  ]

  -- A call of `advance` returns, with decisions about the candidates of the batch, each one once and in ascending
  -- order of identifiers, or it ends with an error other than a key that is missing or decisions out of order.
  pub advance-Decides : Decides cs (advance h p cs ledger)
  advance-Decides = elim (Result-cases (advance h p cs ledger)) [
    | inl (x, q) ↦ subst (Decides cs) (sym q) (advance_fails x q)
    | inr (r, q) ↦
        let s = advance-Stages h p cs ledger r q in
        let ids =
          decide_all-ids h p cs ledger r.target_tier s.limit r.decisions r.ledger s.decided in
        subst (Decides cs) (sym q) (
          subst (λ ks. Permᴰ ks (candidate_ids cs)) (sym ids)
              (map-Perm (λ (c : SearchCandidate). c.candidate_id) (by_identifier-Perm cs)),
          subst Ascending (sym ids)
              (batch-Ascending (advance_accepts r q).0 (advance_accepts r q).1),
        )
  ]
