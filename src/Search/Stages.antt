-- ===== src/Search/Stages.antt =====
-- The stages of a call of `advance` that returns, and where its decisions come from.
use stateweaver.Common.{
  ℕ, ◌≡◌, refl, ap, subst, ◌∙◌, some, List, [], ◌++◌, ok, arith, inl, inr, In, Result-cases,
  Option-cases,
}
use stateweaver.Common.Dict.{Dict, lookup, dict_values, dict_values-append, dict_values-In}
use stateweaver.Search.Budget.{WorldTier, BudgetLedger, validate_ledger}
use stateweaver.Search.Budget.Spending.{validate_ledger_same}
use stateweaver.Search.Models.{BeamSearchPolicy, SearchCandidate, SearchDecision, width}
use stateweaver.Search.Controller.{Digests, next_tier, ranked}
use stateweaver.Search.Selection.{
  SearchResult, record_all, canonical_decisions, source_of, promoted_ids, decide_all,
  validate_result, advance,
}
use stateweaver.Search.Beam.{
  diverse_order, deduplicate, select, gated, by_identifier, validate_batch,
}
use stateweaver.Search.Tracing.{lookup-record_all, In-canonical_decisions}

pub nothing_filed : (k : ℕ) (d : SearchDecision) → ¬ (lookup k [] ≡ some d)
unfolding lookup
nothing_filed k d e = absurd (ground arith)

module _ (h : Digests) (p : BeamSearchPolicy) (cs : List SearchCandidate)
    (ledger : BudgetLedger) where
  -- The stages of a call that returns.
  pub record Stages (r : SearchResult) : Type 0 where
    pub limit : ℕ
    pub valid : validate_ledger ledger ≡ ok ledger
    pub next : next_tier r.source_tier ≡ some r.target_tier
    pub within : width p r.target_tier ≡ some limit
    pub decided :
        decide_all h p r.target_tier limit (by_identifier cs) ledger ≡ ok (r.decisions, r.ledger)
    pub indexed : r.promoted_candidate_ids ≡ promoted_ids r.decisions

  validate_batch_same :
      (batch : List SearchCandidate) → validate_batch cs ≡ ok batch → batch ≡ by_identifier cs
  unfolding validate_batch
  validate_batch_same batch e = ground arith

  validate_result_same : (r r' : SearchResult) → validate_result r ≡ ok r' → r' ≡ r
  unfolding validate_result
  validate_result_same r r' e = ground arith

  pub advance-Stages : (r : SearchResult) → advance h p cs ledger ≡ ok r → Stages r
  unfolding advance
  advance-Stages r e = elim (Result-cases (validate_batch cs)) [
    | inl (x, q) ↦ absurd (ground arith)
    | inr (batch, q) ↦ elim (Result-cases (validate_ledger ledger)) [
      | inl (x, v) ↦ absurd (ground arith)
      | inr (l, v) ↦ elim (Result-cases (source_of (by_identifier cs))) [
        | inl (x, s) ↦ absurd (ground (arith, validate_batch_same batch q))
        | inr (source, s) ↦ elim (Option-cases (next_tier source)) [
          | inl t ↦ absurd (ground (arith, validate_batch_same batch q))
          | inr (target, t) ↦ elim (Option-cases (width p target)) [
            | inl w ↦ absurd (ground (arith, validate_batch_same batch q))
            | inr (limit, w) ↦
                elim (Result-cases (decide_all h p target limit (by_identifier cs) ledger)) [
                  | inl (x, d) ↦
                      absurd (
                        ground
                          (arith, validate_batch_same batch q, validate_ledger_same ledger l v))
                  | inr ((ds, l'), d) ↦
                      elim (Result-cases (
                        validate_result (record {
                          source_tier = source;
                          target_tier = target;
                          decisions = ds;
                          promoted_candidate_ids = promoted_ids ds;
                          ledger = l';
                        }))) [
                          | inl (x, k) ↦ absurd (
                              ground (
                                arith,
                                validate_batch_same batch q,
                                validate_ledger_same ledger l v,
                              ))
                          | inr (r', k) ↦
                              stages source target limit ds l'
                                (ground (arith, validate_ledger_same ledger l v)) t w d
                                (ground (
                                  arith,
                                  validate_batch_same batch q,
                                  validate_ledger_same ledger l v,
                                  validate_result_same _ r' k,
                                ))
                        ]
                ]
          ]
        ]
      ]
    ]
  ]
    where
      stages :
          (source target : WorldTier) (limit : ℕ) (ds : List SearchDecision) (l' : BudgetLedger)
          → validate_ledger ledger ≡ ok ledger
          → next_tier source ≡ some target
          → width p target ≡ some limit
          → decide_all h p target limit (by_identifier cs) ledger ≡ ok (ds, l')
          → r ≡ record {
            source_tier = source;
            target_tier = target;
            decisions = ds;
            promoted_candidate_ids = promoted_ids ds;
            ledger = l';
          }
          → Stages r
      stages source target limit ds l' v t w d q =
          rw q
            (record { limit = limit; valid = v; next = t; within = w; decided = d; indexed = refl })

  abbrev pub eligible : WorldTier → List SearchCandidate
  eligible target = ranked h p (gated h p target (by_identifier cs)).1

  abbrev pub beam : WorldTier → List SearchCandidate
  beam target = diverse_order (deduplicate h p target [] (eligible target)).0

  -- What the stages file, in order, and the decisions in it.
  abbrev pub filed_by : WorldTier → Dict SearchDecision → Dict SearchDecision
  filed_by target chosen =
      (gated h p target (by_identifier cs)).0
      ++ ((deduplicate h p target [] (eligible target)).1 ++ chosen)

  abbrev pub recorded : WorldTier → Dict SearchDecision → List SearchDecision
  recorded target chosen =
      dict_values (gated h p target (by_identifier cs)).0
      ++ (dict_values (deduplicate h p target [] (eligible target)).1 ++ dict_values chosen)

  pub In-recorded_filed :
      (target : WorldTier) (chosen : Dict SearchDecision) (k : ℕ) (d : SearchDecision)
      → In (k, d) (filed_by target chosen)
      → In d (recorded target chosen)
  In-recorded_filed target chosen k d i =
      let stopped = (gated h p target (by_identifier cs)).0 in
      let repeats = (deduplicate h p target [] (eligible target)).1 in
      subst (In d)
        (dict_values-append stopped (repeats ++ chosen)
          ∙ ap (λ ds. dict_values stopped ++ ds) (dict_values-append repeats chosen))
        (dict_values-In k d (filed_by target chosen) i)

  -- What the selection loop and the canonical order produced.
  pub record Chain (target : WorldTier) (limit : ℕ) (ds : List SearchDecision) (l : BudgetLedger)
      : Type 0 where
    pub chosen : Dict SearchDecision
    pub selected : select h p target limit (beam target) ledger 0 ≡ ok (chosen, l)
    pub filed :
        canonical_decisions (record_all (filed_by target chosen) []) (by_identifier cs) ≡ ok ds

  pub decide_all-Chain :
      (target : WorldTier) (limit : ℕ) (ds : List SearchDecision) (l : BudgetLedger)
      → decide_all h p target limit (by_identifier cs) ledger ≡ ok (ds, l)
      → Chain target limit ds l
  unfolding decide_all
  decide_all-Chain target limit ds l e =
      elim (Result-cases (select h p target limit (beam target) ledger 0)) [
        | inl (x, q) ↦ absurd (ground arith)
        | inr ((chosen, l'), q) ↦
            elim (Result-cases
              (canonical_decisions (record_all (filed_by target chosen) []) (by_identifier cs))) [
                | inl (x, k) ↦ absurd (ground arith)
                | inr (ds', k) ↦ record {
                  chosen = chosen;
                  selected = ground arith;
                  filed = ground arith;
                }
              ]
      ]

  -- Every decision is one that a gate, the deduplication or the selection made.
  pub advance_origin :
      (r : SearchResult) (d : SearchDecision)
      → advance h p cs ledger ≡ ok r
      → In d r.decisions
      → (chosen : Dict SearchDecision) × (limit : ℕ) × (select h p r.target_tier limit
            (beam r.target_tier)
            ledger
            0
          ≡ ok (chosen, r.ledger))
        × In d (recorded r.target_tier chosen)
  advance_origin r d e i =
      let s = advance-Stages r e in
      let k = decide_all-Chain r.target_tier s.limit r.decisions r.ledger s.decided in
      let (x, _, found) =
        In-canonical_decisions d (record_all (filed_by r.target_tier k.chosen) [])
          (by_identifier cs) r.decisions k.filed i in
      elim (lookup-record_all x.candidate_id d (filed_by r.target_tier k.chosen) [] found) [
        | inr q ↦ absurd (nothing_filed x.candidate_id d q)
        | inl j ↦ (
          k.chosen,
          s.limit,
          k.selected,
          In-recorded_filed r.target_tier k.chosen x.candidate_id d j,
        )
      ]
