-- ===== src/Search/Advance.antt =====
-- What a call of `advance` guarantees.
use stateweaver.Common.{
  ℕ, suc, ◌≤◌, ◌≡◌, refl, ap, true, some, List, [], ◌∷◌, ◌++◌, map, ok, arith, inl, inr, In, length,
}
use stateweaver.Search.Budget.{WorldTier, BudgetLedger, BudgetReservation}
use stateweaver.Search.Budget.Reserve.{IsValid, validate_ledger-IsValid}
use stateweaver.Search.Models.{BeamSearchPolicy, SearchCandidate, SearchDecision, width}
use stateweaver.Search.Controller.{Digests, gate_reasons}
use stateweaver.Search.Selection.{SearchResult, is_promote, advance}
use stateweaver.Search.Beam.{deduplicate, gated, by_identifier}
use stateweaver.Search.Selected.{select-IsValid, select_width, select_history}
use stateweaver.Search.Tracing.{
  In-by_identifier, In-diverse_order, In-ranked, In-deduplicate, duplicates_pruned, gated_pruned,
  In-gated, In-select,
}
use stateweaver.Common.{In-append}
use stateweaver.Common.Dict.{Dict, dict_values}
use stateweaver.Search.Stages.{
  advance-Stages, decide_all-Chain, advance_origin, eligible, beam, recorded,
}

length-map : {A B : Type 0} (f : A → B) (xs : List A) → length (map f xs) ≡ length xs
length-map f [] = refl
length-map f (x ∷ xs) = ap suc (length-map f xs)

module _ (h : Digests) (p : BeamSearchPolicy) (cs : List SearchCandidate)
    (ledger : BudgetLedger) where
  -- A promoted decision is one of the chosen.
  pub In-recorded :
      (target : WorldTier) (chosen : Dict SearchDecision) (d : SearchDecision)
      → is_promote d.disposition ≡ true
      → In d (recorded h p cs ledger target chosen)
      → In d (dict_values chosen)
  In-recorded target chosen d go i =
      let duplicates = dict_values (deduplicate h p target [] (eligible h p cs ledger target)).1 in
      elim (In-append d (dict_values (gated h p target (by_identifier cs)).0)
        (duplicates ++ dict_values chosen) i) [
          | inl j ↦ absurd (ground (arith, gated_pruned h p target d (by_identifier cs) j))
          | inr j ↦ elim (In-append d duplicates (dict_values chosen) j) [
            | inl k ↦ absurd (
                ground (arith, duplicates_pruned h p target d [] (eligible h p cs ledger target) k))
            | inr k ↦ k
          ]
        ]

  -- A candidate of the beam is one of the batch, and no gate stops it.
  pub In-beam :
      (target : WorldTier) (c : SearchCandidate)
      → In c (beam h p cs ledger target)
      → In c cs × (gate_reasons p c target ≡ [])
  In-beam target c i =
      elim (In-deduplicate h p target c [] (eligible h p cs ledger target)
        (In-diverse_order c (deduplicate h p target [] (eligible h p cs ledger target)).0 i)) [
          | inl j ↦ absurd j
          | inr j ↦
              let (k, open_gates) =
                In-gated h p target c (by_identifier cs)
                  (In-ranked h p c (gated h p target (by_identifier cs)).1 j) in
              (In-by_identifier c cs k, open_gates)
        ]

  -- If a call of `advance` returns, every decision in it that promotes is about a candidate of the batch that
  -- none of the gates of the target tier stops.
  pub advance_gates :
      (r : SearchResult) (d : SearchDecision)
      → advance h p cs ledger ≡ ok r
      → In d r.decisions
      → is_promote d.disposition ≡ true
      → (c : SearchCandidate) × In c cs
        × (d.candidate_id ≡ c.candidate_id)
        × (gate_reasons p c r.target_tier ≡ [])
  advance_gates r d e i go =
      let (chosen, limit, selected, j) = advance_origin h p cs ledger r d e i in
      let (c, at, same_id) =
        In-select h p r.target_tier d limit (beam h p cs ledger r.target_tier) ledger r.ledger 0
          chosen selected (In-recorded r.target_tier chosen d go j) in
      let (here, open_gates) = In-beam r.target_tier c at in (c, here, same_id, open_gates)

  -- If a call of `advance` returns, its ledger is valid, and is the one it was given with at most as many
  -- reservations added at the end as the beam of the target tier is wide.
  pub advance_budget :
      (r : SearchResult)
      → advance h p cs ledger ≡ ok r
      → IsValid r.ledger
        × ((limit : ℕ) × (new : List BudgetReservation) × (width p r.target_tier ≡ some limit)
            × (length new ≤ limit)
            × (r.ledger ≡ record ledger { reservations = ledger.reservations ++ new }))
  advance_budget r e =
      let s = advance-Stages h p cs ledger r e in
      let k = decide_all-Chain h p cs ledger r.target_tier s.limit r.decisions r.ledger s.decided in
      let (new, grown, who) =
        select_history h p r.target_tier s.limit (beam h p cs ledger r.target_tier) ledger r.ledger
          0 k.chosen k.selected in
      let narrow =
        select_width h p r.target_tier s.limit (beam h p cs ledger r.target_tier) ledger r.ledger 0
          k.chosen (ground arith) k.selected in
      (
        select-IsValid h p r.target_tier s.limit (beam h p cs ledger r.target_tier) ledger r.ledger
            0 k.chosen (validate_ledger-IsValid ledger ledger s.valid) k.selected,
        (s.limit, new, s.within, ground (arith, length-map (λ r. r.candidate_id) new), grown),
      )
