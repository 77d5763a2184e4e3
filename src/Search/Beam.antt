-- ===== src/Search/Beam.antt =====
-- controller.py from the gates to the selection: the batch, `_deduplicate`, `_diverse_order`, and the
-- two loops of `advance`.
use stateweaver.Common.{
  ℕ, suc, Bool, false, not, ◌&&◌, ◌||◌, Option, none, some, List, [], ◌∷◌, ◌++◌, map, Result, ok,
  err, raise_if, ◌>>=◌, ◌>>◌, ◌==◌, ltb, leb, any, all, is_empty, contains, unique, if◌then◌else◌,
}
use stateweaver.Common.Dict.{Dict}
use stateweaver.Search.Budget.{
  WorldTier, materialized, PromotionCost, BudgetLedger, LedgerError, is_for, is_tier, can_reserve,
  reserve, new_reservation,
}
use stateweaver.Search.Models.{
  BeamSearchPolicy, SearchCandidate, SearchDecision, duplicate_state, dominated_by_cheaper_world,
  budget_exceeded, beam_capacity, already_promoted,
}
use stateweaver.Search.Controller.{Digests, gate_reasons, pruned, promotion}

-- `_cost_tuple(a) <= _cost_tuple(b)`: the tuples compare from the left.
unfoldable pub costs_at_most : PromotionCost → PromotionCost → Bool
costs_at_most a b =
    ltb a.target_requests b.target_requests
    || a.target_requests == b.target_requests
      && (ltb a.write_requests b.write_requests
          || a.write_requests == b.write_requests
            && (ltb a.cpu_seconds b.cpu_seconds
                || a.cpu_seconds == b.cpu_seconds && leb a.llm_calls b.llm_calls))

-- `retained.get(fingerprint)`.
unfoldable pub winner_of : ℕ → List SearchCandidate → Option SearchCandidate
winner_of fingerprint [] = none
winner_of fingerprint (c ∷ cs) =
    if c.state_fingerprint == fingerprint then some c else winner_of fingerprint cs

-- Of a key that was seen the candidates are deferred.
unfoldable pub diverse : List ℕ → List SearchCandidate → List SearchCandidate × List SearchCandidate
diverse seen [] = ([], [])
diverse seen (c ∷ cs) =
    let known = contains seen c.diversity_key in
    let (first, deferred) = diverse (if known then seen else c.diversity_key ∷ seen) cs in
    if known then (first, c ∷ deferred) else (c ∷ first, deferred)

-- `_diverse_order`.
unfoldable pub diverse_order : List SearchCandidate → List SearchCandidate
diverse_order cs = let (first, deferred) = diverse [] cs in first ++ deferred

pub data SearchError : Type 0 where
  ledger_error : LedgerError → SearchError
  empty_batch candidate_repeats mixed_tiers key_error : SearchError
  not_canonical unbound_promotion : SearchError

abbrev pub of_ledger {ℓ} : {A : Type ℓ} → Result LedgerError A → Result SearchError A
of_ledger (ok a) = ok a
of_ledger (err e) = err (ledger_error e)

abbrev pub of_key {ℓ} : {A : Type ℓ} → Option A → Result SearchError A
of_key (some a) = ok a
of_key none = err key_error

-- `candidates_are_unique`, in the order of the batch that it leaves: by identifier.
unfoldable pub insert_candidate : SearchCandidate → List SearchCandidate → List SearchCandidate
insert_candidate c [] = c ∷ []
insert_candidate c (x ∷ xs) =
    if leb c.candidate_id x.candidate_id then c ∷ x ∷ xs else x ∷ insert_candidate c xs

unfoldable pub by_identifier : List SearchCandidate → List SearchCandidate
unfolding insert_candidate
by_identifier [] = []
by_identifier (c ∷ cs) = insert_candidate c (by_identifier cs)

abbrev pub candidate_ids : List SearchCandidate → List ℕ
candidate_ids cs = map (λ c. c.candidate_id) cs

abbrev pub one_tier : List SearchCandidate → Bool
one_tier [] = false
one_tier (c ∷ cs) = not (is_tier c.tier materialized) && all (λ x. is_tier x.tier c.tier) cs

unfoldable pub validate_batch : List SearchCandidate → Result SearchError (List SearchCandidate)
validate_batch cs = do
  raise_if (is_empty cs) empty_batch
  raise_if (not (unique (candidate_ids cs))) candidate_repeats
  raise_if (not (one_tier cs)) mixed_tiers
  ok (by_identifier cs)

module _ (h : Digests) (p : BeamSearchPolicy) (target : WorldTier) where
  abbrev pub duplicate : SearchCandidate → SearchCandidate → SearchDecision
  duplicate winner c =
      pruned h p c target
        ((if costs_at_most winner.promotion_cost c.promotion_cost
            then dominated_by_cheaper_world
            else duplicate_state)
          ∷ [])
        (some winner.candidate_id)

  -- The loop of `_deduplicate`, from what it has retained: what it retains in all, and the decisions on
  -- the duplicates, each under its candidate.
  unfoldable pub deduplicate :
      List SearchCandidate → List SearchCandidate → List SearchCandidate × Dict SearchDecision
  deduplicate retained [] = (retained, [])
  deduplicate retained (c ∷ cs) = elim (winner_of c.state_fingerprint retained) [
    | none ↦ deduplicate (retained ++ c ∷ []) cs
    | some w ↦
        let (kept, ds) = deduplicate retained cs in (kept, (c.candidate_id, duplicate w c) ∷ ds)
  ]

  abbrev pub granted :
      SearchCandidate → ℕ → BudgetLedger → BudgetLedger → SearchDecision × BudgetLedger × ℕ
  granted c count before after = (
    promotion h p c target
        (new_reservation h.reservation_id c.candidate_id target c.promotion_cost
          before.reservations).reservation_id,
    after,
    suc count,
  )

  -- One round of the selection loop: the decision, the ledger and the number promoted.
  unfoldable pub select_one :
      ℕ
      → SearchCandidate
      → BudgetLedger
      → ℕ
      → Result SearchError (SearchDecision × BudgetLedger × ℕ)
  select_one limit c l count =
      if leb limit count
      then ok (pruned h p c target (beam_capacity ∷ []) none, l, count)
      else if any (is_for c.candidate_id target) l.reservations
      then ok (pruned h p c target (already_promoted ∷ []) none, l, count)
      else if not (can_reserve l target c.promotion_cost c.candidate_id)
      then ok (pruned h p c target (budget_exceeded ∷ []) none, l, count)
      else (do
        l' ← of_ledger (reserve h.reservation_id l c.candidate_id target c.promotion_cost)
        ok (granted c count l l'))

  -- The selection loop of `advance`: what it files, and the ledger.
  unfoldable pub select :
      ℕ
      → List SearchCandidate
      → BudgetLedger
      → ℕ
      → Result SearchError (Dict SearchDecision × BudgetLedger)
  select limit [] l count = ok ([], l)
  select limit (c ∷ cs) l count = do
    (d, l', count') ← select_one limit c l count
    (ds, l'') ← select limit cs l' count'
    ok ((c.candidate_id, d) ∷ ds, l'')

  -- The first loop: the decisions on the candidates that a gate stops, and the eligible ones.
  unfoldable pub gated : List SearchCandidate → Dict SearchDecision × List SearchCandidate
  gated [] = ([], [])
  gated (c ∷ cs) =
      let (ds, eligible) = gated cs in
      let reasons = gate_reasons p c target in
      if is_empty reasons
      then (ds, c ∷ eligible)
      else ((c.candidate_id, pruned h p c target reasons none) ∷ ds, eligible)
