-- ===== src/Search/Tests.antt =====
-- A batch of three candidates, one of them without evidence, and the theorems at it.
use stateweaver.Common.{
  arith, ℕ, ◌+◌, ◌*◌, ◌≤◌, ◌≡◌, refl, inl, inr, ◌↔◌, true, false, none, some, List, [], ◌∷◌, ◌++◌,
  ok, err, In, length, any,
}
use stateweaver.Search.Budget.{
  replay, simulated, PromotionCost, BudgetLimits, BudgetLedger, BudgetReservation, ReservationId,
  no_cost, reserve, can_reserve, new_reservation, is_for,
}
use stateweaver.Search.Budget.Reserve.{
  IsValid, Spent, reserve_spends, reserve_iff, validate_ledger-IsValid,
}
use stateweaver.Search.Budget.Spending.{extended, WithinLimits}
use stateweaver.Search.Models.{
  ScoreSignal, SearchScores, PromotionGates, SearchCandidate, SearchDecision, BeamSearchPolicy,
  deterministic, allow, width,
}
use stateweaver.Search.Controller.{Digests, gate_reasons}
use stateweaver.Search.Selection.{SearchResult, advance, is_promote}
use stateweaver.Search.Beam.{by_identifier}
use stateweaver.Search.Coherent.{IsCoherent, advance-IsCoherent}
use stateweaver.Search.Complete.{Decides, advance-Decides}
use stateweaver.Search.Returns.{IsBatch, advance_returns}
use stateweaver.Search.Budget.Binding.{IsCollisionFree}
use stateweaver.Search.Advance.{advance_gates, advance_budget}
use stateweaver.Search.Budget.{
  WorldTier-discrete, tier_limit, tier_count, sum_of, count_of, usage, fits, contiguous_from,
  keys_unique, validate_ledger, validate_reservation,
}
use stateweaver.Search.Models.{
  ReasonCode-discrete, ScoreSource-discrete, validate_scores, validate_gates, reasons_unique,
  validate_decision,
}
use stateweaver.Search.Controller.{
  next_tier, without, from_keys, evidence_bound, materialized_reasons, common_reasons, ranks_before,
  insert_ranked, ranked, pruned, promotion,
}
use stateweaver.Search.Selection.{
  record_all, canonical_decisions, promoted_ids, ordered, reservation_table, validate_result,
  decide_all,
}
use stateweaver.Search.Beam.{
  costs_at_most, winner_of, diverse, diverse_order, insert_candidate, validate_batch, deduplicate,
  select_one, select, gated,
}
use stateweaver.Common.{contains, unique, ℕ_discrete}
use stateweaver.Common.Dict.{insert, lookup}

-- On an `unfolding` line this opens the code.
engine : Unit {0}
unfolding WorldTier-discrete tier_limit tier_count sum_of count_of usage fits can_reserve
    contiguous_from keys_unique validate_ledger validate_reservation reserve ReasonCode-discrete
    ScoreSource-discrete validate_scores validate_gates width reasons_unique validate_decision
    next_tier without from_keys evidence_bound materialized_reasons common_reasons gate_reasons
    ranks_before insert_ranked ranked pruned promotion costs_at_most winner_of diverse diverse_order
    insert_candidate by_identifier validate_batch deduplicate select_one select gated record_all
    canonical_decisions promoted_ids ordered reservation_table validate_result decide_all advance
    contains unique ℕ_discrete insert lookup
engine = tt

abbrev bind_reservation : ReservationId
bind_reservation candidate tier sequence cost = 100 * candidate + sequence

abbrev digests : Digests
digests = record {
  priority = λ s u b. s.fidelity.value;
  tie_digest = λ seed k. k;
  reservation_id = bind_reservation;
}

abbrev signal : ℕ → ScoreSignal
signal n = record { value = n; source = deterministic }

abbrev scores : ℕ → SearchScores
scores n = record {
  boundary_impact = signal 1;
  information_gain = signal 1;
  novelty = signal 1;
  composability = signal 1;
  fidelity = signal n;
  reachability = signal 1;
  normalized_cost = signal 1;
  operational_risk = signal 1;
}

abbrev gates : ℕ → PromotionGates
gates facts = record {
  in_scope = true;
  policy_outcome = allow;
  policy_decision_ref = 1;
  approval_ref = none;
  reversible = true;
  action_plan_refs = [];
  expected_observations = [];
  oracle_refs = [];
  evidence_ids = [];
  required_capabilities = [];
  available_capabilities = [];
  snapshot_capable = false;
  new_fact_count = facts;
  calibration_path = false;
  repeated_nondeterminism = 0;
}

abbrev one_request : PromotionCost
one_request = record no_cost { target_requests = 1 }

abbrev candidate : ℕ → ℕ → ℕ → SearchCandidate
candidate k fingerprint facts = record {
  candidate_id = k;
  tier = replay;
  state_fingerprint = fingerprint;
  diversity_key = 1;
  scores = scores (k + 5);
  uncertainty = signal 0;
  transition_fragments = [];
  gates = gates facts;
  promotion_cost = one_request;
}

abbrev beam_policy : BeamSearchPolicy
beam_policy = record {
  seed = 1;
  replay_width = 2;
  simulated_width = 1;
  materialized_width = 1;
  uncertainty_bonus = 0;
  minimum_fidelity = 2;
  repeated_nondeterminism_limit = 2;
}

abbrev limits : BudgetLimits
limits = record {
  max_llm_calls = 0;
  max_target_requests = 3;
  max_write_requests = 0;
  max_cpu_seconds = 0;
  max_ghost = 1;
  max_replay = 1;
  max_simulated = 2;
  max_materialized = 1;
}

abbrev empty_ledger : BudgetLedger
empty_ledger = record { limits = limits; reservations = [] }

-- The third is promoted, the second is over the width, the first brings no new fact.
abbrev batch : List SearchCandidate
batch = candidate 3 30 1 ∷ candidate 1 10 0 ∷ candidate 2 20 1 ∷ []

abbrev no_result : SearchResult
no_result = record {
  source_tier = replay;
  target_tier = replay;
  decisions = [];
  promoted_candidate_ids = [];
  ledger = empty_ledger;
}

abbrev ran : SearchResult
unfolding engine
ran = elim (advance digests beam_policy batch empty_ledger) [ ok r ↦ r | err _ ↦ no_result ]

advance_runs : advance digests beam_policy batch empty_ledger ≡ ok ran
unfolding engine
advance_runs = refl

promoted_test : ran.promoted_candidate_ids ≡ 3 ∷ []
unfolding engine
promoted_test = refl

-- The decision on the third candidate.
abbrev third : SearchDecision
unfolding engine
third = elim ran.decisions [
  | _ ∷ _ ∷ d ∷ [] ↦ d
  | _ ↦ pruned digests beam_policy (candidate 3 30 1) replay [] none
]

third_decided : In third ran.decisions
unfolding engine
third_decided = inr (inr (inl refl))

third_promoted : is_promote third.disposition ≡ true
unfolding engine
third_promoted = refl

advance-Decides_example : Decides batch (advance digests beam_policy batch empty_ledger)
advance-Decides_example = advance-Decides digests beam_policy batch empty_ledger

advance_gates_example :
    (c : SearchCandidate) × In c batch
    × (third.candidate_id ≡ c.candidate_id)
    × (gate_reasons beam_policy c ran.target_tier ≡ [])
advance_gates_example =
    advance_gates digests beam_policy batch empty_ledger ran third advance_runs third_decided
      third_promoted

advance_budget_example :
    IsValid ran.ledger
    × ((limit : ℕ) × (new : List BudgetReservation) × (width beam_policy ran.target_tier
          ≡ some limit)
        × (length new ≤ limit)
        × (ran.ledger ≡ record empty_ledger { reservations = empty_ledger.reservations ++ new }))
advance_budget_example = advance_budget digests beam_policy batch empty_ledger ran advance_runs

abbrev spent_once : BudgetLedger
unfolding engine
spent_once = elim (reserve bind_reservation empty_ledger 3 simulated one_request) [
  | ok l ↦ l
  | err _ ↦ empty_ledger
]

reserve_runs : reserve bind_reservation empty_ledger 3 simulated one_request ≡ ok spent_once
unfolding engine
reserve_runs = refl

reserve_spends_example :
    Spent empty_ledger spent_once 3 simulated one_request
      (new_reservation bind_reservation 3 simulated one_request empty_ledger.reservations)
    × IsValid spent_once
reserve_spends_example =
    reserve_spends bind_reservation empty_ledger spent_once 3 simulated one_request reserve_runs

empty-IsValid : IsValid empty_ledger
empty-IsValid = validate_ledger-IsValid empty_ledger empty_ledger (unfold engine in refl)

reserve_iff_example :
    (reserve bind_reservation empty_ledger 3 simulated one_request
      ≡ ok (extended bind_reservation empty_ledger 3 simulated one_request))
    ↔ ((any (is_for 3 simulated) empty_ledger.reservations ≡ false)
        × WithinLimits (extended bind_reservation empty_ledger 3 simulated one_request))
reserve_iff_example =
    reserve_iff bind_reservation empty_ledger 3 simulated one_request empty-IsValid
      (unfold engine in refl)

advance-IsCoherent_example : IsCoherent third
advance-IsCoherent_example =
    advance-IsCoherent digests beam_policy batch empty_ledger ran third advance_runs third_decided

-- Digests that are the number of the reservation.
abbrev numbered_digests : Digests
numbered_digests = record digests { reservation_id = λ c t n k. n }

numbers_differ : IsCollisionFree numbered_digests.reservation_id
numbers_differ c t n k c' t' n' k' e = e

batch-IsBatch : IsBatch batch
batch-IsBatch = record {
  not_empty = λ q. ground arith;
  ids_differ = (λ i. ground arith, (λ i. ground arith, (λ i. i, tt)));
  source = replay;
  promotable = λ q. ground arith;
  in_source = λ c i. ground arith;
}

advance_returns_example :
    (r : SearchResult) × (advance numbered_digests beam_policy batch empty_ledger ≡ ok r)
advance_returns_example =
    advance_returns numbered_digests beam_policy batch empty_ledger batch-IsBatch empty-IsValid tt
      numbers_differ
