-- ===== src/Search/Models.antt =====
-- packages/search/src/stateweaver/search/models.py but for the budget: scores, gates, candidates and
-- decisions. Identifiers and digests are natural numbers; so is a score, which the code only compares
-- and hands to the priority formula: the number stands for the place of the float in the order.
use stateweaver.Common.{
  ℕ, Bool, true, false, not, ◌&&◌, ◌||◌, Option, none, some, List, [], ◌∷◌, Result, ok, raise_if,
  ◌>>◌, same, any, is_some, is_empty,
}
use stateweaver.Contracts.Fragments.{TransitionFragment}
use stateweaver.Search.Budget.{WorldTier, ghost, replay, simulated, materialized, PromotionCost}

pub data ScoreSource : Type 0 where
  model deterministic measured policy : ScoreSource

pub data PolicyGateOutcome : Type 0 where
  allow deny require_approval : PolicyGateOutcome

pub data DecisionDisposition : Type 0 where
  promote prune : DecisionDisposition

pub data ReasonCode : Type 0 where
  promoted out_of_scope policy_denied duplicate_state dominated_by_cheaper_world : ReasonCode
  no_new_facts low_fidelity_without_calibration_path unsupported_adapter_capability : ReasonCode
  budget_exceeded non_reversible_action_not_approved repeated_nondeterminism : ReasonCode
  missing_evidence missing_action_plan missing_expected_observation : ReasonCode
  missing_machine_oracle missing_snapshot_capability beam_capacity already_promoted : ReasonCode

unfoldable pub ReasonCode-discrete : Discrete ReasonCode
ReasonCode-discrete = hlevel

unfoldable pub ScoreSource-discrete : Discrete ScoreSource
ScoreSource-discrete = hlevel

pub record ScoreSignal : Type 0 where
  pub value : ℕ
  pub source : ScoreSource

pub record SearchScores : Type 0 where
  pub boundary_impact : ScoreSignal
  pub information_gain : ScoreSignal
  pub novelty : ScoreSignal
  pub composability : ScoreSignal
  pub fidelity : ScoreSignal
  pub reachability : ScoreSignal
  pub normalized_cost : ScoreSignal
  pub operational_risk : ScoreSignal

pub data ScoreError : Type 0 where
  model_only cost_unmeasured risk_not_policy : ScoreError

abbrev is_source : ScoreSource → ScoreSignal → Bool
is_source s x = same ScoreSource-discrete x.source s

-- `score_sources_are_not_model_only`.
unfoldable pub validate_scores : SearchScores → Result ScoreError SearchScores
validate_scores s = do
  raise_if
      (any (is_source model)
        (s.boundary_impact ∷ s.composability ∷ s.fidelity ∷ s.reachability ∷ []))
      model_only
  raise_if (not (is_source deterministic s.normalized_cost || is_source measured s.normalized_cost))
      cost_unmeasured
  raise_if (not (is_source policy s.operational_risk)) risk_not_policy
  ok s

-- `expected_observations` holds conditions that the search only counts.
pub record PromotionGates : Type 0 where
  pub in_scope : Bool
  pub policy_outcome : PolicyGateOutcome
  pub policy_decision_ref : ℕ
  pub approval_ref : Option ℕ
  pub reversible : Bool
  pub action_plan_refs : List ℕ
  pub expected_observations : List ℕ
  pub oracle_refs : List ℕ
  pub evidence_ids : List ℕ
  pub required_capabilities : List ℕ
  pub available_capabilities : List ℕ
  pub snapshot_capable : Bool
  pub new_fact_count : ℕ
  pub calibration_path : Bool
  pub repeated_nondeterminism : ℕ

pub data GateError : Type 0 where
  allowed_with_approval denied_with_approval : GateError

abbrev pub is_denied : PolicyGateOutcome → Bool
is_denied deny = true
is_denied _ = false

abbrev pub is_allowed : PolicyGateOutcome → Bool
is_allowed allow = true
is_allowed _ = false

abbrev pub wants_approval : PolicyGateOutcome → Bool
wants_approval require_approval = true
wants_approval _ = false

-- `approval_shape_is_coherent`.
unfoldable pub validate_gates : PromotionGates → Result GateError PromotionGates
validate_gates g = do
  raise_if (is_allowed g.policy_outcome && is_some g.approval_ref) allowed_with_approval
  raise_if (is_denied g.policy_outcome && is_some g.approval_ref) denied_with_approval
  ok g

-- The controller reads neither the hypothesis, the security state nor the state predicates.
pub record SearchCandidate : Type 0 where
  pub candidate_id : ℕ
  pub tier : WorldTier
  pub state_fingerprint : ℕ
  pub diversity_key : ℕ
  pub scores : SearchScores
  pub uncertainty : ScoreSignal
  pub transition_fragments : List TransitionFragment
  pub gates : PromotionGates
  pub promotion_cost : PromotionCost

pub record BeamSearchPolicy : Type 0 where
  pub seed : ℕ
  pub replay_width : ℕ
  pub simulated_width : ℕ
  pub materialized_width : ℕ
  pub uncertainty_bonus : ℕ
  pub minimum_fidelity : ℕ
  pub repeated_nondeterminism_limit : ℕ

-- `width`: a dictionary with no entry for ghosts.
unfoldable pub width : BeamSearchPolicy → WorldTier → Option ℕ
width p replay = some p.replay_width
width p simulated = some p.simulated_width
width p materialized = some p.materialized_width
width p ghost = none

pub record SearchDecision : Type 0 where
  pub candidate_id : ℕ
  pub source_tier : WorldTier
  pub target_tier : WorldTier
  pub disposition : DecisionDisposition
  pub reason_codes : List ReasonCode
  pub priority : ℕ
  pub reservation_id : Option ℕ
  pub deduplicated_to : Option ℕ

pub data DecisionError : Type 0 where
  reasons_malformed promotion_malformed promoted_duplicate pruned_with_budget : DecisionError
  deduplication_incoherent : DecisionError

abbrev pub has_reason : ReasonCode → List ReasonCode → Bool
has_reason r = any (λ x. same ReasonCode-discrete x r)

unfoldable pub reasons_unique : List ReasonCode → Bool
reasons_unique [] = true
reasons_unique (r ∷ rs) = not (has_reason r rs) && reasons_unique rs

abbrev pub is_promotion : List ReasonCode → Bool
is_promotion (promoted ∷ []) = true
is_promotion _ = false

abbrev disposed : DecisionDisposition → SearchDecision → Result DecisionError (Unit {0})
disposed promote d =
    raise_if (not (is_promotion d.reason_codes) || not (is_some d.reservation_id))
      promotion_malformed
    >> raise_if (is_some d.deduplicated_to) promoted_duplicate
disposed prune d = raise_if (is_some d.reservation_id) pruned_with_budget

abbrev xor : Bool → Bool → Bool
xor true b = not b
xor false b = b

-- `decision_shape_is_coherent`.
unfoldable pub validate_decision : SearchDecision → Result DecisionError SearchDecision
unfolding reasons_unique
validate_decision d = do
  raise_if (is_empty d.reason_codes || not (reasons_unique d.reason_codes)) reasons_malformed
  disposed d.disposition d
  raise_if
      (xor
        (has_reason duplicate_state d.reason_codes
          || has_reason dominated_by_cheaper_world d.reason_codes)
        (is_some d.deduplicated_to))
      deduplication_incoherent
  ok d
