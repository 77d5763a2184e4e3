-- ===== src/Search/Controller.antt =====
-- packages/search/src/stateweaver/search/controller.py: gates, ranking, deduplication, diversity,
-- then beam width and budget. The digest that breaks ties and the priority, which is computed in
-- floats, are arguments.
use stateweaver.Common.{
  ℕ, Bool, true, false, not, ◌&&◌, ◌||◌, Option, none, some, List, [], ◌∷◌, ◌++◌, ◌==◌, ltb, leb,
  same, all, is_some, is_empty, contains, if◌then◌else◌,
}
use stateweaver.Contracts.Fragments.{ProvenanceKind, hypothesized, unknown}
use stateweaver.Search.Budget.{
  WorldTier, ghost, replay, simulated, materialized, ReservationId, is_tier,
}
use stateweaver.Search.Models.{
  BeamSearchPolicy, SearchCandidate, SearchDecision, SearchScores, promote, prune, ReasonCode,
  ReasonCode-discrete, is_denied, wants_approval, promoted, out_of_scope, policy_denied,
  no_new_facts, low_fidelity_without_calibration_path, unsupported_adapter_capability,
  non_reversible_action_not_approved, repeated_nondeterminism, missing_evidence,
  missing_action_plan, missing_expected_observation, missing_machine_oracle,
  missing_snapshot_capability,
}

-- `priority` is the place of `scores.priority(...)` in the order of floats, `tie_digest` the digest of the
-- seed and a candidate's identifier, `reservation_id` the digest of a reservation.
pub record Digests : Type 0 where
  pub priority : SearchScores → ℕ → ℕ → ℕ
  pub tie_digest : ℕ → ℕ → ℕ
  pub reservation_id : ReservationId

-- `_NEXT_TIER`.
unfoldable pub next_tier : WorldTier → Option WorldTier
next_tier ghost = some replay
next_tier replay = some simulated
next_tier simulated = some materialized
next_tier materialized = none

abbrev pub when : Bool → ReasonCode → List ReasonCode
when true r = r ∷ []
when false r = []

-- `dict.fromkeys`: the first of each is kept.
unfoldable pub without : ReasonCode → List ReasonCode → List ReasonCode
without r [] = []
without r (x ∷ xs) =
    let rest = without r xs in if same ReasonCode-discrete x r then rest else x ∷ rest

unfoldable pub from_keys : List ReasonCode → List ReasonCode
unfolding without
from_keys [] = []
from_keys (r ∷ rs) = r ∷ without r (from_keys rs)

-- `set(xs) <= set(ys)`.
abbrev pub is_subset : List ℕ → List ℕ → Bool
is_subset xs ys = all (contains ys) xs

abbrev speculative : ProvenanceKind → Bool
speculative hypothesized = true
speculative unknown = true
speculative _ = false

-- `fragments_are_evidence_bound`.
unfoldable pub evidence_bound : SearchCandidate → Bool
evidence_bound c =
    not (is_empty c.transition_fragments)
    && all (λ f. is_subset f.evidence_ids c.gates.evidence_ids) c.transition_fragments
    && all (λ f. not (is_empty f.evidence_ids) && not (speculative f.source)) c.transition_fragments

-- The gates of a materialized world.
unfoldable pub materialized_reasons : SearchCandidate → List ReasonCode
materialized_reasons c =
    when (is_empty c.gates.evidence_ids || not (evidence_bound c)) missing_evidence
    ++ (when (is_empty c.gates.action_plan_refs) missing_action_plan
        ++ (when (is_empty c.gates.expected_observations) missing_expected_observation
            ++ (when (is_empty c.gates.oracle_refs) missing_machine_oracle
                ++ when (not c.gates.snapshot_capable) missing_snapshot_capability)))

-- The gates of every tier.
unfoldable pub common_reasons : BeamSearchPolicy → SearchCandidate → List ReasonCode
common_reasons p c =
    when (not c.gates.in_scope) out_of_scope
    ++ (when (is_denied c.gates.policy_outcome) policy_denied
        ++ (when (wants_approval c.gates.policy_outcome && not (is_some c.gates.approval_ref))
              non_reversible_action_not_approved
            ++ (when (not c.gates.reversible && not (is_some c.gates.approval_ref))
                  non_reversible_action_not_approved
                ++ (when
                      (not (is_subset c.gates.required_capabilities c.gates.available_capabilities))
                      unsupported_adapter_capability
                    ++ (when (c.gates.new_fact_count == 0) no_new_facts
                        ++ (when
                              (ltb c.scores.fidelity.value p.minimum_fidelity
                                && not c.gates.calibration_path)
                              low_fidelity_without_calibration_path
                            ++ when
                                (leb p.repeated_nondeterminism_limit
                                  c.gates.repeated_nondeterminism)
                                repeated_nondeterminism))))))

-- `_gate_reasons`.
unfoldable pub gate_reasons : BeamSearchPolicy → SearchCandidate → WorldTier → List ReasonCode
gate_reasons p c target =
    from_keys
      (common_reasons p c ++ (if is_tier target materialized then materialized_reasons c else []))

module _ (h : Digests) (p : BeamSearchPolicy) where
  -- `_priority`.
  abbrev pub priority_of : SearchCandidate → ℕ
  priority_of c = h.priority c.scores c.uncertainty.value p.uncertainty_bonus

  -- The sort key of `_ranked`: whether `a` may stand before `b`.
  unfoldable pub ranks_before : SearchCandidate → SearchCandidate → Bool
  ranks_before a b =
      ltb (priority_of b) (priority_of a)
      || priority_of a == priority_of b
        && (ltb (h.tie_digest p.seed a.candidate_id) (h.tie_digest p.seed b.candidate_id)
            || h.tie_digest p.seed a.candidate_id == h.tie_digest p.seed b.candidate_id
              && leb a.candidate_id b.candidate_id)

  unfoldable pub insert_ranked : SearchCandidate → List SearchCandidate → List SearchCandidate
  insert_ranked c [] = c ∷ []
  insert_ranked c (x ∷ xs) = if ranks_before c x then c ∷ x ∷ xs else x ∷ insert_ranked c xs

  -- `_ranked`: `sorted` by that key.
  unfoldable pub ranked : List SearchCandidate → List SearchCandidate
  unfolding insert_ranked ranks_before
  ranked [] = []
  ranked (c ∷ cs) = insert_ranked c (ranked cs)

  -- `_pruned`.
  unfoldable pub pruned : SearchCandidate → WorldTier → List ReasonCode → Option ℕ → SearchDecision
  pruned c target reasons deduplicated_to = record {
    candidate_id = c.candidate_id;
    source_tier = c.tier;
    target_tier = target;
    disposition = prune;
    reason_codes = reasons;
    priority = priority_of c;
    reservation_id = none;
    deduplicated_to = deduplicated_to;
  }

  -- The decision on a candidate that is promoted.
  unfoldable pub promotion : SearchCandidate → WorldTier → ℕ → SearchDecision
  promotion c target reservation = record {
    candidate_id = c.candidate_id;
    source_tier = c.tier;
    target_tier = target;
    disposition = promote;
    reason_codes = promoted ∷ [];
    priority = priority_of c;
    reservation_id = some reservation;
    deduplicated_to = none;
  }
