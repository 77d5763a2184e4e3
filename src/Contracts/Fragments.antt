-- ===== src/Contracts/Fragments.antt =====
-- `TransitionFragment` of packages/contracts/src/stateweaver/contracts/state_ir.py, and what it must show of
-- its origin.
use stateweaver.Common.{
  ℕ, Bool, true, false, not, ◌&&◌, ◌||◌, List, [], ◌∷◌, Result, ok, raise_if, ◌>>◌, ltb, any, all,
  same, is_empty, unique,
}
use stateweaver.Contracts.Actions.{Action}
use stateweaver.Contracts.States.{StateCondition, StateEffect}

pub data ProvenanceKind : Type 0 where
  hypothesized inferred observed mocked unknown declared : ProvenanceKind

unfoldable pub ProvenanceKind-discrete : Discrete ProvenanceKind
ProvenanceKind-discrete = hlevel

pub data FidelityLevel : Type 0 where
  exact_level observed_level partial_level inferred_level unknown_level : FidelityLevel

pub record FidelityProfile : Type 0 where
  pub code : FidelityLevel
  pub identity : FidelityLevel
  pub database : FidelityLevel
  pub cache : FidelityLevel
  pub queue : FidelityLevel
  pub timing : FidelityLevel

pub record TransitionFragment : Type 0 where
  pub transition_id : ℕ
  pub name : ℕ
  pub source : ProvenanceKind
  pub preconditions : List StateCondition
  pub action : Action
  pub effects : List StateEffect
  pub observables : List StateCondition
  pub evidence_ids : List ℕ
  pub fidelity : FidelityProfile
  pub consistent_replays : ℕ

pub data FragmentError : Type 0 where
  no_precondition no_effect no_observable evidence_repeats too_few_replays : FragmentError
  evidence_missing runtime_evidence_missing evidence_claimed : FragmentError
  fidelity_claimed unknown_fidelity_claimed fidelity_unobserved : FragmentError

abbrev pub is_source : ProvenanceKind → ProvenanceKind → Bool
is_source a b = same ProvenanceKind-discrete b a

abbrev fidelity_levels : FidelityProfile → List FidelityLevel
fidelity_levels p = p.code ∷ p.identity ∷ p.database ∷ p.cache ∷ p.queue ∷ p.timing ∷ []

abbrev is_observed_level : FidelityLevel → Bool
is_observed_level exact_level = true
is_observed_level observed_level = true
is_observed_level _ = false

abbrev is_unknown_level : FidelityLevel → Bool
is_unknown_level unknown_level = true
is_unknown_level _ = false

-- `promotion_evidence_is_sufficient`.
unfoldable pub validate_fragment : TransitionFragment → Result FragmentError TransitionFragment
validate_fragment f = do
  let levels = fidelity_levels f.fidelity
  raise_if (is_empty f.preconditions) no_precondition
  raise_if (is_empty f.effects) no_effect
  raise_if (is_empty f.observables) no_observable
  raise_if (not (unique f.evidence_ids)) evidence_repeats
  raise_if (is_source inferred f.source && ltb f.consistent_replays 2) too_few_replays
  raise_if
      ((is_source inferred f.source || is_source declared f.source || is_source mocked f.source)
        && is_empty f.evidence_ids)
      evidence_missing
  raise_if (is_source observed f.source && is_empty f.evidence_ids) runtime_evidence_missing
  raise_if
      ((is_source hypothesized f.source || is_source unknown f.source)
        && not (is_empty f.evidence_ids))
      evidence_claimed
  raise_if (is_source hypothesized f.source && any is_observed_level levels) fidelity_claimed
  raise_if (is_source mocked f.source && any is_observed_level levels) fidelity_claimed
  raise_if (is_source unknown f.source && not (all is_unknown_level levels))
      unknown_fidelity_claimed
  raise_if (is_source observed f.source && not (any is_observed_level levels)) fidelity_unobserved
  ok f
