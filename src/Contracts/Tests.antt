-- ===== src/Contracts/Tests.antt =====
-- A receipt of two runs and one control, and the theorems at it.
use stateweaver.Common.{ℕ, ◌≡◌, refl, true, false, none, some, [], ◌∷◌, ok, length}
use stateweaver.Contracts.Oracles.{
  OracleDefinition-discrete, validate_oracle, validate_oracles, insert_definition,
  oracle_definitions, definitions_unique, ascending, require_canonical_oracles, oracle_evidence,
  require_oracle_evidence,
}
use stateweaver.Contracts.Receipts.{require_ids}
use stateweaver.Contracts.Receipts.Checks.{
  validate_control, validate_patched, check_attempt, check_attempt_oracles, check_control,
  check_patched, each, check_parts, check_attempts, check_oracles, validate_receipt,
}
use stateweaver.Contracts.Receipts.Findings.{validate_finding}
use stateweaver.Contracts.Fragments.{ProvenanceKind-discrete}
use stateweaver.Common.{contains, unique, ℕ_discrete}
use stateweaver.Contracts.Fragments.{observed}
use stateweaver.Contracts.Oracles.{OracleResult, OracleOutcome, satisfied, violated}
use stateweaver.Contracts.Receipts.{
  Binding, Retained, RealityReplayAttempt, NegativeControl, ReceiptContent, RealityReplayReceipt,
  ReceiptDigests, PatchedVersionReplay, blocked_by_fix, reproduced, not_reproduced,
}
use stateweaver.Contracts.Receipts.Findings.{Finding, chain_compiled, is_confirmed}
use stateweaver.Contracts.Receipts.Reality.{IsReality}
use stateweaver.Contracts.Receipts.Coherent.{
  validate_receipt-IsReality, validate_finding_unconfirmed,
}

-- On an `unfolding` line this opens the code.
engine : Unit {0}
unfolding OracleDefinition-discrete validate_oracle validate_oracles insert_definition
    oracle_definitions definitions_unique ascending require_canonical_oracles oracle_evidence
    require_oracle_evidence require_ids validate_control validate_patched check_attempt
    check_attempt_oracles check_control check_patched each check_parts check_attempts check_oracles
    validate_receipt validate_finding ProvenanceKind-discrete contains unique ℕ_discrete
engine = tt

abbrev digests : ReceiptDigests
digests = record {
  oracles = λ rs. length rs;
  definitions = λ ds. length ds;
  receipt = λ c. length c.attempts;
  identifier = λ k. k;
}

abbrev oracle : ℕ → OracleOutcome → OracleResult
oracle k outcome = record {
  oracle_result_id = k;
  oracle_type = 0;
  world_id = 5;
  invariant = 1;
  outcome = outcome;
  observations = 1 ∷ [];
  evidence_ids = 3 ∷ [];
  deterministic = true;
  provenance = observed;
  evaluator_version = 1;
}

abbrev binding : ℕ → Binding
binding plan = record {
  target_id = 1;
  target_version = 1;
  target_lock = 1;
  adapter_lock = 1;
  plan_id = plan;
  plan_hash = plan;
  root_seed_id = 1;
  root_fingerprint = 1;
}

abbrev retained : ℕ → ℕ → Retained
retained run signature = record {
  replay_run_id = run;
  replay_result = run;
  action_log = 1;
  trace_hash = 1;
  semantic_signature = signature;
  oracle_results_hash = 1;
  evidence_ids = 3 ∷ [];
}

abbrev attempt : ℕ → RealityReplayAttempt
attempt run = record {
  binding = binding 1;
  retained = retained run 1;
  outcome = reproduced;
  scope_manifest = 1;
}

abbrev control : NegativeControl
control = record {
  name = 1;
  kind = 0;
  binding = binding 2;
  retained = retained 9 2;
  control_delta = 1;
  outcome = not_reproduced;
  oracle_results = oracle 8 satisfied ∷ [];
}

abbrev patched : PatchedVersionReplay
patched = record {
  binding = record (binding 1) { target_version = 2; target_lock = 2 };
  retained = retained 10 3;
  outcome = blocked_by_fix;
  oracle_results = oracle 9 satisfied ∷ [];
  failed_step_id = 1;
  failure_code = 1;
}

abbrev content : ReceiptContent
content = record {
  anchor_mode = 0;
  scope_id = 1;
  scope_manifest = 1;
  binding = binding 1;
  chain_id = 4;
  attempts = attempt 1 ∷ attempt 2 ∷ [];
  oracle_results = oracle 7 violated ∷ [];
  oracle_definition = 1;
  negative_controls = control ∷ [];
  patched_version = some patched;
  evidence_manifest = 1;
}

abbrev receipt : RealityReplayReceipt
receipt = record { receipt_id = 2; receipt_hash = 2; content = content }

receipt_test : validate_receipt digests receipt ≡ ok receipt
unfolding engine
receipt_test = refl

validate_receipt-IsReality_example :
    IsReality digests content
    × (receipt.receipt_hash ≡ digests.receipt content)
    × (receipt.receipt_id ≡ digests.identifier receipt.receipt_hash)
validate_receipt-IsReality_example = validate_receipt-IsReality digests receipt receipt receipt_test

abbrev finding : Finding
finding = record {
  finding_id = 1;
  status = chain_compiled;
  chain_id = 4;
  oracle_result_ids = 7 ∷ [];
  reality_replay = none;
}

finding_test : validate_finding digests finding ≡ ok finding
unfolding engine
finding_test = refl

validate_finding_unconfirmed_example :
    (is_confirmed finding.status ≡ false) × (finding.reality_replay ≡ none)
validate_finding_unconfirmed_example =
    validate_finding_unconfirmed digests finding finding finding_test
