-- ===== src/Contracts/Receipts/Checks.antt =====
-- The checks of a receipt and of its parts: the validators of packages/contracts/src/stateweaver/contracts/oracles.py.
use stateweaver.Common.{
  not, ◌||◌, Option, none, some, List, [], ◌∷◌, map, Result, ok, raise_if, ◌>>◌, ◌==◌, ltb, all,
  length, is_empty, contains, unique,
}
use stateweaver.Contracts.Oracles.{
  OracleResult, is_satisfied, is_violated, validate_oracles, oracle_definitions,
  require_canonical_oracles, require_oracle_evidence, ascending, is_proof,
}
use stateweaver.Contracts.Receipts.{
  Retained, RealityReplayAttempt, NegativeControl, PatchedVersionReplay, ReceiptContent,
  RealityReplayReceipt, ReceiptError, ReceiptDigests, is_reproduced, is_not_reproduced, is_blocked,
  lifted, require_ids, one_value, same_definitions, same_target, same_root, same_plan_of,
  of_attempts, of_all, run_of, control_violates, not_satisfied, oracle_hash_differs, not_blocked,
  not_reproduced_here, trace_differs, log_differs, same_signature, definitions_differ, same_version,
  same_lock, receipt_hash_differs, receipt_id_differs, too_few_attempts, no_oracle, no_control,
  attempts_unordered, runs_repeat, results_repeat, scope_differs, target_differs, adapter_differs,
  plan_differs, root_differs, signature_differs, not_violated, worlds_differ,
  definition_hash_differs, controls_unordered, controls_repeat, same_plan,
}

module _ (h : ReceiptDigests) where
  -- `control_is_observed_and_nonviolating`, after its evidence.
  unfoldable pub validate_control : NegativeControl → Result ReceiptError (Unit {0})
  validate_control c = do
    require_ids c.retained.evidence_ids
    lifted (validate_oracles c.oracle_results)
    lifted (require_canonical_oracles c.oracle_results)
    raise_if (not (is_not_reproduced c.outcome)) control_violates
    raise_if (not (all (is_proof is_satisfied) c.oracle_results)) not_satisfied
    raise_if (not (c.retained.oracle_results_hash == h.oracles c.oracle_results))
        oracle_hash_differs
    lifted (require_oracle_evidence c.retained.evidence_ids c.oracle_results)

  -- `patch_replay_is_an_observed_block`, after its evidence.
  unfoldable pub validate_patched : PatchedVersionReplay → Result ReceiptError (Unit {0})
  validate_patched p = do
    require_ids p.retained.evidence_ids
    lifted (validate_oracles p.oracle_results)
    lifted (require_canonical_oracles p.oracle_results)
    raise_if (not (is_blocked p.outcome)) not_blocked
    raise_if (not (all (is_proof is_satisfied) p.oracle_results)) not_satisfied
    raise_if (not (p.retained.oracle_results_hash == h.oracles p.oracle_results))
        oracle_hash_differs
    lifted (require_oracle_evidence p.retained.evidence_ids p.oracle_results)

  -- The loop over the attempts that compares them with the receipt.
  unfoldable pub check_attempt :
      ReceiptContent → RealityReplayAttempt → Result ReceiptError (Unit {0})
  check_attempt c a = do
    raise_if (not (a.scope_manifest == c.scope_manifest)) scope_differs
    raise_if
        (not (same_target a.binding c.binding)
          || not (a.binding.target_lock == c.binding.target_lock))
        target_differs
    raise_if (not (a.binding.adapter_lock == c.binding.adapter_lock)) adapter_differs
    raise_if (not (same_plan_of a.binding c.binding)) plan_differs
    raise_if (not (same_root a.binding c.binding)) root_differs

  -- The loop over the attempts that compares them with the oracle results.
  unfoldable pub check_attempt_oracles :
      ReceiptContent → RealityReplayAttempt → Result ReceiptError (Unit {0})
  check_attempt_oracles c a = do
    raise_if (not (a.retained.oracle_results_hash == h.oracles c.oracle_results))
        oracle_hash_differs
    lifted (require_oracle_evidence a.retained.evidence_ids c.oracle_results)

  -- The loop over the controls.
  unfoldable pub check_control : ReceiptContent → NegativeControl → Result ReceiptError (Unit {0})
  check_control c x = do
    raise_if (not (same_target x.binding c.binding)) target_differs
    raise_if
        (not (x.binding.target_lock == c.binding.target_lock)
          || not (x.binding.adapter_lock == c.binding.adapter_lock))
        adapter_differs
    raise_if (not (same_root x.binding c.binding)) root_differs
    raise_if (x.binding.plan_id == c.binding.plan_id || x.binding.plan_hash == c.binding.plan_hash)
        same_plan
    raise_if
        (contains (of_attempts (λ (r : Retained). r.semantic_signature) c.attempts)
          x.retained.semantic_signature)
        same_signature
    raise_if
        (not (
          same_definitions (oracle_definitions x.oracle_results)
            (oracle_definitions c.oracle_results)))
        definitions_differ

  -- The checks of the patched replay.
  unfoldable pub check_patched :
      ReceiptContent → PatchedVersionReplay → Result ReceiptError (Unit {0})
  check_patched c p = do
    raise_if (not (p.binding.target_id == c.binding.target_id)) target_differs
    raise_if (p.binding.target_version == c.binding.target_version) same_version
    raise_if (p.binding.target_lock == c.binding.target_lock) same_lock
    raise_if (not (p.binding.adapter_lock == c.binding.adapter_lock)) adapter_differs
    raise_if (not (same_plan_of p.binding c.binding)) plan_differs
    raise_if (not (same_root p.binding c.binding)) root_differs
    raise_if
        (contains (of_attempts (λ (r : Retained). r.semantic_signature) c.attempts)
          p.retained.semantic_signature)
        same_signature
    raise_if
        (not (
          same_definitions (oracle_definitions p.oracle_results)
            (oracle_definitions c.oracle_results)))
        definitions_differ

  -- A check of each element.
  unfoldable pub each :
      {A : Type 0} → (A → Result ReceiptError (Unit {0})) → List A → Result ReceiptError (Unit {0})
  each check [] = ok tt
  each check (x ∷ xs) = do check x; each check xs

  abbrev pub if_patched :
      (PatchedVersionReplay → Result ReceiptError (Unit {0}))
      → Option PatchedVersionReplay
      → Result ReceiptError (Unit {0})
  if_patched check none = ok tt
  if_patched check (some p) = check p

  -- The first checks: the parts are valid, and no run or result occurs twice.
  unfoldable pub check_parts : ReceiptContent → Result ReceiptError (Unit {0})
  check_parts c = do
    each (λ (a : RealityReplayAttempt). require_ids a.retained.evidence_ids) c.attempts
    lifted (validate_oracles c.oracle_results)
    each validate_control c.negative_controls
    if_patched validate_patched c.patched_version
    raise_if (ltb (length c.attempts) 2) too_few_attempts
    raise_if (is_empty c.oracle_results) no_oracle
    raise_if (is_empty c.negative_controls) no_control
    raise_if (not (ascending (of_attempts run_of c.attempts))) attempts_unordered
    raise_if (not (unique (of_attempts run_of c.attempts))) runs_repeat
    raise_if (not (unique (of_all run_of c))) runs_repeat
    raise_if (not (unique (of_all (λ (r : Retained). r.replay_result) c))) results_repeat

  -- The checks of the attempts with each other and with the receipt.
  unfoldable pub check_attempts : ReceiptContent → Result ReceiptError (Unit {0})
  check_attempts c = do
    raise_if (not (all (λ (a : RealityReplayAttempt). is_reproduced a.outcome) c.attempts))
        not_reproduced_here
    each (check_attempt c) c.attempts
    raise_if (not (one_value (of_attempts (λ (r : Retained). r.semantic_signature) c.attempts)))
        signature_differs
    raise_if (not (one_value (of_attempts (λ (r : Retained). r.trace_hash) c.attempts)))
        trace_differs
    raise_if (not (unique (of_attempts (λ (r : Retained). r.replay_result) c.attempts)))
        results_repeat
    raise_if (not (one_value (of_attempts (λ (r : Retained). r.action_log) c.attempts))) log_differs

  -- The checks of the oracle results.
  unfoldable pub check_oracles : ReceiptContent → Result ReceiptError (Unit {0})
  check_oracles c = do
    lifted (require_canonical_oracles c.oracle_results)
    raise_if (not (all (is_proof is_violated) c.oracle_results)) not_violated
    raise_if (not (one_value (map (λ (r : OracleResult). r.world_id) c.oracle_results)))
        worlds_differ
    each (check_attempt_oracles c) c.attempts
    raise_if (not (c.oracle_definition == h.definitions (oracle_definitions c.oracle_results)))
        definition_hash_differs

  -- `receipt_is_a_coherent_reality_replay`.
  unfoldable pub validate_receipt : RealityReplayReceipt → Result ReceiptError RealityReplayReceipt
  validate_receipt r = do
    check_parts r.content
    check_attempts r.content
    check_oracles r.content
    raise_if (not (ascending (map (λ (x : NegativeControl). x.name) r.content.negative_controls)))
        controls_unordered
    raise_if (not (unique (map (λ (x : NegativeControl). x.name) r.content.negative_controls)))
        controls_repeat
    each (check_control r.content) r.content.negative_controls
    if_patched (check_patched r.content) r.content.patched_version
    raise_if (not (r.receipt_hash == h.receipt r.content)) receipt_hash_differs
    raise_if (not (r.receipt_id == h.identifier (h.receipt r.content))) receipt_id_differs
    ok r
