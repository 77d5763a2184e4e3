-- ===== src/Contracts/Receipts/Coherent.antt =====
-- What a receipt of a reality replay proves, and that a finding is never confirmed by one.
use stateweaver.Common.{
  ◌≡◌, false, inl, inr, Bool-cases, none, Option-cases, map, arith, ok, all-In, unique_iff,
}
use stateweaver.Contracts.Oracles.{OracleResult, is_violated}
use stateweaver.Contracts.Receipts.{
  Retained, RealityReplayAttempt, NegativeControl, RealityReplayReceipt, ReceiptDigests,
  is_reproduced, of_all, run_of,
}
use stateweaver.Contracts.Receipts.Checks.{
  validate_control, validate_patched, check_attempt, check_attempt_oracles, check_control,
  check_patched, each, if_patched, validate_receipt,
}
use stateweaver.Contracts.Receipts.Reality.{IsReality}
use stateweaver.Contracts.Receipts.Reading.{
  each-In, one_value-In, map-In, one_value-attempts, all-AreProofs,
}
use stateweaver.Contracts.Receipts.Inversions.{
  Parts, Attempts, Oracles, check_attempt-IsAttempt, check_control-IsControl,
  check_patched-IsPatched, if_patched-at, check_parts-Parts, check_attempts-Attempts,
  check_oracles-Oracles,
}
use stateweaver.Contracts.Receipts.Findings.{Finding, is_confirmed, validate_finding}

-- If a receipt is accepted: it has two or more attempts, an oracle result and a control; no run, no result and no name of a
-- control is counted twice. Each attempt reproduced the violation with the plan of the receipt, in its scope, in its
-- target, version, adapter and root, and all attempts have the same signature, trace and log. The oracle results are
-- deterministic observations of violations in one world, and the digest of their definitions is the one of the receipt. Each control did not reproduce, in the same target, version,
-- adapter and root with another plan and another signature, and each invariant of the receipt was observed to hold in it. A
-- patched replay, if there is one, was blocked in another version of the target, and each invariant was observed
-- to hold. What each retains has the digest of its oracle results and all their evidence. The hash and the
-- identifier of the receipt are those of its content.
pub validate_receipt-IsReality :
    (h : ReceiptDigests) (r r' : RealityReplayReceipt)
    → validate_receipt h r ≡ ok r'
    → IsReality h r.content
      × (r.receipt_hash ≡ h.receipt r.content)
      × (r.receipt_id ≡ h.identifier r.receipt_hash)
unfolding validate_receipt
validate_receipt-IsReality h r r' e =
    let c = r.content in
    let parts : Parts h c = check_parts-Parts h c (ground arith) in
    let attempts : Attempts h c = check_attempts-Attempts h c (ground arith) in
    let oracles : Oracles h c = check_oracles-Oracles h c (ground arith) in
    let controls : each h (check_control h c) c.negative_controls ≡ ok tt = ground arith in
    let patch : if_patched h (check_patched h c) c.patched_version ≡ ok tt = ground arith in
    (
      record {
        repeated = parts.two;
        observed = parts.some_oracle;
        compared = parts.some_control;
        runs_apart = (unique_iff (of_all run_of c)).0 parts.runs;
        results_apart = (unique_iff (of_all (λ (x : Retained). x.replay_result) c)).0 parts.results;
        controls_apart =
            (unique_iff (map (λ (x : NegativeControl). x.name) c.negative_controls)).0
              (ground arith);
        attempted = λ a i.
            check_attempt-IsAttempt h c a
              (all-In (λ (x : RealityReplayAttempt). is_reproduced x.outcome) c.attempts a
                attempts.reproduce i)
              (each-In h (check_attempt h c) c.attempts a attempts.checked i)
              (each-In h (check_attempt_oracles h c) c.attempts a oracles.checked i);
        alike = λ a b i j. record {
          signature =
              one_value-attempts (λ (x : Retained). x.semantic_signature) c.attempts a b
                attempts.signatures i j;
          trace =
              one_value-attempts (λ (x : Retained). x.trace_hash) c.attempts a b attempts.traces i
                j;
          log =
              one_value-attempts (λ (x : Retained). x.action_log) c.attempts a b attempts.logs i j;
        };
        definitions = oracles.definitions;
        violates = all-AreProofs is_violated c.oracle_results oracles.violated;
        one_world = λ x y i j.
            one_value-In (map (λ (o : OracleResult). o.world_id) c.oracle_results) x.world_id
              y.world_id oracles.worlds
              (map-In (λ (o : OracleResult). o.world_id) c.oracle_results x i)
              (map-In (λ (o : OracleResult). o.world_id) c.oracle_results y j);
        controlled = λ x i.
            check_control-IsControl h c x
              (each-In h (check_control h c) c.negative_controls x controls i)
              (each-In h (validate_control h) c.negative_controls x parts.controls i);
        patched = λ p q.
            check_patched-IsPatched h c p
              (if_patched-at h c (check_patched h c) c.patched_version p patch q)
              (if_patched-at h c (validate_patched h) c.patched_version p parts.patch q);
      },
      ground arith,
      ground arith,
    )

-- A finding that is accepted is not confirmed and has no receipt: no receipt can promote a finding by itself.
pub validate_finding_unconfirmed :
    (h : ReceiptDigests) (f f' : Finding)
    → validate_finding h f ≡ ok f'
    → (is_confirmed f.status ≡ false) × (f.reality_replay ≡ none)
unfolding validate_finding
validate_finding_unconfirmed h f f' e = elim (Bool-cases (is_confirmed f.status)) [
  | inl q ↦ elim (Option-cases f.reality_replay) [
    | inl g ↦ absurd (ground arith)
    | inr (r, g) ↦ absurd (ground arith)
  ]
  | inr q ↦ elim (Option-cases f.reality_replay) [
    | inl g ↦ (q, g)
    | inr (r, g) ↦ absurd (ground arith)
  ]
]
