-- ===== src/Contracts/Receipts/Inversions.antt =====
-- What the checks of a receipt leave when they pass: `check_*` and `validate_*` of Contracts.Receipts.Checks, the
-- validators of packages/contracts/src/stateweaver/contracts/oracles.py.
use stateweaver.Common.{
  ◌≡◌, ◌≢◌, ◌≤◌, sym, ap, ◌∙◌, Bool, true, false, Option, some, [], map, Result, arith, length, ok,
  all, unique,
}
use stateweaver.Contracts.Oracles.{
  oracle_definitions, OracleResult, is_violated, is_satisfied, is_proof, require_oracle_evidence,
}
use stateweaver.Contracts.Receipts.{
  Retained, RealityReplayAttempt, NegativeControl, PatchedVersionReplay, ReceiptContent,
  ReceiptError, ReceiptDigests, ReplayOutcome, reproduced, not_reproduced, blocked_by_fix,
  is_reproduced, is_not_reproduced, is_blocked, of_all, run_of, of_attempts, one_value, lifted,
}
use stateweaver.Contracts.Receipts.Checks.{
  validate_control, validate_patched, check_attempt, check_attempt_oracles, check_control,
  check_patched, each, if_patched, check_parts, check_attempts, check_oracles,
}
use stateweaver.Contracts.Receipts.Reality.{Supports, IsAttempt, IsControl, IsPatched}
use stateweaver.Contracts.Receipts.Reading.{
  contains-attempts, same_definitions-SameInvariants, require_oracle_evidence-In, all-AreProofs,
}

-- A test that cannot fail.
held : (b : Bool) → ¬ (b ≡ false) → b ≡ true
held b n = ground (arith, n)

reproduced_is : (o : ReplayOutcome) → is_reproduced o ≡ true → o ≡ reproduced
reproduced_is o e = ground arith

not_reproduced_is : (o : ReplayOutcome) → is_not_reproduced o ≡ true → o ≡ not_reproduced
not_reproduced_is o e = ground arith

blocked_is : (o : ReplayOutcome) → is_blocked o ≡ true → o ≡ blocked_by_fix
blocked_is o e = ground arith

module _ (h : ReceiptDigests) (c : ReceiptContent) where
  oracles_support :
      (a : RealityReplayAttempt)
      → check_attempt_oracles h c a ≡ ok tt
      → Supports h a.retained c.oracle_results
  unfolding check_attempt_oracles
  oracles_support a e = record {
    digest = ground arith;
    evidence = require_oracle_evidence-In a.retained.evidence_ids c.oracle_results (ground arith);
  }

  pub check_attempt-IsAttempt :
      (a : RealityReplayAttempt)
      → is_reproduced a.outcome ≡ true
      → check_attempt h c a ≡ ok tt
      → check_attempt_oracles h c a ≡ ok tt
      → IsAttempt h c a
  unfolding check_attempt
  check_attempt-IsAttempt a r e o = record {
    reproduces = reproduced_is a.outcome r;
    in_scope = ground arith;
    place = record {
      target = ground arith;
      version = ground arith;
      lock = ground arith;
      adapter = ground arith;
      seed = ground arith;
      root = ground arith;
    };
    plan = ground arith;
    plan_digest = ground arith;
    retains = oracles_support a o;
  }

  control_inv :
      (x : NegativeControl)
      → validate_control h x ≡ ok tt
      → (is_not_reproduced x.outcome ≡ true)
        × (all (is_proof is_satisfied) x.oracle_results ≡ true)
        × (x.retained.oracle_results_hash ≡ h.oracles x.oracle_results)
        × (lifted (require_oracle_evidence x.retained.evidence_ids x.oracle_results) ≡ ok tt)
  unfolding validate_control
  control_inv x e = (
    ground arith,
    held (all (is_proof is_satisfied) x.oracle_results) (λ q. ground arith),
    ground arith,
    ground arith,
  )

  pub check_control-IsControl :
      (x : NegativeControl)
      → check_control h c x ≡ ok tt
      → validate_control h x ≡ ok tt
      → IsControl h c x
  unfolding check_control
  check_control-IsControl x e v =
      let (outcome, holds, digest, evidence) = control_inv x v in
      record {
        reproduces_not = not_reproduced_is x.outcome outcome;
        place = record {
          target = ground arith;
          version = ground arith;
          lock = ground arith;
          adapter = ground arith;
          seed = ground arith;
          root = ground arith;
        };
        other_plan = λ q. absurd (ground arith);
        other_digest = λ q. absurd (ground arith);
        other_signature =
            contains-attempts (λ (r : Retained). r.semantic_signature) c.attempts
              x.retained.semantic_signature (ground arith);
        invariants =
            same_definitions-SameInvariants x.oracle_results c.oracle_results (ground arith);
        holds = all-AreProofs is_satisfied x.oracle_results holds;
        retains = record {
          digest = digest;
          evidence = require_oracle_evidence-In x.retained.evidence_ids x.oracle_results evidence;
        };
      }

  patched_inv :
      (p : PatchedVersionReplay)
      → validate_patched h p ≡ ok tt
      → (is_blocked p.outcome ≡ true)
        × (all (is_proof is_satisfied) p.oracle_results ≡ true)
        × (p.retained.oracle_results_hash ≡ h.oracles p.oracle_results)
        × (lifted (require_oracle_evidence p.retained.evidence_ids p.oracle_results) ≡ ok tt)
  unfolding validate_patched
  patched_inv p e = (
    ground arith,
    held (all (is_proof is_satisfied) p.oracle_results) (λ q. ground arith),
    ground arith,
    ground arith,
  )

  pub check_patched-IsPatched :
      (p : PatchedVersionReplay)
      → check_patched h c p ≡ ok tt
      → validate_patched h p ≡ ok tt
      → IsPatched h c p
  unfolding check_patched
  check_patched-IsPatched p e v =
      let (outcome, holds, digest, evidence) = patched_inv p v in
      record {
        blocks = blocked_is p.outcome outcome;
        target = ground arith;
        other_version = λ q. absurd (ground arith);
        other_lock = λ q. absurd (ground arith);
        adapter = ground arith;
        seed = ground arith;
        root = ground arith;
        plan = ground arith;
        plan_digest = ground arith;
        other_signature =
            contains-attempts (λ (r : Retained). r.semantic_signature) c.attempts
              p.retained.semantic_signature (ground arith);
        invariants =
            same_definitions-SameInvariants p.oracle_results c.oracle_results (ground arith);
        holds = all-AreProofs is_satisfied p.oracle_results holds;
        retains = record {
          digest = digest;
          evidence = require_oracle_evidence-In p.retained.evidence_ids p.oracle_results evidence;
        };
      }

  pub if_patched-at :
      (check : PatchedVersionReplay → Result ReceiptError (Unit {0}))
      (o : Option PatchedVersionReplay) (p : PatchedVersionReplay)
      → if_patched h check o ≡ ok tt
      → o ≡ some p
      → check p ≡ ok tt
  if_patched-at check o p e q = ap (if_patched h check) (sym q) ∙ e

  -- What the first checks leave.
  pub record Parts : Type 0 where
    pub two : 2 ≤ length c.attempts
    pub some_oracle : c.oracle_results ≢ []
    pub some_control : c.negative_controls ≢ []
    pub runs : unique (of_all run_of c) ≡ true
    pub results : unique (of_all (λ (r : Retained). r.replay_result) c) ≡ true
    pub controls : each h (validate_control h) c.negative_controls ≡ ok tt
    pub patch : if_patched h (validate_patched h) c.patched_version ≡ ok tt

  pub check_parts-Parts : check_parts h c ≡ ok tt → Parts
  unfolding check_parts
  check_parts-Parts e = record {
    two = ground arith;
    some_oracle = λ q. ground arith;
    some_control = λ q. ground arith;
    runs = ground arith;
    results = ground arith;
    controls = ground arith;
    patch = ground arith;
  }

  -- What the checks of the attempts leave.
  pub record Attempts : Type 0 where
    pub reproduce : all (λ (a : RealityReplayAttempt). is_reproduced a.outcome) c.attempts ≡ true
    pub checked : each h (check_attempt h c) c.attempts ≡ ok tt
    pub signatures :
        one_value (of_attempts (λ (r : Retained). r.semantic_signature) c.attempts) ≡ true
    pub traces : one_value (of_attempts (λ (r : Retained). r.trace_hash) c.attempts) ≡ true
    pub logs : one_value (of_attempts (λ (r : Retained). r.action_log) c.attempts) ≡ true

  pub check_attempts-Attempts : check_attempts h c ≡ ok tt → Attempts
  unfolding check_attempts
  check_attempts-Attempts e = record {
    reproduce =
        held (all (λ (a : RealityReplayAttempt). is_reproduced a.outcome) c.attempts)
          (λ q. ground arith);
    checked = ground arith;
    signatures =
        held (one_value (of_attempts (λ (r : Retained). r.semantic_signature) c.attempts))
          (λ q. ground arith);
    traces =
        held (one_value (of_attempts (λ (r : Retained). r.trace_hash) c.attempts))
          (λ q. ground arith);
    logs =
        held (one_value (of_attempts (λ (r : Retained). r.action_log) c.attempts))
          (λ q. ground arith);
  }

  -- What the checks of the oracle results leave.
  pub record Oracles : Type 0 where
    pub violated : all (is_proof is_violated) c.oracle_results ≡ true
    pub definitions : c.oracle_definition ≡ h.definitions (oracle_definitions c.oracle_results)
    pub worlds : one_value (map (λ (r : OracleResult). r.world_id) c.oracle_results) ≡ true
    pub checked : each h (check_attempt_oracles h c) c.attempts ≡ ok tt

  pub check_oracles-Oracles : check_oracles h c ≡ ok tt → Oracles
  unfolding check_oracles
  check_oracles-Oracles e = record {
    violated = held (all (is_proof is_violated) c.oracle_results) (λ q. ground arith);
    definitions = ground arith;
    worlds =
        held (one_value (map (λ (r : OracleResult). r.world_id) c.oracle_results))
          (λ q. ground arith);
    checked = ground arith;
  }
