-- ===== src/Contracts/Receipts/Reality.antt =====
-- What a receipt of packages/contracts/src/stateweaver/contracts/oracles.py claims, in terms of its replays and not of
-- the checks.
use stateweaver.Common.{ℕ, ◌≡◌, ◌≢◌, ◌≤◌, Bool, true, some, List, [], map, length, In, Distinct}
use stateweaver.Contracts.Oracles.{
  OracleResult, OracleOutcome, is_violated, is_satisfied, is_proof, definition_of,
  oracle_definitions,
}
use stateweaver.Contracts.Receipts.{
  Binding, Retained, RealityReplayAttempt, NegativeControl, PatchedVersionReplay, ReceiptContent,
  ReceiptDigests, reproduced, not_reproduced, blocked_by_fix, of_all, run_of,
}

-- The two lists of oracle results are about the same invariants, of the same evaluators.
pub record SameInvariants (xs ys : List OracleResult) : Type 0 where
  pub covered :
      (y : OracleResult)
      → In y ys
      → (x : OracleResult) × In x xs × (definition_of x ≡ definition_of y)
  pub covers :
      (x : OracleResult)
      → In x xs
      → (y : OracleResult) × In y ys × (definition_of y ≡ definition_of x)

-- In one version of one target, through one adapter, from one root.
pub record SamePlace (a b : Binding) : Type 0 where
  pub target : a.target_id ≡ b.target_id
  pub version : a.target_version ≡ b.target_version
  pub lock : a.target_lock ≡ b.target_lock
  pub adapter : a.adapter_lock ≡ b.adapter_lock
  pub seed : a.root_seed_id ≡ b.root_seed_id
  pub root : a.root_fingerprint ≡ b.root_fingerprint

-- What is retained has the digest of the results, and all the evidence that they name.
pub record Supports (h : ReceiptDigests) (r : Retained) (rs : List OracleResult) : Type 0 where
  pub digest : r.oracle_results_hash ≡ h.oracles rs
  pub evidence : (x : OracleResult) (k : ℕ) → In x rs → In k x.evidence_ids → In k r.evidence_ids

-- Each result is a deterministic observation with the outcome.
abbrev pub AreProofs : (OracleOutcome → Bool) → List OracleResult → Type 0
AreProofs outcome rs = (r : OracleResult) → In r rs → is_proof outcome r ≡ true

-- A replay of the plan of the receipt in its place.
pub record IsAttempt (h : ReceiptDigests) (c : ReceiptContent) (a : RealityReplayAttempt)
    : Type 0 where
  pub reproduces : a.outcome ≡ reproduced
  pub in_scope : a.scope_manifest ≡ c.scope_manifest
  pub place : SamePlace a.binding c.binding
  pub plan : a.binding.plan_id ≡ c.binding.plan_id
  pub plan_digest : a.binding.plan_hash ≡ c.binding.plan_hash
  pub retains : Supports h a.retained c.oracle_results

-- A replay of another plan in the place of the receipt, in which the invariants of the receipt hold.
pub record IsControl (h : ReceiptDigests) (c : ReceiptContent) (x : NegativeControl) : Type 0 where
  pub reproduces_not : x.outcome ≡ not_reproduced
  pub place : SamePlace x.binding c.binding
  pub other_plan : x.binding.plan_id ≢ c.binding.plan_id
  pub other_digest : x.binding.plan_hash ≢ c.binding.plan_hash
  pub other_signature :
      (a : RealityReplayAttempt)
      → In a c.attempts
      → x.retained.semantic_signature ≢ a.retained.semantic_signature
  pub invariants : SameInvariants x.oracle_results c.oracle_results
  pub holds : AreProofs is_satisfied x.oracle_results
  pub retains : Supports h x.retained x.oracle_results

-- A replay of the plan of the receipt in another version of its target, in which its invariants hold.
pub record IsPatched (h : ReceiptDigests) (c : ReceiptContent) (p : PatchedVersionReplay)
    : Type 0 where
  pub blocks : p.outcome ≡ blocked_by_fix
  pub target : p.binding.target_id ≡ c.binding.target_id
  pub other_version : p.binding.target_version ≢ c.binding.target_version
  pub other_lock : p.binding.target_lock ≢ c.binding.target_lock
  pub adapter : p.binding.adapter_lock ≡ c.binding.adapter_lock
  pub seed : p.binding.root_seed_id ≡ c.binding.root_seed_id
  pub root : p.binding.root_fingerprint ≡ c.binding.root_fingerprint
  pub plan : p.binding.plan_id ≡ c.binding.plan_id
  pub plan_digest : p.binding.plan_hash ≡ c.binding.plan_hash
  pub other_signature :
      (a : RealityReplayAttempt)
      → In a c.attempts
      → p.retained.semantic_signature ≢ a.retained.semantic_signature
  pub invariants : SameInvariants p.oracle_results c.oracle_results
  pub holds : AreProofs is_satisfied p.oracle_results
  pub retains : Supports h p.retained p.oracle_results

-- Two attempts went the same way.
pub record IsRepeat (a b : RealityReplayAttempt) : Type 0 where
  pub signature : a.retained.semantic_signature ≡ b.retained.semantic_signature
  pub trace : a.retained.trace_hash ≡ b.retained.trace_hash
  pub log : a.retained.action_log ≡ b.retained.action_log

pub record IsReality (h : ReceiptDigests) (c : ReceiptContent) : Type 0 where
  pub repeated : 2 ≤ length c.attempts
  pub observed : c.oracle_results ≢ []
  pub compared : c.negative_controls ≢ []
  pub runs_apart : Distinct (of_all run_of c)
  pub results_apart : Distinct (of_all (λ (r : Retained). r.replay_result) c)
  pub controls_apart : Distinct (map (λ (x : NegativeControl). x.name) c.negative_controls)
  pub attempted : (a : RealityReplayAttempt) → In a c.attempts → IsAttempt h c a
  pub alike : (a b : RealityReplayAttempt) → In a c.attempts → In b c.attempts → IsRepeat a b
  pub definitions : c.oracle_definition ≡ h.definitions (oracle_definitions c.oracle_results)
  pub violates : AreProofs is_violated c.oracle_results
  pub one_world :
      (x y : OracleResult) → In x c.oracle_results → In y c.oracle_results → x.world_id ≡ y.world_id
  pub controlled : (x : NegativeControl) → In x c.negative_controls → IsControl h c x
  pub patched : (p : PatchedVersionReplay) → c.patched_version ≡ some p → IsPatched h c p
