-- ===== src/Contracts/Receipts.antt =====
-- The receipt of a reality replay, in packages/contracts/src/stateweaver/contracts/oracles.py: its records and what
-- its checks compare. The fields that three records share are records of their own.
pub mod Checks
pub mod Findings
pub mod Reality
pub mod Reading
pub mod Inversions
pub mod Coherent
use stateweaver.Common.{
  ℕ, Bool, true, false, not, ◌&&◌, ◌||◌, Option, none, some, List, [], ◌∷◌, ◌++◌, map, Result, ok,
  err, raise_if, ◌>>=◌, ◌>>◌, ◌==◌, ltb, all, any, length, is_empty, is_some, contains, unique,
  same, if◌then◌else◌,
}
use stateweaver.Contracts.Oracles.{
  OracleResult, OracleDefinition, OracleDefinition-discrete, OracleError, is_satisfied, is_violated,
  validate_oracles, oracle_definitions, require_canonical_oracles, require_oracle_evidence,
  ascending, oracle_ids, is_proof,
}

pub data ReplayOutcome : Type 0 where
  reproduced not_reproduced blocked_by_fix replay_inconclusive : ReplayOutcome

-- What attempts, controls and patched replays are bound to.
pub record Binding : Type 0 where
  pub target_id : ℕ
  pub target_version : ℕ
  pub target_lock : ℕ
  pub adapter_lock : ℕ
  pub plan_id : ℕ
  pub plan_hash : ℕ
  pub root_seed_id : ℕ
  pub root_fingerprint : ℕ

-- What a replay of any of the three kinds left.
pub record Retained : Type 0 where
  pub replay_run_id : ℕ
  pub replay_result : ℕ
  pub action_log : ℕ
  pub trace_hash : ℕ
  pub semantic_signature : ℕ
  pub oracle_results_hash : ℕ
  pub evidence_ids : List ℕ

pub record RealityReplayAttempt : Type 0 where
  pub binding : Binding
  pub retained : Retained
  pub outcome : ReplayOutcome
  pub scope_manifest : ℕ

pub record NegativeControl : Type 0 where
  pub name : ℕ
  pub kind : ℕ
  pub binding : Binding
  pub retained : Retained
  pub control_delta : ℕ
  pub outcome : ReplayOutcome
  pub oracle_results : List OracleResult

pub record PatchedVersionReplay : Type 0 where
  pub binding : Binding
  pub retained : Retained
  pub outcome : ReplayOutcome
  pub oracle_results : List OracleResult
  pub failed_step_id : ℕ
  pub failure_code : ℕ

-- What the hash of a receipt covers.
pub record ReceiptContent : Type 0 where
  pub anchor_mode : ℕ
  pub scope_id : ℕ
  pub scope_manifest : ℕ
  pub binding : Binding
  pub chain_id : ℕ
  pub attempts : List RealityReplayAttempt
  pub oracle_results : List OracleResult
  pub oracle_definition : ℕ
  pub negative_controls : List NegativeControl
  pub patched_version : Option PatchedVersionReplay
  pub evidence_manifest : ℕ

pub record RealityReplayReceipt : Type 0 where
  pub receipt_id : ℕ
  pub receipt_hash : ℕ
  pub content : ReceiptContent

pub data ReceiptError : Type 0 where
  of_oracle : OracleError → ReceiptError
  evidence_absent evidence_repeats control_violates not_satisfied oracle_hash_differs not_blocked :
      ReceiptError
  too_few_attempts no_oracle no_control attempts_unordered runs_repeat results_repeat
        not_reproduced_here :
      ReceiptError
  scope_differs target_differs adapter_differs plan_differs root_differs signature_differs
        trace_differs log_differs :
      ReceiptError
  not_violated worlds_differ definition_hash_differs controls_unordered controls_repeat same_plan
        same_signature :
      ReceiptError
  definitions_differ same_version same_lock receipt_hash_differs receipt_id_differs : ReceiptError

-- The digests of oracle results, of definitions and of a receipt, and the identifier made of the last.
pub record ReceiptDigests : Type 0 where
  pub oracles : List OracleResult → ℕ
  pub definitions : List OracleDefinition → ℕ
  pub receipt : ReceiptContent → ℕ
  pub identifier : ℕ → ℕ

abbrev pub is_reproduced : ReplayOutcome → Bool
is_reproduced reproduced = true
is_reproduced _ = false

abbrev pub is_not_reproduced : ReplayOutcome → Bool
is_not_reproduced not_reproduced = true
is_not_reproduced _ = false

abbrev pub is_blocked : ReplayOutcome → Bool
is_blocked blocked_by_fix = true
is_blocked _ = false

abbrev pub lifted {ℓ} : {A : Type ℓ} → Result OracleError A → Result ReceiptError A
lifted (ok a) = ok a
lifted (err x) = err (of_oracle x)

-- `_unique_nonempty_ids`.
unfoldable pub require_ids : List ℕ → Result ReceiptError (Unit {0})
require_ids ids = do
  raise_if (is_empty ids) evidence_absent
  raise_if (not (unique ids)) evidence_repeats

-- `len(set(xs)) == 1` for a tuple that is not empty.
abbrev pub one_value : List ℕ → Bool
one_value [] = false
one_value (x ∷ xs) = all (λ y. y == x) xs

abbrev pub same_definitions : List OracleDefinition → List OracleDefinition → Bool
same_definitions [] [] = true
same_definitions (d ∷ ds) (e ∷ es) = same OracleDefinition-discrete d e && same_definitions ds es
same_definitions _ _ = false

abbrev pub same_target : Binding → Binding → Bool
same_target a b = a.target_id == b.target_id && a.target_version == b.target_version

abbrev pub same_root : Binding → Binding → Bool
same_root a b = a.root_seed_id == b.root_seed_id && a.root_fingerprint == b.root_fingerprint

abbrev pub same_plan_of : Binding → Binding → Bool
same_plan_of a b = a.plan_id == b.plan_id && a.plan_hash == b.plan_hash

-- A field of what the attempts retain.
abbrev pub of_attempts : (Retained → ℕ) → List RealityReplayAttempt → List ℕ
of_attempts f = map (λ (a : RealityReplayAttempt). f a.retained)

abbrev pub of_controls : (Retained → ℕ) → List NegativeControl → List ℕ
of_controls f = map (λ (c : NegativeControl). f c.retained)

abbrev pub of_patched : (Retained → ℕ) → Option PatchedVersionReplay → List ℕ
of_patched f none = []
of_patched f (some p) = f p.retained ∷ []

abbrev pub of_all : (Retained → ℕ) → ReceiptContent → List ℕ
of_all f c =
    of_attempts f c.attempts ++ of_controls f c.negative_controls ++ of_patched f c.patched_version

abbrev pub run_of : Retained → ℕ
run_of r = r.replay_run_id
