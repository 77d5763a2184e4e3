-- ===== src/Workflow/Models.antt =====
-- workflows/world/src/stateweaver/workflows/world/models.py and ports.py: requests, allocations, captures,
-- promotions and the calls of the allocator and of the capture, which are parameters. Identifiers and
-- fingerprints are natural numbers, and so is a sibling identity.
use stateweaver.Common.{ℕ, Bool, not, ◌||◌, Result, ok, raise_if, ◌>>◌, ◌==◌, ℕ_discrete}
use stateweaver.Compiler.Models.{RootState}
use stateweaver.Replay.Ports.{Answer}
use stateweaver.Search.Budget.{WorldTier, WorldTier-discrete, LedgerError, is_tier}
use stateweaver.Search.Beam.{SearchError}

pub record AllocationRequest : Type 0 where
  pub candidate_id : ℕ
  pub source_tier : WorldTier
  pub target_tier : WorldTier
  pub state_fingerprint : ℕ
  pub reservation_id : ℕ

pub record AllocatedWorld : Type 0 where
  pub allocation_id : ℕ
  pub candidate_id : ℕ
  pub target_tier : WorldTier
  pub state_fingerprint : ℕ
  pub sibling_identity : ℕ

unfoldable pub AllocatedWorld-discrete : Discrete AllocatedWorld
AllocatedWorld-discrete = hlevel (ℕ_discrete, WorldTier-discrete)

pub record CaptureReceipt : Type 0 where
  pub allocation_id : ℕ
  pub candidate_id : ℕ
  pub state_fingerprint : ℕ
  pub compiler_root : RootState
  pub evidence_ref : ℕ
  pub oracle_ref : ℕ
  pub oracle_passed : Bool

pub record PromotionRecord : Type 0 where
  pub candidate_id : ℕ
  pub target_tier : WorldTier
  pub reservation_id : ℕ
  pub allocation : AllocatedWorld
  pub capture : CaptureReceipt

-- An instant is absolute, so `recorded_at_is_absolute` has nothing to check.
pub record PromotionRunContext : Type 0 where
  pub experiment_id : ℕ
  pub run_id : ℕ
  pub recorded_at : ℕ

-- `candidate_missing` and `reservation_missing` stand for a `KeyError` and an `IndexError`.
pub data WorkflowError : Type 0 where
  search_refused : SearchError → WorkflowError
  ledger_refused : LedgerError → WorkflowError
  capture_root_unbound promotion_unbound candidate_missing reservation_missing : WorkflowError
  limits_differ search_history_lost committed_history_lost suffix_not_covering : WorkflowError
  suffix_not_matching reservation_unbound promotions_repeat promotion_not_promoted : WorkflowError
  candidate_unbound committed_not_covering semantics_differ search_not_replayed : WorkflowError

-- `compiler_root_binds_allocation`.
unfoldable pub validate_capture_receipt : CaptureReceipt → Result WorkflowError CaptureReceipt
validate_capture_receipt c = do
  raise_if (not (c.compiler_root.world_id == c.allocation_id)) capture_root_unbound
  ok c

-- `capture_binds_allocation`.
unfoldable pub validate_promotion : PromotionRecord → Result WorkflowError PromotionRecord
validate_promotion p = do
  raise_if
      (not (p.candidate_id == p.allocation.candidate_id)
        || not (p.candidate_id == p.capture.candidate_id)
        || not (is_tier p.allocation.target_tier p.target_tier)
        || not (p.allocation.allocation_id == p.capture.allocation_id)
        || not (p.allocation.state_fingerprint == p.capture.state_fingerprint)
        || not p.capture.oracle_passed)
      promotion_unbound
  ok p

-- `WorldAllocator` and `WorldCapture` over a state `E` of the world outside. An answer of another type
-- than the declared one counts as raised: the workflow raises a `TypeError` on it. So does an `AllocatedWorld` that
-- fails the check of its fields, which the workflow neither releases nor tracks: it is not counted as obtained.
pub record WorldPorts (E : Type 0) : Type 0 where
  pub allocate : AllocationRequest → E → Answer AllocatedWorld × E
  pub release : AllocatedWorld → E → Answer (Unit {0}) × E
  pub capture : AllocationRequest → AllocatedWorld → E → Answer CaptureReceipt × E
