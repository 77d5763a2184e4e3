-- ===== src/Workflow/State.antt =====
-- workflows/world/src/stateweaver/workflows/world/orchestrator.py: the attributes of `WorldPromotionWorkflow`, its
-- constructor, the gates, and the checks of an allocation and of a capture.
use stateweaver.Common.{
  ℕ, suc, Bool, true, false, not, ◌&&◌, ◌||◌, Option, none, some, List, [], ◌∷◌, map, Result, ok,
  err, raise_if, ◌>>=◌, ◌>>◌, ◌==◌, any, is_some, is_empty, contains, if◌then◌else◌,
}
use stateweaver.Common.Dict.{Dict, insert}
use stateweaver.Search.Budget.{
  WorldTier, materialized, BudgetReservation, BudgetLedger, is_tier, validate_ledger,
  validate_reservation, LedgerError, ReservationId,
}
use stateweaver.Search.Models.{SearchCandidate, is_denied, wants_approval}
use stateweaver.Search.Controller.{is_subset}
use stateweaver.Workflow.Models.{
  AllocationRequest, AllocatedWorld, CaptureReceipt, validate_capture_receipt,
}
use stateweaver.Workflow.Relations.{keys}

-- The attributes of the workflow that change. A set is the list of its elements.
pub record Workflow : Type 0 where
  pub ledger : BudgetLedger
  pub active : Dict AllocatedWorld
  pub cleanup_pending : Dict AllocatedWorld
  pub cleanup_token : ℕ
  pub identities : List ℕ

-- The entries of a dictionary without their keys.
abbrev pub values {ℓ} : {V : Type ℓ} → Dict V → List V
values d = map (λ p. p.1) d

pub data GateBlock : Type 0 where
  out_of_scope policy_denied approval_missing capability_missing evidence_missing : GateBlock
  oracle_missing snapshot_missing : GateBlock

abbrev block_if : Bool → GateBlock → Result GateBlock (Unit {0})
block_if b g = raise_if b g

-- `_workflow_gate_error`: `ok` for `None`.
unfoldable pub workflow_gate : SearchCandidate → WorldTier → Result GateBlock (Unit {0})
workflow_gate c target = do
  block_if (not c.gates.in_scope) out_of_scope
  block_if (is_denied c.gates.policy_outcome) policy_denied
  block_if (wants_approval c.gates.policy_outcome && not (is_some c.gates.approval_ref))
      approval_missing
  block_if (not (is_subset c.gates.required_capabilities c.gates.available_capabilities))
      capability_missing
  block_if (is_empty c.gates.evidence_ids) evidence_missing
  block_if (is_empty c.gates.oracle_refs) oracle_missing
  block_if (is_tier target materialized && not c.gates.snapshot_capable) snapshot_missing

-- An entry of `accepted`.
pub record Accepted : Type 0 where
  pub candidate : SearchCandidate
  pub request : AllocationRequest
  pub allocation : AllocatedWorld
  pub receipt : CaptureReceipt

abbrev pub held : List Accepted → List AllocatedWorld
held acc = map (λ x. x.allocation) acc

abbrev pub has_id : ℕ → AllocatedWorld → Bool
has_id k a = a.allocation_id == k

abbrev pub has_identity : ℕ → AllocatedWorld → Bool
has_identity k a = a.sibling_identity == k

-- What is wrong with an allocation: `_AllocationIdCollision` with its flag, or a `ValueError`.
pub data AllocationFault : Type 0 where
  collision : Bool → AllocationFault
  violated : AllocationFault

-- `_validate_allocation`.
unfoldable pub validate_allocation :
    AllocationRequest
    → AllocatedWorld
    → List Accepted
    → Workflow
    → Result AllocationFault (Unit {0})
validate_allocation q a acc s = do
  raise_if
      (contains (keys s.active) a.allocation_id
        || any (has_id a.allocation_id) (values s.cleanup_pending))
      (collision false)
  raise_if (any (has_id a.allocation_id) (held acc)) (collision true)
  raise_if
      (not (a.candidate_id == q.candidate_id)
        || not (is_tier a.target_tier q.target_tier)
        || not (a.state_fingerprint == q.state_fingerprint)
        || contains s.identities a.sibling_identity
        || any (has_identity a.sibling_identity) (held acc))
      violated

-- `_validate_capture`: whether the receipt is accepted.
unfoldable pub accepts_capture :
    SearchCandidate → AllocationRequest → AllocatedWorld → CaptureReceipt → Bool
unfolding validate_capture_receipt
accepts_capture c q a r = elim (validate_capture_receipt r) [
  | err _ ↦ false
  | ok closed ↦
      closed.allocation_id == a.allocation_id
      && closed.candidate_id == q.candidate_id
      && closed.state_fingerprint == q.state_fingerprint
      && closed.oracle_passed
      && contains c.gates.evidence_ids closed.evidence_ref
      && contains c.gates.oracle_refs closed.oracle_ref
]

-- `_retain_cleanup`.
unfoldable pub retain_cleanup : AllocatedWorld → Workflow → Workflow
retain_cleanup a s = record s {
  cleanup_token = suc s.cleanup_token;
  cleanup_pending = insert (suc s.cleanup_token) a s.cleanup_pending;
  identities = a.sibling_identity ∷ s.identities;
}

unfoldable pub retain_all : List AllocatedWorld → Workflow → Workflow
retain_all [] s = s
retain_all (a ∷ as') s = retain_all as' (retain_cleanup a s)

-- The accepted entry with an allocation identifier, and `accepted.remove` of it.
unfoldable pub find_accepted : ℕ → List Accepted → Option Accepted
find_accepted k [] = none
find_accepted k (x ∷ xs) = if has_id k x.allocation then some x else find_accepted k xs

unfoldable pub remove_accepted : ℕ → List Accepted → List Accepted
remove_accepted k [] = []
remove_accepted k (x ∷ xs) =
    let rest = remove_accepted k xs in if has_id k x.allocation then xs else x ∷ rest

abbrev pub collided_worlds : Option Accepted → List AllocatedWorld
collided_worlds none = []
collided_worlds (some x) = x.allocation ∷ []

abbrev pub request_for : SearchCandidate → BudgetReservation → AllocationRequest
request_for c r = record {
  candidate_id = c.candidate_id;
  source_tier = c.tier;
  target_tier = r.target_tier;
  state_fingerprint = c.state_fingerprint;
  reservation_id = r.reservation_id;
}

-- `model_validate` of the ledger, with the check of each reservation.
unfoldable pub validate_reservations :
    ReservationId → List BudgetReservation → Result LedgerError (List BudgetReservation)
validate_reservations i [] = ok []
validate_reservations i (r ∷ rs) = do
  q ← validate_reservation i r
  qs ← validate_reservations i rs
  ok (q ∷ qs)

-- `__init__`.
unfoldable pub open_workflow : ReservationId → BudgetLedger → Result LedgerError Workflow
open_workflow i l = do
  rs ← validate_reservations i l.reservations
  closed ← validate_ledger (record l { reservations = rs })
  ok (record {
    ledger = closed;
    active = [];
    cleanup_pending = [];
    cleanup_token = 0;
    identities = [];
  })
