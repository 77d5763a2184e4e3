-- ===== src/Contracts/Receipts/Findings.antt =====
-- `Finding` of packages/contracts/src/stateweaver/contracts/oracles.py. Fields that no check reads are left out.
use stateweaver.Common.{
  ℕ, Bool, true, false, not, ◌&&◌, Option, none, some, List, Result, ok, err, raise_if, ◌>>◌, ◌==◌,
  all, is_some, contains, unique, if◌then◌else◌,
}
use stateweaver.Contracts.Oracles.{oracle_ids}
use stateweaver.Contracts.Receipts.{RealityReplayReceipt, ReceiptError, ReceiptDigests}
use stateweaver.Contracts.Receipts.Checks.{validate_receipt}

pub data FindingStatus : Type 0 where
  candidate chain_compiled synthetic_reproduced reality_replayed patch_verified rejected :
      FindingStatus

pub data FindingError : Type 0 where
  oracles_repeat receipt_absent chain_differs oracles_differ patch_unreported patch_absent
        unattested receipt_unexpected :
      FindingError
  of_receipt : ReceiptError → FindingError

pub record Finding : Type 0 where
  pub finding_id : ℕ
  pub status : FindingStatus
  pub chain_id : ℕ
  pub oracle_result_ids : List ℕ
  pub reality_replay : Option RealityReplayReceipt

abbrev pub is_confirmed : FindingStatus → Bool
is_confirmed reality_replayed = true
is_confirmed patch_verified = true
is_confirmed _ = false

abbrev same_set : List ℕ → List ℕ → Bool
same_set xs ys = all (contains ys) xs && all (contains xs) ys

abbrev of_receipt_check : Result ReceiptError RealityReplayReceipt → Result FindingError (Unit {0})
of_receipt_check (ok r) = ok tt
of_receipt_check (err x) = err (of_receipt x)

-- The checks of a confirmed finding with a receipt; the last refuses it.
abbrev check_confirmed :
    ReceiptDigests → Finding → RealityReplayReceipt → Result FindingError (Unit {0})
check_confirmed h f r = do
  of_receipt_check (validate_receipt h r)
  raise_if (not (r.content.chain_id == f.chain_id)) chain_differs
  raise_if (not (same_set f.oracle_result_ids (oracle_ids r.content.oracle_results))) oracles_differ
  raise_if (elim f.status [ reality_replayed ↦ is_some r.content.patched_version | _ ↦ false ])
      patch_unreported
  raise_if (elim f.status [ patch_verified ↦ not (is_some r.content.patched_version) | _ ↦ false ])
      patch_absent
  err unattested

abbrev check_status : ReceiptDigests → Finding → Result FindingError (Unit {0})
check_status h f =
    if is_confirmed f.status
    then elim f.reality_replay [ none ↦ err receipt_absent | some r ↦ check_confirmed h f r ]
    else raise_if (is_some f.reality_replay) receipt_unexpected

-- `confirmed_findings_require_revalidated_reality_receipts`, after `oracle_results_are_unique`.
unfoldable pub validate_finding : ReceiptDigests → Finding → Result FindingError Finding
validate_finding h f = do
  raise_if (not (unique f.oracle_result_ids)) oracles_repeat
  check_status h f
  ok f
