-- ===== src/Worlds/Manager/Calls.antt =====
-- What the adapter answers, and the checks that the manager makes of it.
use stateweaver.Common.{
  ℕ, Bool, true, false, not, ◌||◌, Option, none, some, List, Result, ok, err, raise_if, ◌>>=◌, ◌>>◌,
  ◌==◌, same, all, is_empty,
}
use stateweaver.Common.Dict.{Dict}
use stateweaver.Worlds.Models.{
  AdapterPin, AdapterPin-discrete, CapabilityManifest, CapabilityManifest-discrete, EgressPolicy,
  deny, EnvironmentHandle, SnapshotManifest, TargetSpec, TargetSpec-discrete, supports,
  validate_snapshot,
}
use stateweaver.Worlds.Failure.{
  Failure, lifecycle, adapter_pin_differs, egress_allowed, capability_missing, adapter_return,
  operation_timeout, adapter_failed, cancelled, target_differs, source_differs, root_differs,
}

-- What the manager takes from pydantic, hashlib and json, and the names of the components that a
-- snapshot must hash and of `M2_REQUIRED_CAPABILITIES`.
pub record Platform : Type 0 where
  pub is_valid_id : ℕ → Bool
  pub derive_state_fingerprint : Dict ℕ → ℕ
  pub hash_names : List ℕ
  pub capability_names : List ℕ

-- A value that the adapter returns: `other` is of no model that the manager knows.
pub data Value : Type 0 where
  handle : EnvironmentHandle → Value
  manifest : SnapshotManifest → Value
  nothing other : Value

-- How an awaited adapter call ends.
pub data Answer : Type 0 where
  returned : Value → Answer
  timed_out interrupted crashed : Answer
  raised : Failure → Answer

-- `_bounded`.
unfoldable pub bounded : Answer → Result Failure Value
bounded (returned v) = ok v
bounded timed_out = err operation_timeout
bounded interrupted = err cancelled
bounded (raised e) = err e
bounded crashed = err adapter_failed

-- `_as_handle`.
unfoldable pub as_handle : Value → Result Failure EnvironmentHandle
as_handle (handle e) = ok e
as_handle _ = err adapter_return

abbrev or_adapter_return {ℓ} : {E : Type 0} {A : Type ℓ} → Result E A → Result Failure A
or_adapter_return (ok a) = ok a
or_adapter_return (err e) = err adapter_return

-- `_as_snapshot`.
unfoldable pub as_snapshot : Platform → Value → Result Failure SnapshotManifest
as_snapshot p (manifest s) =
    or_adapter_return (validate_snapshot p.derive_state_fingerprint p.hash_names s)
as_snapshot p _ = err adapter_return

-- `_require_none`.
unfoldable pub require_none : Value → Result Failure (Unit {0})
require_none nothing = ok tt
require_none _ = err adapter_return

abbrev is_deny : EgressPolicy → Bool
is_deny deny = true
is_deny _ = false

abbrev capable : Platform → CapabilityManifest → Result Failure CapabilityManifest
capable p m = do
  raise_if (is_empty m.capabilities) adapter_return
  raise_if (not (is_deny m.egress_policy)) egress_allowed
  raise_if (not (all (supports m) p.capability_names)) capability_missing
  ok m

-- `_validated_capabilities` of what `adapter.capabilities()` returns: `none` is of no valid model.
unfoldable pub validated_capabilities :
    Platform → Option CapabilityManifest → Result Failure CapabilityManifest
validated_capabilities p none = err adapter_return
validated_capabilities p (some m) = capable p m

-- `_check_pin`, with what the adapter says of its capabilities now.
unfoldable pub check_pin :
    Platform
    → CapabilityManifest
    → Option CapabilityManifest
    → AdapterPin
    → Result Failure (Unit {0})
check_pin p pinned offered pin = do
  current ← validated_capabilities p offered
  raise_if
      (not (same CapabilityManifest-discrete current pinned)
        || not (same AdapterPin-discrete current.pin pin))
      adapter_pin_differs

abbrev root_matches : Option ℕ → SnapshotManifest → Bool
root_matches none s = true
root_matches (some r) s = s.root_snapshot_id == r

-- `_validate_snapshot`.
unfoldable pub snapshot_accepted :
    Platform
    → CapabilityManifest
    → Option CapabilityManifest
    → SnapshotManifest
    → TargetSpec
    → EnvironmentHandle
    → Option ℕ
    → Result Failure (Unit {0})
unfolding check_pin
snapshot_accepted p pinned offered s target e root = do
  check_pin p pinned offered s.adapter
  raise_if (not (same TargetSpec-discrete s.target target)) (lifecycle target_differs)
  raise_if (not (s.source_environment_id == e.environment_id)) (lifecycle source_differs)
  raise_if (not (root_matches root s)) (lifecycle root_differs)
