-- ===== src/Worlds/Store/Guards.antt =====
-- The uniqueness checks of the store: identities, namespaces, and the loops over the live worlds
-- and the pending ones. Each check returns, or raises the first conflict that it meets.
use stateweaver.Common.{
  ℕ, ◌||◌, Option, none, some, [], ◌∷◌, Result, ok, raise_if, ◌>>◌, ◌==◌, any, contains,
  if◌then◌else◌,
}
use stateweaver.Common.Dict.{Dict}
use stateweaver.Worlds.Models.{EnvironmentHandle, WorldNode, is_id, namespace_values}
use stateweaver.Worlds.Failure.{
  Failure, lifecycle, environment_id_taken, opaque_ref_taken, namespace_taken,
}
use stateweaver.Worlds.Store.State.{PendingWorld, Store}

abbrev pub Check : Type 0
Check = EnvironmentHandle → Result Failure (Unit {0})

-- `_assert_environment_identity_disjoint`.
unfoldable pub identity_disjoint : EnvironmentHandle → Check
identity_disjoint candidate existing = do
  raise_if (candidate.environment_id == existing.environment_id) (lifecycle environment_id_taken)
  raise_if (candidate.opaque_ref == existing.opaque_ref) (lifecycle opaque_ref_taken)

-- `_assert_environment_namespace_disjoint`.
unfoldable pub namespace_disjoint : EnvironmentHandle → Check
namespace_disjoint candidate existing =
    raise_if
      (any (contains (namespace_values existing.namespace)) (namespace_values candidate.namespace))
      (lifecycle namespace_taken)

-- `_assert_environment_disjoint`.
unfoldable pub environment_disjoint : EnvironmentHandle → Check
environment_disjoint candidate existing =
    identity_disjoint candidate existing >> namespace_disjoint candidate existing

abbrev pub check_handle : Check → Option EnvironmentHandle → Result Failure (Unit {0})
check_handle check none = ok tt
check_handle check (some e) = check e

-- The loop over `self._nodes`, with the worlds that `continue` skips.
unfoldable pub check_nodes : Check → Option ℕ → Dict WorldNode → Result Failure (Unit {0})
check_nodes check excluding [] = ok tt
check_nodes check excluding ((i, n) ∷ rest) =
    (if is_id excluding i || n.destroyed then ok tt else check_handle check n.environment)
    >> check_nodes check excluding rest

-- The loop over `self._pending_worlds`.
unfoldable pub check_pending : Check → Option ℕ → Dict PendingWorld → Result Failure (Unit {0})
check_pending check excluding [] = ok tt
check_pending check excluding ((i, p) ∷ rest) =
    (if is_id excluding i then ok tt else check_handle check p.environment)
    >> check_pending check excluding rest

-- `_assert_environment_unassigned`.
unfoldable pub environment_unassigned :
    EnvironmentHandle → Option ℕ → Store → Result Failure (Unit {0})
environment_unassigned candidate excluding s =
    check_nodes (environment_disjoint candidate) excluding s.nodes
    >> check_pending (environment_disjoint candidate) excluding s.pending_worlds

-- `_assert_unique_live_environment`.
unfoldable pub unique_live_environment : WorldNode → Option ℕ → Store → Result Failure (Unit {0})
unique_live_environment n excluding s =
    if n.destroyed
    then ok tt
    else check_handle (λ e. environment_unassigned e excluding s) n.environment
