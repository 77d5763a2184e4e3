-- ===== src/Worlds/Store/Publish.antt =====
-- Lineage, `_add` and `_replace`.
use stateweaver.Common.{
  ℕ, suc, ◌+◌, Bool, true, false, not, ◌&&◌, ◌||◌, Option, none, some, List, [], ◌∷◌, Result, ok,
  err, raise_if, ◌==◌, same, is_some, is_empty, length, ℕ_discrete, if◌then◌else◌,
}
use stateweaver.Common
use stateweaver.Common.Dict.{lookup, insert, erase}
use stateweaver.Worlds.Models.{
  EnvironmentHandle, EnvironmentHandle-discrete, WorldNode, AdapterPin-discrete,
  TargetSpec-discrete, CapabilityManifest-discrete, validate_node,
}
use stateweaver.Worlds.Failure.{
  Failure, lifecycle, revision_conflict, root_with_lineage, invalid_parent, lineage_not_extended,
  world_exists, reservation_mismatch, ghost_with_environment, environment_not_owned,
  nonzero_revision, identity_changed, revival, environment_attached, environment_released,
  environment_switched, key_error,
}
use stateweaver.Worlds.Store.State.{
  Reservation, Store, Action, reads, modify, validated, get, ◌>>=◌, ◌>>◌,
}
use stateweaver.Worlds.Store.Guards.{unique_live_environment}
use stateweaver.Worlds.Store.Index.{rebuild}
use stateweaver.Worlds.Store.Reservations.{require_writer, pending_for}

unfoldable pub lineage_discrete : Discrete (List ℕ)
lineage_discrete = hlevel ℕ_discrete

unfoldable pub parent_discrete : Discrete (Option ℕ)
parent_discrete = hlevel ℕ_discrete

unfoldable pub environment_discrete : Discrete (Option EnvironmentHandle)
environment_discrete = hlevel ℕ_discrete

-- `lineage[:-1]`.
unfoldable pub all_but_last : List ℕ → List ℕ
all_but_last [] = []
all_but_last (x ∷ []) = []
all_but_last (x ∷ y ∷ rest) = x ∷ all_but_last (y ∷ rest)

-- The tests of `_validate_parent` on a node and its parent.
unfoldable pub accepts_child : Bool → WorldNode → WorldNode → Result Failure (Unit {0})
accepts_child require_live parent n =
    Common.◌>>◌
      (raise_if
        (require_live && parent.destroyed
          || not (parent.root_snapshot_id == n.root_snapshot_id)
          || not (same TargetSpec-discrete parent.target n.target)
          || not (same AdapterPin-discrete parent.adapter n.adapter)
          || not
              (same CapabilityManifest-discrete parent.capability_manifest n.capability_manifest))
        (lifecycle invalid_parent))
      (raise_if
        (not (length n.lineage == length parent.lineage + 1)
          || not (same lineage_discrete (all_but_last n.lineage) parent.lineage))
        (lifecycle lineage_not_extended))

abbrev pub parent_checked : Bool → WorldNode → Option ℕ → Store → Result Failure (Unit {0})
parent_checked require_live n none s =
    raise_if (not (is_empty n.lineage)) (lifecycle root_with_lineage)
parent_checked require_live n (some p) s =
    Common.◌>>=◌ (get p s) λ parent. accepts_child require_live parent n

-- `_validate_parent`.
unfoldable pub validate_parent : Bool → WorldNode → Store → Result Failure (Unit {0})
unfolding accepts_child
validate_parent require_live n s = parent_checked require_live n n.parent_world_id s

-- `self._rebuild_indexes()`: the two fields are written when the loop is done.
unfoldable pub rebuild_indexes : Action (Unit {0})
rebuild_indexes s = elim (rebuild s.nodes []) [
  | err e ↦ (err e, s)
  | ok (nodes', index) ↦ (ok tt, record s { nodes = nodes'; fingerprints = index })
]

-- `self._nodes[world_id]`.
unfoldable pub node_at : ℕ → Store → Result Failure WorldNode
node_at i s = elim (lookup i s.nodes) [ none ↦ err key_error | some n ↦ ok n ]

-- `self._nodes[node.world_id] = node` and what follows it in `_add` and `_replace`.
abbrev pub write_node : WorldNode → Action (Unit {0})
write_node n = modify (λ s. record s { nodes = insert n.world_id n s.nodes })

-- A ghost consumes no environment; any other world is published with the one it has claimed.
abbrev pub owns_environment :
    Option EnvironmentHandle → Option EnvironmentHandle → Result Failure (Unit {0})
owns_environment none pending = raise_if (is_some pending) (lifecycle ghost_with_environment)
owns_environment (some e) pending =
    raise_if (not (same environment_discrete pending (some e))) (lifecycle environment_not_owned)

-- The checks of `_add`, before anything is written.
unfoldable pub admits : WorldNode → Reservation → Store → Result Failure (Unit {0})
admits n r s =
    Common.◌>>◌ (raise_if (is_some (lookup n.world_id s.nodes)) (lifecycle world_exists)) (
      Common.◌>>=◌ (pending_for r s) λ pending.
        Common.◌>>◌ (raise_if (not (r.world_id == n.world_id)) (lifecycle reservation_mismatch)) (
          Common.◌>>◌ (owns_environment n.environment pending.environment) (
            Common.◌>>◌ (raise_if (not (n.revision == 0)) (lifecycle nonzero_revision)) (
              Common.◌>>◌ (validate_parent true n s)
                (unique_live_environment n (some n.world_id) s)))))

-- `_add`.
unfoldable pub add : WorldNode → Reservation → ℕ → Action WorldNode
unfolding require_writer ◌>>=◌
add node r authority = do
  require_writer authority
  n ← reads (λ _. validated (validate_node node))
  reads (admits n r)
  write_node n
  rebuild_indexes
  modify (λ s. record s { pending_worlds = erase r.world_id s.pending_worlds })
  reads (node_at n.world_id)

abbrev pub identity_kept : WorldNode → WorldNode → Bool
identity_kept old n =
    same parent_discrete old.parent_world_id n.parent_world_id
    && old.root_snapshot_id == n.root_snapshot_id
    && same TargetSpec-discrete old.target n.target
    && same AdapterPin-discrete old.adapter n.adapter
    && same CapabilityManifest-discrete old.capability_manifest n.capability_manifest
    && same lineage_discrete old.lineage n.lineage

abbrev pub environment_kept :
    Option EnvironmentHandle → Option EnvironmentHandle → Bool → Result Failure (Unit {0})
environment_kept none none destroyed = ok tt
environment_kept none (some e) destroyed = err (lifecycle environment_attached)
environment_kept (some e) none destroyed = raise_if (not destroyed) (lifecycle environment_released)
environment_kept (some e) (some f) destroyed =
    raise_if (not (same EnvironmentHandle-discrete e f)) (lifecycle environment_switched)

-- The checks of `_replace` on the node that is there and the one that is offered.
unfoldable pub succeeds : WorldNode → WorldNode → ℕ → Result Failure (Unit {0})
succeeds old n expected =
    Common.◌>>◌
      (raise_if (not (n.revision == expected) || not (old.revision == expected)) revision_conflict)
      (Common.◌>>◌ (raise_if (not (identity_kept old n)) (lifecycle identity_changed)) (
        Common.◌>>◌ (raise_if (old.destroyed && not n.destroyed) (lifecycle revival))
          (environment_kept old.environment n.environment n.destroyed)))

abbrev pub expected_or : Option ℕ → WorldNode → ℕ
expected_or none n = n.revision
expected_or (some r) n = r

-- `_replace`.
unfoldable pub replace : WorldNode → Option ℕ → ℕ → Action WorldNode
unfolding require_writer ◌>>=◌
replace node expected_revision authority = do
  require_writer authority
  n ← reads (λ _. validated (validate_node node))
  old ← reads (get n.world_id)
  reads (λ _. succeeds old n (expected_or expected_revision n))
  reads (validate_parent false n)
  n' ← reads (λ _.
      validated (validate_node (record n { revision = suc (expected_or expected_revision n) })))
  write_node n'
  rebuild_indexes
  reads (node_at n.world_id)
