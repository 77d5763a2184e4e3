-- ===== src/Worlds/Models/Coherent.antt =====
-- The model validator of `WorldNode` against an independent description of a coherent world.
use stateweaver.Common.{
  ◌≡◌, ◌≢◌, ◌↔◌, true, false, Option, none, some, arith, Distinct, unique_iff, ok,
}
use stateweaver.Worlds.Models.{
  EnvironmentHandle, SnapshotManifest, WorldNode, active, validate_node, coherent_live_shape,
}

-- The snapshot pins of a world: adapter, target, root and fingerprint are those of the world.
pub record IsPinned (n : WorldNode) (s : SnapshotManifest) : Type 0 where
  pub adapter_pinned : s.adapter ≡ n.adapter
  pub target_pinned : s.target ≡ n.target
  pub root_pinned : s.root_snapshot_id ≡ n.root_snapshot_id
  pub state_pinned : s.state_fingerprint ≡ n.state_fingerprint

abbrev pub Pinned : WorldNode → Option SnapshotManifest → Type 0
Pinned n none = Unit
Pinned n (some s) = IsPinned n s

abbrev pub Attached : WorldNode → Option EnvironmentHandle → Type 0
Attached n none = Unit
Attached n (some e) = e.adapter ≡ n.adapter

abbrev pub Sourced : Option EnvironmentHandle → Option SnapshotManifest → Type 0
Sourced (some e) (some s) = s.source_environment_id ≡ e.environment_id
Sourced _ _ = Unit

pub record IsCoherent (n : WorldNode) : Type 0 where
  pub lineage_unique : Distinct n.lineage
  pub destroyed_detached : n.destroyed ≡ true → n.environment ≡ none
  pub parent_other : n.parent_world_id ≢ some n.world_id
  pub duplicate_other : n.deduplicated_to ≢ some n.world_id
  pub active_live :
      n.phase ≡ active → n.destroyed ≡ false → (n.environment ≢ none) × (n.snapshot ≢ none)
  pub attached : Attached n n.environment
  pub sourced : Sourced n.environment n.snapshot
  pub pinned : Pinned n n.snapshot

pub IsCoherent-validate_node : (n : WorldNode) → IsCoherent n → validate_node n ≡ ok n
unfolding validate_node coherent_live_shape
IsCoherent-validate_node n h =
    ground (arith, unique_iff n.lineage, h.active_live, h.destroyed_detached)

pub validate_node-IsCoherent : (n m : WorldNode) → validate_node n ≡ ok m → IsCoherent n
unfolding validate_node coherent_live_shape
validate_node-IsCoherent n m h = record {
  lineage_unique = ground (arith, unique_iff n.lineage);
  destroyed_detached = ground arith;
  parent_other = ground arith;
  duplicate_other = ground arith;
  active_live = ground arith;
  attached = ground arith;
  sourced = ground arith;
  pinned = ground arith;
}

pub validate_node_same : (n m : WorldNode) → validate_node n ≡ ok m → m ≡ n
unfolding validate_node coherent_live_shape
validate_node_same n m h = ground arith

-- The validators accept a world exactly when it is coherent: an unrepeated lineage, no environment
-- once destroyed, neither its own parent nor its own duplicate, an environment and a snapshot while
-- active, and an environment and a snapshot that carry the world's own pins.
pub validate_node_iff : (n : WorldNode) → (validate_node n ≡ ok n) ↔ IsCoherent n
validate_node_iff n = (validate_node-IsCoherent n n, IsCoherent-validate_node n)
