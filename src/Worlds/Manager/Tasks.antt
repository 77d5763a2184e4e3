-- ===== src/Worlds/Manager/Tasks.antt =====
-- The requests, the coroutines that wait, and what running one leads to.
use stateweaver.Common.{ℕ, Option, none, some, Result}
use stateweaver.Worlds.Models.{
  CapabilityManifest, EnvironmentHandle, SnapshotManifest, TargetSpec, WorldNode, WorldPhase,
}
use stateweaver.Worlds.Failure.{Failure}
use stateweaver.Worlds.Store.{Reservation, Store}

-- `writer` is the authority that the manager's store writer passes on.
pub record Manager : Type 0 where
  pub capabilities : CapabilityManifest
  pub writer : ℕ
  pub event_loop : Option ℕ
  pub store : Store

-- A public coroutine and its arguments, the identifier of a new world resolved.
pub data Request : Type 0 where
  prepare : (target : TargetSpec) (world_id : ℕ) → Request
  create_ghost : (parent transition world_id : ℕ) → Request
  snapshot : (world_id : ℕ) → Request
  fork : (parent transition world_id : ℕ) → Request
  restore : (world_id : ℕ) → SnapshotManifest → Request
  destroy : (world_id : ℕ) → Request
  transition : (world_id : ℕ) → WorldPhase → Request

-- What a coroutine does once it has the gate of a world.
pub data Admission : Type 0 where
  ghost_of : (r : Reservation) (parent transition : ℕ) → Admission
  snapshot_of : (world_id : ℕ) → Admission
  fork_of : (r : Reservation) (parent transition : ℕ) → Admission
  restore_of : (world_id : ℕ) → SnapshotManifest → Admission
  destroy_of : (world_id : ℕ) → Admission
  transition_of : (world_id : ℕ) → WorldPhase → Admission

-- Where a coroutine waits: at a gate, or for the adapter call that the constructor names.
pub data Task : Type 0 where
  at_gate : Admission → Task
  preparing : Reservation → TargetSpec → Task
  prepare_snapshot : Reservation → TargetSpec → EnvironmentHandle → Task
  forking : Reservation → (parent : WorldNode) (transition : ℕ) → Task
  fork_snapshot : Reservation → (parent : WorldNode) (transition : ℕ) → EnvironmentHandle → Task
  abandoning : Reservation → EnvironmentHandle → (primary : Failure) → Task
  snapshotting : WorldNode → EnvironmentHandle → Task
  restoring : WorldNode → EnvironmentHandle → SnapshotManifest → Task
  restore_snapshot : WorldNode → EnvironmentHandle → SnapshotManifest → Task
  retiring : WorldNode → (primary : Failure) → Task
  destroying : WorldNode → Task

pub data Reply : Type 0 where
  world : WorldNode → Reply
  snapshot_taken : SnapshotManifest → Reply

pub data Progress : Type 0 where
  waiting : Task → Progress
  finished : Result Failure Reply → Progress

-- The world whose gate the coroutine asks for.
abbrev pub gate_of : Admission → ℕ
gate_of (ghost_of r parent t) = parent
gate_of (snapshot_of i) = i
gate_of (fork_of r parent t) = parent
gate_of (restore_of i s) = i
gate_of (destroy_of i) = i
gate_of (transition_of i p) = i

-- The gate that a waiting coroutine holds. Preparing and abandoning happen outside every gate.
abbrev pub held_gate : Task → Option ℕ
held_gate (forking r parent t) = some parent.world_id
held_gate (fork_snapshot r parent t e) = some parent.world_id
held_gate (snapshotting n e) = some n.world_id
held_gate (restoring n e s) = some n.world_id
held_gate (restore_snapshot n e s) = some n.world_id
held_gate (retiring n primary) = some n.world_id
held_gate (destroying n) = some n.world_id
held_gate _ = none
