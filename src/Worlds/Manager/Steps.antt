-- ===== src/Worlds/Manager/Steps.antt =====
-- The pieces that the coroutines share: running a store action with its handlers, the worlds that
-- they publish, and their checks of what the adapter returns.
use stateweaver.Common.{ℕ, false, Option, none, some, [], ◌∷◌, ◌++◌, ok, err}
use stateweaver.Worlds.Models.{
  EnvironmentHandle, SnapshotManifest, TargetSpec, WorldNode, CapabilityManifest, active, ghost,
  validate_node,
}
use stateweaver.Worlds.Failure.{Failure}
use stateweaver.Worlds.Store.{
  Reservation, Action, pure, reads, ◌>>=◌, ◌>>◌, validated, claim_environment,
  validate_reserved_namespace, release_world, add, replace,
}
use stateweaver.Worlds.Manager.Calls.{
  Platform, Answer, bounded, as_handle, as_snapshot, check_pin, snapshot_accepted,
}
use stateweaver.Worlds.Manager.Tasks.{Manager, Task, abandoning, Reply, Progress, waiting, finished}

abbrev pub Run : Type 0
Run = Manager → Progress × Manager

-- A store action, then what follows its result: the rest of the `try` block, or a handler.
unfoldable pub settle : {A : Type 0} → Action A → (A → Run) → (Failure → Run) → Run
settle act next fail m =
    let (r, s) = act m.store in
    elim r [ ok a ↦ next a (record m { store = s }) | err e ↦ fail e (record m { store = s }) ]

unfoldable pub stop : Failure → Run
stop e m = (finished (err e), m)

unfoldable pub finish : Reply → Run
finish r m = (finished (ok r), m)

unfoldable pub wait : Task → Run
wait t m = (waiting t, m)

-- The handler that releases a reservation with no environment, and raises again.
unfoldable pub released : Reservation → Failure → Run
released r e m = settle (release_world r m.writer) (λ _. stop e) stop m

-- `validated_copy`, then the commit at the revision that was read.
unfoldable pub commit : ℕ → WorldNode → WorldNode → Action WorldNode
commit writer n changed = do
  c ← reads (λ _. validated (validate_node changed))
  replace c (some n.revision) writer

-- The new environment of `prepare` and `fork`, up to its claim.
unfoldable pub received :
    Platform → Manager → Option CapabilityManifest → Reservation → Answer → Action EnvironmentHandle
received p m offered r a = do
  v ← reads (λ _. bounded a)
  e ← reads (λ _. as_handle v)
  reads (λ _. check_pin p m.capabilities offered e.adapter)
  claim_environment r e m.writer
  pure e

-- Then its namespace: from the claim on a failure asks for the environment's destruction.
unfoldable pub admitted :
    Platform → Option CapabilityManifest → Reservation → Answer → (EnvironmentHandle → Task) → Run
unfolding received
admitted p offered r a next m =
    settle (received p m offered r a)
      (λ e m'.
        settle (validate_reserved_namespace r m'.writer) (λ _. wait (next e))
          (λ x. wait (abandoning r e x)) m')
      (released r) m

-- A snapshot of a live environment, as the manager accepts it.
unfoldable pub taken :
    Platform
    → Manager
    → Option CapabilityManifest
    → Answer
    → TargetSpec
    → EnvironmentHandle
    → Option ℕ
    → Action SnapshotManifest
taken p m offered a target e root = do
  v ← reads (λ _. bounded a)
  s ← reads (λ _. as_snapshot p v)
  reads (λ _. snapshot_accepted p m.capabilities offered s target e root)
  pure s

abbrev pub root_world :
    CapabilityManifest → Reservation → TargetSpec → EnvironmentHandle → SnapshotManifest → WorldNode
root_world capabilities r target e s = record {
  world_id = r.world_id;
  parent_world_id = none;
  root_snapshot_id = s.root_snapshot_id;
  target = target;
  adapter = capabilities.pin;
  capability_manifest = capabilities;
  phase = active;
  state_fingerprint = s.state_fingerprint;
  lineage = [];
  environment = some e;
  snapshot = some s;
  deduplicated_to = none;
  destroyed = false;
  revision = 0;
}

abbrev pub ghost_world : Reservation → WorldNode → ℕ → WorldNode
ghost_world r parent transition = record {
  world_id = r.world_id;
  parent_world_id = some parent.world_id;
  root_snapshot_id = parent.root_snapshot_id;
  target = parent.target;
  adapter = parent.adapter;
  capability_manifest = parent.capability_manifest;
  phase = ghost;
  state_fingerprint = parent.state_fingerprint;
  lineage = parent.lineage ++ transition ∷ [];
  environment = none;
  snapshot = none;
  deduplicated_to = none;
  destroyed = false;
  revision = 0;
}

abbrev pub forked_world :
    Reservation → WorldNode → ℕ → EnvironmentHandle → SnapshotManifest → WorldNode
forked_world r parent transition e s =
    let child = ghost_world r parent transition in
    record child {
      phase = active;
      state_fingerprint = s.state_fingerprint;
      environment = some e;
      snapshot = some s;
    }

unfoldable pub publish : Manager → Reservation → WorldNode → Action WorldNode
publish m r n = do n' ← reads (λ _. validated (validate_node n)); add n' r m.writer
