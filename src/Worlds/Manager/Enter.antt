-- ===== src/Worlds/Manager/Enter.antt =====
-- What a coroutine does once it has its gate, up to its first wait.
use stateweaver.Common.{
  ℕ, Bool, true, false, not, ◌||◌, Option, none, some, Result, ok, err, raise_if, same, any,
  is_some,
}
use stateweaver.Worlds.Models.{
  EnvironmentHandle, SnapshotManifest, WorldNode, WorldPhase, WorldPhase-discrete,
  CapabilityManifest, pruned, forkable, legal_transitions,
}
use stateweaver.Worlds.Failure.{
  Failure, lifecycle, no_live_environment, not_forkable, not_restorable, destroyed_transition,
  illegal_transition,
}
use stateweaver.Worlds.Store.{Action, pure, reads, ◌>>=◌, ◌>>◌, get}
use stateweaver.Worlds.Manager.Calls.{Platform, check_pin, snapshot_accepted}
use stateweaver.Worlds.Manager.Tasks.{
  Manager, Admission, ghost_of, snapshot_of, fork_of, restore_of, destroy_of, transition_of,
  forking, snapshotting, restoring, destroying, world,
}
use stateweaver.Worlds.Manager.Steps.{
  Run, settle, stop, finish, wait, released, commit, ghost_world, publish,
}

abbrev live_environment :
    Failure → Bool → Option EnvironmentHandle → Result Failure EnvironmentHandle
live_environment e true o = err e
live_environment e false none = err e
live_environment e false (some h) = ok h

abbrev pub is_phase : WorldPhase → WorldPhase → Bool
is_phase a b = same WorldPhase-discrete a b

abbrev checked : Platform → Manager → Option CapabilityManifest → WorldNode → Action (Unit {0})
checked p m offered n = reads (λ _. check_pin p m.capabilities offered n.adapter)

abbrev live_world :
    ℕ → Platform → Manager → Option CapabilityManifest → Action (WorldNode × EnvironmentHandle)
live_world i p m offered = do
  n ← reads (get i)
  e ← reads (λ _. live_environment (lifecycle no_live_environment) n.destroyed n.environment)
  checked p m offered n
  pure (n, e)

abbrev forkable_world : ℕ → Platform → Manager → Option CapabilityManifest → Action WorldNode
forkable_world i p m offered = do
  n ← reads (get i)
  reads (λ _.
      raise_if (n.destroyed || not (is_some n.snapshot) || not (forkable n.phase))
        (lifecycle not_forkable))
  checked p m offered n
  pure n

abbrev restorable_world :
    ℕ
    → SnapshotManifest
    → Platform
    → Manager
    → Option CapabilityManifest
    → Action (WorldNode × EnvironmentHandle)
restorable_world i s p m offered = do
  n ← reads (get i)
  e ← reads (λ _.
      live_environment (lifecycle not_restorable) (n.destroyed || is_phase n.phase pruned)
        n.environment)
  checked p m offered n
  reads (λ _. snapshot_accepted p m.capabilities offered s n.target e (some n.root_snapshot_id))
  pure (n, e)

abbrev moved : ℕ → WorldPhase → Manager → Action WorldNode
moved i phase m = do
  n ← reads (get i)
  reads (λ _. raise_if n.destroyed (lifecycle destroyed_transition))
  reads (λ _.
      raise_if (not (any (is_phase phase) (legal_transitions n.phase)))
        (lifecycle illegal_transition))
  commit m.writer n (record n { phase = phase })

-- `destroy`, on whether the world is destroyed and has an environment: one that has waits for the
-- adapter.
unfoldable pub demolish :
    Platform → Option CapabilityManifest → WorldNode → Bool → Option EnvironmentHandle → Run
demolish p offered n true e m = finish (world n) m
demolish p offered n false none m =
    settle (commit m.writer n (record n { destroyed = true })) (λ w. finish (world w)) stop m
demolish p offered n false (some e) m =
    settle (checked p m offered n) (λ _. wait (destroying n)) stop m

-- The gate is free: the body of `async with self._world_gate(...)` up to its first wait.
unfoldable pub enter : Platform → Option CapabilityManifest → Admission → Run
enter p offered (ghost_of r parent t) m =
    settle (do n ← reads (get parent); checked p m offered n; publish m r (ghost_world r n t))
      (λ n. finish (world n)) (released r) m
enter p offered (fork_of r parent t) m =
    settle (forkable_world parent p m offered) (λ n. wait (forking r n t)) (released r) m
enter p offered (snapshot_of i) m =
    settle (live_world i p m offered) (λ w. wait (snapshotting w.0 w.1)) stop m
enter p offered (restore_of i s) m =
    settle (restorable_world i s p m offered) (λ w. wait (restoring w.0 w.1 s)) stop m
enter p offered (destroy_of i) m =
    settle (reads (get i)) (λ n. demolish p offered n n.destroyed n.environment) stop m
enter p offered (transition_of i phase) m = settle (moved i phase m) (λ n. finish (world n)) stop m

-- Cancelled at the gate: a reservation is released.
unfoldable pub cancel : Admission → Run
cancel (ghost_of r parent t) = released r Failure.cancelled
cancel (fork_of r parent t) = released r Failure.cancelled
cancel _ = stop Failure.cancelled
