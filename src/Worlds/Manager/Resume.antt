-- ===== src/Worlds/Manager/Resume.antt =====
-- A coroutine that waits for the adapter, run from its answer to the next wait, or to its end.
use stateweaver.Common.{
  ℕ, Bool, true, not, ◌&&◌, Option, none, some, [], ◌∷◌, Result, ok, err, raise_if, any, all,
}
use stateweaver.Common.Dict.{Dict, lookup}
use stateweaver.Worlds.Models.{
  EnvironmentHandle, SnapshotManifest, WorldNode, WorldPhase, CapabilityManifest, active, ghost,
  blocked, is_id,
}
use stateweaver.Worlds.Failure.{Failure, lifecycle, cleanup_failed, restore_unverified}
use stateweaver.Worlds.Store.{Store, Action, pure, reads, ◌>>=◌, ◌>>◌, get}
use stateweaver.Worlds.Manager.Calls.{Platform, Answer, bounded, require_none}
use stateweaver.Worlds.Manager.Tasks.{
  Manager, Task, at_gate, preparing, prepare_snapshot, forking, fork_snapshot, abandoning,
  snapshotting, restoring, restore_snapshot, retiring, destroying, world, snapshot_taken, waiting,
}
use stateweaver.Worlds.Manager.Steps.{
  Run, settle, stop, finish, wait, released, commit, admitted, taken, root_world, forked_world,
  publish,
}
use stateweaver.Worlds.Manager.Enter.{is_phase}

abbrev included : Dict ℕ → Dict ℕ → Bool
included a b = all (λ entry. is_id (lookup entry.0 b) entry.1) a

-- `==` on two mappings.
abbrev pub same_hashes : Dict ℕ → Dict ℕ → Bool
same_hashes a b = included a b && included b a

abbrev restored :
    Platform
    → Option CapabilityManifest
    → WorldNode
    → EnvironmentHandle
    → SnapshotManifest
    → Answer
    → Manager
    → Action SnapshotManifest
restored p offered n e snap a m = do
  s ← taken p m offered a n.target e (some n.root_snapshot_id)
  reads (λ _.
      raise_if (not (same_hashes s.content_hashes snap.content_hashes))
        (lifecycle restore_unverified))
  pure s

abbrev snapped : WorldNode → SnapshotManifest → Manager → Action WorldNode
snapped n s m =
    commit m.writer n (record n { snapshot = some s; state_fingerprint = s.state_fingerprint })

-- The adapter has answered: run to the next wait.
unfoldable pub resume : Platform → Option CapabilityManifest → Task → Answer → Run
resume p offered (at_gate w) a m = (waiting (at_gate w), m)
resume p offered (preparing r target) a m =
    admitted p offered r a (λ e. prepare_snapshot r target e) m
resume p offered (prepare_snapshot r target e) a m =
    settle
      (do
        s ← taken p m offered a target e none
        publish m r (root_world m.capabilities r target e s))
      (λ n. finish (world n)) (λ x. wait (abandoning r e x)) m
resume p offered (forking r parent t) a m =
    admitted p offered r a (λ e. fork_snapshot r parent t e) m
resume p offered (fork_snapshot r parent t e) a m =
    settle
      (do
        s ← taken p m offered a parent.target e (some parent.root_snapshot_id)
        publish m r (forked_world r parent t e s))
      (λ n. finish (world n)) (λ x. wait (abandoning r e x)) m
resume p offered (abandoning r e primary) a m =
    settle (reads (λ _. bounded a)) (λ _. released r primary) (λ x. stop (cleanup_failed primary x))
      m
resume p offered (snapshotting n e) a m =
    settle (taken p m offered a n.target e (some n.root_snapshot_id))
      (λ s m'. settle (snapped n s m') (λ _. finish (snapshot_taken s)) stop m')
      (λ x. wait (retiring n x)) m
resume p offered (restoring n e snap) a m =
    settle (do v ← reads (λ _. bounded a); reads (λ _. require_none v))
      (λ _. wait (restore_snapshot n e snap)) (λ x. wait (retiring n x)) m
resume p offered (restore_snapshot n e snap) a m =
    settle (restored p offered n e snap a m)
      (λ s m'. settle (snapped n s m') (λ w. finish (world w)) stop m') (λ x. wait (retiring n x)) m
resume p offered (retiring n primary) a m =
    settle (reads (λ _. bounded a))
      (λ _ m'.
        settle (commit m'.writer n (record n { destroyed = true; environment = none }))
          (λ _. stop primary) stop m')
      (λ x m'.
        settle (commit m'.writer n (record n { phase = blocked }))
          (λ _. stop (cleanup_failed primary x)) stop m')
      m
resume p offered (destroying n) a m =
    settle (reads (λ _. bounded a))
      (λ _ m'.
        settle (commit m'.writer n (record n { destroyed = true; environment = none }))
          (λ w. finish (world w)) stop m')
      stop m

-- `schedulable`.
unfoldable pub schedulable : ℕ → Store → Result Failure Bool
schedulable i s = elim (get i s) [
  | err e ↦ err e
  | ok n ↦ ok (
      not n.destroyed
      && any (is_phase n.phase) (ghost ∷ WorldPhase.replay ∷ WorldPhase.simulated ∷ active ∷ []))
]
