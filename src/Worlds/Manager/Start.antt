-- ===== src/Worlds/Manager/Start.antt =====
-- A public coroutine up to its first wait: the identifiers are validated, the event loop is bound,
-- and a new identity is reserved.
use stateweaver.Common.{
  ℕ, Bool, true, false, not, Option, none, some, Result, ok, err, raise_if, ◌==◌, if◌then◌else◌,
}
use stateweaver.Common
use stateweaver.Worlds.Failure.{Failure, lifecycle, invalid_world_id, other_event_loop}
use stateweaver.Worlds.Store.{Store, Action, pure, ◌>>=◌, get, reserve_world}
use stateweaver.Worlds.Manager.Calls.{Platform, manifest, as_snapshot}
use stateweaver.Worlds.Manager.Tasks.{
  Manager, Request, prepare, create_ghost, snapshot, fork, restore, destroy, transition, ghost_of,
  snapshot_of, fork_of, restore_of, destroy_of, transition_of, Task, at_gate, preparing, Progress,
  waiting, finished,
}

-- `_validated_world_id`.
unfoldable pub validated_world_id : Platform → ℕ → Result Failure (Unit {0})
validated_world_id p i = raise_if (not (p.is_valid_id i)) (lifecycle invalid_world_id)

-- A store action of the manager, as a step of the manager.
abbrev pub on_store : {A : Type 0} → Manager → Result Failure A × Store → Result Failure A × Manager
on_store m (r, s) = (r, record m { store = s })

abbrev bound : Option ℕ → ℕ → Bool
bound none loop = true
bound (some l) loop = l == loop

-- `_bind_running_loop`.
unfoldable pub bind_running_loop : ℕ → Manager → Result Failure (Unit {0}) × Manager
bind_running_loop loop m =
    if bound m.event_loop loop
    then (ok tt, record m { event_loop = some loop })
    else (err (lifecycle other_event_loop), m)

-- What a request validates before it binds the loop.
unfoldable pub request_checked : Platform → Request → Store → Result Failure (Unit {0})
unfolding validated_world_id
request_checked p (prepare target i) s = validated_world_id p i
request_checked p (create_ghost parent t i) s =
    Common.◌>>◌ (validated_world_id p parent)
      (Common.◌>>◌ (validated_world_id p i) (Common.◌>>=◌ (get parent s) λ _. ok tt))
request_checked p (fork parent t i) s =
    Common.◌>>◌ (validated_world_id p parent)
      (Common.◌>>◌ (validated_world_id p i) (Common.◌>>=◌ (get parent s) λ _. ok tt))
request_checked p (snapshot i) s =
    Common.◌>>◌ (validated_world_id p i) (Common.◌>>=◌ (get i s) λ _. ok tt)
request_checked p (restore i snap) s =
    Common.◌>>◌ (validated_world_id p i)
      (Common.◌>>=◌ (get i s) λ _. Common.◌>>=◌ (as_snapshot p (manifest snap)) λ _. ok tt)
request_checked p (destroy i) s =
    Common.◌>>◌ (validated_world_id p i) (Common.◌>>=◌ (get i s) λ _. ok tt)
request_checked p (transition i phase) s =
    Common.◌>>◌ (validated_world_id p i) (Common.◌>>=◌ (get i s) λ _. ok tt)

-- The task of a request, once the loop is bound: a new identity is reserved first.
unfoldable pub first_task : Platform → Request → ℕ → Action Task
first_task p (prepare target i) writer = do
  r ← reserve_world p.is_valid_id i writer
  pure (preparing r target)
first_task p (create_ghost parent t i) writer = do
  r ← reserve_world p.is_valid_id i writer
  pure (at_gate (ghost_of r parent t))
first_task p (fork parent t i) writer = do
  r ← reserve_world p.is_valid_id i writer
  pure (at_gate (fork_of r parent t))
first_task p (snapshot i) writer = pure (at_gate (snapshot_of i))
first_task p (restore i snap) writer = pure (at_gate (restore_of i snap))
first_task p (destroy i) writer = pure (at_gate (destroy_of i))
first_task p (transition i phase) writer = pure (at_gate (transition_of i phase))

abbrev pub begun : Result Failure Task × Store → Manager → Progress × Manager
begun (ok t, s) m = (waiting t, record m { store = s })
begun (err e, s) m = (finished (err e), record m { store = s })

abbrev pub started : Platform → Request → Result Failure (Unit {0}) × Manager → Progress × Manager
started p q (ok _, m) = begun (first_task p q m.writer m.store) m
started p q (err e, m) = (finished (err e), m)

-- A call of a public coroutine, run to its first wait.
unfoldable pub start : Platform → Request → ℕ → Manager → Progress × Manager
unfolding request_checked bind_running_loop
start p q loop m = elim (request_checked p q m.store) [
  | err e ↦ (finished (err e), m)
  | ok _ ↦ started p q (bind_running_loop loop m)
]
