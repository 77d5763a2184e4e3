-- ===== src/Worlds/Interleaving/Safety.antt =====
-- After any interleaving of coroutines, answers and cancellations the store is sound.
use stateweaver.Common.{ℕ, ◌≡◌, [], Result, ok, err, inl, inr, arith, Result-cases}
use stateweaver.Worlds.Models.{CapabilityManifest}
use stateweaver.Worlds.Failure.{Failure}
use stateweaver.Worlds.Store.{Store}
use stateweaver.Worlds.Manager.{
  Platform, Manager, Request, Task, request_checked, bind_running_loop, first_task, begun, started,
  start,
}
use stateweaver.Worlds.Soundness.{IsSound, new_store-IsSound}
use stateweaver.Worlds.Interleaving.EventLoop.{
  System, Step, starts, enters, cancels, answers, Reachable, here, next, new_manager,
}
use stateweaver.Worlds.Interleaving.Runs.{
  Ends, first_task-Keeps, enter-Ends, cancel-Ends, resume-Ends,
}

begun-Ends : (r : Result Failure Task × Store) (m : Manager) → IsSound r.1 → Ends (begun r m)
begun-Ends (ok t, s) m h = h
begun-Ends (err e, s) m h = h

started-Ends :
    (p : Platform) (q : Request) (r : Result Failure (Unit {0}) × Manager)
    → IsSound r.1.store
    → Ends (started p q r)
started-Ends p q (ok _, m) h =
    begun-Ends (first_task p q m.writer m.store) m ((first_task-Keeps p q m.writer).at m.store h)
started-Ends p q (err e, m) h = h

bind_running_loop-store : (loop : ℕ) (m : Manager) → (bind_running_loop loop m).1.store ≡ m.store
unfolding bind_running_loop
bind_running_loop-store loop m = ground arith

start-Ends :
    (p : Platform) (q : Request) (loop : ℕ) (m : Manager)
    → IsSound m.store
    → Ends (start p q loop m)
unfolding start
start-Ends p q loop m h = elim (Result-cases (request_checked p q m.store)) [
  | inl (e, c) ↦ rw (c, start) h
  | inr (_, c) ↦
      rw (c, start)
        (started-Ends p q (bind_running_loop loop m) (rw (bind_running_loop-store loop m) h))
]

-- Each step keeps the store sound.
pub Step-IsSound :
    {p : Platform} {u v : System} → Step p u v → IsSound u.manager.store → IsSound v.manager.store
Step-IsSound {p} {u} (starts q loop e) h = rw e (start-Ends p q loop u.manager h)
Step-IsSound {p} {u} (enters before rest w offered t f e) h =
    rw e (enter-Ends p offered w u.manager h)
Step-IsSound {p} {u} (cancels before rest w t e) h = rw e (cancel-Ends w u.manager h)
Step-IsSound {p} {u} (answers before rest t a offered q e) h =
    rw e (resume-Ends p offered t a u.manager h)

-- Whatever requests, gates, answers and cancellations follow one another on a new manager, its
-- worlds are coherent and stand under their own identifiers, the environments of any two live worlds
-- share no identifier, reference or namespace component, and an environment that a reservation owns
-- shares no identifier or reference with a live world or another reservation.
pub Reachable-IsSound :
    (capabilities : CapabilityManifest) (authority : ℕ) {p : Platform} {v : System}
    → Reachable p (record { manager = new_manager capabilities authority; tasks = [] }) v
    → IsSound v.manager.store
Reachable-IsSound capabilities authority here = new_store-IsSound authority
Reachable-IsSound capabilities authority (next r s) =
    Step-IsSound s (Reachable-IsSound capabilities authority r)
