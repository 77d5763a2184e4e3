-- ===== src/Worlds/Interleaving/EventLoop.antt =====
-- The event loop: a request starts, a coroutine enters a gate that is free or is cancelled at it, or the adapter
-- answers one of the coroutines. The order, the answers and what the adapter says of itself are free.
use stateweaver.Common.{ℕ, ◌≡◌, ◌≢◌, Option, none, some, List, [], ◌∷◌, ◌++◌, All}
use stateweaver.Worlds.Models.{CapabilityManifest}
use stateweaver.Worlds.Store.{new_store}
use stateweaver.Worlds.Manager.{
  Platform, Answer, Manager, Request, Admission, Task, at_gate, Progress, waiting, finished,
  gate_of, held_gate, start, enter, cancel, resume,
}

pub record System : Type 0 where
  pub manager : Manager
  pub tasks : List Task

-- The coroutine that ran waits again, or is done.
abbrev pub still_waiting : Progress → List Task
still_waiting (waiting t) = t ∷ []
still_waiting (finished r) = []

-- The system after one coroutine, between the others, ran to its next wait.
abbrev pub after : List Task → Progress × Manager → List Task → System
after before (progress, m) rest = record {
  manager = m;
  tasks = before ++ (still_waiting progress ++ rest);
}

-- No other coroutine holds the gate.
abbrev pub Free : ℕ → List Task → Type 0
Free i = All (λ t. held_gate t ≢ some i)

-- `WorldManager.__init__` over an adapter whose capabilities passed.
abbrev pub new_manager : CapabilityManifest → ℕ → Manager
new_manager capabilities authority = record {
  capabilities = capabilities;
  writer = authority;
  event_loop = none;
  store = new_store authority;
}

pub data Step (p : Platform) (u v : System) : Type 0 where
  starts : (q : Request) (loop : ℕ) → v ≡ after [] (start p q loop u.manager) u.tasks → Step p u v
  enters :
      (before rest : List Task) (w : Admission) (offered : Option CapabilityManifest)
      → u.tasks ≡ before ++ (at_gate w ∷ rest)
      → Free (gate_of w) (before ++ rest)
      → v ≡ after before (enter p offered w u.manager) rest
      → Step p u v
  cancels :
      (before rest : List Task) (w : Admission)
      → u.tasks ≡ before ++ (at_gate w ∷ rest)
      → v ≡ after before (cancel w u.manager) rest
      → Step p u v
  answers :
      (before rest : List Task) (t : Task) (a : Answer) (offered : Option CapabilityManifest)
      → u.tasks ≡ before ++ (t ∷ rest)
      → v ≡ after before (resume p offered t a u.manager) rest
      → Step p u v

pub data Reachable (p : Platform) (u : System) : System → Type 0 where
  here : Reachable p u u
  next : {v w : System} → Reachable p u v → Step p v w → Reachable p u w
