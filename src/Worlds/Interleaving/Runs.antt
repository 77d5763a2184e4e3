-- ===== src/Worlds/Interleaving/Runs.antt =====
-- Running a coroutine between two waits keeps the store sound, whatever the adapter answered.
use stateweaver.Common.{
  ℕ, ◌≡◌, sym, subst, Option, none, some, Result, ok, err, arith, Bool, true, false,
}
use stateweaver.Worlds.Models.{CapabilityManifest, EnvironmentHandle, TargetSpec, WorldNode}
use stateweaver.Worlds.Failure.{Failure}
use stateweaver.Worlds.Store.{
  Reservation, Store, Action, reads, pure, ◌>>=◌, release_world, reserve_world, replace, add,
  claim_environment, validate_reserved_namespace,
}
use stateweaver.Worlds.Manager.{
  Platform, Answer, Manager, Request, prepare, create_ghost, fork, first_task, Admission, Task,
  at_gate, preparing, ghost_of, snapshot_of, fork_of, restore_of, destroy_of, transition_of, Run,
  Progress, Reply, settle, stop, finish, wait, released, commit, received, admitted, taken, publish,
  demolish, enter, demolish, cancel, resume,
}
use stateweaver.Worlds.Soundness.{
  IsSound, reserve_world-IsSound, release_world-IsSound, claim_environment-IsSound,
  validate_reserved_namespace-IsSound, add-IsSound, replace-IsSound,
}

-- An action keeps the store sound, whether it returns or raises.
pub record Keeps {A : Type 0} (act : Action A) : Type 0 where
  pub at : (s : Store) → IsSound s → IsSound (act s).1

module _ {A B : Type 0} where
  abbrev carry_on : (A → Action B) → Result Failure A × Store → Result Failure B × Store
  carry_on f (ok a, s) = f a s
  carry_on f (err e, s) = (err e, s)

  carry_on-IsSound :
      (f : A → Action B) (r : Result Failure A × Store)
      → ((a : A) → Keeps (f a))
      → IsSound r.1
      → IsSound (carry_on f r).1
  carry_on-IsSound f (ok a, s) k h = (k a).at s h
  carry_on-IsSound f (err e, s) k h = h

  bind-carry_on : (m : Action A) (f : A → Action B) (s : Store) → (m >>= f) s ≡ carry_on f (m s)
  bind-carry_on m f s = unfold ◌>>=◌ in ground arith

  Keeps-bind :
      (m : Action A) (f : A → Action B) → Keeps m → ((a : A) → Keeps (f a)) → Keeps (m >>= f)
  Keeps-bind m f km kf = record {
    at = λ s h.
        subst (λ r. IsSound r.1) (sym (bind-carry_on m f s))
          (carry_on-IsSound f (m s) kf (km.at s h));
  }

Keeps-reads : {A : Type 0} (f : Store → Result Failure A) → Keeps (reads f)
Keeps-reads f = record { at = λ s h. unfold reads in h }

Keeps-pure : {A : Type 0} (a : A) → Keeps (pure a)
Keeps-pure a = record { at = λ s h. unfold pure in h }

Keeps-reserve : (is_valid_id : ℕ → Bool) (k writer : ℕ) → Keeps (reserve_world is_valid_id k writer)
Keeps-reserve is_valid_id k writer = record { at = reserve_world-IsSound is_valid_id k writer }

Keeps-release : (r : Reservation) (writer : ℕ) → Keeps (release_world r writer)
Keeps-release r writer = record { at = release_world-IsSound r writer }

Keeps-claim :
    (r : Reservation) (e : EnvironmentHandle) (writer : ℕ) → Keeps (claim_environment r e writer)
Keeps-claim r e writer = record { at = claim_environment-IsSound r e writer }

Keeps-namespace : (r : Reservation) (writer : ℕ) → Keeps (validate_reserved_namespace r writer)
Keeps-namespace r writer = record { at = validate_reserved_namespace-IsSound r writer }

Keeps-add : (n : WorldNode) (r : Reservation) (writer : ℕ) → Keeps (add n r writer)
Keeps-add n r writer = record { at = add-IsSound n r writer }

Keeps-replace :
    (n : WorldNode) (expected : Option ℕ) (writer : ℕ) → Keeps (replace n expected writer)
Keeps-replace n expected writer = record { at = replace-IsSound n expected writer }

ruleset keeps_rules = (
  Keeps-bind, Keeps-reads, Keeps-pure, Keeps-reserve, Keeps-release, Keeps-claim, Keeps-namespace,
  Keeps-add, Keeps-replace,
)

pub commit-Keeps : (writer : ℕ) (n c : WorldNode) → Keeps (commit writer n c)
unfolding commit
commit-Keeps writer n c = search keeps_rules

publish-Keeps : (m : Manager) (r : Reservation) (n : WorldNode) → Keeps (publish m r n)
unfolding publish
publish-Keeps m r n = search keeps_rules

received-Keeps :
    (p : Platform) (m : Manager) (o : Option CapabilityManifest) (r : Reservation) (a : Answer)
    → Keeps (received p m o r a)
unfolding received
received-Keeps p m o r a = search keeps_rules depth 12

-- From a sound store the run ends in a sound store.
abbrev pub Ends : Progress × Manager → Type 0
Ends r = IsSound r.1.store

module _ {A : Type 0} (next : A → Run) (fail : Failure → Run) (m : Manager) where
  abbrev continued : Result Failure A × Store → Progress × Manager
  continued (ok a, s) = next a (record m { store = s })
  continued (err e, s) = fail e (record m { store = s })

  continued-Ends :
      (r : Result Failure A × Store)
      → ((a : A) (m' : Manager) → IsSound m'.store → Ends (next a m'))
      → ((e : Failure) (m' : Manager) → IsSound m'.store → Ends (fail e m'))
      → IsSound r.1
      → Ends (continued r)
  continued-Ends (ok a, s) kn kf h = kn a (record m { store = s }) h
  continued-Ends (err e, s) kn kf h = kf e (record m { store = s }) h

  settle-continued : (act : Action A) → settle act next fail m ≡ continued (act m.store)
  unfolding settle
  settle-continued act = ground arith

  pub settle-Ends :
      (act : Action A)
      → Keeps act
      → ((a : A) (m' : Manager) → IsSound m'.store → Ends (next a m'))
      → ((e : Failure) (m' : Manager) → IsSound m'.store → Ends (fail e m'))
      → IsSound m.store
      → Ends (settle act next fail m)
  settle-Ends act k kn kf h =
      rw (settle-continued act) (continued-Ends (act m.store) kn kf (k.at m.store h))

pub stop-Ends : (e : Failure) (m : Manager) → IsSound m.store → Ends (stop e m)
unfolding stop
stop-Ends e m h = h

pub finish-Ends : (r : Reply) (m : Manager) → IsSound m.store → Ends (finish r m)
unfolding finish
finish-Ends r m h = h

pub wait-Ends : (t : Task) (m : Manager) → IsSound m.store → Ends (wait t m)
unfolding wait
wait-Ends t m h = h

pub released-Ends :
    (r : Reservation) (e : Failure) (m : Manager) → IsSound m.store → Ends (released r e m)
unfolding released
released-Ends r e m h = search (settle-Ends, stop-Ends, Keeps-release)

ruleset run_rules = (
  settle-Ends, stop-Ends, finish-Ends, wait-Ends, released-Ends, commit-Keeps, publish-Keeps,
  received-Keeps, keeps_rules,
)

pub admitted-Ends :
    (p : Platform) (o : Option CapabilityManifest) (r : Reservation) (a : Answer)
    (t : EnvironmentHandle → Task) (m : Manager)
    → IsSound m.store
    → Ends (admitted p o r a t m)
unfolding admitted
admitted-Ends p o r a t m h = search run_rules depth 8

pub taken-Keeps :
    (p : Platform) (m : Manager) (o : Option CapabilityManifest) (a : Answer) (t : TargetSpec)
    (e : EnvironmentHandle) (root : Option ℕ)
    → Keeps (taken p m o a t e root)
unfolding taken
taken-Keeps p m o a t e root = search keeps_rules depth 12

demolish-Ends :
    (p : Platform) (o : Option CapabilityManifest) (n : WorldNode) (d : Bool)
    (e : Option EnvironmentHandle) (m : Manager)
    → IsSound m.store
    → Ends (demolish p o n d e m)
unfolding demolish
demolish-Ends p o n true e m h = search run_rules
demolish-Ends p o n false none m h = search run_rules
demolish-Ends p o n false (some e) m h = search run_rules

-- Entering a gate, and what an answer leads to.
pub enter-Ends :
    (p : Platform) (o : Option CapabilityManifest) (w : Admission) (m : Manager)
    → IsSound m.store
    → Ends (enter p o w m)
unfolding enter
enter-Ends p o (ghost_of r parent t) m h = search run_rules depth 12
enter-Ends p o (snapshot_of i) m h = search run_rules depth 12
enter-Ends p o (fork_of r parent t) m h = search run_rules depth 12
enter-Ends p o (restore_of i s) m h = search run_rules depth 12
enter-Ends p o (destroy_of i) m h = search (run_rules, demolish-Ends) depth 12
enter-Ends p o (transition_of i phase) m h = search run_rules depth 12

pub cancel-Ends : (w : Admission) (m : Manager) → IsSound m.store → Ends (cancel w m)
unfolding cancel
cancel-Ends (ghost_of r parent t) m h = search run_rules depth 12
cancel-Ends (fork_of r parent t) m h = search run_rules depth 12
cancel-Ends _ m h = search run_rules depth 12

ruleset task_rules = (run_rules, admitted-Ends, taken-Keeps)

pub resume-Ends :
    (p : Platform) (o : Option CapabilityManifest) (t : Task) (a : Answer) (m : Manager)
    → IsSound m.store
    → Ends (resume p o t a m)
unfolding resume
resume-Ends p o (at_gate w) a m h = h
resume-Ends p o (preparing r t) a m h = search task_rules depth 12
resume-Ends p o _ a m h = search task_rules depth 12

pub first_task-Keeps : (p : Platform) (q : Request) (writer : ℕ) → Keeps (first_task p q writer)
unfolding first_task
first_task-Keeps p (prepare t i) writer = search keeps_rules
first_task-Keeps p (create_ghost parent t i) writer = search keeps_rules
first_task-Keeps p (fork parent t i) writer = search keeps_rules
first_task-Keeps p _ writer = search keeps_rules
