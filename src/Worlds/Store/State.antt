-- ===== src/Worlds/Store/State.antt =====
-- The state of `_WorldStore`, and a method call over it: the state comes back beside an error too,
-- since what was written before a raise stays written.
use stateweaver.Common.{ℕ, Bool, false, Option, none, some, List, [], Result, ok, err, ℕ_discrete}
use stateweaver.Common.Dict.{Dict, lookup}
use stateweaver.Worlds.Models.{EnvironmentHandle, Invalid, WorldNode}
use stateweaver.Worlds.Failure.{Failure, invalid, lifecycle, unknown_world}

-- Each reservation is an object of its own: `serial` stands for its identity under `is`.
pub record Reservation : Type 0 where
  pub world_id : ℕ
  pub serial : ℕ

pub record PendingWorld : Type 0 where
  pub reservation : Reservation
  pub environment : Option EnvironmentHandle

pub record FingerprintKey : Type 0 where
  pub root_snapshot_id : ℕ
  pub target_id : ℕ
  pub target_version : ℕ
  pub adapter : ℕ
  pub version : ℕ
  pub state_fingerprint : ℕ

unfoldable pub FingerprintKey-discrete : Discrete FingerprintKey
FingerprintKey-discrete = hlevel ℕ_discrete

-- `writer_authority` is the object that the issued writer holds.
pub record Store : Type 0 where
  pub nodes : Dict WorldNode
  pub fingerprints : List (FingerprintKey × ℕ)
  pub pending_worlds : Dict PendingWorld
  pub writer_authority : ℕ
  pub writer_issued : Bool
  pub next_serial : ℕ

abbrev pub Action : Type 0 → Type 0
Action A = Store → Result Failure A × Store

module _ {A : Type 0} where
  unfoldable pub pure : A → Action A
  pure a s = (ok a, s)

  unfoldable pub raise : Failure → Action A
  raise e s = (err e, s)

  -- A read that may raise.
  unfoldable pub reads : (Store → Result Failure A) → Action A
  reads f s = (f s, s)

unfoldable pub modify : (Store → Store) → Action (Unit {0})
modify f s = (ok tt, f s)

infixl 5 ◌>>=◌ ◌>>◌
-- Opening the bind opens the actions above too.
unfoldable pub ◌>>=◌ : {A B : Type 0} → Action A → (A → Action B) → Action B
unfolding pure raise reads modify
◌>>=◌ m f s = let (r, s') = m s in elim r [ ok a ↦ f a s' | err e ↦ (err e, s') ]

abbrev pub ◌>>◌ : {A B : Type 0} → Action A → Action B → Action B
m >> k = m >>= λ _. k

-- A model validator that raises is a `ValidationError`.
abbrev pub validated : Result Invalid WorldNode → Result Failure WorldNode
validated (ok n) = ok n
validated (err e) = err (invalid e)

-- `_WorldStore.__init__`.
abbrev pub new_store : ℕ → Store
new_store authority = record {
  nodes = [];
  fingerprints = [];
  pending_worlds = [];
  writer_authority = authority;
  writer_issued = false;
  next_serial = 0;
}

-- `get`.
unfoldable pub get : ℕ → Store → Result Failure WorldNode
get world_id s = elim (lookup world_id s.nodes) [
  | none ↦ err (lifecycle unknown_world)
  | some n ↦ ok n
]
