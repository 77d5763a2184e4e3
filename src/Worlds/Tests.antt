-- ===== src/Worlds/Tests.antt =====
-- Concrete runs of the store and the manager, and each theorem at an input that meets its
-- hypotheses.
use stateweaver.Common.{
  ℕ, none, ok, ◌↔◌, ◌≡◌, ◌+◌, refl, some, [], ◌∷◌, ltb, ℕ_discrete, map, contains, unique,
}
use stateweaver.Common.Dict.{Dict, lookup, insert, erase}
use stateweaver.Worlds.Models.{
  AdapterPin, CapabilityManifest, EnvironmentHandle, SnapshotManifest, TargetSpec, supported, deny,
  validate_node, supports, coherent_live_shape, validate_snapshot, namespace_values,
  legal_transitions, forkable, AdapterPin-discrete, TargetSpec-discrete,
  CapabilityManifest-discrete, EnvironmentHandle-discrete, WorldPhase-discrete,
}
use stateweaver.Worlds.Store.{
  Reservation, ◌>>=◌, get, open_manager_writer, reserve_world, pending_for, claim_environment,
  validate_reserved_namespace, release_world, add, replace, admits, succeeds, validate_parent,
  accepts_child, rebuild_indexes, rebuild, node_at, all_but_last, unique_live_environment,
  environment_unassigned, environment_disjoint, identity_disjoint, namespace_disjoint, check_nodes,
  check_pending, canonical_of, set_default, FingerprintKey-discrete, lineage_discrete,
  parent_discrete, environment_discrete,
}
use stateweaver.Worlds.Manager.{
  Platform, Manager, returned, handle, manifest, prepare, preparing, prepare_snapshot, start,
  resume, enter, cancel, settle, stop, finish, wait, released, commit, received, admitted, taken,
  publish, demolish, request_checked, validated_world_id, bind_running_loop, first_task, bounded,
  as_handle, as_snapshot, require_none, validated_capabilities, check_pin, snapshot_accepted,
}
use stateweaver.Worlds.Soundness.{IsSound}
use stateweaver.Worlds.Atomic.{AddOutcome, ReplaceOutcome, add_atomic, replace_atomic}
use stateweaver.Worlds.Models.Coherent.{IsCoherent, validate_node_iff}
use stateweaver.Worlds.Manager.{root_world}
use stateweaver.Worlds.Models.{WorldNode}
use stateweaver.Worlds.Interleaving.{
  System, Reachable, here, next, starts, answers, after, new_manager,
}
use stateweaver.Worlds.Interleaving.Safety.{Reachable-IsSound}

-- On an `unfolding` line this opens the store and the manager.
engine : Unit {0}
unfolding start resume enter cancel settle stop finish wait released commit received admitted taken
    publish demolish request_checked validated_world_id bind_running_loop first_task bounded
    as_handle as_snapshot require_none validated_capabilities check_pin snapshot_accepted ◌>>=◌ get
    open_manager_writer reserve_world pending_for claim_environment validate_reserved_namespace
    release_world add replace admits succeeds validate_parent accepts_child rebuild_indexes rebuild
    node_at all_but_last unique_live_environment environment_unassigned environment_disjoint
    identity_disjoint namespace_disjoint check_nodes check_pending canonical_of set_default
    validate_node coherent_live_shape validate_snapshot namespace_values supports legal_transitions
    forkable lookup insert erase contains unique ℕ_discrete AdapterPin-discrete TargetSpec-discrete
    CapabilityManifest-discrete EnvironmentHandle-discrete WorldPhase-discrete
    FingerprintKey-discrete lineage_discrete parent_discrete environment_discrete
engine = tt

abbrev pin : AdapterPin
pin = record { adapter = 1; version = 2 }

abbrev capabilities : CapabilityManifest
capabilities = record { pin = pin; capabilities = (11, supported) ∷ []; egress_policy = deny }

abbrev total : Dict ℕ → ℕ
total [] = 0
total ((_, v) ∷ d) = v + total d

abbrev platform : Platform
platform = record {
  is_valid_id = λ i. ltb 0 i;
  derive_state_fingerprint = total;
  hash_names = 21 ∷ 22 ∷ [];
  capability_names = 11 ∷ [];
}

abbrev target : TargetSpec
target = record { target_id = 31; target_version = 32; secret_handles = [] }

abbrev environment : ℕ → EnvironmentHandle
environment k = record {
  adapter = pin;
  environment_id = k + 1;
  opaque_ref = k + 2;
  namespace = record {
    network = k + 3;
    database = k + 4;
    cache = k + 5;
    queue = k + 6;
    session = k + 7;
    storage = k + 8;
  };
  quotas = record {
    cpu_seconds = 60;
    memory_mb = 64;
    pids = 8;
    requests = 10;
    concurrent_actions = 1;
  };
}

abbrev snapshot_of : ℕ → SnapshotManifest
snapshot_of k = record {
  snapshot_id = k + 9;
  root_snapshot_id = 41;
  source_environment_id = k + 1;
  target = target;
  adapter = pin;
  content_hashes = (21, 50) ∷ (22, 51) ∷ [];
  state_fingerprint = 101;
}

abbrev manager : Manager
manager = new_manager capabilities 7

abbrev reservation : Reservation
reservation = record { world_id = 5; serial = 0 }

abbrev started : System
started = after [] (start platform (prepare target 5) 3 manager) []

abbrev received_handle : System
received_handle =
    after []
      (resume platform (some capabilities) (preparing reservation target)
        (returned (handle (environment 100))) started.manager)
      []

abbrev prepared : System
prepared =
    after []
      (resume platform (some capabilities) (prepare_snapshot reservation target (environment 100))
        (returned (manifest (snapshot_of 100))) received_handle.manager)
      []

prepared_run : Reachable platform (record { manager = manager; tasks = [] }) prepared
unfolding engine
prepared_run =
    next
      (next (next here (starts (prepare target 5) 3 refl)) (
        answers [] [] (preparing reservation target) (returned (handle (environment 100)))
          (some capabilities) refl refl))
      (answers [] [] (prepare_snapshot reservation target (environment 100))
        (returned (manifest (snapshot_of 100))) (some capabilities) refl refl)

prepared_ids : map (λ entry. entry.0) prepared.manager.store.nodes ≡ 5 ∷ []
unfolding engine
prepared_ids = refl

Reachable-IsSound_example : IsSound prepared.manager.store
Reachable-IsSound_example = Reachable-IsSound capabilities 7 prepared_run

-- The world that `prepare` publishes, and the store in which it is published.
abbrev root : WorldNode
root = root_world capabilities reservation target (environment 100) (snapshot_of 100)

add_atomic_example : AddOutcome root reservation 7 received_handle.manager.store
add_atomic_example =
    add_atomic root reservation 7 received_handle.manager.store (unfold engine in tt)

-- The prepared world is written again at its next revision.
replace_atomic_example : ReplaceOutcome root none 7 prepared.manager.store
replace_atomic_example =
    replace_atomic root none 7 prepared.manager.store
      (Reachable-IsSound capabilities 7 prepared_run).catalog

validate_node_iff_example : (validate_node root ≡ ok root) ↔ IsCoherent root
validate_node_iff_example = validate_node_iff root
