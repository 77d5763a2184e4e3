-- ===== src/Worlds/Store/Reservations.antt =====
-- The writer, and the reservation of unpublished world identities.
use stateweaver.Common.{
  ℕ, suc, Bool, true, not, ◌||◌, Option, none, some, Result, ok, err, raise_if, ◌==◌, is_some,
  if◌then◌else◌,
}
use stateweaver.Common.Dict.{lookup, insert, erase}
use stateweaver.Worlds.Models.{EnvironmentHandle}
use stateweaver.Worlds.Failure.{
  Failure, lifecycle, invalid_world_id, writer_already_issued, wrong_authority, world_id_taken,
  reservation_inactive, environment_already_owned, no_environment_owned,
}
use stateweaver.Worlds.Store.State.{
  Reservation, PendingWorld, Store, Action, reads, modify, ◌>>=◌, ◌>>◌,
}
use stateweaver.Worlds.Store.Guards.{
  check_nodes, check_pending, identity_disjoint, namespace_disjoint,
}

-- `_open_manager_writer`: what it returns is the authority that the writer passes on.
unfoldable pub open_manager_writer : Action ℕ
open_manager_writer s =
    if s.writer_issued
    then (err (lifecycle writer_already_issued), s)
    else (ok s.writer_authority, record s { writer_issued = true })

-- `_require_writer`.
unfoldable pub require_writer : ℕ → Action (Unit {0})
unfolding ◌>>=◌
require_writer authority =
    reads λ s. raise_if (not (authority == s.writer_authority)) (lifecycle wrong_authority)

abbrev is_known : ℕ → Store → Bool
is_known i s = is_some (lookup i s.nodes) || is_some (lookup i s.pending_worlds)

abbrev new_reservation : ℕ → Action Reservation
new_reservation i s =
    let r : Reservation = record { world_id = i; serial = s.next_serial } in
    (
      ok r,
      record s {
        pending_worlds = insert i (record { reservation = r; environment = none }) s.pending_worlds;
        next_serial = suc s.next_serial;
      },
    )

-- `_reserve_world`. The pattern of an identifier is matched by pydantic: `is_valid_id` is an argument.
unfoldable pub reserve_world : (ℕ → Bool) → ℕ → ℕ → Action Reservation
unfolding require_writer ◌>>=◌
reserve_world is_valid_id world_id authority = do
  require_writer authority
  reads (λ _. raise_if (not (is_valid_id world_id)) (lifecycle invalid_world_id))
  reads (λ s. raise_if (is_known world_id s) (lifecycle world_id_taken))
  new_reservation world_id

abbrev active_pending : Reservation → Option PendingWorld → Result Failure PendingWorld
active_pending r none = err (lifecycle reservation_inactive)
active_pending r (some p) =
    if p.reservation.serial == r.serial then ok p else err (lifecycle reservation_inactive)

-- `_pending_for`.
unfoldable pub pending_for : Reservation → Store → Result Failure PendingWorld
pending_for r s = active_pending r (lookup r.world_id s.pending_worlds)

-- `_claim_environment`.
unfoldable pub claim_environment : Reservation → EnvironmentHandle → ℕ → Action (Unit {0})
unfolding require_writer ◌>>=◌
claim_environment r environment authority = do
  require_writer authority
  pending ← reads (pending_for r)
  reads (λ _. raise_if (is_some pending.environment) (lifecycle environment_already_owned))
  reads (λ s. check_nodes (identity_disjoint environment) none s.nodes)
  reads (λ s. check_pending (identity_disjoint environment) (some r.world_id) s.pending_worlds)
  modify (λ s. record s {
    pending_worlds =
        insert r.world_id (record pending { environment = some environment }) s.pending_worlds;
  })

abbrev owned_environment : Option EnvironmentHandle → Result Failure EnvironmentHandle
owned_environment none = err (lifecycle no_environment_owned)
owned_environment (some e) = ok e

-- `_validate_reserved_namespace`.
unfoldable pub validate_reserved_namespace : Reservation → ℕ → Action (Unit {0})
unfolding require_writer ◌>>=◌
validate_reserved_namespace r authority = do
  require_writer authority
  pending ← reads (pending_for r)
  candidate ← reads (λ _. owned_environment pending.environment)
  reads (λ s. check_nodes (namespace_disjoint candidate) none s.nodes)
  reads (λ s. check_pending (namespace_disjoint candidate) (some r.world_id) s.pending_worlds)

-- `_release_world`.
unfoldable pub release_world : Reservation → ℕ → Action (Unit {0})
unfolding require_writer ◌>>=◌
release_world r authority = do
  require_writer authority
  reads (pending_for r)
  modify (λ s. record s { pending_worlds = erase r.world_id s.pending_worlds })
