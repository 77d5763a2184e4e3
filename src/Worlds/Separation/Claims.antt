-- ===== src/Worlds/Separation/Claims.antt =====
-- Reserving, claiming and releasing keep the holders apart.
use stateweaver.Common.{
  ℕ, ◌≡◌, refl, Bool, none, some, ok, arith, inl, inr, ◌==◌, if◌then◌else◌, Result-cases,
}
use stateweaver.Common.Dict.{Dict, insert, erase, lookup-insert, lookup-erase}
use stateweaver.Worlds.Models.{EnvironmentHandle, WorldNode}
use stateweaver.Worlds.Store.{
  Store, PendingWorld, Reservation, check_nodes, check_pending, identity_disjoint, reserve_world,
  claim_environment, validate_reserved_namespace, release_world, pending_for,
}
use stateweaver.Worlds.Separation.Holders.{
  claimed_at, IsSeparated, check_nodes_at, check_pending_at, identity_disjoint-IdentityApart,
}

abbrev pub StoreSeparated : Store → Type 0
StoreSeparated s = IsSeparated s.nodes s.pending_worlds

claimed_at-insert :
    (d : Dict PendingWorld) (k i : ℕ) (p : PendingWorld)
    → claimed_at (insert k p d) i ≡ (if k == i then p.environment else claimed_at d i)
claimed_at-insert d k i p = ground (arith, lookup-insert i k p d)

pub claimed_at-erase :
    (d : Dict PendingWorld) (k i : ℕ)
    → claimed_at (erase k d) i ≡ (if k == i then none else claimed_at d i)
claimed_at-erase d k i = ground (arith, lookup-erase i k d)

module _ (nodes : Dict WorldNode) (pending : Dict PendingWorld)
    (sep : IsSeparated nodes pending) where
  -- A reservation that owns nothing may be put in any place.
  reserve-IsSeparated :
      (k : ℕ) (p : PendingWorld) → p.environment ≡ none → IsSeparated nodes (insert k p pending)
  reserve-IsSeparated k p u = record {
    live_apart = sep.live_apart;
    claimed_apart_live = λ i j e f h.
        ground (arith, claimed_at-insert pending k i p, sep.claimed_apart_live i j e f);
    claimed_apart = λ i j e f ne hi hj. ground (
      arith,
      claimed_at-insert pending k i p,
      claimed_at-insert pending k j p,
      sep.claimed_apart i j e f,
    );
  }

  pub erase-IsSeparated : (k : ℕ) → IsSeparated nodes (erase k pending)
  erase-IsSeparated k = record {
    live_apart = sep.live_apart;
    claimed_apart_live =
        λ i j e f h. ground (arith, claimed_at-erase pending k i, sep.claimed_apart_live i j e f);
    claimed_apart = λ i j e f ne hi hj. ground (
      arith,
      claimed_at-erase pending k i,
      claimed_at-erase pending k j,
      sep.claimed_apart i j e f,
    );
  }

  -- An environment that passed both loops may be claimed.
  claim-IsSeparated :
      (k : ℕ) (p : PendingWorld) (e : EnvironmentHandle)
      → p.environment ≡ some e
      → check_nodes (identity_disjoint e) none nodes ≡ ok tt
      → check_pending (identity_disjoint e) (some k) pending ≡ ok tt
      → IsSeparated nodes (insert k p pending)
  claim-IsSeparated k p e own hn hp = record {
    live_apart = sep.live_apart;
    claimed_apart_live = λ i j f g h l. ground (
      arith,
      claimed_at-insert pending k i p,
      sep.claimed_apart_live i j f g,
      check_nodes_at (identity_disjoint e) none nodes j g hn (ground arith) l,
      identity_disjoint-IdentityApart e g,
    );
    claimed_apart = λ i j f g ne hi hj. ground (
      arith,
      claimed_at-insert pending k i p,
      claimed_at-insert pending k j p,
      sep.claimed_apart i j f g,
      check_pending_at (identity_disjoint e) (some k) pending j g hp,
      identity_disjoint-IdentityApart e g,
      check_pending_at (identity_disjoint e) (some k) pending i f hp,
      identity_disjoint-IdentityApart e f,
    );
  }

pub reserve_world-IsSeparated :
    (is_valid_id : ℕ → Bool) (k authority : ℕ) (s : Store)
    → StoreSeparated s
    → StoreSeparated (reserve_world is_valid_id k authority s).1
unfolding reserve_world
reserve_world-IsSeparated is_valid_id k authority s sep = ground (
  arith,
  reserve-IsSeparated s.nodes s.pending_worlds sep k
      (record { reservation = record { world_id = k; serial = s.next_serial }; environment = none })
      refl,
)

pub release_world-IsSeparated :
    (r : Reservation) (authority : ℕ) (s : Store)
    → StoreSeparated s
    → StoreSeparated (release_world r authority s).1
unfolding release_world
release_world-IsSeparated r authority s sep =
    ground (arith, erase-IsSeparated s.nodes s.pending_worlds sep r.world_id)

pub validate_reserved_namespace_same :
    (r : Reservation) (authority : ℕ) (s : Store)
    → (validate_reserved_namespace r authority s).1 ≡ s
unfolding validate_reserved_namespace
validate_reserved_namespace_same r authority s = ground arith

pub claim_environment-IsSeparated :
    (r : Reservation) (e : EnvironmentHandle) (authority : ℕ) (s : Store)
    → StoreSeparated s
    → StoreSeparated (claim_environment r e authority s).1
unfolding claim_environment
claim_environment-IsSeparated r e authority s sep = elim (Result-cases (pending_for r s)) [
  | inl (x, h) ↦ ground arith
  | inr (p, h) ↦ ground (
    arith,
    claim-IsSeparated s.nodes s.pending_worlds sep r.world_id (record p { environment = some e }) e
        refl,
  )
]
