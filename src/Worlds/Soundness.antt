-- ===== src/Worlds/Soundness.antt =====
-- One invariant of the store, kept by every operation that the manager calls.
use stateweaver.Common.{ℕ, ◌≡◌, some, Option, [], Bool, arith, inl, inr}
use stateweaver.Common.Dict.{lookup, insert}
use stateweaver.Worlds.Models.{EnvironmentHandle, WorldNode}
use stateweaver.Worlds.Models.Coherent.{validate_node-IsCoherent}
use stateweaver.Worlds.Store.{
  Store, Reservation, new_store, reserve_world, claim_environment, validate_reserved_namespace,
  release_world, add, replace,
}
use stateweaver.Worlds.Indexing.{IsCatalog, insert-IsCatalog, rebuild-IsCatalog}
use stateweaver.Worlds.Atomic.{add_atomic, replace_atomic, bumped}
use stateweaver.Worlds.Separation.{live_at, claimed_at}
use stateweaver.Worlds.Separation.Claims.{
  StoreSeparated, reserve_world-IsSeparated, claim_environment-IsSeparated,
  release_world-IsSeparated, validate_reserved_namespace_same,
}
use stateweaver.Worlds.Separation.Published.{add-IsSeparated, replace-IsSeparated}

-- The worlds form a catalog, and the holders of environments are apart.
pub record IsSound (s : Store) : Type 0 where
  pub catalog : IsCatalog s.nodes
  pub separated : StoreSeparated s

pub new_store-IsSound : (authority : ℕ) → IsSound (new_store authority)
new_store-IsSound authority = record {
  catalog = tt;
  separated = record {
    live_apart = λ i j e f ne hi hj. absurd (empty_live i e hi);
    claimed_apart_live = λ i j e f hi hj. absurd (empty_live j f hj);
    claimed_apart = λ i j e f ne hi hj. absurd (empty_claimed i e hi);
  };
}
  where
    empty_live : (i : ℕ) (e : EnvironmentHandle) → ¬ (live_at [] i ≡ some e)
    empty_live i e h = unfold lookup in cc

    empty_claimed : (i : ℕ) (e : EnvironmentHandle) → ¬ (claimed_at [] i ≡ some e)
    empty_claimed i e h = unfold lookup in cc

pub reserve_world-IsSound :
    (is_valid_id : ℕ → Bool) (k authority : ℕ) (s : Store)
    → IsSound s
    → IsSound (reserve_world is_valid_id k authority s).1
reserve_world-IsSound is_valid_id k authority s h = record {
  catalog = unfold reserve_world in ground (arith, h.catalog);
  separated = reserve_world-IsSeparated is_valid_id k authority s h.separated;
}

pub release_world-IsSound :
    (r : Reservation) (authority : ℕ) (s : Store)
    → IsSound s
    → IsSound (release_world r authority s).1
release_world-IsSound r authority s h = record {
  catalog = unfold release_world in ground (arith, h.catalog);
  separated = release_world-IsSeparated r authority s h.separated;
}

pub claim_environment-IsSound :
    (r : Reservation) (e : EnvironmentHandle) (authority : ℕ) (s : Store)
    → IsSound s
    → IsSound (claim_environment r e authority s).1
claim_environment-IsSound r e authority s h = record {
  catalog = unfold claim_environment in ground (arith, h.catalog);
  separated = claim_environment-IsSeparated r e authority s h.separated;
}

pub validate_reserved_namespace-IsSound :
    (r : Reservation) (authority : ℕ) (s : Store)
    → IsSound s
    → IsSound (validate_reserved_namespace r authority s).1
validate_reserved_namespace-IsSound r authority s h =
    rw (validate_reserved_namespace_same r authority s) h

-- `_add` keeps the invariant, on every branch.
pub add-IsSound :
    (n : WorldNode) (r : Reservation) (authority : ℕ) (s : Store)
    → IsSound s
    → IsSound (add n r authority s).1
add-IsSound n r authority s h = record {
  catalog = elim (add_atomic n r authority s h.catalog) [
    | inl (e, p) ↦ rw p h.catalog
    | inr (m, s', p, a) ↦ rw p (
        rebuild-IsCatalog (insert n.world_id n s.nodes) s'.nodes [] s'.fingerprints
          (insert-IsCatalog s.nodes n h.catalog (validate_node-IsCoherent n n a.valid)) a.rewritten)
  ];
  separated = add-IsSeparated n r authority s h.catalog h.separated;
}

-- `_replace` keeps the invariant, on every branch.
pub replace-IsSound :
    (n : WorldNode) (expected : Option ℕ) (authority : ℕ) (s : Store)
    → IsSound s
    → IsSound (replace n expected authority s).1
replace-IsSound n expected authority s h = record {
  catalog = elim (replace_atomic n expected authority s h.catalog) [
    | inl (e, p) ↦ rw p h.catalog
    | inr (m, s', p, a) ↦ rw p (
        rebuild-IsCatalog (insert n.world_id (bumped n expected) s.nodes) s'.nodes []
          s'.fingerprints (insert-IsCatalog s.nodes (bumped n expected) h.catalog a.valid)
          a.rewritten)
  ];
  separated = replace-IsSeparated n expected authority s h.catalog h.separated;
}
