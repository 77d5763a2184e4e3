-- ===== src/Worlds/Separation/Published.antt =====
-- Publishing and replacing worlds keep the holders apart.
use stateweaver.Common.{
  ℕ, ◌≡◌, ◌≢◌, sym, ap, ◌∙◌, Option, some, [], ok, arith, inl, inr, ◌==◌, if◌then◌else◌, Bool-cases,
}
use stateweaver.Common.Dict.{Dict, insert, erase, lookup-insert}
use stateweaver.Worlds.Models.{EnvironmentHandle, WorldNode}
use stateweaver.Worlds.Store.{
  Store, PendingWorld, Reservation, check_nodes, check_pending, environment_disjoint,
  environment_unassigned, unique_live_environment, admits, add, replace, succeeds, expected_or,
}
use stateweaver.Worlds.Indexing.{IsCatalog}
use stateweaver.Worlds.Atomic.{Added, Replaced, add_atomic, replace_atomic, bumped}
use stateweaver.Worlds.Separation.Holders.{
  live, live_of, live_at, claimed_at, Apart, Apart-symm, IdentityApart, IdentityApart-symm,
  IsSeparated, check_nodes_at, check_pending_at, environment_disjoint-Apart, live_at-rebuild,
}
use stateweaver.Worlds.Separation.Claims.{StoreSeparated, erase-IsSeparated, claimed_at-erase}

live_at-insert :
    (d : Dict WorldNode) (k i : ℕ) (n : WorldNode)
    → live_at (insert k n d) i ≡ (if k == i then live n else live_at d i)
live_at-insert d k i n = ground (arith, lookup-insert i k n d)

-- The invariant looks at the worlds only through the environments that they hold.
live-IsSeparated :
    (d d' : Dict WorldNode) (p : Dict PendingWorld)
    → ((i : ℕ) → live_at d' i ≡ live_at d i)
    → IsSeparated d p
    → IsSeparated d' p
live-IsSeparated d d' p same_live sep = record {
  live_apart = λ i j e f ne hi hj.
      sep.live_apart i j e f ne (sym (same_live i) ∙ hi) (sym (same_live j) ∙ hj);
  claimed_apart_live = λ i j e f h l. sep.claimed_apart_live i j e f h (sym (same_live j) ∙ l);
  claimed_apart = sep.claimed_apart;
}

unique_live_inv :
    (n : WorldNode) (k : ℕ) (s : Store) (e : EnvironmentHandle)
    → unique_live_environment n (some k) s ≡ ok tt
    → live n ≡ some e
    → (check_nodes (environment_disjoint e) (some k) s.nodes ≡ ok tt)
      × (check_pending (environment_disjoint e) (some k) s.pending_worlds ≡ ok tt)
unfolding unique_live_environment environment_unassigned
unique_live_inv n k s e h l = ground arith

module _ (s : Store) (sep : StoreSeparated s) (n : WorldNode) (k : ℕ)
    (unique_live : unique_live_environment n (some k) s ≡ ok tt) where
  new-Apart :
      (j : ℕ) (e f : EnvironmentHandle)
      → k ≢ j
      → live n ≡ some e
      → live_at s.nodes j ≡ some f
      → Apart e f
  new-Apart j e f ne l h = environment_disjoint-Apart e f (
      check_nodes_at (environment_disjoint e) (some k) s.nodes j f
        (unique_live_inv n k s e unique_live l).0 (ground arith) h)

  new_claimed-Apart :
      (j : ℕ) (e f : EnvironmentHandle)
      → k ≢ j
      → live n ≡ some e
      → claimed_at s.pending_worlds j ≡ some f
      → Apart e f
  new_claimed-Apart j e f ne l h = environment_disjoint-Apart e f (
      check_pending_at (environment_disjoint e) (some k) s.pending_worlds j f
        (unique_live_inv n k s e unique_live l).1 (ground arith) h)

  publish_live :
      (i j : ℕ) (e f : EnvironmentHandle)
      → i ≢ j
      → live_at (insert k n s.nodes) i ≡ some e
      → live_at (insert k n s.nodes) j ≡ some f
      → Apart e f
  publish_live i j e f ne hi hj = elim (Bool-cases (k == i)) [
    | inl p ↦
        new-Apart j e f (ground arith) (ground (arith, live_at-insert s.nodes k i n))
          (ground (arith, live_at-insert s.nodes k j n))
    | inr p ↦ elim (Bool-cases (k == j)) [
      | inl q ↦ Apart-symm (
          new-Apart i f e (ground arith) (ground (arith, live_at-insert s.nodes k j n))
            (ground (arith, live_at-insert s.nodes k i n)))
      | inr q ↦
          sep.live_apart i j e f ne (ground (arith, live_at-insert s.nodes k i n))
            (ground (arith, live_at-insert s.nodes k j n))
    ]
  ]

  publish_claimed :
      (i j : ℕ) (e f : EnvironmentHandle)
      → claimed_at (erase k s.pending_worlds) i ≡ some e
      → live_at (insert k n s.nodes) j ≡ some f
      → IdentityApart e f
  publish_claimed i j e f hi hj = elim (Bool-cases (k == i)) [
    | inl p ↦ absurd (ground (arith, claimed_at-erase s.pending_worlds k i))
    | inr p ↦ elim (Bool-cases (k == j)) [
      | inl q ↦
          IdentityApart-symm
            (new_claimed-Apart i f e (ground arith) (ground (arith, live_at-insert s.nodes k j n))
              (ground (arith, claimed_at-erase s.pending_worlds k i))).identity
      | inr q ↦
          sep.claimed_apart_live i j e f (ground (arith, claimed_at-erase s.pending_worlds k i))
            (ground (arith, live_at-insert s.nodes k j n))
    ]
  ]

  publish-IsSeparated : IsSeparated (insert k n s.nodes) (erase k s.pending_worlds)
  publish-IsSeparated = record {
    live_apart = publish_live;
    claimed_apart_live = publish_claimed;
    claimed_apart = (erase-IsSeparated s.nodes s.pending_worlds sep k).claimed_apart;
  }

admits_inv :
    (n : WorldNode) (r : Reservation) (s : Store)
    → admits n r s ≡ ok tt
    → (r.world_id ≡ n.world_id) × (unique_live_environment n (some n.world_id) s ≡ ok tt)
unfolding admits
admits_inv n r s h = ground arith

Added-IsSeparated :
    (n : WorldNode) (r : Reservation) (s : Store) (m : WorldNode) (s' : Store)
    → StoreSeparated s
    → Added n r s m s'
    → StoreSeparated s'
Added-IsSeparated n r s m s' sep a =
    let (same_id, u) = admits_inv n r s a.admitted in
    rw a.consumed (
      rw same_id (
        live-IsSeparated (insert n.world_id n s.nodes) s'.nodes (erase n.world_id s.pending_worlds)
          (λ i.
            live_at-rebuild (insert n.world_id n s.nodes) s'.nodes [] s'.fingerprints i a.rewritten)
          (publish-IsSeparated s sep n n.world_id u)))

-- `_add` keeps the invariant, whether it publishes the world or raises.
pub add-IsSeparated :
    (n : WorldNode) (r : Reservation) (authority : ℕ) (s : Store)
    → IsCatalog s.nodes
    → StoreSeparated s
    → StoreSeparated (add n r authority s).1
add-IsSeparated n r authority s c sep = elim (add_atomic n r authority s c) [
  | inl (e, p) ↦ rw p sep
  | inr (m, s', p, a) ↦ rw p (Added-IsSeparated n r s m s' sep a)
]

-- A world that is replaced holds what it held before, or nothing.
succeeds-live :
    (old n : WorldNode) (expected : ℕ) (e : EnvironmentHandle)
    → succeeds old n expected ≡ ok tt
    → live n ≡ some e
    → live old ≡ some e
unfolding succeeds
succeeds-live old n expected e h l = ground arith

update-IsSeparated :
    (d : Dict WorldNode) (p : Dict PendingWorld) (k : ℕ) (n : WorldNode)
    → ((e : EnvironmentHandle) → live n ≡ some e → live_at d k ≡ some e)
    → IsSeparated d p
    → IsSeparated (insert k n d) p
update-IsSeparated d p k n keeps sep = record {
  live_apart = λ i j e f ne hi hj. sep.live_apart i j e f ne (held i e hi) (held j f hj);
  claimed_apart_live = λ i j e f h l. sep.claimed_apart_live i j e f h (held j f l);
  claimed_apart = sep.claimed_apart;
}
  where
    held :
        (i : ℕ) (e : EnvironmentHandle) → live_at (insert k n d) i ≡ some e → live_at d i ≡ some e
    held i e h = elim (Bool-cases (k == i)) [
      | inl q ↦
          let p : k ≡ i = ground arith in
          rw (← p) (keeps e (ground (arith, live_at-insert d k i n)))
      | inr q ↦ ground (arith, live_at-insert d k i n)
    ]

Replaced-IsSeparated :
    (n : WorldNode) (expected : Option ℕ) (s : Store) (m : WorldNode) (s' : Store)
    → StoreSeparated s
    → Replaced n expected s m s'
    → StoreSeparated s'
Replaced-IsSeparated n expected s m s' sep a = rw a.pending_kept (
    live-IsSeparated (insert n.world_id (bumped n expected) s.nodes) s'.nodes s.pending_worlds
      (λ i.
        live_at-rebuild (insert n.world_id (bumped n expected) s.nodes) s'.nodes [] s'.fingerprints
          i a.rewritten)
      (update-IsSeparated s.nodes s.pending_worlds n.world_id (bumped n expected)
        (λ e l. ap live_of a.found ∙ succeeds-live a.old n (expected_or expected n) e a.succeeded l)
        sep))

-- `_replace` keeps the invariant, whether it writes the world or raises.
pub replace-IsSeparated :
    (n : WorldNode) (expected : Option ℕ) (authority : ℕ) (s : Store)
    → IsCatalog s.nodes
    → StoreSeparated s
    → StoreSeparated (replace n expected authority s).1
replace-IsSeparated n expected authority s c sep = elim (replace_atomic n expected authority s c) [
  | inl (e, p) ↦ rw p sep
  | inr (m, s', p, a) ↦ rw p (Replaced-IsSeparated n expected s m s' sep a)
]
