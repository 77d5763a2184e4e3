-- ===== src/Worlds/Separation/Holders.antt =====
-- The environments that worlds and reservations hold, what the checks of the store establish about
-- them, and the invariant that they are apart.
use stateweaver.Common.{
  ℕ, ◌≡◌, ◌≢◌, refl, sym, ap, ◌∙◌, Bool, false, Option, none, some, List, [], ◌∷◌, ok, arith, In,
  any, contains, contains_iff, if◌then◌else◌,
}
use stateweaver.Common.Dict.{Dict, lookup}
use stateweaver.Worlds.Models.{EnvironmentHandle, WorldNode, namespace_values}
use stateweaver.Worlds.Store.{
  PendingWorld, Check, check_nodes, check_pending, identity_disjoint, namespace_disjoint,
  environment_disjoint, rebuild, FingerprintIndex,
}
use stateweaver.Worlds.Indexing.{core_of, core_at-rebuild}

-- A destroyed world holds nothing.
abbrev pub live : WorldNode → Option EnvironmentHandle
live n = if n.destroyed then none else n.environment

abbrev pub live_of : Option WorldNode → Option EnvironmentHandle
live_of none = none
live_of (some n) = live n

abbrev pub live_at : Dict WorldNode → ℕ → Option EnvironmentHandle
live_at d i = live_of (lookup i d)

abbrev pub claimed_of : Option PendingWorld → Option EnvironmentHandle
claimed_of none = none
claimed_of (some p) = p.environment

abbrev pub claimed_at : Dict PendingWorld → ℕ → Option EnvironmentHandle
claimed_at d i = claimed_of (lookup i d)

-- Neither the identifier nor the opaque reference is shared.
pub record IdentityApart (e f : EnvironmentHandle) : Type 0 where
  pub ids_differ : e.environment_id ≢ f.environment_id
  pub refs_differ : e.opaque_ref ≢ f.opaque_ref

-- No network, database, cache, queue, session or storage is shared either.
pub record Apart (e f : EnvironmentHandle) : Type 0 where
  pub identity : IdentityApart e f
  pub namespaces :
      (x : ℕ) → In x (namespace_values e.namespace) → ¬ (In x (namespace_values f.namespace))

pub IdentityApart-symm : {e f : EnvironmentHandle} → IdentityApart e f → IdentityApart f e
IdentityApart-symm h = record {
  ids_differ = λ p. h.ids_differ (sym p);
  refs_differ = λ p. h.refs_differ (sym p);
}

pub Apart-symm : {e f : EnvironmentHandle} → Apart e f → Apart f e
Apart-symm h = record {
  identity = IdentityApart-symm h.identity;
  namespaces = λ x p q. h.namespaces x q p;
}

pub identity_disjoint-IdentityApart :
    (e f : EnvironmentHandle) → identity_disjoint e f ≡ ok tt → IdentityApart e f
unfolding identity_disjoint
identity_disjoint-IdentityApart e f h = ground arith

any-false : (p : ℕ → Bool) (x : ℕ) (xs : List ℕ) → any p xs ≡ false → In x xs → p x ≡ false
any-false p x [] h i = absurd i
any-false p x (y ∷ ys) h i = ground (arith, any-false p x ys)

environment_disjoint_inv :
    (e f : EnvironmentHandle)
    → environment_disjoint e f ≡ ok tt
    → (identity_disjoint e f ≡ ok tt)
      × (any (contains (namespace_values f.namespace)) (namespace_values e.namespace) ≡ false)
unfolding environment_disjoint namespace_disjoint
environment_disjoint_inv e f h = ground arith

pub environment_disjoint-Apart :
    (e f : EnvironmentHandle) → environment_disjoint e f ≡ ok tt → Apart e f
environment_disjoint-Apart e f h =
    let (same_identity, none_shared) = environment_disjoint_inv e f h in
    record {
      identity = identity_disjoint-IdentityApart e f same_identity;
      namespaces = λ x p q. cc (
        any-false (contains (namespace_values f.namespace)) x _ none_shared p,
        (contains_iff (namespace_values f.namespace) x).1 q,
      );
    }

-- The loops pass over a holder only if it is the excluded one.
pub check_nodes_at :
    (check : Check) (excluding : Option ℕ) (d : Dict WorldNode) (i : ℕ) (e : EnvironmentHandle)
    → check_nodes check excluding d ≡ ok tt
    → excluding ≢ some i
    → live_at d i ≡ some e
    → check e ≡ ok tt
unfolding check_nodes lookup
check_nodes_at check excluding [] i e h x l = ground arith
check_nodes_at check excluding ((j, n) ∷ d) i e h x l =
    ground (arith, check_nodes_at check excluding d i e)

pub check_pending_at :
    (check : Check) (excluding : Option ℕ) (d : Dict PendingWorld) (i : ℕ) (e : EnvironmentHandle)
    → check_pending check excluding d ≡ ok tt
    → excluding ≢ some i
    → claimed_at d i ≡ some e
    → check e ≡ ok tt
unfolding check_pending lookup
check_pending_at check excluding [] i e h x l = ground arith
check_pending_at check excluding ((j, n) ∷ d) i e h x l =
    ground (arith, check_pending_at check excluding d i e)

live_of-core_of : (o : Option WorldNode) → live_of (core_of o) ≡ live_of o
live_of-core_of none = refl
live_of-core_of (some n) = refl

pub live_at-rebuild :
    (d d' : Dict WorldNode) (index index' : FingerprintIndex) (i : ℕ)
    → rebuild d index ≡ ok (d', index')
    → live_at d' i ≡ live_at d i
live_at-rebuild d d' index index' i h =
    sym (live_of-core_of (lookup i d'))
    ∙ ap live_of (core_at-rebuild d d' index index' i h)
    ∙ live_of-core_of (lookup i d)

-- The invariant: live worlds are apart in every respect; reservations that own an environment are
-- apart in identity from one another and from live worlds.
pub record IsSeparated (nodes : Dict WorldNode) (pending : Dict PendingWorld) : Type 0 where
  pub live_apart :
      (i j : ℕ) (e f : EnvironmentHandle)
      → i ≢ j
      → live_at nodes i ≡ some e
      → live_at nodes j ≡ some f
      → Apart e f
  pub claimed_apart_live :
      (i j : ℕ) (e f : EnvironmentHandle)
      → claimed_at pending i ≡ some e
      → live_at nodes j ≡ some f
      → IdentityApart e f
  pub claimed_apart :
      (i j : ℕ) (e f : EnvironmentHandle)
      → i ≢ j
      → claimed_at pending i ≡ some e
      → claimed_at pending j ≡ some f
      → IdentityApart e f
