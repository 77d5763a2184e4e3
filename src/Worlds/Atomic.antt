-- ===== src/Worlds/Atomic.antt =====
-- `_add` and `_replace`: either they raise and leave the store as it was, or every check has
-- passed and the one world is written, the index rebuilt and the reservation consumed.
use stateweaver.Common.{
  ℕ, suc, ◌≡◌, ◌≢◌, refl, ◌∙◌, true, false, Option, none, some, [], ok, err, arith, inl, inr, ◌⊎◌,
  ◌==◌, Result-cases, Option-cases, Bool-cases,
}
use stateweaver.Common.Dict.{Dict, lookup, insert, erase, lookup-insert}
use stateweaver.Worlds.Models.{WorldNode, validate_node}
use stateweaver.Worlds.Models.Coherent.{IsCoherent, validate_node_same, validate_node-IsCoherent}
use stateweaver.Worlds.Failure.{Failure, lifecycle, wrong_authority, unknown_world, invalid}
use stateweaver.Worlds.Store.{
  Store, Reservation, FingerprintIndex, rebuild, rebuild_indexes, node_at, canonical_of,
  FingerprintKey, admits, add, replace, succeeds, validate_parent, get, expected_or,
}
use stateweaver.Worlds.Indexing.{
  IsCatalog, core_of, insert-IsCatalog, rebuild_total, core_at-rebuild,
}

-- The nodes and the index that rebuilding gives once `n` is written.
abbrev pub Rewritten : WorldNode → Store → Dict WorldNode × FingerprintIndex → Type 0
Rewritten n s r = rebuild (insert n.world_id n s.nodes) [] ≡ ok r

-- Over a catalog, writing a coherent world and rebuilding cannot raise.
rewrite_total :
    (n : WorldNode) (s : Store)
    → IsCatalog s.nodes
    → IsCoherent n
    → (r : Dict WorldNode × FingerprintIndex) × Rewritten n s r
rewrite_total n s c h =
    rebuild_total (insert n.world_id n s.nodes) [] (insert-IsCatalog s.nodes n c h)
      (λ key j e. absurd (empty_index key j e))
  where
    empty_index : (key : FingerprintKey) (j : ℕ) → canonical_of key [] ≢ some j
    empty_index key j e = unfold canonical_of in cc

core_of-some :
    (o : Option WorldNode) (n : WorldNode) → core_of o ≡ some n → (m : WorldNode) × (o ≡ some m)
core_of-some none n h = absurd (ground arith)
core_of-some (some m) n h = (m, refl)

-- The world that was written is there afterwards.
Rewritten-there :
    (n : WorldNode) (s : Store) (r : Dict WorldNode × FingerprintIndex)
    → Rewritten n s r
    → (m : WorldNode) × (lookup n.world_id r.0 ≡ some m)
Rewritten-there n s (d, ix) h =
    core_of-some (lookup n.world_id d) (record n { deduplicated_to = none })
      (core_at-rebuild (insert n.world_id n s.nodes) d [] ix n.world_id h
        ∙ ground (arith, lookup-insert n.world_id n.world_id n s.nodes))

-- What a successful `_add` has checked, written and returned.
pub record Added (node : WorldNode) (r : Reservation) (s : Store) (m : WorldNode) (s' : Store)
    : Type 0 where
  pub valid : validate_node node ≡ ok node
  pub admitted : admits node r s ≡ ok tt
  pub rewritten : Rewritten node s (s'.nodes, s'.fingerprints)
  pub consumed : s'.pending_worlds ≡ erase r.world_id s.pending_worlds
  pub returned : lookup node.world_id s'.nodes ≡ some m

abbrev pub AddOutcome : WorldNode → Reservation → ℕ → Store → Type 0
AddOutcome node r authority s =
    ((e : Failure) × (add node r authority s ≡ (err e, s)))
    ⊎ ((m : WorldNode) × (s' : Store) × (add node r authority s ≡ (ok m, s')) × Added node r s m s')

-- Over a catalog `_add` is atomic: it raises and the store is as before, or it has passed every
-- check, and wrote the world, the rebuilt index and the consumed reservation together.
pub add_atomic :
    (node : WorldNode) (r : Reservation) (authority : ℕ) (s : Store)
    → IsCatalog s.nodes
    → AddOutcome node r authority s
unfolding add rebuild_indexes node_at
add_atomic node r authority s c = elim (Bool-cases (authority == s.writer_authority)) [
  | inr a ↦ inl (lifecycle wrong_authority, ground arith)
  | inl a ↦ elim (Result-cases (validate_node node)) [
    | inl (e, v) ↦ inl (invalid e, ground arith)
    | inr (n, v) ↦ elim (Result-cases (admits node r s)) [
      | inl (e, p) ↦ inl (e, ground (arith, validate_node_same node n v))
      | inr (_, p) ↦
          let ((d, ix), w) = rewrite_total node s c (validate_node-IsCoherent node n v) in
          let (m, l) = Rewritten-there node s (d, ix) w in
          inr (
            m,
            record s {
              nodes = d;
              fingerprints = ix;
              pending_worlds = erase r.world_id s.pending_worlds;
            },
            ground (arith, validate_node_same node n v),
            record {
              valid = ground (arith, validate_node_same node n v);
              admitted = ground arith;
              rewritten = w;
              consumed = refl;
              returned = l;
            },
          )
    ]
  ]
]

-- The world as `_replace` writes it: at the next revision.
abbrev pub bumped : WorldNode → Option ℕ → WorldNode
bumped node expected = record node { revision = suc (expected_or expected node) }

-- What a successful `_replace` has checked, written and returned.
pub record Replaced (node : WorldNode) (expected : Option ℕ) (s : Store) (m : WorldNode)
    (s' : Store) : Type 0 where
  pub old : WorldNode
  pub found : lookup node.world_id s.nodes ≡ some old
  pub succeeded : succeeds old node (expected_or expected node) ≡ ok tt
  pub parented : validate_parent false node s ≡ ok tt
  pub valid : IsCoherent (bumped node expected)
  pub rewritten : Rewritten (bumped node expected) s (s'.nodes, s'.fingerprints)
  pub pending_kept : s'.pending_worlds ≡ s.pending_worlds
  pub returned : lookup node.world_id s'.nodes ≡ some m

abbrev pub ReplaceOutcome : WorldNode → Option ℕ → ℕ → Store → Type 0
ReplaceOutcome node expected authority s =
    ((e : Failure) × (replace node expected authority s ≡ (err e, s)))
    ⊎ ((m : WorldNode) × (s' : Store) × (replace node expected authority s ≡ (ok m, s'))
        × Replaced node expected s m s')

-- Over a catalog `_replace` is atomic in the same way; the reservations stay as they are.
pub replace_atomic :
    (node : WorldNode) (expected : Option ℕ) (authority : ℕ) (s : Store)
    → IsCatalog s.nodes
    → ReplaceOutcome node expected authority s
unfolding replace rebuild_indexes node_at get
replace_atomic node expected authority s c = elim (Bool-cases (authority == s.writer_authority)) [
  | inr a ↦ inl (lifecycle wrong_authority, ground arith)
  | inl a ↦ elim (Result-cases (validate_node node)) [
    | inl (e, v) ↦ inl (invalid e, ground arith)
    | inr (n, v) ↦ checked (rw (validate_node_same node n v) at v) a
  ]
]
  where
    n' : WorldNode
    n' = bumped node expected

    written :
        (old : WorldNode)
        → (authority == s.writer_authority) ≡ true
        → validate_node node ≡ ok node
        → lookup node.world_id s.nodes ≡ some old
        → succeeds old node (expected_or expected node) ≡ ok tt
        → validate_parent false node s ≡ ok tt
        → validate_node n' ≡ ok n'
        → ReplaceOutcome node expected authority s
    written old a v l u p w =
        let ((d, ix), q) = rewrite_total n' s c (validate_node-IsCoherent n' n' w) in
        let (m, t) = Rewritten-there n' s (d, ix) q in
        inr (
          m,
          record s { nodes = d; fingerprints = ix },
          ground arith,
          record {
            old = old;
            found = l;
            succeeded = u;
            parented = p;
            valid = validate_node-IsCoherent n' n' w;
            rewritten = q;
            pending_kept = refl;
            returned = t;
          },
        )

    checked :
        validate_node node ≡ ok node
        → (authority == s.writer_authority) ≡ true
        → ReplaceOutcome node expected authority s
    checked v a = elim (Option-cases (lookup node.world_id s.nodes)) [
      | inl l ↦ inl (lifecycle unknown_world, ground arith)
      | inr (old, l) ↦ elim (Result-cases (succeeds old node (expected_or expected node))) [
        | inl (e, u) ↦ inl (e, ground arith)
        | inr (_, u) ↦ elim (Result-cases (validate_parent false node s)) [
          | inl (e, p) ↦ inl (e, ground arith)
          | inr (_, p) ↦ elim (Result-cases (validate_node n')) [
            | inl (e, w) ↦ inl (invalid e, ground arith)
            | inr (n2, w) ↦ written old a v l u p (rw (validate_node_same n' n2 w) at w)
          ]
        ]
      ]
    ]
