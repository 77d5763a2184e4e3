-- ===== src/Worlds/Indexing.antt =====
-- `_rebuild_indexes`: it touches only `deduplicated_to`, and over coherent worlds it cannot raise.
use stateweaver.Common.{
  ℕ, ◌≡◌, ◌≢◌, refl, ap, Option, none, some, [], ◌∷◌, ok, arith, inl, inr, ◌==◌, if◌then◌else◌,
  Bool-cases, Result-cases, ◌∙◌, same,
}
use stateweaver.Common.Dict.{Dict, lookup, insert, lookup-insert}
use stateweaver.Worlds.Models.{WorldNode, SnapshotManifest, validate_node}
use stateweaver.Worlds.Models.Coherent.{
  Pinned, validate_node_same, IsCoherent, validate_node-IsCoherent, IsCoherent-validate_node,
}
use stateweaver.Worlds.Store.{
  rebuild, canonical, canonical_of, set_default, fingerprint_key, indexed, FingerprintIndex,
  FingerprintKey, FingerprintKey-discrete,
}

-- A world but for the index entry that `_rebuild_indexes` derives.
abbrev pub core : WorldNode → WorldNode
core n = record n { deduplicated_to = none }

abbrev pub core_of : Option WorldNode → Option WorldNode
core_of none = none
core_of (some n) = some (core n)

abbrev pub core_at : Dict WorldNode → ℕ → Option WorldNode
core_at d i = core_of (lookup i d)

abbrev reindexed : WorldNode → FingerprintIndex → WorldNode
reindexed n index = record n { deduplicated_to = canonical n index }

-- What a round of the loop and the rest of it return together.
pub rebuild_round :
    (i : ℕ) (n : WorldNode) (rest d' : Dict WorldNode) (index index' : FingerprintIndex)
    → rebuild ((i, n) ∷ rest) index ≡ ok (d', index')
    → (rest' : Dict WorldNode) × (rebuild rest (indexed i n index) ≡ ok (rest', index'))
      × (d' ≡ (i, reindexed n index) ∷ rest')
      × (validate_node (reindexed n index) ≡ ok (reindexed n index))
unfolding rebuild
rebuild_round i n rest d' index index' h = elim (Result-cases (rebuild rest (indexed i n index))) [
  | inl (e, p) ↦ elim (Result-cases (validate_node (reindexed n index))) [
    | inl (x, q) ↦ absurd (ground arith)
    | inr (m, q) ↦ absurd (ground arith)
  ]
  | inr ((rest', ix), p) ↦ elim (Result-cases (validate_node (reindexed n index))) [
    | inl (x, q) ↦ absurd (ground arith)
    | inr (m, q) ↦ (
      rest',
      ground arith,
      ground (arith, validate_node_same (reindexed n index) m q),
      ground (arith, validate_node_same (reindexed n index) m q),
    )
  ]
]

-- Rebuilding changes nothing of a world but `deduplicated_to`, and neither adds nor drops a world.
pub core_at-rebuild :
    (d d' : Dict WorldNode) (index index' : FingerprintIndex) (i : ℕ)
    → rebuild d index ≡ ok (d', index')
    → core_at d' i ≡ core_at d i
unfolding lookup
core_at-rebuild [] d' index index' i h = unfold rebuild in ground arith
core_at-rebuild ((j, n) ∷ rest) d' index index' i h =
    let (rest', p, q, v) = rebuild_round j n rest d' index index' h in
    rw q (ground (arith, core_at-rebuild rest rest' (indexed j n index) index' i p))

-- The worlds of a store: each stands under its own identifier, once, and is coherent.
abbrev pub IsCatalog : Dict WorldNode → Type 0
IsCatalog [] = Unit
IsCatalog ((i, n) ∷ d) = (n.world_id ≡ i) × IsCoherent n × (lookup i d ≡ none) × IsCatalog d

pub lookup-IsCatalog :
    (d : Dict WorldNode) (i : ℕ) (n : WorldNode)
    → IsCatalog d
    → lookup i d ≡ some n
    → (n.world_id ≡ i) × IsCoherent n
unfolding lookup
lookup-IsCatalog [] i n c h = absurd (ground arith)
lookup-IsCatalog ((j, m) ∷ d) i n c h = elim (Bool-cases (j == i)) [
  | inl e ↦ let p : m ≡ n = ground arith in rw (← p) (ground arith, c.1)
  | inr e ↦ lookup-IsCatalog d i n c.3 (ground arith)
]

pub insert-IsCatalog :
    (d : Dict WorldNode) (n : WorldNode)
    → IsCatalog d
    → IsCoherent n
    → IsCatalog (insert n.world_id n d)
unfolding insert
insert-IsCatalog [] n c h = (refl, h, (unfold lookup in refl), tt)
insert-IsCatalog ((j, m) ∷ d) n c h = elim (Bool-cases (j == n.world_id)) [
  | inl e ↦ rw e (refl, h, (ground arith), c.3)
  | inr e ↦
      rw e (c.0, c.1, ground (arith, lookup-insert j n.world_id n d), insert-IsCatalog d n c.3 h)
]

core_of-eq-none : (o : Option WorldNode) → core_of o ≡ none → o ≡ none
core_of-eq-none none h = refl
core_of-eq-none (some n) h = ground arith

pub rebuild-IsCatalog :
    (d d' : Dict WorldNode) (index index' : FingerprintIndex)
    → IsCatalog d
    → rebuild d index ≡ ok (d', index')
    → IsCatalog d'
rebuild-IsCatalog [] d' index index' c h =
    let e : d' ≡ [] = unfold rebuild in ground arith in rw e tt
rebuild-IsCatalog ((j, n) ∷ rest) d' index index' c h =
    let (rest', p, q, v) = rebuild_round j n rest d' index index' h in
    rw q (
      c.0,
      validate_node-IsCoherent (reindexed n index) (reindexed n index) v,
      core_of-eq-none (lookup j rest')
          (core_at-rebuild rest rest' (indexed j n index) index' j p ∙ ap core_of c.2),
      rebuild-IsCatalog rest rest' (indexed j n index) index' c.3 p,
    )

-- `setdefault` keeps the first world of a key.
pub canonical_of-set_default :
    (key k : FingerprintKey) (i : ℕ) (index : FingerprintIndex)
    → canonical_of key (set_default k i index) ≡ elim (canonical_of key index) [
      | some j ↦ some j
      | none ↦ if same FingerprintKey-discrete k key then some i else none
    ]
unfolding canonical_of set_default
canonical_of-set_default key k i [] = ground arith
canonical_of-set_default key k i ((k', j) ∷ index) =
    ground (arith, canonical_of-set_default key k i index)

-- No entry of the index names one of the worlds.
abbrev pub Foreign : Dict WorldNode → FingerprintIndex → Type 0
Foreign d index =
    (key : FingerprintKey) (j : ℕ) → canonical_of key index ≡ some j → lookup j d ≡ none

indexed-Foreign :
    (i : ℕ) (n : WorldNode) (d : Dict WorldNode) (index : FingerprintIndex)
    → lookup i d ≡ none
    → Foreign ((i, n) ∷ d) index
    → Foreign d (indexed i n index)
unfolding lookup
indexed-Foreign i n d index u f key j h =
    ground (arith, f key j, canonical_of-set_default key (fingerprint_key n) i index)

Pinned-reindexed :
    (n : WorldNode) (c : Option ℕ) (o : Option SnapshotManifest)
    → Pinned n o
    → Pinned (record n { deduplicated_to = c }) o
Pinned-reindexed n c none h = tt
Pinned-reindexed n c (some s) h = ground arith

reindexed-IsCoherent :
    (n : WorldNode) (index : FingerprintIndex)
    → IsCoherent n
    → canonical n index ≢ some n.world_id
    → IsCoherent (reindexed n index)
reindexed-IsCoherent n index h f = record {
  lineage_unique = h.lineage_unique;
  destroyed_detached = h.destroyed_detached;
  parent_other = h.parent_other;
  duplicate_other = f;
  active_live = h.active_live;
  attached = h.attached;
  sourced = h.sourced;
  pinned = Pinned-reindexed n (canonical n index) n.snapshot h.pinned;
}

canonical_ne :
    (n : WorldNode) (i : ℕ) (d : Dict WorldNode) (index : FingerprintIndex)
    → Foreign ((i, n) ∷ d) index
    → canonical n index ≢ some i
unfolding lookup
canonical_ne n i d index f h = ground (arith, f (fingerprint_key n) i)

-- Over the worlds of a store the loop returns: no validator can refuse what it rebuilds.
pub rebuild_total :
    (d : Dict WorldNode) (index : FingerprintIndex)
    → IsCatalog d
    → Foreign d index
    → (r : Dict WorldNode × FingerprintIndex) × (rebuild d index ≡ ok r)
unfolding rebuild
rebuild_total [] index c f = (([], index), refl)
rebuild_total ((i, n) ∷ d) index c f =
    let (r, p) = rebuild_total d (indexed i n index) c.3 (indexed-Foreign i n d index c.2 f) in
    let v : validate_node (reindexed n index) ≡ ok (reindexed n index) =
      IsCoherent-validate_node (reindexed n index)
        (reindexed-IsCoherent n index c.1 (rw c.0 (canonical_ne n i d index f))) in
    (((i, reindexed n index) ∷ r.0, r.1), rw v (rw p refl))
