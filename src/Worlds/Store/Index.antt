-- ===== src/Worlds/Store/Index.antt =====
-- Fingerprint keys, `_rebuild_indexes` and `canonical_world_id`.
use stateweaver.Common.{
  ℕ, not, ◌&&◌, Option, none, some, List, [], ◌∷◌, map, Result, ok, err, ◌>>=◌, ◌==◌, same, all,
  if◌then◌else◌,
}
use stateweaver.Common.Dict.{Dict, lookup}
use stateweaver.Worlds.Models.{WorldNode, validate_node}
use stateweaver.Worlds.Failure.{Failure, key_error}
use stateweaver.Worlds.Store.State.{FingerprintKey, FingerprintKey-discrete, Store, validated}

-- `_fingerprint_key`.
abbrev pub fingerprint_key : WorldNode → FingerprintKey
fingerprint_key n = record {
  root_snapshot_id = n.root_snapshot_id;
  target_id = n.target.target_id;
  target_version = n.target.target_version;
  adapter = n.adapter.adapter;
  version = n.adapter.version;
  state_fingerprint = n.state_fingerprint;
}

abbrev pub FingerprintIndex : Type 0
FingerprintIndex = List (FingerprintKey × ℕ)

-- `fingerprints.get(key)`.
unfoldable pub canonical_of : FingerprintKey → FingerprintIndex → Option ℕ
canonical_of key [] = none
canonical_of key ((k, i) ∷ rest) =
    if same FingerprintKey-discrete k key then some i else canonical_of key rest

-- `fingerprints.setdefault(key, world_id)`.
unfoldable pub set_default : FingerprintKey → ℕ → FingerprintIndex → FingerprintIndex
set_default key i [] = (key, i) ∷ []
set_default key i ((k, j) ∷ rest) =
    if same FingerprintKey-discrete k key then (k, j) ∷ rest else (k, j) ∷ set_default key i rest

abbrev pub canonical : WorldNode → FingerprintIndex → Option ℕ
canonical n index = if n.destroyed then none else canonical_of (fingerprint_key n) index

abbrev pub indexed : ℕ → WorldNode → FingerprintIndex → FingerprintIndex
indexed i n index = if n.destroyed then index else set_default (fingerprint_key n) i index

-- The loop of `_rebuild_indexes` from the index built so far: the worlds rebuilt, and the index.
unfoldable pub rebuild :
    Dict WorldNode → FingerprintIndex → Result Failure (Dict WorldNode × FingerprintIndex)
rebuild [] index = ok ([], index)
rebuild ((i, n) ∷ rest) index = do
  n' ← validated (validate_node (record n { deduplicated_to = canonical n index }))
  (rest', index') ← rebuild rest (indexed i n index)
  ok ((i, n') ∷ rest', index')

-- `{world_id for key, world_id in ... if key[-1] == fingerprint}`, before duplicates are dropped.
unfoldable pub candidates : ℕ → FingerprintIndex → List ℕ
candidates fingerprint [] = []
candidates fingerprint ((k, i) ∷ rest) =
    let found = candidates fingerprint rest in
    if k.state_fingerprint == fingerprint then i ∷ found else found

-- The one element of the set that a list enumerates.
abbrev pub the_only : List ℕ → Option ℕ
the_only [] = none
the_only (i ∷ rest) = if all (λ j. j == i) rest then some i else none

-- `canonical_world_id`.
unfoldable pub canonical_world_id : ℕ → Store → Result Failure (Option ℕ)
canonical_world_id fingerprint s = elim (the_only (candidates fingerprint s.fingerprints)) [
  | none ↦ ok none
  | some i ↦ elim (lookup i s.nodes) [
    | none ↦ err key_error
    | some n ↦ ok (if not n.destroyed && n.state_fingerprint == fingerprint then some i else none)
  ]
]

-- `all`.
unfoldable pub all_worlds : Store → List WorldNode
all_worlds s = map (λ entry. entry.1) s.nodes
