-- ===== src/Common/Dict.antt =====
-- Python's `dict` as an association list in insertion order: a write to a known key keeps its
-- place, and a new key goes to the end.
use stateweaver.Common.Tests.{◌==◌, if◌then◌else◌}
use stateweaver.Common.Lists.{In}
use Prim.Native.Nat.{ℕ}
use mathlib.Core.Path.{◌≡◌, refl, ap}
use mathlib.Core.Option.{Option, none, some}
use mathlib.Core.List.{List, [], ◌∷◌, ◌++◌}
use native.Mathlib.Omega.{arith}

abbrev pub Dict {ℓ} : Type ℓ → Type ℓ
Dict V = List (ℕ × V)

module _ {ℓ} {V : Type ℓ} where
  -- d.get(k)
  unfoldable pub lookup : ℕ → Dict V → Option V
  lookup k [] = none
  lookup k ((j, v) ∷ d) = if j == k then some v else lookup k d

  -- d[k] = v
  unfoldable pub insert : ℕ → V → Dict V → Dict V
  insert k v [] = (k, v) ∷ []
  insert k v ((j, w) ∷ d) = if j == k then (k, v) ∷ d else (j, w) ∷ insert k v d

  -- del d[k]
  unfoldable pub erase : ℕ → Dict V → Dict V
  erase k [] = []
  erase k ((j, w) ∷ d) = let rest = erase k d in if j == k then rest else (j, w) ∷ rest

  pub lookup-insert :
      (j k : ℕ) (v : V) (d : Dict V)
      → lookup j (insert k v d) ≡ (if k == j then some v else lookup j d)
  unfolding lookup insert
  lookup-insert j k v [] = refl
  lookup-insert j k v ((i, w) ∷ d) = ground (arith, lookup-insert j k v d)

  pub lookup-erase :
      (j k : ℕ) (d : Dict V) → lookup j (erase k d) ≡ (if k == j then none else lookup j d)
  unfolding lookup erase
  lookup-erase j k [] = ground arith
  lookup-erase j k ((i, w) ∷ d) = ground (arith, lookup-erase j k d)

-- d.values()
abbrev pub dict_values {ℓ} : {V : Type ℓ} → Dict V → List V
dict_values [] = []
dict_values ((j, v) ∷ d) = v ∷ dict_values d

pub dict_values-append {ℓ} :
    {V : Type ℓ} (d e : Dict V) → dict_values (d ++ e) ≡ dict_values d ++ dict_values e
dict_values-append [] e = refl
dict_values-append ((j, v) ∷ d) e = ap (λ vs. v ∷ vs) (dict_values-append d e)

pub dict_values-In : {V : Type 0} (k : ℕ) (v : V) (d : Dict V) → In (k, v) d → In v (dict_values d)
dict_values-In k v [] i = absurd i
dict_values-In k v ((j, w) ∷ d) i = ground (arith, dict_values-In k v d)

pub lookup-In : {V : Type 0} (k : ℕ) (v : V) (d : Dict V) → lookup k d ≡ some v → In (k, v) d
unfolding lookup
lookup-In k v [] h = ground arith
lookup-In k v ((j, w) ∷ d) h = ground (arith, lookup-In k v d)

pub ruleset dict_laws = (lookup-insert, lookup-erase)
