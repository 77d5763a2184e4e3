-- ===== src/Search/Batches.antt =====
-- The batch that `advance` takes: `candidates_are_unique` of packages/search/src/stateweaver/search/models.py, and the
-- tier after that of its candidates.
use stateweaver.Common.{
  ℕ, ◌≡◌, ◌≢◌, refl, sym, subst, ap, true, some, List, [], ◌∷◌, arith, inl, inr, In, ok, List-cases,
  all, all-In, unique,
}
use mathlib.Core.List.Permᴰ
use stateweaver.Common.Perms.{In-Perm}
use stateweaver.Search.Budget.{WorldTier, ghost, replay, simulated, materialized, is_tier}
use stateweaver.Search.Models.{BeamSearchPolicy, SearchCandidate, width}
use stateweaver.Search.Controller.{next_tier}
use stateweaver.Search.Selection.{source_of}
use stateweaver.Search.Beam.{candidate_ids, by_identifier, validate_batch, one_tier}
use stateweaver.Search.Ordering.{by_identifier-Perm}

-- The candidates of a batch have one tier, which is not the last.
tier_open :
    (cs : List SearchCandidate) (c x : SearchCandidate)
    → one_tier (c ∷ cs) ≡ true
    → In x (c ∷ cs)
    → x.tier ≢ materialized
tier_open cs c x e (inl q) r = ground arith
tier_open cs c x e (inr i) r =
    let shared : all (λ (y : SearchCandidate). is_tier y.tier c.tier) cs ≡ true = ground arith in
    ground (arith, all-In (λ (y : SearchCandidate). is_tier y.tier c.tier) cs x shared i)

pub source_open :
    (cs : List SearchCandidate)
    → one_tier cs ≡ true
    → (source : WorldTier) × (source_of (by_identifier cs) ≡ ok source) × (source ≢ materialized)
source_open [] e = absurd (ground arith)
source_open (c ∷ cs) e = elim (List-cases (by_identifier (c ∷ cs))) [
  | inl q ↦
      absurd (subst (In c) q (In-Perm c (Permᴰ.symm (by_identifier-Perm (c ∷ cs))) (inl refl)))
  | inr (x, xs, q) ↦ (
    x.tier,
    ap source_of q,
    tier_open cs c x e (In-Perm x (by_identifier-Perm (c ∷ cs)) (subst (In x) (sym q) (inl refl))),
  )
]

-- A batch that is accepted has candidates with different identifiers, in a tier that is not the last.
pub batch_inv :
    (cs batch : List SearchCandidate)
    → validate_batch cs ≡ ok batch
    → (batch ≡ by_identifier cs) × (unique (candidate_ids cs) ≡ true) × (one_tier cs ≡ true)
unfolding validate_batch
batch_inv cs batch e = (ground arith, ground arith, ground arith)

pub tiers_total :
    (p : BeamSearchPolicy) (source : WorldTier)
    → source ≢ materialized
    → (target : WorldTier) × (limit : ℕ) × (next_tier source ≡ some target)
      × (width p target ≡ some limit)
unfolding next_tier width
tiers_total p ghost n = (replay, p.replay_width, refl, refl)
tiers_total p replay n = (simulated, p.simulated_width, refl, refl)
tiers_total p simulated n = (materialized, p.materialized_width, refl, refl)
tiers_total p materialized n = absurd (n refl)
