-- ===== src/Replay/Captures/Fingerprints.antt =====
-- The fingerprint of a capture forgets the order of its artifacts.
use mathlib.Core.List.{Permᴰ}
use stateweaver.Common.{
  ℕ, ◌≡◌, ◌≢◌, refl, sym, ap, subst, ◌∙◌, inl, inr, true, Bool-cases, List, [], ◌∷◌, map, arith,
  leb, Distinct, ok, unique, unique_iff,
}
use stateweaver.Common.Perms.{Distinct-Perm, map-Perm}
use stateweaver.Replay.Captures.{
  StateArtifact, StateCapture, LayerSummary, CaptureDigests, summary, rank_of, insert_summary,
  sort_summaries, canonical, ranks, layer_rank, validate_capture, from_artifacts,
}

-- The order of two insertions does not matter when the ranks differ.
insert-insert :
    (a b : LayerSummary) (xs : List LayerSummary)
    → rank_of a ≢ rank_of b
    → insert_summary a (insert_summary b xs) ≡ insert_summary b (insert_summary a xs)
unfolding insert_summary
insert-insert a b [] n = ground arith
insert-insert a b (x ∷ xs) n = elim (Bool-cases (leb (rank_of a) (rank_of x))) [
  | inl p ↦ elim (Bool-cases (leb (rank_of b) (rank_of x))) [
    | inl q ↦ ground arith
    | inr q ↦ ground arith
  ]
  | inr p ↦ elim (Bool-cases (leb (rank_of b) (rank_of x))) [
    | inl q ↦ ground arith
    | inr q ↦ ground (arith, insert-insert a b xs n)
  ]
]

abbrev summary_ranks : List LayerSummary → List ℕ
summary_ranks = map rank_of

sort-Perm :
    {xs ys : List LayerSummary}
    → Permᴰ xs ys
    → Distinct (summary_ranks xs)
    → sort_summaries xs ≡ sort_summaries ys
unfolding sort_summaries
sort-Perm Permᴰ.nil d = refl
sort-Perm (Permᴰ.cons {a} {b} {l₁} {l₂} e p) (n, d) =
    ap (insert_summary a) (sort-Perm p d) ∙ ap (λ z. insert_summary z (sort_summaries l₂)) e
sort-Perm (Permᴰ.swap {a} {b} {a'} {b'} {l} e f) (n, d) =
    insert-insert a b (sort_summaries l) (λ q. n (inl q))
    ∙ ap (λ z. insert_summary z (insert_summary a (sort_summaries l))) f
    ∙ ap (λ z. insert_summary a' (insert_summary z (sort_summaries l))) e
sort-Perm (Permᴰ.trans p r) d = sort-Perm p d ∙ sort-Perm r (Distinct-Perm (map-Perm rank_of p) d)

ranks_of_summaries : (xs : List StateArtifact) → ranks xs ≡ summary_ranks (map summary xs)
ranks_of_summaries [] = refl
ranks_of_summaries (x ∷ xs) = ap (λ z. layer_rank x.layer ∷ z) (ranks_of_summaries xs)

from_artifacts_inv :
    (h : CaptureDigests) (k t : ℕ) (xs : List StateArtifact) (c : StateCapture)
    → from_artifacts h k t xs ≡ ok c
    → (unique (ranks xs) ≡ true) × (h.capture t (canonical xs) ≡ c.fingerprint)
unfolding from_artifacts validate_capture
from_artifacts_inv h k t xs c e = (ground arith, ground arith)

-- If a capture can be made of some artifacts, then one can be made of them in any other order, and it has the same
-- fingerprint.
pub fingerprint_unordered :
    (h : CaptureDigests) (k k' t : ℕ) (xs ys : List StateArtifact) (c : StateCapture)
    → from_artifacts h k t xs ≡ ok c
    → Permᴰ xs ys
    → (d : StateCapture) × (from_artifacts h k' t ys ≡ ok d) × (d.fingerprint ≡ c.fingerprint)
unfolding from_artifacts validate_capture
fingerprint_unordered h k k' t xs ys c e p =
    let (u, f) = from_artifacts_inv h k t xs c e in
    let apart = (unique_iff (ranks xs)).0 u in
    let others =
      (unique_iff (ranks ys)).1
        (Distinct-Perm (map-Perm (λ (a : StateArtifact). layer_rank a.layer) p) apart) in
    let one : canonical xs ≡ canonical ys =
      sort-Perm (map-Perm summary p) (subst Distinct (ranks_of_summaries xs) apart) in
    (
      record {
        capture_id = k';
        controlled_at = t;
        artifacts = ys;
        fingerprint = h.capture t (canonical ys);
      },
      ground (arith, others),
      ap (h.capture t) (sym one) ∙ f,
    )
