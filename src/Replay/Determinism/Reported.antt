-- ===== src/Replay/Determinism/Reported.antt =====
-- What `verify_determinism` reports.
use stateweaver.Common.{
  ℕ, suc, ◌≡◌, ◌≢◌, ◌≤◌, refl, sym, ap, subst, ◌∙◌, ◌⊎◌, inl, inr, ◌==◌, ltb, true, false, not,
  Bool-cases, Option-cases, List, [], ◌∷◌, map, arith, ok, Result-cases, all, length, unique,
  is_some,
}
use stateweaver.Replay.Models.{RootSeed, ReplayPlan, ReplayError, validate_plan}
use stateweaver.Replay.Results.{
  ReplayDigests, ReplayRunResult, deterministic_signature, is_succeeded,
}
use stateweaver.Replay.Ports.{Ports}
use stateweaver.Replay.Kernel.{End, reported, invalid, interrupted, replay}
use stateweaver.Replay.Kernel.Total.{replay_total}
use stateweaver.Replay.Determinism.{
  DeterminismReport, first_divergent, divergence, all_one, replay_all, signatures_of, statuses_of,
  determinism_report, validate_report, verify_determinism,
}
use stateweaver.Replay.Determinism.Agreement.{replay_agrees}

length-map : {A B : Type 0} (f : A → B) (xs : List A) → length (map f xs) ≡ length xs
length-map f [] = refl
length-map f (x ∷ xs) = ap suc (length-map f xs)

-- There is a divergent run just if some signature is not the reference.
first_divergent-all :
    (reference : ℕ) (ss ids : List ℕ)
    → length ss ≡ length ids
    → is_some (first_divergent reference ss ids) ≡ not (all (λ s. s == reference) ss)
unfolding first_divergent
first_divergent-all reference [] ids e = refl
first_divergent-all reference (s ∷ ss) [] e = absurd (omega (arith, e))
first_divergent-all reference (s ∷ ss) (k ∷ ks) e = elim (Bool-cases (s == reference)) [
  | inl q ↦ ground (arith, first_divergent-all reference ss ks (omega (arith, e)))
  | inr q ↦ ground arith
]

divergence-all :
    (ss ids : List ℕ) → length ss ≡ length ids → is_some (divergence ss ids) ≡ not (all_one ss)
divergence-all [] ids e = refl
divergence-all (s ∷ ss) ids e = first_divergent-all s (s ∷ ss) ids e ∙ ground arith

End-cases :
    {A : Type 0} (x : End A)
    → ((a : A) × (x ≡ reported a)) ⊎ ((y : ReplayError) × (x ≡ invalid y)) ⊎ (x ≡ interrupted)
End-cases (reported a) = inl (a, refl)
End-cases (invalid y) = inr (inl (y, refl))
End-cases interrupted = inr (inr refl)

reported_once : {A : Type 0} (x y : A) → reported y ≡ reported x → x ≡ y
reported_once x y e = ground arith

module _ {E : Type 0} (h : ReplayDigests) (ports : Ports E) (plan : ReplayPlan)
    (root : RootSeed) where
  replay_all_total :
      (ids : List ℕ) (e : E) (x : ReplayError)
      → validate_plan plan ≡ ok plan
      → (replay_all h ports plan root ids e).0 ≢ invalid x
  unfolding replay_all
  replay_all_total [] e x v q = absurd (ground arith)
  replay_all_total (k ∷ ks) e x v q = elim (End-cases (replay h ports plan root k e).0) [
    | inl (r, g) ↦
        elim (End-cases (replay_all h ports plan root ks (replay h ports plan root k e).1).0) [
          | inl (rs, f) ↦ absurd (ground arith)
          | inr (inl (y, f)) ↦ replay_all_total ks (replay h ports plan root k e).1 y v f
          | inr (inr f) ↦ absurd (ground arith)
        ]
    | inr (inl (y, g)) ↦ replay_total h ports plan root k e y v g
    | inr (inr g) ↦ absurd (ground arith)
  ]

  replay_all_inv :
      (k : ℕ) (ks : List ℕ) (e : E) (rs : List ReplayRunResult)
      → (replay_all h ports plan root (k ∷ ks) e).0 ≡ reported rs
      → (r : ReplayRunResult) × (rest : List ReplayRunResult) × ((replay h ports plan root k e).0
          ≡ reported r)
        × ((replay_all h ports plan root ks (replay h ports plan root k e).1).0 ≡ reported rest)
        × (r ∷ rest ≡ rs)
  unfolding replay_all
  replay_all_inv k ks e rs q = elim (End-cases (replay h ports plan root k e).0) [
    | inl (r, g) ↦
        elim (End-cases (replay_all h ports plan root ks (replay h ports plan root k e).1).0) [
          | inl (rest, f) ↦ (r, rest, g, f, ground arith)
          | inr (inl (y, f)) ↦ absurd (ground arith)
          | inr (inr f) ↦ absurd (ground arith)
        ]
    | inr (inl (y, g)) ↦ absurd (ground arith)
    | inr (inr g) ↦ absurd (ground arith)
  ]

  length-replay_all :
      (ids : List ℕ) (e : E) (rs : List ReplayRunResult)
      → (replay_all h ports plan root ids e).0 ≡ reported rs
      → length rs ≡ length ids
  unfolding replay_all
  length-replay_all [] e rs q = ap length (reported_once rs [] q)
  length-replay_all (k ∷ ks) e rs q =
      let (r, rest, g, f, made) = replay_all_inv k ks e rs q in
      ap length (sym made) ∙ ap suc (length-replay_all ks (replay h ports plan root k e).1 rest f)

  report_checks :
      (ids : List ℕ) (rs : List ReplayRunResult)
      → ltb (length ids) 2 ≡ false
      → unique ids ≡ true
      → length rs ≡ length ids
      → validate_report (determinism_report h plan ids rs) ≡ ok (determinism_report h plan ids rs)
  unfolding validate_report
  report_checks ids rs two u l =
      let enough = length-map (deterministic_signature h) rs ∙ l in
      elim (Bool-cases (all is_succeeded (statuses_of h rs))) [
        | inl q ↦ elim (Option-cases (divergence (signatures_of h rs) ids)) [
          | inl g ↦ ground (
            arith,
            enough,
            length-map (λ (r : ReplayRunResult). r.status) rs ∙ l,
            divergence-all (signatures_of h rs) ids enough,
          )
          | inr (k, g) ↦ ground (
            arith,
            enough,
            length-map (λ (r : ReplayRunResult). r.status) rs ∙ l,
            divergence-all (signatures_of h rs) ids enough,
          )
        ]
        | inr q ↦ elim (Option-cases (divergence (signatures_of h rs) ids)) [
          | inl g ↦ ground (
            arith,
            enough,
            length-map (λ (r : ReplayRunResult). r.status) rs ∙ l,
            divergence-all (signatures_of h rs) ids enough,
          )
          | inr (k, g) ↦ ground (
            arith,
            enough,
            length-map (λ (r : ReplayRunResult). r.status) rs ∙ l,
            divergence-all (signatures_of h rs) ids enough,
          )
        ]
      ]

  signatures_nil :
      (e : E) (rs : List ReplayRunResult)
      → (replay_all h ports plan root [] e).0 ≡ reported rs
      → [] ≡ rs
  unfolding replay_all
  signatures_nil e rs q = sym (reported_once rs [] q)

  same_signatures :
      ((e e' : E) → ports.reset_root root e ≡ ports.reset_root root e')
      → plan.root_seed_id ≡ root.root_seed_id
      → (k : ℕ) (e : E) (r : ReplayRunResult) → (replay h ports plan root k e).0 ≡ reported r
      → (ids : List ℕ) (e' : E) (rs : List ReplayRunResult)
      → (replay_all h ports plan root ids e').0 ≡ reported rs
      → all (λ s. s == deterministic_signature h r) (signatures_of h rs) ≡ true
  same_signatures forgets same k e r q [] e' rs q' = ground (arith, signatures_nil e' rs q')
  same_signatures forgets same k e r q (j ∷ js) e' rs q' =
      let (r', rest, g, f, made) = replay_all_inv j js e' rs q' in
      let one = replay_agrees h ports plan root forgets same j k e' e r' r g q in
      subst (λ z. all (λ s. s == deterministic_signature h r) (signatures_of h z) ≡ true) made
        (ground (
          arith,
          one,
          same_signatures forgets same k e r q js (replay h ports plan root j e').1 rest f,
        ))

-- `verify_determinism` of two or more different runs of a valid plan ends in a report or in a cancellation: the report passes its own check.
pub verify_determinism_total :
    {E : Type 0} (h : ReplayDigests) (ports : Ports E) (plan : ReplayPlan) (root : RootSeed)
    (ids : List ℕ) (e : E) (x : ReplayError)
    → validate_plan plan ≡ ok plan
    → 2 ≤ length ids
    → unique ids ≡ true
    → (verify_determinism h ports plan root ids e).0 ≢ invalid x
unfolding verify_determinism
verify_determinism_total h ports plan root ids e x v two u q =
    let enough : ltb (length ids) 2 ≡ false = ground arith in
    elim (End-cases (replay_all h ports plan root ids e).0) [
      | inl (rs, g) ↦ absurd (
          ground (
            arith,
            enough,
            report_checks h ports plan root ids rs enough u
                (length-replay_all h ports plan root ids e rs g),
          ))
      | inr (inl (y, g)) ↦ replay_all_total h ports plan root ids e y v g
      | inr (inr g) ↦ absurd (ground arith)
    ]

validate_report_same : (d d' : DeterminismReport) → validate_report d ≡ ok d' → d ≡ d'
unfolding validate_report
validate_report_same d d' e = ground arith

verify_inv :
    {E : Type 0} (h : ReplayDigests) (ports : Ports E) (plan : ReplayPlan) (root : RootSeed)
    (ids : List ℕ) (e : E) (d : DeterminismReport)
    → (verify_determinism h ports plan root ids e).0 ≡ reported d
    → (rs : List ReplayRunResult) × ((replay_all h ports plan root ids e).0 ≡ reported rs)
      × (determinism_report h plan ids rs ≡ d)
unfolding verify_determinism
verify_inv h ports plan root ids e d q = elim (Bool-cases (ltb (length ids) 2)) [
  | inl t ↦ absurd (ground arith)
  | inr t ↦ elim (Bool-cases (unique ids)) [
    | inr u ↦ absurd (ground arith)
    | inl u ↦ elim (End-cases (replay_all h ports plan root ids e).0) [
      | inl (rs, g) ↦ elim (Result-cases (validate_report (determinism_report h plan ids rs))) [
        | inl (x, c) ↦ absurd (ground arith)
        | inr (d', c) ↦
            (rs, g, validate_report_same (determinism_report h plan ids rs) d' c ∙ ground arith)
      ]
      | inr (inl (y, g)) ↦ absurd (ground arith)
      | inr (inr g) ↦ absurd (ground arith)
    ]
  ]
]

no_runs :
    {E : Type 0} (h : ReplayDigests) (ports : Ports E) (plan : ReplayPlan) (root : RootSeed) (e : E)
    (d : DeterminismReport)
    → (verify_determinism h ports plan root [] e).0 ≢ reported d
unfolding verify_determinism
no_runs h ports plan root e d q = absurd (ground arith)

-- If the reset to the root answers the same and leaves the same whatever was before, and the plan is for that root, then every report of
-- `verify_determinism` says deterministic.
pub verify_determinism_agrees :
    {E : Type 0} (h : ReplayDigests) (ports : Ports E) (plan : ReplayPlan) (root : RootSeed)
    (ids : List ℕ) (e : E) (d : DeterminismReport)
    → ((e1 e2 : E) → ports.reset_root root e1 ≡ ports.reset_root root e2)
    → plan.root_seed_id ≡ root.root_seed_id
    → (verify_determinism h ports plan root ids e).0 ≡ reported d
    → d.deterministic ≡ true
verify_determinism_agrees h ports plan root [] e d forgets same q =
    absurd (no_runs h ports plan root e d q)
verify_determinism_agrees h ports plan root (k ∷ ks) e d forgets same q =
    let (rs, g, made) = verify_inv h ports plan root (k ∷ ks) e d q in
    let (r, rest, first, others, parts) = replay_all_inv h ports plan root k ks e rs g in
    let agree =
      same_signatures h ports plan root forgets same k e r first ks (replay h ports plan root k e).1
        rest others in
    let lengths =
      length-map (deterministic_signature h) rs
      ∙ length-replay_all h ports plan root (k ∷ ks) e rs g in
    let one : all_one (signatures_of h rs) ≡ true =
      subst (λ z. all_one (signatures_of h z) ≡ true) parts agree in
    ap (λ (x : DeterminismReport). x.deterministic) (sym made)
    ∙ ground (arith, divergence-all (signatures_of h rs) (k ∷ ks) lengths)
