-- ===== src/Replay/Steps/Recorded.antt =====
-- What the loop over the steps records: one result for each step, in order, up to the first that fails.
use stateweaver.Common.{
  ℕ, ◌≡◌, refl, ap, subst, ◌⊎◌, inl, inr, true, Bool-cases, Option, none, some, List, [], ◌∷◌,
  arith,
}
use stateweaver.Replay.Captures.{StateCapture}
use stateweaver.Replay.Models.{
  ReplayObservation, OracleResult, ReplayStep, ReplayStepStatus, passed, failed, skipped,
  ReplayStepResult, step_ids,
}
use stateweaver.Replay.Results.{result_ids, failed_steps}
use stateweaver.Replay.Ports.{Answer, returned, timed_out, cancelled, raised, Ports}
use stateweaver.Replay.Steps.{
  Progress, Trouble, Attempt, finished, stopped, abandoned, Stepped, stepped, step_cancelled, Ran,
  ran, run_cut, expectations_match, skipped_results, finished_result, stopped_result, attempt_step,
  recover, handle_trouble, execute_step, after_step, run_steps,
}

-- The results of the steps, with the step that failed: a step that passed is followed by the next, one that failed by
-- those that are skipped.
pub data Follows : List ReplayStep → List ReplayStepResult → Option ℕ → Type 0 where
  finish : Follows [] [] none
  pass :
      {s : ReplayStep} {r : ReplayStepResult} {ss : List ReplayStep} {rs : List ReplayStepResult}
      {f : Option ℕ}
      → r.step_id ≡ s.step_id
      → r.status ≡ passed
      → expectations_match s.oracle_expectations r.oracle_results ≡ true
      → Follows ss rs f
      → Follows (s ∷ ss) (r ∷ rs) f
  halt :
      {s : ReplayStep} {r : ReplayStepResult} {ss : List ReplayStep}
      → r.step_id ≡ s.step_id
      → r.status ≡ failed
      → Follows (s ∷ ss) (r ∷ skipped_results ss) (some s.step_id)

Follows-over :
    {ss : List ReplayStep} {rs rs' : List ReplayStepResult} {f f' : Option ℕ}
    → rs ≡ rs'
    → f ≡ f'
    → Follows ss rs f
    → Follows ss rs' f'
Follows-over {ss} {rs} {rs'} {f} {f'} p q x =
    subst (λ z. Follows ss rs' z) q (subst (λ z. Follows ss z f) p x)

-- What one step leaves.
abbrev Recorded : ReplayStep → ReplayStepResult → Type 0
Recorded s r =
    (r.step_id ≡ s.step_id)
    × ((r.status ≡ failed)
        ⊎ ((r.status ≡ passed)
            × (expectations_match s.oracle_expectations r.oracle_results ≡ true)))

finished_result-Recorded :
    (s : ReplayStep) (before after : StateCapture) (observations : List ReplayObservation)
    (results : List OracleResult)
    → Recorded s (finished_result s before after observations results)
unfolding finished_result
finished_result-Recorded s before after observations results =
    elim (Bool-cases (expectations_match s.oracle_expectations results)) [
      | inl q ↦ rw q (refl, inr (refl, q))
      | inr q ↦ rw q (refl, inl refl)
    ]

pub Answer-cases :
    {A : Type 0} (x : Answer A)
    → ((a : A) × (x ≡ returned a)) ⊎ (x ≡ timed_out) ⊎ (x ≡ cancelled) ⊎ ((k : ℕ) × (x ≡ raised k))
Answer-cases (returned a) = inl (a, refl)
Answer-cases timed_out = inr (inl refl)
Answer-cases cancelled = inr (inr (inl refl))
Answer-cases (raised k) = inr (inr (inr (k, refl)))

Attempt-cases :
    (x : Attempt)
    → ((b : StateCapture) × (a : StateCapture) × (o : List ReplayObservation) × (r : List
          OracleResult)
        × (x ≡ finished b a o r))
      ⊎ ((p : Progress) × (t : Trouble) × (x ≡ stopped p t))
      ⊎ (x ≡ abandoned)
Attempt-cases (finished b a o r) = inl (b, a, o, r, refl)
Attempt-cases (stopped p t) = inr (inl (p, t, refl))
Attempt-cases abandoned = inr (inr refl)

Stepped-cases :
    (x : Stepped)
    → ((r : ReplayStepResult) × (c : StateCapture) × (x ≡ stepped r c)) ⊎ (x ≡ step_cancelled)
Stepped-cases (stepped r c) = inl (r, c, refl)
Stepped-cases step_cancelled = inr refl

status-cases : (x : ReplayStepStatus) → (x ≡ failed) ⊎ (x ≡ passed) ⊎ (x ≡ skipped)
status-cases failed = inl refl
status-cases passed = inr (inl refl)
status-cases skipped = inr (inr refl)

pub Ran-cases :
    (x : Ran)
    → ((rs : List ReplayStepResult) × (c : StateCapture) × (f : Option ℕ) × (x ≡ ran rs c f))
      ⊎ (x ≡ run_cut)
Ran-cases (ran rs c f) = inl (rs, c, f, refl)
Ran-cases run_cut = inr refl

module _ {E : Type 0} (ports : Ports E) where
  handle_trouble-Recorded :
      (s : ReplayStep) (c : StateCapture) (p : Progress) (t : Trouble) (e : E)
      (r : ReplayStepResult) (c' : StateCapture)
      → (handle_trouble ports s c p t e).0 ≡ stepped r c'
      → Recorded s r
  unfolding handle_trouble stopped_result
  handle_trouble-Recorded s c p t e r c' q = elim (Answer-cases (recover ports p.after e).0) [
    | inl (a, g) ↦
        let made : r ≡ stopped_result s c p t a = ground arith in
        (
          ap (λ (x : ReplayStepResult). x.step_id) made,
          inl (ap (λ (x : ReplayStepResult). x.status) made),
        )
    | inr (inl g) ↦ absurd (ground arith)
    | inr (inr (inl g)) ↦ absurd (ground arith)
    | inr (inr (inr (k, g))) ↦ absurd (ground arith)
  ]

  execute_step-Recorded :
      (s : ReplayStep) (c : StateCapture) (e : E) (r : ReplayStepResult) (c' : StateCapture)
      → (execute_step ports s c e).0 ≡ stepped r c'
      → Recorded s r
  unfolding execute_step
  execute_step-Recorded s c e r c' q = elim (Attempt-cases (attempt_step ports s e).0) [
    | inl (b, a, o, rs, g) ↦
        let made : finished_result s b a o rs ≡ r = ground arith in
        subst (Recorded s) made (finished_result-Recorded s b a o rs)
    | inr (inl (p, t, g)) ↦
        handle_trouble-Recorded s c p t (attempt_step ports s e).1 r c' (ground arith)
    | inr (inr g) ↦ absurd (ground arith)
  ]

  after_step_inv :
      (r : ReplayStepResult) (x : Ran × E) (rs : List ReplayStepResult) (c : StateCapture)
      (f : Option ℕ)
      → (after_step ports r x).0 ≡ ran rs c f
      → (rs' : List ReplayStepResult) × (x.0 ≡ ran rs' c f) × (r ∷ rs' ≡ rs)
  after_step_inv r (ran rs' c' f', e) rs c f q = (rs', ground arith, ground arith)
  after_step_inv r (run_cut, e) rs c f q = absurd (ground arith)

  pub run_steps-Follows :
      (ss : List ReplayStep) (c : StateCapture) (e : E) (rs : List ReplayStepResult)
      (c' : StateCapture) (f : Option ℕ)
      → (run_steps ports ss c e).0 ≡ ran rs c' f
      → Follows ss rs f
  unfolding run_steps
  run_steps-Follows [] c e rs c' f q = Follows-over (ground arith) (ground arith) finish
  run_steps-Follows (s ∷ ss) c e rs c' f q = elim (Stepped-cases (execute_step ports s c e).0) [
    | inr g ↦ absurd (ground arith)
    | inl (r, c1, g) ↦
        let (same, ends) = execute_step-Recorded s c e r c1 g in
        elim ends [
          | inl fails ↦
              Follows-over (ground arith) (ground arith) (halt {s = s} {r = r} {ss = ss} same fails)
          | inr (passes, fits) ↦
              let (rs', g', made) =
                after_step_inv r (run_steps ports ss c1 (execute_step ports s c e).1) rs c' f
                  (ground arith) in
              Follows-over made refl (
                pass same passes fits
                  (run_steps-Follows ss c1 (execute_step ports s c e).1 rs' c' f g'))
        ]
  ]

-- The results are those of the steps, in order.
pub skipped_ids : (ss : List ReplayStep) → result_ids (skipped_results ss) ≡ step_ids ss
unfolding skipped_results
skipped_ids [] = refl
skipped_ids (s ∷ ss) = ap (λ xs. s.step_id ∷ xs) (skipped_ids ss)

pub Follows-ids :
    {ss : List ReplayStep} {rs : List ReplayStepResult} {f : Option ℕ}
    → Follows ss rs f
    → result_ids rs ≡ step_ids ss
Follows-ids finish = refl
Follows-ids (pass p a x rest) = ground (arith, Follows-ids rest)
Follows-ids (halt {s} {r} {ss} p a) = ground (arith, skipped_ids ss)

skipped_none : (ss : List ReplayStep) → failed_steps (skipped_results ss) ≡ []
unfolding failed_steps skipped_results
skipped_none [] = refl
skipped_none (s ∷ ss) = skipped_none ss

-- The steps that failed: none, or the one that is named.
abbrev pub Fails : Option ℕ → List ReplayStepResult → Type 0
Fails none rs = failed_steps rs ≡ []
Fails (some k) rs = (x : ReplayStepResult) × (failed_steps rs ≡ x ∷ []) × (x.step_id ≡ k)

Fails-pass :
    (f : Option ℕ) (r : ReplayStepResult) (rs : List ReplayStepResult)
    → r.status ≡ passed
    → Fails f rs
    → Fails f (r ∷ rs)
unfolding failed_steps
Fails-pass none r rs p x = ground arith
Fails-pass (some k) r rs p (x, q, i) = (x, ground arith, i)

pub Follows-Fails :
    {ss : List ReplayStep} {rs : List ReplayStepResult} {f : Option ℕ}
    → Follows ss rs f
    → Fails f rs
unfolding failed_steps
Follows-Fails finish = refl
Follows-Fails (pass {s} {r} {ss} {rs} {f} p a x rest) = Fails-pass f r rs a (Follows-Fails rest)
Follows-Fails (halt {s} {r} {ss} p a) = (r, ground (arith, skipped_none ss), p)
