-- ===== src/Replay/Kernel/Total.antt =====
-- `replay` never fails in its own models: whatever the environment answers, it ends in a report or in a
-- cancellation.
use stateweaver.Common.{
  ℕ, ◌≡◌, ◌≢◌, refl, subst, inl, inr, ◌==◌, Bool-cases, Option, none, some, Option-cases, List,
  arith, ok,
}
use stateweaver.Replay.Captures.{StateCapture}
use stateweaver.Replay.Models.{
  RootSeed, ReplayPlan, ReplayStepResult, ReplayError, validate_plan, root_fingerprint_mismatch,
  raised_by, plan_root_mismatch, explained, phase_timeout, phase_failure, reset, root_step,
  preflight_step, environment_step,
}
use stateweaver.Replay.Results.{run_failed, root_diverged, ReplayDigests}
use stateweaver.Replay.Ports.{Ports}
use stateweaver.Replay.Steps.{Ran, ran, run_cut, run_steps}
use stateweaver.Replay.Steps.Recorded.{Follows, run_steps-Follows, Answer-cases}
use stateweaver.Replay.Kernel.{
  RunState, invalid, boundary, halted, status_of, with_cleanup, of_ran, from_root, run_plan, replay,
}
use stateweaver.Replay.Kernel.Reports.{Left, ran_left, halted_left, Reportable, Left-reports}

module _ {E : Type 0} (ports : Ports E) (plan : ReplayPlan) (root : RootSeed) where
  of_ran-Left :
      (c : StateCapture) (x : Ran × E) (st : RunState)
      → c.fingerprint ≡ root.capture.fingerprint
      → ((rs : List ReplayStepResult) (c' : StateCapture) (f : Option ℕ)
          → x.0 ≡ ran rs c' f
          → Follows plan.steps rs f)
      → (of_ran ports c x).0 ≡ some st
      → Left plan root.capture.fingerprint st
  of_ran-Left c (run_cut, e) st same f q = absurd (ground arith)
  of_ran-Left c (ran rs c' f, e) st same follows q =
      let made : record {
        results = rs;
        root_capture = some c;
        final_capture = some c';
        status = status_of f;
        failed_step_id = f;
      }
          ≡ st =
        ground arith in
      subst (Left plan root.capture.fingerprint) made
        (ran_left rs f c c' same (follows rs c' f refl))

  from_root-Left :
      (c : StateCapture) (e : E) (st : RunState)
      → (from_root ports plan root c e).0 ≡ some st
      → Left plan root.capture.fingerprint st
  unfolding from_root
  from_root-Left c e st q = elim (Bool-cases (c.fingerprint == root.capture.fingerprint)) [
    | inl g ↦
        of_ran-Left c (run_steps ports plan.steps c e) st (ground arith)
          (λ rs c' f r. run_steps-Follows ports plan.steps c e rs c' f r) (ground arith)
    | inr g ↦
        let made : halted
              (boundary root_step (some c.fingerprint) root_fingerprint_mismatch explained) (some c)
              root_diverged
            ≡ st =
          ground arith in
        subst (Left plan root.capture.fingerprint) made (
          halted_left root_step (some c.fingerprint) root_fingerprint_mismatch explained (some c)
            root_diverged (omega arith) (inr (refl, refl)))
  ]

  pub run_plan-Left :
      (e : E) (st : RunState)
      → (run_plan ports plan root e).0 ≡ some st
      → Left plan root.capture.fingerprint st
  unfolding run_plan
  run_plan-Left e st q = elim (Bool-cases (plan.root_seed_id == root.root_seed_id)) [
    | inr g ↦
        let made : halted (boundary preflight_step none plan_root_mismatch explained) none
              run_failed
            ≡ st =
          ground arith in
        subst (Left plan root.capture.fingerprint) made (
          halted_left preflight_step none plan_root_mismatch explained none run_failed (omega arith)
            (inl refl))
    | inl g ↦ elim (Answer-cases (ports.reset_root root e).0) [
      | inl (c, a) ↦ from_root-Left c (ports.reset_root root e).1 st (ground arith)
      | inr (inl a) ↦
          let made : halted (boundary environment_step none (phase_timeout reset) explained) none
                run_failed
              ≡ st =
            ground arith in
          subst (Left plan root.capture.fingerprint) made (
            halted_left environment_step none (phase_timeout reset) explained none run_failed
              (omega arith) (inl refl))
      | inr (inr (inl a)) ↦ absurd (ground arith)
      | inr (inr (inr (name, a))) ↦
          let made : halted (boundary environment_step none (phase_failure reset) (raised_by name))
                none run_failed
              ≡ st =
            ground arith in
          subst (Left plan root.capture.fingerprint) made (
            halted_left environment_step none (phase_failure reset) (raised_by name) none run_failed
              (omega arith) (inl refl))
    ]
  ]

-- A replay of a valid plan ends in a report or in a cancellation: whatever the environment and the oracles answer, no check of
-- the models that it constructs fails.
pub replay_total :
    {E : Type 0} (h : ReplayDigests) (ports : Ports E) (plan : ReplayPlan) (root : RootSeed)
    (run_id : ℕ) (e : E) (x : ReplayError)
    → validate_plan plan ≡ ok plan
    → (replay h ports plan root run_id e).0 ≢ invalid x
unfolding replay
replay_total h ports plan root run_id e x valid q =
    elim (Option-cases (run_plan ports plan root e).0) [
      | inl g ↦ absurd (ground arith)
      | inr (st, g) ↦
          let reports : (o : Option ℕ) → Reportable h run_id plan valid (with_cleanup st o) = λ o.
            Left-reports h run_id plan valid st root.capture.fingerprint o
              (run_plan-Left ports plan root e st g) in
          elim (Answer-cases (ports.clean_up (run_plan ports plan root e).1).0) [
            | inl (a, c) ↦ absurd (ground (arith, (reports none).1))
            | inr (inl c) ↦ absurd (ground (arith, (reports (some ports.timeout_error)).1))
            | inr (inr (inl c)) ↦ absurd (ground arith)
            | inr (inr (inr (name, c))) ↦ absurd (ground (arith, (reports (some name)).1))
          ]
    ]
