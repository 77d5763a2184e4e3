-- ===== src/Replay/Kernel/Success.antt =====
-- What a replay that is reported as a success did.
use stateweaver.Common.{
  ℕ, ◌≡◌, sym, ap, subst, ◌∙◌, inl, inr, Option, none, some, Option-cases, List, arith, Result, ok,
  err, Result-cases,
}
use stateweaver.Replay.Models.{RootSeed, ReplayPlan, ReplayError}
use stateweaver.Replay.Results.{
  ReplayActionLogEntry, succeeded, ReplayDigests, ReplayRunResult, validate_run,
}
use stateweaver.Replay.Ports.{Ports}
use stateweaver.Replay.Steps.Recorded.{Follows, Answer-cases}
use stateweaver.Replay.Kernel.{
  RunState, reported, with_cleanup, run_plan, build_action_log, run_result, report, replay, to_end,
}
use stateweaver.Replay.Kernel.Reports.{Left, ran_left, halted_left}
use stateweaver.Replay.Kernel.Total.{run_plan-Left}

validate_run_same : (h : ReplayDigests) (r r' : ReplayRunResult) → validate_run h r ≡ ok r' → r ≡ r'
unfolding validate_run
validate_run_same h r r' e = ground arith

pub report_inv :
    (h : ReplayDigests) (run_id : ℕ) (plan : ReplayPlan) (st : RunState) (r : ReplayRunResult)
    → report h run_id plan st ≡ ok r
    → (log : List ReplayActionLogEntry) × (build_action_log h plan.plan_id plan.steps st.results
        ≡ ok log)
      × (run_result h run_id plan st log ≡ r)
unfolding report
report_inv h run_id plan st r e =
    elim (Result-cases (build_action_log h plan.plan_id plan.steps st.results)) [
      | inl (x, q) ↦ absurd (ground arith)
      | inr (log, q) ↦
          (log, q, validate_run_same h (run_result h run_id plan st log) r (ground arith))
    ]

pub to_end_inv :
    (h : ReplayDigests) (x : Result ReplayError ReplayRunResult) (r : ReplayRunResult)
    → to_end h x ≡ reported r
    → x ≡ ok r
to_end_inv h (ok a) r e = ground arith
to_end_inv h (err x) r e = absurd (ground arith)

-- All steps passed, each with verdicts that are allowed, from a capture with the pinned fingerprint.
pub record IsSuccess (plan : ReplayPlan) (root : RootSeed) (r : ReplayRunResult) : Type 0 where
  pub all_passed : Follows plan.steps r.steps none
  pub pinned : r.root_fingerprint ≡ some root.capture.fingerprint
  pub unfailed : r.failed_step_id ≡ none

module _ (h : ReplayDigests) (run_id : ℕ) (plan : ReplayPlan) (root : RootSeed)
    (r : ReplayRunResult) (log : List ReplayActionLogEntry) where
  Left-IsSuccess :
      (st : RunState) (o : Option ℕ)
      → Left plan root.capture.fingerprint st
      → run_result h run_id plan (with_cleanup st o) log ≡ r
      → r.status ≡ succeeded
      → IsSuccess plan root r
  unfolding with_cleanup
  Left-IsSuccess st (some name) l e s =
      absurd (ground (arith, ap (λ (x : ReplayRunResult). x.status) e))
  Left-IsSuccess st none (ran_left rs (some k) c final same run) e s =
      absurd (ground (arith, ap (λ (x : ReplayRunResult). x.status) e))
  Left-IsSuccess st none (ran_left rs none c final same run) e s = record {
    all_passed =
        subst (λ z. Follows plan.steps z none) (ap (λ (x : ReplayRunResult). x.steps) e) run;
    pinned = sym (ap (λ (x : ReplayRunResult). x.root_fingerprint) e) ∙ ap some same;
    unfailed = sym (ap (λ (x : ReplayRunResult). x.failed_step_id) e);
  }
  Left-IsSuccess st none (halted_left k p code m c status b (inl q)) e s =
      absurd (ground (arith, ap (λ (x : ReplayRunResult). x.status) e))
  Left-IsSuccess st none (halted_left k p code m c status b (inr (q, t))) e s =
      absurd (ground (arith, ap (λ (x : ReplayRunResult). x.status) e))

-- If a replay reports a success, then the steps of the plan have all passed, in order and each with verdicts that are allowed, and the root that was
-- restored has the pinned fingerprint.
pub replay-IsSuccess :
    {E : Type 0} (h : ReplayDigests) (ports : Ports E) (plan : ReplayPlan) (root : RootSeed)
    (run_id : ℕ) (e : E) (r : ReplayRunResult)
    → (replay h ports plan root run_id e).0 ≡ reported r
    → r.status ≡ succeeded
    → IsSuccess plan root r
unfolding replay
replay-IsSuccess h ports plan root run_id e r q s =
    elim (Option-cases (run_plan ports plan root e).0) [
      | inl g ↦ absurd (ground arith)
      | inr (st, g) ↦
          let left = run_plan-Left ports plan root e st g in
          let success : (o : Option ℕ)
              → report h run_id plan (with_cleanup st o) ≡ ok r
              → IsSuccess plan root r =
            λ o made.
              let (log, built, same) = report_inv h run_id plan (with_cleanup st o) r made in
              Left-IsSuccess h run_id plan root r log st o left same s in
          elim (Answer-cases (ports.clean_up (run_plan ports plan root e).1).0) [
            | inl (a, c) ↦
                success none
                  (to_end_inv h (report h run_id plan (with_cleanup st none)) r (ground arith))
            | inr (inl c) ↦ success (some ports.timeout_error) (
                to_end_inv h (report h run_id plan (with_cleanup st (some ports.timeout_error))) r
                  (ground arith))
            | inr (inr (inl c)) ↦ absurd (ground arith)
            | inr (inr (inr (name, c))) ↦
                success (some name) (
                  to_end_inv h (report h run_id plan (with_cleanup st (some name))) r
                    (ground arith))
          ]
    ]
