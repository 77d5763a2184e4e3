-- ===== src/Replay/Kernel/Logged.antt =====
-- The action log of `_build_action_log` against the check that a run result makes of it.
use stateweaver.Common.{
  ℕ, ◌≡◌, refl, ap, inl, inr, true, Bool-cases, Option, none, some, List, [], ◌∷◌, ◌++◌, arith, In,
  Distinct, ok, contains, contains_iff, unique, unique_iff, text_eq,
}
use stateweaver.Replay.Models.{
  ReplayStep, ReplayStepStatus, passed, failed, skipped, ReplayStepResult, step_ids, same_status,
}
use stateweaver.Replay.Results.{
  ReplayActionLogEntry, ReplayDigests, ActionType-discrete, ActionType, first_occurrences,
  evidence_of, find_result, same_option, same_type, result_ids, log_ids, validate_entry,
  check_entry, check_log, action_type, parameter_of, observed_evidence, oracle_evidence,
}
use stateweaver.Replay.Kernel.{log_entry, build_action_log}

-- What is left after the first occurrences is new.
fresh_occurrences : (seen xs : List ℕ) (a : ℕ) → In a (first_occurrences seen xs) → ¬ In a seen
unfolding first_occurrences
fresh_occurrences seen [] a i = absurd i
fresh_occurrences seen (x ∷ xs) a i = elim (Bool-cases (contains seen x)) [
  | inl q ↦ fresh_occurrences seen xs a (ground arith)
  | inr q ↦ λ s. ground (arith, contains_iff seen x, fresh_occurrences (x ∷ seen) xs a)
]

first_occurrences-Distinct : (seen xs : List ℕ) → Distinct (first_occurrences seen xs)
unfolding first_occurrences
first_occurrences-Distinct seen [] = tt
first_occurrences-Distinct seen (x ∷ xs) = elim (Bool-cases (contains seen x)) [
  | inl q ↦ rw q (first_occurrences-Distinct seen xs)
  | inr q ↦ rw q (
    λ i. fresh_occurrences (x ∷ seen) xs x i (inl refl),
    first_occurrences-Distinct (x ∷ seen) xs,
  )
]

pub evidence_unique : (r : ReplayStepResult) → unique (evidence_of r) ≡ true
unfolding evidence_of
evidence_unique r =
    (unique_iff (
        first_occurrences []
          (observed_evidence r.observations ++ oracle_evidence r.oracle_results))).1
      (first_occurrences-Distinct []
        (observed_evidence r.observations ++ oracle_evidence r.oracle_results))

pub same_option_refl : (x : Option ℕ) → same_option x x ≡ true
same_option_refl none = refl
same_option_refl (some k) = ground arith

same_type_refl : (x : ActionType) → same_type x x ≡ true
same_type_refl x = elim (ActionType-discrete x x) [ yes p ↦ ground arith | no n ↦ absurd (n refl) ]

same_status_refl : (x : ReplayStepStatus) → same_status x x ≡ true
same_status_refl passed = refl
same_status_refl failed = refl
same_status_refl skipped = refl

pub text_eq_refl : (xs : List ℕ) → text_eq xs xs ≡ true
unfolding text_eq
text_eq_refl [] = refl
text_eq_refl (x ∷ xs) = ground (arith, text_eq_refl xs)

pub find_absent :
    (k : ℕ) (rs : List ReplayStepResult) → ¬ In k (result_ids rs) → find_result k rs ≡ none
unfolding find_result
find_absent k [] n = refl
find_absent k (r ∷ rs) n = ground (arith, find_absent k rs)

pub find_present :
    (r : ReplayStepResult) (rs : List ReplayStepResult)
    → Distinct (result_ids rs)
    → In r rs
    → find_result r.step_id rs ≡ some r
unfolding find_result
find_present r [] d i = absurd i
find_present r (x ∷ xs) d (inl e) =
    ground (arith, find_absent r.step_id xs, ap (λ (z : ReplayStepResult). z.step_id) e)
find_present r (x ∷ xs) d (inr i) = ground (arith, find_present r xs d.1 i)

module _ (h : ReplayDigests) (plan : ℕ) (rs : List ReplayStepResult) where
  -- Each step has its result among all results.
  abbrev pub Found : List ReplayStep → List ReplayStepResult → Type 0
  Found [] [] = Unit
  Found [] (x ∷ xs) = ⊥
  Found (s ∷ ss) [] = ⊥
  Found (s ∷ ss) (x ∷ xs) = (find_result s.step_id rs ≡ some x) × Found ss xs

  abbrev pub entries : List ReplayStep → List ReplayStepResult → List ReplayActionLogEntry
  entries (s ∷ ss) (x ∷ xs) = log_entry h plan s x ∷ entries ss xs
  entries _ _ = []

  entry_valid :
      (s : ReplayStep) (r : ReplayStepResult)
      → validate_entry h (log_entry h plan s r) ≡ ok (log_entry h plan s r)
  unfolding validate_entry
  entry_valid s r = ground (
    arith,
    evidence_unique r,
    same_type_refl (action_type s.action.action),
    same_option_refl (parameter_of s.action.action),
  )

  pub build-Found :
      (ss : List ReplayStep) (xs : List ReplayStepResult)
      → Found ss xs
      → build_action_log h plan ss rs ≡ ok (entries ss xs)
  unfolding build_action_log
  build-Found [] [] f = refl
  build-Found [] (x ∷ xs) f = absurd f
  build-Found (s ∷ ss) [] f = absurd f
  build-Found (s ∷ ss) (x ∷ xs) (p, f) = ground (arith, entry_valid s x, build-Found ss xs f)

  pub build_absent :
      (ss : List ReplayStep)
      → ((k : ℕ) → In k (step_ids ss) → find_result k rs ≡ none)
      → build_action_log h plan ss rs ≡ ok []
  unfolding build_action_log
  build_absent [] f = refl
  build_absent (s ∷ ss) f =
      ground (arith, f s.step_id (inl refl), build_absent ss (λ k i. f k (inr i)))

  pub entries-ids :
      (ss : List ReplayStep) (xs : List ReplayStepResult)
      → Found ss xs
      → log_ids (entries ss xs) ≡ step_ids ss
  entries-ids [] [] f = refl
  entries-ids [] (x ∷ xs) f = absurd f
  entries-ids (s ∷ ss) [] f = absurd f
  entries-ids (s ∷ ss) (x ∷ xs) (p, f) = ap (λ z. s.step_id ∷ z) (entries-ids ss xs f)

  entry_checks :
      (s : ReplayStep) (x : ReplayStepResult)
      → find_result s.step_id rs ≡ some x
      → check_entry h plan rs (log_entry h plan s x) ≡ ok tt
  unfolding check_entry
  entry_checks s x p = ground (
    arith,
    same_status_refl x.status,
    same_option_refl x.before_fingerprint,
    same_option_refl x.after_fingerprint,
    text_eq_refl (evidence_of x),
  )

  pub log_checks :
      (ss : List ReplayStep) (xs : List ReplayStepResult)
      → Found ss xs
      → check_log h plan rs (entries ss xs) ≡ ok tt
  unfolding check_log
  log_checks [] [] f = refl
  log_checks [] (x ∷ xs) f = absurd f
  log_checks (s ∷ ss) [] f = absurd f
  log_checks (s ∷ ss) (x ∷ xs) (p, f) = ground (arith, entry_checks s x p, log_checks ss xs f)
