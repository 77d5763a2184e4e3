-- ===== src/Policy/Waiting.antt =====
-- When a request waits for an approval.
use stateweaver.Common.{
  ℕ, suc, ◌+◌, ◌≤◌, ◌<◌, ◌≡◌, refl, sym, ap, ◌∙◌, ◌↔◌, inl, inr, true, false, some, List, [], ◌∷◌,
  arith, is_empty, length, ◌==◌, Bool-cases, Option-cases,
}
use stateweaver.Policy.Models.{
  require_approval, PolicyReasonCode, PolicyReasonCode-discrete, approval_missing, ConstraintResult,
  PolicyRequest, PolicyDecision, is_failed, is_code, is_just, has_code, failed_codes,
}
use stateweaver.Policy.Checks.{results}
use stateweaver.Policy.Evaluator.{given_codes, deny_codes, conclude, evaluate}
use stateweaver.Policy.Ownership.{
  position, AreOwned, codes_of, is_code_sound, earlier_absent, results-AreOwned,
}
use stateweaver.Policy.Shape.{reported, evaluate_decided}

-- Of the constraints, counted from `k`, the one in place `p` fails and no other does.
abbrev pub FailsOnly : ℕ → ℕ → List ConstraintResult → Type 0
FailsOnly p k [] = Unit {0}
FailsOnly p k (r ∷ rs) = (is_failed r.status ≡ (k == p)) × FailsOnly p (suc k) rs

-- With no codes after place `p`, no constraint after it fails.
later_pass :
    (p k : ℕ) (rs : List ConstraintResult)
    → p < k
    → AreOwned k rs
    → is_empty (codes_of rs) ≡ true
    → FailsOnly p k rs
unfolding failed_codes given_codes
later_pass p k [] b own e = tt
later_pass p k (r ∷ rs) b (o, own) e = elim (Option-cases r.reason_code) [
  | inl f ↦ (ground arith, later_pass p (suc k) rs (ground arith) own (ground arith))
  | inr (d, f) ↦ (ground arith, later_pass p (suc k) rs (ground arith) own (ground arith))
]

later_empty :
    (p k : ℕ) (rs : List ConstraintResult)
    → p < k
    → FailsOnly p k rs
    → is_empty (codes_of rs) ≡ true
unfolding failed_codes given_codes
later_empty p k [] b f = refl
later_empty p k (r ∷ rs) b (e, f) = ground (arith, later_empty p (suc k) rs (ground arith) f)

just_split :
    (c d : PolicyReasonCode) (cs : List PolicyReasonCode)
    → is_just c (d ∷ cs) ≡ true
    → (d ≡ c) × (is_empty cs ≡ true)
just_split c d [] e = (is_code_sound d c e, refl)
just_split c d (x ∷ xs) e = absurd (ground arith)

just_has :
    (c : PolicyReasonCode) (cs : List PolicyReasonCode) → is_just c cs ≡ true → has_code c cs ≡ true
just_has c [] e = absurd (ground arith)
just_has c (x ∷ []) e = ground arith
just_has c (x ∷ y ∷ ys) e = absurd (ground arith)

-- If the codes are just `c`, the constraint of `c` is the only one that fails.
just_fails :
    (c : PolicyReasonCode) (k : ℕ) (rs : List ConstraintResult)
    → AreOwned k rs
    → is_just c (codes_of rs) ≡ true
    → FailsOnly (position c) k rs
unfolding failed_codes given_codes
just_fails c k [] own e = tt
just_fails c k (r ∷ rs) (o, own) e = elim (Bool-cases (is_failed r.status)) [
  | inl f ↦ elim (Option-cases r.reason_code) [
    | inl g ↦ absurd (ground arith)
    | inr (d, g) ↦
        let (same_code, none_after) = just_split c d (codes_of rs) (ground arith) in
        let here : position c ≡ k = ground (arith, ap position same_code) in
        (ground arith, later_pass (position c) (suc k) rs (ground arith) own none_after)
  ]
  | inr f ↦
      let just : is_just c (codes_of rs) ≡ true = ground arith in
      (
        ground (arith, earlier_absent c (suc k) rs own, just_has c (codes_of rs) just),
        just_fails c (suc k) rs own just,
      )
]

is_code_refl : (c : PolicyReasonCode) → is_code c c ≡ true
is_code_refl c = elim (PolicyReasonCode-discrete c c) [
  | yes _ ↦ ground arith
  | no n ↦ absurd (n refl)
]

just_one :
    (c d : PolicyReasonCode) (cs : List PolicyReasonCode)
    → d ≡ c
    → is_empty cs ≡ true
    → is_just c (d ∷ cs) ≡ true
just_one c d [] e f = rw e (is_code_refl c)
just_one c d (x ∷ xs) e f = absurd (ground arith)

-- If only the constraint of `c` fails, and it has no other code, then the codes are just `c`.
only_just :
    (c : PolicyReasonCode) (k : ℕ) (rs : List ConstraintResult)
    → AreOwned k rs
    → FailsOnly (position c) k rs
    → is_empty (codes_of rs) ≡ false
    → ((d : PolicyReasonCode) → position d ≡ position c → d ≡ c)
    → is_just c (codes_of rs) ≡ true
unfolding failed_codes given_codes
only_just c k [] own w e one = absurd (ground arith)
only_just c k (r ∷ rs) (o, own) (f, w) e one = elim (Option-cases r.reason_code) [
  | inl g ↦ ground (arith, only_just c (suc k) rs own w, one)
  | inr (d, g) ↦ elim (Bool-cases (is_failed r.status)) [
    | inr h ↦ ground (arith, only_just c (suc k) rs own w (ground arith) one)
    | inl h ↦
        let after = later_empty (position c) (suc k) rs (ground arith) w in
        ground (arith, just_one c d (codes_of rs) (one d (ground arith)) after)
  ]
]

-- A constraint that fails has a code.
code_given :
    (p k : ℕ) (rs : List ConstraintResult)
    → AreOwned k rs
    → FailsOnly p k rs
    → k ≤ p
    → p < k + length rs
    → is_empty (codes_of rs) ≡ false
unfolding failed_codes given_codes
code_given p k [] own w b e = absurd (ground arith)
code_given p k (r ∷ rs) (o, own) (f, w) b e = elim (Option-cases r.reason_code) [
  | inl g ↦ ground (arith, code_given p (suc k) rs own w)
  | inr (d, g) ↦ ground (arith, code_given p (suc k) rs own w)
]

conclude_waits :
    (codes : List PolicyReasonCode)
    → ((conclude codes).0 ≡ require_approval) ↔ (is_just approval_missing codes ≡ true)
unfolding conclude deny_codes
conclude_waits [] = ground arith
conclude_waits (c ∷ []) = ground arith
conclude_waits (c ∷ d ∷ cs) = ground arith

approval_alone :
    (d : PolicyReasonCode) → position d ≡ position approval_missing → d ≡ approval_missing
unfolding position
approval_alone d e = ground arith

-- A request waits for an approval just if of the ten constraints only the fourth, the approval, fails.
pub evaluate_waits :
    (q : PolicyRequest)
    → ((evaluate (some q)).outcome ≡ require_approval) ↔ FailsOnly 4 1 (results q)
unfolding position results
evaluate_waits q =
    let own = results-AreOwned q in
    let outcome = ap (λ (d : PolicyDecision). d.outcome) (evaluate_decided q) in
    let c = conclude_waits (reported q) in
    (
      λ e. just_fails approval_missing 1 (results q) own (c.0 (sym outcome ∙ e)),
      λ w.
          outcome
          ∙ c.1 (
              only_just approval_missing 1 (results q) own w
                (code_given 4 1 (results q) own w (ground arith) (ground arith)) approval_alone),
    )
