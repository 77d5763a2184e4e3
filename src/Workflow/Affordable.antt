-- ===== src/Workflow/Affordable.antt =====
-- Some of the reservations of a round, committed again under other numbers: their keys, identifiers and costs
-- in the ledger of packages/search.
use stateweaver.Common.{ℕ, Bool, ◌≤◌, ◌≡◌, refl, true, false, some, List, [], ◌∷◌, ◌++◌, any, arith}
use stateweaver.Search.Budget.{
  WorldTier, PromotionCost, BudgetLimits, BudgetReservation, BudgetLedger, sum_of, count_of, usage,
  is_for, keys_unique,
}
use stateweaver.Search.Budget.Spending.{WithinLimits}
use stateweaver.Workflow.Advance.{get_last}

-- The first list has some of the second, in order; the identifiers and numbers may differ.
pub data Thinned : List BudgetReservation → List BudgetReservation → Type 0 where
  thin_nil : Thinned [] []
  thin_skip :
      {r : BudgetReservation} {xs ys : List BudgetReservation} → Thinned xs ys → Thinned xs (r ∷ ys)
  thin_keep :
      {q r : BudgetReservation} {xs ys : List BudgetReservation}
      → q.candidate_id ≡ r.candidate_id
      → q.target_tier ≡ r.target_tier
      → q.cost ≡ r.cost
      → Thinned xs ys
      → Thinned (q ∷ xs) (r ∷ ys)

pub Thinned-refl : (xs : List BudgetReservation) → Thinned xs xs
Thinned-refl [] = thin_nil
Thinned-refl (x ∷ xs) = thin_keep refl refl refl (Thinned-refl xs)

Thinned-empty : (ys : List BudgetReservation) → Thinned [] ys
Thinned-empty [] = thin_nil
Thinned-empty (y ∷ ys) = thin_skip (Thinned-empty ys)

pub Thinned-place :
    (xs ys zs : List BudgetReservation) (q r : BudgetReservation)
    → q.candidate_id ≡ r.candidate_id
    → q.target_tier ≡ r.target_tier
    → q.cost ≡ r.cost
    → Thinned xs ys
    → Thinned (xs ++ q ∷ []) (ys ++ r ∷ zs)
Thinned-place _ _ zs q r i t c thin_nil = thin_keep i t c (Thinned-empty zs)
Thinned-place xs (y ∷ ys) zs q r i t c (thin_skip p) =
    thin_skip (Thinned-place xs ys zs q r i t c p)
Thinned-place (x ∷ xs) (y ∷ ys) zs q r i t c (thin_keep j u d p) =
    thin_keep j u d (Thinned-place xs ys zs q r i t c p)

pub Thinned-more : (xs ys zs : List BudgetReservation) → Thinned xs ys → Thinned xs (ys ++ zs)
Thinned-more _ _ zs thin_nil = Thinned-empty zs
Thinned-more xs (y ∷ ys) zs (thin_skip p) = thin_skip (Thinned-more xs ys zs p)
Thinned-more (x ∷ xs) (y ∷ ys) zs (thin_keep j u d p) = thin_keep j u d (Thinned-more xs ys zs p)

sum_of-Thinned :
    (f : PromotionCost → ℕ) (xs ys : List BudgetReservation)
    → Thinned xs ys
    → sum_of (λ r. f r.cost) xs ≤ sum_of (λ r. f r.cost) ys
unfolding sum_of
sum_of-Thinned f _ _ thin_nil = omega arith
sum_of-Thinned f xs (y ∷ ys) (thin_skip p) = omega (arith, sum_of-Thinned f xs ys p)
sum_of-Thinned f (x ∷ xs) (y ∷ ys) (thin_keep j u d p) =
    rw d (omega (arith, sum_of-Thinned f xs ys p))

count_of-Thinned :
    (t : WorldTier) (xs ys : List BudgetReservation) → Thinned xs ys → count_of t xs ≤ count_of t ys
unfolding count_of
count_of-Thinned t _ _ thin_nil = omega arith
count_of-Thinned t xs (y ∷ ys) (thin_skip p) = omega (arith, count_of-Thinned t xs ys p)
count_of-Thinned t (x ∷ xs) (y ∷ ys) (thin_keep j u d p) =
    rw u (omega (arith, count_of-Thinned t xs ys p))

abbrev pub ledger_of : BudgetLimits → List BudgetReservation → BudgetLedger
ledger_of l rs = record { limits = l; reservations = rs }

-- Fewer reservations stay within the limits.
pub WithinLimits-Thinned :
    (l : BudgetLimits) (xs ys : List BudgetReservation)
    → Thinned xs ys
    → WithinLimits (ledger_of l ys)
    → WithinLimits (ledger_of l xs)
unfolding usage
WithinLimits-Thinned l xs ys p w = record {
  llm_within = omega (arith, w.llm_within, sum_of-Thinned (λ c. c.llm_calls) xs ys p);
  target_within = omega (arith, w.target_within, sum_of-Thinned (λ c. c.target_requests) xs ys p);
  write_within = omega (arith, w.write_within, sum_of-Thinned (λ c. c.write_requests) xs ys p);
  cpu_within = omega (arith, w.cpu_within, sum_of-Thinned (λ c. c.cpu_seconds) xs ys p);
  ghost_within = omega (arith, w.ghost_within, count_of-Thinned _ xs ys p);
  replay_within = omega (arith, w.replay_within, count_of-Thinned _ xs ys p);
  simulated_within = omega (arith, w.simulated_within, count_of-Thinned _ xs ys p);
  materialized_within = omega (arith, w.materialized_within, count_of-Thinned _ xs ys p);
}

pub any-Thinned :
    (k : ℕ) (t : WorldTier) (xs ys : List BudgetReservation)
    → Thinned xs ys
    → any (is_for k t) ys ≡ false
    → any (is_for k t) xs ≡ false
any-Thinned k t _ _ thin_nil h = refl
any-Thinned k t xs (y ∷ ys) (thin_skip p) h = any-Thinned k t xs ys p (ground arith)
any-Thinned k t (x ∷ xs) (y ∷ ys) (thin_keep j u d p) h =
    rw (j, u) (ground (arith, any-Thinned k t xs ys p))

is_for-sym :
    (q r : BudgetReservation)
    → is_for q.candidate_id q.target_tier r ≡ is_for r.candidate_id r.target_tier q
is_for-sym q r = ground arith

any_front :
    {A : Type 0} (p : A → Bool) (xs : List A) (x : A) (ys : List A)
    → any p (xs ++ x ∷ ys) ≡ false
    → p x ≡ false
any_front p [] x ys h = ground arith
any_front p (z ∷ xs) x ys h = any_front p xs x ys (ground arith)

-- Where the keys differ, none before a reservation is its own.
pub keys_unique-before :
    (xs ys : List BudgetReservation) (r : BudgetReservation)
    → keys_unique (xs ++ r ∷ ys) ≡ true
    → any (is_for r.candidate_id r.target_tier) xs ≡ false
unfolding keys_unique
keys_unique-before [] ys r h = refl
keys_unique-before (x ∷ xs) ys r h = ground (
  arith,
  keys_unique-before xs ys r,
  is_for-sym x r,
  any_front (is_for x.candidate_id x.target_tier) xs r ys,
)

pub get_last-append :
    (rs : List BudgetReservation) (r : BudgetReservation) → get_last (rs ++ r ∷ []) ≡ some r
unfolding get_last
get_last-append [] r = refl
get_last-append (q ∷ []) r = refl
get_last-append (q ∷ p ∷ rs) r = get_last-append (p ∷ rs) r
