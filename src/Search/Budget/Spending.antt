-- ===== src/Search/Budget/Spending.antt =====
-- What `reserve` does to a ledger: it appends one reservation, spends exactly its cost, and is
-- refused exactly when a limit would be passed or the pair of candidate and tier is there.
use stateweaver.Common.{
  ℕ, suc, ◌+◌, ◌≤◌, ◌≡◌, ◌↔◌, refl, ap, Bool, true, not, ◌&&◌, ◌||◌, none, some, List, [], ◌∷◌,
  ◌++◌, map, ok, ◌==◌, leb, any, length, unique, contains, arith, inl, inr, Result-cases,
}
use native.Mathlib.Nat.{add-zero}
use stateweaver.Search.Budget.{
  WorldTier, ghost, replay, simulated, materialized, PromotionCost, BudgetLimits, BudgetReservation,
  BudgetLedger, tier_limit, tier_count, sum_of, count_of, usage, fits, is_for, is_tier, one_if,
  can_reserve, contiguous_from, keys_unique, validate_ledger, validate_reservation, ReservationId,
  new_reservation, reserve,
}

-- Nothing is spent beyond the limits, and no tier holds more worlds than it may.
pub record WithinLimits (l : BudgetLedger) : Type 0 where
  pub llm_within : (usage l.reservations).llm_calls ≤ l.limits.max_llm_calls
  pub target_within : (usage l.reservations).target_requests ≤ l.limits.max_target_requests
  pub write_within : (usage l.reservations).write_requests ≤ l.limits.max_write_requests
  pub cpu_within : (usage l.reservations).cpu_seconds ≤ l.limits.max_cpu_seconds
  pub ghost_within : count_of ghost l.reservations ≤ l.limits.max_ghost
  pub replay_within : count_of replay l.reservations ≤ l.limits.max_replay
  pub simulated_within : count_of simulated l.reservations ≤ l.limits.max_simulated
  pub materialized_within : count_of materialized l.reservations ≤ l.limits.max_materialized

-- A test `u <= l` whose addition is nothing.
leb_plain : (u l : ℕ) → (leb (u + 0) l ≡ true) ↔ (u ≤ l)
leb_plain u l = ground arith

conjuncts :
    (a b c d e f g h : Bool)
    → ((a && b && c && d && (e && (f && (g && (h && true))))) ≡ true) ↔ (
        (a ≡ true)
        × (b ≡ true)
        × (c ≡ true)
        × (d ≡ true)
        × (e ≡ true)
        × (f ≡ true)
        × (g ≡ true)
        × (h ≡ true))
conjuncts a b c d e f g h = ground arith

pub fits_iff :
    (l : BudgetLedger) → (fits l.limits (usage l.reservations) none ≡ true) ↔ WithinLimits l
unfolding fits usage tier_count tier_limit
fits_iff l = (
  λ h.
      let c = (conjuncts _ _ _ _ _ _ _ _).0 h in
      record {
        llm_within = (leb_plain _ _).0 c.0;
        target_within = (leb_plain _ _).0 c.1;
        write_within = (leb_plain _ _).0 c.2;
        cpu_within = (leb_plain _ _).0 c.3;
        ghost_within = (leb_plain _ _).0 c.4;
        replay_within = (leb_plain _ _).0 c.5;
        simulated_within = (leb_plain _ _).0 c.6;
        materialized_within = (leb_plain _ _).0 c.7;
      },
  λ w. (conjuncts _ _ _ _ _ _ _ _).1 (
    (leb_plain _ _).1 w.llm_within,
    (leb_plain _ _).1 w.target_within,
    (leb_plain _ _).1 w.write_within,
    (leb_plain _ _).1 w.cpu_within,
    (leb_plain _ _).1 w.ghost_within,
    (leb_plain _ _).1 w.replay_within,
    (leb_plain _ _).1 w.simulated_within,
    (leb_plain _ _).1 w.materialized_within,
  ),
)

pub sum_of-append :
    (f : BudgetReservation → ℕ) (rs : List BudgetReservation) (r : BudgetReservation)
    → sum_of f (rs ++ r ∷ []) ≡ sum_of f rs + f r
unfolding sum_of
sum_of-append f [] r = omega arith
sum_of-append f (x ∷ rs) r = omega (arith, sum_of-append f rs r)

pub count_of-append :
    (t : WorldTier) (rs : List BudgetReservation) (r : BudgetReservation)
    → count_of t (rs ++ r ∷ []) ≡ count_of t rs + one_if (is_tier r.target_tier t)
unfolding count_of
count_of-append t [] r = omega arith
count_of-append t (x ∷ rs) r = omega (arith, count_of-append t rs r)

pub fits-append :
    (l : BudgetLimits) (rs : List BudgetReservation) (r : BudgetReservation)
    → fits l (usage (rs ++ r ∷ [])) none ≡ fits l (usage rs) (some (r.target_tier, r.cost))
unfolding fits usage tier_count tier_limit
fits-append l rs r = simp (sum_of-append, count_of-append, add-zero)

pub contiguous_from-append :
    (k : ℕ) (rs : List BudgetReservation) (r : BudgetReservation)
    → contiguous_from k rs ≡ true
    → contiguous_from k (rs ++ r ∷ []) ≡ (r.sequence == k + length rs)
unfolding contiguous_from
contiguous_from-append k [] r h = ground arith
contiguous_from-append k (x ∷ rs) r h = ground (arith, contiguous_from-append (suc k) rs r)

any-append :
    (p : BudgetReservation → Bool) (rs : List BudgetReservation) (r : BudgetReservation)
    → any p (rs ++ r ∷ []) ≡ (any p rs || p r)
any-append p [] r = ground arith
any-append p (x ∷ rs) r = ground (arith, any-append p rs r)

pub keys_unique-append :
    (rs : List BudgetReservation) (r : BudgetReservation)
    → keys_unique (rs ++ r ∷ [])
      ≡ (keys_unique rs && not (any (is_for r.candidate_id r.target_tier) rs))
unfolding keys_unique
keys_unique-append [] r = ground arith
keys_unique-append (x ∷ rs) r =
    ground (arith, keys_unique-append rs r, any-append (is_for x.candidate_id x.target_tier) rs r)

contains-append : (xs : List ℕ) (x a : ℕ) → contains (xs ++ x ∷ []) a ≡ (contains xs a || a == x)
unfolding contains
contains-append [] x a = ground arith
contains-append (y ∷ xs) x a = ground (arith, contains-append xs x a)

pub unique-append :
    (xs : List ℕ) (x : ℕ) → unique (xs ++ x ∷ []) ≡ (unique xs && not (contains xs x))
unfolding unique contains
unique-append [] x = ground arith
unique-append (y ∷ xs) x = ground (arith, unique-append xs x, contains-append xs x y)

abbrev pub ids : List BudgetReservation → List ℕ
ids rs = map (λ r. r.reservation_id) rs

pub ids-append :
    (rs : List BudgetReservation) (r : BudgetReservation)
    → ids (rs ++ r ∷ []) ≡ ids rs ++ r.reservation_id ∷ []
ids-append [] r = refl
ids-append (x ∷ rs) r = ap (λ xs. x.reservation_id ∷ xs) (ids-append rs r)

-- The ledger with the reservation that `reserve` appends.
abbrev pub extended : ReservationId → BudgetLedger → ℕ → WorldTier → PromotionCost → BudgetLedger
extended i l candidate t c = record l {
  reservations = l.reservations ++ new_reservation i candidate t c l.reservations ∷ [];
}

pub validate_ledger_same : (a b : BudgetLedger) → validate_ledger a ≡ ok b → b ≡ a
unfolding validate_ledger
validate_ledger_same a b h = ground arith

-- `reserve` returns only the extended ledger, and only if it could reserve.
pub reserve_inv :
    (i : ReservationId) (l l' : BudgetLedger) (candidate : ℕ) (t : WorldTier) (c : PromotionCost)
    → reserve i l candidate t c ≡ ok l'
    → (l' ≡ extended i l candidate t c)
      × (can_reserve l t c candidate ≡ true)
      × (validate_ledger l' ≡ ok l')
unfolding reserve validate_reservation
reserve_inv i l l' candidate t c h =
    elim (Result-cases (validate_ledger (extended i l candidate t c))) [
      | inl (e, p) ↦ absurd (ground arith)
      | inr (m, p) ↦ ground (arith, validate_ledger_same (extended i l candidate t c) m p)
    ]
