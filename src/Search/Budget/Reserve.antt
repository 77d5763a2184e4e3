-- ===== src/Search/Budget/Reserve.antt =====
-- `reserve` as a contract: what it appends, what it spends, and exactly when it is refused.
use stateweaver.Common.{
  ℕ, ◌+◌, ◌≡◌, ◌↔◌, refl, sym, ◌∙◌, true, false, none, some, [], ◌∷◌, ◌++◌, ok, any, length, unique,
  contains, arith,
}
use stateweaver.Search.Budget.{
  WorldTier, PromotionCost, BudgetReservation, BudgetLedger, count_of, usage, fits, is_for, is_tier,
  one_if, can_reserve, contiguous_from, keys_unique, validate_ledger, validate_reservation,
  ReservationId, new_reservation, reserve,
}
use stateweaver.Search.Budget.Spending.{
  WithinLimits, fits_iff, fits-append, sum_of-append, count_of-append, contiguous_from-append,
  keys_unique-append, unique-append, ids, ids-append, extended, reserve_inv,
}

-- A ledger that its validators accept: numbered from 1, with unique identifiers and keys, and within
-- its limits.
pub record IsValid (l : BudgetLedger) : Type 0 where
  pub numbered : contiguous_from 1 l.reservations ≡ true
  pub ids_unique : unique (ids l.reservations) ≡ true
  pub keys_differ : keys_unique l.reservations ≡ true
  pub within : WithinLimits l

validate_ledger_inv :
    (l m : BudgetLedger)
    → validate_ledger l ≡ ok m
    → (contiguous_from 1 l.reservations ≡ true)
      × (unique (ids l.reservations) ≡ true)
      × (keys_unique l.reservations ≡ true)
      × (fits l.limits (usage l.reservations) none ≡ true)
unfolding validate_ledger
validate_ledger_inv l m h = ground arith

pub validate_ledger-IsValid : (l m : BudgetLedger) → validate_ledger l ≡ ok m → IsValid l
validate_ledger-IsValid l m h =
    let v = validate_ledger_inv l m h in
    record { numbered = v.0; ids_unique = v.1; keys_differ = v.2; within = (fits_iff l).0 v.3 }

pub IsValid-validate_ledger : (l : BudgetLedger) → IsValid l → validate_ledger l ≡ ok l
unfolding validate_ledger
IsValid-validate_ledger l v =
    ground (arith, v.numbered, v.ids_unique, v.keys_differ, (fits_iff l).1 v.within)

module _ (i : ReservationId) (l : BudgetLedger) (candidate : ℕ) (t : WorldTier)
    (c : PromotionCost) where
  abbrev fresh_id : ℕ
  fresh_id = i candidate t (length l.reservations + 1) c

  extended-IsValid :
      IsValid l
      → contains (ids l.reservations) fresh_id ≡ false
      → any (is_for candidate t) l.reservations ≡ false
      → WithinLimits (extended i l candidate t c)
      → IsValid (extended i l candidate t c)
  extended-IsValid v f k w = record {
    numbered =
        contiguous_from-append 1 l.reservations (new_reservation i candidate t c l.reservations)
          v.numbered
        ∙ ground arith;
    ids_unique =
        rw (ids-append l.reservations (new_reservation i candidate t c l.reservations))
          (unique-append (ids l.reservations) fresh_id ∙ ground (arith, v.ids_unique));
    keys_differ =
        keys_unique-append l.reservations (new_reservation i candidate t c l.reservations)
        ∙ ground (arith, v.keys_differ);
    within = w;
  }

  pub can_reserve_iff : (can_reserve l t c candidate ≡ true) ↔ (
      (any (is_for candidate t) l.reservations ≡ false) × WithinLimits (extended i l candidate t c))
  unfolding can_reserve
  can_reserve_iff = (
    λ h. (ground arith, (fits_iff (extended i l candidate t c)).0 (appended ∙ ground arith)),
    λ (k, w). ground (arith, sym appended ∙ (fits_iff (extended i l candidate t c)).1 w),
  )
    where
      appended :
          fits l.limits (usage (extended i l candidate t c).reservations) none
          ≡ fits l.limits (usage l.reservations) (some (t, c))
      appended =
          fits-append l.limits l.reservations (new_reservation i candidate t c l.reservations)

  -- `reserve` returns the extended ledger exactly when the candidate has no reservation for the tier
  -- yet and the limits hold with the new cost and world added, provided that the ledger is valid and
  -- the digest of the new reservation is not one of those in the ledger.
  pub reserve_iff :
      IsValid l
      → contains (ids l.reservations) fresh_id ≡ false
      → (reserve i l candidate t c ≡ ok (extended i l candidate t c)) ↔ (
          (any (is_for candidate t) l.reservations ≡ false)
          × WithinLimits (extended i l candidate t c))
  unfolding reserve validate_reservation
  reserve_iff v f = (
    λ h. can_reserve_iff.0 (reserve_inv i l (extended i l candidate t c) candidate t c h).1,
    λ (k, w). ground (
      arith,
      can_reserve_iff.1 (k, w),
      IsValid-validate_ledger (extended i l candidate t c) (extended-IsValid v f k w),
    ),
  )

-- The ledger after is the ledger before with one reservation at its end, and each total has grown by
-- the cost of that reservation.
pub record Spent (l l' : BudgetLedger) (candidate : ℕ) (t : WorldTier) (c : PromotionCost)
    (r : BudgetReservation) : Type 0 where
  pub appended : l' ≡ record l { reservations = l.reservations ++ r ∷ [] }
  pub for_candidate : r.candidate_id ≡ candidate
  pub for_tier : r.target_tier ≡ t
  pub next_sequence : r.sequence ≡ length l.reservations + 1
  pub llm_spent : (usage l'.reservations).llm_calls ≡ (usage l.reservations).llm_calls + c.llm_calls
  pub target_spent :
      (usage l'.reservations).target_requests
      ≡ (usage l.reservations).target_requests + c.target_requests
  pub write_spent :
      (usage l'.reservations).write_requests
      ≡ (usage l.reservations).write_requests + c.write_requests
  pub cpu_spent :
      (usage l'.reservations).cpu_seconds ≡ (usage l.reservations).cpu_seconds + c.cpu_seconds
  pub worlds_counted :
      (k : WorldTier)
      → count_of k l'.reservations ≡ count_of k l.reservations + one_if (is_tier t k)

-- A reservation that is granted spends exactly its cost, leaves the history as it was, and leaves a
-- valid ledger.
pub reserve_spends :
    (i : ReservationId) (l l' : BudgetLedger) (candidate : ℕ) (t : WorldTier) (c : PromotionCost)
    → reserve i l candidate t c ≡ ok l'
    → Spent l l' candidate t c (new_reservation i candidate t c l.reservations) × IsValid l'
unfolding usage
reserve_spends i l l' candidate t c h =
    let (e, _, v) = reserve_inv i l l' candidate t c h in
    let r : BudgetReservation = new_reservation i candidate t c l.reservations in
    (
      record {
        appended = e;
        for_candidate = refl;
        for_tier = refl;
        next_sequence = refl;
        llm_spent = rw e (sum_of-append _ l.reservations r);
        target_spent = rw e (sum_of-append _ l.reservations r);
        write_spent = rw e (sum_of-append _ l.reservations r);
        cpu_spent = rw e (sum_of-append _ l.reservations r);
        worlds_counted = λ k. rw e (count_of-append k l.reservations r);
      },
      validate_ledger-IsValid l' l' v,
    )
