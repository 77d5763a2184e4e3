-- ===== src/Workflow/Closing/Released.antt =====
-- `close` of orchestrator.py on a workflow that tracks its worlds.
use stateweaver.Common.{
  map, contains, ℕ, suc, ◌+◌, ◌≤◌, ◌≡◌, refl, false, none, List, [], ◌∷◌, ◌++◌, arith, All, any, ap,
}
use stateweaver.Common.Dict.{Dict, lookup}
use stateweaver.Replay.Ports.{returned}
use stateweaver.Search.Budget.{ReservationId}
use stateweaver.Workflow.Models.{AllocatedWorld, WorldPorts}
use stateweaver.Workflow.State.{has_identity, Workflow, values}
use stateweaver.Workflow.Allocation.{goes_on}
use stateweaver.Workflow.Closing.{
  is_active, is_cleanup, Tagged, Remaining, replace_retained, tag, tagged, close_all, close,
}
use stateweaver.Workflow.Trail.{IsSeparate, Trail, recording, times, NoTwice}
use stateweaver.Workflow.Sound.{IsSound}
use stateweaver.Workflow.Closing.Loop.{worlds, same_slot, IsApart, IsBelow, close_all-IsClosing}

abbrev nothing_left : Remaining
nothing_left = record { active = []; cleanup = [] }

active_slots :
    (k : ℕ) (b : AllocatedWorld) (d : Dict AllocatedWorld) (ts : List Tagged)
    → lookup k d ≡ none
    → any (has_identity b.sibling_identity) (values d) ≡ false
    → any (same_slot (is_active, k, b)) ts ≡ false
    → any (same_slot (is_active, k, b)) (tag is_active d ++ ts) ≡ false
unfolding lookup
active_slots k b [] ts l q h = h
active_slots k b ((j, a) ∷ d) ts l q h = ground (arith, active_slots k b d ts)

cleanup_slots :
    (k : ℕ) (b : AllocatedWorld) (d : Dict AllocatedWorld)
    → lookup k d ≡ none
    → any (same_slot (is_cleanup, k, b)) (tag is_cleanup d) ≡ false
unfolding lookup
cleanup_slots k b [] l = refl
cleanup_slots k b ((j, a) ∷ d) l = ground (arith, cleanup_slots k b d)

other_slots :
    (k : ℕ) (b : AllocatedWorld) (d : Dict AllocatedWorld)
    → any (same_slot (is_active, k, b)) (tag is_cleanup d) ≡ false
other_slots k b [] = refl
other_slots k b ((j, a) ∷ d) = other_slots k b d

cleanup-IsApart : (d : Dict AllocatedWorld) → NoTwice d → IsApart nothing_left (tag is_cleanup d)
unfolding lookup
cleanup-IsApart [] n = tt
cleanup-IsApart ((k, a) ∷ d) n = (refl, cleanup_slots k a d n.0, cleanup-IsApart d n.1)

tagged-IsApart :
    (d e : Dict AllocatedWorld)
    → IsSeparate d
    → NoTwice e
    → IsApart nothing_left (tag is_active d ++ tag is_cleanup e)
unfolding lookup
tagged-IsApart [] e n o = cleanup-IsApart e o
tagged-IsApart ((k, a) ∷ d) e n o = (
  (refl, refl),
  active_slots k a d (tag is_cleanup e) n.0 n.1 (other_slots k a e),
  tagged-IsApart d e n.2 o,
)

cleanup-IsBelow :
    (n : ℕ) (d : Dict AllocatedWorld)
    → ((k : ℕ) → n ≤ k → lookup k d ≡ none)
    → NoTwice d
    → All (IsBelow n) (tag is_cleanup d)
unfolding lookup
cleanup-IsBelow n [] new apart = tt
cleanup-IsBelow n ((k, a) ∷ d) new apart =
    (ground (arith, new k), cleanup-IsBelow n d (λ j le. ground (arith, new j, apart.0)) apart.1)

tagged-IsBelow :
    (n : ℕ) (d e : Dict AllocatedWorld)
    → All (IsBelow n) (tag is_cleanup e)
    → All (IsBelow n) (tag is_active d ++ tag is_cleanup e)
tagged-IsBelow n [] e b = b
tagged-IsBelow n ((k, a) ∷ d) e b = (tt, tagged-IsBelow n d e b)

times-tagged :
    (a : AllocatedWorld) (d e : Dict AllocatedWorld)
    → times a (worlds (tag is_active d ++ tag is_cleanup e))
      ≡ times a (values d) + times a (values e)
times-tagged a [] [] = omega arith
times-tagged a [] ((k, b) ∷ e) = omega (arith, times-tagged a [] e)
times-tagged a ((k, b) ∷ d) e = omega (arith, times-tagged a d e)

known_identities :
    (k : ℕ) (xs ys : List AllocatedWorld)
    → contains (map (λ a. a.sibling_identity) (xs ++ ys)) k ≡ false
    → any (has_identity k) xs ≡ false
unfolding contains
known_identities k [] ys h = refl
known_identities k (x ∷ xs) ys h = ground (arith, known_identities k xs ys)

module _ {E : Type 0} (ports : WorldPorts E) where
  -- `close` keeps the workflow sound, however the releases are answered.
  pub close-IsSound :
      (i : ReservationId) (s : Workflow) (t : Trail E)
      → IsSound i s t
      → let (run, s', t') = close (recording ports) s t in IsSound i s' t'
  unfolding close replace_retained lookup
  close-IsSound i s t sound =
      let k = sound.tracked in
      let m = (close_all (recording ports) (tagged s) nothing_left t).1 in
      let c = close_all-IsClosing (suc s.cleanup_token) ports (tagged s) nothing_left t (record {
        active_apart = tt;
        cleanup_apart = tt;
        tokens_new = λ j le. refl;
        apart = tagged-IsApart s.active s.cleanup_pending k.active_apart k.cleanup_apart;
        below =
            tagged-IsBelow (suc s.cleanup_token) s.active s.cleanup_pending (
              cleanup-IsBelow (suc s.cleanup_token) s.cleanup_pending k.tokens_new k.cleanup_apart);
        balanced = λ a. omega (arith, k.balanced a, times-tagged a s.active s.cleanup_pending);
      }) in
      record {
        ledger_valid = sound.ledger_valid;
        ledger_bound = sound.ledger_bound;
        tracked = record {
          active_apart = c.active_apart;
          known = λ j h. known_identities j (values m.active) (values m.cleanup) h;
          cleanup_apart = c.cleanup_apart;
          tokens_new = c.tokens_new;
          balanced = λ a. omega (arith, c.balanced a);
        };
      }

  close_all_answered :
      (ts : List Tagged) (m : Remaining) (t : Trail E)
      → ((a : AllocatedWorld) (e : E) → (ports.release a e).0 ≡ returned tt)
      → let (run, m', t') = close_all (recording ports) ts m t in (run ≡ goes_on) × (m' ≡ m)
  unfolding close_all
  close_all_answered [] m t yields = (refl, refl)
  close_all_answered (x ∷ ts) m t yields =
      rw (yields x.2 t.outside, close_all, yields x.2 t.outside) (close_all_answered ts m _ yields)

  -- If every release is answered, then a `close` of a sound workflow runs to its end and leaves nothing
  -- tracked, and every world that was ever obtained has been released, as often as it was obtained.
  pub close_empties :
      (i : ReservationId) (s : Workflow) (t : Trail E)
      → IsSound i s t
      → ((a : AllocatedWorld) (e : E) → (ports.release a e).0 ≡ returned tt)
      → let (run, s', t') = close (recording ports) s t in
        (run ≡ goes_on)
        × (s'.active ≡ [])
        × (s'.cleanup_pending ≡ [])
        × ((a : AllocatedWorld) → times a t'.obtained ≡ times a t'.given_back)
  close_empties i s t sound yields =
      let (done, left) = close_all_answered (tagged s) nothing_left t yields in
      let k = (close-IsSound i s t sound).tracked in
      unfold close replace_retained in
      (
        done,
        ap (λ (m : Remaining). m.active) left,
        ap (λ (m : Remaining). m.cleanup) left,
        λ a. omega (
          arith,
          k.balanced a,
          ap (λ (m : Remaining). times a (values m.active)) left,
          ap (λ (m : Remaining). times a (values m.cleanup)) left,
        ),
      )
