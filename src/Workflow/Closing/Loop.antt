-- ===== src/Workflow/Closing/Loop.antt =====
-- The loop of `close` of orchestrator.py: the entries that were visited and those that are left.
use stateweaver.Common.{
  ◌||◌, ℕ, ◌+◌, ◌≤◌, ◌<◌, ◌≡◌, Bool, false, none, List, [], ◌∷◌, map, arith, All, any, ◌==◌, inl,
  inr,
}
use stateweaver.Common.Dict.{lookup, lookup-insert}
use stateweaver.Replay.Steps.Recorded.{Answer-cases}
use stateweaver.Workflow.Models.{AllocatedWorld, WorldPorts}
use stateweaver.Workflow.State.{values, has_identity}
use stateweaver.Workflow.Closing.{
  is_active, is_cleanup, Tagged, Remaining, retain_close_item, retain_items, close_all,
}
use stateweaver.Workflow.Trail.{
  IsSeparate, insert-IsSeparate, any-insert, Trail, recording, times, times-insert, NoTwice,
  insert-NoTwice,
}

abbrev pub worlds : List Tagged → List AllocatedWorld
worlds ts = map (λ t. t.2) ts

-- The place of an entry is free, and so is the sibling identity of an active world.
abbrev pub IsClear : Tagged → Remaining → Type 0
IsClear (is_active, k, a) m =
    (lookup k m.active ≡ none) × (any (has_identity a.sibling_identity) (values m.active) ≡ false)
IsClear (is_cleanup, k, a) m = lookup k m.cleanup ≡ none

abbrev pub same_slot : Tagged → Tagged → Bool
same_slot (is_active, k, a) (is_active, j, b) = k == j || has_identity a.sibling_identity b
same_slot (is_cleanup, k, a) (is_cleanup, j, b) = k == j
same_slot (is_active, k, a) (is_cleanup, j, b) = false
same_slot (is_cleanup, k, a) (is_active, j, b) = false

abbrev pub IsApart : Remaining → List Tagged → Type 0
IsApart m [] = Unit
IsApart m (t ∷ ts) = IsClear t m × (any (same_slot t) ts ≡ false) × IsApart m ts

abbrev pub IsBelow : ℕ → Tagged → Type 0
IsBelow n (is_active, k, a) = Unit
IsBelow n (is_cleanup, k, a) = k < n

retain-IsClear :
    (t u : Tagged) (m : Remaining)
    → same_slot t u ≡ false
    → IsClear u m
    → IsClear u (retain_close_item t m)
unfolding retain_close_item
retain-IsClear (is_active, k, a) (is_active, j, b) m n c = (
  ground (arith, lookup-insert j k a m.active),
  any-insert (has_identity b.sibling_identity) k a m.active c.1 (ground arith),
)
retain-IsClear (is_cleanup, k, a) (is_cleanup, j, b) m n c =
    ground (arith, lookup-insert j k a m.cleanup)
retain-IsClear (is_active, k, a) (is_cleanup, j, b) m n c = c
retain-IsClear (is_cleanup, k, a) (is_active, j, b) m n c = c

retain-IsApart :
    (t : Tagged) (ts : List Tagged) (m : Remaining)
    → any (same_slot t) ts ≡ false
    → IsApart m ts
    → IsApart (retain_close_item t m) ts
retain-IsApart t [] m n p = tt
retain-IsApart t (u ∷ ts) m n p =
    (retain-IsClear t u m (ground arith) p.0, p.1, retain-IsApart t ts m (ground arith) p.2)

module _ {E : Type 0} (n : ℕ) where
  -- In the loop of `close`: what was obtained is released, retained, or still to be visited.
  pub record IsClosing (m : Remaining) (ts : List Tagged) (t : Trail E) : Type 0 where
    pub active_apart : IsSeparate m.active
    pub cleanup_apart : NoTwice m.cleanup
    pub tokens_new : (k : ℕ) → n ≤ k → lookup k m.cleanup ≡ none
    pub apart : IsApart m ts
    pub below : All (IsBelow n) ts
    pub balanced :
        (a : AllocatedWorld)
        → times a t.obtained
          ≡ times a t.given_back
            + (times a (values m.active) + times a (values m.cleanup) + times a (worlds ts))

  retain-IsClosing :
      (x : Tagged) (ts : List Tagged) (m : Remaining) (t : Trail E)
      → IsClosing m (x ∷ ts) t
      → IsClosing (retain_close_item x m) ts t
  unfolding retain_close_item
  retain-IsClosing (is_active, k, b) ts m t c = record {
    active_apart = insert-IsSeparate k b m.active c.apart.0.0 c.apart.0.1 c.active_apart;
    cleanup_apart = c.cleanup_apart;
    tokens_new = c.tokens_new;
    apart = retain-IsApart (is_active, k, b) ts m c.apart.1 c.apart.2;
    below = c.below.1;
    balanced = λ a. omega (arith, c.balanced a, times-insert a k b m.active c.apart.0.0);
  }
  retain-IsClosing (is_cleanup, k, b) ts m t c = record {
    active_apart = c.active_apart;
    cleanup_apart = insert-NoTwice k b m.cleanup c.apart.0 c.cleanup_apart;
    tokens_new = λ j le. ground (arith, c.below.0, lookup-insert j k b m.cleanup, c.tokens_new j);
    apart = retain-IsApart (is_cleanup, k, b) ts m c.apart.1 c.apart.2;
    below = c.below.1;
    balanced = λ a. omega (arith, c.balanced a, times-insert a k b m.cleanup c.apart.0);
  }

  retain_items-IsClosing :
      (ts : List Tagged) (m : Remaining) (t : Trail E)
      → IsClosing m ts t
      → IsClosing (retain_items ts m) [] t
  unfolding retain_items
  retain_items-IsClosing [] m t c = c
  retain_items-IsClosing (x ∷ ts) m t c =
      retain_items-IsClosing ts (retain_close_item x m) t (retain-IsClosing x ts m t c)

  moved-IsClosing :
      (ts : List Tagged) (m : Remaining) (t : Trail E) (e : E)
      → IsClosing m ts t
      → IsClosing m ts (record t { outside = e })
  moved-IsClosing ts m t e c = record {
    active_apart = c.active_apart;
    cleanup_apart = c.cleanup_apart;
    tokens_new = c.tokens_new;
    apart = c.apart;
    below = c.below;
    balanced = c.balanced;
  }

  released-IsClosing :
      (x : Tagged) (ts : List Tagged) (m : Remaining) (t : Trail E) (e : E)
      → IsClosing m (x ∷ ts) t
      → IsClosing m ts (record t { outside = e; given_back = x.2 ∷ t.given_back })
  released-IsClosing x ts m t e c = record {
    active_apart = c.active_apart;
    cleanup_apart = c.cleanup_apart;
    tokens_new = c.tokens_new;
    apart = c.apart.2;
    below = c.below.1;
    balanced = λ a. omega (arith, c.balanced a);
  }

  pub close_all-IsClosing :
      (ports : WorldPorts E) (ts : List Tagged) (m : Remaining) (t : Trail E)
      → IsClosing m ts t
      → let (run, m', t') = close_all (recording ports) ts m t in IsClosing m' [] t'
  unfolding close_all
  close_all-IsClosing ports [] m t c = c
  close_all-IsClosing ports (x ∷ ts) m t c =
      let e = (ports.release x.2 t.outside).1 in
      let moved = moved-IsClosing (x ∷ ts) m t e c in
      let more = close_all-IsClosing ports ts in
      elim (Answer-cases (ports.release x.2 t.outside).0) [
        | inl (u, q) ↦ rw (q, close_all, q) (more m _ (released-IsClosing x ts m t e c))
        | inr (inl q) ↦ rw (q, close_all, q) (more _ _ (retain-IsClosing x ts m _ moved))
        | inr (inr (inl q)) ↦ rw (q, close_all, q) (retain_items-IsClosing (x ∷ ts) m _ moved)
        | inr (inr (inr (k, q))) ↦ rw (q, close_all, q) (more _ _ (retain-IsClosing x ts m _ moved))
      ]
