-- ===== src/Workflow/Trail.antt =====
-- A trail of what the allocator handed out and took back, and the balance between the trail and what a
-- workflow tracks.
use stateweaver.Common.{
  Bool, ◌||◌, ℕ, ◌+◌, ◌≡◌, refl, false, none, List, [], ◌∷◌, ◌++◌, arith, same, any, contains, inl,
  inr, ◌==◌, Bool-cases,
}
use stateweaver.Common.Dict.{Dict, lookup, insert, lookup-insert}
use stateweaver.Replay.Ports.{Answer, returned}
use stateweaver.Search.Budget.{one_if}
use stateweaver.Workflow.Models.{AllocatedWorld, AllocatedWorld-discrete, WorldPorts}
use stateweaver.Workflow.Relations.{keys}
use stateweaver.Workflow.State.{
  values, Accepted, held, has_id, has_identity, find_accepted, remove_accepted, collided_worlds,
}

pub record Trail (E : Type 0) : Type 0 where
  pub outside : E
  pub obtained : List AllocatedWorld
  pub given_back : List AllocatedWorld

module _ {E : Type 0} where
  abbrev pub obtains : Answer AllocatedWorld → E → Trail E → Trail E
  obtains (returned a) e t = record t { outside = e; obtained = a ∷ t.obtained }
  obtains _ e t = record t { outside = e }

  abbrev pub gives_back : AllocatedWorld → Answer (Unit {0}) → E → Trail E → Trail E
  gives_back a (returned _) e t = record t { outside = e; given_back = a ∷ t.given_back }
  gives_back a _ e t = record t { outside = e }

  -- The same ports, which write the trail.
  abbrev pub recording : WorldPorts E → WorldPorts (Trail E)
  recording ports = record {
    allocate = λ q t. let (x, e) = ports.allocate q t.outside in (x, obtains x e t);
    release = λ a t. let (x, e) = ports.release a t.outside in (x, gives_back a x e t);
    capture = λ q a t. let (x, e) = ports.capture q a t.outside in (x, record t { outside = e });
  }

-- How often a world occurs in a list.
abbrev pub times : AllocatedWorld → List AllocatedWorld → ℕ
times a [] = 0
times a (x ∷ xs) = one_if (same AllocatedWorld-discrete x a) + times a xs

pub times-append :
    (a : AllocatedWorld) (xs ys : List AllocatedWorld)
    → times a (xs ++ ys) ≡ times a xs + times a ys
times-append a [] ys = omega arith
times-append a (x ∷ xs) ys = omega (arith, times-append a xs ys)

-- The keys of a dictionary differ.
abbrev pub NoTwice : Dict AllocatedWorld → Type 0
NoTwice [] = Unit
NoTwice ((k, v) ∷ d) = (lookup k d ≡ none) × NoTwice d

pub times-insert :
    (a : AllocatedWorld) (k : ℕ) (v : AllocatedWorld) (d : Dict AllocatedWorld)
    → lookup k d ≡ none
    → times a (values (insert k v d))
      ≡ one_if (same AllocatedWorld-discrete v a) + times a (values d)
unfolding lookup insert
times-insert a k v [] h = omega arith
times-insert a k v ((j, w) ∷ d) h = ground (arith, times-insert a k v d)

pub insert-NoTwice :
    (k : ℕ) (v : AllocatedWorld) (d : Dict AllocatedWorld)
    → lookup k d ≡ none
    → NoTwice d
    → NoTwice (insert k v d)
unfolding lookup insert
insert-NoTwice k v [] h n = (refl, tt)
insert-NoTwice k v ((j, w) ∷ d) h n = elim (Bool-cases (j == k)) [
  | inl e ↦ absurd (ground arith)
  | inr e ↦ rw e (ground (arith, lookup-insert j k v d), insert-NoTwice k v d (ground arith) n.1)
]

pub any-insert :
    (p : AllocatedWorld → Bool) (k : ℕ) (v : AllocatedWorld) (d : Dict AllocatedWorld)
    → any p (values d) ≡ false
    → p v ≡ false
    → any p (values (insert k v d)) ≡ false
unfolding insert
any-insert p k v [] h n = ground arith
any-insert p k v ((j, w) ∷ d) h n = ground (arith, any-insert p k v d)

-- The keys of a dictionary differ, and so do the sibling identities of its worlds.
abbrev pub IsSeparate : Dict AllocatedWorld → Type 0
IsSeparate [] = Unit
IsSeparate ((k, v) ∷ d) =
    (lookup k d ≡ none) × (any (has_identity v.sibling_identity) (values d) ≡ false) × IsSeparate d

pub insert-IsSeparate :
    (k : ℕ) (v : AllocatedWorld) (d : Dict AllocatedWorld)
    → lookup k d ≡ none
    → any (has_identity v.sibling_identity) (values d) ≡ false
    → IsSeparate d
    → IsSeparate (insert k v d)
unfolding lookup insert
insert-IsSeparate k v [] h q n = (refl, refl, tt)
insert-IsSeparate k v ((j, w) ∷ d) h q n = elim (Bool-cases (j == k)) [
  | inl e ↦ absurd (ground arith)
  | inr e ↦ rw e (
    ground (arith, lookup-insert j k v d),
    any-insert (has_identity w.sibling_identity) k v d n.1 (ground arith),
    insert-IsSeparate k v d (ground arith) (ground arith) n.2,
  )
]

-- The other world has the identifier or the sibling identity.
abbrev pub clashes : AllocatedWorld → AllocatedWorld → Bool
clashes a b = has_id a.allocation_id b || has_identity a.sibling_identity b

-- Allocations that may be filed in a dictionary: their identifiers and sibling identities are new to it and
-- differ.
abbrev pub IsFresh : Dict AllocatedWorld → List Accepted → Type 0
IsFresh d [] = Unit
IsFresh d (x ∷ xs) =
    (lookup x.allocation.allocation_id d ≡ none)
    × (any (has_identity x.allocation.sibling_identity) (values d) ≡ false)
    × (any (clashes x.allocation) (held xs) ≡ false)
    × IsFresh d xs

any-held-append :
    (p : AllocatedWorld → Bool) (acc : List Accepted) (x : Accepted)
    → any p (held acc) ≡ false
    → p x.allocation ≡ false
    → any p (held (acc ++ x ∷ [])) ≡ false
any-held-append p [] x h n = ground arith
any-held-append p (y ∷ acc) x h n = ground (arith, any-held-append p acc x)

pub append-IsFresh :
    (d : Dict AllocatedWorld) (acc : List Accepted) (x : Accepted)
    → IsFresh d acc
    → lookup x.allocation.allocation_id d ≡ none
    → any (has_identity x.allocation.sibling_identity) (values d) ≡ false
    → any (clashes x.allocation) (held acc) ≡ false
    → IsFresh d (acc ++ x ∷ [])
append-IsFresh d [] x f l q n = (l, q, refl, tt)
append-IsFresh d (y ∷ acc) x f l q n = (
  f.0,
  f.1,
  any-held-append (clashes y.allocation) acc x f.2 (ground arith),
  append-IsFresh d acc x f.3 l q (ground arith),
)

any-held-remove :
    (p : AllocatedWorld → Bool) (k : ℕ) (acc : List Accepted)
    → any p (held acc) ≡ false
    → any p (held (remove_accepted k acc)) ≡ false
unfolding remove_accepted
any-held-remove p k [] h = refl
any-held-remove p k (x ∷ acc) h = ground (arith, any-held-remove p k acc)

pub remove-IsFresh :
    (d : Dict AllocatedWorld) (k : ℕ) (acc : List Accepted)
    → IsFresh d acc
    → IsFresh d (remove_accepted k acc)
unfolding remove_accepted
remove-IsFresh d k [] f = tt
remove-IsFresh d k (x ∷ acc) f = elim (Bool-cases (has_id k x.allocation)) [
  | inl e ↦ rw e f.3
  | inr e ↦
      rw e (f.0, f.1, any-held-remove (clashes x.allocation) k acc f.2, remove-IsFresh d k acc f.3)
]

-- After a world is filed, the others may still be.
pub insert-IsFresh :
    (d : Dict AllocatedWorld) (v : AllocatedWorld) (acc : List Accepted)
    → IsFresh d acc
    → any (clashes v) (held acc) ≡ false
    → IsFresh (insert v.allocation_id v d) acc
insert-IsFresh d v [] f n = tt
insert-IsFresh d v (x ∷ acc) f n = (
  ground (arith, lookup-insert x.allocation.allocation_id v.allocation_id v d),
  any-insert (has_identity x.allocation.sibling_identity) v.allocation_id v d f.1 (ground arith),
  f.2,
  insert-IsFresh d v acc f.3 (ground arith),
)

-- Two tests that fail throughout.
pub any-clashes :
    (a : AllocatedWorld) (xs : List AllocatedWorld)
    → any (has_id a.allocation_id) xs ≡ false
    → any (has_identity a.sibling_identity) xs ≡ false
    → any (clashes a) xs ≡ false
any-clashes a [] h q = refl
any-clashes a (x ∷ xs) h q = ground (arith, any-clashes a xs)

-- The identities that a workflow knows cover those of the worlds.
abbrev pub Covers : List ℕ → List AllocatedWorld → Type 0
Covers known xs = (k : ℕ) → contains known k ≡ false → any (has_identity k) xs ≡ false

pub insert-Covers :
    (known : List ℕ) (v : AllocatedWorld) (d : Dict AllocatedWorld)
    → Covers known (values d)
    → Covers (v.sibling_identity ∷ known) (values (insert v.allocation_id v d))
unfolding contains
insert-Covers known v d c k h =
    any-insert (has_identity k) v.allocation_id v d (c k (ground arith)) (ground arith)

pub times-remove :
    (a : AllocatedWorld) (k : ℕ) (acc : List Accepted)
    → times a (collided_worlds (find_accepted k acc)) + times a (held (remove_accepted k acc))
      ≡ times a (held acc)
unfolding find_accepted remove_accepted
times-remove a k [] = omega arith
times-remove a k (x ∷ acc) = ground (arith, times-remove a k acc)

pub lookup-keys :
    (k : ℕ) (d : Dict AllocatedWorld) → contains (keys d) k ≡ false → lookup k d ≡ none
unfolding lookup contains
lookup-keys k [] h = refl
lookup-keys k ((j, w) ∷ d) h = ground (arith, lookup-keys k d)
