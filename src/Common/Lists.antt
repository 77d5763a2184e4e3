-- ===== src/Common/Lists.antt =====
-- Lists measured by native numbers, membership, and Python's set operations on tuples.
use Prim.Native.Nat.{ℕ, suc, ◌+◌}
use mathlib.Core.Path.{◌≡◌, refl, ap, ◌∙◌}
use mathlib.Core.Logic.{◌↔◌, ◌⊎◌, inl, inr}
use mathlib.Core.Bool.{Bool, true, false, not, ◌&&◌, ◌||◌}
use mathlib.Core.List.{List, [], ◌∷◌, ◌++◌}
use native.Mathlib.Omega.{arith}
use stateweaver.Common.Tests.{◌==◌}

module _ {ℓ} {A : Type ℓ} where
  abbrev pub length : List A → ℕ
  length [] = 0
  length (x ∷ xs) = suc (length xs)

  pub length-append : (xs ys : List A) → length (xs ++ ys) ≡ length xs + length ys
  length-append [] ys = omega arith
  length-append (x ∷ xs) ys = omega (arith, length-append xs ys)

  abbrev pub All {κ} : (A → Type κ) → List A → Type κ
  All P [] = Unit
  All P (x ∷ xs) = P x × All P xs

  abbrev pub any : (A → Bool) → List A → Bool
  any p [] = false
  any p (x ∷ xs) = p x || any p xs

  abbrev pub all : (A → Bool) → List A → Bool
  all p [] = true
  all p (x ∷ xs) = p x && all p xs

  pub List-cases : (xs : List A) → (xs ≡ []) ⊎ ((x : A) × (ys : List A) × (xs ≡ x ∷ ys))
  List-cases [] = inl refl
  List-cases (x ∷ xs) = inr (x, xs, refl)

  abbrev pub is_empty : List A → Bool
  is_empty [] = true
  is_empty (x ∷ xs) = false

module _ {A : Type 0} where
  -- `a` occurs in the list.
  abbrev pub In : A → List A → Type 0
  In a [] = ⊥
  In a (x ∷ xs) = (a ≡ x) ⊎ In a xs

  -- No element occurs twice.
  abbrev pub Distinct : List A → Type 0
  Distinct [] = Unit
  Distinct (x ∷ xs) = (¬ (In x xs)) × Distinct xs

  pub All-at {κ} : (P : A → Type κ) (a : A) (xs : List A) → All P xs → In a xs → P a
  All-at P a [] h i = absurd i
  All-at P a (x ∷ xs) h (inl e) = rw e h.0
  All-at P a (x ∷ xs) h (inr i) = All-at P a xs h.1 i

pub In-append : {A : Type 0} (a : A) (xs ys : List A) → In a (xs ++ ys) → In a xs ⊎ In a ys
In-append a [] ys i = inr i
In-append a (x ∷ xs) ys (inl e) = inl (inl e)
In-append a (x ∷ xs) ys (inr i) = elim (In-append a xs ys i) [ inl j ↦ inl (inr j) | inr j ↦ inr j ]

pub append-In : {A : Type 0} (a : A) (xs ys : List A) → In a xs ⊎ In a ys → In a (xs ++ ys)
append-In a [] ys (inl i) = absurd i
append-In a [] ys (inr i) = i
append-In a (x ∷ xs) ys (inl (inl e)) = inl e
append-In a (x ∷ xs) ys (inl (inr i)) = inr (append-In a xs ys (inl i))
append-In a (x ∷ xs) ys (inr i) = inr (append-In a xs ys (inr i))

pub all-In :
    {A : Type 0} (p : A → Bool) (xs : List A) (a : A) → all p xs ≡ true → In a xs → p a ≡ true
all-In p [] a e i = absurd i
all-In p (x ∷ xs) a e (inl q) = ap p q ∙ ground arith
all-In p (x ∷ xs) a e (inr i) = all-In p xs a (ground arith) i

-- A string is a list of code points.
abbrev pub Text : Type 0
Text = List ℕ

unfoldable pub text_eq : Text → Text → Bool
text_eq [] [] = true
text_eq [] (d ∷ ds) = false
text_eq (c ∷ cs) [] = false
text_eq (c ∷ cs) (d ∷ ds) = c == d && text_eq cs ds

-- Python's `x in xs`.
unfoldable pub contains : List ℕ → ℕ → Bool
contains [] a = false
contains (x ∷ xs) a = a == x || contains xs a

-- `len(xs) == len(set(xs))`.
unfoldable pub unique : List ℕ → Bool
unfolding contains
unique [] = true
unique (x ∷ xs) = not (contains xs x) && unique xs

pub contains_iff : (xs : List ℕ) (a : ℕ) → (contains xs a ≡ true) ↔ In a xs
unfolding contains
contains_iff [] a = ground arith
contains_iff (x ∷ xs) a = ground (arith, contains_iff xs a)

pub unique_iff : (xs : List ℕ) → (unique xs ≡ true) ↔ Distinct xs
unfolding unique
unique_iff [] = ground arith
unique_iff (x ∷ xs) = ground (arith, contains_iff xs x, unique_iff xs)
