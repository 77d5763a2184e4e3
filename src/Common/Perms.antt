-- ===== src/Common/Perms.antt =====
-- Membership and distinctness along a permutation.
use mathlib.Core.Path.{◌≡◌, refl, sym, ap, subst, ◌∙◌}
use mathlib.Core.Logic.{inl, inr}
use mathlib.Core.List.{List, map, Permᴰ}
use mathlib.Core.List.Permᴰ
use Prim.Native.Nat.{suc}
use stateweaver.Common.Lists.{In, Distinct, length}

module _ {A : Type 0} where
  pub In-Perm : (a : A) {xs ys : List A} → Permᴰ xs ys → In a xs → In a ys
  In-Perm a Permᴰ.nil i = i
  In-Perm a (Permᴰ.cons e p) (inl q) = inl (q ∙ e)
  In-Perm a (Permᴰ.cons e p) (inr i) = inr (In-Perm a p i)
  In-Perm a (Permᴰ.swap e f) (inl q) = inr (inl (q ∙ e))
  In-Perm a (Permᴰ.swap e f) (inr (inl q)) = inl (q ∙ f)
  In-Perm a (Permᴰ.swap e f) (inr (inr i)) = inr (inr i)
  In-Perm a (Permᴰ.trans p r) i = In-Perm a r (In-Perm a p i)

  pub Distinct-Perm : {xs ys : List A} → Permᴰ xs ys → Distinct xs → Distinct ys
  Distinct-Perm Permᴰ.nil d = d
  Distinct-Perm (Permᴰ.cons {l₁} e p) (n, d) =
      (λ i. n (subst (λ z. In z l₁) (sym e) (In-Perm _ (Permᴰ.symm p) i)), Distinct-Perm p d)
  Distinct-Perm (Permᴰ.swap {a} {b} {a'} {b'} {l} e f) (n, (m, d)) = (
    λ i. elim i [ inl q ↦ n (inl (e ∙ sym q ∙ sym f)) | inr j ↦ m (subst (λ z. In z l) (sym f) j) ],
    (λ j. n (inr (subst (λ z. In z l) (sym e) j)), d),
  )
  Distinct-Perm (Permᴰ.trans p r) d = Distinct-Perm r (Distinct-Perm p d)

  pub length-Perm : {xs ys : List A} → Permᴰ xs ys → length xs ≡ length ys
  length-Perm Permᴰ.nil = refl
  length-Perm (Permᴰ.cons e p) = ap suc (length-Perm p)
  length-Perm (Permᴰ.swap e f) = refl
  length-Perm (Permᴰ.trans p r) = length-Perm p ∙ length-Perm r

pub map-Perm :
    {A B : Type 0} (f : A → B) {xs ys : List A} → Permᴰ xs ys → Permᴰ (map f xs) (map f ys)
map-Perm f Permᴰ.nil = Permᴰ.nil
map-Perm f (Permᴰ.cons e p) = Permᴰ.cons (ap f e) (map-Perm f p)
map-Perm f (Permᴰ.swap e g) = Permᴰ.swap (ap f e) (ap f g)
map-Perm f (Permᴰ.trans p r) = Permᴰ.trans (map-Perm f p) (map-Perm f r)
