-- ===== src/Compiler/Cycles/Walks.antt =====
-- The depth-first search over any graph: what it finds is a cycle, and what it clears is on none.
use stateweaver.Common.{
  ℕ, zero, suc, ◌+◌, ◌≤◌, ◌<◌, ◌≡◌, ◌≢◌, refl, sym, subst, ◌⊎◌, inl, inr, List, [], ◌∷◌, arith,
  length, In, Distinct, contains, contains_iff, Bool-cases, ◌==◌, if◌then◌else◌,
}
use stateweaver.Compiler.Cycles.{Visit, cyclic, clear, too_deep, visit_all, visit}

pub Visit-cases : (x : Visit) → (x ≡ cyclic) ⊎ ((v : List ℕ) × (x ≡ clear v)) ⊎ (x ≡ too_deep)
Visit-cases cyclic = inl refl
Visit-cases (clear v) = inr (inl (v, refl))
Visit-cases too_deep = inr (inr refl)

-- A list without repetition is no longer than one that contains it.
without : ℕ → List ℕ → List ℕ
without k [] = []
without k (x ∷ xs) = let rest = without k xs in if x == k then xs else x ∷ rest

length-without : (k : ℕ) (xs : List ℕ) → In k xs → suc (length (without k xs)) ≡ length xs
unfolding without
length-without k [] i = absurd i
length-without k (x ∷ xs) (inl e) = ground arith
length-without k (x ∷ xs) (inr j) = ground (arith, length-without k xs j)

In-without : (k j : ℕ) (xs : List ℕ) → In j xs → j ≢ k → In j (without k xs)
unfolding without
In-without k j [] i n = i
In-without k j (x ∷ xs) (inl e) n = ground arith
In-without k j (x ∷ xs) (inr l) n = ground (arith, In-without k j xs l n)

pigeonhole : (xs ys : List ℕ) → Distinct xs → ((k : ℕ) → In k xs → In k ys) → length xs ≤ length ys
pigeonhole [] ys d s = omega arith
pigeonhole (x ∷ xs) ys (n, d) s = omega (
  arith,
  length-without x ys (s x (inl refl)),
  pigeonhole xs (without x ys) d
      (λ k i. In-without x k ys (s k (inr i)) (λ e. n (subst (λ z. In z xs) e i))),
)

module _ (edges : ℕ → List ℕ) where
  -- A walk of one edge or more.
  pub data Reaches : ℕ → ℕ → Type 0 where
    one : {a b : ℕ} → In b (edges a) → Reaches a b
    more : {a b c : ℕ} → In b (edges a) → Reaches b c → Reaches a c

  -- No walk from the vertex comes back to a vertex of it: every walk from it ends.
  pub data IsClean : ℕ → Type 0 where
    clean : {k : ℕ} → ((j : ℕ) → In j (edges k) → IsClean j) → IsClean k

  Reaches-step : {a b c : ℕ} → Reaches a b → In c (edges b) → Reaches a c
  Reaches-step (one i) j = more i (one j)
  Reaches-step (more i r) j = more i (Reaches-step r j)

  pub Reaches-source : {a b : ℕ} → Reaches a b → (c : ℕ) × In c (edges a)
  Reaches-source (one i) = (_, i)
  Reaches-source (more i r) = (_, i)

  pub clean_acyclic : {a : ℕ} → IsClean a → ¬ Reaches a a
  clean_acyclic (clean f) (one i) = clean_acyclic (f _ i) (one i)
  clean_acyclic (clean f) (more i r) = clean_acyclic (f _ i) (Reaches-step r i)

  -- Every vertex on the way to `k` reaches `k`.
  abbrev Leads : List ℕ → ℕ → Type 0
  Leads active k = (j : ℕ) → In j active → Reaches j k

  pub visit_all_finds :
      (step : List ℕ → ℕ → Visit) (visited ks : List ℕ)
      → ((v : List ℕ) (k : ℕ) → In k ks → step v k ≡ cyclic → (c : ℕ) × Reaches c c)
      → visit_all step visited ks ≡ cyclic
      → (c : ℕ) × Reaches c c
  unfolding visit_all
  visit_all_finds step visited [] f e = absurd (ground arith)
  visit_all_finds step visited (k ∷ ks) f e = elim (Visit-cases (step visited k)) [
    | inl q ↦ f visited k (inl refl) q
    | inr (inl (v, q)) ↦ visit_all_finds step v ks (λ w j i. f w j (inr i)) (ground arith)
    | inr (inr q) ↦ absurd (ground arith)
  ]

  pub visit_finds :
      (depth : ℕ) (active visited : List ℕ) (k : ℕ)
      → Leads active k
      → visit depth edges active visited k ≡ cyclic
      → (c : ℕ) × Reaches c c
  unfolding visit
  visit_finds zero active visited k l e = absurd (ground arith)
  visit_finds (suc depth) active visited k l e = elim (Bool-cases (contains active k)) [
    | inl q ↦ (k, l k ((contains_iff active k).0 q))
    | inr q ↦ elim (Bool-cases (contains visited k)) [
      | inl r ↦ absurd (ground arith)
      | inr r ↦
          visit_all_finds (λ v j. visit depth edges (k ∷ active) v j) (k ∷ visited) (edges k)
            (λ v j i. visit_finds depth (k ∷ active) v j (λ m at. elim at [
              | inl p ↦ subst (λ z. Reaches z j) (sym p) (one i)
              | inr in_active ↦ Reaches-step (l m in_active) i
            ]))
            (ground arith)
    ]
  ]

  -- A visited vertex is on the way, or it is clean.
  abbrev Cleared : List ℕ → List ℕ → Type 0
  Cleared active visited = (j : ℕ) → In j visited → In j active ⊎ IsClean j

  pub visit_all_clears :
      (active : List ℕ) (step : List ℕ → ℕ → Visit) (visited visited' ks : List ℕ)
      → ((v v' : List ℕ) (k : ℕ)
          → In k ks
          → Cleared active v
          → step v k ≡ clear v'
          → IsClean k × Cleared active v')
      → Cleared active visited
      → visit_all step visited ks ≡ clear visited'
      → ((k : ℕ) → In k ks → IsClean k) × Cleared active visited'
  unfolding visit_all
  visit_all_clears active step visited visited' [] f c e =
      (λ k i. absurd i, subst (Cleared active) (ground arith) c)
  visit_all_clears active step visited visited' (k ∷ ks) f c e =
      elim (Visit-cases (step visited k)) [
        | inl q ↦ absurd (ground arith)
        | inr (inl (v, q)) ↦
            let (here, c') = f visited v k (inl refl) c q in
            let (there, c'') =
              visit_all_clears active step v visited' ks (λ w w' j i. f w w' j (inr i)) c'
                (ground arith) in
            (λ j i. elim i [ inl p ↦ subst IsClean (sym p) here | inr l ↦ there j l ], c'')
        | inr (inr q) ↦ absurd (ground arith)
      ]

  pub visit_clears :
      (depth : ℕ) (active visited visited' : List ℕ) (k : ℕ)
      → Cleared active visited
      → visit depth edges active visited k ≡ clear visited'
      → IsClean k × Cleared active visited'
  unfolding visit
  visit_clears zero active visited visited' k c e = absurd (ground arith)
  visit_clears (suc depth) active visited visited' k c e = elim (Bool-cases (contains active k)) [
    | inl q ↦ absurd (ground arith)
    | inr q ↦ elim (Bool-cases (contains visited k)) [
      | inl r ↦ (
        elim (c k ((contains_iff visited k).0 r)) [
          | inl i ↦ absurd (ground (arith, (contains_iff active k).1 i))
          | inr w ↦ w
        ],
        subst (Cleared active) (ground arith) c,
      )
      | inr r ↦
          let (children, c') =
            visit_all_clears (k ∷ active) (λ v j. visit depth edges (k ∷ active) v j) (k ∷ visited)
              visited' (edges k) (λ v v' j i. visit_clears depth (k ∷ active) v v' j)
              (λ j i. elim i [
                | inl p ↦ inl (inl p)
                | inr l ↦ elim (c j l) [ inl m ↦ inl (inr m) | inr w ↦ inr w ]
              ])
              (ground arith) in
          (
            clean children,
            λ j i. elim (c' j i) [
              | inl (inl p) ↦ inr (subst IsClean (sym p) (clean children))
              | inl (inr m) ↦ inl m
              | inr w ↦ inr w
            ],
          )
    ]
  ]

  pub visit_all_ends :
      (step : List ℕ → ℕ → Visit) (visited ks : List ℕ)
      → ((v : List ℕ) (k : ℕ) → In k ks → step v k ≢ too_deep)
      → visit_all step visited ks ≢ too_deep
  unfolding visit_all
  visit_all_ends step visited [] f e = absurd (ground arith)
  visit_all_ends step visited (k ∷ ks) f e = elim (Visit-cases (step visited k)) [
    | inl q ↦ absurd (ground arith)
    | inr (inl (v, q)) ↦ visit_all_ends step v ks (λ w j i. f w j (inr i)) (ground arith)
    | inr (inr q) ↦ f visited k (inl refl) q
  ]

  -- A depth of one more than the number of vertices is never used up.
  pub visit_ends :
      (nodes : List ℕ) (depth : ℕ) (active visited : List ℕ) (k : ℕ)
      → ((a b : ℕ) → In b (edges a) → In b nodes)
      → Distinct active
      → ((j : ℕ) → In j active → In j nodes)
      → In k nodes
      → length nodes < depth + length active
      → visit depth edges active visited k ≢ too_deep
  unfolding visit
  visit_ends nodes zero active visited k closed d s i b e =
      absurd (omega (arith, pigeonhole active nodes d s))
  visit_ends nodes (suc depth) active visited k closed d s i b e =
      elim (Bool-cases (contains active k)) [
        | inl q ↦ absurd (ground arith)
        | inr q ↦ elim (Bool-cases (contains visited k)) [
          | inl r ↦ absurd (ground arith)
          | inr r ↦
              visit_all_ends (λ v j. visit depth edges (k ∷ active) v j) (k ∷ visited) (edges k)
                (λ v j at.
                  visit_ends nodes depth (k ∷ active) v j closed
                    (λ m. absurd (ground (arith, (contains_iff active k).1 m)), d)
                    (λ m l. elim l [ inl p ↦ subst (λ z. In z nodes) (sym p) i | inr t ↦ s m t ])
                    (closed k j at) (omega arith))
                (ground arith)
        ]
      ]
