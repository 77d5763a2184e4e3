-- ===== src/Compiler/Schedule/Sound.antt =====
-- `_schedule` returns a schedule of the selected nodes that reaches the goal, and it ends.
use stateweaver.Common.{
  ℕ, zero, suc, ◌≤◌, ◌≡◌, ◌≢◌, refl, sym, ap, subst, ◌∙◌, inl, inr, true, List, [], ◌∷◌, ◌++◌, ok,
  err, arith, ◌==◌, length, In, Distinct, List-cases, Result-cases, Bool-cases,
}
use mathlib.Core.List.{Permᴰ, append_assoc, append-nil}
use mathlib.Core.List.Permᴰ
use stateweaver.Contracts.States.{Arithmetic, StateCondition, StateEffect, Value, scalar}
use stateweaver.Compiler.Models.{CompilerFragment, fragment_id}
use stateweaver.Common.Dict.{lookup}
use stateweaver.Compiler.States.{
  State, CompilationError, failing, out_of_rounds, invalid_numeric_effect, number_of,
  zero_if_absent, all_conditions, apply_effect, apply_effects,
}
use stateweaver.Compiler.Nodes.{fragment_ids}
use stateweaver.Compiler.Schedule.{
  Simulation, least_node, without_node, clock_after, is_ready, ready_nodes, next_node,
  schedule_rounds, schedule,
}
use stateweaver.Compiler.Schedule.Runs.{Runs}

least_node-In : (f : CompilerFragment) (fs : List CompilerFragment) → In (least_node f fs) (f ∷ fs)
unfolding least_node
least_node-In f [] = inl refl
least_node-In f (x ∷ xs) = ground (arith, least_node-In x xs, least_node-In f xs)

-- A node is in place of the list that its removal leaves.
pub In-id :
    (x : CompilerFragment) (fs : List CompilerFragment)
    → In x fs
    → In (fragment_id x) (fragment_ids fs)
In-id x [] i = i
In-id x (f ∷ fs) (inl e) = inl (ap fragment_id e)
In-id x (f ∷ fs) (inr i) = inr (In-id x fs i)

without_hit :
    (k : ℕ) (f : CompilerFragment) (fs : List CompilerFragment)
    → fragment_id f ≡ k
    → without_node k (f ∷ fs) ≡ fs
unfolding without_node
without_hit k f fs e = ground arith

without_miss :
    (k : ℕ) (f : CompilerFragment) (fs : List CompilerFragment)
    → fragment_id f ≢ k
    → without_node k (f ∷ fs) ≡ f ∷ without_node k fs
unfolding without_node
without_miss k f fs e = ground arith

removed-Perm :
    (x : CompilerFragment) (fs : List CompilerFragment)
    → In x fs
    → Distinct (fragment_ids fs)
    → Permᴰ (x ∷ without_node (fragment_id x) fs) fs
removed-Perm x [] i d = absurd i
removed-Perm x (f ∷ fs) (inl e) (n, d) =
    rw (without_hit (fragment_id x) f fs (ap fragment_id (sym e))) (rw e (Permᴰ.refl (f ∷ fs)))
removed-Perm x (f ∷ fs) (inr i) (n, d) =
    let apart : fragment_id f ≢ fragment_id x = λ e. n (rw e (In-id x fs i)) in
    rw (without_miss (fragment_id x) f fs apart)
      (Permᴰ.trans (Permᴰ.swap refl refl) (Permᴰ.cons refl (removed-Perm x fs i d)))

without_node-In :
    (k j : ℕ) (fs : List CompilerFragment)
    → In j (fragment_ids (without_node k fs))
    → In j (fragment_ids fs)
unfolding without_node
without_node-In k j [] i = i
without_node-In k j (f ∷ fs) i = ground (arith, without_node-In k j fs)

without_node-Distinct :
    (k : ℕ) (fs : List CompilerFragment)
    → Distinct (fragment_ids fs)
    → Distinct (fragment_ids (without_node k fs))
unfolding without_node
without_node-Distinct k [] d = d
without_node-Distinct k (f ∷ fs) (n, d) = elim (Bool-cases (fragment_id f == k)) [
  | inl e ↦ rw e d
  | inr e ↦ rw e (λ i. n (without_node-In k (fragment_id f) fs i), without_node-Distinct k fs d)
]

length-without_node :
    (x : CompilerFragment) (fs : List CompilerFragment)
    → In x fs
    → suc (length (without_node (fragment_id x) fs)) ≡ length fs
unfolding without_node
length-without_node x [] i = absurd i
length-without_node x (f ∷ fs) (inl e) = ground (arith, ap fragment_id e)
length-without_node x (f ∷ fs) (inr i) = ground (arith, length-without_node x fs i)

module _ (n : Arithmetic) where
  In-ready_nodes :
      (x : CompilerFragment) (ordered : List CompilerFragment) (s : State) (clock : ℕ)
      (fs : List CompilerFragment)
      → In x (ready_nodes n ordered s clock fs)
      → In x fs × (is_ready n ordered s clock x ≡ true)
  unfolding ready_nodes
  In-ready_nodes x ordered s clock [] i = absurd i
  In-ready_nodes x ordered s clock (f ∷ fs) i = ground (arith, In-ready_nodes x ordered s clock fs)

  next_node-In :
      (ordered : List CompilerFragment) (s : State) (clock : ℕ) (f : CompilerFragment)
      (fs : List CompilerFragment) (x : CompilerFragment)
      → next_node n ordered s clock f fs ≡ ok x
      → In x (f ∷ fs) × (is_ready n ordered s clock x ≡ true)
  unfolding next_node
  next_node-In ordered s clock f fs x e =
      elim (List-cases (ready_nodes n ordered s clock (f ∷ fs))) [
        | inl q ↦ absurd (ground arith)
        | inr (y, ys, q) ↦
            let here : x ≡ least_node y ys = ground arith in
            In-ready_nodes x ordered s clock (f ∷ fs)
              (subst (In x) (sym q) (subst (λ z. In z (y ∷ ys)) (sym here) (least_node-In y ys)))
      ]

  -- A round of the loop.
  round :
      (rounds : ℕ) (goal : List StateCondition) (f : CompilerFragment)
      (fs ordered : List CompilerFragment) (s : State) (clock : ℕ) (sim : Simulation)
      → schedule_rounds n (suc rounds) goal (f ∷ fs) ordered s clock ≡ ok sim
      → (x : CompilerFragment) × (s' : State) × (next_node n ordered s clock f fs ≡ ok x)
        × (apply_effects n x.fragment.effects s ≡ ok s')
        × (schedule_rounds n rounds goal
              (without_node (fragment_id x) (f ∷ fs))
              (ordered ++ x ∷ [])
              s'
              (clock_after x.fragment.action clock)
            ≡ ok sim)
  unfolding schedule_rounds
  round rounds goal f fs ordered s clock sim e =
      elim (Result-cases (next_node n ordered s clock f fs)) [
        | inl (y, q) ↦ absurd (ground arith)
        | inr (x, q) ↦ elim (Result-cases (apply_effects n x.fragment.effects s)) [
          | inl (y, r) ↦ absurd (ground arith)
          | inr (s', r) ↦ (x, s', q, r, ground arith)
        ]
      ]

  -- What a schedule that is found adds to the nodes placed before.
  pub record IsScheduled (goal : List StateCondition) (remaining placed : List CompilerFragment)
      (s : State) (clock : ℕ) (sim : Simulation) : Type 0 where
    pub placed_next : List CompilerFragment
    pub appended : sim.ordered ≡ placed ++ placed_next
    pub runs : Runs n placed_next placed s clock sim.state sim.clock_ms
    pub all_placed : Permᴰ placed_next remaining
    pub reached : all_conditions n goal sim.state ≡ true

  finished :
      (rounds : ℕ) (goal : List StateCondition) (placed : List CompilerFragment) (s : State)
      (clock : ℕ) (sim : Simulation)
      → schedule_rounds n rounds goal [] placed s clock ≡ ok sim
      → IsScheduled goal [] placed s clock sim
  unfolding schedule_rounds
  finished rounds goal placed s clock sim e =
      let made : sim ≡ record { state = s; clock_ms = clock; ordered = placed } = ground arith in
      record {
        placed_next = [];
        appended = ap (λ (z : Simulation). z.ordered) made ∙ sym (append-nil placed);
        runs = (
          sym (ap (λ (z : Simulation). z.state) made),
          sym (ap (λ (z : Simulation). z.clock_ms) made),
        );
        all_placed = Permᴰ.refl [];
        reached = ground arith;
      }

  schedule_rounds-IsScheduled :
      (rounds : ℕ) (goal : List StateCondition) (remaining placed : List CompilerFragment)
      (s : State) (clock : ℕ) (sim : Simulation)
      → Distinct (fragment_ids remaining)
      → schedule_rounds n rounds goal remaining placed s clock ≡ ok sim
      → IsScheduled goal remaining placed s clock sim
  schedule_rounds-IsScheduled zero goal [] placed s clock sim d e =
      finished zero goal placed s clock sim e
  schedule_rounds-IsScheduled (suc rounds) goal [] placed s clock sim d e =
      finished (suc rounds) goal placed s clock sim e
  schedule_rounds-IsScheduled zero goal (f ∷ fs) placed s clock sim d e =
      unfold schedule_rounds in absurd (ground arith)
  schedule_rounds-IsScheduled (suc rounds) goal (f ∷ fs) placed s clock sim d e =
      let (x, s', q, r, t) = round rounds goal f fs placed s clock sim e in
      let (at, ready) = next_node-In placed s clock f fs x q in
      let k =
        schedule_rounds-IsScheduled rounds goal (without_node (fragment_id x) (f ∷ fs))
          (placed ++ x ∷ []) s' (clock_after x.fragment.action clock) sim
          (without_node-Distinct (fragment_id x) (f ∷ fs) d) t in
      record {
        placed_next = x ∷ k.placed_next;
        appended = k.appended ∙ append_assoc placed (x ∷ []) k.placed_next;
        runs = (ready, (s', r, k.runs));
        all_placed = Permᴰ.trans (Permᴰ.cons refl k.all_placed) (removed-Perm x (f ∷ fs) at d);
        reached = k.reached;
      }

  -- A schedule that `_schedule` returns has every selected node once, each of them is ready when its turn comes, and the last state satisfies the
  -- goal, provided that the identifiers are distinct.
  pub schedule-IsScheduled :
      (selected : List CompilerFragment) (initial : State) (clock : ℕ) (goal : List StateCondition)
      (sim : Simulation)
      → Distinct (fragment_ids selected)
      → schedule n selected initial clock goal ≡ ok sim
      → IsScheduled goal selected [] initial clock sim
  unfolding schedule
  schedule-IsScheduled selected initial clock goal sim d e =
      schedule_rounds-IsScheduled (length selected) goal selected [] initial clock sim d e

  schedule_rounds_reaches :
      (rounds : ℕ) (goal : List StateCondition) (remaining placed : List CompilerFragment)
      (s : State) (clock : ℕ) (sim : Simulation)
      → schedule_rounds n rounds goal remaining placed s clock ≡ ok sim
      → all_conditions n goal sim.state ≡ true
  schedule_rounds_reaches zero goal [] placed s clock sim e =
      (finished zero goal placed s clock sim e).reached
  schedule_rounds_reaches (suc rounds) goal [] placed s clock sim e =
      (finished (suc rounds) goal placed s clock sim e).reached
  schedule_rounds_reaches zero goal (f ∷ fs) placed s clock sim e =
      unfold schedule_rounds in absurd (ground arith)
  schedule_rounds_reaches (suc rounds) goal (f ∷ fs) placed s clock sim e =
      let (x, s', q, r, t) = round rounds goal f fs placed s clock sim e in
      schedule_rounds_reaches rounds goal (without_node (fragment_id x) (f ∷ fs)) (placed ++ x ∷ [])
        s' (clock_after x.fragment.action clock) sim t

  pub schedule_reaches :
      (selected : List CompilerFragment) (initial : State) (clock : ℕ) (goal : List StateCondition)
      (sim : Simulation)
      → schedule n selected initial clock goal ≡ ok sim
      → all_conditions n goal sim.state ≡ true
  unfolding schedule
  schedule_reaches selected initial clock goal sim e =
      schedule_rounds_reaches (length selected) goal selected [] initial clock sim e

  number_of_failure :
      (v : Value) (x : CompilationError)
      → number_of n v ≡ err x
      → x ≡ failing invalid_numeric_effect
  number_of_failure v x e = ground arith

  apply_effect_failure :
      (f : StateEffect) (s : State) (x : CompilationError)
      → apply_effect n f s ≡ err x
      → x ≡ failing invalid_numeric_effect
  unfolding apply_effect
  apply_effect_failure f s x e =
      elim (Result-cases (number_of n (zero_if_absent n (lookup f.path s)))) [
        | inl (y, q) ↦ ground (
          arith,
          number_of_failure (zero_if_absent n (lookup f.path s)) y q,
          number_of_failure (scalar f.value),
        )
        | inr (a, q) ↦ elim (Result-cases (number_of n (scalar f.value))) [
          | inl (y, r) ↦ ground (arith, number_of_failure (scalar f.value) y r)
          | inr (b, r) ↦ ground arith
        ]
      ]

  apply_effects_failure :
      (fs : List StateEffect) (s : State) (x : CompilationError)
      → apply_effects n fs s ≡ err x
      → x ≡ failing invalid_numeric_effect
  unfolding apply_effects
  apply_effects_failure [] s x e = absurd (ground arith)
  apply_effects_failure (f ∷ fs) s x e = elim (Result-cases (apply_effect n f s)) [
    | inl (y, q) ↦ ground (arith, apply_effect_failure f s y q)
    | inr (s', q) ↦ apply_effects_failure fs s' x (ground arith)
  ]

  next_node_failure :
      (ordered : List CompilerFragment) (s : State) (clock : ℕ) (f : CompilerFragment)
      (fs : List CompilerFragment) (x : CompilationError)
      → next_node n ordered s clock f fs ≡ err x
      → x.code ≢ out_of_rounds
  unfolding next_node
  next_node_failure ordered s clock f fs x e =
      elim (List-cases (ready_nodes n ordered s clock (f ∷ fs))) [
        | inl q ↦ ground arith
        | inr (y, ys, q) ↦ absurd (ground arith)
      ]

  schedule_rounds_ends :
      (rounds : ℕ) (goal : List StateCondition) (remaining placed : List CompilerFragment)
      (s : State) (clock : ℕ) (x : CompilationError)
      → length remaining ≤ rounds
      → schedule_rounds n rounds goal remaining placed s clock ≡ err x
      → x.code ≢ out_of_rounds
  unfolding schedule_rounds
  schedule_rounds_ends rounds goal [] placed s clock x b e = ground arith
  schedule_rounds_ends zero goal (f ∷ fs) placed s clock x b e = absurd (ground arith)
  schedule_rounds_ends (suc rounds) goal (f ∷ fs) placed s clock x b e =
      elim (Result-cases (next_node n placed s clock f fs)) [
        | inl (y, q) ↦ ground (arith, next_node_failure placed s clock f fs y q)
        | inr (y, q) ↦ elim (Result-cases (apply_effects n y.fragment.effects s)) [
          | inl (z, r) ↦ ground (arith, apply_effects_failure y.fragment.effects s z r)
          | inr (s', r) ↦
              schedule_rounds_ends rounds goal (without_node (fragment_id y) (f ∷ fs))
                (placed ++ y ∷ []) s' (clock_after y.fragment.action clock) x
                (omega
                  (arith, length-without_node y (f ∷ fs) (next_node-In placed s clock f fs y q).0))
                (ground arith)
        ]
      ]

  -- The loop of `_schedule` ends: as many rounds as there are nodes are enough.
  pub schedule_ends :
      (selected : List CompilerFragment) (initial : State) (clock : ℕ) (goal : List StateCondition)
      (x : CompilationError)
      → schedule n selected initial clock goal ≡ err x
      → x.code ≢ out_of_rounds
  unfolding schedule
  schedule_ends selected initial clock goal x e =
      schedule_rounds_ends (length selected) goal selected [] initial clock x (omega arith) e
