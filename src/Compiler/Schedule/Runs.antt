-- ===== src/Compiler/Schedule/Runs.antt =====
-- What a schedule is: a sequence of nodes each of which is ready when its turn comes.
use stateweaver.Common.{ℕ, ◌≡◌, true, List, [], ◌∷◌, ◌++◌, ok}
use stateweaver.Contracts.States.{Arithmetic}
use stateweaver.Compiler.Models.{CompilerFragment}
use stateweaver.Compiler.States.{State, apply_effects}
use stateweaver.Compiler.Schedule.{is_ready, clock_after}

-- From a state and a clock, after the nodes `placed`, the nodes can be executed one after the other: each
-- is ready, its effects apply, and the last leaves the final state and clock.
abbrev pub Runs :
    Arithmetic → List CompilerFragment → List CompilerFragment → State → ℕ → State → ℕ → Type 0
Runs n [] placed s clock s' clock' = (s ≡ s') × (clock ≡ clock')
Runs n (x ∷ xs) placed s clock s' clock' =
    (is_ready n placed s clock x ≡ true)
    × ((t : State) × (apply_effects n x.fragment.effects s ≡ ok t)
        × Runs n xs (placed ++ x ∷ []) t (clock_after x.fragment.action clock) s' clock')
