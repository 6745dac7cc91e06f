-- ===== src/Interleave/Plan/Induction.antt =====
-- interleave/archplan.go: the rule by which facts about the loop of `SimulateArchPlan` are proved.
use probatorium.Base.{ℕ, List, [], ◌∷◌, inl, inr, Bool-cases, ltb}
use probatorium.Interleave.Plan.{PlanParams, WalkCell, Sim, advance0, advance1, walk}

-- `P` relates the cells left and the state to the final state. It is enough that it holds when no
-- cell is left, and that it goes back over a step of either arch.
pub walk_ind {ℓ} :
    (p : PlanParams) (u0 u1 : ℕ) (P : List WalkCell → List WalkCell → Sim → Sim → Type ℓ)
    → ((s : Sim) → P [] [] s s)
    → ((c : WalkCell) (cs ds : List WalkCell) (s t : Sim)
        → P cs ds (advance0 p u0 c s) t
        → P (c ∷ cs) ds s t)
    → ((d : WalkCell) (cs ds : List WalkCell) (s t : Sim)
        → P cs ds (advance1 p u1 d s) t
        → P cs (d ∷ ds) s t)
    → (cs ds : List WalkCell) (s : Sim) → P cs ds s (walk p u0 u1 cs ds s)
unfolding walk
walk_ind p u0 u1 P stop step0 step1 [] [] s = stop s
walk_ind p u0 u1 P stop step0 step1 [] (d ∷ ds) s =
    step1 d [] ds s (walk p u0 u1 [] ds (advance1 p u1 d s))
      (walk_ind p u0 u1 P stop step0 step1 [] ds (advance1 p u1 d s))
walk_ind p u0 u1 P stop step0 step1 (c ∷ cs) [] s =
    step0 c cs [] s (walk p u0 u1 cs [] (advance0 p u0 c s))
      (walk_ind p u0 u1 P stop step0 step1 cs [] (advance0 p u0 c s))
walk_ind p u0 u1 P stop step0 step1 (c ∷ cs) (d ∷ ds) s =
    elim (Bool-cases (ltb s.ready1 s.ready0)) [
      | inl e ↦
          rw (e, walk)
            (step1 d (c ∷ cs) ds s (walk p u0 u1 (c ∷ cs) ds (advance1 p u1 d s))
              (walk_ind p u0 u1 P stop step0 step1 (c ∷ cs) ds (advance1 p u1 d s)))
      | inr e ↦
          rw (e, walk)
            (step0 c cs (d ∷ ds) s (walk p u0 u1 cs (d ∷ ds) (advance0 p u0 c s))
              (walk_ind p u0 u1 P stop step0 step1 cs (d ∷ ds) (advance0 p u0 c s)))
    ]
