-- ===== src/Interleave/Schedule.antt =====
-- interleave/schedule.go: the order in which the cells of a bench are run. Scenarios and servers
-- are Go interfaces there; here they are types with the two methods that the schedule calls.
pub mod Coverage
pub mod Reversal
mod Tests
use probatorium.Base.{
  ℕ, zero, suc, ◌+◌, ◌==◌, if◌then◌else◌, ◌||◌, List, [], ◌∷◌, ◌++◌, map, reverse, length, is_nil,
  ℤ, le_zero, rounds, Bool,
}

-- `Cell`: run `run_idx` of (scenario, server).
pub record Cell (S V : Type 0) : Type 0 where
  pub run_idx : ℕ
  pub scenario : S
  pub server : V

module _ {S V F : Type 0} (applicable : S → F → Bool) (features : V → F) where
  -- The inner loop over the servers.
  pub pairs_of : S → List V → List (S × V)
  pairs_of s [] = []
  pairs_of s (srv ∷ sv) =
      let rest = pairs_of s sv in if applicable s (features srv) then (s, srv) ∷ rest else rest

  -- The loop over the scenarios.
  pub pairs : List S → List V → List (S × V)
  pairs [] sv = []
  pairs (s ∷ ss) sv = pairs_of s sv ++ pairs ss sv

-- The cells of run `r`.
pub run_cells : {S V : Type 0} → ℕ → List (S × V) → List (Cell S V)
run_cells r ps = map (λ p. record { run_idx = r; scenario = p.0; server = p.1 }) ps

-- The loop over the runs, with the number of runs left and the index of the next one.
pub emit : {S V : Type 0} → ℕ → ℕ → List (S × V) → List (Cell S V)
emit zero r ps = []
emit (suc n) r ps = run_cells r ps ++ emit n (r + 1) ps

module _ {S V F : Type 0} (applicable : S → F → Bool) (features : V → F) where
  pub schedule : ℤ → List S → List V → List (Cell S V)
  schedule runs ss sv =
      if le_zero runs || (is_nil ss || is_nil sv)
      then []
      else emit (rounds runs) 0 (pairs applicable features ss sv)

module _ {S V : Type 0} where
  -- `cells[lo:hi]` of the inner scan from `lo`: the leading cells of run `r`.
  pub front : ℕ → List (Cell S V) → List (Cell S V)
  front r [] = []
  front r (c ∷ cs) = let more = front r cs in if c.run_idx == r then c ∷ more else []

  -- `cells[hi:]` of that scan.
  pub rest : ℕ → List (Cell S V) → List (Cell S V)
  rest r [] = []
  rest r (c ∷ cs) = let more = rest r cs in if c.run_idx == r then more else c ∷ cs

  -- The outer loop, on fuel: each round takes at least one cell.
  pub reverse_runs : ℕ → List (Cell S V) → List (Cell S V)
  reverse_runs zero cells = []
  reverse_runs (suc fuel) [] = []
  reverse_runs (suc fuel) (c ∷ cs) =
      reverse (front c.run_idx (c ∷ cs)) ++ reverse_runs fuel (rest c.run_idx (c ∷ cs))

  pub reverse_within_runs : List (Cell S V) → List (Cell S V)
  reverse_within_runs cells = reverse_runs (length cells) cells
