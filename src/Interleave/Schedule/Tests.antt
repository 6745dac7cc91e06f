-- ===== src/Interleave/Schedule/Tests.antt =====
-- interleave/schedule.go: schedules of a small bench, and the theorems at it. A scenario asks for
-- a feature, and a server has features from 0 up to its own.
use mathlib.Core.List.{Perm}
use probatorium.Base.{ℕ, ◌≡◌, refl, ltb, leb, List, [], ◌∷◌, ℤ, pos, negsuc, count}
use probatorium.Interleave.Schedule.{
  Cell, pairs, pairs_of, emit, run_cells, schedule, reverse_within_runs, reverse_runs, front, rest,
}
use probatorium.Interleave.Schedule.Coverage.{schedule_coverage, at_run, count_applicable}
use probatorium.Interleave.Schedule.Reversal.{reverse_within_runs_lem, idxs}

-- Scenario 5 needs a feature that only server 7 has.
abbrev bench : ℤ → List (Cell ℕ ℕ)
bench runs = schedule leb (λ (v : ℕ). v) runs (1 ∷ 5 ∷ []) (3 ∷ 7 ∷ [])

abbrev cell : ℕ → ℕ → ℕ → Cell ℕ ℕ
cell r s v = record { run_idx = r; scenario = s; server = v }

bench_two :
    bench (pos 2) ≡ cell 0 1 3 ∷ cell 0 1 7 ∷ cell 0 5 7 ∷ cell 1 1 3 ∷ cell 1 1 7 ∷ cell 1 5 7 ∷ []
unfolding schedule pairs pairs_of emit run_cells
bench_two = refl

bench_negative : bench (negsuc 0) ≡ []
unfolding schedule
bench_negative = refl

reversed_two :
    reverse_within_runs (bench (pos 2))
    ≡ cell 0 5 7 ∷ cell 0 1 7 ∷ cell 0 1 3 ∷ cell 1 5 7 ∷ cell 1 1 7 ∷ cell 1 1 3 ∷ []
unfolding schedule pairs pairs_of emit run_cells reverse_within_runs reverse_runs front rest
reversed_two = refl

schedule_coverage_example :
    count (at_run 1 (λ s v. ltb s v)) (bench (pos 2))
    ≡ count_applicable leb (λ (v : ℕ). v) (λ s v. ltb s v) (1 ∷ 5 ∷ []) (3 ∷ 7 ∷ [])
schedule_coverage_example =
    schedule_coverage leb (λ (v : ℕ). v) (pos 2) (1 ∷ 5 ∷ []) (3 ∷ 7 ∷ []) (λ s v. ltb s v) 1

reverse_within_runs_lem_example :
    Perm (reverse_within_runs (bench (pos 2))) (bench (pos 2))
    × (idxs (reverse_within_runs (bench (pos 2))) ≡ idxs (bench (pos 2)))
    × (reverse_within_runs (reverse_within_runs (bench (pos 2))) ≡ bench (pos 2))
reverse_within_runs_lem_example = reverse_within_runs_lem (bench (pos 2))
