-- ===== src/Budget/Tests.antt =====
-- budget/budget.go: the projections of a small bench, in natural arithmetic.
use probatorium.Base.{ℕ, ◌+◌, ◌*◌, ◌/◌, ltb, if◌then◌else◌, true, ◌≡◌, refl}
use probatorium.Budget.{Profile, arch_lock_overhead, wall_clock, column_wall_clock, fit_within}
use probatorium.Budget.Agreement.{alone, wall_clock-parallel, column, column_wall_clock-agrees}

abbrev percent_of : ℕ → ℕ → ℕ
percent_of percent total = percent * total / 100

abbrev both : Profile
both = record (column 33 4 20_000_000_000 90_000_000_000 30_000_000_000) {
  arches = 2;
  arch_parallel = true;
  arch_exclusion = "all";
}

all_fits : fit_within percent_of both 22_000_000_000_000 ≡ true
unfolding fit_within
all_fits = refl

wall_clock-parallel_example :
    wall_clock percent_of both
    ≡ wall_clock percent_of (alone both)
      + percent_of (arch_lock_overhead "all") (wall_clock percent_of (alone both))
wall_clock-parallel_example = wall_clock-parallel percent_of both refl refl

column_wall_clock-agrees_example :
    column_wall_clock 0 4 20 90 30
    ≡ wall_clock percent_of (column (if ltb 0 1 then 1 else 0) 4 20 90 30)
column_wall_clock-agrees_example = column_wall_clock-agrees percent_of 0 4 20 90 30
