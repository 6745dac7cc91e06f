-- ===== src/Budget.antt =====
-- budget/budget.go: the wall-clock that a bench is expected to cost. Durations are nanoseconds and
-- counts are natural numbers. The overhead of the client lock is a float64 there; here it is in
-- percent, and the product with a duration is a parameter. The globs of a profile and the texts
-- are left out.
pub mod Agreement
mod Tests
use text.Mathlib.Text.{◌==◌ as str_eq}
use probatorium.Base.{ℕ, ◌+◌, ◌*◌, ◌/◌, ltb, leb, ◌==◌, if◌then◌else◌, ◌||◌, ◌&&◌, Bool, String}

abbrev pub per_cell_overhead : ℕ
per_cell_overhead = 12_000_000_000

abbrev pub default_cooldown : ℕ
default_cooldown = 5_000_000_000

pub record Profile : Type 0 where
  pub name : String
  pub cells : ℕ
  pub duration : ℕ
  pub warmup : ℕ
  pub cooldown : ℕ
  pub runs : ℕ
  pub arches : ℕ
  pub arch_parallel : Bool
  pub arch_exclusion : String
  pub rated_cells : ℕ
  pub rated_passes : ℕ
  pub rated_duration : ℕ

pub per_cell : Profile → ℕ
per_cell p = p.warmup + p.duration + p.cooldown + per_cell_overhead

pub rated_sweep : ℕ → ℕ → ℕ → ℕ
rated_sweep passes warmup rated_duration = passes * (warmup + rated_duration)

pub per_rated_cell : Profile → ℕ
unfolding rated_sweep
per_rated_cell p = rated_sweep p.rated_passes p.warmup p.rated_duration

pub arch_count : Profile → ℕ
arch_count p = if ltb p.arches 1 then 1 else p.arches

pub saturation : Profile → ℕ
unfolding per_cell arch_count
saturation p = p.cells * p.runs * per_cell p * arch_count p

pub rated : Profile → ℕ
unfolding per_rated_cell arch_count
rated p =
    if p.rated_cells == 0 || p.rated_passes == 0
    then 0
    else p.rated_cells * p.runs * per_rated_cell p * arch_count p

-- In percent.
pub arch_lock_overhead : String → ℕ
arch_lock_overhead policy =
    if str_eq policy "heavy" then 14 else if str_eq policy "all" then 100 else 0

module _ (percent_of : ℕ → ℕ → ℕ) where
  pub wall_clock : Profile → ℕ
  unfolding saturation rated arch_lock_overhead
  wall_clock p =
      let total = saturation p + rated p in
      if p.arch_parallel && p.arches == 2
      then total / 2 + percent_of (arch_lock_overhead p.arch_exclusion) (total / 2)
      else total

  -- Whether the profile fits: the second result of `FitWithin`.
  pub fit_within : Profile → ℕ → Bool
  unfolding wall_clock
  fit_within p budget = leb (wall_clock p) budget

pub column_wall_clock : ℕ → ℕ → ℕ → ℕ → ℕ → ℕ
unfolding rated_sweep
column_wall_clock scenarios rated_passes warmup duration rated_duration =
    let count = if ltb scenarios 1 then 1 else scenarios in
    let base = warmup + duration + default_cooldown + per_cell_overhead in
    let sweep = rated_sweep rated_passes warmup rated_duration in
    count * (if ltb 0 rated_passes then base + sweep else base)
