-- ===== src/Budget/Agreement.antt =====
-- budget/budget.go: the projections of one bench agree with each other.
use probatorium.Base.{
  ℕ, ◌+◌, ◌*◌, ◌/◌, ◌&&◌, ◌||◌, ◌<◌, ltb, ◌==◌, ==_iff, if◌then◌else◌, Bool, true, false, ◌≡◌, refl,
  ap, ◌∙◌, Bool-cases, inl, inr, arith,
}
use probatorium.Budget.{
  default_cooldown, per_cell_overhead, Profile, per_cell, rated_sweep, per_rated_cell, arch_count,
  saturation, rated, arch_lock_overhead, wall_clock, column_wall_clock,
}

abbrev pub alone : Profile → Profile
alone p = record p { arches = 1 }

saturation-two : (p : Profile) → p.arches ≡ 2 → saturation p ≡ saturation (alone p) * 2
unfolding saturation arch_count per_cell
saturation-two p h = ground (arith, h)

rated-two : (p : Profile) → p.arches ≡ 2 → rated p ≡ rated (alone p) * 2
unfolding rated arch_count per_rated_cell
rated-two p h = ground (arith, h)

if-both : (b c : Bool) (x y : ℕ) → b ≡ true → c ≡ true → (if b && c then x else y) ≡ x
if-both b c x y h k = rw h (rw k refl)

module _ (percent_of : ℕ → ℕ → ℕ) where
  wall_clock-alone :
      (p : Profile) → wall_clock percent_of (alone p) ≡ saturation (alone p) + rated (alone p)
  unfolding wall_clock
  wall_clock-alone p = elim (Bool-cases p.arch_parallel) [ inl h ↦ rw h refl | inr h ↦ rw h refl ]

  wall_clock-both :
      (p : Profile)
      → p.arches ≡ 2
      → p.arch_parallel ≡ true
      → wall_clock percent_of p
        ≡ (saturation p + rated p) / 2
          + percent_of (arch_lock_overhead p.arch_exclusion) ((saturation p + rated p) / 2)
  unfolding wall_clock
  wall_clock-both p two parallel =
      if-both p.arch_parallel (p.arches == 2) _ _ parallel ((==_iff p.arches 2).1 two)

  -- A run of both arches in parallel costs what one arch alone does and the lock's share of it.
  pub wall_clock-parallel :
      (p : Profile)
      → p.arches ≡ 2
      → p.arch_parallel ≡ true
      → wall_clock percent_of p
        ≡ wall_clock percent_of (alone p)
          + percent_of (arch_lock_overhead p.arch_exclusion) (wall_clock percent_of (alone p))
  wall_clock-parallel p two parallel =
      let s = saturation-two p two in
      let r = rated-two p two in
      let half : (saturation p + rated p) / 2 ≡ wall_clock percent_of (alone p) =
        omega (arith, s, r, wall_clock-alone p) in
      wall_clock-both p two parallel
      ∙ ap (λ t. t + percent_of (arch_lock_overhead p.arch_exclusion) t) half

-- The profile of one column: `scenarios` cells, all of them rated, on one arch and in one run.
abbrev pub column : ℕ → ℕ → ℕ → ℕ → ℕ → Profile
column scenarios rated_passes warmup duration rated_duration = record {
  name = "";
  cells = scenarios;
  duration = duration;
  warmup = warmup;
  cooldown = default_cooldown;
  runs = 1;
  arches = 1;
  arch_parallel = false;
  arch_exclusion = "";
  rated_cells = scenarios;
  rated_passes = rated_passes;
  rated_duration = rated_duration;
}

charge_split :
    (n passes base sweep : ℕ)
    → 0 < n
    → n * (if ltb 0 passes then base + sweep else base)
      ≡ n * 1 * base * 1 + (if n == 0 || passes == 0 then 0 else n * 1 * sweep * 1)
charge_split n passes base sweep h = elim (Bool-cases (passes == 0)) [
  | inl k ↦ let free : ltb 0 passes ≡ false = ground (arith, k) in rw free (ground (arith, h, k))
  | inr k ↦
      let paid : ltb 0 passes ≡ true = ground (arith, k) in
      let some_cells : (n == 0) ≡ false = ground (arith, h) in
      rw paid (rw k (rw some_cells (omega arith)))
]

-- For a column with at least one scenario the two projections agree: that of the column and that of
-- the profile with the column's cells, all of them rated. Without a scenario the column is charged
-- for one.
pub column_wall_clock-agrees :
    (percent_of : ℕ → ℕ → ℕ) (scenarios rated_passes warmup duration rated_duration : ℕ)
    → column_wall_clock scenarios rated_passes warmup duration rated_duration
      ≡ wall_clock percent_of (
          column
            (if ltb scenarios 1 then 1 else scenarios)
            rated_passes
            warmup
            duration
            rated_duration)
unfolding column_wall_clock wall_clock saturation rated per_cell per_rated_cell arch_count
    rated_sweep
column_wall_clock-agrees percent_of scenarios rated_passes warmup duration rated_duration =
    charge_split (if ltb scenarios 1 then 1 else scenarios) rated_passes
      (warmup + duration + default_cooldown + per_cell_overhead)
      (rated_sweep rated_passes warmup rated_duration) (ground arith)
