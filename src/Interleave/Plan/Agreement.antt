-- ===== src/Interleave/Plan/Agreement.antt =====
-- interleave/archplan.go beside report/archoverlap.go: the planner models the lock, and the check
-- reads the load windows of a finished run. Here the check reads the planned slots.
use text.Mathlib.Text.{◌==◌ as str_eq}
use probatorium.Base.{
  refl, Bool, true, false, ℕ, ◌+◌, ◌≤◌, ◌≡◌, if◌then◌else◌, false, List, [], ◌∷◌, map, String,
  arith, IsSort, All, ◌⊎◌, inl, inr,
}
use probatorium.Interleave.Plan.{
  LockPolicy, heavy, all, Slot, ArchPlan, simulate_arch_plan, needs_lock,
}
use probatorium.Interleave.Plan.Exclusion.{Apart, AllApart, simulate-AllApart}
use probatorium.Report.Overlap.{
  LoadWindow, OverlapPair, starts_before, check_arch_overlap, exclusion_all, exclusion_heavy,
}
use probatorium.Report.Overlap.Counts.{intersects, violates}
use probatorium.Report.Overlap.Policies.{violates-all, violates-heavy, violates-light, total-zero}

-- The load window of a slot of a run that began at instant `base`.
abbrev pub window_of : ℕ → Slot → LoadWindow
window_of base x = record {
  competitor = x.column;
  scenario = x.scenario;
  kind = "saturation";
  class = if x.heavy then "heavy" else "light";
  start = base + x.start;
  end = base + x.end;
}

-- The name of the policy in the report.
abbrev pub policy_name : LockPolicy → String
policy_name all = exclusion_all
policy_name p = exclusion_heavy

-- Slots that do not share time have windows that do not intersect.
intersects-Apart :
    (base : ℕ) (x y : Slot)
    → (x.end ≤ y.start) ⊎ (y.end ≤ x.start)
    → intersects (window_of base x) (window_of base y) ≡ false
intersects-Apart base x y h = ground arith

accepted-all :
    (base : ℕ) (x y : Slot)
    → Apart all x y
    → violates exclusion_all (window_of base x) (window_of base y) ≡ false
unfolding needs_lock
accepted-all base x y h =
    violates-all (window_of base x) (window_of base y) (intersects-Apart base x y (ground arith))

light_class :
    (is_heavy : Bool)
    → is_heavy ≡ false
    → str_eq (if is_heavy then "heavy" else "light") "light" ≡ true
light_class true h = cc
light_class false h = refl

accepted-heavy :
    (base : ℕ) (x y : Slot)
    → Apart heavy x y
    → violates exclusion_heavy (window_of base x) (window_of base y) ≡ false
unfolding needs_lock
accepted-heavy base x y (inl h) =
    violates-light (window_of base x) (window_of base y) (inl (light_class x.heavy h))
accepted-heavy base x y (inr (inl h)) =
    violates-light (window_of base x) (window_of base y) (inr (light_class y.heavy h))
accepted-heavy base x y (inr (inr h)) =
    violates-heavy (window_of base x) (window_of base y) (intersects-Apart base x y h)

-- A fact about all pairs of slots is one about all pairs of their windows.
All-windows :
    (base : ℕ) (P : LoadWindow → Type 0) (Q : Slot → Type 0) (xs : List Slot)
    → ((x : Slot) → Q x → P (window_of base x))
    → All Q xs
    → All P (map (window_of base) xs)
All-windows base P Q [] f h = tt
All-windows base P Q (x ∷ xs) f h = (f x h.0, All-windows base P Q xs f h.1)

accepted-windows :
    (base : ℕ) (p : LockPolicy) (policy : String) (xs ys : List Slot)
    → ((x y : Slot) → Apart p x y → violates policy (window_of base x) (window_of base y) ≡ false)
    → AllApart p xs ys
    → All
        (λ x. All (λ y. violates policy x y ≡ false) (map (window_of base) ys))
        (map (window_of base) xs)
accepted-windows base p policy xs ys f h =
    All-windows base _ (λ x. All (Apart p x) ys) xs
      (λ x k. All-windows base _ (Apart p x) ys (f x) k) h

module _ (sort_windows : List LoadWindow → List LoadWindow)
    (sort_pairs : List OverlapPair → List OverlapPair) where
  -- The total that the check counts against a run that goes as planned under `policy`, when the
  -- check is made with the report's policy of that name.
  abbrev pub planned_violations : LockPolicy → ArchPlan → ArchPlan → ℕ → ℕ → ℕ → ℕ
  planned_violations policy a b cooldown setup base =
      let r =
        simulate_arch_plan a b
          (record { policy = policy; cooldown = cooldown; column_setup = setup }) in
      (check_arch_overlap sort_windows sort_pairs (map (window_of base) r.arch0.slots)
        (map (window_of base) r.arch1.slots) (policy_name policy)).total

  -- Provided that the check's windows are sorted by start: of a run that goes as planned with the
  -- lock on all cells the check with policy all counts no violation, and of one that goes as
  -- planned with the lock on heavy cells the check with policy heavy counts none.
  pub plan-accepted :
      (a b : ArchPlan) (cooldown setup base : ℕ)
      → IsSort starts_before sort_windows
      → (planned_violations all a b cooldown setup base ≡ 0)
        × (planned_violations heavy a b cooldown setup base ≡ 0)
  plan-accepted a b cooldown setup base sorts = (
    total-zero sort_windows sort_pairs _ _ exclusion_all sorts (
        accepted-windows base all exclusion_all _ _ (accepted-all base) (
          simulate-AllApart a b
            (record { policy = all; cooldown = cooldown; column_setup = setup }))),
    total-zero sort_windows sort_pairs _ _ exclusion_heavy sorts (
        accepted-windows base heavy exclusion_heavy _ _ (accepted-heavy base) (
          simulate-AllApart a b
            (record { policy = heavy; cooldown = cooldown; column_setup = setup }))),
  )
