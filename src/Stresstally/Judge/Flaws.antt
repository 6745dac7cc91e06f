-- ===== src/Stresstally/Judge/Flaws.antt =====
-- When the list of problems stays empty.
use text.Mathlib.Text.{◌==◌ as str_eq}
use text.Mathlib.TextEquality.{eq_iff}
use text.Mathlib.TextPositions.{eq_refl}
use mathlib.Core.Path.{subst}
use probatorium.Base.{
  ◌+◌, ◌<◌, ltb, ◌==◌, ◌&&◌, not, Bool, true, List, [], ◌∷◌, String, contains, ◌≡◌, ◌↔◌, refl, sym,
  is_nil, arith, Bool-cases, inl, inr, count, count-Perm, insertion_sort, insertion_sort-perm,
  str_lt,
}
use probatorium.Stresstally.Judge.Shards.{ShardReport, TestRow}
use probatorium.Stresstally.Judge.Problems.{
  ArchTotal, problem_failures, problem_unparsed, problem_missing, problem_wrong_shape,
  problem_nothing_ran, arch_total, add_if, arch_problems, find_problems, total_arches,
}
use probatorium.Stresstally.Judge.Report.{sort_strings}

pub is_nil-add_if :
    (cond : Bool) (p : String) (ps : List String)
    → is_nil (add_if cond p ps) ≡ (is_nil ps && not cond)
unfolding add_if contains
is_nil-add_if cond p [] = ground arith
is_nil-add_if cond p (x ∷ ps) = ground arith

-- Nothing of an arch's total is a problem.
pub record Flawless (t : ArchTotal) : Type 0 where
  pub no_fail : t.fail ≡ 0
  pub no_unparsed : t.unparsed ≡ 0
  pub no_missing : t.missing ≡ 0
  pub no_wrong_shape : t.wrong_shape ≡ 0
  pub some_ran : 0 < t.pass

flawless : ArchTotal → Bool
flawless t =
    (((not (ltb 0 t.fail) && not (ltb 0 t.unparsed)) && not (ltb 0 t.missing))
      && not (ltb 0 t.wrong_shape))
    && not (t.pass + t.fail == 0)

is_nil-arch_problems :
    (t : ArchTotal) (ps : List String) → is_nil (arch_problems t ps) ≡ (is_nil ps && flawless t)
unfolding arch_problems flawless
is_nil-arch_problems t ps =
    let a = is_nil-add_if (ltb 0 t.fail) problem_failures ps in
    let ps1 = add_if (ltb 0 t.fail) problem_failures ps in
    let b = is_nil-add_if (ltb 0 t.unparsed) problem_unparsed ps1 in
    let ps2 = add_if (ltb 0 t.unparsed) problem_unparsed ps1 in
    let d = is_nil-add_if (ltb 0 t.missing) problem_missing ps2 in
    let ps3 = add_if (ltb 0 t.missing) problem_missing ps2 in
    let e = is_nil-add_if (ltb 0 t.wrong_shape) problem_wrong_shape ps3 in
    let ps4 = add_if (ltb 0 t.wrong_shape) problem_wrong_shape ps3 in
    let f = is_nil-add_if (t.pass + t.fail == 0) problem_nothing_ran ps4 in
    ground (arith, a, b, d, e, f)

flawless-Flawless : (t : ArchTotal) → (flawless t ≡ true) ↔ Flawless t
unfolding flawless
flawless-Flawless t = (
  λ h. record {
    no_fail = ground arith;
    no_unparsed = ground arith;
    no_missing = ground arith;
    no_wrong_shape = ground arith;
    some_ran = ground arith;
  },
  λ f.
      let a = f.no_fail in
      let b = f.no_unparsed in
      let d = f.no_missing in
      let e = f.no_wrong_shape in let g = f.some_ran in ground (arith, a, b, d, e, g),
)

arch_problems-nil :
    (t : ArchTotal) (ps : List String)
    → (is_nil (arch_problems t ps) ≡ true) ↔ ((is_nil ps ≡ true) × Flawless t)
unfolding arch_problems
arch_problems-nil t ps =
    let e = is_nil-arch_problems t ps in
    let (to, from) = flawless-Flawless t in
    (
      λ h. (ground (arith, e), to (ground (arith, e))),
      λ h. let k = from h.1 in ground (arith, e, k),
    )

contains-head : (a y : String) (ys : List String) → str_eq a y ≡ true → contains a (y ∷ ys) ≡ true
unfolding contains
contains-head a y ys h = rw h refl

pub find_problems-nil :
    (arches : List String) (shards : List ShardReport) (tests : List TestRow) (ps : List String)
    → (is_nil (find_problems (total_arches arches shards tests) ps) ≡ true) ↔ (
        (is_nil ps ≡ true)
        × ((a : String) → contains a arches ≡ true → Flawless (arch_total a shards tests)))
unfolding find_problems total_arches contains
find_problems-nil [] shards tests ps = (λ h. (h, λ a no. ground arith), λ h. h.0)
find_problems-nil (y ∷ ys) shards tests ps =
    let t = arch_total y shards tests in
    let (to, from) = find_problems-nil ys shards tests (arch_problems t ps) in
    let (first, back) = arch_problems-nil t ps in
    (
      λ h.
          let k = to h in
          let f = first k.0 in
          (
            f.0,
            λ a m. elim (Bool-cases (str_eq a y)) [
              | inl e ↦
                  subst (λ z. Flawless (arch_total z shards tests)) (sym ((eq_iff a y).0 e)) f.1
              | inr e ↦ k.1 a (ground arith)
            ],
          ),
      λ h. from (back (h.0, h.1 y (contains-head y y ys (eq_refl y))), λ a m. h.1 a (ground arith)),
    )

is_nil-count : (xs : List String) → is_nil xs ≡ (count (λ x. true) xs == 0)
is_nil-count [] = refl
is_nil-count (x ∷ xs) = ground arith

pub is_nil-sort_strings : (xs : List String) → is_nil (sort_strings xs) ≡ is_nil xs
unfolding sort_strings
is_nil-sort_strings xs =
    let e = count-Perm (λ x. true) (insertion_sort-perm str_lt xs) in
    let a = is_nil-count (insertion_sort str_lt xs) in
    let b = is_nil-count xs in ground (arith, e, a, b)
