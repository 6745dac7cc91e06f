-- ===== src/Validation/Evaluator/Tests.antt =====
-- validation/checker/evaluator.go: three predicates over five samples.
use probatorium.Base.{
  ℕ, ◌==◌, ltb, if◌then◌else◌, Bool, true, List, [], ◌∷◌, String, none, ◌≡◌, refl, insertion_sort,
  str_lt, contains, count,
}
use probatorium.Validation.Evaluator.{Spec, Snapshot, Evaluator}
use probatorium.Validation.Evaluator.Samples.{observe, new_evaluator}
use probatorium.Validation.Evaluator.Summary.{tally, passed, is_verified, passed-verified}
use probatorium.Validation.Evaluator.Streaks.{Holds}
use probatorium.Validation.Evaluator.Runs.{run, outcomes, run-Holds}

abbrev spec : String → ℕ → (Snapshot → Bool × String) → Spec
spec id persist judge = record {
  id = id;
  predicate = λ snap ctx. judge snap;
  persist = persist;
  min_observation = 0;
  shadow = none;
}

-- At most 100 goroutines, but for one sample; a predicate that skips; one without data.
abbrev few_goroutines : Spec
few_goroutines = spec "I-CONN-2" 2 (λ snap. (ltb snap.goroutine_count 101, "too many"))

abbrev skips : Spec
skips = spec "I-MEM-1" 0 (λ snap. (true, "skip: too early"))

abbrev race : Spec
race = spec "I-RACE" 0 (λ snap. (true, ""))

abbrev sample : ℕ → Snapshot
sample goroutines = record {
  goroutine_count = goroutines;
  heap_inuse_bytes = 0;
  rss_bytes = 0;
  instrumented_properties = "I-DRV,";
  idle_window = 0;
  adaptive_switches = 0;
  engine = λ k. 0;
}

-- The latest first.
abbrev samples : List ℕ → List (Snapshot × ℕ)
samples [] = []
samples (n ∷ ns) = (sample n, 7) ∷ samples ns

abbrev cell : List ℕ → Evaluator
cell ns = run (λ s. s) (few_goroutines ∷ skips ∷ race ∷ []) (samples ns)

-- One failure in a row is none; two are one violation, three are two.
violations :
    ((cell (50 ∷ 200 ∷ 50 ∷ [])).per "I-CONN-2" ≡ 0)
    × ((cell (200 ∷ 200 ∷ 50 ∷ [])).per "I-CONN-2" ≡ 1)
    × ((cell (50 ∷ 200 ∷ 200 ∷ 200 ∷ [])).per "I-CONN-2" ≡ 2)
unfolding run observe new_evaluator
violations = (refl, refl, refl)

passes :
    (passed (tally (cell (50 ∷ 200 ∷ 50 ∷ []))) ≡ 1)
    × (passed (tally (cell (200 ∷ 200 ∷ 50 ∷ []))) ≡ 0)
    × (passed (tally (cell [])) ≡ 0)
unfolding run observe new_evaluator tally passed insertion_sort str_lt contains
passes = (refl, refl, refl)

passed-verified_example : passed (tally (cell (50 ∷ 200 ∷ 50 ∷ []))) ≡ (
    if (cell (50 ∷ 200 ∷ 50 ∷ [])).counts.samples == 0
    then 0
    else count (is_verified (cell (50 ∷ 200 ∷ 50 ∷ []))) (cell (50 ∷ 200 ∷ 50 ∷ [])).specs)
passed-verified_example = passed-verified (cell (50 ∷ 200 ∷ 50 ∷ []))

run-Holds_example : Holds (cell (200 ∷ 200 ∷ 50 ∷ [])) "I-CONN-2" 2 (
    outcomes
      (λ s. s)
      (few_goroutines ∷ skips ∷ race ∷ [])
      few_goroutines
      (samples (200 ∷ 200 ∷ 50 ∷ [])))
run-Holds_example =
    run-Holds (λ s. s) [] (skips ∷ race ∷ []) few_goroutines (samples (200 ∷ 200 ∷ 50 ∷ [])) tt
      (refl, (refl, tt))
