-- ===== src/Validation/Shrinker/Tests.antt =====
-- validation/shrinker.go: a failure that shows in runs of at least 3000, and the theorems at it.
use probatorium.Base.{ℕ, ◌<◌, ◌≡◌, refl, leb, Bool, true, false, [], ◌∷◌, arith, All, pos}
use probatorium.Validation.Shrinker.{
  Outcome, ran, ShrinkCfg, ShrinkResult, Report, shrunk, shrink_failing_seed, attempts_of, min_of,
}
use probatorium.Validation.Shrinker.Minimal.{shrink_failing_seed_lem, Says}
use probatorium.Validation.Shrinker.Threshold.{shrink-Shorter, shrink-IsClose, log_of, IsClose}

abbrev cfg : ShrinkCfg
cfg = record {
  replay_bin = "validator-replay";
  refapp_bin = "refapp";
  original_duration = 10_000;
  max_attempts = pos 0;
  min_duration = 500;
}

abbrev try : ℕ → ℕ → Outcome
try i d = ran (leb 3000 d) (pos 1)

abbrev never : ℕ → Bool
never i = false

abbrev shrink : Report
shrink = shrink_failing_seed try never cfg

abbrev entry : ℕ → ℕ → Bool → ShrinkResult
entry i d b = record { attempt = i; duration = d; reproduced = b; exit_code = pos 1 }

shrink_runs :
    shrink
    ≡ shrunk
        (entry 0 5250 true
          ∷ entry 1 2875 false
          ∷ entry 2 4062 true
          ∷ entry 3 3468 true
          ∷ entry 4 3171 true
          ∷ [])
        (entry 4 3171 true)
unfolding shrink_failing_seed
shrink_runs = refl

shrink_failing_seed_lem_example : Says try never cfg shrink
shrink_failing_seed_lem_example = shrink_failing_seed_lem try never cfg

shrink-Shorter_example : All (λ r. r.duration < 10_000) (log_of shrink)
unfolding min_of
shrink-Shorter_example = shrink-Shorter try never cfg (omega arith)

shrink-IsClose_example : IsClose 3000 500 10_000 shrink
unfolding min_of attempts_of
shrink-IsClose_example =
    shrink-IsClose 3000 (λ i d. pos 1) cfg refl refl (omega arith) (omega arith) (omega arith)
