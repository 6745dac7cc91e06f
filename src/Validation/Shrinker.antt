-- ===== src/Validation/Shrinker.antt =====
-- validation/shrinker.go: the search for the shortest run that still shows a failure. A shrink
-- attempt forks other programs, so what it answers is a parameter, and so is whether the context
-- is cancelled; both may change from round to round. Durations are nanoseconds as natural
-- numbers. What is written to files is the result; that a write fails is not modelled.
pub mod Rounds
pub mod Minimal
pub mod Threshold
mod Tests
use text.Mathlib.Text.{◌==◌ as str_eq}
use probatorium.Base.{
  ℕ, zero, suc, ◌+◌, ◌-◌, ◌/◌, ◌==◌, ltb, if◌then◌else◌, ◌||◌, Bool, true, false, List, [], ◌∷◌,
  ◌++◌, String, Option, none, some, ℤ, pos, negsuc, rounds,
}

-- What `attemptShrink` returns: an infrastructure error, or whether the failure showed and the
-- exit code.
pub data Outcome : Type 0 where
  infra_error : Outcome
  ran : (reproduced : Bool) (exit_code : ℤ) → Outcome

pub record ShrinkResult : Type 0 where
  pub attempt : ℕ
  pub duration : ℕ
  pub reproduced : Bool
  pub exit_code : ℤ

pub record ShrinkCfg : Type 0 where
  pub replay_bin : String
  pub refapp_bin : String
  pub original_duration : ℕ
  pub max_attempts : ℤ
  pub min_duration : ℕ

-- The variables of the loop.
pub record Search : Type 0 where
  pub low : ℕ
  pub high : ℕ
  pub attempts : List ShrinkResult
  pub minimal : Option ShrinkResult

-- The midpoint that a round tries.
pub midpoint : ℕ → ℕ → ℕ → ℕ
midpoint min_duration low high =
    let mid = low + (high - low) / 2 in if ltb mid min_duration then min_duration else mid

-- What a round does with the answer to its attempt, and whether the loop ends on an error.
pub judge : ℕ → ℕ → Outcome → Search → Search
judge i mid infra_error s = record s {
  attempts =
      s.attempts
      ++ record { attempt = i; duration = mid; reproduced = false; exit_code = negsuc 0 } ∷ [];
}
judge i mid (ran true code) s =
    let result : ShrinkResult = record {
      attempt = i;
      duration = mid;
      reproduced = true;
      exit_code = code;
    } in
    record s { high = mid; attempts = s.attempts ++ result ∷ []; minimal = some result }
judge i mid (ran false code) s = record s {
  low = mid;
  attempts =
      s.attempts
      ++ record { attempt = i; duration = mid; reproduced = false; exit_code = code } ∷ [];
}

pub is_error : Outcome → Bool
is_error infra_error = true
is_error (ran _ _) = false

module _ (try : ℕ → ℕ → Outcome) (cancelled : ℕ → Bool) (min_duration : ℕ) where
  -- The loop, with the rounds left and the number of the next.
  pub search : ℕ → ℕ → Search → Search
  unfolding midpoint judge is_error
  search zero i s = s
  search (suc n) i s =
      let mid = midpoint min_duration s.low s.high in
      let answer = try i mid in
      let s' = judge i mid answer s in
      let rest = search n (i + 1) s' in
      if cancelled i
      then s
      else if is_error answer || ltb (s'.high - s'.low) min_duration
      then s'
      else rest

-- The files that a shrink leaves.
pub data Report : Type 0 where
  skipped_unset : Report
  skipped_short : (original minimum : ℕ) → Report
  shrunk : (log : List ShrinkResult) (minimal : ShrinkResult) → Report
  not_shrunk : (log : List ShrinkResult) → Report

-- The defaults: 8 attempts and 500 ms.
pub attempts_of : ℤ → ℤ
attempts_of (pos n) = if n == 0 then pos 8 else pos n
attempts_of (negsuc n) = negsuc n

pub min_of : ℕ → ℕ
min_of n = if n == 0 then 500_000_000 else n

pub report_of : Search → Report
report_of s = elim s.minimal [ none ↦ not_shrunk s.attempts | some r ↦ shrunk s.attempts r ]

module _ (try : ℕ → ℕ → Outcome) (cancelled : ℕ → Bool) where
  pub search_of : ShrinkCfg → Search
  unfolding search attempts_of min_of
  search_of cfg =
      search try cancelled (min_of cfg.min_duration) (rounds (attempts_of cfg.max_attempts)) 0
        (record {
          low = min_of cfg.min_duration;
          high = cfg.original_duration;
          attempts = [];
          minimal = none;
        })

  pub shrink_failing_seed : ShrinkCfg → Report
  unfolding search_of report_of
  shrink_failing_seed cfg =
      if str_eq cfg.replay_bin "" || str_eq cfg.refapp_bin ""
      then skipped_unset
      else if ltb cfg.original_duration (min_of cfg.min_duration)
      then skipped_short cfg.original_duration (min_of cfg.min_duration)
      else report_of (search_of cfg)
