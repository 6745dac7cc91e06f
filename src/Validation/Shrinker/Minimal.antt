-- ===== src/Validation/Shrinker/Minimal.antt =====
-- validation/shrinker.go: what the log and the minimal duration of a shrink say.
use text.Mathlib.Text.{◌==◌ as str_eq}
use mathlib.Core.Path.{subst}
use probatorium.Base.{
  Option-cases, ℕ, ◌≤◌, ◌<◌, ◌≡◌, refl, ltb, ◌||◌, Bool, true, false, List, [], none, rounds, All,
  arith, length, Bool-cases, ◌⊎◌, inl, inr,
}
use probatorium.Validation.Shrinker.{
  Outcome, ran, ShrinkResult, ShrinkCfg, Search, search_of, shrink_failing_seed, Report, report_of,
  shrunk, not_shrunk, skipped_unset, skipped_short, attempts_of, min_of,
}
use probatorium.Validation.Shrinker.Rounds.{
  IsLogged, AtLeast, IsMinimal, Inv, search-Inv, length-search, search-tries,
}

module _ (try : ℕ → ℕ → Outcome) (cancelled : ℕ → Bool) (cfg : ShrinkCfg) where
  -- An attempt was made, unless none is allowed or the context was cancelled before the first.
  abbrev HasTried : List ShrinkResult → Type 0
  HasTried log =
      (rounds (attempts_of cfg.max_attempts) ≡ 0) ⊎ (cancelled 0 ≡ true) ⊎ (0 < length log)

  -- What a shrink's files say, by their kind.
  abbrev pub Says : Report → Type 0
  Says skipped_unset = (str_eq cfg.replay_bin "" ≡ true) ⊎ (str_eq cfg.refapp_bin "" ≡ true)
  Says (skipped_short original minimum) = original < minimum
  Says (shrunk log r) =
      (length log ≤ rounds (attempts_of cfg.max_attempts))
      × All (IsLogged try (min_of cfg.min_duration) cfg.original_duration) log
      × AtLeast try (min_of cfg.min_duration) cfg.original_duration r.duration log
      × (try r.attempt r.duration ≡ ran true r.exit_code)
      × (min_of cfg.min_duration ≤ r.duration)
      × (r.duration ≤ cfg.original_duration)
  Says (not_shrunk log) =
      (length log ≤ rounds (attempts_of cfg.max_attempts))
      × All (IsLogged try (min_of cfg.min_duration) cfg.original_duration) log
      × All (λ r. r.reproduced ≡ false) log
      × HasTried log

  report_of-Says :
      (s : Search)
      → Inv try (min_of cfg.min_duration) cfg.original_duration s
      → length s.attempts ≤ rounds (attempts_of cfg.max_attempts)
      → HasTried s.attempts
      → Says (report_of s)
  unfolding report_of
  report_of-Says s v short tried = elim (Option-cases s.minimal) [
    | inl e ↦
        let found =
          subst
            (λ m. IsMinimal try (min_of cfg.min_duration) cfg.original_duration m s.high s.attempts)
            e v.found in
        rw e (short, v.logged, found.1, tried)
    | inr (r, e) ↦
        let found =
          subst
            (λ m. IsMinimal try (min_of cfg.min_duration) cfg.original_duration m s.high s.attempts)
            e v.found in
        rw e (short, v.logged, rw found.0 v.least, found.3, found.2, found.1)
  ]

  pub search_of-Inv :
      min_of cfg.min_duration ≤ cfg.original_duration
      → Inv try (min_of cfg.min_duration) cfg.original_duration (search_of try cancelled cfg)
  unfolding search_of
  search_of-Inv fits =
      search-Inv try (min_of cfg.min_duration) cfg.original_duration cancelled
        (rounds (attempts_of cfg.max_attempts)) 0 _
        (record {
          floor = omega arith;
          ordered = fits;
          ceiling = omega arith;
          logged = tt;
          least = tt;
          found = (refl, tt);
        })

  search_of-length :
      length (search_of try cancelled cfg).attempts ≤ rounds (attempts_of cfg.max_attempts)
  unfolding search_of
  search_of-length =
      let start : Search = record {
        low = min_of cfg.min_duration;
        high = cfg.original_duration;
        attempts = [];
        minimal = none;
      } in
      omega (
        arith,
        length-search try (min_of cfg.min_duration) cfg.original_duration cancelled
            (rounds (attempts_of cfg.max_attempts)) 0 start,
      )

  search_of-tries : HasTried (search_of try cancelled cfg).attempts
  unfolding search_of
  search_of-tries =
      search-tries try (min_of cfg.min_duration) cfg.original_duration cancelled
        (rounds (attempts_of cfg.max_attempts)) 0 _

  or_cases : (a b : Bool) → a || b ≡ true → (a ≡ true) ⊎ (b ≡ true)
  or_cases a b h = ground arith

  -- A shrink always ends with a report, which is right: it is skipped only if a program is not
  -- set or the original duration lies under the minimum; otherwise its log has at most the
  -- attempts allowed, all between the minimum and the original duration, and an entry says that the
  -- failure showed exactly if its attempt answered so. If it gives a minimal result, that attempt
  -- did show the failure, and no logged attempt that did was shorter; if it gives none, no logged
  -- attempt answered that the failure showed, and one was made, unless none is allowed or the
  -- context was cancelled before the first.
  pub shrink_failing_seed_lem : Says (shrink_failing_seed try cancelled cfg)
  unfolding shrink_failing_seed
  shrink_failing_seed_lem =
      elim (Bool-cases (str_eq cfg.replay_bin "" || str_eq cfg.refapp_bin "")) [
        | inl unset ↦ rw unset (or_cases _ _ unset)
        | inr set ↦
            rw set (elim (Bool-cases (ltb cfg.original_duration (min_of cfg.min_duration))) [
              | inl less ↦ rw less (ground arith)
              | inr fits ↦
                  rw fits (
                    report_of-Says _ (search_of-Inv (ground arith)) search_of-length
                      search_of-tries)
            ])
      ]
