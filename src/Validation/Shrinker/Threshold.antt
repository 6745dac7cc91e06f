-- ===== src/Validation/Shrinker/Threshold.antt =====
-- validation/shrinker.go: how close the search comes, and what it never tries.
use text.Mathlib.Text.{◌==◌ as str_eq}
use native.Mathlib.Nat.{pow-suc}
use Prim.Native.Nat.{◌^◌}
use probatorium.Base.{
  Option-cases, ◌*◌, max, leb, ℕ, zero, suc, ◌+◌, ◌-◌, ◌/◌, ◌≤◌, ◌<◌, ◌≡◌, refl, ltb, ◌||◌, Bool,
  true, false, List, [], ℤ, rounds, All, All-snoc, arith, Bool-cases, ◌⊎◌, inl, inr,
}
use probatorium.Validation.Shrinker.Rounds.{Inv, IsMinimal}
use probatorium.Validation.Shrinker.Minimal.{search_of-Inv}
use mathlib.Core.Path.{subst}
use probatorium.Validation.Shrinker.{
  Outcome, infra_error, ran, ShrinkResult, ShrinkCfg, Search, midpoint, judge, is_error, search,
  search_of, shrink_failing_seed, Report, report_of, shrunk, not_shrunk, attempts_of, min_of,
}

module _ (try : ℕ → ℕ → Outcome) (cancelled : ℕ → Bool) (min_duration original : ℕ) where
  abbrev Shorter : List ShrinkResult → Type 0
  Shorter = All (λ r. r.duration < original)

  -- Between two rounds the range is not empty and the log holds shorter durations only.
  record Open (s : Search) : Type 0 where
    floor : min_duration ≤ s.low
    ordered : s.low < s.high
    ceiling : s.high ≤ original
    shorter : Shorter s.attempts

  midpoint-lt :
      (low high : ℕ) → min_duration ≤ low → low < high → midpoint min_duration low high < high
  unfolding midpoint
  midpoint-lt low high f o = ground arith

  midpoint-le :
      (low high : ℕ) → min_duration ≤ low → low < high → low ≤ midpoint min_duration low high
  unfolding midpoint
  midpoint-le low high f o = ground arith

  judge-Shorter :
      (i mid : ℕ) (answer : Outcome) (s : Search)
      → mid < original
      → Shorter s.attempts
      → Shorter (judge i mid answer s).attempts
  unfolding judge
  judge-Shorter i mid infra_error s h v = All-snoc _ s.attempts v h
  judge-Shorter i mid (ran true code) s h v = All-snoc _ s.attempts v h
  judge-Shorter i mid (ran false code) s h v = All-snoc _ s.attempts v h

  judge-range :
      (i mid : ℕ) (answer : Outcome) (s : Search)
      → s.low ≤ mid
      → mid ≤ s.high
      → let s' = judge i mid answer s in (s.low ≤ s'.low) × (s'.high ≤ s.high)
  unfolding judge
  judge-range i mid infra_error s l h = (omega arith, omega arith)
  judge-range i mid (ran true code) s l h = (omega arith, h)
  judge-range i mid (ran false code) s l h = (l, omega arith)

  search-Shorter :
      (n i : ℕ) (s : Search)
      → 0 < min_duration
      → Open s
      → Shorter (search try cancelled min_duration n i s).attempts
  unfolding search
  search-Shorter zero i s p v = v.shorter
  search-Shorter (suc n) i s p v =
      let mid = midpoint min_duration s.low s.high in
      let s' = judge i mid (try i mid) s in
      let below : mid < s.high = midpoint-lt s.low s.high v.floor v.ordered in
      let above : s.low ≤ mid = midpoint-le s.low s.high v.floor v.ordered in
      let range = judge-range i mid (try i mid) s above (omega arith) in
      let shorter = judge-Shorter i mid (try i mid) s (omega (arith, v.ceiling)) v.shorter in
      elim (Bool-cases (cancelled i)) [
        | inl stop ↦ rw stop v.shorter
        | inr go ↦
            rw go (elim (Bool-cases (is_error (try i mid) || ltb (s'.high - s'.low) min_duration)) [
              | inl stop ↦ rw stop shorter
              | inr go' ↦ rw go' (
                  search-Shorter n (i + 1) s' p (record {
                    floor = omega (arith, v.floor, range);
                    ordered = ground (arith);
                    ceiling = omega (arith, v.ceiling, range);
                    shorter = shorter;
                  }))
            ])
      ]

-- The attempts that a report tells of.
abbrev pub log_of : Report → List ShrinkResult
log_of (shrunk log r) = log
log_of (not_shrunk log) = log
log_of _ = []

log_of-report_of : (s : Search) → log_of (report_of s) ≡ s.attempts
unfolding report_of
log_of-report_of s = elim (Option-cases s.minimal) [
  | inl e ↦ rw (e, report_of)
  | inr (r, e) ↦ rw (e, report_of)
]

min_of-pos : (n : ℕ) → 0 < min_of n
unfolding min_of
min_of-pos n = ground arith

-- With an original duration above the minimum, every attempt is made at less than the original
-- duration: whether the failure shows at the original duration itself is never tried.
pub shrink-Shorter :
    (try : ℕ → ℕ → Outcome) (cancelled : ℕ → Bool) (cfg : ShrinkCfg)
    → min_of cfg.min_duration < cfg.original_duration
    → All (λ r. r.duration < cfg.original_duration) (log_of (shrink_failing_seed try cancelled cfg))
unfolding shrink_failing_seed
shrink-Shorter try cancelled cfg h =
    elim (Bool-cases (str_eq cfg.replay_bin "" || str_eq cfg.refapp_bin "")) [
      | inl unset ↦ rw unset tt
      | inr set ↦ rw set (elim (Bool-cases (ltb cfg.original_duration (min_of cfg.min_duration))) [
        | inl less ↦ absurd (ground arith)
        | inr fits ↦ rw (fits, log_of-report_of (search_of try cancelled cfg)) searched
      ])
    ]
  where
    searched : All (λ r. r.duration < cfg.original_duration) (search_of try cancelled cfg).attempts
    searched =
        unfold search_of in
        search-Shorter try cancelled (min_of cfg.min_duration) cfg.original_duration
          (rounds (attempts_of cfg.max_attempts)) 0 _ (min_of-pos cfg.min_duration)
          (record { floor = omega arith; ordered = h; ceiling = omega arith; shorter = tt })

halved : (g g' k : ℕ) → 2 * g' ≤ g + 1 → g ≤ 2 * k → g' ≤ k
halved g g' k h e = omega arith

doubled : (n m : ℕ) {g : ℕ} → g ≤ 2 ^ suc n * m → g ≤ 2 * (2 ^ n * m)
doubled n m h =
    let e : 2 ^ suc n * m ≡ 2 * (2 ^ n * m) = rw (pow-suc 2 n) (omega arith) in omega (arith, e)

-- A failure that shows exactly in runs of at least `t`.
module _ (t : ℕ) (exit_code : ℕ → ℕ → ℤ) (min_duration : ℕ) where
  abbrev shows_from : ℕ → ℕ → Outcome
  shows_from i d = ran (leb t d) (exit_code i d)

  abbrev never : ℕ → Bool
  never i = false

  -- The failure shows at `high`, and not at `low` unless the search has not raised it.
  record Brackets (s : Search) : Type 0 where
    floor : min_duration ≤ s.low
    ordered : s.low ≤ s.high
    shows : t ≤ s.high
    hides : (s.low < t) ⊎ (s.low ≡ min_duration)

  midpoint_lem :
      (low high : ℕ)
      → min_duration ≤ low
      → low ≤ high
      → midpoint min_duration low high ≡ low + (high - low) / 2
  unfolding midpoint
  midpoint_lem low high f o = ground arith

  -- A round at the midpoint keeps that and halves the range, rounding up.
  judge-Brackets :
      (i mid : ℕ) (s : Search)
      → Brackets s
      → mid ≡ s.low + (s.high - s.low) / 2
      → (b : Bool) → leb t mid ≡ b
      → Brackets (judge i mid (ran b (exit_code i mid)) s)
        × (2
              * ((judge i mid (ran b (exit_code i mid)) s).high
                  - (judge i mid (ran b (exit_code i mid)) s).low)
            ≤ (s.high - s.low) + 1)
  unfolding judge
  judge-Brackets i mid s v m true e = (
    record {
      floor = v.floor;
      ordered = omega (arith, v.ordered);
      shows = ground arith;
      hides = v.hides;
    },
    omega (arith, v.ordered),
  )
  judge-Brackets i mid s v m false e = (
    record {
      floor = omega (arith, v.floor);
      ordered = omega (arith, v.ordered);
      shows = v.shows;
      hides = inl (ground arith);
    },
    omega (arith, v.ordered),
  )

  search-close :
      (n i : ℕ) (s : Search)
      → 0 < min_duration
      → Brackets s
      → s.high - s.low ≤ 2 ^ n * (min_duration - 1)
      → let s' = search shows_from never min_duration n i s in
        Brackets s' × (s'.high - s'.low < min_duration)
  unfolding search
  search-close zero i s p v g = (v, grind arith)
  search-close (suc n) i s p v g =
      let mid : ℕ = midpoint min_duration s.low s.high in
      let s' : Search = judge i mid (shows_from i mid) s in
      let (v', half) =
        judge-Brackets i mid s v (midpoint_lem s.low s.high v.floor v.ordered) (leb t mid) refl in
      let fewer : s'.high - s'.low ≤ 2 ^ n * (min_duration - 1) =
        halved (s.high - s.low) (s'.high - s'.low) (2 ^ n * (min_duration - 1)) half
          (doubled n (min_duration - 1) g) in
      elim (Bool-cases (ltb (s'.high - s'.low) min_duration)) [
        | inl stop ↦ rw stop (v', ground arith)
        | inr go ↦ rw go (search-close n (i + 1) s' p v' fewer)
      ]

-- What a search for a failure that shows from `t` on has found: the shortest run it kept shows
-- the failure, and is less than the minimum duration away from `t`, or from the minimum.
abbrev pub IsClose : ℕ → ℕ → ℕ → Report → Type 0
IsClose t minimum original (shrunk log r) =
    (t ≤ r.duration) × (r.duration < max (t - 1) minimum + minimum)
IsClose t minimum original (not_shrunk log) = original < max (t - 1) minimum + minimum
IsClose t minimum original _ = ⊥

module _ (t : ℕ) (exit_code : ℕ → ℕ → ℤ) (minimum original : ℕ) where
  report_of-IsClose :
      (s : Search)
      → Inv (shows_from t exit_code minimum) minimum original s
      → Brackets t exit_code minimum s
      → s.high - s.low < minimum
      → IsClose t minimum original (report_of s)
  unfolding report_of
  report_of-IsClose s v b g = elim (Option-cases s.minimal) [
    | inl e ↦
        let found : s.high ≡ original =
          (subst
            (λ m. IsMinimal (shows_from t exit_code minimum) minimum original m s.high s.attempts) e
            v.found).0 in
        rw (e, report_of) (ground (arith, found, b.hides))
    | inr (r, e) ↦
        let found : r.duration ≡ s.high =
          (subst
            (λ m. IsMinimal (shows_from t exit_code minimum) minimum original m s.high s.attempts) e
            v.found).0 in
        rw (e, report_of) (ground (arith, found, b.shows), ground (arith, found, b.hides))
  ]

module _ (t : ℕ) (exit_code : ℕ → ℕ → ℤ) (cfg : ShrinkCfg) where
  -- A failure that shows exactly in runs of at least `t`, `t` at most the original duration, is
  -- found to within the minimum duration, provided that both programs are set, no attempt meets
  -- an error, the context is not cancelled, and the attempts allowed suffice to halve the range
  -- down. The minimal result takes at least `t`, and less than the minimum more than `t - 1` or,
  -- if that is more, than the minimum; with no minimal result the original duration is that close.
  pub shrink-IsClose :
      str_eq cfg.replay_bin "" ≡ false
      → str_eq cfg.refapp_bin "" ≡ false
      → t ≤ cfg.original_duration
      → min_of cfg.min_duration ≤ cfg.original_duration
      → cfg.original_duration - min_of cfg.min_duration
        ≤ 2 ^ rounds (attempts_of cfg.max_attempts) * (min_of cfg.min_duration - 1)
      → IsClose t
          (min_of cfg.min_duration)
          cfg.original_duration
          (shrink_failing_seed (λ i d. ran (leb t d) (exit_code i d)) (λ i. false) cfg)
  unfolding shrink_failing_seed
  shrink-IsClose replay refapp shows fits enough =
      rw (replay, refapp)
        (elim (Bool-cases (ltb cfg.original_duration (min_of cfg.min_duration))) [
          | inl less ↦ absurd (ground arith)
          | inr long ↦ rw long (
              report_of-IsClose t exit_code (min_of cfg.min_duration) cfg.original_duration s kept
                found.0 found.1)
        ])
    where
      s : Search
      s = search_of (λ i d. ran (leb t d) (exit_code i d)) (λ i. false) cfg

      kept :
          Inv
            (λ i d. ran (leb t d) (exit_code i d))
            (min_of cfg.min_duration)
            cfg.original_duration
            s
      kept = search_of-Inv (λ i d. ran (leb t d) (exit_code i d)) (λ i. false) cfg fits

      found :
          Brackets t exit_code (min_of cfg.min_duration) s
          × (s.high - s.low < min_of cfg.min_duration)
      found =
          unfold search_of in
          search-close t exit_code (min_of cfg.min_duration) (rounds (attempts_of cfg.max_attempts))
            0 _ (min_of-pos cfg.min_duration)
            (record { floor = omega arith; ordered = fits; shows = shows; hides = inr refl }) enough
