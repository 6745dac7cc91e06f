-- ===== src/Report/Overlap/Record.antt =====
-- report/archoverlap.go: `ArchExclusion`, the record that a both-arch run stamps into the
-- documents of its arches, and what it says of them. The total lock wait, a float, is carried as
-- it is; of the texts of `Problem` and `PublishProblem` only the kind is modelled.
use text.Mathlib.Text.{◌==◌ as str_eq}
use probatorium.Base.{
  ℕ, ◌+◌, ◌<◌, ◌≡◌, ◌↔◌, refl, ◌==◌, ltb, if◌then◌else◌, ◌&&◌, not, false, List, [], ◌∷◌, String,
  length, Option, none, some, arith, IsSort,
}
use probatorium.Report.Overlap.{
  LoadWindow, OverlapPair, OverlapReport, exclusion_off, starts_before, check_arch_overlap, usable,
  missing,
}
use probatorium.Report.Overlap.Verdict.{IsCleanRun, check-clean, clean-zeros}

pub record ArchExclusion (W : Type 0) : Type 0 where
  pub policy : String
  pub peer_arch : String
  pub cell_order : String
  pub checked : ℕ
  pub peer_checked : ℕ
  pub heavy_heavy_overlaps : ℕ
  pub heavy_light_overlaps : ℕ
  pub light_light_overlaps : ℕ
  pub violations : ℕ
  pub missing_timestamps : ℕ
  pub lock_wait_seconds : W

pub data Problem : Type 0 where
  violated unverified_windows nothing_compared policy_off : Problem

-- The problem of a record; `none` is the empty text.
record_problem : {W : Type 0} → ArchExclusion W → Option Problem
record_problem e =
    if ltb 0 e.violations
    then some violated
    else if ltb 0 e.missing_timestamps
    then some unverified_windows
    else if not (str_eq e.policy exclusion_off) && (e.checked == 0 && e.peer_checked == 0)
    then some nothing_compared
    else if str_eq e.policy exclusion_off
    then some policy_off
    else none

-- A nil record has no problem.
pub problem : {W : Type 0} → Option (ArchExclusion W) → Option Problem
unfolding record_problem
problem none = none
problem (some e) = record_problem e

module _ (sort_windows : List LoadWindow → List LoadWindow)
    (sort_pairs : List OverlapPair → List OverlapPair) {W : Type 0} where
  pub arch_exclusion_for :
      String → String → String → List LoadWindow → List LoadWindow → W → ArchExclusion W
  arch_exclusion_for policy peer_arch order own peer lock_wait_seconds =
      let rep = check_arch_overlap sort_windows sort_pairs own peer policy in
      record {
        policy = policy;
        peer_arch = peer_arch;
        cell_order = order;
        checked = rep.checks_a;
        peer_checked = rep.checks_b;
        heavy_heavy_overlaps = rep.heavy_heavy;
        heavy_light_overlaps = rep.heavy_light;
        light_light_overlaps = rep.light_light;
        violations = rep.total;
        missing_timestamps = rep.missing_a + rep.missing_b;
        lock_wait_seconds = lock_wait_seconds;
      }

-- No problem is found exactly when nothing was counted against the run, something was compared,
-- and the policy was not off.
problem-none :
    {W : Type 0} (e : ArchExclusion W)
    → (problem (some e) ≡ none) ↔ (
        (e.violations ≡ 0)
        × (e.missing_timestamps ≡ 0)
        × (str_eq e.policy exclusion_off ≡ false)
        × (0 < e.checked + e.peer_checked))
unfolding problem
problem-none e = ground arith

length-missing : (ws : List LoadWindow) → missing ws ≡ 0 → length (usable ws) ≡ length ws
unfolding missing usable
length-missing [] h = refl
length-missing (w ∷ ws) h = ground (arith, length-missing ws)

module _ (sort_windows : List LoadWindow → List LoadWindow)
    (sort_pairs : List OverlapPair → List OverlapPair) where
  module _ {W : Type 0} (policy peer_arch order : String) (own peer : List LoadWindow)
      (lock_wait_seconds : W) where
    abbrev stamped : ArchExclusion W
    stamped =
        arch_exclusion_for sort_windows sort_pairs policy peer_arch order own peer lock_wait_seconds

    stamped_lem :
        let r = check_arch_overlap sort_windows sort_pairs own peer policy in
        (stamped.violations ≡ r.total)
        × (stamped.missing_timestamps ≡ r.missing_a + r.missing_b)
        × (stamped.policy ≡ policy)
        × (stamped.checked ≡ length (usable own))
        × (stamped.peer_checked ≡ length (usable peer))
        × (r.missing_a ≡ missing own)
        × (r.missing_b ≡ missing peer)
    unfolding arch_exclusion_for check_arch_overlap
    stamped_lem = (refl, refl, refl, refl, refl, refl, refl)

    -- Provided that the windows are sorted by start, the stamped record has no problem exactly
    -- when the policy was not off, at least one window of either arch was recorded, every window
    -- has usable bounds, and no two windows that share time are forbidden by the policy.
    pub problem-clean :
        IsSort starts_before sort_windows
        → (problem (some stamped) ≡ none) ↔ (
            (str_eq policy exclusion_off ≡ false)
            × (0 < length own + length peer)
            × IsCleanRun policy own peer)
    problem-clean sorts = (to, from)
      where
        r : OverlapReport
        r = check_arch_overlap sort_windows sort_pairs own peer policy

        to :
            problem (some stamped) ≡ none
            → (str_eq policy exclusion_off ≡ false)
              × (0 < length own + length peer)
              × IsCleanRun policy own peer
        to h =
            let (v, m, p, c) = (problem-none stamped).0 h in
            let (sv, sm, sp, sc, spc, ma, mb) = stamped_lem in
            let zeros : (r.total ≡ 0) × (r.missing_a ≡ 0) × (r.missing_b ≡ 0) =
              (omega (arith, v, sv), omega (arith, m, sm), omega (arith, m, sm)) in
            (
              rw sp at p,
              omega (arith, c, sc, spc, m, sm, ma, mb, length-missing own, length-missing peer),
              (check-clean sort_windows sort_pairs own peer policy sorts).0
                  ((clean-zeros r).1 zeros),
            )

        from :
            (str_eq policy exclusion_off ≡ false)
              × (0 < length own + length peer)
              × IsCleanRun policy own peer
            → problem (some stamped) ≡ none
        from (p, c, run) =
            let (sv, sm, sp, sc, spc, ma, mb) = stamped_lem in
            let (total, ga, gb) =
              (clean-zeros r).0
                ((check-clean sort_windows sort_pairs own peer policy sorts).1 run) in
            (problem-none stamped).1 (
              omega (arith, total, sv),
              omega (arith, ga, gb, sm),
              rw sp p,
              omega (arith, c, sc, spc, ga, gb, ma, mb, length-missing own, length-missing peer),
            )
