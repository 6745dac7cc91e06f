-- ===== src/Stresstally/Guard/InTheWay.antt =====
-- tools/stresstally/guard.go: which runs stand in the way of another, said of what the files hold.
use text.Mathlib.Text.{◌==◌ as str_eq, starts_with}
use probatorium.Base.{
  ℕ, if◌then◌else◌, ◌||◌, ◌&&◌, not, Bool, true, false, List, [], ◌∷◌, Option, none, some, All, ◌≡◌,
  refl, ◌⊎◌, inl, inr, arith, ◌∙◌, ◌↔◌, IsSort, All-map, String, ap,
}
use probatorium.Stresstally.Guard.{
  GhRun, GhJob, RunClass, classify_run, classify_stress_run, classify_by_guard, find_guard,
  has_started, contains_path, cluster_group_workflows, decide, classify_runs, allows, by_id, holder,
  pending, holds_group, waits_in_group,
}
use probatorium.Stresstally.Guard.Decision.{
  first_open, blocks, judged, NothingJudged, decide-NothingJudged,
}

module _ {ℓ} {A : Type ℓ} where
  abbrev any : (A → Bool) → List A → Bool
  any p [] = false
  any p (x ∷ xs) = p x || any p xs

  abbrev or_else : Option A → Option A → Option A
  or_else none y = y
  or_else (some x) y = some x

  or_else-if :
      (o : Option A) (b : Bool) (x : A) (found : Option A)
      → or_else o (if b then some x else found)
        ≡ or_else (or_else o (if b then some x else none)) found
  or_else-if none true x found = refl
  or_else-if none false x found = refl
  or_else-if (some y) b x found = refl

  -- The last item that passes the test.
  abbrev last_of : (A → Bool) → List A → Option A
  last_of p [] = none
  last_of p (x ∷ xs) = or_else (last_of p xs) (if p x then some x else none)

-- A run of a workflow that joins the group waits for it or holds it. One that is in progress holds
-- it, and that stands in the way only where the cluster must be idle.
abbrev group_run_blocks : Bool → GhRun → Bool
group_run_blocks idle r = idle || not (str_eq r.status "in_progress")

-- A job of the cluster call that has started.
abbrev is_running : GhJob → Bool
is_running j =
    starts_with j.name "cluster / "
    && (str_eq j.status "completed" || str_eq j.status "in_progress")

-- A stress run whose last guard job succeeded is as one in the group, which holds it if a job of
-- the cluster call has started; one whose guard concluded otherwise never gets there, and one that
-- has no guard job yet, or an unfinished one, may be about to.
abbrev guarded_blocks : Bool → Option GhJob → Bool → Bool
guarded_blocks idle none started = true
guarded_blocks idle (some guard) started =
    not (str_eq guard.status "completed")
    || (str_eq guard.conclusion "success" && (idle || not started))

-- A stress run of a pull request, or one for GitHub's own machines, never joins the group.
abbrev stress_run_blocks : Bool → List GhJob → GhRun → Bool
stress_run_blocks idle jobs r =
    not (str_eq r.event "pull_request")
    && not (starts_with r.display_title "Celeris Stress [github/")
    && guarded_blocks idle (last_of (λ j. str_eq j.name "cluster-guard") jobs) (any is_running jobs)

abbrev pub run_blocks : Bool → List GhJob → GhRun → Bool
run_blocks idle jobs r =
    if any (λ path. str_eq r.path path) cluster_group_workflows
    then group_run_blocks idle r
    else str_eq r.path ".github/workflows/celeris-stress.yml" && stress_run_blocks idle jobs r

abbrev open_blocks : Bool → (ℕ → List GhJob) → Option GhRun → Bool
open_blocks idle jobs none = false
open_blocks idle jobs (some r) = run_blocks idle (jobs r.id) r

-- For every run listed but `self`: what is open of its id, in its first entry that is not
-- completed, does not stand in the way.
abbrev pub NothingBlocks : (ℕ → List GhJob) → Bool → ℕ → List GhRun → Type 0
NothingBlocks jobs idle self rs =
    All (λ r. (r.id ≡ self) ⊎ (open_blocks idle jobs (first_open r.id rs) ≡ false)) rs

contains_path-any : (x : String) (ys : List String) → contains_path x ys ≡ any (λ y. str_eq x y) ys
unfolding contains_path
contains_path-any x [] = refl
contains_path-any x (y ∷ ys) = ground (arith, contains_path-any x ys)

has_started-any : (js : List GhJob) → has_started js ≡ any is_running js
unfolding has_started
has_started-any [] = refl
has_started-any (j ∷ js) = ground (arith, has_started-any js)

find_guard-last_of :
    (js : List GhJob) (found : Option GhJob)
    → find_guard js found ≡ or_else (last_of (λ j. str_eq j.name "cluster-guard") js) found
unfolding find_guard
find_guard-last_of [] found = refl
find_guard-last_of (j ∷ js) found =
    find_guard-last_of js (if str_eq j.name "cluster-guard" then some j else found)
    ∙ or_else-if (last_of (λ k. str_eq k.name "cluster-guard") js) (str_eq j.name "cluster-guard") j
        found

or_else-none {ℓ} : {A : Type ℓ} (o : Option A) → or_else o none ≡ o
or_else-none none = refl
or_else-none (some x) = refl

module _ (idle : Bool) where
  classify_by_guard-blocks :
      (r : GhRun) (started : Bool) (guard : Option GhJob)
      → blocks idle (classify_by_guard r started guard).class ≡ guarded_blocks idle guard started
  unfolding classify_by_guard
  classify_by_guard-blocks r started none = refl
  classify_by_guard-blocks r started (some guard) = ground arith

  classify_stress_run-blocks :
      (r : GhRun) (js : List GhJob)
      → blocks idle (classify_stress_run r js).class ≡ stress_run_blocks idle js r
  unfolding classify_stress_run
  classify_stress_run-blocks r js =
      let guard = find_guard-last_of js none ∙ or_else-none _ in
      let started = has_started-any js in
      let guarded =
        classify_by_guard-blocks r (has_started js) (find_guard js none)
        ∙ ap (λ g. guarded_blocks idle g (has_started js)) guard
        ∙ ap (guarded_blocks idle (last_of (λ j. str_eq j.name "cluster-guard") js)) started in
      ground (arith, guarded)

  abbrev one_if_blocks : Option RunClass → ℕ
  one_if_blocks none = 0
  one_if_blocks (some c) = if blocks idle c.class then 1 else 0

  -- The two tests of the loop, and what they choose between.
  one_if_blocks-choice :
      (in_group in_progress is_stress stress_blocks : Bool) (held waits stress : RunClass)
      → blocks idle held.class ≡ idle
      → blocks idle waits.class ≡ true
      → blocks idle stress.class ≡ stress_blocks
      → one_if_blocks (
          if in_group
          then if in_progress then some held else some waits
          else if is_stress
          then some stress
          else none)
        ≡ (if (if in_group then idle || not in_progress else is_stress && stress_blocks)
            then 1
            else 0)
  one_if_blocks-choice true true is_stress b held waits stress h w t = ground (arith, h)
  one_if_blocks-choice true false is_stress b held waits stress h w t = ground (arith, w)
  one_if_blocks-choice false in_progress true b held waits stress h w t = ground (arith, t)
  one_if_blocks-choice false in_progress false b held waits stress h w t = refl

  module _ (jobs : ℕ → List GhJob) where
    classify_run-blocks :
        (r : GhRun)
        → one_if_blocks (classify_run jobs r) ≡ (if run_blocks idle (jobs r.id) r then 1 else 0)
    unfolding classify_run
    classify_run-blocks r =
        one_if_blocks-choice (contains_path r.path cluster_group_workflows)
          (str_eq r.status "in_progress") (str_eq r.path ".github/workflows/celeris-stress.yml")
          (stress_run_blocks idle (jobs r.id) r)
          (record { run = r; class = holder; why = holds_group })
          (record { run = r; class = pending; why = waits_in_group r.status })
          (classify_stress_run r (jobs r.id)) refl refl (classify_stress_run-blocks r (jobs r.id))
        ∙ ap
            (λ g.
              if (if g
                then group_run_blocks idle r
                else str_eq r.path ".github/workflows/celeris-stress.yml"
                  && stress_run_blocks idle (jobs r.id) r)
              then 1
              else 0)
            (contains_path-any r.path cluster_group_workflows)

    one_if_blocks-elim :
        (o : Option RunClass)
        → (elim o [ none ↦ 0 | some c ↦ if blocks idle c.class then 1 else 0 ]) ≡ one_if_blocks o
    one_if_blocks-elim none = refl
    one_if_blocks-elim (some c) = refl

    judged-open_blocks :
        (o : Option GhRun)
        → judged jobs (λ c. blocks idle c.class) o ≡ (if open_blocks idle jobs o then 1 else 0)
    judged-open_blocks none = refl
    judged-open_blocks (some r) = one_if_blocks-elim (classify_run jobs r) ∙ classify_run-blocks r

    NothingJudged-NothingBlocks :
        (self : ℕ) (rs : List GhRun)
        → NothingJudged jobs idle self rs ↔ NothingBlocks jobs idle self rs
    NothingJudged-NothingBlocks self rs = (
      All-map _ _ rs (λ r h. one_way (judged-open_blocks (first_open r.id rs)) h),
      All-map _ _ rs (λ r h. other_way (judged-open_blocks (first_open r.id rs)) h),
    )
      where
        one_way :
            {P : Type 0} {n : ℕ} {b : Bool}
            → n ≡ (if b then 1 else 0)
            → P ⊎ (n ≡ 0)
            → P ⊎ (b ≡ false)
        one_way e (inl k) = inl k
        one_way e (inr k) = inr (ground (arith, e, k))

        other_way :
            {P : Type 0} {n : ℕ} {b : Bool}
            → n ≡ (if b then 1 else 0)
            → P ⊎ (b ≡ false)
            → P ⊎ (n ≡ 0)
        other_way e (inl k) = inl k
        other_way e (inr k) = inr (ground (arith, e, k))

module _ (sort : List RunClass → List RunClass) (jobs : ℕ → List GhJob) (idle : Bool) (self : ℕ)
    (runs : List GhRun) where
  -- Provided that the sort permutes, a run is allowed exactly when nothing that is listed stands in
  -- its way.
  pub decide-NothingBlocks :
      IsSort by_id sort
      → (allows (decide idle (classify_runs sort runs jobs self)) ≡ true)
        ↔ NothingBlocks jobs idle self runs
  decide-NothingBlocks sorts =
      let judged_so = decide-NothingJudged sort jobs idle self runs sorts in
      let same = NothingJudged-NothingBlocks idle jobs self runs in
      (λ e. same.0 (judged_so.0 e), λ h. judged_so.1 (same.1 h))
