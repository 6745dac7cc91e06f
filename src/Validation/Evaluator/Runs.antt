-- ===== src/Validation/Evaluator/Runs.antt =====
-- What the evaluator holds of a predicate after the samples of a cell.
use text.Mathlib.Text.{◌==◌ as str_eq}
use mathlib.Core.Path.{subst}
use probatorium.Base.{
  ℕ, ◌==◌, if◌then◌else◌, ◌&&◌, Bool, true, false, List, [], ◌∷◌, ◌++◌, String, Option, none, some,
  ◌≡◌, refl, sym, ap, ◌∙◌, All,
}
use probatorium.Validation.Evaluator.{Spec, Snapshot, Evaluator}
use probatorium.Validation.Evaluator.Verdicts.{Outcome, observe_specs}
use probatorium.Validation.Evaluator.Samples.{
  take_sample, observe, new_evaluator, first_sample, attempt, leave_idle, count_sample, last_sample,
  note_sample, append_sample,
}
use probatorium.Validation.Evaluator.Streaks.{
  Holds, outcome, observe_specs-Frame, observe_specs-Holds,
}

-- What is written before the evaluation leaves a predicate's counts and the predicates alone.
record Untouched (e f : Evaluator) : Type 0 where
  streak : f.streak ≡ e.streak
  judged : f.judged ≡ e.judged
  per : f.per ≡ e.per
  specs : f.specs ≡ e.specs

untouched : {e : Evaluator} → Untouched e e
untouched = record { streak = refl; judged = refl; per = refl; specs = refl }

Untouched-trans : {e f g : Evaluator} → Untouched e f → Untouched f g → Untouched e g
Untouched-trans h k = record {
  streak = k.streak ∙ h.streak;
  judged = k.judged ∙ h.judged;
  per = k.per ∙ h.per;
  specs = k.specs ∙ h.specs;
}

Untouched-if :
    {e f g : Evaluator} (b : Bool)
    → Untouched e f
    → Untouched e g
    → Untouched e (if b then f else g)
Untouched-if true h k = h
Untouched-if false h k = k

first_sample-Untouched :
    (snap : Snapshot) (now : ℕ) (e : Evaluator) → Untouched e (first_sample snap now e)
unfolding first_sample
first_sample-Untouched snap now e =
    Untouched-if (e.counts.samples == 0)
      (record { streak = refl; judged = refl; per = refl; specs = refl }) untouched

count_sample-Untouched : (e : Evaluator) → Untouched e (count_sample e)
unfolding count_sample
count_sample-Untouched e = record { streak = refl; judged = refl; per = refl; specs = refl }

attempt-Untouched : (t : ℕ) (e : Evaluator) → Untouched e (attempt t e)
unfolding attempt
attempt-Untouched t e =
    Untouched-if (t == 0) untouched
      (record { streak = refl; judged = refl; per = refl; specs = refl })

leave_idle-Untouched :
    (prev : Option Snapshot) (snap : Snapshot) (now : ℕ) (e : Evaluator)
    → Untouched e (leave_idle prev snap now e)
unfolding leave_idle
leave_idle-Untouched none snap now e = untouched
leave_idle-Untouched (some prev) snap now e =
    Untouched-if
      (prev.idle_window == 1 && (snap.idle_window == 0 && e.ctx.idle_baseline_goroutines == 0))
      (record { streak = refl; judged = refl; per = refl; specs = refl }) untouched

append_sample-Untouched :
    (snap : Snapshot) (now : ℕ) (e : Evaluator) → Untouched e (append_sample snap now e)
unfolding append_sample
append_sample-Untouched snap now e = record {
  streak = refl;
  judged = refl;
  per = refl;
  specs = refl;
}

Untouched-Holds :
    {e f : Evaluator} {id : String} {persist : ℕ} {past : List Outcome}
    → Untouched e f
    → Holds e id persist past
    → Holds f id persist past
Untouched-Holds {id = id} u h = record {
  streak = ap (λ m. m id) u.streak ∙ h.streak;
  judged = ap (λ m. m id) u.judged ∙ h.judged;
  declared = ap (λ m. m id) u.per ∙ h.declared;
}

module _ (trim_space : String → String) where
  note_sample-Untouched :
      (snap : Snapshot) (e : Evaluator) → Untouched e (note_sample trim_space snap e)
  unfolding note_sample
  note_sample-Untouched snap e = record { streak = refl; judged = refl; per = refl; specs = refl }

  take_sample-Untouched :
      (snap : Snapshot) (now : ℕ) (e : Evaluator) → Untouched e (take_sample trim_space snap now e)
  unfolding take_sample
  take_sample-Untouched snap now e =
      let first = first_sample snap now e in
      let counted = count_sample first in
      let tried = attempt now counted in
      let used = note_sample trim_space snap tried in
      let idled = leave_idle (last_sample used.ctx.history) snap now used in
      Untouched-trans (first_sample-Untouched snap now e) (
        Untouched-trans (count_sample-Untouched first) (
          Untouched-trans (attempt-Untouched now counted) (
            Untouched-trans (note_sample-Untouched snap tried) (
              Untouched-trans (leave_idle-Untouched (last_sample used.ctx.history) snap now used)
                (append_sample-Untouched snap now idled)))))

  -- The samples of a cell, the latest first, observed by an evaluator of the given predicates.
  unfoldable pub run : List Spec → List (Snapshot × ℕ) → Evaluator
  run specs [] = new_evaluator specs
  run specs (sample ∷ earlier) = (observe trim_space sample.0 sample.1 (run specs earlier)).0

  -- The outcomes of a predicate on them, the latest first, each in the context of its sample.
  pub outcomes : List Spec → Spec → List (Snapshot × ℕ) → List Outcome
  unfolding outcome run
  outcomes specs s [] = []
  outcomes specs s (sample ∷ earlier) =
      outcome s sample.0 (take_sample trim_space sample.0 sample.1 (run specs earlier)).ctx
      ∷ outcomes specs s earlier

  run-specs :
      (specs : List Spec) (samples : List (Snapshot × ℕ)) → (run specs samples).specs ≡ specs
  unfolding run observe new_evaluator
  run-specs specs [] = refl
  run-specs specs (sample ∷ earlier) =
      let e = run specs earlier in
      let taken = take_sample trim_space sample.0 sample.1 e in
      (observe_specs-Frame sample.0 e.specs taken []).specs
      ∙ (take_sample-Untouched sample.0 sample.1 e).specs
      ∙ run-specs specs earlier

  -- After any samples, an evaluator holds of each predicate that shares its id with no other: the
  -- number of its failures since it last passed, skips aside; the number of its verdicts; and as
  -- its declared violations the number of its failures that came with at least `persist` failures
  -- in a row.
  pub run-Holds :
      (before after : List Spec) (s : Spec) (samples : List (Snapshot × ℕ))
      → All (λ x. str_eq s.id x.id ≡ false) before
      → All (λ x. str_eq s.id x.id ≡ false) after
      → Holds
          (run (before ++ s ∷ after) samples)
          s.id
          s.persist
          (outcomes (before ++ s ∷ after) s samples)
  unfolding run outcomes observe new_evaluator
  run-Holds before after s [] ahead others = record {
    streak = refl;
    judged = refl;
    declared = refl;
  }
  run-Holds before after s (sample ∷ earlier) ahead others =
      let specs = before ++ s ∷ after in
      let e = run specs earlier in
      let taken = take_sample trim_space sample.0 sample.1 e in
      let h =
        Untouched-Holds (take_sample-Untouched sample.0 sample.1 e)
          (run-Holds before after s earlier ahead others) in
      let k =
        observe_specs-Holds sample.0 before after s taken [] (outcomes specs s earlier) ahead others
          h in
      subst
        (λ l.
          Holds (observe_specs sample.0 l taken []).0 s.id s.persist
            (outcome s sample.0 taken.ctx ∷ outcomes specs s earlier))
        (sym (run-specs specs earlier)) k
