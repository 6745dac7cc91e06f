-- ===== src/Validation/Evaluator/Verdicts.antt =====
-- One sample's verdicts: each predicate, its streak of failures and the violations declared, and
-- the informational twin of a predicate.
use text.Mathlib.Text.{starts_with}
use probatorium.Base.{
  ◌+◌, ltb, ◌==◌, if◌then◌else◌, ◌&&◌, Bool, true, false, List, [], ◌∷◌, ◌++◌, String, Option, none,
  some,
}
use probatorium.Validation.Evaluator.{
  Snapshot, Shadow, Spec, Violation, ShadowTally, Evaluator, set_key,
}

abbrev skip_prefix : String
skip_prefix = "skip: "

unfoldable pub is_skip : Bool → String → Bool
is_skip ok msg = ok && starts_with msg skip_prefix

-- What one predicate did on a sample.
pub data Outcome : Type 0 where
  skipped passed failed : Outcome

unfoldable pub outcome_of : Bool → String → Outcome
unfolding is_skip
outcome_of ok msg = if is_skip ok msg then skipped else if ok then passed else failed

-- The state after a verdict that failed, with the violation where it is declared.
unfoldable pub fail_spec : Spec → String → Snapshot → Evaluator → Evaluator × Option Violation
unfolding set_key
fail_spec s msg snap e =
    let n = e.streak s.id + 1 in
    let failing = record e { streak = set_key e.streak s.id n } in
    if ltb n s.persist
    then (failing, none)
    else let is_first = e.per s.id == 0 in
      (
        record failing {
          counts = record (e.counts) { violations = e.counts.violations + 1 };
          per = set_key e.per s.id (e.per s.id + 1);
          first = if is_first then set_key e.first s.id msg else e.first;
        },
        some (record { id = s.id; message = msg; snapshot = snap; first = is_first }),
      )

unfoldable pub add_outcome :
    Outcome → Spec → String → Snapshot → Evaluator → Evaluator × Option Violation
unfolding fail_spec set_key
add_outcome skipped s msg snap e =
    (record e { counts = record (e.counts) { skips = e.counts.skips + 1 } }, none)
add_outcome passed s msg snap e = (
  record e {
    counts = record (e.counts) { evaluations = e.counts.evaluations + 1 };
    judged = set_key e.judged s.id (e.judged s.id + 1);
    streak = set_key e.streak s.id 0;
  },
  none,
)
add_outcome failed s msg snap e = fail_spec s msg snap (record e {
  counts = record (e.counts) { evaluations = e.counts.evaluations + 1 };
  judged = set_key e.judged s.id (e.judged s.id + 1);
})

unfoldable pub eval_spec : Spec → Snapshot → Evaluator → Evaluator × Option Violation
unfolding add_outcome outcome_of
eval_spec s snap e =
    let (ok, msg) = s.predicate snap e.ctx in add_outcome (outcome_of ok msg) s msg snap e

pub new_shadow : Shadow → String → Option ShadowTally → ShadowTally
new_shadow sh msg none = record {
  label = sh.label;
  violations = 0;
  absolved_evaluations = 0;
  absolved = false;
  first_message = msg;
}
new_shadow sh msg (some t) = t

pub count_shadow : Bool → ShadowTally → ShadowTally
count_shadow declared t = record t {
  violations = t.violations + 1;
  absolved_evaluations = if declared then t.absolved_evaluations else t.absolved_evaluations + 1;
}

unfoldable pub add_shadow : Outcome → Spec → Shadow → String → Bool → Evaluator → Evaluator
unfolding new_shadow count_shadow set_key
add_shadow skipped s sh msg declared e = e
add_shadow passed s sh msg declared e = record e { shadow_streak = set_key e.shadow_streak s.id 0 }
add_shadow failed s sh msg declared e =
    let n = e.shadow_streak s.id + 1 in
    let failing = record e { shadow_streak = set_key e.shadow_streak s.id n } in
    if ltb n s.persist then failing else record failing {
      shadow =
          set_key e.shadow s.id (some (count_shadow declared (new_shadow sh msg (e.shadow s.id))));
    }

unfoldable pub observe_shadow : Option Shadow → Spec → Snapshot → Bool → Evaluator → Evaluator
unfolding add_shadow outcome_of
observe_shadow none s snap declared e = e
observe_shadow (some sh) s snap declared e =
    let (ok, msg) = sh.predicate snap e.ctx in add_shadow (outcome_of ok msg) s sh msg declared e

pub is_declared : Option Violation → Bool
is_declared none = false
is_declared (some v) = true

-- The body of the loop over the predicates.
unfoldable pub observe_spec : Snapshot → Spec → Evaluator → Evaluator × Option Violation
unfolding eval_spec observe_shadow is_declared
observe_spec snap s e =
    let (after, v) = eval_spec s snap e in (observe_shadow s.shadow s snap (is_declared v) after, v)

pub append_violation : List Violation → Option Violation → List Violation
append_violation out none = out
append_violation out (some v) = out ++ v ∷ []

unfoldable pub observe_specs :
    Snapshot → List Spec → Evaluator → List Violation → Evaluator × List Violation
unfolding observe_spec append_violation
observe_specs snap [] e out = (e, out)
observe_specs snap (s ∷ specs) e out =
    let (after, v) = observe_spec snap s e in
    observe_specs snap specs after (append_violation out v)
