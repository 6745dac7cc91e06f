-- ===== src/Validation/Evaluator/Streaks.antt =====
-- What the evaluator keeps of a predicate, against the sequence of its outcomes.
use text.Mathlib.Text.{◌==◌ as str_eq}
use text.Mathlib.TextPositions.{eq_refl}
use mathlib.Core.Path.{subst}
use probatorium.Base.{
  ℕ, suc, ◌+◌, ltb, if◌then◌else◌, Bool, false, List, [], ◌∷◌, ◌++◌, String, Option, none, some,
  ◌≡◌, refl, ◌∙◌, arith, Bool-cases, inl, inr, All,
}
use probatorium.Validation.Evaluator.{
  Spec, Snapshot, Context, Evaluator, Violation, set_key, Shadow,
}
use probatorium.Validation.Evaluator.Verdicts.{
  Outcome, skipped, passed, failed, outcome_of, fail_spec, add_outcome, eval_spec, observe_shadow,
  observe_spec, observe_specs, add_shadow, is_declared, append_violation,
}

-- The outcomes of a predicate, the latest first: the failures since it last passed, ...
abbrev pub trailing : List Outcome → ℕ
trailing [] = 0
trailing (skipped ∷ past) = trailing past
trailing (passed ∷ past) = 0
trailing (failed ∷ past) = suc (trailing past)

-- ... the verdicts, ...
abbrev pub verdicts : List Outcome → ℕ
verdicts [] = 0
verdicts (skipped ∷ past) = verdicts past
verdicts (passed ∷ past) = suc (verdicts past)
verdicts (failed ∷ past) = suc (verdicts past)

-- ... and the failures with at least `persist` in a row up to them.
abbrev pub persistent : ℕ → List Outcome → ℕ
persistent persist [] = 0
persistent persist (skipped ∷ past) = persistent persist past
persistent persist (passed ∷ past) = persistent persist past
persistent persist (failed ∷ past) =
    (if ltb (trailing (failed ∷ past)) persist then 0 else 1) + persistent persist past

-- What the evaluator holds of an id.
pub record Holds (e : Evaluator) (id : String) (persist : ℕ) (past : List Outcome) : Type 0 where
  pub streak : e.streak id ≡ trailing past
  pub judged : e.judged id ≡ verdicts past
  pub declared : e.per id ≡ persistent persist past

unfoldable pub outcome : Spec → Snapshot → Context → Outcome
outcome s snap ctx = let (ok, msg) = s.predicate snap ctx in outcome_of ok msg

add_outcome-Holds :
    (o : Outcome) (s : Spec) (msg : String) (snap : Snapshot) (e : Evaluator) (past : List Outcome)
    → Holds e s.id s.persist past
    → Holds (add_outcome o s msg snap e).0 s.id s.persist (o ∷ past)
unfolding add_outcome fail_spec set_key
add_outcome-Holds skipped s msg snap e past h = record {
  streak = h.streak;
  judged = h.judged;
  declared = h.declared;
}
add_outcome-Holds passed s msg snap e past h =
    let own = eq_refl s.id in
    let a = h.judged in
    record { streak = ground (arith, own); judged = ground (arith, own, a); declared = h.declared }
add_outcome-Holds failed s msg snap e past h =
    let own = eq_refl s.id in
    let a = h.streak in
    let b = h.judged in
    let d = h.declared in
    elim (Bool-cases (ltb (e.streak s.id + 1) s.persist)) [
      | inl k ↦ rw k (record {
        streak = ground (arith, own, a);
        judged = ground (arith, own, b);
        declared = ground (arith, d, a, k);
      })
      | inr k ↦ rw k (record {
        streak = ground (arith, own, a);
        judged = ground (arith, own, b);
        declared = ground (arith, own, d, a, k);
      })
    ]

-- Another id is left as it is.
pub record Kept (e f : Evaluator) (id : String) : Type 0 where
  pub streak : f.streak id ≡ e.streak id
  pub judged : f.judged id ≡ e.judged id
  pub per : f.per id ≡ e.per id

Kept-Holds :
    {e f : Evaluator} {id : String} {persist : ℕ} {past : List Outcome}
    → Kept e f id
    → Holds e id persist past
    → Holds f id persist past
Kept-Holds k h = record {
  streak = k.streak ∙ h.streak;
  judged = k.judged ∙ h.judged;
  declared = k.per ∙ h.declared;
}

add_outcome-Kept :
    (o : Outcome) (s : Spec) (msg : String) (snap : Snapshot) (e : Evaluator) (id : String)
    → str_eq id s.id ≡ false
    → Kept e (add_outcome o s msg snap e).0 id
unfolding add_outcome fail_spec set_key
add_outcome-Kept skipped s msg snap e id other = record { streak = refl; judged = refl; per = refl }
add_outcome-Kept passed s msg snap e id other = record {
  streak = ground (arith, other);
  judged = ground (arith, other);
  per = refl;
}
add_outcome-Kept failed s msg snap e id other =
    elim (Bool-cases (ltb (e.streak s.id + 1) s.persist)) [
      | inl k ↦
          rw k
            (record { streak = ground (arith, other); judged = ground (arith, other); per = refl })
      | inr k ↦ rw k (record {
        streak = ground (arith, other);
        judged = ground (arith, other);
        per = ground (arith, other);
      })
    ]

-- The predicates and the context are left as they are.
pub record Frame (e f : Evaluator) : Type 0 where
  pub ctx : f.ctx ≡ e.ctx
  pub specs : f.specs ≡ e.specs

Kept-trans : {e f g : Evaluator} {id : String} → Kept e f id → Kept f g id → Kept e g id
Kept-trans h k = record {
  streak = k.streak ∙ h.streak;
  judged = k.judged ∙ h.judged;
  per = k.per ∙ h.per;
}

Frame-trans : {e f g : Evaluator} → Frame e f → Frame f g → Frame e g
Frame-trans h k = record { ctx = k.ctx ∙ h.ctx; specs = k.specs ∙ h.specs }

add_outcome-Frame :
    (o : Outcome) (s : Spec) (msg : String) (snap : Snapshot) (e : Evaluator)
    → Frame e (add_outcome o s msg snap e).0
unfolding add_outcome fail_spec
add_outcome-Frame skipped s msg snap e = record { ctx = refl; specs = refl }
add_outcome-Frame passed s msg snap e = record { ctx = refl; specs = refl }
add_outcome-Frame failed s msg snap e = elim (Bool-cases (ltb (e.streak s.id + 1) s.persist)) [
  | inl k ↦ rw k (record { ctx = refl; specs = refl })
  | inr k ↦ rw k (record { ctx = refl; specs = refl })
]

-- The informational twin changes nothing of this.
add_shadow-Kept :
    (o : Outcome) (s : Spec) (sh : Shadow) (msg : String) (declared : Bool) (e : Evaluator)
    (id : String)
    → Kept e (add_shadow o s sh msg declared e) id × Frame e (add_shadow o s sh msg declared e)
unfolding add_shadow
add_shadow-Kept skipped s sh msg declared e id =
    (record { streak = refl; judged = refl; per = refl }, record { ctx = refl; specs = refl })
add_shadow-Kept passed s sh msg declared e id =
    (record { streak = refl; judged = refl; per = refl }, record { ctx = refl; specs = refl })
add_shadow-Kept failed s sh msg declared e id =
    elim (Bool-cases (ltb (e.shadow_streak s.id + 1) s.persist)) [
      | inl k ↦
          rw k (
            record { streak = refl; judged = refl; per = refl },
            record { ctx = refl; specs = refl },
          )
      | inr k ↦
          rw k (
            record { streak = refl; judged = refl; per = refl },
            record { ctx = refl; specs = refl },
          )
    ]

observe_shadow-Kept :
    (sh : Option Shadow) (s : Spec) (snap : Snapshot) (declared : Bool) (e : Evaluator)
    (id : String)
    → Kept e (observe_shadow sh s snap declared e) id
      × Frame e (observe_shadow sh s snap declared e)
unfolding observe_shadow
observe_shadow-Kept none s snap declared e id =
    (record { streak = refl; judged = refl; per = refl }, record { ctx = refl; specs = refl })
observe_shadow-Kept (some sh) s snap declared e id =
    let (ok, msg) = sh.predicate snap e.ctx in
    add_shadow-Kept (outcome_of ok msg) s sh msg declared e id

module _ (snap : Snapshot) where
  observe_spec-Frame : (s : Spec) (e : Evaluator) → Frame e (observe_spec snap s e).0
  unfolding observe_spec eval_spec
  observe_spec-Frame s e =
      let (ok, msg) = s.predicate snap e.ctx in
      let (after, v) = add_outcome (outcome_of ok msg) s msg snap e in
      Frame-trans (add_outcome-Frame (outcome_of ok msg) s msg snap e)
        (observe_shadow-Kept s.shadow s snap (is_declared v) after s.id).1

  observe_spec-Kept :
      (s : Spec) (e : Evaluator) (id : String)
      → str_eq id s.id ≡ false
      → Kept e (observe_spec snap s e).0 id
  unfolding observe_spec eval_spec
  observe_spec-Kept s e id other =
      let (ok, msg) = s.predicate snap e.ctx in
      let (after, v) = add_outcome (outcome_of ok msg) s msg snap e in
      Kept-trans (add_outcome-Kept (outcome_of ok msg) s msg snap e id other)
        (observe_shadow-Kept s.shadow s snap (is_declared v) after id).0

  observe_spec-Holds :
      (s : Spec) (e : Evaluator) (past : List Outcome)
      → Holds e s.id s.persist past
      → Holds (observe_spec snap s e).0 s.id s.persist (outcome s snap e.ctx ∷ past)
  unfolding observe_spec eval_spec outcome
  observe_spec-Holds s e past h =
      let (ok, msg) = s.predicate snap e.ctx in
      let (after, v) = add_outcome (outcome_of ok msg) s msg snap e in
      Kept-Holds (observe_shadow-Kept s.shadow s snap (is_declared v) after s.id).0
        (add_outcome-Holds (outcome_of ok msg) s msg snap e past h)

  pub observe_specs-Frame :
      (specs : List Spec) (e : Evaluator) (out : List Violation)
      → Frame e (observe_specs snap specs e out).0
  unfolding observe_specs
  observe_specs-Frame [] e out = record { ctx = refl; specs = refl }
  observe_specs-Frame (s ∷ specs) e out =
      let (after, v) = observe_spec snap s e in
      Frame-trans (observe_spec-Frame s e)
        (observe_specs-Frame specs after (append_violation out v))

  observe_specs-Kept :
      (specs : List Spec) (e : Evaluator) (out : List Violation) (id : String)
      → All (λ s. str_eq id s.id ≡ false) specs
      → Kept e (observe_specs snap specs e out).0 id
  unfolding observe_specs
  observe_specs-Kept [] e out id others = record { streak = refl; judged = refl; per = refl }
  observe_specs-Kept (s ∷ specs) e out id others =
      let (after, v) = observe_spec snap s e in
      Kept-trans (observe_spec-Kept s e id others.0)
        (observe_specs-Kept specs after (append_violation out v) id others.1)

  -- A predicate that alone has its id takes one step.
  pub observe_specs-Holds :
      (before after : List Spec) (s : Spec) (e : Evaluator) (out : List Violation)
      (past : List Outcome)
      → All (λ x. str_eq s.id x.id ≡ false) before
      → All (λ x. str_eq s.id x.id ≡ false) after
      → Holds e s.id s.persist past
      → Holds
          (observe_specs snap (before ++ s ∷ after) e out).0
          s.id
          s.persist
          (outcome s snap e.ctx ∷ past)
  unfolding observe_specs
  observe_specs-Holds [] after s e out past _ others h =
      let (next, v) = observe_spec snap s e in
      Kept-Holds (observe_specs-Kept after next (append_violation out v) s.id others)
        (observe_spec-Holds s e past h)
  observe_specs-Holds (x ∷ before) after s e out past ahead others h =
      let (next, v) = observe_spec snap x e in
      let k = observe_spec-Frame x e in
      let ih =
        observe_specs-Holds before after s next (append_violation out v) past ahead.1 others
          (Kept-Holds (observe_spec-Kept x e s.id ahead.0) h) in
      subst
        (λ c.
          Holds (observe_specs snap (before ++ s ∷ after) next (append_violation out v)).0 s.id
            s.persist (outcome s snap c ∷ past))
        k.ctx ih
