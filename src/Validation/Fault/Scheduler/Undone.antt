-- ===== src/Validation/Fault/Scheduler/Undone.antt =====
-- validation/fault/scheduler.go: what `Run` applied is undone when it returns.
use mathlib.Core.Path.{subst}
use probatorium.Base.{
  ℕ, ◌+◌, ◌-◌, ◌<◌, ◌≤◌, ◌==◌, ==_iff, if◌then◌else◌, Bool, true, false, List, [], ◌∷◌, Option,
  none, some, count, count-append, ltb, ◌≡◌, refl, sym, ◌⊎◌, inl, inr, Bool-cases, arith,
}
use probatorium.Validation.Fault.Scheduler.{
  Event, apply, undo, Place, looping, applied, draining, leaving, sweeping, returned, RunState,
  Choice, succeeds, fails, gives_up, Action, cancel, body, fire, remove, stop, is_fault,
  remove_first, step_body, step, and_then, steps, start_run,
}

-- The latest event of a fault is an Apply: its last Apply was not undone.
abbrev pub is_left : ℕ → List Event → Bool
is_left g [] = false
is_left g (apply f ∷ log) = if f == g then true else is_left g log
is_left g (undo f ∷ log) = if f == g then false else is_left g log

module _ (g : ℕ) where
  abbrev held : List ℕ → ℕ
  held xs = count (is_fault g) xs

  held-remove_first :
      (f : ℕ) (xs : List ℕ) → held (remove_first f xs) ≡ held xs - (if f == g then 1 else 0)
  unfolding remove_first
  held-remove_first f [] = omega arith
  held-remove_first f (x ∷ xs) = ground (arith, held-remove_first f xs)

  -- A fault that is in the list stands in it as often as it is taken from it.
  held-found :
      (f : ℕ) (xs : List ℕ)
      → ltb 0 (count (is_fault f) xs) ≡ true
      → (if f == g then 1 else 0) ≤ held xs
  held-found f [] h = ground (arith, h)
  held-found f (x ∷ xs) h = elim (Bool-cases (x == f)) [
    | inl k ↦ let e : x ≡ f = (==_iff x f).0 k in rw (sym e) (omega arith)
    | inr k ↦ let later = held-found f xs (ground (arith, h, k)) in ground (arith, later)
  ]

  -- The times that the body itself owes the fault to the list or to its targets.
  abbrev owed : Place → ℕ
  owed (applied f todo) = if f == g then 1 else 0
  owed (sweeping us) = held us
  owed _ = 0

  abbrev is_swept : Place → Bool
  is_swept (sweeping us) = true
  is_swept returned = true
  is_swept _ = false

  -- Until the deferred function takes the list of active faults, it agrees with the goroutines;
  -- and a fault whose latest event is an Apply is owed, or is with a goroutine that has not undone
  -- it and will be found in the list.
  abbrev InvAt : Place → RunState → Type 0
  InvAt p s =
      (held s.active ≡ (if is_swept p then 0 else held s.waiting + held s.undone + held s.stopped))
      × ((is_left g s.log ≡ false)
          ⊎ (0 < owed p + (if is_swept p then 0 else held s.waiting + held s.stopped)))

  abbrev Inv : RunState → Type 0
  Inv s = InvAt s.place s

  -- Whatever a step leads to, if it is enabled.
  abbrev Leads : Option RunState → Type 0
  Leads none = Unit
  Leads (some s) = Inv s

  step_body-Leads :
      (choice : Choice) (p : Place) (s : RunState) → InvAt p s → Leads (step_body choice p s)
  unfolding step_body
  step_body-Leads choice (looping []) s inv = inv
  step_body-Leads succeeds (looping (f ∷ todo)) s inv = ground (arith, inv.0, inv.1)
  step_body-Leads fails (looping (f ∷ todo)) s inv = inv
  step_body-Leads gives_up (looping (f ∷ todo)) s inv = elim (Bool-cases s.cancelled) [
    | inl h ↦ rw h inv
    | inr h ↦ rw h tt
  ]
  step_body-Leads choice (applied f todo) s inv =
      let appended = count-append (is_fault g) s.active (f ∷ []) in
      ground (arith, inv.0, inv.1, appended)
  step_body-Leads choice draining s inv = elim (Bool-cases s.cancelled) [
    | inl h ↦ rw h inv
    | inr h ↦ rw h tt
  ]
  step_body-Leads choice leaving s inv = (refl, ground (arith, inv.0, inv.1))
  step_body-Leads choice (sweeping []) s inv = inv
  step_body-Leads choice (sweeping (f ∷ us)) s inv = ground (arith, inv.0, inv.1)
  step_body-Leads choice returned s inv = tt

  step-Leads : (a : Action) (s : RunState) → Inv s → Leads (step a s)
  unfolding step
  step-Leads cancel s inv = inv
  step-Leads (body choice) s inv = step_body-Leads choice s.place s inv
  step-Leads (fire f) s inv = elim (Bool-cases (ltb 0 (count (is_fault f) s.waiting))) [
    | inl h ↦
        let taken = held-remove_first f s.waiting in
        let found = held-found f s.waiting h in rw h (ground (arith, inv.0, inv.1, taken, found))
    | inr h ↦ rw h tt
  ]
  step-Leads (remove f) s inv = elim (Bool-cases (ltb 0 (count (is_fault f) s.undone))) [
    | inl h ↦
        let taken = held-remove_first f s.undone in
        let listed = held-remove_first f s.active in
        let found = held-found f s.undone h in
        rw h (ground (arith, inv.0, inv.1, taken, listed, found))
    | inr h ↦ rw h tt
  ]
  step-Leads (stop f) s inv = elim (Bool-cases s.cancelled) [
    | inl c ↦ elim (Bool-cases (ltb 0 (count (is_fault f) s.waiting))) [
      | inl h ↦
          let taken = held-remove_first f s.waiting in
          let found = held-found f s.waiting h in
          rw c (rw h (ground (arith, inv.0, inv.1, taken, found)))
      | inr h ↦ rw c (rw h tt)
    ]
    | inr c ↦ rw c tt
  ]

  and_then-Leads :
      (o : Option RunState) (next : RunState → Option RunState)
      → Leads o
      → ((s : RunState) → Inv s → Leads (next s))
      → Leads (and_then o next)
  unfolding and_then
  and_then-Leads none next led further = tt
  and_then-Leads (some s) next led further = further s led

  steps-Leads : (actions : List Action) (s : RunState) → Inv s → Leads (steps actions s)
  unfolding steps
  steps-Leads [] s inv = inv
  steps-Leads (a ∷ later) s inv =
      and_then-Leads (step a s) (steps later) (step-Leads a s inv) (steps-Leads later)

  -- In whatever order the body and the goroutines of a run take their steps, whether and when the
  -- context ends, and whether an Apply fails: once `Run` has returned, no fault's latest event is
  -- its Apply, so that after every Apply of a fault that succeeded there was an Undo of it.
  pub run-undoes :
      (schedule : List ℕ) (actions : List Action) (s : RunState)
      → steps actions (start_run schedule) ≡ some s
      → s.place ≡ returned
      → is_left g s.log ≡ false
  unfolding start_run
  run-undoes schedule actions s e h =
      let led = subst Leads e (steps-Leads actions (start_run schedule) (refl, inl refl)) in
      let last = (subst (λ p. InvAt p s) h led).1 in
      elim last [ inl none_left ↦ none_left | inr owing ↦ ground (arith, owing) ]
