-- ===== src/Validation/Fault/Scheduler/Returns.antt =====
-- validation/fault/scheduler.go: `Run` returns once the context has ended.
use mathlib.Core.Path.{subst}
use probatorium.Base.{
  ℕ, ◌+◌, ◌*◌, ◌≤◌, if◌then◌else◌, Bool, true, false, List, [], ◌∷◌, Option, none, some, count,
  length, length-append, is_some, ltb, ◌≡◌, refl, sym, ◌⊎◌, inl, inr, arith,
}
use probatorium.Validation.Fault.Scheduler.{
  Event, Place, looping, applied, draining, leaving, sweeping, returned, RunState, Choice, succeeds,
  fails, gives_up, Action, cancel, body, fire, remove, stop, is_fault, remove_first, step_body,
  step, and_then, steps,
}

abbrev pub is_body : Action → Bool
is_body (body choice) = true
is_body _ = false

-- How many steps of the body are left at most: three for each fault that it may still apply, one
-- for each that it has to undo, and those from place to place.
abbrev pub left_at : Place → RunState → ℕ
left_at (looping todo) s = 3 * length todo + length s.active + 4
left_at (applied f todo) s = 3 * length todo + length s.active + 6
left_at draining s = length s.active + 3
left_at leaving s = length s.active + 2
left_at (sweeping us) s = length us + 1
left_at returned s = 0

abbrev pub left_of : RunState → ℕ
left_of s = left_at s.place s

length-remove_first : (f : ℕ) (xs : List ℕ) → length (remove_first f xs) ≤ length xs
unfolding remove_first
length-remove_first f [] = omega arith
length-remove_first f (x ∷ xs) = ground (arith, length-remove_first f xs)

-- Whatever is led to, if anything is: the context stays ended, and of `m` steps at least `n` were
-- taken off.
abbrev Nearer : ℕ → ℕ → Option RunState → Type 0
Nearer n m none = Unit
Nearer n m (some s) = (s.cancelled ≡ true) × (n + left_of s ≤ m)

Nearer-if :
    (n m : ℕ) (b : Bool) (s : RunState)
    → Nearer n m (some s)
    → Nearer n m (if b then some s else none)
Nearer-if n m true s h = h
Nearer-if n m false s h = tt

step_body-Nearer :
    (choice : Choice) (p : Place) (s : RunState)
    → s.cancelled ≡ true
    → Nearer 1 (left_at p s) (step_body choice p s)
unfolding step_body
step_body-Nearer choice (looping []) s c = (c, omega arith)
step_body-Nearer succeeds (looping (f ∷ todo)) s c = (c, omega arith)
step_body-Nearer fails (looping (f ∷ todo)) s c = (c, omega arith)
step_body-Nearer gives_up (looping (f ∷ todo)) s c = Nearer-if 1 _ s.cancelled _ (c, omega arith)
step_body-Nearer choice (applied f todo) s c = (c, omega (arith, length-append s.active (f ∷ [])))
step_body-Nearer choice draining s c = Nearer-if 1 _ s.cancelled _ (c, omega arith)
step_body-Nearer choice leaving s c = (c, omega arith)
step_body-Nearer choice (sweeping []) s c = (c, omega arith)
step_body-Nearer choice (sweeping (f ∷ us)) s c = (c, omega arith)
step_body-Nearer choice returned s c = tt

-- The goroutines only shorten the list of active faults.
left_at-active :
    (p : Place) (s s' : RunState) → length s'.active ≤ length s.active → left_at p s' ≤ left_at p s
left_at-active (looping todo) s s' h = omega arith
left_at-active (applied f todo) s s' h = omega arith
left_at-active draining s s' h = omega arith
left_at-active leaving s s' h = omega arith
left_at-active (sweeping us) s s' h = omega arith
left_at-active returned s s' h = omega arith

add-zero_le : {m n : ℕ} → n ≤ m → 0 + n ≤ m
add-zero_le h = omega arith

-- A step of a goroutine that leaves `active` behind, if it is enabled.
goroutine-Nearer :
    (enabled : Bool) (s : RunState) (active waiting undone stopped : List ℕ) (log : List Event)
    → s.cancelled ≡ true
    → length active ≤ length s.active
    → Nearer 0 (left_of s) (
        if enabled
        then some (record s {
          active = active;
          waiting = waiting;
          undone = undone;
          stopped = stopped;
          log = log;
        })
        else none)
goroutine-Nearer false s active waiting undone stopped log c h = tt
goroutine-Nearer true s active waiting undone stopped log c h = (
  c,
  add-zero_le (
      left_at-active s.place s
        (record s {
          active = active;
          waiting = waiting;
          undone = undone;
          stopped = stopped;
          log = log;
        })
        h),
)

step-Nearer :
    (a : Action) (s : RunState)
    → s.cancelled ≡ true
    → Nearer (if is_body a then 1 else 0) (left_of s) (step a s)
unfolding step
step-Nearer cancel s c =
    (refl, add-zero_le (left_at-active s.place s (record s { cancelled = true }) (omega arith)))
step-Nearer (body choice) s c = step_body-Nearer choice s.place s c
step-Nearer (fire f) s c =
    goroutine-Nearer (ltb 0 (count (is_fault f) s.waiting)) s _ _ _ _ _ c (omega arith)
step-Nearer (remove f) s c =
    goroutine-Nearer (ltb 0 (count (is_fault f) s.undone)) s _ _ _ _ _ c
      (length-remove_first f s.active)
step-Nearer (stop f) s c =
    subst
      (λ b. Nearer 0 (left_of s) (
        if b
        then if ltb 0 (count (is_fault f) s.waiting)
          then some (record s { waiting = remove_first f s.waiting; stopped = f ∷ s.stopped })
          else none
        else none))
      (sym c) (goroutine-Nearer (ltb 0 (count (is_fault f) s.waiting)) s _ _ _ _ _ c (omega arith))

Nearer-le : (k n m m' : ℕ) (o : Option RunState) → k + m' ≤ m → Nearer n m' o → Nearer (k + n) m o
Nearer-le k n m m' none h near = tt
Nearer-le k n m m' (some s) h near = (near.0, omega (arith, near.1))

and_then-Nearer :
    (k n m : ℕ) (o : Option RunState) (next : RunState → Option RunState)
    → Nearer k m o
    → ((s : RunState) → s.cancelled ≡ true → Nearer n (left_of s) (next s))
    → Nearer (k + n) m (and_then o next)
unfolding and_then
and_then-Nearer k n m none next near further = tt
and_then-Nearer k n m (some s) next near further =
    Nearer-le k n m (left_of s) (next s) near.1 (further s near.0)

steps-Nearer :
    (actions : List Action) (s : RunState)
    → s.cancelled ≡ true
    → Nearer (count is_body actions) (left_of s) (steps actions s)
unfolding steps
steps-Nearer [] s c = (c, omega arith)
steps-Nearer (a ∷ later) s c =
    and_then-Nearer (if is_body a then 1 else 0) (count is_body later) (left_of s) (step a s)
      (steps later) (step-Nearer a s c) (steps-Nearer later)

-- Until it has returned, the body can go on.
abbrev pub GoesOn : Place → RunState → Type 0
GoesOn p s = (p ≡ returned) ⊎ ((choice : Choice) → is_some (step_body choice p s) ≡ true)

step_body-GoesOn : (p : Place) (s : RunState) → s.cancelled ≡ true → GoesOn p s
unfolding step_body is_some
step_body-GoesOn (looping []) s c = inr (λ choice. refl)
step_body-GoesOn (looping (f ∷ todo)) s c = inr (λ choice. loops choice)
  where
    loops : (choice : Choice) → is_some (step_body choice (looping (f ∷ todo)) s) ≡ true
    loops succeeds = refl
    loops fails = refl
    loops gives_up = rw c refl
step_body-GoesOn (applied f todo) s c = inr (λ choice. refl)
step_body-GoesOn draining s c = inr (λ choice. rw c refl)
step_body-GoesOn leaving s c = inr (λ choice. refl)
step_body-GoesOn (sweeping []) s c = inr (λ choice. refl)
step_body-GoesOn (sweeping (f ∷ us)) s c = inr (λ choice. refl)
step_body-GoesOn returned s c = inl refl

-- Provided that the context has ended: in every sequence of steps from there, whatever the
-- goroutines do meanwhile and however the waits and the Applies of `Run` end, the body takes at
-- most as many steps as `left_of` counts at the start, less what it counts at the end; and as long
-- as it has not returned, its next step is possible, whether the next Apply succeeds or fails or is
-- given up. So the body returns once it has taken its steps, which are that many at most.
pub run-Returns :
    (actions : List Action) (s s' : RunState)
    → s.cancelled ≡ true
    → steps actions s ≡ some s'
    → (count is_body actions + left_of s' ≤ left_of s) × GoesOn s'.place s'
run-Returns actions s s' c e =
    let near = subst (Nearer _ (left_of s)) e (steps-Nearer actions s c) in
    (near.1, step_body-GoesOn s'.place s' near.0)
