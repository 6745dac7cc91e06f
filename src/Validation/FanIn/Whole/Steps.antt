-- ===== src/Validation/FanIn/Whole/Steps.antt =====
-- Each step of a goroutine, and any interleaving of them, keeps the lines whole.
use mathlib.Core.Path.{subst}
use probatorium.Base.{
  ℕ, Bool, true, false, List, [], ◌∷◌, ◌++◌, ◌≡◌, ◌∙◌, sym, ap, refl, arith, append-nil,
  append_assoc, take, Bool-cases, inl, inr,
}
use probatorium.Validation.FanIn.{
  newline, ReadError, no_error, buffer_full, ended, Slice, Pc, reading, locking, writing,
  terminating, unlocking, failing, returned, Source, Shared, Answer, written, fails_after,
  ends_line, after_line, read_slice, write, write_line, lock, run_pc, System, advance, step, steps,
  start,
}
use probatorium.Validation.FanIn.Whole.{
  whole_line, merged, lines_of, lines, held, part, is_inside, is_failing, Unended,
}
use probatorium.Validation.FanIn.Whole.Invariant.{Inv, moved, outside-Inv}
use probatorium.Validation.FanIn.Whole.Moves.{broken-Inv, whole-Inv, part-Inv, lock-Inv, unlock-Inv}

after_line-outside : (e : ReadError) → is_inside (after_line e) ≡ false
unfolding after_line is_inside
after_line-outside no_error = refl
after_line-outside buffer_full = refl
after_line-outside ended = refl

after_line-Unended : (e : ReadError) → Unended (after_line e)
unfolding after_line Unended
after_line-Unended no_error = tt
after_line-Unended buffer_full = tt
after_line-Unended ended = tt

after_line-held : (e : ReadError) → held (after_line e) ≡ []
unfolding after_line held
after_line-held no_error = refl
after_line-held buffer_full = refl
after_line-held ended = refl

lock-blocked : (s : Slice) (sh : Shared) → sh.locked ≡ true → lock s sh ≡ (locking s, sh)
unfolding lock
lock-blocked s sh e = ground arith

whole_line-ended : (l : List ℕ) → ends_line l ≡ true → whole_line l ≡ l
unfolding whole_line
whole_line-ended l e = rw e refl

whole_line-open : (l : List ℕ) → ends_line l ≡ false → whole_line l ≡ l ++ newline ∷ []
unfolding whole_line
whole_line-open l e = rw e refl

is_reading : Pc → Bool
is_reading reading = true
is_reading pc = false

-- A line that was read is held; an empty one is passed over.
read_slice-held :
    (s : Slice) (rest : List Slice) (l : List ℕ)
    → s.line ≡ l
    → (is_inside (read_slice s) ≡ false)
      × (Unended (read_slice s))
      × (held (read_slice s) ++ lines rest ≡ lines (s ∷ rest))
unfolding read_slice is_inside Unended held lines
read_slice-held s rest [] q = (
  rw (q, read_slice) (after_line-outside s.err),
  rw (q, read_slice) (after_line-Unended s.err),
  rw (q, read_slice) (ap (λ l. l ++ lines rest) (after_line-held s.err)),
)
read_slice-held s rest (b ∷ bs) q =
    (rw (q, read_slice) refl, rw (q, read_slice) tt, rw (q, read_slice) (rw (q, lines) refl))

module _ (input : ℕ → List Slice) (sys : System) (i : ℕ) (inv : Inv input sys) where
  abbrev after_move : Source × Shared → System
  after_move r = moved input sys i r.0 r.1

  -- A goroutine that has nothing to read from stays where it is.
  still-Inv :
      (pc : Pc) (unread : List Slice)
      → (sys.source i).pc ≡ pc
      → (sys.source i).unread ≡ unread
      → is_inside pc ≡ false
      → Unended pc
      → Inv input (after_move (record { pc = pc; unread = unread }, sys.shared))
  still-Inv pc unread q u out fine =
      outside-Inv input sys i inv (record { pc = pc; unread = unread }) out fine
        (ap (λ pc. held pc ++ lines unread) (sym q)
          ∙ ap (λ l. held (sys.source i).pc ++ lines l) (sym u))

  -- The output, seen from the goroutine in the critical section.
  so_far :
      (pc : Pc)
      → sys.shared.broken ≡ false
      → (sys.source i).pc ≡ pc
      → is_inside pc ≡ true
      → sys.shared.out ≡ merged inv.records ++ part pc
  so_far pc b q here =
      (inv.good i).partial b (ap is_inside q ∙ here) ∙ ap (λ c. merged inv.records ++ part c) q

  run-Inv :
      (pc : Pc) (answer : Answer)
      → (sys.source i).pc ≡ pc
      → is_reading pc ≡ false
      → let r = run_pc pc answer sys.shared in
        Inv input (after_move (record { pc = r.0; unread = (sys.source i).unread }, r.1))
  unfolding is_reading run_pc lock write_line write is_inside Unended held part whole_line
  run-Inv reading answer q r = cc
  run-Inv (locking s) answer q r = elim (Bool-cases sys.shared.locked) [
    | inl e ↦
        subst
          (λ r. Inv input (after_move (record { pc = r.0; unread = (sys.source i).unread }, r.1)))
          (sym (lock-blocked s sys.shared e))
          (still-Inv (locking s) (sys.source i).unread q refl refl tt)
    | inr e ↦ rw e (lock-Inv input sys i inv s q e)
  ]
  run-Inv (writing s) written q r = elim (Bool-cases (ends_line s.line)) [
    | inl e ↦ rw e (
        whole-Inv input sys i inv s (sys.shared.out ++ s.line) (ap is_inside q) (ap held q) (λ b.
          ap (λ bs. bs ++ s.line) (so_far (writing s) b q refl ∙ append-nil (merged inv.records))
          ∙ ap (λ l. merged inv.records ++ l) (sym (whole_line-ended s.line e))))
    | inr e ↦ rw e (part-Inv input sys i inv s q e)
  ]
  run-Inv (writing s) (fails_after n) q r =
      broken-Inv input sys i inv (sys.shared.out ++ take n s.line) (ap is_inside q)
  run-Inv (terminating s) written q r =
      whole-Inv input sys i inv s (sys.shared.out ++ newline ∷ []) (ap is_inside q) (ap held q)
        (λ b.
          ap (λ bs. bs ++ newline ∷ []) (so_far (terminating s) b q refl)
          ∙ append_assoc (merged inv.records) s.line (newline ∷ [])
          ∙ ap (λ l. merged inv.records ++ l)
              (sym (whole_line-open s.line (subst Unended q ((inv.good i).unended)))))
  run-Inv (terminating s) (fails_after n) q r =
      broken-Inv input sys i inv (sys.shared.out ++ take n (newline ∷ [])) (ap is_inside q)
  run-Inv (unlocking e) answer q r =
      unlock-Inv input sys i inv (after_line e) (ap is_inside q) (ap part q)
        (ap held q ∙ sym (after_line-held e)) (after_line-outside e) (after_line-Unended e)
  run-Inv failing answer q r =
      unlock-Inv input sys i inv returned (ap is_inside q) (ap part q) (ap held q) refl tt
  run-Inv returned answer q r = still-Inv returned (sys.source i).unread q refl refl tt

  by_pc :
      (pc : Pc) (unread : List Slice) (answer : Answer)
      → (sys.source i).pc ≡ pc
      → (sys.source i).unread ≡ unread
      → Inv input (after_move (advance pc unread answer sys.shared))
  unfolding advance is_inside Unended is_reading held lines
  by_pc reading [] answer q u = still-Inv reading [] q u refl tt
  by_pc reading (s ∷ unread) answer q u =
      let (out, fine, same) = read_slice-held s unread s.line refl in
      outside-Inv input sys i inv (record { pc = read_slice s; unread = unread }) out fine
        (same
          ∙ ap (λ l. lines l) (sym u)
          ∙ ap (λ pc. held pc ++ lines (sys.source i).unread) (sym q))
  by_pc pc unread answer q u =
      subst
        (λ v.
          let r = run_pc pc answer sys.shared in
          Inv input (after_move (record { pc = r.0; unread = v }, r.1)))
        u (run-Inv pc answer q refl)

module _ (input : ℕ → List Slice) where
  step-Inv :
      (i : ℕ) (answer : Answer) (sys : System) → Inv input sys → Inv input (step i answer sys)
  unfolding step
  step-Inv i answer sys inv =
      by_pc input sys i inv (sys.source i).pc (sys.source i).unread answer refl refl

  steps-Inv :
      (moves : List (ℕ × Answer)) (sys : System) → Inv input sys → Inv input (steps moves sys)
  unfolding steps
  steps-Inv [] sys inv = inv
  steps-Inv ((i, answer) ∷ moves) sys inv =
      steps-Inv moves (step i answer sys) (step-Inv i answer sys inv)

  start-Inv : Inv input (start input)
  unfolding start is_inside is_failing Unended held part merged lines_of
  start-Inv = record {
    records = [];
    unique = λ i j h. cc;
    free = λ b f. refl;
    good = λ i. record {
      inside = λ h. cc;
      failed = λ h. cc;
      unended = tt;
      partial = λ b h. cc;
      kept = λ b. refl;
    };
  }

  -- The output, while the mutex is free, is made of whole lines, each of one source; and those of
  -- each source are, in their order, what its reads gave but the line it holds and those unread.
  pub record IsMerged (sys : System) : Type 0 where
    pub records : List (ℕ × List ℕ)
    pub output : sys.shared.locked ≡ false → sys.shared.out ≡ merged records
    pub order :
        (i : ℕ)
        → lines (input i)
          ≡ lines_of i records ++ (held (sys.source i).pc ++ lines (sys.source i).unread)

  -- In whatever order the goroutines take their steps: as long as no write has failed there are
  -- lines, each of one source, such that the output is these lines one after the other, each
  -- with its terminator, whenever no goroutine is writing; and that the lines of each source, with
  -- the one that it has read and not written whole and those it has not read, are all that its
  -- reads give, in their order. So no line is broken by another, dropped, repeated or moved.
  pub steps-IsMerged :
      (moves : List (ℕ × Answer))
      → (steps moves (start input)).shared.broken ≡ false
      → IsMerged (steps moves (start input))
  steps-IsMerged moves whole =
      let inv = steps-Inv moves (start input) start-Inv in
      record {
        records = inv.records;
        output = inv.free whole;
        order = λ i. (inv.good i).kept whole;
      }
