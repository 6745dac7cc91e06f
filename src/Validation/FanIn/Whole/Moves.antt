-- ===== src/Validation/FanIn/Whole/Moves.antt =====
-- The moves into, inside and out of the critical section keep the invariant.
use probatorium.Base.{
  ℕ, ◌==◌, ==_iff, true, false, List, [], ◌∷◌, ◌++◌, ◌≡◌, ◌∙◌, sym, ap, refl, arith, append-nil,
  append_assoc,
}
use probatorium.Validation.FanIn.{
  Slice, Pc, locking, writing, terminating, unlocking, failing, ends_line, System,
}
use probatorium.Validation.FanIn.Whole.{
  whole_line, merged, lines_of, lines, held, part, is_inside, is_failing, Unended, merged-snoc,
  lines_of-snoc, failing-is_inside,
}
use probatorium.Validation.FanIn.Whole.Invariant.{
  no_break, Inv, moved, inside-Inv, not_inside, alone_inside,
}

module _ (input : ℕ → List Slice) (sys : System) (i : ℕ) (inv : Inv input sys) where
  -- A write that fails: from here on the output is given up.
  pub broken-Inv :
      (out : List ℕ)
      → is_inside (sys.source i).pc ≡ true
      → Inv input (
          moved input sys i
            (record { pc = failing; unread = (sys.source i).unread })
            (record sys.shared { out = out; broken = true }))
  unfolding is_inside is_failing Unended
  broken-Inv out here =
      inside-Inv input sys i inv (record { pc = failing; unread = (sys.source i).unread })
        (record sys.shared { out = out; broken = true }) inv.records
        (alone_inside input sys i inv here) (λ j e. refl) (λ b. absurd (no_break b))
        (λ b f. absurd (no_break b))
        (record {
          inside = λ h. (inv.good i).inside here;
          failed = λ h. refl;
          unended = tt;
          partial = λ b h. absurd (no_break b);
          kept = λ b. absurd (no_break b);
        })

  -- The line of a source stands whole in the output.
  pub whole-Inv :
      (s : Slice) (out : List ℕ)
      → is_inside (sys.source i).pc ≡ true
      → held (sys.source i).pc ≡ s.line ∷ []
      → (sys.shared.broken ≡ false → out ≡ merged inv.records ++ whole_line s.line)
      → Inv input (
          moved input sys i
            (record { pc = unlocking s.err; unread = (sys.source i).unread })
            (record sys.shared { out = out }))
  unfolding is_inside is_failing Unended part held
  whole-Inv s out here line done =
      let locked = (inv.good i).inside here in
      let records = inv.records ++ (i, s.line) ∷ [] in
      let self : (i == i) ≡ true = (==_iff i i).1 refl in
      inside-Inv input sys i inv (record { pc = unlocking s.err; unread = (sys.source i).unread })
        (record sys.shared { out = out }) records (alone_inside input sys i inv here)
        (λ j e. lines_of-snoc j inv.records i s.line ∙ rw e (append-nil (lines_of j inv.records)))
        (λ b. b) (λ b f. ground (arith, locked, f))
        (record {
          inside = λ h. locked;
          failed = λ h. cc;
          unended = tt;
          partial = λ b h.
              done b ∙ sym (merged-snoc inv.records i s.line) ∙ sym (append-nil (merged records));
          kept = λ b.
              let before = (inv.good i).kept b in
              let after = lines_of-snoc i inv.records i s.line in
              before
              ∙ rw line (
                  rw after (
                    rw self (
                      sym (
                        append_assoc (lines_of i inv.records) (s.line ∷ [])
                          (lines (sys.source i).unread)))));
        })

  -- The first part of a line whose terminator is still to be written.
  pub part-Inv :
      (s : Slice)
      → (sys.source i).pc ≡ writing s
      → ends_line s.line ≡ false
      → Inv input (
          moved input sys i
            (record { pc = terminating s; unread = (sys.source i).unread })
            (record sys.shared { out = sys.shared.out ++ s.line }))
  unfolding is_inside is_failing Unended part held
  part-Inv s q open_line =
      let here : is_inside (sys.source i).pc ≡ true = ap is_inside q in
      let locked = (inv.good i).inside here in
      inside-Inv input sys i inv (record { pc = terminating s; unread = (sys.source i).unread })
        (record sys.shared { out = sys.shared.out ++ s.line }) inv.records
        (alone_inside input sys i inv here) (λ j e. refl) (λ b. b)
        (λ b f. ground (arith, locked, f))
        (record {
          inside = λ h. locked;
          failed = λ h. cc;
          unended = open_line;
          partial = λ b h.
              ap (λ bs. bs ++ s.line)
                ((inv.good i).partial b here
                  ∙ ap (λ pc. merged inv.records ++ part pc) q
                  ∙ append-nil (merged inv.records));
          kept = λ b.
              (inv.good i).kept b
              ∙ ap (λ pc. lines_of i inv.records ++ (held pc ++ lines (sys.source i).unread)) q;
        })

  -- The mutex is taken.
  pub lock-Inv :
      (s : Slice)
      → (sys.source i).pc ≡ locking s
      → sys.shared.locked ≡ false
      → Inv input (
          moved input sys i
            (record { pc = writing s; unread = (sys.source i).unread })
            (record sys.shared { locked = true }))
  unfolding is_inside is_failing Unended part held
  lock-Inv s q unlocked =
      inside-Inv input sys i inv (record { pc = writing s; unread = (sys.source i).unread })
        (record sys.shared { locked = true }) inv.records
        (λ j e. not_inside input sys i inv j unlocked) (λ j e. refl) (λ b. b) (λ b f. cc)
        (record {
          inside = λ h. refl;
          failed = λ h. cc;
          unended = tt;
          partial = λ b h. inv.free b unlocked ∙ sym (append-nil (merged inv.records));
          kept = λ b.
              (inv.good i).kept b
              ∙ ap (λ pc. lines_of i inv.records ++ (held pc ++ lines (sys.source i).unread)) q;
        })

  -- The mutex is given back.
  pub unlock-Inv :
      (pc : Pc)
      → is_inside (sys.source i).pc ≡ true
      → part (sys.source i).pc ≡ []
      → held (sys.source i).pc ≡ held pc
      → is_inside pc ≡ false
      → Unended pc
      → Inv input (
          moved input sys i
            (record { pc = pc; unread = (sys.source i).unread })
            (record sys.shared { locked = false }))
  unlock-Inv pc here none_part same out fine =
      inside-Inv input sys i inv (record { pc = pc; unread = (sys.source i).unread })
        (record sys.shared { locked = false }) inv.records (alone_inside input sys i inv here)
        (λ j e. refl) (λ b. b)
        (λ b f.
          (inv.good i).partial b here
          ∙ ap (λ bs. merged inv.records ++ bs) none_part
          ∙ append-nil (merged inv.records))
        (record {
          inside = λ h. ground (arith, out, h);
          failed = λ h. let f = failing-is_inside pc out in ground (arith, f, h);
          unended = fine;
          partial = λ b h. ground (arith, out, h);
          kept = λ b.
              (inv.good i).kept b
              ∙ ap (λ l. lines_of i inv.records ++ (l ++ lines (sys.source i).unread)) same;
        })
