-- ===== src/Validation/FanIn/Whole/Invariant.antt =====
-- The invariant of the merged output, and how a move of one goroutine keeps it.
use probatorium.Base.{ℕ, ◌==◌, true, false, List, ◌++◌, ◌≡◌, arith, Bool-cases, inl, inr}
use probatorium.Validation.FanIn.{Slice, Source, Shared, System, update}
use probatorium.Validation.FanIn.Whole.{
  merged, lines_of, lines, held, part, is_inside, is_failing, Unended, update-cases,
  failing-is_inside,
}

pub no_break : true ≡ false → ⊥
no_break h = cc

module _ (input : ℕ → List Slice) where
  -- What holds of a source, given the lines written whole.
  pub record Good (sh : Shared) (records : List (ℕ × List ℕ)) (i : ℕ) (s : Source) : Type 0 where
    pub inside : is_inside s.pc ≡ true → sh.locked ≡ true
    pub failed : is_failing s.pc ≡ true → sh.broken ≡ true
    pub unended : Unended s.pc
    pub partial : sh.broken ≡ false → is_inside s.pc ≡ true → sh.out ≡ merged records ++ part s.pc
    pub kept :
        sh.broken ≡ false → lines (input i) ≡ lines_of i records ++ (held s.pc ++ lines s.unread)

  -- While no write has failed, the output is made of the lines written whole and of what the one
  -- goroutine in the critical section has written of its own.
  pub record Inv (sys : System) : Type 0 where
    pub records : List (ℕ × List ℕ)
    pub unique :
        (i j : ℕ)
        → is_inside (sys.source i).pc ≡ true
        → is_inside (sys.source j).pc ≡ true
        → (i == j) ≡ true
    pub free :
        sys.shared.broken ≡ false → sys.shared.locked ≡ false → sys.shared.out ≡ merged records
    pub good : (i : ℕ) → Good sys.shared records i (sys.source i)

  abbrev pub moved : System → ℕ → Source → Shared → System
  moved sys i s sh = record { shared = sh; source = update sys.source i s }

  module _ (sys : System) (i : ℕ) (s : Source) (sh : Shared) where
    -- A move of one goroutine keeps the invariant.
    moved-Inv :
        Inv sys
        → (records : List (ℕ × List ℕ))
        → ((j : ℕ) → (i == j) ≡ false → is_inside s.pc ≡ true → is_inside (sys.source j).pc ≡ false)
        → (sh.broken ≡ false → sh.locked ≡ false → sh.out ≡ merged records)
        → Good sh records i s
        → ((j : ℕ) → (i == j) ≡ false → Good sh records j (sys.source j))
        → Inv (moved sys i s sh)
    moved-Inv inv records alone free here there = record {
      records = records;
      unique =
          update-cases
            (λ j t.
              (k : ℕ)
              → is_inside t.pc ≡ true
              → is_inside (update sys.source i s k).pc ≡ true
              → (j == k) ≡ true)
            sys.source i s
            (λ k.
              update-cases
                (λ k' u. is_inside s.pc ≡ true → is_inside u.pc ≡ true → (i == k') ≡ true)
                sys.source i s (λ h g. ground arith)
                (λ k' e h g. let a = alone k' e h in ground (arith, a, g)) k)
            (λ j e k.
              update-cases
                (λ k' u.
                  is_inside (sys.source j).pc ≡ true → is_inside u.pc ≡ true → (j == k') ≡ true)
                sys.source i s (λ h g. let a = alone j e g in ground (arith, a, h))
                (λ k' f h g. inv.unique j k' h g) k);
      free = free;
      good = update-cases (Good sh records) sys.source i s here there;
    }

  -- A source outside the critical section is not touched by what is done inside it.
  other-Good :
      (sh sh' : Shared) (records records' : List (ℕ × List ℕ)) (j : ℕ) (s : Source)
      → Good sh records j s
      → is_inside s.pc ≡ false
      → lines_of j records' ≡ lines_of j records
      → (sh'.broken ≡ false → sh.broken ≡ false)
      → Good sh' records' j s
  other-Good sh sh' records records' j s good out same fine = record {
    inside = λ h. ground (arith, out, h);
    failed = λ h. let f = failing-is_inside s.pc out in ground (arith, f, h);
    unended = good.unended;
    partial = λ b h. ground (arith, out, h);
    kept = λ b. rw same (good.kept (fine b));
  }

  module _ (sys : System) (i : ℕ) (inv : Inv sys) where
    -- The move of the goroutine in the critical section, by what it adds to the lines.
    pub inside-Inv :
        (s : Source) (sh : Shared) (records : List (ℕ × List ℕ))
        → ((j : ℕ) → (i == j) ≡ false → is_inside (sys.source j).pc ≡ false)
        → ((j : ℕ) → (i == j) ≡ false → lines_of j records ≡ lines_of j inv.records)
        → (sh.broken ≡ false → sys.shared.broken ≡ false)
        → (sh.broken ≡ false → sh.locked ≡ false → sh.out ≡ merged records)
        → Good sh records i s
        → Inv (moved sys i s sh)
    inside-Inv s sh records alone same fine free here =
        moved-Inv sys i s sh inv records (λ j e h. alone j e) free here
          (λ j e.
            other-Good sys.shared sh inv.records records j (sys.source j) (inv.good j) (alone j e)
              (same j e) fine)

    pub outside-Inv :
        (s : Source)
        → is_inside s.pc ≡ false
        → Unended s.pc
        → held s.pc ++ lines s.unread ≡ held (sys.source i).pc ++ lines (sys.source i).unread
        → Inv (moved sys i s sys.shared)
    outside-Inv s out fine same =
        moved-Inv sys i s sys.shared inv inv.records (λ j e h. ground (arith, out, h)) inv.free
          (record {
            inside = λ h. ground (arith, out, h);
            failed = λ h. let f = failing-is_inside s.pc out in ground (arith, f, h);
            unended = fine;
            partial = λ b h. ground (arith, out, h);
            kept = λ b. rw same ((inv.good i).kept b);
          })
          (λ j e. inv.good j)

    pub not_inside : (j : ℕ) → sys.shared.locked ≡ false → is_inside (sys.source j).pc ≡ false
    not_inside j h = elim (Bool-cases (is_inside (sys.source j).pc)) [
      | inl e ↦ let k = (inv.good j).inside e in ground (arith, h, k)
      | inr e ↦ e
    ]

    pub alone_inside :
        is_inside (sys.source i).pc ≡ true
        → (j : ℕ) → (i == j) ≡ false
        → is_inside (sys.source j).pc ≡ false
    alone_inside here j e = elim (Bool-cases (is_inside (sys.source j).pc)) [
      | inl f ↦ let k = inv.unique i j here f in ground (arith, e, k)
      | inr f ↦ f
    ]
