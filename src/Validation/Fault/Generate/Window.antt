-- ===== src/Validation/Fault/Generate/Window.antt =====
-- Where the drawn faults stand: inside the run, in different seconds, in order.
use Prim.Native.Nat.{◌/◌}
use mathlib.Core.Path.{subst}
use probatorium.Base.{
  ==_iff, ℕ, zero, suc, ◌+◌, ◌-◌, ◌≤◌, ◌<◌, ltb, leb, ◌==◌, ◌||◌, ◌&&◌, not, Bool, true, List, [],
  ◌∷◌, ◌++◌, Option, none, some, length, count, count-append, count-Perm, ◌≡◌, ◌∙◌, refl, arith,
  Bool-cases, inl, inr, IsSort, Sorted,
}
use probatorium.Validation.Fault.Generate.{
  ScheduledFault, GenerateConfig, GenState, Fault, nanos, spacing_of, target_of, is_used, place_at,
  place, round, rounds, start_of, second, draw_fault,
}

-- The offset leaves the spacing free before the fault and behind its end.
pub fits : GenerateConfig → ScheduledFault → Bool
fits cfg f =
    leb (spacing_of cfg) f.offset
    && ltb (f.offset + f.duration + spacing_of cfg) (nanos cfg.run_duration)

abbrev pub in_second : ℕ → ScheduledFault → Bool
in_second k f = f.offset / second == k

abbrev pub by_offset : ScheduledFault → ScheduledFault → Bool
by_offset f g = ltb f.offset g.offset

-- At most as many faults as aimed at, each inside the run, no two in one second of it.
pub record IsPlanned (cfg : GenerateConfig) (sched : List ScheduledFault) : Type 0 where
  pub few : count (λ f. true) sched ≤ target_of cfg
  pub inside : count (λ f. not (fits cfg f)) sched ≡ 0
  pub apart : (k : ℕ) → count (in_second k) sched ≤ 1

target_of-le : (cfg : GenerateConfig) → target_of cfg ≤ 12
unfolding target_of
target_of-le cfg = omega arith

length-count : (xs : List ScheduledFault) → length xs ≡ count (λ f. true) xs
length-count [] = refl
length-count (x ∷ xs) = let ih = length-count xs in ground (arith, ih)

-- A fault that fits, in a second of its own.
IsPlanned-snoc :
    (cfg : GenerateConfig) (sched : List ScheduledFault) (g : ScheduledFault)
    → IsPlanned cfg sched
    → length sched < target_of cfg
    → fits cfg g ≡ true
    → count (in_second (g.offset / second)) sched ≡ 0
    → IsPlanned cfg (sched ++ g ∷ [])
IsPlanned-snoc cfg sched g planned room fit free =
    let inside = planned.inside in
    let len = length-count sched in
    let all = count-append (λ f. true) sched (g ∷ []) in
    let out = count-append (λ f. not (fits cfg f)) sched (g ∷ []) in
    record {
      few = ground (arith, len, all, room);
      inside = ground (arith, out, inside, fit);
      apart = λ k.
          let a = planned.apart k in
          let b = count-append (in_second k) sched (g ∷ []) in
          let e = ==_iff (g.offset / second) k in
          elim (Bool-cases (g.offset / second == k)) [
            | inl h ↦
                let f = subst (λ z. count (in_second z) sched ≡ 0) (e.0 h) free in
                ground (arith, b, f, h)
            | inr h ↦ ground (arith, b, a, h)
          ];
    }

module _ {R : Type 0} (cfg : GenerateConfig) where
  -- The state's schedule is planned, and the seconds in use are those of its faults.
  record Inv (st : GenState R) : Type 0 where
    planned : IsPlanned cfg st.sched
    marked : (k : ℕ) → is_used k st.used ≡ ltb 0 (count (in_second k) st.sched)

  module _ (int_n : ℕ → R → ℕ × R) (int_n-lt : (n : ℕ) (r : R) → 0 < n → (int_n n r).0 < n) where
    place_at-Inv :
        (f : Fault) (dur drawn : ℕ) (r : R) (st : GenState R)
        → Inv st
        → length st.sched < target_of cfg
        → spacing_of cfg + drawn + dur + spacing_of cfg < nanos cfg.run_duration
        → Inv (place_at int_n cfg f dur drawn r st)
    unfolding place_at fits is_used
    place_at-Inv f dur drawn r st inv room window =
        let off = spacing_of cfg + drawn in
        let slot = off / second in
        let g : ScheduledFault = record { offset = off; duration = dur; fault = f } in
        let m = inv.marked slot in
        elim (Bool-cases (is_used slot st.used)) [
          | inl h ↦ rw h (record { planned = inv.planned; marked = inv.marked })
          | inr h ↦ rw h (record {
            planned =
                IsPlanned-snoc cfg st.sched g inv.planned room (ground (arith, window))
                  (ground (arith, m, h));
            marked = λ k.
                let a = inv.marked k in
                let b = count-append (in_second k) st.sched (g ∷ []) in ground (arith, a, b);
          })
        ]

    place-Inv :
        (f : Option (Fault × ℕ)) (r : R) (st : GenState R)
        → Inv st
        → length st.sched < target_of cfg
        → Inv (place int_n cfg f r st)
    unfolding place
    place-Inv none r st inv room = record { planned = inv.planned; marked = inv.marked }
    place-Inv (some (f, dur)) r st inv room =
        elim (Bool-cases (leb (nanos cfg.run_duration) (dur + spacing_of cfg + spacing_of cfg))) [
          | inl h ↦ rw h (record { planned = inv.planned; marked = inv.marked })
          | inr h ↦
              let n = nanos cfg.run_duration - dur - spacing_of cfg - spacing_of cfg in
              let lt = int_n-lt n r (ground (arith, h)) in
              rw h
                (place_at-Inv f dur (int_n n r).0 (int_n n r).1 st inv room (ground (arith, lt, h)))
        ]

    round-Inv : (st : GenState R) → Inv st → Inv (round int_n cfg st)
    unfolding round
    round-Inv st inv = elim (Bool-cases (st.left || not (ltb (length st.sched) (target_of cfg)))) [
      | inl h ↦ rw h inv
      | inr h ↦
          let (kind, r1) = int_n 5 st.source in
          let (f, r2) = draw_fault int_n kind cfg r1 in
          rw h (place-Inv f r2 st inv (ground (arith, h)))
    ]

    rounds-Inv : (n : ℕ) (st : GenState R) → Inv st → Inv (rounds int_n cfg n st)
    unfolding rounds
    rounds-Inv zero st inv = inv
    rounds-Inv (suc n) st inv = round-Inv (rounds int_n cfg n st) (rounds-Inv n st inv)

    module _ (seeded : ℕ → R) (sort : List ScheduledFault → List ScheduledFault)
        (sorts : IsSort by_offset sort) where
      start-Inv : Inv (start_of int_n seeded sort cfg)
      unfolding start_of is_used
      start-Inv = record {
        planned = record { few = omega arith; inside = refl; apart = λ k. omega arith };
        marked = λ k. refl;
      }

      sort-IsPlanned : (xs : List ScheduledFault) → IsPlanned cfg xs → IsPlanned cfg (sort xs)
      sort-IsPlanned xs planned =
          let few = planned.few in
          let inside = planned.inside in
          let all = count-Perm (λ f. true) (sorts.perm xs) in
          let out = count-Perm (λ f. not (fits cfg f)) (sorts.perm xs) in
          record {
            few = omega (arith, few, all);
            inside = out ∙ inside;
            apart = λ k.
                let a = planned.apart k in
                let b = count-Perm (in_second k) (sorts.perm xs) in omega (arith, a, b);
          }

      -- Provided that the source draws numbers below the bounds given to it and that the sort
      -- sorts: after any number of rounds of the loop the faults placed, once sorted, stand in the
      -- order of their offsets, are at most as many as aimed at, which is at most twelve, each
      -- leaves the spacing free before it and behind its end within the run, and no two start in
      -- one second.
      pub rounds-IsPlanned :
          (n : ℕ)
          → let sched = sort (rounds int_n cfg n (start_of int_n seeded sort cfg)).sched in
            Sorted by_offset sched × IsPlanned cfg sched × (count (λ f. true) sched ≤ 12)
      rounds-IsPlanned n =
          let xs = (rounds int_n cfg n (start_of int_n seeded sort cfg)).sched in
          let planned =
            sort-IsPlanned xs (rounds-Inv n (start_of int_n seeded sort cfg) start-Inv).planned in
          let few = planned.few in (sorts.sorted xs, planned, omega (arith, few, target_of-le cfg))
