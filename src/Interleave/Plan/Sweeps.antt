-- ===== src/Interleave/Plan/Sweeps.antt =====
-- interleave/archplan.go: the rated sweeps of a plan and its heavy cells under the policy
-- `heavy+rated`, each cell with the slot that it ran in.
use mathlib.Core.List.{map-append}
use probatorium.Base.{
  ℕ, ◌-◌, ◌≤◌, ◌≡◌, refl, sym, ◌∙◌, ap, ltb, if◌then◌else◌, ◌||◌, Bool, true, List, [], ◌∷◌, ◌++◌,
  map, append_assoc, append-nil, All, arith, String,
}
use probatorium.Interleave.Plan.Induction.{walk_ind}
use probatorium.Interleave.Plan.Lock.{
  FreeBy, AllApart, AllApart-new, AllApart-new', All-FreeBy-new, All-FreeBy-later,
}
use probatorium.Interleave.Plan.Planned.{planned, walk_cells-planned}
use probatorium.Interleave.Plan.Measures.{rated_under_heavy}
use probatorium.Interleave.Plan.Measures.Counts.{rated_under_heavy-zero}
use probatorium.Interleave.Plan.{
  PlanCell, heavy_rated, PlanParams, WalkCell, Slot, CellRun, Sim, run_cell, advance0, advance1,
  add_slot, walk, needs_lock, is_heavy_rated, start_sim, simulate_arch_plan, ArchPlan, walk_cells,
  setup_of,
}

-- A slot, and how long the rated sweep of the cell that ran in it is: it is the tail of the slot.
pub record Entry : Type 0 where
  pub rated : ℕ
  pub slot : Slot

abbrev pub entry_rated : Entry → ℕ
entry_rated e = e.rated

abbrev pub entry_slot : Entry → Slot
entry_slot e = e.slot

-- A heavy cell is to be alone for its whole slot, a light one for its rated sweep, if it has one.
abbrev pub is_alone : Entry → Bool
is_alone e = e.slot.heavy || ltb 0 e.rated

abbrev pub alone_from : Entry → ℕ
alone_from e = if e.slot.heavy then e.slot.start else e.slot.end - e.rated

abbrev pub alone_until : Entry → ℕ
alone_until e = e.slot.end

-- Of any two entries of the two lists: one has no time to be alone, or one's ends before the other's.
abbrev pub NoneShared : List Entry → List Entry → Type 0
NoneShared = AllApart is_alone alone_from alone_until

abbrev IsFree : ℕ → Entry → Type 0
IsFree = FreeBy is_alone alone_from alone_until

record Inv (es fs : List Entry) (s : Sim) : Type 0 where
  slots0 : map entry_slot es ≡ s.result.arch0.slots
  slots1 : map entry_slot fs ≡ s.result.arch1.slots
  free0 : All (IsFree s.lock_free) es
  free1 : All (IsFree s.lock_free) fs
  apart : NoneShared es fs

-- The length of the rated sweep that the plan gives to a cell.
abbrev pub rated_of : String → PlanCell → ℕ
rated_of name x = x.rated

abbrev cell_rated : WalkCell → ℕ
cell_rated c = c.cell.rated

module _ (cooldown column_setup : ℕ) where
  abbrev p : PlanParams
  p = record { policy = heavy_rated; cooldown = cooldown; column_setup = column_setup }

  module _ (setup lock_free ready : ℕ) (c : WalkCell) where
    abbrev ran : CellRun
    ran = run_cell p setup lock_free ready c

    abbrev entry : Entry
    entry = record { rated = c.cell.rated; slot = ran.slot }

    ran-lock_free : lock_free ≤ ran.lock_free
    unfolding run_cell needs_lock is_heavy_rated
    ran-lock_free = ground arith

    ran-held :
        is_alone entry ≡ true → (lock_free ≤ alone_from entry) × (alone_until entry ≤ ran.lock_free)
    unfolding run_cell needs_lock is_heavy_rated
    ran-held h = ground arith

  module _ (u : ℕ) (c : WalkCell) (s : Sim) (es fs : List Entry) (v : Inv es fs s) where
    advance0-Inv : Inv (es ++ entry u s.lock_free s.ready0 c ∷ []) fs (advance0 p u c s)
    unfolding advance0 add_slot
    advance0-Inv =
        let z = entry u s.lock_free s.ready0 c in
        let later = ran-lock_free u s.lock_free s.ready0 c in
        let held = ran-held u s.lock_free s.ready0 c in
        record {
          slots0 = map-append entry_slot es _ ∙ ap (λ xs. xs ++ z.slot ∷ []) v.slots0;
          slots1 = v.slots1;
          free0 =
              All-FreeBy-new is_alone alone_from alone_until s.lock_free _ z later held es v.free0;
          free1 =
              All-FreeBy-later is_alone alone_from alone_until s.lock_free _ z later held fs
                v.free1;
          apart =
              AllApart-new is_alone alone_from alone_until s.lock_free _ z later held es fs v.free1
                v.apart;
        }

    advance1-Inv : Inv es (fs ++ entry u s.lock_free s.ready1 c ∷ []) (advance1 p u c s)
    unfolding advance1 add_slot
    advance1-Inv =
        let z = entry u s.lock_free s.ready1 c in
        let later = ran-lock_free u s.lock_free s.ready1 c in
        let held = ran-held u s.lock_free s.ready1 c in
        record {
          slots1 = map-append entry_slot fs _ ∙ ap (λ xs. xs ++ z.slot ∷ []) v.slots1;
          slots0 = v.slots0;
          free1 =
              All-FreeBy-new is_alone alone_from alone_until s.lock_free _ z later held fs v.free1;
          free0 =
              All-FreeBy-later is_alone alone_from alone_until s.lock_free _ z later held es
                v.free0;
          apart =
              AllApart-new' is_alone alone_from alone_until s.lock_free _ z later held es fs v.free0
                v.apart;
        }

  -- The cells left, with the entries so far, lead to entries for all of them.
  abbrev Leads : List WalkCell → List WalkCell → Sim → Sim → Type 0
  Leads cs ds s t =
      (es fs : List Entry)
      → Inv es fs s
      → (es' fs' : List Entry) × (map entry_rated es' ≡ map entry_rated es ++ map cell_rated cs)
        × (map entry_rated fs' ≡ map entry_rated fs ++ map cell_rated ds)
        × Inv es' fs' t

  rated-cons :
      (es : List Entry) (e : Entry) (ns : List ℕ)
      → map entry_rated (es ++ e ∷ []) ++ ns ≡ map entry_rated es ++ e.rated ∷ ns
  rated-cons es e ns =
      ap (λ ms. ms ++ ns) (map-append entry_rated es (e ∷ []))
      ∙ append_assoc (map entry_rated es) _ _

  walk-Leads : (u0 u1 : ℕ) (cs ds : List WalkCell) (s : Sim) → Leads cs ds s (walk p u0 u1 cs ds s)
  walk-Leads u0 u1 =
      walk_ind p u0 u1 Leads (λ s es fs v. (es, fs, sym (append-nil _), sym (append-nil _), v))
        (λ c cs ds s t ih es fs v.
          let (es', fs', rated0, rated1, v') =
            ih (es ++ entry u0 s.lock_free s.ready0 c ∷ []) fs (advance0-Inv u0 c s es fs v) in
          (es', fs', rated0 ∙ rated-cons es _ _, rated1, v'))
        (λ d cs ds s t ih es fs v.
          let (es', fs', rated0, rated1, v') =
            ih es (fs ++ entry u1 s.lock_free s.ready1 d ∷ []) (advance1-Inv u1 d s es fs v) in
          (es', fs', rated0, rated1 ∙ rated-cons fs _ _, v'))

  NoneShared-planned :
      (a b : ArchPlan)
      → (es fs : List Entry) × (map entry_slot es ≡ (simulate_arch_plan a b p).arch0.slots)
        × (map entry_rated es ≡ planned rated_of a)
        × (map entry_slot fs ≡ (simulate_arch_plan a b p).arch1.slots)
        × (map entry_rated fs ≡ planned rated_of b)
        × NoneShared es fs
  unfolding simulate_arch_plan start_sim
  NoneShared-planned a b =
      let (es, fs, rated0, rated1, v) =
        walk-Leads (setup_of p a) (setup_of p b) (walk_cells a) (walk_cells b) (start_sim a b) [] []
          (record { slots0 = refl; slots1 = refl; free0 = tt; free1 = tt; apart = tt }) in
      (
        es,
        fs,
        v.slots0,
        rated0 ∙ walk_cells-planned rated_of a,
        v.slots1,
        rated1 ∙ walk_cells-planned rated_of b,
        v.apart,
      )

-- With heavy cells holding the lock whole and light cells for their rated sweep, for all plans and
-- constants: take each slot with the length of the rated sweep that the plan gives to its cell, the
-- tail of the slot. Then no rated sweep of a light cell, those that begin at the instant 0 included,
-- shares time with a heavy slot or with a light cell's rated sweep of the other arch, and no two
-- heavy slots share time. And `RatedUnderHeavy` finds no cell, no pair and no overlapped time.
pub simulate-NoneShared :
    (a b : ArchPlan) (cooldown setup : ℕ)
    → let p : PlanParams = record {
      policy = heavy_rated;
      cooldown = cooldown;
      column_setup = setup;
    } in
      let r = simulate_arch_plan a b p in
      ((es fs : List Entry) × (map entry_slot es ≡ r.arch0.slots)
        × (map entry_rated es ≡ planned rated_of a)
        × (map entry_slot fs ≡ r.arch1.slots)
        × (map entry_rated fs ≡ planned rated_of b)
        × NoneShared es fs)
      × (rated_under_heavy r ≡ record { cells = 0; pairs = 0; overlapped = 0 })
simulate-NoneShared a b cooldown setup =
    (NoneShared-planned cooldown setup a b, rated_under_heavy-zero a b cooldown setup)
