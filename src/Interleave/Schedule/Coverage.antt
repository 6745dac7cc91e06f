-- ===== src/Interleave/Schedule/Coverage.antt =====
-- interleave/schedule.go: which cells `Schedule` emits, how often and where.
use probatorium.Base.{
  ℕ, zero, suc, ◌+◌, ◌*◌, ◌<◌, ◌≡◌, refl, ◌==◌, ltb, if◌then◌else◌, ◌&&◌, List, [], ◌∷◌, ap, length,
  length-append, get_elem?, count, count-append, get_elem?-append_left, get_elem?-append_right,
  get_elem?-lt, some, arith, ℤ, pos, negsuc, rounds, Bool, ◌∙◌,
}
use probatorium.Interleave.Schedule.{Cell, pairs_of, pairs, run_cells, emit, schedule}

module _ {S V : Type 0} where
  length-run_cells : (r : ℕ) (ps : List (S × V)) → length (run_cells r ps) ≡ length ps
  unfolding run_cells
  length-run_cells r [] = refl
  length-run_cells r (p ∷ ps) = ap suc (length-run_cells r ps)

  length-emit : (n r : ℕ) (ps : List (S × V)) → length (emit n r ps) ≡ n * length ps
  unfolding emit
  length-emit zero r ps = omega arith
  length-emit (suc n) r ps = grind (
    arith,
    length-append (run_cells r ps) (emit n (r + 1) ps),
    length-run_cells r ps,
    length-emit n (r + 1) ps,
  )

  -- How many of the pairs pass a test.
  abbrev pub count_pairs : (S → V → Bool) → List (S × V) → ℕ
  count_pairs p = count (λ x. p x.0 x.1)

  abbrev pub at_run : ℕ → (S → V → Bool) → Cell S V → Bool
  at_run r p c = c.run_idx == r && p c.scenario c.server

  count-run_cells :
      (p : S → V → Bool) (r i : ℕ) (ps : List (S × V))
      → count (at_run r p) (run_cells i ps) ≡ (if i == r then count_pairs p ps else 0)
  unfolding run_cells
  count-run_cells p r i [] = ground arith
  count-run_cells p r i (x ∷ ps) = ground (arith, count-run_cells p r i ps)

  count-emit_below :
      (p : S → V → Bool) (r n i : ℕ) (ps : List (S × V))
      → r < i
      → count (at_run r p) (emit n i ps) ≡ 0
  unfolding emit
  count-emit_below p r zero i ps h = refl
  count-emit_below p r (suc n) i ps h = ground (
    arith,
    count-append (at_run r p) (run_cells i ps) (emit n (i + 1) ps),
    count-run_cells p r i ps,
    count-emit_below p r n (i + 1) ps,
  )

  count-emit :
      (p : S → V → Bool) (k n i : ℕ) (ps : List (S × V))
      → count (at_run (i + k) p) (emit n i ps) ≡ (if ltb k n then count_pairs p ps else 0)
  unfolding emit
  count-emit p k zero i ps = ground arith
  count-emit p zero (suc n) i ps = ground (
    arith,
    count-append (at_run (i + 0) p) (run_cells i ps) (emit n (i + 1) ps),
    count-run_cells p (i + 0) i ps,
    count-emit_below p (i + 0) n (i + 1) ps,
  )
  count-emit p (suc k) (suc n) i ps =
      let e : i + suc k ≡ i + 1 + k = omega arith in
      rw e (
        ground (
          arith,
          count-append (at_run (i + 1 + k) p) (run_cells i ps) (emit n (i + 1) ps),
          count-run_cells p (i + 1 + k) i ps,
          count-emit p k n (i + 1) ps,
        ))

  get_elem?-run_cells :
      (r : ℕ) (ps : List (S × V)) (k : ℕ) {x : S × V}
      → get_elem? ps k ≡ some x
      → get_elem? (run_cells r ps) k ≡ some (record { run_idx = r; scenario = x.0; server = x.1 })
  unfolding run_cells
  get_elem?-run_cells r [] k h = cc
  get_elem?-run_cells r (p ∷ ps) zero h = ground arith
  get_elem?-run_cells r (p ∷ ps) (suc k) h = get_elem?-run_cells r ps k h

  get_elem?-emit :
      (n i r : ℕ) (ps : List (S × V)) (k : ℕ) {x : S × V}
      → r < n
      → get_elem? ps k ≡ some x
      → get_elem? (emit n i ps) (r * length ps + k)
        ≡ some (record { run_idx = i + r; scenario = x.0; server = x.1 })
  unfolding emit
  get_elem?-emit zero i r ps k h e = elim h [ ]
  get_elem?-emit (suc n) i zero ps k h e =
      let e0 : 0 * length ps + k ≡ k = omega arith in
      let e1 : i + 0 ≡ i = omega arith in
      rw (e0, e1)
        (get_elem?-append_left (run_cells i ps) (emit n (i + 1) ps) k
            (omega (arith, length-run_cells i ps, get_elem?-lt ps k e))
          ∙ get_elem?-run_cells i ps k e)
  get_elem?-emit (suc n) i (suc r) ps k h e =
      let e0 : suc r * length ps + k ≡ length (run_cells i ps) + (r * length ps + k) =
        omega (arith, length-run_cells i ps) in
      let e1 : i + suc r ≡ i + 1 + r = omega arith in
      rw (e0, e1)
        (get_elem?-append_right (run_cells i ps) (emit n (i + 1) ps) (r * length ps + k)
          ∙ get_elem?-emit n (i + 1) r ps k (omega arith) e)

module _ {S V F : Type 0} (applicable : S → F → Bool) (features : V → F) where
  -- How many pairs of the two lists are applicable and pass the test `p`.
  abbrev pub count_applicable : (S → V → Bool) → List S → List V → ℕ
  count_applicable p [] sv = 0
  count_applicable p (s ∷ ss) sv =
      count (λ srv. applicable s (features srv) && p s srv) sv + count_applicable p ss sv

  count-pairs_of :
      (p : S → V → Bool) (s : S) (sv : List V)
      → count_pairs p (pairs_of applicable features s sv)
        ≡ count (λ srv. applicable s (features srv) && p s srv) sv
  unfolding pairs_of
  count-pairs_of p s [] = refl
  count-pairs_of p s (srv ∷ sv) = ground (arith, count-pairs_of p s sv)

  count-pairs :
      (p : S → V → Bool) (ss : List S) (sv : List V)
      → count_pairs p (pairs applicable features ss sv) ≡ count_applicable p ss sv
  unfolding pairs
  count-pairs p [] sv = refl
  count-pairs p (s ∷ ss) sv = omega (
    arith,
    count-append (λ x. p x.0 x.1) (pairs_of applicable features s sv)
        (pairs applicable features ss sv),
    count-pairs_of p s sv,
    count-pairs p ss sv,
  )

  count_applicable-nil : (p : S → V → Bool) (ss : List S) → count_applicable p ss [] ≡ 0
  count_applicable-nil p [] = refl
  count_applicable-nil p (s ∷ ss) = omega (arith, count_applicable-nil p ss)

  -- In each of the runs asked for, the schedule holds every applicable (scenario, server) pair
  -- exactly as often as the two lists offer it, and no pair that is not applicable; it holds no
  -- cell of any other run. Stated by counting the cells of run `r` whose pair passes a test `p`.
  pub schedule_coverage :
      (runs : ℤ) (ss : List S) (sv : List V) (p : S → V → Bool) (r : ℕ)
      → count (at_run r p) (schedule applicable features runs ss sv)
        ≡ (if ltb r (rounds runs) then count_applicable p ss sv else 0)
  unfolding schedule
  schedule_coverage (negsuc n) ss sv p r = ground arith
  schedule_coverage (pos n) [] sv p r = ground (arith)
  schedule_coverage (pos n) (s ∷ ss) [] p r = ground (arith, count_applicable-nil p (s ∷ ss))
  schedule_coverage (pos n) (s ∷ ss) (v ∷ sv) p r =
      let e : 0 + r ≡ r = omega arith in
      ground (
        arith,
        rw e at (count-emit p r n 0 (pairs applicable features (s ∷ ss) (v ∷ sv))),
        count-pairs p (s ∷ ss) (v ∷ sv),
      )

  pairs-nil : (ss : List S) → pairs applicable features ss [] ≡ []
  unfolding pairs pairs_of
  pairs-nil [] = refl
  pairs-nil (s ∷ ss) = pairs-nil ss

  emit-nil : (n r : ℕ) → emit {S = S} {V = V} n r [] ≡ []
  unfolding emit run_cells
  emit-nil zero r = refl
  emit-nil (suc n) r = emit-nil n (r + 1)

  schedule-emit :
      (runs : ℤ) (ss : List S) (sv : List V)
      → schedule applicable features runs ss sv
        ≡ emit (rounds runs) 0 (pairs applicable features ss sv)
  unfolding schedule
  schedule-emit (negsuc n) ss sv = unfold emit in refl
  schedule-emit (pos n) [] sv = unfold pairs in ground (arith, emit-nil n 0)
  schedule-emit (pos n) (s ∷ ss) [] = ground (arith, pairs-nil (s ∷ ss), emit-nil n 0)
  schedule-emit (pos zero) (s ∷ ss) (v ∷ sv) = unfold emit in refl
  schedule-emit (pos (suc n)) (s ∷ ss) (v ∷ sv) = ground arith

  -- The schedule is the applicable pairs in one fixed order, repeated once for each run: it has
  -- as many cells as runs times pairs, and for every run `r` that was asked for the pair at `k`
  -- stands at position `r * (number of pairs) + k`, with the run index `r`.
  pub schedule_layout :
      (runs : ℤ) (ss : List S) (sv : List V) (r k : ℕ) (x : S × V)
      → r < rounds runs
      → get_elem? (pairs applicable features ss sv) k ≡ some x
      → (length (schedule applicable features runs ss sv)
          ≡ rounds runs * length (pairs applicable features ss sv))
        × (get_elem?
              (schedule applicable features runs ss sv)
              (r * length (pairs applicable features ss sv) + k)
            ≡ some (record { run_idx = r; scenario = x.0; server = x.1 }))
  schedule_layout runs ss sv r k x h e =
      let e0 : 0 + r ≡ r = omega arith in
      rw (schedule-emit runs ss sv) (
        length-emit (rounds runs) 0 (pairs applicable features ss sv),
        rw e0 at (get_elem?-emit (rounds runs) 0 r (pairs applicable features ss sv) k h e),
      )
