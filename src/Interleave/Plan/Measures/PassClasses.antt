-- ===== src/Interleave/Plan/Measures/PassClasses.antt =====
-- interleave/archplan.go: `RatedPassSharing` puts every rated pass in one class.
use probatorium.Base.{ℕ, zero, suc, ◌+◌, ◌*◌, ◌≡◌, List, [], ◌∷◌, arith, count}
use probatorium.Interleave.Plan.{Slot, PlanResult}
use probatorium.Interleave.Plan.Measures.{
  Sharing, is_rated_light, count_pass, count_passes, sharing_side, rated_pass_sharing,
}

-- The passes counted so far.
abbrev pub passes : Sharing → ℕ
passes s = s.alone + s.heavy + s.light

passes-count_pass :
    (ps pe : ℕ) (ys : List Slot) (s : Sharing) → passes (count_pass ps pe ys s) ≡ passes s + 1
unfolding count_pass
passes-count_pass ps pe ys s = ground arith

passes-count_passes :
    (n k : ℕ) (x : Slot) (pass_dur : ℕ) (ys : List Slot) (s : Sharing)
    → passes (count_passes n k x pass_dur ys s) ≡ passes s + n
unfolding count_passes
passes-count_passes zero k x pass_dur ys s = omega arith
passes-count_passes (suc n) k x pass_dur ys s =
    let ps : ℕ = x.rated_start + k * pass_dur in
    omega (
      arith,
      passes-count_passes n (k + 1) x pass_dur ys (count_pass ps (ps + pass_dur) ys s),
      passes-count_pass ps (ps + pass_dur) ys s,
    )

passes-sharing_side :
    (n pass_dur : ℕ) (xs ys : List Slot) (s : Sharing)
    → passes (sharing_side n pass_dur xs ys s) ≡ passes s + n * count is_rated_light xs
unfolding sharing_side
passes-sharing_side n pass_dur [] ys s = omega arith
passes-sharing_side n pass_dur (x ∷ xs) ys s = grind (
  arith,
  passes-sharing_side n pass_dur xs ys s,
  passes-sharing_side n pass_dur xs ys (count_passes n 0 x pass_dur ys s),
  passes-count_passes n 0 x pass_dur ys s,
)

-- Every rated pass of every light cell with a rated start is put in exactly one of the classes
-- alone, heavy and light: their sum is the passes per cell times those cells of both arches.
pub rated_pass_sharing-total :
    (n pass_dur : ℕ) (r : PlanResult)
    → passes (rated_pass_sharing n pass_dur r)
      ≡ n * (count is_rated_light r.arch0.slots + count is_rated_light r.arch1.slots)
unfolding rated_pass_sharing
rated_pass_sharing-total n pass_dur r =
    let zeros : Sharing = record { alone = 0; heavy = 0; light = 0 } in
    omega (
      arith,
      passes-sharing_side n pass_dur r.arch0.slots r.arch1.slots zeros,
      passes-sharing_side n pass_dur r.arch1.slots r.arch0.slots
          (sharing_side n pass_dur r.arch0.slots r.arch1.slots zeros),
    )
