-- ===== src/Interleave/Plan/Measures.antt =====
-- interleave/archplan.go: what is counted on a simulated run (`Overlaps`, `RatedUnderHeavy`,
-- `RatedPassSharing`). Each loop carries its counters.
pub mod Counts
pub mod PassClasses
mod Tests
use probatorium.Base.{
  ℕ, zero, suc, ◌+◌, ◌-◌, ◌*◌, min, max, ◌==◌, ltb, leb, if◌then◌else◌, ◌||◌, ◌&&◌, not, Bool, true,
  false, List, [], ◌∷◌,
}
use probatorium.Interleave.Plan.{Slot, ArchResult, PlanResult}

pub record Overlaps : Type 0 where
  pub heavy_heavy : ℕ
  pub heavy_light : ℕ
  pub light_light : ℕ

-- Two slots share time unless one starts at or after the other's end.
pub slots_overlap : Slot → Slot → Bool
slots_overlap x y = not (leb y.end x.start || leb x.end y.start)

pub count_overlap : Slot → Slot → Overlaps → Overlaps
unfolding slots_overlap
count_overlap x y n =
    if not (slots_overlap x y)
    then n
    else if x.heavy && y.heavy
    then record n { heavy_heavy = n.heavy_heavy + 1 }
    else if x.heavy || y.heavy
    then record n { heavy_light = n.heavy_light + 1 }
    else record n { light_light = n.light_light + 1 }

pub overlaps_with : Slot → List Slot → Overlaps → Overlaps
unfolding count_overlap
overlaps_with x [] n = n
overlaps_with x (y ∷ ys) n = overlaps_with x ys (count_overlap x y n)

pub overlaps_between : List Slot → List Slot → Overlaps → Overlaps
unfolding overlaps_with
overlaps_between [] ys n = n
overlaps_between (x ∷ xs) ys n = overlaps_between xs ys (overlaps_with x ys n)

pub overlaps : PlanResult → Overlaps
unfolding overlaps_between
overlaps r =
    overlaps_between r.arch0.slots r.arch1.slots
      (record { heavy_heavy = 0; heavy_light = 0; light_light = 0 })

pub record Exposure : Type 0 where
  pub cells : ℕ
  pub pairs : ℕ
  pub overlapped : ℕ

-- The slots whose rated sweep is counted: light cells with a rated start.
pub is_rated_light : Slot → Bool
is_rated_light x = not (x.heavy || x.rated_start == 0)

-- The inner loop of `RatedUnderHeavy`, with `hit`, `pairs` and `overlapped`.
pub exposure_to : Slot → List Slot → Bool → ℕ → ℕ → Bool × ℕ × ℕ
exposure_to x [] hit pairs overlapped = (hit, pairs, overlapped)
exposure_to x (y ∷ ys) hit pairs overlapped =
    let outside = not y.heavy || (leb x.end y.start || leb y.end x.rated_start) in
    let lo = max x.rated_start y.start in
    let hi = min x.end y.end in
    let counts = not outside && not (leb hi lo) in
    exposure_to x ys (counts || hit) (if counts then pairs + 1 else pairs)
      (if counts then overlapped + (hi - lo) else overlapped)

pub exposure_side : List Slot → List Slot → Exposure → Exposure
unfolding is_rated_light exposure_to
exposure_side [] ys e = e
exposure_side (x ∷ xs) ys e =
    let (hit, pairs, overlapped) = exposure_to x ys false e.pairs e.overlapped in
    exposure_side xs ys (
      if is_rated_light x
      then record {
        cells = if hit then e.cells + 1 else e.cells;
        pairs = pairs;
        overlapped = overlapped;
      }
      else e)

pub rated_under_heavy : PlanResult → Exposure
unfolding exposure_side
rated_under_heavy r =
    exposure_side r.arch1.slots r.arch0.slots
      (exposure_side r.arch0.slots r.arch1.slots (record { cells = 0; pairs = 0; overlapped = 0 }))

pub record Sharing : Type 0 where
  pub alone : ℕ
  pub heavy : ℕ
  pub light : ℕ

-- Whether a heavy slot, or a light one, of the list touches the pass [ps, pe).
pub saw : Bool → ℕ → ℕ → List Slot → Bool
saw is_heavy ps pe [] = false
saw is_heavy ps pe (y ∷ ys) =
    (not (leb pe y.start || leb y.end ps) && (if is_heavy then y.heavy else not y.heavy))
    || saw is_heavy ps pe ys

pub count_pass : ℕ → ℕ → List Slot → Sharing → Sharing
unfolding saw
count_pass ps pe ys s =
    if saw true ps pe ys
    then record s { heavy = s.heavy + 1 }
    else if saw false ps pe ys
    then record s { light = s.light + 1 }
    else record s { alone = s.alone + 1 }

-- `for k := 0; k < n; k++`, with the passes left and the index of the next.
pub count_passes : ℕ → ℕ → Slot → ℕ → List Slot → Sharing → Sharing
unfolding count_pass
count_passes zero k x pass_dur ys s = s
count_passes (suc n) k x pass_dur ys s =
    let ps = x.rated_start + k * pass_dur in
    count_passes n (k + 1) x pass_dur ys (count_pass ps (ps + pass_dur) ys s)

pub sharing_side : ℕ → ℕ → List Slot → List Slot → Sharing → Sharing
unfolding is_rated_light count_passes
sharing_side n pass_dur [] ys s = s
sharing_side n pass_dur (x ∷ xs) ys s =
    sharing_side n pass_dur xs ys (if is_rated_light x then count_passes n 0 x pass_dur ys s else s)

pub rated_pass_sharing : ℕ → ℕ → PlanResult → Sharing
unfolding sharing_side
rated_pass_sharing n pass_dur r = sharing_side n pass_dur r.arch1.slots r.arch0.slots (
    sharing_side n pass_dur r.arch0.slots r.arch1.slots
      (record { alone = 0; heavy = 0; light = 0 }))
