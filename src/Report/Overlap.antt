-- ===== src/Report/Overlap.antt =====
-- report/archoverlap.go: the check that the two arches of a finished both-arch run did not load
-- the client at the same time. An instant is a natural number, with the zero time at 0. The two
-- calls of `sort.Slice` are parameters; `TargetRPS`, which the check does not read, and the
-- texts that it prints are left out.
pub mod Counts
pub mod Verdict
pub mod Listing
pub mod Policies
pub mod Record
mod Tests
use text.Mathlib.Text.{◌==◌ as str_eq}
use probatorium.Base.{
  ℕ, suc, ◌+◌, ◌-◌, ◌==◌, ltb, leb, if◌then◌else◌, ◌||◌, ◌&&◌, not, Bool, true, false, List, [],
  ◌∷◌, ◌++◌, String, length, take, Option, none, some,
}

abbrev pub exclusion_heavy : String
exclusion_heavy = "heavy"

abbrev pub exclusion_all : String
exclusion_all = "all"

abbrev pub exclusion_off : String
exclusion_off = "off"

pub record LoadWindow : Type 0 where
  pub competitor : String
  pub scenario : String
  pub kind : String
  pub class : String
  pub start : ℕ
  pub end : ℕ

pub record OverlapPair : Type 0 where
  pub a : LoadWindow
  pub b : LoadWindow
  pub overlap : ℕ

pub record OverlapReport : Type 0 where
  pub policy : String
  pub checks_a : ℕ
  pub checks_b : ℕ
  pub missing_a : ℕ
  pub missing_b : ℕ
  pub heavy_heavy : ℕ
  pub heavy_light : ℕ
  pub light_light : ℕ
  pub violations : List OverlapPair
  pub total : ℕ

abbrev pub max_listed_violations : ℕ
max_listed_violations = 25

pub clean : OverlapReport → Bool
clean r = r.total == 0 && (r.missing_a == 0 && r.missing_b == 0)

pub window_usable : LoadWindow → Bool
window_usable w = not (w.start == 0) && (not (w.end == 0) && ltb w.start w.end)

-- An unknown class is heavy.
pub is_heavy : LoadWindow → Bool
is_heavy w = not (str_eq w.class "light")

pub forbidden : String → LoadWindow → LoadWindow → Bool
unfolding is_heavy
forbidden policy a b =
    if str_eq policy exclusion_all
    then true
    else if str_eq policy exclusion_heavy
    then is_heavy a && is_heavy b
    else false

-- The windows of one arch that can be compared, and the number of those that cannot.
pub usable : List LoadWindow → List LoadWindow
unfolding window_usable
usable [] = []
usable (w ∷ ws) = let rest = usable ws in if window_usable w then w ∷ rest else rest

pub missing : List LoadWindow → ℕ
unfolding window_usable
missing [] = 0
missing (w ∷ ws) = (if window_usable w then 0 else 1) + missing ws

-- The counters of the loop and the violations found so far.
pub record Tally : Type 0 where
  pub heavy_heavy : ℕ
  pub heavy_light : ℕ
  pub light_light : ℕ
  pub total : ℕ
  pub viol : List OverlapPair

-- The time that two windows share; `none` where the code goes on with the next pair.
pub shared_time : LoadWindow → LoadWindow → Option ℕ
shared_time x y =
    if not (ltb x.start y.end)
    then none
    else let lo = if ltb x.start y.start then y.start else x.start in
      let hi = if ltb y.end x.end then y.end else x.end in
      if leb hi lo then none else some (hi - lo)

pub count_class : LoadWindow → LoadWindow → Tally → Tally
unfolding is_heavy
count_class x y t =
    if is_heavy x && is_heavy y
    then record t { heavy_heavy = t.heavy_heavy + 1 }
    else if is_heavy x || is_heavy y
    then record t { heavy_light = t.heavy_light + 1 }
    else record t { light_light = t.light_light + 1 }

pub count_violation : String → LoadWindow → LoadWindow → ℕ → Tally → Tally
unfolding forbidden
count_violation policy x y ov t =
    if forbidden policy x y
    then record t {
      total = t.total + 1;
      viol = t.viol ++ record { a = x; b = y; overlap = ov } ∷ [];
    }
    else t

pub tally_pair : String → LoadWindow → LoadWindow → Tally → Tally
unfolding shared_time count_class count_violation
tally_pair policy x y t = elim (shared_time x y) [
  | none ↦ t
  | some ov ↦ count_violation policy x y ov (count_class x y t)
]

-- The inner loop over the windows of the other arch, which are sorted by start: it breaks at
-- the first that starts at or after the end of `x`.
pub sweep : String → LoadWindow → List LoadWindow → Tally → Tally
unfolding tally_pair
sweep policy x [] t = t
sweep policy x (y ∷ ys) t =
    let rest = sweep policy x ys (tally_pair policy x y t) in
    if not (ltb y.start x.end) then t else rest

pub sweep_all : String → List LoadWindow → List LoadWindow → Tally → Tally
unfolding sweep
sweep_all policy [] ub t = t
sweep_all policy (x ∷ ua) ub t = sweep_all policy ua ub (sweep policy x ub t)

abbrev pub no_overlap : Tally
no_overlap = record { heavy_heavy = 0; heavy_light = 0; light_light = 0; total = 0; viol = [] }

-- The comparisons of the two sorts: windows by start, violations with the longest overlap first.
abbrev pub starts_before : LoadWindow → LoadWindow → Bool
starts_before x y = ltb x.start y.start

abbrev pub longer : OverlapPair → OverlapPair → Bool
longer x y = ltb y.overlap x.overlap

module _ (sort_windows : List LoadWindow → List LoadWindow)
    (sort_pairs : List OverlapPair → List OverlapPair) where
  pub check_arch_overlap : List LoadWindow → List LoadWindow → String → OverlapReport
  unfolding usable missing sweep_all
  check_arch_overlap a b policy =
      let ua = usable a in
      let ub = usable b in
      let t = sweep_all policy ua (sort_windows ub) no_overlap in
      record {
        policy = policy;
        checks_a = length ua;
        checks_b = length ub;
        missing_a = missing a;
        missing_b = missing b;
        heavy_heavy = t.heavy_heavy;
        heavy_light = t.heavy_light;
        light_light = t.light_light;
        violations = take max_listed_violations (sort_pairs t.viol);
        total = t.total;
      }
