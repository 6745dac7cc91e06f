-- ===== src/Validation/Evaluator.antt =====
-- validation/checker/evaluator.go: the predicates driven over the samples of a cell. A predicate is
-- any function with the type of one. Times are nanoseconds since Go's zero time, counts natural
-- numbers, a map from texts a function with 0 or false for a missing key. The engine's counters are
-- given by their names. The means and ratios, floating-point numbers, and the map of all engine
-- counters, which only the artifact shows, are left out.
pub mod Verdicts
pub mod Samples
pub mod Summary
pub mod Streaks
pub mod Runs
mod Tests
use text.Mathlib.Text.{◌==◌ as str_eq, starts_with}
use Prim.Native.Nat.{◌-◌, max}
use Prim.Native.Char.{Char, code}
use probatorium.Base.{
  ℕ, zero, suc, ◌+◌, ◌<◌, ltb, ◌==◌, if◌then◌else◌, ◌||◌, ◌&&◌, not, Bool, true, false, List, [],
  ◌∷◌, ◌++◌, String, Option, none, some, length,
}

pub record Snapshot : Type 0 where
  pub goroutine_count : ℕ
  pub heap_inuse_bytes : ℕ
  pub rss_bytes : ℕ
  pub instrumented_properties : String
  pub idle_window : ℕ
  pub adaptive_switches : ℕ
  pub engine : String → ℕ

pub record Context : Type 0 where
  pub run_started_at : ℕ
  pub baseline_goroutines : ℕ
  pub history : List Snapshot
  pub now : ℕ
  pub idle_mode : Bool
  pub idle_window : ℕ
  pub idle_baseline_goroutines : ℕ
  pub load_started_at : ℕ

abbrev pub Predicate : Type 0
Predicate = Snapshot → Context → Bool × String

pub record Shadow : Type 0 where
  pub label : String
  pub predicate : Predicate

pub record Spec : Type 0 where
  pub id : String
  pub predicate : Predicate
  pub persist : ℕ
  pub min_observation : ℕ
  pub shadow : Option Shadow

pub record Violation : Type 0 where
  pub id : String
  pub message : String
  pub snapshot : Snapshot
  pub first : Bool

pub record ShadowTally : Type 0 where
  pub label : String
  pub violations : ℕ
  pub absolved_evaluations : ℕ
  pub absolved : Bool
  pub first_message : String

-- The fields of the tally that the samples write.
pub record Counts : Type 0 where
  pub samples : ℕ
  pub poll_errors : ℕ
  pub evaluations : ℕ
  pub skips : ℕ
  pub violations : ℕ
  pub adaptive_switches : ℕ
  pub engine_peaks : String → ℕ
  pub engine_zero_witness : String → ℕ
  pub engine_error_classes : String → ℕ
  pub observed : ℕ
  pub idle_windows : ℕ
  pub idle_baseline_goroutines : ℕ
  pub baseline_goroutines : ℕ
  pub last_goroutines : ℕ
  pub first_heap_inuse : ℕ
  pub last_heap_inuse : ℕ
  pub first_rss : ℕ
  pub last_rss : ℕ

pub record Evaluator : Type 0 where
  pub specs : List Spec
  pub ctx : Context
  pub counts : Counts
  pub per : String → ℕ
  pub judged : String → ℕ
  pub streak : String → ℕ
  pub shadow_streak : String → ℕ
  pub shadow : String → Option ShadowTally
  pub first : String → String
  pub declared : String → Bool
  pub first_poll : ℕ
  pub last_poll : ℕ

-- `m[k] = v`.
unfoldable pub set_key {ℓ} : {A : Type ℓ} → (String → A) → String → A → String → A
set_key m k v j = if str_eq j k then v else m j
