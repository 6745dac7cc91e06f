-- ===== src/Validation/Evaluator/Samples.antt =====
-- What a sample writes before the predicates are evaluated, and the whole of `Observe`.
use text.Mathlib.Text.{◌==◌ as str_eq}
use Prim.Native.Nat.{◌-◌, max}
use Prim.Native.Char.{Char, code}
use probatorium.Base.{
  ℕ, zero, suc, ◌+◌, ltb, ◌==◌, if◌then◌else◌, ◌||◌, ◌&&◌, Bool, true, false, List, [], ◌∷◌, ◌++◌,
  String, Option, none, some, length,
}
use probatorium.Validation.Evaluator.{Snapshot, Spec, Violation, Counts, Evaluator, set_key}
use probatorium.Validation.Evaluator.Verdicts.{observe_specs}

abbrev pub history_cap : ℕ
history_cap = 3600

-- The observation window, widened to a poll attempt.
unfoldable pub attempt : ℕ → Evaluator → Evaluator
attempt t e =
    if t == 0
    then e
    else let first = if e.first_poll == 0 || ltb t e.first_poll then t else e.first_poll in
      let last = if ltb e.last_poll t then t else e.last_poll in
      record e {
        first_poll = first;
        last_poll = last;
        counts = record (e.counts) { observed = last - first };
      }

pub record_poll_error : ℕ → Evaluator → Evaluator
unfolding attempt
record_poll_error at e =
    attempt at (record e { counts = record (e.counts) { poll_errors = e.counts.poll_errors + 1 } })

drop : ℕ → List Snapshot → List Snapshot
drop zero xs = xs
drop (suc n) [] = []
drop (suc n) (x ∷ xs) = drop n xs

-- The history with a sample appended, cut to its last samples.
pub keep_history : List Snapshot → Snapshot → List Snapshot
unfolding drop
keep_history history snap =
    let longer = history ++ snap ∷ [] in
    if ltb history_cap (length longer) then drop (length longer - history_cap) longer else longer

pub last_sample : List Snapshot → Option Snapshot
last_sample [] = none
last_sample (x ∷ []) = some x
last_sample (x ∷ y ∷ xs) = last_sample (y ∷ xs)

-- Leaving the first idle window fixes the baseline and starts the clock of the load.
unfoldable pub leave_idle : Option Snapshot → Snapshot → ℕ → Evaluator → Evaluator
leave_idle none snap now e = e
leave_idle (some prev) snap now e =
    if prev.idle_window == 1 && (snap.idle_window == 0 && e.ctx.idle_baseline_goroutines == 0)
    then record e {
      ctx = record (e.ctx) {
        idle_baseline_goroutines = prev.goroutine_count;
        load_started_at = now;
      };
      counts = record (e.counts) { idle_baseline_goroutines = prev.goroutine_count };
    }
    else e

unfoldable pub first_sample : Snapshot → ℕ → Evaluator → Evaluator
first_sample snap now e =
    if e.counts.samples == 0
    then record e {
      ctx = record (e.ctx) { run_started_at = now; baseline_goroutines = snap.goroutine_count };
      counts = record (e.counts) {
        baseline_goroutines = snap.goroutine_count;
        first_heap_inuse = snap.heap_inuse_bytes;
        first_rss = snap.rss_bytes;
      };
    }
    else e

pub resources : Snapshot → Counts → Counts
resources snap c = record c {
  last_goroutines = snap.goroutine_count;
  last_heap_inuse = snap.heap_inuse_bytes;
  first_rss = if ltb 0 snap.rss_bytes && c.first_rss == 0 then snap.rss_bytes else c.first_rss;
  last_rss = if ltb 0 snap.rss_bytes then snap.rss_bytes else c.last_rss;
}

-- The highest reading so far of each of the named counters.
unfoldable pub raise_peaks : List String → (String → ℕ) → (String → ℕ) → String → ℕ
unfolding set_key
raise_peaks [] readings peaks = peaks
raise_peaks (k ∷ names) readings peaks =
    raise_peaks names readings (set_key peaks k (max (peaks k) (readings k)))

abbrev peak_names : List String
peak_names =
    "engine_accept_count" ∷ "engine_close_count" ∷ "engine_transplant_detached"
    ∷ "engine_transplant_adopted" ∷ "engine_async_promoted_conns" ∷ "engine_requests_total"
    ∷ "engine_standby_active_conns" ∷ "engine_error_count" ∷ "engine_standby_error_count" ∷ []

abbrev zero_witness_names : List String
zero_witness_names =
    "engine_transplant_adopt_slot_occupied" ∷ "engine_close_missing_conn_state"
    ∷ "engine_recv_double_armed" ∷ "engine_recv_cqe_unaccounted" ∷ "engine_recv_sq_full"
    ∷ "engine_recv_stall_episodes" ∷ []

abbrev error_class_names : List String
error_class_names =
    "engine_error_accept_fd_limit" ∷ "engine_error_accept_cancelled" ∷ "engine_error_accept_other"
    ∷ "engine_error_conn_table_cap" ∷ "engine_error_conn_register"
    ∷ "engine_error_listener_recreate" ∷ "engine_error_transplant_adopt"
    ∷ "engine_error_send_peer_gone" ∷ "engine_error_send" ∷ "engine_error_request_body"
    ∷ "engine_error_handler" ∷ []

pub peaks : Snapshot → Counts → Counts
unfolding raise_peaks
peaks snap c = record c {
  idle_windows = max c.idle_windows snap.idle_window;
  adaptive_switches = max c.adaptive_switches snap.adaptive_switches;
  engine_peaks = raise_peaks peak_names snap.engine c.engine_peaks;
  engine_zero_witness = raise_peaks zero_witness_names snap.engine c.engine_zero_witness;
  engine_error_classes = raise_peaks error_class_names snap.engine c.engine_error_classes;
}

unfoldable pub count_sample : Evaluator → Evaluator
count_sample e = record e { counts = record (e.counts) { samples = e.counts.samples + 1 } }

-- A character put before the first part, or a comma that begins a part.
add_char : Bool → Char → List String → List String
add_char true c parts = "" ∷ parts
add_char false c [] = (String.◌∷◌ c "") ∷ []
add_char false c (part ∷ parts) = (String.◌∷◌ c part) ∷ parts

-- The parts of a text between its commas.
pub split_commas : String → List String
unfolding add_char
split_commas String.[] = "" ∷ []
split_commas (String.◌∷◌ c s) = add_char (code c == 44) c (split_commas s)

pub declare_ids : List String → (String → Bool) → String → Bool
declare_ids [] declared = declared
declare_ids (id ∷ ids) declared =
    declare_ids ids (if str_eq id "" then declared else set_key declared id true)

unfoldable pub append_sample : Snapshot → ℕ → Evaluator → Evaluator
unfolding peaks keep_history
append_sample snap now e = record e {
  counts = peaks snap e.counts;
  ctx = record (e.ctx) {
    idle_window = snap.idle_window;
    idle_mode = ltb 0 snap.idle_window;
    now = now;
    history = keep_history e.ctx.history snap;
  };
}

module _ (trim_space : String → String) where
  pub trimmed : List String → List String
  trimmed [] = []
  trimmed (x ∷ xs) = trim_space x ∷ trimmed xs

  unfoldable pub note_sample : Snapshot → Evaluator → Evaluator
  unfolding trimmed declare_ids split_commas resources
  note_sample snap e = record e {
    counts = resources snap e.counts;
    declared = declare_ids (trimmed (split_commas snap.instrumented_properties)) e.declared;
  }

  -- What a sample writes before the predicates are evaluated.
  unfoldable pub take_sample : Snapshot → ℕ → Evaluator → Evaluator
  unfolding note_sample append_sample first_sample count_sample attempt leave_idle last_sample
  take_sample snap now e =
      let used = note_sample snap (attempt now (count_sample (first_sample snap now e))) in
      append_sample snap now (leave_idle (last_sample used.ctx.history) snap now used)

  unfoldable pub observe : Snapshot → ℕ → Evaluator → Evaluator × List Violation
  unfolding take_sample observe_specs
  observe snap now e = observe_specs snap e.specs (take_sample snap now e) []

unfoldable pub new_evaluator : List Spec → Evaluator
new_evaluator specs = record {
  specs = specs;
  ctx = record {
    run_started_at = 0;
    baseline_goroutines = 0;
    history = [];
    now = 0;
    idle_mode = false;
    idle_window = 0;
    idle_baseline_goroutines = 0;
    load_started_at = 0;
  };
  counts = record {
    samples = 0;
    poll_errors = 0;
    evaluations = 0;
    skips = 0;
    violations = 0;
    adaptive_switches = 0;
    engine_peaks = λ k. 0;
    engine_zero_witness = λ k. 0;
    engine_error_classes = λ k. 0;
    observed = 0;
    idle_windows = 0;
    idle_baseline_goroutines = 0;
    baseline_goroutines = 0;
    last_goroutines = 0;
    first_heap_inuse = 0;
    last_heap_inuse = 0;
    first_rss = 0;
    last_rss = 0;
  };
  per = λ k. 0;
  judged = λ k. 0;
  streak = λ k. 0;
  shadow_streak = λ k. 0;
  shadow = λ k. none;
  first = λ k. "";
  declared = λ k. false;
  first_poll = 0;
  last_poll = 0;
}
