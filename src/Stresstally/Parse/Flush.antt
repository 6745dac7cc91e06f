-- ===== src/Stresstally/Parse/Flush.antt =====
-- What the flush of a package adds to the counts of a test, summed over the packages.
use text.Mathlib.Text.{◌==◌ as str_eq}
use text.Mathlib.TextEquality.{eq_iff}
use probatorium.Base.{
  ℕ, zero, suc, ◌+◌, ℤ, pos, negsuc, pos_part, neg_part, +ℤ_parts, ◌||◌, if◌then◌else◌, Bool, false,
  List, [], ◌∷◌, ◌++◌, String, ◌≡◌, refl, arith, sum, contains,
}
use probatorium.Stresstally.Judge.{TestResult, ShardLog}
use probatorium.Stresstally.Parse.{
  Patterns, add_reason, message, reason_ran_without_verdict, reason_verdict_without_run,
}
use probatorium.Stresstally.Parse.Scan.{
  Scan, PendingVerdict, update_counts, zero_result, count_verdict, count_results, add_runs,
  take_runs, settle_run, settle_runs, end_panic, flush,
}

-- A count of a result: what a verdict adds to it, and whether runs without one are counted.
pub record Weighs (g : TestResult → ℕ) (v : String → ℕ) (w : Bool) : Type 0 where
  pub named : (k : String) (r : TestResult) → g (count_verdict k r) ≡ g r + v k
  pub unjudged :
      (n : ℕ) (r : TestResult)
      → g (record r { no_verdict = r.no_verdict + n }) ≡ g r + (if w then n else 0)
  pub fresh : (pkg name : String) → g (zero_result pkg name) ≡ 0

abbrev pub at_test : String → (TestResult → ℕ) → TestResult → ℕ
at_test m g r = if str_eq r.name m then g r else 0

-- A count of one test over all packages.
abbrev pub total : String → (TestResult → ℕ) → List TestResult → ℕ
total m g results = sum (at_test m g) results

abbrev pub pending_of : String → (String → ℕ) → List PendingVerdict → ℕ
pending_of m v pending = sum (λ x. if str_eq x.name m then v x.result else 0) pending

abbrev pub gained : String → List (String × ℤ) → ℕ
gained m runs = sum (λ r. if str_eq r.0 m then pos_part r.1 else 0) runs

abbrev pub lost : String → List (String × ℤ) → ℕ
lost m runs = sum (λ r. if str_eq r.0 m then neg_part r.1 else 0) runs

count_verdict-name : (k : String) (r : TestResult) → (count_verdict k r).name ≡ r.name
unfolding count_verdict
count_verdict-name k r = ground arith

total-update_counts :
    (m : String) (g : TestResult → ℕ) (f : TestResult → TestResult) (d : ℕ) (pkg name : String)
    → ((r : TestResult) → (f r).name ≡ r.name)
    → ((r : TestResult) → g (f r) ≡ g r + d)
    → g (zero_result pkg name) ≡ 0
    → (results : List TestResult)
    → total m g (update_counts pkg name f results)
      ≡ total m g results + (if str_eq name m then d else 0)
unfolding update_counts zero_result
total-update_counts m g f d pkg name keeps adds fresh [] =
    let z = zero_result pkg name in let k = keeps z in let a = adds z in ground (arith, k, a, fresh)
total-update_counts m g f d pkg name keeps adds fresh (r ∷ results) =
    let rest = total-update_counts m g f d pkg name keeps adds fresh results in
    let k = keeps r in
    let a = adds r in ground (arith, rest, k, a, eq_iff r.name name, eq_iff r.pkg pkg)

module _ (m : String) {g : TestResult → ℕ} {v : String → ℕ} {w : Bool} (weighs : Weighs g v w) where
  open weighs use {named, unjudged, fresh}

  total-count_results :
      (pkg : String) (pending : List PendingVerdict) (results : List TestResult)
      → total m g (count_results pkg pending results) ≡ total m g results + pending_of m v pending
  unfolding count_results
  total-count_results pkg [] results = omega arith
  total-count_results pkg (x ∷ pending) results =
      let u =
        total-update_counts m g (count_verdict x.result) (v x.result) pkg x.name
          (count_verdict-name x.result) (named x.result) (fresh pkg x.name) results in
      let rest =
        total-count_results pkg pending
          (update_counts pkg x.name (count_verdict x.result) results) in
      omega (arith, u, rest)

  total-settle_run :
      (pkg name : String) (n : ℤ) (log : ShardLog)
      → total m g (settle_run pkg name n log).results
        ≡ total m g log.results + (if w then (if str_eq name m then pos_part n else 0) else 0)
  unfolding settle_run
  total-settle_run pkg name (pos zero) log = ground arith
  total-settle_run pkg name (pos (suc n)) log =
      let u =
        total-update_counts m g (λ r. record r { no_verdict = r.no_verdict + suc n })
          (if w then suc n else 0) pkg name (λ r. refl) (unjudged (suc n)) (fresh pkg name)
          log.results in
      ground (arith, u)
  total-settle_run pkg name (negsuc n) log = ground arith

  total-settle_runs :
      (pkg : String) (runs : List (String × ℤ)) (log : ShardLog)
      → total m g (settle_runs pkg runs log).results
        ≡ total m g log.results + (if w then gained m runs else 0)
  unfolding settle_runs
  total-settle_runs pkg [] log = ground arith
  total-settle_runs pkg (r ∷ runs) log =
      let a = total-settle_run pkg r.0 r.1 log in
      let b = total-settle_runs pkg runs (settle_run pkg r.0 r.1 log) in ground (arith, a, b)

  -- What is in the results once a package is closed: what was there, and what was pending.
  pub total-flush :
      (p : Patterns) (pkg : String) (s : Scan)
      → total m g (flush p pkg s).log.results
        ≡ total m g s.log.results
          + pending_of m v s.pending
          + (if w then gained m (p.ranged (take_runs s.pending s.pending_runs)) else 0)
  unfolding flush end_panic
  total-flush p pkg s =
      let a = total-count_results pkg s.pending s.log.results in
      let counted = record (end_panic s).log {
        results = count_results pkg s.pending s.log.results;
      } in
      let b = total-settle_runs pkg (p.ranged (take_runs s.pending s.pending_runs)) counted in
      omega (arith, a, b)

-- Adding to the runs of a test.
balance-add_runs :
    (m name : String) (n : ℤ) (runs : List (String × ℤ))
    → gained m (add_runs name n runs) + lost m runs + (if str_eq name m then neg_part n else 0)
      ≡ gained m runs + lost m (add_runs name n runs) + (if str_eq name m then pos_part n else 0)
unfolding add_runs
balance-add_runs m name n [] = ground arith
balance-add_runs m name n (r ∷ runs) =
    let rest = balance-add_runs m name n runs in
    ground (arith, rest, +ℤ_parts r.1 n, eq_iff r.0 name)

pub balance-add_run :
    (m name : String) (runs : List (String × ℤ))
    → gained m (add_runs name (pos 1) runs) + lost m runs
      ≡ gained m runs + lost m (add_runs name (pos 1) runs) + (if str_eq name m then 1 else 0)
balance-add_run m name runs = let b = balance-add_runs m name (pos 1) runs in ground (arith, b)

-- Each verdict that is pending takes one run of its test away.
pub balance-take_runs :
    (m : String) (pending : List PendingVerdict) (runs : List (String × ℤ))
    → gained m (take_runs pending runs) + lost m runs + pending_of m (λ k. 1) pending
      ≡ gained m runs + lost m (take_runs pending runs)
unfolding take_runs
balance-take_runs m [] runs = omega arith
balance-take_runs m (x ∷ pending) runs =
    let a = balance-add_runs m x.name (negsuc 0) runs in
    let b = balance-take_runs m pending (add_runs x.name (negsuc 0) runs) in ground (arith, a, b)

-- A reason that is there stays there.
contains-append :
    (x : String) (xs ys : List String) → contains x (xs ++ ys) ≡ (contains x xs || contains x ys)
unfolding contains
contains-append x [] ys = refl
contains-append x (y ∷ xs) ys = ground (arith, contains-append x xs ys)

pub contains-add_reason :
    (x r d : String) (reasons : List String)
    → contains x (add_reason r d reasons) ≡ (contains x reasons || str_eq x (message r d))
unfolding add_reason contains
contains-add_reason x r d reasons =
    ground (arith, contains-append x reasons (message r d ∷ []), eq_iff x (message r d))

contains-settle_run :
    (x pkg name : String) (n : ℤ) (log : ShardLog)
    → contains x (settle_run pkg name n log).reasons ≡ false
    → contains x log.reasons ≡ false
unfolding settle_run
contains-settle_run x pkg name (pos zero) log h = h
contains-settle_run x pkg name (pos (suc n)) log h =
    ground (arith, contains-add_reason x reason_ran_without_verdict "" log.reasons, h)
contains-settle_run x pkg name (negsuc n) log h =
    ground (arith, contains-add_reason x reason_verdict_without_run "" log.reasons, h)

pub contains-settle_runs :
    (x pkg : String) (runs : List (String × ℤ)) (log : ShardLog)
    → contains x (settle_runs pkg runs log).reasons ≡ false
    → contains x log.reasons ≡ false
unfolding settle_runs
contains-settle_runs x pkg [] log h = h
contains-settle_runs x pkg (r ∷ runs) log h =
    contains-settle_run x pkg r.0 r.1 log
      (contains-settle_runs x pkg runs (settle_run pkg r.0 r.1 log) h)

-- No run is missing where the reason for a missing run is not given.
settle_run-lost :
    (pkg name : String) (n : ℤ) (log : ShardLog)
    → contains reason_verdict_without_run (settle_run pkg name n log).reasons ≡ false
    → neg_part n ≡ 0
unfolding settle_run message
settle_run-lost pkg name (pos n) log h = refl
settle_run-lost pkg name (negsuc n) log h =
    let c =
      contains-add_reason reason_verdict_without_run reason_verdict_without_run "" log.reasons in
    ground (arith, c, h)

pub settle_runs-lost :
    (m pkg : String) (runs : List (String × ℤ)) (log : ShardLog)
    → contains reason_verdict_without_run (settle_runs pkg runs log).reasons ≡ false
    → lost m runs ≡ 0
unfolding settle_runs
settle_runs-lost m pkg [] log h = refl
settle_runs-lost m pkg (r ∷ runs) log h =
    let next = settle_run pkg r.0 r.1 log in
    let a = settle_runs-lost m pkg runs next h in
    let b =
      settle_run-lost pkg r.0 r.1 log
        (contains-settle_runs reason_verdict_without_run pkg runs next h) in
    ground (arith, a, b)
