-- ===== src/Stresstally/Judge/Tally.antt =====
-- What the rows of a case count is what the logs of its shards count.
use text.Mathlib.Text.{◌==◌ as str_eq}
use text.Mathlib.TextEquality.{eq_iff}
use probatorium.Base.{
  ℕ, zero, suc, ◌+◌, ltb, if◌then◌else◌, ◌&&◌, Bool, true, List, [], ◌∷◌, String, Option, none,
  some, ◌≡◌, ◌↔◌, refl, contains, sym, ap, sum, arith, Bool-cases, inl, inr,
}
use probatorium.Stresstally.Judge.{Case, ShardLog, TestResult, log_name, status_wrong_shape}
use probatorium.Stresstally.Judge.Shape.{check_shape, observation_reasons}
use probatorium.Stresstally.Judge.Shards.{
  TestRow, State, add_result, add_results, add_counts, same_key, zero_row, shard_status,
  keep_report, judge_log, judge_shards, judge_arches, log_report, one_if,
}

-- A count of a row that grows with each result of its key by a count of the result.
pub record Adds (f : TestRow → ℕ) (g : TestResult → ℕ) : Type 0 where
  pub grows : (r : TestRow) (v : TestResult) → f (add_counts r v) ≡ f r + g v
  pub begins : (pkg name arch : String) → f (zero_row pkg name arch) ≡ 0

pub pass_Adds : Adds (λ r. r.pass) (λ v. v.pass)
unfolding add_counts
pass_Adds = record { grows = λ r v. refl; begins = λ p n a. refl }

pub fail_Adds : Adds (λ r. r.fail) (λ v. v.fail)
unfolding add_counts
fail_Adds = record { grows = λ r v. refl; begins = λ p n a. refl }

pub processes_Adds : Adds (λ r. r.processes) (λ v. one_if (ltb 0 (v.pass + v.fail)))
unfolding add_counts
processes_Adds = record { grows = λ r v. refl; begins = λ p n a. refl }

pub skip_Adds : Adds (λ r. r.skip) (λ v. v.skip)
unfolding add_counts
skip_Adds = record { grows = λ r v. refl; begins = λ p n a. refl }

pub no_verdict_Adds : Adds (λ r. r.no_verdict) (λ v. v.no_verdict)
unfolding add_counts
no_verdict_Adds = record { grows = λ r v. refl; begins = λ p n a. refl }

-- A count at the keys that pass a test.
abbrev pub weigh_row : (String → String → String → Bool) → (TestRow → ℕ) → TestRow → ℕ
weigh_row K f r = if K r.pkg r.name r.arch then f r else 0

abbrev pub weigh_result :
    (String → String → String → Bool) → (TestResult → ℕ) → String → TestResult → ℕ
weigh_result K g arch v = if K v.pkg v.name arch then g v else 0

same_key-eq :
    (r : TestRow) (pkg name arch : String)
    → same_key r pkg name arch ≡ true
    → (r.pkg ≡ pkg) × (r.name ≡ name) × (r.arch ≡ arch)
unfolding same_key
same_key-eq r pkg name arch h = elim (Bool-cases (str_eq r.pkg pkg)) [
  | inr a ↦ ground arith
  | inl a ↦ elim (Bool-cases (str_eq r.name name)) [
    | inr b ↦ ground arith
    | inl b ↦ elim (Bool-cases (str_eq r.arch arch)) [
      | inr d ↦ ground arith
      | inl d ↦ ((eq_iff _ _).0 a, (eq_iff _ _).0 b, (eq_iff _ _).0 d)
    ]
  ]
]

module _ {f : TestRow → ℕ} {g : TestResult → ℕ} (adds : Adds f g)
    (K : String → String → String → Bool) where
  weigh-add_counts :
      (r : TestRow) (v : TestResult) (arch : String)
      → K r.pkg r.name r.arch ≡ K v.pkg v.name arch
      → weigh_row K f (add_counts r v) ≡ weigh_row K f r + weigh_result K g arch v
  unfolding add_counts
  weigh-add_counts r v arch e = let k = adds.grows r v in ground (arith, e, k)

  weigh-add_result :
      (arch : String) (v : TestResult) (rows : List TestRow)
      → sum (weigh_row K f) (add_result arch v rows)
        ≡ sum (weigh_row K f) rows + weigh_result K g arch v
  unfolding add_result
  weigh-add_result arch v [] =
      let k = weigh-add_counts (zero_row v.pkg v.name arch) v arch refl in
      let z = adds.begins v.pkg v.name arch in ground (arith, k, z)
  weigh-add_result arch v (r ∷ rows) =
      let ih = weigh-add_result arch v rows in
      elim (Bool-cases (same_key r v.pkg v.name arch)) [
        | inl h ↦
            let (a, b, d) = same_key-eq r v.pkg v.name arch h in
            let k = weigh-add_counts r v arch cc in rw h (omega (arith, k))
        | inr h ↦ rw h (omega (arith, ih))
      ]

  pub weigh-add_results :
      (arch : String) (vs : List TestResult) (rows : List TestRow)
      → sum (weigh_row K f) (add_results arch vs rows)
        ≡ sum (weigh_row K f) rows + sum (weigh_result K g arch) vs
  unfolding add_results
  weigh-add_results arch [] rows = omega arith
  weigh-add_results arch (v ∷ vs) rows =
      omega
        (arith, weigh-add_results arch vs (add_result arch v rows), weigh-add_result arch v rows)

none_at_arch :
    (M : String → ℕ) (a : String) (arches : List String)
    → M a ≡ 0
    → sum (λ y. if str_eq y a then M y else 0) arches ≡ 0
none_at_arch M a [] h = refl
none_at_arch M a (y ∷ ys) h =
    let ih = none_at_arch M a ys h in
    elim (Bool-cases (str_eq y a)) [
      | inl e ↦ let q = ap M ((eq_iff y a).0 e) in ground (arith, ih, q)
      | inr e ↦ ground (arith, ih, e)
    ]

-- A count summed over the places of an arch in a list is zero just where it is zero at the arch.
pub sum-at_arch :
    (M : String → ℕ) (a : String) (arches : List String)
    → contains a arches ≡ true
    → (sum (λ y. if str_eq y a then M y else 0) arches ≡ 0) ↔ (M a ≡ 0)
unfolding contains
sum-at_arch M a [] m = ground arith
sum-at_arch M a (y ∷ ys) m = (
  λ h. elim (Bool-cases (str_eq a y)) [
    | inl e ↦
        let p = (eq_iff a y).0 e in
        let f = (eq_iff y a).1 (sym p) in let q = ap M p in ground (arith, h, f, q)
    | inr e ↦ (sum-at_arch M a ys (ground (arith, m, e))).0 (ground (arith, h))
  ],
  λ h. none_at_arch M a (y ∷ ys) h,
)

-- What the shards of a case add to the count of results under the keys that pass a test: those of
-- each log that is not of the wrong shape, once for each time its arch is listed.
module _ (quote : String → String) (is_float : String → Bool) (logs : String → Option ShardLog)
    (c : Case) (celeris_sha : String) (K : String → String → String → Bool)
    (g : TestResult → ℕ) where
  abbrev pub status_of : String → ℕ → ShardLog → String
  status_of arch shard sl =
      shard_status sl (observation_reasons is_float c sl)
        (check_shape quote sl.header c arch shard celeris_sha)

  unfoldable pub from_log : String → ℕ → Option ShardLog → ℕ
  from_log arch shard none = 0
  from_log arch shard (some sl) =
      if str_eq (status_of arch shard sl) status_wrong_shape
      then 0
      else sum (weigh_result K g arch) sl.results

  unfoldable pub from_shards : String → ℕ → ℕ
  unfolding from_log
  from_shards arch zero = 0
  from_shards arch (suc n) =
      from_log arch (suc n) (logs (log_name c.name arch (suc n))) + from_shards arch n

  pub from_arches : List String → ℕ
  unfolding from_shards
  from_arches [] = 0
  from_arches (arch ∷ arches) = from_shards arch c.shards + from_arches arches

  module _ {f : TestRow → ℕ} (adds : Adds f g) where
    weigh-judge_log :
        (arch : String) (shard : ℕ) (log : Option ShardLog) (st : State)
        → sum (weigh_row K f) (judge_log quote is_float c celeris_sha arch shard log st).rows
          ≡ sum (weigh_row K f) st.rows + from_log arch shard log
    unfolding judge_log from_log keep_report log_report
    weigh-judge_log arch shard none st = omega arith
    weigh-judge_log arch shard (some sl) st =
        elim (Bool-cases (str_eq (status_of arch shard sl) status_wrong_shape)) [
          | inl h ↦ rw h (omega arith)
          | inr h ↦ rw h (weigh-add_results adds K arch sl.results st.rows)
        ]

    weigh-judge_shards :
        (arch : String) (n : ℕ) (st : State)
        → sum (weigh_row K f) (judge_shards quote is_float logs c celeris_sha arch n st).rows
          ≡ sum (weigh_row K f) st.rows + from_shards arch n
    unfolding judge_shards from_shards
    weigh-judge_shards arch zero st = omega arith
    weigh-judge_shards arch (suc n) st =
        let k =
          weigh-judge_log arch (suc n) (logs (log_name c.name arch (suc n)))
            (judge_shards quote is_float logs c celeris_sha arch n st) in
        omega (arith, k, weigh-judge_shards arch n st)

    pub weigh-judge_arches :
        (arches : List String) (st : State)
        → sum (weigh_row K f) (judge_arches quote is_float logs c celeris_sha arches st).rows
          ≡ sum (weigh_row K f) st.rows + from_arches arches
    unfolding judge_arches from_arches
    weigh-judge_arches [] st = omega arith
    weigh-judge_arches (arch ∷ arches) st = omega (
      arith,
      weigh-judge_arches arches (judge_shards quote is_float logs c celeris_sha arch c.shards st),
      weigh-judge_shards arch c.shards st,
    )

-- With a test of the arch added, only that arch counts.
module _ (quote : String → String) (is_float : String → Bool) (logs : String → Option ShardLog)
    (c : Case) (celeris_sha : String) (K K_at : String → String → String → Bool)
    (g : TestResult → ℕ) (a : String)
    (at_arch : (pkg name y : String) → K_at pkg name y ≡ (K pkg name y && str_eq y a)) where
  pub restrict-results :
      (y : String) (vs : List TestResult)
      → sum (weigh_result K_at g y) vs ≡ (if str_eq y a then sum (weigh_result K g y) vs else 0)
  restrict-results y [] = ground arith
  restrict-results y (v ∷ vs) =
      let ih = restrict-results y vs in let e = at_arch v.pkg v.name y in ground (arith, ih, e)

  restrict-log :
      (y : String) (shard : ℕ) (log : Option ShardLog)
      → from_log quote is_float logs c celeris_sha K_at g y shard log
        ≡ (if str_eq y a then from_log quote is_float logs c celeris_sha K g y shard log else 0)
  unfolding from_log
  restrict-log y shard none = ground arith
  restrict-log y shard (some sl) =
      let e = restrict-results y sl.results in
      elim (Bool-cases
        (str_eq (status_of quote is_float logs c celeris_sha K g y shard sl) status_wrong_shape)) [
          | inl h ↦ rw h (ground arith)
          | inr h ↦ rw h e
        ]

  restrict-shards :
      (y : String) (n : ℕ)
      → from_shards quote is_float logs c celeris_sha K_at g y n
        ≡ (if str_eq y a then from_shards quote is_float logs c celeris_sha K g y n else 0)
  unfolding from_shards
  restrict-shards y zero = ground arith
  restrict-shards y (suc n) =
      let k = restrict-log y (suc n) (logs (log_name c.name y (suc n))) in
      let ih = restrict-shards y n in ground (arith, k, ih)

  pub restrict-arches :
      (arches : List String)
      → from_arches quote is_float logs c celeris_sha K_at g arches
        ≡ sum
            (λ y.
              if str_eq y a
              then from_shards quote is_float logs c celeris_sha K g y c.shards
              else 0)
            arches
  unfolding from_arches
  restrict-arches [] = refl
  restrict-arches (y ∷ ys) = omega (arith, restrict-shards y c.shards, restrict-arches ys)
