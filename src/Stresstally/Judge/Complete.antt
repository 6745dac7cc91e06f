-- ===== src/Stresstally/Judge/Complete.antt =====
-- When the log of a shard is complete: what it has to be, and how its status tells.
use text.Mathlib.Text.{◌==◌ as str_eq}
use text.Mathlib.TextEquality.{eq_iff}
use probatorium.Base.{
  is_nil-eq, differs, Fields, lookup, ℕ, ◌+◌, if◌then◌else◌, ◌&&◌, ◌||◌, not, Bool, true, false,
  List, [], ◌∷◌, ◌++◌, String, Option, none, some, ◌≡◌, ◌≢◌, ◌↔◌, refl, ap, ◌∙◌, is_nil, arith,
  Bool-cases, inl, inr, All,
}
use probatorium.Stresstally.Judge.{
  Case, ShardLog, status_complete, status_unparsed, status_missing, status_wrong_shape,
}
use probatorium.Stresstally.Judge.Shape.{
  check_shape, compare_fields, observation_reasons, is_refused, wanted, agrees, Agrees, has_reason,
  reason_no_header,
}
use probatorium.Stresstally.Judge.Shards.{ShardReport, State, shard_status, keep_report, one_if}

some_eq : {a b : String} → some a ≡ some b → a ≡ b
some_eq h = cc

agrees-Agrees :
    (got : Option String) (value : String) → (agrees got value ≡ true) ↔ (got ≡ some value)
unfolding agrees
agrees-Agrees none value = (λ h. ground arith, λ h. cc)
agrees-Agrees (some got) value =
    (λ h. ap some ((eq_iff got value).0 h), λ h. (eq_iff got value).1 (some_eq h))

module _ (quote : String → String) where
  compare_fields-All :
      (h : Fields) (ws : Fields) → (is_nil (compare_fields quote h ws) ≡ true) ↔ All (Agrees h) ws
  unfolding compare_fields
  compare_fields-All h [] = (λ _. tt, λ _. refl)
  compare_fields-All h (w ∷ ws) =
      let (to, from) = compare_fields-All h ws in
      let (first, back) = agrees-Agrees (lookup h w.0) w.1 in
      elim (Bool-cases (agrees (lookup h w.0) w.1)) [
        | inl e ↦ rw e (λ k. (first e, to k), λ all. from all.1)
        | inr e ↦ rw e (λ k. ground arith, λ all. let b = back all.0 in ground (arith, b, e))
      ]

is_refused-false :
    (sl : ShardLog) → (is_refused sl ≡ false) ↔ ((sl.refused ≡ "") × (sl.exit ≢ "refused"))
unfolding is_refused
is_refused-false sl = (
  λ h. (
    (eq_iff sl.refused "").0 (ground (arith, h)),
    λ e. let f = (eq_iff sl.exit "refused").1 e in ground (arith, h, f),
  ),
  λ h.
      let a = (eq_iff sl.refused "").1 h.0 in
      let b = differs sl.exit "refused" h.1 in ground (arith, a, b),
)

no_flaw :
    (a b c d : Bool)
    → (one_if (a || (not b || (not c || not d))) ≡ 0)
      ↔ ((a ≡ false) × (b ≡ true) × (c ≡ true) × (d ≡ true))
no_flaw a b c d = ground arith

-- A status other than complete counts once.
unfoldable pub status_flaw : String → ℕ
status_flaw s =
    one_if (str_eq s status_unparsed)
    + one_if (str_eq s status_missing)
    + one_if (str_eq s status_wrong_shape)

status_flaw-chosen :
    (wrong unparsed : Bool)
    → status_flaw (
        if wrong then status_wrong_shape else if unparsed then status_unparsed else status_complete)
      ≡ one_if (wrong || unparsed)
unfolding status_flaw
status_flaw-chosen true unparsed = refl
status_flaw-chosen false true = refl
status_flaw-chosen false false = refl

has_reason-nil : (xs : List String) (r : String) → is_nil xs ≡ true → has_reason xs r ≡ false
unfolding has_reason
has_reason-nil [] r h = refl
has_reason-nil (x ∷ xs) r h = ground arith

pub status-flaw :
    (sl : ShardLog) (obs shape : List String)
    → status_flaw (shard_status sl obs shape)
      ≡ one_if
          (is_refused sl || (not (is_nil shape) || (not (is_nil sl.reasons) || not (is_nil obs))))
unfolding shard_status
status-flaw sl obs shape =
    let h = has_reason-nil sl.reasons reason_no_header in
    status_flaw-chosen
      (is_refused sl || not (is_nil shape) && not (has_reason sl.reasons reason_no_header))
      (not (is_nil sl.reasons) || not (is_nil obs))
    ∙ ground (arith, h)

pub keep_report-shards :
    (sr : ShardReport) (sl : ShardLog) (st : State)
    → (keep_report sr sl st).shards ≡ st.shards ++ sr ∷ []
unfolding keep_report
keep_report-shards sr sl st = elim (Bool-cases (str_eq sr.status status_wrong_shape)) [
  | inl e ↦ rw e refl
  | inr e ↦ rw e refl
]

module _ (quote : String → String) (is_float : String → Bool) (c : Case)
    (celeris_sha : String) where
  -- The log of a shard that ran to its end as the case asked: it was not refused, its header has
  -- each wanted value, and neither the parser nor the observation rules object to it.
  pub record IsCompleteLog (arch : String) (shard : ℕ) (sl : ShardLog) : Type 0 where
    pub not_refused : sl.refused ≡ ""
    pub not_refused_exit : sl.exit ≢ "refused"
    pub shape : All (Agrees sl.header) (wanted c arch shard celeris_sha)
    pub no_reason : sl.reasons ≡ []
    pub one_observation : observation_reasons is_float c sl ≡ []

  abbrev pub IsComplete : String → ℕ → Option ShardLog → Type 0
  IsComplete arch shard none = ⊥
  IsComplete arch shard (some sl) = IsCompleteLog arch shard sl

  abbrev is_flawed : String → ℕ → ShardLog → Bool
  is_flawed arch shard sl =
      is_refused sl
      || (not (is_nil (check_shape quote sl.header c arch shard celeris_sha))
          || (not (is_nil sl.reasons) || not (is_nil (observation_reasons is_float c sl))))

  abbrev pub flaw : String → ℕ → Option ShardLog → ℕ
  flaw arch shard none = 1
  flaw arch shard (some sl) = one_if (is_flawed arch shard sl)

  pub flaw-IsComplete :
      (arch : String) (shard : ℕ) (log : Option ShardLog)
      → (flaw arch shard log ≡ 0) ↔ IsComplete arch shard log
  unfolding check_shape
  flaw-IsComplete arch shard none = (λ h. ground arith, λ h. absurd h)
  flaw-IsComplete arch shard (some sl) =
      let shape = check_shape quote sl.header c arch shard celeris_sha in
      let obs = observation_reasons is_float c sl in
      let (to, from) = compare_fields-All quote sl.header (wanted c arch shard celeris_sha) in
      let (nil, eq) = is_nil-eq sl.reasons in
      let (nil_obs, eq_obs) = is_nil-eq obs in
      (
        λ h.
            let (r, s, n, o) =
              (no_flaw (is_refused sl) (is_nil shape) (is_nil sl.reasons) (is_nil obs)).0 h in
            let (refused, exit) = (is_refused-false sl).0 r in
            record {
              not_refused = refused;
              not_refused_exit = exit;
              shape = to s;
              no_reason = nil n;
              one_observation = nil_obs o;
            },
        λ ok. (no_flaw (is_refused sl) (is_nil shape) (is_nil sl.reasons) (is_nil obs)).1 (
          (is_refused-false sl).1 (ok.not_refused, ok.not_refused_exit),
          from ok.shape,
          eq ok.no_reason,
          eq_obs ok.one_observation,
        ),
      )

  -- So it is not of the wrong shape.
  pub IsCompleteLog-shape :
      (arch : String) (shard : ℕ) (sl : ShardLog)
      → IsCompleteLog arch shard sl
      → str_eq
          (shard_status sl
            (observation_reasons is_float c sl)
            (check_shape quote sl.header c arch shard celeris_sha))
          status_wrong_shape
        ≡ false
  unfolding status_flaw
  IsCompleteLog-shape arch shard sl ok =
      let obs = observation_reasons is_float c sl in
      let shape = check_shape quote sl.header c arch shard celeris_sha in
      let z = (flaw-IsComplete arch shard (some sl)).1 ok in
      let e = status-flaw sl obs shape in ground (arith, z, e)
