-- ===== src/Stresstally/Guard/Decision.antt =====
-- tools/stresstally/guard.go: which runs are judged, and what the two decisions say of them.
use text.Mathlib.Text.{◌==◌ as str_eq}
use probatorium.Base.{
  ℕ, ◌+◌, ◌<◌, ◌≤◌, Sorted, ◌==◌, ==_iff, if◌then◌else◌, ◌||◌, ◌&&◌, not, Bool, true, false, List,
  [], ◌∷◌, Option, none, some, count, count-Perm, IsSort, All, Bool-cases, Option-cases, inl, inr,
  ◌≡◌, refl, sym, ap, ◌∙◌, ◌↔◌, ◌⊎◌, arith, is_nil,
}
use probatorium.Stresstally.Guard.{
  GhRun, GhJob, Class, holder, pending, ignored, RunClass, contains_id, classify_by_guard,
  classify_stress_run, find_guard, has_started, classify_run, add_class, classify_open, by_id,
  allows, is_pending, is_holder, select, guard_decision, idle_decision, classify_runs, decide,
}

-- The first entry of an id that is not completed.
pub first_open : ℕ → List GhRun → Option GhRun
first_open i [] = none
first_open i (r ∷ rs) =
    let later = first_open i rs in
    if r.id == i && not (str_eq r.status "completed") then some r else later

-- The classes that stand in the way of a run: pending ones, and where the cluster must be idle
-- holders, too.
abbrev pub blocks : Bool → Class → Bool
blocks idle pending = true
blocks idle holder = idle
blocks idle ignored = false

abbrev one_if : Bool → ℕ
one_if b = if b then 1 else 0

abbrev pub of_id : (RunClass → Bool) → ℕ → RunClass → Bool
of_id p i c = c.run.id == i && p c

module _ (jobs : ℕ → List GhJob) where
  abbrev pub judged : (RunClass → Bool) → Option GhRun → ℕ
  judged p none = 0
  judged p (some r) = elim (classify_run jobs r) [ none ↦ 0 | some c ↦ if p c then 1 else 0 ]

  abbrev Judged : GhRun → Option RunClass → Type 0
  Judged r none = Unit
  Judged r (some c) = c.run ≡ r

  classify_by_guard-run :
      (r : GhRun) (started : Bool) (guard : Option GhJob)
      → (classify_by_guard r started guard).run ≡ r
  unfolding classify_by_guard
  classify_by_guard-run r started none = refl
  classify_by_guard-run r started (some guard) = ground arith

  classify_stress_run-run : (r : GhRun) (js : List GhJob) → (classify_stress_run r js).run ≡ r
  unfolding classify_stress_run
  classify_stress_run-run r js =
      ground (arith, classify_by_guard-run r (has_started js) (find_guard js none))

  classify_run-Judged : (r : GhRun) → Judged r (classify_run jobs r)
  unfolding classify_run
  classify_run-Judged r = ground (arith, classify_stress_run-run r (jobs r.id))

  module _ (p : RunClass → Bool) (i : ℕ) where
    count-add_class :
        (r : GhRun) (o : Option RunClass) (cs : List RunClass)
        → Judged r o
        → count (of_id p i) (add_class o cs)
          ≡ (if r.id == i then elim o [ none ↦ 0 | some c ↦ if p c then 1 else 0 ] else 0)
            + count (of_id p i) cs
    unfolding add_class
    count-add_class r none cs h = ground arith
    count-add_class r (some c) cs h =
        let e : (c.run.id == i) ≡ (r.id == i) = ap (λ x. x.id == i) h in ground (arith, e)

    count-classify_open :
        (self : ℕ) (seen : List ℕ) (rs : List GhRun)
        → count (of_id p i) (classify_open jobs self seen rs)
          ≡ (if i == self || contains_id i seen then 0 else judged p (first_open i rs))
    unfolding classify_open first_open contains_id
    count-classify_open self seen [] = ground arith
    count-classify_open self seen (r ∷ rs) =
        let skipped = count-classify_open self seen rs in
        let others = count-classify_open self (r.id ∷ seen) rs in
        let added =
          count-add_class r (classify_run jobs r) (classify_open jobs self (r.id ∷ seen) rs)
            (classify_run-Judged r) in
        elim (Bool-cases (r.id == i)) [
          | inl h ↦
              let e : r.id ≡ i = (==_iff r.id i).0 h in
              let e' : contains_id r.id seen ≡ contains_id i seen =
                ap (λ k. contains_id k seen) e in
              ground (arith, skipped, others, added, h, e, e')
          | inr h ↦ ground (arith, skipped, others, added, h)
        ]

  -- For every run listed but `self`: what is open of its id does not stand in the way.
  abbrev pub NothingJudged : Bool → ℕ → List GhRun → Type 0
  NothingJudged idle self rs =
      All (λ r. (r.id ≡ self) ⊎ (judged (λ c. blocks idle c.class) (first_open r.id rs) ≡ 0)) rs

All-tabulate {ℓ κ} : {A : Type ℓ} (P : A → Type κ) (xs : List A) → ((x : A) → P x) → All P xs
All-tabulate P [] f = tt
All-tabulate P (x ∷ xs) f = (f x, All-tabulate P xs f)

if-some :
    (b : Bool) (x r : GhRun) (o : Option GhRun)
    → (if b then some x else o) ≡ some r
    → ((b ≡ true) × (x ≡ r)) ⊎ (o ≡ some r)
if-some true x r o e = inl (refl, cc)
if-some false x r o e = inr e

-- What is open of an id is an entry of that id, and what holds of all entries holds of it.
first_open-All :
    (P : GhRun → Type 0) (i : ℕ) (rs : List GhRun) (r : GhRun)
    → first_open i rs ≡ some r
    → All P rs
    → P r × (r.id ≡ i)
unfolding first_open
first_open-All P i [] r e all = cc
first_open-All P i (x ∷ rs) r e all =
    elim (if-some (x.id == i && not (str_eq x.status "completed")) x r (first_open i rs) e) [
      | inl h ↦ (rw (sym h.1) all.0, (sym (ap (λ k. k.id) h.1)) ∙ ground (arith, h.0))
      | inr h ↦ first_open-All P i rs r h all.1
    ]

count-of_id_le :
    (p : RunClass → Bool) (i : ℕ) (cs : List RunClass) → count (of_id p i) cs ≤ count p cs
count-of_id_le p i [] = ground arith
count-of_id_le p i (c ∷ cs) = ground (arith, count-of_id_le p i cs)

-- Where something is counted, there is an id that it is counted under.
count-id :
    (p : RunClass → Bool) (cs : List RunClass)
    → 0 < count p cs
    → (i : ℕ) × (0 < count (of_id p i) cs)
count-id p [] h = elim h [ ]
count-id p (c ∷ cs) h = elim (Bool-cases (p c)) [
  | inl k ↦ (c.run.id, ground (arith, k))
  | inr k ↦ let found = count-id p cs (ground (arith, k, h)) in (found.0, ground (arith, found.1))
]

select-is_nil :
    (p : Class → Bool) (cs : List RunClass)
    → (is_nil (select p cs) ≡ true) ↔ (count (λ c. p c.class) cs ≡ 0)
unfolding select
select-is_nil p [] = (λ _. refl, λ _. refl)
select-is_nil p (c ∷ cs) = elim (Bool-cases (p c.class)) [
  | inl h ↦ rw h ground arith
  | inr h ↦
      let rest = select-is_nil p cs in
      rw h (λ k. ground (arith, rest.0 k), λ k. rest.1 (omega arith))
]

count-same :
    (p q : Class → Bool) (cs : List RunClass)
    → ((k : Class) → p k ≡ q k)
    → count (λ c. p c.class) cs ≡ count (λ c. q c.class) cs
count-same p q [] same = refl
count-same p q (c ∷ cs) same = ground (arith, same c.class, count-same p q cs same)

blocks-idle : (k : Class) → (is_pending k || is_holder k) ≡ blocks true k
blocks-idle holder = refl
blocks-idle pending = refl
blocks-idle ignored = refl

blocks-guard : (k : Class) → is_pending k ≡ blocks false k
blocks-guard holder = refl
blocks-guard pending = refl
blocks-guard ignored = refl

decide-allows :
    (idle : Bool) (cs : List RunClass)
    → (allows (decide idle cs) ≡ true) ↔ (count (λ c. blocks idle c.class) cs ≡ 0)
unfolding decide guard_decision idle_decision allows
decide-allows true cs =
    let nil = select-is_nil (λ c. is_pending c || is_holder c) cs in
    ground (
      arith,
      nil.0,
      nil.1,
      count-same (λ c. is_pending c || is_holder c) (blocks true) cs blocks-idle,
    )
decide-allows false cs =
    let nil = select-is_nil is_pending cs in
    ground (arith, nil.0, nil.1, count-same is_pending (blocks false) cs blocks-guard)

module _ (sort : List RunClass → List RunClass) (jobs : ℕ → List GhJob) (idle : Bool) (self : ℕ)
    (runs : List GhRun) where
  abbrev in_way : RunClass → Bool
  in_way c = blocks idle c.class

  abbrev opened : List RunClass
  opened = classify_open jobs self [] runs

  count-NothingJudged : count in_way opened ≡ 0 → NothingJudged jobs idle self runs
  unfolding contains_id
  count-NothingJudged none_in_way = All-tabulate _ runs (λ r.
      let counted = count-classify_open jobs in_way r.id self [] runs in
      let le = count-of_id_le in_way r.id opened in
      elim (Bool-cases (r.id == self)) [
        | inl h ↦ inl ((==_iff r.id self).0 h)
        | inr h ↦ inr (ground (arith, counted, le, h, none_in_way))
      ])

  NothingJudged-count : NothingJudged jobs idle self runs → count in_way opened ≡ 0
  unfolding contains_id
  NothingJudged-count nothing = elim (Bool-cases (count in_way opened == 0)) [
    | inl h ↦ (==_iff _ 0).0 h
    | inr h ↦
        let found = count-id in_way opened (ground (arith, h)) in
        let i = found.0 in
        let counted = count-classify_open jobs in_way i self [] runs in
        elim (Option-cases (first_open i runs)) [
          | inl e ↦
              let zero_of : judged jobs in_way (first_open i runs) ≡ 0 =
                ap (judged jobs in_way) e in
              ground (arith, counted, zero_of, found.1)
          | inr e ↦
              let of_run = first_open-All _ i runs e.0 e.1 nothing in
              let same_id = of_run.1 in
              elim of_run.0 [
                | inl k ↦
                    let is_self : (i == self) ≡ true = (==_iff i self).1 (sym same_id ∙ k) in
                    ground (arith, counted, is_self, found.1)
                | inr k ↦
                    let zero_of : judged jobs in_way (first_open i runs) ≡ 0 =
                      ap (λ x. judged jobs in_way (first_open x runs)) (sym same_id) ∙ k in
                    ground (arith, counted, zero_of, found.1)
              ]
        ]
  ]

  -- Provided that the sort permutes, the guard allows a run exactly when for every other run listed
  -- what is open of its id, in its first entry that is not completed, is not judged as pending; and
  -- where the cluster must be idle, as a holder neither.
  pub decide-NothingJudged :
      IsSort by_id sort
      → (allows (decide idle (classify_runs sort runs jobs self)) ≡ true)
        ↔ NothingJudged jobs idle self runs
  unfolding classify_runs
  decide-NothingJudged sorts =
      let same = count-Perm in_way (sorts.perm opened) in
      let decided = decide-allows idle (sort opened) in
      (
        λ e. count-NothingJudged (sym same ∙ decided.0 e),
        λ h. decided.1 (same ∙ NothingJudged-count h),
      )

module _ (sort : List RunClass → List RunClass) (jobs : ℕ → List GhJob) (self : ℕ)
    (runs : List GhRun) where
  -- Provided that the sort permutes and sorts: the judged runs stand in the order of their ids, and
  -- for every id other than `self` the first entry that is not completed is judged once, if its
  -- workflow joins the group at all, and no other entry is; no run of the id `self` is judged.
  -- Stated by counting the judged runs of an id that pass a test.
  pub classify_runs_lem :
      (p : RunClass → Bool) (i : ℕ)
      → IsSort by_id sort
      → Sorted by_id (classify_runs sort runs jobs self)
        × (count (of_id p i) (classify_runs sort runs jobs self)
            ≡ (if i == self then 0 else judged jobs p (first_open i runs)))
  unfolding classify_runs contains_id
  classify_runs_lem p i sorts =
      let same = count-Perm (of_id p i) (sorts.perm (classify_open jobs self [] runs)) in
      let counted = count-classify_open jobs p i self [] runs in
      (sorts.sorted (classify_open jobs self [] runs), ground (arith, same, counted))
