-- ===== src/Validation/Evaluator/Summary.antt =====
-- The summary of a cell: which predicates passed, failed, had no data, or never reached a verdict.
use text.Mathlib.Text.{◌==◌ as str_eq}
use text.Mathlib.TextEquality.{eq_iff}
use text.Mathlib.TextPositions.{eq_refl}
use probatorium.Base.{
  map, Option, none, some, ℕ, ltb, ◌==◌, if◌then◌else◌, ◌||◌, ◌&&◌, not, Bool, true, false, List,
  [], ◌∷◌, String, contains, count, count-Perm, insertion_sort, insertion_sort-perm, str_lt, ◌≡◌,
  refl, ap, ◌∙◌, arith, Bool-cases, inl, inr,
}
use probatorium.Validation.Evaluator.{ShadowTally, Spec, Evaluator}

abbrev uninstrumented : List String
uninstrumented = []

-- The keys of the map.
abbrev declared_only : List String
declared_only =
    "I-MEM-2" ∷ "I-DRV" ∷ "I-RACE" ∷ "I-ENG-IOURING" ∷ "I-ENG-ADAPTIVE" ∷ "I-MW-SESSION"
    ∷ "I-MW-JWT" ∷ "I-MW-RATELIMIT" ∷ "I-CONN-1" ∷ "I-CHECKPTR" ∷ "I-RFC-1" ∷ "I-RFC-2" ∷ []

-- The data behind the predicate were not there.
pub no_source : Evaluator → String → Bool
no_source e id =
    contains id uninstrumented
    || (contains id declared_only && not (e.declared id)
        || str_eq id "I-MEM-4" && e.counts.last_rss == 0)

-- They were, but every evaluation was a skip.
pub only_skipped : Evaluator → String → Bool
unfolding no_source
only_skipped e id = not (no_source e id) && (ltb 0 e.counts.samples && e.judged id == 0)

pub has_failed : Evaluator → String → Bool
has_failed e id = ltb 0 (e.per id)

pub record Summary : Type 0 where
  pub samples : ℕ
  pub predicates : List String
  pub not_instrumented : List String
  pub not_judged : List String
  pub not_judged_by_design : List String
  pub violation_ids : List String
  pub per_predicate : List (String × ℕ)
  pub failure_summaries : List (String × String)
  pub informational : String → Option ShadowTally

-- The ids of the predicates that pass a test, in their order.
ids_with : (Spec → Bool) → List Spec → List String
ids_with p [] = []
ids_with p (s ∷ specs) = let rest = ids_with p specs in if p s then s.id ∷ rest else rest

sorted_ids : (Spec → Bool) → List Spec → List String
unfolding ids_with
sorted_ids p specs = insertion_sort str_lt (ids_with p specs)

too_short : Evaluator → Spec → Bool
too_short e s = ltb 0 s.min_observation && ltb e.counts.observed s.min_observation

failures : Evaluator → List Spec → List (String × String)
unfolding has_failed
failures e [] = []
failures e (s ∷ specs) =
    let rest = failures e specs in if has_failed e s.id then (s.id, e.first s.id) ∷ rest else rest

-- An informational twin absolved its predicate where no violation of that was declared.
judge_shadow : ℕ → Option ShadowTally → Option ShadowTally
judge_shadow per none = none
judge_shadow per (some t) = some (record t { absolved = per == 0 })

unfoldable pub tally : Evaluator → Summary
unfolding sorted_ids no_source only_skipped has_failed too_short failures judge_shadow
tally e = record {
  samples = e.counts.samples;
  predicates = sorted_ids (λ s. true) e.specs;
  not_instrumented = sorted_ids (λ s. no_source e s.id) e.specs;
  not_judged = sorted_ids (λ s. only_skipped e s.id) e.specs;
  not_judged_by_design = sorted_ids (λ s. only_skipped e s.id && too_short e s) e.specs;
  violation_ids = sorted_ids (λ s. has_failed e s.id) e.specs;
  per_predicate = map (λ s. (s.id, e.per s.id)) e.specs;
  failure_summaries = failures e e.specs;
  informational = λ id. judge_shadow (e.per id) (e.shadow id);
}

unfoldable pub is_excluded : Summary → String → Bool
is_excluded t id =
    contains id t.violation_ids || (contains id t.not_instrumented || contains id t.not_judged)

unfoldable pub passed : Summary → ℕ
unfolding is_excluded
passed t = if t.samples == 0 then 0 else count (λ id. not (is_excluded t id)) t.predicates

contains-count :
    (id : String) (xs : List String) → contains id xs ≡ ltb 0 (count (λ x. str_eq id x) xs)
unfolding contains
contains-count id [] = refl
contains-count id (x ∷ xs) = let ih = contains-count id xs in ground (arith, ih)

contains-ids_with :
    (q : String → Bool) (specs : List Spec) (id : String)
    → contains id (ids_with (λ s. q s.id) specs)
      ≡ (q id && contains id (ids_with (λ s. true) specs))
unfolding ids_with contains
contains-ids_with q [] id = ground arith
contains-ids_with q (s ∷ specs) id =
    let ih = contains-ids_with q specs id in
    elim (Bool-cases (str_eq id s.id)) [
      | inl h ↦ let e = ap q ((eq_iff id s.id).0 h) in ground (arith, ih, h, e)
      | inr h ↦ ground (arith, ih, h)
    ]

contains-sorted_ids :
    (q : String → Bool) (specs : List Spec) (id : String)
    → contains id (sorted_ids (λ s. q s.id) specs)
      ≡ (q id && contains id (ids_with (λ s. true) specs))
unfolding sorted_ids
contains-sorted_ids q specs id =
    let xs = ids_with (λ s. q s.id) specs in
    let a = contains-count id (insertion_sort str_lt xs) in
    let b = count-Perm (λ x. str_eq id x) (insertion_sort-perm str_lt xs) in
    let d = contains-count id xs in
    let e = contains-ids_with q specs id in ground (arith, a, b, d, e)

-- The predicate's data were there, it reached a verdict, and no violation of it was declared.
pub is_verified : Evaluator → Spec → Bool
is_verified e s = not (no_source e s.id) && (ltb 0 (e.judged s.id) && e.per s.id == 0)

module _ (e : Evaluator) where
  is_excluded-tally :
      (id : String)
      → contains id (ids_with (λ s. true) e.specs) ≡ true
      → is_excluded (tally e) id ≡ (has_failed e id || (no_source e id || only_skipped e id))
  unfolding is_excluded tally
  is_excluded-tally id m =
      let a = contains-sorted_ids (has_failed e) e.specs id in
      let b = contains-sorted_ids (no_source e) e.specs id in
      let d = contains-sorted_ids (only_skipped e) e.specs id in ground (arith, a, b, d, m)

  -- A listed id that is not excluded is that of a verified predicate.
  excluded-verified :
      (s : Spec)
      → (e.counts.samples == 0) ≡ false
      → contains s.id (ids_with (λ x. true) e.specs) ≡ true
      → not (is_excluded (tally e) s.id) ≡ is_verified e s
  unfolding has_failed only_skipped is_verified
  excluded-verified s some_sample m = let k = is_excluded-tally s.id m in ground (arith, k)

  count-verified :
      (specs : List Spec)
      → (e.counts.samples == 0) ≡ false
      → ((id : String)
          → contains id (ids_with (λ x. true) specs) ≡ true
          → contains id (ids_with (λ x. true) e.specs) ≡ true)
      → count (λ id. not (is_excluded (tally e) id)) (ids_with (λ x. true) specs)
        ≡ count (is_verified e) specs
  unfolding ids_with contains
  count-verified [] some_sample within = refl
  count-verified (s ∷ specs) some_sample within =
      let own = eq_refl s.id in
      let k = excluded-verified s some_sample (within s.id (ground (arith, own))) in
      let ih = count-verified specs some_sample (λ id m. within id (ground (arith, m))) in
      ground (arith, k, ih)

  -- The number passed in a cell's tally is 0 where nothing was sampled, and else the number of
  -- predicates whose data were there, that reached a verdict at least once, and of which no
  -- violation was declared.
  pub passed-verified :
      passed (tally e) ≡ (if e.counts.samples == 0 then 0 else count (is_verified e) e.specs)
  unfolding passed tally sorted_ids
  passed-verified = elim (Bool-cases (e.counts.samples == 0)) [
    | inl h ↦ rw h refl
    | inr h ↦
        let ids = ids_with (λ s. true) e.specs in
        let p =
          count-Perm (λ id. not (is_excluded (tally e) id)) (insertion_sort-perm str_lt ids) in
        rw h (p ∙ count-verified e.specs h (λ id m. m))
  ]
