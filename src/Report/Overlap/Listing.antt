-- ===== src/Report/Overlap/Listing.antt =====
-- report/archoverlap.go: the violations that a report lists.
use mathlib.Core.List.{Perm}
use probatorium.Base.{
  ℕ, zero, suc, ◌-◌, ◌≡◌, refl, ◌∙◌, min, max, ◌==◌, ltb, ◌&&◌, not, Bool, true, false, List, [],
  ◌∷◌, String, Option-cases, length, length-append, take, some, arith, count, count-append,
  count-Perm, Sorted, IsSort, All, All-map, Bool-cases, inl, inr,
}
use probatorium.Report.Overlap.{
  LoadWindow, OverlapPair, Tally, usable, shared_time, count_class, count_violation, tally_pair,
  sweep, sweep_all, no_overlap, longer, check_arch_overlap, max_listed_violations,
}
use probatorium.Report.Overlap.Counts.{
  intersects, violates, tally_pair-none, tally_pair-some, shared_time-some,
}
use probatorium.Report.Overlap.Verdict.{count-All}

-- A listed pair is a violation, with the length of time that its windows share.
abbrev pub is_listed : String → OverlapPair → Bool
is_listed policy v =
    violates policy v.a v.b && (v.overlap == (min v.a.end v.b.end - max v.a.start v.b.start))

shared_time_lem :
    (x y : LoadWindow) (ov : ℕ)
    → shared_time x y ≡ some ov
    → ov ≡ min x.end y.end - max x.start y.start
unfolding shared_time
shared_time_lem x y ov e = ground arith

not-false : (b : Bool) → not b ≡ false → b ≡ true
not-false b e = ground arith

length-count {ℓ} : {A : Type ℓ} (xs : List A) → count (λ _. true) xs ≡ length xs
length-count [] = refl
length-count (x ∷ xs) = omega (arith, length-count xs)

length-Perm {ℓ} : {A : Type ℓ} {xs ys : List A} → Perm xs ys → length xs ≡ length ys
length-Perm {xs} {ys} h = omega (arith, length-count xs, length-count ys, count-Perm (λ _. true) h)

module _ {ℓ} {A : Type ℓ} where
  length-take : (n : ℕ) (xs : List A) → length (take n xs) ≡ min n (length xs)
  length-take zero xs = omega arith
  length-take (suc n) [] = omega arith
  length-take (suc n) (x ∷ xs) = omega (arith, length-take n xs)

  All-take : (P : A → Type 0) (n : ℕ) (xs : List A) → All P xs → All P (take n xs)
  All-take P zero xs h = tt
  All-take P (suc n) [] h = tt
  All-take P (suc n) (x ∷ xs) h = (h.0, All-take P n xs h.1)

  Sorted-take :
      (less : A → A → Bool) (n : ℕ) (xs : List A) → Sorted less xs → Sorted less (take n xs)
  Sorted-take less zero xs h = tt
  Sorted-take less (suc n) [] h = tt
  Sorted-take less (suc n) (x ∷ xs) h =
      (All-take (λ y. less y x ≡ false) n xs h.0, Sorted-take less n xs h.1)

module _ (policy : String) where
  -- The violations found so far are as many as were counted, and all are violations.
  record IsTallied (t : Tally) : Type 0 where
    counted : length t.viol ≡ t.total
    listed : count (λ v. not (is_listed policy v)) t.viol ≡ 0

  counted-IsTallied :
      (x y : LoadWindow) (ov : ℕ) (t : Tally)
      → intersects x y ≡ true
      → ov ≡ min x.end y.end - max x.start y.start
      → IsTallied t
      → IsTallied (count_violation policy x y ov (count_class x y t))
  unfolding count_violation count_class
  counted-IsTallied x y ov t h e v = ground (
    arith,
    length-append t.viol (record { a = x; b = y; overlap = ov } ∷ []),
    count-append (λ v. not (is_listed policy v)) t.viol
        (record { a = x; b = y; overlap = ov } ∷ []),
  )

  tally_pair-IsTallied :
      (x y : LoadWindow) (t : Tally) → IsTallied t → IsTallied (tally_pair policy x y t)
  tally_pair-IsTallied x y t v = elim (Option-cases (shared_time x y)) [
    | inl e ↦ rw (tally_pair-none policy x y t e) v
    | inr (ov, e) ↦
        rw (tally_pair-some policy x y t ov e)
          (counted-IsTallied x y ov t (shared_time-some x y ov e) (shared_time_lem x y ov e) v)
  ]

  sweep-IsTallied :
      (x : LoadWindow) (ys : List LoadWindow) (t : Tally)
      → IsTallied t
      → IsTallied (sweep policy x ys t)
  unfolding sweep
  sweep-IsTallied x [] t v = v
  sweep-IsTallied x (y ∷ ys) t v = elim (Bool-cases (ltb y.start x.end)) [
    | inl h ↦ rw h (sweep-IsTallied x ys (tally_pair policy x y t) (tally_pair-IsTallied x y t v))
    | inr h ↦ rw h v
  ]

  sweep_all-IsTallied :
      (xs ys : List LoadWindow) (t : Tally) → IsTallied t → IsTallied (sweep_all policy xs ys t)
  unfolding sweep_all
  sweep_all-IsTallied [] ys t v = v
  sweep_all-IsTallied (x ∷ xs) ys t v =
      sweep_all-IsTallied xs ys (sweep policy x ys t) (sweep-IsTallied x ys t v)

module _ (sort_windows : List LoadWindow → List LoadWindow)
    (sort_pairs : List OverlapPair → List OverlapPair) where
  -- Provided that the violations are sorted by overlap, longest first, a report lists all of them
  -- up to 25, and 25 of them beyond that, longest first; each listed pair intersects and is
  -- forbidden by the policy, and comes with the length of time that it shares.
  pub check-violations :
      (a b : List LoadWindow) (policy : String)
      → IsSort longer sort_pairs
      → let r = check_arch_overlap sort_windows sort_pairs a b policy in
        (length r.violations ≡ min max_listed_violations r.total)
        × Sorted longer r.violations
        × All (λ v. is_listed policy v ≡ true) r.violations
  unfolding check_arch_overlap
  check-violations a b policy sorts =
      let t : Tally = sweep_all policy (usable a) (sort_windows (usable b)) no_overlap in
      let v : IsTallied policy t =
        sweep_all-IsTallied policy (usable a) (sort_windows (usable b)) no_overlap
          (record { counted = refl; listed = refl }) in
      (
        omega (
          arith,
          length-take max_listed_violations (sort_pairs t.viol),
          length-Perm (sorts.perm t.viol),
          v.counted,
        ),
        Sorted-take longer max_listed_violations (sort_pairs t.viol) (sorts.sorted t.viol),
        All-take (λ v. is_listed policy v ≡ true) max_listed_violations (sort_pairs t.viol)
            (All-map _ _ (sort_pairs t.viol) (λ v e. not-false (is_listed policy v) e)
              (count-All (λ v. not (is_listed policy v)) (sort_pairs t.viol)
                (count-Perm (λ v. not (is_listed policy v)) (sorts.perm t.viol) ∙ v.listed))),
      )
