-- ===== src/Stresstally/Judge/Gaps.antt =====
-- When no test is a gap: each test that a row shows as run on one arch of the case ran on every
-- arch of the case.
use text.Mathlib.Text.{◌==◌ as str_eq}
use text.Mathlib.TextEquality.{eq_iff}
use text.Mathlib.TextPositions.{eq_refl}
use mathlib.Core.Path.{subst}
use probatorium.Base.{
  ltb, ◌&&◌, ◌||◌, not, Bool, true, false, List, [], ◌∷◌, ◌++◌, String, contains, ◌≡◌, ◌↔◌, refl,
  sym, ap, ◌∙◌, is_nil, arith, Bool-cases, inl, inr, sum, length,
}
use probatorium.Stresstally.Judge.Shards.{TestRow}
use probatorium.Stresstally.Judge.Problems.{
  arch_gaps, gaps_of, split_arches, ran_on, has_key, test_order,
}
use probatorium.Stresstally.Judge.Tally.{weigh_row}

not_in_nil : (a : String) → ¬ (contains a [] ≡ true)
unfolding contains
not_in_nil a m = ground arith

contains-head : (a : String) (ys : List String) → contains a (a ∷ ys) ≡ true
unfolding contains
contains-head a ys = let e = eq_refl a in ground (arith, e)

-- A test that ran on one of the arches ran on each of them.
abbrev pub RanOnAll : List TestRow → List String → String × String → Type 0
RanOnAll tests arches k =
    (a b : String)
    → contains a arches ≡ true
    → contains b arches ≡ true
    → ran_on tests k a ≡ true
    → ran_on tests k b ≡ true

abbrev pub at_key_and_arch : String × String → String → String → String → String → Bool
at_key_and_arch k arch pkg name a = str_eq pkg k.0 && (str_eq name k.1 && str_eq a arch)

pub ran_on-weigh :
    (tests : List TestRow) (k : String × String) (arch : String)
    → ran_on tests k arch
      ≡ ltb 0 (sum (weigh_row (at_key_and_arch k arch) (λ r. r.processes)) tests)
unfolding ran_on
ran_on-weigh [] k arch = refl
ran_on-weigh (r ∷ tests) k arch = let ih = ran_on-weigh tests k arch in ground (arith, ih)

module _ (tests : List TestRow) (k : String × String) where
  contains-other :
      (a y : String) (ys : List String) (wanted : Bool)
      → contains a (y ∷ ys) ≡ true
      → ran_on tests k a ≡ wanted
      → ran_on tests k y ≡ not wanted
      → contains a ys ≡ true
  unfolding contains
  contains-other a y ys wanted m h n = elim (Bool-cases (str_eq a y)) [
    | inl e ↦ let p = ap (ran_on tests k) ((eq_iff a y).0 e) in ground (arith, p)
    | inr e ↦ ground arith
  ]

  -- An arch whose mark is the wanted one is kept.
  split_arches-keeps :
      (wanted : Bool) (arches : List String) (a : String)
      → contains a arches ≡ true
      → ran_on tests k a ≡ wanted
      → is_nil (split_arches wanted tests k arches) ≡ false
  unfolding split_arches
  split_arches-keeps wanted [] a m h = absurd (not_in_nil a m)
  split_arches-keeps true (y ∷ ys) a m h = elim (Bool-cases (ran_on tests k y)) [
    | inl e ↦ rw e refl
    | inr e ↦ rw e (split_arches-keeps true ys a (contains-other a y ys true m h e) h)
  ]
  split_arches-keeps false (y ∷ ys) a m h = elim (Bool-cases (ran_on tests k y)) [
    | inl e ↦ rw e (split_arches-keeps false ys a (contains-other a y ys false m h e) h)
    | inr e ↦ rw e refl
  ]

  abbrev KeptArch : Bool → List String → Type 0
  KeptArch wanted arches = (a : String) × (contains a arches ≡ true) × (ran_on tests k a ≡ wanted)

  KeptArch-tail :
      (wanted : Bool) (y : String) (ys : List String)
      → KeptArch wanted ys
      → KeptArch wanted (y ∷ ys)
  unfolding contains
  KeptArch-tail wanted y ys (a, m, h) = (a, ground arith, h)

  split_arches-kept :
      (wanted : Bool) (arches : List String)
      → is_nil (split_arches wanted tests k arches) ≡ false
      → KeptArch wanted arches
  unfolding split_arches
  split_arches-kept wanted [] h = ground arith
  split_arches-kept true (y ∷ ys) h = elim (Bool-cases (ran_on tests k y)) [
    | inl e ↦ (y, contains-head y ys, e)
    | inr e ↦ KeptArch-tail true y ys (split_arches-kept true ys (ground (arith, h, e)))
  ]
  split_arches-kept false (y ∷ ys) h = elim (Bool-cases (ran_on tests k y)) [
    | inl e ↦ KeptArch-tail false y ys (split_arches-kept false ys (ground (arith, h, e)))
    | inr e ↦ (y, contains-head y ys, e)
  ]

  -- A test is a gap just where it ran on one arch and not on another.
  abbrev is_gap : List String → Bool
  is_gap arches =
      not (is_nil (split_arches true tests k arches))
      && not (is_nil (split_arches false tests k arches))

  no_gap-RanOnAll : (arches : List String) → (is_gap arches ≡ false) ↔ RanOnAll tests arches k
  no_gap-RanOnAll arches = (
    λ h a b m n r. elim (Bool-cases (ran_on tests k b)) [
      | inl e ↦ e
      | inr e ↦
          let on = split_arches-keeps true arches a m r in
          let off = split_arches-keeps false arches b n e in ground (arith, h, on, off)
    ],
    λ all. elim (Bool-cases (is_nil (split_arches true tests k arches))) [
      | inl e ↦ ground (arith, e)
      | inr e ↦ elim (Bool-cases (is_nil (split_arches false tests k arches))) [
        | inl f ↦ ground (arith, e, f)
        | inr f ↦
            let (a, m, r) = split_arches-kept true arches e in
            let (b, n, s) = split_arches-kept false arches f in
            let t = all a b m n r in ground (arith, s, t)
      ]
    ],
  )

has_key-snoc :
    (pkg name : String) (keys : List (String × String)) (k : String × String)
    → has_key pkg name (keys ++ k ∷ [])
      ≡ (has_key pkg name keys || (str_eq k.0 pkg && str_eq k.1 name))
unfolding has_key
has_key-snoc pkg name [] k = ground arith
has_key-snoc pkg name (x ∷ keys) k = let ih = has_key-snoc pkg name keys k in ground (arith, ih)

has_key-test_order :
    (tests : List TestRow) (keys : List (String × String)) (k : String × String) (a : String)
    → (has_key k.0 k.1 keys || ran_on tests k a) ≡ true
    → has_key k.0 k.1 (test_order tests keys) ≡ true
unfolding test_order ran_on
has_key-test_order [] keys k a h = ground arith
has_key-test_order (r ∷ tests) keys k a h = elim (Bool-cases (has_key r.pkg r.name keys)) [
  | inl e ↦ rw e (
      has_key-test_order tests keys k a (elim (Bool-cases (str_eq r.pkg k.0 && str_eq r.name k.1)) [
        | inl f ↦
            let p = (eq_iff r.pkg k.0).0 (ground (arith, f)) in
            let q = (eq_iff r.name k.1).0 (ground (arith, f)) in
            let g : has_key k.0 k.1 keys ≡ true = cc in ground (arith, g)
        | inr f ↦ ground (arith, f, h)
      ]))
  | inr e ↦
      let s = has_key-snoc k.0 k.1 keys (r.pkg, r.name) in
      rw e (has_key-test_order tests (keys ++ (r.pkg, r.name) ∷ []) k a (ground (arith, s, h)))
]

gaps_of-nil :
    (tests : List TestRow) (arches : List String) (keys : List (String × String))
    → is_nil (gaps_of tests arches keys) ≡ true
    → (pkg name : String) → has_key pkg name keys ≡ true
    → RanOnAll tests arches (pkg, name)
unfolding gaps_of has_key
gaps_of-nil tests arches [] h pkg name m = ground arith
gaps_of-nil tests arches (k ∷ keys) h pkg name m = elim (Bool-cases (is_gap tests k arches)) [
  | inl e ↦ ground (arith, h, e)
  | inr e ↦ elim (Bool-cases (str_eq k.0 pkg && str_eq k.1 name)) [
    | inl f ↦
        let p = (eq_iff k.0 pkg).0 (ground (arith, f)) in
        let q = (eq_iff k.1 name).0 (ground (arith, f)) in
        let all = (no_gap-RanOnAll tests k arches).0 e in
        let on_pkg = subst (λ z. RanOnAll tests arches (z, k.1)) p all in
        subst (λ z. RanOnAll tests arches (pkg, z)) q on_pkg
    | inr f ↦ gaps_of-nil tests arches keys (ground (arith, h, e)) pkg name (ground (arith, m, f))
  ]
]

nil-gaps_of :
    (tests : List TestRow) (arches : List String) (keys : List (String × String))
    → ((k : String × String) → RanOnAll tests arches k)
    → is_nil (gaps_of tests arches keys) ≡ true
unfolding gaps_of
nil-gaps_of tests arches [] all = refl
nil-gaps_of tests arches (k ∷ keys) all =
    let e = (no_gap-RanOnAll tests k arches).1 (all k) in rw e (nil-gaps_of tests arches keys all)

one_arch :
    (arches : List String) (a b : String)
    → ltb (length arches) 2 ≡ true
    → contains a arches ≡ true
    → contains b arches ≡ true
    → a ≡ b
unfolding contains
one_arch [] a b h m n = ground arith
one_arch (y ∷ []) a b h m n =
    (eq_iff a y).0 (ground (arith, m)) ∙ sym ((eq_iff b y).0 (ground (arith, n)))
one_arch (y ∷ z ∷ ys) a b h m n = ground arith

pub arch_gaps-nil :
    (tests : List TestRow) (arches : List String)
    → (is_nil (arch_gaps tests arches) ≡ true) ↔ ((k : String × String) → RanOnAll tests arches k)
unfolding arch_gaps
arch_gaps-nil tests arches = elim (Bool-cases (ltb (length arches) 2)) [
  | inl e ↦ rw e (
    λ _ k a b m n r. subst (λ z. ran_on tests k z ≡ true) (one_arch arches a b e m n) r,
    λ _. refl,
  )
  | inr e ↦ rw e (
    λ h k a b m n r.
        gaps_of-nil tests arches (test_order tests []) h k.0 k.1
          (has_key-test_order tests [] k a (ground (arith, r))) a b m n r,
    λ all. nil-gaps_of tests arches (test_order tests []) all,
  )
]
