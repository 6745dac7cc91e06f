-- ===== src/Validation/Shrinker/Rounds.antt =====
-- validation/shrinker.go: what every round of a shrink keeps.
use probatorium.Base.{
  ℕ, zero, suc, ◌+◌, ◌≤◌, ◌<◌, ◌≡◌, refl, Bool, true, false, List, [], ◌∷◌, ◌++◌, Option, none,
  some, All, All-snoc, All-map, arith, length, length-append, ◌⊎◌, inl, inr,
}
use probatorium.Validation.Shrinker.{
  Outcome, infra_error, ran, ShrinkResult, Search, midpoint, judge, search,
}

module _ (try : ℕ → ℕ → Outcome) (min_duration original : ℕ) where
  -- What an entry says of an attempt that answered so.
  abbrev Records : ShrinkResult → Outcome → Type 0
  Records r infra_error = r.reproduced ≡ false
  Records r (ran shown code) = (r.reproduced ≡ shown) × (r.exit_code ≡ code)

  -- A log entry: its duration lies in the range, and it says that the failure showed exactly if the
  -- attempt of that number and duration answered so, with the exit code that it gave; an attempt
  -- that could not be made is one where the failure did not show.
  abbrev pub IsLogged : ShrinkResult → Type 0
  IsLogged r =
      (min_duration ≤ r.duration) × (r.duration ≤ original) × Records r (try r.attempt r.duration)

  -- Every entry that shows the failure takes at least `d`.
  abbrev pub AtLeast : ℕ → List ShrinkResult → Type 0
  AtLeast d = All (λ r. (r.reproduced ≡ false) ⊎ (d ≤ r.duration))

  -- The minimal result is the logged one that `high` was lowered to; with none, no logged attempt
  -- showed the failure and `high` is still the original duration.
  abbrev pub IsMinimal : Option ShrinkResult → ℕ → List ShrinkResult → Type 0
  IsMinimal none high log = (high ≡ original) × All (λ r. r.reproduced ≡ false) log
  IsMinimal (some r) high log =
      (r.duration ≡ high)
      × (r.duration ≤ original)
      × (min_duration ≤ r.duration)
      × (try r.attempt r.duration ≡ ran true r.exit_code)

  pub record Inv (s : Search) : Type 0 where
    pub floor : min_duration ≤ s.low
    pub ordered : s.low ≤ s.high
    pub ceiling : s.high ≤ original
    pub logged : All IsLogged s.attempts
    pub least : AtLeast s.high s.attempts
    pub found : IsMinimal s.minimal s.high s.attempts

  midpoint_bounds :
      (low high : ℕ)
      → min_duration ≤ low
      → low ≤ high
      → (low ≤ midpoint min_duration low high)
        × (midpoint min_duration low high ≤ high)
        × (min_duration ≤ midpoint min_duration low high)
  unfolding midpoint
  midpoint_bounds low high h o = ground arith

  AtLeast-le : (d e : ℕ) (log : List ShrinkResult) → e ≤ d → AtLeast d log → AtLeast e log
  AtLeast-le d e log h = All-map _ _ log (λ r k. ground arith)

  IsMinimal-snoc :
      (m : Option ShrinkResult) (high : ℕ) (log : List ShrinkResult) (r : ShrinkResult)
      → r.reproduced ≡ false
      → IsMinimal m high log
      → IsMinimal m high (log ++ r ∷ [])
  IsMinimal-snoc none high log r e h = (h.0, All-snoc _ log h.1 e)
  IsMinimal-snoc (some x) high log r e h = h

  judge-Inv :
      (i mid : ℕ) (s : Search)
      → s.low ≤ mid
      → mid ≤ s.high
      → Inv s
      → (answer : Outcome) → try i mid ≡ answer
      → Inv (judge i mid answer s)
  unfolding judge
  judge-Inv i mid s l h v infra_error e = record {
    floor = v.floor;
    ordered = v.ordered;
    ceiling = v.ceiling;
    logged =
        All-snoc _ s.attempts v.logged
          (omega (arith, v.floor), omega (arith, v.ceiling), rw e refl);
    least = All-snoc _ s.attempts v.least (inl refl);
    found = IsMinimal-snoc s.minimal s.high s.attempts _ refl v.found;
  }
  judge-Inv i mid s l h v (ran true code) e =
      let entry : IsLogged
          (record { attempt = i; duration = mid; reproduced = true; exit_code = code }) =
        (omega (arith, v.floor), omega (arith, v.ceiling), rw e (refl, refl)) in
      record {
        floor = v.floor;
        ordered = l;
        ceiling = omega (arith, v.ceiling);
        logged = All-snoc _ s.attempts v.logged entry;
        least =
            All-snoc _ s.attempts (AtLeast-le s.high mid s.attempts h v.least) (inr (omega arith));
        found = (refl, entry.1, entry.0, e);
      }
  judge-Inv i mid s l h v (ran false code) e = record {
    floor = omega (arith, v.floor);
    ordered = h;
    ceiling = v.ceiling;
    logged =
        All-snoc _ s.attempts v.logged
          (omega (arith, v.floor), omega (arith, v.ceiling), rw e (refl, refl));
    least = All-snoc _ s.attempts v.least (inl refl);
    found = IsMinimal-snoc s.minimal s.high s.attempts _ refl v.found;
  }

  length-judge :
      (i mid : ℕ) (answer : Outcome) (s : Search)
      → length (judge i mid answer s).attempts ≡ length s.attempts + 1
  unfolding judge
  length-judge i mid infra_error s = length-append s.attempts _
  length-judge i mid (ran true code) s = length-append s.attempts _
  length-judge i mid (ran false code) s = length-append s.attempts _

  module _ (cancelled : ℕ → Bool) where
    -- A round, and with it the whole loop, keeps what every round keeps.
    search-keeps :
        (P : Search → Type 0)
        → ((i : ℕ) (s : Search)
            → P s
            → P (
                judge i
                  (midpoint min_duration s.low s.high)
                  (try i (midpoint min_duration s.low s.high))
                  s))
        → (n i : ℕ) (s : Search) → P s
        → P (search try cancelled min_duration n i s)
    unfolding search
    search-keeps P step zero i s v = v
    search-keeps P step (suc n) i s v =
        let s' =
          judge i (midpoint min_duration s.low s.high) (try i (midpoint min_duration s.low s.high))
            s in
        ground (arith, step i s v, search-keeps P step n (i + 1) s' (step i s v))

    pub search-Inv : (n i : ℕ) (s : Search) → Inv s → Inv (search try cancelled min_duration n i s)
    search-Inv = search-keeps Inv (λ i s v.
        let mid = midpoint_bounds s.low s.high v.floor v.ordered in
        judge-Inv i (midpoint min_duration s.low s.high) s mid.0 mid.1 v _ refl)

    pub length-search :
        (n i : ℕ) (s : Search)
        → length (search try cancelled min_duration n i s).attempts ≤ length s.attempts + n
    unfolding search
    length-search zero i s = omega arith
    length-search (suc n) i s =
        let mid = midpoint min_duration s.low s.high in
        let s' = judge i mid (try i mid) s in
        ground (arith, length-search n (i + 1) s', length-judge i mid (try i mid) s)

    pub length-search_ge :
        (n i : ℕ) (s : Search)
        → length s.attempts ≤ length (search try cancelled min_duration n i s).attempts
    unfolding search
    length-search_ge zero i s = omega arith
    length-search_ge (suc n) i s =
        let mid = midpoint min_duration s.low s.high in
        let s' = judge i mid (try i mid) s in
        ground (arith, length-search_ge n (i + 1) s', length-judge i mid (try i mid) s)

    -- The loop makes an attempt, unless it has no round or is cancelled before the first.
    pub search-tries :
        (n i : ℕ) (s : Search)
        → (n ≡ 0)
          ⊎ (cancelled i ≡ true)
          ⊎ (length s.attempts < length (search try cancelled min_duration n i s).attempts)
    unfolding search
    search-tries zero i s = inl refl
    search-tries (suc n) i s =
        let mid = midpoint min_duration s.low s.high in
        let s' = judge i mid (try i mid) s in
        ground (arith, length-search_ge n (i + 1) s', length-judge i mid (try i mid) s)
