-- ===== src/Interleave/Schedule/Reversal.antt =====
-- interleave/schedule.go: `ReverseWithinRuns`.
use probatorium.Base.{
  ℕ, zero, suc, ◌<◌, ◌≤◌, ◌≡◌, ◌≢◌, refl, sym, ◌∙◌, ap, List, [], ◌∷◌, ◌++◌, map, reverse, All,
  All-snoc, length, length-map, length-append, arith,
}
use mathlib.Core.List.{Perm, reverse-reverse, map-append, reverse-cons, reverse_perm}
use mathlib.Core.List.Perm
use mathlib.Core.Path.{subst, ap₂, ◌≡⟨◌⟩◌, ◌∎}
use probatorium.Interleave.Schedule.{Cell, front, rest, reverse_runs, reverse_within_runs}

module _ {S V : Type 0} where
  -- The cells all belong to run `r`.
  abbrev pub InRun : ℕ → List (Cell S V) → Type 0
  InRun r = All (λ c. c.run_idx ≡ r)

  -- The list does not go on with a cell of run `r`.
  abbrev pub Leaves : ℕ → List (Cell S V) → Type 0
  Leaves r [] = Unit
  Leaves r (c ∷ cs) = c.run_idx ≢ r

  front-append-rest : (r : ℕ) (cs : List (Cell S V)) → front r cs ++ rest r cs ≡ cs
  unfolding front rest
  front-append-rest r [] = refl
  front-append-rest r (c ∷ cs) = ground (arith, front-append-rest r cs)

  front-InRun : (r : ℕ) (cs : List (Cell S V)) → InRun r (front r cs)
  unfolding front
  front-InRun r [] = tt
  front-InRun r (c ∷ cs) = ground (arith, front-InRun r cs)

  rest-Leaves : (r : ℕ) (cs : List (Cell S V)) → Leaves r (rest r cs)
  unfolding rest
  rest-Leaves r [] = tt
  rest-Leaves r (c ∷ cs) = ground (arith, rest-Leaves r cs)

  -- A block of run `r` before cells that leave the run is what the scan finds.
  front-block :
      (r : ℕ) (block after : List (Cell S V))
      → InRun r block
      → Leaves r after
      → front r (block ++ after) ≡ block
  unfolding front
  front-block r [] [] b l = refl
  front-block r [] (c ∷ cs) b l = ground arith
  front-block r (c ∷ block) after b l = ground (arith, front-block r block after b.1 l)

  rest-block :
      (r : ℕ) (block after : List (Cell S V))
      → InRun r block
      → Leaves r after
      → rest r (block ++ after) ≡ after
  unfolding rest
  rest-block r [] [] b l = refl
  rest-block r [] (c ∷ cs) b l = ground arith
  rest-block r (c ∷ block) after b l = ground (arith, rest-block r block after b.1 l)

  length-rest : (r : ℕ) (cs : List (Cell S V)) → length (rest r cs) ≤ length cs
  unfolding rest
  length-rest r [] = omega arith
  length-rest r (c ∷ cs) = ground (arith, length-rest r cs)

  length-rest_self :
      (c : Cell S V) (cs : List (Cell S V)) → length (rest c.run_idx (c ∷ cs)) ≤ length cs
  unfolding rest
  length-rest_self c cs = ground (arith, length-rest c.run_idx cs)

  -- The run indices along a schedule.
  abbrev pub idxs : List (Cell S V) → List ℕ
  idxs = map (λ c. c.run_idx)

  length-reverse : (cs : List (Cell S V)) → length (reverse cs) ≡ length cs
  length-reverse [] = refl
  length-reverse (c ∷ cs) =
      omega (
        arith,
        ap length (reverse-cons c cs),
        length-append (reverse cs) (c ∷ []),
        length-reverse cs,
      )

  reverse-InRun : (r : ℕ) (cs : List (Cell S V)) → InRun r cs → InRun r (reverse cs)
  reverse-InRun r [] h = tt
  reverse-InRun r (c ∷ cs) h =
      rw (reverse-cons c cs) (All-snoc _ (reverse cs) (reverse-InRun r cs h.1) h.0)

  idxs_of_InRun :
      (r : ℕ) (xs ys : List (Cell S V))
      → InRun r xs
      → InRun r ys
      → length xs ≡ length ys
      → idxs xs ≡ idxs ys
  idxs_of_InRun r [] [] hx hy e = refl
  idxs_of_InRun r [] (y ∷ ys) hx hy e = absurd (omega arith)
  idxs_of_InRun r (x ∷ xs) [] hx hy e = absurd (omega arith)
  idxs_of_InRun r (x ∷ xs) (y ∷ ys) hx hy e =
      ground (arith, idxs_of_InRun r xs ys hx.1 hy.1 (omega arith))

  idxs-reverse_runs :
      (f : ℕ) (cs : List (Cell S V)) → length cs ≤ f → idxs (reverse_runs f cs) ≡ idxs cs
  unfolding reverse_runs
  idxs-reverse_runs zero [] h = refl
  idxs-reverse_runs zero (c ∷ cs) h = absurd (omega arith)
  idxs-reverse_runs (suc f) [] h = refl
  idxs-reverse_runs (suc f) (c ∷ cs) h =
      let r : ℕ = c.run_idx in
      let block : List (Cell S V) = front r (c ∷ cs) in
      let after : List (Cell S V) = rest r (c ∷ cs) in
      idxs (reverse block ++ reverse_runs f after)
      ≡⟨ map-append _ (reverse block) (reverse_runs f after) ⟩
        idxs (reverse block) ++ idxs (reverse_runs f after)
      ≡⟨ ap₂ (λ x y. x ++ y)
          (idxs_of_InRun r _ _ (reverse-InRun r block (front-InRun r (c ∷ cs)))
            (front-InRun r (c ∷ cs)) (length-reverse block))
          (idxs-reverse_runs f after (omega (arith, length-rest_self c cs))) ⟩
        idxs block ++ idxs after
      ≡⟨ sym (map-append _ block after) ⟩ idxs (block ++ after)
      ≡⟨ ap idxs (front-append-rest r (c ∷ cs)) ⟩ idxs (c ∷ cs) ∎

  Leaves-idxs : (r : ℕ) (xs ys : List (Cell S V)) → idxs xs ≡ idxs ys → Leaves r ys → Leaves r xs
  Leaves-idxs r [] ys e l = tt
  Leaves-idxs r (x ∷ xs) [] e l = cc
  Leaves-idxs r (x ∷ xs) (y ∷ ys) e l = ground arith

  front-nonempty : (c : Cell S V) (cs : List (Cell S V)) → 0 < length (front c.run_idx (c ∷ cs))
  unfolding front
  front-nonempty c cs = ground arith

  reverse_runs-cons :
      (f : ℕ) (c : Cell S V) (cs : List (Cell S V))
      → reverse_runs (suc f) (c ∷ cs)
        ≡ reverse (front c.run_idx (c ∷ cs)) ++ reverse_runs f (rest c.run_idx (c ∷ cs))
  unfolding reverse_runs
  reverse_runs-cons f c cs = refl

  -- One round: a maximal block of one run is reversed, and the walk goes on behind it.
  reverse_runs-block :
      (f r : ℕ) (block after : List (Cell S V))
      → 0 < length block
      → InRun r block
      → Leaves r after
      → reverse_runs (suc f) (block ++ after) ≡ reverse block ++ reverse_runs f after
  unfolding reverse_runs
  reverse_runs-block f r [] after h b l = absurd (omega arith)
  reverse_runs-block f r (c ∷ block) after h b l =
      let same : r ≡ c.run_idx = sym b.0 in
      let b' : InRun c.run_idx (c ∷ block) = subst (λ k. InRun k (c ∷ block)) same b in
      let l' : Leaves c.run_idx after = subst (λ k. Leaves k after) same l in
      ap₂ (λ x y. reverse x ++ reverse_runs f y) (front-block c.run_idx (c ∷ block) after b' l')
        (rest-block c.run_idx (c ∷ block) after b' l')

  reverse_runs-involutive :
      (f : ℕ) (cs : List (Cell S V)) → length cs ≤ f → reverse_runs f (reverse_runs f cs) ≡ cs
  reverse_runs-involutive zero [] h = unfold reverse_runs in refl
  reverse_runs-involutive zero (c ∷ cs) h = absurd (omega arith)
  reverse_runs-involutive (suc f) [] h = unfold reverse_runs in refl
  reverse_runs-involutive (suc f) (c ∷ cs) h =
      let r : ℕ = c.run_idx in
      let block : List (Cell S V) = front r (c ∷ cs) in
      let after : List (Cell S V) = rest r (c ∷ cs) in
      let fits : length after ≤ f = omega (arith, length-rest_self c cs) in
      let back : Leaves r (reverse_runs f after) =
        Leaves-idxs r _ after (idxs-reverse_runs f after fits) (rest-Leaves r (c ∷ cs)) in
      reverse_runs (suc f) (reverse_runs (suc f) (c ∷ cs))
      ≡⟨ ap (reverse_runs (suc f)) (reverse_runs-cons f c cs) ⟩
        reverse_runs (suc f) (reverse block ++ reverse_runs f after)
      ≡⟨ reverse_runs-block f r (reverse block) (reverse_runs f after)
          (omega (arith, length-reverse block, front-nonempty c cs))
          (reverse-InRun r block (front-InRun r (c ∷ cs))) back ⟩
        reverse (reverse block) ++ reverse_runs f (reverse_runs f after)
      ≡⟨ ap₂ (λ x y. x ++ y) (reverse-reverse block) (reverse_runs-involutive f after fits) ⟩
        block ++ after
      ≡⟨ front-append-rest r (c ∷ cs) ⟩ c ∷ cs ∎

  reverse_runs-perm : (f : ℕ) (cs : List (Cell S V)) → length cs ≤ f → Perm (reverse_runs f cs) cs
  unfolding reverse_runs
  reverse_runs-perm zero [] h = Perm.refl []
  reverse_runs-perm zero (c ∷ cs) h = absurd (omega arith)
  reverse_runs-perm (suc f) [] h = Perm.refl []
  reverse_runs-perm (suc f) (c ∷ cs) h =
      let r : ℕ = c.run_idx in
      let fits : length (rest r (c ∷ cs)) ≤ f = omega (arith, length-rest_self c cs) in
      rw (front-append-rest r (c ∷ cs)) at
        (Perm.append (reverse_perm (front r (c ∷ cs))) (reverse_runs-perm f (rest r (c ∷ cs)) fits))

  -- Fuel for as many rounds as there are cells is enough: more changes nothing.
  reverse_runs-fuel :
      (f g : ℕ) (cs : List (Cell S V))
      → length cs ≤ f
      → length cs ≤ g
      → reverse_runs f cs ≡ reverse_runs g cs
  unfolding reverse_runs
  reverse_runs-fuel zero zero cs hf hg = refl
  reverse_runs-fuel zero (suc g) [] hf hg = refl
  reverse_runs-fuel zero (suc g) (c ∷ cs) hf hg = absurd (omega arith)
  reverse_runs-fuel (suc f) zero [] hf hg = refl
  reverse_runs-fuel (suc f) zero (c ∷ cs) hf hg = absurd (omega arith)
  reverse_runs-fuel (suc f) (suc g) [] hf hg = refl
  reverse_runs-fuel (suc f) (suc g) (c ∷ cs) hf hg =
      ap (λ x. reverse (front c.run_idx (c ∷ cs)) ++ x)
        (reverse_runs-fuel f g (rest c.run_idx (c ∷ cs)) (omega (arith, length-rest_self c cs))
          (omega (arith, length-rest_self c cs)))

  length-reverse_runs :
      (f : ℕ) (cs : List (Cell S V)) → length cs ≤ f → length (reverse_runs f cs) ≡ length cs
  length-reverse_runs f cs h =
      let of_idxs : length (idxs (reverse_runs f cs)) ≡ length (idxs cs) =
        ap length (idxs-reverse_runs f cs h) in
      omega (
        arith,
        of_idxs,
        length-map cs (λ c. c.run_idx),
        length-map (reverse_runs f cs) (λ c. c.run_idx),
      )

  -- Reversing within runs only moves cells: the result is a permutation of the input in which
  -- every position still holds a cell of the run it held, and reversing once more gives back the
  -- input. This is for every list of cells, with equal run indices next to one another or not.
  pub reverse_within_runs_lem :
      (cs : List (Cell S V))
      → Perm (reverse_within_runs cs) cs
        × (idxs (reverse_within_runs cs) ≡ idxs cs)
        × (reverse_within_runs (reverse_within_runs cs) ≡ cs)
  unfolding reverse_within_runs
  reverse_within_runs_lem cs = (
    reverse_runs-perm (length cs) cs (omega arith),
    idxs-reverse_runs (length cs) cs (omega arith),
    rw (length-reverse_runs (length cs) cs (omega arith))
        (reverse_runs-involutive (length cs) cs (omega arith)),
  )

  -- A run's cells that stand together, with no cell of that run right behind them, come out last
  -- to first, and what stands behind them is treated on its own.
  pub reverse_within_runs-block :
      (r : ℕ) (block after : List (Cell S V))
      → 0 < length block
      → InRun r block
      → Leaves r after
      → reverse_within_runs (block ++ after) ≡ reverse block ++ reverse_within_runs after
  unfolding reverse_within_runs
  reverse_within_runs-block r [] after h b l = absurd (omega arith)
  reverse_within_runs-block r (c ∷ block) after h b l =
      reverse_runs-block (length (block ++ after)) r (c ∷ block) after h b l
      ∙ ap (λ x. reverse (c ∷ block) ++ x)
          (reverse_runs-fuel (length (block ++ after)) (length after) after
            (omega (arith, length-append block after)) (omega arith))
