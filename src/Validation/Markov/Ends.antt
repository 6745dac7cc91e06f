-- ===== src/Validation/Markov/Ends.antt =====
-- validation/markov/model.go: when a chain stops, and the states that it can reach.
use text.Mathlib.Text.{◌==◌ as str_eq}
use text.Mathlib.TextEquality.{eq_iff}
use mathlib.Core.Path.{subst}
use probatorium.Base.{
  ℕ, zero, suc, if◌then◌else◌, ◌||◌, not, Bool, true, false, List, [], ◌∷◌, String, All, Option,
  none, some, length, ◌≡◌, refl, sym, ◌⊎◌, Bool-cases, inl, inr, arith,
}
use probatorium.Validation.Markov.{
  Weights, Edge, Matrix, Chain, row_of, is_known, are_known, validate_rows, validate, or_else,
  total_of, pick_edge, last_positive, choose, move, next_from, next, walk, collect,
}
use probatorium.Validation.Markov.Walks.{
  has_edge, has_positive, row, Moves, next_from-Moves, IsPath, walk-Walked,
}

module _ {W : Type 0} (w : Weights W) where
  edge-is_known :
      (t : String) (edges : List (Edge W)) (states : List String)
      → has_edge w t edges ≡ true
      → are_known edges states ≡ true
      → is_known t states ≡ true
  unfolding are_known
  edge-is_known t [] states h k = cc
  edge-is_known t (e ∷ edges) states h k = elim (Bool-cases (str_eq e.to t)) [
    | inl same ↦
        let at : e.to ≡ t = (eq_iff e.to t).0 same in
        subst (λ s. is_known s states ≡ true) at (ground (arith, k))
    | inr other ↦ edge-is_known t edges states (ground (arith, h, other)) (ground (arith, k))
  ]

  row-is_known :
      (s t : String) (rows : List (String × List (Edge W))) (states : List String)
      → has_edge w t (row w (row_of s rows)) ≡ true
      → validate_rows rows states ≡ true
      → is_known t states ≡ true
  unfolding row_of validate_rows
  row-is_known s t [] states h k = cc
  row-is_known s t (r ∷ rows) states h k =
      let Found : Bool → Type 0 =
        λ b. has_edge w t (row w (if b then some r.1 else row_of s rows)) ≡ true in
      elim (Bool-cases (str_eq r.0 s)) [
        | inl at ↦ edge-is_known t r.1 states (subst Found at h) (ground (arith, k))
        | inr off ↦ row-is_known s t rows states (subst Found off h) (ground (arith, k))
      ]

  path-is_known :
      (draw : ℕ → W) (m : Matrix W) (s : String) (visited : List String) (end : String)
      → validate m ≡ true
      → IsPath w draw m s visited end
      → All (λ t. is_known t m.states ≡ true) visited
  unfolding validate
  path-is_known draw m s [] end valid path = tt
  path-is_known draw m s (t ∷ ts) end valid path = (
    row-is_known s t m.transitions m.states path.0 valid,
    path-is_known draw m t ts end valid path.1,
  )

  -- In a matrix that validates, every state that a walk visits is a declared one, wherever the
  -- chain stands at first and whatever is drawn.
  pub walk-is_known :
      (draw : ℕ → W) (m : Matrix W) (n : ℕ) (c : Chain)
      → validate m ≡ true
      → All (λ t. is_known t m.states ≡ true) (walk w draw m n c).1
  walk-is_known draw m n c valid =
      path-is_known draw m c.current (walk w draw m n c).1 (walk w draw m n c).0.current valid
        (walk-Walked w draw m n c).0

  -- What a sum of weights keeps to: a positive weight on top of zero, or of a sum that is above zero,
  -- is above zero.
  abbrev pub Sums : Type 0
  Sums =
      (t x : W)
      → (t ≡ w.zero_weight) ⊎ (w.is_le_zero t ≡ false)
      → w.is_positive x ≡ true
      → w.is_le_zero (w.add t x) ≡ false

  total_of-positive :
      (edges : List (Edge W)) (t : W)
      → Sums
      → (t ≡ w.zero_weight) ⊎ (w.is_le_zero t ≡ false)
      → has_positive w edges || not (w.is_le_zero t) ≡ true
      → w.is_le_zero (total_of w edges t) ≡ false
  unfolding total_of
  total_of-positive [] t sums start h = ground (arith, h)
  total_of-positive (e ∷ edges) t sums start h = elim (Bool-cases (w.is_positive e.weight)) [
    | inl k ↦
        let above = sums t e.weight start k in
        let total =
          total_of-positive edges (w.add t e.weight) sums (inr above) (ground (arith, above)) in
        rw k total
    | inr k ↦ let total = total_of-positive edges t sums start (ground (arith, h, k)) in rw k total
  ]

  -- If there is no state to move to, the row has no positive edge.
  abbrev Stops : List (Edge W) → Option String → Type 0
  Stops edges none = has_positive w edges ≡ false
  Stops edges (some t) = Unit

  Stops-or_else :
      (edges : List (Edge W)) (o o' : Option String) → Stops edges o' → Stops edges (or_else o o')
  unfolding or_else
  Stops-or_else edges none o' h = h
  Stops-or_else edges (some t) o' h = tt

  Stops-last :
      (e : Edge W) (edges : List (Edge W)) (o : Option String)
      → Stops edges o
      → Stops (e ∷ edges) (or_else o (if w.is_positive e.weight then some e.to else none))
  unfolding or_else
  Stops-last e edges (some t) h = tt
  Stops-last e edges none h = elim (Bool-cases (w.is_positive e.weight)) [
    | inl k ↦ rw k tt
    | inr k ↦
        let none_here : has_positive w (e ∷ edges) ≡ false = ground (arith, h, k) in rw k none_here
  ]

  last_positive-Stops : (edges : List (Edge W)) → Stops edges (last_positive w edges)
  unfolding last_positive
  last_positive-Stops [] = refl
  last_positive-Stops (e ∷ edges) =
      Stops-last e edges (last_positive w edges) (last_positive-Stops edges)

  choose-Stops : (pick : W) (edges : List (Edge W)) → Stops edges (choose w pick edges)
  unfolding choose
  choose-Stops pick edges =
      Stops-or_else edges (pick_edge w pick w.zero_weight edges) (last_positive w edges)
        (last_positive-Stops edges)

  move-Stops :
      (edges : List (Edge W)) (o : Option String) (c : Chain)
      → Stops edges o
      → Stops edges (move o c).1
  unfolding move
  move-Stops edges none c h = h
  move-Stops edges (some t) c h = h

  next_from-Stops :
      (draw : ℕ → W) (o : Option (List (Edge W))) (c : Chain)
      → Sums
      → Stops (row w o) (next_from w draw o c).1
  unfolding next_from
  next_from-Stops draw none c sums = refl
  next_from-Stops draw (some []) c sums = refl
  next_from-Stops draw (some (e ∷ edges)) c sums =
      let total = total_of w (e ∷ edges) w.zero_weight in
      let above = total_of-positive (e ∷ edges) w.zero_weight sums (inl refl) in
      elim (Bool-cases (w.is_le_zero total)) [
        | inl k ↦
            let no_edge : has_positive w (e ∷ edges) ≡ false =
              elim (Bool-cases (has_positive w (e ∷ edges))) [
                | inl some_edge ↦ ground (arith, k, above (ground (arith, some_edge)))
                | inr no_edge ↦ no_edge
              ] in
            rw k no_edge
        | inr k ↦ rw k (move-Stops (e ∷ edges) _ _ (choose-Stops _ (e ∷ edges)))
      ]

  abbrev pub Ends : ℕ → Matrix W → Chain × List String → Type 0
  Ends n m (end, visited) =
      (length visited ≡ n) ⊎ (has_positive w (row w (row_of end.current m.transitions)) ≡ false)

  collect-Ends :
      (n : ℕ) (m : Matrix W) (c moved : Chain) (o : Option String) (further : Chain × List String)
      → Moves w (row w (row_of c.current m.transitions)) c (moved, o)
      → Stops (row w (row_of c.current m.transitions)) o
      → Ends n m further
      → Ends (suc n) m (collect moved o further)
  unfolding collect
  collect-Ends n m c moved none further kept stops h =
      inr (subst (λ s. has_positive w (row w (row_of s m.transitions)) ≡ false) (sym kept.0) stops)
  collect-Ends n m c moved (some t) further kept stops h = elim h [
    | inl all_taken ↦ inl (omega (arith, all_taken))
    | inr parked ↦ inr parked
  ]

  -- Provided that sums of weights above zero stay above zero: a walk of `n` steps visits `n` states,
  -- unless it ends at a state that has no edge of positive weight. The chain never stops short by
  -- the arithmetic of its sampling, whatever is drawn and however products and sums are rounded.
  pub walk-Ends :
      (draw : ℕ → W) (m : Matrix W) (n : ℕ) (c : Chain) → Sums → Ends n m (walk w draw m n c)
  unfolding walk next
  walk-Ends draw m zero c sums = inl refl
  walk-Ends draw m (suc n) c sums =
      let moved = next w draw m c in
      collect-Ends n m c moved.0 moved.1 (walk w draw m n moved.0)
        (next_from-Moves w draw (row_of c.current m.transitions) c)
        (next_from-Stops draw (row_of c.current m.transitions) c sums)
        (walk-Ends draw m n moved.0 sums)
