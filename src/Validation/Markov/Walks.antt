-- ===== src/Validation/Markov/Walks.antt =====
-- validation/markov/model.go: where a chain goes.
use mathlib.Core.Path.{subst}
use text.Mathlib.Text.{◌==◌ as str_eq}
use text.Mathlib.TextEquality.{eq_iff}
use probatorium.Base.{
  ℕ, zero, suc, ◌+◌, ◌≤◌, if◌then◌else◌, ◌||◌, ◌&&◌, Bool, true, false, List, [], ◌∷◌, String,
  Option, none, some, is_nil, length, ◌≡◌, refl, sym, Bool-cases, inl, inr, arith,
}
use probatorium.Validation.Markov.{
  Weights, Edge, Matrix, Chain, row_of, or_else, total_of, pick_edge, last_positive, choose, move,
  next_from, next, walk, collect,
}

-- The row has an edge of a positive weight to `t`; it has one at all.
module _ {W : Type 0} (w : Weights W) where
  abbrev pub has_edge : String → List (Edge W) → Bool
  has_edge t [] = false
  has_edge t (e ∷ edges) = w.is_positive e.weight && str_eq e.to t || has_edge t edges

  abbrev pub has_positive : List (Edge W) → Bool
  has_positive [] = false
  has_positive (e ∷ edges) = w.is_positive e.weight || has_positive edges

  abbrev pub row : Option (List (Edge W)) → List (Edge W)
  row none = []
  row (some edges) = edges

  abbrev IsEdge : List (Edge W) → Option String → Type 0
  IsEdge edges none = Unit
  IsEdge edges (some t) = has_edge t edges ≡ true

  IsEdge-later :
      (e : Edge W) (edges : List (Edge W)) (o : Option String)
      → IsEdge edges o
      → IsEdge (e ∷ edges) o
  IsEdge-later e edges none h = tt
  IsEdge-later e edges (some t) h = ground (arith, h)

  IsEdge-first :
      (e : Edge W) (edges : List (Edge W))
      → w.is_positive e.weight ≡ true
      → IsEdge (e ∷ edges) (some e.to)
  IsEdge-first e edges h = let same = (eq_iff e.to e.to).1 refl in ground (arith, h, same)

  IsEdge-or_else :
      (edges : List (Edge W)) (o o' : Option String)
      → IsEdge edges o
      → IsEdge edges o'
      → IsEdge edges (or_else o o')
  unfolding or_else
  IsEdge-or_else edges none o' h h' = h'
  IsEdge-or_else edges (some t) o' h h' = h

  pick_edge-IsEdge :
      (pick cum : W) (edges : List (Edge W)) → IsEdge edges (pick_edge w pick cum edges)
  unfolding pick_edge
  pick_edge-IsEdge pick cum [] = tt
  pick_edge-IsEdge pick cum (e ∷ edges) = elim (Bool-cases (w.is_positive e.weight)) [
    | inl h ↦ elim (Bool-cases (w.less pick (w.add cum e.weight))) [
      | inl k ↦ let first = IsEdge-first e edges h in rw h (rw k first)
      | inr k ↦
          let later = IsEdge-later e edges _ (pick_edge-IsEdge pick (w.add cum e.weight) edges) in
          rw h (rw k later)
    ]
    | inr h ↦ let later = IsEdge-later e edges _ (pick_edge-IsEdge pick cum edges) in rw h later
  ]

  last_positive-IsEdge : (edges : List (Edge W)) → IsEdge edges (last_positive w edges)
  unfolding last_positive
  last_positive-IsEdge [] = tt
  last_positive-IsEdge (e ∷ edges) =
      IsEdge-or_else (e ∷ edges) (last_positive w edges)
        (if w.is_positive e.weight then some e.to else none)
        (IsEdge-later e edges _ (last_positive-IsEdge edges))
        (elim (Bool-cases (w.is_positive e.weight)) [
          | inl h ↦ rw h (IsEdge-first e edges h)
          | inr h ↦ rw h tt
        ])

  choose-IsEdge : (pick : W) (edges : List (Edge W)) → IsEdge edges (choose w pick edges)
  unfolding choose
  choose-IsEdge pick edges =
      IsEdge-or_else edges (pick_edge w pick w.zero_weight edges) (last_positive w edges)
        (pick_edge-IsEdge pick w.zero_weight edges) (last_positive-IsEdge edges)

  -- A step of a chain at a row: the chain stays where it is, or it moves along an edge.
  abbrev pub Moves : List (Edge W) → Chain → Chain × Option String → Type 0
  Moves edges c (c', none) = (c'.current ≡ c.current) × (c'.steps_taken ≡ c.steps_taken)
  Moves edges c (c', some t) =
      (c'.current ≡ t) × (c'.steps_taken ≡ c.steps_taken + 1) × (has_edge t edges ≡ true)

  move-Moves :
      (edges : List (Edge W)) (o : Option String) (c : Chain) (draws : ℕ)
      → IsEdge edges o
      → Moves edges c (move o (record c { draws = draws }))
  unfolding move
  move-Moves edges none c draws h = (refl, refl)
  move-Moves edges (some t) c draws h = (refl, refl, h)

  pub next_from-Moves :
      (draw : ℕ → W) (o : Option (List (Edge W))) (c : Chain)
      → Moves (row o) c (next_from w draw o c)
  unfolding next_from
  next_from-Moves draw none c = (refl, refl)
  next_from-Moves draw (some edges) c =
      let total = total_of w edges w.zero_weight in
      elim (Bool-cases (is_nil edges)) [
        | inl h ↦ rw h (refl, refl)
        | inr h ↦ elim (Bool-cases (w.is_le_zero total)) [
          | inl k ↦ rw h (rw k (refl, refl))
          | inr k ↦ rw h (
              rw k (
                move-Moves edges _ c (c.draws + 1)
                  (choose-IsEdge (w.times (draw c.draws) total) edges)))
        ]
      ]

  module _ (draw : ℕ → W) (m : Matrix W) where
    -- A path along edges of positive weight.
    abbrev pub IsPath : String → List String → String → Type 0
    IsPath s [] end = s ≡ end
    IsPath s (t ∷ ts) end = (has_edge t (row (row_of s m.transitions)) ≡ true) × IsPath t ts end

    abbrev pub Walked : ℕ → Chain → Chain × List String → Type 0
    Walked n c (end, visited) =
        IsPath c.current visited end.current
        × (end.steps_taken ≡ c.steps_taken + length visited)
        × (length visited ≤ n)

    collect-Walked :
        (n : ℕ) (c moved : Chain) (o : Option String) (further : Chain × List String)
        → Moves (row (row_of c.current m.transitions)) c (moved, o)
        → Walked n moved further
        → Walked (suc n) c (collect moved o further)
    unfolding collect
    collect-Walked n c moved none further h k = (sym h.0, omega (arith, h.1), omega arith)
    collect-Walked n c moved (some t) further h k = (
      (h.2, subst (λ q. IsPath q further.1 further.0.current) h.0 k.0),
      omega (arith, h.1, k.1),
      omega (arith, k.2),
    )

    -- A walk of `n` steps visits a path of the matrix, from the state where the chain stands to the
    -- one where it stands at the end, along edges of positive weight, whatever is drawn; it visits
    -- at most `n` states, and the chain's count of steps grows by their number.
    pub walk-Walked : (n : ℕ) (c : Chain) → Walked n c (walk w draw m n c)
    unfolding walk next
    walk-Walked zero c = (refl, omega arith, omega arith)
    walk-Walked (suc n) c =
        let moved = next w draw m c in
        collect-Walked n c moved.0 moved.1 (walk w draw m n moved.0)
          (next_from-Moves draw (row_of c.current m.transitions) c) (walk-Walked n moved.0)
