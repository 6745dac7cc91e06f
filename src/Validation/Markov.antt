-- ===== src/Validation/Markov.antt =====
-- validation/markov/model.go: the chain that drives a session over a transition matrix. The weights
-- are float64 there; here they are any type with the operations that the code uses, and the random
-- source is a sequence of draws, of which a chain counts those that it took. Of a matrix only what
-- the chain and its validation read is modelled.
pub mod Walks
pub mod Ends
mod Tests
use text.Mathlib.Text.{◌==◌ as str_eq}
use probatorium.Base.{
  ℕ, zero, suc, ◌+◌, if◌then◌else◌, ◌||◌, not, Bool, true, false, List, [], ◌∷◌, String, Option,
  none, some, is_nil,
}

pub record Weights (W : Type 0) : Type 0 where
  pub zero_weight : W
  pub add : W → W → W
  pub times : W → W → W
  pub is_positive : W → Bool
  pub is_le_zero : W → Bool
  pub less : W → W → Bool

pub record Edge (W : Type 0) : Type 0 where
  pub to : String
  pub weight : W

pub record Matrix (W : Type 0) : Type 0 where
  pub start : String
  pub states : List String
  pub transitions : List (String × List (Edge W))

pub record Chain : Type 0 where
  pub current : String
  pub steps_taken : ℕ
  pub draws : ℕ

pub is_known : String → List String → Bool
is_known s [] = false
is_known s (x ∷ xs) = str_eq x s || is_known s xs

pub or_else : Option String → Option String → Option String
or_else none other = other
or_else (some s) other = some s

pub move : Option String → Chain → Chain × Option String
move none c = (c, none)
move (some s) c = (record c { current = s; steps_taken = c.steps_taken + 1 }, some s)

-- A round of `Walk`, on what `Next` returned and on the rounds behind it.
pub collect : Chain → Option String → Chain × List String → Chain × List String
collect moved none further = (moved, [])
collect moved (some s) further = (further.0, s ∷ further.1)

module _ {W : Type 0} where
  pub row_of : String → List (String × List (Edge W)) → Option (List (Edge W))
  row_of s [] = none
  row_of s (row ∷ rows) = let later = row_of s rows in if str_eq row.0 s then some row.1 else later

  pub are_known : List (Edge W) → List String → Bool
  unfolding is_known
  are_known [] states = true
  are_known (e ∷ edges) states =
      if not (is_known e.to states) then false else are_known edges states

  pub validate_rows : List (String × List (Edge W)) → List String → Bool
  unfolding are_known
  validate_rows [] states = true
  validate_rows (row ∷ rows) states =
      if not (are_known row.1 states) then false else validate_rows rows states

  -- Whether `validate` returns no error.
  pub validate : Matrix W → Bool
  unfolding validate_rows
  validate m = validate_rows m.transitions m.states

  pub new_chain : Matrix W → Chain
  new_chain m = record { current = m.start; steps_taken = 0; draws = 0 }

  module _ (w : Weights W) where
    pub total_of : List (Edge W) → W → W
    total_of [] total = total
    total_of (e ∷ edges) total =
        total_of edges (if w.is_positive e.weight then w.add total e.weight else total)

    -- The walk along the cumulative distribution.
    pub pick_edge : W → W → List (Edge W) → Option String
    pick_edge pick cum [] = none
    pick_edge pick cum (e ∷ edges) =
        let skipped = pick_edge pick cum edges in
        let further = pick_edge pick (w.add cum e.weight) edges in
        if not (w.is_positive e.weight)
        then skipped
        else if w.less pick (w.add cum e.weight)
        then some e.to
        else further

    pub last_positive : List (Edge W) → Option String
    unfolding or_else
    last_positive [] = none
    last_positive (e ∷ edges) =
        or_else (last_positive edges) (if w.is_positive e.weight then some e.to else none)

    -- The state to move to: the one that the pick falls on, or the last that can be reached.
    pub choose : W → List (Edge W) → Option String
    unfolding pick_edge last_positive or_else
    choose pick edges = or_else (pick_edge pick w.zero_weight edges) (last_positive edges)

  module _ (w : Weights W) (draw : ℕ → W) where
    pub next_from : Option (List (Edge W)) → Chain → Chain × Option String
    unfolding total_of choose move
    next_from none c = (c, none)
    next_from (some edges) c =
        let total = total_of w edges w.zero_weight in
        let pick = w.times (draw c.draws) total in
        if is_nil edges
        then (c, none)
        else if w.is_le_zero total
        then (c, none)
        else move (choose w pick edges) (record c { draws = c.draws + 1 })

    -- `Next`: the state that the chain moved to, or none.
    pub next : Matrix W → Chain → Chain × Option String
    unfolding row_of next_from
    next m c = next_from (row_of c.current m.transitions) c

    -- `Walk`: the chain at its end and the states that the callback was called on, as many as the
    -- number that is returned.
    pub walk : Matrix W → ℕ → Chain → Chain × List String
    unfolding next collect
    walk m zero c = (c, [])
    walk m (suc n) c = let moved = next m c in collect moved.0 moved.1 (walk m n moved.0)
