-- ===== src/Validation/Markov/Tests.antt =====
-- validation/markov/model.go: walks over a matrix of three states, with natural numbers as weights.
use probatorium.Base.{
  ℕ, zero, suc, ◌+◌, ◌*◌, ltb, leb, true, false, List, [], ◌∷◌, String, All, length, ◌≡◌, refl, ◌⊎◌,
  arith,
}
use probatorium.Validation.Markov.{
  Weights, Matrix, Chain, row_of, is_known, validate, new_chain, walk,
}
use probatorium.Validation.Markov.Walks.{has_positive, row}
use probatorium.Validation.Markov.Ends.{Sums, walk-is_known, walk-Ends}

abbrev counts : Weights ℕ
counts = record {
  zero_weight = 0;
  add = λ t x. t + x;
  times = λ d t. d * t;
  is_positive = λ x. ltb 0 x;
  is_le_zero = λ t. leb t 0;
  less = λ p c. ltb p c;
}

abbrev matrix : Matrix ℕ
matrix = record {
  start = "login";
  states = "done" ∷ "login" ∷ "read" ∷ [];
  transitions =
      ("done", [])
      ∷ ("login", record { to = "login"; weight = 0 } ∷ record { to = "read"; weight = 3 } ∷ [])
      ∷ ("read", record { to = "done"; weight = 1 } ∷ record { to = "login"; weight = 2 } ∷ [])
      ∷ [];
}

abbrev draw : ℕ → ℕ
draw zero = 0
draw (suc n) = 1

valid : validate matrix ≡ true
unfolding validate
valid = refl

walk_of_four :
    (walk counts draw matrix 4 (new_chain matrix)).1 ≡ "read" ∷ "login" ∷ "read" ∷ "login" ∷ []
unfolding walk new_chain
walk_of_four = refl

parked : (walk counts (λ n. 0) matrix 4 (new_chain matrix)).1 ≡ "read" ∷ "done" ∷ []
unfolding walk new_chain
parked = refl

counts-Sums : Sums counts
counts-Sums t x start positive = ground (arith, positive)

abbrev walked : Chain × List String
walked = walk counts draw matrix 4 (new_chain matrix)

walk-is_known_example : All (λ t. is_known t matrix.states ≡ true) walked.1
walk-is_known_example = walk-is_known counts draw matrix 4 (new_chain matrix) valid

walk-Ends_example :
    (length walked.1 ≡ 4)
    ⊎ (has_positive counts (row counts (row_of walked.0.current matrix.transitions)) ≡ false)
walk-Ends_example = walk-Ends counts draw matrix 4 (new_chain matrix) counts-Sums
