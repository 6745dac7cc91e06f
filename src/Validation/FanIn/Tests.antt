-- ===== src/Validation/FanIn/Tests.antt =====
-- Two sources whose steps alternate.
use probatorium.Base.{ℕ, zero, suc, ◌==◌, if◌then◌else◌, true, false, List, [], ◌∷◌, ◌≡◌, refl}
use probatorium.Validation.FanIn.{
  Slice, no_error, buffer_full, ended, Answer, written, fails_after, steps, start,
}
use probatorium.Validation.FanIn.Whole.Steps.{IsMerged, steps-IsMerged}

-- A line, and a last one with no terminator; a line too long for the buffer, in two parts.
abbrev input : ℕ → List Slice
input i =
    if i == 0
    then record { line = b'a' ∷ 10 ∷ []; err = no_error }
      ∷ record { line = b'b' ∷ []; err = ended }
      ∷ []
    else if i == 1
    then record { line = b'x' ∷ b'y' ∷ []; err = buffer_full }
      ∷ record { line = b'z' ∷ 10 ∷ []; err = no_error }
      ∷ []
    else []

-- The second source goes first in each round: it has the mutex while the first one waits.
abbrev rounds : ℕ → List (ℕ × Answer)
rounds zero = []
rounds (suc n) = (1, written) ∷ (0, written) ∷ rounds n

abbrev moves : List (ℕ × Answer)
moves = rounds 14

abbrev merged_bytes : List ℕ
merged_bytes = b'x' ∷ b'y' ∷ 10 ∷ b'a' ∷ 10 ∷ b'z' ∷ 10 ∷ b'b' ∷ 10 ∷ []

all_out : (steps moves (start input)).shared.out ≡ merged_bytes
unfolding steps start
all_out = refl

not_broken : (steps moves (start input)).shared.broken ≡ false
unfolding steps start
not_broken = refl

failed_write :
    (steps
      ((0, written) ∷ (0, written) ∷ (0, fails_after 1) ∷ (0, written) ∷ [])
      (start input)).shared
    ≡ record { locked = false; out = b'a' ∷ []; broken = true }
unfolding steps start
failed_write = refl

steps-IsMerged_example : IsMerged input (steps moves (start input))
steps-IsMerged_example = steps-IsMerged input moves not_broken
