-- ===== src/Validation/FanIn/Whole.antt =====
-- What the merged output is made of: whole lines, each source's in their order.
pub mod Invariant
pub mod Moves
pub mod Steps
use mathlib.Core.Path.{subst}
use probatorium.Base.{
  ℕ, ◌==◌, ==_iff, if◌then◌else◌, Bool, true, false, List, [], ◌∷◌, ◌++◌, ◌≡◌, ◌∙◌, sym, ap, refl,
  arith, append-nil, append_assoc, take, Bool-cases, inl, inr,
}
use probatorium.Validation.FanIn.{
  newline, ReadError, no_error, buffer_full, ended, Slice, Pc, reading, locking, writing,
  terminating, unlocking, failing, returned, Source, Shared, Answer, written, fails_after,
  ends_line, after_line, read_slice, write, write_line, lock, run_pc, System, update, advance, step,
  steps, start,
}

-- A line as it stands in the output, with a terminator where the source gave none.
pub whole_line : List ℕ → List ℕ
unfolding ends_line
whole_line l = if ends_line l then l else l ++ newline ∷ []

-- The output of a list of lines, each with the number of its source.
unfoldable pub merged : List (ℕ × List ℕ) → List ℕ
unfolding whole_line
merged [] = []
merged (r ∷ records) = whole_line r.1 ++ merged records

-- The lines of one source.
unfoldable pub lines_of : ℕ → List (ℕ × List ℕ) → List (List ℕ)
lines_of i [] = []
lines_of i (r ∷ records) = let rest = lines_of i records in if r.0 == i then r.1 ∷ rest else rest

-- The lines that the reads of a source gave, which are those that are not empty.
unfoldable pub lines : List Slice → List (List ℕ)
lines [] = []
lines (s ∷ slices) = elim s.line [ [] ↦ lines slices | b ∷ bs ↦ (b ∷ bs) ∷ lines slices ]

-- The line that a goroutine has read and not written whole.
unfoldable pub held : Pc → List (List ℕ)
held (locking s) = s.line ∷ []
held (writing s) = s.line ∷ []
held (terminating s) = s.line ∷ []
held pc = []

-- What of it stands in the output.
pub part : Pc → List ℕ
part (terminating s) = s.line
part pc = []

pub is_inside : Pc → Bool
is_inside (writing s) = true
is_inside (terminating s) = true
is_inside (unlocking e) = true
is_inside failing = true
is_inside pc = false

pub is_failing : Pc → Bool
is_failing failing = true
is_failing pc = false

-- The line that waits for its terminator has none.
pub Unended : Pc → Type 0
Unended (terminating s) = ends_line s.line ≡ false
Unended pc = Unit

merged-snoc :
    (records : List (ℕ × List ℕ)) (i : ℕ) (l : List ℕ)
    → merged (records ++ (i, l) ∷ []) ≡ merged records ++ whole_line l
unfolding merged
merged-snoc [] i l = append-nil (whole_line l)
merged-snoc (r ∷ records) i l =
    ap (λ bs. whole_line r.1 ++ bs) (merged-snoc records i l)
    ∙ sym (append_assoc (whole_line r.1) (merged records) (whole_line l))

lines_of-snoc :
    (j : ℕ) (records : List (ℕ × List ℕ)) (i : ℕ) (l : List ℕ)
    → lines_of j (records ++ (i, l) ∷ []) ≡ lines_of j records ++ (if i == j then l ∷ [] else [])
unfolding lines_of
lines_of-snoc j [] i l = ground arith
lines_of-snoc j (r ∷ records) i l = ground (arith, lines_of-snoc j records i l)

pub update-cases :
    (P : ℕ → Source → Type 0) (f : ℕ → Source) (i : ℕ) (s : Source)
    → P i s
    → ((j : ℕ) → (i == j) ≡ false → P j (f j))
    → (j : ℕ) → P j (update f i s j)
update-cases P f i s here there j = elim (Bool-cases (i == j)) [
  | inl e ↦ let q : i ≡ j = (==_iff i j).0 e in rw e (subst (λ k. P k s) q here)
  | inr e ↦ rw e (there j e)
]

pub failing-is_inside : (pc : Pc) → is_inside pc ≡ false → is_failing pc ≡ false
unfolding is_inside is_failing
failing-is_inside failing h = h
failing-is_inside reading h = refl
failing-is_inside (locking s) h = refl
failing-is_inside (writing s) h = refl
failing-is_inside (terminating s) h = refl
failing-is_inside (unlocking e) h = refl
failing-is_inside returned h = refl
