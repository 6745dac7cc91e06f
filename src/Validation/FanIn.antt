-- ===== src/Validation/FanIn.antt =====
-- validation/remote/fanin.go: several sources whose lines are merged into one output under a mutex,
-- each by a goroutine of its own. What `ReadSlice` of a source's reader answers is an input: pieces
-- of bytes, each with its error. A step is what one goroutine does between two points at which the
-- others may go on; the order of the steps is any, and so is what a write answers.
pub mod Whole
mod Tests
use probatorium.Base.{ℕ, ◌==◌, if◌then◌else◌, Bool, true, false, List, [], ◌∷◌, ◌++◌, take}

-- A byte.
abbrev pub newline : ℕ
newline = 10

-- The error of a read: none, that the line is longer than the buffer, or one that ends the source.
pub data ReadError : Type 0 where
  no_error : ReadError
  buffer_full : ReadError
  ended : ReadError

pub record Slice : Type 0 where
  pub line : List ℕ
  pub err : ReadError

-- Where a goroutine stands: before a read; before `mu.Lock`; with the mutex before the write of
-- the line, before that of the terminator, and before the deferred `mu.Unlock`, after writes that
-- worked or after one that failed; or returned.
pub data Pc : Type 0 where
  reading : Pc
  locking : Slice → Pc
  writing : Slice → Pc
  terminating : Slice → Pc
  unlocking : ReadError → Pc
  failing : Pc
  returned : Pc

pub record Source : Type 0 where
  pub pc : Pc
  pub unread : List Slice

-- The mutex and the output, and whether a write to it has failed.
pub record Shared : Type 0 where
  pub locked : Bool
  pub out : List ℕ
  pub broken : Bool

-- What a write answers: that all was written, or an error after some bytes.
pub data Answer : Type 0 where
  written : Answer
  fails_after : ℕ → Answer

unfoldable pub ends_line : List ℕ → Bool
ends_line [] = false
ends_line (b ∷ []) = b == newline
ends_line (b ∷ c ∷ bs) = ends_line (c ∷ bs)

-- The loop goes on after a line, and after the first part of a line too long for the buffer.
unfoldable pub after_line : ReadError → Pc
after_line no_error = reading
after_line buffer_full = reading
after_line ended = returned

unfoldable pub read_slice : Slice → Pc
unfolding after_line
read_slice s = elim s.line [ [] ↦ after_line s.err | b ∷ bs ↦ locking s ]

-- A write to the output, and what comes after it when it worked.
unfoldable pub write : List ℕ → Answer → Pc → Shared → Pc × Shared
write bs written next sh = (next, record sh { out = sh.out ++ bs })
write bs (fails_after n) next sh = (failing, record sh { out = sh.out ++ take n bs; broken = true })

unfoldable pub write_line : Slice → Answer → Shared → Pc × Shared
unfolding write ends_line
write_line s answer sh =
    write s.line answer (if ends_line s.line then unlocking s.err else terminating s) sh

-- A goroutine that waits for the mutex stays where it is while another has it.
unfoldable pub lock : Slice → Shared → Pc × Shared
lock s sh = if sh.locked then (locking s, sh) else (writing s, record sh { locked = true })

-- One step of a goroutine that does not read.
unfoldable pub run_pc : Pc → Answer → Shared → Pc × Shared
unfolding lock write_line write after_line
run_pc reading answer sh = (reading, sh)
run_pc (locking s) answer sh = lock s sh
run_pc (writing s) answer sh = write_line s answer sh
run_pc (terminating s) answer sh = write (newline ∷ []) answer (unlocking s.err) sh
run_pc (unlocking e) answer sh = (after_line e, record sh { locked = false })
run_pc failing answer sh = (returned, record sh { locked = false })
run_pc returned answer sh = (returned, sh)

-- The sources by their number; there are as many as are asked for.
pub record System : Type 0 where
  pub shared : Shared
  pub source : ℕ → Source

abbrev pub update : (ℕ → Source) → ℕ → Source → ℕ → Source
update f i s j = if i == j then s else f j

-- One step of a goroutine; before a read it waits until its reader has an answer.
unfoldable pub advance : Pc → List Slice → Answer → Shared → Source × Shared
unfolding read_slice run_pc
advance reading [] answer sh = (record { pc = reading; unread = [] }, sh)
advance reading (s ∷ unread) answer sh = (record { pc = read_slice s; unread = unread }, sh)
advance pc unread answer sh =
    let r = run_pc pc answer sh in (record { pc = r.0; unread = unread }, r.1)

unfoldable pub step : ℕ → Answer → System → System
unfolding advance
step i answer sys =
    let s = sys.source i in
    let r = advance s.pc s.unread answer sys.shared in
    record { shared = r.1; source = update sys.source i r.0 }

-- An interleaving of such steps.
unfoldable pub steps : List (ℕ × Answer) → System → System
unfolding step
steps [] sys = sys
steps ((i, answer) ∷ moves) sys = steps moves (step i answer sys)

unfoldable pub start : (ℕ → List Slice) → System
start input = record {
  shared = record { locked = false; out = []; broken = false };
  source = λ i. record { pc = reading; unread = input i };
}
