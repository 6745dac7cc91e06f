-- ===== src/Runner/ClientLock/Waits.antt =====
-- A wait for the client lock that has a limit comes to an end.
use native.Mathlib.Nat.{suc-mul}
use probatorium.Base.{
  ℕ, zero, suc, ◌+◌, ◌*◌, ◌≤◌, ◌<◌, ltb, leb, ◌&&◌, Bool, true, false, Option, none, some, ◌≡◌,
  refl, Bool-cases, inl, inr, arith,
}
use probatorium.Runner.ClientLock.{
  ClientLock, Calls, Flock, flock_error, locked, busy, Acquired, no_lock, holds, fails, endless,
  Waited, got, ended, poll_flock, past_limit, check_file, try_file, acquire_from, acquire, needs,
  replaced,
}

-- The clock never goes back, and a wait that the context does not end takes its time.
pub record Clock {W : Type 0} {F : Type 0} (calls : Calls W F) : Type 0 where
  pub opens : (w : W) → calls.now w ≤ calls.now (calls.open_file w).1
  pub flocks : (f : F) (w : W) → calls.now w ≤ calls.now (calls.try_flock f w).1
  pub looks : (f : F) (w : W) → calls.now w ≤ calls.now (calls.same_file f w).1
  pub unlocks : (f : F) (w : W) → calls.now w ≤ calls.now (calls.unlock f w)
  pub closes : (f : F) (w : W) → calls.now w ≤ calls.now (calls.close f w)
  pub waits :
      (n : ℕ) (w : W) → (calls.wait n w).0 ≡ false → calls.now w + n ≤ calls.now (calls.wait n w).1

abbrev pub is_endless : {F : Type 0} → Acquired F → Bool
is_endless no_lock = false
is_endless (holds f contended) = false
is_endless (fails failure) = false
is_endless endless = true

module _ {W F : Type 0} (calls : Calls W F) (l : ClientLock) (clock : Clock calls)
    (limited : 0 < l.max_wait) (start : ℕ) where
  -- A wait ends with a lock no earlier than it began, or it ends `acquire`.
  abbrev Ends : W → Waited calls l → Type 0
  Ends w (got contended v) = calls.now w ≤ calls.now v
  Ends w (ended result v) = is_endless result ≡ false

  Ends-later :
      (w v : W) (waited : Waited calls l)
      → calls.now w ≤ calls.now v
      → Ends v waited
      → Ends w waited
  Ends-later w v (got contended u) h e = omega (arith, h, e)
  Ends-later w v (ended result u) h e = e

  poll_flock-Ends :
      (k : ℕ) (f : F) (flock : Flock) (contended : Bool) (w : W)
      → start + l.max_wait ≤ calls.now w + k * l.poll
      → Ends w (poll_flock calls l (suc k) start f flock contended w)
  unfolding poll_flock past_limit
  poll_flock-Ends k f flock_error contended w h = refl
  poll_flock-Ends k f locked contended w h = omega arith
  poll_flock-Ends zero f busy contended w h =
      let a : (ltb 0 l.max_wait && leb (start + l.max_wait) (calls.now w)) ≡ true = ground arith in
      rw a refl
  poll_flock-Ends (suc k) f busy contended w h =
      let w1 = (calls.wait l.poll w).1 in
      let w2 = (calls.try_flock f w1).1 in
      let t = suc-mul k l.poll in
      elim (Bool-cases (past_limit calls l start w)) [
        | inl a ↦ rw a refl
        | inr a ↦ elim (Bool-cases (calls.wait l.poll w).0) [
          | inl b ↦ rw a (rw b refl)
          | inr b ↦
              let waited = clock.waits l.poll w b in
              let tried = clock.flocks f w1 in
              rw a (
                rw b (
                  Ends-later w w2
                    (poll_flock calls l (suc k) start f (calls.try_flock f w1).0 true w2)
                    (omega (arith, waited, tried))
                    (poll_flock-Ends k f (calls.try_flock f w1).0 true w2
                      (omega (arith, waited, tried, h, t)))))
        ]
      ]

  -- Each later round of the outer loop ends, too.
  abbrev Finite : (Bool → W → Acquired F × W) → Type 0
  Finite again = (c : Bool) (v : W) → start ≤ calls.now v → is_endless (again c v).0 ≡ false

  check_file-ends :
      (again : Bool → W → Acquired F × W) (f : F) (w : W) (waited : Waited calls l)
      → Finite again
      → start ≤ calls.now w
      → Ends w waited
      → is_endless (check_file calls l again f waited).0 ≡ false
  unfolding check_file
  check_file-ends again f w (ended result v) next h e = e
  check_file-ends again f w (got contended v) next h e =
      let v1 = (calls.same_file f v).1 in
      let v2 = calls.unlock f v1 in
      let a = clock.looks f v in
      let b = clock.unlocks f v1 in
      let d = clock.closes f v2 in
      elim (Bool-cases (calls.same_file f v).0) [
        | inl s ↦ rw s refl
        | inr s ↦ rw s (next contended (calls.close f v2) (omega (arith, a, b, d, e, h)))
      ]

  module _ (k : ℕ) (enough : l.max_wait ≤ k * l.poll) where
    try_file-ends :
        (again : Bool → W → Acquired F × W) (contended : Bool) (f : Option F) (w : W)
        → Finite again
        → start ≤ calls.now w
        → is_endless (try_file calls l again (suc k) start contended f w).0 ≡ false
    unfolding try_file
    try_file-ends again contended none w next h = refl
    try_file-ends again contended (some f) w next h =
        let w1 = (calls.try_flock f w).1 in
        let flock = (calls.try_flock f w).0 in
        let a = clock.flocks f w in
        check_file-ends again f w1 (poll_flock calls l (suc k) start f flock contended w1) next
          (omega (arith, a, h))
          (poll_flock-Ends k f flock contended w1 (omega (arith, a, h, enough)))

    acquire_from-ends :
        (left : ℕ) (contended : Bool) (w : W)
        → start ≤ calls.now w
        → is_endless (acquire_from calls l left (suc k) start contended w).0 ≡ false
    unfolding acquire_from
    acquire_from-ends zero contended w h =
        let a = clock.opens w in
        try_file-ends (λ c v. (fails replaced, v)) contended (calls.open_file w).0
          (calls.open_file w).1 (λ c v g. refl) (omega (arith, a, h))
    acquire_from-ends (suc left) contended w h =
        let a = clock.opens w in
        try_file-ends (λ c v. acquire_from calls l left (suc k) start c v) contended
          (calls.open_file w).0 (calls.open_file w).1 (λ c v g. acquire_from-ends left c v g)
          (omega (arith, a, h))

-- Provided that the clock never goes back, that a wait which the context does not end takes its
-- time, and that there is a limit on the wait: `acquire` comes to an end within as many polls as
-- fill the limit, and one more, on each of its at most six files.
pub acquire-ends :
    {W : Type 0} {F : Type 0} (calls : Calls W F) (l : ClientLock) (k : ℕ) (is_heavy : Bool) (w : W)
    → Clock calls
    → 0 < l.max_wait
    → l.max_wait ≤ k * l.poll
    → is_endless (acquire calls l (suc k) is_heavy w).0 ≡ false
unfolding acquire
acquire-ends calls l k is_heavy w clock limited enough = elim (Bool-cases (needs l is_heavy)) [
  | inl a ↦
      rw a (acquire_from-ends calls l clock limited (calls.now w) k enough 5 false w (omega arith))
  | inr a ↦ rw a refl
]
