-- ===== src/Runner/ClientLock/Held.antt =====
-- What a runner holds when `acquire` ends.
use probatorium.Base.{
  ℕ, zero, suc, Bool, true, false, Option, none, some, ◌≡◌, ◌∙◌, Bool-cases, inl, inr,
}
use probatorium.Runner.ClientLock.{
  ClientLock, Calls, Flock, flock_error, locked, busy, Acquired, no_lock, holds, fails, endless,
  Waited, got, ended, poll_flock, past_limit, check_file, try_file, acquire_from, acquire, needs,
  replaced,
}

-- What the runner has of the lock: no file, an open file, or an open file with the lock on it.
pub data Mode (F : Type 0) : Type 0 where
  free : Mode F
  opened locked_on : (file : F) → Mode F

abbrev pub mode_after : {F : Type 0} → F → Flock → Mode F
mode_after f flock_error = opened f
mode_after f locked = locked_on f
mode_after f busy = opened f

abbrev pub mode_opened : {F : Type 0} → Option F → Mode F
mode_opened none = free
mode_opened (some f) = opened f

-- How the calls change what the runner has, as the system documents them.
pub record Documented {W : Type 0} {F : Type 0} (calls : Calls W F) (mode : W → Mode F)
    : Type 0 where
  pub opens :
      (w : W) → mode w ≡ free → mode (calls.open_file w).1 ≡ mode_opened (calls.open_file w).0
  pub flocks :
      (f : F) (w : W)
      → mode w ≡ opened f
      → mode (calls.try_flock f w).1 ≡ mode_after f (calls.try_flock f w).0
  pub looks : (f : F) (w : W) → mode (calls.same_file f w).1 ≡ mode w
  pub waits : (n : ℕ) (w : W) → mode (calls.wait n w).1 ≡ mode w
  pub unlocks : (f : F) (w : W) → mode w ≡ locked_on f → mode (calls.unlock f w) ≡ opened f
  pub closes : (f : F) (w : W) → mode w ≡ opened f → mode (calls.close f w) ≡ free

module _ {W F : Type 0} (calls : Calls W F) (mode : W → Mode F) (l : ClientLock)
    (laws : Documented calls mode) where
  -- With the lock, the runner holds it on the file it returns; with anything else but an unended
  -- wait it has no file open.
  abbrev pub Fits : Acquired F → W → Type 0
  Fits no_lock w = mode w ≡ free
  Fits (holds f contended) w = mode w ≡ locked_on f
  Fits (fails failure) w = mode w ≡ free
  Fits endless w = Unit

  abbrev FitsWait : F → Waited calls l → Type 0
  FitsWait f (got contended w) = mode w ≡ locked_on f
  FitsWait f (ended result w) = Fits result w

  poll_flock-Fits :
      (polls start : ℕ) (f : F) (flock : Flock) (contended : Bool) (w : W)
      → mode w ≡ mode_after f flock
      → FitsWait f (poll_flock calls l polls start f flock contended w)
  unfolding poll_flock
  poll_flock-Fits polls start f flock_error contended w h = laws.closes f w h
  poll_flock-Fits polls start f locked contended w h = h
  poll_flock-Fits zero start f busy contended w h = tt
  poll_flock-Fits (suc polls) start f busy contended w h =
      let w1 = (calls.wait l.poll w).1 in
      let waited = laws.waits l.poll w ∙ h in
      let k = laws.flocks f w1 waited in
      let rest =
        poll_flock-Fits polls start f (calls.try_flock f w1).0 true (calls.try_flock f w1).1 k in
      elim (Bool-cases (past_limit calls l start w)) [
        | inl a ↦ rw a (laws.closes f w h)
        | inr a ↦ elim (Bool-cases (calls.wait l.poll w).0) [
          | inl b ↦ rw a (rw b (laws.closes f w1 waited))
          | inr b ↦ rw a (rw b rest)
        ]
      ]

  check_file-Fits :
      (again : Bool → W → Acquired F × W) (f : F) (waited : Waited calls l)
      → ((c : Bool) (w : W) → mode w ≡ free → Fits (again c w).0 (again c w).1)
      → FitsWait f waited
      → let r = check_file calls l again f waited in Fits r.0 r.1
  unfolding check_file
  check_file-Fits again f (ended result w) next h = h
  check_file-Fits again f (got contended w) next h =
      let w1 = (calls.same_file f w).1 in
      let seen = laws.looks f w ∙ h in
      elim (Bool-cases (calls.same_file f w).0) [
        | inl a ↦ rw a seen
        | inr a ↦ rw a (
            next contended (calls.close f (calls.unlock f w1))
              (laws.closes f (calls.unlock f w1) (laws.unlocks f w1 seen)))
      ]

  try_file-Fits :
      (again : Bool → W → Acquired F × W) (polls start : ℕ) (contended : Bool) (f : Option F)
      (w : W)
      → ((c : Bool) (v : W) → mode v ≡ free → Fits (again c v).0 (again c v).1)
      → mode w ≡ mode_opened f
      → let r = try_file calls l again polls start contended f w in Fits r.0 r.1
  unfolding try_file
  try_file-Fits again polls start contended none w next h = h
  try_file-Fits again polls start contended (some f) w next h =
      let w1 = (calls.try_flock f w).1 in
      check_file-Fits again f
        (poll_flock calls l polls start f (calls.try_flock f w).0 contended w1) next
        (poll_flock-Fits polls start f (calls.try_flock f w).0 contended w1 (laws.flocks f w h))

  acquire_from-Fits :
      (left polls start : ℕ) (contended : Bool) (w : W)
      → mode w ≡ free
      → let r = acquire_from calls l left polls start contended w in Fits r.0 r.1
  unfolding acquire_from
  acquire_from-Fits zero polls start contended w h =
      try_file-Fits (λ c v. (fails replaced, v)) polls start contended (calls.open_file w).0
        (calls.open_file w).1 (λ c v k. k) (laws.opens w h)
  acquire_from-Fits (suc left) polls start contended w h =
      try_file-Fits (λ c v. acquire_from calls l left polls start c v) polls start contended
        (calls.open_file w).0 (calls.open_file w).1
        (λ c v k. acquire_from-Fits left polls start c v k) (laws.opens w h)

  -- Provided that the system's calls do as documented and that the runner has no file of the lock
  -- open: when `acquire` ends with the lock, the runner holds it on the file it returns; when it
  -- ends with an error, or without a need for the lock, the runner has no file open and no lock.
  pub acquire-Fits :
      (polls : ℕ) (is_heavy : Bool) (w : W)
      → mode w ≡ free
      → let r = acquire calls l polls is_heavy w in Fits r.0 r.1
  unfolding acquire
  acquire-Fits polls is_heavy w h = elim (Bool-cases (needs l is_heavy)) [
    | inl a ↦ rw a (acquire_from-Fits 5 polls (calls.now w) false w h)
    | inr a ↦ rw a h
  ]
