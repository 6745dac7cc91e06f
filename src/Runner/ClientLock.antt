-- ===== src/Runner/ClientLock.antt =====
-- cmd/runner/clientlock.go: how a runner takes the host's client lock for a cell. The system is a
-- parameter: a type of worlds with the calls the code makes, each giving its answer and the world
-- behind it. Durations and the clock are natural numbers of nanoseconds. The messages, the file's
-- times and the watchdog of a held lock are left out.
pub mod Held
pub mod Waits
mod Tests
use text.Mathlib.Text.{◌==◌ as str_eq}
use probatorium.Report.Overlap.{exclusion_heavy, exclusion_all, exclusion_off}
use probatorium.Base.{
  ℕ, zero, suc, ◌+◌, ◌-◌, ◌*◌, ltb, leb, if◌then◌else◌, ◌||◌, ◌&&◌, not, Bool, true, false, List,
  String, Option, none, some, length,
}

pub record ClientLock : Type 0 where
  pub path : String
  pub policy : String
  pub poll : ℕ
  pub max_wait : ℕ
  pub max_hold : ℕ

pub record LockConfig : Type 0 where
  pub warmup : ℕ
  pub duration : ℕ
  pub rated_mode : Bool
  pub rated_fractions : ℕ
  pub rated_duration : ℕ

abbrev minute : ℕ
minute = 60000000000

-- The limits on holding and on waiting.
unfoldable pub client_lock_limits : LockConfig → ℕ × ℕ
client_lock_limits c =
    let cell = 5 * c.warmup + 2 * c.duration + minute in
    let rated = c.rated_fractions * (5 * c.warmup + 2 * c.rated_duration + minute) in
    let hold = (if c.rated_mode then cell + rated else cell) + minute in (hold, hold + 2 * minute)

-- No lock without a path; none stands for a flag that is refused.
unfoldable pub new_client_lock : String → String → Option ClientLock
new_client_lock path policy =
    if str_eq path ""
    then (if not (str_eq policy "") && not (str_eq policy exclusion_off)
        then none
        else some (record { path = ""; policy = ""; poll = 0; max_wait = 0; max_hold = 0 }))
    else let chosen = if str_eq policy "" then exclusion_all else policy in
      if str_eq chosen exclusion_all
        || (str_eq chosen exclusion_heavy || str_eq chosen exclusion_off)
      then some
          (record { path = path; policy = chosen; poll = 1000000000; max_wait = 0; max_hold = 0 })
      else none

-- Does a cell of a scenario take the lock?
unfoldable pub needs : ClientLock → Bool → Bool
needs l is_heavy =
    if str_eq l.path ""
    then false
    else if str_eq l.policy exclusion_all
    then true
    else str_eq l.policy exclusion_heavy && is_heavy

-- The answer to a try for the lock on an open file.
pub data Flock : Type 0 where
  flock_error : Flock
  locked busy : Flock

-- The system's calls on worlds `W` and files `F`. `open_file` gives no file on an error, `wait` is true
-- where the context ended before the poll's time had passed.
pub record Calls (W F : Type 0) : Type 0 where
  pub now : W → ℕ
  pub open_file : W → Option F × W
  pub try_flock : F → W → Flock × W
  pub same_file : F → W → Bool × W
  pub unlock : F → W → W
  pub close : F → W → W
  pub wait : ℕ → W → Bool × W

pub data Failure : Type 0 where
  open_failed flock_failed wait_limit cancelled replaced : Failure

-- How `acquire` ends; `endless` stands for a wait that outlives the given number of polls.
pub data Acquired (F : Type 0) : Type 0 where
  no_lock : Acquired F
  holds : (file : F) (contended : Bool) → Acquired F
  fails : (failure : Failure) → Acquired F
  endless : Acquired F

abbrev max_inode_retries : ℕ
max_inode_retries = 5

module _ {W F : Type 0} (calls : Calls W F) (l : ClientLock) where
  -- What a wait for one open file ends with: the lock, or the end of `acquire`.
  pub data Waited : Type 0 where
    got : (contended : Bool) (world : W) → Waited
    ended : (result : Acquired F) (world : W) → Waited

  unfoldable pub past_limit : ℕ → W → Bool
  past_limit start w = ltb 0 l.max_wait && leb (start + l.max_wait) (calls.now w)

  -- `for !held`: `polls` bounds the number of its rounds.
  unfoldable pub poll_flock : ℕ → ℕ → F → Flock → Bool → W → Waited
  unfolding past_limit
  poll_flock polls start f flock_error contended w = ended (fails flock_failed) (calls.close f w)
  poll_flock polls start f locked contended w = got contended w
  poll_flock zero start f busy contended w = ended endless w
  poll_flock (suc polls) start f busy contended w =
      let (done, w1) = calls.wait l.poll w in
      let (flock, w2) = calls.try_flock f w1 in
      let rest = poll_flock polls start f flock true w2 in
      if past_limit start w
      then ended (fails wait_limit) (calls.close f w)
      else if done
      then ended (fails cancelled) (calls.close f w1)
      else rest

  -- The lock on a file that the path may no longer name; `again` is the outer loop's next round.
  unfoldable pub check_file : (Bool → W → Acquired F × W) → F → Waited → Acquired F × W
  check_file again f (ended result w) = (result, w)
  check_file again f (got contended w) =
      let (same, w1) = calls.same_file f w in
      if same then (holds f contended, w1) else again contended (calls.close f (calls.unlock f w1))

  unfoldable pub try_file :
      (Bool → W → Acquired F × W) → ℕ → ℕ → Bool → Option F → W → Acquired F × W
  unfolding check_file poll_flock
  try_file again polls start contended none w = (fails open_failed, w)
  try_file again polls start contended (some f) w =
      let (flock, w1) = calls.try_flock f w in
      check_file again f (poll_flock polls start f flock contended w1)

  -- The outer loop, with the retries left.
  unfoldable pub acquire_from : ℕ → ℕ → ℕ → Bool → W → Acquired F × W
  unfolding try_file
  acquire_from zero polls start contended w =
      let (f, w1) = calls.open_file w in
      try_file (λ c v. (fails replaced, v)) polls start contended f w1
  acquire_from (suc left) polls start contended w =
      let (f, w1) = calls.open_file w in
      try_file (λ c v. acquire_from left polls start c v) polls start contended f w1

  unfoldable pub acquire : ℕ → Bool → W → Acquired F × W
  unfolding acquire_from needs
  acquire polls is_heavy w =
      if not (needs l is_heavy)
      then (no_lock, w)
      else acquire_from max_inode_retries polls (calls.now w) false w
