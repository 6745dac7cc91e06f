-- ===== src/Runner/ClientLock/Tests.antt =====
-- cmd/runner/clientlock.go: a lock that the other runner holds for four seconds.
use probatorium.Base.{
  ℕ, ◌+◌, ltb, if◌then◌else◌, true, false, none, some, ◌≡◌, refl, Bool-cases, inl, inr, arith,
}
use probatorium.Runner.ClientLock.{
  ClientLock, Calls, Flock, locked, busy, holds, no_lock, fails, wait_limit, acquire,
  new_client_lock, client_lock_limits,
}
use probatorium.Runner.ClientLock.Held.{
  Mode, free, opened, locked_on, Documented, Fits, acquire-Fits,
}
use probatorium.Runner.ClientLock.Waits.{Clock, is_endless, acquire-ends}

abbrev World : Type 0
World = ℕ × Mode ℕ

abbrev try_at : ℕ → World → Flock × World
try_at f w = if ltb w.0 4000000000 then (busy, (w.0, opened f)) else (locked, (w.0, locked_on f))

abbrev calls : Calls World ℕ
calls = record {
  now = λ w. w.0;
  open_file = λ w. (some 7, (w.0, opened 7));
  try_flock = try_at;
  same_file = λ f w. (true, w);
  unlock = λ f w. (w.0, opened f);
  close = λ f w. (w.0, free);
  wait = λ n w. (false, (w.0 + n, w.1));
}

abbrev lock : ℕ → ClientLock
lock limit = record {
  path = "/tmp/lock";
  policy = "heavy";
  poll = 1000000000;
  max_wait = limit;
  max_hold = 0;
}

abbrev before : World
before = (0, free)

outcomes :
    ((acquire calls (lock 9000000000) 10 true before).0 ≡ holds 7 true)
    × ((acquire calls (lock 2000000000) 3 true before).0 ≡ fails wait_limit)
    × ((acquire calls (lock 9000000000) 10 false before).0 ≡ no_lock)
unfolding acquire
outcomes = (refl, refl, refl)

flags :
    (new_client_lock "" "heavy" ≡ none)
    × (new_client_lock "/tmp/lock" "some" ≡ none)
    × (client_lock_limits (record {
      warmup = 1;
      duration = 10;
      rated_mode = true;
      rated_fractions = 2;
      rated_duration = 5;
    })
        ≡ (240000000055, 360000000055))
unfolding new_client_lock client_lock_limits
flags = (refl, refl, refl)

calls-Documented : Documented calls (λ w. w.1)
calls-Documented = record {
  opens = λ w h. refl;
  flocks =
      λ f w h. elim (Bool-cases (ltb w.0 4000000000)) [ inl a ↦ rw a refl | inr a ↦ rw a refl ];
  looks = λ f w. refl;
  waits = λ n w. refl;
  unlocks = λ f w h. refl;
  closes = λ f w h. refl;
}

calls-Clock : Clock calls
calls-Clock = record {
  opens = λ w. omega arith;
  flocks = λ f w. elim (Bool-cases (ltb w.0 4000000000)) [
    | inl a ↦ rw a (omega arith)
    | inr a ↦ rw a (omega arith)
  ];
  looks = λ f w. omega arith;
  unlocks = λ f w. omega arith;
  closes = λ f w. omega arith;
  waits = λ n w h. omega arith;
}

acquire-Fits_example :
    let r = acquire calls (lock 9000000000) 10 true before in
    Fits calls (λ w. w.1) (lock 9000000000) calls-Documented r.0 r.1
acquire-Fits_example =
    acquire-Fits calls (λ w. w.1) (lock 9000000000) calls-Documented 10 true before refl

acquire-ends_example : is_endless (acquire calls (lock 9000000000) 10 true before).0 ≡ false
acquire-ends_example =
    acquire-ends calls (lock 9000000000) 9 true before calls-Clock (omega arith) (omega arith)
