-- ===== src/Validation/Fault/Generate.antt =====
-- validation/fault/scheduler.go: `Generate`, which draws the faults of a run from a random source.
-- The source is a parameter: `int_n n` draws a number and leaves the source behind it, and `seeded`
-- is the source of a seed. The loop is given by its rounds, since it goes on until a round ends it
-- or enough faults are placed. A loss in percent is its whole number. Durations are nanoseconds.
pub mod Window
mod Tests
use Prim.Native.Nat.{◌/◌, ◌*◌}
use text.Mathlib.Text.{◌==◌ as str_eq}
use probatorium.Base.{
  ℕ, zero, suc, ◌+◌, ◌-◌, ltb, leb, ◌==◌, if◌then◌else◌, ◌||◌, not, Bool, true, false, List, [],
  ◌∷◌, ◌++◌, String, Option, none, some, ℤ, pos, negsuc, le_zero, length, min, max,
}

abbrev second : ℕ
second = 1000000000

abbrev host_server : String
host_server = "msa2-server"

abbrev host_client : String
host_client = "msa2-client"

pub data Fault : Type 0 where
  tc_netem : (host iface : String) (delay_ms jitter_ms loss_pct : ℕ) → Fault
  signal_pause : (host : String) (pid : ℕ) → Fault
  fd_pressure : (host : String) (pid soft_limit restore_limit : ℕ) → Fault
  iptables_drop : (host chain : String) (port : ℕ) → Fault

pub record ScheduledFault : Type 0 where
  pub offset : ℕ
  pub duration : ℕ
  pub fault : Fault

pub record GenerateConfig : Type 0 where
  pub seed : ℕ
  pub run_duration : ℤ
  pub min_spacing : ℤ
  pub celeris_pid : ℕ
  pub celeris_listen_fd : ℕ
  pub celeris_listen_port : ℕ
  pub loadgen_iface : String

-- A duration that is known to be positive.
unfoldable pub nanos : ℤ → ℕ
nanos (pos n) = n
nanos (negsuc n) = 0

unfoldable pub spacing_of : GenerateConfig → ℕ
unfolding nanos
spacing_of cfg = if le_zero cfg.min_spacing then 30 * second else nanos cfg.min_spacing

iface_of : GenerateConfig → String
iface_of cfg = if str_eq cfg.loadgen_iface "" then "eth0" else cfg.loadgen_iface

-- One fault for each five minutes, at least one and at most twelve.
unfoldable pub target_of : GenerateConfig → ℕ
unfolding nanos
target_of cfg = min 12 (max 1 (nanos cfg.run_duration / (300 * second)))

-- The loop's state: what is placed, the seconds in use, the source, and whether it was left.
pub record GenState (R : Type 0) : Type 0 where
  pub sched : List ScheduledFault
  pub used : List ℕ
  pub source : R
  pub left : Bool

unfoldable pub is_used : ℕ → List ℕ → Bool
is_used slot [] = false
is_used slot (u ∷ used) = slot == u || is_used slot used

module _ {R : Type 0} (int_n : ℕ → R → ℕ × R) where
  draw_delay : GenerateConfig → R → Option (Fault × ℕ) × R
  unfolding iface_of
  draw_delay cfg r =
      let (delay, r1) = int_n 150 r in
      let (jitter, r2) = int_n 50 r1 in
      let (extra, r3) = int_n 120 r2 in
      (
        some (
          tc_netem host_client (iface_of cfg) (10 + delay) jitter 0,
          30 * second + extra * second,
        ),
        r3,
      )

  draw_loss : GenerateConfig → R → Option (Fault × ℕ) × R
  unfolding iface_of
  draw_loss cfg r =
      let (loss, r1) = int_n 20 r in
      let (extra, r2) = int_n 60 r1 in
      (some (tc_netem host_client (iface_of cfg) 0 0 (1 + loss), 30 * second + extra * second), r2)

  draw_pause : GenerateConfig → R → Option (Fault × ℕ) × R
  draw_pause cfg r =
      if cfg.celeris_pid == 0
      then (none, r)
      else let (ms, r1) = int_n 2000 r in
        (some (signal_pause host_server cfg.celeris_pid, (200 + ms) * 1000000), r1)

  draw_pressure : GenerateConfig → R → Option (Fault × ℕ) × R
  draw_pressure cfg r =
      if cfg.celeris_pid == 0
      then (none, r)
      else let (limit, r1) = int_n 900 r in
        let (extra, r2) = int_n 120 r1 in
        (
          some (
            fd_pressure host_server cfg.celeris_pid (100 + limit) 1048576,
            30 * second + extra * second,
          ),
          r2,
        )

  draw_drop : GenerateConfig → R → Option (Fault × ℕ) × R
  draw_drop cfg r =
      if cfg.celeris_listen_port == 0
      then (none, r)
      else let (coin, r1) = int_n 2 r in
        let chain = if coin == 0 then "OUTPUT" else "INPUT" in
        let (extra, r2) = int_n 20 r1 in
        (
          some (
            iptables_drop host_server chain cfg.celeris_listen_port,
            5 * second + extra * second,
          ),
          r2,
        )

  -- The switch on the kind; a kind that the configuration does not allow gives no fault.
  draw_fault : ℕ → GenerateConfig → R → Option (Fault × ℕ) × R
  unfolding draw_delay draw_loss draw_pause draw_pressure draw_drop
  draw_fault kind cfg r =
      if kind == 0
      then draw_delay cfg r
      else if kind == 1
      then draw_loss cfg r
      else if kind == 2
      then draw_pause cfg r
      else if kind == 3
      then draw_pressure cfg r
      else if kind == 4
      then draw_drop cfg r
      else (none, r)

  -- `latest <= spacing` leaves the loop; an offset in a second that is in use is drawn in vain.
  unfoldable pub place_at : GenerateConfig → Fault → ℕ → ℕ → R → GenState R → GenState R
  unfolding is_used spacing_of
  place_at cfg f dur drawn r st =
      let off = spacing_of cfg + drawn in
      let slot = off / second in
      if is_used slot st.used then record st { source = r } else record st {
        sched = st.sched ++ record { offset = off; duration = dur; fault = f } ∷ [];
        used = slot ∷ st.used;
        source = r;
      }

  unfoldable pub place : GenerateConfig → Option (Fault × ℕ) → R → GenState R → GenState R
  unfolding place_at
  place cfg none r st = record st { source = r }
  place cfg (some (f, dur)) r st =
      let spacing = spacing_of cfg in
      let run = nanos cfg.run_duration in
      if leb run (dur + spacing + spacing)
      then record st { source = r; left = true }
      else let (drawn, r1) = int_n (run - dur - spacing - spacing) r in
        place_at cfg f dur drawn r1 st

  -- A round of the loop; it does nothing once the loop is over.
  unfoldable pub round : GenerateConfig → GenState R → GenState R
  unfolding place draw_fault target_of
  round cfg st =
      if st.left || not (ltb (length st.sched) (target_of cfg))
      then st
      else let (kind, r1) = int_n 5 st.source in
        let (f, r2) = draw_fault kind cfg r1 in place cfg f r2 st

  unfoldable pub rounds : GenerateConfig → ℕ → GenState R → GenState R
  unfolding round
  rounds cfg zero st = st
  rounds cfg (suc n) st = round cfg (rounds cfg n st)

  module _ (seeded : ℕ → R) (sort : List ScheduledFault → List ScheduledFault) where
    unfoldable pub start_of : GenerateConfig → GenState R
    start_of cfg = record { sched = []; used = []; source = seeded cfg.seed; left = false }

    -- The schedule, if the loop is over after `n` rounds.
    unfoldable pub generate : ℕ → GenerateConfig → Option (List ScheduledFault)
    unfolding start_of rounds
    generate n cfg =
        if le_zero cfg.run_duration
        then some []
        else let st = rounds cfg n (start_of cfg) in
          if st.left || not (ltb (length st.sched) (target_of cfg))
          then some (sort st.sched)
          else none
