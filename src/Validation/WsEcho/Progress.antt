-- ===== src/Validation/WsEcho/Progress.antt =====
-- The verdict on a stalled echo, against what the server's application did between the two looks.
use Prim.Native.Nat.{◌^◌}
use text.Mathlib.Text.{◌==◌ as str_eq}
use probatorium.Base.{
  is_some, ℕ, ◌+◌, ◌-◌, ◌<◌, ◌≤◌, ltb, ◌==◌, if◌then◌else◌, ◌||◌, not, Bool, true, false, String,
  none, some, ℤ, pos, ltb_ℤ, add64, sub64, wrap64, wrap64-InInt64, ◌+ℤ◌, ◌-ℤ◌, sub_ℕ, lookup, ◌≡◌,
  ◌↔◌, ◌⊎◌, inl, inr, refl, sym, ap, ◌∙◌, arith,
}
use probatorium.Validation.WsEcho.{
  SsSock, EchoInstant, int_of, has_detail, counter, srv_reads, srv_writes, recv_q, send_q, arrived,
  client_bytes_unexplained, classify, classify_counted, classify_progress, ws_echo_classify,
  verdict_slow, verdict_wedge, verdict_indeterminate, equal_ℤ, absent_counter,
}

-- ss shows a count under a key; it leaves out a count of zero where it shows the socket's details.
abbrev pub Shows : SsSock → String → ℕ → Type 0
Shows s key n =
    (int_of (some s) key ≡ some (pos n))
    ⊎ ((n ≡ 0) × (lookup s.info key ≡ none) × (has_detail s ≡ true))

-- The server's socket at an instant at which its application has read `copied` bytes and written
-- `written`: what was received and not read is queued, and what was written and not acknowledged.
pub record Seen (s : SsSock) (copied queued acked sent : ℕ) : Type 0 where
  pub recv : s.recv_q ≡ pos queued
  pub send : s.send_q ≡ pos sent
  pub received : Shows s "bytes_received" (copied + queued)
  pub acks : Shows s "bytes_acked" acked
  pub few_received : copied + queued < 2 ^ 61
  pub few_written : acked + sent < 2 ^ 61

counter-acks :
    (s : SsSock) (n : ℕ) → Shows s "bytes_acked" n → counter (some s) "bytes_acked" ≡ some (pos n)
unfolding counter int_of absent_counter is_some
counter-acks s n (inl h) = rw h refl
counter-acks s n (inr (z, absent, detail)) =
    let e : is_some (lookup s.info "bytes_acked") ≡ false = ap is_some absent in
    rw absent (rw detail (rw e (rw z refl)))

counter-received :
    (s : SsSock) (copied queued : ℕ)
    → s.recv_q ≡ pos queued
    → Shows s "bytes_received" (copied + queued)
    → counter (some s) "bytes_received" ≡ some (pos (copied + queued))
unfolding counter int_of absent_counter is_some equal_ℤ
counter-received s copied queued recv (inl h) = rw h refl
counter-received s copied queued recv (inr (z, absent, detail)) =
    let q : queued ≡ 0 = omega arith in
    let p : copied ≡ 0 = omega arith in
    let e : is_some (lookup s.info "bytes_received") ≡ false = ap is_some absent in
    rw absent (rw detail (rw e (rw recv (rw q (rw p refl)))))

sub64-small : (a b : ℕ) → a < 2 ^ 62 → b < 2 ^ 62 → sub64 (pos a) (pos b) ≡ sub_ℕ a b
unfolding sub64 ◌-ℤ◌
sub64-small a b h k = wrap64-InInt64 (pos a -ℤ pos b) (ground arith, ground arith) ∙ ground arith

add64-small : (a b : ℕ) → a < 2 ^ 62 → b < 2 ^ 62 → add64 (pos a) (pos b) ≡ pos (a + b)
unfolding add64 ◌+ℤ◌
add64-small a b h k = wrap64-InInt64 (pos a +ℤ pos b) (ground arith, ground arith) ∙ ground arith

sub64-differences :
    (a b c d : ℕ)
    → a < 2 ^ 61
    → b < 2 ^ 61
    → c < 2 ^ 61
    → d < 2 ^ 61
    → sub64 (sub_ℕ a b) (sub_ℕ c d) ≡ sub_ℕ (a + d) (b + c)
unfolding sub64 ◌-ℤ◌
sub64-differences a b c d h k l m =
    wrap64-InInt64 (sub_ℕ a b -ℤ sub_ℕ c d) (ground arith, ground arith) ∙ ground arith

ltb_ℤ-sub_ℕ : (s a b : ℕ) → ltb_ℤ (pos s) (sub_ℕ b a) ≡ ltb (a + s) b
ltb_ℤ-sub_ℕ s a b = ground arith

chosen : Bool → Bool → String
chosen progress open_end =
    if progress then verdict_slow else if open_end then verdict_indeterminate else verdict_wedge

chosen-slow : (p o : Bool) → (chosen p o ≡ verdict_slow) ↔ (p ≡ true)
unfolding chosen
chosen-slow true o = (λ h. refl, λ h. refl)
chosen-slow false true =
    (λ h. let e : false ≡ true = ap (λ v. str_eq v verdict_slow) h in e, λ h. ground arith)
chosen-slow false false =
    (λ h. let e : false ≡ true = ap (λ v. str_eq v verdict_slow) h in e, λ h. ground arith)

chosen-wedge : (p o : Bool) → (chosen p o ≡ verdict_wedge) ↔ ((p ≡ false) × (o ≡ false))
unfolding chosen
chosen-wedge true o = (
  λ h. let e : false ≡ true = ap (λ v. str_eq v verdict_wedge) h in ground (arith, e),
  λ h. ground (arith, h),
)
chosen-wedge false true = (
  λ h. let e : false ≡ true = ap (λ v. str_eq v verdict_wedge) h in ground (arith, e),
  λ h. ground (arith, h),
)
chosen-wedge false false = (λ h. (refl, refl), λ h. refl)

-- The client's bytes, given what the queues held at the first look.
client_bytes_unexplained-lt :
    (t0 t1 : EchoInstant) (sent written client_queued : ℕ)
    → send_q t0.server ≡ pos sent
    → recv_q t0.client ≡ pos client_queued
    → sent < 2 ^ 61
    → written < 2 ^ 61
    → client_queued < 2 ^ 61
    → t0.bytes_in < 2 ^ 61
    → t1.bytes_in < 2 ^ 61
    → client_bytes_unexplained t0 t1 (pos written)
      ≡ ltb (t0.bytes_in + (sent + written + client_queued)) t1.bytes_in
unfolding client_bytes_unexplained arrived
client_bytes_unexplained-lt t0 t1 sent written client_queued server client h k l m n =
    let a = add64-small sent written (omega arith) (omega arith) in
    let b = add64-small (sent + written) client_queued (omega arith) (omega arith) in
    let d0 : wrap64 (pos t0.bytes_in) ≡ pos t0.bytes_in =
      wrap64-InInt64 (pos t0.bytes_in) (omega arith, omega arith) in
    let d1 : wrap64 (pos t1.bytes_in) ≡ pos t1.bytes_in =
      wrap64-InInt64 (pos t1.bytes_in) (omega arith, omega arith) in
    let d = sub64-small t1.bytes_in t0.bytes_in (omega arith) (omega arith) in
    let e = ltb_ℤ-sub_ℕ (sent + written + client_queued) t0.bytes_in t1.bytes_in in
    rw server (rw client (rw a (rw b (rw d0 (rw d1 (rw d e))))))

classify_progress-chosen :
    (t0 t1 : EchoInstant) (reads written queued0 queued1 : ℕ)
    → recv_q t0.server ≡ pos queued0
    → recv_q t1.server ≡ pos queued1
    → (classify_progress t0 t1 (pos reads) (pos written)).0
      ≡ chosen
          (ltb 0 reads || not (ltb written 256))
          ((queued0 == 0 || queued1 == 0) || client_bytes_unexplained t0 t1 (pos written))
unfolding classify_progress chosen equal_ℤ
classify_progress-chosen t0 t1 reads written queued0 queued1 r q = rw r (rw q (ground arith))

classify-counted :
    (t0 t1 : EchoInstant) (window reads writes : ℤ)
    → ltb_ℤ window (pos 2000000000) ≡ false
    → is_some t0.server ≡ true
    → is_some t1.server ≡ true
    → srv_reads t0 t1 ≡ some reads
    → srv_writes t0 t1 ≡ some writes
    → classify t0 t1 window ≡ classify_progress t0 t1 reads writes
unfolding classify classify_counted
classify-counted t0 t1 window reads writes w a b r q = rw w (rw a (rw b (rw r (rw q refl))))

wedge_conditions :
    (r w q0 q1 : ℕ) (u : Bool)
    → (((ltb 0 r || not (ltb w 256)) ≡ false) × (((q0 == 0 || q1 == 0) || u) ≡ false))
      ↔ ((r ≡ 0) × (w < 256) × (0 < q0) × (0 < q1) × (u ≡ false))
wedge_conditions r w q0 q1 u = ground arith

-- Two looks at least two seconds apart, with the server's socket in both.
module _ (t0 t1 : EchoInstant) (s0 s1 : SsSock)
    (copied0 queued0 acked0 sent0 copied1 queued1 acked1 sent1 : ℕ) (server0 : t0.server ≡ some s0)
    (server1 : t1.server ≡ some s1) (seen0 : Seen s0 copied0 queued0 acked0 sent0)
    (seen1 : Seen s1 copied1 queued1 acked1 sent1) where
  srv_reads-Seen : srv_reads t0 t1 ≡ some (sub_ℕ copied1 copied0)
  unfolding srv_reads recv_q
  srv_reads-Seen =
      let c0 = counter-received s0 copied0 queued0 seen0.recv seen0.received in
      let c1 = counter-received s1 copied1 queued1 seen1.recv seen1.received in
      let b0 = seen0.few_received in
      let b1 = seen1.few_received in
      let r = sub64-small (copied1 + queued1) (copied0 + queued0) (omega arith) (omega arith) in
      let q = sub64-small queued1 queued0 (omega arith) (omega arith) in
      let d =
        sub64-differences (copied1 + queued1) (copied0 + queued0) queued1 queued0 (omega arith)
          (omega arith) (omega arith) (omega arith) in
      let e : sub_ℕ (copied1 + queued1 + queued0) (copied0 + queued0 + queued1)
          ≡ sub_ℕ copied1 copied0 =
        ground arith in
      rw server0 (
        rw server1 (rw c0 (rw c1 (rw seen0.recv (rw seen1.recv (rw r (rw q (rw d (ap some e)))))))))

  srv_writes-Seen : srv_writes t0 t1 ≡ some (sub_ℕ (acked1 + sent1) (acked0 + sent0))
  unfolding srv_writes send_q
  srv_writes-Seen =
      let c0 = counter-acks s0 acked0 seen0.acks in
      let c1 = counter-acks s1 acked1 seen1.acks in
      let b0 = seen0.few_written in
      let b1 = seen1.few_written in
      let r = add64-small acked1 sent1 (omega arith) (omega arith) in
      let q = add64-small acked0 sent0 (omega arith) (omega arith) in
      let d = sub64-small (acked1 + sent1) (acked0 + sent0) (omega arith) (omega arith) in
      rw server0
        (rw server1 (rw c0 (rw c1 (rw seen0.send (rw seen1.send (rw r (rw q (rw d refl))))))))

  recv_q-Seen0 : recv_q t0.server ≡ pos queued0
  unfolding recv_q
  recv_q-Seen0 = rw server0 seen0.recv

  recv_q-Seen1 : recv_q t1.server ≡ pos queued1
  unfolding recv_q
  recv_q-Seen1 = rw server1 seen1.recv

  send_q-Seen0 : send_q t0.server ≡ pos sent0
  unfolding send_q
  send_q-Seen0 = rw server0 seen0.send

  module _ (grown : copied0 ≤ copied1) (wrote : acked0 + sent0 ≤ acked1 + sent1)
      (long : t0.at + 2000000000 ≤ t1.at) where
    class-chosen :
        (ws_echo_classify t0 t1).class
        ≡ chosen (ltb 0 (copied1 - copied0) || not (ltb (acked1 + sent1 - (acked0 + sent0)) 256)) (
            (queued0 == 0 || queued1 == 0)
            || client_bytes_unexplained t0 t1 (pos (acked1 + sent1 - (acked0 + sent0))))
    unfolding ws_echo_classify ◌-ℤ◌ is_some
    class-chosen =
        let w : ltb_ℤ (pos t1.at -ℤ pos t0.at) (pos 2000000000) ≡ false = ground arith in
        let r : sub_ℕ copied1 copied0 ≡ pos (copied1 - copied0) = ground arith in
        let q : sub_ℕ (acked1 + sent1) (acked0 + sent0) ≡ pos (acked1 + sent1 - (acked0 + sent0)) =
          ground arith in
        let e =
          classify_progress-chosen t0 t1 (copied1 - copied0) (acked1 + sent1 - (acked0 + sent0))
            queued0 queued1 recv_q-Seen0 recv_q-Seen1 in
        let reads = srv_reads-Seen ∙ ap some r in
        let writes = srv_writes-Seen ∙ ap some q in
        let k =
          classify-counted t0 t1 (pos t1.at -ℤ pos t0.at) (pos (copied1 - copied0))
            (pos (acked1 + sent1 - (acked0 + sent0))) w (ap is_some server0) (ap is_some server1)
            reads writes in
        ap (λ v. v.0) k ∙ e

    -- The server's socket being in both looks, at least two seconds apart, as ss shows it with
    -- counts below 2^61 that do not fall in between, the class is SLOW_CLASS just where the
    -- server's application read at least a byte in between or wrote at least 256.
    pub ws_echo_classify-slow :
        ((ws_echo_classify t0 t1).class ≡ verdict_slow)
        ↔ ((copied0 < copied1) ⊎ (acked0 + sent0 + 256 ≤ acked1 + sent1))
    ws_echo_classify-slow =
        let c = class-chosen in
        let p = ltb 0 (copied1 - copied0) || not (ltb (acked1 + sent1 - (acked0 + sent0)) 256) in
        let o =
          (queued0 == 0 || queued1 == 0)
          || client_bytes_unexplained t0 t1 (pos (acked1 + sent1 - (acked0 + sent0))) in
        let (to, from) = chosen-slow p o in
        (
          λ h. let k = to (sym c ∙ h) in ground (arith, k),
          λ h. c ∙ from (elim h [ inl a ↦ ground (arith, a) | inr b ↦ ground (arith, b) ]),
        )

    module _ (client_queued : ℕ) (client : recv_q t0.client ≡ pos client_queued)
        (few_queued : client_queued < 2 ^ 61) (few0 : t0.bytes_in < 2 ^ 61)
        (few1 : t1.bytes_in < 2 ^ 61) where
      -- The server's socket being in both looks, at least two seconds apart, as ss shows it, its
      -- counts not falling in between and, like those of the walker's socket, below 2^61, the
      -- class is WEDGE_CLASS just where the server's application read nothing in between and
      -- wrote less than 256 bytes, bytes were queued for it at both looks, and the walker took no
      -- more bytes off its socket than the two queues held at the first look and the application
      -- wrote.
      pub ws_echo_classify-wedge : ((ws_echo_classify t0 t1).class ≡ verdict_wedge) ↔ (
          (copied0 ≡ copied1)
          × (acked1 + sent1 < acked0 + sent0 + 256)
          × (0 < queued0)
          × (0 < queued1)
          × (t1.bytes_in + acked0 ≤ t0.bytes_in + client_queued + (acked1 + sent1)))
      ws_echo_classify-wedge =
          let c = class-chosen in
          let w = acked1 + sent1 - (acked0 + sent0) in
          let b0 = seen0.few_written in
          let b1 = seen1.few_written in
          let u =
            client_bytes_unexplained-lt t0 t1 sent0 w client_queued send_q-Seen0 client
              (omega arith) (omega arith) few_queued few0 few1 in
          let p = ltb 0 (copied1 - copied0) || not (ltb w 256) in
          let o = (queued0 == 0 || queued1 == 0) || client_bytes_unexplained t0 t1 (pos w) in
          let (to, from) = chosen-wedge p o in
          let (split, join) =
            wedge_conditions (copied1 - copied0) w queued0 queued1
              (client_bytes_unexplained t0 t1 (pos w)) in
          (
            λ h.
                let (r, l, q0, q1, e) = split (to (sym c ∙ h)) in
                let n : ltb (t0.bytes_in + (sent0 + w + client_queued)) t1.bytes_in ≡ false =
                  sym u ∙ e in
                (omega arith, omega arith, q0, q1, ground arith),
            λ (r, l, q0, q1, e).
                let n : ltb (t0.bytes_in + (sent0 + w + client_queued)) t1.bytes_in ≡ false =
                  ground arith in
                c ∙ from (join (omega arith, omega arith, q0, q1, u ∙ n)),
          )
