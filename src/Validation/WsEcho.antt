-- ===== src/Validation/WsEcho.antt =====
-- validation/ws_echo_verdict.go: whether a stalled WebSocket echo is slow or wedged, from two
-- looks at its sockets. The sockets are an input, as `parseSS` reads the output of ss. Times are in
-- nanoseconds. The arithmetic on int64 wraps around.
pub mod Progress
mod Tests
use Prim.Native.Nat.{◌/◌, ◌*◌}
use Prim.Native.Char.{code}
use Prim.Native.String.{◌++◌ as ◌+++◌}
use text.Mathlib.Text.{◌==◌ as str_eq}
use probatorium.Base.{
  is_some, ℕ, suc, if◌then◌else◌, ◌||◌, ◌&&◌, not, Bool, true, false, List, [], ◌∷◌, String, Option,
  none, some, ℤ, pos, negsuc, ltb_ℤ, le_zero, add64, sub64, wrap64, ◌-ℤ◌, Fields, lookup, atoi,
  itoa, itoa_ℤ, ltb, ◌==◌, max,
}

abbrev pub verdict_slow : String
verdict_slow = "SLOW_CLASS"

abbrev pub verdict_wedge : String
verdict_wedge = "WEDGE_CLASS"

abbrev pub verdict_indeterminate : String
verdict_indeterminate = "INDETERMINATE"

-- Two seconds.
abbrev pub ws_echo_min_window : ℤ
ws_echo_min_window = pos 2000000000

abbrev pub ws_echo_min_write : ℤ
ws_echo_min_write = pos 256

pub record SsSock : Type 0 where
  pub state : String
  pub recv_q : ℤ
  pub send_q : ℤ
  pub local : String
  pub peer : String
  pub info : Fields
  pub skmem : List (String × ℤ)
  pub raw : String

unfoldable pub equal_ℤ : ℤ → ℤ → Bool
equal_ℤ a b = not (ltb_ℤ a b) && not (ltb_ℤ b a)

or_none : Option String → Option ℤ
or_none none = none
or_none (some v) = atoi v

-- A missing socket has no values.
unfoldable pub int_of : Option SsSock → String → Option ℤ
unfolding or_none
int_of none key = none
int_of (some s) key = or_none (lookup s.info key)

unfoldable pub has_detail : SsSock → Bool
unfolding is_some
has_detail s = is_some (lookup s.info "cwnd") || is_some (lookup s.info "rto")

-- The counter of a socket that shows no number for it.
unfoldable pub absent_counter : SsSock → String → Option ℤ
unfolding has_detail equal_ℤ
absent_counter s key =
    if not (has_detail s)
    then none
    else if is_some (lookup s.info key)
    then none
    else if str_eq key "bytes_acked"
    then some (pos 0)
    else if str_eq key "bytes_received"
    then (if equal_ℤ s.recv_q (pos 0) then some (pos 0) else none)
    else none

shown_or_absent : SsSock → String → Option ℤ → Option ℤ
unfolding absent_counter
shown_or_absent s key none = absent_counter s key
shown_or_absent s key (some n) = some n

unfoldable pub counter : Option SsSock → String → Option ℤ
unfolding int_of shown_or_absent
counter none key = none
counter (some s) key = shown_or_absent s key (int_of (some s) key)

skmem_field : List (String × ℤ) → String → Option ℤ
skmem_field [] key = none
skmem_field (f ∷ fields) key = if str_eq f.0 key then some f.1 else skmem_field fields key

skmem_of : Option SsSock → String → Option ℤ
unfolding skmem_field
skmem_of none key = none
skmem_of (some s) key = skmem_field s.skmem key

-- What follows the last colon of a text, where there is one.
after_colon : String → Option String
after_colon String.[] = none
after_colon (String.◌∷◌ c s) =
    let later = after_colon s in
    elim later [ some port ↦ some port | none ↦ if code c == 58 then some s else none ]

port_or_none : Option ℤ → ℤ
port_or_none none = negsuc 0
port_or_none (some n) = n

unfoldable pub port_of : String → ℤ
unfolding after_colon port_or_none or_none
port_of addr = port_or_none (or_none (after_colon addr))

-- The server's end and the client's end found so far.
abbrev pub Ends : Type 0
Ends = Option SsSock × Option SsSock

unfoldable pub add_sock : ℤ → ℤ → SsSock → Ends → Ends
unfolding port_of equal_ℤ is_some
add_sock client_port server_port s ends =
    let lp = port_of s.local in
    let pp = port_of s.peer in
    if equal_ℤ lp client_port && (equal_ℤ pp server_port && not (is_some ends.1))
    then (ends.0, some s)
    else if equal_ℤ lp server_port && (equal_ℤ pp client_port && not (is_some ends.0))
    then (some s, ends.1)
    else ends

unfoldable pub scan_socks : ℤ → ℤ → List SsSock → Ends → Ends
unfolding add_sock
scan_socks client_port server_port [] ends = ends
scan_socks client_port server_port (s ∷ socks) ends =
    scan_socks client_port server_port socks (add_sock client_port server_port s ends)

unfoldable pub find_echo_socks : List SsSock → ℤ → ℤ → Ends
unfolding scan_socks
find_echo_socks socks client_port server_port =
    if le_zero client_port || le_zero server_port
    then (none, none)
    else scan_socks client_port server_port socks (none, none)

pub record EchoInstant : Type 0 where
  pub at : ℕ
  pub echoes : ℕ
  pub sent : ℕ
  pub bytes_in : ℕ
  pub ss_err : String
  pub server : Option SsSock
  pub client : Option SsSock

pub record WsEchoVerdict : Type 0 where
  pub class : String
  pub reason : String
  pub line : String

unfoldable pub recv_q : Option SsSock → ℤ
recv_q none = pos 0
recv_q (some s) = s.recv_q

unfoldable pub send_q : Option SsSock → ℤ
send_q none = pos 0
send_q (some s) = s.send_q

difference : Option ℤ → Option ℤ → (ℤ → ℤ → ℤ) → Option ℤ
difference none b f = none
difference (some a) none f = none
difference (some a) (some b) f = some (f a b)

unfoldable pub srv_reads : EchoInstant → EchoInstant → Option ℤ
unfolding difference recv_q
srv_reads t0 t1 =
    difference (counter t0.server "bytes_received") (counter t1.server "bytes_received")
      (λ r0 r1. sub64 (sub64 r1 r0) (sub64 (recv_q t1.server) (recv_q t0.server)))

unfoldable pub srv_writes : EchoInstant → EchoInstant → Option ℤ
unfolding difference send_q
srv_writes t0 t1 =
    difference (counter t0.server "bytes_acked") (counter t1.server "bytes_acked")
      (λ a0 a1. sub64 (add64 a1 (send_q t1.server)) (add64 a0 (send_q t0.server)))

unfoldable pub arrived : EchoInstant → EchoInstant → ℤ
arrived t0 t1 = sub64 (wrap64 (pos t1.bytes_in)) (wrap64 (pos t0.bytes_in))

-- The server's socket is there when this is asked, so its send queue is its own.
unfoldable pub client_bytes_unexplained : EchoInstant → EchoInstant → ℤ → Bool
unfolding send_q recv_q arrived
client_bytes_unexplained t0 t1 writes =
    ltb_ℤ (add64 (add64 (send_q t0.server) writes) (recv_q t0.client)) (arrived t0 t1)

bytes_new : EchoInstant → EchoInstant → ℤ
unfolding arrived recv_q
bytes_new t0 t1 = sub64 (arrived t0 t1) (recv_q t0.client)

-- `Milliseconds`: a quotient rounded towards zero.
millis : ℤ → ℤ
millis (pos n) = pos (n / 1000000)
millis (negsuc n) = pos 0 -ℤ pos (suc n / 1000000)

kv : String → Option ℤ → String
kv name none = " " +++ name +++ "=na"
kv name (some v) = " " +++ name +++ "=" +++ itoa_ℤ v

queue_of : (SsSock → ℤ) → Option SsSock → Option ℤ
queue_of q none = none
queue_of q (some s) = some (q s)

written_of : Option SsSock → Option ℤ → Option ℤ
written_of none acked = none
written_of (some s) none = none
written_of (some s) (some acked) = some (add64 acked s.send_q)

instant_line : String → EchoInstant → String
unfolding kv queue_of skmem_of written_of
instant_line t i =
    kv ("srv_recvq_" +++ t) (queue_of (λ s. s.recv_q) i.server)
    +++ kv ("srv_sendq_" +++ t) (queue_of (λ s. s.send_q) i.server)
    +++ kv ("srv_bytes_received_" +++ t) (counter i.server "bytes_received")
    +++ kv ("srv_bytes_acked_" +++ t) (counter i.server "bytes_acked")
    +++ kv ("srv_skmem_r_" +++ t) (skmem_of i.server "r")
    +++ kv ("srv_rcv_wnd_" +++ t) (int_of i.server "rcv_wnd")
    +++ kv ("cli_sendq_" +++ t) (queue_of (λ s. s.send_q) i.client)
    +++ kv ("cli_recvq_" +++ t) (queue_of (λ s. s.recv_q) i.client)
    +++ kv ("srv_written_" +++ t) (written_of i.server (counter i.server "bytes_acked"))

pub verdict_line : String → String → ℤ → EchoInstant → EchoInstant → String
unfolding millis bytes_new kv instant_line
verdict_line class reason window t0 t1 =
    "WS_ECHO_VERDICT="
    +++ class
    +++ " reason="
    +++ reason
    +++ " window_ms="
    +++ itoa_ℤ (millis window)
    +++ " echoes_t0="
    +++ itoa t0.echoes
    +++ " echoes_t1="
    +++ itoa t1.echoes
    +++ " bytes_in_t0="
    +++ itoa t0.bytes_in
    +++ " bytes_in_t1="
    +++ itoa t1.bytes_in
    +++ " bytes_new="
    +++ itoa_ℤ (bytes_new t0 t1)
    +++ " sent="
    +++ itoa (max t0.sent t1.sent)
    +++ kv "srv_app_reads" (srv_reads t0 t1)
    +++ kv "srv_app_writes" (srv_writes t0 t1)
    +++ instant_line "t0" t0
    +++ instant_line "t1" t1

-- The class and the reason, given the bytes that the server's application read and wrote.
unfoldable pub classify_progress : EchoInstant → EchoInstant → ℤ → ℤ → String × String
classify_progress t0 t1 reads writes =
    if ltb_ℤ reads (pos 0) || ltb_ℤ writes (pos 0)
    then (verdict_indeterminate, "server_counters_inconsistent")
    else if ltb_ℤ (pos 0) reads && not (ltb_ℤ writes ws_echo_min_write)
    then (verdict_slow, "server_read_and_wrote")
    else if ltb_ℤ (pos 0) reads
    then (verdict_slow, "server_read")
    else if not (ltb_ℤ writes ws_echo_min_write)
    then (verdict_slow, "server_wrote")
    else if equal_ℤ (recv_q t0.server) (pos 0) || equal_ℤ (recv_q t1.server) (pos 0)
    then (verdict_indeterminate, "recvq_zero_no_progress")
    else if client_bytes_unexplained t0 t1 writes
    then (verdict_indeterminate, "client_bytes_unexplained")
    else (verdict_wedge, "no_app_read_no_app_write_recvq_pending")

unfoldable pub classify_counted : EchoInstant → EchoInstant → Option ℤ → Option ℤ → String × String
unfolding classify_progress
classify_counted t0 t1 none writes = (verdict_indeterminate, "server_counters_missing")
classify_counted t0 t1 (some reads) none = (verdict_indeterminate, "server_counters_missing")
classify_counted t0 t1 (some reads) (some writes) = classify_progress t0 t1 reads writes

unfoldable pub classify : EchoInstant → EchoInstant → ℤ → String × String
unfolding classify_counted is_some
classify t0 t1 window =
    if ltb_ℤ window ws_echo_min_window
    then (verdict_indeterminate, "window_too_short")
    else if not (is_some t0.server)
    then (verdict_indeterminate, "server_socket_missing_t0")
    else if not (is_some t1.server)
    then (verdict_indeterminate, "server_socket_missing_t1")
    else classify_counted t0 t1 (srv_reads t0 t1) (srv_writes t0 t1)

unfoldable pub ws_echo_classify : EchoInstant → EchoInstant → WsEchoVerdict
unfolding classify verdict_line
ws_echo_classify t0 t1 =
    let window = pos t1.at -ℤ pos t0.at in
    let (class, reason) = classify t0 t1 window in
    record { class = class; reason = reason; line = verdict_line class reason window t0 t1 }
