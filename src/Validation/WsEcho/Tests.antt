-- ===== src/Validation/WsEcho/Tests.antt =====
-- validation/ws_echo_verdict.go: a slow and a wedged echo.
use probatorium.Base.{
  is_some, ℕ, ◌+◌, ◌<◌, ◌≤◌, [], ◌∷◌, String, some, pos, negsuc, lookup, atoi, ◌≡◌, ◌↔◌, ◌⊎◌, inl,
  inr, refl, arith, wrap64, sub64, add64, ◌+ℤ◌, ◌-ℤ◌,
}
use probatorium.Validation.WsEcho.{
  SsSock, EchoInstant, find_echo_socks, port_of, ws_echo_classify, verdict_slow, verdict_wedge,
  verdict_indeterminate, int_of, has_detail, recv_q, counter, srv_reads, srv_writes,
  client_bytes_unexplained,
}
use probatorium.Validation.WsEcho.Progress.{Seen, ws_echo_classify-slow, ws_echo_classify-wedge}

-- The server's end: nothing was acknowledged yet, and ss leaves that counter out.
abbrev server_end : ℕ → String → SsSock
server_end queued received = record {
  state = "ESTAB";
  recv_q = pos queued;
  send_q = pos 100;
  local = "[::1]:8080";
  peer = "[::1]:50278";
  info = ("cwnd", "10") ∷ ("bytes_received", received) ∷ [];
  skmem = [];
  raw = "";
}

abbrev client_end : SsSock
client_end = record {
  state = "ESTAB";
  recv_q = pos 0;
  send_q = pos 0;
  local = "[::1]:50278";
  peer = "[::1]:8080";
  info = [];
  skmem = [];
  raw = "";
}

abbrev look : ℕ → SsSock → EchoInstant
look at server = record {
  at = at;
  echoes = 3;
  sent = 9;
  bytes_in = 300;
  ss_err = "";
  server = some server;
  client = some client_end;
}

abbrev first : EchoInstant
first = look 0 (server_end 50 "1050")

-- Four seconds later with nothing read, and with 20 bytes read.
abbrev stuck : EchoInstant
stuck = look 4000000000 (server_end 50 "1050")

abbrev moving : EchoInstant
moving = look 4000000000 (server_end 30 "1050")

abbrev copied : ℕ
copied = 1000

first-Seen : Seen (server_end 50 "1050") 1000 50 0 100
unfolding int_of has_detail lookup is_some atoi
first-Seen = record {
  recv = refl;
  send = refl;
  received = inl refl;
  acks = inr (refl, refl, refl);
  few_received = omega arith;
  few_written = omega arith;
}

moving-Seen : Seen (server_end 30 "1050") 1020 30 0 100
unfolding int_of has_detail lookup is_some atoi
moving-Seen = record {
  recv = refl;
  send = refl;
  received = inl refl;
  acks = inr (refl, refl, refl);
  few_received = omega arith;
  few_written = omega arith;
}

ports :
    (port_of "127.0.0.1:50278" ≡ pos 50278)
    × (port_of "[::1]:80" ≡ pos 80)
    × (port_of "*:*" ≡ negsuc 0)
    × (port_of "host" ≡ negsuc 0)
unfolding port_of atoi
ports = (refl, refl, refl, refl)

ends :
    find_echo_socks (client_end ∷ server_end 50 "1050" ∷ []) (pos 50278) (pos 8080)
    ≡ (some (server_end 50 "1050"), some client_end)
unfolding find_echo_socks port_of atoi
ends = refl

classes :
    ((ws_echo_classify first stuck).class ≡ verdict_wedge)
    × ((ws_echo_classify first moving).class ≡ verdict_slow)
    × ((ws_echo_classify first first).class ≡ verdict_indeterminate)
unfolding ws_echo_classify lookup atoi sub64 add64 wrap64 ◌+ℤ◌ ◌-ℤ◌ srv_reads counter srv_writes
    client_bytes_unexplained
classes = (refl, refl, refl)

ws_echo_classify-slow_example :
    ((ws_echo_classify first moving).class ≡ verdict_slow)
    ↔ ((1000 < 1020) ⊎ (0 + 100 + 256 ≤ 0 + 100))
ws_echo_classify-slow_example =
    ws_echo_classify-slow first moving (server_end 50 "1050") (server_end 30 "1050") 1000 50 0 100
      1020 30 0 100 refl refl first-Seen moving-Seen (omega arith) (omega arith) (omega arith)

first_client : recv_q first.client ≡ pos 0
unfolding recv_q
first_client = refl

ws_echo_classify-wedge_example : ((ws_echo_classify first stuck).class ≡ verdict_wedge) ↔ (
    (copied ≡ copied)
    × (0 + 100 < 0 + 100 + 256)
    × (0 < 50)
    × (0 < 50)
    × (300 + 0 ≤ 300 + 0 + (0 + 100)))
ws_echo_classify-wedge_example =
    ws_echo_classify-wedge first stuck (server_end 50 "1050") (server_end 50 "1050") 1000 50 0 100
      1000 50 0 100 refl refl first-Seen first-Seen (omega arith) (omega arith) (omega arith) 0
      first_client (omega arith) (omega arith) (omega arith)
