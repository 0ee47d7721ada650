-- ===== src/Echo/Examples.antt =====
-- Tests and instances for internal/tr143/echo.go.
use diagd.Base.{
  ℕ, ◌+◌, ◌-◌, ◌/◌, ◌≡◌, refl, true, false, List, [], ◌∷◌, none, some, replicate, get32, u32, arith,
}
use diagd.Echo.{
  EchoServer, new_echo_server, timestamp, overflow, Packet, Received, closed, packet, serve,
  response, handle_packet, respond, control_state, note_drops, parse_rx_control,
}
use diagd.Echo.Layout.{IsEcho, response-IsEcho, turnaround_exact}

-- A responder whose stamps are about to wrap.
abbrev server : EchoServer
server = record (new_echo_server 5000) { responses = 41; failures = 7 }

abbrev request : List ℕ
request = replicate 24 9

response-IsEcho_example : IsEcho server request 6000 9000 (response server request 6000 9000)
response-IsEcho_example =
    response-IsEcho server request 6000 9000 (omega arith) (unfold new_echo_server in omega arith)

-- 2^32 - 1 microseconds after the start, and two later.
turnaround_exact_example :
    let out = response server request 4294967300000 4294967302000 in
    u32 (get32 out 12 + 4294967296 - get32 out 8)
    ≡ (4294967302000 - 5000) / 1000 - (4294967300000 - 5000) / 1000
turnaround_exact_example =
    unfold new_echo_server in
    turnaround_exact server request 4294967300000 4294967302000 (omega arith) (omega arith)
      (omega arith) (omega arith) (omega arith)

abbrev arrival : Packet
arrival = record {
  bytes = request;
  control = some (timestamp 6000 ∷ (overflow 3 ∷ []));
  allowed = true;
  arrived = 6500;
  replied = 7000;
  written = true;
}

-- An answer after three drops, a failed one, a plain echo, and a packet of a peer that is not allowed.
abbrev arrivals : List Received
arrivals =
    packet arrival
    ∷ packet (record arrival { written = false; control = none })
    ∷ packet (record arrival { bytes = 1 ∷ [] })
    ∷ packet (record arrival { allowed = false; control = some (overflow 5 ∷ []) })
    ∷ closed
    ∷ []

-- Five drops and a failed answer.
failures_counted : (serve (new_echo_server 5000) arrivals).state.failures ≡ 6
unfolding serve handle_packet respond control_state note_drops parse_rx_control new_echo_server
failures_counted = refl
