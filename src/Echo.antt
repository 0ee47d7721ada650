-- ===== src/Echo.antt =====
-- internal/tr143/echo.go: the UDP Echo Plus responder, and parseRxControl of echo_linux.go. A packet
-- is its bytes. What the socket gives and the readings of the clock are arguments.
pub mod Layout
pub mod Packets
pub mod Numbers
pub mod Accounts
mod Examples
use diagd.Base.{
  ℕ, ◌+◌, ◌-◌, Bool, true, false, ◌||◌, not, List, [], ◌∷◌, ◌++◌, Option, none, some, ltb, leb,
  ◌==◌, if◌then◌else◌, length, u32, u64, put32,
}
use diagd.Base.Int.{sub_ℕ}
use diagd.Clock.{quot, u32_ℤ}

abbrev pub echo_off_resp_sn : ℕ
echo_off_resp_sn = 4

abbrev pub echo_off_recv_time : ℕ
echo_off_recv_time = 8

abbrev pub echo_off_reply_time : ℕ
echo_off_reply_time = 12

abbrev pub echo_off_failure_count : ℕ
echo_off_failure_count = 16

abbrev pub echo_plus_min_len : ℕ
echo_plus_min_len = 20

pub record EchoServer : Type 0 where
  pub epoch : ℕ
  pub received : ℕ
  pub responses : ℕ
  pub failures : ℕ
  pub last_drops : ℕ

unfoldable pub new_echo_server : ℕ → EchoServer
new_echo_server now = record {
  epoch = now;
  received = 0;
  responses = 0;
  failures = 0;
  last_drops = 0;
}

pub record EchoStats : Type 0 where
  pub packets_received : ℕ
  pub responses : ℕ
  pub failures : ℕ

-- Stats.
unfoldable pub stats : EchoServer → EchoStats
stats s = record { packets_received = s.received; responses = s.responses; failures = s.failures }

-- A control message of the socket that ParseSocketControlMessage gives: one of SCM_TIMESTAMPNS or
-- SO_RXQ_OVFL with all its data, or any other.
pub data Message : Type 0 where
  timestamp : ℕ → Message
  overflow : ℕ → Message
  other : Message

-- parseRxControl behind the time and the drops read so far; no time is the zero time.
unfoldable pub parse_rx_control : Option ℕ → ℕ → List Message → Option ℕ × ℕ
parse_rx_control rx_time drops [] = (rx_time, drops)
parse_rx_control rx_time drops (timestamp t ∷ ms) = parse_rx_control (some t) drops ms
parse_rx_control rx_time drops (overflow n ∷ ms) = parse_rx_control rx_time n ms
parse_rx_control rx_time drops (other ∷ ms) = parse_rx_control rx_time drops ms

-- t.Sub(epoch).Microseconds() is signed, and uint32 takes its low 32 bits.
unfoldable pub stamp : EchoServer → ℕ → ℕ
stamp s t = u32_ℤ (quot (sub_ℕ t s.epoch) 1000)

-- What a read gives: control messages where there are any and they parse, whether the configuration
-- allows the peer, the clock after the read and before the write, and whether the write succeeds.
pub record Packet : Type 0 where
  pub bytes : List ℕ
  pub control : Option (List Message)
  pub allowed : Bool
  pub arrived : ℕ
  pub replied : ℕ
  pub written : Bool

-- The accounting of drops that the kernel reports.
unfoldable pub note_drops : EchoServer → ℕ → EchoServer
note_drops s drops = record s {
  failures =
      if ltb s.last_drops drops then u32 (s.failures + (drops - s.last_drops)) else s.failures;
  last_drops = if not (drops == 0) || not (s.last_drops == 0) then drops else s.last_drops;
}

-- The packet that `respond` writes.
unfoldable pub response : EchoServer → List ℕ → ℕ → ℕ → List ℕ
unfolding stamp
response s pkt rx_time now =
    if leb echo_plus_min_len (length pkt)
    then put32
        (put32
          (put32 (put32 pkt echo_off_resp_sn (u32 (s.responses + 1))) echo_off_recv_time
            (stamp s rx_time))
          echo_off_failure_count s.failures)
        echo_off_reply_time (stamp s now)
    else pkt

-- respond: the state after it, and the packet where the write succeeds.
unfoldable pub respond : EchoServer → Packet → ℕ → EchoServer × List (List ℕ)
respond s p rx_time =
    if not p.written
    then (record s { failures = u32 (s.failures + 1) }, [])
    else (if leb echo_plus_min_len (length p.bytes)
        then (
          record s { responses = u32 (s.responses + 1) },
          response s p.bytes rx_time p.replied ∷ [],
        )
        else (s, response s p.bytes rx_time p.replied ∷ []))

-- What the control data of a packet does to the state.
unfoldable pub control_state : EchoServer → Packet → EchoServer
control_state s p = elim p.control [
  | none ↦ s
  | some ms ↦ note_drops s (parse_rx_control none 0 ms).1
]

-- The receive time of a packet: the kernel's, or the clock's.
unfoldable pub rx_time_of : Packet → ℕ
rx_time_of p = elim p.control [
  | none ↦ p.arrived
  | some ms ↦ elim (parse_rx_control none 0 ms).0 [ none ↦ p.arrived | some t ↦ t ]
]

-- One round of Serve.
unfoldable pub handle_packet : EchoServer → Packet → EchoServer × List (List ℕ)
handle_packet s p =
    let t = control_state s p in
    if not p.allowed
    then (t, [])
    else respond (record t { received = u64 (t.received + 1) }) p (rx_time_of p)

-- What ReadMsgUDPAddrPort gives: an error, of a closed socket or another, or a packet.
pub data Received : Type 0 where
  closed : Received
  failed : Received
  packet : Packet → Received

pub record Served : Type 0 where
  pub state : EchoServer
  pub sent : List (List ℕ)
  pub clean : Bool

-- Serve over what the reads give: it returns nil for a closed socket.
unfoldable pub serve : EchoServer → List Received → Served
serve s [] = record { state = s; sent = []; clean = true }
serve s (closed ∷ rest) = record { state = s; sent = []; clean = true }
serve s (failed ∷ rest) = record { state = s; sent = []; clean = false }
serve s (packet p ∷ rest) =
    let (t, out) = handle_packet s p in
    let more = serve t rest in
    record { state = more.state; sent = out ++ more.sent; clean = more.clean }
