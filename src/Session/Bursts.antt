-- ===== src/Session/Bursts.antt =====
-- internal/udpst/session.go: `sendBurst`, the closure of sendLoop. `draw n` is rand.Uint32N(n), the
-- answers of WriteBatch are a list of counts in which an error is 0, and `wall` gives
-- what wallNow reads for the datagram with a number.
use diagd.Base.{
  ℕ, ◌+◌, ◌-◌, ◌/◌, ◌%◌, Bool, ◌&&◌, List, [], ◌∷◌, ◌++◌, Option, none, some, ltb, leb, ◌==◌,
  if◌then◌else◌, u16, u32, length, take, replicate,
}
use diagd.Clock.{millisecond, second}
use diagd.Rates.{rate_rand_bit, ipv6_add_size, min_payload_size, max_j_payload_size}
use diagd.Protocol.{LoadPdu}

pub record EchoState : Type 0 where
  pub sec : ℕ
  pub nsec : ℕ
  pub rx_at : ℕ

-- The local `minSize`.
unfoldable pub min_size : Bool → ℕ
min_size ipv6 = if ipv6 then min_payload_size - ipv6_add_size else min_payload_size

-- The size that a field of a row asks for. A set top bit of a uint32 is a value of at least
-- `rate_rand_bit`.
unfoldable pub burst_payload : (ℕ → ℕ) → Bool → ℕ → ℕ
unfolding min_size
burst_payload draw ipv6 field =
    let low = min_size ipv6 in
    let plain = field % rate_rand_bit in
    let size : ℕ = if ipv6 && ltb ipv6_add_size plain then plain - ipv6_add_size else plain in
    if leb rate_rand_bit field && ltb low size then low + draw (size - low + 1) else size

-- The two bounds in `add`.
unfoldable pub clamp_size : Bool → ℕ → ℕ
unfolding min_size
clamp_size ipv6 size =
    let low : ℕ = if ltb size (min_size ipv6) then min_size ipv6 else size in
    if ltb max_j_payload_size low then max_j_payload_size else low

-- `d >= 0` holds for readings of the monotonic clock in order.
unfoldable pub resp_delay : Option EchoState → ℕ → ℕ
resp_delay es now = elim es [
  | none ↦ 0
  | some e ↦ let d = (now - e.rx_at) / millisecond in if ltb d 65535 then d else 65535
]

abbrev echo_sec : Option EchoState → ℕ
echo_sec es = elim es [ none ↦ 0 | some e ↦ e.sec ]

abbrev echo_nsec : Option EchoState → ℕ
echo_nsec es = elim es [ none ↦ 0 | some e ↦ e.nsec ]

-- The header that `add` writes, for the sequence number `seq`.
unfoldable pub burst_header : ℕ → Option EchoState → ℕ → ℕ → ℕ → ℕ → LoadPdu
unfolding resp_delay
burst_header action es now wall seq size = record {
  test_action = action;
  rx_stopped = 0;
  seq_no = seq;
  udp_payload = u16 size;
  spdu_seq_err = 0;
  spdu_time_sec = echo_sec es;
  spdu_time_nsec = echo_nsec es;
  time_sec = u32 (wall / second);
  time_nsec = wall % second;
  rtt_resp_delay = resp_delay es now;
}

-- The headers of datagrams of the given sizes, behind the sequence number `seq`.
unfoldable pub headers : ℕ → Option EchoState → ℕ → (ℕ → ℕ) → ℕ → List ℕ → List LoadPdu
headers action es now wall seq [] = []
headers action es now wall seq (size ∷ sizes) =
    burst_header action es now (wall (u32 (seq + 1))) (u32 (seq + 1)) size
    ∷ headers action es now wall (u32 (seq + 1)) sizes

-- The sizes of the datagrams of a burst, the add-on last.
unfoldable pub burst_sizes : (ℕ → ℕ) → Bool → ℕ → ℕ → ℕ → List ℕ
unfolding burst_payload clamp_size
burst_sizes draw ipv6 field burst addon =
    replicate burst (clamp_size ipv6 (burst_payload draw ipv6 field))
    ++ (if ltb 0 addon then clamp_size ipv6 (burst_payload draw ipv6 addon) ∷ [] else [])

-- The loop over WriteBatch: how many of `count` datagrams the kernel took. Answers that end early
-- act as an error.
unfoldable pub write_all : List ℕ → ℕ → ℕ → ℕ
write_all [] sent count = sent
write_all (n ∷ answers) sent count =
    let more = write_all answers (sent + n) count in
    if ltb sent count then (if n == 0 then sent else more) else sent

-- What a burst does: the datagrams that the kernel took, and the sequence number after it.
pub record Burst : Type 0 where
  pub taken : List LoadPdu
  pub seq : ℕ

unfoldable pub send_burst :
    (ℕ → ℕ) → Bool → Option EchoState → ℕ → (ℕ → ℕ) → List ℕ → ℕ → ℕ → ℕ → ℕ → ℕ → Burst
unfolding headers burst_sizes write_all
send_burst draw ipv6 es now wall answers action field burst addon seq =
    let sizes = burst_sizes draw ipv6 field burst addon in
    let count = length sizes in
    let sent = write_all answers 0 count in
    record {
      taken = take sent (headers action es now wall seq sizes);
      seq = u32 (u32 (seq + count) + 0x100000000 - (count - sent));
    }

-- What surrounds a call of sendBurst: the echo that it loads, its reading of the clock, its draws,
-- what wallNow reads for each number, and the answers of the kernel.
pub record Moment : Type 0 where
  pub echo : Option EchoState
  pub now : ℕ
  pub draw : ℕ → ℕ
  pub wall : ℕ → ℕ
  pub answers : List ℕ

-- A call of sendBurst.
pub record Shot : Type 0 where
  pub moment : Moment
  pub action : ℕ
  pub field : ℕ
  pub burst : ℕ
  pub addon : ℕ

abbrev pub fire : Bool → ℕ → Shot → Burst
fire ipv6 seq x =
    let m = x.moment in
    send_burst m.draw ipv6 m.echo m.now m.wall m.answers x.action x.field x.burst x.addon seq

-- Calls in a row, which share the sequence number: all datagrams that the kernel took.
unfoldable pub fire_all : Bool → ℕ → List Shot → Burst
fire_all ipv6 seq [] = record { taken = []; seq = seq }
fire_all ipv6 seq (x ∷ xs) =
    let b = fire ipv6 seq x in
    let rest = fire_all ipv6 b.seq xs in record { taken = b.taken ++ rest.taken; seq = rest.seq }
