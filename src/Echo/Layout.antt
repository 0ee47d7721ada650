-- ===== src/Echo/Layout.antt =====
-- The bytes that `respond` of internal/tr143/echo.go writes.
use diagd.Base.{
  ℕ, ◌+◌, ◌-◌, ◌/◌, ◌≤◌, ◌<◌, ◌≡◌, List, ◌∷◌, length, take, drop, get32, u32, join32, arith,
}
use diagd.Base.Int.{ℤ, pos, negsuc, sub_ℕ}
use diagd.Clock.{quot, u32_ℤ}
use diagd.Echo.{
  EchoServer, stamp, response, echo_plus_min_len, echo_off_recv_time, echo_off_reply_time,
}

u32_ℤ_lt : (a : ℤ) → u32_ℤ a < 4294967296
u32_ℤ_lt (pos n) = omega arith
u32_ℤ_lt (negsuc n) = omega arith

pub stamp_lt : (s : EchoServer) (t : ℕ) → stamp s t < 4294967296
unfolding stamp
stamp_lt s t = u32_ℤ_lt (quot (sub_ℕ t s.epoch) 1000)

-- What an Echo Plus client reads in an answer to its packet: the five fields of the server, and its
-- own bytes in front of them and behind them.
pub record IsEcho (s : EchoServer) (pkt : List ℕ) (rx_time now : ℕ) (out : List ℕ) : Type 0 where
  pub same_length : length out ≡ length pkt
  pub test_gen_sn : take 4 out ≡ take 4 pkt
  pub resp_sn : get32 out 4 ≡ u32 (s.responses + 1)
  pub recv_time : get32 out 8 ≡ stamp s rx_time
  pub reply_time : get32 out 12 ≡ stamp s now
  pub failure_count : get32 out 16 ≡ s.failures
  pub rest_kept : drop 20 out ≡ drop 20 pkt

-- A packet of 20 bytes or more is answered with the next sequence number, both times and the count
-- of failures in their places; its length, its first four bytes and all behind the twentieth stay.
-- The count of failures is a 32-bit number.
pub response-IsEcho :
    (s : EchoServer) (pkt : List ℕ) (rx_time now : ℕ)
    → echo_plus_min_len ≤ length pkt
    → s.failures < 4294967296
    → IsEcho s pkt rx_time now (response s pkt rx_time now)
unfolding response
response-IsEcho s
      (x0 ∷ x1 ∷ x2 ∷ x3 ∷ x4 ∷ x5 ∷ x6 ∷ x7 ∷ x8 ∷ x9 ∷ x10 ∷ x11 ∷ x12 ∷ x13 ∷ x14 ∷ x15 ∷ x16
        ∷ x17 ∷ x18 ∷ x19 ∷ pad)
      rx_time now h w =
    ground (
      arith,
      w,
      join32 (u32 (s.responses + 1)),
      join32 (stamp s rx_time) (stamp_lt s rx_time),
      join32 (stamp s now) (stamp_lt s now),
      join32 s.failures w,
    )
response-IsEcho s _ rx_time now h w = absurd (omega arith)

turn_around :
    (s : EchoServer) (rx_time now : ℕ)
    → s.epoch ≤ rx_time
    → rx_time ≤ now
    → (now - s.epoch) / 1000 < (rx_time - s.epoch) / 1000 + 4294967296
    → u32 (stamp s now + 4294967296 - stamp s rx_time)
      ≡ (now - s.epoch) / 1000 - (rx_time - s.epoch) / 1000
unfolding stamp
turn_around s rx_time now after_epoch after_rx short = ground (arith, after_epoch, after_rx, short)

-- The time between the two stamps of an answer, as the client reads it from their 32-bit difference,
-- is the one between the two readings in microseconds since the start, though the stamps wrap; the
-- readings come after the start and in order, and less than 2^32 microseconds lie between them.
pub turnaround_exact :
    (s : EchoServer) (pkt : List ℕ) (rx_time now : ℕ)
    → echo_plus_min_len ≤ length pkt
    → s.failures < 4294967296
    → s.epoch ≤ rx_time
    → rx_time ≤ now
    → (now - s.epoch) / 1000 < (rx_time - s.epoch) / 1000 + 4294967296
    → let out = response s pkt rx_time now in
      u32 (get32 out echo_off_reply_time + 4294967296 - get32 out echo_off_recv_time)
      ≡ (now - s.epoch) / 1000 - (rx_time - s.epoch) / 1000
turnaround_exact s pkt rx_time now h w after_epoch after_rx short =
    let e = response-IsEcho s pkt rx_time now h w in
    omega (arith, e.recv_time, e.reply_time, turn_around s rx_time now after_epoch after_rx short)
