-- ===== src/Echo/Packets.antt =====
-- What one packet does to the counters of the responder of internal/tr143/echo.go.
use diagd.Base.{
  ℕ, ◌+◌, ◌-◌, ◌≤◌, ◌<◌, ◌≡◌, refl, sym, subst, Bool, ◌&&◌, not, List, none, some, length, leb,
  if◌then◌else◌, u32, u64, arith,
}
use diagd.Echo.{
  EchoServer, Packet, handle_packet, respond, control_state, note_drops, parse_rx_control,
  echo_plus_min_len, rx_time_of,
}

-- The drops that the kernel has reported, behind those known before.
abbrev pub drops_of : ℕ → Packet → ℕ
drops_of drops p = elim p.control [ none ↦ drops | some ms ↦ (parse_rx_control none 0 ms).1 ]

-- Tests of a packet: whether it counts as received, as a failed answer, as an Echo Plus answer.
abbrev pub is_failed : Packet → Bool
is_failed p = p.allowed && not p.written

abbrev pub is_plus : Packet → Bool
is_plus p = (p.allowed && p.written) && leb echo_plus_min_len (length p.bytes)

-- What control data changes.
pub record Noted (s t : EchoServer) (drops : ℕ) : Type 0 where
  pub received : t.received ≡ s.received
  pub responses : t.responses ≡ s.responses
  pub last : t.last_drops ≡ drops
  pub failures : t.failures ≡ u32 (s.failures + (drops - s.last_drops))

note_drops-Noted :
    (s : EchoServer) (drops : ℕ)
    → s.failures < 4294967296
    → s.last_drops ≤ drops
    → Noted s (note_drops s drops) drops
unfolding note_drops
note_drops-Noted s drops w rising = ground (arith, w, rising)

pub failures_fit : {s t : EchoServer} {drops : ℕ} → Noted s t drops → t.failures < 4294967296
failures_fit n = omega (arith, n.failures)

pub control_state-Noted :
    (s : EchoServer) (p : Packet)
    → s.failures < 4294967296
    → s.last_drops ≤ drops_of s.last_drops p
    → Noted s (control_state s p) (drops_of s.last_drops p)
unfolding control_state
control_state-Noted s p w rising =
    elim (p.control)
        as (λ c.
          c ≡ p.control
          → Noted s (elim c [ none ↦ s | some ms ↦ note_drops s (parse_rx_control none 0 ms).1 ])
              (elim c [ none ↦ s.last_drops | some ms ↦ (parse_rx_control none 0 ms).1 ])) [
                | none ↦ λ e. record {
                  received = refl;
                  responses = refl;
                  last = refl;
                  failures = omega (arith, w);
                }
                | some ms ↦ λ e. note_drops-Noted s (parse_rx_control none 0 ms).1 w (
                    subst
                      (λ c.
                        s.last_drops
                        ≤ elim c [ none ↦ s.last_drops | some ms ↦ (parse_rx_control none 0 ms).1 ])
                      (sym e) rising)
              ]
      refl

-- What a packet adds to the counters.
pub record Handled (s t : EchoServer) (p : Packet) (out : List (List ℕ)) : Type 0 where
  pub received : t.received ≡ (if p.allowed then u64 (s.received + 1) else s.received)
  pub responses : t.responses ≡ (if is_plus p then u32 (s.responses + 1) else s.responses)
  pub last : t.last_drops ≡ drops_of s.last_drops p
  pub failures :
      t.failures ≡ u32 (s.failures + (t.last_drops - s.last_drops) + (if is_failed p then 1 else 0))
  pub answered : length out + (if is_failed p then 1 else 0) ≡ (if p.allowed then 1 else 0)

-- What an answer changes.
pub record Answered (s t : EchoServer) (p : Packet) (out : List (List ℕ)) : Type 0 where
  pub received : t.received ≡ s.received
  pub last : t.last_drops ≡ s.last_drops
  pub responses : t.responses ≡ (
      if p.written && leb echo_plus_min_len (length p.bytes)
      then u32 (s.responses + 1)
      else s.responses)
  pub failures : t.failures ≡ u32 (s.failures + (if p.written then 0 else 1))
  pub answered : length out ≡ (if p.written then 1 else 0)

respond-Answered :
    (s : EchoServer) (p : Packet) (rx_time : ℕ)
    → s.failures < 4294967296
    → let r = respond s p rx_time in Answered s r.0 p r.1
unfolding respond
respond-Answered s p rx_time w = ground (arith, w)

pub handle_packet-Handled :
    (s : EchoServer) (p : Packet)
    → s.failures < 4294967296
    → s.last_drops ≤ drops_of s.last_drops p
    → let r = handle_packet s p in Handled s r.0 p r.1
unfolding handle_packet
handle_packet-Handled s p w rising =
    let t = control_state s p in
    let n = control_state-Noted s p w rising in
    let a =
      respond-Answered (record t { received = u64 (t.received + 1) }) p (rx_time_of p)
        (failures_fit n) in
    ground (
      arith, n.received, n.responses, n.last, n.failures, a.received, a.last, a.responses,
      a.failures, a.answered,
    )
