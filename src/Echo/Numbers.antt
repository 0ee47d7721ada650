-- ===== src/Echo/Numbers.antt =====
-- The sequence numbers of the answers of the responder of internal/tr143/echo.go.
use diagd.Base.{
  ℕ, ◌+◌, ◌≤◌, ◌<◌, ◌≡◌, refl, ap, ◌∙◌, subst, ◌∙◌, Bool-cases, inl, inr, true, false, ◌&&◌, List,
  [], ◌∷◌, ◌++◌, length, get32, leb, if◌then◌else◌, u32, u64, arith,
}
use diagd.Echo.{
  EchoServer, Packet, handle_packet, respond, response, control_state, echo_plus_min_len,
  rx_time_of,
}
use diagd.Echo.Layout.{response-IsEcho}
use diagd.Echo.Packets.{drops_of, is_plus, control_state-Noted, failures_fit}

-- The Echo Plus answers carry the numbers behind `from`, one by one.
unfoldable pub Numbered : ℕ → List (List ℕ) → Type 0
Numbered from [] = Unit {0}
Numbered from (out ∷ outs) =
    if leb echo_plus_min_len (length out)
    then (get32 out 4 ≡ u32 (from + 1)) × Numbered (from + 1) outs
    else Numbered from outs

response_keeps_length :
    (s : EchoServer) (pkt : List ℕ) (rx_time now : ℕ)
    → s.failures < 4294967296
    → length (response s pkt rx_time now) ≡ length pkt
response_keeps_length s pkt rx_time now w = elim (Bool-cases (leb echo_plus_min_len (length pkt))) [
  | inl h ↦ (response-IsEcho s pkt rx_time now (ground (arith, h)) w).same_length
  | inr h ↦ unfold response in rw h refl
]

plus-Numbered :
    (s : EchoServer) (pkt : List ℕ) (rx_time now from : ℕ) (outs : List (List ℕ))
    → s.failures < 4294967296
    → s.responses ≡ u32 from
    → leb echo_plus_min_len (length pkt) ≡ true
    → Numbered (from + 1) outs
    → Numbered from (response s pkt rx_time now ∷ outs)
unfolding Numbered
plus-Numbered s pkt rx_time now from outs w e long h =
    let echo = response-IsEcho s pkt rx_time now (ground (arith, long)) w in
    rw (ap (leb echo_plus_min_len) (response_keeps_length s pkt rx_time now w))
      (rw long ((omega (arith, echo.resp_sn, e), h)))

short-Numbered :
    (s : EchoServer) (pkt : List ℕ) (rx_time now from : ℕ) (outs : List (List ℕ))
    → s.failures < 4294967296
    → leb echo_plus_min_len (length pkt) ≡ false
    → Numbered from outs
    → Numbered from (response s pkt rx_time now ∷ outs)
unfolding Numbered
short-Numbered s pkt rx_time now from outs w short h =
    rw (ap (leb echo_plus_min_len) (response_keeps_length s pkt rx_time now w)) (rw short h)

respond-Numbered :
    (s : EchoServer) (p : Packet) (rx_time from : ℕ) (outs : List (List ℕ))
    → s.failures < 4294967296
    → s.responses ≡ u32 from
    → Numbered (from + (if p.written && leb echo_plus_min_len (length p.bytes) then 1 else 0)) outs
    → Numbered from ((respond s p rx_time).1 ++ outs)
unfolding respond
respond-Numbered s p rx_time from outs w e h = elim (Bool-cases p.written) [
  | inl a ↦ elim (Bool-cases (leb echo_plus_min_len (length p.bytes))) [
    | inl b ↦ rw a (
        rw b (
          plus-Numbered s p.bytes rx_time p.replied from outs w e b
            (subst (λ n. Numbered n outs) (ground (arith, a, b)) h)))
    | inr b ↦ rw a (
        rw b (
          short-Numbered s p.bytes rx_time p.replied from outs w b
            (subst (λ n. Numbered n outs) (ground (arith, a, b)) h)))
  ]
  | inr a ↦ rw a (subst (λ n. Numbered n outs) (ground (arith, a)) h)
]

pub handle_packet-Numbered :
    (s : EchoServer) (p : Packet) (from : ℕ) (outs : List (List ℕ))
    → s.failures < 4294967296
    → s.last_drops ≤ drops_of s.last_drops p
    → s.responses ≡ u32 from
    → Numbered (from + (if is_plus p then 1 else 0)) outs
    → Numbered from ((handle_packet s p).1 ++ outs)
unfolding handle_packet
handle_packet-Numbered s p from outs w rising e h =
    let t = control_state s p in
    let n = control_state-Noted s p w rising in
    let u : EchoServer = record t { received = u64 (t.received + 1) } in
    elim (Bool-cases p.allowed) [
      | inl a ↦ simp a (
          respond-Numbered u p (rx_time_of p) from outs (failures_fit n) (n.responses ∙ e)
            (subst (λ n. Numbered n outs) (ground (arith, a)) h))
      | inr a ↦ simp a (subst (λ n. Numbered n outs) (ground (arith, a)) h)
    ]
