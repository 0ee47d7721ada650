-- ===== src/Server/Ports.antt =====
-- internal/udpst/server.go: which port `newSessionSocket` gives a session.
use diagd.Base.{
  ℕ, zero, suc, ◌+◌, ◌-◌, ◌%◌, ◌<◌, ◌≤◌, ◌≡◌, ◌≢◌, refl, ap, subst, ◌∙◌, false, Option, none, some,
  ltb, leb, true, if◌then◌else◌, arith,
}
use native.Mathlib.Nat.{mod-lt, mod-eq_of_lt, add-mod_right}
use native.Mathlib.Decide.{dec_lt}
use diagd.Server.{Config, Server, new_session_socket, port_at, try_ports}

-- A configured range of test ports.
pub record IsRange (cfg : Config) : Type 0 where
  pub low : 0 < cfg.test_port_min
  pub order : cfg.test_port_min ≤ cfg.test_port_max

record IsChoice (bind : ℕ → Option ℕ) (lo span port : ℕ) : Type 0 where
  at_least : lo ≤ port
  below : port < lo + span
  bound : bind port ≢ none

-- Where the port to try first is not below the range, the remainder is that of a natural number.
port_at_lem :
    (lo span start i : ℕ) → lo ≤ start → port_at lo span start i ≡ lo + (start - lo + i) % span
unfolding port_at
port_at_lem lo span start i h =
    let ahead : start + i - lo ≡ start - lo + i = omega (arith, h) in
    let ready : leb lo (start + i) ≡ true = ground (arith, h) in
    rw ready (ap (λ n. lo + n % span) ahead)

try_ports_sound :
    (bind : ℕ → Option ℕ) (lo span start left i port : ℕ)
    → 0 < span
    → lo ≤ start
    → try_ports bind lo span start left i ≡ some port
    → IsChoice bind lo span port
unfolding try_ports
try_ports_sound bind lo span start zero i port h first e = absurd (ground (arith, e))
try_ports_sound bind lo span start (suc left) i port h first e =
    elim (bind (port_at lo span start i))
        as (λ o. bind (port_at lo span start i) ≡ o → IsChoice bind lo span port) [
          | none ↦
              λ b. try_ports_sound bind lo span start left (i + 1) port h first (ground (arith, b))
          | some q ↦ λ b. chosen (ground (arith, b)) b
        ]
      refl
  where
    chosen :
        {q : ℕ}
        → port_at lo span start i ≡ port
        → bind (port_at lo span start i) ≡ some q
        → IsChoice bind lo span port
    chosen same b = record {
      at_least = omega (arith, same, port_at_lem lo span start i first);
      below = omega (arith, same, port_at_lem lo span start i first, mod-lt (start - lo + i) h);
      bound = λ n. ground (arith, b, ap bind same, n);
    }

try_ports_complete :
    (bind : ℕ → Option ℕ) (lo span start left i j : ℕ)
    → try_ports bind lo span start left i ≡ none
    → i ≤ j
    → j < i + left
    → bind (port_at lo span start j) ≡ none
unfolding try_ports
try_ports_complete bind lo span start zero i j e le lt = absurd (omega (arith, le, lt))
try_ports_complete bind lo span start (suc left) i j e le lt = elim (dec_lt i j) [
  | yes h ↦
      try_ports_complete bind lo span start left (i + 1) j (ground (arith, e)) (omega (arith, h))
        (omega (arith, lt))
  | no h ↦ here (omega (arith, h, le))
]
  where
    here : i ≡ j → bind (port_at lo span start j) ≡ none
    here same = subst (λ k. bind (port_at lo span start k) ≡ none) same (ground (arith, e))

-- Every port of the range comes up in some round.
round_of :
    (lo span start port : ℕ)
    → lo ≤ start
    → start < lo + span
    → lo ≤ port
    → port < lo + span
    → (j : ℕ) × ((j < span) × (lo + (start - lo + j) % span ≡ port))
round_of lo span start port l1 l2 p1 p2 = elim (dec_lt port start) [
  | yes h ↦ (
    port + span - start,
    (
      omega (arith, h, l2),
      ap (◌+◌ lo) (ap (λ n. n % span) (wraps h) ∙ (add-mod_right (port - lo) span ∙ small)) ∙ back,
    ),
  )
  | no h ↦ (
    port - start,
    (omega (arith, h, l1, p2), ap (◌+◌ lo) (ap (λ n. n % span) (ahead h) ∙ small) ∙ back),
  )
]
  where
    small : (port - lo) % span ≡ port - lo
    small = mod-eq_of_lt (omega (arith, p1, p2))

    back : lo + (port - lo) ≡ port
    back = omega (arith, p1)

    wraps : port < start → start - lo + (port + span - start) ≡ port - lo + span
    wraps h = omega (arith, h, l1, l2, p1)

    ahead : ¬ (port < start) → start - lo + (port - start) ≡ port - lo
    ahead h = omega (arith, h, l1)

range_span : Config → ℕ
range_span cfg = cfg.test_port_max - cfg.test_port_min + 1

ranged_some :
    (bind : ℕ → Option ℕ) (s : Server) (port : ℕ)
    → IsRange s.cfg
    → (new_session_socket bind s).1 ≡ some port
    → (try_ports bind s.cfg.test_port_min (range_span s.cfg) s.next_port (range_span s.cfg) 0
        ≡ some port)
      × ((new_session_socket bind s).0.next_port
          ≡ (if ltb s.cfg.test_port_max (port + 1) then s.cfg.test_port_min else port + 1))
unfolding new_session_socket range_span
ranged_some bind s port r e = ground (arith, r.low, r.order, e)

ranged_none :
    (bind : ℕ → Option ℕ) (s : Server)
    → IsRange s.cfg
    → s.closed ≡ false
    → s.sessions < s.cfg.max_sessions
    → (new_session_socket bind s).1 ≡ none
    → try_ports bind s.cfg.test_port_min (range_span s.cfg) s.next_port (range_span s.cfg) 0 ≡ none
unfolding new_session_socket range_span
ranged_none bind s r open_still place e = ground (arith, r.low, r.order, open_still, place, e)

next_in_range :
    (cfg : Config) (port : ℕ)
    → IsRange cfg
    → cfg.test_port_min ≤ port
    → (n : ℕ) → n ≡ (if ltb cfg.test_port_max (port + 1) then cfg.test_port_min else port + 1)
    → (cfg.test_port_min ≤ n) × (n ≤ cfg.test_port_max)
next_in_range cfg port r le n e = ground (arith, r.order, le, e)

-- With a port range and a port to try first that is not below it, as a new server has it, the port of
-- a new session lies in the range and could be bound, and so does the port to try first next time
-- lie in it.
pub session_port_in_range :
    (bind : ℕ → Option ℕ) (s : Server) (port : ℕ)
    → IsRange s.cfg
    → s.cfg.test_port_min ≤ s.next_port
    → (new_session_socket bind s).1 ≡ some port
    → ((s.cfg.test_port_min ≤ port) × (port ≤ s.cfg.test_port_max))
      × ((bind port ≢ none)
          × let t = (new_session_socket bind s).0 in
            (s.cfg.test_port_min ≤ t.next_port) × (t.next_port ≤ s.cfg.test_port_max))
unfolding range_span
session_port_in_range bind s port r first e =
    let (tried, after) = ranged_some bind s port r e in
    let c =
      try_ports_sound bind s.cfg.test_port_min (range_span s.cfg) s.next_port (range_span s.cfg) 0
        port (omega arith) first tried in
    (
      (c.at_least, omega (arith, c.below, r.order)),
      (c.bound, next_in_range s.cfg port r c.at_least _ after),
    )

-- With a port range that holds the port to try first, and a place free, a server that is not closed
-- refuses a socket only where no port of the whole range can be bound.
pub refused_range_full :
    (bind : ℕ → Option ℕ) (s : Server) (port : ℕ)
    → IsRange s.cfg
    → s.cfg.test_port_min ≤ s.next_port
    → s.next_port ≤ s.cfg.test_port_max
    → s.closed ≡ false
    → s.sessions < s.cfg.max_sessions
    → (new_session_socket bind s).1 ≡ none
    → s.cfg.test_port_min ≤ port
    → port ≤ s.cfg.test_port_max
    → bind port ≡ none
unfolding range_span
refused_range_full bind s port r n1 n2 open_still place e p1 p2 =
    let lo = s.cfg.test_port_min in
    let span = range_span s.cfg in
    let (j, (lt, same)) =
      round_of lo span s.next_port port n1 (omega (arith, n2, r.order)) p1
        (omega (arith, p2, r.order)) in
    subst (λ q. bind q ≡ none) (port_at_lem lo span s.next_port j n1 ∙ same)
      (try_ports_complete bind lo span s.next_port span 0 j
        (ranged_none bind s r open_still place e) (omega arith) (omega (arith, lt)))
