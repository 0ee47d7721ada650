-- ===== src/Server.antt =====
-- internal/udpst/server.go: the configuration, the shared state of the server, and the operations
-- that its mutex guards. newSessionSocket locks it several times, here with nothing in between;
-- Interleaving takes its sections apart. An `int` of the configuration is taken not to be negative.
pub mod Code
pub mod Checks
pub mod Outcomes
pub mod Ledger
pub mod Setup
pub mod Admission
pub mod Ports
pub mod Response
pub mod Interleaving
pub mod Sections
pub mod Refinement
pub mod Lifetime
pub mod Examples
mod Runs
mod Tests
use diagd.Base.{
  ℕ, zero, suc, ◌+◌, ◌-◌, ◌*◌, ◌%◌, ◌<◌, ◌≤◌, Bool, true, false, not, ◌&&◌, ◌||◌, List, [], ◌∷◌,
  Option, none, some, ltb, leb, ◌==◌, if◌then◌else◌, u64,
}

pub record Config : Type 0 where
  pub keys : List (ℕ × List ℕ)
  pub max_bandwidth_mbps : ℕ
  pub jumbo : Bool
  pub traditional_mtu : Bool
  pub max_test_seconds : ℕ
  pub max_sessions : ℕ
  pub test_port_min : ℕ
  pub test_port_max : ℕ

pub record Server : Type 0 where
  pub cfg : Config
  pub used_us : ℕ
  pub used_ds : ℕ
  pub sessions : ℕ
  pub next_port : ℕ
  pub closed : Bool
  pub tests_upstream : ℕ
  pub tests_downstream : ℕ
  pub setup_accepts : ℕ
  pub setup_rejects : ℕ

unfoldable pub new_server : Config → Server
new_server cfg = record {
  cfg = record cfg { max_sessions = if cfg.max_sessions == 0 then 256 else cfg.max_sessions };
  used_us = 0;
  used_ds = 0;
  sessions = 0;
  next_port = cfg.test_port_min;
  closed = false;
  tests_upstream = 0;
  tests_downstream = 0;
  setup_accepts = 0;
  setup_rejects = 0;
}

unfoldable pub reserve_bandwidth : Server → Bool → ℕ → Server × Bool
reserve_bandwidth s upstream mbw =
    let used : ℕ = if upstream then s.used_us else s.used_ds in
    if ltb s.cfg.max_bandwidth_mbps (used + mbw)
    then (s, false)
    else (if upstream
        then (record s { used_us = used + mbw }, true)
        else (record s { used_ds = used + mbw }, true))

-- The subtractions are of `int`s; the server's invariant shows that none goes below 0.
unfoldable pub release_bandwidth : Server → Bool → ℕ → Server
release_bandwidth s upstream mbw =
    if upstream
    then record s { used_us = s.used_us - mbw }
    else record s { used_ds = s.used_ds - mbw }

unfoldable pub session_done : Server → Server
session_done s = record s { sessions = s.sessions - 1 }

-- The port that a round tries. The remainder of a negative number is not above 0, as in Go.
unfoldable pub port_at : ℕ → ℕ → ℕ → ℕ → ℕ
port_at lo span start i =
    if leb lo (start + i) then lo + (start + i - lo) % span else lo - (lo - (start + i)) % span

-- The loop over the port range, with the rounds left; the port that could be bound.
unfoldable pub try_ports : (ℕ → Option ℕ) → ℕ → ℕ → ℕ → ℕ → ℕ → Option ℕ
try_ports bind lo span start zero i = none
try_ports bind lo span start (suc left) i =
    let port = port_at lo span start i in
    let rest = try_ports bind lo span start left (i + 1) in
    elim (bind port) [ none ↦ rest | some p ↦ some port ]

-- `bind port` is net.ListenUDP: the local port of the new socket, or nothing; port 0 asks for any.
unfoldable pub new_session_socket : (ℕ → Option ℕ) → Server → Server × Option ℕ
unfolding try_ports session_done
new_session_socket bind s =
    let lo = s.cfg.test_port_min in
    let hi = s.cfg.test_port_max in
    let span = hi - lo + 1 in
    let t : Server = record s { sessions = s.sessions + 1 } in
    let ranged : Server × Option ℕ = elim (try_ports bind lo span s.next_port span 0) [
      | none ↦ (session_done t, none)
      | some port ↦ (record t { next_port = if ltb hi (port + 1) then lo else port + 1 }, some port)
    ] in
    let any : Server × Option ℕ = elim (bind 0) [
      | none ↦ (session_done t, none)
      | some port ↦ (t, some port)
    ] in
    if s.closed
    then (s, none)
    else (if leb s.cfg.max_sessions s.sessions
        then (s, none)
        else (if ltb 0 lo && leb lo hi then ranged else any))

unfoldable pub close : Server → Server
close s = record s { closed = true }

pub record Stats : Type 0 where
  pub active_sessions : ℕ
  pub upstream_mbps_allocated : ℕ
  pub downstream_mbps_allocated : ℕ
  pub tests_upstream : ℕ
  pub tests_downstream : ℕ
  pub setup_accepts : ℕ
  pub setup_rejects : ℕ

unfoldable pub stats : Server → Stats
stats s = record {
  active_sessions = s.sessions;
  upstream_mbps_allocated = s.used_us;
  downstream_mbps_allocated = s.used_ds;
  tests_upstream = s.tests_upstream;
  tests_downstream = s.tests_downstream;
  setup_accepts = s.setup_accepts;
  setup_rejects = s.setup_rejects;
}
