-- ===== src/Server/Outcomes.antt =====
-- internal/udpst/server.go: what each outcome of the allocations of `handleSetup` leaves behind.
use diagd.Base.{
  ℕ, ◌+◌, ◌-◌, ◌%◌, ◌<◌, ◌≤◌, ◌≡◌, ap, Bool, true, false, Option, none, some, arith, ◌⊎◌,
}
use diagd.Protocol.{SetupPdu}
use diagd.Server.{Server, reserve_bandwidth, release_bandwidth, new_session_socket, session_done}
use diagd.Server.Checks.{AuthState}
use diagd.Server.Setup.{
  Verdict, rejected, opened, allocate, decide, admit_bandwidth, granted_mbw, wants_upstream,
  release_on_err,
}

-- A refused socket leaves the server as it was; a granted one takes one of the session places.
pub record Granted (s t : Server) : Type 0 where
  pub place : s.sessions < s.cfg.max_sessions
  pub still_open : s.closed ≡ false
  pub same : t ≡ record s { sessions = s.sessions + 1; next_port = t.next_port }

pub SocketOutcome : Server → Server × Option ℕ → Type 0
SocketOutcome s (t, none) = t ≡ s
SocketOutcome s (t, some port) = Granted s t

sessions_back : (s : Server) → session_done (record s { sessions = s.sessions + 1 }) ≡ s
unfolding session_done
sessions_back s = ap (λ n. record s { sessions = n }) (omega arith)

pub socket_outcome :
    (bind : ℕ → Option ℕ) (s : Server) → SocketOutcome s (new_session_socket bind s)
unfolding SocketOutcome new_session_socket
socket_outcome bind s = ground (arith, sessions_back s)

-- What a session of `mbw` in one direction adds to the use of a direction.
unfoldable pub charge : Bool → Bool → ℕ → ℕ
charge true true mbw = mbw
charge true false mbw = 0
charge false true mbw = 0
charge false false mbw = mbw

pub record Opened (s t : Server) (req : SetupPdu) : Type 0 where
  pub place : s.sessions < s.cfg.max_sessions
  pub config : t.cfg ≡ s.cfg
  pub taken : t.sessions ≡ s.sessions + 1
  pub us : t.used_us ≡ s.used_us + charge true (wants_upstream req) (granted_mbw s.cfg req)
  pub ds : t.used_ds ≡ s.used_ds + charge false (wants_upstream req) (granted_mbw s.cfg req)
  pub us_fits : t.used_us ≤ s.cfg.max_bandwidth_mbps ⊎ (t.used_us ≡ s.used_us)
  pub ds_fits : t.used_ds ≤ s.cfg.max_bandwidth_mbps ⊎ (t.used_ds ≡ s.used_ds)

unfoldable pub SetupOutcome : Server → SetupPdu → Server × Verdict → Type 0
SetupOutcome s req (t, rejected code) = t ≡ s
SetupOutcome s req (t, opened port) = Opened s t req

release_up : (s : Server) (mbw : ℕ) → record s { used_us = s.used_us + mbw - mbw } ≡ s
release_up s mbw = ap (λ n. record s { used_us = n }) (omega arith)

release_down : (s : Server) (mbw : ℕ) → record s { used_ds = s.used_ds + mbw - mbw } ≡ s
release_down s mbw = ap (λ n. record s { used_ds = n }) (omega arith)

-- Reserved bandwidth: what releasing it restores, and that it fits.
pub record Reserved (s t : Server) (req : SetupPdu) : Type 0 where
  pub undo : release_on_err t (wants_upstream req) (granted_mbw s.cfg req) ≡ s
  pub config : t.cfg ≡ s.cfg
  pub taken : t.sessions ≡ s.sessions
  pub us : t.used_us ≡ s.used_us + charge true (wants_upstream req) (granted_mbw s.cfg req)
  pub ds : t.used_ds ≡ s.used_ds + charge false (wants_upstream req) (granted_mbw s.cfg req)
  pub us_fits : t.used_us ≤ s.cfg.max_bandwidth_mbps ⊎ (t.used_us ≡ s.used_us)
  pub ds_fits : t.used_ds ≤ s.cfg.max_bandwidth_mbps ⊎ (t.used_ds ≡ s.used_ds)

BandwidthOutcome : Server → SetupPdu → Server × Option ℕ → Type 0
BandwidthOutcome s req (t, some code) = t ≡ s
BandwidthOutcome s req (t, none) = Reserved s t req

bandwidth_outcome : (s : Server) (req : SetupPdu) → BandwidthOutcome s req (admit_bandwidth s req)
unfolding admit_bandwidth BandwidthOutcome reserve_bandwidth release_on_err release_bandwidth
    granted_mbw charge
bandwidth_outcome s req =
    let mbw = req.max_bandwidth % 32768 in ground (arith, release_up s mbw, release_down s mbw)

allocate_outcome :
    (bind : ℕ → Option ℕ) (s : Server) (req : SetupPdu) → SetupOutcome s req (allocate bind s req)
unfolding allocate SetupOutcome BandwidthOutcome SocketOutcome
allocate_outcome bind s req =
    ground (arith, bandwidth_outcome s req, socket_outcome bind (admit_bandwidth s req).0)

pub decide_outcome :
    (a : AuthState) (bind : ℕ → Option ℕ) (s : Server) (req : SetupPdu)
    → SetupOutcome s req (decide a bind s req)
unfolding decide SetupOutcome
decide_outcome a bind s req = ground (arith, allocate_outcome bind s req)
