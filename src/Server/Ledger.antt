-- ===== src/Server/Ledger.antt =====
-- internal/udpst/server.go: the bandwidth and the session count that the server keeps, against the
-- sessions that are active. Setups, ends of sessions and Close come in any order; each is one step.
use diagd.Base.{
  ℕ, ◌+◌, ◌≤◌, ◌≡◌, Bool, true, false, List, [], ◌∷◌, ◌++◌, Option, none, some, length,
  length-append, arith,
}
use diagd.Session.{Session}
use diagd.Server.{Config, Server, new_server, close, release_bandwidth, session_done}
use diagd.Protocol.{SetupPdu}
use diagd.Server.Checks.{authenticate}
use diagd.Server.Setup.{Handled, handle_setup, end_session, count_response, count_test, new_session}
use diagd.Server.Outcomes.{charge, SetupOutcome, decide_outcome}

-- The bandwidth of a direction that sessions hold.
unfoldable pub load : Bool → List Session → ℕ
load up [] = 0
load up (x ∷ xs) = charge up x.bw_upstream x.bw_mbps + load up xs

pub load-append : (up : Bool) (xs ys : List Session) → load up (xs ++ ys) ≡ load up xs + load up ys
unfolding load
load-append up [] ys = omega arith
load-append up (x ∷ xs) ys = omega (arith, load-append up xs ys)

pub record Ledger (s : Server) (active : List Session) : Type 0 where
  pub us : s.used_us ≡ load true active
  pub ds : s.used_ds ≡ load false active
  pub us_cap : s.used_us ≤ s.cfg.max_bandwidth_mbps
  pub ds_cap : s.used_ds ≤ s.cfg.max_bandwidth_mbps
  pub count : s.sessions ≡ length active
  pub count_cap : s.sessions ≤ s.cfg.max_sessions

abbrev pub opened_with : Option Session → List Session → List Session
opened_with o active = elim o [ none ↦ active | some x ↦ x ∷ active ]

pub setup-Ledger :
    (mac : List ℕ → List ℕ → List ℕ) (bind : ℕ → Option ℕ) (now : ℕ) (s : Server) (req : SetupPdu)
    (raw : List ℕ) (active : List Session)
    → Ledger s active
    → let h = handle_setup mac bind now s req raw in Ledger h.server (opened_with h.session active)
unfolding handle_setup SetupOutcome count_response new_session load
setup-Ledger mac bind now s req raw active l =
    ground (arith, decide_outcome (authenticate mac s.cfg now req raw) bind s req)

pub end-Ledger :
    (s : Server) (before after : List Session) (x : Session)
    → Ledger s (before ++ x ∷ after)
    → Ledger (end_session s x) (before ++ after)
unfolding end_session release_bandwidth session_done load charge
end-Ledger s before after x l = ground (
  arith,
  l,
  load-append true before (x ∷ after),
  load-append false before (x ∷ after),
  load-append true before after,
  load-append false before after,
  length-append before (x ∷ after),
  length-append before after,
)

pub record World : Type 0 where
  pub server : Server
  pub active : List Session

abbrev pub after_setup : World → Handled → World
after_setup w h = record { server = h.server; active = opened_with h.session w.active }

-- One step of the server: a handled Setup Request, the end of a session that is active at any
-- place among the others, the counters of a test that ran, or Close.
pub data Step : World → World → Type 0 where
  setup :
      {w : World}
      → (mac : List ℕ → List ℕ → List ℕ) (bind : ℕ → Option ℕ) (now : ℕ) (req : SetupPdu)
        (raw : List ℕ)
      → Step w (after_setup w (handle_setup mac bind now w.server req raw))
  finish :
      {s : Server}
      → (before after : List Session) (x : Session)
      → Step
          (record { server = s; active = before ++ x ∷ after })
          (record { server = end_session s x; active = before ++ after })
  report :
      {w : World} → (upstream : Bool) → Step w (record w { server = count_test w.server upstream })
  shut : {w : World} → Step w (record w { server = close w.server })

pub data Reachable (cfg : Config) : World → Type 0 where
  start : Reachable cfg (record { server = new_server cfg; active = [] })
  next : {v w : World} → Reachable cfg v → Step v w → Reachable cfg w

new-Ledger : (cfg : Config) → Ledger (new_server cfg) []
unfolding load new_server
new-Ledger cfg = ground arith

Step-Ledger : {v w : World} → Ledger v.server v.active → Step v w → Ledger w.server w.active
Step-Ledger l (setup mac bind now req raw) = setup-Ledger mac bind now _ req raw _ l
Step-Ledger l (finish before after x) = end-Ledger _ before after x l
Step-Ledger l (report upstream) = unfold count_test in ground (arith, l)
Step-Ledger l shut = unfold close in ground (arith, l)

-- In every state that whole setups, ends of sessions and Close reach in any order, the bandwidth in
-- use of each direction is what the active sessions hold and at most the configured maximum, and
-- the session count is their number and at most its limit.
pub Reachable-Ledger : {cfg : Config} {w : World} → Reachable cfg w → Ledger w.server w.active
Reachable-Ledger start = new-Ledger _
Reachable-Ledger (next r st) = Step-Ledger (Reachable-Ledger r) st
