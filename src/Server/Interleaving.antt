-- ===== src/Server/Interleaving.antt =====
-- internal/udpst/server.go with the sections under its mutex as the steps: ends of sessions and Close
-- come between the sections of one handleSetup, which runs them in turn.
use diagd.Base.{
  ℕ, suc, ◌+◌, ◌≤◌, ◌≡◌, ap, Bool, true, false, List, [], ◌∷◌, ◌++◌, none, some, ltb, leb,
  if◌then◌else◌, length, length-append, arith,
}
use diagd.Protocol.{SetupPdu}
use diagd.Session.{Session}
use diagd.Server.{
  Config, Server, new_server, close, reserve_bandwidth, release_bandwidth, session_done,
}
use diagd.Server.Checks.{AuthState}
use diagd.Server.Setup.{
  admit_bandwidth, release_on_err, granted_mbw, wants_upstream, new_session, count_response,
  count_test,
}
use diagd.Server.Outcomes.{charge}
use diagd.Server.Ledger.{load, load-append}

-- The first section of newSessionSocket: whether a place is taken.
unfoldable pub take_place : Server → Server × Bool
take_place s =
    if s.closed
    then (s, false)
    else (if leb s.cfg.max_sessions s.sessions
        then (s, false)
        else (record s { sessions = s.sessions + 1 }, true))

-- The last section of newSessionSocket with a port range: the port to try first next time.
unfoldable pub advance_port : Server → ℕ → Server
advance_port s port = record s {
  next_port = if ltb s.cfg.test_port_max (port + 1) then s.cfg.test_port_min else port + 1;
}

-- What the running handleSetup holds: nothing, bandwidth, or bandwidth and a place.
pub data Stage : Type 0 where
  idle : Stage
  reserved : SetupPdu → Stage
  placed : SetupPdu → Stage

-- The sessions that run, and how many have released their bandwidth and still hold their place.
pub record World : Type 0 where
  pub server : Server
  pub stage : Stage
  pub active : List Session
  pub ending : ℕ

-- The stage after the bandwidth block.
unfoldable pub after_bandwidth : World → SetupPdu → World
after_bandwidth w req =
    let (t, refused) = admit_bandwidth w.server req in
    record w { server = t; stage = elim refused [ none ↦ reserved req | some code ↦ idle ] }

-- The stage after the first section of newSessionSocket.
unfoldable pub after_place : World → SetupPdu → World
after_place w req =
    let (t, taken) = take_place w.server in
    record w { server = t; stage = if taken then placed req else reserved req }

-- One section of some goroutine.
pub data Section : World → World → Type 0 where
  bandwidth : {w : World} → (req : SetupPdu) → w.stage ≡ idle → Section w (after_bandwidth w req)
  place : {w : World} → (req : SetupPdu) → w.stage ≡ reserved req → Section w (after_place w req)
  unplace :
      {w : World}
      → (req : SetupPdu) → w.stage ≡ placed req
      → Section w (record w { server = session_done w.server; stage = reserved req })
  give_up :
      {w : World}
      → (req : SetupPdu) → w.stage ≡ reserved req
      → Section w (record w {
        server = release_on_err w.server (wants_upstream req) (granted_mbw w.server.cfg req);
        stage = idle;
      })
  advance : {w : World} → (port : ℕ) → Section w (record w { server = advance_port w.server port })
  begin :
      {w : World}
      → (req : SetupPdu) (a : AuthState) → w.stage ≡ placed req
      → Section w (record w { stage = idle; active = new_session w.server.cfg req a ∷ w.active })
  release :
      {w : World}
      → (before after : List Session) (x : Session) → w.active ≡ before ++ x ∷ after
      → Section w (record w {
        server = release_on_err w.server x.bw_upstream x.bw_mbps;
        active = before ++ after;
        ending = suc w.ending;
      })
  done :
      {w : World}
      → (n : ℕ) → w.ending ≡ suc n
      → Section w (record w { server = session_done w.server; ending = n })
  respond :
      {w : World} → (code : ℕ) → Section w (record w { server = count_response w.server code })
  report :
      {w : World}
      → (upstream : Bool) → Section w (record w { server = count_test w.server upstream })
  shut : {w : World} → Section w (record w { server = close w.server })

pub data Reached (cfg : Config) : World → Type 0 where
  start : Reached cfg (record { server = new_server cfg; stage = idle; active = []; ending = 0 })
  next : {v w : World} → Reached cfg v → Section v w → Reached cfg w

-- The bandwidth of a direction, and the places, that the running handleSetup holds.
pub held : Bool → Config → Stage → ℕ
held up cfg idle = 0
held up cfg (reserved req) = charge up (wants_upstream req) (granted_mbw cfg req)
held up cfg (placed req) = charge up (wants_upstream req) (granted_mbw cfg req)

pub places : Stage → ℕ
places idle = 0
places (reserved req) = 0
places (placed req) = 1

pub record Books (w : World) : Type 0 where
  pub us : w.server.used_us ≡ load true w.active + held true w.server.cfg w.stage
  pub ds : w.server.used_ds ≡ load false w.active + held false w.server.cfg w.stage
  pub us_cap : w.server.used_us ≤ w.server.cfg.max_bandwidth_mbps
  pub ds_cap : w.server.used_ds ≤ w.server.cfg.max_bandwidth_mbps
  pub count : w.server.sessions ≡ length w.active + w.ending + places w.stage
  pub count_cap : w.server.sessions ≤ w.server.cfg.max_sessions

Section-Books : {v w : World} → Books v → Section v w → Books w
unfolding held places load charge
Section-Books b (bandwidth req e) =
    unfold after_bandwidth admit_bandwidth reserve_bandwidth granted_mbw in ground (arith, b, e)
Section-Books b (place req e) = unfold after_place take_place in ground (arith, b, e)
Section-Books b (unplace req e) = unfold session_done in ground (arith, b, e)
Section-Books b (give_up req e) = unfold release_on_err release_bandwidth in ground (arith, b, e)
Section-Books b (advance port) = unfold advance_port in ground (arith, b)
Section-Books b (begin req a e) = unfold new_session in ground (arith, b, e)
Section-Books b (release before after x e) =
    unfold release_on_err release_bandwidth in
    ground (
      arith,
      b,
      ap (load true) e,
      ap (load false) e,
      ap length e,
      load-append true before (x ∷ after),
      load-append false before (x ∷ after),
      load-append true before after,
      load-append false before after,
      length-append before (x ∷ after),
      length-append before after,
    )
Section-Books b (done n e) = unfold session_done in ground (arith, b, e)
Section-Books b (respond code) = unfold count_response in ground (arith, b)
Section-Books b (report upstream) = unfold count_test in ground (arith, b)
Section-Books b shut = unfold close in ground (arith, b)

new-Books :
    (cfg : Config)
    → Books (record { server = new_server cfg; stage = idle; active = []; ending = 0 })
unfolding held places load new_server
new-Books cfg = ground arith

-- However the sections under the mutex of setups, ends of sessions and Close interleave, the
-- bandwidth in use of each direction is what the active sessions and the running setup hold and at
-- most the configured maximum, and the session count is the places that are held, those of ending
-- sessions included, and at most its limit.
pub Reached-Books : {cfg : Config} {w : World} → Reached cfg w → Books w
Reached-Books start = new-Books _
Reached-Books (next r s) = Section-Books (Reached-Books r) s
