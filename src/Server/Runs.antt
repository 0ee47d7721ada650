-- ===== src/Server/Runs.antt =====
-- A run of internal/udpst/server.go section by section: a setup opens a session, and the session has
-- released its bandwidth when the next setup takes its place.
use diagd.Base.{refl, [], ◌∷◌}
use diagd.Protocol.Examples.{request}
use diagd.Session.{Session}
use diagd.Server.{new_server, reserve_bandwidth, release_bandwidth}
use diagd.Server.Checks.{no_auth_state}
use diagd.Server.Setup.{new_session, admit_bandwidth, granted_mbw, wants_upstream, release_on_err}
use diagd.Server.Examples.{cfg}
use diagd.Server.Interleaving.{
  World, idle, after_bandwidth, after_place, take_place, bandwidth, place, begin, release, Reached,
  start, next, Books, Reached-Books,
}

abbrev w0 : World
w0 = record { server = new_server cfg; stage = idle; active = []; ending = 0 }

abbrev w1 : World
w1 = after_bandwidth w0 request

abbrev w2 : World
w2 = after_place w1 request

abbrev w3 : World
w3 = record w2 {
  stage = idle;
  active = new_session w2.server.cfg request no_auth_state ∷ w2.active;
}

abbrev w4 : World
w4 = after_bandwidth w3 request

abbrev x : Session
x = new_session w2.server.cfg request no_auth_state

abbrev w5 : World
w5 = record w4 {
  server = release_on_err w4.server x.bw_upstream x.bw_mbps;
  active = [];
  ending = 1;
}

abbrev w6 : World
w6 = after_place w5 request

run : Reached cfg w6
unfolding after_bandwidth after_place take_place admit_bandwidth reserve_bandwidth new_server
    granted_mbw wants_upstream release_on_err release_bandwidth
run =
    next
      (next
        (next
          (next (next (next start (bandwidth request refl)) (place request refl))
            (begin request no_auth_state refl))
          (bandwidth request refl))
        (release [] [] x refl))
      (place request refl)

Reached-Books_example : Books w6
Reached-Books_example = Reached-Books run
