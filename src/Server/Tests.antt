-- ===== src/Server/Tests.antt =====
-- Tests and instances for a session from its setup to its clean-up.
use diagd.Base.{ℕ, ◌*◌, ◌≡◌, true, Bool, [], ◌∷◌, some, arith}
use diagd.Protocol.TestAct.{marshal_test_act, test_act_auth_digest_off}
use diagd.Protocol.Examples.{activation}
use diagd.Auth.{sign_pdu}
use diagd.Auth.Examples.{toy_mac}
use diagd.Clock.{second}
use diagd.Session.{Session}
use diagd.Session.Upstream.{deadline}
use diagd.Server.{new_server}
use diagd.Server.Checks.{authenticate}
use diagd.Server.Setup.{handle_setup, new_session}
use diagd.Server.Ledger.{start}
use diagd.Server.Lifetime.{Traffic, Returned, Counted, run_session, whole_test}
use diagd.Server.Examples.{cfg, keys, server, bind, clock, signed, signed_request, begun, opens}

abbrev any_class : ℕ → Bool
any_class tc = true

abbrev session : Session
session = new_session cfg signed_request (authenticate toy_mac cfg clock signed_request signed)

session_opens :
    (handle_setup toy_mac bind clock server signed_request signed).session ≡ some session
unfolding handle_setup new_server
session_opens = ground (arith, opens)

-- A datagram that does not parse, then the request, signed with the client key; one round at 11 s.
abbrev traffic : Traffic
traffic = record {
  arrivals =
      (true, 1 ∷ [])
      ∷ (true, sign_pdu toy_mac keys.client (marshal_test_act activation) test_act_auth_digest_off)
      ∷ [];
  answered = clock;
  start = 10 * second;
  uploads = record { now = 11 * second; wall = 0; read = deadline } ∷ [];
  stop = 20 * second;
  downloads = [];
}

whole_test_example :
    let s = (handle_setup toy_mac bind clock server signed_request signed).server in
    Returned server (run_session toy_mac any_class s session traffic).server
    × Counted toy_mac any_class s session traffic (run_session toy_mac any_class s session traffic)
whole_test_example =
    whole_test toy_mac any_class bind clock signed_request signed cfg begun session traffic start
      session_opens
