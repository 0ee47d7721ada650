-- ===== src/Server/Examples.antt =====
-- Tests and instances for internal/udpst/server.go: a server with one key and a range of ten ports,
-- and a request that is signed for it.
use diagd.Base.{
  ℕ, ◌+◌, ◌*◌, ◌≤◌, ◌≡◌, ◌≢◌, refl, true, false, arith, List, [], ◌∷◌, Option, none, some, length,
  u64, inl,
}
use diagd.Protocol.{SetupPdu, protocol_min, protocol_ver}
use diagd.Protocol.Setup
use diagd.Protocol.Setup.{marshal_setup, setup_auth_digest_off}
use diagd.Protocol.Examples.{request, request-IsWire, trailer-IsWire}
use diagd.Auth.{
  SessionKeys, derive_session_keys, compute_digest, sign_pdu, verify_digest, auth_mode_control,
}
use diagd.Auth.Sign.{length-compute_digest}
use diagd.Auth.Wire.{with_digest, with_digest-IsWire, signed_setup_accepted}
use diagd.Auth.Examples.{toy_mac, toy_mac_size}
use diagd.Server.{
  Config, Server, new_server, new_session_socket, try_ports, port_at, reserve_bandwidth,
}
use diagd.Server.Checks.{
  authenticate, check_digest, check_time, skewed, find_key, has_keys, check_request, check_mode,
}
use diagd.Server.Setup.{
  opened, rejected, handle_setup, decide, allocate, admit_bandwidth, granted_mbw, wants_upstream,
}
use diagd.Server.Interleaving.{idle, Reached}
use diagd.Server.Sections.{world}
use diagd.Server.Refinement.{Reachable-Reached}
use diagd.Server.Ledger.{World, setup, Reachable, start, next, after_setup}
use diagd.Server.Admission.{IsAuthentic, IsAgreed, opened-IsAuthentic, reject_keeps}
use diagd.Server.Ports.{IsRange, session_port_in_range}
use diagd.Server.Response.{IsAnswer, response-IsAnswer}

abbrev secret : List ℕ
secret = b'k' ∷ b'e' ∷ b'y' ∷ []

abbrev pub cfg : Config
cfg = record {
  keys = (3, secret) ∷ [];
  max_bandwidth_mbps = 1000;
  jumbo = true;
  traditional_mtu = false;
  max_test_seconds = 60;
  max_sessions = 2;
  test_port_min = 20000;
  test_port_max = 20009;
}

abbrev pub server : Server
server = new_server cfg

abbrev pub keys : SessionKeys
keys = derive_session_keys toy_mac secret 1700000000

abbrev pub signed : List ℕ
signed = sign_pdu toy_mac keys.client (marshal_setup request) setup_auth_digest_off

abbrev digest : List ℕ
digest = compute_digest toy_mac keys.client (marshal_setup request) setup_auth_digest_off

abbrev pub signed_request : SetupPdu
signed_request = record request { auth = with_digest request.auth digest }

abbrev pub clock : ℕ
clock = 1700000002 * 1000000000

abbrev pub bind : ℕ → Option ℕ
bind port = some port

abbrev full : ℕ → Option ℕ
full port = none

genuine : verify_digest toy_mac keys.client signed setup_auth_digest_off digest ≡ true
genuine = (signed_setup_accepted toy_mac toy_mac_size keys.client request request-IsWire).1

authenticated :
    authenticate toy_mac cfg clock signed_request signed
    ≡ record { code = none; keys = some keys; legacy_key = none }
unfolding authenticate has_keys find_key check_digest check_time skewed
authenticated = ground (arith, genuine)

signed_request-IsWire : Setup.IsWire signed_request
signed_request-IsWire = record {
  version_half = omega arith;
  ident_half = omega arith;
  bandwidth_half = omega arith;
  port_half = omega arith;
  command_known = inl refl;
  trailer = with_digest-IsWire request.auth digest trailer-IsWire size;
}
  where
    size : length digest ≡ 32
    size = length-compute_digest toy_mac toy_mac_size keys.client (marshal_setup request) 20

pub opens :
    (decide (authenticate toy_mac cfg clock signed_request signed) bind server signed_request).1
    ≡ opened 20000
unfolding decide check_request check_mode allocate admit_bandwidth new_server new_session_socket
    try_ports port_at reserve_bandwidth has_keys granted_mbw wants_upstream
opens = rw authenticated refl

some_session : (handle_setup toy_mac bind clock server signed_request signed).session ≢ none
unfolding handle_setup new_server
some_session = λ h. ground (arith, opens, h)

refuses :
    (decide (authenticate toy_mac cfg clock signed_request signed) full server signed_request).1
    ≡ rejected 13
unfolding decide check_request check_mode allocate admit_bandwidth new_server new_session_socket
    try_ports port_at reserve_bandwidth has_keys granted_mbw wants_upstream
refuses = rw authenticated refl

no_session : (handle_setup toy_mac full clock server signed_request signed).session ≡ none
unfolding handle_setup new_server
no_session = ground (arith, refuses)

response-IsAnswer_example :
    IsAnswer toy_mac keys signed_request
      (handle_setup toy_mac bind clock server signed_request signed).response
response-IsAnswer_example =
    response-IsAnswer toy_mac toy_mac_size bind clock server signed_request signed keys
      signed_request-IsWire (omega arith) (unfold new_server in rw authenticated refl)

opened-IsAuthentic_example :
    IsAuthentic toy_mac cfg clock signed_request signed
    × ((1 ≡ auth_mode_control)
        × ((protocol_min ≤ 20)
            × ((20 ≤ protocol_ver)
                × ((check_request cfg signed_request ≡ none) × IsAgreed cfg signed_request))))
unfolding new_server
opened-IsAuthentic_example =
    opened-IsAuthentic toy_mac bind clock server signed_request signed
      (unfold has_keys new_server in refl) some_session

reject_keeps_example :
    (handle_setup toy_mac full clock server signed_request signed).server
    ≡ record server { setup_rejects = u64 (server.setup_rejects + 1) }
reject_keeps_example = reject_keeps toy_mac full clock server signed_request signed no_session

-- The server opens a session, and the session ends.
abbrev pub begun : World
begun = record { server = server; active = [] }

abbrev busy : World
busy = after_setup begun (handle_setup toy_mac bind clock server signed_request signed)

first : Reachable cfg begun
first = start

Reachable-Reached_example : Reached cfg (world busy.server idle busy.active 0)
Reachable-Reached_example =
    Reachable-Reached (next first (setup toy_mac bind clock signed_request signed))

cfg-IsRange : IsRange cfg
cfg-IsRange = omega arith

session_port_in_range_example :
    ((20000 ≤ 20000) × (20000 ≤ 20009))
    × ((bind 20000 ≢ none)
        × let t = (new_session_socket bind server).0 in
          (20000 ≤ t.next_port) × (t.next_port ≤ 20009))
unfolding new_server
session_port_in_range_example =
    session_port_in_range bind server 20000 (unfold new_server in cfg-IsRange)
      (unfold new_server in omega arith)
      (unfold new_session_socket new_server try_ports port_at in refl)
