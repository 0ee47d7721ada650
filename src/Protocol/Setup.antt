-- ===== src/Protocol/Setup.antt =====
-- internal/udpst/protocol.go: the Setup Request and Response, and the Null Request.
use diagd.Base.{
  ℕ, ◌<◌, ◌≡◌, List, [], ◌∷◌, ◌&&◌, Option, none, some, get_or, set, length, replicate, put16,
  get16, join16, join32, ◌==◌, not, if◌then◌else◌, arith, ◌⊎◌, take_block, get_after, length-append,
}
use diagd.Protocol.{
  SetupPdu, NullPdu, setup_size, null_size, pdu_id_setup, pdu_id_null, cmd_setup_request,
  cmd_setup_response,
}
use diagd.Protocol.Auth
use diagd.Protocol.Auth.{marshal_auth, parse_auth, auth_split, auth_block}

unfoldable pub parse_setup : List ℕ → Option SetupPdu
unfolding parse_auth
parse_setup b =
    let p : SetupPdu = record {
      protocol_version = get16 b 2;
      mc_index = get_or b 4 0;
      mc_count = get_or b 5 0;
      mc_ident = get16 b 6;
      cmd_request = get_or b 8 0;
      cmd_response = get_or b 9 0;
      max_bandwidth = get16 b 10;
      test_port = get16 b 12;
      modifiers = get_or b 14 0;
      auth = parse_auth b 15;
    } in
    if not (length b == setup_size)
    then none
    else (if not (get16 b 0 == pdu_id_setup)
        then none
        else (if not (p.cmd_request == cmd_setup_request)
              && not (p.cmd_request == cmd_setup_response)
            then none
            else some p))

-- The bytes in front of the trailer.
setup_head : SetupPdu → List ℕ
setup_head p =
    let b1 = put16 (replicate setup_size 0) 0 pdu_id_setup in
    let b2 = put16 b1 2 p.protocol_version in
    let b3 = put16 (set (set b2 4 p.mc_index) 5 p.mc_count) 6 p.mc_ident in
    let b4 = set (set b3 8 p.cmd_request) 9 p.cmd_response in
    set (put16 (put16 b4 10 p.max_bandwidth) 12 p.test_port) 14 p.modifiers

unfoldable pub marshal_setup : SetupPdu → List ℕ
unfolding setup_head
marshal_setup p = marshal_auth p.auth (setup_head p) 15

null_head : NullPdu → List ℕ
null_head p =
    let b1 = put16 (replicate null_size 0) 0 pdu_id_null in
    let b2 = put16 b1 2 p.protocol_version in set (set (set b2 4 1) 5 0) 6 0

unfoldable pub marshal_null : NullPdu → List ℕ
unfolding null_head
marshal_null p = marshal_auth p.auth (null_head p) 7

-- The offset of the digest in a Setup PDU.
abbrev pub setup_auth_digest_off : ℕ
setup_auth_digest_off = 20

abbrev pub null_auth_digest_off : ℕ
null_auth_digest_off = 12

pub record IsWire (p : SetupPdu) : Type 0 where
  pub version_half : p.protocol_version < 65536
  pub ident_half : p.mc_ident < 65536
  pub bandwidth_half : p.max_bandwidth < 65536
  pub port_half : p.test_port < 65536
  pub command_known : (p.cmd_request ≡ cmd_setup_request) ⊎ (p.cmd_request ≡ cmd_setup_response)
  pub trailer : Auth.IsWire p.auth

-- A Setup PDU with fields of their widths and a known command is read back as it was written.
pub parse-marshal_setup : (p : SetupPdu) → IsWire p → parse_setup (marshal_setup p) ≡ some p
unfolding parse_setup marshal_setup
parse-marshal_setup p w = rw (auth_split p.auth (setup_head p) 15 w.trailer (omega arith)) (
    ground (
      arith,
      join16 p.protocol_version,
      join16 p.mc_ident,
      join16 p.max_bandwidth,
      join16 p.test_port,
      join32 p.auth.auth_unix_time,
      length-append p.auth.auth_digest (p.auth.key_id ∷ (0 ∷ (0 ∷ (0 ∷ [])))),
      take_block p.auth.auth_digest (p.auth.key_id ∷ (0 ∷ (0 ∷ (0 ∷ [])))) 32,
      get_after p.auth.auth_digest (p.auth.key_id ∷ (0 ∷ (0 ∷ (0 ∷ [])))) 32 0 32,
    ))
