-- ===== src/Server/Response.antt =====
-- internal/udpst/server.go: the answer that `handleSetup` signs, as its client reads it.
use diagd.Base.{ℕ, ◌≤◌, ◌≡◌, refl, List, length, Option, some, true, arith, inr}
use diagd.Protocol.{SetupPdu, protocol_ver, cmd_setup_response}
use diagd.Protocol.Setup
use diagd.Protocol.Setup.{parse_setup, marshal_setup, setup_auth_digest_off}
use diagd.Auth.{SessionKeys, compute_digest, sign_pdu, verify_digest}
use diagd.Auth.Wire.{signed_setup_accepted, with_digest}
use diagd.Server.{Server}
use diagd.Server.Checks.{AuthState, authenticate}
use diagd.Server.Setup.{
  Verdict, rejected, opened, decide, setup_response, response_pdu, stamped, handle_setup,
}

-- What a client needs of an answer: it parses, its digest verifies under the server key, it is a
-- response, and it carries the identifier of the request.
pub record IsAnswer (mac : List ℕ → List ℕ → List ℕ) (k : SessionKeys) (req : SetupPdu) (r : List ℕ)
    : Type 0 where
  pub pdu : SetupPdu
  pub parses : parse_setup r ≡ some pdu
  pub genuine : verify_digest mac k.server r setup_auth_digest_off pdu.auth.auth_digest ≡ true
  pub response : pdu.cmd_request ≡ cmd_setup_response
  pub ident : pdu.mc_ident ≡ req.mc_ident

response-IsWire :
    (req : SetupPdu) (v : Verdict) (now : ℕ)
    → Setup.IsWire req
    → Setup.IsWire (stamped (setup_response req v) now)
unfolding setup_response
response-IsWire req (rejected code) now w = record {
  version_half = ground (arith, w.version_half);
  ident_half = w.ident_half;
  bandwidth_half = w.bandwidth_half;
  port_half = w.port_half;
  command_known = inr refl;
  trailer = record {
    mode_byte = w.trailer.mode_byte;
    time_word = omega arith;
    digest_size = w.trailer.digest_size;
    key_byte = w.trailer.key_byte;
  };
}
response-IsWire req (opened port) now w = record {
  version_half = w.version_half;
  ident_half = w.ident_half;
  bandwidth_half = w.bandwidth_half;
  port_half = omega arith;
  command_known = inr refl;
  trailer = record {
    mode_byte = w.trailer.mode_byte;
    time_word = omega arith;
    digest_size = w.trailer.digest_size;
    key_byte = w.trailer.key_byte;
  };
}

response_command :
    (req : SetupPdu) (v : Verdict) → (setup_response req v).cmd_request ≡ cmd_setup_response
unfolding setup_response
response_command req (rejected code) = refl
response_command req (opened port) = refl

response_ident : (req : SetupPdu) (v : Verdict) → (setup_response req v).mc_ident ≡ req.mc_ident
unfolding setup_response
response_ident req (rejected code) = refl
response_ident req (opened port) = refl

-- The bytes of a response under protocol version 20.
signed_response :
    (mac : List ℕ → List ℕ → List ℕ) (req resp : SetupPdu) (a : AuthState) (k : SessionKeys)
    (now : ℕ)
    → protocol_ver ≤ req.protocol_version
    → a.keys ≡ some k
    → response_pdu mac resp req a now
      ≡ sign_pdu mac k.server (marshal_setup (stamped resp now)) setup_auth_digest_off
unfolding response_pdu
signed_response mac req resp a k now current keyed = ground (arith, current, keyed)

module _ (mac : List ℕ → List ℕ → List ℕ) (mac_size : (k m : List ℕ) → length (mac k m) ≡ 32) where
  -- A client of protocol version 20 whose request, with fields of their widths, was authenticated
  -- gets an answer, accepting or rejecting, that parses as a Setup Response with its identifier and
  -- whose digest verifies under the server key derived for it, for any hash of 32 bytes.
  pub response-IsAnswer :
      (bind : ℕ → Option ℕ) (now : ℕ) (s : Server) (req : SetupPdu) (raw : List ℕ) (k : SessionKeys)
      → Setup.IsWire req
      → protocol_ver ≤ req.protocol_version
      → (authenticate mac s.cfg now req raw).keys ≡ some k
      → IsAnswer mac k req (handle_setup mac bind now s req raw).response
  unfolding handle_setup
  response-IsAnswer bind now s req raw k w current keyed =
      let a = authenticate mac s.cfg now req raw in
      let v = (decide a bind s req).1 in
      let resp = stamped (setup_response req v) now in
      let (parsed, genuine) =
        signed_setup_accepted mac mac_size k.server resp (response-IsWire req v now w) in
      rw (signed_response mac req (setup_response req v) a k now current keyed) (record {
        pdu = record resp {
          auth =
              with_digest resp.auth
                (compute_digest mac k.server (marshal_setup resp) setup_auth_digest_off);
        };
        parses = parsed;
        genuine = genuine;
        response = response_command req v;
        ident = response_ident req v;
      })
