-- ===== src/Server/Admission.antt =====
-- internal/udpst/server.go: when `handleSetup` opens a session, and what a rejection does.
use diagd.Base.{
  ℕ, ◌+◌, ◌*◌, ◌≤◌, ◌≡◌, ◌≢◌, ◌↔◌, ◌<◌, refl, true, false, List, Option, none, some, leb,
  if◌then◌else◌, arith, u64,
}
use Prim.Native.Nat.{bit_and}
use diagd.Clock.{second}
use diagd.Protocol.{SetupPdu, protocol_ver, protocol_min}
use diagd.Protocol.Setup.{setup_auth_digest_off}
use diagd.Auth.{derive_session_keys, verify_digest, auth_mode_control, auth_time_window}
use diagd.Server.{Config, Server}
use diagd.Server.Checks.{
  AuthState, authenticate, check_digest, check_time, skewed, check_request, check_mode, find_key,
  has_keys, is_set, differs,
}
use diagd.Server.Setup.{
  rejected, opened, handle_setup, decide, allocate, admit_bandwidth, count_response, setup_response,
}
use diagd.Server.Outcomes.{SetupOutcome, decide_outcome}

-- A key of the configuration signs a request: the derived client key for protocol version 20 on,
-- the shared secret before.
pub signing_key : (List ℕ → List ℕ → List ℕ) → SetupPdu → List ℕ → List ℕ
signing_key mac req secret =
    if leb protocol_ver req.protocol_version
    then (derive_session_keys mac secret req.auth.auth_unix_time).client
    else secret

-- A request with a configured key, the digest that this key gives, and a time of at most five
-- seconds ago or ahead.
pub record IsAuthentic (mac : List ℕ → List ℕ → List ℕ) (cfg : Config) (now : ℕ) (req : SetupPdu)
    (raw : List ℕ) : Type 0 where
  pub secret : List ℕ
  pub known : find_key req.auth.key_id cfg.keys ≡ some secret
  pub genuine :
      verify_digest mac (signing_key mac req secret) raw setup_auth_digest_off req.auth.auth_digest
      ≡ true
  pub not_old : now ≤ (req.auth.auth_unix_time + auth_time_window) * second
  pub not_ahead : req.auth.auth_unix_time * second ≤ now + auth_time_window * second

authenticate_sound :
    (mac : List ℕ → List ℕ → List ℕ) (cfg : Config) (now : ℕ) (req : SetupPdu) (raw : List ℕ)
    → has_keys cfg ≡ true
    → req.auth.auth_mode ≡ 1
    → (authenticate mac cfg now req raw).code ≡ none
    → IsAuthentic mac cfg now req raw
unfolding authenticate check_digest check_time skewed
authenticate_sound mac cfg now req raw keyed mode ok =
    elim (find_key req.auth.key_id cfg.keys)
        as (λ o. find_key req.auth.key_id cfg.keys ≡ o → IsAuthentic mac cfg now req raw) [
          | none ↦ λ e. absurd (ground (arith, e))
          | some secret ↦ λ e. record {
            secret = secret;
            known = e;
            genuine = unfold signing_key in ground (arith, e);
            not_old = ground (arith, e);
            not_ahead = ground (arith, e);
          }
        ]
      refl

mode_sound :
    (a : AuthState) (bind : ℕ → Option ℕ) (s : Server) (req : SetupPdu) (port : ℕ)
    → (decide a bind s req).1 ≡ opened port
    → (a.code ≡ none) × ((check_request s.cfg req ≡ none) × (check_mode s.cfg req ≡ none))
unfolding decide allocate
mode_sound a bind s req port h = ground arith

authenticate_code :
    (mac : List ℕ → List ℕ → List ℕ) (cfg : Config) (now : ℕ) (req : SetupPdu) (raw : List ℕ)
    → (authenticate mac cfg now req raw).code ≢ some 1
unfolding authenticate check_digest check_time
authenticate_code mac cfg now req raw = ground arith

decide_code :
    (a : AuthState) (bind : ℕ → Option ℕ) (s : Server) (req : SetupPdu)
    → a.code ≢ some 1
    → (decide a bind s req).1 ≢ rejected 1
unfolding decide check_request allocate admit_bandwidth check_mode
decide_code a bind s req h = ground arith

-- A rejected Setup Request, on whichever branch, leaves the whole server as it was but for the
-- count of rejections: bandwidth that was reserved and the session place that was taken are given
-- back.
pub reject_keeps :
    (mac : List ℕ → List ℕ → List ℕ) (bind : ℕ → Option ℕ) (now : ℕ) (s : Server) (req : SetupPdu)
    (raw : List ℕ)
    → (handle_setup mac bind now s req raw).session ≡ none
    → (handle_setup mac bind now s req raw).server
      ≡ record s { setup_rejects = u64 (s.setup_rejects + 1) }
unfolding handle_setup SetupOutcome count_response setup_response
reject_keeps mac bind now s req raw h =
    let a = authenticate mac s.cfg now req raw in
    ground (
      arith,
      decide_outcome a bind s req,
      decide_code a bind s req (authenticate_code mac s.cfg now req raw),
    )

control_mode :
    (cfg : Config) (req : SetupPdu)
    → has_keys cfg ≡ true
    → check_mode cfg req ≡ none
    → req.auth.auth_mode ≡ auth_mode_control
unfolding check_mode
control_mode cfg req keyed h = ground arith

version_low :
    (cfg : Config) (req : SetupPdu)
    → check_request cfg req ≡ none
    → protocol_min ≤ req.protocol_version
unfolding check_request
version_low cfg req h = ground arith

version_high :
    (cfg : Config) (req : SetupPdu)
    → check_request cfg req ≡ none
    → req.protocol_version ≤ protocol_ver
unfolding check_request
version_high cfg req h = ground arith

-- The parameters of a request agree: from 1 to 24 connections of which it is one, and its bits of
-- jumbo frames and of the traditional MTU are those of the server.
pub record IsAgreed (cfg : Config) (req : SetupPdu) : Type 0 where
  pub some_connection : 1 ≤ req.mc_count
  pub few : req.mc_count ≤ 24
  pub one_of_them : req.mc_index < req.mc_count
  pub jumbo : (bit_and req.modifiers 1 ≡ 0) ↔ (cfg.jumbo ≡ false)
  pub traditional : (bit_and req.modifiers 2 ≡ 0) ↔ (cfg.traditional_mtu ≡ false)

check-IsAgreed : (cfg : Config) (req : SetupPdu) → check_request cfg req ≡ none → IsAgreed cfg req
unfolding check_request is_set differs
check-IsAgreed cfg req h = record {
  some_connection = ground (arith, h);
  few = ground (arith, h);
  one_of_them = ground (arith, h);
  jumbo = (λ e. ground (arith, h, e), λ e. ground (arith, h, e));
  traditional = (λ e. ground (arith, h, e), λ e. ground (arith, h, e));
}

-- A server with keys opens a session only for a request of mode 1 with a configured key, a digest
-- that verifies under it and a time within five seconds of the clock, of a supported version, that
-- passes the checks of the multi-connection parameters, jumbo and MTU bits: it is one of 1 to 24
-- connections, and both bits are those of the server.
pub opened-IsAuthentic :
    (mac : List ℕ → List ℕ → List ℕ) (bind : ℕ → Option ℕ) (now : ℕ) (s : Server) (req : SetupPdu)
    (raw : List ℕ)
    → has_keys s.cfg ≡ true
    → (handle_setup mac bind now s req raw).session ≢ none
    → IsAuthentic mac s.cfg now req raw
      × ((req.auth.auth_mode ≡ auth_mode_control)
          × ((protocol_min ≤ req.protocol_version)
              × ((req.protocol_version ≤ protocol_ver)
                  × ((check_request s.cfg req ≡ none) × IsAgreed s.cfg req))))
unfolding handle_setup
opened-IsAuthentic mac bind now s req raw keyed h =
    elim (decide (authenticate mac s.cfg now req raw) bind s req).1
        as (λ v.
          (decide (authenticate mac s.cfg now req raw) bind s req).1 ≡ v
          → IsAuthentic mac s.cfg now req raw
            × ((req.auth.auth_mode ≡ auth_mode_control)
                × ((protocol_min ≤ req.protocol_version)
                    × ((req.protocol_version ≤ protocol_ver)
                        × ((check_request s.cfg req ≡ none) × IsAgreed s.cfg req))))) [
                          | rejected code ↦ λ e. absurd (h (ground (arith, e)))
                          | opened port ↦ λ e.
                              let a = authenticate mac s.cfg now req raw in
                              let (code, (checks, mode)) = mode_sound a bind s req port e in
                              let control = control_mode s.cfg req keyed mode in
                              (
                                authenticate_sound mac s.cfg now req raw keyed control code,
                                (
                                  control,
                                  (
                                    version_low s.cfg req checks,
                                    (
                                      version_high s.cfg req checks,
                                      (checks, check-IsAgreed s.cfg req checks),
                                    ),
                                  ),
                                ),
                              )
                        ]
      refl
