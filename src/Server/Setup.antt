-- ===== src/Server/Setup.antt =====
-- internal/udpst/server.go: `handleSetup` behind its checks, `sendSetupResponse`, one round of
-- `Serve`, and the end of a session. `mac` is HMAC-SHA-256, `bind` is net.ListenUDP, `now` the clock
-- in nanoseconds since the Unix epoch.
use Prim.Native.Nat.{bit_and}
use diagd.Base.{
  ℕ, ◌+◌, ◌/◌, ◌%◌, Bool, not, ◌||◌, List, Option, none, some, ltb, leb, ◌==◌, if◌then◌else◌, u16,
  u32, u64, replicate,
}
use diagd.Clock.{second}
use diagd.Rates.{build_rate_table}
use diagd.Protocol.{SetupPdu, protocol_ver, cmd_setup_request, cmd_setup_response}
use diagd.Protocol.Setup.{
  parse_setup, marshal_setup, marshal_null, setup_auth_digest_off, null_auth_digest_off,
}
use diagd.Auth.{sign_pdu}
use diagd.Session.{Session}
use diagd.Server.{
  Config, Server, reserve_bandwidth, release_bandwidth, new_session_socket, session_done,
}
use diagd.Server.Code
use diagd.Server.Checks.{AuthState, authenticate, check_request, check_mode}

abbrev bw_upstream_bit : ℕ
bw_upstream_bit = 0x8000

unfoldable pub wants_upstream : SetupPdu → Bool
wants_upstream req = not (bit_and req.max_bandwidth bw_upstream_bit == 0)

-- `mbw` where bandwidth is reserved: the requirement without its direction bit under admission
-- control, 0 otherwise.
unfoldable pub granted_mbw : Config → SetupPdu → ℕ
granted_mbw cfg req =
    if ltb 0 cfg.max_bandwidth_mbps then req.max_bandwidth % bw_upstream_bit else 0

-- The bandwidth block: the server after it, and the code of a rejection.
unfoldable pub admit_bandwidth : Server → SetupPdu → Server × Option ℕ
admit_bandwidth s req =
    let mbw = req.max_bandwidth % bw_upstream_bit in
    let (t, taken) = reserve_bandwidth s (wants_upstream req) mbw in
    if ltb 0 s.cfg.max_bandwidth_mbps
    then (if mbw == 0
        then (s, some Code.no_max_bw)
        else (if taken then (t, none) else (t, some Code.cap_exc)))
    else (s, none)

-- The closure `releaseOnErr`.
unfoldable pub release_on_err : Server → Bool → ℕ → Server
release_on_err s upstream mbw = if ltb 0 mbw then release_bandwidth s upstream mbw else s

-- What the checks and allocations come to: a response code, or the port of the session's socket.
pub data Verdict : Type 0 where
  rejected : ℕ → Verdict
  opened : ℕ → Verdict

-- From the bandwidth block to the session's socket.
unfoldable pub allocate : (ℕ → Option ℕ) → Server → SetupPdu → Server × Verdict
unfolding admit_bandwidth release_on_err
allocate bind s req =
    let up = wants_upstream req in
    let mbw = granted_mbw s.cfg req in
    let (t, refused) = admit_bandwidth s req in
    let (u, socket) = new_session_socket bind t in
    let with_socket : Server × Verdict = elim socket [
      | none ↦ (release_on_err u up mbw, rejected Code.conn_fail)
      | some port ↦ (u, opened port)
    ] in
    let with_mode : Server × Verdict = elim (check_mode s.cfg req) [
      | none ↦ with_socket
      | some code ↦ (release_on_err t up mbw, rejected code)
    ] in
    elim refused [ none ↦ with_mode | some code ↦ (t, rejected code) ]

-- All of handleSetup's decisions, in its order.
unfoldable pub decide : AuthState → (ℕ → Option ℕ) → Server → SetupPdu → Server × Verdict
unfolding allocate
decide a bind s req = elim a.code [
  | some code ↦ (s, rejected code)
  | none ↦ elim (check_request s.cfg req) [
    | some code ↦ (s, rejected code)
    | none ↦ allocate bind s req
  ]
]

-- The fields of `resp` that handleSetup sets.
unfoldable pub setup_response : SetupPdu → Verdict → SetupPdu
setup_response req (rejected code) = record req {
  cmd_request = cmd_setup_response;
  cmd_response = code;
  protocol_version = if code == Code.bad_version then protocol_ver else req.protocol_version;
}
setup_response req (opened port) = record req {
  cmd_request = cmd_setup_response;
  cmd_response = Code.ack_ok;
  test_port = u16 port;
}

-- The counters of sendSetupResponse.
unfoldable pub count_response : Server → ℕ → Server
count_response s code =
    if code == Code.ack_ok
    then record s { setup_accepts = u64 (s.setup_accepts + 1) }
    else record s { setup_rejects = u64 (s.setup_rejects + 1) }

-- `resp.Auth.AuthUnixTime = uint32(time.Now().Unix())`.
abbrev pub stamped : SetupPdu → ℕ → SetupPdu
stamped resp now = record resp { auth = record (resp.auth) { auth_unix_time = u32 (now / second) } }

-- The bytes that sendSetupResponse sends.
unfoldable pub response_pdu :
    (List ℕ → List ℕ → List ℕ) → SetupPdu → SetupPdu → AuthState → ℕ → List ℕ
response_pdu mac resp req a now =
    let plain = marshal_setup resp in
    let legacy : List ℕ = elim a.legacy_key [
      | none ↦ plain
      | some key ↦ sign_pdu mac key plain setup_auth_digest_off
    ] in
    elim a.keys [
      | none ↦ legacy
      | some k ↦
          if leb protocol_ver req.protocol_version
          then sign_pdu mac k.server (marshal_setup (stamped resp now)) setup_auth_digest_off
          else legacy
    ]

-- The Null Request of the new socket.
null_pdu : (List ℕ → List ℕ → List ℕ) → SetupPdu → AuthState → ℕ → List ℕ
null_pdu mac req a now =
    let plain = marshal_null (record {
      protocol_version = req.protocol_version;
      auth = record {
        auth_mode = req.auth.auth_mode;
        auth_unix_time = u32 (now / second);
        auth_digest = replicate 32 0;
        key_id = req.auth.key_id;
      };
    }) in
    elim a.keys [ none ↦ plain | some k ↦ sign_pdu mac k.server plain null_auth_digest_off ]

-- What handleSetup leaves behind: the server, the session that it starts, and the datagrams that
-- it sends, the Null Request from the session's socket before the response from the control socket.
pub record Handled : Type 0 where
  pub server : Server
  pub session : Option Session
  pub null : Option (List ℕ)
  pub response : List ℕ

unfoldable pub new_session : Config → SetupPdu → AuthState → Session
new_session cfg req a = record {
  table = build_rate_table cfg.jumbo cfg.traditional_mtu;
  max_test_seconds = cfg.max_test_seconds;
  pver = req.protocol_version;
  auth_mode = req.auth.auth_mode;
  keys = a.keys;
  bw_mbps = granted_mbw cfg req;
  bw_upstream = wants_upstream req;
}

unfoldable pub handle_setup :
    (List ℕ → List ℕ → List ℕ) → (ℕ → Option ℕ) → ℕ → Server → SetupPdu → List ℕ → Handled
unfolding decide setup_response count_response null_pdu new_session
handle_setup mac bind now s req raw =
    let a = authenticate mac s.cfg now req raw in
    let (t, verdict) = decide a bind s req in
    let resp = setup_response req verdict in
    record {
      server = count_response t resp.cmd_response;
      session = elim verdict [
        | rejected code ↦ none
        | opened port ↦ some (new_session s.cfg req a)
      ];
      null = elim verdict [
        | rejected code ↦ none
        | opened port ↦
            if leb protocol_ver req.protocol_version then some (null_pdu mac req a now) else none
      ];
      response = response_pdu mac resp req a now;
    }

-- One datagram on the control socket; `allowed` is what Allow says of its source.
unfoldable pub serve :
    (List ℕ → List ℕ → List ℕ) → (ℕ → Option ℕ) → ℕ → Server → Bool → List ℕ → Option Handled
serve mac bind now s allowed raw = elim (parse_setup raw) [
  | none ↦ none
  | some req ↦
      if not allowed || not (req.cmd_request == cmd_setup_request)
      then none
      else some (handle_setup mac bind now s req raw)
]

-- The deferred function of a session's `run`.
unfoldable pub end_session : Server → Session → Server
unfolding session_done
end_session s sess =
    session_done
      (if ltb 0 sess.bw_mbps then release_bandwidth s sess.bw_upstream sess.bw_mbps else s)

-- The counters of logSummary, for a test that ran.
unfoldable pub count_test : Server → Bool → Server
count_test s upstream =
    if upstream
    then record s { tests_upstream = u64 (s.tests_upstream + 1) }
    else record s { tests_downstream = u64 (s.tests_downstream + 1) }
