-- ===== src/Session/Activation.antt =====
-- internal/udpst/session.go: `awaitActivation`, one received datagram at a time. `mac` is
-- HMAC-SHA-256, `set_class` the socket option call, `now` the Unix time of the answer.
use diagd.Base.{
  ℕ, ◌/◌, Bool, true, not, ◌&&◌, ◌||◌, List, [], ◌∷◌, Option, none, some, leb, ◌==◌, if◌then◌else◌,
  u8, u16, u32, get_or,
}
use diagd.Base.Int.{is_nonneg, pos_part}
use diagd.Clock.{millisecond, second}
use diagd.Rates.{no_rate}
use diagd.Protocol.{
  TestActPdu, protocol_ver, test_act_resp_none, test_act_resp_ack_ok, cmd_test_act_downstream,
}
use diagd.Protocol.TestAct.{parse_test_act, marshal_test_act, test_act_auth_digest_off}
use diagd.Auth.{auth_mode_control, verify_digest, sign_pdu}
use diagd.Accounting.Intervals.{bool_byte}
use diagd.Session.{TestParams, Session, initial_index}
use diagd.Session.Police.{police, sr_index_auto}

-- The response `resp` before it is signed.
unfoldable pub activation_response : Session → TestParams → TestActPdu → TestActPdu
activation_response s p req =
    let current = leb protocol_ver s.pver in
    record req {
      cmd_response = test_act_resp_ack_ok;
      low_thresh = u16 p.low_thresh;
      upper_thresh = u16 p.upper_thresh;
      trial_int = u16 (p.trial_int / millisecond);
      test_int_time = u16 (p.duration / second);
      dscp_ecn = p.dscp_ecn;
      sr_index_conf =
          if is_nonneg p.sr_index_conf then u16 (pos_part p.sr_index_conf) else sr_index_auto;
      use_ow_del_var = bool_byte p.use_ow_del_var;
      high_speed_delta = u8 p.high_speed_delta;
      slow_adj_thresh = u16 p.slow_adj_thresh;
      seq_err_thresh = u16 p.seq_err_thresh;
      ignore_ooo_dup = bool_byte p.ignore_ooo_dup;
      rate_adj_algo = p.algo;
      ecn_ce_thresh = u8 p.ecn_ce_thresh;
      sr_adj_supp_count = p.sr_adj_supp;
      sub_int_period = if current then u16 (p.sub_int / millisecond) else req.sub_int_period;
      legacy_sub_int_sec = if current then req.legacy_sub_int_sec else u8 (p.sub_int / second);
      sr =
          if not (req.cmd_request == cmd_test_act_downstream)
          then get_or s.table.rows (initial_index p) no_rate
          else no_rate;
    }

-- The bytes of the response, signed where the session has keys.
activation_pdu : (List ℕ → List ℕ → List ℕ) → Session → TestActPdu → ℕ → List ℕ
activation_pdu mac s resp now =
    let plain = marshal_test_act resp in
    elim s.keys [
      | none ↦ plain
      | some k ↦
          if leb protocol_ver s.pver
          then sign_pdu mac k.server
              (marshal_test_act
                (record resp { auth = record (resp.auth) { auth_unix_time = u32 now } }))
              test_act_auth_digest_off
          else plain
    ]

-- What a session runs with once it is activated.
pub record Activated : Type 0 where
  pub downstream : Bool
  pub p : TestParams
  pub reply : List ℕ

-- Whether an authenticated session accepts the digest of a request.
unfoldable pub digest_accepted : (List ℕ → List ℕ → List ℕ) → Session → List ℕ → TestActPdu → Bool
digest_accepted mac s raw req = elim s.keys [
  | none ↦ true
  | some k ↦
      if leb protocol_ver s.pver && s.auth_mode == auth_mode_control
      then verify_digest mac k.client raw test_act_auth_digest_off req.auth.auth_digest
      else true
]

unfoldable pub activate :
    (List ℕ → List ℕ → List ℕ) → (ℕ → Bool) → Session → TestActPdu → ℕ → Activated
unfolding activation_pdu
activate mac set_class s req now =
    let p = police set_class s req in
    record {
      downstream = req.cmd_request == cmd_test_act_downstream;
      p = p;
      reply = activation_pdu mac s (activation_response s p req) now;
    }

-- One round of the loop: a datagram, and whether it came from the setup peer's address.
unfoldable pub on_datagram :
    (List ℕ → List ℕ → List ℕ) → (ℕ → Bool) → Session → Bool → List ℕ → ℕ → Option Activated
unfolding activate
on_datagram mac set_class s from_peer raw now = elim (parse_test_act raw) [
  | none ↦ none
  | some req ↦
      if not from_peer
        || (not (req.cmd_response == test_act_resp_none) || not (digest_accepted mac s raw req))
      then none
      else some (activate mac set_class s req now)
]

-- The datagrams that arrive before the deadline, in order; the deadline ends the loop.
unfoldable pub await_activation :
    (List ℕ → List ℕ → List ℕ) → (ℕ → Bool) → Session → List (Bool × List ℕ) → ℕ → Option Activated
await_activation mac set_class s [] now = none
await_activation mac set_class s ((from_peer, raw) ∷ rest) now =
    let later = await_activation mac set_class s rest now in
    elim (on_datagram mac set_class s from_peer raw now) [ none ↦ later | some a ↦ some a ]
