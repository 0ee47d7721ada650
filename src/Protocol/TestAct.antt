-- ===== src/Protocol/TestAct.antt =====
-- internal/udpst/protocol.go: the Test Activation Request and Response.
use diagd.Base.{
  ℕ, ◌<◌, ◌≡◌, List, [], ◌∷◌, true, false, ◌&&◌, ◌||◌, Option, none, some, get_or, set, length,
  replicate, put16, get16, join16, join32, ltb, ◌==◌, not, if◌then◌else◌, arith, ◌⊎◌, take_block,
  get_after, length-append, inl, inr,
}
use diagd.Rates.Codec
use diagd.Rates.Codec.{marshal_rate, parse_rate}
use diagd.Protocol.{
  TestActPdu, test_act_size, test_act_min_size, pdu_id_test_act, cmd_test_act_upstream,
  cmd_test_act_downstream, no_auth,
}
use diagd.Protocol.Auth
use diagd.Protocol.Auth.{marshal_auth, parse_auth, auth_split, auth_block}

-- The literal `p` of parseTestAct, with the zero values of the fields that it leaves out.
parse_test_act_fields : List ℕ → TestActPdu
parse_test_act_fields b = record {
  protocol_version = get16 b 2;
  cmd_request = get_or b 4 0;
  cmd_response = get_or b 5 0;
  low_thresh = get16 b 6;
  upper_thresh = get16 b 8;
  trial_int = get16 b 10;
  test_int_time = get16 b 12;
  legacy_sub_int_sec = get_or b 14 0;
  dscp_ecn = get_or b 15 0;
  sr_index_conf = get16 b 16;
  use_ow_del_var = get_or b 18 0;
  high_speed_delta = get_or b 19 0;
  slow_adj_thresh = get16 b 20;
  seq_err_thresh = get16 b 22;
  ignore_ooo_dup = get_or b 24 0;
  modifiers = get_or b 25 0;
  rate_adj_algo = get_or b 26 0;
  ecn_ce_thresh = get_or b 27 0;
  sr = parse_rate b 28;
  sub_int_period = get16 b 56;
  sr_adj_supp_count = 0;
  auth = no_auth;
  legacy = ltb (length b) test_act_size;
}

unfoldable pub parse_test_act : List ℕ → Option TestActPdu
unfolding parse_test_act_fields parse_auth
parse_test_act b =
    let p = parse_test_act_fields b in
    if ltb (length b) test_act_min_size || ltb test_act_size (length b)
    then none
    else (if not (get16 b 0 == pdu_id_test_act)
        then none
        else (if not (p.cmd_request == cmd_test_act_upstream)
              && not (p.cmd_request == cmd_test_act_downstream)
            then none
            else (if not p.legacy
                then some (record p { sr_adj_supp_count = get16 b 60; auth = parse_auth b 63 })
                else some p)))

-- What marshal writes into a buffer of `size` bytes up to offset 58.
test_act_head : TestActPdu → ℕ → List ℕ
test_act_head p size =
    let b1 = put16 (put16 (replicate size 0) 0 pdu_id_test_act) 2 p.protocol_version in
    let b2 = set (set b1 4 p.cmd_request) 5 p.cmd_response in
    let b3 = put16 (put16 b2 6 p.low_thresh) 8 p.upper_thresh in
    let b4 = put16 (put16 b3 10 p.trial_int) 12 p.test_int_time in
    let b5 = set (set b4 14 p.legacy_sub_int_sec) 15 p.dscp_ecn in
    let b6 = set (set (put16 b5 16 p.sr_index_conf) 18 p.use_ow_del_var) 19 p.high_speed_delta in
    let b7 = put16 (put16 b6 20 p.slow_adj_thresh) 22 p.seq_err_thresh in
    let b8 = set (set b7 24 p.ignore_ooo_dup) 25 p.modifiers in
    let b9 = marshal_rate p.sr (set (set b8 26 p.rate_adj_algo) 27 p.ecn_ce_thresh) 28 in
    put16 b9 56 p.sub_int_period

test_act_tail : TestActPdu → List ℕ
unfolding test_act_head
test_act_tail p = put16 (test_act_head p test_act_size) 60 p.sr_adj_supp_count

unfoldable pub marshal_test_act : TestActPdu → List ℕ
unfolding test_act_tail
marshal_test_act p =
    if p.legacy then test_act_head p test_act_min_size else marshal_auth p.auth (test_act_tail p) 63

abbrev pub test_act_auth_digest_off : ℕ
test_act_auth_digest_off = 68

pub record IsWire (p : TestActPdu) : Type 0 where
  pub version_half : p.protocol_version < 65536
  pub low_half : p.low_thresh < 65536
  pub upper_half : p.upper_thresh < 65536
  pub trial_half : p.trial_int < 65536
  pub time_half : p.test_int_time < 65536
  pub index_half : p.sr_index_conf < 65536
  pub slow_half : p.slow_adj_thresh < 65536
  pub errors_half : p.seq_err_thresh < 65536
  pub period_half : p.sub_int_period < 65536
  pub supp_half : p.sr_adj_supp_count < 65536
  pub row : Codec.IsWire p.sr
  pub command_known :
      (p.cmd_request ≡ cmd_test_act_upstream) ⊎ (p.cmd_request ≡ cmd_test_act_downstream)
  pub trailer : Auth.IsWire p.auth

-- A PDU of the legacy layout has no room for the fields of version 20.
pub record IsLegacy (p : TestActPdu) : Type 0 where
  pub flag : p.legacy ≡ true
  pub no_supp : p.sr_adj_supp_count ≡ 0
  pub no_trailer : p.auth ≡ no_auth

parse-marshal_legacy :
    (p : TestActPdu) → IsWire p → IsLegacy p → parse_test_act (marshal_test_act p) ≡ some p
unfolding parse_test_act marshal_test_act
parse-marshal_legacy p w l = ground (
  arith,
  join16 p.protocol_version,
  join16 p.low_thresh,
  join16 p.upper_thresh,
  join16 p.trial_int,
  join16 p.test_int_time,
  join16 p.sr_index_conf,
  join16 p.slow_adj_thresh,
  join16 p.seq_err_thresh,
  join16 p.sub_int_period,
  join32 p.sr.tx_interval1,
  join32 p.sr.udp_payload1,
  join32 p.sr.burst_size1,
  join32 p.sr.tx_interval2,
  join32 p.sr.udp_payload2,
  join32 p.sr.burst_size2,
  join32 p.sr.udp_addon2,
)

parse-marshal_current :
    (p : TestActPdu) → IsWire p → p.legacy ≡ false → parse_test_act (marshal_test_act p) ≡ some p
unfolding parse_test_act marshal_test_act
parse-marshal_current p w l =
    rw (auth_split p.auth (test_act_tail p) 63 w.trailer (omega arith), l)
      (ground (
        arith,
        join16 p.protocol_version,
        join16 p.low_thresh,
        join16 p.upper_thresh,
        join16 p.trial_int,
        join16 p.test_int_time,
        join16 p.sr_index_conf,
        join16 p.slow_adj_thresh,
        join16 p.seq_err_thresh,
        join16 p.sub_int_period,
        join16 p.sr_adj_supp_count,
        join32 p.sr.tx_interval1,
        join32 p.sr.udp_payload1,
        join32 p.sr.burst_size1,
        join32 p.sr.tx_interval2,
        join32 p.sr.udp_payload2,
        join32 p.sr.burst_size2,
        join32 p.sr.udp_addon2,
        join32 p.auth.auth_unix_time,
        length-append p.auth.auth_digest (p.auth.key_id ∷ (0 ∷ (0 ∷ (0 ∷ [])))),
        take_block p.auth.auth_digest (p.auth.key_id ∷ (0 ∷ (0 ∷ (0 ∷ [])))) 32,
        get_after p.auth.auth_digest (p.auth.key_id ∷ (0 ∷ (0 ∷ (0 ∷ [])))) 32 0 32,
      ))

-- A Test Activation PDU with fields of their widths and a known command is read back as it was
-- written, in the legacy layout where the fields that it lacks are zero.
pub parse-marshal_test_act :
    (p : TestActPdu)
    → IsWire p
    → (p.legacy ≡ false) ⊎ IsLegacy p
    → parse_test_act (marshal_test_act p) ≡ some p
parse-marshal_test_act p w (inl current) = parse-marshal_current p w current
parse-marshal_test_act p w (inr legacy) = parse-marshal_legacy p w legacy
