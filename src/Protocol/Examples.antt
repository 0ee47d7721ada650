-- ===== src/Protocol/Examples.antt =====
-- Instances for internal/udpst/protocol.go.
use diagd.Base.{◌≡◌, refl, false, arith, inl, inr, replicate, some}
use diagd.Rates.{Rate}
use diagd.Rates.Codec
use diagd.Protocol.{
  AuthTrailer, SetupPdu, TestActPdu, LoadPdu, SubIntStats, StatusPdu, status_no_delay,
}
use diagd.Protocol.Auth
use diagd.Protocol.Setup
use diagd.Protocol.Setup.{parse_setup, marshal_setup, parse-marshal_setup}
use diagd.Protocol.TestAct
use diagd.Protocol.TestAct.{parse_test_act, marshal_test_act, parse-marshal_test_act}
use diagd.Protocol.Status.{parse_status, marshal_status}
use diagd.Protocol.Status.RoundTrip.{parse-marshal_status}

abbrev pub trailer : AuthTrailer
trailer = record {
  auth_mode = 1;
  auth_unix_time = 1700000000;
  auth_digest = replicate 32 9;
  key_id = 3;
}

pub trailer-IsWire : Auth.IsWire trailer
trailer-IsWire = omega arith

abbrev pub request : SetupPdu
request = record {
  protocol_version = 20;
  mc_index = 0;
  mc_count = 1;
  mc_ident = 4711;
  cmd_request = 1;
  cmd_response = 0;
  max_bandwidth = 0x8064;
  test_port = 0;
  modifiers = 1;
  auth = trailer;
}

pub request-IsWire : Setup.IsWire request
request-IsWire = record {
  version_half = omega arith;
  ident_half = omega arith;
  bandwidth_half = omega arith;
  port_half = omega arith;
  command_known = inl refl;
  trailer = trailer-IsWire;
}

abbrev pub row : Rate
row = record {
  tx_interval1 = 1000;
  udp_payload1 = 1222;
  burst_size1 = 3;
  tx_interval2 = 50000;
  udp_payload2 = 1222;
  burst_size2 = 1;
  udp_addon2 = 70000;
}

row-IsWire : Codec.IsWire row
row-IsWire = omega arith

abbrev pub activation : TestActPdu
activation = record {
  protocol_version = 20;
  cmd_request = 2;
  cmd_response = 0;
  low_thresh = 30;
  upper_thresh = 90;
  trial_int = 50;
  test_int_time = 10;
  legacy_sub_int_sec = 0;
  dscp_ecn = 0;
  sr_index_conf = 0xFFFF;
  use_ow_del_var = 0;
  high_speed_delta = 10;
  slow_adj_thresh = 3;
  seq_err_thresh = 10;
  ignore_ooo_dup = 1;
  modifiers = 0;
  rate_adj_algo = 0;
  ecn_ce_thresh = 0;
  sr = row;
  sub_int_period = 1000;
  sr_adj_supp_count = 2;
  auth = trailer;
  legacy = false;
}

pub activation-IsWire : TestAct.IsWire activation
activation-IsWire = record {
  version_half = omega arith;
  low_half = omega arith;
  upper_half = omega arith;
  trial_half = omega arith;
  time_half = omega arith;
  index_half = omega arith;
  slow_half = omega arith;
  errors_half = omega arith;
  period_half = omega arith;
  supp_half = omega arith;
  row = row-IsWire;
  command_known = inr refl;
  trailer = trailer-IsWire;
}

parse-marshal_test_act_example : parse_test_act (marshal_test_act activation) ≡ some activation
parse-marshal_test_act_example = parse-marshal_test_act activation activation-IsWire (inl refl)

abbrev pub load_hdr : LoadPdu
load_hdr = record {
  test_action = 0;
  rx_stopped = 0;
  seq_no = 70000;
  udp_payload = 1222;
  spdu_seq_err = 1;
  spdu_time_sec = 1700000000;
  spdu_time_nsec = 999999999;
  time_sec = 1700000001;
  time_nsec = 5;
  rtt_resp_delay = 12;
}

abbrev stats : SubIntStats
stats = record {
  rx_datagrams = 1000;
  rx_bytes = 5000000000;
  delta_time = 1000000;
  seq_err_loss = 3;
  seq_err_ooo = 1;
  seq_err_dup = 0;
  delay_var_min = 0;
  delay_var_max = 12;
  delay_var_sum = 4000;
  delay_var_cnt = 997;
  rtt_var_min = status_no_delay;
  rtt_var_max = 0;
  accum_time = 1000;
}

abbrev pub status : StatusPdu
status = record {
  test_action = 0;
  rx_stopped = 0;
  seq_no = 20;
  sr = row;
  sub_int_seq_no = 1;
  sub_int_saved = stats;
  seq_err_loss = 1;
  seq_err_ooo = 0;
  seq_err_dup = 0;
  clock_delta_min = 4294967290;
  delay_var_min = 2;
  delay_var_max = 5;
  delay_var_sum = 300;
  delay_var_cnt = 100;
  rtt_minimum = 8;
  rtt_var_sample = 1;
  delay_min_upd = 1;
  ti_delta_time = 50000;
  ti_rx_datagrams = 100;
  ti_rx_bytes = 122200;
  time_sec = 1700000001;
  time_nsec = 1000;
  auth_mode = 0;
  ti_rx_ce_count = 2;
  saved_ce_count = 40;
  modifiers = 0;
  legacy = false;
}

parse-marshal_status_example : parse_status (marshal_status status) ≡ some status
parse-marshal_status_example =
    parse-marshal_status status
      (record {
        action_known = omega arith;
        stopped_flag = omega arith;
        seq_no_word = omega arith;
        sub_int_seq_no_word = omega arith;
        seq_err_loss_word = omega arith;
        seq_err_ooo_word = omega arith;
        seq_err_dup_word = omega arith;
        clock_delta_min_word = omega arith;
        delay_var_min_word = omega arith;
        delay_var_max_word = omega arith;
        delay_var_sum_word = omega arith;
        delay_var_cnt_word = omega arith;
        rtt_minimum_word = omega arith;
        rtt_var_sample_word = omega arith;
        ti_delta_time_word = omega arith;
        ti_rx_datagrams_word = omega arith;
        ti_rx_bytes_word = omega arith;
        time_sec_word = omega arith;
        time_nsec_word = omega arith;
        ti_rx_ce_count_word = omega arith;
        saved_ce_count_word = omega arith;
        row = row-IsWire;
        stats = omega arith;
      })
      (inl refl)
