-- ===== src/Protocol.antt =====
-- internal/udpst/protocol.go: the constants and PDU structures. A field holds a value of its Go
-- type; `IsWire` of each PDU's module says so. Errors of the parsers are `none`: every caller only
-- tests whether there is one.
pub mod Auth
pub mod Load
pub mod Setup
pub mod TestAct
pub mod Status
pub mod Examples
use diagd.Base.{ℕ, Bool, List, replicate}
use diagd.Rates.{Rate}

abbrev pub protocol_ver : ℕ
protocol_ver = 20

abbrev pub protocol_min : ℕ
protocol_min = 11

abbrev pub pdu_id_setup : ℕ
pdu_id_setup = 0xACE1

abbrev pub pdu_id_test_act : ℕ
pdu_id_test_act = 0xACE2

abbrev pub pdu_id_null : ℕ
pdu_id_null = 0xDEAD

abbrev pub pdu_id_load : ℕ
pdu_id_load = 0xBEEF

abbrev pub pdu_id_status : ℕ
pdu_id_status = 0xFEED

abbrev pub setup_size : ℕ
setup_size = 56

abbrev pub null_size : ℕ
null_size = 48

abbrev pub test_act_size : ℕ
test_act_size = 104

abbrev pub test_act_min_size : ℕ
test_act_min_size = 60

abbrev pub load_hdr_size : ℕ
load_hdr_size = 32

abbrev pub status_size : ℕ
status_size = 204

abbrev pub status_legacy_size : ℕ
status_legacy_size = 168

abbrev pub cmd_setup_request : ℕ
cmd_setup_request = 1

abbrev pub cmd_setup_response : ℕ
cmd_setup_response = 2

abbrev pub cmd_test_act_upstream : ℕ
cmd_test_act_upstream = 1

abbrev pub cmd_test_act_downstream : ℕ
cmd_test_act_downstream = 2

abbrev pub test_act_resp_none : ℕ
test_act_resp_none = 0

abbrev pub test_act_resp_ack_ok : ℕ
test_act_resp_ack_ok = 1

abbrev pub test_action_test : ℕ
test_action_test = 0

abbrev pub test_action_stop2 : ℕ
test_action_stop2 = 2

-- statusNoDelay: a delay field with no value.
abbrev pub status_no_delay : ℕ
status_no_delay = 0xFFFFFFFF

pub record AuthTrailer : Type 0 where
  pub auth_mode : ℕ
  pub auth_unix_time : ℕ
  pub auth_digest : List ℕ
  pub key_id : ℕ

pub record SetupPdu : Type 0 where
  pub protocol_version : ℕ
  pub mc_index : ℕ
  pub mc_count : ℕ
  pub mc_ident : ℕ
  pub cmd_request : ℕ
  pub cmd_response : ℕ
  pub max_bandwidth : ℕ
  pub test_port : ℕ
  pub modifiers : ℕ
  pub auth : AuthTrailer

pub record NullPdu : Type 0 where
  pub protocol_version : ℕ
  pub auth : AuthTrailer

pub record TestActPdu : Type 0 where
  pub protocol_version : ℕ
  pub cmd_request : ℕ
  pub cmd_response : ℕ
  pub low_thresh : ℕ
  pub upper_thresh : ℕ
  pub trial_int : ℕ
  pub test_int_time : ℕ
  pub legacy_sub_int_sec : ℕ
  pub dscp_ecn : ℕ
  pub sr_index_conf : ℕ
  pub use_ow_del_var : ℕ
  pub high_speed_delta : ℕ
  pub slow_adj_thresh : ℕ
  pub seq_err_thresh : ℕ
  pub ignore_ooo_dup : ℕ
  pub modifiers : ℕ
  pub rate_adj_algo : ℕ
  pub ecn_ce_thresh : ℕ
  pub sr : Rate
  pub sub_int_period : ℕ
  pub sr_adj_supp_count : ℕ
  pub auth : AuthTrailer
  pub legacy : Bool

pub record LoadPdu : Type 0 where
  pub test_action : ℕ
  pub rx_stopped : ℕ
  pub seq_no : ℕ
  pub udp_payload : ℕ
  pub spdu_seq_err : ℕ
  pub spdu_time_sec : ℕ
  pub spdu_time_nsec : ℕ
  pub time_sec : ℕ
  pub time_nsec : ℕ
  pub rtt_resp_delay : ℕ

pub record SubIntStats : Type 0 where
  pub rx_datagrams : ℕ
  pub rx_bytes : ℕ
  pub delta_time : ℕ
  pub seq_err_loss : ℕ
  pub seq_err_ooo : ℕ
  pub seq_err_dup : ℕ
  pub delay_var_min : ℕ
  pub delay_var_max : ℕ
  pub delay_var_sum : ℕ
  pub delay_var_cnt : ℕ
  pub rtt_var_min : ℕ
  pub rtt_var_max : ℕ
  pub accum_time : ℕ

pub record StatusPdu : Type 0 where
  pub test_action : ℕ
  pub rx_stopped : ℕ
  pub seq_no : ℕ
  pub sr : Rate
  pub sub_int_seq_no : ℕ
  pub sub_int_saved : SubIntStats
  pub seq_err_loss : ℕ
  pub seq_err_ooo : ℕ
  pub seq_err_dup : ℕ
  pub clock_delta_min : ℕ
  pub delay_var_min : ℕ
  pub delay_var_max : ℕ
  pub delay_var_sum : ℕ
  pub delay_var_cnt : ℕ
  pub rtt_minimum : ℕ
  pub rtt_var_sample : ℕ
  pub delay_min_upd : ℕ
  pub ti_delta_time : ℕ
  pub ti_rx_datagrams : ℕ
  pub ti_rx_bytes : ℕ
  pub time_sec : ℕ
  pub time_nsec : ℕ
  pub auth_mode : ℕ
  pub ti_rx_ce_count : ℕ
  pub saved_ce_count : ℕ
  pub modifiers : ℕ
  pub legacy : Bool

-- The zero trailer, which a legacy Test Activation keeps.
abbrev pub no_auth : AuthTrailer
no_auth = record { auth_mode = 0; auth_unix_time = 0; auth_digest = zero_digest; key_id = 0 }
  where
    zero_digest : List ℕ
    zero_digest = replicate 32 0
