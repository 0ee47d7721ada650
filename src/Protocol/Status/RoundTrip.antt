-- ===== src/Protocol/Status/RoundTrip.antt =====
-- What parseStatus of internal/udpst/protocol.go reads from what marshal wrote.
use diagd.Base.{◌<◌, ◌≤◌, ◌≡◌, true, false, some, arith, ◌⊎◌, inl, inr, join32, join64}
use diagd.Rates.Codec
use diagd.Protocol.{SubIntStats, StatusPdu, test_action_stop2}
use diagd.Protocol.Status.{marshal_status, parse_status}

pub record IsWireStats (s : SubIntStats) : Type 0 where
  pub rx_datagrams_word : s.rx_datagrams < 4294967296
  pub delta_time_word : s.delta_time < 4294967296
  pub seq_err_loss_word : s.seq_err_loss < 4294967296
  pub seq_err_ooo_word : s.seq_err_ooo < 4294967296
  pub seq_err_dup_word : s.seq_err_dup < 4294967296
  pub delay_var_min_word : s.delay_var_min < 4294967296
  pub delay_var_max_word : s.delay_var_max < 4294967296
  pub delay_var_sum_word : s.delay_var_sum < 4294967296
  pub delay_var_cnt_word : s.delay_var_cnt < 4294967296
  pub rtt_var_min_word : s.rtt_var_min < 4294967296
  pub rtt_var_max_word : s.rtt_var_max < 4294967296
  pub accum_time_word : s.accum_time < 4294967296
  pub rx_bytes_long : s.rx_bytes < 18446744073709551616

pub record IsWire (p : StatusPdu) : Type 0 where
  pub action_known : p.test_action ≤ test_action_stop2
  pub stopped_flag : p.rx_stopped ≤ 1
  pub seq_no_word : p.seq_no < 4294967296
  pub sub_int_seq_no_word : p.sub_int_seq_no < 4294967296
  pub seq_err_loss_word : p.seq_err_loss < 4294967296
  pub seq_err_ooo_word : p.seq_err_ooo < 4294967296
  pub seq_err_dup_word : p.seq_err_dup < 4294967296
  pub clock_delta_min_word : p.clock_delta_min < 4294967296
  pub delay_var_min_word : p.delay_var_min < 4294967296
  pub delay_var_max_word : p.delay_var_max < 4294967296
  pub delay_var_sum_word : p.delay_var_sum < 4294967296
  pub delay_var_cnt_word : p.delay_var_cnt < 4294967296
  pub rtt_minimum_word : p.rtt_minimum < 4294967296
  pub rtt_var_sample_word : p.rtt_var_sample < 4294967296
  pub ti_delta_time_word : p.ti_delta_time < 4294967296
  pub ti_rx_datagrams_word : p.ti_rx_datagrams < 4294967296
  pub ti_rx_bytes_word : p.ti_rx_bytes < 4294967296
  pub time_sec_word : p.time_sec < 4294967296
  pub time_nsec_word : p.time_nsec < 4294967296
  pub ti_rx_ce_count_word : p.ti_rx_ce_count < 4294967296
  pub saved_ce_count_word : p.saved_ce_count < 4294967296
  pub row : Codec.IsWire p.sr
  pub stats : IsWireStats p.sub_int_saved

-- A PDU of the legacy layout has no room for the last four fields.
pub record IsLegacy (p : StatusPdu) : Type 0 where
  pub flag : p.legacy ≡ true
  pub no_mode : p.auth_mode ≡ 0
  pub no_ce : p.ti_rx_ce_count ≡ 0
  pub no_saved_ce : p.saved_ce_count ≡ 0
  pub no_modifiers : p.modifiers ≡ 0

parse-marshal_current :
    (p : StatusPdu) → IsWire p → p.legacy ≡ false → parse_status (marshal_status p) ≡ some p
unfolding parse_status marshal_status
parse-marshal_current p w l = ground (
  arith,
  join32 p.sr.tx_interval1,
  join32 p.sr.udp_payload1,
  join32 p.sr.burst_size1,
  join32 p.sr.tx_interval2,
  join32 p.sr.udp_payload2,
  join32 p.sr.burst_size2,
  join32 p.sr.udp_addon2,
  join32 p.seq_no,
  join32 p.sub_int_seq_no,
  join32 p.seq_err_loss,
  join32 p.seq_err_ooo,
  join32 p.seq_err_dup,
  join32 p.clock_delta_min,
  join32 p.delay_var_min,
  join32 p.delay_var_max,
  join32 p.delay_var_sum,
  join32 p.delay_var_cnt,
  join32 p.rtt_minimum,
  join32 p.rtt_var_sample,
  join32 p.ti_delta_time,
  join32 p.ti_rx_datagrams,
  join32 p.ti_rx_bytes,
  join32 p.time_sec,
  join32 p.time_nsec,
  join32 p.ti_rx_ce_count,
  join32 p.saved_ce_count,
  join32 p.sub_int_saved.rx_datagrams,
  join32 p.sub_int_saved.delta_time,
  join32 p.sub_int_saved.seq_err_loss,
  join32 p.sub_int_saved.seq_err_ooo,
  join32 p.sub_int_saved.seq_err_dup,
  join32 p.sub_int_saved.delay_var_min,
  join32 p.sub_int_saved.delay_var_max,
  join32 p.sub_int_saved.delay_var_sum,
  join32 p.sub_int_saved.delay_var_cnt,
  join32 p.sub_int_saved.rtt_var_min,
  join32 p.sub_int_saved.rtt_var_max,
  join32 p.sub_int_saved.accum_time,
  join64 p.sub_int_saved.rx_bytes,
)

parse-marshal_legacy :
    (p : StatusPdu) → IsWire p → IsLegacy p → parse_status (marshal_status p) ≡ some p
unfolding parse_status marshal_status
parse-marshal_legacy p w l = ground (
  arith,
  join32 p.sr.tx_interval1,
  join32 p.sr.udp_payload1,
  join32 p.sr.burst_size1,
  join32 p.sr.tx_interval2,
  join32 p.sr.udp_payload2,
  join32 p.sr.burst_size2,
  join32 p.sr.udp_addon2,
  join32 p.seq_no,
  join32 p.sub_int_seq_no,
  join32 p.seq_err_loss,
  join32 p.seq_err_ooo,
  join32 p.seq_err_dup,
  join32 p.clock_delta_min,
  join32 p.delay_var_min,
  join32 p.delay_var_max,
  join32 p.delay_var_sum,
  join32 p.delay_var_cnt,
  join32 p.rtt_minimum,
  join32 p.rtt_var_sample,
  join32 p.ti_delta_time,
  join32 p.ti_rx_datagrams,
  join32 p.ti_rx_bytes,
  join32 p.time_sec,
  join32 p.time_nsec,
  join32 p.ti_rx_ce_count,
  join32 p.saved_ce_count,
  join32 p.sub_int_saved.rx_datagrams,
  join32 p.sub_int_saved.delta_time,
  join32 p.sub_int_saved.seq_err_loss,
  join32 p.sub_int_saved.seq_err_ooo,
  join32 p.sub_int_saved.seq_err_dup,
  join32 p.sub_int_saved.delay_var_min,
  join32 p.sub_int_saved.delay_var_max,
  join32 p.sub_int_saved.delay_var_sum,
  join32 p.sub_int_saved.delay_var_cnt,
  join32 p.sub_int_saved.rtt_var_min,
  join32 p.sub_int_saved.rtt_var_max,
  join32 p.sub_int_saved.accum_time,
  join64 p.sub_int_saved.rx_bytes,
)

-- A status PDU with fields of their widths is read back as it was written, in the legacy layout
-- where the fields that it lacks are zero.
pub parse-marshal_status :
    (p : StatusPdu)
    → IsWire p
    → (p.legacy ≡ false) ⊎ IsLegacy p
    → parse_status (marshal_status p) ≡ some p
parse-marshal_status p w (inl current) = parse-marshal_current p w current
parse-marshal_status p w (inr legacy) = parse-marshal_legacy p w legacy
