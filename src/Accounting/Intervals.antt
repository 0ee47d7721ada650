-- ===== src/Accounting/Intervals.antt =====
-- internal/udpst/accounting.go: the trial interval and the sub-interval.
use diagd.Base.{ℕ, ◌+◌, ◌-◌, ◌/◌, ◌%◌, Bool, true, false, ◌&&◌, ltb, leb, ◌==◌, if◌then◌else◌, u32}
use diagd.Clock.{u32_ℤ, millisecond, microsecond}
use diagd.Protocol.{StatusPdu, status_no_delay}
use diagd.Rates.{no_rate}
use diagd.Algo.{TrialInput}
use diagd.Accounting.{RxAccounting, fresh_stats}

unfoldable pub trial_input : RxAccounting → TrialInput
trial_input a = record {
  seq_err_loss = a.t_loss;
  seq_err_ooo = a.t_ooo;
  seq_err_dup = a.t_dup;
  delay_var_sum = a.t_dv_sum;
  delay_var_cnt = a.t_dv_cnt;
  rtt_var_sample = a.rtt_var_sample;
  rx_datagrams = a.t_rx_datagrams;
  ce_count = a.t_ce;
  sub_int_seq_no = a.sub_int_seq;
}

-- `elapsed <= subInt-trialInt/2` with the subtraction, which may pass below 0, on the other side.
unfoldable pub maybe_roll : RxAccounting → ℕ → ℕ → ℕ → RxAccounting
maybe_roll a now sub_int trial_int =
    let elapsed = now - a.sub_start in
    let accum = u32 (a.accum_ms + u32 (elapsed / millisecond)) in
    if ltb 0 sub_int && leb (elapsed + trial_int / 2) sub_int
    then a
    else (if a.sub.rx_datagrams == 0 && sub_int == 0 then a else record a {
      accum_ms = accum;
      saved = record (a.sub) { delta_time = u32 (elapsed / microsecond); accum_time = accum };
      saved_ce = a.sub_ce;
      sub_int_seq = u32 (a.sub_int_seq + 1);
      rolled = true;
      sub = fresh_stats;
      sub_ce = 0;
      sub_start = now;
    })

abbrev pub bool_byte : Bool → ℕ
bool_byte true = 1
bool_byte false = 0

-- The fields that the caller sets are zero here; `wall` is the reading of wallNow.
unfoldable pub build_status : RxAccounting → ℕ → ℕ → ℕ → StatusPdu
build_status a now last_status wall = record {
  test_action = 0;
  rx_stopped = 0;
  seq_no = 0;
  sr = no_rate;
  sub_int_seq_no = a.sub_int_seq;
  sub_int_saved = a.saved;
  seq_err_loss = a.t_loss;
  seq_err_ooo = a.t_ooo;
  seq_err_dup = a.t_dup;
  clock_delta_min = u32_ℤ a.clock_delta_min;
  delay_var_min = a.t_dv_min;
  delay_var_max = a.t_dv_max;
  delay_var_sum = a.t_dv_sum;
  delay_var_cnt = a.t_dv_cnt;
  rtt_minimum = a.rtt_min;
  rtt_var_sample = a.rtt_var_sample;
  delay_min_upd = bool_byte a.delay_min_upd;
  ti_delta_time = u32 ((now - last_status) / microsecond);
  ti_rx_datagrams = a.t_rx_datagrams;
  ti_rx_bytes = a.t_rx_bytes;
  time_sec = u32 (wall / 1000000000);
  time_nsec = wall % 1000000000;
  auth_mode = 0;
  ti_rx_ce_count = a.t_ce;
  saved_ce_count = a.saved_ce;
  modifiers = 0;
  legacy = false;
}

unfoldable pub reset_trial : RxAccounting → RxAccounting
reset_trial a = record a {
  t_rx_datagrams = 0;
  t_rx_bytes = 0;
  t_loss = 0;
  t_ooo = 0;
  t_dup = 0;
  t_dv_min = status_no_delay;
  t_dv_max = 0;
  t_dv_sum = 0;
  t_dv_cnt = 0;
  t_ce = 0;
  delay_min_upd = false;
}
