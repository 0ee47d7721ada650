-- ===== src/Accounting/Samples.antt =====
-- internal/udpst/accounting.go: what recordLoad takes from one load PDU.
use diagd.Base.{ℕ, ◌+◌, ◌-◌, true, not, ◌&&◌, ◌||◌, ltb, ◌==◌, if◌then◌else◌, u32, u64}
use diagd.Base.Int.{ℤ, pos, ◌-ℤ◌, ltb_ℤ}
use diagd.Clock.{wall_diff_ms, u32_ℤ}
use diagd.Protocol.{LoadPdu, status_no_delay}
use diagd.Accounting.{RxAccounting, record_seq}

-- The one-way delay variation `dv` of a sample goes into both sets of counters.
unfoldable pub count_delay : RxAccounting → ℕ → RxAccounting
count_delay a dv = record a {
  t_dv_min = if a.t_dv_min == status_no_delay || ltb dv a.t_dv_min then dv else a.t_dv_min;
  t_dv_max = if ltb a.t_dv_max dv then dv else a.t_dv_max;
  t_dv_sum = u32 (a.t_dv_sum + dv);
  t_dv_cnt = u32 (a.t_dv_cnt + 1);
  sub = record (a.sub) {
    delay_var_min =
        if a.sub.delay_var_min == status_no_delay || ltb dv a.sub.delay_var_min
        then dv
        else a.sub.delay_var_min;
    delay_var_max = if ltb a.sub.delay_var_max dv then dv else a.sub.delay_var_max;
    delay_var_sum = u32 (a.sub.delay_var_sum + dv);
    delay_var_cnt = u32 (a.sub.delay_var_cnt + 1);
  };
}

-- The running minimum of receive time minus send time.
unfoldable pub note_delta : RxAccounting → ℤ → RxAccounting
note_delta a delta =
    if not a.have_clock_delta || ltb_ℤ delta a.clock_delta_min
    then record a { clock_delta_min = delta; have_clock_delta = true; delay_min_upd = true }
    else a

unfoldable pub record_delay : RxAccounting → ℤ → RxAccounting
record_delay a delta =
    let b = note_delta a delta in count_delay b (u32_ℤ (delta -ℤ b.clock_delta_min))

-- The sampled RTT, of a new echo of a status message.
unfoldable pub record_rtt : RxAccounting → ℕ → LoadPdu → RxAccounting
record_rtt a rx_time hdr =
    let rtt = wall_diff_ms rx_time hdr.spdu_time_sec hdr.spdu_time_nsec -ℤ pos hdr.rtt_resp_delay in
    let r : ℕ = if ltb_ℤ rtt (pos 0) then 0 else u32_ℤ rtt in
    let rtt_min : ℕ = if a.rtt_min == status_no_delay || ltb r a.rtt_min then r else a.rtt_min in
    let sample : ℕ = u32 (r + 0x100000000 - rtt_min) in
    if (not (hdr.spdu_time_sec == 0) || not (hdr.spdu_time_nsec == 0))
      && (not (hdr.spdu_time_sec == a.last_echo_sec)
          || not (hdr.spdu_time_nsec == a.last_echo_nsec))
    then record a {
      last_echo_sec = hdr.spdu_time_sec;
      last_echo_nsec = hdr.spdu_time_nsec;
      rtt_min = rtt_min;
      rtt_var_sample = sample;
      sub = record (a.sub) {
        rtt_var_min =
            if a.sub.rtt_var_min == status_no_delay || ltb sample a.sub.rtt_var_min
            then sample
            else a.sub.rtt_var_min;
        rtt_var_max = if ltb a.sub.rtt_var_max sample then sample else a.sub.rtt_var_max;
      };
    }
    else a

unfoldable pub count_rx : RxAccounting → ℕ → RxAccounting
count_rx a payload = record a {
  t_rx_datagrams = u32 (a.t_rx_datagrams + 1);
  t_rx_bytes = u32 (a.t_rx_bytes + payload);
  sub = record (a.sub) {
    rx_datagrams = u32 (a.sub.rx_datagrams + 1);
    rx_bytes = u64 (a.sub.rx_bytes + payload);
  };
}

unfoldable pub record_load : RxAccounting → ℕ → LoadPdu → RxAccounting
record_load a rx_time hdr =
    let (b, advances) = record_seq (count_rx a hdr.udp_payload) hdr.seq_no in
    let delta = wall_diff_ms rx_time hdr.time_sec hdr.time_nsec in
    if advances then record_rtt (record_delay b delta) rx_time hdr else b
