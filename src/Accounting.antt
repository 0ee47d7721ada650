-- ===== src/Accounting.antt =====
-- internal/udpst/accounting.go: what the receiver of a load stream counts. uint32 and uint64
-- counters wrap by `u32` and `u64`; the int64 `clockDeltaMin` is a signed integer.
pub mod Samples
pub mod Intervals
pub mod Ring
pub mod Sequence
pub mod Repeats
pub mod Delay
pub mod Trials
mod Examples
use diagd.Base.{
  ℕ, zero, suc, ◌+◌, ◌-◌, ◌*◌, ◌/◌, ◌%◌, ◌<◌, ◌≤◌, Bool, true, false, not, ◌&&◌, ◌||◌, List, [],
  ◌∷◌, ltb, leb, ◌==◌, if◌then◌else◌, u32, u64, set, replicate,
}
use diagd.Base.Int.{ℤ, pos, negsuc, ◌-ℤ◌, ltb_ℤ}
use diagd.Clock.{wall_diff_ms, u32_ℤ, millisecond, microsecond}
use diagd.Protocol.{LoadPdu, SubIntStats, StatusPdu, status_no_delay}
use diagd.Rates.{no_rate}
use diagd.Algo.{TrialInput}

abbrev pub load_history_size : ℕ
load_history_size = 32

pub record RxAccounting : Type 0 where
  pub seq : ℕ
  pub history : List ℕ
  pub hist_idx : ℕ
  pub clock_delta_min : ℤ
  pub have_clock_delta : Bool
  pub rtt_min : ℕ
  pub rtt_var_sample : ℕ
  pub last_echo_sec : ℕ
  pub last_echo_nsec : ℕ
  pub delay_min_upd : Bool
  pub t_rx_datagrams : ℕ
  pub t_rx_bytes : ℕ
  pub t_loss : ℕ
  pub t_ooo : ℕ
  pub t_dup : ℕ
  pub t_dv_min : ℕ
  pub t_dv_max : ℕ
  pub t_dv_sum : ℕ
  pub t_dv_cnt : ℕ
  pub t_ce : ℕ
  pub sub : SubIntStats
  pub sub_ce : ℕ
  pub sub_start : ℕ
  pub accum_ms : ℕ
  pub saved : SubIntStats
  pub saved_ce : ℕ
  pub sub_int_seq : ℕ
  pub rolled : Bool

-- SubIntStats{}, and the fresh statistics of a sub-interval.
abbrev pub no_stats : SubIntStats
no_stats = record {
  rx_datagrams = 0;
  rx_bytes = 0;
  delta_time = 0;
  seq_err_loss = 0;
  seq_err_ooo = 0;
  seq_err_dup = 0;
  delay_var_min = 0;
  delay_var_max = 0;
  delay_var_sum = 0;
  delay_var_cnt = 0;
  rtt_var_min = 0;
  rtt_var_max = 0;
  accum_time = 0;
}

abbrev pub fresh_stats : SubIntStats
fresh_stats = record no_stats { delay_var_min = status_no_delay; rtt_var_min = status_no_delay }

unfoldable pub new_rx_accounting : ℕ → RxAccounting
new_rx_accounting now = record {
  seq = 0;
  history = replicate 32 0;
  hist_idx = 0;
  clock_delta_min = pos 0;
  have_clock_delta = false;
  rtt_min = status_no_delay;
  rtt_var_sample = status_no_delay;
  last_echo_sec = 0;
  last_echo_nsec = 0;
  delay_min_upd = false;
  t_rx_datagrams = 0;
  t_rx_bytes = 0;
  t_loss = 0;
  t_ooo = 0;
  t_dup = 0;
  t_dv_min = status_no_delay;
  t_dv_max = 0;
  t_dv_sum = 0;
  t_dv_cnt = 0;
  t_ce = 0;
  sub = fresh_stats;
  sub_ce = 0;
  sub_start = now;
  accum_ms = 0;
  saved = no_stats;
  saved_ce = 0;
  sub_int_seq = 0;
  rolled = false;
}

unfoldable pub push_history : RxAccounting → ℕ → RxAccounting
push_history a seq = record a {
  history = set a.history a.hist_idx seq;
  hist_idx = (a.hist_idx + 1) % load_history_size;
}

-- The loop of inHistory over the ring.
pub mem_history : ℕ → List ℕ → Bool
mem_history seq [] = false
mem_history seq (s ∷ h) = s == seq || mem_history seq h

unfoldable pub in_history : RxAccounting → ℕ → Bool
in_history a seq = mem_history seq a.history

-- recordSeq in its three outcomes. `a.seq + 1` and `seq - a.seq - 1` are uint32.
unfoldable pub count_gap : RxAccounting → ℕ → RxAccounting
count_gap a seq =
    let gap = u32 (seq + 0x200000000 - a.seq - 1) in
    record a {
      t_loss = u32 (a.t_loss + gap);
      sub = record (a.sub) { seq_err_loss = u32 (a.sub.seq_err_loss + gap) };
      seq = seq;
    }

unfoldable pub record_advance : RxAccounting → ℕ → RxAccounting
unfolding count_gap
record_advance a seq = push_history (count_gap a seq) seq

unfoldable pub record_dup : RxAccounting → RxAccounting
record_dup a = record a {
  t_dup = u32 (a.t_dup + 1);
  sub = record (a.sub) { seq_err_dup = u32 (a.sub.seq_err_dup + 1) };
}

unfoldable pub count_late : RxAccounting → RxAccounting
count_late a = record a {
  t_ooo = u32 (a.t_ooo + 1);
  t_loss = if ltb 0 a.t_loss then a.t_loss - 1 else a.t_loss;
  sub = record (a.sub) {
    seq_err_ooo = u32 (a.sub.seq_err_ooo + 1);
    seq_err_loss = if ltb 0 a.sub.seq_err_loss then a.sub.seq_err_loss - 1 else a.sub.seq_err_loss;
  };
}

unfoldable pub record_late : RxAccounting → ℕ → RxAccounting
unfolding count_late
record_late a seq = push_history (count_late a) seq

unfoldable pub record_seq : RxAccounting → ℕ → RxAccounting × Bool
record_seq a seq =
    if leb (u32 (a.seq + 1)) seq
    then (record_advance a seq, true)
    else (if in_history a seq then (record_dup a, false) else (record_late a seq, false))
