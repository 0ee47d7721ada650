-- ===== src/Algo.antt =====
-- internal/udpst/algo.go: the sending rate search. A Go `int` that the code keeps at or above 0 is a
-- number, `srIndexConf` with its -1 is a signed integer, and uint32 arithmetic wraps by `u32`.
pub mod Bounds
pub mod Direction
pub mod Progress
pub mod Examples
use diagd.Base.{
  ℕ, ◌+◌, ◌-◌, ◌*◌, ◌/◌, ◌<◌, ◌≤◌, Bool, true, false, ◌&&◌, ◌||◌, not, ltb, leb, ◌==◌,
  if◌then◌else◌, u32, length, List,
}
use diagd.Base.Int.{ℤ, is_nonneg, pos_part}
use diagd.Rates.{RateTable}
use diagd.Protocol.{status_no_delay}

pub record RateController : Type 0 where
  pub table : RateTable
  pub algo : ℕ
  pub index : ℕ
  pub sr_index_conf : ℤ
  pub index_is_start : Bool
  pub high_speed_delta : ℕ
  pub slow_adj_thresh : ℕ
  pub seq_err_thresh : ℕ
  pub low_thresh : ℕ
  pub upper_thresh : ℕ
  pub use_ow_del_var : Bool
  pub ignore_ooo_dup : Bool
  pub ecn_ce_thresh : ℕ
  pub sr_adj_supp : ℕ
  pub slow_adj_count : ℕ
  pub retry_count : ℕ
  pub retry_thresh : ℕ
  pub update : Bool

pub record TrialInput : Type 0 where
  pub seq_err_loss : ℕ
  pub seq_err_ooo : ℕ
  pub seq_err_dup : ℕ
  pub delay_var_sum : ℕ
  pub delay_var_cnt : ℕ
  pub rtt_var_sample : ℕ
  pub rx_datagrams : ℕ
  pub ce_count : ℕ
  pub sub_int_seq_no : ℕ

-- `seqerr`, `delay` and `cethresh` as the head of `adjust` computes them.
unfoldable pub seq_err : RateController → TrialInput → ℕ
seq_err rc i =
    if not rc.ignore_ooo_dup
    then i.seq_err_loss + u32 (i.seq_err_ooo + i.seq_err_dup)
    else i.seq_err_loss

unfoldable pub delay : RateController → TrialInput → ℕ
delay rc i =
    if rc.use_ow_del_var
    then (if ltb 0 i.delay_var_cnt
        then u32 (u32 (i.delay_var_sum * 10) / i.delay_var_cnt + 5) / 10
        else rc.low_thresh)
    else (if i.rtt_var_sample == status_no_delay then rc.low_thresh else i.rtt_var_sample)

unfoldable pub ce_thresh : RateController → TrialInput → Bool
ce_thresh rc i =
    if ltb 0 rc.ecn_ce_thresh && ltb 0 i.ce_count
    then ltb (u32 (u32 (u32 (u32 (rc.ecn_ce_thresh - 1) * i.rx_datagrams) * 10) / 255 + 5) / 10)
        i.ce_count
    else false

unfoldable pub is_good : RateController → TrialInput → Bool
is_good rc i =
    leb (seq_err rc i) rc.seq_err_thresh && (ltb (delay rc i) rc.low_thresh && not (ce_thresh rc i))

unfoldable pub is_bad : RateController → TrialInput → Bool
is_bad rc i =
    ltb rc.seq_err_thresh (seq_err rc i) || (ltb rc.upper_thresh (delay rc i) || ce_thresh rc i)

-- `len(rc.table.Rows) - 1`; the table is never empty.
unfoldable pub max_idx : RateController → ℕ
max_idx rc = length rc.table.rows - 1

good_b : RateController → ℕ → ℕ → RateController
good_b rc hst max_index =
    if ltb rc.index hst && ltb rc.slow_adj_count rc.slow_adj_thresh
    then record rc {
      index =
          if ltb hst (rc.index + rc.high_speed_delta) then hst else rc.index + rc.high_speed_delta;
      slow_adj_count = 0;
    }
    else (if ltb rc.index max_index then record rc { index = rc.index + 1 } else rc)

-- `slow_adj_count` is already counted up when the tests are made.
bad_b : RateController → ℕ → RateController
bad_b rc hst =
    let c = rc.slow_adj_count + 1 in
    if ltb rc.index hst && c == rc.slow_adj_thresh
    then record rc {
      index =
          if ltb (rc.high_speed_delta * 3) rc.index then rc.index - rc.high_speed_delta * 3 else 0;
      slow_adj_count = c;
    }
    else (if ltb 0 rc.index
        then record rc { index = rc.index - 1; slow_adj_count = c }
        else record rc { slow_adj_count = c })

unfoldable pub adjust_algo_b : RateController → Bool → Bool → ℕ → ℕ → RateController
unfolding good_b bad_b
adjust_algo_b rc good bad hst max_index =
    if good then good_b rc hst max_index else (if bad then bad_b rc hst else rc)

-- The doubling on alternate trials, for an index that `good_c` has raised from 0 to 1.
ramp_c : RateController → RateController
ramp_c rc =
    let i : ℕ = if rc.index == 0 then rc.index + 1 else rc.index in
    if rc.update
    then record rc { index = i * 2; update = false }
    else record rc { index = i; update = true }

retry_c : RateController → RateController
retry_c rc =
    if leb rc.retry_thresh rc.retry_count
    then record rc { slow_adj_count = 0; retry_count = 0; retry_thresh = rc.retry_thresh + 5 }
    else rc

unfoldable pub good_c : RateController → ℕ → ℕ → RateController
unfolding ramp_c retry_c
good_c rc hst max_index =
    if ltb rc.index hst && ltb rc.slow_adj_count rc.slow_adj_thresh
    then (if ltb hst (rc.index * 2)
        then record rc { index = hst; slow_adj_count = 0 }
        else record (ramp_c rc) { slow_adj_count = 0 })
    else retry_c (
        if ltb rc.index max_index
        then record rc { index = rc.index + 1; retry_count = rc.retry_count + 1 }
        else rc)

slow_c : RateController → RateController
slow_c rc =
    let r = rc.retry_count + 1 in
    if leb rc.retry_thresh r
    then record rc { index = rc.index - 1; slow_adj_count = 0; retry_count = 0 }
    else record rc { index = rc.index - 1; retry_count = r }

unfoldable pub bad_c : RateController → ℕ → RateController
unfolding slow_c
bad_c rc hst =
    let c = rc.slow_adj_count + 1 in
    if ltb rc.index hst && c == rc.slow_adj_thresh
    then record rc {
      index =
          if ltb (rc.high_speed_delta * 3) rc.index then rc.index - rc.high_speed_delta * 3 else 0;
      slow_adj_count = c;
    }
    else (if ltb 0 rc.index
        then slow_c (record rc { slow_adj_count = c })
        else record rc { slow_adj_count = c })

unfoldable pub adjust_algo_c : RateController → Bool → Bool → ℕ → ℕ → RateController
unfolding good_c bad_c
adjust_algo_c rc good bad hst max_index =
    let rc' : RateController =
      if rc.retry_thresh == 0 then record rc { retry_thresh = 5 } else rc in
    if good then good_c rc' hst max_index else (if bad then bad_c rc' hst else rc')

-- The part of `adjust` behind its early returns.
unfoldable pub search_rate : RateController → TrialInput → RateController
search_rate rc i =
    let hst = rc.table.high_speed_thresh in
    if rc.algo == 1
    then adjust_algo_c rc (is_good rc i) (is_bad rc i) hst (max_idx rc)
    else adjust_algo_b rc (is_good rc i) (is_bad rc i) hst (max_idx rc)

unfoldable pub adjust : RateController → TrialInput → RateController
unfolding search_rate
adjust rc i =
    let fixed = is_nonneg rc.sr_index_conf && not rc.index_is_start in
    if ltb 0 rc.sr_adj_supp && ltb i.sub_int_seq_no rc.sr_adj_supp
    then (if fixed then record rc { index = 0 } else rc)
    else (if fixed then record rc { index = pos_part rc.sr_index_conf } else search_rate rc i)
