-- ===== src/Session.antt =====
-- internal/udpst/session.go: the state of one test connection. Durations are nanoseconds. Sockets,
-- peers' addresses and the clock are arguments of the operations that use them.
pub mod Police
pub mod Activation
pub mod Echoes
pub mod Origin
pub mod Bursts
pub mod Stream
pub mod Pacing
pub mod Schedule
pub mod Cadence
pub mod Wakes
pub mod Buffers
pub mod Upstream
pub mod Downstream
pub mod Steering
pub mod Statuses
pub mod Ranges
mod Examples
mod Runs
use diagd.Base.{ℕ, ◌+◌, Bool, true, false, List, Option, if◌then◌else◌}
use diagd.Base.Int.{ℤ, pos, is_nonneg, pos_part, negsuc}
use diagd.Rates.{RateTable}
use diagd.Algo.{RateController}
use diagd.Auth.{SessionKeys}

pub record TestParams : Type 0 where
  pub low_thresh : ℕ
  pub upper_thresh : ℕ
  pub trial_int : ℕ
  pub duration : ℕ
  pub sub_int : ℕ
  pub dscp_ecn : ℕ
  pub sr_index_conf : ℤ
  pub index_is_start : Bool
  pub use_ow_del_var : Bool
  pub high_speed_delta : ℕ
  pub slow_adj_thresh : ℕ
  pub seq_err_thresh : ℕ
  pub ignore_ooo_dup : Bool
  pub rand_payload : Bool
  pub algo : ℕ
  pub ecn_ce_thresh : ℕ
  pub sr_adj_supp : ℕ

-- What the server gives a session, and what its Setup Request fixed.
pub record Session : Type 0 where
  pub table : RateTable
  pub max_test_seconds : ℕ
  pub pver : ℕ
  pub auth_mode : ℕ
  pub keys : Option SessionKeys
  pub bw_mbps : ℕ
  pub bw_upstream : Bool

unfoldable pub initial_index : TestParams → ℕ
initial_index p = if is_nonneg p.sr_index_conf then pos_part p.sr_index_conf else 0

unfoldable pub new_rate_controller : RateTable → TestParams → RateController
unfolding initial_index
new_rate_controller table p = record {
  table = table;
  algo = p.algo;
  index = initial_index p;
  sr_index_conf = p.sr_index_conf;
  index_is_start = p.index_is_start;
  high_speed_delta = p.high_speed_delta;
  slow_adj_thresh = p.slow_adj_thresh;
  seq_err_thresh = p.seq_err_thresh;
  low_thresh = p.low_thresh;
  upper_thresh = p.upper_thresh;
  use_ow_del_var = p.use_ow_del_var;
  ignore_ooo_dup = p.ignore_ooo_dup;
  ecn_ce_thresh = p.ecn_ce_thresh;
  sr_adj_supp = p.sr_adj_supp;
  slow_adj_count = 0;
  retry_count = 0;
  retry_thresh = 0;
  update = false;
}
