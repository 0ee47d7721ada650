-- ===== src/Algo/Bounds.antt =====
-- The index of internal/udpst/algo.go stays inside the rate table.
use diagd.Base.{◌≤◌, ◌<◌, Bool, arith, length}
use diagd.Base.Int.{pos_part}
use diagd.Algo.{
  RateController, TrialInput, adjust, adjust_algo_b, adjust_algo_c, max_idx, is_good, is_bad,
}

-- What holds of a controller between two trials. The search needs a threshold of 2 at least, since
-- algorithm C may double 1; the table of the program has 1000.
pub record IsValid (rc : RateController) : Type 0 where
  pub in_table : rc.index < length rc.table.rows
  pub conf_in_table : pos_part rc.sr_index_conf < length rc.table.rows
  pub hst_in_table : rc.table.high_speed_thresh < length rc.table.rows
  pub hst_room : 2 ≤ rc.table.high_speed_thresh

algo_b_bounded :
    (rc : RateController) (good bad : Bool)
    → IsValid rc
    → IsValid (adjust_algo_b rc good bad rc.table.high_speed_thresh (max_idx rc))
unfolding adjust_algo_b max_idx
algo_b_bounded rc good bad v = ground arith

algo_c_bounded :
    (rc : RateController) (good bad : Bool)
    → IsValid rc
    → IsValid (adjust_algo_c rc good bad rc.table.high_speed_thresh (max_idx rc))
unfolding adjust_algo_c max_idx
algo_c_bounded rc good bad v = ground arith

-- Adjust keeps a controller valid, by either algorithm and on every branch, so that the index
-- always names a row.
pub adjust-IsValid : (rc : RateController) (i : TrialInput) → IsValid rc → IsValid (adjust rc i)
unfolding adjust
adjust-IsValid rc i v = ground (
  arith,
  algo_b_bounded rc (is_good rc i) (is_bad rc i) v,
  algo_c_bounded rc (is_good rc i) (is_bad rc i) v,
)
