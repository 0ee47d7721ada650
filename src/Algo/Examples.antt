-- ===== src/Algo/Examples.antt =====
-- Tests and instances for internal/udpst/algo.go.
use diagd.Base.{
  ◌+◌, ◌-◌, ◌*◌, ◌≤◌, ◌≡◌, refl, false, arith, List, [], ◌∷◌, inl, inr, replicate, min,
}
use diagd.Base.Int.{negsuc}
use diagd.Rates.{RateTable, no_rate}
use diagd.Algo.{
  max_idx, is_good, is_bad, adjust_algo_b, RateController, TrialInput, adjust, max_idx, seq_err,
  delay, ce_thresh,
}
use diagd.Algo.Bounds.{IsValid}
use diagd.Algo.Direction.{IsDeferred, IsSearching, IsClean, IsCongested, congestion_backs_off}
use diagd.Algo.Progress.{run_trials, AllClean, ramp_b}

-- A table of sixteen rows with the threshold at row 10, and a controller at row 4.
abbrev pub small_table : RateTable
small_table = record { rows = replicate 16 no_rate; high_speed_thresh = 10 }

abbrev pub searching : RateController
searching = record {
  table = small_table;
  algo = 0;
  index = 4;
  sr_index_conf = negsuc 0;
  index_is_start = false;
  high_speed_delta = 5;
  slow_adj_thresh = 3;
  seq_err_thresh = 10;
  low_thresh = 30;
  upper_thresh = 90;
  use_ow_del_var = false;
  ignore_ooo_dup = false;
  ecn_ce_thresh = 1;
  sr_adj_supp = 0;
  slow_adj_count = 0;
  retry_count = 0;
  retry_thresh = 0;
  update = false;
}

abbrev clean : TrialInput
clean = record {
  seq_err_loss = 1;
  seq_err_ooo = 0;
  seq_err_dup = 0;
  delay_var_sum = 0;
  delay_var_cnt = 0;
  rtt_var_sample = 12;
  rx_datagrams = 100;
  ce_count = 0;
  sub_int_seq_no = 0;
}

abbrev lossy : TrialInput
lossy = record clean { seq_err_loss = 11 }

abbrev marked : TrialInput
marked = record clean { ce_count = 40 }

searching-IsValid : IsValid searching
searching-IsValid = omega arith

searching-IsSearching : IsSearching searching clean
searching-IsSearching = record {
  not_suppressed = omega arith;
  not_fixed = inl refl;
  steps_up = omega arith;
}

clean-IsClean : IsClean searching clean
unfolding seq_err delay ce_thresh
clean-IsClean = record { few_errors = omega arith; low_delay = omega arith; few_marks = refl }

marked-IsCongested : IsCongested searching marked
unfolding ce_thresh
marked-IsCongested = inr (inr refl)

abbrev slow : TrialInput
slow = record clean { rtt_var_sample = 60 }

slow-IsDeferred : IsDeferred searching slow
unfolding seq_err delay ce_thresh
slow-IsDeferred = record {
  few_errors = omega arith;
  at_low = omega arith;
  at_upper = omega arith;
  few_marks = refl;
}

congestion_backs_off_example : (adjust searching marked).index ≤ 4 - 1
congestion_backs_off_example =
    congestion_backs_off searching marked (omega arith)
      (record { not_suppressed = omega arith; not_fixed = inl refl; steps_up = omega arith })
      marked-IsCongested

abbrev two_clean : List TrialInput
two_clean = clean ∷ clean ∷ []

two_clean-AllClean : AllClean searching two_clean
two_clean-AllClean =
    ((searching-IsSearching, clean-IsClean), ((searching-IsSearching, clean-IsClean), tt))

ramp_b_example : min 10 (4 + 2 * 5) ≤ (run_trials searching two_clean).index
ramp_b_example =
    ramp_b searching two_clean searching-IsValid (λ e. omega arith) (omega arith) two_clean-AllClean

trial_moves :
    ((adjust searching clean).index ≡ 9)
    × (((adjust searching lossy).index ≡ 3) × ((adjust searching marked).slow_adj_count ≡ 1))
unfolding adjust max_idx seq_err delay ce_thresh is_good is_bad adjust_algo_b
trial_moves = (refl, (refl, refl))
