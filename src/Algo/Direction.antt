-- ===== src/Algo/Direction.antt =====
-- Which way a trial of internal/udpst/algo.go moves the index.
use diagd.Base.{ℕ, if◌then◌else◌, ◌==◌, ◌∙◌, ◌-◌, ◌≤◌, ◌<◌, ◌≡◌, Bool, true, false, arith, ◌⊎◌, ◌≢◌}
use diagd.Base.Int.{is_nonneg}
use diagd.Algo.{
  RateController, TrialInput, adjust, search_rate, adjust_algo_b, adjust_algo_c, max_idx, good_c,
  bad_c, is_good, is_bad, seq_err, delay, ce_thresh,
}
use diagd.Algo.Bounds.{IsValid}

-- The search decides this trial: nothing suppresses it and no fixed index is configured.
pub record IsSearching (rc : RateController) (i : TrialInput) : Type 0 where
  pub not_suppressed : rc.sr_adj_supp ≤ i.sub_int_seq_no
  pub not_fixed : (is_nonneg rc.sr_index_conf ≡ false) ⊎ (rc.index_is_start ≡ true)
  pub steps_up : 0 < rc.high_speed_delta

-- The measurements of a trial are clean: errors within the limit, delay under the low threshold,
-- no congestion mark beyond the limit.
pub record IsClean (rc : RateController) (i : TrialInput) : Type 0 where
  pub few_errors : seq_err rc i ≤ rc.seq_err_thresh
  pub low_delay : delay rc i < rc.low_thresh
  pub few_marks : ce_thresh rc i ≡ false

-- They are congested: too many errors, delay over the upper threshold, or too many marks.
abbrev pub IsCongested : RateController → TrialInput → Type 0
IsCongested rc i =
    (rc.seq_err_thresh < seq_err rc i) ⊎ ((rc.upper_thresh < delay rc i) ⊎ (ce_thresh rc i ≡ true))

-- They are in between, so that the decision is deferred.
pub record IsDeferred (rc : RateController) (i : TrialInput) : Type 0 where
  pub few_errors : seq_err rc i ≤ rc.seq_err_thresh
  pub at_low : rc.low_thresh ≤ delay rc i
  pub at_upper : delay rc i ≤ rc.upper_thresh
  pub few_marks : ce_thresh rc i ≡ false

pub good_of_IsClean : (rc : RateController) (i : TrialInput) → IsClean rc i → is_good rc i ≡ true
unfolding is_good
good_of_IsClean rc i c = ground arith

pub bad_of_IsCongested :
    (rc : RateController) (i : TrialInput) → IsCongested rc i → is_bad rc i ≡ true
unfolding is_bad
bad_of_IsCongested rc i c = ground arith

good_of_IsCongested :
    (rc : RateController) (i : TrialInput)
    → rc.low_thresh ≤ rc.upper_thresh
    → IsCongested rc i
    → is_good rc i ≡ false
unfolding is_good
good_of_IsCongested rc i le c = ground arith

neither_of_IsDeferred :
    (rc : RateController) (i : TrialInput)
    → IsDeferred rc i
    → (is_good rc i ≡ false) × (is_bad rc i ≡ false)
unfolding is_good is_bad
neither_of_IsDeferred rc i d = ground arith

pub adjust_of_IsSearching :
    (rc : RateController) (i : TrialInput) → IsSearching rc i → adjust rc i ≡ search_rate rc i
unfolding adjust
adjust_of_IsSearching rc i s = ground arith

-- The fields that a trial leaves alone.
pub record SameSettings (rc r : RateController) : Type 0 where
  pub table_eq : r.table ≡ rc.table
  pub algo_eq : r.algo ≡ rc.algo
  pub conf_eq : r.sr_index_conf ≡ rc.sr_index_conf
  pub start_eq : r.index_is_start ≡ rc.index_is_start
  pub delta_eq : r.high_speed_delta ≡ rc.high_speed_delta
  pub slow_eq : r.slow_adj_thresh ≡ rc.slow_adj_thresh
  pub errors_eq : r.seq_err_thresh ≡ rc.seq_err_thresh
  pub low_eq : r.low_thresh ≡ rc.low_thresh
  pub upper_eq : r.upper_thresh ≡ rc.upper_thresh
  pub ow_eq : r.use_ow_del_var ≡ rc.use_ow_del_var
  pub ignore_eq : r.ignore_ooo_dup ≡ rc.ignore_ooo_dup
  pub ce_eq : r.ecn_ce_thresh ≡ rc.ecn_ce_thresh
  pub supp_eq : r.sr_adj_supp ≡ rc.sr_adj_supp

algo_b-SameSettings :
    (rc : RateController) (good bad : Bool) (hst top : ℕ)
    → SameSettings rc (adjust_algo_b rc good bad hst top)
unfolding adjust_algo_b
algo_b-SameSettings rc good bad hst top = ground arith

-- The first assignment of adjustAlgoC.
abbrev retry_set : RateController → RateController
retry_set rc = if rc.retry_thresh == 0 then record rc { retry_thresh = 5 } else rc

retry_set-SameSettings : (rc : RateController) → SameSettings rc (retry_set rc)
retry_set-SameSettings rc = ground arith

good_c-SameSettings : (rc : RateController) (hst top : ℕ) → SameSettings rc (good_c rc hst top)
unfolding good_c
good_c-SameSettings rc hst top = ground arith

bad_c-SameSettings : (rc : RateController) (hst : ℕ) → SameSettings rc (bad_c rc hst)
unfolding bad_c
bad_c-SameSettings rc hst = ground arith

Same_trans : {a b c : RateController} → SameSettings a b → SameSettings b c → SameSettings a c
Same_trans s t = record {
  table_eq = t.table_eq ∙ s.table_eq;
  algo_eq = t.algo_eq ∙ s.algo_eq;
  conf_eq = t.conf_eq ∙ s.conf_eq;
  start_eq = t.start_eq ∙ s.start_eq;
  delta_eq = t.delta_eq ∙ s.delta_eq;
  slow_eq = t.slow_eq ∙ s.slow_eq;
  errors_eq = t.errors_eq ∙ s.errors_eq;
  low_eq = t.low_eq ∙ s.low_eq;
  upper_eq = t.upper_eq ∙ s.upper_eq;
  ow_eq = t.ow_eq ∙ s.ow_eq;
  ignore_eq = t.ignore_eq ∙ s.ignore_eq;
  ce_eq = t.ce_eq ∙ s.ce_eq;
  supp_eq = t.supp_eq ∙ s.supp_eq;
}

algo_c-SameSettings :
    (rc : RateController) (good bad : Bool) (hst top : ℕ)
    → SameSettings rc (adjust_algo_c rc good bad hst top)
unfolding adjust_algo_c
algo_c-SameSettings rc true bad hst top =
    Same_trans (retry_set-SameSettings rc) (good_c-SameSettings (retry_set rc) hst top)
algo_c-SameSettings rc false true hst top =
    Same_trans (retry_set-SameSettings rc) (bad_c-SameSettings (retry_set rc) hst)
algo_c-SameSettings rc false false hst top = retry_set-SameSettings rc

pub search_rate-SameSettings :
    (rc : RateController) (i : TrialInput) → SameSettings rc (search_rate rc i)
unfolding search_rate
search_rate-SameSettings rc i = ground (
  arith,
  algo_b-SameSettings rc (is_good rc i) (is_bad rc i) rc.table.high_speed_thresh (max_idx rc),
  algo_c-SameSettings rc (is_good rc i) (is_bad rc i) rc.table.high_speed_thresh (max_idx rc),
)

algo_b_up :
    (rc : RateController) (bad : Bool)
    → IsValid rc
    → 0 < rc.high_speed_delta
    → let r = adjust_algo_b rc true bad rc.table.high_speed_thresh (max_idx rc) in
      (rc.index ≤ r.index) × ((r.index ≡ max_idx rc) ⊎ (rc.index < r.index))
unfolding adjust_algo_b max_idx
algo_b_up rc bad v d = ground arith

algo_c_up :
    (rc : RateController) (bad : Bool)
    → IsValid rc
    → rc.index ≤ (adjust_algo_c rc true bad rc.table.high_speed_thresh (max_idx rc)).index
unfolding adjust_algo_c max_idx
algo_c_up rc bad v = ground arith

pub algo_b_down :
    (rc : RateController) (hst top : ℕ)
    → 0 < rc.high_speed_delta
    → (adjust_algo_b rc false true hst top).index ≤ rc.index - 1
unfolding adjust_algo_b
algo_b_down rc hst top d = ground arith

pub algo_c_down :
    (rc : RateController) (hst top : ℕ)
    → 0 < rc.high_speed_delta
    → (adjust_algo_c rc false true hst top).index ≤ rc.index - 1
unfolding adjust_algo_c
algo_c_down rc hst top d = ground arith

-- A clean trial never lowers the index of a valid, searching controller, by either algorithm.
pub clean_climbs :
    (rc : RateController) (i : TrialInput)
    → IsValid rc
    → IsSearching rc i
    → IsClean rc i
    → rc.index ≤ (adjust rc i).index
unfolding search_rate
clean_climbs rc i v s c = rw (adjust_of_IsSearching rc i s) (
    ground (
      arith,
      good_of_IsClean rc i c,
      algo_b_up rc (is_bad rc i) v s.steps_up,
      algo_c_up rc (is_bad rc i) v,
    ))

-- With algorithm B a clean trial raises the index, unless it then stands at the top row.
pub clean_climbs_b :
    (rc : RateController) (i : TrialInput)
    → IsValid rc
    → rc.algo ≢ 1
    → IsSearching rc i
    → IsClean rc i
    → ((adjust rc i).index ≡ max_idx rc) ⊎ (rc.index < (adjust rc i).index)
unfolding search_rate
clean_climbs_b rc i v b s c =
    rw (adjust_of_IsSearching rc i s)
      (ground (arith, good_of_IsClean rc i c, algo_b_up rc (is_bad rc i) v s.steps_up))

-- A trial with too many errors, too much delay or too many CE marks lowers the index of a searching
-- controller, whose low threshold is at most its upper one, by one at least, or leaves it at 0.
pub congestion_backs_off :
    (rc : RateController) (i : TrialInput)
    → rc.low_thresh ≤ rc.upper_thresh
    → IsSearching rc i
    → IsCongested rc i
    → (adjust rc i).index ≤ rc.index - 1
unfolding search_rate
congestion_backs_off rc i le s c = rw (adjust_of_IsSearching rc i s) (
    ground (
      arith,
      bad_of_IsCongested rc i c,
      good_of_IsCongested rc i le c,
      algo_b_down rc rc.table.high_speed_thresh (max_idx rc) s.steps_up,
      algo_c_down rc rc.table.high_speed_thresh (max_idx rc) s.steps_up,
    ))

-- By either algorithm, a trial whose errors, marks and delay lie between the thresholds leaves the
-- index of a searching controller and its count of slow adjustments.
pub deferred_holds :
    (rc : RateController) (i : TrialInput)
    → IsSearching rc i
    → IsDeferred rc i
    → ((adjust rc i).index ≡ rc.index) × ((adjust rc i).slow_adj_count ≡ rc.slow_adj_count)
unfolding search_rate adjust_algo_b adjust_algo_c
deferred_holds rc i s d =
    rw (adjust_of_IsSearching rc i s) (ground (arith, neither_of_IsDeferred rc i d))
