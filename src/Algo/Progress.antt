-- ===== src/Algo/Progress.antt =====
-- What many trials of internal/udpst/algo.go come to: the ramp, the climb and the way back.
use diagd.Base.{◌+◌, ◌-◌, ◌*◌, ◌≤◌, ◌<◌, ◌≡◌, ◌≢◌, arith, length, List, [], ◌∷◌, min, All}
use diagd.Algo.{
  RateController, TrialInput, adjust, search_rate, adjust_algo_b, max_idx, seq_err, delay,
  ce_thresh,
}
use native.Mathlib.Nat.{suc-mul, zero-mul}
use diagd.Algo.Bounds.{IsValid, adjust-IsValid}
use diagd.Algo.Direction.{
  IsSearching, IsClean, IsCongested, SameSettings, adjust_of_IsSearching, search_rate-SameSettings,
  good_of_IsClean, clean_climbs_b, congestion_backs_off,
}

-- The controller after a sequence of trials, as the loops of session.go call it.
pub run_trials : RateController → List TrialInput → RateController
run_trials rc [] = rc
run_trials rc (i ∷ is) = run_trials (adjust rc i) is

-- The trials that a run is about, judged by the controller's unchanging settings.
abbrev pub AllClean : RateController → List TrialInput → Type 0
AllClean rc = All (λ i. IsSearching rc i × IsClean rc i)

abbrev pub AllCongested : RateController → List TrialInput → Type 0
AllCongested rc = All (λ i. IsSearching rc i × IsCongested rc i)

module _ (rc r : RateController) (same : SameSettings rc r) where
  IsSearching-same : (i : TrialInput) → IsSearching rc i → IsSearching r i
  IsSearching-same i s = ground arith

  IsClean-same : (i : TrialInput) → IsClean rc i → IsClean r i
  unfolding seq_err delay ce_thresh
  IsClean-same i c = ground arith

  IsCongested-same : (i : TrialInput) → IsCongested rc i → IsCongested r i
  unfolding seq_err delay ce_thresh
  IsCongested-same i c = ground arith

  AllClean-same : (is : List TrialInput) → AllClean rc is → AllClean r is
  AllClean-same [] h = tt
  AllClean-same (i ∷ is) h =
      ((IsSearching-same i h.0.0, IsClean-same i h.0.1), AllClean-same is h.1)

  AllCongested-same : (is : List TrialInput) → AllCongested rc is → AllCongested r is
  AllCongested-same [] h = tt
  AllCongested-same (i ∷ is) h =
      ((IsSearching-same i h.0.0, IsCongested-same i h.0.1), AllCongested-same is h.1)

adjust-SameSettings :
    (rc : RateController) (i : TrialInput) → IsSearching rc i → SameSettings rc (adjust rc i)
adjust-SameSettings rc i s = rw (adjust_of_IsSearching rc i s) (search_rate-SameSettings rc i)

max_idx-same : (rc r : RateController) → SameSettings rc r → max_idx r ≡ max_idx rc
unfolding max_idx
max_idx-same rc r same = ground arith

ramp_step :
    (rc : RateController) (i : TrialInput)
    → IsValid rc
    → rc.algo ≢ 1
    → rc.slow_adj_count < rc.slow_adj_thresh
    → IsSearching rc i
    → IsClean rc i
    → (min rc.table.high_speed_thresh (rc.index + rc.high_speed_delta) ≤ (adjust rc i).index)
      × ((adjust rc i).slow_adj_count < rc.slow_adj_thresh)
unfolding search_rate adjust_algo_b max_idx
ramp_step rc i v b slow s c =
    rw (adjust_of_IsSearching rc i s) (ground (arith, good_of_IsClean rc i c))

-- With an algorithm other than C, n trials that are each clean when they come raise the index of a
-- valid controller that has not slowed down by at least n times the high-speed step, or to the
-- high-speed threshold.
pub ramp_b :
    (rc : RateController) (is : List TrialInput)
    → IsValid rc
    → rc.algo ≢ 1
    → rc.slow_adj_count < rc.slow_adj_thresh
    → AllClean rc is
    → min rc.table.high_speed_thresh (rc.index + length is * rc.high_speed_delta)
      ≤ (run_trials rc is).index
unfolding run_trials adjust
ramp_b rc [] v b slow h = omega (arith, zero-mul rc.high_speed_delta)
ramp_b rc (i ∷ is) v b slow h =
    let step = ramp_step rc i v b slow h.0.0 h.0.1 in
    let same = adjust-SameSettings rc i h.0.0 in
    let rest =
      ramp_b (adjust rc i) is (adjust-IsValid rc i v) (rw (same.algo_eq) b)
        (rw (same.slow_eq) (step.1)) (AllClean-same rc (adjust rc i) same is h.1) in
    let rest' = rw (same.table_eq, same.delta_eq) at rest in
    omega (arith, step.0, rest', suc-mul (length is) rc.high_speed_delta)

-- With an algorithm other than C, n trials that are each clean when they come raise the index of a
-- valid controller by at least n, or to the last row.
pub climb_b :
    (rc : RateController) (is : List TrialInput)
    → IsValid rc
    → rc.algo ≢ 1
    → AllClean rc is
    → min (max_idx rc) (rc.index + length is) ≤ (run_trials rc is).index
unfolding run_trials
climb_b rc [] v b h = omega arith
climb_b rc (i ∷ is) v b h =
    let same = adjust-SameSettings rc i h.0.0 in
    let rest =
      climb_b (adjust rc i) is (adjust-IsValid rc i v) (rw (same.algo_eq) b)
        (AllClean-same rc (adjust rc i) same is h.1) in
    let rest' = rw (max_idx-same rc (adjust rc i) same) at rest in
    omega (arith, rest', clean_climbs_b rc i v b h.0.0 h.0.1)

-- N trials that are each congested when they come lower the index by at least n, or to 0, by either
-- algorithm, where the low threshold is at most the upper one.
pub back_off :
    (rc : RateController) (is : List TrialInput)
    → rc.low_thresh ≤ rc.upper_thresh
    → AllCongested rc is
    → (run_trials rc is).index ≤ rc.index - length is
unfolding run_trials
back_off rc [] le h = omega arith
back_off rc (i ∷ is) le h =
    let same = adjust-SameSettings rc i h.0.0 in
    omega (
      arith,
      congestion_backs_off rc i le h.0.0 h.0.1,
      back_off (adjust rc i) is (rw (same.low_eq, same.upper_eq) le)
          (AllCongested-same rc (adjust rc i) same is h.1),
    )
