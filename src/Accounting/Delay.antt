-- ===== src/Accounting/Delay.antt =====
-- The delay samples of internal/udpst/accounting.go, and what algo.go makes of them.
use diagd.Base.{ℕ, ◌+◌, ◌*◌, ◌/◌, ◌<◌, ◌≤◌, ◌≡◌, true, List, [], ◌∷◌, arith, All}
use native.Mathlib.Nat.{div-le_self}
use diagd.Base.Int.{ℤ, ◌-ℤ◌, ◌≤ℤ◌}
use diagd.Clock.{u32_ℤ}
use diagd.Protocol.{status_no_delay}
use diagd.Algo.{RateController, delay}
use diagd.Accounting.{RxAccounting}
use diagd.Accounting.Samples.{note_delta, count_delay, record_delay}
use diagd.Accounting.Intervals.{trial_input}

-- What the delay counters of a trial say of its samples.
pub record IsDelayValid (a : RxAccounting) : Type 0 where
  pub empty : a.t_dv_cnt ≡ 0 → (a.t_dv_min ≡ status_no_delay) × (a.t_dv_max ≡ 0)
  pub ordered : 0 < a.t_dv_cnt → a.t_dv_min ≤ a.t_dv_max
  pub low : a.t_dv_cnt * a.t_dv_min ≤ a.t_dv_sum
  pub high : a.t_dv_sum ≤ a.t_dv_cnt * a.t_dv_max

mean_low : (c m s d m' : ℕ) → c * m ≤ s → m' ≤ m → m' ≤ d → (c + 1) * m' ≤ s + d
mean_low c m s d m' h le ld = grind arith

mean_high : (c m s d m' : ℕ) → s ≤ c * m → m ≤ m' → d ≤ m' → s + d ≤ (c + 1) * m'
mean_high c m s d m' h le ld = grind arith

mean_first : (m d c : ℕ) → c ≡ 0 → m ≤ d → (c + 1) * m ≤ d
mean_first m d c e le = grind arith

count_delay-IsDelayValid :
    (a : RxAccounting) (dv : ℕ)
    → dv < status_no_delay
    → a.t_dv_sum + dv < 4294967296
    → a.t_dv_cnt + 1 < 4294967296
    → IsDelayValid a
    → IsDelayValid (count_delay a dv)
unfolding count_delay
count_delay-IsDelayValid a dv lt sum cnt v = record {
  empty = ground arith;
  ordered = ground arith;
  low = ground (
    arith,
    mean_low a.t_dv_cnt a.t_dv_min a.t_dv_sum dv a.t_dv_min,
    mean_low a.t_dv_cnt a.t_dv_min a.t_dv_sum dv dv,
    mean_first dv dv a.t_dv_cnt,
  );
  high = ground (
    arith,
    mean_high a.t_dv_cnt a.t_dv_max a.t_dv_sum dv a.t_dv_max,
    mean_high a.t_dv_cnt a.t_dv_max a.t_dv_sum dv dv,
  );
}

note_delta_counters :
    (a : RxAccounting) (d : ℤ)
    → ((note_delta a d).t_dv_sum ≡ a.t_dv_sum) × ((note_delta a d).t_dv_cnt ≡ a.t_dv_cnt)
unfolding note_delta
note_delta_counters a d = ground arith

note_delta-IsDelayValid :
    (a : RxAccounting) (d : ℤ) → IsDelayValid a → IsDelayValid (note_delta a d)
unfolding note_delta
note_delta-IsDelayValid a d v = ground arith

-- Samples in a row, the oldest first.
pub record_delays : RxAccounting → List ℤ → RxAccounting
record_delays a [] = a
record_delays a (d ∷ ds) = record_delays (record_delay a d) ds

-- The variation that a sample is counted with.
abbrev pub variation : RxAccounting → ℤ → ℕ
variation a d = u32_ℤ (d -ℤ (note_delta a d).clock_delta_min)

-- A sample keeps the delay counters of the trial in order: the minimum is at most the maximum, and
-- the sum lies between the count times the one and the count times the other, while the sum and the
-- count fit and the variation is below 2^32 - 1.
pub record_delay-IsDelayValid :
    (a : RxAccounting) (d : ℤ)
    → variation a d < status_no_delay
    → a.t_dv_sum + variation a d < 4294967296
    → a.t_dv_cnt + 1 < 4294967296
    → IsDelayValid a
    → IsDelayValid (record_delay a d)
unfolding record_delay
record_delay-IsDelayValid a d lt sum cnt v =
    count_delay-IsDelayValid (note_delta a d) (variation a d) lt
      (omega (arith, (note_delta_counters a d).0)) (omega (arith, (note_delta_counters a d).1))
      (note_delta-IsDelayValid a d v)

-- The running minimum is at most every sample of the stream, once there is one.
step_min :
    (a : RxAccounting) (d : ℤ)
    → let b = record_delay a d in
      (b.clock_delta_min ≤ℤ d)
      × (b.have_clock_delta ≡ true)
      × (a.have_clock_delta ≡ true → b.clock_delta_min ≤ℤ a.clock_delta_min)
unfolding record_delay count_delay note_delta
step_min a d = ground arith

min_falls :
    (a : RxAccounting) (ds : List ℤ)
    → a.have_clock_delta ≡ true
    → (record_delays a ds).clock_delta_min ≤ℤ a.clock_delta_min
unfolding record_delays
min_falls a [] h = omega arith
min_falls a (d ∷ ds) h =
    let (low, have, falls) = step_min a d in
    omega (arith, falls h, min_falls (record_delay a d) ds have)

-- After a stream of samples the estimate of the clock offset is at most each of them, so no
-- variation is negative.
pub clock_delta_lower :
    (a : RxAccounting) (ds : List ℤ) → All (λ d. (record_delays a ds).clock_delta_min ≤ℤ d) ds
unfolding record_delays
clock_delta_lower a [] = tt
clock_delta_lower a (d ∷ ds) =
    let (low, have, falls) = step_min a d in
    (
      omega (arith, low, min_falls (record_delay a d) ds have),
      clock_delta_lower (record_delay a d) ds,
    )

le-div : (c k s : ℕ) → 0 < c → c * k ≤ s → k ≤ s / c
le-div c k s pos h = grind arith

div-le : (c k s : ℕ) → 0 < c → s ≤ c * k → s / c ≤ k
div-le c k s pos h = grind arith

mean_rounds :
    (c lo hi s : ℕ)
    → 0 < c
    → c * lo ≤ s
    → s ≤ c * hi
    → (lo ≤ (s * 10 / c + 5) / 10) × ((s * 10 / c + 5) / 10 ≤ hi)
mean_rounds c lo hi s pos low high =
    let above = le-div c (10 * lo) (s * 10) pos (grind arith) in
    let below = div-le c (10 * hi) (s * 10) pos (grind arith) in (omega arith, omega arith)

-- Where the rate search uses the one-way delay variation, the delay that it sees is between the
-- minimum and the maximum variation of a trial with a sample, whose counters are in order, while
-- ten times the sum fits a uint32.
pub measured_delay_between :
    (rc : RateController) (a : RxAccounting)
    → rc.use_ow_del_var ≡ true
    → IsDelayValid a
    → 0 < a.t_dv_cnt
    → a.t_dv_sum * 10 + 5 < 4294967296
    → (a.t_dv_min ≤ delay rc (trial_input a)) × (delay rc (trial_input a) ≤ a.t_dv_max)
unfolding delay trial_input
measured_delay_between rc a ow v pos fits =
    let (lo, hi) = mean_rounds a.t_dv_cnt a.t_dv_min a.t_dv_max a.t_dv_sum pos v.low v.high in
    ground (arith, lo, hi, div-le_self (a.t_dv_sum * 10) a.t_dv_cnt)
