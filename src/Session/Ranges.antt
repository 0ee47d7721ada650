-- ===== src/Session/Ranges.antt =====
-- What `police` of internal/udpst/session.go lets through.
use diagd.Base.{ℕ, ◌*◌, ◌/◌, ◌<◌, ◌≤◌, ◌≡◌, Bool, ◌||◌, length, ltb, ◌==◌, if◌then◌else◌, arith}
use native.Mathlib.Nat.{le-div_iff_mul-le}
use diagd.Base.Int.{pos_part}
use diagd.Clock.{millisecond, second}
use diagd.Rates.{RateTable, build_rate_table}
use diagd.Rates.Order.{table_size}
use diagd.Protocol.{TestActPdu}
use diagd.Algo.Bounds.{IsValid}
use diagd.Session.{TestParams, Session, new_rate_controller}
use diagd.Session.Police.{
  police, police_low, police_upper, police_trial_ms, police_dur, police_sub_ms, police_index,
  police_supp,
}

-- The longest test that the server runs, in seconds.
abbrev pub max_dur : Session → ℕ
max_dur s =
    if s.max_test_seconds == 0 || ltb 3600 s.max_test_seconds then 3600 else s.max_test_seconds

-- Parameters that a test may run with.
pub record InRange (s : Session) (p : TestParams) : Type 0 where
  pub low_pos : 1 ≤ p.low_thresh
  pub thresholds : p.low_thresh ≤ p.upper_thresh
  pub upper_max : p.upper_thresh ≤ 10000
  pub trial_min : 5 * millisecond ≤ p.trial_int
  pub trial_max : p.trial_int ≤ 250 * millisecond
  pub duration_pos : 1 * second ≤ p.duration
  pub duration_max : p.duration ≤ max_dur s * second
  pub sub_int_min : 100 * millisecond ≤ p.sub_int
  pub sub_int_max : p.sub_int ≤ 10000 * millisecond
  pub sub_int_le : p.sub_int ≤ p.duration
  pub index_in_table : pos_part p.sr_index_conf < length s.table.rows
  pub delta_pos : 1 ≤ p.high_speed_delta
  pub slow_pos : 1 ≤ p.slow_adj_thresh
  pub algo_known : p.algo ≤ 1
  pub supp_inside : p.sr_adj_supp * p.sub_int ≤ p.duration

pub dur_bounds : (m : ℕ) (req : TestActPdu) → (1 ≤ police_dur m req) × (police_dur m req ≤ 3600)
unfolding police_dur
dur_bounds m req = ground arith

dur_max : (s : Session) (req : TestActPdu) → police_dur s.max_test_seconds req ≤ max_dur s
unfolding police_dur
dur_max s req = ground arith

pub sub_bounds :
    (v dur : ℕ) (req : TestActPdu)
    → 1 ≤ dur
    → (100 ≤ police_sub_ms v dur req)
      × (police_sub_ms v dur req ≤ 10000)
      × (police_sub_ms v dur req ≤ dur * 1000)
unfolding police_sub_ms
sub_bounds v dur req h = ground arith

count_fits : (c n k : ℕ) → 0 < k → c < n / k → c * k ≤ n
count_fits c n k below h = (le-div_iff_mul-le below).0 (omega arith)

supp_bound :
    (v dur sub_ms : ℕ) (req : TestActPdu)
    → 0 < sub_ms
    → police_supp v dur sub_ms req * sub_ms ≤ dur * 1000
unfolding police_supp
supp_bound v dur sub_ms req h =
    ground (arith, count_fits req.sr_adj_supp_count (dur * 1000) sub_ms h)

index_bound :
    (t : RateTable) (req : TestActPdu)
    → 0 < length t.rows
    → pos_part (police_index t req) < length t.rows
unfolding police_index
index_bound t req h = ground arith

-- Whatever a client asks for, the test runs with parameters in their ranges; the sub-interval and
-- the suppressed sub-intervals fit into the test, and a configured index names a row of the table,
-- which has rows.
pub police-InRange :
    (set_class : ℕ → Bool) (s : Session) (req : TestActPdu)
    → 0 < length s.table.rows
    → InRange s (police set_class s req)
unfolding police
police-InRange set_class s req h = record {
  low_pos = unfold police_low in ground arith;
  thresholds = unfold police_low police_upper in ground arith;
  upper_max = unfold police_upper in ground arith;
  trial_min = unfold police_trial_ms in ground arith;
  trial_max = unfold police_trial_ms in ground arith;
  duration_pos = omega (arith, dur.0);
  duration_max = omega (arith, dur_max s req);
  sub_int_min = omega (arith, sub.0);
  sub_int_max = omega (arith, sub.1);
  sub_int_le = omega (arith, sub.2);
  index_in_table = index_bound s.table req h;
  delta_pos = ground arith;
  slow_pos = ground arith;
  algo_known = ground arith;
  supp_inside = omega (
    arith,
    supp_bound s.pver (police_dur s.max_test_seconds req)
        (police_sub_ms s.pver (police_dur s.max_test_seconds req) req) req (omega (arith, sub.0)),
  );
}
  where
    dur : (1 ≤ police_dur s.max_test_seconds req) × (police_dur s.max_test_seconds req ≤ 3600)
    dur = dur_bounds s.max_test_seconds req

    sub :
        let sub_ms = police_sub_ms s.pver (police_dur s.max_test_seconds req) req in
        (100 ≤ sub_ms) × (sub_ms ≤ 10000) × (sub_ms ≤ police_dur s.max_test_seconds req * 1000)
    sub = sub_bounds s.pver (police_dur s.max_test_seconds req) req dur.0

-- The controller of a policed test over the server's table is valid: every row that it names
-- exists.
pub new_controller-IsValid :
    (set_class : ℕ → Bool) (s : Session) (req : TestActPdu) (jumbo traditional : Bool)
    → s.table ≡ build_rate_table jumbo traditional
    → IsValid (new_rate_controller s.table (police set_class s req))
unfolding new_rate_controller
new_controller-IsValid set_class s req jumbo traditional e = record {
  in_table = ground (arith, index);
  conf_in_table = index;
  hst_in_table = omega (arith, size, thresh);
  hst_room = omega (arith, thresh);
}
  where
    size : length s.table.rows ≡ 1153
    size = rw e (table_size jumbo traditional).0

    thresh : s.table.high_speed_thresh ≡ 1000
    thresh = rw e (table_size jumbo traditional).1

    index : pos_part (police set_class s req).sr_index_conf < length s.table.rows
    index = (police-InRange set_class s req (omega (arith, size))).index_in_table
