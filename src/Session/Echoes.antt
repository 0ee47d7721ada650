-- ===== src/Session/Echoes.antt =====
-- The Test Activation Response of internal/udpst/session.go tells the client what the server runs.
use native.Mathlib.Nat.{le-div_iff_mul-le}
use diagd.Base.{
  ℕ, ◌*◌, ◌/◌, ◌<◌, ◌≤◌, ◌≡◌, ◌≢◌, ◌⊎◌, refl, Bool, true, length, if◌then◌else◌, get_or, arith,
}
use diagd.Base.Int.{pos, negsuc, pos_part}
use diagd.Rates.{no_rate}
use diagd.Clock.{millisecond, second}
use diagd.Protocol.{TestActPdu}
use diagd.Session.{TestParams, Session, initial_index}
use diagd.Session.Police.{
  police, police_low, police_upper, police_trial_ms, police_dur, police_sub_ms, police_index,
  police_supp,
}
use diagd.Session.Ranges.{dur_bounds, sub_bounds}
use diagd.Session.Activation.{activation_response}

-- The fields of a request that the response copies through narrower integers.
pub record FitsWire (req : TestActPdu) : Type 0 where
  pub delta_byte : req.high_speed_delta < 256
  pub slow_half : req.slow_adj_thresh < 65536
  pub errors_half : req.seq_err_thresh < 65536
  pub ce_byte : req.ecn_ce_thresh < 256

-- Each field of a response is the value of a parameter, in the unit of the wire.
pub record Tells (s : Session) (p : TestParams) (resp : TestActPdu) : Type 0 where
  pub low : resp.low_thresh ≡ p.low_thresh
  pub upper : resp.upper_thresh ≡ p.upper_thresh
  pub trial : resp.trial_int * millisecond ≡ p.trial_int
  pub duration : resp.test_int_time * second ≡ p.duration
  pub sub_int : 20 ≤ s.pver → resp.sub_int_period * millisecond ≡ p.sub_int
  pub legacy_sub_int : s.pver < 20 → resp.legacy_sub_int_sec * second ≡ p.sub_int
  pub marking : resp.dscp_ecn ≡ p.dscp_ecn
  pub index :
      (p.sr_index_conf ≡ pos resp.sr_index_conf)
      ⊎ ((p.sr_index_conf ≡ negsuc 0) × (resp.sr_index_conf ≡ 65535))
  pub delay : resp.use_ow_del_var ≡ (if p.use_ow_del_var then 1 else 0)
  pub delta : resp.high_speed_delta ≡ p.high_speed_delta
  pub slow : resp.slow_adj_thresh ≡ p.slow_adj_thresh
  pub errors : resp.seq_err_thresh ≡ p.seq_err_thresh
  pub order : resp.ignore_ooo_dup ≡ (if p.ignore_ooo_dup then 1 else 0)
  pub algo : resp.rate_adj_algo ≡ p.algo
  pub ce : resp.ecn_ce_thresh ≡ p.ecn_ce_thresh
  pub supp : resp.sr_adj_supp_count ≡ p.sr_adj_supp
  pub row : resp.cmd_request ≢ 2 → resp.sr ≡ get_or s.table.rows (pos_part p.sr_index_conf) no_rate

module _ (set_class : ℕ → Bool) (s : Session) (req : TestActPdu) where
  abbrev p : TestParams
  p = police set_class s req

  abbrev again : TestActPdu
  again = activation_response s p req

  low_again : police_low again ≡ police_low req
  unfolding activation_response police police_low police_upper
  low_again = ground arith

  upper_again : police_upper again ≡ police_upper req
  unfolding activation_response police police_low police_upper
  upper_again = ground arith

  trial_again : police_trial_ms again ≡ police_trial_ms req
  unfolding activation_response police police_trial_ms
  trial_again = ground arith

  dur_again : police_dur s.max_test_seconds again ≡ police_dur s.max_test_seconds req
  unfolding activation_response police police_dur
  dur_again = ground arith

  index_again : length s.table.rows < 65536 → police_index s.table again ≡ police_index s.table req
  unfolding activation_response police police_index
  index_again h = ground arith

  sub_again :
      let d = police_dur s.max_test_seconds req in
      1 ≤ d → d ≤ 3600 → police_sub_ms s.pver d again ≡ police_sub_ms s.pver d req
  unfolding activation_response police police_sub_ms
  sub_again lo hi = ground arith

  supp_again :
      (d sub_ms : ℕ)
      → d ≡ police_dur s.max_test_seconds req
      → sub_ms ≡ police_sub_ms s.pver d req
      → 0 < d * 1000 / sub_ms
      → police_supp s.pver d sub_ms again ≡ police_supp s.pver d sub_ms req
  unfolding activation_response police police_supp
  supp_again d sub_ms ed es h = ground arith

  sub_max : (d : ℕ) → police_sub_ms s.pver d req ≤ 10000
  unfolding police_sub_ms
  sub_max d = ground arith

  -- In the legacy layout a sub-interval is whole seconds.
  legacy_whole :
      (d : ℕ) → s.pver < 20 → police_sub_ms s.pver d req / 1000 * 1000 ≡ police_sub_ms s.pver d req
  unfolding police_sub_ms
  legacy_whole d old = ground (arith, old)

  response-Tells : FitsWire req → length s.table.rows < 65536 → Tells s p again
  unfolding police activation_response
  response-Tells w rows = record {
    low = unfold police_low in ground arith;
    upper = unfold police_upper in ground arith;
    trial = unfold police_trial_ms in ground arith;
    duration = unfold police_dur in ground arith;
    sub_int = λ new. ground (arith, new, sub_max (police_dur s.max_test_seconds req));
    legacy_sub_int = λ old. ground (
      arith,
      old,
      sub_max (police_dur s.max_test_seconds req),
      legacy_whole (police_dur s.max_test_seconds req) old,
    );
    marking = refl;
    index = unfold police_index in ground (arith, rows);
    delay = ground arith;
    delta = ground (arith, w.delta_byte);
    slow = ground (arith, w.slow_half);
    errors = ground (arith, w.errors_half);
    order = ground arith;
    algo = refl;
    ce = ground (arith, w.ce_byte);
    supp = refl;
    row = λ up. unfold initial_index police_index in ground (arith, up);
  }

  fixed :
      FitsWire req
      → length s.table.rows < 65536
      → set_class req.dscp_ecn ≡ true
      → police set_class s again ≡ p
  unfolding police activation_response
  fixed w rows taken = ground (
    arith,
    low_again,
    upper_again,
    trial_again,
    dur_again,
    index_again rows,
    sub,
    supp_again d (police_sub_ms s.pver d req) refl refl room,
  )
    where
      d : ℕ
      d = police_dur s.max_test_seconds req

      bounds : (1 ≤ police_dur s.max_test_seconds req) × (police_dur s.max_test_seconds req ≤ 3600)
      bounds = dur_bounds s.max_test_seconds req

      sub : police_sub_ms s.pver d again ≡ police_sub_ms s.pver d req
      sub = sub_again bounds.0 bounds.1

      room : 0 < police_dur s.max_test_seconds req * 1000 / police_sub_ms s.pver d req
      room =
          let (lo, hi, le) = sub_bounds s.pver (police_dur s.max_test_seconds req) req bounds.0 in
          (le-div_iff_mul-le (omega (arith, lo))).1 (omega (arith, le))

  -- The Test Activation Response tells the client the parameters that the server runs with, each in its
  -- field: thresholds, trial interval, duration, sub-interval, marking, index and what the search
  -- uses, and for an upload the row to start with. Policing the response gives these parameters
  -- again, so a client that runs with the answer runs the test of the server; the fields fit their
  -- integers, the table has fewer than 65536 rows, and the socket takes the traffic class.
  pub response_is_fixed :
      FitsWire req
      → length s.table.rows < 65536
      → set_class req.dscp_ecn ≡ true
      → Tells s p again × (police set_class s again ≡ p)
  response_is_fixed w rows taken = (response-Tells w rows, fixed w rows taken)
