-- ===== src/Session/Police.antt =====
-- internal/udpst/session.go: `police`. `set_class` is the socket option call behind
-- setTrafficClass: whether the kernel takes the value. A negative MaxTestSeconds acts as 0 does.
use Prim.Native.Nat.{bit_and}
use diagd.Base.{ℕ, ◌*◌, ◌/◌, Bool, not, ◌&&◌, ◌||◌, length, ltb, leb, ◌==◌, if◌then◌else◌}
use diagd.Base.Int.{ℤ, pos, negsuc}
use diagd.Clock.{millisecond, second}
use diagd.Rates.{RateTable}
use diagd.Protocol.{TestActPdu, protocol_ver}
use diagd.Session.{TestParams, Session}

abbrev pub sr_index_auto : ℕ
sr_index_auto = 0xFFFF

-- A value outside lo..hi is replaced by the default.
abbrev or_default : ℕ → ℕ → ℕ → ℕ → ℕ
or_default lo hi d v = if ltb v lo || ltb hi v then d else v

unfoldable pub police_low : TestActPdu → ℕ
police_low req =
    let lt = or_default 1 10000 30 req.low_thresh in
    let ut = or_default 1 10000 90 req.upper_thresh in if ltb ut lt then 30 else lt

unfoldable pub police_upper : TestActPdu → ℕ
police_upper req =
    let lt = or_default 1 10000 30 req.low_thresh in
    let ut = or_default 1 10000 90 req.upper_thresh in if ltb ut lt then 90 else ut

unfoldable pub police_trial_ms : TestActPdu → ℕ
police_trial_ms req = or_default 5 250 50 req.trial_int

-- The local `dur`, in seconds.
unfoldable pub police_dur : ℕ → TestActPdu → ℕ
police_dur max_test_seconds req =
    let dur = or_default 5 3600 10 req.test_int_time in
    let max_dur : ℕ =
      if max_test_seconds == 0 || ltb 3600 max_test_seconds then 3600 else max_test_seconds in
    if ltb max_dur dur then max_dur else dur

-- The local `subMs`, in milliseconds.
unfoldable pub police_sub_ms : ℕ → ℕ → TestActPdu → ℕ
police_sub_ms pver dur req =
    let asked : ℕ =
      if leb protocol_ver pver then req.sub_int_period else req.legacy_sub_int_sec * 1000 in
    let sub_ms = or_default 100 10000 1000 asked in
    if ltb (dur * 1000) sub_ms then dur * 1000 else sub_ms

unfoldable pub police_index : RateTable → TestActPdu → ℤ
police_index table req =
    if not (req.sr_index_conf == sr_index_auto) && ltb req.sr_index_conf (length table.rows)
    then pos req.sr_index_conf
    else negsuc 0

unfoldable pub police_supp : ℕ → ℕ → ℕ → TestActPdu → ℕ
police_supp pver dur sub_ms req =
    if leb protocol_ver pver && ltb req.sr_adj_supp_count (dur * 1000 / sub_ms)
    then req.sr_adj_supp_count
    else 0

unfoldable pub police : (ℕ → Bool) → Session → TestActPdu → TestParams
police set_class s req =
    let dur = police_dur s.max_test_seconds req in
    let sub_ms = police_sub_ms s.pver dur req in
    let ecn = bit_and req.dscp_ecn 3 in
    record {
      low_thresh = police_low req;
      upper_thresh = police_upper req;
      trial_int = police_trial_ms req * millisecond;
      duration = dur * second;
      sub_int = sub_ms * millisecond;
      dscp_ecn =
          if not (req.dscp_ecn == 0) && not (set_class req.dscp_ecn) then 0 else req.dscp_ecn;
      sr_index_conf = police_index s.table req;
      index_is_start = not (bit_and req.modifiers 1 == 0);
      use_ow_del_var = req.use_ow_del_var == 1;
      high_speed_delta = if ltb req.high_speed_delta 1 then 10 else req.high_speed_delta;
      slow_adj_thresh = if ltb req.slow_adj_thresh 1 then 3 else req.slow_adj_thresh;
      seq_err_thresh = req.seq_err_thresh;
      ignore_ooo_dup = not (req.ignore_ooo_dup == 0);
      rand_payload = not (bit_and req.modifiers 2 == 0);
      algo = if ltb 1 req.rate_adj_algo then 0 else req.rate_adj_algo;
      ecn_ce_thresh = if not (ecn == 1) && not (ecn == 2) then 0 else req.ecn_ce_thresh;
      sr_adj_supp = police_supp s.pver dur sub_ms req;
    }
