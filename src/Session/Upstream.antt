-- ===== src/Session/Upstream.antt =====
-- internal/udpst/session.go: `runUpstream`, a round of its loop at a time, but for the rates that
-- only its log reports. A round has its readings of the clock and what ReadBatch gives.
use diagd.Base.{
  ℕ, ◌+◌, ◌-◌, ◌*◌, Bool, true, false, not, ◌||◌, List, [], ◌∷◌, ◌++◌, none, some, ltb, leb, ◌==◌,
  if◌then◌else◌, u32, u64, get_or, take,
}
use diagd.Clock.{millisecond}
use diagd.Rates.{no_rate}
use diagd.Protocol.{StatusPdu, protocol_ver, load_hdr_size, test_action_test, test_action_stop2}
use diagd.Protocol.Load.{parse_load_hdr}
use diagd.Algo.{RateController, adjust}
use diagd.Accounting.{RxAccounting, new_rx_accounting}
use diagd.Accounting.Samples.{record_load}
use diagd.Accounting.Intervals.{trial_input, maybe_roll, build_status, reset_trial, bool_byte}
use diagd.Session.{TestParams, Session, new_rate_controller}

abbrev pub watchdog_timeout : ℕ
watchdog_timeout = 3 * 1000000000

abbrev no_traffic_warning : ℕ
no_traffic_warning = 1000000000

pub record Upstream : Type 0 where
  pub rc : RateController
  pub acc : RxAccounting
  pub status_seq : ℕ
  pub last_status : ℕ
  pub next_status : ℕ
  pub stop_at : ℕ
  pub watchdog : ℕ
  pub last_rx : ℕ
  pub stopping : Bool
  pub client_done : Bool
  pub total_loss : ℕ
  pub total_dg : ℕ

unfoldable pub start_upstream : Session → TestParams → ℕ → Upstream
start_upstream s p now = record {
  rc = new_rate_controller s.table p;
  acc = new_rx_accounting now;
  status_seq = 0;
  last_status = now;
  next_status = now + p.trial_int;
  stop_at = now + (p.duration + 500 * millisecond);
  watchdog = now + watchdog_timeout;
  last_rx = now;
  stopping = false;
  client_done = false;
  total_loss = 0;
  total_dg = 0;
}

-- The status PDU of a trial, for the controller behind `adjust` and the accounting behind maybeRoll.
unfoldable pub trial_status : Session → ℕ → ℕ → Upstream → RateController → RxAccounting → StatusPdu
trial_status s now wall u rc acc = record (build_status acc now u.last_status wall) {
  test_action = if u.stopping then test_action_stop2 else test_action_test;
  rx_stopped = bool_byte (ltb no_traffic_warning (now - u.last_rx));
  seq_no = u32 (u.status_seq + 1);
  sr = get_or s.table.rows rc.index no_rate;
  auth_mode = s.auth_mode;
  legacy = not (leb protocol_ver s.pver);
}

-- The end of a trial: the state after it and the status that is sent.
unfoldable pub end_trial : Session → TestParams → ℕ → ℕ → Upstream → Upstream × StatusPdu
unfolding trial_status
end_trial s p now wall u =
    let rc = adjust u.rc (trial_input u.acc) in
    let acc : RxAccounting = record (maybe_roll u.acc now p.sub_int p.trial_int) {
      rolled = false;
    } in
    let st = trial_status s now wall u rc acc in
    let next = u.next_status + p.trial_int in
    (
      record u {
        rc = rc;
        acc = reset_trial acc;
        status_seq = u32 (u.status_seq + 1);
        total_loss = u64 (u.total_loss + st.seq_err_loss);
        total_dg = u64 (u.total_dg + st.ti_rx_datagrams);
        last_status = now;
        next_status = if ltb next now then now + p.trial_int else next;
      },
      st,
    )

-- The timed part of a round.
unfoldable pub tick : Session → TestParams → ℕ → ℕ → Upstream → Upstream × List StatusPdu
tick s p now wall u =
    let v : Upstream = record u { stopping = u.stopping || ltb u.stop_at now } in
    let (w, st) = end_trial s p now wall v in
    if leb u.next_status now then (w, st ∷ []) else (v, [])

-- One datagram of a batch, and whether it came from the peer's address.
unfoldable pub receive : ℕ → Upstream → Bool × List ℕ → Upstream
receive rx_now u (from_peer, raw) = elim (parse_load_hdr (take load_hdr_size raw)) [
  | none ↦ u
  | some hdr ↦ if not from_peer then u else record u {
    watchdog = rx_now + watchdog_timeout;
    last_rx = rx_now;
    client_done = u.client_done || not (hdr.test_action == test_action_test);
    acc = record_load u.acc rx_now hdr;
  }
]

unfoldable pub receive_all : ℕ → Upstream → List (Bool × List ℕ) → Upstream
unfolding receive
receive_all rx_now u [] = u
receive_all rx_now u (d ∷ ds) = receive_all rx_now (receive rx_now u d) ds

-- What ReadBatch gives: the deadline passed, another error, or datagrams and the time after it.
pub data Read : Type 0 where
  deadline : Read
  failed : Read
  batch : ℕ → List (Bool × List ℕ) → Read

pub record Round : Type 0 where
  pub now : ℕ
  pub wall : ℕ
  pub read : Read

-- One round: the state, the statuses sent, and whether the loop goes on to its condition.
pub record Turn : Type 0 where
  pub state : Upstream
  pub sent : List StatusPdu
  pub goes_on : Bool

unfoldable pub turn : Session → TestParams → Upstream → Round → Turn
unfolding tick receive_all
turn s p u r =
    let (v, sent) = tick s p r.now r.wall u in
    if ltb u.watchdog r.now then record { state = u; sent = []; goes_on = false } else elim r.read [
      | deadline ↦ record { state = v; sent = sent; goes_on = true }
      | failed ↦ record { state = v; sent = sent; goes_on = false }
      | batch rx_now ds ↦ record { state = receive_all rx_now v ds; sent = sent; goes_on = true }
    ]

-- The loop over the rounds that happen, and all statuses that it sends.
unfoldable pub upstream_loop :
    Session → TestParams → Upstream → List Round → Upstream × List StatusPdu
unfolding turn
upstream_loop s p u [] = (u, [])
upstream_loop s p u (r ∷ rs) =
    let t = turn s p u r in
    let (w, later) = upstream_loop s p t.state rs in
    if u.client_done
    then (u, [])
    else (if t.goes_on then (w, t.sent ++ later) else (t.state, t.sent))

-- The last partial sub-interval is folded in.
unfoldable pub run_upstream : Session → TestParams → ℕ → List Round → ℕ → Upstream × List StatusPdu
unfolding start_upstream upstream_loop
run_upstream s p start rounds stop =
    let (u, sent) = upstream_loop s p (start_upstream s p start) rounds in
    (record u { acc = maybe_roll u.acc stop 0 0 }, sent)
