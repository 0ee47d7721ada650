-- ===== src/Session/Downstream.antt =====
-- internal/udpst/session.go: `runDownstream`, a round of its loop at a time, but for the rates that
-- only its log reports. The send loop reads `index` and `echo` of the state at its own times.
use diagd.Base.{
  ℕ, ◌+◌, Bool, true, false, not, List, [], ◌∷◌, Option, none, some, ltb, ◌==◌, if◌then◌else◌, u64,
}
use diagd.Protocol.{StatusPdu, test_action_test}
use diagd.Protocol.Status.{parse_status}
use diagd.Algo.{RateController, TrialInput, adjust}
use diagd.Session.{TestParams, Session, new_rate_controller}
use diagd.Session.Bursts.{EchoState}
use diagd.Session.Upstream.{watchdog_timeout}

pub record Downstream : Type 0 where
  pub rc : RateController
  pub index : ℕ
  pub echo : Option EchoState
  pub watchdog : ℕ
  pub total_loss : ℕ
  pub total_dg : ℕ

unfoldable pub start_downstream : Session → TestParams → ℕ → Downstream
start_downstream s p now =
    let rc = new_rate_controller s.table p in
    record {
      rc = rc;
      index = rc.index;
      echo = none;
      watchdog = now + watchdog_timeout;
      total_loss = 0;
      total_dg = 0;
    }

-- The measurements of a trial that the client reports.
abbrev pub reported : StatusPdu → TrialInput
reported st = record {
  seq_err_loss = st.seq_err_loss;
  seq_err_ooo = st.seq_err_ooo;
  seq_err_dup = st.seq_err_dup;
  delay_var_sum = st.delay_var_sum;
  delay_var_cnt = st.delay_var_cnt;
  rtt_var_sample = st.rtt_var_sample;
  rx_datagrams = st.ti_rx_datagrams;
  ce_count = st.ti_rx_ce_count;
  sub_int_seq_no = st.sub_int_seq_no;
}

-- A status PDU from the peer: the state after it, and whether the loop goes on.
unfoldable pub on_status : Downstream → ℕ → StatusPdu → Downstream × Bool
on_status d rx_now st =
    let rc = adjust d.rc (reported st) in
    let noted : Downstream = record d {
      watchdog = rx_now + watchdog_timeout;
      echo = some (record { sec = st.time_sec; nsec = st.time_nsec; rx_at = rx_now });
      total_loss = u64 (d.total_loss + st.seq_err_loss);
      total_dg = u64 (d.total_dg + st.ti_rx_datagrams);
    } in
    if not (st.test_action == test_action_test)
    then (noted, false)
    else (record noted { rc = rc; index = rc.index }, true)

-- What the read gives: the deadline passed, another error, or a datagram, whether it came from the
-- peer's address, and the time after it.
pub data Receipt : Type 0 where
  deadline : Receipt
  failed : Receipt
  datagram : Bool → List ℕ → ℕ → Receipt

unfoldable pub downstream_turn : Downstream → ℕ → Receipt → Downstream × Bool
unfolding on_status
downstream_turn d now receipt = if ltb d.watchdog now then (d, false) else elim receipt [
  | deadline ↦ (d, true)
  | failed ↦ (d, false)
  | datagram from_peer raw rx_now ↦ elim (parse_status raw) [
    | none ↦ (d, true)
    | some st ↦ if not from_peer then (d, true) else on_status d rx_now st
  ]
]

-- The loop over the rounds that happen: the state at every point of it, the last one first.
unfoldable pub downstream_loop : Downstream → List (ℕ × Receipt) → List Downstream → List Downstream
unfolding downstream_turn
downstream_loop d [] past = d ∷ past
downstream_loop d ((now, receipt) ∷ rest) past =
    let (e, goes_on) = downstream_turn d now receipt in
    let more = downstream_loop e rest (d ∷ past) in if goes_on then more else e ∷ (d ∷ past)
