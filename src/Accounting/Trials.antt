-- ===== src/Accounting/Trials.antt =====
-- The sub-intervals of internal/udpst/accounting.go: nothing is lost or counted twice between them.
use diagd.Base.{ℕ, suc, ◌+◌, ◌<◌, ◌≡◌, false, List, [], ◌∷◌, ◌++◌, arith, u32, u64, if◌then◌else◌}
use diagd.Base.Int.{ℤ}
use diagd.Clock.{wall_diff_ms}
use diagd.Protocol.{LoadPdu, SubIntStats}
use diagd.Accounting.{
  RxAccounting, record_seq, record_advance, record_dup, record_late, push_history,
}
use diagd.Accounting.Samples.{
  record_load, record_delay, record_rtt, count_rx, count_delay, note_delta,
}
use diagd.Accounting.Intervals.{maybe_roll, reset_trial}

-- What a receiver does with its accounting between two trials of the clock: a load PDU at a time,
-- or the end of a trial, which may close the sub-interval.
pub data Event : Type 0 where
  load : ℕ → LoadPdu → Event
  trial : ℕ → Event

-- The state after the event, and the statistics of the sub-interval that it closed.
pub step : RxAccounting → Event → ℕ → ℕ → RxAccounting × List SubIntStats
step a (load rx_time hdr) sub_int trial_int = (record_load a rx_time hdr, [])
step a (trial now) sub_int trial_int =
    let b = maybe_roll (record a { rolled = false }) now sub_int trial_int in
    (reset_trial b, if b.rolled then b.saved ∷ [] else [])

pub run_events : RxAccounting → List Event → ℕ → ℕ → RxAccounting × List SubIntStats
run_events a [] sub_int trial_int = (a, [])
run_events a (e ∷ es) sub_int trial_int =
    let (b, closed) = step a e sub_int trial_int in
    let (c, rest) = run_events b es sub_int trial_int in (c, closed ++ rest)

-- Datagrams and payload bytes, of the closed sub-intervals and of the stream.
abbrev pub datagrams : List SubIntStats → ℕ
datagrams [] = 0
datagrams (s ∷ ss) = s.rx_datagrams + datagrams ss

abbrev pub bytes : List SubIntStats → ℕ
bytes [] = 0
bytes (s ∷ ss) = s.rx_bytes + bytes ss

abbrev pub sent : List Event → ℕ
sent [] = 0
sent (load rx_time hdr ∷ es) = suc (sent es)
sent (trial now ∷ es) = sent es

abbrev pub sent_bytes : List Event → ℕ
sent_bytes [] = 0
sent_bytes (load rx_time hdr ∷ es) = hdr.udp_payload + sent_bytes es
sent_bytes (trial now ∷ es) = sent_bytes es

datagrams-append : (ss rs : List SubIntStats) → datagrams (ss ++ rs) ≡ datagrams ss + datagrams rs
datagrams-append [] rs = omega arith
datagrams-append (s ∷ ss) rs = omega (arith, datagrams-append ss rs)

bytes-append : (ss rs : List SubIntStats) → bytes (ss ++ rs) ≡ bytes ss + bytes rs
bytes-append [] rs = omega arith
bytes-append (s ∷ ss) rs = omega (arith, bytes-append ss rs)

record_seq_rx :
    (a : RxAccounting) (s : ℕ)
    → let b = (record_seq a s).0 in
      (b.sub.rx_datagrams ≡ a.sub.rx_datagrams) × (b.sub.rx_bytes ≡ a.sub.rx_bytes)
unfolding record_seq record_advance record_dup record_late push_history
record_seq_rx a s = ground arith

record_delay_rx :
    (a : RxAccounting) (d : ℤ)
    → let b = record_delay a d in
      (b.sub.rx_datagrams ≡ a.sub.rx_datagrams) × (b.sub.rx_bytes ≡ a.sub.rx_bytes)
unfolding record_delay count_delay note_delta
record_delay_rx a d = ground arith

record_rtt_rx :
    (a : RxAccounting) (t : ℕ) (hdr : LoadPdu)
    → let b = record_rtt a t hdr in
      (b.sub.rx_datagrams ≡ a.sub.rx_datagrams) × (b.sub.rx_bytes ≡ a.sub.rx_bytes)
unfolding record_rtt
record_rtt_rx a t hdr = ground arith

record_load_rx :
    (a : RxAccounting) (t : ℕ) (hdr : LoadPdu)
    → let b = record_load a t hdr in
      (b.sub.rx_datagrams ≡ u32 (a.sub.rx_datagrams + 1))
      × (b.sub.rx_bytes ≡ u64 (a.sub.rx_bytes + hdr.udp_payload))
unfolding record_load count_rx
record_load_rx a t hdr =
    let b = (record_seq (count_rx a hdr.udp_payload) hdr.seq_no).0 in
    let c = record_delay b (wall_diff_ms t hdr.time_sec hdr.time_nsec) in
    ground (
      arith,
      record_seq_rx (count_rx a hdr.udp_payload) hdr.seq_no,
      record_delay_rx b (wall_diff_ms t hdr.time_sec hdr.time_nsec),
      record_rtt_rx c t hdr,
    )

-- A roll moves the counts of the active sub-interval into the saved one, or leaves both.
trial_rx :
    (a : RxAccounting) (now sub_int trial_int : ℕ)
    → let (b, closed) = step a (trial now) sub_int trial_int in
      (datagrams closed + b.sub.rx_datagrams ≡ a.sub.rx_datagrams)
      × (bytes closed + b.sub.rx_bytes ≡ a.sub.rx_bytes)
unfolding step maybe_roll reset_trial
trial_rx a now sub_int trial_int = ground arith

-- Over any load PDUs and ends of trials, the datagrams and bytes of the closed sub-intervals and of
-- the open one are exactly those received, while the totals fit their counters.
pub sub_intervals_exact :
    (a : RxAccounting) (es : List Event) (sub_int trial_int : ℕ)
    → a.sub.rx_datagrams + sent es < 4294967296
    → a.sub.rx_bytes + sent_bytes es < 18446744073709551616
    → let (b, closed) = run_events a es sub_int trial_int in
      (datagrams closed + b.sub.rx_datagrams ≡ a.sub.rx_datagrams + sent es)
      × (bytes closed + b.sub.rx_bytes ≡ a.sub.rx_bytes + sent_bytes es)
unfolding run_events step
sub_intervals_exact a [] sub_int trial_int dg by = omega arith
sub_intervals_exact a (load t hdr ∷ es) sub_int trial_int dg by =
    let (one, more) = record_load_rx a t hdr in
    let rest =
      sub_intervals_exact (record_load a t hdr) es sub_int trial_int (omega (arith, one))
        (omega (arith, more)) in
    (omega (arith, rest.0, one), omega (arith, rest.1, more))
sub_intervals_exact a (trial now ∷ es) sub_int trial_int dg by =
    let (b, closed) = step a (trial now) sub_int trial_int in
    let (one, more) = trial_rx a now sub_int trial_int in
    let rest =
      sub_intervals_exact b es sub_int trial_int (omega (arith, one)) (omega (arith, more)) in
    let more' = (run_events b es sub_int trial_int).1 in
    (
      omega (arith, rest.0, one, datagrams-append closed more'),
      omega (arith, rest.1, more, bytes-append closed more'),
    )
