-- ===== src/Session/Runs.antt =====
-- Tests and instances for the send loop of internal/udpst/session.go.
use diagd.Base.{ℕ, Bool, ◌+◌, ◌≤◌, ◌≡◌, refl, true, false, none, length, List, [], ◌∷◌, arith}
use diagd.Rates.{Rate, RateTable}
use diagd.Accounting.{new_rx_accounting}
use diagd.Accounting.Sequence.{record_all}
use diagd.Session.Bursts.{Moment, burst_sizes, min_size}
use diagd.Session.Stream.{Answers, AllAnswers, numbers, total, send_loop_clean}
use diagd.Session.Pacing.{
  Deadlines, SendRound, send_rounds, send_loop, send_turn, wait_or_pace, pace, transmit, catch_up,
  wake, sleep_until, transmitter1, transmitter2,
}
use diagd.Session.Schedule.{latest}
use diagd.Session.Cadence.{owed, rounds1}
use diagd.Session.Wakes.{IsEarliest, IsFirst, round_on_time}

-- Two datagrams each 100 us, and one with an add-on each 1 ms.
abbrev row : Rate
row = record {
  tx_interval1 = 100;
  udp_payload1 = 1222;
  burst_size1 = 2;
  tx_interval2 = 1000;
  udp_payload2 = 500;
  burst_size2 = 1;
  udp_addon2 = 97;
}

abbrev table : RateTable
table = record { rows = row ∷ []; high_speed_thresh = 0 }

-- The kernel takes one datagram of a first batch and the rest of it with the second answer.
abbrev moment : Moment
moment = record { echo = none; now = 0; draw = λ n. 0; wall = λ seq. seq; answers = 1 ∷ (1 ∷ []) }

abbrev at : ℕ → SendRound
at now = record {
  closed = false;
  stop = false;
  index = 0;
  quit = false;
  now = now;
  at_stop = moment;
  moments1 = λ n. moment;
  moments2 = λ n. moment;
}

-- A round on time, one that comes 10 intervals late, and a stop.
abbrev rounds : List SendRound
rounds = at 5000000 ∷ (at 6000100 ∷ [])

abbrev stopped : SendRound
stopped = record (at 6100000) {
  stop = true;
  quit = true;
  at_stop = record moment { answers = 1 ∷ [] };
}

abbrev due : Deadlines
due = record { next1 = 5000000; next2 = 5000000 }

-- Two datagrams each 100 us, and no second transmitter.
abbrev single : Rate
single = record row { tx_interval2 = 0; udp_payload2 = 0; burst_size2 = 0; udp_addon2 = 0 }

abbrev singles : RateTable
singles = record { rows = single ∷ []; high_speed_thresh = 0 }

-- Both transmitters of the row are at work.
two_transmitters :
    length (send_rounds false table due rounds)
    ≡ owed (transmitter1 row) (latest 0 (rounds1 rounds)) 5000000
      + owed (transmitter2 row) (latest 0 (rounds1 rounds)) 5000000
unfolding send_rounds send_turn wait_or_pace pace transmit catch_up latest
two_transmitters = refl

-- Eleven bursts of the first and two of the second transmitter.
bursts_made : length (send_rounds false table due rounds) ≡ 13
unfolding send_rounds send_turn wait_or_pace pace transmit catch_up
bursts_made = refl

abbrev readings : List (ℕ × Bool)
readings = (4000000, false) ∷ ((4800000, false) ∷ ((4999999, false) ∷ ((5000001, false) ∷ [])))

-- The deadline of the second transmitter is the earlier one.
abbrev apart : Deadlines
apart = record { next1 = 5000070; next2 = 5000000 }

round_on_time_example :
    let t = pace row apart (at 5000001) in
    (IsEarliest row apart 5000000 × IsFirst 5000000 5000001 readings)
    × (((1 ≤ length t.shots) × (length t.shots ≤ 40))
        × ((5000001 ≤ t.deadlines.next1) × (5000001 ≤ t.deadlines.next2)))
round_on_time_example =
    round_on_time row apart (at 5000001) 5000000 5000001 readings (unfold wake in refl)
      (refl, (refl, (refl, (refl, tt)))) (unfold sleep_until in refl) (omega arith)

send_loop_clean_example :
    let sent = (send_loop false table 0 (λ n. 0) (at 5000000 ∷ (stopped ∷ []))).taken in
    let b = record_all (new_rx_accounting 5) (numbers sent) in
    (b.t_loss ≡ 0) × ((b.t_ooo ≡ 0) × (b.t_dup ≡ 0))
send_loop_clean_example =
    send_loop_clean false table 0 (λ n. 0) (at 5000000 ∷ (stopped ∷ [])) 5
      (unfold send_rounds send_turn wait_or_pace pace transmit catch_up total burst_sizes
          min_size in
        omega arith)
      (unfold send_rounds send_turn wait_or_pace pace transmit catch_up AllAnswers Answers
          burst_sizes min_size in
        omega arith)
