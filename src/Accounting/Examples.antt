-- ===== src/Accounting/Examples.antt =====
-- Tests and instances for internal/udpst/accounting.go.
use diagd.Base.{ℕ, ◌+◌, ◌≤◌, ◌≡◌, refl, true, arith, List, [], ◌∷◌, ◌++◌, reverse, take}
use diagd.Base.Int.{pos, negsuc, ℤ}
use diagd.Protocol.Examples.{load_hdr}
use diagd.Algo.{RateController}
use diagd.Algo.Examples.{searching}
use diagd.Accounting.{
  RxAccounting, new_rx_accounting, record_seq, record_dup, in_history, mem_history, record_advance,
  record_late, push_history, count_gap, count_late,
}
use diagd.Accounting.Ring.{recent, push_all, history_window, new-IsRing}
use diagd.Accounting.Sequence.{record_all, CountsFit, loss_covers_gaps}
use diagd.Accounting.Delay.{IsDelayValid}
use diagd.Accounting.Trials.{
  Event, load, trial, run_events, datagrams, bytes, sent, sent_bytes, sub_intervals_exact,
}

abbrev fresh : RxAccounting
fresh = new_rx_accounting 1000

history_window_example :
    in_history (push_all fresh (5 ∷ 6 ∷ 7 ∷ [])) 6
    ≡ mem_history 6 (take 32 (reverse (5 ∷ 6 ∷ 7 ∷ []) ++ recent fresh))
history_window_example = history_window fresh (5 ∷ 6 ∷ 7 ∷ []) 6 (new-IsRing 1000)

fresh-CountsFit : CountsFit fresh
unfolding new_rx_accounting
fresh-CountsFit = omega arith

-- Reordering, a repeat, and a gap.
abbrev mixed : List ℕ
mixed = 1 ∷ 4 ∷ 2 ∷ 4 ∷ 7 ∷ []

loss_covers_gaps_example :
    let b = record_all fresh mixed in
    b.seq + b.t_dup + fresh.t_loss ≤ fresh.seq + fresh.t_dup + b.t_loss + 5
loss_covers_gaps_example =
    loss_covers_gaps fresh mixed fresh-CountsFit (omega arith)
      (unfold new_rx_accounting in omega arith)

mixed_counts :
    let b = record_all fresh mixed in
    (b.seq ≡ 7) × ((b.t_loss ≡ 3) × ((b.t_ooo ≡ 1) × (b.t_dup ≡ 1)))
unfolding record_all new_rx_accounting record_seq in_history record_dup record_advance record_late
    push_history count_gap count_late mem_history
mixed_counts = (refl, (refl, (refl, refl)))

fresh-IsDelayValid : IsDelayValid fresh
unfolding new_rx_accounting
fresh-IsDelayValid = ground arith

abbrev deltas : List ℤ
deltas = negsuc 11 ∷ pos 3 ∷ negsuc 20 ∷ []

abbrev delay_searching : RateController
delay_searching = record searching { use_ow_del_var = true }

-- Three samples of 2, 3 and 7 milliseconds.
abbrev sampled : RxAccounting
sampled = record fresh { t_dv_min = 2; t_dv_max = 7; t_dv_sum = 12; t_dv_cnt = 3 }

-- Two load PDUs, the end of a sub-interval, and a repeat of the first PDU.
abbrev events : List Event
events =
    load 1000000 load_hdr
    ∷ (load 2000000 (record load_hdr { seq_no = 70001 })
        ∷ (trial 2000000000 ∷ (load 2100000000 load_hdr ∷ [])))

sub_intervals_exact_example :
    let (b, closed) = run_events fresh events 1000000000 50000000 in
    (datagrams closed + b.sub.rx_datagrams ≡ fresh.sub.rx_datagrams + sent events)
    × (bytes closed + b.sub.rx_bytes ≡ fresh.sub.rx_bytes + sent_bytes events)
sub_intervals_exact_example =
    sub_intervals_exact fresh events 1000000000 50000000 (unfold new_rx_accounting in omega arith)
      (unfold new_rx_accounting in omega arith)
