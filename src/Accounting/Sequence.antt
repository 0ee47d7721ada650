-- ===== src/Accounting/Sequence.antt =====
-- What recordSeq of internal/udpst/accounting.go makes of a stream of sequence numbers.
use diagd.Base.{
  ℕ, ◌+◌, ◌-◌, ◌<◌, ◌≤◌, ◌≡◌, ◌∙◌, true, false, List, [], ◌∷◌, length, arith, ◌⊎◌, All,
}
use diagd.Accounting.{
  RxAccounting, push_history, in_history, record_seq, record_advance, record_dup, record_late,
}

-- The accounting after a sequence of datagrams, the oldest first.
unfoldable pub record_all : RxAccounting → List ℕ → RxAccounting
record_all a [] = a
record_all a (s ∷ ss) = record_all (record_seq a s).0 ss

-- The numbers of one trial do not reach the end of a uint32.
pub record CountsFit (a : RxAccounting) : Type 0 where
  pub loss_le_seq : a.t_loss ≤ a.seq
  pub seq_below : a.seq < 4294967295

abbrev pub AllBelow : List ℕ → Type 0
AllBelow = All (λ s. s < 4294967295)

-- The datagram is new, known, or late: which branch recordSeq takes.
pub seq_cases :
    (a : RxAccounting) (s : ℕ)
    → CountsFit a
    → ((a.seq < s) × (record_seq a s ≡ (record_advance a s, true)))
      ⊎ (((s ≤ a.seq) × (in_history a s ≡ true) × (record_seq a s ≡ (record_dup a, false)))
          ⊎ ((s ≤ a.seq) × (in_history a s ≡ false) × (record_seq a s ≡ (record_late a s, false))))
unfolding record_seq
seq_cases a s f = ground arith

pub step_fits :
    (a : RxAccounting) (s : ℕ) → CountsFit a → s < 4294967295 → CountsFit (record_seq a s).0
unfolding record_advance record_dup record_late push_history
step_fits a s f lt = ground (arith, seq_cases a s f)

step_accounts :
    (a : RxAccounting) (s : ℕ)
    → CountsFit a
    → s < 4294967295
    → a.t_dup < 4294967295
    → let b = (record_seq a s).0 in
      (b.seq + b.t_dup + a.t_loss ≤ a.seq + a.t_dup + b.t_loss + 1) × (b.t_dup ≤ a.t_dup + 1)
unfolding record_advance record_dup record_late push_history
step_accounts a s f lt d = ground (arith, seq_cases a s f)

-- Over a stream of n datagrams with any reordering and repetition, the highest sequence number
-- rises by at most the loss added and the datagrams that were no duplicates; the loss before is at
-- most the highest number, numbers stay below 2^32 - 1, and the count of duplicates fits.
pub loss_covers_gaps :
    (a : RxAccounting) (ss : List ℕ)
    → CountsFit a
    → AllBelow ss
    → a.t_dup + length ss < 4294967296
    → let b = record_all a ss in b.seq + b.t_dup + a.t_loss ≤ a.seq + a.t_dup + b.t_loss + length ss
unfolding record_all
loss_covers_gaps a [] f h d = omega arith
loss_covers_gaps a (s ∷ ss) f h d =
    let step = step_accounts a s f h.0 (omega arith) in
    let rest =
      loss_covers_gaps (record_seq a s).0 ss (step_fits a s f h.0) h.1 (omega (arith, step.1)) in
    omega (arith, step.0, rest)

-- Each number is above the one before it.
abbrev pub IsAscending : ℕ → List ℕ → Type 0
IsAscending from [] = Unit {0}
IsAscending from (s ∷ ss) = (from < s) × IsAscending s ss

abbrev pub last : ℕ → List ℕ → ℕ
last from [] = from
last from (s ∷ ss) = last s ss

step_advances :
    (a : RxAccounting) (s : ℕ)
    → CountsFit a
    → a.seq < s
    → s < 4294967295
    → let b = (record_seq a s).0 in
      (b.seq ≡ s)
      × (b.t_loss + 1 ≡ a.t_loss + (s - a.seq))
      × (b.t_ooo ≡ a.t_ooo)
      × (b.t_dup ≡ a.t_dup)
unfolding record_advance push_history
step_advances a s f gt lt = ground (arith, seq_cases a s f)

last_above : (from : ℕ) (ss : List ℕ) → IsAscending from ss → from ≤ last from ss
last_above from [] h = omega arith
last_above from (s ∷ ss) h = omega (arith, last_above s ss h.1, h.0)

-- A stream that only loses datagrams is accounted exactly: the loss is the number of those
-- missing up to the last one, and nothing counts as reordered or repeated.
pub ascending_loss_exact :
    (a : RxAccounting) (ss : List ℕ)
    → CountsFit a
    → AllBelow ss
    → IsAscending a.seq ss
    → let b = record_all a ss in
      (b.t_loss + length ss ≡ a.t_loss + (last a.seq ss - a.seq))
      × (b.t_ooo ≡ a.t_ooo)
      × (b.t_dup ≡ a.t_dup)
unfolding record_all
ascending_loss_exact a [] f h up = omega arith
ascending_loss_exact a (s ∷ ss) f h up =
    let (e, loss, ooo, dup) = step_advances a s f up.0 h.0 in
    let (loss', ooo', dup') =
      ascending_loss_exact (record_seq a s).0 ss (step_fits a s f h.0) h.1 (rw e up.1) in
    let loss'' = rw e at loss' in
    (omega (arith, loss, loss'', last_above s ss up.1, up.0), ooo' ∙ ooo, dup' ∙ dup)
