-- ===== src/Live/Growth.antt =====
-- What the registry of internal/tr143/live.go holds while no one polls it.
use diagd.Base.{ℕ, suc, ◌+◌, ◌≡◌, refl, ap, subst, true, false, List, [], ◌∷◌, length, arith}
use diagd.Live.{LiveEntry, expired}
use diagd.Live.Log.{
  Op, started, stored, ended, polled, run, Log, end_once, log_step, replay, Ops, last_poll,
}
use diagd.Live.Covers.{Covers, nothing, kept, dropped, length-at_id}
use diagd.Live.Refines.{no_transfers, run-Agrees, start-Agrees}

-- A sequence without a poll.
unfoldable pub Quiet : List Op → Type 0
Quiet [] = Unit {0}
Quiet (polled now ∷ ops) = true ≡ false
Quiet (started test ref peer now ∷ ops) = Quiet ops
Quiet (stored id n ∷ ops) = Quiet ops
Quiet (ended id now ∷ ops) = Quiet ops

-- The transfers that a sequence starts.
unfoldable pub starts : List Op → ℕ
starts [] = 0
starts (started test ref peer now ∷ ops) = suc (starts ops)
starts (stored id n ∷ ops) = starts ops
starts (ended id now ∷ ops) = starts ops
starts (polled now ∷ ops) = starts ops

last_poll_lem : (t : ℕ) (ops : List Op) → Quiet ops → last_poll t ops ≡ t
unfolding Quiet last_poll
last_poll_lem t [] h = refl
last_poll_lem t (started test ref peer now ∷ ops) h = last_poll_lem t ops h
last_poll_lem t (stored id n ∷ ops) h = last_poll_lem t ops h
last_poll_lem t (ended id now ∷ ops) h = last_poll_lem t ops h
last_poll_lem t (polled now ∷ ops) h = absurd (ground (arith, h))

length-replay : (l : Log) (ops : List Op) → length (replay l ops) ≡ length l + starts ops
unfolding replay starts log_step
length-replay l [] = omega arith
length-replay l (started test ref peer now ∷ ops) =
    omega (arith, length-replay (log_step l (started test ref peer now)) ops)
length-replay l (stored id n ∷ ops) = omega (
  arith,
  length-replay (log_step l (stored id n)) ops,
  length-at_id id (λ e. record e { bytes = n }) l,
)
length-replay l (ended id now ∷ ops) =
    omega (arith, length-replay (log_step l (ended id now)) ops, length-at_id id (end_once now) l)
length-replay l (polled now ∷ ops) = length-replay l ops

-- Nothing has expired at time 0.
unexpired : (e : LiveEntry) → expired 0 e ≡ true → true ≡ false
unfolding expired
unexpired e h = absurd (ground (arith, h))

whole_log : {live : List (ℕ × LiveEntry)} {l : Log} → Covers 0 live l → length live ≡ length l
whole_log nothing = refl
whole_log (kept c) = ap suc (whole_log c)
whole_log (dropped {x} h c) = absurd (ground (arith, unexpired x.1 h))

-- While no one polls `/live`, the registry deletes nothing: after any transfers it holds one entry for
-- each that was started, however long ago they ended. A hook runs once, and there are fewer than
-- 2^64 transfers.
pub unpolled_kept :
    (ops : List Op)
    → Ops 0 no_transfers ops
    → Quiet ops
    → length (run no_transfers ops).live ≡ starts ops
unpolled_kept ops h q =
    let a = run-Agrees 0 no_transfers [] ops start-Agrees h in
    let c =
      subst (λ t. Covers t (run no_transfers ops).live (replay [] ops)) (last_poll_lem 0 ops q)
        a.covers in
    omega (arith, whole_log c, length-replay [] ops)
