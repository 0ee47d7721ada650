-- ===== src/Live/Refines.antt =====
-- The registry of internal/tr143/live.go, and `/live` of cmd/diagd/ops.go, against the log.
use diagd.Base.{
  ℕ, suc, ◌+◌, ◌≤◌, ◌<◌, ◌≡◌, refl, ap, sym, subst, ◌∙◌, true, List, [], ◌∷◌, filter, length, arith,
  u64,
}
use diagd.Live.{
  Test, LiveEntry, LiveRegistry, new_entry, put, begin, store_bytes, finish, snapshot,
  live_transfers, asks, host_of,
}
use diagd.Live.Log.{
  Op, started, stored, ended, polled, step, run, Log, end_once, log_step, replay, IsRunning, Ops,
  last_poll, visible,
}
use diagd.Live.Covers.{
  Covers, nothing, kept, sweep-visible, sweep-Covers, store-Covers, end-Covers, Below, filter-Below,
  at_id-Below, raise-Below, sweep-Below, length-at_id,
}

pub record Agrees (t : ℕ) (r : LiveRegistry) (l : Log) : Type 0 where
  pub counted : r.seq ≡ length l
  pub below : Below r.seq r.live
  pub covers : Covers t r.live l

begin-live :
    (r : LiveRegistry) (l : Log) (test : Test) (ref peer : List ℕ) (now : ℕ)
    → r.seq < 18446744073709551615
    → r.seq ≡ length l
    → Below r.seq r.live
    → (begin r test ref peer now).0 ≡ record {
      seq = suc (length l);
      live = (suc (length l), new_entry test ref peer now) ∷ r.live;
    }
unfolding begin put
begin-live r l test ref peer now lt e h =
    let id : u64 (r.seq + 1) ≡ suc r.seq = omega (arith, lt) in
    rw id (rw (filter-Below r.seq r.live h) (rw e refl))

started-Agrees :
    (t : ℕ) (r : LiveRegistry) (l : Log) (test : Test) (ref peer : List ℕ) (now : ℕ)
    → r.seq < 18446744073709551615
    → Agrees t r l
    → Agrees t (begin r test ref peer now).0 ((suc (length l), new_entry test ref peer now) ∷ l)
started-Agrees t r l test ref peer now lt a =
    let below = raise-Below (length l) r.live (subst (λ n. Below n r.live) a.counted a.below) in
    rw (begin-live r l test ref peer now lt a.counted a.below)
      (record { counted = refl; below = (omega arith, below); covers = kept a.covers })

stored-Agrees :
    (t id n : ℕ) (r : LiveRegistry) (l : Log)
    → Agrees t r l
    → Agrees t (store_bytes id n r) (log_step l (stored id n))
unfolding store_bytes log_step
stored-Agrees t id n r l a =
    let f : LiveEntry → LiveEntry = λ e. record e { bytes = n } in
    record {
      counted = a.counted ∙ sym (length-at_id id f l);
      below = at_id-Below r.seq id f r.live a.below;
      covers = store-Covers t id n a.covers;
    }

ended-Agrees :
    (t id now : ℕ) (r : LiveRegistry) (l : Log)
    → IsRunning id r.live
    → Agrees t r l
    → Agrees t (finish id now r) (log_step l (ended id now))
unfolding finish log_step
ended-Agrees t id now r l once a = record {
  counted = a.counted ∙ sym (length-at_id id (end_once now) l);
  below = at_id-Below r.seq id (λ e. record e { done = true; ended = now }) r.live a.below;
  covers = end-Covers t id now once a.covers;
}

polled-Agrees :
    (t now : ℕ) (r : LiveRegistry) (l : Log)
    → t ≤ now
    → Agrees t r l
    → Agrees now (snapshot r now).0 l
unfolding snapshot
polled-Agrees t now r l le a = record {
  counted = a.counted;
  below = sweep-Below r.seq now r.live a.below;
  covers = sweep-Covers t now le a.covers;
}

pub run-Agrees :
    (t : ℕ) (r : LiveRegistry) (l : Log) (ops : List Op)
    → Agrees t r l
    → Ops t r ops
    → Agrees (last_poll t ops) (run r ops) (replay l ops)
unfolding run replay step Ops last_poll
run-Agrees t r l [] a h = a
run-Agrees t r l (started test ref peer now ∷ ops) a h =
    run-Agrees t (begin r test ref peer now).0 (log_step l (started test ref peer now)) ops
      (unfold log_step in started-Agrees t r l test ref peer now h.0 a) h.1
run-Agrees t r l (stored id n ∷ ops) a h =
    run-Agrees t (store_bytes id n r) (log_step l (stored id n)) ops (stored-Agrees t id n r l a) h
run-Agrees t r l (ended id now ∷ ops) a h =
    run-Agrees t (finish id now r) (log_step l (ended id now)) ops (ended-Agrees t id now r l h.0 a)
      h.1
run-Agrees t r l (polled now ∷ ops) a h =
    run-Agrees now (snapshot r now).0 (log_step l (polled now)) ops
      (unfold log_step in polled-Agrees t now r l h.0 a) h.1

abbrev pub no_transfers : LiveRegistry
no_transfers = record { seq = 0; live = [] }

pub start-Agrees : Agrees 0 no_transfers []
start-Agrees = record { counted = refl; below = tt; covers = nothing }

-- After any transfers and polls, whose clock does not go back, `/live` tells exactly of the transfers
-- of the whole log that carry the asked tag and host and that run or have ended in the last 15 s,
-- each with its own time: what polls have deleted is never missed. A hook runs once, and there are
-- fewer than 2^64 transfers.
pub live_refines_log :
    (ops : List Op) (ref peer : List ℕ) (now : ℕ)
    → Ops 0 no_transfers ops
    → last_poll 0 ops ≤ now
    → (live_transfers (run no_transfers ops) ref peer now).1
      ≡ filter
          (λ t. asks peer (host_of t.peer))
          (filter (λ t. asks ref t.ref) (visible now (replay [] ops)))
unfolding live_transfers snapshot
live_refines_log ops ref peer now h le =
    let a = run-Agrees 0 no_transfers [] ops start-Agrees h in
    ap (λ ts. filter (λ t. asks peer (host_of t.peer)) (filter (λ t. asks ref t.ref) ts))
      (sweep-visible (last_poll 0 ops) now le a.covers)
