-- ===== src/Live/Log.antt =====
-- The registry of internal/tr143/live.go as a log of all transfers, from which nothing is deleted.
use diagd.Base.{
  ℕ, suc, ◌+◌, ◌-◌, ◌/◌, Bool, ◌||◌, leb, ◌≤◌, ◌<◌, ◌≡◌, true, false, not, List, [], ◌∷◌,
  if◌then◌else◌, map, filter, length, All,
}
use diagd.Live.{
  Test, LiveTransfer, LiveEntry, LiveRegistry, at_id, begin, store_bytes, finish, snapshot,
}

pub data Op : Type 0 where
  started : Test → List ℕ → List ℕ → ℕ → Op
  stored : ℕ → ℕ → Op
  ended : ℕ → ℕ → Op
  polled : ℕ → Op

unfoldable pub step : LiveRegistry → Op → LiveRegistry
step r (started test ref peer now) = (begin r test ref peer now).0
step r (stored id n) = store_bytes id n r
step r (ended id now) = finish id now r
step r (polled now) = (snapshot r now).0

unfoldable pub run : LiveRegistry → List Op → LiveRegistry
run r [] = r
run r (op ∷ ops) = run (step r op) ops

-- All transfers, the newest first; the key of one is the number of those up to it.
abbrev pub Log : Type 0
Log = List (ℕ × LiveEntry)

-- A transfer ends once.
abbrev pub end_once : ℕ → LiveEntry → LiveEntry
end_once now e = if e.done then e else record e { done = true; ended = now }

unfoldable pub log_step : Log → Op → Log
log_step l (started test ref peer now) =
    (
      suc (length l),
      record {
        test = test;
        ref = ref;
        peer = peer;
        start = now;
        bytes = 0;
        done = false;
        ended = 0;
      },
    )
    ∷ l
log_step l (stored id n) = at_id id (λ e. record e { bytes = n }) l
log_step l (ended id now) = at_id id (end_once now) l
log_step l (polled now) = l

unfoldable pub replay : Log → List Op → Log
replay l [] = l
replay l (op ∷ ops) = replay (log_step l op) ops

-- The transfer of a key has not ended.
abbrev pub IsRunning : ℕ → List (ℕ × LiveEntry) → Type 0
IsRunning id live = All (λ x. x.0 ≡ id → x.1.done ≡ false) live

-- The clock of the polls does not go back from `t` on, a hook runs once, and there are fewer than
-- 2^64 transfers.
unfoldable pub Ops : ℕ → LiveRegistry → List Op → Type 0
Ops t r [] = Unit {0}
Ops t r (started test ref peer now ∷ ops) =
    (r.seq < 18446744073709551615) × Ops t (step r (started test ref peer now)) ops
Ops t r (stored id n ∷ ops) = Ops t (step r (stored id n)) ops
Ops t r (ended id now ∷ ops) = IsRunning id r.live × Ops t (step r (ended id now)) ops
Ops t r (polled now ∷ ops) = (t ≤ now) × Ops now (step r (polled now)) ops

-- The time of the last poll.
unfoldable pub last_poll : ℕ → List Op → ℕ
last_poll t [] = t
last_poll t (polled now ∷ ops) = last_poll now ops
last_poll t (op ∷ ops) = last_poll t ops

-- A transfer runs, or has ended in the 15 s before `now`.
unfoldable pub shows : ℕ → LiveEntry → Bool
shows now e = not e.done || leb now (e.ended + 15000000000)

-- What there is to tell of a transfer: its own time, to its end or to `now`, in milliseconds.
unfoldable pub told_of : ℕ → LiveEntry → LiveTransfer
told_of now e =
    let until : ℕ = if e.done then e.ended else now in
    record {
      test = e.test;
      ref = e.ref;
      peer = e.peer;
      bytes = e.bytes;
      elapsed_ms = (until - e.start) / 1000000;
      done = e.done;
    }

-- A log as a poll at `now` shows it.
unfoldable pub visible : ℕ → Log → List LiveTransfer
visible now l = map (λ x. told_of now x.1) (filter (λ x. shows now x.1) l)
