-- ===== src/Session/Pacing.antt =====
-- internal/udpst/session.go: `sendLoop`, a round of its loop at a time, and `sleepUntil`. A round
-- has what it loads and its readings of the clock; what it sends is a list of calls of sendBurst.
use diagd.Base.{
  ℕ, zero, suc, ◌+◌, ◌-◌, ◌*◌, Bool, true, false, not, ◌&&◌, ◌||◌, List, [], ◌∷◌, ◌++◌, Option,
  none, some, ltb, leb, if◌then◌else◌, get_or,
}
use diagd.Clock.{millisecond, microsecond}
use diagd.Rates.{Rate, RateTable, no_rate}
use diagd.Protocol.{test_action_test, test_action_stop2}
use diagd.Session.Bursts.{Moment, Shot, Burst, min_size, fire_all}

-- What a row says of one of the two transmitters.
pub record Transmitter : Type 0 where
  pub active : Bool
  pub interval : ℕ
  pub field : ℕ
  pub burst : ℕ
  pub addon : ℕ

abbrev pub transmitter1 : Rate → Transmitter
transmitter1 row = record {
  active = ltb 0 row.tx_interval1 && ltb 0 row.burst_size1;
  interval = row.tx_interval1 * microsecond;
  field = row.udp_payload1;
  burst = row.burst_size1;
  addon = 0;
}

abbrev pub transmitter2 : Rate → Transmitter
transmitter2 row = record {
  active = ltb 0 row.tx_interval2 && (ltb 0 row.burst_size2 || ltb 0 row.udp_addon2);
  interval = row.tx_interval2 * microsecond;
  field = row.udp_payload2;
  burst = row.burst_size2;
  addon = row.udp_addon2;
}

abbrev pub shot_of : Transmitter → Moment → Shot
shot_of t m = record {
  moment = m;
  action = test_action_test;
  field = t.field;
  burst = t.burst;
  addon = t.addon;
}

-- The loop that catches up, with `left` of its turns left: its calls and the deadline after it.
-- `moments n` surrounds the call that leaves n turns.
unfoldable pub catch_up : Transmitter → (ℕ → Moment) → ℕ → ℕ → ℕ → List Shot × ℕ
catch_up t moments now zero next = ([], next)
catch_up t moments now (suc left) next =
    let (shots, after) = catch_up t moments now left (next + t.interval) in
    if leb next now then (shot_of t (moments left) ∷ shots, after) else ([], next)

-- A transmitter's part of a round.
unfoldable pub transmit : Transmitter → (ℕ → Moment) → ℕ → ℕ → List Shot × ℕ
unfolding catch_up
transmit t moments now next =
    let (shots, after) = catch_up t moments now 20 next in
    if t.active
    then (shots, if ltb after now then now + t.interval else after)
    else ([], now + 10 * millisecond)

-- The deadlines of the transmitters.
pub record Deadlines : Type 0 where
  pub next1 : ℕ
  pub next2 : ℕ

-- The time up to which a round sleeps; no deadline is the zero time.
unfoldable pub wake : Rate → Deadlines → Option ℕ
wake row d =
    let first : Option ℕ = if (transmitter1 row).active then some d.next1 else none in
    if (transmitter2 row).active
    then elim first [
      | none ↦ some d.next2
      | some at ↦ if ltb d.next2 at then some d.next2 else some at
    ]
    else first

-- The spinning loop of sleepUntil over the readings of the clock: the reading that ends it.
unfoldable pub spin_until : ℕ → List (ℕ × Bool) → Option ℕ
spin_until target [] = none
spin_until target ((now, closed) ∷ rest) =
    let more = spin_until target rest in if ltb now target then more else some now

-- sleepUntil over the readings of the clock, each with whether `done` closes before the timer after
-- it: the reading that ends it.
unfoldable pub sleep_until : ℕ → List (ℕ × Bool) → Option ℕ
unfolding spin_until
sleep_until target [] = none
sleep_until target ((now, closed) ∷ rest) =
    let more = sleep_until target rest in
    let spun = spin_until target rest in
    if leb target now
    then some now
    else (if ltb (500 * microsecond) (target - now)
        then (if closed then some now else more)
        else spun)

-- `closed` is `done` at the top of the loop and `quit` in a wait of 10 or 50 ms; `now` is the
-- reading after the sleep.
pub record SendRound : Type 0 where
  pub closed : Bool
  pub stop : Bool
  pub index : ℕ
  pub quit : Bool
  pub now : ℕ
  pub at_stop : Moment
  pub moments1 : ℕ → Moment
  pub moments2 : ℕ → Moment

-- What a round does: its calls, the deadlines after it, and whether the loop goes on.
pub record SendTurn : Type 0 where
  pub shots : List Shot
  pub deadlines : Deadlines
  pub goes_on : Bool

-- The single datagram that tells the client to stop.
abbrev pub stop_shot : Bool → Moment → Shot
stop_shot ipv6 m = record {
  moment = m;
  action = test_action_stop2;
  field = min_size ipv6;
  burst = 1;
  addon = 0;
}

-- The part of a round that paces, by a row.
unfoldable pub pace : Rate → Deadlines → SendRound → SendTurn
unfolding transmit
pace row d r =
    let (first, next1) = transmit (transmitter1 row) r.moments1 r.now d.next1 in
    let (second, next2) = transmit (transmitter2 row) r.moments2 r.now d.next2 in
    record {
      shots = first ++ second;
      deadlines = record { next1 = next1; next2 = next2 };
      goes_on = true;
    }

-- A round that sends, by a row: without a transmitter it waits.
unfoldable pub wait_or_pace : Rate → Deadlines → SendRound → SendTurn
wait_or_pace row d r =
    if not (transmitter1 row).active && not (transmitter2 row).active
    then record { shots = []; deadlines = d; goes_on = not r.quit }
    else pace row d r

unfoldable pub send_turn : Bool → RateTable → Deadlines → SendRound → SendTurn
send_turn ipv6 table d r =
    if r.closed
    then record { shots = []; deadlines = d; goes_on = false }
    else (if r.stop
        then record { shots = stop_shot ipv6 r.at_stop ∷ []; deadlines = d; goes_on = not r.quit }
        else wait_or_pace (get_or table.rows r.index no_rate) d r)

-- The calls of the loop over the rounds that happen.
unfoldable pub send_rounds : Bool → RateTable → Deadlines → List SendRound → List Shot
unfolding send_turn
send_rounds ipv6 table d [] = []
send_rounds ipv6 table d (r ∷ rs) =
    let t = send_turn ipv6 table d r in
    let rest = send_rounds ipv6 table t.deadlines rs in
    if t.goes_on then t.shots ++ rest else t.shots

-- `draw n` is rand.IntN(n).
abbrev pub first_deadlines : ℕ → (ℕ → ℕ) → Deadlines
first_deadlines now draw =
    let first = now + (5 + draw 46) * millisecond in record { next1 = first; next2 = first }

-- sendLoop from its start at `now`.
unfoldable pub send_loop : Bool → RateTable → ℕ → (ℕ → ℕ) → List SendRound → Burst
unfolding send_rounds fire_all
send_loop ipv6 table now draw rounds =
    fire_all ipv6 0 (send_rounds ipv6 table (first_deadlines now draw) rounds)
