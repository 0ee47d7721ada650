-- ===== src/Session/Cadence.antt =====
-- What the loop of sendLoop of internal/udpst/session.go keeps to, round after round.
use diagd.Base.{ℕ, ◌+◌, ◌-◌, ◌/◌, ◌||◌, ◌<◌, ◌≡◌, true, false, if◌then◌else◌, List, map, get_or}
use diagd.Rates.{Rate, RateTable, no_rate}
use diagd.Session.Bursts.{Moment}
use diagd.Session.Pacing.{Transmitter, transmitter1, transmitter2, SendRound}
use diagd.Session.Schedule.{Prompt}

-- A round that neither ends the test nor stops, for a row.
pub record SteadyRound (table : RateTable) (row : Rate) (r : SendRound) : Type 0 where
  pub running : r.closed ≡ false
  pub unstopped : r.stop ≡ false
  pub looked : get_or table.rows r.index no_rate ≡ row

-- A row has a transmitter at work.
abbrev pub HasTransmitter : Rate → Type 0
HasTransmitter row = ((transmitter1 row).active || (transmitter2 row).active) ≡ true

-- The rounds as each transmitter meets them.
abbrev pub rounds1 : List SendRound → List (ℕ × (ℕ → Moment))
rounds1 rs = map (λ r. (r.now, r.moments1)) rs

abbrev pub rounds2 : List SendRound → List (ℕ × (ℕ → Moment))
rounds2 rs = map (λ r. (r.now, r.moments2)) rs

-- The calls that a transmitter of a row owes by a time: one at its deadline and one for each interval
-- since.
abbrev pub owed : Transmitter → ℕ → ℕ → ℕ
owed t end next = if t.active then (end + t.interval - next) / t.interval else 0

-- A transmitter, if it is at work, begins in front of its deadline, and the rounds are prompt for it.
abbrev pub InTime : Transmitter → ℕ → ℕ → List (ℕ × (ℕ → Moment)) → Type 0
InTime t prev next rs = t.active ≡ true → (prev < next) × Prompt t.interval next rs
