-- ===== src/Session/Wakes.antt =====
-- What one round of sendLoop of internal/udpst/session.go does, once sleepUntil has let it go on.
use diagd.Base.{
  ℕ, ◌≤◌, ◌<◌, ◌≡◌, ◌⊎◌, inl, inr, Bool, true, false, List, [], ◌∷◌, some, All, length,
  length-append, arith,
}
use diagd.Rates.{Rate}
use diagd.Session.Pacing.{
  transmitter1, transmitter2, Deadlines, SendRound, transmit, pace, wake, sleep_until, spin_until,
}
use diagd.Session.Schedule.{transmit_few, transmit_due, transmit_reached}

spin_until_le :
    (target : ℕ) (readings : List (ℕ × Bool)) (woken : ℕ)
    → spin_until target readings ≡ some woken
    → target ≤ woken
unfolding spin_until
spin_until_le target [] woken e = absurd (ground (arith, e))
spin_until_le target ((now, closed) ∷ rest) woken e =
    ground (arith, e, spin_until_le target rest woken)

-- While the test is not over, sleepUntil ends at its target or later.
sleep_until_le :
    (target : ℕ) (readings : List (ℕ × Bool)) (woken : ℕ)
    → All (λ r. r.1 ≡ false) readings
    → sleep_until target readings ≡ some woken
    → target ≤ woken
unfolding sleep_until
sleep_until_le target [] woken h e = absurd (ground (arith, e))
sleep_until_le target ((now, closed) ∷ rest) woken h e =
    ground (arith, e, h.0, spin_until_le target rest woken, sleep_until_le target rest woken h.1)

wake_due :
    (row : Rate) (d : Deadlines) (at now : ℕ)
    → wake row d ≡ some at
    → at ≤ now
    → (((transmitter1 row).active ≡ true) × (d.next1 ≤ now))
      ⊎ (((transmitter2 row).active ≡ true) × (d.next2 ≤ now))
unfolding wake
wake_due row d at now e le = ground (arith, e, le)

pace-some :
    (row : Rate) (d : Deadlines) (r : SendRound)
    → (((transmitter1 row).active ≡ true) × (d.next1 ≤ r.now))
      ⊎ (((transmitter2 row).active ≡ true) × (d.next2 ≤ r.now))
    → 1 ≤ length (pace row d r).shots
unfolding pace
pace-some row d r due =
    let first = (transmit (transmitter1 row) r.moments1 r.now d.next1).0 in
    let second = (transmit (transmitter2 row) r.moments2 r.now d.next2).0 in
    elim due [
      | inl (on, le) ↦ omega (
        arith,
        length-append first second,
        transmit_due (transmitter1 row) r.moments1 r.now d.next1 on le,
      )
      | inr (on, le) ↦ omega (
        arith,
        length-append first second,
        transmit_due (transmitter2 row) r.moments2 r.now d.next2 on le,
      )
    ]

-- The earliest deadline of the transmitters of a row that are at work.
pub record IsEarliest (row : Rate) (d : Deadlines) (at : ℕ) : Type 0 where
  pub first : (transmitter1 row).active ≡ true → at ≤ d.next1
  pub second : (transmitter2 row).active ≡ true → at ≤ d.next2
  pub due :
      (((transmitter1 row).active ≡ true) × (at ≡ d.next1))
      ⊎ (((transmitter2 row).active ≡ true) × (at ≡ d.next2))

wake-IsEarliest : (row : Rate) (d : Deadlines) (at : ℕ) → wake row d ≡ some at → IsEarliest row d at
unfolding wake
wake-IsEarliest row d at e = record {
  first = λ on. ground (arith, e, on);
  second = λ on. ground (arith, e, on);
  due = ground (arith, e);
}

-- The first of the readings of the clock that has reached a time.
unfoldable pub IsFirst : ℕ → ℕ → List (ℕ × Bool) → Type 0
IsFirst at woken [] = true ≡ false
IsFirst at woken ((now, closed) ∷ rest) =
    ((at ≤ now) × (woken ≡ now)) ⊎ ((now < at) × IsFirst at woken rest)

spin_until-IsFirst :
    (target : ℕ) (readings : List (ℕ × Bool)) (woken : ℕ)
    → spin_until target readings ≡ some woken
    → IsFirst target woken readings
unfolding spin_until IsFirst
spin_until-IsFirst target [] woken e = absurd (ground (arith, e))
spin_until-IsFirst target ((now, closed) ∷ rest) woken e =
    ground (arith, e, spin_until-IsFirst target rest woken)

-- While the test is not over, sleepUntil ends with the first reading at its target or later.
sleep_until-IsFirst :
    (target : ℕ) (readings : List (ℕ × Bool)) (woken : ℕ)
    → All (λ r. r.1 ≡ false) readings
    → sleep_until target readings ≡ some woken
    → IsFirst target woken readings
unfolding sleep_until IsFirst
sleep_until-IsFirst target [] woken h e = absurd (ground (arith, e))
sleep_until-IsFirst target ((now, closed) ∷ rest) woken h e =
    ground (
      arith,
      e,
      h.0,
      spin_until-IsFirst target rest woken,
      sleep_until-IsFirst target rest woken h.1,
    )

-- A round sleeps until the earliest deadline of the transmitters at work: while the test is not over,
-- it goes on with the first reading of the clock that has reached it. It then makes a call at least,
-- 20 at most for each transmitter, and leaves neither deadline in the past.
pub round_on_time :
    (row : Rate) (d : Deadlines) (r : SendRound) (at woken : ℕ) (readings : List (ℕ × Bool))
    → wake row d ≡ some at
    → All (λ x. x.1 ≡ false) readings
    → sleep_until at readings ≡ some woken
    → woken ≤ r.now
    → let t = pace row d r in
      (IsEarliest row d at × IsFirst at woken readings)
      × (((1 ≤ length t.shots) × (length t.shots ≤ 40))
          × ((r.now ≤ t.deadlines.next1) × (r.now ≤ t.deadlines.next2)))
unfolding pace
round_on_time row d r at woken readings e running slept le =
    let at_least = sleep_until_le at readings woken running slept in
    let first = (transmit (transmitter1 row) r.moments1 r.now d.next1).0 in
    let second = (transmit (transmitter2 row) r.moments2 r.now d.next2).0 in
    (
      (wake-IsEarliest row d at e, sleep_until-IsFirst at readings woken running slept),
      (
        (
          pace-some row d r (wake_due row d at r.now e (omega (arith, at_least, le))),
          omega (
            arith,
            length-append first second,
            transmit_few (transmitter1 row) r.moments1 r.now d.next1,
            transmit_few (transmitter2 row) r.moments2 r.now d.next2,
          ),
        ),
        (
          transmit_reached (transmitter1 row) r.moments1 r.now d.next1,
          transmit_reached (transmitter2 row) r.moments2 r.now d.next2,
        ),
      ),
    )
