-- ===== src/Session/Schedule.antt =====
-- When sendLoop of internal/udpst/session.go sends: the bursts against the deadlines of its row.
use diagd.Base.{
  ℕ, zero, suc, ◌+◌, ◌*◌, ◌-◌, ◌/◌, ◌≤◌, ◌<◌, ◌≡◌, refl, sym, ◌⊎◌, inl, inr, true, List, [], ◌∷◌,
  ◌++◌, length, length-append, arith,
}
use native.Mathlib.Nat.{suc-mul, add-mul, le-div_iff_mul-le, div-eq_of_lt-le}
use diagd.Session.Bursts.{Moment, Shot}
use diagd.Session.Pacing.{Transmitter, catch_up, transmit}

-- A loop that catches up makes at most `left` calls and moves the deadline by an interval with each,
-- not past the next interval; it ends in front of its deadline or with its turns used up.
record CaughtUp (iv now left next k after : ℕ) : Type 0 where
  pub few : k ≤ left
  pub moved : after ≡ next + k * iv
  pub still : k ≡ 0 → after ≡ next
  pub close : 1 ≤ k → after ≤ now + iv
  pub ended : (now < after) ⊎ (k ≡ left)

catch_up-CaughtUp :
    (t : Transmitter) (moments : ℕ → Moment) (now left next : ℕ)
    → let r = catch_up t moments now left next in CaughtUp t.interval now left next (length r.0) r.1
unfolding catch_up
catch_up-CaughtUp t moments now zero next = record {
  few = omega arith;
  moved = omega arith;
  still = λ e. refl;
  close = λ h. absurd (omega (arith, h));
  ended = inr (omega arith);
}
catch_up-CaughtUp t moments now (suc left) next =
    let r = catch_up-CaughtUp t moments now left (next + t.interval) in
    let k = length (catch_up t moments now left (next + t.interval)).0 in
    ground (arith, r.few, r.moved, r.still, r.close, r.ended, suc-mul k t.interval)

-- What one round makes of an active transmitter's deadline: never earlier than the intervals of its
-- calls ask for, and exactly there where the round comes within 20 intervals of it.
pub record Sent (iv now next k after : ℕ) : Type 0 where
  pub later : next + k * iv ≤ after
  pub reached : now ≤ after
  pub close : 1 ≤ k → after ≤ now + iv
  pub exact : now < next + 20 * iv → (now < after) × (after ≡ next + k * iv)

pub transmit-Sent :
    (t : Transmitter) (moments : ℕ → Moment) (now next : ℕ)
    → t.active ≡ true
    → let r = transmit t moments now next in Sent t.interval now next (length r.0) r.1
unfolding transmit
transmit-Sent t moments now next on =
    let r = catch_up-CaughtUp t moments now 20 next in
    ground (arith, on, r.few, r.moved, r.still, r.close, r.ended)

-- A round makes at most 20 calls for a transmitter.
pub transmit_few :
    (t : Transmitter) (moments : ℕ → Moment) (now next : ℕ)
    → length (transmit t moments now next).0 ≤ 20
unfolding transmit
transmit_few t moments now next = ground (arith, (catch_up-CaughtUp t moments now 20 next).few)

-- A round that comes at or behind the deadline of an active transmitter makes a call for it.
pub transmit_due :
    (t : Transmitter) (moments : ℕ → Moment) (now next : ℕ)
    → t.active ≡ true
    → next ≤ now
    → 1 ≤ length (transmit t moments now next).0
unfolding transmit catch_up
transmit_due t moments now next on le = ground (arith, on, le)

-- No round leaves a deadline in the past.
pub transmit_reached :
    (t : Transmitter) (moments : ℕ → Moment) (now next : ℕ) → now ≤ (transmit t moments now next).1
unfolding transmit
transmit_reached t moments now next = ground arith

-- The part of a transmitter in rounds at the given times, under one row.
unfoldable pub rounds_of : Transmitter → List (ℕ × (ℕ → Moment)) → ℕ → List Shot × ℕ
rounds_of t [] next = ([], next)
rounds_of t ((now, moments) ∷ rest) next =
    let (shots, after) = transmit t moments now next in
    let (more, end) = rounds_of t rest after in (shots ++ more, end)

-- The times of the rounds do not go back, from `prev` on.
unfoldable pub Ordered : ℕ → List (ℕ × (ℕ → Moment)) → Type 0
Ordered prev [] = Unit {0}
Ordered prev ((now, moments) ∷ rest) = (prev ≤ now) × Ordered now rest

-- Each round comes within 20 intervals of the one before, and the first of `from`.
unfoldable pub Prompt : ℕ → ℕ → List (ℕ × (ℕ → Moment)) → Type 0
Prompt iv from [] = Unit {0}
Prompt iv from ((now, moments) ∷ rest) = (now < from + 20 * iv) × Prompt iv now rest

-- The time of the last round.
unfoldable pub latest : ℕ → List (ℕ × (ℕ → Moment)) → ℕ
latest prev [] = prev
latest prev ((now, moments) ∷ rest) = latest now rest

latest_ge : (prev : ℕ) (rs : List (ℕ × (ℕ → Moment))) → Ordered prev rs → prev ≤ latest prev rs
unfolding Ordered latest
latest_ge prev [] h = omega arith
latest_ge prev ((now, moments) ∷ rest) h = omega (arith, h.0, latest_ge now rest h.1)

zero-or-pos : (k : ℕ) → (k ≡ 0) ⊎ (1 ≤ k)
zero-or-pos zero = inl refl
zero-or-pos (suc k) = inr (omega arith)

at_most :
    (t : Transmitter) (rs : List (ℕ × (ℕ → Moment))) (prev next : ℕ)
    → t.active ≡ true
    → Ordered prev rs
    → 1 ≤ length (rounds_of t rs next).0
    → next + length (rounds_of t rs next).0 * t.interval ≤ latest prev rs + t.interval
unfolding rounds_of Ordered latest
at_most t [] prev next on h some_call = absurd (omega (arith, some_call))
at_most t ((now, moments) ∷ rest) prev next on h some_call =
    let s = transmit-Sent t moments now next on in
    let (shots, after) = transmit t moments now next in
    let more = (rounds_of t rest after).0 in
    ground (
      arith,
      s.later,
      s.close,
      some_call,
      latest_ge now rest h.1,
      length-append shots more,
      add-mul (length shots) (length more) t.interval,
      at_most t rest now after on h.1,
    )

in_step :
    (t : Transmitter) (rs : List (ℕ × (ℕ → Moment))) (prev from next : ℕ)
    → t.active ≡ true
    → from ≤ next
    → prev < next
    → Prompt t.interval from rs
    → latest prev rs < next + length (rounds_of t rs next).0 * t.interval
unfolding rounds_of Prompt latest
in_step t [] prev from next on le lt h = omega (arith, lt)
in_step t ((now, moments) ∷ rest) prev from next on le lt h =
    let s = transmit-Sent t moments now next on in
    let (shots, after) = transmit t moments now next in
    let more = (rounds_of t rest after).0 in
    let (gt, e) = s.exact (omega (arith, h.0, le)) in
    ground (
      arith,
      e,
      length-append shots more,
      add-mul (length shots) (length more) t.interval,
      in_step t rest now now after on (omega (arith, gt)) gt h.1,
    )

-- However late its rounds come, an active transmitter with a row's interval makes by the last of
-- them at most one call for each interval since its first deadline; the times do not go back.
pub never_above_nominal :
    (t : Transmitter) (rs : List (ℕ × (ℕ → Moment))) (prev next : ℕ)
    → t.active ≡ true
    → 1 ≤ t.interval
    → Ordered prev rs
    → length (rounds_of t rs next).0 ≤ (latest prev rs + t.interval - next) / t.interval
never_above_nominal t rs prev next on pos ordered =
    let k = length (rounds_of t rs next).0 in
    elim (zero-or-pos k) [
      | inl e ↦ omega (arith, e)
      | inr h ↦ (le-div_iff_mul-le pos).1 (omega (arith, at_most t rs prev next on ordered h))
    ]

-- Where each round comes within 20 intervals of the one before, and the first within 20 of its
-- deadline, an active transmitter makes exactly one call for each interval from its first deadline
-- to the last round, that deadline included: no tick is lost and none is added.
pub bursts_exact :
    (t : Transmitter) (rs : List (ℕ × (ℕ → Moment))) (prev next : ℕ)
    → t.active ≡ true
    → 1 ≤ t.interval
    → prev < next
    → Ordered prev rs
    → Prompt t.interval next rs
    → length (rounds_of t rs next).0 ≡ (latest prev rs + t.interval - next) / t.interval
bursts_exact t rs prev next on pos before ordered prompt =
    let k = length (rounds_of t rs next).0 in
    let upper = (le-div_iff_mul-le pos).0 (never_above_nominal t rs prev next on pos ordered) in
    let lower = in_step t rs prev next next on (omega arith) before prompt in
    sym (div-eq_of_lt-le t.interval upper (omega (arith, lower, add-mul k 1 t.interval)))
