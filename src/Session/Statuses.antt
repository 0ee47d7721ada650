-- ===== src/Session/Statuses.antt =====
-- The status PDUs that runUpstream of internal/udpst/session.go sends.
use diagd.Base.{
  ℕ, ◌+◌, ◌<◌, ◌≤◌, ◌≡◌, refl, sym, subst, ◌∙◌, Bool, true, false, ◌||◌, List, [], ◌∷◌, ◌++◌,
  length, arith, ltb, leb, if◌then◌else◌, get_or,
}
use native.Mathlib.Nat.{add-zero}
use diagd.Rates.{RateTable, no_rate, build_rate_table}
use diagd.Protocol.{StatusPdu, TestActPdu}
use diagd.Accounting.Intervals.{trial_input}
use diagd.Session.{TestParams, Session}
use diagd.Session.Police.{police}
use diagd.Session.Steering.{Steers, adjust-Steers, Steers-bound, start-Steers}
use diagd.Session.Upstream.{
  Upstream, start_upstream, end_trial, trial_status, tick, receive, receive_all, deadline, failed,
  batch, Round, Turn, turn, upstream_loop, run_upstream,
}

-- A status that gives the client a row of the table.
pub record GivesRow (t : RateTable) (st : StatusPdu) : Type 0 where
  pub row : ℕ
  pub inside : row < length t.rows
  pub same : st.sr ≡ get_or t.rows row no_rate

-- Statuses numbered one by one behind `from`, each with a row of the table.
pub StatusRun : RateTable → ℕ → List StatusPdu → Type 0
StatusRun t from [] = Unit {0}
StatusRun t from (st ∷ sts) = (st.seq_no ≡ from + 1) × (GivesRow t st × StatusRun t (from + 1) sts)

StatusRun-append :
    (t : RateTable) (from : ℕ) (xs ys : List StatusPdu)
    → StatusRun t from xs
    → StatusRun t (from + length xs) ys
    → StatusRun t from (xs ++ ys)
unfolding StatusRun
StatusRun-append t from [] ys h k = subst (λ n. StatusRun t n ys) (add-zero from) k
StatusRun-append t from (x ∷ xs) ys h k = (
  h.0,
  (
    h.1.0,
    StatusRun-append t (from + 1) xs ys h.1.1 (subst (λ n. StatusRun t n ys) (omega arith) k),
  ),
)

-- What a step sends, and where it leaves the controller and the number of statuses.
record Sends (s : Session) (u v : Upstream) (sent : List StatusPdu) : Type 0 where
  run : StatusRun s.table u.status_seq sent
  steers : Steers s.table v.rc
  counted : v.status_seq ≡ u.status_seq + length sent
  short : length sent ≤ 1

tick-Sends :
    (s : Session) (p : TestParams) (now wall : ℕ) (u : Upstream)
    → Steers s.table u.rc
    → u.status_seq + 1 < 4294967296
    → Sends s u (tick s p now wall u).0 (tick s p now wall u).1
unfolding tick end_trial trial_status StatusRun
tick-Sends s p now wall u h fits =
    elim (leb u.next_status now)
      as (λ b.
        let v : Upstream = record u { stopping = u.stopping || ltb u.stop_at now } in
        let (w, st) = end_trial s p now wall v in
        let r : Upstream × List StatusPdu = if b then (w, st ∷ []) else (v, []) in
        Sends s u r.0 r.1) [
          | true ↦
              let moved = adjust-Steers s.table u.rc (trial_input u.acc) h in
              record {
                run = (
                  omega arith,
                  (record { row = _; inside = Steers-bound s.table _ moved; same = refl }, tt),
                );
                steers = moved;
                counted = omega arith;
                short = omega arith;
              }
          | false ↦ record { run = tt; steers = h; counted = omega arith; short = omega arith }
        ]

receive_keeps :
    (rx_now : ℕ) (u : Upstream) (d : Bool × List ℕ)
    → ((receive rx_now u d).rc ≡ u.rc) × ((receive rx_now u d).status_seq ≡ u.status_seq)
unfolding receive
receive_keeps rx_now u (from_peer, raw) = ground arith

receive_all_keeps :
    (rx_now : ℕ) (u : Upstream) (ds : List (Bool × List ℕ))
    → ((receive_all rx_now u ds).rc ≡ u.rc) × ((receive_all rx_now u ds).status_seq ≡ u.status_seq)
unfolding receive_all
receive_all_keeps rx_now u [] = (refl, refl)
receive_all_keeps rx_now u (d ∷ ds) =
    let one = receive_keeps rx_now u d in
    let more = receive_all_keeps rx_now (receive rx_now u d) ds in (more.0 ∙ one.0, more.1 ∙ one.1)

turn-Sends :
    (s : Session) (p : TestParams) (u : Upstream) (r : Round)
    → Steers s.table u.rc
    → u.status_seq + 1 < 4294967296
    → Sends s u (turn s p u r).state (turn s p u r).sent
unfolding turn StatusRun
turn-Sends s p u r h fits =
    elim (r.read) as (λ q. r.read ≡ q → Sends s u (turn s p u r).state (turn s p u r).sent) [
      | deadline ↦ λ e. ground (arith, e, t, stays)
      | failed ↦ λ e. ground (arith, e, t, stays)
      | batch rx_now ds ↦ λ e. ground (arith, e, received rx_now ds, stays)
    ]
      refl
  where
    v : Upstream
    v = (tick s p r.now r.wall u).0

    t : Sends s u v (tick s p r.now r.wall u).1
    t = tick-Sends s p r.now r.wall u h fits

    stays : Sends s u u []
    stays = record { run = tt; steers = h; counted = omega arith; short = omega arith }

    received :
        (rx_now : ℕ) (ds : List (Bool × List ℕ))
        → Sends s u (receive_all rx_now v ds) (tick s p r.now r.wall u).1
    received rx_now ds =
        let (same, seq) = receive_all_keeps rx_now v ds in
        record {
          run = t.run;
          steers = subst (Steers s.table) (sym same) t.steers;
          counted = seq ∙ t.counted;
          short = t.short;
        }

loop-StatusRun :
    (s : Session) (p : TestParams) (u : Upstream) (rounds : List Round)
    → Steers s.table u.rc
    → u.status_seq + length rounds < 4294967296
    → StatusRun s.table u.status_seq (upstream_loop s p u rounds).1
unfolding upstream_loop StatusRun
loop-StatusRun s p u [] h fits = tt
loop-StatusRun s p u (r ∷ rs) h fits =
    elim (u.client_done)
      as (λ b.
        let r : Upstream × List StatusPdu =
          if b then (u, []) else (if t.goes_on then (w, t.sent ++ later) else (t.state, t.sent)) in
        StatusRun s.table u.status_seq r.1) [
          | true ↦ tt
          | false ↦
              elim (t.goes_on)
                as (λ b.
                  let r : Upstream × List StatusPdu =
                    if b then (w, t.sent ++ later) else (t.state, t.sent) in
                  StatusRun s.table u.status_seq r.1) [
                    | true ↦ StatusRun-append s.table u.status_seq t.sent later sends.run (
                        subst (λ n. StatusRun s.table n later) sends.counted
                          (loop-StatusRun s p t.state rs sends.steers
                            (omega (arith, fits, sends.counted, sends.short))))
                    | false ↦ sends.run
                  ]
        ]
  where
    t : Turn
    t = turn s p u r

    w : Upstream
    w = (upstream_loop s p t.state rs).0

    later : List StatusPdu
    later = (upstream_loop s p t.state rs).1

    sends : Sends s u t.state t.sent
    sends = turn-Sends s p u r h (omega (arith, fits))

-- Every status PDU of an upstream test with policed parameters over a table of the server, in any
-- rounds, gives the client a row of the table, and the statuses are numbered from 1 on, while the
-- rounds are fewer than 2^32.
pub upstream_statuses :
    (set_class : ℕ → Bool) (s : Session) (req : TestActPdu) (jumbo traditional : Bool)
    (start stop : ℕ) (rounds : List Round)
    → s.table ≡ build_rate_table jumbo traditional
    → length rounds < 4294967296
    → StatusRun s.table 0 (run_upstream s (police set_class s req) start rounds stop).1
unfolding run_upstream start_upstream
upstream_statuses set_class s req jumbo traditional start stop rounds e fits =
    loop-StatusRun s (police set_class s req) (start_upstream s (police set_class s req) start)
      rounds (start-Steers set_class s req jumbo traditional e) (omega (arith, fits))
