-- ===== src/Session/Steering.antt =====
-- The loops of a session of internal/udpst/session.go only ever use rows of the table.
use diagd.Base.{
  ℕ, ◌<◌, ◌≡◌, refl, subst, ◌∙◌, Bool, true, false, List, [], ◌∷◌, none, some, All, length, arith,
  if◌then◌else◌,
}
use diagd.Rates.{RateTable, build_rate_table}
use diagd.Protocol.{StatusPdu, TestActPdu}
use diagd.Protocol.Status.{parse_status}
use diagd.Algo.{RateController, TrialInput, adjust}
use diagd.Algo.Bounds.{IsValid, adjust-IsValid}
use diagd.Algo.Direction.{search_rate-SameSettings}
use diagd.Session.{Session, new_rate_controller}
use diagd.Session.Police.{police}
use diagd.Session.Ranges.{new_controller-IsValid}
use diagd.Session.Downstream.{
  Downstream, deadline, failed, datagram, start_downstream, on_status, Receipt, downstream_turn,
  downstream_loop, reported,
}

adjust_table : (rc : RateController) (i : TrialInput) → (adjust rc i).table ≡ rc.table
unfolding adjust
adjust_table rc i = ground (arith, search_rate-SameSettings rc i)

-- A controller over the table that is valid.
pub record Steers (t : RateTable) (rc : RateController) : Type 0 where
  pub valid : IsValid rc
  pub over : rc.table ≡ t

pub adjust-Steers :
    (t : RateTable) (rc : RateController) (i : TrialInput) → Steers t rc → Steers t (adjust rc i)
adjust-Steers t rc i s = record {
  valid = adjust-IsValid rc i s.valid;
  over = adjust_table rc i ∙ s.over;
}

pub Steers-bound : (t : RateTable) (rc : RateController) → Steers t rc → rc.index < length t.rows
Steers-bound t rc s = subst (λ u. rc.index < length u.rows) s.over s.valid.in_table

-- The index that the send loop reads is the controller's.
pub record InStep (t : RateTable) (d : Downstream) : Type 0 where
  pub steers : Steers t d.rc
  pub same : d.index ≡ d.rc.index

status-InStep :
    (t : RateTable) (d : Downstream) (rx_now : ℕ) (st : StatusPdu)
    → InStep t d
    → InStep t (on_status d rx_now st).0
unfolding on_status
status-InStep t d rx_now st h = ground (arith, adjust-Steers t d.rc (reported st) h.steers)

turn-InStep :
    (t : RateTable) (d : Downstream) (now : ℕ) (receipt : Receipt)
    → InStep t d
    → InStep t (downstream_turn d now receipt).0
unfolding downstream_turn
turn-InStep t d now deadline h = ground (arith, h)
turn-InStep t d now failed h = ground (arith, h)
turn-InStep t d now (datagram from_peer raw rx_now) h =
    elim (parse_status raw)
        as (λ o.
          parse_status raw ≡ o
          → InStep t (downstream_turn d now (datagram from_peer raw rx_now)).0) [
            | none ↦ λ e. ground (arith, h, e)
            | some st ↦ λ e. ground (arith, h, e, status-InStep t d rx_now st h)
          ]
      refl

pub start-Steers :
    (set_class : ℕ → Bool) (s : Session) (req : TestActPdu) (jumbo traditional : Bool)
    → s.table ≡ build_rate_table jumbo traditional
    → Steers s.table (new_rate_controller s.table (police set_class s req))
start-Steers set_class s req jumbo traditional e = record {
  valid = new_controller-IsValid set_class s req jumbo traditional e;
  over = unfold new_rate_controller in refl;
}

abbrev NamesRow : Session → Downstream → Type 0
NamesRow s d = d.index < length s.table.rows

here-NamesRow : (s : Session) (d : Downstream) → InStep s.table d → NamesRow s d
here-NamesRow s d h = omega (arith, h.same, Steers-bound s.table d.rc h.steers)

loop-NamesRow :
    (s : Session) (d : Downstream) (rounds : List (ℕ × Receipt)) (past : List Downstream)
    → InStep s.table d
    → All (NamesRow s) past
    → All (NamesRow s) (downstream_loop d rounds past)
unfolding downstream_loop
loop-NamesRow s d [] past h k = (here-NamesRow s d h, k)
loop-NamesRow s d ((now, receipt) ∷ rest) past h k =
    elim (downstream_turn d now receipt).1
      as (λ b. All (NamesRow s) (
        if b
        then downstream_loop (downstream_turn d now receipt).0 rest (d ∷ past)
        else (downstream_turn d now receipt).0 ∷ (d ∷ past))) [
          | true ↦
              loop-NamesRow s (downstream_turn d now receipt).0 rest (d ∷ past) moved
                (here-NamesRow s d h, k)
          | false ↦
              (here-NamesRow s (downstream_turn d now receipt).0 moved, (here-NamesRow s d h, k))
        ]
  where
    moved : InStep s.table (downstream_turn d now receipt).0
    moved = turn-InStep s.table d now receipt h

-- Through a downstream test with policed parameters over a table of the server, the index that the
-- send loop reads names a row of the table at every point, whatever the client reports.
pub downstream_rows :
    (set_class : ℕ → Bool) (s : Session) (req : TestActPdu) (jumbo traditional : Bool) (start : ℕ)
    (rounds : List (ℕ × Receipt))
    → s.table ≡ build_rate_table jumbo traditional
    → All
        (λ d. d.index < length s.table.rows)
        (downstream_loop (start_downstream s (police set_class s req) start) rounds [])
unfolding start_downstream
downstream_rows set_class s req jumbo traditional start rounds e =
    loop-NamesRow s (start_downstream s (police set_class s req) start) rounds []
      (record { steers = start-Steers set_class s req jumbo traditional e; same = refl }) tt
