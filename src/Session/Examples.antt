-- ===== src/Session/Examples.antt =====
-- Tests and instances for internal/udpst/session.go.
use diagd.Base.{
  ◌≤◌, ◌+◌, All, get_or, replicate, ℕ, ◌<◌, ◌≡◌, refl, Bool, true, false, arith, none, some, length,
  List, [], ◌∷◌,
}
use diagd.Rates.{RateTable, build_rate_table}
use diagd.Rates.Order.{table_size}
use diagd.Protocol.{TestActPdu}
use diagd.Protocol.TestAct.{marshal_test_act, test_act_auth_digest_off}
use diagd.Protocol.Examples.{activation, activation-IsWire}
use diagd.Auth.{SessionKeys, compute_digest, sign_pdu}
use diagd.Auth.Wire.{with_digest, signed_test_act_accepted}
use diagd.Auth.Examples.{toy_mac, toy_mac_size}
use diagd.Session.{Session}
use diagd.Session.Police.{police, police_low, police_upper, police_dur}
use diagd.Session.Activation.{
  Activated, activation_response, activate, await_activation, on_datagram, digest_accepted,
}
use diagd.Session.Origin.{HasOrigin, activated_by_genuine}
use diagd.Session.Ranges.{InRange, police-InRange}
use diagd.Rates.{no_rate, max_burst_size}
use diagd.Protocol.Status.{marshal_status}
use diagd.Protocol.Load.{marshal_into}
use diagd.Protocol.Examples.{status, load_hdr}
use diagd.Session.Bursts.{burst_sizes}
use diagd.Session.Buffers.{InBuffer, burst_fits_buffers}
use diagd.Session.Downstream.{Receipt, deadline, datagram, start_downstream, downstream_loop}
use diagd.Session.Steering.{downstream_rows}
use diagd.Session.Upstream
use diagd.Session.Upstream.{Round, batch, run_upstream}
use diagd.Session.Statuses.{StatusRun, upstream_statuses}
use diagd.Session.Echoes.{Tells, response_is_fixed}

abbrev table : RateTable
table = build_rate_table true false

abbrev session : Session
session = record {
  table = table;
  max_test_seconds = 60;
  pver = 20;
  auth_mode = 0;
  keys = none;
  bw_mbps = 0;
  bw_upstream = false;
}

-- Thresholds the wrong way round, and a test that is too long.
abbrev odd : TestActPdu
odd = record activation { low_thresh = 200; upper_thresh = 100; test_int_time = 3600 }

abbrev any_class : ℕ → Bool
any_class c = true

has_rows : 0 < length table.rows
has_rows = omega (arith, (table_size true false).0)

police-InRange_example : InRange session (police any_class session odd)
police-InRange_example = police-InRange any_class session odd has_rows

response_is_fixed_example :
    let p = police any_class session odd in
    let resp = activation_response session p odd in
    Tells session p resp × (police any_class session resp ≡ p)
response_is_fixed_example =
    response_is_fixed any_class session odd (omega arith) (omega (arith, (table_size true false).0))
      refl

abbrev keys : SessionKeys
keys = record { client = b'c' ∷ []; server = b's' ∷ [] }

-- A session with keys that runs mode 1.
abbrev keyed : Session
keyed = record session { auth_mode = 1; keys = some keys }

abbrev digest : List ℕ
digest = compute_digest toy_mac keys.client (marshal_test_act activation) test_act_auth_digest_off

abbrev sealed : List ℕ
sealed = sign_pdu toy_mac keys.client (marshal_test_act activation) test_act_auth_digest_off

abbrev asked : TestActPdu
asked = record activation { auth = with_digest activation.auth digest }

-- A stray datagram from another address, then the signed request.
abbrev arrivals : List (Bool × List ℕ)
arrivals = (false, 1 ∷ []) ∷ ((true, sealed) ∷ [])

abbrev activated : Activated
activated = activate toy_mac any_class keyed asked 1700000000

is_activated : await_activation toy_mac any_class keyed arrivals 1700000000 ≡ some activated
unfolding await_activation on_datagram digest_accepted
is_activated = ground (
  arith,
  signed_test_act_accepted toy_mac toy_mac_size keys.client activation activation-IsWire refl,
)

activated_by_genuine_example : HasOrigin toy_mac any_class keyed arrivals 1700000000 activated
activated_by_genuine_example =
    activated_by_genuine toy_mac any_class keyed arrivals 1700000000 activated is_activated

policed : (police_low odd ≡ 30) × ((police_upper odd ≡ 90) × (police_dur 60 odd ≡ 60))
unfolding police_low police_upper police_dur
policed = (refl, (refl, refl))

abbrev no_draw : ℕ → ℕ
no_draw n = 0

burst_fits_buffers_example :
    let r = get_or (build_rate_table true false).rows 999 no_rate in
    let first = burst_sizes no_draw true r.udp_payload1 r.burst_size1 0 in
    let second = burst_sizes no_draw true r.udp_payload2 r.burst_size2 r.udp_addon2 in
    ((length first ≤ max_burst_size + 1) × All InBuffer first)
    × ((length second ≤ max_burst_size + 1) × All InBuffer second)
burst_fits_buffers_example = burst_fits_buffers true false 999 no_draw true (omega arith)

abbrev receipts : List (ℕ × Receipt)
receipts = (1000, datagram true (marshal_status status) 2000) ∷ ((3000, deadline) ∷ [])

downstream_rows_example :
    All
      (λ d. d.index < length table.rows)
      (downstream_loop (start_downstream session (police any_class session odd) 500) receipts [])
downstream_rows_example = downstream_rows any_class session odd true false 500 receipts refl

abbrev rounds : List Round
rounds =
    record { now = 60000000; wall = 7; read = Upstream.deadline }
    ∷ (record {
      now = 120000000;
      wall = 8;
      read = batch 120000001 ((true, marshal_into load_hdr (replicate 40 0)) ∷ []);
    }
        ∷ [])

upstream_statuses_example :
    StatusRun table 0 (run_upstream session (police any_class session odd) 0 rounds 200000000).1
upstream_statuses_example =
    upstream_statuses any_class session odd true false 0 200000000 rounds refl (omega arith)
