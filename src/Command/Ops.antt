-- ===== src/Command/Ops.antt =====
-- cmd/diagd/ops.go: the samples of `/metrics` and the members of `/healthz`. The HELP and TYPE lines
-- and the encoding as text or JSON are not modelled, but for the order of the members; a label without a name stands for none.
pub mod Health
use diagd.Base.{
  ℕ, ◌-◌, ◌/◌, List, [], ◌∷◌, ◌++◌, Option, none, some, Bool, true, false, if◌then◌else◌,
}
use Prim.Native.String.{String, compare}
use Prim.Native.Nat.{Ordering}
use text.Mathlib.Text.{◌==◌ as str_eq}
use diagd.Clock.{second}
use diagd.Http.{Handler}
use diagd.Http.Service as Http
use diagd.Echo as Echo
use diagd.Server as Server
use diagd.Command.{Services}

-- opsState.
pub record OpsState : Type 0 where
  pub instance_name : String
  pub version : String
  pub started : ℕ
  pub http : Option Handler
  pub echo : Option Echo.EchoServer
  pub tr471 : Option Server.Server

-- The state that cmdServe makes for the services that it has started.
unfoldable pub ops_state : String → String → ℕ → Services → OpsState
ops_state instance_name version now v = record {
  instance_name = instance_name;
  version = version;
  started = now;
  http = v.http;
  echo = v.echo;
  tr471 = v.tr471;
}

-- A line of `/metrics`: the name, the labels with their values, and the value.
pub record Sample : Type 0 where
  pub name : String
  pub labels : List (String × String)
  pub value : ℕ

abbrev pub plain : String → ℕ → Sample
plain name v = record { name = name; labels = []; value = v }

abbrev pub in_direction : String → String → ℕ → Sample
in_direction name dir v = record { name = name; labels = ("direction", dir) ∷ []; value = v }

unfoldable pub uptime : OpsState → ℕ → ℕ
uptime o now = (now - o.started) / second

unfoldable pub http_samples : Option Handler → List Sample
http_samples none = []
http_samples (some h) =
    let st = Http.stats h in
    plain "diagd_http_downloads_total" st.downloads
    ∷ plain "diagd_http_uploads_total" st.uploads
    ∷ plain "diagd_http_rejects_total" st.rejects
    ∷ plain "diagd_http_bytes_sent_total" st.bytes_sent
    ∷ plain "diagd_http_bytes_received_total" st.bytes_received
    ∷ plain "diagd_http_active_transfers" st.active_transfers
    ∷ []

unfoldable pub echo_samples : Option Echo.EchoServer → List Sample
echo_samples none = []
echo_samples (some s) =
    let st = Echo.stats s in
    plain "diagd_echo_packets_received_total" st.packets_received
    ∷ plain "diagd_echo_responses_total" st.responses
    ∷ plain "diagd_echo_failures_total" st.failures
    ∷ []

unfoldable pub tr471_samples : Option Server.Server → List Sample
tr471_samples none = []
tr471_samples (some s) =
    let st = Server.stats s in
    plain "diagd_tr471_active_sessions" st.active_sessions
    ∷ in_direction "diagd_tr471_allocated_mbps" "upstream" st.upstream_mbps_allocated
    ∷ in_direction "diagd_tr471_allocated_mbps" "downstream" st.downstream_mbps_allocated
    ∷ in_direction "diagd_tr471_tests_total" "upstream" st.tests_upstream
    ∷ in_direction "diagd_tr471_tests_total" "downstream" st.tests_downstream
    ∷ plain "diagd_tr471_setup_accepts_total" st.setup_accepts
    ∷ plain "diagd_tr471_setup_rejects_total" st.setup_rejects
    ∷ []

unfoldable pub metrics : OpsState → ℕ → List Sample
metrics o now =
    record {
      name = "diagd_build_info";
      labels = ("version", o.version) ∷ ("instance", o.instance_name) ∷ [];
      value = 1;
    }
    ∷ plain "diagd_uptime_seconds" (uptime o now)
    ∷ (http_samples o.http ++ (echo_samples o.echo ++ tr471_samples o.tr471))

-- A value of the JSON object.
pub data Member : Type 0 where
  quoted : String → Member
  number : ℕ → Member

-- The map that `/healthz` answers with. It is kept in the order of its keys, in which encoding/json
-- writes a map.
abbrev pub Members : Type 0
Members = List (String × Member)

-- Whether one text comes in front of another, byte by byte.
abbrev pub precedes : String → String → Bool
precedes k j = elim (compare k j) [ Ordering.lt ↦ true | _ ↦ false ]

-- A key is put to its place in the order, in place of what the map holds of it.
unfoldable pub put_key {ℓ} : {V : Type ℓ} → String → V → List (String × V) → List (String × V)
put_key k v [] = (k, v) ∷ []
put_key k v ((j, w) ∷ m) =
    let rest = put_key k v m in
    if str_eq k j
    then (k, v) ∷ m
    else (if precedes k j then (k, v) ∷ ((j, w) ∷ m) else (j, w) ∷ rest)

unfoldable pub http_members : Option Handler → Members → Members
http_members none m = m
http_members (some h) m = put_key "http_active_transfers" (number (Http.stats h).active_transfers) m

unfoldable pub tr471_members : Option Server.Server → Members → Members
tr471_members none m = m
tr471_members (some s) m =
    let st = Server.stats s in
    put_key "tr471_allocated_mbps_downstream" (number st.downstream_mbps_allocated) (
      put_key "tr471_allocated_mbps_upstream" (number st.upstream_mbps_allocated)
        (put_key "tr471_active_sessions" (number st.active_sessions) m))

-- The members that every instance has.
unfoldable pub base_members : OpsState → ℕ → Members
base_members o now = put_key "uptime_seconds" (number (uptime o now)) (
    put_key "version" (quoted o.version)
      (put_key "instance" (quoted o.instance_name) (put_key "status" (quoted "ok") [])))

-- The object that `/healthz` answers with.
unfoldable pub healthz : OpsState → ℕ → Members
healthz o now = tr471_members o.tr471 (http_members o.http (base_members o now))
