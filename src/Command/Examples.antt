-- ===== src/Command/Examples.antt =====
-- Tests and instances for cmd/diagd/serve.go.
use diagd.Base.{ℕ, ◌+◌, ◌*◌, ◌≡◌, ◌↔◌, refl, Bool, true, false, List, [], ◌∷◌, Option, none, some}
use diagd.Base.Int.{ℤ, pos}
use diagd.Clock.{second}
use diagd.Live.{same}
use diagd.Server as Server
use diagd.Echo.{new_echo_server}
use diagd.Server.{Server, new_server}
use diagd.Command.{
  Addr, Prefix, contains_any, masked, split, trim_space, trim_left, parse_prefixes,
  parse_allow_list, only, Flags, Services, serves, cmd_serve, launch, logger_fails, http_handler,
  start_echo, start_tr471, port_range, tr471_config,
}
use diagd.Command.Ops.{
  ops_state, metrics, healthz, base_members, put_key, http_members, tr471_members, uptime,
}
use diagd.Command.Ops.Health.{numbers, levels, by_name, health_agrees}
use diagd.Command.AllowList.{Any, Names, allow_list_exact}

-- A parser that takes every text but the empty one for 10.1.3.0/23, which has a host bit set.
abbrev parse : List ℕ → Option Prefix
parse [] = none
parse (c ∷ cs) =
    some (record { addr = record { width = 32; value = 0x0A010300; zone = [] }; bits = 23 })

-- "a, b".
abbrev text : List ℕ
text = b'a' ∷ b',' ∷ b' ' ∷ b'b' ∷ []

-- 10.1.2.7.
abbrev peer : Addr
peer = record { width = 32; value = 0x0A010207; zone = [] }

abbrev prefixes : List Prefix
prefixes =
    masked (record { addr = record { width = 32; value = 0x0A010300; zone = [] }; bits = 23 })
    ∷ masked (record { addr = record { width = 32; value = 0x0A010300; zone = [] }; bits = 23 })
    ∷ []

parsed : parse_allow_list parse text ≡ only (contains_any prefixes)
unfolding parse_allow_list parse_prefixes split trim_space trim_left
parsed = refl

allow_list_exact_example : (contains_any prefixes peer ≡ true) ↔ Any (Names parse peer) (split text)
allow_list_exact_example = allow_list_exact parse text (contains_any prefixes) peer parsed

-- A scanner that reads every range as 5000 to 5009.
abbrev scan : List ℕ → Option (ℤ × ℤ)
scan s = some (pos 5000, pos 5009)

abbrev yes_to_all : List ℕ → Bool
yes_to_all s = true

abbrev flags : Flags
flags = record {
  http_addr = [];
  echo_addr = b':' ∷ b'9' ∷ [];
  tr471_addr = b':' ∷ b'8' ∷ [];
  tr471_bw = 1000;
  tr471_jumbo = true;
  tr471_trad_mtu = false;
  tr471_max_sec = 0;
  tr471_ports = b'r' ∷ [];
  tr471_key = [];
  max_transfers = 64;
  max_bytes = 0;
  max_seconds = 0;
  allow = text;
  log_level = b'i' ∷ [];
  log_format = b't' ∷ b'e' ∷ b'x' ∷ b't' ∷ [];
}

abbrev server : Server
server = new_server (tr471_config flags (5000, 5009))

abbrev services : Services
services = record {
  http = none;
  echo = some (new_echo_server 77);
  tr471 = some server;
  allow = only (contains_any prefixes);
}

launches : cmd_serve parse yes_to_all yes_to_all scan 77 flags ≡ serves services
unfolding cmd_serve launch logger_fails http_handler start_echo start_tr471 port_range same
    parse_allow_list parse_prefixes split trim_space trim_left
launches = refl

health_agrees_example :
    let o = ops_state "lab" "1.2" 77 services in
    numbers (healthz o (77 + 9 * second)) ≡ by_name (levels (metrics o (77 + 9 * second)))
health_agrees_example = health_agrees (ops_state "lab" "1.2" 77 services) (77 + 9 * second)

-- Without an HTTP service, and with a TR-471 server whose bandwidth is free.
health_of_launch :
    numbers (healthz (ops_state "lab" "1.2" 77 services) (77 + 9 * second))
    ≡ ("tr471_active_sessions", 0)
      ∷ ("tr471_allocated_mbps_downstream", 0)
      ∷ ("tr471_allocated_mbps_upstream", 0)
      ∷ ("uptime_seconds", 9)
      ∷ []
unfolding numbers healthz base_members put_key http_members tr471_members uptime ops_state
    new_server Server.stats
health_of_launch = refl
