-- ===== src/Command.antt =====
-- cmd/diagd/serve.go: what the flags of `diagd serve` start. Parsing a CIDR, a level and a pair of
-- integers, and binding a socket, are the parameters `parse_prefix`, `parse_level`, `scan_ports` and
-- `listen`; an address is its width in bits, its value and its zone. Of the spaces TrimSpace knows those of ASCII.
pub mod AllowList
pub mod Startup
pub mod Ops
mod Examples
use diagd.Base.{
  ℕ, ◌+◌, ◌-◌, ◌*◌, ◌/◌, ◌^◌, Bool, true, false, not, ◌&&◌, ◌||◌, List, [], ◌∷◌, ◌++◌, reverse,
  Option, none, some, ltb, leb, ◌==◌, if◌then◌else◌,
}
use diagd.Base.Int.{ℤ, pos, pos_part, ltb_ℤ}
use diagd.Clock.{second}
use diagd.Live.{same}
use diagd.Http.{Handler, new_handler}
use diagd.Http.Requests.{is_empty}
use diagd.Echo.{EchoServer, new_echo_server}
use diagd.Server.{Config, Server, new_server}

-- netip.Addr. An IPv6 address may have a zone, as that of a link-local peer does.
pub record Addr : Type 0 where
  pub width : ℕ
  pub value : ℕ
  pub zone : List ℕ

-- A network: its address and the length of the prefix, at most the width.
pub record Prefix : Type 0 where
  pub addr : Addr
  pub bits : ℕ

-- netip.Prefix.Masked.
unfoldable pub masked : Prefix → Prefix
masked p =
    let host = 2 ^ (p.addr.width - p.bits) in
    record p { addr = record (p.addr) { value = p.addr.value / host * host } }

-- netip.Prefix.Contains: no address with a zone is contained.
unfoldable pub contains : Prefix → Addr → Bool
contains p a =
    let host = 2 ^ (p.addr.width - p.bits) in
    is_empty a.zone && (p.addr.width == a.width && p.addr.value / host == a.value / host)

-- The function that parseAllowList returns.
unfoldable pub contains_any : List Prefix → Addr → Bool
contains_any [] a = false
contains_any (p ∷ ps) a = let rest = contains_any ps a in if contains p a then true else rest

-- strings.Split at commas.
unfoldable pub split : List ℕ → List (List ℕ)
split [] = [] ∷ []
split (c ∷ cs) =
    let rest = split cs in
    elim rest [
      | [] ↦ []
      | part ∷ parts ↦ if c == b',' then [] ∷ (part ∷ parts) else (c ∷ part) ∷ parts
    ]

abbrev is_space : ℕ → Bool
is_space c = c == b' ' || (leb 9 c && leb c 13)

unfoldable pub trim_left : List ℕ → List ℕ
trim_left [] = []
trim_left (c ∷ cs) = let rest = trim_left cs in if is_space c then rest else c ∷ cs

-- strings.TrimSpace.
unfoldable pub trim_space : List ℕ → List ℕ
trim_space s = reverse (trim_left (reverse (trim_left s)))

-- What parseAllowList returns: an error, nil, which allows everyone, or a function.
pub data AllowFunc : Type 0 where
  bad_cidr : AllowFunc
  everyone : AllowFunc
  only : (Addr → Bool) → AllowFunc

-- The loop over the parts.
unfoldable pub parse_prefixes : (List ℕ → Option Prefix) → List (List ℕ) → Option (List Prefix)
parse_prefixes parse_prefix [] = some []
parse_prefixes parse_prefix (c ∷ cs) =
    let rest = parse_prefixes parse_prefix cs in
    elim (parse_prefix (trim_space c)) [
      | none ↦ none
      | some p ↦ elim rest [ none ↦ none | some ps ↦ some (masked p ∷ ps) ]
    ]

unfoldable pub parse_allow_list : (List ℕ → Option Prefix) → List ℕ → AllowFunc
parse_allow_list parse_prefix [] = everyone
parse_allow_list parse_prefix (c ∷ cs) = elim (parse_prefixes parse_prefix (split (c ∷ cs))) [
  | none ↦ bad_cidr
  | some ps ↦ only (contains_any ps)
]

pub record Flags : Type 0 where
  pub http_addr : List ℕ
  pub echo_addr : List ℕ
  pub tr471_addr : List ℕ
  pub tr471_bw : ℕ
  pub tr471_jumbo : Bool
  pub tr471_trad_mtu : Bool
  pub tr471_max_sec : ℕ
  pub tr471_ports : List ℕ
  pub tr471_key : List ℕ
  pub max_transfers : ℕ
  pub max_bytes : ℕ
  pub max_seconds : ℕ
  pub allow : List ℕ
  pub log_level : List ℕ
  pub log_format : List ℕ

-- What the command starts.
pub record Services : Type 0 where
  pub http : Option Handler
  pub echo : Option EchoServer
  pub tr471 : Option Server
  pub allow : AllowFunc

-- The command ends at once with an exit code, or serves.
pub data Launch : Type 0 where
  exits : ℕ → Launch
  serves : Services → Launch

-- "text" or "json".
abbrev known_format : List ℕ → Bool
known_format format =
    same format (b't' ∷ b'e' ∷ b'x' ∷ b't' ∷ []) || same format (b'j' ∷ b's' ∷ b'o' ∷ b'n' ∷ [])

-- newLogger, as far as it fails.
unfoldable pub logger_fails : (List ℕ → Bool) → Flags → Bool
logger_fails parse_level flags =
    not (parse_level flags.log_level) || not (known_format flags.log_format)

-- The range of test ports; 0 and 0 where the flag is empty, none where it is invalid.
unfoldable pub port_range : (List ℕ → Option (ℤ × ℤ)) → List ℕ → Option (ℕ × ℕ)
port_range scan_ports [] = some (0, 0)
port_range scan_ports (c ∷ cs) = elim (scan_ports (c ∷ cs)) [
  | none ↦ none
  | some (lo, hi) ↦
      if (ltb_ℤ lo (pos 1) || ltb_ℤ hi lo) || ltb_ℤ (pos 65535) hi
      then none
      else some (pos_part lo, pos_part hi)
]

unfoldable pub http_handler : Flags → Option Handler
http_handler flags =
    if is_empty flags.http_addr
    then none
    else some (new_handler flags.max_transfers flags.max_bytes (flags.max_seconds * second))

-- The configuration of the TR-471 server with a range of ports.
unfoldable pub tr471_config : Flags → ℕ × ℕ → Config
tr471_config flags (lo, hi) = record {
  keys = if is_empty flags.tr471_key then [] else (0, flags.tr471_key) ∷ [];
  max_bandwidth_mbps = flags.tr471_bw;
  jumbo = flags.tr471_jumbo;
  traditional_mtu = flags.tr471_trad_mtu;
  max_test_seconds = flags.tr471_max_sec;
  max_sessions = 0;
  test_port_min = lo;
  test_port_max = hi;
}

-- The blocks of the two UDP services: an error, or the service where it is not disabled.
pub data Block {ℓ} (A : Type ℓ) : Type ℓ where
  fails : Block A
  disabled : Block A
  started : A → Block A

unfoldable pub start_echo : (List ℕ → Bool) → Flags → ℕ → Block EchoServer
start_echo listen flags now =
    if is_empty flags.echo_addr
    then disabled
    else (if listen flags.echo_addr then started (new_echo_server now) else fails)

unfoldable pub start_tr471 : (List ℕ → Bool) → (List ℕ → Option (ℤ × ℤ)) → Flags → Block Server
start_tr471 listen scan_ports flags =
    let server : Block Server = elim (port_range scan_ports flags.tr471_ports) [
      | none ↦ fails
      | some range ↦ started (new_server (tr471_config flags range))
    ] in
    if is_empty flags.tr471_addr
    then disabled
    else (if listen flags.tr471_addr then server else fails)

abbrev pub service_of {ℓ} : {A : Type ℓ} → Block A → Option A
service_of fails = none
service_of disabled = none
service_of (started a) = some a

abbrev pub has_failed {ℓ} : {A : Type ℓ} → Block A → Bool
has_failed fails = true
has_failed disabled = false
has_failed (started a) = false

abbrev pub is_some {ℓ} : {A : Type ℓ} → Option A → Bool
is_some none = false
is_some (some a) = true

-- cmdServe up to the point where it waits, with the allow list parsed.
unfoldable pub launch : (List ℕ → Bool) → (List ℕ → Option (ℤ × ℤ)) → ℕ → Flags → AllowFunc → Launch
launch listen scan_ports now flags allow =
    let http = http_handler flags in
    let echo = start_echo listen flags now in
    let tr471 = start_tr471 listen scan_ports flags in
    let services : Services = record {
      http = http;
      echo = service_of echo;
      tr471 = service_of tr471;
      allow = allow;
    } in
    if has_failed echo
    then exits 2
    else (if has_failed tr471
        then exits 2
        else (if not (is_some http) && (not (is_some services.echo) && not (is_some services.tr471))
            then exits 2
            else serves services))

unfoldable pub cmd_serve :
    (List ℕ → Option Prefix)
    → (List ℕ → Bool)
    → (List ℕ → Bool)
    → (List ℕ → Option (ℤ × ℤ))
    → ℕ
    → Flags
    → Launch
cmd_serve parse_prefix parse_level listen scan_ports now flags =
    let allow = parse_allow_list parse_prefix flags.allow in
    let go = launch listen scan_ports now flags allow in
    if logger_fails parse_level flags
    then exits 2
    else elim allow [ bad_cidr ↦ exits 2 | everyone ↦ go | only f ↦ go ]
