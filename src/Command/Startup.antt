-- ===== src/Command/Startup.antt =====
-- What cmdServe of cmd/diagd/serve.go starts.
use diagd.Base.{
  ℕ, ◌≤◌, ◌≡◌, ◌⊎◌, inl, inr, refl, ap, sym, ◌∙◌, subst, if-cases, option-cases, ◌≢◌, Bool, true,
  false, List, [], ◌∷◌, Option, some, if◌then◌else◌, arith,
}
use diagd.Base.Int.{ℤ}
use diagd.Http.Requests.{is_empty}
use diagd.Server.{Server, new_server}
use diagd.Server.Ports.{IsRange}
use diagd.Command.{
  Prefix, AllowFunc, bad_cidr, everyone, only, parse_allow_list, Flags, Services, Launch, exits,
  serves, port_range, tr471_config, Block, fails, disabled, started, start_tr471, launch,
  logger_fails, cmd_serve,
}

-- The ports of a TR-471 server: none in particular, or a range of UDP ports with the one to try first.
pub HasPorts : Server → Type 0
HasPorts s =
    ((s.cfg.test_port_min ≡ 0) × (s.cfg.test_port_max ≡ 0))
    ⊎ (IsRange s.cfg × ((s.cfg.test_port_max ≤ 65535) × (s.next_port ≡ s.cfg.test_port_min)))

range_ok :
    (scan : List ℕ → Option (ℤ × ℤ)) (text : List ℕ) (lo hi : ℕ)
    → port_range scan text ≡ some (lo, hi)
    → ((lo ≡ 0) × (hi ≡ 0)) ⊎ ((1 ≤ lo) × ((lo ≤ hi) × (hi ≤ 65535)))
unfolding port_range
range_ok scan [] lo hi e = inl (ground (arith, e))
range_ok scan (c ∷ cs) lo hi e = ground (arith, e)

server_of : {s t : Server} → started s ≡ started t → s ≡ t
server_of {s} e = ap (λ b. elim b [ fails ↦ s | disabled ↦ s | started u ↦ u ]) e

server_ports :
    (flags : Flags) (lo hi : ℕ)
    → ((lo ≡ 0) × (hi ≡ 0)) ⊎ ((1 ≤ lo) × ((lo ≤ hi) × (hi ≤ 65535)))
    → HasPorts (new_server (tr471_config flags (lo, hi)))
unfolding new_server tr471_config HasPorts
server_ports flags lo hi (inl (a, b)) = inl (a, b)
server_ports flags lo hi (inr (low, (order, high))) =
    inr (record { low = omega (arith, low); order = order }, (high, refl))

with_range :
    (listen : List ℕ → Bool) (scan : List ℕ → Option (ℤ × ℤ)) (flags : Flags) (s : Server)
    (range : ℕ × ℕ)
    → port_range scan flags.tr471_ports ≡ some range
    → started (new_server (tr471_config flags range)) ≡ started s
    → HasPorts s
with_range listen scan flags s (lo, hi) g h =
    subst HasPorts (server_of h)
      (server_ports flags lo hi (range_ok scan flags.tr471_ports lo hi g))

tr471_ports :
    (listen : List ℕ → Bool) (scan : List ℕ → Option (ℤ × ℤ)) (flags : Flags) (s : Server)
    → start_tr471 listen scan flags ≡ started s
    → HasPorts s
unfolding start_tr471
tr471_ports listen scan flags s e =
    let P : Block Server → Type 0 = λ b. b ≡ started s → HasPorts s in
    if-cases P (is_empty flags.tr471_addr) disabled _ (λ _ h. absurd (ground (arith, h)))
      (λ _.
        if-cases P (listen flags.tr471_addr) _ fails
          (λ _.
            option-cases P (port_range scan flags.tr471_ports) fails _
              (λ _ h. absurd (ground (arith, h))) (with_range listen scan flags s))
          (λ _ h. absurd (ground (arith, h))))
      e

launched :
    (listen : List ℕ → Bool) (scan : List ℕ → Option (ℤ × ℤ)) (now : ℕ) (flags : Flags)
    (allow : AllowFunc) (v : Services) (s : Server)
    → launch listen scan now flags allow ≡ serves v
    → v.tr471 ≡ some s
    → (start_tr471 listen scan flags ≡ started s) × (v.allow ≡ allow)
unfolding launch
launched listen scan now flags allow v s e f = ground (arith, e, f)

-- A launch that serves has passed the checks in front of it.
allowed_launch :
    (bad_logger : Bool) (allow : AllowFunc) (go : Launch) (v : Services)
    → (if bad_logger
        then exits 2
        else elim allow [ bad_cidr ↦ exits 2 | everyone ↦ go | only f ↦ go ])
      ≡ serves v
    → (go ≡ serves v) × (allow ≢ bad_cidr)
allowed_launch true allow go v e = absurd (ground (arith, e))
allowed_launch false bad_cidr go v e = absurd (ground (arith, e))
allowed_launch false everyone go v e = (e, λ p. ground (arith, p))
allowed_launch false (only f) go v e = (e, λ p. ground (arith, p))

-- A TR-471 server that the command serves has no range of test ports, or one of UDP ports in order
-- whose first is the next to try; the command serves under the allow list of its flag, which parses.
pub launched_server :
    (parse : List ℕ → Option Prefix) (level : List ℕ → Bool) (listen : List ℕ → Bool)
    (scan : List ℕ → Option (ℤ × ℤ)) (now : ℕ) (flags : Flags) (v : Services) (s : Server)
    → cmd_serve parse level listen scan now flags ≡ serves v
    → v.tr471 ≡ some s
    → HasPorts s × ((v.allow ≡ parse_allow_list parse flags.allow) × (v.allow ≢ bad_cidr))
unfolding cmd_serve
launched_server parse level listen scan now flags v s e f =
    let allow = parse_allow_list parse flags.allow in
    let (started_up, parses) =
      allowed_launch (logger_fails level flags) allow (launch listen scan now flags allow) v e in
    let (server, same_allow) = launched listen scan now flags allow v s started_up f in
    (tr471_ports listen scan flags s server, (same_allow, λ bad. parses (sym same_allow ∙ bad)))
