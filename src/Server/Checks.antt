-- ===== src/Server/Checks.antt =====
-- internal/udpst/server.go: the checks of `handleSetup` that change no state. `mac` is HMAC-SHA-256,
-- `now` the clock in nanoseconds since the Unix epoch.
use Prim.Native.Nat.{bit_and}
use diagd.Base.{
  ℕ, ◌+◌, ◌*◌, Bool, true, false, not, ◌&&◌, ◌||◌, List, [], ◌∷◌, Option, none, some, ltb, leb,
  ◌==◌, if◌then◌else◌,
}
use diagd.Clock.{second}
use diagd.Protocol.{SetupPdu, protocol_ver, protocol_min}
use diagd.Protocol.Setup.{setup_auth_digest_off}
use diagd.Auth.{
  SessionKeys, derive_session_keys, verify_digest, auth_mode_none, auth_mode_control,
  auth_time_window,
}
use diagd.Server.Code
use diagd.Server.{Config}

-- Bits of a Setup Request's modifier field.
abbrev mod_jumbo : ℕ
mod_jumbo = 0x01

abbrev mod_traditional_mtu : ℕ
mod_traditional_mtu = 0x02

-- `s.cfg.Keys[id]`.
unfoldable pub find_key : ℕ → List (ℕ × List ℕ) → Option (List ℕ)
find_key id [] = none
find_key id ((k, secret) ∷ rest) = if k == id then some secret else find_key id rest

unfoldable pub has_keys : Config → Bool
has_keys cfg = elim cfg.keys [ [] ↦ false | k ∷ ks ↦ true ]

-- The variables `keys` and `legacyKey`, and the code of a rejection.
pub record AuthState : Type 0 where
  pub code : Option ℕ
  pub keys : Option SessionKeys
  pub legacy_key : Option (List ℕ)

abbrev pub no_auth_state : AuthState
no_auth_state = record { code = none; keys = none; legacy_key = none }

-- A skew of more than five seconds either way.
unfoldable pub skewed : ℕ → ℕ → Bool
skewed now auth_unix_time =
    ltb (now + auth_time_window * second) (auth_unix_time * second)
    || ltb (auth_unix_time * second + auth_time_window * second) now

unfoldable pub check_time : ℕ → SetupPdu → AuthState → AuthState
unfolding skewed
check_time now req a =
    if skewed now req.auth.auth_unix_time then record a { code = some Code.auth_time } else a

unfoldable pub check_digest :
    (List ℕ → List ℕ → List ℕ) → ℕ → SetupPdu → List ℕ → List ℕ → AuthState
unfolding check_time
check_digest mac now req raw secret =
    let k = derive_session_keys mac secret req.auth.auth_unix_time in
    let failed : AuthState = record no_auth_state { code = some Code.auth_fail } in
    if leb protocol_ver req.protocol_version
    then (if not (verify_digest mac k.client raw setup_auth_digest_off req.auth.auth_digest)
        then failed
        else check_time now req (record no_auth_state { keys = some k }))
    else (if not (verify_digest mac secret raw setup_auth_digest_off req.auth.auth_digest)
        then failed
        else check_time now req (record no_auth_state { legacy_key = some secret }))

-- The first block of handleSetup.
unfoldable pub authenticate :
    (List ℕ → List ℕ → List ℕ) → Config → ℕ → SetupPdu → List ℕ → AuthState
unfolding check_digest has_keys
authenticate mac cfg now req raw =
    if req.auth.auth_mode == auth_mode_control && has_keys cfg
    then elim (find_key req.auth.key_id cfg.keys) [
      | none ↦ record no_auth_state { code = some Code.auth_fail }
      | some secret ↦ check_digest mac now req raw secret
    ]
    else no_auth_state

unfoldable pub is_set : ℕ → ℕ → Bool
is_set m bit = not (bit_and m bit == 0)

-- `a != b`.
unfoldable pub differs : Bool → Bool → Bool
differs a true = not a
differs a false = a

-- The checks that need no state: version, multi-connection parameters, jumbo, MTU.
unfoldable pub check_request : Config → SetupPdu → Option ℕ
unfolding is_set differs
check_request cfg req =
    if ltb req.protocol_version protocol_min || ltb protocol_ver req.protocol_version
    then some Code.bad_version
    else (if req.mc_count == 0 || (ltb 24 req.mc_count || leb req.mc_count req.mc_index)
        then some Code.mc_inv_par
        else (if differs (is_set req.modifiers mod_jumbo) cfg.jumbo
            then some Code.bad_jumbo
            else (if differs (is_set req.modifiers mod_traditional_mtu) cfg.traditional_mtu
                then some Code.bad_tmtu
                else none)))

-- The switch on the authentication mode.
unfoldable pub check_mode : Config → SetupPdu → Option ℕ
unfolding has_keys
check_mode cfg req =
    if req.auth.auth_mode == auth_mode_control && not (has_keys cfg)
    then some Code.auth_nc
    else (if req.auth.auth_mode == auth_mode_none && has_keys cfg
        then some Code.auth_req
        else (if ltb auth_mode_control req.auth.auth_mode then some Code.auth_inv else none))
