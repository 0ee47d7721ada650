-- ===== src/Auth/Examples.antt =====
-- Instances for internal/udpst/auth.go: a hash of 32 bytes that depends on the key and the message.
use diagd.Base.{ℕ, ◌+◌, ◌%◌, ◌≡◌, refl, true, List, [], ◌∷◌, replicate, some, length}
use diagd.Protocol.Setup.{parse_setup, marshal_setup, setup_auth_digest_off}
use diagd.Protocol.Examples.{request, request-IsWire}
use diagd.Auth.{compute_digest, verify_digest, sign_pdu}
use diagd.Auth.Wire.{with_digest, signed_setup_accepted}

sum : List ℕ → ℕ
sum [] = 0
sum (x ∷ xs) = x + sum xs

pub toy_mac : List ℕ → List ℕ → List ℕ
toy_mac k m = (sum k + sum m) % 256 ∷ replicate 31 7

pub toy_mac_size : (k m : List ℕ) → length (toy_mac k m) ≡ 32
unfolding toy_mac
toy_mac_size k m = refl

abbrev key : List ℕ
key = b's' ∷ b'e' ∷ b'c' ∷ []

signed_setup_accepted_example :
    let signed = sign_pdu toy_mac key (marshal_setup request) setup_auth_digest_off in
    let digest = compute_digest toy_mac key (marshal_setup request) setup_auth_digest_off in
    (parse_setup signed ≡ some (record request { auth = with_digest request.auth digest }))
    × (verify_digest toy_mac key signed setup_auth_digest_off digest ≡ true)
signed_setup_accepted_example =
    signed_setup_accepted toy_mac toy_mac_size key request request-IsWire
