-- ===== src/Auth/Wire.antt =====
-- Signed control PDUs on the wire: internal/udpst/auth.go over the codecs of protocol.go.
use diagd.Base.{
  drop_after, inl, ◌↔◌, ℕ, ◌+◌, ◌≤◌, ◌≡◌, ap, ◌∙◌, subst, List, [], ◌∷◌, ◌++◌, true, false, some,
  length, length-take_of_le, take, drop, copy_at, slice, arith,
}
use native.Mathlib.Nat.{suc-add, zero-add}
use diagd.Protocol.{AuthTrailer, SetupPdu, TestActPdu}
use diagd.Protocol.Auth
use diagd.Protocol.Auth.{marshal_auth, auth_split, auth_block, length-marshal_auth}
use diagd.Protocol.Setup
use diagd.Protocol.Setup.{parse_setup, marshal_setup, setup_auth_digest_off, parse-marshal_setup}
use diagd.Protocol.TestAct
use diagd.Protocol.TestAct.{
  parse_test_act, marshal_test_act, test_act_auth_digest_off, parse-marshal_test_act,
}
use diagd.Auth.{compute_digest, verify_digest, sign_pdu}
use diagd.Auth.Sign.{sign_pdu_lem, length-compute_digest, sign_accepted}

copy_at-append :
    (pre zs d : List ℕ) (j : ℕ) → copy_at (pre ++ zs) (length pre + j) d ≡ pre ++ copy_at zs j d
copy_at-append [] zs d j = rw zero-add
copy_at-append (x ∷ pre) zs d j = simp suc-add (ap (◌∷◌ x) (copy_at-append pre zs d j))

copy_at-auth_block :
    (a : AuthTrailer) (rest d : List ℕ)
    → Auth.IsWire a
    → length d ≡ 32
    → copy_at (auth_block a rest) 5 d ≡ auth_block (record a { auth_digest = d }) rest
copy_at-auth_block a rest d w size =
    rw (size, drop_after a.auth_digest (a.key_id ∷ (0 ∷ rest)) 32 w.digest_size)

abbrev pub with_digest : AuthTrailer → List ℕ → AuthTrailer
with_digest a d = record a { auth_digest = d }

pub with_digest-IsWire :
    (a : AuthTrailer) (d : List ℕ) → Auth.IsWire a → length d ≡ 32 → Auth.IsWire (with_digest a d)
with_digest-IsWire a d w size = record {
  mode_byte = w.mode_byte;
  time_word = w.time_word;
  digest_size = size;
  key_byte = w.key_byte;
}

-- A digest copied over a written trailer is the trailer with that digest.
copy_at-marshal_auth :
    (a : AuthTrailer) (b d : List ℕ) (off : ℕ)
    → Auth.IsWire a
    → length d ≡ 32
    → off + 39 ≤ length b
    → copy_at (marshal_auth a b off) (off + 5) d ≡ marshal_auth (with_digest a d) b off
copy_at-marshal_auth a b d off w size fits =
    rw (auth_split a b off w fits, auth_split (with_digest a d) b off wd fits)
      (subst
        (λ n.
          copy_at (take off b ++ block) (n + 5) d ≡ take off b ++ auth_block (with_digest a d) rest)
        (length-take_of_le off b (omega arith))
        (copy_at-append (take off b) block d 5
          ∙ ap (◌++◌ (take off b)) (copy_at-auth_block a rest d w size)))
  where
    wd : Auth.IsWire (with_digest a d)
    wd = with_digest-IsWire a d w size

    rest : List ℕ
    rest = drop 39 (drop off b)

    block : List ℕ
    block = auth_block a rest

copy_at-marshal_setup :
    (p : SetupPdu) (d : List ℕ)
    → Setup.IsWire p
    → length d ≡ 32
    → copy_at (marshal_setup p) setup_auth_digest_off d
      ≡ marshal_setup (record p { auth = with_digest p.auth d })
unfolding marshal_setup
copy_at-marshal_setup p d w size = copy_at-marshal_auth p.auth _ d 15 w.trailer size (omega arith)

copy_at-marshal_test_act :
    (p : TestActPdu) (d : List ℕ)
    → TestAct.IsWire p
    → p.legacy ≡ false
    → length d ≡ 32
    → copy_at (marshal_test_act p) test_act_auth_digest_off d
      ≡ marshal_test_act (record p { auth = with_digest p.auth d })
unfolding marshal_test_act
copy_at-marshal_test_act p d w current size =
    rw (current) (copy_at-marshal_auth p.auth _ d 63 w.trailer size (omega arith))

length-marshal_setup : (p : SetupPdu) → Setup.IsWire p → length (marshal_setup p) ≡ 56
unfolding marshal_setup
length-marshal_setup p w = length-marshal_auth p.auth _ 15 w.trailer (omega arith)

length-marshal_test_act :
    (p : TestActPdu) → TestAct.IsWire p → p.legacy ≡ false → length (marshal_test_act p) ≡ 104
unfolding marshal_test_act
length-marshal_test_act p w current =
    rw current (length-marshal_auth p.auth _ 63 w.trailer (omega arith))

module _ (mac : List ℕ → List ℕ → List ℕ) (mac_size : (k m : List ℕ) → length (mac k m) ≡ 32) where
  -- A Setup PDU with fields of their widths, once signed, parses to what was signed with the digest
  -- filled in, and that digest verifies under the same key, for any hash of 32 bytes.
  pub signed_setup_accepted :
      (key : List ℕ) (p : SetupPdu)
      → Setup.IsWire p
      → let signed = sign_pdu mac key (marshal_setup p) setup_auth_digest_off in
        let digest = compute_digest mac key (marshal_setup p) setup_auth_digest_off in
        (parse_setup signed ≡ some (record p { auth = with_digest p.auth digest }))
        × (verify_digest mac key signed setup_auth_digest_off digest ≡ true)
  signed_setup_accepted key p w = (
    rw
        (
          sign_pdu_lem mac key (marshal_setup p) setup_auth_digest_off,
          copy_at-marshal_setup p digest w size,
        )
        (parse-marshal_setup (record p { auth = with_digest p.auth digest }) wd),
    accepted.1.1 accepted.0,
  )
    where
      digest : List ℕ
      digest = compute_digest mac key (marshal_setup p) setup_auth_digest_off

      size : length digest ≡ 32
      size = length-compute_digest mac mac_size key (marshal_setup p) setup_auth_digest_off

      wd : Setup.IsWire (record p { auth = with_digest p.auth digest })
      wd = ground (arith, with_digest-IsWire p.auth digest w.trailer size)

      accepted :
          let signed = sign_pdu mac key (marshal_setup p) setup_auth_digest_off in
          (slice signed setup_auth_digest_off 32 ≡ digest)
          × ((verify_digest mac key signed setup_auth_digest_off digest ≡ true)
              ↔ (slice signed setup_auth_digest_off 32 ≡ digest))
      accepted =
          sign_accepted mac mac_size key (marshal_setup p) digest setup_auth_digest_off
            (omega (arith, length-marshal_setup p w))

  -- A Test Activation PDU of the current layout with fields of their widths, once signed, parses to
  -- what was signed with the digest filled in, and that digest verifies under the same key, for any
  -- hash of 32 bytes.
  pub signed_test_act_accepted :
      (key : List ℕ) (p : TestActPdu)
      → TestAct.IsWire p
      → p.legacy ≡ false
      → let signed = sign_pdu mac key (marshal_test_act p) test_act_auth_digest_off in
        let digest = compute_digest mac key (marshal_test_act p) test_act_auth_digest_off in
        (parse_test_act signed ≡ some (record p { auth = with_digest p.auth digest }))
        × (verify_digest mac key signed test_act_auth_digest_off digest ≡ true)
  signed_test_act_accepted key p w current = (
    rw
        (
          sign_pdu_lem mac key (marshal_test_act p) test_act_auth_digest_off,
          copy_at-marshal_test_act p digest w current size,
        )
        (parse-marshal_test_act (record p { auth = with_digest p.auth digest }) wd (inl current)),
    accepted.1.1 accepted.0,
  )
    where
      digest : List ℕ
      digest = compute_digest mac key (marshal_test_act p) test_act_auth_digest_off

      size : length digest ≡ 32
      size = length-compute_digest mac mac_size key (marshal_test_act p) test_act_auth_digest_off

      wd : TestAct.IsWire (record p { auth = with_digest p.auth digest })
      wd = ground (arith, with_digest-IsWire p.auth digest w.trailer size)

      accepted :
          let signed = sign_pdu mac key (marshal_test_act p) test_act_auth_digest_off in
          (slice signed test_act_auth_digest_off 32 ≡ digest)
          × ((verify_digest mac key signed test_act_auth_digest_off digest ≡ true)
              ↔ (slice signed test_act_auth_digest_off 32 ≡ digest))
      accepted =
          sign_accepted mac mac_size key (marshal_test_act p) digest test_act_auth_digest_off
            (omega (arith, length-marshal_test_act p w current))
