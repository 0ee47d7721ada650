-- ===== src/Auth/Sign.antt =====
-- What a digest of internal/udpst/auth.go is good for.
use diagd.Base.{
  ℕ, zero, suc, ◌+◌, ◌≤◌, ◌≡◌, ◌↔◌, refl, ap, List, [], ◌∷◌, ◌++◌, true, length, drop, replicate,
  copy_at, slice, arith, length-append, take_block, drop_after,
}
use mathlib.Core.List.{append-nil}
use native.Mathlib.Nat.{suc-add, zero-add}
use diagd.Auth.{
  compute_digest, verify_digest, sign_pdu, bytes_eq, masked, derive_session_keys, kdf_block,
  kdf_loop, format_uint,
}

bytes_eq_iff : (a b : List ℕ) → (bytes_eq a b ≡ true) ↔ (a ≡ b)
unfolding bytes_eq
bytes_eq_iff [] [] = (λ _. refl, λ _. refl)
bytes_eq_iff [] (y ∷ ys) = (λ h. cc, λ h. cc)
bytes_eq_iff (x ∷ xs) [] = (λ h. cc, λ h. cc)
bytes_eq_iff (x ∷ xs) (y ∷ ys) =
    let (sound, complete) = bytes_eq_iff xs ys in
    (λ h. ground (arith, sound), λ h. ground (arith, complete))

-- A digest verifies exactly where it is the one under the key.
pub verify_digest_iff :
    (mac : List ℕ → List ℕ → List ℕ) (key pdu received : List ℕ) (off : ℕ)
    → (verify_digest mac key pdu off received ≡ true) ↔ (compute_digest mac key pdu off ≡ received)
unfolding verify_digest
verify_digest_iff mac key pdu received off = bytes_eq_iff (compute_digest mac key pdu off) received

drop_block : (d zs : List ℕ) → drop (length d) (d ++ zs) ≡ zs
drop_block [] zs = refl
drop_block (x ∷ d) zs = drop_block d zs

-- A field that is overwritten twice holds what came last.
copy_at-copy_at :
    (b d e : List ℕ) (off : ℕ)
    → length d ≡ length e
    → off + length d ≤ length b
    → copy_at (copy_at b off d) off e ≡ copy_at b off e
copy_at-copy_at b d e zero h le = rw (zero-add, zero-add, ← h, drop_block)
copy_at-copy_at [] d e (suc off) h le = absurd (omega arith)
copy_at-copy_at (x ∷ b) d e (suc off) h le =
    simp suc-add (ap (◌∷◌ x) (copy_at-copy_at b d e off h (omega arith)))

slice-copy_at :
    (b d : List ℕ) (off : ℕ)
    → off + length d ≤ length b
    → slice (copy_at b off d) off (length d) ≡ d
slice-copy_at b d zero le = take_block d _ (length d) refl
slice-copy_at [] d (suc off) le = absurd (omega arith)
slice-copy_at (x ∷ b) d (suc off) le = simp suc-add (slice-copy_at b d off (omega arith))

pub sign_pdu_lem :
    (mac : List ℕ → List ℕ → List ℕ) (key pdu : List ℕ) (off : ℕ)
    → sign_pdu mac key pdu off ≡ copy_at pdu off (compute_digest mac key pdu off)
unfolding sign_pdu
sign_pdu_lem mac key pdu off = refl

-- `mac` is a keyed hash of 32 bytes, as HMAC-SHA-256 is.
module _ (mac : List ℕ → List ℕ → List ℕ) (mac_size : (k m : List ℕ) → length (mac k m) ≡ 32) where
  pub length-compute_digest :
      (key pdu : List ℕ) (off : ℕ) → length (compute_digest mac key pdu off) ≡ 32
  unfolding compute_digest
  length-compute_digest key pdu off = mac_size key _

  pub compute_digest-sign :
      (key pdu : List ℕ) (off : ℕ)
      → off + 32 ≤ length pdu
      → compute_digest mac key (sign_pdu mac key pdu off) off ≡ compute_digest mac key pdu off
  unfolding sign_pdu compute_digest masked
  compute_digest-sign key pdu off le =
      let d = mac key (copy_at pdu off (replicate 32 0)) in
      let size = mac_size key (copy_at pdu off (replicate 32 0)) in
      ap (mac key) (copy_at-copy_at pdu d (replicate 32 0) off size (omega (arith, size)))

  -- Signing a PDU puts its digest into the field, and a receiver with the same key accepts the
  -- signed PDU with that digest and with no other.
  pub sign_accepted :
      (key pdu received : List ℕ) (off : ℕ)
      → off + 32 ≤ length pdu
      → let signed = sign_pdu mac key pdu off in
        (slice signed off 32 ≡ compute_digest mac key pdu off)
        × ((verify_digest mac key signed off received ≡ true) ↔ (slice signed off 32 ≡ received))
  unfolding verify_digest
  sign_accepted key pdu received off le =
      (field, rw (field, compute_digest-sign key pdu off le) (bytes_eq_iff _ received))
    where
      size : length (compute_digest mac key pdu off) ≡ 32
      size = unfold compute_digest in mac_size key _

      field : slice (sign_pdu mac key pdu off) off 32 ≡ compute_digest mac key pdu off
      field = rw (← size) (
          unfold sign_pdu in
          slice-copy_at pdu (compute_digest mac key pdu off) off (omega (arith, size)))

  kdf_output :
      (key context : List ℕ)
      → kdf_loop mac key context 3 1 []
        ≡ mac key (kdf_block 1 context) ++ mac key (kdf_block 2 context)
  unfolding kdf_loop
  kdf_output key context = rw (size1, kdf_loop) (rw (size2, kdf_loop) refl)
    where
      one : List ℕ
      one = mac key (kdf_block 1 context)

      two : List ℕ
      two = mac key (kdf_block 2 context)

      size1 : length (mac key (kdf_block 1 context)) ≡ 32
      size1 = mac_size key (kdf_block 1 context)

      size2 : length (mac key (kdf_block 1 context) ++ mac key (kdf_block 2 context)) ≡ 64
      size2 = omega (arith, length-append one two, size1, mac_size key (kdf_block 2 context))

  -- The key derivation ends after two rounds: the client key is the MAC of the block with counter
  -- 1, the server key that of the block with counter 2, 32 bytes each, where the hash has 32 bytes.
  pub derived_keys :
      (shared_key : List ℕ) (auth_unix_time : ℕ)
      → let keys = derive_session_keys mac shared_key auth_unix_time in
        let context = format_uint auth_unix_time in
        (keys.client ≡ mac shared_key (kdf_block 1 context))
        × ((keys.server ≡ mac shared_key (kdf_block 2 context))
            × ((length keys.client ≡ 32) × (length keys.server ≡ 32)))
  unfolding derive_session_keys
  derived_keys shared_key auth_unix_time = rw (kdf_output shared_key context) (
      rw (take_block one two 32 size1) (
        rw (cut, ← append-nil two)
          (rw (take_block two [] 32 size2, append-nil) (refl, (refl, (size1, size2))))))
    where
      context : List ℕ
      context = format_uint auth_unix_time

      one : List ℕ
      one = mac shared_key (kdf_block 1 context)

      two : List ℕ
      two = mac shared_key (kdf_block 2 context)

      size1 : length one ≡ 32
      size1 = mac_size shared_key (kdf_block 1 context)

      size2 : length two ≡ 32
      size2 = mac_size shared_key (kdf_block 2 context)

      cut : drop 32 (one ++ two) ≡ two
      cut = drop_after one two 32 size1
