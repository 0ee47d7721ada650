-- ===== src/Protocol/Auth.antt =====
-- internal/udpst/protocol.go: `authTrailer`, the trailer of the authenticated control PDUs.
use native.Mathlib.Nat.{suc-add}
use diagd.Base.{
  length-append, length-take_of_le, length-drop, zero, suc, ◌≤◌, refl, ap, ◌∙◌, [], ◌∷◌, ◌++◌, take,
  drop, set_after, arith, ℕ, ◌+◌, ◌/◌, ◌%◌, ◌<◌, ◌≡◌, List, get_or, set, length, put32, get32,
  copy_at, slice,
}
use diagd.Protocol.{AuthTrailer}

-- `b` from `off` on is the slice that the method gets; the last line is `reservedAuth1`.
unfoldable pub marshal_auth : AuthTrailer → List ℕ → ℕ → List ℕ
marshal_auth a b off =
    let b1 = set b off a.auth_mode in
    let b2 = put32 b1 (off + 1) a.auth_unix_time in
    let b3 = copy_at b2 (off + 5) a.auth_digest in set (set b3 (off + 37) a.key_id) (off + 38) 0

unfoldable pub parse_auth : List ℕ → ℕ → AuthTrailer
parse_auth b off = record {
  auth_mode = get_or b off 0;
  auth_unix_time = get32 b (off + 1);
  auth_digest = slice b (off + 5) 32;
  key_id = get_or b (off + 37) 0;
}

pub record IsWire (a : AuthTrailer) : Type 0 where
  pub mode_byte : a.auth_mode < 256
  pub time_word : a.auth_unix_time < 4294967296
  pub digest_size : length a.auth_digest ≡ 32
  pub key_byte : a.key_id < 256

-- What the trailer's 39 bytes are, in front of the rest of the buffer.
abbrev pub auth_block : AuthTrailer → List ℕ → List ℕ
auth_block a rest =
    a.auth_mode
    ∷ (a.auth_unix_time / 65536 / 256 % 256
        ∷ (a.auth_unix_time / 65536 % 256
            ∷ (a.auth_unix_time / 256 % 256
                ∷ (a.auth_unix_time % 256 ∷ (a.auth_digest ++ (a.key_id ∷ (0 ∷ rest)))))))

auth_split_zero :
    (a : AuthTrailer) (b : List ℕ)
    → IsWire a
    → 39 ≤ length b
    → marshal_auth a b 0 ≡ auth_block a (drop 39 b)
unfolding marshal_auth
auth_split_zero a
      (x0 ∷ x1 ∷ x2 ∷ x3 ∷ x4 ∷ x5 ∷ x6 ∷ x7 ∷ x8 ∷ x9 ∷ x10 ∷ x11 ∷ x12 ∷ x13 ∷ x14 ∷ x15 ∷ x16
        ∷ x17 ∷ x18 ∷ x19 ∷ x20 ∷ x21 ∷ x22 ∷ x23 ∷ x24 ∷ x25 ∷ x26 ∷ x27 ∷ x28 ∷ x29 ∷ x30 ∷ x31
        ∷ x32 ∷ x33 ∷ x34 ∷ x35 ∷ x36 ∷ x37 ∷ x38 ∷ pad)
      w h =
    let size = w.digest_size in
    rw (size, set_after a.auth_digest _ 32 0 32 a.key_id size refl)
      (rw (set_after a.auth_digest _ 32 1 33 0 size refl))
auth_split_zero a _ w h = absurd (omega arith)

marshal_auth-cons :
    (a : AuthTrailer) (x : ℕ) (b : List ℕ) (off : ℕ)
    → marshal_auth a (x ∷ b) (suc off) ≡ x ∷ marshal_auth a b off
unfolding marshal_auth
marshal_auth-cons a x b off = simp suc-add

-- The method writes its trailer behind the first `off` bytes and changes nothing else.
pub auth_split :
    (a : AuthTrailer) (b : List ℕ) (off : ℕ)
    → IsWire a
    → off + 39 ≤ length b
    → marshal_auth a b off ≡ take off b ++ auth_block a (drop 39 (drop off b))
auth_split a b zero w h = auth_split_zero a b w (omega arith)
auth_split a [] (suc off) w h = absurd (omega arith)
auth_split a (x ∷ b) (suc off) w h =
    marshal_auth-cons a x b off ∙ ap (◌∷◌ x) (auth_split a b off w (omega arith))

pub length-marshal_auth :
    (a : AuthTrailer) (b : List ℕ) (off : ℕ)
    → IsWire a
    → off + 39 ≤ length b
    → length (marshal_auth a b off) ≡ length b
length-marshal_auth a b off w h =
    ap length (auth_split a b off w h)
    ∙ omega (
      arith,
      w.digest_size,
      length-append (take off b) (auth_block a (drop 39 (drop off b))),
      length-append a.auth_digest (a.key_id ∷ (0 ∷ drop 39 (drop off b))),
      length-take_of_le off b (omega arith),
      length-drop 39 (drop off b),
      length-drop off b,
    )
