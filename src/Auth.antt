-- ===== src/Auth.antt =====
-- internal/udpst/auth.go: session keys and PDU digests. HMAC-SHA-256 of the Go library is the
-- parameter `mac`: key, then message, to 32 bytes. A byte string is a list of byte values.
pub mod Sign
pub mod Wire
pub mod Examples
use diagd.Base.{
  ℕ, zero, suc, ◌+◌, ◌-◌, ◌*◌, ◌/◌, ◌%◌, ◌<◌, ◌≤◌, ◌≡◌, List, [], ◌∷◌, ◌++◌, Bool, true, false,
  ◌&&◌, ltb, ◌==◌, if◌then◌else◌, length, take, drop, replicate, set, put32, copy_at, slice,
}

abbrev pub auth_time_window : ℕ
auth_time_window = 5

abbrev pub auth_mode_none : ℕ
auth_mode_none = 0

abbrev pub auth_mode_control : ℕ
auth_mode_control = 1

pub record SessionKeys : Type 0 where
  pub client : List ℕ
  pub server : List ℕ

-- strconv.FormatUint(v, 10): the decimal digits, with fuel for the ten that a uint32 can have.
decimal : ℕ → ℕ → List ℕ → List ℕ
decimal zero v acc = acc
decimal (suc fuel) v acc =
    let acc' : List ℕ = (b'0' + v % 10) ∷ acc in
    elim (ltb v 10) [ true ↦ acc' | false ↦ decimal fuel (v / 10) acc' ]

pub format_uint : ℕ → List ℕ
unfolding decimal
format_uint v = decimal 10 v []

abbrev label : List ℕ
label = b'U' ∷ b'D' ∷ b'P' ∷ b'S' ∷ b'T' ∷ b'P' ∷ []

abbrev out_bytes : ℕ
out_bytes = 64

be32 : ℕ → List ℕ
be32 v = put32 (replicate 4 0) 0 v

-- What one round writes into the MAC.
pub kdf_block : ℕ → List ℕ → List ℕ
unfolding be32
kdf_block counter context = be32 counter ++ (label ++ (0 ∷ (context ++ be32 (out_bytes * 8))))

-- `for len(out) < outBytes`: the fuel is the number of rounds allowed.
kdf_loop : (List ℕ → List ℕ → List ℕ) → List ℕ → List ℕ → ℕ → ℕ → List ℕ → List ℕ
kdf_loop mac key context zero counter out = out
kdf_loop mac key context (suc fuel) counter out = elim (ltb (length out) out_bytes) [
  | true ↦ kdf_loop mac key context fuel (counter + 1) (out ++ mac key (kdf_block counter context))
  | false ↦ out
]

pub derive_session_keys : (List ℕ → List ℕ → List ℕ) → List ℕ → ℕ → SessionKeys
unfolding kdf_loop
derive_session_keys mac shared_key auth_unix_time =
    let out = kdf_loop mac shared_key (format_uint auth_unix_time) 3 1 [] in
    record { client = take 32 out; server = take 32 (drop 32 out) }

-- The PDU with the digest field zeroed.
masked : List ℕ → ℕ → List ℕ
masked pdu digest_off = copy_at pdu digest_off (replicate 32 0)

pub compute_digest : (List ℕ → List ℕ → List ℕ) → List ℕ → List ℕ → ℕ → List ℕ
unfolding masked
compute_digest mac key pdu digest_off = mac key (masked pdu digest_off)

-- subtle.ConstantTimeCompare(a, b) == 1.
bytes_eq : List ℕ → List ℕ → Bool
bytes_eq [] [] = true
bytes_eq [] (y ∷ ys) = false
bytes_eq (x ∷ xs) [] = false
bytes_eq (x ∷ xs) (y ∷ ys) = x == y && bytes_eq xs ys

pub verify_digest : (List ℕ → List ℕ → List ℕ) → List ℕ → List ℕ → ℕ → List ℕ → Bool
unfolding bytes_eq
verify_digest mac key pdu digest_off received =
    bytes_eq (compute_digest mac key pdu digest_off) received

pub sign_pdu : (List ℕ → List ℕ → List ℕ) → List ℕ → List ℕ → ℕ → List ℕ
sign_pdu mac key pdu digest_off = copy_at pdu digest_off (compute_digest mac key pdu digest_off)
