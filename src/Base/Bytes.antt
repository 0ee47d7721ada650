-- ===== src/Base/Bytes.antt =====
-- Go's fixed-width conversions and big-endian byte accesses (encoding/binary), over a list of
-- byte values. No code of the repository.
use Prim.Native.Nat.{ℕ, zero, suc, ◌+◌, ◌*◌, ◌/◌, ◌%◌, ◌<◌}
use mathlib.Core.Path.{◌≡◌, refl, ap}
use mathlib.Core.List.{List, [], ◌∷◌, ◌++◌}
use native.Mathlib.Omega.{arith}
use diagd.Base.Lists.{get_or, set, take, drop, length}

abbrev pub u8 : ℕ → ℕ
u8 n = n % 256

abbrev pub u16 : ℕ → ℕ
u16 n = n % 65536

abbrev pub u32_mod : ℕ
u32_mod = 4294967296

abbrev pub u32 : ℕ → ℕ
u32 n = n % 4294967296

abbrev pub u64 : ℕ → ℕ
u64 n = n % 18446744073709551616

-- binary.BigEndian.PutUint16(b[off:], v) and its siblings.
abbrev pub put16 : List ℕ → ℕ → ℕ → List ℕ
put16 b off v = set (set b off (v / 256 % 256)) (suc off) (v % 256)

abbrev pub put32 : List ℕ → ℕ → ℕ → List ℕ
put32 b off v = put16 (put16 b off (v / 65536)) (suc (suc off)) v

abbrev pub put64 : List ℕ → ℕ → ℕ → List ℕ
put64 b off v = put32 (put32 b off (v / 4294967296)) (suc (suc (suc (suc off)))) v

-- copy(b[off:], src), where `src` fits.
abbrev pub copy_at : List ℕ → ℕ → List ℕ → List ℕ
copy_at b off src = take off b ++ (src ++ drop (off + length src) b)

-- b[off:off + n].
abbrev pub slice : List ℕ → ℕ → ℕ → List ℕ
slice b off n = take n (drop off b)

-- binary.BigEndian.Uint16(b[off:]) and its siblings.
abbrev pub get16 : List ℕ → ℕ → ℕ
get16 b off = get_or b off 0 * 256 + get_or b (suc off) 0

abbrev pub get32 : List ℕ → ℕ → ℕ
get32 b off = get16 b off * 65536 + get16 b (suc (suc off))

abbrev pub get64 : List ℕ → ℕ → ℕ
get64 b off = get32 b off * 4294967296 + get32 b (suc (suc (suc (suc off))))

pub join16 : (v : ℕ) → v < 65536 → v / 256 % 256 * 256 + v % 256 ≡ v
join16 v h = omega arith

pub join32 :
    (v : ℕ)
    → v < 4294967296
    → (v / 65536 / 256 % 256 * 256 + v / 65536 % 256) * 65536 + (v / 256 % 256 * 256 + v % 256) ≡ v
join32 v h = omega arith

pub join64 :
    (v : ℕ)
    → v < 18446744073709551616
    → ((v / 4294967296 / 65536 / 256 % 256 * 256 + v / 4294967296 / 65536 % 256) * 65536
            + (v / 4294967296 / 256 % 256 * 256 + v / 4294967296 % 256))
          * 4294967296
        + ((v / 65536 / 256 % 256 * 256 + v / 65536 % 256) * 65536
            + (v / 256 % 256 * 256 + v % 256))
      ≡ v
join64 v h = omega arith

-- Reads and writes at the end of a block of known length.
pub take_block : (d zs : List ℕ) (n : ℕ) → length d ≡ n → take n (d ++ zs) ≡ d
take_block [] zs zero h = refl
take_block [] zs (suc n) h = absurd (omega arith)
take_block (x ∷ d) zs zero h = absurd (omega arith)
take_block (x ∷ d) zs (suc n) h = ap (◌∷◌ x) (take_block d zs n (omega arith))

pub set_after :
    (d zs : List ℕ) (n j k v : ℕ) → length d ≡ n → n + j ≡ k → set (d ++ zs) k v ≡ d ++ set zs j v
set_after [] zs n j k v h e = let e' : k ≡ j = omega arith in ap (λ i. set zs i v) e'
set_after (x ∷ d) zs n j zero v h e = absurd (omega arith)
set_after (x ∷ d) zs n j (suc k) v h e =
    ap (◌∷◌ x) (set_after d zs (length d) j k v refl (omega arith))

pub get_after :
    (d zs : List ℕ) (n j k : ℕ) → length d ≡ n → n + j ≡ k → get_or (d ++ zs) k 0 ≡ get_or zs j 0
get_after [] zs n j k h e = let e' : k ≡ j = omega arith in ap (λ i. get_or zs i 0) e'
get_after (x ∷ d) zs n j zero h e = absurd (omega arith)
get_after (x ∷ d) zs n j (suc k) h e = get_after d zs (length d) j k refl (omega arith)

pub drop_after : (d zs : List ℕ) (n : ℕ) → length d ≡ n → drop n (d ++ zs) ≡ zs
drop_after [] zs zero h = refl
drop_after [] zs (suc n) h = absurd (omega arith)
drop_after (x ∷ d) zs zero h = absurd (omega arith)
drop_after (x ∷ d) zs (suc n) h = drop_after d zs n (omega arith)
