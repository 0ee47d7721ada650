-- ===== src/Clock.antt =====
-- Time. A `time.Time` is the number of nanoseconds since the Unix epoch, a `time.Duration` a number
-- of nanoseconds; `Sub` is used on readings of the monotonic clock, in order. The wire carries
-- 32-bit seconds and nanoseconds: `wallDiffMs` of internal/udpst/session.go compares with them.
use diagd.Base.{ℕ, ◌+◌, ◌-◌, ◌*◌, ◌/◌, ◌%◌, ltb, if◌then◌else◌, u32}
use diagd.Base.Int.{ℤ, pos, negsuc, ◌+ℤ◌, pos_part, neg_part, sub_ℕ}

abbrev pub second : ℕ
second = 1000000000

abbrev pub millisecond : ℕ
millisecond = 1000000

abbrev pub microsecond : ℕ
microsecond = 1000

abbrev pub unix : ℕ → ℕ
unix t = t / 1000000000

abbrev pub nanosecond : ℕ → ℕ
nanosecond t = t % 1000000000

-- int32(w), for the bit pattern w below 2^32.
abbrev pub int32 : ℕ → ℤ
int32 w = if ltb w 0x80000000 then pos w else negsuc (0xFFFFFFFF - w)

-- Go's `/` by a positive constant, which rounds towards zero.
abbrev pub quot : ℤ → ℕ → ℤ
quot (pos n) k = pos (n / k)
quot (negsuc n) k = sub_ℕ 0 ((n + 1) / k)

-- uint32(v) of a signed value.
abbrev pub u32_ℤ : ℤ → ℕ
u32_ℤ (pos n) = u32 n
u32_ℤ (negsuc n) = 0xFFFFFFFF - u32 n

-- int64(ds) * 1000.
abbrev pub scale : ℤ → ℕ → ℤ
scale a k = sub_ℕ (pos_part a * k) (neg_part a * k)

-- uint32(t.Unix()) - sec wraps, and is read as a signed number.
unfoldable pub wall_diff_ms : ℕ → ℕ → ℕ → ℤ
unfolding ◌+ℤ◌
wall_diff_ms t sec nsec =
    scale (int32 (u32 (u32 (unix t) + 0x100000000 - sec))) 1000
    +ℤ quot (sub_ℕ (nanosecond t) nsec) 1000000
