-- ===== src/Session/Buffers.antt =====
-- The buffers of sendLoop of internal/udpst/session.go: one more than the largest burst, each of the
-- largest payload.
use diagd.Base.{
  ℕ, suc, ◌+◌, ◌≤◌, ◌<◌, Bool, List, [], ◌∷◌, ◌++◌, All, length, length-append, length-replicate,
  replicate, arith, ltb, if◌then◌else◌, get_or, true, false, zero,
}
use diagd.Rates.{no_rate, max_burst_size, max_j_payload_size, max_sending_rates, build_rate_table}
use diagd.Rates.Order.{row_bursts}
use diagd.Session.Bursts.{min_size, clamp_size, burst_sizes, burst_payload}

-- A datagram has room for the 32 bytes of a load header and lies in its buffer.
abbrev pub InBuffer : ℕ → Type 0
InBuffer size = (32 ≤ size) × (size ≤ max_j_payload_size)

clamp-InBuffer : (ipv6 : Bool) (size : ℕ) → InBuffer (clamp_size ipv6 size)
unfolding clamp_size min_size
clamp-InBuffer ipv6 size = ground arith

All-replicate : (n size : ℕ) → InBuffer size → All InBuffer (replicate n size)
All-replicate zero size h = tt
All-replicate (suc n) size h = (h, All-replicate n size h)

All-append : (xs ys : List ℕ) → All InBuffer xs → All InBuffer ys → All InBuffer (xs ++ ys)
All-append [] ys h k = k
All-append (x ∷ xs) ys h k = (h.0, All-append xs ys h.1 k)

optional-InBuffer :
    (b : Bool) (size : ℕ) → InBuffer size → All InBuffer (if b then size ∷ [] else [])
optional-InBuffer true size h = (h, tt)
optional-InBuffer false size h = tt

length-optional : (b : Bool) (size : ℕ) → length (if b then size ∷ [] else []) ≤ 1
length-optional true size = omega arith
length-optional false size = omega arith

burst_sizes-InBuffer :
    (draw : ℕ → ℕ) (ipv6 : Bool) (field burst addon : ℕ)
    → All InBuffer (burst_sizes draw ipv6 field burst addon)
unfolding burst_sizes
burst_sizes-InBuffer draw ipv6 field burst addon =
    let size = clamp_size ipv6 (burst_payload draw ipv6 field) in
    let extra = clamp_size ipv6 (burst_payload draw ipv6 addon) in
    All-append (replicate burst size) (if ltb 0 addon then extra ∷ [] else [])
      (All-replicate burst size (clamp-InBuffer ipv6 (burst_payload draw ipv6 field)))
      (optional-InBuffer (ltb 0 addon) extra (clamp-InBuffer ipv6 (burst_payload draw ipv6 addon)))

length-burst_sizes :
    (draw : ℕ → ℕ) (ipv6 : Bool) (field burst addon : ℕ)
    → length (burst_sizes draw ipv6 field burst addon) ≤ burst + 1
unfolding burst_sizes
length-burst_sizes draw ipv6 field burst addon =
    let size = clamp_size ipv6 (burst_payload draw ipv6 field) in
    let extra = clamp_size ipv6 (burst_payload draw ipv6 addon) in
    omega (
      arith,
      length-append (replicate burst size) (if ltb 0 addon then extra ∷ [] else []),
      length-replicate burst size,
      length-optional (ltb 0 addon) extra,
    )

-- For every row of each table, a burst of either transmitter has a buffer for each datagram, the
-- add-on included, and each datagram has room for the 32 bytes of
-- its load header and lies in its buffer.
pub burst_fits_buffers :
    (jumbo traditional : Bool) (i : ℕ) (draw : ℕ → ℕ) (ipv6 : Bool)
    → i < max_sending_rates
    → let r = get_or (build_rate_table jumbo traditional).rows i no_rate in
      let first = burst_sizes draw ipv6 r.udp_payload1 r.burst_size1 0 in
      let second = burst_sizes draw ipv6 r.udp_payload2 r.burst_size2 r.udp_addon2 in
      ((length first ≤ max_burst_size + 1) × All InBuffer first)
      × ((length second ≤ max_burst_size + 1) × All InBuffer second)
burst_fits_buffers jumbo traditional i draw ipv6 lt =
    let r = get_or (build_rate_table jumbo traditional).rows i no_rate in
    let (b1, b2) = row_bursts jumbo traditional i lt in
    (
      (
        omega (arith, b1, length-burst_sizes draw ipv6 r.udp_payload1 r.burst_size1 0),
        burst_sizes-InBuffer draw ipv6 r.udp_payload1 r.burst_size1 0,
      ),
      (
        omega (arith, b2, length-burst_sizes draw ipv6 r.udp_payload2 r.burst_size2 r.udp_addon2),
        burst_sizes-InBuffer draw ipv6 r.udp_payload2 r.burst_size2 r.udp_addon2,
      ),
    )
