-- ===== src/Rates.antt =====
-- internal/udpst/srates.go: the sending rate table. A row's fields are uint32 values. The rows are
-- kept newest first beside their number while the table is built, and turned round at the end.
pub mod Codec
pub mod Order
mod Examples
use Prim.Native.Nat.{bit_or}
use diagd.Base.{
  ℕ, zero, suc, ◌+◌, ◌-◌, ◌*◌, ◌/◌, ◌%◌, ◌≤◌, ◌<◌, Bool, true, false, ◌&&◌, ◌||◌, not, List, [],
  ◌∷◌, reverse, ltb, leb, ◌==◌, if◌then◌else◌,
}

abbrev pub max_sending_rates : ℕ
max_sending_rates = 1153

abbrev pub base_send_timer1 : ℕ
base_send_timer1 = 100

abbrev pub base_send_timer2 : ℕ
base_send_timer2 = 1000

abbrev pub max_l3_packet : ℕ
max_l3_packet = 1250

abbrev pub max_j_l3_packet : ℕ
max_j_l3_packet = 9000

abbrev pub l3_overhead : ℕ
l3_overhead = 28

abbrev pub ipv6_add_size : ℕ
ipv6_add_size = 20

abbrev pub max_burst_size : ℕ
max_burst_size = 100

abbrev pub max_payload_size : ℕ
max_payload_size = 1222

abbrev pub max_j_payload_size : ℕ
max_j_payload_size = 8972

abbrev pub max_t_payload_size : ℕ
max_t_payload_size = 1472

abbrev pub min_payload_size : ℕ
min_payload_size = 52

abbrev pub rate_rand_bit : ℕ
rate_rand_bit = 0x80000000

pub record Rate : Type 0 where
  pub tx_interval1 : ℕ
  pub udp_payload1 : ℕ
  pub burst_size1 : ℕ
  pub tx_interval2 : ℕ
  pub udp_payload2 : ℕ
  pub burst_size2 : ℕ
  pub udp_addon2 : ℕ

-- The zero value `Rate{}`.
abbrev pub no_rate : Rate
no_rate = record {
  tx_interval1 = 0;
  udp_payload1 = 0;
  burst_size1 = 0;
  tx_interval2 = 0;
  udp_payload2 = 0;
  burst_size2 = 0;
  udp_addon2 = 0;
}

-- The closure `sized` of BitsPerSecond. The `int` subtractions of `ipAdd` are grouped so that none
-- goes below 0; a set top bit of a uint32 is a value of at least `rate_rand_bit`.
unfoldable pub sized : Bool → ℕ → ℕ
sized ipv6 v =
    let ip_add : ℕ = if ipv6 then ipv6_add_size else 0 in
    if leb rate_rand_bit v
    then (min_payload_size + v % rate_rand_bit - 2 * ip_add) / 2 + l3_overhead + ip_add
    else v % rate_rand_bit + l3_overhead + ip_add - ip_add

-- Every float64 of the source holds a whole number here, exactly so below 2^53.
unfoldable pub bits_per_second : Bool → Rate → ℕ
unfolding sized
bits_per_second ipv6 r =
    ((if ltb 0 r.burst_size1 && ltb 0 r.tx_interval1
        then 1000000 / r.tx_interval1 * r.burst_size1 * sized ipv6 r.udp_payload1
        else 0)
      + (if ltb 0 r.burst_size2 && ltb 0 r.tx_interval2
          then 1000000 / r.tx_interval2 * r.burst_size2 * sized ipv6 r.udp_payload2
          else 0)
      + (if ltb 0 r.udp_addon2 && ltb 0 r.tx_interval2
          then 1000000 / r.tx_interval2 * sized ipv6 r.udp_addon2
          else 0))
    * 8

pub record RateTable : Type 0 where
  pub rows : List Rate
  pub high_speed_thresh : ℕ

-- The table under construction: the rows newest first, `len(t.Rows)`, and the flag `stop`.
record Build : Type 0 where
  newest : List Rate
  count : ℕ
  stop : Bool

push : Rate → Build → Build
push r b = record { newest = r ∷ b.newest; count = b.count + 1; stop = b.stop }

-- The loop over `j` of region 1, with the rounds left.
addon_rows : ℕ → ℕ → Rate → Build → Build
unfolding push
addon_rows zero j sr b = b
addon_rows (suc left) j sr b =
    let add : Rate = record sr {
      tx_interval2 = base_send_timer2;
      udp_addon2 = j * 1000 / 8 - l3_overhead;
    } in
    let b' = push add b in
    elim (ltb 1000 b'.count) [
      | true ↦ record b' { stop = true }
      | false ↦ addon_rows left (j + 1) sr b'
    ]

-- The row `sr` as the two `if`s set it.
block_row : ℕ → ℕ → ℕ → Rate
block_row payload k i = record {
  tx_interval1 = if ltb 0 k then base_send_timer1 else 0;
  udp_payload1 = if ltb 0 k then payload else 0;
  burst_size1 = if ltb 0 k then k else 0;
  tx_interval2 = if ltb 0 i then base_send_timer2 else 0;
  udp_payload2 = if ltb 0 i then payload else 0;
  burst_size2 = if ltb 0 i then i else 0;
  udp_addon2 = 0;
}

-- One round of the loop over `i`.
block : Bool → ℕ → ℕ → ℕ → ℕ → ℕ → Build → Build
unfolding push addon_rows block_row
block traditional jmax kmax payload k i b =
    let sr = block_row payload k i in
    let sr0 : Rate = record sr {
      tx_interval2 = 50000;
      udp_addon2 = bit_or payload rate_rand_bit;
    } in
    let last : Build = record (push sr b) { stop = true } in
    let keepalive = addon_rows jmax 1 sr0 (push sr0 b) in
    let plain = addon_rows jmax 1 sr (push sr b) in
    if k == 0 && i == 0 then keepalive else (if not traditional && k == kmax then last else plain)

blocks_i : Bool → ℕ → ℕ → ℕ → ℕ → ℕ → ℕ → Build → Build
unfolding block
blocks_i traditional jmax kmax payload k zero i b = b
blocks_i traditional jmax kmax payload k (suc left) i b = elim b.stop [
  | true ↦ b
  | false ↦
      blocks_i traditional jmax kmax payload k left (i + 1)
        (block traditional jmax kmax payload k i b)
]

blocks_k : Bool → ℕ → ℕ → ℕ → ℕ → ℕ → Build → Build
unfolding blocks_i
blocks_k traditional jmax kmax payload zero k b = b
blocks_k traditional jmax kmax payload (suc left) k b = elim b.stop [
  | true ↦ b
  | false ↦
      blocks_k traditional jmax kmax payload left (k + 1)
        (blocks_i traditional jmax kmax payload k 10 0 b)
]

-- The jumbo ramp of region 2. It has 62 rounds; the first argument is fuel above that.
jumbo_rows : ℕ → ℕ → Build → Build
unfolding push
jumbo_rows zero l3 b = b
jumbo_rows (suc fuel) l3 b = elim (leb l3 max_j_l3_packet) [
  | true ↦ jumbo_rows fuel (l3 + 125) (
      push
        (record no_rate {
          tx_interval1 = base_send_timer1;
          udp_payload1 = l3 - l3_overhead;
          burst_size1 = 10;
        })
        b)
  | false ↦ b
]

-- The last loop. Each round adds a row, so `max_sending_rates` rounds are enough.
burst_rows : ℕ → ℕ → ℕ → Build → Build
unfolding push
burst_rows zero payload j b = b
burst_rows (suc fuel) payload j b = elim (ltb b.count max_sending_rates) [
  | true ↦ burst_rows fuel payload (j + 1) (
      push
        (record no_rate {
          tx_interval1 = base_send_timer1;
          udp_payload1 = payload;
          burst_size1 = if leb max_burst_size j then max_burst_size else j;
        })
        b)
  | false ↦ b
]

region1 : Bool → Build
unfolding blocks_k
region1 traditional =
    let empty : Build = record { newest = []; count = 0; stop = false } in
    if traditional
    then blocks_k true 11 8 max_t_payload_size 9 0 empty
    else blocks_k false 9 10 max_payload_size 11 0 empty

region2 : Bool → Bool → Build → Build
unfolding jumbo_rows burst_rows
region2 true traditional b =
    burst_rows max_sending_rates max_j_payload_size 11 (jumbo_rows 100 (max_l3_packet + 125) b)
region2 false true b = burst_rows max_sending_rates max_t_payload_size 9 b
region2 false false b = burst_rows max_sending_rates max_payload_size 11 b

pub build_rate_table : Bool → Bool → RateTable
unfolding region1 region2
build_rate_table jumbo traditional =
    let r1 = region1 traditional in
    record {
      rows = reverse (region2 jumbo traditional r1).newest;
      high_speed_thresh = r1.count - 1;
    }
