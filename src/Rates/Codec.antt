-- ===== src/Rates/Codec.antt =====
-- internal/udpst/srates.go: a rate row on the wire, 28 bytes from `off` on.
use diagd.Base.{ℕ, ◌+◌, ◌<◌, List, put32, get32}
use diagd.Rates.{Rate}

abbrev pub marshal_rate : Rate → List ℕ → ℕ → List ℕ
marshal_rate r b off =
    let b1 = put32 (put32 b off r.tx_interval1) (off + 4) r.udp_payload1 in
    let b2 = put32 (put32 b1 (off + 8) r.burst_size1) (off + 12) r.tx_interval2 in
    let b3 = put32 (put32 b2 (off + 16) r.udp_payload2) (off + 20) r.burst_size2 in
    put32 b3 (off + 24) r.udp_addon2

abbrev pub parse_rate : List ℕ → ℕ → Rate
parse_rate b off = record {
  tx_interval1 = get32 b off;
  udp_payload1 = get32 b (off + 4);
  burst_size1 = get32 b (off + 8);
  tx_interval2 = get32 b (off + 12);
  udp_payload2 = get32 b (off + 16);
  burst_size2 = get32 b (off + 20);
  udp_addon2 = get32 b (off + 24);
}

-- Every field is a uint32.
pub record IsWire (r : Rate) : Type 0 where
  pub interval1_word : r.tx_interval1 < 4294967296
  pub payload1_word : r.udp_payload1 < 4294967296
  pub burst1_word : r.burst_size1 < 4294967296
  pub interval2_word : r.tx_interval2 < 4294967296
  pub payload2_word : r.udp_payload2 < 4294967296
  pub burst2_word : r.burst_size2 < 4294967296
  pub addon2_word : r.udp_addon2 < 4294967296
