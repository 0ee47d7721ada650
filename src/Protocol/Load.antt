-- ===== src/Protocol/Load.antt =====
-- internal/udpst/protocol.go: the load datagram header, and its codec.
use diagd.Base.{
  ℕ, ◌<◌, ◌≤◌, ◌≡◌, List, ◌∷◌, ◌||◌, Option, none, some, get_or, set, length, put16, put32, get16,
  get32, join16, join32, ltb, ◌==◌, not, if◌then◌else◌, arith,
}
use diagd.Protocol.{LoadPdu, pdu_id_load, load_hdr_size, test_action_stop2}

unfoldable pub parse_load_hdr : List ℕ → Option LoadPdu
parse_load_hdr b =
    let p : LoadPdu = record {
      test_action = get_or b 2 0;
      rx_stopped = get_or b 3 0;
      seq_no = get32 b 4;
      udp_payload = get16 b 8;
      spdu_seq_err = get16 b 10;
      spdu_time_sec = get32 b 12;
      spdu_time_nsec = get32 b 16;
      time_sec = get32 b 20;
      time_nsec = get32 b 24;
      rtt_resp_delay = get16 b 28;
    } in
    if ltb (length b) load_hdr_size
    then none
    else (if not (get16 b 0 == pdu_id_load)
        then none
        else (if ltb test_action_stop2 p.test_action || ltb 1 p.rx_stopped then none else some p))

unfoldable pub marshal_into : LoadPdu → List ℕ → List ℕ
marshal_into p b0 =
    let b1 = put16 b0 0 pdu_id_load in
    let b2 = set (set b1 2 p.test_action) 3 p.rx_stopped in
    let b3 = put32 b2 4 p.seq_no in
    let b4 = put16 (put16 b3 8 p.udp_payload) 10 p.spdu_seq_err in
    let b5 = put32 (put32 b4 12 p.spdu_time_sec) 16 p.spdu_time_nsec in
    let b6 = put32 (put32 b5 20 p.time_sec) 24 p.time_nsec in
    put16 (put16 b6 28 p.rtt_resp_delay) 30 0

pub record IsWire (p : LoadPdu) : Type 0 where
  pub action_known : p.test_action ≤ test_action_stop2
  pub stopped_flag : p.rx_stopped ≤ 1
  pub seq_word : p.seq_no < 4294967296
  pub payload_half : p.udp_payload < 65536
  pub err_half : p.spdu_seq_err < 65536
  pub echo_sec_word : p.spdu_time_sec < 4294967296
  pub echo_nsec_word : p.spdu_time_nsec < 4294967296
  pub sec_word : p.time_sec < 4294967296
  pub nsec_word : p.time_nsec < 4294967296
  pub delay_half : p.rtt_resp_delay < 65536

-- A load header with fields of their widths, written into a buffer of 32 bytes or more, is read
-- back as it was.
pub parse-marshal_into :
    (p : LoadPdu) (b : List ℕ)
    → IsWire p
    → load_hdr_size ≤ length b
    → parse_load_hdr (marshal_into p b) ≡ some p
unfolding parse_load_hdr marshal_into
parse-marshal_into p
      (x0 ∷ x1 ∷ x2 ∷ x3 ∷ x4 ∷ x5 ∷ x6 ∷ x7 ∷ x8 ∷ x9 ∷ x10 ∷ x11 ∷ x12 ∷ x13 ∷ x14 ∷ x15 ∷ x16
        ∷ x17 ∷ x18 ∷ x19 ∷ x20 ∷ x21 ∷ x22 ∷ x23 ∷ x24 ∷ x25 ∷ x26 ∷ x27 ∷ x28 ∷ x29 ∷ x30 ∷ x31
        ∷ pad)
      w h =
    ground (
      arith,
      join32 p.seq_no,
      join16 p.udp_payload,
      join16 p.spdu_seq_err,
      join32 p.spdu_time_sec,
      join32 p.spdu_time_nsec,
      join32 p.time_sec,
      join32 p.time_nsec,
      join16 p.rtt_resp_delay,
    )
parse-marshal_into p _ w h = absurd (omega arith)
