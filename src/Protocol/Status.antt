-- ===== src/Protocol/Status.antt =====
-- internal/udpst/protocol.go: the saved sub-interval statistics and the status PDU.
pub mod RoundTrip
use diagd.Base.{
  ℕ, suc, ◌+◌, ◌*◌, ◌/◌, ◌%◌, ◌<◌, ◌≤◌, ◌≡◌, refl, ap, List, [], ◌∷◌, ◌++◌, Bool, true, false, ◌&&◌,
  ◌||◌, Option, none, some, get_or, set, length, replicate, put16, put32, put64, get16, get32,
  get64, join16, join32, join64, ltb, ◌==◌, not, if◌then◌else◌, arith, ◌⊎◌, inl, inr, take, drop,
  copy_at, slice,
}
use diagd.Rates.Codec
use diagd.Rates.Codec.{marshal_rate, parse_rate}
use diagd.Protocol.{
  SubIntStats, StatusPdu, status_size, status_legacy_size, pdu_id_status, test_action_stop2,
}

abbrev pub marshal_sub_int : SubIntStats → List ℕ → ℕ → List ℕ
marshal_sub_int s b off =
    let b1 = put64 (put32 b off s.rx_datagrams) (off + 4) s.rx_bytes in
    let b2 = put32 (put32 b1 (off + 12) s.delta_time) (off + 16) s.seq_err_loss in
    let b3 = put32 (put32 b2 (off + 20) s.seq_err_ooo) (off + 24) s.seq_err_dup in
    let b4 = put32 (put32 b3 (off + 28) s.delay_var_min) (off + 32) s.delay_var_max in
    let b5 = put32 (put32 b4 (off + 36) s.delay_var_sum) (off + 40) s.delay_var_cnt in
    let b6 = put32 (put32 b5 (off + 44) s.rtt_var_min) (off + 48) s.rtt_var_max in
    put32 b6 (off + 52) s.accum_time

abbrev pub parse_sub_int_stats : List ℕ → ℕ → SubIntStats
parse_sub_int_stats b off = record {
  rx_datagrams = get32 b off;
  rx_bytes = get64 b (off + 4);
  delta_time = get32 b (off + 12);
  seq_err_loss = get32 b (off + 16);
  seq_err_ooo = get32 b (off + 20);
  seq_err_dup = get32 b (off + 24);
  delay_var_min = get32 b (off + 28);
  delay_var_max = get32 b (off + 32);
  delay_var_sum = get32 b (off + 36);
  delay_var_cnt = get32 b (off + 40);
  rtt_var_min = get32 b (off + 44);
  rtt_var_max = get32 b (off + 48);
  accum_time = get32 b (off + 52);
}

-- What both layouts write up to offset 40.
status_head : StatusPdu → ℕ → List ℕ
status_head p size =
    let b1 = put16 (replicate size 0) 0 pdu_id_status in
    let b2 = put32 (set (set b1 2 p.test_action) 3 p.rx_stopped) 4 p.seq_no in
    put32 (marshal_rate p.sr b2 8) 36 p.sub_int_seq_no

-- The ten counters from `off` on; the loop of marshalLegacy, written out.
marshal_counters : StatusPdu → List ℕ → ℕ → List ℕ
marshal_counters p b off =
    let b1 = put32 (put32 b off p.seq_err_loss) (off + 4) p.seq_err_ooo in
    let b2 = put32 (put32 b1 (off + 8) p.seq_err_dup) (off + 12) p.clock_delta_min in
    let b3 = put32 (put32 b2 (off + 16) p.delay_var_min) (off + 20) p.delay_var_max in
    let b4 = put32 (put32 b3 (off + 24) p.delay_var_sum) (off + 28) p.delay_var_cnt in
    put32 (put32 b4 (off + 32) p.rtt_minimum) (off + 36) p.rtt_var_sample

-- The trial interval fields: DelayMinUpd at `off`, and five words from `off + 4` on.
marshal_interval : StatusPdu → List ℕ → ℕ → List ℕ
marshal_interval p b off =
    let b1 = put32 (set b off p.delay_min_upd) (off + 4) p.ti_delta_time in
    let b2 = put32 (put32 b1 (off + 8) p.ti_rx_datagrams) (off + 12) p.ti_rx_bytes in
    put32 (put32 b2 (off + 16) p.time_sec) (off + 20) p.time_nsec

marshal_legacy : StatusPdu → List ℕ
unfolding status_head marshal_counters marshal_interval
marshal_legacy p =
    let b1 = put32 (status_head p status_legacy_size) 40 p.sub_int_saved.rx_datagrams in
    let tmp = marshal_sub_int p.sub_int_saved (replicate 56 0) 0 in
    let b2 = copy_at b1 48 (slice tmp 4 52) in marshal_interval p (marshal_counters p b2 104) 144

unfoldable pub marshal_status : StatusPdu → List ℕ
unfolding status_head marshal_counters marshal_interval marshal_legacy
marshal_status p =
    let b1 = marshal_sub_int p.sub_int_saved (status_head p status_size) 40 in
    let b2 = marshal_interval p (marshal_counters p b1 96) 136 in
    let b3 = put32 (put32 (set b2 163 p.auth_mode) 176 p.ti_rx_ce_count) 180 p.saved_ce_count in
    if p.legacy then marshal_legacy p else set b3 185 p.modifiers

-- The fields that one layout reads: the statistics, and the counters and trial interval fields
-- from two offsets on. The last four are read by the current layout alone.
parse_fields : List ℕ → SubIntStats → ℕ → ℕ → Bool → StatusPdu
parse_fields b saved counters interval legacy = record {
  test_action = get_or b 2 0;
  rx_stopped = get_or b 3 0;
  seq_no = get32 b 4;
  sr = parse_rate b 8;
  sub_int_seq_no = get32 b 36;
  sub_int_saved = saved;
  seq_err_loss = get32 b counters;
  seq_err_ooo = get32 b (counters + 4);
  seq_err_dup = get32 b (counters + 8);
  clock_delta_min = get32 b (counters + 12);
  delay_var_min = get32 b (counters + 16);
  delay_var_max = get32 b (counters + 20);
  delay_var_sum = get32 b (counters + 24);
  delay_var_cnt = get32 b (counters + 28);
  rtt_minimum = get32 b (counters + 32);
  rtt_var_sample = get32 b (counters + 36);
  delay_min_upd = get_or b interval 0;
  ti_delta_time = get32 b (interval + 4);
  ti_rx_datagrams = get32 b (interval + 8);
  ti_rx_bytes = get32 b (interval + 12);
  time_sec = get32 b (interval + 16);
  time_nsec = get32 b (interval + 20);
  auth_mode = if legacy then 0 else get_or b 163 0;
  ti_rx_ce_count = if legacy then 0 else get32 b 176;
  saved_ce_count = if legacy then 0 else get32 b 180;
  modifiers = if legacy then 0 else get_or b 185 0;
  legacy = legacy;
}

unfoldable pub parse_status : List ℕ → Option StatusPdu
unfolding parse_fields
parse_status b =
    let tmp = copy_at (put32 (replicate 56 0) 0 (get32 b 40)) 4 (slice b 48 52) in
    if not (length b == status_size) && not (length b == status_legacy_size)
    then none
    else (if not (get16 b 0 == pdu_id_status)
        then none
        else (if ltb test_action_stop2 (get_or b 2 0) || ltb 1 (get_or b 3 0)
            then none
            else (if length b == status_legacy_size
                then some (parse_fields b (parse_sub_int_stats tmp 0) 104 144 true)
                else some (parse_fields b (parse_sub_int_stats b 40) 96 136 false))))
