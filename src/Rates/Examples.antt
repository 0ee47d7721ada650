-- ===== src/Rates/Examples.antt =====
-- Tests and instances for internal/udpst/srates.go.
use diagd.Base.{◌+◌, ◌*◌, ◌≤◌, ◌<◌, ◌≡◌, refl, true, false, arith, get_or}
use diagd.Rates.{
  Rate, no_rate, build_rate_table, bits_per_second, max_j_payload_size, rate_rand_bit,
}
use diagd.Rates.Order.{rate_rises, row_nominal}

rate_rises_example :
    bits_per_second true (get_or (build_rate_table true false).rows 999 no_rate)
    ≤ bits_per_second true (get_or (build_rate_table true false).rows 1063 no_rate)
rate_rises_example = rate_rises true false true 999 1063 (omega arith) (omega arith)

row_nominal_example :
    (bits_per_second false (get_or (build_rate_table false true).rows 500 no_rate) ≤ 500 * 1000000)
    × (500 * 1000000
        < bits_per_second false (get_or (build_rate_table false true).rows 500 no_rate) + 10000)
row_nominal_example = row_nominal false true 500 (omega arith) (omega arith)

-- The expectations of srates_test.go.
abbrev keepalive_row : Rate
keepalive_row = record no_rate { tx_interval2 = 50000; udp_addon2 = 1222 + rate_rand_bit }

abbrev last_jumbo_row : Rate
last_jumbo_row = record no_rate { tx_interval1 = 100; udp_payload1 = 8972; burst_size1 = 100 }

known_rows :
    (get_or (build_rate_table true false).rows 0 no_rate ≡ keepalive_row)
    × ((get_or (build_rate_table true false).rows 1152 no_rate ≡ last_jumbo_row)
        × ((get_or (build_rate_table true false).rows 1062 no_rate).udp_payload1
            ≡ max_j_payload_size))
unfolding build_rate_table
known_rows = (refl, (refl, refl))
