-- ===== src/Server/Code.antt =====
-- internal/udpst/protocol.go: the response codes of a Setup Response.
use diagd.Base.{ℕ}

abbrev pub ack_ok : ℕ
ack_ok = 1

abbrev pub bad_version : ℕ
bad_version = 2

abbrev pub bad_jumbo : ℕ
bad_jumbo = 3

abbrev pub auth_nc : ℕ
auth_nc = 4

abbrev pub auth_req : ℕ
auth_req = 5

abbrev pub auth_inv : ℕ
auth_inv = 6

abbrev pub auth_fail : ℕ
auth_fail = 7

abbrev pub auth_time : ℕ
auth_time = 8

abbrev pub no_max_bw : ℕ
no_max_bw = 9

abbrev pub cap_exc : ℕ
cap_exc = 10

abbrev pub bad_tmtu : ℕ
bad_tmtu = 11

abbrev pub mc_inv_par : ℕ
mc_inv_par = 12

abbrev pub conn_fail : ℕ
conn_fail = 13
