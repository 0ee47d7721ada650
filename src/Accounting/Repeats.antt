-- ===== src/Accounting/Repeats.antt =====
-- Late and repeated datagrams of internal/udpst/accounting.go.
use diagd.Base.{ℕ, ◌≡◌, true, take}
use diagd.Accounting.{RxAccounting, mem_history}
use diagd.Accounting.Ring.{recent}

-- The number is among the newest k of the history.
abbrev IsWithin : ℕ → RxAccounting → ℕ → Type 0
IsWithin k a s = mem_history s (take k (recent a)) ≡ true
