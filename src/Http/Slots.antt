-- ===== src/Http/Slots.antt =====
-- The limit of concurrent transfers of internal/tr143/http.go.
use diagd.Base.{ℕ, suc, ◌<◌, ◌≤◌, ◌≡◌, true, false, if◌then◌else◌, arith}
use diagd.Http.{Handler, new_handler, acquire, release}

-- The states that requests and ends of transfers reach in any order, with the transfers that run.
pub data Running (max bytes duration : ℕ) : Handler → ℕ → Type 0 where
  fresh : Running max bytes duration (new_handler max bytes duration) 0
  request :
      {h : Handler} {n : ℕ}
      → Running max bytes duration h n
      → Running max bytes duration (acquire h).0 (if (acquire h).1 then suc n else n)
  finish :
      {h : Handler} {n : ℕ}
      → Running max bytes duration h (suc n)
      → Running max bytes duration (release h) n

-- The count of active transfers is their number, which a positive limit bounds, and a request is
-- refused exactly where the limit is positive and reached.
pub record Slots (max : ℕ) (h : Handler) (n : ℕ) : Type 0 where
  pub limit : h.max_concurrent ≡ max
  pub counted : h.active ≡ n
  pub within : 0 < max → n ≤ max
  pub refused : (acquire h).1 ≡ false → (0 < max) × (n ≡ max)
  pub accepted : (acquire h).1 ≡ true → 0 < max → n < max
  pub held : 0 < max → h.in_use ≡ n

request-Slots :
    (max : ℕ) (h : Handler) (n : ℕ)
    → Slots max h n
    → Slots max (acquire h).0 (if (acquire h).1 then suc n else n)
unfolding acquire
request-Slots max h n s = ground (arith, s.limit, s.counted, s.within, s.held)

finish-Slots : (max : ℕ) (h : Handler) (n : ℕ) → Slots max h (suc n) → Slots max (release h) n
unfolding acquire release
finish-Slots max h n s = ground (arith, s.limit, s.counted, s.within, s.held)

new-Slots : (max bytes duration : ℕ) → Slots max (new_handler max bytes duration) 0
unfolding acquire new_handler
new-Slots max bytes duration = ground arith

-- However requests and ends of transfers follow each other, the count of active transfers is their
-- number, at most a positive limit, and a request is refused exactly where that limit is reached.
pub Running-Slots :
    {max bytes duration : ℕ} {h : Handler} {n : ℕ} → Running max bytes duration h n → Slots max h n
Running-Slots fresh = new-Slots _ _ _
Running-Slots (request r) = request-Slots _ _ _ (Running-Slots r)
Running-Slots (finish r) = finish-Slots _ _ _ (Running-Slots r)
