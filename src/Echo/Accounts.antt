-- ===== src/Echo/Accounts.antt =====
-- What the counters of the responder of internal/tr143/echo.go are worth over a run of Serve.
use diagd.Base.{ℕ, ◌+◌, ◌≤◌, ◌<◌, ◌≡◌, Bool, List, [], ◌∷◌, if◌then◌else◌, u32, u64}
use diagd.Echo.{EchoServer, Packet, Received, closed, failed, packet}
use diagd.Echo.Packets.{drops_of}

-- How many packets of a run pass a test.
unfoldable pub count : (Packet → Bool) → List Received → ℕ
count f [] = 0
count f (closed ∷ rest) = 0
count f (failed ∷ rest) = 0
count f (packet p ∷ rest) = (if f p then 1 else 0) + count f rest

unfoldable pub last_drops_of : ℕ → List Received → ℕ
last_drops_of drops [] = drops
last_drops_of drops (closed ∷ rest) = drops
last_drops_of drops (failed ∷ rest) = drops
last_drops_of drops (packet p ∷ rest) = last_drops_of (drops_of drops p) rest

-- The kernel's counter of drops does not go back.
unfoldable pub Rising : ℕ → List Received → Type 0
Rising drops [] = Unit {0}
Rising drops (closed ∷ rest) = Unit {0}
Rising drops (failed ∷ rest) = Unit {0}
Rising drops (packet p ∷ rest) =
    ((drops ≤ drops_of drops p) × (drops_of drops p < 4294967296)) × Rising (drops_of drops p) rest

-- The counters of a responder for which so many packets were received, so many Echo Plus answers
-- sent and so many answers failed.
pub record Counters (s : EchoServer) (received plus lost : ℕ) : Type 0 where
  pub received_exact : s.received ≡ u64 received
  pub responses_exact : s.responses ≡ u32 plus
  pub failures_exact : s.failures ≡ u32 (lost + s.last_drops)
