-- ===== src/Http/Downloads.antt =====
-- What the loop of downloadSized of internal/tr143/http.go sends.
use diagd.Base.{ℕ, zero, suc, ◌+◌, ◌*◌, ◌≤◌, ◌≡◌, refl, List, [], ◌∷◌, replicate, arith}
use native.Mathlib.Nat.{suc-mul}
use diagd.Http.{Write, whole, broken, portion, send_sized}

-- A failing Write has taken no more than it was given.
unfoldable pub Writes : ℕ → ℕ → ℕ → List Write → Type 0
Writes block size sent [] = Unit {0}
Writes block size sent (whole ∷ ws) = Writes block size (sent + portion block size sent) ws
Writes block size sent (broken wrote ∷ ws) = wrote ≤ portion block size sent

portion-le : (block size sent : ℕ) → sent ≤ size → sent + portion block size sent ≤ size
portion-le block size sent le = ground (arith, le)

send_sized_le :
    (block size sent : ℕ) (ws : List Write)
    → sent ≤ size
    → Writes block size sent ws
    → send_sized block size sent ws ≤ size
unfolding send_sized Writes
send_sized_le block size sent [] le h = le
send_sized_le block size sent (whole ∷ ws) le h = ground (
  arith,
  le,
  send_sized_le block size (sent + portion block size sent) ws (portion-le block size sent le) h,
)
send_sized_le block size sent (broken wrote ∷ ws) le h = ground (arith, le, h)

send_sized_done : (block size : ℕ) (ws : List Write) → send_sized block size size ws ≡ size
unfolding send_sized
send_sized_done block size [] = refl
send_sized_done block size (w ∷ ws) = ground arith

enough_left :
    (block size sent k : ℕ)
    → sent ≤ size
    → size ≤ sent + suc k * block
    → size ≤ sent + portion block size sent + k * block
enough_left block size sent k le h = ground (arith, le, h, suc-mul k block)

pub sized_from :
    (block size sent k : ℕ)
    → sent ≤ size
    → size ≤ sent + k * block
    → send_sized block size sent (replicate k whole) ≡ size
unfolding send_sized
sized_from block size sent zero le enough = omega (arith, le, enough)
sized_from block size sent (suc k) le enough = ground (
  arith,
  le,
  sized_from block size (sent + portion block size sent) k (portion-le block size sent le)
      (enough_left block size sent k le enough),
)

-- A download whose client takes every block ends within any number of writes that covers its size
-- and has then sent exactly that size; whatever fails, it never sends more.
pub sized_download_exact :
    (block size k : ℕ) (ws : List Write)
    → size ≤ k * block
    → Writes block size 0 ws
    → (send_sized block size 0 (replicate k whole) ≡ size) × (send_sized block size 0 ws ≤ size)
sized_download_exact block size k ws enough h = (
  sized_from block size 0 k (omega arith) (omega (arith, enough)),
  send_sized_le block size 0 ws (omega arith) h,
)
