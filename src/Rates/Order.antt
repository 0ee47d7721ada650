-- ===== src/Rates/Order.antt =====
-- What the rows of internal/udpst/srates.go's table have in common.
use diagd.Base.{
  ℕ, zero, suc, ◌+◌, ◌-◌, ◌*◌, ◌≤◌, ◌<◌, ◌≡◌, refl, subst, Bool, true, false, ◌&&◌, ◌||◌, List, [],
  ◌∷◌, length, arith, ltb, leb, ◌==◌, get_or,
}
use native.Mathlib.Nat.{add-zero, add-suc, suc-add, zero-add, le_refl}
use diagd.Rates.{
  Rate, no_rate, build_rate_table, bits_per_second, max_burst_size, max_sending_rates,
}

-- The rows and the threshold have the sizes of the reference table, in each mode.
pub table_size :
    (jumbo traditional : Bool)
    → (length (build_rate_table jumbo traditional).rows ≡ max_sending_rates)
      × ((build_rate_table jumbo traditional).high_speed_thresh ≡ 1000)
unfolding build_rate_table
table_size true true = (refl, refl)
table_size true false = (refl, refl)
table_size false true = (refl, refl)
table_size false false = (refl, refl)

-- A Boolean test of every row at its index, and of every two neighbours.
rows_pass : (ℕ → Rate → Bool) → ℕ → List Rate → Bool
rows_pass p k [] = true
rows_pass p k (r ∷ rs) = p k r && rows_pass p (suc k) rs

rows_pass-get_or :
    (p : ℕ → Rate → Bool) (k i : ℕ) (rs : List Rate)
    → rows_pass p k rs ≡ true
    → i < length rs
    → p (k + i) (get_or rs i no_rate) ≡ true
unfolding rows_pass
rows_pass-get_or p k i [] h lt = absurd (omega arith)
rows_pass-get_or p k zero (r ∷ rs) h lt = ground (arith, add-zero k)
rows_pass-get_or p k (suc i) (r ∷ rs) h lt =
    ground (arith, rows_pass-get_or p (suc k) i rs, add-suc k i, suc-add k i)

rises : (Rate → ℕ) → List Rate → Bool
rises f [] = true
rises f (r ∷ []) = true
rises f (r ∷ s ∷ rs) = leb (f r) (f s) && rises f (s ∷ rs)

rises_step :
    (f : Rate → ℕ) (i : ℕ) (rs : List Rate)
    → rises f rs ≡ true
    → suc i < length rs
    → f (get_or rs i no_rate) ≤ f (get_or rs (suc i) no_rate)
unfolding rises
rises_step f i [] h lt = absurd (omega arith)
rises_step f i (r ∷ []) h lt = absurd (omega arith)
rises_step f zero (r ∷ s ∷ rs) h lt = ground arith
rises_step f (suc i) (r ∷ s ∷ rs) h lt = ground (arith, rises_step f i (s ∷ rs))

rises_add :
    (f : Rate → ℕ) (rs : List Rate) (i d : ℕ)
    → rises f rs ≡ true
    → i + d < length rs
    → f (get_or rs i no_rate) ≤ f (get_or rs (i + d) no_rate)
rises_add f rs i zero h lt = rw add-zero (le_refl _)
rises_add f rs i (suc d) h lt =
    rw add-suc
      (omega (arith, rises_add f rs i d h (omega arith), rises_step f (i + d) rs h (omega arith)))

table_rises :
    (jumbo traditional ipv6 : Bool)
    → rises (bits_per_second ipv6) (build_rate_table jumbo traditional).rows ≡ true
unfolding build_rate_table rises bits_per_second
table_rises true true true = refl
table_rises true true false = refl
table_rises true false true = refl
table_rises true false false = refl
table_rises false true true = refl
table_rises false true false = refl
table_rises false false true = refl
table_rises false false false = refl

-- In each of the four tables the nominal rate of the rows never falls with the index, over IPv4 and
-- over IPv6.
pub rate_rises :
    (jumbo traditional ipv6 : Bool) (i j : ℕ)
    → i ≤ j
    → j < max_sending_rates
    → bits_per_second ipv6 (get_or (build_rate_table jumbo traditional).rows i no_rate)
      ≤ bits_per_second ipv6 (get_or (build_rate_table jumbo traditional).rows j no_rate)
rate_rises jumbo traditional ipv6 i j le lt =
    let rs = (build_rate_table jumbo traditional).rows in
    let e : i + (j - i) ≡ j = omega arith in
    subst
      (λ k. bits_per_second ipv6 (get_or rs i no_rate) ≤ bits_per_second ipv6 (get_or rs k no_rate))
      e
      (rises_add (bits_per_second ipv6) rs i (j - i) (table_rises jumbo traditional ipv6)
        (omega (arith, (table_size jumbo traditional).0)))

near_nominal : ℕ → Rate → Bool
near_nominal k r =
    k == 0
    || (ltb 1000 k
        || (leb (bits_per_second false r) (k * 1000000)
            && ltb (k * 1000000) (bits_per_second false r + 10000)))

table_nominal :
    (jumbo traditional : Bool)
    → rows_pass near_nominal 0 (build_rate_table jumbo traditional).rows ≡ true
unfolding build_rate_table rows_pass near_nominal bits_per_second
table_nominal true true = refl
table_nominal true false = refl
table_nominal false true = refl
table_nominal false false = refl

-- For i from 1 to 1000, row i of each table sends at most i Mbit/s over IPv4, and less than 10
-- kbit/s below it.
pub row_nominal :
    (jumbo traditional : Bool) (i : ℕ)
    → 0 < i
    → i ≤ 1000
    → (bits_per_second false (get_or (build_rate_table jumbo traditional).rows i no_rate)
        ≤ i * 1000000)
      × (i * 1000000
          < bits_per_second false (get_or (build_rate_table jumbo traditional).rows i no_rate)
            + 10000)
unfolding near_nominal
row_nominal jumbo traditional i pos le = ground (
  arith,
  zero-add i,
  rows_pass-get_or near_nominal 0 i (build_rate_table jumbo traditional).rows
      (table_nominal jumbo traditional) (omega (arith, (table_size jumbo traditional).0)),
)

small_bursts : ℕ → Rate → Bool
small_bursts k r = leb r.burst_size1 max_burst_size && leb r.burst_size2 max_burst_size

table_bursts :
    (jumbo traditional : Bool)
    → rows_pass small_bursts 0 (build_rate_table jumbo traditional).rows ≡ true
unfolding build_rate_table rows_pass small_bursts
table_bursts true true = refl
table_bursts true false = refl
table_bursts false true = refl
table_bursts false false = refl

pub row_bursts :
    (jumbo traditional : Bool) (i : ℕ)
    → i < max_sending_rates
    → let r = get_or (build_rate_table jumbo traditional).rows i no_rate in
      (r.burst_size1 ≤ max_burst_size) × (r.burst_size2 ≤ max_burst_size)
unfolding small_bursts
row_bursts jumbo traditional i lt = ground (
  arith,
  zero-add i,
  rows_pass-get_or small_bursts 0 i (build_rate_table jumbo traditional).rows
      (table_bursts jumbo traditional) (omega (arith, (table_size jumbo traditional).0)),
)
