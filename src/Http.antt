-- ===== src/Http.antt =====
-- internal/tr143/http.go: which downloads a name asks for, the slots of concurrent transfers, and the
-- loop of a sized download. A name is its bytes; net/http is not modelled.
pub mod Units
pub mod Names
pub mod Downloads
pub mod Slots
pub mod Requests
pub mod Service
pub mod Served
pub mod Tally
pub mod Times
pub mod Complete
pub mod Sized
mod Examples
use diagd.Base.{
  ℕ, zero, suc, ◌+◌, ◌-◌, ◌*◌, ◌/◌, ◌%◌, ◌<◌, ◌≤◌, Bool, true, false, not, ◌&&◌, ◌||◌, List, [],
  ◌∷◌, ◌++◌, Option, none, some, ltb, leb, ◌==◌, if◌then◌else◌, u64,
}
use diagd.Base.Int.{ℤ, pos, negsuc}
use diagd.Live.{LiveRegistry}

unfoldable pub is_digit : ℕ → Bool
is_digit c = leb b'0' c && leb c b'9'

is_letter : ℕ → Bool
is_letter c = (leb b'A' c && leb c b'Z') || (leb b'a' c && leb c b'z')

-- The value of the leading digits behind `acc`, and the rest of the name.
unfoldable pub leading : ℕ → List ℕ → ℕ × List ℕ
unfolding is_digit
leading acc [] = (acc, [])
leading acc (c ∷ cs) =
    let rest = leading (acc * 10 + (c - b'0')) cs in if is_digit c then rest else (acc, c ∷ cs)

all_alnum : List ℕ → Bool
unfolding is_digit is_letter
all_alnum [] = true
all_alnum (c ∷ cs) = (is_digit c || is_letter c) && all_alnum cs

-- The optional extension of sizeNameRE, at the end of the name.
unfoldable pub is_extension : List ℕ → Bool
unfolding all_alnum
is_extension [] = true
is_extension (c ∷ []) = false
is_extension (c ∷ d ∷ cs) = c == b'.' && all_alnum (d ∷ cs)

-- The factor of a unit letter, in either case.
unfoldable pub unit_of : ℕ → Option ℕ
unit_of c =
    if c == b'k' || c == b'K'
    then some 1000
    else (if c == b'm' || c == b'M'
        then some 1000000
        else (if c == b'g' || c == b'G' then some 1000000000 else none))

-- What follows the digits: the factor of the unit, where the rest of the name matches.
unfoldable pub suffix : List ℕ → Option ℕ
unfolding is_extension unit_of
suffix [] = some 1
suffix (c ∷ []) = none
suffix (c ∷ d ∷ cs) = elim (unit_of c) [
  | none ↦ if is_extension (c ∷ d ∷ cs) then some 1 else none
  | some factor ↦ if (d == b'b' || d == b'B') && is_extension cs then some factor else none
]

-- int64(w) of a bit pattern w below 2^64.
abbrev pub int64 : ℕ → ℤ
int64 w = if ltb w 0x8000000000000000 then pos w else negsuc (0xFFFFFFFFFFFFFFFF - w)

-- A number of more than 63 bits is an error of ParseInt; the product wraps.
unfoldable pub parse_size_name : List ℕ → Option ℤ
unfolding leading suffix
parse_size_name [] = none
parse_size_name (c ∷ cs) =
    let (n, rest) = leading 0 (c ∷ cs) in
    if not (is_digit c) then none else elim (suffix rest) [
      | none ↦ none
      | some factor ↦
          if leb 0x8000000000000000 n then none else some (int64 (n * factor % 0x10000000000000000))
    ]

-- What one call of Write does: it takes the whole block, or fails behind some of its bytes.
pub data Write : Type 0 where
  whole : Write
  broken : ℕ → Write

-- The length of the next block.
abbrev pub portion : ℕ → ℕ → ℕ → ℕ
portion block size sent = if ltb (size - sent) block then size - sent else block

-- The loop of downloadSized for blocks of a length, over the writes that happen; the bytes sent.
unfoldable pub send_sized : ℕ → ℕ → ℕ → List Write → ℕ
send_sized block size sent [] = sent
send_sized block size sent (w ∷ ws) =
    let rest = send_sized block size (sent + portion block size sent) ws in
    if ltb sent size then elim w [ whole ↦ rest | broken wrote ↦ sent + wrote ] else sent

-- HTTPHandler with its configuration but `Allow`. `in_use` is what stands in the channel `sem`, which
-- exists where the limit is positive.
pub record Handler : Type 0 where
  pub max_concurrent : ℕ
  pub max_download_bytes : ℕ
  pub max_duration : ℕ
  pub in_use : ℕ
  pub downloads : ℕ
  pub uploads : ℕ
  pub rejects : ℕ
  pub bytes_sent : ℕ
  pub bytes_received : ℕ
  pub active : ℕ
  pub live_reg : LiveRegistry

unfoldable pub new_handler : ℕ → ℕ → ℕ → Handler
new_handler max_concurrent max_download_bytes max_duration = record {
  max_concurrent = max_concurrent;
  max_download_bytes = max_download_bytes;
  max_duration = max_duration;
  in_use = 0;
  downloads = 0;
  uploads = 0;
  rejects = 0;
  bytes_sent = 0;
  bytes_received = 0;
  active = 0;
  live_reg = record { seq = 0; live = [] };
}

-- Whether a request gets a slot; one that does not is answered with 503.
unfoldable pub acquire : Handler → Handler × Bool
acquire h =
    if not (ltb 0 h.max_concurrent)
    then (record h { active = h.active + 1 }, true)
    else (if ltb h.in_use h.max_concurrent
        then (record h { in_use = h.in_use + 1; active = h.active + 1 }, true)
        else (record h { rejects = u64 (h.rejects + 1) }, false))

-- A transfer that holds a slot gives it back; the counter is then at 1 at least.
unfoldable pub release : Handler → Handler
release h =
    if ltb 0 h.max_concurrent
    then record h { active = h.active - 1; in_use = h.in_use - 1 }
    else record h { active = h.active - 1 }
