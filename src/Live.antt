-- ===== src/Live.antt =====
-- internal/tr143/live.go: the registry of transfers, and the `/live` endpoint of cmd/diagd/ops.go that
-- reads it. A string is its bytes. The map is a list of keys and entries, whose order no one may
-- rely on; the hook of a transfer is its key.
pub mod Log
pub mod Covers
pub mod Refines
pub mod Growth
mod Examples
use diagd.Base.{
  ℕ, suc, ◌+◌, ◌-◌, ◌*◌, ◌/◌, Bool, true, false, not, ◌&&◌, List, [], ◌∷◌, ltb, ◌==◌, if◌then◌else◌,
  map, filter, length, take, u64,
}
use diagd.Clock.{millisecond, second}

-- The values of the field `test`.
pub data Test : Type 0 where
  http_download : Test
  http_download_timed : Test
  http_upload : Test

pub record LiveTransfer : Type 0 where
  pub test : Test
  pub ref : List ℕ
  pub peer : List ℕ
  pub bytes : ℕ
  pub elapsed_ms : ℕ
  pub done : Bool

abbrev pub live_grace : ℕ
live_grace = 15 * second

pub record LiveEntry : Type 0 where
  pub test : Test
  pub ref : List ℕ
  pub peer : List ℕ
  pub start : ℕ
  pub bytes : ℕ
  pub done : Bool
  pub ended : ℕ

pub record LiveRegistry : Type 0 where
  pub seq : ℕ
  pub live : List (ℕ × LiveEntry)

abbrev pub new_entry : Test → List ℕ → List ℕ → ℕ → LiveEntry
new_entry test ref peer now = record {
  test = test;
  ref = ref;
  peer = peer;
  start = now;
  bytes = 0;
  done = false;
  ended = 0;
}

-- `r.live[id] = e`.
unfoldable pub put : ℕ → LiveEntry → List (ℕ × LiveEntry) → List (ℕ × LiveEntry)
put id e live = (id, e) ∷ filter (λ x. not (x.0 == id)) live

-- A change of the entry that a key names.
abbrev pub at_id : ℕ → (LiveEntry → LiveEntry) → List (ℕ × LiveEntry) → List (ℕ × LiveEntry)
at_id id f live = map (λ x. if x.0 == id then (x.0, f x.1) else x) live

-- begin: the registry, and the key of the transfer.
unfoldable pub begin : LiveRegistry → Test → List ℕ → List ℕ → ℕ → LiveRegistry × ℕ
unfolding put
begin r test ref peer now =
    let id = u64 (r.seq + 1) in
    (record { seq = id; live = put id (new_entry test ref peer now) r.live }, id)

-- `lt.bytes.Store(n)` of a transfer's loop.
unfoldable pub store_bytes : ℕ → ℕ → LiveRegistry → LiveRegistry
store_bytes id n r = record r { live = at_id id (λ e. record e { bytes = n }) r.live }

-- The hook that begin returns.
unfoldable pub finish : ℕ → ℕ → LiveRegistry → LiveRegistry
finish id now r = record r { live = at_id id (λ e. record e { done = true; ended = now }) r.live }

-- An entry that snapshot deletes.
unfoldable pub expired : ℕ → LiveEntry → Bool
expired now e = e.done && ltb live_grace (now - e.ended)

-- What snapshot tells of an entry.
unfoldable pub report : ℕ → LiveEntry → LiveTransfer
report now e =
    let elapsed : ℕ = if e.done then e.ended - e.start else now - e.start in
    record {
      test = e.test;
      ref = e.ref;
      peer = e.peer;
      bytes = e.bytes;
      elapsed_ms = elapsed / millisecond;
      done = e.done;
    }

-- The loop of snapshot: the entries that stay, and what it tells.
unfoldable pub sweep : ℕ → List (ℕ × LiveEntry) → List (ℕ × LiveEntry) × List LiveTransfer
sweep now [] = ([], [])
sweep now ((id, e) ∷ live) =
    let (kept, out) = sweep now live in
    if expired now e then (kept, out) else ((id, e) ∷ kept, report now e ∷ out)

unfoldable pub snapshot : LiveRegistry → ℕ → LiveRegistry × List LiveTransfer
unfolding sweep
snapshot r now = let (kept, out) = sweep now r.live in (record r { live = kept }, out)

-- Equality of strings.
unfoldable pub same : List ℕ → List ℕ → Bool
same [] [] = true
same [] (y ∷ ys) = false
same (x ∷ xs) [] = false
same (x ∷ xs) (y ∷ ys) = x == y && same xs ys

-- strings.LastIndex of a byte, one more than the index; 0 stands for -1.
unfoldable pub last_index : ℕ → List ℕ → ℕ
last_index c [] = 0
last_index c (x ∷ xs) =
    let rest = last_index c xs in if ltb 0 rest then suc rest else (if x == c then 1 else 0)

-- The host of a peer's address: what stands in front of its last colon.
unfoldable pub host_of : List ℕ → List ℕ
unfolding last_index
host_of peer = let i = last_index b':' peer in if ltb 1 i then take (i - 1) peer else peer

-- An empty value of a query asks for nothing.
abbrev pub asks : List ℕ → List ℕ → Bool
asks [] value = true
asks (c ∷ cs) value = same value (c ∷ cs)

-- liveTransfers of cmd/diagd/ops.go, with the values of `ref` and `peer` in the query.
unfoldable pub live_transfers :
    LiveRegistry → List ℕ → List ℕ → ℕ → LiveRegistry × List LiveTransfer
unfolding snapshot same host_of
live_transfers r ref peer now =
    let (after, transfers) = snapshot r now in
    (after, filter (λ t. asks peer (host_of t.peer)) (filter (λ t. asks ref t.ref) transfers))
