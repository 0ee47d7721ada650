-- ===== src/Http/Examples.antt =====
-- Tests and instances for internal/tr143/http.go.
use diagd.Live.{http_download, http_download_timed, same}
use diagd.Http.Units.{IsAlnum, extension, megabytes}
use diagd.Http.Names.{value}
use diagd.Http.Requests.{wanted, time_prefix, parse_download_request, seconds_of, atoi, digits}
use diagd.Http.Times.{IsExtension, timed_request_exact}
use diagd.Http.Service.{
  Method, get, post, put_method, Request, Transfer, more, eof, failed, body, Event, send_timed,
  download_timed, upload, answer, dispatch, peer_allowed, serve_http, stats,
}
use diagd.Http.Served.{serve_error_keeps}
use diagd.Http.Tally.{serve_all, Tallied, stats_tally}
use diagd.Http.Complete.{Fulfilled, complete_is_true}
use diagd.Http.Sized.{sized_get_exact}
use diagd.Base.{
  ℕ, ◌+◌, ◌*◌, ◌≡◌, refl, Bool, true, false, none, inl, u64, List, [], ◌∷◌, ◌++◌, some, replicate,
  arith, inr,
}
use diagd.Base.Int.{pos, negsuc}
use diagd.Http.{
  parse_size_name, suffix, is_digit, leading, Write, whole, broken, Handler, new_handler, acquire,
}
use diagd.Http.Slots.{Running, fresh, request, Slots, Running-Slots}

-- "100MB.bin".
abbrev mb_bin : List ℕ
mb_bin = b'M' ∷ b'B' ∷ b'.' ∷ b'b' ∷ b'i' ∷ b'n' ∷ []

abbrev hundred : List ℕ
hundred = b'1' ∷ b'0' ∷ b'0' ∷ []

-- The product of a large number and a unit wraps, below 0 for "10000000000GB".
wrapped :
    parse_size_name (b'1' ∷ replicate 10 b'0' ++ (b'G' ∷ b'B' ∷ []))
    ≡ some (negsuc 8446744073709551615)
unfolding parse_size_name leading suffix
wrapped = refl

abbrev writes : List Write
writes = whole ∷ (broken 17 ∷ [])

abbrev one_slot : Handler
one_slot = (acquire (new_handler 1 0 0)).0

Running-Slots_example : Slots 1 one_slot 1
Running-Slots_example = Running-Slots busy
  where
    busy : Running 1 0 0 one_slot 1
    busy = unfold acquire new_handler in request fresh

-- A GET, or another method, from "a:80", with a free slot of two.
abbrev asks_for : Method → List ℕ → List ℕ → Request
asks_for method path time = record {
  method = method;
  path = path;
  time = time;
  ref = b'x' ∷ [];
  remote_addr = b'a' ∷ b':' ∷ b'8' ∷ b'0' ∷ [];
  addr = some (b'a' ∷ []);
}

-- 96 blocks that are taken; a clock that reaches two seconds behind its start; an upload in two reads.
abbrev transfer : Transfer
transfer = record {
  start = 5;
  begun = 6;
  writes = replicate 96 whole;
  timed = (7, whole) ∷ ((1000000000, whole) ∷ ((2000000005, whole) ∷ []));
  reads = more 700 ∷ (eof 30 ∷ []);
  ended = 2000000009;
}

abbrev two_slots : Handler
two_slots = new_handler 2 0 0

-- "/d/100MB.bin".
abbrev file : List ℕ
file = b'/' ∷ b'd' ∷ b'/' ∷ (hundred ++ mb_bin)

abbrev only_a : List ℕ → Bool
only_a address = same address (b'a' ∷ [])

sized_get_exact_example :
    let o = serve_http two_slots (some only_a) (asks_for get file []) transfer in
    (o.reply ≡ body (some (pos (value 0 hundred * 1000000))) (value 0 hundred * 1000000))
    × (o.events
        ≡ record { test = http_download; complete = true; bytes = value 0 hundred * 1000000 } ∷ [])
sized_get_exact_example =
    sized_get_exact two_slots (some only_a) (asks_for get file []) transfer (b'/' ∷ b'd' ∷ []) b'1'
      (b'0' ∷ b'0' ∷ []) mb_bin 1000000 96 (unfold peer_allowed same in refl) refl refl refl
      (unfold is_digit in (refl, (refl, (refl, tt))))
      (unfold IsAlnum in
        megabytes (inr refl) (inr refl) (
          extension {c = b'b'} {cs = b'i' ∷ b'n' ∷ []} (inr (inr (omega arith)))
            (inr (inr (omega arith)), (inr (inr (omega arith)), tt))))
      (unfold value in omega arith) (inl (unfold new_handler in refl))
      (unfold acquire new_handler in refl) refl (unfold value in omega arith)

-- "/dntimebasedmode_12.txt".
timed_request_exact_example :
    let q = wanted (record { bytes = pos 0; seconds = value 0 (b'1' ∷ b'2' ∷ []) }) in
    let name = time_prefix ++ (b'1' ∷ b'2' ∷ b'.' ∷ b't' ∷ b'x' ∷ b't' ∷ []) in
    (parse_download_request file (b'1' ∷ b'2' ∷ []) ≡ q)
    × (parse_download_request (b'/' ∷ name) [] ≡ q)
timed_request_exact_example =
    timed_request_exact file [] b'1' (b'2' ∷ []) (b'.' ∷ b't' ∷ b'x' ∷ b't' ∷ [])
      (unfold is_digit in (refl, (refl, tt))) (unfold value in omega arith)
      (unfold value in omega arith) (unfold IsExtension in (refl, (refl, (refl, (refl, tt)))))
      (refl, (refl, (refl, (refl, tt))))

-- A peer that is not allowed, and a request without a free slot.
abbrev no_one : List ℕ → Bool
no_one address = false

abbrev busy : Handler
busy = record (new_handler 1 0 0) { in_use = 1; active = 1 }

serve_error_keeps_example :
    let o = serve_http busy none (asks_for put_method file []) transfer in
    (o.events ≡ []) × (o.handler ≡ record busy { rejects = u64 (busy.rejects + 1) })
serve_error_keeps_example =
    serve_error_keeps busy none (asks_for put_method file []) transfer 503
      (unfold serve_http dispatch upload acquire peer_allowed new_handler in refl)

shut_out : (serve_http two_slots (some no_one) (asks_for get file []) transfer).reply ≡ failed 403
unfolding serve_http peer_allowed
shut_out = refl

stats_tally_example :
    let (end, events) =
      serve_all two_slots none
        ((asks_for get file [], transfer) ∷ ((asks_for post file [], transfer) ∷ [])) in
    Tallied two_slots (stats end) events
stats_tally_example =
    stats_tally two_slots none
      ((asks_for get file [], transfer) ∷ ((asks_for post file [], transfer) ∷ []))

-- A timed download of two seconds sends two blocks.
abbrev two_seconds : Event
two_seconds = record { test = http_download_timed; complete = true; bytes = 2097152 }

complete_is_true_example :
    Fulfilled
      (asks_for get file (b'2' ∷ []))
      transfer
      (serve_http two_slots none (asks_for get file (b'2' ∷ [])) transfer)
      two_seconds.bytes
      two_seconds.test
complete_is_true_example =
    complete_is_true two_slots none (asks_for get file (b'2' ∷ [])) transfer two_seconds
      (unfold serve_http dispatch answer peer_allowed parse_download_request seconds_of atoi digits
          leading is_digit download_timed acquire new_handler send_timed in
        refl)
      refl
