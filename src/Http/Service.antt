-- ===== src/Http/Service.antt =====
-- internal/tr143/http.go: HTTPHandler with its handlers, each as one uninterrupted call. What the
-- client and the clock do in a transfer is an argument; headers but Content-Length are not modelled.
use diagd.Base.{
  ℕ, ◌+◌, ◌*◌, Bool, true, false, not, ◌&&◌, List, [], ◌∷◌, Option, none, some, ltb, ◌==◌,
  if◌then◌else◌, u64,
}
use diagd.Base.Int.{ℤ, pos, pos_part, is_nonneg, ltb_ℤ}
use diagd.Clock.{second}
use diagd.Live.{
  Test, http_download, http_download_timed, http_upload, begin, store_bytes, finish, same,
}
use diagd.Http.{Handler, Write, whole, broken, send_sized, acquire, release}
use diagd.Http.Requests.{Asked, invalid, nothing, wanted, parse_download_request}

-- len(payloadBlock).
abbrev pub payload_block : ℕ
payload_block = 1048576

pub data Method : Type 0 where
  get : Method
  head : Method
  put_method : Method
  post : Method
  other_method : Method

-- A request; `addr` is what ParseAddrPort makes of the remote address, unmapped.
pub record Request : Type 0 where
  pub method : Method
  pub path : List ℕ
  pub time : List ℕ
  pub ref : List ℕ
  pub remote_addr : List ℕ
  pub addr : Option (List ℕ)

-- A read of the body: some bytes, the last bytes, or an error behind some bytes.
pub data BodyRead : Type 0 where
  more : ℕ → BodyRead
  eof : ℕ → BodyRead
  cut : ℕ → BodyRead

-- What surrounds a transfer: the clock when it starts, registers and ends, its writes, the clock before
-- each of a timed one, and the reads of its body. The registry is told of the bytes after each write
-- or read; of these only the last is left when the call is over.
pub record Transfer : Type 0 where
  pub start : ℕ
  pub begun : ℕ
  pub writes : List Write
  pub timed : List (ℕ × Write)
  pub reads : List BodyRead
  pub ended : ℕ

-- An answer: http.Error, the index page, headers alone, a generated body, 200 for an upload, or none.
pub data Reply : Type 0 where
  failed : ℕ → Reply
  index : Reply
  headers : Option ℤ → Reply
  body : Option ℤ → ℕ → Reply
  received : Reply
  dropped : Reply

-- The completion record of a test.
pub record Event : Type 0 where
  pub test : Test
  pub complete : Bool
  pub bytes : ℕ

pub record Outcome : Type 0 where
  pub handler : Handler
  pub reply : Reply
  pub events : List Event

abbrev pub is_head : Method → Bool
is_head head = true
is_head get = false
is_head put_method = false
is_head post = false
is_head other_method = false

-- peerAllowed.
unfoldable pub peer_allowed : Option (List ℕ → Bool) → Request → Bool
peer_allowed allow r = elim allow [
  | none ↦ true
  | some f ↦ elim r.addr [ none ↦ false | some a ↦ f a ]
]

-- The end of a download: its deferred calls in their order.
unfoldable pub end_download : Handler → ℕ → ℕ → ℕ → Handler
end_download h id sent now = release (record h {
  downloads = u64 (h.downloads + 1);
  bytes_sent = u64 (h.bytes_sent + sent);
  live_reg = finish id now h.live_reg;
})

unfoldable pub download_sized : Handler → Request → ℤ → Transfer → Outcome
download_sized h r size x =
    let (a, ok) = acquire h in
    let (live, id) = begin a.live_reg http_download r.ref r.remote_addr x.begun in
    let sent = send_sized payload_block (pos_part size) 0 x.writes in
    let running : Handler = record a { live_reg = store_bytes id sent live } in
    if ltb 0 h.max_download_bytes && ltb_ℤ (pos h.max_download_bytes) size
    then record { handler = h; reply = failed 403; events = [] }
    else (if not ok
        then record { handler = a; reply = failed 503; events = [] }
        else (if is_head r.method
            then record { handler = release a; reply = headers (some size); events = [] }
            else record {
              handler = end_download running id sent x.ended;
              reply = body (some size) sent;
              events =
                  record {
                    test = http_download;
                    complete = is_nonneg size && (sent == pos_part size);
                    bytes = sent;
                  }
                  ∷ [];
            }))

-- The loop of downloadTimed over the readings of the clock and the writes: the bytes sent, and
-- `complete`. Readings that end early act as an error.
unfoldable pub send_timed : ℕ → ℕ → ℕ → List (ℕ × Write) → ℕ × Bool
send_timed block deadline sent [] = (sent, false)
send_timed block deadline sent ((now, w) ∷ rest) =
    let later = send_timed block deadline (sent + block) rest in
    if ltb now deadline
    then elim w [ whole ↦ later | broken wrote ↦ (sent + wrote, false) ]
    else (sent, true)

unfoldable pub download_timed : Handler → Request → ℕ → Transfer → Outcome
download_timed h r seconds x =
    let (a, ok) = acquire h in
    let (live, id) = begin a.live_reg http_download_timed r.ref r.remote_addr x.begun in
    let (sent, complete) = send_timed payload_block (x.start + seconds * second) 0 x.timed in
    let running : Handler = record a { live_reg = store_bytes id sent live } in
    if ltb 0 h.max_duration && ltb h.max_duration (seconds * second)
    then record { handler = h; reply = failed 403; events = [] }
    else (if not ok
        then record { handler = a; reply = failed 503; events = [] }
        else (if is_head r.method
            then record { handler = release a; reply = headers none; events = [] }
            else record {
              handler = end_download running id sent x.ended;
              reply = body none sent;
              events =
                  record { test = http_download_timed; complete = complete; bytes = sent } ∷ [];
            }))

-- io.Copy to io.Discard: the bytes, and whether it ends without an error. Reads that end early act
-- as an error.
unfoldable pub receive_body : ℕ → List BodyRead → ℕ × Bool
receive_body n [] = (n, false)
receive_body n (more k ∷ rest) = receive_body (n + k) rest
receive_body n (eof k ∷ rest) = (n + k, true)
receive_body n (cut k ∷ rest) = (n + k, false)

unfoldable pub upload : Handler → Request → Transfer → Outcome
upload h r x =
    let (a, ok) = acquire h in
    let (live, id) = begin a.live_reg http_upload r.ref r.remote_addr x.begun in
    let (n, complete) = receive_body 0 x.reads in
    let counted : Handler = record a {
      uploads = u64 (a.uploads + 1);
      bytes_received = u64 (a.bytes_received + n);
      live_reg = finish id x.ended (store_bytes id n live);
    } in
    if not ok then record { handler = a; reply = failed 503; events = [] } else record {
      handler = release counted;
      reply = if complete then received else dropped;
      events = record { test = http_upload; complete = complete; bytes = n } ∷ [];
    }

-- download, behind its call of parseDownloadRequest.
unfoldable pub answer : Handler → Request → Transfer → Asked → Outcome
answer h r x invalid = record { handler = h; reply = failed 400; events = [] }
answer h r x nothing = record {
  handler = h;
  reply = if same r.path (b'/' ∷ []) then index else failed 404;
  events = [];
}
answer h r x (wanted q) =
    let timed = download_timed h r q.seconds x in
    let sized = download_sized h r q.bytes x in if ltb 0 q.seconds then timed else sized

abbrev pub download : Handler → Request → Transfer → Outcome
download h r x = answer h r x (parse_download_request r.path r.time)

-- The switch of ServeHTTP.
unfoldable pub dispatch : Handler → Request → Transfer → Method → Outcome
dispatch h r x get = download h r x
dispatch h r x head = download h r x
dispatch h r x put_method = upload h r x
dispatch h r x post = upload h r x
dispatch h r x other_method = record { handler = h; reply = failed 405; events = [] }

unfoldable pub serve_http : Handler → Option (List ℕ → Bool) → Request → Transfer → Outcome
serve_http h allow r x =
    let served = dispatch h r x r.method in
    if not (peer_allowed allow r)
    then record { handler = h; reply = failed 403; events = [] }
    else served

pub record HttpStats : Type 0 where
  pub downloads : ℕ
  pub uploads : ℕ
  pub rejects : ℕ
  pub bytes_sent : ℕ
  pub bytes_received : ℕ
  pub active_transfers : ℕ

-- Stats.
unfoldable pub stats : Handler → HttpStats
stats h = record {
  downloads = h.downloads;
  uploads = h.uploads;
  rejects = h.rejects;
  bytes_sent = h.bytes_sent;
  bytes_received = h.bytes_received;
  active_transfers = h.active;
}
