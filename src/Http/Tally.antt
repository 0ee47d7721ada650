-- ===== src/Http/Tally.antt =====
-- The counters of HTTPHandler of internal/tr143/http.go against its completion records.
use diagd.Base.{
  ℕ, ◌+◌, ◌≡◌, refl, ◌∙◌, Bool, Bool-cases, inl, inr, true, false, not, List, [], ◌∷◌, ◌++◌, Option,
  ltb, if◌then◌else◌, u64, arith,
}
use diagd.Base.Int.{ℤ}
use diagd.Live.{Test, http_download, http_download_timed, http_upload}
use diagd.Http.{Handler, acquire, release}
use diagd.Http.Requests.{Asked, invalid, nothing, wanted, parse_download_request}
use diagd.Http.Service.{
  Request, Transfer, Reply, failed, Event, Outcome, end_download, download_sized, download_timed,
  upload, answer, dispatch, Method, get, head, put_method, post, other_method, peer_allowed,
  serve_http, HttpStats, stats,
}

-- Sums over completion records.
abbrev same_flag : Bool → Bool → Bool
same_flag true b = b
same_flag false b = not b

abbrev is_upload : Test → Bool
is_upload http_download = false
is_upload http_download_timed = false
is_upload http_upload = true

unfoldable pub tests : Bool → List Event → ℕ
tests up [] = 0
tests up (e ∷ es) = (if same_flag up (is_upload e.test) then 1 else 0) + tests up es

unfoldable pub bytes_of : Bool → List Event → ℕ
bytes_of up [] = 0
bytes_of up (e ∷ es) = (if same_flag up (is_upload e.test) then e.bytes else 0) + bytes_of up es

-- A request gives its slot back, and what its completion records tell is what the counters gain.
pub record Balanced (h : Handler) (o : Outcome) : Type 0 where
  pub slots : o.handler.in_use ≡ h.in_use
  pub active : o.handler.active ≡ h.active
  pub downloads : u64 o.handler.downloads ≡ u64 (h.downloads + tests false o.events)
  pub uploads : u64 o.handler.uploads ≡ u64 (h.uploads + tests true o.events)
  pub sent : u64 o.handler.bytes_sent ≡ u64 (h.bytes_sent + bytes_of false o.events)
  pub got : u64 o.handler.bytes_received ≡ u64 (h.bytes_received + bytes_of true o.events)

sized-Balanced :
    (h : Handler) (r : Request) (size : ℤ) (x : Transfer) → Balanced h (download_sized h r size x)
unfolding download_sized acquire release end_download tests bytes_of
sized-Balanced h r size x = ground arith

timed-Balanced :
    (h : Handler) (r : Request) (seconds : ℕ) (x : Transfer)
    → Balanced h (download_timed h r seconds x)
unfolding download_timed acquire release end_download tests bytes_of
timed-Balanced h r seconds x = ground arith

upload-Balanced : (h : Handler) (r : Request) (x : Transfer) → Balanced h (upload h r x)
unfolding upload acquire release tests bytes_of
upload-Balanced h r x = ground arith

unchanged-Balanced :
    (h : Handler) (reply : Reply) → Balanced h (record { handler = h; reply = reply; events = [] })
unfolding tests bytes_of
unchanged-Balanced h reply = ground arith

answer-Balanced :
    (h : Handler) (r : Request) (x : Transfer) (a : Asked) → Balanced h (answer h r x a)
unfolding answer
answer-Balanced h r x invalid = unchanged-Balanced h (failed 400)
answer-Balanced h r x nothing = unchanged-Balanced h _
answer-Balanced h r x (wanted q) = elim (Bool-cases (ltb 0 q.seconds)) [
  | inl on ↦ rw on (timed-Balanced h r q.seconds x)
  | inr off ↦ rw off (sized-Balanced h r q.bytes x)
]

dispatch-Balanced :
    (h : Handler) (r : Request) (x : Transfer) (m : Method) → Balanced h (dispatch h r x m)
unfolding dispatch
dispatch-Balanced h r x get = answer-Balanced h r x (parse_download_request r.path r.time)
dispatch-Balanced h r x head = answer-Balanced h r x (parse_download_request r.path r.time)
dispatch-Balanced h r x put_method = upload-Balanced h r x
dispatch-Balanced h r x post = upload-Balanced h r x
dispatch-Balanced h r x other_method = unchanged-Balanced h (failed 405)

serve-Balanced :
    (h : Handler) (allow : Option (List ℕ → Bool)) (r : Request) (x : Transfer)
    → Balanced h (serve_http h allow r x)
unfolding serve_http
serve-Balanced h allow r x = elim (Bool-cases (peer_allowed allow r)) [
  | inl ok ↦ rw ok (dispatch-Balanced h r x r.method)
  | inr shut ↦ rw shut (unchanged-Balanced h (failed 403))
]

-- Requests one after another: the handler, and all completion records.
unfoldable pub serve_all :
    Handler → Option (List ℕ → Bool) → List (Request × Transfer) → Handler × List Event
serve_all h allow [] = (h, [])
serve_all h allow ((r, x) ∷ rest) =
    let o = serve_http h allow r x in
    let (end, events) = serve_all o.handler allow rest in (end, o.events ++ events)

-- What a client of Stats reads behind the completion records of all tests.
pub record Tallied (h : Handler) (s : HttpStats) (events : List Event) : Type 0 where
  pub active : s.active_transfers ≡ h.active
  pub downloads : u64 s.downloads ≡ u64 (h.downloads + tests false events)
  pub uploads : u64 s.uploads ≡ u64 (h.uploads + tests true events)
  pub sent : u64 s.bytes_sent ≡ u64 (h.bytes_sent + bytes_of false events)
  pub got : u64 s.bytes_received ≡ u64 (h.bytes_received + bytes_of true events)

tests-append : (up : Bool) (xs ys : List Event) → tests up (xs ++ ys) ≡ tests up xs + tests up ys
unfolding tests
tests-append up [] ys = omega arith
tests-append up (x ∷ xs) ys = omega (arith, tests-append up xs ys)

bytes_of-append :
    (up : Bool) (xs ys : List Event) → bytes_of up (xs ++ ys) ≡ bytes_of up xs + bytes_of up ys
unfolding bytes_of
bytes_of-append up [] ys = omega arith
bytes_of-append up (x ∷ xs) ys = omega (arith, bytes_of-append up xs ys)

-- After any requests, each with any answer, the counters of Stats have gained exactly what the
-- completion records of the tests say, modulo 2^64: downloads, uploads, and the bytes of each; no
-- transfer is counted as active.
pub stats_tally :
    (h : Handler) (allow : Option (List ℕ → Bool)) (requests : List (Request × Transfer))
    → let (end, events) = serve_all h allow requests in Tallied h (stats end) events
unfolding serve_all stats
stats_tally h allow [] = record {
  active = refl;
  downloads = unfold tests in omega arith;
  uploads = unfold tests in omega arith;
  sent = unfold bytes_of in omega arith;
  got = unfold bytes_of in omega arith;
}
stats_tally h allow ((r, x) ∷ rest) =
    let o = serve_http h allow r x in
    let b = serve-Balanced h allow r x in
    let t = stats_tally o.handler allow rest in
    let events = (serve_all o.handler allow rest).1 in
    record {
      active = t.active ∙ b.active;
      downloads = omega (arith, t.downloads, b.downloads, tests-append false o.events events);
      uploads = omega (arith, t.uploads, b.uploads, tests-append true o.events events);
      sent = omega (arith, t.sent, b.sent, bytes_of-append false o.events events);
      got = omega (arith, t.got, b.got, bytes_of-append true o.events events);
    }
