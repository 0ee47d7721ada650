-- ===== src/Http/Served.antt =====
-- What a request leaves behind in HTTPHandler of internal/tr143/http.go.
use diagd.Base.{
  ℕ, ◌+◌, ◌≡◌, Bool, Bool-cases, inl, inr, List, [], Option, ltb, ◌==◌, if◌then◌else◌, u64, arith,
}
use diagd.Base.Int.{ℤ}
use diagd.Http.{Handler, acquire}
use diagd.Http.Requests.{Asked, invalid, nothing, wanted, parse_download_request}
use diagd.Http.Service.{
  Request, Transfer, failed, Outcome, download_sized, download_timed, upload, answer, dispatch,
  Method, get, head, put_method, post, other_method, peer_allowed, serve_http,
}

-- What an answer with an error code leaves: the count of rejections goes up with a refused slot.
abbrev pub IsKept : Handler → Outcome → ℕ → Type 0
IsKept h o code =
    (o.events ≡ [])
    × (o.handler ≡ (if code == 503 then record h { rejects = u64 (h.rejects + 1) } else h))

sized-IsKept :
    (h : Handler) (r : Request) (size : ℤ) (x : Transfer) (code : ℕ)
    → (download_sized h r size x).reply ≡ failed code
    → IsKept h (download_sized h r size x) code
unfolding download_sized acquire
sized-IsKept h r size x code e = ground (arith, e)

timed-IsKept :
    (h : Handler) (r : Request) (seconds : ℕ) (x : Transfer) (code : ℕ)
    → (download_timed h r seconds x).reply ≡ failed code
    → IsKept h (download_timed h r seconds x) code
unfolding download_timed acquire
timed-IsKept h r seconds x code e = ground (arith, e)

upload-IsKept :
    (h : Handler) (r : Request) (x : Transfer) (code : ℕ)
    → (upload h r x).reply ≡ failed code
    → IsKept h (upload h r x) code
unfolding upload acquire
upload-IsKept h r x code e = ground (arith, e)

answer-IsKept :
    (h : Handler) (r : Request) (x : Transfer) (a : Asked) (code : ℕ)
    → (answer h r x a).reply ≡ failed code
    → IsKept h (answer h r x a) code
unfolding answer
answer-IsKept h r x invalid code e = ground (arith, e)
answer-IsKept h r x nothing code e = ground (arith, e)
answer-IsKept h r x (wanted q) code e = elim (Bool-cases (ltb 0 q.seconds)) [
  | inl on ↦ rw on (timed-IsKept h r q.seconds x code (rw on at e))
  | inr off ↦ rw off (sized-IsKept h r q.bytes x code (rw off at e))
]

dispatch-IsKept :
    (h : Handler) (r : Request) (x : Transfer) (m : Method) (code : ℕ)
    → (dispatch h r x m).reply ≡ failed code
    → IsKept h (dispatch h r x m) code
unfolding dispatch
dispatch-IsKept h r x get code e = answer-IsKept h r x (parse_download_request r.path r.time) code e
dispatch-IsKept h r x head code e =
    answer-IsKept h r x (parse_download_request r.path r.time) code e
dispatch-IsKept h r x put_method code e = upload-IsKept h r x code e
dispatch-IsKept h r x post code e = upload-IsKept h r x code e
dispatch-IsKept h r x other_method code e = ground (arith, e)

-- A request that is answered with an error code, on whichever branch, emits no completion record and
-- leaves the handler as it was, but for the count of rejections, which goes up by one where no slot
-- was free.
pub serve_error_keeps :
    (h : Handler) (allow : Option (List ℕ → Bool)) (r : Request) (x : Transfer) (code : ℕ)
    → (serve_http h allow r x).reply ≡ failed code
    → IsKept h (serve_http h allow r x) code
unfolding serve_http
serve_error_keeps h allow r x code e = elim (Bool-cases (peer_allowed allow r)) [
  | inl ok ↦ rw ok (dispatch-IsKept h r x r.method code (rw ok at e))
  | inr shut ↦ rw shut (ground (arith, rw shut at e))
]
