-- ===== src/Http/Complete.antt =====
-- What the completion records of internal/tr143/http.go may say.
use diagd.Base.{
  ℕ, ◌+◌, ◌*◌, ◌≡◌, refl, ap, subst, Bool, Bool-cases, inl, inr, true, false, ◌&&◌, List, [], ◌∷◌,
  Option, some, ltb, leb, ◌==◌, if◌then◌else◌, All, arith,
}
use diagd.Base.Int.{ℤ, pos, negsuc, pos_part, is_nonneg, ltb_ℤ}
use diagd.Clock.{second}
use diagd.Live.{Test, http_download, http_download_timed, http_upload}
use diagd.Http.{Handler, Write, whole, broken, acquire, send_sized}
use diagd.Http.Requests.{Asked, DownloadRequest, invalid, nothing, wanted, parse_download_request}
use diagd.Http.Service.{
  Method, get, head, put_method, post, other_method, Request, Transfer, BodyRead, more, eof, cut,
  body, received, Event, Outcome, send_timed, receive_body, download_sized, download_timed, upload,
  answer, dispatch, peer_allowed, serve_http, payload_block, is_head,
}

-- Some reading of a timed transfer is at its deadline or later.
unfoldable pub reaches : ℕ → List (ℕ × Write) → Bool
reaches deadline [] = false
reaches deadline ((now, w) ∷ rest) =
    let later = reaches deadline rest in if leb deadline now then true else later

-- A body is read to its end.
unfoldable pub ends : List BodyRead → Bool
ends [] = false
ends (more k ∷ rest) = ends rest
ends (eof k ∷ rest) = true
ends (cut k ∷ rest) = false

-- What "complete" of a test means.
pub Fulfilled : Request → Transfer → Outcome → ℕ → Test → Type 0
Fulfilled r x o bytes http_download = o.reply ≡ body (some (pos bytes)) bytes
Fulfilled r x o bytes http_download_timed =
    (q : DownloadRequest) × ((parse_download_request r.path r.time ≡ wanted q)
      × (reaches (x.start + q.seconds * second) x.timed ≡ true))
Fulfilled r x o bytes http_upload = (o.reply ≡ received) × (ends x.reads ≡ true)

abbrev Truthful : Request → Transfer → Outcome → Type 0
Truthful r x o = All (λ e. e.complete ≡ true → Fulfilled r x o e.bytes e.test) o.events

whole_size :
    (size : ℤ) (sent : ℕ)
    → (is_nonneg size && (sent == pos_part size)) ≡ true
    → body (some size) sent ≡ body (some (pos sent)) sent
whole_size (pos n) sent e = ap (λ m. body (some (pos m)) sent) (ground (arith, e))
whole_size (negsuc n) sent e = absurd (ground (arith, e))

sized-Truthful :
    (h : Handler) (r : Request) (size : ℤ) (x : Transfer) → Truthful r x (download_sized h r size x)
unfolding download_sized Fulfilled
sized-Truthful h r size x =
    let limited = ltb 0 h.max_download_bytes && ltb_ℤ (pos h.max_download_bytes) size in
    elim (Bool-cases limited) [
      | inl l ↦ rw l tt
      | inr l ↦ elim (Bool-cases (acquire h).1) [
        | inl a ↦ elim (Bool-cases (is_head r.method)) [
          | inl m ↦ rw l (rw a (rw m tt))
          | inr m ↦ rw l (
              rw a (
                rw m ((whole_size size (send_sized payload_block (pos_part size) 0 x.writes), tt))))
        ]
        | inr a ↦ rw l (rw a tt)
      ]
    ]

send_timed-reaches :
    (block deadline sent : ℕ) (rs : List (ℕ × Write))
    → (send_timed block deadline sent rs).1 ≡ true
    → reaches deadline rs ≡ true
unfolding send_timed reaches
send_timed-reaches block deadline sent [] e = absurd (ground (arith, e))
send_timed-reaches block deadline sent ((now, whole) ∷ rest) e =
    ground (arith, e, send_timed-reaches block deadline (sent + block) rest)
send_timed-reaches block deadline sent ((now, broken wrote) ∷ rest) e = ground (arith, e)

receive_body-ends :
    (n : ℕ) (reads : List BodyRead) → (receive_body n reads).1 ≡ true → ends reads ≡ true
unfolding receive_body ends
receive_body-ends n [] e = absurd (ground (arith, e))
receive_body-ends n (more k ∷ rest) e = receive_body-ends (n + k) rest e
receive_body-ends n (eof k ∷ rest) e = refl
receive_body-ends n (cut k ∷ rest) e = absurd (ground (arith, e))

timed-Truthful :
    (h : Handler) (r : Request) (q : DownloadRequest) (x : Transfer)
    → parse_download_request r.path r.time ≡ wanted q
    → Truthful r x (download_timed h r q.seconds x)
unfolding download_timed Fulfilled
timed-Truthful h r q x asked =
    let d = x.start + q.seconds * second in
    let limited = ltb 0 h.max_duration && ltb h.max_duration (q.seconds * second) in
    elim (Bool-cases limited) [
      | inl l ↦ rw l tt
      | inr l ↦ elim (Bool-cases (acquire h).1) [
        | inl a ↦ elim (Bool-cases (is_head r.method)) [
          | inl m ↦ rw l (rw a (rw m tt))
          | inr m ↦ rw l (
              rw a (rw m ((λ e. (q, (asked, send_timed-reaches payload_block d 0 x.timed e)), tt))))
        ]
        | inr a ↦ rw l (rw a tt)
      ]
    ]

upload-Truthful : (h : Handler) (r : Request) (x : Transfer) → Truthful r x (upload h r x)
unfolding upload Fulfilled
upload-Truthful h r x = elim (Bool-cases (acquire h).1) [
  | inl a ↦ rw a ((λ e. (rw e refl, receive_body-ends 0 x.reads e), tt))
  | inr a ↦ rw a tt
]

answer-Truthful :
    (h : Handler) (r : Request) (x : Transfer) (a : Asked)
    → parse_download_request r.path r.time ≡ a
    → Truthful r x (answer h r x a)
unfolding answer
answer-Truthful h r x invalid asked = tt
answer-Truthful h r x nothing asked = tt
answer-Truthful h r x (wanted q) asked = elim (Bool-cases (ltb 0 q.seconds)) [
  | inl on ↦ rw on (timed-Truthful h r q x asked)
  | inr off ↦ rw off (sized-Truthful h r q.bytes x)
]

dispatch-Truthful :
    (h : Handler) (r : Request) (x : Transfer) (m : Method) → Truthful r x (dispatch h r x m)
unfolding dispatch
dispatch-Truthful h r x get = answer-Truthful h r x (parse_download_request r.path r.time) refl
dispatch-Truthful h r x head = answer-Truthful h r x (parse_download_request r.path r.time) refl
dispatch-Truthful h r x put_method = upload-Truthful h r x
dispatch-Truthful h r x post = upload-Truthful h r x
dispatch-Truthful h r x other_method = tt

serve-Truthful :
    (h : Handler) (allow : Option (List ℕ → Bool)) (r : Request) (x : Transfer)
    → Truthful r x (serve_http h allow r x)
unfolding serve_http
serve-Truthful h allow r x = elim (Bool-cases (peer_allowed allow r)) [
  | inl ok ↦ rw ok (dispatch-Truthful h r x r.method)
  | inr shut ↦ rw shut tt
]

-- A completion record that says complete tells the truth: a sized download has sent exactly the
-- Content-Length that it announced, a timed one went on until the clock reached the requested number
-- of seconds after its start, and an upload was read to its end and answered with 200.
pub complete_is_true :
    (h : Handler) (allow : Option (List ℕ → Bool)) (r : Request) (x : Transfer) (e : Event)
    → (serve_http h allow r x).events ≡ e ∷ []
    → e.complete ≡ true
    → Fulfilled r x (serve_http h allow r x) e.bytes e.test
complete_is_true h allow r x e emitted done =
    let o = serve_http h allow r x in
    (subst (All (λ f. f.complete ≡ true → Fulfilled r x o f.bytes f.test)) emitted
        (serve-Truthful h allow r x)).0
      done
