-- ===== src/Http/Sized.antt =====
-- A sized download of internal/tr143/http.go from its URL to its last byte.
use diagd.Base.{
  ℕ, ◌*◌, ◌≤◌, ◌<◌, ◌≡◌, ◌⊎◌, refl, ap, sym, ◌∙◌, subst, Bool, true, false, ◌&&◌, List, [], ◌∷◌,
  ◌++◌, All, Option, none, some, ltb, ◌==◌, replicate, arith,
}
use diagd.Base.Int.{pos, ltb_ℤ}
use diagd.Live.{http_download}
use diagd.Http.{is_digit, suffix, parse_size_name, Handler, whole, acquire, send_sized}
use diagd.Http.Units.{
  IsAlnum, MayExtend, bare, extension, Stands, bytes, kilobytes, megabytes, gigabytes,
  suffix-Stands,
}
use diagd.Http.Names.{value, IsNumber, size_name_exact}
use diagd.Http.Downloads.{sized_from}
use diagd.Http.Requests.{wanted, cut_prefix, time_prefix, name_request, parse_download_request}
use diagd.Http.Times.{Without, Without-append, number-Without, base-path}
use diagd.Http.Service.{
  get, Request, Transfer, body, download_sized, answer, dispatch, peer_allowed, serve_http,
  payload_block, is_head,
}

-- The suffix of a name has no slash.
alnum-Without : (cs : List ℕ) → All IsAlnum cs → Without b'/' cs
unfolding IsAlnum
alnum-Without [] h = tt
alnum-Without (c ∷ cs) h = (ground (arith, h.0), alnum-Without cs h.1)

extension-Without : (ext : List ℕ) → MayExtend ext → Without b'/' ext
extension-Without ext bare = tt
extension-Without ext (extension {c} {cs} h hs) = (refl, alnum-Without (c ∷ cs) (h, hs))

suffix-Without : (rest : List ℕ) (factor : ℕ) → Stands rest factor → Without b'/' rest
suffix-Without rest factor (bytes e) = extension-Without rest e
suffix-Without rest factor (kilobytes {ext} u v e) =
    (ground (arith, u), (ground (arith, v), extension-Without ext e))
suffix-Without rest factor (megabytes {ext} u v e) =
    (ground (arith, u), (ground (arith, v), extension-Without ext e))
suffix-Without rest factor (gigabytes {ext} u v e) =
    (ground (arith, u), (ground (arith, v), extension-Without ext e))

no_prefix : (c : ℕ) (cs : List ℕ) → is_digit c ≡ true → cut_prefix (c ∷ cs) time_prefix ≡ none
unfolding cut_prefix is_digit
no_prefix c cs h = ground (arith, h)

sized_name :
    (name : List ℕ) (size : ℕ)
    → cut_prefix name time_prefix ≡ none
    → parse_size_name name ≡ some (pos size)
    → name_request name ≡ wanted (record { bytes = pos size; seconds = 0 })
unfolding name_request cut_prefix parse_size_name
sized_name name size e f = rw e (rw f refl)

sized_request :
    (dir : List ℕ) (c : ℕ) (cs rest : List ℕ) (factor : ℕ)
    → IsNumber (c ∷ cs)
    → suffix rest ≡ some factor
    → Without b'/' rest
    → value 0 (c ∷ cs) * factor < 9223372036854775808
    → parse_download_request (dir ++ (b'/' ∷ ((c ∷ cs) ++ rest))) []
      ≡ wanted (record { bytes = pos (value 0 (c ∷ cs) * factor); seconds = 0 })
unfolding parse_download_request
sized_request dir c cs rest factor h e flat fits =
    let name = (c ∷ cs) ++ rest in
    let digits_flat = number-Without b'/' (c ∷ cs) (unfold is_digit in refl) h in
    ap name_request (base-path dir name (Without-append b'/' (c ∷ cs) rest digits_flat flat) refl)
    ∙ sized_name name (value 0 (c ∷ cs) * factor) (no_prefix c (cs ++ rest) h.0)
        (size_name_exact c cs rest factor h e fits)

sized_served :
    (h : Handler) (r : Request) (size : ℕ) (x : Transfer)
    → r.method ≡ get
    → (h.max_download_bytes ≡ 0) ⊎ (size ≤ h.max_download_bytes)
    → (acquire h).1 ≡ true
    → send_sized payload_block size 0 x.writes ≡ size
    → let o = download_sized h r (pos size) x in
      (o.reply ≡ body (some (pos size)) size)
      × (o.events ≡ record { test = http_download; complete = true; bytes = size } ∷ [])
unfolding download_sized
sized_served h r size x m limit slot sent =
    let unlimited : (ltb 0 h.max_download_bytes && ltb_ℤ (pos h.max_download_bytes) (pos size))
        ≡ false =
      ground (arith, limit) in
    let equal : (size == size) ≡ true = ground arith in
    let getting : is_head r.method ≡ false = ap is_head m in
    rw unlimited (rw slot (rw getting (rw sent (refl, rw equal refl))))

allowed_serve :
    (h : Handler) (allow : Option (List ℕ → Bool)) (r : Request) (x : Transfer)
    → peer_allowed allow r ≡ true
    → serve_http h allow r x ≡ dispatch h r x r.method
unfolding serve_http
allowed_serve h allow r x ok = rw ok refl

-- A GET of a sized name behind any directory, from an allowed peer, with a free slot and within the
-- limit, is answered with exactly the number of bytes that the name says as its Content-Length, and
-- where the client takes every block with exactly these bytes and a record that says complete. The
-- name is a decimal number, then nothing, or KB, MB or GB in any case, which stand for 1000,
-- 1000000 and 1000000000 bytes, then nothing, or a point with digits and letters behind it; the
-- bytes are fewer than 2^63.
pub sized_get_exact :
    (h : Handler) (allow : Option (List ℕ → Bool)) (r : Request) (x : Transfer) (dir : List ℕ)
    (c : ℕ) (cs rest : List ℕ) (factor k : ℕ)
    → peer_allowed allow r ≡ true
    → r.method ≡ get
    → r.time ≡ []
    → r.path ≡ dir ++ (b'/' ∷ ((c ∷ cs) ++ rest))
    → IsNumber (c ∷ cs)
    → Stands rest factor
    → value 0 (c ∷ cs) * factor < 9223372036854775808
    → (h.max_download_bytes ≡ 0) ⊎ (value 0 (c ∷ cs) * factor ≤ h.max_download_bytes)
    → (acquire h).1 ≡ true
    → x.writes ≡ replicate k whole
    → value 0 (c ∷ cs) * factor ≤ k * payload_block
    → let size = value 0 (c ∷ cs) * factor in
      let o = serve_http h allow r x in
      (o.reply ≡ body (some (pos size)) size)
      × (o.events ≡ record { test = http_download; complete = true; bytes = size } ∷ [])
unfolding dispatch answer
sized_get_exact h allow r x dir c cs rest factor k ok m t p num unit fits limit slot w enough =
    let size = value 0 (c ∷ cs) * factor in
    let asked =
      sized_request dir c cs rest factor num (suffix-Stands rest factor unit)
        (suffix-Without rest factor unit) fits in
    let sent : send_sized payload_block size 0 x.writes ≡ size =
      ap (send_sized payload_block size 0) w
      ∙ sized_from payload_block size 0 k (omega arith) (omega (arith, enough)) in
    let parsed =
      ap (parse_download_request r.path) t
      ∙ (ap (λ path. parse_download_request path []) p ∙ asked) in
    let steps : serve_http h allow r x ≡ download_sized h r (pos size) x =
      allowed_serve h allow r x ok ∙ (ap (dispatch h r x) m ∙ ap (answer h r x) parsed) in
    subst
      (λ o.
        (o.reply ≡ body (some (pos size)) size)
        × (o.events ≡ record { test = http_download; complete = true; bytes = size } ∷ []))
      (sym steps) (sized_served h r size x m limit slot sent)
