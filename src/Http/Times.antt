-- ===== src/Http/Times.antt =====
-- The two ways of internal/tr143/http.go to ask for a time-based download.
use diagd.Base.{
  ℕ, suc, ◌≤◌, ◌<◌, ◌≡◌, refl, ap, subst, ◌∙◌, false, List, [], ◌∷◌, ◌++◌, some, ◌==◌, length, take,
  drop, All, arith,
}
use diagd.Base.Int.{pos}
use diagd.Live.{last_index}
use diagd.Http.{is_digit, leading}
use diagd.Http.Names.{value, IsNumber, leading-append}
use diagd.Http.Requests.{
  wanted, is_empty, trim_slashes, last_element, base, without_ext, cut_prefix, time_prefix, digits,
  atoi, seconds_of, parse_download_request, name_request, max_time_based_seconds,
}

-- A byte does not stand in a name.
abbrev pub Without : ℕ → List ℕ → Type 0
Without c = All (λ x. (x == c) ≡ false)

last_index-Without : (c : ℕ) (xs : List ℕ) → Without c xs → last_index c xs ≡ 0
unfolding last_index
last_index-Without c [] h = refl
last_index-Without c (x ∷ xs) h = rw (last_index-Without c xs h.1) (rw (h.0) refl)

last_index-append :
    (c : ℕ) (dir name : List ℕ)
    → Without c name
    → last_index c (dir ++ (c ∷ name)) ≡ suc (length dir)
unfolding last_index
last_index-append c [] name h = rw (last_index-Without c name h) (ground arith)
last_index-append c (x ∷ dir) name h = rw (last_index-append c dir name h) (ground arith)

drop-length : (dir name : List ℕ) (c : ℕ) → drop (suc (length dir)) (dir ++ (c ∷ name)) ≡ name
drop-length [] name c = refl
drop-length (x ∷ dir) name c = drop-length dir name c

take-length : (xs ys : List ℕ) → take (length xs) (xs ++ ys) ≡ xs
take-length [] ys = refl
take-length (x ∷ xs) ys = ap (◌∷◌ x) (take-length xs ys)

trim-Without : (xs : List ℕ) → Without b'/' xs → trim_slashes xs ≡ xs
unfolding trim_slashes
trim-Without [] h = refl
trim-Without (x ∷ xs) h = rw (trim-Without xs h.1) (ground (arith, h.0))

trim-path :
    (dir name : List ℕ)
    → Without b'/' name
    → is_empty name ≡ false
    → (trim_slashes (dir ++ (b'/' ∷ name)) ≡ dir ++ (b'/' ∷ name))
      × (is_empty (dir ++ (b'/' ∷ name)) ≡ false)
unfolding trim_slashes
trim-path [] name h e = (rw (trim-Without name h) (rw e refl), refl)
trim-path (x ∷ dir) name h e = let (t, n) = trim-path dir name h e in (rw t (rw n refl), refl)

cut_prefix-append : (ps rest : List ℕ) → cut_prefix (ps ++ rest) ps ≡ some rest
unfolding cut_prefix
cut_prefix-append [] rest = refl
cut_prefix-append (p ∷ ps) rest = rw (cut_prefix-append ps rest) (ground arith)

last_element-path :
    (dir name : List ℕ)
    → Without b'/' name
    → is_empty name ≡ false
    → last_element (dir ++ (b'/' ∷ name)) ≡ name
unfolding last_element
last_element-path dir name h e =
    rw (last_index-append b'/' dir name h) (rw (drop-length dir name b'/') (rw e refl))

pub base-path :
    (dir name : List ℕ)
    → Without b'/' name
    → is_empty name ≡ false
    → base (dir ++ (b'/' ∷ name)) ≡ name
unfolding base
base-path [] name h e = ap last_element (trim-path [] name h e).0 ∙ last_element-path [] name h e
base-path (x ∷ dir) name h e =
    ap last_element (trim-path (x ∷ dir) name h e).0 ∙ last_element-path (x ∷ dir) name h e

append-nil : (xs : List ℕ) → xs ++ [] ≡ xs
append-nil [] = refl
append-nil (x ∷ xs) = ap (◌∷◌ x) (append-nil xs)

-- What may follow the seconds in a name: nothing, or a last extension.
unfoldable pub IsExtension : List ℕ → Type 0
IsExtension [] = Unit {0}
IsExtension (c ∷ cs) = (c ≡ b'.') × Without b'.' cs

without_ext-append :
    (ds ext : List ℕ) → Without b'.' ds → IsExtension ext → without_ext (ds ++ ext) ≡ ds
unfolding without_ext IsExtension
without_ext-append ds [] h e = rw (append-nil ds) (rw (last_index-Without b'.' ds h) refl)
without_ext-append ds (c ∷ cs) h e =
    rw (e.0) (rw (last_index-append b'.' ds cs e.1) (ground (arith, take-length ds (b'.' ∷ cs))))

digits-number :
    (c : ℕ) (cs : List ℕ) → IsNumber (c ∷ cs) → digits (c ∷ cs) ≡ some (value 0 (c ∷ cs))
unfolding digits
digits-number c cs h =
    let read : leading 0 (c ∷ cs) ≡ (value 0 (c ∷ cs), []) =
      subst (λ xs. leading 0 xs ≡ (value 0 (c ∷ cs), [])) (append-nil (c ∷ cs))
        (leading-append 0 (c ∷ cs) [] h tt) in
    ground (arith, h.0, ap (λ x. x.1) read, ap (λ x. x.0) read)

atoi-number :
    (c : ℕ) (cs : List ℕ)
    → IsNumber (c ∷ cs)
    → value 0 (c ∷ cs) < 9223372036854775808
    → atoi (c ∷ cs) ≡ some (pos (value 0 (c ∷ cs)))
unfolding atoi is_digit
atoi-number c cs h fits = ground (arith, h.0, fits, digits-number c cs h)

seconds_of-number :
    (c : ℕ) (cs : List ℕ)
    → IsNumber (c ∷ cs)
    → 1 ≤ value 0 (c ∷ cs)
    → value 0 (c ∷ cs) ≤ max_time_based_seconds
    → seconds_of (c ∷ cs) ≡ wanted (record { bytes = pos 0; seconds = value 0 (c ∷ cs) })
unfolding seconds_of
seconds_of-number c cs h low high =
    ground (arith, low, high, atoi-number c cs h (omega (arith, high)))

pub number-Without : (b : ℕ) (ds : List ℕ) → (is_digit b ≡ false) → IsNumber ds → Without b ds
unfolding is_digit
number-Without b [] no_digit h = tt
number-Without b (d ∷ ds) no_digit h =
    (ground (arith, no_digit, h.0), number-Without b ds no_digit h.1)

pub Without-append : (b : ℕ) (xs ys : List ℕ) → Without b xs → Without b ys → Without b (xs ++ ys)
Without-append b [] ys h k = k
Without-append b (x ∷ xs) ys h k = (h.0, Without-append b xs ys h.1 k)

prefixed :
    (name rest : List ℕ)
    → cut_prefix name time_prefix ≡ some rest
    → name_request name ≡ seconds_of (without_ext rest)
unfolding name_request cut_prefix seconds_of
prefixed name rest e = rw e refl

-- Both ways to ask for a time-based download ask for the number of seconds that they name, from 1 to
-- 999: the value of `time` on any path, and a name behind any directory that is the prefix, the
-- number and one extension, if any.
pub timed_request_exact :
    (path dir : List ℕ) (c : ℕ) (cs ext : List ℕ)
    → IsNumber (c ∷ cs)
    → 1 ≤ value 0 (c ∷ cs)
    → value 0 (c ∷ cs) ≤ max_time_based_seconds
    → IsExtension ext
    → Without b'/' ext
    → let q = wanted (record { bytes = pos 0; seconds = value 0 (c ∷ cs) }) in
      let name = time_prefix ++ ((c ∷ cs) ++ ext) in
      (parse_download_request path (c ∷ cs) ≡ q)
      × (parse_download_request (dir ++ (b'/' ∷ name)) [] ≡ q)
unfolding parse_download_request
timed_request_exact path dir c cs ext h low high e flat =
    let name = time_prefix ++ ((c ∷ cs) ++ ext) in
    let no_slash : Without b'/' name =
      Without-append b'/' time_prefix ((c ∷ cs) ++ ext) (ground arith) (
        Without-append b'/' (c ∷ cs) ext (number-Without b'/' (c ∷ cs) (unfold is_digit in refl) h)
          flat) in
    let by_value = seconds_of-number c cs h low high in
    (
      by_value,
      ap name_request (base-path dir name no_slash refl)
          ∙ (prefixed name ((c ∷ cs) ++ ext) (cut_prefix-append time_prefix ((c ∷ cs) ++ ext))
              ∙ (ap seconds_of (
                    without_ext-append (c ∷ cs) ext
                      (number-Without b'.' (c ∷ cs) (unfold is_digit in refl) h) e)
                  ∙ by_value)),
    )
