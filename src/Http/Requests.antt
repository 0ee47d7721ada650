-- ===== src/Http/Requests.antt =====
-- internal/tr143/http.go: which download a request asks for. The parts of path, strings and strconv
-- that it uses are written out; a URL comes parsed, into its path and the value of `time`.
use diagd.Base.{
  ℕ, ◌-◌, Bool, true, false, not, ◌&&◌, ◌||◌, List, [], ◌∷◌, Option, none, some, ltb, leb, ◌==◌,
  if◌then◌else◌, take, drop,
}
use diagd.Base.Int.{ℤ, pos, negsuc}
use diagd.Live.{last_index}
use diagd.Http.{is_digit, leading, parse_size_name}

abbrev pub max_time_based_seconds : ℕ
max_time_based_seconds = 999

pub record DownloadRequest : Type 0 where
  pub bytes : ℤ
  pub seconds : ℕ

-- What parseDownloadRequest returns: an error, nil, or a request.
pub data Asked : Type 0 where
  invalid : Asked
  nothing : Asked
  wanted : DownloadRequest → Asked

abbrev pub is_empty : List ℕ → Bool
is_empty [] = true
is_empty (c ∷ cs) = false

-- Without the slashes at the end.
unfoldable pub trim_slashes : List ℕ → List ℕ
trim_slashes [] = []
trim_slashes (c ∷ cs) =
    let rest = trim_slashes cs in if is_empty rest && c == b'/' then [] else c ∷ rest

-- What stands behind the last slash; a path of slashes alone is "/".
unfoldable pub last_element : List ℕ → List ℕ
last_element trimmed =
    let name = drop (last_index b'/' trimmed) trimmed in if is_empty name then b'/' ∷ [] else name

-- path.Base.
unfoldable pub base : List ℕ → List ℕ
base [] = b'.' ∷ []
base (c ∷ cs) = last_element (trim_slashes (c ∷ cs))

-- strings.TrimSuffix(name, path.Ext(name)), for a name without slashes: what stands in front of its
-- last dot.
unfoldable pub without_ext : List ℕ → List ℕ
without_ext name = let i = last_index b'.' name in if ltb 0 i then take (i - 1) name else name

-- strings.CutPrefix.
unfoldable pub cut_prefix : List ℕ → List ℕ → Option (List ℕ)
cut_prefix name [] = some name
cut_prefix [] (p ∷ ps) = none
cut_prefix (c ∷ cs) (p ∷ ps) = let rest = cut_prefix cs ps in if c == p then rest else none

-- "dntimebasedmode_".
abbrev pub time_prefix : List ℕ
time_prefix =
    b'd' ∷ b'n' ∷ b't' ∷ b'i' ∷ b'm' ∷ b'e' ∷ b'b' ∷ b'a' ∷ b's' ∷ b'e' ∷ b'd' ∷ b'm' ∷ b'o' ∷ b'd'
    ∷ b'e' ∷ b'_' ∷ []

-- Decimal digits and nothing else; none is an error.
unfoldable pub digits : List ℕ → Option ℕ
digits [] = none
digits (c ∷ cs) =
    let (n, rest) = leading 0 (c ∷ cs) in
    if not (is_digit c) then none else elim rest [ [] ↦ some n | d ∷ ds ↦ none ]

-- strconv.Atoi; a value outside int64 is an error.
unfoldable pub atoi : List ℕ → Option ℤ
unfolding digits
atoi [] = none
atoi (c ∷ cs) =
    let unsigned = digits (c ∷ cs) in
    let signed = digits cs in
    if c == b'-'
    then elim signed [
      | none ↦ none
      | some n ↦
          if ltb 0x8000000000000000 n then none else some (if n == 0 then pos 0 else negsuc (n - 1))
    ]
    else elim (if c == b'+' then signed else unsigned) [
      | none ↦ none
      | some n ↦ if leb 0x8000000000000000 n then none else some (pos n)
    ]

-- A number of seconds from 1 to 999.
unfoldable pub seconds_of : List ℕ → Asked
seconds_of text = elim (atoi text) [
  | none ↦ invalid
  | some (pos n) ↦
      if ltb n 1 || ltb max_time_based_seconds n
      then invalid
      else wanted (record { bytes = pos 0; seconds = n })
  | some (negsuc n) ↦ invalid
]

-- What the last element of a path asks for.
unfoldable pub name_request : List ℕ → Asked
name_request name = elim (cut_prefix name time_prefix) [
  | some rest ↦ seconds_of (without_ext rest)
  | none ↦ elim (parse_size_name name) [
    | some size ↦ wanted (record { bytes = size; seconds = 0 })
    | none ↦ nothing
  ]
]

-- parseDownloadRequest, of the path and the value of `time` in the query.
unfoldable pub parse_download_request : List ℕ → List ℕ → Asked
parse_download_request path [] = name_request (base path)
parse_download_request path (c ∷ cs) = seconds_of (c ∷ cs)
