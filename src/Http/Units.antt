-- ===== src/Http/Units.antt =====
-- What the suffix of a name means, by the pattern of parseSizeName of internal/tr143/http.go and its
-- comment: an optional unit, decimal, and an optional extension.
use diagd.Base.{ℕ, ◌≤◌, ◌≡◌, ◌⊎◌, refl, true, List, [], ◌∷◌, some, All, arith}
use diagd.Http.{is_digit, is_letter, all_alnum, is_extension, unit_of, suffix}

-- A digit or a letter.
unfoldable pub IsAlnum : ℕ → Type 0
IsAlnum c = ((b'0' ≤ c) × (c ≤ b'9')) ⊎ (((b'A' ≤ c) × (c ≤ b'Z')) ⊎ ((b'a' ≤ c) × (c ≤ b'z')))

-- No extension, or a point with digits and letters behind it.
pub data MayExtend : List ℕ → Type 0 where
  bare : MayExtend []
  extension : {c : ℕ} {cs : List ℕ} → IsAlnum c → All IsAlnum cs → MayExtend (b'.' ∷ c ∷ cs)

-- One of the two cases of a letter.
abbrev Either : ℕ → ℕ → ℕ → Type 0
Either small big c = (c ≡ small) ⊎ (c ≡ big)

-- The bytes that one of a unit stands for.
pub data Stands : List ℕ → ℕ → Type 0 where
  bytes : {ext : List ℕ} → MayExtend ext → Stands ext 1
  kilobytes :
      {c d : ℕ} {ext : List ℕ}
      → Either b'k' b'K' c
      → Either b'b' b'B' d
      → MayExtend ext
      → Stands (c ∷ d ∷ ext) 1000
  megabytes :
      {c d : ℕ} {ext : List ℕ}
      → Either b'm' b'M' c
      → Either b'b' b'B' d
      → MayExtend ext
      → Stands (c ∷ d ∷ ext) 1000000
  gigabytes :
      {c d : ℕ} {ext : List ℕ}
      → Either b'g' b'G' c
      → Either b'b' b'B' d
      → MayExtend ext
      → Stands (c ∷ d ∷ ext) 1000000000

all_alnum_lem : (cs : List ℕ) → All IsAlnum cs → all_alnum cs ≡ true
unfolding all_alnum is_digit is_letter IsAlnum
all_alnum_lem [] h = refl
all_alnum_lem (c ∷ cs) h = ground (arith, h.0, all_alnum_lem cs h.1)

is_extension_lem : (ext : List ℕ) → MayExtend ext → is_extension ext ≡ true
unfolding is_extension
is_extension_lem ext bare = refl
is_extension_lem ext (extension {c} {cs} h hs) = all_alnum_lem (c ∷ cs) (h, hs)

pub suffix-Stands : (rest : List ℕ) (factor : ℕ) → Stands rest factor → suffix rest ≡ some factor
unfolding suffix unit_of
suffix-Stands rest factor (bytes bare) = refl
suffix-Stands rest factor (bytes (extension {c} {cs} h hs)) =
    ground (arith, is_extension_lem (b'.' ∷ c ∷ cs) (extension h hs))
suffix-Stands rest factor (kilobytes {ext} u v e) = ground (arith, u, v, is_extension_lem ext e)
suffix-Stands rest factor (megabytes {ext} u v e) = ground (arith, u, v, is_extension_lem ext e)
suffix-Stands rest factor (gigabytes {ext} u v e) = ground (arith, u, v, is_extension_lem ext e)
