-- ===== src/Http/Names.antt =====
-- What parseSizeName of internal/tr143/http.go makes of a name.
use diagd.Base.{
  ℕ, ◌+◌, ◌-◌, ◌*◌, ◌<◌, ◌≤◌, ◌≡◌, refl, true, false, List, [], ◌∷◌, ◌++◌, some, All, arith,
}
use diagd.Base.Int.{pos}
use diagd.Http.{is_digit, leading, suffix, is_extension, unit_of, parse_size_name}

-- The number that decimal digits name, behind `acc`.
unfoldable pub value : ℕ → List ℕ → ℕ
value acc [] = acc
value acc (c ∷ cs) = value (acc * 10 + (c - b'0')) cs

abbrev pub IsNumber : List ℕ → Type 0
IsNumber = All (λ c. is_digit c ≡ true)

-- The rest of a name does not begin with a digit.
abbrev Ends : List ℕ → Type 0
Ends [] = Unit {0}
Ends (c ∷ cs) = is_digit c ≡ false

pub leading-append :
    (acc : ℕ) (ds rest : List ℕ)
    → IsNumber ds
    → Ends rest
    → leading acc (ds ++ rest) ≡ (value acc ds, rest)
unfolding leading value
leading-append acc [] [] h e = refl
leading-append acc [] (c ∷ cs) h e = rw e refl
leading-append acc (d ∷ ds) rest h e =
    rw (h.0) (leading-append (acc * 10 + (d - b'0')) ds rest h.1 e)

suffix-Ends : (rest : List ℕ) (factor : ℕ) → suffix rest ≡ some factor → Ends rest
unfolding suffix unit_of is_extension is_digit
suffix-Ends [] factor e = tt
suffix-Ends (c ∷ []) factor e = absurd (ground (arith, e))
suffix-Ends (c ∷ d ∷ cs) factor e = ground (arith, e)

suffix_pos : (rest : List ℕ) (factor : ℕ) → suffix rest ≡ some factor → 1 ≤ factor
unfolding suffix unit_of
suffix_pos [] factor e = ground (arith, e)
suffix_pos (c ∷ []) factor e = absurd (ground (arith, e))
suffix_pos (c ∷ d ∷ cs) factor e = ground (arith, e)

le-mul : (n f : ℕ) → 1 ≤ f → n ≤ n * f
le-mul n f h = grind arith

-- A name of decimal digits and a suffix that the pattern takes asks for exactly the number times
-- the factor of its unit, while that fits an int64.
pub size_name_exact :
    (c : ℕ) (cs rest : List ℕ) (factor : ℕ)
    → IsNumber (c ∷ cs)
    → suffix rest ≡ some factor
    → value 0 (c ∷ cs) * factor < 9223372036854775808
    → parse_size_name ((c ∷ cs) ++ rest) ≡ some (pos (value 0 (c ∷ cs) * factor))
unfolding parse_size_name
size_name_exact c cs rest factor h e fits = ground (
  arith,
  h.0,
  e,
  fits,
  leading-append 0 (c ∷ cs) rest h (suffix-Ends rest factor e),
  le-mul (value 0 (c ∷ cs)) factor (suffix_pos rest factor e),
)
