-- ===== src/CanonicalText.antt =====
-- transforms/numeric_keys.py: the one text form of an integer key, which the vault stores. The
-- limit that Python sets on the digits of `str` and `int` (4300) is not modelled.
pub mod Digits
pub mod RoundTrip
use dbf_anonymizer.Prelude.{
  ℕ, zero, suc, ◌+◌, ◌-◌, ◌*◌, ◌/◌, ◌%◌, Bool, true, false, not, ◌&&◌, ◌||◌, List, [], ◌∷◌, ltb,
  leb, ◌==◌, if◌then◌else◌, all, ℤ, pos, negsuc, -ℤ_of, Text,
}
use dbf_anonymizer.Errors.{value_error, type_error, Result, ok, err}
use dbf_anonymizer.Values.{Value, integer, text}

-- the decimal digits of `n`, before `later`; `n` rounds are enough
pub decimal : ℕ → ℕ → Text → Text
decimal zero n later = (48 + n) ∷ later
decimal (suc fuel) n later =
    let rest = decimal fuel (n / 10) ((48 + n % 10) ∷ later) in
    if ltb n 10 then (48 + n) ∷ later else rest

abbrev pub minus : ℕ
minus = 45

-- `str(value)`
unfoldable pub int_text : ℤ → Text
unfolding decimal
int_text (pos n) = decimal n n []
int_text (negsuc n) = minus ∷ decimal (suc n) (suc n) []

unfoldable pub canonical_integer_text : Value → Result Text
unfolding int_text
canonical_integer_text (integer value) = ok (int_text value)
canonical_integer_text _ = err type_error

abbrev pub is_digit : ℕ → Bool
is_digit c = leb 48 c && leb c 57

-- `[1-9][0-9]*`
pub is_nonzero_led : Text → Bool
is_nonzero_led [] = false
is_nonzero_led (c ∷ cs) = (leb 49 c && leb c 57) && all is_digit cs

-- the pattern `\A(?:0|-?[1-9][0-9]*)\Z`
unfoldable pub is_canonical : Text → Bool
unfolding is_nonzero_led
is_canonical [] = false
is_canonical (c ∷ []) = c == 48 || is_nonzero_led (c ∷ [])
is_canonical (c ∷ d ∷ cs) =
    if c == minus then is_nonzero_led (d ∷ cs) else is_nonzero_led (c ∷ d ∷ cs)

-- `int` of ASCII digits, after the number that was read
pub value_loop : ℕ → Text → ℕ
value_loop n [] = n
value_loop n (c ∷ cs) = value_loop (n * 10 + (c - 48)) cs

-- `int(text)` of a canonical text
unfoldable pub int_of : Text → ℤ
unfolding value_loop
int_of [] = pos 0
int_of (c ∷ cs) = if c == minus then -ℤ_of (pos (value_loop 0 cs)) else pos (value_loop 0 (c ∷ cs))

unfoldable pub parse_canonical_integer_text : Value → Result ℤ
unfolding is_canonical int_of
parse_canonical_integer_text (text t) = if is_canonical t then ok (int_of t) else err value_error
parse_canonical_integer_text _ = err type_error
