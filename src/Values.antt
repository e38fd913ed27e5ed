-- ===== src/Values.antt =====
-- The decoded Python objects that reach the kernels of transforms/ and vault/: the logical values
-- of a DBF field as the public reader returns them, and everything else.
use dbf_anonymizer.Prelude.{ℕ, Bool, true, false, ℤ, Text, List}

-- What `datetime.replace(year, month, day)` leaves alone.
pub record TimeOfDay : Type 0 where
  pub hour : ℕ
  pub minute : ℕ
  pub second : ℕ
  pub microsecond : ℕ

-- A `date` is held by its proleptic Gregorian ordinal, which is `date.toordinal()`; `fromordinal`
-- is its inverse. A `datetime` is its calendar date and its time of day.
pub data Value : Type 0 where
  null : Value
  boolean : Bool → Value
  integer : ℤ → Value
  text : Text → Value
  bytes : List ℕ → Value
  bytearray : List ℕ → Value
  date : ℕ → Value
  datetime : ℕ → TimeOfDay → Value
  other : Value

-- `value is None`
abbrev pub is_null : Value → Bool
is_null null = true
is_null _ = false
