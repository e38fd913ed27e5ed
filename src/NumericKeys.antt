-- ===== src/NumericKeys.antt =====
-- transforms/numeric_keys.py: the model of declared numeric key domains.
pub mod Gaps
pub mod Free
pub mod Bijection
pub mod Assignment
use dbf_anonymizer.Prelude.{
  ℕ, zero, suc, ◌+◌, ◌-◌, ◌*◌, ◌/◌, ◌%◌, ◌^◌, Bool, true, false, not, ◌&&◌, ◌||◌, Option, none,
  some, List, [], ◌∷◌, ◌++◌, map, ltb, leb, ◌==◌, if◌then◌else◌, length, all, keep, ℤ, pos, negsuc,
  ◌+ℤ◌, ◌-ℤ◌, -ℤ_of, ltb_ℤ, leb_ℤ, Text, mem, set_of,
}
use dbf_anonymizer.Errors.{Failure, value_error, type_error, Result, ok, err, ◌>>=◌, ◌>>◌, raise_if}
use dbf_anonymizer.Values.{Value, integer, text}

-- INTEGER_KEY_ORIGINAL_LOW .. NUMERIC_KEY_MAX_WIDTH
abbrev pub integer_key_original_low : ℤ
integer_key_original_low = negsuc (2 ^ 31 - 1)

abbrev pub integer_key_original_high : ℤ
integer_key_original_high = pos (2 ^ 31 - 1)

abbrev pub integer_key_writable_low : ℤ
integer_key_writable_low = integer_key_original_low +ℤ pos 1

abbrev pub integer_key_writable_high : ℤ
integer_key_writable_high = integer_key_original_high -ℤ pos 1

abbrev pub numeric_key_max_width : ℤ
numeric_key_max_width = pos 20

abbrev pub Range : Type 0
Range = ℤ × ℤ

abbrev pub contains_range : Range → ℤ → Bool
contains_range (low, high) value = leb_ℤ low value && leb_ℤ value high

unfoldable pub integer_original_range : Range
integer_original_range = (integer_key_original_low, integer_key_original_high)

unfoldable pub integer_writable_pseudonym_range : Range
integer_writable_pseudonym_range = (integer_key_writable_low, integer_key_writable_high)

unfoldable pub integer_readable_original_range : Range
integer_readable_original_range = (integer_key_original_low, integer_key_original_high)

-- the range of a width in 1..20
abbrev range_of_width : ℤ → Range
range_of_width (pos w) = (-ℤ_of (pos (10 ^ (w - 1) - 1)), pos (10 ^ w - 1))
range_of_width (negsuc w) = (pos 0, pos 0)

unfoldable pub integral_numeric_range : Value → Result Range
integral_numeric_range (integer width) =
    if leb_ℤ (pos 1) width && leb_ℤ width numeric_key_max_width
    then ok (range_of_width width)
    else err value_error
integral_numeric_range _ = err type_error

max_low : ℤ → List Range → ℤ
max_low low [] = low
max_low low (r ∷ ranges) = max_low (if ltb_ℤ low r.0 then r.0 else low) ranges

min_high : ℤ → List Range → ℤ
min_high high [] = high
min_high high (r ∷ ranges) = min_high (if ltb_ℤ r.1 high then r.1 else high) ranges

unfoldable pub intersect_ranges : List Range → Option Range
unfolding max_low min_high
intersect_ranges [] = none
intersect_ranges (r ∷ ranges) =
    let low = max_low r.0 ranges in
    let high = min_high r.1 ranges in if ltb_ℤ high low then none else some (low, high)

pub record NumericKeyMemberRange : Type 0 where
  pub original_low : ℤ
  pub original_high : ℤ
  pub pseudonym_low : ℤ
  pub pseudonym_high : ℤ
  pub readable_low : Option ℤ
  pub readable_high : Option ℤ

abbrev or_else : Option ℤ → ℤ → ℤ
or_else none d = d
or_else (some v) d = v

unfoldable pub contains_original : NumericKeyMemberRange → ℤ → Bool
contains_original m value = contains_range (m.original_low, m.original_high) value

abbrev pub readable_range : NumericKeyMemberRange → Range
readable_range m = (or_else m.readable_low m.original_low, or_else m.readable_high m.original_high)

unfoldable pub contains_readable : NumericKeyMemberRange → ℤ → Bool
contains_readable m value = contains_range (readable_range m) value

pub record NumericKeyDomain : Type 0 where
  pub pseudonym_low : ℤ
  pub pseudonym_high : ℤ
  pub members : List NumericKeyMemberRange

abbrev pub size : NumericKeyDomain → ℤ
size d = d.pseudonym_high -ℤ d.pseudonym_low +ℤ pos 1

abbrev pub contains_pseudonym : NumericKeyDomain → ℤ → Bool
contains_pseudonym d value = contains_range (d.pseudonym_low, d.pseudonym_high) value

abbrev pub member_original_ranges : NumericKeyDomain → List Range
member_original_ranges d = map (λ m. (m.original_low, m.original_high)) d.members

unfoldable pub integer_member : NumericKeyMemberRange
integer_member = record {
  original_low = integer_key_writable_low;
  original_high = integer_key_writable_high;
  pseudonym_low = integer_key_writable_low;
  pseudonym_high = integer_key_writable_high;
  readable_low = some integer_key_original_low;
  readable_high = some integer_key_original_high;
}

unfoldable pub integral_numeric_member : Value → Result NumericKeyMemberRange
unfolding integral_numeric_range
integral_numeric_member width = do
  range ← integral_numeric_range width
  ok (record {
    original_low = range.0;
    original_high = range.1;
    pseudonym_low = range.0;
    pseudonym_high = range.1;
    readable_low = some range.0;
    readable_high = some range.1;
  })

pub data Verdict : Type 0 where
  reversible recovery_unwritable out_of_member_range : Verdict

unfoldable pub classify_member_original : NumericKeyMemberRange → Value → Result Verdict
unfolding contains_original contains_readable
classify_member_original member (integer value) =
    if contains_original member value
    then ok reversible
    else if contains_readable member value
    then ok recovery_unwritable
    else ok out_of_member_range
classify_member_original member _ = err type_error

unfoldable pub numeric_key_domain_for : List NumericKeyMemberRange → Result NumericKeyDomain
unfolding intersect_ranges
numeric_key_domain_for [] = err value_error
numeric_key_domain_for (m ∷ members) =
    elim (intersect_ranges (map (λ r. (r.pseudonym_low, r.pseudonym_high)) (m ∷ members))) [
      | none ↦ err value_error
      | some (low, high) ↦
          ok (record { pseudonym_low = low; pseudonym_high = high; members = m ∷ members })
    ]

-- `{value for value in occupied if domain.contains_pseudonym(value)}`
abbrev pub blocked_in : NumericKeyDomain → List ℤ → List ℤ
blocked_in d occupied = set_of (keep (contains_pseudonym d) occupied)

unfoldable pub free_token_count : NumericKeyDomain → List ℤ → ℤ
free_token_count d occupied = size d -ℤ pos (length (blocked_in d occupied))

unfoldable pub selectable_token_count : NumericKeyDomain → List ℤ → ℤ
unfolding free_token_count
selectable_token_count d blocked = free_token_count d blocked

-- the walk of `jth_free_token` over the sorted blocked values
unfoldable pub gap_walk : NumericKeyDomain → ℤ → ℤ → List ℤ → Result ℤ
gap_walk d previous remaining [] =
    let result = previous +ℤ pos 1 +ℤ remaining in
    if ltb_ℤ d.pseudonym_high result then err value_error else ok result
gap_walk d previous remaining (value ∷ values) =
    let gap = value -ℤ previous -ℤ pos 1 in
    let skipped = gap_walk d previous remaining values in
    let later = gap_walk d value (remaining -ℤ gap) values in
    if ltb_ℤ value d.pseudonym_low || ltb_ℤ d.pseudonym_high value
    then skipped
    else if ltb_ℤ remaining gap
    then ok (previous +ℤ pos 1 +ℤ remaining)
    else later

unfoldable pub jth_free_token : NumericKeyDomain → List ℤ → ℤ → Result ℤ
unfolding gap_walk
jth_free_token d blocked j =
    if ltb_ℤ j (pos 0)
    then err value_error
    else gap_walk d (d.pseudonym_low -ℤ pos 1) j (set_of blocked)

-- the last loop of `plan_numeric_bijection`
unfoldable pub every_original_allowed : NumericKeyDomain → List ℤ → ℤ → List ℤ → Bool
every_original_allowed d blocked free [] = true
every_original_allowed d blocked free (value ∷ values) =
    let allowed =
      if contains_pseudonym d value && not (mem value blocked) then free -ℤ pos 1 else free in
    let later = every_original_allowed d blocked free values in
    if ltb_ℤ allowed (pos 1) then false else later

unfoldable pub plan_numeric_bijection : NumericKeyDomain → List ℤ → List ℤ → Result Bool
unfolding every_original_allowed
plan_numeric_bijection d unpersisted_originals occupied_pseudonyms =
    let blocked = blocked_in d occupied_pseudonyms in
    let distinct = set_of unpersisted_originals in
    let free = size d -ℤ pos (length blocked) in
    if not (length distinct == length unpersisted_originals)
    then err value_error
    else if ltb_ℤ free (pos (length distinct))
    then ok false
    else ok (every_original_allowed d blocked free distinct)
