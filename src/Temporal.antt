-- ===== src/Temporal.antt =====
-- transforms/temporal.py: the shift of a temporal domain. A `date` is held by its ordinal, so
-- `toordinal` and `fromordinal` are the number itself; dates are naive.
pub mod Shift
pub mod Count
pub mod Offsets
use dbf_anonymizer.Prelude.{
  ℕ, zero, suc, ◌+◌, ◌*◌, String, Bool, true, false, ◌&&◌, if◌then◌else◌, ℤ, pos, negsuc, pos_part,
  ◌+ℤ◌, ◌-ℤ◌, -ℤ_of, ltb_ℤ, leb_ℤ,
}
use dbf_anonymizer.Errors.{
  Failure, mapping_error, mapping_constraint_infeasible, value_error, Result, ok, err, ◌>>=◌,
}
use dbf_anonymizer.Values.{
  Value, null, boolean, integer, text, bytes, bytearray, date, datetime, other, TimeOfDay,
}

-- LOGICAL_MIN_ORDINAL and LOGICAL_MAX_ORDINAL
abbrev pub logical_min_ordinal : ℤ
logical_min_ordinal = pos 1

abbrev pub logical_max_ordinal : ℤ
logical_max_ordinal = pos 3652059

abbrev pub unsupported_representation : Failure
unsupported_representation =
    mapping_error mapping_constraint_infeasible "transform" "TEMPORAL_UNSUPPORTED_REPRESENTATION"

abbrev pub only_zero_feasible : Failure
only_zero_feasible =
    mapping_error mapping_constraint_infeasible "transform" "TEMPORAL_ONLY_ZERO_FEASIBLE"

abbrev pub shift_out_of_range : Failure
shift_out_of_range =
    mapping_error mapping_constraint_infeasible "transform" "TEMPORAL_SHIFT_OUT_OF_RANGE"

unfoldable pub is_temporal_logical_value : Value → Bool
is_temporal_logical_value null = true
is_temporal_logical_value (date _) = true
is_temporal_logical_value (datetime _ _) = true
is_temporal_logical_value _ = false

unfoldable pub temporal_ordinal : Value → Result ℤ
temporal_ordinal (datetime ordinal _) = ok (pos ordinal)
temporal_ordinal (date ordinal) = ok (pos ordinal)
temporal_ordinal _ = err unsupported_representation

-- `LOGICAL_MIN_ORDINAL <= ordinal <= LOGICAL_MAX_ORDINAL`
abbrev pub in_logical_range : ℤ → Bool
in_logical_range ordinal = leb_ℤ logical_min_ordinal ordinal && leb_ℤ ordinal logical_max_ordinal

unfoldable pub temporal_shift : Value → ℤ → Result Value
temporal_shift null offset_days = ok null
temporal_shift (datetime day time) offset_days =
    let ordinal = pos day +ℤ offset_days in
    if in_logical_range ordinal
    then ok (datetime (pos_part ordinal) time)
    else err shift_out_of_range
temporal_shift (date day) offset_days =
    let ordinal = pos day +ℤ offset_days in
    if in_logical_range ordinal then ok (date (pos_part ordinal)) else err shift_out_of_range
temporal_shift _ offset_days = err unsupported_representation

unfoldable pub temporal_recover : Value → ℤ → Result Value
unfolding temporal_shift
temporal_recover value offset_days = temporal_shift value (-ℤ_of offset_days)

unfoldable pub temporal_feasible_interval : ℤ → ℤ → Result (ℤ × ℤ)
temporal_feasible_interval min_observed max_observed =
    if ltb_ℤ max_observed min_observed
    then err value_error
    else ok (logical_min_ordinal -ℤ min_observed, logical_max_ordinal -ℤ max_observed)

abbrev pub spans_zero : ℤ → ℤ → Bool
spans_zero lower upper = leb_ℤ lower (pos 0) && leb_ℤ (pos 0) upper

unfoldable pub temporal_nonzero_count : ℤ → ℤ → ℤ
temporal_nonzero_count lower upper =
    let total = upper -ℤ lower +ℤ pos 1 in
    if leb_ℤ total (pos 0)
    then pos 0
    else (if spans_zero lower upper then total -ℤ pos 1 else total)

unfoldable pub temporal_offset_at : ℤ → ℤ → ℤ → Result ℤ
unfolding temporal_nonzero_count
temporal_offset_at lower upper index =
    let count = temporal_nonzero_count lower upper in
    if leb_ℤ (pos 0) index && ltb_ℤ index count
    then (if spans_zero lower upper
        then (if ltb_ℤ index (-ℤ_of lower)
            then ok (lower +ℤ index)
            else ok (lower +ℤ index +ℤ pos 1))
        else ok (lower +ℤ index))
    else err only_zero_feasible
