-- ===== src/Checks/TemporalChecks.antt =====
-- Runs of transforms/temporal.py and its theorems at small inputs.
use dbf_anonymizer.Prelude.{
  ◌≡◌, ◌≢◌, ◌↔◌, refl, true, arith, ℤ, pos, negsuc, ◌+ℤ◌, ◌-ℤ◌, ◌≤ℤ◌, ◌<ℤ◌,
}
use dbf_anonymizer.Errors.{ok, err}
use dbf_anonymizer.Values.{date, datetime, TimeOfDay}
use dbf_anonymizer.Temporal.{
  temporal_shift, temporal_recover, temporal_ordinal, temporal_feasible_interval,
  temporal_nonzero_count, temporal_offset_at, in_logical_range, shift_out_of_range,
}
use dbf_anonymizer.Temporal.Shift.{
  temporal_recover-temporal_shift, temporal_shift-interval, temporal_feasible_interval_iff,
}
use dbf_anonymizer.Temporal.Offsets.{
  IsCandidate, temporal_offset_at-IsCandidate, temporal_offset_at-covers,
}

abbrev pub noon : TimeOfDay
noon = record { hour = 12; minute = 0; second = 0; microsecond = 0 }

late_shift : temporal_shift (date 3652059) (pos 1) ≡ err shift_out_of_range
unfolding temporal_shift ◌+ℤ◌
late_shift = refl

around_zero : temporal_offset_at (negsuc 1) (pos 2) (pos 2) ≡ ok (pos 1)
unfolding temporal_offset_at ◌+ℤ◌ ◌-ℤ◌
around_zero = refl

temporal_recover-temporal_shift_example :
    temporal_recover (datetime 90 noon) (negsuc 9) ≡ ok (datetime 100 noon)
unfolding temporal_shift ◌+ℤ◌
temporal_recover-temporal_shift_example =
    temporal_recover-temporal_shift (datetime 100 noon) (negsuc 9) (datetime 90 noon) refl refl

temporal_shift-interval_example : pos 90 -ℤ pos 20 ≡ pos 100 -ℤ pos 30
unfolding temporal_shift temporal_ordinal ◌+ℤ◌
temporal_shift-interval_example =
    temporal_shift-interval (datetime 100 noon) (date 30) (datetime 90 noon) (date 20) (negsuc 9)
      (pos 100) (pos 30) (pos 90) (pos 20) refl refl refl refl refl refl

temporal_feasible_interval_iff_example :
    ((negsuc 8 ≤ℤ pos 5) × (pos 5 ≤ℤ pos 3652000))
    ↔ ((o : ℤ) → pos 10 ≤ℤ o → o ≤ℤ pos 59 → in_logical_range (o +ℤ pos 5) ≡ true)
unfolding temporal_feasible_interval ◌-ℤ◌
temporal_feasible_interval_iff_example =
    temporal_feasible_interval_iff (pos 10) (pos 59) (negsuc 8) (pos 3652000) (pos 5) refl

temporal_offset_at-IsCandidate_example :
    (r : ℤ) × (temporal_offset_at (negsuc 1) (pos 2) (pos 2) ≡ ok r)
    × IsCandidate (negsuc 1) (pos 2) r
unfolding temporal_nonzero_count ◌+ℤ◌ ◌-ℤ◌
temporal_offset_at-IsCandidate_example =
    temporal_offset_at-IsCandidate (negsuc 1) (pos 2) (pos 2) (omega arith) (omega arith)

two_nonzero : pos 2 ≢ pos 0
two_nonzero h = cc

temporal_offset_at-covers_example :
    (index : ℤ) × ((pos 0 ≤ℤ index) × (index <ℤ temporal_nonzero_count (negsuc 1) (pos 2)))
    × (temporal_offset_at (negsuc 1) (pos 2) index ≡ ok (pos 2))
    × ((other : ℤ) → temporal_offset_at (negsuc 1) (pos 2) other ≡ ok (pos 2) → other ≡ index)
temporal_offset_at-covers_example =
    temporal_offset_at-covers (negsuc 1) (pos 2) (pos 2) (omega arith, omega arith, two_nonzero)
