-- ===== src/Temporal/Shift.antt =====
-- transforms/temporal.py: what a shift does to a value, and that recovery undoes it.
use dbf_anonymizer.Prelude.{
  ℕ, ◌≡◌, sym, ◌∙◌, ap, inl, inr, ◌↔◌, true, Bool-cases, arith, ℤ, pos, pos_part, ◌+ℤ◌, ◌-ℤ◌, -ℤ_of,
  ltb_ℤ, ◌≤ℤ◌, parts_of_eq, ltb_ℤ→le, +ℤ_parts, -ℤ_parts,
}
use dbf_anonymizer.Errors.{ok, ok-injective}
use dbf_anonymizer.Values.{
  Value, null, boolean, integer, text, bytes, bytearray, date, datetime, other, TimeOfDay,
}
use dbf_anonymizer.Temporal.{
  temporal_shift, temporal_recover, temporal_ordinal, temporal_feasible_interval, in_logical_range,
  logical_min_ordinal, logical_max_ordinal,
}

-- A value that Python can hold: the calendar date of a temporal value is between date.min and
-- date.max.
abbrev pub IsCalendarValue : Value → Type 0
IsCalendarValue (date day) = in_logical_range (pos day) ≡ true
IsCalendarValue (datetime day time) = in_logical_range (pos day) ≡ true
IsCalendarValue _ = Unit

pub in_logical_range→within :
    (i : ℤ) → in_logical_range i ≡ true → (logical_min_ordinal ≤ℤ i) × (i ≤ℤ logical_max_ordinal)
in_logical_range→within i h = ground arith

pub within→in_logical_range :
    (i : ℤ) → logical_min_ordinal ≤ℤ i → i ≤ℤ logical_max_ordinal → in_logical_range i ≡ true
within→in_logical_range i above below = ground arith

shift_back :
    (day : ℕ) (offset : ℤ)
    → in_logical_range (pos day +ℤ offset) ≡ true
    → pos (pos_part (pos day +ℤ offset)) +ℤ -ℤ_of offset ≡ pos day
unfolding ◌+ℤ◌
shift_back day offset h = ground arith

pos_pos_part : (i : ℤ) → in_logical_range i ≡ true → pos (pos_part i) ≡ i
pos_pos_part i h = ground arith

temporal_shift-date :
    (day : ℕ) (offset : ℤ) (shifted : Value)
    → temporal_shift (date day) offset ≡ ok shifted
    → (in_logical_range (pos day +ℤ offset) ≡ true)
      × (shifted ≡ date (pos_part (pos day +ℤ offset)))
unfolding temporal_shift
temporal_shift-date day offset shifted h =
    elim (Bool-cases (in_logical_range (pos day +ℤ offset))) [
      | inl inside ↦ (inside, ok-injective (sym h ∙ rw inside))
      | inr out ↦ ground (arith, out)
    ]

temporal_shift-datetime :
    (day : ℕ) (time : TimeOfDay) (offset : ℤ) (shifted : Value)
    → temporal_shift (datetime day time) offset ≡ ok shifted
    → (in_logical_range (pos day +ℤ offset) ≡ true)
      × (shifted ≡ datetime (pos_part (pos day +ℤ offset)) time)
unfolding temporal_shift
temporal_shift-datetime day time offset shifted h =
    elim (Bool-cases (in_logical_range (pos day +ℤ offset))) [
      | inl inside ↦ (inside, ok-injective (sym h ∙ rw inside))
      | inr out ↦ ground (arith, out)
    ]

-- Recovery is the exact inverse of the shift: whatever `temporal_shift` returned for a value of the
-- calendar, `temporal_recover` with the same offset gives that value back, its time of day and its
-- class included.
pub temporal_recover-temporal_shift :
    (value : Value) (offset : ℤ) (shifted : Value)
    → IsCalendarValue value
    → temporal_shift value offset ≡ ok shifted
    → temporal_recover shifted offset ≡ ok value
unfolding temporal_recover temporal_shift
temporal_recover-temporal_shift null offset shifted c h = cc
temporal_recover-temporal_shift (date day) offset shifted c h =
    let moved = temporal_shift-date day offset shifted h in
    rw (moved.1, shift_back day offset moved.0, c)
temporal_recover-temporal_shift (datetime day time) offset shifted c h =
    let moved = temporal_shift-datetime day time offset shifted h in
    rw (moved.1, shift_back day offset moved.0, c)
temporal_recover-temporal_shift (boolean b) offset shifted c h = cc
temporal_recover-temporal_shift (integer b) offset shifted c h = cc
temporal_recover-temporal_shift (text b) offset shifted c h = cc
temporal_recover-temporal_shift (bytes b) offset shifted c h = cc
temporal_recover-temporal_shift (bytearray b) offset shifted c h = cc
temporal_recover-temporal_shift other offset shifted c h = cc

-- A shift moves the ordinal by the offset.
pub temporal_ordinal-temporal_shift :
    (value shifted : Value) (offset o s : ℤ)
    → temporal_shift value offset ≡ ok shifted
    → temporal_ordinal value ≡ ok o
    → temporal_ordinal shifted ≡ ok s
    → s ≡ o +ℤ offset
unfolding temporal_ordinal
temporal_ordinal-temporal_shift (date day) shifted offset o s h ho hs =
    let moved = temporal_shift-date day offset shifted h in
    let ordinal : pos (pos_part (pos day +ℤ offset)) ≡ s = ok-injective (sym (rw moved.1) ∙ hs) in
    sym ordinal ∙ pos_pos_part (pos day +ℤ offset) moved.0 ∙ ap (λ i. i +ℤ offset) (ok-injective ho)
temporal_ordinal-temporal_shift (datetime day time) shifted offset o s h ho hs =
    let moved = temporal_shift-datetime day time offset shifted h in
    let ordinal : pos (pos_part (pos day +ℤ offset)) ≡ s = ok-injective (sym (rw moved.1) ∙ hs) in
    sym ordinal ∙ pos_pos_part (pos day +ℤ offset) moved.0 ∙ ap (λ i. i +ℤ offset) (ok-injective ho)
temporal_ordinal-temporal_shift null shifted offset o s h ho hs = cc
temporal_ordinal-temporal_shift (boolean b) shifted offset o s h ho hs = cc
temporal_ordinal-temporal_shift (integer b) shifted offset o s h ho hs = cc
temporal_ordinal-temporal_shift (text b) shifted offset o s h ho hs = cc
temporal_ordinal-temporal_shift (bytes b) shifted offset o s h ho hs = cc
temporal_ordinal-temporal_shift (bytearray b) shifted offset o s h ho hs = cc
temporal_ordinal-temporal_shift other shifted offset o s h ho hs = cc

both_moved : (a b offset : ℤ) → (a +ℤ offset) -ℤ (b +ℤ offset) ≡ a -ℤ b
unfolding ◌+ℤ◌ ◌-ℤ◌
both_moved a b offset = ground arith

-- The intervals of a domain survive: two values shifted by the same offset stay as many calendar
-- days apart as they were.
pub temporal_shift-interval :
    (a b a2 b2 : Value) (offset o1 o2 s1 s2 : ℤ)
    → temporal_shift a offset ≡ ok a2
    → temporal_shift b offset ≡ ok b2
    → temporal_ordinal a ≡ ok o1
    → temporal_ordinal b ≡ ok o2
    → temporal_ordinal a2 ≡ ok s1
    → temporal_ordinal b2 ≡ ok s2
    → s1 -ℤ s2 ≡ o1 -ℤ o2
temporal_shift-interval a b a2 b2 offset o1 o2 s1 s2 ha hb h1 h2 h3 h4 =
    let e1 = temporal_ordinal-temporal_shift a a2 offset o1 s1 ha h1 h3 in
    let e2 = temporal_ordinal-temporal_shift b b2 offset o2 s2 hb h2 h4 in
    rw (e1, e2) (both_moved o1 o2 offset)

-- `temporal_feasible_interval` is exact: for observed extrema in order, an offset is in the
-- interval exactly when it moves every ordinal between the extrema to one that has a calendar date.
pub temporal_feasible_interval_iff :
    (low high lower upper offset : ℤ)
    → temporal_feasible_interval low high ≡ ok (lower, upper)
    → ((lower ≤ℤ offset) × (offset ≤ℤ upper))
      ↔ ((o : ℤ) → low ≤ℤ o → o ≤ℤ high → in_logical_range (o +ℤ offset) ≡ true)
unfolding temporal_feasible_interval
temporal_feasible_interval_iff low high lower upper offset h = elim (Bool-cases (ltb_ℤ high low)) [
  | inl crossed ↦ ground (arith, crossed)
  | inr ordered ↦
      let ends : (logical_min_ordinal -ℤ low, logical_max_ordinal -ℤ high) ≡ (lower, upper) =
        ok-injective (sym (rw ordered) ∙ h) in
      let p1 = -ℤ_parts logical_min_ordinal low in
      let p2 = -ℤ_parts logical_max_ordinal high in
      let e1 = parts_of_eq (logical_min_ordinal -ℤ low) lower (ap (λ p. p.0) ends) in
      let e2 = parts_of_eq (logical_max_ordinal -ℤ high) upper (ap (λ p. p.1) ends) in
      (
        λ inside o above below.
            let moved = +ℤ_parts o offset in
            within→in_logical_range (o +ℤ offset) (omega arith) (omega arith),
        λ every.
            let first =
              in_logical_range→within (low +ℤ offset)
                (every low (omega arith) (ltb_ℤ→le high low ordered)) in
            let last =
              in_logical_range→within (high +ℤ offset)
                (every high (ltb_ℤ→le high low ordered) (omega arith)) in
            let m1 = +ℤ_parts low offset in
            let m2 = +ℤ_parts high offset in (omega arith, omega arith),
      )
]
