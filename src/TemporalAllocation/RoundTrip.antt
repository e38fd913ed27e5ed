-- ===== src/TemporalAllocation/RoundTrip.antt =====
-- vault/temporal_allocation.py: observed values are shifted and recovered.
use mathlib.Core.Path.{subst}
use dbf_anonymizer.Prelude.{
  false-true, ◌≡◌, ◌≢◌, refl, sym, ◌∙◌, ap, ◌+◌, All-map, true, false, some, List, ℤ, pos, pos_part,
  neg_part, eqb_ℤ, ◌+ℤ◌, +ℤ_parts, parts_of_eq, eq_of_parts, eqb_ℤ_iff, All, Text, arith,
}
use dbf_anonymizer.Errors.{ok, ok-injective}
use dbf_anonymizer.Values.{
  Value, null, boolean, integer, text, bytes, bytearray, date, datetime, other, is_null,
}
use dbf_anonymizer.Temporal.{temporal_ordinal, temporal_shift, temporal_recover, in_logical_range}
use dbf_anonymizer.Temporal.Shift.{
  IsCalendarValue, temporal_recover-temporal_shift, temporal_ordinal-temporal_shift,
}
use dbf_anonymizer.Vault.{VaultDatabase, Faults}
use dbf_anonymizer.TemporalAllocation.{
  TemporalShiftDomain, fresh_domain, persisted_temporal_state, finalize, shifted, recover,
}
use dbf_anonymizer.TemporalAllocation.Observed.{observe_all, observe_all-IsCovered}
use dbf_anonymizer.TemporalAllocation.Finalized.{finalize-eq-some, finalize-fits}
use dbf_anonymizer.TemporalAllocation.Reused.{Committed-persisted}

-- an ordinal in range is shifted to a value of the same class
temporal_shift_fits :
    (value : Value) (offset ordinal : ℤ)
    → temporal_ordinal value ≡ ok ordinal
    → in_logical_range (ordinal +ℤ offset) ≡ true
    → (w : Value) × (s : ℤ) × (temporal_shift value offset ≡ ok w) × (temporal_ordinal w ≡ ok s)
unfolding temporal_shift temporal_ordinal
temporal_shift_fits (date day) offset ordinal h fits =
    let here : in_logical_range (pos day +ℤ offset) ≡ true =
      ap (λ x. in_logical_range (x +ℤ offset)) (ok-injective h) ∙ fits in
    (date (pos_part (pos day +ℤ offset)), _, rw here, refl)
temporal_shift_fits (datetime day time) offset ordinal h fits =
    let here : in_logical_range (pos day +ℤ offset) ≡ true =
      ap (λ x. in_logical_range (x +ℤ offset)) (ok-injective h) ∙ fits in
    (datetime (pos_part (pos day +ℤ offset)) time, _, rw here, refl)
temporal_shift_fits null offset ordinal h fits = cc
temporal_shift_fits (boolean b) offset ordinal h fits = cc
temporal_shift_fits (integer b) offset ordinal h fits = cc
temporal_shift_fits (text b) offset ordinal h fits = cc
temporal_shift_fits (bytes b) offset ordinal h fits = cc
temporal_shift_fits (bytearray b) offset ordinal h fits = cc
temporal_shift_fits other offset ordinal h fits = cc

-- a shift by an offset that is not 0 moves the value
moved : (ordinal offset : ℤ) → eqb_ℤ offset (pos 0) ≡ false → ordinal +ℤ offset ≢ ordinal
moved ordinal offset h same =
    let p = +ℤ_parts ordinal offset in
    let q = parts_of_eq (ordinal +ℤ offset) ordinal same in
    let r : pos_part offset + neg_part (pos 0) ≡ pos_part (pos 0) + neg_part offset = omega arith in
    false-true (sym h ∙ (eqb_ℤ_iff offset (pos 0)).1 (eq_of_parts offset (pos 0) r))

not_null :
    (value : Value) (ordinal : ℤ) → temporal_ordinal value ≡ ok ordinal → is_null value ≡ false
unfolding temporal_ordinal
not_null null ordinal h = cc
not_null (boolean b) ordinal h = refl
not_null (integer b) ordinal h = refl
not_null (text b) ordinal h = refl
not_null (bytes b) ordinal h = refl
not_null (bytearray b) ordinal h = refl
not_null (date b) ordinal h = refl
not_null (datetime b t) ordinal h = refl
not_null other ordinal h = refl

abbrev with_offset : TemporalShiftDomain → ℤ → TemporalShiftDomain
with_offset d o = record d { offset = some o; finalized = true }

shifted-finalized :
    (d : TemporalShiftDomain) (o : ℤ) (value : Value)
    → d.empty ≡ false
    → shifted (with_offset d o) value ≡ temporal_shift value o
unfolding shifted
shifted-finalized d o value h = rw h

recover-finalized :
    (d : TemporalShiftDomain) (o : ℤ) (db : VaultDatabase) (value : Value)
    → is_null value ≡ false
    → (recover (with_offset d o) db value).0 ≡ temporal_recover value o
unfolding recover
recover-finalized d o db value h = rw h

recover-reopened :
    (id : Text) (o : ℤ) (db : VaultDatabase) (value : Value)
    → is_null value ≡ false
    → persisted_temporal_state db id ≡ ok (some o)
    → (recover (fresh_domain id) db value).0 ≡ temporal_recover value o
unfolding recover
recover-reopened id o db value h persisted = rw (h, persisted)

-- What becomes of an observed temporal value: it is shifted to another one, from which the finalized
-- domain recovers it, and so does a domain of the same identity that was opened anew.
abbrev pub IsRecoverable : TemporalShiftDomain → VaultDatabase → Value → Type 0
IsRecoverable e after value =
    (w : Value) × (shifted e value ≡ ok w)
    × (w ≢ value)
    × ((recover e after w).0 ≡ ok value)
    × ((recover (fresh_domain e.domain_id) after w).0 ≡ ok value)

value-IsRecoverable :
    (d : TemporalShiftDomain) (o : ℤ) (after : VaultDatabase) (value : Value) (ordinal : ℤ)
    → d.empty ≡ false
    → eqb_ℤ o (pos 0) ≡ false
    → persisted_temporal_state after d.domain_id ≡ ok (some o)
    → temporal_ordinal value ≡ ok ordinal
    → in_logical_range (ordinal +ℤ o) ≡ true
    → IsCalendarValue value
    → IsRecoverable (with_offset d o) after value
value-IsRecoverable d o after value ordinal full not_zero persisted is_ordinal fits calendar =
    let f = temporal_shift_fits value o ordinal is_ordinal fits in
    let back = temporal_recover-temporal_shift value o f.0 calendar f.2 in
    let some_value = not_null f.0 f.1 f.3 in
    let shifted_ordinal =
      temporal_ordinal-temporal_shift value f.0 o ordinal f.1 f.2 is_ordinal f.3 in
    (
      f.0,
      shifted-finalized d o value full ∙ f.2,
      λ same.
          moved ordinal o not_zero
            (sym shifted_ordinal ∙ ok-injective (sym f.3 ∙ ap temporal_ordinal same ∙ is_ordinal)),
      recover-finalized d o after f.0 some_value ∙ back,
      recover-reopened d.domain_id o after f.0 some_value persisted ∙ back,
    )

-- `finalize` serves the whole collection: for a new domain that observed some values and whose
-- `finalize` returned an offset, each of the values that is a date of the calendar is shifted, to a
-- different value, and both the finalized domain and a new one over the committed vault recover it
-- exactly.
pub finalize-IsRecoverable :
    (id : Text) (values : List Value) (d e : TemporalShiftDomain) (faults : Faults)
    (random_below : ℤ → ℤ) (db after : VaultDatabase) (o : ℤ)
    → observe_all values (fresh_domain id) ≡ ok d
    → finalize faults random_below d db ≡ (ok (some o), e, after)
    → All
        (λ value.
          (ordinal : ℤ)
          → temporal_ordinal value ≡ ok ordinal
          → IsCalendarValue value
          → IsRecoverable e after value)
        values
finalize-IsRecoverable id values d e faults random_below db after o seen done =
    let collected = observe_all-IsCovered values (fresh_domain id) d seen in
    let f = finalize-eq-some faults random_below d e db after o done in
    let persisted = Committed-persisted random_below d.domain_id f.1 db after o f.3.3 in
    All-map
      (λ value covered ordinal is_ordinal calendar.
        subst (λ x. IsRecoverable x after value) (sym f.3.4)
          (value-IsRecoverable d o after value ordinal collected.2.3 f.3.2 persisted is_ordinal
            (finalize-fits faults random_below d e db after o done ordinal
              (covered ordinal is_ordinal))
            calendar))
      values collected.0
