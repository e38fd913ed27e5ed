-- ===== src/TemporalAllocation/Observed.antt =====
-- vault/temporal_allocation.py: the extrema that `observe` keeps cover every observed ordinal.
use mathlib.Core.Path.{subst}
use dbf_anonymizer.Prelude.{
  none-some, some-injective, ◌≡◌, ◌≢◌, refl, sym, ◌∙◌, Option, none, some, List, [], ◌∷◌, arith, ℤ,
  ◌≤ℤ◌, parts_of_eq, All,
}
use dbf_anonymizer.Errors.{
  value_error, Result, ok, ok-injective, ◌>>=◌, >>=-eq-ok, >>-eq-ok, raise_if,
}
use dbf_anonymizer.Values.{
  Value, null, boolean, integer, text, bytes, bytearray, date, datetime, other,
}
use dbf_anonymizer.Temporal.{temporal_ordinal}
use dbf_anonymizer.TemporalAllocation.{TemporalShiftDomain, widened, observe, observe_ordinal}

-- `for value in values: domain.observe(value)`
abbrev pub observe_all : List Value → TemporalShiftDomain → Result TemporalShiftDomain
observe_all [] d = ok d
observe_all (value ∷ values) d = do seen ← observe value d; observe_all values seen

abbrev pub IsBetween : TemporalShiftDomain → ℤ → Type 0
IsBetween d o = (low : ℤ) × (d.min_ordinal ≡ some low) × (low ≤ℤ o) × (o ≤ℤ d.max_ordinal)

-- the ordinal of a temporal value is between the extrema
abbrev pub IsCovered : TemporalShiftDomain → Value → Type 0
IsCovered d value = (o : ℤ) → temporal_ordinal value ≡ ok o → IsBetween d o

-- what the collection leaves alone
abbrev pub IsSameUnit : TemporalShiftDomain → TemporalShiftDomain → Type 0
IsSameUnit d e =
    (e.domain_id ≡ d.domain_id)
    × (e.offset ≡ d.offset)
    × (e.finalized ≡ d.finalized)
    × (e.empty ≡ d.empty)

widened-keeps :
    (d : TemporalShiftDomain) (low : Option ℤ) (ordinal o : ℤ)
    → d.min_ordinal ≡ low
    → IsBetween d o
    → IsBetween (widened d low ordinal) o
widened-keeps d none ordinal o e (m, is_m, above, below) = absurd (none-some (sym e ∙ is_m))
widened-keeps d (some low) ordinal o e (m, is_m, above, below) =
    let same : low ≡ m = some-injective (sym e ∙ is_m) in
    let parts = parts_of_eq low m same in (_, refl, ground arith, ground arith)

widened-covers :
    (d : TemporalShiftDomain) (low : Option ℤ) (ordinal : ℤ)
    → IsBetween (widened d low ordinal) ordinal
widened-covers d none ordinal = (ordinal, refl, omega arith, omega arith)
widened-covers d (some low) ordinal = (_, refl, ground arith, ground arith)

widened-IsSameUnit :
    (d : TemporalShiftDomain) (low : Option ℤ) (ordinal : ℤ) → IsSameUnit d (widened d low ordinal)
widened-IsSameUnit d none ordinal = (refl, refl, refl, refl)
widened-IsSameUnit d (some low) ordinal = (refl, refl, refl, refl)

no_ordinal : {o : ℤ} → temporal_ordinal null ≢ ok o
unfolding temporal_ordinal
no_ordinal h = cc

-- one observation: its value is covered, what was between the extrema still is
abbrev Step : Value → TemporalShiftDomain → TemporalShiftDomain → Type 0
Step value d e = IsCovered e value × ((o : ℤ) → IsBetween d o → IsBetween e o) × IsSameUnit d e

temporal-Step :
    (value : Value) (d e : TemporalShiftDomain)
    → (temporal_ordinal value >>= λ ordinal. ok (widened d d.min_ordinal ordinal)) ≡ ok e
    → Step value d e
temporal-Step value d e h =
    let s =
      >>=-eq-ok (temporal_ordinal value) (λ ordinal. ok (widened d d.min_ordinal ordinal)) h in
    let is_e : widened d d.min_ordinal s.0 ≡ e = ok-injective s.2 in
    subst (Step value d) is_e (
      λ o ho.
          subst (IsBetween (widened d d.min_ordinal s.0)) (ok-injective (sym s.1 ∙ ho))
            (widened-covers d d.min_ordinal s.0),
      λ o between. widened-keeps d d.min_ordinal s.0 o refl between,
      widened-IsSameUnit d d.min_ordinal s.0,
    )

observe_ordinal-Step :
    (value : Value) (d e : TemporalShiftDomain) → observe_ordinal value d ≡ ok e → Step value d e
observe_ordinal-Step null d e h =
    subst (Step null d) (ok-injective h)
      (λ o ho. absurd (no_ordinal ho), λ o between. between, (refl, refl, refl, refl))
observe_ordinal-Step (boolean b) d e h = temporal-Step (boolean b) d e h
observe_ordinal-Step (integer b) d e h = temporal-Step (integer b) d e h
observe_ordinal-Step (text b) d e h = temporal-Step (text b) d e h
observe_ordinal-Step (bytes b) d e h = temporal-Step (bytes b) d e h
observe_ordinal-Step (bytearray b) d e h = temporal-Step (bytearray b) d e h
observe_ordinal-Step (date b) d e h = temporal-Step (date b) d e h
observe_ordinal-Step (datetime b t) d e h = temporal-Step (datetime b t) d e h
observe_ordinal-Step other d e h = temporal-Step other d e h

observe-Step : (value : Value) (d e : TemporalShiftDomain) → observe value d ≡ ok e → Step value d e
unfolding observe
observe-Step value d e h =
    observe_ordinal-Step value d e
      (>>-eq-ok (raise_if d.finalized value_error) (observe_ordinal value d) h).1

-- After the collection every observed value is covered, and so is what was before.
pub observe_all-IsCovered :
    (values : List Value) (d e : TemporalShiftDomain)
    → observe_all values d ≡ ok e
    → All (IsCovered e) values × ((o : ℤ) → IsBetween d o → IsBetween e o) × IsSameUnit d e
observe_all-IsCovered [] d e h =
    subst (λ x. Unit × ((o : ℤ) → IsBetween d o → IsBetween x o) × IsSameUnit d x) (ok-injective h)
      (tt, λ o between. between, (refl, refl, refl, refl))
observe_all-IsCovered (value ∷ values) d e h =
    let s = >>=-eq-ok (observe value d) (observe_all values) h in
    let one = observe-Step value d s.0 s.1 in
    let later = observe_all-IsCovered values s.0 e s.2 in
    (
      (λ o ho. later.1 o (one.0 o ho), later.0),
      λ o between. later.1 o (one.1 o between),
      (later.2.0 ∙ one.2.0, later.2.1 ∙ one.2.1, later.2.2 ∙ one.2.2, later.2.3 ∙ one.2.3),
    )
