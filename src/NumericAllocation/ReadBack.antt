-- ===== src/NumericAllocation/ReadBack.antt =====
-- vault/numeric_allocation.py: what the texts of the persisted rows read back to.
use dbf_anonymizer.Prelude.{
  ◌≡◌, ◌≢◌, Bool, refl, sym, ◌∙◌, ap, inl, inr, true, false, Bool-cases, List, [], ◌∷◌, ℤ, eqb_ℤ,
  Text,
}
use dbf_anonymizer.Errors.{◌>>=◌, Failure, Result, ok, err, ok-injective}
use dbf_anonymizer.Values.{text}
use dbf_anonymizer.CanonicalText.{int_text, canonical_integer_text, parse_canonical_integer_text}
use dbf_anonymizer.CanonicalText.RoundTrip.{
  parse_canonical_integer_text-canonical_integer_text,
  canonical_integer_text-parse_canonical_integer_text,
}
use dbf_anonymizer.NumericKeys.{NumericKeyDomain, contains_pseudonym}
use dbf_anonymizer.Vault.{VaultDatabase}
use dbf_anonymizer.Vault.NumericMappings.{numeric_mapping_rows}
use dbf_anonymizer.NumericAllocation.{NumericKeyDomainMapping, mapping_corrupt}
use dbf_anonymizer.NumericAllocation.Rows.{
  reused_self_mapping, sync_loop, sync_rows, sync_used, parse_row, not_self_mapped, continued,
  noted, fits_a_member, parsed, parse_original, parse_pseudonym,
}
use dbf_anonymizer.NumericAllocation.Persisted.{reusable}

pub refused_value : {failure : Failure} {v : ℤ} → err failure ≢ ok v
refused_value h = cc

pub int_text-parse :
    (t : Text) (value : ℤ) → parse_canonical_integer_text (text t) ≡ ok value → int_text value ≡ t
unfolding canonical_integer_text
int_text-parse t value h =
    ok-injective (canonical_integer_text-parse_canonical_integer_text t value h)

pub parse-int_text : (value : ℤ) → parse_canonical_integer_text (text (int_text value)) ≡ ok value
unfolding canonical_integer_text
parse-int_text value =
    parse_canonical_integer_text-canonical_integer_text value (int_text value) refl

pub parse_original-int_text :
    (d : NumericKeyDomain) (value : ℤ)
    → fits_a_member d value ≡ true
    → parse_original d (int_text value) ≡ ok value
unfolding parse_original
parse_original-int_text d value fits =
    ap (parsed (fits_a_member d)) (parse-int_text value) ∙ rw fits

pub parsed-ok :
    (inside : ℤ → Bool) (r : Result ℤ) (value : ℤ)
    → parsed inside r ≡ ok value
    → (r ≡ ok value) × (inside value ≡ true)
parsed-ok inside (err failure) value h = cc
parsed-ok inside (ok v) value h = elim (Bool-cases (inside v)) [
  | inl good ↦
      let same : v ≡ value = ok-injective (sym (rw good) ∙ h) in
      (ap ok same, ap inside (sym same) ∙ good)
  | inr bad ↦ absurd (refused_value {failure = mapping_corrupt} {v = value} (sym (rw bad) ∙ h))
]

pub parse_pseudonym-int_text :
    (d : NumericKeyDomain) (t : Text) (value : ℤ)
    → parse_pseudonym d t ≡ ok value
    → int_text value ≡ t
unfolding parse_pseudonym
parse_pseudonym-int_text d t value h =
    int_text-parse t value (parsed-ok (contains_pseudonym d) _ value h).0

pub reusable-ok :
    (original : ℤ) (r : Result ℤ) (value : ℤ)
    → reusable original r ≡ ok value
    → (r ≡ ok value) × (eqb_ℤ value original ≡ false)
reusable-ok original (err failure) value h = cc
reusable-ok original (ok v) value h = elim (Bool-cases (eqb_ℤ v original)) [
  | inl self ↦
      absurd (refused_value {failure = reused_self_mapping} {v = value} (sym (rw self) ∙ h))
  | inr apart ↦
      let same : v ≡ value = ok-injective (sym (rw apart) ∙ h) in
      (ap ok same, ap (λ x. eqb_ℤ x original) (sym same) ∙ apart)
]

-- reading the rows leaves the domain alone
abbrev pub SameDomain : NumericKeyDomainMapping → NumericKeyDomainMapping → Type 0
SameDomain m n = (n.domain_id ≡ m.domain_id) × (n.domain ≡ m.domain)

continued-SameDomain :
    (m : NumericKeyDomainMapping)
    (later : NumericKeyDomainMapping → Result (Unit {0}) × NumericKeyDomainMapping)
    (r : Result (ℤ × ℤ))
    → ((n : NumericKeyDomainMapping) → SameDomain n (later n).1)
    → SameDomain m (continued m later r).1
continued-SameDomain m later (err failure) same = (refl, refl)
continued-SameDomain m later (ok pair) same = same (noted m pair)

pub sync_loop-SameDomain :
    (m : NumericKeyDomainMapping) (rows : List (Text × Text)) → SameDomain m (sync_loop m rows).1
unfolding sync_loop
sync_loop-SameDomain m [] = (refl, refl)
sync_loop-SameDomain m (row ∷ rows) =
    continued-SameDomain m (λ seen. sync_loop seen rows)
      (parse_row m.domain row >>= not_self_mapped) (λ seen. sync_loop-SameDomain seen rows)

pub sync_used-SameDomain :
    (m : NumericKeyDomainMapping) (db : VaultDatabase) → SameDomain m (sync_used m db).1
unfolding sync_used
sync_used-SameDomain m db =
    elim (numeric_mapping_rows db m.domain_id) as (λ r. SameDomain m (sync_rows m r).1) [
      | err failure ↦ (refl, refl)
      | ok rows ↦ sync_loop-SameDomain m rows
    ]
