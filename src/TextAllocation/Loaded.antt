-- ===== src/TextAllocation/Loaded.antt =====
-- vault/text_allocation.py: the persisted rows that a finalization accepted.
use dbf_anonymizer.Prelude.{
  ℕ, ◌≤◌, ◌≡◌, refl, ◌∙◌, inl, inr, true, false, not, not-false, ◌||◌, Bool-cases, if-elim, arith,
  Option, none, some, List, [], ◌∷◌, map, ◌==◌, ==_iff, ltb, length, All, ℤ, Text, text_eq,
  text_eq→eq, text_eq_refl,
}
use dbf_anonymizer.Errors.{Result, ok, err, >>-eq-ok, raise_if, raise_if-eq-ok}
use dbf_anonymizer.Text.{Codec, is_safe_token, max_encoded_byte_length}
use dbf_anonymizer.TextAllocation.{GlobalTextDomainMapping, has_text, add_text}
use dbf_anonymizer.TextAllocation.Slots.{IsConsistent, occupied}
use dbf_anonymizer.TextAllocation.Lifecycle.{
  Origin, persisted, entry_of, set_entry, fits, measured, validate_pseudonym, occupy, continued,
  load_loop,
}

-- What a validation that returned checked.
abbrev pub IsValid : GlobalTextDomainMapping → Text → Text → Option ℕ → Type 0
IsValid m original pseudonym width =
    (is_safe_token pseudonym m.alphabet ≡ true)
    × (text_eq pseudonym original ≡ false)
    × ((w : ℕ) → width ≡ some w → length pseudonym ≤ w)

fits-ok :
    (origin : Origin) (n : ℕ) (width : Option ℕ)
    → fits origin n width ≡ ok tt
    → (w : ℕ) → width ≡ some w
    → n ≤ w
fits-ok origin n none h w same = cc
fits-ok origin n (some width) h w same =
    let small : ltb width n ≡ false = raise_if-eq-ok (ltb width n) _ h in
    let e : width ≡ w = cc in ground (arith, small)

measured-ok :
    (origin : Origin) (pseudonym : Text) (width n : Option ℕ)
    → measured origin pseudonym width n ≡ ok tt
    → (w : ℕ) → width ≡ some w
    → length pseudonym ≤ w
measured-ok origin pseudonym width none h w same = cc
measured-ok origin pseudonym width (some n) h w same =
    let s = >>-eq-ok (raise_if (not (n == length pseudonym)) _) _ h in
    let long : n ≡ length pseudonym =
      (==_iff n (length pseudonym)).0
        (not-false (n == length pseudonym) (raise_if-eq-ok (not (n == length pseudonym)) _ s.0)) in
    omega (arith, fits-ok origin n width s.1 w same)

pub validate_pseudonym-IsValid :
    (codec : Codec) (m : GlobalTextDomainMapping) (original pseudonym : Text) (width : Option ℕ)
    (origin : Origin)
    → validate_pseudonym codec m original pseudonym width origin ≡ ok tt
    → IsValid m original pseudonym width
unfolding validate_pseudonym
validate_pseudonym-IsValid codec m original pseudonym width origin h =
    let s = >>-eq-ok (raise_if (not (is_safe_token pseudonym m.alphabet)) _) _ h in
    let t = >>-eq-ok (raise_if (text_eq pseudonym original) _) _ s.1 in
    (
      not-false (is_safe_token pseudonym m.alphabet) (raise_if-eq-ok _ _ s.0),
      raise_if-eq-ok (text_eq pseudonym original) _ t.0,
      measured-ok origin pseudonym width (max_encoded_byte_length codec pseudonym m.encodings) t.1,
    )

-- The entries of a dictionary, and the members of a set, after one more.
keys : List (Text × ℕ) → List Text
keys entries = map (λ entry. entry.0) entries

set_entry-All :
    (P : Text × ℕ → Type 0) (key : Text) (value : ℕ) (entries : List (Text × ℕ))
    → P (key, value)
    → All P entries
    → All P (set_entry key value entries)
set_entry-All P key value [] h hs = (h, tt)
set_entry-All P key value (entry ∷ entries) h hs =
    if-elim (All P) (text_eq entry.0 key) (h, hs.1) (hs.0, set_entry-All P key value entries h hs.1)

has_text-set_entry :
    (t key : Text) (value : ℕ) (entries : List (Text × ℕ))
    → has_text t (map (λ entry. entry.0) (set_entry key value entries))
      ≡ (text_eq key t || has_text t (map (λ entry. entry.0) entries))
has_text-set_entry t key value [] = refl
has_text-set_entry t key value (entry ∷ entries) = elim (Bool-cases (text_eq entry.0 key)) [
  | inl same ↦ let e : entry.0 ≡ key = text_eq→eq entry.0 key same in rw same (rw e (ground arith))
  | inr other ↦ rw other (ground (arith, has_text-set_entry t key value entries))
]

has_text-kept :
    (t s : Text) (texts : List Text)
    → has_text t texts ≡ true
    → has_text t (add_text s texts) ≡ true
has_text-kept t s texts h =
    if-elim (λ xs. has_text t xs ≡ true) (has_text s texts) h (ground (arith, h))

has_text-added : (s : Text) (texts : List Text) → has_text s (add_text s texts) ≡ true
has_text-added s texts = elim (Bool-cases (has_text s texts)) [
  | inl there ↦ rw there there
  | inr new ↦ rw new (ground (arith, text_eq_refl s))
]

-- How the instance grows while rows are loaded.
pub record Extends (m later : GlobalTextDomainMapping) : Type 0 where
  pub same_widths : later.strictest ≡ m.strictest
  pub same_alphabet : later.alphabet ≡ m.alphabet
  pub used_kept : (t : Text) → has_text t (occupied m) ≡ true → has_text t (occupied later) ≡ true
  pub originals_kept :
      (t : Text)
      → has_text t m.persisted_originals ≡ true
      → has_text t later.persisted_originals ≡ true
  pub consistent : IsConsistent m → IsConsistent later

Extends-refl : (m : GlobalTextDomainMapping) → Extends m m
Extends-refl m = record {
  same_widths = refl;
  same_alphabet = refl;
  used_kept = λ t h. h;
  originals_kept = λ t h. h;
  consistent = λ h. h;
}

Extends-trans : (a b c : GlobalTextDomainMapping) → Extends a b → Extends b c → Extends a c
Extends-trans a b c f g = record {
  same_widths = g.same_widths ∙ f.same_widths;
  same_alphabet = g.same_alphabet ∙ f.same_alphabet;
  used_kept = λ t h. g.used_kept t (f.used_kept t h);
  originals_kept = λ t h. g.originals_kept t (f.originals_kept t h);
  consistent = λ h. g.consistent (f.consistent h);
}

occupy-Extends :
    (m : GlobalTextDomainMapping) (original pseudonym : Text)
    → is_safe_token pseudonym m.alphabet ≡ true
    → Extends m (occupy original pseudonym m)
occupy-Extends m original pseudonym safe = record {
  same_widths = refl;
  same_alphabet = refl;
  used_kept = λ t h. has_text-set_entry t pseudonym (length pseudonym) m.used ∙ ground (arith, h);
  originals_kept = λ t h. has_text-kept t original m.persisted_originals h;
  consistent = λ valid. record {
    distinct = valid.distinct;
    nonempty = valid.nonempty;
    based = valid.based;
    used_safe = set_entry-All _ pseudonym (length pseudonym) m.used (safe, refl) valid.used_safe;
    reserved_safe = valid.reserved_safe;
    promised_safe = valid.promised_safe;
  };
}

-- A row that the instance accepted.
pub record Accepted (m : GlobalTextDomainMapping) (row : Text × Text × ℤ) : Type 0 where
  pub valid : IsValid m row.0 row.1 (entry_of row.0 m.strictest)
  pub is_occupied : has_text row.1 (occupied m) ≡ true
  pub is_persisted : has_text row.0 m.persisted_originals ≡ true

-- the first row, and the rows after it
accept-Accepted :
    (m later : GlobalTextDomainMapping) (original pseudonym : Text) (stored : ℤ)
    → IsValid m original pseudonym (entry_of original m.strictest)
    → Extends (occupy original pseudonym m) later
    → Extends m later × Accepted later (original, pseudonym, stored)
accept-Accepted m later original pseudonym stored valid extends =
    let entered =
      Extends-trans m (occupy original pseudonym m) later
        (occupy-Extends m original pseudonym valid.0) extends in
    (
      entered,
      record {
        valid = rw (entered.same_alphabet, entered.same_widths) valid;
        is_occupied = extends.used_kept pseudonym (
            has_text-set_entry pseudonym pseudonym (length pseudonym) m.used
            ∙ ground (arith, text_eq_refl pseudonym));
        is_persisted =
            extends.originals_kept original (has_text-added original m.persisted_originals);
      },
    )

-- What a loop that returned did with its rows.
abbrev pub AllAccepted :
    GlobalTextDomainMapping
    → List (Text × Text × ℤ)
    → Result (Unit {0}) × GlobalTextDomainMapping
    → Type 0
AllAccepted m rows r = r.0 ≡ ok tt → Extends m r.1 × All (Accepted r.1) rows

continued-Accepted :
    (codec : Codec) (rows : List (Text × Text × ℤ)) (m : GlobalTextDomainMapping)
    (later : Result (Unit {0}) × GlobalTextDomainMapping) (original pseudonym : Text) (stored : ℤ)
    (r : Result (Unit {0}))
    → validate_pseudonym codec m original pseudonym (entry_of original m.strictest) persisted ≡ r
    → AllAccepted (occupy original pseudonym m) rows later
    → AllAccepted m ((original, pseudonym, stored) ∷ rows) (continued m later r)
continued-Accepted codec rows m later original pseudonym stored (err failure) checked rest h = cc
continued-Accepted codec rows m later original pseudonym stored (ok _) checked rest h =
    let (extends, all) = rest h in
    let valid =
      validate_pseudonym-IsValid codec m original pseudonym (entry_of original m.strictest)
        persisted checked in
    let (entered, first) = accept-Accepted m later.1 original pseudonym stored valid extends in
    (entered, (first, all))

pub load_loop-Accepted :
    (codec : Codec) (rows : List (Text × Text × ℤ)) (m : GlobalTextDomainMapping)
    → AllAccepted m rows (load_loop codec rows m)
unfolding load_loop
load_loop-Accepted codec [] m h = (Extends-refl m, tt)
load_loop-Accepted codec ((original, pseudonym, stored) ∷ rows) m h =
    continued-Accepted codec rows m (load_loop codec rows (occupy original pseudonym m)) original
      pseudonym stored
      (validate_pseudonym codec m original pseudonym (entry_of original m.strictest) persisted) refl
      (load_loop-Accepted codec rows (occupy original pseudonym m)) h
