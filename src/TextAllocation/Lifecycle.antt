-- ===== src/TextAllocation/Lifecycle.antt =====
-- vault/text_allocation.py: observation and finalization of the global text domain. The codec
-- registry is a parameter; an operation that touches the vault takes it and returns it.
use dbf_anonymizer.Prelude.{
  ℕ, String, Bool, true, false, not, Option, none, some, List, [], ◌∷◌, if◌then◌else◌, ◌==◌, ltb,
  length, any, ℤ, Text, codes, text_eq,
}
use dbf_anonymizer.Errors.{
  Failure, mapping_constraint_infeasible, mapping_conflict, value_error, type_error, Result, ok,
  err, ◌>>=◌, ◌>>◌, raise_if,
}
use dbf_anonymizer.Values.{Value, text, integer}
use dbf_anonymizer.Text.{
  Codec, candidate_alphabet, is_safe_token, max_encoded_byte_length, reduced_strictest,
}
use dbf_anonymizer.Vault.{MappingDomain, VaultDatabase, Faults, in_transaction}
use dbf_anonymizer.Vault.Mappings.{
  create_domain, mapping_domains, kind_text, has_domain, text_mapping_rows,
}
use dbf_anonymizer.TextAllocation.{GlobalTextDomainMapping, add_text, mapping_failure}

-- `__init__`
abbrev pub new_mapping : Text → GlobalTextDomainMapping
new_mapping domain_id = record {
  domain_id = domain_id;
  strictest = [];
  encodings = [];
  finalized = false;
  alphabet = [];
  base = 0;
  used = [];
  persisted_originals = [];
  plan = none;
  plan_reserved = [];
  plan_promised = [];
  plan_signature = none;
  own_persisted = [];
}

-- `entries.get(key)` and `entries[key] = value`
abbrev pub entry_of : Text → List (Text × ℕ) → Option ℕ
entry_of key [] = none
entry_of key (entry ∷ entries) = if text_eq entry.0 key then some entry.1 else entry_of key entries

abbrev pub set_entry : Text → ℕ → List (Text × ℕ) → List (Text × ℕ)
set_entry key value [] = (key, value) ∷ []
set_entry key value (entry ∷ entries) =
    if text_eq entry.0 key then (key, value) ∷ entries else entry ∷ set_entry key value entries

abbrev pub add_encoding : String → List String → List String
add_encoding encoding encodings =
    if any (λ e. text_eq (codes e) (codes encoding)) encodings
    then encodings
    else encoding ∷ encodings

abbrev pub observed_width : Value → Result ℤ
observed_width (integer width) = ok width
observed_width _ = err type_error

abbrev pub observed_text : Value → Result Text
observed_text (text original) = ok original
observed_text _ = err type_error

-- `observe`; an encoding is a `str` here
unfoldable pub observe :
    Value → String → Value → GlobalTextDomainMapping → Result GlobalTextDomainMapping
unfolding reduced_strictest
observe original encoding byte_width m = do
  raise_if m.finalized value_error
  value ← observed_text original
  raise_if (text_eq value []) value_error
  raise_if (text_eq (codes encoding) []) value_error
  width ← observed_width byte_width
  strictest ← reduced_strictest (entry_of value m.strictest) width
  ok (record m {
    strictest = set_entry value strictest m.strictest;
    encodings = add_encoding encoding m.encodings;
  })

-- the two families of detail codes
pub data Origin : Type 0 where
  persisted reused : Origin

abbrev pub unsafe_code : Origin → String
unsafe_code persisted = "GLOBAL_TEXT_PERSISTED_UNSAFE"
unsafe_code reused = "GLOBAL_TEXT_REUSED_UNSAFE"

abbrev pub self_mapping_code : Origin → String
self_mapping_code persisted = "GLOBAL_TEXT_PERSISTED_SELF_MAPPING"
self_mapping_code reused = "GLOBAL_TEXT_REUSED_SELF_MAPPING"

abbrev pub incompatible_code : Origin → String
incompatible_code persisted = "GLOBAL_TEXT_PERSISTED_INCOMPATIBLE"
incompatible_code reused = "GLOBAL_TEXT_REUSED_INCOMPATIBLE"

abbrev pub fits : Origin → ℕ → Option ℕ → Result (Unit {0})
fits origin n none = ok tt
fits origin n (some width) =
    raise_if (ltb width n) (mapping_failure mapping_conflict (incompatible_code origin))

abbrev pub measured : Origin → Text → Option ℕ → Option ℕ → Result (Unit {0})
measured origin pseudonym width none = err (mapping_failure mapping_conflict (unsafe_code origin))
measured origin pseudonym width (some n) = do
  raise_if (not (n == length pseudonym)) (mapping_failure mapping_conflict (unsafe_code origin))
  fits origin n width

-- `_validate_pseudonym`
unfoldable pub validate_pseudonym :
    Codec → GlobalTextDomainMapping → Text → Text → Option ℕ → Origin → Result (Unit {0})
unfolding is_safe_token max_encoded_byte_length
validate_pseudonym codec m original pseudonym width origin = do
  raise_if (not (is_safe_token pseudonym m.alphabet))
      (mapping_failure mapping_conflict (unsafe_code origin))
  raise_if (text_eq pseudonym original)
      (mapping_failure mapping_conflict (self_mapping_code origin))
  measured origin pseudonym width (max_encoded_byte_length codec pseudonym m.encodings)

abbrev pub occupy : Text → Text → GlobalTextDomainMapping → GlobalTextDomainMapping
occupy original pseudonym m = record m {
  used = set_entry pseudonym (length pseudonym) m.used;
  persisted_originals = add_text original m.persisted_originals;
}

-- a row that was refused stops the loop, with the rows before it entered
abbrev pub continued :
    GlobalTextDomainMapping
    → Result (Unit {0}) × GlobalTextDomainMapping
    → Result (Unit {0})
    → Result (Unit {0}) × GlobalTextDomainMapping
continued m later (err failure) = (err failure, m)
continued m later (ok _) = later

unfoldable pub load_loop :
    Codec
    → List (Text × Text × ℤ)
    → GlobalTextDomainMapping
    → Result (Unit {0}) × GlobalTextDomainMapping
unfolding validate_pseudonym
load_loop codec [] m = (ok tt, m)
load_loop codec ((original, pseudonym, _) ∷ rows) m =
    continued m (load_loop codec rows (occupy original pseudonym m))
      (validate_pseudonym codec m original pseudonym (entry_of original m.strictest) persisted)

abbrev pub load_rows :
    Codec
    → GlobalTextDomainMapping
    → Result (List (Text × Text × ℤ))
    → Result (Unit {0}) × GlobalTextDomainMapping
load_rows codec m (err failure) = (err failure, m)
load_rows codec m (ok rows) = load_loop codec rows m

-- `_load_and_validate_persisted`, and `_sync_used`, which is the same loop
unfoldable pub load_and_validate_persisted :
    Codec → GlobalTextDomainMapping → VaultDatabase → Result (Unit {0}) × GlobalTextDomainMapping
unfolding load_loop text_mapping_rows
load_and_validate_persisted codec m db = load_rows codec m (text_mapping_rows db m.domain_id)

-- INSERT of the row, unless it is there
abbrev pub ensured_row : Text → VaultDatabase → Bool → Result (Unit {0} × VaultDatabase)
ensured_row domain_id db true = ok (tt, db)
ensured_row domain_id db false = do
  created ← create_domain kind_text none none domain_id db
  ok (tt, created.1)

unfoldable pub ensure_row : Text → VaultDatabase → Result (Unit {0} × VaultDatabase)
unfolding mapping_domains create_domain
ensure_row domain_id db = do
  rows ← mapping_domains db
  ensured_row domain_id db (has_domain domain_id rows)

abbrev pub ensured_from :
    Faults → Text → VaultDatabase → Result (List MappingDomain) → Result (Unit {0}) × VaultDatabase
ensured_from faults domain_id db (err failure) = (err failure, db)
ensured_from faults domain_id db (ok rows) =
    if has_domain domain_id rows
    then (ok tt, db)
    else in_transaction faults (ensure_row domain_id) db

-- `_ensure_domain`
unfoldable pub ensure_domain : Faults → Text → VaultDatabase → Result (Unit {0}) × VaultDatabase
unfolding ensure_row in_transaction mapping_domains
ensure_domain faults domain_id db = ensured_from faults domain_id db (mapping_domains db)

abbrev pub Outcome : Type 0
Outcome = Result (Unit {0}) × GlobalTextDomainMapping × VaultDatabase

abbrev pub frozen : VaultDatabase → Result (Unit {0}) × GlobalTextDomainMapping → Outcome
frozen db (err failure, m) = (err failure, m, db)
frozen db (ok _, m) = (ok tt, record m { finalized = true }, db)

abbrev pub ensured : Codec → GlobalTextDomainMapping → Result (Unit {0}) × VaultDatabase → Outcome
ensured codec m (err failure, db) = (err failure, m, db)
ensured codec m (ok _, db) = frozen db (load_and_validate_persisted codec m db)

-- the checks between the alphabet and the vault
abbrev pub possible : GlobalTextDomainMapping → Result (Unit {0})
possible m =
    raise_if (any (λ entry. entry.1 == 0) m.strictest)
      (mapping_failure mapping_constraint_infeasible "GLOBAL_TEXT_WIDTH_INFEASIBLE")

abbrev pub prepared :
    Codec → Faults → GlobalTextDomainMapping → VaultDatabase → Result (Unit {0}) → Outcome
prepared codec faults m db (err failure) = (err failure, m, db)
prepared codec faults m db (ok _) = ensured codec m (ensure_domain faults m.domain_id db)

abbrev pub no_safe_alphabet : Failure
no_safe_alphabet = mapping_failure mapping_constraint_infeasible "GLOBAL_TEXT_NO_SAFE_ALPHABET"

abbrev pub with_alphabet : Codec → Faults → GlobalTextDomainMapping → VaultDatabase → Text → Outcome
with_alphabet codec faults m db [] = (err no_safe_alphabet, m, db)
with_alphabet codec faults m db (c ∷ alphabet) =
    let ready = record m { alphabet = c ∷ alphabet; base = length (c ∷ alphabet) } in
    prepared codec faults ready db (possible ready)

unfoldable pub finalize : Codec → Faults → GlobalTextDomainMapping → VaultDatabase → Outcome
unfolding ensure_domain load_and_validate_persisted candidate_alphabet
finalize codec faults m db =
    if m.finalized
    then (err value_error, m, db)
    else with_alphabet codec faults m db (candidate_alphabet codec m.encodings)
