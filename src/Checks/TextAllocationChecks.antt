-- ===== src/Checks/TextAllocationChecks.antt =====
-- Runs of vault/text_allocation.py over two letters and on a small vault, and the theorems for them.
use dbf_anonymizer.Prelude.{
  ℕ, ◌≡◌, refl, false, true, none, some, [], ◌∷◌, ℤ, pos, ◌-ℤ◌, ◌+ℤ◌, set_of, Text, codes, text_eq,
  if◌then◌else◌, length, arith,
}
use dbf_anonymizer.Errors.{ok, err, ◌>>=◌}
use dbf_anonymizer.Values.{text, integer}
use dbf_anonymizer.Text.{Codec, is_safe_token}
use dbf_anonymizer.TextAllocation.{
  GlobalTextDomainMapping, generic, has_text, blocked_tokens, select_candidate,
}
use dbf_anonymizer.Vault.{VaultDatabase, no_faults, text_cell, integer_cell}
use dbf_anonymizer.Vault.Mappings.{domain_row, kind_text}
use dbf_anonymizer.TextAllocation.Lifecycle.{new_mapping, observe, finalize, no_safe_alphabet}
use dbf_anonymizer.TextAllocation.Finalized.{IsReady, finalize-IsReady, finalize_unproven}
use dbf_anonymizer.Checks.VaultChecks.{a_vault, some_tables}
use dbf_anonymizer.TextAllocation.Slots.{IsConsistent, occupied, select_candidate-IsFree}

-- of the four tokens of two letters, three are blocked
abbrev two_letters : GlobalTextDomainMapping
two_letters = record {
  domain_id = codes "dom-t";
  strictest = (codes "AB", 2) ∷ (codes "BA", 2) ∷ [];
  encodings = [];
  finalized = true;
  alphabet = codes "AB";
  base = 2;
  used = (codes "AA", 2) ∷ (codes "B", 1) ∷ [];
  persisted_originals = [];
  plan = none;
  plan_reserved = codes "AB" ∷ [];
  plan_promised = codes "BA" ∷ [];
  plan_signature = none;
  own_persisted = [];
}

abbrev first_draw : ℕ → ℤ → ℤ
first_draw k n = pos 0

completes_exactly :
    select_candidate first_draw two_letters (codes "AB") (generic 2) ≡ ok (codes "BB")
unfolding select_candidate set_of ◌-ℤ◌ ◌+ℤ◌
completes_exactly = refl

two_letters-IsConsistent : IsConsistent two_letters
unfolding is_safe_token
two_letters-IsConsistent = record {
  distinct = (refl, (refl, tt));
  nonempty = omega arith;
  based = refl;
  used_safe = ((refl, refl), ((refl, refl), tt));
  reserved_safe = (refl, tt);
  promised_safe = (refl, tt);
}

select_candidate-IsFree_example :
    (t : Text) × (select_candidate first_draw two_letters (codes "AB") (generic 2) ≡ ok t)
    × (is_safe_token t (codes "AB") ≡ true)
    × (length t ≡ 2)
    × (text_eq t (codes "AB") ≡ false)
    × (has_text t (occupied two_letters) ≡ false)
    × (has_text t (codes "AB" ∷ []) ≡ false)
    × (has_text t (codes "BA" ∷ []) ≡ false)
unfolding blocked_tokens
select_candidate-IsFree_example =
    select_candidate-IsFree two_letters 1 two_letters-IsConsistent (codes "AB") first_draw
      (omega arith) (λ h. refl) (λ k n h. (omega arith, omega (arith, h)))

-- a registry that knows the ASCII characters under every name but one
abbrev ascii_codec : Codec
ascii_codec encoding s = if text_eq (codes encoding) (codes "unknown") then none else some s

abbrev text_vault : VaultDatabase
text_vault = record a_vault {
  tables = record some_tables {
    mapping_domains = domain_row (codes "dom-t") kind_text none none ∷ [];
    text_mappings =
        record {
          domain_id = codes "dom-t";
          original_value = text_cell (codes "CAT");
          pseudonym_value = text_cell (codes "XY");
          logical_byte_length = integer_cell (pos 2);
        }
        ∷ [];
  };
}

abbrev observed : GlobalTextDomainMapping
observed = record (new_mapping (codes "dom-t")) {
  strictest = (codes "CAT", 3) ∷ (codes "DOG", 8) ∷ [];
  encodings = "cp1250" ∷ [];
}

observes :
    (observe (text (codes "CAT")) "cp1250" (integer (pos 5)) (new_mapping (codes "dom-t"))
      >>= (λ m. observe (text (codes "CAT")) "cp1250" (integer (pos 3)) m))
    ≡ ok (record (new_mapping (codes "dom-t")) {
      strictest = (codes "CAT", 3) ∷ [];
      encodings = "cp1250" ∷ [];
    })
unfolding observe
observes = refl

finalize-IsReady_example :
    IsReady
      (codes "dom-t")
      (finalize ascii_codec no_faults observed text_vault).1
      (finalize ascii_codec no_faults observed text_vault).2
unfolding finalize
finalize-IsReady_example =
    finalize-IsReady ascii_codec no_faults observed text_vault
      (record { unused = refl; unreserved = refl; unpromised = refl }) refl

abbrev unproven : GlobalTextDomainMapping
unproven = record observed { encodings = "cp1250" ∷ "unknown" ∷ [] }

finalize_unproven_example :
    finalize ascii_codec no_faults unproven text_vault
    ≡ (err no_safe_alphabet, unproven, text_vault)
finalize_unproven_example =
    finalize_unproven ascii_codec no_faults unproven text_vault ("cp1250" ∷ []) [] "unknown" refl
      refl (λ c. refl)
