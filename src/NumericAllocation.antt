-- ===== src/NumericAllocation.antt =====
-- vault/numeric_allocation.py: the choice of a pseudonym for one original of a numeric key domain.
-- The sets of the instance are ascending lists; `random_below k n` is the k-th draw of the CSPRNG,
-- a parameter, below `n`.
pub mod Sound
pub mod Complete
pub mod Orders
pub mod Rows
pub mod Finalization
pub mod Persisted
pub mod ReadBack
pub mod Recovery
use dbf_anonymizer.Prelude.{
  ℕ, zero, suc, ◌+◌, min, String, Bool, true, false, not, ◌&&◌, ◌||◌, Option, none, some, List, [],
  ◌∷◌, ◌++◌, if◌then◌else◌, length, any, keep, ℤ, pos, negsuc, pos_part, ltb_ℤ, eqb_ℤ, Text,
  text_eq, mem, insert,
}
use dbf_anonymizer.Errors.{
  Failure, mapping_error, ErrorCode, mapping_constraint_infeasible, mapping_capacity_exhausted,
  mapping_conflict, value_error, type_error, Result, ok, err, ◌>>=◌, ◌>>◌, raise_if,
}
use dbf_anonymizer.Values.{Value, integer, text}
use dbf_anonymizer.CanonicalText.{canonical_integer_text, int_text, parse_canonical_integer_text}
use dbf_anonymizer.NumericKeys.{
  NumericKeyDomain, NumericKeyMemberRange, Verdict, Range, reversible, recovery_unwritable,
  out_of_member_range, contains_pseudonym, contains_range, member_original_ranges,
  classify_member_original, free_token_count, jth_free_token, plan_numeric_bijection,
}
use dbf_anonymizer.Vault.{MappingDomain, VaultDatabase, Faults, in_transaction}
use dbf_anonymizer.Vault.Mappings.{create_domain, mapping_domains, kind_numeric_key, has_domain}
use dbf_anonymizer.Vault.NumericMappings.{
  add_numeric_key_mapping, get_numeric_pseudonym, get_numeric_original, numeric_mapping_rows,
}

-- NUMERIC_KEY_PROBE_BUDGET
abbrev pub numeric_key_probe_budget : ℕ
numeric_key_probe_budget = 64

abbrev pub mapping_failure : ErrorCode → String → Failure
mapping_failure code detail_code = mapping_error code "mapping" detail_code

abbrev pub domain_exhausted : Failure
domain_exhausted = mapping_failure mapping_capacity_exhausted "NUMERIC_KEY_DOMAIN_EXHAUSTED"

abbrev pub no_completion : Failure
no_completion = mapping_failure mapping_capacity_exhausted "NUMERIC_KEY_NO_COMPLETION"

abbrev pub mapping_corrupt : Failure
mapping_corrupt = mapping_failure mapping_conflict "NUMERIC_MAPPING_CORRUPT"

pub record NumericKeyDomainMapping : Type 0 where
  pub domain_id : Text
  pub domain : NumericKeyDomain
  pub originals : List ℤ
  pub finalized : Bool
  pub used : List ℤ
  pub persisted_originals : List ℤ

-- `__init__`
abbrev pub new_mapping : Text → NumericKeyDomain → NumericKeyDomainMapping
new_mapping domain_id domain = record {
  domain_id = domain_id;
  domain = domain;
  originals = [];
  finalized = false;
  used = [];
  persisted_originals = [];
}

abbrev pub judged : NumericKeyDomainMapping → ℤ → Verdict → Result NumericKeyDomainMapping
judged m original reversible = ok (record m { originals = insert original m.originals })
judged m original recovery_unwritable =
    err (mapping_failure mapping_constraint_infeasible "NUMERIC_KEY_RECOVERY_UNWRITABLE")
judged m original out_of_member_range = err value_error

unfoldable pub observe_original :
    ℤ → NumericKeyMemberRange → NumericKeyDomainMapping → Result NumericKeyDomainMapping
observe_original original member m = do
  raise_if m.finalized value_error
  verdict ← classify_member_original member (integer original)
  judged m original verdict

-- `_unallocated_originals`
unfoldable pub unallocated_originals : NumericKeyDomainMapping → ℤ → List ℤ
unallocated_originals m original =
    keep (λ value. not (mem value m.persisted_originals) && not (eqb_ℤ value original)) m.originals

-- `_residual_feasible`
unfoldable pub residual_feasible : NumericKeyDomainMapping → ℤ → List ℤ → ℤ → Result Bool
unfolding unallocated_originals
residual_feasible m candidate occupied original =
    plan_numeric_bijection m.domain (unallocated_originals m original) (occupied ++ candidate ∷ [])

-- the tokens that no candidate may be: the occupied ones, and the original itself
abbrev pub blocked_selection : NumericKeyDomainMapping → ℤ → List ℤ
blocked_selection m original =
    if contains_pseudonym m.domain original then insert original m.used else m.used

-- one candidate, kept if the rest stays feasible
abbrev pub tried : NumericKeyDomainMapping → ℤ → ℤ → Result (Option ℤ)
tried m original j = do
  candidate ← jth_free_token m.domain (blocked_selection m original) j
  feasible ← residual_feasible m candidate m.used original
  ok (if feasible then some candidate else none)

-- the `return` of a loop's round, or its later rounds
abbrev pub first_hit : Result (Option ℤ) → Option ℤ → Result (Option ℤ)
first_hit later none = later
first_hit later (some candidate) = ok (some candidate)

-- the loop over `range(NUMERIC_KEY_PROBE_BUDGET)`, from draw `k`
pub probe_loop : ℕ → ℕ → (ℕ → ℤ → ℤ) → NumericKeyDomainMapping → ℤ → ℤ → Result (Option ℤ)
unfolding residual_feasible
probe_loop zero k random_below m original free_selection = ok none
probe_loop (suc budget) k random_below m original free_selection = do
  let later = probe_loop budget (suc k) random_below m original free_selection
  hit ← tried m original (random_below k free_selection)
  first_hit later hit

-- the loop over `range(walk_limit)`, from `index`
pub walk_loop : ℕ → ℕ → NumericKeyDomainMapping → ℤ → Result (Option ℤ)
unfolding residual_feasible
walk_loop zero index m original = ok none
walk_loop (suc left) index m original = do
  let later = walk_loop left (suc index) m original
  hit ← tried m original (pos index)
  first_hit later hit

abbrev pub walk_limit : NumericKeyDomainMapping → ℤ → ℕ
walk_limit m free_selection = min (pos_part free_selection) (length m.originals + 2)

abbrev pub found_or_fail : Option ℤ → Result ℤ
found_or_fail none = err no_completion
found_or_fail (some candidate) = ok candidate

-- the exact completion, where the probes found nothing
abbrev pub completed : NumericKeyDomainMapping → ℤ → ℤ → Option ℤ → Result ℤ
completed m original free_selection (some candidate) = ok candidate
completed m original free_selection none = do
  walked ← walk_loop (walk_limit m free_selection) 0 m original
  found_or_fail walked

-- `_select_candidate`
unfoldable pub select_candidate : (ℕ → ℤ → ℤ) → NumericKeyDomainMapping → ℤ → Result ℤ
unfolding probe_loop walk_loop
select_candidate random_below m original = do
  let free_selection = free_token_count m.domain (blocked_selection m original)
  raise_if (ltb_ℤ free_selection (pos 1)) domain_exhausted
  probed ← probe_loop numeric_key_probe_budget 0 random_below m original free_selection
  completed m original free_selection probed

-- what `_allocate` records after the commit
abbrev pub recorded : NumericKeyDomainMapping → ℤ → ℤ → NumericKeyDomainMapping
recorded m original candidate = record m {
  used = insert candidate m.used;
  persisted_originals = insert original m.persisted_originals;
  originals = insert original m.originals;
}

-- one allocation after the other, in the order that the originals are asked for, each with its own
-- draws
pub allocate_all : (ℕ → ℕ → ℤ → ℤ) → ℕ → NumericKeyDomainMapping → List ℤ → Result (List ℤ)
unfolding select_candidate
allocate_all draws turn m [] = ok []
allocate_all draws turn m (original ∷ originals) = do
  candidate ← select_candidate (draws turn) m original
  later ← allocate_all draws (suc turn) (recorded m original candidate) originals
  ok (candidate ∷ later)
