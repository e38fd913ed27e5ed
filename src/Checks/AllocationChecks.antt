-- ===== src/Checks/AllocationChecks.antt =====
-- Runs of the allocation of temporal offsets and numeric pseudonyms, and the theorems at small
-- inputs.
use dbf_anonymizer.Prelude.{
  none, ℕ, find, insert, ◌≡◌, refl, true, false, not, ◌&&◌, arith, some, List, [], ◌∷◌, Text, codes,
  ℤ, pos, negsuc, All, ◌+ℤ◌, ◌-ℤ◌, mem, set_of,
}
use dbf_anonymizer.Errors.{ok}
use dbf_anonymizer.Values.{Value, null, date, datetime}
use dbf_anonymizer.Temporal.{temporal_ordinal, temporal_nonzero_count, temporal_offset_at}
use dbf_anonymizer.Temporal.Shift.{IsCalendarValue}
use dbf_anonymizer.Vault.{
  VaultDatabase, no_faults, integer_cell, transaction, verify_writer_ownership, validate_token,
}
use dbf_anonymizer.Vault.Mappings.{create_domain, domain_row, kind_temporal}
use dbf_anonymizer.Vault.Recovery.{set_temporal_parameter}
use dbf_anonymizer.TemporalAllocation.{TemporalShiftDomain, fresh_domain, observe, finalize}
use dbf_anonymizer.TemporalAllocation.Observed.{observe_all}
use dbf_anonymizer.TemporalAllocation.Reused.{finalize_reuses}
use dbf_anonymizer.TemporalAllocation.RoundTrip.{IsRecoverable, finalize-IsRecoverable}
use dbf_anonymizer.TemporalAllocation.Returns.{IsReady, allocated_in, finalize-returns}
use dbf_anonymizer.NumericKeys.{
  NumericKeyDomain, free_token_count, jth_free_token, plan_numeric_bijection,
}
use dbf_anonymizer.NumericKeys.Bijection.{IsAssignment}
use dbf_anonymizer.NumericAllocation.{
  NumericKeyDomainMapping, select_candidate, allocate_all, unallocated_originals,
}
use dbf_anonymizer.NumericAllocation.Sound.{IsCandidate, select_candidate-IsCandidate}
use dbf_anonymizer.NumericAllocation.Complete.{IsBelow, select_candidate-returns}
use dbf_anonymizer.NumericAllocation.Orders.{allocate_all-IsAssignment}
use dbf_anonymizer.Checks.VaultChecks.{a_vault}
use dbf_anonymizer.Checks.TemporalChecks.{noon}

abbrev id : Text
id = codes "dom-t"

abbrev seen_values : List Value
seen_values = date 100 ∷ null ∷ datetime 30 noon ∷ []

abbrev collected : TemporalShiftDomain
collected = record (fresh_domain id) { min_ordinal = some (pos 30); max_ordinal = pos 100 }

abbrev draw_three : ℤ → ℤ
draw_three n = pos 3

collects : observe_all seen_values (fresh_domain id) ≡ ok collected
unfolding observe temporal_ordinal
collects = refl

ready : IsReady id a_vault
unfolding transaction verify_writer_ownership validate_token
ready = record {
  admitted = refl;
  owned = refl;
  token = refl;
  no_domain = refl;
  no_parameter = refl;
}

abbrev settled : TemporalShiftDomain
settled = record collected { offset = some (negsuc 25); finalized = true }

abbrev allocated_vault : VaultDatabase
allocated_vault = record (allocated_in id (negsuc 25) a_vault) { active = false }

settles :
    finalize no_faults draw_three collected a_vault
    ≡ (ok (some (negsuc 25)), settled, allocated_vault)
unfolding finalize find ◌+ℤ◌ ◌-ℤ◌ temporal_offset_at create_domain set_temporal_parameter
settles = refl

finalize-returns_example :
    (o : ℤ) × (finalize no_faults draw_three collected a_vault ≡ (
      ok (some o),
      record collected { offset = some o; finalized = true },
      record (allocated_in id o a_vault) { active = false },
    ))
unfolding temporal_nonzero_count ◌+ℤ◌ ◌-ℤ◌
finalize-returns_example =
    finalize-returns draw_three collected a_vault (pos 30) ready refl (omega arith)
      (omega arith, omega arith)

finalize-IsRecoverable_example :
    All
      (λ value.
        (ordinal : ℤ)
        → temporal_ordinal value ≡ ok ordinal
        → IsCalendarValue value
        → IsRecoverable settled allocated_vault value)
      seen_values
finalize-IsRecoverable_example =
    finalize-IsRecoverable id seen_values collected settled no_faults draw_three a_vault
      allocated_vault (negsuc 25) collects settles

abbrev later_domain : TemporalShiftDomain
later_domain = record (fresh_domain id) { min_ordinal = some (pos 500); max_ordinal = pos 700 }

abbrev later_settled : TemporalShiftDomain
later_settled = record later_domain { offset = some (negsuc 25); finalized = true }

-- a later connection, with another domain beside
abbrev reopened_vault : VaultDatabase
reopened_vault = record allocated_vault {
  tables = record allocated_vault.tables {
    mapping_domains =
        domain_row (codes "dom-other") kind_temporal none none
        ∷ allocated_vault.tables.mapping_domains;
    temporal_parameters =
        record { domain_id = codes "dom-other"; offset_days = integer_cell (pos 4) }
        ∷ allocated_vault.tables.temporal_parameters;
    owner_token = some (codes "wauth-7");
  };
  writer_token = some (codes "wauth-7");
}

settles_again :
    finalize no_faults (λ n. pos 9) later_domain reopened_vault
    ≡ (ok (some (negsuc 25)), later_settled, reopened_vault)
unfolding finalize find ◌+ℤ◌ ◌-ℤ◌ temporal_offset_at create_domain set_temporal_parameter
settles_again = refl

finalize_reuses_example : negsuc 25 ≡ negsuc 25
unfolding find
finalize_reuses_example =
    finalize_reuses no_faults no_faults draw_three (λ n. pos 9) collected settled later_domain
      later_settled a_vault allocated_vault reopened_vault reopened_vault (negsuc 25) (negsuc 25)
      settles refl refl refl settles_again

-- the tokens 0 .. 2, and the originals 0 and 2
abbrev tiny : NumericKeyDomain
tiny = record { pseudonym_low = pos 0; pseudonym_high = pos 2; members = [] }

abbrev tiny_mapping : NumericKeyDomainMapping
tiny_mapping = record {
  domain_id = codes "dom-k";
  domain = tiny;
  originals = pos 0 ∷ pos 2 ∷ [];
  finalized = true;
  used = [];
  persisted_originals = [];
}

abbrev pub lowest : ℕ → ℤ → ℤ
lowest k n = pos 0

pub lowest-IsBelow : IsBelow lowest
lowest-IsBelow k n some_left = (omega arith, omega arith)

selects : select_candidate lowest tiny_mapping (pos 2) ≡ ok (pos 0)
unfolding select_candidate set_of insert ◌+ℤ◌ ◌-ℤ◌ free_token_count jth_free_token
    plan_numeric_bijection
selects = refl

select_candidate-IsCandidate_example : IsCandidate tiny_mapping (pos 2) (pos 0)
select_candidate-IsCandidate_example =
    select_candidate-IsCandidate tiny_mapping (pos 2) lowest (pos 0) selects

still_feasible : plan_numeric_bijection tiny (pos 2 ∷ pos 0 ∷ []) [] ≡ ok true
unfolding plan_numeric_bijection set_of insert ◌+ℤ◌ ◌-ℤ◌
still_feasible = refl

select_candidate-returns_example : (c : ℤ) × (select_candidate lowest tiny_mapping (pos 2) ≡ ok c)
unfolding unallocated_originals
select_candidate-returns_example =
    select_candidate-returns tiny_mapping (pos 2) lowest (omega arith) (refl, (refl, tt))
      still_feasible lowest-IsBelow

tiny_members : (a : ℤ) → mem a (pos 2 ∷ pos 0 ∷ []) ≡ (mem a (pos 0 ∷ pos 2 ∷ []) && not (mem a []))
tiny_members a = ground arith

allocate_all-IsAssignment_example :
    (ts : List ℤ) × (allocate_all (λ n. lowest) 0 tiny_mapping (pos 2 ∷ pos 0 ∷ []) ≡ ok ts)
    × IsAssignment tiny [] (pos 2 ∷ pos 0 ∷ []) ts
allocate_all-IsAssignment_example =
    allocate_all-IsAssignment (λ n. lowest) 0 tiny_mapping (pos 2 ∷ pos 0 ∷ []) (omega arith)
      (λ n. lowest-IsBelow)
      (record {
        ascending = (omega arith, tt);
        nodup = (refl, (refl, tt));
        members = tiny_members;
        planned = still_feasible;
      })
