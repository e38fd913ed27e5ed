-- ===== src/Checks/EngineChecks.antt =====
-- Runs of the numeric domains over the vault and in pass 1, and the theorems at small inputs.
use dbf_anonymizer.Prelude.{
  ◌≡◌, refl, ℕ, true, ◌&&◌, leb_ℤ, none, List, [], ◌∷◌, codes, ℤ, pos, negsuc, ◌^◌, ◌-◌, ◌+ℤ◌, ◌-ℤ◌,
  insert, set_of, find, mem, arith,
}
use dbf_anonymizer.Errors.{ok, ◌>>=◌}
use dbf_anonymizer.Values.{integer}
use dbf_anonymizer.CanonicalText.{int_text, int_of, parse_canonical_integer_text}
use dbf_anonymizer.NumericKeys.{
  NumericKeyDomain, NumericKeyMemberRange, size, contains_pseudonym, free_token_count,
  integral_numeric_range, jth_free_token, plan_numeric_bijection,
}
use dbf_anonymizer.NumericAllocation.{NumericKeyDomainMapping, select_candidate}
use dbf_anonymizer.NumericAllocation.Persisted.{pseudonym_for}
use dbf_anonymizer.NumericAllocation.Recovery.{Recovered, pseudonym_for-original_for}
use dbf_anonymizer.Vault.{VaultDatabase, text_cell, no_faults}
use dbf_anonymizer.Vault.NumericMappings.{
  fetched_numeric, add_numeric_key_mapping, numeric_mapping_rows,
}
use dbf_anonymizer.Engine.Spool.{PassOneSpool, empty_spool, relation_row_count, flush}
use dbf_anonymizer.Engine.Batches.{
  Event, numeric, key, flushed, run, abstract_run, meaning, tables_of, IsBounded,
  empty_spool-IsBounded, run-Refines, relation_row_count-key_events,
}
use dbf_anonymizer.Engine.NumericPass.{
  remaining_values, numeric_occupied_stream, numeric_residual_feasible,
}
use dbf_anonymizer.Engine.NumericFinalization.{Round, finalize_numeric}
use dbf_anonymizer.Engine.CastOrder.{IsNarrow}
use dbf_anonymizer.Engine.Feasible.{numeric_residual_feasible-eq_plan}
use dbf_anonymizer.Engine.Refusals.{Refused, finalize_numeric-Refused}
use dbf_anonymizer.Checks.VaultChecks.{a_vault, dom, no_rows}
use dbf_anonymizer.Checks.AllocationChecks.{lowest}

abbrev member : NumericKeyMemberRange
member = record {
  original_low = pos 0;
  original_high = pos 2;
  pseudonym_low = pos 0;
  pseudonym_high = pos 2;
  readable_low = none;
  readable_high = none;
}

-- the tokens 0, 1 and 2
abbrev digits : NumericKeyDomain
digits = record { pseudonym_low = pos 0; pseudonym_high = pos 2; members = member ∷ [] }

abbrev frozen_mapping : NumericKeyDomainMapping
frozen_mapping = record {
  domain_id = dom;
  domain = digits;
  originals = pos 0 ∷ pos 2 ∷ [];
  finalized = true;
  used = [];
  persisted_originals = [];
}

allocates : (pseudonym_for no_faults lowest frozen_mapping a_vault (integer (pos 2))).0 ≡ ok (pos 0)
unfolding pseudonym_for select_candidate set_of insert find ◌+ℤ◌ ◌-ℤ◌ free_token_count
    jth_free_token plan_numeric_bijection numeric_mapping_rows add_numeric_key_mapping int_text
    fetched_numeric
allocates = refl

pseudonym_for-original_for_example :
    Recovered frozen_mapping
      (pseudonym_for no_faults lowest frozen_mapping a_vault (integer (pos 2))).2
      (pos 0)
      (pos 2)
pseudonym_for-original_for_example =
    pseudonym_for-original_for no_faults lowest frozen_mapping a_vault (pos 2) (pos 0) no_rows
      allocates

-- 1 and 2 are observed
abbrev some_spool : PassOneSpool
some_spool = record empty_spool {
  numeric_observation =
      record { domain_id = dom; canonical = codes "1" }
      ∷ record { domain_id = dom; canonical = codes "2" }
      ∷ [];
}

-- the tokens 0 .. 5, of which 3 and 1 are stored
abbrev six : NumericKeyDomain
six = record { pseudonym_low = pos 0; pseudonym_high = pos 5; members = member ∷ [] }

abbrev stored_vault : VaultDatabase
stored_vault = record a_vault {
  tables = record a_vault.tables {
    numeric_key_mappings =
        record {
          domain_id = dom;
          original_value = text_cell (codes "7");
          pseudonym_value = text_cell (codes "3");
        }
        ∷ record {
          domain_id = dom;
          original_value = text_cell (codes "8");
          pseudonym_value = text_cell (codes "1");
        }
        ∷ [];
  };
}

abbrev stored_tokens : List ℤ
stored_tokens = pos 1 ∷ pos 3 ∷ []

stream : numeric_occupied_stream stored_vault dom ≡ ok stored_tokens
unfolding numeric_occupied_stream parse_canonical_integer_text
stream = refl

all_inside : (t : ℤ) → mem t stored_tokens ≡ true → contains_pseudonym six t ≡ true
all_inside t h = ground (arith, h)

narrow : IsNarrow six
narrow = (omega arith, omega arith)

numeric_residual_feasible-eq_plan_example :
    numeric_residual_feasible six (pos 2) (pos 2) stored_vault some_spool dom ≡ (
      plan_numeric_bijection six (remaining_values some_spool dom) stored_tokens >>= λ planned.
      ok (planned && leb_ℤ (pos 1) (size six -ℤ pos 2)))
unfolding int_of
numeric_residual_feasible-eq_plan_example =
    numeric_residual_feasible-eq_plan six stored_tokens stored_vault some_spool dom narrow stream
      all_inside (refl, (refl, tt)) (refl, (refl, tt))

abbrev calm : ℕ → Round
calm n = record { polled = ok tt; faults = no_faults; random_below = lowest }

abbrev one_spool : PassOneSpool
one_spool = record empty_spool {
  numeric_observation = record { domain_id = dom; canonical = codes "2" } ∷ [];
}

-- the tokens of N(19,0)
abbrev wide : NumericKeyDomain
wide = record {
  pseudonym_low = negsuc (10 ^ 18 - 2);
  pseudonym_high = pos (10 ^ 19 - 1);
  members = [];
}

of_width : integral_numeric_range (integer (pos 19)) ≡ ok (wide.pseudonym_low, wide.pseudonym_high)
unfolding integral_numeric_range
of_width = refl

finalize_numeric-Refused_example :
    Refused a_vault some_spool (finalize_numeric wide dom no_faults calm a_vault some_spool)
finalize_numeric-Refused_example =
    finalize_numeric-Refused dom wide refl calm some_spool (omega arith) no_faults a_vault

abbrev some_events : List Event
some_events =
    key (codes "before") (codes "r") (codes "parent") (1 ∷ [])
    ∷ numeric dom (codes "1")
    ∷ flushed
    ∷ key (codes "before") (codes "r") (codes "parent") (1 ∷ [])
    ∷ []

run-Refines_example :
    (tables_of (flush (run some_events empty_spool))
      ≡ abstract_run some_events (meaning empty_spool))
    × IsBounded (run some_events empty_spool)
run-Refines_example = run-Refines some_events empty_spool empty_spool-IsBounded

relation_row_count-key_events_example :
    relation_row_count
      (flush (run some_events empty_spool))
      (codes "before")
      (codes "r")
      (codes "parent")
    ≡ 2
relation_row_count-key_events_example =
    relation_row_count-key_events (codes "before") (codes "r") (codes "parent") some_events
