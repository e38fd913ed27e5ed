-- ===== src/Engine/NumericFinalization.antt =====
-- engine/pass1.py: the loop of `_finalize_numeric`, which reuses or stores one row for each
-- observation of the domain. The loop goes over the observations as they stood when it began.
use dbf_anonymizer.Prelude.{
  ℕ, suc, Bool, true, false, Option, none, some, List, [], ◌∷◌, length, ℤ, pos, ◌+ℤ◌, ◌-ℤ◌, Text,
}
use dbf_anonymizer.Errors.{Result, ok, err, ◌>>=◌, ◌>>◌}
use dbf_anonymizer.Values.{text}
use dbf_anonymizer.CanonicalText.{int_text, parse_canonical_integer_text}
use dbf_anonymizer.NumericKeys.{NumericKeyDomain}
use dbf_anonymizer.Vault.{VaultDatabase, Faults, in_transaction}
use dbf_anonymizer.Vault.NumericMappings.{
  add_numeric_key_mapping, get_numeric_pseudonym, numeric_mapping_rows,
}
use dbf_anonymizer.NumericAllocation.Finalization.{ensure_domain}
use dbf_anonymizer.Engine.Spool.{
  PassOneSpool, observed, drop_numeric_observation, numeric_unpersisted_count,
}
use dbf_anonymizer.Engine.NumericPass.{
  domain_exhausted, numeric_residual_feasible, select_numeric_candidate,
}

-- the local variables of the loop, with the vault and the spool
pub record Finalization : Type 0 where
  pub db : VaultDatabase
  pub spool : PassOneSpool
  pub occupied : ℤ
  pub remaining : ℤ
  pub allocated : ℤ

-- what the environment does in one round
pub record Round : Type 0 where
  pub polled : Result (Unit {0})
  pub faults : Faults
  pub random_below : ℕ → ℤ → ℤ

-- the row is stored unless one is there by now
abbrev pub stored_unless :
    Text → ℤ → ℤ → VaultDatabase → Option Text → Result (Unit {0} × VaultDatabase)
stored_unless domain_id value candidate db none =
    add_numeric_key_mapping domain_id (int_text value) (int_text candidate) db
stored_unless domain_id value candidate db (some fresh) = do
  reparsed ← parse_canonical_integer_text (text fresh)
  ok (tt, db)

-- the body of the transaction
unfoldable pub persist : Text → Text → ℤ → ℤ → VaultDatabase → Result (Unit {0} × VaultDatabase)
unfolding get_numeric_pseudonym
persist domain_id canonical value candidate db = do
  fresh ← get_numeric_pseudonym db domain_id canonical
  stored_unless domain_id value candidate db fresh

module _ (d : NumericKeyDomain) (domain_id : Text) where
  abbrev pub after_unit :
      Text → Finalization → Result (Unit {0}) × VaultDatabase → Result (Unit {0}) × Finalization
  after_unit canonical s (err failure, db) = (err failure, record s { db = db })
  after_unit canonical s (ok _, db) = (
    ok tt,
    record {
      db = db;
      spool = drop_numeric_observation domain_id canonical s.spool;
      occupied = s.occupied +ℤ pos 1;
      remaining = s.remaining -ℤ pos 1;
      allocated = s.allocated +ℤ pos 1;
    },
  )

  abbrev pub store_chosen :
      Faults → Text → Finalization → Result (ℤ × ℤ) → Result (Unit {0}) × Finalization
  store_chosen faults canonical s (err failure) = (err failure, s)
  store_chosen faults canonical s (ok (value, candidate)) =
      after_unit canonical s
        (in_transaction faults (persist domain_id canonical value candidate) s.db)

  -- the value of the observation, and its candidate
  abbrev pub chosen : (ℕ → ℤ → ℤ) → Text → Finalization → Result (ℤ × ℤ)
  chosen random_below canonical s = do
    value ← parse_canonical_integer_text (text canonical)
    candidate ←
        select_numeric_candidate d s.db s.spool domain_id s.occupied s.remaining value random_below
    ok (value, candidate)

  abbrev pub reuse_or_store :
      Round → Text → Finalization → Result (Option Text) → Result (Unit {0}) × Finalization
  reuse_or_store round canonical s (err failure) = (err failure, s)
  reuse_or_store round canonical s (ok (some existing)) =
      (ok tt, record s { spool = drop_numeric_observation domain_id canonical s.spool })
  reuse_or_store round canonical s (ok none) =
      store_chosen round.faults canonical s (chosen round.random_below canonical s)

  unfoldable pub finalize_one : Round → Text → Finalization → Result (Unit {0}) × Finalization
  unfolding persist in_transaction select_numeric_candidate get_numeric_pseudonym
  finalize_one round canonical s =
      reuse_or_store round canonical s
        (round.polled >> get_numeric_pseudonym s.db domain_id canonical)

  abbrev pub next_round :
      (Finalization → Result ℤ × Finalization)
      → Result (Unit {0}) × Finalization
      → Result ℤ × Finalization
  next_round later (err failure, s) = (err failure, s)
  next_round later (ok _, s) = later s

  unfoldable pub finalize_loop :
      (ℕ → Round) → ℕ → List Text → Finalization → Result ℤ × Finalization
  unfolding finalize_one
  finalize_loop rounds turn [] s = (ok s.allocated, s)
  finalize_loop rounds turn (canonical ∷ canonicals) s =
      next_round (finalize_loop rounds (suc turn) canonicals)
        (finalize_one (rounds turn) canonical s)

  -- the counters at the beginning, and the test that opens the loop
  abbrev pub opened : (ℕ → Round) → Finalization → Result Bool → Result ℤ × Finalization
  opened rounds s (err failure) = (err failure, s)
  opened rounds s (ok false) = (err domain_exhausted, s)
  opened rounds s (ok true) = finalize_loop rounds 0 (observed s.spool domain_id) s

  abbrev pub counted :
      (ℕ → Round)
      → VaultDatabase
      → PassOneSpool
      → Result (List (Text × Text))
      → Result ℤ × VaultDatabase × PassOneSpool
  counted rounds db spool (err failure) = (err failure, db, spool)
  counted rounds db spool (ok rows) =
      let s : Finalization = record {
        db = db;
        spool = spool;
        occupied = pos (length rows);
        remaining = pos (numeric_unpersisted_count spool domain_id);
        allocated = pos 0;
      } in
      let (result, last) =
        opened rounds s (numeric_residual_feasible d s.occupied s.remaining db spool domain_id) in
      (result, last.db, last.spool)

  abbrev pub with_domain_row :
      (ℕ → Round)
      → PassOneSpool
      → Result (Unit {0}) × VaultDatabase
      → Result ℤ × VaultDatabase × PassOneSpool
  with_domain_row rounds spool (err failure, db) = (err failure, db, spool)
  with_domain_row rounds spool (ok _, db) =
      counted rounds db spool (numeric_mapping_rows db domain_id)

  -- `_finalize_numeric`; `faults` are those of the unit that creates the domain
  unfoldable pub finalize_numeric :
      Faults → (ℕ → Round) → VaultDatabase → PassOneSpool → Result ℤ × VaultDatabase × PassOneSpool
  unfolding finalize_loop ensure_domain numeric_residual_feasible numeric_mapping_rows
  finalize_numeric faults rounds db spool =
      with_domain_row rounds spool (ensure_domain faults domain_id db)
