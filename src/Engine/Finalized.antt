-- ===== src/Engine/Finalized.antt =====
-- engine/pass1.py: a `_finalize_numeric` that returned has mapped every observation.
use dbf_anonymizer.Prelude.{
  ◌≡◌, refl, ◌∙◌, ap, Option, none, some, List, [], ◌∷◌, ℕ, suc, ℤ, Text, All,
}
use dbf_anonymizer.Errors.{Result, ok, err, ◌>>◌, ok-injective, >>=-eq-ok, >>-eq-ok}
use dbf_anonymizer.Values.{text}
use dbf_anonymizer.CanonicalText.{int_text, parse_canonical_integer_text}
use dbf_anonymizer.NumericKeys.{NumericKeyDomain}
use dbf_anonymizer.NumericAllocation.ReadBack.{int_text-parse}
use dbf_anonymizer.Vault.{VaultDatabase, Faults, in_transaction}
use dbf_anonymizer.Vault.NumericMappings.{get_numeric_pseudonym}
use dbf_anonymizer.Engine.NumericPass.{select_numeric_candidate}
use dbf_anonymizer.Engine.NumericFinalization.{
  Finalization, Round, persist, after_unit, store_chosen, chosen, reuse_or_store, finalize_one,
  next_round, finalize_loop,
}
use dbf_anonymizer.Engine.Mapped.{
  Rows, IsMapped, Extends, Extends-refl, Extends-trans, unit-Extends,
}

module _ (d : NumericKeyDomain) (domain_id : Text) where
  -- one round that went well
  abbrev Went : Text → Finalization → Result (Unit {0}) × Finalization → Type 0
  Went canonical s r =
      r.0 ≡ ok tt → Extends domain_id s.db r.1.db × IsMapped domain_id r.1.db canonical

  after_unit-Went :
      (canonical : Text) (s : Finalization) (r : Result (Unit {0}) × VaultDatabase)
      → (r.0 ≡ ok tt → Extends domain_id s.db r.1 × IsMapped domain_id r.1 canonical)
      → Went canonical s (after_unit d domain_id canonical s r)
  after_unit-Went canonical s (err failure, db) stored h = cc
  after_unit-Went canonical s (ok tt, db) stored h = stored refl

  store_chosen-Went :
      (faults : Faults) (canonical : Text) (s : Finalization) (r : Result (ℤ × ℤ))
      → Rows s.db
      → ((value candidate : ℤ) → r ≡ ok (value, candidate) → int_text value ≡ canonical)
      → Went canonical s (store_chosen d domain_id faults canonical s r)
  store_chosen-Went faults canonical s (err failure) rows same h = cc
  store_chosen-Went faults canonical s (ok (value, candidate)) rows same h =
      after_unit-Went canonical s
        (in_transaction faults (persist domain_id canonical value candidate) s.db)
        (unit-Extends domain_id faults canonical value candidate s.db rows
          (same value candidate refl))
        h

  chosen-value :
      (random_below : ℕ → ℤ → ℤ) (canonical : Text) (s : Finalization) (value candidate : ℤ)
      → chosen d domain_id random_below canonical s ≡ ok (value, candidate)
      → int_text value ≡ canonical
  chosen-value random_below canonical s value candidate h =
      let p = >>=-eq-ok (parse_canonical_integer_text (text canonical)) _ h in
      let q =
        >>=-eq-ok
          (select_numeric_candidate d s.db s.spool domain_id s.occupied s.remaining p.0
            random_below)
          _ p.2 in
      let same : p.0 ≡ value = ap (λ (x : ℤ × ℤ). x.0) (ok-injective q.2) in
      int_text-parse canonical value (p.1 ∙ ap ok same)

  reuse_or_store-Went :
      (round : Round) (canonical : Text) (s : Finalization) (found : Result (Option Text))
      → Rows s.db
      → (round.polled >> get_numeric_pseudonym s.db domain_id canonical) ≡ found
      → Went canonical s (reuse_or_store d domain_id round canonical s found)
  reuse_or_store-Went round canonical s (err failure) rows looked h = cc
  reuse_or_store-Went round canonical s (ok (some existing)) rows looked h =
      (Extends-refl domain_id s.db rows, (existing, (>>-eq-ok round.polled _ looked).1))
  reuse_or_store-Went round canonical s (ok none) rows looked h =
      store_chosen-Went round.faults canonical s (chosen d domain_id round.random_below canonical s)
        rows (chosen-value round.random_below canonical s) h

  finalize_one-Went :
      (round : Round) (canonical : Text) (s : Finalization)
      → Rows s.db
      → Went canonical s (finalize_one d domain_id round canonical s)
  unfolding finalize_one
  finalize_one-Went round canonical s rows = reuse_or_store-Went round canonical s _ rows refl

  abbrev pub AllMapped : List Text → VaultDatabase → Type 0
  AllMapped canonicals db = All (IsMapped domain_id db) canonicals

  next_round-Went :
      (later : Finalization → Result ℤ × Finalization) (canonicals : List Text) (canonical : Text)
      (s : Finalization) (r : Result (Unit {0}) × Finalization) (n : ℤ)
      → Went canonical s r
      → ((t : Finalization)
          → Rows t.db
          → (later t).0 ≡ ok n
          → Extends domain_id t.db (later t).1.db × AllMapped canonicals (later t).1.db)
      → (next_round d domain_id later r).0 ≡ ok n
      → Extends domain_id s.db (next_round d domain_id later r).1.db
        × AllMapped (canonical ∷ canonicals) (next_round d domain_id later r).1.db
  next_round-Went later canonicals canonical s (err failure, t) n went rest h = cc
  next_round-Went later canonicals canonical s (ok tt, t) n went rest h =
      let (first, here) = went refl in
      let (second, others) = rest t first.rows h in
      (
        Extends-trans domain_id s.db t.db (later t).1.db first second,
        (second.mapped canonical here, others),
      )

  -- A loop that returned left a row for each observation, lost none of the rows before it, and kept
  -- the bijection.
  pub finalize_loop-AllMapped :
      (rounds : ℕ → Round) (turn : ℕ) (canonicals : List Text) (s : Finalization) (n : ℤ)
      → Rows s.db
      → (finalize_loop d domain_id rounds turn canonicals s).0 ≡ ok n
      → Extends domain_id s.db (finalize_loop d domain_id rounds turn canonicals s).1.db
        × AllMapped canonicals (finalize_loop d domain_id rounds turn canonicals s).1.db
  unfolding finalize_loop
  finalize_loop-AllMapped rounds turn [] s n rows h = (Extends-refl domain_id s.db rows, tt)
  finalize_loop-AllMapped rounds turn (canonical ∷ canonicals) s n rows h =
      next_round-Went (finalize_loop d domain_id rounds (suc turn) canonicals) canonicals canonical
        s (finalize_one d domain_id (rounds turn) canonical s) n
        (finalize_one-Went (rounds turn) canonical s rows)
        (λ t ready done. finalize_loop-AllMapped rounds (suc turn) canonicals t n ready done) h
