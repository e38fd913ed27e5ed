-- ===== src/Vault/Atomicity.antt =====
-- vault/transactions.py and the guards of vault/store.py: what a transaction unit leaves behind.
use dbf_anonymizer.Prelude.{◌≡◌, refl, ◌∙◌, ap, inl, inr, true, false, Bool-cases}
use dbf_anonymizer.Errors.{Failure, Result, ok, err, ok-injective, >>-eq-ok}
use dbf_anonymizer.Vault.{
  VaultDatabase, Faults, no_faults, transaction, verify_writer_ownership, in_transaction, enter,
  finish, begin, require_trusted_connection,
}

-- What a unit comes to: everything that its body wrote, or nothing.
pub data Outcome {A : Type 0} (body : VaultDatabase → Result (A × VaultDatabase))
    (before : VaultDatabase) : Result A × VaultDatabase → Type 0 where
  kept :
      (value : A) (written : VaultDatabase)
      → transaction before ≡ ok tt
      → verify_writer_ownership before ≡ ok tt
      → body (record before { active = true }) ≡ ok (value, written)
      → Outcome body before (ok value, record written { active = false })
  undone :
      (failure : Failure) (after : VaultDatabase)
      → after.tables ≡ before.tables
      → after.active ≡ before.active
      → after.writer_token ≡ before.writer_token
      → Outcome body before (err failure, after)

module _ {A : Type 0} (faults : Faults) (body : VaultDatabase → Result (A × VaultDatabase))
    (before : VaultDatabase) where
  finish-Outcome :
      (r : Result (A × VaultDatabase))
      → transaction before ≡ ok tt
      → verify_writer_ownership before ≡ ok tt
      → body (record before { active = true }) ≡ r
      → Outcome body before (finish faults before r)
  unfolding finish
  finish-Outcome (err failure) admitted owned ran = undone failure _ refl refl refl
  finish-Outcome (ok (value, written)) admitted owned ran = elim (Bool-cases faults.commit_fails) [
    | inl failed ↦ rw failed (undone _ _ refl refl refl)
    | inr committed ↦ rw committed (kept value written admitted owned ran)
  ]

  enter-Outcome :
      (r : Result (Unit {0}))
      → transaction before ≡ ok tt
      → verify_writer_ownership before ≡ r
      → Outcome body before (enter faults body before r)
  unfolding enter
  enter-Outcome (err failure) admitted owned = undone failure _ refl refl refl
  enter-Outcome (ok tt) admitted owned =
      finish-Outcome (body (record before { active = true })) admitted owned refl

  begin-Outcome :
      (r : Result (Unit {0}))
      → transaction before ≡ r
      → Outcome body before (begin faults body before r)
  unfolding begin
  begin-Outcome (err failure) admitted = undone failure before refl refl refl
  begin-Outcome (ok tt) admitted = elim (Bool-cases faults.begin_fails) [
    | inl failed ↦ rw failed (undone _ before refl refl refl)
    | inr begun ↦ rw begun (enter-Outcome (verify_writer_ownership before) admitted refl)
  ]

  -- A transaction unit is all or nothing, whichever of SQLite's control statements fail: either the
  -- database admitted the unit, this instance holds the durable lease, the unit returns what its
  -- body returned and the database is what the body wrote with the unit closed; or it raises and
  -- the tables, like the lease that is bound to this instance, are those of before.
  pub in_transaction-Outcome : Outcome body before (in_transaction faults body before)
  unfolding in_transaction
  in_transaction-Outcome = begin-Outcome (transaction before) refl

-- What a unit that returned did.
abbrev pub Committed :
    {A : Type 0} (body : VaultDatabase → Result (A × VaultDatabase))
    → VaultDatabase
    → A
    → VaultDatabase
    → Type 0
Committed {A} body before value after =
    (written : VaultDatabase) × (body (record before { active = true }) ≡ ok (value, written))
    × (after ≡ record written { active = false })
    × (transaction before ≡ ok tt)

Outcome-Committed :
    {A : Type 0} (body : VaultDatabase → Result (A × VaultDatabase)) (before : VaultDatabase)
    (r : Result A × VaultDatabase) (value : A)
    → Outcome body before r
    → r.0 ≡ ok value
    → Committed body before value r.1
Outcome-Committed body before _ value (kept v written admitted owned ran) h =
    (written, ran ∙ ap (λ x. ok (x, written)) (ok-injective h), refl, admitted)
Outcome-Committed body before _ value (undone failure after same open_state kept_lease) h = cc

pub in_transaction-Committed :
    {A : Type 0} (faults : Faults) (body : VaultDatabase → Result (A × VaultDatabase))
    (before : VaultDatabase) (value : A)
    → (in_transaction faults body before).0 ≡ ok value
    → Committed body before value (in_transaction faults body before).1
in_transaction-Committed faults body before value h =
    Outcome-Committed body before (in_transaction faults body before) value
      (in_transaction-Outcome faults body before) h

-- With every control statement working, an admitted unit commits what its body wrote.
pub in_transaction-returns :
    {A : Type 0} (body : VaultDatabase → Result (A × VaultDatabase))
    (before written : VaultDatabase) (value : A)
    → transaction before ≡ ok tt
    → verify_writer_ownership before ≡ ok tt
    → body (record before { active = true }) ≡ ok (value, written)
    → in_transaction no_faults body before ≡ (ok value, record written { active = false })
unfolding in_transaction begin enter finish
in_transaction-returns body before written value admitted owned ran = rw (admitted, owned, ran)

-- An admitted unit starts on a connection that is trusted.
pub transaction-trusted :
    (db : VaultDatabase) → transaction db ≡ ok tt → require_trusted_connection db ≡ ok tt
unfolding transaction
transaction-trusted db h = (>>-eq-ok (require_trusted_connection db) _ h).0
