-- ===== src/Vault/Acquired.antt =====
-- vault/store.py: acquire_writer_lease and release_writer_lease on all their branches.
use dbf_anonymizer.Prelude.{
  ℕ, ◌+◌, ◌≡◌, ◌≢◌, refl, ap, inl, inr, true, false, Bool-cases, Option, none, some, Text,
  text_eq→eq, text_eq_refl,
}
use dbf_anonymizer.Errors.{Failure, Result, ok, err, ◌>>=◌}
use dbf_anonymizer.Vault.{Tables, VaultDatabase, Faults, finish}
use dbf_anonymizer.Vault.Lease.{
  system_transaction, system_begin, in_system_transaction, take_lease, acquire, is_held_by, release,
  may_acquire, may_release, bound, acquired, acquire_writer_lease, unbound, released,
  release_writer_lease,
}

-- What a system transaction comes to.
data SystemOutcome {A : Type 0} (body : Tables → Result (A × Tables)) (before : VaultDatabase)
    : Result A × VaultDatabase → Type 0 where
  stored :
      (value : A) (tables : Tables)
      → body before.tables ≡ ok (value, tables)
      → SystemOutcome body before (ok value, record before { tables = tables; active = false })
  undone :
      (failure : Failure) (after : VaultDatabase)
      → after.tables ≡ before.tables
      → after.writer_token ≡ before.writer_token
      → SystemOutcome body before (err failure, after)

module _ {A : Type 0} (faults : Faults) (body : Tables → Result (A × Tables))
    (before : VaultDatabase) where
  finish-SystemOutcome :
      (r : Result (A × Tables))
      → body before.tables ≡ r
      → SystemOutcome body before (
          finish faults before
            (r >>= (λ written. ok (written.0, record before { tables = written.1 }))))
  unfolding finish
  finish-SystemOutcome (err failure) ran = undone failure _ refl refl
  finish-SystemOutcome (ok (value, tables)) ran = elim (Bool-cases faults.commit_fails) [
    | inl failed ↦ rw failed (undone _ _ refl refl)
    | inr committed ↦ rw committed (stored value tables ran)
  ]

  begin-SystemOutcome :
      (r : Result (Unit {0})) → SystemOutcome body before (system_begin faults body before r)
  unfolding finish
  begin-SystemOutcome (err failure) = undone failure before refl refl
  begin-SystemOutcome (ok _) = elim (Bool-cases faults.begin_fails) [
    | inl failed ↦ rw failed (undone _ before refl refl)
    | inr begun ↦ rw begun (finish-SystemOutcome (body before.tables) refl)
  ]

  in_system_transaction-SystemOutcome :
      SystemOutcome body before (in_system_transaction faults body before)
  unfolding in_system_transaction
  in_system_transaction-SystemOutcome = begin-SystemOutcome (system_transaction before)

-- What acquiring a lease comes to: the free lease is taken, or nothing changes.
pub data Acquired (owner_token : Text) (before : VaultDatabase)
    : Result ℕ × VaultDatabase → Type 0 where
  taken :
      (after : VaultDatabase)
      → before.tables.owner_token ≡ none
      → after.tables ≡ record before.tables {
        owner_token = some owner_token;
        acquire_tick = before.tables.acquire_tick + 1;
      }
      → after.writer_token ≡ some owner_token
      → Acquired owner_token before (ok (before.tables.acquire_tick + 1), after)
  refused :
      (failure : Failure) (after : VaultDatabase)
      → after.tables ≡ before.tables
      → after.writer_token ≡ before.writer_token
      → Acquired owner_token before (err failure, after)

take_lease-ok :
    (owner_token : Text) (holder : Option Text) (before written : Tables) (tick : ℕ)
    → take_lease owner_token holder before ≡ ok (tick, written)
    → (holder ≡ none)
      × (tick ≡ before.acquire_tick + 1)
      × (written ≡ record before {
        owner_token = some owner_token;
        acquire_tick = before.acquire_tick + 1;
      })
take_lease-ok owner_token none before written tick h = (refl, cc, cc)
take_lease-ok owner_token (some holder) before written tick h = cc

module _ (owner_token : Text) (before : VaultDatabase) where
  bound-Acquired :
      (r : Result ℕ × VaultDatabase)
      → SystemOutcome (acquire owner_token) before r
      → Acquired owner_token before (bound owner_token r)
  bound-Acquired _ (undone failure after same kept) = refused failure after same kept
  bound-Acquired _ (stored tick tables ran) =
      let s = take_lease-ok owner_token before.tables.owner_token before.tables tables tick ran in
      rw s.1 (taken _ s.0 s.2 refl)

  acquired-Acquired :
      (faults : Faults) (r : Result (Unit {0}))
      → Acquired owner_token before (acquired faults owner_token before r)
  acquired-Acquired faults (err failure) = refused failure before refl refl
  acquired-Acquired faults (ok _) =
      bound-Acquired _ (in_system_transaction-SystemOutcome faults (acquire owner_token) before)

  -- Acquiring the writer lease, whichever of SQLite's control statements fail: either it was free,
  -- and now stands in the durable row with the next tick, which is returned, and is bound to this
  -- connection; or the call raises and neither the tables nor the bound lease have changed.
  pub acquire_writer_lease-Acquired :
      (faults : Faults)
      → Acquired owner_token before (acquire_writer_lease faults owner_token before)
  unfolding acquire_writer_lease
  acquire_writer_lease-Acquired faults = acquired-Acquired faults (may_acquire owner_token before)

-- What releasing a lease comes to: the holder's lease is free, or nothing changes.
pub data Released (owner_token : Text) (before : VaultDatabase)
    : Result (Unit {0}) × VaultDatabase → Type 0 where
  freed :
      (after : VaultDatabase)
      → before.tables.owner_token ≡ some owner_token
      → after.tables ≡ record before.tables { owner_token = none }
      → ((token : Text) → after.writer_token ≡ some token → before.writer_token ≡ some token)
      → after.writer_token ≢ some owner_token
      → Released owner_token before (ok tt, after)
  not_freed :
      (failure : Failure) (after : VaultDatabase)
      → after.tables ≡ before.tables
      → after.writer_token ≡ before.writer_token
      → Released owner_token before (err failure, after)

pub is_held_by-eq_true :
    (owner_token : Text) (holder : Option Text)
    → is_held_by owner_token holder ≡ true
    → holder ≡ some owner_token
is_held_by-eq_true owner_token none h = cc
is_held_by-eq_true owner_token (some holder) h = ap some (text_eq→eq holder owner_token h)

pub is_held_by-some : (token : Text) → is_held_by token (some token) ≡ true
is_held_by-some token = text_eq_refl token

release-ok :
    (owner_token : Text) (before written : Tables) (value : Unit)
    → release owner_token before ≡ ok (value, written)
    → (before.owner_token ≡ some owner_token) × (written ≡ record before { owner_token = none })
release-ok owner_token before written value h =
    elim (Bool-cases (is_held_by owner_token before.owner_token)) [
      | inl held ↦ (is_held_by-eq_true owner_token before.owner_token held, cc)
      | inr other ↦ cc
    ]

module _ (owner_token : Text) (before : VaultDatabase) where
  unbound-Released :
      (r : Result (Unit {0}) × VaultDatabase)
      → SystemOutcome (release owner_token) before r
      → Released owner_token before (unbound owner_token r)
  unbound-Released _ (undone failure after same kept) = not_freed failure after same kept
  unbound-Released _ (stored value tables ran) =
      let s = release-ok owner_token before.tables tables value ran in
      elim (Bool-cases (is_held_by owner_token before.writer_token)) [
        | inl bound_here ↦ rw bound_here (freed _ s.0 s.1 (λ token. λ h. cc) (λ h. cc))
        | inr elsewhere ↦ rw elsewhere (
            freed _ s.0 s.1 (λ token. λ h. h) (λ h. cc (elsewhere, h, is_held_by-some owner_token)))
      ]

  released-Released :
      (faults : Faults) (r : Result (Unit {0}))
      → Released owner_token before (released faults owner_token before r)
  released-Released faults (err failure) = not_freed failure before refl refl
  released-Released faults (ok _) =
      unbound-Released _ (in_system_transaction-SystemOutcome faults (release owner_token) before)

  -- Releasing a writer lease, whichever of SQLite's control statements fail: either the durable row
  -- held that very token, and now holds none, and this connection is not bound to it any more; or
  -- the call raises and neither the tables nor the bound lease have changed.
  pub release_writer_lease-Released :
      (faults : Faults)
      → Released owner_token before (release_writer_lease faults owner_token before)
  unfolding release_writer_lease
  release_writer_lease-Released faults = released-Released faults (may_release owner_token before)
