-- ===== src/Vault/Lasting.antt =====
-- vault/store.py: how long a lease stays in the durable row.
use dbf_anonymizer.Prelude.{
  ℕ, ◌≡◌, refl, ◌∙◌, ap, Bool, false, if-elim, Option, none, some, List, any, Text, ||-false,
}
use dbf_anonymizer.Errors.{Failure, Result}
use dbf_anonymizer.Vault.{VaultDatabase}
use dbf_anonymizer.Vault.Atomicity.{Outcome, kept, undone, in_transaction-Outcome}
use dbf_anonymizer.Vault.Lease.{is_held_by, Checkpoint, close, reported}
use dbf_anonymizer.Vault.Acquired.{
  Acquired, taken, refused, acquire_writer_lease-Acquired, Released, freed, not_freed,
  release_writer_lease-Released, is_held_by-some,
}
use dbf_anonymizer.Vault.Authority.{
  Shared, seen, KeepsAuthority, Step, acquires, releases, writes, closes, opens, Run, start, later,
}

-- the two fields that close leaves alone
reported-keeps :
    (record_failure_only : Bool) (failure : Option Failure) (db : VaultDatabase)
    → ((reported record_failure_only failure db).1.tables ≡ db.tables)
      × ((reported record_failure_only failure db).1.writer_token ≡ db.writer_token)
reported-keeps record_failure_only none db = (refl, refl)
reported-keeps record_failure_only (some failure) db = (refl, refl)

pub close-keeps :
    (checkpoint : Checkpoint) (close_fails record_failure_only : Bool) (db : VaultDatabase)
    → ((close checkpoint close_fails record_failure_only db).1.tables ≡ db.tables)
      × ((close checkpoint close_fails record_failure_only db).1.writer_token ≡ db.writer_token)
unfolding close
close-keeps checkpoint close_fails record_failure_only db =
    if-elim keeps db.closed (refl, refl)
      (if-elim keeps db.read_only (reported-keeps record_failure_only _ db)
        (reported-keeps record_failure_only _ db))
  where
    keeps : Result (Unit {0}) × VaultDatabase → Type 0
    keeps r = (r.1.tables ≡ db.tables) × (r.1.writer_token ≡ db.writer_token)

module _ (token : Text) where
  acquires-keep :
      {owner_token : Text} {before : VaultDatabase} {r : Result ℕ × VaultDatabase}
      → Acquired owner_token before r
      → before.tables.owner_token ≡ some token
      → r.1.tables.owner_token ≡ some token
  acquires-keep (taken after free written bound) held = cc
  acquires-keep (refused failure after same bound) held = ap (λ t. t.owner_token) same ∙ held

  releases-keep :
      {owner_token : Text} {before : VaultDatabase} {r : Result (Unit {0}) × VaultDatabase}
      → Released owner_token before r
      → is_held_by token (some owner_token) ≡ false
      → before.tables.owner_token ≡ some token
      → r.1.tables.owner_token ≡ some token
  releases-keep {owner_token} (freed after free written bound off) other held =
      absurd (cc (other, held, free, is_held_by-some token))
  releases-keep (not_freed failure after same bound) other held =
      ap (λ t. t.owner_token) same ∙ held

  writes-keep :
      {A : Type 0} {body : VaultDatabase → Result (A × VaultDatabase)} {before : VaultDatabase}
      {r : Result A × VaultDatabase}
      → KeepsAuthority body
      → Outcome body before r
      → before.tables.owner_token ≡ some token
      → r.1.tables.owner_token ≡ some token
  writes-keep keeps (kept value written admitted owned ran) held =
      (keeps _ written value ran).0 ∙ held
  writes-keep keeps (undone failure after same open_state bound) held =
      ap (λ t. t.owner_token) same ∙ held

  pub Step-lasts :
      {s t : Shared} {label : Option Text}
      → Step s label t
      → is_held_by token label ≡ false
      → s.durable.owner_token ≡ some token
      → t.durable.owner_token ≡ some token
  Step-lasts {s} (acquires i faults owner_token) other held =
      acquires-keep (acquire_writer_lease-Acquired owner_token (seen s i) faults) held
  Step-lasts {s} (releases i faults owner_token) other held =
      releases-keep (release_writer_lease-Released owner_token (seen s i) faults) other held
  Step-lasts {s} (writes i faults body keeps) other held =
      writes-keep keeps (in_transaction-Outcome faults body (seen s i)) held
  Step-lasts {s} (closes i checkpoint close_fails record_failure_only) other held =
      ap (λ t. t.owner_token) (close-keeps checkpoint close_fails record_failure_only (seen s i)).0
      ∙ held
  Step-lasts (opens i read_only) other held = held

  -- A lease lasts: whatever calls the connections of the file make, on whatever failures of
  -- SQLite's control statements, closed and reopened connections included, the durable row keeps
  -- the token that it holds as long as no call asks to release that token.
  pub owner_token-lasts :
      {s t : Shared} {labels : List (Option Text)}
      → Run s labels t
      → any (is_held_by token) labels ≡ false
      → s.durable.owner_token ≡ some token
      → t.durable.owner_token ≡ some token
  owner_token-lasts start other held = held
  owner_token-lasts (later {label} run step) other held =
      let split = ||-false (is_held_by token label) _ other in
      Step-lasts step split.0 (owner_token-lasts run split.1 held)
