-- ===== src/Vault/Authority.antt =====
-- vault/store.py: several connections, each its own `VaultDatabase`, over one dictionary file. A
-- connection sees the committed tables, and its failing control statements are any.
use dbf_anonymizer.Prelude.{ℕ, ◌≡◌, Bool, false, Option, none, some, List, [], ◌∷◌, Text}
use dbf_anonymizer.Errors.{Result, ok}
use dbf_anonymizer.Vault.{Tables, VaultDatabase, Faults, in_transaction}
use dbf_anonymizer.Vault.Lease.{acquire_writer_lease, release_writer_lease, Checkpoint, close}
use mathlib.Core.Logic.{ite}
use native.Mathlib.Decide.{ℕ_discrete}

-- the committed tables, and the connections by their numbers
pub record Shared : Type 0 where
  pub durable : Tables
  pub connections : ℕ → VaultDatabase

-- the connection with what it reads
abbrev pub seen : Shared → ℕ → VaultDatabase
seen s i = record (s.connections i) { tables = s.durable }

abbrev pub put : Shared → ℕ → VaultDatabase → Shared
put s i db = record {
  durable = db.tables;
  connections = λ j. ite (ℕ_discrete i j) db (s.connections j);
}

-- the instance that `open` and `open_reader` make
abbrev pub opened : Bool → Tables → VaultDatabase
opened read_only tables = record {
  tables = tables;
  closed = false;
  poisoned = false;
  read_only = read_only;
  writer_token = none;
  active = false;
  cleanup_failure = none;
}

-- An ordinary unit writes rows of the dictionary, but not the writer's authority.
abbrev pub KeepsAuthority : {A : Type 0} → (VaultDatabase → Result (A × VaultDatabase)) → Type 0
KeepsAuthority {A} body =
    (db written : VaultDatabase) (value : A)
    → body db ≡ ok (value, written)
    → (written.tables.owner_token ≡ db.tables.owner_token)
      × (written.writer_token ≡ db.writer_token)

-- One call on one connection, labelled by the lease that it asks to release. The token of an
-- acquisition is any. Opening anew stands for a crash as well.
pub data Step (s : Shared) : Option Text → Shared → Type 1 where
  acquires :
      (i : ℕ) (faults : Faults) (owner_token : Text)
      → Step s none (put s i (acquire_writer_lease faults owner_token (seen s i)).1)
  releases :
      (i : ℕ) (faults : Faults) (owner_token : Text)
      → Step s (some owner_token) (put s i (release_writer_lease faults owner_token (seen s i)).1)
  writes :
      {A : Type 0} (i : ℕ) (faults : Faults) (body : VaultDatabase → Result (A × VaultDatabase))
      → KeepsAuthority body
      → Step s none (put s i (in_transaction faults body (seen s i)).1)
  closes :
      (i : ℕ) (checkpoint : Checkpoint) (close_fails record_failure_only : Bool)
      → Step s none (put s i (close checkpoint close_fails record_failure_only (seen s i)).1)
  opens : (i : ℕ) (read_only : Bool) → Step s none (put s i (opened read_only s.durable))

-- Calls one after another, the latest label first.
pub data Run (s : Shared) : List (Option Text) → Shared → Type 1 where
  start : Run s [] s
  later :
      {labels : List (Option Text)} {label : Option Text} {m t : Shared}
      → Run s labels m
      → Step m label t
      → Run s (label ∷ labels) t
