-- ===== src/Checks/AuthorityChecks.antt =====
-- Runs of several connections and of the operation journal, and the theorems for them.
use dbf_anonymizer.Prelude.{
  ℕ, zero, suc, ◌≡◌, ◌≢◌, refl, false, true, none-some, none, some, [], ◌∷◌, Text, codes, find,
}
use dbf_anonymizer.Errors.{Result, ok}
use dbf_anonymizer.Vault.{
  VaultDatabase, Operation, no_faults, in_transaction, verify_writer_ownership,
}
use dbf_anonymizer.Vault.Lease.{acquire_writer_lease, release_writer_lease, truncated, close}
use dbf_anonymizer.Vault.Journal.{
  Binding, begin_operation, complete_operation, operation_record, record_publication, started_row,
  completed_row,
}
use dbf_anonymizer.Vault.Authority.{
  Shared, seen, put, opened, KeepsAuthority, acquires, releases, writes, closes, start, later,
}
use dbf_anonymizer.Vault.Lasting.{owner_token-lasts}
use dbf_anonymizer.Vault.SingleWriter.{single_writer}
use dbf_anonymizer.Vault.Journal.Calls.{idle, begun, published, begin_operation-ok}
use dbf_anonymizer.Vault.Journal.Valid.{IsJournal, JournalRun-IsJournal}
use dbf_anonymizer.Vault.Journal.Final.{operation_record-final}
use native.Mathlib.Decide.{ℕ_discrete}
use dbf_anonymizer.Checks.VaultChecks.{a_vault, some_tables}

abbrev no_binding : Binding
no_binding = record {
  source_fingerprint = none;
  policy_fingerprint = none;
  relationship_fingerprint = none;
  vault_fingerprint = none;
  destination_identity = some (codes "dest");
  binding_fingerprint = none;
}

abbrev begins : VaultDatabase → Result (Text × VaultDatabase)
begins = begin_operation (codes "vop-1") false no_binding (codes "now")

begins-KeepsAuthority : KeepsAuthority begins
begins-KeepsAuthority db written value h =
    let did =
      begin_operation-ok (codes "vop-1") false no_binding (codes "now") value db written h in
    rw did.2 (refl, refl)

-- connection 0 holds the lease, the others are new
abbrev held : Shared
held = record {
  durable = some_tables;
  connections = λ j. elim j [ zero ↦ a_vault | suc k ↦ opened false some_tables ];
}

abbrev after_acquire : Shared
after_acquire = put held 1 (acquire_writer_lease no_faults (codes "wauth-2") (seen held 1)).1

abbrev after_write : Shared
after_write = put after_acquire 0 (in_transaction no_faults begins (seen after_acquire 0)).1

abbrev after_release : Shared
after_release =
    put after_write 1 (release_writer_lease no_faults (codes "wauth-3") (seen after_write 1)).1

owner_token-lasts_example :
    (put after_release 0 (close truncated false false (seen after_release 0)).1).durable.owner_token
    ≡ some (codes "wauth-1")
owner_token-lasts_example =
    owner_token-lasts (codes "wauth-1") {s = held}
      (later
        (later
          (later (later start (acquires 1 no_faults (codes "wauth-2")))
            (writes 0 no_faults begins begins-KeepsAuthority))
          (releases 1 no_faults (codes "wauth-3")))
        (closes 0 truncated false false))
      refl refl

abbrev free : Shared
free = record {
  durable = record some_tables { owner_token = none };
  connections = λ j. opened false some_tables;
}

-- connection 0 acquires, and 1 is refused while 0 writes
abbrev taken : Shared
taken = put free 0 (acquire_writer_lease no_faults (codes "wauth-2") (seen free 0)).1

abbrev rivalled : Shared
rivalled = put taken 1 (acquire_writer_lease no_faults (codes "wauth-3") (seen taken 1)).1

abbrev written : Shared
written = put rivalled 0 (in_transaction no_faults begins (seen rivalled 0)).1

acquired : (acquire_writer_lease no_faults (codes "wauth-2") (seen free 0)).0 ≡ ok 2
unfolding acquire_writer_lease
acquired = refl

still_owns : verify_writer_ownership (seen written 0) ≡ ok tt
unfolding acquire_writer_lease verify_writer_ownership ℕ_discrete in_transaction begin_operation
still_owns = refl

single_writer_example :
    (◌≡◌ {A = ℕ} 0 0)
    × ((acquire_writer_lease no_faults (codes "wauth-4") (seen written 1)).0 ≢ ok 3)
single_writer_example =
    single_writer free 0 0 1 no_faults no_faults (codes "wauth-2") (codes "wauth-4") 2 3
      (λ l h. none-some h) acquired
      (later (later start (acquires 1 no_faults (codes "wauth-3")))
        (writes 0 no_faults begins begins-KeepsAuthority))
      refl still_owns

abbrev active_vault : VaultDatabase
active_vault = record a_vault { active = true }

abbrev begun_vault : VaultDatabase
begun_vault = record active_vault {
  tables = record some_tables {
    operations = started_row (codes "vop-1") no_binding (codes "now") ∷ [];
  };
}

abbrev done_row : Operation
done_row =
    completed_row (some (codes "fp")) none (codes "later")
      (started_row (codes "vop-1") no_binding (codes "now"))

abbrev done_vault : VaultDatabase
done_vault = record active_vault { tables = record some_tables { operations = done_row ∷ [] } }

abbrev published_vault : VaultDatabase
published_vault = record begun_vault {
  tables = record begun_vault.tables {
    publication =
        record {
          operation_id = codes "vop-1";
          phase = codes "STAGED";
          output_fingerprint = none;
          vault_fingerprint = none;
        }
        ∷ [];
  };
}

begins-ok : begins active_vault ≡ ok (codes "vop-1", begun_vault)
unfolding begin_operation
begins-ok = refl

publishes-ok :
    record_publication (codes "vop-1") (codes "STAGED") none none begun_vault
    ≡ ok (tt, published_vault)
unfolding record_publication
publishes-ok = refl

completes-ok :
    complete_operation (codes "vop-1") (some (codes "fp")) none (codes "later") begun_vault
    ≡ ok (tt, done_vault)
unfolding complete_operation
completes-ok = refl

JournalRun-IsJournal_example : IsJournal published_vault.tables
JournalRun-IsJournal_example =
    JournalRun-IsJournal
      (published (codes "vop-1") (codes "STAGED") none none
        (begun (codes "vop-1") false no_binding (codes "now") (codes "vop-1") idle begins-ok)
        publishes-ok)
      (tt, tt)

abbrev next_vault : VaultDatabase
next_vault = record done_vault {
  tables = record some_tables {
    operations =
        started_row (codes "vop-2") (record no_binding { destination_identity = none })
          (codes "now")
        ∷ done_row
        ∷ [];
  };
}

begins_next-ok :
    begin_operation
      (codes "vop-2")
      true
      (record no_binding { destination_identity = none })
      (codes "now")
      done_vault
    ≡ ok (codes "vop-2", next_vault)
unfolding begin_operation
begins_next-ok = refl

operation_record-final_example : operation_record next_vault (codes "vop-1") ≡ ok (some done_row)
unfolding operation_record find
operation_record-final_example = operation_record-final (codes "vop-1") done_row refl refl (
    begun (codes "vop-2") true (record no_binding { destination_identity = none }) (codes "now")
      (codes "vop-2") idle begins_next-ok)
