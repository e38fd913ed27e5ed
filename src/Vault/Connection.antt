-- ===== src/Vault/Connection.antt =====
-- vault/store.py: what the reads of `_internal_connection` see.
use dbf_anonymizer.Prelude.{◌≡◌}
use dbf_anonymizer.Errors.{ok, ok-injective, >>-eq-ok}
use dbf_anonymizer.Vault.{Tables, VaultDatabase, require_trusted_connection, internal_connection}

pub internal_connection-eq_tables :
    (db : VaultDatabase) (tables : Tables)
    → internal_connection db ≡ ok tables
    → (require_trusted_connection db ≡ ok tt) × (db.tables ≡ tables)
unfolding internal_connection
internal_connection-eq_tables db tables h =
    let s = >>-eq-ok (require_trusted_connection db) (ok db.tables) h in (s.0, ok-injective s.1)

pub internal_connection-trusted :
    (db : VaultDatabase)
    → require_trusted_connection db ≡ ok tt
    → internal_connection db ≡ ok db.tables
unfolding internal_connection
internal_connection-trusted db h = rw h
