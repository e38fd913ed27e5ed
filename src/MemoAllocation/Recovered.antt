-- ===== src/MemoAllocation/Recovered.antt =====
-- vault/memo_allocation.py: a masked payload is recoverable.
use dbf_anonymizer.Prelude.{
  ℕ, ◌≡◌, ◌≢◌, refl, sym, ◌∙◌, ap, inl, inr, Bool, true, false, not, ◌&&◌, ◌||◌, Bool-cases, Option,
  none, some, List, find_here, any, ℤ, pos, ltb_ℤ, eqb_ℤ, eqb_ℤ_iff, Text, text_eq, text_eq_refl,
}
use dbf_anonymizer.Errors.{
  value_error, Result, ok, err, ok-injective, >>=-eq-ok, >>-eq-ok, raise_if,
}
use dbf_anonymizer.Values.{Value}
use dbf_anonymizer.Memo.{memo_safe_mask}
use dbf_anonymizer.Vault.{
  VaultDatabase, Faults, Tables, blob_cell, text_cell, in_transaction, validate_token,
  internal_connection, require_active_transaction, require_trusted_connection, vault_state_failure,
}
use dbf_anonymizer.Vault.Atomicity.{in_transaction-Committed, Committed}
use dbf_anonymizer.Vault.Connection.{internal_connection-eq_tables, internal_connection-trusted}
use dbf_anonymizer.Vault.Recovery.{
  Utf8, payload_text, payload_binary, add_memo_recovery, get_memo_recovery, memo_blob,
  with_memo_row, has_identity, has_field, insert_memo_row, fetched_memo,
}
use dbf_anonymizer.MemoAllocation.{
  MemoIdentity, mask_for, store_memo, stored_once, same_payload, kind_of, reuse_or_refuse,
  identity_conflict, persist_memo_recovery, persist_masked, mask_after, recover_memo_value,
}
use dbf_anonymizer.MemoAllocation.Masked.{
  IsPayload, as_stored, memo_safe_mask-ne, memo_safe_mask_value, mask_for-safe,
}
use dbf_anonymizer.MemoAllocation.Stored.{LawOf, Holds, memo_blob-Holds, same_payload-Holds}

conflict_ok :
    {w : VaultDatabase}
    → (let r : Result (Unit {0} × VaultDatabase) = ok (tt, w) in err identity_conflict ≢ r)
conflict_ok h = cc

mask_after-eq :
    (mask w : Value) (r : Result (Unit {0}) × VaultDatabase) (after : VaultDatabase)
    → mask_after mask r ≡ (ok w, after)
    → (r.0 ≡ ok tt) × (r.1 ≡ after) × (mask ≡ w)
mask_after-eq mask w (err failure, db) after h = cc
mask_after-eq mask w (ok tt, db) after h = (refl, ap (λ x. x.1) h, ok-injective (ap (λ x. x.0) h))

has_identity_refl :
    (t : Text) (i : ℤ) (f : Text) → (text_eq t t && (eqb_ℤ i i && text_eq f f)) ≡ true
has_identity_refl t i f = rw (text_eq_refl t, (eqb_ℤ_iff i i).1 refl, text_eq_refl f)

insert_memo_row-eq :
    (t : Text) (i : ℤ) (f : Text) (blob : List ℕ) (kind : Text) (db : VaultDatabase)
    (tables : Tables) (r : Unit {0} × VaultDatabase)
    → insert_memo_row t i f blob kind db tables ≡ ok r
    → r.1 ≡ record db { tables = with_memo_row t i f blob kind tables }
insert_memo_row-eq t i f blob kind db tables r h =
    let s =
      >>-eq-ok
        (raise_if
          (any (has_identity t i f) tables.memo_recovery || not (has_field f t tables.fields))
          (vault_state_failure "MEMO_ROW_REJECTED"))
        _ h in
    sym (ap (λ x. x.1) (ok-injective s.1))

memo_row_found :
    (t : Text) (i : ℤ) (f : Text) (blob : List ℕ) (kind : Text) (db : VaultDatabase)
    (tables : Tables)
    → validate_token t ≡ ok tt
    → validate_token f ≡ ok tt
    → raise_if (ltb_ℤ i (pos 0)) value_error ≡ ok tt
    → require_trusted_connection db ≡ ok tt
    → get_memo_recovery (record db { tables = with_memo_row t i f blob kind tables }) t i f
      ≡ ok (some (blob, kind))
unfolding get_memo_recovery fetched_memo require_trusted_connection
memo_row_found t i f blob kind db tables is_t is_f is_i trusted =
    let after : VaultDatabase = record db { tables = with_memo_row t i f blob kind tables } in
    let row =
      find_here (has_identity t i f)
        (record {
          table_id = t;
          physical_record_index = i;
          field_id = f;
          original_payload = blob_cell blob;
          payload_kind = text_cell kind;
        })
        tables.memo_recovery (has_identity_refl t i f) in
    rw (is_t, is_f, is_i, internal_connection-trusted after trusted, row)

-- A memo row that was stored is found again, with its blob and kind.
add_memo_recovery-get :
    (utf8 : Utf8) (t : Text) (i : ℤ) (f : Text) (value : Value) (kind : Text) (db : VaultDatabase)
    (r : Unit {0} × VaultDatabase)
    → add_memo_recovery utf8 t i f value kind db ≡ ok r
    → (blob : List ℕ) × (memo_blob utf8 kind value ≡ ok blob)
      × (get_memo_recovery r.1 t i f ≡ ok (some (blob, kind)))
unfolding add_memo_recovery
add_memo_recovery-get utf8 t i f value kind db r h =
    let s1 = >>-eq-ok (require_active_transaction db) _ h in
    let s2 = >>-eq-ok (validate_token t) _ s1.1 in
    let s3 = >>-eq-ok (validate_token f) _ s2.1 in
    let s4 =
      >>-eq-ok
        (raise_if (not (text_eq kind payload_text || text_eq kind payload_binary)) value_error) _
        s3.1 in
    let s5 = >>-eq-ok (raise_if (ltb_ℤ i (pos 0)) value_error) _ s4.1 in
    let s6 = >>=-eq-ok (memo_blob utf8 kind value) _ s5.1 in
    let s7 = >>=-eq-ok (internal_connection db) (insert_memo_row t i f s6.0 kind db) s6.2 in
    let conn = internal_connection-eq_tables db s7.0 s7.1 in
    let is_after : r.1 ≡ record db { tables = with_memo_row t i f s6.0 kind s7.0 } =
      insert_memo_row-eq t i f s6.0 kind db s7.0 r s7.2 in
    let found = memo_row_found t i f s6.0 kind db s7.0 s2.0 s3.0 s5.0 conn.0 in
    (s6.0, s6.1, ap (λ x. get_memo_recovery x t i f) is_after ∙ found)

-- the row does not depend on the transaction
recover-active :
    (decode : List ℕ → Option Text) (key : MemoIdentity) (db : VaultDatabase) (active : Bool)
    → recover_memo_value decode key (record db { active = active })
      ≡ recover_memo_value decode key db
unfolding recover_memo_value get_memo_recovery internal_connection require_trusted_connection
recover-active decode key db active = refl

module _ (utf8 : Utf8) (decode : List ℕ → Option Text) (law : LawOf utf8 decode)
    (key : MemoIdentity) (value : Value) (payload : IsPayload value) where
  abbrev get_row : VaultDatabase → Result (Option (List ℕ × Text))
  get_row db = get_memo_recovery db key.table_id key.physical_record_index key.field_id

  row-recovered :
      (db : VaultDatabase) (row : List ℕ × Text)
      → get_row db ≡ ok (some row)
      → Holds decode value row
      → recover_memo_value decode key db ≡ ok (some (as_stored value))
  unfolding recover_memo_value
  row-recovered db row there holds = rw there holds

  stored_once-recovered :
      (db written : VaultDatabase) (existing : Option (List ℕ × Text))
      → get_row db ≡ ok existing
      → stored_once utf8 key value db existing ≡ ok (tt, written)
      → recover_memo_value decode key written ≡ ok (some (as_stored value))
  stored_once-recovered db written none there h =
      let added =
        add_memo_recovery-get utf8 key.table_id key.physical_record_index key.field_id value
          (kind_of value) db (tt, written) h in
      row-recovered written (added.0, kind_of value) added.2
        (memo_blob-Holds utf8 decode law value added.0 payload added.1)
  stored_once-recovered db written (some (stored, kind)) there h =
      let s = >>=-eq-ok (same_payload utf8 value (stored, kind)) (reuse_or_refuse db) h in
      elim (Bool-cases s.0) [
        | inl same ↦
            let q : ok (tt, db) ≡ ok (tt, written) = ap (reuse_or_refuse db) (sym same) ∙ s.2 in
            let unchanged : db ≡ written = ap (λ r. r.1) (ok-injective q) in
            row-recovered written (stored, kind) (ap get_row (sym unchanged) ∙ there)
              (same_payload-Holds utf8 decode law value stored kind payload (s.1 ∙ ap ok same))
        | inr differs ↦
            let q : err identity_conflict ≡ ok (tt, written) =
              ap (reuse_or_refuse db) (sym differs) ∙ s.2 in
            absurd (conflict_ok {w = written} q)
      ]

  Committed-recovered :
      (db after : VaultDatabase)
      → Committed (store_memo utf8 key value) db tt after
      → recover_memo_value decode key after ≡ ok (some (as_stored value))
  unfolding store_memo
  Committed-recovered db after (written, ran, is_after, _) =
      let begun : VaultDatabase = record db { active = true } in
      let s = >>=-eq-ok (get_row begun) (stored_once utf8 key value begun) ran in
      ap (recover_memo_value decode key) is_after
      ∙ recover-active decode key written false
      ∙ stored_once-recovered begun written s.0 s.1 s.2

  unit-Committed :
      (faults : Faults) (db after : VaultDatabase) (mask w : Value)
      → mask_after mask (in_transaction faults (store_memo utf8 key value) db) ≡ (ok w, after)
      → Committed (store_memo utf8 key value) db tt after × (mask ≡ w)
  unit-Committed faults db after mask w h =
      let unit = in_transaction faults (store_memo utf8 key value) db in
      let m = mask_after-eq mask w unit after h in
      let c = in_transaction-Committed faults (store_memo utf8 key value) db tt m.0 in
      ((c.0, c.1, sym m.1 ∙ c.2, c.3), m.2)

  masked-Committed :
      (faults : Faults) (db after : VaultDatabase) (r : Result Value) (mask : Value)
      → ((m : Value) → r ≡ ok m → memo_safe_mask value ≡ ok m)
      → persist_masked utf8 faults key value db r ≡ (ok mask, after)
      → Committed (store_memo utf8 key value) db tt after × (memo_safe_mask value ≡ ok mask)
  masked-Committed faults db after (err failure) mask safe h = cc
  masked-Committed faults db after (ok m) mask safe h =
      let is_safe = safe m refl in
      let there = memo_safe_mask_value value m payload is_safe in
      let u = unit-Committed faults db after m mask (sym (rw there) ∙ h) in
      (u.0, is_safe ∙ ap ok u.1)

  -- Store, then mask: for every payload that `persist_memo_recovery` masked, whatever fails in
  -- SQLite, the vault gives the payload back under its identity (bytes for a bytearray), also where
  -- an earlier run had stored it, and the mask is a different object. UTF-8 must decode what it
  -- encodes.
  pub persist_memo_recovery-recovered :
      (faults : Faults) (dbf_type : Text) (db after : VaultDatabase) (mask : Value)
      → persist_memo_recovery utf8 faults key dbf_type value db ≡ (ok mask, after)
      → (recover_memo_value decode key after ≡ ok (some (as_stored value)))
        × (mask ≢ as_stored value)
  unfolding persist_memo_recovery
  persist_memo_recovery-recovered faults dbf_type db after mask h =
      let c =
        masked-Committed faults db after (mask_for dbf_type value) mask
          (λ m is_mask. mask_for-safe dbf_type value m payload is_mask) h in
      (Committed-recovered db after c.0, memo_safe_mask-ne value mask payload c.1)
