-- ===== src/Vault/Journal/Final.antt =====
-- vault/store.py: a completed operation is a record for good.
use dbf_anonymizer.Prelude.{
  ◌≡◌, refl, sym, ◌∙◌, ap, inl, inr, Bool, true, false, not, Bool-cases, if-elim, false-true, some,
  List, [], ◌∷◌, any, find, find_here, find_later, keep, Text, text_eq, text_eq→eq, some-injective,
  arith,
}
use dbf_anonymizer.Errors.{ok, ok-injective, >>=-eq-ok}
use dbf_anonymizer.Vault.{
  completed, Operation, VaultDatabase, internal_connection, require_trusted_connection,
}
use dbf_anonymizer.Vault.Connection.{internal_connection-eq_tables, internal_connection-trusted}
use dbf_anonymizer.Vault.Journal.{
  has_id, is_open, complete_rows, operation_record, started_row, completed_row,
}
use dbf_anonymizer.Vault.Journal.Calls.{
  JournalRun, idle, begun, ended, abandoned, published, begin_operation-ok, complete_operation-ok,
  abandon_operation-ok, record_publication-ok,
}

-- Which row an identifier has, where that row is completed.
abbrev IsCompleted : Text → Operation → List Operation → Type 0
IsCompleted id row rows = (find (has_id id) rows ≡ some row) × (row.state ≡ completed)

find-any :
    (p : Operation → Bool) (rows : List Operation) (row : Operation)
    → find p rows ≡ some row
    → any p rows ≡ true
unfolding find
find-any p [] row h = cc
find-any p (x ∷ rows) row h = ground (arith, h, find-any p rows row)

module _ (id : Text) (row : Operation) where
  completed-not_open : (other : Text) → row.state ≡ completed → is_open other row ≡ false
  completed-not_open other h = ground (arith, h)

  -- the update of the started rows does not touch it
  complete_rows-IsCompleted :
      (other : Text) (finished : Operation → Operation)
      → ((r : Operation) → (finished r).operation_id ≡ r.operation_id)
      → (rows : List Operation) → IsCompleted id row rows
      → IsCompleted id row (complete_rows other finished rows)
  unfolding find complete_rows
  complete_rows-IsCompleted other finished same [] h = h
  complete_rows-IsCompleted other finished same (r ∷ rows) h = elim (Bool-cases (has_id id r)) [
    | inl here ↦
        let same_row = some-injective (sym (find_here (has_id id) r rows here) ∙ h.0) in
        let not_open = ap (is_open other) same_row ∙ completed-not_open other h.1 in
        (rw (not_open, here) (ap some same_row), h.1)
    | inr later ↦
        let rest =
          complete_rows-IsCompleted other finished same rows
            (sym (find_later (has_id id) r rows later) ∙ h.0, h.1) in
        (
          if-elim (λ x. find (has_id id) (x ∷ complete_rows other finished rows) ≡ some row)
              (is_open other r)
              (find_later (has_id id) (finished r) _ (ap (λ o. text_eq o id) (same r) ∙ later)
                ∙ rest.0)
              (find_later (has_id id) r _ later ∙ rest.0),
          h.1,
        )
  ]

  -- nor does the removal of a started one
  keep-IsCompleted :
      (other : Text) (rows : List Operation)
      → IsCompleted id row rows
      → IsCompleted id row (keep (λ r. not (is_open other r)) rows)
  keep-IsCompleted other [] h = h
  keep-IsCompleted other (r ∷ rows) h = elim (Bool-cases (has_id id r)) [
    | inl here ↦
        let same_row = some-injective (sym (find_here (has_id id) r rows here) ∙ h.0) in
        let not_open = ap (is_open other) same_row ∙ completed-not_open other h.1 in
        (rw not_open (find_here (has_id id) r _ here ∙ ap some same_row), h.1)
    | inr later ↦
        let rest =
          keep-IsCompleted other rows (sym (find_later (has_id id) r rows later) ∙ h.0, h.1) in
        (
          if-elim (λ xs. find (has_id id) xs ≡ some row) (not (is_open other r))
              (find_later (has_id id) r _ later ∙ rest.0) rest.0,
          h.1,
        )
  ]

  -- a new identifier is another one
  cons-IsCompleted :
      (r : Operation) (rows : List Operation)
      → any (has_id r.operation_id) rows ≡ false
      → IsCompleted id row rows
      → IsCompleted id row (r ∷ rows)
  cons-IsCompleted r rows free h = elim (Bool-cases (has_id id r)) [
    | inl same ↦ absurd (
        false-true
          (sym free ∙ rw (text_eq→eq r.operation_id id same) (find-any (has_id id) rows row h.0)))
    | inr other ↦ (find_later (has_id id) r rows other ∙ h.0, h.1)
  ]

  JournalRun-IsCompleted :
      {db t : VaultDatabase}
      → JournalRun db t
      → IsCompleted id row db.tables.operations
      → IsCompleted id row t.tables.operations
  JournalRun-IsCompleted idle h = h
  JournalRun-IsCompleted (begun {m} {t} new is_fresh b now returned run ok_t) h =
      let did = begin_operation-ok new is_fresh b now returned m t ok_t in
      rw did.2 (
        cons-IsCompleted (started_row new b now) m.tables.operations did.0
          (JournalRun-IsCompleted run h))
  JournalRun-IsCompleted (ended {m} {t} other output result now run ok_t) h =
      rw (complete_operation-ok other output result now m t ok_t) (
        complete_rows-IsCompleted other (completed_row output result now) (λ r. refl)
          m.tables.operations (JournalRun-IsCompleted run h))
  JournalRun-IsCompleted (abandoned {m} {t} other run ok_t) h =
      rw (abandon_operation-ok other m t ok_t)
        (keep-IsCompleted other m.tables.operations (JournalRun-IsCompleted run h))
  JournalRun-IsCompleted (published {m} {t} other phase output vault run ok_t) h =
      rw (record_publication-ok other phase output vault m t ok_t).1 (JournalRun-IsCompleted run h)

-- the calls run on one connection
JournalRun-trusted :
    {db t : VaultDatabase}
    → JournalRun db t
    → require_trusted_connection db ≡ ok tt
    → require_trusted_connection t ≡ ok tt
unfolding require_trusted_connection
JournalRun-trusted idle h = h
JournalRun-trusted (begun {m} {t} new is_fresh b now returned run ok_t) h =
    rw (begin_operation-ok new is_fresh b now returned m t ok_t).2 (JournalRun-trusted run h)
JournalRun-trusted (ended {m} {t} other output result now run ok_t) h =
    rw (complete_operation-ok other output result now m t ok_t) (JournalRun-trusted run h)
JournalRun-trusted (abandoned {m} {t} other run ok_t) h =
    rw (abandon_operation-ok other m t ok_t) (JournalRun-trusted run h)
JournalRun-trusted (published {m} {t} other phase output vault run ok_t) h =
    rw (record_publication-ok other phase output vault m t ok_t).1 (JournalRun-trusted run h)

-- Completion is final: whatever calls write the journal, the record of a completed operation is
-- read back as it was, column for column.
pub operation_record-final :
    {db t : VaultDatabase} (id : Text) (row : Operation)
    → operation_record db id ≡ ok (some row)
    → row.state ≡ completed
    → JournalRun db t
    → operation_record t id ≡ ok (some row)
unfolding operation_record
operation_record-final {db} {t} id row h done run =
    let read = >>=-eq-ok (internal_connection db) _ h in
    let seen_db = internal_connection-eq_tables db read.0 read.1 in
    let was = ap (λ x. find (has_id id) x.operations) seen_db.1 ∙ ok-injective read.2 in
    rw (internal_connection-trusted t (JournalRun-trusted run seen_db.0))
      (ap ok (JournalRun-IsCompleted id row run (was, done)).0)
