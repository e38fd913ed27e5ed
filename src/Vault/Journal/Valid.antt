-- ===== src/Vault/Journal/Valid.antt =====
-- vault/store.py: the constraints that the rows of the journal meet, and that its calls keep.
use dbf_anonymizer.Prelude.{
  ◌≡◌, refl, ◌∙◌, inl, inr, Bool, true, false, not, Bool-cases, if-elim, Option, List, [], ◌∷◌, any,
  keep, All, All-map, any-keep-false, any-keep-true, Text, text_eq, text_eq→eq, arith,
}
use dbf_anonymizer.Vault.{Operation, Publication, Tables, VaultDatabase}
use dbf_anonymizer.Vault.Journal.Calls.{
  JournalRun, idle, begun, ended, abandoned, published, begin_operation-ok, complete_operation-ok,
  abandon_operation-ok, record_publication-ok,
}
use dbf_anonymizer.Vault.Journal.{
  has_id, has_destination, started_row, is_open, complete_rows, completed_row, of_operation,
}

-- PRIMARY KEY, and the UNIQUE index on the destinations
abbrev pub IsKeyed : List Operation → Type 0
IsKeyed [] = Unit
IsKeyed (row ∷ rows) =
    (any (has_id row.operation_id) rows ≡ false)
    × (any (has_destination row.destination_identity) rows ≡ false)
    × IsKeyed rows

-- FOREIGN KEY (operation_id) REFERENCES operations
abbrev pub Refers : List Operation → Publication → Type 0
Refers rows p = any (has_id p.operation_id) rows ≡ true

abbrev pub IsJournal : Tables → Type 0
IsJournal t = IsKeyed t.operations × All (Refers t.operations) t.publication

-- a test that the completion of a row does not change
complete_rows-any :
    (id : Text) (finished : Operation → Operation) (p : Operation → Bool) (rows : List Operation)
    → ((row : Operation) → p (finished row) ≡ p row)
    → any p (complete_rows id finished rows) ≡ any p rows
unfolding complete_rows
complete_rows-any id finished p [] same = refl
complete_rows-any id finished p (row ∷ rows) same =
    ground (arith, same row, complete_rows-any id finished p rows same)

complete_rows-IsKeyed :
    (id : Text) (output result : Option Text) (now : Text) (rows : List Operation)
    → IsKeyed rows
    → IsKeyed (complete_rows id (completed_row output result now) rows)
unfolding complete_rows
complete_rows-IsKeyed id output result now [] h = tt
complete_rows-IsKeyed id output result now (row ∷ rows) h =
    let rest = complete_rows-IsKeyed id output result now rows h.2 in
    if-elim first (is_open id row)
      (untouched _ (λ r. refl) ∙ h.0, untouched _ (λ r. refl) ∙ h.1, rest)
      (untouched _ (λ r. refl) ∙ h.0, untouched _ (λ r. refl) ∙ h.1, rest)
  where
    finished : Operation → Operation
    finished = completed_row output result now

    first : Operation → Type 0
    first r = IsKeyed (r ∷ complete_rows id finished rows)

    untouched :
        (p : Operation → Bool)
        → ((r : Operation) → p (finished r) ≡ p r)
        → any p (complete_rows id finished rows) ≡ any p rows
    untouched p same = complete_rows-any id finished p rows same

keep-IsKeyed : (q : Operation → Bool) (rows : List Operation) → IsKeyed rows → IsKeyed (keep q rows)
keep-IsKeyed q [] h = tt
keep-IsKeyed q (row ∷ rows) h = elim (Bool-cases (q row)) [
  | inl passes ↦
      rw passes (any-keep-false _ q rows h.0, any-keep-false _ q rows h.1, keep-IsKeyed q rows h.2)
  | inr fails ↦ rw fails (keep-IsKeyed q rows h.2)
]

Refers-cons :
    (row : Operation) (rows : List Operation) (p : Publication)
    → Refers rows p
    → Refers (row ∷ rows) p
Refers-cons row rows p h = ground (arith, h)

other_id : (a b c : Text) → text_eq a b ≡ true → text_eq b c ≡ false → text_eq a c ≡ false
other_id a b c same other = rw (text_eq→eq a b same) other

abandoned-Refers :
    (id : Text) (rows : List Operation) (ps : List Publication)
    → All (Refers rows) ps
    → All
        (Refers (keep (λ row. not (is_open id row)) rows))
        (keep (λ p. not (of_operation id p)) ps)
abandoned-Refers id rows [] h = tt
abandoned-Refers id rows (p ∷ ps) h = elim (Bool-cases (of_operation id p)) [
  | inl own ↦ rw own (abandoned-Refers id rows ps h.1)
  | inr other ↦ rw other (
    any-keep-true (has_id p.operation_id) _ rows
        (λ row. λ same. rw (other_id _ _ id same other) refl) h.0,
    abandoned-Refers id rows ps h.1,
  )
]

-- Whatever calls write the journal, the identifiers and the destinations of the operations stay
-- unique and every publication row goes on referring to an operation.
pub JournalRun-IsJournal :
    {db t : VaultDatabase} → JournalRun db t → IsJournal db.tables → IsJournal t.tables
JournalRun-IsJournal idle valid = valid
JournalRun-IsJournal (begun {m} {t} id is_fresh b now returned run h) valid =
    let did = begin_operation-ok id is_fresh b now returned m t h in
    let was = JournalRun-IsJournal run valid in
    rw did.2 (
      (did.0, did.1, was.0),
      All-map (Refers-cons (started_row id b now) m.tables.operations) m.tables.publication was.1,
    )
JournalRun-IsJournal (ended {m} {t} id output result now run h) valid =
    let was = JournalRun-IsJournal run valid in
    rw (complete_operation-ok id output result now m t h) (
      complete_rows-IsKeyed id output result now m.tables.operations was.0,
      All-map
          (λ p. λ refers.
            complete_rows-any id _ (has_id p.operation_id) m.tables.operations (λ r. refl) ∙ refers)
          m.tables.publication was.1,
    )
JournalRun-IsJournal (abandoned {m} {t} id run h) valid =
    let was = JournalRun-IsJournal run valid in
    rw (abandon_operation-ok id m t h) (
      keep-IsKeyed _ m.tables.operations was.0,
      abandoned-Refers id m.tables.operations m.tables.publication was.1,
    )
JournalRun-IsJournal (published {m} {t} id phase output vault run h) valid =
    let did = record_publication-ok id phase output vault m t h in
    let was = JournalRun-IsJournal run valid in rw did.1 (was.0, (did.0, was.1))
