-- ===== src/Engine/Spool.antt =====
-- engine/state.py: the numeric observations and the relation evidence of PassOneSpool. A row waits in
-- a bounded buffer until the batch is full or the spool is flushed. Text observations, the lifetime of
-- the file and the high-water marks are not modelled.
use dbf_anonymizer.Prelude.{
  ℕ, ◌+◌, Bool, not, ◌&&◌, List, [], ◌∷◌, ◌++◌, if◌then◌else◌, ltb, length, keep, Text, text_eq,
}
use dbf_anonymizer.Vault.Mappings.{text_lt}

-- MAX_SQL_BATCH
abbrev pub max_sql_batch : ℕ
max_sql_batch = 512

pub record NumericObservation : Type 0 where
  pub domain_id : Text
  pub canonical : Text

pub record RelationKey : Type 0 where
  pub side : Text
  pub relation_id : Text
  pub role : Text
  pub canonical : List ℕ
  pub occurrences : ℕ

pub record SideFacts : Type 0 where
  pub side : Text
  pub relation_id : Text
  pub role : Text
  pub rows_considered : ℕ
  pub null_tuple_count : ℕ

-- the three tables, and the rows that wait for each
pub record PassOneSpool : Type 0 where
  pub numeric_observation : List NumericObservation
  pub relation_keys : List RelationKey
  pub relation_side_facts : List SideFacts
  pub pending_numeric : List NumericObservation
  pub pending_keys : List RelationKey
  pub pending_facts : List SideFacts

abbrev pub empty_spool : PassOneSpool
empty_spool = record {
  numeric_observation = [];
  relation_keys = [];
  relation_side_facts = [];
  pending_numeric = [];
  pending_keys = [];
  pending_facts = [];
}

abbrev pub same_observation : NumericObservation → NumericObservation → Bool
same_observation a b = text_eq a.domain_id b.domain_id && text_eq a.canonical b.canonical

-- INSERT OR IGNORE
unfoldable pub insert_observation :
    NumericObservation → List NumericObservation → List NumericObservation
insert_observation row [] = row ∷ []
insert_observation row (old ∷ rows) =
    if same_observation old row then old ∷ rows else old ∷ insert_observation row rows

abbrev pub same_key : RelationKey → RelationKey → Bool
same_key a b =
    text_eq a.side b.side
    && (text_eq a.relation_id b.relation_id
        && (text_eq a.role b.role && text_eq a.canonical b.canonical))

-- INSERT … ON CONFLICT DO UPDATE SET occurrences = occurrences + 1
unfoldable pub upsert_key : RelationKey → List RelationKey → List RelationKey
upsert_key row [] = row ∷ []
upsert_key row (old ∷ rows) =
    if same_key old row
    then record old { occurrences = old.occurrences + 1 } ∷ rows
    else old ∷ upsert_key row rows

abbrev pub same_side : SideFacts → SideFacts → Bool
same_side a b =
    text_eq a.side b.side && (text_eq a.relation_id b.relation_id && text_eq a.role b.role)

unfoldable pub upsert_facts : SideFacts → List SideFacts → List SideFacts
upsert_facts row [] = row ∷ []
upsert_facts row (old ∷ rows) =
    if same_side old row
    then record old {
      rows_considered = old.rows_considered + row.rows_considered;
      null_tuple_count = old.null_tuple_count + row.null_tuple_count;
    }
      ∷ rows
    else old ∷ upsert_facts row rows

-- `executemany`, row after row
abbrev pub execute_many {ℓ} : {A : Type ℓ} → (A → List A → List A) → List A → List A → List A
execute_many statement [] rows = rows
execute_many statement (row ∷ pending) rows = execute_many statement pending (statement row rows)

unfoldable pub flush_numeric : PassOneSpool → PassOneSpool
unfolding insert_observation
flush_numeric s = record s {
  numeric_observation = execute_many insert_observation s.pending_numeric s.numeric_observation;
  pending_numeric = [];
}

unfoldable pub flush_keys : PassOneSpool → PassOneSpool
unfolding upsert_key
flush_keys s = record s {
  relation_keys = execute_many upsert_key s.pending_keys s.relation_keys;
  pending_keys = [];
}

unfoldable pub flush_facts : PassOneSpool → PassOneSpool
unfolding upsert_facts
flush_facts s = record s {
  relation_side_facts = execute_many upsert_facts s.pending_facts s.relation_side_facts;
  pending_facts = [];
}

unfoldable pub flush : PassOneSpool → PassOneSpool
unfolding flush_numeric flush_keys flush_facts
flush s = flush_facts (flush_keys (flush_numeric s))

abbrev pub is_full {ℓ} : {A : Type ℓ} → List A → Bool
is_full pending = not (ltb (length pending) max_sql_batch)

unfoldable pub observe_numeric : Text → Text → PassOneSpool → PassOneSpool
unfolding flush_numeric
observe_numeric domain_id canonical s =
    let row : NumericObservation = record { domain_id = domain_id; canonical = canonical } in
    let pending = s.pending_numeric ++ row ∷ [] in
    let queued = record s { pending_numeric = pending } in
    if is_full pending then flush_numeric queued else queued

unfoldable pub observe_relation_key : Text → Text → Text → List ℕ → PassOneSpool → PassOneSpool
unfolding flush_keys
observe_relation_key side relation_id role canonical s =
    let row : RelationKey = record {
      side = side;
      relation_id = relation_id;
      role = role;
      canonical = canonical;
      occurrences = 1;
    } in
    let pending = s.pending_keys ++ row ∷ [] in
    let queued = record s { pending_keys = pending } in
    if is_full pending then flush_keys queued else queued

unfoldable pub observe_relation_side : Text → Text → Text → ℕ → ℕ → PassOneSpool → PassOneSpool
unfolding flush_facts
observe_relation_side side relation_id role rows nulls s =
    let row : SideFacts = record {
      side = side;
      relation_id = relation_id;
      role = role;
      rows_considered = rows;
      null_tuple_count = nulls;
    } in
    let pending = s.pending_facts ++ row ∷ [] in
    let queued = record s { pending_facts = pending } in
    if is_full pending then flush_facts queued else queued

abbrev pub in_domain : Text → NumericObservation → Bool
in_domain domain_id row = text_eq row.domain_id domain_id

abbrev pub canonicals : List NumericObservation → List Text
canonicals [] = []
canonicals (row ∷ rows) = row.canonical ∷ canonicals rows

abbrev insert_text : Text → List Text → List Text
insert_text next [] = next ∷ []
insert_text next (canonical ∷ rest) =
    if text_lt next canonical then next ∷ canonical ∷ rest else canonical ∷ insert_text next rest

-- ORDER BY canonical ASC
abbrev ordered : List Text → List Text
ordered [] = []
ordered (canonical ∷ rest) = insert_text canonical (ordered rest)

-- the rows that a query on one domain reads
abbrev pub observed : PassOneSpool → Text → List Text
observed s domain_id = ordered (canonicals (keep (in_domain domain_id) s.numeric_observation))

unfoldable pub drop_numeric_observation : Text → Text → PassOneSpool → PassOneSpool
drop_numeric_observation domain_id canonical s = record s {
  numeric_observation =
      keep (λ row. not (in_domain domain_id row && text_eq row.canonical canonical))
        s.numeric_observation;
}

abbrev pub numeric_unpersisted_count : PassOneSpool → Text → ℕ
numeric_unpersisted_count s domain_id = length (observed s domain_id)

-- the counters of one relation side
abbrev pub of_side : Text → Text → Text → RelationKey → Bool
of_side side relation_id role row =
    text_eq row.side side && (text_eq row.relation_id relation_id && text_eq row.role role)

abbrev pub relation_unique_count : PassOneSpool → Text → Text → Text → ℕ
relation_unique_count s side relation_id role =
    length (keep (of_side side relation_id role) s.relation_keys)

abbrev pub total_occurrences : List RelationKey → ℕ
total_occurrences [] = 0
total_occurrences (row ∷ rows) = row.occurrences + total_occurrences rows

abbrev pub relation_row_count : PassOneSpool → Text → Text → Text → ℕ
relation_row_count s side relation_id role =
    total_occurrences (keep (of_side side relation_id role) s.relation_keys)
