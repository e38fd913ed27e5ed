-- ===== src/Engine/Batches.antt =====
-- engine/state.py: the batches of the spool are invisible. The abstract spool has no buffers: each
-- observation goes to its table at once.
use dbf_anonymizer.Prelude.{
  ℕ, ◌+◌, ◌<◌, ◌≡◌, refl, ◌∙◌, ap, inl, inr, true, false, Bool, Bool-cases, List, [], ◌∷◌, ◌++◌,
  if◌then◌else◌, length, keep, Text, text_eq, text_eq→eq, arith,
}
use dbf_anonymizer.Engine.Spool.{
  PassOneSpool, NumericObservation, RelationKey, SideFacts, empty_spool, max_sql_batch, is_full,
  execute_many, insert_observation, upsert_key, upsert_facts, same_key, flush, observe_numeric,
  observe_relation_key, observe_relation_side, of_side, total_occurrences, relation_row_count,
}

-- What pass 1 does with the spool.
pub data Event : Type 0 where
  numeric : Text → Text → Event
  key : Text → Text → Text → List ℕ → Event
  side_facts : Text → Text → Text → ℕ → ℕ → Event
  flushed : Event

unfoldable pub step : Event → PassOneSpool → PassOneSpool
unfolding observe_numeric observe_relation_key observe_relation_side flush
step (numeric domain_id canonical) s = observe_numeric domain_id canonical s
step (key side relation_id role canonical) s =
    observe_relation_key side relation_id role canonical s
step (side_facts side relation_id role rows nulls) s =
    observe_relation_side side relation_id role rows nulls s
step flushed s = flush s

unfoldable pub run : List Event → PassOneSpool → PassOneSpool
unfolding step
run [] s = s
run (event ∷ events) s = run events (step event s)

-- The tables without any buffer.
pub record Evidence : Type 0 where
  pub numeric_observation : List NumericObservation
  pub relation_keys : List RelationKey
  pub relation_side_facts : List SideFacts

abbrev pub key_row : Text → Text → Text → List ℕ → RelationKey
key_row side relation_id role canonical = record {
  side = side;
  relation_id = relation_id;
  role = role;
  canonical = canonical;
  occurrences = 1;
}

abbrev pub abstract_step : Event → Evidence → Evidence
abstract_step (numeric domain_id canonical) e = record e {
  numeric_observation =
      insert_observation (record { domain_id = domain_id; canonical = canonical })
        e.numeric_observation;
}
abstract_step (key side relation_id role canonical) e = record e {
  relation_keys = upsert_key (key_row side relation_id role canonical) e.relation_keys;
}
abstract_step (side_facts side relation_id role rows nulls) e = record e {
  relation_side_facts =
      upsert_facts
        (record {
          side = side;
          relation_id = relation_id;
          role = role;
          rows_considered = rows;
          null_tuple_count = nulls;
        })
        e.relation_side_facts;
}
abstract_step flushed e = e

abbrev pub abstract_run : List Event → Evidence → Evidence
abstract_run [] e = e
abstract_run (event ∷ events) e = abstract_run events (abstract_step event e)

-- what a spool stands for: its tables once the buffers are written
abbrev pub meaning : PassOneSpool → Evidence
meaning s = record {
  numeric_observation = execute_many insert_observation s.pending_numeric s.numeric_observation;
  relation_keys = execute_many upsert_key s.pending_keys s.relation_keys;
  relation_side_facts = execute_many upsert_facts s.pending_facts s.relation_side_facts;
}

abbrev pub tables_of : PassOneSpool → Evidence
tables_of s = record {
  numeric_observation = s.numeric_observation;
  relation_keys = s.relation_keys;
  relation_side_facts = s.relation_side_facts;
}

-- No buffer holds a full batch.
pub record IsBounded (s : PassOneSpool) : Type 0 where
  pub numeric_below : length s.pending_numeric < max_sql_batch
  pub keys_below : length s.pending_keys < max_sql_batch
  pub facts_below : length s.pending_facts < max_sql_batch

execute_many-append {ℓ} :
    {A : Type ℓ} (statement : A → List A → List A) (pending : List A) (row : A) (rows : List A)
    → execute_many statement (pending ++ row ∷ []) rows
      ≡ statement row (execute_many statement pending rows)
execute_many-append statement [] row rows = refl
execute_many-append statement (first ∷ pending) row rows =
    execute_many-append statement pending row (statement first rows)

not_full {ℓ} :
    {A : Type ℓ} (pending : List A) → is_full pending ≡ false → length pending < max_sql_batch
not_full pending h = ground arith

step-meaning :
    (event : Event) (s : PassOneSpool) → meaning (step event s) ≡ abstract_step event (meaning s)
unfolding step
step-meaning (numeric domain_id canonical) s =
    let row : NumericObservation = record { domain_id = domain_id; canonical = canonical } in
    let appended =
      execute_many-append insert_observation s.pending_numeric row s.numeric_observation in
    elim (Bool-cases (is_full (s.pending_numeric ++ row ∷ []))) [
      | inl full ↦ rw (full, appended)
      | inr short ↦ rw (short, appended)
    ]
step-meaning (key side relation_id role canonical) s =
    let row = key_row side relation_id role canonical in
    let appended = execute_many-append upsert_key s.pending_keys row s.relation_keys in
    elim (Bool-cases (is_full (s.pending_keys ++ row ∷ []))) [
      | inl full ↦ rw (full, appended)
      | inr short ↦ rw (short, appended)
    ]
step-meaning (side_facts side relation_id role rows nulls) s =
    let row : SideFacts = record {
      side = side;
      relation_id = relation_id;
      role = role;
      rows_considered = rows;
      null_tuple_count = nulls;
    } in
    let appended = execute_many-append upsert_facts s.pending_facts row s.relation_side_facts in
    elim (Bool-cases (is_full (s.pending_facts ++ row ∷ []))) [
      | inl full ↦ rw (full, appended)
      | inr short ↦ rw (short, appended)
    ]
step-meaning flushed s = refl

step-IsBounded : (event : Event) (s : PassOneSpool) → IsBounded s → IsBounded (step event s)
unfolding step
step-IsBounded (numeric domain_id canonical) s b =
    let pending =
      s.pending_numeric ++ record { domain_id = domain_id; canonical = canonical } ∷ [] in
    elim (Bool-cases (is_full pending)) [
      | inl full ↦ rw full (record {
        numeric_below = omega arith;
        keys_below = b.keys_below;
        facts_below = b.facts_below;
      })
      | inr short ↦ rw short (record {
        numeric_below = not_full pending short;
        keys_below = b.keys_below;
        facts_below = b.facts_below;
      })
    ]
step-IsBounded (key side relation_id role canonical) s b =
    let pending = s.pending_keys ++ key_row side relation_id role canonical ∷ [] in
    elim (Bool-cases (is_full pending)) [
      | inl full ↦ rw full (record {
        numeric_below = b.numeric_below;
        keys_below = omega arith;
        facts_below = b.facts_below;
      })
      | inr short ↦ rw short (record {
        numeric_below = b.numeric_below;
        keys_below = not_full pending short;
        facts_below = b.facts_below;
      })
    ]
step-IsBounded (side_facts side relation_id role rows nulls) s b =
    let row : SideFacts = record {
      side = side;
      relation_id = relation_id;
      role = role;
      rows_considered = rows;
      null_tuple_count = nulls;
    } in
    let pending = s.pending_facts ++ row ∷ [] in
    elim (Bool-cases (is_full pending)) [
      | inl full ↦ rw full (record {
        numeric_below = b.numeric_below;
        keys_below = b.keys_below;
        facts_below = omega arith;
      })
      | inr short ↦ rw short (record {
        numeric_below = b.numeric_below;
        keys_below = b.keys_below;
        facts_below = not_full pending short;
      })
    ]
step-IsBounded flushed s b = record {
  numeric_below = omega arith;
  keys_below = omega arith;
  facts_below = omega arith;
}

pub empty_spool-IsBounded : IsBounded empty_spool
empty_spool-IsBounded = record {
  numeric_below = omega arith;
  keys_below = omega arith;
  facts_below = omega arith;
}

-- Batching refines the abstract spool: after any sequence of observations and flushes, one more
-- flush leaves in the tables what the observations would have left there one by one, and between any
-- two of them no buffer holds a full batch.
pub run-Refines :
    (events : List Event) (s : PassOneSpool)
    → IsBounded s
    → (tables_of (flush (run events s)) ≡ abstract_run events (meaning s))
      × IsBounded (run events s)
unfolding run flush
run-Refines [] s b = (refl, b)
run-Refines (event ∷ events) s b =
    let later = run-Refines events (step event s) (step-IsBounded event s b) in
    (later.0 ∙ ap (abstract_run events) (step-meaning event s), later.1)

module _ (side relation_id role : Text) where
  abbrev here : RelationKey → Bool
  here = of_side side relation_id role

  -- the observations of one relation side among the events
  abbrev pub key_events : List Event → ℕ
  key_events [] = 0
  key_events (key s r o canonical ∷ events) =
      (if here (key_row s r o canonical) then 1 else 0) + key_events events
  key_events (numeric _ _ ∷ events) = key_events events
  key_events (side_facts _ _ _ _ _ ∷ events) = key_events events
  key_events (flushed ∷ events) = key_events events

  same_key-here : (a b : RelationKey) → same_key a b ≡ true → here a ≡ here b
  same_key-here a b h =
      let sides : text_eq a.side b.side ≡ true = ground arith in
      let ids : text_eq a.relation_id b.relation_id ≡ true = ground arith in
      let roles : text_eq a.role b.role ≡ true = ground arith in
      rw (
        text_eq→eq a.side b.side sides,
        text_eq→eq a.relation_id b.relation_id ids,
        text_eq→eq a.role b.role roles,
      )

  upsert_key-total :
      (row : RelationKey) (rows : List RelationKey)
      → row.occurrences ≡ 1
      → total_occurrences (keep here (upsert_key row rows))
        ≡ (if here row then 1 else 0) + total_occurrences (keep here rows)
  unfolding upsert_key
  upsert_key-total row [] one = ground arith
  upsert_key-total row (old ∷ rows) one = elim (Bool-cases (same_key old row)) [
    | inl same ↦ rw same (ground (arith, same_key-here old row same))
    | inr other ↦ rw other (ground (arith, upsert_key-total row rows one))
  ]

  abstract_run-total :
      (events : List Event) (e : Evidence)
      → total_occurrences (keep here (abstract_run events e).relation_keys)
        ≡ key_events events + total_occurrences (keep here e.relation_keys)
  abstract_run-total [] e = omega arith
  abstract_run-total (numeric domain_id canonical ∷ events) e = abstract_run-total events _
  abstract_run-total (side_facts s r o rows nulls ∷ events) e = abstract_run-total events _
  abstract_run-total (flushed ∷ events) e = abstract_run-total events e
  abstract_run-total (key s r o canonical ∷ events) e =
      let row = key_row s r o canonical in
      omega (
        arith,
        abstract_run-total events (abstract_step (key s r o canonical) e),
        upsert_key-total row e.relation_keys refl,
      )

  -- The evidence counts rows: from an empty spool, the row count of a relation side is the number of
  -- key observations of that side, however they fell into batches.
  pub relation_row_count-key_events :
      (events : List Event)
      → relation_row_count (flush (run events empty_spool)) side relation_id role
        ≡ key_events events
  relation_row_count-key_events events =
      ap (λ (e : Evidence). total_occurrences (keep here e.relation_keys))
        (run-Refines events empty_spool empty_spool-IsBounded).0
      ∙ abstract_run-total events (meaning empty_spool)
      ∙ omega arith
