-- ===== src/Engine/NumericPass.antt =====
-- engine/pass1.py: the finalization of one numeric key domain from the observations of the spool.
-- `random_below k n` is the k-th draw of the CSPRNG below `n`; `check_cancelled k` is the k-th poll.
-- The occupied tokens are read as integers, since `numeric_mapping_rows` has checked each row before.
use dbf_anonymizer.Prelude.{
  ℕ, zero, suc, min, String, Bool, true, false, not, ◌&&◌, ◌||◌, Option, none, some, List, [], ◌∷◌,
  map, if◌then◌else◌, any, keep, ℤ, pos, ◌+ℤ◌, ◌-ℤ◌, pos_part, ltb_ℤ, eqb_ℤ, Text, text_eq,
}
use dbf_anonymizer.Errors.{
  Failure, mapping_error, mapping_capacity_exhausted, value_error, overflow_error, Result, ok, err,
  ◌>>=◌, ◌>>◌, raise_if,
}
use dbf_anonymizer.Values.{text}
use dbf_anonymizer.CanonicalText.{int_text, int_of, parse_canonical_integer_text}
use dbf_anonymizer.NumericKeys.{NumericKeyDomain, contains_pseudonym, size}
use dbf_anonymizer.Vault.{Cell, text_cell, NumericKeyMapping, VaultDatabase, internal_connection}
use dbf_anonymizer.Vault.NumericMappings.{with_pseudonym}
use dbf_anonymizer.NumericAllocation.{numeric_key_probe_budget, first_hit}
use dbf_anonymizer.Engine.Spool.{PassOneSpool, observed}
use dbf_anonymizer.Engine.SqlIntegers.{fits_integer, cast_integer, order_by_cast}

abbrev pub capacity_failure : String → Failure
capacity_failure detail_code = mapping_error mapping_capacity_exhausted "engine" detail_code

abbrev pub domain_exhausted : Failure
domain_exhausted = capacity_failure "ENGINE_NUMERIC_DOMAIN_EXHAUSTED"

abbrev pub no_completion : Failure
no_completion = capacity_failure "ENGINE_NUMERIC_NO_COMPLETION"

unfoldable pub numeric_token_occupied : VaultDatabase → Text → ℤ → Result Bool
unfolding internal_connection
numeric_token_occupied db domain_id token = do
  tables ← internal_connection db
  ok (any (with_pseudonym domain_id (int_text token)) tables.numeric_key_mappings)

-- the values of the domain's remaining observations
abbrev pub remaining_values : PassOneSpool → Text → List ℤ
remaining_values spool domain_id = map int_of (observed spool domain_id)

-- the loop over the fetched candidates
unfoldable pub value_free_loop : VaultDatabase → Text → List ℤ → Result Bool
unfolding numeric_token_occupied
value_free_loop db domain_id [] = ok false
value_free_loop db domain_id (candidate ∷ candidates) = do
  occupied ← numeric_token_occupied db domain_id candidate
  if occupied then value_free_loop db domain_id candidates else ok true

-- the rows of the query, whose parameters are the bounds of the domain
abbrev pub cast_values_between : PassOneSpool → Text → NumericKeyDomain → List ℤ
cast_values_between spool domain_id d =
    keep (contains_pseudonym d) (map cast_integer (remaining_values spool domain_id))

unfoldable pub spool_value_free_in_domain :
    VaultDatabase → PassOneSpool → Text → NumericKeyDomain → Result Bool
unfolding value_free_loop
spool_value_free_in_domain db spool domain_id d = do
  raise_if (not (fits_integer d.pseudonym_low && fits_integer d.pseudonym_high)) overflow_error
  value_free_loop db domain_id (cast_values_between spool domain_id d)

unfoldable pub numeric_residual_feasible :
    NumericKeyDomain → ℤ → ℤ → VaultDatabase → PassOneSpool → Text → Result Bool
unfolding spool_value_free_in_domain
numeric_residual_feasible d occupied_after remaining_after db spool domain_id =
    let free_after = size d -ℤ occupied_after in
    if ltb_ℤ free_after remaining_after
    then ok false
    else if ltb_ℤ free_after (pos 1)
    then ok false
    else if ltb_ℤ (pos 0) remaining_after
    then (spool_value_free_in_domain db spool domain_id d >>= λ own.
        ok (not (own && ltb_ℤ free_after (pos 2))))
    else ok true

-- `_numeric_candidate_blocked`
abbrev pub numeric_candidate_blocked : ℤ → PassOneSpool → Text → Bool
numeric_candidate_blocked candidate spool domain_id =
    any (text_eq (int_text candidate)) (observed spool domain_id)

-- `parse_canonical_integer_text(str(token))`, where the token is a text
abbrev pub token_of : Cell → Result ℤ
token_of (text_cell t) = parse_canonical_integer_text (text t)
token_of _ = err value_error

abbrev pub parsed_tokens : List NumericKeyMapping → Result (List ℤ)
parsed_tokens [] = ok []
parsed_tokens (row ∷ rows) = do
  value ← token_of row.pseudonym_value
  values ← parsed_tokens rows
  ok (value ∷ values)

-- `_numeric_occupied_stream`: the tokens in the order of their casts
unfoldable pub numeric_occupied_stream : VaultDatabase → Text → Result (List ℤ)
unfolding internal_connection parse_canonical_integer_text order_by_cast
numeric_occupied_stream db domain_id = do
  tables ← internal_connection db
  tokens ← parsed_tokens (keep (λ row. text_eq row.domain_id domain_id) tables.numeric_key_mappings)
  ok (order_by_cast tokens)

-- the walk of `_streaming_jth_free_numeric`
unfoldable pub streaming_walk : NumericKeyDomain → ℤ → ℤ → List ℤ → ℤ
streaming_walk d previous remaining [] = previous +ℤ pos 1 +ℤ remaining
streaming_walk d previous remaining (value ∷ values) =
    let gap = value -ℤ previous -ℤ pos 1 in
    let skipped = streaming_walk d previous remaining values in
    let later = streaming_walk d value (remaining -ℤ gap) values in
    if ltb_ℤ value d.pseudonym_low || ltb_ℤ d.pseudonym_high value
    then skipped
    else if ltb_ℤ remaining gap
    then previous +ℤ pos 1 +ℤ remaining
    else later

unfoldable pub streaming_jth_free_numeric : NumericKeyDomain → List ℤ → ℤ → ℤ
unfolding streaming_walk
streaming_jth_free_numeric d occupied_stream j =
    streaming_walk d (d.pseudonym_low -ℤ pos 1) j occupied_stream

abbrev pub found_or_fail : Option ℤ → Result ℤ
found_or_fail none = err no_completion
found_or_fail (some candidate) = ok candidate

-- what one selection reads: its domain, the vault, the spool and the two counters
module _ (d : NumericKeyDomain) (db : VaultDatabase) (spool : PassOneSpool) (domain_id : Text)
    (occupied remaining : ℤ) (original : ℤ) where
  -- `_accept`
  unfoldable pub accept : ℤ → Result Bool
  unfolding numeric_residual_feasible
  accept candidate =
      if eqb_ℤ candidate original
      then ok false
      else if numeric_candidate_blocked candidate spool domain_id
      then ok false
      else numeric_residual_feasible d (occupied +ℤ pos 1) (remaining -ℤ pos 1) db spool domain_id

  -- the candidate of one round, if it is accepted
  unfoldable pub tried : ℤ → Result (Option ℤ)
  unfolding accept streaming_jth_free_numeric numeric_occupied_stream
  tried j = do
    tokens ← numeric_occupied_stream db domain_id
    let candidate = streaming_jth_free_numeric d tokens j
    accepted ← accept candidate
    ok (if accepted then some candidate else none)

  unfoldable pub probe_loop : ℕ → ℕ → (ℕ → ℤ → ℤ) → ℤ → Result (Option ℤ)
  unfolding tried
  probe_loop zero k random_below free = ok none
  probe_loop (suc budget) k random_below free = do
    let later = probe_loop budget (suc k) random_below free
    hit ← tried (random_below k free)
    first_hit later hit

  unfoldable pub walk_loop : ℕ → ℕ → Result (Option ℤ)
  unfolding tried
  walk_loop zero index = ok none
  walk_loop (suc left) index = do
    let later = walk_loop left (suc index)
    hit ← tried (pos index)
    first_hit later hit

  abbrev pub walk_limit : ℤ → ℕ
  walk_limit free = min (pos_part free) (pos_part (remaining +ℤ pos 2))

  abbrev pub completed : ℤ → Option ℤ → Result ℤ
  completed free (some candidate) = ok candidate
  completed free none = do walked ← walk_loop (walk_limit free) 0; found_or_fail walked

  unfoldable pub select_numeric_candidate : (ℕ → ℤ → ℤ) → Result ℤ
  unfolding probe_loop walk_loop
  select_numeric_candidate random_below = do
    let free = size d -ℤ occupied
    raise_if (ltb_ℤ free (pos 1)) domain_exhausted
    probed ← probe_loop numeric_key_probe_budget 0 random_below free
    completed free probed
