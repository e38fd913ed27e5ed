-- ===== src/Engine/Selection.antt =====
-- engine/pass1.py: what a token selected by `_select_numeric_candidate` is.
use mathlib.Core.Path.{subst}
use dbf_anonymizer.Prelude.{
  ◌≡◌, ◌≢◌, sym, ◌∙◌, ap, inl, inr, true, false, ◌||◌, Bool-cases, Option, none, some, List, [],
  ◌∷◌, length, All, ℤ, pos, ◌+ℤ◌, ◌-ℤ◌, ltb_ℤ, ◌≤ℤ◌, ◌<ℤ◌, Text, mem, set_of-ascending, le→ltb_ℤ,
}
use dbf_anonymizer.Errors.{value_error, Failure, Result, ok, err, ok-injective}
use dbf_anonymizer.CanonicalText.{is_canonical}
use dbf_anonymizer.NumericKeys.{
  NumericKeyDomain, size, contains_pseudonym, free_token_count, gap_walk, jth_free_token,
}
use dbf_anonymizer.NumericKeys.Bijection.{IsNodup}
use dbf_anonymizer.NumericKeys.Free.{IsFree, jth_free_token-IsJthFree}
use dbf_anonymizer.Vault.{VaultDatabase}
use dbf_anonymizer.Engine.Spool.{PassOneSpool, observed}
use dbf_anonymizer.Engine.NumericPass.{
  remaining_values, numeric_residual_feasible, numeric_occupied_stream, streaming_walk,
  streaming_jth_free_numeric, tried, found_or_fail,
}
use dbf_anonymizer.Engine.CastOrder.{IsNarrow}
use dbf_anonymizer.Engine.Occupied.{tokens-IsAscending}
use dbf_anonymizer.Engine.Feasible.{blocked_in-tokens}

refused_value : {failure : Failure} {r : ℤ} → err failure ≢ ok r
refused_value h = cc

-- Where the checked walk of the kernel returns, the streaming walk is at the same token.
streaming_walk-gap_walk :
    (d : NumericKeyDomain) (previous remaining : ℤ) (values : List ℤ) (r : ℤ)
    → gap_walk d previous remaining values ≡ ok r
    → streaming_walk d previous remaining values ≡ r
unfolding gap_walk streaming_walk
streaming_walk-gap_walk d previous remaining [] r h =
    elim (Bool-cases (ltb_ℤ d.pseudonym_high (previous +ℤ pos 1 +ℤ remaining))) [
      | inl over ↦ absurd (refused_value {failure = value_error} {r = r} (sym (rw over) ∙ h))
      | inr fits ↦ ok-injective (sym (rw fits) ∙ h)
    ]
streaming_walk-gap_walk d previous remaining (value ∷ values) r h =
    let gap = value -ℤ previous -ℤ pos 1 in
    elim (Bool-cases (ltb_ℤ value d.pseudonym_low || ltb_ℤ d.pseudonym_high value)) [
      | inl outside ↦
          rw outside (streaming_walk-gap_walk d previous remaining values r (sym (rw outside) ∙ h))
      | inr inside ↦ elim (Bool-cases (ltb_ℤ remaining gap)) [
        | inl here ↦ rw (inside, here) (ok-injective (sym (rw (inside, here)) ∙ h))
        | inr past ↦
            rw (inside, past)
              (streaming_walk-gap_walk d value (remaining -ℤ gap) values r
                (sym (rw (inside, past)) ∙ h))
      ]
    ]

found : (o : Option ℤ) (c : ℤ) → found_or_fail o ≡ ok c → o ≡ some c
found none c h = cc
found (some v) c h = ap some (ok-injective h)

module _ (d : NumericKeyDomain) (db : VaultDatabase) (spool : PassOneSpool) (domain_id : Text)
    (tokens : List ℤ) (read : numeric_occupied_stream db domain_id ≡ ok tokens)
    (narrow : IsNarrow d) (within : (t : ℤ) → mem t tokens ≡ true → contains_pseudonym d t ≡ true)
    (distinct : IsNodup tokens)
    (canonical : All (λ t. is_canonical t ≡ true) (observed spool domain_id)) where
  abbrev free : ℤ
  free = size d -ℤ pos (length tokens)

  free-count : free_token_count d tokens ≡ free
  unfolding free_token_count
  free-count =
      ap (λ (s : List ℤ). size d -ℤ pos (length s))
        (blocked_in-tokens d tokens
          (tokens-IsAscending db domain_id tokens read d narrow within distinct) within)

  -- The streaming walk gives the j-th free token for each index below the free count.
  pub streaming_jth_free_numeric-IsFree :
      (j : ℤ) → pos 0 ≤ℤ j → j <ℤ free → IsFree d tokens (streaming_jth_free_numeric d tokens j)
  unfolding streaming_jth_free_numeric jth_free_token
  streaming_jth_free_numeric-IsFree j nonneg small =
      let up = tokens-IsAscending db domain_id tokens read d narrow within distinct in
      let (r, found, at) =
        jth_free_token-IsJthFree d tokens j nonneg (subst (λ n. j <ℤ n) (sym free-count) small) in
      let valid : ltb_ℤ j (pos 0) ≡ false = le→ltb_ℤ j (pos 0) nonneg in
      let walk : gap_walk d (d.pseudonym_low -ℤ pos 1) j tokens ≡ ok r =
        ap (gap_walk d (d.pseudonym_low -ℤ pos 1) j) (sym (set_of-ascending tokens up))
        ∙ sym (rw valid)
        ∙ found in
      subst (IsFree d tokens)
        (sym (streaming_walk-gap_walk d (d.pseudonym_low -ℤ pos 1) j tokens r walk))
        (at.within, at.free)

  module _ (original : ℤ) where
    -- What a selected token is: free, not the original's own value and no remaining original's own
    -- value, and the test that the code makes of the rest has accepted it.
    pub record IsChosen (c : ℤ) : Type 0 where
      pub is_free : IsFree d tokens c
      pub not_original : c ≢ original
      pub unobserved : mem c (remaining_values spool domain_id) ≡ false
      pub residual :
          numeric_residual_feasible d
            (pos (length tokens) +ℤ pos 1)
            (pos (length (remaining_values spool domain_id)) -ℤ pos 1)
            db
            spool
            domain_id
          ≡ ok true

    abbrev counted : ℤ
    counted = pos (length (remaining_values spool domain_id))

    abbrev try_at : ℤ → Result (Option ℤ)
    try_at = tried d db spool domain_id (pos (length tokens)) counted original
