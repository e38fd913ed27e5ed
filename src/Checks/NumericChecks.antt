-- ===== src/Checks/NumericChecks.antt =====
-- Runs of transforms/numeric_keys.py and its theorems at small inputs.
use dbf_anonymizer.Prelude.{
  ◌≡◌, ◌↔◌, refl, true, false, arith, List, [], ◌∷◌, ℤ, pos, negsuc, set_of, ◌+ℤ◌, ◌-ℤ◌,
}
use dbf_anonymizer.Errors.{ok}
use dbf_anonymizer.NumericKeys.{
  NumericKeyDomain, free_token_count, jth_free_token, plan_numeric_bijection,
}
use dbf_anonymizer.NumericKeys.Free.{IsJthFree, jth_free_token-IsJthFree}
use dbf_anonymizer.NumericKeys.Bijection.{IsAssignment}
use dbf_anonymizer.NumericKeys.Assignment.{plan_numeric_bijection-iff_IsAssignment}

-- the tokens -2 .. 3
abbrev small_domain : NumericKeyDomain
small_domain = record { pseudonym_low = negsuc 1; pseudonym_high = pos 3; members = [] }

-- -1 and 2 are inside, 7 is not, and 2 stands twice
abbrev taken : List ℤ
taken = pos 2 ∷ pos 7 ∷ negsuc 0 ∷ pos 2 ∷ []

four_free : free_token_count small_domain taken ≡ pos 4
unfolding free_token_count set_of ◌+ℤ◌ ◌-ℤ◌
four_free = refl

third_free : jth_free_token small_domain taken (pos 2) ≡ ok (pos 1)
unfolding jth_free_token set_of ◌+ℤ◌ ◌-ℤ◌
third_free = refl

swap_only :
    plan_numeric_bijection small_domain (pos 0 ∷ pos 1 ∷ []) (negsuc 1 ∷ pos 3 ∷ taken) ≡ ok true
unfolding plan_numeric_bijection set_of ◌+ℤ◌ ◌-ℤ◌
swap_only = refl

own_token_only :
    plan_numeric_bijection small_domain (pos 1 ∷ []) (negsuc 1 ∷ pos 0 ∷ pos 3 ∷ taken) ≡ ok false
unfolding plan_numeric_bijection set_of ◌+ℤ◌ ◌-ℤ◌
own_token_only = refl

jth_free_token-IsJthFree_example :
    (r : ℤ) × (jth_free_token small_domain taken (pos 2) ≡ ok r)
    × IsJthFree small_domain taken (pos 2) r
unfolding free_token_count set_of ◌+ℤ◌ ◌-ℤ◌
jth_free_token-IsJthFree_example =
    jth_free_token-IsJthFree small_domain taken (pos 2) (omega arith) (omega arith)

plan_numeric_bijection-iff_IsAssignment_example :
    (plan_numeric_bijection small_domain (pos 0 ∷ pos 1 ∷ []) taken ≡ ok true)
    ↔ ((ts : List ℤ) × IsAssignment small_domain taken (pos 0 ∷ pos 1 ∷ []) ts)
plan_numeric_bijection-iff_IsAssignment_example =
    plan_numeric_bijection-iff_IsAssignment small_domain (omega arith) (pos 0 ∷ pos 1 ∷ []) taken
      (refl, (refl, tt))
