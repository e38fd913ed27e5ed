-- ===== src/TextAllocation.antt =====
-- vault/text_allocation.py: the instance of the global text mapping domain and the choice of one
-- pseudonym under its planned assignment. Sets and dictionaries are lists of their members and
-- entries; `random_below k n` is the k-th draw of the CSPRNG, a parameter, below `n`.
pub mod Walk
pub mod Classes
pub mod Selection
pub mod Slots
pub mod Lifecycle
pub mod Loaded
pub mod Finalized
use dbf_anonymizer.Prelude.{
  ℕ, zero, suc, ◌+◌, ◌^◌, String, Bool, true, false, ◌&&◌, ◌||◌, Option, none, some, List, [], ◌∷◌,
  ◌++◌, map, if◌then◌else◌, ◌==◌, length, any, keep, ℤ, pos, ◌+ℤ◌, ◌-ℤ◌, ltb_ℤ, leb_ℤ, Text,
  text_eq, set_of,
}
use dbf_anonymizer.Errors.{
  Failure, mapping_error, ErrorCode, mapping_capacity_exhausted, Result, ok, err, ◌>>=◌, ◌>>◌,
  raise_if,
}
use dbf_anonymizer.Text.{token_at, token_index, token_space}

-- GLOBAL_TEXT_PROBE_BUDGET
abbrev pub global_text_probe_budget : ℕ
global_text_probe_budget = 64

abbrev pub mapping_failure : ErrorCode → String → Failure
mapping_failure code detail_code = mapping_error code "mapping" detail_code

abbrev pub no_completion : Failure
no_completion = mapping_failure mapping_capacity_exhausted "GLOBAL_TEXT_NO_COMPLETION"

-- `_PlanEntry`
pub data PlanEntry : Type 0 where
  generic : ℕ → PlanEntry
  named : Text → PlanEntry

-- `used` has the length of each occupied pseudonym; a reserved token is its own owner, and stands
-- once.
pub record GlobalTextDomainMapping : Type 0 where
  pub domain_id : Text
  pub strictest : List (Text × ℕ)
  pub encodings : List String
  pub finalized : Bool
  pub alphabet : Text
  pub base : ℕ
  pub used : List (Text × ℕ)
  pub persisted_originals : List Text
  pub plan : Option (List (Text × PlanEntry))
  pub plan_reserved : List Text
  pub plan_promised : List Text
  pub plan_signature : Option ℤ
  pub own_persisted : List Text

-- `s in texts`
abbrev pub has_text : Text → List Text → Bool
has_text s texts = any (λ t. text_eq t s) texts

-- `texts.add(s)`, and `set.update`
abbrev pub add_text : Text → List Text → List Text
add_text s texts = if has_text s texts then texts else s ∷ texts

abbrev pub update_texts : List Text → List Text → List Text
update_texts texts [] = texts
update_texts texts (s ∷ more) = add_text s (update_texts texts more)

-- the walk of `_jth_free_in_class` over the sorted blocked indices
pub class_walk : ℤ → ℤ → List ℤ → ℤ
class_walk previous remaining [] = previous +ℤ pos 1 +ℤ remaining
class_walk previous remaining (index ∷ indices) =
    let gap = index -ℤ previous -ℤ pos 1 in
    let later = class_walk index (remaining -ℤ gap) indices in
    if ltb_ℤ remaining gap then previous +ℤ pos 1 +ℤ remaining else later

-- `_jth_free_in_class`; `class_size` does not enter the walk
unfoldable pub jth_free_in_class : ℤ → ℤ → List ℤ → ℤ → ℤ
unfolding class_walk
jth_free_in_class class_low class_size blocked j =
    class_walk (class_low -ℤ pos 1) j (set_of blocked)

abbrev pub of_length : ℕ → List Text → List Text
of_length len texts = keep (λ t. length t == len) texts

-- the tokens of one length class that the selection may not take
unfoldable pub blocked_tokens : GlobalTextDomainMapping → ℕ → List Text
blocked_tokens m len =
    update_texts
      (update_texts
        (update_texts [] (map (λ entry. entry.0) (keep (λ entry. entry.1 == len) m.used)))
        (of_length len m.plan_reserved))
      (of_length len m.plan_promised)

-- `token_index(token, alphabet) for token in blocked`
pub token_indices : Text → List Text → Result (List ℤ)
unfolding token_index
token_indices alphabet [] = ok []
token_indices alphabet (token ∷ tokens) = do
  index ← token_index token alphabet
  indices ← token_indices alphabet tokens
  ok (pos index ∷ indices)

-- one length class of the token space
pub record LengthClass : Type 0 where
  pub class_length : ℕ
  pub class_low : ℕ
  pub class_size : ℕ
  pub blocked : List Text

-- one probe, kept unless it is forbidden
abbrev pub admitted : Text → List Text → Text → Option Text
admitted original blocked candidate =
    if text_eq candidate original || has_text candidate blocked then none else some candidate

abbrev pub first_hit : Result (Option Text) → Option Text → Result (Option Text)
first_hit later none = later
first_hit later (some candidate) = ok (some candidate)

abbrev pub probed : Text → Text → LengthClass → ℤ → Result (Option Text)
probed original alphabet c draw = do
  candidate ← token_at (pos c.class_low +ℤ draw) (pos c.class_length) alphabet
  ok (admitted original c.blocked candidate)

-- the loop over `range(GLOBAL_TEXT_PROBE_BUDGET)`, from draw `k`
pub probe_loop : ℕ → ℕ → (ℕ → ℤ → ℤ) → Text → Text → LengthClass → Result (Option Text)
unfolding token_at
probe_loop zero k random_below original alphabet c = ok none
probe_loop (suc budget) k random_below original alphabet c = do
  let later = probe_loop budget (suc k) random_below original alphabet c
  hit ← probed original alphabet c (random_below k (pos c.class_size))
  first_hit later hit

-- the exact completion, where the probes found nothing
abbrev pub completed : (ℕ → ℤ → ℤ) → Text → LengthClass → ℤ → Option Text → Result Text
completed random_below alphabet c free_non_reserved (some candidate) = ok candidate
completed random_below alphabet c free_non_reserved none = do
  blocked_indices ← token_indices alphabet c.blocked
  let chosen =
      jth_free_in_class (pos c.class_low) (pos c.class_size) blocked_indices
        (random_below global_text_probe_budget free_non_reserved)
  token_at chosen (pos c.class_length) alphabet

abbrev pub select_in_class : (ℕ → ℤ → ℤ) → Text → Text → LengthClass → Result Text
select_in_class random_below original alphabet c = do
  let free_non_reserved = pos c.class_size -ℤ pos (length c.blocked)
  raise_if (leb_ℤ free_non_reserved (pos 0)) no_completion
  hit ← probe_loop global_text_probe_budget 0 random_below original alphabet c
  completed random_below alphabet c free_non_reserved hit

-- `_select_candidate`
unfoldable pub select_candidate :
    (ℕ → ℤ → ℤ) → GlobalTextDomainMapping → Text → PlanEntry → Result Text
unfolding probe_loop token_indices jth_free_in_class token_space blocked_tokens
select_candidate random_below m original (named token) =
    if has_text token (map (λ entry. entry.0) m.used) then err no_completion else ok token
select_candidate random_below m original (generic len) = do
  class_low ← token_space (pos len -ℤ pos 1) (pos m.base)
  select_in_class random_below original m.alphabet (record {
    class_length = len;
    class_low = class_low;
    class_size = m.base ^ len;
    blocked = blocked_tokens m len;
  })
