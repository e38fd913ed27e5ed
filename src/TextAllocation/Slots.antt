-- ===== src/TextAllocation/Slots.antt =====
-- vault/text_allocation.py: the tokens that _select_candidate may not take, and its choice among the
-- others.
use dbf_anonymizer.Prelude.{
  ℕ, suc, ◌^◌, ◌<◌, ◌≡◌, refl, ◌∙◌, sym, ap, inl, inr, true, false, ◌||◌, ||-false, Bool-cases,
  if-elim, arith, List, [], ◌∷◌, map, ◌==◌, ==_iff, keep, length, All, ℤ, pos, ◌-ℤ◌, eq_of_parts,
  int_laws, Text, IsDistinct, text_eq, text_eq→eq,
}
use dbf_anonymizer.Errors.{ok}
use dbf_anonymizer.Text.{is_safe_token}
use dbf_anonymizer.Text.Space.{token_space-eq_geometric}
use dbf_anonymizer.NumericAllocation.Complete.{IsBelow}
use dbf_anonymizer.TextAllocation.{
  GlobalTextDomainMapping, generic, has_text, add_text, update_texts, of_length, blocked_tokens,
  select_candidate,
}
use dbf_anonymizer.TextAllocation.Classes.{InClass}
use dbf_anonymizer.TextAllocation.Selection.{select_in_class-IsFresh}

-- the pseudonyms that are occupied
abbrev pub occupied : GlobalTextDomainMapping → List Text
occupied m = map (λ entry. entry.0) m.used

abbrev IsSafe : Text → Text → Type 0
IsSafe alphabet t = is_safe_token t alphabet ≡ true

-- What a finalized instance keeps: a proven alphabet, and nothing but safe tokens in its sets, each
-- occupied one with its length.
pub record IsConsistent (m : GlobalTextDomainMapping) : Type 0 where
  pub distinct : IsDistinct m.alphabet
  pub nonempty : 0 < length m.alphabet
  pub based : m.base ≡ length m.alphabet
  pub used_safe :
      All (λ (entry : Text × ℕ). IsSafe m.alphabet entry.0 × (entry.1 ≡ length entry.0)) m.used
  pub reserved_safe : All (IsSafe m.alphabet) m.plan_reserved
  pub promised_safe : All (IsSafe m.alphabet) m.plan_promised

add_text-All :
    (P : Text → Type 0) (s : Text) (texts : List Text)
    → P s
    → All P texts
    → All P (add_text s texts)
add_text-All P s texts h hs = if-elim (All P) (has_text s texts) hs (h, hs)

update_texts-All :
    (P : Text → Type 0) (texts more : List Text)
    → All P texts
    → All P more
    → All P (update_texts texts more)
update_texts-All P texts [] h hs = h
update_texts-All P texts (s ∷ more) h hs =
    add_text-All P s (update_texts texts more) hs.0 (update_texts-All P texts more h hs.1)

has_text-add :
    (t s : Text) (texts : List Text)
    → has_text t (add_text s texts) ≡ (text_eq s t || has_text t texts)
has_text-add t s texts = elim (Bool-cases (has_text s texts)) [
  | inl there ↦ elim (Bool-cases (text_eq s t)) [
    | inl same ↦
        let e : has_text t texts ≡ true = rw⁻¹ (text_eq→eq s t same) there in
        rw (there, same, e) refl
    | inr other ↦ rw (there, other) refl
  ]
  | inr new ↦ rw new refl
]

-- No member of the union is no member of either.
has_text-update :
    (t : Text) (texts more : List Text)
    → has_text t (update_texts texts more) ≡ (has_text t more || has_text t texts)
has_text-update t texts [] = refl
has_text-update t texts (s ∷ more) =
    has_text-add t s (update_texts texts more) ∙ ground (arith, has_text-update t texts more)

module _ (alphabet : Text) (l : ℕ) where
  of_length-InClass :
      (texts : List Text)
      → All (IsSafe alphabet) texts
      → All (InClass alphabet l) (of_length (suc l) texts)
  of_length-InClass [] h = tt
  of_length-InClass (t ∷ texts) h = elim (Bool-cases (length t == suc l)) [
    | inl fits ↦ rw fits ((h.0, (==_iff (length t) (suc l)).0 fits), of_length-InClass texts h.1)
    | inr other ↦ rw other (of_length-InClass texts h.1)
  ]

  used-InClass :
      (used : List (Text × ℕ))
      → All (λ (entry : Text × ℕ). IsSafe alphabet entry.0 × (entry.1 ≡ length entry.0)) used
      → All (InClass alphabet l) (map (λ entry. entry.0) (keep (λ entry. entry.1 == suc l) used))
  used-InClass [] h = tt
  used-InClass (entry ∷ used) h = elim (Bool-cases (entry.1 == suc l)) [
    | inl fits ↦
        rw fits ((h.0.0, sym h.0.1 ∙ (==_iff entry.1 (suc l)).0 fits), used-InClass used h.1)
    | inr other ↦ rw other (used-InClass used h.1)
  ]

-- A token of the length is found among the texts of that length.
has_text-of_length :
    (t : Text) (len : ℕ) (texts : List Text)
    → length t ≡ len
    → has_text t (of_length len texts) ≡ has_text t texts
has_text-of_length t len [] h = refl
has_text-of_length t len (s ∷ texts) h = elim (Bool-cases (length s == len)) [
  | inl fits ↦ rw fits (ap (λ r. text_eq s t || r) (has_text-of_length t len texts h))
  | inr other ↦
      let apart : text_eq s t ≡ false = elim (Bool-cases (text_eq s t)) [
        | inl same ↦
            let e : length s ≡ len = ap length (text_eq→eq s t same) ∙ h in ground (arith, e)
        | inr fine ↦ fine
      ] in
      rw (other, apart) (has_text-of_length t len texts h)
]

has_text-used :
    (t : Text) (len : ℕ) (used : List (Text × ℕ)) (alphabet : Text)
    → length t ≡ len
    → All (λ (entry : Text × ℕ). IsSafe alphabet entry.0 × (entry.1 ≡ length entry.0)) used
    → has_text t (map (λ entry. entry.0) (keep (λ entry. entry.1 == len) used))
      ≡ has_text t (map (λ entry. entry.0) used)
has_text-used t len [] alphabet h all_safe = refl
has_text-used t len (entry ∷ used) alphabet h all_safe = elim (Bool-cases (entry.1 == len)) [
  | inl fits ↦
      rw fits (ap (λ r. text_eq entry.0 t || r) (has_text-used t len used alphabet h all_safe.1))
  | inr other ↦
      let apart : text_eq entry.0 t ≡ false = elim (Bool-cases (text_eq entry.0 t)) [
        | inl same ↦
            let e : entry.1 ≡ len = all_safe.0.1 ∙ ap length (text_eq→eq entry.0 t same) ∙ h in
            ground (arith, e)
        | inr fine ↦ fine
      ] in
      rw (other, apart) (has_text-used t len used alphabet h all_safe.1)
]

module _ (m : GlobalTextDomainMapping) (l : ℕ) (valid : IsConsistent m) where
  blocked-InClass : All (InClass m.alphabet l) (blocked_tokens m (suc l))
  unfolding blocked_tokens
  blocked-InClass =
      let used_here = used-InClass m.alphabet l m.used valid.used_safe in
      let first = update_texts-All (InClass m.alphabet l) [] _ tt used_here in
      let second =
        update_texts-All (InClass m.alphabet l) _ _ first
          (of_length-InClass m.alphabet l m.plan_reserved valid.reserved_safe) in
      update_texts-All (InClass m.alphabet l) _ _ second
        (of_length-InClass m.alphabet l m.plan_promised valid.promised_safe)

  -- whether a token of the length is blocked
  has_text-blocked :
      (t : Text)
      → length t ≡ suc l
      → has_text t (blocked_tokens m (suc l))
        ≡ (has_text t m.plan_promised || (has_text t m.plan_reserved || has_text t (occupied m)))
  unfolding blocked_tokens
  has_text-blocked t len =
      let taken = map (λ entry. entry.0) (keep (λ entry. entry.1 == suc l) m.used) in
      let reserved = of_length (suc l) m.plan_reserved in
      let inner : has_text t (update_texts [] taken) ≡ has_text t (occupied m) =
        has_text-update t [] taken
        ∙ ground (arith, has_text-used t (suc l) m.used m.alphabet len valid.used_safe) in
      rw
        (
          has_text-update t (update_texts (update_texts [] taken) reserved)
              (of_length (suc l) m.plan_promised),
          has_text-update t (update_texts [] taken) reserved,
          inner,
          has_text-of_length t (suc l) m.plan_promised len,
          has_text-of_length t (suc l) m.plan_reserved len,
        )
        refl

  -- The selection for a slot of a length class is total and sound: where the class has a token that
  -- is neither occupied nor reserved nor promised, and the original, if it is a token of the class,
  -- is one of those, `_select_candidate` returns for every sequence of draws that keeps the contract
  -- of `randbelow`, and what it returns is a safe token of exactly the planned length, not the
  -- original, and neither occupied nor reserved nor promised. The alphabet is proven, and the sets
  -- of the instance hold safe tokens only, the occupied ones with their lengths.
  pub select_candidate-IsFree :
      (original : Text) (random_below : ℕ → ℤ → ℤ)
      → length (blocked_tokens m (suc l)) < m.base ^ suc l
      → (InClass m.alphabet l original → has_text original (blocked_tokens m (suc l)) ≡ true)
      → IsBelow random_below
      → (t : Text) × (select_candidate random_below m original (generic (suc l)) ≡ ok t)
        × (is_safe_token t m.alphabet ≡ true)
        × (length t ≡ suc l)
        × (text_eq t original ≡ false)
        × (has_text t (occupied m) ≡ false)
        × (has_text t m.plan_reserved ≡ false)
        × (has_text t m.plan_promised ≡ false)
  unfolding select_candidate
  select_candidate-IsFree original random_below room own drawn =
      let (t, found, fresh) =
        select_in_class-IsFresh m.alphabet original l (blocked_tokens m (suc l)) random_below
          valid.distinct valid.nonempty blocked-InClass (rw valid.based at room) own drawn in
      let (safe, len) = fresh.in_class in
      let apart = ||-false _ _ (sym (has_text-blocked t len) ∙ fresh.free) in
      let apart' = ||-false _ _ apart.1 in
      let one : pos (suc l) -ℤ pos 1 ≡ pos l =
        eq_of_parts (pos (suc l) -ℤ pos 1) (pos l) (omega int_laws) in
      (
        t,
        rw (valid.based, one, token_space-eq_geometric l (length m.alphabet) valid.nonempty) found,
        safe,
        len,
        fresh.other,
        apart'.1,
        apart'.0,
        apart.0,
      )
