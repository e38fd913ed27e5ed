-- ===== src/Engine/Feasible.antt =====
-- engine/pass1.py: `_numeric_residual_feasible` against the kernel `plan_numeric_bijection`.
use dbf_anonymizer.Prelude.{
  ℕ, ◌≡◌, refl, ◌∙◌, ap, inl, inr, true, false, Bool, not, ◌&&◌, ◌||◌, ◌==◌, Bool-cases, List, [],
  ◌∷◌, if◌then◌else◌, length, any, keep, ℤ, pos, ◌-ℤ◌, ltb_ℤ, leb_ℤ, eqb_ℤ, eqb_ℤ_iff, ◌≤ℤ◌,
  int_laws, Text, mem, IsAscending, insert, set_of, arith, ltb_ℤ→le, ltb_ℤ→lt, lt→ltb_ℤ, le→ltb_ℤ,
  set_of-ascending, ==_iff,
}
use dbf_anonymizer.Errors.{ok, ◌>>=◌}
use dbf_anonymizer.NumericKeys.{
  NumericKeyDomain, size, contains_pseudonym, blocked_in, every_original_allowed,
  plan_numeric_bijection,
}
use dbf_anonymizer.NumericKeys.Bijection.{IsNodup, length-set_of}
use dbf_anonymizer.Vault.{VaultDatabase}
use dbf_anonymizer.Engine.Spool.{PassOneSpool}
use dbf_anonymizer.Engine.CastOrder.{IsNarrow, narrow-fits, keep-cast}
use dbf_anonymizer.Engine.NumericPass.{
  remaining_values, spool_value_free_in_domain, numeric_occupied_stream, numeric_residual_feasible,
}
use dbf_anonymizer.Engine.Occupied.{value_free_loop-any, tokens-IsAscending}

any-insert : (p : ℤ → Bool) (a : ℤ) (s : List ℤ) → any p (insert a s) ≡ (p a || any p s)
unfolding insert
any-insert p a [] = refl
any-insert p a (x ∷ xs) = elim (Bool-cases (ltb_ℤ a x)) [
  | inl before ↦ rw before
  | inr after ↦ elim (Bool-cases (eqb_ℤ x a)) [
    | inl same ↦ let e : x ≡ a = (eqb_ℤ_iff x a).0 same in rw (after, same) (ground (arith, ap p e))
    | inr other ↦ rw (after, other) (ground (arith, any-insert p a xs))
  ]
]

any-set_of : (p : ℤ → Bool) (xs : List ℤ) → any p (set_of xs) ≡ any p xs
unfolding set_of
any-set_of p [] = refl
any-set_of p (x ∷ xs) = any-insert p x (set_of xs) ∙ ap (λ b. p x || b) (any-set_of p xs)

any-keep : (p q : ℤ → Bool) (xs : List ℤ) → any q (keep p xs) ≡ any (λ x. p x && q x) xs
any-keep p q [] = refl
any-keep p q (x ∷ xs) = ground (arith, any-keep p q xs)

any-ext : (p q : ℤ → Bool) (xs : List ℤ) → ((x : ℤ) → p x ≡ q x) → any p xs ≡ any q xs
any-ext p q [] h = refl
any-ext p q (x ∷ xs) h = ground (arith, h x, any-ext p q xs h)

keep-all : (p : ℤ → Bool) (xs : List ℤ) → ((x : ℤ) → mem x xs ≡ true → p x ≡ true) → keep p xs ≡ xs
keep-all p [] h = refl
keep-all p (x ∷ xs) h =
    rw (h x (ground (arith, (eqb_ℤ_iff x x).1 refl)))
      (ap (◌∷◌ x) (keep-all p xs (λ y m. h y (ground (arith, m)))))

and_false : (b : Bool) → not (b && false) ≡ true
and_false b = ground arith

-- an original whose own value is a token that is not blocked
abbrev pub own_free : NumericKeyDomain → List ℤ → ℤ → Bool
own_free d blocked v = contains_pseudonym d v && not (mem v blocked)

-- With a free token, the kernel's last loop only asks for a second one where some original's own
-- value is free.
every_original_allowed-any :
    (d : NumericKeyDomain) (blocked : List ℤ) (free : ℤ) (vs : List ℤ)
    → pos 1 ≤ℤ free
    → every_original_allowed d blocked free vs
      ≡ not (any (own_free d blocked) vs && ltb_ℤ free (pos 2))
unfolding every_original_allowed
every_original_allowed-any d blocked free [] one = refl
every_original_allowed-any d blocked free (v ∷ vs) one =
    let ih = every_original_allowed-any d blocked free vs one in
    elim (Bool-cases (own_free d blocked v)) [
      | inl own ↦ elim (Bool-cases (ltb_ℤ free (pos 2))) [
        | inl few ↦
            let short : ltb_ℤ (free -ℤ pos 1) (pos 1) ≡ true =
              lt→ltb_ℤ (free -ℤ pos 1) (pos 1) (omega (int_laws, ltb_ℤ→lt free (pos 2) few)) in
            rw (own, few, short)
        | inr enough ↦
            let long : ltb_ℤ (free -ℤ pos 1) (pos 1) ≡ false =
              le→ltb_ℤ (free -ℤ pos 1) (pos 1) (omega (int_laws, ltb_ℤ→le free (pos 2) enough)) in
            rw (own, long) (ih ∙ rw enough (and_false (any (own_free d blocked) vs)))
      ]
      | inr away ↦
          let large : ltb_ℤ free (pos 1) ≡ false = le→ltb_ℤ free (pos 1) one in rw (away, large) ih
    ]

refused : (b : Bool) → ok false ≡ ok (b && false)
refused b = ground arith

-- without an observation there is nothing to ask
last_test :
    (p : ℤ → Bool) (b : Bool) (os : List ℤ)
    → (if ltb_ℤ (pos 0) (pos (length os)) then ok (not (any p os && b)) else ok true)
      ≡ ok (not (any p os && b) && true)
last_test p b [] = refl
last_test p b (o ∷ os) = ground arith

same_length : (n : ℕ) → (n == n) ≡ true
same_length n = (==_iff n n).1 refl

module _ (d : NumericKeyDomain) (tokens : List ℤ) (up : IsAscending tokens)
    (within : (t : ℤ) → mem t tokens ≡ true → contains_pseudonym d t ≡ true) where
  pub blocked_in-tokens : blocked_in d tokens ≡ tokens
  blocked_in-tokens =
      ap set_of (keep-all (contains_pseudonym d) tokens within) ∙ set_of-ascending tokens up

  pub plan-tokens :
      (os : List ℤ)
      → IsNodup os
      → plan_numeric_bijection d os tokens ≡ (
          if ltb_ℤ (size d -ℤ pos (length tokens)) (pos (length os))
          then ok false
          else ok (every_original_allowed d tokens (size d -ℤ pos (length tokens)) (set_of os)))
  unfolding plan_numeric_bijection
  plan-tokens os nodup = rw (blocked_in-tokens, length-set_of os nodup, same_length (length os))

  module _ (db : VaultDatabase) (spool : PassOneSpool) (domain_id : Text)
      (read : numeric_occupied_stream db domain_id ≡ ok tokens) (narrow : IsNarrow d) where
    -- The query on the spool asks for the own values of the observations, if its parameters fit.
    pub spool_value_free-any :
        d.pseudonym_low ≤ℤ d.pseudonym_high
        → spool_value_free_in_domain db spool domain_id d
          ≡ ok (any (own_free d tokens) (remaining_values spool domain_id))
    unfolding spool_value_free_in_domain
    spool_value_free-any order =
        let fits = narrow-fits d narrow order in
        let rows = keep-cast d narrow (remaining_values spool domain_id) in
        rw (fits, rows)
          (value_free_loop-any db domain_id tokens read
            (keep (contains_pseudonym d) (remaining_values spool domain_id)))
        ∙ ap ok (
            any-keep (contains_pseudonym d) (λ v. not (mem v tokens))
              (remaining_values spool domain_id))

    kernel_side :
        (os : List ℤ)
        → IsNodup os
        → pos 1 ≤ℤ (size d -ℤ pos (length tokens))
        → ltb_ℤ (size d -ℤ pos (length tokens)) (pos (length os)) ≡ false
        → plan_numeric_bijection d os tokens
          ≡ ok (not (any (own_free d tokens) os && ltb_ℤ (size d -ℤ pos (length tokens)) (pos 2)))
    kernel_side os nodup one enough =
        let free = size d -ℤ pos (length tokens) in
        plan-tokens os nodup
        ∙ rw enough (
            ap ok (
              every_original_allowed-any d tokens free (set_of os) one
              ∙ ap (λ b. not (b && ltb_ℤ free (pos 2))) (any-set_of (own_free d tokens) os)))

    -- a free token is more than no range
    low_le_high : pos 1 ≤ℤ (size d -ℤ pos (length tokens)) → d.pseudonym_low ≤ℤ d.pseudonym_high
    low_le_high one = omega (int_laws, one)

    ascending-eq_plan :
        IsNodup (remaining_values spool domain_id)
        → numeric_residual_feasible d
            (pos (length tokens))
            (pos (length (remaining_values spool domain_id)))
            db
            spool
            domain_id
          ≡ (plan_numeric_bijection d (remaining_values spool domain_id) tokens >>= λ planned.
              ok (planned && leb_ℤ (pos 1) (size d -ℤ pos (length tokens))))
    unfolding numeric_residual_feasible
    ascending-eq_plan nodup =
        let os = remaining_values spool domain_id in
        let free = size d -ℤ pos (length tokens) in
        elim (Bool-cases (ltb_ℤ free (pos (length os)))) [
          | inl few ↦ rw (few, plan-tokens os nodup) (rw few)
          | inr enough ↦ elim (Bool-cases (ltb_ℤ free (pos 1))) [
            | inl none_left ↦
                let shut : leb_ℤ (pos 1) free ≡ false = ground (arith, none_left) in
                rw (enough, none_left, plan-tokens os nodup, shut)
                  (rw enough (refused (every_original_allowed d tokens free (set_of os))))
            | inr left ↦
                let one = ltb_ℤ→le free (pos 1) left in
                let open_test : leb_ℤ (pos 1) free ≡ true = ground (arith, left) in
                rw
                  (
                    enough,
                    left,
                    kernel_side os nodup one enough,
                    open_test,
                    spool_value_free-any (low_le_high one),
                  )
                  (last_test (own_free d tokens) (ltb_ℤ free (pos 2)) os)
          ]
        ]

-- `_numeric_residual_feasible` is the kernel's test with one more condition: on a domain whose
-- bounds are 64-bit integers and not the extreme ones, over the counts of the vault's tokens,
-- distinct and all in the domain, and of distinct remaining observations it answers whether `plan_numeric_bijection` accepts and a token of the domain is free. Where no
-- observation remains and every token is occupied, the kernel accepts and this test refuses.
pub numeric_residual_feasible-eq_plan :
    (d : NumericKeyDomain) (tokens : List ℤ) (db : VaultDatabase) (spool : PassOneSpool)
    (domain_id : Text)
    → IsNarrow d
    → numeric_occupied_stream db domain_id ≡ ok tokens
    → ((t : ℤ) → mem t tokens ≡ true → contains_pseudonym d t ≡ true)
    → IsNodup tokens
    → IsNodup (remaining_values spool domain_id)
    → numeric_residual_feasible d
        (pos (length tokens))
        (pos (length (remaining_values spool domain_id)))
        db
        spool
        domain_id
      ≡ (plan_numeric_bijection d (remaining_values spool domain_id) tokens >>= λ planned.
          ok (planned && leb_ℤ (pos 1) (size d -ℤ pos (length tokens))))
numeric_residual_feasible-eq_plan d tokens db spool domain_id narrow read within distinct nodup =
    let up = tokens-IsAscending db domain_id tokens read d narrow within distinct in
    ascending-eq_plan d tokens up within db spool domain_id read narrow nodup
