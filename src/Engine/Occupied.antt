-- ===== src/Engine/Occupied.antt =====
-- engine/pass1.py: what the queries on the vault say about the occupied tokens.
use mathlib.Core.Path.{subst}
use dbf_anonymizer.Prelude.{
  ◌≡◌, refl, sym, ◌∙◌, ap, inl, inr, true, false, Bool, not, Bool-cases, List, [], ◌∷◌, any, keep,
  ℤ, pos, eqb_ℤ, eqb_ℤ_iff, Text, text_eq, text_eq→eq, text_eq_refl, mem, IsAscending, arith,
}
use dbf_anonymizer.Errors.{ok, ok-injective, >>=-eq-ok}
use dbf_anonymizer.Values.{text}
use dbf_anonymizer.CanonicalText.{int_text, parse_canonical_integer_text}
use dbf_anonymizer.NumericAllocation.ReadBack.{parse-int_text, int_text-parse}
use dbf_anonymizer.Vault.{
  Tables, Cell, text_cell, NumericKeyMapping, VaultDatabase, internal_connection,
}
use dbf_anonymizer.Vault.Connection.{internal_connection-eq_tables, internal_connection-trusted}
use dbf_anonymizer.Vault.NumericMappings.{with_pseudonym}
use dbf_anonymizer.Vault.Mappings.{holds_text}
use dbf_anonymizer.NumericKeys.{NumericKeyDomain, contains_pseudonym}
use dbf_anonymizer.NumericKeys.Bijection.{IsNodup}
use dbf_anonymizer.Engine.SqlIntegers.{order_by_cast}
use dbf_anonymizer.Engine.CastOrder.{
  IsNarrow, contained-cast, mem-order_by_cast, order_by_cast-IsAscending,
}
use dbf_anonymizer.Engine.NumericPass.{
  numeric_token_occupied, value_free_loop, token_of, parsed_tokens, numeric_occupied_stream,
}

-- two integers have the same text only if they are the same
pub text_eq-int_text : (a b : ℤ) → text_eq (int_text a) (int_text b) ≡ eqb_ℤ a b
text_eq-int_text a b = elim (Bool-cases (eqb_ℤ a b)) [
  | inl same ↦
      let e : a ≡ b = (eqb_ℤ_iff a b).0 same in
      ap (λ x. text_eq (int_text a) (int_text x)) (sym e) ∙ text_eq_refl (int_text a) ∙ sym same
  | inr apart ↦ elim (Bool-cases (text_eq (int_text a) (int_text b))) [
    | inl equal ↦
        let texts : int_text a ≡ int_text b = text_eq→eq (int_text a) (int_text b) equal in
        let e : a ≡ b = ok-injective (
          sym (parse-int_text a)
          ∙ ap (λ t. parse_canonical_integer_text (text t)) texts
          ∙ parse-int_text b) in
        absurd (ground (arith, (eqb_ℤ_iff a b).1 e, apart))
    | inr differ ↦ differ ∙ sym apart
  ]
]

holds-token_of :
    (c : Cell) (value : ℤ) (s : Text)
    → token_of c ≡ ok value
    → holds_text s c ≡ text_eq (int_text value) s
holds-token_of (text_cell t) value s h = ap (λ x. text_eq x s) (sym (int_text-parse t value h))
holds-token_of Cell.null_cell value s h = cc
holds-token_of Cell.real_cell value s h = cc
holds-token_of (Cell.integer_cell n) value s h = cc
holds-token_of (Cell.blob_cell b) value s h = cc

module _ (domain_id : Text) (token : ℤ) where
  abbrev holds_token : NumericKeyMapping → Bool
  holds_token = with_pseudonym domain_id (int_text token)

  abbrev of_domain : NumericKeyMapping → Bool
  of_domain row = text_eq row.domain_id domain_id

  keep_here :
      (row : NumericKeyMapping) (rows : List NumericKeyMapping)
      → of_domain row ≡ true
      → row ∷ keep of_domain rows ≡ keep of_domain (row ∷ rows)
  keep_here row rows own = rw own

  keep_past :
      (row : NumericKeyMapping) (rows : List NumericKeyMapping)
      → of_domain row ≡ false
      → keep of_domain rows ≡ keep of_domain (row ∷ rows)
  keep_past row rows other = rw other

  rows-mem :
      (rows : List NumericKeyMapping) (tokens : List ℤ)
      → parsed_tokens (keep of_domain rows) ≡ ok tokens
      → any holds_token rows ≡ mem token tokens
  rows-mem [] tokens h = ap (mem token) (ok-injective h)
  rows-mem (row ∷ rows) tokens h = elim (Bool-cases (of_domain row)) [
    | inl own ↦
        let parsed : parsed_tokens (row ∷ keep of_domain rows) ≡ ok tokens =
          ap parsed_tokens (keep_here row rows own) ∙ h in
        let s = >>=-eq-ok (token_of row.pseudonym_value) _ parsed in
        let t = >>=-eq-ok (parsed_tokens (keep of_domain rows)) _ s.2 in
        let here : holds_text (int_text token) row.pseudonym_value ≡ eqb_ℤ s.0 token =
          holds-token_of row.pseudonym_value s.0 (int_text token) s.1
          ∙ text_eq-int_text s.0 token in
        let later = rows-mem rows t.0 t.1 in
        let list : s.0 ∷ t.0 ≡ tokens = ok-injective t.2 in
        rw (own, here, later) (ap (mem token) list)
    | inr other ↦
        let rest : parsed_tokens (keep of_domain rows) ≡ ok tokens =
          ap parsed_tokens (keep_past row rows other) ∙ h in
        rw other (rows-mem rows tokens rest)
  ]

module _ (db : VaultDatabase) (domain_id : Text) (tokens : List ℤ)
    (read : numeric_occupied_stream db domain_id ≡ ok tokens) where
  stream-parts :
      (parsed : List ℤ) × (internal_connection db ≡ ok db.tables)
      × (parsed_tokens (keep (of_domain domain_id (pos 0)) db.tables.numeric_key_mappings)
          ≡ ok parsed)
      × (order_by_cast parsed ≡ tokens)
  unfolding numeric_occupied_stream
  stream-parts =
      let s = >>=-eq-ok (internal_connection db) _ read in
      let conn = internal_connection-eq_tables db s.0 s.1 in
      let t =
        >>=-eq-ok (parsed_tokens (keep (of_domain domain_id (pos 0)) s.0.numeric_key_mappings)) _
          s.2 in
      (
        t.0,
        internal_connection-trusted db conn.0,
        ap
              (λ (x : Tables).
                parsed_tokens (keep (of_domain domain_id (pos 0)) x.numeric_key_mappings))
              conn.1
            ∙ t.1,
        ok-injective t.2,
      )

  -- Distinct tokens of a narrow domain come in ascending order.
  pub tokens-IsAscending :
      (d : NumericKeyDomain)
      → IsNarrow d
      → ((t : ℤ) → mem t tokens ≡ true → contains_pseudonym d t ≡ true)
      → IsNodup tokens
      → IsAscending tokens
  tokens-IsAscending d narrow within nodup =
      let (parsed, conn, rows, list) = stream-parts in
      subst IsAscending list (
        order_by_cast-IsAscending parsed (subst IsNodup (sym list) nodup)
          (λ v m. contained-cast d narrow v (within v (sym (ap (mem v) list) ∙ m))))

  -- A token is found occupied exactly if the stream has it.
  pub numeric_token_occupied-mem :
      (token : ℤ) → numeric_token_occupied db domain_id token ≡ ok (mem token tokens)
  unfolding numeric_token_occupied
  numeric_token_occupied-mem token =
      let found =
        rows-mem domain_id token db.tables.numeric_key_mappings stream-parts.0 stream-parts.2 in
      let listed : mem token stream-parts.0 ≡ mem token tokens =
        sym (mem-order_by_cast token stream-parts.0) ∙ ap (mem token) stream-parts.3 in
      rw stream-parts.1 (ap ok (found ∙ listed))

  pub value_free_loop-any :
      (values : List ℤ)
      → value_free_loop db domain_id values ≡ ok (any (λ v. not (mem v tokens)) values)
  unfolding value_free_loop
  value_free_loop-any [] = refl
  value_free_loop-any (v ∷ values) =
      rw (numeric_token_occupied-mem v) (elim (Bool-cases (mem v tokens)) [
        | inl taken ↦ rw taken (value_free_loop-any values)
        | inr free ↦ rw free
      ])
