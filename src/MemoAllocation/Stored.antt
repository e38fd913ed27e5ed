-- ===== src/MemoAllocation/Stored.antt =====
-- vault/memo_allocation.py: what a recovery row must hold to give its payload back.
use dbf_anonymizer.Prelude.{
  ℕ, ◌≡◌, ◌≢◌, refl, sym, ◌∙◌, ap, inl, inr, true, false, ◌&&◌, &&-parts, Bool-cases, Option, none,
  some, List, Text, text_eq, text_eq→eq,
}
use dbf_anonymizer.Errors.{ok, ok-injective}
use dbf_anonymizer.Values.{
  Value, null, boolean, integer, text, bytes, bytearray, date, datetime, other,
}
use dbf_anonymizer.Memo.{bytes_eq}
use dbf_anonymizer.Vault.Recovery.{Utf8, payload_text, payload_binary, memo_blob, encoded}
use dbf_anonymizer.MemoAllocation.{same_payload, same_image, kind_of, recovered_row, decoded}
use dbf_anonymizer.MemoAllocation.Masked.{IsPayload, as_stored}

abbrev pub LawOf : Utf8 → (List ℕ → Option Text) → Type 0
LawOf utf8 decode = (s : Text) (b : List ℕ) → utf8 s ≡ some b → decode b ≡ some s

-- what a row must hold to give the payload back
abbrev pub Holds : (List ℕ → Option Text) → Value → List ℕ × Text → Type 0
Holds decode value row = recovered_row decode (some row) ≡ ok (some (as_stored value))

text_Holds :
    (utf8 : Utf8) (decode : List ℕ → Option Text)
    → LawOf utf8 decode
    → (s : Text) (b : List ℕ) → utf8 s ≡ some b
    → Holds decode (text s) (b, payload_text)
text_Holds utf8 decode law s b h = rw (law s b h)

encoded-some : (o : Option (List ℕ)) (blob : List ℕ) → encoded o ≡ ok blob → o ≡ some blob
encoded-some none blob h = cc
encoded-some (some b) blob h = ap some (ok-injective h)

false_ok : ok false ≢ ok true
false_ok h = cc

text_row :
    (utf8 : Utf8) (decode : List ℕ → Option Text)
    → LawOf utf8 decode
    → (s : Text) (payload : List ℕ) (image : Option (List ℕ)) → utf8 s ≡ image
    → same_image payload image ≡ ok true
    → decoded (decode payload) ≡ ok (some (text s))
text_row utf8 decode law s payload none is_image h = cc
text_row utf8 decode law s payload (some b) is_image h =
    let e : payload ≡ b = text_eq→eq payload b (ok-injective h) in
    rw (law s payload (is_image ∙ ap some (sym e)))

binary_row :
    (decode : List ℕ → Option Text) (b payload : List ℕ) (kind : Text)
    → (text_eq kind payload_binary && bytes_eq payload b) ≡ true
    → recovered_row decode (some (payload, kind)) ≡ ok (some (bytes b))
binary_row decode b payload kind h =
    let parts = &&-parts (text_eq kind payload_binary) (bytes_eq payload b) h in
    let is_kind : kind ≡ payload_binary = text_eq→eq kind payload_binary parts.0 in
    let is_payload : payload ≡ b = text_eq→eq payload b parts.1 in
    ap (λ k. recovered_row decode (some (payload, k))) is_kind
    ∙ ap (λ x. ok (some (bytes x))) is_payload

-- the blob of a new row
pub memo_blob-Holds :
    (utf8 : Utf8) (decode : List ℕ → Option Text)
    → LawOf utf8 decode
    → (value : Value) (blob : List ℕ) → IsPayload value
    → memo_blob utf8 (kind_of value) value ≡ ok blob
    → Holds decode value (blob, kind_of value)
unfolding memo_blob
memo_blob-Holds utf8 decode law (text s) blob p h =
    text_Holds utf8 decode law s blob (encoded-some (utf8 s) blob h)
memo_blob-Holds utf8 decode law (bytes b) blob p h =
    ap (λ x. ok (some (bytes x))) (sym (ok-injective h))
memo_blob-Holds utf8 decode law (bytearray b) blob p h =
    ap (λ x. ok (some (bytes x))) (sym (ok-injective h))
memo_blob-Holds utf8 decode law null blob p h = absurd p
memo_blob-Holds utf8 decode law (boolean b) blob p h = absurd p
memo_blob-Holds utf8 decode law (integer i) blob p h = absurd p
memo_blob-Holds utf8 decode law (date d) blob p h = absurd p
memo_blob-Holds utf8 decode law (datetime d t) blob p h = absurd p
memo_blob-Holds utf8 decode law other blob p h = absurd p

-- the row that is reused
pub same_payload-Holds :
    (utf8 : Utf8) (decode : List ℕ → Option Text)
    → LawOf utf8 decode
    → (value : Value) (payload : List ℕ) (kind : Text) → IsPayload value
    → same_payload utf8 value (payload, kind) ≡ ok true
    → Holds decode value (payload, kind)
same_payload-Holds utf8 decode law (text s) payload kind p h =
    elim (Bool-cases (text_eq kind payload_text)) [
      | inl is_text ↦
          rw is_text (text_row utf8 decode law s payload (utf8 s) refl (sym (rw is_text) ∙ h))
      | inr foreign ↦ absurd (false_ok (sym (rw foreign) ∙ h))
    ]
same_payload-Holds utf8 decode law (bytes b) payload kind p h =
    binary_row decode b payload kind (ok-injective h)
same_payload-Holds utf8 decode law (bytearray b) payload kind p h =
    binary_row decode b payload kind (ok-injective h)
same_payload-Holds utf8 decode law null payload kind p h = absurd p
same_payload-Holds utf8 decode law (boolean b) payload kind p h = absurd p
same_payload-Holds utf8 decode law (integer i) payload kind p h = absurd p
same_payload-Holds utf8 decode law (date d) payload kind p h = absurd p
same_payload-Holds utf8 decode law (datetime d t) payload kind p h = absurd p
same_payload-Holds utf8 decode law other payload kind p h = absurd p
