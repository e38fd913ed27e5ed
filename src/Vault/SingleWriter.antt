-- ===== src/Vault/SingleWriter.antt =====
-- vault/store.py: what the writer authority promises to the connections of one dictionary file.
use dbf_anonymizer.Prelude.{
  ℕ, ◌≡◌, ◌≢◌, refl, sym, ◌∙◌, ap, ◌⊎◌, inl, inr, true, Option, none, some, List, Text, none-some,
  text_eq→eq, not-false, false, any, ||-false,
}
use dbf_anonymizer.Errors.{Result, ok, raise_if-eq-ok}
use dbf_anonymizer.Vault.{
  VaultDatabase, Faults, in_transaction, verify_writer_ownership, is_owned_by, lease_required,
}
use dbf_anonymizer.Vault.Atomicity.{Outcome, kept, undone, in_transaction-Outcome}
use dbf_anonymizer.Vault.Acquired.{
  Acquired, taken, refused, acquire_writer_lease-Acquired, Released, freed, not_freed,
  release_writer_lease-Released,
}
use dbf_anonymizer.Vault.Lasting.{close-keeps, Step-lasts}
use dbf_anonymizer.Vault.Lease.{is_held_by, acquire_writer_lease, release_writer_lease, close}
use dbf_anonymizer.Vault.Authority.{
  Shared, seen, put, KeepsAuthority, Step, acquires, releases, writes, closes, opens, Run, start,
  later,
}
use mathlib.Core.Logic.{ite}
use native.Mathlib.Decide.{ℕ_discrete}

ite-cases :
    {i j : ℕ} {A : Type 0} (d : Dec (i ≡ j)) (new old : A)
    → ((i ≡ j) × (ite d new old ≡ new)) ⊎ (ite d new old ≡ old)
ite-cases (yes same) new old = inl (same, refl)
ite-cases (no other) new old = inr refl

is_owned_by-eq :
    (owner token : Option Text)
    → is_owned_by owner token ≡ true
    → (t : Text) × (owner ≡ some t) × (token ≡ some t)
is_owned_by-eq none token h = cc
is_owned_by-eq (some owner) none h = cc
is_owned_by-eq (some owner) (some token) h = (token, ap some (text_eq→eq owner token h), refl)

verify_writer_ownership-eq :
    (db : VaultDatabase)
    → verify_writer_ownership db ≡ ok tt
    → (t : Text) × (db.tables.owner_token ≡ some t) × (db.writer_token ≡ some t)
unfolding verify_writer_ownership
verify_writer_ownership-eq db h =
    is_owned_by-eq db.tables.owner_token db.writer_token
      (not-false _ (raise_if-eq-ok _ lease_required h))

module _ (token : Text) (i : ℕ) where
  -- the lease stands in the durable row, and no other connection is bound to it
  pub record IsHeldBy (s : Shared) : Type 0 where
    pub durable : s.durable.owner_token ≡ some token
    pub bound : (k : ℕ) → (s.connections k).writer_token ≡ some token → i ≡ k

  -- a call that leaves the durable row keeps the holder, if its connection is bound to nothing new
  put-IsHeldBy :
      (s : Shared) (j : ℕ) (db : VaultDatabase)
      → db.tables.owner_token ≡ some token
      → (db.writer_token ≡ some token → (s.connections j).writer_token ≡ some token)
      → IsHeldBy s
      → IsHeldBy (put s j db)
  put-IsHeldBy s j db held old before = record {
    durable = held;
    bound = λ k at_k. elim (ite-cases (ℕ_discrete j k) db (s.connections k)) [
      | inl p ↦ before.bound j (old (cc (p.1, at_k))) ∙ p.0
      | inr q ↦ before.bound k (cc (q, at_k))
    ];
  }

  acquires-bound :
      {owner_token : Text} {before : VaultDatabase} {r : Result ℕ × VaultDatabase}
      → before.tables.owner_token ≡ some token
      → Acquired owner_token before r
      → r.1.writer_token ≡ some token
      → before.writer_token ≡ some token
  acquires-bound held (taken after free written bound) h = absurd (none-some (sym free ∙ held))
  acquires-bound held (refused failure after same bound) h = sym bound ∙ h

  releases-bound :
      {owner_token : Text} {before : VaultDatabase} {r : Result (Unit {0}) × VaultDatabase}
      → Released owner_token before r
      → r.1.writer_token ≡ some token
      → before.writer_token ≡ some token
  releases-bound (freed after free written bound off) h = bound token h
  releases-bound (not_freed failure after same bound) h = sym bound ∙ h

  writes-bound :
      {A : Type 0} {body : VaultDatabase → Result (A × VaultDatabase)} {before : VaultDatabase}
      {r : Result A × VaultDatabase}
      → KeepsAuthority body
      → Outcome body before r
      → r.1.writer_token ≡ some token
      → before.writer_token ≡ some token
  writes-bound keeps (kept value written admitted owned ran) h =
      sym (keeps _ written value ran).1 ∙ h
  writes-bound keeps (undone failure after same open_state bound) h = sym bound ∙ h

  Step-IsHeldBy :
      {s t : Shared} {label : Option Text}
      → Step s label t
      → is_held_by token label ≡ false
      → IsHeldBy s
      → IsHeldBy t
  Step-IsHeldBy {s} (acquires j faults owner_token) other before =
      let after = (acquire_writer_lease faults owner_token (seen s j)).1 in
      let step : Step s none (put s j after) = acquires j faults owner_token in
      put-IsHeldBy s j after (Step-lasts token step other before.durable)
        (acquires-bound before.durable
          (acquire_writer_lease-Acquired owner_token (seen s j) faults))
        before
  Step-IsHeldBy {s} (releases j faults owner_token) other before =
      let after = (release_writer_lease faults owner_token (seen s j)).1 in
      let step : Step s (some owner_token) (put s j after) = releases j faults owner_token in
      put-IsHeldBy s j after (Step-lasts token step other before.durable)
        (releases-bound (release_writer_lease-Released owner_token (seen s j) faults)) before
  Step-IsHeldBy {s} (writes j faults body keeps) other before =
      let after = (in_transaction faults body (seen s j)).1 in
      let step : Step s none (put s j after) = writes j faults body keeps in
      put-IsHeldBy s j after (Step-lasts token step other before.durable)
        (writes-bound keeps (in_transaction-Outcome faults body (seen s j))) before
  Step-IsHeldBy {s} (closes j checkpoint close_fails record_failure_only) other before =
      let after = (close checkpoint close_fails record_failure_only (seen s j)).1 in
      let step : Step s none (put s j after) =
        closes j checkpoint close_fails record_failure_only in
      put-IsHeldBy s j after (Step-lasts token step other before.durable)
        (λ h. sym (close-keeps checkpoint close_fails record_failure_only (seen s j)).1 ∙ h) before
  Step-IsHeldBy {s} (opens j read_only) other before =
      put-IsHeldBy s j _ before.durable (λ h. absurd (none-some h)) before

  Run-IsHeldBy :
      {s t : Shared} {labels : List (Option Text)}
      → Run s labels t
      → any (is_held_by token) labels ≡ false
      → IsHeldBy s
      → IsHeldBy t
  Run-IsHeldBy start other before = before
  Run-IsHeldBy (later {label} run step) other before =
      let split = ||-false (is_held_by token label) _ other in
      Step-IsHeldBy step split.0 (Run-IsHeldBy run split.1 before)

  acquired-IsHeldBy :
      (s : Shared) (r : Result ℕ × VaultDatabase) (tick : ℕ)
      → ((k : ℕ) → (s.connections k).writer_token ≢ some token)
      → Acquired token (seen s i) r
      → r.0 ≡ ok tick
      → IsHeldBy (put s i r.1)
  acquired-IsHeldBy s _ tick fresh (taken after free written bound) h = record {
    durable = ap (λ t. t.owner_token) written;
    bound = λ k at_k. elim (ite-cases (ℕ_discrete i k) after (s.connections k)) [
      | inl p ↦ p.0
      | inr q ↦ absurd (fresh k (cc (q, at_k)))
    ];
  }
  acquired-IsHeldBy s _ tick fresh (refused failure after same bound) h = cc

Acquired-free :
    {owner_token : Text} {before : VaultDatabase} {r : Result ℕ × VaultDatabase} (tick : ℕ)
    → Acquired owner_token before r
    → r.0 ≡ ok tick
    → before.tables.owner_token ≡ none
Acquired-free tick (taken after free written bound) h = free
Acquired-free tick (refused failure after same bound) h = cc

-- There is one writer: after connection i acquired the lease with a token that no connection had,
-- and whatever calls of all connections follow, on whatever failures of SQLite's control statements,
-- as long as none of them asks to release that token, whenever a connection passes the durable check
-- of a transaction unit it is i, and then no connection can acquire a lease, with whatever token.
pub single_writer :
    (s : Shared) {t : Shared} {labels : List (Option Text)} (i j k : ℕ)
    (faults later_faults : Faults) (token other : Text) (tick next : ℕ)
    → ((l : ℕ) → (s.connections l).writer_token ≢ some token)
    → (acquire_writer_lease faults token (seen s i)).0 ≡ ok tick
    → Run (put s i (acquire_writer_lease faults token (seen s i)).1) labels t
    → any (is_held_by token) labels ≡ false
    → verify_writer_ownership (seen t j) ≡ ok tt
    → (i ≡ j) × ((acquire_writer_lease later_faults other (seen t k)).0 ≢ ok next)
single_writer s {t} i j k faults later_faults token other tick next fresh acquired run kept_lease
      owns =
    let first =
      acquired-IsHeldBy token i s _ tick fresh
        (acquire_writer_lease-Acquired token (seen s i) faults) acquired in
    let last = Run-IsHeldBy token i run kept_lease first in
    let a = verify_writer_ownership-eq (seen t j) owns in
    (
      last.bound j (cc (a.1, a.2, last.durable)),
      λ h. none-some (
          sym (Acquired-free next (acquire_writer_lease-Acquired other (seen t k) later_faults) h)
          ∙ last.durable),
    )
