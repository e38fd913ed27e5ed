-- ===== src/TextAllocation/Finalized.antt =====
-- vault/text_allocation.py: what a finalization leaves in the instance.
use mathlib.Core.List.{◌++◌}
use dbf_anonymizer.Prelude.{
  ◌≡◌, refl, ◌∙◌, sym, ap, true, false, if-elim, arith, List, [], ◌∷◌, length, All, All-map, ℤ,
  Text, IsDistinct, String,
}
use dbf_anonymizer.Errors.{Result, ok, err, ok-injective}
use dbf_anonymizer.Text.{Codec, candidate_alphabet}
use dbf_anonymizer.Text.Alphabet.{
  candidate_alphabet-IsDistinct, candidate_alphabet-unproven, IsUnproven,
}
use dbf_anonymizer.Vault.{VaultDatabase, Faults}
use dbf_anonymizer.Vault.Mappings.{text_mapping_rows}
use dbf_anonymizer.TextAllocation.{GlobalTextDomainMapping}
use dbf_anonymizer.TextAllocation.Slots.{IsConsistent}
use dbf_anonymizer.TextAllocation.Lifecycle.{
  load_loop, load_rows, load_and_validate_persisted, ensure_domain, Outcome, frozen, ensured,
  possible, prepared, with_alphabet, no_safe_alphabet, finalize,
}
use dbf_anonymizer.TextAllocation.Loaded.{AllAccepted, Accepted, load_loop-Accepted}

-- No plan has been made, and no row has been loaded.
pub record IsNew (m : GlobalTextDomainMapping) : Type 0 where
  pub unused : m.used ≡ []
  pub unreserved : m.plan_reserved ≡ []
  pub unpromised : m.plan_promised ≡ []

-- The instance is consistent, and every row of the domain in the vault is accepted by it.
abbrev pub IsReady : Text → GlobalTextDomainMapping → VaultDatabase → Type 0
IsReady domain_id m db =
    IsConsistent m
    × ((rows : List (Text × Text × ℤ))
        → text_mapping_rows db domain_id ≡ ok rows
        → All (Accepted m) rows)

abbrev ReadyAfter : Text → Outcome → Type 0
ReadyAfter domain_id r = r.0 ≡ ok tt → IsReady domain_id r.1 r.2

freeze-IsConsistent :
    (m : GlobalTextDomainMapping) → IsConsistent m → IsConsistent (record m { finalized = true })
freeze-IsConsistent m h = record {
  distinct = h.distinct;
  nonempty = h.nonempty;
  based = h.based;
  used_safe = h.used_safe;
  reserved_safe = h.reserved_safe;
  promised_safe = h.promised_safe;
}

freeze-Accepted :
    (m : GlobalTextDomainMapping) (row : Text × Text × ℤ)
    → Accepted m row
    → Accepted (record m { finalized = true }) row
freeze-Accepted m row h = record {
  valid = h.valid;
  is_occupied = h.is_occupied;
  is_persisted = h.is_persisted;
}

frozen-IsReady :
    (m : GlobalTextDomainMapping) (db : VaultDatabase) (domain_id : Text)
    (rows : List (Text × Text × ℤ)) (r : Result (Unit {0}) × GlobalTextDomainMapping)
    → IsConsistent m
    → text_mapping_rows db domain_id ≡ ok rows
    → AllAccepted m rows r
    → ReadyAfter domain_id (frozen db r)
frozen-IsReady m db domain_id rows (err failure, later) valid read accepted h = cc
frozen-IsReady m db domain_id rows (ok _, later) valid read accepted h =
    let (extends, all) = accepted refl in
    (
      freeze-IsConsistent later (extends.consistent valid),
      λ seen same.
          let e : rows ≡ seen = ok-injective (sym read ∙ same) in
          rw⁻¹ e (All-map (freeze-Accepted later) rows all),
    )

loaded-IsReady :
    (codec : Codec) (m : GlobalTextDomainMapping) (db : VaultDatabase)
    (q : Result (List (Text × Text × ℤ)))
    → IsConsistent m
    → text_mapping_rows db m.domain_id ≡ q
    → ReadyAfter m.domain_id (frozen db (load_rows codec m q))
loaded-IsReady codec m db (err failure) valid read h = cc
loaded-IsReady codec m db (ok rows) valid read h =
    frozen-IsReady m db m.domain_id rows (load_loop codec rows m) valid read
      (load_loop-Accepted codec rows m) h

ensured-IsReady :
    (codec : Codec) (m : GlobalTextDomainMapping) (r : Result (Unit {0}) × VaultDatabase)
    → IsConsistent m
    → ReadyAfter m.domain_id (ensured codec m r)
unfolding load_and_validate_persisted
ensured-IsReady codec m (err failure, db) valid h = cc
ensured-IsReady codec m (ok _, db) valid h =
    loaded-IsReady codec m db (text_mapping_rows db m.domain_id) valid refl h

prepared-IsReady :
    (codec : Codec) (faults : Faults) (m : GlobalTextDomainMapping) (db : VaultDatabase)
    (r : Result (Unit {0}))
    → IsConsistent m
    → ReadyAfter m.domain_id (prepared codec faults m db r)
prepared-IsReady codec faults m db (err failure) valid h = cc
prepared-IsReady codec faults m db (ok _) valid h =
    ensured-IsReady codec m (ensure_domain faults m.domain_id db) valid h

with_alphabet-IsReady :
    (codec : Codec) (faults : Faults) (m : GlobalTextDomainMapping) (db : VaultDatabase)
    (alphabet : Text)
    → IsNew m
    → IsDistinct alphabet
    → ReadyAfter m.domain_id (with_alphabet codec faults m db alphabet)
with_alphabet-IsReady codec faults m db [] new distinct h = cc
with_alphabet-IsReady codec faults m db (c ∷ alphabet) new distinct h =
    let ready = record m { alphabet = c ∷ alphabet; base = length (c ∷ alphabet) } in
    let valid : IsConsistent ready = record {
      distinct = distinct;
      nonempty = omega arith;
      based = refl;
      used_safe = rw new.unused tt;
      reserved_safe = rw new.unreserved tt;
      promised_safe = rw new.unpromised tt;
    } in
    prepared-IsReady codec faults ready db (possible ready) valid h

-- A finalization is fail closed: if `finalize` of a new instance returned, whatever its
-- observations, the rows in the vault and the faults are, the instance is consistent (a proven
-- alphabet of its base, and nothing but safe tokens, each occupied one with its length), and every
-- row of the domain in the vault that it left is entered there and fits the run: its pseudonym is a
-- safe token, not its original, and no longer than the strictest width under which the original was
-- observed.
pub finalize-IsReady :
    (codec : Codec) (faults : Faults) (m : GlobalTextDomainMapping) (db : VaultDatabase)
    → IsNew m
    → (finalize codec faults m db).0 ≡ ok tt
    → IsReady m.domain_id (finalize codec faults m db).1 (finalize codec faults m db).2
unfolding finalize
finalize-IsReady codec faults m db new h =
    if-elim (ReadyAfter m.domain_id) m.finalized (λ early. cc)
      (with_alphabet-IsReady codec faults m db (candidate_alphabet codec m.encodings) new
        (candidate_alphabet-IsDistinct codec m.encodings))
      h

-- A finalization refuses what it cannot prove: where one of the observed encodings is unknown to the
-- codec registry, `finalize` of an open instance raises GLOBAL_TEXT_NO_SAFE_ALPHABET, and neither
-- the instance nor the vault has changed.
pub finalize_unproven :
    (codec : Codec) (faults : Faults) (m : GlobalTextDomainMapping) (db : VaultDatabase)
    (before after : List String) (encoding : String)
    → m.finalized ≡ false
    → m.encodings ≡ before ++ (encoding ∷ after)
    → IsUnproven codec encoding
    → finalize codec faults m db ≡ (err no_safe_alphabet, m, db)
unfolding finalize
finalize_unproven codec faults m db before after encoding open_set observed unproven =
    let empty : candidate_alphabet codec m.encodings ≡ [] =
      ap (candidate_alphabet codec) observed
      ∙ candidate_alphabet-unproven codec before after encoding unproven in
    simp (open_set, empty) refl
