-- ===== src/Checks/StructureChecks.antt =====
-- Paths that vault/store.py registers, a registration, and the theorem for one path.
use dbf_anonymizer.Prelude.{◌≡◌, refl, true, none, Text, codes, pos}
use dbf_anonymizer.Errors.{ok, err, value_error, ◌>>=◌}
use dbf_anonymizer.Vault.{vault_state_failure}
use dbf_anonymizer.Vault.Structure.{normalize_relative_path, register_table, register_field}
use dbf_anonymizer.Vault.Structure.Paths.{IsNormal, normalize_relative_path-IsNormal}
use dbf_anonymizer.Checks.VaultChecks.{a_vault}

normalizes : normalize_relative_path (codes "sub\\.//A.DBF") ≡ ok (codes "sub/A.DBF")
unfolding normalize_relative_path
normalizes = refl

climbs : normalize_relative_path (codes "sub/../A.DBF") ≡ err value_error
unfolding normalize_relative_path
climbs = refl

normalize_relative_path-IsNormal_example : IsNormal (codes "sub/A.DBF")
normalize_relative_path-IsNormal_example =
    normalize_relative_path-IsNormal (codes "sub\\.//A.DBF") (codes "sub/A.DBF") normalizes

-- a digest that tells these inputs apart
abbrev same_text : Text → Text
same_text s = s

registered_twice :
    (register_table same_text (codes "A.DBF") none none (record a_vault { active = true })
      >>= (λ done.
          register_field same_text done.0 (codes "NAME") (codes "C") (pos 10) none none none done.1)
      >>= (λ done.
          register_field same_text
            (codes "tbl-A.DBF")
            (codes "NAME")
            (codes "C")
            (pos 10)
            none
            none
            none
            done.1))
    ≡ err (vault_state_failure "FIELD_REJECTED")
unfolding register_table register_field
registered_twice = refl
