-- ===== src/Checks/MemoChecks.antt =====
-- A run of vault/memo_allocation.py on a payload that looks like the mask, and the theorem for it.
-- UTF-8 is the identity on the ASCII characters that stand here.
use dbf_anonymizer.Prelude.{
  none, ℕ, ◌≡◌, ◌≢◌, refl, sym, find, Option, some, List, [], ◌∷◌, Text, codes, pos,
}
use dbf_anonymizer.Errors.{ok}
use dbf_anonymizer.Values.{Value, text}
use dbf_anonymizer.Memo.{memo_safe_mask}
use dbf_anonymizer.Vault.{VaultDatabase, Field, no_faults}
use dbf_anonymizer.Vault.Recovery.{with_memo_row, payload_text, Utf8}
use dbf_anonymizer.MemoAllocation.{MemoIdentity, persist_memo_recovery, recover_memo_value}
use dbf_anonymizer.MemoAllocation.Recovered.{persist_memo_recovery-recovered}
use dbf_anonymizer.Checks.VaultChecks.{a_vault, some_tables}

abbrev ascii : Utf8
ascii s = some s

abbrev from_ascii : List ℕ → Option Text
from_ascii b = some b

abbrev key : MemoIdentity
key = record { table_id = codes "tbl-1"; physical_record_index = pos 4; field_id = codes "fld-9" }

abbrev memo_field : Field
memo_field = record {
  field_id = codes "fld-9";
  table_id = codes "tbl-1";
  name = codes "NOTE";
  dbf_type = codes "M";
  encoding = none;
  width = 10;
  transform_action = none;
  mapping_domain_id = none;
}

abbrev memo_vault : VaultDatabase
memo_vault = record a_vault { tables = record some_tables { fields = memo_field ∷ [] } }

abbrev tricky : Value
tricky = text (codes "[MASKED-MEMO]")

abbrev masked_vault : VaultDatabase
masked_vault = record memo_vault {
  tables =
      with_memo_row (codes "tbl-1") (pos 4) (codes "fld-9") (codes "[MASKED-MEMO]") payload_text
        memo_vault.tables;
}

persists :
    persist_memo_recovery ascii no_faults key (codes "M") tricky memo_vault
    ≡ (ok (text (codes "[MASKED-MEMO-ALT]")), masked_vault)
unfolding persist_memo_recovery find memo_safe_mask
persists = refl

persist_memo_recovery-recovered_example :
    (recover_memo_value from_ascii key masked_vault ≡ ok (some tricky))
    × (text (codes "[MASKED-MEMO-ALT]") ≢ tricky)
persist_memo_recovery-recovered_example =
    persist_memo_recovery-recovered ascii from_ascii (λ s b h. sym h) key tricky tt no_faults
      (codes "M") memo_vault masked_vault (text (codes "[MASKED-MEMO-ALT]")) persists
