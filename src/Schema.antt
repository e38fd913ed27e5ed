-- ===== src/Schema.antt =====
-- vault/schema.py: the tables of the dictionary and their rows. A value of a mapping that SQLite stores
-- carries its storage class. The keys and constraints are tests of the operations that insert.
use dbf_anonymizer.Prelude.{ℕ, Option, List, ℤ, Text}

-- What `typeof` tells apart.
pub data Cell : Type 0 where
  null_cell real_cell : Cell
  integer_cell : ℤ → Cell
  text_cell : Text → Cell
  blob_cell : List ℕ → Cell

pub record MappingDomain : Type 0 where
  pub domain_id : Text
  pub domain_kind : Text
  pub normalization : Option Text
  pub relational_role : Option Text

pub record TextMapping : Type 0 where
  pub domain_id : Text
  pub original_value : Cell
  pub pseudonym_value : Cell
  pub logical_byte_length : Cell

pub record NumericKeyMapping : Type 0 where
  pub domain_id : Text
  pub original_value : Cell
  pub pseudonym_value : Cell

pub record MemoRecovery : Type 0 where
  pub table_id : Text
  pub physical_record_index : ℤ
  pub field_id : Text
  pub original_payload : Cell
  pub payload_kind : Cell

pub record TemporalParameter : Type 0 where
  pub domain_id : Text
  pub offset_days : Cell

pub data OperationState : Type 0 where
  started completed : OperationState

pub record Operation : Type 0 where
  pub operation_id : Text
  pub state : OperationState
  pub source_fingerprint : Option Text
  pub policy_fingerprint : Option Text
  pub relationship_fingerprint : Option Text
  pub vault_fingerprint : Option Text
  pub destination_identity : Option Text
  pub binding_fingerprint : Option Text
  pub output_fingerprint : Option Text
  pub result_json : Option Text
  pub started_at : Option Text
  pub completed_at : Option Text

pub record Publication : Type 0 where
  pub operation_id : Text
  pub phase : Text
  pub output_fingerprint : Option Text
  pub vault_fingerprint : Option Text

pub record Table : Type 0 where
  pub table_id : Text
  pub relative_path : Text
  pub schema_fingerprint : Option Text
  pub source_fingerprint : Option Text

pub record Field : Type 0 where
  pub field_id : Text
  pub table_id : Text
  pub name : Text
  pub dbf_type : Text
  pub encoding : Option Text
  pub width : ℕ
  pub transform_action : Option Text
  pub mapping_domain_id : Option Text

-- the rows, newest first; the row of `writer_authority` is its two columns
pub record Tables : Type 0 where
  pub owner_token : Option Text
  pub acquire_tick : ℕ
  pub operations : List Operation
  pub publication : List Publication
  pub tables : List Table
  pub fields : List Field
  pub mapping_domains : List MappingDomain
  pub text_mappings : List TextMapping
  pub numeric_key_mappings : List NumericKeyMapping
  pub memo_recovery : List MemoRecovery
  pub temporal_parameters : List TemporalParameter
