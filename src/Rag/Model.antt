-- ===== src/Rag/Model.antt =====
-- backend/app/rag/enums.py and backend/app/rag/model: the rows of the database. A text is a list
-- of code points, a time is a number of milliseconds, and a vector is the list of the bit patterns
-- of its floats, which no code that is modelled here computes with.
-- Columns that no modelled code reads or writes are left out: `location` of a chunk, the two counts of
-- a knowledge base, the settings that an index profile copies, and the times of creation of the rest.
use rag_service.Prelude.{ℕ, Text, Bool, true, false, Option, List, ℤ}

pub data DocumentStatus : Type 0 where
  pending processing ready failed deleting : DocumentStatus

pub data OutboxStatus : Type 0 where
  pending dispatched failed dead : OutboxStatus

-- `status == DocumentStatus.…`
unfoldable pub same_status : DocumentStatus → DocumentStatus → Bool
same_status DocumentStatus.pending DocumentStatus.pending = true
same_status DocumentStatus.processing DocumentStatus.processing = true
same_status DocumentStatus.ready DocumentStatus.ready = true
same_status DocumentStatus.failed DocumentStatus.failed = true
same_status DocumentStatus.deleting DocumentStatus.deleting = true
same_status _ _ = false

abbrev pub Vector : Type 0
Vector = List ℕ

pub record Document : Type 0 where
  pub id : ℕ
  pub knowledge_base_id : ℕ
  pub filename : Text
  pub file_type : Text
  pub storage_key : Text
  pub file_size : ℕ
  pub content_hash : Text
  pub mime_type : Option Text
  pub parsed_content : Option Text
  pub status : DocumentStatus
  pub error_message : Option Text
  pub chunk_count : ℕ
  pub index_version : ℕ
  pub index_profile_id : Option ℕ
  pub deleted : ℕ
  pub created_time : ℕ
  pub updated_time : Option ℕ

pub record Chunk : Type 0 where
  pub id : ℕ
  pub knowledge_base_id : ℕ
  pub document_id : ℕ
  -- children count from 0, and parents from -1 downwards
  pub chunk_index : ℤ
  pub content : Text
  pub contextual_content : Text
  pub search_text : Text
  pub exact_tokens : List Text
  pub content_hash : Text
  pub char_count : ℕ
  pub token_count : ℕ
  pub embedding : Option Vector
  pub index_version : ℕ
  pub parent_chunk_id : Option ℕ
  pub is_parent : Bool
  pub heading_path : List Text
  pub deleted : ℕ

pub record KnowledgeBase : Type 0 where
  pub id : ℕ
  pub owner_id : ℕ
  pub name : Text
  pub description : Option Text
  pub is_public : Bool
  pub deleted : ℕ

-- The JSON of an event's `payload`, as `json.loads` gives it back.
pub data Payload : Type 0 where
  index_payload : (document_id index_version : ℕ) → Payload
  delete_payload : (document_id : ℕ) → Payload
  malformed : Payload

pub record OutboxEvent : Type 0 where
  pub id : ℕ
  pub event_type : Text
  pub aggregate_id : ℕ
  pub payload : Payload
  pub dedupe_key : Text
  pub status : OutboxStatus
  pub dispatch_attempts : ℕ
  pub last_error : Option Text
  pub dispatched_time : Option ℕ

pub record IndexProfile : Type 0 where
  pub id : ℕ
  pub profile_hash : Text
