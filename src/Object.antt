-- ===== src/Object.antt =====
-- object/object.go: the records of the index and of the public interface.
-- Strings are byte strings; int64 counters that the code lets fall below zero are integers, and
-- sizes and offsets are numbers. A time is a number of nanoseconds.
pub mod NamespaceId
mod Tests
use blobs.Base.{ℕ, Bool, List, Option}
use blobs.Base.Bytes.{Bytes}
use blobs.Base.Int.{ℤ}

pub record Metadata : Type 0 where
  pub content_type : Bytes
  pub size : ℕ
  pub blob_id : Bytes
  pub chunk_count : ℕ
  pub created_at : ℕ
  pub updated_at : ℕ
  pub custom : List (Bytes × Bytes)

pub record RefEntry : Type 0 where
  pub namespace_id : Bytes
  pub key : Bytes
  pub blob_id : Bytes
  pub metadata : Metadata

pub record BlobEntry : Type 0 where
  pub blob_id : Bytes
  pub chunk_ids : List Bytes
  pub total_size : ℕ
  pub ref_count : ℤ
  pub created_at : ℕ

-- `seq_no` is the Go field Seq, `len` is Length.
pub record ChunkEntry : Type 0 where
  pub chunk_id : Bytes
  pub blob_id : Bytes
  pub segment_id : ℕ
  pub namespace_id : Bytes
  pub page_offset : ℕ
  pub page_count : ℕ
  pub len : ℕ
  pub seq_no : ℕ
  pub ref_count : ℤ
  pub nonce : Bytes
  pub tag : Bytes

pub data SegmentState : Type 0 where
  segment_active : SegmentState
  segment_sealed : SegmentState
  segment_compacting : SegmentState
  segment_dead : SegmentState

pub record SegmentEntry : Type 0 where
  pub segment_id : ℕ
  pub namespace_id : Bytes
  pub state : SegmentState
  pub page_size : ℕ
  pub page_count : ℕ
  pub bytes_used : ℕ
  pub bytes_total : ℕ
  pub created_at : ℕ
  pub sealed_at : Option ℕ

pub record Quota : Type 0 where
  pub max_bytes : ℤ
  pub max_blob_count : ℤ
  pub max_blob_size : ℤ

pub record EncryptionInfo : Type 0 where
  pub enabled : Bool
  pub wrapped_dek : Bytes
  pub key_version : Bytes

pub record Namespace : Type 0 where
  pub id : Bytes
  pub display_name : Bytes
  pub created_at : ℕ
  pub quota : Option Quota
  pub custom : List (Bytes × Bytes)
  pub encryption : Option EncryptionInfo

pub record NamespaceStats : Type 0 where
  pub namespace_id : Bytes
  pub blob_count : ℤ
  pub bytes_stored : ℤ
  pub bytes_physical : ℤ
  pub chunk_count : ℤ
  pub dead_bytes : ℤ
  pub dead_chunks : ℤ
  pub segment_count : ℤ
  pub updated_at : ℕ

-- `F` is the type of the floating-point numbers.
pub record StoreStats (F : Type 0) : Type 0 where
  pub namespace_count : ℕ
  pub total_blob_count : ℤ
  pub total_bytes_stored : ℤ
  pub total_bytes_physical : ℤ
  pub total_dead_bytes : ℤ
  pub segment_count : ℤ
  pub deduplication_ratio : F
  pub per_namespace : List NamespaceStats
  pub computed_at : ℕ

pub record BlobInfo : Type 0 where
  pub key : Bytes
  pub namespace_id : Bytes
  pub metadata : Metadata
