-- ===== src/Index/Refs.antt =====
-- CommitRenameRef and CommitUpdateRefMetadata (index.go).
pub mod Rename
use blobs.Base.{
  ℕ, ◌≡◌, ◌≢◌, refl, Bool, true, false, List, Option, none, some, if◌then◌else◌, arith, bytes_eq,
}
use blobs.Base.Bytes.{Bytes}
use blobs.Errors.{Result, ok, err, failed, not_found, is_not_found, ◌>>=◌}
use blobs.Object.{Metadata, RefEntry}
use blobs.Index.Tx.{Tx, IsTx, found}
use blobs.Index.Json.{Json, IsJson}
use blobs.Index.Keys.{Key, ref, key_bytes}
use blobs.Index.Commit.{save}

module _ {S V : Type 0} (tx : Tx S V) (json : Json V) where
  unfoldable pub commit_rename_ref : Bytes → Bytes → Bytes → S → Result S
  commit_rename_ref ns_id old_key new_key s = do
    raw ← tx.get (key_bytes (ref ns_id old_key)) s
    r ← json.unmarshal_ref raw
    taken ← found (tx.get (key_bytes (ref ns_id new_key)) s)
    elim taken [
      | some _ ↦ err (failed "index: key already exists in namespace")
      | none ↦ do
        s' ← save tx json json.marshal_ref (ref ns_id new_key) (record r { key = new_key }) s
        tx.delete (key_bytes (ref ns_id old_key)) s'
    ]

  unfoldable pub commit_update_ref_metadata :
      Bytes → Bytes → List (Bytes × Bytes) → ℕ → S → Result S
  commit_update_ref_metadata ns_id key custom updated_at s = do
    raw ← tx.get (key_bytes (ref ns_id key)) s
    r ← json.unmarshal_ref raw
    save tx json json.marshal_ref (ref ns_id key)
        (record r { metadata = record r.metadata { custom = custom; updated_at = updated_at } }) s
