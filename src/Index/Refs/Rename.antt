-- ===== src/Index/Refs/Rename.antt =====
-- What a rename of a reference does (index.go).
use blobs.Base.{◌≡◌, ◌≢◌, none, some, arith, bytes_eq_iff}
use blobs.Base.Bytes.{Bytes}
use blobs.Errors.{ok, is_not_found}
use blobs.Object.{RefEntry}
use blobs.Index.Tx.{Tx, IsTx, found}
use blobs.Index.Json.{Json, IsJson}
use blobs.Index.Keys.{ref, key_bytes}
use blobs.Index.Commit.Steps.{save_stores}
use blobs.Index.Refs.{commit_rename_ref}

module _ {S V : Type 0} (tx : Tx S V) (json : Json V) (t : IsTx tx) (j : IsJson json) where
  -- A present reference is renamed to a free key: it stands at the new key, the old key is free, and nothing
  -- else changes.
  pub commit_rename_ref_lem :
      (ns_id old_key new_key : Bytes) (s : S) (r : RefEntry)
      → t.view (key_bytes (ref ns_id old_key)) s ≡ some (j.ref_doc r)
      → t.view (key_bytes (ref ns_id new_key)) s ≡ none
      → (s' : S) × (commit_rename_ref tx json ns_id old_key new_key s ≡ ok s')
        × (t.view (key_bytes (ref ns_id new_key)) s'
            ≡ some (j.ref_doc (record r { key = new_key })))
        × (t.view (key_bytes (ref ns_id old_key)) s' ≡ none)
        × ((q : Bytes)
            → q ≢ key_bytes (ref ns_id old_key)
            → q ≢ key_bytes (ref ns_id new_key)
            → t.view q s' ≡ t.view q s)
  unfolding commit_rename_ref found is_not_found
  commit_rename_ref_lem ns_id old_key new_key s r h free =
      let old = key_bytes (ref ns_id old_key) in
      let new = key_bytes (ref ns_id new_key) in
      let r' : RefEntry = record r { key = new_key } in
      let put = t.stored new (j.ref_doc r') s in
      let saved =
        save_stores tx json t (ref ns_id new_key) s json.marshal_ref r' (j.ref_doc r')
          (j.marshals_ref r') in
      (
        t.removed old put,
        rw (
          t.get_some old s (j.ref_doc r) h,
          j.unmarshals_ref r,
          t.get_none new s free,
          found,
          saved,
          t.delete_removes old put,
        ),
        ground (
          arith,
          t.view-removed new old put,
          t.view-stored new new (j.ref_doc r') s,
          bytes_eq_iff old new,
          bytes_eq_iff new new,
          h,
          free,
        ),
        ground (arith, t.view-removed old old put, bytes_eq_iff old old),
        λ q a b. ground (
          arith,
          t.view-removed q old put,
          t.view-stored q new (j.ref_doc r') s,
          bytes_eq_iff old q,
          bytes_eq_iff new q,
        ),
      )
