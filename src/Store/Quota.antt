-- ===== src/Store/Quota.antt =====
-- checkQuota and validateKey (store.go). The namespace and its statistics are what the index gave.
use blobs.Base.{◌≡◌, ◌↔◌, not, ◌&&◌, ◌==◌, none, some, length, arith}
use blobs.Base.Bytes.{Bytes}
use blobs.Base.Int.{ℤ, pos, ltb_ℤ, ◌≤ℤ◌, ◌+ℤ◌}
use blobs.Errors.{Result, ok, quota_exceeded, invalid_key, ◌>>=◌, ◌>>◌, refuse_if}
use blobs.Object.{Namespace, NamespaceStats, Quota}

unfoldable pub validate_key : Bytes → Result (Unit {0})
validate_key key = refuse_if (length key == 0) (invalid_key key "key must not be empty")

unfoldable pub check_quota :
    Result Namespace → Result NamespaceStats → Bytes → ℤ → Result (Unit {0})
check_quota ns stats ns_id incoming_size = do
  n ← ns
  elim n.quota [
    | none ↦ ok tt
    | some q ↦ do
      st ← stats
      refuse_if (ltb_ℤ (pos 0) q.max_blob_count && not (ltb_ℤ st.blob_count q.max_blob_count))
          (quota_exceeded ns_id "blob_count" q.max_blob_count (st.blob_count +ℤ pos 1))
      refuse_if (ltb_ℤ (pos 0) q.max_bytes && ltb_ℤ q.max_bytes (st.bytes_stored +ℤ incoming_size))
          (quota_exceeded ns_id "bytes" q.max_bytes (st.bytes_stored +ℤ incoming_size))
      refuse_if (ltb_ℤ (pos 0) q.max_blob_size && ltb_ℤ q.max_blob_size incoming_size)
          (quota_exceeded ns_id "blob_size" q.max_blob_size incoming_size)
  ]

-- A limit that is not positive is no limit.
abbrev pub Within : ℤ → ℤ → Type 0
Within limit x = pos 1 ≤ℤ limit → x ≤ℤ limit

-- With a quota, a blob is let in exactly if the count with it, the bytes with it and its own size
-- stay within the limits that are set.
check_quota_iff :
    (n : Namespace) (st : NamespaceStats) (ns_id : Bytes) (size : ℤ) (q : Quota)
    → n.quota ≡ some q
    → (check_quota (ok n) (ok st) ns_id size ≡ ok tt) ↔ (
        Within q.max_blob_count (st.blob_count +ℤ pos 1)
        × Within q.max_bytes (st.bytes_stored +ℤ size)
        × Within q.max_blob_size size)
unfolding check_quota ◌+ℤ◌
check_quota_iff n st ns_id size q h = rw h (λ e. ground arith, λ e. ground arith)
