-- ===== src/Index/Commit.antt =====
-- The transactions of index.go, over any backend: CommitPut, CommitDelete, CommitRenameRef,
-- CommitUpdateRefMetadata, ReapPhysicalPageIfDead, ReconcileDeadStats and PurgeDeadBlobs.
-- A function takes the state of its transaction and gives the state to commit; on an error the
-- backend commits nothing.
pub mod Steps
pub mod WellFormed
pub mod Chunks
pub mod Put
use blobs.Base.{
  ℕ, suc, ◌+◌, Bool, true, false, not, ◌&&◌, ◌||◌, ◌==◌, ltb, if◌then◌else◌, List, [], ◌∷◌, ◌++◌,
  Option, none, some, length, bytes_eq,
}
use blobs.Base.Bytes.{Bytes}
use blobs.Base.Int.{ℤ, pos, negsuc, ◌+ℤ◌, ◌-ℤ◌, ltb_ℤ}
use blobs.Errors.{Result, ok, err, Error, failed, ◌>>=◌, ◌>>◌, refuse_if}
use blobs.Object.{Metadata, RefEntry, BlobEntry, ChunkEntry, NamespaceStats}
use blobs.Index.Tx.{Tx, found}
use blobs.Index.Json.{Json}
use blobs.Index.Keys.{Key, ref, blob, chunk, stats, key_bytes}

abbrev pub empty_stats : Bytes → NamespaceStats
empty_stats ns_id = record {
  namespace_id = ns_id;
  blob_count = pos 0;
  bytes_stored = pos 0;
  bytes_physical = pos 0;
  chunk_count = pos 0;
  dead_bytes = pos 0;
  dead_chunks = pos 0;
  segment_count = pos 0;
  updated_at = 0;
}

abbrev pub is_zero_ℤ : ℤ → Bool
is_zero_ℤ (pos n) = n == 0
is_zero_ℤ (negsuc n) = false

-- `x - d`, and 0 in place of a negative number.
abbrev pub clamped : ℤ → ℤ → ℤ
clamped x d = if ltb_ℤ (x -ℤ d) (pos 0) then pos 0 else x -ℤ d

-- What the chunk loop of CommitPut adds up.
pub record Upserted (S : Type 0) : Type 0 where
  pub state : S
  pub reused : List ChunkEntry
  pub revived_bytes : ℕ
  pub revived_chunks : ℕ
  pub new_physical : ℕ

-- Step 6 of CommitPut, the logical part.
unfoldable pub count_put : NamespaceStats → Option RefEntry → Bool → BlobEntry → ℕ → NamespaceStats
count_put st none same b n = record st {
  blob_count = st.blob_count +ℤ pos 1;
  bytes_stored = st.bytes_stored +ℤ pos b.total_size;
  chunk_count = st.chunk_count +ℤ pos n;
}
count_put st (some old) true b n = st
count_put st (some old) false b n = record st {
  bytes_stored = st.bytes_stored +ℤ (pos b.total_size -ℤ pos old.metadata.size);
  chunk_count = st.chunk_count +ℤ (pos n -ℤ pos old.metadata.chunk_count);
}

abbrev same_content : Option RefEntry → RefEntry → Bool
same_content none r = false
same_content (some old) r = bytes_eq old.blob_id r.blob_id

module _ {S V : Type 0} (tx : Tx S V) (json : Json V) where
  -- tx.Get and unmarshal, where a missing key is no error.
  unfoldable pub find {ℓ} : {A : Type ℓ} → (V → Result A) → Key → S → Result (Option A)
  find unmarshal k s = do
    raw ← found (tx.get (key_bytes k) s)
    elim raw [ none ↦ ok none | some v ↦ do a ← unmarshal v; ok (some a) ]

  -- marshal and tx.Put.
  unfoldable pub save {ℓ} : {A : Type ℓ} → (A → Result V) → Key → A → S → Result S
  save marshal k a s = do v ← marshal a; tx.put (key_bytes k) v s

  unfoldable pub get_stats_tx : S → Bytes → Result NamespaceStats
  get_stats_tx s ns_id = do
    old ← find json.unmarshal_stats (stats ns_id) s
    elim old [ none ↦ ok (empty_stats ns_id) | some st ↦ ok st ]

  unfoldable pub put_stats_tx : S → NamespaceStats → Result S
  put_stats_tx s st = save json.marshal_stats (stats st.namespace_id) st s

  -- The length of the chunk if its last reference went, and 0 otherwise.
  unfoldable pub decrement_chunk_ref_tx : S → Bytes → Result (ℕ × S)
  decrement_chunk_ref_tx s cid = do
    old ← find json.unmarshal_chunk (chunk cid) s
    elim old [
      | none ↦ ok (0, s)
      | some c ↦ do
        let live = ltb_ℤ (pos 0) c.ref_count
        let c' : ChunkEntry = record c {
          ref_count = if live then c.ref_count -ℤ pos 1 else c.ref_count;
        }
        let dead = if live && is_zero_ℤ c'.ref_count then c.len else 0
        s' ← save json.marshal_chunk (chunk cid) c' s
        ok (dead, s')
    ]

  -- The loop over the chunks of a dropped blob: dead bytes and dead chunks.
  unfoldable pub decrement_all : S → List Bytes → ℕ → ℕ → Result (ℕ × ℕ × S)
  decrement_all s [] bytes chunks = ok (bytes, chunks, s)
  decrement_all s (cid ∷ cids) bytes chunks = do
    (dead, s') ← decrement_chunk_ref_tx s cid
    decrement_all s' cids (bytes + dead) (if ltb 0 dead then suc chunks else chunks)

  -- One reference less for a blob; its chunks, or none of a missing blob.
  unfoldable pub release_blob : S → Bytes → Result (List Bytes × S)
  release_blob s id = do
    old ← find json.unmarshal_blob (blob id) s
    elim old [
      | none ↦ ok ([], s)
      | some b ↦ do
        s' ← save json.marshal_blob (blob id) (record b { ref_count = b.ref_count -ℤ pos 1 }) s
        ok (b.chunk_ids, s')
    ]

  -- Step 3 of CommitPut.
  unfoldable pub upsert_blob : S → BlobEntry → Result S
  upsert_blob s b = do
    old ← find json.unmarshal_blob (blob b.blob_id) s
    elim old [
      | some o ↦
          save json.marshal_blob (blob b.blob_id) (record o { ref_count = o.ref_count +ℤ pos 1 }) s
      | none ↦ save json.marshal_blob (blob b.blob_id) (record b { ref_count = pos 1 }) s
    ]

  abbrev reuse_chunk : ChunkEntry → ChunkEntry → Upserted S → Result (Upserted S)
  reuse_chunk c old u = do
    let dead = is_zero_ℤ old.ref_count
    s' ←
        save json.marshal_chunk (chunk c.chunk_id)
          (record old { ref_count = old.ref_count +ℤ pos 1 }) u.state
    ok (record {
      state = s';
      reused = u.reused ++ (c ∷ []);
      revived_bytes = if dead then u.revived_bytes + old.len else u.revived_bytes;
      revived_chunks = if dead then suc u.revived_chunks else u.revived_chunks;
      new_physical = u.new_physical;
    })

  abbrev register_chunk : ChunkEntry → Upserted S → Result (Upserted S)
  register_chunk c u = do
    s' ← save json.marshal_chunk (chunk c.chunk_id) (record c { ref_count = pos 1 }) u.state
    ok (record u { state = s'; new_physical = u.new_physical + c.len })

  -- One round of the chunk loop of CommitPut.
  unfoldable pub upsert_chunk : Bytes → ChunkEntry → Upserted S → Result (Upserted S)
  upsert_chunk ns_id c u = do
    old ← find json.unmarshal_chunk (chunk c.chunk_id) u.state
    elim old [
      | none ↦ register_chunk c u
      | some o ↦ if bytes_eq o.namespace_id ns_id then reuse_chunk c o u else register_chunk c u
    ]

  unfoldable pub upsert_chunks : Bytes → List ChunkEntry → Upserted S → Result (Upserted S)
  upsert_chunks ns_id [] u = ok u
  upsert_chunks ns_id (c ∷ cs) u = do u' ← upsert_chunk ns_id c u; upsert_chunks ns_id cs u'

  -- Step 4 of CommitPut: what an overwrite with other content drops.
  unfoldable pub drop_old : S → Option RefEntry → Bool → Result (ℕ × ℕ × S)
  drop_old s none same = ok (0, 0, s)
  drop_old s (some old) true = ok (0, 0, s)
  drop_old s (some old) false = do
    (cids, s') ← release_blob s old.blob_id
    decrement_all s' cids 0 0

  -- The entries that the caller is to mark deleted, and the state to commit.
  unfoldable pub commit_put :
      RefEntry → BlobEntry → List ChunkEntry → S → Result (List ChunkEntry × S)
  commit_put r b chunks s = do
    old ← find json.unmarshal_ref (ref r.namespace_id r.key) s
    let same = same_content old r
    s₁ ← save json.marshal_ref (ref r.namespace_id r.key) r s
    s₂ ← upsert_blob s₁ b
    (dead_bytes, dead_chunks, s₃) ← drop_old s₂ old same
    let start : Upserted S = record {
      state = s₃;
      reused = [];
      revived_bytes = 0;
      revived_chunks = 0;
      new_physical = 0;
    }
    u ← upsert_chunks r.namespace_id chunks start
    st ← get_stats_tx u.state r.namespace_id
    let counted = count_put st old same b (length chunks)
    s₄ ← put_stats_tx u.state (record counted {
      bytes_physical = counted.bytes_physical +ℤ pos u.new_physical;
      dead_bytes = counted.dead_bytes +ℤ (pos dead_bytes -ℤ pos u.revived_bytes);
      dead_chunks = counted.dead_chunks +ℤ (pos dead_chunks -ℤ pos u.revived_chunks);
    })
    ok (u.reused, s₄)

  unfoldable pub commit_delete : Bytes → Bytes → S → Result S
  commit_delete ns_id key s = do
    raw ← tx.get (key_bytes (ref ns_id key)) s
    r ← json.unmarshal_ref raw
    s₁ ← tx.delete (key_bytes (ref ns_id key)) s
    (cids, s₂) ← release_blob s₁ r.blob_id
    st ← get_stats_tx s₂ ns_id
    (dead_bytes, dead_chunks, s₃) ← decrement_all s₂ cids 0 0
    put_stats_tx s₃ (record st {
      blob_count = st.blob_count -ℤ pos 1;
      bytes_stored = st.bytes_stored -ℤ pos r.metadata.size;
      chunk_count = st.chunk_count -ℤ pos r.metadata.chunk_count;
      dead_bytes = st.dead_bytes +ℤ pos dead_bytes;
      dead_chunks = st.dead_chunks +ℤ pos dead_chunks;
    })
