-- ===== src/Staging/Transfer/Content.antt =====
-- A whole upload without blocks: its chunks, and what Complete makes of them.
use mathlib.Core.List.{flatten}
use blobs.Base.{
  ℕ, ◌+◌, ◌≤◌, ◌<◌, ◌≡◌, inl, inr, refl, sym, ap, Bool, true, false, not, ◌&&◌, ◌||◌, ◌==◌, ltb,
  leb, if◌then◌else◌, List, [], ◌∷◌, none, length, All, replicate, arith, Bool-cases,
}
use blobs.Base.Bytes.{Bytes}
use blobs.Errors.{ok, Result-cases, ok_inj}
use blobs.Staging.Ranges.{is_complete}
use blobs.Staging.Ranges.Merge.{covered, IsRangeSet}
use blobs.Staging.Ranges.Queries.{is_complete_iff}
use blobs.Staging.Session.{SessionMeta, SessionState, Staged, begin_staged, load_state}
use blobs.Staging.Write.{ChunkStream, checksum_ok, touch}
use blobs.Staging.Write.Stream.{byte_at}
use blobs.Staging.Write.Received.{IsPart, IsReceiving, write_chunk_range_set-IsReceiving}
use blobs.Staging.Transfer.{
  CompletedUpload, check_complete, complete_staged, write_staged, write_staged-range_set,
}

-- One call of WriteChunk.
pub record Call : Type 0 where
  pub at : ℕ
  pub off : ℕ
  pub hash : Bytes
  pub chunk : ChunkStream

abbrev pub call_data : Call → Bytes
call_data c = flatten c.chunk.reads

-- The byte `x` is one of the call's.
abbrev pub reaches : ℕ → Call → Bool
reaches x c = leb c.off x && ltb x (c.off + length (call_data c))

abbrev pub any_reaches : ℕ → List Call → Bool
any_reaches x [] = false
any_reaches x (c ∷ cs) = reaches x c || any_reaches x cs

module _ (sha256 : Bytes → Bytes) where
  abbrev pub upload : List Call → Staged → Staged
  upload [] s = s
  upload (c ∷ cs) s = upload cs (write_staged sha256 c.at c.off c.hash c.chunk s).staged

  -- The call is accepted in an upload of the content.
  abbrev pub IsGoodCall : Bytes → Call → Type 0
  IsGoodCall content c =
      IsPart content c.off (call_data c)
      × (c.chunk.failure ≡ none)
      × (c.off + length (call_data c) ≤ length content)
      × (checksum_ok sha256 c.hash (call_data c) ≡ true)

  pub upload-IsReceiving :
      (content : Bytes) (cs : List Call) (s : Staged)
      → All (λ c. IsPart content c.off (call_data c)) cs
      → IsReceiving content s
      → IsReceiving content (upload cs s)
  upload-IsReceiving content [] s h v = v
  upload-IsReceiving content (c ∷ cs) s h v = upload-IsReceiving content cs _ h.1 (
      rw (write_staged-range_set sha256 c.at c.off c.hash c.chunk s v.0)
        (write_chunk_range_set-IsReceiving sha256 content c.at c.off c.hash c.chunk s h.0 v))

  check_complete-covered :
      (f : Bytes) (s : SessionState)
      → s.info.block_size ≡ 0
      → IsRangeSet s.info.ranges
      → check_complete sha256 f s ≡ ok tt
      → (x : ℕ)
      → covered x s.info.ranges
        ≡ ltb x (if s.info.expected_size == 0 then length f else s.info.expected_size)
  unfolding check_complete
  check_complete-covered f s blockless v h =
      let size : ℕ = if s.info.expected_size == 0 then length f else s.info.expected_size in
      let complete : is_complete size s.info.ranges ≡ true =
        elim (Bool-cases (is_complete size s.info.ranges)) [
          | inl done ↦ done
          | inr left ↦ absurd (ground (arith, left, h, blockless))
        ] in
      (is_complete_iff size s.info.ranges v).0 complete

  -- Where Complete accepts a session without blocks, whose chunks were parts of the content: the
  -- upload that it hands over holds the content on every byte, its size is that of its data, and it
  -- is the expected size where one was given.
  pub complete_staged-IsReceiving :
      (content : Bytes) (now : ℕ) (s : Staged) (done : CompletedUpload × Staged)
      → IsReceiving content s
      → complete_staged sha256 now s ≡ ok done
      → (done.0.size ≡ length done.0.data_file)
        × (0 < s.state.info.expected_size → done.0.size ≡ s.state.info.expected_size)
        × ((x : ℕ) → x < done.0.size → byte_at x done.0.data_file ≡ byte_at x content)
  unfolding complete_staged
  complete_staged-IsReceiving content now s done (blockless, v, (f, at, h)) =
      let size = s.state.info.expected_size in
      rw (at, complete_staged)
        (elim (Bool-cases (not (size == 0) && not (length f == size))) [
          | inl wrong ↦ rw wrong (λ e. absurd (cc))
          | inr right ↦ rw right (elim (Result-cases (check_complete sha256 f s.state)) [
            | inr (e, bad) ↦ rw bad (λ e. absurd (cc))
            | inl (u, good) ↦
                let all = check_complete-covered f s.state blockless v good in
                rw good (λ e.
                  let cu : CompletedUpload = record {
                    info = (touch now s).state.info;
                    size = length f;
                    data_file = f;
                    committed = false;
                  } in
                  let same : cu ≡ done.0 = ap (λ (d : CompletedUpload × Staged). d.0) (ok_inj e) in
                  rw (sym same) (
                    refl,
                    λ some_size. ground (arith, right, some_size),
                    λ x lt. (h x (ground (arith, all x, right))).1,
                  ))
          ])
        ])

  -- A session that Begin has just made has received nothing.
  pub begin_staged-IsReceiving :
      (content : Bytes) (meta : SessionMeta)
      → meta.block_size ≡ 0
      → meta.ranges ≡ []
      → IsReceiving content (begin_staged meta)
  unfolding begin_staged load_state covered
  begin_staged-IsReceiving content meta blockless fresh =
      rw fresh (blockless, tt, (replicate meta.expected_size 0, refl, λ x c. absurd (cc)))

  -- Whatever calls of WriteChunk a new session without blocks has seen, in any order, overlapping,
  -- refused or broken off, so long as each carried a part of the content: what Complete accepts
  -- holds the content on every byte of its size, which is the expected size where one was given.
  pub complete_staged-upload_safe :
      (content : Bytes) (meta : SessionMeta) (cs : List Call) (now : ℕ)
      (done : CompletedUpload × Staged)
      → meta.block_size ≡ 0
      → meta.ranges ≡ []
      → All (λ c. IsPart content c.off (call_data c)) cs
      → complete_staged sha256 now (upload cs (begin_staged meta)) ≡ ok done
      → (done.0.size ≡ length done.0.data_file)
        × (0 < (upload cs (begin_staged meta)).state.info.expected_size
            → done.0.size ≡ (upload cs (begin_staged meta)).state.info.expected_size)
        × ((x : ℕ) → x < done.0.size → byte_at x done.0.data_file ≡ byte_at x content)
  complete_staged-upload_safe content meta cs now done blockless fresh parts h =
      complete_staged-IsReceiving content now (upload cs (begin_staged meta)) done
        (upload-IsReceiving content cs (begin_staged meta) parts
          (begin_staged-IsReceiving content meta blockless fresh))
        h
