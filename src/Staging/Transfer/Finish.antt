-- ===== src/Staging/Transfer/Finish.antt =====
-- An upload without blocks that reaches every byte is accepted by Complete.
use blobs.Base.{
  ℕ, ◌+◌, ◌≤◌, ◌<◌, ◌≡◌, inl, inr, refl, ◌∙◌, true, false, not, ◌&&◌, ◌||◌, ◌==◌, List, [], ◌∷◌,
  some, length, All, replicate, length-replicate, arith, Bool-cases,
}
use blobs.Base.Bytes.{Bytes}
use blobs.Errors.{ok}
use blobs.Staging.Ranges.{is_complete}
use blobs.Staging.Ranges.Merge.{covered}
use blobs.Staging.Ranges.Queries.{is_complete_iff}
use blobs.Staging.Session.{SessionMeta, SessionState, Staged, begin_staged, load_state}
use blobs.Staging.Write.{checksum_ok}
use blobs.Staging.Write.Stream.{eq_of_bytes, written, length-write_at}
use blobs.Staging.Write.Received.{IsReceiving, write_chunk_range_set-IsReceiving}
use blobs.Staging.Write.Accepted.{HasSettings, Grown, write_chunk_range_set-Grown}
use blobs.Staging.Transfer.{
  CompletedUpload, check_complete, complete_staged, write_staged, write_staged-range_set,
  verify_file_checksum,
}
use blobs.Staging.Transfer.Content.{
  Call, call_data, any_reaches, upload, IsGoodCall, begin_staged-IsReceiving,
}

length-written :
    (off : ℕ) (d f : Bytes) → off + length d ≤ length f → length (written off d f) ≡ length f
length-written off [] f h = refl
length-written off (b ∷ d) f h = ground (arith, length-write_at off (b ∷ d) f)

module _ (sha256 : Bytes → Bytes) where
  -- The state of an upload all of whose calls are accepted.
  abbrev Accepting : Bytes → SessionMeta → Staged → Type 0
  Accepting content meta s =
      IsReceiving content s
      × HasSettings meta s.state.info
      × ((f : Bytes) × (s.data_file ≡ some f) × (length f ≡ length content))

  -- One accepted call.
  write-Accepting :
      (content : Bytes) (meta : SessionMeta) (c : Call) (s : Staged)
      → meta.expected_size ≡ length content
      → IsGoodCall sha256 content c
      → Accepting content meta s
      → let s' = (write_staged sha256 c.at c.off c.hash c.chunk s).staged in
        Accepting content meta s'
        × Grown c.off (c.off + length (call_data c)) s.state.info.ranges s'.state.info.ranges
  write-Accepting content meta c s size good (v, settings, (f, at, whole)) =
      let fits : c.off + length (call_data c) ≤ s.state.info.expected_size =
        omega (arith, good.2, settings.0, size) in
      let (e, same, grown, stored) =
        write_chunk_range_set-Grown sha256 c.at c.off c.hash c.chunk f s at v.1 good.1 fits
          good.3 in
      rw (write_staged-range_set sha256 c.at c.off c.hash c.chunk s v.0) (
        (
          write_chunk_range_set-IsReceiving sha256 content c.at c.off c.hash c.chunk s good.0 v,
          (same.0 ∙ settings.0, same.1 ∙ settings.1, same.2 ∙ settings.2),
          (
            written c.off (call_data c) f,
            stored,
            length-written c.off (call_data c) f (omega (arith, good.2, whole)) ∙ whole,
          ),
        ),
        grown,
      )

  upload-Accepting :
      (content : Bytes) (meta : SessionMeta) (cs : List Call) (s : Staged)
      → meta.expected_size ≡ length content
      → All (IsGoodCall sha256 content) cs
      → Accepting content meta s
      → Accepting content meta (upload sha256 cs s)
        × ((x : ℕ)
            → covered x (upload sha256 cs s).state.info.ranges
              ≡ (any_reaches x cs || covered x s.state.info.ranges))
  upload-Accepting content meta [] s size good v = (v, λ x. refl)
  upload-Accepting content meta (c ∷ cs) s size good v =
      let (first, grown) = write-Accepting content meta c s size good.0 v in
      let (rest, all) = upload-Accepting content meta cs _ size good.1 first in
      (rest, λ x. ground (arith, all x, grown x))

  begin_staged-Accepting :
      (content : Bytes) (meta : SessionMeta)
      → meta.block_size ≡ 0
      → meta.expected_size ≡ length content
      → meta.ranges ≡ []
      → Accepting content meta (begin_staged meta)
  unfolding begin_staged load_state
  begin_staged-Accepting content meta blockless size fresh = (
    begin_staged-IsReceiving sha256 content meta blockless fresh,
    (refl, refl, refl),
    (replicate meta.expected_size 0, refl, length-replicate meta.expected_size 0 ∙ size),
  )

  begin_staged-covered :
      (x : ℕ) (meta : SessionMeta)
      → meta.ranges ≡ []
      → covered x (begin_staged meta).state.info.ranges ≡ false
  unfolding begin_staged load_state covered
  begin_staged-covered x meta fresh = rw fresh refl

  check_complete-ok :
      (f : Bytes) (s : SessionState)
      → s.info.block_size ≡ 0
      → 0 < s.info.expected_size
      → is_complete s.info.expected_size s.info.ranges ≡ true
      → checksum_ok sha256 s.info.expected_sha256 f ≡ true
      → check_complete sha256 f s ≡ ok tt
  unfolding check_complete verify_file_checksum checksum_ok
  check_complete-ok f s blockless some_byte full hash =
      elim (Bool-cases (length s.info.expected_sha256 == 0)) [
        | inl h ↦ ground (arith, h, blockless, some_byte, full)
        | inr h ↦ ground (arith, h, blockless, some_byte, full, hash)
      ]

  -- Complete of a session that has all of the content.
  complete_staged-Accepting :
      (content : Bytes) (meta : SessionMeta) (now : ℕ) (s : Staged)
      → 0 < length content
      → meta.expected_size ≡ length content
      → checksum_ok sha256 meta.expected_sha256 content ≡ true
      → Accepting content meta s
      → ((x : ℕ) → x < length content → covered x s.state.info.ranges ≡ true)
      → (done : CompletedUpload × Staged) × (complete_staged sha256 now s ≡ ok done)
        × (done.0.data_file ≡ content)
  unfolding complete_staged
  complete_staged-Accepting content meta now s some_byte size hash v all =
      let ((bs, set, (g, here, holds)), settings, (f, at, whole)) = v in
      let same : g ≡ f = cc in
      let all_of : f ≡ content =
        eq_of_bytes f content whole
          (λ x lt. ground (arith, same, holds x (all x (omega (arith, lt, whole))))) in
      let n : ℕ = s.state.info.expected_size in
      let full : is_complete n s.state.info.ranges ≡ true =
        (is_complete_iff n s.state.info.ranges set).1 λ x. ground (
          arith,
          settings.0,
          size,
          whole,
          same,
          all x,
          λ (c : covered x s.state.info.ranges ≡ true). holds x c,
        ) in
      let right : (not (n == 0) && not (length f == n)) ≡ false =
        ground (arith, settings.0, size, whole) in
      let good : check_complete sha256 f s.state ≡ ok tt =
        check_complete-ok f s.state bs (ground (arith, settings.0, size, some_byte)) full
          (ground (arith, hash, all_of, settings.1)) in
      rw (at, complete_staged) (rw (right, good) (_, refl, all_of))

  -- An upload in chunks of a content that is not empty, into a new session without blocks with the
  -- content's size and, if one was given, its checksum: if every chunk is a part of the content
  -- with a reader that ends and the right checksum, if it has one, and the chunks reach every byte,
  -- in whatever order and however they overlap, then Complete succeeds and hands over the content.
  pub complete_staged-upload :
      (content : Bytes) (meta : SessionMeta) (cs : List Call) (now : ℕ)
      → 0 < length content
      → meta.block_size ≡ 0
      → meta.expected_size ≡ length content
      → meta.ranges ≡ []
      → checksum_ok sha256 meta.expected_sha256 content ≡ true
      → All (IsGoodCall sha256 content) cs
      → ((x : ℕ) → x < length content → any_reaches x cs ≡ true)
      → (done : CompletedUpload × Staged) × (complete_staged sha256 now
            (upload sha256 cs (begin_staged meta))
          ≡ ok done)
        × (done.0.data_file ≡ content)
  complete_staged-upload content meta cs now some_byte blockless size fresh hash good all =
      let (v, reached) =
        upload-Accepting content meta cs (begin_staged meta) size good
          (begin_staged-Accepting content meta blockless size fresh) in
      complete_staged-Accepting content meta now _ some_byte size hash v
        λ x lt. ground (arith, reached x, all x lt)
