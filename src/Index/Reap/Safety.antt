-- ===== src/Index/Reap/Safety.antt =====
-- Which pages ReapPhysicalPageIfDead lets go (index.go).
use blobs.Base.{
  ℕ, ◌≡◌, ◌↔◌, refl, true, false, not, ◌&&◌, ◌||◌, ◌==◌, none, some, if◌then◌else◌, arith, bytes_eq,
  inl, inr, Bool-cases,
}
use blobs.Base.Bytes.{Bytes}
use blobs.Base.Int.{pos, ltb_ℤ, ◌≤ℤ◌}
use blobs.Errors.{ok}
use blobs.Object.{ChunkEntry}
use blobs.Index.Tx.{Tx, IsTx}
use blobs.Index.Json.{Json, IsJson}
use blobs.Index.Keys.{chunk, key_bytes}
use blobs.Index.Commit.Steps.{find-some}
use blobs.Index.Reap.{Verdict, reap_physical_page_if_dead}

-- The page is the place that the record names.
abbrev pub IsHome : ChunkEntry → ℕ → ℕ → Type 0
IsHome c seg_id page_offset = (c.segment_id ≡ seg_id) × (c.page_offset ≡ page_offset)

module _ {S V : Type 0} (tx : Tx S V) (json : Json V) (t : IsTx tx) (j : IsJson json) where
  -- ReapPhysicalPageIfDead of a chunk that has a record succeeds. A page is kept exactly if it is the place of a record with a reference. The record goes exactly
  -- if the page is its place and it has no reference, and no other key of the index changes.
  pub reap_physical_page_if_dead_lem :
      (id : Bytes) (seg_id page_offset : ℕ) (s : S) (c : ChunkEntry)
      → t.view (key_bytes (chunk id)) s ≡ some (j.chunk_doc c)
      → (v : Verdict S) × (reap_physical_page_if_dead tx json id seg_id page_offset s ≡ ok v)
        × ((v.safe_to_reap ≡ false) ↔ (IsHome c seg_id page_offset × (pos 1 ≤ℤ c.ref_count)))
        × ((v.record_deleted ≡ true) ↔ (IsHome c seg_id page_offset × (c.ref_count ≤ℤ pos 0)))
        × ((q : Bytes)
            → t.view q v.state ≡ (
                if v.record_deleted && bytes_eq (key_bytes (chunk id)) q then none else t.view q s))
  unfolding reap_physical_page_if_dead
  reap_physical_page_if_dead_lem id seg_id page_offset s c h =
      let got =
        find-some tx json t (chunk id) s json.unmarshal_chunk (j.chunk_doc c) c h
          (j.unmarshals_chunk c) in
      elim (Bool-cases (not (c.segment_id == seg_id) || not (c.page_offset == page_offset))) [
        | inl away ↦ (
          record { safe_to_reap = true; record_deleted = false; state = s },
          rw (got, away),
          ground arith,
          ground arith,
          λ q. refl,
        )
        | inr home ↦ elim (Bool-cases (ltb_ℤ (pos 0) c.ref_count)) [
          | inl live ↦ (
            record { safe_to_reap = false; record_deleted = false; state = s },
            rw (got, home, live),
            ground arith,
            ground arith,
            λ q. refl,
          )
          | inr dead ↦ (
            record {
              safe_to_reap = true;
              record_deleted = true;
              state = t.removed (key_bytes (chunk id)) s;
            },
            rw (got, home, dead, t.delete_removes (key_bytes (chunk id)) s),
            ground arith,
            ground arith,
            λ q. t.view-removed q (key_bytes (chunk id)) s,
          )
        ]
      ]
