-- ===== src/Volume/Wal/Tests.antt =====
-- A log of two records, and the same log with its second record cut.
use blobs.Base.{◌≡◌, refl, inr, [], ◌∷◌, ◌++◌, some, take, drop, arith, map}
use blobs.Base.Bytes.{Bytes, put_uint}
use blobs.Base.Int.{pos}
use blobs.Object.{ChunkEntry}
use blobs.Volume.Wal.{encode_wal_entry, parse_wal}
use blobs.Volume.Wal.RoundTrip.{FitsLog}
use blobs.Volume.Wal.Torn.{Logged, Fits, IsTorn, record_bytes, log_bytes, replayed, parse_wal_lem}

abbrev chunk : ChunkEntry
chunk = record {
  chunk_id = 99 ∷ 1 ∷ [];
  blob_id = 98 ∷ [];
  segment_id = 3;
  namespace_id = 97 ∷ [];
  page_offset = 128;
  page_count = 2;
  len = 10;
  seq_no = 0;
  ref_count = pos 1;
  nonce = [];
  tag = [];
}

chunk_fits : FitsLog chunk
chunk_fits = record {
  id_fits = omega arith;
  segment_fits = omega arith;
  offset_fits = omega arith;
  len_fits = omega arith;
}

abbrev blob : Logged
blob = record { blob_id = 98 ∷ []; chunks = chunk ∷ [] }

blob-Fits : Fits blob
blob-Fits = (omega arith, omega arith, (chunk_fits, tt))

abbrev cut_record : Bytes
cut_record = take 5 (record_bytes blob)

is_cut : IsTorn cut_record
unfolding encode_wal_entry put_uint
is_cut = inr (blob, 0, drop 6 (record_bytes blob), blob-Fits, refl)

parse_wal_lem_example :
    parse_wal (some (log_bytes (blob ∷ blob ∷ []) ++ cut_record)) (97 ∷ []) 96
    ≡ map (replayed (97 ∷ []) 8) (blob ∷ blob ∷ [])
parse_wal_lem_example =
    parse_wal_lem (97 ∷ []) 96 (blob ∷ blob ∷ []) cut_record (omega arith)
      (blob-Fits, (blob-Fits, tt)) is_cut
