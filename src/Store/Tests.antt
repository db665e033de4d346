-- ===== src/Store/Tests.antt =====
-- A blob of two chunks, read from the middle of its first, and a quota.
use mathlib.Core.List.{flatten}
use blobs.Base.{
  ℕ, ◌+◌, ◌≤◌, ◌<◌, ◌≡◌, refl, ◌⊎◌, none, some, [], ◌∷◌, ◌++◌, replicate, length, drop, arith,
}
use blobs.Base.Bytes.{Bytes}
use blobs.Base.Int.{pos}
use blobs.Errors.{Result, ok, err, eof}
use blobs.Object.{ChunkEntry}
use blobs.Object.{Namespace, NamespaceStats, Quota}
use blobs.Object.{RefEntry}
use blobs.Store.Listing.{list, info, list-after}
use blobs.Store.Reader.{ChunkReader, new_chunk_reader, read, seek, seek_start}
use blobs.Store.Reader.Stream.{IsStream, read_lem, seek_lem}
use blobs.Store.Reader.Rounds.{content}

abbrev piece : ℕ → ChunkEntry
piece n = record {
  chunk_id = [];
  blob_id = [];
  segment_id = 1;
  namespace_id = [];
  page_offset = 128;
  page_count = 1;
  len = n;
  seq_no = 0;
  ref_count = pos 1;
  nonce = [];
  tag = [];
}

abbrev bytes_of : ChunkEntry → Bytes
bytes_of c = replicate c.len 7

abbrev fetch : ChunkEntry → Result Bytes
fetch c = ok (bytes_of c)

abbrev reader : ChunkReader
reader = record {
  locations = piece 3 ∷ piece 2 ∷ [];
  total_size = 5;
  idx = 0;
  pending_skip = 2;
  buf = [];
  buf_pos = 0;
  abs_pos = 2;
}

reader-IsStream : IsStream fetch bytes_of reader
unfolding flatten
reader-IsStream = record {
  loads = ((refl, refl), ((refl, refl), tt));
  skips = omega arith;
  at = refl;
}

read_lem_example :
    let out = read fetch 4 reader in
    ((got : Bytes) × (out.1 ≡ ok got)
      × (0 < length got)
      × (length got ≤ 4)
      × (out.0.abs_pos ≡ 2 + length got)
      × (drop 2 (content fetch bytes_of (piece 3 ∷ piece 2 ∷ []))
          ≡ got ++ drop out.0.abs_pos (content fetch bytes_of (piece 3 ∷ piece 2 ∷ [])))
      × (out.0.locations ≡ piece 3 ∷ piece 2 ∷ [])
      × IsStream fetch bytes_of out.0)
    ⊎ ((out.1 ≡ err eof) × (drop 2 (content fetch bytes_of (piece 3 ∷ piece 2 ∷ [])) ≡ []))
read_lem_example = read_lem fetch bytes_of 4 reader (omega arith) reader-IsStream

seek_lem_example :
    (r' : ChunkReader) × (seek (pos 4) seek_start (new_chunk_reader (piece 3 ∷ piece 2 ∷ []))
      ≡ (r', ok 4))
    × IsStream fetch bytes_of r'
    × (r'.abs_pos ≡ 4)
    × (r'.locations ≡ piece 3 ∷ piece 2 ∷ [])
unfolding new_chunk_reader
seek_lem_example =
    seek_lem fetch bytes_of (new_chunk_reader (piece 3 ∷ piece 2 ∷ [])) 4
      ((refl, refl), ((refl, refl), tt))

abbrev quota : Quota
quota = record { max_bytes = pos 10; max_blob_count = pos 0; max_blob_size = pos 5 }

abbrev space : Namespace
space = record {
  id = 97 ∷ [];
  display_name = [];
  created_at = 0;
  quota = some quota;
  custom = [];
  encryption = none;
}

abbrev used : NamespaceStats
used = record {
  namespace_id = 97 ∷ [];
  blob_count = pos 2;
  bytes_stored = pos 7;
  bytes_physical = pos 7;
  chunk_count = pos 2;
  dead_bytes = pos 0;
  dead_chunks = pos 0;
  segment_count = pos 1;
  updated_at = 0;
}

abbrev named : ℕ → RefEntry
named n = record {
  namespace_id = 97 ∷ [];
  key = n ∷ [];
  blob_id = [];
  metadata = record {
    content_type = [];
    size = 0;
    blob_id = [];
    chunk_count = 0;
    created_at = 0;
    updated_at = 0;
    custom = [];
  };
}

list-after_example :
    list (2 ∷ []) 1 (named 1 ∷ named 2 ∷ named 3 ∷ named 4 ∷ []) ≡ info (named 3) ∷ []
list-after_example =
    list-after (2 ∷ []) 1 (named 1 ∷ []) (named 3 ∷ named 4 ∷ []) (named 2) (omega arith)
      ((λ e. ground arith), tt) refl
