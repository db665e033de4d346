-- ===== src/Store/Put/Tests.antt =====
-- A run of Put on a namespace with one reference, on the in-memory backend.
use blobs.Base.{◌≡◌, refl, ◌++◌, replicate, bytes_eq_refl, true, false, [], ◌∷◌, none, length}
use blobs.Base.Bytes.{Bytes}
use blobs.Errors.{ok, err, failed}
use blobs.Index.Table.{lookup}
use blobs.Index.Memory.{MemTx}
use blobs.Index.Tests.{Doc, ref_tx, name}
use blobs.Store.Handle.{Store, begin_op, begin_ns_op}
use blobs.Store.Put.{PutOptions, Env}
use blobs.Volume.Engine.{Engine}
use blobs.Volume.Header.{PageHeader}
use blobs.Volume.Segment.{page_bytes}

-- A sealed segment with one page of eight bytes.
abbrev page : PageHeader
page = record {
  data_len = 8;
  chunk_id = replicate 32 1;
  blob_id = replicate 32 0;
  chunk_seq = 0;
  total_chunks = 1;
  crc32 = 0;
  magic_flags = 0xB10B5E00;
}

abbrev segment : Bytes
segment = replicate 128 0 ++ page_bytes page (replicate 8 7) 96 true

abbrev pub open_engine : Engine
open_engine = record {
  files = (1, segment) ∷ [];
  wals = (1, []) ∷ [];
  dirty = true;
  active = none;
  next_seq = 2;
  ns_id = name;
  page_size = 96;
  chunk_size = 64;
  max_segment_size = 4096;
  cipher = none;
}

abbrev pub one_namespace : Store (MemTx Doc) Engine
one_namespace = record { is_closed = false; engines = (name, open_engine) ∷ []; index = ref_tx }

-- Functions in place of SHA-256, CRC-32, the random source, the chunker and mimetype.Detect.
abbrev env : Env
env = record {
  sha256 = λ b. b;
  crc32 = length;
  random = λ n. err (failed "no source");
  now = 5;
  cut = λ b f. b ∷ [];
  detect = λ b. 47 ∷ [];
}

abbrev options : PutOptions
options = record { content_type = []; custom = [] }

found : begin_ns_op name one_namespace ≡ ok open_engine
unfolding begin_ns_op begin_op lookup
found = rw (bytes_eq_refl name) refl
