-- ===== src/Volume/Wal.antt =====
-- The write-ahead log (appendWAL, decodeWALEntry and ParseWAL of volume.go). A chunk's offset and
-- length are the numbers that the log names; the code takes one of 2^63 or more for a negative int64.
-- The slice for as many chunks as a record names is taken to be allocated, as it is for a record
-- that appendWAL wrote.
pub mod Readers
pub mod RoundTrip
pub mod Torn
pub mod Order
mod Tests
use blobs.Base.{
  ℕ, zero, suc, ◌+◌, ◌-◌, ◌%◌, ◌^◌, ◌==◌, ltb, if◌then◌else◌, List, [], ◌∷◌, ◌++◌, Option, none,
  some, length, take, drop, ◌<◌, ◌≤◌, not,
}
use blobs.Base.Int.{ℤ, pos}
use blobs.Base.Bytes.{Bytes, put_uint, uint}
use blobs.Object.{ChunkEntry}
use blobs.Volume.Header.{page_header_size}
use blobs.Volume.Segment.{pages_for_uint64}

abbrev pub wal_magic : ℕ
wal_magic = 0xBA1FACE

pub record WalEntry : Type 0 where
  pub blob_id : Bytes
  pub chunks : List ChunkEntry

-- `put_uint` keeps the low bytes, as the conversions to uint16, uint32 and uint64 do.
unfoldable pub encode_wal_chunk : ChunkEntry → Bytes
encode_wal_chunk c =
    put_uint 2 (length c.chunk_id)
    ++ (c.chunk_id ++ (put_uint 8 c.segment_id ++ (put_uint 8 c.page_offset ++ put_uint 8 c.len)))

unfoldable pub encode_wal_chunks : List ChunkEntry → Bytes
encode_wal_chunks [] = []
encode_wal_chunks (c ∷ cs) = encode_wal_chunk c ++ encode_wal_chunks cs

-- What appendWAL writes, in one call, to the WAL file.
unfoldable pub encode_wal_entry : Bytes → List ChunkEntry → Bytes
encode_wal_entry blob_id chunks =
    put_uint 4 wal_magic
    ++ (put_uint 2 (length blob_id)
        ++ (blob_id ++ (put_uint 4 (length chunks) ++ encode_wal_chunks chunks)))

-- readBytes; the position is what is left of the buffer.
unfoldable pub read_bytes : ℕ → Bytes → Option (Bytes × Bytes)
read_bytes n buf = if ltb (length buf) n then none else some (take n buf, drop n buf)

-- readU16, readU32 and readU64, at widths 2, 4 and 8.
unfoldable pub read_uint : ℕ → Bytes → Option (ℕ × Bytes)
read_uint n buf = elim (read_bytes n buf) [ none ↦ none | some (b, rest) ↦ some (uint b, rest) ]

infixl 5 ◌>>=◌
abbrev pub ◌>>=◌ {ℓ κ} : {A : Type ℓ} {B : Type κ} → Option A → (A → Option B) → Option B
none >>= f = none
some a >>= f = f a

-- One round of the chunk loop of decodeWALEntry.
unfoldable pub decode_wal_chunk : Bytes → Bytes → ℕ → ℕ → Bytes → Option (ChunkEntry × Bytes)
decode_wal_chunk ns_id blob_id capacity seq_no buf = do
  (cid_len, buf₁) ← read_uint 2 buf
  (chunk_id, buf₂) ← read_bytes cid_len buf₁
  (segment_id, buf₃) ← read_uint 8 buf₂
  (page_offset, buf₄) ← read_uint 8 buf₃
  (len, buf₅) ← read_uint 8 buf₄
  some (
    record {
      chunk_id = chunk_id;
      blob_id = blob_id;
      segment_id = segment_id;
      namespace_id = ns_id;
      page_offset = page_offset;
      page_count = pages_for_uint64 len capacity;
      len = len;
      seq_no = seq_no;
      ref_count = pos 0;
      nonce = [];
      tag = [];
    },
    buf₅,
  )

-- `left` chunks, the first of them at position `seq_no`.
unfoldable pub decode_wal_chunks :
    Bytes → Bytes → ℕ → ℕ → ℕ → Bytes → Option (List ChunkEntry × Bytes)
decode_wal_chunks ns_id blob_id capacity zero seq_no buf = some ([], buf)
decode_wal_chunks ns_id blob_id capacity (suc left) seq_no buf = do
  (c, buf') ← decode_wal_chunk ns_id blob_id capacity seq_no buf
  (cs, rest) ← decode_wal_chunks ns_id blob_id capacity left (seq_no + 1) buf'
  some (c ∷ cs, rest)

-- The entry and what follows it; the Go function returns the number of bytes taken instead.
unfoldable pub decode_wal_entry : Bytes → Bytes → ℕ → Option (WalEntry × Bytes)
decode_wal_entry buf ns_id capacity = do
  (magic, buf₁) ← read_uint 4 buf
  _ ← if magic == wal_magic then some (tt {0}) else none
  (id_len, buf₂) ← read_uint 2 buf₁
  (blob_id, buf₃) ← read_bytes id_len buf₂
  (count, buf₄) ← read_uint 4 buf₃
  (chunks, rest) ← decode_wal_chunks ns_id blob_id capacity count 0 buf₄
  some (record { blob_id = blob_id; chunks = chunks }, rest)

-- The loop of ParseWAL, with fuel: it stops at the end, and at the first entry that is not whole.
unfoldable pub parse_wal_loop : ℕ → Bytes → Bytes → ℕ → List WalEntry
parse_wal_loop zero buf ns_id capacity = []
parse_wal_loop (suc fuel) buf ns_id capacity = elim buf [
  | [] ↦ []
  | b ∷ bs ↦ elim (decode_wal_entry (b ∷ bs) ns_id capacity) [
    | none ↦ []
    | some (entry, rest) ↦ entry ∷ parse_wal_loop fuel rest ns_id capacity
  ]
]

-- A missing WAL file is an empty log. A page size without room counts as a capacity of 1.
unfoldable pub parse_wal : Option Bytes → Bytes → ℕ → List WalEntry
parse_wal none ns_id page_size = []
parse_wal (some b) ns_id page_size =
    let room = page_size - page_header_size in
    let capacity = if ltb room 1 then 1 else room in parse_wal_loop (length b) b ns_id capacity
