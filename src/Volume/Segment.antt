-- ===== src/Volume/Segment.antt =====
-- segFile (volume.go): an open segment file and the writes to it.
pub mod Pages
pub mod Layout
pub mod Append
use blobs.Base.{
  ℕ, zero, suc, ◌+◌, ◌-◌, ◌*◌, ◌/◌, ◌^◌, ◌≡◌, Bool, true, false, ◌==◌, ltb, if◌then◌else◌, List, [],
  ◌++◌, Option, none, some, length, take, drop, replicate,
}
use blobs.Base.Bytes.{Bytes, put_uint}
use blobs.Volume.Header.{PageHeader, encode_page_header, page_header_size}

-- `pending` is what the bufio.Writer holds and has not handed to the file. A writer that flushes
-- early only moves bytes from `pending` to the end of the file sooner.
pub record SegFile : Type 0 where
  pub seq : ℕ
  pub offset : ℕ
  pub pending : Bytes

pub record SegFileHeader : Type 0 where
  pub magic : ℕ
  pub version : ℕ
  pub seg_seq : ℕ
  pub page_size : ℕ
  pub created_at : ℕ
  pub ns_id : Bytes

abbrev pub segment_file_magic : ℕ
segment_file_magic = 0xB10B5EED

-- 128 bytes: the gaps at 6 and behind the namespace at 92 stay zero.
unfoldable pub encode_seg_file_header : SegFileHeader → Bytes
encode_seg_file_header h =
    put_uint 4 h.magic
    ++ (put_uint 2 h.version
        ++ (replicate 2 0
            ++ (put_uint 8 h.seg_seq
                ++ (put_uint 4 h.page_size
                    ++ (put_uint 8 h.created_at ++ (h.ns_id ++ replicate 36 0))))))

-- `copy(nsArr[:], nsID)` into 64 zero bytes.
unfoldable pub ns_array : Bytes → Bytes
ns_array ns = take 64 (ns ++ replicate 64 0)

-- The page that one round of appendChunk assembles: header, payload and zero padding.
unfoldable pub page_bytes : PageHeader → Bytes → ℕ → Bool → Bytes
page_bytes hdr payload page_size first =
    encode_page_header
      (record hdr { data_len = length payload; crc32 = if first then hdr.crc32 else 0 })
    ++ (payload ++ replicate (page_size - (page_header_size + length payload)) 0)

unfoldable pub write : SegFile → Bytes → SegFile
write sf b = record sf { pending = sf.pending ++ b; offset = sf.offset + length b }

-- The loop of appendChunk, with fuel; `none` is no Go value.
unfoldable pub append_loop : ℕ → PageHeader → Bytes → ℕ → Bool → SegFile → ℕ → Option (SegFile × ℕ)
append_loop zero hdr remaining page_size first sf count = none
append_loop (suc fuel) hdr remaining page_size first sf count =
    let capacity = page_size - page_header_size in
    let slice = take capacity remaining in
    let rest = drop capacity remaining in
    let page = page_bytes hdr slice page_size first in
    let sf' = record sf { pending = sf.pending ++ page; offset = sf.offset + page_size } in
    let more = append_loop fuel hdr rest page_size false sf' (count + 1) in
    if length rest == 0 then some (sf', count + 1) else more

-- Each round takes a byte at least where a page has room for one.
unfoldable pub append_chunk : SegFile → PageHeader → Bytes → ℕ → Option (SegFile × ℕ × ℕ)
append_chunk sf hdr payload page_size =
    elim (append_loop (suc (length payload)) hdr payload page_size true sf 0) [
      | none ↦ none
      | some (sf', count) ↦ some (sf', sf.offset, count)
    ]

unfoldable pub append_raw : SegFile → Bytes → SegFile × ℕ
unfolding write
append_raw sf b = (write sf b, sf.offset)

-- The page count of a length: ceil, at least 1.
unfoldable pub pages_for : ℕ → ℕ → ℕ
pages_for len capacity =
    let pages = (len + capacity - 1) / capacity in if ltb pages 1 then 1 else pages

-- What scanning, rewriting and WAL replay compute from a uint64: a sum that is negative as an int64
-- counts as one page.
unfoldable pub pages_for_uint64 : ℕ → ℕ → ℕ
pages_for_uint64 len capacity =
    if ltb (len + capacity - 1) (2 ^ 63) then pages_for len capacity else 1
