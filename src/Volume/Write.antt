-- ===== src/Volume/Write.antt =====
-- Writing (volume.go): segment files are created and rolled, chunks appended, headers patched.
-- A file operation fails here only where the file is missing or too short: disk errors are not
-- modelled. What time.Now gives is an argument.
pub mod Patch
pub mod Delete
use blobs.Base.{
  ℕ, suc, ◌+◌, ◌-◌, ◌%◌, ◌^◌, Bool, not, ◌==◌, ltb, if◌then◌else◌, List, [], ◌∷◌, ◌++◌, Option,
  none, some, length, take, replicate,
}
use Prim.Native.Nat.{bit_or}
use blobs.Base.Bytes.{Bytes, slice, put_uint, uint, write_at}
use blobs.Errors.{Result, ok, err, Error, failed, wrapped, panicked, is_not_found}
use blobs.Object.{ChunkEntry}
use blobs.Volume.Flags.{is_deleted, set_flag, flag_deleted, encode_magic_flags, decode_magic_flags}
use blobs.Volume.Header.{seg_header_size}
use blobs.Volume.Segment.{SegFile, encode_seg_file_header, segment_file_magic, ns_array}
use blobs.Volume.Files.{Files, read_file, write_file}
use blobs.Volume.Engine.{Engine}

-- A method of the engine: the engine afterwards, also where the call fails.
abbrev pub Outcome : Type 0 → Type 0
Outcome A = Engine × Result A

infixl 5 ◌>>=◌
abbrev pub ◌>>=◌ : {A B : Type 0} → Outcome A → (Engine → A → Outcome B) → Outcome B
(e, ok a) >>= f = f e a
(e, err x) >>= f = (e, err x)

-- Bytes that reach the end of a file through its handle; an unlinked file is gone.
unfoldable pub append_file : ℕ → Bytes → Files → Files
append_file seq b files = elim (read_file seq files) [
  | none ↦ files
  | some c ↦ write_file seq (c ++ b) files
]

-- os.OpenFile with O_CREATE: an existing file is left as it is.
unfoldable pub touch : ℕ → Files → Files
touch seq files = elim (read_file seq files) [ none ↦ write_file seq [] files | some c ↦ files ]

unfoldable pub open_seg_file : Engine → ℕ → Outcome SegFile
open_seg_file e seq = elim (read_file seq e.files) [
  | none ↦ (e, err (failed "volume: open segment"))
  | some c ↦
      if ltb (length c) seg_header_size then (e, err (failed "volume: read segment header")) else (
        record e { wals = touch seq e.wals },
        ok (record { seq = uint (slice 8 8 c); offset = length c; pending = [] }),
      )
]

unfoldable pub create_seg_file : ℕ → Engine → ℕ → Outcome SegFile
create_seg_file now e seq = elim (read_file seq e.files) [
  | some c ↦ open_seg_file e seq
  | none ↦
      let header = encode_seg_file_header (record {
        magic = segment_file_magic;
        version = 1;
        seg_seq = seq;
        page_size = e.page_size;
        created_at = now;
        ns_id = ns_array e.ns_id;
      }) in
      (
        record e { files = write_file seq header e.files; wals = touch seq e.wals },
        ok (record { seq = seq; offset = seg_header_size; pending = [] }),
      )
]

-- The new segment becomes the active one.
unfoldable pub activate : ℕ → Engine → Outcome (Unit {0})
activate now e = create_seg_file now e e.next_seq >>= λ e' sf.
    (record e' { active = some sf; next_seq = (e'.next_seq + 1) % 2 ^ 64 }, ok tt)

unfoldable pub ensure_active : ℕ → Engine → Outcome (Unit {0})
ensure_active now e = elim e.active [ some sf ↦ (e, ok tt) | none ↦ activate now e ]

-- Flush: what the writer holds goes to the end of the segment's file.
unfoldable pub flush_seg : SegFile → Engine → Engine
flush_seg sf e = record e { files = append_file sf.seq sf.pending e.files }

unfoldable pub flush : Engine → Outcome (Unit {0})
flush e = elim e.active [
  | none ↦ (e, err (panicked "nil segment"))
  | some sf ↦ (record (flush_seg sf e) { active = some (record sf { pending = [] }) }, ok tt)
]

unfoldable pub roll_if_needed : ℕ → Engine → Outcome (Unit {0})
roll_if_needed now e = elim e.active [
  | none ↦ (e, err (panicked "nil segment"))
  | some sf ↦
      if ltb sf.offset e.max_segment_size
      then (e, ok tt)
      else activate now (record (flush_seg sf e) { active = some (record sf { pending = [] }) })
]

-- ReadAt of the four bytes of magicFlags, the new flags by `change`, and WriteAt.
unfoldable pub update_flags : (ℕ → ℕ) → ℕ → Bytes → Result Bytes
update_flags change page_offset file =
    let word = slice (page_offset + 84) 4 file in
    if ltb (length word) 4
    then err (failed "volume: ReadAt magicFlags")
    else elim (decode_magic_flags (uint word)) [
      | err e ↦ err (wrapped "volume: bad magicFlags" e)
      | ok flags ↦
          ok (write_at (page_offset + 84) (put_uint 4 (encode_magic_flags (change flags))) file)
    ]

-- The two writes of patchPage stand also where the flags cannot be read.
unfoldable pub patch_page : Engine → ℕ → ℕ → Bytes → ℕ → ℕ → Outcome (Unit {0})
patch_page e seg_seq page_offset blob_id total_chunks flags = elim (read_file seg_seq e.files) [
  | none ↦ (e, err (failed "open segment"))
  | some file ↦
      let patched =
        write_at (page_offset + 40) blob_id
          (write_at (page_offset + 76) (put_uint 4 total_chunks) file) in
      elim (update_flags (λ old. bit_or old flags) page_offset patched) [
        | err x ↦ (record e { files = write_file seg_seq patched e.files }, err x)
        | ok done ↦ (record e { files = write_file seg_seq done e.files }, ok tt)
      ]
]

unfoldable pub mark_deleted : Engine → ChunkEntry → Outcome (Unit {0})
mark_deleted e entry = elim (read_file entry.segment_id e.files) [
  | none ↦ (e, err (failed "volume: open segment for mark-deleted"))
  | some file ↦ elim (update_flags (λ old. set_flag old flag_deleted) entry.page_offset file) [
    | err x ↦ (e, err x)
    | ok done ↦ (record e { files = write_file entry.segment_id done e.files }, ok tt)
  ]
]
