-- ===== src/Staging/Session.antt =====
-- Sessions of staging.go: their records, Begin, getOrLoadSession, and the flush of the metadata.
-- The staging directory is a list of data files and a list of metadata files by session ID; a
-- metadata file is the record that its JSON holds. A file operation on a file that is there
-- succeeds. Locks are left out: every operation is one step.
pub mod Ids
pub mod Options
use blobs.Base.{
  ℕ, zero, ◌+◌, ◌-◌, ◌*◌, ◌/◌, ◌%◌, Bool, true, false, not, ◌&&◌, ◌||◌, ◌==◌, ltb, leb,
  if◌then◌else◌, List, [], ◌∷◌, Option, none, some, map, length, replicate, bytes_eq,
}
use blobs.Base.Bytes.{Bytes}
use blobs.Base.Int.{ℤ, pos, negsuc}
use blobs.Errors.{Error, Result, ok, err, failed, wrapped, refuse_if, ◌>>=◌, ◌>>◌}
use blobs.Staging.Ranges.{RangeSet}
use blobs.Staging.Bitmap.{BlockBitmap, new_block_bitmap}
use blobs.Staging.Blocks.{block_count_for}

abbrev pub session_not_found : Error
session_not_found = failed "staging: session not found"

abbrev pub invalid_session_id : Error
invalid_session_id = failed "staging: invalid session id"

abbrev pub piece_count_mismatch : Error
piece_count_mismatch = failed "staging: number of piece hashes does not match block count"

pub record SessionMeta : Type 0 where
  pub id : Bytes
  pub namespace_id : Bytes
  pub key : Bytes
  pub content_type : Bytes
  pub custom : List (Bytes × Bytes)
  pub expected_size : ℕ
  pub expected_sha256 : Bytes
  pub block_size : ℕ
  pub piece_hashes : List Bytes
  pub created_at : ℕ
  pub last_activity : ℕ
  pub ranges : RangeSet

pub record BeginOptions : Type 0 where
  pub content_type : Bytes
  pub custom : List (Bytes × Bytes)
  pub expected_size : ℤ
  pub expected_sha256 : Bytes
  pub block_size : ℤ
  pub piece_hashes : List Bytes

-- The Go fields blockSize and pieces are those of `info`, the Go field meta. The bitmap is empty
-- where the block size is zero, and then no code reads it.
pub record SessionState : Type 0 where
  pub info : SessionMeta
  pub dirty : Bool
  pub last_flushed : ℕ
  pub bitmap : BlockBitmap
  pub verified : Option BlockBitmap

-- What the manager has of one session: its state in memory, the data file and the metadata file.
pub record Staged : Type 0 where
  pub state : SessionState
  pub data_file : Option Bytes
  pub saved : Option SessionMeta

-- strings.ToLower on ASCII.
unfoldable pub to_lower : Bytes → Bytes
to_lower = map λ (c : ℕ). if leb 65 c && leb c 90 then c + 32 else c

-- strings.EqualFold on ASCII.
unfoldable pub equal_fold : Bytes → Bytes → Bool
equal_fold a b = bytes_eq (to_lower a) (to_lower b)

-- sha256.Size*2
abbrev pub hash_chars : ℕ
hash_chars = 64

-- The bitmaps that Begin and getOrLoadSession make for a session.
unfoldable pub new_bitmap : SessionMeta → BlockBitmap
new_bitmap meta = new_block_bitmap (block_count_for meta.expected_size meta.block_size)

unfoldable pub new_verified : SessionMeta → Option BlockBitmap
new_verified meta =
    if (meta.block_size == 0) || (length meta.piece_hashes == 0)
    then none
    else some (new_bitmap meta)

-- The length of every piece hash.
unfoldable pub all_hashes : List Bytes → Bool
all_hashes [] = true
all_hashes (h ∷ hs) = (length h == hash_chars) && all_hashes hs

-- Begin's test of a size and a block size that are not negative.
unfoldable pub check_blocks : ℕ → ℕ → List Bytes → Result (Unit {0})
check_blocks size zero pieces =
    refuse_if (not (length pieces == 0)) (failed "staging: PieceHashes requires BlockSize > 0")
check_blocks size bs pieces = do
  _ ← refuse_if (size == 0) (failed "staging: BlockSize requires ExpectedSize > 0")
  _ ←
      refuse_if (not (length pieces == 0) && not (size % bs == 0))
        (failed "staging: ExpectedSize must be multiple of BlockSize when PieceHashes are provided")
  _ ←
      refuse_if (not (length pieces == 0) && not (length pieces == block_count_for size bs))
        piece_count_mismatch
  refuse_if (not (all_hashes (map to_lower pieces)))
      (failed "staging: piece hash is invalid length")

-- A size that Begin accepts.
unfoldable pub unsigned : ℤ → Error → Result ℕ
unsigned (pos n) e = ok n
unsigned (negsuc n) e = err e

-- The metadata of a session that Begin accepts, or its error.
unfoldable pub begin_meta : Bytes → ℕ → Bytes → Bytes → BeginOptions → Result SessionMeta
begin_meta session_id now ns_id key opts = do
  _ ←
      refuse_if ((length ns_id == 0) || (length key == 0))
        (failed "staging: namespace ID and key must not be empty")
  _ ←
      refuse_if
        (not (length opts.expected_sha256 == 0)
          && not (length (to_lower opts.expected_sha256) == hash_chars))
        (failed "staging: ExpectedSHA256 must be 64 hex chars")
  size ← unsigned opts.expected_size (failed "staging: ExpectedSize must not be negative")
  bs ← unsigned opts.block_size (failed "staging: BlockSize must be >= 0")
  _ ← check_blocks size bs opts.piece_hashes
  ok record {
    id = session_id;
    namespace_id = ns_id;
    key = key;
    content_type = opts.content_type;
    custom = opts.custom;
    expected_size = size;
    expected_sha256 = to_lower opts.expected_sha256;
    block_size = bs;
    piece_hashes = map to_lower opts.piece_hashes;
    created_at = now;
    last_activity = now;
    ranges = [];
  }

-- The state that getOrLoadSession makes of a metadata file.
unfoldable pub load_state : SessionMeta → SessionState
load_state meta = record {
  info = meta;
  dirty = false;
  last_flushed = meta.last_activity;
  bitmap = new_bitmap meta;
  verified = new_verified meta;
}

-- preallocate gives the data file its size, in zeros.
unfoldable pub begin_staged : SessionMeta → Staged
begin_staged meta = record {
  state = load_state meta;
  data_file = some (replicate meta.expected_size 0);
  saved = some meta;
}

-- metaFlushInterval, in nanoseconds.
abbrev pub meta_flush_interval : ℕ
meta_flush_interval = 5000000000

-- maybeFlushMeta and maybeFlushMetaLocked.
unfoldable pub maybe_flush_meta : ℕ → Staged → Staged
maybe_flush_meta now s =
    if s.state.dirty || leb meta_flush_interval (now - s.state.last_flushed)
    then record s {
      state = record s.state { last_flushed = now; dirty = false };
      saved = some s.state.info;
    }
    else s
