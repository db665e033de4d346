-- ===== src/Volume/Options.antt =====
-- volume.Options (volume.go): the defaults and the check that Open and store.Open make.
-- The Go fields are int and int64, so they may be negative here. The cipher is left to the engine.
use blobs.Base.{
  ℕ, ◌*◌, ◌-◌, ◌≤◌, ◌<◌, ◌^◌, ◌≡◌, ◌↔◌, Bool, true, false, ◌&&◌, not, ◌==◌, ltb, if◌then◌else◌,
  arith,
}
use blobs.Base.Int.{ℤ, pos, negsuc, ltb_ℤ}
use blobs.Errors.{Result, ok, failed, ◌>>◌, refuse_if}
use blobs.Volume.Header.{page_header_size}

abbrev pub default_page_size : ℕ
default_page_size = 16 * 1024

abbrev pub default_chunk_size : ℕ
default_chunk_size = 4 * 1024 * 1024

abbrev pub default_max_segment_size : ℕ
default_max_segment_size = 512 * 1024 * 1024

abbrev pub max_uint32 : ℕ
max_uint32 = 2 ^ 32 - 1

pub record Options : Type 0 where
  pub page_size : ℤ
  pub chunk_size : ℤ
  pub max_segment_size : ℤ

abbrev is_zero : ℤ → Bool
is_zero (pos n) = n == 0
is_zero (negsuc n) = false

abbrev or_default : ℤ → ℕ → ℤ
or_default x d = if is_zero x then pos d else x

unfoldable pub with_defaults : Options → Options
with_defaults o = record {
  page_size = or_default o.page_size default_page_size;
  chunk_size = or_default o.chunk_size default_chunk_size;
  max_segment_size = or_default o.max_segment_size default_max_segment_size;
}

-- `uint64(o.PageSize) > math.MaxUint32`, which is reached with a field that is not negative.
abbrev beyond_uint32 : ℤ → Bool
beyond_uint32 (pos n) = ltb max_uint32 n
beyond_uint32 (negsuc n) = true

unfoldable pub validate : Options → Result (Unit {0})
unfolding with_defaults
validate o = do
  refuse_if (ltb_ℤ o.page_size (pos 0)) (failed "volume: Options.PageSize must not be negative")
  refuse_if (ltb_ℤ o.chunk_size (pos 0)) (failed "volume: Options.ChunkSize must not be negative")
  refuse_if (ltb_ℤ o.max_segment_size (pos 0))
      (failed "volume: Options.MaxSegmentSize must not be negative")
  refuse_if (not (is_zero o.page_size) && not (ltb_ℤ (pos page_header_size) o.page_size))
      (failed "volume: Options.PageSize must be greater than the page header size")
  refuse_if (not (is_zero o.page_size) && beyond_uint32 o.page_size)
      (failed "volume: Options.PageSize exceeds uint32 range")
  let resolved = with_defaults o
  refuse_if (ltb_ℤ resolved.max_segment_size resolved.chunk_size)
      (failed "volume: ChunkSize must not exceed MaxSegmentSize")
  refuse_if (ltb_ℤ resolved.max_segment_size resolved.page_size)
      (failed "volume: PageSize must not exceed MaxSegmentSize")

-- What the rest of the engine relies on: after the defaults, a page holds a byte of payload at
-- least, its size fits the uint32 of the segment header, and a segment holds a page and a chunk.
pub record IsUsable (o : Options) (page chunk segment : ℕ) : Type 0 where
  pub page_is : o.page_size ≡ pos page
  pub chunk_is : o.chunk_size ≡ pos chunk
  pub segment_is : o.max_segment_size ≡ pos segment
  pub page_has_room : page_header_size < page
  pub page_fits : page < 2 ^ 32
  pub chunk_positive : 0 < chunk
  pub chunk_le_segment : chunk ≤ segment
  pub page_le_segment : page ≤ segment

abbrev pub size_of : ℤ → ℕ
size_of (pos n) = n
size_of (negsuc n) = 0

abbrev pub Usable : Options → Type 0
Usable o = IsUsable o (size_of o.page_size) (size_of o.chunk_size) (size_of o.max_segment_size)

-- `Validate` accepts the options whose resolved form is usable, and no others.
validate_iff : (o : Options) → (validate o ≡ ok tt) ↔ Usable (with_defaults o)
unfolding validate
validate_iff o = (λ h. ground arith, λ u. ground arith)
