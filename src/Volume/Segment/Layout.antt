-- ===== src/Volume/Segment/Layout.antt =====
-- Pages on disk as pairs of a header and a payload: the view that reading works with.
use blobs.Base.{
  ℕ, suc, ◌+◌, ◌-◌, ◌^◌, ◌≤◌, ◌<◌, ◌≡◌, refl, sym, ap, ◌∙◌, Bool, false, if◌then◌else◌, List, [],
  ◌∷◌, ◌++◌, map, length, take, replicate, All, arith, length-append, length-replicate, take-append,
}
use blobs.Base.Bytes.{Bytes, slice, slice_skip}
use blobs.Errors.{ok}
use blobs.Volume.Flags.{
  IsFlags, encode_magic_flags, decode_magic_flags, decode-encode_magic_flags, is_deleted,
}
use blobs.Volume.Header.{
  PageHeader, IsHeader, page_header_size, encode_page_header, length-encode_page_header,
}
use blobs.Volume.Segment.{page_bytes}
use blobs.Volume.Segment.Pages.{pages_of, page_IsHeader}

abbrev pub Page : Type 0
Page = PageHeader × Bytes

unfoldable pub raw_page : ℕ → Page → Bytes
raw_page page_size (h, s) =
    encode_page_header h ++ (s ++ replicate (page_size - (page_header_size + length s)) 0)

unfoldable pub raw_pages : ℕ → List Page → Bytes
raw_pages page_size [] = []
raw_pages page_size (p ∷ ps) = raw_page page_size p ++ raw_pages page_size ps

-- The header of a page that holds the piece `s`.
abbrev pub header_of : PageHeader → Bool → Bytes → PageHeader
header_of hdr first s = record hdr { data_len = length s; crc32 = if first then hdr.crc32 else 0 }

unfoldable pub page_list : PageHeader → Bool → List Bytes → List Page
page_list hdr first [] = []
page_list hdr first (s ∷ ss) = (header_of hdr first s, s) ∷ page_list hdr false ss

abbrev pub payloads : List Page → List Bytes
payloads = map (λ p. p.1)

-- A page as the engine writes it: a well-formed header with a good magic word, and a payload of
-- the length that it names, which fits the page.
pub record IsPage (page_size : ℕ) (p : Page) : Type 0 where
  pub header : IsHeader p.0
  pub names_len : p.0.data_len ≡ length p.1
  pub fits : page_header_size + length p.1 ≤ page_size
  pub flags : ℕ
  pub is_flags : IsFlags flags
  pub magic : p.0.magic_flags ≡ encode_magic_flags flags

-- A page that ReadChunk accepts.
pub record IsLivePage (page_size : ℕ) (p : Page) : Type 0 where
  pub page : IsPage page_size p
  pub open page use *
  pub live : is_deleted flags ≡ false

pub decode_live :
    {page_size : ℕ} {p : Page} (v : IsPage page_size p)
    → decode_magic_flags p.0.magic_flags ≡ ok v.flags
decode_live v = ap decode_magic_flags v.magic ∙ decode-encode_magic_flags v.flags v.is_flags

pub pages_of-raw_pages :
    (hdr : PageHeader) (page_size : ℕ) (first : Bool) (ss : List Bytes)
    → pages_of hdr page_size first ss ≡ raw_pages page_size (page_list hdr first ss)
unfolding pages_of raw_pages page_list page_bytes raw_page
pages_of-raw_pages hdr page_size first [] = refl
pages_of-raw_pages hdr page_size first (s ∷ ss) = rw (pages_of-raw_pages hdr page_size false ss)

pub payloads-page_list :
    (hdr : PageHeader) (first : Bool) (ss : List Bytes) → payloads (page_list hdr first ss) ≡ ss
unfolding page_list
payloads-page_list hdr first [] = refl
payloads-page_list hdr first (s ∷ ss) = ap (◌∷◌ s) (payloads-page_list hdr false ss)

pub length-page_list :
    (hdr : PageHeader) (first : Bool) (ss : List Bytes)
    → length (page_list hdr first ss) ≡ length ss
unfolding page_list
length-page_list hdr first [] = refl
length-page_list hdr first (s ∷ ss) = ap suc (length-page_list hdr false ss)

pub length-raw_page :
    (page_size : ℕ) (p : Page)
    → IsHeader p.0
    → page_header_size + length p.1 ≤ page_size
    → length (raw_page page_size p) ≡ page_size
unfolding raw_page
length-raw_page page_size (h, s) v fits = omega (
  arith,
  length-append {0},
  length-replicate {A = ℕ} (page_size - (page_header_size + length s)) 0,
  length-encode_page_header h v,
)

-- Every page that appendChunk writes with the flags of a fresh chunk is live.
pub page_list-IsLivePage :
    (hdr : PageHeader) (page_size : ℕ) (first : Bool) (ss : List Bytes) (flags : ℕ)
    → page_size < 2 ^ 32
    → page_header_size < page_size
    → IsHeader hdr
    → IsFlags flags
    → hdr.magic_flags ≡ encode_magic_flags flags
    → is_deleted flags ≡ false
    → All (λ s. length s ≤ page_size - page_header_size) ss
    → All (IsLivePage page_size) (page_list hdr first ss)
unfolding page_list
page_list-IsLivePage hdr page_size first [] flags fits room v f m l h = tt
page_list-IsLivePage hdr page_size first (s ∷ ss) flags fits room v f m l h = (
  record {
    page = record {
      header = page_IsHeader hdr page_size s first fits v (omega arith);
      names_len = refl;
      fits = omega arith;
      flags = flags;
      is_flags = f;
      magic = m;
    };
    live = l;
  },
  page_list-IsLivePage hdr page_size false ss flags fits room v f m l h.1,
)

-- The two parts of a page.
pub take-raw_page :
    (page_size : ℕ) (p : Page)
    → IsHeader p.0
    → take page_header_size (raw_page page_size p) ≡ encode_page_header p.0
unfolding raw_page
take-raw_page page_size (h, s) v =
    take-append page_header_size (encode_page_header h) _ (length-encode_page_header h v)

pub slice-raw_page :
    (page_size n : ℕ) (p : Page)
    → IsHeader p.0
    → n ≡ length p.1
    → slice page_header_size n (raw_page page_size p) ≡ p.1
unfolding raw_page
slice-raw_page page_size n (h, s) v e =
    slice_skip page_header_size 0 n (encode_page_header h) _ (length-encode_page_header h v)
    ∙ take-append n s _ (sym e)
