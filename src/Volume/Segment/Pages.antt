-- ===== src/Volume/Segment/Pages.antt =====
-- What appendChunk writes, page by page.
use mathlib.Core.List.{flatten}
use native.Mathlib.Nat.{zero-add, div-lt_iff_lt-mul, add-div_right, le-div_iff_mul-le}
use blobs.Base.{
  ℕ, zero, suc, ◌+◌, ◌-◌, ◌*◌, ◌/◌, ◌≤◌, ◌<◌, ◌^◌, ◌≡◌, sym, ◌∙◌, Bool, true, false, ◌==◌,
  if◌then◌else◌, List, [], ◌∷◌, ◌++◌, some, length, take, drop, All, arith, length-append,
  length-take, length-drop, length-replicate, take-append-drop, take_all, append-nil, append_assoc,
  Bool-cases, inl, inr,
}
use blobs.Base.Bytes.{Bytes}
use blobs.Volume.Header.{PageHeader, IsHeader, page_header_size, length-encode_page_header}
use blobs.Volume.Segment.{SegFile, page_bytes, append_loop, append_chunk, pages_for}

-- The payload cut into pieces of `capacity` bytes, the last one shorter; an empty payload is one
-- empty piece. Fuel as in `append_loop`.
unfoldable pub pieces : ℕ → ℕ → Bytes → List Bytes
pieces zero capacity p = p ∷ []
pieces (suc fuel) capacity p =
    let rest = drop capacity p in
    let more = take capacity p ∷ pieces fuel capacity rest in
    if length rest == 0 then take capacity p ∷ [] else more

-- The pages of the pieces, the first with the checksum.
unfoldable pub pages_of : PageHeader → ℕ → Bool → List Bytes → Bytes
pages_of hdr page_size first [] = []
pages_of hdr page_size first (s ∷ ss) =
    page_bytes hdr s page_size first ++ pages_of hdr page_size false ss

module _ (hdr : PageHeader) (page_size : ℕ) (room : page_header_size < page_size) where
  -- With fuel above the length of the payload the loop ends, and has written these pages.
  append_loop-pages :
      (fuel : ℕ) (p : Bytes) (first : Bool) (sf : SegFile) (count : ℕ)
      → length p < fuel
      → let ss = pieces fuel (page_size - page_header_size) p in
        append_loop fuel hdr p page_size first sf count
        ≡ some (
          record sf {
            pending = sf.pending ++ pages_of hdr page_size first ss;
            offset = sf.offset + page_size * length ss;
          },
          count + length ss,
        )
  unfolding append_loop pieces pages_of
  append_loop-pages zero p first sf count h = elim h [ ]
  append_loop-pages (suc fuel) p first sf count h =
      let capacity = page_size - page_header_size in
      let page = page_bytes hdr (take capacity p) page_size first in
      let rest = drop capacity p in
      let sf' = record sf { pending = sf.pending ++ page; offset = sf.offset + page_size } in
      elim (Bool-cases (length rest == 0)) [
        | inl done ↦ rw done (ground (arith, append-nil page))
        | inr more ↦ rw more (
            append_loop-pages fuel rest false sf' (count + 1)
              (ground (arith, length-drop capacity p))
            ∙ ground (
              arith,
              append_assoc sf.pending page
                  (pages_of hdr page_size false (pieces fuel capacity rest)),
            ))
      ]

pub page_IsHeader :
    (hdr : PageHeader) (page_size : ℕ) (s : Bytes) (first : Bool)
    → page_size < 2 ^ 32
    → IsHeader hdr
    → length s ≤ page_size
    → IsHeader (record hdr { data_len = length s; crc32 = if first then hdr.crc32 else 0 })
page_IsHeader hdr page_size s first fits v h = ground arith

-- A page is exactly `page_size` bytes.
pub length-page_bytes :
    (hdr : PageHeader) (page_size : ℕ) (s : Bytes) (first : Bool)
    → page_size < 2 ^ 32
    → IsHeader hdr
    → page_header_size + length s ≤ page_size
    → length (page_bytes hdr s page_size first) ≡ page_size
unfolding page_bytes
length-page_bytes hdr page_size s first fits v h = omega (
  arith,
  length-append {0},
  length-replicate {A = ℕ} (page_size - (page_header_size + length s)) 0,
  length-encode_page_header _ (page_IsHeader hdr page_size s first fits v (omega arith)),
)

module _ (capacity : ℕ) (positive : 0 < capacity) where
  -- The two ways in which a payload ends or goes on.
  pub pages_for_one : (n : ℕ) → n ≤ capacity → pages_for n capacity ≡ 1
  unfolding pages_for
  pages_for_one n h =
      let low : (n + capacity - 1) / capacity < 2 = (div-lt_iff_lt-mul positive).1 (omega arith) in
      ground arith

  pages_for_more :
      (n : ℕ) → capacity < n → pages_for n capacity ≡ pages_for (n - capacity) capacity + 1
  unfolding pages_for
  pages_for_more n h =
      let m = n - capacity + capacity - 1 in
      let split : (m + capacity) / capacity ≡ m / capacity + 1 = add-div_right m positive in
      let same : n + capacity - 1 ≡ m + capacity = omega arith in
      let some_page : 1 ≤ m / capacity = (le-div_iff_mul-le positive).1 (omega arith) in
      rw (same, split) (ground arith)

  pub pieces-join : (fuel : ℕ) (p : Bytes) → length p ≤ fuel → flatten (pieces fuel capacity p) ≡ p
  unfolding pieces flatten
  pieces-join zero p h = append-nil p
  pieces-join (suc fuel) p h =
      let rest = drop capacity p in
      elim (Bool-cases (length rest == 0)) [
        | inl done ↦
            rw done (append-nil _ ∙ take_all capacity p (ground (arith, length-drop capacity p)))
        | inr more ↦
            rw (more, pieces-join fuel rest (ground (arith, length-drop capacity p)))
              (take-append-drop capacity p)
      ]

  pub pieces-short :
      (fuel : ℕ) (p : Bytes)
      → length p ≤ fuel
      → All (λ s. length s ≤ capacity) (pieces fuel capacity p)
  unfolding pieces
  pieces-short zero p h = omega arith
  pieces-short (suc fuel) p h =
      let rest = drop capacity p in
      elim (Bool-cases (length rest == 0)) [
        | inl done ↦ rw done (omega (arith, length-take capacity p))
        | inr more ↦ rw more (
          omega (arith, length-take capacity p),
          pieces-short fuel rest (ground (arith, length-drop capacity p)),
        )
      ]

  pub length-pieces :
      (fuel : ℕ) (p : Bytes)
      → length p ≤ fuel
      → length (pieces fuel capacity p) ≡ pages_for (length p) capacity
  unfolding pieces
  length-pieces zero p h = sym (pages_for_one (length p) (omega arith))
  length-pieces (suc fuel) p h =
      let rest = drop capacity p in
      elim (Bool-cases (length rest == 0)) [
        | inl done ↦ rw done (ground (arith, pages_for_one (length p), length-drop capacity p))
        | inr more ↦ rw more (
            ground (
              arith,
              pages_for_more (length p),
              length-drop capacity p,
              length-pieces fuel rest,
              pages_for_one (length p),
            ))
      ]

-- With a page size above the header's, appendChunk ends and appends the pages of the payload's
-- pieces, as many as a reader of the length computes.
pub append_chunk_lem :
    (hdr : PageHeader) (payload : Bytes) (page_size : ℕ) (sf : SegFile)
    → page_header_size < page_size
    → append_chunk sf hdr payload page_size
      ≡ some (
        record sf {
          pending =
              sf.pending
              ++ pages_of hdr page_size true
                  (pieces (suc (length payload)) (page_size - page_header_size) payload);
          offset =
              sf.offset + page_size * pages_for (length payload) (page_size - page_header_size);
        },
        sf.offset,
        pages_for (length payload) (page_size - page_header_size),
      )
unfolding append_chunk
append_chunk_lem hdr payload page_size sf room = rw (
  append_loop-pages hdr page_size room (suc (length payload)) payload true sf 0 (omega arith),
  append_chunk,
  length-pieces (page_size - page_header_size) (omega arith) (suc (length payload)) payload
      (omega arith),
  zero-add,
)
