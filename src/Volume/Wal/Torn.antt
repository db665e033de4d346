-- ===== src/Volume/Wal/Torn.antt =====
-- ParseWAL on a whole log, and on a log whose last record a crash has cut.
use blobs.Base.{
  ℕ, zero, suc, ◌-◌, ◌^◌, ◌<◌, ◌≤◌, ◌≡◌, ◌⊎◌, inl, inr, refl, ap, ◌∙◌, ltb, false, List, [], ◌∷◌,
  ◌++◌, none, some, length, All, arith, length-append, append_assoc, le→ltb, append-nil,
  Option-cases, map,
}
use blobs.Base.Bytes.{Bytes}
use blobs.Object.{ChunkEntry}
use blobs.Volume.Header.{page_header_size}
use blobs.Volume.Wal.{WalEntry, encode_wal_entry, decode_wal_entry, parse_wal_loop, parse_wal}
use blobs.Volume.Wal.Readers.{decode_wal_entry-IsReader, decode_wal_entry_takes}
use blobs.Volume.Wal.RoundTrip.{logged_from, FitsLog, decode-encode_wal_entry}

-- A record of the log: what one call of appendWAL was given.
pub record Logged : Type 0 where
  pub blob_id : Bytes
  pub chunks : List ChunkEntry

abbrev pub record_bytes : Logged → Bytes
record_bytes l = encode_wal_entry l.blob_id l.chunks

abbrev pub Fits : Logged → Type 0
Fits l = (length l.blob_id < 256 ^ 2) × (length l.chunks < 256 ^ 4) × All FitsLog l.chunks

abbrev pub replayed : Bytes → ℕ → Logged → WalEntry
replayed ns_id capacity l = record {
  blob_id = l.blob_id;
  chunks = logged_from ns_id l.blob_id capacity 0 l.chunks;
}

abbrev pub log_bytes : List Logged → Bytes
log_bytes [] = []
log_bytes (l ∷ ls) = record_bytes l ++ log_bytes ls

-- The end of a log: nothing, or a record that lacks its last bytes.
abbrev pub IsTorn : Bytes → Type 0
IsTorn tail =
    (tail ≡ [])
    ⊎ ((l : Logged) × (x : ℕ) × (missing : Bytes) × Fits l
        × (record_bytes l ≡ tail ++ (x ∷ missing)))

module _ (ns_id : Bytes) (capacity : ℕ) where
  -- No proper prefix of a record is decoded.
  decode_cut :
      (l : Logged) (front : Bytes) (x : ℕ) (back : Bytes)
      → Fits l
      → record_bytes l ≡ front ++ (x ∷ back)
      → decode_wal_entry front ns_id capacity ≡ none
  decode_cut l front x back f e = elim (Option-cases (decode_wal_entry front ns_id capacity)) [
    | inl stops ↦ stops
    | inr ((entry, rest), got) ↦
        let whole : decode_wal_entry (front ++ (x ∷ back)) ns_id capacity
            ≡ some (replayed ns_id capacity l, []) =
          rw (append-nil, e) at
            (decode-encode_wal_entry ns_id l.blob_id [] capacity l.chunks f.0 f.1 f.2) in
        let longer =
          (decode_wal_entry-IsReader ns_id capacity).extends front (x ∷ back) entry rest got in
        ground (arith, whole, longer, length-append rest (x ∷ back))
  ]

  parse_tail :
      (fuel : ℕ) (tail : Bytes) → IsTorn tail → parse_wal_loop fuel tail ns_id capacity ≡ []
  unfolding parse_wal_loop
  parse_tail zero tail t = refl
  parse_tail (suc fuel) [] t = refl
  parse_tail (suc fuel) (b ∷ bs) (inl e) = absurd (cc)
  parse_tail (suc fuel) (b ∷ bs) (inr (l, x, missing, f, e)) =
      rw (decode_cut l (b ∷ bs) x missing f e, parse_wal_loop)

  parse_step :
      (fuel : ℕ) (buf rest : Bytes) (entry : WalEntry)
      → decode_wal_entry buf ns_id capacity ≡ some (entry, rest)
      → parse_wal_loop (suc fuel) buf ns_id capacity
        ≡ entry ∷ parse_wal_loop fuel rest ns_id capacity
  unfolding parse_wal_loop
  parse_step fuel [] rest entry h =
      absurd (omega (arith, decode_wal_entry_takes [] ns_id rest capacity entry h))
  parse_step fuel (b ∷ bs) rest entry h = rw (h, parse_wal_loop)

  parse_log :
      (ls : List Logged) (fuel : ℕ) (tail : Bytes)
      → All Fits ls
      → IsTorn tail
      → length (log_bytes ls ++ tail) ≤ fuel
      → parse_wal_loop fuel (log_bytes ls ++ tail) ns_id capacity ≡ map (replayed ns_id capacity) ls
  parse_log [] fuel tail f t h = parse_tail fuel tail t
  parse_log (l ∷ ls) fuel tail f t h =
      let rest = log_bytes ls ++ tail in
      let first : decode_wal_entry ((record_bytes l ++ log_bytes ls) ++ tail) ns_id capacity
          ≡ some (replayed ns_id capacity l, rest) =
        ap (λ (b : Bytes). decode_wal_entry b ns_id capacity)
          (append_assoc (record_bytes l) (log_bytes ls) tail)
        ∙ decode-encode_wal_entry ns_id l.blob_id rest capacity l.chunks f.0.0 f.0.1 f.0.2 in
      let shorter = decode_wal_entry_takes _ ns_id rest capacity _ first in
      let fuel_suc : fuel ≡ suc (fuel - 1) = omega arith in
      rw fuel_suc (
        parse_step (fuel - 1) _ rest _ first
        ∙ ap (◌∷◌ (replayed ns_id capacity l)) (parse_log ls (fuel - 1) tail f.1 t (omega arith)))

-- A log of whole records whose fields fit their widths, and at its end at most a proper part of
-- such a record, is read back record by record in the order of writing, without the part. The page
-- size is above the header's.
pub parse_wal_lem :
    (ns_id : Bytes) (page_size : ℕ) (ls : List Logged) (tail : Bytes)
    → page_header_size < page_size
    → All Fits ls
    → IsTorn tail
    → parse_wal (some (log_bytes ls ++ tail)) ns_id page_size
      ≡ map (replayed ns_id (page_size - page_header_size)) ls
unfolding parse_wal
parse_wal_lem ns_id page_size ls tail room f t =
    let roomy : ltb (page_size - page_header_size) 1 ≡ false = le→ltb _ _ (omega arith) in
    rw roomy (parse_log ns_id (page_size - page_header_size) ls _ tail f t (omega arith))
