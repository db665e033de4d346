-- ===== src/Volume/Wal/Order.antt =====
-- The order of the chunks that ParseWAL gives.
use mathlib.Core.Path.{subst}
use blobs.Base.{
  ℕ, zero, suc, ◌+◌, ◌≡◌, refl, ◌==◌, List, [], ◌∷◌, Option, none, some, length, inl, inr,
  Option-cases, Bool-cases, All, arith,
}
use blobs.Base.Bytes.{Bytes}
use blobs.Object.{ChunkEntry}
use blobs.Volume.Wal.{
  WalEntry, wal_magic, read_uint, read_bytes, decode_wal_chunk, decode_wal_chunks, decode_wal_entry,
  parse_wal_loop, parse_wal,
}

-- The chunks have their positions as numbers, from `i` on.
abbrev pub Numbered : ℕ → List ChunkEntry → Type 0
Numbered i [] = Unit {0}
Numbered i (c ∷ cs) = (c.seq_no ≡ i) × Numbered (suc i) cs

abbrev OnSome {ℓ} : {A : Type ℓ} → (A → Type 0) → Option A → Type 0
OnSome P none = Unit {0}
OnSome P (some a) = P a

decode_wal_chunk-seq_no :
    (ns_id id : Bytes) (capacity n : ℕ) (buf : Bytes)
    → OnSome (λ (r : ChunkEntry × Bytes). r.0.seq_no ≡ n) (decode_wal_chunk ns_id id capacity n buf)
unfolding decode_wal_chunk
decode_wal_chunk-seq_no ns_id id capacity n buf = elim (Option-cases (read_uint 2 buf)) [
  | inl h ↦ rw (h, decode_wal_chunk) tt
  | inr ((cid_len, b₁), h₁) ↦ elim (Option-cases (read_bytes cid_len b₁)) [
    | inl h ↦ rw (h₁, h, decode_wal_chunk) tt
    | inr ((chunk_id, b₂), h₂) ↦ elim (Option-cases (read_uint 8 b₂)) [
      | inl h ↦ rw (h₁, h₂, h, decode_wal_chunk) tt
      | inr ((segment_id, b₃), h₃) ↦ elim (Option-cases (read_uint 8 b₃)) [
        | inl h ↦ rw (h₁, h₂, h₃, h, decode_wal_chunk) tt
        | inr ((page_offset, b₄), h₄) ↦ elim (Option-cases (read_uint 8 b₄)) [
          | inl h ↦ rw (h₁, h₂, h₃, h₄, h, decode_wal_chunk) tt
          | inr ((len, b₅), h₅) ↦ rw (h₁, h₂, h₃, h₄, h₅, decode_wal_chunk) refl
        ]
      ]
    ]
  ]
]

decode_wal_chunks-Numbered :
    (ns_id id : Bytes) (capacity left n : ℕ) (buf : Bytes)
    → OnSome
        (λ (r : List ChunkEntry × Bytes). Numbered n r.0)
        (decode_wal_chunks ns_id id capacity left n buf)
unfolding decode_wal_chunks
decode_wal_chunks-Numbered ns_id id capacity zero n buf = tt
decode_wal_chunks-Numbered ns_id id capacity (suc left) n buf =
    elim (Option-cases (decode_wal_chunk ns_id id capacity n buf)) [
      | inl h ↦ rw (h, decode_wal_chunks) tt
      | inr ((c, b₁), h₁) ↦
          elim (Option-cases (decode_wal_chunks ns_id id capacity left (n + 1) b₁)) [
            | inl h ↦ rw (h₁, h, decode_wal_chunks) tt
            | inr ((cs, b₂), h₂) ↦
                let first : c.seq_no ≡ n =
                  subst (OnSome (λ (r : ChunkEntry × Bytes). r.0.seq_no ≡ n)) h₁
                    (decode_wal_chunk-seq_no ns_id id capacity n buf) in
                let rest : Numbered (n + 1) cs =
                  subst (OnSome (λ (r : List ChunkEntry × Bytes). Numbered (n + 1) r.0)) h₂
                    (decode_wal_chunks-Numbered ns_id id capacity left (n + 1) b₁) in
                let next : n + 1 ≡ suc n = omega arith in
                rw (h₁, h₂, decode_wal_chunks) (first, subst (λ (k : ℕ). Numbered k cs) next rest)
          ]
    ]

decode_wal_entry-Numbered :
    (buf ns_id : Bytes) (capacity : ℕ)
    → OnSome (λ (r : WalEntry × Bytes). Numbered 0 r.0.chunks) (decode_wal_entry buf ns_id capacity)
unfolding decode_wal_entry
decode_wal_entry-Numbered buf ns_id capacity = elim (Option-cases (read_uint 4 buf)) [
  | inl h ↦ rw (h, decode_wal_entry) tt
  | inr ((magic, b₁), h₁) ↦ elim (Bool-cases (magic == wal_magic)) [
    | inr other ↦ rw (h₁, other, decode_wal_entry) tt
    | inl same ↦ elim (Option-cases (read_uint 2 b₁)) [
      | inl h ↦ rw (h₁, same, h, decode_wal_entry) tt
      | inr ((id_len, b₂), h₂) ↦ elim (Option-cases (read_bytes id_len b₂)) [
        | inl h ↦ rw (h₁, same, h₂, h, decode_wal_entry) tt
        | inr ((id, b₃), h₃) ↦ elim (Option-cases (read_uint 4 b₃)) [
          | inl h ↦ rw (h₁, same, h₂, h₃, h, decode_wal_entry) tt
          | inr ((count, b₄), h₄) ↦
              elim (Option-cases (decode_wal_chunks ns_id id capacity count 0 b₄)) [
                | inl h ↦ rw (h₁, same, h₂, h₃, h₄, h, decode_wal_entry) tt
                | inr ((cs, rest), h₅) ↦
                    rw (h₁, same, h₂, h₃, h₄, h₅, decode_wal_entry)
                      (subst (OnSome (λ (r : List ChunkEntry × Bytes). Numbered 0 r.0)) h₅
                        (decode_wal_chunks-Numbered ns_id id capacity count 0 b₄))
              ]
        ]
      ]
    ]
  ]
]

parse_wal_loop-Numbered :
    (fuel : ℕ) (buf ns_id : Bytes) (capacity : ℕ)
    → All (λ e. Numbered 0 e.chunks) (parse_wal_loop fuel buf ns_id capacity)
unfolding parse_wal_loop
parse_wal_loop-Numbered zero buf ns_id capacity = tt
parse_wal_loop-Numbered (suc fuel) [] ns_id capacity = tt
parse_wal_loop-Numbered (suc fuel) (b ∷ bs) ns_id capacity =
    elim (Option-cases (decode_wal_entry (b ∷ bs) ns_id capacity)) [
      | inl h ↦ rw (h, parse_wal_loop) tt
      | inr ((entry, rest), h) ↦
          rw (h, parse_wal_loop)
            (
              subst (OnSome (λ (r : WalEntry × Bytes). Numbered 0 r.0.chunks)) h
                  (decode_wal_entry-Numbered (b ∷ bs) ns_id capacity),
              parse_wal_loop-Numbered fuel rest ns_id capacity,
            )
    ]

-- In every entry that ParseWAL gives, the chunks are numbered by their positions, so that writing
-- their IDs into a list of their number is never out of range.
pub parse_wal-Numbered :
    (o : Option Bytes) (ns_id : Bytes) (page_size : ℕ)
    → All (λ e. Numbered 0 e.chunks) (parse_wal o ns_id page_size)
unfolding parse_wal
parse_wal-Numbered none ns_id page_size = tt
parse_wal-Numbered (some b) ns_id page_size = parse_wal_loop-Numbered (length b) b ns_id _
