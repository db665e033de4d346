-- ===== src/Volume/Blob/Owner.antt =====
-- The namespace of the engine and of the chunk records that WriteBlob makes.
use Prim.Native.Nat.{bit_or}
use mathlib.Core.List.{flatten}
use blobs.Base.{
  ℕ, ◌+◌, ◌≡◌, inl, inr, ltb, List, [], ◌∷◌, Option, none, some, length, All, Bool-cases,
  Option-cases, ◌==◌, if◌then◌else◌,
}
use blobs.Base.Bytes.{Bytes, put_uint, write_at}
use blobs.Errors.{Error, Result, ok, err, Result-cases}
use blobs.Object.{ChunkEntry}
use blobs.Volume.Address.{chunk_id_from_content}
use blobs.Volume.Blob.{
  WriteResult, write_piece, write_pieces, append_active, seal_payload, own_chunks, finish_blob,
  write_blob, patch_pages, append_wal,
}
use blobs.Volume.Engine.{Engine}
use blobs.Volume.Files.{read_file}
use blobs.Volume.Flags.{flag_last_chunk}
use blobs.Volume.Header.{PageHeader, seg_header_size}
use blobs.Volume.Segment.{append_chunk}
use blobs.Volume.Write.{
  Outcome, ◌>>=◌, open_seg_file, create_seg_file, activate, ensure_active, roll_if_needed, flush,
  flush_seg, patch_page, update_flags,
}

-- The engine is the namespace's afterwards, and what the call gives has the property.
abbrev pub Owned : {A : Type 0} → Bytes → (A → Type 0) → Outcome A → Type 0
Owned n P (e, ok a) = (e.ns_id ≡ n) × P a
Owned n P (e, err x) = e.ns_id ≡ n

abbrev pub Any : {A : Type 0} → A → Type 0
Any a = Unit {0}

Owned-bind :
    {A B : Type 0} (n : Bytes) (Q : A → Type 0) (P : B → Type 0) (o : Outcome A)
    (f : Engine → A → Outcome B)
    → Owned n Q o
    → ((e : Engine) (a : A) → e.ns_id ≡ n → Q a → Owned n P (f e a))
    → Owned n P (o >>= f)
Owned-bind n Q P (e, ok a) f h k = k e a h.0 h.1
Owned-bind n Q P (e, err x) f h k = h

module _ (n : Bytes) where
  open_seg_file-Owned : (e : Engine) (seq : ℕ) → e.ns_id ≡ n → Owned n Any (open_seg_file e seq)
  unfolding open_seg_file
  open_seg_file-Owned e seq h = elim (Option-cases (read_file seq e.files)) [
    | inl gone ↦ rw (gone, open_seg_file) h
    | inr (c, there) ↦ elim (Bool-cases (ltb (length c) seg_header_size)) [
      | inl short ↦ rw (there, open_seg_file, short) h
      | inr whole ↦ rw (there, open_seg_file, whole) (h, tt)
    ]
  ]

  create_seg_file-Owned :
      (now : ℕ) (e : Engine) (seq : ℕ) → e.ns_id ≡ n → Owned n Any (create_seg_file now e seq)
  unfolding create_seg_file
  create_seg_file-Owned now e seq h = elim (Option-cases (read_file seq e.files)) [
    | inl gone ↦ rw (gone, create_seg_file) (h, tt)
    | inr (c, there) ↦ rw (there, create_seg_file) (open_seg_file-Owned e seq h)
  ]

  activate-Owned : (now : ℕ) (e : Engine) → e.ns_id ≡ n → Owned n Any (activate now e)
  unfolding activate
  activate-Owned now e h =
      Owned-bind n Any Any (create_seg_file now e e.next_seq) _
        (create_seg_file-Owned now e e.next_seq h) λ e' sf k u. (k, tt)

  ensure_active-Owned : (now : ℕ) (e : Engine) → e.ns_id ≡ n → Owned n Any (ensure_active now e)
  unfolding ensure_active
  ensure_active-Owned now e h = elim (Option-cases e.active) [
    | inl idle ↦ rw (idle, ensure_active) (activate-Owned now e h)
    | inr (sf, busy) ↦ rw (busy, ensure_active) (h, tt)
  ]

  flush-Owned : (e : Engine) → e.ns_id ≡ n → Owned n Any (flush e)
  unfolding flush flush_seg
  flush-Owned e h = elim (Option-cases e.active) [
    | inl idle ↦ rw (idle, flush) h
    | inr (sf, busy) ↦ rw (busy, flush) (h, tt)
  ]

  roll_if_needed-Owned : (now : ℕ) (e : Engine) → e.ns_id ≡ n → Owned n Any (roll_if_needed now e)
  unfolding roll_if_needed flush_seg
  roll_if_needed-Owned now e h = elim (Option-cases e.active) [
    | inl idle ↦ rw (idle, roll_if_needed) h
    | inr (sf, busy) ↦ elim (Bool-cases (ltb sf.offset e.max_segment_size)) [
      | inl room ↦ rw (busy, roll_if_needed, room) (h, tt)
      | inr full ↦ rw (busy, roll_if_needed, full) (activate-Owned now _ h)
    ]
  ]

  append_active-Owned :
      (hdr : PageHeader) (stored : Bytes) (e : Engine)
      → e.ns_id ≡ n
      → Owned n Any (append_active hdr stored e)
  unfolding append_active
  append_active-Owned hdr stored e h = elim (Option-cases e.active) [
    | inl idle ↦ rw (idle, append_active) h
    | inr (sf, busy) ↦ elim (Option-cases (append_chunk sf hdr stored e.page_size)) [
      | inl stuck ↦ rw (busy, append_active, stuck) h
      | inr (out, done) ↦ rw (busy, append_active, done) (h, tt)
    ]
  ]

  patch_page-Owned :
      (e : Engine) (seq off : ℕ) (id : Bytes) (total flags : ℕ)
      → e.ns_id ≡ n
      → Owned n Any (patch_page e seq off id total flags)
  unfolding patch_page
  patch_page-Owned e seq off id total flags h = elim (Option-cases (read_file seq e.files)) [
    | inl gone ↦ rw (gone, patch_page) h
    | inr (file, there) ↦
        elim (Result-cases (
          update_flags (λ old. bit_or old flags) off
            (write_at (off + 40) id (write_at (off + 76) (put_uint 4 total) file)))) [
              | inl (b, good) ↦ rw (there, patch_page, good) (h, tt)
              | inr (x, bad) ↦ rw (there, patch_page, bad) h
            ]
  ]

  patch_pages-Owned :
      (digest : Bytes) (total : ℕ) (cs : List ChunkEntry) (e : Engine)
      → e.ns_id ≡ n
      → Owned n Any (patch_pages digest total cs e)
  unfolding patch_pages
  patch_pages-Owned digest total [] e h = (h, tt)
  patch_pages-Owned digest total (c ∷ cs) e h =
      let flags = if length cs == 0 then flag_last_chunk else 0 in
      Owned-bind n Any Any (patch_page e c.segment_id c.page_offset digest total flags) _
        (patch_page-Owned e c.segment_id c.page_offset digest total flags h)
        λ e' u k v. patch_pages-Owned digest total cs e' k

  append_wal-Owned :
      (id : Bytes) (cs : List ChunkEntry) (e : Engine)
      → e.ns_id ≡ n
      → Owned n Any (append_wal id cs e)
  unfolding append_wal
  append_wal-Owned id cs e h = elim (Option-cases e.active) [
    | inl idle ↦ rw (idle, append_wal) h
    | inr (sf, busy) ↦ rw (busy, append_wal) (h, tt)
  ]

  abbrev pub InNamespace : ChunkEntry → Type 0
  InNamespace c = c.namespace_id ≡ n

  own_chunks-InNamespace :
      (id : Bytes) (cs : List ChunkEntry) → All InNamespace cs → All InNamespace (own_chunks id cs)
  unfolding own_chunks
  own_chunks-InNamespace id [] h = tt
  own_chunks-InNamespace id (c ∷ cs) h = (h.0, own_chunks-InNamespace id cs h.1)

  module _ (sha256 : Bytes → Bytes) (crc32 : Bytes → ℕ) (random : ℕ → Result Bytes) (now : ℕ) where
    write_piece-Owned :
        (seq : ℕ) (p : Bytes) (e : Engine)
        → e.ns_id ≡ n
        → Owned n InNamespace (write_piece sha256 crc32 random now seq p e)
    unfolding write_piece
    write_piece-Owned seq p e h =
        elim (Result-cases
          (seal_payload e.cipher (random seq) (chunk_id_from_content (sha256 p)) p)) [
            | inr (x, bad) ↦ rw (bad, write_piece) h
            | inl (sealed, good) ↦
                rw (good, write_piece)
                  (Owned-bind n Any InNamespace (ensure_active now e) _
                    (ensure_active-Owned now e h)
                    λ e₁ u h₁ a.
                      Owned-bind n Any InNamespace (roll_if_needed now e₁) _
                        (roll_if_needed-Owned now e₁ h₁)
                        λ e₂ v h₂ b.
                          Owned-bind n Any InNamespace (append_active _ sealed.ciphertext e₂) _
                            (append_active-Owned _ sealed.ciphertext e₂ h₂)
                            λ e₃ place h₃ c. (h₃, h₃))
          ]

    write_pieces-Owned :
        (seq : ℕ) (ps : List Bytes) (failure : Option Error) (e : Engine)
        → e.ns_id ≡ n
        → Owned n (All InNamespace) (write_pieces sha256 crc32 random now seq ps failure e)
    unfolding write_pieces
    write_pieces-Owned seq [] none e h = (h, tt)
    write_pieces-Owned seq [] (some x) e h = h
    write_pieces-Owned seq (p ∷ ps) failure e h =
        Owned-bind n InNamespace (All InNamespace) (write_piece sha256 crc32 random now seq p e) _
          (write_piece-Owned seq p e h)
          λ e₁ c h₁ mine.
            Owned-bind n (All InNamespace) (All InNamespace)
              (write_pieces sha256 crc32 random now (seq + 1) ps failure e₁) _
              (write_pieces-Owned (seq + 1) ps failure e₁ h₁)
              λ e₂ cs h₂ theirs. (h₂, (mine, theirs))

    abbrev pub AreInNamespace : WriteResult → Type 0
    AreInNamespace r = All InNamespace r.chunks

    finish_blob-Owned :
        (content : Bytes) (cs : List ChunkEntry) (e : Engine)
        → e.ns_id ≡ n
        → All InNamespace cs
        → Owned n AreInNamespace (finish_blob sha256 crc32 random now content cs e)
    unfolding finish_blob
    finish_blob-Owned content cs e h mine = elim (Bool-cases (length cs == 0)) [
      | inl void ↦ rw void h
      | inr full ↦ rw full (
          Owned-bind n Any AreInNamespace (flush e) _ (flush-Owned e h) λ e₁ u h₁ a.
            Owned-bind n Any AreInNamespace (patch_pages (sha256 content) (length cs) cs e₁) _
              (patch_pages-Owned (sha256 content) (length cs) cs e₁ h₁)
              λ e₂ v h₂ b.
                Owned-bind n Any AreInNamespace (flush e₂) _ (flush-Owned e₂ h₂) λ e₃ w h₃ c.
                  Owned-bind n Any AreInNamespace (append_wal _ _ e₃) _ (append_wal-Owned _ _ e₃ h₃)
                    λ e₄ x h₄ d. (h₄, own_chunks-InNamespace _ cs mine))
    ]

    -- WriteBlob leaves the engine in its namespace, and the chunk records that it makes are in it.
    pub write_blob-Owned :
        (ps : List Bytes) (failure : Option Error) (e : Engine)
        → e.ns_id ≡ n
        → Owned n AreInNamespace (write_blob sha256 crc32 random now ps failure e)
    unfolding write_blob
    write_blob-Owned ps failure e h =
        Owned-bind n (All InNamespace) AreInNamespace
          (write_pieces sha256 crc32 random now 0 ps failure e) _
          (write_pieces-Owned 0 ps failure e h)
          λ e₁ cs h₁ mine. finish_blob-Owned (flatten ps) cs e₁ h₁ mine
