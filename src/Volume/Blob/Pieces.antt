-- ===== src/Volume/Blob/Pieces.antt =====
-- The chunk records that WriteBlob makes of the pieces of a blob.
use mathlib.Core.List.{flatten}
use mathlib.Core.Path.{subst}
use blobs.Base.{
  ℕ, ◌+◌, ◌≡◌, refl, inl, inr, ◌<◌, List, [], ◌∷◌, Option, none, some, length, All, Bool-cases,
  ◌==◌, arith,
}
use blobs.Base.Bytes.{Bytes}
use blobs.Errors.{Error, Result, ok, err, Result-cases}
use blobs.Object.{ChunkEntry}
use blobs.Volume.Address.{chunk_id_from_content, blob_id_from_digest}
use blobs.Volume.Blob.{
  WriteResult, write_piece, write_pieces, append_active, seal_payload, own_chunks, finish_blob,
  write_blob, patch_pages, append_wal,
}
use blobs.Volume.Engine.{Engine}
use blobs.Volume.Write.{Outcome, ◌>>=◌, ensure_active, roll_if_needed, flush}

-- What holds of the value of a call that does not fail.
abbrev pub OnOk : {A : Type 0} → (A → Type 0) → Outcome A → Type 0
OnOk P (e, ok a) = P a
OnOk P (e, err x) = Unit {0}

OnOk-then :
    {A B : Type 0} (Q : A → Type 0) (P : B → Type 0) (o : Outcome A) (f : Engine → A → Outcome B)
    → OnOk Q o
    → ((e : Engine) (a : A) → Q a → OnOk P (f e a))
    → OnOk P (o >>= f)
OnOk-then Q P (e, ok a) f q h = h e a q
OnOk-then Q P (e, err x) f q h = tt

OnOk-bind :
    {A B : Type 0} (P : B → Type 0) (o : Outcome A) (f : Engine → A → Outcome B)
    → ((e : Engine) (a : A) → OnOk P (f e a))
    → OnOk P (o >>= f)
OnOk-bind P (e, ok a) f h = h e a
OnOk-bind P (e, err x) f h = tt

module _ (sha256 : Bytes → Bytes) (crc32 : Bytes → ℕ) (random : ℕ → Result Bytes) (now : ℕ) where
  -- The record is that of the piece, at its position.
  abbrev pub IsRecordOf : ℕ → Bytes → ChunkEntry → Type 0
  IsRecordOf n p c =
      (c.chunk_id ≡ chunk_id_from_content (sha256 p)) × (c.len ≡ length p) × (c.seq_no ≡ n)

  abbrev pub AreRecordsOf : ℕ → List Bytes → List ChunkEntry → Type 0
  AreRecordsOf n [] [] = Unit {0}
  AreRecordsOf n (p ∷ ps) (c ∷ cs) = IsRecordOf n p c × AreRecordsOf (n + 1) ps cs
  AreRecordsOf n _ _ = n < n

  write_piece-IsRecordOf :
      (n : ℕ) (p : Bytes) (e : Engine)
      → OnOk (IsRecordOf n p) (write_piece sha256 crc32 random now n p e)
  unfolding write_piece
  write_piece-IsRecordOf n p e =
      elim (Result-cases (seal_payload e.cipher (random n) (chunk_id_from_content (sha256 p)) p)) [
        | inr (x, bad) ↦ rw (bad, write_piece) tt
        | inl (sealed, good) ↦
            rw (good, write_piece)
              (OnOk-bind (IsRecordOf n p) (ensure_active now e) _ λ e₁ u.
                OnOk-bind (IsRecordOf n p) (roll_if_needed now e₁) _ λ e₂ v.
                  OnOk-bind (IsRecordOf n p) (append_active _ sealed.ciphertext e₂) _
                    λ e₃ place. (refl, refl, refl))
      ]

  write_pieces-AreRecordsOf :
      (n : ℕ) (ps : List Bytes) (failure : Option Error) (e : Engine)
      → OnOk (AreRecordsOf n ps) (write_pieces sha256 crc32 random now n ps failure e)
  unfolding write_pieces
  write_pieces-AreRecordsOf n [] none e = tt
  write_pieces-AreRecordsOf n [] (some x) e = tt
  write_pieces-AreRecordsOf n (p ∷ ps) failure e =
      OnOk-then (IsRecordOf n p) (AreRecordsOf n (p ∷ ps))
        (write_piece sha256 crc32 random now n p e) _ (write_piece-IsRecordOf n p e)
        λ e₁ c first.
          OnOk-then (AreRecordsOf (n + 1) ps) (AreRecordsOf n (p ∷ ps))
            (write_pieces sha256 crc32 random now (n + 1) ps failure e₁) _
            (write_pieces-AreRecordsOf (n + 1) ps failure e₁) λ e₂ cs rest. (first, rest)

  own_chunks-AreRecordsOf :
      (id : Bytes) (n : ℕ) (ps : List Bytes) (cs : List ChunkEntry)
      → AreRecordsOf n ps cs
      → AreRecordsOf n ps (own_chunks id cs)
  unfolding own_chunks
  own_chunks-AreRecordsOf id n [] [] h = tt
  own_chunks-AreRecordsOf id n [] (c ∷ cs) h = absurd (omega arith)
  own_chunks-AreRecordsOf id n (p ∷ ps) [] h = absurd (omega arith)
  own_chunks-AreRecordsOf id n (p ∷ ps) (c ∷ cs) h =
      (h.0, own_chunks-AreRecordsOf id (n + 1) ps cs h.1)

  own_chunks-owned :
      (id : Bytes) (cs : List ChunkEntry) → All (λ c. c.blob_id ≡ id) (own_chunks id cs)
  unfolding own_chunks
  own_chunks-owned id [] = tt
  own_chunks-owned id (c ∷ cs) = (refl, own_chunks-owned id cs)

  -- What WriteBlob returns describes the pieces of the blob, one record for each in their order.
  abbrev pub Describes : List Bytes → WriteResult → Type 0
  Describes ps r =
      (r.blob_id ≡ blob_id_from_digest (sha256 (flatten ps)))
      × (r.total_size ≡ length (flatten ps))
      × All (λ c. c.blob_id ≡ r.blob_id) r.chunks
      × AreRecordsOf 0 ps r.chunks

  finish_blob-Describes :
      (ps : List Bytes) (cs : List ChunkEntry) (e : Engine)
      → AreRecordsOf 0 ps cs
      → OnOk (Describes ps) (finish_blob sha256 crc32 random now (flatten ps) cs e)
  unfolding finish_blob
  finish_blob-Describes ps cs e h = elim (Bool-cases (length cs == 0)) [
    | inl void ↦ rw void tt
    | inr full ↦ rw full (
        OnOk-bind (Describes ps) (flush e) _ λ e₁ u.
          OnOk-bind (Describes ps) (patch_pages (sha256 (flatten ps)) (length cs) cs e₁) _ λ e₂ v.
            OnOk-bind (Describes ps) (flush e₂) _ λ e₃ w.
              OnOk-bind (Describes ps) (append_wal _ _ e₃) _
                λ e₄ x. (refl, refl, own_chunks-owned _ cs, own_chunks-AreRecordsOf _ 0 ps cs h))
  ]

  -- Where WriteBlob succeeds: the blob's ID is the address of the whole content, its size is the
  -- content's length, and it has one chunk record for each piece, in order, that belongs to the
  -- blob and has the address of the piece's plain content, the piece's length and its position,
  -- whether or not the namespace is encrypted, and wherever segments were rolled.
  pub write_blob-Describes :
      (ps : List Bytes) (failure : Option Error) (e e' : Engine) (r : WriteResult)
      → write_blob sha256 crc32 random now ps failure e ≡ (e', ok r)
      → Describes ps r
  unfolding write_blob
  write_blob-Describes ps failure e e' r h = subst (OnOk (Describes ps)) h (
      OnOk-then (AreRecordsOf 0 ps) (Describes ps)
        (write_pieces sha256 crc32 random now 0 ps failure e) _
        (write_pieces-AreRecordsOf 0 ps failure e) λ e₁ cs. finish_blob-Describes ps cs e₁)
