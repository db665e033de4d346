-- ===== src/Store/Reader/Stream.antt =====
-- A chunkReader is a stream: what it still has to give is a suffix of the blob's bytes.
use blobs.Base.{
  ℕ, suc, ◌+◌, ◌≤◌, ◌<◌, ◌≡◌, refl, sym, ap, ◌∙◌, ◌⊎◌, inl, inr, List, [], ◌++◌, length, drop,
  arith, length-drop, drop-drop, drop_seam, subst,
}
use blobs.Base.Bytes.{Bytes}
use blobs.Base.Int.{pos}
use blobs.Errors.{Result, ok, err, eof}
use blobs.Object.{ChunkEntry}
use blobs.Store.Reader.Rounds.{content, Loads, Skips, remaining, resolve_lem, read_loop_lem}
use blobs.Store.Reader.{ChunkReader, read, read_loop, seek, seek_start, seek_to}

module _ (load : ChunkEntry → Result Bytes) (payload : ChunkEntry → Bytes) where
  -- The reader between two calls: its chunks load, its skip stays within the next chunk, and what
  -- it has still to give is the blob from its position on.
  pub record IsStream (r : ChunkReader) : Type 0 where
    pub loads : Loads load payload r.locations
    pub skips : Skips load payload (drop r.idx r.locations) r.pending_skip
    pub at : remaining load payload r ≡ drop r.abs_pos (content load payload r.locations)

  -- Seek to an offset of the blob or beyond gives a stream at that offset.
  pub seek_lem :
      (r : ChunkReader) (target : ℕ)
      → Loads load payload r.locations
      → (r' : ChunkReader) × (seek (pos target) seek_start r ≡ (r', ok target))
        × IsStream r'
        × (r'.abs_pos ≡ target)
        × (r'.locations ≡ r.locations)
  unfolding seek
  seek_lem r target v =
      let (rest, fits) = resolve_lem load payload r.locations target v in
      ((seek_to r (pos target)).0, refl, record { loads = v; skips = fits; at = rest }, refl, refl)

  length-tail : (n : ℕ) (cs : List ChunkEntry) → length (drop n cs) ≤ length cs
  length-tail n cs = omega (arith, length-drop n cs)

  -- Read into a slice that is not empty, of a stream: either it gives bytes, at least one and at
  -- most the slice's length, which are the next of the blob, and leaves a stream behind them; or it
  -- reports io.EOF, and the position is at the blob's end or beyond.
  pub read_lem :
      (n : ℕ) (r : ChunkReader)
      → 0 < n
      → IsStream r
      → let out = read load n r in
        ((got : Bytes) × (out.1 ≡ ok got)
          × (0 < length got)
          × (length got ≤ n)
          × (out.0.abs_pos ≡ r.abs_pos + length got)
          × (drop r.abs_pos (content load payload r.locations)
              ≡ got ++ drop out.0.abs_pos (content load payload r.locations))
          × (out.0.locations ≡ r.locations)
          × IsStream out.0)
        ⊎ ((out.1 ≡ err eof) × (drop r.abs_pos (content load payload r.locations) ≡ []))
  unfolding read
  read_lem n r room st =
      let out = read_loop load (suc (length r.locations)) n r in
      elim (read_loop_lem load payload (suc (length r.locations)) n r room st.loads st.skips
        (omega (arith, length-tail r.idx r.locations))) [
          | inl (got, a, some_byte, fits, joined, moved, same, skips) ↦
              let whole : drop r.abs_pos (content load payload r.locations)
                  ≡ got ++ remaining load payload out.0 =
                sym st.at ∙ joined in
              let next : remaining load payload out.0
                  ≡ drop out.0.abs_pos (content load payload r.locations) =
                sym (drop_seam (length got) got (remaining load payload out.0) refl)
                ∙ ap (drop (length got)) (sym whole)
                ∙ drop-drop (length got) r.abs_pos (content load payload r.locations)
                ∙ ap (λ (k : ℕ). drop k (content load payload r.locations)) (sym moved) in
              inl (
                got,
                a,
                some_byte,
                fits,
                moved,
                whole ∙ ap (◌++◌ got) next,
                same,
                record {
                  loads = subst (Loads load payload) (sym same) st.loads;
                  skips = skips;
                  at =
                      next
                      ∙ ap (λ (l : List ChunkEntry). drop out.0.abs_pos (content load payload l))
                          (sym same);
                },
              )
          | inr (a, b) ↦ inr (a, sym st.at ∙ b)
        ]
