-- ===== src/Store/Reader/Rounds.antt =====
-- The rounds of chunkReader's Read, and what a reader has still to give.
use mathlib.Core.List.{flatten}
use blobs.Base.{
  ℕ, zero, suc, ◌+◌, ◌-◌, ◌≤◌, ◌<◌, ◌≡◌, refl, sym, ap, ◌∙◌, ◌⊎◌, inl, inr, min, true, false, ltb,
  List, [], ◌∷◌, ◌++◌, map, length, take, drop, All, arith, Bool-cases, append_assoc, length-take,
  length-drop, drop-drop, drop_all, drop-append, drop-append_left, ltb→lt, subst,
}
use blobs.Base.Bytes.{Bytes}
use blobs.Errors.{Result, ok, err, eof}
use blobs.Object.{ChunkEntry}
use blobs.Store.Reader.{ChunkReader, read_loop, serve, loaded, resolve_chunk_offset}

take_taken : (n : ℕ) (b : Bytes) → take n b ++ drop (length (take n b)) b ≡ b
take_taken zero b = refl
take_taken (suc n) [] = refl
take_taken (suc n) (x ∷ b) = ap (◌∷◌ x) (take_taken n b)

module _ (load : ChunkEntry → Result Bytes) (payload : ChunkEntry → Bytes) where
  abbrev pub content : List ChunkEntry → Bytes
  content locations = flatten (map payload locations)

  -- Every chunk can be read, and has the length that its entry names.
  abbrev pub Loads : List ChunkEntry → Type 0
  Loads = All (λ (c : ChunkEntry). (load c ≡ ok (payload c)) × (length (payload c) ≡ c.len))

  abbrev pub Skips : List ChunkEntry → ℕ → Type 0
  Skips [] n = n ≡ 0
  Skips (c ∷ cs) n = n ≤ c.len

  -- What is still to be read.
  abbrev pub remaining : ChunkReader → Bytes
  remaining r = drop r.buf_pos r.buf ++ drop r.pending_skip (content (drop r.idx r.locations))

  pub resolve_lem :
      (cs : List ChunkEntry) (offset : ℕ)
      → Loads cs
      → let (i, intra) = resolve_chunk_offset cs offset in
        (drop intra (content (drop i cs)) ≡ drop offset (content cs)) × Skips (drop i cs) intra
  unfolding resolve_chunk_offset flatten
  resolve_lem [] offset v = (sym (drop_all offset [] (omega arith)), refl)
  resolve_lem (c ∷ cs) offset v = elim (Bool-cases (ltb offset c.len)) [
    | inl here ↦ rw here (refl, ground arith)
    | inr later ↦
        let (rest, fits) = resolve_lem cs (offset - c.len) v.1 in
        let next : drop (offset - c.len) (content cs) ≡ drop offset (payload c ++ content cs) =
          sym (
            drop-append offset (payload c) (content cs) (ground arith)
            ∙ ap (λ (k : ℕ). drop k (content cs)) (omega arith)) in
        rw later (rest ∙ next, fits)
  ]

  tail-Loads : (n : ℕ) (cs : List ChunkEntry) → Loads cs → Loads (drop n cs)
  tail-Loads zero cs v = v
  tail-Loads (suc n) [] v = tt
  tail-Loads (suc n) (c ∷ cs) v = tail-Loads n cs v.1

  drop_next :
      (n : ℕ) (cs : List ChunkEntry) (c : ChunkEntry) (rest : List ChunkEntry)
      → drop n cs ≡ c ∷ rest
      → drop (suc n) cs ≡ rest
  drop_next zero cs c rest e = ap (drop 1) e
  drop_next (suc n) [] c rest e = cc
  drop_next (suc n) (x ∷ cs) c rest e = drop_next n cs c rest e

  -- The two ways in which a read ends.
  abbrev pub Served : ℕ → ChunkReader → ChunkReader × Result Bytes → Type 0
  Served n r out =
      (got : Bytes) × (out.1 ≡ ok got)
      × (0 < length got)
      × (length got ≤ n)
      × (remaining r ≡ got ++ remaining out.0)
      × (out.0.abs_pos ≡ r.abs_pos + length got)
      × (out.0.locations ≡ r.locations)
      × Skips (drop out.0.idx out.0.locations) out.0.pending_skip

  abbrev pub Ended : ChunkReader → ChunkReader × Result Bytes → Type 0
  Ended r out = (out.1 ≡ err eof) × (remaining r ≡ [])

  serve_lem :
      (n : ℕ) (r : ChunkReader)
      → 0 < n
      → r.buf_pos < length r.buf
      → Skips (drop r.idx r.locations) r.pending_skip
      → Served n r (serve n r)
  serve_lem n r room h fits =
      let rest = drop r.buf_pos r.buf in
      let after = drop r.pending_skip (content (drop r.idx r.locations)) in
      let joined : rest ++ after
          ≡ take n rest ++ (drop (r.buf_pos + length (take n rest)) r.buf ++ after) =
        ap (λ (b : Bytes). b ++ after)
          (sym (take_taken n rest)
            ∙ ap (λ (b : Bytes). take n rest ++ b)
                (drop-drop (length (take n rest)) r.buf_pos r.buf))
        ∙ append_assoc (take n rest) (drop (r.buf_pos + length (take n rest)) r.buf) after in
      (
        take n rest,
        refl,
        omega (arith, length-take n rest, length-drop r.buf_pos r.buf),
        omega (arith, length-take n rest),
        joined,
        refl,
        refl,
        fits,
      )

  Skips-zero : (cs : List ChunkEntry) → Skips cs 0
  Skips-zero [] = refl
  Skips-zero (c ∷ cs) = omega arith

  ended :
      (r : ChunkReader)
      → drop r.idx r.locations ≡ []
      → Skips (drop r.idx r.locations) r.pending_skip
      → length r.buf ≤ r.buf_pos
      → remaining r ≡ []
  unfolding flatten
  ended r last fits empty =
      rw (last, drop_all r.buf_pos r.buf empty) (drop_all r.pending_skip [] (omega arith))

  -- The chunk that a round loads is the first part of what remains.
  load_round :
      (r : ChunkReader) (c : ChunkEntry) (cs : List ChunkEntry)
      → length r.buf ≤ r.buf_pos
      → drop r.idx r.locations ≡ c ∷ cs
      → length (payload c) ≡ c.len
      → r.pending_skip ≤ c.len
      → (remaining (loaded r (payload c)) ≡ remaining r)
        × Skips (drop (suc r.idx) r.locations) (loaded r (payload c)).pending_skip
  unfolding flatten
  load_round r c cs empty next size fits =
      let later = drop_next r.idx r.locations c cs next in
      let all : min r.pending_skip (length (payload c)) ≡ r.pending_skip = omega arith in
      let gone : r.pending_skip - min r.pending_skip (length (payload c)) ≡ 0 = omega arith in
      (
        rw (gone, all, later, next, drop_all r.buf_pos r.buf empty)
            (sym (drop-append_left r.pending_skip (payload c) (content cs) (omega arith))),
        rw gone (Skips-zero (drop (suc r.idx) r.locations)),
      )

  module _ (fuel n : ℕ) (r : ChunkReader) where
    step_serve : ltb r.buf_pos (length r.buf) ≡ true → read_loop load (suc fuel) n r ≡ serve n r
    unfolding read_loop
    step_serve more = rw more refl

    step_end :
        ltb r.buf_pos (length r.buf) ≡ false
        → drop r.idx r.locations ≡ []
        → read_loop load (suc fuel) n r ≡ (r, err eof)
    unfolding read_loop
    step_end empty last = rw (empty, last) refl

    step_load :
        (c : ChunkEntry) (cs : List ChunkEntry)
        → ltb r.buf_pos (length r.buf) ≡ false
        → drop r.idx r.locations ≡ c ∷ cs
        → load c ≡ ok (payload c)
        → read_loop load (suc fuel) n r ≡ read_loop load fuel n (loaded r (payload c))
    unfolding read_loop
    step_load c cs empty next got = rw (empty, next, got) refl

  abbrev pub Answer : ℕ → ChunkReader → ChunkReader × Result Bytes → Type 0
  Answer n r out = Served n r out ⊎ Ended r out

  list_cases :
      (cs : List ChunkEntry)
      → (cs ≡ []) ⊎ ((c : ChunkEntry) × (rest : List ChunkEntry) × (cs ≡ c ∷ rest))
  list_cases [] = inl refl
  list_cases (c ∷ cs) = inr (c, cs, refl)

  carry :
      (n : ℕ) (r r' : ChunkReader) (out : ChunkReader × Result Bytes)
      → remaining r' ≡ remaining r
      → r'.abs_pos ≡ r.abs_pos
      → r'.locations ≡ r.locations
      → Answer n r' out
      → Answer n r out
  carry n r r' out e p l (inl (got, a, b, c, d, f, g, h)) =
      inl (got, a, b, c, sym e ∙ d, f ∙ ap (λ (k : ℕ). k + length got) p, g ∙ l, h)
  carry n r r' out e p l (inr (a, b)) = inr (a, sym e ∙ b)

  pub read_loop_lem :
      (fuel n : ℕ) (r : ChunkReader)
      → 0 < n
      → Loads r.locations
      → Skips (drop r.idx r.locations) r.pending_skip
      → length (drop r.idx r.locations) < fuel
      → Answer n r (read_loop load fuel n r)
  read_loop_lem zero n r room v fits h = absurd (omega arith)
  read_loop_lem (suc fuel) n r room v fits h = elim (Bool-cases (ltb r.buf_pos (length r.buf))) [
    | inl more ↦
        subst (Answer n r) (sym (step_serve fuel n r more))
          (inl (serve_lem n r room (ltb→lt r.buf_pos (length r.buf) more) fits))
    | inr empty ↦ elim (list_cases (drop r.idx r.locations)) [
      | inl last ↦
          subst (Answer n r) (sym (step_end fuel n r empty last))
            (inr (refl, ended r last fits (ground arith)))
      | inr (c, cs, next) ↦
          let here = subst Loads next (tail-Loads r.idx r.locations v) in
          let (same, fits') =
            load_round r c cs (ground arith) next here.0.1
              (subst (λ (l : List ChunkEntry). Skips l r.pending_skip) next fits) in
          let shorter : length (drop (suc r.idx) r.locations) < fuel =
            rw (drop_next r.idx r.locations c cs next) (omega (arith, h, ap length next)) in
          subst (Answer n r) (sym (step_load fuel n r c cs empty next here.0.0)) (
            carry n r (loaded r (payload c)) (read_loop load fuel n (loaded r (payload c))) same
              refl refl (read_loop_lem fuel n (loaded r (payload c)) room v fits' shorter))
    ]
  ]
