-- ===== src/Store/Handle/Verified.antt =====
-- What a Verify without an error says of the Gets that follow it.
use blobs.Base.{inl, inr, ◌<◌, ◌==◌, length, ◌≡◌, refl, false, List, [], ◌∷◌, All, arith}
use blobs.Base.Bytes.{Bytes}
use blobs.Errors.{Result, ok, Result-cases}
use blobs.Object.{RefEntry, ChunkEntry}
use blobs.Index.Tx.{Tx}
use blobs.Index.Json.{Json}
use blobs.Index.Records.{get_ref, get_blob, get_chunks}
use blobs.Store.Handle.{
  Store, begin_ns_op, locations_of, get_chunk_reader, verify_chunks, verify_refs, verify,
}
use blobs.Store.Quota.{validate_key}
use blobs.Store.Reader.{new_chunk_reader}

module _ {S E V : Type 0} (tx : Tx S V) (json : Json V) (load : E → ChunkEntry → Result Bytes) where
  -- The engine reads the chunk without an error.
  abbrev pub Loads : E → ChunkEntry → Type 0
  Loads eng c = (payload : Bytes) × (load eng c ≡ ok payload)

  -- The reference's blob has all its chunk records, and every chunk is read.
  abbrev pub Intact : E → S → RefEntry → Type 0
  Intact eng s r =
      (cs : List ChunkEntry) × (locations_of tx json r.blob_id s ≡ ok cs) × All (Loads eng) cs

  verify_chunks-Loads :
      (eng : E) (cs : List ChunkEntry)
      → verify_chunks tx json load eng cs ≡ ok tt
      → All (Loads eng) cs
  unfolding verify_chunks
  verify_chunks-Loads eng [] = λ h. tt
  verify_chunks-Loads eng (c ∷ cs) = elim (Result-cases (load eng c)) [
    | inr (e, bad) ↦ rw (bad, verify_chunks) (λ h. absurd (cc))
    | inl (p, good) ↦ rw (good, verify_chunks) (λ h. ((p, refl), verify_chunks-Loads eng cs h))
  ]

  verify_refs-Intact :
      (eng : E) (s : S) (rs : List RefEntry)
      → verify_refs tx json load eng s rs ≡ ok tt
      → All (Intact eng s) rs
  unfolding verify_refs locations_of
  verify_refs-Intact eng s [] = λ h. tt
  verify_refs-Intact eng s (r ∷ rs) = elim (Result-cases (get_blob tx json r.blob_id s)) [
    | inr (e, bad) ↦ rw (bad, verify_refs) (λ h. absurd (cc))
    | inl (b, found) ↦ elim (Result-cases (get_chunks tx json b.chunk_ids s)) [
      | inr (e, bad) ↦ rw (found, bad, verify_refs) (λ h. absurd (cc))
      | inl (cs, located) ↦ elim (Result-cases (verify_chunks tx json load eng cs)) [
        | inr (e, bad) ↦ rw (found, located, bad, verify_refs) (λ h. absurd (cc))
        | inl (u, good) ↦
            rw (found, located, good, verify_refs)
              (λ h. ((cs, refl, verify_chunks-Loads eng cs good), verify_refs-Intact eng s rs h))
      ]
    ]
  ]

  -- Get of the reference's key gives a reader whose every chunk the engine reads.
  abbrev pub Readable : Bytes → E → Store S E → RefEntry → Type 0
  Readable ns_id eng st r =
      (cs : List ChunkEntry) × (get_chunk_reader tx json ns_id r.key st ≡ ok (new_chunk_reader cs))
      × All (Loads eng) cs

  -- The reference is the one that the index has under its key, which is not empty.
  abbrev pub IsListed : Bytes → S → RefEntry → Type 0
  IsListed ns_id s r = (0 < length r.key) × (get_ref tx json ns_id r.key s ≡ ok r)

  Intact-Readable :
      (ns_id : Bytes) (eng : E) (st : Store S E) (r : RefEntry)
      → begin_ns_op ns_id st ≡ ok eng
      → IsListed ns_id st.index r
      → Intact eng st.index r
      → Readable ns_id eng st r
  unfolding get_chunk_reader validate_key
  Intact-Readable ns_id eng st r guard (some_byte, found) (cs, located, loads) =
      let named : (length r.key == 0) ≡ false = ground (arith, some_byte) in
      (cs, rw (named, get_chunk_reader) (rw (guard, found, located) refl), loads)

  All-Readable :
      (ns_id : Bytes) (eng : E) (st : Store S E) (rs : List RefEntry)
      → begin_ns_op ns_id st ≡ ok eng
      → All (IsListed ns_id st.index) rs
      → All (Intact eng st.index) rs
      → All (Readable ns_id eng st) rs
  All-Readable ns_id eng st [] guard listed intact = tt
  All-Readable ns_id eng st (r ∷ rs) guard listed intact = (
    Intact-Readable ns_id eng st r guard listed.0 intact.0,
    All-Readable ns_id eng st rs guard listed.1 intact.1,
  )

  -- Where Verify finds no error in a namespace whose references the index lists: Get of every key
  -- gives a reader, and the engine reads every chunk of it, in the state that was verified.
  pub verify_lem :
      (ns_id : Bytes) (eng : E) (st : Store S E) (refs : List RefEntry)
      → begin_ns_op ns_id st ≡ ok eng
      → All (IsListed ns_id st.index) refs
      → verify tx json load ns_id refs st ≡ ok tt
      → All (Readable ns_id eng st) refs
  unfolding verify
  verify_lem ns_id eng st refs guard listed =
      rw (guard, verify)
        (λ h. All-Readable ns_id eng st refs guard listed (verify_refs-Intact eng st.index refs h))
