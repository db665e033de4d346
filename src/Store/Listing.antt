-- ===== src/Store/Listing.antt =====
-- NamespaceHandle.List (store.go), behind the references that the index lists in key order.
use blobs.Base.{
  ℕ, zero, suc, ◌+◌, ◌<◌, ◌≡◌, ◌≢◌, sym, ap, ◌∙◌, inl, inr, Bool, true, false, ◌&&◌, ◌==◌, ltb, leb,
  if◌then◌else◌, List, [], ◌∷◌, ◌++◌, map, length, take, All, arith, append-nil, append_assoc,
  length-append, Bool-cases, bytes_eq, bytes_eq_iff, bytes_eq_refl, lt→ltb,
}
use blobs.Base.Bytes.{Bytes}
use blobs.Object.{RefEntry, BlobInfo}

abbrev pub info : RefEntry → BlobInfo
info r = record { key = r.key; namespace_id = r.namespace_id; metadata = r.metadata }

-- ListOptions behind the prefix. A limit below 1 is no limit; it is 0 here.
unfoldable pub list_loop : Bool → Bytes → ℕ → List RefEntry → List BlobInfo → List BlobInfo
list_loop past_after after limit [] out = out
list_loop false after limit (r ∷ refs) out = list_loop (bytes_eq r.key after) after limit refs out
list_loop true after limit (r ∷ refs) out =
    let out' = out ++ (info r ∷ []) in
    let more = list_loop true after limit refs out' in
    if ltb 0 limit && leb limit (length out') then out' else more

unfoldable pub list : Bytes → ℕ → List RefEntry → List BlobInfo
list after limit refs = list_loop (length after == 0) after limit refs []

-- The first entries of a listing, up to the limit.
abbrev pub page : ℕ → List BlobInfo → List BlobInfo
page zero all = all
page (suc limit) all = take (suc limit) all

loop_rest :
    (after : Bytes) (refs : List RefEntry) (out : List BlobInfo)
    → list_loop true after 0 refs out ≡ out ++ map info refs
unfolding list_loop
loop_rest after [] out = sym (append-nil out)
loop_rest after (r ∷ refs) out =
    loop_rest after refs (out ++ (info r ∷ [])) ∙ append_assoc out (info r ∷ []) (map info refs)

loop_limit :
    (after : Bytes) (limit : ℕ) (refs : List RefEntry) (out : List BlobInfo)
    → 0 < limit
    → list_loop true after (length out + limit) refs out ≡ out ++ take limit (map info refs)
unfolding list_loop
loop_limit after zero refs out h = absurd (omega arith)
loop_limit after (suc limit) [] out h = sym (append-nil out)
loop_limit after (suc limit) (r ∷ refs) out h =
    let out' = out ++ (info r ∷ []) in
    let long : length out' ≡ length out + 1 = length-append out (info r ∷ []) in
    let total : length out + suc limit ≡ length out' + limit = omega (arith, long) in
    let some_limit : ltb 0 (length out + suc limit) ≡ true = lt→ltb _ _ (omega arith) in
    elim (Bool-cases (leb (length out + suc limit) (length out'))) [
      | inl full ↦
          let none_left : limit ≡ 0 = ground (arith, full, long) in rw (some_limit, full, none_left)
      | inr more ↦
          rw (some_limit, more)
            (ap (λ (k : ℕ). list_loop true after k refs out') total
              ∙ loop_limit after limit refs out' (ground (arith, more, long))
              ∙ append_assoc out (info r ∷ []) (take limit (map info refs)))
    ]

skip_to :
    (after : Bytes) (limit : ℕ) (pre post : List RefEntry) (r : RefEntry) (out : List BlobInfo)
    → All (λ (q : RefEntry). q.key ≢ after) pre
    → r.key ≡ after
    → list_loop false after limit (pre ++ (r ∷ post)) out ≡ list_loop true after limit post out
unfolding list_loop
skip_to after limit [] post r out h e = rw (e, bytes_eq_refl after, list_loop)
skip_to after limit (q ∷ pre) post r out h e =
    let other : bytes_eq q.key after ≡ false = ground (arith, bytes_eq_iff q.key after, h.0) in
    rw (other, list_loop) (skip_to after limit pre post r out h.1 e)

past_end :
    (after : Bytes) (limit : ℕ) (refs : List RefEntry)
    → list_loop true after limit refs [] ≡ page limit (map info refs)
past_end after zero refs = loop_rest after refs []
past_end after (suc limit) refs =
    ap (λ (k : ℕ). list_loop true after k refs []) (omega arith)
    ∙ loop_limit after (suc limit) refs [] (omega arith)

-- List after a key that is among the references, and not before its own place there, gives the
-- entries behind that key, in their order and up to the limit.
pub list-after :
    (after : Bytes) (limit : ℕ) (pre post : List RefEntry) (r : RefEntry)
    → 0 < length after
    → All (λ (q : RefEntry). q.key ≢ after) pre
    → r.key ≡ after
    → list after limit (pre ++ (r ∷ post)) ≡ page limit (map info post)
unfolding list
list-after after limit pre post r given h e =
    let some_key : (length after == 0) ≡ false = ground arith in
    rw some_key (skip_to after limit pre post r [] h e ∙ past_end after limit post)
