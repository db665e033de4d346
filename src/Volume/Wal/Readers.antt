-- ===== src/Volume/Wal/Readers.antt =====
-- The decoders of wal.log as readers: none looks behind what it takes, and an entry takes bytes.
use mathlib.Core.Path.{subst, fun_ext}
use blobs.Base.{
  ℕ, zero, suc, ◌+◌, ◌<◌, ◌≤◌, ◌≡◌, inl, inr, refl, sym, Bool, true, false, [], ◌∷◌, ◌++◌, Option,
  none, some, length, arith, length-append, take-append_left, drop-append_left, length-drop,
  Option-cases, ◌==◌, if◌then◌else◌,
}
use blobs.Base.Bytes.{Bytes, uint}
use blobs.Volume.Wal.{
  WalEntry, wal_magic, read_bytes, read_uint, ◌>>=◌, decode_wal_chunk, decode_wal_chunks,
  decode_wal_entry,
}

bind_inv {ℓ κ} :
    {A : Type ℓ} {B : Type κ} (m : Option A) (f : A → Option B) {b : B}
    → (m >>= f) ≡ some b
    → (a : A) × (m ≡ some a) × (f a ≡ some b)
bind_inv none f h = cc
bind_inv (some a) f h = (a, refl, h)

-- A reader that looks at no byte behind what it takes, and leaves no more than it was given.
pub record IsReader {A : Type 0} (r : Bytes → Option (A × Bytes)) : Type 0 where
  pub extends :
      (buf more : Bytes) (a : A) (rest : Bytes)
      → r buf ≡ some (a, rest)
      → r (buf ++ more) ≡ some (a, rest ++ more)
  pub shrinks :
      (buf : Bytes) (a : A) (rest : Bytes) → r buf ≡ some (a, rest) → length rest ≤ length buf

-- Readers in sequence, as the decoders chain them.
then-IsReader :
    {A B : Type 0} (r : Bytes → Option (A × Bytes)) (f : A → Bytes → Option (B × Bytes))
    → IsReader r
    → ((a : A) → IsReader (f a))
    → IsReader (λ buf. r buf >>= λ p. f p.0 p.1)
then-IsReader r f hr hf = record {
  extends = λ buf more b rest h.
      let ((a, mid), first, second) = bind_inv (r buf) (λ p. f p.0 p.1) h in
      rw (hr.extends buf more a mid first) ((hf a).extends mid more b rest second);
  shrinks = λ buf b rest h.
      let ((a, mid), first, second) = bind_inv (r buf) (λ p. f p.0 p.1) h in
      omega (arith, hr.shrinks buf a mid first, (hf a).shrinks mid b rest second);
}

pure-IsReader : {A : Type 0} (a : A) → IsReader (λ buf. some (a, buf))
pure-IsReader a = record {
  extends = λ buf more b rest h. ground (arith, h);
  shrinks = λ buf b rest h. ground (arith, h);
}

read_bytes-IsReader : (n : ℕ) → IsReader (read_bytes n)
unfolding read_bytes
read_bytes-IsReader n = record {
  extends = λ buf more a rest h.
      ground (
        arith,
        h,
        length-append buf more,
        take-append_left n buf more,
        drop-append_left n buf more,
      );
  shrinks = λ buf a rest h. ground (arith, h, length-drop n buf);
}

read_uint-eq-bind :
    (n : ℕ) (buf : Bytes) → read_uint n buf ≡ (read_bytes n buf >>= λ p. some (uint p.0, p.1))
unfolding read_uint
read_uint-eq-bind n buf = elim (Option-cases (read_bytes n buf)) [
  | inl e ↦ rw (e, read_uint)
  | inr (p, e) ↦ rw (e, read_uint)
]

read_uint-IsReader : (n : ℕ) → IsReader (read_uint n)
read_uint-IsReader n = subst IsReader (sym (fun_ext (read_uint-eq-bind n))) (
    then-IsReader (read_bytes n) (λ b buf. some (uint b, buf)) (read_bytes-IsReader n)
      (λ b. pure-IsReader (uint b)))

module _ (ns_id blob_id : Bytes) (capacity : ℕ) where
  decode_wal_chunk-IsReader :
      (seq_no : ℕ) → IsReader (decode_wal_chunk ns_id blob_id capacity seq_no)
  unfolding decode_wal_chunk
  decode_wal_chunk-IsReader seq_no = then-IsReader (read_uint 2) _ (read_uint-IsReader 2) λ n.
      then-IsReader (read_bytes n) _ (read_bytes-IsReader n) λ id.
        then-IsReader (read_uint 8) _ (read_uint-IsReader 8) λ seg.
          then-IsReader (read_uint 8) _ (read_uint-IsReader 8)
            λ off. then-IsReader (read_uint 8) _ (read_uint-IsReader 8) λ len. pure-IsReader _

  decode_wal_chunks-IsReader :
      (left seq_no : ℕ) → IsReader (decode_wal_chunks ns_id blob_id capacity left seq_no)
  unfolding decode_wal_chunks
  decode_wal_chunks-IsReader zero seq_no = pure-IsReader []
  decode_wal_chunks-IsReader (suc left) seq_no =
      then-IsReader (decode_wal_chunk ns_id blob_id capacity seq_no) _
        (decode_wal_chunk-IsReader seq_no)
        λ c.
          then-IsReader (decode_wal_chunks ns_id blob_id capacity left (seq_no + 1)) _
            (decode_wal_chunks-IsReader left (seq_no + 1)) λ cs. pure-IsReader (c ∷ cs)

-- What follows the magic number, if that was right.
entry_body : Bool → Bytes → ℕ → Bytes → Option (WalEntry × Bytes)
entry_body good ns_id capacity buf₁ = do
  _ ← if good then some (tt {0}) else none
  (id_len, buf₂) ← read_uint 2 buf₁
  (blob_id, buf₃) ← read_bytes id_len buf₂
  (count, buf₄) ← read_uint 4 buf₃
  (chunks, rest) ← decode_wal_chunks ns_id blob_id capacity count 0 buf₄
  some (record { blob_id = blob_id; chunks = chunks }, rest)

entry_body-IsReader :
    (good : Bool) (ns_id : Bytes) (capacity : ℕ) → IsReader (entry_body good ns_id capacity)
unfolding entry_body
entry_body-IsReader true ns_id capacity = then-IsReader (read_uint 2) _ (read_uint-IsReader 2) λ n.
    then-IsReader (read_bytes n) _ (read_bytes-IsReader n) λ id.
      then-IsReader (read_uint 4) _ (read_uint-IsReader 4) λ count.
        then-IsReader (decode_wal_chunks ns_id id capacity count 0) _
          (decode_wal_chunks-IsReader ns_id id capacity count 0) λ cs. pure-IsReader _
entry_body-IsReader false ns_id capacity = record {
  extends = λ buf more a rest h. cc;
  shrinks = λ buf a rest h. absurd (cc);
}

pub decode_wal_entry-IsReader :
    (ns_id : Bytes) (capacity : ℕ) → IsReader (λ buf. decode_wal_entry buf ns_id capacity)
unfolding decode_wal_entry entry_body
decode_wal_entry-IsReader ns_id capacity =
    then-IsReader (read_uint 4) (λ m. entry_body (m == wal_magic) ns_id capacity)
      (read_uint-IsReader 4) (λ m. entry_body-IsReader (m == wal_magic) ns_id capacity)

read_uint_takes :
    (n : ℕ) (buf : Bytes) (v : ℕ) (rest : Bytes)
    → read_uint n buf ≡ some (v, rest)
    → length rest + n ≡ length buf
unfolding read_uint read_bytes
read_uint_takes n buf v rest h = ground (arith, length-drop n buf)

-- An entry takes the four bytes of its magic number at least.
pub decode_wal_entry_takes :
    (buf ns_id rest : Bytes) (capacity : ℕ) (entry : WalEntry)
    → decode_wal_entry buf ns_id capacity ≡ some (entry, rest)
    → length rest < length buf
unfolding decode_wal_entry entry_body
decode_wal_entry_takes buf ns_id rest capacity entry h =
    let ((m, mid), first, second) =
      bind_inv (read_uint 4 buf) (λ p. entry_body (p.0 == wal_magic) ns_id capacity p.1) h in
    omega (
      arith,
      read_uint_takes 4 buf m mid first,
      (entry_body-IsReader (m == wal_magic) ns_id capacity).shrinks mid entry rest second,
    )
