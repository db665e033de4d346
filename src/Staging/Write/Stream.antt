-- ===== src/Staging/Write/Stream.antt =====
-- The copy loop of WriteChunk: what it leaves in the data file.
use mathlib.Core.List.{flatten}
use blobs.Base.{
  ℕ, zero, suc, ◌+◌, ◌-◌, ◌<◌, ◌≡◌, refl, sym, ap, ◌∙◌, ◌&&◌, ◌==◌, ltb, leb, if◌then◌else◌, List,
  [], ◌∷◌, ◌++◌, length, drop, arith, append-nil, length-append, length-drop, drop-drop, Bool-cases,
  inl, inr,
}
use blobs.Base.Bytes.{Bytes, write_at}
use blobs.Staging.Write.{write_reads}

-- The byte of a file at an offset, and zero behind its end.
unfoldable pub byte_at : ℕ → Bytes → ℕ
byte_at x [] = 0
byte_at zero (b ∷ f) = b
byte_at (suc x) (b ∷ f) = byte_at x f

pub byte_at-drop : (x n : ℕ) (f : Bytes) → byte_at x (drop n f) ≡ byte_at (n + x) f
unfolding byte_at
byte_at-drop x zero f = ap (λ (i : ℕ). byte_at i f) (omega arith)
byte_at-drop x (suc n) [] = refl
byte_at-drop x (suc n) (b ∷ f) =
    let next : suc (n + x) ≡ suc n + x = omega arith in
    byte_at-drop x n f ∙ ap (λ (i : ℕ). byte_at i (b ∷ f)) next

byte_at-append :
    (x : ℕ) (d f : Bytes)
    → byte_at x (d ++ f) ≡ (if ltb x (length d) then byte_at x d else byte_at (x - length d) f)
unfolding byte_at
byte_at-append x [] f = ground arith
byte_at-append zero (b ∷ d) f = ground arith
byte_at-append (suc x) (b ∷ d) f = ground (arith, byte_at-append x d f)

-- A write changes the bytes from its offset on, as many as it has.
pub byte_at-write_at :
    (x off : ℕ) (d f : Bytes)
    → byte_at x (write_at off d f)
      ≡ (if leb off x && ltb x (off + length d) then byte_at (x - off) d else byte_at x f)
unfolding byte_at write_at
byte_at-write_at x zero d f = elim (Bool-cases (ltb x (length d))) [
  | inl low ↦ ground (arith, low, byte_at-append x d (drop (length d) f))
  | inr high ↦
      let back : length d + (x - length d) ≡ x = ground (arith, high) in
      ground (
        arith,
        high,
        byte_at-append x d (drop (length d) f),
        byte_at-drop (x - length d) (length d) f,
        ap (λ (i : ℕ). byte_at i f) back,
      )
]
byte_at-write_at zero (suc off) d [] = ground arith
byte_at-write_at zero (suc off) d (b ∷ f) = ground arith
byte_at-write_at (suc x) (suc off) d [] = ground (arith, byte_at-write_at x off d [])
byte_at-write_at (suc x) (suc off) d (b ∷ f) = ground (arith, byte_at-write_at x off d f)

pub length-write_at :
    (off : ℕ) (d f : Bytes)
    → length (write_at off d f)
      ≡ (if leb (off + length d) (length f) then length f else off + length d)
unfolding write_at
length-write_at zero d f =
    ground (arith, length-append d (drop (length d) f), length-drop (length d) f)
length-write_at (suc off) d [] = ground (arith, length-write_at off d [])
length-write_at (suc off) d (b ∷ f) = ground (arith, length-write_at off d f)

write_at_over : (d e g : Bytes) → write_at (length d) e (d ++ g) ≡ d ++ e ++ drop (length e) g
unfolding write_at
write_at_over [] e g = refl
write_at_over (b ∷ d) e g = ap (◌∷◌ b) (write_at_over d e g)

-- A write right behind another is one write of both.
write_at-write_at :
    (off : ℕ) (d e f : Bytes)
    → write_at (off + length d) e (write_at off d f) ≡ write_at off (d ++ e) f
unfolding write_at
write_at-write_at zero d e f =
    let at : zero + length d ≡ length d = omega arith in
    rw at (
      write_at_over d e (drop (length d) f)
      ∙ ap (λ (g : Bytes). d ++ e ++ g)
          (drop-drop (length e) (length d) f ∙ ap (λ (i : ℕ). drop i f) (sym (length-append d e))))
write_at-write_at (suc off) d e [] =
    let at : suc off + length d ≡ suc (off + length d) = omega arith in
    rw at (ap (◌∷◌ 0) (write_at-write_at off d e []))
write_at-write_at (suc off) d e (b ∷ f) =
    let at : suc off + length d ≡ suc (off + length d) = omega arith in
    rw at (ap (◌∷◌ b) (write_at-write_at off d e f))

-- One write of the whole stream, if it has a byte.
abbrev pub written : ℕ → Bytes → Bytes → Bytes
written off [] f = f
written off (b ∷ d) f = write_at off (b ∷ d) f

pub written_if :
    (off : ℕ) (d f : Bytes) → (if length d == 0 then f else write_at off d f) ≡ written off d f
written_if off [] f = ground arith
written_if off (b ∷ d) f = ground arith

written-append :
    (off : ℕ) (d e f : Bytes)
    → written (off + length d) e (written off d f) ≡ written off (d ++ e) f
written-append off [] e f = ap (λ (i : ℕ). written i e f) (omega arith)
written-append off (b ∷ d) [] f = ap (λ (g : Bytes). write_at off g f) (sym (append-nil (b ∷ d)))
written-append off (b ∷ d) (c ∷ e) f = write_at-write_at off (b ∷ d) (c ∷ e) f

write_reads_from :
    (off n : ℕ) (reads : List Bytes) (f g : Bytes)
    → g ≡ written (off + n) (flatten reads) f
    → ((write_reads off n reads f).0 ≡ g)
      × ((write_reads off n reads f).1 ≡ n + length (flatten reads))
unfolding write_reads flatten
write_reads_from off n [] f g h = (sym h, omega arith)
write_reads_from off n (p ∷ ps) f g h =
    let at : off + (n + length p) ≡ off + n + length p = omega arith in
    let rest : g ≡ written (off + (n + length p)) (flatten ps) (written (off + n) p f) =
      rw at (h ∙ sym (written-append (off + n) p (flatten ps) f)) in
    let next = write_reads_from off (n + length p) ps (written (off + n) p f) g rest in
    rw (written_if (off + n) p f, write_reads)
      (next.0, next.1 ∙ omega (arith, length-append p (flatten ps)))

-- The loop that copies a reader into the data file piece by piece leaves what one write of the
-- whole chunk at its offset would leave, however the reader splits the chunk, and it counts the
-- bytes of the chunk; an empty chunk leaves the file alone.
pub write_reads_lem :
    (off : ℕ) (reads : List Bytes) (f : Bytes)
    → ((write_reads off 0 reads f).0
        ≡ (if length (flatten reads) == 0 then f else write_at off (flatten reads) f))
      × ((write_reads off 0 reads f).1 ≡ length (flatten reads))
write_reads_lem off reads f =
    let at : off ≡ off + 0 = omega arith in
    let all =
      write_reads_from off 0 reads f (written off (flatten reads) f)
        (ap (λ (i : ℕ). written i (flatten reads) f) at) in
    rw (written_if off (flatten reads) f) (all.0, all.1 ∙ omega arith)

-- Files of one length with the same bytes.
pub eq_of_bytes :
    (f g : Bytes)
    → length f ≡ length g
    → ((x : ℕ) → x < length f → byte_at x f ≡ byte_at x g)
    → f ≡ g
unfolding byte_at
eq_of_bytes [] [] e h = refl
eq_of_bytes [] (c ∷ g) e h = absurd (omega arith)
eq_of_bytes (b ∷ f) [] e h = absurd (omega arith)
eq_of_bytes (b ∷ f) (c ∷ g) e h =
    rw (h 0 (omega arith))
      (ap (◌∷◌ c) (eq_of_bytes f g (omega arith) λ x lt. h (suc x) (omega arith)))
