-- ===== src/Volume/Open/Fresh.antt =====
-- A new segment of an opened engine is new.
use blobs.Base.{
  ℕ, ◌+◌, ◌-◌, ◌%◌, ◌^◌, ◌<◌, ◌≤◌, ◌≡◌, refl, ap, ◌∙◌, subst, inl, inr, ltb, [], ◌∷◌, Option, none,
  length, if◌then◌else◌, arith, Bool-cases, Option-cases,
}
use blobs.Base.Bytes.{Bytes}
use blobs.Errors.{ok, err, Result-cases, ok_inj}
use blobs.Encryption.{Cipher}
use blobs.Volume.Engine.{Engine}
use blobs.Volume.Files.{Files, read_file}
use blobs.Volume.Header.{seg_header_size}
use blobs.Volume.Open.{
  Directory, highest_from, highest_seg_seq, fresh_engine, use_segment, open_last, open_volume,
}
use blobs.Volume.Options.{Options, validate, with_defaults}
use blobs.Volume.Segment.{SegFile}
use blobs.Volume.Write.{Outcome, open_seg_file}

highest_from-le : (max : ℕ) (files : Files) → max ≤ highest_from max files
unfolding highest_from
highest_from-le max [] = omega arith
highest_from-le max ((seq, b) ∷ r) =
    ground (arith, highest_from-le (if ltb max seq then seq else max) r)

read_file-above :
    (seq max : ℕ) (files : Files) → highest_from max files < seq → read_file seq files ≡ none
unfolding highest_from read_file
read_file-above seq max [] h = refl
read_file-above seq max ((s, b) ∷ r) h = ground (
  arith,
  highest_from-le (if ltb max s then s else max) r,
  read_file-above seq (if ltb max s then s else max) r,
)

-- The engine has the segments of the directory and none with the number of its next one.
abbrev pub IsFresh : Directory → Engine → Type 0
IsFresh dir e = (e.files ≡ dir.files) × (read_file e.next_seq e.files ≡ none) × (0 < e.next_seq)

open_seg_file-files : (e : Engine) (seq : ℕ) → (open_seg_file e seq).0.files ≡ e.files
unfolding open_seg_file
open_seg_file-files e seq = elim (Option-cases (read_file seq e.files)) [
  | inl gone ↦ rw (gone, open_seg_file) refl
  | inr (b, there) ↦ elim (Bool-cases (ltb (length b) seg_header_size)) [
    | inl short ↦ rw (there, open_seg_file, short) refl
    | inr whole ↦ rw (there, open_seg_file, whole) refl
  ]
]

use_segment-IsFresh :
    (seq : ℕ) (dir : Directory) (out : Outcome SegFile) (e : Engine)
    → out.0.files ≡ dir.files
    → seq < 2 ^ 64 - 1
    → read_file (seq + 1) dir.files ≡ none
    → use_segment seq out ≡ ok e
    → IsFresh dir e
unfolding use_segment
use_segment-IsFresh seq dir (e', err x) e same bound above h = absurd (cc)
use_segment-IsFresh seq dir (e', ok sf) e same bound above h =
    let next : (seq + 1) % 2 ^ 64 ≡ seq + 1 = omega arith in
    subst (IsFresh dir) (ok_inj h) (
      same,
      ap (λ (n : ℕ). read_file n e'.files) next ∙ ap (read_file (seq + 1)) same ∙ above,
      omega arith,
    )

open_last-IsFresh :
    (ns_id : Bytes) (opts : Options) (cipher : Option Cipher) (dir : Directory) (e : Engine)
    → highest_seg_seq dir.files < 2 ^ 64 - 1
    → open_last (fresh_engine ns_id opts cipher dir) (highest_seg_seq dir.files) ≡ ok e
    → IsFresh dir e
unfolding open_last fresh_engine highest_seg_seq
open_last-IsFresh ns_id opts cipher dir e bound =
    let seq = highest_seg_seq dir.files in
    elim (Bool-cases (ltb 0 seq)) [
      | inr none_yet ↦
          rw (none_yet, open_last)
            (λ h.
              subst (IsFresh dir) (ok_inj h)
                (refl, read_file-above 1 0 dir.files (ground (arith, none_yet)), omega arith))
      | inl some_yet ↦
          rw (some_yet, open_last)
            (use_segment-IsFresh seq dir (open_seg_file (fresh_engine ns_id opts cipher dir) seq) e
              (open_seg_file-files (fresh_engine ns_id opts cipher dir) seq) bound
              (read_file-above (seq + 1) 0 dir.files (omega arith)))
    ]

-- Where Open succeeds on a directory whose highest segment number is below 2^64 - 1: the engine has
-- the directory's segments as they were, and its next segment gets a number above 0 that no
-- segment of the directory has.
pub open_volume-IsFresh :
    (ns_id : Bytes) (opts : Options) (cipher : Option Cipher) (dir : Directory) (e : Engine)
    → highest_seg_seq dir.files < 2 ^ 64 - 1
    → open_volume ns_id opts cipher dir ≡ ok e
    → IsFresh dir e
unfolding open_volume
open_volume-IsFresh ns_id opts cipher dir e bound = elim (Result-cases (validate opts)) [
  | inr (x, bad) ↦ rw (bad, open_volume) (λ h. absurd (cc))
  | inl (u, good) ↦
      rw (good, open_volume) (open_last-IsFresh ns_id (with_defaults opts) cipher dir e bound)
]
