-- ===== src/Volume/Files.antt =====
-- The directory of a namespace, as volume.go uses it: segment files and WAL files by sequence
-- number. os.ReadDir lists names in order, and sixteen hexadecimal digits order as numbers do.
-- Entries with other names are skipped by the code, and are left out here.
use blobs.Base.{
  ℕ, ◌≡◌, refl, ◌==◌, ltb, if◌then◌else◌, List, [], ◌∷◌, Option, none, some, map, arith,
}
use blobs.Base.Bytes.{Bytes}

abbrev pub Files : Type 0
Files = List (ℕ × Bytes)

unfoldable pub read_file : ℕ → Files → Option Bytes
read_file seq [] = none
read_file seq ((s, b) ∷ r) = if s == seq then some b else read_file seq r

unfoldable pub write_file : ℕ → Bytes → Files → Files
write_file seq b [] = (seq, b) ∷ []
write_file seq b ((s, c) ∷ r) =
    let later = (s, c) ∷ write_file seq b r in
    if s == seq then (seq, b) ∷ r else (if ltb seq s then (seq, b) ∷ (s, c) ∷ r else later)

unfoldable pub remove_file : ℕ → Files → Files
remove_file seq [] = []
remove_file seq ((s, b) ∷ r) =
    let later = (s, b) ∷ remove_file seq r in if s == seq then r else later

unfoldable pub names : Files → List ℕ
names = map λ f. f.0

pub read_file-write_file :
    (s t : ℕ) (b : Bytes) (f : Files)
    → read_file t (write_file s b f) ≡ (if s == t then some b else read_file t f)
unfolding read_file write_file
read_file-write_file s t b [] = refl
read_file-write_file s t b ((u, c) ∷ r) = ground (arith, read_file-write_file s t b r)

pub read_file-write_file_self :
    (s : ℕ) (b : Bytes) (f : Files) → read_file s (write_file s b f) ≡ some b
read_file-write_file_self s b f = ground (arith, read_file-write_file s s b f)
