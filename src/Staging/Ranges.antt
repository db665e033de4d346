-- ===== src/Staging/Ranges.antt =====
-- ByteRange and RangeSet (staging.go). Offsets are never negative where the manager calls these.
pub mod Merge
pub mod Queries
use blobs.Base.{
  ℕ, ◌+◌, ◌-◌, Bool, true, false, not, ◌&&◌, ◌||◌, ◌==◌, ltb, leb, if◌then◌else◌, List, [], ◌∷◌,
  ◌++◌, length,
}

-- The bytes from `start` on and below `stop`, the Go field End.
pub record ByteRange : Type 0 where
  pub start : ℕ
  pub stop : ℕ

abbrev pub RangeSet : Type 0
RangeSet = List ByteRange

-- sort.Slice by Start. Of ranges with one start it may give another order; the merge gives one
-- range for them.
unfoldable pub insert_range : ByteRange → RangeSet → RangeSet
insert_range r [] = r ∷ []
insert_range r (q ∷ rs) =
    let later = q ∷ insert_range r rs in if leb r.start q.start then r ∷ q ∷ rs else later

unfoldable pub sort_ranges : RangeSet → RangeSet
sort_ranges [] = []
sort_ranges (r ∷ rs) = insert_range r (sort_ranges rs)

-- The merge loop of Add, at the range that it extends.
unfoldable pub merge_from : ByteRange → RangeSet → RangeSet
merge_from cur [] = cur ∷ []
merge_from cur (r ∷ rs) =
    let joined =
      merge_from (record cur { stop = if ltb cur.stop r.stop then r.stop else cur.stop }) rs in
    let apart = cur ∷ merge_from r rs in if leb r.start cur.stop then joined else apart

unfoldable pub merge_ranges : RangeSet → RangeSet
merge_ranges [] = []
merge_ranges (r ∷ rs) = merge_from r rs

unfoldable pub add : RangeSet → ℕ → ℕ → RangeSet
add rs start stop =
    if leb stop start
    then rs
    else merge_ranges (sort_ranges (rs ++ (record { start = start; stop = stop } ∷ [])))

unfoldable pub total_bytes : RangeSet → ℕ
total_bytes [] = 0
total_bytes (r ∷ rs) = (r.stop - r.start) + total_bytes rs

unfoldable pub is_complete : ℕ → RangeSet → Bool
is_complete expected_size [] = expected_size == 0
is_complete expected_size (r ∷ []) =
    not (expected_size == 0) && ((r.start == 0) && (r.stop == expected_size))
is_complete expected_size (r ∷ q ∷ rs) = false

unfoldable pub contains : ℕ → ℕ → RangeSet → Bool
contains start stop [] = false
contains start stop (r ∷ rs) = (leb r.start start && leb stop r.stop) || contains start stop rs
