-- ===== src/Staging/Ranges/Merge.antt =====
-- What Add keeps of a range set, and which bytes it covers.
use blobs.Base.{
  ℕ, ◌≤◌, ◌<◌, ◌≡◌, refl, ap, ◌∙◌, Bool, false, ◌&&◌, ◌||◌, ltb, leb, if◌then◌else◌, [], ◌∷◌, ◌++◌,
  arith, Bool-cases, inl, inr,
}
use blobs.Staging.Ranges.{
  ByteRange, RangeSet, insert_range, sort_ranges, merge_from, merge_ranges, add,
}

abbrev pub within : ℕ → ByteRange → Bool
within x r = leb r.start x && ltb x r.stop

-- The byte `x` is in one of the ranges.
unfoldable pub covered : ℕ → RangeSet → Bool
covered x [] = false
covered x (r ∷ rs) = within x r || covered x rs

-- Ranges that are not empty, in order, with a gap before each.
abbrev pub Above : ℕ → RangeSet → Type 0
Above b [] = Unit {0}
Above b (r ∷ rs) = (b < r.start) × (r.start < r.stop) × Above r.stop rs

abbrev pub IsRangeSet : RangeSet → Type 0
IsRangeSet [] = Unit {0}
IsRangeSet (r ∷ rs) = (r.start < r.stop) × Above r.stop rs

-- Sorted by start, and none empty.
abbrev pub SortedFrom : ℕ → RangeSet → Type 0
SortedFrom b [] = Unit {0}
SortedFrom b (r ∷ rs) = (b ≤ r.start) × (r.start < r.stop) × SortedFrom r.start rs

SortedFrom-le : (a b : ℕ) (rs : RangeSet) → a ≤ b → SortedFrom b rs → SortedFrom a rs
SortedFrom-le a b [] h s = tt
SortedFrom-le a b (r ∷ rs) h s = (omega arith, s.1, s.2)

insert_range-SortedFrom :
    (b : ℕ) (r : ByteRange) (rs : RangeSet)
    → b ≤ r.start
    → r.start < r.stop
    → SortedFrom b rs
    → SortedFrom b (insert_range r rs)
unfolding insert_range
insert_range-SortedFrom b r [] low full s = (low, full, tt)
insert_range-SortedFrom b r (q ∷ rs) low full s = elim (Bool-cases (leb r.start q.start)) [
  | inl h ↦ rw h (low, full, (ground arith, s.1, s.2))
  | inr h ↦ rw h (s.0, s.1, insert_range-SortedFrom q.start r rs (ground arith) full s.2)
]

covered-insert_range :
    (x : ℕ) (r : ByteRange) (rs : RangeSet) → covered x (insert_range r rs) ≡ covered x (r ∷ rs)
unfolding insert_range covered
covered-insert_range x r [] = refl
covered-insert_range x r (q ∷ rs) = ground (arith, covered-insert_range x r rs)

abbrev AllFull : RangeSet → Type 0
AllFull [] = Unit {0}
AllFull (r ∷ rs) = (r.start < r.stop) × AllFull rs

sort_ranges-SortedFrom : (rs : RangeSet) → AllFull rs → SortedFrom 0 (sort_ranges rs)
unfolding sort_ranges
sort_ranges-SortedFrom [] v = tt
sort_ranges-SortedFrom (r ∷ rs) v =
    insert_range-SortedFrom 0 r (sort_ranges rs) (omega arith) v.0 (sort_ranges-SortedFrom rs v.1)

covered-sort_ranges : (x : ℕ) (rs : RangeSet) → covered x (sort_ranges rs) ≡ covered x rs
unfolding sort_ranges covered
covered-sort_ranges x [] = refl
covered-sort_ranges x (r ∷ rs) =
    covered-insert_range x r (sort_ranges rs)
    ∙ ap (λ (b : Bool). within x r || b) (covered-sort_ranges x rs)

abbrev extended : ByteRange → ByteRange → ByteRange
extended cur r = record cur { stop = if ltb cur.stop r.stop then r.stop else cur.stop }

merge_from-Above :
    (b : ℕ) (cur : ByteRange) (rs : RangeSet)
    → b < cur.start
    → cur.start < cur.stop
    → SortedFrom cur.start rs
    → Above b (merge_from cur rs)
unfolding merge_from
merge_from-Above b cur [] low full s = (low, full, tt)
merge_from-Above b cur (r ∷ rs) low full s = elim (Bool-cases (leb r.start cur.stop)) [
  | inl h ↦ rw h (
      merge_from-Above b (extended cur r) rs low (ground arith)
        (SortedFrom-le cur.start r.start rs s.0 s.2))
  | inr h ↦ rw h (low, full, merge_from-Above cur.stop r rs (ground arith) s.1 s.2)
]

merge_from-IsRangeSet :
    (cur : ByteRange) (rs : RangeSet)
    → cur.start < cur.stop
    → SortedFrom cur.start rs
    → IsRangeSet (merge_from cur rs)
unfolding merge_from
merge_from-IsRangeSet cur [] full s = (full, tt)
merge_from-IsRangeSet cur (r ∷ rs) full s = elim (Bool-cases (leb r.start cur.stop)) [
  | inl h ↦ rw h (
      merge_from-IsRangeSet (extended cur r) rs (ground arith)
        (SortedFrom-le cur.start r.start rs s.0 s.2))
  | inr h ↦ rw h (full, merge_from-Above cur.stop r rs (ground arith) s.1 s.2)
]

covered-merge_from :
    (x : ℕ) (cur : ByteRange) (rs : RangeSet)
    → cur.start < cur.stop
    → SortedFrom cur.start rs
    → covered x (merge_from cur rs) ≡ covered x (cur ∷ rs)
unfolding merge_from covered
covered-merge_from x cur [] full s = refl
covered-merge_from x cur (r ∷ rs) full s = elim (Bool-cases (leb r.start cur.stop)) [
  | inl h ↦ rw h (
      covered-merge_from x (extended cur r) rs (ground arith)
        (SortedFrom-le cur.start r.start rs s.0 s.2)
      ∙ ground (arith, h, s.0, s.1))
  | inr h ↦ rw h (ap (λ (b : Bool). within x cur || b) (covered-merge_from x r rs s.1 s.2))
]

merge_ranges_lem :
    (rs : RangeSet)
    → SortedFrom 0 rs
    → IsRangeSet (merge_ranges rs) × ((x : ℕ) → covered x (merge_ranges rs) ≡ covered x rs)
unfolding merge_ranges
merge_ranges_lem [] s = (tt, λ x. refl)
merge_ranges_lem (r ∷ rs) s =
    (merge_from-IsRangeSet r rs s.1 s.2, λ x. covered-merge_from x r rs s.1 s.2)

AllFull-append :
    (rs : RangeSet) (r : ByteRange) → AllFull rs → r.start < r.stop → AllFull (rs ++ (r ∷ []))
AllFull-append [] r v h = (h, tt)
AllFull-append (q ∷ rs) r v h = (v.0, AllFull-append rs r v.1 h)

covered-append :
    (x : ℕ) (rs : RangeSet) (r : ByteRange)
    → covered x (rs ++ (r ∷ [])) ≡ (within x r || covered x rs)
unfolding covered
covered-append x [] r = refl
covered-append x (q ∷ rs) r = ground (arith, covered-append x rs r)

Above-AllFull : (b : ℕ) (rs : RangeSet) → Above b rs → AllFull rs
Above-AllFull b [] v = tt
Above-AllFull b (r ∷ rs) v = (v.1, Above-AllFull r.stop rs v.2)

IsRangeSet-AllFull : (rs : RangeSet) → IsRangeSet rs → AllFull rs
IsRangeSet-AllFull [] v = tt
IsRangeSet-AllFull (r ∷ rs) v = (v.0, Above-AllFull r.stop rs v.1)

-- Add keeps a range set sorted, without an empty range and with a gap between any two, and then it
-- covers what it covered before and the new interval, and nothing else.
pub add_lem :
    (rs : RangeSet) (start stop : ℕ)
    → IsRangeSet rs
    → IsRangeSet (add rs start stop)
      × ((x : ℕ) → covered x (add rs start stop) ≡ ((leb start x && ltb x stop) || covered x rs))
unfolding add
add_lem rs start stop v = elim (Bool-cases (leb stop start)) [
  | inl empty ↦ rw empty (v, λ x. ground (arith, empty))
  | inr some_byte ↦
      let r : ByteRange = record { start = start; stop = stop } in
      let all = rs ++ (r ∷ []) in
      let sorted =
        sort_ranges-SortedFrom all (AllFull-append rs r (IsRangeSet-AllFull rs v) (ground arith)) in
      let (ok_set, same) = merge_ranges_lem (sort_ranges all) sorted in
      rw some_byte (ok_set, λ x. same x ∙ covered-sort_ranges x all ∙ covered-append x rs r)
]
