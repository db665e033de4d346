-- ===== src/Staging/Ranges/Queries.antt =====
-- What the questions to a range set answer: IsComplete, Contains and TotalBytes.
use blobs.Base.{
  ℕ, zero, suc, ◌+◌, ◌-◌, ◌≤◌, ◌<◌, ◌≡◌, ◌↔◌, refl, sym, true, false, ltb, leb, if◌then◌else◌, [],
  ◌∷◌, arith, Bool-cases, inl, inr, min,
}
use blobs.Staging.Ranges.{ByteRange, RangeSet, total_bytes, is_complete, contains}
use blobs.Staging.Ranges.Merge.{covered, Above, IsRangeSet}

-- Nothing at or below the gap is covered.
covered-below : (b x : ℕ) (rs : RangeSet) → Above b rs → x ≤ b → covered x rs ≡ false
unfolding covered
covered-below b x [] v h = refl
covered-below b x (r ∷ rs) v h =
    ground (arith, v.0, v.1, covered-below r.stop x rs v.2 (omega (arith, v.0, v.1)))

-- IsComplete of a range set says that exactly the bytes below the expected size are covered.
pub is_complete_iff :
    (expected_size : ℕ) (rs : RangeSet)
    → IsRangeSet rs
    → (is_complete expected_size rs ≡ true) ↔ ((x : ℕ) → covered x rs ≡ ltb x expected_size)
unfolding is_complete covered
is_complete_iff n [] v = (λ h x. ground arith, λ h. ground (arith, h 0))
is_complete_iff n (r ∷ []) v =
    (λ h x. ground arith, λ h. ground (arith, v.0, h 0, h r.start, h r.stop, h n, h (r.stop - 1)))
is_complete_iff n (r ∷ q ∷ rs) v = (
  λ h. absurd (cc),
  λ h. absurd (
      ground (
        arith,
        v.0,
        v.1,
        h r.stop,
        h q.start,
        covered-below q.stop r.stop rs v.1.2 (omega (arith, v.1)),
      )),
)

contains-covered :
    (start stop x : ℕ) (rs : RangeSet)
    → contains start stop rs ≡ true
    → start ≤ x
    → x < stop
    → covered x rs ≡ true
unfolding contains covered
contains-covered start stop x [] h low high = cc
contains-covered start stop x (r ∷ rs) h low high = ground (arith, contains-covered start stop x rs)

Above-IsRangeSet : (b : ℕ) (rs : RangeSet) → Above b rs → IsRangeSet rs
Above-IsRangeSet b [] v = tt
Above-IsRangeSet b (r ∷ rs) v = (v.1, v.2)

covered-contains :
    (start stop : ℕ) (rs : RangeSet)
    → start < stop
    → IsRangeSet rs
    → ((x : ℕ) → start ≤ x → x < stop → covered x rs ≡ true)
    → contains start stop rs ≡ true
unfolding contains covered
covered-contains start stop [] full v h =
    absurd (ground (arith, h start (omega arith) (omega arith)))
covered-contains start stop (r ∷ rs) full v h = elim (Bool-cases (leb r.stop start)) [
  | inl behind ↦ ground (
    arith,
    covered-contains start stop rs full (Above-IsRangeSet r.stop rs v.1)
        (λ x low high. ground (arith, behind, h x low high)),
  )
  | inr before ↦ elim (Bool-cases (leb stop r.stop)) [
    | inl fits ↦ ground (
      arith,
      before,
      fits,
      v.0,
      h start (omega arith) (omega arith),
      λ (low : start < r.start). covered-below r.stop start rs v.1 (omega (arith, v.0)),
    )
    | inr over ↦ absurd (
        ground (
          arith,
          before,
          over,
          v.0,
          h r.stop (ground arith) (ground arith),
          covered-below r.stop r.stop rs v.1 (omega arith),
        ))
  ]
]

-- Contains of a range set says that every byte of the interval is covered.
pub contains_iff :
    (start stop : ℕ) (rs : RangeSet)
    → start < stop
    → IsRangeSet rs
    → (contains start stop rs ≡ true) ↔ ((x : ℕ) → start ≤ x → x < stop → covered x rs ≡ true)
contains_iff start stop rs h v = (
  λ e x low high. contains-covered start stop x rs e low high,
  covered-contains start stop rs h v,
)

-- How many of the bytes below `n` are covered.
abbrev pub count_covered : ℕ → RangeSet → ℕ
count_covered zero rs = 0
count_covered (suc n) rs = (if covered n rs then 1 else 0) + count_covered n rs

count_none : (n : ℕ) → count_covered n [] ≡ 0
unfolding covered
count_none zero = refl
count_none (suc n) = omega (arith, count_none n)

count_first :
    (n : ℕ) (r : ByteRange) (rs : RangeSet)
    → IsRangeSet (r ∷ rs)
    → count_covered n (r ∷ rs) ≡ (min n r.stop - min n r.start) + count_covered n rs
unfolding covered
count_first zero r rs v = omega arith
count_first (suc n) r rs v = elim (Bool-cases (leb n r.stop)) [
  | inl low ↦
      ground (arith, low, v.0, count_first n r rs v, covered-below r.stop n rs v.1 (ground arith))
  | inr high ↦ ground (arith, high, v.0, count_first n r rs v)
]

-- Every range ends at `n` or before it.
abbrev pub EndBy : ℕ → RangeSet → Type 0
EndBy n [] = Unit {0}
EndBy n (r ∷ rs) = (r.stop ≤ n) × EndBy n rs

-- TotalBytes of a range set is the number of bytes that it covers.
pub total_bytes_lem :
    (n : ℕ) (rs : RangeSet) → IsRangeSet rs → EndBy n rs → total_bytes rs ≡ count_covered n rs
unfolding total_bytes
total_bytes_lem n [] v e = sym (count_none n)
total_bytes_lem n (r ∷ rs) v e = omega (
  arith,
  v.0,
  count_first n r rs v,
  e.0,
  total_bytes_lem n rs (Above-IsRangeSet r.stop rs v.1) e.1,
)
