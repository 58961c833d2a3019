-- ===== src/Bitops/Range.antt =====
-- The range that bitRange computes.
use redgeo.Base.{
  ℤ, ◌+ℤ◌, ◌-ℤ◌, ◌≤ℤ◌, ◌<ℤ◌, lez, pos, if◌then◌else◌, ℕ, ◌-◌, ◌*◌, ◌≤◌, ◌<◌, ◌≡◌, Bool, true, false,
  arith,
}
use redgeo.Bitops.{bit_range, from_end, at_least_zero, below_total}

-- The number of units of a string of `n` bytes.
abbrev pub total_units : ℕ → Bool → ℕ
total_units n in_bits = if in_bits then n * 8 else n

at_least_zero-le : (x : ℤ) → pos 0 ≤ℤ at_least_zero x
unfolding at_least_zero
at_least_zero-le x = ground arith

below_total-lt : (n : ℕ) (x : ℤ) → 0 < n → below_total (pos n) x <ℤ pos n
unfolding below_total ◌-ℤ◌
below_total-lt n x h = ground arith

-- A range that bitRange reports as not empty lies within the string, whatever the bounds given,
-- negative and out of range among them.
pub bit_range_within :
    (n : ℕ) (start end s e : ℤ) (has_start has_end in_bits : Bool)
    → bit_range n start end has_start has_end in_bits ≡ (s, e, true)
    → (pos 0 ≤ℤ s) × (s ≤ℤ e) × (e <ℤ pos (total_units n in_bits))
unfolding bit_range
bit_range_within n start end s e has_start has_end in_bits h =
    let t = total_units n in_bits in
    let s' = from_end (pos t) (if has_start then start else pos 0) in
    let e' = at_least_zero (from_end (pos t) (if has_end then end else pos t -ℤ pos 1)) in
    let some_units : 0 < t = ground arith in
    let is_s : s ≡ at_least_zero s' = ground arith in
    let is_e : e ≡ below_total (pos t) e' = ground arith in
    let ordered : lez s e ≡ true = ground arith in
    (rw is_s (at_least_zero-le s'), ground arith, rw is_e (below_total-lt t e' some_units))

-- Of a string that is not empty, bounds within it are taken as they are, and with no bounds the
-- range is the whole string.
pub bit_range_plain :
    (n i j : ℕ) (in_bits : Bool)
    → i ≤ j
    → j < total_units n in_bits
    → (bit_range n (pos i) (pos j) true true in_bits ≡ (pos i, pos j, true))
      × (bit_range n (pos i) (pos j) false false in_bits
          ≡ (pos 0, pos (total_units n in_bits - 1), true))
unfolding bit_range from_end at_least_zero below_total ◌-ℤ◌ ◌+ℤ◌
bit_range_plain n i j in_bits h k = (ground arith, ground arith)
